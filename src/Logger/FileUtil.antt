-- ===== src/Logger/FileUtil.antt =====
-- src/logger/FileUtil.h and src/logger/FileUtil.cc: a file that is appended to. `fwrite_unlocked` is
-- an argument: what the call of that number answers when it is asked to write so many bytes.
use a_tiny_network_library.Common.{
  ℕ, zero, suc, ◌+◌, ◌-◌, ◌≡◌, ◌≤◌, ◌<◌, refl, sym, ap, ◌∙◌, true, false, List, [], ◌∷◌, ◌++◌,
  Option, none, some, if◌then◌else◌, ◌==◌, ==→eq, arith, length, take, drop, take-all, append_assoc,
  append-nil, Bool-cases, inl, inr,
}

-- `taken` is what `fp_` took since it was opened, and `flushed` how much of it left the buffer.
pub record FileUtil : Type 0 where
  pub taken : List ℕ
  pub flushed : ℕ
  pub written_bytes : ℕ

abbrev pub opened : FileUtil
opened = record { taken = []; flushed = 0; written_bytes = 0 }

unfoldable pub flush : FileUtil → FileUtil
flush f = record f { flushed = length f.taken }

-- `FileUtil::write` where the call takes the first `n` bytes.
unfoldable pub write : ℕ → List ℕ → FileUtil → FileUtil
write n data_ f = record f { taken = f.taken ++ take n data_ }

-- The loop of `FileUtil::append`, which is in its round `fuel`-to-last: `none` while it runs.
unfoldable pub append_loop :
    (fwrite : ℕ → ℕ → ℕ) (fuel call : ℕ) (data_ : List ℕ) (written : ℕ) → FileUtil → Option FileUtil
append_loop fwrite zero call data_ written f =
    if written == length data_
    then some (record f { written_bytes = f.written_bytes + written })
    else none
append_loop fwrite (suc fuel) call data_ written f =
    let remain = length data_ - written in
    let n = fwrite call remain in
    let rest =
      append_loop fwrite fuel (suc call) data_ (written + n) (write n (drop written data_) f) in
    if written == length data_
    then some (record f { written_bytes = f.written_bytes + written })
    else rest

-- `FileUtil::append`: a round takes a byte at least, so it has no more rounds than bytes.
unfoldable pub append : (fwrite : ℕ → ℕ → ℕ) → List ℕ → FileUtil → Option FileUtil
append fwrite data_ f = append_loop fwrite (length data_) 0 data_ 0 f

-- `fwrite` takes some of what it is given, which is what a stream without an error does.
unfoldable pub Progresses : (ℕ → ℕ → ℕ) → Type 0
Progresses fwrite =
    (call remain : ℕ) → 1 ≤ remain → (1 ≤ fwrite call remain) × (fwrite call remain ≤ remain)

-- The file after the whole text.
abbrev pub after : List ℕ → FileUtil → FileUtil
after data_ f = record {
  taken = f.taken ++ data_;
  flushed = f.flushed;
  written_bytes = f.written_bytes + length data_;
}

-- What stands in the file after so many bytes of the text.
abbrev reached : List ℕ → ℕ → FileUtil → FileUtil
reached data_ written f = record {
  taken = f.taken ++ take written data_;
  flushed = f.flushed;
  written_bytes = f.written_bytes;
}

take_nil : (n : ℕ) → ◌≡◌ {A = List ℕ} (take n []) []
take_nil zero = refl
take_nil (suc n) = refl

-- A prefix, and what follows it.
take-more :
    (data_ : List ℕ) (written n k : ℕ)
    → k ≡ written + n
    → take written data_ ++ take n (drop written data_) ≡ take k data_
take-more data_ zero n k e = let e1 : n ≡ k = omega (arith, e) in ap (λ i. take i data_) e1
take-more [] (suc written) n k e = take_nil n ∙ sym (take_nil k)
take-more (x ∷ xs) (suc written) n zero e = absurd (omega arith)
take-more (x ∷ xs) (suc written) n (suc k) e =
    ap (◌∷◌ x) (take-more xs written n k (omega (arith, e)))

finished :
    (data_ : List ℕ) (written : ℕ) (f : FileUtil)
    → written ≡ length data_
    → record (reached data_ written f) { written_bytes = f.written_bytes + written } ≡ after data_ f
finished data_ written f e =
    let all : take written data_ ≡ data_ = take-all written data_ (omega (arith, e)) in
    ap (λ k. record (reached data_ written f) { written_bytes = f.written_bytes + k }) e
    ∙ ap
        (λ ds. record {
          taken = f.taken ++ ds;
          flushed = f.flushed;
          written_bytes = f.written_bytes + length data_;
        })
        all

one_write :
    (data_ : List ℕ) (written n : ℕ) (f : FileUtil)
    → write n (drop written data_) (reached data_ written f) ≡ reached data_ (written + n) f
unfolding write
one_write data_ written n f =
    ap (λ ds. record f { taken = ds })
      (append_assoc f.taken (take written data_) (take n (drop written data_))
        ∙ ap (λ ds. f.taken ++ ds) (take-more data_ written n (written + n) refl))

append_loop-ends :
    (fwrite : ℕ → ℕ → ℕ) (fuel call : ℕ) (data_ : List ℕ) (written : ℕ) (f : FileUtil)
    → Progresses fwrite
    → written ≤ length data_
    → length data_ ≤ written + fuel
    → append_loop fwrite fuel call data_ written (reached data_ written f) ≡ some (after data_ f)
unfolding append_loop write Progresses
append_loop-ends fwrite zero call data_ written f progress le enough =
    let e : written ≡ length data_ = omega (arith, le, enough) in
    let t : (written == length data_) ≡ true = ground (arith, e) in
    rw t (ap some (finished data_ written f e))
append_loop-ends fwrite (suc fuel) call data_ written f progress le enough =
    elim (Bool-cases (written == length data_)) [
      | inl t ↦ rw t (ap some (finished data_ written f (==→eq written (length data_) t)))
      | inr t ↦
          let n : ℕ = fwrite call (length data_ - written) in
          let less : written < length data_ = ground (arith, le, t) in
          let (some_of, not_more) = progress call (length data_ - written) (omega (arith, less)) in
          rw t (
            ap (append_loop fwrite fuel (suc call) data_ (written + n))
              (one_write data_ written n f)
            ∙ append_loop-ends fwrite fuel (suc call) data_ (written + n) f progress
                (omega (arith, not_more, less)) (omega (arith, some_of, enough)))
    ]

pub append-after :
    (fwrite : ℕ → ℕ → ℕ) (data_ : List ℕ) (f : FileUtil)
    → Progresses fwrite
    → append fwrite data_ f ≡ some (after data_ f)
unfolding append
append-after fwrite data_ f progress =
    ap (append_loop fwrite (length data_) 0 data_ 0) same
    ∙ append_loop-ends fwrite (length data_) 0 data_ 0 f progress (omega arith) (omega arith)
  where
    same : f ≡ reached data_ 0 f
    same = ap (λ ds. record f { taken = ds }) (sym (append-nil f.taken))

stuck :
    (fwrite : ℕ → ℕ → ℕ) (fuel call : ℕ) (data_ : List ℕ) (f : FileUtil)
    → ((call remain : ℕ) → fwrite call remain ≡ 0)
    → 1 ≤ length data_
    → append_loop fwrite fuel call data_ 0 f ≡ none
unfolding append_loop write
stuck fwrite zero call data_ f full some_byte =
    let t : (0 == length data_) ≡ false = ground (arith, some_byte) in rw t refl
stuck fwrite (suc fuel) call data_ f full some_byte =
    let t : (0 == length data_) ≡ false = ground (arith, some_byte) in
    rw (t, full call (length data_ - 0))
      (stuck fwrite fuel (suc call) data_ (record f { taken = f.taken ++ [] }) full some_byte)

-- On a stream that takes nothing any more, as on a full disk, the loop of `append` goes on for
-- ever: whatever the number of its rounds, a text with a byte in it is not written.
pub append_loop-none :
    (fwrite : ℕ → ℕ → ℕ) (fuel : ℕ) (data_ : List ℕ) (f : FileUtil)
    → ((call remain : ℕ) → fwrite call remain ≡ 0)
    → 1 ≤ length data_
    → append_loop fwrite fuel 0 data_ 0 f ≡ none
append_loop-none fwrite fuel data_ f = stuck fwrite fuel 0 data_ f
