-- ===== src/Logger/FixedBuffer.antt =====
-- src/logger/FixedBuffer.h. The size of the template is the length of the array.
use a_tiny_network_library.Common.{
  Bool-cases, inl, inr, append-nil, ℕ, ◌+◌, ◌-◌, ◌≤◌, ◌<◌, ◌≡◌, refl, sym, List, [], ◌++◌,
  if◌then◌else◌, ltb, length, take, drop, replicate, arith, ltb→lt, lt→ltb, length-append,
  length-take, length-drop, take-append, take-all,
}

-- `bytes` is `data_`, and `cur` the distance of `cur_` from it.
pub record FixedBuffer : Type 0 where
  pub bytes : List ℕ
  pub cur : ℕ

unfoldable pub avail : FixedBuffer → ℕ
avail b = length b.bytes - b.cur

-- `length()` is the size of the array, not of what was appended.
unfoldable pub used_length : FixedBuffer → ℕ
used_length b = length b.bytes

-- `memcpy` to `cur_`.
unfoldable pub copy_in : List ℕ → FixedBuffer → FixedBuffer
copy_in text b = record {
  bytes = take b.cur b.bytes ++ text ++ drop (b.cur + length text) b.bytes;
  cur = b.cur + length text;
}

unfoldable pub append : List ℕ → FixedBuffer → FixedBuffer
append text b = if ltb (length text) (avail b) then copy_in text b else b

unfoldable pub reset : FixedBuffer → FixedBuffer
reset b = record b { cur = 0 }

unfoldable pub bzero : FixedBuffer → FixedBuffer
bzero b = record b { bytes = replicate (length b.bytes) 0 }

unfoldable pub to_string : FixedBuffer → List ℕ
to_string b = take (used_length b) b.bytes

-- What was appended since the last reset.
abbrev pub text_of : FixedBuffer → List ℕ
text_of b = take b.cur b.bytes

abbrev pub IsValid : FixedBuffer → Type 0
IsValid b = b.cur ≤ length b.bytes

pub copy_in-cur : (text : List ℕ) (b : FixedBuffer) → (copy_in text b).cur ≡ b.cur + length text
unfolding copy_in
copy_in-cur text b = refl

pub copy_in-text :
    (text : List ℕ) (b : FixedBuffer)
    → b.cur + length text ≤ length b.bytes
    → text_of (copy_in text b) ≡ text_of b ++ text
unfolding copy_in
copy_in-text text b h =
    take-append (take b.cur b.bytes ++ text) (drop (b.cur + length text) b.bytes)
      (b.cur + length text)
      (omega (arith, h, length-append (take b.cur b.bytes) text, length-take b.cur b.bytes))

pub copy_in-length :
    (text : List ℕ) (b : FixedBuffer)
    → b.cur + length text ≤ length b.bytes
    → length (copy_in text b).bytes ≡ length b.bytes
unfolding copy_in
copy_in-length text b h = omega (
  arith,
  h,
  length-append (take b.cur b.bytes ++ text) (drop (b.cur + length text) b.bytes),
  length-append (take b.cur b.bytes) text,
  length-take b.cur b.bytes,
  length-drop (b.cur + length text) b.bytes,
)

-- A text shorter than the room left goes behind the text; any other is dropped without a trace.
pub append-text :
    (text : List ℕ) (b : FixedBuffer)
    → IsValid b
    → (text_of (append text b) ≡ text_of b ++ (if ltb (length text) (avail b) then text else []))
      × IsValid (append text b)
      × (length (append text b).bytes ≡ length b.bytes)
unfolding append avail
append-text text b v = elim (Bool-cases (ltb (length text) (length b.bytes - b.cur))) [
  | inl fits ↦
      let k : b.cur + length text ≤ length b.bytes =
        omega (arith, ltb→lt (length text) (length b.bytes - b.cur) fits) in
      rw fits (
        copy_in-text text b k,
        omega (arith, k, copy_in-length text b k, copy_in-cur text b),
        copy_in-length text b k,
      )
  | inr dropped ↦ rw dropped (sym (append-nil (text_of b)), v, refl)
]

-- Whatever was appended, `toString` gives the whole array, the rest behind the text included.
pub to_string-whole :
    (text : List ℕ) (b : FixedBuffer)
    → b.cur + length text < length b.bytes
    → to_string (append text b) ≡ text_of b ++ text ++ drop (b.cur + length text) b.bytes
unfolding to_string used_length append avail copy_in
to_string-whole text b h =
    rw (lt→ltb (length text) (length b.bytes - b.cur) (omega (arith, h)))
      (take-all _ _ (omega arith))
