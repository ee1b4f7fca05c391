-- ===== src/Logger/LogFile/Lines.antt =====
-- src/logger/LogFile.cc: which lines stand in which file.
use a_tiny_network_library.Common.{
  ℕ, suc, ◌-◌, ◌≡◌, refl, sym, ap, ◌∙◌, subst, not, List, [], ◌∷◌, ◌++◌, Option, some, if-holds,
  ◌==◌, ltb, leb, map, arith, length, append_assoc, append-nil, length-append,
}
use mathlib.Core.List.{map-append}
use a_tiny_network_library.Logger.FileUtil.{opened, flush, after, Progresses, append-after}
use a_tiny_network_library.Logger.LogFile.{
  LogFile, period_of, roll_file, init, check_clock, roll_or_count, append_in_lock, Call, append_all,
}

-- The texts of a list, one after the other.
unfoldable pub joined {ℓ} : {A : Type ℓ} → List (List A) → List A
joined [] = []
joined (xs ∷ xss) = xs ++ joined xss

joined_nil {ℓ} : {A : Type ℓ} → ◌≡◌ {A = List A} (joined []) []
unfolding joined
joined_nil = refl

pub joined-append {ℓ} :
    {A : Type ℓ} (xss yss : List (List A)) → joined (xss ++ yss) ≡ joined xss ++ joined yss
unfolding joined
joined-append [] yss = refl
joined-append (xs ∷ xss) yss =
    ap (λ zs. xs ++ zs) (joined-append xss yss) ∙ sym (append_assoc xs (joined xss) (joined yss))

-- The lines are those of the closed files and of the open one, each file has whole lines, and the
-- count of the bytes of the open one is right.
pub record Holds (lines : List (List ℕ)) (l : LogFile) : Type 0 where
  pub before : List (List (List ℕ))
  pub now_open : List (List ℕ)
  pub in_order : joined before ++ now_open ≡ lines
  pub closed_files : map joined before ≡ l.closed
  pub open_file : joined now_open ≡ l.file.taken
  pub counted : l.file.written_bytes ≡ length l.file.taken

roll_file-Holds :
    (now : ℕ) (l : LogFile) {lines : List (List ℕ)} → Holds lines l → Holds lines (roll_file now l)
unfolding roll_file joined
roll_file-Holds now l {lines} h =
    if-holds (Holds lines) (ltb l.last_roll now)
      (λ t. record {
        before = h.before ++ (h.now_open ∷ []);
        now_open = [];
        in_order =
            append-nil (joined (h.before ++ (h.now_open ∷ [])))
            ∙ joined-append h.before (h.now_open ∷ [])
            ∙ ap (λ zs. joined h.before ++ zs) (append-nil h.now_open)
            ∙ h.in_order;
        closed_files =
            map-append joined h.before (h.now_open ∷ [])
            ∙ ap (λ zs. zs ++ (joined h.now_open ∷ [])) h.closed_files
            ∙ ap (λ t. l.closed ++ (t ∷ [])) h.open_file;
        open_file = refl;
        counted = refl;
      })
      (λ t. h)

flush-Holds :
    (l : LogFile) (now : ℕ) {lines : List (List ℕ)}
    → Holds lines l
    → Holds lines (record l { last_flush = now; file = flush l.file })
unfolding flush
flush-Holds l now h = record {
  before = h.before;
  now_open = h.now_open;
  in_order = h.in_order;
  closed_files = h.closed_files;
  open_file = h.open_file;
  counted = h.counted;
}

recount-Holds :
    (l : LogFile) (n : ℕ) {lines : List (List ℕ)}
    → Holds lines l
    → Holds lines (record l { count = n })
recount-Holds l n h = record {
  before = h.before;
  now_open = h.now_open;
  in_order = h.in_order;
  closed_files = h.closed_files;
  open_file = h.open_file;
  counted = h.counted;
}

check_clock-Holds :
    (now roll_now : ℕ) (l : LogFile) {lines : List (List ℕ)}
    → Holds lines l
    → Holds lines (check_clock now roll_now l)
unfolding check_clock
check_clock-Holds now roll_now l {lines} h =
    if-holds (Holds lines) (not (period_of now == l.start_of_period))
      (λ t. roll_file-Holds roll_now l h)
      (λ t.
        if-holds (Holds lines) (ltb l.flush_interval (now - l.last_flush))
          (λ k. flush-Holds l now h) (λ k. h))

roll_or_count-Holds :
    (now roll_now : ℕ) (l : LogFile) {lines : List (List ℕ)}
    → Holds lines l
    → Holds lines (roll_or_count now roll_now l)
unfolding roll_or_count
roll_or_count-Holds now roll_now l {lines} h =
    if-holds (Holds lines) (ltb l.roll_size l.file.written_bytes)
      (λ t. roll_file-Holds roll_now l h)
      (λ t.
        if-holds (Holds lines) (leb l.check_every_n (suc l.count))
          (λ k. check_clock-Holds now roll_now (record l { count = 0 }) (recount-Holds l 0 h))
          (λ k. recount-Holds l (suc l.count) h))

after-Holds :
    (line : List ℕ) (l : LogFile) {lines : List (List ℕ)}
    → Holds lines l
    → Holds (lines ++ (line ∷ [])) (record l { file = after line l.file })
unfolding joined
after-Holds line l h = record {
  before = h.before;
  now_open = h.now_open ++ (line ∷ []);
  in_order =
      sym (append_assoc (joined h.before) h.now_open (line ∷ []))
      ∙ ap (λ zs. zs ++ (line ∷ [])) h.in_order;
  closed_files = h.closed_files;
  open_file =
      joined-append h.now_open (line ∷ [])
      ∙ ap (λ zs. joined h.now_open ++ zs) (append-nil line)
      ∙ ap (λ zs. zs ++ line) h.open_file;
  counted = omega (arith, h.counted, length-append l.file.taken line);
}

abbrev pub lines_of : List Call → List (List ℕ)
lines_of cs = map (λ (c : Call). c.line) cs

append_all-Holds :
    (fwrite : ℕ → ℕ → ℕ) (cs : List Call) (l : LogFile) {lines : List (List ℕ)}
    → Progresses fwrite
    → Holds lines l
    → (l' : LogFile) × (append_all fwrite cs l ≡ some l') × Holds (lines ++ lines_of cs) l'
unfolding append_all append_in_lock
append_all-Holds fwrite [] l {lines} progress h =
    (l, refl, subst (λ ls. Holds ls l) (sym (append-nil lines)) h)
append_all-Holds fwrite (c ∷ cs) l {lines} progress h =
    let written = record l { file = after c.line l.file } in
    let next = roll_or_count c.now c.roll_now written in
    let (l', e, k) =
      append_all-Holds fwrite cs next progress
        (roll_or_count-Holds c.now c.roll_now written (after-Holds c.line l h)) in
    (
      l',
      rw (append-after fwrite c.line l.file progress) e,
      subst (λ ls. Holds ls l') (append_assoc lines (c.line ∷ []) (lines_of cs)) k,
    )

init-Holds :
    (roll_size flush_interval check_every_n start : ℕ) {l : LogFile}
    → init roll_size flush_interval check_every_n start ≡ some l
    → Holds [] l
unfolding init joined
init-Holds roll_size flush_interval check_every_n start {l} =
    if-holds (λ (o : Option LogFile). o ≡ some l → Holds [] l) (ltb 0 start)
      (λ t e. let e' : started ≡ l = cc in subst (Holds []) e' begins) (λ t e. cc)
  where
    started : LogFile
    started = record {
      roll_size = roll_size;
      flush_interval = flush_interval;
      check_every_n = check_every_n;
      count = 0;
      start_of_period = period_of start;
      last_roll = start;
      last_flush = start;
      file = opened;
      closed = [];
    }

    begins : Holds [] started
    begins = record {
      before = [];
      now_open = [];
      in_order = joined_nil;
      closed_files = refl;
      open_file = joined_nil;
      counted = refl;
    }

-- On a stream that takes some of what it is given at every call, every `append` of a log file
-- returns, and the files hold the lines in the order of the calls: no line is lost, doubled or split
-- between two files, wherever the size, the day and the clock make the file roll.
pub append_all-whole_lines :
    (fwrite : ℕ → ℕ → ℕ) (roll_size flush_interval check_every_n start : ℕ) (cs : List Call)
    {l : LogFile}
    → Progresses fwrite
    → init roll_size flush_interval check_every_n start ≡ some l
    → (l' : LogFile) × (append_all fwrite cs l ≡ some l') × Holds (lines_of cs) l'
append_all-whole_lines fwrite roll_size flush_interval check_every_n start cs {l} progress e =
    append_all-Holds fwrite cs l progress
      (init-Holds roll_size flush_interval check_every_n start e)
