-- ===== src/Logger/AsyncLogging/Owned.antt =====
-- src/logger/AsyncLogging.cc: the buffers of the two threads, and a line that is appended.
use a_tiny_network_library.Common.{
  ℕ, ◌≤◌, ◌≡◌, refl, ap, sym, ◌∙◌, Bool, true, false, List, [], ◌∷◌, ◌++◌, Option, none, some,
  if◌then◌else◌, ltb, length, take, arith, if-holds, Bool-cases, inl, inr, ltb→lt, lt→ltb,
  append_assoc, append-nil, length-append,
}
use a_tiny_network_library.Logger.FixedBuffer
use a_tiny_network_library.Logger.FixedBuffer.{
  FixedBuffer, avail, reset, text_of, IsValid, append-text,
}
use a_tiny_network_library.Logger.AsyncLogging.{AsyncLogging, or_new, append, Event, appends, moves}

-- The text of a row of buffers.
abbrev pub texts : List FixedBuffer → List ℕ
texts [] = []
texts (b ∷ bs) = text_of b ++ texts bs

pub texts-append : (bs cs : List FixedBuffer) → texts (bs ++ cs) ≡ texts bs ++ texts cs
texts-append [] cs = refl
texts-append (b ∷ bs) cs =
    ap (◌++◌ (text_of b)) (texts-append bs cs)
    ∙ sym (append_assoc (text_of b) (texts bs) (texts cs))

-- Everything that was logged, in the order in which it reaches the file: `written` are the buffers that
-- were handed to it, as they were then.
abbrev pub logged : (written : List FixedBuffer) → AsyncLogging → List ℕ
logged written l =
    texts written ++ texts l.buffers_to_write ++ texts l.buffers ++ text_of l.current_buffer

-- A line that does not fit into an empty buffer is dropped.
abbrev pub accepted : ℕ → List Event → List ℕ
accepted size [] = []
accepted size (appends line ∷ es) =
    (if ltb (length line) size then line else []) ++ accepted size es
accepted size (moves ∷ es) = accepted size es

module _ (size : ℕ) where
  pub record IsFull (b : FixedBuffer) : Type 0 where
    pub valid : IsValid b
    pub size_is : length b.bytes ≡ size

  -- An empty buffer.
  pub record IsClean (b : FixedBuffer) : Type 0 where
    pub empty : b.cur ≡ 0
    pub size_is : length b.bytes ≡ size

  abbrev pub AreFull : List FixedBuffer → Type 0
  AreFull [] = Unit {0}
  AreFull (b ∷ bs) = IsFull b × AreFull bs

  abbrev pub IsSpare : Option FixedBuffer → Type 0
  IsSpare none = ⊥
  IsSpare (some b) = IsClean b

  abbrev pub MaySpare : Option FixedBuffer → Type 0
  MaySpare none = Unit {0}
  MaySpare (some b) = IsClean b

  -- The buffers of the logging thread: two spare ones while it waits; while it writes, those it
  -- lent are made up for by the buffers it writes.
  abbrev pub Back : Bool → Option FixedBuffer → Option FixedBuffer → List FixedBuffer → Type 0
  Back false new1 new2 bs = IsSpare new1 × IsSpare new2 × (bs ≡ [])
  Back true new1 new2 bs =
      (new1 ≡ none) × MaySpare new2 × AreFull bs × (1 ≤ length bs) × (new2 ≡ none → 2 ≤ length bs)

  pub record Inv (l : AsyncLogging) : Type 0 where
    pub current : IsFull l.current_buffer
    pub next : MaySpare l.next_buffer
    pub used : l.next_buffer ≡ none → 1 ≤ length l.buffers
    pub full : AreFull l.buffers
    pub back : Back l.writing l.new_buffer1 l.new_buffer2 l.buffers_to_write

  pub IsClean-IsFull : (b : FixedBuffer) → IsClean b → IsFull b
  IsClean-IsFull b c = record { valid = omega (arith, c.empty); size_is = c.size_is }

  pub AreFull-append : (bs cs : List FixedBuffer) → AreFull bs → AreFull cs → AreFull (bs ++ cs)
  AreFull-append [] cs f g = g
  AreFull-append (b ∷ bs) cs (h, f) g = (h, AreFull-append bs cs f g)

  or_new-IsClean :
      (fresh : FixedBuffer) (o : Option FixedBuffer)
      → IsClean fresh
      → MaySpare o
      → IsClean (or_new fresh o)
  or_new-IsClean fresh none c m = c
  or_new-IsClean fresh (some b) c m = m

  append-IsFull : (text : List ℕ) (b : FixedBuffer) → IsFull b → IsFull (FixedBuffer.append text b)
  append-IsFull text b f =
      let (e, v, k) = append-text text b f.valid in record { valid = v; size_is = k ∙ f.size_is }

  pub append-Inv :
      (fresh : FixedBuffer) (line : List ℕ) (l : AsyncLogging)
      → IsClean fresh
      → Inv l
      → Inv (append fresh line l)
  unfolding append
  append-Inv fresh line l c v =
      if-holds Inv (ltb (length line) (avail l.current_buffer))
        (λ fits. record {
          current = append-IsFull line l.current_buffer v.current;
          next = v.next;
          used = v.used;
          full = v.full;
          back = v.back;
        })
        (λ full. record {
          current =
              append-IsFull line _ (IsClean-IsFull _ (or_new-IsClean fresh l.next_buffer c v.next));
          next = tt;
          used = λ e. omega (arith, length-append l.buffers (l.current_buffer ∷ []));
          full = AreFull-append l.buffers _ v.full (v.current, tt);
          back = v.back;
        })

  avail-le : (b : FixedBuffer) → avail b ≤ length b.bytes
  unfolding avail
  avail-le b = omega arith

  clean-text :
      (line : List ℕ) (b : FixedBuffer)
      → IsClean b
      → text_of (FixedBuffer.append line b) ≡ (if ltb (length line) size then line else [])
  clean-text line b c =
      let f : IsFull b = IsClean-IsFull b c in
      let a : avail b ≡ size = unfold avail in omega (arith, c.empty, c.size_is) in
      (append-text line b f.valid).0
      ∙ ap (λ n. take n b.bytes ++ (if ltb (length line) (avail b) then line else [])) c.empty
      ∙ ap (λ n. if ltb (length line) n then line else []) a

  pub append-logged :
      (written : List FixedBuffer) (fresh : FixedBuffer) (line : List ℕ) (l : AsyncLogging)
      → IsClean fresh
      → Inv l
      → logged written (append fresh line l)
        ≡ logged written l ++ (if ltb (length line) size then line else [])
  unfolding append
  append-logged written fresh line l c v =
      elim (Bool-cases (ltb (length line) (avail l.current_buffer))) [
        | inl fits ↦
            let text : text_of (FixedBuffer.append line l.current_buffer)
                ≡ text_of l.current_buffer ++ line =
              (append-text line l.current_buffer v.current.valid).0
              ∙ ap (λ b. text_of l.current_buffer ++ (if b then line else [])) fits in
            let small : ltb (length line) size ≡ true = lt→ltb (length line) size (
              omega (
                arith,
                v.current.size_is,
                avail-le l.current_buffer,
                ltb→lt (length line) (avail l.current_buffer) fits,
              )) in
            rw (fits, small, text) (sym (append_assoc _ (text_of l.current_buffer) line))
        | inr full ↦
            rw
              (
                full,
                clean-text line (or_new fresh l.next_buffer)
                    (or_new-IsClean fresh l.next_buffer c v.next),
                texts-append l.buffers (l.current_buffer ∷ []),
                append-nil (text_of l.current_buffer),
              )
              (ap (λ xs. xs ++ (if ltb (length line) size then line else []))
                (sym (append_assoc _ (texts l.buffers) (text_of l.current_buffer))))
      ]
