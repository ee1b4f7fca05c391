-- ===== src/Net/EventLoopThread/Handshake.antt =====
-- src/net/EventLoopThread.cc: `startLoop` hands out the loop of its thread, and misses no notification.
use a_tiny_network_library.Common.{
  ℕ, ◌≡◌, refl, sym, ap, subst, ◌⊎◌, inl, inr, Bool, List, [], ◌∷◌, ◌++◌, Option, none, some,
  if◌then◌else◌,
}
use a_tiny_network_library.Net.EventLoopThread.{
  Child, making, initialised, looping, ended, Parent, tests, waits, returned, EventLoopThread,
  start, call_back, notified, publish, end_loop, after_test, test, Step, calls_back, publishes,
  ends, makes_test, wakes, Reach, starts, next,
}

-- What holds at each place of the new thread. Before the loop is published `startLoop` has not
-- returned; while it runs `startLoop` does not wait.
abbrev calls : Bool → ℕ → List ℕ
calls has_callback own = if has_callback then own ∷ [] else []

abbrev Pending : Parent → Type 0
Pending tests = Unit {0}
Pending waits = Unit {0}
Pending (returned l) = ⊥

abbrev Handed : ℕ → Parent → Type 0
Handed own tests = Unit {0}
Handed own waits = ⊥
Handed own (returned l) = l ≡ own

abbrev Left : ℕ → Parent → Type 0
Left own tests = Unit {0}
Left own waits = Unit {0}
Left own (returned l) = l ≡ own

abbrev Inv : Bool → ℕ → Child → Option ℕ → Parent → List ℕ → Type 0
Inv has_callback own making loop parent called = (loop ≡ none) × Pending parent × (called ≡ [])
Inv has_callback own initialised loop parent called =
    (loop ≡ none) × Pending parent × (called ≡ calls has_callback own)
Inv has_callback own looping loop parent called =
    (loop ≡ some own) × Handed own parent × (called ≡ calls has_callback own)
Inv has_callback own ended loop parent called =
    (loop ≡ none) × Left own parent × (called ≡ calls has_callback own)

handed : (own : ℕ) (parent : Parent) → Pending parent → Handed own (notified parent)
unfolding notified
handed own tests h = tt
handed own waits h = tt
handed own (returned l) h = elim h [ ]

left : (own : ℕ) (parent : Parent) → Handed own parent → Left own parent
left own tests h = tt
left own waits h = elim h [ ]
left own (returned l) h = h

tested :
    (has_callback : Bool) (own : ℕ) (child : Child) (loop : Option ℕ) (called : List ℕ)
    → Inv has_callback own child loop tests called
    → Inv has_callback own child loop (after_test loop) called
unfolding after_test
tested has_callback own making loop called (l, p, c) =
    (l, subst (λ o. Pending (after_test o)) (sym l) tt, c)
tested has_callback own initialised loop called (l, p, c) =
    (l, subst (λ o. Pending (after_test o)) (sym l) tt, c)
tested has_callback own looping loop called (l, p, c) =
    (l, subst (λ o. Handed own (after_test o)) (sym l) refl, c)
tested has_callback own ended loop called (l, p, c) =
    (l, subst (λ o. Left own (after_test o)) (sym l) tt, c)

woken :
    (has_callback : Bool) (own : ℕ) (child : Child) (loop : Option ℕ) (called : List ℕ)
    → Inv has_callback own child loop waits called
    → Inv has_callback own child loop tests called
woken has_callback own making loop called h = h
woken has_callback own initialised loop called h = h
woken has_callback own looping loop called (l, p, c) = (l, tt, c)
woken has_callback own ended loop called h = h

module _ (has_callback : Bool) (own : ℕ) where
  Holds : EventLoopThread → Type 0
  Holds t = Inv has_callback own t.child t.loop t.parent t.called

  at_child :
      (t : EventLoopThread) (k : Child)
      → t.child ≡ k
      → Holds t
      → Inv has_callback own k t.loop t.parent t.called
  unfolding Holds
  at_child t k e h = subst (λ j. Inv has_callback own j t.loop t.parent t.called) e h

  Step-Holds : {t u : EventLoopThread} → Step has_callback own t u → Holds t → Holds u
  unfolding Holds call_back publish end_loop test
  Step-Holds {t} (calls_back e) h =
      let (l, p, c) = at_child t making e h in
      (l, p, ap (λ xs. if has_callback then xs ++ (own ∷ []) else xs) c)
  Step-Holds {t} (publishes e) h =
      let (l, p, c) = at_child t initialised e h in (refl, handed own t.parent p, c)
  Step-Holds {t} (ends e) h =
      let (l, p, c) = at_child t looping e h in (refl, left own t.parent p, c)
  Step-Holds {t} (makes_test e) h =
      tested has_callback own t.child t.loop t.called
        (subst (λ p. Inv has_callback own t.child t.loop p t.called) e h)
  Step-Holds {t} (wakes e) h =
      woken has_callback own t.child t.loop t.called
        (subst (λ p. Inv has_callback own t.child t.loop p t.called) e h)

  Reach-Holds : {t : EventLoopThread} → Reach has_callback own t → Holds t
  unfolding start Holds
  Reach-Holds starts = (refl, tt, refl)
  Reach-Holds (next r s) = unfold Holds in Step-Holds s (Reach-Holds r)

-- How far `startLoop` is.
pub data Stands (has_callback : Bool) (own : ℕ) (t : EventLoopThread) : Type 0 where
  has_returned :
      t.parent ≡ returned own → t.called ≡ calls has_callback own → Stands has_callback own t
  returns_next : t.parent ≡ tests → (test t).parent ≡ returned own → Stands has_callback own t
  not_published :
      (t.child ≡ making) ⊎ (t.child ≡ initialised)
      → (t.parent ≡ tests) ⊎ (t.parent ≡ waits)
      → Stands has_callback own t
  loop_ended : t.child ≡ ended → Stands has_callback own t

abbrev made : Child → Option ℕ → Parent → List ℕ → EventLoopThread
made child loop parent called = record {
  loop = loop;
  child = child;
  parent = parent;
  called = called;
}

unpublished-Stands :
    (has_callback : Bool) (own : ℕ) (child : Child) (loop : Option ℕ) (parent : Parent)
    (called : List ℕ)
    → (child ≡ making) ⊎ (child ≡ initialised)
    → Pending parent
    → Stands has_callback own (made child loop parent called)
unpublished-Stands has_callback own child loop tests called e h = not_published e (inl refl)
unpublished-Stands has_callback own child loop waits called e h = not_published e (inr refl)
unpublished-Stands has_callback own child loop (returned l) called e h = elim h [ ]

running-Stands :
    (has_callback : Bool) (own : ℕ) (loop : Option ℕ) (parent : Parent) (called : List ℕ)
    → loop ≡ some own
    → Handed own parent
    → called ≡ calls has_callback own
    → Stands has_callback own (made looping loop parent called)
unfolding test after_test
running-Stands has_callback own loop tests called l h c = returns_next refl (ap after_test l)
running-Stands has_callback own loop waits called l h c = elim h [ ]
running-Stands has_callback own loop (returned k) called l h c = has_returned (ap returned h) c

Inv-Stands :
    (has_callback : Bool) (own : ℕ) (child : Child) (loop : Option ℕ) (parent : Parent)
    (called : List ℕ)
    → Inv has_callback own child loop parent called
    → Stands has_callback own (made child loop parent called)
Inv-Stands has_callback own making loop parent called (l, p, c) =
    unpublished-Stands has_callback own making loop parent called (inl refl) p
Inv-Stands has_callback own initialised loop parent called (l, p, c) =
    unpublished-Stands has_callback own initialised loop parent called (inr refl) p
Inv-Stands has_callback own looping loop parent called (l, p, c) =
    running-Stands has_callback own loop parent called l p c
Inv-Stands has_callback own ended loop parent called h = loop_ended refl

-- In whatever order the two threads run: either `startLoop` has returned the loop of its thread, on
-- which the callback was called before; or it stands before a test that makes it return that loop,
-- so that no notification is lost; or the new thread has not published its loop yet; or that loop
-- has already ended.
pub start_loop-Stands :
    (has_callback : Bool) (own : ℕ) {t : EventLoopThread}
    → Reach has_callback own t
    → Stands has_callback own t
unfolding Holds
start_loop-Stands has_callback own {t} r =
    Inv-Stands has_callback own t.child t.loop t.parent t.called (Reach-Holds has_callback own r)
