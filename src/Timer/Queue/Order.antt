-- ===== src/Timer/Queue/Order.antt =====
-- src/timer/TimerQueue.cc: the order of the timers, and which of them expire.
use a_tiny_network_library.Common.{
  ℕ, ◌≤◌, ◌<◌, ◌≡◌, refl, ap, true, false, List, [], ◌∷◌, ◌++◌, arith, Bool-cases, inl, inr,
}
use a_tiny_network_library.Timer.Queue.{Entry, before, set_insert, uintptr_max, split_expired}

-- A property of every entry.
abbrev pub All : (Entry → Type 0) → List Entry → Type 0
All P [] = Unit {0}
All P (e ∷ es) = P e × All P es

abbrev pub Sorted : List Entry → Type 0
Sorted [] = Unit {0}
Sorted (e ∷ es) = All (λ f. e.when ≤ f.when) es × Sorted es

pub before-le : (w a w' a' : ℕ) → before w a w' a' ≡ true → w ≤ w'
unfolding before
before-le w a w' a' h = ground arith

pub before-gt : (w a w' a' : ℕ) → before w a w' a' ≡ false → w' ≤ w
unfolding before
before-gt w a w' a' h = ground arith

-- An entry that is not in front of the sentry is later than it.
before-lt : (w a w' a' : ℕ) → a < a' → before w a w' a' ≡ false → w' < w
unfolding before
before-lt w a w' a' k h = ground arith

All-map :
    {P Q : Entry → Type 0} → ((e : Entry) → P e → Q e) → (es : List Entry) → All P es → All Q es
All-map f [] a = tt
All-map f (e ∷ es) (p, a) = (f e p, All-map f es a)

pub set_insert-All :
    (P : Entry → Type 0) (e : Entry) (es : List Entry) → P e → All P es → All P (set_insert e es)
unfolding set_insert
set_insert-All P e [] p a = (p, tt)
set_insert-All P e (f ∷ fs) p (q, a) =
    elim (Bool-cases (before e.when e.timer.address f.when f.timer.address)) [
      | inl first ↦ rw first (p, (q, a))
      | inr later ↦ elim (Bool-cases (before f.when f.timer.address e.when e.timer.address)) [
        | inl behind ↦ rw (later, behind) (q, set_insert-All P e fs p a)
        | inr same ↦ rw (later, same) (q, a)
      ]
    ]

pub set_insert-Sorted : (e : Entry) (es : List Entry) → Sorted es → Sorted (set_insert e es)
unfolding set_insert
set_insert-Sorted e [] s = (tt, tt)
set_insert-Sorted e (f ∷ fs) (a, s) =
    elim (Bool-cases (before e.when e.timer.address f.when f.timer.address)) [
      | inl first ↦
          let le : e.when ≤ f.when = before-le _ _ _ _ first in
          rw first ((le, All-map (λ g k. omega (arith, le, k)) fs a), (a, s))
      | inr later ↦ elim (Bool-cases (before f.when f.timer.address e.when e.timer.address)) [
        | inl behind ↦
            rw (later, behind)
              (set_insert-All _ e fs (before-le _ _ _ _ behind) a, set_insert-Sorted e fs s)
        | inr same ↦ rw (later, same) (a, s)
      ]
    ]

-- The timers that expire at `now`, and those that stay.
pub record Split (now : ℕ) (es expired rest : List Entry) : Type 0 where
  pub parts : expired ++ rest ≡ es
  pub early : All (λ e. e.when ≤ now) expired
  pub late : All (λ e. now < e.when) rest

pub split_expired-Split :
    (now : ℕ) (es : List Entry)
    → Sorted es
    → All (λ e. e.timer.address < uintptr_max) es
    → Split now es (split_expired now es).0 (split_expired now es).1
unfolding split_expired
split_expired-Split now [] s a = record { parts = refl; early = tt; late = tt }
split_expired-Split now (e ∷ es) (o, s) (k, a) =
    let r : Split now es (split_expired now es).0 (split_expired now es).1 =
      split_expired-Split now es s a in
    elim (Bool-cases (before e.when e.timer.address now uintptr_max)) [
      | inl first ↦ rw first (record {
        parts = ap (λ fs. e ∷ fs) r.parts;
        early = (before-le _ _ _ _ first, r.early);
        late = r.late;
      })
      | inr later ↦
          let lt : now < e.when = before-lt _ _ _ _ k later in
          rw later (record {
            parts = refl;
            early = tt;
            late = (lt, All-map (λ g m. omega (arith, lt, m)) es o);
          })
    ]
