-- ===== src/Timer/Queue/Armed.antt =====
-- src/timer/TimerQueue.cc: when the timerfd is set for the earliest timer, and when it is not.
use a_tiny_network_library.Common.{
  if-holds, both_ways, ℕ, Bool, ◌≤◌, ◌<◌, ◌≡◌, refl, ap, sym, subst, ◌∙◌, true, false, List, [],
  ◌∷◌, ◌++◌, Option, none, some, arith, Bool-cases, ◌⊎◌, inl, inr, ltb→le,
}
use a_tiny_network_library.Timer.{Timer, restart}
use a_tiny_network_library.Timer.Queue.{
  Entry, before, set_insert, TimerQueue, earliest_changed, insert, add_timer_in_loop, uintptr_max,
  split_expired, get_expired, arm_first, first_expiration, reset_one, reset, add_all, run_all,
  read_timer_fd, handle_read,
}
use a_tiny_network_library.Timer.Queue.Order.{
  All, Sorted, before-le, set_insert-All, set_insert-Sorted, Split, split_expired-Split,
}

abbrev pub earliest : List Entry → Option ℕ
earliest [] = none
earliest (e ∷ es) = some e.when

-- The timerfd is set for the first timer, if there is one.
abbrev pub IsArmed : List Entry → Option ℕ → Type 0
IsArmed es a = (es ≡ []) ⊎ (a ≡ earliest es)

-- The set itself: its order, its keys, and addresses below the greatest.
pub record IsOrdered (es : List Entry) : Type 0 where
  pub sorted : Sorted es
  pub stamped : All (λ e. e.when ≡ e.timer.expiration) es
  pub addressed : All (λ e. e.timer.address < uintptr_max) es

pub record IsValid (q : TimerQueue) : Type 0 where
  pub ordered : IsOrdered q.timers
  pub armed : IsArmed q.timers q.armed

abbrev entry_of : Timer → Entry
entry_of t = record { when = t.expiration; timer = t }

insert-IsOrdered :
    (t : Timer) (es : List Entry)
    → t.address < uintptr_max
    → IsOrdered es
    → IsOrdered (insert t es).1
unfolding insert
insert-IsOrdered t es k o = record {
  sorted = set_insert-Sorted (entry_of t) es o.sorted;
  stamped = set_insert-All _ (entry_of t) es refl o.stamped;
  addressed = set_insert-All _ (entry_of t) es k o.addressed;
}

earliest-changed :
    (e : Entry) (es : List Entry)
    → earliest_changed e.when es ≡ true
    → earliest (set_insert e es) ≡ some e.when
unfolding earliest_changed set_insert before
earliest-changed e [] h = refl
earliest-changed e (f ∷ fs) h = rw h

earliest-same :
    (e : Entry) (es : List Entry)
    → earliest_changed e.when es ≡ false
    → earliest (set_insert e es) ≡ earliest es
unfolding earliest_changed set_insert
earliest-same e [] h = ground arith
earliest-same e (f ∷ fs) h =
    elim (Bool-cases (before e.when e.timer.address f.when f.timer.address)) [
      | inl first ↦
          let k : e.when ≤ f.when = before-le _ _ _ _ first in
          let m : f.when ≤ e.when = ltb→le e.when f.when h in
          rw first (ap some (omega (arith, k, m)))
      | inr later ↦ elim (Bool-cases (before f.when f.timer.address e.when e.timer.address)) [
        | inl behind ↦ rw (later, behind)
        | inr same ↦ rw (later, same)
      ]
    ]

add_timer_in_loop-IsArmed :
    (t : Timer) (q : TimerQueue)
    → IsArmed q.timers q.armed
    → IsArmed (add_timer_in_loop t q).timers (add_timer_in_loop t q).armed
unfolding add_timer_in_loop insert
add_timer_in_loop-IsArmed t q a = elim (Bool-cases (earliest_changed t.expiration q.timers)) [
  | inl first ↦ inr (rw first (sym (earliest-changed (entry_of t) q.timers first)))
  | inr later ↦ elim a [
    | inl empty ↦
        both_ways {b = earliest_changed t.expiration q.timers}
          (rw empty (unfold earliest_changed in refl)) later
    | inr set ↦ inr (rw later (set ∙ sym (earliest-same (entry_of t) q.timers later)))
  ]
]

first_expiration-IsArmed :
    (a : Option ℕ) (es : List Entry) → IsOrdered es → IsArmed es (first_expiration a es)
first_expiration-IsArmed a [] o = inl refl
first_expiration-IsArmed a (e ∷ es) o = inr (ap some (sym o.stamped.0))

arm_first-IsValid : (q : TimerQueue) → IsOrdered q.timers → IsValid (arm_first q)
unfolding arm_first
arm_first-IsValid q o = record { ordered = o; armed = first_expiration-IsArmed q.armed q.timers o }

add_timer_in_loop-IsOrdered :
    (t : Timer) (q : TimerQueue)
    → t.address < uintptr_max
    → IsOrdered q.timers
    → IsOrdered (add_timer_in_loop t q).timers
unfolding add_timer_in_loop
add_timer_in_loop-IsOrdered t q k o = insert-IsOrdered t q.timers k o

-- Adding a timer keeps the set in order and the timerfd set for its first timer.
pub add_timer_in_loop-IsValid :
    (t : Timer) (q : TimerQueue)
    → t.address < uintptr_max
    → IsValid q
    → IsValid (add_timer_in_loop t q)
add_timer_in_loop-IsValid t q k v = record {
  ordered = add_timer_in_loop-IsOrdered t q k v.ordered;
  armed = add_timer_in_loop-IsArmed t q v.armed;
}

reset_one-IsValid :
    (clock : ℕ → ℕ) (e : Entry) (q : TimerQueue)
    → e.timer.address < uintptr_max
    → IsOrdered q.timers
    → IsValid (reset_one clock e q)
unfolding reset_one
reset_one-IsValid clock e q k o =
    if-holds (λ r. IsValid (arm_first r)) e.timer.repeat
      (λ again. arm_first-IsValid _ (
        insert-IsOrdered (restart (clock e.timer.address) e.timer) q.timers (unfold restart in k)
          o))
      (λ once. arm_first-IsValid q o)

reset-IsValid :
    (clock : ℕ → ℕ) (es : List Entry) (q : TimerQueue)
    → All (λ e. e.timer.address < uintptr_max) es
    → IsValid q
    → IsValid (reset clock es q)
unfolding reset
reset-IsValid clock [] q k v = v
reset-IsValid clock (e ∷ es) q (k, ks) v =
    reset-IsValid clock es (reset_one clock e q) ks (reset_one-IsValid clock e q k v.ordered)

-- The timers that the callbacks add.
abbrev pub AreAddressed : List Timer → Type 0
AreAddressed [] = Unit {0}
AreAddressed (t ∷ ts) = (t.address < uintptr_max) × AreAddressed ts

add_all-IsOrdered :
    (ts : List Timer) (q : TimerQueue)
    → AreAddressed ts
    → IsOrdered q.timers
    → IsOrdered (add_all ts q).timers
unfolding add_all
add_all-IsOrdered [] q k o = o
add_all-IsOrdered (t ∷ ts) q (k, ks) o =
    add_all-IsOrdered ts (add_timer_in_loop t q) ks (add_timer_in_loop-IsOrdered t q k o)

run_all-IsOrdered :
    (added : Entry → List Timer) (es : List Entry) (q : TimerQueue)
    → ((e : Entry) → AreAddressed (added e))
    → IsOrdered q.timers
    → IsOrdered (run_all added es q).timers
unfolding run_all
run_all-IsOrdered added [] q k o = o
run_all-IsOrdered added (e ∷ es) q k o =
    run_all-IsOrdered added es (add_all (added e) q) k (add_all-IsOrdered (added e) q (k e) o)

Sorted-append : (xs ys : List Entry) → Sorted (xs ++ ys) → Sorted ys
Sorted-append [] ys s = s
Sorted-append (x ∷ xs) ys (o, s) = Sorted-append xs ys s

All-append : (P : Entry → Type 0) (xs ys : List Entry) → All P (xs ++ ys) → All P xs × All P ys
All-append P [] ys a = (tt, a)
All-append P (x ∷ xs) ys (p, a) = let (l, r) = All-append P xs ys a in ((p, l), r)

rest-IsOrdered :
    (xs rest : List Entry) {es : List Entry} → xs ++ rest ≡ es → IsOrdered es → IsOrdered rest
rest-IsOrdered xs rest e o = record {
  sorted = Sorted-append xs rest (subst Sorted (sym e) o.sorted);
  stamped =
      (All-append _ xs rest (subst (All (λ f. f.when ≡ f.timer.expiration)) (sym e) o.stamped)).1;
  addressed =
      (All-append _ xs rest
        (subst (All (λ f. f.timer.address < uintptr_max)) (sym e) o.addressed)).1;
}

-- The first timer, if there is one, is due.
abbrev pub IsDue : (now : ℕ) → List Entry → Type 0
IsDue now [] = Unit {0}
IsDue now (e ∷ es) = e.when ≤ now

-- What `handleRead` does after the read, for any split of the set.
after_read-IsValid :
    (now : ℕ) (clock : ℕ → ℕ) (added : Entry → List Timer) (fired : Bool) (q : TimerQueue)
    (expired rest : List Entry)
    → Split now q.timers expired rest
    → ((e : Entry) → AreAddressed (added e))
    → (fired ≡ false) ⊎ IsDue now q.timers
    → IsValid q
    → IsValid (
        reset clock expired
          (run_all added expired (record (read_timer_fd fired q) { timers = rest })))
unfolding reset run_all read_timer_fd
after_read-IsValid now clock added fired q [] rest s k (inl early) v = record {
  ordered = rest-IsOrdered [] rest s.parts v.ordered;
  armed = rw early (subst (λ es. IsArmed es q.armed) (sym s.parts) v.armed);
}
after_read-IsValid now clock added fired q [] [] s k (inr due) v = record {
  ordered = rest-IsOrdered [] [] s.parts v.ordered;
  armed = inl refl;
}
after_read-IsValid now clock added fired q [] (e ∷ es) s k (inr due) v =
    let first : e.when ≤ now = subst (IsDue now) (sym s.parts) due in
    absurd (omega (arith, first, s.late.0))
after_read-IsValid now clock added fired q (x ∷ xs) rest s k due v =
    let a : All (λ f. f.timer.address < uintptr_max) ((x ∷ xs) ++ rest) =
      subst (All (λ f. f.timer.address < uintptr_max)) (sym s.parts) v.ordered.addressed in
    reset-IsValid clock xs _ (All-append _ xs rest a.1).0 (
      reset_one-IsValid clock x _ a.0 (
        run_all-IsOrdered added xs _ k
          (add_all-IsOrdered (added x) _ (k x) (rest-IsOrdered (x ∷ xs) rest s.parts v.ordered))))

split_none :
    (now : ℕ) (es : List Entry)
    → All (λ e. e.timer.address < uintptr_max) es
    → All (λ e. now < e.when) es
    → split_expired now es ≡ ([], es)
unfolding split_expired before
split_none now [] a h = refl
split_none now (e ∷ es) (a, others) (h, hs) = ground arith

-- Whenever it runs before the timerfd fires, or when the first timer is due by the clock, whatever
-- timers the callbacks add and whatever the clock says later: `handleRead` keeps the set in order and
-- the timerfd set for its first timer.
pub handle_read-IsValid :
    (fired : Bool) (now : ℕ) (clock : ℕ → ℕ) (added : Entry → List Timer) (q : TimerQueue)
    → ((e : Entry) → AreAddressed (added e))
    → (fired ≡ false) ⊎ IsDue now q.timers
    → IsValid q
    → IsValid (handle_read fired now clock added q).1
unfolding handle_read get_expired read_timer_fd
handle_read-IsValid fired now clock added q k due v =
    unfold read_timer_fd in
    after_read-IsValid now clock added fired q (split_expired now q.timers).0
      (split_expired now q.timers).1
      (split_expired-Split now q.timers v.ordered.sorted v.ordered.addressed) k due v

-- Where the timerfd fires while no timer is due by the clock, which may have been set back, no callback
-- runs, the timers wait on, and the timerfd is not set for them.
handle_read-disarmed :
    (now : ℕ) (clock : ℕ → ℕ) (added : Entry → List Timer) (q : TimerQueue)
    → IsValid q
    → All (λ e. now < e.when) q.timers
    → handle_read true now clock added q ≡ ([], record q { armed = none })
unfolding handle_read get_expired read_timer_fd
handle_read-disarmed now clock added q v late =
    rw (split_none now q.timers v.ordered.addressed late) (unfold reset run_all in refl)
