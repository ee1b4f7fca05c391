-- ===== src/Timer/Queue/Kept.antt =====
-- src/timer/TimerQueue.cc: no timer is lost, and the arithmetic of `resetTimerfd`.
use a_tiny_network_library.Common.{
  both_ways, if-holds, ℕ, Bool, ◌+◌, ◌-◌, ◌*◌, ◌/◌, ◌%◌, ◌≤◌, ◌<◌, ◌≡◌, refl, subst, true, false,
  List, [], ◌∷◌, ltb, if◌then◌else◌, arith, Bool-cases, ◌⊎◌, inl, inr, ltb→lt, ltb→le,
}
use a_tiny_network_library.Timer.{Timer, restart, add_time, microseconds_per_second}
use a_tiny_network_library.Timer.Queue.{
  Entry, before, set_insert, TimerQueue, insert, add_timer_in_loop, split_expired, get_expired,
  arm_first, reset_one, reset, add_all, run_all, read_timer_fd, handle_read, reset_timerfd,
}
use a_tiny_network_library.Timer.Queue.Order.{All, Split, split_expired-Split}
use a_tiny_network_library.Timer.Queue.Armed.{IsValid}

-- A timer at this address waits for this time.
abbrev pub Has : ℕ → ℕ → List Entry → Type 0
Has when address [] = ⊥
Has when address (e ∷ es) = ((e.when ≡ when) × (e.timer.address ≡ address)) ⊎ Has when address es

before-same :
    (w a w' a' : ℕ) → before w a w' a' ≡ false → before w' a' w a ≡ false → (w' ≡ w) × (a' ≡ a)
unfolding before
before-same w a w' a' h k = (ground arith, ground arith)

set_insert-Has : (e : Entry) (es : List Entry) → Has e.when e.timer.address (set_insert e es)
unfolding set_insert
set_insert-Has e [] = inl (refl, refl)
set_insert-Has e (f ∷ fs) =
    elim (Bool-cases (before e.when e.timer.address f.when f.timer.address)) [
      | inl first ↦ rw first (inl (refl, refl))
      | inr later ↦ elim (Bool-cases (before f.when f.timer.address e.when e.timer.address)) [
        | inl behind ↦ rw (later, behind) (inr (set_insert-Has e fs))
        | inr same ↦ rw (later, same) (inl (before-same _ _ _ _ later same))
      ]
    ]

set_insert-keeps : (w a : ℕ) (e : Entry) (es : List Entry) → Has w a es → Has w a (set_insert e es)
unfolding set_insert
set_insert-keeps w a e [] h = inr h
set_insert-keeps w a e (f ∷ fs) h =
    if-holds (Has w a) (before e.when e.timer.address f.when f.timer.address) (λ first. inr h)
      (λ later.
        if-holds (Has w a) (before f.when f.timer.address e.when e.timer.address)
          (λ behind. behind_Has h (set_insert-keeps w a e fs)) (λ same. h))
  where
    behind_Has :
        Has w a (f ∷ fs) → (Has w a fs → Has w a (set_insert e fs)) → Has w a (f ∷ set_insert e fs)
    behind_Has (inl k) keeps = inl k
    behind_Has (inr k) keeps = inr (keeps k)

restart-again :
    (now : ℕ) (t : Timer) → t.repeat ≡ true → (restart now t).expiration ≡ now + t.interval
unfolding restart add_time
restart-again now t h =
    if-holds (λ n. n ≡ now + t.interval) t.repeat (λ yes_. refl) (λ no_. both_ways h no_)

reset_one-keeps :
    (clock : ℕ → ℕ) (e : Entry) (q : TimerQueue) (w a : ℕ)
    → Has w a q.timers
    → Has w a (reset_one clock e q).timers
unfolding reset_one arm_first insert
reset_one-keeps clock e q w a h =
    if-holds (λ (r : TimerQueue). Has w a r.timers) e.timer.repeat
      (λ again. set_insert-keeps w a _ q.timers h) (λ once. h)

reset_one-Has :
    (clock : ℕ → ℕ) (e : Entry) (q : TimerQueue)
    → e.timer.repeat ≡ true
    → Has (clock e.timer.address + e.timer.interval) e.timer.address (reset_one clock e q).timers
unfolding reset_one arm_first insert
reset_one-Has clock e q h =
    let t : Timer = restart (clock e.timer.address) e.timer in
    let new : Entry = record { when = t.expiration; timer = t } in
    if-holds
      (λ (r : TimerQueue). Has (clock e.timer.address + e.timer.interval) e.timer.address r.timers)
      e.timer.repeat
      (λ again.
        subst (λ w. Has w e.timer.address (set_insert new q.timers))
          (restart-again (clock e.timer.address) e.timer h)
          (unfold restart in set_insert-Has new q.timers))
      (λ once. both_ways h once)

reset-keeps :
    (clock : ℕ → ℕ) (es : List Entry) (q : TimerQueue) (w a : ℕ)
    → Has w a q.timers
    → Has w a (reset clock es q).timers
unfolding reset
reset-keeps clock [] q w a h = h
reset-keeps clock (e ∷ es) q w a h =
    reset-keeps clock es (reset_one clock e q) w a (reset_one-keeps clock e q w a h)

add_all-keeps :
    (ts : List Timer) (q : TimerQueue) (w a : ℕ) → Has w a q.timers → Has w a (add_all ts q).timers
unfolding add_all add_timer_in_loop insert
add_all-keeps [] q w a h = h
add_all-keeps (t ∷ ts) q w a h = add_all-keeps ts _ w a (set_insert-keeps w a _ q.timers h)

run_all-keeps :
    (added : Entry → List Timer) (es : List Entry) (q : TimerQueue) (w a : ℕ)
    → Has w a q.timers
    → Has w a (run_all added es q).timers
unfolding run_all
run_all-keeps added [] q w a h = h
run_all-keeps added (e ∷ es) q w a h =
    run_all-keeps added es (add_all (added e) q) w a (add_all-keeps (added e) q w a h)

-- The repeating timers of the list wait again, one period after the clock.
abbrev pub WaitsAgain : (ℕ → ℕ) → List Entry → Entry → Type 0
WaitsAgain clock es e =
    e.timer.repeat ≡ true → Has (clock e.timer.address + e.timer.interval) e.timer.address es

reset-WaitsAgain :
    (clock : ℕ → ℕ) (es : List Entry) (q : TimerQueue)
    → All (WaitsAgain clock (reset clock es q).timers) es
unfolding reset
reset-WaitsAgain clock [] q = tt
reset-WaitsAgain clock (e ∷ es) q = (
  (λ h. reset-keeps clock es (reset_one clock e q) _ _ (reset_one-Has clock e q h)),
  reset-WaitsAgain clock es (reset_one clock e q),
)

abbrev Stays : List Entry → Entry → Type 0
Stays fs e = Has e.when e.timer.address fs

All-Stays : (es fs : List Entry) → ((w a : ℕ) → Has w a es → Has w a fs) → All (Stays fs) es
All-Stays [] fs f = tt
All-Stays (e ∷ es) fs f = (f _ _ (inl (refl, refl)), All-Stays es fs (λ w a h. f w a (inr h)))

-- What `handleRead` does: `called` are the timers whose callbacks ran.
pub record Handled (now : ℕ) (clock : ℕ → ℕ) (q : TimerQueue) (called : List Entry)
    (q' : TimerQueue) : Type 0 where
  pub rest : List Entry
  pub split : Split now q.timers called rest
  pub stay : All (λ e. Has e.when e.timer.address q'.timers) rest
  pub again : All (WaitsAgain clock q'.timers) called

-- `handleRead` runs the callbacks of exactly the timers whose time has come, in the order of the set,
-- whatever timers the callbacks add; the others keep waiting for their time, and each timer that ran
-- and repeats waits again, one period after the clock.
pub handle_read-Handled :
    (fired : Bool) (now : ℕ) (clock : ℕ → ℕ) (added : Entry → List Timer) (q : TimerQueue)
    → IsValid q
    → Handled now clock q
        (handle_read fired now clock added q).0
        (handle_read fired now clock added q).1
unfolding handle_read get_expired read_timer_fd
handle_read-Handled fired now clock added q v =
    let (expired, rest) = split_expired now q.timers in
    let left : TimerQueue = record (read_timer_fd fired q) { timers = rest } in
    record {
      rest = rest;
      split = split_expired-Split now q.timers v.ordered.sorted v.ordered.addressed;
      stay = All-Stays rest _ (λ w a h.
          reset-keeps clock expired (run_all added expired left) w a
            (run_all-keeps added expired left w a h));
      again = reset-WaitsAgain clock expired (run_all added expired left);
    }

timespec-exact :
    (d : ℕ)
    → (d % microseconds_per_second * 1000 < 1000000000)
      × (d / microseconds_per_second * 1000000000 + d % microseconds_per_second * 1000 ≡ d * 1000)
timespec-exact d = (omega arith, omega arith)

-- The timerfd is set for the time until the expiration, at least 100 microseconds, also where the
-- expiration has passed; the nanoseconds stay below a second, as timerfd_settime wants them.
pub reset_timerfd-exact :
    (expiration now : ℕ)
    → ((reset_timerfd expiration now).1 < 1000000000)
      × (100 * 1000
          ≤ (reset_timerfd expiration now).0 * 1000000000 + (reset_timerfd expiration now).1)
      × (now + 100 ≤ expiration
          → now * 1000
              + ((reset_timerfd expiration now).0 * 1000000000 + (reset_timerfd expiration now).1)
            ≡ expiration * 1000)
unfolding reset_timerfd
reset_timerfd-exact expiration now =
    let d : ℕ = if ltb (expiration - now) 100 then 100 else expiration - now in
    let (small, e) = timespec-exact d in
    let low : 100 ≤ d =
      if-holds (λ n. 100 ≤ n) (ltb (expiration - now) 100) (λ h. omega arith)
        (λ h. ltb→le (expiration - now) 100 h) in
    let far : now + 100 ≤ expiration → now + d ≡ expiration = λ k.
      if-holds (λ n. now + n ≡ expiration) (ltb (expiration - now) 100)
        (λ h. omega (arith, k, ltb→lt (expiration - now) 100 h)) (λ h. omega (arith, k)) in
    (small, omega (arith, e, low), λ k. omega (arith, e, far k))
