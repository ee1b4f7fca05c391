-- ===== src/Timer/Queue.antt =====
-- src/timer/TimerQueue.h and src/timer/TimerQueue.cc. The red-black tree is the sorted list of its
-- entries; the clock is an argument, and `armed` is the expiration that the timerfd was set for and has not fired for.
pub mod Order
pub mod Armed
pub mod Kept
use a_tiny_network_library.Common.{
  ℕ, ◌+◌, ◌-◌, ◌*◌, ◌/◌, ◌%◌, ◌^◌, ◌≡◌, Bool, true, false, ◌&&◌, ◌||◌, List, [], ◌∷◌, ◌++◌, map,
  Option, none, some, ltb, ◌==◌, if◌then◌else◌,
}
use a_tiny_network_library.Timer.{Timer, restart, microseconds_per_second}

-- `Entry`: the key of the set.
pub record Entry : Type 0 where
  pub when : ℕ
  pub timer : Timer

-- The order of std::pair on a timestamp and an address.
unfoldable pub before : ℕ → ℕ → ℕ → ℕ → Bool
before when address when' address' = ltb when when' || ((when == when') && ltb address address')

-- Insertion into the set: an entry that is already there is not inserted again.
unfoldable pub set_insert : Entry → List Entry → List Entry
set_insert e [] = e ∷ []
set_insert e (f ∷ fs) =
    let rest = set_insert e fs in
    if before e.when e.timer.address f.when f.timer.address
    then e ∷ f ∷ fs
    else (if before f.when f.timer.address e.when e.timer.address then f ∷ rest else f ∷ fs)

pub record TimerQueue : Type 0 where
  pub timers : List Entry
  pub armed : Option ℕ

unfoldable pub init : TimerQueue
init = record { timers = []; armed = none }

-- The test of `insert`: the new timer is the earliest.
unfoldable pub earliest_changed : ℕ → List Entry → Bool
earliest_changed when [] = true
earliest_changed when (e ∷ es) = ltb when e.when

unfoldable pub insert : Timer → List Entry → Bool × List Entry
insert t es =
    (earliest_changed t.expiration es, set_insert (record { when = t.expiration; timer = t }) es)

unfoldable pub add_timer_in_loop : Timer → TimerQueue → TimerQueue
add_timer_in_loop t q =
    let (changed, es) = insert t q.timers in
    record { timers = es; armed = if changed then some t.expiration else q.armed }

-- The greatest address, UINTPTR_MAX.
abbrev pub uintptr_max : ℕ
uintptr_max = 2 ^ 64 - 1

-- The entries in front of the bound of `getExpired`, and the others.
unfoldable pub split_expired : ℕ → List Entry → List Entry × List Entry
split_expired now [] = ([], [])
split_expired now (e ∷ es) =
    let (expired, rest) = split_expired now es in
    if before e.when e.timer.address now uintptr_max then (e ∷ expired, rest) else ([], e ∷ es)

unfoldable pub get_expired : ℕ → TimerQueue → List Entry × TimerQueue
get_expired now q =
    let (expired, rest) = split_expired now q.timers in (expired, record q { timers = rest })

-- `resetTimerfd` for the first entry, if there is one.
abbrev pub first_expiration : Option ℕ → List Entry → Option ℕ
first_expiration armed [] = armed
first_expiration armed (e ∷ es) = some e.timer.expiration

unfoldable pub arm_first : TimerQueue → TimerQueue
arm_first q = record q { armed = first_expiration q.armed q.timers }

-- One turn of the loop of `reset`; a timer that does not repeat is deleted. `clock` is the time at
-- which each timer is restarted.
unfoldable pub reset_one : (clock : ℕ → ℕ) → Entry → TimerQueue → TimerQueue
reset_one clock e q =
    let again = insert (restart (clock e.timer.address) e.timer) q.timers in
    arm_first (if e.timer.repeat then record q { timers = again.1 } else q)

unfoldable pub reset : (clock : ℕ → ℕ) → List Entry → TimerQueue → TimerQueue
reset clock [] q = q
reset clock (e ∷ es) q = reset clock es (reset_one clock e q)

unfoldable pub add_all : List Timer → TimerQueue → TimerQueue
add_all [] q = q
add_all (t ∷ ts) q = add_all ts (add_timer_in_loop t q)

-- The callbacks of the timers, in order; `added` are the timers that the callback of each one adds.
unfoldable pub run_all : (added : Entry → List Timer) → List Entry → TimerQueue → TimerQueue
run_all added [] q = q
run_all added (e ∷ es) q = run_all added es (add_all (added e) q)

-- `ReadTimerFd`. The timerfd fires once: where it has `fired`, it is set no more; where it was set
-- again in between, the read fails and it stays set.
unfoldable pub read_timer_fd : (fired : Bool) → TimerQueue → TimerQueue
read_timer_fd fired q = record q { armed = if fired then none else q.armed }

-- The timers whose callbacks ran, in order, and the queue afterwards.
unfoldable pub handle_read :
    (fired : Bool) (now : ℕ) (clock : ℕ → ℕ) (added : Entry → List Timer)
    → TimerQueue
    → List Entry × TimerQueue
handle_read fired now clock added q =
    let (expired, left) = get_expired now (read_timer_fd fired q) in
    (expired, reset clock expired (run_all added expired left))

-- The seconds and nanoseconds for which the timerfd is set; a difference below 100, a negative one
-- too, becomes 100.
unfoldable pub reset_timerfd : ℕ → ℕ → ℕ × ℕ
reset_timerfd expiration now =
    let difference = if ltb (expiration - now) 100 then 100 else expiration - now in
    (difference / microseconds_per_second, difference % microseconds_per_second * 1000)

-- What the destructor asks of the loop and the kernel.
pub data Release : Type 0 where
  disables_channel : Release
  removes_channel : Release
  closes_timerfd : Release
  deletes : (address : ℕ) → Release

unfoldable pub delete_all : List Entry → List Release
delete_all [] = []
delete_all (e ∷ es) = deletes e.timer.address ∷ delete_all es

unfoldable pub destroy : TimerQueue → List Release
destroy q = disables_channel ∷ removes_channel ∷ closes_timerfd ∷ delete_all q.timers
