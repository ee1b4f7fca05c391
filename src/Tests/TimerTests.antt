-- ===== src/Tests/TimerTests.antt =====
-- src/timer at a queue of three timers.
use a_tiny_network_library.Common.{
  ℕ, ◌+◌, ◌*◌, ◌≤◌, ◌<◌, ◌≡◌, refl, true, List, [], ◌∷◌, some, arith, inr,
}
use a_tiny_network_library.Timer.{Timer}
use a_tiny_network_library.Timer.Queue.{Entry, TimerQueue, handle_read, reset_timerfd}
use a_tiny_network_library.Timer.Queue.Armed.{IsValid, handle_read-IsValid}
use a_tiny_network_library.Timer.Queue.Kept.{Handled, handle_read-Handled, reset_timerfd-exact}

abbrev timer : ℕ → ℕ → ℕ → Timer
timer address when interval = record {
  address = address;
  expiration = when;
  interval = interval;
  repeat = true;
}

abbrev entry : Timer → Entry
entry t = record { when = t.expiration; timer = t }

abbrev three : TimerQueue
three = record {
  timers = entry (timer 64 100 50) ∷ entry (timer 32 200 70) ∷ entry (timer 96 300 10) ∷ [];
  armed = some 100;
}

three-IsValid : IsValid three
three-IsValid = record {
  ordered = record {
    sorted = ((omega arith, (omega arith, tt)), ((omega arith, tt), (tt, tt)));
    stamped = (refl, (refl, (refl, tt)));
    addressed = (omega arith, (omega arith, (omega arith, tt)));
  };
  armed = inr refl;
}

abbrev clock : ℕ → ℕ
clock address = 250 + address

-- The callback of each timer adds one.
abbrev added : Entry → List Timer
added e = timer 16 260 5 ∷ []

handle_read-IsValid_example : IsValid (handle_read true 250 clock added three).1
handle_read-IsValid_example =
    handle_read-IsValid true 250 clock added three (λ e. (omega arith, tt)) (inr (omega arith))
      three-IsValid

handle_read-Handled_example :
    Handled 250 clock three
      (handle_read true 250 clock added three).0
      (handle_read true 250 clock added three).1
handle_read-Handled_example = handle_read-Handled true 250 clock added three three-IsValid

reset_timerfd-exact_example :
    ((reset_timerfd 3500000 1000000).1 < 1000000000)
    × (100 * 1000
        ≤ (reset_timerfd 3500000 1000000).0 * 1000000000 + (reset_timerfd 3500000 1000000).1)
    × (1000000 + 100 ≤ 3500000
        → 1000000 * 1000
            + ((reset_timerfd 3500000 1000000).0 * 1000000000 + (reset_timerfd 3500000 1000000).1)
          ≡ 3500000 * 1000)
reset_timerfd-exact_example = reset_timerfd-exact 3500000 1000000
