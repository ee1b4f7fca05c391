-- ===== src/Timer.antt =====
-- src/timer/Timer.h, src/timer/Timer.cc and the arithmetic of src/base/Timestamp.h. A timestamp is its
-- number of microseconds.
pub mod Queue
pub mod Timestamp
use a_tiny_network_library.Common.{ℕ, ◌+◌, ◌*◌, ◌≡◌, Bool, if◌then◌else◌}

abbrev pub microseconds_per_second : ℕ
microseconds_per_second = 1000 * 1000

-- `addTime`, with the delay already in microseconds.
unfoldable pub add_time : ℕ → ℕ → ℕ
add_time timestamp delta = timestamp + delta

-- A timer is known by its address. `interval` is the period in microseconds, as `addTime` computes
-- it from the floating-point seconds; `repeat` is the test whether these are positive.
pub record Timer : Type 0 where
  pub address : ℕ
  pub expiration : ℕ
  pub interval : ℕ
  pub repeat : Bool

unfoldable pub restart : ℕ → Timer → Timer
restart now t = record t { expiration = if t.repeat then add_time now t.interval else 0 }
