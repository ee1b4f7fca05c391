-- ===== src/Timer/Timestamp.antt =====
-- src/base/Timestamp.h and src/base/Timestamp.cc: the text of a time. `gettimeofday` and `localtime`
-- are arguments.
use a_tiny_network_library.Common.{
  ℕ, ◌+◌, ◌*◌, ◌/◌, ◌%◌, ◌≡◌, ◌<◌, Bool, List, ◌++◌, if◌then◌else◌, arith,
}
use a_tiny_network_library.Common.Text.{codes}
use a_tiny_network_library.Logger.Logging.{Tm, padded, time_text, micro_seconds_per_second}

-- `Timestamp::now` with the seconds and microseconds of `gettimeofday`.
unfoldable pub now : (tv_sec tv_usec : ℕ) → ℕ
now tv_sec tv_usec = tv_sec * micro_seconds_per_second + tv_usec

unfoldable pub seconds_since_epoch : ℕ → ℕ
seconds_since_epoch t = t / micro_seconds_per_second

unfoldable pub to_formatted_string : (localtime : ℕ → Tm) (show_microseconds : Bool) → ℕ → List ℕ
to_formatted_string localtime show_microseconds t =
    let text = time_text (localtime (t / micro_seconds_per_second)) in
    if show_microseconds
    then text ++ codes "." ++ padded 6 b'0' (t % micro_seconds_per_second)
    else text

-- The seconds and the microseconds of a time are those that it was made of.
pub seconds_since_epoch-now :
    (tv_sec tv_usec : ℕ)
    → tv_usec < 1000000
    → (seconds_since_epoch (now tv_sec tv_usec) ≡ tv_sec) × (now tv_sec tv_usec % 1000000 ≡ tv_usec)
unfolding seconds_since_epoch now
seconds_since_epoch-now tv_sec tv_usec h = (omega arith, omega arith)
