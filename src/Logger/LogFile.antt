-- ===== src/Logger/LogFile.antt =====
-- src/logger/LogFile.h and src/logger/LogFile.cc: the log in files of a limited size. The clock is an
-- argument, and a file's name, which is made from it, is left out.
pub mod Lines
use a_tiny_network_library.Common.{
  ℕ, zero, suc, ◌+◌, ◌-◌, ◌*◌, ◌/◌, ◌≡◌, Bool, true, false, not, List, [], ◌∷◌, ◌++◌, Option, none,
  some, ◌>>=◌, if◌then◌else◌, ltb, leb, ◌==◌,
}
use a_tiny_network_library.Logger.FileUtil.{FileUtil, opened, flush, append}

abbrev pub roll_per_seconds : ℕ
roll_per_seconds = 86400

-- `closed` holds what the files before `file_` took, in the order in which they were opened.
pub record LogFile : Type 0 where
  pub roll_size : ℕ
  pub flush_interval : ℕ
  pub check_every_n : ℕ
  pub count : ℕ
  pub start_of_period : ℕ
  pub last_roll : ℕ
  pub last_flush : ℕ
  pub file : FileUtil
  pub closed : List (List ℕ)

-- Midnight of the day.
unfoldable pub period_of : ℕ → ℕ
period_of now = now / roll_per_seconds * roll_per_seconds

-- `rollFile` when `time` answers `now`: not twice in a second.
unfoldable pub roll_file : ℕ → LogFile → LogFile
roll_file now l =
    if ltb l.last_roll now
    then record l {
      last_roll = now;
      last_flush = now;
      start_of_period = period_of now;
      file = opened;
      closed = l.closed ++ (l.file.taken ∷ []);
    }
    else l

-- The constructor: `file_` is null before its `rollFile`, and after it at the time 0.
unfoldable pub init : (roll_size flush_interval check_every_n now : ℕ) → Option LogFile
init roll_size flush_interval check_every_n now =
    if ltb 0 now
    then some (record {
      roll_size = roll_size;
      flush_interval = flush_interval;
      check_every_n = check_every_n;
      count = 0;
      start_of_period = period_of now;
      last_roll = now;
      last_flush = now;
      file = opened;
      closed = [];
    })
    else none

-- Every `checkEveryN_` calls the clock is looked at: `now` is its answer, and `roll_now` the one that
-- `rollFile` gets.
unfoldable pub check_clock : (now roll_now : ℕ) → LogFile → LogFile
check_clock now roll_now l =
    if not (period_of now == l.start_of_period)
    then roll_file roll_now l
    else (if ltb l.flush_interval (now - l.last_flush)
        then record l { last_flush = now; file = flush l.file }
        else l)

-- `appendInLock` after the file took the text.
unfoldable pub roll_or_count : (now roll_now : ℕ) → LogFile → LogFile
roll_or_count now roll_now l =
    if ltb l.roll_size l.file.written_bytes
    then roll_file roll_now l
    else (if leb l.check_every_n (suc l.count)
        then check_clock now roll_now (record l { count = 0 })
        else record l { count = suc l.count })

unfoldable pub append_in_lock :
    (fwrite : ℕ → ℕ → ℕ) (now roll_now : ℕ) → List ℕ → LogFile → Option LogFile
append_in_lock fwrite now roll_now data_ l =
    append fwrite data_ l.file >>= (λ f. some (roll_or_count now roll_now (record l { file = f })))

-- A call of `append`, with what `time` answers in it.
pub record Call : Type 0 where
  pub line : List ℕ
  pub now : ℕ
  pub roll_now : ℕ

unfoldable pub append_all : (fwrite : ℕ → ℕ → ℕ) → List Call → LogFile → Option LogFile
append_all fwrite [] l = some l
append_all fwrite (c ∷ cs) l =
    append_in_lock fwrite c.now c.roll_now c.line l >>= append_all fwrite cs

unfoldable pub flush_file : LogFile → LogFile
flush_file l = record l { file = flush l.file }
