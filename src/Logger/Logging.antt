-- ===== src/Logger/Logging.antt =====
-- src/logger/Logging.h and src/logger/Logging.cc: one line of the log, from the macro to the output.
-- `localtime` and `strerror_r` are arguments; an `int` of a date is the number it stands for.
pub mod SourceFile
pub mod Stream
pub mod Record
use a_tiny_network_library.Common.{
  ℕ, zero, suc, ◌+◌, ◌-◌, ◌/◌, ◌%◌, ◌≡◌, Bool, true, false, List, [], ◌∷◌, ◌++◌, Option, none, some,
  if◌then◌else◌, ltb, leb, ◌==◌, length, take, drop, replicate,
}
use a_tiny_network_library.Common.Text.{codes}
use a_tiny_network_library.Common.Decimal.{decimal}
use a_tiny_network_library.Logger.FixedBuffer.{FixedBuffer, append, to_string}
use a_tiny_network_library.Logger.LogStream.{ℤ, pos, format_integer, put_char, put_string}

pub data LogLevel : Type 0 where
  trace debug info warn error fatal : LogLevel

abbrev pub level_number : LogLevel → ℕ
level_number trace = 0
level_number debug = 1
level_number info = 2
level_number warn = 3
level_number error = 4
level_number fatal = 5

unfoldable pub get_level_name : LogLevel → List ℕ
get_level_name trace = codes "TRACE "
get_level_name debug = codes "DEBUG "
get_level_name info = codes "INFO  "
get_level_name warn = codes "WARN  "
get_level_name error = codes "ERROR "
get_level_name fatal = codes "FATAL "

-- `strrchr`: what follows the start from the last `c` on, that `c` included.
unfoldable pub strrchr : ℕ → List ℕ → Option (List ℕ)
strrchr c [] = none
strrchr c (x ∷ xs) = elim (strrchr c xs) [
  | none ↦ if x == c then some (x ∷ xs) else none
  | some later ↦ some later
]

-- `SourceFile`: the name of a file without its directories.
unfoldable pub source_file : List ℕ → List ℕ
source_file filename = elim (strrchr b'/' filename) [ none ↦ filename | some slash ↦ drop 1 slash ]

pub record Tm : Type 0 where
  pub tm_year : ℕ
  pub tm_mon : ℕ
  pub tm_mday : ℕ
  pub tm_hour : ℕ
  pub tm_min : ℕ
  pub tm_sec : ℕ

-- `%4d` and `%02d` of `snprintf`.
unfoldable pub padded : (width fill : ℕ) → ℕ → List ℕ
padded width fill n = replicate (width - length (decimal n)) fill ++ decimal n

unfoldable pub time_text : Tm → List ℕ
time_text tm =
    padded 4 b' ' (tm.tm_year + 1900)
    ++ codes "/"
    ++ padded 2 b'0' (tm.tm_mon + 1)
    ++ codes "/"
    ++ padded 2 b'0' tm.tm_mday
    ++ codes " "
    ++ padded 2 b'0' tm.tm_hour
    ++ codes ":"
    ++ padded 2 b'0' tm.tm_min
    ++ codes ":"
    ++ padded 2 b'0' tm.tm_sec

abbrev pub micro_seconds_per_second : ℕ
micro_seconds_per_second = 1000000

unfoldable pub microseconds_text : ℕ → List ℕ
microseconds_text now = padded 6 b'0' (now % micro_seconds_per_second) ++ codes " "

-- `Impl::formatTime`.
unfoldable pub format_time : (localtime : ℕ → Tm) (now : ℕ) → FixedBuffer → FixedBuffer
format_time localtime now b =
    append (take 7 (microseconds_text now))
      (append (take 17 (time_text (localtime (now / micro_seconds_per_second)))) b)

-- The text of an error number, if there is one.
unfoldable pub put_errno : (strerror : ℕ → List ℕ) → ℕ → FixedBuffer → FixedBuffer
put_errno strerror saved_errno b =
    if saved_errno == 0
    then b
    else put_string (some (codes ") ")) (
        format_integer (pos saved_errno)
          (put_string (some (codes " (errno=")) (put_string (some (strerror saved_errno)) b)))

pub record Impl : Type 0 where
  pub stream : FixedBuffer
  pub level : LogLevel
  pub line : ℕ
  pub basename : List ℕ

-- What the calls of the system answer while the line is made, and the array of the new stream.
pub record System : Type 0 where
  pub localtime : ℕ → Tm
  pub strerror : ℕ → List ℕ
  pub now : ℕ
  pub array : List ℕ

unfoldable pub impl : System → LogLevel → (saved_errno : ℕ) (file : List ℕ) (line : ℕ) → Impl
impl sys level saved_errno file line = record {
  stream = put_errno sys.strerror saved_errno (
      append (take 6 (get_level_name level))
        (format_time sys.localtime sys.now (record { bytes = sys.array; cur = 0 })));
  level = level;
  line = line;
  basename = source_file file;
}

-- The three constructors of `Logger`.
unfoldable pub logger : System → (file : List ℕ) (line : ℕ) → Impl
logger sys file line = impl sys info 0 file line

unfoldable pub logger_at : System → (file : List ℕ) (line : ℕ) → LogLevel → Impl
logger_at sys file line level = impl sys level 0 file line

unfoldable pub logger_in : System → (file : List ℕ) (line : ℕ) → LogLevel → (func : List ℕ) → Impl
logger_in sys file line level func =
    let i = impl sys level 0 file line in
    record i { stream = put_char b' ' (put_string (some func) i.stream) }

unfoldable pub finish : Impl → Impl
finish i = record i {
  stream = put_char b'\n' (
      format_integer (pos i.line)
        (put_char b':' (append i.basename (put_string (some (codes " - ")) i.stream))));
}

-- What the program does: `g_output` gets a text, `g_flush` is called, the process ends.
pub data Effect : Type 0 where
  outputs : List ℕ → Effect
  flushes : Effect
  aborts : Effect

unfoldable pub end_of : LogLevel → List Effect
end_of fatal = flushes ∷ aborts ∷ []
end_of _ = []

-- `~Logger`.
unfoldable pub destroy : Impl → List Effect
destroy i = outputs (to_string (finish i).stream) ∷ end_of i.level

-- The texts that a statement streams.
unfoldable pub put_all : List (List ℕ) → FixedBuffer → FixedBuffer
put_all [] b = b
put_all (text ∷ texts) b = put_all texts (put_string (some text) b)

unfoldable pub streamed : List (List ℕ) → Impl → List Effect
streamed texts i = destroy (record i { stream = put_all texts i.stream })

-- A statement with one of the macros, at a place in the program.
pub record Place : Type 0 where
  pub file : List ℕ
  pub line : ℕ
  pub func : List ℕ

unfoldable pub log_debug : (log_level : LogLevel) → System → Place → List (List ℕ) → List Effect
log_debug log_level sys at texts =
    if leb (level_number log_level) (level_number debug)
    then streamed texts (logger_in sys at.file at.line debug at.func)
    else []

unfoldable pub log_info : (log_level : LogLevel) → System → Place → List (List ℕ) → List Effect
log_info log_level sys at texts =
    if leb (level_number log_level) (level_number info)
    then streamed texts (logger sys at.file at.line)
    else []

unfoldable pub log_warn : System → Place → List (List ℕ) → List Effect
log_warn sys at texts = streamed texts (logger_at sys at.file at.line warn)

unfoldable pub log_error : System → Place → List (List ℕ) → List Effect
log_error sys at texts = streamed texts (logger_at sys at.file at.line error)

unfoldable pub log_fatal : System → Place → List (List ℕ) → List Effect
log_fatal sys at texts = streamed texts (logger_at sys at.file at.line fatal)
