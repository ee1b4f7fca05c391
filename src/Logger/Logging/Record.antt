-- ===== src/Logger/Logging/Record.antt =====
-- src/logger/Logging.cc: the text of a whole line.
use a_tiny_network_library.Common.{
  ℕ, ◌+◌, ◌/◌, ◌≡◌, ◌≤◌, Bool, List, [], ◌∷◌, ◌++◌, if◌then◌else◌, length, take,
}
use a_tiny_network_library.Common.Text.{codes}
use a_tiny_network_library.Logger.FixedBuffer.{FixedBuffer}
use a_tiny_network_library.Logger.LogStream.{pos, formatted}
use a_tiny_network_library.Logger.Logging.{
  LogLevel, get_level_name, source_file, time_text, microseconds_text, System, Effect, outputs,
  Place,
}
use a_tiny_network_library.Logger.LogFile.Lines.{joined}

-- What a line has before its message, and what `finish` puts behind it.
abbrev pub line_head : System → LogLevel → List ℕ
line_head sys level =
    take 17 (time_text (sys.localtime (sys.now / 1000000)))
    ++ take 7 (microseconds_text sys.now)
    ++ take 6 (get_level_name level)

abbrev pub line_end : Place → List ℕ
line_end at =
    codes " - " ++ source_file at.file ++ codes ":" ++ formatted (pos at.line) ++ codes "\n"

-- The line of a statement at a place, with its head.
abbrev pub line_text : (head : List ℕ) → Place → List (List ℕ) → List ℕ
line_text head at texts =
    head
    ++ joined texts
    ++ codes " - "
    ++ source_file at.file
    ++ codes ":"
    ++ formatted (pos at.line)
    ++ codes "\n"

-- The statement, if it is enabled, outputs an array of the size that begins with the line, in one
-- call, and then does what is said.
pub Writes : (size : ℕ) (enabled : Bool) (line : List ℕ) (afterwards effects : List Effect) → Type 0
Writes size enabled line afterwards effects =
    (left : List ℕ) × (length (line ++ left) ≡ size)
    × (effects ≡ (if enabled then outputs (line ++ left) ∷ afterwards else []))

module _ (sys : System) (at : Place) (texts : List (List ℕ)) where
  Fits : Type 0
  Fits =
      length at.func + length (joined texts) + length (source_file at.file) + 83 ≤ length sys.array
