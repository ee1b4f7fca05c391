-- ===== src/Tests/LoggerTests.antt =====
-- src/logger with arrays of a few bytes.
use a_tiny_network_library.Common.{ℕ, ◌≡◌, List, [], ◌∷◌, ◌++◌, arith, length, replicate}
use a_tiny_network_library.Common.Text.{codes}
use a_tiny_network_library.Logger.FixedBuffer.{FixedBuffer, avail, text_of, IsValid}
use a_tiny_network_library.Logger.LogStream.{negsuc, format_integer}
use a_tiny_network_library.Logger.LogStream.Digits.{read_integer, format_integer-reads}
use a_tiny_network_library.Logger.AsyncLogging.{AsyncLogging, Event, appends, moves}

abbrev clean : ℕ → FixedBuffer
clean size = record { bytes = replicate size 0; cur = 0 }

format_integer-reads_example :
    (text : List ℕ) × (text_of (format_integer (negsuc 1233) (clean 64))
      ≡ text_of (clean 64) ++ text)
    × (read_integer text ≡ negsuc 1233)
    × IsValid (format_integer (negsuc 1233) (clean 64))
    × (length (format_integer (negsuc 1233) (clean 64)).bytes ≡ length (clean 64).bytes)
format_integer-reads_example =
    format_integer-reads (negsuc 1233) (clean 64) (omega arith) (unfold avail in omega arith)
      (omega arith)

-- Four lines, with the exchange of the buffers in between; the third does not fit anywhere.
abbrev events : List Event
events =
    appends (codes "abcde")
    ∷ appends (codes "fgh")
    ∷ moves
    ∷ appends (codes "123456789")
    ∷ moves
    ∷ appends (codes "ij")
    ∷ moves
    ∷ []
