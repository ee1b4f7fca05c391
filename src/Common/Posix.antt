-- ===== src/Common/Posix.antt =====
-- What the system calls that the program makes can answer. The kernel is not modelled: a call is
-- an argument of the code that makes it, and its answer is one of these values.
use a_tiny_network_library.Common.{ℕ, List}

-- `readv` and `read`: the bytes received, or -1 with `errno`.
pub data ReadResult : Type 0 where
  got : List ℕ → ReadResult
  read_error : ℕ → ReadResult

-- `write`: the number of bytes taken, or -1 with `errno`.
pub data WriteResult : Type 0 where
  wrote : ℕ → WriteResult
  write_error : ℕ → WriteResult

-- Linux's numbers.
abbrev pub epipe : ℕ
epipe = 32

abbrev pub ewouldblock : ℕ
ewouldblock = 11

abbrev pub econnreset : ℕ
econnreset = 104
