-- ===== src/Tests/LogFileTests.antt =====
-- src/logger/LogFile.cc with files of two bytes.
use a_tiny_network_library.Common.{ℕ, ◌≡◌, refl, List, [], ◌∷◌, none, some, min, arith}
use a_tiny_network_library.Logger.FileUtil.{opened, append_loop, Progresses, append_loop-none}
use a_tiny_network_library.Logger.LogFile.{LogFile, period_of, init, Call, append_all}
use a_tiny_network_library.Logger.LogFile.Lines.{Holds, lines_of, append_all-whole_lines}

-- A stream that takes two bytes at a time, and one that is full.
abbrev two_bytes : ℕ → ℕ → ℕ
two_bytes call remain = min 2 remain

abbrev full_disk : ℕ → ℕ → ℕ
full_disk call remain = 0

two_bytes-Progresses : Progresses two_bytes
unfolding Progresses
two_bytes-Progresses call remain h = (omega arith, omega arith)

abbrev calls : List Call
calls =
    record { line = 1 ∷ 2 ∷ 3 ∷ []; now = 1000; roll_now = 1001 }
    ∷ record { line = 4 ∷ []; now = 1002; roll_now = 1002 }
    ∷ record { line = 5 ∷ 6 ∷ []; now = 1003; roll_now = 1004 }
    ∷ []

abbrev started : LogFile
started = record {
  roll_size = 2;
  flush_interval = 3;
  check_every_n = 1024;
  count = 0;
  start_of_period = 0;
  last_roll = 1000;
  last_flush = 1000;
  file = opened;
  closed = [];
}

starts : init 2 3 1024 1000 ≡ some started
unfolding init period_of
starts = refl

append_all-whole_lines_example :
    (l : LogFile) × (append_all two_bytes calls started ≡ some l) × Holds (lines_of calls) l
append_all-whole_lines_example =
    append_all-whole_lines two_bytes 2 3 1024 1000 calls two_bytes-Progresses starts

append_loop-none_example : append_loop full_disk 100 0 (7 ∷ []) 0 opened ≡ none
append_loop-none_example =
    append_loop-none full_disk 100 (7 ∷ []) opened (λ call remain. refl) (omega arith)
