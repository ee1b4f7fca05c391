-- ===== src/Logger/AsyncLogging/Order.antt =====
-- src/logger/AsyncLogging.cc: no line is lost or overtaken between the threads, and the logging
-- thread never runs out of buffers.
use a_tiny_network_library.Common.{ℕ, ◌≡◌, Bool, List, [], ◌∷◌, Option, some}
use a_tiny_network_library.Logger.FixedBuffer.{FixedBuffer}
use a_tiny_network_library.Logger.AsyncLogging.{AsyncLogging}
use a_tiny_network_library.Logger.AsyncLogging.Owned.{logged, IsFull, Inv}

module _ (size : ℕ) where
  -- What was handed to the file is the whole arrays of these buffers.
  abbrev pub AreHanded : List FixedBuffer → List (List ℕ) → Type 0
  AreHanded [] [] = Unit {0}
  AreHanded (b ∷ bs) (d ∷ ds) = IsFull size b × (d ≡ b.bytes) × AreHanded bs ds
  AreHanded _ _ = ⊥

  record Moved (written : List FixedBuffer) (l : AsyncLogging) (o : Option AsyncLogging)
      : Type 0 where
    after : AsyncLogging
    written_after : List FixedBuffer
    moved : o ≡ some after
    inv : Inv size after
    given : AreHanded written_after after.output
    same : logged written_after after ≡ logged written l

  abbrev made :
      FixedBuffer
      → Option FixedBuffer
      → List FixedBuffer
      → Option FixedBuffer
      → Option FixedBuffer
      → List FixedBuffer
      → Bool
      → List (List ℕ)
      → AsyncLogging
  made c n bs n1 n2 ws w out = record {
    current_buffer = c;
    next_buffer = n;
    buffers = bs;
    new_buffer1 = n1;
    new_buffer2 = n2;
    buffers_to_write = ws;
    writing = w;
    output = out;
  }
