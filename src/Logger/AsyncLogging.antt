-- ===== src/Logger/AsyncLogging.antt =====
-- src/logger/AsyncLogging.h and src/logger/AsyncLogging.cc: the buffers of the two threads. A null
-- pointer is `none`; a result `none` is a dereference of one, or `back()` of an empty vector.
pub mod Owned
pub mod Order
use a_tiny_network_library.Common.{
  ℕ, ◌+◌, ◌≡◌, Bool, true, false, List, [], ◌∷◌, ◌++◌, Option, none, some, if◌then◌else◌, ltb,
  length, take, ◌>>=◌,
}
use a_tiny_network_library.Logger.FixedBuffer
use a_tiny_network_library.Logger.FixedBuffer.{FixedBuffer, avail, bzero, reset, used_length}

-- The members, and the local variables of `threadFunc`; `writing` says that the thread stands after
-- the exchange of the buffers. `output` lists what was handed to the log file, call by call.
pub record AsyncLogging : Type 0 where
  pub current_buffer : FixedBuffer
  pub next_buffer : Option FixedBuffer
  pub buffers : List FixedBuffer
  pub new_buffer1 : Option FixedBuffer
  pub new_buffer2 : Option FixedBuffer
  pub buffers_to_write : List FixedBuffer
  pub writing : Bool
  pub output : List (List ℕ)

-- The constructor, with the buffers that `threadFunc` makes first; `fresh` is what `new Buffer` makes.
unfoldable pub init : (fresh : FixedBuffer) → AsyncLogging
init fresh = record {
  current_buffer = bzero fresh;
  next_buffer = some (bzero fresh);
  buffers = [];
  new_buffer1 = some (bzero fresh);
  new_buffer2 = some (bzero fresh);
  buffers_to_write = [];
  writing = false;
  output = [];
}

-- The next buffer, or a new one.
abbrev pub or_new : FixedBuffer → Option FixedBuffer → FixedBuffer
or_new fresh none = fresh
or_new fresh (some b) = b

-- `fresh` is what `new Buffer` makes.
unfoldable pub append : (fresh : FixedBuffer) → List ℕ → AsyncLogging → AsyncLogging
append fresh logline l =
    if ltb (length logline) (avail l.current_buffer)
    then record l { current_buffer = FixedBuffer.append logline l.current_buffer }
    else record l {
      buffers = l.buffers ++ (l.current_buffer ∷ []);
      current_buffer = FixedBuffer.append logline (or_new fresh l.next_buffer);
      next_buffer = none;
    }

-- `if (!nextBuffer_) nextBuffer_ = std::move(newBuffer2)`: the two afterwards.
abbrev pub refill_next :
    Option FixedBuffer → Option FixedBuffer → Option FixedBuffer × Option FixedBuffer
refill_next none new2 = (new2, none)
refill_next (some b) new2 = (some b, new2)

-- The region that `threadFunc` runs under the lock.
unfoldable pub swap_buffers : AsyncLogging → Option AsyncLogging
swap_buffers l = do
  current ← l.new_buffer1
  let (next', new2) = refill_next l.next_buffer l.new_buffer2
  some (record l {
    buffers_to_write = l.buffers ++ (l.current_buffer ∷ []);
    buffers = l.buffers_to_write;
    current_buffer = current;
    new_buffer1 = none;
    next_buffer = next';
    new_buffer2 = new2;
    writing = true;
  })

-- `back()` and `pop_back()`.
unfoldable pub pop_back : List FixedBuffer → Option (FixedBuffer × List FixedBuffer)
pop_back [] = none
pop_back (b ∷ []) = some (b, [])
pop_back (b ∷ c ∷ bs) = do (last, front) ← pop_back (c ∷ bs); some (last, b ∷ front)

-- A null spare is taken from the back of the written buffers.
unfoldable pub give_back :
    Option FixedBuffer → List FixedBuffer → Option (FixedBuffer × List FixedBuffer)
give_back (some b) bs = some (b, bs)
give_back none bs = do (last, front) ← pop_back bs; some (reset last, front)

-- `output.append(buffer->data(), buffer->length())`: each call takes the whole array.
unfoldable pub handed : List FixedBuffer → List (List ℕ)
handed [] = []
handed (b ∷ bs) = take (used_length b) b.bytes ∷ handed bs

-- What `threadFunc` does outside the lock.
unfoldable pub write_back : AsyncLogging → Option AsyncLogging
write_back l = do
  (b1, bs1) ← give_back l.new_buffer1 (take 2 l.buffers_to_write)
  (b2, bs2) ← give_back l.new_buffer2 bs1
  some (record l {
    output = l.output ++ handed l.buffers_to_write;
    buffers_to_write = [];
    new_buffer1 = some b1;
    new_buffer2 = some b2;
    writing = false;
  })

-- A line of some thread, or the next move of the logging thread.
pub data Event : Type 0 where
  appends : List ℕ → Event
  moves : Event

unfoldable pub step : FixedBuffer → Event → AsyncLogging → Option AsyncLogging
step fresh (appends logline) l = some (append fresh logline l)
step fresh moves l = if l.writing then write_back l else swap_buffers l

unfoldable pub run : FixedBuffer → List Event → AsyncLogging → Option AsyncLogging
run fresh [] l = some l
run fresh (e ∷ es) l = do l' ← step fresh e l; run fresh es l'
