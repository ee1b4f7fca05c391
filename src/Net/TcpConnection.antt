-- ===== src/Net/TcpConnection.antt =====
-- src/net/TcpConnection.h and src/net/TcpConnection.cc. The system calls are arguments. What a
-- method does outside the connection, from calling the user back to queueing work in the loop, is
-- the list of effects that it answers. `none` is an exception or an access out of a buffer's bounds.
pub mod Bytes
pub mod History
pub mod Calls
pub mod Drain
pub mod Direct
pub mod Output
pub mod Stream
pub mod Life
use a_tiny_network_library.Common.{
  ℕ, zero, suc, ◌+◌, ◌*◌, ◌≡◌, Bool, true, false, not, ◌&&◌, ◌||◌, List, [], ◌∷◌, ◌++◌, Option,
  none, some, ltb, leb, ◌==◌, if◌then◌else◌, length, take, drop, ◌>>=◌,
}
use a_tiny_network_library.Common.Posix.{
  ReadResult, got, read_error, WriteResult, wrote, write_error, epipe, econnreset, ewouldblock,
}
use a_tiny_network_library.Common.Word.{add_size, sub_size}
use a_tiny_network_library.Net.Buffer
use a_tiny_network_library.Net.Buffer.{
  Buffer, initial_size, append, retrieve, retrieve_all, retrieve_all_as_string, readable_bytes,
  get_buffer_all_as_string, write_fd, read_fd,
}
use a_tiny_network_library.Net.Channel
use a_tiny_network_library.Net.Channel.{
  Channel, EventMask, enable_reading, enable_writing, disable_writing, disable_all, is_writing, tie,
}

pub data State : Type 0 where
  disconnected connecting connected disconnecting : State

pub record Connection : Type 0 where
  pub state : State
  pub channel : Channel
  pub input : Buffer
  pub output : Buffer
  pub high_water_mark : ℕ
  pub write_complete_callback : Bool
  pub high_water_mark_callback : Bool

pub data Effect : Type 0 where
  -- The kernel took these bytes.
  took : List ℕ → Effect
  -- `channel_->update()`, with the new mask, and `channel_->remove()`.
  updates_channel : EventMask → Effect
  removes_channel : Effect
  -- Work for the loop.
  queues_write_complete : Effect
  queues_high_water_mark : ℕ → Effect
  queues_send : List ℕ → Effect
  queues_shutdown : Effect
  -- Calls of the user's and the server's callbacks.
  calls_connection calls_message calls_close : Effect
  shuts_down_write : Effect
  logs_error : Effect

abbrev pub Outcome : Type 0
Outcome = Option (Connection × List Effect)

-- The constructor registers the four handlers with the channel.
unfoldable pub init : ℕ → Connection
init sockfd = record {
  state = connecting;
  channel = record (Channel.init sockfd) {
    read_callback = true;
    write_callback = true;
    close_callback = true;
    error_callback = true;
  };
  input = Buffer.init initial_size;
  output = Buffer.init initial_size;
  high_water_mark = 64 * 1024 * 1024;
  write_complete_callback = false;
  high_water_mark_callback = false;
}

abbrev pub effect_if : Bool → Effect → List Effect
effect_if true e = e ∷ []
effect_if false e = []

-- The local variables of `sendInLoop` after the direct write.
pub record Attempt : Type 0 where
  pub nwrote : ℕ
  pub remaining : ℕ
  pub fault_error : Bool
  pub effects : List Effect

unfoldable pub after_write : Connection → List ℕ → WriteResult → Attempt
after_write c text (wrote n) =
    let remaining = sub_size (length text) n in
    record {
      nwrote = n;
      remaining = remaining;
      fault_error = false;
      effects =
          took (take n text)
          ∷ effect_if ((remaining == 0) && c.write_complete_callback) queues_write_complete;
    }
after_write c text (write_error e) = record {
  nwrote = 0;
  remaining = length text;
  fault_error = not (e == ewouldblock) && ((e == epipe) || (e == econnreset));
  effects = effect_if (not (e == ewouldblock)) logs_error;
}

-- The direct write, if nothing is waiting to be written.
unfoldable pub try_write : (List ℕ → WriteResult) → Connection → List ℕ → Attempt
try_write write c text =
    if not (is_writing c.channel) && (readable_bytes c.output == 0)
    then after_write c text (write text)
    else record { nwrote = 0; remaining = length text; fault_error = false; effects = [] }

unfoldable pub watch_writing : Connection → Connection × List Effect
watch_writing c =
    let channel = enable_writing c.channel in
    if not (is_writing c.channel)
    then (record c { channel = channel }, updates_channel channel.events ∷ [])
    else (c, [])

-- The callback is told when the waiting bytes come to the mark.
unfoldable pub high_water : Connection → ℕ → List Effect
high_water c remaining =
    let old_len = readable_bytes c.output in
    effect_if
      (leb c.high_water_mark (add_size old_len remaining)
        && (ltb old_len c.high_water_mark && c.high_water_mark_callback))
      (queues_high_water_mark (add_size old_len remaining))

-- What was not written is kept in the output buffer.
unfoldable pub keep_rest : Connection → List ℕ → Attempt → Outcome
keep_rest c text a = do
  let high = high_water c a.remaining
  output ← append (take a.remaining (drop a.nwrote text)) c.output
  let (c', effects) = watch_writing (record c { output = output })
  some (c', a.effects ++ (high ++ effects))

unfoldable pub finish_send : Connection → List ℕ → Attempt → Outcome
finish_send c text a =
    if not a.fault_error && ltb 0 a.remaining then keep_rest c text a else some (c, a.effects)

unfoldable pub send_in : State → (List ℕ → WriteResult) → Connection → List ℕ → Outcome
send_in disconnected write c text = some (c, logs_error ∷ [])
send_in connecting write c text = finish_send c text (try_write write c text)
send_in connected write c text = finish_send c text (try_write write c text)
send_in disconnecting write c text = finish_send c text (try_write write c text)

unfoldable pub send_in_loop : (List ℕ → WriteResult) → Connection → List ℕ → Outcome
send_in_loop write c text = send_in c.state write c text

abbrev pub is_connected : State → Bool
is_connected connected = true
is_connected _ = false

abbrev pub is_disconnecting : State → Bool
is_disconnecting disconnecting = true
is_disconnecting _ = false

-- `in_loop`: the caller runs in the loop's thread.
unfoldable pub send : (in_loop : Bool) → (List ℕ → WriteResult) → Connection → List ℕ → Outcome
send in_loop write c text =
    if is_connected c.state
    then (if in_loop then send_in_loop write c text else some (c, queues_send text ∷ []))
    else some (c, [])

unfoldable pub send_buffer :
    (in_loop : Bool)
    → (List ℕ → WriteResult)
    → Connection
    → Buffer
    → Option (Connection × List Effect × Buffer)
send_buffer in_loop write c buf =
    if is_connected c.state
    then (if in_loop
        then (do
          text ← get_buffer_all_as_string buf
          (c', effects) ← send_in_loop write c text
          some (c', effects, retrieve_all buf))
        else (do (text, buf') ← retrieve_all_as_string buf; some (c, queues_send text ∷ [], buf')))
    else some (c, [], buf)

unfoldable pub shutdown_in_loop : Connection → List Effect
shutdown_in_loop c = effect_if (not (is_writing c.channel)) shuts_down_write

unfoldable pub shutdown : (in_loop : Bool) → Connection → Connection × List Effect
shutdown in_loop c =
    let c' = record c { state = disconnecting } in
    if is_connected c.state
    then (c', if in_loop then shutdown_in_loop c' else queues_shutdown ∷ [])
    else (c, [])

unfoldable pub connect_established : Connection → Connection × List Effect
connect_established c =
    let channel = enable_reading (tie c.channel) in
    (
      record c { state = connected; channel = channel },
      updates_channel channel.events ∷ calls_connection ∷ [],
    )

unfoldable pub connect_destroyed : Connection → Connection × List Effect
connect_destroyed c =
    let channel = disable_all c.channel in
    if is_connected c.state
    then (
      record c { state = disconnected; channel = channel },
      updates_channel channel.events ∷ calls_connection ∷ removes_channel ∷ [],
    )
    else (c, removes_channel ∷ [])

unfoldable pub handle_close : Connection → Connection × List Effect
handle_close c =
    let channel = disable_all c.channel in
    (
      record c { state = disconnected; channel = channel },
      updates_channel channel.events ∷ calls_connection ∷ calls_close ∷ [],
    )

-- `getsockopt` only says what is logged.
unfoldable pub handle_error : Connection → Connection × List Effect
handle_error c = (c, logs_error ∷ [])

unfoldable pub after_read : ReadResult → Connection → Connection × List Effect
after_read (got bytes) c = if ltb 0 (length bytes) then (c, calls_message ∷ []) else handle_close c
after_read (read_error e) c = let (c', effects) = handle_error c in (c', logs_error ∷ effects)

unfoldable pub handle_read : (ℕ → ReadResult) → Connection → Outcome
handle_read readv c = do
  (n, input) ← read_fd readv c.input
  some (after_read n (record c { input = input }))

-- The output buffer is empty: stop watching, tell the user, and finish a shutdown.
unfoldable pub drained : Connection → Connection × List Effect
drained c =
    let channel = disable_writing c.channel in
    let c' = record c { channel = channel } in
    (
      c',
      updates_channel channel.events
          ∷ (effect_if c.write_complete_callback queues_write_complete
              ++ (if is_disconnecting c.state then shutdown_in_loop c' else [])),
    )

unfoldable pub after_drain : Connection → Connection × List Effect
after_drain c = if readable_bytes c.output == 0 then drained c else (c, [])

unfoldable pub written : Connection → List ℕ → WriteResult → Connection × List Effect
written c text (wrote n) =
    if ltb 0 n
    then (let (c', effects) = after_drain (record c { output = retrieve n c.output }) in
        (c', took (take n text) ∷ effects))
    else (c, logs_error ∷ [])
written c text (write_error e) = (c, logs_error ∷ [])

unfoldable pub handle_write : (List ℕ → WriteResult) → Connection → Outcome
handle_write write c =
    if is_writing c.channel
    then (do
      text ← get_buffer_all_as_string c.output
      n ← write_fd write c.output
      some (written c text n))
    else some (c, logs_error ∷ [])
