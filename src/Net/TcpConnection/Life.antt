-- ===== src/Net/TcpConnection/Life.antt =====
-- src/net/TcpConnection.cc: what a read does to a connection.
use a_tiny_network_library.Common.{
  ℕ, ◌+◌, ◌≡◌, ◌≢◌, refl, true, List, [], ◌∷◌, ◌++◌, some, arith, ◌⊎◌, inl, inr, length, ◌≤◌,
  lt→ltb, suc,
}
use a_tiny_network_library.Common.Posix.{ReadResult, got, read_error}
use a_tiny_network_library.Net.Buffer.{Buffer, max_size, extrabuf_size, read_room}
use a_tiny_network_library.Net.Buffer.Layout.{IsValid, content}
use a_tiny_network_library.Net.Buffer.Fd.{WithinRoom, received, read_fd-Received}
use a_tiny_network_library.Net.Channel.{is_none_event, disable_all}
use a_tiny_network_library.Net.TcpConnection.{
  disconnected, Connection, Effect, calls_connection, calls_message, calls_close, logs_error,
  handle_close, handle_read, after_read, handle_error, updates_channel,
}

-- What one read leaves, for each answer of the kernel.
pub record ReadOutcome (c : Connection) (r : ReadResult) (c' : Connection) (es : List Effect)
    : Type 0 where
  pub valid : IsValid c'.input
  pub arrived : content c'.input ≡ content c.input ++ received r
  pub same_output : c'.output ≡ c.output
  pub notified :
      ((length (received r) ≢ 0) × (c'.state ≡ c.state) × (es ≡ calls_message ∷ []))
      ⊎ ((r ≡ got [])
          × (c'.state ≡ disconnected)
          × (is_none_event c'.channel ≡ true)
          × (es ≡ updates_channel c'.channel.events ∷ calls_connection ∷ calls_close ∷ []))
      ⊎ ((e : ℕ) × (r ≡ read_error e) × (c'.state ≡ c.state) × (es ≡ logs_error ∷ logs_error ∷ []))

after_read-ReadOutcome :
    (r : ReadResult) (c : Connection) (input : Buffer)
    → IsValid input
    → content input ≡ content c.input ++ received r
    → ReadOutcome c r
        (after_read r (record c { input = input })).0
        (after_read r (record c { input = input })).1
unfolding after_read handle_close handle_error disable_all is_none_event
after_read-ReadOutcome (got []) c input v e = record {
  valid = v;
  arrived = e;
  same_output = refl;
  notified = inr (inl (refl, refl, refl, refl));
}
after_read-ReadOutcome (got (x ∷ xs)) c input v e =
    rw (lt→ltb 0 (suc (length xs)) (omega arith)) (record {
      valid = v;
      arrived = e;
      same_output = refl;
      notified = inl (omega arith, refl, refl);
    })
after_read-ReadOutcome (read_error n) c input v e = record {
  valid = v;
  arrived = e;
  same_output = refl;
  notified = inr (inr (n, refl, refl, refl));
}

-- `handleRead` on a well-formed input buffer with 64 KB left to its maximal size, for every answer of
-- `readv`: the bytes received go behind the input; data are announced to the user; the end of the
-- stream closes the connection and takes its events off the poller; an error is only logged.
pub handle_read-ReadOutcome :
    (readv : ℕ → ReadResult) (c : Connection)
    → IsValid c.input
    → WithinRoom readv
    → length c.input.buffer + extrabuf_size ≤ max_size
    → (c' : Connection) × (es : List Effect) × (handle_read readv c ≡ some (c', es))
      × ReadOutcome c (readv (read_room c.input)) c' es
unfolding handle_read
handle_read-ReadOutcome readv c v w k =
    let (input, e, r) = read_fd-Received readv v w k in
    (_, _, rw e, after_read-ReadOutcome (readv (read_room c.input)) c input r.valid r.extended)
