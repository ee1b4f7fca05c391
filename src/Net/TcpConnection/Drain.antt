-- ===== src/Net/TcpConnection/Drain.antt =====
-- src/net/TcpConnection.cc: what `handleWrite` does to the bytes on their way out.
use a_tiny_network_library.Common.{
  ℕ, ◌≡◌, refl, ap, sym, ◌∙◌, Bool, true, false, List, [], ◌∷◌, ◌++◌, some, arith, ltb, ◌==◌,
  if◌then◌else◌, length, take, drop, append-nil, take-append-drop, inl, inr, Bool-cases,
}
use a_tiny_network_library.Common.Posix.{WriteResult, wrote, write_error}
use mathlib.Core.Bool.{false≢true}
use a_tiny_network_library.Net.Buffer.{readable_bytes, get_buffer_all_as_string, retrieve}
use a_tiny_network_library.Net.Buffer.Layout.{
  IsValid, content, length-content-readable, string_at-readable,
}
use a_tiny_network_library.Net.Buffer.Retrieve.{content-retrieve, buffer-retrieve, retrieve-IsValid}
use a_tiny_network_library.Net.Buffer.Fd.{write_fd-content}
use a_tiny_network_library.Net.Channel.{is_writing, disable_writing}
use a_tiny_network_library.Net.TcpConnection.{
  Connection, Effect, took, shuts_down_write, effect_if, written, after_drain, drained,
  handle_write, shutdown_in_loop, is_disconnecting, queues_write_complete, logs_error,
}
use a_tiny_network_library.Net.TcpConnection.Bytes.{taken, shuts, Flushing, empty_of-length}

-- What `handleWrite` leaves: the bytes taken come off the front of those that wait; nothing is lost,
-- and the write side is closed only when nothing waits and the connection is being shut down.
pub record Flushed (c c' : Connection) (es : List Effect) : Type 0 where
  pub flushing : Flushing c'
  pub stream : taken es ++ content c'.output ≡ content c.output
  pub same_state : c'.state ≡ c.state
  pub same_size : length c'.output.buffer ≡ length c.output.buffer
  pub still : is_writing c.channel ≡ false → c' ≡ c
  pub closing :
      shuts es ≡ true
      → (content c'.output ≡ [])
        × (is_writing c'.channel ≡ false)
        × (is_disconnecting c.state ≡ true)

idle-Flushed : (c : Connection) → Flushing c → Flushed c c (logs_error ∷ [])
idle-Flushed c f = record {
  flushing = f;
  stream = refl;
  same_state = refl;
  same_size = refl;
  still = λ h. refl;
  closing = λ h. cc;
}

drained_silent :
    (b d : Bool)
    → taken (effect_if b queues_write_complete ++ (if d then shuts_down_write ∷ [] else [])) ≡ []
drained_silent true true = refl
drained_silent true false = refl
drained_silent false true = refl
drained_silent false false = refl

drained_shuts :
    (b d : Bool)
    → shuts (effect_if b queues_write_complete ++ (if d then shuts_down_write ∷ [] else [])) ≡ true
    → d ≡ true
drained_shuts b true h = refl
drained_shuts true false h = h
drained_shuts false false h = h

-- The connection after `n` bytes came off its output buffer, before the buffer is looked at.
module _ (c : Connection) (n : ℕ) (f : Flushing c) (on : is_writing c.channel ≡ true) where
  taken_off : Connection
  taken_off = record c { output = retrieve n c.output }

  taken_off-IsValid : IsValid taken_off.output
  unfolding taken_off
  taken_off-IsValid = retrieve-IsValid f.valid n

  content-taken_off : content taken_off.output ≡ drop n (content c.output)
  unfolding taken_off
  content-taken_off = content-retrieve f.valid n

  drained-Flushed :
      content taken_off.output ≡ []
      → Flushed c (drained taken_off).0 (took (take n (content c.output)) ∷ (drained taken_off).1)
  unfolding drained taken_off disable_writing is_writing shutdown_in_loop
  drained-Flushed e = record {
    flushing = record { valid = taken_off-IsValid; watched = inl e };
    stream =
        rw (drained_silent c.write_complete_callback (is_disconnecting c.state), append-nil)
          (ap (◌++◌ (take n (content c.output))) content-taken_off
            ∙ take-append-drop n (content c.output));
    same_state = refl;
    same_size = ap length (buffer-retrieve n c.output);
    still = λ off. absurd (false≢true (sym off ∙ on));
    closing = λ h. (e, refl, drained_shuts c.write_complete_callback (is_disconnecting c.state) h);
  }

  waiting-Flushed : Flushed c taken_off (took (take n (content c.output)) ∷ [])
  unfolding taken_off
  waiting-Flushed = record {
    flushing = record { valid = taken_off-IsValid; watched = inr on };
    stream = rw append-nil (
        ap (◌++◌ (take n (content c.output))) content-taken_off
        ∙ take-append-drop n (content c.output));
    same_state = refl;
    same_size = ap length (buffer-retrieve n c.output);
    still = λ off. absurd (false≢true (sym off ∙ on));
    closing = λ h. cc;
  }

  after_drain-Flushed :
      Flushed c
        (after_drain taken_off).0
        (took (take n (content c.output)) ∷ (after_drain taken_off).1)
  unfolding after_drain
  after_drain-Flushed = elim (Bool-cases (readable_bytes taken_off.output == 0)) [
    | inl empty ↦
        let z : readable_bytes taken_off.output ≡ 0 = ground arith in
        rw empty (
          drained-Flushed (
            empty_of-length (content taken_off.output)
              (omega (arith, length-content-readable taken_off-IsValid))))
    | inr some_left ↦ rw some_left waiting-Flushed
  ]

written-Flushed :
    (c : Connection) (r : WriteResult)
    → Flushing c
    → is_writing c.channel ≡ true
    → Flushed c (written c (content c.output) r).0 (written c (content c.output) r).1
unfolding written
written-Flushed c (write_error e) f on = idle-Flushed c f
written-Flushed c (wrote n) f on = elim (Bool-cases (ltb 0 n)) [
  | inl some_taken ↦ rw some_taken (unfold taken_off in after_drain-Flushed c n f on)
  | inr nothing ↦ rw nothing (idle-Flushed c f)
]

-- `handleWrite` always succeeds, whatever `write` answers: the bytes that the kernel takes come off
-- the front of the waiting ones, none is lost, what waits stays watched, and the write side is
-- closed only if nothing is left and the connection is being shut down.
pub handle_write-Flushed :
    (write : List ℕ → WriteResult) (c : Connection)
    → Flushing c
    → (c' : Connection) × (es : List Effect) × (handle_write write c ≡ some (c', es))
      × Flushed c c' es
unfolding handle_write
handle_write-Flushed write c f = elim (Bool-cases (is_writing c.channel)) [
  | inl on ↦
      let r : Connection × List Effect = written c (content c.output) (write (content c.output)) in
      (
        r.0,
        r.1,
        simp (on, all_waiting, write_fd-content write f.valid),
        written-Flushed c (write (content c.output)) f on,
      )
  | inr off ↦ (c, logs_error ∷ [], simp off, idle-Flushed c f)
]
  where
    all_waiting : get_buffer_all_as_string c.output ≡ some (content c.output)
    all_waiting = unfold get_buffer_all_as_string in string_at-readable f.valid
