-- ===== src/Tests/NetTests.antt =====
-- src/net: channels, the poller, connections and the loop at small states.
use a_tiny_network_library.Common.{
  ℕ, ◌+◌, ◌<◌, ◌≡◌, ◌≢◌, refl, true, false, List, [], ◌∷◌, ◌++◌, Option, none, some, arith, length,
  take, length-take, inr, ◌⊎◌,
}
use a_tiny_network_library.Common.Posix.{ReadResult, got, WriteResult, wrote}
use a_tiny_network_library.Common.Text.{codes}
use a_tiny_network_library.Net.Buffer.{Buffer, read_room}
use a_tiny_network_library.Net.Buffer.Layout.{IsValid, content}
use a_tiny_network_library.Net.Buffer.Fd.{WithinRoom}
use a_tiny_network_library.Net.Channel
use a_tiny_network_library.Net.Channel.{
  Channel, EventMask, Callback, handle_event, k_new, none_event,
}
use a_tiny_network_library.Net.Channel.Dispatch.{Dispatches, handle_event-Dispatches}
use a_tiny_network_library.Net.Poller.{has_fd}
use a_tiny_network_library.Net.Poller.Registration.{
  Change, enables_reading, enables_writing, disables_all, removes, ctl_all, apply_all, Agrees,
  apply_all-Agrees,
}
use a_tiny_network_library.Net.TcpConnection.{
  disconnected, connected, Connection, Effect, send_in_loop, handle_write, handle_read,
}
use a_tiny_network_library.Net.TcpConnection.Bytes.{WithinText, Flushing, taken, shuts}
use a_tiny_network_library.Net.TcpConnection.Output.{Sent, is_lost, send_in_loop-Sent}
use a_tiny_network_library.Net.TcpConnection.Drain.{Flushed, handle_write-Flushed}
use a_tiny_network_library.Net.TcpConnection.History.{
  Call, sends, writable, shuts_down, run, accepted,
}
use a_tiny_network_library.Net.TcpConnection.Stream.{run-taken}
use a_tiny_network_library.Net.TcpConnection.Life.{ReadOutcome, handle_read-ReadOutcome}
use a_tiny_network_library.Net.EventLoop
use a_tiny_network_library.Net.EventLoop.{
  EventLoop, Phase, polling, in_handler, Step, Steps, here, next, starts, polled, queues, handled,
  calls, turn_ends, other_queues, other_is_done, start_loop, poll_returns, begin_calling, call_next,
  end_calling, other_enqueues, other_wakes, queue_in_loop, enqueue, needs_wakeup, wakeup,
}
use a_tiny_network_library.Net.EventLoop.Wakeup.{in_hand, no_lost_wakeup, pending_functors-fifo}

-- A hangup with data: the read callback runs, not the close callback.
abbrev hung_up : Channel
hung_up = record (Channel.init 5) {
  revents = record none_event { epoll_in = true; epoll_hup = true };
  tied = true;
  read_callback = true;
  close_callback = true;
}

handle_event-Dispatches_example : Dispatches 7 true hung_up (handle_event 7 true hung_up)
handle_event-Dispatches_example = handle_event-Dispatches 7 true hung_up

abbrev changes : List Change
changes = enables_reading ∷ enables_writing ∷ disables_all ∷ enables_reading ∷ removes ∷ []

new-Agrees : Agrees [] (Channel.init 5) none
unfolding Channel.init has_fd
new-Agrees = record { entry = refl; mapped = refl }

apply_all-Agrees_example :
    (k' : Option EventMask) × (ctl_all (apply_all changes [] (Channel.init 5)).calls none ≡ some k')
    × Agrees
        (apply_all changes [] (Channel.init 5)).channels
        (apply_all changes [] (Channel.init 5)).channel
        k'
apply_all-Agrees_example = apply_all-Agrees changes [] (Channel.init 5) none new-Agrees

-- A connected connection with "ab" waiting.
abbrev waiting : Buffer
waiting = record { buffer = codes "........ab...."; reader_index = 8; writer_index = 10 }

waiting-IsValid : IsValid waiting
waiting-IsValid = record {
  prepended = omega arith;
  ordered = omega arith;
  fits = omega arith;
  bounded = omega arith;
}

abbrev busy : Connection
busy = record {
  state = connected;
  channel = record {
    fd = 5;
    events = record none_event { epoll_in = true; epoll_out = true };
    revents = none_event;
    index = Channel.k_added;
    tied = true;
    read_callback = true;
    write_callback = true;
    close_callback = true;
    error_callback = true;
  };
  input = waiting;
  output = waiting;
  high_water_mark = 64;
  write_complete_callback = true;
  high_water_mark_callback = false;
}

busy-Flushing : Flushing busy
busy-Flushing = record {
  valid = waiting-IsValid;
  watched = inr (unfold Channel.is_writing in refl);
}

-- The kernel takes one byte at a time.
abbrev one_byte : List ℕ → WriteResult
one_byte text = wrote (length (take 1 text))

one_byte-WithinText : WithinText one_byte
one_byte-WithinText text = omega (arith, length-take 1 text)

connected≢disconnected : connected ≢ disconnected
connected≢disconnected e = ground arith

send_in_loop-Sent_example :
    (c' : Connection) × (es : List Effect) × (send_in_loop one_byte busy (codes "xyz")
      ≡ some (c', es))
    × Sent busy (codes "xyz") (is_lost one_byte busy (codes "xyz")) c' es
send_in_loop-Sent_example =
    send_in_loop-Sent one_byte busy (codes "xyz") busy-Flushing connected≢disconnected
      one_byte-WithinText (omega arith) (omega arith)

handle_write-Flushed_example :
    (c' : Connection) × (es : List Effect) × (handle_write one_byte busy ≡ some (c', es))
    × Flushed busy c' es
handle_write-Flushed_example = handle_write-Flushed one_byte busy busy-Flushing

abbrev history : List Call
history = sends (codes "xyz") one_byte ∷ writable one_byte ∷ shuts_down ∷ writable one_byte ∷ []

run-taken_example :
    (c' : Connection) × (es : List Effect) × (run history busy ≡ some (c', es))
    × (taken es ++ content c'.output ≡ content busy.output ++ accepted true history)
    × (shuts es ≡ true → taken es ≡ content busy.output ++ accepted true history)
run-taken_example =
    run-taken history busy busy-Flushing connected≢disconnected
      (one_byte-WithinText, (λ text. refl), tt) (omega arith) (omega arith)

-- The peer has closed its side.
abbrev end_of_stream : ℕ → ReadResult
end_of_stream room = got []

end_of_stream-WithinRoom : WithinRoom end_of_stream
end_of_stream-WithinRoom room = omega arith

handle_read-ReadOutcome_example :
    (c' : Connection) × (es : List Effect) × (handle_read end_of_stream busy ≡ some (c', es))
    × ReadOutcome busy (end_of_stream (read_room busy.input)) c' es
handle_read-ReadOutcome_example =
    handle_read-ReadOutcome end_of_stream busy waiting-IsValid end_of_stream-WithinRoom
      (omega arith)

-- A handler queues functor 1; another thread queues functor 2 while 1 is being called.
abbrev loop1 : EventLoop
loop1 =
    other_enqueues 2
      (begin_calling (queue_in_loop true 1 (poll_returns (start_loop EventLoop.init))))

abbrev loop2 : EventLoop
loop2 = end_calling (call_next 1 [] loop1)

loop-Steps : Steps EventLoop.init (1 ∷ 2 ∷ []) loop2
unfolding EventLoop.init start_loop poll_returns queue_in_loop enqueue needs_wakeup wakeup
    begin_calling other_enqueues call_next end_calling
loop-Steps =
    next
      (next
        (next
          (next (next (next (next here (starts refl)) (polled refl)) (queues 1 in_handler))
            (handled refl))
          (other_queues 2))
        (calls 1 [] refl))
      (turn_ends refl)

no_lost_wakeup_example : (loop2.pending_functors ≡ []) ⊎ (0 < loop2.wakeups + loop2.unwoken)
unfolding EventLoop.init start_loop poll_returns queue_in_loop enqueue needs_wakeup wakeup
    begin_calling other_enqueues call_next end_calling loop-Steps
no_lost_wakeup_example =
    no_lost_wakeup loop2 loop-Steps (((((((tt, refl), refl), refl), refl), refl), refl), refl) refl

pending_functors-fifo_example :
    loop2.called ++ in_hand loop2.phase ++ loop2.pending_functors ≡ 1 ∷ 2 ∷ []
pending_functors-fifo_example = pending_functors-fifo loop2 loop-Steps
