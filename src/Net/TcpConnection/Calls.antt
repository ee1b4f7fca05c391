-- ===== src/Net/TcpConnection/Calls.antt =====
-- src/net/TcpConnection.cc: each call of a history leaves a connection from which the next one can
-- be made.
use a_tiny_network_library.Common.{
  ℕ, ◌+◌, ◌≤◌, ◌<◌, ◌^◌, ◌≡◌, ◌≢◌, refl, ap, sym, subst, ◌∙◌, Bool, true, false, List, [], ◌∷◌,
  ◌++◌, some, arith, if◌then◌else◌, length, append_assoc, ◌⊎◌, inl, inr, Bool-cases,
}
use a_tiny_network_library.Common.Posix.{WriteResult}
use a_tiny_network_library.Net.Buffer.{max_size}
use a_tiny_network_library.Net.Buffer.Layout.{content}
use a_tiny_network_library.Net.Channel.{is_writing}
use a_tiny_network_library.Net.TcpConnection.{
  State, disconnected, connecting, connected, disconnecting, Connection, Effect, send, shutdown,
  shutdown_in_loop, is_connected, is_disconnecting,
}
use a_tiny_network_library.Net.TcpConnection.Bytes.{taken, shuts, WithinText, Flushing}
use a_tiny_network_library.Net.TcpConnection.Output.{send_in_loop-Sent}
use a_tiny_network_library.Net.TcpConnection.Drain.{Flushed, handle_write-Flushed}
use a_tiny_network_library.Net.TcpConnection.History.{
  Call, sends, writable, shuts_down, step, run, Healthy, AreHealthy, accepted, volume, Quiet,
  Stepped, is_lost-Healthy, idle-Stepped,
}

module _ (c : Connection) (text : List ℕ) (write : List ℕ → WriteResult) (f : Flushing c)
    (w : WithinText write) (healthy : Healthy write) (small : length text < 2 ^ 31)
    (room : length c.output.buffer + length text ≤ max_size) where
  sends-Stepped :
      (s : State)
      → c.state ≡ s
      → s ≢ disconnected
      → (c' : Connection) × (es : List Effect) × (step (sends text write) c ≡ some (c', es))
        × Stepped (sends text write) c c' es
  unfolding step send
  sends-Stepped disconnected e a = absurd (a refl)
  sends-Stepped connecting e a =
      (c, [], simp e, idle-Stepped _ c [] f (rw e a) refl refl (λ xs. rw e))
  sends-Stepped disconnecting e a =
      (c, [], simp e, idle-Stepped _ c [] f (rw e a) refl refl (λ xs. rw e))
  sends-Stepped connected e a =
      let (c', es, run, t) = send_in_loop-Sent write c text f (rw e a) w small room in
      (
        c',
        es,
        simp e run,
        record {
          flushing = t.flushing;
          stream = λ xs.
              rw (t.same_state, e)
                (sym (append_assoc (taken es) (content c'.output) (accepted true xs))
                  ∙ ap (λ (t : List ℕ). t ++ accepted true xs)
                      (t.stream
                        ∙ ap (λ b. content c.output ++ (if b then [] else text))
                            (is_lost-Healthy write c text healthy))
                  ∙ append_assoc (content c.output) text (accepted true xs));
          alive = rw (t.same_state, e) a;
          bound = omega (arith, t.bound);
          closing = no_end c' es t.stays_open;
        },
      )
    where
      no_end :
          (c' : Connection) (es : List Effect)
          → shuts es ≡ false
          → (Quiet c ⊎ (shuts es ≡ true))
          → Quiet c'
      no_end c' es k (inl q) = cc (q.ending, e)
      no_end c' es k (inr h) = cc

is_disconnecting→eq : (s : State) → is_disconnecting s ≡ true → s ≡ disconnecting
is_disconnecting→eq disconnecting h = refl
is_disconnecting→eq _ h = cc

writable-Stepped :
    (write : List ℕ → WriteResult) (c : Connection)
    → Flushing c
    → c.state ≢ disconnected
    → (c' : Connection) × (es : List Effect) × (step (writable write) c ≡ some (c', es))
      × Stepped (writable write) c c' es
unfolding step
writable-Stepped write c f a =
    let (c', es, run, t) = handle_write-Flushed write c f in
    (
      c',
      es,
      run,
      record {
        flushing = t.flushing;
        stream = λ xs. rw t.same_state (
            sym (append_assoc (taken es) (content c'.output) (accepted (is_connected c.state) xs))
            ∙ ap (λ (t : List ℕ). t ++ accepted (is_connected c.state) xs) t.stream
            ∙ ap (◌++◌ (content c.output)) (more (is_connected c.state) xs));
        alive = rw t.same_state a;
        bound = omega (arith, t.same_size);
        closing = close c' es t;
      },
    )
  where
    more : (b : Bool) (xs : List Call) → accepted b xs ≡ accepted b (writable write ∷ xs)
    more true xs = refl
    more false xs = refl

    close :
        (c' : Connection) (es : List Effect)
        → Flushed c c' es
        → (Quiet c ⊎ (shuts es ≡ true))
        → Quiet c'
    close c' es t (inl q) = subst Quiet (sym (t.still q.unwatched)) q
    close c' es t (inr h) =
        let (empty, off, ending) = t.closing h in
        record {
          empty = empty;
          unwatched = off;
          ending = t.same_state ∙ is_disconnecting→eq c.state ending;
        }

begun : Connection → Connection
begun c = record c { state = disconnecting }

shutdown-Stepped :
    (c : Connection)
    → Flushing c
    → c.state ≡ connected
    → Stepped shuts_down c (begun c) (shutdown_in_loop (begun c))
unfolding begun shutdown_in_loop
shutdown-Stepped c f e = elim (Bool-cases (is_writing c.channel)) [
  | inl on ↦ simp on (record {
    flushing = record { valid = f.valid; watched = f.watched };
    stream = λ xs. rw e refl;
    alive = λ h. cc;
    bound = omega arith;
    closing = none_yet;
  })
  | inr off ↦ simp off (record {
    flushing = record { valid = f.valid; watched = f.watched };
    stream = λ xs. rw e refl;
    alive = λ h. cc;
    bound = omega arith;
    closing = λ _. record { empty = settled f.watched off; unwatched = off; ending = refl };
  })
]
  where
    none_yet : (Quiet c ⊎ (false ≡ true)) → Quiet (begun c)
    none_yet (inl q) = cc (q.ending, e)
    none_yet (inr h) = cc

    settled :
        (content c.output ≡ []) ⊎ (is_writing c.channel ≡ true)
        → is_writing c.channel ≡ false
        → content c.output ≡ []
    settled (inl empty) off = empty
    settled (inr on) off = cc

shuts_down-Stepped :
    (s : State) (c : Connection)
    → Flushing c
    → c.state ≡ s
    → s ≢ disconnected
    → (c' : Connection) × (es : List Effect) × (step shuts_down c ≡ some (c', es))
      × Stepped shuts_down c c' es
unfolding step shutdown
shuts_down-Stepped disconnected c f e a = absurd (a refl)
shuts_down-Stepped connecting c f e a =
    (c, [], simp e, idle-Stepped _ c [] f (rw e a) refl refl (λ xs. rw e))
shuts_down-Stepped disconnecting c f e a =
    (c, [], simp e, idle-Stepped _ c [] f (rw e a) refl refl (λ xs. rw e))
shuts_down-Stepped connected c f e a =
    (begun c, shutdown_in_loop (begun c), simp e (unfold begun in refl), shutdown-Stepped c f e)

pub step-Stepped :
    (x : Call) (c : Connection)
    → Flushing c
    → c.state ≢ disconnected
    → AreHealthy (x ∷ [])
    → volume (x ∷ []) < 2 ^ 31
    → length c.output.buffer + volume (x ∷ []) ≤ max_size
    → (c' : Connection) × (es : List Effect) × (step x c ≡ some (c', es)) × Stepped x c c' es
step-Stepped (sends text write) c f a (w, h, _) small room =
    sends-Stepped c text write f w h (omega arith) (omega arith) c.state refl a
step-Stepped (writable write) c f a h small room = writable-Stepped write c f a
step-Stepped shuts_down c f a h small room = shuts_down-Stepped c.state c f refl a
