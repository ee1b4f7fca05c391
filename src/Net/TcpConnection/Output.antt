-- ===== src/Net/TcpConnection/Output.antt =====
-- src/net/TcpConnection.cc: what `sendInLoop` does to the bytes on their way out.
use a_tiny_network_library.Common.{
  ℕ, ◌+◌, ◌≤◌, ◌<◌, ◌^◌, ◌≡◌, ◌≢◌, refl, ap, sym, subst, ◌∙◌, Bool, true, false, not, ◌&&◌, ◌||◌,
  ◌==◌, List, [], ◌++◌, some, arith, ltb, if◌then◌else◌, length, take, drop, append_assoc,
  append-nil, take-append-drop, take-all, length-drop, inl, inr, Bool-cases, ltb→le,
}
use a_tiny_network_library.Common.Posix.{WriteResult, wrote, write_error, epipe, econnreset}
use a_tiny_network_library.Common.Word.{add_size}
use a_tiny_network_library.Net.Buffer.{max_size, readable_bytes}
use a_tiny_network_library.Net.Buffer.Layout.{IsValid, content, length-content-readable}
use a_tiny_network_library.Net.Buffer.Append.{append-Appended}
use a_tiny_network_library.Net.Channel.{is_writing, enable_writing}
use a_tiny_network_library.Net.TcpConnection.{
  State, disconnected, connecting, connected, disconnecting, Connection, Effect, Attempt,
  after_write, try_write, watch_writing, high_water, keep_rest, finish_send, send_in, send_in_loop,
  queues_high_water_mark,
}
use a_tiny_network_library.Net.TcpConnection.Bytes.{
  taken, taken-append, shuts, WithinText, Flushing, shuts-append, shuts-effect_if, taken-effect_if,
}
use a_tiny_network_library.Net.TcpConnection.Direct.{Tried, try_write-Tried}

-- What `sendInLoop` leaves: every byte was taken or waits, in order, behind what waited before,
-- unless the peer is gone; and what waits is watched.
pub record Sent (c : Connection) (text : List ℕ) (lost : Bool) (c' : Connection) (es : List Effect)
    : Type 0 where
  pub flushing : Flushing c'
  pub stream : taken es ++ content c'.output ≡ content c.output ++ (if lost then [] else text)
  pub same_state : c'.state ≡ c.state
  pub stays_open : shuts es ≡ false
  pub bound : length c'.output.buffer ≤ length c.output.buffer + length text

record Watches (c : Connection) (r : Connection × List Effect) : Type 0 where
  same_output : r.0.output ≡ c.output
  same_state : r.0.state ≡ c.state
  on : is_writing r.0.channel ≡ true
  silent : taken r.1 ≡ []
  stays_open : shuts r.1 ≡ false

watch_writing_on : (c : Connection) → is_writing c.channel ≡ true → watch_writing c ≡ (c, [])
unfolding watch_writing
watch_writing_on c h = simp h

watch_writing-Watches : (c : Connection) → Watches c (watch_writing c)
watch_writing-Watches c = elim (Bool-cases (is_writing c.channel)) [
  | inl on ↦
      subst (Watches c) (sym (watch_writing_on c on)) (record {
        same_output = refl;
        same_state = refl;
        on = on;
        silent = refl;
        stays_open = refl;
      })
  | inr off ↦
      unfold watch_writing is_writing enable_writing in
      (simp off (record {
        same_output = refl;
        same_state = refl;
        on = refl;
        silent = refl;
        stays_open = refl;
      }))
]

taken-high_water : (c : Connection) (n : ℕ) → taken (high_water c n) ≡ []
unfolding high_water
taken-high_water c n =
    taken-effect_if _ (queues_high_water_mark (add_size (readable_bytes c.output) n)) refl

shuts-high_water : (c : Connection) (n : ℕ) → shuts (high_water c n) ≡ false
unfolding high_water
shuts-high_water c n =
    shuts-effect_if _ (queues_high_water_mark (add_size (readable_bytes c.output) n)) refl

module _ (c : Connection) (text : List ℕ) (a : Attempt) (f : Flushing c) (t : Tried c text a)
    (small : length text < 2 ^ 31) (room : length c.output.buffer + length text ≤ max_size) where
  left : take a.remaining (drop a.nwrote text) ≡ drop a.nwrote text
  left =
      take-all a.remaining (drop a.nwrote text) (omega (arith, t.rest, length-drop a.nwrote text))

  keep_rest-Sent :
      a.fault_error ≡ false
      → (c' : Connection) × (es : List Effect) × (keep_rest c text a ≡ some (c', es))
        × Sent c text a.fault_error c' es
  unfolding keep_rest
  keep_rest-Sent h =
      let (output, e, p) =
        append-Appended (drop a.nwrote text) f.valid (omega (arith, length-drop a.nwrote text))
          (omega (arith, length-drop a.nwrote text)) in
      let c1 : Connection = record c { output = output } in
      let w : Watches c1 (watch_writing c1) = watch_writing-Watches c1 in
      let (c', es) = watch_writing c1 in
      (
        c',
        a.effects ++ (high_water c a.remaining ++ es),
        rw (left, e),
        record {
          flushing = record { valid = rw w.same_output p.valid; watched = inr w.on };
          stream =
              rw
                (
                  w.same_output,
                  taken-append,
                  taken-append,
                  taken-high_water c a.remaining,
                  w.silent,
                  append-nil,
                  p.extended,
                  h,
                )
                (sym (append_assoc (taken a.effects) (content c.output) (drop a.nwrote text))
                  ∙ ap (λ (xs : List ℕ). xs ++ drop a.nwrote text) t.stream
                  ∙ append_assoc (content c.output) (take a.nwrote text) (drop a.nwrote text)
                  ∙ ap (◌++◌ (content c.output)) (take-append-drop a.nwrote text));
          same_state = w.same_state;
          stays_open = shuts-append a.effects _ t.stays_open (
              shuts-append (high_water c a.remaining) _ (shuts-high_water c a.remaining)
                w.stays_open);
          bound = rw w.same_output (omega (arith, p.bound, length-drop a.nwrote text));
        },
      )

  finish_send_keeps :
      a.fault_error ≡ false → ltb 0 a.remaining ≡ true → finish_send c text a ≡ keep_rest c text a
  unfolding finish_send
  finish_send_keeps fine more = simp (fine, more)

  finish_send_ends :
      (not a.fault_error && ltb 0 a.remaining) ≡ false → finish_send c text a ≡ some (c, a.effects)
  unfolding finish_send
  finish_send_ends h = rw h

  ended-Sent :
      taken a.effects ++ content c.output ≡ content c.output ++ (if a.fault_error then [] else text)
      → Sent c text a.fault_error c a.effects
  ended-Sent e = record {
    flushing = f;
    stream = e;
    same_state = refl;
    stays_open = t.stays_open;
    bound = omega arith;
  }

  finish_send-Sent :
      (c' : Connection) × (es : List Effect) × (finish_send c text a ≡ some (c', es))
      × Sent c text a.fault_error c' es
  finish_send-Sent = elim (Bool-cases a.fault_error) [
    | inl gone ↦ (
      c,
      a.effects,
      finish_send_ends (simp gone),
      ended-Sent
          (simp gone (t.stream ∙ ap (λ (n : ℕ). content c.output ++ take n text) (t.fault gone))),
    )
    | inr fine ↦ elim (Bool-cases (ltb 0 a.remaining)) [
      | inl more ↦
          let (c', es, e, s) = keep_rest-Sent fine in (c', es, finish_send_keeps fine more ∙ e, s)
      | inr done ↦ (
        c,
        a.effects,
        finish_send_ends (simp (fine, done)),
        ended-Sent (
            simp fine (
              t.stream
              ∙ ap (◌++◌ (content c.output))
                  (take-all a.nwrote text (omega (arith, t.rest, ltb→le 0 a.remaining done))))),
      )
    ]
  ]

send_in_loop-tried :
    (write : List ℕ → WriteResult) (c : Connection) (text : List ℕ)
    → Flushing c
    → c.state ≢ disconnected
    → WithinText write
    → length text < 2 ^ 31
    → length c.output.buffer + length text ≤ max_size
    → (c' : Connection) × (es : List Effect) × (send_in_loop write c text ≡ some (c', es))
      × Sent c text (try_write write c text).fault_error c' es
unfolding send_in_loop
send_in_loop-tried write c text f open_ w small room = send c.state open_
  where
    done :
        (c' : Connection) × (es : List Effect) × (finish_send c text (try_write write c text)
          ≡ some (c', es))
        × Sent c text (try_write write c text).fault_error c' es
    done =
        finish_send-Sent c text (try_write write c text) f
          (try_write-Tried write c text f.valid w small) small room

    send :
        (s : State)
        → s ≢ disconnected
        → (c' : Connection) × (es : List Effect) × (send_in s write c text ≡ some (c', es))
          × Sent c text (try_write write c text).fault_error c' es
    send disconnected h = absurd (h refl)
    send connecting h = unfold send_in in done
    send connected h = unfold send_in in done
    send disconnecting h = unfold send_in in done

-- The peer is gone, as the kernel tells it.
abbrev pub is_gone : WriteResult → Bool
is_gone (wrote n) = false
is_gone (write_error e) = (e == epipe) || (e == econnreset)

-- The text is dropped: nothing waited, so it was written at once, and the peer is gone.
abbrev pub is_lost : (List ℕ → WriteResult) → Connection → List ℕ → Bool
is_lost write c text =
    not (is_writing c.channel) && (length (content c.output) == 0) && is_gone (write text)

after_write-gone :
    (c : Connection) (text : List ℕ) (r : WriteResult)
    → (after_write c text r).fault_error ≡ is_gone r
unfolding after_write
after_write-gone c text (wrote n) = refl
after_write-gone c text (write_error e) = ground arith

try_write-lost :
    (write : List ℕ → WriteResult) (c : Connection) (text : List ℕ)
    → IsValid c.output
    → (try_write write c text).fault_error ≡ is_lost write c text
unfolding try_write
try_write-lost write c text v =
    rw (length-content-readable v)
      (elim (Bool-cases (not (is_writing c.channel) && (readable_bytes c.output == 0))) [
        | inl direct ↦ rw direct (after_write-gone c text (write text))
        | inr waits ↦ rw waits
      ])

-- While the connection is not closed, `sendInLoop` succeeds within the size limits, and every byte
-- of the text is taken by the kernel or waits in the output buffer, in order, behind what waited
-- before; only where nothing waited and the write answers EPIPE or ECONNRESET the text is dropped.
-- What waits is watched for EPOLLOUT.
pub send_in_loop-Sent :
    (write : List ℕ → WriteResult) (c : Connection) (text : List ℕ)
    → Flushing c
    → c.state ≢ disconnected
    → WithinText write
    → length text < 2 ^ 31
    → length c.output.buffer + length text ≤ max_size
    → (c' : Connection) × (es : List Effect) × (send_in_loop write c text ≡ some (c', es))
      × Sent c text (is_lost write c text) c' es
send_in_loop-Sent write c text f open_ w small room =
    let (c', es, run, s) = send_in_loop-tried write c text f open_ w small room in
    (c', es, run, subst (λ b. Sent c text b c' es) (try_write-lost write c text f.valid) s)
