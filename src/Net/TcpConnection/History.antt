-- ===== src/Net/TcpConnection/History.antt =====
-- src/net/TcpConnection.cc: a history of sends, EPOLLOUT events and shutdowns in the thread of the
-- loop, and what a call of it leaves. The answers of the kernel are part of the history.
use a_tiny_network_library.Common.{
  ℕ, ◌+◌, ◌≤◌, ◌≡◌, ◌≢◌, refl, ap, Bool, true, false, not, ◌&&◌, ◌||◌, List, [], ◌∷◌, ◌++◌, some,
  arith, ◌==◌, length, ◌>>=◌, ◌⊎◌, inl, inr,
}
use a_tiny_network_library.Common.Posix.{
  WriteResult, wrote, write_error, epipe, econnreset, ewouldblock,
}
use a_tiny_network_library.Net.Buffer.Layout.{content}
use a_tiny_network_library.Net.Channel.{is_writing}
use a_tiny_network_library.Net.TcpConnection.{
  disconnected, disconnecting, Connection, Effect, Outcome, send, shutdown, handle_write,
  is_connected,
}
use a_tiny_network_library.Net.TcpConnection.Output.{is_gone, is_lost}
use a_tiny_network_library.Net.TcpConnection.Bytes.{taken, shuts, WithinText, Flushing}

pub data Call : Type 0 where
  sends : List ℕ → (List ℕ → WriteResult) → Call
  writable : (List ℕ → WriteResult) → Call
  shuts_down : Call

unfoldable pub step : Call → Connection → Outcome
step (sends text write) c = send true write c text
step (writable write) c = handle_write write c
step shuts_down c = some (shutdown true c)

unfoldable pub run : List Call → Connection → Outcome
run [] c = some (c, [])
run (x ∷ xs) c = do (c', es) ← step x c; (c'', fs) ← run xs c'; some (c'', es ++ fs)

-- The peer is there: `write` fails with no other error than EWOULDBLOCK.
abbrev pub lethal : WriteResult → Bool
lethal (wrote n) = false
lethal (write_error e) = not (e == ewouldblock) && ((e == epipe) || (e == econnreset))

abbrev pub Healthy : (List ℕ → WriteResult) → Type 0
Healthy write = (text : List ℕ) → lethal (write text) ≡ false

abbrev pub AreHealthy : List Call → Type 0
AreHealthy [] = Unit {0}
AreHealthy (sends text write ∷ xs) = WithinText write × Healthy write × AreHealthy xs
AreHealthy (writable write ∷ xs) = AreHealthy xs
AreHealthy (shuts_down ∷ xs) = AreHealthy xs

-- What the user sends before the first shutdown.
abbrev pub accepted : Bool → List Call → List ℕ
accepted false xs = []
accepted true [] = []
accepted true (sends text write ∷ xs) = text ++ accepted true xs
accepted true (writable write ∷ xs) = accepted true xs
accepted true (shuts_down ∷ xs) = []

abbrev pub volume : List Call → ℕ
volume [] = 0
volume (sends text write ∷ xs) = length text + volume xs
volume (writable write ∷ xs) = volume xs
volume (shuts_down ∷ xs) = volume xs

-- A connection whose write side may be closed: nothing waits, and nothing more is accepted.
pub record Quiet (c : Connection) : Type 0 where
  pub empty : content c.output ≡ []
  pub unwatched : is_writing c.channel ≡ false
  pub ending : c.state ≡ disconnecting

-- What one call leaves.
pub record Stepped (x : Call) (c c' : Connection) (es : List Effect) : Type 0 where
  pub flushing : Flushing c'
  pub stream :
      (xs : List Call)
      → taken es ++ (content c'.output ++ accepted (is_connected c'.state) xs)
        ≡ content c.output ++ accepted (is_connected c.state) (x ∷ xs)
  pub alive : c'.state ≢ disconnected
  pub bound : length c'.output.buffer ≤ length c.output.buffer + volume (x ∷ [])
  pub closing : (Quiet c ⊎ (shuts es ≡ true)) → Quiet c'

is_gone-lethal : (r : WriteResult) → lethal r ≡ false → is_gone r ≡ false
is_gone-lethal (wrote n) h = refl
is_gone-lethal (write_error e) h = ground arith

-- While the peer is there no text is dropped.
pub is_lost-Healthy :
    (write : List ℕ → WriteResult) (c : Connection) (text : List ℕ)
    → Healthy write
    → is_lost write c text ≡ false
is_lost-Healthy write c text h = rw (is_gone-lethal (write text) (h text)) (ground arith)

pub closing_by :
    {c : Connection} (es : List Effect) → shuts es ≡ false → (Quiet c ⊎ (shuts es ≡ true)) → Quiet c
closing_by es k (inl q) = q
closing_by es k (inr h) = cc

-- A call that changes nothing but the log.
pub idle-Stepped :
    (x : Call) (c : Connection) (es : List Effect)
    → Flushing c
    → c.state ≢ disconnected
    → taken es ≡ []
    → shuts es ≡ false
    → ((xs : List Call)
        → accepted (is_connected c.state) xs ≡ accepted (is_connected c.state) (x ∷ xs))
    → Stepped x c c es
idle-Stepped x c es f a t k same = record {
  flushing = f;
  stream = λ xs. rw t (ap (◌++◌ (content c.output)) (same xs));
  alive = a;
  bound = omega arith;
  closing = closing_by es k;
}
