-- ===== src/Net/TcpConnection/Stream.antt =====
-- src/net/TcpConnection.cc: a whole history of sends, EPOLLOUT events and shutdowns in the thread of
-- the loop.
use a_tiny_network_library.Common.{
  ◌+◌, ◌≤◌, ◌<◌, ◌^◌, ◌≡◌, ◌≢◌, refl, ap, sym, ◌∙◌, Bool, true, false, List, [], ◌∷◌, ◌++◌, some,
  arith, length, append_assoc, append-nil, ◌⊎◌, inl, inr,
}
use a_tiny_network_library.Net.Buffer.{max_size}
use a_tiny_network_library.Net.Buffer.Layout.{content}
use a_tiny_network_library.Net.TcpConnection.{
  disconnected, Connection, Effect, shuts_down_write, is_connected,
}
use a_tiny_network_library.Net.TcpConnection.Bytes.{taken, taken-append, shuts, Flushing}
use a_tiny_network_library.Net.TcpConnection.Calls.{step-Stepped}
use a_tiny_network_library.Net.TcpConnection.History.{
  Call, sends, writable, shuts_down, run, AreHealthy, accepted, volume, Quiet, Stepped, closing_by,
}

-- What a history leaves.
record Ran (xs : List Call) (c c' : Connection) (es : List Effect) : Type 0 where
  flushing : Flushing c'
  stream : taken es ++ content c'.output ≡ content c.output ++ accepted (is_connected c.state) xs
  closing : (Quiet c ⊎ (shuts es ≡ true)) → Quiet c'

shuts-append_cases :
    (es fs : List Effect) → shuts (es ++ fs) ≡ true → (shuts es ≡ true) ⊎ (shuts fs ≡ true)
shuts-append_cases [] fs h = inr h
shuts-append_cases (shuts_down_write ∷ es) fs h = inl refl
shuts-append_cases (_ ∷ es) fs h = shuts-append_cases es fs h

AreHealthy-head : (x : Call) (xs : List Call) → AreHealthy (x ∷ xs) → AreHealthy (x ∷ [])
AreHealthy-head (sends text write) xs (w, h, _) = (w, h, tt)
AreHealthy-head (writable write) xs h = tt
AreHealthy-head shuts_down xs h = tt

AreHealthy-tail : (x : Call) (xs : List Call) → AreHealthy (x ∷ xs) → AreHealthy xs
AreHealthy-tail (sends text write) xs (_, _, h) = h
AreHealthy-tail (writable write) xs h = h
AreHealthy-tail shuts_down xs h = h

volume-cons : (x : Call) (xs : List Call) → volume (x ∷ xs) ≡ volume (x ∷ []) + volume xs
volume-cons (sends text write) xs = omega arith
volume-cons (writable write) xs = omega arith
volume-cons shuts_down xs = omega arith

accepted-nil : (b : Bool) → accepted b [] ≡ []
accepted-nil true = refl
accepted-nil false = refl

Stepped-Ran :
    (x : Call) (xs : List Call) (c c1 c2 : Connection) (es fs : List Effect)
    → Stepped x c c1 es
    → Ran xs c1 c2 fs
    → Ran (x ∷ xs) c c2 (es ++ fs)
Stepped-Ran x xs c c1 c2 es fs t r = record {
  flushing = r.flushing;
  stream = rw (taken-append es fs) (
      append_assoc (taken es) (taken fs) (content c2.output)
      ∙ ap (◌++◌ (taken es)) r.stream
      ∙ t.stream xs);
  closing = close;
}
  where
    close : (Quiet c ⊎ (shuts (es ++ fs) ≡ true)) → Quiet c2
    close (inl q) = r.closing (inl (t.closing (inl q)))
    close (inr h) = elim (shuts-append_cases es fs h) [
      | inl first ↦ r.closing (inl (t.closing (inr first)))
      | inr later ↦ r.closing (inr later)
    ]

run-Ran :
    (xs : List Call) (c : Connection)
    → Flushing c
    → c.state ≢ disconnected
    → AreHealthy xs
    → volume xs < 2 ^ 31
    → length c.output.buffer + volume xs ≤ max_size
    → (c' : Connection) × (es : List Effect) × (run xs c ≡ some (c', es)) × Ran xs c c' es
unfolding run
run-Ran [] c f a h small room = (
  c,
  [],
  refl,
  record {
    flushing = f;
    stream =
        sym (ap (◌++◌ (content c.output)) (accepted-nil (is_connected c.state)) ∙ append-nil _);
    closing = closing_by [] refl;
  },
)
run-Ran (x ∷ xs) c f a h small room =
    let v : volume (x ∷ xs) ≡ volume (x ∷ []) + volume xs = volume-cons x xs in
    let (c1, es, e1, t) =
      step-Stepped x c f a (AreHealthy-head x xs h) (omega arith) (omega arith) in
    let (c2, fs, e2, r) =
      run-Ran xs c1 t.flushing t.alive (AreHealthy-tail x xs h) (omega arith)
        (omega (arith, t.bound)) in
    (c2, es ++ fs, rw (e1, e2), Stepped-Ran x xs c c1 c2 es fs t r)

-- Over every history of sends, EPOLLOUT events and shutdowns in the loop's thread, with a peer that
-- is there and within the size limits: the calls succeed, the bytes the kernel took, followed by
-- those that wait, are exactly what waited at first followed by what the user sent before the first
-- shutdown, in order; and if the write side was closed, all of these bytes were taken.
pub run-taken :
    (xs : List Call) (c : Connection)
    → Flushing c
    → c.state ≢ disconnected
    → AreHealthy xs
    → volume xs < 2 ^ 31
    → length c.output.buffer + volume xs ≤ max_size
    → (c' : Connection) × (es : List Effect) × (run xs c ≡ some (c', es))
      × (taken es ++ content c'.output ≡ content c.output ++ accepted (is_connected c.state) xs)
      × (shuts es ≡ true → taken es ≡ content c.output ++ accepted (is_connected c.state) xs)
run-taken xs c f a h small room =
    let (c', es, e, r) = run-Ran xs c f a h small room in
    (
      c',
      es,
      e,
      r.stream,
      λ closed.
          sym (append-nil (taken es))
          ∙ ap (◌++◌ (taken es)) (sym (r.closing (inr closed)).empty)
          ∙ r.stream,
    )
