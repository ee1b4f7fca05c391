-- ===== src/Net/TcpConnection/Direct.antt =====
-- src/net/TcpConnection.cc: the direct write of `sendInLoop`.
use a_tiny_network_library.Common.{
  ℕ, ◌-◌, ◌≤◌, ◌<◌, ◌^◌, ◌≡◌, refl, sym, ◌∙◌, true, false, not, ◌&&◌, List, [], ◌++◌, arith, ◌==◌,
  length, take, append-nil, inl, inr, Bool-cases,
}
use a_tiny_network_library.Common.Posix.{WriteResult, wrote, write_error}
use a_tiny_network_library.Common.Word.{sub_size-eq_of_le}
use a_tiny_network_library.Net.Buffer.{readable_bytes}
use a_tiny_network_library.Net.Buffer.Layout.{IsValid, content, length-content-readable}
use a_tiny_network_library.Net.Channel.{is_writing}
use a_tiny_network_library.Net.TcpConnection.{
  Connection, Attempt, after_write, try_write, queues_write_complete, logs_error,
}
use a_tiny_network_library.Net.TcpConnection.Bytes.{
  taken, shuts, count, WithinText, shuts-effect_if, taken-effect_if, empty_of-length,
}

-- The direct write took a prefix of the text, and only if nothing was waiting before it.
pub record Tried (c : Connection) (text : List ℕ) (a : Attempt) : Type 0 where
  pub bound : a.nwrote ≤ length text
  pub rest : a.remaining ≡ length text - a.nwrote
  pub stream : taken a.effects ++ content c.output ≡ content c.output ++ take a.nwrote text
  pub fault : a.fault_error ≡ true → a.nwrote ≡ 0
  pub stays_open : shuts a.effects ≡ false

after_write-Tried :
    (c : Connection) (text : List ℕ) (r : WriteResult)
    → content c.output ≡ []
    → count r ≤ length text
    → length text < 2 ^ 31
    → Tried c text (after_write c text r)
unfolding after_write
after_write-Tried c text (wrote n) e h k = record {
  bound = h;
  rest = sub_size-eq_of_le (length text) n h (omega arith);
  stream = rw (e, taken-effect_if _ queues_write_complete refl) (append-nil _ ∙ append-nil _);
  fault = λ f. cc;
  stays_open = shuts-effect_if _ queues_write_complete refl;
}
after_write-Tried c text (write_error w) e h k = record {
  bound = omega arith;
  rest = omega arith;
  stream = rw (e, taken-effect_if _ logs_error refl);
  fault = λ f. refl;
  stays_open = shuts-effect_if _ logs_error refl;
}

pub try_write-Tried :
    (write : List ℕ → WriteResult) (c : Connection) (text : List ℕ)
    → IsValid c.output
    → WithinText write
    → length text < 2 ^ 31
    → Tried c text (try_write write c text)
unfolding try_write
try_write-Tried write c text v w h =
    elim (Bool-cases (not (is_writing c.channel) && (readable_bytes c.output == 0))) [
      | inl direct ↦
          let z : readable_bytes c.output ≡ 0 = ground arith in
          rw direct (
            after_write-Tried c text (write text)
              (empty_of-length (content c.output) (omega (arith, length-content-readable v)))
              (w text) h)
      | inr waits ↦ rw waits (record {
        bound = omega arith;
        rest = omega arith;
        stream = sym (append-nil (content c.output));
        fault = λ f. cc;
        stays_open = refl;
      })
    ]
