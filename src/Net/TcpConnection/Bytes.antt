-- ===== src/Net/TcpConnection/Bytes.antt =====
-- src/net/TcpConnection.cc: the bytes on their way out, as the effects and the output buffer show them.
use a_tiny_network_library.Common.{
  ℕ, ◌≤◌, ◌≡◌, refl, ap, sym, ◌∙◌, Bool, true, false, List, [], ◌∷◌, ◌++◌, arith, length,
  append_assoc, ◌⊎◌,
}
use a_tiny_network_library.Common.Posix.{WriteResult, wrote, write_error}
use a_tiny_network_library.Net.Buffer.Layout.{IsValid, content}
use a_tiny_network_library.Net.Channel.{is_writing}
use a_tiny_network_library.Net.TcpConnection.{Connection, Effect, took, shuts_down_write, effect_if}

-- The bytes that the kernel took, in order.
abbrev pub taken : List Effect → List ℕ
taken [] = []
taken (took text ∷ es) = text ++ taken es
taken (_ ∷ es) = taken es

pub taken-append : (es fs : List Effect) → taken (es ++ fs) ≡ taken es ++ taken fs
taken-append [] fs = refl
taken-append (took text ∷ es) fs =
    ap (◌++◌ text) (taken-append es fs) ∙ sym (append_assoc text (taken es) (taken fs))
taken-append (_ ∷ es) fs = taken-append es fs

-- `shutdownWrite` is among the effects.
abbrev pub shuts : List Effect → Bool
shuts [] = false
shuts (shuts_down_write ∷ es) = true
shuts (_ ∷ es) = shuts es

pub shuts-append :
    (es fs : List Effect) → shuts es ≡ false → shuts fs ≡ false → shuts (es ++ fs) ≡ false
shuts-append [] fs h k = k
shuts-append (shuts_down_write ∷ es) fs h k = h
shuts-append (_ ∷ es) fs h k = shuts-append es fs h k

pub shuts-effect_if :
    (b : Bool) (e : Effect) → shuts (e ∷ []) ≡ false → shuts (effect_if b e) ≡ false
shuts-effect_if true e h = h
shuts-effect_if false e h = refl

-- What write(2) promises: it takes no more than it is offered.
abbrev pub count : WriteResult → ℕ
count (wrote n) = n
count (write_error e) = 0

abbrev pub WithinText : (List ℕ → WriteResult) → Type 0
WithinText write = (text : List ℕ) → count (write text) ≤ length text

-- Bytes that wait are watched: the channel asks for EPOLLOUT.
pub record Flushing (c : Connection) : Type 0 where
  pub valid : IsValid c.output
  pub watched : (content c.output ≡ []) ⊎ (is_writing c.channel ≡ true)

pub taken-effect_if : (b : Bool) (e : Effect) → taken (e ∷ []) ≡ [] → taken (effect_if b e) ≡ []
taken-effect_if true e h = h
taken-effect_if false e h = refl

pub empty_of-length : (xs : List ℕ) → length xs ≡ 0 → xs ≡ []
empty_of-length [] h = refl
empty_of-length (x ∷ xs) h = absurd (omega arith)
