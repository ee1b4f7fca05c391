-- ===== src/Http/Context/Lines.antt =====
-- src/http/HttpContext.cc: one line of the input, up to the CRLF that `findCRLF` points at.
use a_tiny_network_library.Common.{
  ℕ, ◌+◌, ◌-◌, ◌≡◌, refl, ap, sym, ◌∙◌, List, ◌∷◌, ◌++◌, arith, length, drop, length-append,
  take-take, take-append, drop-append_ge, inl, inr, ◌⊎◌, none, some, Option-cases,
}
use a_tiny_network_library.Net.Buffer.{Buffer, peek, find_crlf, retrieve_until}
use a_tiny_network_library.Net.Buffer.Layout.{IsValid, content, length-content}
use a_tiny_network_library.Net.Buffer.Retrieve.{
  retrieve_until-retrieve, content-retrieve, retrieve-IsValid,
}
use a_tiny_network_library.Net.Buffer.Search.{find_crlf-first}
use a_tiny_network_library.Http.Context.{line_to}

-- The content of `b` is `line`, a CRLF that `end` points at, and `rest`.
pub record LineAt (b : Buffer) (end : ℕ) (line rest : List ℕ) : Type 0 where
  pub cut : content b ≡ line ++ (13 ∷ 10 ∷ rest)
  pub at : end ≡ peek b + length line

module _ {b : Buffer} (v : IsValid b) {end : ℕ} {line rest : List ℕ}
    (l : LineAt b end line rest) where
  length-cut : length (content b) ≡ length line + (2 + length rest)
  length-cut = omega (arith, ap length l.cut, length-append line (13 ∷ 10 ∷ rest))

  pub line_to-eq : line_to end b ≡ line
  line_to-eq =
      let e : end - peek b ≡ length line = omega (arith, l.at) in
      rw e (
        sym (
          take-take (length line) (b.writer_index - b.reader_index) (drop b.reader_index b.buffer)
            (omega (arith, length-cut, length-content v)))
        ∙ rw l.cut (take-append line (13 ∷ 10 ∷ rest) (length line) refl))

  next-retrieve : retrieve_until (end + 2) b ≡ retrieve_until (peek b + (length line + 2)) b
  next-retrieve = ap (λ (k : ℕ). retrieve_until k b) (omega (arith, l.at))

  pub next-IsValid : IsValid (retrieve_until (end + 2) b)
  next-IsValid =
      rw
        (
          next-retrieve,
          retrieve_until-retrieve v (length line + 2) (omega (arith, length-cut, length-content v)),
        )
        (retrieve-IsValid v (length line + 2))

  -- Past the CRLF the input is what follows the line.
  pub content-next : content (retrieve_until (end + 2) b) ≡ rest
  content-next =
      rw
        (
          next-retrieve,
          retrieve_until-retrieve v (length line + 2) (omega (arith, length-cut, length-content v)),
        )
        (content-retrieve v (length line + 2)
          ∙ rw l.cut (drop-append_ge line (13 ∷ 10 ∷ rest) (length line + 2) 2 refl))

-- `findCRLF` answers NULL, or with a line.
pub find_crlf-cases :
    {b : Buffer}
    → IsValid b
    → (find_crlf b ≡ none)
      ⊎ ((end : ℕ) × (line rest : List ℕ) × (find_crlf b ≡ some end) × LineAt b end line rest)
find_crlf-cases {b} v = elim (Option-cases (find_crlf b)) [
  | inl e ↦ inl e
  | inr (end, e) ↦
      let (line, rest, cut, at, first) = (find_crlf-first v).0 end e in
      inr (end, line, rest, e, record { cut = cut; at = at })
]
