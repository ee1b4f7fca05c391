-- ===== src/Net/Buffer/Search.antt =====
-- src/net/Buffer.h: `findCRLF`.
use a_tiny_network_library.Common.{
  ℕ, suc, ◌+◌, ◌≤◌, ◌≡◌, refl, sym, ap, ◌∙◌, ◌&&◌, none, some, List, [], ◌∷◌, ◌++◌, arith, length,
  ◌==◌, Bool-cases, inl, inr, ◌≢◌, >>=-eq-some, ◌>>=◌,
}
use a_tiny_network_library.Common.Text.{Without}
use a_tiny_network_library.Net.Buffer.{Buffer, search_crlf, find_crlf, peek}
use a_tiny_network_library.Net.Buffer.Layout.{IsValid, content, readable_bytes-eq}

-- A line without a carriage return in front of a CRLF.
pub search_crlf-line :
    (line rest : List ℕ)
    → Without 13 line
    → search_crlf (line ++ (13 ∷ 10 ∷ rest)) ≡ some (length line)
unfolding search_crlf
search_crlf-line [] rest h = refl
search_crlf-line (c ∷ []) rest h = rw h.0
search_crlf-line (c ∷ d ∷ line) rest h = rw (h.0, search_crlf-line (d ∷ line) rest h.1)

-- An answer is the position of a CRLF.
pub search_crlf-some :
    (cs : List ℕ) (i : ℕ)
    → search_crlf cs ≡ some i
    → (line rest : List ℕ) × (cs ≡ line ++ (13 ∷ 10 ∷ rest)) × (length line ≡ i)
unfolding search_crlf
search_crlf-some [] i h = cc
search_crlf-some (c ∷ []) i h = cc
search_crlf-some (c ∷ d ∷ cs) i h = elim (Bool-cases ((c == 13) && (d == 10))) [
  | inl hit ↦
      let e : c ≡ 13 = ground arith in
      let e' : d ≡ 10 = ground arith in ([], cs, rw (e, e'), ground arith)
  | inr miss ↦
      let h' : (search_crlf (d ∷ cs) >>= λ j. some (suc j)) ≡ some i = rw miss at h in
      let (j, found, last) = >>=-eq-some (search_crlf (d ∷ cs)) (λ j. some (suc j)) h' in
      let (line, rest, e, k) = search_crlf-some (d ∷ cs) j found in
      (c ∷ line, rest, ap (◌∷◌ c) e, ground arith)
]

-- A CRLF is found, at its place or before.
pub search_crlf-le :
    (line rest : List ℕ)
    → (i : ℕ) × (search_crlf (line ++ (13 ∷ 10 ∷ rest)) ≡ some i) × (i ≤ length line)
unfolding search_crlf
search_crlf-le [] rest = (0, refl, omega arith)
search_crlf-le (c ∷ []) rest = elim (Bool-cases ((c == 13) && (13 == 10))) [
  | inl hit ↦ (0, rw hit, omega arith)
  | inr miss ↦ (1, rw miss, omega arith)
]
search_crlf-le (c ∷ d ∷ line) rest =
    let (i, found, le) = search_crlf-le (d ∷ line) rest in
    elim (Bool-cases ((c == 13) && (d == 10))) [
      | inl hit ↦ (0, rw hit, omega arith)
      | inr miss ↦ (suc i, rw (miss, found), omega arith)
    ]

module _ {b : Buffer} (v : IsValid b) where
  find_crlf-content : find_crlf b ≡ (search_crlf (content b) >>= λ i. some (peek b + i))
  unfolding find_crlf
  find_crlf-content = rw (readable_bytes-eq v)

  -- `findCRLF` finds the first CRLF of the readable bytes and answers NULL only if there is none:
  -- a pointer `end` splits the content at a CRLF, no CRLF stands before it, and every content with
  -- a CRLF has an answer.
  pub find_crlf-first :
      ((end : ℕ)
        → find_crlf b ≡ some end
        → (line rest : List ℕ) × (content b ≡ line ++ (13 ∷ 10 ∷ rest))
          × (end ≡ peek b + length line)
          × ((l r : List ℕ) → content b ≡ l ++ (13 ∷ 10 ∷ r) → length line ≤ length l))
      × ((l r : List ℕ) → content b ≡ l ++ (13 ∷ 10 ∷ r) → find_crlf b ≢ none)
  find_crlf-first = (
    (λ end h.
        let (i, found, last) =
          >>=-eq-some (search_crlf (content b)) (λ i. some (peek b + i))
            (sym find_crlf-content ∙ h) in
        let (line, rest, e, k) = search_crlf-some (content b) i found in
        (
          line,
          rest,
          e,
          ground arith,
          λ l r e'.
              let (j, found', le) = search_crlf-le l r in
              let same : some j ≡ some i = sym found' ∙ ap search_crlf (sym e') ∙ found in
              ground arith,
        )),
    λ l r e h.
        let (j, found', le) = search_crlf-le l r in
        let found : search_crlf (content b) ≡ some j = ap search_crlf e ∙ found' in
        let h' : find_crlf b ≡ some (peek b + j) = find_crlf-content ∙ rw found in cc,
  )

  -- On a content that begins with a line without a carriage return, it is that line's end.
  pub find_crlf-line :
      (line rest : List ℕ)
      → Without 13 line
      → content b ≡ line ++ (13 ∷ 10 ∷ rest)
      → find_crlf b ≡ some (peek b + length line)
  find_crlf-line line rest h e = find_crlf-content ∙ rw (e, search_crlf-line line rest h)
