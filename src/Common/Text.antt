-- ===== src/Common/Text.antt =====
-- Texts as lists of bytes, and the searches that the program makes in them.
use Prim.Native.Char.{code}
use Prim.Native.String.{String}
use mathlib.Core.Bool.{false≢true}
use a_tiny_network_library.Common.{
  ℕ, zero, suc, ◌+◌, ◌≤◌, ◌≡◌, refl, ap, Bool, true, false, ◌&&◌, ◌||◌, List, [], ◌∷◌, ◌++◌, arith,
  leb, ◌==◌, if◌then◌else◌, length, take, drop, get_or, length-append, ==_refl, Bool-cases, inl,
  inr, take-append, drop-append, drop-append_ge,
}

abbrev pub codes : String → List ℕ
codes String.[] = []
codes (String.◌∷◌ c s) = code c ∷ codes s

abbrev pub crlf : List ℕ
crlf = 13 ∷ 10 ∷ []

-- `==` of `std::string`.
unfoldable pub eq_text : List ℕ → List ℕ → Bool
eq_text [] [] = true
eq_text [] (d ∷ t) = false
eq_text (c ∷ s) [] = false
eq_text (c ∷ s) (d ∷ t) = (c == d) && eq_text s t

pub eq_text_refl : (s : List ℕ) → eq_text s s ≡ true
unfolding eq_text
eq_text_refl [] = refl
eq_text_refl (c ∷ s) = rw (==_refl c, eq_text_refl s)

pub eq_text→eq : (s t : List ℕ) → eq_text s t ≡ true → s ≡ t
unfolding eq_text
eq_text→eq [] [] h = refl
eq_text→eq [] (d ∷ t) h = cc
eq_text→eq (c ∷ s) [] h = cc
eq_text→eq (c ∷ s) (d ∷ t) h = ground (arith, eq_text→eq s t)

-- `std::find` in a text: the index of the first `c`, or the end.
unfoldable pub find_char : ℕ → List ℕ → ℕ
find_char c [] = 0
find_char c (d ∷ s) = let rest = find_char c s in if d == c then 0 else suc rest

-- No byte of the text is `c`.
abbrev pub Without : ℕ → List ℕ → Type 0
Without c [] = Unit {0}
Without c (d ∷ s) = ((d == c) ≡ false) × Without c s

abbrev pub is_without : ℕ → List ℕ → Bool
is_without c [] = true
is_without c (d ∷ s) = if d == c then false else is_without c s

-- For a text that is known, by computation.
pub Without-of : (c : ℕ) (s : List ℕ) → is_without c s ≡ true → Without c s
Without-of c [] h = tt
Without-of c (d ∷ s) h = elim (Bool-cases (d == c)) [
  | inl e ↦ let h' : false ≡ true = rw e at h in absurd (false≢true h')
  | inr e ↦ (e, Without-of c s (rw e at h))
]

pub Without-append : (c : ℕ) (s t : List ℕ) → Without c s → Without c t → Without c (s ++ t)
Without-append c [] t h k = k
Without-append c (d ∷ s) t h k = (h.0, Without-append c s t h.1 k)

pub find_char-absent : (c : ℕ) (s : List ℕ) → Without c s → find_char c s ≡ length s
unfolding find_char
find_char-absent c [] h = refl
find_char-absent c (d ∷ s) h = rw h.0 (ap suc (find_char-absent c s h.1))

pub find_char-first : (c : ℕ) (s t : List ℕ) → Without c s → find_char c (s ++ c ∷ t) ≡ length s
unfolding find_char
find_char-first c [] t h = rw (==_refl c)
find_char-first c (d ∷ s) t h = rw h.0 (ap suc (find_char-first c s t h.1))

pub find_char-le : (c : ℕ) (s : List ℕ) → find_char c s ≤ length s
unfolding find_char
find_char-le c [] = omega arith
find_char-le c (d ∷ s) = ground (arith, find_char-le c s)

-- `isspace` in the C locale.
unfoldable pub isspace : ℕ → Bool
isspace c = (c == 32) || (leb 9 c && leb c 13)

-- `while (p < end && isspace(*p)) ++p;`
unfoldable pub skip_spaces : List ℕ → List ℕ
skip_spaces [] = []
skip_spaces (c ∷ s) = let rest = skip_spaces s in if isspace c then rest else c ∷ s

-- The size that `while (!v.empty() && isspace(v[v.size()-1])) v.resize(v.size()-1);` ends with.
unfoldable pub trimmed_size : List ℕ → ℕ → ℕ
trimmed_size v zero = 0
trimmed_size v (suc n) =
    let rest = trimmed_size v n in if isspace (get_or v n 0) then rest else suc n

unfoldable pub trim_end : List ℕ → List ℕ
trim_end v = take (trimmed_size v (length v)) v

-- A text cut at the first `c`, at the index that `std::find` answers.
module _ (c : ℕ) (s t : List ℕ) (h : Without c s) where
  pub found-ne-end : (find_char c (s ++ c ∷ t) == length (s ++ c ∷ t)) ≡ false
  found-ne-end = rw (find_char-first c s t h, length-append s (c ∷ t)) (ground arith)

  pub take-found : take (find_char c (s ++ c ∷ t)) (s ++ c ∷ t) ≡ s
  take-found = rw (find_char-first c s t h) (take-append s (c ∷ t) (length s) refl)

  pub drop-found : drop (find_char c (s ++ c ∷ t)) (s ++ c ∷ t) ≡ c ∷ t
  drop-found = rw (find_char-first c s t h) (drop-append s (c ∷ t) (length s) refl)

  pub drop-found-add : drop (find_char c (s ++ c ∷ t) + 1) (s ++ c ∷ t) ≡ t
  drop-found-add = rw (find_char-first c s t h) (drop-append_ge s (c ∷ t) (length s + 1) 1 refl)

pub absent-eq-end : (c : ℕ) (s : List ℕ) → Without c s → (find_char c s == length s) ≡ true
absent-eq-end c s h = rw (find_char-absent c s h) (==_refl (length s))
