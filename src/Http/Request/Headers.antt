-- ===== src/Http/Request/Headers.antt =====
-- src/http/HttpRequest.h: the map of headers, the trimming of a value, and the method names.
use a_tiny_network_library.Common.{
  ℕ, zero, suc, ◌+◌, ◌≡◌, refl, ap, true, false, List, [], ◌∷◌, ◌++◌, some, arith, if◌then◌else◌,
  length, take, drop, get_or, Bool-cases, inl, inr, length-append, take-append, drop-append_ge, sym,
  ◌∙◌, ◌≤◌, ◌<◌,
}
use a_tiny_network_library.Common.Text.{
  eq_text, eq_text→eq, eq_text_refl, isspace, skip_spaces, trimmed_size, trim_end,
}
use a_tiny_network_library.Http.Request.{
  Method, Request, HeaderMap, put_header, find_header, header_value, add_header, get_header,
  read_method, method_string,
}

not_same : (k j : List ℕ) → eq_text j k ≡ false → eq_text k j ≡ false
not_same k j h = elim (Bool-cases (eq_text k j)) [
  | inl same ↦
      let e : k ≡ j = eq_text→eq k j same in
      let h' : eq_text j j ≡ false = ap (eq_text j) (sym e) ∙ h in cc (eq_text_refl j)
  | inr other ↦ other
]

find_header-put :
    (k j v : List ℕ) (m : HeaderMap)
    → find_header j (put_header k v m) ≡ (if eq_text k j then some v else find_header j m)
unfolding find_header put_header
find_header-put k j v [] = refl
find_header-put k j v ((i, w) ∷ m) = elim (Bool-cases (eq_text i k)) [
  | inl same ↦
      let e : i ≡ k = eq_text→eq i k same in
      rw (e, eq_text_refl k) (elim (Bool-cases (eq_text k j)) [ inl h ↦ rw h | inr h ↦ rw h ])
  | inr other ↦ rw other (elim (Bool-cases (eq_text i j)) [
    | inl hit ↦
        let e : i ≡ j = eq_text→eq i j hit in
        let miss : eq_text k j ≡ false = not_same k j (rw (← e) other) in rw (hit, miss)
    | inr miss ↦ rw (miss, find_header-put k j v m)
  ])
]

get_header-added :
    (line field : List ℕ) (colon : ℕ) (r : Request)
    → get_header field (add_header line colon r) ≡ (
        if eq_text (take colon line) field
        then header_value (drop (colon + 1) line)
        else get_header field r)
unfolding get_header add_header
get_header-added line field colon r =
    rw (find_header-put (take colon line) field (header_value (drop (colon + 1) line)) r.headers)
      (elim (Bool-cases (eq_text (take colon line) field)) [ inl h ↦ rw h | inr h ↦ rw h ])

-- A value whose ends are no spaces.
abbrev pub Bare : List ℕ → Type 0
Bare [] = Unit {0}
Bare (c ∷ s) = (isspace c ≡ false) × (isspace (get_or (c ∷ s) (length s) 0) ≡ false)

abbrev pub Spaces : List ℕ → Type 0
Spaces [] = Unit {0}
Spaces (c ∷ s) = (isspace c ≡ true) × Spaces s

skip_spaces-append : (pad v : List ℕ) → Spaces pad → skip_spaces (pad ++ v) ≡ skip_spaces v
unfolding skip_spaces
skip_spaces-append [] v h = refl
skip_spaces-append (c ∷ pad) v h = rw h.0 (skip_spaces-append pad v h.1)

get_or-append : (v pad : List ℕ) (k : ℕ) → get_or (v ++ pad) (length v + k) 0 ≡ get_or pad k 0
get_or-append [] pad k = let e : 0 + k ≡ k = omega arith in rw e
get_or-append (c ∷ v) pad k =
    let e : suc (length v) + k ≡ suc (length v + k) = omega arith in rw e (get_or-append v pad k)

get_or-append_lt : (v pad : List ℕ) (k : ℕ) → k < length v → get_or (v ++ pad) k 0 ≡ get_or v k 0
get_or-append_lt [] pad k h = absurd (omega arith)
get_or-append_lt (c ∷ v) pad zero h = refl
get_or-append_lt (c ∷ v) pad (suc k) h = get_or-append_lt v pad k (omega arith)

get_or-Spaces :
    (pad : List ℕ) (k : ℕ) → Spaces pad → k < length pad → isspace (get_or pad k 0) ≡ true
get_or-Spaces [] k h lt = absurd (omega arith)
get_or-Spaces (c ∷ pad) zero h lt = h.0
get_or-Spaces (c ∷ pad) (suc k) h lt = get_or-Spaces pad k h.1 (omega arith)

-- The loop takes off the spaces behind `v`, down to the size `n` where it stops.
trimmed_size-pad :
    (v pad : List ℕ) (k : ℕ)
    → Spaces pad
    → k ≤ length pad
    → trimmed_size (v ++ pad) (length v + k) ≡ trimmed_size (v ++ pad) (length v)
unfolding trimmed_size
trimmed_size-pad v pad zero h le = let e : length v + 0 ≡ length v = omega arith in rw e
trimmed_size-pad v pad (suc k) h le =
    let e : length v + suc k ≡ suc (length v + k) = omega arith in
    rw (e, trimmed_size, get_or-append v pad k, get_or-Spaces pad k h (omega arith))
      (trimmed_size-pad v pad k h (omega arith))

trimmed_size-Bare : (v pad : List ℕ) → Bare v → trimmed_size (v ++ pad) (length v) ≡ length v
unfolding trimmed_size
trimmed_size-Bare [] pad h = refl
trimmed_size-Bare (c ∷ s) pad h = rw (get_or-append_lt (c ∷ s) pad (length s) (omega arith), h.1)

skip_spaces-Spaces : (pad : List ℕ) → Spaces pad → skip_spaces pad ≡ []
unfolding skip_spaces
skip_spaces-Spaces [] h = refl
skip_spaces-Spaces (c ∷ pad) h = rw h.0 (skip_spaces-Spaces pad h.1)

skip_spaces-cons : (c : ℕ) (s : List ℕ) → isspace c ≡ false → skip_spaces (c ∷ s) ≡ c ∷ s
unfolding skip_spaces
skip_spaces-cons c s h = rw h

-- The value of a header is the text between the spaces around it.
pub header_value-Bare :
    (before v after : List ℕ)
    → Spaces before
    → Bare v
    → Spaces after
    → header_value (before ++ (v ++ after)) ≡ v
unfolding header_value trim_end
header_value-Bare before [] after h b k =
    rw (skip_spaces-append before after h, skip_spaces-Spaces after k) (unfold trimmed_size in refl)
header_value-Bare before (c ∷ s) after h b k =
    rw
      (
        skip_spaces-append before (c ∷ s ++ after) h,
        skip_spaces-cons c (s ++ after) b.0,
        length-append (c ∷ s) after,
        trimmed_size-pad (c ∷ s) after (length after) k (omega arith),
        trimmed_size-Bare (c ∷ s) after b,
      )
      (take-append (c ∷ s) after (suc (length s)) (omega arith))

-- After `addHeader` of a line, `getHeader` answers for the field in front of the colon the text between
-- the spaces around the value, and for every other field what it answered before.
pub get_header-add_header :
    (key before v after field : List ℕ) (r : Request)
    → Spaces before
    → Bare v
    → Spaces after
    → get_header field (add_header (key ++ (b':' ∷ (before ++ (v ++ after)))) (length key) r)
      ≡ (if eq_text key field then v else get_header field r)
get_header-add_header key before v after field r h b k =
    let value = before ++ (v ++ after) in
    get_header-added (key ++ (b':' ∷ value)) field (length key) r
    ∙ rw
        (
          take-append key (b':' ∷ value) (length key) refl,
          drop-append_ge key (b':' ∷ value) (length key + 1) 1 refl,
          header_value-Bare before v after h b k,
        )
        refl

-- Reading a printed method gives the method back.
pub read_method-method_string : (m : Method) → read_method (method_string m) ≡ m
unfolding read_method method_string eq_text
read_method-method_string Method.get = refl
read_method-method_string _ = refl
