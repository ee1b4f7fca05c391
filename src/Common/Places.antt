-- ===== src/Common/Places.antt =====
-- Lists whose elements satisfy a predicate or a relation, and one element of a list replaced or
-- taken out.
use a_tiny_network_library.Common.{◌≡◌, refl, sym, subst, ◌⊎◌, inl, inr, List, [], ◌∷◌, ◌++◌}
pub use mathlib.Core.List.{Memᴰ}

module _ {A : Type 0} where
  pub data All (P : A → Type 0) : List A → Type 0 where
    nil : All P []
    cons : {x : A} {xs : List A} → P x → All P xs → All P (x ∷ xs)

  pub data Pairwise (R : A → A → Type 0) : List A → Type 0 where
    lone : Pairwise R []
    apart_from : {x : A} {xs : List A} → All (R x) xs → Pairwise R xs → Pairwise R (x ∷ xs)

  pub data Replaces (a b : A) : List A → List A → Type 0 where
    now : {xs : List A} → Replaces a b (a ∷ xs) (b ∷ xs)
    later : {c : A} {xs ys : List A} → Replaces a b xs ys → Replaces a b (c ∷ xs) (c ∷ ys)

  pub data Removes (a : A) : List A → List A → Type 0 where
    first : {xs : List A} → Removes a (a ∷ xs) xs
    further : {c : A} {xs ys : List A} → Removes a xs ys → Removes a (c ∷ xs) (c ∷ ys)

  pub All-mem : {P : A → Type 0} {xs : List A} {a : A} → All P xs → Memᴰ a xs → P a
  All-mem nil m = elim m [ ]
  All-mem {P} (cons p ps) (Memᴰ.head e) = subst P (sym e) p
  All-mem (cons p ps) (Memᴰ.tail m) = All-mem ps m

  pub All-map : {P Q : A → Type 0} {xs : List A} → ((x : A) → P x → Q x) → All P xs → All Q xs
  All-map f nil = nil
  All-map f (cons {x} p ps) = cons (f x p) (All-map f ps)

  pub All-both :
      {P Q R : A → Type 0} {xs : List A}
      → ((x : A) → P x → Q x → R x)
      → All P xs
      → All Q xs
      → All R xs
  All-both f nil nil = nil
  All-both f (cons {x} p ps) (cons q qs) = cons (f x p q) (All-both f ps qs)

  pub All-append : {P : A → Type 0} {xs ys : List A} → All P xs → All P ys → All P (xs ++ ys)
  All-append nil qs = qs
  All-append (cons p ps) qs = cons p (All-append ps qs)

  -- A new element at the end, in relation with all that are there.
  pub Pairwise-append :
      {R : A → A → Type 0} {xs : List A} {a : A}
      → ((c : A) → R a c → R c a)
      → Pairwise R xs
      → All (R a) xs
      → Pairwise R (xs ++ (a ∷ []))
  Pairwise-append turn lone nil = apart_from nil lone
  Pairwise-append turn (apart_from {x} rs ps) (cons r more) =
      apart_from (All-append rs (cons (turn x r) nil)) (Pairwise-append turn ps more)

  pub mem-append : {a : A} {xs : List A} (ys : List A) → Memᴰ a xs → Memᴰ a (xs ++ ys)
  mem-append ys (Memᴰ.head e) = Memᴰ.head e
  mem-append ys (Memᴰ.tail m) = Memᴰ.tail (mem-append ys m)

  pub mem-last : (xs : List A) {a : A} → Memᴰ a (xs ++ (a ∷ []))
  mem-last [] = Memᴰ.head refl
  mem-last (x ∷ xs) = Memᴰ.tail (mem-last xs)

  -- Every element is the one in question or in relation with it.
  pub others :
      {R : A → A → Type 0} {xs : List A} {a : A}
      → ((c : A) → R c a → R a c)
      → Pairwise R xs
      → Memᴰ a xs
      → All (λ c. (c ≡ a) ⊎ R a c) xs
  others turn lone m = elim m [ ]
  others {R} {a} turn (apart_from {x} {xs} rs ps) (Memᴰ.head e) =
      cons (inl (sym e)) (All-map (λ c r. inr (subst (λ y. R y c) (sym e) r)) rs)
  others turn (apart_from {x} rs ps) (Memᴰ.tail m) =
      cons (inr (turn x (All-mem rs m))) (others turn ps m)

  pub Replaces-old : {a b : A} {xs ys : List A} → Replaces a b xs ys → Memᴰ a xs
  Replaces-old now = Memᴰ.head refl
  Replaces-old (later r) = Memᴰ.tail (Replaces-old r)

  pub Replaces-new : {a b : A} {xs ys : List A} → Replaces a b xs ys → Memᴰ b ys
  Replaces-new now = Memᴰ.head refl
  Replaces-new (later r) = Memᴰ.tail (Replaces-new r)

  pub Replaces-mem :
      {a b c : A} {xs ys : List A} → Replaces a b xs ys → Memᴰ c xs → (c ≡ a) ⊎ Memᴰ c ys
  Replaces-mem now (Memᴰ.head e) = inl e
  Replaces-mem now (Memᴰ.tail m) = inr (Memᴰ.tail m)
  Replaces-mem (later r) (Memᴰ.head e) = inr (Memᴰ.head e)
  Replaces-mem (later r) (Memᴰ.tail m) = elim (Replaces-mem r m) [
    | inl e ↦ inl e
    | inr n ↦ inr (Memᴰ.tail n)
  ]

  pub Replaces-prefix :
      {a b : A} (zs : List A) {xs ys : List A}
      → Replaces a b xs ys
      → Replaces a b (zs ++ xs) (zs ++ ys)
  Replaces-prefix [] r = r
  Replaces-prefix (z ∷ zs) r = later (Replaces-prefix zs r)

  -- What holds of the elements after one is replaced: the others are in relation with it.
  pub All-Replaces :
      {R : A → A → Type 0} {P Q : A → Type 0} {a b : A} {xs ys : List A}
      → ((c : A) → R c a → R a c)
      → (P a → Q b)
      → ((c : A) → R a c → P c → Q c)
      → Replaces a b xs ys
      → Pairwise R xs
      → All P xs
      → All Q ys
  All-Replaces {R} {P} {Q} turn change keep (now {xs}) (apart_from rs pairs) (cons p ps) =
      cons (change p) (All-both keep rs ps)
  All-Replaces turn change keep (later {c} r) (apart_from rs pairs) (cons p ps) =
      cons (keep c (turn c (All-mem rs (Replaces-old r))) p)
        (All-Replaces turn change keep r pairs ps)

  pub Pairwise-Replaces :
      {R : A → A → Type 0} {a b : A} {xs ys : List A}
      → ((c : A) → R a c → R b c)
      → ((c : A) → R c a → R c b)
      → Replaces a b xs ys
      → Pairwise R xs
      → Pairwise R ys
  Pairwise-Replaces left right now (apart_from rs pairs) = apart_from (All-map left rs) pairs
  Pairwise-Replaces {R} {a} {b} left right (later {c} r) (apart_from rs pairs) =
      apart_from (along r rs) (Pairwise-Replaces left right r pairs)
    where
      along : {xs ys : List A} → Replaces a b xs ys → All (R c) xs → All (R c) ys
      along now (cons q qs) = cons (right c q) qs
      along (later s) (cons q qs) = cons q (along s qs)

  pub Removes-mem : {a : A} {xs ys : List A} → Removes a xs ys → Memᴰ a xs
  Removes-mem first = Memᴰ.head refl
  Removes-mem (further r) = Memᴰ.tail (Removes-mem r)

  pub All-Removes :
      {P : A → Type 0} {a : A} {xs ys : List A} → Removes a xs ys → All P xs → All P ys
  All-Removes first (cons p ps) = ps
  All-Removes (further r) (cons p ps) = cons p (All-Removes r ps)

  pub Pairwise-Removes :
      {R : A → A → Type 0} {a : A} {xs ys : List A}
      → Removes a xs ys
      → Pairwise R xs
      → Pairwise R ys
  Pairwise-Removes first (apart_from rs pairs) = pairs
  Pairwise-Removes (further r) (apart_from rs pairs) =
      apart_from (All-Removes r rs) (Pairwise-Removes r pairs)

  pub All-Inserts :
      {P : A → Type 0} {a : A} {xs ys : List A} → Removes a ys xs → P a → All P xs → All P ys
  All-Inserts first p ps = cons p ps
  All-Inserts (further r) p (cons q qs) = cons q (All-Inserts r p qs)

  pub Pairwise-Inserts :
      {R : A → A → Type 0} {a : A} {xs ys : List A}
      → ((c : A) → R a c → R c a)
      → Removes a ys xs
      → All (R a) xs
      → Pairwise R xs
      → Pairwise R ys
  Pairwise-Inserts turn first rs pairs = apart_from rs pairs
  Pairwise-Inserts turn (further {c} r) (cons q qs) (apart_from rs pairs) =
      apart_from (All-Inserts r (turn c q) rs) (Pairwise-Inserts turn r qs pairs)

  -- The one that is taken out is in relation with those that stay.
  pub Removes-others :
      {R : A → A → Type 0} {a : A} {xs ys : List A}
      → ((c : A) → R c a → R a c)
      → Removes a xs ys
      → Pairwise R xs
      → All (R a) ys
  Removes-others turn first (apart_from rs pairs) = rs
  Removes-others turn (further {c} r) (apart_from rs pairs) =
      cons (turn c (All-mem rs (Removes-mem r))) (Removes-others turn r pairs)

  pub All-suffix : {P : A → Type 0} (xs : List A) {ys : List A} → All P (xs ++ ys) → All P ys
  All-suffix [] ps = ps
  All-suffix (x ∷ xs) (cons p ps) = All-suffix xs ps

  pub All-prefix : {P : A → Type 0} (xs ys : List A) → All P (xs ++ ys) → All P xs
  All-prefix [] ys ps = nil
  All-prefix (x ∷ xs) ys (cons p ps) = cons p (All-prefix xs ys ps)

  pub Pairwise-prefix :
      {R : A → A → Type 0} (xs ys : List A) → Pairwise R (xs ++ ys) → Pairwise R xs
  Pairwise-prefix [] ys ps = lone
  Pairwise-prefix (x ∷ xs) ys (apart_from rs ps) =
      apart_from (All-prefix xs ys rs) (Pairwise-prefix xs ys ps)

  pub Removes-prefix :
      {a : A} {xs ys : List A} (zs : List A) → Removes a xs ys → Removes a (xs ++ zs) (ys ++ zs)
  Removes-prefix zs first = first
  Removes-prefix zs (further r) = further (Removes-prefix zs r)

  pub Removes-middle : {a : A} (xs ys : List A) → Removes a (xs ++ (a ∷ ys)) (xs ++ ys)
  Removes-middle [] ys = first
  Removes-middle (x ∷ xs) ys = further (Removes-middle xs ys)
