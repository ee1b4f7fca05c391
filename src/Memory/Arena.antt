-- ===== src/Memory/Arena.antt =====
-- src/memory/MemoryPool.cc: what the pages promise. An area is the part of a page that a node manages,
-- and a piece is a range of bytes that was handed out and not given back.
pub mod Take
pub mod Grow
pub mod Release
use a_tiny_network_library.Common.{
  ℕ, suc, ◌+◌, ◌-◌, ◌%◌, ◌^◌, ◌≡◌, ◌≤◌, ◌<◌, refl, sym, subst, ◌⊎◌, inl, inr, ◌&&◌, List, [], ◌∷◌,
  ◌++◌, arith, if◌then◌else◌, leb, le→leb,
}
use a_tiny_network_library.Common.Word.{size_mod}
use a_tiny_network_library.Common.Places.{
  All, nil, cons, Pairwise, lone, apart_from, Replaces, Removes, first, further, Memᴰ, All-mem,
  All-map, All-append, All-both, Pairwise-append, mem-append, mem-last, others, Replaces-old,
  Replaces-new, Replaces-mem, All-Replaces, Pairwise-Replaces, Removes-mem, All-Removes,
  Pairwise-Removes, All-Inserts, Pairwise-Inserts,
}

pub record Area : Type 0 where
  pub start : ℕ
  pub end_ : ℕ
  pub last : ℕ
  pub quote : ℕ

pub record Piece : Type 0 where
  pub address : ℕ
  pub size : ℕ

abbrev pub Apart : Area → Area → Type 0
Apart a b = (a.end_ ≤ b.start) ⊎ (b.end_ ≤ a.start)

abbrev pub Disjoint : Piece → Piece → Type 0
Disjoint p q = (p.address + p.size ≤ q.address) ⊎ (q.address + q.size ≤ p.address)

-- The node takes 32 bytes, and a piece at least one.
pub record Fits (a : Area) : Type 0 where
  pub room : a.start + 32 + a.quote ≤ a.last
  pub inside : a.last ≤ a.end_
  pub page : a.end_ ≤ a.start + 4096
  pub even : a.end_ % 16 ≡ 0
  pub addressed : a.end_ + 4096 < size_mod

-- The area holds the piece: after its node, and below the place that is handed out next.
pub record Holds (p : Piece) (a : Area) : Type 0 where
  pub after : a.start + 32 ≤ p.address
  pub below : p.address + p.size ≤ a.last
  pub nonempty : 1 ≤ p.size
  pub aligned : p.address % 16 ≡ 0

-- The pieces of a list that lie between two addresses, both included.
unfoldable pub count : (start end_ : ℕ) → List Piece → ℕ
count start end_ [] = 0
count start end_ (p ∷ ps) =
    let rest = count start end_ ps in
    if leb start p.address && leb p.address end_ then suc rest else rest

pub record IsValid (areas : List Area) (live : List Piece) : Type 0 where
  pub fit : All Fits areas
  pub apart : Pairwise Apart areas
  pub held : All (λ p. (a : Area) × Memᴰ a areas × Holds p a) live
  pub disjoint : Pairwise Disjoint live
  pub counted : All (λ a. a.quote ≡ count a.start a.end_ live) areas

pub turn_Apart : (a c : Area) → Apart c a → Apart a c
turn_Apart a c (inl h) = inr h
turn_Apart a c (inr h) = inl h

pub turn_Disjoint : (p q : Piece) → Disjoint p q → Disjoint q p
turn_Disjoint p q (inl h) = inr h
turn_Disjoint p q (inr h) = inl h

-- A change of the list by one piece changes the count of the areas that it lies in.
pub count-Removes-in :
    {p : Piece} {ps qs : List Piece} (start end_ : ℕ)
    → Removes p ps qs
    → start ≤ p.address
    → p.address ≤ end_
    → count start end_ ps ≡ suc (count start end_ qs)
unfolding count
count-Removes-in {p} start end_ first h k = rw (le→leb start p.address h, le→leb p.address end_ k)
count-Removes-in start end_ (further {c} r) h k = ground (arith, count-Removes-in start end_ r h k)

pub count-Removes-out :
    {p : Piece} {ps qs : List Piece} (start end_ : ℕ)
    → Removes p ps qs
    → (p.address < start) ⊎ (end_ < p.address)
    → count start end_ ps ≡ count start end_ qs
unfolding count
count-Removes-out {p} start end_ first h = ground arith
count-Removes-out start end_ (further {c} r) h = ground (arith, count-Removes-out start end_ r h)

abbrev pub Outside : (start end_ : ℕ) → Piece → Type 0
Outside start end_ p = (p.address < start) ⊎ (end_ < p.address)

pub count-eq-zero :
    (start end_ : ℕ) {ps : List Piece} → All (Outside start end_) ps → count start end_ ps ≡ 0
unfolding count
count-eq-zero start end_ nil = refl
count-eq-zero start end_ (cons {x} {xs} o os) = ground (arith, count-eq-zero start end_ os)

pub count-none :
    (start end_ : ℕ) (ps : List Piece) → count start end_ ps ≡ 0 → All (Outside start end_) ps
unfolding count
count-none start end_ [] e = nil
count-none start end_ (p ∷ ps) e = cons (ground arith) (count-none start end_ ps (ground arith))
