-- ===== src/Memory/Arena/Take.antt =====
-- src/memory/MemoryPool.cc: a piece is cut from a page that has room for it.
use a_tiny_network_library.Common.{suc, ◌+◌, ◌%◌, ◌≡◌, ◌≤◌, ◌<◌, subst, ◌⊎◌, inl, inr, List, arith}
use a_tiny_network_library.Common.Places.{
  All, Replaces, Removes, Memᴰ, All-mem, All-map, others, Replaces-old, Replaces-new, Replaces-mem,
  All-Replaces, Pairwise-Replaces, All-Inserts, Pairwise-Inserts,
}
use a_tiny_network_library.Memory.Arena.{
  Area, Piece, Apart, Disjoint, Fits, Holds, count, IsValid, turn_Apart, turn_Disjoint,
  count-Removes-in, count-Removes-out,
}

-- The area after the piece is cut from it.
pub record Takes (a : Area) (p : Piece) (b : Area) : Type 0 where
  pub same_start : b.start ≡ a.start
  pub same_end : b.end_ ≡ a.end_
  pub counts : b.quote ≡ suc a.quote
  pub cut : b.last ≡ p.address + p.size
  pub above : a.last ≤ p.address
  pub fits : p.address + p.size ≤ a.end_
  pub nonempty : 1 ≤ p.size
  pub aligned : p.address % 16 ≡ 0

module _ {a b : Area} {p : Piece} (t : Takes a p b) where
  take-Fits : Fits a → Fits b
  take-Fits f = record {
    room = omega (arith, f.room, t.above, t.cut, t.counts, t.same_start, t.nonempty);
    inside = omega (arith, t.cut, t.fits, t.same_end);
    page = omega (arith, f.page, t.same_start, t.same_end);
    even = omega (arith, f.even, t.same_end);
    addressed = omega (arith, f.addressed, t.same_end);
  }

  new-Holds : Fits a → Holds p b
  new-Holds f = record {
    after = omega (arith, f.room, t.above, t.same_start);
    below = omega (arith, t.cut);
    nonempty = t.nonempty;
    aligned = t.aligned;
  }

  old-Holds : {q : Piece} → Holds q a → Holds q b
  old-Holds h = record {
    after = omega (arith, h.after, t.same_start);
    below = omega (arith, h.below, t.cut, t.above);
    nonempty = h.nonempty;
    aligned = h.aligned;
  }

  old-held :
      {xs ys : List Area} {q : Piece}
      → Replaces a b xs ys
      → ((c : Area) × Memᴰ c xs × Holds q c)
      → (c : Area) × Memᴰ c ys × Holds q c
  old-held {ys} {q} r (c, m, h) = elim (Replaces-mem r m) [
    | inl e ↦ (b, Replaces-new r, old-Holds (subst (Holds q) e h))
    | inr n ↦ (c, n, h)
  ]

  new-Disjoint :
      {xs : List Area} {q : Piece}
      → Fits a
      → All Fits xs
      → All (λ c. (c ≡ a) ⊎ Apart a c) xs
      → ((c : Area) × Memᴰ c xs × Holds q c)
      → Disjoint p q
  new-Disjoint {q} f fs rs (c, m, h) = elim (All-mem rs m) [
    | inl e ↦ let below = (subst (Holds q) e h).below in inr (omega (arith, below, t.above))
    | inr (inl k) ↦ inl (omega (arith, k, t.fits, h.after))
    | inr (inr k) ↦
        let g = All-mem fs m in inr (omega (arith, k, h.below, g.inside, f.room, t.above))
  ]

  new-count :
      {ps qs : List Piece}
      → Fits a
      → Removes p qs ps
      → a.quote ≡ count a.start a.end_ ps
      → b.quote ≡ count b.start b.end_ qs
  new-count {ps} {qs} f r e =
      rw (t.same_start, t.same_end)
        (omega (
          arith,
          e,
          t.counts,
          count-Removes-in a.start a.end_ r (omega (arith, f.room, t.above))
              (omega (arith, t.fits)),
        ))

  old-count :
      {ps qs : List Piece} (c : Area)
      → Fits a
      → Removes p qs ps
      → Apart a c
      → c.quote ≡ count c.start c.end_ ps
      → c.quote ≡ count c.start c.end_ qs
  old-count c f r k e = omega (arith, e, count-Removes-out c.start c.end_ r outside)
    where
      outside : (p.address < c.start) ⊎ (c.end_ < p.address)
      outside = elim k [
        | inl h ↦ inl (omega (arith, h, t.fits, t.nonempty))
        | inr h ↦ inr (omega (arith, h, f.room, t.above))
      ]

  Takes-Apart-left : (c : Area) → Apart a c → Apart b c
  Takes-Apart-left c (inl h) = inl (omega (arith, h, t.same_end))
  Takes-Apart-left c (inr h) = inr (omega (arith, h, t.same_start))

pub Takes-IsValid :
    {xs ys : List Area} {a b : Area} {p : Piece} {ps qs : List Piece}
    → Takes a p b
    → Replaces a b xs ys
    → Removes p qs ps
    → IsValid xs ps
    → IsValid ys qs
Takes-IsValid {xs} {ys} {a} {b} {p} {ps} {qs} t r i v = record {
  fit = All-Replaces turn_Apart' (take-Fits t) (λ c k g. g) r v.apart v.fit;
  apart =
      Pairwise-Replaces (Takes-Apart-left t)
        (λ c k. turn_Apart c b (Takes-Apart-left t c (turn_Apart a c k))) r v.apart;
  held =
      All-Inserts i (b, Replaces-new r, new-Holds t f) (All-map (λ q. old-held t {q = q} r) v.held);
  disjoint =
      Pairwise-Inserts (turn_Disjoint') i
        (All-map (λ q. new-Disjoint t {q = q} f v.fit around) v.held) v.disjoint;
  counted = All-Replaces turn_Apart' (new-count t f i) (λ c. old-count t c f i) r v.apart v.counted;
}
  where
    turn_Apart' : (c : Area) → Apart c a → Apart a c
    turn_Apart' c = turn_Apart a c

    turn_Disjoint' : (q : Piece) → Disjoint p q → Disjoint q p
    turn_Disjoint' q = turn_Disjoint p q

    f : Fits a
    f = All-mem v.fit (Replaces-old r)

    around : All (λ c. (c ≡ a) ⊎ Apart a c) xs
    around = others turn_Apart' v.apart (Replaces-old r)
