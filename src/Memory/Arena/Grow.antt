-- ===== src/Memory/Arena/Grow.antt =====
-- src/memory/MemoryPool.cc: a page is added, with a first piece in it.
use a_tiny_network_library.Common.{◌+◌, ◌≡◌, ◌≤◌, inl, inr, List, [], ◌∷◌, ◌++◌, arith}
use a_tiny_network_library.Common.Places.{
  All, nil, cons, Removes, Memᴰ, All-mem, All-map, All-append, All-both, Pairwise-append,
  mem-append, mem-last, All-Inserts, Pairwise-Inserts,
}
use a_tiny_network_library.Memory.Arena.{
  Area, Piece, Apart, Disjoint, Fits, Holds, count, IsValid, turn_Apart, turn_Disjoint,
  count-Removes-in, count-Removes-out, Outside, count-eq-zero,
}

-- The page and the piece that it is made for.
pub record Grows (p : Piece) (b : Area) : Type 0 where
  pub fit : Fits b
  pub holds : Holds p b
  pub once : b.quote ≡ 1

module _ {b : Area} {p : Piece} (g : Grows p b) where
  within : p.address + 1 ≤ b.end_
  within = omega (arith, g.holds.below, g.holds.nonempty, g.fit.inside)

  away :
      {xs : List Area} {q : Piece}
      → All Fits xs
      → All (Apart b) xs
      → ((c : Area) × Memᴰ c xs × Holds q c)
      → Outside b.start b.end_ q × Disjoint p q
  away {q} fs rs (c, m, h) =
      let f = All-mem fs m in
      let a = g.holds.after in
      let i = g.fit.inside in
      let room = g.fit.room in
      elim (All-mem rs m) [
        | inl k ↦
            (inr (omega (arith, k, h.after)), inl (omega (arith, k, h.after, g.holds.below, i)))
        | inr k ↦ (
          inl (omega (arith, k, h.below, f.inside, h.nonempty)),
          inr (omega (arith, k, h.below, f.inside, a)),
        )
      ]

  Grows-count :
      {ps qs : List Piece} (c : Area)
      → Removes p qs ps
      → Apart b c
      → c.quote ≡ count c.start c.end_ ps
      → c.quote ≡ count c.start c.end_ qs
  Grows-count c r k e = omega (arith, e, count-Removes-out c.start c.end_ r outside)
    where
      outside : Outside c.start c.end_ p
      outside = elim k [
        | inl h ↦ inl (omega (arith, h, within))
        | inr h ↦ inr (omega (arith, h, g.holds.after))
      ]

pub Grows-IsValid :
    {xs : List Area} {b : Area} {p : Piece} {ps qs : List Piece}
    → Grows p b
    → All (Apart b) xs
    → Removes p qs ps
    → IsValid xs ps
    → IsValid (xs ++ (b ∷ [])) qs
Grows-IsValid {xs} {b} {p} {ps} {qs} g rs i v = record {
  fit = All-append v.fit (cons g.fit nil);
  apart = Pairwise-append (λ c. turn_Apart c b) v.apart rs;
  held =
      All-Inserts i (b, mem-last xs, g.holds)
        (All-map (λ q (c, m, h). (c, mem-append (b ∷ []) m, h)) v.held);
  disjoint =
      Pairwise-Inserts (λ q. turn_Disjoint p q) i
        (All-map (λ q s. let (o, d) = away g {q = q} v.fit rs s in d) v.held) v.disjoint;
  counted = All-append (All-both (λ c k. Grows-count g c i k) rs v.counted) (cons alone nil);
}
  where
    alone : b.quote ≡ count b.start b.end_ qs
    alone = omega (
      arith,
      g.once,
      count-Removes-in b.start b.end_ i (omega (arith, g.holds.after)) (omega (arith, within g)),
      count-eq-zero b.start b.end_
          (All-map (λ q s. let (o, d) = away g {q = q} v.fit rs s in o) v.held),
    )
