-- ===== src/Memory/Arena/Release.antt =====
-- src/memory/MemoryPool.cc: a piece is given back, and its page starts over when it was the last.
use a_tiny_network_library.Common.{suc, ◌+◌, ◌≡◌, sym, subst, ◌⊎◌, inl, inr, List, [], ◌∷◌, arith}
use a_tiny_network_library.Common.Places.{
  All, nil, cons, Replaces, Removes, Memᴰ, All-mem, Replaces-old, Replaces-new, Replaces-mem,
  All-Replaces, Pairwise-Replaces, All-Removes, Pairwise-Removes,
}
use a_tiny_network_library.Memory.Arena.{
  Area, Piece, Apart, Fits, Holds, count, IsValid, turn_Apart, count-Removes-in, count-Removes-out,
  Outside, count-none,
}

pub record Drops (a b : Area) : Type 0 where
  pub same_start : b.start ≡ a.start
  pub same_end : b.end_ ≡ a.end_
  pub counts : a.quote ≡ suc b.quote
  pub last : (b.last ≡ a.last) ⊎ ((b.quote ≡ 0) × (b.last ≡ a.start + 32))

module _ {a b : Area} (d : Drops a b) where
  drop-Fits : Fits a → Fits b
  drop-Fits f = record {
    room = elim d.last [
      | inl e ↦ omega (arith, e, f.room, d.counts, d.same_start)
      | inr (z, e) ↦ omega (arith, e, z, d.same_start)
    ];
    inside = elim d.last [
      | inl e ↦ omega (arith, e, f.inside, d.same_end)
      | inr (z, e) ↦ omega (arith, e, f.room, f.inside, d.same_end)
    ];
    page = omega (arith, f.page, d.same_start, d.same_end);
    even = omega (arith, f.even, d.same_end);
    addressed = omega (arith, f.addressed, d.same_end);
  }

  -- A piece that is still there keeps the page from starting over.
  keeps-Holds :
      {q : Piece} → Fits a → ((b.quote ≡ 0) → Outside a.start a.end_ q) → Holds q a → Holds q b
  keeps-Holds {q} f none_left h = record {
    after = omega (arith, h.after, d.same_start);
    below = elim d.last [
      | inl e ↦ omega (arith, h.below, e)
      | inr (z, e) ↦ elim (none_left z) [
        | inl o ↦ omega (arith, o, h.after)
        | inr o ↦ omega (arith, o, h.below, h.nonempty, f.inside)
      ]
    ];
    nonempty = h.nonempty;
    aligned = h.aligned;
  }

  Drops-Apart-left : (c : Area) → Apart a c → Apart b c
  Drops-Apart-left c (inl h) = inl (omega (arith, h, d.same_end))
  Drops-Apart-left c (inr h) = inr (omega (arith, h, d.same_start))

  Drops-count :
      {p : Piece} {ps qs : List Piece}
      → Fits a
      → Holds p a
      → Removes p ps qs
      → a.quote ≡ count a.start a.end_ ps
      → b.quote ≡ count a.start a.end_ qs
  Drops-count f h r e = omega (
    arith,
    e,
    d.counts,
    count-Removes-in a.start a.end_ r (omega (arith, h.after))
        (omega (arith, h.below, h.nonempty, f.inside)),
  )

others-count :
    {p : Piece} {a : Area} {ps qs : List Piece} (c : Area)
    → Fits a
    → Holds p a
    → Removes p ps qs
    → Apart a c
    → c.quote ≡ count c.start c.end_ ps
    → c.quote ≡ count c.start c.end_ qs
others-count {p} c f h r k e = omega (arith, e, count-Removes-out c.start c.end_ r outside)
  where
    outside : Outside c.start c.end_ p
    outside = elim k [
      | inl l ↦ inl (omega (arith, l, h.below, h.nonempty, f.inside))
      | inr l ↦ inr (omega (arith, l, h.after))
    ]

pub Drops-IsValid :
    {xs ys : List Area} {a b : Area} {p : Piece} {ps qs : List Piece}
    → Drops a b
    → Holds p a
    → Replaces a b xs ys
    → Removes p ps qs
    → IsValid xs ps
    → IsValid ys qs
Drops-IsValid {xs} {ys} {a} {b} {p} {ps} {qs} d h r i v = record {
  fit = All-Replaces (λ c. turn_Apart a c) (drop-Fits d) (λ c k g. g) r v.apart v.fit;
  apart =
      Pairwise-Replaces (Drops-Apart-left d)
        (λ c k. turn_Apart c b (Drops-Apart-left d c (turn_Apart a c k))) r v.apart;
  held = still_held qs (All-Removes i v.held) (λ z. count-none a.start a.end_ qs (sym (counts z)));
  disjoint = Pairwise-Removes i v.disjoint;
  counted =
      All-Replaces (λ c. turn_Apart a c)
        (λ e. rw (d.same_start, d.same_end) (Drops-count d f h i e)) (λ c. others-count c f h i) r
        v.apart v.counted;
}
  where
    f : Fits a
    f = All-mem v.fit (Replaces-old r)

    counts : b.quote ≡ 0 → 0 ≡ count a.start a.end_ qs
    counts z = omega (arith, z, Drops-count d f h i (All-mem v.counted (Replaces-old r)))

    held_in :
        (q : Piece)
        → (b.quote ≡ 0 → Outside a.start a.end_ q)
        → ((c : Area) × Memᴰ c xs × Holds q c)
        → (c : Area) × Memᴰ c ys × Holds q c
    held_in q o (c, m, k) = elim (Replaces-mem r m) [
      | inl e ↦ (b, Replaces-new r, keeps-Holds d {q = q} f o (subst (Holds q) e k))
      | inr n ↦ (c, n, k)
    ]

    head_of :
        (q : Piece) (zs : List Piece)
        → All (Outside a.start a.end_) (q ∷ zs)
        → Outside a.start a.end_ q
    head_of q zs (cons o os) = o

    tail_of :
        (q : Piece) (zs : List Piece)
        → All (Outside a.start a.end_) (q ∷ zs)
        → All (Outside a.start a.end_) zs
    tail_of q zs (cons o os) = os

    still_held :
        (zs : List Piece)
        → All (λ q. (c : Area) × Memᴰ c xs × Holds q c) zs
        → (b.quote ≡ 0 → All (Outside a.start a.end_) zs)
        → All (λ q. (c : Area) × Memᴰ c ys × Holds q c) zs
    still_held [] nil os = nil
    still_held (q ∷ zs) (cons s ss) os =
        cons (held_in q (λ z. head_of q zs (os z)) s) (still_held zs ss (λ z. tail_of q zs (os z)))
