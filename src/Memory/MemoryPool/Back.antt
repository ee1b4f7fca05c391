-- ===== src/Memory/MemoryPool/Back.antt =====
-- src/memory/MemoryPool.cc: the pool after `freeMemory` and `resetPool` on its pages.
use a_tiny_network_library.Common.{
  suc, ◌+◌, ◌≡◌, ◌≤◌, refl, sym, subst, ap, inl, inr, List, [], ◌∷◌, arith, Option, none, some,
  length, if-holds, length-append, length-drop, take-append-drop,
}
use a_tiny_network_library.Common.Word.{add_size, add_size-eq_of_lt}
use a_tiny_network_library.Common.Places.{
  All, nil, cons, Pairwise, lone, apart_from, Removes, Replaces-old, Memᴰ, All-mem, others,
  Removes-mem,
}
use a_tiny_network_library.Memory.Arena.{
  Area, Piece, Apart, turn_Apart, Fits, Holds, Outside, IsValid, count, count-Removes-in,
}
use a_tiny_network_library.Memory.Arena.Release.{Drops-IsValid}
use a_tiny_network_library.Memory.Free.{
  Unquoted, free_small, place, after_free_small, reset_node, reset_nodes,
}
use a_tiny_network_library.Memory.Pool.{SmallNode, Pool, nodes, area, areas}
use a_tiny_network_library.Memory.MemoryPool.Small.{Sound}
use a_tiny_network_library.Memory.MemoryPool.Give.{
  unquote-Drops, Gives, free_small-Gives, free_small-none,
}

place-Sound :
    (p : Pool) (u : Unquoted) {ps : List Piece}
    → 1 ≤ length p.from_current
    → length u.left ≡ length (nodes p)
    → IsValid (areas u.left) ps
    → Sound (place p u) ps
unfolding place
place-Sound p u {ps} at_node same v =
    if-holds (λ q. Sound q ps) u.emptied
      (λ t. record {
        valid = v;
        at_node = omega (arith, same, length-append p.before p.from_current, at_node);
      })
      (λ t. record {
        valid = rw (take-append-drop (length p.before) u.left) v;
        at_node = omega (
          arith,
          same,
          length-append p.before p.from_current,
          at_node,
          length-drop (length p.before) u.left,
        );
      })

-- The page that the loop stops at is the one that holds the piece.
stops_there :
    (p : Pool) {piece : Piece} {u : Unquoted} {ps : List Piece}
    → (g : Gives p.address piece.address (nodes p) u) → IsValid (areas (nodes p)) ps
    → ((c : Area) × Memᴰ c (areas (nodes p)) × Holds piece c)
    → Holds piece (area g.node)
stops_there p {piece} g v (c, m, h) =
    elim (All-mem (others (λ b. turn_Apart c b) v.apart m) (Replaces-old g.replaces)) [
      | inl e ↦ subst (Holds piece) (sym e) h
      | inr (inl k) ↦
          absurd (omega (arith, k, g.from, h.below, h.nonempty, (All-mem v.fit m).inside))
      | inr (inr k) ↦ absurd (omega (arith, k, g.to, h.after))
    ]

given_back :
    (p : Pool) (piece : Piece) {ps qs : List Piece}
    → Removes piece ps qs
    → Sound p ps
    → (o : Option Unquoted) → free_small p.address piece.address (nodes p) ≡ o
    → Sound (after_free_small p o) qs
unfolding after_free_small
given_back p piece r s none e =
    let (c, m, h) = All-mem s.valid.held (Removes-mem r) in
    let o = All-mem (free_small-none p.address piece (nodes p) e) m in
    outside c h (All-mem s.valid.fit m) o
  where
    outside : {A : Type 0} (c : Area) → Holds piece c → Fits c → Outside c.start c.end_ piece → A
    outside c h f (inl k) = absurd (omega (arith, k, h.after))
    outside c h f (inr k) = absurd (omega (arith, k, h.below, f.inside))
given_back p piece {ps} {qs} r s (some u) e =
    place-Sound p u s.at_node g.same_length
      (Drops-IsValid (unquote-Drops p.address g.node fit used) held g.replaces r s.valid)
  where
    g : Gives p.address piece.address (nodes p) u
    g = free_small-Gives p.address piece.address (nodes p) u e

    held : Holds piece (area g.node)
    held = stops_there p {piece = piece} {u = u} g s.valid (All-mem s.valid.held (Removes-mem r))

    fit : Fits (area g.node)
    fit = All-mem s.valid.fit (Replaces-old g.replaces)

    used : 1 ≤ g.node.quote_
    used =
        let counted = All-mem s.valid.counted (Replaces-old g.replaces) in
        omega (arith, counted, count-Removes-in g.node.address g.node.end_ r g.from g.to)

pub free_small-Sound :
    (p : Pool) (piece : Piece) {ps qs : List Piece}
    → Removes piece ps qs
    → Sound p ps
    → Sound (after_free_small p (free_small p.address piece.address (nodes p))) qs
free_small-Sound p piece r s =
    given_back p piece r s (free_small p.address piece.address (nodes p)) refl

reset_node-Fits : (n : SmallNode) → Fits (area n) → Fits (area (reset_node n))
unfolding reset_node
reset_node-Fits n f = record {
  room = omega (arith, start);
  inside = omega (arith, start, f.room, f.inside);
  page = f.page;
  even = f.even;
  addressed = f.addressed;
}
  where
    start : add_size n.address 32 ≡ n.address + 32
    start = add_size-eq_of_lt n.address 32 (omega (arith, f.room, f.inside, f.addressed))

reset-All :
    {P : Area → Type 0}
    → ((n : SmallNode) → P (area n) → P (area (reset_node n)))
    → (ns : List SmallNode) → All P (areas ns)
    → All P (areas (reset_nodes ns))
unfolding reset_nodes
reset-All f [] nil = nil
reset-All f (n ∷ ns) (cons p ps) = cons (f n p) (reset-All f ns ps)

reset-Pairwise :
    (ns : List SmallNode) → Pairwise Apart (areas ns) → Pairwise Apart (areas (reset_nodes ns))
unfolding reset_nodes reset_node
reset-Pairwise [] lone = lone
reset-Pairwise (n ∷ ns) (apart_from rs ps) =
    apart_from (reset-All (λ m k. k) ns rs) (reset-Pairwise ns ps)

reset-counted :
    (ns : List SmallNode) → All (λ a. a.quote ≡ count a.start a.end_ []) (areas (reset_nodes ns))
unfolding reset_nodes reset_node count
reset-counted [] = nil
reset-counted (n ∷ ns) = cons refl (reset-counted ns)

length-reset_nodes : (ns : List SmallNode) → length (reset_nodes ns) ≡ length ns
unfolding reset_nodes
length-reset_nodes [] = refl
length-reset_nodes (n ∷ ns) = ap suc (length-reset_nodes ns)

pub reset-Sound :
    (p : Pool) {ps : List Piece}
    → Sound p ps
    → Sound (record p { large_list = []; before = []; from_current = reset_nodes (nodes p) }) []
reset-Sound p s = record {
  valid = record {
    fit = reset-All reset_node-Fits (nodes p) s.valid.fit;
    apart = reset-Pairwise (nodes p) s.valid.apart;
    held = nil;
    disjoint = lone;
    counted = reset-counted (nodes p);
  };
  at_node =
      omega (arith, length-reset_nodes (nodes p), length-append p.before p.from_current, s.at_node);
}
