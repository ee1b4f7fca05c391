-- ===== src/Memory/MemoryPool/Walk.antt =====
-- src/memory/MemoryPool.cc: the loop of `mallocSmallNode` puts the new page behind the others.
use a_tiny_network_library.Common.{
  ◌≡◌, ◌≤◌, refl, ap, ◌∙◌, List, [], ◌∷◌, ◌++◌, arith, append_assoc, leb, length, length-append,
  if-holds,
}
use mathlib.Core.List.{map-append}
use a_tiny_network_library.Memory.Malloc.{Walked, walk}
use a_tiny_network_library.Memory.Pool.{SmallNode, increment, area, areas}

-- `seen` are the nodes that the list had, and `current` stands at one of them.
pub record Appends (added : SmallNode) (seen : List SmallNode) (w : Walked) : Type 0 where
  pub behind : areas (w.passed ++ w.kept) ≡ areas seen ++ (area added ∷ [])
  pub at_node : 1 ≤ length w.kept

walk-last :
    (added : SmallNode) (passed kept : List SmallNode) (cur : SmallNode)
    → Appends added (passed ++ (kept ++ (cur ∷ []))) (walk added passed kept (cur ∷ []))
unfolding walk
walk-last added passed kept cur = record {
  behind = simp (map-append, append_assoc) refl;
  at_node = omega (arith, length-append kept (cur ∷ added ∷ []));
}

pub walk-Appends :
    (added : SmallNode) (passed kept : List SmallNode) (cur : SmallNode) (rest : List SmallNode)
    → Appends added (passed ++ (kept ++ (cur ∷ rest))) (walk added passed kept (cur ∷ rest))
unfolding walk
walk-Appends added passed kept cur [] = walk-last added passed kept cur
walk-Appends added passed kept cur (next ∷ rest) =
    if-holds (Appends added (passed ++ (kept ++ (cur ∷ next ∷ rest)))) (leb 5 cur.failed_)
      (λ t.
        same (walk-Appends added (passed ++ (kept ++ (tried ∷ []))) [] next rest)
          (simp (map-append, append_assoc) refl))
      (λ t.
        same (walk-Appends added passed (kept ++ (tried ∷ [])) next rest)
          (simp (map-append, append_assoc) refl))
  where
    tried : SmallNode
    tried = record cur { failed_ = increment cur.failed_ }

    same :
        {xs ys : List SmallNode} {w : Walked}
        → Appends added xs w
        → areas xs ≡ areas ys
        → Appends added ys w
    same a e = record {
      behind = a.behind ∙ ap (λ zs. zs ++ (area added ∷ [])) e;
      at_node = a.at_node;
    }
