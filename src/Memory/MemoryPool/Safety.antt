-- ===== src/Memory/MemoryPool/Safety.antt =====
-- src/memory/MemoryPool.cc: what the callers of the pool can rely on.
use a_tiny_network_library.Common.{
  ℕ, ◌+◌, ◌%◌, ◌≡◌, ◌≤◌, ◌<◌, refl, sym, subst, List, [], ◌∷◌, arith, Option, none, some, map,
}
use a_tiny_network_library.Common.Word.{size_mod}
use a_tiny_network_library.Common.Places.{
  All, Pairwise, Removes, Memᴰ, All-mem, All-map, All-prefix, Pairwise-prefix,
}
use a_tiny_network_library.Memory.Arena.{Area, Piece, Disjoint, Holds, Fits}
use a_tiny_network_library.Memory.Free.{free_large, free_memory, reset_pool}
use a_tiny_network_library.Memory.Malloc.{create_pool, malloc}
use a_tiny_network_library.Memory.Pool.{LargeNode, SmallNode, Pool, Page, nodes, area, areas}
use a_tiny_network_library.Memory.MemoryPool.Small.{IsFresh}
use a_tiny_network_library.Memory.MemoryPool.Calls.{
  malloc_fits-Sound, malloc_large-Sound, malloc-refused, free_memory-Sound, free_large-Sound,
  reset_pool-Sound,
}
use a_tiny_network_library.Memory.MemoryPool.Intact.{node_piece, Intact, create_pool-Sound}

-- The pool after some calls, and the pieces that its callers hold: `malloc` gives one, `freeMemory`
-- takes one back, and `resetPool` takes them all. What does not fit a page is not counted, and a
-- page that `posix_memalign` gives is fresh.
pub data Run : Pool → List Piece → Type 0 where
  creates :
      {p : Pool} (page : Page)
      → page.start % 16 ≡ 0
      → page.start + 8192 < size_mod
      → page.quote_ ≡ 0
      → create_pool (some page) ≡ some p
      → Run p []
  mallocs :
      {p : Pool} {live : List Piece} {a : ℕ} (block : Option ℕ) (page : Option Page) (size : ℕ)
      → Run p live
      → ((g : Page) → page ≡ some g → IsFresh g p)
      → size ≤ 4064
      → (malloc block page size p).result ≡ some a
      → Run (malloc block page size p).pool (record { address = a; size = size } ∷ live)
  is_refused :
      {p : Pool} {live : List Piece} (block : Option ℕ) (page : Option Page) (size : ℕ)
      → Run p live
      → (malloc block page size p).result ≡ none
      → Run (malloc block page size p).pool live
  mallocs_large :
      {p : Pool} {live : List Piece} {a : ℕ} (block : Option ℕ) (page : Option Page) (size : ℕ)
      → Run p live
      → ((g : Page) → page ≡ some g → IsFresh g p)
      → 4064 < size
      → (malloc block page size p).result ≡ some a
      → Run (malloc block page size p).pool live
  frees :
      {p : Pool} {live left : List Piece} (piece : Piece)
      → Run p live
      → Removes piece live left
      → free_large piece.address p.large_list ≡ none
      → Run (free_memory piece.address p).pool left
  frees_large :
      {p : Pool} {live : List Piece} (a : ℕ) (larges : List LargeNode)
      → Run p live
      → free_large a p.large_list ≡ some larges
      → Run (free_memory a p).pool live
  resets : {p : Pool} {live : List Piece} → Run p live → Run (reset_pool p).pool []

Run-Intact : {p : Pool} {live : List Piece} → Run p live → Intact p live
Run-Intact (creates page even below zeroed e) = create_pool-Sound page even below zeroed e
Run-Intact (mallocs block page size r fresh small e) =
    malloc_fits-Sound block page size _ fresh small e (Run-Intact r)
Run-Intact (is_refused {live} block page size r e) =
    subst (λ q. Intact q live) (sym (malloc-refused block page size _ e)) (Run-Intact r)
Run-Intact (mallocs_large block page size r fresh big e) =
    malloc_large-Sound block page size _ fresh big (Run-Intact r)
Run-Intact (frees piece r i e) = free_memory-Sound piece _ i e (Run-Intact r)
Run-Intact (frees_large a larges r e) = free_large-Sound a _ larges e (Run-Intact r)
Run-Intact (resets r) = reset_pool-Sound _ (Run-Intact r)

-- A piece lies in a page of the pool: behind the page's node, before its end, and aligned.
pub record InPage (p : Pool) (piece : Piece) : Type 0 where
  pub node : SmallNode
  pub of_pool : Memᴰ node (nodes p)
  pub after : node.address + 32 ≤ piece.address
  pub below : piece.address + piece.size ≤ node.end_
  pub aligned : piece.address % 16 ≡ 0

of_node :
    (ns : List SmallNode) {a : Area}
    → Memᴰ a (areas ns)
    → (n : SmallNode) × Memᴰ n ns × (area n ≡ a)
of_node [] m = elim m [ ]
of_node (n ∷ ns) (Memᴰ.head e) = (n, Memᴰ.head refl, sym e)
of_node (n ∷ ns) (Memᴰ.tail m) = let (k, j, e) = of_node ns m in (k, Memᴰ.tail j, e)

Holds-InPage :
    (p : Pool) (piece : Piece)
    → All Fits (areas (nodes p))
    → ((a : Area) × Memᴰ a (areas (nodes p)) × Holds piece a)
    → InPage p piece
Holds-InPage p piece fs (a, m, h) =
    let (n, j, e) = of_node (nodes p) m in
    let k = subst (Holds piece) (sym e) h in
    let f = subst Fits (sym e) (All-mem fs m) in
    record {
      node = n;
      of_pool = j;
      after = k.after;
      below = omega (arith, k.below, f.inside);
      aligned = k.aligned;
    }

-- In every run of `malloc`, `freeMemory` and `resetPool` on a new pool, in which `posix_memalign`
-- gives aligned pages that the pool does not have and that hold 0 in `quote_`, and a caller frees
-- only what it holds, the pieces of up to 4064 bytes that the callers hold do not overlap, and each
-- lies in a page of the pool, behind the page's node and before its end, at an address that is a
-- multiple of 16.
pub pieces-Disjoint :
    {p : Pool} {live : List Piece} → Run p live → Pairwise Disjoint live × All (InPage p) live
pieces-Disjoint {p} {live} r =
    let s = (Run-Intact r).sound in
    (
      Pairwise-prefix live (map node_piece p.large_list) s.valid.disjoint,
      All-prefix live (map node_piece p.large_list)
          (All-map (λ piece. Holds-InPage p piece s.valid.fit) s.valid.held),
    )
