-- ===== src/Memory/MemoryPool/Calls.antt =====
-- src/memory/MemoryPool.cc: every call keeps the pages and the pieces sound.
use a_tiny_network_library.Common.{
  ℕ, ◌≡◌, ◌≤◌, ◌<◌, refl, sym, subst, List, [], ◌∷◌, ◌++◌, arith, Option, none, some, map, if-holds,
  leb, ltb, lt→ltb, lt→leb, leb→lt, le→ltb,
}
use a_tiny_network_library.Common.Places.{Removes, first, Removes-prefix, Removes-middle}
use a_tiny_network_library.Memory.Arena.{Piece}
use a_tiny_network_library.Memory.Free.{
  free_large, after_free_large, free_memory, Unquoted, free_small, place, after_free_small,
  reset_pool,
}
use a_tiny_network_library.Memory.Malloc.{
  reuse_loop, with_node, push_large, after_reuse, malloc_large_node, malloc_small, malloc,
}
use a_tiny_network_library.Memory.Pool.{LargeNode, Pool, Page, Outcome, nodes}
use a_tiny_network_library.Memory.MemoryPool.Small.{
  IsFresh, Sound, malloc_small-Sound, malloc_small-none, malloc_small-larges,
}
use a_tiny_network_library.Memory.MemoryPool.Back.{free_small-Sound, reset-Sound}
use a_tiny_network_library.Memory.MemoryPool.Intact.{
  node_piece, Intact, reuse_loop-pieces, free_large-pieces,
}

-- The pool with another list of large blocks in the same nodes.
pub relisted :
    (p : Pool) (larges : List LargeNode) {live : List Piece}
    → map node_piece larges ≡ map node_piece p.large_list
    → Intact p live
    → Intact (record p { large_list = larges }) live
relisted p larges {live} e s =
    let t = subst (λ ps. Sound p (live ++ ps)) (sym e) s.sound in
    record { sound = record { valid = t.valid; at_node = t.at_node } }

pushed :
    (address size : ℕ) (page : Option Page) (p : Pool) {live : List Piece}
    → ((g : Page) → page ≡ some g → IsFresh g p)
    → Intact p live
    → (o : Option ℕ) → (malloc_small page 24 p).result ≡ o
    → Intact (push_large address size (malloc_small page 24 p).pool o).pool live
unfolding push_large with_node
pushed address size page p {live} fresh s none e =
    subst (λ q. Intact q live) (sym (malloc_small-none page 24 p e)) s
pushed address size page p {live} fresh s (some a) e = record {
  sound = record { valid = t.valid; at_node = t.at_node };
}
  where
    t : Sound (malloc_small page 24 p).pool (
        live
        ++ (record { address = a; size = 24 }
            ∷ map node_piece (malloc_small page 24 p).pool.large_list))
    t =
        malloc_small-Sound page 24 p fresh (omega arith) (omega arith) e
          (Removes-middle live (map node_piece (malloc_small page 24 p).pool.large_list))
          (subst (λ ls. Sound p (live ++ map node_piece ls)) (sym (malloc_small-larges page 24 p))
            s.sound)

reused :
    (address size : ℕ) (page : Option Page) (p : Pool) {live : List Piece}
    → ((g : Page) → page ≡ some g → IsFresh g p)
    → Intact p live
    → (o : Option (List LargeNode)) → reuse_loop address size 0 p.large_list ≡ o
    → Intact (after_reuse address size page p o).pool live
unfolding after_reuse
reused address size page p fresh s none e =
    pushed address size page p fresh s (malloc_small page 24 p).result refl
reused address size page p fresh s (some larges) e =
    relisted p larges (reuse_loop-pieces address size 0 p.large_list e) s

large-Sound :
    (block : Option ℕ) (page : Option Page) (size : ℕ) (p : Pool) {live : List Piece}
    → ((g : Page) → page ≡ some g → IsFresh g p)
    → Intact p live
    → Intact (malloc_large_node block page size p).pool live
unfolding malloc_large_node
large-Sound none page size p fresh s = s
large-Sound (some address) page size p fresh s =
    reused address size page p fresh s (reuse_loop address size 0 p.large_list) refl

pub malloc_large-Sound :
    (block : Option ℕ) (page : Option Page) (size : ℕ) (p : Pool) {live : List Piece}
    → ((g : Page) → page ≡ some g → IsFresh g p)
    → 4064 < size
    → Intact p live
    → Intact (malloc block page size p).pool live
unfolding malloc
malloc_large-Sound block page size p fresh big s =
    rw (lt→leb size 0 (omega (arith, big)), lt→ltb 4064 size big)
      (large-Sound block page size p fresh s)

pub malloc_fits-Sound :
    (block : Option ℕ) (page : Option Page) (size : ℕ) (p : Pool) {a : ℕ} {live : List Piece}
    → ((g : Page) → page ≡ some g → IsFresh g p)
    → size ≤ 4064
    → (malloc block page size p).result ≡ some a
    → Intact p live
    → Intact (malloc block page size p).pool (record { address = a; size = size } ∷ live)
unfolding malloc
malloc_fits-Sound block page size p {a} {live} fresh small =
    if-holds
      (λ (o : Outcome).
        o.result ≡ some a
        → Intact p live
        → Intact o.pool (record { address = a; size = size } ∷ live))
      (leb size 0) (λ t e s. cc)
      (λ t. rw (le→ltb 4064 size small) (λ e s. record {
        sound =
            subst
              (λ ls.
                Sound (malloc_small page size p).pool
                  (record { address = a; size = size } ∷ (live ++ map node_piece ls)))
              (sym (malloc_small-larges page size p))
              (malloc_small-Sound page size p fresh (leb→lt size 0 t) small e first s.sound);
      }))

pub after_free_small-larges :
    (p : Pool) (o : Option Unquoted) → (after_free_small p o).large_list ≡ p.large_list
unfolding after_free_small place
after_free_small-larges p none = refl
after_free_small-larges p (some u) =
    if-holds (λ (q : Pool). q.large_list ≡ p.large_list) u.emptied (λ t. refl) (λ t. refl)

pub free_memory-Sound :
    (piece : Piece) (p : Pool) {live left : List Piece}
    → Removes piece live left
    → free_large piece.address p.large_list ≡ none
    → Intact p live
    → Intact (free_memory piece.address p).pool left
unfolding free_memory after_free_large
free_memory-Sound piece p {live} {left} r e s = rw e (record {
  sound =
      subst (λ ls. Sound (after_free_small p u) (left ++ map node_piece ls))
        (sym (after_free_small-larges p u))
        (free_small-Sound p piece (Removes-prefix (map node_piece p.large_list) r) s.sound);
})
  where
    u : Option Unquoted
    u = free_small p.address piece.address (nodes p)

pub free_large-Sound :
    (a : ℕ) (p : Pool) (larges : List LargeNode) {live : List Piece}
    → free_large a p.large_list ≡ some larges
    → Intact p live
    → Intact (free_memory a p).pool live
unfolding free_memory after_free_large
free_large-Sound a p larges e s = rw e (relisted p larges (free_large-pieces a p.large_list e) s)

pub reset_pool-Sound :
    (p : Pool) {live : List Piece} → Intact p live → Intact (reset_pool p).pool []
unfolding reset_pool
reset_pool-Sound p s = record { sound = reset-Sound p s.sound }

pushed-refused :
    (address size : ℕ) (page : Option Page) (p : Pool) (o : Option ℕ)
    → (malloc_small page 24 p).result ≡ o
    → (push_large address size (malloc_small page 24 p).pool o).result ≡ none
    → (push_large address size (malloc_small page 24 p).pool o).pool ≡ p
unfolding push_large
pushed-refused address size page p none e k = malloc_small-none page 24 p e
pushed-refused address size page p (some node) e k = cc

reused-refused :
    (address size : ℕ) (page : Option Page) (p : Pool) (o : Option (List LargeNode))
    → (after_reuse address size page p o).result ≡ none
    → (after_reuse address size page p o).pool ≡ p
unfolding after_reuse
reused-refused address size page p none =
    pushed-refused address size page p (malloc_small page 24 p).result refl
reused-refused address size page p (some larges) = λ e. cc

large-refused :
    (block : Option ℕ) (page : Option Page) (size : ℕ) (p : Pool)
    → (malloc_large_node block page size p).result ≡ none
    → (malloc_large_node block page size p).pool ≡ p
unfolding malloc_large_node
large-refused none page size p = λ e. refl
large-refused (some address) page size p =
    reused-refused address size page p (reuse_loop address size 0 p.large_list)

-- A call that answers with the null pointer leaves the pool as it is.
pub malloc-refused :
    (block : Option ℕ) (page : Option Page) (size : ℕ) (p : Pool)
    → (malloc block page size p).result ≡ none
    → (malloc block page size p).pool ≡ p
unfolding malloc
malloc-refused block page size p =
    if-holds P (leb size 0) (λ t e. refl)
      (λ t.
        if-holds P (ltb 4064 size) (λ k. large-refused block page size p)
          (λ k. malloc_small-none page size p))
  where
    P : Outcome → Type 0
    P o = o.result ≡ none → o.pool ≡ p
