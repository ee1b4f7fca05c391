-- ===== src/Memory/MemoryPool/Large.antt =====
-- src/memory/MemoryPool.cc: where the large blocks go.
use a_tiny_network_library.Common.{
  ℕ, ◌+◌, ◌≡◌, ◌≢◌, refl, subst, ap, List, [], ◌++◌, arith, Option, none, some,
}
use a_tiny_network_library.Memory.Free.{free_memory, reset_pool, held_blocks, destroy_blocks}
use a_tiny_network_library.Memory.Malloc.{malloc, create_pool}
use a_tiny_network_library.Memory.Pool.{LargeNode, Pool, Page}
use a_tiny_network_library.Memory.MemoryPool.Blocks.{
  occurs, acquired, Uses, starts, mallocs, frees, resets, occurs-append, malloc-occurs,
  free_memory-occurs,
}

reset_pool-occurs :
    (x : ℕ) (q : Pool) (gone : List ℕ) {n : ℕ}
    → occurs x (held_blocks q.large_list) + occurs x gone ≡ n
    → occurs x (held_blocks q.large_list ++ gone)
      ≡ occurs x (held_blocks q.large_list) + occurs x gone
    → occurs x (held_blocks (reset_pool q).pool.large_list)
        + occurs x ((reset_pool q).freed ++ gone)
      ≡ n
unfolding reset_pool held_blocks occurs
reset_pool-occurs x q gone h e = omega (arith, h, e)

Uses-occurs :
    (x : ℕ) {p : Pool} {got gone : List ℕ} {q : Pool}
    → x ≢ 0
    → Uses p got gone q
    → occurs x (held_blocks q.large_list) + occurs x gone
      ≡ occurs x (held_blocks p.large_list) + occurs x got
Uses-occurs x nonnull starts = refl
Uses-occurs x nonnull (mallocs {got} {gone} {q} block page size u) = omega (
  arith,
  Uses-occurs x nonnull u,
  malloc-occurs x nonnull block page size q,
  occurs-append x (acquired block size) got,
  occurs-append x (malloc block page size q).freed gone,
)
Uses-occurs x nonnull (frees {got} {gone} {q} a u) = omega (
  arith,
  Uses-occurs x nonnull u,
  free_memory-occurs x nonnull a q,
  occurs-append x (free_memory a q).freed gone,
)
Uses-occurs x nonnull (resets {got} {gone} {q} u) =
    reset_pool-occurs x q gone (Uses-occurs x nonnull u)
      (occurs-append x (held_blocks q.large_list) gone)

abbrev larges_of : Option Pool → List LargeNode
larges_of none = []
larges_of (some p) = p.large_list

created :
    (x : ℕ) (page : Page) {p : Pool}
    → create_pool (some page) ≡ some p
    → occurs x (held_blocks p.large_list) ≡ 0
unfolding create_pool held_blocks occurs
created x page {p} e = subst (λ ls. occurs x (held_blocks ls) ≡ 0) (larges p e) refl
  where
    larges :
        (q : Pool) → create_pool (some page) ≡ some q → ◌≡◌ {A = List LargeNode} [] q.large_list
    larges q h = ap larges_of h

-- No large block leaks and none is freed twice: from a new pool on, after any calls of `malloc`,
-- `freeMemory` and `resetPool` and then `destroyPool`, every address but null has been passed to
-- `free` as a large block as often as `posix_memalign` gave it for one.
pub no_block_leaks :
    (x : ℕ) (page : Page) {p : Pool} {got gone : List ℕ} {q : Pool}
    → x ≢ 0
    → create_pool (some page) ≡ some p
    → Uses p got gone q
    → occurs x (gone ++ destroy_blocks q) ≡ occurs x got
unfolding destroy_blocks
no_block_leaks x page {p} {got} {gone} {q} nonnull e u =
    omega (
      arith,
      occurs-append x gone (held_blocks q.large_list),
      Uses-occurs x nonnull u,
      starts_empty,
    )
  where
    starts_empty : occurs x (held_blocks p.large_list) ≡ 0
    starts_empty = created x page e
