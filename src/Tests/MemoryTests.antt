-- ===== src/Tests/MemoryTests.antt =====
-- Runs of src/memory/MemoryPool.cc on a page at 65536.
use a_tiny_network_library.Common.{ℕ, ◌≡◌, ◌++◌, refl, [], ◌∷◌, Option, none, some, arith}
use a_tiny_network_library.Common.Word.{add_size, sub_size}
use a_tiny_network_library.Common.Places.{All, Pairwise, first, further}
use a_tiny_network_library.Memory.Arena.{Piece, Disjoint}
use a_tiny_network_library.Memory.Free.{free_memory, destroy_blocks, free_large, after_free_large}
use a_tiny_network_library.Memory.Malloc.{
  create_pool, malloc, malloc_small, malloc_loop, after_loop, taken, malloc_large_node, after_reuse,
  reuse_loop, push_large, with_node,
}
use a_tiny_network_library.Memory.Pool.{Page, Pool, mp_align_ptr, increment}
use a_tiny_network_library.Memory.MemoryPool.Safety.{
  Run, creates, mallocs, frees, InPage, pieces-Disjoint,
}
use a_tiny_network_library.Memory.MemoryPool.Blocks
use a_tiny_network_library.Memory.MemoryPool.Large.{no_block_leaks}
use a_tiny_network_library.Memory.MemoryPool.Blocks.{Uses, acquired, occurs}

abbrev first_page : Page
first_page = record { start = 65536; quote_ = 0; failed_ = 0 }

abbrev pool_of : Option Pool → Pool
pool_of none = record { address = 0; large_list = []; before = []; from_current = [] }
pool_of (some p) = p

abbrev new_pool : Pool
unfolding create_pool
new_pool = pool_of (create_pool (some first_page))

abbrev piece : ℕ → ℕ → Piece
piece address size = record { address = address; size = size }

abbrev with_three : Pool
unfolding malloc create_pool
with_three =
    (malloc none none 50 (malloc none none 200 (malloc none none 100 new_pool).pool).pool).pool

-- Three pieces are cut from the first page, and the first of them is given back.
three_pieces : Run (free_memory 65600 with_three).pool (piece 65920 50 ∷ piece 65712 200 ∷ [])
unfolding create_pool malloc malloc_small malloc_loop after_loop taken mp_align_ptr add_size
    sub_size increment free_large
three_pieces =
    frees (piece 65600 100)
      (mallocs none none 50
        (mallocs none none 200
          (mallocs none none 100 (creates first_page refl (omega arith) refl refl) (λ g e. cc)
            (omega arith) refl)
          (λ g e. cc) (omega arith) refl)
        (λ g e. cc) (omega arith) refl)
      (further (further first)) refl

pieces-Disjoint_example :
    Pairwise Disjoint (piece 65920 50 ∷ piece 65712 200 ∷ [])
    × All (InPage (free_memory 65600 with_three).pool) (piece 65920 50 ∷ piece 65712 200 ∷ [])
pieces-Disjoint_example = pieces-Disjoint three_pieces

-- One large block is got and freed, and a second one is still held at the end.
abbrev with_block : Pool
unfolding malloc create_pool
with_block = (malloc (some 131072) none 5000 new_pool).pool

two_blocks :
    Uses new_pool
      (131072 ∷ 131072 ∷ [])
      (131072 ∷ [])
      (malloc (some 131072) none 6000 (free_memory 131072 with_block).pool).pool
unfolding create_pool malloc malloc_large_node after_reuse reuse_loop push_large with_node
    malloc_small malloc_loop after_loop taken mp_align_ptr add_size sub_size increment free_memory
    free_large after_free_large acquired
two_blocks =
    Blocks.mallocs (some 131072) none 6000
      (Blocks.frees 131072 (Blocks.mallocs (some 131072) none 5000 Blocks.starts))

no_block_leaks_example :
    occurs 131072 (
      (131072 ∷ [])
      ++ destroy_blocks (malloc (some 131072) none 6000 (free_memory 131072 with_block).pool).pool)
    ≡ occurs 131072 (131072 ∷ 131072 ∷ [])
unfolding create_pool
no_block_leaks_example =
    no_block_leaks 131072 first_page (λ e. absurd (omega (arith, e))) refl two_blocks
