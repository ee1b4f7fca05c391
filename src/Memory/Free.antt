-- ===== src/Memory/Free.antt =====
-- src/memory/MemoryPool.cc: freeMemory, resetPool and destroyPool.
use a_tiny_network_library.Common.{
  ℕ, Bool, ◌&&◌, List, [], ◌∷◌, ◌++◌, Option, none, some, ◌>>=◌, if◌then◌else◌, leb, ◌==◌, length,
  take, drop,
}
use a_tiny_network_library.Common.Word.{add_size}
use a_tiny_network_library.Memory.Pool.{
  sizeof_small_node, sizeof_pool, null, decrement, SmallNode, LargeNode, Pool, nodes, Outcome,
}

-- The loop of `freeMemory` over the large blocks.
unfoldable pub free_large : ℕ → List LargeNode → Option (List LargeNode)
free_large p [] = none
free_large p (large ∷ rest) =
    let next = free_large p rest in
    if large.address_ == p
    then some (record large { size_ = 0; address_ = null } ∷ rest)
    else (next >>= (λ later. some (large ∷ later)))

-- `last_` of a page that nobody uses any more.
unfoldable pub reset_last : (pool : ℕ) → SmallNode → ℕ
reset_last pool small =
    if small.address == add_size pool sizeof_pool
    then add_size (add_size pool sizeof_pool) sizeof_small_node
    else add_size small.address sizeof_small_node

unfoldable pub unquote : (pool : ℕ) → SmallNode → SmallNode
unquote pool small =
    let quote = decrement small.quote_ in
    if quote == 0
    then record small { quote_ = quote; last_ = reset_last pool small; failed_ = 0 }
    else record small { quote_ = quote }

pub record Unquoted : Type 0 where
  pub emptied : Bool
  pub left : List SmallNode

-- The loop of `freeMemory` over the pages.
unfoldable pub free_small : (pool p : ℕ) → List SmallNode → Option Unquoted
free_small pool p [] = none
free_small pool p (small ∷ rest) =
    let next = free_small pool p rest in
    if leb small.address p && leb p small.end_
    then some (record { emptied = decrement small.quote_ == 0; left = unquote pool small ∷ rest })
    else (next >>= (λ found. some (record found { left = small ∷ found.left })))

-- `current_` goes back to `head_` when a page is emptied and stays where it is otherwise.
unfoldable pub place : Pool → Unquoted → Pool
place p u = if u.emptied then record p { before = []; from_current = u.left } else record p {
  before = take (length p.before) u.left;
  from_current = drop (length p.before) u.left;
}

unfoldable pub after_free_small : Pool → Option Unquoted → Pool
after_free_small p none = p
after_free_small p (some u) = place p u

-- `freeMemory` where no large block starts at the address.
unfoldable pub after_free_large : ℕ → Pool → Option (List LargeNode) → Outcome
after_free_large a p none = record {
  result = none;
  pool = after_free_small p (free_small p.address a (nodes p));
  freed = [];
}
after_free_large a p (some larges) = record {
  result = none;
  pool = record p { large_list = larges };
  freed = a ∷ [];
}

unfoldable pub free_memory : ℕ → Pool → Outcome
free_memory a p = after_free_large a p (free_large a p.large_list)

-- The blocks that the list of large nodes holds.
unfoldable pub held_blocks : List LargeNode → List ℕ
held_blocks [] = []
held_blocks (large ∷ rest) =
    let others = held_blocks rest in
    if large.address_ == null then others else large.address_ ∷ others

unfoldable pub reset_node : SmallNode → SmallNode
reset_node small = record small {
  last_ = add_size small.address sizeof_small_node;
  failed_ = 0;
  quote_ = 0;
}

unfoldable pub reset_nodes : List SmallNode → List SmallNode
reset_nodes [] = []
reset_nodes (small ∷ rest) = reset_node small ∷ reset_nodes rest

unfoldable pub reset_pool : Pool → Outcome
reset_pool p = record {
  result = none;
  pool = record p { large_list = []; before = []; from_current = reset_nodes (nodes p) };
  freed = held_blocks p.large_list;
}

-- What `destroyPool` passes to `free`: the large blocks, the pages behind the first, and the page
-- that holds the pool.
unfoldable pub destroy_blocks : Pool → List ℕ
destroy_blocks p = held_blocks p.large_list

unfoldable pub addresses : List SmallNode → List ℕ
addresses [] = []
addresses (n ∷ ns) = n.address ∷ addresses ns

unfoldable pub destroy_pages : Pool → List ℕ
destroy_pages p = addresses (drop 1 (nodes p)) ++ (p.address ∷ [])
