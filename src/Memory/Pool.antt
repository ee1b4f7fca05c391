-- ===== src/Memory/Pool.antt =====
-- src/memory/MemoryPool.h: the nodes, the pool and what its calls answer. An address is a number
-- and 0 is the null pointer; a node's record holds its own address too.
use a_tiny_network_library.Common.{ℕ, ◌+◌, ◌-◌, ◌%◌, ◌^◌, List, ◌++◌, Option, map}
use a_tiny_network_library.Memory.Arena.{Area}
use a_tiny_network_library.Common.Word.{add_size}

abbrev pub page_size : ℕ
page_size = 4096

abbrev pub mp_alignment : ℕ
mp_alignment = 16

abbrev pub sizeof_small_node : ℕ
sizeof_small_node = 32

abbrev pub sizeof_large_node : ℕ
sizeof_large_node = 24

abbrev pub sizeof_pool : ℕ
sizeof_pool = 24

abbrev pub null : ℕ
null = 0

-- `mp_align_ptr(p, MP_ALIGNMENT)`.
unfoldable pub mp_align_ptr : ℕ → ℕ
mp_align_ptr p = let sum = add_size p (mp_alignment - 1) in sum - sum % mp_alignment

-- `++` and `--` on an `unsigned int`.
unfoldable pub increment : ℕ → ℕ
increment n = (n + 1) % 2 ^ 32

unfoldable pub decrement : ℕ → ℕ
decrement n = (n + (2 ^ 32 - 1)) % 2 ^ 32

-- `next_` is the place in the list that the node stands in.
pub record SmallNode : Type 0 where
  pub address : ℕ
  pub end_ : ℕ
  pub last_ : ℕ
  pub quote_ : ℕ
  pub failed_ : ℕ

pub record LargeNode : Type 0 where
  pub address : ℕ
  pub address_ : ℕ
  pub size_ : ℕ

-- The nodes from `head_` on: those before `current_`, and `current_` with those after it.
pub record Pool : Type 0 where
  pub address : ℕ
  pub large_list : List LargeNode
  pub before : List SmallNode
  pub from_current : List SmallNode

abbrev pub nodes : Pool → List SmallNode
nodes p = p.before ++ p.from_current

-- A page that `posix_memalign` gives: where it starts, and what it holds in the two members of a
-- node that the code counts on from without a write.
pub record Page : Type 0 where
  pub start : ℕ
  pub quote_ : ℕ
  pub failed_ : ℕ

-- What a call answers (`none` is the null pointer), the pool after it, and what it passed to `free`.
pub record Outcome : Type 0 where
  pub result : Option ℕ
  pub pool : Pool
  pub freed : List ℕ

-- What the pool promises of a node: its page, the place that is handed out next and the pieces out.
abbrev pub area : SmallNode → Area
area n = record { start = n.address; end_ = n.end_; last = n.last_; quote = n.quote_ }

abbrev pub areas : List SmallNode → List Area
areas ns = map area ns
