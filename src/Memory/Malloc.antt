-- ===== src/Memory/Malloc.antt =====
-- src/memory/MemoryPool.cc: createPool, malloc and calloc. What `posix_memalign` answers is an
-- argument.
use a_tiny_network_library.Common.{
  ℕ, suc, ◌-◌, ◌%◌, ◌^◌, List, [], ◌∷◌, ◌++◌, Option, none, some, ◌>>=◌, if◌then◌else◌, ltb, leb,
  ◌==◌,
}
use a_tiny_network_library.Memory.Arena.{Piece}
use a_tiny_network_library.Common.Word.{add_size, sub_size}
use a_tiny_network_library.Memory.Pool.{
  page_size, sizeof_small_node, sizeof_large_node, sizeof_pool, null, mp_align_ptr, increment,
  SmallNode, LargeNode, Pool, Page, Outcome,
}

-- The page is one whose word at `head_->next_`, which is not written either, is null.
unfoldable pub create_pool : Option Page → Option Pool
create_pool none = none
create_pool (some page) =
    let head = add_size page.start sizeof_pool in
    some (record {
      address = page.start;
      large_list = [];
      before = [];
      from_current =
          record {
            address = head;
            end_ = add_size page.start page_size;
            last_ = add_size head sizeof_small_node;
            quote_ = page.quote_;
            failed_ = 0;
          }
          ∷ [];
    })

pub record Walked : Type 0 where
  pub passed : List SmallNode
  pub kept : List SmallNode

-- The loop of `mallocSmallNode` from `cur` on: `passed` stands before `current`, `kept` from
-- `current` to `cur`.
unfoldable pub walk : (added : SmallNode) → (passed kept rest : List SmallNode) → Walked
walk added passed kept [] = record { passed = passed; kept = kept }
walk added passed kept (cur ∷ []) = record { passed = passed; kept = kept ++ (cur ∷ added ∷ []) }
walk added passed kept (cur ∷ next ∷ rest) =
    let tried = record cur { failed_ = increment cur.failed_ } in
    let skips = walk added (passed ++ (kept ++ (tried ∷ []))) [] (next ∷ rest) in
    let stays = walk added passed (kept ++ (tried ∷ [])) (next ∷ rest) in
    if leb 5 cur.failed_ then skips else stays

-- The first address of a page that is not the node's.
unfoldable pub first_address : Page → ℕ
first_address page = mp_align_ptr (add_size page.start sizeof_small_node)

unfoldable pub new_node : Page → ℕ → SmallNode
new_node page size = record {
  address = page.start;
  end_ = add_size page.start page_size;
  last_ = add_size (first_address page) size;
  quote_ = increment page.quote_;
  failed_ = page.failed_;
}

unfoldable pub malloc_small_node : Option Page → ℕ → Pool → Outcome
malloc_small_node none size p = record { result = none; pool = p; freed = [] }
malloc_small_node (some page) size p =
    let walked = walk (new_node page size) [] [] p.from_current in
    record {
      result = some (first_address page);
      pool = record p { before = p.before ++ walked.passed; from_current = walked.kept };
      freed = [];
    }

pub record Found : Type 0 where
  pub address : ℕ
  pub left : List SmallNode

unfoldable pub taken : SmallNode → ℕ → SmallNode
taken cur size = record cur {
  quote_ = increment cur.quote_;
  last_ = add_size (mp_align_ptr cur.last_) size;
}

-- The loop of `malloc` over the pages.
unfoldable pub malloc_loop : ℕ → List SmallNode → Option Found
malloc_loop size [] = none
malloc_loop size (cur ∷ rest) =
    let next = malloc_loop size rest in
    if leb size (sub_size cur.end_ (mp_align_ptr cur.last_))
    then some (record { address = mp_align_ptr cur.last_; left = taken cur size ∷ rest })
    else (next >>= (λ found. some (record found { left = cur ∷ found.left })))

-- The rest of `malloc` after its loop.
unfoldable pub after_loop : Option Page → ℕ → Pool → Option Found → Outcome
after_loop page size p none = malloc_small_node page size p
after_loop page size p (some found) = record {
  result = some found.address;
  pool = record p { from_current = found.left };
  freed = [];
}

-- `malloc` for what fits a page.
unfoldable pub malloc_small : Option Page → ℕ → Pool → Outcome
malloc_small page size p = after_loop page size p (malloc_loop size p.from_current)

-- The loop of `mallocLargeNode`: a node that was emptied is filled again, if one of the first five is.
unfoldable pub reuse_loop : (address size count : ℕ) → List LargeNode → Option (List LargeNode)
reuse_loop address size count [] = none
reuse_loop address size count (node ∷ rest) =
    let next = reuse_loop address size (suc count) rest in
    if node.address_ == null
    then some (record node { size_ = size % 2 ^ 32; address_ = address } ∷ rest)
    else (if ltb 3 count then none else (next >>= (λ later. some (node ∷ later))))

unfoldable pub with_node : (node address size : ℕ) → Pool → Pool
with_node node address size p =
    let added : LargeNode = record { address = node; address_ = address; size_ = size % 2 ^ 32 } in
    record p { large_list = added ∷ p.large_list }

-- The node that `malloc` gave goes to the head of the list; without one the block goes back.
unfoldable pub push_large : (address size : ℕ) → Pool → Option ℕ → Outcome
push_large address size p none = record { result = none; pool = p; freed = address ∷ [] }
push_large address size p (some node) = record {
  result = some address;
  pool = with_node node address size p;
  freed = [];
}

-- The rest of `mallocLargeNode` after its loop. The recursive call asks for 24 bytes, which fit a page.
unfoldable pub after_reuse :
    (address size : ℕ) → Option Page → Pool → Option (List LargeNode) → Outcome
after_reuse address size page p none =
    let asked = malloc_small page sizeof_large_node p in
    push_large address size asked.pool asked.result
after_reuse address size page p (some larges) = record {
  result = some address;
  pool = record p { large_list = larges };
  freed = [];
}

unfoldable pub malloc_large_node : Option ℕ → Option Page → ℕ → Pool → Outcome
malloc_large_node none page size p = record { result = none; pool = p; freed = [] }
malloc_large_node (some address) page size p =
    after_reuse address size page p (reuse_loop address size 0 p.large_list)

-- `block` and `page` are what `posix_memalign` answers where the call asks it for a large block and
-- for a page.
unfoldable pub malloc : (block : Option ℕ) (page : Option Page) → ℕ → Pool → Outcome
malloc block page size p =
    if leb size 0
    then record { result = none; pool = p; freed = [] }
    else (if ltb (page_size - sizeof_small_node) size
        then malloc_large_node block page size p
        else malloc_small page size p)

-- `calloc`, with the bytes that it sets to 0.
pub record Cleared : Type 0 where
  pub outcome : Outcome
  pub zeroed : Option Piece

unfoldable pub zeroed_at : ℕ → Option ℕ → Option Piece
zeroed_at size none = none
zeroed_at size (some a) = some (record { address = a; size = size })

unfoldable pub calloc : (block : Option ℕ) (page : Option Page) → ℕ → Pool → Cleared
calloc block page size p =
    let out = malloc block page size p in
    record { outcome = out; zeroed = zeroed_at size out.result }
