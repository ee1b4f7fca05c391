-- ===== src/Memory/MemoryPool/Blocks.antt =====
-- src/memory/MemoryPool.cc: what one call does to the large blocks that the pool holds.
use a_tiny_network_library.Common.{
  ℕ, suc, ◌+◌, ◌%◌, ◌^◌, ◌≡◌, ◌≢◌, inl, inr, Bool-cases, ltb→lt, lt→leb, refl, sym, subst, ap, ◌∙◌,
  List, [], ◌∷◌, ◌++◌, arith, Option, none, some, if◌then◌else◌, if-holds, ◌==◌, ==→eq, leb, ltb,
  >>=-eq-some,
}
use a_tiny_network_library.Memory.Free.{
  free_large, after_free_large, free_memory, reset_pool, held_blocks, free_small,
}
use a_tiny_network_library.Memory.Malloc.{
  reuse_loop, with_node, push_large, after_reuse, malloc_large_node, malloc_small, malloc,
}
use a_tiny_network_library.Memory.Pool.{LargeNode, Pool, Page, Outcome, null, nodes}
use a_tiny_network_library.Memory.MemoryPool.Small.{malloc_small-larges, malloc_small-freed}
use a_tiny_network_library.Memory.MemoryPool.Calls.{after_free_small-larges}

-- How often an address stands in a list.
unfoldable pub occurs : ℕ → List ℕ → ℕ
occurs x [] = 0
occurs x (y ∷ ys) = let n = occurs x ys in if x == y then suc n else n

-- What `posix_memalign` gives to a call for a large block.
unfoldable pub acquired : Option ℕ → ℕ → List ℕ
acquired none size = []
acquired (some b) size = if ltb 4064 size then b ∷ [] else []

-- Calls of the pool in a row, with the large blocks that it got and the addresses that it freed.
pub data Uses (p : Pool) : List ℕ → List ℕ → Pool → Type 0 where
  starts : Uses p [] [] p
  mallocs :
      {got gone : List ℕ} {q : Pool} (block : Option ℕ) (page : Option Page) (size : ℕ)
      → Uses p got gone q
      → Uses p
          (acquired block size ++ got)
          ((malloc block page size q).freed ++ gone)
          (malloc block page size q).pool
  frees :
      {got gone : List ℕ} {q : Pool} (a : ℕ)
      → Uses p got gone q
      → Uses p got ((free_memory a q).freed ++ gone) (free_memory a q).pool
  resets :
      {got gone : List ℕ} {q : Pool}
      → Uses p got gone q
      → Uses p got ((reset_pool q).freed ++ gone) (reset_pool q).pool

pub occurs-append : (x : ℕ) (ys zs : List ℕ) → occurs x (ys ++ zs) ≡ occurs x ys + occurs x zs
unfolding occurs
occurs-append x [] zs = omega arith
occurs-append x (y ∷ ys) zs = ground (arith, occurs-append x ys zs)

-- Of a node its block stands in the list, or the null pointer does not.
held-cons :
    (x : ℕ) (n : LargeNode) (ns : List LargeNode)
    → x ≢ 0
    → occurs x (held_blocks (n ∷ ns)) ≡ occurs x (n.address_ ∷ []) + occurs x (held_blocks ns)
unfolding occurs held_blocks
held-cons x n ns nonnull = ground (arith, nonnull)

occurs_nil : (x : ℕ) → occurs x [] ≡ 0
unfolding occurs
occurs_nil x = refl

occurs-null : (x : ℕ) → x ≢ 0 → occurs x (null ∷ []) ≡ 0
unfolding occurs
occurs-null x nonnull = ground (arith, nonnull)

module _ (x : ℕ) (nonnull : x ≢ 0) where
  reuse_loop-occurs :
      (a size seen : ℕ) (ls : List LargeNode) {larges : List LargeNode}
      → reuse_loop a size seen ls ≡ some larges
      → occurs x (held_blocks larges) ≡ occurs x (a ∷ []) + occurs x (held_blocks ls)
  unfolding reuse_loop
  reuse_loop-occurs a size seen [] = λ e. cc
  reuse_loop-occurs a size seen (n ∷ ns) {larges} =
      if-holds P (n.address_ == null)
        (λ t e.
          let h : record n { size_ = size % 2 ^ 32; address_ = a } ∷ ns ≡ larges = cc in
          let k : occurs x (null ∷ []) ≡ occurs x (n.address_ ∷ []) =
            ap (λ b. occurs x (b ∷ [])) (sym (==→eq n.address_ null t)) in
          subst
            (λ ls. occurs x (held_blocks ls) ≡ occurs x (a ∷ []) + occurs x (held_blocks (n ∷ ns)))
            h
            (omega (
              arith,
              held-cons x (record n { size_ = size % 2 ^ 32; address_ = a }) ns nonnull,
              held-cons x n ns nonnull,
              occurs-null x nonnull,
              k,
            )))
        (λ t.
          if-holds P (ltb 3 seen) (λ k e. cc)
            (λ k e.
              let (later, m, h) = >>=-eq-some (reuse_loop a size (suc seen) ns) _ e in
              let h' : n ∷ later ≡ larges = cc in
              subst
                (λ ls.
                  occurs x (held_blocks ls) ≡ occurs x (a ∷ []) + occurs x (held_blocks (n ∷ ns)))
                h'
                (omega (
                  arith,
                  held-cons x n later nonnull,
                  held-cons x n ns nonnull,
                  reuse_loop-occurs a size (suc seen) ns m,
                ))))
    where
      P : Option (List LargeNode) → Type 0
      P o =
          o ≡ some larges
          → occurs x (held_blocks larges) ≡ occurs x (a ∷ []) + occurs x (held_blocks (n ∷ ns))

  free_large-occurs :
      (a : ℕ) (ls : List LargeNode) {larges : List LargeNode}
      → free_large a ls ≡ some larges
      → occurs x (held_blocks larges) + occurs x (a ∷ []) ≡ occurs x (held_blocks ls)
  unfolding free_large
  free_large-occurs a [] = λ e. cc
  free_large-occurs a (n ∷ ns) {larges} =
      if-holds P (n.address_ == a)
        (λ t e.
          let h : record n { size_ = 0; address_ = null } ∷ ns ≡ larges = cc in
          let k : occurs x (a ∷ []) ≡ occurs x (n.address_ ∷ []) =
            ap (λ b. occurs x (b ∷ [])) (sym (==→eq n.address_ a t)) in
          subst
            (λ ls. occurs x (held_blocks ls) + occurs x (a ∷ []) ≡ occurs x (held_blocks (n ∷ ns)))
            h
            (omega (
              arith,
              held-cons x (record n { size_ = 0; address_ = null }) ns nonnull,
              held-cons x n ns nonnull,
              occurs-null x nonnull,
              k,
            )))
        (λ t e.
          let (later, m, h) = >>=-eq-some (free_large a ns) _ e in
          let h' : n ∷ later ≡ larges = cc in
          subst
            (λ ls. occurs x (held_blocks ls) + occurs x (a ∷ []) ≡ occurs x (held_blocks (n ∷ ns)))
            h'
            (omega (
              arith,
              held-cons x n later nonnull,
              held-cons x n ns nonnull,
              free_large-occurs a ns m,
            )))
    where
      P : Option (List LargeNode) → Type 0
      P o =
          o ≡ some larges
          → occurs x (held_blocks larges) + occurs x (a ∷ []) ≡ occurs x (held_blocks (n ∷ ns))

  pushed-occurs :
      (a size : ℕ) (p : Pool) (o : Option ℕ)
      → let out = push_large a size p o in
        occurs x (held_blocks out.pool.large_list) + occurs x out.freed
        ≡ occurs x (a ∷ []) + occurs x (held_blocks p.large_list)
  unfolding push_large with_node occurs
  pushed-occurs a size p none = omega arith
  pushed-occurs a size p (some node) = omega (
    arith,
    held-cons x (record { address = node; address_ = a; size_ = size % 2 ^ 32 }) p.large_list
        nonnull,
  )

  reused-occurs :
      (a size : ℕ) (page : Option Page) (p : Pool) (o : Option (List LargeNode))
      → reuse_loop a size 0 p.large_list ≡ o
      → let out = after_reuse a size page p o in
        occurs x (held_blocks out.pool.large_list) + occurs x out.freed
        ≡ occurs x (a ∷ []) + occurs x (held_blocks p.large_list)
  unfolding after_reuse
  reused-occurs a size page p none e =
      pushed-occurs a size (malloc_small page 24 p).pool (malloc_small page 24 p).result
      ∙ ap (λ ls. occurs x (a ∷ []) + occurs x (held_blocks ls)) (malloc_small-larges page 24 p)
  reused-occurs a size page p (some larges) e =
      let none_freed : occurs x [] ≡ 0 = occurs_nil x in
      omega (arith, none_freed, reuse_loop-occurs a size 0 p.large_list e)

  large-occurs :
      (b : ℕ) (page : Option Page) (size : ℕ) (p : Pool)
      → let out = malloc_large_node (some b) page size p in
        occurs x (held_blocks out.pool.large_list) + occurs x out.freed
        ≡ occurs x (b ∷ []) + occurs x (held_blocks p.large_list)
  unfolding malloc_large_node
  large-occurs b page size p = reused-occurs b size page p (reuse_loop b size 0 p.large_list) refl

  small-occurs :
      (page : Option Page) (size : ℕ) (p : Pool)
      → let out = malloc_small page size p in
        occurs x (held_blocks out.pool.large_list) + occurs x out.freed
        ≡ occurs x [] + occurs x (held_blocks p.large_list)
  small-occurs page size p =
      rw (malloc_small-larges page size p, malloc_small-freed page size p) (omega arith)

  pub malloc-occurs :
      (block : Option ℕ) (page : Option Page) (size : ℕ) (p : Pool)
      → let out = malloc block page size p in
        occurs x (held_blocks out.pool.large_list) + occurs x out.freed
        ≡ occurs x (acquired block size) + occurs x (held_blocks p.large_list)
  unfolding malloc acquired malloc_large_node occurs
  malloc-occurs none page size p =
      if-holds P (leb size 0) (λ t. omega arith)
        (λ t. if-holds P (ltb 4064 size) (λ k. omega arith) (λ k. small-occurs page size p))
    where
      P : Outcome → Type 0
      P o =
          occurs x (held_blocks o.pool.large_list) + occurs x o.freed
          ≡ occurs x [] + occurs x (held_blocks p.large_list)
  malloc-occurs (some b) page size p = elim (Bool-cases (ltb 4064 size)) [
    | inl t ↦ rw (lt→leb size 0 (omega (arith, ltb→lt 4064 size t)), t) (large-occurs b page size p)
    | inr k ↦ rw k (if-holds P (leb size 0) (λ t. omega arith) (λ t. small-occurs page size p))
  ]
    where
      P : Outcome → Type 0
      P o =
          occurs x (held_blocks o.pool.large_list) + occurs x o.freed
          ≡ occurs x [] + occurs x (held_blocks p.large_list)

  after_free_large-occurs :
      (a : ℕ) (p : Pool) (o : Option (List LargeNode))
      → free_large a p.large_list ≡ o
      → let out = after_free_large a p o in
        occurs x (held_blocks out.pool.large_list) + occurs x out.freed
        ≡ occurs x (held_blocks p.large_list)
  unfolding after_free_large
  after_free_large-occurs a p none e =
      rw (after_free_small-larges p (free_small p.address a (nodes p)))
        (omega (arith, occurs_nil x))
  after_free_large-occurs a p (some larges) e = free_large-occurs a p.large_list e

  pub free_memory-occurs :
      (a : ℕ) (p : Pool)
      → let out = free_memory a p in
        occurs x (held_blocks out.pool.large_list) + occurs x out.freed
        ≡ occurs x (held_blocks p.large_list)
  unfolding free_memory
  free_memory-occurs a p = after_free_large-occurs a p (free_large a p.large_list) refl
