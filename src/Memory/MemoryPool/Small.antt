-- ===== src/Memory/MemoryPool/Small.antt =====
-- src/memory/MemoryPool.cc: `malloc` of what fits a page.
use a_tiny_network_library.Common.{
  ℕ, suc, ◌+◌, ◌%◌, ◌≡◌, ◌≤◌, ◌<◌, refl, sym, subst, ap, ◌∙◌, List, [], ◌∷◌, ◌++◌, arith, Option,
  none, some, length, append_assoc,
}
use mathlib.Core.List.{map-append}
use a_tiny_network_library.Common.Word.{size_mod, add_size, add_size-eq_of_lt}
use a_tiny_network_library.Common.Places.{All, nil, cons, Removes, Replaces-prefix, All-suffix}
use a_tiny_network_library.Memory.Arena.{Area, Piece, Apart, Fits, IsValid}
use a_tiny_network_library.Memory.Arena.Take.{Takes-IsValid}
use a_tiny_network_library.Memory.Arena.Grow.{Grows, Grows-IsValid}
use a_tiny_network_library.Memory.Malloc.{
  Found, walk, first_address, new_node, Walked, malloc_small_node, malloc_loop, after_loop,
  malloc_small,
}
use a_tiny_network_library.Memory.Pool.{
  SmallNode, Pool, nodes, Page, mp_align_ptr, increment, area, areas,
}
use a_tiny_network_library.Memory.MemoryPool.Cut.{
  Aligns, mp_align_ptr-Aligns, increment-eq_of_lt, Cuts, malloc_loop-Cuts,
}
use a_tiny_network_library.Memory.MemoryPool.Walk.{Appends, walk-Appends}

-- A page as `posix_memalign` gives it: aligned, not one that the pool has, and, since the code
-- counts on from what it finds there, zero in `quote_`.
pub record IsFresh (page : Page) (p : Pool) : Type 0 where
  pub aligned : page.start % 16 ≡ 0
  pub addressed : page.start + 8192 < size_mod
  pub zeroed : page.quote_ ≡ 0
  pub apart : All (Apart (area (new_node page 0))) (areas (nodes p))

-- The pages and the pieces, and `current_` stands at a page.
pub record Sound (p : Pool) (pieces : List Piece) : Type 0 where
  pub valid : IsValid (areas (nodes p)) pieces
  pub at_node : 1 ≤ length p.from_current

-- The first address of a page, and the new node's area around the piece.
new_node-Grows :
    (page : Page) (p : Pool) (size : ℕ)
    → IsFresh page p
    → 1 ≤ size
    → size ≤ 4064
    → Grows (record { address = first_address page; size = size }) (area (new_node page size))
unfolding new_node first_address
new_node-Grows page p size f pos small = record {
  fit = record {
    room = omega (arith, cut, start, end_, quote, a.above, pos);
    inside = omega (arith, cut, start, end_, f.aligned, a.near, a.aligned, small);
    page = omega (arith, end_);
    even = omega (arith, end_, f.aligned);
    addressed = omega (arith, end_, f.addressed);
  };
  holds = record {
    after = omega (arith, start, a.above);
    below = omega (arith, cut);
    nonempty = pos;
    aligned = a.aligned;
  };
  once = quote;
}
  where
    start : add_size page.start 32 ≡ page.start + 32
    start = add_size-eq_of_lt page.start 32 (omega (arith, f.addressed))

    end_ : add_size page.start 4096 ≡ page.start + 4096
    end_ = add_size-eq_of_lt page.start 4096 (omega (arith, f.addressed))

    a : Aligns (add_size page.start 32) (mp_align_ptr (add_size page.start 32))
    a = mp_align_ptr-Aligns (add_size page.start 32) (omega (arith, start, f.addressed))

    cut :
        add_size (mp_align_ptr (add_size page.start 32)) size
        ≡ mp_align_ptr (add_size page.start 32) + size
    cut =
        add_size-eq_of_lt (mp_align_ptr (add_size page.start 32)) size
          (omega (arith, start, a.near, small, f.addressed))

    quote : increment page.quote_ ≡ 1
    quote = increment-eq_of_lt page.quote_ (omega (arith, f.zeroed)) ∙ ap suc f.zeroed

malloc_small_node-Sound :
    (page : Page) (size : ℕ) (p : Pool) {ps qs : List Piece}
    → IsFresh page p
    → 1 ≤ size
    → size ≤ 4064
    → Removes (record { address = first_address page; size = size }) qs ps
    → Sound p ps
    → Sound (malloc_small_node (some page) size p).pool qs
unfolding malloc_small_node new_node
malloc_small_node-Sound page size p {ps} {qs} f pos small r s = record {
  valid =
      subst (λ xs. IsValid xs qs) (sym behind)
        (Grows-IsValid (new_node-Grows page p size f pos small) (same_place f.apart) r s.valid);
  at_node = (walked p.from_current s.at_node).at_node;
}
  where
    walked :
        (xs : List SmallNode)
        → 1 ≤ length xs
        → Appends (new_node page size) xs (walk (new_node page size) [] [] xs)
    walked [] h = absurd (omega (arith, h))
    walked (x ∷ xs) h = walk-Appends (new_node page size) [] [] x xs

    behind :
        areas (nodes (malloc_small_node (some page) size p).pool)
        ≡ areas (nodes p) ++ (area (new_node page size) ∷ [])
    behind =
        ap areas (append_assoc p.before w.passed w.kept)
        ∙ map-append area p.before (w.passed ++ w.kept)
        ∙ ap (λ zs. areas p.before ++ zs) (walked p.from_current s.at_node).behind
        ∙ sym
            (append_assoc (areas p.before) (areas p.from_current) (area (new_node page size) ∷ []))
        ∙ ap (λ zs. zs ++ (area (new_node page size) ∷ []))
            (sym (map-append area p.before p.from_current))
      where
        w : Walked
        w = walk (new_node page size) [] [] p.from_current

    same_place :
        {xs : List Area}
        → All (Apart (area (new_node page 0))) xs
        → All (Apart (area (new_node page size))) xs
    same_place nil = nil
    same_place (cons k ks) = cons k (same_place ks)

found-Sound :
    {p : Pool} {size : ℕ} {found : Found} {ps qs : List Piece}
    → Cuts size p.from_current found
    → Removes (record { address = found.address; size = size }) qs ps
    → Sound p ps
    → Sound (record p { from_current = found.left }) qs
found-Sound {p} {size} {found} {ps} {qs} c r s = record {
  valid =
      Takes-IsValid c.takes
        (rw (map-append area p.before found.left, map-append area p.before p.from_current)
          (Replaces-prefix (areas p.before) c.replaces))
        r s.valid;
  at_node = omega (arith, c.same_length, s.at_node);
}

fits : {p : Pool} {ps : List Piece} → Sound p ps → All Fits (areas p.from_current)
fits {p} s =
    All-suffix (areas p.before)
      (subst (All Fits) (map-append area p.before p.from_current) s.valid.fit)

-- A call that answers with an address cuts a piece there.
after_loop-Sound :
    (page : Option Page) (size : ℕ) (p : Pool) {a : ℕ} {ps qs : List Piece}
    → ((g : Page) → page ≡ some g → IsFresh g p)
    → 1 ≤ size
    → size ≤ 4064
    → Removes (record { address = a; size = size }) qs ps
    → Sound p ps
    → (found : Option Found) → malloc_loop size p.from_current ≡ found
    → (after_loop page size p found).result ≡ some a
    → Sound (after_loop page size p found).pool qs
unfolding after_loop malloc_small_node
after_loop-Sound none size p fresh pos small r s none e = λ k. cc
after_loop-Sound (some page) size p {a} {ps} {qs} fresh pos small r s none e =
    λ k. malloc_small_node-Sound page size p (fresh page refl) pos small (there k) s
  where
    there :
        some (first_address page) ≡ some a
        → Removes (record { address = first_address page; size = size }) qs ps
    there k = let e : first_address page ≡ a = cc in rw e r
after_loop-Sound page size p {a} {ps} {qs} fresh pos small r s (some found) e =
    λ k. found-Sound (malloc_loop-Cuts size p.from_current found (fits s) pos e) (there k) s
  where
    there :
        some found.address ≡ some a
        → Removes (record { address = found.address; size = size }) qs ps
    there k = let e : found.address ≡ a = cc in rw e r

pub malloc_small-Sound :
    (page : Option Page) (size : ℕ) (p : Pool) {a : ℕ} {ps qs : List Piece}
    → ((g : Page) → page ≡ some g → IsFresh g p)
    → 1 ≤ size
    → size ≤ 4064
    → (malloc_small page size p).result ≡ some a
    → Removes (record { address = a; size = size }) qs ps
    → Sound p ps
    → Sound (malloc_small page size p).pool qs
unfolding malloc_small
malloc_small-Sound page size p fresh pos small e r s =
    after_loop-Sound page size p fresh pos small r s (malloc_loop size p.from_current) refl e

after_loop-none :
    (page : Option Page) (size : ℕ) (p : Pool) (found : Option Found)
    → (after_loop page size p found).result ≡ none
    → (after_loop page size p found).pool ≡ p
unfolding after_loop malloc_small_node
after_loop-none none size p none e = refl
after_loop-none (some page) size p none e = cc
after_loop-none page size p (some found) e = cc

-- A call that answers with the null pointer leaves the pool as it is.
pub malloc_small-none :
    (page : Option Page) (size : ℕ) (p : Pool)
    → (malloc_small page size p).result ≡ none
    → (malloc_small page size p).pool ≡ p
unfolding malloc_small
malloc_small-none page size p = after_loop-none page size p (malloc_loop size p.from_current)

after_loop-larges :
    (page : Option Page) (size : ℕ) (p : Pool) (found : Option Found)
    → (after_loop page size p found).pool.large_list ≡ p.large_list
unfolding after_loop malloc_small_node
after_loop-larges none size p none = refl
after_loop-larges (some page) size p none = refl
after_loop-larges page size p (some found) = refl

pub malloc_small-larges :
    (page : Option Page) (size : ℕ) (p : Pool)
    → (malloc_small page size p).pool.large_list ≡ p.large_list
unfolding malloc_small
malloc_small-larges page size p = after_loop-larges page size p (malloc_loop size p.from_current)

after_loop-freed :
    (page : Option Page) (size : ℕ) (p : Pool) (found : Option Found)
    → (after_loop page size p found).freed ≡ []
unfolding after_loop malloc_small_node
after_loop-freed none size p none = refl
after_loop-freed (some page) size p none = refl
after_loop-freed page size p (some found) = refl

pub malloc_small-freed :
    (page : Option Page) (size : ℕ) (p : Pool) → (malloc_small page size p).freed ≡ []
unfolding malloc_small
malloc_small-freed page size p = after_loop-freed page size p (malloc_loop size p.from_current)
