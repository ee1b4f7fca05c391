-- ===== src/Memory/MemoryPool/Cut.antt =====
-- src/memory/MemoryPool.cc: the loop of `malloc` cuts a piece from the first page that has room.
use a_tiny_network_library.Common.{
  ℕ, suc, ◌+◌, ◌%◌, ◌≡◌, ◌≤◌, ◌<◌, refl, subst, ap, true, List, [], ◌∷◌, arith, Option, some, leb,
  leb→le, length, if-holds, >>=-eq-some,
}
use a_tiny_network_library.Common.Word.{size_mod, sub_size, add_size-eq_of_lt, sub_size-eq_of_le}
use a_tiny_network_library.Common.Places.{All, cons, Replaces, now, later}
use a_tiny_network_library.Memory.Arena.{Fits}
use a_tiny_network_library.Memory.Arena.Take.{Takes}
use a_tiny_network_library.Memory.Malloc.{Found, taken, malloc_loop}
use a_tiny_network_library.Memory.Pool.{SmallNode, mp_align_ptr, increment, area, areas}

-- The next multiple of 16.
pub record Aligns (p q : ℕ) : Type 0 where
  pub aligned : q % 16 ≡ 0
  pub above : p ≤ q
  pub near : q < p + 16

pub mp_align_ptr-Aligns : (p : ℕ) → p + 15 < size_mod → Aligns p (mp_align_ptr p)
unfolding mp_align_ptr
mp_align_ptr-Aligns p h =
    rw (add_size-eq_of_lt p 15 h)
      (record { aligned = omega arith; above = omega arith; near = omega arith })

pub increment-eq_of_lt : (n : ℕ) → n < 4096 → increment n ≡ suc n
unfolding increment
increment-eq_of_lt n h = omega arith

-- The address that the loop tries in a page is not past its end.
pub in_page :
    (n : SmallNode)
    → Fits (area n)
    → Aligns n.last_ (mp_align_ptr n.last_) × (mp_align_ptr n.last_ ≤ n.end_)
in_page n f =
    let a = mp_align_ptr-Aligns n.last_ (omega (arith, f.inside, f.addressed)) in
    (a, omega (arith, f.inside, f.even, a.aligned, a.near))

pub taken-Takes :
    (n : SmallNode) (size : ℕ)
    → Fits (area n)
    → 1 ≤ size
    → leb size (sub_size n.end_ (mp_align_ptr n.last_)) ≡ true
    → Takes (area n) (record { address = mp_align_ptr n.last_; size = size }) (area (taken n size))
unfolding taken
taken-Takes n size f pos enough = record {
  same_start = refl;
  same_end = refl;
  counts = increment-eq_of_lt n.quote_ (omega (arith, f.room, f.inside, f.page));
  cut = add_size-eq_of_lt (mp_align_ptr n.last_) size (omega (arith, room, f.addressed));
  above = a.above;
  fits = room;
  nonempty = pos;
  aligned = a.aligned;
}
  where
    a : Aligns n.last_ (mp_align_ptr n.last_)
    a = let (b, c) = in_page n f in b

    room : mp_align_ptr n.last_ + size ≤ n.end_
    room =
        let (b, c) = in_page n f in
        let e = sub_size-eq_of_le n.end_ (mp_align_ptr n.last_) c (omega (arith, f.addressed)) in
        omega (arith, e, c, leb→le size (sub_size n.end_ (mp_align_ptr n.last_)) enough)

pub record Cuts (size : ℕ) (ns : List SmallNode) (found : Found) : Type 0 where
  pub node : SmallNode
  pub replaces : Replaces (area node) (area (taken node size)) (areas ns) (areas found.left)
  pub takes :
      Takes (area node) (record { address = found.address; size = size }) (area (taken node size))
  pub same_length : length found.left ≡ length ns

-- What the loop finds in the first page that it looks at.
abbrev cut : SmallNode → ℕ → List SmallNode → Found
cut n size ns = record { address = mp_align_ptr n.last_; left = taken n size ∷ ns }

malloc_loop-later :
    (size : ℕ) (n : SmallNode) (ns : List SmallNode) (found f : Found)
    → Cuts size ns f
    → some (record f { left = n ∷ f.left }) ≡ some found
    → Cuts size (n ∷ ns) found
malloc_loop-later size n ns found f c e =
    let found_is : record f { left = n ∷ f.left } ≡ found = cc in
    subst (Cuts size (n ∷ ns)) found_is (record {
      node = c.node;
      replaces = later c.replaces;
      takes = c.takes;
      same_length = ap suc c.same_length;
    })

pub malloc_loop-Cuts :
    (size : ℕ) (ns : List SmallNode) (found : Found)
    → All Fits (areas ns)
    → 1 ≤ size
    → malloc_loop size ns ≡ some found
    → Cuts size ns found
unfolding malloc_loop
malloc_loop-Cuts size [] found fs pos = λ e. cc
malloc_loop-Cuts size (n ∷ ns) found (cons f fs) pos =
    if-holds (λ (o : Option Found). o ≡ some found → Cuts size (n ∷ ns) found)
      (leb size (sub_size n.end_ (mp_align_ptr n.last_)))
      (λ t e.
        let found_is : cut n size ns ≡ found = cc in
        subst (Cuts size (n ∷ ns)) found_is (record {
          node = n;
          replaces = now;
          takes = taken-Takes n size f pos t;
          same_length = refl;
        }))
      (λ t e.
        let (g, m, h) = >>=-eq-some (malloc_loop size ns) _ e in
        malloc_loop-later size n ns found g (malloc_loop-Cuts size ns g fs pos m) h)
