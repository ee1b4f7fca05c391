-- ===== src/Memory/MemoryPool/Intact.antt =====
-- src/memory/MemoryPool.cc: a new pool is sound, and the loops over the large blocks keep their nodes.
use a_tiny_network_library.Common.{
  ℕ, suc, ◌+◌, ◌%◌, ◌^◌, ◌≡◌, ◌<◌, sym, subst, ap, ◌∙◌, List, [], ◌∷◌, ◌++◌, arith, Option, some,
  map, if-holds, ◌==◌, ltb, >>=-eq-some,
}
use a_tiny_network_library.Common.Word.{size_mod, add_size-eq_of_lt, add_size}
use a_tiny_network_library.Common.Places.{nil, cons, lone, apart_from}
use a_tiny_network_library.Memory.Arena.{Piece, count}
use a_tiny_network_library.Memory.Free.{free_large}
use a_tiny_network_library.Memory.Malloc.{create_pool, reuse_loop}
use a_tiny_network_library.Memory.Pool.{LargeNode, Pool, Page, null}
use a_tiny_network_library.Memory.MemoryPool.Small.{Sound}

-- A node of the list of large blocks lies in a piece of its own.
abbrev pub node_piece : LargeNode → Piece
node_piece n = record { address = n.address; size = 24 }

-- The pages hold the pieces of the callers and of the list of large blocks.
pub record Intact (p : Pool) (live : List Piece) : Type 0 where
  pub sound : Sound p (live ++ map node_piece p.large_list)

pub create_pool-Sound :
    (page : Page) {p : Pool}
    → page.start % 16 ≡ 0
    → page.start + 8192 < size_mod
    → page.quote_ ≡ 0
    → create_pool (some page) ≡ some p
    → Intact p []
unfolding create_pool count
create_pool-Sound page {p} even below zeroed e =
    subst (λ q. Intact q []) e'
      (record {
        sound = record {
          valid = record {
            fit =
                cons
                  (record {
                    room = omega (arith, head, last, zeroed);
                    inside = omega (arith, head, last, end_);
                    page = omega (arith, head, end_);
                    even = omega (arith, end_, even);
                    addressed = omega (arith, end_, below);
                  })
                  nil;
            apart = apart_from nil lone;
            held = nil;
            disjoint = lone;
            counted = cons zeroed nil;
          };
          at_node = omega arith;
        };
      })
  where
    head : add_size page.start 24 ≡ page.start + 24
    head = add_size-eq_of_lt page.start 24 (omega (arith, below))

    last : add_size (add_size page.start 24) 32 ≡ add_size page.start 24 + 32
    last = add_size-eq_of_lt (add_size page.start 24) 32 (omega (arith, head, below))

    end_ : add_size page.start 4096 ≡ page.start + 4096
    end_ = add_size-eq_of_lt page.start 4096 (omega (arith, below))

    e' :
        record {
          address = page.start;
          large_list = [];
          before = [];
          from_current =
              record {
                address = add_size page.start 24;
                end_ = add_size page.start 4096;
                last_ = add_size (add_size page.start 24) 32;
                quote_ = page.quote_;
                failed_ = 0;
              }
              ∷ [];
        }
        ≡ p
    e' = cc

pub reuse_loop-pieces :
    (address size seen : ℕ) (ls : List LargeNode) {larges : List LargeNode}
    → reuse_loop address size seen ls ≡ some larges
    → map node_piece larges ≡ map node_piece ls
unfolding reuse_loop
reuse_loop-pieces address size seen [] = λ e. cc
reuse_loop-pieces address size seen (n ∷ ns) {larges} =
    if-holds P (n.address_ == null) (λ t e. sym (ap (map node_piece) (inside e)))
      (λ t.
        if-holds P (ltb 3 seen) (λ k e. cc)
          (λ k e.
            let (later, m, h) = >>=-eq-some (reuse_loop address size (suc seen) ns) _ e in
            let h' : n ∷ later ≡ larges = cc in
            sym (ap (map node_piece) h')
            ∙ ap (λ xs. node_piece n ∷ xs) (reuse_loop-pieces address size (suc seen) ns m)))
  where
    P : Option (List LargeNode) → Type 0
    P o = o ≡ some larges → map node_piece larges ≡ map node_piece (n ∷ ns)

    inside :
        some (record n { size_ = size % 2 ^ 32; address_ = address } ∷ ns) ≡ some larges
        → record n { size_ = size % 2 ^ 32; address_ = address } ∷ ns ≡ larges
    inside e = cc

pub free_large-pieces :
    (a : ℕ) (ls : List LargeNode) {larges : List LargeNode}
    → free_large a ls ≡ some larges
    → map node_piece larges ≡ map node_piece ls
unfolding free_large
free_large-pieces a [] = λ e. cc
free_large-pieces a (n ∷ ns) {larges} =
    if-holds
      (λ (o : Option (List LargeNode)).
        o ≡ some larges → map node_piece larges ≡ map node_piece (n ∷ ns))
      (n.address_ == a) (λ t e. sym (ap (map node_piece) (inside e)))
      (λ t e.
        let (later, m, h) = >>=-eq-some (free_large a ns) _ e in
        let h' : n ∷ later ≡ larges = cc in
        sym (ap (map node_piece) h') ∙ ap (λ xs. node_piece n ∷ xs) (free_large-pieces a ns m))
  where
    inside :
        some (record n { size_ = 0; address_ = null } ∷ ns) ≡ some larges
        → record n { size_ = 0; address_ = null } ∷ ns ≡ larges
    inside e = cc
