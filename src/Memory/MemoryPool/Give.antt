-- ===== src/Memory/MemoryPool/Give.antt =====
-- src/memory/MemoryPool.cc: `freeMemory` on a piece of a page, and `resetPool`.
use a_tiny_network_library.Common.{
  ℕ, suc, ◌+◌, ◌^◌, ◌≡◌, ◌≤◌, ◌<◌, refl, sym, subst, ap, ◌∙◌, inl, inr, List, [], ◌∷◌, arith,
  Option, none, some, length, ◌>>=◌, ◌&&◌, leb, ◌==◌, ==→eq, if-holds, >>=-eq-some,
}
use a_tiny_network_library.Common.Word.{add_size, add_size-eq_of_lt}
use a_tiny_network_library.Common.Places.{All, nil, cons, Replaces, now, later}
use a_tiny_network_library.Memory.Arena.{Piece, Fits, Outside}
use a_tiny_network_library.Memory.Arena.Release.{Drops}
use a_tiny_network_library.Memory.Free.{reset_last, unquote, Unquoted, free_small}
use a_tiny_network_library.Memory.Pool.{SmallNode, sizeof_pool, decrement, area, areas}

-- A page starts over behind its node, the page of the pool included.
reset_last-eq : (pool : ℕ) (n : SmallNode) → Fits (area n) → reset_last pool n ≡ n.address + 32
unfolding reset_last
reset_last-eq pool n f =
    if-holds (λ (k : ℕ). k ≡ n.address + 32) (n.address == add_size pool sizeof_pool)
      (λ t.
        let e = ==→eq n.address (add_size pool sizeof_pool) t in
        ap (λ k. add_size k 32) (sym e) ∙ plain)
      (λ t. plain)
  where
    plain : add_size n.address 32 ≡ n.address + 32
    plain = add_size-eq_of_lt n.address 32 (omega (arith, f.room, f.inside, f.addressed))

decrement-eq_of_pos : (n : ℕ) → 1 ≤ n → n < 2 ^ 32 → suc (decrement n) ≡ n
unfolding decrement
decrement-eq_of_pos n h k = omega arith

pub unquote-Drops :
    (pool : ℕ) (n : SmallNode)
    → Fits (area n)
    → 1 ≤ n.quote_
    → Drops (area n) (area (unquote pool n))
unfolding unquote
unquote-Drops pool n f pos =
    if-holds (λ (m : SmallNode). Drops (area n) (area m)) (decrement n.quote_ == 0)
      (λ t. record {
        same_start = refl;
        same_end = refl;
        counts = less;
        last = inr (==→eq (decrement n.quote_) 0 t, reset_last-eq pool n f);
      })
      (λ t. record { same_start = refl; same_end = refl; counts = less; last = inl refl })
  where
    less : n.quote_ ≡ suc (decrement n.quote_)
    less = sym (decrement-eq_of_pos n.quote_ pos (omega (arith, f.room, f.inside, f.page)))

-- What the loop does to the page that it stops at.
pub record Gives (pool a : ℕ) (ns : List SmallNode) (u : Unquoted) : Type 0 where
  pub node : SmallNode
  pub replaces : Replaces (area node) (area (unquote pool node)) (areas ns) (areas u.left)
  pub from : node.address ≤ a
  pub to : a ≤ node.end_
  pub same_length : length u.left ≡ length ns

free_small-later :
    {pool a : ℕ} {n : SmallNode} {ns : List SmallNode} {u v : Unquoted}
    → Gives pool a ns v
    → some (record v { left = n ∷ v.left }) ≡ some u
    → Gives pool a (n ∷ ns) u
free_small-later {pool} {a} {n} {ns} {u} {v} g e =
    let e' : record v { left = n ∷ v.left } ≡ u = cc in
    subst (Gives pool a (n ∷ ns)) e' (record {
      node = g.node;
      replaces = later g.replaces;
      from = g.from;
      to = g.to;
      same_length = ap suc g.same_length;
    })

abbrev stops_at : (pool : ℕ) → SmallNode → List SmallNode → Unquoted
stops_at pool n ns = record { emptied = decrement n.quote_ == 0; left = unquote pool n ∷ ns }

pub free_small-Gives :
    (pool a : ℕ) (ns : List SmallNode) (u : Unquoted)
    → free_small pool a ns ≡ some u
    → Gives pool a ns u
unfolding free_small
free_small-Gives pool a [] u = λ e. cc
free_small-Gives pool a (n ∷ ns) u =
    if-holds (λ (o : Option Unquoted). o ≡ some u → Gives pool a (n ∷ ns) u)
      (leb n.address a && leb a n.end_)
      (λ t e.
        let e' : stops_at pool n ns ≡ u = cc in
        subst (Gives pool a (n ∷ ns)) e' (record {
          node = n;
          replaces = now;
          from = ground arith;
          to = ground arith;
          same_length = refl;
        }))
      (λ t e.
        let (v, m, h) = >>=-eq-some (free_small pool a ns) _ e in
        free_small-later (free_small-Gives pool a ns v m) h)

pub free_small-none :
    (pool : ℕ) (p : Piece) (ns : List SmallNode)
    → free_small pool p.address ns ≡ none
    → All (λ c. Outside c.start c.end_ p) (areas ns)
unfolding free_small
free_small-none pool p [] = λ e. nil
free_small-none pool p (n ∷ ns) =
    if-holds
      (λ (o : Option Unquoted). o ≡ none → All (λ c. Outside c.start c.end_ p) (areas (n ∷ ns)))
      (leb n.address p.address && leb p.address n.end_) (λ t e. cc)
      (λ t e.
        cons (ground arith) (free_small-none pool p ns (bound (free_small pool p.address ns) e)))
  where
    bound :
        (o : Option Unquoted)
        → (o >>= (λ v. some (record v { left = n ∷ v.left }))) ≡ none
        → o ≡ none
    bound none e = refl
    bound (some v) e = cc
