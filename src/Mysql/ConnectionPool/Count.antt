-- ===== src/Mysql/ConnectionPool/Count.antt =====
-- src/mysql/ConnectionPool.cc: what `currentSize_` counts.
use a_tiny_network_library.Common.{
  ℕ, zero, suc, ◌+◌, ◌-◌, ◌*◌, ◌≡◌, ◌≤◌, refl, ap, ◌&&◌, List, [], ◌∷◌, ltb, leb, length, arith,
  if-holds, ◌⊎◌, inl, inr, length-append, lt→ltb, le→ltb,
}
use a_tiny_network_library.Mysql.ConnectionPool.{
  ConnectionPool, add_connection, add_counted, fill, init, produce_connection, recycle_loop,
  recycle_connection, get_connection, give_back, Step, produces, is_full, recycles, gets,
  gives_back, Steps, here, next,
}

-- The connections that are open.
abbrev pub open_count : ConnectionPool → ℕ
open_count p = length p.connection_queue + p.lent

-- `opened` connections were opened in all: each of them counts once more than it should.
record Counts (max_size min_size opened : ℕ) (p : ConnectionPool) : Type 0 where
  counted : p.current_size ≡ open_count p + opened
  same_max : p.max_size ≡ max_size
  bounded : (opened ≤ min_size) ⊎ (opened ≤ max_size)

record Filled (n : ℕ) (p q : ConnectionPool) : Type 0 where
  size : q.current_size ≡ p.current_size + 2 * n
  queue : length q.connection_queue ≡ length p.connection_queue + n
  same_lent : q.lent ≡ p.lent
  same_max : q.max_size ≡ p.max_size

one_more : (n now : ℕ) (p q : ConnectionPool) → Filled n (add_counted now p) q → Filled (suc n) p q
unfolding add_counted add_connection
one_more n now p q f = record {
  size = omega (arith, f.size);
  queue = omega (arith, f.queue, length-append p.connection_queue (now ∷ []));
  same_lent = f.same_lent;
  same_max = f.same_max;
}

fill-Filled : (n now : ℕ) (p : ConnectionPool) → Filled n p (fill n now p)
unfolding fill
fill-Filled zero now p = record {
  size = omega arith;
  queue = omega arith;
  same_lent = refl;
  same_max = refl;
}
fill-Filled (suc n) now p =
    one_more n now p (fill n now (add_counted now p)) (fill-Filled n now (add_counted now p))

init-Counts :
    (min_size max_size max_idle_time now : ℕ)
    → Counts max_size min_size min_size (init min_size max_size max_idle_time now)
unfolding init
init-Counts min_size max_size max_idle_time now =
    let f = fill-Filled min_size now (record {
      min_size = min_size;
      max_size = max_size;
      max_idle_time = max_idle_time;
      current_size = 0;
      connection_queue = [];
      lent = 0;
    }) in
    record {
      counted = omega (arith, f.size, f.queue, f.same_lent);
      same_max = f.same_max;
      bounded = inl (omega arith);
    }

still_bounded :
    {max_size min_size : ℕ} (opened : ℕ)
    → (opened ≤ min_size) ⊎ (opened ≤ max_size)
    → (opened + 0 ≤ min_size) ⊎ (opened + 0 ≤ max_size)
still_bounded opened (inl h) = inl (omega (arith, h))
still_bounded opened (inr h) = inr (omega (arith, h))

recycle_loop-le :
    (min_size idle now : ℕ) (q : List ℕ) → length (recycle_loop min_size idle now q) ≤ length q
unfolding recycle_loop
recycle_loop-le min_size idle now [] = omega arith
recycle_loop-le min_size idle now (since ∷ rest) =
    if-holds (λ (xs : List ℕ). length xs ≤ suc (length rest))
      (ltb min_size (length (since ∷ rest)) && leb idle (now - since))
      (λ old. omega (arith, recycle_loop-le min_size idle now rest)) (λ young. omega arith)

Step-Counts :
    {max_size min_size opened n : ℕ} {p q : ConnectionPool}
    → Step p n q
    → Counts max_size min_size opened p
    → Counts max_size min_size (opened + n) q
unfolding produce_connection add_counted add_connection recycle_connection get_connection give_back
Step-Counts {opened} {p} (produces now e h) c = rw (lt→ltb p.current_size p.max_size h) (record {
  counted = omega (arith, c.counted, length-append p.connection_queue (now ∷ []));
  same_max = c.same_max;
  bounded = inr (omega (arith, c.counted, c.same_max, h));
})
Step-Counts {opened} {p} (is_full now e h) c = rw (le→ltb p.current_size p.max_size h) (record {
  counted = omega (arith, c.counted);
  same_max = c.same_max;
  bounded = still_bounded opened c.bounded;
})
Step-Counts {opened} {p} (recycles now) c = record {
  counted =
      omega (arith, c.counted, recycle_loop-le p.min_size p.max_idle_time now p.connection_queue);
  same_max = c.same_max;
  bounded = still_bounded opened c.bounded;
}
Step-Counts {opened} {p} (gets since rest e) c = record {
  counted = omega (arith, c.counted, ap length e);
  same_max = c.same_max;
  bounded = still_bounded opened c.bounded;
}
Step-Counts {opened} {p} (gives_back left now e) c = record {
  counted = omega (arith, c.counted, e, length-append p.connection_queue (now ∷ []));
  same_max = c.same_max;
  bounded = still_bounded opened c.bounded;
}

Steps-Counts :
    {max_size min_size opened : ℕ} {p : ConnectionPool} {n : ℕ} {q : ConnectionPool}
    → Steps p n q
    → Counts max_size min_size opened p
    → Counts max_size min_size (opened + n) q
Steps-Counts {opened} here c = record {
  counted = omega (arith, c.counted);
  same_max = c.same_max;
  bounded = still_bounded opened c.bounded;
}
Steps-Counts {opened} (next {m} {n} r s) c =
    let d = Step-Counts s (Steps-Counts r c) in
    record {
      counted = omega (arith, d.counted);
      same_max = d.same_max;
      bounded = elim d.bounded [ inl h ↦ inl (omega (arith, h)) | inr h ↦ inr (omega (arith, h)) ];
    }

-- Whatever the threads do with a pool since it was made: `currentSize_` is not the number of open
-- connections, but more by one for each connection that was ever opened. So, beyond those that the
-- constructor opens, the pool opens no more than `maxSize_` connections in its whole life, those that
-- were recycled meanwhile included.
pub current_size-counts_twice :
    (min_size max_size max_idle_time now : ℕ) {n : ℕ} {p : ConnectionPool}
    → Steps (init min_size max_size max_idle_time now) n p
    → (p.current_size ≡ open_count p + (min_size + n))
      × ((min_size + n ≤ min_size) ⊎ (min_size + n ≤ max_size))
current_size-counts_twice min_size max_size max_idle_time now r =
    let c = Steps-Counts r (init-Counts min_size max_size max_idle_time now) in
    (c.counted, c.bounded)
