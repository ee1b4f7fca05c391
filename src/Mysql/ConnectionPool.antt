-- ===== src/Mysql/ConnectionPool.antt =====
-- src/mysql/ConnectionPool.h and src/mysql/ConnectionPool.cc: the queue of idle connections and the
-- count of the open ones. A connection is known by the time at which it was last refreshed.
pub mod Count
use a_tiny_network_library.Common.{
  ℕ, zero, suc, ◌+◌, ◌-◌, ◌≡◌, ◌≤◌, ◌<◌, Bool, true, false, ◌&&◌, List, [], ◌∷◌, ◌++◌,
  if◌then◌else◌, ltb, leb, length,
}

-- `lent` counts the connections that the shared pointers of `getConnection` hold.
pub record ConnectionPool : Type 0 where
  pub min_size : ℕ
  pub max_size : ℕ
  pub max_idle_time : ℕ
  pub current_size : ℕ
  pub connection_queue : List ℕ
  pub lent : ℕ

unfoldable pub add_connection : (now : ℕ) → ConnectionPool → ConnectionPool
add_connection now p = record p {
  connection_queue = p.connection_queue ++ (now ∷ []);
  current_size = suc p.current_size;
}

-- The callers of `addConnection` count as well.
unfoldable pub add_counted : ℕ → ConnectionPool → ConnectionPool
add_counted now p =
    let added = add_connection now p in record added { current_size = suc added.current_size }

-- The loop of the constructor.
unfoldable pub fill : ℕ → ℕ → ConnectionPool → ConnectionPool
fill zero now p = p
fill (suc n) now p = fill n now (add_counted now p)

-- The constructor with what the configuration says.
unfoldable pub init : (min_size max_size max_idle_time now : ℕ) → ConnectionPool
init min_size max_size max_idle_time now = fill min_size now (record {
  min_size = min_size;
  max_size = max_size;
  max_idle_time = max_idle_time;
  current_size = 0;
  connection_queue = [];
  lent = 0;
})

-- One turn of `produceConnection` once the queue is empty.
unfoldable pub produce_connection : ℕ → ConnectionPool → ConnectionPool
produce_connection now p = if ltb p.current_size p.max_size then add_counted now p else p

-- The inner loop of `recycleConnection`: the queue that is left.
unfoldable pub recycle_loop : (min_size max_idle_time now : ℕ) → List ℕ → List ℕ
recycle_loop min_size max_idle_time now [] = []
recycle_loop min_size max_idle_time now (since ∷ rest) =
    let recycled = recycle_loop min_size max_idle_time now rest in
    if ltb min_size (length (since ∷ rest)) && leb max_idle_time (now - since)
    then recycled
    else since ∷ rest

unfoldable pub recycle_connection : ℕ → ConnectionPool → ConnectionPool
recycle_connection now p =
    let left = recycle_loop p.min_size p.max_idle_time now p.connection_queue in
    record p {
      connection_queue = left;
      current_size = p.current_size - (length p.connection_queue - length left);
    }

-- `getConnection` once a connection is there, and the deleter of its pointer.
unfoldable pub get_connection : List ℕ → ConnectionPool → ConnectionPool
get_connection rest p = record p { connection_queue = rest; lent = suc p.lent }

unfoldable pub give_back : ℕ → ℕ → ConnectionPool → ConnectionPool
give_back left now p = record p { connection_queue = p.connection_queue ++ (now ∷ []); lent = left }

-- One step of some thread under the lock, with the number of connections that it opens.
pub data Step (p : ConnectionPool) : ℕ → ConnectionPool → Type 0 where
  produces :
      (now : ℕ)
      → p.connection_queue ≡ []
      → p.current_size < p.max_size
      → Step p 1 (produce_connection now p)
  is_full :
      (now : ℕ)
      → p.connection_queue ≡ []
      → p.max_size ≤ p.current_size
      → Step p 0 (produce_connection now p)
  recycles : (now : ℕ) → Step p 0 (recycle_connection now p)
  gets :
      (since : ℕ) (rest : List ℕ)
      → p.connection_queue ≡ since ∷ rest
      → Step p 0 (get_connection rest p)
  gives_back : (left now : ℕ) → p.lent ≡ suc left → Step p 0 (give_back left now p)

pub data Steps (p : ConnectionPool) : ℕ → ConnectionPool → Type 0 where
  here : Steps p 0 p
  next : {m n : ℕ} {q r : ConnectionPool} → Steps p m q → Step q n r → Steps p (m + n) r

-- The destructor: the idle connections are deleted, and `currentSize_` counts down.
unfoldable pub destroy_loop : List ℕ → ConnectionPool → ConnectionPool
destroy_loop [] p = p
destroy_loop (since ∷ rest) p =
    destroy_loop rest (record p { connection_queue = rest; current_size = p.current_size - 1 })

unfoldable pub destroy : ConnectionPool → ConnectionPool
destroy p = destroy_loop p.connection_queue p
