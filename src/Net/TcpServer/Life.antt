-- ===== src/Net/TcpServer/Life.antt =====
-- src/net/TcpServer.cc: every connection is destroyed, and only once.
use a_tiny_network_library.Common.{
  length, ℕ, suc, ◌+◌, ◌-◌, ◌^◌, ◌≡◌, ◌≤◌, ◌<◌, refl, ap, subst, Bool, List, [], ◌∷◌, ◌++◌, some,
  if-holds, arith, inl, inr, ◌⊎◌, Bool-cases,
}
use a_tiny_network_library.Common.Text.{eq_text, eq_text→eq}
use a_tiny_network_library.Common.Places.{Memᴰ}
use a_tiny_network_library.Net.InetAddress.{InetAddress, to_ip_port, length-to_ip_port}
use a_tiny_network_library.Net.TcpServer.{
  get_next_loop, Conn, ConnectionMap, erase, put, Task, establishes, destroys, TcpServer, conn_name,
  new_connection, remove_connection_in_loop,
}
use a_tiny_network_library.Net.TcpServer.Names.{
  IsValid, AreNamed, AreNamed-suc, AreNamed-same, next_of-valid, erase_new,
}
use a_tiny_network_library.Net.TcpServer.Start.{init, new_loops, start_pool, start, destroy_all}
use a_tiny_network_library.Net.TcpServer.Tasks.{
  Runs, begins, accepts, removes, established, destroyed, times, times-erase, times-erase_other,
  times-mem, times-AreNamed, AreNamed-erase,
}

record Balanced (s : TcpServer) (ts : List Task) : Type 0 where
  valid : IsValid s
  named : AreNamed s s.next_conn_id (established ts)
  balanced :
      (x : List ℕ) → times x (established ts) ≡ times x (destroyed ts) + times x s.connections
  once : (x : List ℕ) → times x (established ts) ≤ 1

-- What `newConnection` makes of a well-formed server.
abbrev with_conn : TcpServer → (loop next : ℕ) → (sockfd : ℕ) → TcpServer
with_conn s loop next sockfd =
    let pool = s.thread_pool in
    record s {
      thread_pool = record pool { next = next };
      next_conn_id = suc s.next_conn_id;
      connections =
          record { name = conn_name s s.next_conn_id; loop = loop; sockfd = sockfd }
          ∷ s.connections;
    }

abbrev new_conn : TcpServer → (loop sockfd : ℕ) → Conn
new_conn s loop sockfd = record { name = conn_name s s.next_conn_id; loop = loop; sockfd = sockfd }

accepted :
    (sockfd : ℕ) (s : TcpServer)
    → IsValid s
    → s.next_conn_id < 2 ^ 31 - 1
    → (loop next : ℕ) × (new_connection sockfd s
        ≡ some (establishes (new_conn s loop sockfd), with_conn s loop next sockfd))
      × ((s.thread_pool.loops ≡ []) ⊎ (next < length s.thread_pool.loops))
unfolding new_connection get_next_loop put
accepted sockfd s v k =
    let (loop, m, e, p) =
      next_of-valid s.thread_pool.base_loop s.thread_pool.loops s.thread_pool.next v.pool in
    let same : erase (conn_name s s.next_conn_id) s.connections ≡ s.connections =
      erase_new s s.next_conn_id s.connections v.address (omega (arith, k)) v.named in
    (loop, m, rw (e, same) refl, p)

accepts-Balanced :
    (s : TcpServer) (ts : List Task) (loop next sockfd : ℕ)
    → s.next_conn_id < 2 ^ 31 - 1
    → ((s.thread_pool.loops ≡ []) ⊎ (next < length s.thread_pool.loops))
    → Balanced s ts
    → Balanced (with_conn s loop next sockfd) (establishes (new_conn s loop sockfd) ∷ ts)
unfolding established destroyed times
accepts-Balanced s ts loop next sockfd k pool b = record {
  valid = record {
    address = b.valid.address;
    pool = pool;
    named = named_too s.connections b.valid.named;
  };
  named = named_too (established ts) b.named;
  balanced = λ x.
      if-holds (λ n. n ≡ times x (destroyed ts) + times x (c ∷ s.connections)) (eq_text c.name x)
        (λ t. rw t (omega (arith, b.balanced x))) (λ t. rw t (omega (arith, b.balanced x)));
  once = λ x.
      if-holds (λ n. n ≤ 1) (eq_text c.name x)
        (λ t.
          subst (λ y. suc (times y (established ts)) ≤ 1) (eq_text→eq c.name x t)
            (omega (arith, unused)))
        (λ t. b.once x);
}
  where
    c : Conn
    c = new_conn s loop sockfd

    named_too :
        (cs : List Conn)
        → AreNamed s s.next_conn_id cs
        → AreNamed (with_conn s loop next sockfd) (suc s.next_conn_id) (c ∷ cs)
    named_too cs a = (
      (s.next_conn_id, omega arith, unfold conn_name in refl),
      AreNamed-same s
          (record { base_loop = s.thread_pool.base_loop; loops = s.thread_pool.loops; next = next })
          (suc s.next_conn_id) (suc s.next_conn_id) (c ∷ s.connections) cs
          (AreNamed-suc s s.next_conn_id cs a),
    )

    unused : times c.name (established ts) ≡ 0
    unused =
        times-AreNamed s s.next_conn_id (established ts)
          (erase_new s s.next_conn_id (established ts) b.valid.address (omega (arith, k)) b.named)

removes-Balanced :
    (s : TcpServer) (ts : List Task) (c : Conn)
    → Memᴰ c s.connections
    → Balanced s ts
    → Balanced (record s { connections = erase c.name s.connections }) (destroys c ∷ ts)
unfolding established destroyed times
removes-Balanced s ts c m b = record {
  valid = record {
    address = b.valid.address;
    pool = b.valid.pool;
    named =
        same (erase c.name s.connections)
          (AreNamed-erase s s.next_conn_id c.name s.connections b.valid.named);
  };
  named = same (established ts) b.named;
  balanced = λ x. elim (Bool-cases (eq_text c.name x)) [
    | inl t ↦ rw t (
        subst
          (λ y.
            times y (established ts)
            ≡ suc (times y (destroyed ts)) + times y (erase c.name s.connections))
          (eq_text→eq c.name x t)
          (omega (
            arith,
            b.balanced c.name,
            b.once c.name,
            times-erase c.name s.connections,
            times-mem s.connections c m,
          )))
    | inr t ↦ rw t (omega (arith, b.balanced x, times-erase_other x c.name s.connections t))
  ];
  once = b.once;
}
  where
    same :
        (cs : List Conn)
        → AreNamed s s.next_conn_id cs
        → AreNamed (record s { connections = erase c.name s.connections }) s.next_conn_id cs
    same cs a =
        AreNamed-same s s.thread_pool s.next_conn_id s.next_conn_id (erase c.name s.connections) cs
          a

starts-balanced :
    (x : List ℕ) (cs : ConnectionMap)
    → cs ≡ []
    → times x (established []) ≡ times x (destroyed []) + times x cs
unfolding established destroyed times
starts-balanced x cs e = omega (arith, ap (times x) e)

Runs-Balanced :
    {s₀ s : TcpServer} {ts : List Task}
    → IsValid s₀
    → s₀.connections ≡ []
    → Runs s₀ s ts
    → Balanced s ts
unfolding remove_connection_in_loop
Runs-Balanced {s₀} v e begins = record {
  valid = v;
  named = unfold established in tt;
  balanced = λ x. starts-balanced x s₀.connections e;
  once = λ x. unfold established times in omega arith;
}
Runs-Balanced v e (accepts {s} {s'} {ts} {t} sockfd r k q) =
    let b = Runs-Balanced v e r in
    let (loop, next, p, pool) = accepted sockfd s b.valid k in
    let e1 : establishes (new_conn s loop sockfd) ≡ t = cc in
    let e2 : with_conn s loop next sockfd ≡ s' = cc in
    subst (λ u. Balanced s' (u ∷ ts)) e1
      (subst (λ u. Balanced u (establishes (new_conn s loop sockfd) ∷ ts)) e2
        (accepts-Balanced s ts loop next sockfd k pool b))
Runs-Balanced v e (removes {s} {s'} {ts} {t} c r m q) =
    let e1 : destroys c ≡ t = cc in
    let e2 : record s { connections = erase c.name s.connections } ≡ s' = cc in
    subst (λ u. Balanced s' (u ∷ ts)) e1
      (subst (λ u. Balanced u (destroys c ∷ ts)) e2
        (removes-Balanced s ts c m (Runs-Balanced v e r)))

times-destroy_all :
    (x : List ℕ) (cs : ConnectionMap) (ts : List Task)
    → times x (destroyed (destroy_all cs ++ ts)) ≡ times x cs + times x (destroyed ts)
unfolding destroy_all destroyed times
times-destroy_all x [] ts = omega arith
times-destroy_all x (c ∷ cs) ts =
    if-holds (λ n. n ≡ times x (c ∷ cs) + times x (destroyed ts)) (eq_text c.name x)
      (λ t. rw t (omega (arith, times-destroy_all x cs ts))) (λ t. rw t (times-destroy_all x cs ts))

nonempty : (xs : List ℕ) → (xs ≡ []) ⊎ (0 < length xs)
nonempty [] = inl refl
nonempty (x ∷ xs) = inr (omega arith)

started-IsValid :
    (base_loop : ℕ) (ip_port name : List ℕ) (start_loop : ℕ → ℕ) (num_threads : ℕ)
    (has_callback : Bool)
    → length ip_port ≤ 21
    → IsValid (start start_loop num_threads has_callback (init base_loop ip_port name)).server
      × ((start start_loop num_threads has_callback
            (init base_loop ip_port name)).server.connections
          ≡ [])
unfolding start start_pool init
started-IsValid base_loop ip_port name start_loop num_threads has_callback h =
    (record { address = h; pool = nonempty (new_loops start_loop 0 num_threads); named = tt }, refl)

-- In every run of a server that was constructed with an address, whose text without the port has at
-- most 15 characters, and started, with fewer than 2^31 - 1 connections in all and each removed
-- while it is in the map: at the end of the destructor every connection that was established was
-- destroyed, and no name was given to two connections.
pub each-destroyed_once :
    (base_loop : ℕ) (ntop : ℕ → List ℕ) (address : InetAddress) (name : List ℕ) (start_loop : ℕ → ℕ)
    (num_threads : ℕ) (has_callback : Bool) {s : TcpServer} {ts : List Task} (x : List ℕ)
    → length (ntop address.sin_addr) ≤ 15
    → Runs
        (start start_loop num_threads has_callback
          (init base_loop (to_ip_port ntop address) name)).server
        s
        ts
    → (times x (destroyed (destroy_all s.connections ++ ts)) ≡ times x (established ts))
      × (times x (established ts) ≤ 1)
each-destroyed_once base_loop ntop address name start_loop num_threads has_callback {s} {ts} x h r =
    let (v, e) =
      started-IsValid base_loop (to_ip_port ntop address) name start_loop num_threads has_callback
        (length-to_ip_port ntop address h) in
    let b = Runs-Balanced v e r in
    (omega (arith, times-destroy_all x s.connections ts, b.balanced x), b.once x)
