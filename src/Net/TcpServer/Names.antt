-- ===== src/Net/TcpServer/Names.antt =====
-- src/net/TcpServer.cc: a new connection never takes the place of another in the map.
use a_tiny_network_library.Common.{
  ℕ, zero, suc, ◌+◌, ◌-◌, ◌/◌, ◌%◌, ◌^◌, ◌≤◌, ◌<◌, ◌≡◌, refl, ap, sym, ◌∙◌, List, [], ◌∷◌, ◌++◌,
  some, if◌then◌else◌, leb, ◌==◌, length, drop, arith, if-holds, inl, inr, ◌⊎◌, leb→lt, take-all,
  drop-append, length-append, ==→eq,
}
use a_tiny_network_library.Common.Text.{eq_text, eq_text→eq}
use a_tiny_network_library.Common.Decimal.{decimal, digits_of}
use a_tiny_network_library.Logger.LogStream.Digits.{value, value-append}
use a_tiny_network_library.Net.TcpServer.{
  EventLoopThreadPool, next_of, get_next_loop, Conn, ConnectionMap, erase, put, establishes,
  TcpServer, conn_name, new_connection,
}
use a_tiny_network_library.Net.TcpServer.RoundRobin.{next_of-eq, get_elem-drop}

value-digits_of : (fuel n : ℕ) → n < 10 ^ fuel → value 0 (digits_of fuel n) ≡ n
unfolding digits_of
value-digits_of zero n h = omega arith
value-digits_of (suc fuel) n h =
    if-holds (λ xs. value 0 xs ≡ n) (n / 10 == 0) (λ last. omega (arith, ==→eq (n / 10) 0 last))
      (λ more.
        value-append 0 (digits_of fuel (n / 10)) (b'0' + n % 10)
        ∙ omega (arith, value-digits_of fuel (n / 10) (omega arith)))

length-digits_of : (fuel n : ℕ) → length (digits_of fuel n) ≤ fuel
unfolding digits_of
length-digits_of zero n = omega arith
length-digits_of (suc fuel) n =
    if-holds (λ (xs : List ℕ). length xs ≤ suc fuel) (n / 10 == 0) (λ last. omega arith)
      (λ more. omega (
        arith,
        length-append (digits_of fuel (n / 10)) ((b'0' + n % 10) ∷ []),
        length-digits_of fuel (n / 10),
      ))

decimal-injective : (i j : ℕ) → i < 10 ^ 20 → j < 10 ^ 20 → decimal i ≡ decimal j → i ≡ j
unfolding decimal
decimal-injective i j h k e = sym (value-digits_of 20 i h) ∙ ap (value 0) e ∙ value-digits_of 20 j k

append-cancel : (xs ys zs : List ℕ) → xs ++ ys ≡ xs ++ zs → ys ≡ zs
append-cancel xs ys zs e =
    sym (drop-append xs ys (length xs) refl)
    ∙ ap (drop (length xs)) e
    ∙ drop-append xs zs (length xs) refl

-- The address has at most 21 characters.
abbrev prefix : TcpServer → List ℕ
prefix s = (b'-' ∷ []) ++ s.ip_port ++ (b'#' ∷ [])

conn_name-eq :
    (s : TcpServer) (i : ℕ)
    → length s.ip_port ≤ 21
    → conn_name s i ≡ s.name ++ (prefix s ++ decimal i)
unfolding conn_name decimal
conn_name-eq s i h = ap (◌++◌ s.name) (
    take-all 63 (prefix s ++ digits_of 20 i) (
      omega (
        arith,
        h,
        length-append (prefix s) (digits_of 20 i),
        length-append ((b'-' ∷ []) ++ s.ip_port) (b'#' ∷ []),
        length-append (b'-' ∷ []) s.ip_port,
        length-digits_of 20 i,
      )))

pub conn_name-injective :
    (s : TcpServer) (i j : ℕ)
    → length s.ip_port ≤ 21
    → i < 10 ^ 20
    → j < 10 ^ 20
    → conn_name s i ≡ conn_name s j
    → i ≡ j
conn_name-injective s i j h k l e = decimal-injective i j k l (
    append-cancel (prefix s) _ _
      (append-cancel s.name _ _ (sym (conn_name-eq s i h) ∙ e ∙ conn_name-eq s j h)))

-- Every connection has a name with a number that was given out.
abbrev pub AreNamed : TcpServer → ℕ → ConnectionMap → Type 0
AreNamed s n [] = Unit {0}
AreNamed s n (c ∷ cs) = ((i : ℕ) × (i < n) × (c.name ≡ conn_name s i)) × AreNamed s n cs

pub record IsValid (s : TcpServer) : Type 0 where
  pub address : length s.ip_port ≤ 21
  pub pool : (s.thread_pool.loops ≡ []) ⊎ (s.thread_pool.next < length s.thread_pool.loops)
  pub named : AreNamed s s.next_conn_id s.connections

-- No connection of the map has the next name.
pub erase_new :
    (s : TcpServer) (n : ℕ) (cs : ConnectionMap)
    → length s.ip_port ≤ 21
    → n < 10 ^ 20
    → AreNamed s n cs
    → erase (conn_name s n) cs ≡ cs
unfolding erase
erase_new s n [] h k a = refl
erase_new s n (c ∷ cs) h k ((i, l, e), a) =
    if-holds (λ xs. xs ≡ c ∷ cs) (eq_text c.name (conn_name s n))
      (λ same.
        let clash : i ≡ n =
          conn_name-injective s i n h (omega (arith, k, l)) k
            (sym e ∙ eq_text→eq c.name (conn_name s n) same) in
        absurd (omega (arith, l, clash)))
      (λ other. ap (◌∷◌ c) (erase_new s n cs h k a))

pub AreNamed-suc :
    (s : TcpServer) (n : ℕ) (cs : ConnectionMap) → AreNamed s n cs → AreNamed s (suc n) cs
AreNamed-suc s n [] a = tt
AreNamed-suc s n (c ∷ cs) ((i, l, e), a) = ((i, omega (arith, l), e), AreNamed-suc s n cs a)

-- The names do not depend on the map, the pool and the number.
pub AreNamed-same :
    (s : TcpServer) (pool : EventLoopThreadPool) (m n : ℕ) (ds cs : ConnectionMap)
    → AreNamed s n cs
    → AreNamed (record s { thread_pool = pool; next_conn_id = m; connections = ds }) n cs
unfolding conn_name
AreNamed-same s pool m n ds [] a = tt
AreNamed-same s pool m n ds (c ∷ cs) (h, a) = (h, AreNamed-same s pool m n ds cs a)

pub next_of-valid :
    (b : ℕ) (ls : List ℕ) (n : ℕ)
    → (ls ≡ []) ⊎ (n < length ls)
    → (x m : ℕ) × (next_of b ls n ≡ some (x, m)) × ((ls ≡ []) ⊎ (m < length ls))
next_of-valid b [] n h = (b, n, unfold next_of in refl, inl refl)
next_of-valid b (l ∷ ls) n (inl e) = absurd (ground arith)
next_of-valid b (l ∷ ls) n (inr k) =
    let (x, e, d) = get_elem-drop (l ∷ ls) n k in
    (
      x,
      (if leb (length (l ∷ ls)) (suc n) then 0 else suc n),
      next_of-eq b (l ∷ ls) n x e,
      inr (
          if-holds (λ m. m < length (l ∷ ls)) (leb (length (l ∷ ls)) (suc n)) (λ wraps. omega arith)
            (λ goes_on. leb→lt (length (l ∷ ls)) (suc n) goes_on)),
    )

-- A new connection of a well-formed server, while the numbers stay below 2^31 - 1: it gets a loop,
-- its name is that of no connection in the map, and it is added without displacing another.
pub new_connection-added :
    (sockfd : ℕ) (s : TcpServer)
    → IsValid s
    → s.next_conn_id < 2 ^ 31 - 1
    → (c : Conn) × (s' : TcpServer) × (new_connection sockfd s ≡ some (establishes c, s'))
      × (c.sockfd ≡ sockfd)
      × (s'.connections ≡ c ∷ s.connections)
      × IsValid s'
unfolding new_connection get_next_loop put
new_connection-added sockfd s v k =
    let (loop, m, e, p) =
      next_of-valid s.thread_pool.base_loop s.thread_pool.loops s.thread_pool.next v.pool in
    let c : Conn = record { name = conn_name s s.next_conn_id; loop = loop; sockfd = sockfd } in
    let same : erase (conn_name s s.next_conn_id) s.connections ≡ s.connections =
      erase_new s s.next_conn_id s.connections v.address (omega (arith, k)) v.named in
    let pool : EventLoopThreadPool = record s.thread_pool { next = m } in
    let s' : TcpServer = record s {
      thread_pool = pool;
      next_conn_id = suc s.next_conn_id;
      connections = c ∷ s.connections;
    } in
    (
      c,
      s',
      rw (e, same),
      refl,
      refl,
      record {
        address = v.address;
        pool = p;
        named = (
          (s.next_conn_id, omega arith, unfold conn_name in refl),
          AreNamed-same s pool (suc s.next_conn_id) (suc s.next_conn_id) (c ∷ s.connections)
              s.connections (AreNamed-suc s s.next_conn_id s.connections v.named),
        );
      },
    )
