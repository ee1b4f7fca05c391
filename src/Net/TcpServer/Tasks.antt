-- ===== src/Net/TcpServer/Tasks.antt =====
-- src/net/TcpServer.cc: the calls of a server in a row, and the work that they give to the loops.
use a_tiny_network_library.Common.{
  ℕ, suc, ◌-◌, ◌^◌, ◌≡◌, ◌≤◌, ◌<◌, refl, sym, ap, ◌∙◌, true, false, List, [], ◌∷◌, some,
  if◌then◌else◌, if-holds, arith,
}
use a_tiny_network_library.Common.Text.{eq_text, eq_text→eq, eq_text_refl}
use a_tiny_network_library.Common.Places.{Memᴰ}
use a_tiny_network_library.Net.TcpServer.{
  Conn, ConnectionMap, erase, Task, establishes, destroys, TcpServer, conn_name, new_connection,
  remove_connection_in_loop,
}
use a_tiny_network_library.Net.TcpServer.Names.{AreNamed}

-- A server after some calls, with the work that it gave to the loops. A connection is removed while
-- it is in the map, as its close callback is called once.
pub data Runs (s₀ : TcpServer) : TcpServer → List Task → Type 0 where
  begins : Runs s₀ s₀ []
  accepts :
      {s s' : TcpServer} {ts : List Task} {t : Task} (sockfd : ℕ)
      → Runs s₀ s ts
      → s.next_conn_id < 2 ^ 31 - 1
      → new_connection sockfd s ≡ some (t, s')
      → Runs s₀ s' (t ∷ ts)
  removes :
      {s s' : TcpServer} {ts : List Task} {t : Task} (c : Conn)
      → Runs s₀ s ts
      → Memᴰ c s.connections
      → remove_connection_in_loop c s ≡ (t, s')
      → Runs s₀ s' (t ∷ ts)

-- The connections that were established, and those that were destroyed.
unfoldable pub established : List Task → List Conn
established [] = []
established (establishes c ∷ ts) = c ∷ established ts
established (destroys c ∷ ts) = established ts

unfoldable pub destroyed : List Task → List Conn
destroyed [] = []
destroyed (establishes c ∷ ts) = destroyed ts
destroyed (destroys c ∷ ts) = c ∷ destroyed ts

-- How many connections have a name.
unfoldable pub times : List ℕ → List Conn → ℕ
times x [] = 0
times x (c ∷ cs) = let n = times x cs in if eq_text c.name x then suc n else n

pub times-erase : (x : List ℕ) (cs : ConnectionMap) → times x (erase x cs) ≡ 0
unfolding times erase
times-erase x [] = refl
times-erase x (c ∷ cs) =
    if-holds (λ xs. times x xs ≡ 0) (eq_text c.name x) (λ t. times-erase x cs)
      (λ t. rw t (times-erase x cs))

pub times-erase_other :
    (x name : List ℕ) (cs : ConnectionMap)
    → eq_text name x ≡ false
    → times x (erase name cs) ≡ times x cs
unfolding times erase
times-erase_other x name [] other = refl
times-erase_other x name (c ∷ cs) other =
    let rest = times-erase_other x name cs other in
    if-holds (λ xs. times x xs ≡ times x (c ∷ cs)) (eq_text c.name name)
      (λ t.
        let e = eq_text→eq c.name name t in
        let f : eq_text c.name x ≡ false = ap (λ n. eq_text n x) e ∙ other in rw f rest)
      (λ t. ap (λ n. if eq_text c.name x then suc n else n) rest)

pub times-mem : (cs : ConnectionMap) (c : Conn) → Memᴰ c cs → 1 ≤ times c.name cs
unfolding times
times-mem [] c m = elim m [ ]
times-mem (d ∷ cs) c (Memᴰ.head e) =
    let t : eq_text d.name c.name ≡ true =
      ap (λ k. eq_text k.name c.name) (sym e) ∙ eq_text_refl c.name in
    rw t (omega arith)
times-mem (d ∷ cs) c (Memᴰ.tail m) =
    if-holds (λ n. 1 ≤ n) (eq_text d.name c.name) (λ t. omega arith) (λ t. times-mem cs c m)

pub times-AreNamed :
    (s : TcpServer) (n : ℕ) (cs : ConnectionMap)
    → erase (conn_name s n) cs ≡ cs
    → times (conn_name s n) cs ≡ 0
times-AreNamed s n cs e = ap (times (conn_name s n)) (sym e) ∙ times-erase (conn_name s n) cs

pub AreNamed-erase :
    (s : TcpServer) (n : ℕ) (name : List ℕ) (cs : ConnectionMap)
    → AreNamed s n cs
    → AreNamed s n (erase name cs)
unfolding erase
AreNamed-erase s n name [] a = tt
AreNamed-erase s n name (c ∷ cs) (h, a) =
    let rest = AreNamed-erase s n name cs a in
    if-holds (AreNamed s n) (eq_text c.name name) (λ t. rest) (λ t. (h, rest))
