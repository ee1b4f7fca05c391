-- ===== src/Net/TcpServer.antt =====
-- src/net/TcpServer.cc and src/net/EventLoopThreadPool.cc: the choice of the loop, and the map of the
-- connections. A loop is a number.
pub mod RoundRobin
pub mod Names
pub mod Start
pub mod Tasks
pub mod Life
use a_tiny_network_library.Common.{
  ℕ, suc, ◌+◌, ◌≡◌, Bool, true, false, not, List, [], ◌∷◌, ◌++◌, Option, none, some, if◌then◌else◌,
  leb, length, take, get_elem?, ◌>>=◌,
}
use a_tiny_network_library.Common.Text.{eq_text}
use a_tiny_network_library.Common.Decimal.{decimal}

pub record EventLoopThreadPool : Type 0 where
  pub base_loop : ℕ
  pub loops : List ℕ
  pub next : ℕ

-- `getNextLoop`; `none` is an index out of bounds.
unfoldable pub next_of : ℕ → List ℕ → ℕ → Option (ℕ × ℕ)
next_of base_loop [] next = some (base_loop, next)
next_of base_loop (l ∷ ls) next = do
  loop ← get_elem? (l ∷ ls) next
  some (loop, if leb (length (l ∷ ls)) (suc next) then 0 else suc next)

unfoldable pub get_next_loop : EventLoopThreadPool → Option (ℕ × EventLoopThreadPool)
get_next_loop p = do
  (loop, next) ← next_of p.base_loop p.loops p.next
  some (loop, record p { next = next })

unfoldable pub get_all_loops : EventLoopThreadPool → List ℕ
get_all_loops p = if is_empty p.loops then p.base_loop ∷ [] else p.loops
  where
    is_empty : List ℕ → Bool
    is_empty [] = true
    is_empty (l ∷ ls) = false

-- A connection with its name, the loop that serves it, and its socket.
pub record Conn : Type 0 where
  pub name : List ℕ
  pub loop : ℕ
  pub sockfd : ℕ

abbrev pub ConnectionMap : Type 0
ConnectionMap = List Conn

unfoldable pub erase : List ℕ → ConnectionMap → ConnectionMap
erase name [] = []
erase name (c ∷ cs) = let rest = erase name cs in if eq_text c.name name then rest else c ∷ rest

-- `connections_[connName] = conn`.
unfoldable pub put : Conn → ConnectionMap → ConnectionMap
put c cs = c ∷ erase c.name cs

-- Work for the loop of a connection: `connectEstablished` or `connectDestroyed`.
pub data Task : Type 0 where
  establishes destroys : Conn → Task

pub record TcpServer : Type 0 where
  pub name : List ℕ
  pub ip_port : List ℕ
  pub thread_pool : EventLoopThreadPool
  pub next_conn_id : ℕ
  pub connections : ConnectionMap

-- `snprintf` into 64 bytes, behind the name of the server.
unfoldable pub conn_name : TcpServer → ℕ → List ℕ
conn_name s id = s.name ++ take 63 ((b'-' ∷ []) ++ s.ip_port ++ (b'#' ∷ []) ++ decimal id)

unfoldable pub new_connection : ℕ → TcpServer → Option (Task × TcpServer)
new_connection sockfd s = do
  (loop, pool) ← get_next_loop s.thread_pool
  let conn : Conn = record { name = conn_name s s.next_conn_id; loop = loop; sockfd = sockfd }
  some (
    establishes conn,
    record s {
      thread_pool = pool;
      next_conn_id = suc s.next_conn_id;
      connections = put conn s.connections;
    },
  )

unfoldable pub remove_connection_in_loop : Conn → TcpServer → Task × TcpServer
remove_connection_in_loop conn s =
    (destroys conn, record s { connections = erase conn.name s.connections })
