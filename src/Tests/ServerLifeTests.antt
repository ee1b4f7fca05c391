-- ===== src/Tests/ServerLifeTests.antt =====
-- src/net/TcpServer.cc: a server with two loops takes two connections, and one of them ends.
use a_tiny_network_library.Common.{ℕ, ◌+◌, ◌≡◌, ◌≤◌, refl, true, List, [], ◌∷◌, ◌++◌, arith}
use a_tiny_network_library.Common.Text.{codes, eq_text}
use a_tiny_network_library.Common.Decimal.{decimal, digits_of}
use a_tiny_network_library.Common.Places.{Memᴰ}
use a_tiny_network_library.Net.InetAddress.{InetAddress, swap_bytes, to_ip_port}
use a_tiny_network_library.Net.TcpServer.{
  next_of, get_next_loop, Conn, erase, put, establishes, destroys, TcpServer, conn_name,
  new_connection, remove_connection_in_loop,
}
use a_tiny_network_library.Net.TcpServer.Start.{init, new_loops, start_pool, start, destroy_all}
use a_tiny_network_library.Net.TcpServer.Life.{each-destroyed_once}
use a_tiny_network_library.Net.TcpServer.Tasks.{
  Runs, begins, accepts, removes, established, destroyed, times,
}

-- Port 80 of any address, in network byte order.
abbrev address : InetAddress
address = record { sin_addr = 0; sin_port = 20480 }

abbrev text_of : ℕ → List ℕ
text_of a = codes "0.0.0.0"

abbrev loop_of : ℕ → ℕ
loop_of i = 10 + i

abbrev first : Conn
first = record { name = codes "http-0.0.0.0:80#1"; loop = 10; sockfd = 8 }

abbrev second : Conn
second = record { name = codes "http-0.0.0.0:80#2"; loop = 11; sockfd = 9 }

abbrev server_with : (next next_conn_id : ℕ) → List Conn → TcpServer
server_with next next_conn_id connections = record {
  name = codes "http";
  ip_port = codes "0.0.0.0:80";
  thread_pool = record { base_loop = 7; loops = 10 ∷ 11 ∷ []; next = next };
  next_conn_id = next_conn_id;
  connections = connections;
}

two_connections :
    Runs
      (start loop_of 2 true (init 7 (to_ip_port text_of address) (codes "http"))).server
      (server_with 0 3 (second ∷ []))
      (destroys first ∷ establishes second ∷ establishes first ∷ [])
unfolding to_ip_port swap_bytes init start start_pool new_loops new_connection get_next_loop next_of
    conn_name decimal digits_of put erase eq_text remove_connection_in_loop
two_connections =
    removes {s = server_with 0 3 (second ∷ first ∷ [])} first
      (accepts {s = server_with 1 2 (first ∷ [])} 9 (accepts 8 begins (omega arith) refl)
        (omega arith) refl)
      (Memᴰ.tail (Memᴰ.head refl)) refl

each-destroyed_once_example :
    (times first.name (
        destroyed (
          destroy_all (second ∷ [])
          ++ (destroys first ∷ establishes second ∷ establishes first ∷ [])))
      ≡ times first.name
          (established (destroys first ∷ establishes second ∷ establishes first ∷ [])))
    × (times first.name (established (destroys first ∷ establishes second ∷ establishes first ∷ []))
        ≤ 1)
each-destroyed_once_example =
    each-destroyed_once 7 text_of address (codes "http") loop_of 2 true first.name (omega arith)
      two_connections
