-- ===== src/Tests/ServerTests.antt =====
-- src/net/TcpServer.cc with three loops.
use a_tiny_network_library.Common.{◌≡◌, refl, [], ◌∷◌, some, arith, inr}
use a_tiny_network_library.Common.Text.{codes}
use a_tiny_network_library.Common.Decimal.{decimal, digits_of}
use a_tiny_network_library.Net.TcpServer.{
  EventLoopThreadPool, Conn, establishes, TcpServer, conn_name, new_connection,
}
use a_tiny_network_library.Net.TcpServer.RoundRobin.{turns, get_next_loop-round}
use a_tiny_network_library.Net.TcpServer.Names.{IsValid, new_connection-added}

abbrev three_loops : EventLoopThreadPool
three_loops = record { base_loop = 7; loops = 10 ∷ 20 ∷ 30 ∷ []; next = 2 }

get_next_loop-round_example : turns 3 three_loops ≡ some (30 ∷ 10 ∷ 20 ∷ [], three_loops)
get_next_loop-round_example = get_next_loop-round three_loops (omega arith)

-- One connection, number 1, is open.
abbrev server : TcpServer
server = record {
  name = codes "http";
  ip_port = codes "127.0.0.1:80";
  thread_pool = three_loops;
  next_conn_id = 2;
  connections = record { name = codes "http-127.0.0.1:80#1"; loop = 20; sockfd = 8 } ∷ [];
}

server-IsValid : IsValid server
unfolding conn_name decimal digits_of
server-IsValid = record {
  address = omega arith;
  pool = inr (omega arith);
  named = ((1, omega arith, refl), tt);
}

new_connection-added_example :
    (c : Conn) × (s' : TcpServer) × (new_connection 9 server ≡ some (establishes c, s'))
    × (c.sockfd ≡ 9)
    × (s'.connections ≡ c ∷ server.connections)
    × IsValid s'
new_connection-added_example = new_connection-added 9 server server-IsValid (omega arith)
