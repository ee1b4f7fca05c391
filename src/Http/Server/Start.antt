-- ===== src/Http/Server/Start.antt =====
-- src/http/HttpServer.cc: the constructor and `start`, on the server of connections that it owns. The
-- callbacks for connections and messages are those of Http.Server.
use a_tiny_network_library.Common.{
  ℕ, suc, ◌≡◌, refl, false, List, ◌==◌, Bool-cases, inl, inr, arith,
}
use a_tiny_network_library.Net.InetAddress.{InetAddress, to_ip_port}
use a_tiny_network_library.Net.TcpServer.Start
use a_tiny_network_library.Net.TcpServer.Start.{Running}
use a_tiny_network_library.Http.Server.{HttpCallback, default_http_callback}

record HttpServer : Type 0 where
  server : Running
  num_threads : ℕ
  http_callback : HttpCallback

unfoldable init :
    (base_loop : ℕ) (ntop : ℕ → List ℕ) (listen_addr : InetAddress) (name : List ℕ) → HttpServer
init base_loop ntop listen_addr name = record {
  server = Start.init base_loop (to_ip_port ntop listen_addr) name;
  num_threads = 4;
  http_callback = default_http_callback;
}

unfoldable set_http_callback : HttpCallback → HttpServer → HttpServer
set_http_callback callback s = record s { http_callback = callback }

-- The threads have no callback of their own.
unfoldable start : (start_loop : ℕ → ℕ) → HttpServer → HttpServer
start start_loop s = record s { server = Start.start start_loop s.num_threads false s.server }

not_first : (n : ℕ) → (suc n == 0) ≡ false
not_first n = ground arith

-- A server is started once: another start changes nothing but the count of the starts.
start-twice :
    (start_loop : ℕ → ℕ) (s : HttpServer)
    → (start start_loop (start start_loop s)).server.server ≡ (start start_loop s).server.server
unfolding start Start.start
start-twice start_loop s = elim (Bool-cases (s.server.started == 0)) [
  | inl first ↦ rw (first, not_first s.server.started) refl
  | inr again ↦ rw (again, not_first s.server.started) refl
]
