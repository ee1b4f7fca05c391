-- ===== src/Net/TcpServer/Start.antt =====
-- src/net/TcpServer.cc and src/net/EventLoopThreadPool.cc: how a server starts and how it ends.
use a_tiny_network_library.Common.{
  ℕ, zero, suc, Bool, true, false, List, [], ◌∷◌, ◌++◌, if◌then◌else◌, ◌==◌,
}
use a_tiny_network_library.Net.TcpServer.{
  EventLoopThreadPool, ConnectionMap, Task, destroys, TcpServer,
}

-- The loops that the callback of a thread was called with before they ran, and whether the acceptor
-- was told to listen.
pub record Running : Type 0 where
  pub server : TcpServer
  pub started : ℕ
  pub initialised : List ℕ
  pub listens : Bool

-- The constructor; `base_loop` is not null.
unfoldable pub init : (base_loop : ℕ) (ip_port name : List ℕ) → Running
init base_loop ip_port name = record {
  server = record {
    name = name;
    ip_port = ip_port;
    thread_pool = record { base_loop = base_loop; loops = []; next = 0 };
    next_conn_id = 1;
    connections = [];
  };
  started = 0;
  initialised = [];
  listens = false;
}

-- The loop of `EventLoopThreadPool::start` from `i` on: `start_loop` is the loop of the thread of that
-- number, which `startLoop` waits for.
unfoldable pub new_loops : (start_loop : ℕ → ℕ) (i count : ℕ) → List ℕ
new_loops start_loop i zero = []
new_loops start_loop i (suc count) = start_loop i ∷ new_loops start_loop (suc i) count

unfoldable pub start_pool :
    (start_loop : ℕ → ℕ) (num_threads : ℕ) → EventLoopThreadPool → EventLoopThreadPool
start_pool start_loop num_threads p = record p {
  loops = p.loops ++ new_loops start_loop 0 num_threads;
}

-- The loops for which the callback is called, if there is one: that of every thread calls it, and
-- without threads the pool does.
unfoldable pub initialised_by :
    (start_loop : ℕ → ℕ) (num_threads : ℕ) (has_callback : Bool) → EventLoopThreadPool → List ℕ
initialised_by start_loop num_threads has_callback p =
    if has_callback
    then (if num_threads == 0 then p.base_loop ∷ [] else new_loops start_loop 0 num_threads)
    else []

unfoldable pub start :
    (start_loop : ℕ → ℕ) (num_threads : ℕ) (has_callback : Bool) → Running → Running
start start_loop num_threads has_callback r =
    let s = r.server in
    if r.started == 0
    then record {
      server = record s { thread_pool = start_pool start_loop num_threads s.thread_pool };
      started = suc r.started;
      initialised =
          r.initialised ++ initialised_by start_loop num_threads has_callback s.thread_pool;
      listens = true;
    }
    else record r { started = suc r.started }

-- The destructor: work for the loops of the connections that are left.
unfoldable pub destroy_all : ConnectionMap → List Task
destroy_all [] = []
destroy_all (c ∷ cs) = destroys c ∷ destroy_all cs
