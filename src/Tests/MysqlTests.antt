-- ===== src/Tests/MysqlTests.antt =====
-- src/mysql/ConnectionPool.cc with room for three connections.
use a_tiny_network_library.Common.{◌+◌, ◌≡◌, ◌≤◌, refl, [], arith, ◌⊎◌}
use a_tiny_network_library.Mysql.ConnectionPool.{
  ConnectionPool, add_connection, add_counted, fill, init, produce_connection, get_connection, gets,
  produces, Steps, here, next,
}
use a_tiny_network_library.Mysql.ConnectionPool.Count.{open_count, current_size-counts_twice}

-- The only connection is lent, and a second one is opened.
abbrev pool : ConnectionPool
pool = produce_connection 20 (get_connection [] (init 1 3 100 10))

pool-Steps : Steps (init 1 3 100 10) 1 pool
unfolding init fill add_counted add_connection get_connection
pool-Steps = next (next here (gets 10 [] refl)) (produces 20 refl (omega arith))

current_size-counts_twice_example :
    (pool.current_size ≡ open_count pool + (1 + 1)) × ((1 + 1 ≤ 1) ⊎ (1 + 1 ≤ 3))
current_size-counts_twice_example = current_size-counts_twice 1 3 100 10 pool-Steps
