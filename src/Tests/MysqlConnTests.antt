-- ===== src/Tests/MysqlConnTests.antt =====
-- src/mysql/MysqlConn.cc: a connection with two queries.
use a_tiny_network_library.Common.{
  ℕ, ◌≡◌, refl, List, [], ◌∷◌, ◌++◌, true, false, some, none, if◌then◌else◌, leb, length, get_or,
  arith,
}
use a_tiny_network_library.Common.Text.{codes}
use a_tiny_network_library.Mysql.MysqlConn.{
  MysqlConn, Effect, frees_result, closes, init, query, next, value, store, free_result, freed,
  destroy,
}
use a_tiny_network_library.Mysql.MysqlConn.Results
use a_tiny_network_library.Mysql.MysqlConn.Results.{Used, freed_to, results-freed, value-reads}

abbrev fields : List (List ℕ)
fields = codes "1" ∷ codes "alice" ∷ []

abbrev queried : MysqlConn
queried = (query false true (init true)).state

abbrev queried_twice : MysqlConn
queried_twice = (query false true queried).state

two_queries : Used true queried_twice (frees_result 0 ∷ [])
unfolding init query free_result store freed
two_queries = Results.queries false true (Results.queries false true Results.creates)

results-freed_example :
    (last : List Effect) × (destroy queried_twice ≡ (if true then closes ∷ [] else []) ++ last)
    × ((frees_result 0 ∷ []) ++ last ≡ freed_to queried_twice.stored)
results-freed_example = results-freed two_queries

value-reads_example :
    (value (length fields) 1 (next (some fields) queried).state ≡ some (get_or fields 1 []))
    × (value (length fields) 1 (query false true (next (some fields) queried).state).state
        ≡ (if leb (length fields) 1 then some [] else none))
unfolding init query free_result store
value-reads_example = value-reads queried 0 1 fields refl (omega arith)
