-- ===== src/Mysql/MysqlConn.antt =====
-- src/mysql/MysqlConn.h and src/mysql/MysqlConn.cc: a connection with the result of its last query.
-- What the client library answers is an argument. A result set is known by the number of those that
-- the library stored for the connection before it.
pub mod Results
use a_tiny_network_library.Common.{
  ℕ, zero, suc, ◌+◌, ◌-◌, ◌/◌, ◌≡◌, Bool, true, false, not, ◌||◌, List, [], ◌∷◌, ◌++◌, Option, none,
  some, if◌then◌else◌, leb, ltb, ◌==◌, get_elem?,
}

-- A row that was fetched: the result set that it is a part of, and its fields.
pub record Row : Type 0 where
  pub result_of : ℕ
  pub fields : List (List ℕ)

-- `conn_` is null when `mysql_init` failed. `stored` counts the result sets of the connection.
pub record MysqlConn : Type 0 where
  pub conn : Bool
  pub result : Option ℕ
  pub row : Option Row
  pub alivetime : ℕ
  pub stored : ℕ

-- What the connection asks of the library.
pub data Effect : Type 0 where
  frees_result : ℕ → Effect
  closes : Effect

pub record Called : Type 0 where
  pub state : MysqlConn
  pub effects : List Effect
  pub answer : Bool

-- The constructor, with whether `mysql_init` gave an object.
unfoldable pub init : Bool → MysqlConn
init conn = record { conn = conn; result = none; row = none; alivetime = 0; stored = 0 }

-- `freeResult`: `row_` stays.
unfoldable pub free_result : MysqlConn → MysqlConn
free_result c = record c { result = none }

unfoldable pub freed : Option ℕ → List Effect
freed none = []
freed (some r) = frees_result r ∷ []

-- The answer of `mysql_real_connect`, and of `mysql_query` to a statement.
unfoldable pub connect : (connected : Bool) → MysqlConn → Called
connect connected c = record { state = c; effects = []; answer = connected }

unfoldable pub update : (failed : Bool) → MysqlConn → Called
update failed c = record { state = c; effects = []; answer = not failed }

-- The result that `mysql_store_result` gives, or none.
unfoldable pub store : (has_result : Bool) → MysqlConn → MysqlConn
store true c = record c { result = some c.stored; stored = suc c.stored }
store false c = record c { result = none }

unfoldable pub query : (failed has_result : Bool) → MysqlConn → Called
query failed has_result c =
    let cleared = free_result c in
    record {
      state = if failed then cleared else store has_result cleared;
      effects = freed c.result;
      answer = not failed;
    }

-- `next` with what `mysql_fetch_row` gives, if it is called.
unfoldable pub fetched : ℕ → Option (List (List ℕ)) → Option Row
fetched r none = none
fetched r (some fields) = some (record { result_of = r; fields = fields })

unfoldable pub is_some : Option Row → Bool
is_some none = false
is_some (some row) = true

unfoldable pub next : Option (List (List ℕ)) → MysqlConn → Called
next fetch c = elim c.result [
  | none ↦ record { state = c; effects = []; answer = false }
  | some r ↦ record {
    state = record c { row = fetched r fetch };
    effects = [];
    answer = is_some (fetched r fetch);
  }
]

-- The field of a row: `none` is a read behind its end.
unfoldable pub field_of : ℕ → (r : ℕ) → Option Row → Option (List ℕ)
field_of index r none = none
field_of index r (some row) = if row.result_of == r then get_elem? row.fields index else none

-- `value` for an index that is not negative, with the number of fields that the library tells.
-- `none` is a read through the null pointer or of a row that was freed.
unfoldable pub value : (num_fields index : ℕ) → MysqlConn → Option (List ℕ)
value num_fields index c = elim c.result [
  | none ↦ none
  | some r ↦ if leb num_fields index then some [] else field_of index r c.row
]

-- `transaction`, `commit` and `rollbock` hand on the answer of the library, which is 0 for success.
unfoldable pub transaction : (answer : ℕ) → MysqlConn → Called
transaction answer c = record { state = c; effects = []; answer = not (answer == 0) }

-- The time of the steady clock is in nanoseconds.
unfoldable pub refresh_alive_time : (now : ℕ) → MysqlConn → MysqlConn
refresh_alive_time now c = record c { alivetime = now }

unfoldable pub get_alive_time : (now : ℕ) → MysqlConn → ℕ
get_alive_time now c = (now - c.alivetime) / 1000000

-- The destructor.
unfoldable pub destroy : MysqlConn → List Effect
destroy c = (if c.conn then closes ∷ [] else []) ++ freed c.result
