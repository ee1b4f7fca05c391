-- ===== src/Mysql/MysqlConn/Results.antt =====
-- src/mysql/MysqlConn.cc: the life of the result sets, and what is read from them.
use a_tiny_network_library.Common.{
  ℕ, zero, suc, ◌≡◌, ◌≤◌, ◌<◌, refl, sym, ap, subst, ◌∙◌, Bool, true, false, List, [], ◌∷◌, ◌++◌,
  Option, none, some, if◌then◌else◌, if-holds, leb, ◌==◌, ==_refl, leb→le, leb→lt, length,
  get_elem?, get_or, arith, append-nil,
}
use a_tiny_network_library.Mysql.MysqlConn.{
  Row, MysqlConn, Effect, frees_result, closes, init, free_result, freed, update, store, query,
  fetched, next, field_of, value, refresh_alive_time, destroy,
}

-- A connection after some calls, with everything that it asked of the library.
pub data Used (conn : Bool) : MysqlConn → List Effect → Type 0 where
  creates : Used conn (init conn) []
  queries :
      {c : MysqlConn} {es : List Effect} (failed has_result : Bool)
      → Used conn c es
      → Used conn (query failed has_result c).state (es ++ (query failed has_result c).effects)
  updates :
      {c : MysqlConn} {es : List Effect} (failed : Bool)
      → Used conn c es
      → Used conn (update failed c).state (es ++ (update failed c).effects)
  nexts :
      {c : MysqlConn} {es : List Effect} (fetch : Option (List (List ℕ)))
      → Used conn c es
      → Used conn (next fetch c).state (es ++ (next fetch c).effects)
  refreshes :
      {c : MysqlConn} {es : List Effect} (now : ℕ)
      → Used conn c es
      → Used conn (refresh_alive_time now c) es

-- The first `n` result sets are freed, in order.
unfoldable pub freed_to : ℕ → List Effect
freed_to zero = []
freed_to (suc n) = freed_to n ++ (frees_result n ∷ [])

-- The last result set that was stored is the one that is held, if one is; all others are freed.
record Frees (conn : Bool) (c : MysqlConn) (es : List Effect) : Type 0 where
  same_conn : c.conn ≡ conn
  all_freed : es ++ freed c.result ≡ freed_to c.stored

started : (conn : Bool) → Frees conn (init conn) []
unfolding init freed freed_to
started conn = record { same_conn = refl; all_freed = refl }

stores :
    {conn : Bool} (has_result : Bool) (c : MysqlConn) (es : List Effect)
    → c.conn ≡ conn
    → es ≡ freed_to c.stored
    → Frees conn (store has_result c) es
unfolding store freed freed_to
stores true c es e f = record {
  same_conn = e;
  all_freed = ap (λ xs. xs ++ (frees_result c.stored ∷ [])) f;
}
stores false c es e f = record { same_conn = e; all_freed = append-nil es ∙ f }

queried :
    {conn : Bool} (failed has_result : Bool) (c : MysqlConn) (es : List Effect)
    → Frees conn c es
    → Frees conn (query failed has_result c).state (es ++ freed c.result)
unfolding query free_result freed
queried {conn} failed has_result c es f =
    if-holds (λ (d : MysqlConn). Frees conn d (es ++ freed c.result)) failed
      (λ t. record { same_conn = f.same_conn; all_freed = append-nil _ ∙ f.all_freed })
      (λ t.
        stores has_result (record c { result = none }) (es ++ freed c.result) f.same_conn
          f.all_freed)

same_result :
    {conn : Bool} {c d : MysqlConn} {es : List Effect}
    → d.conn ≡ c.conn
    → d.result ≡ c.result
    → d.stored ≡ c.stored
    → Frees conn c es
    → Frees conn d (es ++ [])
same_result {c} {d} {es} e1 e2 e3 f = record {
  same_conn = e1 ∙ f.same_conn;
  all_freed =
      ap (λ xs. xs ++ freed d.result) (append-nil es)
      ∙ ap (λ r. es ++ freed r) e2
      ∙ f.all_freed
      ∙ ap freed_to (sym e3);
}

nexted :
    {conn : Bool} (fetch : Option (List (List ℕ))) (alivetime stored : ℕ) (held : Bool)
    (row : Option Row) (result : Option ℕ) (es : List Effect)
    → let c : MysqlConn = record {
      conn = held;
      result = result;
      row = row;
      alivetime = alivetime;
      stored = stored;
    } in
      Frees conn c es → Frees conn (next fetch c).state (es ++ (next fetch c).effects)
unfolding next
nexted fetch alivetime stored held row none es f = same_result refl refl refl f
nexted fetch alivetime stored held row (some r) es f = same_result refl refl refl f

Used-Frees : {conn : Bool} {c : MysqlConn} {es : List Effect} → Used conn c es → Frees conn c es
unfolding update refresh_alive_time query
Used-Frees {conn} creates = started conn
Used-Frees (queries {c} {es} failed has_result u) = queried failed has_result c es (Used-Frees u)
Used-Frees (updates failed u) = same_result refl refl refl (Used-Frees u)
Used-Frees (nexts {c} {es} fetch u) =
    nexted fetch c.alivetime c.stored c.conn c.row c.result es (Used-Frees u)
Used-Frees (refreshes now u) =
    let f = Used-Frees u in record { same_conn = f.same_conn; all_freed = f.all_freed }

-- No result set leaks and none is freed twice: whatever calls are made and whatever the library
-- answers, at the end of the destructor the result sets that the library stored were freed, each once
-- and in order, and the destructor closes the connection if there is one.
pub results-freed :
    {conn : Bool} {c : MysqlConn} {es : List Effect}
    → Used conn c es
    → (last : List Effect) × (destroy c ≡ (if conn then closes ∷ [] else []) ++ last)
      × (es ++ last ≡ freed_to c.stored)
unfolding destroy
results-freed {conn} {c} u =
    let f = Used-Frees u in
    (
      freed c.result,
      ap (λ b. (if b then closes ∷ [] else []) ++ freed c.result) f.same_conn,
      f.all_freed,
    )

get_elem?-get_or :
    (xs : List (List ℕ)) (i : ℕ) → i < length xs → get_elem? xs i ≡ some (get_or xs i [])
get_elem?-get_or [] i h = absurd (omega (arith, h))
get_elem?-get_or (x ∷ xs) zero h = refl
get_elem?-get_or (x ∷ xs) (suc i) h = get_elem?-get_or xs i (omega (arith, h))

get_or-nil :
    (fields : List (List ℕ)) (index : ℕ) → length fields ≤ index → get_or fields index [] ≡ []
get_or-nil [] index h = refl
get_or-nil (x ∷ xs) zero h = absurd (omega (arith, h))
get_or-nil (x ∷ xs) (suc i) h = get_or-nil xs i (omega (arith, h))

reads :
    (index alivetime stored r : ℕ) (conn : Bool) (row : Option Row) (fields : List (List ℕ))
    → let c : MysqlConn = record {
      conn = conn;
      result = some r;
      row = row;
      alivetime = alivetime;
      stored = stored;
    } in
      r < stored
      → (value (length fields) index (next (some fields) c).state ≡ some (get_or fields index []))
        × (value (length fields) index (query false true (next (some fields) c).state).state
            ≡ (if leb (length fields) index then some [] else none))
unfolding value next fetched query free_result store field_of
reads index alivetime stored r conn row fields older =
    let same : (r == r) ≡ true = ==_refl r in
    let other : (r == stored) ≡ false = ground (arith, older) in
    (
      if-holds (λ (o : Option (List ℕ)). o ≡ some (get_or fields index []))
          (leb (length fields) index)
          (λ t. ap some (sym (get_or-nil fields index (leb→le (length fields) index t))))
          (λ t. rw same (get_elem?-get_or fields index (leb→lt (length fields) index t))),
      rw other refl,
    )

-- With a result set that was stored and a row that was fetched from it, `value` gives the field at
-- the index, and the empty text behind the last. When a query stores the next result set and `next`
-- is not called, `value` reads a field of the row that was freed with the old one.
pub value-reads :
    (c : MysqlConn) (r index : ℕ) (fields : List (List ℕ))
    → c.result ≡ some r
    → r < c.stored
    → (value (length fields) index (next (some fields) c).state ≡ some (get_or fields index []))
      × (value (length fields) index (query false true (next (some fields) c).state).state
          ≡ (if leb (length fields) index then some [] else none))
value-reads c r index fields e older =
    subst
      (λ res.
        let d : MysqlConn = record c { result = res } in
        (value (length fields) index (next (some fields) d).state ≡ some (get_or fields index []))
        × (value (length fields) index (query false true (next (some fields) d).state).state
            ≡ (if leb (length fields) index then some [] else none)))
      (sym e) (reads index c.alivetime c.stored r c.conn c.row fields older)
