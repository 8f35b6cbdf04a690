-- ===== src/Database.antt =====
-- sentinel/database.py: the three clients. A driver is an argument: what it does with its connection, of
-- type `C`, where `none` is an exception. Threads take a connection's lock in turn, so that the
-- operations on it come one after the other.
pub mod ReadOnly
use sentinel_subnet.Base.Json.{Json, int, str}
use sentinel_subnet.Kbs.{Credentials}
use sentinel_subnet.Mcp.Query.{QueryResult}
use sentinel_subnet.Base.Result.{Result, err, map_ok, ok, or_raise, ◌>>=◌, ◌>>◌}
use sentinel_subnet.Base.Text.{Text, codes, is_empty, strip, truthy}
use sentinel_subnet.Base.Int.{pos}
use sentinel_subnet.Base.{
  Bool, List, Option, String, [], any, false, if◌then◌else◌, none, some, true, ℕ, ◌++◌, ◌==◌, ◌∷◌,
}

pub data QueryError : Type 0 where
  on_closed empty_sql no_driver could_not_open seed_failed not_read_only query_failed : QueryError

-- The columns and rows of a cursor, or nothing for a statement that has none.
abbrev pub Cursor : Type 0
Cursor = Option (List Text × List (List Json))

-- A `QueryResult` of a cursor.
unfoldable pub fetched : Cursor → QueryResult
fetched none = record { columns = []; rows = [] }
fetched (some (columns, rows)) = record { columns = columns; rows = rows }

-- `MockDatabase`
pub record MockDatabase : Type 0 where
  pub credentials : Credentials
  pub closed : Bool
  pub queries : List (Text × List Json)
  pub columns : List Text
  pub rows : List (List Json)

-- `a or b`, of a sequence that may be missing.
unfoldable pub or_default : {A : Type 0} → Option (List A) → List A → List A
or_default (some (x ∷ xs)) default = x ∷ xs
or_default _ default = default

-- One of the rows that a mock has where it is given none.
abbrev pub user_row : (id : ℕ) (email plan : String) → List Json
user_row id email plan = int (pos id) ∷ str (codes email) ∷ str (codes plan) ∷ []

-- `MockDatabase.__init__`
unfoldable pub new_mock :
    Credentials → (columns : Option (List Text)) (rows : Option (List (List Json))) → MockDatabase
unfolding or_default
new_mock credentials columns rows = record {
  credentials = credentials;
  closed = false;
  queries = [];
  columns = or_default columns (codes "id" ∷ codes "email" ∷ codes "plan" ∷ []);
  rows = or_default rows (
      user_row 1 "ada@example.com" "enterprise"
      ∷ user_row 2 "grace@example.com" "pro"
      ∷ user_row 3 "alan@example.com" "free"
      ∷ []);
}

unfoldable pub mock_query :
    (sql : Text) (params : List Json) → MockDatabase → Result QueryError QueryResult × MockDatabase
unfolding is_empty strip
mock_query sql params db =
    if db.closed
    then (err on_closed, db)
    else if is_empty (strip sql)
    then (err empty_sql, db)
    else (
      ok (record { columns = db.columns; rows = db.rows }),
      record db { queries = db.queries ++ ((sql, params) ∷ []) },
    )

unfoldable pub mock_close : MockDatabase → MockDatabase
mock_close db = record db { closed = true }

-- SQLite's action codes that `_read_only_authorizer` permits: SELECT, READ, FUNCTION, RECURSIVE.
abbrev pub permitted : List ℕ
permitted = 21 ∷ 20 ∷ 31 ∷ 33 ∷ []

unfoldable pub read_only_authorizer : ℕ → Bool
read_only_authorizer action = any (λ a. action == a) permitted

pub record SqliteDriver (C : Type 0) : Type 0 where
  pub connect : (path : Text) → Option C
  pub executescript : Text → C → Option C
  pub set_authorizer : (ℕ → Bool) → C → C
  pub execute : (sql : Text) (params : List Json) → C → Option Cursor × C
  pub close : C → C

pub record Client (C : Type 0) : Type 0 where
  pub credentials : Credentials
  pub closed : Bool
  pub conn : C

module _ {C : Type 0} where
  -- `query`, over what the driver does with the statement: on a closed client the driver is not asked.
  unfoldable pub client_query :
      (execute : C → Option Cursor × C) → Client C → Result QueryError QueryResult × Client C
  unfolding fetched
  client_query execute db = if db.closed then (err on_closed, db) else (
    map_ok fetched (or_raise (execute db.conn).0 query_failed),
    record db { conn = (execute db.conn).1 },
  )

  -- `close`, once
  unfoldable pub client_close : (close : C → C) → Client C → Client C
  client_close close db =
      if db.closed then db else record db { closed = true; conn = close db.conn }

  -- The seed runs before writing is taken away.
  unfoldable pub seeded : SqliteDriver C → Option Text → C → Result QueryError C
  seeded d none conn = ok conn
  seeded d (some seed) conn = or_raise (d.executescript seed conn) seed_failed

  -- `SqliteDatabase.__init__`
  unfoldable pub new_sqlite :
      SqliteDriver C
      → Credentials
      → (path : Text) (seed_sql : Option Text) (read_only : Bool) → Result QueryError (Client C)
  unfolding truthy seeded
  new_sqlite d credentials path seed_sql read_only = do
    opened ← or_raise (d.connect path) could_not_open
    conn ← seeded d (truthy seed_sql) opened
    ok (record {
      credentials = credentials;
      closed = false;
      conn = if read_only then d.set_authorizer read_only_authorizer conn else conn;
    })

  unfoldable pub sqlite_query :
      SqliteDriver C
      → (sql : Text) (params : List Json) → Client C
      → Result QueryError QueryResult × Client C
  unfolding client_query
  sqlite_query d sql params db = client_query (d.execute sql params) db

  unfoldable pub sqlite_close : SqliteDriver C → Client C → Client C
  unfolding client_close
  sqlite_close d db = client_close d.close db

pub record PostgresDriver (C : Type 0) : Type 0 where
  pub connect : (dsn : Text) (connect_timeout : ℕ) → Option C
  pub set_read_only : C → Option C
  pub execute : (sql : Text) (params : Option (List Json)) → C → Option Cursor × C
  pub close : C → C

abbrev pub default_connect_timeout : ℕ
default_connect_timeout = 10

-- `tuple(params) or None`
unfoldable pub given_params : List Json → Option (List Json)
given_params [] = none
given_params (p ∷ ps) = some (p ∷ ps)

module _ {C : Type 0} where
  unfoldable pub restricted : PostgresDriver C → (read_only : Bool) → C → Result QueryError C
  restricted d true conn = or_raise (d.set_read_only conn) not_read_only
  restricted d false conn = ok conn

  -- `PostgresDatabase.__init__`; psycopg may not be installed.
  unfoldable pub new_postgres :
      (psycopg : Option (PostgresDriver C))
      → Credentials
      → (connect_timeout : ℕ) (read_only : Bool) → Result QueryError (Client C)
  unfolding restricted
  new_postgres psycopg credentials connect_timeout read_only = do
    d ← or_raise psycopg no_driver
    opened ← or_raise (d.connect credentials.dsn connect_timeout) could_not_open
    conn ← restricted d read_only opened
    ok (record { credentials = credentials; closed = false; conn = conn })

  unfoldable pub postgres_query :
      PostgresDriver C
      → (sql : Text) (params : List Json) → Client C
      → Result QueryError QueryResult × Client C
  unfolding given_params client_query
  postgres_query d sql params db = client_query (d.execute sql (given_params params)) db

  unfoldable pub postgres_close : PostgresDriver C → Client C → Client C
  unfolding client_close
  postgres_close d db = client_close d.close db
