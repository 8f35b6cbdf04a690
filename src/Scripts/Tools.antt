-- ===== src/Scripts/Tools.antt =====
-- From a credential to a tool: `open_database` of scripts/run_miner.py and the loop of `build_miner` over
-- the scopes. The drivers of databases are arguments.
pub mod Backed
use sentinel_subnet.Base.Json.{Fields, Json}
use sentinel_subnet.Kbs.{Credentials}
use sentinel_subnet.Enclave.{Enclave}
use sentinel_subnet.Mcp.Server.{McpServer, Tool, ToolError, register}
use sentinel_subnet.Serving.Handler.{ServeError}
use sentinel_subnet.Remote.Client.{lstrip_slash}
use sentinel_subnet.Database.{
  Client, PostgresDriver, QueryError, SqliteDriver, default_connect_timeout, new_postgres,
  new_sqlite,
}
use sentinel_subnet.Scripts.Scopes.{default_resource, scope_tool}
use sentinel_subnet.Scripts.Silicon.{MinerError, no_database, tool_taken}
use sentinel_subnet.Base.Result.{Result, map_err, map_ok, ok, ◌>>=◌, ◌>>◌}
use sentinel_subnet.Base.Text.{Text, codes, starts_with, text_eq, truthy}
use sentinel_subnet.Base.Dict.{Dict}
use sentinel_subnet.Base.{
  Bool, Option, [], drop, given_or, if◌then◌else◌, none, some, true, ◌||◌, ◌∷◌,
}

-- A database that is open.
pub data Opened (C D : Type 0) : Type 0 where
  sqlite : Client C → Opened C D
  postgres : Client D → Opened C D

-- The drivers, and the parts of `PostgresQueryTool` that are over an open database: its call, which is
-- Mcp.Query's with the answers of that database, and its description and schema.
pub record Backends (C D : Type 0) : Type 0 where
  pub sqlite_driver : SqliteDriver C
  pub psycopg : Option (PostgresDriver D)
  pub tool_call : Opened C D → Fields → Result ToolError Json
  pub description : Option Text → Text
  pub input_schema : Json

unfoldable pub is_postgres : (dsn : Text) → Bool
unfolding starts_with
is_postgres dsn = starts_with dsn (codes "postgres://") || starts_with dsn (codes "postgresql://")

-- `sqlite:///relative.db` and `sqlite:////absolute.db`
unfoldable pub sqlite_path : (dsn : Text) → Text
unfolding starts_with lstrip_slash truthy
sqlite_path dsn =
    let rest = if starts_with dsn (codes "sqlite://") then drop 9 dsn else dsn in
    let path = if starts_with rest (codes "//") then drop 1 rest else lstrip_slash rest in
    given_or (truthy (some path)) (codes ":memory:")

module _ {C D : Type 0} (backends : Backends C D) where
  unfoldable pub open_database : Credentials → (seed : Option Text) → Result QueryError (Opened C D)
  unfolding is_postgres new_postgres sqlite_path new_sqlite
  open_database credentials seed =
      if is_postgres credentials.dsn
      then map_ok postgres (new_postgres backends.psycopg credentials default_connect_timeout true)
      else map_ok sqlite
          (new_sqlite backends.sqlite_driver credentials (sqlite_path credentials.dsn) seed true)

  -- `PostgresQueryTool(db, scope=None if name == RESOURCE else name)`
  unfoldable pub query_tool : Opened C D → (name : Text) → Tool Json
  unfolding scope_tool text_eq
  query_tool db name = record {
    name = scope_tool name;
    description = backends.description (if text_eq name default_resource then none else some name);
    input_schema = backends.input_schema;
    call = backends.tool_call db;
  }

  -- The loop over the scopes. `B` is the broker's state, or the world that a remote broker is in.
  unfoldable pub unlock_scopes :
      {B : Type 0}
      → (unlocking : Text
          → Enclave ServeError
          → B
          → Result MinerError Credentials × Enclave ServeError × B)
      → (seed : Option Text) → (scopes : Dict Text) → Enclave ServeError
      → B
      → McpServer Json
      → Result MinerError (Enclave ServeError × B × McpServer Json)
  unfolding open_database query_tool register
  unlock_scopes unlocking seed [] e b mcp = ok (e, b, mcp)
  unlock_scopes unlocking seed ((name, dsn) ∷ scopes) e b mcp = do
    let unlocked = unlocking name e b
    credentials ← unlocked.0
    db ← map_err no_database (open_database credentials seed)
    mcp' ← map_err (λ failed. tool_taken) (register (query_tool db name) mcp)
    unlock_scopes unlocking seed scopes unlocked.1 unlocked.2 mcp'
