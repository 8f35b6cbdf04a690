-- ===== src/Mcp/Query.antt =====
-- `PostgresQueryTool.call` (sentinel/mcp/tools/postgres.py), over a database that answers or raises
-- `QueryError`.
use sentinel_subnet.Base.Json.{
  Fields, Items, Json, arr, bool, cons, end, float, int, nil, null, obj, str,
}
use sentinel_subnet.Registry.{get}
use sentinel_subnet.Mcp.Keyword.{first_keyword}
use sentinel_subnet.Mcp.Server.{ToolError, bad_params, no_sql, query_failed, read_only}
use sentinel_subnet.Base.Result.{
  >>=-eq-ok, Result, err, ok, ok-injective, or_raise, or_raise-ok, raise_if, raise_if-ok, ◌>>=◌,
  ◌>>◌,
}
use sentinel_subnet.Base.Text.{Text, codes, member, strip, text_eq}
use sentinel_subnet.Base.Int.{eq_ℤ, pos}
use sentinel_subnet.Base.{
  Bool, Bool-cases, List, Option, [], ap, arith, false, if◌then◌else◌, inl, inr, length,
  length-take, ltb, none, not, refl, some, subst, suc, take, true, zero, ℕ, ◌&&◌, ◌++◌, ◌∷◌, ◌≡◌,
  ◌≢◌, ◌≤◌,
}

-- sentinel/database.py
pub record QueryResult : Type 0 where
  pub columns : List Text
  pub rows : List (List Json)

-- What `to_dict` gives, with `truncated` where it is set.
pub record Payload : Type 0 where
  pub columns : List Text
  pub rows : List (List Json)
  pub row_count : ℕ
  pub truncated : Bool

pub record PostgresQueryTool : Type 0 where
  pub query : (sql : Text) (params : List Json) → Option QueryResult
  pub allow_writes : Bool
  pub max_rows : ℕ

-- The name under which a tool with that scope is registered, `PostgresQueryTool.__init__`.
unfoldable pub tool_name : Option Text → Text
tool_name (some (k ∷ s)) = (k ∷ s) ++ codes ".query"
tool_name _ = codes "postgres.query"

-- `_WRITE_PREFIXES`
abbrev pub write_prefixes : List Text
write_prefixes =
    codes "insert"
    ∷ codes "update"
    ∷ codes "delete"
    ∷ codes "drop"
    ∷ codes "truncate"
    ∷ codes "alter"
    ∷ codes "create"
    ∷ codes "grant"
    ∷ codes "revoke"
    ∷ codes "copy"
    ∷ codes "call"
    ∷ codes "do"
    ∷ []

-- A text that is not blank.
unfoldable pub sql_of : Option Json → Result ToolError Text
unfolding strip
sql_of (some (str s)) = elim (strip s) [ [] ↦ err no_sql | k ∷ t ↦ ok s ]
sql_of _ = err no_sql

unfoldable pub items_list : Items → List Json
items_list nil = []
items_list (cons x xs) = x ∷ items_list xs

-- `arguments.get("params") or ()`, which has to be a list: values that count as false are no parameters.
unfoldable pub params_of : Option Json → Result ToolError (List Json)
unfolding items_list member
params_of none = ok []
params_of (some null) = ok []
params_of (some (bool b)) = if b then err bad_params else ok []
params_of (some (int n)) = if eq_ℤ n (pos 0) then ok [] else err bad_params
params_of (some (float t)) =
    if member t (codes "0.0" ∷ codes "-0.0" ∷ []) then ok [] else err bad_params
params_of (some (str [])) = ok []
params_of (some (arr xs)) = ok (items_list xs)
params_of (some (obj end)) = ok []
params_of _ = err bad_params

unfoldable pub limited : (max_rows : ℕ) → QueryResult → Payload
limited max_rows r =
    if ltb max_rows (length r.rows)
    then record {
      columns = r.columns;
      rows = take max_rows r.rows;
      row_count = length (take max_rows r.rows);
      truncated = true;
    }
    else record { columns = r.columns; rows = r.rows; row_count = length r.rows; truncated = false }

unfoldable pub call_query : PostgresQueryTool → Fields → Result ToolError Payload
unfolding get sql_of params_of first_keyword member limited
call_query t arguments = do
  sql ← sql_of (get (codes "sql") arguments)
  params ← params_of (get (codes "params") arguments)
  raise_if (not t.allow_writes && member (first_keyword sql) write_prefixes) read_only
  result ← or_raise (t.query sql params) query_failed
  ok (limited t.max_rows result)

-- The first words of a statement that writes, in lower case.
pub data Writes : Text → Type 0 where
  inserts : Writes (codes "insert")
  updates : Writes (codes "update")
  deletes : Writes (codes "delete")
  drops : Writes (codes "drop")
  truncates : Writes (codes "truncate")
  alters : Writes (codes "alter")
  creates : Writes (codes "create")
  grants : Writes (codes "grant")
  revokes : Writes (codes "revoke")
  copies : Writes (codes "copy")
  calls : Writes (codes "call")
  does : Writes (codes "do")

Writes-listed : (k : Text) → Writes k → member k write_prefixes ≡ true
unfolding member text_eq
Writes-listed _ inserts = refl
Writes-listed _ updates = refl
Writes-listed _ deletes = refl
Writes-listed _ drops = refl
Writes-listed _ truncates = refl
Writes-listed _ alters = refl
Writes-listed _ creates = refl
Writes-listed _ grants = refl
Writes-listed _ revokes = refl
Writes-listed _ copies = refl
Writes-listed _ calls = refl
Writes-listed _ does = refl

-- How an answer came about.
pub record Answered (t : PostgresQueryTool) (arguments : Fields) (p : Payload) : Type 0 where
  pub sql : Text
  pub given : get (codes "sql") arguments ≡ some (str sql)
  pub not_blank : strip sql ≢ []
  pub params : List Json
  pub params_given : params_of (get (codes "params") arguments) ≡ ok params
  pub reads : t.allow_writes ≡ false → ¬ Writes (first_keyword sql)
  pub result : QueryResult
  pub queried : t.query sql params ≡ some result
  pub columns_kept : p.columns ≡ result.columns
  pub first_rows : p.rows ≡ take t.max_rows result.rows
  pub within : length p.rows ≤ t.max_rows
  pub counted : p.row_count ≡ length p.rows
  pub told : p.truncated ≡ ltb t.max_rows (length result.rows)

sql_of-ok : (j : Option Json) (s : Text) → sql_of j ≡ ok s → (j ≡ some (str s)) × (strip s ≢ [])
unfolding sql_of
sql_of-ok (some (str t)) s h =
    let (same, more) = taken (strip t) h in
    (ap (λ r. some (str r)) same, subst (λ r. strip r ≢ []) same more)
  where
    taken : (k : Text) → elim k [ [] ↦ err no_sql | c ∷ r ↦ ok t ] ≡ ok s → (t ≡ s) × (k ≢ [])
    taken [] e = cc e
    taken (c ∷ r) e = (ok-injective e, λ empty. cc empty)
sql_of-ok _ s h = cc h

take-all : (n : ℕ) (rows : List (List Json)) → length rows ≤ n → rows ≡ take n rows
take-all zero [] h = refl
take-all (suc n) [] h = refl
take-all zero (r ∷ rows) h = absurd (omega arith)
take-all (suc n) (r ∷ rows) h = ap (λ t. r ∷ t) (take-all n rows (omega arith))

limited_lem :
    (n : ℕ) (r : QueryResult)
    → ((limited n r).columns ≡ r.columns)
      × ((limited n r).rows ≡ take n r.rows)
      × (length (limited n r).rows ≤ n)
      × ((limited n r).row_count ≡ length (limited n r).rows)
      × ((limited n r).truncated ≡ ltb n (length r.rows))
unfolding limited
limited_lem n r = elim (Bool-cases (ltb n (length r.rows))) [
  | inl more ↦ rw more (refl, refl, omega (arith, length-take n r.rows), refl, refl)
  | inr fits ↦
      let few : length r.rows ≤ n = ground arith in
      rw fits (refl, take-all n r.rows few, few, refl, refl)
]

-- A tool answers only a request with a text of SQL that is not blank and a list of parameters; without
-- leave to write, the first keyword that the code finds in it is none of the twelve that write; the
-- answer has
-- the first rows of what the database gave, at most as many as the limit, counted, and says whether
-- rows were left out.
pub call_query-Answered :
    (t : PostgresQueryTool) (arguments : Fields) (p : Payload)
    → call_query t arguments ≡ ok p
    → Answered t arguments p
unfolding call_query
call_query-Answered t arguments p h =
    let (sql, given, h₁) = >>=-eq-ok (sql_of (get (codes "sql") arguments)) _ h in
    let (params, params_given, h₂) = >>=-eq-ok (params_of (get (codes "params") arguments)) _ h₁ in
    let (u, allowed, h₃) =
      >>=-eq-ok
        (raise_if (not t.allow_writes && member (first_keyword sql) write_prefixes) read_only) _
        h₂ in
    let (result, queried, made) = >>=-eq-ok (or_raise (t.query sql params) query_failed) _ h₃ in
    let (columns, rows, within, counted, told) = limited_lem t.max_rows result in
    subst (Answered t arguments) (ok-injective made) (record {
      sql = sql;
      given = (sql_of-ok (get (codes "sql") arguments) sql given).0;
      not_blank = (sql_of-ok (get (codes "sql") arguments) sql given).1;
      params = params;
      params_given = params_given;
      reads = λ no_leave writes.
          let listed = Writes-listed (first_keyword sql) writes in
          ground (arith, raise_if-ok _ read_only allowed, no_leave, listed);
      result = result;
      queried = or_raise-ok _ query_failed queried;
      columns_kept = columns;
      first_rows = rows;
      within = within;
      counted = counted;
      told = told;
    })
