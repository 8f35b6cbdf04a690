-- ===== src/Database/ReadOnly.antt =====
-- What a read-only `SqliteDatabase` keeps, over the behaviour that SQLite documents.
use sentinel_subnet.Base.Json.{Json}
use sentinel_subnet.Kbs.{Credentials}
use sentinel_subnet.Mcp.Query.{QueryResult}
use sentinel_subnet.Database.{
  Client, Cursor, QueryError, SqliteDriver, client_close, client_query, could_not_open, new_sqlite,
  read_only_authorizer, seeded, sqlite_close, sqlite_query,
}
use sentinel_subnet.Base.Result.{>>=-eq-ok, Result, ok, ok-injective, or_raise}
use sentinel_subnet.Base.Text.{Text, truthy}
use sentinel_subnet.Base.{
  Bool, Bool-cases, List, Option, [], all, any, ap, false, if◌then◌else◌, inl, inr, none, refl, sym,
  true, ℕ, ◌==◌, ◌∙◌, ◌∷◌, ◌≡◌,
}

-- An operation on an open database.
pub data Use : Type 0 where
  querying : (sql : Text) (params : List Json) → Use
  closing : Use

-- A test whose outcome is known.
if_true {ℓ} : {A : Type ℓ} (b : Bool) (x y : A) → b ≡ true → (if b then x else y) ≡ x
if_true b x y h = rw h refl

if_false {ℓ} : {A : Type ℓ} (b : Bool) (x y : A) → b ≡ false → (if b then x else y) ≡ y
if_false b x y h = rw h refl

unfoldable pub closes : Use → Bool
closes (querying sql params) = false
closes closing = true

module _ {C : Type 0} (d : SqliteDriver C) where
  unfoldable pub using : List Use → Client C → Client C
  unfolding sqlite_query sqlite_close
  using [] db = db
  using (querying sql params ∷ us) db = using us (sqlite_query d sql params db).1
  using (closing ∷ us) db = using us (sqlite_close d db)

  query-closed :
      (execute : C → Option Cursor × C) (db : Client C)
      → db.closed ≡ true
      → (client_query execute db).1 ≡ db
  unfolding client_query
  query-closed execute db closed =
      ap (λ (r : Result QueryError QueryResult × Client C). r.1) (if_true db.closed _ _ closed)

  close-closed : (db : Client C) → db.closed ≡ true → client_close d.close db ≡ db
  unfolding client_close
  close-closed db closed = if_true db.closed _ _ closed

  close-open : (db : Client C) → db.closed ≡ false → (sqlite_close d db).closed ≡ true
  unfolding sqlite_close client_close
  close-open db is_open = ap (λ (r : Client C). r.closed) (if_false db.closed _ _ is_open)

  using-closed : (us : List Use) (db : Client C) → db.closed ≡ true → using us db ≡ db
  unfolding using sqlite_query sqlite_close
  using-closed [] db closed = refl
  using-closed (querying sql params ∷ us) db closed =
      ap (using us) (query-closed (d.execute sql params) db closed) ∙ using-closed us db closed
  using-closed (closing ∷ us) db closed =
      ap (using us) (close-closed db closed) ∙ using-closed us db closed

  module _ (actions : Text → C → List ℕ)
      (denies : (allow : ℕ → Bool) (sql : Text) (params : List Json) (conn : C)
        → all allow (actions sql (d.set_authorizer allow conn)) ≡ false
        → d.execute sql params (d.set_authorizer allow conn) ≡ (none, d.set_authorizer allow conn))
      (reads : (sql : Text) (params : List Json) (conn : C)
        → all (λ a. any (λ b. a == b) (21 ∷ 20 ∷ 31 ∷ 33 ∷ [])) (actions sql conn) ≡ true
        → (d.execute sql params conn).1 ≡ conn) where
    query-keeps :
        (sql : Text) (params : List Json) (conn : C)
        → (d.execute sql params (d.set_authorizer read_only_authorizer conn)).1
          ≡ d.set_authorizer read_only_authorizer conn
    unfolding read_only_authorizer
    query-keeps sql params conn =
        elim (Bool-cases
          (all read_only_authorizer (actions sql (d.set_authorizer read_only_authorizer conn)))) [
            | inl permits ↦ reads sql params (d.set_authorizer read_only_authorizer conn) permits
            | inr forbids ↦
                ap (λ (r : Option Cursor × C). r.1)
                  (denies read_only_authorizer sql params conn forbids)
          ]

    query-open :
        (sql : Text) (params : List Json) (db : Client C) (conn : C)
        → db.closed ≡ false
        → db.conn ≡ d.set_authorizer read_only_authorizer conn
        → (sqlite_query d sql params db).1 ≡ db
    unfolding sqlite_query client_query
    query-open sql params db conn is_open on =
        ap (λ (r : Result QueryError QueryResult × Client C). r.1) (if_false db.closed _ _ is_open)
        ∙ ap (λ (c : C). record db { conn = c }) (rw on (query-keeps sql params conn))

    using-open :
        (us : List Use) (db : Client C) (seeded_conn : C)
        → db.closed ≡ false
        → db.conn ≡ d.set_authorizer read_only_authorizer seeded_conn
        → using us db ≡ (if any closes us then sqlite_close d db else db)
    unfolding using closes
    using-open [] db conn is_open on = refl
    using-open (querying sql params ∷ us) db conn is_open on =
        ap (using us) (query-open sql params db conn is_open on) ∙ using-open us db conn is_open on
    using-open (closing ∷ us) db conn is_open on =
        using-closed us (sqlite_close d db) (close-open db is_open)

    -- An SQLite whose authorizer is asked for every action of a statement, which refuses a statement with
    -- a forbidden action and changes nothing then, and whose statements that only select, read, call
    -- functions and recurse change nothing: a database that is opened read-only, seeded or not, is
    -- after any queries, whatever their SQL, what it was when it was opened, with its connection
    -- closed if it was closed between them.
    pub using-new_sqlite :
        (credentials : Credentials) (path : Text) (seed_sql : Option Text) (us : List Use)
        (db : Client C)
        → new_sqlite d credentials path seed_sql true ≡ ok db
        → using us db ≡ (if any closes us then sqlite_close d db else db)
    unfolding new_sqlite
    using-new_sqlite credentials path seed_sql us db made =
        let (opened, _, then_seeded) =
          >>=-eq-ok (or_raise (d.connect path) could_not_open) _ made in
        let (conn, _, then_made) = >>=-eq-ok (seeded d (truthy seed_sql) opened) _ then_seeded in
        using-open us db conn (ap (λ (r : Client C). r.closed) (sym (ok-injective then_made)))
          (ap (λ (r : Client C). r.conn) (sym (ok-injective then_made)))
