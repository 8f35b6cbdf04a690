-- ===== src/Scripts/Tools/Backed.antt =====
-- What is behind the tools that the loop over the scopes registers.
use mathlib.Core.Option.{some-injective}
use sentinel_subnet.Base.Json.{Json}
use sentinel_subnet.Kbs.{Credentials}
use sentinel_subnet.Enclave.{Enclave}
use sentinel_subnet.Mcp.Server.{McpServer, Tool, already_registered, register}
use sentinel_subnet.Serving.Handler.{ServeError}
use sentinel_subnet.Scripts.Scopes.{scope_tool}
use sentinel_subnet.Scripts.Silicon.{MinerError, no_database, tool_taken}
use sentinel_subnet.Scripts.Tools.{Backends, Opened, open_database, query_tool, unlock_scopes}
use sentinel_subnet.Base.Result.{
  >>=-eq-ok, Result, map_err, map_err-ok, ok, ok-injective, raise_if, raise_if-ok,
}
use sentinel_subnet.Base.Text.{Text, text_eq, text_eq_iff}
use sentinel_subnet.Base.Dict.{Dict, contains, lookup, lookup-insert, lookup-insert_self}
use sentinel_subnet.Base.{Bool-cases, Option, [], arith, inl, inr, some, subst, sym, ◌∙◌, ◌∷◌, ◌≡◌}

-- The tool of a scope queries a database that was opened with that scope's DSN.
pub Backed :
    {C D : Type 0}
    → Backends C D
    → (seed : Option Text) → (name dsn : Text) → McpServer Json
    → Type 0
Backed {C} {D} backends seed name dsn mcp =
    (db : Opened C D) × (open_database backends (record { dsn = dsn; resource = name }) seed
      ≡ ok db)
    × (lookup (scope_tool name) mcp.tools ≡ some (query_tool backends db name))

module _ {C D : Type 0} (backends : Backends C D) where
  -- A tool that is registered stays, since no other is registered under its name.
  register-keeps :
      (t : Tool Json) (mcp mcp' : McpServer Json) (name : Text) (kept : Tool Json)
      → register t mcp ≡ ok mcp'
      → lookup name mcp.tools ≡ some kept
      → lookup name mcp'.tools ≡ some kept
  unfolding register contains
  register-keeps t mcp mcp' name kept h known =
      let (u, free, made) =
        >>=-eq-ok (raise_if (contains t.name mcp.tools) already_registered) _ h in
      subst (λ (m : McpServer Json). lookup name m.tools ≡ some kept) (ok-injective made)
        (ground (
          arith,
          lookup-insert t.name name t mcp.tools,
          text_eq_iff t.name name,
          raise_if-ok (contains t.name mcp.tools) already_registered free,
          known,
        ))

  register-adds :
      (t : Tool Json) (mcp mcp' : McpServer Json)
      → register t mcp ≡ ok mcp'
      → lookup t.name mcp'.tools ≡ some t
  unfolding register
  register-adds t mcp mcp' h =
      let (u, free, made) =
        >>=-eq-ok (raise_if (contains t.name mcp.tools) already_registered) _ h in
      subst (λ (m : McpServer Json). lookup t.name m.tools ≡ some t) (ok-injective made)
        (lookup-insert_self t.name t mcp.tools)

  -- What one round of the loop went through.
  record Round {B : Type 0}
      (unlocking : Text
        → Enclave ServeError
        → B
        → Result MinerError Credentials × Enclave ServeError × B)
      (seed : Option Text) (name : Text) (scopes : Dict Text) (e : Enclave ServeError) (b : B)
      (mcp : McpServer Json) (done : Enclave ServeError × B × McpServer Json) : Type 0 where
    credentials : Credentials
    released : (unlocking name e b).0 ≡ ok credentials
    db : Opened C D
    opened : open_database backends credentials seed ≡ ok db
    next : McpServer Json
    registered : register (query_tool backends db name) mcp ≡ ok next
    others :
        unlock_scopes backends unlocking seed scopes
          (unlocking name e b).1
          (unlocking name e b).2
          next
        ≡ ok done

  module _ {B : Type 0}
      (unlocking : Text
        → Enclave ServeError
        → B
        → Result MinerError Credentials × Enclave ServeError × B)
      (seed : Option Text) where
    unlock_scopes-Round :
        (name dsn : Text) (scopes : Dict Text) (e : Enclave ServeError) (b : B)
        (mcp : McpServer Json) (done : Enclave ServeError × B × McpServer Json)
        → unlock_scopes backends unlocking seed ((name, dsn) ∷ scopes) e b mcp ≡ ok done
        → Round unlocking seed name scopes e b mcp done
    unfolding unlock_scopes
    unlock_scopes-Round name dsn scopes e b mcp done h =
        let (credentials, released, h₁) = >>=-eq-ok (unlocking name e b).0 _ h in
        let (db, opened, h₂) =
          >>=-eq-ok (map_err no_database (open_database backends credentials seed)) _ h₁ in
        let (next, registered, others) =
          >>=-eq-ok (map_err (λ failed. tool_taken) (register (query_tool backends db name) mcp)) _
            h₂ in
        record {
          credentials = credentials;
          released = released;
          db = db;
          opened = map_err-ok no_database _ opened;
          next = next;
          registered = map_err-ok (λ failed. tool_taken) _ registered;
          others = others;
        }

    unlock_scopes-keeps :
        (scopes : Dict Text) (e : Enclave ServeError) (b : B) (mcp : McpServer Json)
        (done : Enclave ServeError × B × McpServer Json) (name : Text) (kept : Tool Json)
        → unlock_scopes backends unlocking seed scopes e b mcp ≡ ok done
        → lookup name mcp.tools ≡ some kept
        → lookup name done.2.tools ≡ some kept
    unfolding unlock_scopes
    unlock_scopes-keeps [] e b mcp done name kept h known =
        subst (λ (r : Enclave ServeError × B × McpServer Json). lookup name r.2.tools ≡ some kept)
          (ok-injective h) known
    unlock_scopes-keeps ((scope, dsn) ∷ scopes) e b mcp done name kept h known =
        let r = unlock_scopes-Round scope dsn scopes e b mcp done h in
        unlock_scopes-keeps scopes _ _ r.next done name kept r.others
          (register-keeps (query_tool backends r.db scope) mcp r.next name kept r.registered known)

    module _ (secrets : B → Dict Credentials)
        (releases : (name : Text) (e : Enclave ServeError) (b : B) (credentials : Credentials)
          → (unlocking name e b).0 ≡ ok credentials
          → lookup name (secrets b) ≡ some credentials)
        (stores : (name : Text) (e : Enclave ServeError) (b : B)
          → secrets (unlocking name e b).2 ≡ secrets b) where
      pub unlock_scopes-Backed :
          (scopes : Dict Text) (e : Enclave ServeError) (b : B) (mcp : McpServer Json)
          (done : Enclave ServeError × B × McpServer Json) (name dsn secret : Text)
          → unlock_scopes backends unlocking seed scopes e b mcp ≡ ok done
          → lookup name scopes ≡ some dsn
          → lookup name (secrets b) ≡ some (record { dsn = secret; resource = name })
          → Backed backends seed name secret done.2
      unfolding unlock_scopes Backed query_tool
      unlock_scopes-Backed [] e b mcp done name dsn secret h listed stored = cc listed
      unlock_scopes-Backed ((scope, own) ∷ scopes) e b mcp done name dsn secret h listed stored =
          let r = unlock_scopes-Round scope own scopes e b mcp done h in
          elim (Bool-cases (text_eq scope name)) [
            | inl same ↦
                subst
                  (λ (n : Text).
                    lookup n (secrets b) ≡ some (record { dsn = secret; resource = n })
                    → Backed backends seed n secret done.2)
                  ((text_eq_iff scope name).0 same)
                  (λ stored_here. (
                    r.db,
                    subst (λ (c : Credentials). open_database backends c seed ≡ ok r.db)
                        (some-injective _ _
                          (sym (releases scope e b r.credentials r.released) ∙ stored_here))
                        r.opened,
                    unlock_scopes-keeps scopes _ _ r.next done (scope_tool scope)
                        (query_tool backends r.db scope) r.others
                        (register-adds (query_tool backends r.db scope) mcp r.next r.registered),
                  ))
                  stored
            | inr other ↦
                unlock_scopes-Backed scopes _ _ r.next done name dsn secret r.others
                  (ground (arith, listed, other)) (rw (stores scope e b) stored)
          ]
