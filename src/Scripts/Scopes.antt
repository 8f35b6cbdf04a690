-- ===== src/Scripts/Scopes.antt =====
-- `parse_scopes` of scripts/run_broker.py and of scripts/run_miner.py.
use sentinel_subnet.Registry.Manifest.{cut}
use sentinel_subnet.Serving.Handler.{before_dot, tool_allowed}
use sentinel_subnet.Mcp.Query.{tool_name}
use sentinel_subnet.Base.Result.{
  >>=-eq-ok, Result, err, ok, ok-injective, or_raise, raise_if, raise_if-ok, ◌>>=◌, ◌>>◌,
}
use sentinel_subnet.Base.Text.{Text, codes, is_empty, member, strip, text_eq, text_eq_ne}
use sentinel_subnet.Base.Dict.{Dict, IsDict, contains, insert, insert-IsDict, lookup}
use sentinel_subnet.Base.{
  All, Bool, Bool-cases, List, [], all, any, arith, false, if◌then◌else◌, inl, inr, is_some, none,
  refl, some, subst, true, ◌++◌, ◌==◌, ◌||◌, ◌∷◌, ◌≡◌, ◌≢◌,
}

-- The messages of `SystemExit`.
pub data ScopeError : Type 0 where
  no_scope not_name_dsn carries_dsn no_name has_dot given_twice : ScopeError

-- `NAME=DSN`: the two texts without white space around them, neither of them empty.
unfoldable pub name_dsn : Text → Result ScopeError (Text × Text)
unfolding cut strip
name_dsn entry = do
  parts ← or_raise (cut entry) not_name_dsn
  raise_if (is_empty (strip parts.0) || is_empty (strip parts.1)) not_name_dsn
  ok (strip parts.0, strip parts.1)

-- The loop of run_broker.py's `parse_scopes`.
unfoldable pub broker_scopes_from : Dict Text → List Text → Result ScopeError (Dict Text)
unfolding name_dsn contains insert
broker_scopes_from scopes [] = ok scopes
broker_scopes_from scopes (entry ∷ entries) = do
  scope ← name_dsn entry
  raise_if (contains scope.0 scopes) given_twice
  broker_scopes_from (insert scope.0 scope.1 scopes) entries

unfoldable pub broker_scopes : List Text → Result ScopeError (Dict Text)
unfolding broker_scopes_from
broker_scopes [] = err no_scope
broker_scopes (entry ∷ entries) = broker_scopes_from [] (entry ∷ entries)

abbrev pub default_resource : Text
default_resource = codes "customer-db"

-- With a broker elsewhere an entry is a name alone.
unfoldable pub bare_name : Text → Result ScopeError (Text × Text)
unfolding cut strip
bare_name entry = do
  raise_if (is_some (cut entry)) carries_dsn
  raise_if (is_empty (strip entry)) no_name
  ok (strip entry, [])

unfoldable pub miner_entry : (remote : Bool) → Text → Result ScopeError (Text × Text)
unfolding bare_name name_dsn
miner_entry true entry = bare_name entry
miner_entry false entry = name_dsn entry

-- The loop of run_miner.py's `parse_scopes`.
unfoldable pub miner_scopes_from :
    (remote : Bool) → Dict Text → List Text → Result ScopeError (Dict Text)
unfolding miner_entry contains insert
miner_scopes_from remote scopes [] = ok scopes
miner_scopes_from remote scopes (entry ∷ entries) = do
  scope ← miner_entry remote entry
  raise_if (any (λ k. k == b'.') scope.0) has_dot
  raise_if (contains scope.0 scopes) given_twice
  miner_scopes_from remote (insert scope.0 scope.1 scopes) entries

unfoldable pub miner_scopes :
    (remote : Bool) (dsn : Text) → List Text → Result ScopeError (Dict Text)
unfolding miner_scopes_from
miner_scopes remote dsn [] = ok ((default_resource, if remote then [] else dsn) ∷ [])
miner_scopes remote dsn (entry ∷ entries) = miner_scopes_from remote [] (entry ∷ entries)

-- The name of the tool that `build_miner` registers for a scope.
unfoldable pub scope_tool : (name : Text) → Text
unfolding tool_name text_eq
scope_tool name = tool_name (if text_eq name default_resource then none else some name)

-- What each scope of a miner has to be.
pub record IsScope (remote : Bool) (scope : Text × Text) : Type 0 where
  pub named : is_empty scope.0 ≡ false
  pub undotted : any (λ k. k == b'.') scope.0 ≡ false
  pub custody : is_empty scope.1 ≡ remote

absent {ℓ} : {V : Type ℓ} (k : Text) (d : Dict V) → contains k d ≡ false → lookup k d ≡ none
unfolding contains
absent k d h = ground arith

bare_name-ok :
    (entry : Text) (scope : Text × Text)
    → bare_name entry ≡ ok scope
    → (is_empty scope.0 ≡ false) × (is_empty scope.1 ≡ true)
unfolding bare_name
bare_name-ok entry scope h =
    let (u, alone, h₁) = >>=-eq-ok (raise_if (is_some (cut entry)) carries_dsn) _ h in
    let (v, named, made) = >>=-eq-ok (raise_if (is_empty (strip entry)) no_name) _ h₁ in
    subst (λ (e : Text × Text). (is_empty e.0 ≡ false) × (is_empty e.1 ≡ true)) (ok-injective made)
      (raise_if-ok _ no_name named, refl)

name_dsn-ok :
    (entry : Text) (scope : Text × Text)
    → name_dsn entry ≡ ok scope
    → (is_empty scope.0 ≡ false) × (is_empty scope.1 ≡ false)
unfolding name_dsn
name_dsn-ok entry scope h =
    let (parts, split, h₁) = >>=-eq-ok (or_raise (cut entry) not_name_dsn) _ h in
    let (u, whole, made) =
      >>=-eq-ok (raise_if (is_empty (strip parts.0) || is_empty (strip parts.1)) not_name_dsn) _
        h₁ in
    let filled = raise_if-ok _ not_name_dsn whole in
    subst (λ (e : Text × Text). (is_empty e.0 ≡ false) × (is_empty e.1 ≡ false)) (ok-injective made)
      (ground arith, ground arith)

miner_entry-ok :
    (remote : Bool) (entry : Text) (scope : Text × Text)
    → miner_entry remote entry ≡ ok scope
    → (is_empty scope.0 ≡ false) × (is_empty scope.1 ≡ remote)
unfolding miner_entry
miner_entry-ok true entry scope h = bare_name-ok entry scope h
miner_entry-ok false entry scope h = name_dsn-ok entry scope h

insert-All {κ} :
    (P : Text × Text → Type κ) (k v : Text) (d : Dict Text)
    → lookup k d ≡ none
    → P (k, v)
    → All P d
    → All P (insert k v d)
unfolding insert lookup
insert-All P k v [] fresh p all = (p, tt)
insert-All P k v ((j, w) ∷ d) fresh p all = elim (Bool-cases (text_eq j k)) [
  | inl e ↦ cc (rw e at fresh)
  | inr ne ↦ rw ne (all.0, insert-All P k v d (rw ne at fresh) p all.1)
]

miner_scopes_from-IsScope :
    (remote : Bool) (scopes : Dict Text) (entries : List Text) (parsed : Dict Text)
    → IsDict scopes
    → All (IsScope remote) scopes
    → miner_scopes_from remote scopes entries ≡ ok parsed
    → IsDict parsed × All (IsScope remote) parsed
unfolding miner_scopes_from
miner_scopes_from-IsScope remote scopes [] parsed d good h =
    subst (λ (e : Dict Text). IsDict e × All (IsScope remote) e) (ok-injective h) (d, good)
miner_scopes_from-IsScope remote scopes (entry ∷ entries) parsed d good h =
    let (scope, read, h₁) = >>=-eq-ok (miner_entry remote entry) _ h in
    let (u, plain, h₂) = >>=-eq-ok (raise_if (any (λ k. k == b'.') scope.0) has_dot) _ h₁ in
    let (v, fresh, h₃) = >>=-eq-ok (raise_if (contains scope.0 scopes) given_twice) _ h₂ in
    let (named, custody) = miner_entry-ok remote entry scope read in
    let next : IsScope remote scope = record {
      named = named;
      undotted = raise_if-ok _ has_dot plain;
      custody = custody;
    } in
    miner_scopes_from-IsScope remote (insert scope.0 scope.1 scopes) entries parsed
      (insert-IsDict scope.0 scope.1 scopes d)
      (insert-All (IsScope remote) scope.0 scope.1 scopes
        (absent scope.0 scopes (raise_if-ok _ given_twice fresh)) next good)
      h₃

-- Scopes given on a miner's command line are told apart by name, none has an empty name or one with a
-- dot, and the host holds a DSN for each, or, with a broker elsewhere, for none.
pub miner_scopes-IsScope :
    (remote : Bool) (dsn entry : Text) (entries : List Text) (parsed : Dict Text)
    → miner_scopes remote dsn (entry ∷ entries) ≡ ok parsed
    → IsDict parsed × All (IsScope remote) parsed
unfolding miner_scopes
miner_scopes-IsScope remote dsn entry entries parsed h =
    miner_scopes_from-IsScope remote [] (entry ∷ entries) parsed (tt) (tt) h

before_dot-tool :
    (name : Text)
    → any (λ k. k == b'.') name ≡ false
    → before_dot (name ++ codes ".query") ≡ some name
unfolding before_dot
before_dot-tool [] plain = refl
before_dot-tool (k ∷ s) plain = ground (arith, before_dot-tool s)

-- A scope's tool is reachable by exactly the keys that list the scope: no other scope's name stands in
-- front of the tool's first dot. For a scope with a name that is parsed and is not the default one.
pub tool_allowed-scope_tool :
    (remote : Bool) (scope : Text × Text) (scopes : List Text)
    → IsScope remote scope
    → scope.0 ≢ default_resource
    → tool_allowed (scope_tool scope.0) (some scopes) ≡ member scope.0 scopes
unfolding tool_allowed scope_tool
tool_allowed-scope_tool remote ([], dsn) scopes good named = cc good.named
tool_allowed-scope_tool remote (k ∷ s, dsn) scopes good named =
    let cut_off = before_dot-tool (k ∷ s) good.undotted in
    rw (text_eq_ne (k ∷ s) default_resource named) (ground (arith, cut_off))
