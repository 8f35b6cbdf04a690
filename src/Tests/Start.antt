-- ===== src/Tests/Start.antt =====
-- The theorems about a miner's start and its database at concrete inputs.
use mathlib.Core.List.{Memᴰ}
use sentinel_subnet.Attestation.{
  approved_set, attest, bind_response, canonical, non_empty, normalised, unsigned, verify,
}
use sentinel_subnet.Base.Json.{
  Json, dump_fields, dumps, insert_sorted, int, null, print_entries, print_int, text_leb,
}
use sentinel_subnet.Kbs.{
  Credentials, as_release_error, challenge, expire_nonces, looks_like_sevsnp, release,
  release_binding, release_checks, store_secret, trust_chip, verify_proof, verify_registered_key,
}
use sentinel_subnet.Enclave.{keep_credentials, unlock}
use sentinel_subnet.Mcp.Server.{Tool, register}
use sentinel_subnet.Mcp.Query.{tool_name}
use sentinel_subnet.Serving.Handler.{MinerHandler, by_hotkey}
use sentinel_subnet.Remote.Client.{ClientRuntime, lstrip_slash, unreachable}
use sentinel_subnet.Database.{
  Client, Cursor, SqliteDriver, new_sqlite, read_only_authorizer, seeded, sqlite_close,
}
use sentinel_subnet.Database.ReadOnly.{Use, closes, closing, querying, using, using-new_sqlite}
use sentinel_subnet.Chain.Discovery.{Neuron, no_axon, validator_hotkeys}
use sentinel_subnet.Scripts.Scopes.{
  miner_entry, miner_scopes, miner_scopes_from, name_dsn, scope_tool,
}
use sentinel_subnet.Scripts.Broker.{empty_broker, store_all}
use sentinel_subnet.Scripts.Allowlist.{
  AllowArgs, met, refreshed, resolve_allowlist, with_validators, writes,
}
use sentinel_subnet.Scripts.Allowlist.Admitted.{by_hotkey-resolve, held, justified}
use sentinel_subnet.Base.Json.Escape.{escape_char, escape_other, escaped, quoted}
use sentinel_subnet.Scripts.Silicon.{Chip, Chips, MinerError, mock_chip, open_silicon}
use sentinel_subnet.Scripts.Tools.{
  Backends, is_postgres, open_database, query_tool, sqlite_path, unlock_scopes,
}
use sentinel_subnet.Scripts.Tools.Backed.{Backed}
use sentinel_subnet.Scripts.Miner.{
  MinerArgs, build_miner, build_own, load_keys, miner_policy, new_enclave, own_broker, served,
  unlock_own,
}
use sentinel_subnet.Scripts.Miner.Wired.{build_miner-Backed}
use sentinel_subnet.Tests.Fixtures.{no_kds, pki, plain_crypto}
use sentinel_subnet.Tests.Broker.{platform}
use sentinel_subnet.Registry.Manifest.{cut}
use sentinel_subnet.Scripts.Miner.Main.{
  MainArgs, Running, check_args, main, miner_args, served_hotkey, serves,
}
use sentinel_subnet.Scripts.Miner.Main.Published.{Serves, main-Serves}
use sentinel_subnet.Base.Result.{Result, ok}
use sentinel_subnet.Base.Text.{
  Text, codes, is_space, lower, lower_char, lstrip, member, starts_with, strip, text_eq, truthy,
}
use sentinel_subnet.Base.Dict.{contains, erase, insert, lookup, retain}
use sentinel_subnet.Base.Int.{ltb_ℤ, pos}
use sentinel_subnet.Base.Decimal.{decimal, digits_before}
use sentinel_subnet.Base.{
  Bool, Bool-cases, List, Option, [], all, any, false, if◌then◌else◌, inl, inr, none, refl, select,
  some, suc, true, ℕ, ◌++◌, ◌==◌, ◌∷◌, ◌≡◌, ◌⊎◌,
}

-- An SQL engine that counts what was inserted and asks its authorizer first.
abbrev Conn : Type 0
Conn = (ℕ → Bool) × ℕ

abbrev is_select : Text → Bool
is_select sql = text_eq sql (codes "SELECT 1")

abbrev actions : Text → Conn → List ℕ
actions sql conn = if is_select sql then 21 ∷ [] else 18 ∷ []

abbrev run_sql : (allowed select : Bool) → Conn → Option Cursor × Conn
run_sql false select conn = (none, conn)
run_sql true true conn = (some (some (codes "1" ∷ [], (int (pos 1) ∷ []) ∷ [])), conn)
run_sql true false (allow, count) = (some none, (allow, suc count))

abbrev engine : SqliteDriver Conn
engine = record {
  connect = λ path. some ((λ a. true), 0);
  executescript = λ seed conn. some (conn.0, 5);
  set_authorizer = λ allow conn. (allow, conn.1);
  execute = λ sql params conn. run_sql (all conn.0 (actions sql conn)) (is_select sql) conn;
  close = λ conn. conn;
}

engine_denies :
    (allow : ℕ → Bool) (sql : Text) (params : List Json) (conn : Conn)
    → all allow (actions sql (engine.set_authorizer allow conn)) ≡ false
    → engine.execute sql params (engine.set_authorizer allow conn)
      ≡ (none, engine.set_authorizer allow conn)
engine_denies allow sql params conn h = rw h refl

run_select : (allowed : Bool) (conn : Conn) → (run_sql allowed true conn).1 ≡ conn
run_select false conn = refl
run_select true conn = refl

engine_reads :
    (sql : Text) (params : List Json) (conn : Conn)
    → all (λ a. any (λ b. a == b) (21 ∷ 20 ∷ 31 ∷ 33 ∷ [])) (actions sql conn) ≡ true
    → (engine.execute sql params conn).1 ≡ conn
engine_reads sql params conn h = elim (Bool-cases (is_select sql)) [
  | inl reads ↦ rw reads (run_select _ conn)
  | inr writes ↦ absurd (cc (rw writes at h))
]

abbrev credentials : Credentials
credentials = record { dsn = codes "sqlite:///x.db"; resource = codes "db" }

abbrev seeded_db : Client Conn
seeded_db = record { credentials = credentials; closed = false; conn = (read_only_authorizer, 5) }

abbrev uses : List Use
uses = querying (codes "INSERT 1") [] ∷ querying (codes "SELECT 1") [] ∷ closing ∷ []

made : new_sqlite engine credentials (codes "x.db") (some (codes "seed")) true ≡ ok seeded_db
unfolding new_sqlite truthy seeded
made = refl

using-new_sqlite_example :
    using engine uses seeded_db
    ≡ (if any closes uses then sqlite_close engine seeded_db else seeded_db)
unfolding text_eq
using-new_sqlite_example =
    using-new_sqlite engine actions engine_denies engine_reads credentials (codes "x.db")
      (some (codes "seed")) uses seeded_db made

-- A mock chip, and the miner that starts on it with one scope.
abbrev chip : Chip
chip = record {
  silicon = record { chip_id = codes "chip"; sign = λ m. ok (codes "key" ++ m) };
  certificates = none;
  measurement = [];
  public_key_hex = codes "key";
}

abbrev chips : Chips
chips = record { guest = none; fresh = chip; from_seed = λ seed chip_id. chip }

abbrev backends : Backends Conn Conn
backends = record {
  sqlite_driver = engine;
  psycopg = none;
  tool_call = λ db arguments. ok null;
  description = λ scope. codes "query";
  input_schema = null;
}

abbrev allow : AllowArgs
allow = record { allow_any = false; allow_hotkey = codes "5A" ∷ []; no_allow_validators = false }

abbrev validator : Neuron
validator = record { uid = 1; hotkey = codes "5V"; axon = no_axon; validator_permit = true }

abbrev args : MinerArgs
args = record {
  allow_mock = true;
  mock_chip_seed = none;
  broker_url = none;
  broker_insecure = false;
  measurement = codes "ab";
  product = codes "Milan";
  dsn = [];
  scope = codes "db=sqlite:///x.db" ∷ [];
  seed = some (codes "seed");
  api_keys = none;
  allow = allow;
}

abbrev tool : Tool Json
tool = record {
  name = codes "db.query";
  description = codes "query";
  input_schema = null;
  call = λ arguments. ok null;
}

abbrev handler : MinerHandler
handler = record {
  enclave = record {
    agent = record { silicon = chip.silicon; launch_measurement = codes "ab"; tcb_level = pos 7 };
    certificates = none;
    credentials = (codes "db", credentials) ∷ [];
  };
  mcp = record { tools = (codes "db.query", tool) ∷ [] };
  allowed_hotkeys = some (codes "5A" ∷ codes "5V" ∷ []);
  api_keys = none;
  hotkey_ss58 = codes "5M";
  attestation_error = none;
}

abbrev client_rt : ClientRuntime
client_rt = record { loads = λ body. none; dumps = λ j. []; b64encode = λ b. b; str_of = λ j. [] }

abbrev start : Result MinerError MinerHandler
start =
    build_miner pki no_kds platform client_rt (λ url path body w. (unreachable, w)) backends chips
      args (codes "5M") (some (validator ∷ [])) (λ file. none)
      (λ name. record { now = 10; later = 20; nonce = codes "n1" }) tt

started : start ≡ ok handler
unfolding build_miner open_silicon mock_chip build_own miner_scopes miner_scopes_from miner_entry
    name_dsn cut own_broker empty_broker miner_policy trust_chip store_all store_secret unlock_own
    unlock challenge attest unsigned keep_credentials unlock_scopes open_database is_postgres
    sqlite_path lstrip_slash starts_with new_sqlite seeded query_tool scope_tool tool_name register
    new_enclave served load_keys resolve_allowlist with_validators validator_hotkeys truthy release
    release_checks verify_proof verify_registered_key looks_like_sevsnp release_binding
    bind_response as_release_error verify canonical dumps dump_fields lookup contains retain erase
    insert expire_nonces text_eq member approved_set normalised non_empty strip lstrip lower
    lower_char is_space ltb_ℤ quoted escaped escape_char escape_other decimal digits_before
    print_int print_entries insert_sorted text_leb
started = refl

listed_scopes :
    miner_scopes false args.dsn args.scope ≡ ok ((codes "db", codes "sqlite:///x.db") ∷ [])
unfolding miner_scopes miner_scopes_from miner_entry name_dsn cut contains insert strip lstrip
    is_space lookup
listed_scopes = refl

build_miner-Backed_example :
    Backed backends args.seed (codes "db") (codes "sqlite:///x.db") handler.mcp
    × ((c : Chip) × (real : Bool) × (open_silicon chips args.allow_mock args.mock_chip_seed
          ≡ ok (c, real))
        × ((real ≡ false) ⊎ (c.measurement ≡ args.measurement)))
unfolding truthy lookup text_eq
build_miner-Backed_example =
    build_miner-Backed pki no_kds platform client_rt (λ url path body w. (unreachable, w)) backends
      chips args (codes "5M") (some (validator ∷ [])) (λ file. none)
      (λ name. record { now = 10; later = 20; nonce = codes "n1" }) tt handler
      ((codes "db", codes "sqlite:///x.db") ∷ []) (codes "db") (codes "sqlite:///x.db") started refl
      listed_scopes refl

abbrev command_line : MainArgs
command_line = record {
  miner = args;
  measurement = some args.measurement;
  no_seed = false;
  no_chain = false;
  advertise_ip = some (codes "10.0.0.1");
  port = 8091;
  hotkey_ss58 = none;
  print_measurement = false;
}

abbrev runs : Running
runs = record { handler = handler; published = some (codes "10.0.0.1", 8091); refreshes = true }

running :
    main none
      (λ given hotkey_ss58.
        build_miner pki no_kds platform client_rt
          (λ url path body w. (unreachable, w))
          backends
          chips
          given
          hotkey_ss58
          (some (validator ∷ []))
          (λ file. none)
          (λ name. record { now = 10; later = 20; nonce = codes "n1" })
          tt)
      command_line
      (codes "5M")
    ≡ ok (serves runs)
unfolding main check_args truthy served_hotkey miner_args start
running = rw started refl

main-Serves_example : Serves chips command_line (codes "5M") runs
main-Serves_example =
    main-Serves pki no_kds platform client_rt (λ url path body w. (unreachable, w)) backends chips
      (some (validator ∷ [])) (λ file. none)
      (λ name. record { now = 10; later = 20; nonce = codes "n1" }) tt none command_line
      (codes "5M") runs running

-- After a second read of the chain, which has another validator.
abbrev newcomer : Neuron
newcomer = record { uid = 2; hotkey = codes "5W"; axon = no_axon; validator_permit = true }

abbrev at_start : List Text
at_start = codes "5A" ∷ codes "5V" ∷ []

resolved : resolve_allowlist allow (some (validator ∷ [])) ≡ ok (some at_start)
unfolding resolve_allowlist with_validators validator_hotkeys
resolved = refl

abbrev refilled : List Text
refilled = codes "5A" ∷ codes "5W" ∷ []

meets :
    Memᴰ
      (some refilled)
      (held allow.allow_hotkey (none ∷ some (newcomer ∷ []) ∷ []) (some at_start))
unfolding held met writes refreshed validator_hotkeys
meets = Memᴰ.tail (Memᴰ.tail (Memᴰ.tail (Memᴰ.head refl)))

let_in :
    by_hotkey plain_crypto
      (record handler { allowed_hotkeys = some refilled })
      (some (codes "5W", codes "1"))
    ≡ ok (record { name = codes "5W"; nonce_ns = codes "1"; scopes = none })
unfolding by_hotkey member text_eq
let_in = refl

by_hotkey-resolve_example :
    ((allowed : List Text) × (some at_start ≡ some allowed))
    × (justified allow.allow_hotkey
          (some (validator ∷ []) ∷ none ∷ some (newcomer ∷ []) ∷ [])
          (codes "5W")
        ≡ true)
by_hotkey-resolve_example =
    by_hotkey-resolve plain_crypto allow (some (validator ∷ [])) (none ∷ some (newcomer ∷ []) ∷ [])
      (some at_start) (some refilled) handler (codes "5W") (codes "1") _ refl resolved meets let_in
