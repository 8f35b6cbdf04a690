-- ===== src/Scripts/Miner.antt =====
-- `build_miner` of scripts/run_miner.py: chip, broker, enclave, tools and allowlist put together. The
-- network, the chain and the file of keys are arguments.
pub mod Wired
pub mod Main
use sentinel_subnet.Attestation.{Crypto, one}
use sentinel_subnet.Base.Json.{Json}
use sentinel_subnet.SevSnp.Certs.{Pki}
use sentinel_subnet.SevSnp.Verifier.{Kds}
use sentinel_subnet.Kbs.{Credentials, KeyBroker, Platform, ReleasePolicy, trust_chip}
use sentinel_subnet.Enclave.{Enclave, unlock}
use sentinel_subnet.Mcp.Server.{McpServer, new_server}
use sentinel_subnet.Serving.ApiKeys.{ApiKeyStore}
use sentinel_subnet.Serving.Handler.{MinerHandler, ServeError}
use sentinel_subnet.Remote.Client.{Answer, ClientRuntime, new_remote, remote_unlock}
use sentinel_subnet.Remote.Factory.{as_hardware}
use sentinel_subnet.Chain.Discovery.{Neuron}
use sentinel_subnet.Scripts.Scopes.{miner_scopes}
use sentinel_subnet.Scripts.Broker.{default_min_tcb, empty_broker, nonce_ttl_seconds, store_all}
use sentinel_subnet.Scripts.Allowlist.{AllowArgs, resolve_allowlist}
use sentinel_subnet.Scripts.Silicon.{
  Chip, Chips, MinerError, bad_scopes, bad_url, build_verifier, mismatch, no_allowlist, no_keys,
  not_answered, not_released, open_silicon,
}
use sentinel_subnet.Scripts.Tools.{Backends, unlock_scopes}
use sentinel_subnet.Base.Result.{Result, map_err, map_ok, ok, or_raise, raise_if, ◌>>=◌, ◌>>◌}
use sentinel_subnet.Base.Text.{Text, text_eq, truthy}
use sentinel_subnet.Base.{Bool, List, Option, [], false, given_or, none, not, some, true, ℕ, ◌&&◌}

-- The command line, parsed.
pub record MinerArgs : Type 0 where
  pub allow_mock : Bool
  pub mock_chip_seed : Option Text
  pub broker_url : Option Text
  pub broker_insecure : Bool
  pub measurement : Text
  pub product : Text
  pub dsn : Text
  pub scope : List Text
  -- What the seed file holds, if there is to be a seed.
  pub seed : Option Text
  pub api_keys : Option Text
  pub allow : AllowArgs

-- `ReleasePolicy(approved_measurement=args.measurement)`
unfoldable pub miner_policy : MinerArgs → ReleasePolicy
miner_policy args = record {
  approved_measurement = one args.measurement;
  min_tcb = default_min_tcb;
  nonce_ttl = nonce_ttl_seconds;
}

-- `Enclave(silicon, launch_measurement=args.measurement)`
unfoldable pub new_enclave : Chip → (measurement : Text) → Enclave ServeError
new_enclave chip measurement = record {
  agent = record {
    silicon = chip.silicon;
    launch_measurement = measurement;
    tcb_level = default_min_tcb;
  };
  certificates = chip.certificates;
  credentials = [];
}

-- The clock and the nonce drawn while a scope is unlocked.
pub record Moment : Type 0 where
  pub now : ℕ
  pub later : ℕ
  pub nonce : Text

-- The keys of callers that are not on the network, where a file of them is named.
unfoldable pub load_keys :
    (from_file : Text → Option ApiKeyStore)
    → (file : Option Text) → Result MinerError (Option ApiKeyStore)
load_keys from_file none = ok none
load_keys from_file (some file) = map_ok some (or_raise (from_file file) no_keys)

-- What is served once the scopes are unlocked.
unfoldable pub served :
    MinerArgs
    → (hotkey_ss58 : Text) (chain : Option (List Neuron)) → (from_file : Text → Option ApiKeyStore)
    → Enclave ServeError
    → McpServer Json
    → Result MinerError MinerHandler
unfolding resolve_allowlist truthy load_keys
served args hotkey_ss58 chain from_file e mcp = do
  allowed ← map_err no_allowlist (resolve_allowlist args.allow chain)
  api_keys ← load_keys from_file (truthy args.api_keys)
  ok (record {
    enclave = e;
    mcp = mcp;
    allowed_hotkeys = allowed;
    api_keys = api_keys;
    hotkey_ss58 = hotkey_ss58;
    attestation_error = none;
  })

-- Unlocking from the broker in this process.
unfoldable pub unlock_own :
    {Cert : Type 0}
    → Platform Cert
    → (clock : Text → Moment) → (name : Text) → Enclave ServeError
    → KeyBroker Cert
    → Result MinerError Credentials × Enclave ServeError × KeyBroker Cert
unfolding unlock
unlock_own p clock name e b =
    let t = clock name in
    let unlocked = unlock p t.now t.later t.nonce name e b in
    (map_err not_released unlocked.0, unlocked.1, unlocked.2)

module _ {Cert Key : Type 0} (k : Pki Cert Key) (kds : Kds Cert) (p : Platform Cert) where
  -- The broker in this process, before it holds a secret.
  unfoldable pub own_broker : MinerArgs → Chip → (real : Bool) → Result MinerError (KeyBroker Cert)
  unfolding build_verifier empty_broker miner_policy as_hardware trust_chip
  own_broker args chip true = do
    let certs = given_or chip.certificates []
    verifier ← build_verifier p.load_der certs args.product args.measurement
    ok (record (empty_broker (miner_policy args)) {
      sevsnp = some (as_hardware k kds p.crypto verifier);
      sevsnp_certs = certs;
    })
  own_broker args chip false =
      ok (trust_chip chip.silicon.chip_id chip.public_key_hex (empty_broker (miner_policy args)))

module _ {Cert Key C D : Type 0} (k : Pki Cert Key) (kds : Kds Cert) (p : Platform Cert)
    (backends : Backends C D) where
  -- `build_miner` without `--broker-url`
  unfoldable pub build_own :
      MinerArgs
      → (hotkey_ss58 : Text) (chain : Option (List Neuron))
      → (from_file : Text → Option ApiKeyStore) → (clock : Text → Moment) → Chip
      → (real : Bool) → Result MinerError MinerHandler
  unfolding miner_scopes own_broker store_all unlock_own unlock_scopes new_enclave served
  build_own args hotkey_ss58 chain from_file clock chip real = do
    scopes ← map_err bad_scopes (miner_scopes false args.dsn args.scope)
    b ← own_broker k kds p args chip real
    done ←
        unlock_scopes backends (unlock_own p clock) args.seed scopes
          (new_enclave chip args.measurement) (store_all scopes b) new_server
    served args hotkey_ss58 chain from_file done.0 done.2

module _ {W C D : Type 0} (c : Crypto) (rt : ClientRuntime)
    (send : (url : Text) (path body : Text) → W → Answer × W) (backends : Backends C D) where
  unfoldable pub unlock_across :
      (url name : Text)
      → Enclave ServeError
      → W
      → Result MinerError Credentials × Enclave ServeError × W
  unfolding remote_unlock
  unlock_across url name e w =
      let unlocked = remote_unlock c rt (send url) (send url) name e w in
      (map_err not_answered unlocked.0, unlocked.1, unlocked.2)

  -- `build_miner` with `--broker-url`: no DSN is read from the command line.
  unfoldable pub build_remote :
      MinerArgs
      → (url hotkey_ss58 : Text) (chain : Option (List Neuron))
      → (from_file : Text → Option ApiKeyStore) → Chip
      → W
      → Result MinerError MinerHandler
  unfolding miner_scopes new_remote unlock_across unlock_scopes new_enclave served
  build_remote args url hotkey_ss58 chain from_file chip w = do
    scopes ← map_err bad_scopes (miner_scopes true args.dsn args.scope)
    broker ← map_err bad_url (new_remote url args.broker_insecure)
    done ←
        unlock_scopes backends (unlock_across broker.url) args.seed scopes
          (new_enclave chip args.measurement) w new_server
    served args hotkey_ss58 chain from_file done.0 done.2

-- `build_miner`: the handler that is served.
unfoldable pub build_miner :
    {Cert Key W C D : Type 0}
    → Pki Cert Key
    → Kds Cert
    → Platform Cert
    → ClientRuntime
    → (send : (url : Text) (path body : Text) → W → Answer × W) → Backends C D
    → Chips
    → MinerArgs
    → (hotkey_ss58 : Text) (chain : Option (List Neuron)) → (from_file : Text → Option ApiKeyStore)
    → (clock : Text → Moment) → W
    → Result MinerError MinerHandler
unfolding open_silicon text_eq truthy build_own build_remote
build_miner k kds p rt send backends chips args hotkey_ss58 chain from_file clock w = do
  opened ← open_silicon chips args.allow_mock args.mock_chip_seed
  raise_if (opened.1 && not (text_eq opened.0.measurement args.measurement)) mismatch
  elim (truthy args.broker_url) [
    | none ↦ build_own k kds p backends args hotkey_ss58 chain from_file clock opened.0 opened.1
    | some url ↦
        build_remote p.crypto rt send backends args url hotkey_ss58 chain from_file opened.0 w
  ]
