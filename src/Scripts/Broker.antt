-- ===== src/Scripts/Broker.antt =====
-- `build_broker` of scripts/run_broker.py.
pub mod Endorsed
pub mod Stored
use sentinel_subnet.Attestation.{many}
use sentinel_subnet.SevSnp.Certs.{Pki}
use sentinel_subnet.SevSnp.Verifier.{Kds, SevSnpVerifier, TcbFloor, no_floor}
use sentinel_subnet.Kbs.{
  HardwareVerifier, KeyBroker, Platform, ReleasePolicy, store_secret, trust_chip,
}
use sentinel_subnet.Remote.Factory.{FactoryError, as_hardware, verifier_factory}
use sentinel_subnet.Registry.Manifest.{cut}
use sentinel_subnet.Scripts.Scopes.{ScopeError, broker_scopes}
use sentinel_subnet.Base.Result.{Result, err, map_err, ok, or_raise, raise_if, ◌>>=◌, ◌>>◌}
use sentinel_subnet.Base.Text.{Text, is_empty, strip}
use sentinel_subnet.Base.Dict.{Dict}
use sentinel_subnet.Base.Int.{negsuc, pos, ℤ}
use sentinel_subnet.Base.{List, Option, [], given_or, none, some, ℕ, ◌||◌, ◌∷◌}

-- The command line, parsed.
pub record BrokerArgs : Type 0 where
  pub scope : List Text
  pub measurement : List Text
  pub min_tcb : Option ℤ
  pub product : Text
  pub allow_mock_chip : List Text

pub data SetupError : Type 0 where
  bad_chip : SetupError
  bad_scope : ScopeError → SetupError
  bad_factory : FactoryError → SetupError

abbrev pub default_min_tcb : ℤ
default_min_tcb = pos 7

abbrev pub nonce_ttl_seconds : ℕ
nonce_ttl_seconds = 60

unfoldable pub policy_of : BrokerArgs → ReleasePolicy
policy_of args = record {
  approved_measurement = many args.measurement;
  min_tcb = given_or args.min_tcb default_min_tcb;
  nonce_ttl = nonce_ttl_seconds;
}

-- `{"min_snp": args.min_tcb}`; a floor below 0 is passed by every report, as 0 is.
unfoldable pub floor_of : Option ℤ → Option TcbFloor
floor_of none = none
floor_of (some (pos n)) = some (record no_floor { min_snp = n })
floor_of (some (negsuc n)) = some no_floor

-- `KeyBroker(policy=…)`
unfoldable pub empty_broker : {Cert : Type 0} → ReleasePolicy → KeyBroker Cert
empty_broker policy = record {
  policy = policy;
  sevsnp = none;
  sevsnp_certs = [];
  sevsnp_factory = none;
  secrets = [];
  trusted_chips = [];
  issued_nonces = [];
}

module _ {Cert : Type 0} where
  -- The loop over `--allow-mock-chip CHIPID=PUBKEY`.
  unfoldable pub trust_all : List Text → KeyBroker Cert → Result SetupError (KeyBroker Cert)
  unfolding cut strip trust_chip
  trust_all [] b = ok b
  trust_all (entry ∷ entries) b = do
    parts ← or_raise (cut entry) bad_chip
    raise_if (is_empty (strip parts.0) || is_empty (strip parts.1)) bad_chip
    trust_all entries (trust_chip (strip parts.0) (strip parts.1) b)

  unfoldable pub store_all : Dict Text → KeyBroker Cert → KeyBroker Cert
  unfolding store_secret
  store_all [] b = b
  store_all ((name, dsn) ∷ scopes) b = store_all scopes (store_secret name dsn b)

module _ {Cert Key : Type 0} (k : Pki Cert Key) (kds : Kds Cert) (p : Platform Cert) where
  -- The factory's verifier as the broker keeps it: what building raises is caught there.
  unfoldable pub kept_factory :
      (Dict Text → Result FactoryError (SevSnpVerifier Cert))
      → Dict Text
      → Option (HardwareVerifier Cert)
  unfolding as_hardware
  kept_factory make certs = elim (make certs) [
    | ok v ↦ some (as_hardware k kds p.crypto v)
    | err e ↦ none
  ]

  -- The broker before it holds a secret: mock chips are trusted, or a verifier is built for hardware.
  unfoldable pub trusting_broker :
      BrokerArgs → (mock_chips : List Text) → Result SetupError (KeyBroker Cert)
  unfolding policy_of floor_of empty_broker trust_all verifier_factory kept_factory
  trusting_broker args (entry ∷ entries) =
      trust_all (entry ∷ entries) (empty_broker (policy_of args))
  trusting_broker args [] = do
    make ←
        map_err bad_factory
          (verifier_factory p.load_der args.product args.measurement (floor_of args.min_tcb))
    ok (record (empty_broker (policy_of args)) { sevsnp_factory = some (kept_factory make) })

  -- `build_broker`
  unfoldable pub build_broker : BrokerArgs → Result SetupError (KeyBroker Cert)
  unfolding trusting_broker broker_scopes store_all
  build_broker args = do
    b ← trusting_broker args args.allow_mock_chip
    scopes ← map_err bad_scope (broker_scopes args.scope)
    ok (store_all scopes b)
