-- ===== src/Scripts/Silicon.antt =====
-- `open_silicon` and `build_verifier` of scripts/run_miner.py. The chips of the host and the reader of
-- certificates are arguments.
use sentinel_subnet.Attestation.{Silicon}
use sentinel_subnet.SevSnp.Verifier.{SevSnpVerifier, min_tcb_for}
use sentinel_subnet.Enclave.{UnlockError}
use sentinel_subnet.Serving.Handler.{ServeError}
use sentinel_subnet.Remote.Client.{RemoteUnlockError, UrlError}
use sentinel_subnet.Database.{QueryError}
use sentinel_subnet.Scripts.Scopes.{ScopeError}
use sentinel_subnet.Scripts.Allowlist.{AllowError}
use sentinel_subnet.Base.Result.{Result, ok, or_raise, raise_if, ◌>>=◌, ◌>>◌}
use sentinel_subnet.Base.Text.{Text, codes, truthy}
use sentinel_subnet.Base.Dict.{Dict, contains, lookup}
use sentinel_subnet.Base.Bytes.{from_hex, to_hex}
use sentinel_subnet.Base.{
  Bool, Option, [], false, length, none, not, some, take, true, ◌++◌, ◌==◌, ◌∷◌,
}

-- A chip as the script opens it. `measurement` is what the hardware says it booted.
pub record Chip : Type 0 where
  pub silicon : Silicon ServeError
  pub certificates : Option (Dict Text)
  pub measurement : Text
  pub public_key_hex : Text

-- What ends the script.
pub data MinerError : Type 0 where
  no_guest seed_not_hex seed_length mismatch no_certificates bad_certificate bad_approved :
      MinerError
  no_keys tool_taken : MinerError
  bad_scopes : ScopeError → MinerError
  bad_url : UrlError → MinerError
  no_database : QueryError → MinerError
  no_allowlist : AllowError → MinerError
  not_released : UnlockError ServeError → MinerError
  not_answered : RemoteUnlockError ServeError → MinerError

-- The chips of this host: the guest's, if there is one, a mock chip with a key of its own, and one
-- whose key comes of a seed.
pub record Chips : Type 0 where
  pub guest : Option Chip
  pub fresh : Chip
  pub from_seed : (seed chip_id : Text) → Chip

unfoldable pub mock_chip : Chips → (mock_seed : Option Text) → Result MinerError Chip
unfolding from_hex to_hex
mock_chip chips none = ok chips.fresh
mock_chip chips (some hex) = do
  seed ← or_raise (from_hex hex) seed_not_hex
  raise_if (not (length seed == 32)) seed_length
  ok (chips.from_seed seed (codes "MOCK-EPYC-" ++ to_hex (take 4 seed)))

-- `open_silicon`, with whether the chip is real
unfoldable pub open_silicon :
    Chips → (allow_mock : Bool) (mock_seed : Option Text) → Result MinerError (Chip × Bool)
unfolding mock_chip truthy
open_silicon chips allow_mock mock_seed = elim chips.guest [
  | some chip ↦ ok (chip, true)
  | none ↦ do
    raise_if (not allow_mock) no_guest
    chip ← mock_chip chips (truthy mock_seed)
    ok (chip, false)
]

-- `build_verifier`: the chain is the host's, the root AMD's, the measurement the approved one.
unfoldable pub build_verifier :
    {Cert : Type 0}
    → (load_der : Text → Option Cert) → (certs : Dict Text) → (product measurement_hex : Text)
    → Result MinerError (SevSnpVerifier Cert)
unfolding lookup contains from_hex min_tcb_for
build_verifier load_der certs product measurement_hex = do
  raise_if (not (contains (codes "VCEK") certs)) no_certificates
  ask_der ← or_raise (lookup (codes "ASK") certs) no_certificates
  ark_der ← or_raise (lookup (codes "ARK") certs) no_certificates
  ask ← or_raise (load_der ask_der) bad_certificate
  ark ← or_raise (load_der ark_der) bad_certificate
  approved ← or_raise (from_hex measurement_hex) bad_approved
  ok (record {
    product = product;
    policy = record { approved = approved ∷ []; floor = min_tcb_for product; allow_debug = false };
    chain =
        some (record { product = product; ask = ask; ark = ark; expected_root_spki_sha256 = none });
    offline = true;
  })
