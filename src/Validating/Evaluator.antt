-- ===== src/Validating/Evaluator.antt =====
-- sentinel/validating/evaluator.py: one miner's probe. What the miner answers is an argument; its
-- JSON is given by the values that the code takes out of it.
use sentinel_subnet.Attestation.{
  AttestationReport, Crypto, Failure, Refusal, bad_certificates, binding_mismatch, canonical,
  incomplete_chain, nonce_mismatch, refused, value_error,
}
use sentinel_subnet.SevSnp.Certs.{CertChain, Pki}
use sentinel_subnet.SevSnp.Verifier.{
  Kds, SevSnpVerifier, TcbFloor, min_tcb_for, verify_signed_message,
}
use sentinel_subnet.Validating.Floats.{Floats}
use sentinel_subnet.Validating.Scoring.{MinerScores}
use sentinel_subnet.Kbs.{leaf_of}
use sentinel_subnet.Base.Result.{Result, ok, or_raise, raise_if, ◌>>=◌, ◌>>◌}
use sentinel_subnet.Base.Text.{Text, codes, lower, text_eq}
use sentinel_subnet.Base.Dict.{Dict, contains, lookup}
use sentinel_subnet.Base.Int.{ℤ}
use sentinel_subnet.Base.Bytes.{from_hex}
use sentinel_subnet.Base.{
  Bool, List, Option, [], false, given_or, if◌then◌else◌, none, not, some, true, ℕ, ◌&&◌, ◌∷◌,
}

pub record MinerTarget : Type 0 where
  pub uid : ℕ
  pub hotkey_ss58 : Text
  pub base_url : Text

-- What `outcome.error` says.
pub data ProbeError : Type 0 where
  client_error no_public_key malformed_attestation : ProbeError
  attestation_rejected : Refusal → ProbeError

pub record ChallengeOutcome (n : Floats) : Type 0 where
  pub uid : ℕ
  pub hotkey_ss58 : Text
  pub scores : MinerScores n
  pub verified : Bool
  pub latency_ms : n.F
  pub response_hash : Option Text
  pub error : Option ProbeError
  pub correctness_gated : Bool

-- The answer of `/health`: three of its fields.
pub record Health : Type 0 where
  pub attestation : Option Text
  pub public_key : Option Text
  pub certificates : Dict Text

-- sentinel/serving/client.py's `MinerResponse`; a payload whose `attestation` is missing or has
-- other keys than a report's has none.
pub record MinerResponse (n : Floats) : Type 0 where
  pub headers : Dict Text
  pub latency_ms : n.F
  pub response_hash : Option Text
  pub attestation : Option AttestationReport

-- A miner as the client meets it; `none` is a `MinerClientError`.
pub record Miner (n : Floats) : Type 0 where
  pub health : Option Health
  pub call : (nonce request_id : Text) → Option (MinerResponse n)

-- `MinerResponse.header`: the first header of that name, in any case, or "".
unfoldable pub header : Dict Text → Text → Text
unfolding text_eq lower
header [] name = []
header ((k, v) ∷ hs) name = if text_eq (lower k) (lower name) then v else header hs name

pub record MinerEvaluator (n : Floats) : Type 0 where
  pub approved_measurement : List Text
  pub product : Text
  -- `none` is the empty dictionary.
  pub sevsnp_min_tcb : Option TcbFloor
  pub min_tcb : ℤ
  pub latency_target_ms : n.F
  pub latency_ceiling_ms : n.F

-- `[bytes.fromhex(m) for m in …]`; a `ValueError` here is caught by nobody.
unfoldable pub from_hexes : List Text → Result Failure (List Text)
from_hexes [] = ok []
from_hexes (m ∷ ms) = do b ← or_raise (from_hex m) value_error; bs ← from_hexes ms; ok (b ∷ bs)

-- base64 and x509, which read what the miner sent.
pub record Decoders (Cert : Type 0) : Type 0 where
  pub b64decode : Text → Option Text
  pub load_der : Text → Option Cert

module _ {Cert : Type 0} (d : Decoders Cert) where
  -- `{n: base64.b64decode(v) for n, v in certificates.items()}`
  unfoldable pub decode_certs : Dict Text → Option (Dict Text)
  decode_certs [] = some []
  decode_certs ((name, v) ∷ rest) = elim (d.b64decode v) [
    | none ↦ none
    | some der ↦ elim (decode_certs rest) [ none ↦ none | some certs ↦ some ((name, der) ∷ certs) ]
  ]

  -- The certificate of that name, read: what is not there was asked for before.
  unfoldable pub load_named : Text → Dict Text → Option Cert
  load_named name certs = elim (lookup name certs) [ none ↦ none | some der ↦ d.load_der der ]

module _ {Cert Key : Type 0} (k : Pki Cert Key) (kds : Kds Cert) (c : Crypto) (d : Decoders Cert)
    (n : Floats) where
  -- `_verify_sevsnp`
  unfoldable pub verify_hardware :
      MinerEvaluator n
      → AttestationReport
      → Health
      → (binding expected_nonce : Text) → Result Failure (Unit {0})
  unfolding contains text_eq
  verify_hardware e report health binding expected_nonce = do
    certs ← or_raise (decode_certs d health.certificates) (refused bad_certificates)
    raise_if (not (contains (codes "ASK") certs && contains (codes "ARK") certs))
        (refused incomplete_chain)
    leaf ← or_raise (leaf_of certs) (refused incomplete_chain)
    ask ← or_raise (load_named d (codes "ASK") certs) (refused bad_certificates)
    ark ← or_raise (load_named d (codes "ARK") certs) (refused bad_certificates)
    vcek ← or_raise (d.load_der leaf) (refused bad_certificates)
    approved ← from_hexes e.approved_measurement
    let chain : CertChain Cert = record {
      product = e.product;
      ask = ask;
      ark = ark;
      expected_root_spki_sha256 = none;
    }
    let verifier : SevSnpVerifier Cert = record {
      product = e.product;
      policy = record {
        approved = approved;
        floor = given_or e.sevsnp_min_tcb (min_tcb_for e.product);
        allow_debug = false;
      };
      chain = some chain;
      offline = true;
    }
    proved ← verify_signed_message k kds c verifier (canonical report) report.signature (some vcek)
    raise_if (not (text_eq report.nonce expected_nonce)) (refused nonce_mismatch)
    raise_if (not (text_eq report.report_data binding)) (refused binding_mismatch)
