-- ===== src/Attestation.antt =====
-- sentinel/attestation.py: reports, the agent that makes them and the check of one.
-- SHA-2 and Ed25519 are parameters, gathered in `Crypto`; a chip is a `Silicon`.
pub mod Canonical
pub mod Allowed
pub mod Verify
use sentinel_subnet.Base.Json.{Json, dumps, end, field, int, obj, str}
use sentinel_subnet.Base.Result.{Result, err, ok, raise_if, ◌>>=◌, ◌>>◌}
use sentinel_subnet.Base.Text.{Text, codes, lower, member, strip, text_eq}
use sentinel_subnet.Base.Int.{ltb_ℤ, ℤ}
use sentinel_subnet.Base.{Bool, List, Option, [], false, none, not, some, ◌++◌, ◌∷◌}

-- hashlib and the `cryptography` package.
pub record Crypto : Type 0 where
  -- Hexadecimal digests.
  pub sha256 : Text → Text
  pub sha384 : Text → Text
  -- The raw digest, 64 bytes.
  pub sha512 : Text → Text
  -- Whether `Ed25519PublicKey.from_public_bytes(bytes.fromhex(key))` returns a key.
  pub is_key : Text → Bool
  -- `_Ed25519Verifier.valid`: the public key, the message, the signature.
  pub ed25519_valid : Text → Text → Text → Bool

pub record AttestationReport : Type 0 where
  pub chip_id : Text
  pub launch_measurement : Text
  pub tcb_level : ℤ
  pub nonce : Text
  pub report_data : Text
  pub signature : Text

-- The report as `asdict` gives it, without the signature.
abbrev body : AttestationReport → Json
body r = obj (
    field (codes "chip_id") (str r.chip_id) (
      field (codes "launch_measurement") (str r.launch_measurement) (
        field (codes "tcb_level") (int r.tcb_level) (
          field (codes "nonce") (str r.nonce)
            (field (codes "report_data") (str r.report_data) end)))))

-- The bytes that a chip signs.
unfoldable pub canonical : AttestationReport → Text
unfolding dumps body
canonical r = dumps (body r)

-- A chip: its id, and how it signs. Hardware may refuse.
pub record Silicon (E : Type 0) : Type 0 where
  pub chip_id : Text
  pub sign : Text → Result E Text

pub record AttestationAgent (E : Type 0) : Type 0 where
  pub silicon : Silicon E
  pub launch_measurement : Text
  pub tcb_level : ℤ

module _ {E : Type 0} where
  -- The report before it is signed.
  unfoldable pub unsigned : AttestationAgent E → Text → Text → AttestationReport
  unsigned a nonce report_data = record {
    chip_id = a.silicon.chip_id;
    launch_measurement = a.launch_measurement;
    tcb_level = a.tcb_level;
    nonce = nonce;
    report_data = report_data;
    signature = [];
  }

  unfoldable pub attest : AttestationAgent E → Text → Text → Result E AttestationReport
  unfolding unsigned
  attest a nonce report_data = do
    signature ← a.silicon.sign (canonical (unsigned a nonce report_data))
    ok (record (unsigned a nonce report_data) { signature = signature })

-- Why a proof is refused: the messages of `VerificationError`.
pub data Refusal : Type 0 where
  signature_invalid measurement_mismatch stale_tcb nonce_mismatch binding_mismatch : Refusal
  malformed_report no_vcek not_endorsed not_ecdsa debug_permitted bad_hex : Refusal
  bad_certificates incomplete_chain : Refusal

-- What a check raises: a refusal, or a `ValueError` that no `except VerificationError` catches.
pub data Failure : Type 0 where
  refused : Refusal → Failure
  value_error : Failure

-- `str | Iterable[str]`
pub data Approved : Type 0 where
  one : Text → Approved
  many : List Text → Approved

-- `frozenset(v.strip().lower() for v in value if v and v.strip())`
unfoldable pub normalised : List Text → List Text
unfolding strip lower
normalised [] = []
normalised (v ∷ vs) =
    let rest = normalised vs in elim (strip v) [ [] ↦ rest | c ∷ s ↦ lower (c ∷ s) ∷ rest ]

unfoldable pub non_empty : List Text → Result Failure (List Text)
non_empty [] = err value_error
non_empty (v ∷ vs) = ok (v ∷ vs)

unfoldable pub approved_set : Approved → Result Failure (List Text)
unfolding normalised non_empty
approved_set (one v) = non_empty (normalised (v ∷ []))
approved_set (many vs) = non_empty (normalised vs)

-- `expected is not None and actual != expected`
abbrev pub differs : Option Text → Text → Bool
differs none actual = false
differs (some expected) actual = not (text_eq actual expected)

module _ (c : Crypto) where
  -- `bind_response(request_id, response_hash)`
  unfoldable pub bind_response : Text → Text → Text
  bind_response request_id response_hash = c.sha384 (request_id ++ (b':' ∷ response_hash))

  -- `verify(report, verifier_from_public_key(key), …)`: the key is read first.
  unfoldable pub verify :
      AttestationReport
      → (public_key : Text) → (approved : Approved) → (expected_nonce : Text) → (min_tcb : ℤ)
      → (expected_report_data : Option Text) → Result Failure (Unit {0})
  unfolding text_eq member approved_set ltb_ℤ
  verify report key approved nonce min_tcb expected = do
    raise_if (not (c.is_key key)) value_error
    raise_if (not (c.ed25519_valid key (canonical report) report.signature))
        (refused signature_invalid)
    allowed ← approved_set approved
    raise_if (not (member (lower (strip report.launch_measurement)) allowed))
        (refused measurement_mismatch)
    raise_if (ltb_ℤ report.tcb_level min_tcb) (refused stale_tcb)
    raise_if (not (text_eq report.nonce nonce)) (refused nonce_mismatch)
    raise_if (differs expected report.report_data) (refused binding_mismatch)
