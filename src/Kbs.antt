-- ===== src/Kbs.antt =====
-- sentinel/kbs.py: the key broker. Clock readings are whole ticks, and the nonce that
-- `secrets.token_hex` draws is an argument of `challenge`; a method returns what it raises or
-- yields and the broker after it, since expired nonces are dropped before a refusal too.
pub mod Nonces
pub mod Expiry
pub mod Release
use sentinel_subnet.Attestation.{
  Approved, AttestationReport, Crypto, Failure, Refusal, bind_response, canonical, refused,
  value_error, verify,
}
use sentinel_subnet.Base.Result.{Result, err, map_err, ok, or_raise, raise_if, ◌>>=◌, ◌>>◌}
use sentinel_subnet.Base.Text.{Text, codes, text_eq, truthy}
use sentinel_subnet.Base.Dict.{Dict, contains, erase, insert, lookup, retain}
use sentinel_subnet.Base.Int.{ℤ}
use sentinel_subnet.Base.{
  Bool, Option, given_or, if◌then◌else◌, leb, length, none, not, or_else, some, ℕ, ◌+◌,
}

-- A released secret (sentinel/database.py).
pub record Credentials : Type 0 where
  pub dsn : Text
  pub resource : Text

pub record ReleasePolicy : Type 0 where
  pub approved_measurement : Approved
  pub min_tcb : ℤ
  pub nonce_ttl : ℕ

-- Why a credential is withheld: the messages of `CredentialReleaseError`; `crashed` is any other
-- exception, which passes through `release`.
pub data ReleaseError : Type 0 where
  no_secret unknown_nonce untrusted_chip no_verifier no_leaf other_resource factory_failed crashed :
      ReleaseError
  rejected : Refusal → ReleaseError

-- What the broker asks of a verifier of hardware reports, over the parsed certificate of the chip.
pub record HardwareVerifier (Cert : Type 0) : Type 0 where
  pub verify_signed_message : (message report_hex : Text) → Cert → Result Failure (Unit {0})

-- What x509 reads out of DER bytes, and the report's hash functions.
pub record Platform (Cert : Type 0) : Type 0 where
  pub crypto : Crypto
  pub load_der : Text → Option Cert

pub record KeyBroker (Cert : Type 0) : Type 0 where
  pub policy : ReleasePolicy
  pub sevsnp : Option (HardwareVerifier Cert)
  pub sevsnp_certs : Dict Text
  -- `none` inside is the exception that building the verifier raised.
  pub sevsnp_factory : Option (Dict Text → Option (HardwareVerifier Cert))
  pub secrets : Dict Credentials
  pub trusted_chips : Dict Text
  pub issued_nonces : Dict ℕ

-- 1184 bytes in hexadecimal.
abbrev pub sevsnp_signature_hex_len : ℕ
sevsnp_signature_hex_len = 2368

unfoldable pub looks_like_sevsnp : Text → Bool
looks_like_sevsnp signature_hex = leb sevsnp_signature_hex_len (length signature_hex)

unfoldable pub release_binding : Crypto → Text → Text
unfolding bind_response
release_binding c resource = bind_response c (codes "kbs-release") (c.sha384 resource)

-- `d.get("VCEK") or d.get("VLEK")`: empty bytes count as absent in the first place only.
unfoldable pub leaf_of : Dict Text → Option Text
unfolding lookup truthy
leaf_of certs = or_else (truthy (lookup (codes "VCEK") certs)) (lookup (codes "VLEK") certs)

-- `except VerificationError as exc: raise CredentialReleaseError`
unfoldable pub as_release_error : Failure → ReleaseError
as_release_error (refused r) = rejected r
as_release_error value_error = crashed

module _ {Cert : Type 0} where
  unfoldable pub store_secret : Text → Text → KeyBroker Cert → KeyBroker Cert
  store_secret resource dsn b = record b {
    secrets = insert resource (record { dsn = dsn; resource = resource }) b.secrets;
  }

  unfoldable pub trust_chip : Text → Text → KeyBroker Cert → KeyBroker Cert
  trust_chip chip_id public_key_hex b = record b {
    trusted_chips = insert chip_id public_key_hex b.trusted_chips;
  }

  -- `_expire_nonces`: a nonce lives up to and at its expiry.
  unfoldable pub expire_nonces : ℕ → KeyBroker Cert → KeyBroker Cert
  expire_nonces now b = record b {
    issued_nonces = retain (λ nonce expiry. leb now expiry) b.issued_nonces;
  }

  unfoldable pub challenge : (now : ℕ) (nonce : Text) → KeyBroker Cert → KeyBroker Cert
  unfolding expire_nonces
  challenge now nonce b =
      let b' = expire_nonces now b in
      record b' { issued_nonces = insert nonce (now + b.policy.nonce_ttl) b'.issued_nonces }

  -- The verifier to use: the configured one, else one built around the certificates.
  unfoldable pub choose_verifier :
      KeyBroker Cert → Dict Text → Result ReleaseError (HardwareVerifier Cert)
  choose_verifier b certs = elim b.sevsnp [
    | some v ↦ ok v
    | none ↦ elim b.sevsnp_factory [
      | none ↦ err no_verifier
      | some build ↦ or_raise (build certs) factory_failed
    ]
  ]

module _ {Cert : Type 0} (p : Platform Cert) where
  -- The development path.
  unfoldable pub verify_registered_key :
      KeyBroker Cert → AttestationReport → Text → Result ReleaseError (Unit {0})
  unfolding as_release_error release_binding
  verify_registered_key b report resource = do
    public_key ← or_raise (lookup report.chip_id b.trusted_chips) untrusted_chip
    map_err as_release_error (
        verify p.crypto report public_key b.policy.approved_measurement report.nonce
          b.policy.min_tcb (some (release_binding p.crypto resource)))

  -- The hardware path. The chip registry is not consulted.
  unfoldable pub verify_sevsnp :
      KeyBroker Cert
      → AttestationReport
      → Text
      → Option (Dict Text)
      → Result ReleaseError (Unit {0})
  unfolding as_release_error release_binding leaf_of choose_verifier
  verify_sevsnp b report resource certificates = do
    let certs = given_or certificates b.sevsnp_certs
    verifier ← choose_verifier b certs
    leaf ← or_raise (leaf_of certs) no_leaf
    vcek ← or_raise (p.load_der leaf) crashed
    map_err as_release_error
        (verifier.verify_signed_message (canonical report) report.signature vcek)
    raise_if (not (text_eq report.report_data (release_binding p.crypto resource))) other_resource

  unfoldable pub verify_proof :
      KeyBroker Cert
      → AttestationReport
      → Text
      → Option (Dict Text)
      → Result ReleaseError (Unit {0})
  unfolding looks_like_sevsnp
  verify_proof b report resource certificates =
      if looks_like_sevsnp report.signature
      then verify_sevsnp b report resource certificates
      else verify_registered_key b report resource

  -- What `release` checks once the secret is known to be there and expired nonces are gone.
  unfoldable pub release_checks :
      KeyBroker Cert
      → AttestationReport
      → Text
      → Option (Dict Text)
      → Result ReleaseError (Unit {0})
  unfolding contains
  release_checks b report resource certificates = do
    raise_if (not (contains report.nonce b.issued_nonces)) unknown_nonce
    verify_proof b report resource certificates

  unfoldable pub release :
      (now : ℕ) (resource : Text)
      → AttestationReport
      → Option (Dict Text)
      → KeyBroker Cert
      → Result ReleaseError Credentials × KeyBroker Cert
  unfolding expire_nonces
  release now resource report certificates b = elim (lookup resource b.secrets) [
    | none ↦ (err no_secret, b)
    | some credentials ↦
        let b' = expire_nonces now b in
        elim (release_checks b' report resource certificates) [
          | err e ↦ (err e, b')
          | ok _ ↦
              (ok credentials, record b' { issued_nonces = erase report.nonce b'.issued_nonces })
        ]
  ]
