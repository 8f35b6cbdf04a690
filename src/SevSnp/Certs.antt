-- ===== src/SevSnp/Certs.antt =====
-- sentinel/sevsnp/certs.py: AMD's certificate chain, ARK → ASK → VCEK.
pub mod Anchor
pub mod Cache
use sentinel_subnet.Base.Result.{Result, err, ok, or_raise, raise_if, ◌>>=◌, ◌>>◌}
use sentinel_subnet.Base.Text.{Text, codes, text_eq}
use sentinel_subnet.Base.Dict.{Dict, lookup}
use sentinel_subnet.Base.{Bool, List, Option, [], if◌then◌else◌, none, not, some, ℕ, ◌∷◌}

-- The messages of `CertificateError`.
pub data CertificateError : Type 0 where
  not_self_signed no_pinned_root not_amd_root no_hash_algorithm : CertificateError
  unsupported_key bad_signature not_p384 : CertificateError
  unknown_product fetch_failed wrong_count no_chain : CertificateError

pub data KeyKind : Type 0 where
  rsa elliptic_p384 elliptic_other other_kind : KeyKind

-- The `cryptography` package: certificates and keys as it shows them.
pub record Pki (Cert Key : Type 0) : Type 0 where
  pub subject : Cert → Text
  pub issuer : Cert → Text
  pub public_key : Cert → Key
  pub kind : Key → KeyKind
  -- `cert.signature_hash_algorithm is not None`
  pub has_hash_algorithm : Cert → Bool
  -- Whether the key verifies the certificate's signature over its signed part: RSA with PSS, or
  -- ECDSA, with the certificate's hash algorithm.
  pub verifies : Key → Cert → Bool
  -- SHA-256 over the key's SubjectPublicKeyInfo, in hexadecimal (`root_spki_sha256`).
  pub spki_sha256 : Key → Text
  -- `key.verify(encode_dss_signature(r, s), message, ECDSA(SHA384()))`
  pub ecdsa_valid : Key → (r s : ℕ) → (message : Text) → Bool

pub record CertChain (Cert : Type 0) : Type 0 where
  pub product : Text
  pub ask : Cert
  pub ark : Cert
  pub expected_root_spki_sha256 : Option Text

abbrev pub milan_root : Text
milan_root = codes "9f056bee44377e29308cb5ffa895bdfb62d18881fa6bed8d6f075b0204089cb9"

-- `AMD_ROOT_SPKI_SHA256`
unfoldable pub amd_root_spki_sha256 : Dict Text
amd_root_spki_sha256 = (codes "Milan", milan_root) ∷ []

-- `self.expected_root_spki_sha256 or AMD_ROOT_SPKI_SHA256.get(self.product)`
unfoldable pub expected_root : Option Text → Text → Option Text
unfolding lookup amd_root_spki_sha256
expected_root (some (c ∷ s)) product = some (c ∷ s)
expected_root given product = lookup product amd_root_spki_sha256

module _ {Cert Key : Type 0} (k : Pki Cert Key) where
  -- `_verify_cert_signature(cert, issuer_key, …)`
  unfoldable pub check_by_kind : KeyKind → Cert → Key → Result CertificateError (Unit {0})
  check_by_kind rsa cert key = do
    raise_if (not (k.has_hash_algorithm cert)) no_hash_algorithm
    raise_if (not (k.verifies key cert)) bad_signature
  check_by_kind elliptic_p384 cert key = raise_if (not (k.verifies key cert)) bad_signature
  check_by_kind elliptic_other cert key = raise_if (not (k.verifies key cert)) bad_signature
  check_by_kind other_kind cert key = err unsupported_key

  unfoldable pub verify_cert_signature : Cert → Key → Result CertificateError (Unit {0})
  unfolding check_by_kind
  verify_cert_signature cert key = check_by_kind (k.kind key) cert key

  unfoldable pub verify_self : CertChain Cert → Result CertificateError (Unit {0})
  unfolding text_eq expected_root
  verify_self chain = do
    raise_if (not (text_eq (k.subject chain.ark) (k.issuer chain.ark))) not_self_signed
    verify_cert_signature chain.ark (k.public_key chain.ark)
    expected ← or_raise (expected_root chain.expected_root_spki_sha256 chain.product) no_pinned_root
    raise_if (not (text_eq (k.spki_sha256 (k.public_key chain.ark)) expected)) not_amd_root
    verify_cert_signature chain.ask (k.public_key chain.ark)

  unfoldable pub require_p384 : KeyKind → Result CertificateError (Unit {0})
  require_p384 elliptic_p384 = ok tt
  require_p384 _ = err not_p384

  unfoldable pub verify_vcek : Cert → CertChain Cert → Result CertificateError (Unit {0})
  unfolding require_p384
  verify_vcek vcek chain = do
    verify_self chain
    verify_cert_signature vcek (k.public_key chain.ask)
    require_p384 (k.kind (k.public_key vcek))

  -- `load_cert_chain`, once the PEM is split into certificates: the root is told by its
  -- self-signature, so the order does not matter.
  unfoldable pub load_cert_chain : Text → List Cert → Result CertificateError (CertChain Cert)
  unfolding text_eq
  load_cert_chain product (first ∷ second ∷ []) =
      if text_eq (k.subject first) (k.issuer first)
      then ok (record {
        product = product;
        ask = second;
        ark = first;
        expected_root_spki_sha256 = none;
      })
      else ok (record {
        product = product;
        ask = first;
        ark = second;
        expected_root_spki_sha256 = none;
      })
  load_cert_chain product _ = err wrong_count
