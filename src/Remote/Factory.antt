-- ===== src/Remote/Factory.antt =====
-- sentinel/kbs_remote.py: `verifier_factory`, and `SevSnpVerifier` as the verifier of a broker.
use sentinel_subnet.Attestation.{Crypto}
use sentinel_subnet.Kbs.{HardwareVerifier}
use sentinel_subnet.SevSnp.Report.{AttestationReportBlob}
use sentinel_subnet.SevSnp.Certs.{CertChain, Pki}
use sentinel_subnet.SevSnp.Verifier.{
  Kds, SevSnpPolicy, SevSnpVerifier, TcbFloor, min_tcb_for, verify_signed_message,
}
use sentinel_subnet.Base.Result.{>>=-eq-ok, Result, ok, ok-injective, or_raise, or_raise-ok, ◌>>=◌}
use sentinel_subnet.Base.Text.{Text, codes}
use sentinel_subnet.Base.Dict.{Dict, lookup}
use sentinel_subnet.Base.Bytes.{from_hex}
use sentinel_subnet.Base.{
  List, Option, [], false, given_or, none, refl, some, subst, true, ◌∷◌, ◌≡◌,
}

-- The verifier that `verify_signed_message` belongs to, as the broker calls it.
unfoldable pub as_hardware :
    {Cert Key : Type 0}
    → Pki Cert Key
    → Kds Cert
    → Crypto
    → SevSnpVerifier Cert
    → HardwareVerifier Cert
as_hardware k kds c v = record {
  verify_signed_message = λ message report_hex vcek.
      verify_signed_message k kds c v message report_hex (some vcek) >>= (λ report. ok tt);
}

-- What building raises.
pub data FactoryError : Type 0 where
  bad_measurement missing_certificates unreadable_certificate : FactoryError

-- `[bytes.fromhex(m) for m in measurements]`
unfoldable pub all_from_hex : List Text → Result FactoryError (List Text)
unfolding from_hex
all_from_hex [] = ok []
all_from_hex (m ∷ ms) = do
  bytes ← or_raise (from_hex m) bad_measurement
  rest ← all_from_hex ms
  ok (bytes ∷ rest)

module _ {Cert : Type 0} (load_der : Text → Option Cert) where
  -- `build`, which needs both certificates of the chain
  unfoldable pub build :
      (product : Text) → SevSnpPolicy → Dict Text → Result FactoryError (SevSnpVerifier Cert)
  unfolding lookup
  build product policy certs = do
    ask_der ← or_raise (lookup (codes "ASK") certs) missing_certificates
    ark_der ← or_raise (lookup (codes "ARK") certs) missing_certificates
    ask ← or_raise (load_der ask_der) unreadable_certificate
    ark ← or_raise (load_der ark_der) unreadable_certificate
    ok (record {
      product = product;
      policy = policy;
      chain =
          some
            (record { product = product; ask = ask; ark = ark; expected_root_spki_sha256 = none });
      offline = true;
    })

  -- `verifier_factory`: the measurements are read at once, the certificates with each report.
  unfoldable pub verifier_factory :
      (product : Text) (measurements : List Text)
      → Option TcbFloor
      → Result FactoryError (Dict Text → Result FactoryError (SevSnpVerifier Cert))
  unfolding all_from_hex min_tcb_for build
  verifier_factory product measurements min_tcb = do
    approved ← all_from_hex measurements
    ok (
        build product (record {
          approved = approved;
          floor = given_or min_tcb (min_tcb_for product);
          allow_debug = false;
        }))

  -- The certificate that stands under a name.
  pub record Named (certs : Dict Text) (name : Text) (cert : Cert) : Type 0 where
    pub der : Text
    pub given : lookup name certs ≡ some der
    pub read : load_der der ≡ some cert

  -- The chain of the certificates that came, for the product.
  pub record Built (product : Text) (certs : Dict Text) (v : SevSnpVerifier Cert) : Type 0 where
    pub chain : CertChain Cert
    pub chain_given : v.chain ≡ some chain
    pub of_product : chain.product ≡ product
    pub pinned : chain.expected_root_spki_sha256 ≡ none
    pub ask_came : Named certs (codes "ASK") chain.ask
    pub ark_came : Named certs (codes "ARK") chain.ark

  -- What the built verifier trusts: the chain that came, for the product.
  pub build-chain :
      (product : Text) (policy : SevSnpPolicy) (certs : Dict Text) (v : SevSnpVerifier Cert)
      → build product policy certs ≡ ok v
      → (v.policy ≡ policy) × Built product certs v
  unfolding build
  build-chain product policy certs v h =
      let (ask_der, ask_given, h₁) =
        >>=-eq-ok (or_raise (lookup (codes "ASK") certs) missing_certificates) _ h in
      let (ark_der, ark_given, h₂) =
        >>=-eq-ok (or_raise (lookup (codes "ARK") certs) missing_certificates) _ h₁ in
      let (ask, ask_read, h₃) =
        >>=-eq-ok (or_raise (load_der ask_der) unreadable_certificate) _ h₂ in
      let (ark, ark_read, made) =
        >>=-eq-ok (or_raise (load_der ark_der) unreadable_certificate) _ h₃ in
      subst (λ (w : SevSnpVerifier Cert). (w.policy ≡ policy) × Built product certs w)
        (ok-injective made)
        (
          refl,
          record {
            chain = _;
            chain_given = refl;
            of_product = refl;
            pinned = refl;
            ask_came = record {
              der = ask_der;
              given = or_raise-ok _ missing_certificates ask_given;
              read = or_raise-ok _ unreadable_certificate ask_read;
            };
            ark_came = record {
              der = ark_der;
              given = or_raise-ok _ missing_certificates ark_given;
              read = or_raise-ok _ unreadable_certificate ark_read;
            };
          },
        )

-- A verifier that accepts, as the broker sees it, has accepted a report.
pub as_hardware-ok :
    {Cert Key : Type 0} (k : Pki Cert Key) (kds : Kds Cert) (c : Crypto) (v : SevSnpVerifier Cert)
    (message report_hex : Text) (vcek : Cert)
    → (as_hardware k kds c v).verify_signed_message message report_hex vcek ≡ ok tt
    → (report : AttestationReportBlob) × (verify_signed_message k kds c v message report_hex
          (some vcek)
        ≡ ok report)
unfolding as_hardware
as_hardware-ok k kds c v message report_hex vcek h =
    let (report, accepted, e) =
      >>=-eq-ok (verify_signed_message k kds c v message report_hex (some vcek)) (λ report. ok tt)
        h in
    (report, accepted)
