-- ===== src/Kbs/Release.antt =====
-- What a release proves, and what a refusal leaves alone (sentinel/kbs.py).
use sentinel_subnet.Attestation.{AttestationReport, canonical}
use sentinel_subnet.Attestation.Verify.{Accepts, verify_iff}
use sentinel_subnet.Kbs.{
  Credentials, HardwareVerifier, KeyBroker, Platform, as_release_error, choose_verifier, crashed,
  expire_nonces, leaf_of, looks_like_sevsnp, no_leaf, other_resource, release, release_binding,
  release_checks, untrusted_chip, verify_proof, verify_registered_key, verify_sevsnp,
}
use sentinel_subnet.Base.Result.{
  >>=-eq-ok, Result-cases, map_err, map_err-ok, ok, or_raise, or_raise-ok, raise_if-ok,
}
use sentinel_subnet.Base.Text.{Text, text_eq_iff}
use sentinel_subnet.Base.Dict.{
  Dict, IsDict, contains, erase, lookup, lookup-erase_self, lookup-retain, lookup-retain-none,
}
use sentinel_subnet.Base.{
  Bool-cases, Option, Option-cases, arith, false, given_or, inl, inr, leb, none, refl, some, true,
  ℕ, ◌≡◌, ◌≤◌, ◌⊎◌,
}

module _ {Cert : Type 0} (p : Platform Cert) where
  -- The proof of a registered chip: its key accepts the report, for this resource.
  pub record RegisteredProof (b : KeyBroker Cert) (report : AttestationReport) (resource : Text)
      : Type 0 where
    pub public_key : Text
    pub trusted : lookup report.chip_id b.trusted_chips ≡ some public_key
    pub accepted :
        Accepts p.crypto report public_key b.policy.approved_measurement report.nonce
          b.policy.min_tcb
          (some (release_binding p.crypto resource))

  -- The proof of hardware: a verifier that the broker was set up with accepts the report under the
  -- chip's certificate, and the report is bound to this resource.
  pub record HardwareProof (b : KeyBroker Cert) (report : AttestationReport) (resource : Text)
      (certificates : Option (Dict Text)) : Type 0 where
    pub verifier : HardwareVerifier Cert
    pub chosen : choose_verifier b (given_or certificates b.sevsnp_certs) ≡ ok verifier
    pub leaf : Text
    pub leaf_given : leaf_of (given_or certificates b.sevsnp_certs) ≡ some leaf
    pub vcek : Cert
    pub vcek_read : p.load_der leaf ≡ some vcek
    pub signed : verifier.verify_signed_message (canonical report) report.signature vcek ≡ ok tt
    pub bound : report.report_data ≡ release_binding p.crypto resource

  verify_registered_key-ok :
      (b : KeyBroker Cert) (report : AttestationReport) (resource : Text)
      → verify_registered_key p b report resource ≡ ok tt
      → RegisteredProof b report resource
  unfolding verify_registered_key
  verify_registered_key-ok b report resource h =
      let (key, trusted, h₁) =
        >>=-eq-ok (or_raise (lookup report.chip_id b.trusted_chips) untrusted_chip) _ h in
      record {
        public_key = key;
        trusted = or_raise-ok _ untrusted_chip trusted;
        accepted =
            (verify_iff p.crypto report key b.policy.approved_measurement report.nonce
                b.policy.min_tcb (some (release_binding p.crypto resource))).0
              (map_err-ok as_release_error _ h₁);
      }

  verify_sevsnp-ok :
      (b : KeyBroker Cert) (report : AttestationReport) (resource : Text)
      (certificates : Option (Dict Text))
      → verify_sevsnp p b report resource certificates ≡ ok tt
      → HardwareProof b report resource certificates
  unfolding verify_sevsnp
  verify_sevsnp-ok b report resource certificates h =
      let certs = given_or certificates b.sevsnp_certs in
      let (verifier, chosen, h₁) = >>=-eq-ok (choose_verifier b certs) _ h in
      let (leaf, given, h₂) = >>=-eq-ok (or_raise (leaf_of certs) no_leaf) _ h₁ in
      let (vcek, read, h₃) = >>=-eq-ok (or_raise (p.load_der leaf) crashed) _ h₂ in
      let (u, signed, h₄) =
        >>=-eq-ok
          (map_err as_release_error
            (verifier.verify_signed_message (canonical report) report.signature vcek))
          _ h₃ in
      record {
        verifier = verifier;
        chosen = chosen;
        leaf = leaf;
        leaf_given = or_raise-ok _ no_leaf given;
        vcek = vcek;
        vcek_read = or_raise-ok _ crashed read;
        signed = map_err-ok as_release_error _ signed;
        bound = ground (
          arith,
          raise_if-ok _ other_resource h₄,
          text_eq_iff report.report_data (release_binding p.crypto resource),
        );
      }

  -- How a report proved itself: by its shape, one of the two ways.
  abbrev pub Proof : KeyBroker Cert → AttestationReport → Text → Option (Dict Text) → Type 0
  Proof b report resource certificates =
      ((looks_like_sevsnp report.signature ≡ true) × HardwareProof b report resource certificates)
      ⊎ ((looks_like_sevsnp report.signature ≡ false) × RegisteredProof b report resource)

  verify_proof-ok :
      (b : KeyBroker Cert) (report : AttestationReport) (resource : Text)
      (certificates : Option (Dict Text))
      → verify_proof p b report resource certificates ≡ ok tt
      → Proof b report resource certificates
  unfolding verify_proof
  verify_proof-ok b report resource certificates h =
      elim (Bool-cases (looks_like_sevsnp report.signature)) [
        | inl hard ↦ inl (hard, verify_sevsnp-ok b report resource certificates (rw hard at h))
        | inr soft ↦ inr (soft, verify_registered_key-ok b report resource (rw soft at h))
      ]

  -- The two ends of `release`.
  pub release-inversion :
      (now : ℕ) (resource : Text) (report : AttestationReport) (certificates : Option (Dict Text))
      (b b' : KeyBroker Cert) (credentials : Credentials)
      → release p now resource report certificates b ≡ (ok credentials, b')
      → (lookup resource b.secrets ≡ some credentials)
        × (release_checks p (expire_nonces now b) report resource certificates ≡ ok tt)
        × (b'.issued_nonces ≡ erase report.nonce (expire_nonces now b).issued_nonces)
  unfolding release
  release-inversion now resource report certificates b b' credentials h =
      elim (Result-cases (release_checks p (expire_nonces now b) report resource certificates)) [
        | inl (u, e) ↦ ground arith
        | inr (r, e) ↦ absurd (ground arith)
      ]

  pub release_checks-ok :
      (b : KeyBroker Cert) (report : AttestationReport) (resource : Text)
      (certificates : Option (Dict Text))
      → release_checks p b report resource certificates ≡ ok tt
      → (contains report.nonce b.issued_nonces ≡ true)
        × (verify_proof p b report resource certificates ≡ ok tt)
  unfolding release_checks
  release_checks-ok b report resource certificates h = ground arith

  Proof-bound :
      (b : KeyBroker Cert) (report : AttestationReport) (resource : Text)
      (certificates : Option (Dict Text))
      → Proof b report resource certificates
      → report.report_data ≡ release_binding p.crypto resource
  Proof-bound b report resource certificates (inl (shape, hard)) = hard.bound
  Proof-bound b report resource certificates (inr (shape, soft)) =
      soft.accepted.bound (release_binding p.crypto resource) refl

pub live_nonce :
    {Cert : Type 0} (now : ℕ) (nonce : Text) (b : KeyBroker Cert)
    → IsDict b.issued_nonces
    → contains nonce (expire_nonces now b).issued_nonces ≡ true
    → (expiry : ℕ) × (lookup nonce b.issued_nonces ≡ some expiry) × (now ≤ expiry)
unfolding expire_nonces contains
live_nonce now nonce b d h = elim (Option-cases (lookup nonce b.issued_nonces)) [
  | inl gone ↦ absurd (
      ground
        (arith, lookup-retain-none (λ (k : Text) (e : ℕ). leb now e) nonce b.issued_nonces gone))
  | inr (expiry, e) ↦ (
    expiry,
    e,
    ground (arith, lookup-retain (λ (k : Text) (e : ℕ). leb now e) nonce b.issued_nonces d),
  )
]

-- The proofs do not look at the nonces.
unexpired :
    {Cert : Type 0} (p : Platform Cert) (now : ℕ) (b : KeyBroker Cert) (report : AttestationReport)
    (resource : Text) (certificates : Option (Dict Text))
    → Proof p (expire_nonces now b) report resource certificates
    → Proof p b report resource certificates
unfolding expire_nonces choose_verifier
unexpired p now b report resource certificates (inl (shape, h)) = inl (
  shape,
  record {
    verifier = h.verifier;
    chosen = h.chosen;
    leaf = h.leaf;
    leaf_given = h.leaf_given;
    vcek = h.vcek;
    vcek_read = h.vcek_read;
    signed = h.signed;
    bound = h.bound;
  },
)
unexpired p now b report resource certificates (inr (shape, h)) =
    inr (shape, record { public_key = h.public_key; trusted = h.trusted; accepted = h.accepted })

-- With issued nonces that form a dictionary: only a credential that is stored for the resource is released, and only on a report whose nonce
-- the broker issued and whose time is not over, that proved itself in the way its shape asks for,
-- and that is bound to this resource. The nonce is spent by it.
pub release_sound :
    {Cert : Type 0} (p : Platform Cert) (now : ℕ) (resource : Text) (report : AttestationReport)
    (certificates : Option (Dict Text)) (b b' : KeyBroker Cert) (credentials : Credentials)
    → IsDict b.issued_nonces
    → release p now resource report certificates b ≡ (ok credentials, b')
    → (lookup resource b.secrets ≡ some credentials)
      × ((expiry : ℕ) × (lookup report.nonce b.issued_nonces ≡ some expiry) × (now ≤ expiry))
      × Proof p b report resource certificates
      × (report.report_data ≡ release_binding p.crypto resource)
      × (lookup report.nonce b'.issued_nonces ≡ none)
release_sound p now resource report certificates b b' credentials d h =
    let (stored, checked, spent) =
      release-inversion p now resource report certificates b b' credentials h in
    let (live, proved) =
      release_checks-ok p (expire_nonces now b) report resource certificates checked in
    let proof =
      unexpired p now b report resource certificates
        (verify_proof-ok p (expire_nonces now b) report resource certificates proved) in
    (
      stored,
      live_nonce now report.nonce b d live,
      proof,
      Proof-bound p b report resource certificates proof,
      rw spent (lookup-erase_self report.nonce (expire_nonces now b).issued_nonces),
    )
