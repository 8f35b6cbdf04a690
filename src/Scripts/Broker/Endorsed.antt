-- ===== src/Scripts/Broker/Endorsed.antt =====
-- What a broker that the script built, with no mock chip allowed, releases on (scripts/run_broker.py with
-- sentinel/kbs_remote.py, sentinel/kbs.py and sentinel/sevsnp/verifier.py).
use sentinel_subnet.Attestation.{AttestationReport, bad_hex, canonical, refused}
use sentinel_subnet.SevSnp.Report.{AttestationReportBlob}
use sentinel_subnet.SevSnp.Certs.{Pki}
use sentinel_subnet.SevSnp.Verifier.{Kds, SevSnpPolicy, SevSnpVerifier, verify_signed_message}
use sentinel_subnet.SevSnp.Verifier.Verdict.{Verdict, verify_report-Verdict}
use sentinel_subnet.Kbs.{
  Credentials, HardwareVerifier, KeyBroker, Platform, choose_verifier, factory_failed, leaf_of,
  release, store_secret,
}
use sentinel_subnet.Kbs.Release.{HardwareProof, release_sound}
use sentinel_subnet.Remote.Factory.{
  Built, FactoryError, all_from_hex, as_hardware, as_hardware-ok, build, build-chain,
  verifier_factory,
}
use sentinel_subnet.Scripts.Scopes.{broker_scopes}
use sentinel_subnet.Scripts.Broker.{
  BrokerArgs, bad_factory, bad_scope, build_broker, floor_of, kept_factory, store_all,
  trusting_broker,
}
use sentinel_subnet.Base.Result.{
  >>=-eq-ok, Result, Result-cases, map_err, map_err-ok, ok, ok-injective, or_raise, or_raise-ok,
}
use sentinel_subnet.Base.Text.{Text}
use sentinel_subnet.Base.Dict.{Dict, IsDict, lookup}
use sentinel_subnet.Base.Bytes.{from_hex}
use sentinel_subnet.Base.{
  Option, [], ap, arith, false, given_or, inl, inr, none, refl, some, subst, sym, ℕ, ◌∙◌, ◌∷◌, ◌≡◌,
  ◌≢◌,
}

-- Two brokers of one configuration: they differ in the nonces at most.
pub record SameTrust {Cert : Type 0} (b b' : KeyBroker Cert) : Type 0 where
  pub policy : b'.policy ≡ b.policy
  pub sevsnp : b'.sevsnp ≡ b.sevsnp
  pub certs : b'.sevsnp_certs ≡ b.sevsnp_certs
  pub factory : b'.sevsnp_factory ≡ b.sevsnp_factory
  pub secrets : b'.secrets ≡ b.secrets
  pub chips : b'.trusted_chips ≡ b.trusted_chips

module _ {Cert Key : Type 0} (k : Pki Cert Key) (kds : Kds Cert) (p : Platform Cert) where
  -- A processor of the product stands behind the report: what it signed holds the report; its own
  -- certificate, and both of the chain that ends in the root pinned for the product, are those that
  -- came; and what it measured is one of the operator's measurements.
  pub record Endorsement (args : BrokerArgs) (report : AttestationReport) (certs : Dict Text)
      : Type 0 where
    pub verifier : SevSnpVerifier Cert
    pub approved : all_from_hex args.measurement ≡ ok verifier.policy.approved
    pub debugging : verifier.policy.allow_debug ≡ false
    pub built : Built p.load_der args.product certs verifier
    pub blob : Text
    pub carried : from_hex report.signature ≡ some blob
    pub vcek : Cert
    pub leaf : Text
    pub leaf_given : leaf_of certs ≡ some leaf
    pub leaf_read : p.load_der leaf ≡ some vcek
    pub hardware : AttestationReportBlob
    pub verdict :
        Verdict k kds verifier blob (some (p.crypto.sha512 (canonical report))) (some vcek) hardware

  -- A broker with the script's verifier for hardware, and no chip that is trusted by its key.
  record Trusts (args : BrokerArgs) (b : KeyBroker Cert) : Type 0 where
    make : Dict Text → Result FactoryError (SevSnpVerifier Cert)
    made :
        verifier_factory p.load_der args.product args.measurement (floor_of args.min_tcb) ≡ ok make
    factory : b.sevsnp_factory ≡ some (kept_factory k kds p make)
    no_verifier : b.sevsnp ≡ none
    no_certs : b.sevsnp_certs ≡ []
    no_chips : b.trusted_chips ≡ []

  store_all-Trusts :
      (args : BrokerArgs) (scopes : Dict Text) (b : KeyBroker Cert)
      → Trusts args b
      → Trusts args (store_all scopes b)
  unfolding store_all
  store_all-Trusts args [] b t = t
  store_all-Trusts args ((name, dsn) ∷ scopes) b t =
      store_all-Trusts args scopes (store_secret name dsn b) (record {
        make = t.make;
        made = t.made;
        factory = t.factory;
        no_verifier = t.no_verifier;
        no_certs = t.no_certs;
        no_chips = t.no_chips;
      })

  trusting_broker-Trusts :
      (args : BrokerArgs) (b : KeyBroker Cert)
      → trusting_broker k kds p args [] ≡ ok b
      → Trusts args b
  unfolding trusting_broker
  trusting_broker-Trusts args b h =
      let (make, made, same) =
        >>=-eq-ok
          (map_err bad_factory
            (verifier_factory p.load_der args.product args.measurement (floor_of args.min_tcb)))
          _ h in
      subst (Trusts args) (ok-injective same) (record {
        make = make;
        made = map_err-ok bad_factory _ made;
        factory = refl;
        no_verifier = refl;
        no_certs = refl;
        no_chips = refl;
      })

  build_broker-Trusts :
      (args : BrokerArgs) (b : KeyBroker Cert)
      → args.allow_mock_chip ≡ []
      → build_broker k kds p args ≡ ok b
      → Trusts args b
  unfolding build_broker
  build_broker-Trusts args b nobody h =
      let (b₀, trusting, h₁) = >>=-eq-ok (trusting_broker k kds p args args.allow_mock_chip) _ h in
      let (scopes, parsed, same) = >>=-eq-ok (map_err bad_scope (broker_scopes args.scope)) _ h₁ in
      subst (Trusts args) (ok-injective same) (
        store_all-Trusts args scopes b₀ (
          trusting_broker-Trusts args b₀
            (ap (trusting_broker k kds p args) (sym nobody) ∙ trusting)))

  factory_built :
      (args : BrokerArgs) (make : Dict Text → Result FactoryError (SevSnpVerifier Cert))
      (certs : Dict Text) (v : SevSnpVerifier Cert)
      → verifier_factory p.load_der args.product args.measurement (floor_of args.min_tcb) ≡ ok make
      → make certs ≡ ok v
      → (all_from_hex args.measurement ≡ ok v.policy.approved)
        × (v.policy.allow_debug ≡ false)
        × Built p.load_der args.product certs v
  unfolding verifier_factory
  factory_built args make certs v made built =
      let (approved, read, same) = >>=-eq-ok (all_from_hex args.measurement) _ made in
      let (policy, built_chain) = build-chain p.load_der args.product _ certs v (
        ap (λ (m : Dict Text → Result FactoryError (SevSnpVerifier Cert)). m certs)
          (ok-injective same)
        ∙ built) in
      (
        read ∙ ap (λ (q : SevSnpPolicy). ok q.approved) (sym policy),
        ap (λ (q : SevSnpPolicy). q.allow_debug) policy,
        built_chain,
      )

  untrusted :
      (b : KeyBroker Cert) (chip key : Text)
      → b.trusted_chips ≡ []
      → lookup chip b.trusted_chips ≢ some key
  unfolding lookup
  untrusted b chip key nobody found =
      let gone : none ≡ some key = ap (lookup chip) (sym nobody) ∙ found in cc gone

  factory_used :
      (b : KeyBroker Cert) (certs : Dict Text) (build : Dict Text → Option (HardwareVerifier Cert))
      → b.sevsnp ≡ none
      → b.sevsnp_factory ≡ some build
      → choose_verifier b certs ≡ or_raise (build certs) factory_failed
  unfolding choose_verifier
  factory_used b certs build bare kept = ground (arith, bare, kept)

  kept_factory-some :
      (make : Dict Text → Result FactoryError (SevSnpVerifier Cert)) (certs : Dict Text)
      (used : HardwareVerifier Cert)
      → kept_factory k kds p make certs ≡ some used
      → (v : SevSnpVerifier Cert) × (make certs ≡ ok v) × (used ≡ as_hardware k kds p.crypto v)
  unfolding kept_factory
  kept_factory-some make certs used h = elim (Result-cases (make certs)) [
    | inl (v, made) ↦ (v, made, sym (cc (rw (made, kept_factory) at h)))
    | inr (e, raised) ↦ cc (rw (raised, kept_factory) at h)
  ]

  -- The verifier that such a broker uses for certificates is the one the factory builds around them.
  chosen_built :
      (args : BrokerArgs) (b : KeyBroker Cert) (certs : Dict Text) (used : HardwareVerifier Cert)
      (t : Trusts args b)
      → choose_verifier b certs ≡ ok used
      → (v : SevSnpVerifier Cert) × (t.make certs ≡ ok v) × (used ≡ as_hardware k kds p.crypto v)
  chosen_built args b certs used t chosen =
      kept_factory-some t.make certs used (
        or_raise-ok _ factory_failed
          (sym (factory_used b certs _ t.no_verifier t.factory) ∙ chosen))

  signed_message :
      (v : SevSnpVerifier Cert) (message report_hex : Text) (vcek : Cert)
      (hardware : AttestationReportBlob)
      → verify_signed_message k kds p.crypto v message report_hex (some vcek) ≡ ok hardware
      → (blob : Text) × (from_hex report_hex ≡ some blob)
        × Verdict k kds v blob (some (p.crypto.sha512 message)) (some vcek) hardware
  unfolding verify_signed_message
  signed_message v message report_hex vcek hardware h =
      let (blob, read, h₁) = >>=-eq-ok (or_raise (from_hex report_hex) (refused bad_hex)) _ h in
      (
        blob,
        or_raise-ok _ (refused bad_hex) read,
        verify_report-Verdict k kds v blob _ (some vcek) hardware h₁,
      )

  hardware_endorsed :
      (args : BrokerArgs) (b : KeyBroker Cert) (resource : Text) (report : AttestationReport)
      (certificates : Option (Dict Text))
      → Trusts args b
      → HardwareProof p b report resource certificates
      → Endorsement args report (given_or certificates [])
  hardware_endorsed args b resource report certificates t h =
      let came : given_or certificates b.sevsnp_certs ≡ given_or certificates [] =
        ap (given_or certificates) t.no_certs in
      let (v, made, same) = chosen_built args b _ h.verifier t h.chosen in
      let (hardware, accepted) =
        as_hardware-ok k kds p.crypto v (canonical report) report.signature h.vcek (
          ap
            (λ (w : HardwareVerifier Cert).
              w.verify_signed_message (canonical report) report.signature h.vcek)
            (sym same)
          ∙ h.signed) in
      let (blob, carried, verdict) =
        signed_message v (canonical report) report.signature h.vcek hardware accepted in
      let (approved, debugging, built) = factory_built args t.make _ v t.made made in
      record {
        verifier = v;
        approved = approved;
        debugging = debugging;
        built = subst (λ certs. Built p.load_der args.product certs v) came built;
        blob = blob;
        carried = carried;
        vcek = h.vcek;
        leaf = h.leaf;
        leaf_given = ap leaf_of (sym came) ∙ h.leaf_given;
        leaf_read = h.vcek_read;
        hardware = hardware;
        verdict = verdict;
      }

  -- A broker that `build_broker` set up with no mock chip allowed, and whatever it has been asked
  -- since, with issued nonces that form a dictionary, releases only on a report that a processor
  -- stands behind: its own certificate and the two of its chain are read from the certificates that
  -- came with the report, the chain is anchored to the root pinned for the product, the measurement is
  -- one that the operator named, and debugging is off.
  pub release-Endorsement :
      (args : BrokerArgs) (b b' b'' : KeyBroker Cert) (now : ℕ) (resource : Text)
      (report : AttestationReport) (certificates : Option (Dict Text)) (credentials : Credentials)
      → args.allow_mock_chip ≡ []
      → build_broker k kds p args ≡ ok b
      → SameTrust b b'
      → IsDict b'.issued_nonces
      → release p now resource report certificates b' ≡ (ok credentials, b'')
      → Endorsement args report (given_or certificates [])
  release-Endorsement args b b' b'' now resource report certificates credentials nobody built same d
        h =
      let t = build_broker-Trusts args b nobody built in
      let t' : Trusts args b' = record {
        make = t.make;
        made = t.made;
        factory = same.factory ∙ t.factory;
        no_verifier = same.sevsnp ∙ t.no_verifier;
        no_certs = same.certs ∙ t.no_certs;
        no_chips = same.chips ∙ t.no_chips;
      } in
      let (stored, live, proof, bound, spent) =
        release_sound p now resource report certificates b' b'' credentials d h in
      elim proof [
        | inl (shape, hard) ↦ hardware_endorsed args b' resource report certificates t' hard
        | inr (shape, soft) ↦
            absurd (untrusted b' report.chip_id soft.public_key t'.no_chips soft.trusted)
      ]
