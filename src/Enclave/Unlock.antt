-- ===== src/Enclave/Unlock.antt =====
-- Who gets a credential (sentinel/enclave.py with sentinel/kbs.py).
use sentinel_subnet.Attestation.{AttestationReport, attest, canonical, unsigned, verify}
use sentinel_subnet.Attestation.Allowed.{Allows, given}
use sentinel_subnet.Attestation.Verify.{verify-attest}
use sentinel_subnet.Kbs.{
  Credentials, KeyBroker, Platform, ReleaseError, challenge, expire_nonces, looks_like_sevsnp,
  release, release_binding, release_checks, verify_proof, verify_registered_key,
}
use sentinel_subnet.Enclave.{Enclave, credential_for, keep_credentials, unlock}
use sentinel_subnet.Base.Result.{Result, err, ok, ok-injective}
use sentinel_subnet.Base.Text.{Text, lower, strip}
use sentinel_subnet.Base.Dict.{
  Dict, IsDict, contains, insert, insert-IsDict, lookup, lookup-insert_self, lookup-retain,
  retain-IsDict,
}
use sentinel_subnet.Base.Int.{◌≤ℤ◌}
use sentinel_subnet.Base.{
  Option, ap, arith, false, leb, some, subst, sym, true, ℕ, ◌+◌, ◌∙◌, ◌≡◌, ◌≤◌,
}

live_challenge :
    {Cert : Type 0} (now later : ℕ) (nonce : Text) (b : KeyBroker Cert)
    → IsDict b.issued_nonces
    → later ≤ now + b.policy.nonce_ttl
    → contains nonce (expire_nonces later (challenge now nonce b)).issued_nonces ≡ true
unfolding challenge expire_nonces contains
live_challenge now later nonce b d in_time =
    let issued = insert nonce (now + b.policy.nonce_ttl) (expire_nonces now b).issued_nonces in
    let unique : IsDict issued = insert-IsDict nonce _ _ (retain-IsDict _ b.issued_nonces d) in
    let kept = lookup-retain (λ (k : Text) (expiry : ℕ). leb later expiry) nonce issued unique in
    let own =
      lookup-insert_self nonce (now + b.policy.nonce_ttl) (expire_nonces now b).issued_nonces in
    ground (arith, kept, own, in_time)

module _ {Cert : Type 0} (p : Platform Cert) where
  release-proved :
      (later : ℕ) (resource : Text) (report : AttestationReport) (certificates : Option (Dict Text))
      (b : KeyBroker Cert) (credentials : Credentials)
      → lookup resource b.secrets ≡ some credentials
      → contains report.nonce (expire_nonces later b).issued_nonces ≡ true
      → verify_proof p (expire_nonces later b) report resource certificates ≡ ok tt
      → (release p later resource report certificates b).0 ≡ ok credentials
  unfolding release release_checks
  release-proved later resource report certificates b credentials stored live proved =
      ground (arith, stored, live, proved)

  registered_proof :
      (b : KeyBroker Cert) (report : AttestationReport) (resource key : Text)
      (certificates : Option (Dict Text))
      → looks_like_sevsnp report.signature ≡ false
      → lookup report.chip_id b.trusted_chips ≡ some key
      → verify p.crypto report key b.policy.approved_measurement report.nonce b.policy.min_tcb
          (some (release_binding p.crypto resource))
        ≡ ok tt
      → verify_proof p b report resource certificates ≡ ok tt
  unfolding verify_proof verify_registered_key
  registered_proof b report resource key certificates soft trusted accepted =
      ground (arith, soft, trusted, accepted)

module _ {E Cert : Type 0} (p : Platform Cert) where
  keep_credentials-ok :
      (resource : Text) (e : Enclave E) (answer : Result ReleaseError Credentials × KeyBroker Cert)
      (credentials : Credentials)
      → answer.0 ≡ ok credentials
      → ((keep_credentials resource e answer).0 ≡ ok credentials)
        × (credential_for resource (keep_credentials resource e answer).1 ≡ some credentials)
  unfolding keep_credentials credential_for
  keep_credentials-ok resource e (ok c, b) credentials h =
      let same : c ≡ credentials = ok-injective h in
      (ap ok same, lookup-insert_self resource c e.credentials ∙ ap some same)
  keep_credentials-ok resource e (err r, b) credentials h = cc h

  pub unlock-attested :
      (now later : ℕ) (nonce resource : Text) (e : Enclave E) (b : KeyBroker Cert)
      (report : AttestationReport)
      → attest e.agent nonce (release_binding p.crypto resource) ≡ ok report
      → unlock p now later nonce resource e b
        ≡ keep_credentials resource e
            (release p later resource report e.certificates (challenge now nonce b))
  unfolding unlock
  unlock-attested now later nonce resource e b report h = ground (arith, h)

  -- An enclave that is what it should be gets its credential: with issued nonces that form a dictionary, a registered key that verifies its
  -- chip's signatures, an approved image, firmware at or above the floor, a chip that signs, and an
  -- answer while the challenge lives, it is given what is stored for the resource, and keeps it.
  pub honest_unlock :
      (now later : ℕ) (nonce resource key signature : Text) (e : Enclave E) (b : KeyBroker Cert)
      (credentials : Credentials)
      → IsDict b.issued_nonces
      → later ≤ now + b.policy.nonce_ttl
      → lookup resource b.secrets ≡ some credentials
      → lookup e.agent.silicon.chip_id b.trusted_chips ≡ some key
      → p.crypto.is_key key ≡ true
      → ((m s : Text) → e.agent.silicon.sign m ≡ ok s → p.crypto.ed25519_valid key m s ≡ true)
      → Allows (lower (strip e.agent.launch_measurement)) (given b.policy.approved_measurement)
      → b.policy.min_tcb ≤ℤ e.agent.tcb_level
      → e.agent.silicon.sign
          (canonical (unsigned e.agent nonce (release_binding p.crypto resource)))
        ≡ ok signature
      → looks_like_sevsnp signature ≡ false
      → ((unlock p now later nonce resource e b).0 ≡ ok credentials)
        × (credential_for resource (unlock p now later nonce resource e b).1 ≡ some credentials)
  unfolding unsigned expire_nonces challenge
  honest_unlock now later nonce resource key signature e b credentials unique in_time stored trusted
        key_read genuine measured level signed soft =
      let binding = release_binding p.crypto resource in
      let report : AttestationReport = record (unsigned e.agent nonce binding) {
        signature = signature;
      } in
      let attested : attest e.agent nonce binding ≡ ok report =
        unfold attest in ground (arith, signed) in
      let (r, attested', accepted) =
        verify-attest p.crypto e.agent key b.policy.approved_measurement b.policy.min_tcb nonce
          binding signature key_read genuine measured level signed in
      let same : r ≡ report = ok-injective (sym attested' ∙ attested) in
      let proved =
        registered_proof p (expire_nonces later (challenge now nonce b)) report resource key
          e.certificates soft trusted
          (subst
            (λ t.
              verify p.crypto t key b.policy.approved_measurement nonce b.policy.min_tcb
                (some binding)
              ≡ ok tt)
            same accepted) in
      let released =
        release-proved p later resource report e.certificates (challenge now nonce b) credentials
          stored (live_challenge now later nonce b unique in_time) proved in
      let kept =
        keep_credentials-ok resource e
          (release p later resource report e.certificates (challenge now nonce b)) credentials
          released in
      rw (unlock-attested now later nonce resource e b report attested) kept
