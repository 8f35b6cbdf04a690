-- ===== src/Remote/Unlock.antt =====
-- `Enclave.unlock` over the network against `unlock` beside the broker (sentinel/enclave.py with
-- sentinel/kbs_remote.py).
use sentinel_subnet.Attestation.{AttestationReport, Crypto, attest}
use sentinel_subnet.Base.Json.{Fields, Json}
use sentinel_subnet.Kbs.{
  Credentials, KeyBroker, Platform, ReleaseError, challenge, crashed, factory_failed, no_leaf,
  no_secret, no_verifier, other_resource, rejected, release, release_binding, unknown_nonce,
  untrusted_chip,
}
use sentinel_subnet.Enclave.{Enclave, UnlockError, chip_failed, keep_credentials, unlock, withheld}
use sentinel_subnet.Remote.Client.{
  ClientRuntime, RemoteUnlockError, keep_remote, no_credential, no_report, prove_remote,
  remote_unlock,
}
use sentinel_subnet.Remote.Broker.{BrokerRuntime}
use sentinel_subnet.Remote.Refines.{
  ChallengeWire, Wire, as_remote, network, remote_challenge-challenge, remote_release-release, sent,
}
use sentinel_subnet.Base.Result.{Result, Result-cases, err, map_err, ok}
use sentinel_subnet.Base.Text.{Text}
use sentinel_subnet.Base.Dict.{Dict}
use sentinel_subnet.Base.{arith, inl, inr, refl, ℕ, ◌≡◌}

-- What a local failure to unlock is over the network.
abbrev pub as_remote_unlock :
    {E : Type 0} (refusal : ReleaseError → Text)
    → Result (UnlockError E) Credentials
    → Result (RemoteUnlockError E) Credentials
as_remote_unlock refusal (ok credentials) = ok credentials
as_remote_unlock refusal (err (chip_failed e)) = err (no_report e)
as_remote_unlock refusal (err (withheld r)) = map_err no_credential (as_remote refusal (err r))

module _ {E Cert : Type 0} (c : Crypto) (p : Platform Cert) (server : BrokerRuntime)
    (client : ClientRuntime) (to_bytes : Json → Text)
    (untyped : Fields → KeyBroker Cert → Result ReleaseError Credentials × KeyBroker Cert)
    (headers : Dict Text) where
  keep_both :
      (resource : Text) (e : Enclave E)
      (answered : Result ReleaseError Credentials × KeyBroker Cert)
      → keep_remote resource e (as_remote server.refusal answered.0, answered.1) ≡ (
        as_remote_unlock server.refusal (keep_credentials resource e answered).0,
        (keep_credentials resource e answered).1,
        (keep_credentials resource e answered).2,
      )
  unfolding keep_remote keep_credentials
  keep_both resource e (ok credentials, b) = refl
  keep_both resource e (err crashed, b) = refl
  keep_both resource e (err no_secret, b) = refl
  keep_both resource e (err unknown_nonce, b) = refl
  keep_both resource e (err untrusted_chip, b) = refl
  keep_both resource e (err no_verifier, b) = refl
  keep_both resource e (err no_leaf, b) = refl
  keep_both resource e (err other_resource, b) = refl
  keep_both resource e (err factory_failed, b) = refl
  keep_both resource e (err (rejected r), b) = refl

  -- An enclave that unlocks over the network ends as one beside the broker: with the same credential,
  -- the same credentials kept and the same broker, or with the failure that answers to the local one.
  -- For a challenge and a release that each side reads as the other wrote them, and certificates that
  -- are not an empty dictionary.
  pub remote_unlock-unlock :
      (now later : ℕ) (nonce drawn resource : Text) (e : Enclave E) (b : KeyBroker Cert)
      → sent e.certificates ≡ e.certificates
      → ChallengeWire c p server client to_bytes untyped headers nonce
      → ((report : AttestationReport)
          → attest e.agent nonce (release_binding p.crypto resource) ≡ ok report
          → Wire c p server client to_bytes untyped headers later resource report e.certificates
              (challenge now nonce b))
      → remote_unlock p.crypto client
          (network c p server client to_bytes untyped headers now nonce)
          (network c p server client to_bytes untyped headers later drawn)
          resource
          e
          b
        ≡ (
          as_remote_unlock server.refusal (unlock p now later nonce resource e b).0,
          (unlock p now later nonce resource e b).1,
          (unlock p now later nonce resource e b).2,
        )
  unfolding remote_unlock unlock prove_remote
  remote_unlock-unlock now later nonce drawn resource e b full asked wire =
      let challenged =
        remote_challenge-challenge c p server client to_bytes untyped headers now nonce b asked in
      elim (Result-cases (attest e.agent nonce (release_binding p.crypto resource))) [
        | inl (report, made) ↦
            let released =
              remote_release-release c p server client to_bytes untyped headers later drawn resource
                report e.certificates (challenge now nonce b) (wire report made) in
            let both =
              keep_both resource e
                (release p later resource report (sent e.certificates) (challenge now nonce b)) in
            rw challenged (ground (arith, made, released, both, full))
        | inr (failed, raised) ↦ rw challenged (ground (arith, raised))
      ]
