-- ===== src/Enclave.antt =====
-- sentinel/enclave.py: from the credential to the attested reply. A silicon's certificates, which not
-- every silicon has, stand beside the agent; results are JSON values.
pub mod Unlock
pub mod Respond
use sentinel_subnet.Attestation.{AttestationAgent, AttestationReport, Crypto, attest, bind_response}
use sentinel_subnet.Kbs.{
  Credentials, KeyBroker, Platform, ReleaseError, challenge, release, release_binding,
}
use sentinel_subnet.Base.Json.{Fields, Json, dumps, end, field, int, obj, str}
use sentinel_subnet.Base.Result.{Result, err, ok, ◌>>=◌, ◌>>◌}
use sentinel_subnet.Base.Text.{Text, codes}
use sentinel_subnet.Base.Dict.{Dict, insert, lookup}
use sentinel_subnet.Base.{Option, ℕ}

pub record AttestedResponse : Type 0 where
  pub result : Json
  pub attestation : AttestationReport
  pub response_hash : Text

-- `asdict` of a report, and `AttestedResponse.to_dict`
unfoldable pub report_fields : AttestationReport → Fields
report_fields r = field (codes "chip_id") (str r.chip_id) (
    field (codes "launch_measurement") (str r.launch_measurement) (
      field (codes "tcb_level") (int r.tcb_level) (
        field (codes "nonce") (str r.nonce) (
          field (codes "report_data") (str r.report_data)
            (field (codes "signature") (str r.signature) end)))))

unfoldable pub attested_fields : AttestedResponse → Fields
unfolding report_fields
attested_fields a = field (codes "result") a.result (
    field (codes "attestation") (obj (report_fields a.attestation))
      (field (codes "response_hash") (str a.response_hash) end))

pub record Enclave (E : Type 0) : Type 0 where
  pub agent : AttestationAgent E
  -- `getattr(self.silicon, "certificates", None)`
  pub certificates : Option (Dict Text)
  pub credentials : Dict Credentials

-- What `unlock` raises: what the chip raises, or the broker's refusal.
pub data UnlockError (E : Type 0) : Type 0 where
  chip_failed : E → UnlockError E
  withheld : ReleaseError → UnlockError E

module _ {E : Type 0} where
  -- The end of `unlock`, with the broker's answer.
  unfoldable pub keep_credentials :
      {B : Type 0} (resource : Text)
      → Enclave E
      → Result ReleaseError Credentials × B
      → Result (UnlockError E) Credentials × Enclave E × B
  unfolding insert
  keep_credentials resource e (err r, b) = (err (withheld r), e, b)
  keep_credentials resource e (ok c, b) =
      (ok c, record e { credentials = insert resource c e.credentials }, b)

  -- The challenge is issued at `now`, with the nonce that the broker draws, and answered at `later`.
  unfoldable pub unlock :
      {Cert : Type 0}
      → Platform Cert
      → (now later : ℕ) (nonce resource : Text) → Enclave E
      → KeyBroker Cert
      → Result (UnlockError E) Credentials × Enclave E × KeyBroker Cert
  unfolding attest release_binding challenge keep_credentials
  unlock p now later nonce resource e b =
      let b' = challenge now nonce b in
      elim (attest e.agent nonce (release_binding p.crypto resource)) [
        | err failed ↦ (err (chip_failed failed), e, b')
        | ok report ↦
            keep_credentials resource e (release p later resource report e.certificates b')
      ]

  unfoldable pub credential_for : Text → Enclave E → Option Credentials
  unfolding lookup
  credential_for resource e = lookup resource e.credentials

  unfoldable pub attest_result :
      Crypto
      → (request_id : Text) (result : Json) (nonce : Text) → Enclave E
      → Result E AttestedResponse
  unfolding attest bind_response dumps
  attest_result c request_id result nonce e = do
    let response_hash = c.sha384 (dumps result)
    report ← attest e.agent nonce (bind_response c request_id response_hash)
    ok (record { result = result; attestation = report; response_hash = response_hash })

  -- What `work` raises leaves the method.
  unfoldable pub run_attested :
      Crypto
      → (request_id nonce : Text) (work : Result E Json) → Enclave E
      → Result E AttestedResponse
  unfolding attest_result
  run_attested c request_id nonce work e = do
    result ← work
    attest_result c request_id result nonce e
