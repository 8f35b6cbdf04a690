-- ===== src/Enclave/Respond.antt =====
-- An attested reply is accepted by whoever checks it (sentinel/enclave.py).
use sentinel_subnet.Attestation.{
  Approved, AttestationReport, Crypto, attest, bind_response, canonical, unsigned, verify,
}
use sentinel_subnet.Attestation.Allowed.{Allows, given}
use sentinel_subnet.Attestation.Verify.{verify-attest}
use sentinel_subnet.Enclave.{AttestedResponse, Enclave, attest_result, run_attested}
use sentinel_subnet.Base.Json.{Json, dumps}
use sentinel_subnet.Base.Result.{>>=-eq-ok, Result, ok, ok-injective}
use sentinel_subnet.Base.Text.{Text, lower, strip}
use sentinel_subnet.Base.Int.{ℤ, ◌≤ℤ◌}
use sentinel_subnet.Base.{ap, refl, some, subst, sym, true, ◌∙◌, ◌≡◌}

-- What was attested is what `work` returned.
pub run_attested-result :
    {E : Type 0} (c : Crypto) (e : Enclave E) (request_id nonce : Text) (work : Result E Json)
    (response : AttestedResponse)
    → run_attested c request_id nonce work e ≡ ok response
    → (work ≡ ok response.result) × (response.response_hash ≡ c.sha384 (dumps response.result))
unfolding run_attested attest_result
run_attested-result c e request_id nonce work response h =
    let (result, worked, h₁) = >>=-eq-ok work _ h in
    let (report, attested, made) =
      >>=-eq-ok (attest e.agent nonce (bind_response c request_id (c.sha384 (dumps result)))) _
        h₁ in
    subst
      (λ (a : AttestedResponse).
        (work ≡ ok a.result) × (a.response_hash ≡ c.sha384 (dumps a.result)))
      (ok-injective made) (worked, refl)

module _ {E : Type 0} (c : Crypto) (e : Enclave E) where
  attest-signed :
      (nonce bound : Text) (r : AttestationReport)
      → attest e.agent nonce bound ≡ ok r
      → (s : Text) × (e.agent.silicon.sign (canonical (unsigned e.agent nonce bound)) ≡ ok s)
        × (r ≡ record (unsigned e.agent nonce bound) { signature = s })
  unfolding attest
  attest-signed nonce bound r h =
      let (s, signed, made) =
        >>=-eq-ok (e.agent.silicon.sign (canonical (unsigned e.agent nonce bound))) _ h in
      (s, signed, sym (ok-injective made))

  -- The report of a reply is over its nonce, and binds the request and the response hash.
  pub run_attested-report :
      (request_id nonce : Text) (work : Result E Json) (response : AttestedResponse)
      → run_attested c request_id nonce work e ≡ ok response
      → (response.attestation.nonce ≡ nonce)
        × (response.attestation.report_data ≡ bind_response c request_id response.response_hash)
  unfolding run_attested attest_result unsigned
  run_attested-report request_id nonce work response h =
      let (result, worked, h₁) = >>=-eq-ok work _ h in
      let bound = bind_response c request_id (c.sha384 (dumps result)) in
      let (report, attested, made) = >>=-eq-ok (attest e.agent nonce bound) _ h₁ in
      let (s, signed, shape) = attest-signed nonce bound report attested in
      subst
        (λ (a : AttestedResponse).
          (a.attestation.nonce ≡ nonce)
          × (a.attestation.report_data ≡ bind_response c request_id a.response_hash))
        (ok-injective made)
        (
          ap (λ (r : AttestationReport). r.nonce) shape,
          ap (λ (r : AttestationReport). r.report_data) shape,
        )

module _ {E : Type 0} (c : Crypto) (e : Enclave E) (key : Text) (approved : Approved)
    (min_tcb : ℤ) where
  -- What an enclave with an approved image replies, on a chip whose signatures verify under `key` and
  -- on firmware at or above the floor, is accepted for the request and nonce it was made for, and the
  -- response hash is the digest of the result that `work` returned.
  pub run_attested-verify :
      (request_id nonce : Text) (work : Result E Json) (response : AttestedResponse)
      → c.is_key key ≡ true
      → ((m s : Text) → e.agent.silicon.sign m ≡ ok s → c.ed25519_valid key m s ≡ true)
      → Allows (lower (strip e.agent.launch_measurement)) (given approved)
      → min_tcb ≤ℤ e.agent.tcb_level
      → run_attested c request_id nonce work e ≡ ok response
      → (work ≡ ok response.result)
        × (response.response_hash ≡ c.sha384 (dumps response.result))
        × (verify c response.attestation key approved nonce min_tcb
              (some (bind_response c request_id response.response_hash))
            ≡ ok tt)
  unfolding run_attested attest_result
  run_attested-verify request_id nonce work response key_read genuine measured level h =
      let (result, worked, h₁) = >>=-eq-ok work _ h in
      let hash = c.sha384 (dumps result) in
      let bound = bind_response c request_id hash in
      let (report, attested, made) = >>=-eq-ok (attest e.agent nonce bound) _ h₁ in
      let (s, signed, shape) = attest-signed c e nonce bound report attested in
      let (r, attested', accepted) =
        verify-attest c e.agent key approved min_tcb nonce bound s key_read genuine measured level
          signed in
      let same : r ≡ report = ok-injective (sym attested' ∙ attested) in
      subst
        (λ (a : AttestedResponse).
          (work ≡ ok a.result)
          × (a.response_hash ≡ c.sha384 (dumps a.result))
          × (verify c a.attestation key approved nonce min_tcb
                (some (bind_response c request_id a.response_hash))
              ≡ ok tt))
        (ok-injective made)
        (
          worked,
          refl,
          subst (λ t. verify c t key approved nonce min_tcb (some bound) ≡ ok tt) same accepted,
        )
