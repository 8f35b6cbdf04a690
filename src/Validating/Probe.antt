-- ===== src/Validating/Probe.antt =====
-- `MinerEvaluator._probe` (sentinel/validating/evaluator.py). `err value_error` is an exception that
-- leaves the method, and with it the round.
pub mod Outcome
use sentinel_subnet.Attestation.{
  AttestationReport, Crypto, Failure, bind_response, many, one, refused, value_error, verify,
}
use sentinel_subnet.SevSnp.Certs.{Pki}
use sentinel_subnet.SevSnp.Verifier.{Kds}
use sentinel_subnet.Validating.Floats.{Floats}
use sentinel_subnet.Validating.Scoring.{latency_score, no_scores}
use sentinel_subnet.Validating.Evaluator.{
  ChallengeOutcome, Decoders, Health, Miner, MinerEvaluator, MinerResponse, MinerTarget, ProbeError,
  attestation_rejected, client_error, header, malformed_attestation, no_public_key, verify_hardware,
}
use sentinel_subnet.Base.Result.{Result, err, map_err, ok, ◌>>=◌, ◌>>◌}
use sentinel_subnet.Base.Text.{Text, codes, has_part, lower, text_eq, truthy}
use sentinel_subnet.Base.{
  Bool, [], false, given_or, if◌then◌else◌, is_some, none, not, some, take, true, zero, ◌&&◌, ◌++◌,
}

-- `health.get("attestation") == "sev-snp"`
unfoldable pub is_sevsnp : Health → Bool
unfolding text_eq
is_sevsnp h = elim h.attestation [ none ↦ false | some kind ↦ text_eq kind (codes "sev-snp") ]

-- `health.get("attestation") != "sev-snp"` and no public key, or an empty one
unfoldable pub lacks_key : Health → Bool
unfolding is_sevsnp truthy
lacks_key health = not (is_sevsnp health) && not (is_some (truthy health.public_key))

-- `f"probe-{nonce[:12]}"`
unfoldable pub probe_id : Text → Text
probe_id nonce = codes "probe-" ++ take 12 nonce

module _ (n : Floats) where
  open n use {F, zero, one}

  -- `1.0 if b else 0.0`
  unfoldable pub point : Bool → F
  point b = if b then one else zero

  unfoldable pub new_outcome : MinerTarget → ChallengeOutcome n
  new_outcome t = record {
    uid = t.uid;
    hotkey_ss58 = t.hotkey_ss58;
    scores = no_scores n;
    verified = false;
    latency_ms = zero;
    response_hash = none;
    error = none;
    correctness_gated = false;
  }

  unfoldable pub fail : ProbeError → ChallengeOutcome n → ChallengeOutcome n
  fail e o = record o { error = some e }

  -- The outcome once the answer has come: latency, cache hygiene and the claimed hash.
  unfoldable pub answered : MinerTarget → MinerResponse n → (latency : F) → ChallengeOutcome n
  unfolding new_outcome point header lower has_part
  answered t r latency = record (new_outcome t) {
    latency_ms = r.latency_ms;
    response_hash = r.response_hash;
    scores = record (no_scores n) {
      latency = latency;
      cache_hygiene =
          point (has_part (codes "no-store") (lower (header r.headers (codes "Cache-Control"))));
    };
  }

  -- The nonce of the report is scored.
  unfoldable pub nonce_scored : Bool → ChallengeOutcome n → ChallengeOutcome n
  unfolding point
  nonce_scored same o = record o { scores = record o.scores { nonce_discipline = point same } }

  -- `outcome.verified = True; outcome.scores.attestation = 1.0`
  unfoldable pub pass : ChallengeOutcome n → ChallengeOutcome n
  pass o = record o { verified = true; scores = record o.scores { attestation = one } }

  -- The end of the `try` around the verification.
  unfoldable pub judged :
      Result Failure (Unit {0}) → ChallengeOutcome n → Result Failure (ChallengeOutcome n)
  unfolding pass fail
  judged (ok _) o = ok (pass o)
  judged (err (refused r)) o = ok (fail (attestation_rejected r) o)
  judged (err value_error) o = err value_error

module _ {Cert Key : Type 0} (k : Pki Cert Key) (kds : Kds Cert) (c : Crypto) (d : Decoders Cert)
    (n : Floats) (e : MinerEvaluator n) where
  -- The report's verification, on the path that `/health` named.
  unfoldable pub verify_answer :
      Health → AttestationReport → (nonce binding : Text) → Result Failure (Unit {0})
  unfolding is_sevsnp
  verify_answer health report nonce binding =
      if is_sevsnp health
      then verify_hardware k kds c d n e report health binding nonce
      else verify c report (given_or health.public_key []) (many e.approved_measurement) nonce
          e.min_tcb (some binding)

  -- From the response on.
  unfoldable pub assess :
      MinerTarget → Health → (nonce : Text) → MinerResponse n → Result Failure (ChallengeOutcome n)
  unfolding answered nonce_scored fail judged probe_id bind_response text_eq
  assess t health nonce r = do
    latency ←
        map_err (λ _. value_error)
          (latency_score n r.latency_ms e.latency_target_ms e.latency_ceiling_ms)
    let o = answered n t r latency
    elim r.attestation [
      | none ↦ ok (fail n malformed_attestation o)
      | some report ↦
          judged n
            (verify_answer health report nonce
              (bind_response c (probe_id nonce) (given_or r.response_hash [])))
            (nonce_scored n (text_eq report.nonce nonce) o)
    ]

  unfoldable pub probe :
      MinerTarget → (nonce : Text) → Miner n → Result Failure (ChallengeOutcome n)
  unfolding new_outcome fail probe_id lacks_key
  probe t nonce miner = elim miner.health [
    | none ↦ ok (fail n client_error (new_outcome n t))
    | some health ↦
        if lacks_key health
        then ok (fail n no_public_key (new_outcome n t))
        else elim (miner.call nonce (probe_id nonce)) [
          | none ↦ ok (fail n client_error (new_outcome n t))
          | some r ↦ assess t health nonce r
        ]
  ]
