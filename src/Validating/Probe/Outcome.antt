-- ===== src/Validating/Probe/Outcome.antt =====
-- What a probe's outcome says, and when it raises (sentinel/validating/evaluator.py).
use sentinel_subnet.Attestation.{AttestationReport, Crypto, bind_response, value_error, verify}
use sentinel_subnet.SevSnp.Certs.{Pki}
use sentinel_subnet.SevSnp.Verifier.{Kds}
use sentinel_subnet.Validating.Floats.{Floats}
use sentinel_subnet.Validating.Scoring.{latency_score}
use sentinel_subnet.Validating.Evaluator.{
  ChallengeOutcome, Decoders, Health, Miner, MinerEvaluator, MinerResponse, MinerTarget,
}
use sentinel_subnet.Validating.Probe.{
  assess, is_sevsnp, judged, lacks_key, probe, probe_id, verify_answer,
}
use sentinel_subnet.Base.Result.{Result-cases, err, map_err, ok}
use sentinel_subnet.Base.Text.{Text, truthy}
use sentinel_subnet.Base.{
  Bool-cases, Option-cases, [], arith, false, given_or, inl, inr, is_some, none, some, true, ◌≡◌,
}

-- An outcome that is verified, or has no points for attestation and a reason.
pub record IsSettled (n : Floats) (o : ChallengeOutcome n) : Type 0 where
  pub proved : o.verified ≡ true → (o.scores.attestation ≡ n.one) × (o.error ≡ none)
  pub unproved : o.verified ≡ false → (o.scores.attestation ≡ n.zero) × (is_some o.error ≡ true)

module _ {Cert Key : Type 0} (k : Pki Cert Key) (kds : Kds Cert) (c : Crypto) (d : Decoders Cert)
    (n : Floats) (e : MinerEvaluator n) where
  assess-IsSettled :
      (t : MinerTarget) (health : Health) (nonce : Text) (r : MinerResponse n)
      (o : ChallengeOutcome n)
      → assess k kds c d n e t health nonce r ≡ ok o
      → (o.uid ≡ t.uid) × (o.hotkey_ss58 ≡ t.hotkey_ss58) × IsSettled n o
  unfolding assess
  assess-IsSettled t health nonce r o h = ground arith

  -- Every outcome names its target, and is verified with full points for attestation or is
  -- unverified with none and a reason.
  pub probe-IsSettled :
      (t : MinerTarget) (nonce : Text) (miner : Miner n) (o : ChallengeOutcome n)
      → probe k kds c d n e t nonce miner ≡ ok o
      → (o.uid ≡ t.uid) × (o.hotkey_ss58 ≡ t.hotkey_ss58) × IsSettled n o
  unfolding probe
  probe-IsSettled t nonce miner o h = elim (Option-cases miner.health) [
    | inl silent ↦ ground arith
    | inr (health, up) ↦ elim (Bool-cases (lacks_key health)) [
      | inl no_key ↦ ground arith
      | inr keyed ↦ elim (Option-cases (miner.call nonce (probe_id nonce))) [
        | inl failed ↦ ground arith
        | inr (r, came) ↦ ground (arith, assess-IsSettled t health nonce r o)
      ]
    ]
  ]

  -- The report that a miner's answer carries, and that it was accepted for this probe.
  pub record Proved (nonce : Text) (miner : Miner n) (o : ChallengeOutcome n) : Type 0 where
    pub health : Health
    pub up : miner.health ≡ some health
    pub response : MinerResponse n
    pub came : miner.call nonce (probe_id nonce) ≡ some response
    pub report : AttestationReport
    pub carried : response.attestation ≡ some report
    pub hash_kept : o.response_hash ≡ response.response_hash
    pub accepted :
        verify_answer k kds c d n e health report nonce
          (bind_response c (probe_id nonce) (given_or response.response_hash []))
        ≡ ok tt

  assess-Proved :
      (t : MinerTarget) (health : Health) (nonce : Text) (miner : Miner n) (r : MinerResponse n)
      (o : ChallengeOutcome n)
      → miner.health ≡ some health
      → miner.call nonce (probe_id nonce) ≡ some r
      → assess k kds c d n e t health nonce r ≡ ok o
      → o.verified ≡ true
      → Proved nonce miner o
  unfolding assess
  assess-Proved t health nonce miner r o up came h v = elim (Option-cases r.attestation) [
    | inl missing ↦ absurd (ground arith)
    | inr (report, carried) ↦ record {
      health = health;
      up = up;
      response = r;
      came = came;
      report = report;
      carried = carried;
      hash_kept = ground arith;
      accepted = ground arith;
    }
  ]

  -- A verified outcome rests on a report that the miner sent, that was accepted for the nonce that
  -- the validator drew and for the response hash that the outcome votes with.
  pub probe-Proved :
      (t : MinerTarget) (nonce : Text) (miner : Miner n) (o : ChallengeOutcome n)
      → probe k kds c d n e t nonce miner ≡ ok o
      → o.verified ≡ true
      → Proved nonce miner o
  unfolding probe
  probe-Proved t nonce miner o h v = elim (Option-cases miner.health) [
    | inl silent ↦ absurd (ground arith)
    | inr (health, up) ↦ elim (Bool-cases (lacks_key health)) [
      | inl no_key ↦ absurd (ground arith)
      | inr keyed ↦ elim (Option-cases (miner.call nonce (probe_id nonce))) [
        | inl failed ↦ absurd (ground arith)
        | inr (r, came) ↦ assess-Proved t health nonce miner r o up came (ground arith) v
      ]
    ]
  ]

  -- The answer of a keyed mock miner whose key is none is not verified but raises.
  verify_answer-bad_key :
      (health : Health) (report : AttestationReport) (nonce binding key : Text)
      → is_sevsnp health ≡ false
      → truthy health.public_key ≡ some key
      → c.is_key key ≡ false
      → verify_answer k kds c d n e health report nonce binding ≡ err value_error
  unfolding verify_answer truthy verify
  verify_answer-bad_key health report nonce binding key soft keyed unreadable =
      elim (Option-cases health.public_key) [
        | inl missing ↦ absurd (ground arith)
        | inr (text, given) ↦ ground arith
      ]

  assess-raises :
      (t : MinerTarget) (health : Health) (nonce : Text) (r : MinerResponse n)
      (report : AttestationReport)
      → r.attestation ≡ some report
      → ((binding : Text)
          → verify_answer k kds c d n e health report nonce binding ≡ err value_error)
      → assess k kds c d n e t health nonce r ≡ err value_error
  unfolding assess judged
  assess-raises t health nonce r report carried raises =
      elim (Result-cases (
        map_err (λ _. value_error)
          (latency_score n r.latency_ms e.latency_target_ms e.latency_ceiling_ms))) [
            | inl (l, ok_l) ↦
                ground
                  (arith, raises (bind_response c (probe_id nonce) (given_or r.response_hash [])))
            | inr (f, bad) ↦ ground arith
          ]

  -- A miner that calls itself a mock and advertises a text that is no key makes the probe raise:
  -- its answer is well formed, and the exception is none that the probe catches.
  pub bad_key_raises :
      (t : MinerTarget) (nonce key : Text) (health : Health) (miner : Miner n) (r : MinerResponse n)
      (report : AttestationReport)
      → miner.health ≡ some health
      → is_sevsnp health ≡ false
      → truthy health.public_key ≡ some key
      → c.is_key key ≡ false
      → miner.call nonce (probe_id nonce) ≡ some r
      → r.attestation ≡ some report
      → probe k kds c d n e t nonce miner ≡ err value_error
  unfolding probe lacks_key
  bad_key_raises t nonce key health miner r report up soft keyed unreadable came carried =
      let raises : assess k kds c d n e t health nonce r ≡ err value_error =
        assess-raises t health nonce r report carried (λ binding.
          verify_answer-bad_key health report nonce binding key soft keyed unreadable) in
      ground arith
