-- ===== src/Validating/Round/Earned.antt =====
-- What a miner's weight in a round rests on (`MinerEvaluator.evaluate_round`,
-- sentinel/validating/evaluator.py).
use sentinel_subnet.Attestation.{Crypto}
use sentinel_subnet.SevSnp.Certs.{Pki}
use sentinel_subnet.SevSnp.Verifier.{Kds}
use sentinel_subnet.Validating.Floats.{Floats}
use sentinel_subnet.Validating.Evaluator.{
  ChallengeOutcome, Decoders, Miner, MinerEvaluator, MinerTarget,
}
use sentinel_subnet.Validating.Probe.{probe}
use sentinel_subnet.Validating.Probe.Outcome.{Proved, probe-Proved}
use sentinel_subnet.Validating.Round.{Trial, evaluate_round, outcome_weight, settle}
use sentinel_subnet.Validating.Round.Verdict.{
  Pairwise, evaluate_round-Pairwise, settle-IsVerdict, settle-kept,
}
use sentinel_subnet.Base.Result.{ok}
use sentinel_subnet.Base.Text.{Text}
use sentinel_subnet.Base.{Bool, Bool-cases, List, Option, inl, inr, ◌∙◌, ◌≡◌, ◌≢◌}

module _ {Cert Key : Type 0} (k : Pki Cert Key) (kds : Kds Cert) (c : Crypto) (d : Decoders Cert)
    (n : Floats) (e : MinerEvaluator n) where
  settle-Proved :
      (majority : Option Text) (gate : Bool) (nonce : Text) (miner : Miner n)
      (o : ChallengeOutcome n)
      → Proved k kds c d n e nonce miner o
      → Proved k kds c d n e nonce miner (settle n majority gate o)
  settle-Proved majority gate nonce miner o p = record {
    health = p.health;
    up = p.up;
    response = p.response;
    came = p.came;
    report = p.report;
    carried = p.carried;
    hash_kept = (settle-kept n majority gate o).3 ∙ p.hash_kept;
    accepted = p.accepted;
  }

  -- An outcome for its target, whose weight rests on a report that was accepted for the nonce drawn.
  pub record Earned (trial : Trial k kds c d n e) (o : ChallengeOutcome n) : Type 0 where
    pub uid : o.uid ≡ trial.0.uid
    pub by_proof : outcome_weight n o ≢ n.zero → Proved k kds c d n e trial.1 trial.2 o

  settle-Earned :
      (majority : Option Text) (gate : Bool) (t : MinerTarget) (nonce : Text) (miner : Miner n)
      (o : ChallengeOutcome n)
      → probe k kds c d n e t nonce miner ≡ ok o
      → Earned (t, nonce, miner) (settle n majority gate o)
  settle-Earned majority gate t nonce miner o h =
      let verdict = settle-IsVerdict k kds c d n e majority gate t nonce miner o h in
      record {
        uid = verdict.uid;
        by_proof = λ weighs. elim (Bool-cases o.verified) [
          | inl v ↦
              settle-Proved majority gate nonce miner o
                (probe-Proved k kds c d n e t nonce miner o h v)
          | inr v ↦ absurd (weighs (verdict.worthless ((settle-kept n majority gate o).2 ∙ v)))
        ];
      }

  -- In a round that returns, a miner has a weight other than zero only by a report it sent, accepted
  -- for the nonce drawn for it and for the response hash it voted with.
  pub evaluate_round-Earned :
      (trials : List (Trial k kds c d n e)) (os : List (ChallengeOutcome n))
      → evaluate_round k kds c d n e trials ≡ ok os
      → Pairwise k kds c d n e Earned trials os
  evaluate_round-Earned = evaluate_round-Pairwise k kds c d n e Earned settle-Earned
