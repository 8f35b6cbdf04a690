-- ===== src/Validating/Round.antt =====
-- `evaluate_round` and `weights_from` (sentinel/validating/evaluator.py).
pub mod Votes
pub mod Verdict
pub mod Earned
use sentinel_subnet.Attestation.{Crypto, Failure, one}
use sentinel_subnet.SevSnp.Certs.{Pki}
use sentinel_subnet.SevSnp.Verifier.{Kds}
use sentinel_subnet.Validating.Floats.{Floats}
use sentinel_subnet.Validating.Scoring.{weight}
use sentinel_subnet.Validating.Evaluator.{
  ChallengeOutcome, Decoders, Miner, MinerEvaluator, MinerTarget,
}
use sentinel_subnet.Validating.Probe.{probe}
use sentinel_subnet.Base.Result.{Result, ok, ◌>>=◌, ◌>>◌}
use sentinel_subnet.Base.Text.{Text, text_eq, truthy}
use sentinel_subnet.Base.Dict.{Dict, insert, lookup}
use sentinel_subnet.Base.{
  Bool, List, Option, [], given_or, if◌then◌else◌, leb, ltb, map, none, some, zero, ℕ, ◌+◌, ◌∷◌,
}

abbrev pub min_miners_for_correctness_gate : ℕ
min_miners_for_correctness_gate = 3

-- `Counter`: one more vote for a hash.
unfoldable pub count_vote : Text → Dict ℕ → Dict ℕ
unfolding lookup insert
count_vote hash votes = insert hash (given_or (lookup hash votes) 0 + 1) votes

module _ (n : Floats) where
  open n use {F, zero, one, le, add, div}

  -- The hash that an outcome votes for: `o.verified and o.response_hash`.
  unfoldable pub ballot : ChallengeOutcome n → Option Text
  unfolding truthy
  ballot o = if o.verified then truthy o.response_hash else none

  unfoldable pub cast : Option Text → Dict ℕ → Dict ℕ
  unfolding count_vote
  cast none votes = votes
  cast (some hash) votes = count_vote hash votes

  -- The ballots counted from the left, so that the hashes stand in the order of their first vote.
  unfoldable pub tally_from : Dict ℕ → List (ChallengeOutcome n) → Dict ℕ
  unfolding ballot cast
  tally_from votes [] = votes
  tally_from votes (o ∷ os) = tally_from (cast (ballot o) votes) os

  unfoldable pub tally : List (ChallengeOutcome n) → Dict ℕ
  unfolding tally_from
  tally os = tally_from [] os

  -- `most_common(1)`: the first of those with the most votes.
  unfoldable pub leader_from : Text → ℕ → Dict ℕ → Text
  leader_from best most [] = best
  leader_from best most ((hash, count) ∷ votes) =
      if ltb most count then leader_from hash count votes else leader_from best most votes

  unfoldable pub majority_of : Dict ℕ → Option Text
  unfolding leader_from
  majority_of [] = none
  majority_of ((hash, count) ∷ votes) = some (leader_from hash count votes)

  -- `sum(votes.values())`
  unfoldable pub vote_count : Dict ℕ → ℕ
  vote_count [] = 0
  vote_count ((hash, count) ∷ votes) = count + vote_count votes

  -- `1.0 if outcome.response_hash == majority else 0.0`
  unfoldable pub agreement : Text → Option Text → F
  unfolding text_eq
  agreement majority none = zero
  agreement majority (some hash) = if text_eq hash majority then one else zero

  unfoldable pub with_correctness : Option Text → ChallengeOutcome n → ChallengeOutcome n
  unfolding agreement
  with_correctness none o = o
  with_correctness (some majority) o =
      if o.verified
      then record o {
        scores = record o.scores { correctness = agreement majority o.response_hash };
      }
      else o

  -- The loop's body, without what it logs.
  unfoldable pub settle : Option Text → (gate : Bool) → ChallengeOutcome n → ChallengeOutcome n
  unfolding with_correctness
  settle majority gate o = record (with_correctness majority o) { correctness_gated = gate }

  unfoldable pub settle_round : List (ChallengeOutcome n) → List (ChallengeOutcome n)
  unfolding tally majority_of vote_count settle
  settle_round os =
      let votes = tally os in
      map (settle (majority_of votes) (leb min_miners_for_correctness_gate (vote_count votes))) os

  -- `ChallengeOutcome.weight`
  unfoldable pub outcome_weight : ChallengeOutcome n → F
  outcome_weight o = weight n o.correctness_gated o.scores

module _ {Cert Key : Type 0} (k : Pki Cert Key) (kds : Kds Cert) (c : Crypto) (d : Decoders Cert)
    (n : Floats) (e : MinerEvaluator n) where
  -- One probe: its target, the nonce drawn for it, and the miner that answers.
  abbrev pub Trial : Type 0
  Trial = MinerTarget × Text × Miner n

  unfoldable pub probe_all : List Trial → Result Failure (List (ChallengeOutcome n))
  probe_all [] = ok []
  probe_all ((t, nonce, miner) ∷ trials) = do
    o ← probe k kds c d n e t nonce miner
    os ← probe_all trials
    ok (o ∷ os)

  unfoldable pub evaluate_round : List Trial → Result Failure (List (ChallengeOutcome n))
  unfolding probe_all
  evaluate_round trials = do os ← probe_all trials; ok (settle_round n os)
