-- ===== src/Validating/Weights.antt =====
-- From outcomes to a submission: `MinerEvaluator.weights_from` (sentinel/validating/evaluator.py) and
-- sentinel/validating/weights.py. A dictionary keyed by uid is a list of pairs
-- in insertion order.
pub mod Shares
pub mod Submission
use sentinel_subnet.Validating.Floats.{Floats}
use sentinel_subnet.Validating.Evaluator.{ChallengeOutcome}
use sentinel_subnet.Validating.Scoring.{max_f}
use sentinel_subnet.Validating.Round.{outcome_weight}
use sentinel_subnet.Base.Bytes.{total}
use sentinel_subnet.Base.{
  List, Option, [], given_or, if◌then◌else◌, leb, map, none, some, zero, ℕ, ◌==◌, ◌∷◌,
}

-- The step of `sorted(weights)`, by insertion.
unfoldable pub insert_uid : ℕ → List ℕ → List ℕ
insert_uid uid [] = uid ∷ []
insert_uid uid (j ∷ uids) =
    let rest = insert_uid uid uids in if leb uid j then uid ∷ j ∷ uids else j ∷ rest

-- What the SDK executes: `bt.intents.SetWeights` and `bt.intents.CommitWeights`.
pub data Intent (n : Floats) : Type 0 where
  set_weights_intent commit_weights_intent :
      (netuid : ℕ) (uids : List ℕ) (weights : List n.F) (version_key : ℕ) → Intent n

module _ (n : Floats) where
  open n use {F, zero, le, add, div}

  abbrev pub ByUid : Type 0
  ByUid = List (ℕ × F)

  -- `d[uid] = w`
  unfoldable pub set_uid : ℕ → F → ByUid → ByUid
  set_uid uid w [] = (uid, w) ∷ []
  set_uid uid w ((j, v) ∷ d) = if j == uid then (j, w) ∷ d else (j, v) ∷ set_uid uid w d

  -- `d[uid]`, where there is one
  unfoldable pub get_uid : ℕ → ByUid → Option F
  get_uid uid [] = none
  get_uid uid ((j, v) ∷ d) = if j == uid then some v else get_uid uid d

  -- `{o.uid: o.weight for o in outcomes}`, from the left
  unfoldable pub raw_from : ByUid → List (ChallengeOutcome n) → ByUid
  unfolding set_uid outcome_weight
  raw_from d [] = d
  raw_from d (o ∷ os) = raw_from (set_uid o.uid (outcome_weight n o) d) os

  -- `sum(raw.values())`, from the left
  unfoldable pub sum_from : F → ByUid → F
  sum_from total [] = total
  sum_from total ((j, w) ∷ d) = sum_from (add total w) d

  unfoldable pub scale_all : (F → F) → ByUid → ByUid
  scale_all f [] = []
  scale_all f ((j, w) ∷ d) = (j, f w) ∷ scale_all f d

  unfoldable pub weights_from : List (ChallengeOutcome n) → ByUid
  unfolding raw_from sum_from scale_all
  weights_from outcomes =
      let raw = raw_from [] outcomes in
      let total = sum_from zero raw in
      if le total zero then scale_all (λ w. zero) raw else scale_all (λ w. div w total) raw

  -- `sorted(weights)`
  unfoldable pub sorted_uids : ByUid → List ℕ
  unfolding insert_uid
  sorted_uids [] = []
  sorted_uids ((j, w) ∷ d) = insert_uid j (sorted_uids d)

  -- `max(0.0, float(weights[uid]))`: every uid asked for is in the dictionary.
  unfoldable pub clamped : ByUid → ℕ → F
  unfolding get_uid max_f
  clamped weights uid = max_f n zero (given_or (get_uid uid weights) zero)

  unfoldable pub to_uids_and_weights : ByUid → List ℕ × List F
  unfolding sorted_uids clamped
  to_uids_and_weights weights = let uids = sorted_uids weights in (uids, map (clamped weights) uids)

  -- `set_weights` and `commit_weights`, with the signer's `subtensor.execute`: its answer, where it does not raise, and the
  -- chain after it. What they log is left out.
  unfoldable pub set_weights :
      {R W : Type 0} (execute : Intent n → W → Option R × W) (netuid : ℕ)
      → ByUid
      → (version_key : ℕ) → W
      → Option R × W
  unfolding to_uids_and_weights
  set_weights execute netuid weights version_key =
      let (uids, values) = to_uids_and_weights weights in
      execute (set_weights_intent netuid uids values version_key)

  unfoldable pub commit_weights :
      {R W : Type 0} (execute : Intent n → W → Option R × W) (netuid : ℕ)
      → ByUid
      → (version_key : ℕ) → W
      → Option R × W
  unfolding to_uids_and_weights
  commit_weights execute netuid weights version_key =
      let (uids, values) = to_uids_and_weights weights in
      execute (commit_weights_intent netuid uids values version_key)
