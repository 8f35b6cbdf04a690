-- ===== src/Scripts/Validator.antt =====
-- scripts/run_validator.py: one round against the chain, and the loop that keeps a validator running.
-- What the chain, the web server and the miners answer during a round is a `View`.
pub mod Submitted
pub mod Failing
pub mod Loop
pub mod Handovers
use sentinel_subnet.Attestation.{Crypto, Failure, approved_set, many}
use sentinel_subnet.SevSnp.Certs.{Pki}
use sentinel_subnet.SevSnp.Verifier.{Kds}
use sentinel_subnet.Validating.Floats.{Floats}
use sentinel_subnet.Validating.Scoring.{default_latency_ceiling_ms, default_latency_target_ms}
use sentinel_subnet.Validating.Evaluator.{Decoders, Miner, MinerEvaluator, MinerTarget}
use sentinel_subnet.Validating.Round.{evaluate_round}
use sentinel_subnet.Validating.Weights.{ByUid, Intent, set_weights, weights_from}
use sentinel_subnet.Registry.{Readers, RegistryError}
use sentinel_subnet.Registry.Source.{
  Cached, Found, RegistrySource, approved_at, new_source, refresh,
}
use sentinel_subnet.Chain.Discovery.{DiscoveredMiner, Neuron, discover_miners, has_validator_permit}
use sentinel_subnet.Base.Result.{Result, err, ok, ◌>>=◌, ◌>>◌}
use sentinel_subnet.Base.Text.{Text, codes}
use sentinel_subnet.Base.Int.{pos}
use sentinel_subnet.Base.{
  Bool, List, Option, [], any, false, if◌then◌else◌, none, not, replicate, some, suc, zero, ℕ, ◌&&◌,
  ◌∷◌,
}

-- What this round meets; `none` is an exception of the SDK's.
pub record View (n : Floats) : Type 0 where
  -- Whether the connection to the chain is made.
  pub connects : Bool
  pub block : Option ℕ
  -- The manifest that `refresh` reads, with the times at which the clock is asked.
  pub found : Found
  pub server : Text → Option Text
  pub refreshed_at : ℕ
  pub asked_at : ℕ
  -- The metagraph, read for the miners and again for the permit.
  pub neurons : Option (List Neuron)
  pub permits : Option (List Neuron)
  -- The nonce drawn for the target at that place of the round, and the miner there.
  pub meet : ℕ → MinerTarget → Text × Miner n

-- The command line, parsed. The endpoint, the wallet and the registry's hotkey stand behind the
-- `View`s, the cache path behind the file that is there; the interval between rounds is not used.
pub record ValidatorArgs (n : Floats) : Type 0 where
  pub netuid : ℕ
  pub measurement : List Text
  pub product : Text
  pub latency_ceiling_ms : n.F
  pub once : Bool
  pub dry_run : Bool

-- Without options
unfoldable pub default_args : (n : Floats) → ValidatorArgs n
default_args n = record {
  netuid = 554;
  measurement = [];
  product = codes "Milan";
  latency_ceiling_ms = default_latency_ceiling_ms n;
  once = false;
  dry_run = false;
}

-- The objects that live from round to round.
pub record Validator (n : Floats) : Type 0 where
  pub source : RegistrySource
  pub evaluator : MinerEvaluator n

-- Where a round returns; `R` is the SDK's result.
pub data RoundEnd (n : Floats) (R : Type 0) : Type 0 where
  no_miners all_zero no_permit : RoundEnd n R
  scored_only : ByUid n → RoundEnd n R
  weights_submitted : R → RoundEnd n R

-- What the loop catches.
pub data RoundError : Type 0 where
  chain_error : RoundError
  registry_error : RegistryError → RoundError
  probe_raised : Failure → RoundError

abbrev pub default_scheme : Text
default_scheme = codes "http"

abbrev pub stale_after_seconds : ℕ
stale_after_seconds = 86400

-- `{"0" * 96}`, which no image measures
abbrev pub placeholder : List Text
placeholder = replicate 96 b'0' ∷ []

unfoldable pub target_of : DiscoveredMiner → MinerTarget
target_of m = record { uid = m.uid; hotkey_ss58 = m.hotkey_ss58; base_url = m.base_url }

-- `source.fallback or {"0" * 96}`
unfoldable pub first_approved : List Text → List Text
first_approved [] = placeholder
first_approved (m ∷ ms) = m ∷ ms

module _ (n : Floats) where
  open n use {zero, le}

  -- The targets of the round, each with its nonce and the miner behind it.
  unfoldable pub trials_from :
      (ℕ → MinerTarget → Text × Miner n)
      → (place : ℕ) → List DiscoveredMiner
      → List (MinerTarget × Text × Miner n)
  unfolding target_of
  trials_from meet place [] = []
  trials_from meet place (m ∷ ms) =
      let (nonce, miner) = meet place (target_of m) in
      (target_of m, nonce, miner) ∷ trials_from meet (suc place) ms

  -- `any(weights.values())`: a number is true unless it is zero.
  unfoldable pub any_weight : ByUid n → Bool
  any_weight weights = any (λ w. not (le w.1 zero && le zero w.1)) weights

  -- The start of `main`: the evaluator refuses an empty set.
  unfoldable pub new_validator :
      Crypto
      → Readers
      → ValidatorArgs n
      → (writable : Bool) → Option Cached
      → Result Failure (Validator n)
  unfolding new_source first_approved approved_set
  new_validator c r args writable cache =
      let source = new_source c r args.measurement stale_after_seconds writable cache in
      do
        approved ← approved_set (many (first_approved source.fallback))
        ok (record {
          source = source;
          evaluator = record {
            approved_measurement = approved;
            product = args.product;
            sevsnp_min_tcb = none;
            min_tcb = pos 7;
            latency_target_ms = default_latency_target_ms n;
            latency_ceiling_ms = args.latency_ceiling_ms;
          };
        })

-- The chain is a state `W` that `execute` changes.
module _ {Cert Key R W : Type 0} (k : Pki Cert Key) (kds : Kds Cert) (c : Crypto) (r : Readers)
    (d : Decoders Cert) (n : Floats) (execute : Intent n → W → Option R × W)
    (args : ValidatorArgs n) (hotkey : Text) where
  -- The end of `one_round`, with the weights of the round, but for what is logged of the SDK's result.
  unfoldable pub submit : View n → ByUid n → W → Result RoundError (RoundEnd n R) × W
  unfolding any_weight has_validator_permit set_weights
  submit view weights w =
      if not (any_weight n weights) then (ok all_zero, w) else elim view.permits [
        | none ↦ (err chain_error, w)
        | some neurons ↦
            if not (has_validator_permit hotkey neurons)
            then (ok no_permit, w)
            else if args.dry_run
            then (ok (scored_only weights), w)
            else let (result, after) = set_weights n execute args.netuid weights 0 w in
              (elim result [ none ↦ err chain_error | some x ↦ ok (weights_submitted x) ], after)
      ]

  -- From the discovered miners on
  unfoldable pub score_round :
      View n → MinerEvaluator n → List DiscoveredMiner → W → Result RoundError (RoundEnd n R) × W
  unfolding trials_from evaluate_round weights_from submit
  score_round view e [] w = (ok no_miners, w)
  score_round view e (m ∷ ms) w =
      elim (evaluate_round k kds c d n e (trials_from n view.meet 0 (m ∷ ms))) [
        | err f ↦ (err (probe_raised f), w)
        | ok outcomes ↦ submit view (weights_from n outcomes) w
      ]

  -- A round's result, and the validator and the chain after it
  abbrev pub Step : Type 0
  Step = Result RoundError (RoundEnd n R) × Validator n × W

  unfoldable pub challenge_miners : View n → Validator n → W → Step
  unfolding discover_miners score_round
  challenge_miners view v w = elim view.neurons [
    | none ↦ (err chain_error, v, w)
    | some neurons ↦
        let (ended, after) =
          score_round view v.evaluator (discover_miners (hotkey ∷ []) default_scheme neurons) w in
        (ended, v, after)
  ]

  -- `evaluator.approved_measurement = source.approved_at(block)`, and the rest
  unfoldable pub approve : (block : ℕ) → View n → Validator n → W → Step
  unfolding approved_at challenge_miners
  approve block view v w =
      let (approved, source) = approved_at c r view.asked_at block v.source in
      elim approved [
        | err e ↦ (err (registry_error e), record v { source = source }, w)
        | ok ms ↦
            challenge_miners view
              (record {
                source = source;
                evaluator = record v.evaluator { approved_measurement = ms };
              })
              w
      ]

  unfoldable pub one_round : View n → Validator n → W → Step
  unfolding refresh approve
  one_round view v w = elim view.block [
    | none ↦ (err chain_error, v, w)
    | some block ↦
        let (refreshed, source) = refresh c r view.refreshed_at view.server view.found v.source in
        elim refreshed [
          | err e ↦ (err (registry_error e), record v { source = source }, w)
          | ok changed ↦ approve block view (record v { source = source }) w
        ]
  ]

  -- The loop's `try`: a round over a connection
  unfoldable pub attempt_round : View n → Validator n → W → Step
  unfolding one_round
  attempt_round view v w = if view.connects then one_round view v w else (err chain_error, v, w)

  -- The loop of `main`, over the rounds that begin before it is told to stop: how each ended
  unfoldable pub run :
      List (View n) → Validator n → W → List (Result RoundError (RoundEnd n R)) × Validator n × W
  unfolding attempt_round
  run [] v w = ([], v, w)
  run (view ∷ views) v w =
      let (ended, next, after) = attempt_round view v w in
      let (rest, last, chain) = run views next after in
      if args.once then (ended ∷ [], next, after) else (ended ∷ rest, last, chain)
