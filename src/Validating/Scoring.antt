-- ===== src/Validating/Scoring.antt =====
-- sentinel/validating/scoring.py: a miner's weight from its five axes.
pub mod Weight
pub mod Latency
use sentinel_subnet.Validating.Floats.{Floats}
use sentinel_subnet.Base.Result.{Result, err, ok}
use sentinel_subnet.Base.Bytes.{total}
use sentinel_subnet.Base.{Bool, if◌then◌else◌, zero, ◌&&◌}

-- `latency_score`'s `ValueError`
pub data ScoringError : Type 0 where
  ceiling_below_target : ScoringError

module _ (n : Floats) where
  open n use {F, zero, one, ratio, le, add, sub, mul, div}

  abbrev pub default_latency_target_ms : F
  default_latency_target_ms = ratio 250 1

  abbrev pub default_latency_ceiling_ms : F
  default_latency_ceiling_ms = ratio 5000 1

  unfoldable pub latency_score : (latency_ms target_ms ceiling_ms : F) → Result ScoringError F
  latency_score latency_ms target_ms ceiling_ms =
      if le ceiling_ms target_ms
      then err ceiling_below_target
      else if le latency_ms target_ms
      then ok one
      else if le ceiling_ms latency_ms
      then ok zero
      else ok (sub one (div (sub latency_ms target_ms) (sub ceiling_ms target_ms)))

  pub record MinerScores : Type 0 where
    pub attestation : F
    pub latency : F
    pub correctness : F
    pub cache_hygiene : F
    pub nonce_discipline : F

  abbrev pub no_scores : MinerScores
  no_scores = record {
    attestation = zero;
    latency = zero;
    correctness = zero;
    cache_hygiene = zero;
    nonce_discipline = zero;
  }

  -- `sum(WEIGHTS[axis] * getattr(self, axis) for axis in WEIGHTS)`, from the left
  unfoldable pub weighted_sum : MinerScores → F
  weighted_sum s =
      add
        (add
          (add (add (add zero (mul (ratio 40 100) s.attestation)) (mul (ratio 30 100) s.latency))
            (mul (ratio 20 100) s.correctness))
          (mul (ratio 5 100) s.cache_hygiene))
        (mul (ratio 5 100) s.nonce_discipline)

  -- Python's `min` and `max`: the first argument, unless the second is strictly beyond it.
  unfoldable pub min_f : F → F → F
  min_f a b = if le a b then a else b

  unfoldable pub max_f : F → F → F
  max_f a b = if le b a then a else b

  -- `max(0.0, min(1.0, total))`
  unfoldable pub clamp : F → F
  unfolding min_f max_f
  clamp total = max_f zero (min_f one total)

  unfoldable pub weight : (gate_correctness : Bool) → MinerScores → F
  weight gate_correctness s =
      if le s.attestation zero
      then zero
      else if le s.cache_hygiene zero
      then zero
      else if le s.nonce_discipline zero
      then zero
      else if gate_correctness && le s.correctness zero
      then zero
      else clamp (weighted_sum s)

  unfoldable pub legacy_weight : MinerScores → F
  legacy_weight s = if le s.attestation zero then zero else clamp (weighted_sum s)
