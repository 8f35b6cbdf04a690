-- ===== src/Validating/Scoring/Weight.antt =====
-- Bounds, gates and monotonicity of a weight (sentinel/validating/scoring.py).
use sentinel_subnet.Validating.Floats.{Floats}
use sentinel_subnet.Validating.Scoring.{MinerScores, clamp, legacy_weight, weight, weighted_sum}
use sentinel_subnet.Base.{Bool, arith, if◌then◌else◌, not, true, ℕ, ◌&&◌, ◌||◌, ◌≡◌}

module _ (n : Floats) where
  open n use {F, zero, one, ratio, le, add, sub, mul, div}

  le_one : le zero one ≡ true
  le_one = n.le_total one zero n.zero-lt-one

  clamp_bounds : (t : F) → (le zero (clamp n t) ≡ true) × (le (clamp n t) one ≡ true)
  unfolding clamp
  clamp_bounds t = ground (
    arith,
    le_one,
    n.le_refl zero,
    n.le_refl one,
    n.le_total one t,
    n.le_total t zero,
    n.le_total zero t,
  )

  clamp_mono : (s t : F) → le s t ≡ true → le (clamp n s) (clamp n t) ≡ true
  unfolding clamp
  clamp_mono s t h = ground (
    arith,
    le_one,
    n.le_refl zero,
    n.le_refl one,
    n.le_total one t,
    n.le_total one s,
    n.le_total s zero,
    n.le_total t zero,
    n.le_total zero t,
    n.le_total zero s,
    n.le_trans one s t,
    n.le_trans s t zero,
    n.le_trans s t one,
    n.le_trans zero s t,
  )

  -- Every weight lies between 0 and 1, whatever the axes hold.
  pub weight_bounds :
      (gate : Bool) (s : MinerScores n)
      → (le zero (weight n gate s) ≡ true) × (le (weight n gate s) one ≡ true)
  unfolding weight
  weight_bounds gate s = ground (arith, clamp_bounds (weighted_sum n s), n.le_refl zero, le_one)

  -- The axes that gate: positive, each of them.
  abbrev pub passes : Bool → MinerScores n → Bool
  passes gate s =
      not (le s.attestation zero)
      && not (le s.cache_hygiene zero)
      && not (le s.nonce_discipline zero)
      && (not gate || not (le s.correctness zero))

  -- A miner that passes every gate earns what the old rubric paid it, and any other earns nothing:
  -- the new rubric only ever takes weight away.
  pub weight-legacy_weight :
      (gate : Bool) (s : MinerScores n)
      → weight n gate s ≡ (if passes gate s then legacy_weight n s else zero)
  unfolding weight legacy_weight
  weight-legacy_weight gate s = ground arith

  -- One miner is at least as good as another on every axis.
  pub record AtMost (s t : MinerScores n) : Type 0 where
    pub attestation : le s.attestation t.attestation ≡ true
    pub latency : le s.latency t.latency ≡ true
    pub correctness : le s.correctness t.correctness ≡ true
    pub cache_hygiene : le s.cache_hygiene t.cache_hygiene ≡ true
    pub nonce_discipline : le s.nonce_discipline t.nonce_discipline ≡ true

  weighted_sum_mono :
      (s t : MinerScores n) → AtMost s t → le (weighted_sum n s) (weighted_sum n t) ≡ true
  unfolding weighted_sum
  weighted_sum_mono s t h =
      let axis : (k : ℕ) (a b : F)
          → le a b ≡ true
          → le (mul (ratio k 100) a) (mul (ratio k 100) b) ≡ true =
        λ k a b p. n.mul_mono (ratio k 100) a b (n.ratio_nonneg k 100) p in
      n.add_mono _ _ _ _
        (n.add_mono _ _ _ _
          (n.add_mono _ _ _ _
            (n.add_mono _ _ _ _ (n.add_mono _ _ _ _ (n.le_refl zero) (axis 40 _ _ h.attestation))
              (axis 30 _ _ h.latency))
            (axis 20 _ _ h.correctness))
          (axis 5 _ _ h.cache_hygiene))
        (axis 5 _ _ h.nonce_discipline)

  -- Doing at least as well on every axis, in a round with the same gate, never earns less.
  pub weight_mono :
      (gate : Bool) (s t : MinerScores n)
      → AtMost s t
      → le (weight n gate s) (weight n gate t) ≡ true
  unfolding weight
  weight_mono gate s t h = ground (
    arith,
    clamp_bounds (weighted_sum n t),
    n.le_refl zero,
    clamp_mono (weighted_sum n s) (weighted_sum n t),
    weighted_sum_mono s t h,
    n.le_trans s.attestation t.attestation zero,
    n.le_trans s.cache_hygiene t.cache_hygiene zero,
    n.le_trans s.nonce_discipline t.nonce_discipline zero,
    n.le_trans s.correctness t.correctness zero,
  )
