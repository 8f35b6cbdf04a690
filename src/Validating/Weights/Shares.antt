-- ===== src/Validating/Weights/Shares.antt =====
-- The shares of a round (`MinerEvaluator.weights_from`, sentinel/validating/evaluator.py).
use sentinel_subnet.Validating.Floats.{Floats}
use sentinel_subnet.Validating.Evaluator.{ChallengeOutcome}
use sentinel_subnet.Validating.Scoring.{max_f}
use sentinel_subnet.Validating.Scoring.Weight.{weight_bounds}
use sentinel_subnet.Validating.Round.{outcome_weight}
use sentinel_subnet.Validating.Weights.{
  ByUid, clamped, get_uid, raw_from, scale_all, set_uid, sorted_uids, sum_from, to_uids_and_weights,
  weights_from,
}
use sentinel_subnet.Base.Bytes.{total}
use sentinel_subnet.Base.{
  All, Bool-cases, List, [], arith, false, given_or, inl, inr, map, true, ℕ, ◌∷◌, ◌≡◌,
}

module _ (n : Floats) where
  open n use {F, zero, one, le, add, div}

  abbrev NonNeg : ByUid n → Type 0
  NonNeg = All (λ w. le zero w.1 ≡ true)

  set_uid-NonNeg :
      (uid : ℕ) (w : F) (d : ByUid n) → le zero w ≡ true → NonNeg d → NonNeg (set_uid n uid w d)
  unfolding set_uid
  set_uid-NonNeg uid w [] p h = (p, tt)
  set_uid-NonNeg uid w ((j, v) ∷ d) p h = ground (arith, p, h, set_uid-NonNeg uid w d p h.1)

  raw_from-NonNeg :
      (d : ByUid n) (os : List (ChallengeOutcome n)) → NonNeg d → NonNeg (raw_from n d os)
  unfolding raw_from outcome_weight
  raw_from-NonNeg d [] h = h
  raw_from-NonNeg d (o ∷ os) h = raw_from-NonNeg (set_uid n o.uid (outcome_weight n o) d) os (
      set_uid-NonNeg o.uid (outcome_weight n o) d (weight_bounds n o.correctness_gated o.scores).0
        h)

  sum_from-above : (total : F) (d : ByUid n) → NonNeg d → le total (sum_from n total d) ≡ true
  unfolding sum_from
  sum_from-above total [] h = n.le_refl total
  sum_from-above total ((j, w) ∷ d) h =
      n.le_trans total (add total w) (sum_from n (add total w) d) (n.le-add_left total w h.0)
        (sum_from-above (add total w) d h.1)

  -- Each weight is at most the sum.
  sum_from-each :
      (total : F) (d : ByUid n)
      → le zero total ≡ true
      → NonNeg d
      → All (λ w. (le zero w.1 ≡ true) × (le w.1 (sum_from n total d) ≡ true)) d
  unfolding sum_from
  sum_from-each total [] p h = tt
  sum_from-each total ((j, w) ∷ d) p h = (
    (
      h.0,
      n.le_trans w (add total w) (sum_from n (add total w) d) (n.le-add_right total w p)
          (sum_from-above (add total w) d h.1),
    ),
    sum_from-each (add total w) d (n.add_nonneg total w p h.0) h.1,
  )

  scale_all-bounds :
      (total : F) (d : ByUid n)
      → le total zero ≡ false
      → All (λ w. (le zero w.1 ≡ true) × (le w.1 total ≡ true)) d
      → All (λ w. (le zero w.1 ≡ true) × (le w.1 one ≡ true)) (scale_all n (λ w. div w total) d)
  unfolding scale_all
  scale_all-bounds total [] p h = tt
  scale_all-bounds total ((j, w) ∷ d) p h = (
    (
      n.div_nonneg w total p h.0.0,
      n.le_trans (div w total) (div total total) one (n.div_mono w total total p h.0.1)
          (n.div-self-le-one total p),
    ),
    scale_all-bounds total d p h.1,
  )

  scale_all-zero :
      (d : ByUid n)
      → All (λ w. (le zero w.1 ≡ true) × (le w.1 one ≡ true)) (scale_all n (λ w. zero) d)
  unfolding scale_all
  scale_all-zero [] = tt
  scale_all-zero ((j, w) ∷ d) =
      ((n.le_refl zero, n.le_total one zero n.zero-lt-one), scale_all-zero d)

  -- Whatever the outcomes of a round hold, every share lies between 0 and 1; when no miner earned
  -- anything, nothing is divided by the sum.
  pub weights_from-bounds :
      (os : List (ChallengeOutcome n))
      → All (λ w. (le zero w.1 ≡ true) × (le w.1 one ≡ true)) (weights_from n os)
  unfolding weights_from
  weights_from-bounds os =
      let raw = raw_from n [] os in
      let total = sum_from n zero raw in
      elim (Bool-cases (le total zero)) [
        | inl nothing ↦ rw nothing (scale_all-zero raw)
        | inr something ↦ rw something (
            scale_all-bounds total raw something
              (sum_from-each zero raw (n.le_refl zero) (raw_from-NonNeg [] os tt)))
      ]

  get_uid-bounds :
      (uid : ℕ) (d : ByUid n)
      → All (λ w. (le zero w.1 ≡ true) × (le w.1 one ≡ true)) d
      → (le zero (given_or (get_uid n uid d) zero) ≡ true)
        × (le (given_or (get_uid n uid d) zero) one ≡ true)
  unfolding get_uid
  get_uid-bounds uid [] h = (n.le_refl zero, n.le_total one zero n.zero-lt-one)
  get_uid-bounds uid ((j, w) ∷ d) h = ground (arith, h.0, get_uid-bounds uid d h.1)

  clamped-bounds :
      (d : ByUid n) (uids : List ℕ)
      → All (λ w. (le zero w.1 ≡ true) × (le w.1 one ≡ true)) d
      → All (λ w. (le zero w ≡ true) × (le w one ≡ true)) (map (clamped n d) uids)
  unfolding clamped max_f
  clamped-bounds d [] h = tt
  clamped-bounds d (uid ∷ uids) h = (
    ground (arith, get_uid-bounds uid d h, n.le_refl zero, n.le_total one zero n.zero-lt-one),
    clamped-bounds d uids h,
  )

  -- So do the numbers that are submitted.
  pub submitted-bounds :
      (os : List (ChallengeOutcome n))
      → All
          (λ w. (le zero w ≡ true) × (le w one ≡ true))
          (to_uids_and_weights n (weights_from n os)).1
  unfolding to_uids_and_weights
  submitted-bounds os =
      clamped-bounds (weights_from n os) (sorted_uids n (weights_from n os))
        (weights_from-bounds os)
