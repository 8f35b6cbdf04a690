-- ===== src/Validating/Scoring/Latency.antt =====
-- The latency axis (sentinel/validating/scoring.py).
use sentinel_subnet.Validating.Floats.{Floats}
use sentinel_subnet.Validating.Scoring.{latency_score}
use sentinel_subnet.Base.Result.{ok}
use sentinel_subnet.Base.{Bool-cases, arith, false, inl, inr, refl, true, ◌≡◌}

module _ (n : Floats) where
  open n use {F, zero, one, le, sub, div}

  -- The straight line between target and ceiling.
  line : (l target ceiling : F) → F
  line l target ceiling = sub one (div (sub l target) (sub ceiling target))

  line_bounds :
      (l target ceiling : F)
      → le ceiling target ≡ false
      → le target l ≡ true
      → le l ceiling ≡ true
      → (le zero (line l target ceiling) ≡ true) × (le (line l target ceiling) one ≡ true)
  unfolding line
  line_bounds l target ceiling span above below =
      let wide = n.sub_pos target ceiling span in
      let fraction : le zero (div (sub l target) (sub ceiling target)) ≡ true =
        n.div_nonneg _ _ wide (n.sub_nonneg target l above) in
      let at_most_one : le (div (sub l target) (sub ceiling target)) one ≡ true =
        n.le_trans _ _ _ (n.div_mono _ _ _ wide (n.sub_mono l ceiling target below))
          (n.div-self-le-one _ wide) in
      (n.sub_nonneg _ _ at_most_one, n.sub-le _ _ fraction)

  line_anti :
      (l m target ceiling : F)
      → le ceiling target ≡ false
      → le l m ≡ true
      → le (line m target ceiling) (line l target ceiling) ≡ true
  unfolding line
  line_anti l m target ceiling span h =
      n.sub_anti _ _ one
        (n.div_mono _ _ _ (n.sub_pos target ceiling span) (n.sub_mono l m target h))

  -- With a ceiling above the target every latency has a score, which lies between 0 and 1, is 1 up
  -- to the target and is 0 from the ceiling on.
  pub latency_score_range :
      (l target ceiling : F)
      → le ceiling target ≡ false
      → (s : F) × (latency_score n l target ceiling ≡ ok s)
        × (le zero s ≡ true)
        × (le s one ≡ true)
        × (le l target ≡ true → s ≡ one)
        × (le ceiling l ≡ true → s ≡ zero)
  unfolding latency_score line
  latency_score_range l target ceiling span = elim (Bool-cases (le l target)) [
    | inl fast ↦ (
      one,
      rw (span, fast),
      n.le_total one zero n.zero-lt-one,
      n.le_refl one,
      λ _. refl,
      λ slow. absurd (cc (n.le_trans ceiling l target slow fast, span)),
    )
    | inr over ↦ elim (Bool-cases (le ceiling l)) [
      | inl slow ↦ (
        zero,
        rw (span, over, slow),
        n.le_refl zero,
        n.le_total one zero n.zero-lt-one,
        λ fast. absurd (cc (fast, over)),
        λ _. refl,
      )
      | inr under ↦
          let (low, high) =
            line_bounds l target ceiling span (n.le_total l target over)
              (n.le_total ceiling l under) in
          (
            line l target ceiling,
            rw (span, over, under, line),
            low,
            high,
            λ fast. absurd (cc (fast, over)),
            λ slow. absurd (cc (slow, under)),
          )
    ]
  ]

  -- A slower answer, judged by the same target and ceiling, never scores more.
  pub latency_score_anti :
      (l m target ceiling s t : F)
      → le l m ≡ true
      → latency_score n l target ceiling ≡ ok s
      → latency_score n m target ceiling ≡ ok t
      → le t s ≡ true
  unfolding latency_score line
  latency_score_anti l m target ceiling s t h p q = elim (Bool-cases (le ceiling target)) [
    | inl narrow ↦ absurd (ground arith)
    | inr span ↦ ground (
      arith,
      n.le_refl one,
      n.le_refl zero,
      n.le_total one zero n.zero-lt-one,
      n.le_trans l m target h,
      n.le_trans ceiling l m,
      line_anti l m target ceiling span h,
      λ (a : le target m ≡ true) (b : le m ceiling ≡ true). line_bounds m target ceiling span a b,
      λ (a : le target l ≡ true) (b : le l ceiling ≡ true). line_bounds l target ceiling span a b,
      n.le_total m target,
      n.le_total l target,
      n.le_total ceiling m,
      n.le_total ceiling l,
    )
  ]
