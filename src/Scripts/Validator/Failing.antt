-- ===== src/Scripts/Validator/Failing.antt =====
-- What a failing round leaves behind (`one_round`, scripts/run_validator.py).
use sentinel_subnet.Attestation.{Crypto}
use sentinel_subnet.SevSnp.Certs.{Pki}
use sentinel_subnet.SevSnp.Verifier.{Kds}
use sentinel_subnet.Validating.Floats.{Floats}
use sentinel_subnet.Validating.Evaluator.{Decoders, MinerEvaluator}
use sentinel_subnet.Validating.Round.{evaluate_round}
use sentinel_subnet.Validating.Weights.{
  ByUid, Intent, set_weights, set_weights_intent, to_uids_and_weights, weights_from,
}
use sentinel_subnet.Registry.{Readers, RegistryError}
use sentinel_subnet.Registry.Source.{RegistrySource, approved_at, promote, refresh, save_cache}
use sentinel_subnet.Registry.Source.Switch.{current-kept}
use sentinel_subnet.Registry.Source.Refresh.{refresh_keeps}
use sentinel_subnet.Chain.Discovery.{DiscoveredMiner, discover_miners, has_validator_permit}
use sentinel_subnet.Scripts.Validator.{
  RoundError, Validator, ValidatorArgs, View, any_weight, approve, attempt_round, chain_error,
  challenge_miners, default_scheme, one_round, probe_raised, registry_error, score_round, submit,
  trials_from,
}
use sentinel_subnet.Base.Result.{Result-cases, err}
use sentinel_subnet.Base.Text.{Text}
use sentinel_subnet.Base.{
  Bool-cases, List, Option, Option-cases, [], ap, arith, inl, inr, none, refl, sym, ℕ, ◌∙◌, ◌∷◌,
  ◌≡◌, ◌≢◌, ◌⊎◌,
}

module _ (c : Crypto) (r : Readers) where
  -- The operator's list stays.
  approved_at-fallback :
      (now block : ℕ) (s : RegistrySource) → (approved_at c r now block s).1.fallback ≡ s.fallback
  unfolding approved_at promote save_cache
  approved_at-fallback now block s =
      let kept = (current-kept c r now (promote c r block s)).2 in kept ∙ ground arith

module _ {Cert Key R W : Type 0} (k : Pki Cert Key) (kds : Kds Cert) (c : Crypto) (r : Readers)
    (d : Decoders Cert) (n : Floats) (execute : Intent n → W → Option R × W)
    (args : ValidatorArgs n) (hotkey : Text) where
  -- What no round changes: the operator's list, and how the evaluator judges but for the list in force.
  abbrev pub SameSettings : Validator n → Validator n → Type 0
  SameSettings v v' =
      (v'.source.fallback ≡ v.source.fallback)
      × (v'.evaluator
          ≡ record v.evaluator { approved_measurement = v'.evaluator.approved_measurement })

  -- The chain is as it was, or the SDK raised over the weights.
  abbrev pub Spared : RoundError → W → W → Type 0
  Spared e w w' =
      (w' ≡ w)
      ⊎ ((e ≡ chain_error) × ((i : Intent n) × ((execute i w).0 ≡ none) × (w' ≡ (execute i w).1)))

  -- A failed round. Where there is no list in force, the evaluator keeps the last one.
  pub record Failed (e : RoundError) (v v' : Validator n) (w w' : W) : Type 0 where
    pub settings : SameSettings v v'
    pub spared : Spared e w w'
    pub list_kept : (x : RegistryError) → e ≡ registry_error x → v'.evaluator ≡ v.evaluator

  submit-failed :
      (view : View n) (weights : ByUid n) (w : W) (e : RoundError)
      → (submit k kds c r d n execute args hotkey view weights w).0 ≡ err e
      → (e ≡ chain_error) × Spared e w (submit k kds c r d n execute args hotkey view weights w).1
  unfolding submit set_weights
  submit-failed view weights w e h = elim (Bool-cases (any_weight n weights)) [
    | inr nothing ↦ ground arith
    | inl earned ↦ elim (Option-cases view.permits) [
      | inl silent ↦ ground arith
      | inr (neurons, given) ↦ elim (Bool-cases (has_validator_permit hotkey neurons)) [
        | inr none_held ↦ ground arith
        | inl held ↦ elim (Bool-cases args.dry_run) [
          | inl dry ↦ ground arith
          | inr live ↦
              let i =
                set_weights_intent args.netuid (to_uids_and_weights n weights).0
                  (to_uids_and_weights n weights).1 0 in
              elim (Option-cases (execute i w).0) [
                | inl raised ↦
                    let failed : e ≡ chain_error = ground arith in
                    (failed, inr (failed, (i, raised, rw (earned, given, held, live) refl)))
                | inr (x, done) ↦ absurd (ground arith)
              ]
        ]
      ]
    ]
  ]

  score_round-failed :
      (view : View n) (judge : MinerEvaluator n) (ms : List DiscoveredMiner) (w : W)
      (e : RoundError)
      → (score_round k kds c r d n execute args hotkey view judge ms w).0 ≡ err e
      → ((x : RegistryError) → e ≢ registry_error x)
        × Spared e w (score_round k kds c r d n execute args hotkey view judge ms w).1
  unfolding score_round
  score_round-failed view judge [] w e h = cc h
  score_round-failed view judge (m ∷ ms) w e h =
      elim (Result-cases (evaluate_round k kds c d n judge (trials_from n view.meet 0 (m ∷ ms)))) [
        | inr (f, raised) ↦
            let failed : e ≡ probe_raised f = ground arith in
            (λ x is. cc (failed, is), inl (ground arith))
        | inl (outcomes, scored) ↦
            let same : score_round k kds c r d n execute args hotkey view judge (m ∷ ms) w
                ≡ submit k kds c r d n execute args hotkey view (weights_from n outcomes) w =
              rw (score_round, scored) refl in
            let (failed, spared) =
              submit-failed view (weights_from n outcomes) w e (ap (λ x. x.0) (sym same) ∙ h) in
            (λ x is. cc (failed, is), rw same spared)
      ]

  challenge_miners-same :
      (view : View n) (v : Validator n) (w : W)
      → (challenge_miners k kds c r d n execute args hotkey view v w).1 ≡ v
  unfolding challenge_miners
  challenge_miners-same view v w = elim (Option-cases view.neurons) [
    | inl away ↦ rw (challenge_miners, away) refl
    | inr (neurons, seen) ↦ rw (challenge_miners, seen) refl
  ]

  challenge_miners-failed :
      (view : View n) (v : Validator n) (w : W) (e : RoundError)
      → (challenge_miners k kds c r d n execute args hotkey view v w).0 ≡ err e
      → ((x : RegistryError) → e ≢ registry_error x)
        × Spared e w (challenge_miners k kds c r d n execute args hotkey view v w).2
  unfolding challenge_miners
  challenge_miners-failed view v w e h = elim (Option-cases view.neurons) [
    | inl away ↦
        let failed : e ≡ chain_error = ground arith in (λ x is. cc (failed, is), inl (ground arith))
    | inr (neurons, seen) ↦
        let ms = discover_miners (hotkey ∷ []) default_scheme neurons in
        let same : challenge_miners k kds c r d n execute args hotkey view v w ≡ (
          (score_round k kds c r d n execute args hotkey view v.evaluator ms w).0,
          v,
          (score_round k kds c r d n execute args hotkey view v.evaluator ms w).1,
        ) =
          rw (challenge_miners, seen) refl in
        let (other, spared) =
          score_round-failed view v.evaluator ms w e (ap (λ x. x.0) (sym same) ∙ h) in
        (other, rw same spared)
  ]

  one_round-settings :
      (view : View n) (v : Validator n) (w : W)
      → SameSettings v (one_round k kds c r d n execute args hotkey view v w).1
  unfolding one_round approve
  one_round-settings view v w = elim (Option-cases view.block) [
    | inl silent ↦ rw (one_round, silent) (refl, refl)
    | inr (block, read) ↦
        let source = (refresh c r view.refreshed_at view.server view.found v.source).1 in
        let kept = (refresh_keeps c r view.refreshed_at view.server view.found v.source).1 in
        let also = approved_at-fallback c r view.asked_at block source ∙ kept in
        elim (Result-cases (refresh c r view.refreshed_at view.server view.found v.source).0) [
          | inr (e, failed) ↦ rw (one_round, read, failed) (kept, refl)
          | inl (changed, refreshed) ↦
              elim (Result-cases (approved_at c r view.asked_at block source).0) [
                | inr (e, denied) ↦ rw (one_round, read, refreshed, approve, denied) (also, refl)
                | inl (approved, in_force) ↦
                    rw (one_round, read, refreshed, approve, in_force, challenge_miners-same)
                      (also, refl)
              ]
        ]
  ]

  one_round-failed :
      (view : View n) (v : Validator n) (w : W) (e : RoundError)
      → (one_round k kds c r d n execute args hotkey view v w).0 ≡ err e
      → Spared e w (one_round k kds c r d n execute args hotkey view v w).2
        × ((x : RegistryError)
            → e ≡ registry_error x
            → (one_round k kds c r d n execute args hotkey view v w).1.evaluator ≡ v.evaluator)
  unfolding one_round approve
  one_round-failed view v w e h = elim (Option-cases view.block) [
    | inl silent ↦ rw (one_round, silent) (inl refl, λ x is. refl)
    | inr (block, read) ↦
        let source = (refresh c r view.refreshed_at view.server view.found v.source).1 in
        elim (Result-cases (refresh c r view.refreshed_at view.server view.found v.source).0) [
          | inr (f, failed) ↦ rw (one_round, read, failed) (inl refl, λ x is. refl)
          | inl (changed, refreshed) ↦
              elim (Result-cases (approved_at c r view.asked_at block source).0) [
                | inr (f, denied) ↦
                    rw (one_round, read, refreshed, approve, denied) (inl refl, λ x is. refl)
                | inl (approved, in_force) ↦
                    let next : Validator n = record {
                      source = (approved_at c r view.asked_at block source).1;
                      evaluator = record v.evaluator { approved_measurement = approved };
                    } in
                    let same : one_round k kds c r d n execute args hotkey view v w
                        ≡ challenge_miners k kds c r d n execute args hotkey view next w =
                      rw (one_round, read, refreshed, approve, in_force) refl in
                    let (other, spared) =
                      challenge_miners-failed view next w e (ap (λ x. x.0) (sym same) ∙ h) in
                    rw same (spared, λ x is. absurd (other x is))
              ]
        ]
  ]

  pub attempt_round-Failed :
      (view : View n) (v : Validator n) (w : W) (e : RoundError)
      → (attempt_round k kds c r d n execute args hotkey view v w).0 ≡ err e
      → Failed e v
          (attempt_round k kds c r d n execute args hotkey view v w).1
          w
          (attempt_round k kds c r d n execute args hotkey view v w).2
  unfolding attempt_round
  attempt_round-Failed view v w e h = elim (Bool-cases view.connects) [
    | inr away ↦
        let failed : e ≡ chain_error = ground arith in
        rw (attempt_round, away)
          (record { settings = (refl, refl); spared = inl refl; list_kept = λ x is. refl })
    | inl up ↦
        let same : attempt_round k kds c r d n execute args hotkey view v w
            ≡ one_round k kds c r d n execute args hotkey view v w =
          rw (attempt_round, up) refl in
        let (spared, list_kept) = one_round-failed view v w e (ap (λ x. x.0) (sym same) ∙ h) in
        rw same (record {
          settings = one_round-settings view v w;
          spared = spared;
          list_kept = list_kept;
        })
  ]
