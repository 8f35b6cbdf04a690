-- ===== src/Scripts/Validator/Submitted.antt =====
-- What a round submits (`one_round`, scripts/run_validator.py).
use sentinel_subnet.Attestation.{Crypto}
use sentinel_subnet.SevSnp.Certs.{Pki}
use sentinel_subnet.SevSnp.Verifier.{Kds}
use sentinel_subnet.Validating.Floats.{Floats}
use sentinel_subnet.Validating.Evaluator.{ChallengeOutcome, Decoders, MinerEvaluator}
use sentinel_subnet.Validating.Round.{evaluate_round}
use sentinel_subnet.Validating.Round.Verdict.{Pairwise}
use sentinel_subnet.Validating.Round.Earned.{Earned, evaluate_round-Earned}
use sentinel_subnet.Validating.Weights.{
  ByUid, Intent, set_weights, set_weights_intent, to_uids_and_weights, weights_from,
}
use sentinel_subnet.Validating.Weights.Shares.{submitted-bounds}
use sentinel_subnet.Registry.{Readers}
use sentinel_subnet.Registry.Source.{approved_at, refresh}
use sentinel_subnet.Chain.Discovery.{
  DiscoveredMiner, Neuron, discover_miners, discover_miners-excludes, has_validator_permit,
}
use sentinel_subnet.Scripts.Validator.{
  Validator, ValidatorArgs, View, any_weight, approve, challenge_miners, default_scheme, one_round,
  score_round, submit, trials_from,
}
use sentinel_subnet.Base.Result.{Result-cases, ok}
use sentinel_subnet.Base.Text.{Text, member, text_eq_iff}
use sentinel_subnet.Base.{
  All, Bool-cases, List, Option, Option-cases, [], arith, false, inl, inr, refl, some, subst, sym,
  true, ℕ, ◌∙◌, ◌∷◌, ◌≡◌, ◌≢◌, ◌⊎◌,
}

module _ {Cert Key R W : Type 0} (k : Pki Cert Key) (kds : Kds Cert) (c : Crypto) (r : Readers)
    (d : Decoders Cert) (n : Floats) (execute : Intent n → W → Option R × W)
    (args : ValidatorArgs n) (hotkey : Text) where
  -- The weights went to the chain: by a run that is live, of a validator that holds a permit, and some
  -- miner earned a share.
  pub record Handed (view : View n) (weights : ByUid n) (w after : W) : Type 0 where
    pub earned : any_weight n weights ≡ true
    pub neurons : List Neuron
    pub neurons_read : view.permits ≡ some neurons
    pub permitted : has_validator_permit hotkey neurons ≡ true
    pub live : args.dry_run ≡ false
    pub executed :
        after
        ≡ (execute
            (set_weights_intent args.netuid
              (to_uids_and_weights n weights).0
              (to_uids_and_weights n weights).1
              0)
            w).1

  submit-Handed :
      (view : View n) (weights : ByUid n) (w : W)
      → ((submit k kds c r d n execute args hotkey view weights w).1 ≡ w)
        ⊎ Handed view weights w (submit k kds c r d n execute args hotkey view weights w).1
  unfolding submit set_weights
  submit-Handed view weights w = elim (Bool-cases (any_weight n weights)) [
    | inr nothing ↦ inl (rw nothing refl)
    | inl earned ↦ elim (Option-cases view.permits) [
      | inl silent ↦ inl (rw (earned, silent) refl)
      | inr (neurons, given) ↦ elim (Bool-cases (has_validator_permit hotkey neurons)) [
        | inr none_held ↦ inl (rw (earned, given, none_held) refl)
        | inl held ↦ elim (Bool-cases args.dry_run) [
          | inl dry ↦ inl (rw (earned, given, held, dry) refl)
          | inr live ↦ inr (record {
            earned = earned;
            neurons = neurons;
            neurons_read = given;
            permitted = held;
            live = live;
            executed = rw (earned, given, held, live) refl;
          })
        ]
      ]
    ]
  ]

  -- What a submission of this round rests on.
  pub record Submission (view : View n) (v : Validator n) (w after : W) : Type 0 where
    pub block : ℕ
    pub block_read : view.block ≡ some block
    pub approved : List Text
    -- The list in force at that height, once the source was refreshed
    pub in_force :
        (approved_at c r view.asked_at block
          (refresh c r view.refreshed_at view.server view.found v.source).1).0
        ≡ ok approved
    pub neurons : List Neuron
    pub neurons_read : view.neurons ≡ some neurons
    pub outcomes : List (ChallengeOutcome n)
    pub evaluated :
        evaluate_round k kds c d n
          (record v.evaluator { approved_measurement = approved })
          (trials_from n view.meet 0 (discover_miners (hotkey ∷ []) default_scheme neurons))
        ≡ ok outcomes
    pub handed : Handed view (weights_from n outcomes) w after
    -- The validator does not challenge_miners itself.
    pub not_own :
        All (λ m. m.hotkey_ss58 ≢ hotkey) (discover_miners (hotkey ∷ []) default_scheme neurons)
    -- Each miner's weight rests on a report it sent, judged by the list in force.
    pub earned :
        Pairwise k kds c d n
          (record v.evaluator { approved_measurement = approved })
          (Earned k kds c d n (record v.evaluator { approved_measurement = approved }))
          (trials_from n view.meet 0 (discover_miners (hotkey ∷ []) default_scheme neurons))
          outcomes
    -- Every share handed over is between 0 and 1.
    pub bounded :
        All
          (λ x. (n.le n.zero x ≡ true) × (n.le x n.one ≡ true))
          (to_uids_and_weights n (weights_from n outcomes)).1

  others :
      (ns : List Neuron)
      → All (λ m. m.hotkey_ss58 ≢ hotkey) (discover_miners (hotkey ∷ []) default_scheme ns)
  unfolding member
  others ns =
      go (discover_miners (hotkey ∷ []) default_scheme ns)
        (discover_miners-excludes (hotkey ∷ []) default_scheme ns)
    where
      go :
          (ms : List DiscoveredMiner)
          → All (λ m. member m.hotkey_ss58 (hotkey ∷ []) ≡ false) ms
          → All (λ m. m.hotkey_ss58 ≢ hotkey) ms
      go [] h = tt
      go (m ∷ ms) h =
          (λ own. absurd (ground (arith, h.0, text_eq_iff m.hotkey_ss58 hotkey)), go ms h.1)

  score_round-Handed :
      (view : View n) (e : MinerEvaluator n) (ms : List DiscoveredMiner) (w : W)
      → ((score_round k kds c r d n execute args hotkey view e ms w).1 ≡ w)
        ⊎ ((outcomes : List (ChallengeOutcome n)) × (evaluate_round k kds c d n e
                (trials_from n view.meet 0 ms)
              ≡ ok outcomes)
            × Handed view
                (weights_from n outcomes)
                w
                (score_round k kds c r d n execute args hotkey view e ms w).1)
  unfolding score_round
  score_round-Handed view e [] w = inl refl
  score_round-Handed view e (m ∷ ms) w =
      elim (Result-cases (evaluate_round k kds c d n e (trials_from n view.meet 0 (m ∷ ms)))) [
        | inr (f, raised) ↦ inl (rw (score_round, raised) refl)
        | inl (outcomes, scored) ↦ elim (submit-Handed view (weights_from n outcomes) w) [
          | inl same ↦ inl (rw (score_round, scored) same)
          | inr handed ↦ inr (outcomes, scored, rw (score_round, scored) handed)
        ]
      ]

  -- A round leaves the chain as it was, or hands it exactly the weights of the miners found there,
  -- scored under the list in force at the block it read: only where some weight is not zero, the
  -- validator's hotkey holds a permit and the run is no dry run. Those miners have other hotkeys than
  -- the validator's, a miner's weight is other than zero only by a report it sent that was accepted
  -- under that list, and the shares handed over lie between 0 and 1.
  pub one_round-Submission :
      (view : View n) (v : Validator n) (w : W)
      → ((one_round k kds c r d n execute args hotkey view v w).2 ≡ w)
        ⊎ Submission view v w (one_round k kds c r d n execute args hotkey view v w).2
  unfolding one_round approve challenge_miners
  one_round-Submission view v w = elim (Option-cases view.block) [
    | inl silent ↦ inl (rw (one_round, silent) refl)
    | inr (block, read) ↦
        let source = (refresh c r view.refreshed_at view.server view.found v.source).1 in
        elim (Result-cases (refresh c r view.refreshed_at view.server view.found v.source).0) [
          | inr (e, failed) ↦ inl (rw (one_round, read, failed) refl)
          | inl (changed, refreshed) ↦
              elim (Result-cases (approved_at c r view.asked_at block source).0) [
                | inr (e, denied) ↦ inl (rw (one_round, read, refreshed, approve, denied) refl)
                | inl (approved, in_force) ↦ elim (Option-cases view.neurons) [
                  | inl away ↦ inl (
                      rw (one_round, read, refreshed, approve, in_force, challenge_miners, away)
                        refl)
                  | inr (neurons, seen) ↦
                      let e = record v.evaluator { approved_measurement = approved } in
                      let ms = discover_miners (hotkey ∷ []) default_scheme neurons in
                      let reached : (one_round k kds c r d n execute args hotkey view v w).2
                          ≡ (score_round k kds c r d n execute args hotkey view e ms w).1 =
                        rw (one_round, read, refreshed, approve, in_force, challenge_miners, seen)
                          refl in
                      elim (score_round-Handed view e ms w) [
                        | inl same ↦ inl (reached ∙ same)
                        | inr (outcomes, evaluated, handed) ↦ inr (record {
                          block = block;
                          block_read = read;
                          approved = approved;
                          in_force = in_force;
                          neurons = neurons;
                          neurons_read = seen;
                          outcomes = outcomes;
                          evaluated = evaluated;
                          handed =
                              subst (Handed view (weights_from n outcomes) w) (sym reached) handed;
                          not_own = others neurons;
                          earned =
                              evaluate_round-Earned k kds c d n e (trials_from n view.meet 0 ms)
                                outcomes evaluated;
                          bounded = submitted-bounds n outcomes;
                        })
                      ]
                ]
              ]
        ]
  ]
