-- ===== src/Scripts/Validator/Handovers.antt =====
-- What a run does to the chain (`main`, scripts/run_validator.py).
use sentinel_subnet.Attestation.{Crypto}
use sentinel_subnet.SevSnp.Certs.{Pki}
use sentinel_subnet.SevSnp.Verifier.{Kds}
use sentinel_subnet.Validating.Floats.{Floats}
use sentinel_subnet.Validating.Evaluator.{Decoders}
use sentinel_subnet.Validating.Weights.{Intent}
use sentinel_subnet.Registry.{Readers}
use sentinel_subnet.Scripts.Validator.{
  Validator, ValidatorArgs, View, attempt_round, chain_error, one_round, run,
}
use sentinel_subnet.Scripts.Validator.Submitted.{Submission, one_round-Submission}
use sentinel_subnet.Scripts.Validator.Loop.{if_false, if_true, run-cons, run-once}
use sentinel_subnet.Base.Result.{err}
use sentinel_subnet.Base.Text.{Text}
use sentinel_subnet.Base.{
  Bool-cases, List, Option, [], inl, inr, ap, false, subst, sym, true, ◌∷◌, ◌≡◌, ◌⊎◌,
}

module _ {Cert Key R W : Type 0} (k : Pki Cert Key) (kds : Kds Cert) (c : Crypto) (r : Readers)
    (d : Decoders Cert) (n : Floats) (execute : Intent n → W → Option R × W)
    (args : ValidatorArgs n) (hotkey : Text) where
  -- What one round does to the chain: nothing, or its own submission, which needs a connection.
  abbrev pub Round : View n → Validator n → W → W → Type 0
  Round view v w mid =
      (mid ≡ w)
      ⊎ ((view.connects ≡ true) × Submission k kds c r d n execute args hotkey view v w mid)

  -- What the rounds of a run do to the chain: each view once and in order, by the validator that the
  -- round before it left.
  pub data Handovers : List (View n) → Validator n → W → W → Type 0 where
    over : {v : Validator n} {w : W} → Handovers [] v w w
    only_round :
        {view : View n} {views : List (View n)} {v : Validator n} {w after : W}
        → args.once ≡ true
        → Round view v w after
        → Handovers (view ∷ views) v w after
    next_round :
        {view : View n} {views : List (View n)} {v : Validator n} {w mid after : W}
        → args.once ≡ false
        → Round view v w mid
        → Handovers views (attempt_round k kds c r d n execute args hotkey view v w).1 mid after
        → Handovers (view ∷ views) v w after

  attempt_round-Round :
      (view : View n) (v : Validator n) (w : W)
      → Round view v w (attempt_round k kds c r d n execute args hotkey view v w).2
  unfolding attempt_round
  attempt_round-Round view v w =
      let round = one_round k kds c r d n execute args hotkey view v w in
      elim (Bool-cases view.connects) [
        | inr away ↦ inl (ap (λ t. t.2) (if_false view.connects round (err chain_error, v, w) away))
        | inl up ↦
            subst (λ t. Round view v w t.2)
              (sym (if_true view.connects round (err chain_error, v, w) up))
              (elim (one_round-Submission k kds c r d n execute args hotkey view v w) [
                | inl same ↦ inl same
                | inr s ↦ inr (up, s)
              ])
      ]

  -- However many rounds a run has and however they end, the chain after it is what its rounds made of
  -- it, in the order of its views, each by the validator that the round before left: a round leaves the
  -- chain as it was, or submits once, while it is connected, the weights of its own outcomes under the
  -- list in force in that round. With `--once` there is one round at most.
  pub run-Handovers :
      (views : List (View n)) (v : Validator n) (w : W)
      → Handovers views v w (run k kds c r d n execute args hotkey views v w).2
  unfolding run
  run-Handovers [] v w = over
  run-Handovers (view ∷ views) v w =
      let (x, v', w') = attempt_round k kds c r d n execute args hotkey view v w in
      elim (Bool-cases args.once) [
        | inl single ↦
            subst (λ t. Handovers (view ∷ views) v w t.2)
              (sym (run-once k kds c r d n execute args hotkey view views v w single))
              (only_round single (attempt_round-Round view v w))
        | inr often ↦
            subst (λ t. Handovers (view ∷ views) v w t.2)
              (sym (run-cons k kds c r d n execute args hotkey view views v w often))
              (next_round often (attempt_round-Round view v w) (run-Handovers views v' w'))
      ]
