-- ===== src/Scripts/Validator/Loop.antt =====
-- The loop goes on (`main`, scripts/run_validator.py).
use sentinel_subnet.Attestation.{Crypto}
use sentinel_subnet.SevSnp.Certs.{Pki}
use sentinel_subnet.SevSnp.Verifier.{Kds}
use sentinel_subnet.Validating.Floats.{Floats}
use sentinel_subnet.Validating.Evaluator.{Decoders}
use sentinel_subnet.Validating.Weights.{Intent}
use sentinel_subnet.Registry.{Readers}
use sentinel_subnet.Scripts.Validator.{
  RoundError, Validator, ValidatorArgs, View, attempt_round, run,
}
use sentinel_subnet.Scripts.Validator.Failing.{Failed, attempt_round-Failed}
use sentinel_subnet.Base.Result.{err}
use sentinel_subnet.Base.Text.{Text}
use sentinel_subnet.Base.{
  Bool, List, Option, [], ap, false, if◌then◌else◌, refl, sym, true, ◌++◌, ◌∙◌, ◌∷◌, ◌≡◌,
}

module _ {ℓ} {A : Type ℓ} where
  pub if_true : (b : Bool) (x y : A) → b ≡ true → (if b then x else y) ≡ x
  if_true true x y h = refl
  if_true false x y h = cc h

  pub if_false : (b : Bool) (x y : A) → b ≡ false → (if b then x else y) ≡ y
  if_false true x y h = cc h
  if_false false x y h = refl

module _ {Cert Key R W : Type 0} (k : Pki Cert Key) (kds : Kds Cert) (c : Crypto) (r : Readers)
    (d : Decoders Cert) (n : Floats) (execute : Intent n → W → Option R × W)
    (args : ValidatorArgs n) (hotkey : Text) where
  pub run-once :
      (view : View n) (views : List (View n)) (v : Validator n) (w : W)
      → args.once ≡ true
      → run k kds c r d n execute args hotkey (view ∷ views) v w ≡ (
          let (ended, v', w') = attempt_round k kds c r d n execute args hotkey view v w in
          (ended ∷ [], v', w'))
  unfolding run
  run-once view views v w = if_true args.once _ _

  pub run-cons :
      (view : View n) (views : List (View n)) (v : Validator n) (w : W)
      → args.once ≡ false
      → run k kds c r d n execute args hotkey (view ∷ views) v w ≡ (
          let (ended, v', w') = attempt_round k kds c r d n execute args hotkey view v w in
          let (rest, v'', w'') = run k kds c r d n execute args hotkey views v' w' in
          (ended ∷ rest, v'', w''))
  unfolding run
  run-cons view views v w = if_false args.once _ _

  run-append :
      (before after : List (View n)) (v : Validator n) (w : W)
      → args.once ≡ false
      → run k kds c r d n execute args hotkey (before ++ after) v w ≡ (
          let (ended, v₁, w₁) = run k kds c r d n execute args hotkey before v w in
          let (rest, v₂, w₂) = run k kds c r d n execute args hotkey after v₁ w₁ in
          (ended ++ rest, v₂, w₂))
  unfolding run
  run-append [] after v w often = refl
  run-append (view ∷ before) after v w often =
      let (x, v', w') = attempt_round k kds c r d n execute args hotkey view v w in
      run-cons view (before ++ after) v w often
      ∙ ap (λ t. (x ∷ t.0, t.1, t.2)) (run-append before after v' w' often)
      ∙ ap
          (λ t.
            let (rest, v₂, w₂) = run k kds c r d n execute args hotkey after t.1 t.2 in
            (t.0 ++ rest, v₂, w₂))
          (sym (run-cons view before v w often))

  -- One bad round does not end the run: a round that fails is noted, and every later round happens,
  -- from what it left. It left the operator's list and the evaluator's settings as they were, the chain
  -- too unless the SDK raised over the weights, and the list that the evaluator judges by where there
  -- was none in force. The run is one without `--once`.
  pub run-Failed :
      (before after : List (View n)) (view : View n) (v : Validator n) (w : W) (e : RoundError)
      → args.once ≡ false
      → (let (ended, v₁, w₁) = run k kds c r d n execute args hotkey before v w in
          (attempt_round k kds c r d n execute args hotkey view v₁ w₁).0)
        ≡ err e
      → (let (ended, v₁, w₁) = run k kds c r d n execute args hotkey before v w in
          let (x, v₂, w₂) = attempt_round k kds c r d n execute args hotkey view v₁ w₁ in
          let (rest, v₃, w₃) = run k kds c r d n execute args hotkey after v₂ w₂ in
          Failed k kds c r d n execute args hotkey e v₁ v₂ w₁ w₂
          × (run k kds c r d n execute args hotkey (before ++ (view ∷ after)) v w
              ≡ (ended ++ (err e ∷ rest), v₃, w₃)))
  run-Failed before after view v w e often h =
      let (ended, v₁, w₁) = run k kds c r d n execute args hotkey before v w in
      let (x, v₂, w₂) = attempt_round k kds c r d n execute args hotkey view v₁ w₁ in
      let (rest, v₃, w₃) = run k kds c r d n execute args hotkey after v₂ w₂ in
      (
        attempt_round-Failed k kds c r d n execute args hotkey view v₁ w₁ e h,
        run-append before (view ∷ after) v w often
            ∙ ap (λ t. (ended ++ t.0, t.1, t.2)) (run-cons view after v₁ w₁ often)
            ∙ ap (λ y. (ended ++ (y ∷ rest), v₃, w₃)) h,
      )
