-- ===== src/Validating/Round/Verdict.antt =====
-- What a round makes of its outcomes (`MinerEvaluator.evaluate_round`,
-- sentinel/validating/evaluator.py).
use sentinel_subnet.Attestation.{Crypto, Failure, differs}
use sentinel_subnet.SevSnp.Certs.{Pki}
use sentinel_subnet.SevSnp.Verifier.{Kds}
use sentinel_subnet.Validating.Floats.{Floats}
use sentinel_subnet.Validating.Scoring.{weight}
use sentinel_subnet.Validating.Evaluator.{
  ChallengeOutcome, Decoders, Miner, MinerEvaluator, MinerTarget,
}
use sentinel_subnet.Validating.Probe.{probe}
use sentinel_subnet.Validating.Probe.Outcome.{IsSettled, probe-IsSettled}
use sentinel_subnet.Validating.Round.{
  Trial, agreement, evaluate_round, majority_of, min_miners_for_correctness_gate, outcome_weight,
  probe_all, settle, settle_round, tally, vote_count, with_correctness,
}
use sentinel_subnet.Base.Result.{>>=-eq-ok, Result-cases, err, ok}
use sentinel_subnet.Base.Text.{Text, text_eq_iff}
use sentinel_subnet.Base.{
  All, Bool, Bool-cases, List, Option, Option-cases, [], arith, false, inl, inr, leb, map, none,
  refl, some, subst, sym, true, ℕ, ◌++◌, ◌∙◌, ◌∷◌, ◌≡◌, ◌≢◌, ◌≤◌,
}

module _ (n : Floats) where
  settle-unverified :
      (majority : Option Text) (gate : Bool) (o : ChallengeOutcome n)
      → IsSettled n o
      → o.verified ≡ false
      → outcome_weight n (settle n majority gate o) ≡ n.zero
  unfolding settle with_correctness outcome_weight weight
  settle-unverified none gate o h v = ground (arith, h.unproved, n.le_refl n.zero)
  settle-unverified (some m) gate o h v = ground (arith, h.unproved, n.le_refl n.zero)

  pub settle-kept :
      (majority : Option Text) (gate : Bool) (o : ChallengeOutcome n)
      → ((settle n majority gate o).uid ≡ o.uid)
        × ((settle n majority gate o).hotkey_ss58 ≡ o.hotkey_ss58)
        × ((settle n majority gate o).verified ≡ o.verified)
        × ((settle n majority gate o).response_hash ≡ o.response_hash)
  unfolding settle with_correctness
  settle-kept none gate o = (refl, refl, refl, refl)
  settle-kept (some m) gate o = elim (Bool-cases o.verified) [
    | inl v ↦ ground (arith, v)
    | inr v ↦ ground (arith, v)
  ]

  settle-dissent :
      (majority : Text) (o : ChallengeOutcome n)
      → o.verified ≡ true
      → o.response_hash ≢ some majority
      → outcome_weight n (settle n (some majority) true o) ≡ n.zero
  unfolding settle with_correctness outcome_weight weight agreement
  settle-dissent majority o v differs = elim (Option-cases o.response_hash) [
    | inl missing ↦ ground (arith, n.le_refl n.zero)
    | inr (hash, own) ↦ ground (arith, n.le_refl n.zero, text_eq_iff hash majority)
  ]

  leb-true : {a b : ℕ} → a ≤ b → leb a b ≡ true
  leb-true h = ground arith

  dissents :
      (majority : Text) (os : List (ChallengeOutcome n))
      → All
          (λ o. o.verified ≡ true → o.response_hash ≢ some majority → outcome_weight n o ≡ n.zero)
          (map (settle n (some majority) true) os)
  dissents majority [] = tt
  dissents majority (o ∷ os) =
      let kept = settle-kept (some majority) true o in
      (
        λ v differs. settle-dissent majority o (sym kept.2 ∙ v) (λ own. differs (kept.3 ∙ own)),
        dissents majority os,
      )

  -- Once three miners or more have voted, a verified miner whose answer is not the majority's weighs
  -- nothing.
  pub dissent_weighs_nothing :
      (os : List (ChallengeOutcome n)) (majority : Text)
      → min_miners_for_correctness_gate ≤ vote_count n (tally n os)
      → majority_of n (tally n os) ≡ some majority
      → All
          (λ o. o.verified ≡ true → o.response_hash ≢ some majority → outcome_weight n o ≡ n.zero)
          (settle_round n os)
  unfolding settle_round
  dissent_weighs_nothing os majority enough chosen =
      rw (chosen, leb-true enough) (dissents majority os)

module _ {Cert Key : Type 0} (k : Pki Cert Key) (kds : Kds Cert) (c : Crypto) (d : Decoders Cert)
    (n : Floats) (e : MinerEvaluator n) where
  -- An outcome for its target, that weighs nothing if it is not verified.
  pub record IsVerdict (trial : Trial k kds c d n e) (o : ChallengeOutcome n) : Type 0 where
    pub uid : o.uid ≡ trial.0.uid
    pub hotkey_ss58 : o.hotkey_ss58 ≡ trial.0.hotkey_ss58
    pub worthless : o.verified ≡ false → outcome_weight n o ≡ n.zero

  pub settle-IsVerdict :
      (majority : Option Text) (gate : Bool) (t : MinerTarget) (nonce : Text) (miner : Miner n)
      (o : ChallengeOutcome n)
      → probe k kds c d n e t nonce miner ≡ ok o
      → IsVerdict (t, nonce, miner) (settle n majority gate o)
  settle-IsVerdict majority gate t nonce miner o h =
      let kept = settle-kept n majority gate o in
      let settled = probe-IsSettled k kds c d n e t nonce miner o h in
      record {
        uid = kept.0 ∙ settled.0;
        hotkey_ss58 = kept.1 ∙ settled.1;
        worthless = λ v. settle-unverified n majority gate o settled.2 (sym kept.2 ∙ v);
      }

  -- The lists are equally long, and the relation holds of each pair.
  abbrev pub Pairwise : {A B : Type 0} → (A → B → Type 0) → List A → List B → Type 0
  Pairwise R [] [] = Unit
  Pairwise R [] (y ∷ ys) = ⊥
  Pairwise R (x ∷ xs) [] = ⊥
  Pairwise R (x ∷ xs) (y ∷ ys) = R x y × Pairwise R xs ys

  -- What settling makes of each probe's outcome holds of the round's.
  pub evaluate_round-Pairwise :
      (R : Trial k kds c d n e → ChallengeOutcome n → Type 0)
      → ((majority : Option Text) (gate : Bool) (t : MinerTarget) (nonce : Text) (miner : Miner n)
            (o : ChallengeOutcome n)
          → probe k kds c d n e t nonce miner ≡ ok o
          → R (t, nonce, miner) (settle n majority gate o))
      → (trials : List (Trial k kds c d n e)) (os : List (ChallengeOutcome n))
      → evaluate_round k kds c d n e trials ≡ ok os
      → Pairwise R trials os
  unfolding evaluate_round settle_round probe_all
  evaluate_round-Pairwise R each trials os h =
      let (found, probed, settled) = >>=-eq-ok (probe_all k kds c d n e trials) _ h in
      let same : settle_round n found ≡ os = cc settled in
      subst (Pairwise R trials) same (go _ _ trials found probed)
    where
      go :
          (majority : Option Text) (gate : Bool) (trials : List (Trial k kds c d n e))
          (os : List (ChallengeOutcome n))
          → probe_all k kds c d n e trials ≡ ok os
          → Pairwise R trials (map (settle n majority gate) os)
      go majority gate [] os h =
          let same : [] ≡ os = cc h in
          subst (λ xs. Pairwise R [] (map (settle n majority gate) xs)) same tt
      go majority gate ((t, nonce, miner) ∷ trials) os h =
          let (o, probed, more) = >>=-eq-ok (probe k kds c d n e t nonce miner) _ h in
          let (rest, rested, made) = >>=-eq-ok (probe_all k kds c d n e trials) _ more in
          let same : (o ∷ rest) ≡ os = cc made in
          subst (λ xs. Pairwise R ((t, nonce, miner) ∷ trials) (map (settle n majority gate) xs))
            same (each majority gate t nonce miner o probed, go majority gate trials rest rested)

  -- A round that returns has one outcome for each target, in their order, and a miner that is not
  -- verified weighs nothing.
  pub evaluate_round-IsVerdict :
      (trials : List (Trial k kds c d n e)) (os : List (ChallengeOutcome n))
      → evaluate_round k kds c d n e trials ≡ ok os
      → Pairwise IsVerdict trials os
  evaluate_round-IsVerdict = evaluate_round-Pairwise IsVerdict settle-IsVerdict

  probe_all-raises :
      (before after : List (Trial k kds c d n e)) (t : MinerTarget) (nonce : Text) (miner : Miner n)
      (f : Failure)
      → probe k kds c d n e t nonce miner ≡ err f
      → (g : Failure) × (probe_all k kds c d n e (before ++ ((t, nonce, miner) ∷ after)) ≡ err g)
  unfolding probe_all
  probe_all-raises [] after t nonce miner f h = (f, rw h)
  probe_all-raises ((t', nonce', miner') ∷ before) after t nonce miner f h =
      let (g, raised) = probe_all-raises before after t nonce miner f h in
      elim (Result-cases (probe k kds c d n e t' nonce' miner')) [
        | inl (o, fine) ↦ (g, rw (fine, raised))
        | inr (first, bad) ↦ (first, rw bad)
      ]

  -- One miner whose probe raises ends the whole round: no miner gets an outcome.
  pub one_raise_ends_round :
      (before after : List (Trial k kds c d n e)) (t : MinerTarget) (nonce : Text) (miner : Miner n)
      (f : Failure)
      → probe k kds c d n e t nonce miner ≡ err f
      → (g : Failure) × (evaluate_round k kds c d n e (before ++ ((t, nonce, miner) ∷ after))
          ≡ err g)
  unfolding evaluate_round
  one_raise_ends_round before after t nonce miner f h =
      let (g, raised) = probe_all-raises before after t nonce miner f h in (g, rw raised)
