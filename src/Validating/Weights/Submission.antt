-- ===== src/Validating/Weights/Submission.antt =====
-- What is submitted to the chain (`to_uids_and_weights`, sentinel/validating/weights.py).
use sentinel_subnet.Validating.Floats.{Floats}
use sentinel_subnet.Validating.Evaluator.{ChallengeOutcome}
use sentinel_subnet.Validating.Round.{outcome_weight}
use sentinel_subnet.Validating.Weights.{
  ByUid, clamped, get_uid, insert_uid, raw_from, scale_all, set_uid, sorted_uids, sum_from,
  to_uids_and_weights, weights_from,
}
use sentinel_subnet.Base.{
  All, Bool, Bool-cases, List, [], any, arith, if◌then◌else◌, inl, inr, is_some, leb, length,
  length-map, none, refl, some, ℕ, ◌<◌, ◌==◌, ◌||◌, ◌∷◌, ◌≡◌, ◌≢◌,
}

-- Each uid is less than the next.
abbrev pub IsAscending : List ℕ → Type 0
IsAscending [] = Unit
IsAscending (j ∷ uids) = All (λ i. j < i) uids × IsAscending uids

insert_uid-All :
    (P : ℕ → Type 0) (uid : ℕ) (uids : List ℕ) → P uid → All P uids → All P (insert_uid uid uids)
unfolding insert_uid
insert_uid-All P uid [] p h = (p, tt)
insert_uid-All P uid (j ∷ uids) p h = elim (Bool-cases (leb uid j)) [
  | inl low ↦ rw low (p, h)
  | inr high ↦ rw high (h.0, insert_uid-All P uid uids p h.1)
]

All-lt_trans : (i j : ℕ) (uids : List ℕ) → i < j → All (λ k. j < k) uids → All (λ k. i < k) uids
All-lt_trans i j [] p h = tt
All-lt_trans i j (k ∷ uids) p h = (omega (arith, h.0), All-lt_trans i j uids p h.1)

insert_uid-IsAscending :
    (uid : ℕ) (uids : List ℕ)
    → All (λ i. uid ≢ i) uids
    → IsAscending uids
    → IsAscending (insert_uid uid uids)
unfolding insert_uid
insert_uid-IsAscending uid [] new h = (tt, tt)
insert_uid-IsAscending uid (j ∷ uids) new h = elim (Bool-cases (leb uid j)) [
  | inl low ↦
      let less : uid < j = ground (arith, new.0) in
      rw low ((less, All-lt_trans uid j uids less h.0), h)
  | inr high ↦ rw high (
    insert_uid-All (λ i. j < i) uid uids (ground arith) h.0,
    insert_uid-IsAscending uid uids new.1 h.1,
  )
]

module _ (n : Floats) where
  open n use {F, zero, le, div}

  -- No uid is listed twice.
  abbrev IsUnique : ByUid n → Type 0
  IsUnique [] = Unit
  IsUnique ((j, w) ∷ d) = (get_uid n j d ≡ none) × IsUnique d

  get_uid-set_uid :
      (uid j : ℕ) (w : F) (d : ByUid n)
      → get_uid n j (set_uid n uid w d) ≡ (if uid == j then some w else get_uid n j d)
  unfolding get_uid set_uid
  get_uid-set_uid uid j w [] = refl
  get_uid-set_uid uid j w ((i, v) ∷ d) = ground (arith, get_uid-set_uid uid j w d)

  set_uid-IsUnique : (uid : ℕ) (w : F) (d : ByUid n) → IsUnique d → IsUnique (set_uid n uid w d)
  unfolding get_uid set_uid
  set_uid-IsUnique uid w [] h = (refl, tt)
  set_uid-IsUnique uid w ((j, v) ∷ d) h =
      ground (arith, get_uid-set_uid uid j w d, set_uid-IsUnique uid w d h.1)

  raw_from-IsUnique :
      (d : ByUid n) (os : List (ChallengeOutcome n)) → IsUnique d → IsUnique (raw_from n d os)
  unfolding raw_from
  raw_from-IsUnique d [] h = h
  raw_from-IsUnique d (o ∷ os) h =
      raw_from-IsUnique (set_uid n o.uid (outcome_weight n o) d) os
        (set_uid-IsUnique o.uid (outcome_weight n o) d h)

  sorted_uids-scale_all :
      (f : F → F) (d : ByUid n) → sorted_uids n (scale_all n f d) ≡ sorted_uids n d
  unfolding sorted_uids scale_all
  sorted_uids-scale_all f [] = refl
  sorted_uids-scale_all f ((j, w) ∷ d) = rw (sorted_uids-scale_all f d)

  absent-All :
      (uid : ℕ) (d : ByUid n) → get_uid n uid d ≡ none → All (λ i. uid ≢ i) (sorted_uids n d)
  unfolding get_uid sorted_uids
  absent-All uid [] h = tt
  absent-All uid ((j, w) ∷ d) h =
      insert_uid-All (λ i. uid ≢ i) j (sorted_uids n d) (ground arith)
        (absent-All uid d (ground arith))

  sorted_uids-IsAscending : (d : ByUid n) → IsUnique d → IsAscending (sorted_uids n d)
  unfolding sorted_uids
  sorted_uids-IsAscending [] h = tt
  sorted_uids-IsAscending ((j, w) ∷ d) h =
      insert_uid-IsAscending j (sorted_uids n d) (absent-All j d h.0)
        (sorted_uids-IsAscending d h.1)

  sorted_uids-weights_from :
      (os : List (ChallengeOutcome n))
      → sorted_uids n (weights_from n os) ≡ sorted_uids n (raw_from n [] os)
  unfolding weights_from
  sorted_uids-weights_from os =
      let raw = raw_from n [] os in
      let total = sum_from n zero raw in
      elim (Bool-cases (le total zero)) [
        | inl nothing ↦ rw nothing (sorted_uids-scale_all (λ w. zero) raw)
        | inr something ↦ rw something (sorted_uids-scale_all (λ w. div w total) raw)
      ]

  -- The uid is among them.
  unfoldable pub has_uid : ℕ → List ℕ → Bool
  has_uid uid = any (λ j. j == uid)

  has_uid-insert_uid :
      (uid j : ℕ) (uids : List ℕ)
      → has_uid uid (insert_uid j uids) ≡ ((j == uid) || has_uid uid uids)
  unfolding has_uid insert_uid
  has_uid-insert_uid uid j [] = refl
  has_uid-insert_uid uid j (i ∷ uids) = ground (arith, has_uid-insert_uid uid j uids)

  has_uid-sorted_uids :
      (uid : ℕ) (d : ByUid n) → has_uid uid (sorted_uids n d) ≡ is_some (get_uid n uid d)
  unfolding has_uid sorted_uids get_uid
  has_uid-sorted_uids uid [] = refl
  has_uid-sorted_uids uid ((j, w) ∷ d) =
      ground (arith, has_uid-insert_uid uid j (sorted_uids n d), has_uid-sorted_uids uid d)

  get_uid-raw_from :
      (uid : ℕ) (d : ByUid n) (os : List (ChallengeOutcome n))
      → is_some (get_uid n uid (raw_from n d os))
        ≡ (is_some (get_uid n uid d) || any (λ o. o.uid == uid) os)
  unfolding raw_from
  get_uid-raw_from uid d [] = ground arith
  get_uid-raw_from uid d (o ∷ os) = ground (
    arith,
    get_uid-set_uid o.uid uid (outcome_weight n o) d,
    get_uid-raw_from uid (set_uid n o.uid (outcome_weight n o) d) os,
  )

  -- The submission names exactly the uids of the round's outcomes, each once and in ascending order,
  -- with as many weights.
  pub submission_complete :
      (os : List (ChallengeOutcome n))
      → IsAscending (to_uids_and_weights n (weights_from n os)).0
        × (length (to_uids_and_weights n (weights_from n os)).1
            ≡ length (to_uids_and_weights n (weights_from n os)).0)
        × ((uid : ℕ)
            → has_uid uid (to_uids_and_weights n (weights_from n os)).0
              ≡ any (λ o. o.uid == uid) os)
  unfolding to_uids_and_weights
  submission_complete os =
      let raw = raw_from n [] os in
      (
        rw (sorted_uids-weights_from os) (sorted_uids-IsAscending raw (raw_from-IsUnique [] os tt)),
        length-map (clamped n (weights_from n os)) (sorted_uids n (weights_from n os)),
        λ uid.
            rw (sorted_uids-weights_from os, has_uid-sorted_uids uid raw)
              (get_uid-raw_from uid [] os),
      )
