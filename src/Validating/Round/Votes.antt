-- ===== src/Validating/Round/Votes.antt =====
-- The vote on the correct answer (`MinerEvaluator.evaluate_round`, sentinel/validating/evaluator.py).
use mathlib.Core.List.{map-append}
use sentinel_subnet.Validating.Floats.{Floats}
use sentinel_subnet.Validating.Evaluator.{ChallengeOutcome}
use sentinel_subnet.Validating.Round.{
  ballot, cast, count_vote, leader_from, majority_of, min_miners_for_correctness_gate, settle,
  settle_round, tally, tally_from, vote_count,
}
use sentinel_subnet.Base.Text.{Text, text_eq, text_eq_iff}
use sentinel_subnet.Base.Dict.{Dict, IsDict, insert-IsDict, lookup, lookup-insert}
use sentinel_subnet.Base.{
  Bool, Bool-cases, List, Option, [], ap, arith, false, given_or, if◌then◌else◌, inl, inr, leb, ltb,
  map, none, refl, some, ℕ, ◌++◌, ◌+◌, ◌∷◌, ◌≡◌, ◌≤◌, ◌⊎◌,
}

module _ (n : Floats) where
  -- The number of outcomes whose ballot names the hash.
  unfoldable pub votes_for : Text → List (ChallengeOutcome n) → ℕ
  unfolding text_eq
  votes_for hash [] = 0
  votes_for hash (o ∷ os) =
      (elim (ballot n o) [ none ↦ 0 | some own ↦ if text_eq own hash then 1 else 0 ])
      + votes_for hash os

  lookup-cast :
      (hash : Text) (b : Option Text) (votes : Dict ℕ)
      → given_or (lookup hash (cast n b votes)) 0
        ≡ (elim b [ none ↦ 0 | some own ↦ if text_eq own hash then 1 else 0 ])
          + given_or (lookup hash votes) 0
  unfolding cast count_vote
  lookup-cast hash none votes = omega arith
  lookup-cast hash (some own) votes = ground (
    arith,
    text_eq_iff own hash,
    lookup-insert own hash (given_or (lookup own votes) 0 + 1) votes,
  )

  lookup-tally_from :
      (hash : Text) (os : List (ChallengeOutcome n)) (votes : Dict ℕ)
      → given_or (lookup hash (tally_from n votes os)) 0
        ≡ given_or (lookup hash votes) 0 + votes_for hash os
  unfolding tally_from votes_for
  lookup-tally_from hash [] votes = omega arith
  lookup-tally_from hash (o ∷ os) votes =
      let rest = lookup-tally_from hash os (cast n (ballot n o) votes) in
      let step = lookup-cast hash (ballot n o) votes in omega (arith, rest, step)

  cast-IsDict : (b : Option Text) (votes : Dict ℕ) → IsDict votes → IsDict (cast n b votes)
  unfolding cast count_vote
  cast-IsDict none votes h = h
  cast-IsDict (some hash) votes h = insert-IsDict hash (given_or (lookup hash votes) 0 + 1) votes h

  tally_from-IsDict :
      (votes : Dict ℕ) (os : List (ChallengeOutcome n))
      → IsDict votes
      → IsDict (tally_from n votes os)
  unfolding tally_from
  tally_from-IsDict votes [] h = h
  tally_from-IsDict votes (o ∷ os) h =
      tally_from-IsDict (cast n (ballot n o) votes) os (cast-IsDict (ballot n o) votes h)

  -- What the leader has in votes, at least as many as the one before and as each that follows.
  record Leads (best : Text) (most : ℕ) (votes : Dict ℕ) (leader : Text) : Type 0 where
    top : ℕ
    own : ((leader ≡ best) × (top ≡ most)) ⊎ (lookup leader votes ≡ some top)
    above : most ≤ top
    highest : (hash : Text) → given_or (lookup hash votes) 0 ≤ top

  leader_from-Leads :
      (best : Text) (most : ℕ) (votes : Dict ℕ)
      → IsDict votes
      → Leads best most votes (leader_from n best most votes)
  unfolding leader_from lookup
  leader_from-Leads best most [] h = record {
    top = most;
    own = inl (refl, refl);
    above = omega arith;
    highest = λ hash. omega arith;
  }
  leader_from-Leads best most ((hash, count) ∷ votes) h = elim (Bool-cases (ltb most count)) [
    | inl more ↦
        let l = leader_from-Leads hash count votes h.1 in
        record {
          top = l.top;
          own =
              ground (
                arith,
                more,
                h.0,
                text_eq_iff hash (leader_from n hash count votes),
                l.own,
                l.above,
              );
          above =
              ground (
                arith,
                more,
                h.0,
                text_eq_iff hash (leader_from n hash count votes),
                l.own,
                l.above,
              );
          highest = λ other. ground (arith, more, l.above, l.highest other);
        }
    | inr less ↦
        let l = leader_from-Leads best most votes h.1 in
        record {
          top = l.top;
          own =
              ground (
                arith,
                less,
                h.0,
                text_eq_iff hash (leader_from n best most votes),
                l.own,
                l.above,
              );
          above =
              ground (
                arith,
                less,
                h.0,
                text_eq_iff hash (leader_from n best most votes),
                l.own,
                l.above,
              );
          highest = λ other. ground (arith, less, l.above, l.highest other);
        }
  ]

  tally-majority :
      (votes : Dict ℕ) (leader hash : Text)
      → IsDict votes
      → majority_of n votes ≡ some leader
      → given_or (lookup hash votes) 0 ≤ given_or (lookup leader votes) 0
  unfolding majority_of lookup
  tally-majority [] leader hash h e = absurd (ground arith)
  tally-majority ((first, count) ∷ votes) leader hash h e =
      let l = leader_from-Leads first count votes h.1 in
      ground (
        arith,
        text_eq_iff first leader,
        text_eq_iff first hash,
        l.own,
        l.above,
        l.highest hash,
        h.0,
      )

  -- The hash that the round takes for the truth has at least as many votes of verified miners as any
  -- other hash.
  pub majority_votes :
      (os : List (ChallengeOutcome n)) (leader hash : Text)
      → majority_of n (tally n os) ≡ some leader
      → votes_for hash os ≤ votes_for leader os
  unfolding tally
  majority_votes os leader hash h =
      let most = tally-majority (tally_from n [] os) leader hash (tally_from-IsDict [] os tt) h in
      omega (arith, most, lookup-tally_from hash os [], lookup-tally_from leader os [])

  ballot-unverified : (o : ChallengeOutcome n) → o.verified ≡ false → ballot n o ≡ none
  unfolding ballot
  ballot-unverified o h = ground arith

  tally_from-unverified :
      (votes : Dict ℕ) (xs ys : List (ChallengeOutcome n)) (o : ChallengeOutcome n)
      → o.verified ≡ false
      → tally_from n votes (xs ++ (o ∷ ys)) ≡ tally_from n votes (xs ++ ys)
  unfolding tally_from cast
  tally_from-unverified votes [] ys o h =
      ap (λ b. tally_from n (cast n b votes) ys) (ballot-unverified o h)
  tally_from-unverified votes (x ∷ xs) ys o h =
      tally_from-unverified (cast n (ballot n x) votes) xs ys o h

  -- A miner that is not verified has no say: with it or without it, the others are settled by the
  -- same answer and the same gate.
  pub unverified_no_vote :
      (xs ys : List (ChallengeOutcome n)) (o : ChallengeOutcome n)
      → o.verified ≡ false
      → (majority : Option Text) × (gate : Bool) × (settle_round n (xs ++ (o ∷ ys))
          ≡ map (settle n majority gate) xs
            ++ (settle n majority gate o ∷ map (settle n majority gate) ys))
        × (settle_round n (xs ++ ys)
            ≡ map (settle n majority gate) xs ++ map (settle n majority gate) ys)
  unfolding settle_round tally
  unverified_no_vote xs ys o h =
      let votes = tally_from n [] (xs ++ ys) in
      let majority = majority_of n votes in
      let gate = leb min_miners_for_correctness_gate (vote_count n votes) in
      (
        majority,
        gate,
        rw (tally_from-unverified [] xs ys o h, map-append (settle n majority gate) xs (o ∷ ys)),
        map-append (settle n majority gate) xs ys,
      )
