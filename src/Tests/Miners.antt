-- ===== src/Tests/Miners.antt =====
-- The validator's theorems at concrete inputs.
use sentinel_subnet.Attestation.{
  AttestationReport, approved_set, bind_response, canonical, non_empty, normalised, verify,
}
use sentinel_subnet.Validating.Floats.{Floats}
use sentinel_subnet.Validating.Floats.FixedPoint.{fixed_point}
use sentinel_subnet.Validating.Scoring.{MinerScores, latency_score, no_scores}
use sentinel_subnet.Validating.Evaluator.{
  ChallengeOutcome, Decoders, Health, Miner, MinerEvaluator, MinerResponse, MinerTarget,
  client_error, header,
}
use sentinel_subnet.Validating.Probe.{
  answered, assess, fail, is_sevsnp, judged, lacks_key, new_outcome, nonce_scored, pass, point,
  probe, probe_id, verify_answer,
}
use sentinel_subnet.Validating.Round.{
  Trial, ballot, cast, count_vote, evaluate_round, leader_from, majority_of,
  min_miners_for_correctness_gate, probe_all, settle, settle_round, tally, tally_from, vote_count,
}
use sentinel_subnet.Validating.Round.Votes.{majority_votes, unverified_no_vote, votes_for}
use sentinel_subnet.Validating.Round.Verdict.{Pairwise}
use sentinel_subnet.Validating.Weights.{to_uids_and_weights, weights_from}
use sentinel_subnet.Validating.Weights.Submission.{IsAscending, has_uid, submission_complete}
use sentinel_subnet.Base.Json.{
  dump_fields, dumps, insert_sorted, print_entries, print_int, text_leb,
}
use sentinel_subnet.Base.Json.Escape.{escape_char, escape_other, escaped, quoted}
use sentinel_subnet.Tests.Fixtures.{Cert, no_kds, pki, plain_crypto}
use sentinel_subnet.Validating.Round.Earned.{Earned, evaluate_round-Earned}
use sentinel_subnet.Base.Result.{ok}
use sentinel_subnet.Base.Text.{
  Text, codes, has_part, is_space, lower, lower_char, lstrip, member, starts_with, strip, text_eq,
  truthy,
}
use sentinel_subnet.Base.Dict.{insert, lookup}
use sentinel_subnet.Base.Int.{ltb_ℤ, pos}
use sentinel_subnet.Base.Decimal.{decimal, digits_before}
use sentinel_subnet.Base.{
  Bool, List, Option, [], any, arith, false, length, map, none, refl, some, true, ℕ, ◌++◌, ◌==◌,
  ◌∷◌, ◌≡◌, ◌≤◌,
}

abbrev pub n : Floats
n = fixed_point

abbrev pub decoders : Decoders Cert
decoders = record { b64decode = λ t. none; load_der = λ t. none }

abbrev evaluator : MinerEvaluator n
evaluator = record {
  approved_measurement = codes "ab" ∷ [];
  product = codes "Milan";
  sevsnp_min_tcb = none;
  min_tcb = pos 7;
  latency_target_ms = 2500000;
  latency_ceiling_ms = 50000000;
}

abbrev target : MinerTarget
target = record { uid = 4; hotkey_ss58 = codes "hot"; base_url = codes "https://miner" }

abbrev mock : Health
mock = record { attestation = none; public_key = some (codes "key"); certificates = [] }

abbrev claim : AttestationReport
claim = record {
  chip_id = codes "chip";
  launch_measurement = codes "ab";
  tcb_level = pos 8;
  nonce = codes "n0";
  report_data = codes "probe-n0:h";
  signature = [];
}

abbrev proof : AttestationReport
proof = record claim { signature = codes "key" ++ canonical claim }

abbrev answer : MinerResponse n
answer = record {
  headers = (codes "cache-control", codes "no-store") ∷ [];
  latency_ms = 1000000;
  response_hash = some (codes "h");
  attestation = some proof;
}

abbrev pub honest : Miner n
honest = record { health = some mock; call = λ nonce id. some answer }

abbrev silent : Miner n
silent = record { health = none; call = λ nonce id. none }

-- What the honest miner's outcome is.
abbrev scored : MinerScores n
scored = record {
  attestation = 10000;
  latency = 10000;
  correctness = 0;
  cache_hygiene = 10000;
  nonce_discipline = 10000;
}

abbrev good : ChallengeOutcome n
good = record {
  uid = 4;
  hotkey_ss58 = codes "hot";
  scores = scored;
  verified = true;
  latency_ms = 1000000;
  response_hash = some (codes "h");
  error = none;
  correctness_gated = false;
}

-- The silent miner's outcome.
abbrev bad : ChallengeOutcome n
bad = record {
  uid = 4;
  hotkey_ss58 = codes "hot";
  scores = no_scores n;
  verified = false;
  latency_ms = 0;
  response_hash = none;
  error = some client_error;
  correctness_gated = false;
}

probed : probe pki no_kds plain_crypto decoders n evaluator target (codes "n0") honest ≡ ok good
unfolding probe is_sevsnp lacks_key truthy probe_id point new_outcome fail answered nonce_scored
    pass judged verify_answer assess latency_score header has_part starts_with no_scores
    bind_response verify canonical dumps dump_fields lookup text_eq member approved_set normalised
    non_empty strip lstrip lower lower_char is_space ltb_ℤ quoted escaped escape_char escape_other
    decimal digits_before print_int print_entries insert_sorted text_leb
probed = refl

silenced : probe pki no_kds plain_crypto decoders n evaluator target (codes "n0") silent ≡ ok bad
unfolding probe new_outcome fail
silenced = refl

abbrev pub trials : List (Trial pki no_kds plain_crypto decoders n evaluator)
trials = (target, codes "n0", honest) ∷ (target, codes "n0", silent) ∷ []

round_run :
    evaluate_round pki no_kds plain_crypto decoders n evaluator trials
    ≡ ok (settle_round n (good ∷ bad ∷ []))
unfolding evaluate_round probe_all
round_run = rw (probed, silenced) refl

evaluate_round-Earned_example :
    Pairwise pki no_kds plain_crypto decoders n evaluator
      (Earned pki no_kds plain_crypto decoders n evaluator)
      trials
      (settle_round n (good ∷ bad ∷ []))
evaluate_round-Earned_example =
    evaluate_round-Earned pki no_kds plain_crypto decoders n evaluator trials
      (settle_round n (good ∷ bad ∷ [])) round_run

abbrev dissenter : ChallengeOutcome n
dissenter = record good { uid = 5; response_hash = some (codes "x") }

abbrev round : List (ChallengeOutcome n)
round = good ∷ dissenter ∷ good ∷ []

majority : majority_of n (tally n round) ≡ some (codes "h")
unfolding majority_of tally tally_from ballot cast count_vote insert lookup text_eq truthy
    leader_from
majority = refl

majority_votes_example : votes_for n (codes "x") round ≤ votes_for n (codes "h") round
majority_votes_example = majority_votes n round (codes "h") (codes "x") majority

enough : min_miners_for_correctness_gate ≤ vote_count n (tally n round)
unfolding vote_count tally tally_from ballot cast count_vote insert lookup text_eq truthy
enough = omega arith

unverified_no_vote_example :
    (agreed : Option Text) × (gate : Bool) × (settle_round n ((good ∷ []) ++ (bad ∷ round))
      ≡ map (settle n agreed gate) (good ∷ [])
        ++ (settle n agreed gate bad ∷ map (settle n agreed gate) round))
    × (settle_round n ((good ∷ []) ++ round)
        ≡ map (settle n agreed gate) (good ∷ []) ++ map (settle n agreed gate) round)
unverified_no_vote_example = unverified_no_vote n (good ∷ []) round bad refl

submission_complete_example :
    IsAscending (to_uids_and_weights n (weights_from n round)).0
    × (length (to_uids_and_weights n (weights_from n round)).1
        ≡ length (to_uids_and_weights n (weights_from n round)).0)
    × ((uid : ℕ)
        → has_uid n uid (to_uids_and_weights n (weights_from n round)).0
          ≡ any (λ o. o.uid == uid) round)
submission_complete_example = submission_complete n round
