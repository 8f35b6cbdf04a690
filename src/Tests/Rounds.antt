-- ===== src/Tests/Rounds.antt =====
-- The running validator's theorems at concrete inputs.
use sentinel_subnet.Attestation.{
  approved_set, bind_response, canonical, non_empty, normalised, verify,
}
use sentinel_subnet.Validating.Scoring.{
  clamp, latency_score, max_f, min_f, no_scores, weight, weighted_sum,
}
use sentinel_subnet.Validating.Evaluator.{header}
use sentinel_subnet.Validating.Probe.{
  answered, assess, fail, is_sevsnp, judged, lacks_key, new_outcome, nonce_scored, pass, point,
  probe, probe_id, verify_answer,
}
use sentinel_subnet.Validating.Round.{
  agreement, ballot, cast, count_vote, evaluate_round, leader_from, majority_of, outcome_weight,
  probe_all, settle, settle_round, tally, tally_from, vote_count, with_correctness,
}
use sentinel_subnet.Validating.Weights.{
  Intent, clamped, get_uid, insert_uid, raw_from, scale_all, set_uid, set_weights,
  set_weights_intent, sorted_uids, sum_from, to_uids_and_weights, weights_from,
}
use sentinel_subnet.Registry.{no_measurements}
use sentinel_subnet.Registry.Source.{
  approved_at, chain_trouble, current, is_stale, load_cache, new_source, promote, refresh,
  warn_fallback,
}
use sentinel_subnet.Chain.Discovery.{
  Axon, Neuron, discover_miners, discovered, endpoint, formatted, has_validator_permit, no_axon,
}
use sentinel_subnet.Scripts.Validator.{
  Validator, ValidatorArgs, View, any_weight, approve, attempt_round, challenge_miners,
  default_args, first_approved, new_validator, one_round, registry_error, run, score_round,
  stale_after_seconds, submit, target_of, trials_from,
}
use sentinel_subnet.Scripts.Validator.Submitted.{Submission, one_round-Submission}
use sentinel_subnet.Scripts.Validator.Failing.{Failed}
use sentinel_subnet.Scripts.Validator.Loop.{run-Failed}
use sentinel_subnet.Scripts.Validator.Handovers.{Handovers, run-Handovers}
use sentinel_subnet.Tests.Fixtures.{no_kds, pki, plain_crypto}
use sentinel_subnet.Tests.Miners.{decoders, honest, n}
use sentinel_subnet.Tests.Measurements.{readers}
use sentinel_subnet.Base.Json.{
  dump_fields, dumps, insert_sorted, print_entries, print_int, text_leb,
}
use sentinel_subnet.Base.Json.Escape.{escape_char, escape_other, escaped, quoted}
use sentinel_subnet.Base.Result.{err, ok}
use sentinel_subnet.Base.Text.{
  Text, codes, has_part, is_space, lower, lower_char, lstrip, member, starts_with, strip, text_eq,
  truthy,
}
use sentinel_subnet.Base.Dict.{insert, lookup}
use sentinel_subnet.Base.Int.{ltb_ℤ, pos}
use sentinel_subnet.Base.Decimal.{decimal, digits_before}
use sentinel_subnet.Base.{
  Bool, List, Option, [], false, length, none, refl, some, true, ◌∷◌, ◌≡◌, ◌⊎◌,
}

-- Another validator's neuron, a miner's and the validator's own.
abbrev neuron : Text → Axon → Bool → Neuron
neuron hotkey axon permit = record {
  uid = length hotkey;
  hotkey = hotkey;
  axon = axon;
  validator_permit = permit;
}

abbrev neurons : List Neuron
neurons =
    neuron (codes "other") no_axon true
    ∷ neuron (codes "hot") (formatted (codes "10.0.0.1:80")) false
    ∷ neuron (codes "val") (formatted (codes "10.0.0.2:80")) true
    ∷ []

abbrev view : View n
view = record {
  connects = true;
  block = some 500;
  found = chain_trouble;
  server = λ url. none;
  refreshed_at = 10;
  asked_at = 11;
  neurons = some neurons;
  permits = some neurons;
  meet = λ place t. (codes "n0", honest);
}

abbrev away : View n
away = record view { connects = false }

abbrev operator : ValidatorArgs n
operator = record {
  netuid = 554;
  measurement = codes "AB" ∷ [];
  product = codes "Milan";
  latency_ceiling_ms = 50000000;
  once = false;
  dry_run = false;
}

as_given : record (default_args n) { measurement = codes "AB" ∷ [] } ≡ operator
unfolding default_args
as_given = refl

abbrev start : Validator n
start = record {
  source = record {
    fallback = codes "ab" ∷ [];
    stale_after = stale_after_seconds;
    writable = false;
    active = none;
    pending = none;
    last_success = none;
    warned_stale = false;
    cache = none;
  };
  evaluator = record {
    approved_measurement = codes "ab" ∷ [];
    product = codes "Milan";
    sevsnp_min_tcb = none;
    min_tcb = pos 7;
    latency_target_ms = 2500000;
    latency_ceiling_ms = 50000000;
  };
}

started : new_validator n plain_crypto readers operator false none ≡ ok start
unfolding new_validator new_source load_cache first_approved approved_set normalised non_empty lower
    lower_char strip lstrip is_space
started = refl

-- A chain that keeps what it is handed.
abbrev execute : Intent n → List (Intent n) → Option (Unit {0}) × List (Intent n)
execute i w = (some tt, i ∷ w)

one_round-Submission_example :
    ((one_round pki no_kds plain_crypto readers decoders n execute operator
        (codes "val")
        view
        start
        []).2
      ≡ [])
    ⊎ Submission pki no_kds plain_crypto readers decoders n execute operator
        (codes "val")
        view
        start
        []
        (one_round pki no_kds plain_crypto readers decoders n execute operator
          (codes "val")
          view
          start
          []).2
one_round-Submission_example =
    one_round-Submission pki no_kds plain_crypto readers decoders n execute operator (codes "val")
      view start []

-- The one miner that proves itself gets the whole share.
submits :
    (one_round pki no_kds plain_crypto readers decoders n execute operator
      (codes "val")
      view
      start
      []).2
    ≡ set_weights_intent 554 (3 ∷ []) (10000 ∷ []) 0 ∷ []
unfolding one_round refresh warn_fallback is_stale approve approved_at promote current
    challenge_miners discover_miners discovered endpoint score_round trials_from target_of
    evaluate_round probe_all settle_round settle with_correctness agreement tally tally_from ballot
    cast count_vote majority_of leader_from vote_count insert weights_from raw_from set_uid
    outcome_weight weight sum_from scale_all submit any_weight has_validator_permit set_weights
    to_uids_and_weights sorted_uids insert_uid clamped get_uid max_f min_f clamp weighted_sum probe
    is_sevsnp lacks_key truthy probe_id point new_outcome fail answered nonce_scored pass judged
    verify_answer assess latency_score header has_part starts_with no_scores bind_response verify
    canonical dumps dump_fields lookup text_eq member approved_set normalised non_empty strip lstrip
    lower lower_char is_space ltb_ℤ quoted escaped escape_char escape_other decimal digits_before
    print_int print_entries insert_sorted text_leb
submits = refl

-- Without a list of any kind there is nothing to judge by.
abbrev bare : Validator n
bare = record start { source = record start.source { fallback = [] } }

listless :
    (attempt_round pki no_kds plain_crypto readers decoders n execute operator
      (codes "val")
      view
      bare
      []).0
    ≡ err (registry_error no_measurements)
unfolding attempt_round one_round refresh warn_fallback approve approved_at promote current
listless = refl

run-Failed_example :
    Failed pki no_kds plain_crypto readers decoders n execute operator
      (codes "val")
      (registry_error no_measurements)
      bare
      (attempt_round pki no_kds plain_crypto readers decoders n execute operator
        (codes "val")
        view
        bare
        []).1
      []
      (attempt_round pki no_kds plain_crypto readers decoders n execute operator
        (codes "val")
        view
        bare
        []).2
    × (run pki no_kds plain_crypto readers decoders n execute operator
          (codes "val")
          (view ∷ away ∷ [])
          bare
          []
        ≡ (let (x, v, w) =
              attempt_round pki no_kds plain_crypto readers decoders n execute operator
                (codes "val")
                view
                bare
                [] in
            let (rest, last, chain) =
              run pki no_kds plain_crypto readers decoders n execute operator
                (codes "val")
                (away ∷ [])
                v
                w in
            (err (registry_error no_measurements) ∷ rest, last, chain)))
unfolding run
run-Failed_example =
    run-Failed pki no_kds plain_crypto readers decoders n execute operator (codes "val") []
      (away ∷ []) view bare [] (registry_error no_measurements) refl listless

run-Handovers_example :
    Handovers pki no_kds plain_crypto readers decoders n execute operator
      (codes "val")
      (view ∷ away ∷ view ∷ [])
      start
      []
      (run pki no_kds plain_crypto readers decoders n execute operator
        (codes "val")
        (view ∷ away ∷ view ∷ [])
        start
        []).2
run-Handovers_example =
    run-Handovers pki no_kds plain_crypto readers decoders n execute operator (codes "val")
      (view ∷ away ∷ view ∷ []) start []
