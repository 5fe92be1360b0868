-- ===== src/Alerts/Service/Examples.antt =====
-- Tests of a stored rule's evaluation, and its theorems at concrete inputs.
use apanel.Base.{
  nat_equality, bool_equality, pair_equality, option_equality, text_equality, ℕ, ◌≡◌, refl, true,
  false, none, some, List, [], ◌∷◌, ◌++◌, arith, ok,
}
use apanel.Base.Texts.{text}
use apanel.Base.Dict.{get}
use apanel.Base.Integers.{integers, ℤ, pos}
use apanel.States.Values.{null, real}
use apanel.Alerts.Rules.{finite_number, compare_with, matches, less_than, on_value, on_state}
use apanel.Alerts.Observations.{
  from_value, lit, is_reserved, observed_values, make_observation, flattened_values,
  mapped_arguments, observation_from_mapping, active, reset,
}
use apanel.Alerts.Evaluator.{
  folded_lookup, case_insensitive_lookup, conclude_alert, normalize_observation, value_satisfied,
  condition_satisfied, evaluate, value,
}
use apanel.Alerts.Service.Records.{
  enqueue_trigger, StoredRule, AlertInstance, Note, event_active, event_inactive, enter, exit,
  StateEvent, no_cutoff, SnapshotRow, Store, Desk,
}
use apanel.Alerts.Service.Replay.{
  restated, insert_snapshot, due_snapshots, evaluate_given, replay_events, evaluate_snapshot,
  after_snapshot, replay_snapshots, catch_up_values, catch_up,
}
use apanel.Alerts.Service.Evaluation.{
  renewed, evaluate_today, evaluate_resolved, evaluate_observed, evaluate_rule, Resolved,
}
use apanel.Alerts.Service.Sequence.{Ascends, Extends, evaluate_rule-Ascends}
use apanel.Alerts.Service.Enters.{sources, entered, replay_events-entered}
use apanel.Alerts.Service.Repeats.{evaluate_rule-repeats}

abbrev cheap : StoredRule ℤ
cheap = record {
  domain = record {
    condition =
        on_value (record { indicator = text "PE"; operator = less_than; threshold = pos 10 });
    security_id = null;
    enabled = true;
    rule_id = null;
  };
  rule_version = 1;
  trigger_sequence = 0;
  edge_mode = false;
  dividend = false;
}

abbrev empty_store : Store ℤ
empty_store = record {
  rule = cheap;
  instance_row = none;
  outbox = [];
  stream = none;
  events = [];
  snapshots = [];
}

abbrev day_five : Resolved ℤ
day_five = record { day = 5; given = value (real (pos 8)) }

abbrev first_note : Note
first_note = record {
  trigger_sequence = 1;
  rule_version = 1;
  observation_date = 5;
  source_event_id = none;
}

abbrev first_row : AlertInstance
first_row = record {
  status = active;
  rule_version = 1;
  trigger_sequence = 1;
  last_evaluated = some 5;
  last_consumed_state_seq = 0;
}

abbrev after_five : Store ℤ
after_five = record {
  rule = record cheap { trigger_sequence = 1 };
  instance_row = some first_row;
  outbox = first_note ∷ [];
  stream = none;
  events = [];
  snapshots = [];
}

evaluates_five : evaluate_rule integers (some 5) (some day_five) empty_store ≡ ok after_five
unfolding evaluate_rule evaluate_observed evaluate_today evaluate_given enqueue_trigger evaluate
    normalize_observation make_observation condition_satisfied value_satisfied
    case_insensitive_lookup folded_lookup matches compare_with conclude_alert from_value
    finite_number observed_values lit get
evaluates_five = refl

-- The same day again, now above the threshold.
abbrev dear_five : Resolved ℤ
dear_five = record { day = 5; given = value (real (pos 12)) }

abbrev after_dear : Store ℤ
after_dear = record after_five { instance_row = some (record first_row { status = reset }) }

evaluates_dear : evaluate_rule integers (some 5) (some dear_five) after_five ≡ ok after_dear
unfolding evaluate_rule evaluate_observed evaluate_resolved renewed evaluate_today evaluate_given
    evaluate normalize_observation make_observation condition_satisfied value_satisfied
    case_insensitive_lookup folded_lookup matches compare_with conclude_alert from_value
    finite_number observed_values lit get
evaluates_dear = refl

abbrev reading : ℕ → ℕ → SnapshotRow ℤ
reading day n = record { trade_date = day; reading = some (pos n); cutoff = no_cutoff }

-- Two days were missed; the price was high on the first of them.
abbrev missed : Store ℤ
missed = record after_five { snapshots = reading 8 9 ∷ reading 6 12 ∷ reading 7 8 ∷ [] }

abbrev day_eight : Resolved ℤ
day_eight = record { day = 8; given = value (real (pos 9)) }

abbrev after_eight : Store ℤ
after_eight = record missed {
  rule = record cheap { trigger_sequence = 2 };
  instance_row = some (record first_row { trigger_sequence = 2; last_evaluated = some 8 });
  outbox =
      first_note
      ∷ record {
        trigger_sequence = 2;
        rule_version = 1;
        observation_date = 7;
        source_event_id = none;
      }
      ∷ [];
}

catches_up : evaluate_rule integers (some 8) (some day_eight) missed ≡ ok after_eight
unfolding evaluate_rule evaluate_observed evaluate_resolved renewed catch_up catch_up_values
    due_snapshots insert_snapshot replay_snapshots evaluate_snapshot after_snapshot restated
    evaluate_given enqueue_trigger evaluate normalize_observation observation_from_mapping
    mapped_arguments flattened_values is_reserved make_observation condition_satisfied
    value_satisfied case_insensitive_lookup folded_lookup matches compare_with conclude_alert
    from_value finite_number observed_values lit get
catches_up = refl

evaluate_rule-Ascends_example :
    Ascends 0 after_eight.outbox after_eight.rule.trigger_sequence
    × Extends missed.outbox after_eight.outbox
evaluate_rule-Ascends_example =
    evaluate_rule-Ascends integers (some 8) (some day_eight) missed (omega arith, omega arith)
      catches_up

evaluate_rule-repeats_example : after_dear.outbox ≡ after_five.outbox
evaluate_rule-repeats_example =
    evaluate_rule-repeats integers day_five 5 (some dear_five) empty_store after_five after_five
      after_dear refl evaluates_five refl refl (omega arith) evaluates_dear

abbrev enters : ℕ → ℕ → StateEvent
enters n day = record {
  id = n;
  trade_date = day;
  stream_seq = n;
  status = event_active;
  kind = enter;
  valid = true;
  is_restatement = false;
}

abbrev exits : ℕ → ℕ → StateEvent
exits n day = record (enters n day) { status = event_inactive; kind = exit }

abbrev restates : ℕ → ℕ → StateEvent
restates n day = record (enters n day) { is_restatement = true }

abbrev history : List StateEvent
history = enters 11 3 ∷ exits 12 4 ∷ restates 13 5 ∷ enters 14 6 ∷ []

abbrev crossing : Desk ℤ
crossing = record {
  rule = record cheap {
    domain = record {
      condition = on_state (record { state_id = text "MACD_GOLDEN_CROSS" });
      security_id = null;
      enabled = true;
      rule_id = null;
    };
    edge_mode = true;
  };
  row = record first_row { status = reset };
  outbox = first_note ∷ [];
}

two_enters : entered history ≡ some 11 ∷ some 14 ∷ []
two_enters = refl

replay_events-entered_example :
    (d : Desk ℤ) × (replay_events integers history crossing ≡ ok d)
    × (sources d.outbox ≡ sources crossing.outbox ++ entered history)
replay_events-entered_example = replay_events-entered integers history crossing
