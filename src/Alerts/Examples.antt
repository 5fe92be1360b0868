-- ===== src/Alerts/Examples.antt =====
-- Tests of alert rules, and their theorems at concrete inputs.
use apanel.Base.{
  nat_equality, bool_equality, pair_equality, option_equality, Text, text_equality, ◌≡◌, refl, ◌≢◌,
  true, false, none, List, [], ◌∷◌, map, length, ok,
}
use apanel.Base.Texts.{text, strip, upper, is_blank}
use apanel.Base.Dict.{Dict, get}
use apanel.Base.Integers.{integers, ℤ, pos}
use apanel.States.Values.{null, bool, real, str, Field, scalar}
use apanel.Alerts.Rules.{
  parse_operator, finite_number, non_empty_text, normalize_operator, make_value_condition,
  flat_value, flat_condition, make_rule, rule_from_mapping, rule_to_dict, compare_with, matches,
  less_than, on_value, AlertRule, RuleArguments,
}
use apanel.Alerts.Observations.{
  is_active, from_value, lit, observed_values, make_observation, observation_from_mapping, reset,
  AlertObservation,
}
use apanel.Alerts.Evaluator.{
  folded_lookup, case_insensitive_lookup, conclude_alert, normalize_observation, value_satisfied,
  condition_satisfied, evaluate, evaluate_all, Given, value,
}
use apanel.Alerts.Trigger.{rising, evaluate_all-rising}
use apanel.Alerts.Payloads.{from_mapping-state_value}
use apanel.Alerts.Conditions.{IsNormal, from_mapping-to_dict}

abbrev low_pe : AlertRule ℤ
low_pe = record {
  condition = on_value (record { indicator = text "PE"; operator = less_than; threshold = pos 10 });
  security_id = null;
  enabled = true;
  rule_id = null;
}

-- A cheap day, a cheap day, an unreadable day, a dear day and a cheap day.
abbrev week : List (Given ℤ)
week =
    value (real (pos 8))
    ∷ value (real (pos 7))
    ∷ value (str (text "n/a"))
    ∷ value (real (pos 12))
    ∷ value (real (pos 9))
    ∷ []

fires_on :
    map (λ e. e.triggered) (evaluate_all integers low_pe reset week)
    ≡ true ∷ false ∷ false ∷ false ∷ true ∷ []
unfolding evaluate_all evaluate normalize_observation make_observation condition_satisfied
    value_satisfied case_insensitive_lookup folded_lookup matches compare_with conclude_alert
    from_value finite_number observed_values lit get
fires_on = refl

evaluate_all-rising_example :
    (length (evaluate_all integers low_pe reset week) ≡ length week)
    × (map (λ e. e.triggered) (evaluate_all integers low_pe reset week)
        ≡ rising
            (is_active reset)
            (map (λ e. e.satisfied) (evaluate_all integers low_pe reset week)))
evaluate_all-rising_example = evaluate_all-rising integers low_pe reset week

low_pe-IsNormal : IsNormal low_pe.condition
unfolding strip is_blank
low_pe-IsNormal = (refl, refl)

from_mapping-to_dict_example : rule_from_mapping (rule_to_dict low_pe) ≡ ok low_pe
from_mapping-to_dict_example = from_mapping-to_dict low_pe low_pe-IsNormal

abbrev flat_arguments : RuleArguments ℤ
flat_arguments = record {
  condition = none;
  security_id = null;
  enabled = bool true;
  rule_id = null;
  condition_type = str (text " value ");
  indicator = str (text " PE ");
  operator = str (text "<");
  threshold = real (pos 10);
  state_id = null;
  state_code = null;
}

builds_low_pe : make_rule flat_arguments ≡ ok low_pe
unfolding make_rule flat_condition flat_value make_value_condition non_empty_text normalize_operator
    parse_operator finite_number strip upper is_blank
builds_low_pe = refl

abbrev bit_payload : Dict Text (Field ℤ)
bit_payload =
    (text "state_value", scalar (bool true)) ∷ (text "source", scalar (str (text "scan"))) ∷ []

abbrev no_observation : AlertObservation ℤ
no_observation = record {
  values = [];
  states = [];
  state_values = [];
  value = none;
  state_value = none;
}

from_mapping-state_value_example : observation_from_mapping bit_payload ≢ ok no_observation
unfolding get
from_mapping-state_value_example =
    from_mapping-state_value bit_payload true no_observation refl refl refl refl refl
