-- ===== src/Alerts/Evaluator.antt =====
-- backend/app/alerts/evaluator.py: the stateless edge trigger.
use apanel.Base.{
  nat_equality, bool_equality, pair_equality, option_equality, ◌=?◌, Text, text_equality, Bool,
  false, not, ◌&&◌, ◌||◌, Option, none, some, List, [], ◌∷◌, ◌++◌, map, if◌then◌else◌, or_else,
  get_or_else, any, ◌>>=◌, Result, ok, err,
}
use apanel.Base.Texts.{text, casefold}
use apanel.Base.Dict.{Dict, get}
use apanel.Base.Number.{Number}
use apanel.States.Values.{is_null, Scalar, null, bool, real, str, Field, scalar, mapping}
use apanel.Alerts.Rules.{
  null_scalar, matches, AlertError, invalid_observation, ValueCondition, StateCondition,
  AlertCondition, on_value, on_state, AlertRule,
}
use apanel.Alerts.Observations.{
  is_active, from_value, make_observation, observation_from_mapping, AlertStatus, active, reset,
  PreviousState, status, AlertObservation, ObservationArguments,
}

pub record AlertEvaluation : Type 0 where
  pub satisfied : Bool
  pub triggered : Bool
  pub state : AlertStatus
  pub reason : Option Text

-- What `evaluate` takes for an observation.
pub data Given (F : Type 0) : Type 0 where
  nothing : Given F
  observation : AlertObservation F → Given F
  payload : Dict Text (Field F) → Given F
  value : Scalar F → Given F
  bit : Bool → Given F

module _ {V : Type 0} where
  -- the loop of `_case_insensitive_lookup`
  unfoldable pub folded_lookup : Dict Text V → Text → Option V
  unfolding casefold
  folded_lookup [] key = none
  folded_lookup ((candidate, v) ∷ d) key =
      if casefold candidate =? casefold key then some v else folded_lookup d key

  unfoldable pub case_insensitive_lookup : Dict Text V → Text → Option V
  unfolding folded_lookup
  case_insensitive_lookup d key = or_else (get d key) (folded_lookup d key)

abbrev clash : Text → AlertError
clash what = invalid_observation (text "observation cannot be combined with " ++ what)

-- What `evaluate` makes of the reading. Only `InvalidAlertObservationError` is caught.
unfoldable pub conclude_alert :
    AlertStatus → Result AlertError Bool → Result AlertError AlertEvaluation
conclude_alert prior (ok satisfied) = ok (record {
  satisfied = satisfied;
  triggered = satisfied && not (is_active prior);
  state = if satisfied then active else reset;
  reason = none;
})
conclude_alert prior (err (invalid_observation t)) =
    ok (record { satisfied = false; triggered = false; state = reset; reason = some t })
conclude_alert prior (err e) = err e

module _ {F : Type 0} where
  abbrev plain_arguments : ObservationArguments F
  plain_arguments = record {
    values = scalar null;
    states = scalar null;
    value = null;
    current_value = null;
    state_value = null;
  }

  abbrev known_values : Dict Text F → Field F
  known_values d = mapping (map (λ (k, x). (str k, real x)) d)

  abbrev known_states : Dict Text Bool → Field F
  known_states d = mapping (map (λ (k, b). (str k, bool b)) d)

  abbrev known_value : Option F → Scalar F
  known_value none = null
  known_value (some x) = real x

  -- `_normalize_observation`
  unfoldable pub normalize_observation :
      Given F → Scalar F → Field F → Result AlertError (AlertObservation F)
  normalize_observation (observation o) current_value active_states =
      if not (null_scalar current_value) || not (is_null active_states)
      then err (clash (text "current_value or active_states"))
      else ok o
  normalize_observation nothing current_value active_states =
      make_observation (record plain_arguments { value = current_value; states = active_states })
  normalize_observation (payload d) current_value active_states = do
    o ← observation_from_mapping d
    if null_scalar current_value && is_null active_states
        then ok o
        else make_observation (record {
          values = known_values o.values;
          states = if is_null active_states then known_states o.state_values else active_states;
          value = if null_scalar current_value then known_value o.value else current_value;
          current_value = null;
          state_value = null;
        })
  normalize_observation (bit b) current_value active_states =
      if is_null active_states
      then make_observation (record plain_arguments { value = current_value; state_value = bool b })
      else err (clash (text "active_states"))
  normalize_observation (value x) current_value active_states =
      if null_scalar current_value
      then make_observation (record plain_arguments { value = x; states = active_states })
      else err (clash (text "current_value"))

  -- `_state_satisfied`
  unfoldable pub state_satisfied : StateCondition → AlertObservation F → Bool
  unfolding case_insensitive_lookup
  state_satisfied c o = get_or_else o.state_value (
      get_or_else (case_insensitive_lookup o.state_values c.state_id)
        (any (λ code. casefold code =? casefold c.state_id) o.states))

module _ (number : Number) where
  open number use {Real}

  -- `_value_satisfied`
  unfoldable pub value_satisfied :
      ValueCondition Real → AlertObservation Real → Result AlertError Bool
  unfolding case_insensitive_lookup matches
  value_satisfied c o = elim (or_else o.value (case_insensitive_lookup o.values c.indicator)) [
    | none ↦ ok false
    | some current ↦ matches number c (real current)
  ]

  -- `_condition_satisfied`
  unfoldable pub condition_satisfied :
      AlertCondition Real → AlertObservation Real → Result AlertError Bool
  unfolding value_satisfied state_satisfied
  condition_satisfied (on_value c) o = value_satisfied c o
  condition_satisfied (on_state c) o = ok (state_satisfied c o)

  -- `AlertEvaluator.evaluate`
  unfoldable pub evaluate :
      AlertRule Real
      → Given Real
      → PreviousState
      → Scalar Real
      → Field Real
      → Result AlertError AlertEvaluation
  unfolding from_value normalize_observation condition_satisfied conclude_alert
  evaluate rule given previous_state current_value active_states = do
    prior ← from_value previous_state
    if not rule.enabled
        then ok (record {
          satisfied = false;
          triggered = false;
          state = reset;
          reason = some (text "disabled");
        })
        else conclude_alert prior (
            normalize_observation given current_value active_states >>= λ o.
            condition_satisfied rule.condition o)

  -- A caller that passes each evaluation's state on to the next one; a call that raises is skipped.
  unfoldable pub evaluate_all :
      AlertRule Real → AlertStatus → List (Given Real) → List AlertEvaluation
  evaluate_all rule prior [] = []
  evaluate_all rule prior (given ∷ rest) =
      elim (evaluate rule given (status prior) null (scalar null)) [
        | err _ ↦ evaluate_all rule prior rest
        | ok e ↦ e ∷ evaluate_all rule e.state rest
      ]
