-- ===== src/Alerts/Observations.antt =====
-- `AlertTriggerState` and `AlertObservation` of backend/app/alerts/models.py.
use apanel.Base.{
  nat_equality, bool_equality, pair_equality, option_equality, ◌=?◌, Text, text_equality, Bool,
  true, false, not, ◌&&◌, Option, none, some, List, [], ◌∷◌, ◌++◌, map, if◌then◌else◌, get_or_else,
  any, raise_if, ◌>>=◌, ◌>>◌, Result, err, ok,
}
use apanel.Base.Texts.{text, strip, upper, is_blank}
use apanel.Base.Dict.{Dict, get, put}
use apanel.States.Values.{
  is_null, Scalar, null, opaque, bool, str, Field, scalar, mapping, sequence,
}
use apanel.Alerts.Rules.{null_scalar, finite_number, AlertError, invalid_rule, invalid_observation}

pub data AlertStatus : Type 0 where
  active reset : AlertStatus

abbrev pub is_active : AlertStatus → Bool
is_active active = true
is_active reset = false

-- What `AlertTriggerState.from_value` accepts.
pub data PreviousState : Type 0 where
  no_state : PreviousState
  status : AlertStatus → PreviousState
  flag : Bool → PreviousState
  named : Text → PreviousState

unfoldable pub from_value : PreviousState → Result AlertError AlertStatus
unfolding upper
from_value no_state = ok reset
from_value (status s) = ok s
from_value (flag b) = ok (if b then active else reset)
from_value (named t) =
    if upper t =? text "ACTIVE"
    then ok active
    else if upper t =? text "RESET"
    then ok reset
    else err (invalid_rule (text "previous state must be ACTIVE or RESET"))

-- `states` is the set of the keys of `state_values` whose bit is on.
pub record AlertObservation (F : Type 0) : Type 0 where
  pub values : Dict Text F
  pub states : List Text
  pub state_values : Dict Text Bool
  pub value : Option F
  pub state_value : Option Bool

-- The arguments of `AlertObservation(...)`.
pub record ObservationArguments (F : Type 0) : Type 0 where
  pub values : Field F
  pub states : Field F
  pub value : Scalar F
  pub current_value : Scalar F
  pub state_value : Scalar F

-- The keys whose bit is on.
unfoldable pub lit : Dict Text Bool → List Text
lit [] = []
lit ((key, on) ∷ d) = let others = lit d in if on then key ∷ others else others

-- `raise InvalidAlertObservationError(str(exc)) from exc`
abbrev pub as_observation_error : {A : Type 0} → Result AlertError A → Result AlertError A
as_observation_error (err (invalid_rule t)) = err (invalid_observation t)
as_observation_error r = r

-- The names that a flattened payload does not pass on as indicators.
unfoldable pub is_reserved : Text → Bool
is_reserved key =
    any (λ r. r =? key)
      (text "states"
        ∷ text "active_states"
        ∷ text "value"
        ∷ text "current_value"
        ∷ text "previous_value"
        ∷ text "state"
        ∷ text "state_id"
        ∷ text "state_code"
        ∷ text "active"
        ∷ [])

module _ {F : Type 0} where
  abbrev absent : Field F
  absent = scalar null

  -- the loop over `values.items()`
  unfoldable pub observed_values :
      List (Scalar F × Scalar F) → Dict Text F → Result AlertError (Dict Text F)
  unfolding finite_number
  observed_values [] normalized = ok normalized
  observed_values ((str key, raw) ∷ items) normalized =
      if is_blank key
      then err (invalid_observation (text "value indicator keys must be non-empty strings"))
      else do
        x ← as_observation_error (finite_number raw (text "values." ++ key))
        observed_values items (put normalized (strip key) x)
  observed_values (_ ∷ items) normalized =
      err (invalid_observation (text "value indicator keys must be non-empty strings"))

  -- the loop over `states.items()`
  unfoldable pub observed_bits :
      List (Scalar F × Scalar F) → Dict Text Bool → Result AlertError (Dict Text Bool)
  observed_bits [] normalized = ok normalized
  observed_bits ((str key, bit) ∷ items) normalized =
      if is_blank key
      then err (invalid_observation (text "state keys must be non-empty strings"))
      else elim bit [
        | bool b ↦ observed_bits items (put normalized (strip key) b)
        | _ ↦ err (invalid_observation (text "state values must be booleans"))
      ]
  observed_bits (_ ∷ items) normalized =
      err (invalid_observation (text "state keys must be non-empty strings"))

  -- the loop over `state_codes`
  unfoldable pub observed_codes :
      List (Scalar F) → Dict Text Bool → Result AlertError (Dict Text Bool)
  observed_codes [] normalized = ok normalized
  observed_codes (str code ∷ codes) normalized =
      if is_blank code
      then err (invalid_observation (text "state IDs must be non-empty strings"))
      else observed_codes codes (put normalized (strip code) true)
  observed_codes (_ ∷ codes) normalized =
      err (invalid_observation (text "state IDs must be non-empty strings"))

  abbrev pub values_of : Field F → Result AlertError (Dict Text F)
  values_of (scalar null) = ok []
  values_of (mapping items) = observed_values items []
  values_of _ = err (invalid_observation (text "values must be a mapping"))

  abbrev pub states_of : Field F → Result AlertError (Dict Text Bool)
  states_of (scalar null) = ok []
  states_of (mapping items) = observed_bits items []
  states_of (sequence codes) = observed_codes codes []
  -- a string is the collection of its characters
  states_of (scalar (str t)) = observed_codes (map (λ c. str (c ∷ [])) t) []
  states_of (scalar _) = err (invalid_observation (text "states must be a collection"))

  abbrev pub scalar_value : Scalar F → Result AlertError (Option F)
  scalar_value null = ok none
  scalar_value s = as_observation_error (finite_number s (text "value")) >>= λ x. ok (some x)

  abbrev pub bit_of : Scalar F → Result AlertError (Option Bool)
  bit_of null = ok none
  bit_of (bool b) = ok (some b)
  bit_of _ = err (invalid_observation (text "state_value must be a boolean"))

  -- `AlertObservation.__init__`
  unfoldable pub make_observation : ObservationArguments F → Result AlertError (AlertObservation F)
  unfolding observed_values observed_bits observed_codes lit finite_number
  make_observation a = do
    raise_if (not (null_scalar a.value) && not (null_scalar a.current_value))
        (invalid_observation (text "value and current_value cannot both be provided"))
    bit ← bit_of a.state_value
    values ← values_of a.values
    state_values ← states_of a.states
    value ← scalar_value (if null_scalar a.value then a.current_value else a.value)
    ok (record {
      values = values;
      states = lit state_values;
      state_values = state_values;
      value = value;
      state_value = bit;
    })

  abbrev entry : Dict Text (Field F) → Text → Field F
  entry d name = get_or_else (get d name) absent

  abbrev pub flat : Field F → Scalar F
  flat (scalar s) = s
  flat _ = opaque

  unfoldable pub flattened_values : Dict Text (Field F) → List (Scalar F × Scalar F)
  flattened_values [] = []
  flattened_values ((key, raw) ∷ d) =
      let others = flattened_values d in
      if is_reserved key then others else (str key, flat raw) ∷ others

  abbrev pub or_absent : List (Scalar F × Scalar F) → Field F
  or_absent [] = absent
  or_absent items = mapping items

  abbrev or_bit : Scalar F → Scalar F → Scalar F
  or_bit null (bool b) = bool b
  or_bit s _ = s

  abbrev one_state : Field F → Field F → Field F
  one_state (scalar (str code)) (scalar (bool on)) = mapping ((str code, bool on) ∷ [])
  one_state _ _ = absent

  -- The states of a mapping that names no collection of them.
  abbrev single_state : Dict Text (Field F) → Field F → Field F
  single_state d (scalar null) = elim (flat (entry d (text "state"))) [
    | str t ↦ sequence (str t ∷ [])
    | _ ↦ absent
  ]
  single_state d given = given

  -- The arguments that `AlertObservation.from_mapping` passes on.
  unfoldable pub mapped_arguments : Dict Text (Field F) → ObservationArguments F
  unfolding flattened_values
  mapped_arguments d =
      let given =
        if is_null (entry d (text "values"))
        then entry d (text "indicator_values")
        else entry d (text "values") in
      let states = get_or_else (get d (text "states")) (entry d (text "active_states")) in
      let value = flat (get_or_else (get d (text "value")) (entry d (text "current_value"))) in
      record {
        values =
            if is_null given && null_scalar value then or_absent (flattened_values d) else given;
        states =
            if is_null states
            then single_state d (
                one_state (get_or_else (get d (text "state_id")) (entry d (text "state_code")))
                  (entry d (text "active")))
            else states;
        value = value;
        current_value = null;
        state_value = or_bit (flat (entry d (text "state_value"))) (flat (entry d (text "state")));
      }

  -- `AlertObservation.from_mapping`
  unfoldable pub observation_from_mapping :
      Dict Text (Field F) → Result AlertError (AlertObservation F)
  observation_from_mapping d = make_observation (mapped_arguments d)
