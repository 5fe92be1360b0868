-- ===== src/Alerts/Rules.antt =====
-- `ValueCondition`, `StateCondition` and `AlertRule` of backend/app/alerts/models.py.
use apanel.Base.{
  nat_equality, bool_equality, pair_equality, option_equality, ◌=?◌, Text, text_equality, Bool,
  true, false, not, ◌||◌, Option, none, some, [], ◌∷◌, ◌++◌, if◌then◌else◌, get_or_else, ◌>>=◌,
  ◌>>◌, raise_if, Result, ok, err,
}
use apanel.Base.Texts.{text, strip, upper, is_blank}
use apanel.Base.Dict.{Dict, get}
use apanel.Base.Number.{Number}
use apanel.States.Values.{Scalar, null, not_finite, bool, real, decimal, str}

-- `InvalidAlertRuleError`, `InvalidAlertObservationError`, and the `AttributeError` of a method
-- that a value lacks.
pub data AlertError : Type 0 where
  invalid_rule invalid_observation : Text → AlertError
  attribute_error : AlertError

pub data AlertOperator : Type 0 where
  greater_than_or_equal greater_than less_than_or_equal less_than equal : AlertOperator

pub record ValueCondition (F : Type 0) : Type 0 where
  pub indicator : Text
  pub operator : AlertOperator
  pub threshold : F

pub record StateCondition : Type 0 where
  pub state_id : Text

pub data AlertCondition (F : Type 0) : Type 0 where
  on_value : ValueCondition F → AlertCondition F
  on_state : StateCondition → AlertCondition F

-- An identifier is an int, a str or `None`, and is passed on as it is.
pub record AlertRule (F : Type 0) : Type 0 where
  pub condition : AlertCondition F
  pub security_id : Scalar F
  pub enabled : Bool
  pub rule_id : Scalar F

-- The arguments of `AlertRule(...)`; one that is left out is `None`.
pub record RuleArguments (F : Type 0) : Type 0 where
  pub condition : Option (AlertCondition F)
  pub security_id : Scalar F
  pub enabled : Scalar F
  pub rule_id : Scalar F
  pub condition_type : Scalar F
  pub indicator : Scalar F
  pub operator : Scalar F
  pub threshold : Scalar F
  pub state_id : Scalar F
  pub state_code : Scalar F

unfoldable pub operator_text : AlertOperator → Text
operator_text greater_than_or_equal = text ">="
operator_text greater_than = text ">"
operator_text less_than_or_equal = text "<="
operator_text less_than = text "<"
operator_text equal = text "=="

unfoldable pub parse_operator : Text → Option AlertOperator
parse_operator t =
    if t =? text ">="
    then some greater_than_or_equal
    else if t =? text ">"
    then some greater_than
    else if t =? text "<="
    then some less_than_or_equal
    else if t =? text "<"
    then some less_than
    else if t =? text "=="
    then some equal
    else none

abbrev operator_error : AlertError
operator_error = invalid_rule (text "operator must be one of: >=, >, <=, <, ==")

abbrev kind_error : AlertError
kind_error = invalid_rule (text "condition_type must be VALUE or STATE")

module _ {F : Type 0} where
  abbrev pub null_scalar : Scalar F → Bool
  null_scalar null = true
  null_scalar _ = false

  unfoldable pub finite_number : Scalar F → Text → Result AlertError F
  finite_number (real x) name = ok x
  finite_number (decimal x) name = ok x
  finite_number not_finite name = err (invalid_rule (name ++ text " must be finite"))
  finite_number _ name = err (invalid_rule (name ++ text " must be a real number"))

  unfoldable pub non_empty_text : Scalar F → Text → Result AlertError Text
  non_empty_text (str t) name =
      if is_blank t
      then err (invalid_rule (name ++ text " must be a non-empty string"))
      else ok (strip t)
  non_empty_text _ name = err (invalid_rule (name ++ text " must be a non-empty string"))

  -- `_normalize_operator`
  unfoldable pub normalize_operator : Scalar F → Result AlertError AlertOperator
  unfolding parse_operator strip
  normalize_operator (str t) = elim (parse_operator (strip t)) [
    | some o ↦ ok o
    | none ↦ err operator_error
  ]
  normalize_operator _ = err operator_error

  -- `ValueCondition.__init__`
  unfoldable pub make_value_condition :
      Scalar F → Scalar F → Scalar F → Result AlertError (ValueCondition F)
  make_value_condition indicator operator threshold = do
    i ← non_empty_text indicator (text "indicator")
    o ← normalize_operator operator
    t ← finite_number threshold (text "threshold")
    ok (record { indicator = i; operator = o; threshold = t })

  unfoldable pub check_codes : Scalar F → Scalar F → Result AlertError (Unit {0})
  unfolding upper strip
  check_codes null code = ok tt
  check_codes state_id null = ok tt
  check_codes (str a) (str b) =
      raise_if (not (upper (strip a) =? upper (strip b)))
        (invalid_rule (text "state_id and state_code do not match"))
  check_codes _ _ = err attribute_error

  -- `StateCondition.__init__`
  unfoldable pub make_state_condition : Scalar F → Scalar F → Result AlertError StateCondition
  unfolding check_codes
  make_state_condition state_id state_code = do
    check_codes state_id state_code
    t ← non_empty_text (if null_scalar state_id then state_code else state_id) (text "state_id")
    ok (record { state_id = t })

  -- A VALUE condition from the flat arguments.
  unfoldable pub flat_value : RuleArguments F → Result AlertError (AlertCondition F)
  flat_value a = do
    raise_if (null_scalar a.indicator || null_scalar a.operator || null_scalar a.threshold)
        (invalid_rule (text "VALUE rules require indicator, operator, and threshold"))
    c ← make_value_condition a.indicator a.operator a.threshold
    ok (on_value c)

  -- A STATE condition from the flat arguments.
  unfoldable pub flat_state : RuleArguments F → Result AlertError (AlertCondition F)
  flat_state a = make_state_condition a.state_id a.state_code >>= λ c. ok (on_state c)

  -- The condition that the flat arguments describe, by their condition type.
  unfoldable pub flat_condition : RuleArguments F → Scalar F → Result AlertError (AlertCondition F)
  unfolding upper strip
  flat_condition a null = err (invalid_rule (text "condition is required"))
  flat_condition a (str t) =
      if upper (strip t) =? text "VALUE"
      then flat_value a
      else if upper (strip t) =? text "STATE"
      then flat_state a
      else err kind_error
  flat_condition a _ = err kind_error

  abbrev pub resolve_condition :
      RuleArguments F → Option (AlertCondition F) → Result AlertError (AlertCondition F)
  resolve_condition a none = flat_condition a a.condition_type
  resolve_condition a (some c) =
      if null_scalar a.condition_type
      then ok c
      else err (invalid_rule (text "condition and condition_type cannot both be provided"))

  abbrev pub as_bool : Scalar F → Result AlertError Bool
  as_bool (bool b) = ok b
  as_bool _ = err (invalid_rule (text "enabled must be a boolean"))

  -- `AlertRule.__init__`
  unfoldable pub make_rule : RuleArguments F → Result AlertError (AlertRule F)
  make_rule a = do
    c ← resolve_condition a a.condition
    b ← as_bool a.enabled
    ok (record { condition = c; security_id = a.security_id; enabled = b; rule_id = a.rule_id })

  abbrev field : Dict Text (Scalar F) → Text → Scalar F
  field d name = get_or_else (get d name) null

  -- `AlertRule.from_mapping`
  unfoldable pub rule_from_mapping : Dict Text (Scalar F) → Result AlertError (AlertRule F)
  unfolding make_rule
  rule_from_mapping d = make_rule (record {
    condition = none;
    security_id = field d (text "security_id");
    enabled = get_or_else (get d (text "enabled")) (bool true);
    rule_id = get_or_else (get d (text "id")) (field d (text "rule_id"));
    condition_type = get_or_else (get d (text "condition_type")) (field d (text "type"));
    indicator = field d (text "indicator");
    operator = field d (text "operator");
    threshold = field d (text "threshold");
    state_id = field d (text "state_id");
    state_code = field d (text "state_code");
  })

  abbrev condition_entries : AlertCondition F → Dict Text (Scalar F)
  condition_entries (on_value c) =
      (text "indicator", str c.indicator)
      ∷ (text "operator", str (operator_text c.operator))
      ∷ (text "threshold", real c.threshold)
      ∷ []
  condition_entries (on_state c) = (text "state_id", str c.state_id) ∷ []

  abbrev type_text : AlertCondition F → Text
  type_text (on_value _) = text "VALUE"
  type_text (on_state _) = text "STATE"

  abbrev id_entry : Scalar F → Dict Text (Scalar F)
  id_entry null = []
  id_entry i = (text "id", i) ∷ []

  -- `AlertRule.to_dict`
  unfoldable pub rule_to_dict : AlertRule F → Dict Text (Scalar F)
  unfolding operator_text
  rule_to_dict r =
      (text "security_id", r.security_id)
        ∷ (text "condition_type", str (type_text r.condition))
        ∷ (text "enabled", bool r.enabled)
        ∷ id_entry r.rule_id
      ++ condition_entries r.condition

module _ (number : Number) where
  open number use {Real, ltb as lt_real, leb as le_real, eqb as eq_real}

  -- The comparison of `ValueCondition.matches`, on a value that is finite already.
  unfoldable pub compare_with : AlertOperator → Real → Real → Bool
  compare_with greater_than_or_equal current threshold = le_real threshold current
  compare_with greater_than current threshold = lt_real threshold current
  compare_with less_than_or_equal current threshold = le_real current threshold
  compare_with less_than current threshold = lt_real current threshold
  compare_with equal current threshold = eq_real current threshold

  unfoldable pub matches : ValueCondition Real → Scalar Real → Result AlertError Bool
  unfolding compare_with finite_number
  matches c value = do
    current ← finite_number value (text "value")
    ok (compare_with c.operator current c.threshold)
