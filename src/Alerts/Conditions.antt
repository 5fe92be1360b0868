-- ===== src/Alerts/Conditions.antt =====
-- What conditions and rules mean: the operators, and the dictionary form of a rule.
use mathlib.Core.Path.{subst}
use apanel.Base.{
  nat_equality, bool_equality, pair_equality, option_equality, ◌=?◌, Text, text_equality, ◌≡◌, refl,
  sym, ◌∙◌, inl, inr, Bool, true, false, ◌&&◌, ◌||◌, none, arith, if◌then◌else◌, Bool-cases, ◌>>=◌,
  raise_if, Ensures, Ensures-bind, Ensures-ok, ok,
}
use apanel.Base.Texts.{text, strip, strip_idem, upper, is_blank, is_blank-strip}
use apanel.Base.Dict.{get}
use apanel.Base.Number.{Number}
use apanel.States.Values.{Scalar, null, real, str}
use apanel.Alerts.Rules.{
  operator_text, null_scalar, finite_number, non_empty_text, normalize_operator,
  make_value_condition, check_codes, make_state_condition, flat_value, flat_state, flat_condition,
  resolve_condition, as_bool, make_rule, rule_from_mapping, rule_to_dict, compare_with,
  invalid_rule, AlertOperator, greater_than_or_equal, greater_than, less_than_or_equal, less_than,
  equal, ValueCondition, StateCondition, AlertCondition, on_value, on_state, AlertRule,
  RuleArguments,
}

module _ (number : Number) where
  open number use {Real}

  -- Of a finite value and a threshold exactly one of `<`, `==` and `>` holds, and `>=` and `<=` are
  -- `>` or `==` and `<` or `==`.
  pub compare_with_partition :
      (current threshold : Real)
      → let less = compare_with number less_than current threshold in
        let same = compare_with number equal current threshold in
        let more = compare_with number greater_than current threshold in
        (less || same || more ≡ true)
        × (less && same ≡ false)
        × (less && more ≡ false)
        × (same && more ≡ false)
        × (compare_with number less_than_or_equal current threshold ≡ less || same)
        × (compare_with number greater_than_or_equal current threshold ≡ more || same)
  unfolding compare_with
  compare_with_partition c t = ground (
    arith,
    number.ltb_asym c t,
    number.leb-not_ltb c t,
    number.leb-not_ltb t c,
    number.eqb-not_ltb c t,
  )

-- A text that a constructor keeps as it is.
abbrev pub IsTrimmed : Text → Type 0
IsTrimmed t = (strip t ≡ t) × (is_blank t ≡ false)

module _ (F : Type 0) where
  non_empty_text-trimmed :
      (t name : Text) → IsTrimmed t → non_empty_text {F = F} (str t) name ≡ ok t
  unfolding non_empty_text
  non_empty_text-trimmed t name h = rw (h.1, h.0) refl

  normalize-operator_text :
      (o : AlertOperator) → normalize_operator {F = F} (str (operator_text o)) ≡ ok o
  unfolding normalize_operator operator_text
  normalize-operator_text equal = refl
  normalize-operator_text _ = refl

  make_state_condition-normal :
      (c : StateCondition)
      → IsTrimmed c.state_id
      → make_state_condition {F = F} (str c.state_id) null ≡ ok c
  unfolding make_state_condition
  make_state_condition-normal c h = rw (non_empty_text-trimmed c.state_id (text "state_id") h) refl

module _ {F : Type 0} where
  abbrev pub IsNormal : AlertCondition F → Type 0
  IsNormal (on_value c) = IsTrimmed c.indicator
  IsNormal (on_state c) = IsTrimmed c.state_id

  make_value_condition-normal :
      (c : ValueCondition F)
      → IsTrimmed c.indicator
      → make_value_condition (str c.indicator) (str (operator_text c.operator)) (real c.threshold)
        ≡ ok c
  unfolding make_value_condition finite_number
  make_value_condition-normal c h =
      rw
        (
          non_empty_text-trimmed F c.indicator (text "indicator") h,
          normalize-operator_text F c.operator,
        )
        refl

  read_back :
      (c : AlertCondition F) (security_id : Scalar F) (enabled : Bool) (rule_id : Scalar F)
      → IsNormal c
      → let r : AlertRule F = record {
        condition = c;
        security_id = security_id;
        enabled = enabled;
        rule_id = rule_id;
      } in
        rule_from_mapping (rule_to_dict r) ≡ ok r
  unfolding rule_from_mapping rule_to_dict get flat_condition flat_value flat_state
  read_back (on_value c) s e null h = rw (make_value_condition-normal c h) refl
  read_back (on_value c) s e i h = rw (make_value_condition-normal c h) refl
  read_back (on_state c) s e null h = rw (make_state_condition-normal F c h) refl
  read_back (on_state c) s e i h = rw (make_state_condition-normal F c h) refl

  -- A rule that is written to a dictionary is read back as the same rule, given that its indicator
  -- or state has no blanks at its ends and is not empty.
  pub from_mapping-to_dict :
      (r : AlertRule F) → IsNormal r.condition → rule_from_mapping (rule_to_dict r) ≡ ok r
  from_mapping-to_dict r h = read_back r.condition r.security_id r.enabled r.rule_id h

  IsTrimmed-non_empty_text :
      (x : Scalar F) (name t : Text) → non_empty_text x name ≡ ok t → IsTrimmed t
  unfolding non_empty_text
  IsTrimmed-non_empty_text (str u) name t p = elim (Bool-cases (is_blank u)) [
    | inl blank ↦ absurd (ground (arith, blank))
    | inr ink ↦
        let same : strip u ≡ t = ground (arith, ink) in
        subst IsTrimmed same (strip_idem u, is_blank-strip u ∙ ink)
  ]
  IsTrimmed-non_empty_text null name t p = cc
  IsTrimmed-non_empty_text _ name t p = cc

  value_condition-IsTrimmed :
      (a b c : Scalar F) → Ensures (λ x. IsTrimmed x.indicator) (make_value_condition a b c)
  unfolding make_value_condition
  value_condition-IsTrimmed a b c =
      Ensures-bind (λ x. IsTrimmed x.indicator) (non_empty_text a (text "indicator"))
        (λ i. normalize_operator b >>= λ o. finite_number c (text "threshold") >>= λ t.
          ok (record { indicator = i; operator = o; threshold = t }))
        λ i p.
          Ensures-bind (λ x. IsTrimmed x.indicator) (normalize_operator b)
            (λ o. finite_number c (text "threshold") >>= λ t.
              ok (record { indicator = i; operator = o; threshold = t }))
            λ o _.
              Ensures-bind (λ x. IsTrimmed x.indicator) (finite_number c (text "threshold"))
                (λ t. ok (record { indicator = i; operator = o; threshold = t }))
                λ t _. IsTrimmed-non_empty_text a (text "indicator") i p

  state_condition-IsTrimmed :
      (a b : Scalar F) → Ensures (λ x. IsTrimmed x.state_id) (make_state_condition a b)
  unfolding make_state_condition
  state_condition-IsTrimmed a b =
      let resolved = if null_scalar a then b else a in
      Ensures-bind (λ x. IsTrimmed x.state_id) (check_codes a b)
        (λ _. non_empty_text resolved (text "state_id") >>= λ t. ok (record { state_id = t }))
        λ _ _.
          Ensures-bind (λ x. IsTrimmed x.state_id) (non_empty_text resolved (text "state_id"))
            (λ t. ok (record { state_id = t }))
            λ t p. IsTrimmed-non_empty_text resolved (text "state_id") t p

  flat_value-IsNormal : (a : RuleArguments F) → Ensures IsNormal (flat_value a)
  unfolding flat_value
  flat_value-IsNormal a =
      let made = make_value_condition a.indicator a.operator a.threshold in
      Ensures-bind IsNormal
        (raise_if (null_scalar a.indicator || null_scalar a.operator || null_scalar a.threshold)
          (invalid_rule (text "VALUE rules require indicator, operator, and threshold")))
        (λ _. made >>= λ c. ok (on_value c))
        λ _ _.
          Ensures-bind IsNormal made (λ c. ok (on_value c))
            λ c p.
              Ensures-ok (λ x. IsTrimmed x.indicator) made
                (value_condition-IsTrimmed a.indicator a.operator a.threshold) p

  flat_state-IsNormal : (a : RuleArguments F) → Ensures IsNormal (flat_state a)
  unfolding flat_state
  flat_state-IsNormal a =
      let made = make_state_condition a.state_id a.state_code in
      Ensures-bind IsNormal made (λ c. ok (on_state c))
        λ c p.
          Ensures-ok (λ x. IsTrimmed x.state_id) made
            (state_condition-IsTrimmed a.state_id a.state_code) p

  flat_condition-IsNormal :
      (a : RuleArguments F) (kind : Scalar F) → Ensures IsNormal (flat_condition a kind)
  unfolding flat_condition
  flat_condition-IsNormal a (str t) = elim (Bool-cases (upper (strip t) =? text "VALUE")) [
    | inl value ↦ rw value (flat_value-IsNormal a)
    | inr other ↦ rw other (elim (Bool-cases (upper (strip t) =? text "STATE")) [
      | inl state ↦ rw state (flat_state-IsNormal a)
      | inr neither ↦ rw neither tt
    ])
  ]
  flat_condition-IsNormal a null = tt
  flat_condition-IsNormal a _ = tt

  -- Every rule that `AlertRule(...)` builds from flat arguments meets that condition.
  pub make_rule-IsNormal :
      (a : RuleArguments F) (r : AlertRule F)
      → a.condition ≡ none
      → make_rule a ≡ ok r
      → IsNormal r.condition
  unfolding make_rule
  make_rule-IsNormal a r given p =
      let kind = flat_condition a a.condition_type in
      let rule = λ (c : AlertCondition F) (b : Bool).
        let r : AlertRule F = record {
          condition = c;
          security_id = a.security_id;
          enabled = b;
          rule_id = a.rule_id;
        } in
        r in
      let normal : Ensures (λ x. IsNormal x.condition)
          (resolve_condition a none >>= λ c. as_bool a.enabled >>= λ b. ok (rule c b)) =
        Ensures-bind (λ x. IsNormal x.condition) kind
          (λ c. as_bool a.enabled >>= λ b. ok (rule c b))
          λ c made.
            Ensures-bind (λ x. IsNormal x.condition) (as_bool a.enabled) (λ b. ok (rule c b))
              λ b _. Ensures-ok IsNormal kind (flat_condition-IsNormal a a.condition_type) made in
      Ensures-ok (λ x. IsNormal x.condition) (make_rule a)
        (subst
          (λ o.
            Ensures (λ x. IsNormal x.condition)
              (resolve_condition a o >>= λ c. as_bool a.enabled >>= λ b. ok (rule c b)))
          (sym given) normal)
        p
