-- ===== src/Alerts/Trigger.antt =====
-- The contract of the edge trigger: what one evaluation reports, and what a run of them reports.
use mathlib.Core.Path.{ap₂}
use apanel.Base.{
  nat_equality, bool_equality, pair_equality, option_equality, Text, text_equality, suc, ◌≡◌, refl,
  ap, ◌∙◌, inl, inr, Bool, true, false, not, ◌&&◌, ◌||◌, some, List, [], ◌∷◌, ◌++◌, map,
  if◌then◌else◌, Bool-cases, Option-cases, or_else, length, raise_if, ◌>>=◌, Result, err, ok,
}
use apanel.Base.Texts.{text, strip, is_blank}
use apanel.Base.Dict.{Dict, put}
use apanel.Base.Number.{Number}
use apanel.States.Values.{is_null, Scalar, null, bool, real, str, Field, scalar, mapping, sequence}
use apanel.Alerts.Rules.{
  null_scalar, finite_number, AlertError, invalid_rule, invalid_observation, attribute_error,
  AlertCondition, on_value, on_state, AlertRule,
}
use apanel.Alerts.Observations.{
  is_active, from_value, as_observation_error, observed_values, observed_bits, observed_codes,
  values_of, states_of, scalar_value, bit_of, make_observation, mapped_arguments,
  observation_from_mapping, AlertStatus, active, reset, PreviousState, status, AlertObservation,
  ObservationArguments,
}
use apanel.Alerts.Evaluator.{
  case_insensitive_lookup, conclude_alert, normalize_observation, value_satisfied,
  condition_satisfied, evaluate, evaluate_all, AlertEvaluation, Given, nothing, observation,
  payload, value, bit,
}

-- The only exception that may come out is `InvalidAlertObservationError`.
abbrev Recoverable {ℓ} : {A : Type ℓ} → Result AlertError A → Type 0
Recoverable (ok _) = Unit
Recoverable (err (invalid_observation _)) = Unit
Recoverable (err _) = ⊥

Recoverable-bind {ℓ κ} :
    {A : Type ℓ} {B : Type κ} (m : Result AlertError A) (f : A → Result AlertError B)
    → Recoverable m
    → ((a : A) → Recoverable (f a))
    → Recoverable (m >>= f)
Recoverable-bind (ok a) f h k = k a
Recoverable-bind (err (invalid_observation t)) f h k = tt
Recoverable-bind (err (invalid_rule t)) f h k = h
Recoverable-bind (err attribute_error) f h k = h

Recoverable-raise_if : (b : Bool) (t : Text) → Recoverable (raise_if b (invalid_observation t))
Recoverable-raise_if true t = tt
Recoverable-raise_if false t = tt

module _ {F : Type 0} where
  Recoverable-number :
      (raw : Scalar F) (name : Text) → Recoverable (as_observation_error (finite_number raw name))
  unfolding finite_number
  Recoverable-number (real x) name = tt
  Recoverable-number _ name = tt

  Recoverable-observed_values :
      (items : List (Scalar F × Scalar F)) (d : Dict Text F) → Recoverable (observed_values items d)
  unfolding observed_values
  Recoverable-observed_values [] d = tt
  Recoverable-observed_values ((str key, raw) ∷ items) d = elim (Bool-cases (is_blank key)) [
    | inl blank ↦ rw blank tt
    | inr ink ↦ rw ink (
        Recoverable-bind (as_observation_error (finite_number raw (text "values." ++ key)))
          (λ x. observed_values items (put d (strip key) x))
          (Recoverable-number raw (text "values." ++ key))
          (λ x. Recoverable-observed_values items (put d (strip key) x)))
  ]
  Recoverable-observed_values _ d = tt

  Recoverable-observed_bits :
      (items : List (Scalar F × Scalar F)) (d : Dict Text Bool)
      → Recoverable (observed_bits items d)
  unfolding observed_bits
  Recoverable-observed_bits [] d = tt
  Recoverable-observed_bits ((str key, bool b) ∷ items) d = elim (Bool-cases (is_blank key)) [
    | inl blank ↦ rw blank tt
    | inr ink ↦ rw ink (Recoverable-observed_bits items (put d (strip key) b))
  ]
  Recoverable-observed_bits ((str key, _) ∷ items) d = elim (Bool-cases (is_blank key)) [
    | inl blank ↦ rw blank tt
    | inr ink ↦ rw ink tt
  ]
  Recoverable-observed_bits (_ ∷ items) d = tt

  Recoverable-observed_codes :
      (codes : List (Scalar F)) (d : Dict Text Bool) → Recoverable (observed_codes codes d)
  unfolding observed_codes
  Recoverable-observed_codes [] d = tt
  Recoverable-observed_codes (str code ∷ codes) d = elim (Bool-cases (is_blank code)) [
    | inl blank ↦ rw blank tt
    | inr ink ↦ rw ink (Recoverable-observed_codes codes (put d (strip code) true))
  ]
  Recoverable-observed_codes (_ ∷ codes) d = tt

  Recoverable-values : (f : Field F) → Recoverable (values_of f)
  Recoverable-values (mapping items) = Recoverable-observed_values items []
  Recoverable-values (scalar null) = tt
  Recoverable-values (scalar _) = tt
  Recoverable-values (sequence _) = tt

  Recoverable-states : (f : Field F) → Recoverable (states_of f)
  Recoverable-states (mapping items) = Recoverable-observed_bits items []
  Recoverable-states (sequence codes) = Recoverable-observed_codes codes []
  Recoverable-states (scalar null) = tt
  Recoverable-states (scalar (str t)) = Recoverable-observed_codes (map (λ c. str (c ∷ [])) t) []
  Recoverable-states (scalar _) = tt

  Recoverable-scalar : (s : Scalar F) → Recoverable (scalar_value s)
  Recoverable-scalar null = tt
  Recoverable-scalar s =
      Recoverable-bind (as_observation_error (finite_number s (text "value"))) (λ x. ok (some x))
        (Recoverable-number s (text "value")) (λ x. tt)

  Recoverable-bit : (s : Scalar F) → Recoverable (bit_of s)
  Recoverable-bit null = tt
  Recoverable-bit _ = tt

  Recoverable-make_observation : (a : ObservationArguments F) → Recoverable (make_observation a)
  unfolding make_observation
  Recoverable-make_observation a = Recoverable-bind (raise_if _ _) _ (Recoverable-raise_if _ _) λ _.
      Recoverable-bind (bit_of a.state_value) _ (Recoverable-bit a.state_value) λ bit.
        Recoverable-bind (values_of a.values) _ (Recoverable-values a.values) λ vs.
          Recoverable-bind (states_of a.states) _ (Recoverable-states a.states) λ ss.
            Recoverable-bind
              (scalar_value (if null_scalar a.value then a.current_value else a.value)) _
              (Recoverable-scalar (if null_scalar a.value then a.current_value else a.value))
              λ x. tt

  Recoverable-from_mapping : (d : Dict Text (Field F)) → Recoverable (observation_from_mapping d)
  unfolding observation_from_mapping
  Recoverable-from_mapping d = Recoverable-make_observation (mapped_arguments d)

  Recoverable-normalize :
      (g : Given F) (current : Scalar F) (states : Field F)
      → Recoverable (normalize_observation g current states)
  unfolding normalize_observation
  Recoverable-normalize nothing current states = Recoverable-make_observation _
  Recoverable-normalize (observation o) current states =
      elim (Bool-cases (not (null_scalar current) || not (is_null states))) [
        | inl both ↦ rw both tt
        | inr one ↦ rw one tt
      ]
  Recoverable-normalize (payload d) current states =
      Recoverable-bind (observation_from_mapping d) _ (Recoverable-from_mapping d) λ o.
        elim (Bool-cases (null_scalar current && is_null states)) [
          | inl alone ↦ rw alone tt
          | inr more ↦ rw more (Recoverable-make_observation _)
        ]
  Recoverable-normalize (bit b) current states = elim (Bool-cases (is_null states)) [
    | inl alone ↦ rw alone (Recoverable-make_observation _)
    | inr more ↦ rw more tt
  ]
  Recoverable-normalize (value x) current states = elim (Bool-cases (null_scalar current)) [
    | inl alone ↦ rw alone (Recoverable-make_observation _)
    | inr more ↦ rw more tt
  ]

module _ (number : Number) where
  open number use {Real}

  Recoverable-condition :
      (c : AlertCondition Real) (o : AlertObservation Real)
      → Recoverable (condition_satisfied number c o)
  unfolding condition_satisfied
  Recoverable-condition (on_state c) o = tt
  Recoverable-condition (on_value c) o =
      elim (Option-cases (or_else o.value (case_insensitive_lookup o.values c.indicator))) [
        | inl missing ↦ rw (missing, value_satisfied) tt
        | inr (x, found) ↦ rw (found, value_satisfied) tt
      ]

  -- What an evaluation of a rule leaves, given the bit before it.
  abbrev pub IsEdge : AlertStatus → AlertEvaluation → Type 0
  IsEdge prior e =
      (e.triggered ≡ e.satisfied && not (is_active prior))
      × (e.state ≡ (if e.satisfied then active else reset))

  conclude_alert-total :
      (prior : AlertStatus) (r : Result AlertError Bool)
      → Recoverable r
      → (e : AlertEvaluation) × (conclude_alert prior r ≡ ok e) × IsEdge prior e
  unfolding conclude_alert
  conclude_alert-total prior (ok true) h = (_, refl, (refl, refl))
  conclude_alert-total prior (ok false) h = (_, refl, (refl, refl))
  conclude_alert-total prior (err (invalid_observation t)) h = (_, refl, (refl, refl))
  conclude_alert-total prior (err (invalid_rule t)) h = absurd h
  conclude_alert-total prior (err attribute_error) h = absurd h

  -- With a readable previous state the evaluation of any observation, malformed or not, returns: it
  -- triggers exactly if its result is satisfied and the previous state was not ACTIVE, and the next
  -- state is ACTIVE exactly if its result is satisfied.
  pub evaluate-total :
      (rule : AlertRule Real) (given : Given Real) (previous : PreviousState) (prior : AlertStatus)
      (current : Scalar Real) (states : Field Real)
      → from_value previous ≡ ok prior
      → (e : AlertEvaluation) × (evaluate number rule given previous current states ≡ ok e)
        × (e.triggered ≡ e.satisfied && not (is_active prior))
        × (e.state ≡ (if e.satisfied then active else reset))
  unfolding evaluate
  evaluate-total rule given previous prior current states p = elim (Bool-cases rule.enabled) [
    | inl on ↦
        let reading = normalize_observation given current states >>= λ o.
        condition_satisfied number rule.condition o in
        let (e, same, (triggered, next)) = conclude_alert-total prior reading (
          Recoverable-bind (normalize_observation given current states)
            (λ o. condition_satisfied number rule.condition o)
            (Recoverable-normalize given current states) (Recoverable-condition rule.condition)) in
        (e, rw (p, on) same, triggered, next)
    | inr off ↦
        let disabled : AlertEvaluation = record {
          satisfied = false;
          triggered = false;
          state = reset;
          reason = some (text "disabled");
        } in
        (disabled, rw (p, off) refl, refl, refl)
  ]

-- The rising edges of a sequence of bits that follows the bit `on`.
abbrev pub rising : Bool → List Bool → List Bool
rising on [] = []
rising on (b ∷ bs) = (b && not on) ∷ rising b bs

module _ (number : Number) where
  open number use {Real}

  evaluate_all-cons :
      (rule : AlertRule Real) (prior : AlertStatus) (given : Given Real) (rest : List (Given Real))
      (e : AlertEvaluation)
      → evaluate number rule given (status prior) null (scalar null) ≡ ok e
      → evaluate_all number rule prior (given ∷ rest) ≡ e ∷ evaluate_all number rule e.state rest
  unfolding evaluate_all
  evaluate_all-cons rule prior given rest e p = rw (p, evaluate_all) refl

  is_active-if : (b : Bool) → is_active (if b then active else reset) ≡ b
  is_active-if true = refl
  is_active-if false = refl

  -- Along any observations, malformed ones included, every observation gets an evaluation, and the
  -- notifications fall exactly on the rising edges of the satisfied bits.
  pub evaluate_all-rising :
      (rule : AlertRule Real) (prior : AlertStatus) (given : List (Given Real))
      → let es = evaluate_all number rule prior given in
        (length es ≡ length given)
        × (map (λ e. e.triggered) es ≡ rising (is_active prior) (map (λ e. e.satisfied) es))
  unfolding evaluate_all
  evaluate_all-rising rule prior [] = (refl, refl)
  evaluate_all-rising rule prior (given ∷ rest) =
      let (e, p, fired, next) =
        evaluate-total number rule given (status prior) prior null (scalar null)
          (unfold from_value in refl) in
      let (counted, tail) = evaluate_all-rising rule e.state rest in
      let bit : is_active e.state ≡ e.satisfied = rw next (is_active-if e.satisfied) in
      rw (evaluate_all-cons rule prior given rest e p) (
        ap suc counted,
        ap₂ (λ (b : Bool) (bs : List Bool). b ∷ bs) fired
            (tail
              ∙ ap
                  (λ on. rising on (map (λ x. x.satisfied) (evaluate_all number rule e.state rest)))
                  bit),
      )
