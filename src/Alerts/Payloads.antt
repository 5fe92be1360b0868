-- ===== src/Alerts/Payloads.antt =====
-- Payloads that `AlertObservation.from_mapping` reads.
use mathlib.Core.Path.{subst}
use apanel.Base.{
  beq, nat_equality, bool_equality, pair_equality, option_equality, beq→eq, Text, text_equality,
  ◌≡◌, refl, sym, ◌≢◌, inl, inr, Bool, not, ◌&&◌, none, some, List, [], ◌∷◌, ◌++◌, if◌then◌else◌,
  Bool-cases, raise_if, >>=-eq-ok, Ensures, Ensures-bind, Ensures-ok, ok,
}
use apanel.Base.Texts.{text, strip, is_blank}
use apanel.Base.Dict.{Dict, get, put}
use apanel.States.Values.{Scalar, bool, str, Field, scalar}
use apanel.Alerts.Rules.{null_scalar, finite_number, invalid_observation}
use apanel.Alerts.Observations.{
  as_observation_error, is_reserved, observed_values, values_of, states_of, scalar_value, bit_of,
  make_observation, flat, flattened_values, or_absent, mapped_arguments, observation_from_mapping,
  AlertObservation, ObservationArguments,
}

module _ {F : Type 0} where
  -- Indicator values that are refused whatever was read before them.
  abbrev Refused : List (Scalar F × Scalar F) → Type 0
  Refused items = (made out : Dict Text F) → observed_values items made ≢ ok out

  Refused-cons :
      (item : Scalar F × Scalar F) (items : List (Scalar F × Scalar F))
      → Refused items
      → Refused (item ∷ items)
  unfolding observed_values
  Refused-cons (str key, raw) items h made out p = elim (Bool-cases (is_blank key)) [
    | inl blank ↦ cc (rw blank at p)
    | inr ink ↦
        let (x, _, q) =
          >>=-eq-ok (as_observation_error (finite_number raw (text "values." ++ key)))
            (λ x. observed_values items (put made (strip key) x)) (rw ink at p) in
        h (put made (strip key) x) out q
  ]
  Refused-cons _ items h made out p = cc

  Refused-bool :
      (b : Bool) (items : List (Scalar F × Scalar F))
      → Refused ((str (text "state_value"), bool b) ∷ items)
  unfolding observed_values finite_number is_blank
  Refused-bool b items made out p = cc

  abbrev kept : Text → Field F → List (Scalar F × Scalar F) → List (Scalar F × Scalar F)
  kept key raw items = if is_reserved key then items else (str key, flat raw) ∷ items

  Refused-here :
      (key : Text) (raw : Field F) (b : Bool) (items : List (Scalar F × Scalar F))
      → key ≡ text "state_value"
      → raw ≡ scalar (bool b)
      → Refused (kept key raw items)
  unfolding is_reserved
  Refused-here key raw b items k r =
      subst (λ x. Refused (kept x raw items)) (sym k)
        (subst (λ y. Refused (kept (text "state_value") y items)) (sym r) (Refused-bool b items))

  Refused-kept :
      (key : Text) (raw : Field F) (items : List (Scalar F × Scalar F))
      → Refused items
      → Refused (kept key raw items)
  Refused-kept key raw items h = elim (Bool-cases (is_reserved key)) [
    | inl reserved ↦ rw reserved h
    | inr passed ↦ rw passed (Refused-cons (str key, flat raw) items h)
  ]

  Refused-flattened :
      (d : Dict Text (Field F)) (b : Bool)
      → get d (text "state_value") ≡ some (scalar (bool b))
      → Refused (flattened_values d)
  unfolding get flattened_values
  Refused-flattened [] b h = cc
  Refused-flattened ((key, raw) ∷ d) b h = elim (Bool-cases (beq key (text "state_value"))) [
    | inl same ↦
        Refused-here key raw b (flattened_values d) (beq→eq key (text "state_value") same)
          (cc (rw same at h))
    | inr other ↦ Refused-kept key raw (flattened_values d) (Refused-flattened d b (rw other at h))
  ]

  values_of-Refused :
      (items : List (Scalar F × Scalar F)) (out : Dict Text F)
      → Refused items
      → values_of (or_absent items) ≢ ok out
  unfolding observed_values
  values_of-Refused [] out h p = h [] [] refl
  values_of-Refused (i ∷ items) out h p = h [] out p

  mapped-values :
      (d : Dict Text (Field F))
      → get d (text "values") ≡ none
      → get d (text "indicator_values") ≡ none
      → get d (text "value") ≡ none
      → get d (text "current_value") ≡ none
      → (mapped_arguments d).values ≡ or_absent (flattened_values d)
  unfolding mapped_arguments
  mapped-values d no_values no_indicators no_value no_current =
      rw (no_values, no_indicators, no_value, no_current, mapped_arguments) refl

  -- An observation is only made if its values were read.
  abbrev HasRead : ObservationArguments F → AlertObservation F → Type 0
  HasRead a o = (out : Dict Text F) × (values_of a.values ≡ ok out)

  make_observation-HasRead : (a : ObservationArguments F) → Ensures (HasRead a) (make_observation a)
  unfolding make_observation
  make_observation-HasRead a =
      let twice =
        raise_if (not (null_scalar a.value) && not (null_scalar a.current_value))
          (invalid_observation (text "value and current_value cannot both be provided")) in
      Ensures-bind (HasRead a) twice _ λ _ _.
        Ensures-bind (HasRead a) (bit_of a.state_value) _ λ _ _.
          Ensures-bind (HasRead a) (values_of a.values) _ λ out read.
            let found : (v : Dict Text F) × (values_of a.values ≡ ok v) = (out, read) in
            Ensures-bind (HasRead a) (states_of a.states) _ λ _ _.
              Ensures-bind (HasRead a)
                (scalar_value (if null_scalar a.value then a.current_value else a.value)) _
                λ _ _. found

  -- A payload with a Boolean `state_value`, but without `values`, `indicator_values`, `value` and
  -- `current_value`, is never read: the call raises whatever else the payload holds.
  pub from_mapping-state_value :
      (d : Dict Text (Field F)) (b : Bool) (o : AlertObservation F)
      → get d (text "state_value") ≡ some (scalar (bool b))
      → get d (text "values") ≡ none
      → get d (text "indicator_values") ≡ none
      → get d (text "value") ≡ none
      → get d (text "current_value") ≡ none
      → observation_from_mapping d ≢ ok o
  unfolding observation_from_mapping
  from_mapping-state_value d b o bit no_values no_indicators no_value no_current p =
      let a = mapped_arguments d in
      let (out, q) = Ensures-ok (HasRead a) (make_observation a) (make_observation-HasRead a) p in
      values_of-Refused (flattened_values d) out (Refused-flattened d b bit) (
        subst (λ v. values_of v ≡ ok out)
          (mapped-values d no_values no_indicators no_value no_current) q)
