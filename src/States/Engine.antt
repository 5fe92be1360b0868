-- ===== src/States/Engine.antt =====
-- `StateEngine` of backend/app/states/engine.py. An instance is a record; the dictionary of last
-- active bits is its only mutable part.
use apanel.Base.{
  nat_equality, bool_equality, pair_equality, option_equality, ◌=?◌, Text, text_equality, Bool,
  true, false, not, ◌&&◌, Option, none, some, List, [], ◌∷◌, if◌then◌else◌, get_or_else, raise_if,
  ◌>>=◌, ◌>>◌, Result, err, ok,
}
use apanel.Base.Texts.{text, contains}
use apanel.Base.Dict.{Dict, get, put, drop_keys}
use apanel.Base.Number.{Number}
use apanel.States.Values.{
  Scalar, null, real, Field, StateError, invalid_snapshot, missing_values, type_error, value_error,
}
use apanel.States.Snapshot.{
  make_snapshot, of_values, make_plain, from_mapping, from_result, make_price, IndicatorSnapshot,
  PriceSnapshot,
}
use apanel.States.Signals.{StateSignal}
use apanel.States.Definitions.{Verdict, signal, plain, unusable, StateDefinition}
use apanel.States.Registry.{get_state, Registry, RegistryError}

-- What `_as_snapshot` accepts: a snapshot, a mapping, an object with the attributes of a result.
pub data Observed (F : Type 0) : Type 0 where
  snapshot : IndicatorSnapshot F → Observed F
  mapped : Dict Text (Field F) → Observed F
  result : Field F → Field F → Field F → Observed F
  other_object : Observed F

-- What `_as_price` accepts.
pub data Priced (F : Type 0) : Type 0 where
  no_price : Priced F
  price_snapshot : PriceSnapshot F → Priced F
  price_mapping : Dict Text (Scalar F) → Priced F
  price_value : Scalar F → Priced F

pub record StateResult (F : Type 0) : Type 0 where
  pub definition : StateDefinition F
  pub active : Bool
  pub transition : Bool
  pub reason : Option Text
  pub values : Dict Text F

-- The last is the `KeyError` of a registry whose list of codes has one without a definition.
pub data EngineError : Type 0 where
  registry_error : RegistryError → EngineError
  bad_tolerance missing_definition : EngineError

abbrev pub Key : Type 0
Key = Text × Text

-- The keyword arguments of `evaluate_state`.
pub record Request (F : Type 0) : Type 0 where
  pub code : Text
  pub current : Observed F
  pub previous : Option (Observed F)
  pub price : Priced F
  pub current_price : Priced F
  pub previous_price : Scalar F
  pub tolerance : Scalar F
  pub stream_id : Text
  pub security_id : Text
  pub symbol : Text
  pub previous_active : Option Bool

-- A day's signal, with the snapshots that it was read from.
abbrev pub Reading : Type 0 → Type 0
Reading F = Result StateError (StateSignal × (IndicatorSnapshot F × IndicatorSnapshot F))

abbrev price_error : StateError
price_error = invalid_snapshot (text "price.current is required")

-- `a or b` on texts, where `None` is the empty text
abbrev pub or_text : Text → Text → Text
or_text [] b = b
or_text (c ∷ a) b = c ∷ a

-- `_reason_for_exception`
unfoldable pub reason_for : StateError → Text
unfolding contains
reason_for (missing_values reason) = reason
reason_for (invalid_snapshot message) =
    if contains (text "metadata") message then text "invalid_metadata" else text "invalid_values"
reason_for (type_error message) =
    if contains (text "metadata") message then text "invalid_metadata" else text "invalid_values"
reason_for (value_error message) = text "invalid_values"

module _ {F : Type 0} where
  unfoldable pub as_snapshot : Observed F → Result StateError (IndicatorSnapshot F)
  unfolding from_mapping from_result
  as_snapshot (snapshot s) = ok s
  as_snapshot (mapped d) = from_mapping d
  as_snapshot (result i v p) = from_result i v p
  as_snapshot other_object =
      err
        (invalid_snapshot (text "snapshot must be IndicatorSnapshot, IndicatorResult, or mapping"))

  abbrev scalar_or : Scalar F → Scalar F → Scalar F
  scalar_or null b = b
  scalar_or a b = a

  abbrev entry : Dict Text (Scalar F) → Text → Scalar F → Scalar F
  entry d name default = get_or_else (get d name) default

  abbrev price_of_mapping : Scalar F → Scalar F → Result StateError (Option (PriceSnapshot F))
  price_of_mapping null prior = err price_error
  price_of_mapping current prior = make_price current prior >>= λ p. ok (some p)

  -- `_as_price`
  unfoldable pub as_price : Priced F → Scalar F → Result StateError (Option (PriceSnapshot F))
  unfolding make_price
  as_price no_price null = ok none
  as_price no_price previous = err price_error
  as_price (price_snapshot p) null = ok (some p)
  as_price (price_snapshot p) previous = make_price (real p.current) previous >>= λ q. ok (some q)
  as_price (price_mapping d) previous =
      price_of_mapping
        (entry d (text "current") (entry d (text "value") (entry d (text "close") null)))
        (scalar_or previous (entry d (text "previous") (entry d (text "previous_value") null)))
  as_price (price_value null) null = ok none
  as_price (price_value null) previous = err price_error
  as_price (price_value s) previous = make_price s previous >>= λ q. ok (some q)

  abbrev pub is_no_price : Priced F → Bool
  is_no_price no_price = true
  is_no_price (price_value null) = true
  is_no_price _ = false

module _ (number : Number) where
  open number use {Real, zero_real, ltb as lt_real}

  pub record Engine : Type 0 where
    pub registry : Registry Real
    pub tolerance : Real
    pub last_active : Dict Key Bool

  -- `_validate_tolerance`: a `Decimal` is neither an int nor a float
  unfoldable pub validate_tolerance : Scalar Real → Result EngineError Real
  validate_tolerance (real x) = if lt_real x zero_real then err bad_tolerance else ok x
  validate_tolerance _ = err bad_tolerance

  -- `reset`
  unfoldable pub reset : Option Text → Engine → Engine
  reset none e = record e { last_active = [] }
  reset (some prefix) e = record e { last_active = drop_keys (λ k. k.0 =? prefix) e.last_active }

  -- `_inactive`
  unfoldable pub inactive : StateDefinition Real → Text → Key → Engine → StateResult Real × Engine
  inactive d reason key e = (
    record {
      definition = d;
      active = false;
      transition = false;
      reason = some reason;
      values = [];
    },
    record e { last_active = put e.last_active key false },
  )

  abbrev verdict_active : Result StateError Verdict → Bool
  verdict_active (ok (signal s)) = s.active
  verdict_active (ok (plain b)) = b
  verdict_active _ = false

  -- `_infer_previous_active`
  unfoldable pub infer_previous_active : StateDefinition Real → IndicatorSnapshot Real → Real → Bool
  unfolding make_snapshot
  infer_previous_active d previous tolerance = elim previous.previous_values [
    | none ↦ false
    | some earlier ↦ verdict_active (
        make_plain previous.indicator (of_values earlier) >>= λ prior. d.evaluator (record {
          current = previous;
          previous = prior;
          price = none;
          previous_price = none;
          tolerance = tolerance;
        }))
  ]

  -- The definition's signal for the day, or the error that makes the state inactive.
  unfoldable pub read_signal : StateDefinition Real → Request Real → Real → Reading Real
  unfolding as_snapshot as_price
  read_signal d r tolerance = do
    current ← as_snapshot r.current
    given ← elim r.previous [
      | none ↦ err (missing_values (text "missing_previous"))
      | some o ↦ ok o
    ]
    previous ← as_snapshot given
    raise_if (not (current.indicator =? d.indicator_type))
        (missing_values (text "indicator_mismatch"))
    raise_if (not (previous.indicator =? d.indicator_type))
        (missing_values (text "indicator_mismatch"))
    price ←
        as_price (if is_no_price r.current_price then r.price else r.current_price) r.previous_price
    verdict ← d.evaluator (record {
      current = current;
      previous = previous;
      price = price;
      previous_price = elim price [ none ↦ none | some p ↦ p.previous ];
      tolerance = tolerance;
    })
    s ← elim verdict [
      | signal s ↦ ok s
      | plain b ↦ ok (record { active = b; edge = b })
      | unusable ↦ err (missing_values (text "invalid_evaluator_result"))
    ]
    ok (s, (current, previous))

  -- `previous_active`, else the stored bit, else what yesterday's snapshot shows
  unfoldable pub was_active :
      StateDefinition Real → Option Bool → Key → IndicatorSnapshot Real → Real → Engine → Bool
  unfolding infer_previous_active
  was_active d given key previous tolerance e =
      get_or_else given
        (get_or_else (get e.last_active key) (infer_previous_active d previous tolerance))

  abbrev pub key_of : StateDefinition Real → Request Real → Key
  key_of d r = (or_text r.stream_id (or_text r.security_id (or_text r.symbol d.code)), d.code)

  -- What `evaluate_state` does with the signal, or with the exception in its place.
  unfoldable pub conclude :
      StateDefinition Real → Real → Request Real → Engine → Reading Real → StateResult Real × Engine
  unfolding was_active inactive
  conclude d tolerance r e (err error) = inactive d (reason_for error) (key_of d r) e
  conclude d tolerance r e (ok (s, (current, previous))) = (
    record {
      definition = d;
      active = s.active;
      transition =
          (s.active && s.edge)
          && not (was_active d r.previous_active (key_of d r) previous tolerance e);
      reason = none;
      values = current.values;
    },
    record e { last_active = put e.last_active (key_of d r) s.active },
  )

  -- `evaluate_state` once the definition and the tolerance are resolved
  unfoldable pub evaluate_definition :
      StateDefinition Real → Real → Request Real → Engine → StateResult Real × Engine
  unfolding read_signal conclude
  evaluate_definition d tolerance r e = conclude d tolerance r e (read_signal d r tolerance)

  abbrev pub lift_registry : {A : Type 0} → Result RegistryError A → Result EngineError A
  lift_registry (ok a) = ok a
  lift_registry (err x) = err (registry_error x)

  unfoldable pub resolve_tolerance : Scalar Real → Engine → Result EngineError Real
  unfolding validate_tolerance
  resolve_tolerance null e = ok e.tolerance
  resolve_tolerance given e = validate_tolerance given

  unfoldable pub evaluate_state :
      Request Real → Engine → Result EngineError (StateResult Real × Engine)
  unfolding evaluate_definition resolve_tolerance get_state
  evaluate_state r e = do
    d ← lift_registry (get_state e.registry r.code)
    tolerance ← resolve_tolerance r.tolerance e
    ok (evaluate_definition d tolerance r e)

  -- A caller's sequence of evaluations on one engine; a call that raises changes nothing.
  unfoldable pub run : List (Request Real) → Engine → List (Key × StateResult Real)
  run [] e = []
  run (r ∷ rs) e = elim (evaluate_state r e) [
    | err _ ↦ run rs e
    | ok (s, next) ↦ (key_of s.definition r, s) ∷ run rs next
  ]
