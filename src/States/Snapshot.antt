-- ===== src/States/Snapshot.antt =====
-- `IndicatorSnapshot` and `PriceSnapshot` of backend/app/states/types.py. Snapshots are immutable
-- there, so that copying a mapping is the identity here.
use apanel.Base.{
  nat_equality, bool_equality, pair_equality, option_equality, ◌=?◌, Text, text_equality, not, ◌&&◌,
  Option, none, some, List, [], ◌∷◌, map, if◌then◌else◌, get_or_else, any, ◌>>=◌, ◌>>◌, raise_if,
  Result, ok, err,
}
use apanel.Base.Texts.{text}
use apanel.Base.Dict.{Dict, get}
use apanel.States.Values.{
  is_null, finite_float, normalize_indicator, normalize_values, normalize_parameters, Scalar, null,
  opaque, real, str, Field, scalar, mapping, StateError, invalid_snapshot, type_error,
}

pub record IndicatorSnapshot (F : Type 0) : Type 0 where
  pub indicator : Text
  pub values : Dict Text F
  pub previous_values : Option (Dict Text F)
  pub parameters : Dict Text F
  pub metadata : List (Scalar F × Scalar F)

pub record PriceSnapshot (F : Type 0) : Type 0 where
  pub current : F
  pub previous : Option F

-- The arguments of `IndicatorSnapshot(...)`; an argument that is left out is `None`.
pub record SnapshotArguments (F : Type 0) : Type 0 where
  pub indicator : Field F
  pub values : Field F
  pub indicator_type : Field F
  pub previous_values : Field F
  pub parameters : Field F
  pub metadata : Field F

abbrev pub reserved : List Text
reserved =
    text "indicator"
    ∷ text "indicator_type"
    ∷ text "type"
    ∷ text "previous_values"
    ∷ text "parameters"
    ∷ text "metadata"
    ∷ []

module _ {F : Type 0} where
  abbrev pub absent : Field F
  absent = scalar null

  unfoldable pub check_names : Field F → Field F → Result StateError (Unit {0})
  check_names indicator indicator_type =
      if not (is_null indicator) && not (is_null indicator_type)
      then (do
        a ← normalize_indicator indicator
        b ← normalize_indicator indicator_type
        raise_if (not (a =? b))
            (invalid_snapshot (text "indicator and indicator_type do not match")))
      else ok tt

  abbrev optional_values : Field F → Result StateError (Option (Dict Text F))
  optional_values (scalar null) = ok none
  optional_values f = normalize_values f (text "previous_values") >>= λ d. ok (some d)

  abbrev optional_parameters : Field F → Result StateError (Dict Text F)
  optional_parameters (scalar null) = ok []
  optional_parameters (mapping items) = normalize_parameters items []
  optional_parameters _ = err (type_error (text "parameters must be a mapping"))

  abbrev optional_metadata : Field F → Result StateError (List (Scalar F × Scalar F))
  optional_metadata (scalar null) = ok []
  optional_metadata (mapping items) = ok items
  optional_metadata _ = err (type_error (text "metadata must be a mapping"))

  -- `IndicatorSnapshot.__init__`
  unfoldable pub make_snapshot : SnapshotArguments F → Result StateError (IndicatorSnapshot F)
  unfolding check_names
  make_snapshot a = do
    check_names a.indicator a.indicator_type
    raise_if (is_null a.values) (invalid_snapshot (text "values are required"))
    values ← normalize_values a.values (text "values")
    previous_values ← optional_values a.previous_values
    parameters ← optional_parameters a.parameters
    metadata ← optional_metadata a.metadata
    indicator ← normalize_indicator (if is_null a.indicator then a.indicator_type else a.indicator)
    ok (record {
      indicator = indicator;
      values = values;
      previous_values = previous_values;
      parameters = parameters;
      metadata = metadata;
    })

  -- `IndicatorSnapshot(indicator, values)` from values that are normalised already.
  abbrev pub of_values : Dict Text F → Field F
  of_values d = mapping (map (λ (k, v). (str k, real v)) d)

  abbrev pub make_plain : Text → Field F → Result StateError (IndicatorSnapshot F)
  make_plain indicator values = make_snapshot (record {
    indicator = scalar (str indicator);
    values = values;
    indicator_type = absent;
    previous_values = absent;
    parameters = absent;
    metadata = absent;
  })

  -- a nested mapping is no number, whatever it holds
  abbrev pub as_scalar : Field F → Scalar F
  as_scalar (scalar s) = s
  as_scalar _ = opaque

  -- the comprehension that keeps what is not reserved
  unfoldable pub flattened : Dict Text (Field F) → List (Scalar F × Scalar F)
  flattened [] = []
  flattened ((key, item) ∷ rest) =
      let others = flattened rest in
      if any (λ r. r =? key) reserved then others else (str key, as_scalar item) ∷ others

  -- `IndicatorSnapshot.from_mapping`
  unfoldable pub from_mapping : Dict Text (Field F) → Result StateError (IndicatorSnapshot F)
  unfolding make_snapshot flattened
  from_mapping value =
      let indicator = get_or_else (get value (text "indicator")) (
        get_or_else (get value (text "indicator_type"))
          (get_or_else (get value (text "type")) absent)) in
      let given = get_or_else (get value (text "values")) absent in
      make_snapshot (record {
        indicator = indicator;
        values = if is_null given then mapping (flattened value) else given;
        indicator_type = absent;
        previous_values = get_or_else (get value (text "previous_values")) absent;
        parameters = get_or_else (get value (text "parameters")) absent;
        metadata = get_or_else (get value (text "metadata")) absent;
      })

  -- `IndicatorSnapshot.from_result`, of an object's attributes
  unfoldable pub from_result : Field F → Field F → Field F → Result StateError (IndicatorSnapshot F)
  unfolding make_snapshot
  from_result indicator values parameters =
      if is_null indicator
      then err (invalid_snapshot (text "result must expose indicator and values"))
      else if is_null values
      then err (invalid_snapshot (text "result must expose indicator and values"))
      else make_snapshot (record {
        indicator = indicator;
        values = values;
        indicator_type = absent;
        previous_values = absent;
        parameters = parameters;
        metadata = absent;
      })

  abbrev optional_price : Scalar F → Result StateError (Option F)
  optional_price null = ok none
  optional_price s = finite_float s (text "price.previous") >>= λ x. ok (some x)

  -- `PriceSnapshot.__init__`
  unfoldable pub make_price : Scalar F → Scalar F → Result StateError (PriceSnapshot F)
  make_price current previous = do
    c ← finite_float current (text "price.current")
    p ← optional_price previous
    ok (record { current = c; previous = p })
