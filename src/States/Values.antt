-- ===== src/States/Values.antt =====
-- The untyped values that backend/app/states/types.py normalises, and the exceptions it raises.
use apanel.Base.{
  nat_equality, bool_equality, pair_equality, option_equality, ◌=?◌, Text, text_equality, Bool,
  true, false, List, [], ◌∷◌, ◌++◌, if◌then◌else◌, ◌>>=◌, Result, ok, err,
}
use apanel.Base.Texts.{text, strip, upper, lower, is_blank}
use apanel.Base.Dict.{Dict, put}

-- One Python value: `decimal` is a `Decimal`, `not_finite` an infinity or a NaN, `overflowing` a
-- number that `float()` rejects, and `opaque` a value of any other type.
pub data Scalar (F : Type 0) : Type 0 where
  null opaque not_finite overflowing : Scalar F
  bool : Bool → Scalar F
  real decimal : F → Scalar F
  str : Text → Scalar F

-- A value that may be a mapping, or a collection.
pub data Field (F : Type 0) : Type 0 where
  scalar : Scalar F → Field F
  mapping : List (Scalar F × Scalar F) → Field F
  sequence : List (Scalar F) → Field F

-- `InvalidSnapshotError`, `MissingStateValues`, `TypeError` and `ValueError` with their texts.
pub data StateError : Type 0 where
  invalid_snapshot missing_values type_error value_error : Text → StateError

-- The spellings of an indicator that stand for another.
unfoldable pub resolve_alias : Text → Text
resolve_alias t =
    if t =? text "BOLLINGER" then text "BOLL" else if t =? text "SMA" then text "MA" else t

module _ {F : Type 0} where
  -- `x is None`
  abbrev pub is_null : Field F → Bool
  is_null (scalar null) = true
  is_null _ = false

  unfoldable pub finite_float : Scalar F → Text → Result StateError F
  finite_float (real x) name = ok x
  finite_float (decimal x) name = ok x
  finite_float not_finite name = err (invalid_snapshot (name ++ text " must be finite"))
  finite_float _ name = err (invalid_snapshot (name ++ text " must be a real number"))

  unfoldable pub normalize_indicator : Field F → Result StateError Text
  normalize_indicator (scalar (str t)) =
      if is_blank t
      then err (invalid_snapshot (text "indicator must be a non-empty string"))
      else ok (resolve_alias (upper (strip t)))
  normalize_indicator _ = err (invalid_snapshot (text "indicator must be a non-empty string"))

  -- the loop over `value.items()`
  unfoldable pub normalize_items :
      List (Scalar F × Scalar F) → Text → Dict Text F → Result StateError (Dict Text F)
  unfolding finite_float
  normalize_items [] name normalized = ok normalized
  normalize_items ((str raw_key, raw_value) ∷ items) name normalized =
      if is_blank raw_key
      then err (invalid_snapshot (name ++ text " keys must be non-empty strings"))
      else do
        value ← finite_float raw_value (name ++ text "." ++ raw_key)
        normalize_items items name (put normalized (lower (strip raw_key)) value)
  normalize_items (_ ∷ items) name normalized =
      err (invalid_snapshot (name ++ text " keys must be non-empty strings"))

  unfoldable pub normalize_values : Field F → Text → Result StateError (Dict Text F)
  unfolding normalize_items
  normalize_values (mapping items) name = normalize_items items name []
  normalize_values _ name = err (invalid_snapshot (name ++ text " must be a mapping"))

  -- The loop over `raw_parameters.items()`: these keys keep their case.
  unfoldable pub normalize_parameters :
      List (Scalar F × Scalar F) → Dict Text F → Result StateError (Dict Text F)
  unfolding finite_float
  normalize_parameters [] normalized = ok normalized
  normalize_parameters ((str key, value) ∷ items) normalized =
      if is_blank key
      then err (invalid_snapshot (text "parameter keys must be non-empty strings"))
      else do
        number ← finite_float value (text "parameters." ++ key)
        normalize_parameters items (put normalized (strip key) number)
  normalize_parameters (_ ∷ items) normalized =
      err (invalid_snapshot (text "parameter keys must be non-empty strings"))
