-- ===== src/States/Definitions.antt =====
-- `StateDefinition` and the built-in definitions of backend/app/states/definitions.py.
use apanel.Base.{
  nat_equality, bool_equality, pair_equality, option_equality, ◌=?◌, Text, text_equality, Bool,
  true, false, not, ◌||◌, Option, some, List, [], ◌∷◌, ◌++◌, ◌>>=◌, ◌>>◌, raise_if, Result, ok,
}
use apanel.Base.Texts.{text, strip, upper, is_blank}
use apanel.Base.Dict.{Dict, get}
use apanel.Base.Number.{Number}
use apanel.States.Values.{StateError}
use apanel.States.Signals.{StateSignal}
use apanel.States.Evaluators.{
  ma_cross, ma_gap, kdj_cross, macd_cross, all_direction, boll_width_state, boll_break,
  macd_red_bar, Inputs,
}

-- What an evaluator returns: a plugin's may be a plain Boolean, or nothing of use.
pub data Verdict : Type 0 where
  signal : StateSignal → Verdict
  plain : Bool → Verdict
  unusable : Verdict

abbrev pub Evaluator : Type 0 → Type 0
Evaluator F = Inputs F → Result StateError Verdict

-- A value of the metadata mapping.
pub data Detail : Type 0 where
  word : Text → Detail
  words : List Text → Detail
  other : Detail

pub record StateDefinition (F : Type 0) : Type 0 where
  pub code : Text
  pub name : Text
  pub level : Text
  pub indicator_type : Text
  pub metadata : Dict Text Detail
  pub evaluator : Evaluator F

-- `InvalidStateDefinitionError` with its text
pub record InvalidStateDefinition : Type 0 where
  pub message : Text

abbrev is_mode : Option Detail → Bool
is_mode (some (word w)) = w =? text "edge" || w =? text "continuous"
is_mode _ = false

module _ {F : Type 0} where
  -- `StateDefinition.__post_init__`
  unfoldable pub make_definition :
      StateDefinition F → Result InvalidStateDefinition (StateDefinition F)
  unfolding upper strip is_blank
  make_definition d = do
    raise_if (is_blank d.code) (record { message = text "state code must be a non-empty string" })
    raise_if (not (upper (strip d.code) =? d.code))
        (record { message = text "state code must be uppercase" })
    raise_if (is_blank d.name) (record { message = text "state name must be a non-empty string" })
    raise_if (is_blank d.level) (record { message = text "state level must be a non-empty string" })
    raise_if (is_blank d.indicator_type)
        (record { message = text "indicator_type must be a non-empty string" })
    raise_if (not (is_mode (get d.metadata (text "mode"))))
        (record { message = text "state metadata.mode must be edge or continuous" })
    ok (record d { indicator_type = upper (strip d.indicator_type) })

  -- `metadata.get("mode") == "edge"`
  unfoldable pub is_edge_mode : StateDefinition F → Bool
  is_edge_mode d = elim (get d.metadata (text "mode")) [
    | some (word w) ↦ w =? text "edge"
    | _ ↦ false
  ]

-- The metadata that `_definition` writes.
abbrev pub details : Text → List Text → Text → Dict Text Detail
details mode fields how =
    (text "mode", word mode) ∷ (text "fields", words fields) ∷ (text "comparison", word how) ∷ []

module _ (number : Number) where
  open number use {Real}

  abbrev signalled : (Inputs Real → Result StateError StateSignal) → Evaluator Real
  signalled f i = f i >>= λ s. ok (signal s)

  -- `_definition`, before `__post_init__`
  abbrev definition :
      Text
      → Text
      → Text
      → Text
      → Text
      → List Text
      → Text
      → (Inputs Real → Result StateError StateSignal)
      → StateDefinition Real
  definition code name level indicator mode fields how f = record {
    code = code;
    name = name;
    level = level;
    indicator_type = indicator;
    metadata = details mode fields how;
    evaluator = signalled f;
  }

  abbrev pairs : List Text
  pairs = text "short" ∷ text "long" ∷ []

  abbrev lines : List Text
  lines = text "k" ∷ text "d" ∷ text "j" ∷ []

  abbrev bands : List Text
  bands = text "upper" ∷ text "middle" ∷ text "lower" ∷ []

  unfoldable pub ma_definitions : List (StateDefinition Real)
  unfolding ma_cross ma_gap
  ma_definitions =
      definition (text "MA_CROSS_UP") (text "MA上穿") (text "POSITIVE") (text "MA") (text "edge")
        pairs (text "cross_up") (ma_cross number true)
      ∷ definition (text "MA_CROSS_DOWN") (text "MA下穿") (text "NEGATIVE") (text "MA") (text "edge")
          pairs (text "cross_down") (ma_cross number false)
      ∷ definition (text "MA_GAP_NARROWING") (text "MA间距收窄") (text "WARNING") (text "MA")
          (text "continuous") pairs (text "gap_decrease") (ma_gap number true)
      ∷ definition (text "MA_GAP_EXPANDING") (text "MA间距扩大") (text "INFO") (text "MA")
          (text "continuous") pairs (text "gap_increase") (ma_gap number false)
      ∷ []

  unfoldable pub kdj_definitions : List (StateDefinition Real)
  unfolding kdj_cross all_direction
  kdj_definitions =
      definition (text "KDJ_K_CROSS_D_UP") (text "K上穿D") (text "POSITIVE") (text "KDJ")
        (text "edge") (text "k" ∷ text "d" ∷ []) (text "cross_up") (kdj_cross number true)
      ∷ definition (text "KDJ_K_CROSS_D_DOWN") (text "K下穿D") (text "NEGATIVE") (text "KDJ")
          (text "edge") (text "k" ∷ text "d" ∷ []) (text "cross_down") (kdj_cross number false)
      ∷ definition (text "KDJ_ALL_RISING") (text "KDJ三线齐上") (text "POSITIVE") (text "KDJ")
          (text "continuous") lines (text "all_increase") (all_direction number lines true)
      ∷ definition (text "KDJ_ALL_FALLING") (text "KDJ三线齐下") (text "NEGATIVE") (text "KDJ")
          (text "continuous") lines (text "all_decrease") (all_direction number lines false)
      ∷ []

  unfoldable pub boll_definitions : List (StateDefinition Real)
  unfolding boll_width_state all_direction boll_break
  boll_definitions =
      definition (text "BOLL_WIDTH_NARROWING") (text "带口收窄") (text "WARNING") (text "BOLL")
        (text "continuous") (text "width" ∷ []) (text "decrease") (boll_width_state number true)
      ∷ definition (text "BOLL_WIDTH_EXPANDING") (text "带口扩大") (text "INFO") (text "BOLL")
          (text "continuous") (text "width" ∷ []) (text "increase") (boll_width_state number false)
      ∷ definition (text "BOLL_ALL_RISING") (text "三线齐上") (text "POSITIVE") (text "BOLL")
          (text "continuous") bands (text "all_increase") (all_direction number bands true)
      ∷ definition (text "BOLL_ALL_FALLING") (text "三线齐下") (text "NEGATIVE") (text "BOLL")
          (text "continuous") bands (text "all_decrease") (all_direction number bands false)
      ∷ definition (text "BOLL_BREAK_UPPER") (text "突破上轨") (text "POSITIVE") (text "BOLL")
          (text "edge") (text "upper" ∷ text "price" ∷ []) (text "break_above")
          (boll_break number true)
      ∷ definition (text "BOLL_BREAK_LOWER") (text "跌破下轨") (text "NEGATIVE") (text "BOLL")
          (text "edge") (text "lower" ∷ text "price" ∷ []) (text "break_below")
          (boll_break number false)
      ∷ []

  unfoldable pub macd_definitions : List (StateDefinition Real)
  unfolding macd_cross macd_red_bar
  macd_definitions =
      definition (text "MACD_DIFF_CROSS_DEA_UP") (text "DIFF上穿DEA") (text "POSITIVE") (text "MACD")
        (text "edge") (text "diff" ∷ text "dea" ∷ []) (text "cross_up") (macd_cross number true)
      ∷ definition (text "MACD_DIFF_CROSS_DEA_DOWN") (text "DIFF下穿DEA") (text "NEGATIVE")
          (text "MACD") (text "edge") (text "diff" ∷ text "dea" ∷ []) (text "cross_down")
          (macd_cross number false)
      ∷ definition (text "MACD_RED_BAR_GROWING") (text "红柱增长") (text "POSITIVE") (text "MACD")
          (text "continuous") (text "histogram" ∷ []) (text "positive_increase")
          (macd_red_bar number true)
      ∷ definition (text "MACD_RED_BAR_SHRINKING") (text "红柱缩短") (text "NEGATIVE") (text "MACD")
          (text "continuous") (text "histogram" ∷ []) (text "positive_decrease")
          (macd_red_bar number false)
      ∷ []

  -- `create_default_definitions`, in its order
  unfoldable pub default_definitions : List (StateDefinition Real)
  unfolding ma_definitions kdj_definitions boll_definitions macd_definitions
  default_definitions =
      ma_definitions ++ (kdj_definitions ++ (boll_definitions ++ macd_definitions))
