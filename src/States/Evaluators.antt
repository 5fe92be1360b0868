-- ===== src/States/Evaluators.antt =====
-- One evaluator for each family of built-in states, as in backend/app/states/definitions.py.
use apanel.Base.{
  Text, Bool, ◌&&◌, Option, none, some, List, [], ◌∷◌, if◌then◌else◌, or_else, all, ◌>>=◌, Result,
  ok, err,
}
use apanel.Base.Texts.{text}
use apanel.Base.Number.{Number}
use apanel.States.Values.{StateError, missing_values}
use apanel.States.Snapshot.{IndicatorSnapshot, PriceSnapshot}
use apanel.States.Signals.{
  is_positive, is_negative, value, values, ma_pair, cross_up, cross_down, steady, comparison,
  StateSignal, Sign,
}

-- What an evaluator is given: the two snapshots, the price, the earlier price and the tolerance.
pub record Inputs (F : Type 0) : Type 0 where
  pub current : IndicatorSnapshot F
  pub previous : IndicatorSnapshot F
  pub price : Option (PriceSnapshot F)
  pub previous_price : Option F
  pub tolerance : F

module _ (number : Number) where
  open number use {Real, zero_real, sub, div, abs, ltb as lt_real, leb as le_real}

  -- `_ma_cross_up` and `_ma_cross_down`
  unfoldable pub ma_cross : Bool → Inputs Real → Result StateError StateSignal
  unfolding cross_up cross_down
  ma_cross up i = do
    c ← ma_pair i.current
    p ← ma_pair i.previous
    let current_relation = comparison number c.0 c.1 i.tolerance
    let previous_relation = comparison number p.0 p.1 i.tolerance
    ok (
        if up
        then cross_up current_relation previous_relation
        else cross_down current_relation previous_relation)

  unfoldable pub ma_gap : Bool → Inputs Real → Result StateError StateSignal
  ma_gap narrowing i = do
    c ← ma_pair i.current
    p ← ma_pair i.previous
    let relation = comparison number (abs (sub c.0 c.1)) (abs (sub p.0 p.1)) i.tolerance
    ok (steady (if narrowing then is_negative relation else is_positive relation))

  -- `_kdj_cross` on `k` and `d`, and `_macd_cross` on `diff` and `dea`
  unfoldable pub field_cross : Text → Text → Bool → Inputs Real → Result StateError StateSignal
  unfolding value cross_up cross_down
  field_cross first second up i = do
    current_first ← value i.current (first ∷ [])
    current_second ← value i.current (second ∷ [])
    previous_first ← value i.previous (first ∷ [])
    previous_second ← value i.previous (second ∷ [])
    let current_relation = comparison number current_first current_second i.tolerance
    let previous_relation = comparison number previous_first previous_second i.tolerance
    ok (
        if up
        then cross_up current_relation previous_relation
        else cross_down current_relation previous_relation)

  unfoldable pub kdj_cross : Bool → Inputs Real → Result StateError StateSignal
  unfolding field_cross
  kdj_cross = field_cross (text "k") (text "d")

  unfoldable pub macd_cross : Bool → Inputs Real → Result StateError StateSignal
  unfolding field_cross
  macd_cross = field_cross (text "diff") (text "dea")

  -- `zip(current_values, previous_values, strict=True)` under `_direction`
  unfoldable pub directions : List Real → List Real → Real → List Sign
  unfolding comparison
  directions (c ∷ cs) (p ∷ ps) tolerance =
      comparison number c p tolerance ∷ directions cs ps tolerance
  directions _ _ tolerance = []

  unfoldable pub all_direction : List Text → Bool → Inputs Real → Result StateError StateSignal
  unfolding values
  all_direction fields rising i = do
    cs ← values i.current fields
    ps ← values i.previous fields
    let comparisons = directions cs ps i.tolerance
    ok (steady (if rising then all is_positive comparisons else all is_negative comparisons))

  abbrev width_or : Result StateError Real → Result StateError Real → Result StateError Real
  width_or (ok w) other = ok w
  width_or (err _) other = other

  unfoldable pub boll_width : IndicatorSnapshot Real → Real → Result StateError Real
  unfolding value
  boll_width s tolerance =
      width_or (value s (text "width" ∷ text "band_width" ∷ text "bandwidth" ∷ [])) (do
        top ← value s (text "upper" ∷ [])
        middle ← value s (text "middle" ∷ [])
        bottom ← value s (text "lower" ∷ [])
        ok (if le_real (abs middle) tolerance then zero_real else div (sub top bottom) middle))

  unfoldable pub boll_width_state : Bool → Inputs Real → Result StateError StateSignal
  unfolding boll_width
  boll_width_state narrowing i = do
    c ← boll_width i.current i.tolerance
    p ← boll_width i.previous i.tolerance
    let relation = comparison number c p i.tolerance
    ok (steady (if narrowing then is_negative relation else is_positive relation))

  abbrev missing_price : StateError
  missing_price = missing_values (text "missing_price")

  abbrev or_missing_price : {A : Type 0} → Option A → Result StateError A
  or_missing_price none = err missing_price
  or_missing_price (some a) = ok a

  unfoldable pub boll_break : Bool → Inputs Real → Result StateError StateSignal
  unfolding value cross_up cross_down
  boll_break above i = do
    price ← or_missing_price i.price
    prior_price ← or_missing_price (or_else i.previous_price price.previous)
    let band = if above then text "upper" else text "lower"
    current_band ← value i.current (band ∷ [])
    previous_band ← value i.previous (band ∷ [])
    let now = comparison number price.current current_band i.tolerance
    let before = comparison number prior_price previous_band i.tolerance
    ok (if above then cross_up now before else cross_down now before)

  unfoldable pub macd_red_bar : Bool → Inputs Real → Result StateError StateSignal
  unfolding value
  macd_red_bar growing i = do
    let names = text "histogram" ∷ text "bar" ∷ text "red_bar" ∷ []
    current_bar ← value i.current names
    previous_bar ← value i.previous names
    let relation = comparison number current_bar previous_bar i.tolerance
    ok (
        steady (
          if growing
          then lt_real i.tolerance current_bar && is_positive relation
          else (lt_real i.tolerance current_bar && lt_real i.tolerance previous_bar)
            && is_negative relation))
