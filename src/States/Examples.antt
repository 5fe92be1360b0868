-- ===== src/States/Examples.antt =====
-- Tests of the evaluators on integers, and their theorems at concrete inputs.
use apanel.Base.{
  nat_equality, bool_equality, pair_equality, option_equality, Text, text_equality, ◌≡◌, refl, Bool,
  true, false, not, ◌&&◌, none, some, [], ◌∷◌, Result, ok,
}
use apanel.Base.Texts.{text}
use apanel.Base.Dict.{Dict, get}
use apanel.Base.Integers.{integers, ℤ, pos}
use apanel.States.Values.{StateError}
use apanel.States.Snapshot.{IndicatorSnapshot}
use apanel.States.Signals.{value, values, ma_pair, steady, comparison, StateSignal}
use apanel.States.Evaluators.{ma_cross, directions, all_direction, boll_break, macd_red_bar, Inputs}
use apanel.States.Crossing.{ma_cross_edge}

abbrev pub ma_values : ℤ → ℤ → Dict Text ℤ
ma_values a b = (text "ma5", a) ∷ (text "ma10", b) ∷ []

abbrev pub ma_day : ℤ → ℤ → IndicatorSnapshot ℤ
ma_day a b = record {
  indicator = text "MA";
  values = ma_values a b;
  previous_values = none;
  parameters = [];
  metadata = [];
}

abbrev pub ma_inputs : IndicatorSnapshot ℤ → IndicatorSnapshot ℤ → Inputs ℤ
ma_inputs current previous = record {
  current = current;
  previous = previous;
  price = none;
  previous_price = none;
  tolerance = pos 0;
}

abbrev pub below : IndicatorSnapshot ℤ
below = ma_day (pos 9) (pos 10)

abbrev pub above : IndicatorSnapshot ℤ
above = ma_day (pos 12) (pos 10)

crossed :
    ma_cross integers true (ma_inputs above below) ≡ ok (record { active = true; edge = true })
unfolding ma_cross ma_pair value get comparison
crossed = refl

not_down :
    ma_cross integers false (ma_inputs above below) ≡ ok (record { active = false; edge = false })
unfolding ma_cross ma_pair value get comparison
not_down = refl

day_before :
    ma_cross integers true (ma_inputs below below) ≡ ok (record { active = false; edge = false })
unfolding ma_cross ma_pair value get comparison
day_before = refl

ma_cross_edge_example : true ≡ true && not false
ma_cross_edge_example =
    ma_cross_edge integers true (ma_inputs above below) (ma_inputs below below)
      (record { active = true; edge = true }) (record { active = false; edge = false }) refl refl
      crossed day_before

abbrev pub kdj_day : ℤ → IndicatorSnapshot ℤ
kdj_day n = record {
  indicator = text "KDJ";
  values = (text "k", n) ∷ (text "d", n) ∷ (text "j", n) ∷ [];
  previous_values = none;
  parameters = [];
  metadata = [];
}

abbrev kdj_rise : Bool → Result StateError StateSignal
kdj_rise rising =
    all_direction integers (text "k" ∷ text "d" ∷ text "j" ∷ []) rising
      (ma_inputs (kdj_day (pos 5)) (kdj_day (pos 4)))

rises : kdj_rise true ≡ ok (steady true)
unfolding all_direction values directions value get comparison
rises = refl

does_not_fall : kdj_rise false ≡ ok (steady false)
unfolding all_direction values directions value get comparison
does_not_fall = refl

abbrev pub bar_day : ℤ → IndicatorSnapshot ℤ
bar_day n = record {
  indicator = text "MACD";
  values = (text "bar", n) ∷ [];
  previous_values = none;
  parameters = [];
  metadata = [];
}

grows :
    macd_red_bar integers true (ma_inputs (bar_day (pos 5)) (bar_day (pos 2))) ≡ ok (steady true)
unfolding macd_red_bar value get comparison
grows = refl

does_not_shrink :
    macd_red_bar integers false (ma_inputs (bar_day (pos 5)) (bar_day (pos 2))) ≡ ok (steady false)
unfolding macd_red_bar value get comparison
does_not_shrink = refl

abbrev pub band_day : ℤ → IndicatorSnapshot ℤ
band_day n = record {
  indicator = text "BOLL";
  values = (text "upper", n) ∷ [];
  previous_values = none;
  parameters = [];
  metadata = [];
}

abbrev pub priced : IndicatorSnapshot ℤ → IndicatorSnapshot ℤ → ℤ → ℤ → Inputs ℤ
priced current previous close earlier = record {
  current = current;
  previous = previous;
  price = some (record { current = close; previous = some earlier });
  previous_price = some earlier;
  tolerance = pos 0;
}

abbrev break_day : Inputs ℤ
break_day = priced (band_day (pos 20)) (band_day (pos 19)) (pos 21) (pos 18)

abbrev calm_day : Inputs ℤ
calm_day = priced (band_day (pos 19)) (band_day (pos 19)) (pos 18) (pos 18)

breaks : boll_break integers true break_day ≡ ok (record { active = true; edge = true })
unfolding boll_break value get comparison
breaks = refl

calm : boll_break integers true calm_day ≡ ok (record { active = false; edge = false })
unfolding boll_break value get comparison
calm = refl
