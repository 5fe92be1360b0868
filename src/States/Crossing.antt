-- ===== src/States/Crossing.antt =====
-- What the evaluators decide: opposite states exclude one another, and an edge is a change.
use apanel.Base.{
  Text, ◌≡◌, refl, ◌≢◌, Bool, true, false, not, ◌&&◌, some, List, [], ◌∷◌, arith, or_else, all,
  >>=-eq-ok, ok,
}
use apanel.Base.Number.{Number}
use apanel.States.Snapshot.{IndicatorSnapshot, PriceSnapshot}
use apanel.States.Signals.{
  is_positive, is_negative, opposite, values, cross_up, cross_down, comparison, StateSignal,
}
use apanel.States.Evaluators.{
  ma_cross, field_cross, directions, all_direction, boll_break, macd_red_bar, Inputs,
}

module _ (number : Number) where
  open number use {Real, zero_real, ltb as lt_real}

  -- Comparing two numbers in the other order gives the opposite sign, for a tolerance that is not
  -- negative.
  comparison_flip :
      (a b tolerance : Real)
      → lt_real tolerance zero_real ≡ false
      → comparison number a b tolerance ≡ opposite (comparison number b a tolerance)
  unfolding comparison
  comparison_flip a b t h = ground (
    arith,
    number.abs-sub_comm a b,
    number.ltb_asym a b,
    number.ltb_asym b a,
    number.abs-sub_zero a b,
    number.leb-not_ltb (number.abs (number.sub a b)) t,
    number.ltb_cotrans t zero_real (number.abs (number.sub a b)),
  )

  -- On the same two observations MA_CROSS_UP and MA_CROSS_DOWN are never both active.
  pub ma_cross_exclusive :
      (i : Inputs Real) (s t : StateSignal)
      → ma_cross number true i ≡ ok s
      → ma_cross number false i ≡ ok t
      → s.active && t.active ≡ false
  unfolding ma_cross cross_up cross_down
  ma_cross_exclusive i s t p q = ground arith

  -- MA_CROSS_UP and MA_CROSS_DOWN have an edge exactly on the days on which their active bit goes
  -- from off to on: with the day before as `j`, at the same tolerance.
  pub ma_cross_edge :
      (up : Bool) (i j : Inputs Real) (s t : StateSignal)
      → j.current ≡ i.previous
      → j.tolerance ≡ i.tolerance
      → ma_cross number up i ≡ ok s
      → ma_cross number up j ≡ ok t
      → s.edge ≡ s.active && not t.active
  unfolding ma_cross cross_up cross_down
  ma_cross_edge true i j s t c e p q = ground arith
  ma_cross_edge false i j s t c e p q = ground arith

  field_cross_edge :
      (first second : Text) (up : Bool) (i j : Inputs Real) (s t : StateSignal)
      → j.current ≡ i.previous
      → j.tolerance ≡ i.tolerance
      → field_cross number first second up i ≡ ok s
      → field_cross number first second up j ≡ ok t
      → s.edge ≡ s.active && not t.active
  unfolding field_cross cross_up cross_down
  field_cross_edge first second true i j s t c e p q = ground arith
  field_cross_edge first second false i j s t c e p q = ground arith

  values_nonempty :
      (s : IndicatorSnapshot Real) (f : Text) (fields : List Text) (xs : List Real)
      → values s (f ∷ fields) ≡ ok xs
      → xs ≢ []
  unfolding values
  values_nonempty s f fields xs p = ground arith

  -- `comparisons` cannot all be positive and all be negative, unless there is none.
  directions_exclusive :
      (xs ys : List Real) (tolerance : Real)
      → xs ≢ []
      → ys ≢ []
      → all is_positive (directions number xs ys tolerance)
          && all is_negative (directions number xs ys tolerance)
        ≡ false
  unfolding directions
  directions_exclusive [] ys t h k = absurd (h refl)
  directions_exclusive (x ∷ xs) [] t h k = absurd (k refl)
  directions_exclusive (x ∷ xs) (y ∷ ys) t h k = ground arith

  -- Of the states that ask all of their fields to rise and to fall, at most one is active, given
  -- that they name a field (as KDJ_ALL_RISING, KDJ_ALL_FALLING and the BOLL pair do).
  pub all_direction_exclusive :
      (f : Text) (fields : List Text) (i : Inputs Real) (s t : StateSignal)
      → all_direction number (f ∷ fields) true i ≡ ok s
      → all_direction number (f ∷ fields) false i ≡ ok t
      → s.active && t.active ≡ false
  unfolding all_direction
  all_direction_exclusive f fields i s t p q =
      let (cs, c, p') = >>=-eq-ok (values i.current (f ∷ fields)) _ p in
      let (ps, d, p'') = >>=-eq-ok (values i.previous (f ∷ fields)) _ p' in
      ground (
        arith,
        directions_exclusive cs ps i.tolerance (values_nonempty i.current f fields cs c)
            (values_nonempty i.previous f fields ps d),
      )

  -- A red bar is never growing and shrinking on the same two observations, and either state needs a
  -- bar above the tolerance.
  pub macd_red_bar_exclusive :
      (i : Inputs Real) (s t : StateSignal)
      → macd_red_bar number true i ≡ ok s
      → macd_red_bar number false i ≡ ok t
      → s.active && t.active ≡ false
  unfolding macd_red_bar
  macd_red_bar_exclusive i s t p q = ground arith

  -- BOLL_BREAK_UPPER and BOLL_BREAK_LOWER have an edge exactly when the close moved past the band
  -- since the day before: `j` is that day, with the price from which day `i` counts.
  pub boll_break_edge :
      (upper : Bool) (i j : Inputs Real) (p q : PriceSnapshot Real) (prior : Real)
      (s t : StateSignal)
      → j.current ≡ i.previous
      → j.tolerance ≡ i.tolerance
      → i.price ≡ some p
      → or_else i.previous_price p.previous ≡ some prior
      → j.price ≡ some q
      → q.current ≡ prior
      → boll_break number upper i ≡ ok s
      → boll_break number upper j ≡ ok t
      → s.edge ≡ s.active && not t.active
  unfolding boll_break cross_up cross_down
  boll_break_edge true i j p q prior s t c e a b a' b' x y = ground arith
  boll_break_edge false i j p q prior s t c e a b a' b' x y = ground arith
