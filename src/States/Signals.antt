-- ===== src/States/Signals.antt =====
-- The pure evaluators of backend/app/states/definitions.py, over an abstract kind of number.
use apanel.Base.{
  nat_equality, bool_equality, pair_equality, option_equality, Text, text_equality, ℕ, ◌+◌, ◌-◌,
  ◌*◌, Bool, true, false, not, ◌&&◌, none, some, List, [], ◌∷◌, leb, if◌then◌else◌, ◌>>=◌, Result,
  ok, err,
}
use apanel.Base.Texts.{text, starts_with}
use apanel.Base.Dict.{Dict, get}
use apanel.Base.Number.{Number}
use apanel.States.Values.{StateError, missing_values}
use apanel.States.Snapshot.{IndicatorSnapshot}

-- Evaluator output before the edge-trigger history is applied.
pub record StateSignal : Type 0 where
  pub active : Bool
  pub edge : Bool

-- The integers -1, 0 and 1 that `_comparison` returns.
pub data Sign : Type 0 where
  negative none_of_both positive : Sign

abbrev pub is_positive : Sign → Bool
is_positive positive = true
is_positive _ = false

abbrev pub is_negative : Sign → Bool
is_negative negative = true
is_negative _ = false

abbrev pub opposite : Sign → Sign
opposite positive = negative
opposite none_of_both = none_of_both
opposite negative = positive

module _ {F : Type 0} where
  -- `_value`: the first of the names that the snapshot has
  unfoldable pub value : IndicatorSnapshot F → List Text → Result StateError F
  value s [] = err (missing_values (text "missing_values"))
  value s (name ∷ names) =
      let others = value s names in elim (get s.values name) [ some x ↦ ok x | none ↦ others ]

  -- `_values`
  unfoldable pub values : IndicatorSnapshot F → List Text → Result StateError (List F)
  unfolding value
  values s [] = ok []
  values s (name ∷ names) = do x ← value s (name ∷ []); xs ← values s names; ok (x ∷ xs)

-- The digits of a key, and whether there is one.
unfoldable pub digits_of : Text → ℕ × Bool → ℕ × Bool
digits_of [] acc = acc
digits_of (c ∷ s) (n, found) =
    digits_of s (if leb b'0' c && leb c b'9' then (n * 10 + (c - b'0'), true) else (n, found))

module _ {F : Type 0} where
  -- `candidates`: the periods of the keys `ma{period}` with their values
  unfoldable pub period_candidates : Dict Text F → List (ℕ × F)
  unfolding digits_of starts_with
  period_candidates [] = []
  period_candidates ((key, x) ∷ d) =
      let others = period_candidates d in
      let digits = digits_of key (0, false) in
      if digits.1 && starts_with (text "ma") key then (digits.0, x) ∷ others else others

  -- one step of the stable `candidates.sort`
  unfoldable pub insert_candidate : ℕ × F → List (ℕ × F) → List (ℕ × F)
  insert_candidate p [] = p ∷ []
  insert_candidate p (q ∷ l) = if leb p.0 q.0 then p ∷ q ∷ l else q ∷ insert_candidate p l

  unfoldable pub sort_candidates : List (ℕ × F) → List (ℕ × F)
  unfolding insert_candidate
  sort_candidates [] = []
  sort_candidates (p ∷ l) = insert_candidate p (sort_candidates l)

  abbrev first_two : List (ℕ × F) → Result StateError (F × F)
  first_two (p ∷ q ∷ _) = ok (p.1, q.1)
  first_two _ = err (missing_values (text "missing_values"))

  abbrev both : Result StateError F → Result StateError F → Result StateError (F × F)
  both a b = a >>= λ x. b >>= λ y. ok (x, y)

  abbrev or_on_error :
      Result StateError (F × F) → Result StateError (F × F) → Result StateError (F × F)
  or_on_error (ok p) other = ok p
  or_on_error (err _) other = other

  -- `_ma_pair`: the named pairs first, then the two smallest periods
  unfoldable pub ma_pair : IndicatorSnapshot F → Result StateError (F × F)
  unfolding value period_candidates sort_candidates
  ma_pair s =
      or_on_error
        (both (value s (text "short" ∷ text "fast" ∷ text "ma_short" ∷ text "fast_ma" ∷ []))
          (value s (text "long" ∷ text "slow" ∷ text "ma_long" ∷ text "slow_ma" ∷ [])))
        (or_on_error (both (value s (text "ma5" ∷ [])) (value s (text "ma10" ∷ [])))
          (first_two (sort_candidates (period_candidates s.values))))

unfoldable pub cross_up : Sign → Sign → StateSignal
cross_up current previous = record {
  active = is_positive current;
  edge = is_positive current && not (is_positive previous);
}

unfoldable pub cross_down : Sign → Sign → StateSignal
cross_down current previous = record {
  active = is_negative current;
  edge = is_negative current && not (is_negative previous);
}

-- A state without an edge of its own: `StateSignal(active, active)`.
abbrev pub steady : Bool → StateSignal
steady active = record { active = active; edge = active }

module _ (number : Number) where
  open number use {Real, zero_real, sub, div, abs, ltb as lt_real, leb as le_real}

  unfoldable pub comparison : Real → Real → Real → Sign
  comparison left right tolerance =
      if le_real (abs (sub left right)) tolerance
      then none_of_both
      else if lt_real right left
      then positive
      else negative
