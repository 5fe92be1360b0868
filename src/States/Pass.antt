-- ===== src/States/Pass.antt =====
-- `StateEngine.evaluate` of backend/app/states/engine.py: one pass over several states.
use apanel.Base.{
  nat_equality, bool_equality, pair_equality, option_equality, ◌=?◌, Text, text_equality, Bool,
  ◌||◌, Option, none, some, List, [], ◌∷◌, ◌++◌, map, if◌then◌else◌, or_else, get_or_else, ◌>>=◌,
  Result, err, ok,
}
use apanel.Base.Texts.{text, upper}
use apanel.Base.Dict.{Dict, get, has}
use apanel.Base.Number.{Number}
use apanel.States.Values.{str, Field, scalar, mapping}
use apanel.States.Snapshot.{as_scalar, IndicatorSnapshot}
use apanel.States.Definitions.{StateDefinition}
use apanel.States.Registry.{definitions}
use apanel.States.Engine.{
  as_snapshot, evaluate_state, Observed, snapshot, mapped, StateResult, EngineError,
  missing_definition, Request, Engine,
}

-- What `evaluate` is given: one observation, or one for each of several indicators. A mapping without
-- an envelope key is the second.
pub data Given (F : Type 0) : Type 0 where
  one : Observed F → Option (Observed F) → Given F
  many : List (Text × Observed F) → List (Text × Observed F) → Given F

module _ {F : Type 0} where
  -- `_looks_like_snapshot`
  unfoldable pub looks_like_snapshot : Dict Text (Field F) → Bool
  unfolding has
  looks_like_snapshot d =
      has d (text "indicator")
      || has d (text "indicator_type")
      || has d (text "type")
      || has d (text "values")

  -- A mapping of values alone gets an envelope.
  unfoldable pub enveloped : Text → Observed F → Observed F
  unfolding looks_like_snapshot
  enveloped indicator (mapped d) =
      if looks_like_snapshot d
      then mapped d
      else mapped (
          (text "indicator", scalar (str indicator))
          ∷ (text "values", mapping (map (λ (k, v). (str k, as_scalar v)) d))
          ∷ [])
  enveloped indicator o = o

  -- The previous observation of an indicator, under its own name or else one that differs by case.
  unfoldable pub same_upper : Text → List (Text × Observed F) → Option (Observed F)
  unfolding upper
  same_upper indicator [] = none
  same_upper indicator ((k, o) ∷ rest) =
      let others = same_upper indicator rest in
      if upper k =? upper indicator then some o else others

  unfoldable pub prior_of : Text → List (Text × Observed F) → Option (Observed F)
  unfolding same_upper get
  prior_of indicator previous = or_else (get previous indicator) (same_upper indicator previous)

  abbrev pub with_code : Request F → Text → Request F
  with_code r c = record r { code = c }

  abbrev pub about : Request F → Observed F → Option (Observed F) → Request F
  about r current previous = record r { current = current; previous = previous }

  abbrev pub codes_of : List (StateDefinition F) → List Text
  codes_of = map (λ d. d.code)

  -- The definitions of one indicator.
  unfoldable pub of_indicator : Text → List (StateDefinition F) → List (StateDefinition F)
  of_indicator name [] = []
  of_indicator name (d ∷ ds) =
      let rest = of_indicator name ds in if d.indicator_type =? name then d ∷ rest else rest

module _ (number : Number) where
  open number use {Real}

  -- What a pass raised or returned, and the engine after it: what was evaluated before an exception
  -- stays in the engine.
  abbrev pub Passed : Type 0
  Passed = Result EngineError (List (StateResult Real)) × Engine number

  -- `tuple(self.evaluate_state(code, ...) for code in codes)`
  unfoldable pub evaluate_codes : List Text → Request Real → Engine number → Passed
  unfolding evaluate_state
  evaluate_codes [] r e = (ok [], e)
  evaluate_codes (c ∷ cs) r e = elim (evaluate_state number (with_code r c) e) [
    | err x ↦ (err x, e)
    | ok (s, next) ↦ let (rest, last) = evaluate_codes cs r next in (rest >>= λ l. ok (s ∷ l), last)
  ]

  -- The codes of a pass that names none; `none` is the `KeyError` of `definitions`.
  unfoldable pub default_codes : Engine number → IndicatorSnapshot Real → Option (List Text)
  unfolding definitions of_indicator
  default_codes e s = elim (definitions e.registry) [
    | none ↦ none
    | some ds ↦ some (codes_of (of_indicator s.indicator ds))
  ]

  unfoldable pub evaluate_one : Option (List Text) → Request Real → Engine number → Passed
  unfolding evaluate_codes default_codes as_snapshot
  evaluate_one codes r e = elim (as_snapshot r.current) [
    | err _ ↦ evaluate_codes (get_or_else codes e.registry.canonical_codes) r e
    | ok s ↦ elim (or_else codes (default_codes e s)) [
      | none ↦ (err missing_definition, e)
      | some cs ↦ evaluate_codes cs (about r (snapshot s) r.previous) e
    ]
  ]

  -- The loop over the indicators of a mapping
  unfoldable pub evaluate_many :
      List (Text × Observed Real)
      → List (Text × Observed Real)
      → Option (List Text)
      → Request Real
      → Engine number
      → Passed
  unfolding evaluate_one enveloped prior_of
  evaluate_many [] previous codes r e = (ok [], e)
  evaluate_many ((name, o) ∷ rest) previous codes r e =
      let prior : Option (Observed Real) = elim (prior_of name previous) [
        | none ↦ none
        | some p ↦ some (enveloped name p)
      ] in
      let done = evaluate_one codes (about r (enveloped name o) prior) e in
      elim done.0 [
        | err x ↦ (err x, done.1)
        | ok l ↦
            let (later, last) = evaluate_many rest previous codes r done.1 in
            (later >>= λ k. ok (l ++ k), last)
      ]

  -- `evaluate`; the request's own code and observations are not read
  unfoldable pub evaluate : Given Real → Option (List Text) → Request Real → Engine number → Passed
  unfolding evaluate_many
  evaluate (one current previous) codes r e = evaluate_one codes (about r current previous) e
  evaluate (many current previous) codes r e = evaluate_many current previous codes r e
