-- ===== src/States/Runs.antt =====
-- Tests of the engine and the registry on integers, and their theorems at concrete inputs.
use apanel.Base.{
  nat_equality, bool_equality, pair_equality, option_equality, Text, text_equality, ◌≡◌, refl, Bool,
  true, false, none, some, List, [], ◌∷◌, map, length, or_value, ◌>>=◌, ok,
}
use apanel.Base.Texts.{text}
use apanel.Base.Dict.{get, put, has}
use apanel.Base.Integers.{integers, ℤ, pos}
use apanel.States.Values.{null}
use apanel.States.Snapshot.{IndicatorSnapshot}
use apanel.States.Signals.{ma_pair, comparison}
use apanel.States.Evaluators.{ma_cross}
use apanel.States.Definitions.{details, default_definitions, signal, StateDefinition}
use apanel.States.Registry.{
  empty_registry, register, register_all, get_state, definitions, Registry,
}
use apanel.States.Engine.{
  reason_for, evaluate_definition, evaluate_state, run, snapshot, no_price, Request, Engine,
}
use apanel.States.Pass.{evaluate_codes, evaluate, one}
use apanel.States.Alone.{alone, evaluate_codes-alone}
use apanel.States.Edges.{Alternates, run-Alternates}
use apanel.States.Codes.{register-IsWellFormed, IsWellFormed}
use apanel.States.Listed.{register_all-definitions}
use apanel.States.Examples.{below, above}

abbrev built_in : Registry ℤ
built_in =
    or_value (register_all (default_definitions integers) empty_registry) (λ _. empty_registry)

-- The eighteen built-in codes register without a collision, in the order of the source.
built_in_codes : length built_in.canonical_codes ≡ 18
unfolding register_all default_definitions has get put
built_in_codes = refl

abbrev fresh : Engine integers
fresh = record {
  registry = built_in;
  tolerance = pos 0;
  last_active = ((text "600000", text "MA_CROSS_UP"), false) ∷ [];
}

abbrev ask : IndicatorSnapshot ℤ → IndicatorSnapshot ℤ → Text → Request ℤ
ask current previous stream = record {
  code = text " ma_cross_up";
  current = snapshot current;
  previous = some (snapshot previous);
  price = no_price;
  current_price = no_price;
  previous_price = null;
  tolerance = null;
  stream_id = stream;
  security_id = [];
  symbol = [];
  previous_active = none;
}

abbrev week : List (Request ℤ)
week =
    ask above below (text "600000")
    ∷ ask above above (text "000001")
    ∷ ask above above (text "600000")
    ∷ []

-- The crossing is reported once, and the day after it is active without a transition.
week_reports :
    map {B = Bool × Bool} (λ o. (o.1.active, o.1.transition)) (run integers week fresh)
    ≡ (true, true) ∷ (true, false) ∷ (true, false) ∷ []
unfolding run evaluate_state register_all default_definitions get put comparison ma_pair has
week_reports = refl

run-Alternates_example :
    Alternates integers (text "600000", text "MA_CROSS_UP") false (run integers week fresh)
unfolding get
run-Alternates_example =
    run-Alternates integers (text "600000", text "MA_CROSS_UP") false week fresh
      (refl, (refl, (refl, tt))) refl

abbrev bad_request : Request ℤ
bad_request = record (ask above below (text "600000")) { previous = none }

abbrev cross_definition : StateDefinition ℤ
cross_definition = record {
  code = text "MA_CROSS_UP";
  name = text "up";
  level = text "POSITIVE";
  indicator_type = text "MA";
  metadata = details (text "edge") [] (text "cross_up");
  evaluator = λ i. ma_cross integers true i >>= λ s. ok (signal s);
}

-- Without a previous day the state is inactive and says why.
first_day_reason :
    (evaluate_definition integers cross_definition (pos 0) bad_request fresh).0.reason
    ≡ some (text "missing_previous")
unfolding evaluate_definition reason_for
first_day_reason = refl

abbrev one_state : Registry ℤ
one_state = or_value (register cross_definition [] false empty_registry) (λ _. empty_registry)

abbrev alias : List Text
alias = text " golden" ∷ []

abbrev plugin : StateDefinition ℤ
plugin = record cross_definition { code = text "MY_CROSS" }

abbrev two_states : Registry ℤ
two_states = or_value (register plugin alias false one_state) (λ _. empty_registry)

second_registration : register plugin alias false one_state ≡ ok two_states
unfolding register has get put
second_registration = refl

one_state-IsWellFormed : IsWellFormed one_state
unfolding register has get put
one_state-IsWellFormed = record { defined = (refl, tt); distinct = (refl, tt) }

register-IsWellFormed_example : IsWellFormed two_states
register-IsWellFormed_example =
    register-IsWellFormed plugin alias false one_state two_states one_state-IsWellFormed
      second_registration

abbrev listed : Registry ℤ
listed =
    or_value (register_all (cross_definition ∷ plugin ∷ []) empty_registry) (λ _. empty_registry)

both_register : register_all (cross_definition ∷ plugin ∷ []) empty_registry ≡ ok listed
unfolding register_all has get put
both_register = refl

register_all-definitions_example : definitions listed ≡ some (cross_definition ∷ plugin ∷ [])
register_all-definitions_example =
    register_all-definitions (cross_definition ∷ plugin ∷ []) listed both_register

abbrev two_codes : List Text
two_codes = text "MA_CROSS_UP" ∷ text "ma_cross_down" ∷ []

evaluate_codes-alone_example :
    (evaluate_codes integers two_codes (ask above below (text "600000")) fresh).0
    ≡ alone integers two_codes (ask above below (text "600000")) fresh
unfolding get_state register_all default_definitions has get put
evaluate_codes-alone_example =
    evaluate_codes-alone integers two_codes (ask above below (text "600000")) fresh
      ((refl, tt), (tt, tt))

-- Without a list of codes, a pass evaluates the states of the observation's indicator.
pass_reports :
    (evaluate integers
        (one (snapshot above) (some (snapshot below)))
        none
        (ask above below (text "600000"))
        fresh).0
      >>= (λ l. ok (map (λ s. s.transition) l))
    ≡ ok (true ∷ false ∷ false ∷ true ∷ [])
unfolding evaluate register_all default_definitions get put comparison ma_pair has ma_cross
pass_reports = refl
