-- ===== src/Sync/Symbols.antt =====
-- `_canonicalize_symbols` and the results of a synchronization, by symbol.
use apanel.Base.{
  nat_equality, bool_equality, pair_equality, option_equality, Text, text_equality, ℕ, Option, none,
  some, List, [], ◌∷◌, ◌++◌, if◌then◌else◌, Result, err, ok,
}
use apanel.Base.Dict.{Dict, get, put, has}
use apanel.Base.Texts.{text, strip, is_empty}
use apanel.Sync.Failures.{
  sync_error, failed_item, fetched_item, another, Raised, SyncError, SyncItemResult,
}

abbrev pub Results : Type 0
Results = Dict Text SyncItemResult

-- A value given for a symbol: a text, another object with a text for its `symbol`, or none of these.
pub data Raw : Type 0 where
  raw_text : Text → Raw
  raw_object : Text → Raw
  raw_other : Raw

module _ (normalize_symbol : Raw → Result Raised Text) where
  -- `_best_effort_symbol`
  unfoldable pub best_effort_symbol : Raw → Text
  unfolding strip
  best_effort_symbol (raw_text t) = elim (normalize_symbol (raw_text t)) [
    | ok symbol ↦ symbol
    | err x ↦ (let s = strip t in if is_empty s then text "<invalid>" else s)
  ]
  best_effort_symbol (raw_object t) = t
  best_effort_symbol raw_other = text "<invalid>"

  abbrev pub set_default : Results → Text → SyncItemResult → Results
  unfolding has put
  set_default d k v = if has d k then d else put d k v

  -- The loop, with the symbols and the results that it has gathered
  unfoldable pub canonicalize : List Raw → List Text × Results → List Text × Results
  unfolding has put best_effort_symbol sync_error
  canonicalize [] done = done
  canonicalize (raw ∷ raws) (symbols, results) = elim (normalize_symbol raw) [
    | err x ↦
        (let symbol = best_effort_symbol raw in
          canonicalize raws
            (symbols, set_default results symbol (failed_item symbol (sync_error x))))
    | ok symbol ↦
        canonicalize raws (if has results symbol then symbols else symbols ++ symbol ∷ [], results)
  ]

-- `results[symbol] = SyncItemResult(symbol=symbol, status="failed", error=...)` for several symbols
unfoldable pub fail_all : List Text → SyncError → Results → Results
unfolding put
fail_all [] e results = results
fail_all (symbol ∷ symbols) e results =
    fail_all symbols e (put results symbol (failed_item symbol e))

-- The same for the symbols that were singled out
unfoldable pub fail_each : Dict Text Raised → Results → Results
unfolding put sync_error
fail_each [] results = results
fail_each ((symbol, x) ∷ errors) results =
    fail_each errors (put results symbol (failed_item symbol (sync_error x)))

-- The item after the call of the repository: `n` is what it counts as persisted if that returned.
abbrev pub outcome_item :
    (SyncItemResult → ℕ) → Text → Option SyncError → SyncItemResult → SyncItemResult
outcome_item n symbol none previous = record (fetched_item symbol previous.fetched) {
  persisted = n previous;
}
outcome_item n symbol (some e) previous = record (failed_item symbol e) {
  fetched = previous.fetched;
}

-- `results[symbol]`, which raises KeyError on an unknown symbol
abbrev key_error : Text → Raised
key_error symbol = record { kind = another; message = symbol; class_name = text "KeyError" }

-- `for symbol, error in persisted.items()`
unfoldable pub record_outcomes :
    (SyncItemResult → ℕ) → Dict Text (Option SyncError) → Results → Result Raised Results
unfolding get put
record_outcomes n [] results = ok results
record_outcomes n ((symbol, error) ∷ outcomes) results = elim (get results symbol) [
  | none ↦ err (key_error symbol)
  | some previous ↦
      record_outcomes n outcomes (put results symbol (outcome_item n symbol error previous))
]
