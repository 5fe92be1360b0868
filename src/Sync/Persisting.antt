-- ===== src/Sync/Persisting.antt =====
-- `_persist_with_isolation`.
use apanel.Base.{
  nat_equality, bool_equality, pair_equality, option_equality, Text, text_equality, Option, none,
  some, List, [], ◌∷◌, ◌++◌, map, if◌then◌else◌, get_or_else, Result, err, ok,
}
use apanel.Base.Dict.{Dict, get, put}
use apanel.Sync.Failures.{persistence_error, is_systemic_persistence_error, Call, Raised, SyncError}

module _ {R : Type 0} (key : R → Text) where
  -- `grouped.setdefault(key(record), []).append(record)`
  unfoldable pub grouped : List R → Dict Text (List R) → Dict Text (List R)
  unfolding get put
  grouped [] d = d
  grouped (r ∷ rs) d = grouped rs (put d (key r) (get_or_else (get d (key r)) [] ++ r ∷ []))

-- `{symbol: None for symbol in grouped}`
unfoldable pub no_errors : {R : Type 0} → Dict Text (List R) → Dict Text (Option SyncError)
no_errors = map (λ p. (p.0, none))

abbrev pub outcome : Result Raised (Unit {0}) → Option SyncError
outcome (ok _) = none
outcome (err x) = some (persistence_error x)

module _ {W R : Type 0} (upsert_many : List R → Call W (Unit {0})) where
  -- One call for each symbol
  unfoldable pub retry : Dict Text (List R) → W → Dict Text (Option SyncError) × W
  retry [] w = ([], w)
  retry ((symbol, records) ∷ rest) w =
      let (reply, v) = upsert_many records w in
      let (outcomes, u) = retry rest v in ((symbol, outcome reply) ∷ outcomes, u)

  abbrev pub persisted :
      Dict Text (List R)
      → Result Raised (Unit {0}) × W
      → Result Raised (Dict Text (Option SyncError)) × W
  persisted groups (ok _, w) = (ok (no_errors groups), w)
  persisted groups (err x, w) =
      let (outcomes, v) = retry groups w in
      if is_systemic_persistence_error x then (err x, w) else (ok outcomes, v)

  unfoldable pub persist_with_isolation :
      (R → Text) → List R → Call W (Dict Text (Option SyncError))
  persist_with_isolation key records w = persisted (grouped key records []) (upsert_many records w)
