-- ===== src/Streams/Fenced.antt =====
-- The transactions of several synchronizations on the market, in any order, and which of them pass
-- the fence.
use apanel.Base.{
  Equality, nat_equality, bool_equality, pair_equality, option_equality, Text, text_equality, ℕ,
  ◌≡◌, Bool, Option, List, ok,
}
use apanel.Base.Dict.{Dict}
use apanel.Streams.Records.{Series}
use apanel.Streams.Fences.{
  Market, changed_at, reserve_sync, complete_sync, Batch, upsert_fenced, reconcile_revision,
}
use apanel.Streams.Publication.{mark_demand_changed, materialize, Indicators, AnalysisResult}

module _ {B O : Type 0} where
  abbrev pub generation : Market B O → Text → ℕ
  generation m s = (m s).stream.sync_generation

module _ {B O : Type 0} ⦃same : Equality B⦄ (indicators : Indicators B O) where
  -- A transaction that commits: of any synchronization, fenced or not, or of the backend.
  pub data Commit (m : Market B O) : Market B O → Type 0 where
    reserves : (symbols : List Text) → Commit m (reserve_sync symbols m).1
    upserts :
        (generations : Option (Dict Text ℕ)) (revisions : Dict Text Text) (batch : Batch B)
        (n : Market B O)
        → upsert_fenced generations revisions batch m ≡ ok n
        → Commit m n
    reconciles :
        (generations : Option (Dict Text ℕ)) (revision : Option Text) (s : Text)
        (records : List (ℕ × B)) (start end : ℕ) (n : Market B O)
        → reconcile_revision generations revision s records start end m ≡ ok n
        → Commit m n
    completes :
        (generations : Dict Text ℕ) (depth : ℕ) (symbols : List Text) (n : Market B O)
        → complete_sync generations depth symbols m ≡ ok n
        → Commit m n
    demands : (s : Text) → Commit m (changed_at s (mark_demand_changed (m s)) m)
    materializes :
        (s : Text) (force_history : Bool) (key : Text) (last_day : Option ℕ) (r : AnalysisResult)
        (x : Series B O)
        → materialize indicators force_history key last_day (m s) ≡ ok (r, x)
        → Commit m (changed_at s x m)

  pub data Commits (m : Market B O) : Market B O → Type 0 where
    start : Commits m m
    later : {n k : Market B O} → Commits m n → Commit n k → Commits m k
