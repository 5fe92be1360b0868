-- ===== src/Streams/Records.antt =====
-- `AnalysisStream` of backend/app/models, the rows that it guards, and what the hub reports as changed.
use apanel.Base.{Text, ℕ, max, min, ◌+◌, Option, none, some, List, ltb, if◌then◌else◌}
use apanel.Base.Dict.{Dict}
use apanel.Base.Integers.{ℤ, negsuc}

-- A row of `analysis_streams`. Days are those since the epoch. A series without a row is one with the
-- row that `lock_streams` inserts.
pub record AnalysisStream : Type 0 where
  pub source_revision : ℕ
  pub sync_generation : ℕ
  pub demand_generation : ℕ
  pub published_revision : ℤ
  pub published_demand_generation : ℤ
  pub demand_key : Option Text
  pub dirty_from : Option ℕ
  pub latest_bar_date : Option ℕ
  pub indicator_through : Option ℕ
  pub state_through : Option ℕ
  pub history_depth : ℕ

abbrev pub new_stream : AnalysisStream
new_stream = record {
  source_revision = 0;
  sync_generation = 0;
  demand_generation = 0;
  published_revision = negsuc 0;
  published_demand_generation = negsuc 0;
  demand_key = none;
  dirty_from = none;
  latest_bar_date = none;
  indicator_through = none;
  state_through = none;
  history_depth = 0;
}

-- What `materialize` asks for after the indicators: `StateService.rebuild_history` from a day or the
-- first on and to a day, or `StateEventRepository.publish` of no observation, from the first day on.
pub data StateCall : Type 0 where
  rebuilt_states : Option ℕ → ℕ → StateCall
  cleared_timeline : ℕ → StateCall

-- The bars by day, the hash of the adjustment revision, the indicator snapshots by day, without the
-- `_source` in their parameters, and the calls that were made for the states, the last one last.
pub record Series (B O : Type 0) : Type 0 where
  pub stream : AnalysisStream
  pub bars : Dict ℕ B
  pub revision_hash : Option Text
  pub rows : ℕ → Option O
  pub state_calls : List StateCall

-- The first and the last day of some changed bars
abbrev pub Changed : Type 0
Changed = Option (ℕ × ℕ)

-- `combine_changed`, and the `max` beside it
unfoldable pub combine_changed : Changed → ℕ → Changed
combine_changed none day = some (day, day)
combine_changed (some (first, latest)) day = some (min first day, max latest day)

unfoldable pub earliest : Option ℕ → ℕ → Option ℕ
earliest none day = some day
earliest (some old) day = if ltb day old then some day else some old

unfoldable pub last_of : Option ℕ → ℕ → Option ℕ
last_of none day = some day
last_of (some old) day = if ltb old day then some day else some old

-- `invalidate_changed`
unfoldable pub invalidate_changed : Changed → AnalysisStream → AnalysisStream
unfolding earliest last_of
invalidate_changed none s = s
invalidate_changed (some (first, latest)) s = record s {
  source_revision = s.source_revision + 1;
  dirty_from = earliest s.dirty_from first;
  latest_bar_date = last_of s.latest_bar_date latest;
}
