-- ===== src/Streams/Publication.antt =====
-- backend/app/services/analysis_control.py, `AnalysisService.materialize`, and the end of
-- `IndicatorService._materialize` of backend/app/services/indicator_service.py, on one series.
use apanel.Base.{
  nat_equality, bool_equality, pair_equality, option_equality, ◌=?◌, Text, text_equality, ℕ, max,
  min, ◌+◌, Bool, true, false, not, ◌&&◌, ◌||◌, Option, none, some, [], ◌∷◌, ◌++◌, ltb, leb, ◌==◌,
  if◌then◌else◌, is_none, is_some, get_or_else, any, Result, err, ok,
}
use apanel.Base.Dict.{Dict, get, drop_keys}
use apanel.Base.Integers.{ℤ, pos, negsuc}
use apanel.Streams.Records.{
  Changed, AnalysisStream, StateCall, rebuilt_states, cleared_timeline, Series,
}
use apanel.Streams.Bars.{span}

pub data AnalysisError : Type 0 where
  data_not_found stale_target : AnalysisError

-- The bars up to a day
abbrev pub until : {B : Type 0} → ℕ → (ℕ → Option B) → ℕ → Option B
until d bars e = if leb e d then bars e else none

-- The calculators of a demand: the snapshots that they give to a day, of bars that are given by day, or
-- `none` where no calculator has a value yet.
pub record Indicators (B O : Type 0) : Type 0 where
  pub series : Text → (ℕ → Option B) → ℕ → Option O

-- The day is before the start of a rebuild.
abbrev pub is_early : Option ℕ → ℕ → Bool
is_early none d = false
is_early (some start) d = ltb d start

module _ {B O : Type 0} (indicators : Indicators B O) where
  -- The end of `IndicatorService._materialize`: the snapshots from a start to the last day are deleted,
  -- and those of the days with a bar are written, from the bars up to the last day.
  unfoldable pub rebuild_history :
      Text → Option ℕ → ℕ → (ℕ → Option B) → (ℕ → Option O) → ℕ → Option O
  rebuild_history key start latest bars rows d =
      if is_early start d || ltb latest d
      then rows d
      else if is_none (bars d)
      then none
      else indicators.series key (until latest bars) d

  -- Whether it writes a snapshot
  unfoldable pub writes_any : Text → Option ℕ → ℕ → Dict ℕ B → Bool
  unfolding get
  writes_any key start latest bars =
      any
        (λ p.
          not (is_early start p.0 || ltb latest p.0)
          && is_some (indicators.series key (until latest (get bars)) p.0))
        bars

module _ {B O : Type 0} where
  -- `mark_demand_changed`
  unfoldable pub mark_demand_changed : Series B O → Series B O
  mark_demand_changed x = record x {
    stream = record x.stream { demand_generation = x.stream.demand_generation + 1 };
  }

abbrev pub is_negative : ℤ → Bool
is_negative (pos n) = false
is_negative (negsuc n) = true

abbrev pub is_pos : ℤ → ℕ → Bool
is_pos (pos n) m = n == m
is_pos (negsuc n) m = false

unfoldable pub publication_is_current : AnalysisStream → Bool
publication_is_current s =
    (s.source_revision == 0 && is_negative s.published_revision)
    || (is_none s.dirty_from
        && is_pos s.published_revision s.source_revision
        && is_pos s.published_demand_generation s.demand_generation)

-- The first day after one day and up to another
unfoldable pub first_after : {B : Type 0} → ℕ → ℕ → Dict ℕ B → Option ℕ
unfolding span drop_keys
first_after through latest bars =
    elim (span (drop_keys (λ d. leb d through || ltb latest d) bars)) [
      | none ↦ none
      | some (first, _) ↦ some first
    ]

-- `AnalysisResult`, without the numbers of rows
pub record AnalysisResult : Type 0 where
  pub latest : ℕ
  pub source_revision : ℕ
  pub rebuilt : Bool

abbrev pub through_of : ℕ → AnalysisStream → ℕ
through_of first s = min (get_or_else s.indicator_through first) (get_or_else s.state_through first)

abbrev pub is_before : ℕ → Option ℕ → Bool
is_before latest none = false
is_before latest (some t) = ltb latest t

-- `end` as `last_day`, where one is given
unfoldable pub bounds : {B : Type 0} → Option ℕ → Dict ℕ B → Changed
unfolding span drop_keys
bounds none bars = span bars
bounds (some last_day) bars = span (drop_keys (λ d. ltb last_day d) bars)

module _ {B O : Type 0} (indicators : Indicators B O) where
  -- The end of the transaction, once the start is known: `none` is the first day.
  unfoldable pub publish : Text → Bool → Option ℕ → ℕ → Series B O → AnalysisResult × Series B O
  unfolding get rebuild_history writes_any
  publish key rebuilt start latest x =
      let s = x.stream in
      let state_call : StateCall =
        if writes_any indicators key start latest x.bars
        then rebuilt_states start latest
        else cleared_timeline latest in
      let known = max (get_or_else s.latest_bar_date latest) latest in
      (
        record { latest = latest; source_revision = s.source_revision; rebuilt = rebuilt },
        record x {
          rows = rebuild_history indicators key start latest (get x.bars) x.rows;
          state_calls = x.state_calls ++ state_call ∷ [];
          stream = record s {
            demand_key = some key;
            published_revision = pos s.source_revision;
            published_demand_generation = pos s.demand_generation;
            indicator_through = some latest;
            state_through = some latest;
            latest_bar_date = some known;
            dirty_from = if leb known latest then none else s.dirty_from;
          };
        },
      )

  -- Nothing is dirty and nothing asks for a rebuild
  unfoldable pub extend : Text → ℕ → ℕ → Series B O → AnalysisResult × Series B O
  unfolding publish first_after
  extend key first latest x =
      let s = x.stream in
      let through = through_of first s in
      let nothing_new : AnalysisResult × Series B O = (
        record { latest = latest; source_revision = s.source_revision; rebuilt = false },
        record x { stream = record s { published_demand_generation = pos s.demand_generation } },
      ) in
      if leb latest through && is_pos s.published_revision s.source_revision
      then nothing_new
      else publish key false (some (get_or_else (first_after through latest x.bars) first)) latest x

  unfoldable pub refresh : Bool → Text → ℕ → ℕ → Series B O → AnalysisResult × Series B O
  unfolding publish extend
  refresh force_history key first latest x =
      let s = x.stream in
      if force_history || not (s.demand_key =? some key) || is_negative s.published_revision
      then publish key true none latest x
      else elim s.dirty_from [
        | none ↦ extend key first latest x
        | some start ↦ publish key false (some start) latest x
      ]

  -- `key` is the hash of the demand that was collected under the lock of the stream.
  unfoldable pub materialize :
      Bool → Text → Option ℕ → Series B O → Result AnalysisError (AnalysisResult × Series B O)
  unfolding bounds refresh
  materialize force_history key last_day x = elim (bounds last_day x.bars) [
    | none ↦ err data_not_found
    | some (first, latest) ↦
        if is_before latest x.stream.state_through
        then err stale_target
        else ok (refresh force_history key first latest x)
  ]
