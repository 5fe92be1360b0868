-- ===== src/Streams/Examples.antt =====
-- A symbol whose indicator is a moving average, and the theorems at concrete inputs.
use apanel.Base.{
  nat_equality, bool_equality, pair_equality, option_equality, Text, text_equality, ℕ, zero, suc,
  ◌+◌, ◌/◌, ◌≤◌, ◌≡◌, refl, true, false, Option, none, some, List, [], ◌∷◌, map, arith, leb, Result,
  err, ok,
}
use apanel.Base.Dict.{Dict, get, put}
use apanel.Base.Texts.{text}
use apanel.Base.Slices.{is_in, unique}
use apanel.Streams.Records.{
  combine_changed, earliest, last_of, invalidate_changed, StateCall, rebuilt_states,
  cleared_timeline, Series,
}
use apanel.Streams.Bars.{upsert_bars, span, revised_changes, write_series}
use apanel.Streams.Fences.{
  Market, reserve_sync, complete_sync, Batch, write_all, upsert_fenced, superseded,
}
use apanel.Streams.Publication.{
  until, rebuild_history, writes_any, publication_is_current, is_before, bounds, publish, refresh,
  materialize, AnalysisError, Indicators, AnalysisResult,
}
use apanel.Streams.Steps.{new_series, steps_current, Step, Steps}
use apanel.Streams.Fenced.{Commits}
use apanel.Streams.Superseded.{superseded-writes_nothing, current-accepted}

abbrev with_bar : Option ℕ → List ℕ → List ℕ
with_bar none closes = closes
with_bar (some c) closes = c ∷ closes

-- The closes up to a day, the latest first
closes_until : ℕ → (ℕ → Option ℕ) → List ℕ
closes_until zero bars = with_bar (bars zero) []
closes_until (suc d) bars = with_bar (bars (suc d)) (closes_until d bars)

abbrev mean_of_two : List ℕ → Option ℕ
mean_of_two (a ∷ b ∷ closes) = some ((a + b) / 2)
mean_of_two _ = none

abbrev on_bar : Option ℕ → Option ℕ → Option ℕ
on_bar none mean = none
on_bar (some _) mean = mean

-- The moving average over two bars
abbrev moving_average : Indicators ℕ ℕ
moving_average = record {
  series = λ key bars d. on_bar (bars d) (mean_of_two (closes_until d bars));
}

closes_until-until :
    (d latest : ℕ) (bars : ℕ → Option ℕ)
    → d ≤ latest
    → closes_until d (until latest bars) ≡ closes_until d bars
unfolding closes_until
closes_until-until zero latest bars h =
    let early : leb 0 latest ≡ true = ground arith in rw early refl
closes_until-until (suc d) latest bars h =
    let early : leb (suc d) latest ≡ true = ground (arith, h) in
    rw (early, closes_until-until d latest bars (omega (arith, h))) refl

moving_average_causal :
    (key : Text) (bars : ℕ → Option ℕ) (d : ℕ)
    → on_bar (bars d) (mean_of_two (closes_until d bars))
      ≡ on_bar (until d bars d) (mean_of_two (closes_until d (until d bars)))
moving_average_causal key bars d =
    let today : leb d d ≡ true = ground arith in
    rw (today, closes_until-until d d bars (omega arith)) refl

abbrev maotai : Text
maotai = text "SH600519"

abbrev empty_market : Market ℕ ℕ
empty_market s = new_series

abbrev reserved_market : Market ℕ ℕ
unfolding reserve_sync
reserved_market = (reserve_sync (maotai ∷ []) empty_market).1

abbrev bars_of_may : List (ℕ × ℕ)
bars_of_may = (3, 30) ∷ (4, 40) ∷ []

-- Bars are written, published, one is restated, and published again.
abbrev written_series : Series ℕ ℕ
unfolding write_series
written_series = write_series none bars_of_may new_series

abbrev refreshed : Series ℕ ℕ → AnalysisResult × Series ℕ ℕ
unfolding refresh
refreshed x = refresh moving_average false (text "key") 3 4 x

abbrev published_series : Series ℕ ℕ
unfolding refreshed written_series
published_series = (refreshed written_series).1

abbrev restated_series : Series ℕ ℕ
unfolding write_series published_series
restated_series = write_series (some (text "r1")) ((4, 42) ∷ []) published_series

abbrev final_series : Series ℕ ℕ
unfolding refreshed restated_series
final_series = (refreshed restated_series).1

only_the_changed_day_is_dirty : restated_series.stream.dirty_from ≡ some 4
unfolding write_series restated_series upsert_bars revised_changes invalidate_changed
    combine_changed earliest published_series refreshed refresh publish written_series get put
    last_of
only_the_changed_day_is_dirty = refl

publication_is_stale : publication_is_current restated_series.stream ≡ false
unfolding publication_is_current write_series restated_series upsert_bars revised_changes
    invalidate_changed combine_changed earliest published_series refreshed refresh publish
    written_series get put last_of
publication_is_stale = refl

materialize-refreshed :
    (x : Series ℕ ℕ)
    → bounds none x.bars ≡ some (3, 4)
    → is_before 4 x.stream.state_through ≡ false
    → materialize moving_average false (text "key") none x ≡ ok (refreshed x)
unfolding materialize refreshed
materialize-refreshed x within in_order = rw (within, materialize, in_order) refl

history : Steps moving_average new_series final_series
unfolding final_series restated_series published_series written_series refreshed bounds write_series
    upsert_bars span combine_changed get put refresh publish revised_changes invalidate_changed
    earliest last_of
history =
    let first = Steps.later Steps.start (Step.written none bars_of_may) in
    let published = Steps.later first (
      Step.materialized false (text "key") none (refreshed written_series).0 published_series
        (materialize-refreshed written_series refl refl)) in
    let restated = Steps.later published (Step.written (some (text "r1")) ((4, 42) ∷ [])) in
    Steps.later restated (
      Step.materialized false (text "key") none (refreshed restated_series).0 final_series
        (materialize-refreshed restated_series refl refl))

steps_current_example :
    (key : Text) × (final_series.stream.demand_key ≡ some key)
    × (final_series.rows 4 ≡ moving_average.series key (get final_series.bars) 4)
unfolding final_series restated_series published_series written_series refreshed write_series
    upsert_bars span combine_changed get put refresh publish revised_changes invalidate_changed
    earliest last_of publication_is_current
steps_current_example =
    steps_current moving_average moving_average_causal final_series history refl refl 4 refl

the_restated_mean_is_stored : (final_series.rows 3 ≡ none) × (final_series.rows 4 ≡ some 36)
unfolding final_series restated_series published_series written_series refreshed write_series
    upsert_bars span combine_changed get put refresh publish revised_changes invalidate_changed
    earliest last_of rebuild_history writes_any closes_until
the_restated_mean_is_stored = (refl, refl)

-- A bar is written after the days that are published, and the published days are materialized again.
abbrev grown_series : Series ℕ ℕ
unfolding write_series published_series
grown_series = write_series none ((6, 60) ∷ []) published_series

abbrev calls_of : Result AnalysisError (AnalysisResult × Series ℕ ℕ) → List StateCall
calls_of (err e) = []
calls_of (ok (r, x)) = x.state_calls

-- No snapshot is written, and the timeline is cleared.
the_timeline_is_cleared :
    calls_of (materialize moving_average false (text "key") (some 4) grown_series)
    ≡ rebuilt_states none 4 ∷ cleared_timeline 4 ∷ []
unfolding grown_series published_series written_series refreshed write_series upsert_bars span
    combine_changed get put materialize bounds refresh publish revised_changes invalidate_changed
    earliest last_of rebuild_history writes_any closes_until
the_timeline_is_cleared = refl

superseded-writes_nothing_example :
    ((revisions : Dict Text Text) (batch : Batch ℕ)
      → is_in maotai (map (λ p. p.0) batch) ≡ true
      → upsert_fenced
          (some (reserve_sync (maotai ∷ []) empty_market).0)
          revisions
          batch
          (reserve_sync (maotai ∷ []) reserved_market).1
        ≡ err superseded)
    × ((depth : ℕ) (symbols : List Text)
        → is_in maotai symbols ≡ true
        → complete_sync
            (reserve_sync (maotai ∷ []) empty_market).0
            depth
            symbols
            (reserve_sync (maotai ∷ []) reserved_market).1
          ≡ err superseded)
unfolding reserved_market
superseded-writes_nothing_example =
    superseded-writes_nothing moving_average (maotai ∷ []) (maotai ∷ []) empty_market
      reserved_market (reserve_sync (maotai ∷ []) reserved_market).1 maotai Commits.start refl
      Commits.start

current-accepted_example :
    upsert_fenced
      (some (reserve_sync (maotai ∷ []) empty_market).0)
      []
      ((maotai, bars_of_may) ∷ [])
      reserved_market
    ≡ ok (write_all [] ((maotai, bars_of_may) ∷ []) reserved_market)
unfolding unique reserved_market
current-accepted_example =
    current-accepted (maotai ∷ []) empty_market reserved_market [] ((maotai, bars_of_may) ∷ []) refl
      ((refl, refl), tt)
