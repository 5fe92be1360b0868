-- ===== src/Streams/Steps.antt =====
-- The hub and the backend on one series, in any order, and what a reader of its snapshots sees.
use apanel.Base.{
  Equality, nat_equality, bool_equality, pair_equality, option_equality, Text, text_equality, ℕ,
  ◌≡◌, refl, sym, ◌∙◌, Bool, true, false, false≢true, Option, none, some, List, [], arith, is_some,
  Ensures-ok, ok,
}
use apanel.Base.Dict.{get}
use apanel.Streams.Records.{new_stream, AnalysisStream, Series}
use apanel.Streams.Bars.{span, write_series, replace_series}
use apanel.Streams.Fences.{next_generation, completed}
use apanel.Streams.Publication.{
  until, mark_demand_changed, is_negative, publication_is_current, materialize, Indicators,
  AnalysisResult,
}
use apanel.Streams.Sound.{IsFresh, IsSound}
use apanel.Streams.Kept.{IsSoundSeries, write_series-IsSound, replace_series-IsSound}
use apanel.Streams.Published.{materialize-IsSound}

module _ {B O : Type 0} ⦃same : Equality B⦄ (indicators : Indicators B O) where
  -- One transaction of one of the two programs that commits.
  pub data Step (x : Series B O) : Series B O → Type 0 where
    reserved : Step x (next_generation x)
    written :
        (revision : Option Text) (records : List (ℕ × B)) → Step x (write_series revision records x)
    replaced :
        (revision : Option Text) (records : List (ℕ × B)) (first last start end : ℕ)
        → span records ≡ some (first, last)
        → Step x (replace_series revision records start end last x)
    synced : (depth : ℕ) → Step x (completed depth x)
    demanded : Step x (mark_demand_changed x)
    materialized :
        (force_history : Bool) (key : Text) (last_day : Option ℕ) (r : AnalysisResult)
        (y : Series B O)
        → materialize indicators force_history key last_day x ≡ ok (r, y)
        → Step x y

  pub data Steps (x : Series B O) : Series B O → Type 0 where
    start : Steps x x
    later : {y z : Series B O} → Steps x y → Step y z → Steps x z

abbrev pub new_series : {B O : Type 0} → Series B O
new_series = record {
  stream = new_stream;
  bars = [];
  revision_hash = none;
  rows = λ _. none;
  state_calls = [];
}

module _ {B O : Type 0} ⦃same : Equality B⦄ (indicators : Indicators B O)
    (causal : (key : Text) (bars : ℕ → Option B) (d : ℕ)
      → indicators.series key bars d ≡ indicators.series key (until d bars) d) where
  step-IsSound :
      (x y : Series B O)
      → Step indicators x y
      → IsSoundSeries indicators x
      → IsSoundSeries indicators y
  unfolding IsSound IsFresh mark_demand_changed
  step-IsSound x y reserved sound = sound
  step-IsSound x y (written revision records) sound =
      write_series-IsSound indicators revision records x sound
  step-IsSound x y (replaced revision records first last from end spans) sound =
      replace_series-IsSound indicators revision records first last from end x spans sound
  step-IsSound x y (synced depth) sound = sound
  step-IsSound x y demanded sound = sound
  step-IsSound x y (materialized force_history key last_day r z done) sound =
      Ensures-ok (λ r. IsSoundSeries indicators r.1)
        (materialize indicators force_history key last_day x)
        (materialize-IsSound indicators causal force_history key last_day x sound) done

  steps-IsSound : (y : Series B O) → Steps indicators new_series y → IsSoundSeries indicators y
  unfolding IsSound get
  steps-IsSound y start = λ d there. absurd (false≢true there)
  steps-IsSound z (later {y = y} before step) = step-IsSound y z step (steps-IsSound y before)

  current-clean :
      (s : AnalysisStream)
      → publication_is_current s ≡ true
      → is_negative s.published_revision ≡ false
      → s.dirty_from ≡ none
  unfolding publication_is_current
  current-clean s current published = ground (arith, current, published)

  -- Incremental is full. If the calculators read for a day no bar after it, then in whatever order the
  -- hub writes, replaces and restates bars, and the backend changes its demand and materializes, with
  -- whatever arguments, from a new series on, if a publication was made and is current, the indicator
  -- snapshots stored for any day with a bar are those that the calculators give to it from the whole
  -- history of bars, for the demand that was published last, and there are none where they give none.
  pub steps_current :
      (y : Series B O)
      → Steps indicators new_series y
      → publication_is_current y.stream ≡ true
      → is_negative y.stream.published_revision ≡ false
      → (d : ℕ) → is_some (get y.bars d) ≡ true
      → (key : Text) × (y.stream.demand_key ≡ some key)
        × (y.rows d ≡ indicators.series key (get y.bars) d)
  unfolding IsSound IsFresh
  steps_current y steps current published d there =
      let clean = current-clean y.stream current published in
      let (key, _, demand, _, _, _, row) = (steps-IsSound y steps d there).1 (rw clean refl) in
      (key, demand, row ∙ sym (causal key (get y.bars) d))
