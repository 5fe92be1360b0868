-- ===== src/Timeline/Examples.antt =====
-- Tests of the publication of a timeline, and its theorems at concrete inputs.
use apanel.Base.{
  nat_equality, bool_equality, pair_equality, option_equality, text_equality, ℕ, ◌+◌, ◌≡◌, refl,
  false, Option, none, some, List, [], ◌∷◌, map, arith, ◌>>=◌, Result, err, ok,
}
use apanel.Base.Texts.{text}
use apanel.Base.Dict.{get, put}
use apanel.Alerts.Service.Records.{
  EventStatus, event_active, event_inactive, event_unknown, EventKind, baseline, enter, unknown,
  recover,
}
use apanel.Timeline.Records.{Target, same_status, same_kind, Observed, Timeline, PublishError}
use apanel.Timeline.Loop.{change_kind, change, advance, trace}
use apanel.Timeline.Publish.{
  text_ltb, sorts_before, insert_sorted, sort_by, keep_if, same_events, previous_through,
  invalidate, numbered, upsert, rewritten, replace_suffix, is_stale, publish,
}
use apanel.Timeline.Replay.{IsFaithful, trace-IsFaithful}
use apanel.Timeline.Numbers.{Rises, publish-Rises}

abbrev golden : Target
golden = (text "MACD_GOLDEN_CROSS", text "12-26-9")

abbrev seen : ℕ → EventStatus → Observed
seen day s = record {
  target = golden;
  trade_date = day;
  status = s;
  transition = false;
  details = [];
}

-- Inactive, active for two days, unknown, and active again.
abbrev five_days : List Observed
five_days =
    seen 3 event_active
    ∷ seen 1 event_inactive
    ∷ seen 2 event_active
    ∷ seen 4 event_unknown
    ∷ seen 5 event_active
    ∷ []

abbrev nothing_yet : Timeline
nothing_yet = record { current = []; events = []; event_sequence = 0; state_generation = 0 }

abbrev kinds : Result PublishError (Timeline × ℕ) → List EventKind
kinds (ok (t, _)) = map (λ e. e.kind) t.events
kinds (err _) = []

first_publication :
    kinds (publish five_days none 5 nothing_yet) ≡ baseline ∷ enter ∷ unknown ∷ recover ∷ []
unfolding publish replace_suffix trace advance change change_kind get put sort_by insert_sorted
    sorts_before text_ltb keep_if same_events same_status same_kind rewritten invalidate numbered
    previous_through upsert
first_publication = refl

abbrev again : Result PublishError (Timeline × ℕ) → Result PublishError (Timeline × ℕ)
again r = r >>= λ (t, _). publish five_days none 5 t

abbrev count : Result PublishError (Timeline × ℕ) → Option ℕ
count (ok (_, n)) = some n
count (err _) = none

published_again : count (again (publish five_days none 5 nothing_yet)) ≡ some 0
unfolding publish replace_suffix trace advance change change_kind get put sort_by insert_sorted
    sorts_before text_ltb keep_if same_events same_status same_kind rewritten invalidate numbered
    previous_through upsert
published_again = refl

trace-IsFaithful_example :
    IsFaithful golden none five_days
      (trace five_days (record { current = []; last = [] })).0
      (trace five_days (record { current = []; last = [] })).1
unfolding get
trace-IsFaithful_example = trace-IsFaithful golden five_days (record { current = []; last = [] })

fresh : is_stale 5 nothing_yet ≡ false
unfolding previous_through
fresh = refl

publish-Rises_example :
    (t : Timeline) × (written : ℕ) × (publish five_days none 5 nothing_yet ≡ ok (t, written))
    × Rises 0 t.events t.event_sequence
    × (t.event_sequence ≡ 0 + written)
publish-Rises_example = publish-Rises five_days none 5 nothing_yet fresh (omega arith)
