-- ===== src/Timeline/Publish.antt =====
-- `StateEventRepository.publish`, with the anchors of `seed_at`.
use apanel.Base.{
  nat_equality, bool_equality, pair_equality, option_equality, ◌=?◌, Text, text_equality, ℕ, max,
  ◌+◌, Bool, true, false, ◌&&◌, ◌||◌, Option, none, some, List, [], ◌∷◌, ◌++◌, map, ltb, leb, ◌==◌,
  if◌then◌else◌, length, Result, err, ok,
}
use apanel.Base.Dict.{Dict, get, put}
use apanel.Alerts.Service.Records.{EventKind}
use apanel.Timeline.Records.{
  Target, same_status, same_kind, Observed, Fact, TimelineEvent, Timeline, PublishError,
  stale_analysis_target,
}
use apanel.Timeline.Loop.{trace}

-- Python's `<` on strings
unfoldable pub text_ltb : Text → Text → Bool
text_ltb a [] = false
text_ltb [] (y ∷ b) = true
text_ltb (x ∷ a) (y ∷ b) = let rest = text_ltb a b in ltb x y || (x == y && rest)

abbrev target_ltb : Target → Target → Bool
target_ltb (code, key) (code', key') = text_ltb code code' || ((code =? code') && text_ltb key key')

-- `(trade_date, state_code, parameter_key)`, compared
unfoldable pub sorts_before : ℕ × Target → ℕ × Target → Bool
unfolding text_ltb
sorts_before (day, target) (day', target') =
    ltb day day' || (day == day' && target_ltb target target')

module _ {A : Type 0} (key : A → ℕ × Target) where
  unfoldable pub insert_sorted : A → List A → List A
  unfolding sorts_before
  insert_sorted a [] = a ∷ []
  insert_sorted a (x ∷ l) =
      let later = insert_sorted a l in if sorts_before (key x) (key a) then x ∷ later else a ∷ x ∷ l

  -- a stable sort by that key
  unfoldable pub sort_by : List A → List A
  unfolding insert_sorted
  sort_by [] = []
  sort_by (a ∷ l) = insert_sorted a (sort_by l)

abbrev observed_key : Observed → ℕ × Target
observed_key row = (row.trade_date, row.target)

abbrev event_key : TimelineEvent → ℕ × Target
event_key e = (e.fact.trade_date, e.fact.target)

abbrev newer : TimelineEvent → TimelineEvent → Bool
newer e e' =
    ltb e'.fact.trade_date e.fact.trade_date
    || (e.fact.trade_date == e'.fact.trade_date && ltb e'.stream_seq e.stream_seq)

abbrev newest : TimelineEvent → Option TimelineEvent → TimelineEvent
newest e none = e
newest e (some e') = if newer e e' then e else e'

-- `seed_at`: of each target the last valid event before the day, as the facts that anchor the loop
unfoldable pub seed_before : ℕ → List TimelineEvent → Dict Target TimelineEvent
unfolding get put
seed_before day [] = []
seed_before day (e ∷ events) =
    let others = seed_before day events in
    if e.valid && ltb e.fact.trade_date day
    then put others e.fact.target (newest e (get others e.fact.target))
    else others

abbrev anchors : Option ℕ → List TimelineEvent → Dict Target Fact
anchors none events = []
anchors (some start) events = map (λ (k, e). (k, e.fact)) (seed_before start events)

-- The valid events that a publication replaces.
abbrev pub is_replaced : Option ℕ → ℕ → TimelineEvent → Bool
is_replaced start until e =
    e.valid
    && leb e.fact.trade_date until
    && elim start [ none ↦ true | some s ↦ leb s e.fact.trade_date ]

unfoldable pub keep_if : {A : Type 0} → (A → Bool) → List A → List A
keep_if p [] = []
keep_if p (a ∷ l) = let rest = keep_if p l in if p a then a ∷ rest else rest

-- equality of the `_signature`s
abbrev same_signature : Fact × EventKind → Fact × EventKind → Bool
same_signature (f, k) (g, j) =
    f.trade_date == g.trade_date
    && (f.target =? g.target)
    && same_status f.status g.status
    && same_kind k j
    && (f.since_date =? g.since_date)
    && f.observed_from == g.observed_from
    && (f.since_is_exact =? g.since_is_exact)
    && (f.details =? g.details)

unfoldable pub same_events : List (Fact × EventKind) → List (Fact × EventKind) → Bool
unfolding same_status same_kind
same_events [] [] = true
same_events (a ∷ l) (b ∷ m) = let rest = same_events l m in same_signature a b && rest
same_events _ _ = false

-- The latest day of the current states.
unfoldable pub previous_through : Dict Target Fact → Option ℕ
previous_through [] = none
previous_through ((_, f) ∷ d) = elim (previous_through d) [
  | none ↦ some f.trade_date
  | some t ↦ some (max f.trade_date t)
]

unfoldable pub invalidate : Option ℕ → ℕ → List TimelineEvent → List TimelineEvent
invalidate start until [] = []
invalidate start until (e ∷ events) =
    let rest = invalidate start until events in
    if is_replaced start until e then record e { valid = false } ∷ rest else e ∷ rest

-- The new rows, numbered on from `seq`.
unfoldable pub numbered : Option ℕ → ℕ → List (Fact × EventKind) → List TimelineEvent
numbered previous seq [] = []
numbered previous seq ((f, k) ∷ events) =
    record {
      fact = f;
      kind = k;
      stream_seq = seq + 1;
      valid = true;
      is_restatement = elim previous [ none ↦ true | some t ↦ leb f.trade_date t ];
    }
    ∷ numbered previous (seq + 1) events

unfoldable pub upsert : Dict Target Fact → Dict Target Fact → Dict Target Fact
unfolding put
upsert base [] = base
upsert base ((k, f) ∷ last) = upsert (put base k f) last

abbrev is_same_day : Option ℕ → ℕ → Bool
is_same_day none day = false
is_same_day (some t) day = t == day

-- The events afterwards, and how many were written: one number of the sequence for each.
unfoldable pub rewritten :
    Bool → Option ℕ → ℕ → List (Fact × EventKind) → Timeline → List TimelineEvent × ℕ
unfolding invalidate numbered previous_through
rewritten true start until events t = (t.events, 0)
rewritten false start until events t = (
  invalidate start until t.events ++ numbered (previous_through t.current) t.event_sequence events,
  length events,
)

-- `publish` on a target day that is not before the current states
unfoldable pub replace_suffix : List Observed → Option ℕ → ℕ → Timeline → Timeline × ℕ
unfolding trace sort_by seed_before keep_if same_events rewritten upsert
replace_suffix observations start until t =
    let made =
      trace (sort_by observed_key observations)
        (record { current = anchors start t.events; last = [] }) in
    let old = sort_by event_key (keep_if (is_replaced start until) t.events) in
    let unchanged = same_events (map (λ e. (e.fact, e.kind)) old) made.0 in
    let rows = rewritten unchanged start until made.0 t in
    (
      record {
        current = upsert (elim start [ none ↦ [] | some _ ↦ t.current ]) made.1.last;
        events = rows.0;
        event_sequence = t.event_sequence + rows.1;
        state_generation =
            if unchanged && is_same_day (previous_through t.current) until
            then t.state_generation
            else t.state_generation + 1;
      },
      rows.1,
    )

-- `through < previous_through`
abbrev pub is_stale : ℕ → Timeline → Bool
is_stale until t = elim (previous_through t.current) [ none ↦ false | some p ↦ ltb until p ]

unfoldable pub publish :
    List Observed → Option ℕ → ℕ → Timeline → Result PublishError (Timeline × ℕ)
unfolding replace_suffix
publish observations start until t =
    if is_stale until t
    then err stale_analysis_target
    else ok (replace_suffix observations start until t)
