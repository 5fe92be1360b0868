-- ===== src/Alerts/Service/Replay.antt =====
-- backend/app/services/alert_replay.py: catching up a rule that missed days.
use apanel.Base.{
  ℕ, ◌+◌, Bool, true, false, not, ◌&&◌, ◌||◌, Option, none, some, List, [], ◌∷◌, ltb, leb, ◌==◌,
  if◌then◌else◌, length, ◌>>=◌, Result, ok, err,
}
use apanel.Base.Texts.{text}
use apanel.Base.Number.{Number}
use apanel.States.Values.{null, real, scalar}
use apanel.Alerts.Rules.{AlertRule}
use apanel.Alerts.Observations.{PreviousState, status, named}
use apanel.Alerts.Evaluator.{evaluate, AlertEvaluation, Given, payload, bit}
use apanel.Alerts.Service.Records.{
  enqueue_trigger, set_status, on_states, ServiceError, history_too_large, alert_error,
  event_active, event_unknown, enter, StateEvent, Cutoff, no_cutoff, unreadable, through,
  SnapshotRow, Stream, Store, Desk,
}

abbrev pub max_catchup_rows : ℕ
max_catchup_rows = 10000

-- `_restated`
unfoldable pub restated : Cutoff → ℕ → Bool
restated no_cutoff day = false
restated (through cutoff) day = leb day cutoff
restated unreadable day = true

-- the `where` of the event query
unfoldable pub is_due : ℕ → ℕ → ℕ → StateEvent → Bool
is_due first last consumed e =
    e.valid && leb first e.trade_date && leb e.trade_date last && ltb consumed e.stream_seq

-- `order_by(trade_date, stream_seq)`
abbrev pub precedes : StateEvent → StateEvent → Bool
precedes a b =
    ltb a.trade_date b.trade_date || (a.trade_date == b.trade_date && leb a.stream_seq b.stream_seq)

unfoldable pub insert_event : StateEvent → List StateEvent → List StateEvent
insert_event e [] = e ∷ []
insert_event e (x ∷ l) = if precedes e x then e ∷ x ∷ l else x ∷ insert_event e l

-- The events of the query, in its order.
unfoldable pub due_events : ℕ → ℕ → ℕ → List StateEvent → List StateEvent
unfolding is_due insert_event
due_events first last consumed [] = []
due_events first last consumed (e ∷ l) =
    let others = due_events first last consumed l in
    if is_due first last consumed e then insert_event e others else others

-- A new occurrence, as opposed to a correction of the past.
abbrev pub is_enter : StateEvent → Bool
is_enter e = elim e.kind [ enter ↦ not e.is_restatement | _ ↦ false ]

abbrev pub is_unknown : StateEvent → Bool
is_unknown e = elim e.status [ event_unknown ↦ true | _ ↦ false ]

abbrev pub is_on : StateEvent → Bool
is_on e = elim e.status [ event_active ↦ true | _ ↦ false ]

module _ {F : Type 0} where
  unfoldable pub insert_snapshot : SnapshotRow F → List (SnapshotRow F) → List (SnapshotRow F)
  insert_snapshot s [] = s ∷ []
  insert_snapshot s (x ∷ l) =
      if leb s.trade_date x.trade_date then s ∷ x ∷ l else x ∷ insert_snapshot s l

  -- The snapshots from `first` to `last`, by day.
  unfoldable pub due_snapshots : ℕ → ℕ → List (SnapshotRow F) → List (SnapshotRow F)
  unfolding insert_snapshot
  due_snapshots first last [] = []
  due_snapshots first last (s ∷ l) =
      let others = due_snapshots first last l in
      if leb first s.trade_date && leb s.trade_date last then insert_snapshot s others else others

module _ (number : Number) where
  open number use {Real}

  -- One call of the evaluator, without the keyword arguments.
  unfoldable pub evaluate_given :
      AlertRule Real → Given Real → PreviousState → Result ServiceError AlertEvaluation
  evaluate_given rule given previous =
      elim (evaluate number rule given previous null (scalar null)) [
        | ok e ↦ ok e
        | err x ↦ err (alert_error x)
      ]

  -- The evaluation of one event: ENTER is proof of a new occurrence, whatever the stored status.
  unfoldable pub evaluate_event : StateEvent → Desk Real → Result ServiceError AlertEvaluation
  unfolding evaluate_given
  evaluate_event e d =
      evaluate_given d.rule.domain (bit (if d.rule.edge_mode then is_enter e else is_on e))
        (if is_enter e then named (text "RESET") else status d.row.status)

  unfoldable pub after_event : StateEvent → Desk Real → AlertEvaluation → Desk Real
  after_event e d evaluation =
      if is_enter e
      then enqueue_trigger e.trade_date (some e.id) (set_status evaluation.state d)
      else set_status evaluation.state d

  -- the loop over `events`
  unfoldable pub replay_events : List StateEvent → Desk Real → Result ServiceError (Desk Real)
  replay_events [] d = ok d
  replay_events (e ∷ events) d =
      let skipped = replay_events events d in
      let taken = evaluate_event e d >>= λ x. replay_events events (after_event e d x) in
      if is_unknown e then skipped else taken

  unfoldable pub evaluate_snapshot : Real → Desk Real → Result ServiceError AlertEvaluation
  unfolding evaluate_given
  evaluate_snapshot x d =
      evaluate_given d.rule.domain (payload ((text "value", scalar (real x)) ∷ []))
        (status d.row.status)

  unfoldable pub after_snapshot : SnapshotRow Real → Desk Real → AlertEvaluation → Desk Real
  unfolding restated
  after_snapshot s d evaluation =
      if not evaluation.triggered || restated s.cutoff s.trade_date
      then set_status evaluation.state d
      else enqueue_trigger s.trade_date none (set_status evaluation.state d)

  -- the loop over `snapshots`
  unfoldable pub replay_snapshots :
      List (SnapshotRow Real) → Desk Real → Result ServiceError (Desk Real)
  replay_snapshots [] d = ok d
  replay_snapshots (s ∷ snapshots) d =
      let skipped = replay_snapshots snapshots d in
      elim s.reading [
        | none ↦ skipped
        | some x ↦ evaluate_snapshot x d >>= λ y. replay_snapshots snapshots (after_snapshot s d y)
      ]

  -- the end of the STATE branch: the day's own observation, when there is one
  unfoldable pub settle : Option (Given Real) → Desk Real → Result ServiceError (Desk Real)
  settle none d = ok d
  settle (some given) d =
      evaluate_given d.rule.domain given (status d.row.status) >>= λ e. ok (set_status e.state d)

  abbrev pub reached : ℕ → Desk Real → Desk Real
  reached last d = record d { row = record d.row { last_evaluated = some last } }

  abbrev pub consumed_to : ℕ → Desk Real → Desk Real
  consumed_to seq d = record d { row = record d.row { last_consumed_state_seq = seq } }

  -- `catch_up` of a STATE rule whose stream is published to `stream`
  unfoldable pub catch_up_states :
      Stream
      → List StateEvent
      → ℕ
      → ℕ
      → Option (Given Real)
      → Desk Real
      → Result ServiceError (Desk Real)
  catch_up_states stream events first last today d =
      let due = due_events first last d.row.last_consumed_state_seq events in
      if ltb max_catchup_rows (length due) then err history_too_large else do
        replayed ← replay_events due d
        settled ← settle today (consumed_to stream.event_sequence replayed)
        ok (reached last settled)

  -- `catch_up` of a VALUE rule
  unfoldable pub catch_up_values :
      List (SnapshotRow Real) → ℕ → ℕ → Desk Real → Result ServiceError (Desk Real)
  catch_up_values snapshots first last d =
      let due = due_snapshots first last snapshots in
      if ltb max_catchup_rows (length due)
      then err history_too_large
      else do replayed ← replay_snapshots due d; ok (reached last replayed)

  -- The stream of a STATE rule, if it has been published.
  abbrev pub published : Option Stream → Option Stream
  published none = none
  published (some s) = elim s.state_through [ none ↦ none | some _ ↦ some s ]

  -- `catch_up`, from the day after `evaluated`; `none` is a stream that is not published yet
  unfoldable pub catch_up :
      Store Real
      → ℕ
      → ℕ
      → Option (Given Real)
      → Desk Real
      → Result ServiceError (Option (Desk Real))
  catch_up store evaluated last today d =
      if on_states d.rule.domain
      then elim (published store.stream) [
        | none ↦ ok none
        | some stream ↦
            catch_up_states stream store.events (evaluated + 1) last today d >>= λ x. ok (some x)
      ]
      else catch_up_values store.snapshots (evaluated + 1) last d >>= λ x. ok (some x)
