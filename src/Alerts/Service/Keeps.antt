-- ===== src/Alerts/Service/Keeps.antt =====
-- A property of the desk that survives each write survives a whole catch-up.
use apanel.Base.{
  ℕ, ◌+◌, inl, inr, not, ◌||◌, Option, none, some, List, [], ◌∷◌, ltb, Bool-cases, Option-cases,
  length, ◌>>=◌, Ensures, Ensures-bind, Ensures-ok, Result, ok, err,
}
use apanel.Base.Number.{Number}
use apanel.Alerts.Observations.{AlertStatus, status}
use apanel.Alerts.Evaluator.{AlertEvaluation, Given}
use apanel.Alerts.Service.Records.{
  enqueue_trigger, set_status, on_states, ServiceError, StateEvent, SnapshotRow, Stream, Store,
  Desk,
}
use apanel.Alerts.Service.Replay.{
  max_catchup_rows, restated, due_events, is_enter, is_unknown, due_snapshots, evaluate_given,
  evaluate_event, after_event, replay_events, evaluate_snapshot, after_snapshot, replay_snapshots,
  settle, reached, consumed_to, catch_up_states, catch_up_values, published, catch_up,
}

-- The property survives a new status, an enqueued trigger, a consumed sequence and a reached day.
pub record Survives {F : Type 0} (P : Desk F → Type 0) : Type 0 where
  pub at_status : (s : AlertStatus) (d : Desk F) → P d → P (set_status s d)
  pub at_trigger :
      (day : ℕ) (source : Option ℕ) (d : Desk F) → P d → P (enqueue_trigger day source d)
  pub at_row :
      (day : Option ℕ) (seq : ℕ) (d : Desk F)
      → P d
      → P (record d { row = record d.row { last_evaluated = day; last_consumed_state_seq = seq } })

module _ (number : Number) (P : Desk (Number.Real number) → Type 0) (k : Survives P) where
  open number use {Real}

  after_event-keeps :
      (e : StateEvent) (d : Desk Real) (x : AlertEvaluation) → P d → P (after_event number e d x)
  unfolding after_event
  after_event-keeps e d x h = elim (Bool-cases (is_enter e)) [
    | inl new ↦
        rw new
          (k.at_trigger e.trade_date (some e.id) (set_status x.state d) (k.at_status x.state d h))
    | inr old ↦ rw old (k.at_status x.state d h)
  ]

  pub replay_events-keeps :
      (es : List StateEvent) (d : Desk Real) → P d → Ensures P (replay_events number es d)
  unfolding replay_events
  replay_events-keeps [] d h = h
  replay_events-keeps (e ∷ es) d h = elim (Bool-cases (is_unknown e)) [
    | inl skip ↦ rw skip (replay_events-keeps es d h)
    | inr take ↦ rw take (
        Ensures-bind P (evaluate_event number e d)
          (λ x. replay_events number es (after_event number e d x))
          λ x _. replay_events-keeps es (after_event number e d x) (after_event-keeps e d x h))
  ]

  after_snapshot-keeps :
      (s : SnapshotRow Real) (d : Desk Real) (x : AlertEvaluation)
      → P d
      → P (after_snapshot number s d x)
  unfolding after_snapshot
  after_snapshot-keeps s d x h =
      elim (Bool-cases (not x.triggered || restated s.cutoff s.trade_date)) [
        | inl quiet ↦ rw quiet (k.at_status x.state d h)
        | inr loud ↦
            rw loud
              (k.at_trigger s.trade_date none (set_status x.state d) (k.at_status x.state d h))
      ]

  pub replay_snapshots-keeps :
      (ss : List (SnapshotRow Real)) (d : Desk Real)
      → P d
      → Ensures P (replay_snapshots number ss d)
  unfolding replay_snapshots
  replay_snapshots-keeps [] d h = h
  replay_snapshots-keeps (s ∷ ss) d h = elim (Option-cases s.reading) [
    | inl absent ↦ rw (absent, replay_snapshots) (replay_snapshots-keeps ss d h)
    | inr (y, present) ↦
        rw (present, replay_snapshots)
          (Ensures-bind P (evaluate_snapshot number y d)
            (λ x. replay_snapshots number ss (after_snapshot number s d x))
            λ x _.
              replay_snapshots-keeps ss (after_snapshot number s d x)
                (after_snapshot-keeps s d x h))
  ]

  settle-keeps :
      (today : Option (Given Real)) (d : Desk Real) → P d → Ensures P (settle number today d)
  unfolding settle
  settle-keeps none d h = h
  settle-keeps (some g) d h =
      Ensures-bind P (evaluate_given number d.rule.domain g (status d.row.status))
        (λ e. ok (set_status e.state d)) λ e _. k.at_status e.state d h

  catch_up_states-keeps :
      (stream : Stream) (events : List StateEvent) (first last : ℕ) (today : Option (Given Real))
      (d : Desk Real)
      → P d
      → Ensures P (catch_up_states number stream events first last today d)
  unfolding catch_up_states
  catch_up_states-keeps stream events first last today d h =
      let due = due_events first last d.row.last_consumed_state_seq events in
      let finish = λ (x : Desk Real).
        settle number today (consumed_to number stream.event_sequence x) >>= λ y.
        ok (reached number last y) in
      elim (Bool-cases (ltb max_catchup_rows (length due))) [
        | inl large ↦ rw large tt
        | inr small ↦ rw small (
            Ensures-bind P (replay_events number due d) finish λ x p.
              let kept =
                Ensures-ok P (replay_events number due d) (replay_events-keeps due d h) p in
              let consumed = k.at_row x.row.last_evaluated stream.event_sequence x kept in
              let settled = settle number today (consumed_to number stream.event_sequence x) in
              Ensures-bind P settled (λ y. ok (reached number last y))
                λ y q. k.at_row (some last) y.row.last_consumed_state_seq y (
                  Ensures-ok P settled
                    (settle-keeps today (consumed_to number stream.event_sequence x) consumed) q))
      ]

  catch_up_values-keeps :
      (snapshots : List (SnapshotRow Real)) (first last : ℕ) (d : Desk Real)
      → P d
      → Ensures P (catch_up_values number snapshots first last d)
  unfolding catch_up_values
  catch_up_values-keeps snapshots first last d h =
      let due = due_snapshots first last snapshots in
      elim (Bool-cases (ltb max_catchup_rows (length due))) [
        | inl large ↦ rw large tt
        | inr small ↦ rw small (
            Ensures-bind P (replay_snapshots number due d) (λ x. ok (reached number last x))
              λ x p.
                k.at_row (some last) x.row.last_consumed_state_seq x
                  (Ensures-ok P (replay_snapshots number due d) (replay_snapshots-keeps due d h) p))
      ]

  -- A catch-up that ran keeps the property; one that found no published stream has changed nothing.
  abbrev pub WhenDone : Option (Desk Real) → Type 0
  WhenDone none = Unit
  WhenDone (some d) = P d

  done-keeps :
      (m : Result ServiceError (Desk Real))
      → Ensures P m
      → Ensures WhenDone (m >>= λ x. ok (some x))
  done-keeps (ok d) h = h
  done-keeps (err e) h = tt

  pub catch_up-keeps :
      (s : Store Real) (evaluated last : ℕ) (today : Option (Given Real)) (d : Desk Real)
      → P d
      → Ensures WhenDone (catch_up number s evaluated last today d)
  unfolding catch_up
  catch_up-keeps s evaluated last today d h = elim (Bool-cases (on_states d.rule.domain)) [
    | inl states ↦ elim (Option-cases (published number s.stream)) [
      | inl absent ↦ rw (states, absent) tt
      | inr (x, present) ↦
          rw (states, present)
            (done-keeps (catch_up_states number x s.events (evaluated + 1) last today d)
              (catch_up_states-keeps x s.events (evaluated + 1) last today d h))
    ]
    | inr values ↦ rw values (
        done-keeps (catch_up_values number s.snapshots (evaluated + 1) last d)
          (catch_up_values-keeps s.snapshots (evaluated + 1) last d h))
  ]
