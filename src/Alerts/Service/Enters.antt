-- ===== src/Alerts/Service/Enters.antt =====
-- Replaying State events: which of them reach the outbox.
use mathlib.Core.List.{append-nil}
use apanel.Base.{
  ℕ, ◌≡◌, refl, sym, ap, ◌∙◌, inl, inr, true, false, not, ◌&&◌, Option, some, List, [], ◌∷◌, ◌++◌,
  map, if◌then◌else◌, Bool-cases, ok,
}
use apanel.Base.Texts.{text}
use apanel.Base.Number.{Number}
use apanel.States.Values.{null, scalar}
use apanel.Alerts.Rules.{AlertRule}
use apanel.Alerts.Observations.{from_value, AlertStatus, reset, PreviousState, status, named}
use apanel.Alerts.Evaluator.{AlertEvaluation, Given, bit}
use apanel.Alerts.Trigger.{evaluate-total}
use apanel.Alerts.Service.Records.{enqueue_trigger, Note, StateEvent, Desk}
use apanel.Alerts.Service.Replay.{
  is_enter, is_unknown, is_on, evaluate_given, evaluate_event, after_event, replay_events,
}

-- The sources of the outbox rows, in their order.
abbrev pub sources : List Note → List (Option ℕ)
sources l = map (λ n. n.source_event_id) l

-- The events that are a new occurrence, by their ids.
abbrev pub entered : List StateEvent → List (Option ℕ)
entered [] = []
entered (e ∷ es) = if not (is_unknown e) && is_enter e then some e.id ∷ entered es else entered es

sources-snoc :
    (l : List Note) (n : Note) (rest : List (Option ℕ))
    → sources (l ++ (n ∷ [])) ++ rest ≡ sources l ++ (n.source_event_id ∷ rest)
sources-snoc [] n rest = refl
sources-snoc (x ∷ l) n rest = ap (λ r. x.source_event_id ∷ r) (sources-snoc l n rest)

module _ (number : Number) where
  open number use {Real}

  evaluate_given-total :
      (rule : AlertRule Real) (given : Given Real) (previous : PreviousState) (prior : AlertStatus)
      → from_value previous ≡ ok prior
      → (x : AlertEvaluation) × (evaluate_given number rule given previous ≡ ok x)
  unfolding evaluate_given
  evaluate_given-total rule given previous prior p =
      let (x, same, _, _) = evaluate-total number rule given previous prior null (scalar null) p in
      (x, rw (same, evaluate_given) refl)

  evaluate_event-total :
      (e : StateEvent) (d : Desk Real) → (x : AlertEvaluation) × (evaluate_event number e d ≡ ok x)
  unfolding evaluate_event
  evaluate_event-total e d = elim (Bool-cases (is_enter e)) [
    | inl new ↦ rw new (
        evaluate_given-total d.rule.domain (bit (if d.rule.edge_mode then true else is_on e))
          (named (text "RESET")) reset (unfold from_value in refl))
    | inr old ↦ rw old (
        evaluate_given-total d.rule.domain (bit (if d.rule.edge_mode then false else is_on e))
          (status d.row.status) d.row.status (unfold from_value in refl))
  ]

  after_event-sources :
      (e : StateEvent) (d : Desk Real) (x : AlertEvaluation) (rest : List (Option ℕ))
      → sources (after_event number e d x).outbox ++ rest
        ≡ sources d.outbox ++ (if is_enter e then some e.id ∷ rest else rest)
  unfolding after_event enqueue_trigger
  after_event-sources e d x rest = elim (Bool-cases (is_enter e)) [
    | inl new ↦ rw new (sources-snoc d.outbox _ rest)
    | inr old ↦ rw old refl
  ]

  -- The replay of State events always returns, and it appends to the outbox one row for each event
  -- that is known and a new occurrence, in the order of the events, and no other row.
  pub replay_events-entered :
      (es : List StateEvent) (d : Desk Real)
      → (d' : Desk Real) × (replay_events number es d ≡ ok d')
        × (sources d'.outbox ≡ sources d.outbox ++ entered es)
  unfolding replay_events
  replay_events-entered [] d = (d, refl, sym (append-nil (sources d.outbox)))
  replay_events-entered (e ∷ es) d = elim (Bool-cases (is_unknown e)) [
    | inl skip ↦
        let (d', same, kept) = replay_events-entered es d in (d', rw skip same, rw skip kept)
    | inr take ↦
        let (x, known) = evaluate_event-total e d in
        let (d', same, kept) = replay_events-entered es (after_event number e d x) in
        (d', rw (take, known) same, rw take (kept ∙ after_event-sources e d x (entered es)))
  ]
