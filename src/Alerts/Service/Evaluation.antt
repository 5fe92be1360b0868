-- ===== src/Alerts/Service/Evaluation.antt =====
-- `AlertService._evaluate_rule` and `_unavailable_observation` of
-- backend/app/services/alert_service.py. A call that raises commits nothing.
use apanel.Base.{
  nat_equality, bool_equality, pair_equality, option_equality, ◌=?◌, text_equality, ℕ, Bool, true,
  false, not, ◌&&◌, Option, none, some, ltb, leb, ◌==◌, if◌then◌else◌, ◌>>=◌, Result, ok,
}
use apanel.Base.Number.{Number}
use apanel.Alerts.Observations.{AlertStatus, reset, status}
use apanel.Alerts.Evaluator.{Given}
use apanel.Alerts.Service.Records.{
  enqueue_trigger, on_states, ServiceError, StoredRule, AlertInstance, Stream, Store, Desk,
}
use apanel.Alerts.Service.Replay.{evaluate_given, catch_up}

-- What the observation service resolves: the day of the observation, and the observation.
pub record Resolved (F : Type 0) : Type 0 where
  pub day : ℕ
  pub given : Given F

abbrev pub new_row : AlertStatus → ℕ → ℕ → ℕ → ℕ → AlertInstance
new_row s version trigger day consumed = record {
  status = s;
  rule_version = version;
  trigger_sequence = trigger;
  last_evaluated = some day;
  last_consumed_state_seq = consumed;
}

-- An instance of another version of the rule starts again.
unfoldable pub renewed : ℕ → AlertInstance → AlertInstance
renewed version i = if i.rule_version == version then i else record i {
  status = reset;
  last_evaluated = none;
  rule_version = version;
  last_consumed_state_seq = 0;
}

-- The stream is published, current, and has reached the day.
abbrev pub has_reached : Option Stream → ℕ → Option ℕ
has_reached none day = none
has_reached (some s) day = elim s.state_through [
  | none ↦ none
  | some t ↦ if s.current && t == day then some s.event_sequence else none
]

abbrev advance : ℕ → ℕ → AlertInstance → AlertInstance
advance day seq i = record i { last_evaluated = some day; last_consumed_state_seq = seq }

module _ {F : Type 0} where
  abbrev pub desk_of : Store F → AlertInstance → Desk F
  desk_of s i = record { rule = s.rule; row = i; outbox = s.outbox }

  abbrev pub commit : Store F → Desk F → Store F
  commit s d = record s { rule = d.rule; instance_row = some d.row; outbox = d.outbox }

  abbrev pub consumed_after : Store F → AlertInstance → ℕ
  consumed_after s i =
      if on_states s.rule.domain
      then elim s.stream [ none ↦ i.last_consumed_state_seq | some x ↦ x.event_sequence ]
      else i.last_consumed_state_seq

  -- The end of `_unavailable_observation`, for an instance that was not caught up.
  unfoldable pub mark_checked : StoredRule F → ℕ → ℕ → Option AlertInstance → AlertInstance
  mark_checked rule day seq none = new_row reset rule.rule_version rule.trigger_sequence day seq
  mark_checked rule day seq (some i) =
      if not (i.rule_version == rule.rule_version)
      then new_row reset rule.rule_version i.trigger_sequence day seq
      else elim i.last_evaluated [
        | none ↦ advance day seq i
        | some t ↦ if leb t day then advance day seq i else i
      ]

module _ (number : Number) where
  open number use {Real}

  -- The day from which an instance of the rule's version is to be caught up before `day`.
  abbrev pub missed_since : ℕ → Option ℕ → Option ℕ
  missed_since day none = none
  missed_since day (some t) = if ltb t day then some t else none

  -- `catch_up` when days were missed; `none` when there is nothing to catch up
  abbrev pub caught_up :
      Store Real
      → Option ℕ
      → ℕ
      → Option (Given Real)
      → Desk Real
      → Result ServiceError (Option (Desk Real))
  caught_up s none day today d = ok none
  caught_up s (some t) day today d = catch_up number s t day today d

  abbrev pub version_row : Store Real → Option AlertInstance
  version_row s = elim s.instance_row [
    | none ↦ none
    | some i ↦ if i.rule_version == s.rule.rule_version then some i else none
  ]

  -- `_unavailable_observation` on a scheduled day
  unfoldable pub unavailable : ℕ → Store Real → Result ServiceError (Store Real)
  unfolding mark_checked
  unavailable day s = elim (has_reached s.stream day) [
    | none ↦ ok s
    | some seq ↦
        (elim (version_row s) [
          | none ↦ ok none
          | some i ↦ caught_up s (missed_since day i.last_evaluated) day none (desk_of s i)
        ])
        >>= λ done. ok (elim done [
          | some d ↦ commit s d
          | none ↦ record s { instance_row = some (mark_checked s.rule day seq s.instance_row) }
        ])
  ]

  -- The evaluation of the day's own observation, with no older day left to catch up.
  unfoldable pub evaluate_today :
      Bool → Resolved Real → Store Real → AlertInstance → Bool → Result ServiceError (Store Real)
  evaluate_today scheduled r s i known = do
    evaluation ← evaluate_given number s.rule.domain r.given (status i.status)
    let d = desk_of s (record i { status = evaluation.state })
    let settled = record d {
      row = record d.row {
        last_evaluated = some r.day;
        last_consumed_state_seq = consumed_after s i;
      };
    }
    ok (
        if scheduled && known && (i.last_evaluated =? some r.day)
        then commit s d
        else if evaluation.triggered
        then commit s (enqueue_trigger r.day none settled)
        else commit s settled)

  -- `_evaluate_rule` once an observation is resolved, for an instance of the rule's version.
  unfoldable pub evaluate_resolved :
      Bool → Resolved Real → Store Real → AlertInstance → Result ServiceError (Store Real)
  unfolding evaluate_today
  evaluate_resolved scheduled r s i =
      if scheduled && elim i.last_evaluated [ none ↦ false | some t ↦ ltb r.day t ]
      then ok (commit s (desk_of s i))
      else caught_up s
          (if scheduled && not s.rule.dividend then missed_since r.day i.last_evaluated else none)
          r.day (some r.given) (desk_of s i)
        >>= λ done. elim done [
          | some d ↦ ok (commit s d)
          | none ↦ evaluate_today scheduled r s i true
        ]

  abbrev pub fresh_row : StoredRule Real → AlertInstance
  fresh_row rule = record {
    status = reset;
    rule_version = rule.rule_version;
    trigger_sequence = rule.trigger_sequence;
    last_evaluated = none;
    last_consumed_state_seq = 0;
  }

  -- With or without an instance.
  unfoldable pub evaluate_observed :
      Bool → Resolved Real → Store Real → Result ServiceError (Store Real)
  unfolding evaluate_resolved renewed
  evaluate_observed scheduled r s = elim s.instance_row [
    | none ↦ evaluate_today scheduled r s (fresh_row s.rule) false
    | some i ↦ evaluate_resolved scheduled r s (renewed s.rule.rule_version i)
  ]

  -- `_evaluate_rule`; `day` is the scheduler's day, if the scheduler calls, and `resolved` what the
  -- observation service found
  unfoldable pub evaluate_rule :
      Option ℕ → Option (Resolved Real) → Store Real → Result ServiceError (Store Real)
  unfolding evaluate_observed unavailable
  evaluate_rule day resolved s = if not s.rule.domain.enabled then ok s else elim resolved [
    | none ↦ elim day [ none ↦ ok s | some t ↦ unavailable t s ]
    | some r ↦ elim day [
      | none ↦ evaluate_observed false r s
      | some t ↦ if r.day == t then evaluate_observed true r s else unavailable t s
    ]
  ]
