-- ===== src/Alerts/Service/Records.antt =====
-- The rows that one evaluation reads and writes: the rule, its instance, the analysis stream, the
-- State timeline, the snapshots and the notification outbox. Days are numbered.
use apanel.Base.{ℕ, max, ◌+◌, Bool, true, false, Option, List, [], ◌∷◌, ◌++◌}
use apanel.Alerts.Rules.{AlertError, on_value, on_state, AlertRule}
use apanel.Alerts.Observations.{AlertStatus}

-- `ALERT_HISTORY_TOO_LARGE`, and what the evaluator raises
pub data ServiceError : Type 0 where
  history_too_large : ServiceError
  alert_error : AlertError → ServiceError

-- A row of the rules' table, with the domain rule that `_domain_rule` makes of it, whether its
-- state has the mode "edge", and whether its indicator is DIVIDEND_YIELD.
pub record StoredRule (F : Type 0) : Type 0 where
  pub domain : AlertRule F
  pub rule_version : ℕ
  pub trigger_sequence : ℕ
  pub edge_mode : Bool
  pub dividend : Bool

pub record AlertInstance : Type 0 where
  pub status : AlertStatus
  pub rule_version : ℕ
  pub trigger_sequence : ℕ
  pub last_evaluated : Option ℕ
  pub last_consumed_state_seq : ℕ

-- One outbox row: its event id is made of the rule, the security and the sequence number.
pub record Note : Type 0 where
  pub trigger_sequence : ℕ
  pub rule_version : ℕ
  pub observation_date : ℕ
  pub source_event_id : Option ℕ

pub data EventStatus : Type 0 where
  event_active event_inactive event_unknown : EventStatus

pub data EventKind : Type 0 where
  baseline enter exit unknown recover : EventKind

pub record StateEvent : Type 0 where
  pub id : ℕ
  pub trade_date : ℕ
  pub stream_seq : ℕ
  pub status : EventStatus
  pub kind : EventKind
  pub valid : Bool
  pub is_restatement : Bool

-- `_source.restated_through`: absent, a date, or something that is no date.
pub data Cutoff : Type 0 where
  no_cutoff unreadable : Cutoff
  through : ℕ → Cutoff

-- A snapshot of the rule's indicator, with the finite value of the rule's field in the variant of
-- the rule's parameters, if there is one.
pub record SnapshotRow (F : Type 0) : Type 0 where
  pub trade_date : ℕ
  pub reading : Option F
  pub cutoff : Cutoff

pub record Stream : Type 0 where
  pub event_sequence : ℕ
  pub state_through : Option ℕ
  -- `publication_is_current`
  pub current : Bool

pub record Store (F : Type 0) : Type 0 where
  pub rule : StoredRule F
  pub instance_row : Option AlertInstance
  pub outbox : List Note
  pub stream : Option Stream
  -- the events of the rule's security, adjustment, state and parameters
  pub events : List StateEvent
  pub snapshots : List (SnapshotRow F)

-- What an evaluation works on between reads and the commit.
pub record Desk (F : Type 0) : Type 0 where
  pub rule : StoredRule F
  pub row : AlertInstance
  pub outbox : List Note

module _ {F : Type 0} where
  -- `_enqueue_trigger`
  unfoldable pub enqueue_trigger : ℕ → Option ℕ → Desk F → Desk F
  enqueue_trigger day source d =
      let next = max d.rule.trigger_sequence d.row.trigger_sequence + 1 in
      record {
        rule = record d.rule { trigger_sequence = next };
        row = record d.row { trigger_sequence = next };
        outbox =
            d.outbox
            ++ (record {
              trigger_sequence = next;
              rule_version = d.rule.rule_version;
              observation_date = day;
              source_event_id = source;
            }
                ∷ []);
      }

  abbrev pub set_status : AlertStatus → Desk F → Desk F
  set_status s d = record d { row = record d.row { status = s } }

  abbrev pub on_states : AlertRule F → Bool
  on_states r = elim r.condition [ on_state _ ↦ true | on_value _ ↦ false ]
