-- ===== src/Timeline/Records.antt =====
-- The rows of one analysis stream: observations, current states and events. Days are numbered.
use apanel.Base.{Text, ℕ, ◌≡◌, refl, Bool, true, false, Option, List}
use apanel.Base.Dict.{Dict}
use apanel.Alerts.Service.Records.{
  EventStatus, event_active, event_inactive, event_unknown, EventKind, baseline, enter, exit,
  unknown, recover,
}

-- A state code with the key of its parameters: `_target`.
abbrev pub Target : Type 0
Target = Text × Text

-- A `StateRow` that the analysis hands on. `details` stands for the indicator type, the parameters
-- and the metadata, and `transition` for the metadata's entry of that name.
pub record Observed : Type 0 where
  pub target : Target
  pub trade_date : ℕ
  pub status : EventStatus
  pub transition : Bool
  pub details : Text

-- The columns that a current state and an event have in common.
pub record Fact : Type 0 where
  pub target : Target
  pub trade_date : ℕ
  pub status : EventStatus
  pub since_date : Option ℕ
  pub observed_from : ℕ
  pub since_is_exact : Bool
  pub details : Text

pub record TimelineEvent : Type 0 where
  pub fact : Fact
  pub kind : EventKind
  pub stream_seq : ℕ
  pub valid : Bool
  pub is_restatement : Bool

pub record Timeline : Type 0 where
  pub current : Dict Target Fact
  pub events : List TimelineEvent
  pub event_sequence : ℕ
  pub state_generation : ℕ

pub data PublishError : Type 0 where
  stale_analysis_target : PublishError

unfoldable pub same_status : EventStatus → EventStatus → Bool
same_status event_active event_active = true
same_status event_inactive event_inactive = true
same_status event_unknown event_unknown = true
same_status _ _ = false

unfoldable pub same_kind : EventKind → EventKind → Bool
same_kind baseline baseline = true
same_kind enter enter = true
same_kind exit exit = true
same_kind unknown unknown = true
same_kind recover recover = true
same_kind _ _ = false

pub same_status-eq : (a b : EventStatus) → same_status a b ≡ true → a ≡ b
unfolding same_status
same_status-eq event_active event_active h = refl
same_status-eq event_inactive event_inactive h = refl
same_status-eq event_unknown event_unknown h = refl
same_status-eq event_active event_inactive h = cc
same_status-eq event_active event_unknown h = cc
same_status-eq event_inactive event_active h = cc
same_status-eq event_inactive event_unknown h = cc
same_status-eq event_unknown event_active h = cc
same_status-eq event_unknown event_inactive h = cc

pub same_status_refl : (a : EventStatus) → same_status a a ≡ true
unfolding same_status
same_status_refl event_active = refl
same_status_refl event_inactive = refl
same_status_refl event_unknown = refl
