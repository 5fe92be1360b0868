-- ===== src/Timeline/Loop.antt =====
-- The loop of `StateEventRepository.publish` over the ordered observations.
use apanel.Base.{
  nat_equality, bool_equality, pair_equality, option_equality, text_equality, ℕ, Bool, true, false,
  Option, none, some, List, [], ◌∷◌, if◌then◌else◌,
}
use apanel.Base.Dict.{Dict, get, put}
use apanel.Alerts.Service.Records.{
  EventStatus, event_active, event_inactive, event_unknown, EventKind, baseline, enter, exit,
  unknown, recover,
}
use apanel.Timeline.Records.{Target, same_status, Observed, Fact}

abbrev is_status_active : EventStatus → Bool
is_status_active s = elim s [ event_active ↦ true | _ ↦ false ]

-- What a change of the status is, from the status before it.
unfoldable pub change_kind : EventStatus → EventStatus → Bool → EventKind
change_kind prior event_unknown transition = unknown
change_kind event_unknown event_active transition = if transition then enter else recover
change_kind event_unknown event_inactive transition = recover
change_kind _ event_active transition = enter
change_kind _ event_inactive transition = exit

-- The event of an observation after a fact, if it is one.
unfoldable pub change : Fact → Observed → Option EventKind
unfolding same_status change_kind
change prior row =
    if same_status row.status prior.status
    then none
    else some (change_kind prior.status row.status row.transition)

abbrev is_exact : EventKind → Bool
is_exact k = elim k [ enter ↦ true | exit ↦ true | _ ↦ false ]

abbrev dated : Observed → Option ℕ → ℕ → Bool → Fact
dated row since observed exact = record {
  target = row.target;
  trade_date = row.trade_date;
  status = row.status;
  since_date = since;
  observed_from = observed;
  since_is_exact = exact;
  details = row.details;
}

-- The fact that an observation of that kind leaves.
abbrev pub new_fact : EventKind → Observed → Fact
new_fact k row =
    dated row (if is_exact k then some row.trade_date else none) row.trade_date (is_exact k)

-- The fact that an observation without an event leaves.
abbrev pub kept_fact : Fact → Observed → Fact
kept_fact prior row = dated row prior.since_date prior.observed_from prior.since_is_exact

-- What the loop over the ordered observations carries.
pub record Draft : Type 0 where
  pub current : Dict Target Fact
  pub last : Dict Target Fact

abbrev pub settle_fact : Fact → Draft → Draft
settle_fact f d = record { current = put d.current f.target f; last = put d.last f.target f }

-- The event of an observation, if it is one, and the fact that it leaves.
unfoldable pub advance : Option Fact → Observed → Option EventKind × Fact
unfolding change
advance none row = (some baseline, new_fact baseline row)
advance (some prior) row = elim (change prior row) [
  | some k ↦ (some k, new_fact k row)
  | none ↦ (none, kept_fact prior row)
]

abbrev pub attach : Option EventKind → Fact → List (Fact × EventKind) → List (Fact × EventKind)
attach none f events = events
attach (some k) f events = (f, k) ∷ events

-- the loop over the ordered observations
unfoldable pub trace : List Observed → Draft → List (Fact × EventKind) × Draft
unfolding advance get put
trace [] d = ([], d)
trace (row ∷ rows) d =
    let made = advance (get d.current row.target) row in
    let rest = trace rows (settle_fact made.1 d) in (attach made.0 made.1 rest.0, rest.1)
