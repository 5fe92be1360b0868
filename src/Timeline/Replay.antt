-- ===== src/Timeline/Replay.antt =====
-- What the events of a timeline say about the observations that they were made from.
use mathlib.Core.Path.{subst}
use apanel.Base.{
  beq, nat_equality, bool_equality, pair_equality, option_equality, beq→eq, text_equality, ◌≡◌,
  refl, sym, ap, ◌∙◌, ◌≢◌, ◌⊎◌, inl, inr, Bool, true, false, Option, none, some, List, [], ◌∷◌,
  if◌then◌else◌, Bool-cases, Option-cases,
}
use apanel.Base.Dict.{Dict, get, get-put}
use apanel.Alerts.Service.Records.{EventStatus, EventKind, baseline}
use apanel.Timeline.Records.{Target, same_status, same_status-eq, same_status_refl, Observed, Fact}
use apanel.Timeline.Loop.{change_kind, change, settle_fact, advance, attach, trace, Draft}

abbrev status_of : Option Fact → Option EventStatus
status_of none = none
status_of (some f) = some f.status

-- The status of a target in a dictionary of facts.
abbrev pub status_at : Target → Dict Target Fact → Option EventStatus
status_at k d = status_of (get d k)

-- The status of a target after some events, from the status before them.
abbrev pub replayed : Target → Option EventStatus → List (Fact × EventKind) → Option EventStatus
replayed k before [] = before
replayed k before ((f, _) ∷ events) =
    replayed k (if beq f.target k then some f.status else before) events

-- The last status that was observed of a target.
abbrev pub observed_last : Target → Option EventStatus → List Observed → Option EventStatus
observed_last k before [] = before
observed_last k before (row ∷ rows) =
    observed_last k (if beq row.target k then some row.status else before) rows

-- Each event of the target changes its status.
abbrev pub Changes : Target → Option EventStatus → List (Fact × EventKind) → Type 0
Changes k before [] = Unit
Changes k before ((f, _) ∷ events) =
    ((beq f.target k ≡ true) → before ≢ some f.status)
    × Changes k (if beq f.target k then some f.status else before) events

advance-status :
    (before : Option Fact) (row : Observed)
    → ((advance before row).1.status ≡ row.status) × ((advance before row).1.target ≡ row.target)
unfolding advance
advance-status none row = (refl, refl)
advance-status (some prior) row = elim (Option-cases (change prior row)) [
  | inl kept ↦ rw (kept, advance) (refl, refl)
  | inr (k, changed) ↦ rw (changed, advance) (refl, refl)
]

-- There is an event exactly if the status is new.
advance-event :
    (before : Option Fact) (row : Observed)
    → (((advance before row).0 ≡ none) × (status_of before ≡ some row.status))
      ⊎ ((k : EventKind) × ((advance before row).0 ≡ some k) × (status_of before ≢ some row.status))
unfolding advance change
advance-event none row = inr (baseline, refl, λ h. cc)
advance-event (some prior) row = elim (Bool-cases (same_status row.status prior.status)) [
  | inl same ↦
      inl (
        rw (same, advance, change) refl,
        ap some (sym (same_status-eq row.status prior.status same)),
      )
  | inr other ↦ inr (
    change_kind prior.status row.status row.transition,
    rw (other, advance, change) refl,
    λ h. cc (h, other, same_status_refl row.status),
  )
]

settle-status :
    (k : Target) (f : Fact) (d : Draft)
    → status_at k (settle_fact f d).current
      ≡ (if beq f.target k then some f.status else status_at k d.current)
settle-status k f d = rw (get-put d.current f.target f k) (if-status (beq f.target k))
  where
    if-status :
        (b : Bool)
        → status_of (if b then some f else get d.current k)
          ≡ (if b then some f.status else status_at k d.current)
    if-status true = refl
    if-status false = refl

-- An observation without an event does not change the status of its target.
silent :
    (k : Target) (row : Observed) (d : Draft)
    → status_at row.target d.current ≡ some row.status
    → (if beq row.target k then some row.status else status_at k d.current) ≡ status_at k d.current
silent k row d h = elim (Bool-cases (beq row.target k)) [
  | inl same ↦ rw same (sym h ∙ ap (λ t. status_at t d.current) (beq→eq row.target k same))
  | inr other ↦ rw other refl
]

-- What `trace` made of some observations, for one target.
abbrev pub IsFaithful :
    Target → Option EventStatus → List Observed → List (Fact × EventKind) → Draft → Type 0
IsFaithful k before rows events final =
    (replayed k before events ≡ observed_last k before rows)
    × (status_at k final.current ≡ observed_last k before rows)
    × Changes k before events

loud-cons :
    (k : Target) (row : Observed) (rows : List Observed) (before : Option EventStatus) (f : Fact)
    (kind : EventKind) (events : List (Fact × EventKind)) (final : Draft)
    → f.status ≡ row.status
    → f.target ≡ row.target
    → (beq row.target k ≡ true → before ≢ some row.status)
    → IsFaithful k (if beq row.target k then some row.status else before) rows events final
    → IsFaithful k before (row ∷ rows) ((f, kind) ∷ events) final
loud-cons k row rows before f kind events final status target new h =
    let Stepped = λ (t : Target) (s : EventStatus).
      (replayed k (if beq t k then some s else before) events ≡ observed_last k before (row ∷ rows))
      × (status_at k final.current ≡ observed_last k before (row ∷ rows))
      × ((beq t k ≡ true → before ≢ some s)
          × Changes k (if beq t k then some s else before) events) in
    let (p, q, c) = h in
    subst (λ t. Stepped t f.status) (sym target)
      (subst (λ s. Stepped row.target s) (sym status) (p, q, (new, c)))

trace-cons :
    (k : Target) (row : Observed) (rows : List Observed) (d : Draft)
    (events : List (Fact × EventKind)) (final : Draft)
    → IsFaithful k
        (if beq row.target k then some row.status else status_at k d.current)
        rows
        events
        final
    → let made = advance (get d.current row.target) row in
      IsFaithful k (status_at k d.current) (row ∷ rows) (attach made.0 made.1 events) final
trace-cons k row rows d events final (p, q, c) =
    let made = advance (get d.current row.target) row in
    elim (advance-event (get d.current row.target) row) [
      | inl (quiet, same) ↦
          let calm = silent k row d same in
          let (p', c') =
            subst
              (λ b.
                (replayed k b events
                  ≡ observed_last k
                      (if beq row.target k then some row.status else status_at k d.current) rows)
                × Changes k b events)
              calm (p, c) in
          rw quiet (p', q, c')
      | inr (kind, loud, new) ↦
          let (status, target) = advance-status (get d.current row.target) row in
          rw loud (
            loud-cons k row rows (status_at k d.current) made.1 kind events final status target
              (λ same h. new (ap (λ t. status_at t d.current) (beq→eq row.target k same) ∙ h))
              (p, q, c))
    ]

-- For every target, and from any facts to start from: the events that the loop makes of a sequence
-- of observations replay to the status that was observed last, each of them changes the status of
-- its target, and the current fact that the loop leaves has that status too.
pub trace-IsFaithful :
    (k : Target) (rows : List Observed) (d : Draft)
    → IsFaithful k (status_at k d.current) rows (trace rows d).0 (trace rows d).1
unfolding trace
trace-IsFaithful k [] d = (refl, refl, tt)
trace-IsFaithful k (row ∷ rows) d =
    let made = advance (get d.current row.target) row in
    let (status, target) = advance-status (get d.current row.target) row in
    let stepped : status_at k (settle_fact made.1 d).current
        ≡ (if beq row.target k then some row.status else status_at k d.current) =
      settle-status k made.1 d ∙ rw (status, target) refl in
    trace-cons k row rows d (trace rows (settle_fact made.1 d)).0
      (trace rows (settle_fact made.1 d)).1
      (subst
        (λ b.
          IsFaithful k b rows (trace rows (settle_fact made.1 d)).0
            (trace rows (settle_fact made.1 d)).1)
        stepped (trace-IsFaithful k rows (settle_fact made.1 d)))
