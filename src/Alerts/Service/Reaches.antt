-- ===== src/Alerts/Service/Reaches.antt =====
-- Where a scheduled evaluation leaves the instance.
use apanel.Base.{
  nat_equality, bool_equality, pair_equality, option_equality, ◌=?◌, beq→eq, text_equality, ℕ, ◌+◌,
  ◌≤◌, ◌≡◌, refl, inl, inr, Bool, true, false, not, ◌&&◌, Option, none, some, List, arith, ltb,
  ◌==◌, if◌then◌else◌, Bool-cases, Option-cases, length, ◌>>=◌, Ensures, Ensures-bind, Ensures-elim,
  Result, err, ok,
}
use apanel.Base.Number.{Number}
use apanel.Alerts.Observations.{status}
use apanel.Alerts.Evaluator.{Given}
use apanel.Alerts.Service.Records.{
  enqueue_trigger, on_states, ServiceError, StoredRule, AlertInstance, StateEvent, SnapshotRow,
  Stream, Store, Desk,
}
use apanel.Alerts.Service.Replay.{
  max_catchup_rows, due_events, due_snapshots, evaluate_given, replay_events, replay_snapshots,
  settle, consumed_to, catch_up_states, catch_up_values, published, catch_up,
}
use apanel.Alerts.Service.Evaluation.{
  renewed, desk_of, commit, missed_since, caught_up, evaluate_today, evaluate_resolved, fresh_row,
  evaluate_observed, Resolved,
}
use apanel.Alerts.Service.Keeps.{WhenDone, catch_up-keeps, Survives}

-- An instance of the rule's version that has been evaluated up to `day` or later.
abbrev pub HasReached : {F : Type 0} → ℕ → StoredRule F → AlertInstance → Type 0
HasReached day rule i =
    (i.rule_version ≡ rule.rule_version) × ((t : ℕ) × (i.last_evaluated ≡ some t) × (day ≤ t))

abbrev pub IsDone : {F : Type 0} → ℕ → Store F → Type 0
IsDone day s = (i : AlertInstance) × (s.instance_row ≡ some i) × HasReached day s.rule i

abbrev pub later : ℕ → Option ℕ → Bool
later day o = elim o [ none ↦ false | some t ↦ ltb day t ]

later-some : (day : ℕ) (o : Option ℕ) → later day o ≡ true → (t : ℕ) × (o ≡ some t) × (day ≤ t)
later-some day none h = absurd (ground (arith, h))
later-some day (some t) h = (t, refl, ground (arith, h))

module _ (number : Number) where
  open number use {Real}

  abbrev IsVersioned : Desk Real → Type 0
  IsVersioned d = d.row.rule_version ≡ d.rule.rule_version

  versioned : Survives IsVersioned
  unfolding enqueue_trigger
  versioned = record { at_status = λ _ _ h. h; at_trigger = λ _ _ _ h. h; at_row = λ _ _ _ h. h }

  -- What is in hand when older days are caught up.
  abbrev Landed : ℕ → Option (Desk Real) → Type 0
  Landed last none = Unit
  Landed last (some d) = d.row.last_evaluated ≡ some last

  catch_up_states-lands :
      (stream : Stream) (events : List StateEvent) (first last : ℕ) (today : Option (Given Real))
      (d : Desk Real)
      → Ensures
          (λ x. x.row.last_evaluated ≡ some last)
          (catch_up_states number stream events first last today d)
  unfolding catch_up_states
  catch_up_states-lands stream events first last today d =
      let due = due_events first last d.row.last_consumed_state_seq events in
      let P = λ (x : Desk Real). x.row.last_evaluated ≡ some last in
      elim (Bool-cases (ltb max_catchup_rows (length due))) [
        | inl large ↦ rw large tt
        | inr small ↦ rw small (
            Ensures-bind P (replay_events number due d) _ λ x _.
              Ensures-bind P (settle number today (consumed_to number stream.event_sequence x)) _
                λ y _. refl)
      ]

  catch_up_values-lands :
      (snapshots : List (SnapshotRow Real)) (first last : ℕ) (d : Desk Real)
      → Ensures
          (λ x. x.row.last_evaluated ≡ some last)
          (catch_up_values number snapshots first last d)
  unfolding catch_up_values
  catch_up_values-lands snapshots first last d =
      let due = due_snapshots first last snapshots in
      elim (Bool-cases (ltb max_catchup_rows (length due))) [
        | inl large ↦ rw large tt
        | inr small ↦ rw small (
            Ensures-bind (λ x. x.row.last_evaluated ≡ some last) (replay_snapshots number due d) _
              λ x _. refl)
      ]

  Landed-some :
      (last : ℕ) (m : Result ServiceError (Desk Real))
      → Ensures (λ x. x.row.last_evaluated ≡ some last) m
      → Ensures (Landed last) (m >>= λ x. ok (some x))
  Landed-some last (ok d) h = h
  Landed-some last (err e) h = tt

  catch_up-lands :
      (s : Store Real) (evaluated last : ℕ) (today : Option (Given Real)) (d : Desk Real)
      → Ensures (Landed last) (catch_up number s evaluated last today d)
  unfolding catch_up
  catch_up-lands s evaluated last today d = elim (Bool-cases (on_states d.rule.domain)) [
    | inl states ↦ elim (Option-cases (published number s.stream)) [
      | inl absent ↦ rw (states, absent) tt
      | inr (x, present) ↦
          rw (states, present)
            (Landed-some last (catch_up_states number x s.events (evaluated + 1) last today d)
              (catch_up_states-lands x s.events (evaluated + 1) last today d))
    ]
    | inr values ↦ rw values (
        Landed-some last (catch_up_values number s.snapshots (evaluated + 1) last d)
          (catch_up_values-lands s.snapshots (evaluated + 1) last d))
  ]

  evaluate_today-IsDone :
      (r : Resolved Real) (s : Store Real) (i : AlertInstance) (known : Bool)
      → i.rule_version ≡ s.rule.rule_version
      → Ensures (IsDone r.day) (evaluate_today number true r s i known)
  unfolding evaluate_today enqueue_trigger
  evaluate_today-IsDone r s i known v =
      Ensures-bind (IsDone r.day) (evaluate_given number s.rule.domain r.given (status i.status)) _
        λ e _. elim (Bool-cases (known && (i.last_evaluated =? some r.day))) [
          | inl seen ↦ rw seen (
            _,
            refl,
            (v, (r.day, beq→eq i.last_evaluated (some r.day) (ground (arith, seen)), omega arith)),
          )
          | inr fresh ↦ elim (Bool-cases e.triggered) [
            | inl loud ↦ rw (fresh, loud) (_, refl, (v, (r.day, refl, omega arith)))
            | inr quiet ↦ rw (fresh, quiet) (_, refl, (v, (r.day, refl, omega arith)))
          ]
        ]

  -- What `caught_up` hands on is versioned and has reached the day.
  abbrev Ready : ℕ → Option (Desk Real) → Type 0
  Ready day none = Unit
  Ready day (some d) = IsVersioned d × (d.row.last_evaluated ≡ some day)

  both :
      (day : ℕ) (m : Result ServiceError (Option (Desk Real)))
      → Ensures (WhenDone number IsVersioned versioned) m
      → Ensures (Landed day) m
      → Ensures (Ready day) m
  both day (ok (some d)) h g = (h, g)
  both day (ok none) h g = tt
  both day (err e) h g = tt

  caught_up-Ready :
      (s : Store Real) (since : Option ℕ) (day : ℕ) (today : Option (Given Real)) (d : Desk Real)
      → IsVersioned d
      → Ensures (Ready day) (caught_up number s since day today d)
  caught_up-Ready s none day today d v = tt
  caught_up-Ready s (some t) day today d v =
      both day (catch_up number s t day today d)
        (catch_up-keeps number IsVersioned versioned s t day today d v)
        (catch_up-lands s t day today d)

  finish-IsDone :
      (day : ℕ) (s : Store Real) (m : Result ServiceError (Option (Desk Real)))
      (k : Result ServiceError (Store Real))
      → Ensures (Ready day) m
      → Ensures (IsDone day) k
      → Ensures (IsDone day) (m >>= λ done. elim done [ some d ↦ ok (commit s d) | none ↦ k ])
  finish-IsDone day s (ok (some d)) k h g = (d.row, refl, (h.0, (day, h.1, omega arith)))
  finish-IsDone day s (ok none) k h g = g
  finish-IsDone day s (err e) k h g = tt

  evaluate_resolved-IsDone :
      (r : Resolved Real) (s : Store Real) (i : AlertInstance)
      → i.rule_version ≡ s.rule.rule_version
      → Ensures (IsDone r.day) (evaluate_resolved number true r s i)
  unfolding evaluate_resolved
  evaluate_resolved-IsDone r s i v =
      let since =
        if not s.rule.dividend then missed_since number r.day i.last_evaluated else none in
      elim (Bool-cases (elim i.last_evaluated [ none ↦ false | some t ↦ ltb r.day t ])) [
        | inl older ↦ rw older (i, refl, (v, later-some r.day i.last_evaluated older))
        | inr due ↦ rw due (
            finish-IsDone r.day s _ (evaluate_today number true r s i true)
              (caught_up-Ready s since r.day (some r.given) (desk_of s i) v)
              (evaluate_today-IsDone r s i true v))
      ]

  renewed-version : (version : ℕ) (i : AlertInstance) → (renewed version i).rule_version ≡ version
  unfolding renewed
  renewed-version version i = elim (Bool-cases (i.rule_version == version)) [
    | inl same ↦ rw same (ground (arith, same))
    | inr other ↦ rw other refl
  ]

  pub evaluate_observed-IsDone :
      (r : Resolved Real) (s : Store Real)
      → Ensures (IsDone r.day) (evaluate_observed number true r s)
  unfolding evaluate_observed
  evaluate_observed-IsDone r s =
      Ensures-elim (IsDone r.day) s.instance_row _ _
        (evaluate_today-IsDone r s (fresh_row number s.rule) false refl)
        λ i.
          evaluate_resolved-IsDone r s (renewed s.rule.rule_version i)
            (renewed-version s.rule.rule_version i)
