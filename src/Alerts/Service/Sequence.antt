-- ===== src/Alerts/Service/Sequence.antt =====
-- What an evaluation of a rule does to the outbox: rows are only appended, under new numbers.
use mathlib.Core.Path.{◌≡◌, sym}
use mathlib.Core.List.{append_assoc, append-nil}
use apanel.Base.{
  nat_equality, bool_equality, pair_equality, option_equality, ◌=?◌, text_equality, ℕ, max, ◌+◌,
  ◌≤◌, ◌<◌, ap, ◌∙◌, inl, inr, Bool, true, false, not, ◌&&◌, Option, none, some, List, [], ◌∷◌,
  ◌++◌, arith, ltb, ◌==◌, if◌then◌else◌, Bool-cases, ◌>>=◌, Ensures, Ensures-bind, Ensures-ok,
  Ensures-elim, Ensures-if, Result, ok, err,
}
use apanel.Base.Number.{Number}
use apanel.Alerts.Observations.{status}
use apanel.Alerts.Evaluator.{Given}
use apanel.Alerts.Service.Records.{
  enqueue_trigger, ServiceError, StoredRule, AlertInstance, Note, Store, Desk,
}
use apanel.Alerts.Service.Replay.{evaluate_given}
use apanel.Alerts.Service.Evaluation.{
  renewed, has_reached, desk_of, commit, mark_checked, missed_since, caught_up, version_row,
  unavailable, evaluate_today, evaluate_resolved, fresh_row, evaluate_observed, evaluate_rule,
  Resolved,
}
use apanel.Alerts.Service.Keeps.{WhenDone, catch_up-keeps, Survives}

module _ (number : Number) (Q : StoredRule (Number.Real number) → List Note → Type 0)
    (grow : (day : ℕ) (source : Option ℕ) (d : Desk (Number.Real number))
      → Q d.rule d.outbox
      → Q (enqueue_trigger day source d).rule (enqueue_trigger day source d).outbox) where
  open number use {Real}

  abbrev OnDesk : Desk Real → Type 0
  OnDesk d = Q d.rule d.outbox

  abbrev OnStore : Store Real → Type 0
  OnStore s = Q s.rule s.outbox

  survives : Survives OnDesk
  survives = record { at_status = λ _ _ h. h; at_trigger = grow; at_row = λ _ _ _ h. h }

  caught_up-keeps :
      (s : Store Real) (since : Option ℕ) (day : ℕ) (today : Option (Given Real)) (d : Desk Real)
      → OnDesk d
      → Ensures (WhenDone number OnDesk survives) (caught_up number s since day today d)
  caught_up-keeps s none day today d h = tt
  caught_up-keeps s (some t) day today d h = catch_up-keeps number OnDesk survives s t day today d h

  evaluate_today-keeps :
      (scheduled : Bool) (r : Resolved Real) (s : Store Real) (i : AlertInstance) (known : Bool)
      → OnStore s
      → Ensures OnStore (evaluate_today number scheduled r s i known)
  unfolding evaluate_today enqueue_trigger
  evaluate_today-keeps scheduled r s i known h =
      let again = scheduled && known && (i.last_evaluated =? some r.day) in
      Ensures-bind OnStore (evaluate_given number s.rule.domain r.given (status i.status)) _ λ e _.
        elim (Bool-cases again) [
          | inl seen ↦ rw seen h
          | inr fresh ↦ elim (Bool-cases e.triggered) [
            | inl loud ↦ rw (fresh, loud) (grow r.day none (desk_of s i) h)
            | inr quiet ↦ rw (fresh, quiet) h
          ]
        ]

  finish-keeps :
      (s : Store Real) (m : Result ServiceError (Option (Desk Real)))
      (k : Result ServiceError (Store Real))
      → Ensures (WhenDone number OnDesk survives) m
      → Ensures OnStore k
      → Ensures OnStore (m >>= λ done. elim done [ some d ↦ ok (commit s d) | none ↦ k ])
  finish-keeps s (ok (some d)) k h g = h
  finish-keeps s (ok none) k h g = g
  finish-keeps s (err e) k h g = tt

  evaluate_resolved-keeps :
      (scheduled : Bool) (r : Resolved Real) (s : Store Real) (i : AlertInstance)
      → OnStore s
      → Ensures OnStore (evaluate_resolved number scheduled r s i)
  unfolding evaluate_resolved
  evaluate_resolved-keeps scheduled r s i h =
      let since =
        if scheduled && not s.rule.dividend
        then missed_since number r.day i.last_evaluated
        else none in
      elim (Bool-cases
        (scheduled && elim i.last_evaluated [ none ↦ false | some t ↦ ltb r.day t ])) [
          | inl older ↦ rw older h
          | inr due ↦ rw due (
              finish-keeps s _ (evaluate_today number scheduled r s i true)
                (caught_up-keeps s since r.day (some r.given) (desk_of s i) h)
                (evaluate_today-keeps scheduled r s i true h))
        ]

  evaluate_observed-keeps :
      (scheduled : Bool) (r : Resolved Real) (s : Store Real)
      → OnStore s
      → Ensures OnStore (evaluate_observed number scheduled r s)
  unfolding evaluate_observed
  evaluate_observed-keeps scheduled r s h =
      Ensures-elim OnStore s.instance_row _ _
        (evaluate_today-keeps scheduled r s (fresh_row number s.rule) false h)
        λ i. evaluate_resolved-keeps scheduled r s (renewed s.rule.rule_version i) h

  marked-keeps :
      (s : Store Real) (m : Result ServiceError (Option (Desk Real))) (i : Option AlertInstance)
      → OnStore s
      → Ensures (WhenDone number OnDesk survives) m
      → Ensures OnStore (
          m >>= λ done.
          ok (elim done [ some d ↦ commit s d | none ↦ record s { instance_row = i } ]))
  marked-keeps s (ok (some d)) i h g = g
  marked-keeps s (ok none) i h g = h
  marked-keeps s (err e) i h g = tt

  missed-keeps :
      (day : ℕ) (s : Store Real) (o : Option AlertInstance)
      → OnStore s
      → Ensures (WhenDone number OnDesk survives) (elim o [
        | none ↦ ok none
        | some i ↦
            caught_up number s (missed_since number day i.last_evaluated) day none (desk_of s i)
      ])
  missed-keeps day s none h = tt
  missed-keeps day s (some i) h =
      caught_up-keeps s (missed_since number day i.last_evaluated) day none (desk_of s i) h

  unavailable-keeps :
      (day : ℕ) (s : Store Real) → OnStore s → Ensures OnStore (unavailable number day s)
  unfolding unavailable
  unavailable-keeps day s h = Ensures-elim OnStore (has_reached s.stream day) _ _ h λ seq.
      marked-keeps s _ (some (mark_checked s.rule day seq s.instance_row)) h
        (missed-keeps day s (version_row number s) h)

  pub evaluate_rule-keeps :
      (day : Option ℕ) (resolved : Option (Resolved Real)) (s : Store Real)
      → OnStore s
      → Ensures OnStore (evaluate_rule number day resolved s)
  unfolding evaluate_rule
  evaluate_rule-keeps day resolved s h = elim (Bool-cases (not s.rule.domain.enabled)) [
    | inl off ↦ rw off h
    | inr on ↦ rw on (
        Ensures-elim OnStore resolved _ _
          (Ensures-elim OnStore day _ _ h λ t. unavailable-keeps t s h)
          λ r. Ensures-elim OnStore day _ _ (evaluate_observed-keeps false r s h) λ t.
            Ensures-if OnStore (r.day == t) _ _ (evaluate_observed-keeps true r s h)
              (unavailable-keeps t s h))
  ]

-- The numbers of the outbox rows rise strictly, from above `low` up to at most `top`.
abbrev pub Ascends : ℕ → List Note → ℕ → Type 0
Ascends low [] top = low ≤ top
Ascends low (n ∷ l) top = (low < n.trigger_sequence) × Ascends n.trigger_sequence l top

Ascends-snoc :
    (low : ℕ) (l : List Note) (top : ℕ) (n : Note)
    → Ascends low l top
    → top < n.trigger_sequence
    → Ascends low (l ++ (n ∷ [])) n.trigger_sequence
Ascends-snoc low [] top n h g = (omega arith, omega arith)
Ascends-snoc low (x ∷ l) top n (p, h) g = (p, Ascends-snoc x.trigger_sequence l top n h g)

-- `b` is `a` with rows appended.
abbrev pub Extends : List Note → List Note → Type 0
Extends a b = (new : List Note) × (b ≡ a ++ new)

-- What holds of the rule and the outbox, against the outbox at the start.
abbrev Recorded : {F : Type 0} → List Note → StoredRule F → List Note → Type 0
Recorded start rule outbox = Ascends 0 outbox rule.trigger_sequence × Extends start outbox

Recorded-grow :
    {F : Type 0} (start : List Note) (day : ℕ) (source : Option ℕ) (d : Desk F)
    → Recorded start d.rule d.outbox
    → Recorded start (enqueue_trigger day source d).rule (enqueue_trigger day source d).outbox
unfolding enqueue_trigger
Recorded-grow start day source d (h, (new, e)) =
    let note : Note = record {
      trigger_sequence = max d.rule.trigger_sequence d.row.trigger_sequence + 1;
      rule_version = d.rule.rule_version;
      observation_date = day;
      source_event_id = source;
    } in
    (
      Ascends-snoc 0 d.outbox d.rule.trigger_sequence note h (omega arith),
      (new ++ (note ∷ []), ap (λ l. l ++ (note ∷ [])) e ∙ append_assoc start new (note ∷ [])),
    )

module _ (number : Number) where
  open number use {Real}

  -- Whatever store `_evaluate_rule` returns, if the numbers of the outbox rows rose strictly from 1
  -- up to the rule's trigger sequence before, they do so after, and the outbox is the one before with
  -- rows appended.
  pub evaluate_rule-Ascends :
      (day : Option ℕ) (resolved : Option (Resolved Real)) (s : Store Real) {s' : Store Real}
      → Ascends 0 s.outbox s.rule.trigger_sequence
      → evaluate_rule number day resolved s ≡ ok s'
      → Ascends 0 s'.outbox s'.rule.trigger_sequence × Extends s.outbox s'.outbox
  evaluate_rule-Ascends day resolved s h e =
      Ensures-ok (OnStore number (Recorded s.outbox) (Recorded-grow s.outbox))
        (evaluate_rule number day resolved s)
        (evaluate_rule-keeps number (Recorded s.outbox) (Recorded-grow s.outbox) day resolved s
          (h, ([], sym (append-nil s.outbox))))
        e
