-- ===== src/Alerts/Service/Repeats.antt =====
-- A scheduled day that is evaluated again.
use mathlib.Core.Path.{subst}
use apanel.Base.{
  nat_equality, bool_equality, pair_equality, option_equality, beq_refl, eq→beq, text_equality, ℕ,
  ◌≤◌, ◌≡◌, refl, sym, ap, ◌∙◌, inl, inr, Bool, true, false, not, false≢true, Option, none, some,
  arith, ◌==◌, if◌then◌else◌, Bool-cases, Option-cases, if-split, Ensures, Ensures-bind, Ensures-ok,
  Ensures-if, ok,
}
use apanel.Base.Number.{Number}
use apanel.Alerts.Observations.{status}
use apanel.Alerts.Service.Records.{StoredRule, AlertInstance, Store}
use apanel.Alerts.Service.Replay.{evaluate_given, reached}
use apanel.Alerts.Service.Evaluation.{
  renewed, has_reached, missed_since, version_row, unavailable, evaluate_today, evaluate_resolved,
  fresh_row, evaluate_observed, evaluate_rule, Resolved,
}
use apanel.Alerts.Service.Reaches.{HasReached, IsDone, later, evaluate_observed-IsDone}

exactly : (day : ℕ) (o : Option ℕ) (t : ℕ) → o ≡ some t → day ≤ t → later day o ≡ false → t ≡ day
exactly day none t at le h = cc
exactly day (some u) t at le h = ground (arith, at, le, h)

module _ (number : Number) where
  open number use {Real}

  again-quiet :
      (r : Resolved Real) (s : Store Real) (i : AlertInstance)
      → i.last_evaluated ≡ some r.day
      → Ensures (λ x. x.outbox ≡ s.outbox) (evaluate_today number true r s i true)
  unfolding evaluate_today
  again-quiet r s i h =
      let P = λ (x : Store Real). x.outbox ≡ s.outbox in
      Ensures-bind P (evaluate_given number s.rule.domain r.given (status i.status)) _
        λ e _. rw (h, beq_refl (some r.day)) refl

  none_missed :
      (b : Bool) (day : ℕ) (o : Option ℕ) (t : ℕ)
      → o ≡ some t
      → day ≤ t
      → (if not b then missed_since number day o else none) ≡ none
  none_missed b day none t at le = ground arith
  none_missed b day (some u) t at le = ground arith

  evaluate_resolved-quiet :
      (r : Resolved Real) (s : Store Real) (i : AlertInstance)
      → HasReached r.day s.rule i
      → Ensures (λ x. x.outbox ≡ s.outbox) (evaluate_resolved number true r s i)
  unfolding evaluate_resolved
  evaluate_resolved-quiet r s i (v, (t, at, le)) =
      elim (Bool-cases (later r.day i.last_evaluated)) [
        | inl older ↦ rw older refl
        | inr same ↦
            rw (same, none_missed s.rule.dividend r.day i.last_evaluated t at le)
              (again-quiet r s i (at ∙ ap some (exactly r.day i.last_evaluated t at le same)))
      ]

  elim-some :
      {A B : Type 0} (o : Option A) (n : B) (f : A → B) (a : A)
      → o ≡ some a
      → elim o [ none ↦ n | some x ↦ f x ] ≡ f a
  elim-some none n f a h = cc
  elim-some (some x) n f a h = cc

  renewed-same :
      (version : ℕ) (i : AlertInstance) → i.rule_version ≡ version → renewed version i ≡ i
  unfolding renewed
  renewed-same version i h = rw (eq→beq i.rule_version version h) refl

  observed-known :
      (r : Resolved Real) (s : Store Real) (i : AlertInstance)
      → s.instance_row ≡ some i
      → i.rule_version ≡ s.rule.rule_version
      → evaluate_observed number true r s ≡ evaluate_resolved number true r s i
  unfolding evaluate_observed
  observed-known r s i present v =
      elim-some s.instance_row (evaluate_today number true r s (fresh_row number s.rule) false)
        (λ x. evaluate_resolved number true r s (renewed s.rule.rule_version x)) i present
      ∙ ap (evaluate_resolved number true r s) (renewed-same s.rule.rule_version i v)

  HasReached-sooner :
      (again day : ℕ) (rule : StoredRule Real) (i : AlertInstance)
      → again ≤ day
      → HasReached day rule i
      → HasReached again rule i
  HasReached-sooner again day rule i le (v, (t, at, reached)) =
      (v, (t, at, omega (arith, le, reached)))

  evaluate_observed-quiet :
      (again : Resolved Real) (x : Store Real)
      → IsDone again.day x
      → Ensures (λ y. y.outbox ≡ x.outbox) (evaluate_observed number true again x)
  evaluate_observed-quiet again x (i, present, done) =
      subst (λ m. Ensures (λ y. y.outbox ≡ x.outbox) m)
        (sym (observed-known again x i present done.0)) (evaluate_resolved-quiet again x i done)

  missed_since-reached :
      (day : ℕ) (o : Option ℕ) (t : ℕ) → o ≡ some t → day ≤ t → missed_since number day o ≡ none
  missed_since-reached day none t at le = refl
  missed_since-reached day (some u) t at le = ground (arith, at, le)

  -- A day without an observation, once the instance has reached it, catches nothing up.
  unavailable-quiet :
      (day : ℕ) (x : Store Real)
      → IsDone day x
      → Ensures (λ y. y.outbox ≡ x.outbox) (unavailable number day x)
  unfolding unavailable
  unavailable-quiet day x (i, present, (v, (t, at, le))) =
      let row : version_row number x ≡ some i =
        rw (present, eq→beq i.rule_version x.rule.rule_version v) refl in
      elim (Option-cases (has_reached x.stream day)) [
        | inl pending ↦ rw (pending, unavailable) refl
        | inr (seq, reached) ↦
            rw (reached, unavailable, row, missed_since-reached day i.last_evaluated t at le) refl
      ]

  evaluate_rule-quiet :
      (again : ℕ) (resolved : Option (Resolved Real)) (x : Store Real)
      → IsDone again x
      → Ensures (λ y. y.outbox ≡ x.outbox) (evaluate_rule number (some again) resolved x)
  unfolding evaluate_rule
  evaluate_rule-quiet again none x done =
      Ensures-if (λ y. y.outbox ≡ x.outbox) (not x.rule.domain.enabled) _ _ refl
        (unavailable-quiet again x done)
  evaluate_rule-quiet again (some r) x done =
      Ensures-if (λ y. y.outbox ≡ x.outbox) (not x.rule.domain.enabled) _ _ refl
        (if-split (Ensures λ y. y.outbox ≡ x.outbox) (r.day == again) _ _
          (λ same.
            let at : again ≡ r.day = ground (arith, same) in
            evaluate_observed-quiet r x (subst (λ d. IsDone d x) at done))
          (λ _. unavailable-quiet again x done))

  evaluate_rule-IsDone :
      (r : Resolved Real) (s : Store Real)
      → s.rule.domain.enabled ≡ true
      → Ensures (IsDone r.day) (evaluate_rule number (some r.day) (some r) s)
  unfolding evaluate_rule
  evaluate_rule-IsDone r s enabled =
      if-split (Ensures (IsDone r.day)) (not s.rule.domain.enabled) _ _
        (λ off. absurd (false≢true (ground (arith, off, enabled))))
        (λ _.
          if-split (Ensures (IsDone r.day)) (r.day == r.day) _ _
            (λ _. evaluate_observed-IsDone number r s)
            (λ other. absurd (false≢true (ground (arith, other)))))

  -- Once a scheduled evaluation of an enabled rule, for which an observation of its day was resolved, has
  -- returned, then from any rows in which the instance and the version of the rule are those that it
  -- left, a scheduled evaluation for that day or an older one, with any observation or with none, adds no
  -- row to the outbox if it returns.
  pub evaluate_rule-repeats :
      (r : Resolved Real) (again : ℕ) (resolved : Option (Resolved Real)) (s s' x x' : Store Real)
      → s.rule.domain.enabled ≡ true
      → evaluate_rule number (some r.day) (some r) s ≡ ok s'
      → x.instance_row ≡ s'.instance_row
      → x.rule.rule_version ≡ s'.rule.rule_version
      → again ≤ r.day
      → evaluate_rule number (some again) resolved x ≡ ok x'
      → x'.outbox ≡ x.outbox
  evaluate_rule-repeats r again resolved s s' x x' enabled first row version le second =
      let (i, present, done) =
        Ensures-ok (IsDone r.day) (evaluate_rule number (some r.day) (some r) s)
          (evaluate_rule-IsDone r s enabled) first in
      Ensures-ok (λ y. y.outbox ≡ x.outbox) (evaluate_rule number (some again) resolved x)
        (evaluate_rule-quiet again resolved x (
          i,
          row ∙ present,
          HasReached-sooner again r.day x.rule i le (done.0 ∙ sym version, done.1),
        ))
        second
