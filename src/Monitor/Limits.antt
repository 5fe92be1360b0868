-- ===== src/Monitor/Limits.antt =====
-- Proofs on the limit of 100 monitored securities.
use apanel.Base.{
  beq, nat_equality, bool_equality, pair_equality, option_equality, text_equality, ℕ, ◌≤◌, ◌≡◌, sym,
  ap, ◌∙◌, ◌⊎◌, inl, inr, true, false, ◌&&◌, ◌||◌, false≢true, Option, none, some, List, [], ◌∷◌,
  ◌++◌, arith, ◌==◌, Bool-cases, length, ok,
}
use apanel.Base.Slices.{any-append, is_in}
use apanel.Monitor.Capacity.{
  distinct, watched, alerted, monitored, ensure_monitor_capacity, find_rule, set_rule, AlertRule,
  Database,
}
use apanel.Monitor.Counting.{distinct_within}

-- Every user monitors at most 100 distinct securities.
unfoldable pub WithinLimit : Database → Type 0
unfolding distinct monitored
WithinLimit db = (u : ℕ) → length (distinct (monitored u none db)) ≤ 100

pub is_in-append : (x : ℕ) (xs ys : List ℕ) → is_in x (xs ++ ys) ≡ (is_in x xs || is_in x ys)
is_in-append x xs ys = any-append (λ y. beq y x) xs ys

alerted_within :
    (u x number : ℕ) (rs : List AlertRule)
    → is_in x (alerted u (some number) rs) ≡ true
    → is_in x (alerted u none rs) ≡ true
unfolding alerted
alerted_within u x number [] h = h
alerted_within u x number (r ∷ rs) h = ground (arith, h, alerted_within u x number rs)

pub monitored_within :
    (u x : ℕ) (exclude : Option ℕ) (db : Database)
    → is_in x (monitored u exclude db) ≡ true
    → is_in x (monitored u none db) ≡ true
unfolding monitored
monitored_within u x none db h = h
monitored_within u x (some number) db h =
    let ws = watched db.owners u db.memberships in
    let some_side = is_in-append x ws (alerted u (some number) db.rules) in
    let all_side = is_in-append x ws (alerted u none db.rules) in
    ground (arith, h, some_side, all_side, alerted_within u x number db.rules)

-- One more security, after the check
ensured_limit :
    (u s : ℕ) (exclude : Option ℕ) (db : Database)
    → ensure_monitor_capacity u s exclude db ≡ ok tt
    → WithinLimit db
    → length (distinct (s ∷ monitored u exclude db)) ≤ 100
unfolding ensure_monitor_capacity WithinLimit distinct
ensured_limit u s exclude db checked within =
    let fewer =
      distinct_within (monitored u exclude db) (monitored u none db)
        (λ x. monitored_within u x exclude db) in
    ground (arith, checked, fewer, within u)

-- A database whose targets lie within others keeps the limit.
pub kept_limit :
    (db after : Database)
    → ((u x : ℕ) → is_in x (monitored u none after) ≡ true → is_in x (monitored u none db) ≡ true)
    → WithinLimit db
    → WithinLimit after
unfolding WithinLimit
kept_limit db after fewer within u =
    omega
      (arith, within u, distinct_within (monitored u none after) (monitored u none db) (fewer u))

-- So does one that adds a checked security to a user's targets.
pub grown_limit :
    (u s : ℕ) (exclude : Option ℕ) (db after : Database)
    → ensure_monitor_capacity u s exclude db ≡ ok tt
    → ((v x : ℕ)
        → is_in x (monitored v none after) ≡ true
        → ((v == u ≡ true) × (is_in x (s ∷ monitored u exclude db) ≡ true))
          ⊎ ((v == u ≡ false) × (is_in x (monitored v none db) ≡ true)))
    → WithinLimit db
    → WithinLimit after
unfolding WithinLimit
grown_limit u s exclude db after checked targets within v = elim (Bool-cases (v == u)) [
  | inl this ↦
      let bound = ensured_limit u s exclude db checked within in
      let fewer = distinct_within (monitored v none after) (s ∷ monitored u exclude db) (λ x h.
        elim (targets v x h) [
          | inl (_, there) ↦ there
          | inr (other, _) ↦ absurd (false≢true (sym other ∙ this))
        ]) in
      omega (arith, bound, fewer)
  | inr other ↦
      let fewer = distinct_within (monitored v none after) (monitored v none db) (λ x h.
        elim (targets v x h) [
          | inl (this, _) ↦ absurd (false≢true (sym other ∙ this))
          | inr (_, there) ↦ there
        ]) in
      omega (arith, within v, fewer)
]

pub set_rule_targets :
    (v x : ℕ) (new : AlertRule) (rs : List AlertRule)
    → is_in x (alerted v none (set_rule new rs)) ≡ true
    → ((new.user_id == v && new.enabled && new.security_id == x)
        || is_in x (alerted v (some new.id) rs))
      ≡ true
unfolding alerted set_rule
set_rule_targets v x new [] h = ground (arith, h)
set_rule_targets v x new (r ∷ rs) h = ground (arith, h, set_rule_targets v x new rs)

some_eq : {A : Type 0} {a b : A} → some a ≡ some b → a ≡ b
some_eq h = cc h

pub find_rule-user :
    (u number : ℕ) (rs : List AlertRule) {r : AlertRule}
    → find_rule u number rs ≡ some r
    → r.user_id ≡ u
unfolding find_rule
find_rule-user u number [] h = cc h
find_rule-user u number (r ∷ rs) h = elim (Bool-cases (r.id == number && r.user_id == u)) [
  | inl this ↦ ap (λ r. r.user_id) (sym (some_eq (rw this at h))) ∙ ground (arith, this)
  | inr other ↦ find_rule-user u number rs (rw other at h)
]
