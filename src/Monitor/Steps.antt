-- ===== src/Monitor/Steps.antt =====
-- The calls in any order, and proofs that each keeps the limit of 100 monitored securities.
use mathlib.Core.Path.{subst}
use apanel.Base.{
  nat_equality, bool_equality, pair_equality, option_equality, ◌=?◌, beq→eq, text_equality, ℕ, ◌≡◌,
  refl, ◌⊎◌, inl, inr, Bool, true, false, not, ◌&&◌, ◌||◌, Option, none, some, List, [], ◌∷◌, ◌++◌,
  arith, ◌==◌, if◌then◌else◌, Bool-cases, Option-cases, get_or_else, raise_if, ◌>>◌, Ensures,
  Ensures-bind, Ensures-ok, Ensures-elim, Result, err, ok,
}
use apanel.Base.Dict.{Dict, get}
use apanel.Base.Slices.{filter, is_in}
use apanel.Monitor.Capacity.{
  watched, alerted, monitored, ensure_monitor_capacity, require_active, require_owned, find_symbol,
  next_symbol_position, add_stock, remove_stock, create_rule, find_rule, set_rule, update_rule,
  delete_rule, stock_exists, stock_not_found, invalid_condition, WatchTableSymbol, AlertRule,
  Database,
}
use apanel.Monitor.Limits.{
  WithinLimit, is_in-append, monitored_within, kept_limit, grown_limit, set_rule_targets,
  find_rule-user,
}

-- The steps that only remove targets.
watched-filter :
    (owners : Dict ℕ ℕ) (v x : ℕ) (p : WatchTableSymbol → Bool) (ms : List WatchTableSymbol)
    → is_in x (watched owners v (filter p ms)) ≡ true
    → is_in x (watched owners v ms) ≡ true
unfolding watched filter
watched-filter owners v x p [] h = h
watched-filter owners v x p (m ∷ ms) h = ground (arith, h, watched-filter owners v x p ms)

alerted-filter :
    (v x : ℕ) (p : AlertRule → Bool) (rs : List AlertRule)
    → is_in x (alerted v none (filter p rs)) ≡ true
    → is_in x (alerted v none rs) ≡ true
unfolding alerted filter
alerted-filter v x p [] h = h
alerted-filter v x p (r ∷ rs) h = ground (arith, h, alerted-filter v x p rs)

remove_stock-WithinLimit :
    (u table security : ℕ) (db : Database)
    → WithinLimit db
    → Ensures WithinLimit (remove_stock u table security db)
unfolding remove_stock monitored
remove_stock-WithinLimit u table security db within =
    Ensures-bind WithinLimit
      (require_owned table u db
        >> raise_if (not (find_symbol table security db.memberships)) stock_not_found)
      _
      λ _ _.
        kept_limit db _
          (λ v x h.
            let p = λ (m : WatchTableSymbol).
              not (m.watch_table_id == table && m.security_id == security) in
            let fewer =
              is_in-append x (watched db.owners v (filter p db.memberships))
                (alerted v none db.rules) in
            let all_of =
              is_in-append x (watched db.owners v db.memberships) (alerted v none db.rules) in
            ground (arith, h, fewer, all_of, watched-filter db.owners v x p db.memberships))
          within

delete_rule-WithinLimit :
    (u number : ℕ) (db : Database) → WithinLimit db → Ensures WithinLimit (delete_rule u number db)
unfolding delete_rule monitored
delete_rule-WithinLimit u number db within =
    Ensures-elim WithinLimit (find_rule u number db.rules) _ _ tt λ rule.
      kept_limit db _
        (λ v x h.
          let p = λ (r : AlertRule). not (r.id == rule.id) in
          let ws = watched db.owners v db.memberships in
          let fewer = is_in-append x ws (alerted v none (filter p db.rules)) in
          let all_of = is_in-append x ws (alerted v none db.rules) in
          ground (arith, h, fewer, all_of, alerted-filter v x p db.rules))
        within

both_ok : {E : Type 0} (a b : Result E (Unit {0})) → (a >> b) ≡ ok tt → (a ≡ ok tt) × (b ≡ ok tt)
both_ok (ok tt) b h = (refl, h)
both_ok (err x) b h = cc h

require_owned-owner :
    (u table : ℕ) (db : Database) → require_owned table u db ≡ ok tt → get db.owners table ≡ some u
unfolding require_owned
require_owned-owner u table db h = elim (Bool-cases (get db.owners table =? some u)) [
  | inl own ↦ beq→eq (get db.owners table) (some u) own
  | inr foreign ↦ cc (rw foreign at h)
]

added_targets :
    (u table security x v : ℕ) (db : Database)
    → get db.owners table ≡ some u
    → is_in x (
        monitored v none (record db {
          memberships =
              record {
                watch_table_id = table;
                security_id = security;
                position = next_symbol_position table db.memberships;
              }
              ∷ db.memberships;
        }))
      ≡ true
    → ((v == u ≡ true) × (is_in x (security ∷ monitored u none db) ≡ true))
      ⊎ ((v == u ≡ false) × (is_in x (monitored v none db) ≡ true))
unfolding monitored watched
added_targets u table security x v db owner h =
    let there = rw owner at h in
    elim (Bool-cases (v == u)) [
      | inl this ↦
          let flip : (u == v) ≡ true = ground (arith, this) in
          let here : v ≡ u = ground (arith, this) in
          inl (
            this,
            subst
                (λ z.
                  is_in x (security ∷ watched db.owners z db.memberships ++ alerted z none db.rules)
                  ≡ true)
                here (rw flip at there),
          )
      | inr other ↦
          let flip : (u == v) ≡ false = ground (arith, other) in inr (other, rw flip at there)
    ]

created_targets :
    (u number security x v : ℕ) (db : Database)
    → is_in x (
        monitored v none (record db {
          rules =
              record { id = number; user_id = u; security_id = security; enabled = true }
              ∷ db.rules;
        }))
      ≡ true
    → ((v == u ≡ true) × (is_in x (security ∷ monitored u none db) ≡ true))
      ⊎ ((v == u ≡ false) × (is_in x (monitored v none db) ≡ true))
unfolding monitored alerted
created_targets u number security x v db h =
    let ws = λ (z : ℕ). watched db.owners z db.memberships in
    let rs = λ (z : ℕ). alerted z none db.rules in
    elim (Bool-cases (v == u)) [
      | inl this ↦
          let flip : (u == v) ≡ true = ground (arith, this) in
          let here : v ≡ u = ground (arith, this) in
          let there : is_in x (ws v ++ security ∷ rs v) ≡ true = rw flip at h in
          let turned : is_in x (security ∷ ws v ++ rs v) ≡ true =
            ground (
              arith,
              there,
              is_in-append x (ws v) (security ∷ rs v),
              is_in-append x (ws v) (rs v),
            ) in
          inl (this, subst (λ z. is_in x (security ∷ ws z ++ rs z) ≡ true) here turned)
      | inr other ↦ let flip : (u == v) ≡ false = ground (arith, other) in inr (other, rw flip at h)
    ]

unchanged_targets :
    (u number security x v : ℕ) (db : Database)
    → is_in x (
        monitored v none (record db {
          rules =
              record { id = number; user_id = u; security_id = security; enabled = false }
              ∷ db.rules;
        }))
      ≡ true
    → is_in x (monitored v none db) ≡ true
unfolding monitored alerted
unchanged_targets u number security x v db h = elim (Bool-cases (u == v)) [
  | inl own ↦ rw own at h
  | inr foreign ↦ rw foreign at h
]

-- After a change of a rule, the targets are those without it, and its new one if it is enabled.
changed_targets :
    (v x : ℕ) (new : AlertRule) (db : Database)
    → is_in x (monitored v none (record db { rules = set_rule new db.rules })) ≡ true
    → ((new.user_id == v && new.enabled && new.security_id == x)
        || is_in x (monitored v (some new.id) db))
      ≡ true
unfolding monitored
changed_targets v x new db h =
    let ws = watched db.owners v db.memberships in
    let before = is_in-append x ws (alerted v (some new.id) db.rules) in
    let after = is_in-append x ws (alerted v none (set_rule new db.rules)) in
    ground (arith, h, before, after, set_rule_targets v x new db.rules)

add_stock-WithinLimit :
    (u table security : ℕ) (db : Database)
    → WithinLimit db
    → Ensures WithinLimit (add_stock u table security db)
unfolding add_stock
add_stock-WithinLimit u table security db within =
    let asked =
      require_owned table u db
      >> require_active security db
      >> raise_if (find_symbol table security db.memberships) stock_exists in
    Ensures-bind WithinLimit (asked >> ensure_monitor_capacity u security none db) _ λ _ done.
      let (first, room) = both_ok asked (ensure_monitor_capacity u security none db) done in
      let (front, _) = both_ok (require_owned table u db >> require_active security db) _ first in
      let (owned, _) = both_ok (require_owned table u db) _ front in
      grown_limit u security none db _ room
        (λ v x h. added_targets u table security x v db (require_owned-owner u table db owned) h)
        within

create_rule-WithinLimit :
    (u number security : ℕ) (enabled is_valid : Bool) (db : Database)
    → WithinLimit db
    → Ensures WithinLimit (create_rule u number security enabled is_valid db)
unfolding create_rule
create_rule-WithinLimit u number security enabled is_valid db within =
    let asked = if enabled then ensure_monitor_capacity u security none db else ok tt in
    Ensures-bind WithinLimit
      (asked >> require_active security db >> raise_if (not is_valid) invalid_condition) _
      λ _ done.
        let (front, _) = both_ok (asked >> require_active security db) _ done in
        let (room, _) = both_ok asked _ front in created enabled room
  where
    created :
        (b : Bool)
        → (if b then ensure_monitor_capacity u security none db else ok tt) ≡ ok tt
        → WithinLimit (record db {
          rules =
              record { id = number; user_id = u; security_id = security; enabled = b } ∷ db.rules;
        })
    created true room =
        grown_limit u security none db _ room (λ v x h. created_targets u number security x v db h)
          within
    created false room =
        kept_limit db _ (λ v x h. unchanged_targets u number security x v db h) within

updated :
    (u target : ℕ) (on : Bool) (rule : AlertRule) (db : Database)
    → rule.user_id ≡ u
    → (if on then ensure_monitor_capacity u target (some rule.id) db else ok tt) ≡ ok tt
    → WithinLimit db
    → WithinLimit (record db {
      rules = set_rule (record rule { security_id = target; enabled = on }) db.rules;
    })
updated u target true rule db own room within =
    grown_limit u target (some rule.id) db _ room
      (λ v x h.
        let new = record rule { security_id = target; enabled = true } in
        let there = changed_targets v x new db h in
        elim (Bool-cases (v == u)) [
          | inl this ↦
              let here : v ≡ u = ground (arith, this) in
              inl (
                this,
                subst (λ z. is_in x (target ∷ monitored z (some rule.id) db) ≡ true) here
                    (ground (arith, there)),
              )
          | inr other ↦
              inr
                (other, monitored_within v x (some rule.id) db (ground (arith, there, own, other)))
        ])
      within
updated u target false rule db own room within =
    kept_limit db _
      (λ v x h. monitored_within v x (some rule.id) db (
        ground (
          arith,
          changed_targets v x (record rule { security_id = target; enabled = false }) db h,
        )))
      within

update_rule-WithinLimit :
    (u number : ℕ) (security : Option ℕ) (enabled : Option Bool) (is_valid : Bool) (db : Database)
    → WithinLimit db
    → Ensures WithinLimit (update_rule u number security enabled is_valid db)
unfolding update_rule
update_rule-WithinLimit u number security enabled is_valid db within =
    elim (Option-cases (find_rule u number db.rules)) [
      | inl unknown ↦ rw (unknown, update_rule) tt
      | inr (rule, known) ↦
          let target = get_or_else security rule.security_id in
          let on = get_or_else enabled rule.enabled in
          let asked = require_active target db in
          let room = if on then ensure_monitor_capacity u target (some rule.id) db else ok tt in
          rw (known, update_rule)
            (Ensures-bind WithinLimit (asked >> room >> raise_if (not is_valid) invalid_condition) _
              λ _ done.
                let (front, _) = both_ok (asked >> room) _ done in
                let (_, has_room) = both_ok asked room front in
                updated u target on rule db (find_rule-user u number db.rules known) has_room
                  within)
    ]

-- One call, by any user.
pub data Step (db : Database) : Database → Type 0 where
  adds_stock :
      (u table security : ℕ) (n : Database) → add_stock u table security db ≡ ok n → Step db n
  removes_stock :
      (u table security : ℕ) (n : Database) → remove_stock u table security db ≡ ok n → Step db n
  creates_rule :
      (u number security : ℕ) (enabled is_valid : Bool) (n : Database)
      → create_rule u number security enabled is_valid db ≡ ok n
      → Step db n
  updates_rule :
      (u number : ℕ) (security : Option ℕ) (enabled : Option Bool) (is_valid : Bool) (n : Database)
      → update_rule u number security enabled is_valid db ≡ ok n
      → Step db n
  deletes_rule : (u number : ℕ) (n : Database) → delete_rule u number db ≡ ok n → Step db n

pub data Steps (db : Database) : Database → Type 0 where
  start : Steps db db
  later : {n k : Database} → Steps db n → Step n k → Steps db k

step-WithinLimit : (db n : Database) → Step db n → WithinLimit db → WithinLimit n
step-WithinLimit db n (adds_stock u table security k done) h =
    Ensures-ok WithinLimit (add_stock u table security db)
      (add_stock-WithinLimit u table security db h) done
step-WithinLimit db n (removes_stock u table security k done) h =
    Ensures-ok WithinLimit (remove_stock u table security db)
      (remove_stock-WithinLimit u table security db h) done
step-WithinLimit db n (creates_rule u number security enabled is_valid k done) h =
    Ensures-ok WithinLimit (create_rule u number security enabled is_valid db)
      (create_rule-WithinLimit u number security enabled is_valid db h) done
step-WithinLimit db n (updates_rule u number security enabled is_valid k done) h =
    Ensures-ok WithinLimit (update_rule u number security enabled is_valid db)
      (update_rule-WithinLimit u number security enabled is_valid db h) done
step-WithinLimit db n (deletes_rule u number k done) h =
    Ensures-ok WithinLimit (delete_rule u number db) (delete_rule-WithinLimit u number db h) done

-- From a database in which every user monitors at most 100 distinct securities, by watch tables and
-- enabled rules together, no sequence of calls of any users leads to one in which somebody monitors
-- more.
pub steps-WithinLimit : (db n : Database) → Steps db n → WithinLimit db → WithinLimit n
steps-WithinLimit db n start h = h
steps-WithinLimit db n (later {n = k} before step) h =
    step-WithinLimit k n step (steps-WithinLimit db k before h)
