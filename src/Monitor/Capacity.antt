-- ===== src/Monitor/Capacity.antt =====
-- `ensure_monitor_capacity` of backend/app/services/analysis_control.py, and the calls of
-- backend/app/services/watch_table_service.py and alert_service.py that make or undo a target of it.
use apanel.Base.{
  nat_equality, bool_equality, pair_equality, option_equality, ◌=?◌, text_equality, ℕ, max, ◌+◌,
  Bool, not, ◌&&◌, Option, none, some, List, [], ◌∷◌, ◌++◌, leb, ◌==◌, if◌then◌else◌, get_or_else,
  length, any, raise_if, ◌>>◌, Result, err, ok,
}
use apanel.Base.Dict.{Dict, get}
use apanel.Base.Slices.{filter, is_in}

pub data MonitorError : Type 0 where
  table_not_found security_not_found security_inactive : MonitorError
  stock_exists stock_not_found limit_exceeded rule_not_found invalid_condition : MonitorError

pub record WatchTableSymbol : Type 0 where
  pub watch_table_id : ℕ
  pub security_id : ℕ
  pub position : ℕ

pub record AlertRule : Type 0 where
  pub id : ℕ
  pub user_id : ℕ
  pub security_id : ℕ
  pub enabled : Bool

-- `owners` are the users of the watch tables, `active` says of a known security whether it is active.
pub record Database : Type 0 where
  pub owners : Dict ℕ ℕ
  pub active : Dict ℕ Bool
  pub memberships : List WatchTableSymbol
  pub rules : List AlertRule

-- The set of some values, without repetitions
unfoldable pub distinct : List ℕ → List ℕ
distinct [] = []
distinct (x ∷ xs) = let rest = distinct xs in if is_in x xs then rest else x ∷ rest

module _ (owners : Dict ℕ ℕ) (u : ℕ) where
  unfoldable pub watched : List WatchTableSymbol → List ℕ
  unfolding get
  watched [] = []
  watched (m ∷ ms) =
      let rest = watched ms in
      if get owners m.watch_table_id =? some u then m.security_id ∷ rest else rest

-- `exclude` is the rule that is about to change.
unfoldable pub alerted : ℕ → Option ℕ → List AlertRule → List ℕ
alerted u exclude [] = []
alerted u exclude (r ∷ rs) =
    let rest = alerted u exclude rs in
    if r.user_id == u && r.enabled && not (exclude =? some r.id) then r.security_id ∷ rest else rest

unfoldable pub monitored : ℕ → Option ℕ → Database → List ℕ
unfolding watched alerted
monitored u exclude db = watched db.owners u db.memberships ++ alerted u exclude db.rules

unfoldable pub ensure_monitor_capacity :
    ℕ → ℕ → Option ℕ → Database → Result MonitorError (Unit {0})
unfolding monitored distinct
ensure_monitor_capacity u security exclude db =
    let ids = monitored u exclude db in
    raise_if (not (is_in security ids) && leb 100 (length (distinct ids))) limit_exceeded

-- The security, which must be known and active
unfoldable pub require_active : ℕ → Database → Result MonitorError (Unit {0})
unfolding get
require_active security db = elim (get db.active security) [
  | none ↦ err security_not_found
  | some is_active ↦ raise_if (not is_active) security_inactive
]

-- `_owned`
unfoldable pub require_owned : ℕ → ℕ → Database → Result MonitorError (Unit {0})
unfolding get
require_owned table u db = raise_if (not (get db.owners table =? some u)) table_not_found

unfoldable pub find_symbol : ℕ → ℕ → List WatchTableSymbol → Bool
find_symbol table security ms = any (λ m. m.watch_table_id == table && m.security_id == security) ms

unfoldable pub next_symbol_position : ℕ → List WatchTableSymbol → ℕ
next_symbol_position table [] = 0
next_symbol_position table (m ∷ ms) =
    let rest = next_symbol_position table ms in
    if m.watch_table_id == table then max (m.position + 1) rest else rest

unfoldable pub add_stock : ℕ → ℕ → ℕ → Database → Result MonitorError Database
unfolding require_owned require_active find_symbol ensure_monitor_capacity next_symbol_position
add_stock u table security db =
    require_owned table u db
    >> require_active security db
    >> raise_if (find_symbol table security db.memberships) stock_exists
    >> ensure_monitor_capacity u security none db
    >> ok (record db {
      memberships =
          record {
            watch_table_id = table;
            security_id = security;
            position = next_symbol_position table db.memberships;
          }
          ∷ db.memberships;
    })

unfoldable pub remove_stock : ℕ → ℕ → ℕ → Database → Result MonitorError Database
unfolding require_owned find_symbol filter
remove_stock u table security db =
    require_owned table u db
    >> raise_if (not (find_symbol table security db.memberships)) stock_not_found
    >> ok (record db {
      memberships =
          filter (λ m. not (m.watch_table_id == table && m.security_id == security)) db.memberships;
    })

-- `AlertService.create`: the condition is checked by `_condition_fields`, and the row gets its number
-- from the table.
unfoldable pub create_rule : ℕ → ℕ → ℕ → Bool → Bool → Database → Result MonitorError Database
unfolding require_active ensure_monitor_capacity
create_rule u number security enabled is_valid db =
    (if enabled then ensure_monitor_capacity u security none db else ok tt)
    >> require_active security db
    >> raise_if (not is_valid) invalid_condition
    >> ok (record db {
      rules =
          record { id = number; user_id = u; security_id = security; enabled = enabled } ∷ db.rules;
    })

unfoldable pub find_rule : ℕ → ℕ → List AlertRule → Option AlertRule
find_rule u number [] = none
find_rule u number (r ∷ rs) =
    if r.id == number && r.user_id == u then some r else find_rule u number rs

unfoldable pub set_rule : AlertRule → List AlertRule → List AlertRule
set_rule new [] = []
set_rule new (r ∷ rs) = (if r.id == new.id then new else r) ∷ set_rule new rs

-- `AlertService.update`, as far as the target goes: what is not given stays.
unfoldable pub update_rule :
    ℕ → ℕ → Option ℕ → Option Bool → Bool → Database → Result MonitorError Database
unfolding find_rule require_active ensure_monitor_capacity set_rule
update_rule u number security enabled is_valid db = elim (find_rule u number db.rules) [
  | none ↦ err rule_not_found
  | some rule ↦
      let target = get_or_else security rule.security_id in
      let on = get_or_else enabled rule.enabled in
      require_active target db
      >> (if on then ensure_monitor_capacity u target (some rule.id) db else ok tt)
      >> raise_if (not is_valid) invalid_condition
      >> ok (record db {
        rules = set_rule (record rule { security_id = target; enabled = on }) db.rules;
      })
]

unfoldable pub delete_rule : ℕ → ℕ → Database → Result MonitorError Database
unfolding find_rule filter
delete_rule u number db = elim (find_rule u number db.rules) [
  | none ↦ err rule_not_found
  | some rule ↦ ok (record db { rules = filter (λ r. not (r.id == rule.id)) db.rules })
]
