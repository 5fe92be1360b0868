-- ===== src/Monitor/Examples.antt =====
-- One user, one watch table and one rule, and the theorem at a concrete input.
use apanel.Base.{
  nat_equality, bool_equality, pair_equality, option_equality, text_equality, min, ◌≡◌, refl, true,
  false, not, some, List, [], ◌∷◌, ◌++◌, map, arith, ◌==◌, length, err, ok,
}
use apanel.Base.Dict.{get}
use apanel.Base.Slices.{take, drop, filter}
use apanel.Monitor.Columns.{
  move_column, counted, move_column-counted, add_column, add_column-counted, TableColumn,
}
use apanel.Monitor.Capacity.{
  distinct, watched, alerted, monitored, ensure_monitor_capacity, require_active, require_owned,
  find_symbol, next_symbol_position, add_stock, table_not_found, security_inactive, Database,
}
use apanel.Monitor.Limits.{WithinLimit}
use apanel.Monitor.Steps.{steps-WithinLimit, adds_stock, start, later}

abbrev empty_database : Database
empty_database = record {
  owners = (10, 1) ∷ [];
  active = (600519, true) ∷ (1, false) ∷ [];
  memberships = [];
  rules = [];
}

abbrev one_stock : Database
one_stock = record empty_database {
  memberships = record { watch_table_id = 10; security_id = 600519; position = 0 } ∷ [];
}

adds_one : add_stock 1 10 600519 empty_database ≡ ok one_stock
unfolding add_stock require_owned require_active find_symbol ensure_monitor_capacity
    next_symbol_position monitored watched alerted distinct get
adds_one = refl

inactive_is_refused : add_stock 1 10 1 empty_database ≡ err security_inactive
unfolding add_stock require_owned require_active find_symbol ensure_monitor_capacity
    next_symbol_position monitored watched alerted distinct get
inactive_is_refused = refl

foreign_table_is_refused : add_stock 2 10 600519 empty_database ≡ err table_not_found
unfolding add_stock require_owned require_active find_symbol ensure_monitor_capacity
    next_symbol_position monitored watched alerted distinct get
foreign_table_is_refused = refl

empty-WithinLimit : WithinLimit empty_database
unfolding WithinLimit monitored watched alerted distinct
empty-WithinLimit u = ground arith

steps-WithinLimit_example : WithinLimit one_stock
steps-WithinLimit_example =
    steps-WithinLimit empty_database one_stock
      (later start (adds_stock 1 10 600519 one_stock adds_one)) empty-WithinLimit

abbrev three_columns : List TableColumn
three_columns = counted 0 (map (λ n. record { id = n; position = 0 }) (7 ∷ 8 ∷ 9 ∷ []))

abbrev middle_column : TableColumn
middle_column = record { id = 8; position = 1 }

abbrev new_column : TableColumn
new_column = record { id = 5; position = 0 }

add_column-counted_example :
    let (after, added) = add_column (some 1) new_column (counted 0 three_columns) in
    take 1 after ++ added ∷ drop 1 after
    ≡ counted 0 (take 1 three_columns ++ new_column ∷ drop 1 three_columns)
add_column-counted_example = add_column-counted (some 1) new_column three_columns

move_column-counted_example :
    let others = filter (λ c. not (c.id == 8)) three_columns in
    let (after, moved) = move_column middle_column 9 three_columns in
    take (min 9 (length others)) after ++ moved ∷ drop (min 9 (length others)) after
    ≡ counted 0 (
        take (min 9 (length others)) others
        ++ record { id = 8; position = 1 } ∷ drop (min 9 (length others)) others)
move_column-counted_example = move_column-counted middle_column 9 three_columns
