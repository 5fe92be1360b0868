-- ===== src/Monitor/Columns.antt =====
-- The order of the columns of a watch table: `_move_column` of
-- backend/app/services/watch_table_service.py and `next_column_position` of
-- backend/app/repositories/watch_table.py, with the proofs on it.
use apanel.Base.{
  ℕ, zero, suc, max, min, ◌+◌, ◌≤◌, ◌≡◌, refl, sym, ap, ◌∙◌, inl, inr, true, false, not, Option,
  none, some, List, [], ◌∷◌, ◌++◌, map, arith, ltb, leb, ◌==◌, if◌then◌else◌, Bool-cases,
  get_or_else, length,
}
use apanel.Base.Slices.{take, drop, filter}

pub record TableColumn : Type 0 where
  pub id : ℕ
  pub position : ℕ

abbrev at_position : ℕ → TableColumn → TableColumn
at_position n c = record c { position = n }

-- The loop over `enumerate(rows)`, from an index on
unfoldable pub placed : ℕ → ℕ → List TableColumn → List TableColumn
placed index position [] = []
placed index position (c ∷ cs) =
    at_position (if ltb index position then index else index + 1) c ∷ placed (index + 1) position cs

-- `_move_column` on the columns of the table in their order: the other ones, and the moved one
unfoldable pub move_column : TableColumn → ℕ → List TableColumn → List TableColumn × TableColumn
unfolding filter placed
move_column column position rows =
    let others = filter (λ c. not (c.id == column.id)) rows in
    let clamped = min position (length others) in
    (placed 0 clamped others, at_position clamped column)

-- The columns with the positions that count from an index on
abbrev pub counted : ℕ → List TableColumn → List TableColumn
counted index [] = []
counted index (c ∷ cs) = at_position index c ∷ counted (index + 1) cs

placed_after :
    (index position : ℕ) (cs : List TableColumn)
    → position ≤ index
    → placed index position cs ≡ counted (index + 1) cs
unfolding placed
placed_after index position [] h = refl
placed_after index position (c ∷ cs) h =
    let late : ltb index position ≡ false = ground (arith, h) in
    rw (late, placed_after (index + 1) position cs (omega (arith, h))) refl

placed_around :
    (index n position : ℕ) (column : TableColumn) (cs : List TableColumn)
    → n ≤ length cs
    → position ≡ index + n
    → take n (placed index position cs)
        ++ at_position position column ∷ drop n (placed index position cs)
      ≡ counted index (take n cs ++ column ∷ drop n cs)
unfolding take drop placed
placed_around index zero position column cs h e =
    let here : position ≡ index = omega (arith, e) in
    cc (here, placed_after index position cs (omega (arith, e)))
placed_around index (suc n) position column [] h e = absurd (omega (arith, h))
placed_around index (suc n) position column (c ∷ cs) h e =
    let early : ltb index position ≡ true = ground (arith, e) in
    rw early (
      ap (λ r. at_position index c ∷ r)
        (placed_around (index + 1) n position column cs (omega (arith, h)) (omega (arith, e))))

-- A moved column stands at the position that was asked for, or last if that is past the end; the other
-- columns keep their order around it, and the positions count from 0 without a gap.
pub move_column-counted :
    (column : TableColumn) (position : ℕ) (rows : List TableColumn)
    → let others = filter (λ c. not (c.id == column.id)) rows in
      let n = min position (length others) in
      let (after, moved) = move_column column position rows in
      take n after ++ moved ∷ drop n after ≡ counted 0 (take n others ++ column ∷ drop n others)
unfolding move_column
move_column-counted column position rows =
    let others = filter (λ c. not (c.id == column.id)) rows in
    let n = min position (length others) in
    placed_around 0 n n column others (omega arith) (omega arith)

-- `next_column_position`
unfoldable pub next_column_position : List TableColumn → ℕ
next_column_position [] = 0
next_column_position (c ∷ cs) = max (c.position + 1) (next_column_position cs)

-- `if column.position >= position: column.position += 1`
abbrev shifted : ℕ → TableColumn → TableColumn
shifted position c = if leb position c.position then at_position (c.position + 1) c else c

-- The positions in `add_column`: where a position is asked for, it is clamped, and the columns from there
-- on make room.
unfoldable pub add_column :
    Option ℕ → TableColumn → List TableColumn → List TableColumn × TableColumn
unfolding next_column_position
add_column none column rows = (rows, at_position (next_column_position rows) column)
add_column (some asked) column rows =
    let position = min asked (next_column_position rows) in
    (map (shifted position) rows, at_position position column)

next_column_position-counted :
    (index : ℕ) (c : TableColumn) (cs : List TableColumn)
    → next_column_position (counted index (c ∷ cs)) ≡ index + length (c ∷ cs)
unfolding next_column_position
next_column_position-counted index c [] = ground arith
next_column_position-counted index c (d ∷ cs) =
    omega (arith, next_column_position-counted (index + 1) d cs)

next_column_position-start :
    (cs : List TableColumn) → next_column_position (counted 0 cs) ≡ length cs
unfolding next_column_position
next_column_position-start [] = refl
next_column_position-start (c ∷ cs) = next_column_position-counted 0 c cs ∙ omega arith

shifted-placed :
    (index position : ℕ) (cs : List TableColumn)
    → map (shifted position) (counted index cs) ≡ placed index position cs
unfolding placed
shifted-placed index position [] = refl
shifted-placed index position (c ∷ cs) = elim (Bool-cases (ltb index position)) [
  | inl early ↦
      let stays : leb position index ≡ false = ground (arith, early) in
      rw (early, stays) (ap (λ r. at_position index c ∷ r) (shifted-placed (index + 1) position cs))
  | inr late ↦
      let moves : leb position index ≡ true = ground (arith, late) in
      rw (late, moves)
        (ap (λ r. at_position (index + 1) c ∷ r) (shifted-placed (index + 1) position cs))
]

placed_past :
    (index position : ℕ) (cs : List TableColumn)
    → index + length cs ≤ position
    → placed index position cs ≡ counted index cs
unfolding placed
placed_past index position [] h = refl
placed_past index position (c ∷ cs) h =
    let early : ltb index position ≡ true = ground (arith, h) in
    rw early
      (ap (λ r. at_position index c ∷ r) (placed_past (index + 1) position cs (omega (arith, h))))

-- Where the positions count from 0 without a gap, they do after a column is added, at the position that
-- was asked for or last, with the other columns in their order around it.
pub add_column-counted :
    (asked : Option ℕ) (column : TableColumn) (cs : List TableColumn)
    → let (after, added) = add_column asked column (counted 0 cs) in
      let n = min (get_or_else asked (length cs)) (length cs) in
      take n after ++ added ∷ drop n after ≡ counted 0 (take n cs ++ column ∷ drop n cs)
unfolding add_column
add_column-counted none column cs =
    let n = min (length cs) (length cs) in
    let last : next_column_position (counted 0 cs) ≡ n =
      next_column_position-start cs ∙ omega arith in
    rw (last, sym (placed_past 0 n cs (omega arith)))
      (placed_around 0 n n column cs (omega arith) (omega arith))
add_column-counted (some asked) column cs =
    let n = min asked (length cs) in
    rw (next_column_position-start cs, shifted-placed 0 n cs)
      (placed_around 0 n n column cs (omega arith) (omega arith))
