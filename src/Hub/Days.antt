-- ===== src/Hub/Days.antt =====
-- The order of days and of instants, as numbers.
use apanel.Base.{ℕ, ◌≡◌, true, false, arith, ltb}
use apanel.Hub.Facts.{Order}

pub ltb_asym : (a b : ℕ) → ltb a b ≡ true → ltb b a ≡ false
ltb_asym a b h = ground (arith, h)

pub ltb_trans : (a b c : ℕ) → ltb a b ≡ true → ltb b c ≡ true → ltb a c ≡ true
ltb_trans a b c h k = ground (arith, h, k)

pub ltb_total : (a b : ℕ) → ltb a b ≡ false → ltb b a ≡ false → a ≡ b
ltb_total a b h k = ground (arith, h, k)

abbrev pub by_day : Order ℕ
by_day = record {
  before = ltb;
  before_asym = ltb_asym;
  before_trans = ltb_trans;
  before_total = ltb_total;
}
