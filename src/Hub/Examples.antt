-- ===== src/Hub/Examples.antt =====
-- Records with numbers for identities, and the theorem at a concrete input.
use mathlib.Core.List.{Permᴰ}
use apanel.Base.{nat_equality, pair_equality, ℕ, ◌≡◌, refl, List, [], ◌∷◌, err, ok}
use apanel.Hub.Facts.{unique_facts, conflicting}
use apanel.Hub.Days.{by_day}
use apanel.Hub.Orders.{unique_facts-permuted}

-- A day and a price.
abbrev Bar : Type 0
Bar = ℕ × ℕ

abbrev day_of : Bar → ℕ
day_of b = b.0

abbrev answer : List Bar
answer = (3, 30) ∷ (1, 10) ∷ (3, 30) ∷ []

abbrev another_answer : List Bar
another_answer = (1, 10) ∷ (3, 30) ∷ (3, 30) ∷ []

duplicates_collapse : unique_facts day_of by_day answer ≡ ok ((1, 10) ∷ (3, 30) ∷ [])
unfolding unique_facts
duplicates_collapse = refl

conflicts_are_rejected :
    unique_facts day_of by_day ((3, 30) ∷ (1, 10) ∷ (3, 31) ∷ []) ≡ err conflicting
unfolding unique_facts
conflicts_are_rejected = refl

unique_facts-permuted_example :
    unique_facts day_of by_day answer ≡ unique_facts day_of by_day another_answer
unique_facts-permuted_example =
    unique_facts-permuted day_of by_day answer another_answer (Permᴰ.swap refl refl)
