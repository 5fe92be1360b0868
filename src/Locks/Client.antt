-- ===== src/Locks/Client.antt =====
-- The Redis client that a lock calls, as far as the commands SET NX EX, GET, DEL and EXPIRE go.
use apanel.Base.{
  nat_equality, bool_equality, pair_equality, option_equality, ◌=?◌, Text, text_equality, ℕ, ◌≤◌,
  ◌≡◌, Bool, ◌&&◌, Option, none, some, if◌then◌else◌, is_none, is_some,
}

-- The laws are those that the manual of Redis gives for keys that do not expire meanwhile.
pub record Client : Type 1 where
  pub Store : Type 0
  pub get : Store → Text → Option Text
  pub set_nx : Store → Text → Text → ℕ → Bool × Store
  pub del : Store → Text → Store
  pub expire : Store → Text → ℕ → Bool × Store
  pub set_nx_reply :
      (s : Store) (k v : Text) (n : ℕ) → 1 ≤ n → (set_nx s k v n).0 ≡ is_none (get s k)
  pub get-set_nx :
      (s : Store) (k v : Text) (n : ℕ) (j : Text)
      → 1 ≤ n
      → get (set_nx s k v n).1 j ≡ (if (k =? j) && is_none (get s k) then some v else get s j)
  pub get-del : (s : Store) (k j : Text) → get (del s k) j ≡ (if k =? j then none else get s j)
  pub expire_reply : (s : Store) (k : Text) (n : ℕ) → 1 ≤ n → (expire s k n).0 ≡ is_some (get s k)
  pub get-expire :
      (s : Store) (k : Text) (n : ℕ) (j : Text) → 1 ≤ n → get (expire s k n).1 j ≡ get s j
