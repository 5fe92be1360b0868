-- ===== src/Locks/Examples.antt =====
-- A lock on an association list, and the theorems at concrete inputs.
use apanel.Base.{
  nat_equality, bool_equality, pair_equality, option_equality, ◌=?◌, Text, text_equality, ℕ, ◌≤◌,
  ◌≡◌, refl, ◌↔◌, inl, inr, Bool, true, false, ◌&&◌, none, some, List, [], ◌∷◌, arith,
  if◌then◌else◌, Bool-cases, is_none, is_some, Ensures, ok,
}
use apanel.Base.Texts.{text}
use apanel.Base.Dict.{Dict, get, put, get-put, drop_keys, get-drop_keys}
use apanel.Base.Integers.{pos}
use apanel.Locks.Client.{Client}
use apanel.Locks.Lock.{
  make_lock, assert_owned, acquire, beat, RedisTaskLock, Network, returns, raises_after, seconds,
}
use apanel.Locks.Keeps.{run, Action, acquires, beats, releases}
use apanel.Locks.Exclusive.{IsNewLock, make_lock-IsNewLock, lease_exclusive, beat-assert_owned}

-- A server on which nothing runs out.
abbrev Table : Type 0
Table = Dict Text Text

abbrev table_set : Table → Text → Text → ℕ → Bool × Table
table_set s k v _ = if is_none (get s k) then (true, put s k v) else (false, s)

abbrev table_del : Table → Text → Table
table_del s k = drop_keys (λ j. k =? j) s

abbrev table_expire : Table → Text → ℕ → Bool × Table
table_expire s k _ = (is_some (get s k), s)

table_set_reply :
    (s : Table) (k v : Text) (n : ℕ) → 1 ≤ n → (table_set s k v n).0 ≡ is_none (get s k)
table_set_reply s k v n h = ground arith

get-table_set :
    (s : Table) (k v : Text) (n : ℕ) (j : Text)
    → 1 ≤ n
    → get (table_set s k v n).1 j ≡ (if (k =? j) && is_none (get s k) then some v else get s j)
get-table_set s k v n j h = elim (Bool-cases (is_none (get s k))) [
  | inl free ↦ rw free (ground (arith, get-put s k v j))
  | inr busy ↦ rw busy (ground arith)
]

get-table_del :
    (s : Table) (k j : Text) → get (table_del s k) j ≡ (if k =? j then none else get s j)
get-table_del s k j = get-drop_keys (λ i. k =? i) s j

abbrev table : Client
table = record {
  Store = Table;
  get = get;
  set_nx = table_set;
  del = table_del;
  expire = table_expire;
  set_nx_reply = table_set_reply;
  get-set_nx = get-table_set;
  get-del = get-table_del;
  expire_reply = λ s k n h. refl;
  get-expire = λ s k n j h. refl;
}

abbrev lock_of : Text → RedisTaskLock
lock_of token = record {
  key = text "lock:scan";
  token = token;
  ttl_seconds = 60;
  acquired = false;
  has_heartbeat = false;
  is_lost = false;
}

makes_a_lock : make_lock (text "lock:scan") (seconds (pos 60)) (text "a") ≡ ok (lock_of (text "a"))
unfolding make_lock
makes_a_lock = refl

make_lock-IsNewLock_example :
    Ensures IsNewLock (make_lock (text "lock:scan") (seconds (pos 60)) (text "a"))
make_lock-IsNewLock_example = make_lock-IsNewLock (text "lock:scan") (seconds (pos 60)) (text "a")

abbrev held_a : RedisTaskLock
held_a = record (lock_of (text "a")) { acquired = true; has_heartbeat = true }

-- The first holder renews, and another instance tries to take the lock and to release it.
abbrev meanwhile : List (RedisTaskLock × (Action × Network))
meanwhile =
    (held_a, (beats, returns))
    ∷ (lock_of (text "b"), (acquires, raises_after))
    ∷ (record (lock_of (text "b")) { acquired = true }, (releases, returns))
    ∷ []

lease_exclusive_example :
    (acquire table returns
      (lock_of (text "c"))
      (run table meanwhile (acquire table returns (lock_of (text "a")) []).1.1)).0
    ≡ ok false
unfolding acquire get
lease_exclusive_example =
    lease_exclusive table (lock_of (text "a")) (lock_of (text "c")) meanwhile [] (ground arith)
      (ground arith) refl refl
      ((ground arith, inr refl), ((ground arith, inl refl), ((ground arith, inl refl), tt)))

beat-assert_owned_example :
    (assert_owned (beat table returns held_a ((text "lock:scan", text "b") ∷ [])).0 ≡ ok tt)
    ↔ (get ((text "lock:scan", text "b") ∷ []) (text "lock:scan") ≡ some (text "a"))
beat-assert_owned_example =
    beat-assert_owned table held_a ((text "lock:scan", text "b") ∷ []) (ground arith) refl refl refl
