-- ===== src/Locks/Exclusive.antt =====
-- Proofs on holding a lease, and on noticing that it was lost.
use mathlib.Core.Path.{subst}
use apanel.Base.{
  nat_equality, bool_equality, pair_equality, option_equality, ◌=?◌, beq_refl, beq→eq, eq→beq, Text,
  text_equality, ℕ, zero, suc, ◌≤◌, ◌≡◌, refl, sym, ap, ◌∙◌, ◌↔◌, inl, inr, Bool, true, false,
  false≢true, some, List, arith, Bool-cases, Option-cases, is_none, is_some, if-split, All, Ensures,
  Result, err, ok,
}
use apanel.Base.Texts.{is_blank}
use apanel.Base.Integers.{pos, negsuc}
use apanel.Locks.Client.{Client}
use apanel.Locks.Lock.{
  positive, make_lock, assert_owned, Locked, renew_script, acquire, renew, beat, LockError,
  lease_lost, RedisTaskLock, Network, returns, Lifetime, truth, seconds,
}
use apanel.Locks.Keeps.{Foreign, run, run-keeps, Action}

positive-some : (ttl : Lifetime) (n : ℕ) → positive ttl ≡ some n → 1 ≤ n
positive-some (truth b) n e = ground (arith, e)
positive-some (seconds (pos zero)) n e = ground (arith, e)
positive-some (seconds (pos (suc k))) n e = ground (arith, e)
positive-some (seconds (negsuc k)) n e = ground (arith, e)

-- What `__init__` makes: a free lock with a key and a positive lifetime.
abbrev pub IsNewLock : RedisTaskLock → Type 0
IsNewLock l = (1 ≤ l.ttl_seconds) × (is_blank l.key ≡ false) × (l.acquired ≡ false)

pub make_lock-IsNewLock :
    (key : Text) (ttl : Lifetime) (token : Text) → Ensures IsNewLock (make_lock key ttl token)
unfolding make_lock
make_lock-IsNewLock key ttl token =
    if-split (Ensures IsNewLock) (is_blank key) _ _ (λ _. tt)
      λ named. elim (Option-cases (positive ttl)) [
        | inl bad ↦ rw (bad, make_lock) tt
        | inr (n, good) ↦ rw (good, make_lock) (positive-some ttl n good, named, refl)
      ]

not_won : ◌≡◌ {A = Result LockError Bool} (ok false) (ok true) → ⊥
not_won e = ground (arith, e)

not_owned : ◌≡◌ {A = Result LockError (Unit {0})} (err lease_lost) (ok tt) → ⊥
not_owned e = ground (arith, e)

module _ (client : Client) where
  open client use {Store, get, set_nx, expire}

  -- An acquisition that returned true put the lock's token in the store.
  acquire-holds :
      (l : RedisTaskLock) (s : Store)
      → 1 ≤ l.ttl_seconds
      → (acquire client returns l s).0 ≡ ok true
      → get (acquire client returns l s).1.1 l.key ≡ some l.token
  unfolding acquire
  acquire-holds l s h =
      if-split {A = Locked client Bool} (λ r. r.0 ≡ ok true → get r.1.1 l.key ≡ some l.token)
        (set_nx s l.key l.token l.ttl_seconds).0 _ _
        (λ won _.
          let free : is_none (get s l.key) ≡ true =
            sym (client.set_nx_reply s l.key l.token l.ttl_seconds h) ∙ won in
          rw (client.get-set_nx s l.key l.token l.ttl_seconds l.key h, beq_refl l.key, free) refl)
        λ _ e. absurd (not_won e)

  acquire-refused :
      (l : RedisTaskLock) (s : Store) (t : Text)
      → 1 ≤ l.ttl_seconds
      → get s l.key ≡ some t
      → (acquire client returns l s).0 ≡ ok false
  unfolding acquire
  acquire-refused l s t h held =
      let reply : (set_nx s l.key l.token l.ttl_seconds).0 ≡ false =
        client.set_nx_reply s l.key l.token l.ttl_seconds h ∙ ap is_none held in
      rw (reply, acquire) refl

  -- Once an instance acquired a key, no other acquires it before the key runs out or the instance
  -- releases it: whatever other instances with other tokens do in between, and however often the holder
  -- renews, with a network that may fail before or after each command, a further acquisition of the key
  -- returns false. The lifetimes are positive, as `__init__` makes them.
  pub lease_exclusive :
      (mine next : RedisTaskLock) (calls : List (RedisTaskLock × (Action × Network))) (s : Store)
      → 1 ≤ mine.ttl_seconds
      → 1 ≤ next.ttl_seconds
      → next.key ≡ mine.key
      → (acquire client returns mine s).0 ≡ ok true
      → All (Foreign mine.token) calls
      → (acquire client returns next (run client calls (acquire client returns mine s).1.1)).0
        ≡ ok false
  lease_exclusive mine next calls s h k same won others =
      let t = (acquire client returns mine s).1.1 in
      acquire-refused next (run client calls t) mine.token k (
        subst (λ j. get (run client calls t) j ≡ some mine.token) (sym same)
          (run-keeps client calls t mine.key mine.token others (acquire-holds mine s h won)))

  -- After a round of the heartbeat whose command returned, an instance that had acquired its key passes
  -- `assert_owned` exactly if the key still holds its token: a lease that ran out, or that another
  -- instance has, is noticed within one round.
  pub beat-assert_owned :
      (l : RedisTaskLock) (s : Store)
      → 1 ≤ l.ttl_seconds
      → l.acquired ≡ true
      → l.has_heartbeat ≡ true
      → l.is_lost ≡ false
      → (assert_owned (beat client returns l s).0 ≡ ok tt) ↔ (get s l.key ≡ some l.token)
  unfolding beat renew renew_script assert_owned
  beat-assert_owned l s h held running fine = elim (Bool-cases (get s l.key =? some l.token)) [
    | inl own ↦
        let there = beq→eq (get s l.key) (some l.token) own in
        let reply : (expire s l.key l.ttl_seconds).0 ≡ true =
          client.expire_reply s l.key l.ttl_seconds h ∙ ap is_some there in
        let kept_it : beat client returns l s ≡ (l, (expire s l.key l.ttl_seconds).1) =
          rw (held, beat, running, own, reply) refl in
        (λ _. there, λ _. rw (kept_it, assert_owned, held, fine) refl)
    | inr other ↦
        let refused : assert_owned (beat client returns l s).0 ≡ err lease_lost =
          rw (held, beat, running, other) refl in
        (
          λ e. absurd (not_owned (sym refused ∙ e)),
          λ e. absurd (false≢true (sym other ∙ eq→beq (get s l.key) (some l.token) e)),
        )
  ]
