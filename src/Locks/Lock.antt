-- ===== src/Locks/Lock.antt =====
-- `RedisTaskLock`. A lock is one instance; the store is what the instances share.
use apanel.Base.{
  nat_equality, bool_equality, pair_equality, option_equality, ◌=?◌, Text, text_equality, ℕ, suc,
  Bool, true, false, not, ◌&&◌, ◌||◌, Option, none, some, if◌then◌else◌, ◌>>=◌, Result, err, ok,
}
use apanel.Base.Texts.{is_blank}
use apanel.Base.Integers.{ℤ, pos}
use apanel.Locks.Client.{Client}

pub data LockError : Type 0 where
  key_required ttl_not_positive : LockError
  acquire_failed renew_failed release_failed lease_lost already_held : LockError

-- `has_heartbeat` is whether the renewal loop is running.
pub record RedisTaskLock : Type 0 where
  pub key : Text
  pub token : Text
  pub ttl_seconds : ℕ
  pub acquired : Bool
  pub has_heartbeat : Bool
  pub is_lost : Bool

-- What becomes of a call of the client: it returns, or it raises before or after its effect.
pub data Network : Type 0 where
  returns raises_before raises_after : Network

-- A lifetime as it is given: Python's Booleans are integers.
pub data Lifetime : Type 0 where
  truth : Bool → Lifetime
  seconds : ℤ → Lifetime

abbrev pub positive : Lifetime → Option ℕ
positive (seconds (pos (suc n))) = some (suc n)
positive _ = none

-- `__init__`, with the random token
unfoldable pub make_lock : Text → Lifetime → Text → Result LockError RedisTaskLock
unfolding is_blank
make_lock key ttl token = if is_blank key then err key_required else elim (positive ttl) [
  | none ↦ err ttl_not_positive
  | some n ↦ ok (record {
    key = key;
    token = token;
    ttl_seconds = n;
    acquired = false;
    has_heartbeat = false;
    is_lost = false;
  })
]

-- `_mark_lost`, after which the loop ends
abbrev mark_lost : RedisTaskLock → RedisTaskLock
mark_lost l = record l { acquired = false; has_heartbeat = false; is_lost = true }

-- `assert_owned`
unfoldable pub assert_owned : RedisTaskLock → Result LockError (Unit {0})
assert_owned l = if not l.acquired || l.is_lost then err lease_lost else ok tt

module _ (client : Client) where
  open client use {Store, get, set_nx, del, expire}

  -- What a call raised or returned, the lock and the store after it.
  abbrev pub Locked : Type 0 → Type 0
  Locked A = Result LockError A × (RedisTaskLock × Store)

  -- RELEASE_LOCK_SCRIPT
  unfoldable pub release_script : RedisTaskLock → Store → Store
  release_script l s = if get s l.key =? some l.token then del s l.key else s

  -- RENEW_LOCK_SCRIPT
  unfoldable pub renew_script : RedisTaskLock → Store → Bool × Store
  renew_script l s =
      if get s l.key =? some l.token then expire s l.key l.ttl_seconds else (false, s)

  abbrev after : Network → Store → Store → Store
  after raises_before s t = s
  after _ s t = t

  unfoldable pub acquire : Network → RedisTaskLock → Store → Locked Bool
  acquire returns l s =
      let (won, t) = set_nx s l.key l.token l.ttl_seconds in
      if won
      then (ok true, (record l { acquired = true; has_heartbeat = true; is_lost = false }, t))
      else (ok false, (record l { acquired = false }, t))
  acquire failure l s =
      (err acquire_failed, (l, after failure s (set_nx s l.key l.token l.ttl_seconds).1))

  unfoldable pub renew : Network → RedisTaskLock → Store → Result LockError Bool × Store
  unfolding renew_script
  renew returns l s =
      let (renewed, t) = renew_script l s in if l.acquired then (ok renewed, t) else (ok false, s)
  renew failure l s =
      if l.acquired then (err renew_failed, after failure s (renew_script l s).1) else (ok false, s)

  abbrev beaten : RedisTaskLock → Result LockError Bool → RedisTaskLock
  beaten l (err _) = mark_lost l
  beaten l (ok renewed) = if renewed then l else mark_lost l

  -- One round of `_heartbeat`
  unfoldable pub beat : Network → RedisTaskLock → Store → RedisTaskLock × Store
  unfolding renew
  beat w l s =
      let (reply, t) = renew w l s in
      if l.has_heartbeat && l.acquired
      then (beaten l reply, t)
      else (record l { has_heartbeat = false }, s)

  abbrev reply_of_release : Network → Result LockError (Unit {0})
  reply_of_release returns = ok tt
  reply_of_release _ = err release_failed

  unfoldable pub release : Network → RedisTaskLock → Store → Locked (Unit {0})
  unfolding release_script
  release w l s =
      let rest = record l { has_heartbeat = false } in
      if l.acquired
      then (reply_of_release w, (record rest { acquired = false }, after w s (release_script l s)))
      else (ok tt, (rest, s))

  -- `__aenter__`
  unfoldable pub enter : Network → RedisTaskLock → Store → Locked RedisTaskLock
  unfolding acquire
  enter w l s =
      let (reply, (m, t)) = acquire w l s in
      (reply >>= λ won. if won then ok m else err already_held, (m, t))
