-- ===== src/Locks/Keeps.antt =====
-- Proofs on what other instances do to a key that is held.
use mathlib.Core.Path.{subst}
use apanel.Base.{
  nat_equality, bool_equality, pair_equality, option_equality, ◌=?◌, beq→eq, eq→beq, Text,
  text_equality, ◌≤◌, ◌≡◌, refl, sym, ◌∙◌, ◌⊎◌, inl, inr, Bool, false, ◌&&◌, false≢true, some, List,
  [], ◌∷◌, arith, Bool-cases, if-split, All, Result,
}
use apanel.Locks.Client.{Client}
use apanel.Locks.Lock.{
  Locked, release_script, renew_script, acquire, renew, beat, release, LockError, RedisTaskLock,
  Network, returns, raises_before, raises_after,
}

-- What a holder of a lock does with it.
pub data Action : Type 0 where
  acquires beats releases : Action

not_beats : releases ≡ beats → ⊥
not_beats e = ground (arith, e)

-- Another instance, whose token is not `t`; or a renewal.
abbrev pub Foreign : Text → RedisTaskLock × (Action × Network) → Type 0
Foreign t (l, (a, w)) = (1 ≤ l.ttl_seconds) × (((l.token =? t) ≡ false) ⊎ (a ≡ beats))

module _ (client : Client) where
  open client use {Store, get, set_nx, del, expire}

  unfoldable pub act : Action → Network → RedisTaskLock → Store → RedisTaskLock × Store
  unfolding acquire beat release
  act acquires w l s = (acquire client w l s).1
  act beats w l s = beat client w l s
  act releases w l s = (release client w l s).1

  -- Calls of any instances, one after the other, each in whatever state it is.
  abbrev pub run : List (RedisTaskLock × (Action × Network)) → Store → Store
  run [] s = s
  run ((l, (a, w)) ∷ rest) s = run rest (act a w l s).1

  set_nx-keeps :
      (l : RedisTaskLock) (s : Store) (k t : Text)
      → 1 ≤ l.ttl_seconds
      → get s k ≡ some t
      → get (set_nx s l.key l.token l.ttl_seconds).1 k ≡ some t
  set_nx-keeps l s k t h held =
      let law = client.get-set_nx s l.key l.token l.ttl_seconds k h in
      elim (Bool-cases (l.key =? k)) [
        | inl same ↦
            let busy : get s l.key ≡ some t =
              subst (λ j. get s j ≡ some t) (sym (beq→eq l.key k same)) held in
            rw (law, same, busy) held
        | inr other ↦ rw (law, other) held
      ]

  acquire-keeps :
      (w : Network) (l : RedisTaskLock) (s : Store) (k t : Text)
      → 1 ≤ l.ttl_seconds
      → get s k ≡ some t
      → get (acquire client w l s).1.1 k ≡ some t
  unfolding acquire
  acquire-keeps returns l s k t h held =
      if-split {A = Locked client Bool} (λ r. get r.1.1 k ≡ some t)
        (set_nx s l.key l.token l.ttl_seconds).0 _ _ (λ _. set_nx-keeps l s k t h held)
        λ _. set_nx-keeps l s k t h held
  acquire-keeps raises_before l s k t h held = held
  acquire-keeps raises_after l s k t h held = set_nx-keeps l s k t h held

  renew_script-keeps :
      (l : RedisTaskLock) (s : Store) (k : Text)
      → 1 ≤ l.ttl_seconds
      → get (renew_script client l s).1 k ≡ get s k
  unfolding renew_script
  renew_script-keeps l s k h =
      if-split {A = Bool × Store} (λ r. get r.1 k ≡ get s k) (get s l.key =? some l.token) _ _
        (λ _. client.get-expire s l.key l.ttl_seconds k h) λ _. refl

  renew-keeps :
      (w : Network) (l : RedisTaskLock) (s : Store) (k : Text)
      → 1 ≤ l.ttl_seconds
      → get (renew client w l s).1 k ≡ get s k
  unfolding renew
  renew-keeps returns l s k h =
      if-split {A = Result LockError Bool × Store} (λ r. get r.1 k ≡ get s k) l.acquired _ _
        (λ _. renew_script-keeps l s k h) λ _. refl
  renew-keeps raises_before l s k h =
      if-split {A = Result LockError Bool × Store} (λ r. get r.1 k ≡ get s k) l.acquired _ _
        (λ _. refl) λ _. refl
  renew-keeps raises_after l s k h =
      if-split {A = Result LockError Bool × Store} (λ r. get r.1 k ≡ get s k) l.acquired _ _
        (λ _. renew_script-keeps l s k h) λ _. refl

  beat-keeps :
      (w : Network) (l : RedisTaskLock) (s : Store) (k : Text)
      → 1 ≤ l.ttl_seconds
      → get (beat client w l s).1 k ≡ get s k
  unfolding beat
  beat-keeps w l s k h =
      if-split {A = RedisTaskLock × Store} (λ r. get r.1 k ≡ get s k)
        (l.has_heartbeat && l.acquired) _ _ (λ _. renew-keeps w l s k h) λ _. refl

  release_script-keeps :
      (l : RedisTaskLock) (s : Store) (k t : Text)
      → (l.token =? t) ≡ false
      → get s k ≡ some t
      → get (release_script client l s) k ≡ some t
  unfolding release_script
  release_script-keeps l s k t other held =
      if-split {A = Store} (λ r. get r k ≡ some t) (get s l.key =? some l.token) _ _
        (λ own. elim (Bool-cases (l.key =? k)) [
          | inl same ↦
              let busy : get s l.key ≡ some t =
                subst (λ j. get s j ≡ some t) (sym (beq→eq l.key k same)) held in
              let mine = beq→eq (get s l.key) (some l.token) own in
              let token : l.token ≡ t = cc (mine, busy) in
              absurd (false≢true (sym other ∙ eq→beq l.token t token))
          | inr apart ↦ rw (client.get-del s l.key k, apart) held
        ])
        λ _. held

  release-keeps :
      (w : Network) (l : RedisTaskLock) (s : Store) (k t : Text)
      → (l.token =? t) ≡ false
      → get s k ≡ some t
      → get (release client w l s).1.1 k ≡ some t
  unfolding release
  release-keeps returns l s k t other held =
      if-split {A = Locked client (Unit {0})} (λ r. get r.1.1 k ≡ some t) l.acquired _ _
        (λ _. release_script-keeps l s k t other held) λ _. held
  release-keeps raises_before l s k t other held =
      if-split {A = Locked client (Unit {0})} (λ r. get r.1.1 k ≡ some t) l.acquired _ _ (λ _. held)
        λ _. held
  release-keeps raises_after l s k t other held =
      if-split {A = Locked client (Unit {0})} (λ r. get r.1.1 k ≡ some t) l.acquired _ _
        (λ _. release_script-keeps l s k t other held) λ _. held

  act-keeps :
      (c : RedisTaskLock × (Action × Network)) (s : Store) (k t : Text)
      → Foreign t c
      → get s k ≡ some t
      → get (act c.1.0 c.1.1 c.0 s).1 k ≡ some t
  unfolding act
  act-keeps (l, (acquires, w)) s k t (h, _) held = acquire-keeps w l s k t h held
  act-keeps (l, (beats, w)) s k t (h, _) held = beat-keeps w l s k h ∙ held
  act-keeps (l, (releases, w)) s k t (h, inl other) held = release-keeps w l s k t other held
  act-keeps (l, (releases, w)) s k t (h, inr e) held = absurd (not_beats e)

  pub run-keeps :
      (calls : List (RedisTaskLock × (Action × Network))) (s : Store) (k t : Text)
      → All (Foreign t) calls
      → get s k ≡ some t
      → get (run calls s) k ≡ some t
  run-keeps [] s k t h held = held
  run-keeps ((l, (a, w)) ∷ rest) s k t (first, others) held =
      run-keeps rest (act a w l s).1 k t others (act-keeps (l, (a, w)) s k t first held)
