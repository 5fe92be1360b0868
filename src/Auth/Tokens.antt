-- ===== src/Auth/Tokens.antt =====
-- The outcomes of `refresh_tokens` by the row of the token, and the tokens that cannot be used again.
use apanel.Base.{
  nat_equality, bool_equality, pair_equality, option_equality, ◌=?◌, Text, text_equality, ℕ, ◌≡◌,
  refl, ap, inl, inr, Bool, true, false, not, ◌&&◌, false≢true, some, List, [], ◌∷◌, ◌++◌, arith,
  if◌then◌else◌, Bool-cases, Option-cases, err,
}
use apanel.Base.Texts.{is_empty}
use apanel.Auth.Records.{User, RefreshSession, Accounts, Security, Moment, invalid_refresh_token}
use apanel.Auth.Sessions.{
  find_session, find_user, is_active, revoke_family, close_family, mark_used, is_stale, is_enabled,
  rotate, refresh_session, refresh_tokens,
}
use apanel.Auth.Steps.{is_live}
use apanel.Auth.Changes.{found_in}

-- The token of this row may be exchanged now, and its account is active.
abbrev pub is_admissible : ℕ → RefreshSession → Accounts → Bool
is_admissible now s db = not (is_stale now s) && is_enabled db.users s.user_id

pub refresh_tokens-found :
    (c : Security) (m : Moment) (raw : Text) (db : Accounts) (s : RefreshSession)
    → is_empty raw ≡ false
    → find_session (c.hash_opaque_token raw) db.sessions ≡ some s
    → refresh_tokens c m raw db ≡ refresh_session c m s db
unfolding refresh_tokens
refresh_tokens-found c m raw db s full found = rw (full, refresh_tokens, found) refl

enabled_by :
    (n : ℕ) (us : List User) (u : User)
    → find_user n us ≡ some u
    → is_enabled us n ≡ is_active u.status
unfolding is_enabled
enabled_by n us u known = rw (known, is_enabled) refl

pub refresh_session-refused :
    (c : Security) (m : Moment) (s : RefreshSession) (db : Accounts)
    → is_admissible m.now s db ≡ false
    → refresh_session c m s db ≡ (err invalid_refresh_token, close_family s.family_id m.now db)
unfolding refresh_session is_enabled
refresh_session-refused c m s db e = elim (Bool-cases (is_stale m.now s)) [
  | inl stale ↦ rw (stale, refresh_session) refl
  | inr fresh ↦ elim (Option-cases (find_user s.user_id db.users)) [
    | inl nobody ↦ rw (fresh, refresh_session, nobody) refl
    | inr (u, known) ↦
        let idle : is_active u.status ≡ false =
          ground (arith, e, fresh, enabled_by s.user_id db.users u known) in
        rw (fresh, refresh_session, known, idle) refl
  ]
]

pub refresh_session-granted :
    (c : Security) (m : Moment) (s : RefreshSession) (db : Accounts)
    → is_admissible m.now s db ≡ true
    → (u : User) × (refresh_session c m s db ≡ rotate c m s u db)
unfolding refresh_session is_enabled
refresh_session-granted c m s db e = elim (Option-cases (find_user s.user_id db.users)) [
  | inl nobody ↦
      let off : is_enabled db.users s.user_id ≡ false = rw (nobody, is_enabled) refl in
      absurd (false≢true (ground (arith, e, off)))
  | inr (u, known) ↦
      let fresh : is_stale m.now s ≡ false = ground (arith, e) in
      let awake : is_active u.status ≡ true =
        ground (arith, e, enabled_by s.user_id db.users u known) in
      (u, rw (fresh, refresh_session, known, awake) refl)
]

-- The token is known, and it was used or revoked.
unfoldable pub spent : Text → List RefreshSession → Bool
spent h [] = false
spent h (s ∷ ss) = let rest = spent h ss in if s.token_hash =? h then not (is_live s) else rest

pub spent-not_live :
    (h : Text) (ss : List RefreshSession) (s : RefreshSession)
    → find_session h ss ≡ some s
    → spent h ss ≡ not (is_live s)
unfolding spent find_session
spent-not_live h [] s found = ground (arith, found)
spent-not_live h (x ∷ ss) s found = elim (found_in h x ss s found) [
  | inl (same, here) ↦ rw (same, spent) (ap (λ r. not (is_live r)) here)
  | inr (other, there) ↦ rw (other, spent) (spent-not_live h ss s there)
]

pub spent-find_session :
    (h : Text) (ss : List RefreshSession)
    → spent h ss ≡ true
    → (s : RefreshSession) × (find_session h ss ≡ some s) × (is_live s ≡ false)
unfolding spent find_session
spent-find_session h [] e = absurd (false≢true e)
spent-find_session h (x ∷ ss) e = elim (Bool-cases (x.token_hash =? h)) [
  | inl same ↦ (x, ground (arith, same), ground (arith, e, same))
  | inr other ↦
      let (s, found, dead) = spent-find_session h ss (ground (arith, e, other)) in
      (s, ground (arith, found, other), dead)
]

pub spent-append :
    (h : Text) (xs ys : List RefreshSession) → spent h xs ≡ true → spent h (xs ++ ys) ≡ true
unfolding spent
spent-append h [] ys e = ground (arith, e)
spent-append h (x ∷ xs) ys e = ground (arith, e, spent-append h xs ys)

pub spent-mark_used :
    (h k : Text) (now : ℕ) (next : Text) (ss : List RefreshSession)
    → spent h ss ≡ true
    → spent h (mark_used k now next ss) ≡ true
unfolding spent mark_used
spent-mark_used h k now next [] e = e
spent-mark_used h k now next (s ∷ ss) e = ground (arith, e, spent-mark_used h k now next ss)

pub spent-revoke_family :
    (h f : Text) (now : ℕ) (ss : List RefreshSession)
    → spent h ss ≡ true
    → spent h (revoke_family f now ss) ≡ true
unfolding spent revoke_family
spent-revoke_family h f now [] e = e
spent-revoke_family h f now (s ∷ ss) e = ground (arith, e, spent-revoke_family h f now ss)

pub spent-used :
    (h : Text) (now : ℕ) (next : Text) (ss : List RefreshSession) (s : RefreshSession)
    → find_session h ss ≡ some s
    → spent h (mark_used h now next ss) ≡ true
unfolding spent mark_used find_session
spent-used h now next [] s found = ground (arith, found)
spent-used h now next (x ∷ ss) s found = ground (arith, found, spent-used h now next ss s)
