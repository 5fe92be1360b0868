-- ===== src/Auth/Sessions.antt =====
-- The calls on refresh sessions. A transaction holds the lock of the family, so that the calls for
-- one family are one after the other.
use apanel.Base.{
  nat_equality, bool_equality, pair_equality, option_equality, ◌=?◌, Text, text_equality, ℕ, ◌+◌,
  Bool, true, false, ◌&&◌, ◌||◌, Option, none, some, List, [], ◌∷◌, ◌++◌, leb, ◌==◌, if◌then◌else◌,
  is_none, is_some, Result, err, ok,
}
use apanel.Base.Texts.{is_empty}
use apanel.Auth.Records.{
  Outcome, UserStatus, active, User, RefreshSession, Accounts, Security, Moment, IssuedTokens,
  AuthError, no_session, invalid_refresh_token, authentication_required, integrity_error,
}

-- `token_hash` is unique, so that the first row is the only one.
unfoldable pub find_session : Text → List RefreshSession → Option RefreshSession
find_session h [] = none
find_session h (s ∷ ss) = let rest = find_session h ss in if s.token_hash =? h then some s else rest

unfoldable pub find_user : ℕ → List User → Option User
find_user n [] = none
find_user n (u ∷ us) = let rest = find_user n us in if u.id == n then some u else rest

unfoldable pub is_active : UserStatus → Bool
is_active active = true
is_active _ = false

-- `_revoke_family`
unfoldable pub revoke_family : Text → ℕ → List RefreshSession → List RefreshSession
revoke_family f now [] = []
revoke_family f now (s ∷ ss) =
    let rest = revoke_family f now ss in
    (if s.family_id =? f && is_none s.revoked_at then record s { revoked_at = some now } else s)
    ∷ rest

abbrev pub close_family : Text → ℕ → Accounts → Accounts
close_family f now db = record db { sessions = revoke_family f now db.sessions }

-- The token is used up, and the one that replaces it is noted.
unfoldable pub mark_used : Text → ℕ → Text → List RefreshSession → List RefreshSession
mark_used h now next [] = []
mark_used h now next (s ∷ ss) =
    let rest = mark_used h now next ss in
    (if s.token_hash =? h then record s { used_at = some now; replaced_by_hash = some next } else s)
    ∷ rest

unfoldable pub new_session : Security → Moment → ℕ → Text → RefreshSession
new_session c m user_id f = record {
  user_id = user_id;
  token_hash = c.hash_opaque_token m.opaque_token;
  family_id = f;
  issued_at = m.now;
  expires_at = m.now + c.refresh_token_ttl_seconds;
  used_at = none;
  revoked_at = none;
  replaced_by_hash = none;
}

abbrev pub tokens_of : Moment → User → IssuedTokens
tokens_of m u = record {
  access_token = m.create_access_token u.id;
  refresh_token = m.opaque_token;
  account = u;
}

-- The two tests of a row that end in the revocation of its family.
unfoldable pub is_stale : ℕ → RefreshSession → Bool
is_stale now s = is_some s.used_at || is_some s.revoked_at || leb s.expires_at now

unfoldable pub is_enabled : List User → ℕ → Bool
unfolding find_user is_active
is_enabled us n = elim (find_user n us) [ none ↦ false | some u ↦ is_active u.status ]

-- The rotation; the commit raises when the new hash is in the table already.
unfoldable pub rotate : Security → Moment → RefreshSession → User → Accounts → Outcome IssuedTokens
unfolding find_session mark_used new_session
rotate c m s u db =
    let next = c.hash_opaque_token m.opaque_token in
    if is_some (find_session next db.sessions) then (err integrity_error, db) else (
      ok (tokens_of m u),
      record db {
        sessions =
            mark_used s.token_hash m.now next db.sessions ++ new_session c m u.id s.family_id ∷ [];
      },
    )

unfoldable pub refresh_session :
    Security → Moment → RefreshSession → Accounts → Outcome IssuedTokens
unfolding is_stale rotate
refresh_session c m s db =
    let refused : Outcome IssuedTokens =
      (err invalid_refresh_token, close_family s.family_id m.now db) in
    if is_stale m.now s then refused else elim (find_user s.user_id db.users) [
      | none ↦ refused
      | some u ↦ if is_active u.status then rotate c m s u db else refused
    ]

unfoldable pub refresh_tokens : Security → Moment → Text → Accounts → Outcome IssuedTokens
unfolding refresh_session
refresh_tokens c m raw db =
    if is_empty raw
    then (err invalid_refresh_token, db)
    else elim (find_session (c.hash_opaque_token raw) db.sessions) [
      | none ↦ (err invalid_refresh_token, db)
      | some s ↦ refresh_session c m s db
    ]

unfoldable pub logout : Security → Moment → Option Text → Accounts → Accounts
unfolding find_session revoke_family
logout c m none db = db
logout c m (some raw) db =
    if is_empty raw then db else elim (find_session (c.hash_opaque_token raw) db.sessions) [
      | none ↦ db
      | some s ↦ close_family s.family_id m.now db
    ]

-- `_issue_tokens`
unfoldable pub issue_tokens : Security → Moment → User → Accounts → Outcome IssuedTokens
unfolding new_session
issue_tokens c m u db =
    if is_some (find_session (c.hash_opaque_token m.opaque_token) db.sessions)
    then (err no_session, db)
    else (
      ok (tokens_of m u),
      record db { sessions = db.sessions ++ new_session c m u.id m.uuid ∷ [] },
    )

-- `get_active_user`
unfoldable pub get_active_user : ℕ → Accounts → Result AuthError User
unfolding is_active
get_active_user n db = elim (find_user n db.users) [
  | none ↦ err authentication_required
  | some u ↦ if is_active u.status then ok u else err authentication_required
]
