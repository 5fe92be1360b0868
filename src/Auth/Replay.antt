-- ===== src/Auth/Replay.antt =====
-- Proofs on refresh tokens that were exchanged, and on families that were revoked.
use mathlib.Core.Path.{subst}
use apanel.Base.{
  nat_equality, bool_equality, pair_equality, option_equality, beq_refl, Text, text_equality, ℕ,
  ◌≤◌, ◌≡◌, refl, sym, ap, ◌∙◌, inl, inr, true, false, not, none, some, List, [], ◌∷◌, arith,
  Bool-cases, Option-cases, is_some, if-split, err, ok,
}
use apanel.Base.Texts.{is_empty}
use apanel.Auth.Records.{
  Outcome, User, RefreshSession, Accounts, Security, Moment, IssuedTokens, invalid_refresh_token,
}
use apanel.Auth.Sessions.{
  find_session, revoke_family, close_family, mark_used, is_stale, rotate, refresh_session,
  refresh_tokens, logout,
}
use apanel.Auth.Steps.{is_live, live_in, members, Steps}
use apanel.Auth.Changes.{find_session-token_hash, found_in}
use apanel.Auth.Families.{live_in-revoke_family, members-revoke_family, live_in-used, IsClosed}
use apanel.Auth.Tokens.{
  is_admissible, refresh_tokens-found, refresh_session-refused, refresh_session-granted, spent,
  spent-not_live, spent-find_session, spent-append, spent-used,
}
use apanel.Auth.Reuse.{change-IsClosed, change-spent, steps-keep}

not_live-is_stale : (now : ℕ) (s : RefreshSession) → is_live s ≡ false → is_stale now s ≡ true
unfolding is_stale
not_live-is_stale now s e = ground (arith, e)

-- A token whose row is used up or revoked is refused, and its family is revoked.
stale_refused :
    (c : Security) (m : Moment) (raw : Text) (db : Accounts) (s : RefreshSession)
    → is_empty raw ≡ false
    → find_session (c.hash_opaque_token raw) db.sessions ≡ some s
    → is_live s ≡ false
    → refresh_tokens c m raw db ≡ (err invalid_refresh_token, close_family s.family_id m.now db)
stale_refused c m raw db s full found dead =
    let stale : is_stale m.now s ≡ true = not_live-is_stale m.now s dead in
    refresh_tokens-found c m raw db s full found
    ∙ refresh_session-refused c m s db (ground (arith, stale))

refused_result :
    (c : Security) (m : Moment) (raw : Text) (db : Accounts) (s : RefreshSession)
    → find_session (c.hash_opaque_token raw) db.sessions ≡ some s
    → is_live s ≡ false
    → (refresh_tokens c m raw db).0 ≡ err invalid_refresh_token
unfolding refresh_tokens
refused_result c m raw db s found dead = elim (Bool-cases (is_empty raw)) [
  | inl empty ↦ rw (empty, refresh_tokens) refl
  | inr full ↦ ap (λ r. r.0) (stale_refused c m raw db s full found dead)
]

-- The use of a token that was accepted is on record.
rotate-spent :
    (c : Security) (m : Moment) (s : RefreshSession) (u : User) (db : Accounts) (t : IssuedTokens)
    → find_session s.token_hash db.sessions ≡ some s
    → (rotate c m s u db).0 ≡ ok t
    → spent s.token_hash (rotate c m s u db).1.sessions ≡ true
unfolding rotate
rotate-spent c m s u db t found =
    let next = c.hash_opaque_token m.opaque_token in
    if-split {A = Outcome IssuedTokens} (λ r. r.0 ≡ ok t → spent s.token_hash r.1.sessions ≡ true)
      (is_some (find_session next db.sessions)) _ _ (λ _ e. cc)
      λ _ _.
        spent-append s.token_hash (mark_used s.token_hash m.now next db.sessions) _
          (spent-used s.token_hash m.now next db.sessions s found)

refresh_session-spent :
    (c : Security) (m : Moment) (s : RefreshSession) (db : Accounts) (t : IssuedTokens)
    → find_session s.token_hash db.sessions ≡ some s
    → (refresh_session c m s db).0 ≡ ok t
    → spent s.token_hash (refresh_session c m s db).1.sessions ≡ true
refresh_session-spent c m s db t found e = elim (Bool-cases (is_admissible m.now s db)) [
  | inl fine ↦
      let (u, granted) = refresh_session-granted c m s db fine in
      let out : (rotate c m s u db).0 ≡ ok t = ap (λ r. r.0) (sym granted) ∙ e in
      subst (λ r. spent s.token_hash r.1.sessions ≡ true) (sym granted)
        (rotate-spent c m s u db t found out)
  | inr bad ↦ cc (ap (λ r. r.0) (refresh_session-refused c m s db bad), e)
]

unknown_refused :
    (c : Security) (m : Moment) (raw : Text) (db : Accounts)
    → find_session (c.hash_opaque_token raw) db.sessions ≡ none
    → (refresh_tokens c m raw db).0 ≡ err invalid_refresh_token
unfolding refresh_tokens
unknown_refused c m raw db unknown = elim (Bool-cases (is_empty raw)) [
  | inl empty ↦ rw (empty, refresh_tokens) refl
  | inr full ↦ rw (full, refresh_tokens, unknown) refl
]

accepted-full :
    (c : Security) (m : Moment) (raw : Text) (db : Accounts) (t : IssuedTokens)
    → (refresh_tokens c m raw db).0 ≡ ok t
    → is_empty raw ≡ false
unfolding refresh_tokens
accepted-full c m raw db t e = elim (Bool-cases (is_empty raw)) [
  | inl empty ↦
      let refused : (refresh_tokens c m raw db).0 ≡ err invalid_refresh_token =
        rw (empty, refresh_tokens) refl in
      cc (refused, e)
  | inr full ↦ full
]

refresh_tokens-spent :
    (c : Security) (m : Moment) (raw : Text) (db : Accounts) (t : IssuedTokens)
    → (refresh_tokens c m raw db).0 ≡ ok t
    → spent (c.hash_opaque_token raw) (refresh_tokens c m raw db).1.sessions ≡ true
unfolding refresh_tokens
refresh_tokens-spent c m raw db t e =
    elim (Option-cases (find_session (c.hash_opaque_token raw) db.sessions)) [
      | inl unknown ↦ cc (unknown_refused c m raw db unknown, e)
      | inr (s, found) ↦
          let same = find_session-token_hash (c.hash_opaque_token raw) db.sessions s found in
          let full = accepted-full c m raw db t e in
          let step = refresh_tokens-found c m raw db s full found in
          let here : find_session s.token_hash db.sessions ≡ some s =
            subst (λ h. find_session h db.sessions ≡ some s) (sym same) found in
          subst (λ h. spent h (refresh_tokens c m raw db).1.sessions ≡ true) same
            (subst (λ r. spent s.token_hash r.1.sessions ≡ true) (sym step)
              (refresh_session-spent c m s db t here (ap (λ r. r.0) (sym step) ∙ e)))
    ]

-- A refresh token is accepted once: after it was exchanged, whatever calls follow, where each login
-- draws a new `uuid4`, it is refused.
pub refresh_tokens-accepted_once :
    (c : Security) (m again : Moment) (raw : Text) (db after : Accounts) (t : IssuedTokens)
    → (refresh_tokens c m raw db).0 ≡ ok t
    → Steps c (refresh_tokens c m raw db).1 after
    → (refresh_tokens c again raw after).0 ≡ err invalid_refresh_token
refresh_tokens-accepted_once c m again raw db after t accepted_it steps =
    let h = c.hash_opaque_token raw in
    let used =
      steps-keep (λ ss. spent h ss ≡ true) (change-spent h) c (refresh_tokens c m raw db).1 after
        steps (refresh_tokens-spent c m raw db t accepted_it) in
    let (s, found, dead) = spent-find_session h after.sessions used in
    refused_result c again raw after s found dead

-- The first row of a token is among those of its family, and live among the live ones.
found-members :
    (h : Text) (ss : List RefreshSession) (s : RefreshSession)
    → find_session h ss ≡ some s
    → 1 ≤ members s.family_id ss
unfolding members find_session
found-members h [] s found = ground (arith, found)
found-members h (x ∷ ss) s found = elim (found_in h x ss s found) [
  | inl (_, here) ↦
      subst (λ r. 1 ≤ members r.family_id (x ∷ ss)) here
        (let own = beq_refl x.family_id in ground (arith, own))
  | inr (_, there) ↦ let rest = found-members h ss s there in ground (arith, rest)
]

pub found-live_in :
    (h : Text) (ss : List RefreshSession) (s : RefreshSession)
    → find_session h ss ≡ some s
    → is_live s ≡ true
    → 1 ≤ live_in s.family_id ss
found-live_in h ss s found live =
    let used = live_in-used s.family_id h 0 [] ss s found live in
    let own = beq_refl s.family_id in ground (arith, used, own)

-- Each token of a family without a live session is refused from then on.
closed_refused :
    (c : Security) (m : Moment) (f raw : Text) (db after : Accounts) (s : RefreshSession)
    → IsClosed f db.sessions
    → Steps c db after
    → find_session (c.hash_opaque_token raw) after.sessions ≡ some s
    → s.family_id ≡ f
    → (refresh_tokens c m raw after).0 ≡ err invalid_refresh_token
closed_refused c m f raw db after s shut steps found within =
    let (none_live, _) = steps-keep (IsClosed f) (change-IsClosed f) c db after steps shut in
    elim (Bool-cases (is_live s)) [
      | inl live ↦
          let some_live : 1 ≤ live_in f after.sessions =
            subst (λ g. 1 ≤ live_in g after.sessions) within
              (found-live_in (c.hash_opaque_token raw) after.sessions s found live) in
          absurd (omega (arith, none_live, some_live))
      | inr dead ↦ refused_result c m raw after s found dead
    ]

revoke_family-IsClosed :
    (h : Text) (now : ℕ) (ss : List RefreshSession) (s : RefreshSession)
    → find_session h ss ≡ some s
    → IsClosed s.family_id (revoke_family s.family_id now ss)
revoke_family-IsClosed h now ss s found =
    let own = beq_refl s.family_id in
    (
      ground (arith, live_in-revoke_family s.family_id s.family_id now ss, own),
      ground
          (arith, members-revoke_family s.family_id s.family_id now ss, found-members h ss s found),
    )

-- A replay closes the family: after a refresh token was exchanged and is presented again, every token
-- of its family, the one that was issued in exchange included, is refused, whatever calls are made
-- before and after the replay, where each login draws a new `uuid4`.
pub replay_closes :
    (c : Security) (m again last : Moment) (raw other : Text) (db mid after : Accounts)
    (t : IssuedTokens) (s r : RefreshSession)
    → (refresh_tokens c m raw db).0 ≡ ok t
    → Steps c (refresh_tokens c m raw db).1 mid
    → find_session (c.hash_opaque_token raw) mid.sessions ≡ some s
    → Steps c (refresh_tokens c again raw mid).1 after
    → find_session (c.hash_opaque_token other) after.sessions ≡ some r
    → r.family_id ≡ s.family_id
    → (refresh_tokens c last other after).0 ≡ err invalid_refresh_token
replay_closes c m again last raw other db mid after t s r first before found later_on found_other
      kin =
    let h = c.hash_opaque_token raw in
    let used =
      steps-keep (λ ss. spent h ss ≡ true) (change-spent h) c (refresh_tokens c m raw db).1 mid
        before (refresh_tokens-spent c m raw db t first) in
    let known : spent h mid.sessions ≡ not (is_live s) = spent-not_live h mid.sessions s found in
    let dead : is_live s ≡ false = ground (arith, used, known) in
    let full = accepted-full c m raw db t first in
    let shut : IsClosed s.family_id (refresh_tokens c again raw mid).1.sessions =
      subst (λ out. IsClosed s.family_id out.1.sessions)
        (sym (stale_refused c again raw mid s full found dead))
        (revoke_family-IsClosed h again.now mid.sessions s found) in
    closed_refused c last s.family_id other (refresh_tokens c again raw mid).1 after r shut later_on
      found_other kin

-- A logout with a known token closes its family: whatever calls follow, where each login draws a new
-- `uuid4`, every token of the family is refused.
pub logout_closes :
    (c : Security) (m last : Moment) (raw other : Text) (db after : Accounts) (s r : RefreshSession)
    → is_empty raw ≡ false
    → find_session (c.hash_opaque_token raw) db.sessions ≡ some s
    → Steps c (logout c m (some raw) db) after
    → find_session (c.hash_opaque_token other) after.sessions ≡ some r
    → r.family_id ≡ s.family_id
    → (refresh_tokens c last other after).0 ≡ err invalid_refresh_token
unfolding logout
logout_closes c m last raw other db after s r full found steps found_other kin =
    let out : logout c m (some raw) db ≡ close_family s.family_id m.now db =
      rw (full, logout, found) refl in
    closed_refused c last s.family_id other (logout c m (some raw) db) after r
      (subst (λ d. IsClosed s.family_id d.sessions) (sym out)
        (revoke_family-IsClosed (c.hash_opaque_token raw) m.now db.sessions s found))
      steps found_other kin
