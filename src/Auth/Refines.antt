-- ===== src/Auth/Refines.antt =====
-- Proofs on `refresh_tokens` as a move of the abstract family.
use mathlib.Core.Path.{subst}
use apanel.Base.{
  nat_equality, bool_equality, pair_equality, option_equality, ◌=?◌, beq_refl, beq→eq, Text,
  text_equality, ℕ, ◌≡◌, refl, sym, ap, ◌∙◌, inl, inr, Bool, true, false, ◌&&◌, false≢true, none,
  some, List, [], ◌∷◌, ◌++◌, arith, if◌then◌else◌, Bool-cases, err,
}
use apanel.Base.Texts.{is_empty}
use apanel.Auth.Records.{
  Outcome, User, RefreshSession, Accounts, Security, Moment, IssuedTokens, invalid_refresh_token,
}
use apanel.Auth.Sessions.{
  find_session, close_family, mark_used, new_session, is_stale, rotate, refresh_session,
  refresh_tokens,
}
use apanel.Auth.Steps.{is_live, live_in}
use apanel.Auth.Changes.{find_session-token_hash}
use apanel.Auth.Families.{live_in-used}
use apanel.Auth.Tokens.{
  is_admissible, refresh_tokens-found, refresh_session-refused, refresh_session-granted,
}
use apanel.Auth.Chain.{
  Chain, present, current, IsSound, is_ok, is_allowed, current-closed, current-append,
  current-revoke_family, current-live, live-current, current-mark_other,
}

-- What the abstract family does, in the two cases of the code.
present-current :
    (b : Bool) (h next : Text)
    → present b h next (some h) ≡ (if b then (true, some next) else (false, none))
unfolding present
present-current b h next = let own = beq_refl h in ground (arith, own)

present-other :
    (b : Bool) (h next : Text) (k : Chain)
    → (k ≡ some h → b ≡ false)
    → present b h next k ≡ (false, none)
unfolding present
present-other b h next none apart = refl
present-other b h next (some t) apart = elim (Bool-cases (t =? h)) [
  | inl same ↦ let off = apart (ap some (beq→eq t h same)) in ground (arith, off)
  | inr other ↦ ground (arith, other)
]

-- The chain of `g` after a move of the chain of `f`.
abbrev pub moved : Text → Text → Chain → Chain → Chain
moved f g after before = if f =? g then after else before

-- What the code and the abstract family agree on, for every family `g`.
abbrev pub Agrees : Accounts → RefreshSession → Text → Bool × Chain → Outcome IssuedTokens → Type 0
Agrees db s g spec out =
    (is_ok out.0 ≡ spec.0)
    × (current g out.1.sessions ≡ moved s.family_id g spec.1 (current g db.sessions))

refused-Agrees :
    (m : Moment) (db : Accounts) (s : RefreshSession) (g : Text)
    → Agrees db s g (false, none) (err invalid_refresh_token, close_family s.family_id m.now db)
refused-Agrees m db s g = (refl, current-revoke_family g s.family_id m.now db.sessions)

rotated-current :
    (g : Text) (ss : List RefreshSession) (s r : RefreshSession) (now : ℕ)
    → IsSound ss
    → find_session s.token_hash ss ≡ some s
    → is_live s ≡ true
    → r.family_id ≡ s.family_id
    → is_live r ≡ true
    → current g (mark_used s.token_hash now r.token_hash ss ++ r ∷ [])
      ≡ moved s.family_id g (some r.token_hash) (current g ss)
unfolding current
rotated-current g ss s r now (single, once) found live kin alive =
    let marked = mark_used s.token_hash now r.token_hash ss in
    let both = current-append g marked (r ∷ []) in
    let alike : (r.family_id =? g) ≡ (s.family_id =? g) = ap (λ t. t =? g) kin in
    elim (Bool-cases (s.family_id =? g)) [
      | inl same ↦
          let one = single g in
          let used = live_in-used g s.token_hash now r.token_hash ss s found live in
          let left : live_in g marked ≡ 0 = ground (arith, one, used, same) in
          ground (arith, both, alike, same, alive, current-closed g marked left)
      | inr other ↦
          let rest =
            current-mark_other g s.token_hash now r.token_hash ss s (once s.token_hash) found
              other in
          ground (arith, both, alike, other, rest)
    ]

rotate-Agrees :
    (c : Security) (m : Moment) (s : RefreshSession) (u : User) (db : Accounts) (g : Text)
    → IsSound db.sessions
    → find_session s.token_hash db.sessions ≡ some s
    → is_live s ≡ true
    → find_session (c.hash_opaque_token m.opaque_token) db.sessions ≡ none
    → Agrees db s g (true, some (c.hash_opaque_token m.opaque_token)) (rotate c m s u db)
unfolding rotate new_session
rotate-Agrees c m s u db g sound found live fresh =
    rw (fresh, rotate)
      (
        refl,
        rotated-current g db.sessions s (new_session c m u.id s.family_id) m.now sound found live
            refl refl,
      )

-- The abstract family accepts a token of a sound table exactly if its row is live.
present-live :
    (b : Bool) (h next : Text) (ss : List RefreshSession) (s : RefreshSession)
    → IsSound ss
    → find_session h ss ≡ some s
    → present b h next (current s.family_id ss)
      ≡ (if is_live s && b then (true, some next) else (false, none))
present-live b h next ss s (single, once) found = elim (Bool-cases (is_live s)) [
  | inl live ↦
      rw (current-live h ss s found live (single s.family_id), live) (present-current b h next)
  | inr dead ↦
      let apart : current s.family_id ss ≡ some h → b ≡ false =
        λ e. absurd (false≢true (sym dead ∙ live-current s.family_id h ss s (once h) found e)) in
      rw dead (present-other b h next (current s.family_id ss) apart)
]

admissible-live :
    (now : ℕ) (s : RefreshSession) (db : Accounts)
    → is_admissible now s db ≡ is_live s && is_allowed now s db
unfolding is_stale
admissible-live now s db = ground arith

refresh_session-Agrees :
    (c : Security) (m : Moment) (s : RefreshSession) (db : Accounts) (g : Text)
    → IsSound db.sessions
    → find_session s.token_hash db.sessions ≡ some s
    → find_session (c.hash_opaque_token m.opaque_token) db.sessions ≡ none
    → Agrees db s g
        (if is_live s && is_allowed m.now s db
          then (true, some (c.hash_opaque_token m.opaque_token))
          else (false, none))
        (refresh_session c m s db)
refresh_session-Agrees c m s db g sound found fresh =
    let next = c.hash_opaque_token m.opaque_token in
    let alike = admissible-live m.now s db in
    elim (Bool-cases (is_live s && is_allowed m.now s db)) [
      | inl fine ↦
          let live : is_live s ≡ true = ground (arith, fine) in
          let (u, granted) = refresh_session-granted c m s db (alike ∙ fine) in
          rw fine (
            subst (Agrees db s g (true, some next)) (sym granted)
              (rotate-Agrees c m s u db g sound found live fresh))
      | inr bad ↦ rw bad (
          subst (Agrees db s g (false, none)) (sym (refresh_session-refused c m s db (alike ∙ bad)))
            (refused-Agrees m db s g))
    ]

-- `refresh_tokens` on a known token refines the abstract family. In a sound table, with a new opaque
-- token: the call succeeds exactly if the family accepts the token; afterwards the row's family has
-- the chain that the abstract move gives, and every other family the chain it had.
pub refresh_tokens-refines :
    (c : Security) (m : Moment) (raw : Text) (db : Accounts) (s : RefreshSession) (g : Text)
    → IsSound db.sessions
    → is_empty raw ≡ false
    → find_session (c.hash_opaque_token raw) db.sessions ≡ some s
    → find_session (c.hash_opaque_token m.opaque_token) db.sessions ≡ none
    → Agrees db s g
        (present
          (is_allowed m.now s db)
          (c.hash_opaque_token raw)
          (c.hash_opaque_token m.opaque_token)
          (current s.family_id db.sessions))
        (refresh_tokens c m raw db)
refresh_tokens-refines c m raw db s g sound full found fresh =
    let h = c.hash_opaque_token raw in
    let next = c.hash_opaque_token m.opaque_token in
    let b = is_allowed m.now s db in
    let hash = find_session-token_hash h db.sessions s found in
    let own : find_session s.token_hash db.sessions ≡ some s =
      subst (λ k. find_session k db.sessions ≡ some s) (sym hash) found in
    let spec = present-live b h next db.sessions s sound found in
    subst (λ p. Agrees db s g p (refresh_tokens c m raw db)) (sym spec)
      (subst (Agrees db s g (if is_live s && b then (true, some next) else (false, none)))
        (sym (refresh_tokens-found c m raw db s full found))
        (refresh_session-Agrees c m s db g sound own fresh))
