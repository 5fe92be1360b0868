-- ===== src/Sync/Isolated.antt =====
-- Proofs on `_fetch_with_invalid_symbol_isolation`.
use mathlib.Core.Path.{subst}
use mathlib.Core.List.{append_assoc, append-nil}
use apanel.Base.{
  beq, nat_equality, bool_equality, pair_equality, option_equality, beq→eq, Text, text_equality, ℕ,
  zero, suc, ◌/◌, ◌≤◌, ◌≡◌, refl, sym, ap, ◌∙◌, inl, inr, Bool, true, false, not, ◌||◌, false≢true,
  List, [], ◌∷◌, ◌++◌, arith, Bool-cases, length, any, All, Result, err, ok,
}
use apanel.Base.Dict.{Dict, get, put, has}
use apanel.Base.Slices.{
  take, drop, take-append-drop, length-take, length-drop, filter, filter-append, any-append,
  filter_all, filter_none, All-append, is_in,
}
use apanel.Base.Keys.{has-put}
use apanel.Sync.Failures.{is_invalid, Call, resume, Raised}
use apanel.Sync.Fetching.{merge, Isolated, both, divide, resolve, isolate}

module _ {V : Type 0} where
  pub has-merge : (d e : Dict Text V) (k : Text) → has (merge d e) k ≡ (has d k || has e k)
  unfolding merge has get
  has-merge d [] k = ground arith
  has-merge d ((j, v) ∷ e) k = ground (arith, has-merge (put d j v) e k, has-put d j v k)

  -- Every value is the one that `f` gives to its key.
  abbrev pub Given : (Text → V) → Dict Text V → Type 0
  Given f = All (λ p. p.1 ≡ f p.0)

  Given-put : (f : Text → V) (d : Dict Text V) (k : Text) → Given f d → Given f (put d k (f k))
  unfolding put
  Given-put f [] k h = (refl, tt)
  Given-put f ((j, w) ∷ d) k (first, others) = elim (Bool-cases (beq j k)) [
    | inl same ↦ rw same (ap f (sym (beq→eq j k same)), others)
    | inr other ↦ rw other (first, Given-put f d k others)
  ]

  Given-merge : (f : Text → V) (d e : Dict Text V) → Given f d → Given f e → Given f (merge d e)
  unfolding merge
  Given-merge f d [] h g = h
  Given-merge f d ((k, v) ∷ e) h (first, others) =
      Given-merge f (put d k v) e (subst (λ u. Given f (put d k u)) (sym first) (Given-put f d k h))
        others

-- The symbols of the requests that were answered.
unfoldable pub answered : {B : Type 0} → List (List Text × B) → List Text
answered [] = []
answered ((symbols, b) ∷ rest) = symbols ++ answered rest

answered-append :
    {B : Type 0} (l r : List (List Text × B)) → answered (l ++ r) ≡ answered l ++ answered r
unfolding answered
answered-append [] r = refl
answered-append ((symbols, b) ∷ l) r =
    cc (answered-append l r, append_assoc symbols (answered l) (answered r))

module _ {B : Type 0} (bad : Text → Bool) (rejection : List Text → Raised)
    (answer : List Text → B) where
  -- The request was taken apart at the symbols that `bad` names, and answered for the others.
  unfoldable pub Separates : List Text → Result Raised (Isolated B) → Type 0
  unfolding answered filter has
  Separates symbols (err x) = ⊥
  Separates symbols (ok (batches, errors)) =
      (answered batches ≡ filter (λ s. not (bad s)) symbols)
      × All (λ p. p.1 ≡ answer p.0) batches
      × ((k : Text) → has errors k ≡ is_in k (filter bad symbols))
      × Given (λ k. rejection (k ∷ [])) errors

  Separates-joined :
      (xs ys : List Text) (l r : Isolated B)
      → Separates xs (ok l)
      → Separates ys (ok r)
      → Separates (xs ++ ys) (ok (both l r))
  unfolding Separates both
  Separates-joined xs ys (l, le) (r, re) (a, b, c, d) (a', b', c', d') = (
    answered-append l r ∙ cc (a, a', filter-append (λ s. not (bad s)) xs ys),
    All-append (λ p. p.1 ≡ answer p.0) l r b b',
    (λ k.
        let parts = any-append (λ y. beq y k) (filter bad xs) (filter bad ys) in
        has-merge le re k ∙ cc (c k, c' k, ap (is_in k) (filter-append bad xs ys), parts)),
    Given-merge (λ k. rejection (k ∷ [])) le re d d',
  )

  Separates-later :
      {W : Type 0} (xs ys : List Text) (l : Isolated B) (right : Result Raised (Isolated B) × W)
      → Separates xs (ok l)
      → Separates ys right.0
      → Separates (xs ++ ys) (resume right (λ r u. (ok (both l r), u))).0
  unfolding Separates
  Separates-later xs ys l (err x, w) h g = g
  Separates-later xs ys l (ok r, w) h g = Separates-joined xs ys l r h g

  Separates-both :
      {W : Type 0} (xs ys : List Text) (left : Result Raised (Isolated B) × W)
      (right : Call W (Isolated B))
      → Separates xs left.0
      → ((w : W) → Separates ys (right w).0)
      → Separates (xs ++ ys) (resume left (λ l v. resume (right v) (λ r u. (ok (both l r), u)))).0
  unfolding Separates
  Separates-both xs ys (err x, w) right h g = h
  Separates-both xs ys (ok l, w) right h g = Separates-later xs ys l (right w) h (g w)

module _ {W B : Type 0} (symbols : List Text) (left right : Call W (Isolated B)) where
  resolve_ok :
      (r : Result Raised B × W) {b : B}
      → r.0 ≡ ok b
      → resolve symbols left right r ≡ (ok ((symbols, b) ∷ [], []), r.1)
  unfolding resolve
  resolve_ok (ok b, w) h = cc h
  resolve_ok (err x, w) h = cc h

  resolve_invalid :
      (r : Result Raised B × W) {x : Raised}
      → r.0 ≡ err x
      → is_invalid x ≡ true
      → resolve symbols left right r ≡ divide symbols x left right r.1
  unfolding resolve
  resolve_invalid (ok b, w) h i = cc h
  resolve_invalid (err x, w) h i = ground (arith, h, i)

module _ {W B : Type 0} (bad : Text → Bool) (rejection : List Text → Raised)
    (answer : List Text → B) (fetch : List Text → Call W B)
    (invalid : (rs : List Text) → is_invalid (rejection rs) ≡ true)
    (rejects : (rs : List Text) (w : W) → any bad rs ≡ true → (fetch rs w).0 ≡ err (rejection rs))
    (answers : (rs : List Text) (w : W)
      → any bad rs ≡ false
      → (fetch rs w).0 ≡ ok (answer rs)) where
  isolate_whole :
      (n : ℕ) (symbols : List Text) (w : W)
      → any bad symbols ≡ false
      → Separates bad rejection answer symbols (isolate fetch (suc n) symbols w).0
  unfolding isolate Separates answered has get
  isolate_whole n symbols w good =
      rw (resolve_ok symbols _ _ (fetch symbols w) (answers symbols w good)) (
        append-nil symbols ∙ sym (filter_all bad symbols good),
        (refl, tt),
        (λ k. rw (filter_none bad symbols good) refl),
        tt,
      )

  divide-Separates :
      (symbols : List Text) (w : W)
      → any bad symbols ≡ true
      → (left right : Call W (Isolated B))
      → (2 ≤ length symbols
          → (v : W) → Separates bad rejection answer (take (length symbols / 2) symbols) (left v).0)
      → (2 ≤ length symbols
          → (v : W)
          → Separates bad rejection answer (drop (length symbols / 2) symbols) (right v).0)
      → Separates bad rejection answer symbols (divide symbols (rejection symbols) left right w).0
  unfolding divide Separates answered has get filter
  divide-Separates [] w found left right h g = absurd (false≢true found)
  divide-Separates (s ∷ []) w found left right h g =
      let one : bad s ≡ true = ground (arith, found) in
      rw one (refl, tt, (λ k. ground (arith, one)), (refl, tt))
  divide-Separates (s ∷ t ∷ rest) w found left right h g =
      rw take-append-drop at (
        Separates-both bad rejection answer _ _ (left w) right (h (omega arith) w)
          (g (omega arith)))

  -- If the provider refuses, as invalid, exactly the requests that hold a bad symbol, the call
  -- returns: the answered requests hold the other symbols, each once per occurrence and in order,
  -- with the provider's answer to each; the errors are those of the bad symbols, each the one that
  -- the provider raised for that symbol alone. There is at least one symbol, and the depth of calls
  -- that is allowed is at least the number of symbols.
  pub isolate-Separates :
      (n : ℕ) (symbols : List Text) (w : W)
      → 1 ≤ length symbols
      → length symbols ≤ n
      → Separates bad rejection answer symbols (isolate fetch n symbols w).0
  unfolding isolate
  isolate-Separates zero symbols w some_symbol enough = absurd (omega arith)
  isolate-Separates (suc n) symbols w some_symbol enough = elim (Bool-cases (any bad symbols)) [
    | inr good ↦ isolate_whole n symbols w good
    | inl found ↦
        let middle = length symbols / 2 in
        rw
          (resolve_invalid symbols _ _ (fetch symbols w) (rejects symbols w found)
            (invalid symbols))
          (divide-Separates symbols (fetch symbols w).1 found _ _
            (λ long v.
              isolate-Separates n (take middle symbols) v
                (rw (length-take middle symbols) (omega arith))
                (rw (length-take middle symbols) (omega arith)))
            (λ long v.
              isolate-Separates n (drop middle symbols) v
                (rw (length-drop middle symbols) (omega arith))
                (rw (length-drop middle symbols) (omega arith))))
  ]
