-- ===== src/States/Listed.antt =====
-- Proofs on what `definitions` lists of a registry that `StateRegistry.__init__` made.
use mathlib.Core.List.{append_assoc, append-nil}
use mathlib.Core.Path.{subst}
use apanel.Base.{
  nat_equality, bool_equality, pair_equality, option_equality, beq_refl, Text, text_equality, ◌≡◌,
  refl, false, none, some, List, [], ◌∷◌, ◌++◌, arith, >>=-eq-ok, ok,
}
use apanel.Base.Texts.{text_test_iff}
use apanel.Base.Dict.{Dict, get, has}
use apanel.States.Definitions.{StateDefinition}
use apanel.States.Registry.{
  member, empty_registry, first_collision, register, register_all, definitions_of, definitions,
  Registry,
}
use apanel.States.Codes.{register-eq-ok, register_keeps}

module _ {F : Type 0} where
  -- Each code has the definition at its place.
  abbrev Lists : Dict Text (StateDefinition F) → List Text → List (StateDefinition F) → Type 0
  Lists states [] [] = Unit
  Lists states [] (e ∷ es) = ⊥
  Lists states (c ∷ codes) [] = ⊥
  Lists states (c ∷ codes) (e ∷ es) = (get states c ≡ some e) × Lists states codes es

  definitions_of-Lists :
      (states : Dict Text (StateDefinition F)) (codes : List Text) (es : List (StateDefinition F))
      → Lists states codes es
      → definitions_of states codes ≡ some es
  unfolding definitions_of
  definitions_of-Lists states [] [] l = refl
  definitions_of-Lists states [] (e ∷ es) l = absurd l
  definitions_of-Lists states (c ∷ codes) [] l = absurd l
  definitions_of-Lists states (c ∷ codes) (e ∷ es) (here, l) =
      rw (here, definitions_of-Lists states codes es l, definitions_of) refl

  Lists-member :
      (states : Dict Text (StateDefinition F)) (codes : List Text) (es : List (StateDefinition F))
      (c : Text)
      → Lists states codes es
      → get states c ≡ none
      → member codes c ≡ false
  Lists-member states [] es c l missing = refl
  Lists-member states (x ∷ codes) [] c l missing = absurd l
  Lists-member states (x ∷ codes) (e ∷ es) c (here, l) missing =
      ground (arith, here, missing, Lists-member states codes es c l missing, text_test_iff x c)

  Lists-append :
      (states next : Dict Text (StateDefinition F)) (codes : List Text)
      (es : List (StateDefinition F)) (c : Text) (d : StateDefinition F)
      → ((j : Text) (x : StateDefinition F) → get states j ≡ some x → get next j ≡ some x)
      → get next c ≡ some d
      → Lists states codes es
      → Lists next (codes ++ c ∷ []) (es ++ d ∷ [])
  Lists-append states next [] [] c d kept here l = (here, tt)
  Lists-append states next [] (e ∷ es) c d kept here l = absurd l
  Lists-append states next (x ∷ codes) [] c d kept here l = absurd l
  Lists-append states next (x ∷ codes) (e ∷ es) c d kept here (found, l) =
      (kept x e found, Lists-append states next codes es c d kept here l)

  first_collision-head :
      (states : Dict Text (StateDefinition F)) (name : Text)
      → first_collision states (name ∷ []) ≡ none
      → get states name ≡ none
  unfolding first_collision has
  first_collision-head states name h = ground (arith, h)

  -- A code that registers without replacing was not listed, and comes last.
  register-Lists :
      (d : StateDefinition F) (r next : Registry F) (es : List (StateDefinition F))
      → Lists r.states r.canonical_codes es
      → register d [] false r ≡ ok next
      → Lists next.states next.canonical_codes (es ++ d ∷ [])
  register-Lists d r next es l done =
      let (states, codes, free) = register-eq-ok d [] false r next done in
      let (kept, named) = register_keeps d [] r next d.code done in
      let fresh =
        Lists-member r.states r.canonical_codes es d.code l
          (first_collision-head r.states d.code (free refl)) in
      let appended : next.canonical_codes ≡ r.canonical_codes ++ d.code ∷ [] =
        rw (codes, fresh) refl in
      rw appended (
        Lists-append r.states next.states r.canonical_codes es d.code d
          (λ j. (register_keeps d [] r next j done).0) (named (rw (beq_refl d.code) refl)) l)

  register_all-Lists :
      (ds : List (StateDefinition F)) (r last : Registry F) (es : List (StateDefinition F))
      → Lists r.states r.canonical_codes es
      → register_all ds r ≡ ok last
      → Lists last.states last.canonical_codes (es ++ ds)
  unfolding register_all
  register_all-Lists [] r last es l done =
      let same : r ≡ last = cc done in
      subst (λ q. Lists q.states q.canonical_codes (es ++ [])) same (rw (append-nil es) l)
  register_all-Lists (d ∷ ds) r last es l done =
      let (next, first, rest) = >>=-eq-ok (register d [] false r) (register_all ds) done in
      subst (Lists last.states last.canonical_codes) (append_assoc es (d ∷ []) ds)
        (register_all-Lists ds next last (es ++ d ∷ []) (register-Lists d r next es l first) rest)

  -- If every definition that `StateRegistry` is made of registers, `definitions()` meets no missing key
  -- and returns exactly these definitions, in their order.
  pub register_all-definitions :
      (ds : List (StateDefinition F)) (r : Registry F)
      → register_all ds empty_registry ≡ ok r
      → definitions r ≡ some ds
  unfolding definitions
  register_all-definitions ds r done =
      definitions_of-Lists r.states r.canonical_codes ds
        (register_all-Lists ds empty_registry r [] tt done)
