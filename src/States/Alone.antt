-- ===== src/States/Alone.antt =====
-- Proofs on the independence of the states of a pass.
use mathlib.Core.Path.{subst}
use apanel.Base.{
  Text, ◌≡◌, refl, sym, ap, ◌∙◌, inl, inr, List, [], ◌∷◌, All, Result-cases, ◌>>=◌, Result, ok,
}
use apanel.Base.Number.{Number}
use apanel.States.Registry.{get_state, Registry}
use apanel.States.Engine.{evaluate_state, StateResult, EngineError, Request, Engine}
use apanel.States.Pass.{with_code, evaluate_codes}
use apanel.States.Reads.{result_of, AreApart, SameFor, evaluated-same, next-SameFor, next-settings}

module _ (number : Number) where
  open number use {Real}

  -- Each state evaluated by itself on the same engine.
  unfoldable pub alone :
      List Text → Request Real → Engine number → Result EngineError (List (StateResult Real))
  unfolding evaluate_state
  alone [] r e = ok []
  alone (c ∷ cs) r e = do
    s ← result_of number (evaluate_state number (with_code r c) e)
    rest ← alone cs r e
    ok (s ∷ rest)

  abbrev pub AllApart : Registry Real → List Text → Type 0
  AllApart registry [] = Unit
  AllApart registry (c ∷ cs) = All (AreApart number registry c) cs × AllApart registry cs

  same_after :
      (c : Text) (cs : List Text) (r : Request Real) (e e' : Engine number) (s : StateResult Real)
      (next : Engine number)
      → evaluate_state number (with_code r c) e' ≡ ok (s, next)
      → e'.registry ≡ e.registry
      → All (AreApart number e.registry c) cs
      → All (SameFor number r e e') cs
      → All (SameFor number r e next) cs
  same_after c [] r e e' s next done registry apart same = tt
  same_after c (c' ∷ cs) r e e' s next done registry (first, apart) (here, same) = (
    λ d known.
        next-SameFor number c c' r e' s next done
          (subst (λ g. AreApart number g c c') (sym registry) first) d
          (ap (λ g. get_state g c') registry ∙ known)
        ∙ here d known,
    same_after c cs r e e' s next done registry apart same,
  )

  -- What holds of the engine in the middle of a pass.
  evaluate_codes-alone_from :
      (cs : List Text) (r : Request Real) (e e' : Engine number)
      → AllApart e.registry cs
      → e'.registry ≡ e.registry
      → e'.tolerance ≡ e.tolerance
      → All (SameFor number r e e') cs
      → (evaluate_codes number cs r e').0 ≡ alone cs r e
  unfolding evaluate_codes alone
  evaluate_codes-alone_from [] r e e' apart registry tolerance same = refl
  evaluate_codes-alone_from (c ∷ cs) r e e' (first, apart) registry tolerance (here, same) =
      let equal = evaluated-same number c r e e' registry tolerance here in
      elim (Result-cases (evaluate_state number (with_code r c) e')) [
        | inl (x, bad) ↦
            let there = sym equal ∙ ap (result_of number) bad in
            rw (bad, evaluate_codes)
              (sym (ap (λ m. m >>= λ s. alone cs r e >>= λ rest. ok (s ∷ rest)) there))
        | inr ((s, next), good) ↦
            let there = sym equal ∙ ap (result_of number) good in
            let (kept, steady) = next-settings number c r e' s next good in
            let rest =
              evaluate_codes-alone_from cs r e next apart (kept ∙ registry) (steady ∙ tolerance)
                (same_after c cs r e e' s next good registry first same) in
            rw (good, evaluate_codes)
              (ap (λ m. m >>= λ l. ok (s ∷ l)) rest
                ∙ sym (ap (λ m. m >>= λ x. alone cs r e >>= λ l. ok (x ∷ l)) there))
      ]

  same_refl :
      (cs : List Text) (r : Request Real) (e : Engine number) → All (SameFor number r e e) cs
  same_refl [] r e = tt
  same_refl (c ∷ cs) r e = (λ d known. refl, same_refl cs r e)

  -- The states of a pass do not disturb each other: when its codes name definitions with different
  -- codes, a pass returns what each state gives when it is evaluated by itself on the engine before the
  -- pass, in the order of the codes, or raises the first exception of those evaluations.
  pub evaluate_codes-alone :
      (cs : List Text) (r : Request Real) (e : Engine number)
      → AllApart e.registry cs
      → (evaluate_codes number cs r e).0 ≡ alone cs r e
  evaluate_codes-alone cs r e apart =
      evaluate_codes-alone_from cs r e e apart refl refl (same_refl cs r e)
