-- ===== src/States/Reads.antt =====
-- What the evaluation of one state reads of the engine and writes to it.
use mathlib.Core.Path.{subst}
use apanel.Base.{
  nat_equality, bool_equality, pair_equality, option_equality, ◌=?◌, Text, text_equality, ◌≡◌, refl,
  sym, ap, ◌∙◌, inl, inr, Bool, true, false, not, arith, Result-cases, ◌>>=◌, >>=-eq-ok, Result,
  err, ok,
}
use apanel.Base.Dict.{get, get-put}
use apanel.Base.Number.{Number}
use apanel.States.Values.{Scalar, null, opaque, not_finite, overflowing, bool, real, decimal, str}
use apanel.States.Definitions.{StateDefinition}
use apanel.States.Registry.{get_state, Registry, RegistryError}
use apanel.States.Engine.{
  Key, Reading, inactive, read_signal, was_active, key_of, conclude, evaluate_definition,
  resolve_tolerance, evaluate_state, StateResult, EngineError, registry_error, Request, Engine,
}
use apanel.States.Pass.{with_code}

module _ (number : Number) where
  open number use {Real}

  -- The result of `evaluate_state` without the engine after it.
  abbrev pub result_of :
      Result EngineError (StateResult Real × Engine number) → Result EngineError (StateResult Real)
  result_of r = r >>= λ p. ok p.0

  -- Two codes do not name definitions with the same code of their own.
  abbrev differ :
      Result RegistryError (StateDefinition Real)
      → Result RegistryError (StateDefinition Real)
      → Bool
  differ (ok d) (ok d') = not (d.code =? d'.code)
  differ _ _ = true

  abbrev pub AreApart : Registry Real → Text → Text → Type 0
  AreApart registry c c' = differ (get_state registry c) (get_state registry c') ≡ true

  -- The engines agree on what the evaluation of `c` reads.
  abbrev pub SameFor : Request Real → Engine number → Engine number → Text → Type 0
  SameFor r e e' c =
      (d : StateDefinition Real)
      → get_state e.registry c ≡ ok d
      → get e'.last_active (key_of number d r) ≡ get e.last_active (key_of number d r)

  conclude-same :
      (d : StateDefinition Real) (tolerance : Real) (r : Request Real) (e e' : Engine number)
      (reading : Reading Real)
      → get e'.last_active (key_of number d r) ≡ get e.last_active (key_of number d r)
      → (conclude number d tolerance r e' reading).0 ≡ (conclude number d tolerance r e reading).0
  unfolding conclude inactive was_active
  conclude-same d tolerance r e e' (err x) same = refl
  conclude-same d tolerance r e e' (ok (s, (current, previous))) same = rw same refl

  -- Only the key of the definition is written.
  conclude-other :
      (d : StateDefinition Real) (tolerance : Real) (r : Request Real) (e : Engine number)
      (reading : Reading Real) (k : Key)
      → (key_of number d r =? k) ≡ false
      → get (conclude number d tolerance r e reading).1.last_active k ≡ get e.last_active k
  unfolding conclude inactive
  conclude-other d tolerance r e (err x) k away =
      rw (get-put e.last_active (key_of number d r) false k, away) refl
  conclude-other d tolerance r e (ok (s, (current, previous))) k away =
      rw (get-put e.last_active (key_of number d r) s.active k, away) refl

  conclude-registry :
      (d : StateDefinition Real) (tolerance : Real) (r : Request Real) (e : Engine number)
      (reading : Reading Real)
      → ((conclude number d tolerance r e reading).1.registry ≡ e.registry)
        × ((conclude number d tolerance r e reading).1.tolerance ≡ e.tolerance)
  unfolding conclude inactive
  conclude-registry d tolerance r e (err x) = (refl, refl)
  conclude-registry d tolerance r e (ok (s, (current, previous))) = (refl, refl)

  state-known :
      (r : Request Real) (e : Engine number) (d : StateDefinition Real)
      → get_state e.registry r.code ≡ ok d
      → evaluate_state number r e ≡ (
          resolve_tolerance number r.tolerance e >>= λ t.
          ok (conclude number d t r e (read_signal number d r t)))
  unfolding evaluate_state evaluate_definition
  state-known r e d known = rw (known, evaluate_state) refl

  state-unknown :
      (r : Request Real) (e : Engine number) (x : RegistryError)
      → get_state e.registry r.code ≡ err x
      → evaluate_state number r e ≡ err (registry_error x)
  unfolding evaluate_state
  state-unknown r e x unknown = rw (unknown, evaluate_state) refl

  resolve_tolerance-same :
      (t : Scalar Real) (e e' : Engine number)
      → e'.tolerance ≡ e.tolerance
      → resolve_tolerance number t e' ≡ resolve_tolerance number t e
  unfolding resolve_tolerance
  resolve_tolerance-same null e e' same = ap ok same
  resolve_tolerance-same opaque e e' same = refl
  resolve_tolerance-same not_finite e e' same = refl
  resolve_tolerance-same overflowing e e' same = refl
  resolve_tolerance-same (bool b) e e' same = refl
  resolve_tolerance-same (real x) e e' same = refl
  resolve_tolerance-same (decimal x) e e' same = refl
  resolve_tolerance-same (str t) e e' same = refl

  -- Engines that agree on what is read give the same result.
  pub evaluated-same :
      (c : Text) (r : Request Real) (e e' : Engine number)
      → e'.registry ≡ e.registry
      → e'.tolerance ≡ e.tolerance
      → SameFor r e e' c
      → result_of (evaluate_state number (with_code r c) e')
        ≡ result_of (evaluate_state number (with_code r c) e)
  evaluated-same c r e e' registry tolerance same = elim (Result-cases (get_state e.registry c)) [
    | inl (x, unknown) ↦ ap result_of (
        state-unknown (with_code r c) e' x (ap (λ g. get_state g c) registry ∙ unknown)
        ∙ sym (state-unknown (with_code r c) e x unknown))
    | inr (d, known) ↦
        let there = state-known (with_code r c) e' d (ap (λ g. get_state g c) registry ∙ known) in
        let here = state-known (with_code r c) e d known in
        ap result_of there ∙ agree d known ∙ sym (ap result_of here)
  ]
    where
      agree :
          (d : StateDefinition Real)
          → get_state e.registry c ≡ ok d
          → result_of (
              resolve_tolerance number r.tolerance e' >>= λ t.
              ok (conclude number d t (with_code r c) e' (read_signal number d (with_code r c) t)))
            ≡ result_of (
                resolve_tolerance number r.tolerance e >>= λ t.
                ok (conclude number d t (with_code r c) e (read_signal number d (with_code r c) t)))
      agree d known =
          rw (resolve_tolerance-same r.tolerance e e' tolerance)
            (elim (Result-cases (resolve_tolerance number r.tolerance e)) [
              | inl (x, bad) ↦ rw bad refl
              | inr (t, good) ↦ rw good (
                  ap ok (
                    conclude-same d t (with_code r c) e e' (read_signal number d (with_code r c) t)
                      (same d known)))
            ])

  abbrev engine_of :
      Engine number → Result EngineError (StateResult Real × Engine number) → Engine number
  engine_of e (err _) = e
  engine_of e (ok p) = p.1

  -- The engine after an evaluation that returned is that of its conclusion.
  evaluated_next :
      (c : Text) (r : Request Real) (e : Engine number) (s : StateResult Real)
      (next : Engine number)
      → evaluate_state number (with_code r c) e ≡ ok (s, next)
      → (d : StateDefinition Real) × (get_state e.registry c ≡ ok d)
        × (t : Real) × (next
            ≡ (conclude number d t (with_code r c) e (read_signal number d (with_code r c) t)).1)
  evaluated_next c r e s next done = elim (Result-cases (get_state e.registry c)) [
    | inl (x, unknown) ↦ absurd (raised (sym (state-unknown (with_code r c) e x unknown) ∙ done))
    | inr (d, known) ↦
        let (t, _, out) =
          >>=-eq-ok (resolve_tolerance number r.tolerance e) _
            (sym (state-known (with_code r c) e d known) ∙ done) in
        (d, known, t, sym (ap (engine_of e) out))
  ]
    where
      raised :
          {x : EngineError} {p : StateResult Real × Engine number}
          → ◌≡◌ {A = Result EngineError (StateResult Real × Engine number)} (err x) (ok p)
          → ⊥
      raised q = ground (arith, q)

  pub next-SameFor :
      (c c' : Text) (r : Request Real) (e : Engine number) (s : StateResult Real)
      (next : Engine number)
      → evaluate_state number (with_code r c) e ≡ ok (s, next)
      → AreApart e.registry c c'
      → SameFor r e next c'
  next-SameFor c c' r e s next done apart d' known' =
      let (d, known, t, out) = evaluated_next c r e s next done in
      let codes : differ (ok d) (ok d') ≡ true =
        subst (λ x. differ x (ok d') ≡ true) known
          (subst (λ y. differ (get_state e.registry c) y ≡ true) known' apart) in
      let away : (key_of number d r =? key_of number d' r) ≡ false = ground (arith, codes) in
      rw out (
        conclude-other d t (with_code r c) e (read_signal number d (with_code r c) t)
          (key_of number d' r) away)

  pub next-settings :
      (c : Text) (r : Request Real) (e : Engine number) (s : StateResult Real)
      (next : Engine number)
      → evaluate_state number (with_code r c) e ≡ ok (s, next)
      → (next.registry ≡ e.registry) × (next.tolerance ≡ e.tolerance)
  next-settings c r e s next done =
      let (d, known, t, out) = evaluated_next c r e s next done in
      rw out (conclude-registry d t (with_code r c) e (read_signal number d (with_code r c) t))
