-- ===== src/States/Edges.antt =====
-- The edge trigger of `StateEngine`: what one evaluation stores and reports, and what a run shows.
use mathlib.Core.Path.{subst}
use apanel.Base.{
  beq, nat_equality, bool_equality, pair_equality, option_equality, ◌=?◌, beq→eq, Text,
  text_equality, ◌≡◌, refl, ◌≢◌, inl, inr, Bool, true, false, Option, none, some, List, [], ◌∷◌,
  arith, if◌then◌else◌, is_some, or_else, All, ◌>>=◌, >>=-eq-ok, Result-cases, ok, err,
}
use apanel.Base.Dict.{get, get-put, get-put_self, get-drop_keys}
use apanel.Base.Number.{Number}
use apanel.States.Definitions.{StateDefinition}
use apanel.States.Registry.{get_state}
use apanel.States.Engine.{
  Key, Reading, reset, inactive, read_signal, key_of, conclude, evaluate_definition, lift_registry,
  resolve_tolerance, evaluate_state, run, StateResult, EngineError, Request, Engine,
}

module _ (number : Number) where
  open number use {Real}

  conclude-last_active :
      (d : StateDefinition Real) (t : Real) (r : Request Real) (e : Engine number)
      (x : Reading Real) (k : Key)
      → get (conclude number d t r e x).1.last_active k ≡ (
          if beq (key_of number d r) k
          then some (conclude number d t r e x).0.active
          else get e.last_active k)
  unfolding conclude
  conclude-last_active d t r e (err x) k = get-put e.last_active (key_of number d r) false k
  conclude-last_active d t r e (ok x) k = get-put e.last_active (key_of number d r) x.0.active k

  -- A transition is reported only for an active state whose last bit, given or stored, was not on.
  conclude-transition :
      (d : StateDefinition Real) (t : Real) (r : Request Real) (e : Engine number)
      (x : Reading Real)
      → (conclude number d t r e x).0.transition ≡ true
      → ((conclude number d t r e x).0.active ≡ true)
        × (or_else r.previous_active (get e.last_active (key_of number d r)) ≢ some true)
  unfolding conclude
  conclude-transition d t r e (err x) h = cc
  conclude-transition d t r e (ok x) h = (ground arith, λ p. ground arith)

  conclude-definition :
      (d : StateDefinition Real) (t : Real) (r : Request Real) (e : Engine number)
      (x : Reading Real)
      → (conclude number d t r e x).0.definition ≡ d
  unfolding conclude inactive
  conclude-definition d t r e (err x) = refl
  conclude-definition d t r e (ok x) = refl

  -- What is left of an evaluation that succeeds: it is one of a definition, at a tolerance.
  evaluate_state-eq-ok :
      (r : Request Real) (e e' : Engine number) (s : StateResult Real)
      → evaluate_state number r e ≡ ok (s, e')
      → (d : StateDefinition Real) × (t : Real) × (x : Reading Real) × (conclude number d t r e x
          ≡ (s, e'))
  unfolding evaluate_state evaluate_definition
  evaluate_state-eq-ok r e e' s p =
      let found = lift_registry number (get_state e.registry r.code) in
      let at_tolerance = resolve_tolerance number r.tolerance e in
      let (d, _, q) =
        >>=-eq-ok found (λ d. at_tolerance >>= λ t. ok (evaluate_definition number d t r e)) p in
      let (t, _, q') = >>=-eq-ok at_tolerance (λ t. ok (evaluate_definition number d t r e)) q in
      let same : conclude number d t r e (read_signal number d r t) ≡ (s, e') = cc in
      (d, t, read_signal number d r t, same)

  run-cons-err :
      (r : Request Real) (rs : List (Request Real)) (e : Engine number) (x : EngineError)
      → evaluate_state number r e ≡ err x
      → run number (r ∷ rs) e ≡ run number rs e
  unfolding run
  run-cons-err r rs e x p = rw (p, run)

  run-cons-ok :
      (r : Request Real) (rs : List (Request Real)) (e e' : Engine number) (s : StateResult Real)
      → evaluate_state number r e ≡ ok (s, e')
      → run number (r ∷ rs) e ≡ (key_of number s.definition r, s) ∷ run number rs e'
  unfolding run
  run-cons-ok r rs e e' s p = rw (p, run)

  -- Along the results of the key `k`, a transition is reported only on an active day, and only
  -- where the last bit before it was off; `on` is that bit.
  abbrev pub Alternates : Key → Bool → List (Key × StateResult Real) → Type 0
  Alternates k on [] = Unit
  Alternates k on ((j, s) ∷ rest) =
      (beq j k ≡ true → s.transition ≡ true → (s.active ≡ true) × (on ≡ false))
      × Alternates k (if beq j k then s.active else on) rest

  -- One step of such a run: the report, and the bit that it leaves for `k`.
  abbrev Follows : Key → Bool → Request Real → StateResult Real → Engine number → Type 0
  Follows k on r s e' =
      (beq (key_of number s.definition r) k ≡ true
        → s.transition ≡ true
        → (s.active ≡ true) × (on ≡ false))
      × (get e'.last_active k
          ≡ some (if beq (key_of number s.definition r) k then s.active else on))

  conclude-Follows :
      (k : Key) (on : Bool) (d : StateDefinition Real) (t : Real) (r : Request Real)
      (e : Engine number) (x : Reading Real)
      → r.previous_active ≡ none
      → get e.last_active k ≡ some on
      → Follows k on r (conclude number d t r e x).0 (conclude number d t r e x).1
  conclude-Follows k on d t r e x given stored = rw (conclude-definition d t r e x) (
    (λ at fired.
        let (active, unlit) = conclude-transition d t r e x fired in
        (active, ground (arith, unlit, beq→eq (key_of number d r) k at, given, stored))),
    ground (arith, conclude-last_active d t r e x k, stored),
  )

  evaluate_state-Follows :
      (k : Key) (on : Bool) (r : Request Real) (e e' : Engine number) (s : StateResult Real)
      → evaluate_state number r e ≡ ok (s, e')
      → r.previous_active ≡ none
      → get e.last_active k ≡ some on
      → Follows k on r s e'
  evaluate_state-Follows k on r e e' s p given stored =
      let (d, t, x, same) = evaluate_state-eq-ok r e e' s p in
      subst (λ o. Follows k on r o.0 o.1) same (conclude-Follows k on d t r e x given stored)

  -- Of all the evaluations that go through one engine, those for one key (a stream and a state)
  -- alternate: a transition is reported only on an active day, and only where the result before it
  -- for that key was inactive, whatever was evaluated for other keys in between. It starts from a
  -- stored bit `on`, and callers give no `previous_active` of their own.
  pub run-Alternates :
      (k : Key) (on : Bool) (rs : List (Request Real)) (e : Engine number)
      → All (λ r. r.previous_active ≡ none) rs
      → get e.last_active k ≡ some on
      → Alternates k on (run number rs e)
  unfolding run
  run-Alternates k on [] e h stored = tt
  run-Alternates k on (r ∷ rs) e h stored = elim (Result-cases (evaluate_state number r e)) [
    | inl (x, p) ↦ rw (run-cons-err r rs e x p) (run-Alternates k on rs e h.1 stored)
    | inr ((s, e'), p) ↦
        let (now, later) = evaluate_state-Follows k on r e e' s p h.0 stored in
        rw (run-cons-ok r rs e e' s p) (
          now,
          run-Alternates k (if beq (key_of number s.definition r) k then s.active else on) rs e' h.1
              later,
        )
  ]

  -- A result that carries a reason is inactive, reports no transition and no values, and leaves the
  -- state's bit off; a result with no reason shows the current values and stores its own bit.
  pub conclude_reason :
      (d : StateDefinition Real) (t : Real) (r : Request Real) (e : Engine number)
      (x : Reading Real)
      → let (s, e') = conclude number d t r e x in
        (get e'.last_active (key_of number d r) ≡ some s.active)
        × (is_some s.reason ≡ true → (s.active ≡ false) × (s.transition ≡ false) × (s.values ≡ []))
        × (s.active ≡ true → s.reason ≡ none)
  unfolding conclude inactive
  conclude_reason d t r e (err x) =
      (get-put_self e.last_active (key_of number d r) false, ground arith, ground arith)
  conclude_reason d t r e (ok x) =
      (get-put_self e.last_active (key_of number d r) x.0.active, ground arith, ground arith)

  -- `reset` of one stream forgets exactly that stream's bits; `reset` of all forgets every bit.
  pub get-reset :
      (stream : Option Text) (e : Engine number) (k : Key)
      → get (reset number stream e).last_active k ≡ (
          if elim stream [ none ↦ true | some prefix ↦ k.0 =? prefix ]
          then none
          else get e.last_active k)
  unfolding reset get
  get-reset none e k = refl
  get-reset (some prefix) e k = get-drop_keys (λ j. j.0 =? prefix) e.last_active k
