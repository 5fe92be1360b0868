-- ===== src/Sync/Groups.antt =====
-- Proofs on the grouping of the records and the calls for each group.
use mathlib.Core.List.{append_assoc, append-nil}
use apanel.Base.{
  beq, nat_equality, bool_equality, pair_equality, option_equality, ◌=?◌, beq_refl, beq→eq, beq_sym,
  Text, text_equality, ◌≡◌, refl, sym, ap, ◌∙◌, inl, inr, true, false, Option, none, some, List, [],
  ◌∷◌, ◌++◌, map, arith, if◌then◌else◌, Bool-cases, get_or_else, if-split, All,
}
use apanel.Base.Dict.{Dict, get, put, has, get-put}
use apanel.Base.Keys.{Distinct, Distinct-put}
use apanel.Base.Slices.{filter, All-snoc, is_in}
use apanel.Sync.Persisting.{grouped}

module _ {R : Type 0} (key : R → Text) where
  -- The records of a symbol, in order.
  unfoldable pub group : Text → List R → List R
  unfolding filter
  group k = filter (λ r. key r =? k)

  unfoldable extended : Text → List R → Option (List R) → Option (List R)
  unfolding filter
  extended k rs none = if is_in k (map key rs) then some (group k rs) else none
  extended k rs (some g) = some (g ++ group k rs)

  extended_same :
      (k : Text) (r : R) (rs : List R) (o : Option (List R))
      → beq (key r) k ≡ true
      → extended k rs (some (get_or_else o [] ++ r ∷ [])) ≡ extended k (r ∷ rs) o
  unfolding extended group filter
  extended_same k r rs none same = rw same refl
  extended_same k r rs (some g) same = rw same (ap some (append_assoc g (r ∷ []) (group k rs)))

  extended_other :
      (k : Text) (r : R) (rs : List R) (o : Option (List R))
      → beq (key r) k ≡ false
      → extended k rs o ≡ extended k (r ∷ rs) o
  unfolding extended group filter
  extended_other k r rs none other = rw other refl
  extended_other k r rs (some g) other = rw other refl

  extended_none : (k : Text) (o : Option (List R)) → o ≡ extended k [] o
  unfolding extended group filter
  extended_none k none = refl
  extended_none k (some g) = ap some (sym (append-nil g))

  get-grouped :
      (rs : List R) (d : Dict Text (List R)) (k : Text)
      → get (grouped key rs d) k ≡ extended k rs (get d k)
  unfolding grouped
  get-grouped [] d k = extended_none k (get d k)
  get-grouped (r ∷ rs) d k =
      let g = get_or_else (get d (key r)) [] ++ r ∷ [] in
      let rest = get-grouped rs (put d (key r) g) k ∙ ap (extended k rs) (get-put d (key r) g k) in
      elim (Bool-cases (beq (key r) k)) [
        | inl same ↦
            let own = ap (get d) (beq→eq (key r) k same) in
            rest ∙ rw (same, own) (extended_same k r rs (get d k) same)
        | inr other ↦ rest ∙ rw other (extended_other k r rs (get d k) other)
      ]

  -- A symbol's group is its records, where it has any.
  pub get-grouped_start :
      (rs : List R) (k : Text)
      → get (grouped key rs []) k ≡ (if is_in k (map key rs) then some (group k rs) else none)
  unfolding get extended
  get-grouped_start rs k = get-grouped rs [] k

  -- Every group holds records of its symbol, and no symbol has two groups.
  unfoldable pub IsGrouping : Dict Text (List R) → Type 0
  IsGrouping d = Distinct d × All (λ g. All (λ r. (key r =? g.0) ≡ true) g.1) d

  abbrev pub OwnedBy : Text → List R → Type 0
  OwnedBy k = All (λ r. (key r =? k) ≡ true)

  owned_put :
      (d : Dict Text (List R)) (r : R)
      → All (λ g. OwnedBy g.0 g.1) d
      → All (λ g. OwnedBy g.0 g.1) (put d (key r) (get_or_else (get d (key r)) [] ++ r ∷ []))
  unfolding get put
  owned_put [] r h = ((beq_refl (key r), tt), tt)
  owned_put ((k, g) ∷ d) r (first, others) = elim (Bool-cases (beq k (key r))) [
    | inl same ↦
        rw same (All-snoc (λ x. (key x =? k) ≡ true) g r first (beq_sym (key r) k ∙ same), others)
    | inr other ↦ rw other (first, owned_put d r others)
  ]

  pub grouped-IsGrouping :
      (rs : List R) (d : Dict Text (List R)) → IsGrouping d → IsGrouping (grouped key rs d)
  unfolding grouped IsGrouping
  grouped-IsGrouping [] d h = h
  grouped-IsGrouping (r ∷ rs) d (h, g) =
      grouped-IsGrouping rs _ (Distinct-put d (key r) _ h, owned_put d r g)

  group_none : (rs : List R) (k : Text) → is_in k (map key rs) ≡ false → group k rs ≡ []
  unfolding group filter
  group_none [] k absent = refl
  group_none (r ∷ rs) k absent = ground (arith, absent, group_none rs k)

  pub All-group : (P : R → Type 0) (rs : List R) (k : Text) → All P rs → All P (group k rs)
  unfolding group filter
  All-group P [] k h = tt
  All-group P (r ∷ rs) k (first, others) =
      if-split (All P) (key r =? k) _ _ (λ _. (first, All-group P rs k others))
        (λ _. All-group P rs k others)

  -- What holds of the group that a dictionary has for a symbol holds of the symbol's records.
  pub All-grouped :
      (P : R → Type 0) (rs : List R) (k : Text)
      → ((g : List R) → get (grouped key rs []) k ≡ some g → All P g)
      → All P (group k rs)
  All-grouped P rs k h = elim (Bool-cases (is_in k (map key rs))) [
    | inl present ↦ h (group k rs) (rw (get-grouped_start rs k, present) refl)
    | inr absent ↦ rw (group_none rs k absent) tt
  ]

  pub has-grouped : (rs : List R) (k : Text) → has (grouped key rs []) k ≡ is_in k (map key rs)
  unfolding has
  has-grouped rs k = ground (arith, get-grouped_start rs k)
