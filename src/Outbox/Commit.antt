-- ===== src/Outbox/Commit.antt =====
-- What `_commit_delivery` returns, and what is in the database then.
use apanel.Base.{
  nat_equality, bool_equality, pair_equality, option_equality, beq_refl, text_equality, ℕ, zero,
  suc, ◌≡◌, refl, sym, ap, ◌∙◌, ◌⊎◌, inl, inr, true, false, not, false≢true, Option, none, some,
  List, [], ◌∷◌, arith, get_or_else, if-split, Ensures, Result, err, ok,
}
use apanel.Base.Integers.{ℤ, pos, negsuc}
use apanel.Outbox.Records.{
  DeliveryStatus, pending, sent, failed, ErrorCode, http, feishu, feishu_error, provider_error,
  invalid_content, Delivery, Commit, committed, raised_applied, raised_rolled_back, Recovery,
  unreadable, locked, Surroundings, OutboxError, persistence_failed,
}
use apanel.Outbox.Delivery.{
  commit_recovery_attempts, same_delivery_status, same_int, same_code, is_terminal, is_committed,
  same_claim, write, after_commit, is_winner, recover_commit, commit_delivery,
}

same_delivery_status_refl : (s : DeliveryStatus) → same_delivery_status s s ≡ true
unfolding same_delivery_status
same_delivery_status_refl pending = refl
same_delivery_status_refl sent = refl
same_delivery_status_refl failed = refl

same_int_refl : (a : ℤ) → same_int a a ≡ true
unfolding same_int
same_int_refl (pos a) = ground arith
same_int_refl (negsuc a) = ground arith

same_code_refl : (c : Option ErrorCode) → same_code c c ≡ true
unfolding same_code
same_code_refl none = refl
same_code_refl (some (http a)) = same_int_refl a
same_code_refl (some (feishu a)) = same_int_refl a
same_code_refl (some feishu_error) = refl
same_code_refl (some provider_error) = refl
same_code_refl (some invalid_content) = refl

module _ {M : Type 0} where
  same_claim_refl : (a : Delivery M) → same_claim a a ≡ true
  unfolding same_claim
  same_claim_refl a =
      rw (same_delivery_status_refl a.status, same_code_refl a.error_code, beq_refl a.next_retry_at)
        (ground arith)

  -- What is returned is what is stored.
  abbrev pub Agrees : Result OutboxError (Delivery M) × Delivery M → Type 0
  Agrees p = Ensures (λ r. p.1 ≡ r) p.0

  recover_commit-Agrees :
      (n : ℕ) (rounds : List (Recovery M)) (baseline o stored : Delivery M)
      → Agrees (recover_commit n rounds baseline o stored)
  unfolding recover_commit
  recover_commit-Agrees zero rounds baseline o stored = tt
  recover_commit-Agrees (suc n) [] baseline o stored = tt
  recover_commit-Agrees (suc n) (unreadable ∷ rounds) baseline o stored =
      recover_commit-Agrees n rounds baseline o stored
  recover_commit-Agrees (suc n) (locked other matched c ∷ rounds) baseline o stored =
      let persisted = get_or_else other stored in
      if-split Agrees (is_winner baseline persisted) _ _ (λ _. refl)
        λ _.
          if-split Agrees (not matched) _ _
            (λ _. recover_commit-Agrees n rounds baseline o persisted)
            λ _.
              if-split Agrees (is_committed c) _ _ (λ _. refl)
                λ _.
                  recover_commit-Agrees n rounds baseline o
                    (after_commit c persisted (write o persisted))

  -- Whatever the commits did, and whoever else wrote the row: the row that `_commit_delivery` returns
  -- is the row in the database.
  pub commit_delivery-Agrees :
      (w : Surroundings M) (baseline o : Delivery M) → Agrees (commit_delivery w baseline o)
  unfolding commit_delivery
  commit_delivery-Agrees w baseline o =
      if-split Agrees (is_committed w.commit) _ _ (λ _. refl)
        λ _.
          recover_commit-Agrees commit_recovery_attempts w.recoveries baseline o
            (after_commit w.commit baseline o)

  -- Nobody else writes the row while a commit is being recovered.
  abbrev pub IsUndisturbed : List (Recovery M) → Type 0
  IsUndisturbed [] = Unit
  IsUndisturbed (unreadable ∷ rounds) = IsUndisturbed rounds
  IsUndisturbed (locked other _ _ ∷ rounds) = (other ≡ none) × IsUndisturbed rounds

  -- An outcome that tells itself apart from the row that was locked.
  abbrev pub IsNews : Delivery M → Delivery M → Type 0
  IsNews baseline o =
      (is_terminal o.status ≡ true)
      × (same_claim o baseline ≡ false)
      × (o.created_at ≡ baseline.created_at)

  abbrev pub IsEither : Delivery M → Delivery M → Delivery M → Type 0
  IsEither a b x = (x ≡ a) ⊎ (x ≡ b)

  -- The outcome is saved, or the caller is told that it may not be.
  abbrev pub IsSaved :
      Delivery M → Delivery M → Result OutboxError (Delivery M) × Delivery M → Type 0
  IsSaved baseline o p =
      ((p.0 ≡ ok o) × (p.1 ≡ o)) ⊎ ((p.0 ≡ err persistence_failed) × IsEither baseline o p.1)

  after_commit-cases :
      (c : Commit) (before o : Delivery M)
      → (after_commit c before o ≡ before) ⊎ (after_commit c before o ≡ o)
  after_commit-cases committed before o = inr refl
  after_commit-cases raised_applied before o = inr refl
  after_commit-cases raised_rolled_back before o = inl refl

  loser : (baseline : Delivery M) → is_winner baseline baseline ≡ false
  loser baseline = rw (same_claim_refl baseline) (ground arith)

  not_lost :
      (baseline o x : Delivery M) → IsEither baseline o x → is_winner baseline x ≡ true → x ≡ o
  not_lost baseline o x (inr e) w = e
  not_lost baseline o x (inl e) w =
      absurd (false≢true (sym (loser baseline) ∙ sym (ap (is_winner baseline) e) ∙ w))

  written : (baseline o x : Delivery M) → IsNews baseline o → IsEither baseline o x → write o x ≡ o
  unfolding write
  written baseline o x (_, _, made) (inl e) =
      let at : x.created_at ≡ o.created_at = ap (λ (d : Delivery M). d.created_at) e ∙ sym made in
      ap (λ t. record o { created_at = t }) at
  written baseline o x news (inr e) =
      ap (λ (d : Delivery M). record o { created_at = d.created_at }) e

  recover_commit-IsSaved :
      (n : ℕ) (rounds : List (Recovery M)) (baseline o stored : Delivery M)
      → IsUndisturbed rounds
      → IsNews baseline o
      → (stored ≡ baseline) ⊎ (stored ≡ o)
      → IsSaved baseline o (recover_commit n rounds baseline o stored)
  unfolding recover_commit write
  recover_commit-IsSaved zero rounds baseline o stored u news h = inr (refl, h)
  recover_commit-IsSaved (suc n) [] baseline o stored u news h = inr (refl, h)
  recover_commit-IsSaved (suc n) (unreadable ∷ rounds) baseline o stored u news h =
      recover_commit-IsSaved n rounds baseline o stored u news h
  recover_commit-IsSaved (suc n) (locked other matched c ∷ rounds) baseline o stored (alone, u) news
        h =
      let x = get_or_else other stored in
      let either : IsEither baseline o x = rw alone h in
      let same = written baseline o x news either in
      if-split (IsSaved baseline o) (is_winner baseline x) _ _
        (λ won. let e = not_lost baseline o x either won in inl (ap ok e, e))
        λ _.
          if-split (IsSaved baseline o) (not matched) _ _
            (λ _. recover_commit-IsSaved n rounds baseline o x u news either)
            λ _.
              if-split (IsSaved baseline o) (is_committed c) _ _ (λ _. inl (ap ok same, same))
                λ _.
                  recover_commit-IsSaved n rounds baseline o (after_commit c x (write o x)) u news
                    (elim (after_commit-cases c x (write o x)) [
                      | inl e ↦ rw e either
                      | inr e ↦ inr (e ∙ same)
                    ])

  pub commit_delivery-IsSaved :
      (w : Surroundings M) (baseline o : Delivery M)
      → IsUndisturbed w.recoveries
      → IsNews baseline o
      → IsSaved baseline o (commit_delivery w baseline o)
  unfolding commit_delivery
  commit_delivery-IsSaved w baseline o u news =
      if-split (IsSaved baseline o) (is_committed w.commit) _ _ (λ _. inl (refl, refl))
        λ _.
          recover_commit-IsSaved commit_recovery_attempts w.recoveries baseline o
            (after_commit w.commit baseline o) u news (after_commit-cases w.commit baseline o)
