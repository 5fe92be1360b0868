-- ===== src/Sync/Atomic.antt =====
-- Proofs on `SecuritySyncService.sync`: what it reports.
use mathlib.Core.List.{append_assoc, append-nil}
use mathlib.Core.Path.{subst}
use apanel.Base.{
  beq, nat_equality, bool_equality, pair_equality, option_equality, beq_refl, beq_sym, Text,
  text_equality, ◌≡◌, refl, sym, ap, ◌∙◌, ◌⊎◌, inl, inr, Bool, true, false, Option, none, some,
  List, [], ◌∷◌, ◌++◌, map, arith, Bool-cases, All, Ensures, Ensures-ok, Ensures-map, Result, err,
  ok,
}
use apanel.Base.Texts.{text}
use apanel.Base.Slices.{any-append, is_in, unique}
use apanel.Sync.Failures.{
  sync_error, persistence_error, failed_item, Raised, SyncError, SyncSummary,
}
use apanel.Sync.Securities.{
  check_records, security_failure, stored_item, after_reconcile, after_check, after_symbols,
  sync_securities, SecuritySyncService,
}

unique-snoc :
    (ts : List Text) (t : Text)
    → unique ts ≡ true
    → is_in ⦃e = text_equality⦄ t ts ≡ false
    → unique (ts ++ t ∷ []) ≡ true
unfolding unique
unique-snoc [] t h absent = refl
unique-snoc (u ∷ ts) t h absent = ground (
  arith,
  h,
  absent,
  unique-snoc ts t,
  any-append (λ y. beq ⦃e = text_equality⦄ y u) ts (t ∷ []),
  beq_sym ⦃e = text_equality⦄ t u,
)

map-snoc :
    {A B : Type 0} (f : A → B) (xs : List A) (x : A) → map f (xs ++ x ∷ []) ≡ map f xs ++ f x ∷ []
map-snoc f [] x = refl
map-snoc f (y ∷ xs) x = ap (λ r. f y ∷ r) (map-snoc f xs x)

unique-middle :
    (ts : List Text) (t : Text) (us : List Text)
    → unique (ts ++ t ∷ us) ≡ true
    → is_in ⦃e = text_equality⦄ t ts ≡ false
unfolding unique
unique-middle [] t us h = refl
unique-middle (u ∷ ts) t us h = ground (
  arith,
  h,
  unique-middle ts t us,
  any-append (λ y. beq ⦃e = text_equality⦄ y u) ts (t ∷ us),
  beq_refl t,
  beq_sym ⦃e = text_equality⦄ t u,
)

check_records-unique :
    {S : Type 0} (symbol_of : S → Text) (raws : List (Option S)) (records : List S)
    → unique (map symbol_of records) ≡ true
    → Ensures (λ rs. unique (map symbol_of rs) ≡ true) (check_records symbol_of raws records)
unfolding check_records
check_records-unique symbol_of [] records h = h
check_records-unique symbol_of (none ∷ raws) records h = tt
check_records-unique symbol_of (some s ∷ raws) records h =
    elim (Bool-cases (is_in ⦃e = text_equality⦄ (symbol_of s) (map symbol_of records))) [
      | inl seen ↦ rw seen tt
      | inr fresh ↦ rw fresh (
          check_records-unique symbol_of raws (records ++ s ∷ []) (
            rw (map-snoc symbol_of records s)
              (unique-snoc (map symbol_of records) (symbol_of s) h fresh)))
    ]

module _ {S : Type 0} (symbol_of : S → Text) where
  -- Securities only, and no symbol twice
  abbrev pub IsBatch : List (Option S) → List S → Type 0
  IsBatch raws rs = (raws ≡ map some rs) × (unique (map symbol_of rs) ≡ true)

  -- What the loop returns are the records before, and each record of the reply.
  check_records-all :
      (raws : List (Option S)) (records : List S)
      → Ensures
          (λ out. (rs : List S) × (raws ≡ map some rs) × (out ≡ records ++ rs))
          (check_records symbol_of raws records)
  unfolding check_records
  check_records-all [] records = ([], refl, sym (append-nil records))
  check_records-all (none ∷ raws) records = tt
  check_records-all (some s ∷ raws) records =
      elim (Bool-cases (is_in ⦃e = text_equality⦄ (symbol_of s) (map symbol_of records))) [
        | inl seen ↦ rw seen tt
        | inr fresh ↦ rw fresh (
            Ensures-map
              (λ out. (rs : List S) × (raws ≡ map some rs) × (out ≡ (records ++ s ∷ []) ++ rs))
              (λ out. (rs : List S) × (some s ∷ raws ≡ map some rs) × (out ≡ records ++ rs))
              (check_records symbol_of raws (records ++ s ∷ []))
              (check_records-all raws (records ++ s ∷ []))
              (λ out (rs, whole, e).
                (s ∷ rs, ap (λ l. some s ∷ l) whole, e ∙ append_assoc records (s ∷ []) rs)))
      ]

  -- A batch goes through.
  check_records-batch :
      (rs records : List S)
      → unique (map symbol_of records ++ map symbol_of rs) ≡ true
      → check_records symbol_of (map some rs) records ≡ ok (records ++ rs)
  unfolding check_records
  check_records-batch [] records h = ap ok (sym (append-nil records))
  check_records-batch (s ∷ rs) records h =
      rw
        (
          unique-middle (map symbol_of records) (symbol_of s) (map symbol_of rs) h,
          check_records-batch rs (records ++ s ∷ []) (
              rw
                (
                  map-snoc symbol_of records s,
                  append_assoc (map symbol_of records) (symbol_of s ∷ []) (map symbol_of rs),
                )
                h),
          append_assoc records (s ∷ []) rs,
        )
        refl

  -- The loop returns exactly a batch, the whole of it.
  check_records-IsBatch :
      (raws : List (Option S)) (rs : List S)
      → check_records symbol_of raws [] ≡ ok rs
      → IsBatch raws rs
  check_records-IsBatch raws rs done =
      let (qs, whole, e) =
        Ensures-ok (λ out. (qs : List S) × (raws ≡ map some qs) × (out ≡ qs))
          (check_records symbol_of raws []) (check_records-all raws []) done in
      (
        rw e whole,
        Ensures-ok (λ out. unique (map symbol_of out) ≡ true) (check_records symbol_of raws [])
            (check_records-unique symbol_of raws [] (unfold unique in refl)) done,
      )

  check_records-refused :
      (raws : List (Option S)) (x : Raised)
      → check_records symbol_of raws [] ≡ err x
      → ¬ ((rs : List S) × IsBatch raws rs)
  check_records-refused raws x raised (rs, (whole, once)) =
      let through : check_records symbol_of raws [] ≡ ok rs =
        rw whole (check_records-batch rs [] once) in
      cc (raised, through)

module _ {W S : Type 0} (service : SecuritySyncService W S) (stored : W → S → Type 0) where
  -- Why the synchronization fails, on the provider's reply and the world after it: the provider raised,
  -- or its reply is no batch, and then the world is left as it is; or the repository raised on the batch.
  abbrev pub IsReason : Result Raised (List (Option S)) × W → W → Type 0
  IsReason (reply, v) after =
      ((x : Raised) × (reply ≡ err x) × (after ≡ v))
      ⊎ ((raws : List (Option S)) × (reply ≡ ok raws)
          × (¬ ((rs : List S) × IsBatch service.symbol_of raws rs))
          × (after ≡ v))
      ⊎ ((rs : List S) × (reply ≡ ok (map some rs))
          × (x : Raised) × (service.reconcile_snapshot rs service.authoritative_universe v
              ≡ (err x, after)))

  -- One failure for the whole universe, for a reason, or every record of the provider's reply is a
  -- security that is stored and reported, none of them twice.
  unfoldable pub IsAtomic : Result Raised (List (Option S)) × W → SyncSummary × W → Type 0
  unfolding unique
  IsAtomic reply (summary, after) =
      ((e : SyncError) × (summary.items ≡ failed_item (text "*") e ∷ []) × IsReason reply after)
      ⊎ ((rs : List S) × (reply.0 ≡ ok (map some rs))
          × (summary.items ≡ map (stored_item service) rs)
          × All (stored after) rs
          × (unique (map service.symbol_of rs) ≡ true))

module _ {W S : Type 0} (service : SecuritySyncService W S) (stored : W → S → Type 0)
    (commits : (rs : List S) (authoritative : Bool) (w : W)
      → (service.reconcile_snapshot rs authoritative w).0 ≡ ok tt
      → All (stored (service.reconcile_snapshot rs authoritative w).1) rs) where
  after_reconcile-IsAtomic :
      (raws : List (Option S)) (rs : List S) (v : W) (done : Result Raised (Unit {0}) × W)
      → service.reconcile_snapshot rs service.authoritative_universe v ≡ done
      → IsBatch service.symbol_of raws rs
      → IsAtomic service stored (ok raws, v) (after_reconcile service rs done.0, done.1)
  unfolding IsAtomic after_reconcile security_failure
  after_reconcile-IsAtomic raws rs v (err x, w) e (whole, once) =
      inl (persistence_error x, refl, inr (inr (rs, ap ok whole, x, e)))
  after_reconcile-IsAtomic raws rs v (ok x, w) e (whole, once) = inr (
    rs,
    ap ok whole,
    refl,
    subst (λ p. All (stored p.1) rs) e
        (commits rs service.authoritative_universe v (ap (λ p. p.0) e)),
    once,
  )

  after_check-IsAtomic :
      (raws : List (Option S)) (v : W) (r : Result Raised (List S))
      → check_records service.symbol_of raws [] ≡ r
      → IsAtomic service stored (ok raws, v) (after_check service r v)
  unfolding IsAtomic after_check security_failure
  after_check-IsAtomic raws v (err x) e = inl (
    sync_error x,
    refl,
    inr (inl (raws, refl, check_records-refused service.symbol_of raws x e, refl)),
  )
  after_check-IsAtomic raws v (ok rs) e =
      after_reconcile-IsAtomic raws rs v
        (service.reconcile_snapshot rs service.authoritative_universe v) refl
        (check_records-IsBatch service.symbol_of raws rs e)

  after_symbols-IsAtomic :
      (reply : Result Raised (List (Option S)) × W)
      → IsAtomic service stored reply (after_symbols service reply)
  unfolding IsAtomic after_symbols security_failure unique
  after_symbols-IsAtomic (err x, w) = inl (sync_error x, refl, inl (x, refl, refl))
  after_symbols-IsAtomic (ok [], w) = inr ([], refl, refl, tt, refl)
  after_symbols-IsAtomic (ok (raw ∷ raws), w) =
      after_check-IsAtomic (raw ∷ raws) w (check_records service.symbol_of (raw ∷ raws) []) refl

  -- If the repository stores what it returns on, the synchronization reports either every record of
  -- the provider's reply, in its order, each a security that is stored and none twice; or one failure
  -- for the whole universe: because the provider raised or its reply has a record that is no security
  -- or a symbol twice, where the repository is left as it was, or because the repository raised.
  pub sync_securities-IsAtomic :
      (w : W) → IsAtomic service stored (service.get_symbols w) (sync_securities service w)
  unfolding sync_securities
  sync_securities-IsAtomic w = after_symbols-IsAtomic (service.get_symbols w)
