-- ===== src/Core/Audit/Repeat.antt =====
-- A price found twice in a row desyncs the book.
use market_aggregator.Common.{
  ℕ, ◌+◌, ◌%◌, ◌^◌, ◌≤◌, ◌<◌, true, false, some, List, [], ◌∷◌, ◌≡◌, ◌⊎◌, refl, arith, inl, inr,
  keep_if, ◌==◌, Bool-cases,
}
use market_aggregator.Core.Decimal.{Decimal, price_eqb}
use market_aggregator.Core.Book.{DesyncReason}
use market_aggregator.Core.Audit.{
  AuditPolicy, AuditFinding, AuditOutcome, AuditTrail, persist, counted, observe, set_insert,
  set_contains, price_set_onto, outcome_prices,
}
use market_aggregator.Core.Audit.Trail.{FoundAt, same_price, set_insert-contains}

module _ {D : Type 0} ⦃dec : Decimal D⦄ where
  contains_price_set_onto :
      (m : List D) (fs : List (AuditFinding D)) (p : D)
      → (set_contains m p ≡ true) ⊎ FoundAt p fs
      → set_contains (price_set_onto m fs) p ≡ true
  unfolding price_set_onto
  contains_price_set_onto m [] p (inl h) = h
  contains_price_set_onto m [] p (inr h) = absurd h
  contains_price_set_onto m (f ∷ fs) p h =
      contains_price_set_onto (set_insert f.price m) fs p (shift h)
    where
      kept :
          (xs : List D)
          → (set_contains xs p ≡ true) ⊎ (dec.rank p ≡ dec.rank f.price)
          → set_contains (set_insert f.price xs) p ≡ true
      kept xs h = set_insert-contains xs f.price p h

      shift :
          (set_contains m p ≡ true) ⊎ FoundAt p (f ∷ fs)
          → (set_contains (set_insert f.price m) p ≡ true) ⊎ FoundAt p fs
      shift (inl c) = inl (kept m (inl c))
      shift (inr (inl e)) = inl (kept m (inr e))
      shift (inr (inr c)) = inr c

  keep_if-ne-nil :
      (now xs : List D) (p : D)
      → set_contains xs p ≡ true
      → set_contains now p ≡ true
      → (q : D) × (rest : List D) × (keep_if (set_contains now) xs ≡ q ∷ rest)
  unfolding set_contains
  keep_if-ne-nil now [] p h k = cc
  keep_if-ne-nil now (x ∷ xs) p h k = elim (Bool-cases (set_contains now x)) [
    | inl here ↦ (x, keep_if (set_contains now) xs, rw here)
    | inr gone ↦ elim (Bool-cases (price_eqb p x)) [
      | inl e ↦ absurd (same_price now p x k gone e)
      | inr e ↦
          let (q, rest, eq) = keep_if-ne-nil now xs p (ground arith) k in (q, rest, rw gone eq)
    ]
  ]

  persist_answers :
      (t : AuditTrail D) (now kept : List D) (policy : AuditPolicy) (q : D) (rest : List D)
      → kept ≡ q ∷ rest
      → policy.consecutive_before_desync ≤ (t.consecutive + 1) % 2 ^ 32
      → (persist t now kept policy).1
        ≡ some (DesyncReason.audit_mismatch q ((t.consecutive + 1) % 2 ^ 32))
  persist_answers t now kept policy q rest e h = rw e (ground arith)

  persist_first :
      (t : AuditTrail D) (now kept : List D) (policy : AuditPolicy)
      → policy.consecutive_before_desync ≡ 2
      → (t.consecutive ≡ 0 → ⊥)
      → t.consecutive + 1 < 2 ^ 32
      → ((r : DesyncReason D) × ((persist t now kept policy).1 ≡ some r))
        ⊎ (((persist t now kept policy).0.consecutive ≡ 1)
            × ((persist t now kept policy).0.suspect ≡ now))
  persist_first t now [] policy two some_before small = inr (refl, refl)
  persist_first t now (p ∷ ps) policy two some_before small = inl (
    DesyncReason.audit_mismatch p ((t.consecutive + 1) % 2 ^ 32),
    persist_answers t now (p ∷ ps) policy p ps refl
        (omega (arith, λ (e : t.consecutive ≡ 0). some_before e)),
  )

  observe_first :
      (policy : AuditPolicy) (t : AuditTrail D) (fs : List (AuditFinding D)) (n : ℕ)
      → policy.consecutive_before_desync ≡ 2
      → t.consecutive + 1 < 2 ^ 32
      → let (t', answer) = observe t (AuditOutcome.mismatch fs n) policy in
        ((r : DesyncReason D) × (answer ≡ some r))
        ⊎ ((t'.consecutive ≡ 1) × (t'.suspect ≡ outcome_prices (AuditOutcome.mismatch fs n)))
  unfolding observe
  observe_first policy t fs n two small = elim (Bool-cases (t.consecutive == 0)) [
    | inl first ↦ rw first (inr (refl, refl))
    | inr again ↦ rw again (
        persist_first (counted t 1) (outcome_prices (AuditOutcome.mismatch fs n))
          (keep_if (set_contains (outcome_prices (AuditOutcome.mismatch fs n))) t.suspect) policy
          two (ground arith) small)
  ]

  observe_second :
      (policy : AuditPolicy) (t : AuditTrail D) (gs : List (AuditFinding D)) (m : ℕ) (p : D)
      → policy.consecutive_before_desync ≡ 2
      → t.consecutive ≡ 1
      → set_contains t.suspect p ≡ true
      → FoundAt p gs
      → (r : DesyncReason D) × ((observe t (AuditOutcome.mismatch gs m) policy).1 ≡ some r)
  unfolding observe
  observe_second policy t gs m p two one h g =
      let now = outcome_prices (AuditOutcome.mismatch gs m) in
      let (q, rest, e) =
        keep_if-ne-nil now t.suspect p h
          (unfold outcome_prices in contains_price_set_onto [] gs p (inr g)) in
      let again : (t.consecutive == 0) ≡ false = ground arith in
      rw again (
        DesyncReason.audit_mismatch q ((t.consecutive + 1) % 2 ^ 32),
        persist_answers (counted t 1) now (keep_if (set_contains now) t.suspect) policy q rest e
            (omega arith),
      )

  -- With a policy that asks for two mismatches, a price found in two audits in a row desyncs the
  -- book at the first of them or at the second, whatever the audits before were, as long as the
  -- counter, a `u32`, has not come to its end.
  pub observe_repeat_desyncs :
      (policy : AuditPolicy) (t : AuditTrail D) (fs gs : List (AuditFinding D)) (n m : ℕ) (p : D)
      → policy.consecutive_before_desync ≡ 2
      → t.consecutive + 1 < 2 ^ 32
      → FoundAt p fs
      → FoundAt p gs
      → let (t', first) = observe t (AuditOutcome.mismatch fs n) policy in
        ((r : DesyncReason D) × (first ≡ some r))
        ⊎ ((r : DesyncReason D) × ((observe t' (AuditOutcome.mismatch gs m) policy).1 ≡ some r))
  observe_repeat_desyncs policy t fs gs n m p two small f g =
      elim (observe_first policy t fs n two small) [
        | inl answered ↦ inl answered
        | inr (one, e) ↦ inr (
            observe_second policy (observe t (AuditOutcome.mismatch fs n) policy).0 gs m p two one
              (rw e (unfold outcome_prices in contains_price_set_onto [] fs p (inr f))) g)
      ]
