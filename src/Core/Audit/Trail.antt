-- ===== src/Core/Audit/Trail.antt =====
-- What an audit must have seen, and seen again, before it desyncs a book.
use market_aggregator.Common.{
  ℕ, zero, suc, ◌+◌, ◌%◌, ◌^◌, ◌≤◌, true, false, Option, none, some, List, [], ◌∷◌, ◌≡◌, ◌⊎◌, refl,
  arith, inl, inr, keep_if, All, ltb, ◌==◌, Bool-cases,
}
use market_aggregator.Core.Decimal.{Decimal, price_eqb}
use market_aggregator.Core.Book.{DesyncReason}
use market_aggregator.Core.Audit.{
  AuditPolicy, AuditFinding, AuditOutcome, AuditTrail, empty_trail, persist, counted, observe,
  set_insert, set_contains, price_set_onto, outcome_prices,
}

module _ {D : Type 0} ⦃dec : Decimal D⦄ where
  -- Some finding is at the price `p`.
  abbrev pub FoundAt : D → List (AuditFinding D) → Type 0
  FoundAt p [] = ⊥
  FoundAt p (f ∷ fs) = (dec.rank p ≡ dec.rank f.price) ⊎ FoundAt p fs

  -- The latest `k` mismatches of a history, newest first, all name the price `p`, and no match
  -- stands between them; audits that could not tell are passed over.
  abbrev pub Persistent : D → ℕ → List (AuditOutcome D) → Type 0
  Persistent p zero h = Unit
  Persistent p (suc k) [] = ⊥
  Persistent p (suc k) (AuditOutcome.inconclusive ∷ h) = Persistent p (suc k) h
  Persistent p (suc k) (AuditOutcome.matched n ∷ h) = ⊥
  Persistent p (suc k) (AuditOutcome.mismatch fs n ∷ h) = FoundAt p fs × Persistent p k h

  -- The trail after a history, newest first.
  unfoldable pub watch : AuditPolicy → List (AuditOutcome D) → AuditTrail D
  watch policy [] = empty_trail
  watch policy (o ∷ h) = (observe (watch policy h) o policy).0

  contains-set_insert :
      (m : List D) (q p : D)
      → set_contains (set_insert q m) p ≡ true
      → (dec.rank p ≡ dec.rank q) ⊎ (set_contains m p ≡ true)
  unfolding set_insert set_contains
  contains-set_insert [] q p h = ground arith
  contains-set_insert (x ∷ xs) q p h = ground (arith, contains-set_insert xs q p)

  contains-price_set_onto :
      (m : List D) (fs : List (AuditFinding D)) (p : D)
      → set_contains (price_set_onto m fs) p ≡ true
      → (set_contains m p ≡ true) ⊎ FoundAt p fs
  unfolding price_set_onto
  contains-price_set_onto m [] p h = inl h
  contains-price_set_onto m (f ∷ fs) p h =
      elim (contains-price_set_onto (set_insert f.price m) fs p h) [
        | inr found ↦ inr (inr found)
        | inl c ↦ elim (contains-set_insert m f.price p c) [ inl e ↦ inr (inl e) | inr c' ↦ inl c' ]
      ]

  contains-found :
      (fs : List (AuditFinding D)) (n : ℕ) (p : D)
      → set_contains (outcome_prices (AuditOutcome.mismatch fs n)) p ≡ true
      → FoundAt p fs
  unfolding outcome_prices set_contains
  contains-found fs n p h = elim (contains-price_set_onto [] fs p h) [
    | inl no_entry ↦ cc
    | inr found ↦ found
  ]

  pub set_insert-contains :
      (xs : List D) (q p : D)
      → (set_contains xs p ≡ true) ⊎ (dec.rank p ≡ dec.rank q)
      → set_contains (set_insert q xs) p ≡ true
  unfolding set_insert set_contains
  set_insert-contains [] q p h = ground arith
  set_insert-contains (x ∷ xs) q p h = ground (arith, set_insert-contains xs q p)

  pub same_price :
      (now : List D) (p x : D)
      → set_contains now p ≡ true
      → set_contains now x ≡ false
      → price_eqb p x ≡ true
      → ⊥
  unfolding set_contains
  same_price [] p x h k e = cc
  same_price (y ∷ ys) p x h k e = ground (arith, same_price ys p x)

  -- Every member of a set is contained in it.
  members :
      (m rest : List D)
      → ((p : D) → set_contains rest p ≡ true → set_contains m p ≡ true)
      → All (λ p. set_contains m p ≡ true) rest
  unfolding set_contains
  members m [] sub = tt
  members m (x ∷ xs) sub = (sub x (ground arith), members m xs (λ p h. sub p (ground arith)))

  All-map {κ} : {P Q : D → Type κ} (xs : List D) → ((p : D) → P p → Q p) → All P xs → All Q xs
  All-map [] f a = tt
  All-map (x ∷ xs) f a = (f x a.0, All-map xs f a.1)

  outcome_prices-found :
      (fs : List (AuditFinding D)) (n : ℕ)
      → All (λ p. FoundAt p fs) (outcome_prices (AuditOutcome.mismatch fs n))
  outcome_prices-found fs n =
      All-map (outcome_prices (AuditOutcome.mismatch fs n)) (contains-found fs n)
        (members _ (outcome_prices (AuditOutcome.mismatch fs n)) (λ p h. h))

  -- The suspects that the new findings repeat have one mismatch more behind them.
  kept-Persistent :
      (xs : List D) (fs : List (AuditFinding D)) (n k : ℕ) (h : List (AuditOutcome D))
      → All (λ p. Persistent p k h) xs
      → All
          (λ p. FoundAt p fs × Persistent p k h)
          (keep_if (set_contains (outcome_prices (AuditOutcome.mismatch fs n))) xs)
  kept-Persistent [] fs n k h a = tt
  kept-Persistent (x ∷ xs) fs n k h a =
      elim (Bool-cases (set_contains (outcome_prices (AuditOutcome.mismatch fs n)) x)) [
        | inl here ↦ rw here ((contains-found fs n x here, a.0), kept-Persistent xs fs n k h a.1)
        | inr gone ↦ rw gone (kept-Persistent xs fs n k h a.1)
      ]

  single-Persistent :
      (fs : List (AuditFinding D)) (n : ℕ) (h : List (AuditOutcome D))
      → All
          (λ p. Persistent p 1 (AuditOutcome.mismatch fs n ∷ h))
          (outcome_prices (AuditOutcome.mismatch fs n))
  single-Persistent fs n h =
      All-map (outcome_prices (AuditOutcome.mismatch fs n)) (λ p f. (f, tt))
        (outcome_prices-found fs n)

  Persistent-le :
      (p : D) (c k : ℕ) (h : List (AuditOutcome D)) → c ≤ k → Persistent p k h → Persistent p c h
  Persistent-le p zero k h l a = tt
  Persistent-le p (suc c) zero h l a = absurd (omega arith)
  Persistent-le p (suc c) (suc k) [] l a = a
  Persistent-le p (suc c) (suc k) (AuditOutcome.inconclusive ∷ h) l a =
      Persistent-le p (suc c) (suc k) h l a
  Persistent-le p (suc c) (suc k) (AuditOutcome.matched n ∷ h) l a = a
  Persistent-le p (suc c) (suc k) (AuditOutcome.mismatch fs n ∷ h) l a =
      (a.0, Persistent-le p c k h (omega arith) a.1)

  -- One more mismatch at `p`; the counter is a `u32` and may come round to 0.
  next-Persistent :
      (p : D) (k c : ℕ) (fs : List (AuditFinding D)) (n : ℕ) (h : List (AuditOutcome D))
      → c ≡ (k + 1) % 2 ^ 32
      → FoundAt p fs × Persistent p k h
      → Persistent p c (AuditOutcome.mismatch fs n ∷ h)
  next-Persistent p k zero fs n h e a = tt
  next-Persistent p k (suc c) fs n h e a = (a.0, Persistent-le p c k h (omega arith) a.1)

  -- Every suspect of a trail is named by as many mismatches in a row as the trail counts.
  abbrev Explained : AuditTrail D → List (AuditOutcome D) → Type 0
  Explained t h = All (λ p. Persistent p t.consecutive h) t.suspect

  -- What the answer of `observe` rests on.
  abbrev Answered :
      AuditPolicy → List (AuditOutcome D) → AuditTrail D × Option (DesyncReason D) → Type 0
  Answered policy h (t, none) = Explained t h
  Answered policy h (t, some r) =
      Explained t h
      × ((p : D) × (k : ℕ) × (r ≡ DesyncReason.audit_mismatch p k)
          × (policy.consecutive_before_desync ≤ k)
          × Persistent p k h)

  Answered-Explained :
      (policy : AuditPolicy) (h : List (AuditOutcome D))
      (out : AuditTrail D × Option (DesyncReason D))
      → Answered policy h out
      → Explained out.0 h
  Answered-Explained policy h (t, none) a = a
  Answered-Explained policy h (t, some r) a = a.0

  persist-Answered :
      (t : AuditTrail D) (fs : List (AuditFinding D)) (n : ℕ) (kept : List D) (policy : AuditPolicy)
      (h : List (AuditOutcome D))
      → All (λ p. FoundAt p fs × Persistent p t.consecutive h) kept
      → Answered policy
          (AuditOutcome.mismatch fs n ∷ h)
          (persist t (outcome_prices (AuditOutcome.mismatch fs n)) kept policy)
  persist-Answered t fs n [] policy h a = single-Persistent fs n h
  persist-Answered t fs n (p ∷ ps) policy h a =
      elim (Bool-cases (ltb ((t.consecutive + 1) % 2 ^ 32) policy.consecutive_before_desync)) [
        | inl early ↦ rw early explained
        | inr due ↦
            rw due (explained, (p, (t.consecutive + 1) % 2 ^ 32, refl, ground arith, explained.0))
      ]
    where
      explained :
          All
            (λ q. Persistent q ((t.consecutive + 1) % 2 ^ 32) (AuditOutcome.mismatch fs n ∷ h))
            (p ∷ ps)
      explained = All-map (p ∷ ps) (λ q. next-Persistent q t.consecutive _ fs n h refl) a

  Persistent-skip :
      (p : D) (k : ℕ) (h : List (AuditOutcome D))
      → Persistent p k h
      → Persistent p k (AuditOutcome.inconclusive ∷ h)
  Persistent-skip p zero h a = tt
  Persistent-skip p (suc k) h a = a

  observe-Answered :
      (t : AuditTrail D) (o : AuditOutcome D) (policy : AuditPolicy) (h : List (AuditOutcome D))
      → Explained t h
      → Answered policy (o ∷ h) (observe t o policy)
  unfolding observe
  observe-Answered t AuditOutcome.inconclusive policy h a =
      All-map t.suspect (λ p. Persistent-skip p t.consecutive h) a
  observe-Answered t (AuditOutcome.matched n) policy h a = tt
  observe-Answered t (AuditOutcome.mismatch fs n) policy h a =
      elim (Bool-cases (t.consecutive == 0)) [
        | inl first ↦ rw first (single-Persistent fs n h)
        | inr again ↦ rw again (
            persist-Answered (counted t 1) fs n
              (keep_if (set_contains (outcome_prices (AuditOutcome.mismatch fs n))) t.suspect)
              policy h (kept-Persistent t.suspect fs n t.consecutive h a))
      ]

  watch-Explained :
      (policy : AuditPolicy) (h : List (AuditOutcome D)) → Explained (watch policy h) h
  unfolding watch
  watch-Explained policy [] = tt
  watch-Explained policy (o ∷ h) =
      Answered-Explained policy (o ∷ h) (observe (watch policy h) o policy)
        (observe-Answered (watch policy h) o policy h (watch-Explained policy h))

  Answered-reason :
      (policy : AuditPolicy) (h : List (AuditOutcome D))
      (out : AuditTrail D × Option (DesyncReason D)) (r : DesyncReason D)
      → Answered policy h out
      → out.1 ≡ some r
      → (p : D) × (k : ℕ) × (r ≡ DesyncReason.audit_mismatch p k)
        × (policy.consecutive_before_desync ≤ k)
        × Persistent p k h
  Answered-reason policy h (t, none) r a e = cc
  Answered-reason policy h (t, some q) r a e = let (p, k, eq, le, per) = a.1 in (p, k, cc, le, per)

  -- If the audit desyncs a book after any history of audits, the reason names a price and a count
  -- not below the policy's, and that price was a finding of each of the latest so many
  -- mismatches, with no matching audit among them.
  pub observe-Persistent :
      (policy : AuditPolicy) (h : List (AuditOutcome D)) (o : AuditOutcome D) (r : DesyncReason D)
      → (observe (watch policy h) o policy).1 ≡ some r
      → (p : D) × (k : ℕ) × (r ≡ DesyncReason.audit_mismatch p k)
        × (policy.consecutive_before_desync ≤ k)
        × Persistent p k (o ∷ h)
  observe-Persistent policy h o r e =
      Answered-reason policy (o ∷ h) (observe (watch policy h) o policy) r
        (observe-Answered (watch policy h) o policy h (watch-Explained policy h)) e
