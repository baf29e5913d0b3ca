-- ===== src/Core/Audit/Findings.antt =====
-- What the findings of an audit say.
use market_aggregator.Common.{
  ℕ, zero, suc, ◌+◌, ◌-◌, ◌≤◌, ◌<◌, false, Option, none, some, List, [], ◌∷◌, ◌++◌, ◌≡◌, ap, subst,
  arith, inl, inr, keep_if, All, All-append, length, length-append, length-take, take, not,
  Option_eqb, Bool-cases, if◌then◌else◌,
}
use market_aggregator.Core.Decimal.{Decimal, is_delete, price_eqb, price_ltb, price_leb}
use market_aggregator.Core.Event.{Side, bid, ask, Level}
use market_aggregator.Core.Book.{Book, best, top_levels}
use market_aggregator.Core.Audit.{
  AuditPolicy, AuditFinding, usize_max, guard_edge, audited, sort_levels, AuditOutcome, audit,
  audit_side, compare_maps, compare_prices, compare_sides, verdict, max_findings,
}

module _ {D : Type 0} ⦃dec : Decimal D⦄ where
  -- The finding is on the side `s`, and its two quantities differ: one is missing or they are not
  -- equal.
  abbrev pub Differs : Side → AuditFinding D → Type 0
  Differs s f = (f.side ≡ s) × (Option_eqb price_eqb f.ours f.theirs ≡ false)

  compare_prices-Differs :
      (s : Side) (ours theirs ps : List (Level D)) (room : ℕ)
      → All (Differs s) (compare_prices s ours theirs ps room)
        × (length (compare_prices s ours theirs ps room) ≤ room)
        × (length (compare_prices s ours theirs ps room) ≤ length ps)
  unfolding compare_prices
  compare_prices-Differs s ours theirs [] room = (tt, omega arith, omega arith)
  compare_prices-Differs s ours theirs (p ∷ ps) room = ground (
    arith,
    compare_prices-Differs s ours theirs ps room,
    compare_prices-Differs s ours theirs ps (room - 1),
  )

  -- At most as many findings as prices compared, at most 64, and each with two different readings.
  abbrev pub Sound : Side → List (AuditFinding D) × ℕ → Type 0
  Sound s (fs, n) = All (Differs s) fs × (length fs ≤ max_findings) × (length fs ≤ n)

  compare_maps-Sound :
      (s : Side) (ours theirs : List (Level D)) (a b c d : Option D)
      → Sound s (compare_maps s ours theirs a b c d)
  unfolding compare_maps
  compare_maps-Sound s ours theirs none b c d = (tt, omega arith, omega arith)
  compare_maps-Sound s ours theirs (some a) none c d = (tt, omega arith, omega arith)
  compare_maps-Sound s ours theirs (some a) (some b) none d = (tt, omega arith, omega arith)
  compare_maps-Sound s ours theirs (some a) (some b) (some c) none = (tt, omega arith, omega arith)
  compare_maps-Sound s ours theirs (some a) (some b) (some c) (some d) =
      elim (Bool-cases
        (price_ltb (if price_leb b d then b else d) (if price_leb a c then c else a))) [
          | inl apart ↦ rw apart (tt, omega arith, omega arith)
          | inr meet ↦ rw meet (compare_prices-Differs s ours theirs _ max_findings)
        ]

  audit_side-Sound :
      (b : Book D) (s : Side) (theirs : List (Level D)) (policy : AuditPolicy)
      → Sound s (audit_side b s theirs policy)
  unfolding audit_side
  audit_side-Sound b s theirs policy = side (best b s)
    where
      side :
          (o : Option (Level D))
          → Sound s (elim o [
            | none ↦ ([], 0)
            | some top ↦
                let edge = guard_edge top.price s policy.guard_bps in
                compare_sides s (audited s edge policy (top_levels b s usize_max)) (
                  audited s edge policy
                    (sort_levels s (keep_if (λ (l : Level D). not (is_delete l.qty)) theirs)))
          ])
      side none = (tt, omega arith, omega arith)
      side (some top) = compare_maps-Sound s _ _ _ _ _ _

  All-take {κ} :
      (P : AuditFinding D → Type κ) (n : ℕ) (xs : List (AuditFinding D))
      → All P xs
      → All P (take n xs)
  All-take P zero xs a = tt
  All-take P (suc n) [] a = tt
  All-take P (suc n) (x ∷ xs) a = (a.0, All-take P n xs a.1)

  All-imp {κ μ} :
      {P : AuditFinding D → Type κ} {Q : AuditFinding D → Type μ} (xs : List (AuditFinding D))
      → ((f : AuditFinding D) → P f → Q f)
      → All P xs
      → All Q xs
  All-imp [] g a = tt
  All-imp (x ∷ xs) g a = (g x a.0, All-imp xs g a.1)

  verdict-mismatch :
      (found fs : List (AuditFinding D)) (n k : ℕ)
      → verdict found k ≡ AuditOutcome.mismatch fs n
      → (found ≡ fs) × (k ≡ n) × (0 < length fs)
  verdict-mismatch [] fs n k e = ground arith
  verdict-mismatch (x ∷ xs) fs n k e = ground arith

  -- If an audit reports a mismatch, it has at least one finding and at most 64, never more than
  -- the prices that it compared, and in every finding the book and the snapshot hold different
  -- quantities at the price, or one of them holds no level there.
  pub audit_mismatch_sound :
      (b : Book D) (bids asks : List (Level D)) (policy : AuditPolicy) (fs : List (AuditFinding D))
      (n : ℕ)
      → audit b bids asks policy ≡ AuditOutcome.mismatch fs n
      → (0 < length fs)
        × (length fs ≤ 64)
        × (length fs ≤ n)
        × All (λ f. Option_eqb price_eqb f.ours f.theirs ≡ false) fs
  unfolding audit
  audit_mismatch_sound b bids asks policy fs n e =
      let bid_side = audit_side b bid bids policy in
      let ask_side = audit_side b ask asks policy in
      let all = bid_side.0 ++ ask_side.0 in
      let sound_bids = audit_side-Sound b bid bids policy in
      let sound_asks = audit_side-Sound b ask asks policy in
      let (same, count, nonempty) =
        verdict-mismatch (take max_findings all) fs n (bid_side.1 + ask_side.1) e in
      let size = length-append bid_side.0 ask_side.0 in
      (
        nonempty,
        omega (arith, ap length same, length-take max_findings all),
        omega (arith, ap length same, length-take max_findings all, size, count),
        subst (All (λ (f : AuditFinding D). Option_eqb price_eqb f.ours f.theirs ≡ false)) same (
            All-take _ max_findings all (
              All-append _ bid_side.0 ask_side.0 (All-imp bid_side.0 (λ f d. d.1) sound_bids.0)
                (All-imp ask_side.0 (λ f d. d.1) sound_asks.0))),
      )
