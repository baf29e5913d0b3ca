-- ===== src/Core/Audit.antt =====
-- crates/ma-core/src/audit.rs: comparing a book with an independent snapshot of it.
pub mod Trail
pub mod Repeat
pub mod Findings
use market_aggregator.Common.{
  ℕ, zero, suc, ◌+◌, ◌%◌, ◌^◌, ◌-◌, Bool, true, false, Option, none, some, List, [], ◌∷◌, ◌++◌, ◌≡◌,
  compare, Ordering, map, keep_if, take, length, not, first?, last?, ltb, leb, ◌==◌, ◌&&◌, ◌||◌,
  Option_eqb, if◌then◌else◌,
}
use market_aggregator.Core.Decimal.{Decimal, is_delete, price_leb, price_ltb, price_eqb}
use market_aggregator.Core.Event.{Side, bid, ask, Level}
use market_aggregator.Core.Levels.{lookup}
use market_aggregator.Core.Book.{Book, DesyncReason, best, top_levels}

pub record AuditPolicy : Type 0 where
  pub guard_bps : ℕ
  pub max_levels : ℕ
  pub consecutive_before_desync : ℕ

-- `AuditPolicy::DEFAULT`.
abbrev pub default_policy : AuditPolicy
default_policy = record { guard_bps = 10; max_levels = 500; consecutive_before_desync = 2 }

pub record AuditFinding (D : Type 0) : Type 0 where
  pub side : Side
  pub price : D
  pub ours : Option D
  pub theirs : Option D

abbrev pub max_findings : ℕ
max_findings = 64

-- `usize::MAX`.
abbrev pub usize_max : ℕ
usize_max = 2 ^ 64 - 1

pub data AuditOutcome (D : Type 0) : Type 0 where
  inconclusive : AuditOutcome D
  matched : ℕ → AuditOutcome D
  mismatch : List (AuditFinding D) → ℕ → AuditOutcome D

module _ {D : Type 0} ⦃dec : Decimal D⦄ where
  -- One entry of `collect` into a `BTreeMap`: of equal keys the last entry stays, key and value.
  unfoldable pub collect_one : Level D → List (Level D) → List (Level D)
  collect_one l [] = l ∷ []
  collect_one l (x ∷ xs) = elim (compare (dec.rank l.price) (dec.rank x.price)) [
    | Ordering.lt ↦ l ∷ x ∷ xs
    | Ordering.eq ↦ l ∷ xs
    | Ordering.gt ↦ x ∷ collect_one l xs
  ]

  unfoldable pub collect_onto : List (Level D) → List (Level D) → List (Level D)
  collect_onto m [] = m
  collect_onto m (l ∷ ls) = collect_onto (collect_one l m) ls

  unfoldable pub collect : List (Level D) → List (Level D)
  unfolding collect_onto collect_one
  collect ls = collect_onto [] ls

  -- `guard_edge`.
  unfoldable pub guard_edge : D → Side → ℕ → D
  guard_edge best bid bps =
      dec.sub best (dec.div (dec.mul best (dec.from_u32 bps)) (dec.from_u32 10000))
  guard_edge best ask bps =
      dec.add best (dec.div (dec.mul best (dec.from_u32 bps)) (dec.from_u32 10000))

  -- The closure `beyond`.
  abbrev pub beyond : Side → D → D → Bool
  beyond bid edge price = price_leb price edge
  beyond ask edge price = price_leb edge price

  -- The order of `sort_by`: descending for bids, ascending for asks.
  abbrev pub sorts_before : Side → Level D → Level D → Bool
  sorts_before bid a b = price_leb b.price a.price
  sorts_before ask a b = price_leb a.price b.price

  unfoldable pub sort_one : Side → Level D → List (Level D) → List (Level D)
  sort_one s l [] = l ∷ []
  sort_one s l (x ∷ xs) = if sorts_before s l x then l ∷ x ∷ xs else x ∷ sort_one s l xs

  -- `sort_by`, which is stable.
  unfoldable pub sort_levels : Side → List (Level D) → List (Level D)
  unfolding sort_one
  sort_levels s [] = []
  sort_levels s (l ∷ ls) = sort_one s l (sort_levels s ls)

  -- `range(lo..=hi)`.
  unfoldable pub range : D → D → List (Level D) → List (Level D)
  range lo hi m = keep_if (λ (l : Level D). price_leb lo l.price && price_leb l.price hi) m

  -- The loop over the prices in the overlap; the list is built in order, `room` findings more fit.
  unfoldable pub compare_prices :
      Side → List (Level D) → List (Level D) → List (Level D) → ℕ → List (AuditFinding D)
  compare_prices s ours theirs [] room = []
  compare_prices s ours theirs (p ∷ ps) room =
      let o = lookup p.price ours in
      let t = lookup p.price theirs in
      elim (not (Option_eqb price_eqb o t) && ltb 0 room) [
        | true ↦
            record { side = s; price = p.price; ours = o; theirs = t }
            ∷ compare_prices s ours theirs ps (room - 1)
        | false ↦ compare_prices s ours theirs ps room
      ]

  -- The comparison of the two maps over the range that both cover.
  unfoldable pub compare_maps :
      Side
      → List (Level D)
      → List (Level D)
      → Option D
      → Option D
      → Option D
      → Option D
      → List (AuditFinding D) × ℕ
  unfolding range collect compare_prices
  compare_maps s ours theirs (some a) (some b) (some c) (some d) =
      let lo = if price_leb a c then c else a in
      let hi = if price_leb b d then b else d in
      let prices = collect (range lo hi ours ++ range lo hi theirs) in
      if price_ltb hi lo
      then ([], 0)
      else (compare_prices s ours theirs prices max_findings, length prices)
  compare_maps s ours theirs _ _ _ _ = ([], 0)

  abbrev pub lowest : List (Level D) → Option D
  lowest m = elim (first? m) [ none ↦ none | some l ↦ some l.price ]

  abbrev pub highest : List (Level D) → Option D
  highest m = elim (last? m) [ none ↦ none | some l ↦ some l.price ]

  -- The levels of one source that `audit_side` compares, as a map.
  unfoldable pub audited : Side → D → AuditPolicy → List (Level D) → List (Level D)
  unfolding collect
  audited s edge policy ls =
      collect (take policy.max_levels (keep_if (λ (l : Level D). beyond s edge l.price) ls))

  abbrev pub compare_sides : Side → List (Level D) → List (Level D) → List (AuditFinding D) × ℕ
  compare_sides s ours theirs =
      compare_maps s ours theirs (lowest ours) (highest ours) (lowest theirs) (highest theirs)

  unfoldable pub audit_side :
      Book D → Side → List (Level D) → AuditPolicy → List (AuditFinding D) × ℕ
  unfolding audited compare_maps guard_edge sort_levels
  audit_side b s theirs policy = elim (best b s) [
    | none ↦ ([], 0)
    | some top ↦
        let edge = guard_edge top.price s policy.guard_bps in
        compare_sides s (audited s edge policy (top_levels b s usize_max)) (
          audited s edge policy
            (sort_levels s (keep_if (λ (l : Level D). not (is_delete l.qty)) theirs)))
  ]

  -- The last match of `audit`.
  abbrev pub verdict : List (AuditFinding D) → ℕ → AuditOutcome D
  verdict (f ∷ fs) compared = AuditOutcome.mismatch (f ∷ fs) compared
  verdict [] compared =
      if compared == 0 then AuditOutcome.inconclusive else AuditOutcome.matched compared

  unfoldable pub audit : Book D → List (Level D) → List (Level D) → AuditPolicy → AuditOutcome D
  unfolding audit_side
  audit b bids asks policy =
      let (found_bids, n) = audit_side b bid bids policy in
      let (found_asks, m) = audit_side b ask asks policy in
      verdict (take max_findings (found_bids ++ found_asks)) (n + m)

  -- A `BTreeSet<Price>` ascends without repeats.
  unfoldable pub set_insert : D → List D → List D
  set_insert p [] = p ∷ []
  set_insert p (x ∷ xs) = elim (compare (dec.rank p) (dec.rank x)) [
    | Ordering.lt ↦ p ∷ x ∷ xs
    | Ordering.eq ↦ p ∷ xs
    | Ordering.gt ↦ x ∷ set_insert p xs
  ]

  unfoldable pub set_contains : List D → D → Bool
  set_contains [] p = false
  set_contains (x ∷ xs) p = price_eqb p x || set_contains xs p

  unfoldable pub price_set_onto : List D → List (AuditFinding D) → List D
  price_set_onto m [] = m
  price_set_onto m (f ∷ fs) = price_set_onto (set_insert f.price m) fs

  -- `AuditOutcome::prices`.
  unfoldable pub outcome_prices : AuditOutcome D → List D
  unfolding price_set_onto set_insert
  outcome_prices (AuditOutcome.mismatch findings n) = price_set_onto [] findings
  outcome_prices _ = []

pub record AuditTrail (D : Type 0) : Type 0 where
  pub consecutive : ℕ
  pub suspect : List D
  pub audits : ℕ
  pub mismatches : ℕ

module _ {D : Type 0} where
  -- `AuditTrail::default`.
  abbrev pub empty_trail : AuditTrail D
  empty_trail = record { consecutive = 0; suspect = []; audits = 0; mismatches = 0 }

  unfoldable pub reset_trail : AuditTrail D → AuditTrail D
  reset_trail t = record t { consecutive = 0; suspect = [] }

module _ {D : Type 0} ⦃dec : Decimal D⦄ where
  -- What `observe` does once the suspects that the new findings do not repeat are gone.
  abbrev pub persist :
      AuditTrail D → List D → List D → AuditPolicy → AuditTrail D × Option (DesyncReason D)
  persist t now [] policy = (record t { suspect = now; consecutive = 1 }, none)
  persist t now (p ∷ ps) policy =
      let k = (t.consecutive + 1) % 2 ^ 32 in
      (
        record t { suspect = p ∷ ps; consecutive = k },
        if ltb k policy.consecutive_before_desync
            then none
            else some (DesyncReason.audit_mismatch p k),
      )

  -- The counters of `observe`, which are `u64`.
  abbrev pub counted : AuditTrail D → ℕ → AuditTrail D
  counted t more = record t {
    audits = (t.audits + 1) % 2 ^ 64;
    mismatches = (t.mismatches + more) % 2 ^ 64;
  }

  unfoldable pub observe :
      AuditTrail D → AuditOutcome D → AuditPolicy → AuditTrail D × Option (DesyncReason D)
  unfolding outcome_prices set_contains
  observe t AuditOutcome.inconclusive policy = (record t { audits = (t.audits + 1) % 2 ^ 64 }, none)
  observe t (AuditOutcome.matched n) policy =
      (record t { audits = (t.audits + 1) % 2 ^ 64; consecutive = 0; suspect = [] }, none)
  observe t (AuditOutcome.mismatch fs n) policy =
      let now = outcome_prices (AuditOutcome.mismatch fs n) in
      let t' = counted t 1 in
      if t.consecutive == 0
      then (record t' { suspect = now; consecutive = 1 }, none)
      else persist t' now (keep_if (set_contains now) t.suspect) policy
