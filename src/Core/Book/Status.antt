-- ===== src/Core/Book/Status.antt =====
-- How the state of a book moves, and what every book that calls can produce satisfies.
use market_aggregator.Common.{
  ℕ, ◌≤◌, Option, none, some, List, [], ◌∷◌, ◌≡◌, ◌⊎◌, refl, arith, Text, Result, ok, err,
  Bool-cases, inl, inr, leb→le, ap, ◌∙◌,
}
use market_aggregator.Core.Decimal.{Decimal, price_leb}
use market_aggregator.Core.Time.{IngestTime}
use market_aggregator.Core.Event.{VenueId, bid, ask, Level}
use market_aggregator.Core.Levels.{load_levels}
use market_aggregator.Core.Book.{
  Book, BookState, DesyncReason, Integrity, new, with_max_depth, mark_desynced, best, guard_crossed,
  guard_prices, prune, apply_snapshot, apply_delta, mark_verified,
}
use market_aggregator.Core.Book.Validity.{
  IsValid, Uncrossed, with_max_depth-IsValid, new-IsValid, apply_snapshot-IsValid,
  apply_delta-IsValid, mark_desynced-IsValid, mark_verified-IsValid,
}

-- The calls that change a book.
pub data Call (D : Type 0) : Type 0 where
  snapshots : List (Level D) → List (Level D) → Integrity → IngestTime → Call D
  deltas : List (Level D) → List (Level D) → IngestTime → Call D
  desyncs : DesyncReason D → IngestTime → Call D
  verifies : IngestTime → Call D

module _ {D : Type 0} ⦃dec : Decimal D⦄ where
  unfoldable pub step : Book D → Call D → Book D
  step b (Call.snapshots bids asks integrity at) = (apply_snapshot b bids asks integrity at).0
  step b (Call.deltas bids asks at) = (apply_delta b bids asks at).0
  step b (Call.desyncs reason at) = mark_desynced b reason at
  step b (Call.verifies at) = mark_verified b at

  unfoldable pub run : Book D → List (Call D) → Book D
  run b [] = b
  run b (c ∷ cs) = run (step b c) cs

  pub step-IsValid : (b : Book D) (c : Call D) → IsValid b → IsValid (step b c)
  unfolding step
  step-IsValid b (Call.snapshots bids asks i at) v = apply_snapshot-IsValid b bids asks i at
  step-IsValid b (Call.deltas bids asks at) v = apply_delta-IsValid b bids asks at v
  step-IsValid b (Call.desyncs r at) v = mark_desynced-IsValid b r at v
  step-IsValid b (Call.verifies at) v = mark_verified-IsValid b at v

  run_from-IsValid : (b : Book D) (cs : List (Call D)) → IsValid b → IsValid (run b cs)
  unfolding run
  run_from-IsValid b [] v = v
  run_from-IsValid b (c ∷ cs) v = run_from-IsValid (step b c) cs (step-IsValid b c v)

  abbrev pub opened : VenueId → Text → Option ℕ → Book D
  opened venue symbol none = new venue symbol
  opened venue symbol (some depth) = with_max_depth (new venue symbol) depth

  -- Any calls in any order on a new book, with or without a depth limit, give a book whose sides
  -- ascend strictly, hold no zero quantity and keep to the limit, and which, where it is live,
  -- has its best bid below its best ask.
  pub run-IsValid :
      (venue : VenueId) (symbol : Text) (depth : Option ℕ) (cs : List (Call D))
      → IsValid (run (opened venue symbol depth) cs)
  run-IsValid venue symbol none cs = run_from-IsValid _ cs (new-IsValid venue symbol)
  run-IsValid venue symbol (some d) cs =
      run_from-IsValid _ cs (with_max_depth-IsValid venue symbol d)

  -- The best levels of a book are crossed, and `reason` says so.
  abbrev pub CrossedAt : Book D → DesyncReason D → Type 0
  CrossedAt b reason =
      (x : Level D) × (y : Level D) × (best b bid ≡ some x)
      × (best b ask ≡ some y)
      × (dec.rank y.price ≤ dec.rank x.price)
      × (reason ≡ DesyncReason.crossed_book x.price y.price)

  -- What `guard_crossed` does to `b`, of the best levels `x` and `y` that it reads.
  guard_prices_cases :
      (b : Book D) (at : IngestTime) (x y : Option (Level D))
      → ((guard_prices b at x y ≡ (b, ok tt)) × Uncrossed x y)
        ⊎ ((l : Level D) × (m : Level D) × (x ≡ some l)
            × (y ≡ some m)
            × (dec.rank m.price ≤ dec.rank l.price)
            × (guard_prices b at x y ≡ (
              record b {
                state = BookState.desynced at (DesyncReason.crossed_book l.price m.price);
              },
              err (DesyncReason.crossed_book l.price m.price),
            )))
  guard_prices_cases b at (some x) (some y) = elim (Bool-cases (price_leb y.price x.price)) [
    | inl crossed ↦ inr (x, y, refl, refl, leb→le _ _ crossed, rw crossed)
    | inr fine ↦ inl (rw fine, ground arith)
  ]
  guard_prices_cases b at none y = inl (refl, tt)
  guard_prices_cases b at (some x) none = inl (refl, tt)

  -- What a call of `guard_crossed` leaves: the book as it was, not crossed, or the same sides
  -- with the state that names the crossing.
  abbrev pub Guards : Book D → IngestTime → Book D × Result (Unit {0}) (DesyncReason D) → Type 0
  Guards b at out =
      ((out ≡ (b, ok tt)) × Uncrossed (best out.0 bid) (best out.0 ask))
      ⊎ ((reason : DesyncReason D) × CrossedAt out.0 reason
          × (out ≡ (record b { state = BookState.desynced at reason }, err reason)))

  pub guard_crossed-Guards : (b : Book D) (at : IngestTime) → Guards b at (guard_crossed b at)
  unfolding guard_crossed best
  guard_crossed-Guards b at = elim (guard_prices_cases b at (best b bid) (best b ask)) [
    | inl (e, u) ↦ inl (e, rw e u)
    | inr (x, y, ex, ey, h, e) ↦
        inr (DesyncReason.crossed_book x.price y.price, rw e (x, y, ex, ey, h, refl), e)
  ]

  pub prune-state :
      (b : Book D) → ((prune b).state ≡ b.state) × ((prune b).last_update ≡ b.last_update)
  unfolding prune
  prune-state b = ground arith

  -- A snapshot either makes the book live, at the venue's integrity and from this moment, not yet
  -- verified and not crossed, and returns no error; or its best levels cross, and the book is
  -- desynced from this moment for the reason returned. It never leaves the book as it was.
  pub apply_snapshot_outcome :
      (b : Book D) (bids asks : List (Level D)) (integrity : Integrity) (at : IngestTime)
      → let (b', r) = apply_snapshot b bids asks integrity at in
        (b'.last_update ≡ some at)
        × (((r ≡ ok tt)
              × (b'.state ≡ BookState.live integrity at none)
              × Uncrossed (best b' bid) (best b' ask))
            ⊎ ((reason : DesyncReason D) × CrossedAt b' reason
                × (r ≡ err reason)
                × (b'.state ≡ BookState.desynced at reason)))
  unfolding apply_snapshot
  apply_snapshot_outcome b bids asks integrity at =
      snapshot_guarded (prune-state loaded) (guard_crossed-Guards (prune loaded) at)
    where
      loaded : Book D
      loaded = record b {
        bids = load_levels [] bids;
        asks = load_levels [] asks;
        state = BookState.live integrity at none;
        last_update = some at;
      }

      snapshot_guarded :
          ((prune loaded).state ≡ BookState.live integrity at none)
            × ((prune loaded).last_update ≡ some at)
          → Guards (prune loaded) at (guard_crossed (prune loaded) at)
          → let (b', r) = guard_crossed (prune loaded) at in
            (b'.last_update ≡ some at)
            × (((r ≡ ok tt)
                  × (b'.state ≡ BookState.live integrity at none)
                  × Uncrossed (best b' bid) (best b' ask))
                ⊎ ((reason : DesyncReason D) × CrossedAt b' reason
                    × (r ≡ err reason)
                    × (b'.state ≡ BookState.desynced at reason)))
      snapshot_guarded p (inl (e, u)) =
          (ap (λ o. o.0.last_update) e ∙ p.1, inl (ap (λ o. o.1) e, ap (λ o. o.0.state) e ∙ p.0, u))
      snapshot_guarded p (inr (reason, c, e)) = (
        ap (λ o. o.0.last_update) e ∙ p.1,
        inr (reason, c, ap (λ o. o.1) e, ap (λ o. o.0.state) e),
      )
