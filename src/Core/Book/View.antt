-- ===== src/Core/Book/View.antt =====
-- What a snapshot and a delta do to the levels of a book and to its being live depends on nothing
-- else in it: not on the clock, nor on why or since when it is in its state.
use market_aggregator.Common.{
  ℕ, Bool, true, Option, none, some, List, [], ◌≡◌, refl, ◌∙◌, arith, not, Bool-cases, inl, inr,
  if◌then◌else◌, Option-cases,
}
use market_aggregator.Core.Decimal.{Decimal, price_leb}
use market_aggregator.Core.Time.{IngestTime}
use market_aggregator.Core.Event.{bid, ask, Level}
use market_aggregator.Core.Levels.{apply_levels, load_levels, prune_bids, prune_asks, best_of}
use market_aggregator.Core.Book.{
  Book, Integrity, is_live, best, guard_crossed, guard_prices, prune, apply_snapshot, apply_delta,
}

pub record View (D : Type 0) : Type 0 where
  pub bids : List (Level D)
  pub asks : List (Level D)
  pub limit : Option ℕ
  pub live : Bool

module _ {D : Type 0} ⦃dec : Decimal D⦄ where
  abbrev pub view : Book D → View D
  view b = record { bids = b.bids; asks = b.asks; limit = b.max_depth; live = is_live b.state }

  abbrev pub uncrossed_test : Option (Level D) → Option (Level D) → Bool
  uncrossed_test (some x) (some y) = not (price_leb y.price x.price)
  uncrossed_test _ _ = true

  abbrev pub keep_bids : Option ℕ → List (Level D) → List (Level D)
  keep_bids none side = side
  keep_bids (some k) side = prune_bids k side

  abbrev pub keep_asks : Option ℕ → List (Level D) → List (Level D)
  keep_asks none side = side
  keep_asks (some k) side = prune_asks k side

  -- Two new sides: cut to the limit, and live just if they do not cross.
  unfoldable pub settle : Option ℕ → List (Level D) → List (Level D) → View D
  settle limit bids asks = record {
    bids = keep_bids limit bids;
    asks = keep_asks limit asks;
    limit = limit;
    live = uncrossed_test (best_of bid (keep_bids limit bids)) (best_of ask (keep_asks limit asks));
  }

  unfoldable pub delta_view : View D → List (Level D) → List (Level D) → View D
  delta_view v bids asks =
      if v.live then settle v.limit (apply_levels v.bids bids) (apply_levels v.asks asks) else v

  unfoldable pub snapshot_view : View D → List (Level D) → List (Level D) → View D
  snapshot_view v bids asks = settle v.limit (load_levels [] bids) (load_levels [] asks)

  guard_prices-view :
      (b : Book D) (at : IngestTime) (x y : Option (Level D))
      → is_live b.state ≡ true
      → view (guard_prices b at x y).0 ≡ record (view b) { live = uncrossed_test x y }
  guard_prices-view b at (some x) (some y) h = ground arith
  guard_prices-view b at none y h = ground arith
  guard_prices-view b at (some x) none h = ground arith

  guarded-view :
      (b : Book D) (at : IngestTime)
      → is_live b.state ≡ true
      → view (guard_crossed (prune b) at).0 ≡ settle b.max_depth b.bids b.asks
  unfolding guard_crossed settle best prune
  guarded-view b at h = elim (Option-cases b.max_depth) [
    | inl e ↦ rw e (guard_prices-view _ at _ _ h ∙ ground arith)
    | inr (k, e) ↦ rw e (guard_prices-view _ at _ _ h ∙ ground arith)
  ]

  -- A snapshot acts on the view alone.
  pub view-apply_snapshot :
      (b : Book D) (bids asks : List (Level D)) (integrity : Integrity) (at : IngestTime)
      → view (apply_snapshot b bids asks integrity at).0 ≡ snapshot_view (view b) bids asks
  unfolding apply_snapshot snapshot_view
  view-apply_snapshot b bids asks integrity at = guarded-view _ at refl

  -- A delta acts on the view alone.
  pub view-apply_delta :
      (b : Book D) (bids asks : List (Level D)) (at : IngestTime)
      → view (apply_delta b bids asks at).0 ≡ delta_view (view b) bids asks
  unfolding apply_delta delta_view
  view-apply_delta b bids asks at = elim (Bool-cases (is_live b.state)) [
    | inl live ↦ rw live (guarded-view _ at live)
    | inr dead ↦ rw dead (ground arith)
  ]
