-- ===== src/Core/Book/Contents.antt =====
-- What the book holds after a snapshot or a delta, price by price, and at its best end.
use market_aggregator.Common.{
  ℕ, ◌≤◌, true, Option, none, some, List, [], ◌≡◌, refl, ap, ◌∙◌, arith, length, keep_if, not, All,
  take-take, min, Option-cases, inl, inr,
}
use market_aggregator.Core.Decimal.{Decimal, is_delete}
use market_aggregator.Core.Time.{IngestTime}
use market_aggregator.Core.Event.{Side, bid, ask, Level}
use market_aggregator.Core.Levels.{lookup, apply_levels, load_levels, top_of, best_of}
use market_aggregator.Core.Levels.Lookup.{
  last_at, after_updates, lookup-apply_levels, lookup-load_levels,
}
use market_aggregator.Core.Levels.Depth.{
  length-prune_bids, length-prune_asks, top_of-prune_bids, prune_asks-take, best_bid_max,
  best_ask_min,
}
use market_aggregator.Core.Book.{
  Book, BookState, Integrity, is_live, best, top_levels, guard_crossed, guard_prices, prune,
  apply_snapshot, apply_delta,
}
use market_aggregator.Core.Book.Validity.{IsValid}

module _ {D : Type 0} ⦃dec : Decimal D⦄ where
  abbrev pub side_of : Book D → Side → List (Level D)
  side_of b bid = b.bids
  side_of b ask = b.asks

  guard_prices-side :
      (b : Book D) (at : IngestTime) (x y : Option (Level D)) (s : Side)
      → side_of (guard_prices b at x y).0 s ≡ side_of b s
  guard_prices-side b at (some x) (some y) bid = ground arith
  guard_prices-side b at (some x) (some y) ask = ground arith
  guard_prices-side b at none y s = refl
  guard_prices-side b at (some x) none s = refl

  pub guard_crossed-side :
      (b : Book D) (at : IngestTime) (s : Side) → side_of (guard_crossed b at).0 s ≡ side_of b s
  unfolding guard_crossed
  guard_crossed-side b at s = guard_prices-side b at (best b bid) (best b ask) s

  prune-none : (b : Book D) → b.max_depth ≡ none → prune b ≡ b
  unfolding prune
  prune-none b e = rw e

  -- A delta on a live book with no depth limit, at every price of both sides: the last update at
  -- the price decides, a zero quantity removes it, and a price not named keeps its quantity.
  pub lookup-apply_delta :
      (b : Book D) (bids asks : List (Level D)) (at : IngestTime) (p : D)
      → IsValid b
      → is_live b.state ≡ true
      → b.max_depth ≡ none
      → let b' = (apply_delta b bids asks at).0 in
        (lookup p b'.bids ≡ after_updates p bids (lookup p b.bids))
        × (lookup p b'.asks ≡ after_updates p asks (lookup p b.asks))
  unfolding apply_delta
  lookup-apply_delta b bids asks at p v live unlimited = rw live (
      rw
        (prune-none
          (record b {
            bids = apply_levels b.bids bids;
            asks = apply_levels b.asks asks;
            last_update = some at;
          })
          unlimited)
        (
          ap (lookup p) (guard_crossed-side _ at bid)
              ∙ lookup-apply_levels p b.bids bids v.tidy.bids_sorted,
          ap (lookup p) (guard_crossed-side _ at ask)
              ∙ lookup-apply_levels p b.asks asks v.tidy.asks_sorted,
        ))

  -- What a snapshot says at a price: its last level there that is not zero.
  abbrev pub in_snapshot : D → List (Level D) → Option D
  in_snapshot p ls = last_at p (keep_if (λ (l : Level D). not (is_delete l.qty)) ls)

  load_levels-in_snapshot :
      (p : D) (ls : List (Level D)) → lookup p (load_levels [] ls) ≡ in_snapshot p ls
  unfolding lookup
  load_levels-in_snapshot p ls = elim (Option-cases (in_snapshot p ls)) [
    | inl e ↦ rw (lookup-load_levels p [] ls) (rw e refl)
    | inr (q, e) ↦ rw (lookup-load_levels p [] ls) (rw e refl)
  ]

  -- After a snapshot with no depth limit the book holds the snapshot and nothing of what was
  -- there before, on both sides and at every price.
  pub lookup-apply_snapshot :
      (b : Book D) (bids asks : List (Level D)) (integrity : Integrity) (at : IngestTime) (p : D)
      → b.max_depth ≡ none
      → let b' = (apply_snapshot b bids asks integrity at).0 in
        (lookup p b'.bids ≡ in_snapshot p bids) × (lookup p b'.asks ≡ in_snapshot p asks)
  unfolding apply_snapshot
  lookup-apply_snapshot b bids asks integrity at p unlimited =
      rw
        (prune-none
          (record b {
            bids = load_levels [] bids;
            asks = load_levels [] asks;
            state = BookState.live integrity at none;
            last_update = some at;
          })
          unlimited)
        (
          ap (lookup p) (guard_crossed-side _ at bid) ∙ load_levels-in_snapshot p bids,
          ap (lookup p) (guard_crossed-side _ at ask) ∙ load_levels-in_snapshot p asks,
        )

  -- Pruning to a limit leaves the best `n` levels of either side as they were, for every `n` up
  -- to the limit, and keeps as many levels as the limit allows.
  pub top_levels-prune :
      (b : Book D) (s : Side) (n k : ℕ)
      → b.max_depth ≡ some k
      → n ≤ k
      → (top_levels (prune b) s n ≡ top_levels b s n)
        × (length (side_of (prune b) s) ≡ min k (length (side_of b s)))
  unfolding prune top_levels top_of
  top_levels-prune b bid n k e h =
      rw e (unfold top_of in top_of-prune_bids n k b.bids h, length-prune_bids k b.bids)
  top_levels-prune b ask n k e h =
      rw e (rw (prune_asks-take k b.asks) (take-take n k b.asks h), length-prune_asks k b.asks)

  -- Every level of a side lies at or behind the best level of that side.
  pub best-bounds :
      (b : Book D) {x y : Level D}
      → IsValid b
      → best b bid ≡ some x
      → best b ask ≡ some y
      → All (λ l. dec.rank l.price ≤ dec.rank x.price) b.bids
        × All (λ l. dec.rank y.price ≤ dec.rank l.price) b.asks
  unfolding best
  best-bounds b v ex ey = (
    best_bid_max b.bids v.tidy.bids_sorted (unfold best_of in ex),
    best_ask_min b.asks v.tidy.asks_sorted (unfold best_of in ey),
  )
