-- ===== src/Core/Book/Validity.antt =====
-- What holds of a book between two calls, whatever the venue sends.
use market_aggregator.Common.{
  ℕ, ◌≤◌, ◌<◌, true, false, Option, none, some, List, [], ◌≡◌, refl, ◌∙◌, arith, length, Text,
  Option-cases, inl, inr, Bool-cases, ◌⊎◌,
}
use market_aggregator.Core.Decimal.{Decimal}
use market_aggregator.Core.Time.{IngestTime}
use market_aggregator.Core.Event.{VenueId, Side, bid, ask, Level}
use market_aggregator.Core.Levels.{prune_bids, prune_asks, IsSorted, NoDelete}
use market_aggregator.Core.Levels.Order.{
  apply_levels-IsSorted, load_levels-IsSorted, apply_levels-NoDelete, load_levels-NoDelete,
  prune_bids-IsSorted, prune_asks-IsSorted, prune_bids-All, prune_asks-All,
}
use market_aggregator.Core.Levels.Depth.{length-prune_bids, length-prune_asks}
use market_aggregator.Core.Book.{
  Book, BookState, DesyncReason, Integrity, is_live, new, with_max_depth, mark_desynced, best,
  guard_crossed, guard_prices, prune, apply_snapshot, apply_delta, mark_verified, verified_state,
}

module _ {D : Type 0} ⦃dec : Decimal D⦄ where
  -- The best bid is below the best ask, where there are both.
  abbrev pub Uncrossed : Option (Level D) → Option (Level D) → Type 0
  Uncrossed (some x) (some y) = dec.rank x.price < dec.rank y.price
  Uncrossed _ _ = Unit

  abbrev pub Within : Option ℕ → List (Level D) → Type 0
  Within none side = Unit
  Within (some limit) side = length side ≤ limit

  -- What the book's fields satisfy whatever its state is.
  pub record IsTidy (b : Book D) : Type 0 where
    pub bids_sorted : IsSorted b.bids
    pub asks_sorted : IsSorted b.asks
    pub bids_held : NoDelete b.bids
    pub asks_held : NoDelete b.asks
    pub bids_within : Within b.max_depth b.bids
    pub asks_within : Within b.max_depth b.asks

  pub record IsValid (b : Book D) : Type 0 where
    pub tidy : IsTidy b
    pub uncrossed : (is_live b.state ≡ false) ⊎ Uncrossed (best b bid) (best b ask)

  prune_bids-Within : (k : ℕ) (side : List (Level D)) → length (prune_bids k side) ≤ k
  prune_bids-Within k side = omega (arith, length-prune_bids k side)

  prune_asks-Within : (k : ℕ) (side : List (Level D)) → length (prune_asks k side) ≤ k
  prune_asks-Within k side = omega (arith, length-prune_asks k side)

  -- `prune` makes a book within its limit out of one that has all but that.
  prune-IsTidy :
      (b : Book D)
      → IsSorted b.bids
      → IsSorted b.asks
      → NoDelete b.bids
      → NoDelete b.asks
      → IsTidy (prune b)
  unfolding prune
  prune-IsTidy b sb sa nb na = elim (Option-cases b.max_depth) [
    | inl e ↦ ground arith
    | inr (k, e) ↦ ground (
      arith,
      prune_bids-IsSorted k b.bids sb,
      prune_asks-IsSorted k b.asks sa,
      prune_bids-All _ k b.bids nb,
      prune_asks-All _ k b.asks na,
      prune_bids-Within k b.bids,
      prune_asks-Within k b.asks,
    )
  ]

  guard_prices-IsTidy :
      (b : Book D) (at : IngestTime) (x y : Option (Level D))
      → IsTidy b
      → IsTidy (guard_prices b at x y).0
  guard_prices-IsTidy b at (some x) (some y) t = ground arith
  guard_prices-IsTidy b at none y t = t
  guard_prices-IsTidy b at (some x) none t = t

  guard_prices-Uncrossed :
      (b : Book D) (at : IngestTime) (x y : Option (Level D))
      → is_live (guard_prices b at x y).0.state ≡ true
      → Uncrossed x y
  guard_prices-Uncrossed b at (some x) (some y) h = ground arith
  guard_prices-Uncrossed b at none y h = tt
  guard_prices-Uncrossed b at (some x) none h = tt

  guard_prices-best :
      (b : Book D) (at : IngestTime) (x y : Option (Level D)) (s : Side)
      → best (guard_prices b at x y).0 s ≡ best b s
  unfolding best
  guard_prices-best b at (some x) (some y) bid = ground arith
  guard_prices-best b at (some x) (some y) ask = ground arith
  guard_prices-best b at none y s = refl
  guard_prices-best b at (some x) none s = refl

  guard_crossed-IsValid : (b : Book D) (at : IngestTime) → IsTidy b → IsValid (guard_crossed b at).0
  unfolding guard_crossed
  guard_crossed-IsValid b at t = record {
    tidy = guard_prices-IsTidy b at (best b bid) (best b ask) t;
    uncrossed = elim (Bool-cases (is_live (guard_prices b at (best b bid) (best b ask)).0.state)) [
      | inr dead ↦ inl dead
      | inl h ↦ inr (
          rw
            (
              guard_prices-best b at (best b bid) (best b ask) bid,
              guard_prices-best b at (best b bid) (best b ask) ask,
            )
            (guard_prices-Uncrossed b at (best b bid) (best b ask) h))
    ];
  }

  -- A new book, with or without a depth limit, is valid.
  pub new-IsValid : (venue : VenueId) (symbol : Text) → IsValid (new venue symbol)
  unfolding new best
  new-IsValid venue symbol = ground arith

  pub with_max_depth-IsValid :
      (venue : VenueId) (symbol : Text) (depth : ℕ)
      → IsValid (with_max_depth (new venue symbol) depth)
  unfolding new with_max_depth best
  with_max_depth-IsValid venue symbol depth = ground arith

  -- Whatever levels a snapshot holds, the book after it is valid.
  pub apply_snapshot-IsValid :
      (b : Book D) (bids asks : List (Level D)) (integrity : Integrity) (at : IngestTime)
      → IsValid (apply_snapshot b bids asks integrity at).0
  unfolding apply_snapshot
  apply_snapshot-IsValid b bids asks integrity at = guard_crossed-IsValid _ at (
      prune-IsTidy _ (load_levels-IsSorted [] bids tt) (load_levels-IsSorted [] asks tt)
        (load_levels-NoDelete [] bids tt) (load_levels-NoDelete [] asks tt))

  -- Whatever levels a delta holds, it keeps a valid book valid.
  pub apply_delta-IsValid :
      (b : Book D) (bids asks : List (Level D)) (at : IngestTime)
      → IsValid b
      → IsValid (apply_delta b bids asks at).0
  unfolding apply_delta
  apply_delta-IsValid b bids asks at v = elim (Bool-cases (is_live b.state)) [
    | inl live ↦ rw live (
        guard_crossed-IsValid _ at (
          prune-IsTidy _ (apply_levels-IsSorted b.bids bids v.tidy.bids_sorted)
            (apply_levels-IsSorted b.asks asks v.tidy.asks_sorted)
            (apply_levels-NoDelete b.bids bids v.tidy.bids_held)
            (apply_levels-NoDelete b.asks asks v.tidy.asks_held)))
    | inr dead ↦ rw dead v
  ]

  pub mark_desynced-IsValid :
      (b : Book D) (reason : DesyncReason D) (at : IngestTime)
      → IsValid b
      → IsValid (mark_desynced b reason at)
  unfolding mark_desynced
  mark_desynced-IsValid b reason at v = record { tidy = ground arith; uncrossed = inl refl }

  is_live-verified_state :
      (s : BookState D) (at : IngestTime) → is_live (verified_state s at) ≡ is_live s
  is_live-verified_state s at = ground arith

  pub mark_verified-IsValid :
      (b : Book D) (at : IngestTime) → IsValid b → IsValid (mark_verified b at)
  unfolding mark_verified best
  mark_verified-IsValid b at v = record {
    tidy = ground arith;
    uncrossed = elim v.uncrossed [
      | inl dead ↦ inl (is_live-verified_state b.state at ∙ dead)
      | inr u ↦ inr u
    ];
  }
