-- ===== src/Core/Book.antt =====
-- crates/ma-core/src/book.rs: one venue's order book for one symbol, and how far to trust it.
pub mod Validity
pub mod Contents
pub mod Status
pub mod Trust
pub mod View
use market_aggregator.Common.{
  ℕ, ◌-◌, ◌≤◌, ◌<◌, Bool, true, false, Option, none, some, List, [], ◌∷◌, ◌≡◌, length, Text, Result,
  ok, err, Option_eqb, ◌==◌, ◌&&◌, leb, ltb, if◌then◌else◌,
}
use market_aggregator.Core.Decimal.{Decimal, price_eqb, price_leb}
use market_aggregator.Core.Time.{IngestTime, time_eqb, since}
use market_aggregator.Core.Event.{VenueId, Side, bid, ask, Level}
use market_aggregator.Core.Levels.{
  apply_levels, load_levels, prune_bids, prune_asks, best_of, top_of, IsSorted, NoDelete,
}

-- Weakest first, as the derived `Ord` has it.
pub data Integrity : Type 0 where
  order_only gap_detectable verified : Integrity

-- `Integrity::detects_loss`.
unfoldable pub detects_loss : Integrity → Bool
detects_loss Integrity.order_only = false
detects_loss _ = true

abbrev pub integrity_rank : Integrity → ℕ
integrity_rank Integrity.order_only = 0
integrity_rank Integrity.gap_detectable = 1
integrity_rank Integrity.verified = 2

pub data DesyncReason (D : Type 0) : Type 0 where
  sequence_gap : ℕ → ℕ → DesyncReason D
  checksum_mismatch : ℕ → ℕ → DesyncReason D
  timestamp_regression : ℕ → ℕ → DesyncReason D
  crossed_book : D → D → DesyncReason D
  connection_lost : DesyncReason D
  awaiting_snapshot : DesyncReason D
  audit_mismatch : D → ℕ → DesyncReason D
  snapshot_gap : DesyncReason D

module _ {D : Type 0} where
  -- `DesyncReason::needs_fresh_stream`.
  unfoldable pub needs_fresh_stream : DesyncReason D → Bool
  needs_fresh_stream DesyncReason.awaiting_snapshot = false
  needs_fresh_stream DesyncReason.connection_lost = false
  needs_fresh_stream _ = true

-- `live` carries integrity, since and last_verified; `desynced` since and reason.
pub data BookState (D : Type 0) : Type 0 where
  uninitialized : BookState D
  live : Integrity → IngestTime → Option IngestTime → BookState D
  desynced : IngestTime → DesyncReason D → BookState D

pub data BookStateKind : Type 0 where
  uninitialized_kind live_kind desynced_kind : BookStateKind

module _ {D : Type 0} where
  abbrev pub is_live : BookState D → Bool
  is_live (BookState.live i s v) = true
  is_live _ = false

  abbrev pub state_integrity : BookState D → Option Integrity
  state_integrity (BookState.live i s v) = some i
  state_integrity _ = none

  unfoldable pub state_kind : BookState D → BookStateKind
  state_kind BookState.uninitialized = BookStateKind.uninitialized_kind
  state_kind (BookState.live i s v) = BookStateKind.live_kind
  state_kind (BookState.desynced s r) = BookStateKind.desynced_kind

pub record Book (D : Type 0) : Type 0 where
  pub venue : VenueId
  pub symbol : Text
  pub bids : List (Level D)
  pub asks : List (Level D)
  pub state : BookState D
  pub last_update : Option IngestTime
  pub max_depth : Option ℕ

pub record TopOfBook (D : Type 0) : Type 0 where
  pub bid_level : Option (Level D)
  pub ask_level : Option (Level D)
  pub state : BookState D
  pub age : Option ℕ

module _ {D : Type 0} ⦃dec : Decimal D⦄ where
  abbrev pub reason_eqb : DesyncReason D → DesyncReason D → Bool
  reason_eqb (DesyncReason.sequence_gap a b) (DesyncReason.sequence_gap c d) = a == c && b == d
  reason_eqb (DesyncReason.checksum_mismatch a b) (DesyncReason.checksum_mismatch c d) =
      a == c && b == d
  reason_eqb (DesyncReason.timestamp_regression a b) (DesyncReason.timestamp_regression c d) =
      a == c && b == d
  reason_eqb (DesyncReason.crossed_book a b) (DesyncReason.crossed_book c d) =
      price_eqb a c && price_eqb b d
  reason_eqb DesyncReason.connection_lost DesyncReason.connection_lost = true
  reason_eqb DesyncReason.awaiting_snapshot DesyncReason.awaiting_snapshot = true
  reason_eqb (DesyncReason.audit_mismatch a b) (DesyncReason.audit_mismatch c d) =
      price_eqb a c && b == d
  reason_eqb DesyncReason.snapshot_gap DesyncReason.snapshot_gap = true
  reason_eqb _ _ = false

  -- The derived `PartialEq` of `BookState`.
  unfoldable pub state_eqb : BookState D → BookState D → Bool
  state_eqb BookState.uninitialized BookState.uninitialized = true
  state_eqb (BookState.live i s v) (BookState.live j t w) =
      integrity_rank i == integrity_rank j && time_eqb s t && Option_eqb time_eqb v w
  state_eqb (BookState.desynced s r) (BookState.desynced t q) = time_eqb s t && reason_eqb r q
  state_eqb _ _ = false

  -- `BookState::same_status`: as above, but blind to `last_verified`.
  unfoldable pub same_status : BookState D → BookState D → Bool
  same_status BookState.uninitialized BookState.uninitialized = true
  same_status (BookState.live i s v) (BookState.live j t w) =
      integrity_rank i == integrity_rank j && time_eqb s t
  same_status (BookState.desynced s r) (BookState.desynced t q) = time_eqb s t && reason_eqb r q
  same_status _ _ = false

  -- `Book::new`.
  unfoldable pub new : VenueId → Text → Book D
  new venue symbol = record {
    venue = venue;
    symbol = symbol;
    bids = [];
    asks = [];
    state = BookState.uninitialized;
    last_update = none;
    max_depth = none;
  }

  unfoldable pub with_max_depth : Book D → ℕ → Book D
  with_max_depth b depth = record b { max_depth = some depth }

  unfoldable pub mark_desynced : Book D → DesyncReason D → IngestTime → Book D
  mark_desynced b reason at = record b { state = BookState.desynced at reason }

  -- `Book::best`.
  unfoldable pub best : Book D → Side → Option (Level D)
  unfolding best_of
  best b bid = best_of bid b.bids
  best b ask = best_of ask b.asks

  unfoldable pub top_levels : Book D → Side → ℕ → List (Level D)
  unfolding top_of
  top_levels b bid n = top_of bid n b.bids
  top_levels b ask n = top_of ask n b.asks

  unfoldable pub top_of_book : Book D → IngestTime → TopOfBook D
  unfolding best
  top_of_book b now = record {
    bid_level = best b bid;
    ask_level = best b ask;
    state = b.state;
    age = elim b.last_update [ none ↦ none | some last ↦ some (since now last) ];
  }

  -- The tests of `guard_crossed`, on its two `best` readings.
  abbrev pub guard_prices :
      Book D
      → IngestTime
      → Option (Level D)
      → Option (Level D)
      → Book D × Result (Unit {0}) (DesyncReason D)
  guard_prices b at (some x) (some y) =
      if price_leb y.price x.price
      then (
        record b { state = BookState.desynced at (DesyncReason.crossed_book x.price y.price) },
        err (DesyncReason.crossed_book x.price y.price),
      )
      else (b, ok tt)
  guard_prices b at _ _ = (b, ok tt)

  -- `Book::guard_crossed`: a best bid at or above the best ask desyncs the book.
  unfoldable pub guard_crossed : Book D → IngestTime → Book D × Result (Unit {0}) (DesyncReason D)
  unfolding best
  guard_crossed b at = guard_prices b at (best b bid) (best b ask)

  -- `Book::prune`.
  unfoldable pub prune : Book D → Book D
  prune b = elim b.max_depth [
    | none ↦ b
    | some limit ↦ record b { bids = prune_bids limit b.bids; asks = prune_asks limit b.asks }
  ]

  unfoldable pub apply_snapshot :
      Book D
      → List (Level D)
      → List (Level D)
      → Integrity
      → IngestTime
      → Book D × Result (Unit {0}) (DesyncReason D)
  apply_snapshot b bids asks integrity at = guard_crossed (prune loaded) at
    where
      loaded : Book D
      loaded = record b {
        bids = load_levels [] bids;
        asks = load_levels [] asks;
        state = BookState.live integrity at none;
        last_update = some at;
      }

  unfoldable pub apply_delta :
      Book D
      → List (Level D)
      → List (Level D)
      → IngestTime
      → Book D × Result (Unit {0}) BookStateKind
  apply_delta b bids asks at =
      if is_live b.state
      then (
        (guard_crossed
            (prune (record b {
              bids = apply_levels b.bids bids;
              asks = apply_levels b.asks asks;
              last_update = some at;
            }))
            at).0,
        ok tt,
      )
      else (b, err (state_kind b.state))

  -- The match of `mark_verified` on the state.
  abbrev pub verified_state : BookState D → IngestTime → BookState D
  verified_state (BookState.live Integrity.verified since last) at =
      BookState.live Integrity.verified since (some at)
  verified_state s at = s

  unfoldable pub mark_verified : Book D → IngestTime → Book D
  mark_verified b at = record b { state = verified_state b.state at }
