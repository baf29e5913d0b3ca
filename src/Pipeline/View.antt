-- ===== src/Pipeline/View.antt =====
-- crates/ma-pipeline/src/aggregator.rs: what a snapshot says of one stream and of one symbol.
use market_aggregator.Common.{ℕ, Bool, Option, none, some, List, [], ◌∷◌, map, Text, length}
use market_aggregator.Core.Decimal.{Decimal}
use market_aggregator.Core.Time.{IngestTime, WallTime, since}
use market_aggregator.Core.Event.{VenueId, Side, Level}
use market_aggregator.Core.Book.{
  BookState, DesyncReason, Integrity, TopOfBook, top_of_book, top_levels,
}
use market_aggregator.Core.Cross.{
  CrossPolicy, CrossLeg, CrossVenue, Exclusion, consolidate, is_crossed, is_single_venue, weaker,
}
use market_aggregator.Core.Window.Reading.{WindowReading, millis, then_do, choose_opt}
use market_aggregator.Core.CrossWindows.{CrossWindowReading, consolidate_windows}
use market_aggregator.Pipeline.Channel.{ChannelMetrics}
use market_aggregator.Pipeline.Metrics.{VenueCounters}
use market_aggregator.Pipeline.Aggregator.{VenueState, desynced_total_at}

pub data BookStatus : Type 0 where
  uninitialized live desynced : BookStatus

pub record TradeView : Type 0 where
  pub price : Text
  pub qty : Text
  pub taker_side : Option Side
  pub age_ms : ℕ

-- The reason of a desync is kept as it is, and not `describe`d; the rates, which are floats, are
-- left out.
pub record VenueView (D : Type 0) : Type 0 where
  pub venue : VenueId
  pub status : BookStatus
  pub integrity : Option Integrity
  pub desync_reason : Option (DesyncReason D)
  pub bid_level : Option (Level D)
  pub ask_level : Option (Level D)
  pub bids : List (Level D)
  pub asks : List (Level D)
  pub spread : Option Text
  pub mid : Option Text
  pub age_ms : Option ℕ
  pub status_for_ms : ℕ
  pub desynced_total_ms : ℕ
  pub last_verified_ms : Option ℕ
  pub audits : ℕ
  pub audit_mismatches : ℕ
  pub levels_held : ℕ × ℕ
  pub windows : List (WindowReading D)
  pub last_trade : Option TradeView
  pub counters : VenueCounters

-- The text of an exclusion's reason is left out, as is the name of the clock.
pub record CrossView (D : Type 0) : Type 0 where
  pub bid_leg : Option (CrossLeg D)
  pub ask_leg : Option (CrossLeg D)
  pub spread : Option Text
  pub spread_bps : Option Text
  pub mid : Option Text
  pub integrity_floor : Option Integrity
  pub oldest_leg_ms : Option ℕ
  pub venues_used : ℕ
  pub crossed : Bool
  pub single_venue : Bool
  pub excluded : List Exclusion

pub record SymbolView (D : Type 0) : Type 0 where
  pub symbol : Text
  pub weakest_integrity : Option Integrity
  pub cross : CrossView D
  pub cross_windows : List (CrossWindowReading D)
  pub venues : List (VenueView D)

pub record Snapshot (D : Type 0) : Type 0 where
  pub seq : ℕ
  pub wall_unix_ms : ℕ
  pub symbols : List (SymbolView D)
  pub channel : ChannelMetrics

-- `unix_millis`.
abbrev pub unix_millis : WallTime → ℕ
unix_millis (WallTime.after_epoch n) = millis n
unix_millis (WallTime.before_epoch n) = 0

-- `filter_map` to the integrity, and `min`.
unfoldable pub weakest : List (Option Integrity) → Option Integrity
weakest [] = none
weakest (o ∷ os) = choose_opt weaker o (weakest os)

module _ {D : Type 0} where
  -- `VenueState::status`.
  abbrev pub status_of : BookState D → BookStatus
  status_of BookState.uninitialized = BookStatus.uninitialized
  status_of (BookState.live i s v) = BookStatus.live
  status_of (BookState.desynced s r) = BookStatus.desynced

  abbrev pub integrity_shown : BookState D → Option Integrity
  integrity_shown (BookState.live i s v) = some i
  integrity_shown _ = none

  abbrev pub verified_shown : BookState D → IngestTime → Option ℕ
  verified_shown (BookState.live i s v) now = then_do v (λ at. millis (since now at))
  verified_shown _ now = none

  abbrev pub reason_shown : BookState D → Option (DesyncReason D)
  reason_shown (BookState.desynced s r) = some r
  reason_shown _ = none

module _ {D : Type 0} ⦃dec : Decimal D⦄ where
  -- `TopOfBook::spread` and `TopOfBook::mid`.
  abbrev pub both_levels : (D → D → D) → Option (Level D) → Option (Level D) → Option D
  both_levels f (some b) (some a) = some (f b.price a.price)
  both_levels f _ _ = none

  unfoldable pub spread : TopOfBook D → Option D
  spread t = both_levels (λ b a. dec.sub a b) t.bid_level t.ask_level

  unfoldable pub mid : TopOfBook D → Option D
  mid t = both_levels (λ b a. dec.div (dec.add a b) (dec.from_u32 2)) t.bid_level t.ask_level

  abbrev pub trade_shown : Option (D × D × Option Side × IngestTime) → IngestTime → Option TradeView
  trade_shown none now = none
  trade_shown (some (price, qty, side, at)) now = some (record {
    price = dec.to_text price;
    qty = dec.to_text qty;
    taker_side = side;
    age_ms = millis (since now at);
  })

  -- `cross_view`.
  abbrev pub shown_cross : CrossVenue D → CrossView D
  shown_cross c = record {
    bid_leg = c.bid_leg;
    ask_leg = c.ask_leg;
    spread = then_do c.spread dec.to_text;
    spread_bps = then_do c.spread_bps dec.to_text;
    mid = then_do c.mid dec.to_text;
    integrity_floor = c.integrity_floor;
    oldest_leg_ms = c.oldest_leg_ms;
    venues_used = c.venues_used;
    crossed = is_crossed c;
    single_venue = is_single_venue c;
    excluded = c.excluded;
  }

  unfoldable pub cross_view : List (VenueId × TopOfBook D) → CrossPolicy → CrossView D
  cross_view tops policy = shown_cross (consolidate tops policy)

  -- `consolidated_windows`.
  unfoldable pub consolidated_windows : List (VenueView D × ℕ) → List (CrossWindowReading D)
  consolidated_windows views = consolidate_windows (
      map
        (λ (p : VenueView D × ℕ). record { venue = p.0.venue; lag_ms = p.1; windows = p.0.windows })
        views)

module _ {D S : Type 0} ⦃dec : Decimal D⦄ where
  -- The view that `snapshot` pushes for a stream, of which the windows have been read.
  unfoldable pub venue_view :
      VenueId → VenueState D S → List (WindowReading D) → ℕ → IngestTime → VenueView D
  unfolding spread mid
  venue_view venue v windows depth_levels now =
      let book = v.book.book in
      let top = top_of_book book now in
      record {
        venue = venue;
        status = status_of book.state;
        integrity = integrity_shown top.state;
        desync_reason = reason_shown top.state;
        bid_level = top.bid_level;
        ask_level = top.ask_level;
        bids = top_levels book Side.bid depth_levels;
        asks = top_levels book Side.ask depth_levels;
        spread = then_do (spread top) dec.to_text;
        mid = then_do (mid top) dec.to_text;
        age_ms = then_do top.age millis;
        status_for_ms = millis (since now v.status_since);
        desynced_total_ms = millis (desynced_total_at v now);
        last_verified_ms = verified_shown top.state now;
        audits = v.book.audit_trail.audits;
        audit_mismatches = v.book.audit_trail.mismatches;
        levels_held = (length book.bids, length book.asks);
        windows = windows;
        last_trade = trade_shown v.last_trade now;
        counters = v.counters;
      }
