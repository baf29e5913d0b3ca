-- ===== src/Tests/Touches.antt =====
-- Two venues and a third that has lost its stream, and the theorems about their touch.
use market_aggregator.Common.{
  ℕ, map, ◌<◌, ap, Option, true, false, none, some, List, [], ◌∷◌, ◌≡◌, refl, arith, length,
}
use market_aggregator.Core.Event.{VenueId, ask, Level}
use market_aggregator.Core.Cross.Single.{is_single_venue-consolidate}
use market_aggregator.Core.Book.{BookState, DesyncReason, Integrity, TopOfBook}
use market_aggregator.Core.Cross.{
  CrossVenue, ExclusionReason, default_policy, consolidate, tally, is_single_venue, is_crossed,
}
use market_aggregator.Core.Cross.Best.{IsBest, side_leg, consolidate-IsBest}
use market_aggregator.Core.Window.{RollingWindows, charge, charge_from}
use market_aggregator.Core.Window.Reading.{
  WindowReading, new, observe, read, read_span, add_buckets,
}
use market_aggregator.Core.Window.Rounds.{IsSome}
use market_aggregator.Core.Window.Charge.{charge-returns}
use market_aggregator.Tests.Data.{whole, lv, at_ms}

abbrev shown : ℕ → ℕ → BookState ℕ → TopOfBook ℕ
shown b a state = record {
  bid_level = some (lv b 1);
  ask_level = some (lv a 2);
  state = state;
  age = some 5000000;
}

-- The stale bid of 120 at the third venue must not count.
abbrev quotes : List (VenueId × TopOfBook ℕ)
quotes =
    (VenueId.bitstamp, shown 98 101 (BookState.live Integrity.order_only (at_ms 1) none))
    ∷ (VenueId.coinbase, shown 103 105 (BookState.live Integrity.gap_detectable (at_ms 1) none))
    ∷ (VenueId.kraken, shown 120 121 (BookState.desynced (at_ms 1) DesyncReason.connection_lost))
    ∷ []

abbrev touch : CrossVenue ℕ
touch = consolidate quotes default_policy

touch_legs :
    (touch.bid_leg
      ≡ some (record {
        venue = VenueId.coinbase;
        price = 103;
        qty = 1;
        age_ms = 5;
        integrity = Integrity.gap_detectable;
      }))
    × (touch.integrity_floor ≡ some Integrity.order_only)
    × (touch.venues_used ≡ 2)
    × (touch.excluded ≡ record { venue = VenueId.kraken; reason = ExclusionReason.untrusted } ∷ [])
    × (is_crossed touch ≡ true)
unfolding consolidate tally is_crossed
touch_legs = (refl, refl, refl, refl, refl)

consolidate-IsBest_example : IsBest default_policy ask quotes (side_leg ask touch)
consolidate-IsBest_example = consolidate-IsBest quotes default_policy ask

-- One live venue beside the lost one: both legs are its own.
abbrev lone : List (VenueId × TopOfBook ℕ)
lone =
    (VenueId.coinbase, shown 103 105 (BookState.live Integrity.gap_detectable (at_ms 1) none))
    ∷ (VenueId.kraken, shown 120 121 (BookState.desynced (at_ms 1) DesyncReason.connection_lost))
    ∷ []

is_single_venue-consolidate_example : is_crossed (consolidate lone default_policy) ≡ false
unfolding consolidate tally is_single_venue
is_single_venue-consolidate_example =
    is_single_venue-consolidate (λ a b. (λ h. omega arith, λ h. omega arith)) lone default_policy
      ((refl, tt), (tt, tt)) (own 103 105 (omega arith), (dead, tt)) refl
  where
    own :
        (m n : ℕ)
        → m < n
        → true ≡ true
        → (b a : Level ℕ) → some (lv m 1) ≡ some b
        → some (lv n 2) ≡ some a
        → b.price < a.price
    own m n h live b a e k = omega (arith, h, ap level_price e, ap level_price k)
      where
        level_price : Option (Level ℕ) → ℕ
        level_price none = 0
        level_price (some l) = l.price

    dead :
        false ≡ true
        → (b a : Level ℕ) → some (lv 120 1) ≡ some b
        → some (lv 121 2) ≡ some a
        → b.price < a.price
    dead live b a e k = cc

-- Windows of two milliseconds, and a book read for the first time a second later.
abbrev windows : RollingWindows ℕ
windows = new (record { resolution = 1000000; spans = 2000000 ∷ [] }) (at_ms 1)

three_slots : length windows.buckets ≡ 3
unfolding new
three_slots = refl

charge-returns_example : IsSome (charge windows (at_ms 1001))
unfolding new
charge-returns_example =
    charge-returns windows (at_ms 1001) (record { resolved = omega arith; in_time = omega arith })
      (omega arith) (omega arith) (omega arith)

-- A book seen live at 1 ms, and read at 4 ms: two whole buckets, trusted.
unfoldable coverage : Option (RollingWindows ℕ × List (WindowReading ℕ)) → List (ℕ × ℕ)
coverage none = []
coverage (some (w, rs)) = map (λ r. (r.span_ms, r.trusted_ms)) rs

unfoldable seen_then_read :
    Option (RollingWindows ℕ) → Option (RollingWindows ℕ × List (WindowReading ℕ))
seen_then_read none = none
seen_then_read (some w) = read w (at_ms 4)

full_coverage :
    coverage (
      seen_then_read (
        observe windows
          (shown 98 101 (BookState.live Integrity.verified (at_ms 1) none))
          (at_ms 1)))
    ≡ (2, 2) ∷ []
unfolding new read observe charge charge_from read_span add_buckets coverage seen_then_read
full_coverage = refl
