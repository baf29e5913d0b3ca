-- ===== src/Core/Event.antt =====
-- crates/ma-core/src/event.rs and stream.rs: normalised events and what they are about.
pub mod Skew
use market_aggregator.Common.{
  ℕ, ◌+◌, ◌-◌, Option, none, some, List, Text, codes, ◌++◌, Result, ok, err, leb, if◌then◌else◌,
}
use market_aggregator.Core.Time.{IngestTime, WallTime}

pub data VenueId : Type 0 where
  coinbase kraken bitstamp fake : VenueId

-- `VenueId::as_str`.
unfoldable pub venue_str : VenueId → Text
venue_str VenueId.coinbase = codes "coinbase"
venue_str VenueId.kraken = codes "kraken"
venue_str VenueId.bitstamp = codes "bitstamp"
venue_str VenueId.fake = codes "fake"

pub data Side : Type 0 where
  bid ask : Side

pub record StreamId : Type 0 where
  pub venue : VenueId
  pub symbol : Text

-- `StreamId::key`.
unfoldable pub stream_key : StreamId → Text
unfolding venue_str
stream_key s = venue_str s.venue ++ codes ":" ++ s.symbol

-- A zero quantity deletes the level.
pub record Level (D : Type 0) : Type 0 where
  pub price : D
  pub qty : D

pub data EventKind (D : Type 0) : Type 0 where
  snapshot : List (Level D) → List (Level D) → EventKind D
  delta : List (Level D) → List (Level D) → EventKind D
  trade : D → D → Option Side → EventKind D
  checksum : ℕ → EventKind D
  heartbeat : Option ℕ → EventKind D

pub record MarketEvent (D : Type 0) : Type 0 where
  pub venue : VenueId
  pub symbol : Text
  pub venue_ts : Option WallTime
  pub ingest_ts : IngestTime
  pub kind : EventKind D

-- `SystemTime::duration_since`: how far after the other moment, or how far before it.
abbrev pub duration_since : WallTime → WallTime → Result ℕ ℕ
duration_since (WallTime.after_epoch a) (WallTime.after_epoch b) =
    if leb b a then ok (a - b) else err (b - a)
duration_since (WallTime.after_epoch a) (WallTime.before_epoch b) = ok (a + b + 1)
duration_since (WallTime.before_epoch a) (WallTime.after_epoch b) = err (a + 1 + b)
duration_since (WallTime.before_epoch a) (WallTime.before_epoch b) =
    if leb a b then ok (b - a) else err (a - b)

pub data SkewObservation : Type 0 where
  venue_ahead venue_behind : ℕ → SkewObservation

abbrev pub skew_of : Result ℕ ℕ → SkewObservation
skew_of (ok ahead) = SkewObservation.venue_ahead ahead
skew_of (err behind) = SkewObservation.venue_behind behind

-- `MarketEvent::clock_skew`.
unfoldable pub clock_skew : {D : Type 0} → MarketEvent D → Option SkewObservation
clock_skew e = elim e.venue_ts [
  | none ↦ none
  | some venue_ts ↦ some (skew_of (duration_since venue_ts e.ingest_ts.wall))
]
