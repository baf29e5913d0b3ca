-- ===== src/Tests/Feeds.antt =====
-- Streams of Coinbase and Kraken with numbers as decimals, and the theorems about them.
use market_aggregator.Common.{
  ℕ, true, false, Bool, List, ◌⊎◌, ◌&&◌, ltb, Option, none, some, [], ◌∷◌, ◌≡◌, ◌≢◌, ◌↔◌, refl,
  arith, codes, Text, length, if◌then◌else◌, ◌==◌,
}
use market_aggregator.Common.Int.{pos, ◌+ℤ◌, ◌*ℤ◌, ◌-ℤ◌}
use market_aggregator.Core.Book.{
  apply_snapshot, guard_crossed, prune, best, top_levels, mark_verified, new, is_live,
}
use market_aggregator.Core.Levels.{load_levels, load_level, insert}
use market_aggregator.Core.Decimal.{qty_from_decimal}
use market_aggregator.Venues.Sync.{
  FrameSource, VenueBook, Outcome, opened, started, feed, apply_ingested, apply_actions,
  apply_action, check,
}
use market_aggregator.Venues.Sync.Replay.{events_of, replay}
use market_aggregator.Venues.Sync.Session.{Input, session, outcomes_of}
use market_aggregator.Venues.Rfc3339.{
  Parsed, parse_rfc3339, days_from_civil, from_march, parse_i64, read_fraction, leading_digits,
  read_offset, split_colon,
}
use market_aggregator.Venues.Rfc3339.Civil.{days_from_civil-tomorrow}
use market_aggregator.Venues.Rfc3339.Unwind.{IsAscii, parse_rfc3339-returns}
use market_aggregator.Venues.Wire.{parse_u64, parse_digits}
use market_aggregator.Core.Time.{WallTime}
use market_aggregator.Venues.Coinbase
use market_aggregator.Venues.Coinbase.Sequence.{
  Consecutive, GapFree, GapFree-Consecutive, Stopped, feed-gap,
}
use market_aggregator.Venues.Kraken
use market_aggregator.Venues.Kraken.Live.{kraken-replay}
use market_aggregator.Venues.Kraken.Verified.{feed-verified}
use market_aggregator.Tests.Data.{whole, at_ms, toy_frame}

-- 2024-02-28 is followed by a leap day.
days_from_civil-tomorrow_example :
    (days_from_civil (pos 2024) 2 29 ≡ days_from_civil (pos 2024) 2 28 +ℤ pos 1)
    × (days_from_civil (pos 1970) 1 1 ≡ pos 0)
days_from_civil-tomorrow_example =
    days_from_civil-tomorrow 2024 2 28
      (omega arith, omega arith, omega arith, omega arith, omega arith)

parsed_instant :
    parse_rfc3339 (codes "1970-01-02T01:00:01.5+01:00")
    ≡ Parsed.found (WallTime.after_epoch 86401500000000)
unfolding parse_rfc3339 days_from_civil from_march parse_i64 read_fraction leading_digits
    read_offset split_colon parse_u64 parse_digits ◌+ℤ◌ ◌*ℤ◌ ◌-ℤ◌
parsed_instant = refl

abbrev all_small : Text → Bool
all_small [] = true
all_small (b ∷ bs) = ltb b 128 && all_small bs

all_small-IsAscii : (t : Text) → all_small t ≡ true → IsAscii t
all_small-IsAscii [] h = tt
all_small-IsAscii (b ∷ bs) h = (ground (arith, h), all_small-IsAscii bs (ground (arith, h)))

parse_rfc3339-returns_example : parse_rfc3339 (codes "2026-08-09T12:34:56.25-0430") ≢ Parsed.unwinds
parse_rfc3339-returns_example =
    parse_rfc3339-returns (codes "2026-08-09T12:34:56.25-0430")
      (all_small-IsAscii (codes "2026-08-09T12:34:56.25-0430") refl)

-- The offset is a digit, the two bytes of a copyright sign and a digit.
abbrev noon : Text
noon = codes "2026-08-09T12:34:56"

-- A decoder that reads the first byte of a frame as the number of a heartbeat message.
abbrev beat : ℕ → Coinbase.Envelope (Unit {0})
beat n = record { channel = codes "heartbeats"; sequence_num = n; timestamp = none; events = [] }

abbrev first_byte : Text → Option (Coinbase.Envelope (Unit {0}))
first_byte [] = none
first_byte (b ∷ bs) = some (beat b)

abbrev beats : Coinbase.Json (Unit {0})
beats = record {
  envelope = first_byte;
  l2_event = λ j. none;
  heartbeat_event = λ j. some 1;
  trades_event = λ j. none;
  product_book = λ t. none;
}

GapFree-Consecutive_example :
    GapFree ℕ beats (Coinbase.new (codes "BTC-USD")) (beat 7 ∷ beat 8 ∷ beat 9 ∷ [])
    ↔ Consecutive (7 ∷ 8 ∷ 9 ∷ [])
GapFree-Consecutive_example =
    GapFree-Consecutive ℕ beats (codes "BTC-USD") (beat 7 ∷ beat 8 ∷ beat 9 ∷ [])
      (tt, (tt, (tt, tt)))

abbrev expecting : VenueBook ℕ Coinbase.CoinbaseSync
expecting =
    record (opened (Coinbase.coinbase beats) (Coinbase.new (codes "BTC-USD")) (codes "BTC")) {
      sync = record { product_id = codes "BTC-USD"; expected_seq = some 8 };
    }

feed-gap_example :
    Stopped beats expecting.book
      (feed (Coinbase.coinbase beats) expecting (toy_frame FrameSource.web_socket 9 1)).0.book
feed-gap_example =
    feed-gap beats expecting (toy_frame FrameSource.web_socket 9 1) (beat 9) 8 refl refl tt refl
      (ground arith)

-- A decoder that sees one snapshot in every frame whose first byte is 1 and a heartbeat in others.
-- Numbers have no digits here, so each counts as "0", and the checksum is the length of the text.
abbrev entry : Kraken.BookData ℕ
entry = record {
  symbol = codes "BTC/USD";
  bids = record { price = 98; qty = 4 } ∷ [];
  asks = record { price = 101; qty = 5 } ∷ record { price = 103; qty = 1 } ∷ [];
  checksum_value = some 6;
  timestamp = none;
}

abbrev book_message : Kraken.Envelope (Unit {0})
book_message = record {
  channel = some (codes "book");
  kind = some (codes "snapshot");
  payload = some tt;
}

abbrev other_message : Kraken.Envelope (Unit {0})
other_message = record { channel = some (codes "heartbeat"); kind = none; payload = none }

abbrev message : Text → Option (Kraken.Envelope (Unit {0}))
message [] = none
message (b ∷ bs) = if b == 1 then some book_message else some other_message

abbrev snapshots : Kraken.Calls ℕ (Unit {0})
snapshots = record {
  envelope = message;
  book_entries = λ j. some (entry ∷ []);
  trade_entries = λ j. none;
  crc32 = λ t. length t;
}

abbrev unread : VenueBook ℕ Kraken.KrakenSync
unread = opened (Kraken.kraken snapshots) (Kraken.new (codes "BTC/USD")) (codes "BTC")

abbrev read_once : VenueBook ℕ Kraken.KrakenSync
read_once = (feed (Kraken.kraken snapshots) unread (toy_frame FrameSource.web_socket 1 1)).0

feed-verified_example : Kraken.checksum snapshots read_once.book ≡ 6
unfolding feed apply_ingested apply_actions apply_action check apply_snapshot guard_crossed prune
    best top_levels opened Kraken.new Kraken.channel_frame Kraken.book_frame Kraken.read_book
    Kraken.entry_actions Kraken.to_levels qty_from_decimal new load_levels load_level insert
    Kraken.checksum_text mark_verified
feed-verified_example =
    feed-verified snapshots unread (toy_frame FrameSource.web_socket 1 1) book_message [] entry 6
      (outcomes_of (feed (Kraken.kraken snapshots) unread (toy_frame FrameSource.web_socket 1 1)).1)
      refl refl refl refl refl refl refl refl

-- Two snapshots with a lost connection between them, on a book of ten levels.
abbrev kraken_inputs : List Input
kraken_inputs =
    Input.arrived (toy_frame FrameSource.web_socket 1 1)
    ∷ Input.reconnected (at_ms 2)
    ∷ Input.arrived (toy_frame FrameSource.web_socket 1 3)
    ∷ []

abbrev ten_deep : VenueBook ℕ Kraken.KrakenSync
ten_deep = started (Kraken.kraken snapshots) (some 10) (Kraken.new (codes "BTC/USD")) (codes "BTC")

abbrev ten_lived : VenueBook ℕ Kraken.KrakenSync × List (Outcome ℕ)
ten_lived = session (Kraken.kraken snapshots) ten_deep kraken_inputs

abbrev ten_replayed : VenueBook ℕ Kraken.KrakenSync
ten_replayed = replay (Kraken.kraken snapshots) ten_deep (events_of ten_lived.1)

kraken-replay_example :
    (ten_replayed.book.bids ≡ ten_lived.0.book.bids)
    × (ten_replayed.book.asks ≡ ten_lived.0.book.asks)
    × ((is_live ten_lived.0.book.state ≡ false) ⊎ (is_live ten_replayed.book.state ≡ true))
kraken-replay_example =
    kraken-replay snapshots (some 10) (codes "BTC/USD") (codes "BTC") kraken_inputs
