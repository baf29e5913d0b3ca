-- ===== src/Tests/Data.antt =====
-- Whole numbers as decimals, a toy venue, and some levels and moments.
use market_aggregator.Common.{
  ℕ, suc, ◌+◌, ◌-◌, ◌*◌, ◌/◌, true, false, none, some, List, [], ◌∷◌, refl, arith, Text, Result, ok,
  err, length, ◌==◌,
}
use market_aggregator.Core.Decimal.{Decimal}
use market_aggregator.Core.Time.{IngestTime, WallTime}
use market_aggregator.Core.Event.{VenueId, Level}
use market_aggregator.Core.Book.{Integrity}
use market_aggregator.Venues.Sync.{
  VenueSync, VenueError, FrameSource, RawFrame, RecoveryStrategy, SyncAction, Ingested, untimed,
}
use market_aggregator.Venues.Sync.Session.{IsLawful, AllPlain}

instance abbrev pub whole : Decimal ℕ
whole = record {
  rank = λ n. n;
  is_zero = λ n. n == 0;
  is_sign_negative = λ n. false;
  zero_decimal = 0;
  add = λ a b. a + b;
  sub = λ a b. a - b;
  mul = λ a b. a * b;
  div = λ a b. a / b;
  from_u32 = λ n. n;
  round_dp = λ n k. n;
  from_str = λ t. none;
  from_scientific = λ t. none;
  to_text = λ n. [];
}

abbrev pub lv : ℕ → ℕ → Level ℕ
lv p q = record { price = p; qty = q }

abbrev pub at_ms : ℕ → IngestTime
at_ms n = record { mono = n * 1000000; wall = WallTime.after_epoch (n * 1000000) }

abbrev pub some_bids : List (Level ℕ)
some_bids = lv 98 4 ∷ lv 97 0 ∷ lv 96 2 ∷ []

abbrev pub some_asks : List (Level ℕ)
some_asks = lv 101 5 ∷ lv 103 1 ∷ []

-- A venue that reads a first byte 1 as a snapshot, 2 as a delta that takes a level out and puts
-- another in, 3 as a checksum, and refuses the rest.
abbrev toy_parse : Text → Result (Ingested ℕ) VenueError
toy_parse [] = err VenueError.malformed
toy_parse (b ∷ bs) = elim (b == 1) [
  | true ↦ ok (untimed (SyncAction.snapshot some_bids some_asks ∷ []))
  | false ↦ elim (b == 2) [
    | true ↦ ok (untimed (SyncAction.delta (lv 98 0 ∷ lv 99 7 ∷ []) [] ∷ []))
    | false ↦ elim (b == 3) [
      | true ↦ ok (untimed (SyncAction.verify 4 ∷ []))
      | false ↦ err VenueError.malformed
    ]
  ]
]

abbrev pub toy : VenueSync ℕ ℕ
toy = record {
  venue = VenueId.fake;
  integrity = Integrity.verified;
  recovery = RecoveryStrategy.rest_recovery;
  ingest = λ s f. (suc s, toy_parse f.payload);
  checksum = λ s b. some (length b.bids + length b.asks);
  reset_sync = λ s. 0;
  parse_rest_snapshot = λ s body. ok (record { bids = some_bids; asks = some_asks; as_of = 7 });
  splice_rest_snapshot = λ s r. (s, SyncAction.snapshot r.bids r.asks ∷ []);
}

toy_parse-plain : (t : Text) → AllPlain (toy_parse t)
toy_parse-plain [] = tt
toy_parse-plain (b ∷ bs) = ground arith

pub toy-IsLawful : IsLawful toy
toy-IsLawful = record {
  reads = record { reads_sides = λ s t b c h k. rw (h, k) refl };
  ingest_plain = λ s f. toy_parse-plain f.payload;
  splice_plain = λ s r. (tt, tt);
}

abbrev pub toy_frame : FrameSource → ℕ → ℕ → RawFrame
toy_frame source byte now = record {
  stream = record { venue = VenueId.fake; symbol = 66 ∷ [] };
  payload = byte ∷ [];
  ingest_ts = at_ms now;
  source = source;
}
