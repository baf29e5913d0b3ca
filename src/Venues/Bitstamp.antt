-- ===== src/Venues/Bitstamp.antt =====
-- crates/ma-venues/src/venues/bitstamp.rs: diffs in order of time, spliced onto a REST snapshot.
pub mod Splice
pub mod Live
use market_aggregator.Common.{
  ℕ, Bool, true, false, Option, none, some, List, [], ◌∷◌, ◌++◌, Text, codes, text_eqb, Result, ok,
  err, ◌>>=◌, ok_or, leb, ltb, ◌==◌, keep_if, if◌then◌else◌,
}
use market_aggregator.Core.Decimal.{Decimal}
use market_aggregator.Core.Time.{WallTime}
use market_aggregator.Core.Event.{VenueId, Side, Level, EventKind}
use market_aggregator.Core.Book.{DesyncReason, Integrity}
use market_aggregator.Venues.Sync.{
  VenueSync, VenueError, RawFrame, RecoveryStrategy, RestSnapshot, SyncAction, Ingested, untimed,
  ignored,
}
use market_aggregator.Venues.Wire.{
  parse_u64, level_from_str_pair, levels_from_str_pairs, system_time_from_micros,
}

-- `J` is `serde_json::Value`.
pub record Envelope (J : Type 0) : Type 0 where
  pub event : Text
  pub channel : Text
  pub payload : J

pub record DiffData : Type 0 where
  pub microtimestamp : Text
  pub bids : List (Text × Text)
  pub asks : List (Text × Text)

-- The direction is `some 0`, `some 1`, or something else.
pub record TradeData : Type 0 where
  pub microtimestamp : Text
  pub price_str : Text
  pub amount_str : Text
  pub direction : Option ℕ

-- What the module calls of `serde_json`, which the repository does not contain.
pub record Json (J : Type 0) : Type 0 where
  pub envelope : Text → Option (Envelope J)
  pub diff_data : J → Option DiffData
  pub trade_data : J → Option TradeData
  pub rest_order_book : Text → Option DiffData

abbrev pub parse_micros : Text → Result ℕ VenueError
parse_micros raw = ok_or (parse_u64 raw) VenueError.malformed

pub record PendingDiff (D : Type 0) : Type 0 where
  pub micros : ℕ
  pub bids : List (Level D)
  pub asks : List (Level D)

pub data Mode (D : Type 0) : Type 0 where
  awaiting_snapshot : List (PendingDiff D) → Mode D
  live : ℕ → ℕ → Mode D

pub record BitstampSync (D : Type 0) : Type 0 where
  pub channel : Text
  pub trades_channel : Text
  pub mode : Mode D

abbrev pub taker_side : Option ℕ → Option Side
taker_side (some n) = if n == 0 then some Side.bid else if n == 1 then some Side.ask else none
taker_side none = none

module _ {D : Type 0} where
  -- `BitstampSync::new`.
  unfoldable pub new : Text → BitstampSync D
  new pair = record {
    channel = codes "diff_order_book_" ++ pair;
    trades_channel = codes "live_trades_" ++ pair;
    mode = Mode.awaiting_snapshot [];
  }

  -- `check_order`.
  abbrev pub check_order : ℕ → ℕ → ℕ × Option (DesyncReason D)
  check_order last micros =
      if leb micros last
      then (last, some (DesyncReason.timestamp_regression last micros))
      else (micros, none)

  abbrev pub diff_action : Option (DesyncReason D) → PendingDiff D → SyncAction D
  diff_action (some reason) d = SyncAction.desync reason
  diff_action none d = SyncAction.delta d.bids d.asks

  abbrev pub is_empty : List (PendingDiff D) → Bool
  is_empty [] = true
  is_empty (d ∷ ds) = false

  -- The match of `ingest` on the mode.
  unfoldable pub accept : Mode D → PendingDiff D → Mode D × SyncAction D
  accept (Mode.awaiting_snapshot pending) d = (
    Mode.awaiting_snapshot (pending ++ d ∷ []),
    (if is_empty pending
        then SyncAction.desync DesyncReason.awaiting_snapshot
        else SyncAction.ignore),
  )
  accept (Mode.live last spliced_at) d =
      if leb d.micros spliced_at
      then (Mode.live last spliced_at, SyncAction.ignore)
      else (let (last', reason) = check_order last d.micros in
          (Mode.live last' spliced_at, diff_action reason d))

  abbrev pub pending_of : Mode D → List (PendingDiff D)
  pending_of (Mode.awaiting_snapshot pending) = pending
  pending_of (Mode.live last spliced_at) = []

  -- `sort_by_key`, which is stable.
  unfoldable pub sort_one : PendingDiff D → List (PendingDiff D) → List (PendingDiff D)
  sort_one d [] = d ∷ []
  sort_one d (e ∷ es) =
      let rest = sort_one d es in if leb d.micros e.micros then d ∷ e ∷ es else e ∷ rest

  unfoldable pub sort_diffs : List (PendingDiff D) → List (PendingDiff D)
  unfolding sort_one
  sort_diffs [] = []
  sort_diffs (d ∷ ds) = sort_one d (sort_diffs ds)

  -- The loop over the survivors: the last timestamp, and the actions.
  unfoldable pub splice_from : ℕ → List (PendingDiff D) → ℕ × List (SyncAction D)
  splice_from last [] = (last, [])
  splice_from last (d ∷ ds) =
      let (last', reason) = check_order last d.micros in
      let (end, rest) = splice_from last' ds in (end, diff_action reason d ∷ rest)

  abbrev pub survivors : ℕ → List (PendingDiff D) → List (PendingDiff D)
  survivors as_of pending = sort_diffs (keep_if (λ d. ltb as_of d.micros) pending)

  -- `apply_rest_snapshot`.
  unfoldable pub splice : BitstampSync D → RestSnapshot D → BitstampSync D × List (SyncAction D)
  unfolding splice_from sort_diffs
  splice s snap =
      let (last, actions) = splice_from snap.as_of (survivors snap.as_of (pending_of s.mode)) in
      (
        record s { mode = Mode.live last snap.as_of },
        SyncAction.snapshot snap.bids snap.asks ∷ actions,
      )

module _ {D J : Type 0} ⦃dec : Decimal D⦄ (json : Json J) where
  -- `parse_rest_snapshot`.
  unfoldable pub parse_rest_snapshot : Text → Result (RestSnapshot D) VenueError
  parse_rest_snapshot body = ok_or (json.rest_order_book body) VenueError.malformed >>= (λ parsed.
      parse_micros parsed.microtimestamp >>= (λ as_of.
        levels_from_str_pairs parsed.bids >>= (λ bids.
          levels_from_str_pairs parsed.asks
          >>= (λ asks. ok (record { bids = bids; asks = asks; as_of = as_of })))))

  -- The branch of `ingest` for a print.
  unfoldable pub read_trade : J → Result (Ingested D) VenueError
  read_trade data_value = ok_or (json.trade_data data_value) VenueError.malformed >>= (λ t.
      parse_micros t.microtimestamp >>= (λ micros.
        level_from_str_pair t.price_str t.amount_str >>= (λ (l : Level D). ok (record {
          actions =
              SyncAction.forward (EventKind.trade l.price l.qty (taker_side t.direction)) ∷ [];
          venue_ts = some (system_time_from_micros micros);
        }))))

  unfoldable pub read_diff : J → Result (PendingDiff D) VenueError
  read_diff data_value = ok_or (json.diff_data data_value) VenueError.malformed >>= (λ t.
      parse_micros t.microtimestamp >>= (λ micros. levels_from_str_pairs t.bids >>= (λ bids.
        levels_from_str_pairs t.asks
        >>= (λ asks. ok (record { micros = micros; bids = bids; asks = asks })))))

  abbrev pub take_diff :
      BitstampSync D
      → Result (PendingDiff D) VenueError
      → BitstampSync D × Result (Ingested D) VenueError
  take_diff s (err e) = (s, err e)
  take_diff s (ok d) =
      let (m, action) = accept s.mode d in
      (
        record s { mode = m },
        ok (record { actions = action ∷ []; venue_ts = some (system_time_from_micros d.micros) }),
      )

  abbrev pub ingest_envelope :
      BitstampSync D → Option (Envelope J) → BitstampSync D × Result (Ingested D) VenueError
  ingest_envelope s none = (s, err VenueError.malformed)
  ingest_envelope s (some e) =
      if text_eqb e.event (codes "trade")
      then (if text_eqb e.channel s.trades_channel
          then (s, read_trade e.payload)
          else (s, err VenueError.malformed))
      else if text_eqb e.event (codes "data")
      then (if text_eqb e.channel s.channel
          then take_diff s (read_diff e.payload)
          else (s, err VenueError.malformed))
      else (s, ok ignored)

  -- `impl VenueSync for BitstampSync`.
  abbrev pub bitstamp : VenueSync D (BitstampSync D)
  bitstamp = record {
    venue = VenueId.bitstamp;
    integrity = Integrity.order_only;
    recovery = RecoveryStrategy.rest_recovery;
    ingest = λ s f. ingest_envelope s (json.envelope f.payload);
    checksum = λ s b. none;
    reset_sync = λ s. record s { mode = Mode.awaiting_snapshot [] };
    parse_rest_snapshot = λ s body. parse_rest_snapshot body;
    splice_rest_snapshot = splice;
  }
