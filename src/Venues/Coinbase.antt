-- ===== src/Venues/Coinbase.antt =====
-- crates/ma-venues/src/venues/coinbase.rs: one count of messages over all channels of a connection.
pub mod Sequence
pub mod Live
use market_aggregator.Common.{
  ℕ, ◌+◌, ◌%◌, ◌^◌, Bool, true, false, Option, none, some, List, [], ◌∷◌, ◌++◌, Text, codes,
  text_eqb, Result, ok, err, ◌>>=◌, ok_or, ◌==◌, if◌then◌else◌,
}
use market_aggregator.Core.Decimal.{Decimal}
use market_aggregator.Core.Time.{WallTime}
use market_aggregator.Core.Event.{VenueId, Side, Level, EventKind}
use market_aggregator.Core.Book.{DesyncReason, Integrity}
use market_aggregator.Venues.Sync.{
  VenueSync, VenueError, RecoveryStrategy, RestSnapshot, SyncAction, Ingested,
}
use market_aggregator.Venues.Wire.{level_from_str_pair, levels_from_str_pairs}
use market_aggregator.Venues.Rfc3339.{stamp_of}

-- `J` is `serde_json::Value`.
pub record Envelope (J : Type 0) : Type 0 where
  pub channel : Text
  pub sequence_num : ℕ
  pub timestamp : Option Text
  pub events : List J

pub data L2Kind : Type 0 where
  snapshot update : L2Kind

pub record L2Update : Type 0 where
  pub side : Side
  pub price_level : Text
  pub new_quantity : Text

pub record L2Event : Type 0 where
  pub kind : L2Kind
  pub product_id : Text
  pub updates : List L2Update

-- The field `side` as `Side::from` maps it: the aggressor's.
pub record WireTrade : Type 0 where
  pub product_id : Text
  pub price_str : Text
  pub size_str : Text
  pub taker_side : Option Side

pub record TradesEvent : Type 0 where
  pub kind : L2Kind
  pub trades : List WireTrade

-- A level of `PriceBook` is the pair of its price and its size.
pub record PriceBook : Type 0 where
  pub bids : List (Text × Text)
  pub asks : List (Text × Text)

-- What the module calls of `serde_json`, which the repository does not contain. A
-- `HeartbeatEvent` is its counter.
pub record Json (J : Type 0) : Type 0 where
  pub envelope : Text → Option (Envelope J)
  pub l2_event : J → Option L2Event
  pub heartbeat_event : J → Option ℕ
  pub trades_event : J → Option TradesEvent
  pub product_book : Text → Option PriceBook

pub record CoinbaseSync : Type 0 where
  pub product_id : Text
  pub expected_seq : Option ℕ

-- `CoinbaseSync::new`.
unfoldable pub new : Text → CoinbaseSync
new product_id = record { product_id = product_id; expected_seq = none }

module _ {D : Type 0} where
  -- The match of `check_seq` on the number that was expected.
  abbrev pub seq_gap : Option ℕ → ℕ → Option (DesyncReason D)
  seq_gap none seq = none
  seq_gap (some expected) seq =
      if seq == expected then none else some (DesyncReason.sequence_gap expected seq)

  -- `check_seq`; `seq + 1` wraps in a release build.
  unfoldable pub check_seq : CoinbaseSync → ℕ → CoinbaseSync × Option (DesyncReason D)
  check_seq s seq =
      (record s { expected_seq = some ((seq + 1) % 2 ^ 64) }, seq_gap s.expected_seq seq)

  abbrev pub put_side :
      Side → Level D → List (Level D) × List (Level D) → List (Level D) × List (Level D)
  put_side Side.bid l (bids, asks) = (l ∷ bids, asks)
  put_side Side.ask l (bids, asks) = (bids, l ∷ asks)

  abbrev pub l2_action : L2Kind → List (Level D) × List (Level D) → SyncAction D
  l2_action L2Kind.snapshot (bids, asks) = SyncAction.snapshot bids asks
  l2_action L2Kind.update (bids, asks) = SyncAction.delta bids asks

module _ {D : Type 0} ⦃dec : Decimal D⦄ where
  -- `split_updates`; the first update that fails decides.
  unfoldable pub split_updates : List L2Update → Result (List (Level D) × List (Level D)) VenueError
  split_updates [] = ok ([], [])
  split_updates (u ∷ us) =
      let rest = split_updates us in
      level_from_str_pair u.price_level u.new_quantity
      >>= (λ l. rest >>= (λ sides. ok (put_side u.side l sides)))

  -- The loop over the prints of one event.
  unfoldable pub read_prints : Text → List WireTrade → Result (List (SyncAction D)) VenueError
  read_prints product [] = ok []
  read_prints product (t ∷ ts) =
      let rest = read_prints product ts in
      if text_eqb t.product_id product
      then level_from_str_pair t.price_str t.size_str >>= (λ (l : Level D).
        rest
        >>= (λ as'. ok (SyncAction.forward (EventKind.trade l.price l.qty t.taker_side) ∷ as')))
      else rest

  abbrev pub trades_actions : Text → TradesEvent → Result (List (SyncAction D)) VenueError
  trades_actions product e = elim e.kind [
    | L2Kind.snapshot ↦ ok (SyncAction.ignore ∷ [])
    | L2Kind.update ↦ read_prints product e.trades
  ]

  abbrev pub l2_actions : Text → L2Event → Result (List (SyncAction D)) VenueError
  l2_actions product e =
      if text_eqb e.product_id product
      then split_updates e.updates >>= (λ sides. ok (l2_action e.kind sides ∷ []))
      else ok []

module _ {D J : Type 0} ⦃dec : Decimal D⦄ (json : Json J) where
  -- The three loops over `envelope.events`.
  unfoldable pub read_l2 : Text → List J → Result (List (SyncAction D)) VenueError
  read_l2 product [] = ok []
  read_l2 product (j ∷ js) =
      let rest = read_l2 product js in
      ok_or (json.l2_event j) VenueError.malformed
      >>= (λ e. l2_actions product e >>= (λ as'. rest >>= (λ bs. ok (as' ++ bs))))

  unfoldable pub read_heartbeats : List J → Result (List (SyncAction D)) VenueError
  read_heartbeats [] = ok []
  read_heartbeats (j ∷ js) =
      let rest = read_heartbeats js in
      ok_or (json.heartbeat_event j) VenueError.malformed
      >>= (λ n. rest >>= (λ bs. ok (SyncAction.forward (EventKind.heartbeat (some n)) ∷ bs)))

  unfoldable pub read_trades : Text → List J → Result (List (SyncAction D)) VenueError
  read_trades product [] = ok []
  read_trades product (j ∷ js) =
      let rest = read_trades product js in
      ok_or (json.trades_event j) VenueError.malformed
      >>= (λ e. trades_actions product e >>= (λ as'. rest >>= (λ bs. ok (as' ++ bs))))

  -- The match of `ingest` on the channel.
  unfoldable pub channel_actions : Text → Envelope J → Result (List (SyncAction D)) VenueError
  channel_actions product e =
      if text_eqb e.channel (codes "l2_data")
      then read_l2 product e.events
      else if text_eqb e.channel (codes "heartbeats")
      then read_heartbeats e.events
      else if text_eqb e.channel (codes "market_trades")
      then read_trades product e.events
      else ok (SyncAction.ignore ∷ [])

  abbrev pub stamped : Option WallTime → List (SyncAction D) → Ingested D
  stamped venue_ts actions = record { actions = actions; venue_ts = venue_ts }

  -- What `ingest` answers, given what `check_seq` found.
  abbrev pub answer :
      Text → Envelope J → Option WallTime → Option (DesyncReason D) → Result (Ingested D) VenueError
  answer product e venue_ts (some reason) = ok (stamped venue_ts (SyncAction.desync reason ∷ []))
  answer product e venue_ts none =
      channel_actions product e >>= (λ actions. ok (stamped venue_ts actions))

  abbrev pub ingest_envelope :
      CoinbaseSync → Option (Envelope J) → CoinbaseSync × Result (Ingested D) VenueError
  ingest_envelope s none = (s, err VenueError.malformed)
  ingest_envelope s (some e) = elim (stamp_of e.timestamp) [
    | err x ↦ (s, err x)
    | ok venue_ts ↦
        let (s', reason) = check_seq s e.sequence_num in (s', answer s.product_id e venue_ts reason)
  ]

  -- `parse_rest_snapshot`.
  unfoldable pub parse_rest_snapshot : Text → Result (RestSnapshot D) VenueError
  parse_rest_snapshot body = ok_or (json.product_book body) VenueError.malformed >>= (λ parsed.
      levels_from_str_pairs parsed.bids >>= (λ bids.
        levels_from_str_pairs parsed.asks
        >>= (λ asks. ok (record { bids = bids; asks = asks; as_of = 0 }))))

  -- `impl VenueSync for CoinbaseSync`. The default of `apply_rest_snapshot` stops a debug build at an
  -- assertion; a release build does nothing.
  abbrev pub coinbase : VenueSync D CoinbaseSync
  coinbase = record {
    venue = VenueId.coinbase;
    integrity = Integrity.gap_detectable;
    recovery = RecoveryStrategy.resubscribe;
    ingest = λ s f. ingest_envelope s (json.envelope f.payload);
    checksum = λ s b. none;
    reset_sync = λ s. record s { expected_seq = none };
    parse_rest_snapshot = λ s body. parse_rest_snapshot body;
    splice_rest_snapshot = λ s snap. (s, []);
  }
