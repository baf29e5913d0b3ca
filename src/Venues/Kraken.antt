-- ===== src/Venues/Kraken.antt =====
-- crates/ma-venues/src/venues/kraken.rs: no count of messages, but a checksum of the book built.
pub mod Live
pub mod Verified
use market_aggregator.Common.{
  ℕ, Bool, true, false, not, Option, none, some, List, [], ◌∷◌, ◌++◌, Text, codes, text_eqb,
  keep_if, Result, ok, err, ◌>>=◌, ok_or, ◌==◌, if◌then◌else◌,
}
use market_aggregator.Core.Decimal.{Decimal, qty_from_decimal}
use market_aggregator.Core.Time.{WallTime}
use market_aggregator.Core.Event.{VenueId, Side, bid, ask, Level, EventKind}
use market_aggregator.Core.Book.{Book, Integrity, top_levels}
use market_aggregator.Venues.Sync.{
  VenueSync, VenueError, RecoveryStrategy, SyncAction, Ingested, untimed, ignored,
}
use market_aggregator.Venues.Rfc3339.{stamp_of}

-- `J` is `RawValue`, the text of a JSON value.
pub record Envelope (J : Type 0) : Type 0 where
  pub channel : Option Text
  pub kind : Option Text
  pub payload : Option J

pub record WireLevel (D : Type 0) : Type 0 where
  pub price : D
  pub qty : D

pub record BookData (D : Type 0) : Type 0 where
  pub symbol : Text
  pub bids : List (WireLevel D)
  pub asks : List (WireLevel D)
  pub checksum_value : Option ℕ
  pub timestamp : Option Text

pub record TradeData (D : Type 0) : Type 0 where
  pub symbol : Text
  pub price : D
  pub qty : D
  pub side_name : Option Text
  pub timestamp : Option Text

-- What the module calls of `serde_json` and `crc32fast`, which the repository does not contain.
-- The numbers of a frame come with the digits that were sent.
pub record Calls (D J : Type 0) : Type 0 where
  pub envelope : Text → Option (Envelope J)
  pub book_entries : J → Option (List (BookData D))
  pub trade_entries : J → Option (List (TradeData D))
  pub crc32 : Text → ℕ

pub record KrakenSync : Type 0 where
  pub symbol : Text

-- `KrakenSync::new`.
unfoldable pub new : Text → KrakenSync
new symbol = record { symbol = symbol }

abbrev pub taker_side : Option Text → Option Side
taker_side none = none
taker_side (some t) =
    if text_eqb t (codes "buy")
    then some Side.bid
    else if text_eqb t (codes "sell")
    then some Side.ask
    else none

-- `trim_start_matches('0')`.
abbrev pub trim_zeros : Text → Text
trim_zeros [] = []
trim_zeros (b ∷ bs) = let rest = trim_zeros bs in if b == b'0' then rest else b ∷ bs

abbrev pub or_zero : Text → Text
or_zero [] = codes "0"
or_zero (b ∷ bs) = b ∷ bs

-- What `push_digits` appends.
unfoldable pub digits_of : Text → Text
digits_of rendered = or_zero (trim_zeros (keep_if (λ b. not (b == b'.')) rendered))

-- `a.or(b)`.
abbrev pub or_else : {A : Type 0} → Option A → Option A → Option A
or_else (some a) o = some a
or_else none o = o

module _ {D : Type 0} where
  -- The match on `kind` for an entry of a book message.
  abbrev pub kind_action : Text → List (Level D) → List (Level D) → Result (SyncAction D) VenueError
  kind_action kind bids asks =
      if text_eqb kind (codes "snapshot")
      then ok (SyncAction.snapshot bids asks)
      else if text_eqb kind (codes "update")
      then ok (SyncAction.delta bids asks)
      else err VenueError.malformed

  abbrev pub verify_action : Option ℕ → List (SyncAction D)
  verify_action none = []
  verify_action (some c) = SyncAction.verify c ∷ []

  abbrev pub pushed :
      List (SyncAction D)
      → List (SyncAction D) × Option WallTime
      → Result (List (SyncAction D) × Option WallTime) VenueError
  pushed as' (bs, t) = ok (as' ++ bs, t)

  abbrev pub at_time : List (SyncAction D) × Option WallTime → Result (Ingested D) VenueError
  at_time (actions, venue_ts) = ok (record { actions = actions; venue_ts = venue_ts })

module _ {D : Type 0} ⦃dec : Decimal D⦄ where
  -- `to_levels`; the first quantity that fails decides.
  unfoldable pub to_levels : List (WireLevel D) → Result (List (Level D)) VenueError
  to_levels [] = ok []
  to_levels (w ∷ ws) =
      let rest = to_levels ws in
      ok_or (qty_from_decimal w.qty) VenueError.malformed
      >>= (λ q. rest >>= (λ ls. ok (record { price = w.price; qty = q } ∷ ls)))

  -- One loop of `checksum`.
  unfoldable pub push_levels : List (Level D) → Text
  unfolding digits_of
  push_levels [] = []
  push_levels (l ∷ ls) =
      digits_of (dec.to_text l.price) ++ digits_of (dec.to_text l.qty) ++ push_levels ls

  -- The text that `checksum` hashes.
  unfoldable pub checksum_text : Book D → Text
  unfolding push_levels
  checksum_text b = push_levels (top_levels b ask 10) ++ push_levels (top_levels b bid 10)

  -- One turn of the loop over the entries of a book message, for an entry of this symbol.
  unfoldable pub entry_actions : Text → BookData D → Result (List (SyncAction D)) VenueError
  entry_actions kind e = to_levels e.bids >>= (λ bids.
      to_levels e.asks
      >>= (λ asks. kind_action kind bids asks >>= (λ a. ok (a ∷ verify_action e.checksum_value))))

  abbrev pub trade_action : TradeData D → Result (SyncAction D) VenueError
  trade_action e =
      ok_or (qty_from_decimal e.qty) VenueError.malformed
      >>= (λ q. ok (SyncAction.forward (EventKind.trade e.price q (taker_side e.side_name))))

  -- The loops over the entries: the actions, and the last timestamp that is read.
  unfoldable pub read_book :
      Text
      → Text
      → Option WallTime
      → List (BookData D)
      → Result (List (SyncAction D) × Option WallTime) VenueError
  read_book symbol kind venue_ts [] = ok ([], venue_ts)
  read_book symbol kind venue_ts (e ∷ es) =
      let rest = λ (t : Option WallTime). read_book symbol kind t es in
      if text_eqb e.symbol symbol
      then stamp_of e.timestamp
        >>= (λ t. entry_actions kind e >>= (λ as'. rest (or_else t venue_ts) >>= pushed as'))
      else rest venue_ts

  unfoldable pub read_trades :
      Text
      → Option WallTime
      → List (TradeData D)
      → Result (List (SyncAction D) × Option WallTime) VenueError
  read_trades symbol venue_ts [] = ok ([], venue_ts)
  read_trades symbol venue_ts (e ∷ es) =
      let rest = λ (t : Option WallTime). read_trades symbol t es in
      if text_eqb e.symbol symbol
      then stamp_of e.timestamp
        >>= (λ t. trade_action e >>= (λ a. rest (or_else t venue_ts) >>= pushed (a ∷ [])))
      else rest venue_ts

module _ {D J : Type 0} ⦃dec : Decimal D⦄ (calls : Calls D J) where
  -- `data`, parsed from its text.
  abbrev pub parsed : {A : Type 0} → (J → Option A) → Option J → Result A VenueError
  parsed f payload = ok_or payload VenueError.malformed >>= (λ j. ok_or (f j) VenueError.malformed)

  -- The arm "book" of `ingest`.
  unfoldable pub book_frame : Text → Envelope J → Result (Ingested D) VenueError
  book_frame symbol e = ok_or e.kind VenueError.malformed >>= (λ kind.
      parsed calls.book_entries e.payload >>= (λ es. read_book symbol kind none es >>= at_time))

  -- The arm "trade".
  unfoldable pub trade_frame : Text → Envelope J → Result (Ingested D) VenueError
  trade_frame symbol e = ok_or e.kind VenueError.malformed >>= (λ kind.
      if text_eqb kind (codes "snapshot")
      then ok (untimed (SyncAction.ignore ∷ []))
      else parsed calls.trade_entries e.payload >>= (λ es. read_trades symbol none es >>= at_time))

  -- The match of `ingest` on the channel.
  unfoldable pub channel_frame : Text → Envelope J → Text → Result (Ingested D) VenueError
  channel_frame symbol e channel =
      if text_eqb channel (codes "book")
      then book_frame symbol e
      else if text_eqb channel (codes "trade")
      then trade_frame symbol e
      else if text_eqb channel (codes "heartbeat")
      then ok (untimed (SyncAction.forward (EventKind.heartbeat none) ∷ []))
      else ok ignored

  abbrev pub ingest_envelope : KrakenSync → Option (Envelope J) → Result (Ingested D) VenueError
  ingest_envelope s none = err VenueError.malformed
  ingest_envelope s (some e) = elim e.channel [
    | none ↦ ok ignored
    | some channel ↦ channel_frame s.symbol e channel
  ]

  -- `checksum`.
  abbrev pub checksum : Book D → ℕ
  checksum b = calls.crc32 (checksum_text b)

  -- `impl VenueSync for KrakenSync`. The defaults of the REST calls refuse, or in a release build do
  -- nothing.
  abbrev pub kraken : VenueSync D KrakenSync
  kraken = record {
    venue = VenueId.kraken;
    integrity = Integrity.verified;
    recovery = RecoveryStrategy.resubscribe;
    ingest = λ s f. (s, ingest_envelope s (calls.envelope f.payload));
    checksum = λ s b. some (checksum b);
    reset_sync = λ s. s;
    parse_rest_snapshot = λ s body. err (VenueError.no_rest_snapshot VenueId.kraken);
    splice_rest_snapshot = λ s snap. (s, []);
  }
