-- ===== src/Venues/Sync.antt =====
-- crates/ma-venues/src/sync.rs: a venue's protocol joined to the book that it maintains.
pub mod Replay
pub mod Session
pub mod Validity
pub mod Times
use market_aggregator.Common.{
  ℕ, ◌≤◌, Bool, true, false, not, Option, none, some, List, [], ◌∷◌, ◌++◌, ◌≡◌, Text, Result, ok,
  err, ◌>>=◌, map, ◌==◌, utf8_valid, if◌then◌else◌,
}
use market_aggregator.Core.Decimal.{Decimal}
use market_aggregator.Core.Time.{IngestTime, WallTime}
use market_aggregator.Core.Event.{VenueId, StreamId, Side, Level, EventKind, MarketEvent}
use market_aggregator.Core.Book.{
  Book, BookState, DesyncReason, Integrity, is_live, state_eqb, new, with_max_depth, mark_desynced,
  mark_verified, apply_snapshot, apply_delta,
}
use market_aggregator.Core.Audit.{
  AuditPolicy, default_policy, AuditTrail, empty_trail, reset_trail, observe, audit,
}

pub data FrameSource : Type 0 where
  web_socket rest_snapshot rest_audit : FrameSource

pub record RawFrame : Type 0 where
  pub stream : StreamId
  pub payload : Text
  pub ingest_ts : IngestTime
  pub source : FrameSource

pub data RecoveryStrategy : Type 0 where
  resubscribe rest_recovery : RecoveryStrategy

pub record RestSnapshot (D : Type 0) : Type 0 where
  pub bids : List (Level D)
  pub asks : List (Level D)
  pub as_of : ℕ

-- The text that `Malformed` carries is left out. `unwound` is no error value: it stands for a call
-- that ends its task by unwinding.
pub data VenueError : Type 0 where
  not_utf8 malformed unwound : VenueError
  wrong_venue : VenueId → VenueId → VenueError
  no_endpoint no_rest_snapshot : VenueId → VenueError

pub data SyncAction (D : Type 0) : Type 0 where
  ignore : SyncAction D
  snapshot : List (Level D) → List (Level D) → SyncAction D
  delta : List (Level D) → List (Level D) → SyncAction D
  verify : ℕ → SyncAction D
  forward : EventKind D → SyncAction D
  desync : DesyncReason D → SyncAction D

pub record Ingested (D : Type 0) : Type 0 where
  pub actions : List (SyncAction D)
  pub venue_ts : Option WallTime

module _ {D : Type 0} where
  -- `Ingested::untimed`, `Ingested::ignored`.
  abbrev pub untimed : List (SyncAction D) → Ingested D
  untimed actions = record { actions = actions; venue_ts = none }

  abbrev pub ignored : Ingested D
  ignored = untimed (SyncAction.ignore ∷ [])

-- The trait `VenueSync` over the implementor's state `S`. `ingest` returns the state that it
-- leaves also where it fails.
pub record VenueSync (D S : Type 0) : Type 0 where
  pub venue : VenueId
  pub integrity : Integrity
  pub recovery : RecoveryStrategy
  pub ingest : S → RawFrame → S × Result (Ingested D) VenueError
  pub checksum : S → Book D → Option ℕ
  pub reset_sync : S → S
  pub parse_rest_snapshot : S → Text → Result (RestSnapshot D) VenueError
  pub splice_rest_snapshot : S → RestSnapshot D → S × List (SyncAction D)

pub record VenueBook (D S : Type 0) : Type 0 where
  pub sync : S
  pub book : Book D
  pub audit_policy : AuditPolicy
  pub audit_trail : AuditTrail D

pub data Outcome (D : Type 0) : Type 0 where
  state_changed : BookState D → BookState D → Outcome D
  event : MarketEvent D → Outcome D

module _ {D : Type 0} where
  abbrev pub as_event : Book D → Option WallTime → IngestTime → EventKind D → MarketEvent D
  as_event b venue_ts at kind = record {
    venue = b.venue;
    symbol = b.symbol;
    venue_ts = venue_ts;
    ingest_ts = at;
    kind = kind;
  }

  abbrev pub emit :
      Book D
      → Option WallTime
      → IngestTime
      → Option (EventKind D)
      → List (Outcome D)
      → List (Outcome D)
  emit b venue_ts at none rest = rest
  emit b venue_ts at (some kind) rest = Outcome.event (as_event b venue_ts at kind) ∷ rest

  -- The match of `apply_event`.
  abbrev pub event_action : EventKind D → SyncAction D
  event_action (EventKind.snapshot bids asks) = SyncAction.snapshot bids asks
  event_action (EventKind.delta bids asks) = SyncAction.delta bids asks
  event_action (EventKind.checksum value) = SyncAction.verify value
  event_action (EventKind.trade p q side) = SyncAction.forward (EventKind.trade p q side)
  event_action (EventKind.heartbeat counter) = SyncAction.forward (EventKind.heartbeat counter)

module _ {D : Type 0} ⦃dec : Decimal D⦄ where
  -- The comparison at the end of `apply_ingested` and of `audit`.
  abbrev pub change : BookState D → BookState D → List (Outcome D)
  change before after =
      if state_eqb before after then [] else Outcome.state_changed before after ∷ []

  abbrev pub audited_book : Book D → Option (DesyncReason D) → IngestTime → Book D
  audited_book b none at = b
  audited_book b (some reason) at = mark_desynced b reason at

module _ {D S : Type 0} ⦃dec : Decimal D⦄ (venue_sync : VenueSync D S) where
  -- `VenueBook::new`.
  unfoldable pub opened : S → Text → VenueBook D S
  opened s symbol = record {
    sync = s;
    book = new venue_sync.venue symbol;
    audit_policy = default_policy;
    audit_trail = empty_trail;
  }

  -- `VenueBook::with_max_depth`.
  unfoldable pub limited : VenueBook D S → ℕ → VenueBook D S
  limited v depth = record v { book = with_max_depth v.book depth }

  -- A new book of a venue, and its limit where the venue has one.
  abbrev pub started : Option ℕ → S → Text → VenueBook D S
  started none s symbol = opened s symbol
  started (some depth) s symbol = limited (opened s symbol) depth

  -- `VenueBook::reset`.
  unfoldable pub reset : VenueBook D S → IngestTime → VenueBook D S
  reset v at = record v {
    sync = venue_sync.reset_sync v.sync;
    book = mark_desynced v.book DesyncReason.connection_lost at;
    audit_trail = reset_trail v.audit_trail;
  }

  -- `VenueBook::verify`. Where the venue computes no checksum a debug build stops at an assertion;
  -- this is the release build, which returns.
  unfoldable pub check : S → Book D → ℕ → IngestTime → Book D
  check s b expected at =
      if is_live b.state
      then elim (venue_sync.checksum s b) [
        | none ↦ b
        | some computed ↦
            if computed == expected
            then mark_verified b at
            else mark_desynced b (DesyncReason.checksum_mismatch expected computed) at
      ]
      else b

  -- One turn of the loop of `apply_ingested`: the book, and the kind of the event if one is made.
  unfoldable pub apply_action :
      S → Book D → SyncAction D → IngestTime → Book D × Option (EventKind D)
  apply_action s b SyncAction.ignore at = (b, none)
  apply_action s b (SyncAction.desync reason) at = (mark_desynced b reason at, none)
  apply_action s b (SyncAction.verify expected) at =
      (check s b expected at, some (EventKind.checksum expected))
  apply_action s b (SyncAction.snapshot bids asks) at =
      ((apply_snapshot b bids asks venue_sync.integrity at).0, some (EventKind.snapshot bids asks))
  apply_action s b (SyncAction.delta bids asks) at =
      let (b', r) = apply_delta b bids asks at in
      (b', elim r [ ok _ ↦ some (EventKind.delta bids asks) | err _ ↦ none ])
  apply_action s b (SyncAction.forward kind) at = (b, some kind)

  unfoldable pub apply_actions :
      S → Book D → List (SyncAction D) → Option WallTime → IngestTime → Book D × List (Outcome D)
  apply_actions s b [] venue_ts at = (b, [])
  apply_actions s b (a ∷ as') venue_ts at =
      let (b', kind) = apply_action s b a at in
      let (b'', rest) = apply_actions s b' as' venue_ts at in (b'', emit b' venue_ts at kind rest)

  unfoldable pub apply_ingested :
      VenueBook D S → Ingested D → IngestTime → VenueBook D S × List (Outcome D)
  apply_ingested v ingested at =
      let (b, outcomes) = apply_actions v.sync v.book ingested.actions ingested.venue_ts at in
      (record v { book = b }, outcomes ++ change v.book.state b.state)

  -- `VenueBook::audit`.
  unfoldable pub audit_book :
      VenueBook D S → RestSnapshot D → IngestTime → VenueBook D S × List (Outcome D)
  audit_book v snap at =
      let outcome = audit v.book snap.bids snap.asks v.audit_policy in
      let (trail, answer) = observe v.audit_trail outcome v.audit_policy in
      let b = audited_book v.book answer at in
      if is_live v.book.state
      then (record v { book = b; audit_trail = trail }, change v.book.state b.state)
      else (v, [])

  -- `RawFrame::as_str` and then the venue's parser.
  abbrev pub rest_body : VenueBook D S → RawFrame → Result (RestSnapshot D) VenueError
  rest_body v frame =
      if utf8_valid frame.payload
      then venue_sync.parse_rest_snapshot v.sync frame.payload
      else err VenueError.not_utf8

  abbrev pub feed_socket :
      VenueBook D S
      → S × Result (Ingested D) VenueError
      → IngestTime
      → VenueBook D S × Result (List (Outcome D)) VenueError
  feed_socket v (s, err e) at = (record v { sync = s }, err e)
  feed_socket v (s, ok ingested) at =
      let (v', outcomes) = apply_ingested (record v { sync = s }) ingested at in (v', ok outcomes)

  -- `VenueBook::apply_rest_snapshot`.
  unfoldable pub apply_rest_snapshot :
      VenueBook D S → RestSnapshot D → IngestTime → VenueBook D S × List (Outcome D)
  apply_rest_snapshot v snap at =
      let (s, actions) = venue_sync.splice_rest_snapshot v.sync snap in
      apply_ingested (record v { sync = s }) (untimed actions) at

  -- The arms of `feed`: bytes to splice in, bytes to compare with, bytes off the socket.
  abbrev pub feed_splice :
      VenueBook D S
      → Result (RestSnapshot D) VenueError
      → IngestTime
      → VenueBook D S × Result (List (Outcome D)) VenueError
  feed_splice v (err e) at = (v, err e)
  feed_splice v (ok snap) at =
      let (v', outcomes) = apply_rest_snapshot v snap at in (v', ok outcomes)

  abbrev pub feed_audit :
      VenueBook D S
      → Result (RestSnapshot D) VenueError
      → IngestTime
      → VenueBook D S × Result (List (Outcome D)) VenueError
  feed_audit v (err e) at = (v, err e)
  feed_audit v (ok snap) at = let (v', outcomes) = audit_book v snap at in (v', ok outcomes)

  abbrev pub feed_source :
      FrameSource → VenueBook D S → RawFrame → VenueBook D S × Result (List (Outcome D)) VenueError
  feed_source FrameSource.web_socket v frame =
      feed_socket v (venue_sync.ingest v.sync frame) frame.ingest_ts
  feed_source FrameSource.rest_snapshot v frame = feed_splice v (rest_body v frame) frame.ingest_ts
  feed_source FrameSource.rest_audit v frame = feed_audit v (rest_body v frame) frame.ingest_ts

  -- `VenueBook::feed`.
  unfoldable pub feed :
      VenueBook D S → RawFrame → VenueBook D S × Result (List (Outcome D)) VenueError
  feed v frame = feed_source frame.source v frame

  -- `VenueBook::apply_event`.
  unfoldable pub apply_event :
      VenueBook D S → MarketEvent D → IngestTime → VenueBook D S × List (Outcome D)
  apply_event v e at =
      apply_ingested v (record { actions = event_action e.kind ∷ []; venue_ts = e.venue_ts }) at
