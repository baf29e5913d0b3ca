-- ===== src/Venues/Sync/Times.antt =====
-- The time that an outcome's event is stamped with: that of the frame or event it came of.
use market_aggregator.Common.{
  Option, none, some, List, [], ◌∷◌, ◌≡◌, refl, Result, ok, err, All, All-append, Bool-cases, inl,
  inr,
}
use market_aggregator.Core.Decimal.{Decimal}
use market_aggregator.Core.Time.{IngestTime, WallTime}
use market_aggregator.Core.Event.{EventKind, MarketEvent}
use market_aggregator.Core.Book.{Book, BookState, state_eqb, is_live}
use market_aggregator.Venues.Sync.{
  VenueBook, VenueSync, VenueError, RawFrame, FrameSource, RestSnapshot, Ingested, SyncAction,
  Outcome, emit, change, apply_action, apply_actions, apply_ingested, apply_rest_snapshot,
  audit_book, feed, feed_source, feed_socket, feed_splice, feed_audit, rest_body, apply_event,
}
use market_aggregator.Venues.Sync.Session.{outcomes_of}

module _ {D : Type 0} where
  -- The event of the outcome is stamped with the time.
  abbrev pub IsAt : IngestTime → Outcome D → Type 0
  IsAt at (Outcome.state_changed a b) = Unit
  IsAt at (Outcome.event e) = e.ingest_ts ≡ at

  emit-IsAt :
      (b : Book D) (venue_ts : Option WallTime) (at : IngestTime) (kind : Option (EventKind D))
      (rest : List (Outcome D))
      → All (IsAt at) rest
      → All (IsAt at) (emit b venue_ts at kind rest)
  emit-IsAt b venue_ts at none rest h = h
  emit-IsAt b venue_ts at (some kind) rest h = (refl, h)

module _ {D : Type 0} ⦃dec : Decimal D⦄ where
  change-IsAt : (at : IngestTime) (x y : BookState D) → All (IsAt at) (change x y)
  change-IsAt at x y = elim (Bool-cases (state_eqb x y)) [ inl e ↦ rw e tt | inr e ↦ rw e (tt, tt) ]

module _ {D S : Type 0} ⦃dec : Decimal D⦄ (p : VenueSync D S) where
  apply_actions-IsAt :
      (s : S) (b : Book D) (actions : List (SyncAction D)) (venue_ts : Option WallTime)
      (at : IngestTime)
      → All (IsAt at) (apply_actions p s b actions venue_ts at).1
  unfolding apply_actions
  apply_actions-IsAt s b [] venue_ts at = tt
  apply_actions-IsAt s b (a ∷ as') venue_ts at =
      let (b', kind) = apply_action p s b a at in
      emit-IsAt b' venue_ts at kind (apply_actions p s b' as' venue_ts at).1
        (apply_actions-IsAt s b' as' venue_ts at)

  apply_ingested-IsAt :
      (v : VenueBook D S) (ingested : Ingested D) (at : IngestTime)
      → All (IsAt at) (apply_ingested p v ingested at).1
  unfolding apply_ingested
  apply_ingested-IsAt v ingested at =
      All-append (IsAt at) _ _
        (apply_actions-IsAt v.sync v.book ingested.actions ingested.venue_ts at)
        (change-IsAt at _ _)

  audit_book-IsAt :
      (v : VenueBook D S) (snap : RestSnapshot D) (at : IngestTime)
      → All (IsAt at) (audit_book p v snap at).1
  unfolding audit_book
  audit_book-IsAt v snap at = elim (Bool-cases (is_live v.book.state)) [
    | inl e ↦ rw e (change-IsAt at _ _)
    | inr e ↦ rw e tt
  ]

  feed_socket-IsAt :
      (v : VenueBook D S) (r : S × Result (Ingested D) VenueError) (at : IngestTime)
      → All (IsAt at) (outcomes_of (feed_socket p v r at).1)
  feed_socket-IsAt v (s, ok ingested) at = apply_ingested-IsAt (record v { sync = s }) ingested at
  feed_socket-IsAt v (s, err e) at = tt

  feed_splice-IsAt :
      (v : VenueBook D S) (r : Result (RestSnapshot D) VenueError) (at : IngestTime)
      → All (IsAt at) (outcomes_of (feed_splice p v r at).1)
  unfolding apply_rest_snapshot
  feed_splice-IsAt v (ok snap) at = apply_ingested-IsAt _ _ at
  feed_splice-IsAt v (err e) at = tt

  feed_audit-IsAt :
      (v : VenueBook D S) (r : Result (RestSnapshot D) VenueError) (at : IngestTime)
      → All (IsAt at) (outcomes_of (feed_audit p v r at).1)
  feed_audit-IsAt v (ok snap) at = audit_book-IsAt v snap at
  feed_audit-IsAt v (err e) at = tt

  feed_source-IsAt :
      (src : FrameSource) (v : VenueBook D S) (f : RawFrame)
      → All (IsAt f.ingest_ts) (outcomes_of (feed_source p src v f).1)
  feed_source-IsAt FrameSource.web_socket v f = feed_socket-IsAt v (p.ingest v.sync f) f.ingest_ts
  feed_source-IsAt FrameSource.rest_snapshot v f = feed_splice-IsAt v (rest_body p v f) f.ingest_ts
  feed_source-IsAt FrameSource.rest_audit v f = feed_audit-IsAt v (rest_body p v f) f.ingest_ts

  pub feed-IsAt :
      (v : VenueBook D S) (f : RawFrame) → All (IsAt f.ingest_ts) (outcomes_of (feed p v f).1)
  unfolding feed
  feed-IsAt v f = feed_source-IsAt f.source v f

  pub apply_event-IsAt :
      (v : VenueBook D S) (e : MarketEvent D) (at : IngestTime)
      → All (IsAt at) (apply_event p v e at).1
  unfolding apply_event
  apply_event-IsAt v e at = apply_ingested-IsAt v _ at
