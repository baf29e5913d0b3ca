-- ===== src/Venues/Sync/Validity.antt =====
-- The book of a stream is valid at every moment of the stream's life.
use market_aggregator.Common.{
  ℕ, Option, none, some, List, [], ◌∷◌, Result, ok, err, Text, Bool-cases, inl, inr, if◌then◌else◌,
  ◌==◌,
}
use market_aggregator.Core.Decimal.{Decimal}
use market_aggregator.Core.Time.{IngestTime, WallTime}
use market_aggregator.Core.Book.{Book, DesyncReason, is_live, mark_desynced, mark_verified}
use market_aggregator.Core.Book.Validity.{
  IsValid, apply_snapshot-IsValid, apply_delta-IsValid, mark_desynced-IsValid,
  mark_verified-IsValid, with_max_depth-IsValid,
}
use market_aggregator.Venues.Sync.{
  VenueSync, VenueBook, VenueError, FrameSource, RawFrame, RestSnapshot, SyncAction, Ingested,
  opened, limited, reset, check, apply_action, apply_actions, apply_ingested, apply_rest_snapshot,
  audit_book, audited_book, rest_body, feed_socket, feed_splice, feed_audit, feed_source, feed,
}
use market_aggregator.Venues.Sync.Session.{Input, step, session}

module _ {D S : Type 0} ⦃dec : Decimal D⦄ (venue_sync : VenueSync D S) where
  check-IsValid :
      (s : S) (b : Book D) (expected : ℕ) (at : IngestTime)
      → IsValid b
      → IsValid (check venue_sync s b expected at)
  unfolding check
  check-IsValid s b expected at v = elim (Bool-cases (is_live b.state)) [
    | inr dead ↦ rw dead v
    | inl live ↦ rw live (checked (venue_sync.checksum s b))
  ]
    where
      checked :
          (c : Option ℕ)
          → IsValid (elim c [
            | none ↦ b
            | some computed ↦
                if computed == expected
                then mark_verified b at
                else mark_desynced b (DesyncReason.checksum_mismatch expected computed) at
          ])
      checked none = v
      checked (some c) = elim (Bool-cases (c == expected)) [
        | inl same ↦ rw same (mark_verified-IsValid b at v)
        | inr other ↦
            rw other (mark_desynced-IsValid b (DesyncReason.checksum_mismatch expected c) at v)
      ]

  apply_action-IsValid :
      (s : S) (b : Book D) (a : SyncAction D) (at : IngestTime)
      → IsValid b
      → IsValid (apply_action venue_sync s b a at).0
  unfolding apply_action
  apply_action-IsValid s b SyncAction.ignore at v = v
  apply_action-IsValid s b (SyncAction.desync reason) at v = mark_desynced-IsValid b reason at v
  apply_action-IsValid s b (SyncAction.verify c) at v = check-IsValid s b c at v
  apply_action-IsValid s b (SyncAction.snapshot bids asks) at v =
      apply_snapshot-IsValid b bids asks venue_sync.integrity at
  apply_action-IsValid s b (SyncAction.delta bids asks) at v = apply_delta-IsValid b bids asks at v
  apply_action-IsValid s b (SyncAction.forward kind) at v = v

  apply_actions-IsValid :
      (s : S) (b : Book D) (as' : List (SyncAction D)) (ts : Option WallTime) (at : IngestTime)
      → IsValid b
      → IsValid (apply_actions venue_sync s b as' ts at).0
  unfolding apply_actions
  apply_actions-IsValid s b [] ts at v = v
  apply_actions-IsValid s b (a ∷ as') ts at v =
      apply_actions-IsValid s (apply_action venue_sync s b a at).0 as' ts at
        (apply_action-IsValid s b a at v)

  apply_ingested-IsValid :
      (v : VenueBook D S) (ingested : Ingested D) (at : IngestTime)
      → IsValid v.book
      → IsValid (apply_ingested venue_sync v ingested at).0.book
  unfolding apply_ingested
  apply_ingested-IsValid v ingested at h =
      apply_actions-IsValid v.sync v.book ingested.actions ingested.venue_ts at h

  feed_socket-IsValid :
      (v : VenueBook D S) (out : S × Result (Ingested D) VenueError) (at : IngestTime)
      → IsValid v.book
      → IsValid (feed_socket venue_sync v out at).0.book
  feed_socket-IsValid v (s, err e) at h = h
  feed_socket-IsValid v (s, ok ingested) at h =
      apply_ingested-IsValid (record v { sync = s }) ingested at h

  audited_book-IsValid :
      (b : Book D) (answer : Option (DesyncReason D)) (at : IngestTime)
      → IsValid b
      → IsValid (audited_book b answer at)
  audited_book-IsValid b none at h = h
  audited_book-IsValid b (some reason) at h = mark_desynced-IsValid b reason at h

  audit_book-IsValid :
      (v : VenueBook D S) (snap : RestSnapshot D) (at : IngestTime)
      → IsValid v.book
      → IsValid (audit_book venue_sync v snap at).0.book
  unfolding audit_book
  audit_book-IsValid v snap at h = elim (Bool-cases (is_live v.book.state)) [
    | inl live ↦ rw live (audited_book-IsValid v.book _ at h)
    | inr dead ↦ rw dead h
  ]

  feed_splice-IsValid :
      (v : VenueBook D S) (body : Result (RestSnapshot D) VenueError) (at : IngestTime)
      → IsValid v.book
      → IsValid (feed_splice venue_sync v body at).0.book
  unfolding apply_rest_snapshot
  feed_splice-IsValid v (err e) at h = h
  feed_splice-IsValid v (ok snap) at h = apply_ingested-IsValid _ _ at h

  feed_audit-IsValid :
      (v : VenueBook D S) (body : Result (RestSnapshot D) VenueError) (at : IngestTime)
      → IsValid v.book
      → IsValid (feed_audit venue_sync v body at).0.book
  feed_audit-IsValid v (err e) at h = h
  feed_audit-IsValid v (ok snap) at h = audit_book-IsValid v snap at h

  feed_source-IsValid :
      (src : FrameSource) (v : VenueBook D S) (f : RawFrame)
      → IsValid v.book
      → IsValid (feed_source venue_sync src v f).0.book
  feed_source-IsValid FrameSource.web_socket v f h =
      feed_socket-IsValid v (venue_sync.ingest v.sync f) f.ingest_ts h
  feed_source-IsValid FrameSource.rest_snapshot v f h =
      feed_splice-IsValid v (rest_body venue_sync v f) f.ingest_ts h
  feed_source-IsValid FrameSource.rest_audit v f h =
      feed_audit-IsValid v (rest_body venue_sync v f) f.ingest_ts h

  step-IsValid :
      (v : VenueBook D S) (i : Input) → IsValid v.book → IsValid (step venue_sync v i).0.book
  unfolding step feed reset
  step-IsValid v (Input.arrived f) h = feed_source-IsValid f.source v f h
  step-IsValid v (Input.reconnected at) h =
      mark_desynced-IsValid v.book DesyncReason.connection_lost at h

  session_from-IsValid :
      (v : VenueBook D S) (is : List Input)
      → IsValid v.book
      → IsValid (session venue_sync v is).0.book
  unfolding session
  session_from-IsValid v [] h = h
  session_from-IsValid v (i ∷ is) h =
      session_from-IsValid (step venue_sync v i).0 is (step-IsValid v i h)

  -- Whatever frames arrive, of any source and with whatever the venue's parser makes of them, and
  -- whenever the stream reconnects, the stream's book, with a depth limit, is valid.
  pub session-IsValid :
      (s : S) (symbol : Text) (depth : ℕ) (is : List Input)
      → IsValid
          (session venue_sync (limited venue_sync (opened venue_sync s symbol) depth) is).0.book
  unfolding opened limited
  session-IsValid s symbol depth is =
      session_from-IsValid _ is (with_max_depth-IsValid venue_sync.venue symbol depth)
