-- ===== src/Venues/Sync/Session.antt =====
-- A stream's whole life: frames of every kind and reconnections, in any order.
use mathlib.Core.List.{append-nil}
use market_aggregator.Common.{
  ℕ, ◌>>=◌, Holds, bind-Holds, true, false, ◌⊎◌, Option, none, some, List, [], ◌∷◌, ◌++◌, ◌≡◌, All,
  Result, ok, err, Text, Bool-cases, inl, inr,
}
use market_aggregator.Core.Decimal.{Decimal}
use market_aggregator.Core.Time.{IngestTime}
use market_aggregator.Core.Book.{Book, DesyncReason, is_live, with_max_depth}
use market_aggregator.Core.Book.View.{View, view}
use market_aggregator.Venues.Sync.{
  VenueSync, VenueBook, VenueError, FrameSource, RawFrame, RestSnapshot, Ingested, Outcome, opened,
  limited, started, reset, apply_actions, apply_ingested, apply_rest_snapshot, audit_book,
  audited_book, change, rest_body, feed_socket, feed_splice, feed_audit, feed_source, feed, untimed,
}
use market_aggregator.Venues.Sync.Replay.{
  Follows, Follows-refl, IsPlain, ReadsSides, events_of, events_of-append, events_of-change, replay,
  replay-append, apply_actions-Follows, mark_desynced-Follows,
}

-- What reaches the book of one stream.
pub data Input : Type 0 where
  arrived : RawFrame → Input
  reconnected : IngestTime → Input

module _ {D : Type 0} where
  -- The outcomes of a call, of which one that fails has none.
  abbrev pub outcomes_of : Result (List (Outcome D)) VenueError → List (Outcome D)
  outcomes_of (ok os) = os
  outcomes_of (err e) = []

  abbrev pub IsPlainAnswer : Ingested D → Type 0
  IsPlainAnswer ingested = All IsPlain ingested.actions

  abbrev pub AllPlain : Result (Ingested D) VenueError → Type 0
  AllPlain r = Holds IsPlainAnswer r

  pub bind-AllPlain :
      {A : Type 0} (r : Result A VenueError) (f : A → Result (Ingested D) VenueError)
      → ((a : A) → AllPlain (f a))
      → AllPlain (r >>= f)
  bind-AllPlain r f h = bind-Holds IsPlainAnswer r f h

  -- A venue that forwards no book content, and whose checksum reads the book's sides.
  pub record IsLawful {S : Type 0} (venue_sync : VenueSync D S) : Type 0 where
    pub reads : ReadsSides venue_sync
    pub ingest_plain : (s : S) (f : RawFrame) → AllPlain (venue_sync.ingest s f).1
    pub splice_plain :
        (s : S) (r : RestSnapshot D) → All IsPlain (venue_sync.splice_rest_snapshot s r).1

module _ {D S : Type 0} ⦃dec : Decimal D⦄ (venue_sync : VenueSync D S) where
  unfoldable pub step : VenueBook D S → Input → VenueBook D S × List (Outcome D)
  step v (Input.arrived f) = let (v', r) = feed venue_sync v f in (v', outcomes_of r)
  step v (Input.reconnected at) = (reset venue_sync v at, [])

  unfoldable pub session : VenueBook D S → List Input → VenueBook D S × List (Outcome D)
  session v [] = (v, [])
  session v (i ∷ is) =
      let (v', os) = step v i in let (v'', rest) = session v' is in (v'', os ++ rest)

module _ {D S : Type 0} ⦃dec : Decimal D⦄ (venue_sync : VenueSync D S)
    (lawful : IsLawful venue_sync) where
  apply_ingested-Follows :
      (v r : VenueBook D S) (ingested : Ingested D) (at : IngestTime)
      → All IsPlain ingested.actions
      → Follows (view v.book) (view r.book)
      → let (v', os) = apply_ingested venue_sync v ingested at in
        Follows (view v'.book) (view (replay venue_sync r (events_of os)).book)
  unfolding apply_ingested
  apply_ingested-Follows v r ingested at p f =
      let (b, os) = apply_actions venue_sync v.sync v.book ingested.actions ingested.venue_ts at in
      rw
        (
          events_of-append os (change v.book.state b.state),
          events_of-change v.book.state b.state,
          append-nil,
        )
        (apply_actions-Follows venue_sync lawful.reads v.sync v.book ingested.actions
          ingested.venue_ts at r p f)

  feed_socket-Follows :
      (v r : VenueBook D S) (out : S × Result (Ingested D) VenueError) (at : IngestTime)
      → AllPlain out.1
      → Follows (view v.book) (view r.book)
      → let (v', res) = feed_socket venue_sync v out at in
        Follows (view v'.book) (view (replay venue_sync r (events_of (outcomes_of res))).book)
  unfolding replay events_of
  feed_socket-Follows v r (s, err e) at p f = f
  feed_socket-Follows v r (s, ok ingested) at p f =
      apply_ingested-Follows (record v { sync = s }) r ingested at p f

  audited_book-Follows :
      (b : Book D) (answer : Option (DesyncReason D)) (at : IngestTime) (w : View D)
      → Follows (view b) w
      → Follows (view (audited_book b answer at)) w
  audited_book-Follows b none at w f = f
  audited_book-Follows b (some reason) at w f = mark_desynced-Follows b w reason at f

  audit_book-Follows :
      (v r : VenueBook D S) (snap : RestSnapshot D) (at : IngestTime)
      → Follows (view v.book) (view r.book)
      → let (v', os) = audit_book venue_sync v snap at in
        Follows (view v'.book) (view (replay venue_sync r (events_of os)).book)
  unfolding audit_book replay events_of
  audit_book-Follows v r snap at f = elim (Bool-cases (is_live v.book.state)) [
    | inr dead ↦ rw dead f
    | inl live ↦
        rw live (rw (events_of-change _ _) (audited_book-Follows v.book _ at (view r.book) f))
  ]

  feed_splice-Follows :
      (v r : VenueBook D S) (body : Result (RestSnapshot D) VenueError) (at : IngestTime)
      → Follows (view v.book) (view r.book)
      → let (v', res) = feed_splice venue_sync v body at in
        Follows (view v'.book) (view (replay venue_sync r (events_of (outcomes_of res))).book)
  unfolding apply_rest_snapshot replay events_of
  feed_splice-Follows v r (err e) at f = f
  feed_splice-Follows v r (ok snap) at f =
      let (s, actions) = venue_sync.splice_rest_snapshot v.sync snap in
      apply_ingested-Follows (record v { sync = s }) r (untimed actions) at
        (lawful.splice_plain v.sync snap) f

  feed_audit-Follows :
      (v r : VenueBook D S) (body : Result (RestSnapshot D) VenueError) (at : IngestTime)
      → Follows (view v.book) (view r.book)
      → let (v', res) = feed_audit venue_sync v body at in
        Follows (view v'.book) (view (replay venue_sync r (events_of (outcomes_of res))).book)
  unfolding replay events_of
  feed_audit-Follows v r (err e) at f = f
  feed_audit-Follows v r (ok snap) at f = audit_book-Follows v r snap at f

  feed_source-Follows :
      (src : FrameSource) (v r : VenueBook D S) (frame : RawFrame)
      → Follows (view v.book) (view r.book)
      → let (v', res) = feed_source venue_sync src v frame in
        Follows (view v'.book) (view (replay venue_sync r (events_of (outcomes_of res))).book)
  feed_source-Follows FrameSource.web_socket v r frame f =
      feed_socket-Follows v r (venue_sync.ingest v.sync frame) frame.ingest_ts
        (lawful.ingest_plain v.sync frame) f
  feed_source-Follows FrameSource.rest_snapshot v r frame f =
      feed_splice-Follows v r (rest_body venue_sync v frame) frame.ingest_ts f
  feed_source-Follows FrameSource.rest_audit v r frame f =
      feed_audit-Follows v r (rest_body venue_sync v frame) frame.ingest_ts f

  started-Follows :
      (depth : Option ℕ) (s t : S) (symbol : Text)
      → Follows
          (view (started venue_sync depth s symbol).book)
          (view (started venue_sync depth t symbol).book)
  unfolding opened limited with_max_depth
  started-Follows none s t symbol = Follows-refl _
  started-Follows (some n) s t symbol = Follows-refl _

  step-Follows :
      (v r : VenueBook D S) (i : Input)
      → Follows (view v.book) (view r.book)
      → let (v', os) = step venue_sync v i in
        Follows (view v'.book) (view (replay venue_sync r (events_of os)).book)
  unfolding step feed reset replay events_of
  step-Follows v r (Input.arrived frame) f = feed_source-Follows frame.source v r frame f
  step-Follows v r (Input.reconnected at) f =
      mark_desynced-Follows v.book (view r.book) DesyncReason.connection_lost at f

  session_from-Follows :
      (v r : VenueBook D S) (is : List Input)
      → Follows (view v.book) (view r.book)
      → let (v', os) = session venue_sync v is in
        Follows (view v'.book) (view (replay venue_sync r (events_of os)).book)
  unfolding session replay events_of
  session_from-Follows v r [] f = f
  session_from-Follows v r (i ∷ is) f =
      let (v', os) = step venue_sync v i in
      let (v'', rest) = session venue_sync v' is in
      rw (events_of-append os rest, replay-append venue_sync r (events_of os) (events_of rest))
        (session_from-Follows v' (replay venue_sync r (events_of os)) is (step-Follows v r i f))

  -- For a venue whose parser and splice forward no book content, and whose checksum reads nothing
  -- of a book but its sides: take any frames, of all three sources, and reconnections in any order,
  -- on a new stream, with a limit on its depth or with none. The events that the run emitted,
  -- applied one by one to a new book of the same venue with the same limit, give a book with the
  -- same bids and the same asks, and one that is live unless the run's book is not.
  pub session-replay :
      (depth : Option ℕ) (s t : S) (symbol : Text) (is : List Input)
      → let (v, os) = session venue_sync (started venue_sync depth s symbol) is in
        let r = replay venue_sync (started venue_sync depth t symbol) (events_of os) in
        (r.book.bids ≡ v.book.bids)
        × (r.book.asks ≡ v.book.asks)
        × ((is_live v.book.state ≡ false) ⊎ (is_live r.book.state ≡ true))
  session-replay depth s t symbol is =
      let f =
        session_from-Follows (started venue_sync depth s symbol) (started venue_sync depth t symbol)
          is (started-Follows depth s t symbol) in
      (
        f.same_bids,
        f.same_asks,
        elim (Bool-cases
            (is_live (session venue_sync (started venue_sync depth s symbol) is).0.book.state)) [
              | inr dead ↦ inl dead
              | inl live ↦ inr (f.as_live live)
            ],
      )
