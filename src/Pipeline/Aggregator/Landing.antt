-- ===== src/Pipeline/Aggregator/Landing.antt =====
-- What a message leaves of a stream: the book that its venue makes of it, the note of the change of
-- state, and the events.
use market_aggregator.Common.{
  Bool, true, List, [], ◌≡◌, refl, sym, ap, ◌∙◌, Result, ok, err, Holds, Holds-map, bind-Holds_with,
  arith,
}
use market_aggregator.Core.Decimal.{Decimal}
use market_aggregator.Core.Time.{IngestTime, time_eqb}
use market_aggregator.Core.Event.{StreamId}
use market_aggregator.Core.Book.{BookState, DesyncReason, same_status, reason_eqb}
use market_aggregator.Venues.Sync.{
  VenueBook, VenueSync, VenueError, RawFrame, FrameSource, RestSnapshot, Ingested, Outcome, feed,
  feed_source, feed_socket, feed_splice, feed_audit, rest_body, apply_event, reset,
}
use market_aggregator.Venues.Sync.Session.{outcomes_of}
use market_aggregator.Pipeline.Messages.{IngestMessage, stream_of, time_of}
use market_aggregator.Pipeline.Metrics.{record_parse_error}
use market_aggregator.Pipeline.Aggregator.Keeps.{
  teed-nil, Keeps-trans, sample_windows-Keeps, deliver-Keeps, teed, Keeps, noted-Notes,
}
use market_aggregator.Pipeline.Aggregator.{
  VenueState, Effects, state_of, sample_windows, noted, requests, deliver, settle, refuse,
  after_feed, handle,
}

time_eqb_refl : (t : IngestTime) → time_eqb t t ≡ true
time_eqb_refl t = ground arith

module _ {D : Type 0} ⦃dec : Decimal D⦄ where
  reason_eqb_refl : (r : DesyncReason D) → reason_eqb r r ≡ true
  reason_eqb_refl r = ground arith

  same_status_refl : (s : BookState D) → same_status s s ≡ true
  unfolding same_status
  same_status_refl BookState.uninitialized = refl
  same_status_refl (BookState.live i at v) = rw (time_eqb_refl at) (ground arith)
  same_status_refl (BookState.desynced at r) = rw (time_eqb_refl at, reason_eqb_refl r) refl

  -- The end of a session asks for no stream.
  abbrev pub asked : BookState D → BookState D → IngestMessage D → List StreamId
  asked before after (IngestMessage.session_ended stream at end) = []
  asked before after m = requests (stream_of m) before after

  requests_same :
      (stream : StreamId) (before after : BookState D)
      → after ≡ before
      → requests stream before after ≡ []
  requests_same stream before after e = rw (e, same_status_refl before) refl

module _ {D S : Type 0} ⦃dec : Decimal D⦄ where
  -- The book that the venue makes of the message, and the outcomes that it reports.
  abbrev pub landed_book : VenueState D S → IngestMessage D → VenueBook D S
  landed_book v (IngestMessage.frame f) = (feed v.protocol v.book f).0
  landed_book v (IngestMessage.event stream e) = (apply_event v.protocol v.book e e.ingest_ts).0
  landed_book v (IngestMessage.session_ended stream at end) = reset v.protocol v.book at

  abbrev pub landed_outcomes : VenueState D S → IngestMessage D → List (Outcome D)
  landed_outcomes v (IngestMessage.frame f) = outcomes_of (feed v.protocol v.book f).1
  landed_outcomes v (IngestMessage.event stream e) = (apply_event v.protocol v.book e e.ingest_ts).1
  landed_outcomes v (IngestMessage.session_ended stream at end) = []

  abbrev pub landed : VenueState D S → IngestMessage D → VenueState D S
  landed v m = record v { book = landed_book v m }

  pub record Lands (sink : Bool) (v : VenueState D S) (m : IngestMessage D)
      (h : VenueState D S × Effects D) : Type 0 where
    pub keeps : Keeps (noted (landed v m) (state_of v) (time_of m)) h.0
    pub sent : h.1.events ≡ teed sink (landed_outcomes v m)
    pub requested : h.1.requested ≡ asked (state_of v) (state_of (landed v m)) m

  settle-Lands :
      (sink : Bool) (stream : StreamId) (before : BookState D) (v : VenueState D S)
      (os : List (Outcome D)) (at : IngestTime)
      → Holds
          (λ h.
            Keeps (noted v before at) h.0
            × (h.1.events ≡ teed sink os)
            × (h.1.requested ≡ requests stream before (state_of v)))
          (settle sink stream before v os at)
  unfolding settle
  settle-Lands sink stream before v os at =
      bind-Holds_with _ _ (deliver sink (noted v before at) os) _
        (deliver-Keeps sink (noted v before at) os)
        (λ d p.
          bind-Holds_with _ _ (sample_windows d.0 at) _ (sample_windows-Keeps d.0 at)
            (λ v' k. (Keeps-trans p.0 k, p.1, refl)))

  -- A message that changes no state is noted nowhere.
  noted_same :
      (v : VenueState D S) (before : BookState D) (at : IngestTime)
      → state_of v ≡ before
      → noted v before at ≡ v
  unfolding noted
  noted_same v before at e = rw e (rw (same_status_refl before) refl)

  refuse-Lands :
      (sink : Bool) (stream : StreamId) (before : BookState D) (v : VenueState D S)
      (at : IngestTime)
      → state_of v ≡ before
      → Holds
          (λ h.
            Keeps (noted v before at) h.0
            × (h.1.events ≡ teed sink [])
            × (h.1.requested ≡ requests stream before (state_of v)))
          (refuse v at)
  unfolding refuse
  refuse-Lands sink stream before v at e =
      bind-Holds_with _ _
        (sample_windows (record v { counters = record_parse_error v.counters }) at) _
        (sample_windows-Keeps (record v { counters = record_parse_error v.counters }) at)
        (λ v' k. (
          rw (noted_same v before at e)
              (record { protocol = k.protocol; book = k.book; total = k.total; start = k.start }),
          sym (teed-nil sink),
          sym (requests_same stream before (state_of v) e),
        ))

  -- A call that fails leaves the book.
  abbrev LeavesBook : VenueBook D S → VenueBook D S × Result (List (Outcome D)) VenueError → Type 0
  LeavesBook v (b, ok os) = Unit
  LeavesBook v (b, err e) = b.book ≡ v.book

  module _ (p : VenueSync D S) where
    feed_socket-LeavesBook :
        (v : VenueBook D S) (r : S × Result (Ingested D) VenueError) (at : IngestTime)
        → LeavesBook v (feed_socket p v r at)
    feed_socket-LeavesBook v (s, ok ingested) at = tt
    feed_socket-LeavesBook v (s, err e) at = refl

    feed_splice-LeavesBook :
        (v : VenueBook D S) (r : Result (RestSnapshot D) VenueError) (at : IngestTime)
        → LeavesBook v (feed_splice p v r at)
    feed_splice-LeavesBook v (ok snap) at = tt
    feed_splice-LeavesBook v (err e) at = refl

    feed_audit-LeavesBook :
        (v : VenueBook D S) (r : Result (RestSnapshot D) VenueError) (at : IngestTime)
        → LeavesBook v (feed_audit p v r at)
    feed_audit-LeavesBook v (ok snap) at = tt
    feed_audit-LeavesBook v (err e) at = refl

    feed_source-LeavesBook :
        (src : FrameSource) (v : VenueBook D S) (f : RawFrame)
        → LeavesBook v (feed_source p src v f)
    feed_source-LeavesBook FrameSource.web_socket v f =
        feed_socket-LeavesBook v (p.ingest v.sync f) f.ingest_ts
    feed_source-LeavesBook FrameSource.rest_snapshot v f =
        feed_splice-LeavesBook v (rest_body p v f) f.ingest_ts
    feed_source-LeavesBook FrameSource.rest_audit v f =
        feed_audit-LeavesBook v (rest_body p v f) f.ingest_ts

    feed-LeavesBook : (v : VenueBook D S) (f : RawFrame) → LeavesBook v (feed p v f)
    unfolding feed
    feed-LeavesBook v f = feed_source-LeavesBook f.source v f

  -- What `settle` and `refuse` leave, where the book has become `b`.
  abbrev Settled :
      Bool
      → StreamId
      → VenueState D S
      → VenueBook D S
      → List (Outcome D)
      → IngestTime
      → VenueState D S × Effects D
      → Type 0
  Settled sink stream v b os at h =
      Keeps (noted (record v { book = b }) (state_of v) at) h.0
      × (h.1.events ≡ teed sink os)
      × (h.1.requested ≡ requests stream (state_of v) b.book.state)

  after_feed-Lands :
      (sink : Bool) (stream : StreamId) (v : VenueState D S)
      (r : VenueBook D S × Result (List (Outcome D)) VenueError) (at : IngestTime)
      → LeavesBook v.book r
      → Holds (Settled sink stream v r.0 (outcomes_of r.1) at) (after_feed sink stream v r at)
  after_feed-Lands sink stream v (b, ok os) at l =
      settle-Lands sink stream (state_of v) (record v { book = b }) os at
  after_feed-Lands sink stream v (b, err VenueError.unwound) at l = tt
  after_feed-Lands sink stream v (b, err VenueError.not_utf8) at l =
      refuse-Lands sink stream (state_of v) (record v { book = b }) at (ap (λ k. k.state) l)
  after_feed-Lands sink stream v (b, err VenueError.malformed) at l =
      refuse-Lands sink stream (state_of v) (record v { book = b }) at (ap (λ k. k.state) l)
  after_feed-Lands sink stream v (b, err (VenueError.wrong_venue x y)) at l =
      refuse-Lands sink stream (state_of v) (record v { book = b }) at (ap (λ k. k.state) l)
  after_feed-Lands sink stream v (b, err (VenueError.no_endpoint x)) at l =
      refuse-Lands sink stream (state_of v) (record v { book = b }) at (ap (λ k. k.state) l)
  after_feed-Lands sink stream v (b, err (VenueError.no_rest_snapshot x)) at l =
      refuse-Lands sink stream (state_of v) (record v { book = b }) at (ap (λ k. k.state) l)

  lands :
      {sink : Bool} {v : VenueState D S} {m : IngestMessage D} (k : VenueState D S × Effects D)
      → Keeps (noted (landed v m) (state_of v) (time_of m)) k.0
        × (k.1.events ≡ teed sink (landed_outcomes v m))
        × (k.1.requested ≡ asked (state_of v) (state_of (landed v m)) m)
      → Lands sink v m k
  lands k p = record { keeps = p.0; sent = p.1; requested = p.2 }

  pub handle-Lands :
      (sink : Bool) (v : VenueState D S) (m : IngestMessage D)
      → Holds (Lands sink v m) (handle sink v m)
  unfolding handle
  handle-Lands sink v (IngestMessage.frame f) =
      Holds-map (after_feed sink f.stream v (feed v.protocol v.book f) f.ingest_ts) lands (
        after_feed-Lands sink f.stream v (feed v.protocol v.book f) f.ingest_ts
          (feed-LeavesBook v.protocol v.book f))
  handle-Lands sink v (IngestMessage.event stream e) =
      let (b, os) = apply_event v.protocol v.book e e.ingest_ts in
      Holds-map (settle sink stream (state_of v) (record v { book = b }) os e.ingest_ts) lands
        (settle-Lands sink stream (state_of v) (record v { book = b }) os e.ingest_ts)
  handle-Lands sink v (IngestMessage.session_ended stream at end) =
      let v' = record v { book = reset v.protocol v.book at } in
      bind-Holds_with _ _ (sample_windows (noted v' (state_of v) at) at) _
        (sample_windows-Keeps (noted v' (state_of v) at) at)
        (λ w k. record { keeps = k; sent = sym (teed-nil sink); requested = refl })

  -- The book and the protocol after a message.
  pub Lands-book :
      {sink : Bool} {v : VenueState D S} {m : IngestMessage D} {h : VenueState D S × Effects D}
      → Lands sink v m h
      → h.0.book ≡ landed_book v m
  Lands-book {v = v} {m = m} l =
      l.keeps.book ∙ (noted-Notes (landed v m) (state_of v) (time_of m)).same_book

  pub Lands-protocol :
      {sink : Bool} {v : VenueState D S} {m : IngestMessage D} {h : VenueState D S × Effects D}
      → Lands sink v m h
      → h.0.protocol ≡ v.protocol
  Lands-protocol {v = v} {m = m} l =
      l.keeps.protocol ∙ (noted-Notes (landed v m) (state_of v) (time_of m)).same_protocol
