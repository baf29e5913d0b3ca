-- ===== src/Tests/Aggregators.antt =====
-- An aggregator of two streams of the toy venue, and the theorems about it.
use market_aggregator.Common.{
  ℕ, true, false, none, some, List, [], ◌∷◌, ◌≡◌, ◌↔◌, refl, map, All, Text, Holds, arith,
}
use market_aggregator.Core.Event.{StreamId, EventKind, VenueId}
use market_aggregator.Core.Book.{new, with_max_depth}
use market_aggregator.Core.Cross.{default_policy}
use market_aggregator.Core.Window.{WindowSpec, window_spec}
use market_aggregator.Venues.Sync.{FrameSource, feed, opened, limited}
use market_aggregator.Pipeline.Messages.{IngestMessage, SessionEnd}
use market_aggregator.Pipeline.Aggregator.{
  VenueSpec, VenueState, new_stream, stream_for, state_of, handle, counted, with_window_spec,
}
use market_aggregator.Pipeline.Aggregator.Streams.{apply_all, follow, Told, apply_all-follow}
use market_aggregator.Pipeline.Aggregator.Clock.{Totals, follow-Totals}
use market_aggregator.Pipeline.Aggregator.Requests.{Breaks, handle-Breaks}
use market_aggregator.Pipeline.Aggregator.Recorded.{Reproduces, recorded-Reproduces}
use market_aggregator.Pipeline.Aggregator.Finishes.{Finishes}
use market_aggregator.Pipeline.Aggregator.Returns.{AllReady, with_window_spec-Finishes}
use market_aggregator.Pipeline.Snapshot.{Aggregator, Published, snapshot, symbol_view}
use market_aggregator.Pipeline.Snapshot.Contents.{venues_under, snapshot-owned}
use market_aggregator.Pipeline.Snapshot.Trust.{NoStronger, MadeBy, symbol_view-weakest}
use market_aggregator.Pipeline.Channel.{ChannelMetrics}
use market_aggregator.Pipeline.View.{venue_view}
use market_aggregator.Core.Book.{top_of_book}
use market_aggregator.Tests.Data.{whole, at_ms, toy, toy-IsLawful, toy_frame}

abbrev spec : Text → VenueSpec ℕ ℕ
spec symbol = record { sync = toy; initial = 0; symbol = symbol; max_depth = some 2 }

abbrev five_seconds : WindowSpec
five_seconds = record { resolution = 1000000000; spans = 5000000000 ∷ [] }

abbrev opened_stream : VenueState ℕ ℕ
opened_stream = new_stream five_seconds (at_ms 0) (spec (66 ∷ []))

abbrev key : StreamId
key = stream_for (spec (66 ∷ []))

abbrev other : StreamId
other = stream_for (spec (67 ∷ []))

abbrev streams : List (StreamId × VenueState ℕ ℕ)
streams = (key, opened_stream) ∷ (other, new_stream five_seconds (at_ms 0) (spec (67 ∷ []))) ∷ []

abbrev quote : ℕ → ℕ → IngestMessage ℕ
quote byte now = IngestMessage.frame (toy_frame FrameSource.web_socket byte now)

-- A snapshot, a delta, the other stream's end, a frame that fails, this one's end, and a snapshot.
abbrev messages : List (IngestMessage ℕ)
messages =
    quote 1 1
    ∷ quote 2 2
    ∷ IngestMessage.session_ended other (at_ms 3) SessionEnd.idle
    ∷ quote 9 4
    ∷ IngestMessage.session_ended key (at_ms 5) SessionEnd.errored
    ∷ quote 1 900
    ∷ []

recorded-Reproduces_example :
    Holds (Reproduces key opened_stream (some 2) 5) (apply_all true streams messages)
recorded-Reproduces_example =
    recorded-Reproduces key opened_stream (some 2) 0 5 streams messages toy-IsLawful refl refl
      (tt, (tt, (tt, (tt, (tt, tt)))))

apply_all-follow_example :
    Holds (Told true key opened_stream messages) (apply_all true streams messages)
apply_all-follow_example = apply_all-follow true key opened_stream streams messages refl

follow-Totals_example :
    Holds
      (Totals false opened_stream (at_ms 0) messages (at_ms 1000))
      (follow false opened_stream messages)
unfolding opened new limited with_max_depth
follow-Totals_example = follow-Totals false opened_stream (at_ms 0) messages (at_ms 1000) tt (
  omega arith,
  (omega arith, (omega arith, (omega arith, (omega arith, (omega arith, omega arith))))),
)

-- A live book, and a checksum that it does not have.
abbrev live_stream : VenueState ℕ ℕ
live_stream = record opened_stream {
  book = (feed toy opened_stream.book (toy_frame FrameSource.web_socket 1 1)).0;
}

abbrev bad_checksum : IngestMessage ℕ
bad_checksum = IngestMessage.event key (record {
  venue = VenueId.fake;
  symbol = 66 ∷ [];
  venue_ts = none;
  ingest_ts = at_ms 2;
  kind = EventKind.checksum 9;
})

handle-Breaks_example :
    Holds
      (λ h. (h.1.requested ≡ key ∷ []) ↔ Breaks bad_checksum (state_of live_stream) (state_of h.0))
      (handle true (counted live_stream) bad_checksum)
handle-Breaks_example = handle-Breaks true live_stream bad_checksum

with_window_spec-Finishes_example :
    let built = window_spec 1000000000 (5000000000 ∷ []) in
    Finishes
      (λ r. AllReady (at_ms 0) built r.0)
      (apply_all true
        (with_window_spec (spec (66 ∷ []) ∷ spec (67 ∷ []) ∷ []) built (at_ms 0))
        messages)
unfolding window_spec
with_window_spec-Finishes_example =
    with_window_spec-Finishes true (spec (66 ∷ []) ∷ spec (67 ∷ []) ∷ []) 1000000000
      (5000000000 ∷ []) (at_ms 0) messages
      (omega arith, (omega arith, (omega arith, (omega arith, (omega arith, (omega arith, tt))))))

abbrev aggregator : Aggregator ℕ ℕ
aggregator = record {
  streams = streams;
  depth_levels = 10;
  seq = 41;
  cross_policy = default_policy;
  owned = some (key ∷ []);
}

abbrev quiet : ChannelMetrics
quiet = record { len = 0; capacity = 8; dropped = 0 }

snapshot-owned_example :
    Holds
      (λ r. venues_under (66 ∷ []) r.1.symbols ≡ VenueId.fake ∷ [])
      (snapshot aggregator quiet (at_ms 1001))
snapshot-owned_example = snapshot-owned aggregator quiet (at_ms 1001) (66 ∷ [])

-- A live stream and one without data.
abbrev shown : List (Published ℕ)
shown =
    record {
      stream = key;
      view = venue_view VenueId.fake live_stream [] 10 (at_ms 3);
      top = top_of_book live_stream.book.book (at_ms 3);
    }
    ∷ record {
      stream = other;
      view = venue_view VenueId.fake opened_stream [] 10 (at_ms 3);
      top = top_of_book opened_stream.book.book (at_ms 3);
    }
    ∷ []

symbol_view-weakest_example :
    let w = (symbol_view default_policy (66 ∷ [], shown)).weakest_integrity in
    All (NoStronger w) (map (λ (p : Published ℕ). p.view.integrity) shown)
    × MadeBy w (map (λ (p : Published ℕ). p.view.integrity) shown)
symbol_view-weakest_example = symbol_view-weakest default_policy (66 ∷ []) shown
