-- ===== src/Pipeline/Messages.antt =====
-- crates/ma-pipeline/src/ingest.rs: what an ingest task hands to the aggregator.
use market_aggregator.Common.{Bool, true, false}
use market_aggregator.Core.Time.{IngestTime}
use market_aggregator.Core.Event.{VenueId, StreamId, MarketEvent}
use market_aggregator.Venues.Sync.{RawFrame}

pub data SessionEnd : Type 0 where
  connect_failed closed errored idle resync_requested downstream stopped : SessionEnd

-- `SessionEnd::should_retry`.
unfoldable pub should_retry : SessionEnd → Bool
should_retry SessionEnd.downstream = false
should_retry SessionEnd.stopped = false
should_retry _ = true

pub data IngestMessage (D : Type 0) : Type 0 where
  frame : RawFrame → IngestMessage D
  event : StreamId → MarketEvent D → IngestMessage D
  session_ended : StreamId → IngestTime → SessionEnd → IngestMessage D

module _ {D : Type 0} where
  -- `IngestMessage::stream` and `IngestMessage::venue`.
  abbrev pub stream_of : IngestMessage D → StreamId
  stream_of (IngestMessage.frame f) = f.stream
  stream_of (IngestMessage.event s e) = s
  stream_of (IngestMessage.session_ended s at end) = s

  abbrev pub venue_of : IngestMessage D → VenueId
  venue_of m = (stream_of m).venue

  -- The time that `apply` takes a message at.
  abbrev pub time_of : IngestMessage D → IngestTime
  time_of (IngestMessage.frame f) = f.ingest_ts
  time_of (IngestMessage.event s e) = e.ingest_ts
  time_of (IngestMessage.session_ended s at end) = at
