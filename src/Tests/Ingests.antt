-- ===== src/Tests/Ingests.antt =====
-- An ingest task that is refused, reads two frames, waits too long, and is told to stop.
use market_aggregator.Common.{ℕ, Bool, true, false, none, some, List, [], ◌∷◌, ◌≡◌, refl}
use market_aggregator.Core.Event.{VenueId}
use market_aggregator.Venues.Sync.{FrameSource}
use market_aggregator.Pipeline.Backoff.{default_backoff, new, no_jitter}
use market_aggregator.Pipeline.Channel.{send}
use market_aggregator.Pipeline.Messages.{IngestMessage, SessionEnd, should_retry}
use market_aggregator.Pipeline.Metrics.{no_counts}
use market_aggregator.Pipeline.Ingest.{Endpoint, Progress, Arrival, Turn, Task, Round, Attempt, raw}
use market_aggregator.Pipeline.Ingest.Loop.{run, turn_of}
use market_aggregator.Pipeline.Ingest.Tells.{Tells}
use market_aggregator.Pipeline.Ingest.Sessions.{run-Tells}
use market_aggregator.Tests.Data.{at_ms}

abbrev watched : Endpoint
watched = record {
  stream = record { venue = VenueId.bitstamp; symbol = 66 ∷ [] };
  subscribe = (1 ∷ []) ∷ [];
  has_rest_snapshot = true;
  has_rest_audit = false;
  listens = true;
}

abbrev started : Task ℕ
started = record {
  channel = record { capacity = 1; queue = []; dropped = 0; sender_count = 1; closed = false };
  counters = no_counts;
  tape = some [];
}

abbrev quiet : Turn
quiet = record { stop = false; resync = false; rest = []; audit = []; arrival = none }

abbrev turns : List (Round ℕ)
turns =
    record {
      meanwhile = λ c. c;
      turn = record quiet { arrival = some (Arrival.payload (5 ∷ 6 ∷ []) (at_ms 3)) };
    }
    ∷ record {
      meanwhile = λ c. record c { queue = [] };
      turn = record quiet {
        rest = Progress.failed ∷ Progress.fired ∷ Progress.answered (7 ∷ []) (at_ms 4) ∷ [];
      };
    }
    ∷ record { meanwhile = λ c. c; turn = record quiet { arrival = some Arrival.elapsed } }
    ∷ []

abbrev refused : Attempt ℕ (Unit {0})
refused = record {
  stop_before = false;
  started = at_ms 0;
  connected = false;
  sends = [];
  seed = tt;
  rounds = [];
  ended = at_ms 1;
  noted = at_ms 1;
  stop_asleep = false;
}

abbrev attempts : List (Attempt ℕ (Unit {0}))
attempts =
    refused
    ∷ record refused { connected = true; sends = true ∷ []; rounds = turns; noted = at_ms 9 }
    ∷ record refused { stop_before = true }
    ∷ []

abbrev at_work : Task ℕ × Bool
at_work = run default_backoff no_jitter watched attempts (new default_backoff tt) started

run-attempts :
    (at_work.1 ≡ true)
    × (at_work.0.tape
        ≡ some (
            IngestMessage.session_ended watched.stream (at_ms 1) SessionEnd.connect_failed
            ∷ IngestMessage.frame (raw watched (5 ∷ 6 ∷ []) (at_ms 3) FrameSource.web_socket)
            ∷ IngestMessage.frame (raw watched (7 ∷ []) (at_ms 4) FrameSource.rest_snapshot)
            ∷ IngestMessage.session_ended watched.stream (at_ms 9) SessionEnd.idle
            ∷ []))
    × (at_work.0.counters.frames ≡ 2)
    × (at_work.0.counters.bytes ≡ 3)
    × (at_work.0.counters.rest_fetches ≡ 2)
    × (at_work.0.counters.dropped ≡ 2)
unfolding run should_retry turn_of send
run-attempts = (refl, refl, refl, refl, refl, refl)

run-Tells_example :
    (told : List (IngestMessage ℕ)) × Tells watched.stream none started at_work.0 told
run-Tells_example =
    run-Tells default_backoff no_jitter watched attempts (new default_backoff tt) started
