-- ===== src/Pipeline/Ingest.antt =====
-- crates/ma-pipeline/src/ingest.rs: the task of one connection, over what the network, the clock and
-- the other holders of the channel do. The timers, the socket and the signals are not of this
-- repository: what they answer is a list that the task reads in order, and a list that is used up
-- is a task that still waits.
pub mod Loop
pub mod Tells
pub mod Polls
pub mod Sessions
use market_aggregator.Common.{
  ℕ, Bool, true, false, Option, none, some, List, [], ◌∷◌, ◌++◌, Text, length, not, ◌&&◌,
  if◌then◌else◌,
}
use market_aggregator.Core.Time.{IngestTime, since}
use market_aggregator.Core.Event.{StreamId}
use market_aggregator.Venues.Sync.{RawFrame, FrameSource}
use market_aggregator.Pipeline.Backoff.{
  Backoff, BackoffPolicy, Jitter, new, note_session, next_delay,
}
use market_aggregator.Pipeline.Channel.{Channel, SendOutcome, send}
use market_aggregator.Pipeline.Messages.{IngestMessage, SessionEnd, should_retry}
use market_aggregator.Pipeline.Metrics.{
  VenueCounters, record_connect, record_disconnect, record_connect_failure, record_idle_timeout,
  record_drop, record_rest_fetch, record_rest_failure, record_audit_fetch, record_audit_failure,
  record_frame,
}

-- What a session asks of `VenueEndpoint`, and whether a `ResyncSignal` was wired up.
pub record Endpoint : Type 0 where
  pub stream : StreamId
  pub subscribe : List Text
  pub has_rest_snapshot : Bool
  pub has_rest_audit : Bool
  pub listens : Bool

-- What a future finds when it is polled: a request answered, with the time it is read at, a request
-- failed, or a timer that fired.
pub data Progress : Type 0 where
  answered : Text → IngestTime → Progress
  failed fired : Progress

-- What `timeout(idle_timeout, socket.recv())` comes to.
pub data Arrival : Type 0 where
  payload : Text → IngestTime → Arrival
  end_of_stream socket_error elapsed : Arrival

-- What the arms of the `select!` find in one turn of the loop.
pub record Turn : Type 0 where
  pub stop : Bool
  pub resync : Bool
  pub rest : List Progress
  pub audit : List Progress
  pub arrival : Option Arrival

-- Where the two futures of a session stand.
pub data RestState (S : Type 0) : Type 0 where
  unasked : RestState S
  fetching sleeping : Backoff S → RestState S
  finished : RestState S

pub data AuditState : Type 0 where
  unticked idling fetching parked : AuditState

module _ (D : Type 0) where
  -- The shared channel, the counters, and the tape so far where there is one.
  pub record Task : Type 0 where
    pub channel : Channel (IngestMessage D)
    pub counters : VenueCounters
    pub tape : Option (List (IngestMessage D))

  -- A turn, after what the other holders of the channel did to it.
  pub record Round : Type 0 where
    pub meanwhile : Channel (IngestMessage D) → Channel (IngestMessage D)
    pub turn : Turn

module _ (D S : Type 0) where
  -- What one attempt meets: the connection, each send of a subscription, the seed of the retry
  -- schedule, the rounds, and around them the times and the stop signal that `run` reads.
  pub record Attempt : Type 0 where
    pub stop_before : Bool
    pub started : IngestTime
    pub connected : Bool
    pub sends : List Bool
    pub seed : S
    pub rounds : List (Round D)
    pub ended : IngestTime
    pub noted : IngestTime
    pub stop_asleep : Bool

  pub record InSession : Type 0 where
    pub task : Task D
    pub rest : RestState S
    pub rest_pending : Bool
    pub audit : AuditState

-- The three constructors of a frame differ in its source.
abbrev pub raw : Endpoint → Text → IngestTime → FrameSource → RawFrame
raw e body at source = record { stream = e.stream; payload = body; ingest_ts = at; source = source }

abbrev pub parked_unless : Bool → AuditState
parked_unless true = AuditState.idling
parked_unless false = AuditState.parked

-- Whether each payload of the subscription is sent.
abbrev pub all_sent : List Text → List Bool → Bool
all_sent [] bs = true
all_sent (p ∷ ps) (true ∷ bs) = all_sent ps bs
all_sent (p ∷ ps) bs = false

module _ {D : Type 0} where
  abbrev pub count : (VenueCounters → VenueCounters) → Task D → Task D
  count f t = record t { counters = f t.counters }

  abbrev pub tee :
      IngestMessage D → Option (List (IngestMessage D)) → Option (List (IngestMessage D))
  tee m none = none
  tee m (some ms) = some (ms ++ m ∷ [])

  abbrev pub after_send : Task D → SendOutcome (IngestMessage D) → Task D × Bool
  after_send t SendOutcome.sent = (t, true)
  after_send t (SendOutcome.dropped_oldest old) = (count record_drop t, true)
  after_send t (SendOutcome.refused m) = (t, false)

  -- `Ingest::publish`.
  unfoldable pub publish : Task D → IngestMessage D → Task D × Bool
  publish t m =
      let (c, outcome) = send t.channel m in
      after_send (record t { channel = c; tape = tee m t.tape }) outcome

  -- `Ingest::emit`.
  unfoldable pub emit : Task D → RawFrame → Task D × Bool
  emit t f = publish (count (λ c. record_frame c (length f.payload)) t) (IngestMessage.frame f)
