-- ===== src/Pipeline/Ingest/Loop.antt =====
-- crates/ma-pipeline/src/ingest.rs: the futures of a session, its `select!`, and the loop of `run`.
use market_aggregator.Common.{
  Bool, true, false, Option, none, some, List, [], ◌∷◌, not, ◌&&◌, if◌then◌else◌,
}
use market_aggregator.Core.Time.{since}
use market_aggregator.Venues.Sync.{FrameSource}
use market_aggregator.Pipeline.Backoff.{
  Backoff, BackoffPolicy, Jitter, new, note_session, next_delay,
}
use market_aggregator.Pipeline.Messages.{IngestMessage, SessionEnd, should_retry}
use market_aggregator.Pipeline.Metrics.{
  record_connect, record_disconnect, record_connect_failure, record_idle_timeout, record_rest_fetch,
  record_rest_failure, record_audit_fetch, record_audit_failure,
}
use market_aggregator.Pipeline.Ingest.{
  Endpoint, Progress, Arrival, Turn, RestState, AuditState, Task, Round, Attempt, InSession, raw,
  parked_unless, all_sent, count, publish, emit,
}

module _ {D : Type 0} where
  abbrev pub unless_ended :
      Task D × Option SessionEnd → Task D → Option SessionEnd → Task D × Option SessionEnd
  unless_ended rest t none = rest
  unless_ended rest t (some end) = (t, some end)

-- `BackoffPolicy` and the jitter of the process, and what a task is started with.
module _ {D S : Type 0} (policy : BackoffPolicy) (j : Jitter S) (e : Endpoint) where
  -- `rest_snapshot` from where it stands, as far as it goes; `Bool` is whether it resolved.
  unfoldable pub poll_rest : List Progress → RestState S → Task D → Task D × RestState S × Bool
  unfolding emit
  poll_rest [] st t = (t, st, false)
  poll_rest (Progress.answered body at ∷ ps) (RestState.fetching b) t =
      ((emit t (raw e body at FrameSource.rest_snapshot)).0, RestState.finished, true)
  poll_rest (Progress.failed ∷ ps) (RestState.fetching b) t =
      poll_rest ps (RestState.sleeping (next_delay j b).0) (count record_rest_failure t)
  poll_rest (Progress.fired ∷ ps) (RestState.sleeping b) t =
      poll_rest ps (RestState.fetching b) (count record_rest_fetch t)
  poll_rest (p ∷ ps) st t = poll_rest ps st t

  -- The first poll of `rest_snapshot` asks at once; without a URL it stays pending.
  abbrev pub wake_rest : S → RestState S → Task D → Task D × RestState S
  wake_rest seed RestState.unasked t =
      if e.has_rest_snapshot
      then (count record_rest_fetch t, RestState.fetching (new policy seed))
      else (t, RestState.unasked)
  wake_rest seed st t = (t, st)

  -- `audit_loop` from where it stands, as far as it goes.
  unfoldable pub poll_audit : List Progress → AuditState → Task D → Task D × AuditState
  unfolding emit
  poll_audit [] st t = (t, st)
  poll_audit (Progress.fired ∷ ps) AuditState.unticked t = poll_audit ps AuditState.idling t
  poll_audit (Progress.fired ∷ ps) AuditState.idling t =
      poll_audit ps AuditState.fetching (count record_audit_fetch t)
  poll_audit (Progress.answered body at ∷ ps) AuditState.fetching t =
      let o = emit t (raw e body at FrameSource.rest_audit) in poll_audit ps (parked_unless o.1) o.0
  poll_audit (Progress.failed ∷ ps) AuditState.fetching t =
      poll_audit ps AuditState.idling (count record_audit_failure t)
  poll_audit (p ∷ ps) st t = poll_audit ps st t

  -- The last arm of the `select!`.
  unfoldable pub receive : Option Arrival → Task D → Task D × Option SessionEnd
  unfolding emit
  receive none t = (t, none)
  receive (some Arrival.elapsed) t = (count record_idle_timeout t, some SessionEnd.idle)
  receive (some Arrival.end_of_stream) t = (count record_disconnect t, some SessionEnd.closed)
  receive (some Arrival.socket_error) t = (count record_disconnect t, some SessionEnd.errored)
  receive (some (Arrival.payload body at)) t =
      let o = emit t (raw e body at FrameSource.web_socket) in
      (o.0, if o.1 then none else some SessionEnd.downstream)

  -- The arms below the `rest` arm.
  abbrev pub lower_arms : Turn → InSession D S → InSession D S × Option SessionEnd
  lower_arms turn s =
      let (t, audit) =
        (if e.has_rest_audit then poll_audit turn.audit s.audit s.task else (s.task, s.audit)) in
      let (t', end) = receive turn.arrival t in (record s { task = t'; audit = audit }, end)

  -- The `rest` arm, and those below it where it is pending or off.
  abbrev pub rest_arm : S → Turn → InSession D S → InSession D S × Option SessionEnd
  rest_arm seed turn s =
      let (woken, st) = wake_rest seed s.rest s.task in
      let (t, st', resolved) = poll_rest turn.rest st woken in
      let polled = record s { task = t; rest = st'; rest_pending = not resolved } in
      if s.rest_pending
      then (if resolved then (polled, none) else lower_arms turn polled)
      else lower_arms turn s

  -- One turn of the loop of `session`, its arms in the order of the `biased` select.
  unfoldable pub turn_of : S → Turn → InSession D S → InSession D S × Option SessionEnd
  unfolding poll_rest poll_audit receive
  turn_of seed turn s =
      if turn.stop
      then (s, some SessionEnd.stopped)
      else if e.listens && turn.resync
      then (s, some SessionEnd.resync_requested)
      else rest_arm seed turn s

  -- The loop of `session`; `none` is a session that still waits.
  unfoldable pub session_loop : S → List (Round D) → InSession D S → Task D × Option SessionEnd
  session_loop seed [] s = (s.task, none)
  session_loop seed (r ∷ rs) s =
      let (s', end) =
        turn_of seed r.turn
          (record s { task = record (s.task) { channel = r.meanwhile s.task.channel } }) in
      unless_ended (session_loop seed rs s') s'.task end

  -- `Ingest::session`.
  unfoldable pub session : Attempt D S → Task D → Task D × Option SessionEnd
  unfolding session_loop
  session a t =
      if a.connected && all_sent e.subscribe a.sends
      then session_loop a.seed a.rounds (record {
        task = count record_connect t;
        rest = RestState.unasked;
        rest_pending = true;
        audit = AuditState.unticked;
      })
      else (count record_connect_failure t, some SessionEnd.connect_failed)

  -- What `run` does with a session that ended, with the rest of its loop.
  abbrev pub after_session :
      (Backoff S → Task D → Task D × Bool)
      → Attempt D S
      → Backoff S
      → Task D
      → Option SessionEnd
      → Task D × Bool
  after_session go_on a b t none = (t, false)
  after_session go_on a b t (some end) =
      let told = (publish t (IngestMessage.session_ended e.stream a.noted end)).0 in
      let b' = (next_delay j (note_session b (since a.ended a.started)).0).0 in
      if should_retry end
      then (if a.stop_asleep then (told, true) else go_on b' told)
      else (t, true)

  -- `Ingest::run`; `Bool` is whether it returned.
  unfoldable pub run : List (Attempt D S) → Backoff S → Task D → Task D × Bool
  unfolding session publish
  run [] b t = (t, false)
  run (a ∷ more) b t =
      let (t', end) = session a t in
      let looped = after_session (λ b' told. run more b' told) a b t' end in
      if a.stop_before then (t, true) else looped
