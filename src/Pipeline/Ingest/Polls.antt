-- ===== src/Pipeline/Ingest/Polls.antt =====
-- What the two futures of a session and its last arm tell.
use market_aggregator.Common.{
  Bool, true, false, Option, none, some, List, [], ◌∷◌, refl, Bool-cases, inl, inr, if◌then◌else◌,
}
use market_aggregator.Venues.Sync.{FrameSource}
use market_aggregator.Pipeline.Backoff.{BackoffPolicy, Jitter}
use market_aggregator.Pipeline.Messages.{SessionEnd}
use market_aggregator.Pipeline.Ingest.{
  Endpoint, Progress, Arrival, RestState, AuditState, Task, emit, raw,
}
use market_aggregator.Pipeline.Ingest.Loop.{poll_rest, poll_audit, receive, wake_rest}
use market_aggregator.Pipeline.Ingest.Tells.{Goes, Goes-quiet, Goes-then, Goes-emit}

module _ {D S : Type 0} (policy : BackoffPolicy) (j : Jitter S) (e : Endpoint) where
  pub Goes-poll_rest :
      (ps : List Progress) (st : RestState S) (t : Task D)
      → Goes e.stream none t (poll_rest policy j e ps st t).0
  unfolding poll_rest
  Goes-poll_rest [] st t = Goes-quiet e.stream none t t refl refl
  Goes-poll_rest (Progress.answered body at ∷ ps) RestState.unasked t =
      Goes-poll_rest ps RestState.unasked t
  Goes-poll_rest (Progress.answered body at ∷ ps) (RestState.fetching b) t =
      Goes-emit e.stream t (raw e body at FrameSource.rest_snapshot) refl
  Goes-poll_rest (Progress.answered body at ∷ ps) (RestState.sleeping b) t =
      Goes-poll_rest ps (RestState.sleeping b) t
  Goes-poll_rest (Progress.answered body at ∷ ps) RestState.finished t =
      Goes-poll_rest ps RestState.finished t
  Goes-poll_rest (Progress.failed ∷ ps) RestState.unasked t = Goes-poll_rest ps RestState.unasked t
  Goes-poll_rest (Progress.failed ∷ ps) (RestState.fetching b) t =
      Goes-then (Goes-quiet e.stream none t _ refl refl) (Goes-poll_rest ps _ _)
  Goes-poll_rest (Progress.failed ∷ ps) (RestState.sleeping b) t =
      Goes-poll_rest ps (RestState.sleeping b) t
  Goes-poll_rest (Progress.failed ∷ ps) RestState.finished t =
      Goes-poll_rest ps RestState.finished t
  Goes-poll_rest (Progress.fired ∷ ps) RestState.unasked t = Goes-poll_rest ps RestState.unasked t
  Goes-poll_rest (Progress.fired ∷ ps) (RestState.fetching b) t =
      Goes-poll_rest ps (RestState.fetching b) t
  Goes-poll_rest (Progress.fired ∷ ps) (RestState.sleeping b) t =
      Goes-then (Goes-quiet e.stream none t _ refl refl) (Goes-poll_rest ps _ _)
  Goes-poll_rest (Progress.fired ∷ ps) RestState.finished t = Goes-poll_rest ps RestState.finished t

  pub Goes-wake_rest :
      (seed : S) (st : RestState S) (t : Task D)
      → Goes e.stream none t (wake_rest policy j e seed st t).0
  Goes-wake_rest seed RestState.unasked t = elim (Bool-cases e.has_rest_snapshot) [
    | inl asks ↦ rw asks (Goes-quiet e.stream none t _ refl refl)
    | inr never ↦ rw never (Goes-quiet e.stream none t _ refl refl)
  ]
  Goes-wake_rest seed (RestState.fetching b) t = Goes-quiet e.stream none t t refl refl
  Goes-wake_rest seed (RestState.sleeping b) t = Goes-quiet e.stream none t t refl refl
  Goes-wake_rest seed RestState.finished t = Goes-quiet e.stream none t t refl refl

  pub Goes-poll_audit :
      (ps : List Progress) (st : AuditState) (t : Task D)
      → Goes e.stream none t (poll_audit policy j e ps st t).0
  unfolding poll_audit
  Goes-poll_audit [] st t = Goes-quiet e.stream none t t refl refl
  Goes-poll_audit (Progress.answered body at ∷ ps) AuditState.unticked t =
      Goes-poll_audit ps AuditState.unticked t
  Goes-poll_audit (Progress.answered body at ∷ ps) AuditState.idling t =
      Goes-poll_audit ps AuditState.idling t
  Goes-poll_audit (Progress.answered body at ∷ ps) AuditState.fetching t =
      Goes-then (Goes-emit e.stream t (raw e body at FrameSource.rest_audit) refl)
        (Goes-poll_audit ps _ _)
  Goes-poll_audit (Progress.answered body at ∷ ps) AuditState.parked t =
      Goes-poll_audit ps AuditState.parked t
  Goes-poll_audit (Progress.failed ∷ ps) AuditState.unticked t =
      Goes-poll_audit ps AuditState.unticked t
  Goes-poll_audit (Progress.failed ∷ ps) AuditState.idling t =
      Goes-poll_audit ps AuditState.idling t
  Goes-poll_audit (Progress.failed ∷ ps) AuditState.fetching t =
      Goes-then (Goes-quiet e.stream none t _ refl refl) (Goes-poll_audit ps _ _)
  Goes-poll_audit (Progress.failed ∷ ps) AuditState.parked t =
      Goes-poll_audit ps AuditState.parked t
  Goes-poll_audit (Progress.fired ∷ ps) AuditState.unticked t =
      Goes-poll_audit ps AuditState.idling t
  Goes-poll_audit (Progress.fired ∷ ps) AuditState.idling t =
      Goes-then (Goes-quiet e.stream none t _ refl refl) (Goes-poll_audit ps _ _)
  Goes-poll_audit (Progress.fired ∷ ps) AuditState.fetching t =
      Goes-poll_audit ps AuditState.fetching t
  Goes-poll_audit (Progress.fired ∷ ps) AuditState.parked t = Goes-poll_audit ps AuditState.parked t

  pub Goes-receive :
      (x : Option Arrival) (t : Task D)
      → Goes e.stream (receive policy j e x t).1 t (receive policy j e x t).0
  unfolding receive
  Goes-receive none t = Goes-quiet e.stream none t t refl refl
  Goes-receive (some Arrival.elapsed) t = Goes-quiet e.stream _ t _ refl refl
  Goes-receive (some Arrival.end_of_stream) t = Goes-quiet e.stream _ t _ refl refl
  Goes-receive (some Arrival.socket_error) t = Goes-quiet e.stream _ t _ refl refl
  Goes-receive (some (Arrival.payload body at)) t =
      heard (emit t (raw e body at FrameSource.web_socket)).1
        (Goes-emit e.stream t (raw e body at FrameSource.web_socket) refl)
    where
      heard :
          {u : Task D} (b : Bool)
          → Goes e.stream none t u
          → Goes e.stream (if b then none else some SessionEnd.downstream) t u
      heard true h = h
      heard false h = Goes-then h (Goes-quiet e.stream _ _ _ refl refl)
