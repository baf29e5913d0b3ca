-- ===== src/Pipeline/Ingest/Sessions.antt =====
-- What an ingest task leaves on its tape, beside what it counts.
use market_aggregator.Common.{
  Bool, true, false, Option, none, some, List, [], ◌∷◌, refl, Bool-cases, inl, inr, not, ◌&&◌,
  if◌then◌else◌,
}
use market_aggregator.Pipeline.Backoff.{Backoff, BackoffPolicy, Jitter}
use market_aggregator.Pipeline.Messages.{IngestMessage, SessionEnd, should_retry}
use market_aggregator.Pipeline.Ingest.{
  Endpoint, Turn, RestState, AuditState, Task, Round, Attempt, InSession, all_sent,
}
use market_aggregator.Pipeline.Ingest.Loop.{
  turn_of, session_loop, session, after_session, run, lower_arms, rest_arm, unless_ended,
}
use market_aggregator.Pipeline.Ingest.Tells.{
  Tells, Goes, Goes-final, Goes-quiet, Goes-then, Goes-told,
}
use market_aggregator.Pipeline.Ingest.Polls.{
  Goes-poll_rest, Goes-wake_rest, Goes-poll_audit, Goes-receive,
}

-- What holds of both branches of a test holds of the test.
if_holds : {A : Type 0} (P : A → Type 0) (b : Bool) (x y : A) → P x → P y → P (if b then x else y)
if_holds P true x y hx hy = hx
if_holds P false x y hx hy = hy

module _ {D S : Type 0} (policy : BackoffPolicy) (j : Jitter S) (e : Endpoint) where
  Leads : Task D → InSession D S × Option SessionEnd → Type 0
  Leads t r = Goes e.stream r.1 t r.0.task

  Leads-lower_arms : (turn : Turn) (s : InSession D S) → Leads s.task (lower_arms policy j e turn s)
  unfolding Leads
  Leads-lower_arms turn s =
      Goes-then
        (if_holds (λ (r : Task D × AuditState). Goes e.stream none s.task r.0) e.has_rest_audit _ _
          (Goes-poll_audit policy j e turn.audit s.audit s.task)
          (Goes-quiet e.stream none s.task s.task refl refl))
        (Goes-receive policy j e turn.arrival _)

  Leads-polled :
      (turn : Turn) (s : InSession D S) (found : Task D × RestState S × Bool)
      → Goes e.stream none s.task found.0
      → let after = record s { task = found.0; rest = found.1; rest_pending = not found.2 } in
        Leads s.task (if found.2 then (after, none) else lower_arms policy j e turn after)
  unfolding Leads
  Leads-polled turn s found h =
      let after = record s { task = found.0; rest = found.1; rest_pending = not found.2 } in
      if_holds (Leads s.task) found.2 _ _ h (Goes-then h (Leads-lower_arms turn after))

  Leads-rest_arm :
      (seed : S) (turn : Turn) (s : InSession D S) → Leads s.task (rest_arm policy j e seed turn s)
  unfolding Leads
  Leads-rest_arm seed turn s =
      if_holds (Leads s.task) s.rest_pending _ _
        (Leads-polled turn s _ (
          Goes-then (Goes-wake_rest policy j e seed s.rest s.task)
            (Goes-poll_rest policy j e turn.rest _ _)))
        (Leads-lower_arms turn s)

  Leads-turn_of :
      (seed : S) (turn : Turn) (s : InSession D S) → Leads s.task (turn_of policy j e seed turn s)
  unfolding turn_of Leads
  Leads-turn_of seed turn s =
      if_holds (Leads s.task) turn.stop _ _ (Goes-quiet e.stream _ s.task s.task refl refl) (
        if_holds (Leads s.task) (e.listens && turn.resync) _ _
          (Goes-quiet e.stream _ s.task s.task refl refl) (Leads-rest_arm seed turn s))

  Ends : Task D → Task D × Option SessionEnd → Type 0
  Ends t r = Goes e.stream r.1 t r.0

  Ends-unless_ended :
      (t u : Task D) (rest : Task D × Option SessionEnd) (end : Option SessionEnd)
      → Goes e.stream end t u
      → Ends u rest
      → Ends t (unless_ended rest u end)
  unfolding Ends
  Ends-unless_ended t u rest none h hs = Goes-then h hs
  Ends-unless_ended t u rest (some end) h hs = h

  Ends-session_loop :
      (seed : S) (rs : List (Round D)) (s : InSession D S)
      → Ends s.task (session_loop policy j e seed rs s)
  unfolding session_loop Ends Leads
  Ends-session_loop seed [] s = Goes-quiet e.stream none s.task s.task refl refl
  Ends-session_loop seed (r ∷ rs) s =
      Ends-unless_ended s.task _ _ _
        (Goes-then (Goes-quiet e.stream none s.task _ refl refl) (Leads-turn_of seed r.turn _))
        (Ends-session_loop seed rs _)

  Ends-session : (a : Attempt D S) (t : Task D) → Ends t (session policy j e a t)
  unfolding session Ends
  Ends-session a t =
      if_holds (Ends t) (a.connected && all_sent e.subscribe a.sends) _ _
        (Goes-then (Goes-quiet e.stream none t _ refl refl) (Ends-session_loop a.seed a.rounds _))
        (Goes-quiet e.stream _ t _ refl refl)

  Runs : Task D → Task D × Bool → Type 0
  Runs t r = Goes e.stream none t r.0

  Runs-after_session :
      (go_on : Backoff S → Task D → Task D × Bool)
      → ((b : Backoff S) (t : Task D) → Runs t (go_on b t))
      → (a : Attempt D S) (b : Backoff S) (t u : Task D) (end : Option SessionEnd)
      → Goes e.stream end t u
      → Runs t (after_session policy j e go_on a b u end)
  unfolding Runs
  Runs-after_session go_on hs a b t u none h = h
  Runs-after_session go_on hs a b t u (some end) h = elim (Bool-cases (should_retry end)) [
    | inl retried ↦ rw retried (
        if_holds (Runs t) a.stop_asleep _ _ (Goes-told a.noted end retried h)
          (Goes-then (Goes-told a.noted end retried h) (hs _ _)))
    | inr final ↦ rw final (Goes-final end final h)
  ]

  -- Whatever the network, the clock and the other holders of the channel do, and at whatever point
  -- the task stops or is left waiting, what it puts on its tape, if it has one, is a list of frames
  -- of its stream and of ends of its sessions, each an end that it connects again after. Its
  -- counters of frames, of failed connections, of lost connections and of idle timeouts are, from
  -- the same start, those of that list: one for each frame, and one for each end by its kind.
  pub run-Tells :
      (attempts : List (Attempt D S)) (b : Backoff S) (t : Task D)
      → (told : List (IngestMessage D)) × Tells e.stream none t (run policy j e attempts b t).0 told
  unfolding run Runs Ends
  run-Tells [] b t = Goes-quiet e.stream none t t refl refl
  run-Tells (a ∷ more) b t =
      let go_on = λ (b' : Backoff S) (t' : Task D). run policy j e more b' t' in
      let (t', end) = session policy j e a t in
      if_holds (Runs t) a.stop_before (t, true) (after_session policy j e go_on a b t' end)
        (Goes-quiet e.stream none t t refl refl)
        (Runs-after_session go_on (λ b' u. run-Tells more b' u) a b t t' end (Ends-session a t))
