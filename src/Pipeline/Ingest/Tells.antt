-- ===== src/Pipeline/Ingest/Tells.antt =====
-- What one step of an ingest task tells: how the tape and the counters move together.
use market_aggregator.Common.{
  ℕ, true, false, Option, none, some, List, [], ◌∷◌, ◌++◌, ◌≡◌, refl, sym, ap, ◌∙◌, All, All-append,
  arith,
}
use mathlib.Core.List.{append_assoc, append-nil}
use market_aggregator.Core.Time.{IngestTime}
use market_aggregator.Core.Event.{StreamId}
use market_aggregator.Venues.Sync.{RawFrame}
use market_aggregator.Pipeline.Channel.{SendOutcome, send}
use market_aggregator.Pipeline.Messages.{IngestMessage, SessionEnd, should_retry}
use market_aggregator.Pipeline.Metrics.{VenueCounters, fetch_add}
use market_aggregator.Pipeline.Ingest.{Task, tee, after_send, publish, emit}

-- Frames, failed connections, lost connections and idle timeouts.
abbrev pub Tally : Type 0
Tally = ℕ × ℕ × ℕ × ℕ

abbrev pub tally_of : VenueCounters → Tally
tally_of c = (c.frames, c.connect_failures, c.disconnects, c.idle_timeouts)

abbrev pub with_end : Tally → SessionEnd → Tally
with_end (f, c, d, i) SessionEnd.connect_failed = (f, fetch_add c 1, d, i)
with_end (f, c, d, i) SessionEnd.closed = (f, c, fetch_add d 1, i)
with_end (f, c, d, i) SessionEnd.errored = (f, c, fetch_add d 1, i)
with_end (f, c, d, i) SessionEnd.idle = (f, c, d, fetch_add i 1)
with_end x SessionEnd.resync_requested = x
with_end x SessionEnd.downstream = x
with_end x SessionEnd.stopped = x

-- An end that is not retried from is in no counter of the tally.
with_end-final : (x : Tally) (end : SessionEnd) → should_retry end ≡ false → with_end x end ≡ x
unfolding should_retry
with_end-final x SessionEnd.connect_failed h = ground arith
with_end-final x SessionEnd.closed h = ground arith
with_end-final x SessionEnd.errored h = ground arith
with_end-final x SessionEnd.idle h = ground arith
with_end-final x SessionEnd.resync_requested h = refl
with_end-final x SessionEnd.downstream h = refl
with_end-final x SessionEnd.stopped h = refl

abbrev pub with_owed : Tally → Option SessionEnd → Tally
with_owed x none = x
with_owed x (some end) = with_end x end

module _ {D : Type 0} where
  abbrev pub with_message : Tally → IngestMessage D → Tally
  with_message (f, c, d, i) (IngestMessage.frame r) = (fetch_add f 1, c, d, i)
  with_message x (IngestMessage.event s ev) = x
  with_message x (IngestMessage.session_ended s at end) = with_end x end

  -- The tally after the messages of a tape, read in order.
  abbrev pub tallied : Tally → List (IngestMessage D) → Tally
  tallied x [] = x
  tallied x (m ∷ ms) = tallied (with_message x m) ms

  abbrev pub with_told :
      Option (List (IngestMessage D)) → List (IngestMessage D) → Option (List (IngestMessage D))
  with_told none ms = none
  with_told (some old) ms = some (old ++ ms)

  -- What a task may tell: a frame of its stream, or the end of a session to connect again after.
  abbrev pub IsOf : StreamId → IngestMessage D → Type 0
  IsOf s (IngestMessage.frame f) = f.stream ≡ s
  IsOf s (IngestMessage.event s' ev) = false ≡ true
  IsOf s (IngestMessage.session_ended s' at end) = (s' ≡ s) × (should_retry end ≡ true)

  -- Between two states the task put `told` on its tape; its counters are those of `told` and of
  -- an end that is not told.
  pub record Tells (s : StreamId) (owed : Option SessionEnd) (t t' : Task D)
      (told : List (IngestMessage D)) : Type 0 where
    pub tape : t'.tape ≡ with_told t.tape told
    pub counts : tally_of t'.counters ≡ with_owed (tallied (tally_of t.counters) told) owed
    pub of_stream : All (IsOf s) told

  abbrev pub Goes : StreamId → Option SessionEnd → Task D → Task D → Type 0
  Goes s owed t t' = (told : List (IngestMessage D)) × Tells s owed t t' told

  tallied-append :
      (x : Tally) (a b : List (IngestMessage D)) → tallied x (a ++ b) ≡ tallied (tallied x a) b
  tallied-append x [] b = refl
  tallied-append x (m ∷ a) b = tallied-append (with_message x m) a b

  with_told-append :
      (o : Option (List (IngestMessage D))) (a b : List (IngestMessage D))
      → with_told o (a ++ b) ≡ with_told (with_told o a) b
  with_told-append none a b = refl
  with_told-append (some old) a b = ap some (sym (append_assoc old a b))

  -- What is neither with_told nor tallied.
  pub Goes-quiet :
      (s : StreamId) (o : Option SessionEnd) (t t' : Task D)
      → t'.tape ≡ t.tape
      → tally_of t'.counters ≡ with_owed (tally_of t.counters) o
      → Goes s o t t'
  Goes-quiet s o t t' same counts =
      ([], record { tape = same ∙ nothing t.tape; counts = counts; of_stream = tt })
    where
      nothing : (x : Option (List (IngestMessage D))) → x ≡ with_told x []
      nothing none = refl
      nothing (some old) = ap some (sym (append-nil old))

  pub Goes-then :
      {s : StreamId} {o : Option SessionEnd} {t u v : Task D}
      → Goes s none t u
      → Goes s o u v
      → Goes s o t v
  Goes-then {s} {o} {t} {u} {v} (a, f) (b, g) = (
    a ++ b,
    record {
      tape = g.tape ∙ ap (λ x. with_told x b) f.tape ∙ sym (with_told-append t.tape a b);
      counts =
          g.counts
          ∙ ap (λ x. with_owed (tallied x b) o) f.counts
          ∙ ap (λ x. with_owed x o) (sym (tallied-append (tally_of t.counters) a b));
      of_stream = All-append (IsOf s) a b f.of_stream g.of_stream;
    },
  )

  tape-after_send :
      (t : Task D) (o : SendOutcome (IngestMessage D)) → ((after_send t o).0).tape ≡ t.tape
  tape-after_send t SendOutcome.sent = refl
  tape-after_send t (SendOutcome.dropped_oldest old) = refl
  tape-after_send t (SendOutcome.refused m) = refl

  tally-after_send :
      (t : Task D) (o : SendOutcome (IngestMessage D))
      → tally_of ((after_send t o).0).counters ≡ tally_of t.counters
  tally-after_send t SendOutcome.sent = refl
  tally-after_send t (SendOutcome.dropped_oldest old) = refl
  tally-after_send t (SendOutcome.refused m) = refl

  with_told-tee :
      (m : IngestMessage D) (o : Option (List (IngestMessage D))) → tee m o ≡ with_told o (m ∷ [])
  with_told-tee m none = refl
  with_told-tee m (some old) = refl

  tape-publish :
      (t : Task D) (m : IngestMessage D) → ((publish t m).0).tape ≡ with_told t.tape (m ∷ [])
  unfolding publish
  tape-publish t m = tape-after_send _ (send t.channel m).1 ∙ with_told-tee m t.tape

  tally-publish :
      (t : Task D) (m : IngestMessage D) → tally_of ((publish t m).0).counters ≡ tally_of t.counters
  unfolding publish
  tally-publish t m = tally-after_send _ (send t.channel m).1

  pub Goes-emit :
      (s : StreamId) (t : Task D) (f : RawFrame) → f.stream ≡ s → Goes s none t (emit t f).0
  unfolding emit
  Goes-emit s t f eq = (
    IngestMessage.frame f ∷ [],
    record {
      tape = tape-publish _ (IngestMessage.frame f);
      counts = tally-publish _ (IngestMessage.frame f);
      of_stream = (eq, tt);
    },
  )

  -- A boundary that is told pays what its session owed.
  pub Goes-told :
      {s : StreamId} {t u : Task D} (at : IngestTime) (end : SessionEnd)
      → should_retry end ≡ true
      → Goes s (some end) t u
      → Goes s none t (publish u (IngestMessage.session_ended s at end)).0
  Goes-told {s} {t} {u} at end retried (a, f) = (
    a ++ m ∷ [],
    record {
      tape =
          tape-publish u m
          ∙ ap (λ x. with_told x (m ∷ [])) f.tape
          ∙ sym (with_told-append t.tape a (m ∷ []));
      counts = tally-publish u m ∙ f.counts ∙ sym (tallied-append (tally_of t.counters) a (m ∷ []));
      of_stream = All-append (IsOf s) a (m ∷ []) f.of_stream ((refl, retried), tt);
    },
  )
    where
      m : IngestMessage D
      m = IngestMessage.session_ended s at end

  pub Goes-final :
      {s : StreamId} {t u : Task D} (end : SessionEnd)
      → should_retry end ≡ false
      → Goes s (some end) t u
      → Goes s none t u
  Goes-final {s} {t} {u} end final (told, f) = (
    told,
    record {
      tape = f.tape;
      counts = f.counts ∙ with_end-final _ end final;
      of_stream = f.of_stream;
    },
  )
