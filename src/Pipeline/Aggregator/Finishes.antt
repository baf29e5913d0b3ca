-- ===== src/Pipeline/Aggregator/Finishes.antt =====
-- That no message is too much for the windows: the aggregator stops short of one only where a parser
-- unwinds.
use market_aggregator.Common.{
  Bool, Option, none, some, List, [], ◌∷◌, sym, subst, Result, ok, err, ok_or, ◌>>=◌, All,
}
use market_aggregator.Core.Decimal.{Decimal}
use market_aggregator.Core.Time.{IngestTime}
use market_aggregator.Core.Event.{EventKind, StreamId}
use market_aggregator.Core.Book.{BookState, top_of_book}
use market_aggregator.Core.Window.Reading.{observe, observe_trade}
use market_aggregator.Core.Window.Rounds.{IsSome}
use market_aggregator.Core.Window.Shape.{
  HoldsIn, Reshapes, IsReady, InTime, Reshapes-refl, Reshapes-trans, Reshapes-IsReady,
  Reshapes-InTime, observe-Reshapes, observe_trade-Reshapes,
}
use market_aggregator.Venues.Sync.{VenueBook, VenueError, Outcome, feed, apply_event, reset}
use market_aggregator.Venues.Sync.Session.{outcomes_of}
use market_aggregator.Venues.Sync.Times.{IsAt, feed-IsAt, apply_event-IsAt}
use market_aggregator.Pipeline.Messages.{IngestMessage, time_of}
use market_aggregator.Pipeline.Metrics.{record_parse_error}
use market_aggregator.Pipeline.Aggregator.{
  VenueState, Stop, state_of, sample_windows, noted, count_event, deliver, settle, refuse,
  after_feed, handle,
}
use market_aggregator.Pipeline.Aggregator.Keeps.{noted-Notes}

-- The call comes to a value that has the property, or to an unwinding parser.
abbrev pub Finishes : {A : Type 0} → (A → Type 0) → Result A Stop → Type 0
Finishes P (ok a) = P a
Finishes P (err Stop.unwinds) = Unit
Finishes P (err Stop.unfinished) = ⊥

pub bind-Finishes :
    {A B : Type 0} (Q : A → Type 0) (P : B → Type 0) (r : Result A Stop) (f : A → Result B Stop)
    → Finishes Q r
    → ((a : A) → Q a → Finishes P (f a))
    → Finishes P (r >>= f)
bind-Finishes Q P (ok a) f q h = h a q
bind-Finishes Q P (err Stop.unwinds) f q h = tt
bind-Finishes Q P (err Stop.unfinished) f q h = q

ok_or-Finishes :
    {A : Type 0} (P : A → Type 0) (o : Option A)
    → IsSome o × HoldsIn P o
    → Finishes P (ok_or o Stop.unfinished)
ok_or-Finishes P none h = h.0
ok_or-Finishes P (some a) h = h.1

module _ {D S : Type 0} ⦃dec : Decimal D⦄ where
  -- The state's windows are those of the other, further on.
  abbrev pub FollowsOn : VenueState D S → VenueState D S → Type 0
  FollowsOn v v' = Reshapes v.windows v'.windows

  -- The windows are ready for a call at the time.
  pub record Ready (v : VenueState D S) (at : IngestTime) : Type 0 where
    pub ready : IsReady v.windows
    pub in_time : InTime v.windows at

  still_Ready :
      {v v' : VenueState D S} {at : IngestTime} → FollowsOn v v' → Ready v at → Ready v' at
  still_Ready {at = at} f r = record {
    ready = Reshapes-IsReady f r.ready;
    in_time = Reshapes-InTime at f r.in_time;
  }

  sample_windows-Finishes :
      (v : VenueState D S) (at : IngestTime)
      → Ready v at
      → Finishes (FollowsOn v) (sample_windows v at)
  unfolding sample_windows
  sample_windows-Finishes v at r =
      bind-Finishes (Reshapes v.windows) _
        (ok_or (observe v.windows (top_of_book v.book.book at) at) Stop.unfinished) _
        (ok_or-Finishes _ _
          (observe-Reshapes v.windows (top_of_book v.book.book at) at r.ready r.in_time))
        (λ w s. s)

  count_event-Finishes :
      (v : VenueState D S) (at : IngestTime) (kind : EventKind D)
      → Ready v at
      → Finishes (FollowsOn v) (count_event v at kind)
  count_event-Finishes v at (EventKind.heartbeat counter) r = Reshapes-refl v.windows
  count_event-Finishes v at (EventKind.trade price qty side) r =
      bind-Finishes (Reshapes v.windows) _
        (ok_or (observe_trade v.windows price qty at) Stop.unfinished) _
        (ok_or-Finishes _ _ (observe_trade-Reshapes v.windows price qty at r.ready r.in_time))
        (λ w s. s)
  count_event-Finishes v at (EventKind.snapshot bids asks) r = Reshapes-refl v.windows
  count_event-Finishes v at (EventKind.delta bids asks) r = Reshapes-refl v.windows
  count_event-Finishes v at (EventKind.checksum value) r = Reshapes-refl v.windows

  deliver-Finishes :
      (sink : Bool) (v : VenueState D S) (os : List (Outcome D)) (at : IngestTime)
      → All (IsAt at) os
      → Ready v at
      → Finishes (λ d. FollowsOn v d.0) (deliver sink v os)
  unfolding deliver
  deliver-Finishes sink v [] at a r = Reshapes-refl v.windows
  deliver-Finishes sink v (Outcome.state_changed x y ∷ os) at a r =
      deliver-Finishes sink v os at a.1 r
  deliver-Finishes sink v (Outcome.event e ∷ os) at a r =
      bind-Finishes (FollowsOn v) _ (count_event v e.ingest_ts e.kind) _
        (count_event-Finishes v e.ingest_ts e.kind (subst (Ready v) (sym a.0) r))
        (λ v' f.
          bind-Finishes (λ d. FollowsOn v' d.0) _ (deliver sink v' os) _
            (deliver-Finishes sink v' os at a.1 (still_Ready f r)) (λ d g. Reshapes-trans f g))

  noted-FollowsOn :
      (v : VenueState D S) (before : BookState D) (at : IngestTime)
      → FollowsOn v (noted v before at)
  noted-FollowsOn v before at =
      rw ((noted-Notes v before at).same_windows) (Reshapes-refl v.windows)

  settle-Finishes :
      (sink : Bool) (stream : StreamId) (before : BookState D) (v : VenueState D S)
      (os : List (Outcome D)) (at : IngestTime)
      → All (IsAt at) os
      → Ready v at
      → Finishes (λ h. FollowsOn v h.0) (settle sink stream before v os at)
  unfolding settle
  settle-Finishes sink stream before v os at a r =
      let n = noted-FollowsOn v before at in
      bind-Finishes (λ d. FollowsOn (noted v before at) d.0) _ (deliver sink (noted v before at) os)
        _ (deliver-Finishes sink (noted v before at) os at a (still_Ready n r))
        (λ d f.
          bind-Finishes (FollowsOn d.0) _ (sample_windows d.0 at) _
            (sample_windows-Finishes d.0 at
              (still_Ready {v = noted v before at} f (still_Ready n r)))
            (λ v' g. Reshapes-trans n (Reshapes-trans f g)))

  refuse-Finishes :
      (v : VenueState D S) (at : IngestTime)
      → Ready v at
      → Finishes (λ h. FollowsOn v h.0) (refuse v at)
  unfolding refuse
  refuse-Finishes v at r =
      let v' = record v { counters = record_parse_error v.counters } in
      bind-Finishes (FollowsOn v) _ (sample_windows v' at) _
        (sample_windows-Finishes v' at (record { ready = r.ready; in_time = r.in_time })) (λ w f. f)

  after_feed-Finishes :
      (sink : Bool) (stream : StreamId) (v : VenueState D S)
      (r : VenueBook D S × Result (List (Outcome D)) VenueError) (at : IngestTime)
      → All (IsAt at) (outcomes_of r.1)
      → Ready v at
      → Finishes (λ h. FollowsOn v h.0) (after_feed sink stream v r at)
  after_feed-Finishes sink stream v (b, ok os) at a r =
      settle-Finishes sink stream (state_of v) (record v { book = b }) os at a
        (record { ready = r.ready; in_time = r.in_time })
  after_feed-Finishes sink stream v (b, err VenueError.unwound) at a r = tt
  after_feed-Finishes sink stream v (b, err e) at a r =
      refuse-Finishes (record v { book = b }) at (record { ready = r.ready; in_time = r.in_time })

  pub handle-Finishes :
      (sink : Bool) (v : VenueState D S) (m : IngestMessage D)
      → Ready v (time_of m)
      → Finishes (λ h. FollowsOn v h.0) (handle sink v m)
  unfolding handle
  handle-Finishes sink v (IngestMessage.frame f) r =
      after_feed-Finishes sink f.stream v (feed v.protocol v.book f) f.ingest_ts
        (feed-IsAt v.protocol v.book f) r
  handle-Finishes sink v (IngestMessage.event stream e) r =
      let (b, os) = apply_event v.protocol v.book e e.ingest_ts in
      settle-Finishes sink stream (state_of v) (record v { book = b }) os e.ingest_ts
        (apply_event-IsAt v.protocol v.book e e.ingest_ts)
        (record { ready = r.ready; in_time = r.in_time })
  handle-Finishes sink v (IngestMessage.session_ended stream at end) r =
      let v' = record v { book = reset v.protocol v.book at } in
      let n = noted-FollowsOn v' (state_of v) at in
      bind-Finishes (FollowsOn (noted v' (state_of v) at)) _
        (sample_windows (noted v' (state_of v) at) at) _
        (sample_windows-Finishes (noted v' (state_of v) at) at
          (still_Ready {v = v'} n (record { ready = r.ready; in_time = r.in_time })))
        (λ w f. Reshapes-trans n f)
