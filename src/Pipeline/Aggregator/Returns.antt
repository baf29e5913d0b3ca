-- ===== src/Pipeline/Aggregator/Returns.antt =====
-- That the aggregator, from its construction on, gets past every message but one that unwinds.
use market_aggregator.Common.{
  ℕ, zero, suc, ◌+◌, ◌≤◌, ◌<◌, Bool, true, false, List, [], ◌∷◌, ◌≡◌, refl, ◌∙◌, arith, length,
  replicate, All, if◌then◌else◌, Bool-cases, inl, inr,
}
use market_aggregator.Core.Decimal.{Decimal}
use market_aggregator.Core.Time.{IngestTime, since}
use market_aggregator.Core.Event.{StreamId}
use market_aggregator.Core.Cross.{u64_max}
use market_aggregator.Core.Window.{
  WindowSpec, window_spec, longest, buckets_for, saturating_add, empty_bucket,
}
use market_aggregator.Core.Window.Reading.{new}
use market_aggregator.Core.Window.Shape.{IsReady, Reshapes-IsReady}
use market_aggregator.Coord.Assign.{stream_ltb}
use market_aggregator.Pipeline.Messages.{IngestMessage, stream_of, time_of}
use market_aggregator.Pipeline.Aggregator.{
  VenueState, VenueSpec, handle, counted, apply, stream_eqb, insert_stream, collect_streams,
  stream_for, new_stream, with_window_spec,
}
use market_aggregator.Pipeline.Aggregator.Finishes.{
  Finishes, bind-Finishes, FollowsOn, handle-Finishes,
}
use market_aggregator.Pipeline.Aggregator.Streams.{apply_all}

length-replicate : {A : Type 0} (n : ℕ) (a : A) → length (replicate n a) ≡ n
length-replicate zero a = refl
length-replicate (suc n) a = omega (arith, length-replicate n a)

either-Is : {A : Type 0} (P : A → Type 0) (b : Bool) (x y : A) → P x → P y → P (if b then x else y)
either-Is P true x y p q = p
either-Is P false x y p q = q

module _ {D : Type 0} where
  -- The message is from before the end of the 64 bits that count nanoseconds from the start.
  abbrev pub IsTimely : IngestTime → WindowSpec → IngestMessage D → Type 0
  IsTimely origin spec m = since (time_of m) origin + spec.resolution ≤ u64_max

module _ {D : Type 0} ⦃dec : Decimal D⦄ where
  new-IsReady :
      (spec : WindowSpec) (now : IngestTime) → 0 < spec.resolution → IsReady {D = D} (new spec now)
  unfolding new
  new-IsReady spec now h = record {
    resolved = h;
    after = omega arith;
    some_slot =
        rw
          (length-replicate (saturating_add (buckets_for (longest spec) spec.resolution) 1)
            (empty_bucket {D = D}))
          (omega arith);
    slots =
        rw
          (length-replicate (saturating_add (buckets_for (longest spec) spec.resolution) 1)
            (empty_bucket {D = D}))
          (omega arith);
  }

module _ {D S : Type 0} ⦃dec : Decimal D⦄ where
  -- Every stream's windows are ready, and share one start and one spec.
  abbrev pub AllReady : IngestTime → WindowSpec → List (StreamId × VenueState D S) → Type 0
  AllReady origin spec ss =
      All (λ e. IsReady e.1.windows × (e.1.windows.origin ≡ origin) × (e.1.windows.spec ≡ spec)) ss

  apply-Finishes :
      (sink : Bool) (origin : IngestTime) (spec : WindowSpec)
      (ss : List (StreamId × VenueState D S)) (m : IngestMessage D)
      → AllReady origin spec ss
      → IsTimely origin spec m
      → Finishes (λ a. AllReady origin spec a.0) (apply sink ss m)
  unfolding apply
  apply-Finishes sink origin spec [] m a t = tt
  apply-Finishes sink origin spec ((k, v) ∷ rest) m a t =
      elim (Bool-cases (stream_eqb k (stream_of m))) [
        | inl here ↦ rw here (
            bind-Finishes (λ h. FollowsOn v h.0) _ (handle sink (counted v) m) _
              (handle-Finishes sink (counted v) m
                (record { ready = a.0.0; in_time = rw (a.0.1, a.0.2) t }))
              (λ h f.
                ((Reshapes-IsReady f a.0.0, f.same_origin ∙ a.0.1, f.same_spec ∙ a.0.2), a.1)))
        | inr later ↦ rw later (
            bind-Finishes _ _ (apply sink rest m) _ (apply-Finishes sink origin spec rest m a.1 t)
              (λ r b. (a.0, b)))
      ]

  insert_stream-AllReady :
      (origin : IngestTime) (spec : WindowSpec) (k : StreamId) (v : VenueState D S)
      (ss : List (StreamId × VenueState D S))
      → AllReady origin spec ((k, v) ∷ [])
      → AllReady origin spec ss
      → AllReady origin spec (insert_stream k v ss)
  unfolding insert_stream
  insert_stream-AllReady origin spec k v [] h a = h
  insert_stream-AllReady origin spec k v ((j, u) ∷ rest) h a =
      either-Is (AllReady origin spec) (stream_eqb j k) _ _ (h.0, a.1)
        (either-Is (AllReady origin spec) (stream_ltb k j) _ _ (h.0, a)
          (a.0, insert_stream-AllReady origin spec k v rest h a.1))

  collect_streams-AllReady :
      (spec : WindowSpec) (now : IngestTime) (specs : List (VenueSpec D S))
      (ss : List (StreamId × VenueState D S))
      → IsReady {D = D} (new spec now)
      → AllReady now spec ss
      → AllReady now spec (collect_streams spec now specs ss)
  unfolding collect_streams new
  collect_streams-AllReady spec now [] ss r a = a
  collect_streams-AllReady spec now (s ∷ specs) ss r a =
      collect_streams-AllReady spec now specs
        (insert_stream (stream_for s) (new_stream spec now s) ss) r
        (insert_stream-AllReady now spec (stream_for s) (new_stream spec now s) ss
          ((r, refl, refl), tt) a)

  apply_all-Finishes :
      (sink : Bool) (origin : IngestTime) (spec : WindowSpec)
      (ss : List (StreamId × VenueState D S)) (ms : List (IngestMessage D))
      → AllReady origin spec ss
      → All (IsTimely origin spec) ms
      → Finishes (λ r. AllReady origin spec r.0) (apply_all sink ss ms)
  unfolding apply_all
  apply_all-Finishes sink origin spec ss [] a t = a
  apply_all-Finishes sink origin spec ss (m ∷ ms) a t =
      bind-Finishes _ _ (apply sink ss m) _ (apply-Finishes sink origin spec ss m a t.0) (λ b c.
        bind-Finishes _ _ (apply_all sink b.0 ms) _
          (apply_all-Finishes sink origin spec b.0 ms c t.1) (λ r d. d))

  -- An aggregator that was just built, with any windows, and messages that are stamped within 2^64
  -- nanoseconds, less a bucket, of its start: no loop of the windows is still running when its
  -- rounds are used up. In runs in which no operator of the decimals panics, which the model takes
  -- to return, the aggregator comes to the end of the messages, with the windows ready for more, or
  -- to a frame at which a parser unwinds.
  pub with_window_spec-Finishes :
      (sink : Bool) (specs : List (VenueSpec D S)) (resolution : ℕ) (spans : List ℕ)
      (now : IngestTime) (ms : List (IngestMessage D))
      → let spec = window_spec resolution spans in
        All (IsTimely now spec) ms
        → Finishes
            (λ r. AllReady now spec r.0)
            (apply_all sink (with_window_spec specs spec now) ms)
  unfolding with_window_spec window_spec
  with_window_spec-Finishes sink specs resolution spans now ms t =
      let spec = window_spec resolution spans in
      apply_all-Finishes sink now spec (collect_streams spec now specs []) ms
        (collect_streams-AllReady spec now specs [] (new-IsReady spec now (omega arith)) tt) t
