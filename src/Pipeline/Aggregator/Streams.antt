-- ===== src/Pipeline/Aggregator/Streams.antt =====
-- The streams side by side: a message touches its own stream, so that each one's history is its own.
use market_aggregator.Common.{
  Bool, true, false, Option, none, some, List, [], ◌∷◌, ◌&&◌, ◌≡◌, refl, ap, ◌∙◌, Result, ok, ◌>>=◌,
  Holds, bind-Holds, bind-Holds_with, bind-Holds_eq, if◌then◌else◌, Bool-cases, inl, inr, arith,
  subst, text_eqb_sound, text_eqb_refl, text_eqb,
}
use market_aggregator.Core.Decimal.{Decimal}
use market_aggregator.Core.Event.{VenueId, StreamId}
use market_aggregator.Core.Cross.{venue_eqb}
use market_aggregator.Pipeline.Messages.{IngestMessage, stream_of}
use market_aggregator.Pipeline.Aggregator.{
  VenueState, Stop, Effects, stream_eqb, handle, counted, apply,
}

pub venue_eqb_sound : (a b : VenueId) → venue_eqb a b ≡ true → a ≡ b
venue_eqb_sound a b h = ground arith

and_sound : (a b : Bool) → (a && b) ≡ true → (a ≡ true) × (b ≡ true)
and_sound a b h = ground arith

pub stream_eqb_sound : (s t : StreamId) → stream_eqb s t ≡ true → s ≡ t
stream_eqb_sound s t h =
    let (v, x) = and_sound (venue_eqb s.venue t.venue) (text_eqb s.symbol t.symbol) h in
    λ i. record {
      venue = venue_eqb_sound s.venue t.venue v i;
      symbol = text_eqb_sound s.symbol t.symbol x i;
    }

pub venue_eqb_refl : (v : VenueId) → venue_eqb v v ≡ true
venue_eqb_refl v = ground arith

pub stream_eqb_refl : (s : StreamId) → stream_eqb s s ≡ true
stream_eqb_refl s = rw (venue_eqb_refl s.venue, text_eqb_refl s.symbol) refl

module _ {A : Type 0} where
  -- The entry of a stream.
  abbrev pub find : StreamId → List (StreamId × A) → Option A
  find k [] = none
  find k ((j, v) ∷ rest) = if stream_eqb j k then some v else find k rest

  -- What is tagged with a stream, in order.
  abbrev pub of_stream : StreamId → List (StreamId × A) → List A
  of_stream k [] = []
  of_stream k ((j, a) ∷ rest) =
      let later = of_stream k rest in if stream_eqb j k then a ∷ later else later

choice-true :
    {A : Type 0} (b : Bool) (u v : A) (o : Option A)
    → b ≡ true
    → (if b then some u else o) ≡ some v
    → u ≡ v
choice-true b u v o h e = ground arith

choice-false :
    {A : Type 0} (b : Bool) (u v : A) (o : Option A)
    → b ≡ false
    → (if b then some u else o) ≡ some v
    → o ≡ some v
choice-false b u v o h e = ground arith

module _ {D : Type 0} where
  abbrev pub for_stream : StreamId → List (IngestMessage D) → List (IngestMessage D)
  for_stream k [] = []
  for_stream k (m ∷ ms) =
      let later = for_stream k ms in if stream_eqb (stream_of m) k then m ∷ later else later

module _ {D S : Type 0} ⦃dec : Decimal D⦄ (sink : Bool) where
  -- The loop of `run` that drains the channel, with the effects of each message.
  unfoldable pub apply_all :
      List (StreamId × VenueState D S)
      → List (IngestMessage D)
      → Result (List (StreamId × VenueState D S) × List (StreamId × Effects D)) Stop
  apply_all ss [] = ok (ss, [])
  apply_all ss (m ∷ ms) = do
    a ← apply sink ss m
    r ← apply_all a.0 ms
    ok (r.0, (stream_of m, a.1) ∷ r.1)

  -- One stream alone, on its own messages.
  unfoldable pub follow :
      VenueState D S → List (IngestMessage D) → Result (VenueState D S × List (Effects D)) Stop
  follow v [] = ok (v, [])
  follow v (m ∷ ms) = do h ← handle sink (counted v) m; r ← follow h.0 ms; ok (r.0, h.1 ∷ r.1)

  apply-elsewhere :
      (k : StreamId) (ss : List (StreamId × VenueState D S)) (m : IngestMessage D)
      → stream_eqb (stream_of m) k ≡ false
      → Holds (λ a. find k a.0 ≡ find k ss) (apply sink ss m)
  unfolding apply
  apply-elsewhere k [] m other = refl
  apply-elsewhere k ((j, v) ∷ rest) m other = elim (Bool-cases (stream_eqb j (stream_of m))) [
    | inl here ↦ rw here (
        bind-Holds _ (handle sink (counted v) m) _
          (λ h. rw (stream_eqb_sound j (stream_of m) here, other) refl))
    | inr later ↦ rw later (
        bind-Holds_with _ _ (apply sink rest m) _ (apply-elsewhere k rest m other)
          (λ r same. ap (λ o. if stream_eqb j k then some v else o) same))
  ]

  -- What a message does on a run to its own stream, tracked in the state `v`.
  record Handled (k : StreamId) (v : VenueState D S) (m : IngestMessage D)
      (a : List (StreamId × VenueState D S) × Effects D) : Type 0 where
    after : VenueState D S
    handled : handle sink (counted v) m ≡ ok (after, a.1)
    found : find k a.0 ≡ some after

  apply-here :
      (v : VenueState D S) (ss : List (StreamId × VenueState D S)) (m : IngestMessage D)
      → find (stream_of m) ss ≡ some v
      → Holds (Handled (stream_of m) v m) (apply sink ss m)
  unfolding apply
  apply-here v [] m f = cc
  apply-here v ((j, u) ∷ rest) m f = elim (Bool-cases (stream_eqb j (stream_of m))) [
    | inl here ↦ rw here (
        bind-Holds_eq _ (handle sink (counted u) m) _ (λ h e. record {
          after = h.0;
          handled = rw (← choice-true _ u v _ here f) e;
          found = rw here refl;
        }))
    | inr later ↦ rw later (
        bind-Holds_with _ _ (apply sink rest m) _
          (apply-here v rest m (choice-false _ u v _ later f))
          (λ r s. record { after = s.after; handled = s.handled; found = rw later s.found }))
  ]

  -- The whole run ends as the stream's own history, and tags the effects of that with the stream.
  pub record Told (k : StreamId) (v : VenueState D S) (ms : List (IngestMessage D))
      (r : List (StreamId × VenueState D S) × List (StreamId × Effects D)) : Type 0 where
    pub final : VenueState D S
    pub history : follow v (for_stream k ms) ≡ ok (final, of_stream k r.1)
    pub held : find k r.0 ≡ some final

  -- Any messages for any streams, in any order, that the aggregator gets to the end of: a tracked
  -- stream ends in the state, and has caused the requests and events, that its own messages alone
  -- would give it.
  pub apply_all-follow :
      (k : StreamId) (v : VenueState D S) (ss : List (StreamId × VenueState D S))
      (ms : List (IngestMessage D))
      → find k ss ≡ some v
      → Holds (Told k v ms) (apply_all ss ms)
  unfolding apply_all follow
  apply_all-follow k v ss [] f = record { final = v; history = refl; held = f }
  apply_all-follow k v ss (m ∷ ms) f = elim (Bool-cases (stream_eqb (stream_of m) k)) [
    | inr other ↦ bind-Holds_with _ _ (apply sink ss m) _ (apply-elsewhere k ss m other) (λ a same.
        bind-Holds_with _ _ (apply_all a.0 ms) _ (apply_all-follow k v a.0 ms (same ∙ f))
          (λ r t. record { final = t.final; history = rw other t.history; held = t.held }))
    | inl own ↦
        bind-Holds_with (Handled k v m) _ (apply sink ss m) _
          (subst (λ j. Holds (Handled j v m) (apply sink ss m))
            (stream_eqb_sound (stream_of m) k own)
            (apply-here v ss m (ap (λ j. find j ss) (stream_eqb_sound (stream_of m) k own) ∙ f)))
          (λ a h.
            bind-Holds_with _ _ (apply_all a.0 ms) _ (apply_all-follow k h.after a.0 ms h.found)
              (λ r t. record {
                final = t.final;
                history = rw (own, h.handled, t.history) refl;
                held = t.held;
              }))
  ]
