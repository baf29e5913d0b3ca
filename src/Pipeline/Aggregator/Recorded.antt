-- ===== src/Pipeline/Aggregator/Recorded.antt =====
-- The events that are teed to the sink, against the books that they were made from.
use market_aggregator.Common.{
  ℕ, Option, true, false, some, List, [], ◌∷◌, ◌++◌, ◌≡◌, ◌⊎◌, refl, sym, ap, ◌∙◌, Holds, Holds-map,
  Holds_at, bind-Holds_with, All,
}
use market_aggregator.Core.Decimal.{Decimal}
use market_aggregator.Core.Event.{StreamId, MarketEvent}
use market_aggregator.Core.Book.{is_live}
use market_aggregator.Venues.Sync.{VenueBook, Outcome, started}
use market_aggregator.Venues.Sync.Replay.{events_of, events_of-append, replay}
use market_aggregator.Venues.Sync.Session.{Input, step, session, IsLawful, session-replay}
use market_aggregator.Pipeline.Messages.{IngestMessage}
use market_aggregator.Pipeline.Aggregator.{VenueState, Effects, handle, counted}
use market_aggregator.Pipeline.Aggregator.Landing.{
  Lands-book, Lands-protocol, handle-Lands, landed_book, landed_outcomes,
}
use market_aggregator.Pipeline.Aggregator.Streams.{
  find, of_stream, for_stream, follow, apply_all, apply_all-follow,
}

module _ {D : Type 0} where
  -- Not an event of the archive.
  abbrev pub IsRaw : IngestMessage D → Type 0
  IsRaw (IngestMessage.event stream e) = ⊥
  IsRaw _ = Unit

  -- What a raw message is to the stream's book.
  abbrev inputs_of : List (IngestMessage D) → List Input
  inputs_of [] = []
  inputs_of (IngestMessage.frame f ∷ ms) = Input.arrived f ∷ inputs_of ms
  inputs_of (IngestMessage.session_ended stream at end ∷ ms) = Input.reconnected at ∷ inputs_of ms
  inputs_of (IngestMessage.event stream e ∷ ms) = inputs_of ms

  abbrev pub all_events : List (Effects D) → List (MarketEvent D)
  all_events [] = []
  all_events (x ∷ xs) = x.events ++ all_events xs

module _ {D S : Type 0} ⦃dec : Decimal D⦄ where
  -- What a stream's history comes to, in terms of a session of its book.
  record IsSession (b : VenueBook D S × List (Outcome D)) (r : VenueState D S × List (Effects D))
      : Type 0 where
    same_book : r.0.book ≡ b.0
    same_events : all_events r.1 ≡ events_of b.1

  follow_after :
      (v : VenueState D S) (m : IngestMessage D) (ms : List (IngestMessage D)) (i : Input)
      → landed_book (counted v) m ≡ (step v.protocol v.book i).0
      → landed_outcomes (counted v) m ≡ (step v.protocol v.book i).1
      → ((h : VenueState D S)
          → Holds (IsSession (session h.protocol h.book (inputs_of ms))) (follow true h ms))
      → Holds (IsSession (session v.protocol v.book (i ∷ inputs_of ms))) (follow true v (m ∷ ms))
  unfolding follow session
  follow_after v m ms i eb eo rest =
      bind-Holds_with _ _ (handle true (counted v) m) _ (handle-Lands true (counted v) m) (λ h l.
        bind-Holds_with _ _ (follow true h.0 ms) _ (rest h.0) (λ r s.
          let e : session h.0.protocol h.0.book (inputs_of ms)
              ≡ session v.protocol (step v.protocol v.book i).0 (inputs_of ms) =
            λ j. session (Lands-protocol l j) ((Lands-book l ∙ eb) j) (inputs_of ms) in
          record {
            same_book = s.same_book ∙ ap (λ x. x.0) e;
            same_events =
                (λ j. (l.sent ∙ ap events_of eo) j ++ (s.same_events ∙ ap (λ x. events_of x.1) e) j)
                ∙ sym (events_of-append _ _);
          }))

  follow-IsSession :
      (v : VenueState D S) (ms : List (IngestMessage D))
      → All IsRaw ms
      → Holds (IsSession (session v.protocol v.book (inputs_of ms))) (follow true v ms)
  unfolding follow session events_of step
  follow-IsSession v [] raw = record { same_book = refl; same_events = refl }
  follow-IsSession v (IngestMessage.event stream e ∷ ms) raw = absurd raw.0
  follow-IsSession v (IngestMessage.frame f ∷ ms) raw =
      follow_after v (IngestMessage.frame f) ms (Input.arrived f) refl refl
        (λ h. follow-IsSession h ms raw.1)
  follow-IsSession v (IngestMessage.session_ended stream at end ∷ ms) raw =
      follow_after v (IngestMessage.session_ended stream at end) ms (Input.reconnected at) refl refl
        (λ h. follow-IsSession h ms raw.1)

  -- A new book of the stream's venue with the same limit, fed what was teed for the stream, and the book that it has.
  pub record Reproduces (k : StreamId) (v : VenueState D S) (depth : Option ℕ) (t : S)
      (r : List (StreamId × VenueState D S) × List (StreamId × Effects D)) : Type 0 where
    pub final : VenueState D S
    pub held : find k r.0 ≡ some final
    pub same_bids :
        (replay v.protocol
          (started v.protocol depth t k.symbol)
          (all_events (of_stream k r.1))).book.bids
        ≡ final.book.book.bids
    pub same_asks :
        (replay v.protocol
          (started v.protocol depth t k.symbol)
          (all_events (of_stream k r.1))).book.asks
        ≡ final.book.book.asks
    pub as_live :
        (is_live final.book.book.state ≡ false)
        ⊎ (is_live
              (replay v.protocol
                (started v.protocol depth t k.symbol)
                (all_events (of_stream k r.1))).book.state
            ≡ true)

  -- A stream whose book is new, with a limit on its depth or with none, of a venue that forwards no
  -- book content and whose checksum reads nothing of a book but its sides; and messages for any
  -- streams in any order that the aggregator gets to the end of, of which those for this stream are
  -- frames and ends of sessions. The events teed for the stream, applied one by one to a new book of
  -- its venue with the same limit, give a book with the same bids and the same asks as the one that
  -- the aggregator ends with, and one that is live unless that is not.
  pub recorded-Reproduces :
      (k : StreamId) (v : VenueState D S) (depth : Option ℕ) (s t : S)
      (ss : List (StreamId × VenueState D S)) (ms : List (IngestMessage D))
      → IsLawful v.protocol
      → find k ss ≡ some v
      → v.book ≡ started v.protocol depth s k.symbol
      → All IsRaw (for_stream k ms)
      → Holds (Reproduces k v depth t) (apply_all true ss ms)
  recorded-Reproduces k v depth s t ss ms lawful f new raw =
      Holds-map (apply_all true ss ms)
        (λ r told.
          let q = Holds_at _ (follow-IsSession v (for_stream k ms) raw) told.history in
          let (bids, asks, live) =
            session-replay v.protocol lawful depth s t k.symbol (inputs_of (for_stream k ms)) in
          record {
            final = told.final;
            held = told.held;
            same_bids = rw (q.same_events, q.same_book, new) bids;
            same_asks = rw (q.same_events, q.same_book, new) asks;
            as_live = rw (q.same_events, q.same_book, new) live;
          })
        (apply_all-follow true k v ss ms f)
