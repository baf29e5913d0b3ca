-- ===== src/Pipeline/Aggregator/Keeps.antt =====
-- What the parts of a message's handling leave as it was.
use market_aggregator.Common.{
  Bool, true, false, List, [], ◌∷◌, ◌≡◌, refl, ap, ◌∙◌, ok_or, Holds, bind-Holds, bind-Holds_with,
  Bool-cases, inl, inr, if◌then◌else◌,
}
use market_aggregator.Core.Decimal.{Decimal}
use market_aggregator.Core.Time.{IngestTime}
use market_aggregator.Core.Event.{EventKind, MarketEvent}
use market_aggregator.Core.Book.{BookState, same_status, top_of_book}
use market_aggregator.Core.Window.Reading.{observe, observe_trade}
use market_aggregator.Venues.Sync.{Outcome}
use market_aggregator.Venues.Sync.Replay.{events_of}
use market_aggregator.Pipeline.Aggregator.{
  VenueState, Stop, state_of, sample_windows, noted, note_desync, note_transition, is_desynced,
  count_event, deliver,
}

module _ {D : Type 0} where
  abbrev pub teed : Bool → List (Outcome D) → List (MarketEvent D)
  teed sink os = if sink then events_of os else []

  pub teed-nil : (sink : Bool) → teed sink [] ≡ []
  unfolding events_of
  teed-nil true = refl
  teed-nil false = refl

  teed-event :
      (sink : Bool) (e : MarketEvent D) (es : List (MarketEvent D)) (os : List (Outcome D))
      → es ≡ teed sink os
      → (if sink then e ∷ es else es) ≡ teed sink (Outcome.event e ∷ os)
  unfolding events_of
  teed-event true e es os h = ap (◌∷◌ e) h
  teed-event false e es os h = h

module _ {D S : Type 0} ⦃dec : Decimal D⦄ where
  -- Two states that differ at most in counters, windows, the last print and the status clock.
  pub record Keeps (v v' : VenueState D S) : Type 0 where
    pub protocol : v'.protocol ≡ v.protocol
    pub book : v'.book ≡ v.book
    pub total : v'.desynced_total ≡ v.desynced_total
    pub start : v'.desynced_since ≡ v.desynced_since

  Keeps-refl : (v : VenueState D S) → Keeps v v
  Keeps-refl v = record { protocol = refl; book = refl; total = refl; start = refl }

  pub Keeps-trans : {u v w : VenueState D S} → Keeps u v → Keeps v w → Keeps u w
  Keeps-trans p q = record {
    protocol = q.protocol ∙ p.protocol;
    book = q.book ∙ p.book;
    total = q.total ∙ p.total;
    start = q.start ∙ p.start;
  }

  pub sample_windows-Keeps :
      (v : VenueState D S) (at : IngestTime) → Holds (Keeps v) (sample_windows v at)
  unfolding sample_windows
  sample_windows-Keeps v at =
      bind-Holds _ (ok_or (observe v.windows (top_of_book v.book.book at) at) Stop.unfinished) _
        (λ w. record { protocol = refl; book = refl; total = refl; start = refl })

  count_event-Keeps :
      (v : VenueState D S) (at : IngestTime) (kind : EventKind D)
      → Holds (Keeps v) (count_event v at kind)
  count_event-Keeps v at (EventKind.heartbeat counter) = record {
    protocol = refl;
    book = refl;
    total = refl;
    start = refl;
  }
  count_event-Keeps v at (EventKind.trade price qty side) =
      bind-Holds _ (ok_or (observe_trade v.windows price qty at) Stop.unfinished) _
        (λ w. record { protocol = refl; book = refl; total = refl; start = refl })
  count_event-Keeps v at (EventKind.snapshot bids asks) = Keeps-refl v
  count_event-Keeps v at (EventKind.delta bids asks) = Keeps-refl v
  count_event-Keeps v at (EventKind.checksum value) = Keeps-refl v

  pub deliver-Keeps :
      (sink : Bool) (v : VenueState D S) (os : List (Outcome D))
      → Holds (λ d. Keeps v d.0 × (d.1 ≡ teed sink os)) (deliver sink v os)
  unfolding deliver events_of
  deliver-Keeps true v [] = (Keeps-refl v, refl)
  deliver-Keeps false v [] = (Keeps-refl v, refl)
  deliver-Keeps sink v (Outcome.state_changed a b ∷ os) = deliver-Keeps sink v os
  deliver-Keeps sink v (Outcome.event e ∷ os) =
      bind-Holds_with (Keeps v) _ (count_event v e.ingest_ts e.kind) _
        (count_event-Keeps v e.ingest_ts e.kind)
        (λ v' k.
          bind-Holds_with _ _ (deliver sink v' os) _ (deliver-Keeps sink v' os)
            (λ d p. (Keeps-trans k p.0, teed-event sink e d.1 os p.1)))

  -- The note of a change touches neither the book, nor its protocol, nor the windows.
  pub record Notes (v w : VenueState D S) : Type 0 where
    pub same_protocol : w.protocol ≡ v.protocol
    pub same_book : w.book ≡ v.book
    pub same_windows : w.windows ≡ v.windows

  note_desync-Notes :
      (before after : Bool) (v : VenueState D S) (at : IngestTime)
      → Notes v (note_desync before after v at)
  note_desync-Notes false true v at = record {
    same_protocol = refl;
    same_book = refl;
    same_windows = refl;
  }
  note_desync-Notes true false v at = record {
    same_protocol = refl;
    same_book = refl;
    same_windows = refl;
  }
  note_desync-Notes true true v at = record {
    same_protocol = refl;
    same_book = refl;
    same_windows = refl;
  }
  note_desync-Notes false false v at = record {
    same_protocol = refl;
    same_book = refl;
    same_windows = refl;
  }

  pub noted-Notes :
      (v : VenueState D S) (before : BookState D) (at : IngestTime) → Notes v (noted v before at)
  unfolding noted note_transition
  noted-Notes v before at = elim (Bool-cases (same_status before (state_of v))) [
    | inl same ↦ rw same (record { same_protocol = refl; same_book = refl; same_windows = refl })
    | inr changed ↦
        let n = note_desync-Notes (is_desynced before) (is_desynced (state_of v)) v at in
        rw changed (record {
          same_protocol = n.same_protocol;
          same_book = n.same_book;
          same_windows = n.same_windows;
        })
  ]
