-- ===== src/Pipeline/Aggregator.antt =====
-- crates/ma-pipeline/src/aggregator.rs: the task that owns the books, up to what it keeps and what
-- it does with a message.
pub mod Returns
pub mod Finishes
pub mod Requests
pub mod Recorded
pub mod Clock
pub mod Landing
pub mod Keeps
pub mod Streams
use market_aggregator.Common.{
  ℕ, ◌+◌, Bool, true, false, not, ◌&&◌, Option, none, some, List, [], ◌∷◌, Result, ok, err, ok_or,
  ◌>>=◌, Text, text_eqb, if◌then◌else◌,
}
use market_aggregator.Core.Decimal.{Decimal}
use market_aggregator.Core.Time.{IngestTime, since}
use market_aggregator.Core.Event.{StreamId, Side, EventKind, MarketEvent}
use market_aggregator.Core.Book.{BookState, top_of_book, same_status, needs_fresh_stream}
use market_aggregator.Core.Cross.{venue_eqb}
use market_aggregator.Coord.Assign.{stream_ltb}
use market_aggregator.Core.Window.{RollingWindows, WindowSpec}
use market_aggregator.Core.Window.Reading.{new, observe, observe_trade}
use market_aggregator.Venues.Sync.{
  VenueSync, VenueBook, VenueError, Outcome, started, feed, apply_event, reset,
}
use market_aggregator.Pipeline.Messages.{IngestMessage, stream_of}
use market_aggregator.Pipeline.Metrics.{
  VenueCounters, no_counts, record_applied, record_parse_error, record_heartbeat, record_trade,
  record_desync,
}

-- The stream's `Box<dyn VenueSync>` is its `protocol` and the state in its book.
pub record VenueState (D S : Type 0) : Type 0 where
  pub protocol : VenueSync D S
  pub book : VenueBook D S
  pub counters : VenueCounters
  pub previous : VenueCounters
  pub desynced_total : ℕ
  pub desynced_since : Option IngestTime
  pub status_since : IngestTime
  pub windows : RollingWindows D
  pub last_trade : Option (D × D × Option Side × IngestTime)

-- Why the task does not get past a message: a parser that unwinds, or a loop of the windows that
-- has not ended within its bound.
pub data Stop : Type 0 where
  unwinds unfinished : Stop

-- What a message makes the aggregator send: requests for a new stream, and events for the sink.
pub record Effects (D : Type 0) : Type 0 where
  pub requested : List StreamId
  pub events : List (MarketEvent D)

abbrev pub stream_eqb : StreamId → StreamId → Bool
stream_eqb s t = venue_eqb s.venue t.venue && text_eqb s.symbol t.symbol

-- `VenueState::desynced_total`.
abbrev pub desynced_for : ℕ → Option IngestTime → IngestTime → ℕ
desynced_for total none now = total
desynced_for total (some start) now = total + since now start

module _ {D : Type 0} where
  abbrev pub no_effects : Effects D
  no_effects = record { requested = []; events = [] }

  abbrev pub is_desynced : BookState D → Bool
  is_desynced (BookState.desynced s r) = true
  is_desynced _ = false

  -- Whether the change of state asks for a new stream.
  abbrev pub wants_stream : BookState D → BookState D → Bool
  wants_stream from (BookState.desynced s reason) =
      not (is_desynced from) && needs_fresh_stream reason
  wants_stream from _ = false

module _ {D : Type 0} ⦃dec : Decimal D⦄ where
  -- The streams that `apply` asks to reconnect.
  abbrev pub requests : StreamId → BookState D → BookState D → List StreamId
  requests stream before after =
      if not (same_status before after) && wants_stream before after then stream ∷ [] else []

module _ {D S : Type 0} ⦃dec : Decimal D⦄ where
  abbrev pub state_of : VenueState D S → BookState D
  state_of v = v.book.book.state

  unfoldable pub desynced_total_at : VenueState D S → IngestTime → ℕ
  desynced_total_at v now = desynced_for v.desynced_total v.desynced_since now

  -- `VenueState::sample_windows`.
  unfoldable pub sample_windows : VenueState D S → IngestTime → Result (VenueState D S) Stop
  sample_windows v at = do
    w ← ok_or (observe v.windows (top_of_book v.book.book at) at) Stop.unfinished
    ok (record v { windows = w })

  -- `VenueState::note_transition`, by whether the book was and is desynced.
  abbrev pub note_desync : Bool → Bool → VenueState D S → IngestTime → VenueState D S
  note_desync false true v at = record v {
    desynced_since = some at;
    counters = record_desync v.counters;
  }
  note_desync true false v at = record v {
    desynced_total = desynced_for v.desynced_total v.desynced_since at;
    desynced_since = none;
  }
  note_desync _ _ v at = v

  unfoldable pub note_transition :
      VenueState D S → BookState D → BookState D → IngestTime → VenueState D S
  note_transition v from to at = record (note_desync (is_desynced from) (is_desynced to) v at) {
    status_since = at;
  }

  -- `note_transition` behind the test of `same_status`.
  unfoldable pub noted : VenueState D S → BookState D → IngestTime → VenueState D S
  noted v before at =
      if same_status before (state_of v) then v else note_transition v before (state_of v) at

  -- The loop over the outcomes: what an event does to the state, and whether it goes to a sink.
  abbrev pub count_event : VenueState D S → IngestTime → EventKind D → Result (VenueState D S) Stop
  count_event v at (EventKind.heartbeat counter) =
      ok (record v { counters = record_heartbeat v.counters })
  count_event v at (EventKind.trade price qty side) = do
    w ← ok_or (observe_trade v.windows price qty at) Stop.unfinished
    ok (record v {
      counters = record_trade v.counters;
      last_trade = some (price, qty, side, at);
      windows = w;
    })
  count_event v at _ = ok v

  unfoldable pub deliver :
      Bool → VenueState D S → List (Outcome D) → Result (VenueState D S × List (MarketEvent D)) Stop
  deliver sink v [] = ok (v, [])
  deliver sink v (Outcome.state_changed a b ∷ os) = deliver sink v os
  deliver sink v (Outcome.event e ∷ os) = do
    v' ← count_event v e.ingest_ts e.kind
    rest ← deliver sink v' os
    ok (rest.0, if sink then e ∷ rest.1 else rest.1)

  -- What `apply` does after a frame or an event was applied to the book.
  unfoldable pub settle :
      Bool
      → StreamId
      → BookState D
      → VenueState D S
      → List (Outcome D)
      → IngestTime
      → Result (VenueState D S × Effects D) Stop
  settle sink stream before v os at = do
    d ← deliver sink (noted v before at) os
    v' ← sample_windows d.0 at
    ok (v', record { requested = requests stream before (state_of v); events = d.1 })

  -- The state that a frame of which the parser refused the content leaves.
  unfoldable pub refuse : VenueState D S → IngestTime → Result (VenueState D S × Effects D) Stop
  refuse v at = do
    v' ← sample_windows (record v { counters = record_parse_error v.counters }) at
    ok (v', no_effects)

  abbrev pub after_feed :
      Bool
      → StreamId
      → VenueState D S
      → VenueBook D S × Result (List (Outcome D)) VenueError
      → IngestTime
      → Result (VenueState D S × Effects D) Stop
  after_feed sink stream v (b, ok os) at =
      settle sink stream (state_of v) (record v { book = b }) os at
  after_feed sink stream v (b, err VenueError.unwound) at = err Stop.unwinds
  after_feed sink stream v (b, err e) at = refuse (record v { book = b }) at

  abbrev pub after_event :
      Bool
      → StreamId
      → VenueState D S
      → VenueBook D S × List (Outcome D)
      → IngestTime
      → Result (VenueState D S × Effects D) Stop
  after_event sink stream v (b, os) at =
      settle sink stream (state_of v) (record v { book = b }) os at

  -- The arms of `apply`, on the counted state of the message's stream.
  unfoldable pub handle :
      Bool → VenueState D S → IngestMessage D → Result (VenueState D S × Effects D) Stop
  handle sink v (IngestMessage.frame f) =
      after_feed sink f.stream v (feed v.protocol v.book f) f.ingest_ts
  handle sink v (IngestMessage.event stream e) =
      after_event sink stream v (apply_event v.protocol v.book e e.ingest_ts) e.ingest_ts
  handle sink v (IngestMessage.session_ended stream at end) = do
    let v' = record v { book = reset v.protocol v.book at }
    w ← sample_windows (noted v' (state_of v) at) at
    ok (w, no_effects)

  abbrev pub counted : VenueState D S → VenueState D S
  counted v = record v { counters = record_applied v.counters }

  -- `Aggregator::apply`: the map of the streams is the list of its entries.
  unfoldable pub apply :
      Bool
      → List (StreamId × VenueState D S)
      → IngestMessage D
      → Result (List (StreamId × VenueState D S) × Effects D) Stop
  apply sink [] m = ok ([], no_effects)
  apply sink ((k, v) ∷ rest) m =
      let later = (apply sink rest m >>= λ r. ok ((k, v) ∷ r.0, r.1)) in
      let here = (handle sink (counted v) m >>= λ h. ok ((k, h.0) ∷ rest, h.1)) in
      if stream_eqb k (stream_of m) then here else later

-- What the constructor reads of a `VenueSpec`; `initial` is the state in its `sync`.
pub record VenueSpec (D S : Type 0) : Type 0 where
  pub sync : VenueSync D S
  pub initial : S
  pub symbol : Text
  pub max_depth : Option ℕ

module _ {D S : Type 0} ⦃dec : Decimal D⦄ where
  abbrev pub stream_for : VenueSpec D S → StreamId
  stream_for spec = record { venue = spec.sync.venue; symbol = spec.symbol }

  abbrev pub new_stream : WindowSpec → IngestTime → VenueSpec D S → VenueState D S
  new_stream window_spec now spec = record {
    protocol = spec.sync;
    book = started spec.sync spec.max_depth spec.initial spec.symbol;
    counters = no_counts;
    previous = no_counts;
    desynced_total = 0;
    desynced_since = none;
    status_since = now;
    windows = new window_spec now;
    last_trade = none;
  }

  -- `collect` into a map: the last of two specs for one stream stays.
  unfoldable pub insert_stream :
      StreamId
      → VenueState D S
      → List (StreamId × VenueState D S)
      → List (StreamId × VenueState D S)
  insert_stream k v [] = (k, v) ∷ []
  insert_stream k v ((j, u) ∷ rest) =
      let later = insert_stream k v rest in
      if stream_eqb j k
      then (k, v) ∷ rest
      else if stream_ltb k j
      then (k, v) ∷ (j, u) ∷ rest
      else (j, u) ∷ later

  unfoldable pub collect_streams :
      WindowSpec
      → IngestTime
      → List (VenueSpec D S)
      → List (StreamId × VenueState D S)
      → List (StreamId × VenueState D S)
  collect_streams window_spec now [] ss = ss
  collect_streams window_spec now (spec ∷ specs) ss =
      collect_streams window_spec now specs
        (insert_stream (stream_for spec) (new_stream window_spec now spec) ss)

  -- `Aggregator::with_window_spec`, up to its streams.
  unfoldable pub with_window_spec :
      List (VenueSpec D S) → WindowSpec → IngestTime → List (StreamId × VenueState D S)
  with_window_spec specs window_spec now = collect_streams window_spec now specs []
