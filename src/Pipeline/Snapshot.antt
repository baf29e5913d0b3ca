-- ===== src/Pipeline/Snapshot.antt =====
-- crates/ma-pipeline/src/aggregator.rs: the snapshot of every tracked and owned stream.
pub mod Contents
pub mod Trust
use market_aggregator.Common.{
  ℕ, ◌+◌, ◌%◌, ◌^◌, Bool, true, false, Option, none, some, List, [], ◌∷◌, ◌++◌, map, Text, text_eqb,
  Result, ok, err, ok_or, ◌>>=◌, if◌then◌else◌,
}
use market_aggregator.Common.Entries.{update_by}
use market_aggregator.Core.Decimal.{Decimal}
use market_aggregator.Core.Time.{IngestTime}
use market_aggregator.Core.Event.{VenueId, StreamId}
use market_aggregator.Core.Book.{TopOfBook, Integrity, top_of_book}
use market_aggregator.Core.Cross.{CrossPolicy}
use market_aggregator.Core.Window.Reading.{read}
use market_aggregator.Coord.Assign.{text_ltb}
use market_aggregator.Pipeline.Aggregator.{VenueState, Stop, stream_eqb}
use market_aggregator.Pipeline.Channel.{ChannelMetrics}
use market_aggregator.Pipeline.View.{
  VenueView, SymbolView, Snapshot, unix_millis, weakest, cross_view, consolidated_windows,
  venue_view,
}

-- A stream's view beside the touch that it was made from.
pub record Published (D : Type 0) : Type 0 where
  pub stream : StreamId
  pub view : VenueView D
  pub top : TopOfBook D

abbrev pub contains : List StreamId → StreamId → Bool
contains [] k = false
contains (j ∷ js) k = let rest = contains js k in if stream_eqb j k then true else rest

-- `owned`: no set means every stream.
abbrev pub is_owned : Option (List StreamId) → StreamId → Bool
is_owned none k = true
is_owned (some owned) k = contains owned k

module _ {D S : Type 0} ⦃dec : Decimal D⦄ where
  -- One turn of the loop of `snapshot` for a stream that is published.
  abbrev pub publish_one :
      ℕ → IngestTime → StreamId → VenueState D S → Result (VenueState D S × Published D) Stop
  publish_one depth_levels now k v = do
    r ← ok_or (read v.windows now) Stop.unfinished
    let v' = record v { previous = v.counters; windows = r.0 }
    ok (
      v',
      record {
        stream = k;
        view = venue_view k.venue v' r.1 depth_levels now;
        top = top_of_book v.book.book now;
      },
    )

  unfoldable pub publish :
      Option (List StreamId)
      → ℕ
      → IngestTime
      → List (StreamId × VenueState D S)
      → Result (List (StreamId × VenueState D S) × List (Published D)) Stop
  publish owned depth_levels now [] = ok ([], [])
  publish owned depth_levels now ((k, v) ∷ rest) =
      let skipped = (publish owned depth_levels now rest >>= λ r. ok ((k, v) ∷ r.0, r.1)) in
      let taken =
        (publish_one depth_levels now k v >>= λ o.
        publish owned depth_levels now rest >>= λ r. ok ((k, o.0) ∷ r.0, o.1 ∷ r.1)) in
      if is_owned owned k then taken else skipped

module _ {D : Type 0} ⦃dec : Decimal D⦄ where
  -- `by_symbol` and `tops`, which get their entries together.
  unfoldable pub by_symbol :
      List (Published D) → List (Text × List (Published D)) → List (Text × List (Published D))
  by_symbol [] groups = groups
  by_symbol (p ∷ ps) groups =
      by_symbol ps (update_by text_ltb text_eqb p.stream.symbol [] (λ xs. xs ++ p ∷ []) groups)

  unfoldable pub symbol_view : CrossPolicy → Text × List (Published D) → SymbolView D
  unfolding weakest cross_view consolidated_windows
  symbol_view policy (symbol, ps) = record {
    symbol = symbol;
    weakest_integrity = weakest (map (λ (p : Published D). p.view.integrity) ps);
    cross = cross_view (map (λ (p : Published D). (p.stream.venue, p.top)) ps) policy;
    cross_windows = consolidated_windows (map (λ (p : Published D). (p.view, 0)) ps);
    venues = map (λ (p : Published D). p.view) ps;
  }

-- `Aggregator`, less its ends of channels and its tick.
pub record Aggregator (D S : Type 0) : Type 0 where
  pub streams : List (StreamId × VenueState D S)
  pub depth_levels : ℕ
  pub seq : ℕ
  pub cross_policy : CrossPolicy
  pub owned : Option (List StreamId)

module _ {D S : Type 0} ⦃dec : Decimal D⦄ where
  -- `Aggregator::snapshot`.
  unfoldable pub snapshot :
      Aggregator D S → ChannelMetrics → IngestTime → Result (Aggregator D S × Snapshot D) Stop
  unfolding publish by_symbol symbol_view
  snapshot a channel now = do
    let seq = (a.seq + 1) % 2 ^ 64
    r ← publish a.owned a.depth_levels now a.streams
    ok (
      record a { streams = r.0; seq = seq },
      record {
        seq = seq;
        wall_unix_ms = unix_millis now.wall;
        symbols = map (symbol_view a.cross_policy) (by_symbol r.1 []);
        channel = channel;
      },
    )
