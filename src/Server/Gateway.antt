-- ===== src/Server/Gateway.antt =====
-- crates/ma-server/src/gateway/mod.rs: one view across every node.
pub mod Merge
pub mod Sourced
pub mod Shown
pub mod Freshest
use market_aggregator.Common.{
  ℕ, ◌+◌, ◌*◌, ◌%◌, ◌^◌, Bool, true, false, Option, none, some, List, [], ◌∷◌, ◌++◌, map, Text,
  text_eqb, ltb, leb, ◌==◌, ◌&&◌, ◌||◌, length, first?, if◌then◌else◌,
}
use market_aggregator.Common.Entries.{update_by, entry_or}
use market_aggregator.Core.Decimal.{Decimal}
use market_aggregator.Core.Time.{IngestTime, since}
use market_aggregator.Core.Event.{VenueId}
use market_aggregator.Core.Book.{BookState, DesyncReason, Integrity, TopOfBook}
use market_aggregator.Core.Cross.{CrossPolicy, default_policy, venue_eqb, u64_max}
use market_aggregator.Core.Window.{saturating_add}
use market_aggregator.Core.Window.Reading.{millis, then_do}
use market_aggregator.Coord.Assign.{text_ltb, venue_rank}
use market_aggregator.Pipeline.Channel.{ChannelMetrics}
use market_aggregator.Pipeline.View.{
  BookStatus, TradeView, VenueView, SymbolView, Snapshot, unix_millis, weakest, cross_view,
  consolidated_windows,
}

-- In nanoseconds.
pub record GatewayPolicy : Type 0 where
  pub max_node_age : ℕ
  pub cross : CrossPolicy

abbrev pub gateway_policy : GatewayPolicy
gateway_policy = record { max_node_age = 3 * 1000000000; cross = default_policy }

pub record NodeReport (D : Type 0) : Type 0 where
  pub node : Text
  pub url : Text
  pub snapshot : Option (Snapshot D)
  pub received_at : Option IngestTime
  pub last_error : Option Text
  pub connects : ℕ
  pub failures : ℕ

pub data NodeExclusion : Type 0 where
  never_reported : NodeExclusion
  stale : ℕ → NodeExclusion

-- The reason is kept as it is, and not as its text.
pub record NodeStatus : Type 0 where
  pub node : Text
  pub url : Text
  pub included : Bool
  pub excluded_because : Option NodeExclusion
  pub lag_ms : Option ℕ
  pub streams : ℕ
  pub seq : Option ℕ
  pub connects : ℕ
  pub failures : ℕ
  pub last_error : Option Text

pub record DuplicatedStream : Type 0 where
  pub symbol : Text
  pub venue : VenueId
  pub nodes : List Text

pub record MergedSnapshot (D : Type 0) : Type 0 where
  pub snapshot : Snapshot D
  pub nodes : List NodeStatus
  pub duplicated : List DuplicatedStream

-- `Claim`, and where `merge` puts it.
pub record Claim (D : Type 0) : Type 0 where
  pub node : Text
  pub lag_ms : ℕ
  pub view : VenueView D

pub record Placed (D : Type 0) : Type 0 where
  pub symbol : Text
  pub venue : VenueId
  pub claim : Claim D

abbrev pub Books : Type 0 → Type 0
Books D = List (Text × List (VenueId × List (Claim D)))

abbrev pub aged_trade : ℕ → TradeView → TradeView
aged_trade lag_ms t = record t { age_ms = saturating_add t.age_ms lag_ms }

abbrev pub is_none : {A : Type 0} → Option A → Bool
is_none none = true
is_none (some a) = false

-- The sums of the channels' numbers; 64 bits each.
abbrev pub add_channel : ChannelMetrics → ChannelMetrics → ChannelMetrics
add_channel a b = record {
  len = (a.len + b.len) % 2 ^ 64;
  capacity = (a.capacity + b.capacity) % 2 ^ 64;
  dropped = (a.dropped + b.dropped) % 2 ^ 64;
}

module _ {D : Type 0} where
  -- `NodeReport::new`.
  unfoldable pub new_report : Text → Text → NodeReport D
  new_report node url = record {
    node = node;
    url = url;
    snapshot = none;
    received_at = none;
    last_error = none;
    connects = 0;
    failures = 0;
  }

  -- `aged`.
  abbrev pub aged_by : ℕ → VenueView D → VenueView D
  aged_by lag_ms v = record v {
    age_ms = some (entry_or lag_ms (then_do v.age_ms (λ a. saturating_add a lag_ms)));
    status_for_ms = saturating_add v.status_for_ms lag_ms;
    last_verified_ms = then_do v.last_verified_ms (λ a. saturating_add a lag_ms);
    last_trade = then_do v.last_trade (aged_trade lag_ms);
  }

  unfoldable pub aged : VenueView D → ℕ → VenueView D
  aged v lag = aged_by (millis lag) v

  unfoldable pub effective_age : VenueView D → ℕ
  effective_age v = entry_or u64_max v.age_ms

  -- `top_of_book`.
  abbrev pub state_for : BookStatus → Option Integrity → IngestTime → BookState D
  state_for BookStatus.live integrity now =
      BookState.live (entry_or Integrity.order_only integrity) now none
  state_for BookStatus.desynced integrity now = BookState.desynced now DesyncReason.connection_lost
  state_for BookStatus.uninitialized integrity now = BookState.uninitialized

  unfoldable pub top_of_book : VenueView D → IngestTime → TopOfBook D
  top_of_book v now = record {
    bid_level = v.bid_level;
    ask_level = v.ask_level;
    state = state_for v.status v.integrity now;
    age = then_do v.age_ms (λ a. a * 1000000);
  }

  -- The match of `merge` on a report's snapshot and lag.
  abbrev pub exclusion : ℕ → Option (Snapshot D) → Option ℕ → Option NodeExclusion
  exclusion limit (some s) (some lag) =
      if leb lag limit then none else some (NodeExclusion.stale lag)
  exclusion limit _ _ = some NodeExclusion.never_reported

  abbrev pub lag_of : NodeReport D → IngestTime → Option ℕ
  lag_of r now = then_do r.received_at (λ at. since now at)

  abbrev pub total_streams : List (SymbolView D) → ℕ
  total_streams [] = 0
  total_streams (s ∷ ss) = length s.venues + total_streams ss

  unfoldable pub node_status : GatewayPolicy → IngestTime → NodeReport D → NodeStatus
  node_status policy now r =
      let excluded = exclusion policy.max_node_age r.snapshot (lag_of r now) in
      record {
        node = r.node;
        url = r.url;
        included = is_none excluded;
        excluded_because = excluded;
        lag_ms = then_do (lag_of r now) millis;
        streams = entry_or 0 (then_do r.snapshot (λ s. total_streams s.symbols));
        seq = then_do r.snapshot (λ s. s.seq);
        connects = r.connects;
        failures = r.failures;
        last_error = r.last_error;
      }

  -- The claims of a report that `merge` does not `continue` past, in the order of its two loops.
  abbrev pub place_views : Text → ℕ → Text → List (VenueView D) → List (Placed D)
  place_views node lag symbol [] = []
  place_views node lag symbol (v ∷ vs) =
      record {
        symbol = symbol;
        venue = v.venue;
        claim = record { node = node; lag_ms = millis lag; view = aged v lag };
      }
      ∷ place_views node lag symbol vs

  abbrev pub place_symbols : Text → ℕ → List (SymbolView D) → List (Placed D)
  place_symbols node lag [] = []
  place_symbols node lag (s ∷ ss) =
      place_views node lag s.symbol s.venues ++ place_symbols node lag ss

  abbrev pub placed_by : ℕ → Text → Option (Snapshot D) → Option ℕ → List (Placed D)
  placed_by limit node (some s) (some lag) =
      if leb lag limit then place_symbols node lag s.symbols else []
  placed_by limit node _ _ = []

  unfoldable pub placed : GatewayPolicy → IngestTime → List (NodeReport D) → List (Placed D)
  placed policy now [] = []
  placed policy now (r ∷ rs) =
      placed_by policy.max_node_age r.node r.snapshot (lag_of r now) ++ placed policy now rs

  abbrev pub channel_with : ℕ → ChannelMetrics → Option (Snapshot D) → Option ℕ → ChannelMetrics
  channel_with limit c (some s) (some lag) = if leb lag limit then add_channel c s.channel else c
  channel_with limit c _ _ = c

  unfoldable pub channels :
      GatewayPolicy → IngestTime → ChannelMetrics → List (NodeReport D) → ChannelMetrics
  channels policy now c [] = c
  channels policy now c (r ∷ rs) =
      channels policy now (channel_with policy.max_node_age c r.snapshot (lag_of r now)) rs
