-- ===== src/Tests/Gateways.antt =====
-- A gateway over three nodes, a window over two venues, and the theorems about them.
use mathlib.Core.List.Perm
use market_aggregator.Common.{ℕ, none, some, List, [], ◌∷◌, ◌≡◌, All}
use market_aggregator.Core.Event.{VenueId}
use market_aggregator.Core.Book.{Integrity}
use market_aggregator.Core.Window.Reading.{WindowReading, empty_reading}
use market_aggregator.Core.CrossWindows.{WindowLeg, consolidate_span}
use market_aggregator.Core.CrossWindows.Coverage.{published, consolidate_span-Perm}
use market_aggregator.Pipeline.View.{BookStatus, VenueView, Snapshot, cross_view}
use market_aggregator.Pipeline.Metrics.{no_counts}
use market_aggregator.Core.Cross.{default_policy}
use market_aggregator.Server.Gateway.{NodeReport, Claim, gateway_policy, new_report}
use market_aggregator.Server.Gateway.Merge.{winner, merge}
use market_aggregator.Server.Gateway.Sourced.{Sourced}
use market_aggregator.Server.Gateway.Shown.{merge-Sourced}
use market_aggregator.Server.Gateway.Freshest.{FreshestOf, winner-FreshestOf}
use market_aggregator.Tests.Data.{whole, at_ms, lv}

-- A live view that is so many milliseconds old.
abbrev view_of_age : ℕ → VenueView ℕ
view_of_age ms = record {
  venue = VenueId.kraken;
  status = BookStatus.live;
  integrity = some Integrity.verified;
  desync_reason = none;
  bid_level = some (lv 99 1);
  ask_level = some (lv 101 2);
  bids = lv 99 1 ∷ [];
  asks = lv 101 2 ∷ [];
  spread = none;
  mid = none;
  age_ms = some ms;
  status_for_ms = 5000;
  desynced_total_ms = 0;
  last_verified_ms = some ms;
  audits = 0;
  audit_mismatches = 0;
  levels_held = (1, 1);
  windows = [];
  last_trade = none;
  counters = no_counts;
}

abbrev snapshot_of_age : ℕ → Snapshot ℕ
snapshot_of_age ms = record {
  seq = 7;
  wall_unix_ms = 0;
  symbols =
      record {
        symbol = 66 ∷ [];
        weakest_integrity = some Integrity.verified;
        cross = cross_view [] default_policy;
        cross_windows = [];
        venues = view_of_age ms ∷ [];
      }
      ∷ [];
  channel = record { len = 1; capacity = 8; dropped = 2 };
}

abbrev report : ℕ → ℕ → ℕ → NodeReport ℕ
report name received age = record {
  node = name ∷ [];
  url = [];
  snapshot = some (snapshot_of_age age);
  received_at = some (at_ms received);
  last_error = none;
  connects = 1;
  failures = 0;
}

-- Two that claim one stream, one that has gone quiet, and one that was never heard.
abbrev reports : List (NodeReport ℕ)
reports = report 97 9900 20 ∷ report 98 9990 30 ∷ report 99 5000 1 ∷ new_report (100 ∷ []) [] ∷ []

merge-Sourced_example :
    All
      (λ s. All (Sourced gateway_policy (at_ms 10000) reports s.symbol) s.venues)
      (merge reports (at_ms 10000) 3 gateway_policy).snapshot.symbols
merge-Sourced_example = merge-Sourced reports (at_ms 10000) 3 gateway_policy

abbrev claims : List (Claim ℕ)
claims =
    record { node = 97 ∷ []; lag_ms = 100; view = view_of_age 120 }
    ∷ record { node = 98 ∷ []; lag_ms = 10; view = view_of_age 40 }
    ∷ []

winner-FreshestOf_example : FreshestOf (winner claims) claims
winner-FreshestOf_example = winner-FreshestOf claims

abbrev minute_of : ℕ → ℕ → WindowReading ℕ
minute_of trusted samples = record (empty_reading ℕ 60000) {
  trusted_ms = trusted;
  samples = samples;
  mean = some 100;
  trades = 2;
  volume = some 5;
}

abbrev leg : VenueId → ℕ → ℕ → ℕ → WindowLeg ℕ
leg venue lag trusted samples = record {
  venue = venue;
  lag_ms = lag;
  windows = minute_of trusted samples ∷ [];
}

consolidate_span-Perm_example :
    published
      (consolidate_span 60000 (leg VenueId.kraken 3 60000 9 ∷ leg VenueId.coinbase 40 20000 4 ∷ []))
    ≡ published (
        consolidate_span 60000
          (leg VenueId.coinbase 40 20000 4 ∷ leg VenueId.kraken 3 60000 9 ∷ []))
consolidate_span-Perm_example =
    consolidate_span-Perm 60000
      (leg VenueId.kraken 3 60000 9 ∷ leg VenueId.coinbase 40 20000 4 ∷ [])
      (leg VenueId.coinbase 40 20000 4 ∷ leg VenueId.kraken 3 60000 9 ∷ [])
      (Perm.swap (leg VenueId.coinbase 40 20000 4) (leg VenueId.kraken 3 60000 9) [])
