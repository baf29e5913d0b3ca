-- ===== src/Pipeline/Metrics.antt =====
-- crates/ma-pipeline/src/metrics.rs: the counters of one stream, each an `AtomicU64`.
use market_aggregator.Common.{ℕ, ◌+◌, ◌-◌, ◌%◌, ◌^◌, min}
use market_aggregator.Core.Cross.{u64_max}

pub record VenueCounters : Type 0 where
  pub frames : ℕ
  pub bytes : ℕ
  pub connects : ℕ
  pub disconnects : ℕ
  pub connect_failures : ℕ
  pub idle_timeouts : ℕ
  pub dropped : ℕ
  pub rest_fetches : ℕ
  pub rest_failures : ℕ
  pub audit_fetches : ℕ
  pub audit_failures : ℕ
  pub parse_errors : ℕ
  pub heartbeats : ℕ
  pub trades : ℕ
  pub desyncs : ℕ
  pub applied : ℕ

abbrev pub no_counts : VenueCounters
no_counts = record {
  frames = 0;
  bytes = 0;
  connects = 0;
  disconnects = 0;
  connect_failures = 0;
  idle_timeouts = 0;
  dropped = 0;
  rest_fetches = 0;
  rest_failures = 0;
  audit_fetches = 0;
  audit_failures = 0;
  parse_errors = 0;
  heartbeats = 0;
  trades = 0;
  desyncs = 0;
  applied = 0;
}

-- `fetch_add`, which wraps.
abbrev pub fetch_add : ℕ → ℕ → ℕ
fetch_add n k = (n + k) % 2 ^ 64

-- The bumps of the macro `counter!`.
abbrev pub record_connect : VenueCounters → VenueCounters
record_connect c = record c { connects = fetch_add c.connects 1 }

abbrev pub record_disconnect : VenueCounters → VenueCounters
record_disconnect c = record c { disconnects = fetch_add c.disconnects 1 }

abbrev pub record_connect_failure : VenueCounters → VenueCounters
record_connect_failure c = record c { connect_failures = fetch_add c.connect_failures 1 }

abbrev pub record_idle_timeout : VenueCounters → VenueCounters
record_idle_timeout c = record c { idle_timeouts = fetch_add c.idle_timeouts 1 }

abbrev pub record_drop : VenueCounters → VenueCounters
record_drop c = record c { dropped = fetch_add c.dropped 1 }

abbrev pub record_rest_fetch : VenueCounters → VenueCounters
record_rest_fetch c = record c { rest_fetches = fetch_add c.rest_fetches 1 }

abbrev pub record_rest_failure : VenueCounters → VenueCounters
record_rest_failure c = record c { rest_failures = fetch_add c.rest_failures 1 }

abbrev pub record_audit_fetch : VenueCounters → VenueCounters
record_audit_fetch c = record c { audit_fetches = fetch_add c.audit_fetches 1 }

abbrev pub record_audit_failure : VenueCounters → VenueCounters
record_audit_failure c = record c { audit_failures = fetch_add c.audit_failures 1 }

abbrev pub record_parse_error : VenueCounters → VenueCounters
record_parse_error c = record c { parse_errors = fetch_add c.parse_errors 1 }

abbrev pub record_heartbeat : VenueCounters → VenueCounters
record_heartbeat c = record c { heartbeats = fetch_add c.heartbeats 1 }

abbrev pub record_trade : VenueCounters → VenueCounters
record_trade c = record c { trades = fetch_add c.trades 1 }

abbrev pub record_desync : VenueCounters → VenueCounters
record_desync c = record c { desyncs = fetch_add c.desyncs 1 }

abbrev pub record_applied : VenueCounters → VenueCounters
record_applied c = record c { applied = fetch_add c.applied 1 }

-- One frame, with its bytes.
abbrev pub record_frame : VenueCounters → ℕ → VenueCounters
record_frame c n = record c {
  frames = fetch_add c.frames 1;
  bytes = fetch_add c.bytes (min n u64_max);
}

-- `VenueCountersSnapshot::reconnects`.
unfoldable pub reconnects : VenueCounters → ℕ
reconnects c = c.connects - 1
