-- ===== src/Lib.antt =====
-- Market aggregator: order books of several venues, kept in step, audited and shared out.
--
-- The program takes frames from the sockets and REST endpoints of trading venues, keeps one order
-- book for each stream (a venue and a symbol), says at every moment how far the book can be
-- trusted, passes what happened on as events, and shares the streams out over a cluster.
--
-- Parts and files (the sources are under crates/):
--   Common: lists, bytes, Boolean tests and results that the parts share.
--   Core/Decimal, Core/Time, Core/Event: ma-core/src/price.rs, time.rs, event.rs and stream.rs.
--     `rust_decimal` is not in the repository: it is the instance argument `Decimal D`, which the
--     theorems use by the order of `rank`, by `is_zero` and, where it is a hypothesis, by the sign
--     of a difference. Its operators panic where a result does not fit; in the model they return,
--     so runs with such a panic, in the windows, the audit or the views, are outside it.
--   Core/Levels, Core/Book: ma-core/src/book.rs. A `BTreeMap` is the ascending list of its
--     entries; a call on a book takes the book and gives the book after it, with its result.
--   Core/Cross: ma-core/src/cross.rs, the best bid and ask over several venues.
--   Core/Window: ma-core/src/window.rs, the ring of buckets behind the statistics of a stream.
--   Core/CrossWindows: ma-core/src/cross_windows.rs, those statistics merged over several venues.
--   Core/Audit: ma-core/src/audit.rs, the comparison with an independent snapshot, and the trail.
--   Venues/Sync: ma-venues/src/sync.rs. The trait `VenueSync` is a record over the state of its
--     implementor, so what is shown of a `VenueBook` is shown for every venue.
--   Venues/Wire, Venues/Rfc3339: ma-venues/src/venues/common.rs, `parse_rfc3339` in the second.
--   Venues/Bitstamp, Venues/Coinbase, Venues/Kraken: the files of those names under
--     ma-venues/src/venues/. `serde_json` and `crc32fast` are not in the repository: they are the
--     parameters `Json` and `Calls`. An error `unwound` stands for a call that panics.
--   Pipeline/Channel: ma-pipeline/src/channel.rs, first as calls without interruption, then in
--     Ledger as atomic sections in any order.
--   Pipeline/Backoff: ma-pipeline/src/backoff.rs.
--   Pipeline/Messages, Pipeline/Metrics: the messages of ma-pipeline/src/ingest.rs, and the counters
--     of metrics.rs.
--   Pipeline/Ingest, and its Loop: the task of ma-pipeline/src/ingest.rs. Sockets, timers, the
--     clock and the signals are lists of what they answer, and a list that is used up is a task
--     that waits. A turn of the `select!` runs without interruption; between turns the channel is
--     changed by a function that stands for its other holders. A tape is taken to be open as long
--     as it is kept.
--   Pipeline/Aggregator: ma-pipeline/src/aggregator.rs, its streams and what a message does (`apply`
--     and its arms, `handle`). A message ends in a state and effects, or in a `Stop`: a parser that
--     unwinds, or a loop of the windows that is not done. Pipeline/View and
--     Pipeline/Snapshot: what `snapshot` publishes of them.
--   Pipeline/Tape: ma-pipeline/src/tape.rs. `serde_json` and the reader's lines are the parameter
--     `TapeFormat`.
--   Server/Gateway: ma-server/src/gateway/mod.rs, and its `merge` in Merge.
--   Coord/Assign, Coord/Lease: ma-coord/src/assign.rs and lease.rs. The trait `Registry` is a
--     record over the registry's state.
--   Tests: a toy venue, books, channels, an aggregator, a tape, a gateway and a cluster on which the
--     definitions run.
--
-- How they meet: a venue's parser turns a frame into actions, `apply_ingested` turns actions into
-- calls on the book and into events, `audit_book` compares the book and may desync it, and the
-- lease loop says which streams a node runs at all. The aggregator feeds each message to its
-- stream's book, keeps count of what comes of it, tees the events, and publishes views of the
-- books; the gateway merges the views of several nodes.
--
-- Numbers: durations and instants are nanoseconds; counters wrap at their width where the source
-- lets them wrap, and saturate where it does. Two loops are on fuel: that of `prune` over the
-- asks (`prune_asks_from`), where each round takes one ask away, so the number of asks is enough,
-- and that of `charge` over the ring (`charge_from`), which has a round for each slot of it.
--
-- Not modelled: the tasks and timers around the aggregator and the lease loop, the rates of the views
-- (floats), the texts of errors and reasons, storage, HTTP, and the programs' entry points.
pub mod Common
pub mod Core
pub mod Venues
pub mod Pipeline
pub mod Server
pub mod Coord
pub mod Tests
