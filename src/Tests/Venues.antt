-- ===== src/Tests/Venues.antt =====
-- A Bitstamp stream with numbers as decimals, and the theorems about it.
use market_aggregator.Common.{
  ℕ, true, false, none, some, List, [], ◌∷◌, ◌≡◌, ◌⊎◌, refl, arith, codes,
}
use market_aggregator.Core.Book.{is_live}
use market_aggregator.Venues.Sync.{FrameSource, SyncAction, RestSnapshot, opened}
use market_aggregator.Venues.Sync.Replay.{events_of, replay}
use market_aggregator.Venues.Sync.Session.{Input, session}
use market_aggregator.Venues.Wire.{parse_u64, parse_digits}
use market_aggregator.Venues.Bitstamp.{
  accept, BitstampSync, Json, Mode, PendingDiff, bitstamp, new, splice,
}
use market_aggregator.Venues.Bitstamp.Splice.{splice-IsRising}
use market_aggregator.Venues.Bitstamp.Live.{Climbs, applied, applied-Climbs, bitstamp-replay}
use market_aggregator.Tests.Data.{whole, lv, some_bids, some_asks, toy_frame}

abbrev diff : ℕ → PendingDiff ℕ
diff n = record { micros = n; bids = lv n 1 ∷ []; asks = [] }

abbrev waiting : BitstampSync ℕ
waiting = record {
  channel = codes "diff_order_book_btcusd";
  trades_channel = codes "live_trades_btcusd";
  mode = Mode.awaiting_snapshot (diff 3 ∷ diff 5 ∷ diff 8 ∷ []);
}

abbrev snap : RestSnapshot ℕ
snap = record { bids = some_bids; asks = some_asks; as_of = 4 }

-- The diff at 3 is in the snapshot, those at 5 and 8 are not.
splice-IsRising_example :
    ((splice waiting snap).1
      ≡ SyncAction.snapshot some_bids some_asks
        ∷ SyncAction.delta (lv 5 1 ∷ []) []
        ∷ SyncAction.delta (lv 8 1 ∷ []) []
        ∷ [])
    × ((splice waiting snap).0.mode ≡ Mode.live 8 4)
splice-IsRising_example =
    splice-IsRising waiting snap ((omega arith, (omega arith, tt)), ((omega arith, tt), (tt, tt)))

-- The diff at 7 comes late, that at 4 is in the snapshot.
applied_order : applied (Mode.live 8 4) (diff 9 ∷ diff 4 ∷ diff 7 ∷ diff 12 ∷ []) ≡ 9 ∷ 12 ∷ []
unfolding applied accept
applied_order = refl

applied-Climbs_example :
    Climbs 8 (applied (Mode.live 8 4) (diff 9 ∷ diff 4 ∷ diff 7 ∷ diff 12 ∷ []))
applied-Climbs_example = applied-Climbs 8 4 (diff 9 ∷ diff 4 ∷ diff 7 ∷ diff 12 ∷ []) (omega arith)

-- A decoder that sees a diff stamped "5" in every frame and a book stamped "4" in every body.
abbrev decoder : Json (Unit {0})
decoder = record {
  envelope = λ t.
      some
        (record { event = codes "data"; channel = codes "diff_order_book_btcusd"; payload = tt });
  diff_data = λ j. some (record { microtimestamp = codes "5"; bids = []; asks = [] });
  trade_data = λ j. none;
  rest_order_book = λ t. some (record { microtimestamp = codes "4"; bids = []; asks = [] });
}

abbrev inputs : List Input
inputs =
    Input.arrived (toy_frame FrameSource.web_socket 65 1)
    ∷ Input.arrived (toy_frame FrameSource.rest_snapshot 65 2)
    ∷ Input.arrived (toy_frame FrameSource.web_socket 65 3)
    ∷ []

bitstamp-replay_example :
    let (v, os) =
      session
        (bitstamp decoder)
        (opened (bitstamp {D = ℕ} decoder) (new (codes "btcusd")) (codes "BTC"))
        inputs in
    let r =
      replay
        (bitstamp decoder)
        (opened (bitstamp decoder) (new (codes "btcusd")) (codes "BTC"))
        (events_of os) in
    (r.book.bids ≡ v.book.bids)
    × (r.book.asks ≡ v.book.asks)
    × ((is_live v.book.state ≡ false) ⊎ (is_live r.book.state ≡ true))
bitstamp-replay_example = bitstamp-replay decoder (codes "btcusd") (codes "BTC") inputs

parse_u64_limits :
    (parse_u64 (codes "18446744073709551615") ≡ some 18446744073709551615)
    × (parse_u64 (codes "18446744073709551616") ≡ none)
    × (parse_u64 (codes "+7") ≡ some 7)
    × (parse_u64 (codes "+") ≡ none)
    × (parse_u64 (codes "-7") ≡ none)
    × (parse_u64 [] ≡ none)
unfolding parse_u64 parse_digits
parse_u64_limits = (refl, refl, refl, refl, refl, refl)
