-- ===== src/Core/CrossWindows.antt =====
-- crates/ma-core/src/cross_windows.rs: one window over several venues, merged without an order.
pub mod Coverage
use market_aggregator.Common.{
  ℕ, ◌+◌, ◌%◌, ◌^◌, min, max, Bool, true, false, ◌&&◌, Option, none, some, List, [], ◌∷◌, ◌++◌, map,
  ltb, leb, ◌==◌, if◌then◌else◌,
}
use market_aggregator.Core.Decimal.{Decimal}
use market_aggregator.Core.Event.{VenueId}
use market_aggregator.Core.Book.{Integrity}
use market_aggregator.Core.Cross.{weaker}
use market_aggregator.Core.Window.{higher, lower, map_or}
use market_aggregator.Core.Window.Reading.{WindowReading, choose_opt, range_of, unless_zero}

pub record WindowLeg (D : Type 0) : Type 0 where
  pub venue : VenueId
  pub lag_ms : ℕ
  pub windows : List (WindowReading D)

pub data WindowExclusionReason : Type 0 where
  span_not_published no_data : WindowExclusionReason

pub record WindowExclusion : Type 0 where
  pub venue : VenueId
  pub reason : WindowExclusionReason

pub record CrossWindowReading (D : Type 0) : Type 0 where
  pub span_ms : ℕ
  pub trusted_ms_floor : ℕ
  pub integrity_floor : Option Integrity
  pub max_lag_ms : ℕ
  pub venues_used : ℕ
  pub samples : ℕ
  pub high : Option D
  pub low : Option D
  pub mean : Option D
  pub range_bps : Option D
  pub trades : ℕ
  pub volume : Option D
  pub vwap : Option D
  pub excluded : List WindowExclusion

-- The reading so far, the least coverage and the three sums of `consolidate_span`.
pub record Merge (D : Type 0) : Type 0 where
  pub reading : CrossWindowReading D
  pub floor : Option ℕ
  pub sum_mean_weighted : D
  pub sum_vwap_weighted : D
  pub sum_volume : D

module _ {D : Type 0} where
  -- `windows.iter().find(|w| w.span_ms == span_ms)`.
  abbrev pub find_window : ℕ → List (WindowReading D) → Option (WindowReading D)
  find_window span [] = none
  find_window span (w ∷ ws) =
      let rest = find_window span ws in if w.span_ms == span then some w else rest

  abbrev pub empty_reading : ℕ → CrossWindowReading D
  empty_reading span = record {
    span_ms = span;
    trusted_ms_floor = 0;
    integrity_floor = none;
    max_lag_ms = 0;
    venues_used = 0;
    samples = 0;
    high = none;
    low = none;
    mean = none;
    range_bps = none;
    trades = 0;
    volume = none;
    vwap = none;
    excluded = [];
  }

  abbrev pub exclude : WindowExclusionReason → WindowLeg D → Merge D → Merge D
  exclude reason leg m = record m {
    reading = record m.reading {
      excluded = m.reading.excluded ++ record { venue = leg.venue; reason = reason } ∷ [];
    };
  }

-- `sort_unstable` and `dedup` on the spans.
abbrev pub insert_span : ℕ → List ℕ → List ℕ
insert_span s [] = s ∷ []
insert_span s (t ∷ ts) = let rest = insert_span s ts in if leb s t then s ∷ t ∷ ts else t ∷ rest

abbrev pub sort_spans : List ℕ → List ℕ
sort_spans [] = []
sort_spans (s ∷ ss) = insert_span s (sort_spans ss)

abbrev pub dedup_after : ℕ → List ℕ → List ℕ
dedup_after s [] = []
dedup_after s (t ∷ ts) = let rest = dedup_after t ts in if t == s then rest else t ∷ rest

abbrev pub dedup : List ℕ → List ℕ
dedup [] = []
dedup (s ∷ ss) = s ∷ dedup_after s ss

module _ {D : Type 0} ⦃dec : Decimal D⦄ where
  abbrev pub no_merge : ℕ → Merge D
  no_merge span = record {
    reading = empty_reading span;
    floor = none;
    sum_mean_weighted = dec.zero_decimal;
    sum_vwap_weighted = dec.zero_decimal;
    sum_volume = dec.zero_decimal;
  }

  -- The statistics of a book, from a window that sampled one.
  abbrev pub weighted : Option D → ℕ → D → D
  weighted none samples sum = sum
  weighted (some mean) samples sum = dec.add sum (dec.mul mean (dec.from_u32 samples))

  abbrev pub merge_book : WindowReading D → Merge D → Merge D
  merge_book w m =
      if ltb 0 w.samples
      then record m {
        reading = record m.reading {
          integrity_floor = choose_opt weaker m.reading.integrity_floor w.integrity_floor;
          high = choose_opt higher m.reading.high w.high;
          low = choose_opt lower m.reading.low w.low;
        };
        sum_mean_weighted = weighted w.mean w.samples m.sum_mean_weighted;
      }
      else m

  abbrev pub merge_volume : Option D → Option D → Merge D → Merge D
  merge_volume (some volume) (some vwap) m = record m {
    sum_volume = dec.add m.sum_volume volume;
    sum_vwap_weighted = dec.add m.sum_vwap_weighted (dec.mul vwap volume);
  }
  merge_volume _ _ m = m

  -- What the loop does with a window that holds data.
  abbrev pub count_window : WindowReading D → ℕ → Merge D → Merge D
  count_window w lag m = record m {
    reading = record m.reading {
      venues_used = m.reading.venues_used + 1;
      max_lag_ms = max m.reading.max_lag_ms lag;
      samples = (m.reading.samples + w.samples) % 2 ^ 64;
      trades = (m.reading.trades + w.trades) % 2 ^ 64;
    };
    floor = some (map_or m.floor w.trusted_ms (λ f. min f w.trusted_ms));
  }

  abbrev pub merge_window : WindowReading D → ℕ → Merge D → Merge D
  merge_window w lag m = merge_volume w.volume w.vwap (merge_book w (count_window w lag m))

  -- One turn of the loop of `consolidate_span`.
  abbrev pub merge_found : WindowLeg D → Option (WindowReading D) → Merge D → Merge D
  merge_found leg none m = exclude WindowExclusionReason.span_not_published leg m
  merge_found leg (some w) m =
      if w.samples == 0 && w.trades == 0
      then exclude WindowExclusionReason.no_data leg m
      else merge_window w leg.lag_ms m

  unfoldable pub merge_legs : ℕ → Merge D → List (WindowLeg D) → Merge D
  merge_legs span m [] = m
  merge_legs span m (leg ∷ legs) =
      merge_legs span (merge_found leg (find_window span leg.windows) m) legs

  -- What is derived after the loop.
  abbrev pub with_mean : Merge D → CrossWindowReading D → CrossWindowReading D
  with_mean m out =
      let mean = dec.round_dp (dec.div m.sum_mean_weighted (dec.from_u32 out.samples)) 8 in
      if ltb 0 out.samples
      then record out { mean = some mean; range_bps = range_of out.high out.low mean }
      else out

  abbrev pub with_volume : Merge D → CrossWindowReading D → CrossWindowReading D
  with_volume m out =
      if ltb 0 out.trades
      then record out {
        volume = some m.sum_volume;
        vwap = unless_zero m.sum_volume (dec.round_dp (dec.div m.sum_vwap_weighted m.sum_volume) 8);
      }
      else out

  abbrev pub finish : Merge D → CrossWindowReading D
  finish m =
      with_volume m
        (with_mean m (record m.reading { trusted_ms_floor = map_or m.floor 0 (λ f. f) }))

  unfoldable pub consolidate_span : ℕ → List (WindowLeg D) → CrossWindowReading D
  unfolding merge_legs
  consolidate_span span legs = finish (merge_legs span (no_merge span) legs)

  abbrev pub spans_of : List (WindowLeg D) → List ℕ
  spans_of [] = []
  spans_of (leg ∷ legs) = map (λ (w : WindowReading D). w.span_ms) leg.windows ++ spans_of legs

  unfoldable pub consolidate_windows : List (WindowLeg D) → List (CrossWindowReading D)
  unfolding consolidate_span
  consolidate_windows legs =
      map (λ span. consolidate_span span legs) (dedup (sort_spans (spans_of legs)))
