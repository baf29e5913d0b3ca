-- ===== src/Core/Window/Reading.antt =====
-- crates/ma-core/src/window.rs: what is folded into the buckets, and what is read from them.
use market_aggregator.Common.{
  ℕ, zero, suc, ◌+◌, ◌-◌, ◌*◌, ◌/◌, ◌%◌, ◌^◌, min, max, Bool, true, false, Option, none, some, List,
  map, ltb, ◌==◌, if◌then◌else◌, Option_eqb, replicate,
}
use market_aggregator.Core.Decimal.{Decimal}
use market_aggregator.Core.Time.{IngestTime}
use market_aggregator.Core.Event.{Level}
use market_aggregator.Core.Book.{BookState, Integrity, TopOfBook}
use market_aggregator.Core.Cross.{u64_max, weaker}
use market_aggregator.Core.Window.{
  WindowSpec, Bucket, RollingWindows, longest, buckets_for, saturating_add, nth, index_at,
  ring_size, empty_bucket, record_sample, record_trade, slot_mut, higher, lower, charge,
}

pub record WindowReading (D : Type 0) : Type 0 where
  pub span_ms : ℕ
  pub trusted_ms : ℕ
  pub samples : ℕ
  pub integrity_floor : Option Integrity
  pub first : Option D
  pub last : Option D
  pub high : Option D
  pub low : Option D
  pub mean : Option D
  pub change_bps : Option D
  pub range_bps : Option D
  pub mean_spread_bps : Option D
  pub trades : ℕ
  pub volume : Option D
  pub vwap : Option D

-- The reading so far, and the four sums of `read_span`.
pub record Totals (D : Type 0) : Type 0 where
  pub reading : WindowReading D
  pub sum_mid : D
  pub sum_spread : D
  pub sum_qty : D
  pub sum_price_qty : D

-- `millis` and `saturating_u32`.
abbrev pub millis : ℕ → ℕ
millis d = min (d / 1000000) u64_max

abbrev pub saturating_u32 : ℕ → ℕ
saturating_u32 v = min v (2 ^ 32 - 1)

-- `max_opt` and `min_opt`, by what they choose of two.
abbrev pub choose_opt : {A : Type 0} → (A → A → A) → Option A → Option A → Option A
choose_opt f (some a) (some b) = some (f a b)
choose_opt f (some a) none = some a
choose_opt f none o = o

abbrev pub or_opt : {A : Type 0} → Option A → Option A → Option A
or_opt (some a) o = some a
or_opt none o = o

abbrev pub then_do : {A B : Type 0} → Option A → (A → B) → Option B
then_do none f = none
then_do (some a) f = some (f a)

-- `WindowReading::empty`.
abbrev pub empty_reading : (D : Type 0) → ℕ → WindowReading D
empty_reading D span_ms = record {
  span_ms = span_ms;
  trusted_ms = 0;
  samples = 0;
  integrity_floor = none;
  first = none;
  last = none;
  high = none;
  low = none;
  mean = none;
  change_bps = none;
  range_bps = none;
  mean_spread_bps = none;
  trades = 0;
  volume = none;
  vwap = none;
}

-- `WindowReading::is_partial`.
abbrev pub is_partial : {D : Type 0} → WindowReading D → Bool
is_partial r = ltb r.trusted_ms r.span_ms

module _ {D : Type 0} ⦃dec : Decimal D⦄ where
  -- `RollingWindows::new`.
  unfoldable pub new : WindowSpec → IngestTime → RollingWindows D
  new spec now = record {
    spec = spec;
    buckets =
        replicate (saturating_add (buckets_for (longest spec) spec.resolution) 1) empty_bucket;
    origin = now;
    charged_to = now;
    trusted = false;
  }

  -- `observe` after the call of `charge`.
  abbrev pub sampled :
      RollingWindows D
      → Integrity
      → Option (Level D)
      → Option (Level D)
      → IngestTime
      → RollingWindows D
  sampled w integrity (some b) (some a) at = slot_mut w (index_at w at) (λ k.
      record_sample k (dec.div (dec.add b.price a.price) (dec.from_u32 2)) (dec.sub a.price b.price)
        integrity)
  sampled w integrity _ _ at = w

  abbrev pub observed : RollingWindows D → TopOfBook D → IngestTime → RollingWindows D
  observed w top at = elim top.state [
    | BookState.live integrity s v ↦
        sampled (record w { trusted = true }) integrity top.bid_level top.ask_level at
    | _ ↦ record w { trusted = false }
  ]

  abbrev pub traded : RollingWindows D → D → D → IngestTime → RollingWindows D
  traded w price qty at = slot_mut w (index_at w at) (λ k. record_trade k price qty)

  -- `observe` and `observe_trade`.
  unfoldable pub observe : RollingWindows D → TopOfBook D → IngestTime → Option (RollingWindows D)
  observe w top at = then_do (charge w at) (λ w'. observed w' top at)

  unfoldable pub observe_trade : RollingWindows D → D → D → IngestTime → Option (RollingWindows D)
  observe_trade w price qty at = then_do (charge w at) (λ w'. traded w' price qty at)

  -- `slot`.
  abbrev pub slot_filter : ℕ → Option (Bucket D) → Option (Bucket D)
  slot_filter index none = none
  slot_filter index (some b) =
      if Option_eqb (λ i j. i == j) b.index (some index) then some b else none

  abbrev pub slot : RollingWindows D → ℕ → Option (Bucket D)
  slot w index = slot_filter index (nth (index % max (ring_size w) 1) w.buckets)

  -- One turn of the loop of `read_span`.
  abbrev pub add_samples : Bucket D → Totals D → Totals D
  add_samples b t = if b.samples == 0 then t else record t {
    reading = record t.reading {
      samples = (t.reading.samples + b.samples) % 2 ^ 64;
      first = or_opt t.reading.first b.first;
      last = or_opt b.last t.reading.last;
      high = choose_opt higher t.reading.high b.high;
      low = choose_opt lower t.reading.low b.low;
      integrity_floor = choose_opt weaker t.reading.integrity_floor b.integrity;
    };
    sum_mid = dec.add t.sum_mid b.sum_mid;
    sum_spread = dec.add t.sum_spread b.sum_spread;
  }

  abbrev pub add_bucket : ℕ → Option (Bucket D) → Totals D → Totals D
  add_bucket resolution none t = t
  add_bucket resolution (some b) t = add_samples b (record t {
    reading = record t.reading {
      trusted_ms = (t.reading.trusted_ms + millis (resolution - b.untrusted)) % 2 ^ 64;
      trades = (t.reading.trades + b.trades) % 2 ^ 64;
    };
    sum_qty = dec.add t.sum_qty b.sum_qty;
    sum_price_qty = dec.add t.sum_price_qty b.sum_price_qty;
  })

  -- The loop, over `count` buckets from `index` on.
  unfoldable pub add_buckets : RollingWindows D → ℕ → ℕ → Totals D → Totals D
  add_buckets w index zero t = t
  add_buckets w index (suc count) t =
      add_buckets w (index + 1) count (add_bucket w.spec.resolution (slot w index) t)

  -- `bps`.
  abbrev pub bps : D → D → D
  bps numerator denominator =
      dec.round_dp (dec.div (dec.mul numerator (dec.from_u32 10000)) denominator) 4

  -- The quotient that `read_span` takes where the divisor is not zero.
  abbrev pub unless_zero : D → D → Option D
  unless_zero divisor quotient = if dec.is_zero divisor then none else some quotient

  abbrev pub change_of : Option D → Option D → Option D
  change_of (some f) (some l) = unless_zero f (bps (dec.sub l f) f)
  change_of _ _ = none

  abbrev pub range_of : Option D → Option D → D → Option D
  range_of (some h) (some l) mean = unless_zero mean (bps (dec.sub h l) mean)
  range_of _ _ mean = none

  -- What `read_span` derives after the loop.
  abbrev pub with_trades : Totals D → WindowReading D
  with_trades t = if t.reading.trades == 0 then t.reading else record t.reading {
    volume = some t.sum_qty;
    vwap = unless_zero t.sum_qty (dec.round_dp (dec.div t.sum_price_qty t.sum_qty) 8);
  }

  abbrev pub finished : Totals D → WindowReading D
  finished t =
      let r = with_trades t in
      let mean = dec.round_dp (dec.div t.sum_mid (dec.from_u32 r.samples)) 8 in
      if r.samples == 0 then r else record r {
        mean = some mean;
        change_bps = change_of r.first r.last;
        range_bps = range_of r.high r.low mean;
        mean_spread_bps = unless_zero t.sum_mid (bps t.sum_spread t.sum_mid);
      }

  abbrev pub no_totals : ℕ → Totals D
  no_totals span_ms = record {
    reading = empty_reading D span_ms;
    sum_mid = dec.zero_decimal;
    sum_spread = dec.zero_decimal;
    sum_qty = dec.zero_decimal;
    sum_price_qty = dec.zero_decimal;
  }

  -- `read_span`: the completed buckets before the bucket `end`.
  unfoldable pub read_span : RollingWindows D → ℕ → ℕ → WindowReading D
  unfolding add_buckets
  read_span w span zero =
      empty_reading D
        (millis (w.spec.resolution * saturating_u32 (buckets_for span w.spec.resolution)))
  read_span w span (suc newest) =
      let k = buckets_for span w.spec.resolution in
      let oldest = newest - (k - 1) in
      finished (
        add_buckets w oldest (suc newest - oldest)
          (no_totals (millis (w.spec.resolution * saturating_u32 k))))

  -- `read`.
  abbrev pub read_all : RollingWindows D → IngestTime → RollingWindows D × List (WindowReading D)
  read_all w now = (w, map (λ span. read_span w span (index_at w now)) w.spec.spans)

  unfoldable pub read :
      RollingWindows D → IngestTime → Option (RollingWindows D × List (WindowReading D))
  read w now = then_do (charge w now) (λ w'. read_all w' now)
