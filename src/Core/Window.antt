-- ===== src/Core/Window.antt =====
-- crates/ma-core/src/window.rs: statistics of the last seconds of a stream, in a ring of buckets.
pub mod Rounds
pub mod Charge
pub mod Reading
pub mod Returns
pub mod Shape
use market_aggregator.Common.{
  ℕ, zero, suc, ◌+◌, ◌-◌, ◌*◌, ◌/◌, ◌%◌, ◌^◌, min, max, Bool, true, false, not, ◌||◌, Option, none,
  some, List, [], ◌∷◌, map, ltb, leb, ◌==◌, if◌then◌else◌, Option_eqb, length, replicate,
}
use market_aggregator.Core.Decimal.{Decimal, price_ltb}
use market_aggregator.Core.Time.{IngestTime, WallTime, since}
use market_aggregator.Core.Event.{Level}
use market_aggregator.Core.Book.{BookState, Integrity, TopOfBook}
use market_aggregator.Core.Cross.{u64_max, weaker}

-- In nanoseconds.
pub record WindowSpec : Type 0 where
  pub resolution : ℕ
  pub spans : List ℕ

-- `WindowSpec::new`; a millisecond is the finest resolution.
unfoldable pub window_spec : ℕ → List ℕ → WindowSpec
window_spec resolution spans =
    let r = max resolution 1000000 in record { resolution = r; spans = map (λ s. max s r) spans }

-- The maximum of `longest`.
abbrev pub maximum : List ℕ → ℕ
maximum [] = 0
maximum (s ∷ ss) = max s (maximum ss)

abbrev pub longest : WindowSpec → ℕ
longest spec = maximum spec.spans

-- `buckets_for`; `u128::div_ceil`.
abbrev pub buckets_for : ℕ → ℕ → ℕ
buckets_for span resolution = let r = max resolution 1 in min ((span + r - 1) / r) u64_max

pub record Bucket (D : Type 0) : Type 0 where
  pub index : Option ℕ
  pub samples : ℕ
  pub sum_mid : D
  pub sum_spread : D
  pub first : Option D
  pub last : Option D
  pub high : Option D
  pub low : Option D
  pub integrity : Option Integrity
  pub trades : ℕ
  pub sum_qty : D
  pub sum_price_qty : D
  pub untrusted : ℕ

pub record RollingWindows (D : Type 0) : Type 0 where
  pub spec : WindowSpec
  pub buckets : List (Bucket D)
  pub origin : IngestTime
  pub charged_to : IngestTime
  pub trusted : Bool

-- `SystemTime + Duration`, and `IngestTime::advanced_by`, of clocks that do not run out.
abbrev pub wall_plus : WallTime → ℕ → WallTime
wall_plus (WallTime.after_epoch n) d = WallTime.after_epoch (n + d)
wall_plus (WallTime.before_epoch n) d =
    if leb d n then WallTime.before_epoch (n - d) else WallTime.after_epoch (d - n - 1)

abbrev pub advanced_by : IngestTime → ℕ → IngestTime
advanced_by t d = record { mono = t.mono + d; wall = wall_plus t.wall d }

-- `index_at` and `bucket_start`, for a resolution and an origin.
abbrev pub index_in : ℕ → IngestTime → IngestTime → ℕ
index_in resolution origin t = min (since t origin / max resolution 1) u64_max

abbrev pub start_in : ℕ → IngestTime → ℕ → IngestTime
start_in resolution origin index = advanced_by origin (min (index * resolution) u64_max)

-- `u64::saturating_add`.
abbrev pub saturating_add : ℕ → ℕ → ℕ
saturating_add a b = min (a + b) u64_max

abbrev pub update_at : {A : Type 0} → ℕ → (A → A) → List A → List A
update_at n f [] = []
update_at zero f (x ∷ xs) = f x ∷ xs
update_at (suc n) f (x ∷ xs) = x ∷ update_at n f xs

abbrev pub nth : {A : Type 0} → ℕ → List A → Option A
nth n [] = none
nth zero (x ∷ xs) = some x
nth (suc n) (x ∷ xs) = nth n xs

-- `Option::map_or`.
abbrev pub map_or : {A : Type 0} → Option A → A → (A → A) → A
map_or none a f = a
map_or (some x) a f = f x

module _ {D : Type 0} where
  abbrev pub index_at : RollingWindows D → IngestTime → ℕ
  index_at w t = index_in w.spec.resolution w.origin t

  abbrev pub bucket_start : RollingWindows D → ℕ → IngestTime
  bucket_start w index = start_in w.spec.resolution w.origin index

  abbrev pub ring_size : RollingWindows D → ℕ
  ring_size w = min (length w.buckets) u64_max

module _ {D : Type 0} ⦃dec : Decimal D⦄ where
  -- `Bucket::default`.
  abbrev pub empty_bucket : Bucket D
  empty_bucket = record {
    index = none;
    samples = 0;
    sum_mid = dec.zero_decimal;
    sum_spread = dec.zero_decimal;
    first = none;
    last = none;
    high = none;
    low = none;
    integrity = none;
    trades = 0;
    sum_qty = dec.zero_decimal;
    sum_price_qty = dec.zero_decimal;
    untrusted = 0;
  }

  -- `Bucket::reset`.
  abbrev pub reset : ℕ → Bucket D
  reset index = record empty_bucket { index = some index }

  -- `Ord::max` and `Ord::min`, which give the second and the first of equals.
  abbrev pub higher : D → D → D
  higher a b = if price_ltb b a then a else b

  abbrev pub lower : D → D → D
  lower a b = if price_ltb b a then b else a

  abbrev pub or_keep : Option D → D → D
  or_keep none mid = mid
  or_keep (some x) mid = x

  -- `Bucket::record`.
  abbrev pub record_sample : Bucket D → D → D → Integrity → Bucket D
  record_sample b mid spread integrity = record b {
    samples = (b.samples + 1) % 2 ^ 64;
    sum_mid = dec.add b.sum_mid mid;
    sum_spread = dec.add b.sum_spread spread;
    first = some (or_keep b.first mid);
    last = some mid;
    high = some (map_or b.high mid (λ h. higher h mid));
    low = some (map_or b.low mid (λ l. lower l mid));
    integrity = some (map_or b.integrity integrity (λ i. weaker i integrity));
  }

  -- `Bucket::record_trade`.
  abbrev pub record_trade : Bucket D → D → D → Bucket D
  record_trade b price qty = record b {
    trades = (b.trades + 1) % 2 ^ 64;
    sum_qty = dec.add b.sum_qty qty;
    sum_price_qty = dec.add b.sum_price_qty (dec.mul price qty);
  }

  -- `slot_mut`, and what is done to the bucket.
  abbrev pub opened_slot : ℕ → Bucket D → Bucket D
  opened_slot index b = if Option_eqb (λ i j. i == j) b.index (some index) then b else reset index

  abbrev pub slot_mut : RollingWindows D → ℕ → (Bucket D → Bucket D) → RollingWindows D
  slot_mut w index f = record w {
    buckets = update_at (index % max (ring_size w) 1) (λ b. f (opened_slot index b)) w.buckets;
  }

  -- What one round of the loop of `charge` does to the bucket.
  abbrev pub charged_bucket : Bool → ℕ → Bucket D → Bucket D
  charged_bucket true elapsed b = b
  charged_bucket false elapsed b = record b { untrusted = b.untrusted + elapsed }

  abbrev pub slice_end : RollingWindows D → IngestTime → IngestTime → IngestTime
  slice_end w cursor now =
      let boundary = bucket_start w (saturating_add (index_at w cursor) 1) in
      if ltb boundary.mono now.mono then boundary else now

  abbrev pub charge_slice : RollingWindows D → IngestTime → IngestTime → RollingWindows D
  charge_slice w cursor now =
      slot_mut w (index_at w cursor)
        (charged_bucket w.trusted (since (slice_end w cursor now) cursor))

  -- The loop of `charge`; `none` is a loop that needs more rounds.
  unfoldable pub charge_from :
      ℕ → RollingWindows D → IngestTime → IngestTime → Option (RollingWindows D)
  charge_from zero w cursor now = if ltb cursor.mono now.mono then none else some w
  charge_from (suc rounds) w cursor now =
      let next = slice_end w cursor now in
      let w' = charge_slice w cursor now in
      let rest = charge_from rounds w' next now in
      if ltb cursor.mono now.mono
      then (if leb next.mono cursor.mono then some w' else rest)
      else some w

  -- Where the loop of `charge` begins.
  abbrev pub charge_start : RollingWindows D → IngestTime → IngestTime
  charge_start w now =
      let end = index_at w now in
      if leb (ring_size w) (end - index_at w w.charged_to)
      then bucket_start w (saturating_add (end - ring_size w) 1)
      else w.charged_to

  abbrev pub settled : IngestTime → Option (RollingWindows D) → Option (RollingWindows D)
  settled now none = none
  settled now (some w) = some (record w { charged_to = now })

  -- `charge`, with a round for every slot of the ring.
  unfoldable pub charge : RollingWindows D → IngestTime → Option (RollingWindows D)
  unfolding charge_from
  charge w now =
      if leb now.mono w.charged_to.mono
      then some w
      else settled now (charge_from (length w.buckets) w (charge_start w now) now)
