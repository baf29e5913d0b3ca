-- ===== src/Core/Window/Rounds.antt =====
-- One round of the accounting of trust: where it ends, and what 64 bits leave of the numbers.
use market_aggregator.Common.{
  ℕ, zero, suc, ◌+◌, ◌*◌, ◌/◌, ◌≤◌, ◌<◌, min, max, true, false, Option, none, some, ◌≡◌, ap, ◌∙◌,
  arith, Bool, Bool-cases, ◌⊎◌, inl, inr, ltb, if◌then◌else◌,
}
use native.Mathlib.Nat.{mul-div_cancel, div-mul-le_self, le-mul_of_pos_right}
use market_aggregator.Core.Decimal.{Decimal}
use market_aggregator.Core.Time.{IngestTime, since}
use market_aggregator.Core.Cross.{u64_max}
use market_aggregator.Core.Window.{
  RollingWindows, index_at, bucket_start, slice_end, charge_from, saturating_add,
}

abbrev pub IsSome : {A : Type 0} → Option A → Type 0
IsSome none = ⊥
IsSome (some a) = Unit

pub either-IsSome :
    {A : Type 0} (b : Bool) (a : A) (o : Option A) → IsSome o → IsSome (if b then some a else o)
either-IsSome true a o h = tt
either-IsSome false a o h = h

-- A start that is not cut off, and its bucket.
pub starts_at :
    (m d r limit : ℕ) → 0 < r → (m + d) * r ≤ limit → min (min m limit * r) limit / r ≡ m
starts_at m d r limit h k =
    ap (λ x. min (x * r) limit / r) inner ∙ (ap (λ x. x / r) outer ∙ mul-div_cancel m h)
  where
    inner : min m limit ≡ m
    inner = omega (arith, le-mul_of_pos_right m h, k)

    outer : min (m * r) limit ≡ m * r
    outer = omega (arith, k)

pub below_limit :
    (q r limit : ℕ)
    → 0 < r
    → q * r + r ≤ limit
    → min (min (min q limit + 1) limit * r) limit ≡ (q + 1) * r
below_limit q r limit h k = ap (λ x. min (x * r) limit) inner ∙ outer
  where
    inner : min (min q limit + 1) limit ≡ q + 1
    inner = omega (arith, le-mul_of_pos_right q h, h, k)

    outer : min ((q + 1) * r) limit ≡ (q + 1) * r
    outer = omega (arith, k)

module _ {D : Type 0} ⦃dec : Decimal D⦄ where
  -- The windows' resolution is at least a nanosecond, and the next bucket begins within 2^64
  -- nanoseconds, five centuries, of the start.
  pub record InRange (w : RollingWindows D) (now : IngestTime) : Type 0 where
    pub resolved : 0 < w.spec.resolution
    pub in_time : since now w.origin + w.spec.resolution ≤ u64_max

  pub charge_from-end :
      (rounds : ℕ) (w : RollingWindows D) (cursor now : IngestTime)
      → now.mono ≤ cursor.mono
      → IsSome (charge_from rounds w cursor now)
  unfolding charge_from
  charge_from-end zero w cursor now h = rw (late h) tt
    where
      late : now.mono ≤ cursor.mono → ltb cursor.mono now.mono ≡ false
      late k = ground arith
  charge_from-end (suc rounds) w cursor now h = rw (late h) tt
    where
      late : now.mono ≤ cursor.mono → ltb cursor.mono now.mono ≡ false
      late k = ground arith

  -- The bucket of a moment that has been reached, and the start of the next one.
  pub next_start :
      (w : RollingWindows D) (cursor now : IngestTime)
      → InRange w now
      → cursor.mono ≤ now.mono
      → (bucket_start w (saturating_add (index_at w cursor) 1)).mono
        ≡ w.origin.mono + (since cursor w.origin / w.spec.resolution + 1) * w.spec.resolution
  next_start w cursor now range reached =
      ap (λ x. w.origin.mono + min (min (min (e / x) u64_max + 1) u64_max * r) u64_max) whole
      ∙ ap (λ x. w.origin.mono + x) unsaturated
    where
      r : ℕ
      r = w.spec.resolution

      e : ℕ
      e = since cursor w.origin

      whole : max w.spec.resolution 1 ≡ w.spec.resolution
      whole = omega (arith, range.resolved)

      unsaturated :
          min
            (min (min (since cursor w.origin / w.spec.resolution) u64_max + 1) u64_max
              * w.spec.resolution)
            u64_max
          ≡ (since cursor w.origin / w.spec.resolution + 1) * w.spec.resolution
      unsaturated =
          below_limit (since cursor w.origin / w.spec.resolution) w.spec.resolution u64_max
            range.resolved
            (omega (
              arith,
              reached,
              range.in_time,
              div-mul-le_self (since cursor w.origin) w.spec.resolution,
            ))

  -- The end of a slice is the present, or the start of the bucket after the cursor's.
  pub slice_end-cases :
      (w : RollingWindows D) (cursor now : IngestTime)
      → InRange w now
      → cursor.mono ≤ now.mono
      → (now.mono ≤ (slice_end w cursor now).mono)
        ⊎ ((slice_end w cursor now).mono
            ≡ w.origin.mono + (since cursor w.origin / w.spec.resolution + 1) * w.spec.resolution)
  slice_end-cases w cursor now range reached =
      elim (Bool-cases
        (ltb (bucket_start w (saturating_add (index_at w cursor) 1)).mono now.mono)) [
          | inl inside ↦ inr (rw inside (next_start w cursor now range reached))
          | inr beyond ↦ inl (rw beyond (omega arith))
        ]
