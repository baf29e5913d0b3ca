-- ===== src/Core/Event/Skew.antt =====
-- What the observed skew of a venue's clock says.
use market_aggregator.Common.{
  ◌≤◌, ◌<◌, ◌≡◌, refl, arith, true, false, Bool-cases, inl, inr, some, leb,
}
use market_aggregator.Common.Int.{ℤ, pos, negsuc, ◌+ℤ◌, int_laws}
use market_aggregator.Core.Time.{WallTime}
use market_aggregator.Core.Event.{MarketEvent, SkewObservation, duration_since, skew_of, clock_skew}

-- Nanoseconds from the epoch.
abbrev pub nanos : WallTime → ℤ
nanos (WallTime.after_epoch n) = pos n
nanos (WallTime.before_epoch n) = negsuc n

-- The venue's clock is ours and the skew, and a clock that is behind is so by more than nothing.
abbrev pub Explains : WallTime → WallTime → SkewObservation → Type 0
Explains venue ours (SkewObservation.venue_ahead d) = nanos venue ≡ nanos ours +ℤ pos d
Explains venue ours (SkewObservation.venue_behind d) = (nanos ours ≡ nanos venue +ℤ pos d) × (0 < d)

skew_of-Explains :
    (venue ours : WallTime) → Explains venue ours (skew_of (duration_since venue ours))
skew_of-Explains (WallTime.after_epoch a) (WallTime.after_epoch b) = elim (Bool-cases (leb b a)) [
  | inl le ↦ rw le (omega (int_laws, le_of le))
  | inr gt ↦ rw gt (omega (int_laws, lt_of gt), omega (arith, lt_of gt))
]
  where
    le_of : leb b a ≡ true → b ≤ a
    le_of h = ground arith

    lt_of : leb b a ≡ false → a < b
    lt_of h = ground arith
skew_of-Explains (WallTime.after_epoch a) (WallTime.before_epoch b) = omega int_laws
skew_of-Explains (WallTime.before_epoch a) (WallTime.after_epoch b) = (omega int_laws, omega arith)
skew_of-Explains (WallTime.before_epoch a) (WallTime.before_epoch b) = elim (Bool-cases (leb a b)) [
  | inl le ↦ rw le (omega (int_laws, le_of le))
  | inr gt ↦ rw gt (omega (int_laws, lt_of gt), omega (arith, lt_of gt))
]
  where
    le_of : leb a b ≡ true → a ≤ b
    le_of h = ground arith

    lt_of : leb a b ≡ false → b < a
    lt_of h = ground arith

-- An event with the venue's time has a skew, and the venue's clock is our wall clock moved by it:
-- forward where the venue is ahead, back, by more than nothing, where it is behind.
pub clock_skew-Explains :
    {D : Type 0} (e : MarketEvent D) (t : WallTime)
    → e.venue_ts ≡ some t
    → (s : SkewObservation) × (clock_skew e ≡ some s) × Explains t e.ingest_ts.wall s
unfolding clock_skew
clock_skew-Explains e t h =
    (skew_of (duration_since t e.ingest_ts.wall), rw h refl, skew_of-Explains t e.ingest_ts.wall)
