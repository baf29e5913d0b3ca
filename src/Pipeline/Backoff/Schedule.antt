-- ===== src/Pipeline/Backoff/Schedule.antt =====
-- The bounds of every delay, and how the schedule climbs, flattens and starts again.
use native.Mathlib.Nat.{
  mod-lt, pow-le-pow_right, one-le-pow, mod-eq_of_lt, min-eq_right, mul-le-mul_left,
}
use market_aggregator.Common.{
  ℕ, zero, suc, ◌+◌, ◌-◌, ◌*◌, ◌/◌, ◌%◌, ◌^◌, ◌≤◌, ◌<◌, ◌≡◌, ◌⊎◌, arith, ltb, leb, ◌==◌, min, List,
  [], ◌∷◌, All, Bool-cases, ltb→lt, lt→ltb, inl, inr, if◌then◌else◌,
}
use market_aggregator.Pipeline.Backoff.{
  Backoff, Jitter, equal_jitter, equal_sample, next_u64, nanos_u64, factor, max_duration, ceiling,
  next_delay,
}

sample_within :
    (floor span ceiling drawn : ℕ)
    → span < 2 ^ 64 - 1
    → floor + span ≤ ceiling
    → (floor ≤ floor + drawn % ((span + 1) % 2 ^ 64))
      × (floor + drawn % ((span + 1) % 2 ^ 64) ≤ ceiling)
sample_within floor span ceiling drawn h k =
    rw (mod-eq_of_lt {n = span + 1} {m = 2 ^ 64} (omega arith))
      (omega arith, omega (arith, mod-lt drawn {m = span + 1} (omega arith)))

nanos_u64-lt : (d : ℕ) → d < 2 ^ 64 → nanos_u64 d ≡ d
nanos_u64-lt d h = ground arith

-- `EqualJitter` answers between half the ceiling and the ceiling, whatever its state, for every
-- ceiling whose upper half is below u64::MAX nanoseconds.
pub equal_sample_bounds :
    (state ceiling : ℕ)
    → ceiling - ceiling / 2 < 2 ^ 64 - 1
    → (ceiling / 2 ≤ (equal_sample state ceiling).1) × ((equal_sample state ceiling).1 ≤ ceiling)
unfolding equal_sample
equal_sample_bounds state ceiling h = elim (Bool-cases (ceiling - ceiling / 2 == 0)) [
  | inl e ↦ rw (nanos_u64-lt (ceiling - ceiling / 2) (omega arith), e) (omega arith, omega arith)
  | inr e ↦
      rw (nanos_u64-lt (ceiling - ceiling / 2) (omega arith), e)
        (sample_within (ceiling / 2) (ceiling - ceiling / 2) ceiling (next_u64 state).1 h
          (omega arith))
]

factor_pos : (n : ℕ) → 0 < factor n
factor_pos n = elim (Bool-cases (ltb n 32)) [
  | inl e ↦ rw e (one-le-pow n 2 (omega arith))
  | inr e ↦ rw e (omega arith)
]

factor-le : (m : ℕ) → factor m ≤ 2 ^ 32 - 1
factor-le m = elim (Bool-cases (ltb m 32)) [
  | inl e ↦ rw e (
      omega (
        arith,
        pow-le-pow_right {n = 2} (omega arith) {i = m} {j = 31} (omega (arith, ltb→lt m 32 e)),
      ))
  | inr e ↦ rw e (omega arith)
]

factor_mono : (m n : ℕ) → m ≤ n → factor m ≤ factor n
factor_mono m n h = elim (Bool-cases (ltb n 32)) [
  | inl e ↦
      rw (lt→ltb m 32 (omega (arith, ltb→lt n 32 e)), e) (pow-le-pow_right {n = 2} (omega arith) h)
  | inr e ↦ rw e (factor-le m)
]

module _ {S : Type 0} where
  -- The ceiling is the base, doubled once for each failure so far, where that is within the cap,
  -- and the cap from there on.
  pub ceiling_lem :
      (b : Backoff S)
      → b.policy.cap ≤ max_duration
      → b.attempt < 32
      → ceiling b ≡ min (b.policy.base * 2 ^ b.attempt) b.policy.cap
  unfolding ceiling
  ceiling_lem b h k =
      rw (lt→ltb b.attempt 32 k) (clipped (b.policy.base * 2 ^ b.attempt) b.policy.cap h)
    where
      clipped :
          (scaled cap : ℕ)
          → cap ≤ max_duration
          → min (if leb scaled max_duration then scaled else cap) cap ≡ min scaled cap
      clipped scaled cap h = ground arith

  -- The delays of so many failures in a row.
  unfoldable pub delays : Jitter S → Backoff S → ℕ → List ℕ
  unfolding next_delay
  delays j b zero = []
  delays j b (suc n) = (next_delay j b).1 ∷ delays j (next_delay j b).0 n

  ceiling-le : (b : Backoff S) → ceiling b ≤ b.policy.cap
  unfolding ceiling
  ceiling-le b = ground arith

  -- The ceiling never falls from one failure to the next, even where the count of failures or the
  -- doubling reaches the end of its type.
  pub ceiling-next_delay :
      (j : Jitter S) (b : Backoff S)
      → b.policy.cap ≤ max_duration
      → ceiling b ≤ ceiling (next_delay j b).0
  unfolding ceiling next_delay
  ceiling-next_delay j b h = elim (ltb→lt-or b.attempt) [
    | inl k ↦
        climbs (b.policy.base * factor b.attempt)
          (b.policy.base * factor (min (b.attempt + 1) (2 ^ 32 - 1))) b.policy.cap h
          (mul-le-mul_left b.policy.base
            (factor_mono b.attempt (min (b.attempt + 1) (2 ^ 32 - 1)) (ground arith)))
    | inr k ↦
        climbs (b.policy.base * factor b.attempt)
          (b.policy.base * factor (min (b.attempt + 1) (2 ^ 32 - 1))) b.policy.cap h
          (mul-le-mul_left b.policy.base (flat b.attempt k))
  ]
    where
      ltb→lt-or : (n : ℕ) → (n < 2 ^ 32 - 1) ⊎ (2 ^ 32 - 1 ≤ n)
      ltb→lt-or n = ground arith

      flat : (n : ℕ) → 2 ^ 32 - 1 ≤ n → factor n ≤ factor (min (n + 1) (2 ^ 32 - 1))
      flat n k = rw (min-eq_right {n = 2 ^ 32 - 1} {m = n + 1} (omega (arith, k))) (factor-le n)

      climbs :
          (s t cap : ℕ)
          → cap ≤ max_duration
          → s ≤ t
          → min (if leb s max_duration then s else cap) cap
            ≤ min (if leb t max_duration then t else cap) cap
      climbs s t cap h le = ground arith

-- However many sessions fail in a row, no delay that `EqualJitter` draws is above the cap, for a
-- cap below u64::MAX nanoseconds.
pub delays-within-cap :
    (b : Backoff ℕ) (n : ℕ)
    → b.policy.cap < 2 ^ 64 - 1
    → All (λ d. d ≤ b.policy.cap) (delays equal_jitter b n)
unfolding delays next_delay
delays-within-cap b zero h = tt
delays-within-cap b (suc n) h = (
  omega (
    arith,
    ceiling-le b,
    (equal_sample_bounds b.jitter (ceiling b) (omega (arith, ceiling-le b))).1,
  ),
  delays-within-cap (next_delay equal_jitter b).0 n h,
)
