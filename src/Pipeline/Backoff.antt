-- ===== src/Pipeline/Backoff.antt =====
-- crates/ma-pipeline/src/backoff.rs: the delay before the next connection attempt.
pub mod Schedule
use market_aggregator.Common.{
  ℕ, zero, suc, ◌+◌, ◌-◌, ◌*◌, ◌/◌, ◌%◌, ◌^◌, Bool, true, false, Option, none, some, ltb, leb, ◌==◌,
  min, bit_xor, if◌then◌else◌,
}

-- A `Duration` is a number of nanoseconds.
abbrev pub millis : ℕ → ℕ
millis n = n * 1000000

abbrev pub seconds : ℕ → ℕ
seconds n = n * 1000000000

-- The greatest `Duration`: u64::MAX seconds and 999999999 nanoseconds.
abbrev pub max_duration : ℕ
max_duration = 2 ^ 64 * 1000000000 - 1

-- `nanos_u64`.
abbrev pub nanos_u64 : ℕ → ℕ
nanos_u64 d = if ltb d (2 ^ 64) then d else 2 ^ 64 - 1

-- The mixing steps of SplitMix64 on `u64`.
unfoldable pub mix64 : ℕ → ℕ
mix64 z =
    let a = bit_xor z (z / 2 ^ 30) * 0xBF58476D1CE4E5B9 % 2 ^ 64 in
    let b = bit_xor a (a / 2 ^ 27) * 0x94D049BB133111EB % 2 ^ 64 in bit_xor b (b / 2 ^ 31)

-- `EqualJitter::next_u64`: the new state, and the number drawn.
unfoldable pub next_u64 : ℕ → ℕ × ℕ
unfolding mix64
next_u64 state = let s = (state + 0x9E3779B97F4A7C15) % 2 ^ 64 in (s, mix64 s)

-- The trait `Jitter` over the implementor's state.
pub record Jitter (S : Type 0) : Type 0 where
  pub sample : S → ℕ → S × ℕ

-- `NoJitter`.
abbrev pub no_jitter : Jitter (Unit {0})
no_jitter = record { sample = λ s ceiling. (s, ceiling) }

-- `EqualJitter::sample`. `span + 1` is `u64` arithmetic.
unfoldable pub equal_sample : ℕ → ℕ → ℕ × ℕ
equal_sample state ceiling =
    let floor = ceiling / 2 in
    let span = nanos_u64 (ceiling - floor) in
    let (s, drawn) = next_u64 state in
    if span == 0 then (state, ceiling) else (s, floor + drawn % ((span + 1) % 2 ^ 64))

abbrev pub equal_jitter : Jitter ℕ
equal_jitter = record { sample = equal_sample }

pub record BackoffPolicy : Type 0 where
  pub base : ℕ
  pub cap : ℕ
  pub min_stable : ℕ

-- `BackoffPolicy::DEFAULT`.
abbrev pub default_backoff : BackoffPolicy
default_backoff = record { base = millis 500; cap = seconds 60; min_stable = seconds 30 }

pub record Backoff (S : Type 0) : Type 0 where
  pub policy : BackoffPolicy
  pub jitter : S
  pub attempt : ℕ

-- `1u32.checked_shl(attempt).unwrap_or(u32::MAX)`.
abbrev pub factor : ℕ → ℕ
factor attempt = if ltb attempt 32 then 2 ^ attempt else 2 ^ 32 - 1

module _ {S : Type 0} where
  -- `Backoff::new`.
  unfoldable pub new : BackoffPolicy → S → Backoff S
  new policy jitter = record { policy = policy; jitter = jitter; attempt = 0 }

  -- `Backoff::ceiling`.
  unfoldable pub ceiling : Backoff S → ℕ
  ceiling b =
      let scaled = b.policy.base * factor b.attempt in
      min (if leb scaled max_duration then scaled else b.policy.cap) b.policy.cap

  -- `Backoff::reset`.
  unfoldable pub reset : Backoff S → Backoff S
  reset b = record b { attempt = 0 }

  -- `Backoff::note_session`.
  unfoldable pub note_session : Backoff S → ℕ → Backoff S × Bool
  unfolding reset
  note_session b lasted = if leb b.policy.min_stable lasted then (reset b, true) else (b, false)

  -- `Backoff::next_delay`; the attempt is a `u32` that stops at its greatest value.
  unfoldable pub next_delay : Jitter S → Backoff S → Backoff S × ℕ
  unfolding ceiling
  next_delay j b =
      let (s, delay) = j.sample b.jitter (ceiling b) in
      (record b { jitter = s; attempt = min (b.attempt + 1) (2 ^ 32 - 1) }, delay)
