-- ===== src/Core/Time.antt =====
-- crates/ma-core/src/time.rs: a moment read from both clocks.
use market_aggregator.Common.{ℕ, ◌-◌, Bool, ◌==◌, ◌&&◌}

-- `SystemTime` in nanoseconds from the epoch; `before n` is n + 1 nanoseconds before it.
pub data WallTime : Type 0 where
  after_epoch : ℕ → WallTime
  before_epoch : ℕ → WallTime

-- `Instant` in nanoseconds from a start that only this process knows.
pub record IngestTime : Type 0 where
  pub mono : ℕ
  pub wall : WallTime

abbrev pub wall_eqb : WallTime → WallTime → Bool
wall_eqb (WallTime.after_epoch a) (WallTime.after_epoch b) = a == b
wall_eqb (WallTime.before_epoch a) (WallTime.before_epoch b) = a == b
wall_eqb (WallTime.after_epoch a) (WallTime.before_epoch b) = Bool.false
wall_eqb (WallTime.before_epoch a) (WallTime.after_epoch b) = Bool.false

abbrev pub time_eqb : IngestTime → IngestTime → Bool
time_eqb a b = a.mono == b.mono && wall_eqb a.wall b.wall

-- `IngestTime::since`: `saturating_duration_since` on the monotonic clock.
abbrev pub since : IngestTime → IngestTime → ℕ
since now earlier = now.mono - earlier.mono
