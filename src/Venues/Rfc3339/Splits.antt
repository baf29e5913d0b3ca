-- ===== src/Venues/Rfc3339/Splits.antt =====
-- The offsets at which the parser of timestamps unwinds.
use market_aggregator.Common.{ℕ, ◌≡◌, ◌⊎◌}

-- The two signs that an offset begins with.
abbrev pub IsSign : ℕ → Type 0
IsSign b = (b ≡ b'+') ⊎ (b ≡ b'-')
