-- ===== src/Venues/Wire.antt =====
-- crates/ma-venues/src/venues/common.rs: what the venues' parsers share.
use market_aggregator.Common.{
  ℕ, ◌+◌, ◌-◌, ◌*◌, ◌^◌, Option, none, some, List, [], ◌∷◌, Text, Result, ok, ◌>>=◌, ok_or, ltb,
  leb, ◌==◌, ◌&&◌, if◌then◌else◌,
}
use market_aggregator.Core.Decimal.{Decimal, price_from_str, qty_from_str}
use market_aggregator.Core.Time.{WallTime}
use market_aggregator.Core.Event.{Level}
use market_aggregator.Venues.Sync.{VenueError}

-- The digits of `u64::from_str` after those read so far.
unfoldable pub parse_digits : ℕ → Text → Option ℕ
parse_digits n [] = some n
parse_digits n (b ∷ bs) =
    let m = n * 10 + (b - 48) in
    let rest = parse_digits m bs in if leb 48 b && leb b 57 && ltb m (2 ^ 64) then rest else none

-- `u64::from_str`: one `+` may lead, one digit must follow, and nothing may overflow.
unfoldable pub parse_u64 : Text → Option ℕ
unfolding parse_digits
parse_u64 [] = none
parse_u64 (b ∷ []) = if b == 43 then none else parse_digits 0 (b ∷ [])
parse_u64 (b ∷ c ∷ cs) = if b == 43 then parse_digits 0 (c ∷ cs) else parse_digits 0 (b ∷ c ∷ cs)

module _ {D : Type 0} ⦃dec : Decimal D⦄ where
  -- `level_from_str_pair`.
  unfoldable pub level_from_str_pair : Text → Text → Result (Level D) VenueError
  level_from_str_pair p q = ok_or (price_from_str p) VenueError.malformed >>= (λ price.
      ok_or (qty_from_str q) VenueError.malformed
      >>= (λ qty. ok (record { price = price; qty = qty })))

  -- `levels_from_str_pairs`; the first pair that fails decides.
  unfoldable pub levels_from_str_pairs : List (Text × Text) → Result (List (Level D)) VenueError
  unfolding level_from_str_pair
  levels_from_str_pairs [] = ok []
  levels_from_str_pairs ((p, q) ∷ pairs) =
      let rest = levels_from_str_pairs pairs in
      level_from_str_pair p q >>= (λ l. rest >>= (λ ls. ok (l ∷ ls)))

-- `system_time_from_micros`.
abbrev pub system_time_from_micros : ℕ → WallTime
system_time_from_micros micros = WallTime.after_epoch (micros * 1000)
