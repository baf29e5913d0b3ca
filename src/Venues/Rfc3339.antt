-- ===== src/Venues/Rfc3339.antt =====
-- crates/ma-venues/src/venues/common.rs: the timestamps of Coinbase and Kraken.
pub mod Civil
pub mod Unwind
pub mod Splits
use market_aggregator.Common.{
  ℕ, zero, suc, ◌+◌, ◌-◌, ◌*◌, ◌/◌, ◌^◌, Bool, true, false, not, ◌&&◌, ◌||◌, Option, none, some,
  List, [], ◌∷◌, ◌++◌, Text, length, take, drop, replicate, Result, ok, err, ltb, leb, ◌==◌, min,
  if◌then◌else◌,
}
use market_aggregator.Common.Int.{
  ℤ, pos, negsuc, sub_ℕ, pos_part, neg_part, ◌+ℤ◌, ◌-ℤ◌, ◌*ℤ◌, ltb_ℤ,
}
use market_aggregator.Core.Time.{WallTime}
use market_aggregator.Venues.Sync.{VenueError}
use market_aggregator.Venues.Wire.{parse_digits, parse_u64}

-- What `parse_rfc3339` comes to. It unwinds where an index is out of range, or where `split_at` is
-- given one that is inside a character.
pub data Parsed : Type 0 where
  found : WallTime → Parsed
  absent unwinds : Parsed

-- `bytes[i]`; `none` is the panic on an index that is out of range.
abbrev pub byte_at : Text → ℕ → Option ℕ
byte_at [] i = none
byte_at (b ∷ bs) zero = some b
byte_at (b ∷ bs) (suc i) = byte_at bs i

-- A test of `bytes[i]`, and the tests after it where it holds.
abbrev pub and_byte : Option ℕ → (ℕ → Bool) → Option Bool → Option Bool
and_byte none fits rest = none
and_byte (some b) fits rest = if fits b then rest else some false

-- `raw.get(a..b)` for the bytes of a `str`. The bounds that occur stand beside ASCII bytes or, at
-- 19, may split a character, whose first byte then fails to parse as a digit.
abbrev pub slice : Text → ℕ → ℕ → Text
slice raw a b = take (b - a) (drop a raw)

abbrev pub signed : Bool → Option ℕ → Option ℤ
signed negative none = none
signed false (some n) = if ltb n (2 ^ 63) then some (pos n) else none
signed true (some n) = if leb n (2 ^ 63) then some (sub_ℕ 0 n) else none

-- `i64::from_str`: a `+` or a `-` may lead, and a digit must follow.
unfoldable pub parse_i64 : Text → Option ℤ
parse_i64 [] = none
parse_i64 (b ∷ []) = if b == b'+' || b == b'-' then none else signed false (parse_digits 0 (b ∷ []))
parse_i64 (b ∷ c ∷ cs) =
    if b == b'+'
    then signed false (parse_digits 0 (c ∷ cs))
    else if b == b'-'
    then signed true (parse_digits 0 (c ∷ cs))
    else signed false (parse_digits 0 (b ∷ c ∷ cs))

-- `/` of `i64` by a positive constant, towards zero.
abbrev pub div_i64 : ℤ → ℕ → ℤ
div_i64 (pos n) k = pos (n / k)
div_i64 (negsuc n) k = sub_ℕ 0 (suc n / k)

-- The last four lines of `days_from_civil`, for years that begin in March.
unfoldable pub from_march : ℤ → ℕ → ℤ
from_march year day_of_year =
    let era = div_i64 (if ltb_ℤ year (pos 0) then year -ℤ pos 399 else year) 400 in
    let year_of_era = pos_part (year -ℤ era *ℤ pos 400) in
    let day_of_era = year_of_era * 365 + year_of_era / 4 - year_of_era / 100 + day_of_year in
    era *ℤ pos 146097 +ℤ pos day_of_era -ℤ pos 719468

-- `days_from_civil`, for a month from 1 to 12 and a day from 1.
unfoldable pub days_from_civil : ℤ → ℕ → ℕ → ℤ
unfolding from_march
days_from_civil y month day =
    from_march (if leb month 2 then y -ℤ pos 1 else y)
      ((153 * (if ltb 2 month then month - 3 else month + 9) + 2) / 5 + day - 1)

abbrev pub is_digit : ℕ → Bool
is_digit b = leb b'0' b && leb b b'9'

-- `chars().take_while(char::is_ascii_digit)`.
unfoldable pub leading_digits : Text → Text
leading_digits [] = []
leading_digits (b ∷ bs) = let rest = leading_digits bs in if is_digit b then b ∷ rest else []

-- The first nine digits, filled up with zeros.
abbrev pub scaled : Text → Text
scaled digits = take 9 digits ++ replicate (9 - length digits) b'0'

-- The fraction: what is left after it, and its nanoseconds.
unfoldable pub read_fraction : Text → Option (Text × ℕ)
read_fraction [] = some ([], 0)
read_fraction (b ∷ bs) =
    let digits = leading_digits bs in
    let nanos = parse_u64 (scaled digits) in
    if not (b == b'.')
    then some (b ∷ bs, 0)
    else if length digits == 0
    then none
    else elim nanos [ none ↦ none | some n ↦ some (drop (length digits) bs, n) ]

-- `split_once(':')`.
unfoldable pub split_colon : Text → Option (Text × Text)
split_colon [] = none
split_colon (b ∷ bs) = elim (b == b':') [
  | true ↦ some ([], bs)
  | false ↦ elim (split_colon bs) [ none ↦ none | some (h, m) ↦ some (b ∷ h, m) ]
]

-- The offset in seconds, nothing, or an unwinding.
pub data Offset : Type 0 where
  seconds : ℤ → Offset
  bad splits_character : Offset

-- A byte that does not begin a character.
abbrev pub is_continuation : ℕ → Bool
is_continuation b = leb 128 b && ltb b 192

-- Where `split_at` panics: the index is inside a character, or after the end.
abbrev pub is_unsplittable : Text → ℕ → Bool
is_unsplittable [] zero = false
is_unsplittable [] (suc i) = true
is_unsplittable (b ∷ bs) zero = is_continuation b
is_unsplittable (b ∷ bs) (suc i) = is_unsplittable bs i

abbrev pub offset_parts : Bool → Option ℤ → Option ℤ → Offset
offset_parts negative (some h) (some m) =
    if ltb_ℤ h (pos 0) || ltb_ℤ (pos 23) h || ltb_ℤ m (pos 0) || ltb_ℤ (pos 59) m
    then Offset.bad
    else if negative
    then Offset.seconds (pos 0 -ℤ (h *ℤ pos 3600 +ℤ m *ℤ pos 60))
    else Offset.seconds (h *ℤ pos 3600 +ℤ m *ℤ pos 60)
offset_parts negative _ _ = Offset.bad

abbrev pub offset_body : Bool → Text → Option (Text × Text) → Offset
offset_body negative body (some (h, m)) = offset_parts negative (parse_i64 h) (parse_i64 m)
offset_body negative body none =
    if not (length body == 4)
    then Offset.bad
    else if is_unsplittable body 2
    then Offset.splits_character
    else offset_parts negative (parse_i64 (take 2 body)) (parse_i64 (drop 2 body))

-- The match on the first byte of what is left.
unfoldable pub read_offset : Text → Offset
unfolding parse_i64 split_colon
read_offset [] = Offset.seconds (pos 0)
read_offset (b ∷ body) =
    if b == b'Z' || b == b'z'
    then Offset.seconds (pos 0)
    else if b == b'+' || b == b'-'
    then offset_body (b == b'-') body (split_colon body)
    else Offset.bad

-- The instant, from seconds and nanoseconds after the epoch.
abbrev pub instant : ℤ → WallTime
instant (pos n) = WallTime.after_epoch n
instant (negsuc n) = WallTime.before_epoch n

abbrev pub at_offset : ℤ → ℕ → ℕ → Offset → Parsed
at_offset days day_secs nanos Offset.bad = Parsed.absent
at_offset days day_secs nanos Offset.splits_character = Parsed.unwinds
at_offset days day_secs nanos (Offset.seconds offset) =
    let utc_secs = days *ℤ pos 86400 +ℤ pos day_secs -ℤ offset in
    Parsed.found (instant (utc_secs *ℤ pos 1000000000 +ℤ pos nanos))

-- The part of `parse_rfc3339` after the fields of the clock.
abbrev pub with_rest : ℤ → ℕ → Option (Text × ℕ) → Parsed
with_rest days day_secs none = Parsed.absent
with_rest days day_secs (some (rest, nanos)) = at_offset days day_secs nanos (read_offset rest)

abbrev pub with_clock : ℤ → Option ℕ → Option ℕ → Option ℕ → Text → Parsed
with_clock days (some hour) (some minute) (some second) rest =
    if ltb 23 hour || ltb 59 minute || ltb 60 second
    then Parsed.absent
    else with_rest days (hour * 3600 + minute * 60 + min second 59) (read_fraction rest)
with_clock days _ _ _ rest = Parsed.absent

abbrev pub with_date : Option ℤ → Option ℤ → Option ℤ → Text → Parsed
with_date (some year) (some month) (some day) raw =
    if ltb_ℤ month (pos 1) || ltb_ℤ (pos 12) month || ltb_ℤ day (pos 1) || ltb_ℤ (pos 31) day
    then Parsed.absent
    else with_clock (days_from_civil year (pos_part month) (pos_part day))
        (parse_u64 (slice raw 11 13)) (parse_u64 (slice raw 14 16)) (parse_u64 (slice raw 17 19))
        (drop 19 raw)
with_date _ _ _ raw = Parsed.absent

abbrev pub is_date_end : ℕ → Bool
is_date_end b = b == b'T' || b == b't' || b == b' '

-- The length and the separators, which are checked first, one byte after the other.
abbrev pub well_separated : Text → Option Bool
well_separated raw =
    if leb 19 (length raw)
    then and_byte (byte_at raw 4) (λ b. b == b'-')
        (and_byte (byte_at raw 7) (λ b. b == b'-')
          (and_byte (byte_at raw 10) is_date_end (
            and_byte (byte_at raw 13) (λ b. b == b':')
              (and_byte (byte_at raw 16) (λ b. b == b':') (some true)))))
    else some false

-- The part of `parse_rfc3339` after the separators.
abbrev pub with_separators : Option Bool → Text → Parsed
with_separators none raw = Parsed.unwinds
with_separators (some false) raw = Parsed.absent
with_separators (some true) raw =
    with_date (parse_i64 (slice raw 0 4)) (parse_i64 (slice raw 5 7)) (parse_i64 (slice raw 8 10))
      raw

unfoldable pub parse_rfc3339 : Text → Parsed
unfolding parse_i64 read_fraction read_offset days_from_civil
parse_rfc3339 raw = with_separators (well_separated raw) raw

-- `timestamp.as_deref().and_then(parse_rfc3339)`, or that it unwinds.
abbrev pub stamp_of : Option Text → Result (Option WallTime) VenueError
stamp_of none = ok none
stamp_of (some raw) = elim (parse_rfc3339 raw) [
  | Parsed.found t ↦ ok (some t)
  | Parsed.absent ↦ ok none
  | Parsed.unwinds ↦ err VenueError.unwound
]
