-- ===== src/Venues/Rfc3339/Civil.antt =====
-- The day count against the calendar.
use market_aggregator.Common.{
  ℕ, zero, suc, ==_iff, ◌+◌, ◌-◌, ◌*◌, ◌/◌, ◌%◌, ◌≤◌, ◌<◌, ◌≡◌, inl, inr, Bool-cases, ltb→lt, refl,
  sym, ap, subst, ◌∙◌, arith, Bool, true, false, not, ◌||◌, ltb, leb, ◌==◌, if◌then◌else◌,
}
use market_aggregator.Common.Int.{pos, ◌+ℤ◌, ◌-ℤ◌, ◌*ℤ◌, ltb_ℤ, int_laws}
use market_aggregator.Venues.Rfc3339.{days_from_civil, from_march}

-- The Gregorian rule.
abbrev pub leap_of : ℕ → ℕ → ℕ → Bool
leap_of by_4 by_100 by_400 =
    if not (by_4 == 0) then false else if not (by_100 == 0) then true else by_400 == 0

abbrev pub is_leap : ℕ → Bool
is_leap y = leap_of (y % 4) (y % 100) (y % 400)

abbrev pub days_in_month : ℕ → ℕ → ℕ
days_in_month y m =
    if m == 2
    then (if is_leap y then 29 else 28)
    else if m == 4 || m == 6 || m == 9 || m == 11
    then 30
    else 31

*ℤ-pos : (a k : ℕ) → pos a *ℤ pos k ≡ pos (a * k)
unfolding ◌*ℤ◌
*ℤ-pos a k = ground arith

+ℤ-pos : (a b : ℕ) → pos a +ℤ pos b ≡ pos (a + b)
unfolding ◌+ℤ◌
+ℤ-pos a b = ground arith

-ℤ-pos : (a b : ℕ) → b ≤ a → pos a -ℤ pos b ≡ pos (a - b)
unfolding ◌-ℤ◌
-ℤ-pos a b h = ground arith

-- The days from 0000-03-01 to the year that begins in March of `n`.
abbrev pub march_days : ℕ → ℕ
march_days n = n / 400 * 146097 + (n % 400 * 365 + n % 400 / 4 - n % 400 / 100)

from_march-pos : (n doy : ℕ) → from_march (pos n) doy ≡ pos (march_days n + doy) -ℤ pos 719468
unfolding from_march
from_march-pos n doy =
    rw
      (
        nonneg,
        *ℤ-pos (n / 400) 400,
        -ℤ-pos n (n / 400 * 400) (omega arith),
        left,
        *ℤ-pos (n / 400) 146097,
        +ℤ-pos (n / 400 * 146097) (n % 400 * 365 + n % 400 / 4 - n % 400 / 100 + doy),
        regroup,
      )
      refl
  where
    nonneg : ltb_ℤ (pos n) (pos 0) ≡ false
    nonneg = ground arith

    left : n - n / 400 * 400 ≡ n % 400
    left = omega arith

    regroup :
        n / 400 * 146097 + (n % 400 * 365 + n % 400 / 4 - n % 400 / 100 + doy) ≡ march_days n + doy
    regroup = omega arith

-- The days before the month, in a year that begins in March.
abbrev pub before_month : ℕ → ℕ
before_month k = (153 * k + 2) / 5

-- The same count with no negative number in it.
abbrev pub day_number : ℕ → ℕ → ℕ → ℕ
day_number y m d =
    (if leb m 2
      then march_days (y - 1) + before_month (m + 9)
      else march_days y + before_month (m - 3))
    + (d - 1)

day_number_lem :
    (y m d : ℕ) → 1 ≤ y → 1 ≤ d → days_from_civil (pos y) m d ≡ pos (day_number y m d) -ℤ pos 719468
unfolding days_from_civil
day_number_lem y m d h k = elim (Bool-cases (leb m 2)) [
  | inl e ↦
      rw
        (
          e,
          early e,
          -ℤ-pos y 1 h,
          from_march-pos (y - 1) (before_month (m + 9) + d - 1),
          sums (march_days (y - 1)) (before_month (m + 9)),
        )
        refl
  | inr e ↦
      rw
        (
          e,
          late e,
          from_march-pos y (before_month (m - 3) + d - 1),
          sums (march_days y) (before_month (m - 3)),
        )
        refl
]
  where
    early : leb m 2 ≡ true → ltb 2 m ≡ false
    early e = ground arith

    late : leb m 2 ≡ false → ltb 2 m ≡ true
    late e = ground arith

    sums : (a b : ℕ) → a + (b + d - 1) ≡ a + b + (d - 1)
    sums a b = omega arith

-- The test holds of every number under the bound.
tested : ℕ → (ℕ → Bool) → Bool
tested zero test = true
tested (suc bound) test = let rest = tested bound test in if test bound then rest else false

tested-at : (test : ℕ → Bool) (bound y : ℕ) → y < bound → tested bound test ≡ true → test y ≡ true
unfolding tested
tested-at test zero y below h = absurd (omega arith)
tested-at test (suc bound) y below h = elim (Bool-cases (test bound)) [
  | inr fails ↦ cc (rw fails at h)
  | inl passes ↦ elim (Bool-cases (ltb y bound)) [
    | inl lower ↦ tested-at test bound y (ltb→lt y bound lower) (rw passes at h)
    | inr top ↦ subst (λ z. test z ≡ true) (highest top) passes
  ]
]
  where
    highest : ltb y bound ≡ false → bound ≡ y
    highest g = ground (arith, g, below)

-- The days of the first `r` years of an era.
abbrev pub era_days : ℕ → ℕ
era_days r = r * 365 + r / 4 - r / 100

year_table :
    tested 400 (λ r. r == 0 || era_days r == era_days (r - 1) + 365 + (if is_leap r then 1 else 0))
    ≡ true
unfolding tested
year_table = refl

leap_mod : (y : ℕ) → is_leap y ≡ is_leap (y % 400)
leap_mod y = λ i. leap_of (four i) (hundred i) (whole i)
  where
    four : y % 4 ≡ y % 400 % 4
    four = omega arith

    hundred : y % 100 ≡ y % 400 % 100
    hundred = omega arith

    whole : y % 400 ≡ y % 400 % 400
    whole = omega arith

march_days-suc :
    (y : ℕ) → 1 ≤ y → march_days y ≡ march_days (y - 1) + 365 + (if is_leap y then 1 else 0)
march_days-suc y h = elim (Bool-cases (y % 400 == 0)) [
  | inl e ↦ rw (century e) (omega (arith, (==_iff (y % 400) 0).0 e))
  | inr e ↦ rw (leap_mod y) (within e)
]
  where
    fours : y % 400 == 0 ≡ true → y % 4 ≡ 0
    fours e = omega (arith, (==_iff (y % 400) 0).0 e)

    hundreds : y % 400 == 0 ≡ true → y % 100 ≡ 0
    hundreds e = omega (arith, (==_iff (y % 400) 0).0 e)

    century : y % 400 == 0 ≡ true → is_leap y ≡ true
    century e = ground (arith, fours e, hundreds e)

    positive : y % 400 == 0 ≡ false → 0 < y % 400
    positive e = ground arith

    quotient : y % 400 == 0 ≡ false → (y - 1) / 400 ≡ y / 400
    quotient e = omega (arith, positive e)

    left : y % 400 == 0 ≡ false → (y - 1) % 400 ≡ y % 400 - 1
    left e = omega (arith, positive e)

    in_table :
        (r : ℕ)
        → r == 0 ≡ false
        → r == 0 || era_days r == era_days (r - 1) + 365 + (if is_leap r then 1 else 0) ≡ true
        → era_days r ≡ era_days (r - 1) + 365 + (if is_leap r then 1 else 0)
    in_table r e t =
        (==_iff (era_days r) (era_days (r - 1) + 365 + (if is_leap r then 1 else 0))).0 (rw e at t)

    within :
        y % 400 == 0 ≡ false
        → march_days y ≡ march_days (y - 1) + 365 + (if is_leap (y % 400) then 1 else 0)
    within e =
        rw (quotient e, left e)
          (omega (arith, in_table (y % 400) e (tested-at _ 400 (y % 400) (omega arith) year_table)))

epoch : days_from_civil (pos 1970) 1 1 ≡ pos 0
unfolding days_from_civil ◌+ℤ◌ ◌-ℤ◌ ◌*ℤ◌
epoch = refl

-- The calendar's next day.
abbrev pub tomorrow : ℕ → ℕ → ℕ → ℕ × ℕ × ℕ
tomorrow y m d =
    if ltb d (days_in_month y m)
    then (y, m, d + 1)
    else if ltb m 12
    then (y, m + 1, 1)
    else (y + 1, 1, 1)

abbrev pub IsDate : ℕ → ℕ → ℕ → Type 0
IsDate y m d = (1 ≤ y) × (1 ≤ m) × (m ≤ 12) × (1 ≤ d) × (d ≤ days_in_month y m)

-- The lengths of all months but February.
abbrev pub plain_length : ℕ → ℕ
plain_length m = if m == 4 || m == 6 || m == 9 || m == 11 then 30 else 31

month_table :
    tested 12 (λ m. ltb m 3 || before_month (m + 1 - 3) == before_month (m - 3) + plain_length m)
    ≡ true
unfolding tested
month_table = refl

late_month :
    (m : ℕ) → 2 < m → m < 12 → before_month (m + 1 - 3) ≡ before_month (m - 3) + plain_length m
late_month m h l = read (tested-at _ 12 m l month_table)
  where
    late : ltb m 3 ≡ false
    late = ground arith

    read :
        ltb m 3 || before_month (m + 1 - 3) == before_month (m - 3) + plain_length m ≡ true
        → before_month (m + 1 - 3) ≡ before_month (m - 3) + plain_length m
    read t =
        (==_iff (before_month (m + 1 - 3)) (before_month (m - 3) + plain_length m)).0 (rw late at t)

february :
    (y : ℕ) → 1 ≤ y → march_days y ≡ march_days (y - 1) + 337 + (if is_leap y then 29 else 28)
february y h = elim (Bool-cases (is_leap y)) [
  | inl e ↦ rw e (omega (arith, rw e at (march_days-suc y h)))
  | inr e ↦ rw e (omega (arith, rw e at (march_days-suc y h)))
]

year_ends : (y : ℕ) → 1 ≤ y → day_number (y + 1) 1 1 ≡ day_number y 12 1 + 31
year_ends y h = omega arith

late_ends :
    (y m : ℕ)
    → 2 < m
    → m < 12
    → march_days y + before_month (m + 1 - 3) + (1 - 1)
      ≡ march_days y + before_month (m - 3) + (1 - 1) + days_in_month y m
late_ends y m h l = rw other (omega (arith, late_month m h l))
  where
    other : m == 2 ≡ false
    other = ground arith

month_ends :
    (y m : ℕ)
    → 1 ≤ y
    → 1 ≤ m
    → m < 12
    → day_number y (m + 1) 1 ≡ day_number y m 1 + days_in_month y m
month_ends y zero h k l = absurd (omega arith)
month_ends y (suc zero) h k l = omega arith
month_ends y (suc (suc zero)) h k l = omega (arith, february y h)
month_ends y (suc (suc (suc m))) h k l =
    rw (early, later) (late_ends y (suc (suc (suc m))) (omega arith) l)
  where
    early : leb (suc (suc (suc m))) 2 ≡ false
    early = ground arith

    later : leb (suc (suc (suc m)) + 1) 2 ≡ false
    later = ground arith

-- The next day has the next number.
tomorrow_number :
    (y m d : ℕ)
    → IsDate y m d
    → let (y', m', d') = tomorrow y m d in day_number y' m' d' ≡ day_number y m d + 1
tomorrow_number y m d (a, b, c, e, f) = elim (Bool-cases (ltb d (days_in_month y m))) [
  | inl g ↦ rw g (omega arith)
  | inr g ↦ elim (Bool-cases (ltb m 12)) [
    | inl k ↦ rw (g, k) (omega (arith, month_ends y m a b (ltb→lt m 12 k), not_below g))
    | inr k ↦ rw (g, k) (december (twelve k) (rw (twelve k) at f) (rw (twelve k) at (not_below g)))
  ]
]
  where
    not_below : ltb d (days_in_month y m) ≡ false → days_in_month y m ≤ d
    not_below g = ground arith

    twelve : ltb m 12 ≡ false → m ≡ 12
    twelve k = ground arith

    december : m ≡ 12 → d ≤ 31 → 31 ≤ d → day_number (y + 1) 1 1 ≡ day_number y m d + 1
    december e h k = rw e (omega (arith, year_ends y a))

-- For every date from the year 1 on, the calendar's next day has the next day count; and the count
-- of 1970-01-01 is 0. Month lengths and leap years are the Gregorian ones.
pub days_from_civil-tomorrow :
    (y m d : ℕ)
    → IsDate y m d
    → let (y', m', d') = tomorrow y m d in
      (days_from_civil (pos y') m' d' ≡ days_from_civil (pos y) m d +ℤ pos 1)
      × (days_from_civil (pos 1970) 1 1 ≡ pos 0)
days_from_civil-tomorrow y m d h =
    let (y', m', d') = tomorrow y m d in
    let (later, positive) = tomorrow_IsDate in
    (
      day_number_lem y' m' d' later positive
          ∙ ap (λ n. pos n -ℤ pos 719468) (tomorrow_number y m d h)
          ∙ one_more (day_number y m d)
          ∙ ap (λ z. z +ℤ pos 1) (sym (day_number_lem y m d h.0 h.3)),
      epoch,
    )
  where
    tomorrow_IsDate : let (y', m', d') = tomorrow y m d in (1 ≤ y') × (1 ≤ d')
    tomorrow_IsDate = ground (arith, h.0, h.3)

    one_more : (n : ℕ) → pos (n + 1) -ℤ pos 719468 ≡ pos n -ℤ pos 719468 +ℤ pos 1
    one_more n = omega int_laws
