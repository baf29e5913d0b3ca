-- ===== src/Venues/Rfc3339/Unwind.antt =====
-- When the parser of timestamps unwinds, and when it does not.
use market_aggregator.Common.{
  ℕ, suc, zero, ◌+◌, ◌<◌, ◌≤◌, ◌≡◌, ◌≢◌, inl, inr, refl, arith, Bool, true, false, not, ◌||◌,
  Option, none, some, [], ◌∷◌, Text, All, ltb, ◌==◌, min, ◌*◌, subst, ap, length, take, drop,
  Bool-cases, leb, leb→le, if◌then◌else◌,
}
use market_aggregator.Common.Int.{ℤ, pos, pos_part, ltb_ℤ}
use market_aggregator.Venues.Rfc3339.{
  Parsed, Offset, byte_at, and_byte, is_unsplittable, with_separators, leading_digits,
  read_fraction, offset_parts, offset_body, split_colon, read_offset, at_offset, with_rest,
  with_clock, with_date, parse_i64, parse_rfc3339, slice, scaled, well_separated, days_from_civil,
}
use market_aggregator.Venues.Wire.{parse_u64}

abbrev pub IsAscii : Text → Type 0
IsAscii t = All (λ b. b < 128) t

drop-IsAscii : (n : ℕ) (t : Text) → IsAscii t → IsAscii (drop n t)
drop-IsAscii zero t h = h
drop-IsAscii (suc n) [] h = h
drop-IsAscii (suc n) (b ∷ t) h = drop-IsAscii n t h.1

is_unsplittable-IsAscii :
    (t : Text) (i : ℕ) → IsAscii t → i ≤ length t → is_unsplittable t i ≡ false
is_unsplittable-IsAscii [] zero a h = refl
is_unsplittable-IsAscii [] (suc i) a h = absurd (omega (arith, h))
is_unsplittable-IsAscii (b ∷ t) zero a h = ground (arith, a.0)
is_unsplittable-IsAscii (b ∷ t) (suc i) a h = is_unsplittable-IsAscii t i a.1 (omega (arith, h))

offset_parts-whole :
    (negative : Bool) (h m : Option ℤ) → offset_parts negative h m ≢ Offset.splits_character
offset_parts-whole negative none m e = cc
offset_parts-whole negative (some h) none e = cc
offset_parts-whole negative (some h) (some m) e = ground (arith, e)

offset_body-whole :
    (negative : Bool) (body : Text) (parts : Option (Text × Text))
    → IsAscii body
    → offset_body negative body parts ≢ Offset.splits_character
offset_body-whole negative body (some (h, m)) a e =
    offset_parts-whole negative (parse_i64 h) (parse_i64 m) e
offset_body-whole negative body none a e = elim (Bool-cases (length body == 4)) [
  | inr other ↦ cc (rw other at e)
  | inl four ↦
      offset_parts-whole negative (parse_i64 (take 2 body)) (parse_i64 (drop 2 body))
        (rw (four, is_unsplittable-IsAscii body 2 a (ground (arith, four))) at e)
]

read_offset-whole : (t : Text) → IsAscii t → read_offset t ≢ Offset.splits_character
unfolding read_offset
read_offset-whole [] a e = cc
read_offset-whole (b ∷ body) a e =
    ground (arith, e, offset_body-whole (b == b'-') body (split_colon body) a.1)

at_offset-whole :
    (days : ℤ) (day_secs nanos : ℕ) (o : Offset)
    → o ≢ Offset.splits_character
    → at_offset days day_secs nanos o ≢ Parsed.unwinds
at_offset-whole days day_secs nanos (Offset.seconds z) h e = cc
at_offset-whole days day_secs nanos Offset.bad h e = cc
at_offset-whole days day_secs nanos Offset.splits_character h e = h refl

some-inj : {p q : Text × ℕ} → some p ≡ some q → p ≡ q
some-inj h = ap (λ o. or_else_start o) h
  where
    or_else_start : Option (Text × ℕ) → Text × ℕ
    or_else_start none = ([], 0)
    or_else_start (some p) = p

read_fraction-IsAscii :
    (t rest : Text) (nanos : ℕ) → IsAscii t → read_fraction t ≡ some (rest, nanos) → IsAscii rest
unfolding read_fraction
read_fraction-IsAscii [] rest nanos a e = subst IsAscii (ap (λ p. p.0) (some-inj e)) a
read_fraction-IsAscii (b ∷ bs) rest nanos a e = elim (Bool-cases (not (b == b'.'))) [
  | inl plain ↦ subst IsAscii (ap (λ p. p.0) (some-inj (rw plain at e))) a
  | inr dot ↦ elim (Bool-cases (length (leading_digits bs) == 0)) [
    | inl none_left ↦ cc (rw (dot, none_left) at e)
    | inr digits ↦ after (parse_u64 (scaled (leading_digits bs))) (rw (dot, digits) at e)
  ]
]
  where
    after :
        (o : Option ℕ)
        → (elim o as (λ x. Option (Text × ℕ)) [
          | none ↦ none
          | some n ↦ some (drop (length (leading_digits bs)) bs, n)
        ])
          ≡ some (rest, nanos)
        → IsAscii rest
    after none h = cc
    after (some n) h =
        subst IsAscii (ap (λ p. p.0) (some-inj h))
          (drop-IsAscii (length (leading_digits bs)) bs a.1)

with_rest-whole :
    (days : ℤ) (day_secs : ℕ) (t : Text)
    → IsAscii t
    → with_rest days day_secs (read_fraction t) ≢ Parsed.unwinds
with_rest-whole days day_secs t a =
    go (read_fraction t) (λ rest nanos e. read_fraction-IsAscii t rest nanos a e)
  where
    go :
        (o : Option (Text × ℕ))
        → ((rest : Text) (nanos : ℕ) → o ≡ some (rest, nanos) → IsAscii rest)
        → with_rest days day_secs o ≢ Parsed.unwinds
    go none h e = cc
    go (some (rest, nanos)) h e =
        at_offset-whole days day_secs nanos (read_offset rest)
          (read_offset-whole rest (h rest nanos refl)) e

with_clock-whole :
    (days : ℤ) (hour minute second : Option ℕ) (t : Text)
    → IsAscii t
    → with_clock days hour minute second t ≢ Parsed.unwinds
with_clock-whole days none minute second t a e = cc
with_clock-whole days (some h) none second t a e = cc
with_clock-whole days (some h) (some m) none t a e = cc
with_clock-whole days (some h) (some m) (some s) t a e =
    elim (Bool-cases (ltb 23 h || ltb 59 m || ltb 60 s)) [
      | inl out ↦ cc (rw out at e)
      | inr within ↦ with_rest-whole days (h * 3600 + m * 60 + min s 59) t a (rw within at e)
    ]

with_date-whole :
    (year month day : Option ℤ) (raw : Text)
    → IsAscii raw
    → with_date year month day raw ≢ Parsed.unwinds
with_date-whole none month day raw a e = cc
with_date-whole (some y) none day raw a e = cc
with_date-whole (some y) (some m) none raw a e = cc
with_date-whole (some y) (some m) (some d) raw a e =
    elim (Bool-cases (ltb_ℤ m (pos 1) || ltb_ℤ (pos 12) m || ltb_ℤ d (pos 1) || ltb_ℤ (pos 31) d)) [
      | inl out ↦ cc (rw out at e)
      | inr within ↦
          with_clock-whole (days_from_civil y (pos_part m) (pos_part d))
            (parse_u64 (slice raw 11 13)) (parse_u64 (slice raw 14 16))
            (parse_u64 (slice raw 17 19)) (drop 19 raw) (drop-IsAscii 19 raw a) (rw within at e)
    ]

-- An index within a text reads a byte.
byte_at-within : (t : Text) (i : ℕ) → i < length t → (b : ℕ) × (byte_at t i ≡ some b)
byte_at-within [] i h = absurd (omega (arith, h))
byte_at-within (b ∷ t) zero h = (b, refl)
byte_at-within (b ∷ t) (suc i) h = byte_at-within t i (omega (arith, h))

and_byte-answers :
    (t : Text) (i : ℕ) (fits : ℕ → Bool) (rest : Option Bool)
    → i < length t
    → rest ≢ none
    → and_byte (byte_at t i) fits rest ≢ none
and_byte-answers t i fits rest h k e =
    let (b, eq) = byte_at-within t i h in tested b (fits b) refl (rw eq at e)
  where
    tested : (b : ℕ) (x : Bool) → fits b ≡ x → (if fits b then rest else some false) ≢ none
    tested b true y z = k (rw y at z)
    tested b false y z = cc (rw y at z)

-- The length that is checked is enough for every byte that is read.
well_separated-answers : (raw : Text) → well_separated raw ≢ none
well_separated-answers raw e = elim (Bool-cases (leb 19 (length raw))) [
  | inr short ↦ cc (rw short at e)
  | inl long ↦
      let n = leb→le 19 (length raw) long in
      and_byte-answers raw 4 _ _ (omega (arith, n))
        (and_byte-answers raw 7 _ _ (omega (arith, n)) (
          and_byte-answers raw 10 _ _ (omega (arith, n)) (
            and_byte-answers raw 13 _ _ (omega (arith, n))
              (and_byte-answers raw 16 _ _ (omega (arith, n)) (λ h. cc)))))
        (rw long at e)
]

with_separators-whole :
    (o : Option Bool) (raw : Text) → o ≢ none → IsAscii raw → with_separators o raw ≢ Parsed.unwinds
with_separators-whole none raw h a e = h refl
with_separators-whole (some false) raw h a e = cc
with_separators-whole (some true) raw h a e =
    with_date-whole (parse_i64 (slice raw 0 4)) (parse_i64 (slice raw 5 7))
      (parse_i64 (slice raw 8 10)) raw a e

-- Whatever a timestamp in ASCII looks like, and however short it is, the parser answers with a time
-- or with nothing: no byte is read after its end, and no text is split after its end.
pub parse_rfc3339-returns : (raw : Text) → IsAscii raw → parse_rfc3339 raw ≢ Parsed.unwinds
unfolding parse_rfc3339
parse_rfc3339-returns raw a e =
    with_separators-whole (well_separated raw) raw (well_separated-answers raw) a e
