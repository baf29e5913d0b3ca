-- ===== src/Core/Decimal.antt =====
-- crates/ma-core/src/price.rs over `rust_decimal::Decimal`, which the repository does not contain.
use market_aggregator.Common.{
  ℕ, Bool, Option, none, some, Text, ltb, leb, ◌==◌, ◌&&◌, not, if◌then◌else◌,
}

-- What the source calls of `rust_decimal`. Its operators panic where a result does not fit, and its
-- division on zero; `add`, `sub`, `mul` and `div` stand for calls that return, so that what is said
-- of code that computes with decimals is said of runs in which no such call panics. A value is m / 10^s with |m| < 2^96 and s ≤ 28, and
-- `Ord` and `Eq` compare the number that it stands for; `rank` is that number made natural,
-- (m / 10^s + 2^96) * 10^28, so values that differ in scale alone have one rank.
pub record Decimal (D : Type 0) : Type 0 where
  pub rank : D → ℕ
  pub is_zero : D → Bool
  pub is_sign_negative : D → Bool
  pub zero_decimal : D
  pub add : D → D → D
  pub sub : D → D → D
  pub mul : D → D → D
  pub div : D → D → D
  pub from_u32 : ℕ → D
  pub round_dp : D → ℕ → D
  pub from_str : Text → Option D
  pub from_scientific : Text → Option D
  pub to_text : D → Text

module _ {D : Type 0} ⦃dec : Decimal D⦄ where
  -- `a < b`, `a <= b` and `a == b` on prices and quantities.
  abbrev pub price_ltb : D → D → Bool
  price_ltb a b = ltb (dec.rank a) (dec.rank b)

  abbrev pub price_leb : D → D → Bool
  price_leb a b = leb (dec.rank a) (dec.rank b)

  abbrev pub price_eqb : D → D → Bool
  price_eqb a b = dec.rank a == dec.rank b

  -- `Qty::from_decimal`; `none` is `ParseError::NegativeQty`.
  unfoldable pub qty_from_decimal : D → Option D
  qty_from_decimal d = if dec.is_sign_negative d && not (dec.is_zero d) then none else some d

  -- `Qty::is_delete`.
  abbrev pub is_delete : D → Bool
  is_delete q = dec.is_zero q

  -- `Price::from_str`.
  unfoldable pub price_from_str : Text → Option D
  price_from_str s = elim (dec.from_str s) [ some d ↦ some d | none ↦ dec.from_scientific s ]

  -- `Qty::from_str`.
  unfoldable pub qty_from_str : Text → Option D
  unfolding price_from_str qty_from_decimal
  qty_from_str s = elim (price_from_str s) [ none ↦ none | some d ↦ qty_from_decimal d ]
