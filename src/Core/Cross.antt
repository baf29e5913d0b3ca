-- ===== src/Core/Cross.antt =====
-- crates/ma-core/src/cross.rs: the best bid and the best ask over several venues.
pub mod Best
pub mod Parts
pub mod Single
use market_aggregator.Common.{
  ℕ, suc, ◌-◌, ◌+◌, ◌*◌, ◌/◌, ◌^◌, min, max, Bool, true, false, not, ◌&&◌, Option, none, some, List,
  [], ◌∷◌, ◌++◌, ltb, leb, ◌==◌, if◌then◌else◌,
}
use market_aggregator.Core.Decimal.{Decimal, price_ltb, price_leb}
use market_aggregator.Core.Event.{VenueId, Side, bid, ask, Level}
use market_aggregator.Core.Book.{BookState, Integrity, integrity_rank, TopOfBook}

-- The longest age that counts, in nanoseconds.
pub record CrossPolicy : Type 0 where
  pub max_age : ℕ

-- `CrossPolicy::default`.
abbrev pub default_policy : CrossPolicy
default_policy = record { max_age = 2 * 10 ^ 9 }

pub record CrossLeg (D : Type 0) : Type 0 where
  pub venue : VenueId
  pub price : D
  pub qty : D
  pub age_ms : ℕ
  pub integrity : Integrity

pub data ExclusionReason : Type 0 where
  untrusted : ExclusionReason
  stale : ℕ → ExclusionReason
  no_quote : ExclusionReason

pub record Exclusion : Type 0 where
  pub venue : VenueId
  pub reason : ExclusionReason

pub record CrossVenue (D : Type 0) : Type 0 where
  pub bid_leg : Option (CrossLeg D)
  pub ask_leg : Option (CrossLeg D)
  pub spread : Option D
  pub spread_bps : Option D
  pub mid : Option D
  pub integrity_floor : Option Integrity
  pub oldest_leg_ms : Option ℕ
  pub venues_used : ℕ
  pub excluded : List Exclusion

-- What the loop of `consolidate` keeps.
pub record Tally (D : Type 0) : Type 0 where
  pub best_bid : Option (CrossLeg D)
  pub best_ask : Option (CrossLeg D)
  pub used : ℕ
  pub left_out : List Exclusion

-- `Duration::MAX` in nanoseconds, and `u64::MAX`.
abbrev pub duration_max : ℕ
duration_max = 2 ^ 64 * 10 ^ 9 - 1

abbrev pub u64_max : ℕ
u64_max = 2 ^ 64 - 1

-- `top.age.unwrap_or(Duration::MAX)`.
abbrev pub age_of : Option ℕ → ℕ
age_of none = duration_max
age_of (some age) = age

-- The age in milliseconds, as a `u64`.
abbrev pub millis_of : ℕ → ℕ
millis_of age = min (age / 1000000) u64_max

-- `Integrity::min`.
abbrev pub weaker : Integrity → Integrity → Integrity
weaker i j = if leb (integrity_rank i) (integrity_rank j) then i else j

-- `VenueId ==`.
abbrev pub venue_eqb : VenueId → VenueId → Bool
venue_eqb VenueId.coinbase VenueId.coinbase = true
venue_eqb VenueId.kraken VenueId.kraken = true
venue_eqb VenueId.bitstamp VenueId.bitstamp = true
venue_eqb VenueId.fake VenueId.fake = true
venue_eqb _ _ = false

module _ {D : Type 0} where
  -- The first test that a quote fails, or its integrity.
  abbrev pub no_level : Option (Level D) → Option (Level D) → Bool
  no_level none none = true
  no_level _ _ = false

  abbrev pub excluded_for : CrossPolicy → TopOfBook D → Option ExclusionReason
  excluded_for policy top = elim top.state [
    | BookState.live i s v ↦
        if ltb policy.max_age (age_of top.age)
        then some (ExclusionReason.stale (age_of top.age))
        else if no_level top.bid_level top.ask_level
        then some ExclusionReason.no_quote
        else none
    | _ ↦ some ExclusionReason.untrusted
  ]

  -- The integrity of a live book; no other comes to be a leg.
  abbrev pub integrity_of : BookState D → Integrity
  integrity_of (BookState.live i s v) = i
  integrity_of _ = Integrity.order_only

  abbrev pub leg_of : VenueId → TopOfBook D → Level D → CrossLeg D
  leg_of venue top level = record {
    venue = venue;
    price = level.price;
    qty = level.qty;
    age_ms = millis_of (age_of top.age);
    integrity = integrity_of top.state;
  }

  abbrev pub no_tally : Tally D
  no_tally = record { best_bid = none; best_ask = none; used = 0; left_out = [] }

  -- `CrossVenue::empty`.
  abbrev pub empty : List Exclusion → CrossVenue D
  empty excluded = record {
    bid_leg = none;
    ask_leg = none;
    spread = none;
    spread_bps = none;
    mid = none;
    integrity_floor = none;
    oldest_leg_ms = none;
    venues_used = 0;
    excluded = excluded;
  }

  -- The three assignments after the loop.
  abbrev pub filled : Tally D → CrossVenue D
  filled t = record (empty t.left_out) {
    bid_leg = t.best_bid;
    ask_leg = t.best_ask;
    venues_used = t.used;
  }

  -- `bid.map(f).or(ask.map(f))`.
  abbrev pub either_leg :
      {A : Type 0} → (CrossLeg D → A) → Option (CrossLeg D) → Option (CrossLeg D) → Option A
  either_leg f (some l) o = some (f l)
  either_leg f none (some l) = some (f l)
  either_leg f none none = none

  -- `CrossVenue::is_single_venue`.
  abbrev pub same_venue : Option (CrossLeg D) → Option (CrossLeg D) → Bool
  same_venue (some b) (some a) = venue_eqb b.venue a.venue
  same_venue _ _ = false

  unfoldable pub is_single_venue : CrossVenue D → Bool
  is_single_venue c = same_venue c.bid_leg c.ask_leg

module _ {D : Type 0} ⦃dec : Decimal D⦄ where
  -- A higher bid and a lower ask; the one seen first keeps its place at a tie.
  abbrev pub improves : Side → D → D → Bool
  improves bid price best = price_ltb best price
  improves ask price best = price_ltb price best

  abbrev pub better : Side → Option (CrossLeg D) → CrossLeg D → CrossLeg D
  better side none leg = leg
  better side (some b) leg = if improves side leg.price b.price then leg else b

  abbrev pub offer :
      Side → Option (CrossLeg D) → VenueId → TopOfBook D → Option (Level D) → Option (CrossLeg D)
  offer side best venue top none = best
  offer side best venue top (some l) = some (better side best (leg_of venue top l))

  -- One turn of the loop.
  abbrev pub count_in : Tally D → VenueId → TopOfBook D → Option ExclusionReason → Tally D
  count_in t venue top (some reason) = record t {
    left_out = t.left_out ++ record { venue = venue; reason = reason } ∷ [];
  }
  count_in t venue top none = record {
    best_bid = offer bid t.best_bid venue top top.bid_level;
    best_ask = offer ask t.best_ask venue top top.ask_level;
    used = suc t.used;
    left_out = t.left_out;
  }

  unfoldable pub tally : CrossPolicy → Tally D → List (VenueId × TopOfBook D) → Tally D
  tally policy t [] = t
  tally policy t ((venue, top) ∷ quotes) =
      tally policy (count_in t venue top (excluded_for policy top)) quotes

  -- The match after the loop.
  abbrev pub with_both : CrossVenue D → CrossLeg D → CrossLeg D → CrossVenue D
  with_both c b a =
      let spread = dec.sub a.price b.price in
      let mid = dec.div (dec.add a.price b.price) (dec.from_u32 2) in
      record c {
        integrity_floor = some (weaker b.integrity a.integrity);
        oldest_leg_ms = some (max b.age_ms a.age_ms);
        spread = some spread;
        mid = some mid;
        spread_bps =
            (if dec.is_zero mid
              then none
              else some (dec.round_dp (dec.div (dec.mul spread (dec.from_u32 10000)) mid) 4));
      }

  abbrev pub derive : CrossVenue D → Option (CrossLeg D) → Option (CrossLeg D) → CrossVenue D
  derive c (some b) (some a) = with_both c b a
  derive c none a = record c {
    integrity_floor = either_leg (λ l. l.integrity) none a;
    oldest_leg_ms = either_leg (λ l. l.age_ms) none a;
  }
  derive c (some b) none = record c {
    integrity_floor = some b.integrity;
    oldest_leg_ms = some b.age_ms;
  }

  -- `consolidate`.
  unfoldable pub consolidate : List (VenueId × TopOfBook D) → CrossPolicy → CrossVenue D
  unfolding tally
  consolidate quotes policy =
      let t = tally policy no_tally quotes in derive (filled t) t.best_bid t.best_ask

  -- `CrossVenue::is_crossed`.
  unfoldable pub is_crossed : CrossVenue D → Bool
  is_crossed c = elim c.spread [ none ↦ false | some s ↦ price_leb s dec.zero_decimal ]
