-- ===== src/Core/Cross/Parts.antt =====
-- What a consolidated touch says of itself: who is left out, how far to trust it, whether it crosses.
use market_aggregator.Common.{
  suc, ◌+◌, ◌≤◌, leb, true, Option, none, some, List, [], ◌∷◌, ◌++◌, ◌≡◌, ◌↔◌, ◌⊎◌, inl, inr, refl,
  sym, ap, ◌∙◌, subst, arith, length, length-append, Bool-cases,
}
use mathlib.Core.List.{append_assoc, append-nil}
use market_aggregator.Core.Decimal.{Decimal}
use market_aggregator.Core.Event.{VenueId, bid, ask}
use market_aggregator.Core.Book.{TopOfBook, Integrity, integrity_rank}
use market_aggregator.Core.Cross.{
  CrossPolicy, CrossLeg, CrossVenue, Tally, Exclusion, ExclusionReason, excluded_for, weaker,
  filled, no_tally, count_in, tally, derive, consolidate, is_crossed,
}
use market_aggregator.Core.Cross.Best.{derive-legs}

abbrev pub exclusion : VenueId → Option ExclusionReason → List Exclusion
exclusion venue none = []
exclusion venue (some reason) = record { venue = venue; reason = reason } ∷ []

weaker-IsFloor :
    (i j : Integrity)
    → (integrity_rank (weaker i j) ≤ integrity_rank i)
      × (integrity_rank (weaker i j) ≤ integrity_rank j)
      × ((weaker i j ≡ i) ⊎ (weaker i j ≡ j))
weaker-IsFloor i j = elim (Bool-cases (leb (integrity_rank i) (integrity_rank j))) [
  | inl le ↦ rw le (ground (arith, le), ground (arith, le), inl refl)
  | inr gt ↦ rw gt (ground (arith, gt), ground (arith, gt), inr refl)
]

-- `a - b` is at most zero where `a` is at most `b`.
abbrev pub IsDifference : (D : Type 0) → Decimal D → Type 0
IsDifference D dec =
    (a b : D) → (dec.rank (dec.sub a b) ≤ dec.rank dec.zero_decimal) ↔ (dec.rank a ≤ dec.rank b)

module _ {D : Type 0} where
  -- The quotes that are left out, in their order, each with the first rule that it fails.
  unfoldable pub exclusions : CrossPolicy → List (VenueId × TopOfBook D) → List Exclusion
  exclusions policy [] = []
  exclusions policy ((venue, top) ∷ quotes) =
      exclusion venue (excluded_for policy top) ++ exclusions policy quotes

module _ {D : Type 0} ⦃dec : Decimal D⦄ where
  abbrev Counted : CrossPolicy → Tally D → Tally D → List (VenueId × TopOfBook D) → Type 0
  Counted policy t t' quotes =
      (t'.left_out ≡ t.left_out ++ exclusions policy quotes)
      × (t'.used + length (exclusions policy quotes) ≡ t.used + length quotes)

  count_in-Counted :
      (policy : CrossPolicy) (t : Tally D) (venue : VenueId) (top : TopOfBook D)
      (e : Option ExclusionReason)
      → let t' = count_in t venue top e in
        (t'.left_out ≡ t.left_out ++ exclusion venue e)
        × (t'.used + length (exclusion venue e) ≡ suc t.used)
  count_in-Counted policy t venue top none = (sym (append-nil t.left_out), omega arith)
  count_in-Counted policy t venue top (some reason) = (refl, omega arith)

  tally-Counted :
      (policy : CrossPolicy) (t : Tally D) (quotes : List (VenueId × TopOfBook D))
      → Counted policy t (tally policy t quotes) quotes
  unfolding tally exclusions
  tally-Counted policy t [] = (sym (append-nil t.left_out), refl)
  tally-Counted policy t ((venue, top) ∷ quotes) =
      let e = excluded_for policy top in
      let (kept, counted) = count_in-Counted policy t venue top e in
      let (left, sum) = tally-Counted policy (count_in t venue top e) quotes in
      (
        left
            ∙ (ap (λ xs. xs ++ exclusions policy quotes) kept
                ∙ append_assoc t.left_out (exclusion venue e) (exclusions policy quotes)),
        omega (arith, counted, sum, length-append (exclusion venue e) (exclusions policy quotes)),
      )

  -- `derive` changes neither the count nor the exclusions.
  derive-counts :
      (c : CrossVenue D) (b a : Option (CrossLeg D))
      → ((derive c b a).excluded ≡ c.excluded) × ((derive c b a).venues_used ≡ c.venues_used)
  derive-counts c (some b) (some a) = (refl, refl)
  derive-counts c (some b) none = (refl, refl)
  derive-counts c none a = (refl, refl)

  -- Every venue is either used or listed as left out, with the first rule that it fails: not live,
  -- too old, or no level.
  pub consolidate-excluded :
      (quotes : List (VenueId × TopOfBook D)) (policy : CrossPolicy)
      → let c = consolidate quotes policy in
        (c.excluded ≡ exclusions policy quotes)
        × (c.venues_used + length c.excluded ≡ length quotes)
  unfolding consolidate
  consolidate-excluded quotes policy =
      let t = tally policy no_tally quotes in
      let (same, used) = derive-counts (filled t) t.best_bid t.best_ask in
      let (left, sum) = tally-Counted policy no_tally quotes in
      (same ∙ left, omega (arith, used, sum, ap (λ xs. length xs) (same ∙ left)))

  -- The weaker of the legs' guarantees, where there are legs.
  abbrev pub IsFloor : Option (CrossLeg D) → Option (CrossLeg D) → Option Integrity → Type 0
  IsFloor (some b) (some a) none = ⊥
  IsFloor (some b) (some a) (some i) =
      (integrity_rank i ≤ integrity_rank b.integrity)
      × (integrity_rank i ≤ integrity_rank a.integrity)
      × ((i ≡ b.integrity) ⊎ (i ≡ a.integrity))
  IsFloor (some b) none floor = floor ≡ some b.integrity
  IsFloor none (some a) floor = floor ≡ some a.integrity
  IsFloor none none floor = floor ≡ none

  derive-IsFloor :
      (c : CrossVenue D) (b a : Option (CrossLeg D)) → IsFloor b a (derive c b a).integrity_floor
  derive-IsFloor c (some b) (some a) = weaker-IsFloor b.integrity a.integrity
  derive-IsFloor c (some b) none = refl
  derive-IsFloor c none (some a) = refl
  derive-IsFloor c none none = refl

  -- The guarantee that is published is the weaker one of the legs that were used: no stronger than
  -- either, and that of one of them. It is absent only where there is no leg.
  pub consolidate-IsFloor :
      (quotes : List (VenueId × TopOfBook D)) (policy : CrossPolicy)
      → let c = consolidate quotes policy in IsFloor c.bid_leg c.ask_leg c.integrity_floor
  unfolding consolidate
  consolidate-IsFloor quotes policy =
      let t = tally policy no_tally quotes in
      let c = derive (filled t) t.best_bid t.best_ask in
      subst (λ (p : Option (CrossLeg D) × Option (CrossLeg D)). IsFloor p.0 p.1 c.integrity_floor)
        (λ i. (
          sym (derive-legs (filled t) t.best_bid t.best_ask bid) i,
          sym (derive-legs (filled t) t.best_bid t.best_ask ask) i,
        ))
        (derive-IsFloor (filled t) t.best_bid t.best_ask)

  -- A bid at or above an ask.
  abbrev pub Crossing : Option (CrossLeg D) → Option (CrossLeg D) → Type 0
  Crossing (some b) (some a) = dec.rank a.price ≤ dec.rank b.price
  Crossing _ _ = ⊥

  derive-Crossing :
      IsDifference D dec
      → (c : CrossVenue D) (b a : Option (CrossLeg D)) → c.spread ≡ none
      → (is_crossed (derive c b a) ≡ true) ↔ Crossing b a
  unfolding is_crossed
  derive-Crossing sub_le c (some b) (some a) h = (
    λ e. (sub_le a.price b.price).0 (ground (arith, e)),
    λ k. ground (arith, (sub_le a.price b.price).1 k),
  )
  derive-Crossing sub_le c (some b) none h = (λ e. cc (rw h at e), λ k. elim k [ ])
  derive-Crossing sub_le c none (some a) h = (λ e. cc (rw h at e), λ k. elim k [ ])
  derive-Crossing sub_le c none none h = (λ e. cc (rw h at e), λ k. elim k [ ])

  -- A touch is reported as crossed exactly where it has both legs and its bid is at or above its
  -- ask, if the difference of two decimals is at most zero exactly where the first is at most the
  -- second.
  pub is_crossed-consolidate :
      IsDifference D dec
      → (quotes : List (VenueId × TopOfBook D)) (policy : CrossPolicy)
      → let c = consolidate quotes policy in (is_crossed c ≡ true) ↔ Crossing c.bid_leg c.ask_leg
  unfolding consolidate
  is_crossed-consolidate sub_le quotes policy =
      let t = tally policy no_tally quotes in
      let c = derive (filled t) t.best_bid t.best_ask in
      subst
        (λ (p : Option (CrossLeg D) × Option (CrossLeg D)).
          (is_crossed c ≡ true) ↔ Crossing p.0 p.1)
        (λ i. (
          sym (derive-legs (filled t) t.best_bid t.best_ask bid) i,
          sym (derive-legs (filled t) t.best_bid t.best_ask ask) i,
        ))
        (derive-Crossing sub_le (filled t) t.best_bid t.best_ask refl)
