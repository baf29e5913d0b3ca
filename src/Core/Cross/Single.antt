-- ===== src/Core/Cross/Single.antt =====
-- That a touch drawn from one venue alone shows no arbitrage.
use market_aggregator.Common.{
  ◌<◌, true, false, Option, none, some, List, [], ◌∷◌, ◌≡◌, ◌⊎◌, inl, inr, sym, ap, ◌∙◌, subst,
  arith, All, Any, Bool-cases,
}
use market_aggregator.Core.Decimal.{Decimal}
use market_aggregator.Core.Event.{VenueId, Side, bid, ask, Level}
use market_aggregator.Core.Book.{TopOfBook, is_live}
use market_aggregator.Core.Cross.{
  CrossPolicy, CrossLeg, venue_eqb, consolidate, same_venue, is_single_venue, is_crossed,
}
use market_aggregator.Core.Cross.Best.{Offers, consolidate-IsBest}
use market_aggregator.Core.Cross.Parts.{IsDifference, Crossing, is_crossed-consolidate}

venue_eqb_comm : (v w : VenueId) → venue_eqb v w ≡ venue_eqb w v
venue_eqb_comm v w = ground arith

module _ {D : Type 0} where
  -- No two quotes are of one venue.
  abbrev pub Distinct : List (VenueId × TopOfBook D) → Type 0
  Distinct [] = Unit
  Distinct ((venue, top) ∷ quotes) = All (λ q. venue_eqb venue q.0 ≡ false) quotes × Distinct quotes

  offered-elsewhere :
      (policy : CrossPolicy) (side : Side) (leg : CrossLeg D) (venue : VenueId)
      (quotes : List (VenueId × TopOfBook D))
      → All (λ q. venue_eqb venue q.0 ≡ false) quotes
      → Any (Offers policy side leg) quotes
      → venue_eqb venue leg.venue ≡ false
  offered-elsewhere policy side leg venue [] others found = elim found [ ]
  offered-elsewhere policy side leg venue (q ∷ quotes) others (inl (fit, (l, e, same))) =
      ap (λ x. venue_eqb venue x.venue) same ∙ others.0
  offered-elsewhere policy side leg venue (q ∷ quotes) others (inr found) =
      offered-elsewhere policy side leg venue quotes others.1 found

module _ {D : Type 0} ⦃dec : Decimal D⦄ where
  -- A live book whose best bid is below its best ask, as every valid one is.
  abbrev pub IsUncrossed : VenueId × TopOfBook D → Type 0
  IsUncrossed (venue, top) =
      is_live top.state ≡ true
      → (b a : Level D) → top.bid_level ≡ some b
      → top.ask_level ≡ some a
      → dec.rank b.price < dec.rank a.price

  one_quote :
      (policy : CrossPolicy) (quotes : List (VenueId × TopOfBook D)) (b a : CrossLeg D)
      → Distinct quotes
      → All IsUncrossed quotes
      → Any (Offers policy bid b) quotes
      → Any (Offers policy ask a) quotes
      → venue_eqb b.venue a.venue ≡ true
      → dec.rank b.price < dec.rank a.price
  one_quote policy [] b a distinct sound found found' same = elim found [ ]
  one_quote policy (q ∷ quotes) b a distinct sound (inl (fit, (l, e, here)))
        (inl (fit', (m, k, here'))) same =
      omega (
        arith,
        sound.0 fit.0 l m e k,
        ap (λ x. dec.rank x.price) here,
        ap (λ x. dec.rank x.price) here',
      )
  one_quote policy (q ∷ quotes) b a distinct sound (inl (fit, (l, e, here))) (inr there) same =
      absurd (
        clash (
          sym (
            ap (λ x. venue_eqb x.venue a.venue) here
            ∙ offered-elsewhere policy ask a q.0 quotes distinct.0 there)
          ∙ same))
    where
      clash : false ≡ true → ⊥
      clash h = cc
  one_quote policy (q ∷ quotes) b a distinct sound (inr there) (inl (fit, (l, e, here))) same =
      absurd (
        clash (
          sym (
            ap (λ x. venue_eqb x.venue b.venue) here
            ∙ offered-elsewhere policy bid b q.0 quotes distinct.0 there)
          ∙ (venue_eqb_comm a.venue b.venue ∙ same)))
    where
      clash : false ≡ true → ⊥
      clash h = cc
  one_quote policy (q ∷ quotes) b a distinct sound (inr there) (inr there') same =
      one_quote policy quotes b a distinct.1 sound.1 there there' same

  -- Where both legs are of one venue, the touch is not crossed: each venue is asked once, no live
  -- book is crossed in itself, and the difference of two decimals is at most zero exactly where
  -- the first is at most the second.
  pub is_single_venue-consolidate :
      IsDifference D dec
      → (quotes : List (VenueId × TopOfBook D)) (policy : CrossPolicy) → Distinct quotes
      → All IsUncrossed quotes
      → is_single_venue (consolidate quotes policy) ≡ true
      → is_crossed (consolidate quotes policy) ≡ false
  unfolding is_single_venue
  is_single_venue-consolidate sub_le quotes policy distinct sound single =
      elim (Bool-cases (is_crossed (consolidate quotes policy))) [
        | inr apart ↦ apart
        | inl crossed ↦ absurd (
            legs (consolidate quotes policy).bid_leg (consolidate quotes policy).ask_leg
              (consolidate-IsBest quotes policy bid).0 (consolidate-IsBest quotes policy ask).0
              single ((is_crossed-consolidate sub_le quotes policy).0 crossed))
      ]
    where
      legs :
          (ob oa : Option (CrossLeg D))
          → (ob ≡ none)
            ⊎ ((leg : CrossLeg D) × (ob ≡ some leg) × Any (Offers policy bid leg) quotes)
          → (oa ≡ none)
            ⊎ ((leg : CrossLeg D) × (oa ≡ some leg) × Any (Offers policy ask leg) quotes)
          → same_venue ob oa ≡ true
          → Crossing ob oa
          → ⊥
      legs none oa from from' same cross = elim cross [ ]
      legs (some b) none from from' same cross = elim cross [ ]
      legs (some b) (some a) (inl e) from' same cross = cc
      legs (some b) (some a) (inr found) (inl e) same cross = cc
      legs (some b) (some a) (inr (b', e, among)) (inr (a', k, among')) same cross = omega (
        arith,
        cross,
        one_quote policy quotes b a distinct sound
            (subst (λ x. Any (Offers policy bid x) quotes) (sym (leg_inj e)) among)
            (subst (λ x. Any (Offers policy ask x) quotes) (sym (leg_inj k)) among') same,
      )
        where
          leg_inj : {x y : CrossLeg D} → some x ≡ some y → x ≡ y
          leg_inj {x} h = ap (λ o. leg_or o x) h
            where
              leg_or : Option (CrossLeg D) → CrossLeg D → CrossLeg D
              leg_or none z = z
              leg_or (some y) z = y
