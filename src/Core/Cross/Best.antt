-- ===== src/Core/Cross/Best.antt =====
-- That the consolidated legs are the best of the quotes to be trusted.
use market_aggregator.Common.{
  Any, ◌≤◌, true, Option, none, some, List, [], ◌∷◌, ◌≡◌, ◌⊎◌, inl, inr, refl, sym, ap, ◌∙◌, subst,
  arith, All, Bool-cases,
}
use market_aggregator.Core.Decimal.{Decimal}
use market_aggregator.Core.Event.{VenueId, Side, bid, ask, Level}
use market_aggregator.Core.Book.{TopOfBook, is_live}
use market_aggregator.Core.Cross.{
  CrossPolicy, CrossLeg, CrossVenue, Tally, ExclusionReason, age_of, excluded_for, leg_of, no_tally,
  improves, better, offer, count_in, tally, derive, filled, consolidate,
}

module _ {D : Type 0} where
  -- A live book whose last update is recent enough.
  abbrev pub IsFit : CrossPolicy → TopOfBook D → Type 0
  IsFit policy top = (is_live top.state ≡ true) × (age_of top.age ≤ policy.max_age)

  abbrev pub side_level : Side → TopOfBook D → Option (Level D)
  side_level bid top = top.bid_level
  side_level ask top = top.ask_level

  abbrev pub side_leg : Side → CrossVenue D → Option (CrossLeg D)
  side_leg bid c = c.bid_leg
  side_leg ask c = c.ask_leg

  abbrev pub tally_leg : Side → Tally D → Option (CrossLeg D)
  tally_leg bid t = t.best_bid
  tally_leg ask t = t.best_ask

  -- The quote is fit, and its level on this side is the leg.
  abbrev pub Offers : CrossPolicy → Side → CrossLeg D → VenueId × TopOfBook D → Type 0
  Offers policy side leg (venue, top) =
      IsFit policy top
      × ((l : Level D) × (side_level side top ≡ some l) × (leg ≡ leg_of venue top l))

  fit-included :
      (policy : CrossPolicy) (side : Side) (top : TopOfBook D) (l : Level D)
      → IsFit policy top
      → side_level side top ≡ some l
      → excluded_for policy top ≡ none
  fit-included policy bid top l fit h = ground (arith, fit, h)
  fit-included policy ask top l fit h = ground (arith, fit, h)

  included-IsFit :
      (policy : CrossPolicy) (top : TopOfBook D) → excluded_for policy top ≡ none → IsFit policy top
  included-IsFit policy top h = ground (arith, h)

module _ {D : Type 0} ⦃dec : Decimal D⦄ where
  -- The leg is no worse than the price: no lower for a bid, no higher for an ask.
  abbrev pub AtLeast : Side → D → Option (CrossLeg D) → Type 0
  AtLeast side price none = ⊥
  AtLeast bid price (some leg) = dec.rank price ≤ dec.rank leg.price
  AtLeast ask price (some leg) = dec.rank leg.price ≤ dec.rank price

  -- The leg is one that some quote offers, and no fit quote has a better level on this side.
  abbrev pub IsBest :
      CrossPolicy → Side → List (VenueId × TopOfBook D) → Option (CrossLeg D) → Type 0
  IsBest policy side quotes r =
      ((r ≡ none) ⊎ ((leg : CrossLeg D) × (r ≡ some leg) × Any (Offers policy side leg) quotes))
      × All
          (λ q.
            IsFit policy q.1
            → (l : Level D) → side_level side q.1 ≡ some l
            → AtLeast side l.price r)
          quotes

  -- A leg that replaces another, or keeps its place, is no worse than it.
  abbrev pub KeepsUp : Side → Option (CrossLeg D) → Option (CrossLeg D) → Type 0
  KeepsUp side before after = (leg : CrossLeg D) → before ≡ some leg → AtLeast side leg.price after

  AtLeast-trans :
      (side : Side) (p : D) (before after : Option (CrossLeg D))
      → AtLeast side p before
      → KeepsUp side before after
      → AtLeast side p after
  AtLeast-trans bid p none after h k = elim h [ ]
  AtLeast-trans ask p none after h k = elim h [ ]
  AtLeast-trans bid p (some b) none h k = k b refl
  AtLeast-trans ask p (some b) none h k = k b refl
  AtLeast-trans bid p (some b) (some a) h k = omega (arith, h, k b refl)
  AtLeast-trans ask p (some b) (some a) h k = omega (arith, h, k b refl)

  better-cases :
      (side : Side) (o : Option (CrossLeg D)) (leg : CrossLeg D)
      → (better side o leg ≡ leg) ⊎ (some (better side o leg) ≡ o)
  better-cases side none leg = inl refl
  better-cases side (some b) leg = elim (Bool-cases (improves side leg.price b.price)) [
    | inl replaces ↦ inl (rw replaces refl)
    | inr keeps ↦ inr (rw keeps refl)
  ]

  better-AtLeast :
      (side : Side) (o : Option (CrossLeg D)) (leg : CrossLeg D)
      → AtLeast side leg.price (some (better side o leg))
  better-AtLeast bid none leg = omega arith
  better-AtLeast ask none leg = omega arith
  better-AtLeast bid (some b) leg = ground arith
  better-AtLeast ask (some b) leg = ground arith

  better-KeepsUp :
      (side : Side) (b leg : CrossLeg D) → AtLeast side b.price (some (better side (some b) leg))
  better-KeepsUp bid b leg = ground arith
  better-KeepsUp ask b leg = ground arith

  KeepsUp-refl : (side : Side) (o : Option (CrossLeg D)) → KeepsUp side o o
  KeepsUp-refl bid none leg e = cc
  KeepsUp-refl ask none leg e = cc
  KeepsUp-refl bid (some b) leg e = subst (λ o. AtLeast bid leg.price o) (sym e) (omega arith)
  KeepsUp-refl ask (some b) leg e = subst (λ o. AtLeast ask leg.price o) (sym e) (omega arith)

  -- What one quote does to the leg.
  abbrev pub Settles :
      CrossPolicy
      → Side
      → VenueId
      → TopOfBook D
      → Option (CrossLeg D)
      → Option (CrossLeg D)
      → Type 0
  Settles policy side venue top before after =
      ((after ≡ before)
        ⊎ ((leg : CrossLeg D) × (after ≡ some leg) × Offers policy side leg (venue, top)))
      × KeepsUp side before after
      × (IsFit policy top
          → (l : Level D) → side_level side top ≡ some l
          → AtLeast side l.price after)

  offer-Settles :
      (policy : CrossPolicy) (side : Side) (venue : VenueId) (top : TopOfBook D)
      (o : Option (CrossLeg D)) (level : Option (Level D))
      → side_level side top ≡ level
      → IsFit policy top
      → Settles policy side venue top o (offer side o venue top level)
  offer-Settles policy side venue top o none e fit =
      (inl refl, KeepsUp-refl side o, λ h l k. absurd (clash (sym e ∙ k)))
    where
      clash : {l : Level D} → none ≡ some l → ⊥
      clash k = cc
  offer-Settles policy side venue top o (some l) e fit =
      (from o (better-cases side o (leg_of venue top l)), keeps o, heads)
    where
      from :
          (o' : Option (CrossLeg D))
          → (better side o' (leg_of venue top l) ≡ leg_of venue top l)
            ⊎ (some (better side o' (leg_of venue top l)) ≡ o')
          → (some (better side o' (leg_of venue top l)) ≡ o')
            ⊎ ((leg : CrossLeg D) × (some (better side o' (leg_of venue top l)) ≡ some leg)
                × Offers policy side leg (venue, top))
      from o' (inl new) = inr (leg_of venue top l, ap some new, (fit, (l, e, refl)))
      from o' (inr old) = inl old

      keeps :
          (o' : Option (CrossLeg D)) → KeepsUp side o' (some (better side o' (leg_of venue top l)))
      keeps none leg k = cc
      keeps (some b) leg k =
          subst (λ x. AtLeast side x (some (better side (some b) (leg_of venue top l))))
            (ap (λ y. price_at y) k) (better-KeepsUp side b (leg_of venue top l))
        where
          price_at : Option (CrossLeg D) → D
          price_at none = l.price
          price_at (some y) = y.price

      heads :
          IsFit policy top
          → (m : Level D) → side_level side top ≡ some m
          → AtLeast side m.price (some (better side o (leg_of venue top l)))
      heads h m k =
          subst (λ x. AtLeast side x (some (better side o (leg_of venue top l))))
            (ap (λ y. price_at y) (sym e ∙ k)) (better-AtLeast side o (leg_of venue top l))
        where
          price_at : Option (Level D) → D
          price_at none = l.price
          price_at (some y) = y.price

  count_in-Settles :
      (policy : CrossPolicy) (side : Side) (t : Tally D) (venue : VenueId) (top : TopOfBook D)
      (e : Option ExclusionReason)
      → excluded_for policy top ≡ e
      → Settles policy side venue top (tally_leg side t) (tally_leg side (count_in t venue top e))
  count_in-Settles policy side t venue top (some reason) h =
      subst (λ o. Settles policy side venue top (tally_leg side t) o) (sym (kept side))
        (
          inl refl,
          KeepsUp-refl side (tally_leg side t),
          λ fit l k. absurd (clash (sym (fit-included policy side top l fit k) ∙ h)),
        )
    where
      kept : (s : Side) → tally_leg s (count_in t venue top (some reason)) ≡ tally_leg s t
      kept bid = refl
      kept ask = refl

      clash : none ≡ some reason → ⊥
      clash k = cc
  count_in-Settles policy bid t venue top none h =
      offer-Settles policy bid venue top t.best_bid top.bid_level refl (included-IsFit policy top h)
  count_in-Settles policy ask t venue top none h =
      offer-Settles policy ask venue top t.best_ask top.ask_level refl (included-IsFit policy top h)

  -- What the loop does to the leg.
  abbrev pub Reaches :
      CrossPolicy
      → Side
      → List (VenueId × TopOfBook D)
      → Option (CrossLeg D)
      → Option (CrossLeg D)
      → Type 0
  Reaches policy side quotes before after =
      ((after ≡ before)
        ⊎ ((leg : CrossLeg D) × (after ≡ some leg) × Any (Offers policy side leg) quotes))
      × KeepsUp side before after
      × All
          (λ q.
            IsFit policy q.1
            → (l : Level D) → side_level side q.1 ≡ some l
            → AtLeast side l.price after)
          quotes

  Reaches-cons :
      (policy : CrossPolicy) (side : Side) (venue : VenueId) (top : TopOfBook D)
      (quotes : List (VenueId × TopOfBook D)) (o o' r : Option (CrossLeg D))
      → Settles policy side venue top o o'
      → Reaches policy side quotes o' r
      → Reaches policy side ((venue, top) ∷ quotes) o r
  Reaches-cons policy side venue top quotes o o' r (from, keeps, head) (src, above, rest) = (
    origin src from,
    λ leg e. AtLeast-trans side leg.price o' r (keeps leg e) above,
    (λ fit l h. AtLeast-trans side l.price o' r (head fit l h) above, rest),
  )
    where
      origin :
          (r ≡ o') ⊎ ((leg : CrossLeg D) × (r ≡ some leg) × Any (Offers policy side leg) quotes)
          → (o' ≡ o) ⊎ ((leg : CrossLeg D) × (o' ≡ some leg) × Offers policy side leg (venue, top))
          → (r ≡ o)
            ⊎ ((leg : CrossLeg D) × (r ≡ some leg)
                × Any (Offers policy side leg) ((venue, top) ∷ quotes))
      origin (inr (leg, e, among)) f = inr (leg, e, inr among)
      origin (inl e) (inl e') = inl (e ∙ e')
      origin (inl e) (inr (leg, e', offered)) = inr (leg, e ∙ e', inl offered)

  tally-Reaches :
      (policy : CrossPolicy) (side : Side) (t : Tally D) (quotes : List (VenueId × TopOfBook D))
      → Reaches policy side quotes (tally_leg side t) (tally_leg side (tally policy t quotes))
  unfolding tally
  tally-Reaches policy side t [] = (inl refl, KeepsUp-refl side (tally_leg side t), tt)
  tally-Reaches policy side t ((venue, top) ∷ quotes) =
      Reaches-cons policy side venue top quotes (tally_leg side t)
        (tally_leg side (count_in t venue top (excluded_for policy top)))
        (tally_leg side (tally policy (count_in t venue top (excluded_for policy top)) quotes))
        (count_in-Settles policy side t venue top (excluded_for policy top) refl)
        (tally-Reaches policy side (count_in t venue top (excluded_for policy top)) quotes)

  pub derive-legs :
      (c : CrossVenue D) (b a : Option (CrossLeg D)) (side : Side)
      → side_leg side (derive c b a) ≡ side_leg side c
  derive-legs c (some b) (some a) bid = refl
  derive-legs c (some b) (some a) ask = refl
  derive-legs c (some b) none bid = refl
  derive-legs c (some b) none ask = refl
  derive-legs c none a bid = refl
  derive-legs c none a ask = refl

  consolidate-leg :
      (quotes : List (VenueId × TopOfBook D)) (policy : CrossPolicy) (side : Side)
      → side_leg side (consolidate quotes policy) ≡ tally_leg side (tally policy no_tally quotes)
  unfolding consolidate
  consolidate-leg quotes policy bid =
      derive-legs (filled (tally policy no_tally quotes)) (tally policy no_tally quotes).best_bid
        (tally policy no_tally quotes).best_ask bid
  consolidate-leg quotes policy ask =
      derive-legs (filled (tally policy no_tally quotes)) (tally policy no_tally quotes).best_bid
        (tally policy no_tally quotes).best_ask ask

  -- Each leg of the consolidated touch is a level that a live and recent book shows, and no other
  -- live and recent book has a better level on that side. There is no leg only where none of these
  -- has a level on the side.
  pub consolidate-IsBest :
      (quotes : List (VenueId × TopOfBook D)) (policy : CrossPolicy) (side : Side)
      → IsBest policy side quotes (side_leg side (consolidate quotes policy))
  consolidate-IsBest quotes policy bid =
      let (src, above, rest) = tally-Reaches policy bid no_tally quotes in
      subst (λ r. IsBest policy bid quotes r) (sym (consolidate-leg quotes policy bid)) (src, rest)
  consolidate-IsBest quotes policy ask =
      let (src, above, rest) = tally-Reaches policy ask no_tally quotes in
      subst (λ r. IsBest policy ask quotes r) (sym (consolidate-leg quotes policy ask)) (src, rest)
