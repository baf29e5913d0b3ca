-- ===== src/Pipeline/Snapshot/Trust.antt =====
-- What a view may claim of its book, and what a symbol may claim of its views.
use mathlib.Core.List.{reverse_aux}
use market_aggregator.Common.{
  ℕ, zero, suc, ◌≤◌, ◌<◌, Option, none, some, List, [], ◌∷◌, ◌≡◌, ◌≢◌, ◌↔◌, ◌⊎◌, inl, inr, refl,
  sym, ◌∙◌, map, All, arith, first?, last?, take, reverse, subst, Text, Bool-cases, leb, leb→le,
}
use market_aggregator.Core.Decimal.{Decimal}
use market_aggregator.Core.Time.{IngestTime}
use market_aggregator.Core.Event.{VenueId, Side, Level}
use market_aggregator.Core.Levels.{best_of, top_of}
use market_aggregator.Core.Book.{
  BookState, Integrity, integrity_rank, top_of_book, top_levels, best,
}
use market_aggregator.Core.Cross.{CrossPolicy, weaker}
use market_aggregator.Core.Window.Reading.{WindowReading, choose_opt}
use market_aggregator.Pipeline.Aggregator.{VenueState}
use market_aggregator.Pipeline.View.{
  BookStatus, VenueView, weakest, venue_view, status_of, integrity_shown, reason_shown,
}
use market_aggregator.Pipeline.Snapshot.{Published, symbol_view}

module _ {A : Type 0} where
  first?-take : (n : ℕ) (xs : List A) → first? (take (suc n) xs) ≡ first? xs
  first?-take n [] = refl
  first?-take n (x ∷ xs) = refl

  first?-reverse_aux :
      (x : A) (xs acc : List A) → first? (reverse_aux (x ∷ xs) acc) ≡ last? (x ∷ xs)
  first?-reverse_aux x [] acc = refl
  first?-reverse_aux x (y ∷ ys) acc = first?-reverse_aux y ys (x ∷ acc)

  first?-reverse : (xs : List A) → first? (reverse xs) ≡ last? xs
  first?-reverse [] = refl
  first?-reverse (x ∷ xs) = first?-reverse_aux x xs []

module _ {D : Type 0} where
  -- The view's head of each ladder is its touch, and it claims an integrity where it is live and
  -- nowhere else, and a reason where it is desynced and nowhere else.
  pub record IsCoherent (w : VenueView D) : Type 0 where
    pub bid_heads : w.bid_level ≡ first? w.bids
    pub ask_heads : w.ask_level ≡ first? w.asks
    pub live_iff : (w.status ≡ BookStatus.live) ↔ (w.integrity ≢ none)
    pub desynced_iff : (w.status ≡ BookStatus.desynced) ↔ (w.desync_reason ≢ none)

  live_status_iff : (b : BookState D) → (status_of b ≡ BookStatus.live) ↔ (integrity_shown b ≢ none)
  live_status_iff BookState.uninitialized = (λ e. absurd (ground arith), λ n. absurd (n refl))
  live_status_iff (BookState.live i s v) = (λ e n. ground arith, λ n. refl)
  live_status_iff (BookState.desynced s r) = (λ e. absurd (ground arith), λ n. absurd (n refl))

  desynced_status_iff :
      (b : BookState D) → (status_of b ≡ BookStatus.desynced) ↔ (reason_shown b ≢ none)
  desynced_status_iff BookState.uninitialized = (λ e. absurd (ground arith), λ n. absurd (n refl))
  desynced_status_iff (BookState.live i s v) = (λ e. absurd (ground arith), λ n. absurd (n refl))
  desynced_status_iff (BookState.desynced s r) = (λ e n. ground arith, λ n. refl)

module _ {D : Type 0} ⦃dec : Decimal D⦄ where
  head_of :
      (side : Side) (n : ℕ) (levels : List (Level D))
      → best_of side levels ≡ first? (top_of side (suc n) levels)
  unfolding best_of top_of
  head_of Side.bid n levels = sym (first?-take n (reverse levels) ∙ first?-reverse levels)
  head_of Side.ask n levels = sym (first?-take n levels)

module _ {D S : Type 0} ⦃dec : Decimal D⦄ where
  -- With at least one level shown of each side, the view of a stream is coherent.
  pub venue_view-IsCoherent :
      (venue : VenueId) (v : VenueState D S) (windows : List (WindowReading D)) (depth_levels : ℕ)
      (now : IngestTime)
      → 0 < depth_levels
      → IsCoherent (venue_view venue v windows depth_levels now)
  unfolding venue_view top_of_book top_levels best
  venue_view-IsCoherent venue v windows zero now h = absurd (omega arith)
  venue_view-IsCoherent venue v windows (suc n) now h = record {
    bid_heads = head_of Side.bid n v.book.book.bids;
    ask_heads = head_of Side.ask n v.book.book.asks;
    live_iff = live_status_iff v.book.book.state;
    desynced_iff = desynced_status_iff v.book.book.state;
  }

-- A claim that is no stronger than the other, where there is another.
abbrev pub NoStronger : Option Integrity → Option Integrity → Type 0
NoStronger w none = Unit
NoStronger (some j) (some i) = integrity_rank j ≤ integrity_rank i
NoStronger none (some i) = ⊥

-- A claim that one of the list makes; none, where none of it makes any.
abbrev pub MadeBy : Option Integrity → List (Option Integrity) → Type 0
MadeBy w [] = w ≡ none
MadeBy w (o ∷ os) = ((o ≡ w) × (o ≢ none)) ⊎ MadeBy w os

weaker-cases :
    (i j : Integrity)
    → ((weaker i j ≡ i) × (integrity_rank i ≤ integrity_rank j))
      ⊎ ((weaker i j ≡ j) × (integrity_rank j ≤ integrity_rank i))
weaker-cases i j = elim (Bool-cases (leb (integrity_rank i) (integrity_rank j))) [
  | inl e ↦ inl (rw e refl, leb→le _ _ e)
  | inr e ↦ inr (rw e refl, ground arith)
]

some-ne-none : {A : Type 0} (a : A) → some a ≢ none
some-ne-none a e = ground arith

NoStronger-trans : (u v o : Option Integrity) → NoStronger u v → NoStronger v o → NoStronger u o
NoStronger-trans u v none p q = tt
NoStronger-trans (some i) (some j) (some k) p q = omega arith
NoStronger-trans none (some j) (some k) p q = absurd p
NoStronger-trans u none (some k) p q = absurd q

NoStronger-All :
    (u v : Option Integrity) (os : List (Option Integrity))
    → NoStronger u v
    → All (NoStronger v) os
    → All (NoStronger u) os
NoStronger-All u v [] p a = tt
NoStronger-All u v (o ∷ os) p a = (NoStronger-trans u v o p a.0, NoStronger-All u v os p a.1)

abbrev Weakest : Option Integrity → List (Option Integrity) → Type 0
Weakest w os = All (NoStronger w) os × MadeBy w os

-- Adding a claim to a list of which the weakest is known.
Weakest-cons :
    (o w : Option Integrity) (os : List (Option Integrity))
    → Weakest w os
    → Weakest (choose_opt weaker o w) (o ∷ os)
Weakest-cons none w os h = ((tt, h.0), inr h.1)
Weakest-cons (some i) none os h =
    ((omega arith, NoStronger-All (some i) none os tt h.0), inl (refl, some-ne-none i))
Weakest-cons (some i) (some j) os h = elim (weaker-cases i j) [
  | inl p ↦
      subst (λ c. Weakest (some c) (some i ∷ os)) (sym p.0)
        ((omega arith, NoStronger-All (some i) (some j) os (p.1) h.0), inl (refl, some-ne-none i))
  | inr p ↦ subst (λ c. Weakest (some c) (some i ∷ os)) (sym p.0) ((p.1, h.0), inr h.1)
]

weakest-Weakest : (os : List (Option Integrity)) → Weakest (weakest os) os
unfolding weakest
weakest-Weakest [] = (tt, refl)
weakest-Weakest (o ∷ os) = Weakest-cons o (weakest os) os (weakest-Weakest os)

module _ {D : Type 0} ⦃dec : Decimal D⦄ where
  -- The integrity that a symbol claims is no stronger than any that its views claim, and is one of
  -- them, or is none where they claim none.
  pub symbol_view-weakest :
      (policy : CrossPolicy) (symbol : Text) (ps : List (Published D))
      → let claims = map (λ (p : Published D). p.view.integrity) ps in
        let w = (symbol_view policy (symbol, ps)).weakest_integrity in
        All (NoStronger w) claims × MadeBy w claims
  unfolding symbol_view
  symbol_view-weakest policy symbol ps =
      weakest-Weakest (map (λ (p : Published D). p.view.integrity) ps)
