-- ===== src/Server/Gateway/Shown.antt =====
-- The merged views, each of which some node has reported.
use market_aggregator.Common.{
  ℕ, Bool, true, false, List, [], ◌∷◌, map, Text, text_eqb, All, All-append, first?, length, ltb,
  Bool-cases, inl, inr, if◌then◌else◌,
}
use market_aggregator.Common.Entries.{AllEntries, update_by-AllEntries, IsEqb}
use market_aggregator.Core.Decimal.{Decimal}
use market_aggregator.Core.Time.{IngestTime}
use market_aggregator.Core.Event.{VenueId}
use market_aggregator.Core.Cross.{CrossPolicy, venue_eqb}
use market_aggregator.Coord.Assign.{text_ltb}
use market_aggregator.Pipeline.View.{VenueView}
use market_aggregator.Pipeline.Snapshot.Contents.{text_IsEqb}
use market_aggregator.Pipeline.Aggregator.Streams.{venue_eqb_sound, venue_eqb_refl}
use market_aggregator.Server.Gateway.{GatewayPolicy, NodeReport, Claim, Placed, Books, placed}
use market_aggregator.Server.Gateway.Merge.{
  venue_ltb, push_claim, collect_books, claim_ltb, insert_claim, sort_claims, winner, with_winner,
  winners, merged_symbol, merge,
}
use market_aggregator.Server.Gateway.Sourced.{Sourced, placed-Sourced}

venue_IsEqb : IsEqb venue_eqb
venue_IsEqb = record { eqb_sound = venue_eqb_sound; eqb_refl = venue_eqb_refl }

module _ {D : Type 0} (P : Text → VenueView D → Type 0) where
  abbrev OfVenue : Text → VenueId → List (Claim D) → Type 0
  OfVenue symbol venue claims = All (λ c. P symbol c.view) claims

  abbrev OfSymbol : Text → List (VenueId × List (Claim D)) → Type 0
  OfSymbol symbol by_venue = AllEntries (OfVenue symbol) by_venue

  collect_books_kept :
      (books : Books D) (ps : List (Placed D))
      → AllEntries OfSymbol books
      → All (λ p. P p.symbol p.claim.view) ps
      → AllEntries OfSymbol (collect_books books ps)
  unfolding collect_books
  collect_books_kept books [] b h = b
  collect_books_kept books (p ∷ ps) b h =
      collect_books_kept (push_claim books p) ps
        (update_by-AllEntries text_ltb text_eqb text_IsEqb OfSymbol p.symbol [] _ books tt
          (λ by_venue k.
            update_by-AllEntries venue_ltb venue_eqb venue_IsEqb (OfVenue p.symbol) p.venue [] _
              by_venue tt (λ claims q. All-append _ claims (p.claim ∷ []) q (h.0, tt)) k)
          b)
        h.1

  insert_claim_kept :
      (symbol : Text) (c : Claim D) (ds : List (Claim D))
      → P symbol c.view
      → All (λ d. P symbol d.view) ds
      → All (λ d. P symbol d.view) (insert_claim c ds)
  unfolding insert_claim
  insert_claim_kept symbol c [] p a = (p, tt)
  insert_claim_kept symbol c (d ∷ ds) p a = elim (Bool-cases (claim_ltb d c)) [
    | inl e ↦ rw e (a.0, insert_claim_kept symbol c ds p a.1)
    | inr e ↦ rw e (p, a)
  ]

  sort_claims_kept :
      (symbol : Text) (cs : List (Claim D))
      → All (λ d. P symbol d.view) cs
      → All (λ d. P symbol d.view) (sort_claims cs)
  unfolding sort_claims
  sort_claims_kept symbol [] a = tt
  sort_claims_kept symbol (c ∷ cs) a =
      insert_claim_kept symbol c (sort_claims cs) a.0 (sort_claims_kept symbol cs a.1)

  with_winner_kept :
      (symbol : Text) (venue : VenueId) (sorted : List (Claim D)) (rest : List (VenueId × Claim D))
      → All (λ d. P symbol d.view) sorted
      → All (λ c. P symbol c.1.view) rest
      → All (λ c. P symbol c.1.view) (with_winner venue (first? sorted) rest)
  with_winner_kept symbol venue [] rest a h = h
  with_winner_kept symbol venue (c ∷ cs) rest a h = (a.0, h)

  winners_kept :
      (symbol : Text) (by_venue : List (VenueId × List (Claim D)))
      → OfSymbol symbol by_venue
      → All (λ c. P symbol c.1.view) (winners by_venue)
  unfolding winners winner
  winners_kept symbol [] a = tt
  winners_kept symbol ((venue, claims) ∷ rest) a =
      with_winner_kept symbol venue (if ltb 1 (length claims) then sort_claims claims else claims)
        (winners rest)
        (either_kept (ltb 1 (length claims)) (sort_claims claims) claims
          (sort_claims_kept symbol claims a.0) a.0)
        (winners_kept symbol rest a.1)
    where
      either_kept :
          (b : Bool) (xs ys : List (Claim D))
          → All (λ d. P symbol d.view) xs
          → All (λ d. P symbol d.view) ys
          → All (λ d. P symbol d.view) (if b then xs else ys)
      either_kept true xs ys h k = h
      either_kept false xs ys h k = k

  views_kept :
      (symbol : Text) (cs : List (VenueId × Claim D))
      → All (λ c. P symbol c.1.view) cs
      → All (P symbol) (map (λ (c : VenueId × Claim D). c.1.view) cs)
  views_kept symbol [] a = tt
  views_kept symbol (c ∷ cs) a = (a.0, views_kept symbol cs a.1)

  symbols_kept :
      ⦃dec : Decimal D⦄ (policy : CrossPolicy) (now : IngestTime) (books : Books D)
      → AllEntries OfSymbol books
      → All (λ s. All (P s.symbol) s.venues) (map (merged_symbol policy now) books)
  unfolding merged_symbol
  symbols_kept policy now [] a = tt
  symbols_kept policy now ((symbol, by_venue) ∷ rest) a = (
    views_kept symbol (winners by_venue) (winners_kept symbol by_venue a.0),
    symbols_kept policy now rest a.1,
  )

module _ {D : Type 0} ⦃dec : Decimal D⦄ where
  -- Every view that a merge shows under a symbol is one that some report's snapshot lists under that
  -- symbol, aged by the time since that snapshot arrived, which is within the limit: a node that has
  -- not reported, or not for longer, contributes nothing.
  pub merge-Sourced :
      (reports : List (NodeReport D)) (now : IngestTime) (seq : ℕ) (policy : GatewayPolicy)
      → All
          (λ s. All (Sourced policy now reports s.symbol) s.venues)
          (merge reports now seq policy).snapshot.symbols
  unfolding merge
  merge-Sourced reports now seq policy =
      symbols_kept (Sourced policy now reports) policy.cross now
        (collect_books [] (placed policy now reports))
        (collect_books_kept (Sourced policy now reports) [] (placed policy now reports) tt
          (placed-Sourced policy now reports))
