-- ===== src/Server/Gateway/Merge.antt =====
-- crates/ma-server/src/gateway/mod.rs: the claims of the nodes put together, a winner for each stream.
use market_aggregator.Common.{
  ℕ, Bool, Option, none, some, List, [], ◌∷◌, ◌++◌, map, Text, text_eqb, ltb, ◌==◌, ◌&&◌, ◌||◌,
  length, first?, if◌then◌else◌,
}
use market_aggregator.Common.Entries.{update_by}
use market_aggregator.Core.Decimal.{Decimal}
use market_aggregator.Core.Time.{IngestTime}
use market_aggregator.Core.Event.{VenueId}
use market_aggregator.Core.Book.{Integrity}
use market_aggregator.Core.Cross.{CrossPolicy, venue_eqb}
use market_aggregator.Coord.Assign.{text_ltb, venue_rank}
use market_aggregator.Pipeline.View.{
  BookStatus, VenueView, SymbolView, unix_millis, weakest, cross_view, consolidated_windows,
}
use market_aggregator.Server.Gateway.{
  GatewayPolicy, NodeReport, DuplicatedStream, MergedSnapshot, Claim, Placed, Books, effective_age,
  top_of_book, node_status, placed, channels,
}

abbrev pub venue_ltb : VenueId → VenueId → Bool
venue_ltb v w = ltb (venue_rank v) (venue_rank w)

module _ {D : Type 0} where
  -- `books.entry(symbol).entry(venue).push(claim)`.
  abbrev pub push_claim : Books D → Placed D → Books D
  push_claim books p =
      update_by text_ltb text_eqb p.symbol []
        (λ by_venue.
          update_by venue_ltb venue_eqb p.venue [] (λ claims. claims ++ p.claim ∷ []) by_venue)
        books

  unfoldable pub collect_books : Books D → List (Placed D) → Books D
  collect_books books [] = books
  collect_books books (p ∷ ps) = collect_books (push_claim books p) ps

  -- The comparison of `sort_by`, and the stable sort.
  unfoldable pub claim_ltb : Claim D → Claim D → Bool
  unfolding effective_age
  claim_ltb a b =
      ltb (effective_age a.view) (effective_age b.view)
      || (effective_age a.view == effective_age b.view && text_ltb a.node b.node)

  unfoldable pub insert_claim : Claim D → List (Claim D) → List (Claim D)
  insert_claim c [] = c ∷ []
  insert_claim c (d ∷ ds) =
      let later = insert_claim c ds in if claim_ltb d c then d ∷ later else c ∷ d ∷ ds

  unfoldable pub sort_claims : List (Claim D) → List (Claim D)
  sort_claims [] = []
  sort_claims (c ∷ cs) = insert_claim c (sort_claims cs)

  unfoldable pub winner : List (Claim D) → Option (Claim D)
  winner claims = first? (if ltb 1 (length claims) then sort_claims claims else claims)

  -- The entries of `duplicated` that one symbol adds.
  unfoldable pub duplicates : Text → List (VenueId × List (Claim D)) → List DuplicatedStream
  duplicates symbol [] = []
  duplicates symbol ((venue, claims) ∷ rest) =
      let later = duplicates symbol rest in
      if ltb 1 (length claims)
      then record { symbol = symbol; venue = venue; nodes = map (λ (c : Claim D). c.node) claims }
        ∷ later
      else later

  -- The venues of one symbol, each with its winner.
  abbrev pub with_winner :
      VenueId → Option (Claim D) → List (VenueId × Claim D) → List (VenueId × Claim D)
  with_winner venue none rest = rest
  with_winner venue (some c) rest = (venue, c) ∷ rest

  unfoldable pub winners : List (VenueId × List (Claim D)) → List (VenueId × Claim D)
  winners [] = []
  winners ((venue, claims) ∷ rest) = with_winner venue (winner claims) (winners rest)

  abbrev pub live_claim : VenueView D → Option Integrity
  live_claim v = elim v.status [ BookStatus.live ↦ v.integrity | _ ↦ none ]

  unfoldable pub all_duplicates : Books D → List DuplicatedStream
  all_duplicates [] = []
  all_duplicates ((symbol, by_venue) ∷ rest) = duplicates symbol by_venue ++ all_duplicates rest

module _ {D : Type 0} ⦃dec : Decimal D⦄ where
  unfoldable pub merged_symbol :
      CrossPolicy → IngestTime → Text × List (VenueId × List (Claim D)) → SymbolView D
  merged_symbol policy now (symbol, by_venue) =
      let won = winners by_venue in
      record {
        symbol = symbol;
        weakest_integrity = weakest (map (λ (c : VenueId × Claim D). live_claim c.1.view) won);
        cross =
            cross_view (map (λ (c : VenueId × Claim D). (c.0, top_of_book c.1.view now)) won)
              policy;
        cross_windows =
            consolidated_windows (map (λ (c : VenueId × Claim D). (c.1.view, c.1.lag_ms)) won);
        venues = map (λ (c : VenueId × Claim D). c.1.view) won;
      }

  unfoldable pub merge : List (NodeReport D) → IngestTime → ℕ → GatewayPolicy → MergedSnapshot D
  merge reports now seq policy =
      let books = collect_books [] (placed policy now reports) in
      record {
        snapshot = record {
          seq = seq;
          wall_unix_ms = unix_millis now.wall;
          symbols = map (merged_symbol policy.cross now) books;
          channel = channels policy now (record { len = 0; capacity = 0; dropped = 0 }) reports;
        };
        nodes = map (node_status policy now) reports;
        duplicated = all_duplicates books;
      }
