-- ===== src/Pipeline/Snapshot/Contents.antt =====
-- What a snapshot contains: the streams that are owned, each under its symbol.
use market_aggregator.Common.{
  ℕ, true, false, Option, List, [], ◌∷◌, ◌++◌, ◌≡◌, refl, sym, ap, ◌∙◌, map, Text, text_eqb,
  text_eqb_sound, text_eqb_refl, keep_if, All, ok_or, Holds, bind-Holds, bind-Holds_with,
  if◌then◌else◌, Bool-cases, inl, inr, arith,
}
use mathlib.Core.List.{append_assoc, append-nil}
use market_aggregator.Common.Entries.{
  IsEqb, entry_or, lookup_by, update_by, lookup_by-update_by, lookup_by-update_by_ne,
}
use market_aggregator.Core.Decimal.{Decimal}
use market_aggregator.Core.Time.{IngestTime}
use market_aggregator.Core.Event.{VenueId, StreamId}
use market_aggregator.Core.Cross.{CrossPolicy}
use market_aggregator.Core.Window.Reading.{read}
use market_aggregator.Coord.Assign.{text_ltb}
use market_aggregator.Pipeline.Aggregator.{VenueState, Stop}
use market_aggregator.Pipeline.Channel.{ChannelMetrics}
use market_aggregator.Pipeline.View.{VenueView, SymbolView, venue_view}
use market_aggregator.Pipeline.Snapshot.{
  Published, Aggregator, is_owned, publish, publish_one, by_symbol, symbol_view, snapshot,
}

pub text_IsEqb : IsEqb text_eqb
text_IsEqb = record { eqb_sound = text_eqb_sound; eqb_refl = text_eqb_refl }

text_eqb_other : (s t : Text) → text_eqb s t ≡ false → text_eqb t s ≡ false
text_eqb_other s t h = elim (Bool-cases (text_eqb t s)) [
  | inr e ↦ e
  | inl e ↦
      absurd (differ (sym (text_eqb_refl s) ∙ ap (text_eqb s) (sym (text_eqb_sound t s e)) ∙ h))
]
  where
    differ : true ≡ false → ⊥
    differ e = ground arith

module _ {D : Type 0} where
  abbrev pub of_symbol : Text → List (Published D) → List (Published D)
  of_symbol s ps = keep_if (λ p. text_eqb p.stream.symbol s) ps

  -- The view is of the stream's venue.
  abbrev Named : Published D → Type 0
  Named p = p.view.venue ≡ p.stream.venue

  -- The venues that are listed under a symbol, in their order.
  abbrev pub venues_under : Text → List (SymbolView D) → List VenueId
  venues_under s [] = []
  venues_under s (v ∷ vs) =
      let later = venues_under s vs in
      if text_eqb v.symbol s then map (λ (w : VenueView D). w.venue) v.venues else later

  venues_of_symbol :
      (s : Text) (ps : List (Published D))
      → All Named ps
      → map (λ (p : Published D). p.view.venue) (of_symbol s ps)
        ≡ map
            (λ (k : StreamId). k.venue)
            (keep_if (λ k. text_eqb k.symbol s) (map (λ (p : Published D). p.stream) ps))
  venues_of_symbol s [] n = refl
  venues_of_symbol s (p ∷ ps) n = elim (Bool-cases (text_eqb p.stream.symbol s)) [
    | inl own ↦ rw own (λ i. n.0 i ∷ venues_of_symbol s ps n.1 i)
    | inr other ↦ rw other (venues_of_symbol s ps n.1)
  ]

module _ {D : Type 0} ⦃dec : Decimal D⦄ where
  pushed :
      (s j : Text) (p : Published D) (groups : List (Text × List (Published D)))
      → text_eqb j s ≡ true
      → entry_or []
          (lookup_by text_eqb s (update_by text_ltb text_eqb j [] (λ xs. xs ++ p ∷ []) groups))
        ≡ entry_or [] (lookup_by text_eqb s groups) ++ p ∷ []
  pushed s j p groups own = rw (text_eqb_sound j s own) (
      ap (entry_or [])
        (lookup_by-update_by text_ltb text_eqb text_IsEqb s [] (λ xs. xs ++ p ∷ []) groups))

  by_symbol_from :
      (s : Text) (ps : List (Published D)) (groups : List (Text × List (Published D)))
      → entry_or [] (lookup_by text_eqb s (by_symbol ps groups))
        ≡ entry_or [] (lookup_by text_eqb s groups) ++ of_symbol s ps
  unfolding by_symbol
  by_symbol_from s [] groups = sym (append-nil _)
  by_symbol_from s (p ∷ ps) groups =
      by_symbol_from s ps
        (update_by text_ltb text_eqb p.stream.symbol [] (λ xs. xs ++ p ∷ []) groups)
      ∙ elim (Bool-cases (text_eqb p.stream.symbol s)) [
        | inl own ↦ rw own (
            (λ i. pushed s p.stream.symbol p groups own i ++ of_symbol s ps)
            ∙ append_assoc (entry_or [] (lookup_by text_eqb s groups)) (p ∷ []) (of_symbol s ps))
        | inr other ↦ rw other (λ i.
            entry_or [] (
              lookup_by-update_by_ne text_ltb text_eqb text_IsEqb s p.stream.symbol []
                (λ xs. xs ++ p ∷ []) groups other i)
            ++ of_symbol s ps)
      ]

  venues_under-symbol_view :
      (policy : CrossPolicy) (s : Text) (groups : List (Text × List (Published D)))
      → venues_under s (map (symbol_view policy) groups)
        ≡ map (λ (p : Published D). p.view.venue) (entry_or [] (lookup_by text_eqb s groups))
  unfolding symbol_view
  venues_under-symbol_view policy s [] = refl
  venues_under-symbol_view policy s ((j, ps) ∷ groups) = elim (Bool-cases (text_eqb j s)) [
    | inl own ↦ rw own (map_map ps)
    | inr other ↦ rw other (venues_under-symbol_view policy s groups)
  ]
    where
      map_map :
          (ps : List (Published D))
          → map (λ (w : VenueView D). w.venue) (map (λ (p : Published D). p.view) ps)
            ≡ map (λ (p : Published D). p.view.venue) ps
      map_map [] = refl
      map_map (p ∷ ps) = ap (◌∷◌ p.view.venue) (map_map ps)

module _ {D S : Type 0} ⦃dec : Decimal D⦄ where
  publish-owned :
      (owned : Option (List StreamId)) (depth_levels : ℕ) (now : IngestTime)
      (ss : List (StreamId × VenueState D S))
      → Holds
          (λ r.
            All Named r.1
            × (map (λ (p : Published D). p.stream) r.1
                ≡ keep_if (is_owned owned) (map (λ e. e.0) ss)))
          (publish owned depth_levels now ss)
  unfolding publish venue_view
  publish-owned owned depth_levels now [] = (tt, refl)
  publish-owned owned depth_levels now ((k, v) ∷ rest) = elim (Bool-cases (is_owned owned k)) [
    | inr skipped ↦ rw skipped (
        bind-Holds_with _ _ (publish owned depth_levels now rest) _
          (publish-owned owned depth_levels now rest) (λ r e. e))
    | inl taken ↦ rw taken (
        bind-Holds_with (λ o. Named o.1 × (o.1.stream ≡ k)) _ (publish_one depth_levels now k v) _
          (bind-Holds _ (ok_or (read v.windows now) Stop.unfinished) _ (λ r. (refl, refl)))
          (λ o e.
            bind-Holds_with _ _ (publish owned depth_levels now rest) _
              (publish-owned owned depth_levels now rest)
              (λ r es. ((e.0, es.0), λ i. e.1 i ∷ es.1 i))))
  ]

  -- A snapshot, where the windows' loops leave one, lists, under each symbol, the venues of exactly the tracked streams of that symbol
  -- that are owned, each as often as it is tracked and in the order of the streams.
  pub snapshot-owned :
      (a : Aggregator D S) (channel : ChannelMetrics) (now : IngestTime) (s : Text)
      → Holds
          (λ r.
            venues_under s r.1.symbols
            ≡ map
                (λ (k : StreamId). k.venue)
                (keep_if
                  (λ k. text_eqb k.symbol s)
                  (keep_if (is_owned a.owned) (map (λ e. e.0) a.streams))))
          (snapshot a channel now)
  unfolding snapshot
  snapshot-owned a channel now s =
      bind-Holds_with _ _ (publish a.owned a.depth_levels now a.streams) _
        (publish-owned a.owned a.depth_levels now a.streams)
        (λ r p.
          venues_under-symbol_view a.cross_policy s (by_symbol r.1 [])
          ∙ ap (map (λ (q : Published D). q.view.venue)) (by_symbol_from s r.1 [])
          ∙ venues_of_symbol s r.1 p.0
          ∙ ap (λ ks. map (λ (k : StreamId). k.venue) (keep_if (λ k. text_eqb k.symbol s) ks)) p.1)
