-- ===== src/Server/Gateway/Sourced.antt =====
-- Where what a merged view shows comes from.
use market_aggregator.Common.{
  ℕ, ◌≤◌, Option, none, some, List, [], ◌∷◌, ◌≡◌, ◌⊎◌, refl, sym, Text, All, All-append, leb,
  leb→le, Bool-cases, inl, inr,
}
use market_aggregator.Core.Time.{IngestTime}
use market_aggregator.Pipeline.View.{VenueView, SymbolView, Snapshot}
use market_aggregator.Server.Gateway.{
  GatewayPolicy, NodeReport, aged, lag_of, place_views, place_symbols, placed_by, placed,
}

-- There is one in the list.
abbrev pub AnyOf : {A : Type 0} → (A → Type 0) → List A → Type 0
AnyOf P [] = ⊥
AnyOf P (x ∷ xs) = P x ⊎ AnyOf P xs

pub All-map :
    {A : Type 0} {P Q : A → Type 0} (xs : List A) → ((a : A) → P a → Q a) → All P xs → All Q xs
All-map [] f h = tt
All-map (x ∷ xs) f h = (f x h.0, All-map xs f h.1)

AnyOf-map :
    {A : Type 0} {P Q : A → Type 0} (xs : List A) → ((a : A) → P a → Q a) → AnyOf P xs → AnyOf Q xs
AnyOf-map [] f h = h
AnyOf-map (x ∷ xs) f (inl h) = inl (f x h)
AnyOf-map (x ∷ xs) f (inr h) = inr (AnyOf-map xs f h)

module _ {D : Type 0} where
  -- The view is one that the symbols list under this one, aged by the lag.
  abbrev pub ListedIn : Text → ℕ → VenueView D → List (SymbolView D) → Type 0
  ListedIn symbol lag view ss =
      AnyOf (λ s. (s.symbol ≡ symbol) × AnyOf (λ v. view ≡ aged v lag) s.venues) ss

  -- The view comes from the report's snapshot, which arrived no longer ago than the limit.
  pub record ReportedBy (limit : ℕ) (now : IngestTime) (symbol : Text) (view : VenueView D)
      (r : NodeReport D) : Type 0 where
    pub heard : Snapshot D
    pub lag : ℕ
    pub has_snapshot : r.snapshot ≡ some heard
    pub has_lag : lag_of r now ≡ some lag
    pub in_time : lag ≤ limit
    pub is_listed : ListedIn symbol lag view heard.symbols

  abbrev pub Sourced :
      GatewayPolicy → IngestTime → List (NodeReport D) → Text → VenueView D → Type 0
  Sourced policy now reports symbol view =
      AnyOf (ReportedBy policy.max_node_age now symbol view) reports

  place_views_listed :
      (node : Text) (lag : ℕ) (symbol : Text) (vs : List (VenueView D))
      → All
          (λ p. (p.symbol ≡ symbol) × AnyOf (λ v. p.claim.view ≡ aged v lag) vs)
          (place_views node lag symbol vs)
  place_views_listed node lag symbol [] = tt
  place_views_listed node lag symbol (v ∷ vs) = (
    (refl, inl refl),
    All-map (place_views node lag symbol vs) (λ p h. (h.0, inr h.1))
        (place_views_listed node lag symbol vs),
  )

  place_symbols_listed :
      (node : Text) (lag : ℕ) (ss : List (SymbolView D))
      → All (λ p. ListedIn p.symbol lag p.claim.view ss) (place_symbols node lag ss)
  place_symbols_listed node lag [] = tt
  place_symbols_listed node lag (s ∷ ss) =
      All-append _ (place_views node lag s.symbol s.venues) (place_symbols node lag ss)
        (All-map (place_views node lag s.symbol s.venues) (λ p h. inl (sym h.0, h.1))
          (place_views_listed node lag s.symbol s.venues))
        (All-map (place_symbols node lag ss) (λ p h. inr h) (place_symbols_listed node lag ss))

  placed_by_reported :
      (limit : ℕ) (now : IngestTime) (r : NodeReport D) (o : Option (Snapshot D)) (l : Option ℕ)
      → r.snapshot ≡ o
      → lag_of r now ≡ l
      → All (λ p. ReportedBy limit now p.symbol p.claim.view r) (placed_by limit r.node o l)
  placed_by_reported limit now r none l eo el = tt
  placed_by_reported limit now r (some s) none eo el = tt
  placed_by_reported limit now r (some s) (some lag) eo el = elim (Bool-cases (leb lag limit)) [
    | inr late ↦ rw late tt
    | inl fresh ↦ rw fresh (
        All-map (place_symbols r.node lag s.symbols)
          (λ p h. record {
            heard = s;
            lag = lag;
            has_snapshot = eo;
            has_lag = el;
            in_time = leb→le lag limit fresh;
            is_listed = h;
          })
          (place_symbols_listed r.node lag s.symbols))
  ]

  pub placed-Sourced :
      (policy : GatewayPolicy) (now : IngestTime) (rs : List (NodeReport D))
      → All (λ p. Sourced policy now rs p.symbol p.claim.view) (placed policy now rs)
  unfolding placed
  placed-Sourced policy now [] = tt
  placed-Sourced policy now (r ∷ rs) =
      All-append _ (placed_by policy.max_node_age r.node r.snapshot (lag_of r now))
        (placed policy now rs)
        (All-map (placed_by policy.max_node_age r.node r.snapshot (lag_of r now)) (λ p h. inl h)
          (placed_by_reported policy.max_node_age now r r.snapshot (lag_of r now) refl refl))
        (All-map (placed policy now rs) (λ p h. inr h) (placed-Sourced policy now rs))
