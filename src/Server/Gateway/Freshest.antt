-- ===== src/Server/Gateway/Freshest.antt =====
-- Which of several claims on one stream is shown.
use market_aggregator.Common.{
  ◌≤◌, Bool, true, false, Option, none, some, List, [], ◌∷◌, ◌≡◌, refl, All, arith, first?, length,
  Bool-cases, lt→ltb, inl, inr, if◌then◌else◌,
}
use market_aggregator.Server.Gateway.{Claim, effective_age}
use market_aggregator.Server.Gateway.Merge.{claim_ltb, insert_claim, sort_claims, winner}

module _ {D : Type 0} where
  -- The claim is as fresh as any of the list; there is none where the list is empty.
  abbrev pub FreshestOf : Option (Claim D) → List (Claim D) → Type 0
  FreshestOf none cs = cs ≡ []
  FreshestOf (some c) cs = All (λ d. effective_age c.view ≤ effective_age d.view) cs

  abbrev heads : Option (Claim D) → Claim D → Claim D
  heads none c = c
  heads (some d) c = if claim_ltb d c then d else c

  first?-insert_claim :
      (c : Claim D) (ds : List (Claim D)) → first? (insert_claim c ds) ≡ some (heads (first? ds) c)
  unfolding insert_claim
  first?-insert_claim c [] = refl
  first?-insert_claim c (d ∷ ds) = elim (Bool-cases (claim_ltb d c)) [
    | inl e ↦ rw e refl
    | inr e ↦ rw e refl
  ]

  claim_ltb-le :
      (a b : Claim D) → claim_ltb a b ≡ true → effective_age a.view ≤ effective_age b.view
  unfolding claim_ltb
  claim_ltb-le a b h = ground arith

  claim_ltb-ge :
      (a b : Claim D) → claim_ltb a b ≡ false → effective_age b.view ≤ effective_age a.view
  unfolding claim_ltb
  claim_ltb-ge a b h = ground arith

  fresher :
      (a b : Claim D) (cs : List (Claim D))
      → effective_age a.view ≤ effective_age b.view
      → FreshestOf (some b) cs
      → FreshestOf (some a) cs
  fresher a b [] h f = tt
  fresher a b (c ∷ cs) h f = (omega (arith, f.0), fresher a b cs h f.1)

  heads-FreshestOf :
      (o : Option (Claim D)) (c : Claim D) (cs : List (Claim D))
      → FreshestOf o cs
      → FreshestOf (some (heads o c)) (c ∷ cs)
  heads-FreshestOf none c cs f = rw f (omega arith, tt)
  heads-FreshestOf (some d) c cs f =
      chosen (claim_ltb d c) (λ e. (claim_ltb-le d c e, f))
        (λ e. (omega arith, fresher c d cs (claim_ltb-ge d c e) f))
    where
      chosen :
          (b : Bool)
          → (b ≡ true → FreshestOf (some d) (c ∷ cs))
          → (b ≡ false → FreshestOf (some c) (c ∷ cs))
          → FreshestOf (some (if b then d else c)) (c ∷ cs)
      chosen true h k = h refl
      chosen false h k = k refl

  sort_claims-FreshestOf : (cs : List (Claim D)) → FreshestOf (first? (sort_claims cs)) cs
  unfolding sort_claims
  sort_claims-FreshestOf [] = refl
  sort_claims-FreshestOf (c ∷ cs) =
      rw (first?-insert_claim c (sort_claims cs))
        (heads-FreshestOf (first? (sort_claims cs)) c cs (sort_claims-FreshestOf cs))

  -- Of the claims on a stream the one that is shown is at least as fresh as any other, and there is
  -- one unless nobody claims the stream.
  pub winner-FreshestOf : (cs : List (Claim D)) → FreshestOf (winner cs) cs
  unfolding winner
  winner-FreshestOf [] = refl
  winner-FreshestOf (c ∷ []) = (omega arith, tt)
  winner-FreshestOf (c ∷ d ∷ cs) =
      rw (lt→ltb 1 (length (c ∷ d ∷ cs)) (omega arith)) (sort_claims-FreshestOf (c ∷ d ∷ cs))
