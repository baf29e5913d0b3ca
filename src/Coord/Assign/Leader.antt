-- ===== src/Coord/Assign/Leader.antt =====
-- The order in which `owner` ranks nodes is total, so the leader of a list is that of its set.
use market_aggregator.Common.{
  ℕ, ◌≡◌, ◌≢◌, ◌⊎◌, inl, inr, refl, ap, subst, arith, Bool, true, false, ◌||◌, not, some, List, [],
  ◌∷◌, Text, text_eqb, text_eqb_sound, text_eqb_refl, keep_if, Bool-cases,
}
use market_aggregator.Coord.Assign.{NodeId, text_ltb, ahead, max_by_from, max_by}

text_ltb_trans : (s t u : Text) → text_ltb s t ≡ true → text_ltb t u ≡ true → text_ltb s u ≡ true
text_ltb_trans [] [] u h k = ground arith
text_ltb_trans [] (b ∷ t) [] h k = ground arith
text_ltb_trans [] (b ∷ t) (c ∷ u) h k = refl
text_ltb_trans (a ∷ s) [] u h k = ground arith
text_ltb_trans (a ∷ s) (b ∷ t) [] h k = ground arith
text_ltb_trans (a ∷ s) (b ∷ t) (c ∷ u) h k = ground (arith, text_ltb_trans s t u)

text_ltb_irrefl : (s : Text) → text_ltb s s ≡ false
text_ltb_irrefl [] = refl
text_ltb_irrefl (a ∷ s) = ground (arith, text_ltb_irrefl s)

pub text_ltb_total : (s t : Text) → (s ≡ t) ⊎ ((text_ltb s t ≡ true) ⊎ (text_ltb t s ≡ true))
text_ltb_total [] [] = inl refl
text_ltb_total [] (b ∷ t) = inr (inl refl)
text_ltb_total (a ∷ s) [] = inr (inr refl)
text_ltb_total (a ∷ s) (b ∷ t) = ground (arith, text_ltb_total s t)

-- Whether a node is listed.
abbrev pub contains : NodeId → List NodeId → Bool
contains n [] = false
contains n (x ∷ xs) = text_eqb n x || contains n xs

-- The members without one node.
abbrev pub without : NodeId → List NodeId → List NodeId
without n ns = keep_if (λ m. not (text_eqb n m)) ns

pub contains-without :
    (n m : NodeId) (ns : List NodeId) → contains m (without n ns) ≡ true → contains m ns ≡ true
contains-without n m [] h = h
contains-without n m (x ∷ ns) h = ground (arith, contains-without n m ns)

pub contains-keep :
    (n m : NodeId) (ns : List NodeId)
    → m ≢ n
    → contains m ns ≡ true
    → contains m (without n ns) ≡ true
contains-keep n m [] ne h = h
contains-keep n m (x ∷ ns) ne h =
    ground (arith, contains-keep n m ns, text_eqb_sound n x, text_eqb_sound m x)

module _ (w : NodeId → ℕ) where
  pub ahead_trans : (a b c : NodeId) → ahead w a b ≡ true → ahead w b c ≡ true → ahead w a c ≡ true
  ahead_trans a b c h k = ground (arith, text_ltb_trans a b c)

  ahead_asym : (a b : NodeId) → ahead w a b ≡ true → ahead w b a ≡ false
  ahead_asym a b h = ground (arith, text_ltb_trans a b a, text_ltb_irrefl a)

  ahead_total : (a b : NodeId) → (a ≡ b) ⊎ ((ahead w a b ≡ true) ⊎ (ahead w b a ≡ true))
  ahead_total a b = ground (arith, text_ltb_total a b)

  pub ahead_irrefl : (a : NodeId) → ahead w a a ≡ false
  ahead_irrefl a = ground (arith, text_ltb_irrefl a)

  -- `n` is listed, and no listed node is ahead of it.
  pub record Leads (n : NodeId) (ns : List NodeId) : Type 0 where
    pub listed : contains n ns ≡ true
    pub unbeaten : (m : NodeId) → contains m ns ≡ true → ahead w m n ≡ false

  not_ahead_trans :
      (a b c : NodeId) → ahead w b a ≡ false → ahead w c b ≡ false → ahead w c a ≡ false
  not_ahead_trans a b c h k = ground (arith, ahead_trans c a b, ahead_total a b, ahead_trans b c a)

  -- A leader of the rest and of the better of two leads them all.
  Leads-pair :
      (best n kept r : NodeId) (ns : List NodeId)
      → ((kept ≡ best) × (ahead w n best ≡ false)) ⊎ ((kept ≡ n) × (ahead w best n ≡ false))
      → Leads r (kept ∷ ns)
      → Leads r (best ∷ n ∷ ns)
  Leads-pair best n kept r ns (inl (e, h)) l = record {
    listed = ground (arith, l.listed, e);
    unbeaten = λ m k. ground (
      arith,
      k,
      l.unbeaten m,
      l.unbeaten best,
      not_ahead_trans r best n,
      text_eqb_sound m best,
      text_eqb_sound m n,
      text_eqb_refl best,
      e,
      h,
    );
  }
  Leads-pair best n kept r ns (inr (e, h)) l = record {
    listed = ground (arith, l.listed, e);
    unbeaten = λ m k. ground (
      arith,
      k,
      l.unbeaten m,
      l.unbeaten n,
      not_ahead_trans r n best,
      text_eqb_sound m best,
      text_eqb_sound m n,
      text_eqb_refl n,
      e,
      h,
    );
  }

  max_by_from-Leads : (best : NodeId) (ns : List NodeId) → Leads (max_by_from w best ns) (best ∷ ns)
  max_by_from-Leads best [] = record {
    listed = ground (arith, text_eqb_refl best);
    unbeaten = λ m k. ground (arith, k, text_eqb_sound m best, ahead_irrefl best);
  }
  max_by_from-Leads best (n ∷ ns) = elim (Bool-cases (ahead w best n)) [
    | inl e ↦ rw e (
        Leads-pair best n best (max_by_from w best ns) ns (inl (refl, ahead_asym best n e))
          (max_by_from-Leads best ns))
    | inr e ↦
        rw e (Leads-pair best n n (max_by_from w n ns) ns (inr (refl, e)) (max_by_from-Leads n ns))
  ]

  Leads-unique :
      (a b : NodeId) (ns ms : List NodeId)
      → ((x : NodeId) → contains x ns ≡ contains x ms)
      → Leads a ns
      → Leads b ms
      → a ≡ b
  Leads-unique a b ns ms same la lb =
      ground
        (arith, ahead_total a b, la.unbeaten b, lb.unbeaten a, same a, same b, la.listed, lb.listed)

  pub max_by-Leads : (ns : List NodeId) (n : NodeId) → max_by w ns ≡ some n → Leads n ns
  max_by-Leads [] n e = ground arith
  max_by-Leads (x ∷ ns) n e =
      subst (λ m. Leads m (x ∷ ns)) (ground (arith, e)) (max_by_from-Leads x ns)

  pub Leads-max_by : (ns : List NodeId) (n : NodeId) → Leads n ns → max_by w ns ≡ some n
  Leads-max_by [] n l = ground (arith, l.listed)
  Leads-max_by (x ∷ ns) n l =
      ap some (
        Leads-unique (max_by_from w x ns) n (x ∷ ns) (x ∷ ns) (λ y. refl) (max_by_from-Leads x ns)
          l)

  pub max_by-same :
      (ns ms : List NodeId)
      → ((x : NodeId) → contains x ns ≡ contains x ms)
      → max_by w ns ≡ max_by w ms
  max_by-same [] [] same = refl
  max_by-same [] (x ∷ ms) same = ground (arith, same x, text_eqb_refl x)
  max_by-same (x ∷ ns) [] same = ground (arith, same x, text_eqb_refl x)
  max_by-same (x ∷ ns) (y ∷ ms) same = ap some (
      Leads-unique (max_by_from w x ns) (max_by_from w y ms) (x ∷ ns) (y ∷ ms) same
        (max_by_from-Leads x ns) (max_by_from-Leads y ms))
