-- ===== src/Core/Levels/Lookup.antt =====
-- What a side of the book reads at a price after a list of updates.
use market_aggregator.Common.{
  ℕ, Option, none, some, List, [], ◌∷◌, ◌≡◌, ◌≤◌, arith, refl, not, keep_if, if◌then◌else◌,
}
use market_aggregator.Core.Decimal.{Decimal, is_delete, price_eqb}
use market_aggregator.Core.Event.{Level}
use market_aggregator.Core.Levels.{
  insert, remove, lookup, apply_level, apply_levels, load_level, load_levels, Above, IsSorted,
}
use market_aggregator.Core.Levels.Order.{apply_level-IsSorted}

module _ {D : Type 0} ⦃dec : Decimal D⦄ where
  -- The quantity of the last update at `p`, if one is at `p`.
  unfoldable pub last_at : D → List (Level D) → Option D
  last_at p [] = none
  last_at p (l ∷ ls) = elim (last_at p ls) [
    | some q ↦ some q
    | none ↦ if price_eqb p l.price then some l.qty else none
  ]

  -- A quantity as the book holds it: zero is no level.
  abbrev pub held : D → Option D
  held q = if is_delete q then none else some q

  -- What a list of updates leaves at `p`: the last one there decides, else what was there before.
  abbrev pub after_updates : D → List (Level D) → Option D → Option D
  after_updates p ls before = elim (last_at p ls) [ some q ↦ held q | none ↦ before ]

  lookup-insert :
      (p : D) (l : Level D) (side : List (Level D))
      → lookup p (insert l side) ≡ (if price_eqb p l.price then some l.qty else lookup p side)
  unfolding insert lookup
  lookup-insert p l [] = refl
  lookup-insert p l (x ∷ xs) = ground (arith, lookup-insert p l xs)

  lookup-Above :
      (p : D) (k : ℕ) (side : List (Level D)) → dec.rank p ≤ k → Above k side → lookup p side ≡ none
  unfolding lookup
  lookup-Above p k [] h a = refl
  lookup-Above p k (x ∷ xs) h a = ground (arith, lookup-Above p k xs h a.1)

  lookup-remove :
      (p q : D) (side : List (Level D))
      → IsSorted side
      → lookup p (remove q side) ≡ (if price_eqb p q then none else lookup p side)
  unfolding remove lookup
  lookup-remove p q [] s = ground arith
  lookup-remove p q (x ∷ xs) s =
      ground (arith, lookup-remove p q xs s.1, lookup-Above p (dec.rank x.price) xs)

  lookup-apply_level :
      (p : D) (l : Level D) (side : List (Level D))
      → IsSorted side
      → lookup p (apply_level side l) ≡ (if price_eqb p l.price then held l.qty else lookup p side)
  unfolding apply_level
  lookup-apply_level p l side s =
      ground (arith, lookup-insert p l side, lookup-remove p l.price side s)

  -- Reading a price after `apply_levels` gives what the last update at that price says.
  pub lookup-apply_levels :
      (p : D) (side ls : List (Level D))
      → IsSorted side
      → lookup p (apply_levels side ls) ≡ after_updates p ls (lookup p side)
  unfolding apply_levels last_at
  lookup-apply_levels p side [] s = refl
  lookup-apply_levels p side (l ∷ ls) s = ground (
    arith,
    lookup-apply_levels p (apply_level side l) ls (apply_level-IsSorted l side s),
    lookup-apply_level p l side s,
  )

  pub lookup-load_levels :
      (p : D) (side ls : List (Level D))
      → lookup p (load_levels side ls)
        ≡ elim (last_at p (keep_if (λ (l : Level D). not (is_delete l.qty)) ls)) [
          | some q ↦ some q
          | none ↦ lookup p side
        ]
  unfolding load_levels load_level last_at
  lookup-load_levels p side [] = refl
  lookup-load_levels p side (l ∷ ls) =
      ground (arith, lookup-load_levels p (load_level side l) ls, lookup-insert p l side)
