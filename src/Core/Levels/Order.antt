-- ===== src/Core/Levels/Order.antt =====
-- The operations on one side keep its prices ascending and its quantities not zero.
use market_aggregator.Common.{ℕ, zero, suc, false, List, [], ◌∷◌, ◌≡◌, ◌<◌, ◌≤◌, arith, All, length}
use market_aggregator.Core.Decimal.{Decimal, is_delete}
use market_aggregator.Core.Event.{Level}
use market_aggregator.Core.Levels.{
  insert, remove, apply_level, apply_levels, load_level, load_levels, prune_bids, prune_asks,
  prune_asks_from, remove_last, Above, IsSorted, NoDelete,
}

module _ {D : Type 0} ⦃dec : Decimal D⦄ where
  Above-mono : (p q : ℕ) (side : List (Level D)) → p ≤ q → Above q side → Above p side
  Above-mono p q [] h a = tt
  Above-mono p q (x ∷ xs) h a = (omega arith, Above-mono p q xs h a.1)

  Above-insert :
      (p : ℕ) (l : Level D) (side : List (Level D))
      → p < dec.rank l.price
      → Above p side
      → Above p (insert l side)
  unfolding insert
  Above-insert p l [] h a = (h, tt)
  Above-insert p l (x ∷ xs) h a = ground (arith, Above-insert p l xs h a.1)

  pub insert-IsSorted :
      (l : Level D) (side : List (Level D)) → IsSorted side → IsSorted (insert l side)
  unfolding insert
  insert-IsSorted l [] s = (tt, tt)
  insert-IsSorted l (x ∷ xs) s = ground (
    arith,
    Above-mono (dec.rank l.price) (dec.rank x.price) xs,
    Above-insert (dec.rank x.price) l xs,
    insert-IsSorted l xs s.1,
  )

  Above-remove : (p : ℕ) (q : D) (side : List (Level D)) → Above p side → Above p (remove q side)
  unfolding remove
  Above-remove p q [] a = tt
  Above-remove p q (x ∷ xs) a = ground (arith, Above-remove p q xs a.1)

  pub remove-IsSorted : (q : D) (side : List (Level D)) → IsSorted side → IsSorted (remove q side)
  unfolding remove
  remove-IsSorted q [] s = tt
  remove-IsSorted q (x ∷ xs) s =
      ground (arith, Above-remove (dec.rank x.price) q xs s.0, remove-IsSorted q xs s.1)

  pub apply_level-IsSorted :
      (l : Level D) (side : List (Level D)) → IsSorted side → IsSorted (apply_level side l)
  unfolding apply_level
  apply_level-IsSorted l side s =
      ground (arith, insert-IsSorted l side s, remove-IsSorted l.price side s)

  pub apply_levels-IsSorted :
      (side ls : List (Level D)) → IsSorted side → IsSorted (apply_levels side ls)
  unfolding apply_levels
  apply_levels-IsSorted side [] s = s
  apply_levels-IsSorted side (l ∷ ls) s =
      apply_levels-IsSorted (apply_level side l) ls (apply_level-IsSorted l side s)

  load_level-IsSorted :
      (l : Level D) (side : List (Level D)) → IsSorted side → IsSorted (load_level side l)
  unfolding load_level
  load_level-IsSorted l side s = ground (arith, insert-IsSorted l side s)

  pub load_levels-IsSorted :
      (side ls : List (Level D)) → IsSorted side → IsSorted (load_levels side ls)
  unfolding load_levels
  load_levels-IsSorted side [] s = s
  load_levels-IsSorted side (l ∷ ls) s =
      load_levels-IsSorted (load_level side l) ls (load_level-IsSorted l side s)

  insert-NoDelete :
      (l : Level D) (side : List (Level D))
      → is_delete l.qty ≡ false
      → NoDelete side
      → NoDelete (insert l side)
  unfolding insert
  insert-NoDelete l [] h n = (h, tt)
  insert-NoDelete l (x ∷ xs) h n = ground (arith, insert-NoDelete l xs h n.1)

  remove-NoDelete : (q : D) (side : List (Level D)) → NoDelete side → NoDelete (remove q side)
  unfolding remove
  remove-NoDelete q [] n = tt
  remove-NoDelete q (x ∷ xs) n = ground (arith, remove-NoDelete q xs n.1)

  apply_level-NoDelete :
      (l : Level D) (side : List (Level D)) → NoDelete side → NoDelete (apply_level side l)
  unfolding apply_level
  apply_level-NoDelete l side n =
      ground (arith, insert-NoDelete l side, remove-NoDelete l.price side n)

  pub apply_levels-NoDelete :
      (side ls : List (Level D)) → NoDelete side → NoDelete (apply_levels side ls)
  unfolding apply_levels
  apply_levels-NoDelete side [] n = n
  apply_levels-NoDelete side (l ∷ ls) n =
      apply_levels-NoDelete (apply_level side l) ls (apply_level-NoDelete l side n)

  load_level-NoDelete :
      (l : Level D) (side : List (Level D)) → NoDelete side → NoDelete (load_level side l)
  unfolding load_level
  load_level-NoDelete l side n = ground (arith, insert-NoDelete l side)

  pub load_levels-NoDelete :
      (side ls : List (Level D)) → NoDelete side → NoDelete (load_levels side ls)
  unfolding load_levels
  load_levels-NoDelete side [] n = n
  load_levels-NoDelete side (l ∷ ls) n =
      load_levels-NoDelete (load_level side l) ls (load_level-NoDelete l side n)

  pub prune_bids-IsSorted :
      (k : ℕ) (side : List (Level D)) → IsSorted side → IsSorted (prune_bids k side)
  unfolding prune_bids
  prune_bids-IsSorted k [] s = tt
  prune_bids-IsSorted k (x ∷ xs) s = ground (arith, prune_bids-IsSorted k xs s.1)

  pub prune_bids-All {ℓ} :
      (P : Level D → Type ℓ) (k : ℕ) (side : List (Level D))
      → All P side
      → All P (prune_bids k side)
  unfolding prune_bids
  prune_bids-All P k [] s = tt
  prune_bids-All P k (x ∷ xs) s = ground (arith, prune_bids-All P k xs s.1)

  remove_last-All {ℓ} :
      (P : Level D → Type ℓ) (side : List (Level D)) → All P side → All P (remove_last side)
  unfolding remove_last
  remove_last-All P [] s = tt
  remove_last-All P (x ∷ []) s = tt
  remove_last-All P (x ∷ y ∷ ys) s = (s.0, remove_last-All P (y ∷ ys) s.1)

  remove_last-IsSorted : (side : List (Level D)) → IsSorted side → IsSorted (remove_last side)
  unfolding remove_last
  remove_last-IsSorted [] s = tt
  remove_last-IsSorted (x ∷ []) s = tt
  remove_last-IsSorted (x ∷ y ∷ ys) s =
      (remove_last-All _ (y ∷ ys) s.0, remove_last-IsSorted (y ∷ ys) s.1)

  prune_asks_from-IsSorted :
      (f k : ℕ) (side : List (Level D)) → IsSorted side → IsSorted (prune_asks_from f k side)
  unfolding prune_asks_from
  prune_asks_from-IsSorted zero k side s = s
  prune_asks_from-IsSorted (suc f) k side s =
      ground (arith, prune_asks_from-IsSorted f k (remove_last side) (remove_last-IsSorted side s))

  pub prune_asks-IsSorted :
      (k : ℕ) (side : List (Level D)) → IsSorted side → IsSorted (prune_asks k side)
  unfolding prune_asks
  prune_asks-IsSorted k side s = prune_asks_from-IsSorted (length side) k side s

  prune_asks_from-All {ℓ} :
      (P : Level D → Type ℓ) (f k : ℕ) (side : List (Level D))
      → All P side
      → All P (prune_asks_from f k side)
  unfolding prune_asks_from
  prune_asks_from-All P zero k side s = s
  prune_asks_from-All P (suc f) k side s =
      ground (arith, prune_asks_from-All P f k (remove_last side) (remove_last-All P side s))

  pub prune_asks-All {ℓ} :
      (P : Level D → Type ℓ) (k : ℕ) (side : List (Level D))
      → All P side
      → All P (prune_asks k side)
  unfolding prune_asks
  prune_asks-All P k side s = prune_asks_from-All P (length side) k side s
