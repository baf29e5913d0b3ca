-- ===== src/Core/Levels.antt =====
-- One side of the book, crates/ma-core/src/book.rs: a `BTreeMap<Price, Qty>` as the list of its
-- entries, ascending by price. The standard library's `insert` keeps the key that it finds.
pub mod Order
pub mod Lookup
pub mod Depth
use market_aggregator.Common.{
  ℕ, zero, suc, Bool, true, false, Option, none, some, List, [], ◌∷◌, ◌≡◌, ◌<◌, ◌++◌, compare,
  Ordering, length, All, ltb, ◌==◌, reverse, take, first?, last?, if◌then◌else◌, not,
}
use market_aggregator.Core.Decimal.{Decimal, is_delete, price_eqb}
use market_aggregator.Core.Event.{Level, Side, bid, ask}

module _ {D : Type 0} ⦃dec : Decimal D⦄ where
  -- `BTreeMap::insert`.
  unfoldable pub insert : Level D → List (Level D) → List (Level D)
  insert l [] = l ∷ []
  insert l (x ∷ xs) = elim (compare (dec.rank l.price) (dec.rank x.price)) [
    | Ordering.lt ↦ l ∷ x ∷ xs
    | Ordering.eq ↦ record x { qty = l.qty } ∷ xs
    | Ordering.gt ↦ x ∷ insert l xs
  ]

  -- `BTreeMap::remove`.
  unfoldable pub remove : D → List (Level D) → List (Level D)
  remove p [] = []
  remove p (x ∷ xs) = elim (price_eqb p x.price) [ true ↦ xs | false ↦ x ∷ remove p xs ]

  -- `BTreeMap::get`.
  unfoldable pub lookup : D → List (Level D) → Option D
  lookup p [] = none
  lookup p (x ∷ xs) = if price_eqb p x.price then some x.qty else lookup p xs

  -- The loop body of `apply_levels`.
  unfoldable pub apply_level : List (Level D) → Level D → List (Level D)
  apply_level side l = if is_delete l.qty then remove l.price side else insert l side

  -- `apply_levels`: the updates in order, a zero quantity deletes.
  unfoldable pub apply_levels : List (Level D) → List (Level D) → List (Level D)
  apply_levels side [] = side
  apply_levels side (l ∷ ls) = apply_levels (apply_level side l) ls

  -- The loop body of `apply_snapshot`: a zero quantity is skipped, and deletes nothing.
  unfoldable pub load_level : List (Level D) → Level D → List (Level D)
  load_level side l = if is_delete l.qty then side else insert l side

  unfoldable pub load_levels : List (Level D) → List (Level D) → List (Level D)
  load_levels side [] = side
  load_levels side (l ∷ ls) = load_levels (load_level side l) ls

  -- The bids loop of `prune`: the lowest bid goes while there are more than `limit`.
  unfoldable pub prune_bids : ℕ → List (Level D) → List (Level D)
  prune_bids limit [] = []
  prune_bids limit (x ∷ xs) =
      let rest = prune_bids limit xs in if ltb limit (length (x ∷ xs)) then rest else x ∷ xs

  -- `BTreeMap::remove` at the greatest key.
  unfoldable pub remove_last : List (Level D) → List (Level D)
  remove_last [] = []
  remove_last (x ∷ []) = []
  remove_last (x ∷ y ∷ ys) = x ∷ remove_last (y ∷ ys)

  -- The asks loop of `prune`, on fuel: each round removes one ask, so their number is enough.
  unfoldable pub prune_asks_from : ℕ → ℕ → List (Level D) → List (Level D)
  prune_asks_from zero limit side = side
  prune_asks_from (suc fuel) limit side =
      let rest = prune_asks_from fuel limit (remove_last side) in
      if ltb limit (length side) then rest else side

  unfoldable pub prune_asks : ℕ → List (Level D) → List (Level D)
  prune_asks limit side = prune_asks_from (length side) limit side

  -- `Book::best` on one side: the last bid, the first ask.
  unfoldable pub best_of : Side → List (Level D) → Option (Level D)
  best_of bid side = last? side
  best_of ask side = first? side

  -- `Book::top_levels` on one side: from the best outwards.
  unfoldable pub top_of : Side → ℕ → List (Level D) → List (Level D)
  top_of bid n side = take n (reverse side)
  top_of ask n side = take n side

  -- Every price of the side is above `p`.
  abbrev pub Above : ℕ → List (Level D) → Type 0
  Above p side = All (λ l. p < dec.rank l.price) side

  -- Prices ascend strictly.
  abbrev pub IsSorted : List (Level D) → Type 0
  IsSorted [] = Unit
  IsSorted (x ∷ xs) = Above (dec.rank x.price) xs × IsSorted xs

  -- No level of zero quantity is kept.
  abbrev pub NoDelete : List (Level D) → Type 0
  NoDelete side = All (λ l. is_delete l.qty ≡ false) side
