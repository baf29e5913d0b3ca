-- ===== src/Core/Levels/Depth.antt =====
-- The depth limit of a side, and its best end.
use mathlib.Core.List.{reverse-cons}
use Prim.Native.Nat.{pred}
use market_aggregator.Common.{
  ℕ, zero, suc, some, List, [], ◌∷◌, ◌++◌, ◌≡◌, ◌<◌, ◌≤◌, arith, refl, sym, ap, ◌∙◌, All, length,
  length-append, length-take, reverse, take, last?, min, ltb, Bool-cases, inl, inr, ltb→lt,
}
use market_aggregator.Core.Decimal.{Decimal}
use market_aggregator.Core.Event.{Level, bid, ask}
use market_aggregator.Core.Levels.{
  prune_bids, prune_asks, prune_asks_from, remove_last, best_of, top_of, Above, IsSorted,
}

module _ {ℓ} {A : Type ℓ} where
  length-reverse : (xs : List A) → length (reverse xs) ≡ length xs
  length-reverse [] = refl
  length-reverse (x ∷ xs) =
      omega (
        arith,
        ap length (reverse-cons x xs),
        length-append (reverse xs) (x ∷ []),
        length-reverse xs,
      )

  take-append_left : (n : ℕ) (xs ys : List A) → n ≤ length xs → take n (xs ++ ys) ≡ take n xs
  take-append_left zero xs ys h = refl
  take-append_left (suc n) [] ys h = absurd (omega arith)
  take-append_left (suc n) (x ∷ xs) ys h = ap (◌∷◌ x) (take-append_left n xs ys (omega arith))

  last?-cons : (x : A) (xs : List A) → 0 < length xs → last? (x ∷ xs) ≡ last? xs
  last?-cons x [] h = absurd (omega arith)
  last?-cons x (y ∷ ys) h = refl

module _ {D : Type 0} ⦃dec : Decimal D⦄ where
  pub length-prune_bids :
      (k : ℕ) (side : List (Level D)) → length (prune_bids k side) ≡ min k (length side)
  unfolding prune_bids
  length-prune_bids k [] = omega arith
  length-prune_bids k (x ∷ xs) = ground (arith, length-prune_bids k xs)

  -- The best `n` bids are untouched by a limit of at least `n`.
  pub top_of-prune_bids :
      (n k : ℕ) (side : List (Level D))
      → n ≤ k
      → top_of bid n (prune_bids k side) ≡ top_of bid n side
  unfolding prune_bids top_of
  top_of-prune_bids n k [] h = refl
  top_of-prune_bids n k (x ∷ xs) h = elim (Bool-cases (ltb k (suc (length xs)))) [
    | inl over ↦ rw over (
        top_of-prune_bids n k xs h
        ∙ sym (
            ap (take n) (reverse-cons x xs)
            ∙ take-append_left n (reverse xs) (x ∷ [])
                (omega (arith, length-reverse xs, ltb→lt _ _ over))))
    | inr fits ↦ rw fits
  ]

  pub best_of-prune_bids :
      (k : ℕ) (side : List (Level D)) → 0 < k → best_of bid (prune_bids k side) ≡ best_of bid side
  unfolding prune_bids best_of
  best_of-prune_bids k [] h = refl
  best_of-prune_bids k (x ∷ xs) h = ground (arith, best_of-prune_bids k xs h, last?-cons x xs)

  length-remove_last : (side : List (Level D)) → length (remove_last side) ≡ pred (length side)
  unfolding remove_last
  length-remove_last [] = refl
  length-remove_last (x ∷ []) = refl
  length-remove_last (x ∷ y ∷ ys) = omega (arith, length-remove_last (y ∷ ys))

  take-remove_last :
      (n : ℕ) (side : List (Level D)) → n < length side → take n (remove_last side) ≡ take n side
  unfolding remove_last
  take-remove_last zero side h = refl
  take-remove_last (suc n) [] h = absurd (omega arith)
  take-remove_last (suc n) (x ∷ []) h = absurd (omega arith)
  take-remove_last (suc n) (x ∷ y ∷ ys) h = ap (◌∷◌ x) (take-remove_last n (y ∷ ys) (omega arith))

  take-all : (n : ℕ) (side : List (Level D)) → length side ≤ n → take n side ≡ side
  take-all zero [] h = refl
  take-all zero (x ∷ xs) h = absurd (omega arith)
  take-all (suc n) [] h = refl
  take-all (suc n) (x ∷ xs) h = ap (◌∷◌ x) (take-all n xs (omega arith))

  prune_asks_from-take :
      (f k : ℕ) (side : List (Level D)) → length side ≤ f → prune_asks_from f k side ≡ take k side
  unfolding prune_asks_from
  prune_asks_from-take zero k side h = sym (take-all k side (omega arith))
  prune_asks_from-take (suc f) k side h = ground (
    arith,
    prune_asks_from-take f k (remove_last side),
    length-remove_last side,
    take-remove_last k side,
    take-all k side,
  )

  -- The loop over the asks keeps exactly the `k` lowest.
  pub prune_asks-take : (k : ℕ) (side : List (Level D)) → prune_asks k side ≡ take k side
  unfolding prune_asks
  prune_asks-take k side = prune_asks_from-take (length side) k side (omega arith)

  -- No bid is above the best bid.
  pub best_bid_max :
      (side : List (Level D)) {b : Level D}
      → IsSorted side
      → best_of bid side ≡ some b
      → All (λ l. dec.rank l.price ≤ dec.rank b.price) side
  unfolding best_of
  best_bid_max [] s e = tt
  best_bid_max (x ∷ []) s e = ground arith
  best_bid_max (x ∷ y ∷ ys) s e = let rest = best_bid_max (y ∷ ys) s.1 e in (omega arith, rest)

  Above-ge :
      (x : Level D) (side : List (Level D))
      → Above (dec.rank x.price) side
      → All (λ l. dec.rank x.price ≤ dec.rank l.price) side
  Above-ge x [] a = tt
  Above-ge x (y ∷ ys) a = (omega arith, Above-ge x ys a.1)

  -- No ask is below the best ask.
  pub best_ask_min :
      (side : List (Level D)) {b : Level D}
      → IsSorted side
      → best_of ask side ≡ some b
      → All (λ l. dec.rank b.price ≤ dec.rank l.price) side
  unfolding best_of
  best_ask_min [] s e = tt
  best_ask_min (x ∷ xs) s e = ground (arith, Above-ge x xs s.0)

  pub length-prune_asks :
      (k : ℕ) (side : List (Level D)) → length (prune_asks k side) ≡ min k (length side)
  length-prune_asks k side = rw (prune_asks-take k side) (length-take k side)
