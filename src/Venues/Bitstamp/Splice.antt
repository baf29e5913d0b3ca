-- ===== src/Venues/Bitstamp/Splice.antt =====
-- What a REST snapshot makes of the diffs that came before it.
use market_aggregator.Common.{
  ℕ, ◌<◌, Bool, false, List, [], ◌∷◌, ◌≡◌, refl, ap, ◌∙◌, arith, All, map, keep_if, ltb, leb,
  Bool-cases, inl, inr,
}
use market_aggregator.Venues.Sync.{RestSnapshot, SyncAction}
use market_aggregator.Venues.Bitstamp.{
  BitstampSync, Mode, PendingDiff, pending_of, sort_one, sort_diffs, splice_from, splice,
}

module _ {D : Type 0} where
  -- Every diff is newer than `last`.
  abbrev pub Newer : ℕ → List (PendingDiff D) → Type 0
  Newer last ds = All (λ d. last < d.micros) ds

  -- Timestamps ascend strictly, as the venue sends them.
  abbrev pub IsRising : List (PendingDiff D) → Type 0
  IsRising [] = Unit
  IsRising (d ∷ ds) = Newer d.micros ds × IsRising ds

  abbrev pub as_delta : PendingDiff D → SyncAction D
  as_delta d = SyncAction.delta d.bids d.asks

  abbrev pub last_micros : ℕ → List (PendingDiff D) → ℕ
  last_micros last [] = last
  last_micros last (d ∷ ds) = last_micros d.micros ds

  keep_if-All :
      (P : PendingDiff D → Type 0) (p : PendingDiff D → Bool) (ds : List (PendingDiff D))
      → All P ds
      → All P (keep_if p ds)
  keep_if-All P p [] h = tt
  keep_if-All P p (d ∷ ds) h = elim (Bool-cases (p d)) [
    | inl e ↦ rw e (h.0, keep_if-All P p ds h.1)
    | inr e ↦ rw e (keep_if-All P p ds h.1)
  ]

  keep_if-IsRising :
      (p : PendingDiff D → Bool) (ds : List (PendingDiff D)) → IsRising ds → IsRising (keep_if p ds)
  keep_if-IsRising p [] h = tt
  keep_if-IsRising p (d ∷ ds) h = elim (Bool-cases (p d)) [
    | inl e ↦ rw e (keep_if-All (λ x. d.micros < x.micros) p ds h.0, keep_if-IsRising p ds h.1)
    | inr e ↦ rw e (keep_if-IsRising p ds h.1)
  ]

  keep_if-Newer :
      (as_of : ℕ) (ds : List (PendingDiff D)) → Newer as_of (keep_if (λ d. ltb as_of d.micros) ds)
  keep_if-Newer as_of [] = tt
  keep_if-Newer as_of (d ∷ ds) = elim (Bool-cases (ltb as_of d.micros)) [
    | inl e ↦ rw e (ground (arith, e), keep_if-Newer as_of ds)
    | inr e ↦ rw e (keep_if-Newer as_of ds)
  ]

  sort_one-front :
      (d : PendingDiff D) (ds : List (PendingDiff D)) → Newer d.micros ds → sort_one d ds ≡ d ∷ ds
  unfolding sort_one
  sort_one-front d [] h = refl
  sort_one-front d (e ∷ es) h = ground (arith, h.0)

  sort_diffs-IsRising : (ds : List (PendingDiff D)) → IsRising ds → sort_diffs ds ≡ ds
  unfolding sort_diffs
  sort_diffs-IsRising [] h = refl
  sort_diffs-IsRising (d ∷ ds) h = rw (sort_diffs-IsRising ds h.1) (sort_one-front d ds h.0)

  splice_from-IsRising :
      (last : ℕ) (ds : List (PendingDiff D))
      → Newer last ds
      → IsRising ds
      → splice_from last ds ≡ (last_micros last ds, map as_delta ds)
  unfolding splice_from
  splice_from-IsRising last [] n r = refl
  splice_from-IsRising last (d ∷ ds) n r = rw (newer, splice_from-IsRising d.micros ds r.0 r.1) refl
    where
      newer : leb d.micros last ≡ false
      newer = ground (arith, n.0)

  -- When the buffered diffs rise strictly in time, a REST snapshot is passed on first, then every
  -- buffered diff that is newer than it, in order, and none as a desync. The venue is then live
  -- from the newest of them, or from the snapshot if there is none.
  pub splice-IsRising :
      (s : BitstampSync D) (snap : RestSnapshot D)
      → IsRising (pending_of s.mode)
      → let fresh = keep_if (λ (d : PendingDiff D). ltb snap.as_of d.micros) (pending_of s.mode) in
        ((splice s snap).1 ≡ SyncAction.snapshot snap.bids snap.asks ∷ map as_delta fresh)
        × ((splice s snap).0.mode ≡ Mode.live (last_micros snap.as_of fresh) snap.as_of)
  unfolding splice
  splice-IsRising s snap r = (
    ap (λ o. SyncAction.snapshot snap.bids snap.asks ∷ o.1) out,
    ap (λ o. Mode.live o.0 snap.as_of) out,
  )
    where
      fresh : List (PendingDiff D)
      fresh = keep_if (λ d. ltb snap.as_of d.micros) (pending_of s.mode)

      rising : IsRising fresh
      rising = keep_if-IsRising (λ d. ltb snap.as_of d.micros) (pending_of s.mode) r

      out :
          splice_from snap.as_of (sort_diffs fresh)
          ≡ (last_micros snap.as_of fresh, map as_delta fresh)
      out =
          ap (splice_from snap.as_of) (sort_diffs-IsRising fresh rising)
          ∙ splice_from-IsRising snap.as_of fresh (keep_if-Newer snap.as_of (pending_of s.mode))
              rising
