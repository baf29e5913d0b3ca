-- ===== src/Core/Book/Trust.antt =====
-- The refusals of a book that is not live, and what its claim to be verified rests on.
use market_aggregator.Common.{
  ℕ, true, false, Option, none, some, List, [], ◌∷◌, ◌≡◌, ◌⊎◌, refl, arith, Text, Result, ok, err,
  Bool-cases, inl, inr, ap, ◌∙◌,
}
use market_aggregator.Core.Decimal.{Decimal}
use market_aggregator.Core.Time.{IngestTime, WallTime, time_eqb, wall_eqb}
use market_aggregator.Core.Event.{VenueId, bid, ask, Level}
use market_aggregator.Core.Levels.{apply_levels}
use market_aggregator.Core.Book.{
  Book, BookState, BookStateKind, DesyncReason, Integrity, is_live, state_kind, best, guard_crossed,
  prune, new, with_max_depth, mark_desynced, apply_delta, mark_verified, verified_state,
  same_status, reason_eqb,
}
use market_aggregator.Core.Book.Validity.{Uncrossed}
use market_aggregator.Core.Book.Status.{
  Call, step, run, opened, CrossedAt, Guards, guard_crossed-Guards, prune-state,
  apply_snapshot_outcome,
}

wall_eqb_refl : (w : WallTime) → wall_eqb w w ≡ true
wall_eqb_refl (WallTime.after_epoch n) = ground arith
wall_eqb_refl (WallTime.before_epoch n) = ground arith

time_eqb_refl : (t : IngestTime) → time_eqb t t ≡ true
time_eqb_refl t = ground (arith, wall_eqb_refl t.wall)

module _ {D : Type 0} ⦃dec : Decimal D⦄ where
  -- What `apply_delta` does, in every case: refused and nothing changed, or applied at `at` with
  -- the state kept and no crossing, or applied and desynced for the crossing.
  abbrev pub DeltaOutcome : Book D → IngestTime → Book D × Result (Unit {0}) BookStateKind → Type 0
  DeltaOutcome b at out =
      ((is_live b.state ≡ false) × (out ≡ (b, err (state_kind b.state))))
      ⊎ ((is_live b.state ≡ true)
          × (out.1 ≡ ok tt)
          × (out.0.last_update ≡ some at)
          × (((out.0.state ≡ b.state) × Uncrossed (best out.0 bid) (best out.0 ask))
              ⊎ ((reason : DesyncReason D) × CrossedAt out.0 reason
                  × (out.0.state ≡ BookState.desynced at reason))))

  -- A delta on a book that is not live is refused with the kind of its state and changes nothing.
  -- On a live book it succeeds and stamps the time, and keeps the state just if the best levels
  -- do not cross; if they do, the book is desynced with those two prices.
  pub apply_delta_outcome :
      (b : Book D) (bids asks : List (Level D)) (at : IngestTime)
      → DeltaOutcome b at (apply_delta b bids asks at)
  unfolding apply_delta
  apply_delta_outcome b bids asks at = elim (Bool-cases (is_live b.state)) [
    | inr dead ↦ rw dead (inl (refl, refl))
    | inl alive ↦ rw alive (
        let (stamp, rest) =
          applied (prune-state updated) (guard_crossed-Guards (prune updated) at) in
        inr (refl, refl, stamp, rest))
  ]
    where
      updated : Book D
      updated = record b {
        bids = apply_levels b.bids bids;
        asks = apply_levels b.asks asks;
        last_update = some at;
      }

      applied :
          ((prune updated).state ≡ b.state) × ((prune updated).last_update ≡ some at)
          → Guards (prune updated) at (guard_crossed (prune updated) at)
          → let b' = (guard_crossed (prune updated) at).0 in
            (b'.last_update ≡ some at)
            × (((b'.state ≡ b.state) × Uncrossed (best b' bid) (best b' ask))
                ⊎ ((reason : DesyncReason D) × CrossedAt b' reason
                    × (b'.state ≡ BookState.desynced at reason)))
      applied p (inl (e, u)) =
          (ap (λ o. o.0.last_update) e ∙ p.1, inl (ap (λ o. o.0.state) e ∙ p.0, u))
      applied p (inr (reason, c, e)) =
          (ap (λ o. o.0.last_update) e ∙ p.1, inr (reason, c, ap (λ o. o.0.state) e))

  reason_eqb_refl : (r : DesyncReason D) → reason_eqb r r ≡ true
  reason_eqb_refl (DesyncReason.sequence_gap a b) = ground arith
  reason_eqb_refl (DesyncReason.checksum_mismatch a b) = ground arith
  reason_eqb_refl (DesyncReason.timestamp_regression a b) = ground arith
  reason_eqb_refl (DesyncReason.crossed_book a b) = ground arith
  reason_eqb_refl DesyncReason.connection_lost = refl
  reason_eqb_refl DesyncReason.awaiting_snapshot = refl
  reason_eqb_refl (DesyncReason.audit_mismatch a b) = ground arith
  reason_eqb_refl DesyncReason.snapshot_gap = refl

  -- A checksum match is no change of status, whatever the state of the book.
  pub same_status-mark_verified :
      (b : Book D) (at : IngestTime) → same_status b.state (mark_verified b at).state ≡ true
  unfolding same_status mark_verified
  same_status-mark_verified b at = status b.state
    where
      status : (s : BookState D) → same_status s (verified_state s at) ≡ true
      status BookState.uninitialized = refl
      status (BookState.live Integrity.verified t v) = ground (arith, time_eqb_refl t)
      status (BookState.live Integrity.order_only t v) = ground (arith, time_eqb_refl t)
      status (BookState.live Integrity.gap_detectable t v) = ground (arith, time_eqb_refl t)
      status (BookState.desynced t r) = ground (arith, time_eqb_refl t, reason_eqb_refl r)

  -- A state with a time of verification is live at `verified`.
  abbrev pub IsEarned : BookState D → Type 0
  IsEarned (BookState.live i s (some t)) = i ≡ Integrity.verified
  IsEarned _ = Unit

  verified_state-IsEarned :
      (s : BookState D) (at : IngestTime) → IsEarned s → IsEarned (verified_state s at)
  verified_state-IsEarned (BookState.live Integrity.verified t v) at h = refl
  verified_state-IsEarned (BookState.live Integrity.order_only t v) at h = h
  verified_state-IsEarned (BookState.live Integrity.gap_detectable t v) at h = h
  verified_state-IsEarned BookState.uninitialized at h = tt
  verified_state-IsEarned (BookState.desynced t r) at h = tt

  IsEarned-of_eq : (s t : BookState D) → t ≡ s → IsEarned s → IsEarned t
  IsEarned-of_eq s t e h = rw e h

  step-IsEarned : (b : Book D) (c : Call D) → IsEarned b.state → IsEarned (step b c).state
  unfolding step mark_desynced mark_verified
  step-IsEarned b (Call.snapshots bids asks i at) h =
      elim (apply_snapshot_outcome b bids asks i at).1 [
        | inl (_, e, _) ↦ IsEarned-of_eq _ _ e tt
        | inr (r, _, _, e) ↦ IsEarned-of_eq _ _ e tt
      ]
  step-IsEarned b (Call.deltas bids asks at) h = elim (apply_delta_outcome b bids asks at) [
    | inl (_, e) ↦ IsEarned-of_eq _ _ (ap (λ o. o.0.state) e) h
    | inr (_, _, _, inl (e, _)) ↦ IsEarned-of_eq _ _ e h
    | inr (_, _, _, inr (r, _, e)) ↦ IsEarned-of_eq _ _ e tt
  ]
  step-IsEarned b (Call.desyncs r at) h = tt
  step-IsEarned b (Call.verifies at) h = verified_state-IsEarned b.state at h

  run_from-IsEarned :
      (b : Book D) (cs : List (Call D)) → IsEarned b.state → IsEarned (run b cs).state
  unfolding run
  run_from-IsEarned b [] h = h
  run_from-IsEarned b (c ∷ cs) h = run_from-IsEarned (step b c) cs (step-IsEarned b c h)

  -- Whatever calls are made on a new book, a time of verification stands only in a live state of
  -- integrity `verified`.
  pub run-IsEarned :
      (venue : VenueId) (symbol : Text) (depth : Option ℕ) (cs : List (Call D))
      → IsEarned (run (opened venue symbol depth) cs).state
  unfolding new with_max_depth
  run-IsEarned venue symbol none cs = run_from-IsEarned _ cs tt
  run-IsEarned venue symbol (some d) cs = run_from-IsEarned _ cs tt
