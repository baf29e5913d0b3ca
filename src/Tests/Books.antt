-- ===== src/Tests/Books.antt =====
-- Books, audits and the theorems about them.
use market_aggregator.Common.{
  ℕ, ◌≤◌, Option, none, some, List, [], ◌∷◌, ◌≡◌, ◌⊎◌, inl, refl, arith, ok, err, Text,
}
use market_aggregator.Core.Event.{VenueId, bid, ask}
use market_aggregator.Core.Levels.{
  lookup, load_levels, load_level, apply_levels, apply_level, insert, remove, best_of,
}
use market_aggregator.Core.Levels.Lookup.{last_at}
use market_aggregator.Core.Book.{
  Book, BookState, DesyncReason, Integrity, apply_delta, apply_snapshot, best, prune, mark_verified,
  new, guard_crossed,
}
use market_aggregator.Core.Book.Validity.{IsValid, Uncrossed}
use market_aggregator.Core.Book.Contents.{lookup-apply_delta, lookup-apply_snapshot}
use market_aggregator.Core.Book.Status.{
  Call, CrossedAt, run, step, opened, run-IsValid, apply_snapshot_outcome,
}
use market_aggregator.Core.Book.Trust.{DeltaOutcome, apply_delta_outcome}
use market_aggregator.Core.Audit.{
  AuditOutcome, AuditFinding, default_policy, observe, empty_trail, outcome_prices, price_set_onto,
  set_insert, set_contains,
}
use market_aggregator.Core.Audit.Trail.{Persistent, watch, observe-Persistent}
use market_aggregator.Core.Audit.Repeat.{observe_repeat_desyncs}
use market_aggregator.Tests.Data.{whole, lv, at_ms, some_bids, some_asks}

abbrev symbol : Text
symbol = 66 ∷ []

abbrev calls : List (Call ℕ)
calls =
    Call.snapshots some_bids some_asks Integrity.verified (at_ms 1)
    ∷ Call.deltas (lv 99 3 ∷ lv 96 0 ∷ []) (lv 102 8 ∷ []) (at_ms 2)
    ∷ Call.verifies (at_ms 3)
    ∷ []

-- The book after `calls`, written out.
abbrev quoted : Option ℕ → Book ℕ
quoted depth = record {
  venue = VenueId.fake;
  symbol = symbol;
  bids = lv 98 4 ∷ lv 99 3 ∷ [];
  asks = lv 101 5 ∷ lv 102 8 ∷ lv 103 1 ∷ [];
  state = BookState.live Integrity.verified (at_ms 1) (some (at_ms 3));
  last_update = some (at_ms 2);
  max_depth = depth;
}

run-calls : run (opened VenueId.fake symbol none) calls ≡ quoted none
unfolding run step apply_snapshot apply_delta mark_verified guard_crossed prune best new load_levels
    load_level apply_levels apply_level insert remove best_of
run-calls = refl

-- A bid at the best ask desyncs the book.
crossing_delta :
    (apply_delta (quoted none) (lv 101 1 ∷ []) [] (at_ms 4)).0.state
    ≡ BookState.desynced (at_ms 4) (DesyncReason.crossed_book 101 101)
unfolding apply_snapshot apply_delta mark_verified guard_crossed prune best new load_levels
    load_level apply_levels apply_level insert remove best_of
crossing_delta = refl

run-IsValid_example : IsValid (run (opened VenueId.fake symbol (some 2)) calls)
run-IsValid_example = run-IsValid VenueId.fake symbol (some 2) calls

quoted-IsValid : IsValid (quoted none)
unfolding best best_of
quoted-IsValid = ground arith

apply_delta_outcome_example :
    DeltaOutcome (quoted none) (at_ms 4) (apply_delta (quoted none) (lv 101 1 ∷ []) [] (at_ms 4))
apply_delta_outcome_example = apply_delta_outcome (quoted none) (lv 101 1 ∷ []) [] (at_ms 4)

apply_snapshot_outcome_example :
    let (b', r) = apply_snapshot (quoted none) some_bids some_asks Integrity.order_only (at_ms 5) in
    (b'.last_update ≡ some (at_ms 5))
    × (((r ≡ ok tt)
          × (b'.state ≡ BookState.live Integrity.order_only (at_ms 5) none)
          × Uncrossed (best b' bid) (best b' ask))
        ⊎ ((reason : DesyncReason ℕ) × CrossedAt b' reason
            × (r ≡ err reason)
            × (b'.state ≡ BookState.desynced (at_ms 5) reason)))
apply_snapshot_outcome_example =
    apply_snapshot_outcome (quoted none) some_bids some_asks Integrity.order_only (at_ms 5)

lookup-apply_delta_example :
    let b' = (apply_delta (quoted none) (lv 99 0 ∷ []) (lv 104 2 ∷ []) (at_ms 4)).0 in
    (lookup 99 b'.bids ≡ none) × (lookup 99 b'.asks ≡ none)
unfolding lookup last_at
lookup-apply_delta_example =
    lookup-apply_delta (quoted none) (lv 99 0 ∷ []) (lv 104 2 ∷ []) (at_ms 4) 99 quoted-IsValid refl
      refl

lookup-apply_snapshot_example :
    let b' = (apply_snapshot (quoted none) some_bids some_asks Integrity.verified (at_ms 4)).0 in
    (lookup 98 b'.bids ≡ some 4) × (lookup 98 b'.asks ≡ none)
unfolding last_at
lookup-apply_snapshot_example =
    lookup-apply_snapshot (quoted none) some_bids some_asks Integrity.verified (at_ms 4) 98 refl

-- A snapshot that has another quantity at the best bid.
abbrev odd : AuditFinding ℕ
odd = record { side = bid; price = 99; ours = some 3; theirs = some 4 }

abbrev odd_outcome : AuditOutcome ℕ
odd_outcome = AuditOutcome.mismatch (odd ∷ []) 1

observe-Persistent_example :
    (p : ℕ) × (k : ℕ) × (DesyncReason.audit_mismatch 99 2 ≡ DesyncReason.audit_mismatch p k)
    × (2 ≤ k)
    × Persistent p k (odd_outcome ∷ odd_outcome ∷ [])
unfolding observe watch outcome_prices price_set_onto set_insert set_contains
observe-Persistent_example =
    observe-Persistent default_policy (odd_outcome ∷ []) odd_outcome
      (DesyncReason.audit_mismatch 99 2) refl

observe_repeat_desyncs_example :
    let (t', first) = observe empty_trail odd_outcome default_policy in
    ((r : DesyncReason ℕ) × (first ≡ some r))
    ⊎ ((r : DesyncReason ℕ) × ((observe t' odd_outcome default_policy).1 ≡ some r))
observe_repeat_desyncs_example =
    observe_repeat_desyncs default_policy empty_trail (odd ∷ []) (odd ∷ []) 1 1 99 refl
      (omega arith) (inl refl) (inl refl)
