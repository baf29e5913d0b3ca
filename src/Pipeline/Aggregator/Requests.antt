-- ===== src/Pipeline/Aggregator/Requests.antt =====
-- When a stream is asked to reconnect.
use market_aggregator.Common.{
  Bool, true, false, [], ◌∷◌, ◌≡◌, ◌≢◌, ◌↔◌, refl, Holds, Holds-map, arith, if◌then◌else◌, ◌&&◌,
}
use market_aggregator.Core.Decimal.{Decimal}
use market_aggregator.Core.Event.{StreamId}
use market_aggregator.Core.Book.{BookState, same_status, needs_fresh_stream}
use market_aggregator.Pipeline.Messages.{IngestMessage, stream_of}
use market_aggregator.Pipeline.Aggregator.{
  VenueState, is_desynced, state_of, requests, handle, counted,
}
use market_aggregator.Pipeline.Aggregator.Landing.{Lands-book, landed, asked, handle-Lands}

module _ {D : Type 0} where
  abbrev pub IsSessionEnd : IngestMessage D → Type 0
  IsSessionEnd (IngestMessage.session_ended stream at end) = Unit
  IsSessionEnd _ = ⊥

  -- Desynced by what only a new subscription repairs.
  abbrev pub IsBroken : BookState D → Type 0
  IsBroken (BookState.desynced start reason) = needs_fresh_stream reason ≡ true
  IsBroken _ = ⊥

choice_iff : (s : StreamId) (b : Bool) → ((if b then s ∷ [] else []) ≡ s ∷ []) ↔ (b ≡ true)
choice_iff s b = (λ e. ground arith, λ e. rw e)

not_synced : true ≢ false
not_synced e = ground arith

no_choice : (s : StreamId) (b : Bool) → (if b && false then s ∷ [] else []) ≢ s ∷ []
no_choice s b e = ground arith

module _ {D : Type 0} ⦃dec : Decimal D⦄ where
  pub record Breaks (m : IngestMessage D) (before after : BookState D) : Type 0 where
    pub goes_on : ¬ IsSessionEnd m
    pub was_synced : is_desynced before ≡ false
    pub is_broken : IsBroken after

  requests_iff :
      (stream : StreamId) (before after : BookState D)
      → (requests stream before after ≡ stream ∷ [])
        ↔ ((is_desynced before ≡ false) × IsBroken after)
  unfolding same_status needs_fresh_stream
  requests_iff stream before BookState.uninitialized =
      (λ e. absurd (no_choice stream _ e), λ h. absurd h.1)
  requests_iff stream before (BookState.live i s v) =
      (λ e. absurd (no_choice stream _ e), λ h. absurd h.1)
  requests_iff stream BookState.uninitialized (BookState.desynced s r) = (
    λ e. (refl, (choice_iff stream (needs_fresh_stream r)).0 e),
    λ h. (choice_iff stream (needs_fresh_stream r)).1 h.1,
  )
  requests_iff stream (BookState.live i s v) (BookState.desynced u r) = (
    λ e. (refl, (choice_iff stream (needs_fresh_stream r)).0 e),
    λ h. (choice_iff stream (needs_fresh_stream r)).1 h.1,
  )
  requests_iff stream (BookState.desynced s q) (BookState.desynced u r) =
      (λ e. absurd (no_choice stream _ e), λ h. absurd (not_synced h.0))

  open_iff :
      {m : IngestMessage D} {before after : BookState D} {requested : Type 0}
      → ¬ IsSessionEnd m
      → requested ↔ ((is_desynced before ≡ false) × IsBroken after)
      → requested ↔ Breaks m before after
  open_iff n h = (
    λ r. record { goes_on = n; was_synced = (h.0 r).0; is_broken = (h.0 r).1 },
    λ b. h.1 (b.was_synced, b.is_broken),
  )

  asked_iff :
      (before after : BookState D) (m : IngestMessage D)
      → (asked before after m ≡ stream_of m ∷ []) ↔ Breaks m before after
  asked_iff before after (IngestMessage.session_ended stream at end) =
      (λ e. absurd (ground arith), λ b. absurd (b.goes_on tt))
  asked_iff before after (IngestMessage.frame f) =
      open_iff (λ e. e) (requests_iff f.stream before after)
  asked_iff before after (IngestMessage.event stream e) =
      open_iff (λ e. e) (requests_iff stream before after)

module _ {D S : Type 0} ⦃dec : Decimal D⦄ where
  -- A message that the aggregator gets past makes its stream be asked to reconnect exactly where it
  -- is no end of a session and takes the book, until then not desynced, to one that only a new
  -- subscription repairs.
  pub handle-Breaks :
      (sink : Bool) (v : VenueState D S) (m : IngestMessage D)
      → Holds
          (λ h. (h.1.requested ≡ stream_of m ∷ []) ↔ Breaks m (state_of v) (state_of h.0))
          (handle sink (counted v) m)
  handle-Breaks sink v m =
      Holds-map (handle sink (counted v) m)
        (λ h l.
          rw (l.requested, Lands-book l)
            (asked_iff (state_of v) (state_of (landed (counted v) m)) m))
        (handle-Lands sink (counted v) m)
