-- ===== src/Venues/Sync/Replay.antt =====
-- Replaying the events that a live run emitted rebuilds the levels that the live run held.
use market_aggregator.Common.{
  ℕ, true, false, Option, none, some, List, [], ◌∷◌, ◌++◌, ◌≡◌, ◌⊎◌, refl, sym, ap, ◌∙◌, subst,
  arith, All, Bool-cases, inl, inr, ◌==◌,
}
use market_aggregator.Core.Decimal.{Decimal}
use market_aggregator.Core.Time.{IngestTime, WallTime}
use market_aggregator.Core.Event.{Level, EventKind, MarketEvent}
use market_aggregator.Core.Book.{
  Book, BookState, DesyncReason, is_live, state_eqb, mark_desynced, mark_verified, apply_delta,
}
use market_aggregator.Core.Book.View.{
  View, view, delta_view, snapshot_view, view-apply_snapshot, view-apply_delta,
}
use market_aggregator.Venues.Sync.{
  VenueSync, VenueBook, SyncAction, Outcome, check, apply_action, apply_actions, apply_ingested,
  apply_event, event_action, emit, change, as_event,
}

module _ {D : Type 0} where
  -- The replayed view holds the live view's levels, and is live where that is.
  pub record Follows (live_view replayed : View D) : Type 0 where
    pub same_bids : replayed.bids ≡ live_view.bids
    pub same_asks : replayed.asks ≡ live_view.asks
    pub same_limit : replayed.limit ≡ live_view.limit
    pub as_live : live_view.live ≡ true → replayed.live ≡ true

  -- Only what is no book content is forwarded.
  abbrev pub IsPlain : SyncAction D → Type 0
  IsPlain (SyncAction.forward (EventKind.trade p q s)) = Unit
  IsPlain (SyncAction.forward (EventKind.heartbeat c)) = Unit
  IsPlain (SyncAction.forward _) = ⊥
  IsPlain _ = Unit

  pub Follows-refl : (v : View D) → Follows v v
  Follows-refl v = record {
    same_bids = refl;
    same_asks = refl;
    same_limit = refl;
    as_live = λ h. h;
  }

  -- The events among the outcomes of a call.
  unfoldable pub events_of : List (Outcome D) → List (MarketEvent D)
  events_of [] = []
  events_of (Outcome.event e ∷ os) = e ∷ events_of os
  events_of (Outcome.state_changed a b ∷ os) = events_of os

  pub events_of-append :
      (xs ys : List (Outcome D)) → events_of (xs ++ ys) ≡ events_of xs ++ events_of ys
  unfolding events_of
  events_of-append [] ys = refl
  events_of-append (Outcome.event e ∷ xs) ys = ap (◌∷◌ e) (events_of-append xs ys)
  events_of-append (Outcome.state_changed a b ∷ xs) ys = events_of-append xs ys

module _ {D : Type 0} ⦃dec : Decimal D⦄ where
  delta_view-Follows :
      (v w : View D) (bids asks : List (Level D))
      → v.live ≡ true
      → Follows v w
      → Follows (delta_view v bids asks) (delta_view w bids asks)
  unfolding delta_view
  delta_view-Follows v w bids asks live f =
      rw (live, f.as_live live, f.same_bids, f.same_asks, f.same_limit) (Follows-refl _)

  snapshot_view-Follows :
      (v w : View D) (bids asks : List (Level D))
      → Follows v w
      → Follows (snapshot_view v bids asks) (snapshot_view w bids asks)
  unfolding snapshot_view
  snapshot_view-Follows v w bids asks f = rw f.same_limit (Follows-refl _)

  delta_view_dead :
      (v : View D) (bids asks : List (Level D)) → v.live ≡ false → delta_view v bids asks ≡ v
  unfolding delta_view
  delta_view_dead v bids asks e = rw e

  mark_verified-view : (b : Book D) (at : IngestTime) → view (mark_verified b at) ≡ view b
  unfolding mark_verified
  mark_verified-view b at = ground arith

  pub mark_desynced-Follows :
      (b : Book D) (w : View D) (reason : DesyncReason D) (at : IngestTime)
      → Follows (view b) w
      → Follows (view (mark_desynced b reason at)) w
  unfolding mark_desynced
  mark_desynced-Follows b w reason at f = record {
    same_bids = f.same_bids;
    same_asks = f.same_asks;
    same_limit = f.same_limit;
    as_live = λ h. cc;
  }

module _ {D : Type 0} ⦃dec : Decimal D⦄ where
  pub events_of-change : (x y : BookState D) → events_of (change x y) ≡ []
  unfolding events_of
  events_of-change x y = elim (Bool-cases (state_eqb x y)) [ inl e ↦ rw e | inr e ↦ rw e ]

-- A venue whose checksum reads the two sides of the book and nothing else.
pub record ReadsSides {D S : Type 0} (venue_sync : VenueSync D S) : Type 0 where
  pub reads_sides :
      (s t : S) (b c : Book D)
      → b.bids ≡ c.bids
      → b.asks ≡ c.asks
      → venue_sync.checksum s b ≡ venue_sync.checksum t c

module _ {D S : Type 0} ⦃dec : Decimal D⦄ (venue_sync : VenueSync D S) where
  -- A checksum of the venue leaves the levels alone.
  pub check-sides :
      (s : S) (b : Book D) (expected : ℕ) (at : IngestTime)
      → let b' = check venue_sync s b expected at in
        (b'.bids ≡ b.bids) × (b'.asks ≡ b.asks) × (b'.max_depth ≡ b.max_depth)
  unfolding check mark_verified mark_desynced
  check-sides s b expected at = ground arith

  -- On a live book the checksum decides.
  pub check_live :
      (s : S) (b : Book D) (expected : ℕ) (at : IngestTime) (h : is_live b.state ≡ true)
      → is_live (check venue_sync s b expected at).state
        ≡ elim (venue_sync.checksum s b) [ none ↦ true | some c ↦ c == expected ]
  unfolding check mark_verified mark_desynced
  check_live s b expected at h = ground arith

  pub check_dead :
      (s : S) (b : Book D) (expected : ℕ) (at : IngestTime) (h : is_live b.state ≡ false)
      → check venue_sync s b expected at ≡ b
  unfolding check
  check_dead s b expected at h = rw h

  apply_action_dead :
      (s : S) (b : Book D) (bids asks : List (Level D)) (at : IngestTime)
      → is_live b.state ≡ false
      → apply_action venue_sync s b (SyncAction.delta bids asks) at ≡ (b, none)
  unfolding apply_action apply_delta
  apply_action_dead s b bids asks at h = rw h

  apply_action_alive :
      (s : S) (b : Book D) (bids asks : List (Level D)) (at : IngestTime)
      → is_live b.state ≡ true
      → apply_action venue_sync s b (SyncAction.delta bids asks) at
        ≡ ((apply_delta b bids asks at).0, some (EventKind.delta bids asks))
  unfolding apply_action apply_delta
  apply_action_alive s b bids asks at h = rw h

  -- Applying recorded events one after the other, each at the time that it carries.
  unfoldable pub replay : VenueBook D S → List (MarketEvent D) → VenueBook D S
  replay v [] = v
  replay v (e ∷ es) = replay (apply_event venue_sync v e e.ingest_ts).0 es

  pub replay-append :
      (v : VenueBook D S) (xs ys : List (MarketEvent D))
      → replay v (xs ++ ys) ≡ replay (replay v xs) ys
  unfolding replay
  replay-append v [] ys = refl
  replay-append v (e ∷ xs) ys = replay-append (apply_event venue_sync v e e.ingest_ts).0 xs ys

module _ {D S : Type 0} ⦃dec : Decimal D⦄ (venue_sync : VenueSync D S)
    (lawful : ReadsSides venue_sync) where
  check-Follows :
      (s t : S) (b r : Book D) (expected : ℕ) (at later : IngestTime)
      → Follows (view b) (view r)
      → Follows
          (view (check venue_sync s b expected at))
          (view (check venue_sync t r expected later))
  check-Follows s t b r expected at later f =
      let (bb, ba, bl) = check-sides venue_sync s b expected at in
      let (rb, ra, rl) = check-sides venue_sync t r expected later in
      record {
        same_bids = rb ∙ f.same_bids ∙ sym bb;
        same_asks = ra ∙ f.same_asks ∙ sym ba;
        same_limit = rl ∙ f.same_limit ∙ sym bl;
        as_live = alive (Bool-cases (is_live b.state));
      }
    where
      alive :
          (is_live b.state ≡ true) ⊎ (is_live b.state ≡ false)
          → is_live (check venue_sync s b expected at).state ≡ true
          → is_live (check venue_sync t r expected later).state ≡ true
      alive (inl h) done =
          check_live venue_sync t r expected later (f.as_live h)
          ∙ ap (λ o. elim o [ none ↦ true | some c ↦ c == expected ])
              (lawful.reads_sides t s r b f.same_bids f.same_asks)
          ∙ sym (check_live venue_sync s b expected at h)
          ∙ done
      alive (inr h) done =
          absurd (dead (ap (λ c. is_live c.state) (check_dead venue_sync s b expected at h)))
        where
          dead : is_live (check venue_sync s b expected at).state ≡ is_live b.state → ⊥
          dead e = cc

  -- The replayed book after what one action emitted.
  abbrev replayed : S → Book D → Option (EventKind D) → IngestTime → Book D
  replayed t r none later = r
  replayed t r (some kind) later = (apply_action venue_sync t r (event_action kind) later).0

  delta-Follows :
      (s t : S) (b r : Book D) (bids asks : List (Level D)) (at later : IngestTime)
      → Follows (view b) (view r)
      → let (b', kind) = apply_action venue_sync s b (SyncAction.delta bids asks) at in
        Follows (view b') (view (replayed t r kind later))
  delta-Follows s t b r bids asks at later f = elim (Bool-cases (is_live b.state)) [
    | inl h ↦
        subst (λ out. Follows (view out.0) (view (replayed t r out.1 later)))
          (sym (apply_action_alive venue_sync s b bids asks at h))
          (subst (λ out. Follows (view (apply_delta b bids asks at).0) (view out.0))
            (sym (apply_action_alive venue_sync t r bids asks later (f.as_live h)))
            (rw (view-apply_delta b bids asks at, view-apply_delta r bids asks later)
              (delta_view-Follows (view b) (view r) bids asks h f)))
    | inr h ↦
        subst (λ out. Follows (view out.0) (view (replayed t r out.1 later)))
          (sym (apply_action_dead venue_sync s b bids asks at h)) f
  ]

  apply_action-Follows :
      (s t : S) (b r : Book D) (a : SyncAction D) (at later : IngestTime)
      → IsPlain a
      → Follows (view b) (view r)
      → let (b', kind) = apply_action venue_sync s b a at in
        Follows (view b') (view (replayed t r kind later))
  unfolding apply_action
  apply_action-Follows s t b r SyncAction.ignore at later p f = f
  apply_action-Follows s t b r (SyncAction.desync reason) at later p f =
      mark_desynced-Follows b (view r) reason at f
  apply_action-Follows s t b r (SyncAction.verify c) at later p f =
      check-Follows s t b r c at later f
  apply_action-Follows s t b r (SyncAction.snapshot bids asks) at later p f =
      rw
        (
          view-apply_snapshot b bids asks venue_sync.integrity at,
          view-apply_snapshot r bids asks venue_sync.integrity later,
        )
        (snapshot_view-Follows (view b) (view r) bids asks f)
  apply_action-Follows s t b r (SyncAction.delta bids asks) at later p f =
      delta-Follows s t b r bids asks at later f
  apply_action-Follows s t b r (SyncAction.forward (EventKind.trade q1 q2 side)) at later p f = f
  apply_action-Follows s t b r (SyncAction.forward (EventKind.heartbeat c)) at later p f = f
  apply_action-Follows s t b r (SyncAction.forward (EventKind.snapshot q1 q2)) at later p f =
      absurd p
  apply_action-Follows s t b r (SyncAction.forward (EventKind.delta q1 q2)) at later p f = absurd p
  apply_action-Follows s t b r (SyncAction.forward (EventKind.checksum q1)) at later p f = absurd p

  apply_event-book :
      (v : VenueBook D S) (e : MarketEvent D) (at : IngestTime)
      → ((apply_event venue_sync v e at).0.book
          ≡ (apply_action venue_sync v.sync v.book (event_action e.kind) at).0)
        × ((apply_event venue_sync v e at).0.sync ≡ v.sync)
  unfolding apply_event apply_ingested apply_actions
  apply_event-book v e at = (refl, refl)

  Follows-event :
      (v : VenueBook D S) (e : MarketEvent D) (at : IngestTime) (w : View D)
      → Follows w (view (apply_action venue_sync v.sync v.book (event_action e.kind) at).0)
      → Follows w (view (apply_event venue_sync v e at).0.book)
  Follows-event v e at w f = rw (apply_event-book v e at).0 f

  -- One action more: its event, if it has one, and then those of the rest.
  emit-Follows :
      (b : Book D) (w : View D) (ts : Option WallTime) (at : IngestTime) (r : VenueBook D S)
      (kind : Option (EventKind D)) (rest : List (Outcome D))
      → ((q : VenueBook D S)
          → Follows (view b) (view q.book)
          → Follows w (view (replay venue_sync q (events_of rest)).book))
      → Follows (view b) (view (replayed r.sync r.book kind at))
      → Follows w (view (replay venue_sync r (events_of (emit b ts at kind rest))).book)
  unfolding replay events_of
  emit-Follows b w ts at r none rest go f = go r f
  emit-Follows b w ts at r (some kind) rest go f =
      go (apply_event venue_sync r (as_event b ts at kind) at).0
        (Follows-event r (as_event b ts at kind) at (view b) f)

  -- The events of a burst of actions, replayed on a book that follows, follow the burst.
  pub apply_actions-Follows :
      (s : S) (b : Book D) (as' : List (SyncAction D)) (ts : Option WallTime) (at : IngestTime)
      (r : VenueBook D S)
      → All IsPlain as'
      → Follows (view b) (view r.book)
      → let (b', outcomes) = apply_actions venue_sync s b as' ts at in
        Follows (view b') (view (replay venue_sync r (events_of outcomes)).book)
  unfolding apply_actions replay events_of
  apply_actions-Follows s b [] ts at r p f = f
  apply_actions-Follows s b (a ∷ as') ts at r p f =
      let (b', kind) = apply_action venue_sync s b a at in
      let (b'', rest) = apply_actions venue_sync s b' as' ts at in
      emit-Follows b' (view b'') ts at r kind rest
        (λ q g. apply_actions-Follows s b' as' ts at q p.1 g)
        (apply_action-Follows s r.sync b r.book a at at p.0 f)
