-- ===== src/Coord/Lease/Hold.antt =====
-- When a node holds streams, and when it holds none.
use market_aggregator.Common.{
  ℕ, ◌-◌, ◌≤◌, ◌<◌, ◌≡◌, ◌⊎◌, inl, inr, refl, sym, ◌∙◌, arith, Bool, true, false, not, ◌&&◌, ◌||◌,
  Option, none, some, List, [], ◌∷◌, All, text_eqb, ltb, Bool-cases,
}
use market_aggregator.Core.Time.{IngestTime, WallTime, since}
use market_aggregator.Core.Event.{StreamId}
use market_aggregator.Coord.Assign.{NodeId, assigned_to}
use market_aggregator.Coord.Assign.Leader.{contains, text_ltb_total}
use market_aggregator.Coord.Lease.{
  Lease, LeaseConfig, LeaseState, Coordinator, Registry, expired_at, hold_for, settle_for, held,
  note_contact, note_members, stand_down, reconcile, node_insert, live_members, round_trip,
  lease_of, step,
}

-- The three things that `reconcile` comes to.
abbrev pub StoodDown : LeaseState → LeaseState → IngestTime → LeaseConfig → Type 0
StoodDown before after now config =
    (held before.last_contact now config ≡ false)
    × (after.owned ≡ [])
    × (after.last_contact ≡ none)
    × (after.stood_down ≡ true)
    × (after.settled_at ≡ now)

abbrev pub Settling : LeaseState → LeaseState → IngestTime → LeaseConfig → Type 0
Settling before after now config =
    (held before.last_contact now config ≡ true)
    × (since now before.settled_at < settle_for config)
    × (after.owned ≡ [])
    × (after.settling ≡ true)
    × (after.settled_at ≡ before.settled_at)

abbrev pub Holding :
    LeaseState → LeaseState → IngestTime → LeaseConfig → NodeId → List StreamId → Type 0
Holding before after now config node streams =
    ((at : IngestTime) × (before.last_contact ≡ some at) × (since now at < hold_for config))
    × (settle_for config ≤ since now before.settled_at)
    × (after.owned ≡ assigned_to node streams before.members)
    × (after.stood_down ≡ false)
    × (after.settling ≡ false)

-- The three outcomes of `reconcile`. Without a contact younger than ttl - guard the node drops every
-- stream, stands down and will serve its notice again. With one, but less than ttl + guard after
-- `settled_at`, it owns nothing. With both, it owns just its assignment among the members that it
-- last read.
pub reconcile_outcome :
    (s : LeaseState) (now : IngestTime) (config : LeaseConfig) (node : NodeId)
    (streams : List StreamId)
    → StoodDown s (reconcile s now config node streams) now config
      ⊎ (Settling s (reconcile s now config node streams) now config
          ⊎ Holding s (reconcile s now config node streams) now config node streams)
unfolding reconcile stand_down
reconcile_outcome s now config node streams = elim (Bool-cases (held s.last_contact now config)) [
  | inr e ↦ inl (e, rw e refl, rw e refl, rw e refl, rw e refl)
  | inl e ↦ elim (Bool-cases (ltb (since now s.settled_at) (settle_for config))) [
    | inl f ↦ inr (inl (e, ground (arith, f), rw (e, f) refl, rw (e, f) refl, rw (e, f) refl))
    | inr f ↦ inr (
        inr (
          contact s.last_contact e,
          ground (arith, f),
          rw (e, f) refl,
          rw (e, f) refl,
          rw (e, f) refl,
        ))
  ]
]
  where
    contact :
        (o : Option IngestTime)
        → held o now config ≡ true
        → (at : IngestTime) × (o ≡ some at) × (since now at < hold_for config)
    contact none h = ground arith
    contact (some at) h = (at, refl, ground arith)

-- The passes of one node at these moments, one after another.
unfoldable pub passes :
    {R : Type 0} → Registry R → Coordinator → R → LeaseState → List IngestTime → R × LeaseState
unfolding step
passes registry c r s [] = (r, s)
passes registry c r s (now ∷ later) =
    let next = step registry c r s now in passes registry c next.0 next.1 later

-- Owns nothing, and is either out of contact or has settled no earlier than `start`.
abbrev pub IsWaiting : ℕ → LeaseState → Type 0
IsWaiting start s = (s.owned ≡ []) × ((s.last_contact ≡ none) ⊎ (start ≤ s.settled_at.mono))

note_members-IsWaiting :
    (start : ℕ) (s : LeaseState) (now : IngestTime) (answer : Option (List Lease))
    → start ≤ now.mono
    → IsWaiting start s
    → IsWaiting start (note_members s now answer)
unfolding note_contact
note_members-IsWaiting start s now none h w = w
note_members-IsWaiting start s now (some leases) h w = (w.0, inr (noted s.last_contact w.1))
  where
    noted :
        (o : Option IngestTime)
        → (o ≡ none) ⊎ (start ≤ s.settled_at.mono)
        → start ≤ (elim o as (λ x. IngestTime) [ none ↦ now | some at ↦ s.settled_at ]).mono
    noted none k = h
    noted (some at) (inr k) = k
    noted (some at) (inl k) = ground (arith, k)

reconcile-IsWaiting :
    (start : ℕ) (s : LeaseState) (now : IngestTime) (config : LeaseConfig) (node : NodeId)
    (streams : List StreamId)
    → start ≤ now.mono
    → now.mono - start < settle_for config
    → IsWaiting start s
    → IsWaiting start (reconcile s now config node streams)
reconcile-IsWaiting start s now config node streams h k w =
    elim (reconcile_outcome s now config node streams) [
      | inl (e, none_owned, blind, down, settled) ↦ (none_owned, inl blind)
      | inr (inl (e, early, none_owned, busy, settled)) ↦
          (none_owned, later s.last_contact e w.1 settled)
      | inr (inr ((at, seen, young), late, assigned, up, idle)) ↦
          absurd (too_early at seen late w.1)
    ]
  where
    later :
        (o : Option IngestTime)
        → held o now config ≡ true
        → (o ≡ none) ⊎ (start ≤ s.settled_at.mono)
        → (reconcile s now config node streams).settled_at ≡ s.settled_at
        → ((reconcile s now config node streams).last_contact ≡ none)
          ⊎ (start ≤ (reconcile s now config node streams).settled_at.mono)
    later none e c eq = ground (arith, e)
    later (some at) e (inl c) eq = ground (arith, c)
    later (some at) e (inr c) eq = inr (rw eq c)

    too_early :
        (at : IngestTime)
        → s.last_contact ≡ some at
        → settle_for config ≤ since now s.settled_at
        → (s.last_contact ≡ none) ⊎ (start ≤ s.settled_at.mono)
        → ⊥
    too_early at seen late (inl c) = ground (arith, sym seen ∙ c)
    too_early at seen late (inr c) = omega (arith, k, late, c)

passes-IsWaiting :
    {R : Type 0} (registry : Registry R) (c : Coordinator) (r : R) (s : LeaseState)
    (times : List IngestTime) (start : ℕ)
    → All (λ t. (start ≤ t.mono) × (t.mono - start < settle_for c.config)) times
    → IsWaiting start s
    → IsWaiting start (passes registry c r s times).1
unfolding passes step
passes-IsWaiting registry c r s [] start h w = w
passes-IsWaiting registry c r s (now ∷ times) start h w =
    let (r', answer) = round_trip registry r (lease_of c now) in
    passes-IsWaiting registry c r'
      (reconcile (note_members s now answer) now c.config c.node c.streams) times start h.1
      (reconcile-IsWaiting start (note_members s now answer) now c.config c.node c.streams h.0.0
        h.0.1 (note_members-IsWaiting start s now answer h.0.0 w))

-- A node that is out of contact at the moment `start` and owns nothing, be it new or stood down,
-- owns nothing after any number of passes that all come less than ttl + guard after `start`,
-- whatever the registry answers in them.
pub passes-settle :
    {R : Type 0} (registry : Registry R) (c : Coordinator) (r : R) (s : LeaseState)
    (times : List IngestTime) (start : ℕ)
    → s.last_contact ≡ none
    → s.owned ≡ []
    → All (λ t. (start ≤ t.mono) × (t.mono - start < settle_for c.config)) times
    → (passes registry c r s times).1.owned ≡ []
passes-settle registry c r s times start blind idle h =
    (passes-IsWaiting registry c r s times start h (idle, inl blind)).0

-- A pass whose write or read fails, ttl - guard or more after the last contact, drops every stream.
pub step-releases :
    {R : Type 0} (registry : Registry R) (c : Coordinator) (r : R) (s : LeaseState)
    (now at : IngestTime)
    → s.last_contact ≡ some at
    → hold_for c.config ≤ since now at
    → (round_trip registry r (lease_of c now)).1 ≡ none
    → ((step registry c r s now).1.owned ≡ []) × ((step registry c r s now).1.stood_down ≡ true)
unfolding step reconcile stand_down
step-releases registry c r s now at seen old failed = rw failed (rw (seen, lapsed) (refl, refl))
  where
    lapsed : ltb (since now at) (hold_for c.config) ≡ false
    lapsed = ground (arith, old)

-- A settled node whose round trip fails less than ttl - guard after its last contact keeps its
-- whole assignment after that pass, so until the next one. A reader that looks before the next
-- pass, but after the record of that contact has expired, does not count the node as live.
pub step-outlives-lease :
    {R : Type 0} (registry : Registry R) (c : Coordinator) (r : R) (s : LeaseState)
    (at now later : IngestTime)
    → s.last_contact ≡ some at
    → since now at < hold_for c.config
    → settle_for c.config ≤ since now s.settled_at
    → (round_trip registry r (lease_of c now)).1 ≡ none
    → expired_at (lease_of c at) later.wall ≡ true
    → ((step registry c r s now).1.owned ≡ assigned_to c.node c.streams s.members)
      × (live_members (lease_of c at ∷ []) later.wall ≡ [])
unfolding step reconcile live_members
step-outlives-lease registry c r s at now later seen young settled failed expired =
    (rw failed (rw (seen, kept, late) refl), rw expired refl)
  where
    kept : ltb (since now at) (hold_for c.config) ≡ true
    kept = ground (arith, young)

    late : ltb (since now s.settled_at) (settle_for c.config) ≡ false
    late = ground (arith, settled)

-- Whether some unexpired record names the node.
abbrev pub announced : NodeId → List Lease → WallTime → Bool
announced n [] now = false
announced n (l ∷ ls) now = (not (expired_at l now) && text_eqb n l.node) || announced n ls now

contains-node_insert :
    (n m : NodeId) (ns : List NodeId)
    → contains n (node_insert m ns) ≡ (text_eqb n m || contains n ns)
unfolding node_insert
contains-node_insert n m [] = refl
contains-node_insert n m (x ∷ ns) = ground (arith, contains-node_insert n m ns, text_ltb_total m x)

-- The live members are just the nodes that an unexpired record names, whatever the order of the
-- records and however many there are of a node.
pub contains-live_members :
    (n : NodeId) (ls : List Lease) (now : WallTime)
    → contains n (live_members ls now) ≡ announced n ls now
unfolding live_members
contains-live_members n [] now = refl
contains-live_members n (l ∷ ls) now =
    ground
      (arith, contains-live_members n ls now, contains-node_insert n l.node (live_members ls now))
