-- ===== src/Coord/Lease/Backed.antt =====
-- What a node that serves streams has to show for it.
use market_aggregator.Common.{
  ◌≡◌, ◌⊎◌, ◌<◌, inl, inr, refl, ◌∙◌, sym, subst, Option, none, some, List, [], ◌∷◌, ◌++◌, Any,
  Bool-cases, ltb,
}
use mathlib.Core.List.{append_assoc}
use mathlib.Core.Option.{some-injective}
use market_aggregator.Core.Time.{IngestTime, since}
use market_aggregator.Core.Event.{StreamId}
use market_aggregator.Coord.Assign.{NodeId, assigned_to}
use market_aggregator.Coord.Lease.{
  Lease, LeaseConfig, LeaseState, Coordinator, Registry, hold_for, settle_for, held, note_contact,
  note_members, stand_down, reconcile, live_members, round_trip, lease_of, step,
}
use market_aggregator.Coord.Lease.Hold.{passes, reconcile_outcome}

-- A pass whose write and read went through, with the records that it read.
abbrev pub heard : IngestTime → Option (List Lease) → List (IngestTime × List Lease)
heard now none = []
heard now (some leases) = (now, leases) ∷ []

unfoldable pub contacts :
    {R : Type 0} → Registry R → Coordinator → R → List IngestTime → List (IngestTime × List Lease)
contacts registry c r [] = []
contacts registry c r (now ∷ later) =
    let (r', answer) = round_trip registry r (lease_of c now) in
    heard now answer ++ contacts registry c r' later

-- A contact that the streams `owned` at `now` rest on.
abbrev pub Backs : Coordinator → IngestTime → List StreamId → IngestTime × List Lease → Type 0
Backs c now owned (at, leases) =
    (since now at < hold_for c.config)
    × (owned ≡ assigned_to c.node c.streams (live_members leases at.wall))

abbrev pub IsBacked :
    Coordinator → IngestTime → List (IngestTime × List Lease) → LeaseState → Type 0
IsBacked c now seen s = (s.owned ≡ []) ⊎ Any (Backs c now s.owned) seen

-- What a state knows is of a contact that was seen.
abbrev Knows : LeaseState → IngestTime × List Lease → Type 0
Knows s (at, leases) = (s.last_contact ≡ some at) × (s.members ≡ live_members leases at.wall)

abbrev IsInformed : List (IngestTime × List Lease) → LeaseState → Type 0
IsInformed seen s = (s.last_contact ≡ none) ⊎ Any (Knows s) seen

Any-append : {A : Type 0} (P : A → Type 0) (xs ys : List A) → Any P xs → Any P (xs ++ ys)
Any-append P [] ys h = elim h [ ]
Any-append P (x ∷ xs) ys (inl h) = inl h
Any-append P (x ∷ xs) ys (inr h) = inr (Any-append P xs ys h)

Any-prepend : {A : Type 0} (P : A → Type 0) (xs ys : List A) → Any P ys → Any P (xs ++ ys)
Any-prepend P [] ys h = h
Any-prepend P (x ∷ xs) ys h = inr (Any-prepend P xs ys h)

Any-map :
    {A : Type 0} (P Q : A → Type 0) (xs : List A) → ((x : A) → P x → Q x) → Any P xs → Any Q xs
Any-map P Q [] f h = elim h [ ]
Any-map P Q (x ∷ xs) f (inl h) = inl (f x h)
Any-map P Q (x ∷ xs) f (inr h) = inr (Any-map P Q xs f h)

note_members-IsInformed :
    (seen : List (IngestTime × List Lease)) (s : LeaseState) (now : IngestTime)
    (answer : Option (List Lease))
    → IsInformed seen s
    → IsInformed (seen ++ heard now answer) (note_members s now answer)
unfolding note_contact
note_members-IsInformed seen s now none (inl h) = inl h
note_members-IsInformed seen s now none (inr h) = inr (Any-append (Knows s) seen [] h)
note_members-IsInformed seen s now (some leases) h = inr (
    Any-prepend (Knows (note_members s now (some leases))) seen ((now, leases) ∷ [])
      (inl (refl, refl)))

reconcile-IsInformed :
    (seen : List (IngestTime × List Lease)) (s : LeaseState) (now : IngestTime)
    (config : LeaseConfig) (node : NodeId) (streams : List StreamId)
    → IsInformed seen s
    → IsInformed seen (reconcile s now config node streams)
unfolding reconcile stand_down
reconcile-IsInformed seen s now config node streams h =
    elim (Bool-cases (held s.last_contact now config)) [
      | inr e ↦ rw e (inl refl)
      | inl e ↦ elim (Bool-cases (ltb (since now s.settled_at) (settle_for config))) [
        | inl f ↦ rw (e, f) h
        | inr f ↦ rw (e, f) h
      ]
    ]

reconcile-IsBacked :
    (c : Coordinator) (seen : List (IngestTime × List Lease)) (s : LeaseState) (now : IngestTime)
    → IsInformed seen s
    → IsBacked c now seen (reconcile s now c.config c.node c.streams)
reconcile-IsBacked c seen s now h = elim (reconcile_outcome s now c.config c.node c.streams) [
  | inl (e, none_owned, blind, down, settled) ↦ inl none_owned
  | inr (inl (e, early, none_owned, busy, settled)) ↦ inl none_owned
  | inr (inr ((at, last, young), late, assigned, up, idle)) ↦ inr (backed at last young assigned h)
]
  where
    backed :
        (at : IngestTime)
        → s.last_contact ≡ some at
        → since now at < hold_for c.config
        → (reconcile s now c.config c.node c.streams).owned ≡ assigned_to c.node c.streams s.members
        → IsInformed seen s
        → Any (Backs c now (reconcile s now c.config c.node c.streams).owned) seen
    backed at last young assigned (inl blind) = cc
    backed at last young assigned (inr k) =
        Any-map (Knows s) (Backs c now (reconcile s now c.config c.node c.streams).owned) seen
          (λ x q. (
            subst (λ t. since now t < hold_for c.config) (some-injective at x.0 (sym last ∙ q.0))
                young,
            assigned ∙ (λ i. assigned_to c.node c.streams (q.1 i)),
          ))
          k

passes_from-IsBacked :
    {R : Type 0} (registry : Registry R) (c : Coordinator) (r : R) (s : LeaseState)
    (seen : List (IngestTime × List Lease)) (times : List IngestTime) (now : IngestTime)
    → IsInformed seen s
    → IsBacked c now
        (seen ++ contacts registry c r (times ++ now ∷ []))
        (passes registry c r s (times ++ now ∷ [])).1
unfolding passes contacts step
passes_from-IsBacked registry c r s seen [] now h =
    let (r', answer) = round_trip registry r (lease_of c now) in
    rw (sym (append_assoc seen (heard now answer) [])) (
      widen _ (
        reconcile-IsBacked c (seen ++ heard now answer) (note_members s now answer) now
          (note_members-IsInformed seen s now answer h)))
  where
    widen :
        {owned : List StreamId} (xs : List (IngestTime × List Lease))
        → (owned ≡ []) ⊎ Any (Backs c now owned) xs
        → (owned ≡ []) ⊎ Any (Backs c now owned) (xs ++ [])
    widen xs (inl k) = inl k
    widen xs (inr k) = inr (Any-append (Backs c now _) xs [] k)
passes_from-IsBacked registry c r s seen (t ∷ times) now h =
    let (r', answer) = round_trip registry r (lease_of c t) in
    rw (sym (append_assoc seen (heard t answer) (contacts registry c r' (times ++ now ∷ [])))) (
      passes_from-IsBacked registry c r'
        (reconcile (note_members s t answer) t c.config c.node c.streams) (seen ++ heard t answer)
        times now
        (reconcile-IsInformed (seen ++ heard t answer) (note_members s t answer) t c.config c.node
          c.streams (note_members-IsInformed seen s t answer h)))

-- A node that starts out of contact and makes any passes, at any moments and whatever the registry
-- answers, owns nothing after the last of them, or there was a pass among them that wrote its
-- record and read the others', less than ttl - guard before the last one, and the node owns just
-- what the members that were live in that reading leave to it.
pub passes-IsBacked :
    {R : Type 0} (registry : Registry R) (c : Coordinator) (r : R) (s : LeaseState)
    (times : List IngestTime) (now : IngestTime)
    → s.last_contact ≡ none
    → IsBacked c now
        (contacts registry c r (times ++ now ∷ []))
        (passes registry c r s (times ++ now ∷ [])).1
passes-IsBacked registry c r s times now blind =
    passes_from-IsBacked registry c r s [] times now (inl blind)
