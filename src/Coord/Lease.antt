-- ===== src/Coord/Lease.antt =====
-- crates/ma-coord/src/lease.rs: one pass of a node's lease loop.
pub mod Hold
pub mod Backed
use market_aggregator.Common.{
  ℕ, zero, suc, ◌+◌, ◌-◌, ◌*◌, ◌/◌, ◌^◌, min, Bool, true, false, not, ◌&&◌, ◌||◌, Option, none,
  some, List, [], ◌∷◌, map, Text, text_eqb, ltb, leb, if◌then◌else◌, keep_if, Result, ok, err,
}
use market_aggregator.Core.Time.{IngestTime, WallTime, since}
use market_aggregator.Core.Event.{StreamId, stream_key}
use market_aggregator.Coord.Assign.{NodeId, text_ltb, stream_ltb, assigned_to}

pub record Lease : Type 0 where
  pub node : NodeId
  pub written_at_unix_ms : ℕ
  pub ttl_ms : ℕ

-- `u64::try_from(_).unwrap_or(u64::MAX)`, which is also where `saturating_add` stops.
abbrev pub to_u64 : ℕ → ℕ
to_u64 n = min n (2 ^ 64 - 1)

-- `millis` of a duration in nanoseconds.
abbrev pub millis : ℕ → ℕ
millis d = to_u64 (d / 1000000)

abbrev pub unix_millis : WallTime → ℕ
unix_millis (WallTime.after_epoch n) = millis n
unix_millis (WallTime.before_epoch n) = 0

-- `Lease::expired_at`.
unfoldable pub expired_at : Lease → WallTime → Bool
expired_at l (WallTime.before_epoch n) = false
expired_at l (WallTime.after_epoch n) = ltb (to_u64 (l.written_at_unix_ms + l.ttl_ms)) (millis n)

pub record LeaseConfig : Type 0 where
  pub ttl : ℕ
  pub renew : ℕ
  pub guard : ℕ

abbrev pub default_lease : LeaseConfig
default_lease = record { ttl = 15 * 1000000000; renew = 3 * 1000000000; guard = 2 * 1000000000 }

abbrev pub hold_for : LeaseConfig → ℕ
hold_for c = c.ttl - c.guard

-- `saturating_add` stops at the greatest `Duration`.
abbrev pub settle_for : LeaseConfig → ℕ
settle_for c = min (c.ttl + c.guard) (2 ^ 64 * 1000000000 - 1)

pub record ClusterView : Type 0 where
  pub node : NodeId
  pub members : List NodeId
  pub owned : List Text
  pub elsewhere : List Text
  pub settling : Bool
  pub stood_down : Bool
  pub last_contact_ms : Option ℕ

pub record LeaseState : Type 0 where
  pub members : List NodeId
  pub last_contact : Option IngestTime
  pub settled_at : IngestTime
  pub stood_down : Bool
  pub settling : Bool
  pub owned : List StreamId

-- `LeaseState::new`.
unfoldable pub new : IngestTime → LeaseState
new now = record {
  members = [];
  last_contact = none;
  settled_at = now;
  stood_down = true;
  settling = false;
  owned = [];
}

unfoldable pub note_contact : LeaseState → IngestTime → LeaseState
note_contact s now = record s {
  settled_at = elim s.last_contact [ none ↦ now | some at ↦ s.settled_at ];
  last_contact = some now;
}

unfoldable pub stand_down : LeaseState → IngestTime → LeaseState
stand_down s now = record s {
  owned = [];
  stood_down = true;
  settling = false;
  last_contact = none;
  settled_at = now;
}

-- The test `held` of `reconcile`.
abbrev pub held : Option IngestTime → IngestTime → LeaseConfig → Bool
held none now config = false
held (some at) now config = ltb (since now at) (hold_for config)

unfoldable pub reconcile :
    LeaseState → IngestTime → LeaseConfig → NodeId → List StreamId → LeaseState
unfolding stand_down
reconcile s now config node streams =
    if not (held s.last_contact now config)
    then stand_down s now
    else if ltb (since now s.settled_at) (settle_for config)
    then record s { settling = true; owned = [] }
    else record s {
      settling = false;
      stood_down = false;
      owned = assigned_to node streams s.members;
    }

-- `sort` and `dedup` of `live_members`, as insertion into an ascending list.
unfoldable pub node_insert : NodeId → List NodeId → List NodeId
node_insert n [] = n ∷ []
node_insert n (m ∷ ms) =
    let rest = node_insert n ms in
    if text_ltb n m then n ∷ m ∷ ms else if text_ltb m n then m ∷ rest else m ∷ ms

unfoldable pub live_members : List Lease → WallTime → List NodeId
unfolding node_insert
live_members [] now = []
live_members (l ∷ ls) now =
    let rest = live_members ls now in
    if not (expired_at l now) then node_insert l.node rest else rest

-- `BTreeSet::contains`.
abbrev pub owns : List StreamId → StreamId → Bool
owns [] s = false
owns (t ∷ ts) s = (not (stream_ltb s t) && not (stream_ltb t s)) || owns ts s

-- `LeaseState::view`.
unfoldable pub view : LeaseState → NodeId → List StreamId → IngestTime → ClusterView
view s node streams now = record {
  node = node;
  members = s.members;
  owned = map stream_key s.owned;
  elsewhere = map stream_key (keep_if (λ t. not (owns s.owned t)) streams);
  settling = s.settling;
  stood_down = s.stood_down;
  last_contact_ms = elim s.last_contact [ none ↦ none | some at ↦ some (millis (since now at)) ];
}

pub record Coordinator : Type 0 where
  pub node : NodeId
  pub config : LeaseConfig
  pub streams : List StreamId

-- The record that `step` announces.
abbrev pub lease_of : Coordinator → IngestTime → Lease
lease_of c now = record {
  node = c.node;
  written_at_unix_ms = unix_millis now.wall;
  ttl_ms = millis c.config.ttl;
}

-- The registry over its own state `R`: `announce` answers whether it wrote, `read_members` with
-- the records or nothing.
pub record Registry (R : Type 0) : Type 0 where
  pub announce : R → Lease → R × Bool
  pub read_members : R → R × Option (List Lease)

-- What `step` has of the registry: the records, when the write and the read both went through.
abbrev pub round_trip : {R : Type 0} → Registry R → R → Lease → R × Option (List Lease)
round_trip registry r lease =
    let (r', wrote) = registry.announce r lease in
    if wrote then registry.read_members r' else (r', none)

-- What `step` notes of a round trip.
abbrev pub note_members : LeaseState → IngestTime → Option (List Lease) → LeaseState
note_members s now none = s
note_members s now (some leases) = record (note_contact s now) {
  members = live_members leases now.wall;
}

-- `Coordinator::step`.
unfoldable pub step :
    {R : Type 0}
    → Registry R
    → Coordinator
    → R
    → LeaseState
    → IngestTime
    → R × LeaseState × ClusterView
step registry c r s now =
    let (r', answer) = round_trip registry r (lease_of c now) in
    let s' = reconcile (note_members s now answer) now c.config c.node c.streams in
    (r', s', view s' c.node c.streams now)
