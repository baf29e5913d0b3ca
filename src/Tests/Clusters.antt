-- ===== src/Tests/Clusters.antt =====
-- A cluster of three nodes and the theorems about it.
use market_aggregator.Common.{
  ◌*◌, true, false, none, some, List, [], ◌∷◌, ◌≡◌, ◌≢◌, refl, arith, All,
}
use market_aggregator.Core.Event.{VenueId, StreamId, venue_str}
use market_aggregator.Coord.Assign.{
  NodeId, owner, assigned_to, collect_set, weight, fnv, splitmix64_finalise,
}
use market_aggregator.Coord.Assign.Leader.{contains}
use market_aggregator.Coord.Assign.Owner.{owner-same_members, assigned_to-disjoint}
use market_aggregator.Coord.Lease.{
  Lease, LeaseState, Coordinator, Registry, default_lease, lease_of, expired_at, reconcile,
  note_contact, step, live_members,
}
use market_aggregator.Coord.Lease.Hold.{passes, passes-settle, step-outlives-lease}
use market_aggregator.Coord.Lease.Backed.{IsBacked, contacts, passes-IsBacked}
use market_aggregator.Tests.Data.{at_ms}

abbrev n1 : NodeId
n1 = 49 ∷ []

abbrev n2 : NodeId
n2 = 50 ∷ []

abbrev n3 : NodeId
n3 = 51 ∷ []

abbrev btc : StreamId
btc = record { venue = VenueId.kraken; symbol = 66 ∷ 84 ∷ 67 ∷ [] }

abbrev eth : StreamId
eth = record { venue = VenueId.kraken; symbol = 69 ∷ 84 ∷ 72 ∷ [] }

abbrev streams : List StreamId
streams = btc ∷ eth ∷ []

owner-btc : owner btc (n1 ∷ n2 ∷ n3 ∷ []) ≡ some n2
unfolding owner weight fnv splitmix64_finalise venue_str
owner-btc = refl

n1≢n2 : n1 ≢ n2
n1≢n2 e = ground (arith, e)

same : (x : NodeId) → contains x (n1 ∷ n2 ∷ []) ≡ contains x (n2 ∷ n1 ∷ n1 ∷ [])
same x = ground arith

owner-same_members_example : owner btc (n1 ∷ n2 ∷ []) ≡ owner btc (n2 ∷ n1 ∷ n1 ∷ [])
owner-same_members_example = owner-same_members btc (n1 ∷ n2 ∷ []) (n2 ∷ n1 ∷ n1 ∷ []) same

assigned_to-disjoint_example :
    All
      (λ s. (owner s (n1 ∷ n2 ∷ []) ≡ some n1) × (owner s (n2 ∷ n1 ∷ n1 ∷ []) ≢ some n2))
      (assigned_to n1 streams (n1 ∷ n2 ∷ []))
assigned_to-disjoint_example =
    assigned_to-disjoint n1 n2 streams (n1 ∷ n2 ∷ []) (n2 ∷ n1 ∷ n1 ∷ []) same n1≢n2

abbrev serving : LeaseState
serving = record {
  members = n1 ∷ n2 ∷ [];
  last_contact = some (at_ms 20000);
  settled_at = at_ms 1000;
  stood_down = false;
  settling = false;
  owned = btc ∷ [];
}

abbrev idle : LeaseState
idle = record serving { last_contact = none; stood_down = true; owned = [] }

abbrev coordinator : Coordinator
coordinator = record { node = n1; config = default_lease; streams = streams }

-- A registry that keeps every record, and one that cannot be reached.
abbrev listing : Registry (List Lease)
listing = record { announce = λ ls l. (l ∷ ls, true); read_members = λ ls. (ls, some ls) }

abbrev unreachable : Registry (List Lease)
unreachable = record { announce = λ ls l. (ls, false); read_members = λ ls. (ls, none) }

passes-settle_example :
    (passes listing coordinator [] idle (at_ms 30000 ∷ at_ms 33000 ∷ at_ms 46000 ∷ [])).1.owned ≡ []
passes-settle_example =
    passes-settle listing coordinator [] idle (at_ms 30000 ∷ at_ms 33000 ∷ at_ms 46000 ∷ [])
      (30000 * 1000000) refl refl
      ((omega arith, omega arith), ((omega arith, omega arith), ((omega arith, omega arith), tt)))

-- With the default timings and a fifth of a second for a pass: the last contact is at 20 s, the
-- pass at 32.8 s fails, the next begins at 36 s, and from 35.001 s on the record has expired.
kept_past_expiry :
    ((step unreachable coordinator [] serving (at_ms 32800)).1.owned
      ≡ assigned_to n1 streams (n1 ∷ n2 ∷ []))
    × (live_members (lease_of coordinator (at_ms 20000) ∷ []) (at_ms 35001).wall ≡ [])
unfolding expired_at
kept_past_expiry =
    step-outlives-lease unreachable coordinator [] serving (at_ms 20000) (at_ms 32800) (at_ms 35001)
      refl (omega arith) (omega arith) refl refl

-- Three passes of a new node: it hears of itself at 30 s and at 40 s, and serves from 50 s on.
abbrev served : LeaseState
served = (passes listing coordinator [] idle (at_ms 30000 ∷ at_ms 40000 ∷ at_ms 50000 ∷ [])).1

served-owned : served.owned ≡ streams
unfolding passes step reconcile note_contact live_members expired_at assigned_to collect_set
served-owned = refl

passes-IsBacked_example :
    IsBacked coordinator
      (at_ms 50000)
      (contacts listing coordinator [] (at_ms 30000 ∷ at_ms 40000 ∷ at_ms 50000 ∷ []))
      served
passes-IsBacked_example =
    passes-IsBacked listing coordinator [] idle (at_ms 30000 ∷ at_ms 40000 ∷ []) (at_ms 50000) refl
