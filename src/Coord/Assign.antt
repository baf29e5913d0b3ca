-- ===== src/Coord/Assign.antt =====
-- crates/ma-coord/src/assign.rs: rendezvous hashing over the live members.
pub mod Leader
pub mod Owner
use market_aggregator.Common.{
  ℕ, zero, suc, ◌+◌, ◌*◌, ◌/◌, ◌%◌, ◌^◌, bit_xor, Bool, true, false, Option, none, some, List, [],
  ◌∷◌, ◌&&◌, ◌||◌, Text, text_eqb, ltb, ◌==◌, if◌then◌else◌, keep_if, Option_eqb,
}
use market_aggregator.Core.Event.{StreamId, VenueId, venue_str}

-- `NodeId`.
abbrev pub NodeId : Type 0
NodeId = Text

-- `<` of the derived `Ord` on `NodeId`: that of the bytes, lexicographic.
abbrev pub text_ltb : Text → Text → Bool
text_ltb [] [] = false
text_ltb [] (b ∷ bs) = true
text_ltb (a ∷ as') [] = false
text_ltb (a ∷ as') (b ∷ bs) = ltb a b || (a == b && text_ltb as' bs)

-- `fnv`, with `FNV_PRIME`.
unfoldable pub fnv : ℕ → List ℕ → ℕ
fnv h [] = h
fnv h (b ∷ bs) = fnv (bit_xor h b * 0x00000100000001b3 % 2 ^ 64) bs

abbrev pub fnv_offset : ℕ
fnv_offset = 0xcbf29ce484222325

unfoldable pub splitmix64_finalise : ℕ → ℕ
splitmix64_finalise z =
    let a = bit_xor z (z / 2 ^ 30) * 0xbf58476d1ce4e5b9 % 2 ^ 64 in
    let b = bit_xor a (a / 2 ^ 27) * 0x94d049bb133111eb % 2 ^ 64 in bit_xor b (b / 2 ^ 31)

-- `weight`: node, venue and symbol, parted by the byte 0.
unfoldable pub weight : StreamId → NodeId → ℕ
weight stream node =
    let h = fnv (fnv (fnv fnv_offset node) (0 ∷ [])) (venue_str stream.venue) in
    splitmix64_finalise (fnv (fnv h (0 ∷ [])) stream.symbol)

-- The comparison of `owner` answers `Greater`: a higher weight, then the smaller id.
abbrev pub ahead : (NodeId → ℕ) → NodeId → NodeId → Bool
ahead w a b = ltb (w b) (w a) || (w a == w b && text_ltb a b)

-- `Iterator::max_by` from a first item on: of two that compare equal, the later stays.
abbrev pub max_by_from : (NodeId → ℕ) → NodeId → List NodeId → NodeId
max_by_from w best [] = best
max_by_from w best (n ∷ ns) = max_by_from w (if ahead w best n then best else n) ns

abbrev pub max_by : (NodeId → ℕ) → List NodeId → Option NodeId
max_by w [] = none
max_by w (n ∷ ns) = some (max_by_from w n ns)

unfoldable pub owner : StreamId → List NodeId → Option NodeId
owner stream nodes = max_by (weight stream) nodes

-- The derived order of `VenueId`, and `<` of that of `StreamId`: the venue, then the symbol.
abbrev pub venue_rank : VenueId → ℕ
venue_rank VenueId.coinbase = 0
venue_rank VenueId.kraken = 1
venue_rank VenueId.bitstamp = 2
venue_rank VenueId.fake = 3

abbrev pub stream_ltb : StreamId → StreamId → Bool
stream_ltb s t =
    ltb (venue_rank s.venue) (venue_rank t.venue)
    || (venue_rank s.venue == venue_rank t.venue && text_ltb s.symbol t.symbol)

-- `BTreeSet<StreamId>` as the ascending list of its members, and its `insert`.
unfoldable pub stream_insert : StreamId → List StreamId → List StreamId
stream_insert s [] = s ∷ []
stream_insert s (t ∷ ts) =
    let rest = stream_insert s ts in
    if stream_ltb s t then s ∷ t ∷ ts else if stream_ltb t s then t ∷ rest else t ∷ ts

unfoldable pub collect_set : List StreamId → List StreamId
unfolding stream_insert
collect_set [] = []
collect_set (s ∷ ss) = stream_insert s (collect_set ss)

unfoldable pub assigned_to : NodeId → List StreamId → List NodeId → List StreamId
unfolding owner
assigned_to node streams nodes =
    collect_set (keep_if (λ stream. Option_eqb text_eqb (owner stream nodes) (some node)) streams)
