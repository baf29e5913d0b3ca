-- ===== src/Coord/Assign/Owner.antt =====
-- The owner of a stream depends on the set of members alone, and moves only when it must.
use market_aggregator.Common.{
  ◌≡◌, ◌≢◌, ◌⊎◌, inl, inr, sym, ap, ◌∙◌, arith, true, false, Option, none, some, List, [], ◌∷◌,
  text_eqb, text_eqb_sound, text_eqb_refl, keep_if, All, Bool-cases, Option_eqb,
}
use market_aggregator.Core.Event.{StreamId}
use market_aggregator.Coord.Assign.{
  NodeId, ahead, owner, stream_insert, collect_set, assigned_to, weight,
}
use market_aggregator.Coord.Assign.Leader.{
  contains, without, contains-without, contains-keep, Leads, ahead_irrefl, ahead_trans,
  max_by-Leads, Leads-max_by, max_by-same,
}

-- Two nodes that know the same members, listed in whatever order and however often, agree on the
-- owner of every stream.
pub owner-same_members :
    (stream : StreamId) (ns ms : List NodeId)
    → ((x : NodeId) → contains x ns ≡ contains x ms)
    → owner stream ns ≡ owner stream ms
unfolding owner
owner-same_members stream ns ms same = max_by-same (weight stream) ns ms same

-- When a node leaves, a stream whose owner is another node stays where it is.
pub owner-without :
    (stream : StreamId) (ns : List NodeId) (n o : NodeId)
    → owner stream ns ≡ some o
    → o ≢ n
    → owner stream (without n ns) ≡ some o
unfolding owner
owner-without stream ns n o e ne =
    let l = max_by-Leads (weight stream) ns o e in
    Leads-max_by (weight stream) (without n ns) o (record {
      listed = contains-keep n o ns ne l.listed;
      unbeaten = λ m k. l.unbeaten m (contains-without n m ns k);
    })

-- When a node joins, every stream stays where it is or goes to that node.
pub owner-join :
    (stream : StreamId) (ns : List NodeId) (n o : NodeId)
    → owner stream ns ≡ some o
    → (owner stream (n ∷ ns) ≡ some n) ⊎ (owner stream (n ∷ ns) ≡ some o)
unfolding owner
owner-join stream ns n o e = elim (Bool-cases (ahead (weight stream) n o)) [
  | inl h ↦ inl (Leads-max_by (weight stream) (n ∷ ns) n (joins h))
  | inr h ↦ inr (Leads-max_by (weight stream) (n ∷ ns) o (stays h))
]
  where
    l : Leads (weight stream) o ns
    l = max_by-Leads (weight stream) ns o e

    joins : ahead (weight stream) n o ≡ true → Leads (weight stream) n (n ∷ ns)
    joins h = record {
      listed = ground (arith, text_eqb_refl n);
      unbeaten = λ m k. ground (
        arith,
        k,
        l.unbeaten m,
        text_eqb_sound m n,
        ahead_irrefl (weight stream) n,
        ahead_trans (weight stream) m n o,
      );
    }

    stays : ahead (weight stream) n o ≡ false → Leads (weight stream) o (n ∷ ns)
    stays h = record {
      listed = ground (arith, l.listed);
      unbeaten = λ m k. ground (arith, k, h, l.unbeaten m, text_eqb_sound m n);
    }

All-collect_set : (P : StreamId → Type 0) (ss : List StreamId) → All P ss → All P (collect_set ss)
unfolding collect_set
All-collect_set P [] h = tt
All-collect_set P (s ∷ ss) h = inserted s (collect_set ss) h.0 (All-collect_set P ss h.1)
  where
    inserted : (s : StreamId) (ts : List StreamId) → P s → All P ts → All P (stream_insert s ts)
    inserted s [] p k = (p, tt)
    inserted s (t ∷ ts) p k = ground (arith, inserted s ts p k.1, p, k)

All-kept :
    (a : NodeId) (ns : List NodeId) (ss : List StreamId)
    → All (λ s. owner s ns ≡ some a) (keep_if (λ s. Option_eqb text_eqb (owner s ns) (some a)) ss)
All-kept a ns [] = tt
All-kept a ns (s ∷ ss) = elim (Bool-cases (Option_eqb text_eqb (owner s ns) (some a))) [
  | inl e ↦ rw e (owned (owner s ns) e, All-kept a ns ss)
  | inr e ↦ rw e (All-kept a ns ss)
]
  where
    owned : (o : Option NodeId) → Option_eqb text_eqb o (some a) ≡ true → o ≡ some a
    owned none h = ground arith
    owned (some b) h = ap some (text_eqb_sound b a h)

-- A node is assigned only streams that it owns. So of two nodes that know the same members, none
-- is assigned a stream that the other owns.
pub assigned_to-disjoint :
    (a b : NodeId) (streams : List StreamId) (ns ms : List NodeId)
    → ((x : NodeId) → contains x ns ≡ contains x ms)
    → a ≢ b
    → All (λ s. (owner s ns ≡ some a) × (owner s ms ≢ some b)) (assigned_to a streams ns)
unfolding assigned_to
assigned_to-disjoint a b streams ns ms same ne =
    All-collect_set (λ s. (owner s ns ≡ some a) × (owner s ms ≢ some b))
      (keep_if (λ s. Option_eqb text_eqb (owner s ns) (some a)) streams)
      (apart (keep_if (λ s. Option_eqb text_eqb (owner s ns) (some a)) streams)
        (All-kept a ns streams))
  where
    some-inj : {x y : NodeId} → some x ≡ some y → x ≡ y
    some-inj e = ground (arith, e)

    apart :
        (ss : List StreamId)
        → All (λ s. owner s ns ≡ some a) ss
        → All (λ s. (owner s ns ≡ some a) × (owner s ms ≢ some b)) ss
    apart [] h = tt
    apart (s ∷ ss) h =
        ((h.0, λ e. ne (some-inj (sym h.0 ∙ owner-same_members s ns ms same ∙ e))), apart ss h.1)
