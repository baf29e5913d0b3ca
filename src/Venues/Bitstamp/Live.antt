-- ===== src/Venues/Bitstamp/Live.antt =====
-- What the book of a Bitstamp stream is given, and that it is a lawful venue.
use market_aggregator.Common.{
  ℕ, ◌≤◌, ◌<◌, true, false, Option, none, some, List, [], ◌∷◌, ◌++◌, ◌≡◌, refl, ap, ◌∙◌, arith,
  Text, All, leb, if◌then◌else◌, Bool-cases, ◌⊎◌, inl, inr, codes, text_eqb, Result, ok, err, ok_or,
}
use mathlib.Core.List.{append_assoc, append-nil}
use market_aggregator.Core.Book.{DesyncReason, is_live}
use market_aggregator.Venues.Wire.{level_from_str_pair}
use market_aggregator.Core.Decimal.{Decimal}
use market_aggregator.Venues.Sync.{SyncAction, VenueError, opened}
use market_aggregator.Venues.Sync.Replay.{IsPlain, replay, events_of}
use market_aggregator.Venues.Sync.Session.{
  Input, IsLawful, AllPlain, bind-AllPlain, session, session-replay,
}
use market_aggregator.Venues.Bitstamp.{
  BitstampSync, Mode, PendingDiff, Envelope, Json, accept, check_order, diff_action, is_empty,
  splice_from, survivors, splice, pending_of, read_trade, read_diff, parse_micros, new, take_diff,
  ingest_envelope, bitstamp,
}

-- Each number is above the one before it, the first above `last`.
abbrev pub Climbs : ℕ → List ℕ → Type 0
Climbs last [] = Unit
Climbs last (n ∷ ns) = (last < n) × Climbs n ns

module _ {D : Type 0} where
  -- The timestamp, where the action is a delta.
  abbrev pub stamp : SyncAction D → ℕ → List ℕ → List ℕ
  stamp (SyncAction.delta bids asks) micros rest = micros ∷ rest
  stamp _ micros rest = rest

  -- The timestamps of the diffs that are passed on as deltas, out of any that arrive.
  unfoldable pub applied : Mode D → List (PendingDiff D) → List ℕ
  applied m [] = []
  applied m (d ∷ ds) = let (m', action) = accept m d in stamp action d.micros (applied m' ds)

  -- Whatever diffs arrive on a live stream, those that reach the book as deltas rise strictly in
  -- time, and are all newer than the last one before and than the snapshot.
  pub applied-Climbs :
      (last spliced_at : ℕ) (ds : List (PendingDiff D))
      → spliced_at ≤ last
      → Climbs last (applied (Mode.live last spliced_at) ds)
  unfolding applied accept
  applied-Climbs last spliced_at [] h = tt
  applied-Climbs last spliced_at (d ∷ ds) h = elim (Bool-cases (leb d.micros spliced_at)) [
    | inl old ↦ rw old (applied-Climbs last spliced_at ds h)
    | inr new ↦ elim (Bool-cases (leb d.micros last)) [
      | inl late ↦ rw (new, late) (applied-Climbs last spliced_at ds h)
      | inr next ↦
          rw (new, next)
            (ground (arith, next), applied-Climbs d.micros spliced_at ds (ground (arith, h, next)))
    ]
  ]

  -- The mode after any diffs.
  unfoldable pub after_all : Mode D → List (PendingDiff D) → Mode D
  after_all m [] = m
  after_all m (d ∷ ds) = after_all (accept m d).0 ds

  -- Before the snapshot no diff reaches the book, whatever arrives, and all of them are buffered
  -- in the order of arrival.
  pub applied-awaiting :
      (pending ds : List (PendingDiff D))
      → (applied (Mode.awaiting_snapshot pending) ds ≡ [])
        × (after_all (Mode.awaiting_snapshot pending) ds ≡ Mode.awaiting_snapshot (pending ++ ds))
  unfolding applied accept after_all
  applied-awaiting pending [] = (refl, rw (append-nil pending) refl)
  applied-awaiting pending (d ∷ ds) =
      let (none_applied, kept) = applied-awaiting (pending ++ d ∷ []) ds in
      (
        unstamped pending none_applied,
        kept ∙ ap Mode.awaiting_snapshot (append_assoc pending (d ∷ []) ds),
      )
    where
      unstamped :
          (p : List (PendingDiff D)) {rest : List ℕ}
          → rest ≡ []
          → stamp
              (if is_empty p
                then SyncAction.desync DesyncReason.awaiting_snapshot
                else SyncAction.ignore)
              d.micros
              rest
            ≡ []
      unstamped [] e = e
      unstamped (x ∷ xs) e = e

  diff_action-IsPlain :
      (d : PendingDiff D) (last : ℕ) → IsPlain (diff_action (check_order last d.micros).1 d)
  diff_action-IsPlain d last = ground arith

  accept-IsPlain : (m : Mode D) (d : PendingDiff D) → IsPlain (accept m d).1
  unfolding accept
  accept-IsPlain m d = ground arith

  splice_from-IsPlain : (last : ℕ) (ds : List (PendingDiff D)) → All IsPlain (splice_from last ds).1
  unfolding splice_from
  splice_from-IsPlain last [] = tt
  splice_from-IsPlain last (d ∷ ds) =
      (diff_action-IsPlain d last, splice_from-IsPlain (check_order last d.micros).0 ds)

module _ (D : Type 0) {J : Type 0} ⦃dec : Decimal D⦄ (json : Json J) where
  read_trade-AllPlain : (j : J) → AllPlain {D = D} (read_trade json j)
  unfolding read_trade
  read_trade-AllPlain j = bind-AllPlain (ok_or (json.trade_data j) VenueError.malformed) _ (λ t.
      bind-AllPlain (parse_micros t.microtimestamp) _
        (λ micros. bind-AllPlain (level_from_str_pair t.price_str t.amount_str) _ (λ l. (tt, tt))))

module _ {D J : Type 0} ⦃dec : Decimal D⦄ (json : Json J) where
  take_diff-AllPlain :
      (s : BitstampSync D) (r : Result (PendingDiff D) VenueError) → AllPlain (take_diff json s r).1
  take_diff-AllPlain s (err e) = tt
  take_diff-AllPlain s (ok d) = (accept-IsPlain s.mode d, tt)

  ingest_envelope-AllPlain :
      (s : BitstampSync D) (e : Option (Envelope J)) → AllPlain (ingest_envelope json s e).1
  ingest_envelope-AllPlain s none = tt
  ingest_envelope-AllPlain s (some e) = elim (Bool-cases (text_eqb e.event (codes "trade"))) [
    | inl trade ↦ elim (Bool-cases (text_eqb e.channel s.trades_channel)) [
      | inl ours ↦ rw (trade, ours) (read_trade-AllPlain D json e.payload)
      | inr other ↦ rw (trade, other) tt
    ]
    | inr no_trade ↦ elim (Bool-cases (text_eqb e.event (codes "data"))) [
      | inr ack ↦ rw (no_trade, ack) (tt, tt)
      | inl diff ↦ elim (Bool-cases (text_eqb e.channel s.channel)) [
        | inl ours ↦ rw (no_trade, diff, ours) (take_diff-AllPlain s (read_diff json e.payload))
        | inr other ↦ rw (no_trade, diff, other) tt
      ]
    ]
  ]

  -- Bitstamp is a lawful venue whatever JSON decoding does: it forwards prints only, no book
  -- content, and its checksum reads the two sides at most.
  pub bitstamp-IsLawful : IsLawful (bitstamp {D = D} json)
  unfolding splice
  bitstamp-IsLawful = record {
    reads = record { reads_sides = λ s t b c h k. refl };
    ingest_plain = λ s f. ingest_envelope-AllPlain s (json.envelope f.payload);
    splice_plain = λ s r. (tt, splice_from-IsPlain r.as_of (survivors r.as_of (pending_of s.mode)));
  }

  -- The events that a Bitstamp stream emits, whatever arrives on it and however often it
  -- reconnects, give a new book the same bids and asks, and it is live unless the stream's is not.
  pub bitstamp-replay :
      (pair symbol : Text) (is : List Input)
      → let (v, os) =
          session (bitstamp json) (opened (bitstamp {D = D} json) (new pair) symbol) is in
        let r = replay (bitstamp json) (opened (bitstamp json) (new pair) symbol) (events_of os) in
        (r.book.bids ≡ v.book.bids)
        × (r.book.asks ≡ v.book.asks)
        × ((is_live v.book.state ≡ false) ⊎ (is_live r.book.state ≡ true))
  bitstamp-replay pair symbol is =
      session-replay (bitstamp json) bitstamp-IsLawful none (new pair) (new pair) symbol is
