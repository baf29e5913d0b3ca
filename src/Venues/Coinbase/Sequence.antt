-- ===== src/Venues/Coinbase/Sequence.antt =====
-- What the count of messages finds, over all channels of a connection.
use market_aggregator.Common.{
  ℕ, ◌+◌, ◌%◌, ◌^◌, Option, none, some, List, [], ◌∷◌, ◌≡◌, ◌≢◌, ◌↔◌, refl, sym, subst, arith, Text,
  All, map, true, false, Bool-cases, inl, inr, Result, ok, err, ◌==◌, ==_iff, ◌>>=◌,
}
use market_aggregator.Core.Decimal.{Decimal}
use market_aggregator.Core.Time.{IngestTime, WallTime}
use market_aggregator.Core.Book.{Book, DesyncReason, is_live, mark_desynced}
use market_aggregator.Venues.Sync.{
  SyncAction, Ingested, VenueError, VenueBook, RawFrame, FrameSource, feed, feed_socket,
  apply_ingested, apply_actions, apply_action,
}
use market_aggregator.Venues.Rfc3339.{Parsed, parse_rfc3339, stamp_of}
use market_aggregator.Venues.Rfc3339.Unwind.{IsAscii, parse_rfc3339-returns}
use market_aggregator.Venues.Coinbase.{
  CoinbaseSync, Envelope, Json, seq_gap, check_seq, channel_actions, answer, stamped,
  ingest_envelope, new, coinbase,
}
use market_aggregator.Venues.Coinbase.Live.{IsQuiet, AllQuiet, channel_actions-AllQuiet}

-- Each number follows the one before it, around the end of 64 bits.
abbrev pub Consecutive : List ℕ → Type 0
Consecutive [] = Unit
Consecutive (n ∷ []) = Unit
Consecutive (n ∷ m ∷ ms) = (m ≡ (n + 1) % 2 ^ 64) × Consecutive (m ∷ ms)

abbrev pub AsciiStamp : Option Text → Type 0
AsciiStamp none = Unit
AsciiStamp (some raw) = IsAscii raw

stamp_of-returns : (t : Option Text) → AsciiStamp t → (o : Option WallTime) × (stamp_of t ≡ ok o)
stamp_of-returns none h = (none, refl)
stamp_of-returns (some raw) h = go (parse_rfc3339 raw) (parse_rfc3339-returns raw h)
  where
    go :
        (p : Parsed)
        → p ≢ Parsed.unwinds
        → (o : Option WallTime) × ((elim p as (λ _. Result (Option WallTime) VenueError) [
          | Parsed.found t ↦ ok (some t)
          | Parsed.absent ↦ ok none
          | Parsed.unwinds ↦ err VenueError.unwound
        ])
            ≡ ok o)
    go (Parsed.found t) k = (some t, refl)
    go Parsed.absent k = (none, refl)
    go Parsed.unwinds k = absurd (k refl)

-- The number is the expected one, if one is expected.
abbrev pub InPlace : Option ℕ → ℕ → Type 0
InPlace none n = Unit
InPlace (some x) n = n ≡ x

-- The first of the numbers is the expected one, if one is expected.
abbrev pub Starts : Option ℕ → List ℕ → Type 0
Starts expected [] = Unit
Starts expected (n ∷ ns) = InPlace expected n

Consecutive-cons :
    (n : ℕ) (ns : List ℕ)
    → Consecutive (n ∷ ns) ↔ (Starts (some ((n + 1) % 2 ^ 64)) ns × Consecutive ns)
Consecutive-cons n [] = (λ h. (tt, tt), λ h. tt)
Consecutive-cons n (m ∷ ms) = (λ h. h, λ h. h)

abbrev pub numbers : {J : Type 0} → List (Envelope J) → List ℕ
numbers es = map (λ e. e.sequence_num) es

module _ {D : Type 0} where
  -- Where a message is answered with actions, none of them is a desync.
  abbrev pub NoDesync : Result (Ingested D) VenueError → Type 0
  NoDesync (ok ingested) = All IsQuiet ingested.actions
  NoDesync (err e) = Unit

module _ (D : Type 0) {J : Type 0} ⦃dec : Decimal D⦄ (json : Json J) where
  -- No message of a connection is answered with a desync.
  unfoldable pub GapFree : CoinbaseSync → List (Envelope J) → Type 0
  GapFree s [] = Unit
  GapFree s (e ∷ es) =
      NoDesync {D = D} (ingest_envelope json s (some e)).1
      × GapFree (ingest_envelope {D = D} json s (some e)).0 es

  answer-NoDesync :
      (product : Text) (e : Envelope J) (venue_ts : Option WallTime)
      → NoDesync {D = D} (answer json product e venue_ts none)
  answer-NoDesync product e venue_ts =
      go (channel_actions json product e) (channel_actions-AllQuiet D json product e)
    where
      go :
          (r : Result (List (SyncAction D)) VenueError)
          → AllQuiet r
          → NoDesync (r >>= (λ actions. ok (stamped json venue_ts actions)))
      go (ok as') h = h
      go (err x) h = tt

  -- A message whose timestamp is read is answered as the count says.
  ingest-counted :
      (s : CoinbaseSync) (e : Envelope J) (o : Option WallTime)
      → stamp_of e.timestamp ≡ ok o
      → ingest_envelope {D = D} json s (some e) ≡ (
        (check_seq {D = D} s e.sequence_num).0,
        answer json s.product_id e o (check_seq s e.sequence_num).1,
      )
  unfolding check_seq
  ingest-counted s e o h = rw (h, ingest_envelope) refl

  seq_gap-none : (x n : ℕ) → (n == x) ≡ true → seq_gap {D = D} (some x) n ≡ none
  seq_gap-none x n h = rw h refl

  seq_gap-some :
      (x n : ℕ)
      → (n == x) ≡ false
      → seq_gap {D = D} (some x) n ≡ some (DesyncReason.sequence_gap x n)
  seq_gap-some x n h = rw h refl

  answer-counted :
      (product : Text) (e : Envelope J) (o : Option WallTime) (expected : Option ℕ) (n : ℕ)
      → NoDesync {D = D} (answer json product e o (seq_gap expected n)) ↔ InPlace expected n
  answer-counted product e o none n = (λ h. tt, λ h. answer-NoDesync product e o)
  answer-counted product e o (some x) n = elim (Bool-cases (n == x)) [
    | inl same ↦ (
      λ h. (==_iff n x).0 same,
      λ h.
          subst (λ r. NoDesync {D = D} (answer json product e o r)) (sym (seq_gap-none x n same))
            (answer-NoDesync product e o),
    )
    | inr other ↦ (
      λ h.
          absurd
            (subst (λ r. NoDesync {D = D} (answer json product e o r)) (seq_gap-some x n other)
              h).0,
      λ h. absurd (differs other h),
    )
  ]
    where
      differs : (n == x) ≡ false → n ≡ x → ⊥
      differs h k = ground (arith, h, k)

  GapFree-cons :
      (s : CoinbaseSync) (e : Envelope J) (es : List (Envelope J)) (o : Option WallTime)
      → stamp_of e.timestamp ≡ ok o
      → GapFree (check_seq {D = D} s e.sequence_num).0 es
        ↔ (Starts (some ((e.sequence_num + 1) % 2 ^ 64)) (numbers es) × Consecutive (numbers es))
      → GapFree s (e ∷ es)
        ↔ (Starts s.expected_seq (numbers (e ∷ es)) × Consecutive (numbers (e ∷ es)))
  unfolding GapFree check_seq
  GapFree-cons s e es o read rest =
      subst
        (λ r.
          (NoDesync {D = D} r.1 × GapFree r.0 es)
          ↔ (InPlace s.expected_seq e.sequence_num × Consecutive (numbers (e ∷ es))))
        (sym (ingest-counted s e o read))
        (
          λ g. (counted.0 g.0, (Consecutive-cons e.sequence_num (numbers es)).1 (rest.0 g.1)),
          λ c. (counted.1 c.0, rest.1 ((Consecutive-cons e.sequence_num (numbers es)).0 c.1)),
        )
    where
      counted :
          NoDesync {D = D} (answer json s.product_id e o (seq_gap s.expected_seq e.sequence_num))
          ↔ InPlace s.expected_seq e.sequence_num
      counted = answer-counted s.product_id e o s.expected_seq e.sequence_num

  -- A connection is free of gaps exactly where its first number is the one expected, if one is
  -- expected, and each of the others follows the one before it.
  GapFree-from :
      (s : CoinbaseSync) (es : List (Envelope J))
      → All (λ e. AsciiStamp e.timestamp) es
      → GapFree s es ↔ (Starts s.expected_seq (numbers es) × Consecutive (numbers es))
  unfolding GapFree check_seq
  GapFree-from s [] a = (λ g. (tt, tt), λ g. tt)
  GapFree-from s (e ∷ es) a =
      let (o, read) = stamp_of-returns e.timestamp a.0 in
      GapFree-cons s e es o read (GapFree-from (check_seq {D = D} s e.sequence_num).0 es a.1)

  -- On a new connection, whatever the channels and the events of its messages are, none of them is
  -- answered with a desync exactly where their numbers are consecutive: no lost message passes
  -- unseen, and nothing else is taken for a lost one. The timestamps are in ASCII.
  pub GapFree-Consecutive :
      (product : Text) (es : List (Envelope J))
      → All (λ e. AsciiStamp e.timestamp) es
      → GapFree (new product) es ↔ Consecutive (numbers es)
  unfolding new
  GapFree-Consecutive product es a = unstarted es (GapFree-from (new product) es a)
    where
      unstarted :
          (es' : List (Envelope J)) {G : Type 0}
          → G ↔ (Starts none (numbers es') × Consecutive (numbers es'))
          → G ↔ Consecutive (numbers es')
      unstarted [] c = (λ g. tt, λ k. c.1 (tt, tt))
      unstarted (e ∷ es') c = (λ g. (c.0 g).1, λ k. c.1 (tt, k))

module _ {D J : Type 0} ⦃dec : Decimal D⦄ (json : Json J) where
  -- The book is out of live, and its sides are those it had.
  abbrev pub Stopped : Book D → Book D → Type 0
  Stopped before after =
      (is_live after.state ≡ false) × (after.bids ≡ before.bids) × (after.asks ≡ before.asks)

  check_seq-gap :
      (s : CoinbaseSync) (x n : ℕ)
      → s.expected_seq ≡ some x
      → n ≢ x
      → (check_seq {D = D} s n).1 ≡ some (DesyncReason.sequence_gap x n)
  unfolding check_seq
  check_seq-gap s x n expected differs =
      rw expected (seq_gap-some D json x n (ground (arith, differs)))

  feed_socket-gap :
      (v : VenueBook D CoinbaseSync) (s : CoinbaseSync) (e : Envelope J) (o : Option WallTime)
      (reason : DesyncReason D) (at : IngestTime)
      → Stopped v.book
          (feed_socket
            (coinbase json)
            v
            (s, answer json v.sync.product_id e o (some reason))
            at).0.book
  unfolding apply_ingested apply_actions apply_action mark_desynced
  feed_socket-gap v s e o reason at = (refl, refl, refl)

  -- A frame off the socket whose message is out of sequence takes the book out of live, whatever
  -- its channel, and leaves the two sides as they are. The timestamp is in ASCII.
  pub feed-gap :
      (v : VenueBook D CoinbaseSync) (f : RawFrame) (e : Envelope J) (x : ℕ)
      → f.source ≡ FrameSource.web_socket
      → json.envelope f.payload ≡ some e
      → AsciiStamp e.timestamp
      → v.sync.expected_seq ≡ some x
      → e.sequence_num ≢ x
      → Stopped v.book (feed (coinbase json) v f).0.book
  unfolding feed
  feed-gap v f e x socket decoded ascii expected differs =
      let (o, read) = stamp_of-returns e.timestamp ascii in
      rw (socket, decoded)
        (subst (λ r. Stopped v.book (feed_socket (coinbase json) v r f.ingest_ts).0.book)
          (sym (ingest-counted D json v.sync e o read))
          (subst
            (λ g.
              Stopped v.book
                (feed_socket (coinbase json) v
                  ((check_seq {D = D} v.sync e.sequence_num).0, answer json v.sync.product_id e o g)
                  f.ingest_ts).0.book)
            (sym (check_seq-gap v.sync x e.sequence_num expected differs))
            (feed_socket-gap v (check_seq {D = D} v.sync e.sequence_num).0 e o
              (DesyncReason.sequence_gap x e.sequence_num) f.ingest_ts)))
