-- ===== src/Venues/Kraken/Live.antt =====
-- What the book of a Kraken stream is given, and that it is a lawful venue.
use market_aggregator.Common.{
  ℕ, true, false, Option, none, some, List, [], ◌∷◌, ◌≡◌, refl, Text, All, All-append, Bool-cases,
  ◌⊎◌, inl, inr, codes, text_eqb, Result, ok, err, ok_or, ◌>>=◌, Holds, bind-Holds, bind-Holds_with,
  ap, if◌then◌else◌,
}
use market_aggregator.Core.Time.{WallTime}
use market_aggregator.Core.Event.{Level, EventKind}
use market_aggregator.Core.Book.{Book, is_live, top_levels}
use market_aggregator.Core.Decimal.{Decimal, qty_from_decimal}
use market_aggregator.Venues.Rfc3339.{stamp_of}
use market_aggregator.Venues.Sync.{SyncAction, Ingested, VenueError, started, untimed, ignored}
use market_aggregator.Venues.Sync.Replay.{IsPlain, replay, events_of}
use market_aggregator.Venues.Sync.Session.{
  Input, IsLawful, AllPlain, IsPlainAnswer, session, session-replay,
}
use market_aggregator.Venues.Kraken.{
  KrakenSync, Envelope, Calls, BookData, TradeData, kind_action, verify_action, entry_actions,
  trade_action, pushed, read_book, read_trades, at_time, parsed, book_frame, trade_frame,
  channel_frame, ingest_envelope, to_levels, checksum_text, checksum, new, kraken, or_else,
}

module _ {D : Type 0} where
  -- Actions that satisfy `P`, with a time.
  abbrev pub Each : (SyncAction D → Type 0) → List (SyncAction D) × Option WallTime → Type 0
  Each P out = All P out.0

  pushed-Each :
      (P : SyncAction D → Type 0) (as' : List (SyncAction D))
      (out : List (SyncAction D) × Option WallTime)
      → All P as'
      → Each P out
      → Holds (Each P) (pushed as' out)
  pushed-Each P as' (bs, t) h k = All-append P as' bs h k

  -- The actions that neither touch the book nor forward book content.
  abbrev pub PassesBy : SyncAction D → Type 0
  PassesBy SyncAction.ignore = Unit
  PassesBy (SyncAction.forward (EventKind.trade p q s)) = Unit
  PassesBy (SyncAction.forward (EventKind.heartbeat c)) = Unit
  PassesBy _ = ⊥

module _ (D : Type 0) ⦃dec : Decimal D⦄ where
  kind_action-IsPlain :
      (kind : Text) (bids asks : List (Level D)) → Holds IsPlain (kind_action kind bids asks)
  kind_action-IsPlain kind bids asks = elim (Bool-cases (text_eqb kind (codes "snapshot"))) [
    | inl s ↦ rw s tt
    | inr n ↦ elim (Bool-cases (text_eqb kind (codes "update"))) [
      | inl u ↦ rw (n, u) tt
      | inr m ↦ rw (n, m) tt
    ]
  ]

  entry_actions-IsPlain :
      (kind : Text) (e : BookData D) → Holds (All IsPlain) (entry_actions kind e)
  unfolding entry_actions
  entry_actions-IsPlain kind e = bind-Holds (All IsPlain) (to_levels e.bids) _ (λ bids.
      bind-Holds (All IsPlain) (to_levels e.asks) _ (λ asks.
        bind-Holds_with IsPlain (All IsPlain) (kind_action kind bids asks) _
          (kind_action-IsPlain kind bids asks) (λ a h. (h, verified e.checksum_value))))
    where
      verified : (c : Option ℕ) → All IsPlain (verify_action {D = D} c)
      verified none = tt
      verified (some c) = (tt, tt)

  read_book-Each :
      (symbol kind : Text) (t : Option WallTime) (es : List (BookData D))
      → Holds (Each IsPlain) (read_book symbol kind t es)
  unfolding read_book
  read_book-Each symbol kind t [] = tt
  read_book-Each symbol kind t (e ∷ es) = elim (Bool-cases (text_eqb e.symbol symbol)) [
    | inr other ↦ rw other (read_book-Each symbol kind t es)
    | inl ours ↦ rw ours (
        bind-Holds (Each IsPlain) (stamp_of e.timestamp) _ (λ t'.
          bind-Holds_with (All IsPlain) (Each IsPlain) (entry_actions kind e) _
            (entry_actions-IsPlain kind e)
            (λ as' h.
              bind-Holds_with (Each IsPlain) (Each IsPlain)
                (read_book symbol kind (or_else t' t) es) _
                (read_book-Each symbol kind (or_else t' t) es)
                (λ out k. pushed-Each IsPlain as' out h k))))
  ]

  read_trades-Each :
      (symbol : Text) (t : Option WallTime) (es : List (TradeData D))
      → Holds (Each PassesBy) (read_trades symbol t es)
  unfolding read_trades
  read_trades-Each symbol t [] = tt
  read_trades-Each symbol t (e ∷ es) = elim (Bool-cases (text_eqb e.symbol symbol)) [
    | inr other ↦ rw other (read_trades-Each symbol t es)
    | inl ours ↦ rw ours (
        bind-Holds (Each PassesBy) (stamp_of e.timestamp) _ (λ t'.
          bind-Holds_with PassesBy (Each PassesBy) (trade_action e) _ (trade_action-PassesBy e)
            (λ a h.
              bind-Holds_with (Each PassesBy) (Each PassesBy) (read_trades symbol (or_else t' t) es)
                _ (read_trades-Each symbol (or_else t' t) es)
                (λ out k. pushed-Each PassesBy (a ∷ []) out (h, tt) k))))
  ]
    where
      trade_action-PassesBy : (e' : TradeData D) → Holds PassesBy (trade_action e')
      trade_action-PassesBy e' =
          bind-Holds PassesBy (ok_or (qty_from_decimal e'.qty) VenueError.malformed) _ (λ q. tt)

module _ (D : Type 0) {J : Type 0} ⦃dec : Decimal D⦄ (calls : Calls D J) where
  pub book_frame-AllPlain : (symbol : Text) (e : Envelope J) → AllPlain (book_frame calls symbol e)
  unfolding book_frame
  book_frame-AllPlain symbol e =
      bind-Holds IsPlainAnswer (ok_or e.kind VenueError.malformed) _ (λ kind.
        bind-Holds IsPlainAnswer (parsed calls calls.book_entries e.payload) _ (λ es.
          bind-Holds_with (Each IsPlain) IsPlainAnswer (read_book symbol kind none es) _
            (read_book-Each D symbol kind none es) (λ out h. h)))

  -- The actions of an answer all pass the book by.
  abbrev pub BypassesBook : Ingested D → Type 0
  BypassesBook ingested = All PassesBy ingested.actions

  trade_frame-BypassesBook :
      (symbol : Text) (e : Envelope J) → Holds BypassesBook (trade_frame calls symbol e)
  unfolding trade_frame
  trade_frame-BypassesBook symbol e =
      bind-Holds BypassesBook (ok_or e.kind VenueError.malformed) _ by_kind
    where
      by_kind :
          (kind : Text)
          → Holds BypassesBook (
              if text_eqb kind (codes "snapshot")
              then ok (untimed (SyncAction.ignore ∷ []))
              else parsed calls calls.trade_entries e.payload
                >>= (λ es. read_trades symbol none es >>= at_time))
      by_kind kind = elim (Bool-cases (text_eqb kind (codes "snapshot"))) [
        | inl history ↦ rw history (tt, tt)
        | inr live ↦ rw live (
            bind-Holds BypassesBook (parsed calls calls.trade_entries e.payload) _ (λ es.
              bind-Holds_with (Each PassesBy) BypassesBook (read_trades symbol none es) _
                (read_trades-Each D symbol none es) (λ out h. h)))
      ]

  -- Every message that is not on the channel "book" passes the book by.
  pub channel_frame-BypassesBook :
      (symbol : Text) (e : Envelope J) (channel : Text)
      → text_eqb channel (codes "book") ≡ false
      → Holds BypassesBook (channel_frame calls symbol e channel)
  unfolding channel_frame
  channel_frame-BypassesBook symbol e channel h =
      elim (Bool-cases (text_eqb channel (codes "trade"))) [
        | inl trade ↦ rw (h, trade) (trade_frame-BypassesBook symbol e)
        | inr n ↦ elim (Bool-cases (text_eqb channel (codes "heartbeat"))) [
          | inl beat ↦ rw (h, n, beat) (tt, tt)
          | inr other ↦ rw (h, n, other) (tt, tt)
        ]
      ]

  bypasses-AllPlain : (r : Result (Ingested D) VenueError) → Holds BypassesBook r → AllPlain r
  bypasses-AllPlain (err e) h = tt
  bypasses-AllPlain (ok ingested) h = go ingested.actions h
    where
      one : (a : SyncAction D) → PassesBy a → IsPlain a
      one SyncAction.ignore k = tt
      one (SyncAction.forward (EventKind.trade p q s)) k = tt
      one (SyncAction.forward (EventKind.heartbeat c)) k = tt
      one (SyncAction.forward (EventKind.snapshot b a)) k = absurd k
      one (SyncAction.forward (EventKind.delta b a)) k = absurd k
      one (SyncAction.forward (EventKind.checksum n)) k = absurd k
      one (SyncAction.snapshot b a) k = absurd k
      one (SyncAction.delta b a) k = absurd k
      one (SyncAction.verify n) k = absurd k
      one (SyncAction.desync r) k = absurd k

      go : (as' : List (SyncAction D)) → All PassesBy as' → All IsPlain as'
      go [] k = tt
      go (a ∷ as') k = (one a k.0, go as' k.1)

  channel_frame-AllPlain :
      (symbol : Text) (e : Envelope J) (channel : Text)
      → AllPlain (channel_frame calls symbol e channel)
  unfolding channel_frame
  channel_frame-AllPlain symbol e channel = elim (Bool-cases (text_eqb channel (codes "book"))) [
    | inl book ↦ rw book (book_frame-AllPlain symbol e)
    | inr n ↦
        bypasses-AllPlain (channel_frame calls symbol e channel)
          (channel_frame-BypassesBook symbol e channel n)
  ]

  ingest_envelope-AllPlain :
      (s : KrakenSync) (e : Option (Envelope J)) → AllPlain (ingest_envelope calls s e)
  ingest_envelope-AllPlain s none = tt
  ingest_envelope-AllPlain s (some e) = go e.channel
    where
      go :
          (c : Option Text)
          → AllPlain (elim c as (λ _. Result (Ingested D) VenueError) [
            | none ↦ ok ignored
            | some channel ↦ channel_frame calls s.symbol e channel
          ])
      go none = (tt, tt)
      go (some channel) = channel_frame-AllPlain s.symbol e channel

module _ {D J : Type 0} ⦃dec : Decimal D⦄ (calls : Calls D J) where
  -- The checksum reads the first ten levels of the two sides, and so nothing but the sides.
  pub checksum-sides :
      (b c : Book D) → b.bids ≡ c.bids → b.asks ≡ c.asks → checksum calls b ≡ checksum calls c
  unfolding checksum_text top_levels
  checksum-sides b c h k = rw (h, k) refl

  pub kraken-IsLawful : IsLawful (kraken calls)
  kraken-IsLawful = record {
    reads = record { reads_sides = λ s t b c h k. ap some (checksum-sides b c h k) };
    ingest_plain = λ s f. ingest_envelope-AllPlain D calls s (calls.envelope f.payload);
    splice_plain = λ s r. tt;
  }

  -- The events that a Kraken stream emits, whatever arrives on it and however often it reconnects,
  -- give a new book the same bids and asks, and it is live unless the stream's is not. Both books
  -- have one limit on their depth, as Kraken's have in production, or none.
  pub kraken-replay :
      (depth : Option ℕ) (pair symbol : Text) (is : List Input)
      → let (v, os) = session (kraken calls) (started (kraken calls) depth (new pair) symbol) is in
        let r =
          replay (kraken calls) (started (kraken calls) depth (new pair) symbol) (events_of os) in
        (r.book.bids ≡ v.book.bids)
        × (r.book.asks ≡ v.book.asks)
        × ((is_live v.book.state ≡ false) ⊎ (is_live r.book.state ≡ true))
  kraken-replay depth pair symbol is =
      session-replay (kraken calls) (kraken-IsLawful) depth (new pair) (new pair) symbol is
