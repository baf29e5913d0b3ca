-- ===== src/Venues/Kraken/Verified.antt =====
-- That the book of a Kraken stream is the one whose checksum the exchange sent.
use market_aggregator.Common.{
  ℕ, ==_iff, true, false, Option, none, some, List, [], ◌∷◌, ◌++◌, ◌≡◌, refl, sym, ap, subst, ◌∙◌,
  Text, Bool-cases, inl, inr, codes, text_eqb, Result, ok, err, ok_or, ◌>>=◌, Holds, bind-Holds,
  bind-Holds_with, All,
}
use mathlib.Core.List.{append_assoc, append-nil}
use market_aggregator.Core.Time.{IngestTime, WallTime}
use market_aggregator.Core.Book.{Book, is_live}
use market_aggregator.Core.Decimal.{Decimal}
use market_aggregator.Venues.Rfc3339.{stamp_of}
use market_aggregator.Venues.Sync.{
  SyncAction, Ingested, VenueError, VenueBook, Outcome, RawFrame, FrameSource, feed, feed_socket,
  apply_ingested, apply_actions, apply_action, check,
}
use market_aggregator.Venues.Sync.Replay.{check-sides, check_live, check_dead}
use market_aggregator.Venues.Kraken.{
  KrakenSync, Envelope, Calls, BookData, verify_action, kind_action, entry_actions, read_book,
  at_time, parsed, book_frame, channel_frame, to_levels, checksum, kraken, or_else,
}
use market_aggregator.Venues.Kraken.Live.{
  PassesBy, BypassesBook, channel_frame-BypassesBook, checksum-sides,
}

module _ (D : Type 0) {J : Type 0} ⦃dec : Decimal D⦄ (calls : Calls D J) where
  apply_actions-bypass :
      (s : KrakenSync) (b : Book D) (as' : List (SyncAction D)) (t : Option WallTime)
      (at : IngestTime)
      → All PassesBy as'
      → (apply_actions (kraken calls) s b as' t at).0 ≡ b
  unfolding apply_actions apply_action
  apply_actions-bypass s b [] t at h = refl
  apply_actions-bypass s b (SyncAction.ignore ∷ as') t at h = apply_actions-bypass s b as' t at h.1
  apply_actions-bypass s b (SyncAction.forward k ∷ as') t at h =
      apply_actions-bypass s b as' t at h.1
  apply_actions-bypass s b (SyncAction.snapshot x y ∷ as') t at h = absurd h.0
  apply_actions-bypass s b (SyncAction.delta x y ∷ as') t at h = absurd h.0
  apply_actions-bypass s b (SyncAction.verify n ∷ as') t at h = absurd h.0
  apply_actions-bypass s b (SyncAction.desync r ∷ as') t at h = absurd h.0

  feed_socket-bypass :
      (v : VenueBook D KrakenSync) (r : Result (Ingested D) VenueError) (at : IngestTime)
      → Holds (BypassesBook D calls) r
      → (feed_socket (kraken calls) v (v.sync, r) at).0.book ≡ v.book
  unfolding apply_ingested
  feed_socket-bypass v (err e) at h = refl
  feed_socket-bypass v (ok i) at h = apply_actions-bypass v.sync v.book i.actions i.venue_ts at h

  -- The checksum that a message ends with decides whether the book is live.
  check-settles :
      (s : KrakenSync) (b : Book D) (c : ℕ) (at : IngestTime)
      → is_live (check (kraken calls) s b c at).state ≡ true
      → checksum calls (check (kraken calls) s b c at) ≡ c
  check-settles s b c at h = elim (Bool-cases (is_live b.state)) [
    | inl live ↦
        checksum-sides calls (check (kraken calls) s b c at) b
          (check-sides (kraken calls) s b c at).0 (check-sides (kraken calls) s b c at).1
        ∙ (==_iff (checksum calls b) c).0 (sym (check_live (kraken calls) s b c at live) ∙ h)
    | inr dead ↦ absurd (
        clash (
          sym dead
          ∙ (ap (λ x. is_live x.state) (sym (check_dead (kraken calls) s b c at dead)) ∙ h)))
  ]
    where
      clash : false ≡ true → ⊥
      clash e = cc

  apply_actions-settles :
      (s : KrakenSync) (b : Book D) (as' : List (SyncAction D)) (c : ℕ) (t : Option WallTime)
      (at : IngestTime)
      → let b' = (apply_actions (kraken calls) s b (as' ++ SyncAction.verify c ∷ []) t at).0 in
        is_live b'.state ≡ true → checksum calls b' ≡ c
  unfolding apply_actions apply_action
  apply_actions-settles s b [] c t at h = check-settles s b c at h
  apply_actions-settles s b (a ∷ as') c t at h =
      apply_actions-settles s (apply_action (kraken calls) s b a at).0 as' c t at h

module _ (D : Type 0) ⦃dec : Decimal D⦄ where
  -- The last of the actions is this checksum.
  abbrev pub EndsWith : ℕ → List (SyncAction D) → Type 0
  EndsWith c as' = (before : List (SyncAction D)) × (as' ≡ before ++ SyncAction.verify c ∷ [])

  EndsWith-append : (c : ℕ) (as' bs : List (SyncAction D)) → EndsWith c bs → EndsWith c (as' ++ bs)
  EndsWith-append c as' bs (before, e) =
      (as' ++ before, ap (◌++◌ as') e ∙ sym (append_assoc as' before (SyncAction.verify c ∷ [])))

  entry_actions-EndsWith :
      (kind : Text) (e : BookData D) (c : ℕ)
      → e.checksum_value ≡ some c
      → Holds (EndsWith c) (entry_actions kind e)
  unfolding entry_actions
  entry_actions-EndsWith kind e c h = bind-Holds (EndsWith c) (to_levels e.bids) _ (λ bids.
      bind-Holds (EndsWith c) (to_levels e.asks) _ (λ asks.
        bind-Holds (EndsWith c) (kind_action kind bids asks) _
          (λ a. (a ∷ [], ap (λ o. a ∷ verify_action o) h))))

  read_book-EndsWith :
      (symbol kind : Text) (t : Option WallTime) (es : List (BookData D)) (e : BookData D) (c : ℕ)
      → text_eqb e.symbol symbol ≡ true
      → e.checksum_value ≡ some c
      → Holds (λ out. EndsWith c out.0) (read_book symbol kind t (es ++ e ∷ []))
  unfolding read_book
  read_book-EndsWith symbol kind t [] e c ours h = rw ours (
      bind-Holds (λ out. EndsWith c out.0) (stamp_of e.timestamp) _
        (λ t'.
          bind-Holds_with (EndsWith c) (λ out. EndsWith c out.0) (entry_actions kind e) _
            (entry_actions-EndsWith kind e c h)
            (λ as' k. subst (EndsWith c) (sym (append-nil as')) k)))
  read_book-EndsWith symbol kind t (d ∷ es) e c ours h =
      elim (Bool-cases (text_eqb d.symbol symbol)) [
        | inr other ↦ rw other (read_book-EndsWith symbol kind t es e c ours h)
        | inl same ↦ rw same (
            bind-Holds (λ out. EndsWith c out.0) (stamp_of d.timestamp) _
              (λ t'.
                bind-Holds (λ out. EndsWith c out.0) (entry_actions kind d) _
                  (λ as'.
                    bind-Holds_with (λ out. EndsWith c out.0) (λ out. EndsWith c out.0)
                      (read_book symbol kind (or_else t' t) (es ++ e ∷ [])) _
                      (read_book-EndsWith symbol kind (or_else t' t) es e c ours h)
                      (λ out k. EndsWith-append c as' out.0 k))))
      ]

module _ {D J : Type 0} ⦃dec : Decimal D⦄ (calls : Calls D J) where
  book_frame-EndsWith :
      (symbol : Text) (e : Envelope J) (es : List (BookData D)) (d : BookData D) (c : ℕ)
      → parsed calls calls.book_entries e.payload ≡ ok (es ++ d ∷ [])
      → text_eqb d.symbol symbol ≡ true
      → d.checksum_value ≡ some c
      → Holds (λ i. EndsWith D c i.actions) (book_frame calls symbol e)
  unfolding book_frame
  book_frame-EndsWith symbol e es d c decoded ours h =
      bind-Holds (λ i. EndsWith D c i.actions) (ok_or e.kind VenueError.malformed) _
        (λ kind.
          subst
            (λ r.
              Holds (λ i. EndsWith D c i.actions)
                (r >>= (λ es'. read_book symbol kind none es' >>= at_time)))
            (sym decoded)
            (bind-Holds_with (λ out. EndsWith D c out.0) (λ i. EndsWith D c i.actions)
              (read_book symbol kind none (es ++ d ∷ [])) _
              (read_book-EndsWith D symbol kind none es d c ours h) (λ out k. k)))

  -- An answer that ends with a checksum leaves a live book only where the book has it.
  feed_socket-settles :
      (v : VenueBook D KrakenSync) (r : Result (Ingested D) VenueError) (c : ℕ)
      (os : List (Outcome D)) (at : IngestTime)
      → Holds (λ i. EndsWith D c i.actions) r
      → (feed_socket (kraken calls) v (v.sync, r) at).1 ≡ ok os
      → is_live (feed_socket (kraken calls) v (v.sync, r) at).0.book.state ≡ true
      → checksum calls (feed_socket (kraken calls) v (v.sync, r) at).0.book ≡ c
  unfolding apply_ingested
  feed_socket-settles v (err e) c os at h fine live = cc
  feed_socket-settles v (ok i) c os at (before, e) fine live =
      subst
        (λ as'.
          is_live (apply_actions (kraken calls) v.sync v.book as' i.venue_ts at).0.state ≡ true
          → checksum calls (apply_actions (kraken calls) v.sync v.book as' i.venue_ts at).0 ≡ c)
        (sym e) (apply_actions-settles D calls v.sync v.book before c i.venue_ts at) live

  feed-book :
      (v : VenueBook D KrakenSync) (f : RawFrame) (e : Envelope J)
      → f.source ≡ FrameSource.web_socket
      → calls.envelope f.payload ≡ some e
      → e.channel ≡ some (codes "book")
      → feed (kraken calls) v f
        ≡ feed_socket (kraken calls) v (v.sync, book_frame calls v.sync.symbol e) f.ingest_ts
  unfolding feed channel_frame book_frame
  feed-book v f e socket envelope channel = rw (socket, envelope, channel) refl

  -- A book message whose last entry is this pair's and carries a checksum, and that is applied
  -- without an error, leaves the book live only where the book built has that checksum.
  pub feed-verified :
      (v : VenueBook D KrakenSync) (f : RawFrame) (e : Envelope J) (es : List (BookData D))
      (d : BookData D) (c : ℕ) (os : List (Outcome D))
      → f.source ≡ FrameSource.web_socket
      → calls.envelope f.payload ≡ some e
      → e.channel ≡ some (codes "book")
      → parsed calls calls.book_entries e.payload ≡ ok (es ++ d ∷ [])
      → text_eqb d.symbol v.sync.symbol ≡ true
      → d.checksum_value ≡ some c
      → (feed (kraken calls) v f).1 ≡ ok os
      → is_live (feed (kraken calls) v f).0.book.state ≡ true
      → checksum calls (feed (kraken calls) v f).0.book ≡ c
  feed-verified v f e es d c os socket envelope channel decoded ours h fine live =
      subst (λ r. r.1 ≡ ok os → is_live r.0.book.state ≡ true → checksum calls r.0.book ≡ c)
        (sym (feed-book v f e socket envelope channel))
        (feed_socket-settles v (book_frame calls v.sync.symbol e) c os f.ingest_ts
          (book_frame-EndsWith v.sync.symbol e es d c decoded ours h))
        fine live

  -- A message of any other channel, trades among them, leaves the book as it is.
  pub feed-bypass :
      (v : VenueBook D KrakenSync) (f : RawFrame) (e : Envelope J) (channel : Text)
      → f.source ≡ FrameSource.web_socket
      → calls.envelope f.payload ≡ some e
      → e.channel ≡ some channel
      → text_eqb channel (codes "book") ≡ false
      → (feed (kraken calls) v f).0.book ≡ v.book
  unfolding feed
  feed-bypass v f e channel socket envelope on other =
      rw (socket, envelope, on)
        (feed_socket-bypass D calls v (channel_frame calls v.sync.symbol e channel) f.ingest_ts
          (channel_frame-BypassesBook D calls v.sync.symbol e channel other))
