-- ===== src/Venues/Coinbase/Live.antt =====
-- What the book of a Coinbase stream is given, and that it is a lawful venue.
use market_aggregator.Common.{
  true, false, Option, none, some, List, [], ◌∷◌, ◌++◌, ◌≡◌, refl, Text, All, All-append,
  Bool-cases, ◌⊎◌, inl, inr, codes, text_eqb, Result, ok, err, ok_or, ◌>>=◌,
}
use market_aggregator.Core.Book.{DesyncReason, is_live}
use market_aggregator.Core.Event.{Level}
use market_aggregator.Core.Time.{WallTime}
use market_aggregator.Core.Decimal.{Decimal}
use market_aggregator.Venues.Wire.{level_from_str_pair}
use market_aggregator.Venues.Rfc3339.{stamp_of}
use market_aggregator.Venues.Sync.{SyncAction, Ingested, VenueError, opened}
use market_aggregator.Venues.Sync.Replay.{IsPlain, replay, events_of}
use market_aggregator.Venues.Sync.Session.{Input, IsLawful, AllPlain, session, session-replay}
use market_aggregator.Venues.Coinbase.{
  CoinbaseSync, Envelope, Json, L2Kind, L2Event, TradesEvent, WireTrade, check_seq, l2_action,
  split_updates, read_prints, trades_actions, l2_actions, read_l2, read_heartbeats, read_trades,
  channel_actions, answer, stamped, ingest_envelope, new, coinbase,
}

module _ {D : Type 0} where
  -- The actions that are no desync and forward no book content.
  abbrev pub IsQuiet : SyncAction D → Type 0
  IsQuiet (SyncAction.desync reason) = ⊥
  IsQuiet a = IsPlain a

  abbrev pub AllQuiet : Result (List (SyncAction D)) VenueError → Type 0
  AllQuiet (ok as') = All IsQuiet as'
  AllQuiet (err e) = Unit

  quiet-IsPlain : (a : SyncAction D) → IsQuiet a → IsPlain a
  quiet-IsPlain SyncAction.ignore h = tt
  quiet-IsPlain (SyncAction.snapshot bids asks) h = tt
  quiet-IsPlain (SyncAction.delta bids asks) h = tt
  quiet-IsPlain (SyncAction.verify n) h = tt
  quiet-IsPlain (SyncAction.forward k) h = h
  quiet-IsPlain (SyncAction.desync r) h = tt

  pub all_quiet-IsPlain : (as' : List (SyncAction D)) → All IsQuiet as' → All IsPlain as'
  all_quiet-IsPlain [] h = tt
  all_quiet-IsPlain (a ∷ as') h = (quiet-IsPlain a h.0, all_quiet-IsPlain as' h.1)

  bind-AllQuiet :
      {A : Type 0} (r : Result A VenueError) (f : A → Result (List (SyncAction D)) VenueError)
      → ((a : A) → AllQuiet (f a))
      → AllQuiet (r >>= f)
  bind-AllQuiet (ok a) f h = h a
  bind-AllQuiet (err e) f h = tt

  -- `?` on both of two results, and the actions of one before those of the other.
  joined-AllQuiet :
      (r rest : Result (List (SyncAction D)) VenueError)
      → AllQuiet r
      → AllQuiet rest
      → AllQuiet (r >>= (λ as'. rest >>= (λ bs. ok (as' ++ bs))))
  joined-AllQuiet (ok as') (ok bs) h k = All-append IsQuiet as' bs h k
  joined-AllQuiet (ok as') (err e) h k = tt
  joined-AllQuiet (err e) rest h k = tt

  pushed-AllQuiet :
      (rest : Result (List (SyncAction D)) VenueError) (a : SyncAction D)
      → IsQuiet a
      → AllQuiet rest
      → AllQuiet (rest >>= (λ bs. ok (a ∷ bs)))
  pushed-AllQuiet (ok bs) a h k = (h, k)
  pushed-AllQuiet (err e) a h k = tt

module _ (D : Type 0) ⦃dec : Decimal D⦄ where
  read_prints-AllQuiet :
      (product : Text) (ts : List WireTrade) → AllQuiet {D = D} (read_prints product ts)
  unfolding read_prints
  read_prints-AllQuiet product [] = tt
  read_prints-AllQuiet product (t ∷ ts) = elim (Bool-cases (text_eqb t.product_id product)) [
    | inl ours ↦ rw ours (
        bind-AllQuiet (level_from_str_pair t.price_str t.size_str) _
          (λ l. pushed-AllQuiet (read_prints product ts) _ tt (read_prints-AllQuiet product ts)))
    | inr other ↦ rw other (read_prints-AllQuiet product ts)
  ]

  trades_actions-AllQuiet :
      (product : Text) (e : TradesEvent) → AllQuiet {D = D} (trades_actions product e)
  trades_actions-AllQuiet product e = by_kind e.kind
    where
      by_kind :
          (k : L2Kind)
          → AllQuiet {D = D} (elim k as (λ _. Result (List (SyncAction D)) VenueError) [
            | L2Kind.snapshot ↦ ok (SyncAction.ignore ∷ [])
            | L2Kind.update ↦ read_prints product e.trades
          ])
      by_kind L2Kind.snapshot = (tt, tt)
      by_kind L2Kind.update = read_prints-AllQuiet product e.trades

  l2_actions-AllQuiet : (product : Text) (e : L2Event) → AllQuiet {D = D} (l2_actions product e)
  l2_actions-AllQuiet product e = elim (Bool-cases (text_eqb e.product_id product)) [
    | inl ours ↦ rw ours (bind-AllQuiet (split_updates e.updates) _ (λ sides. by_kind sides e.kind))
    | inr other ↦ rw other tt
  ]
    where
      by_kind :
          (sides : List (Level D) × List (Level D)) (k : L2Kind)
          → All IsQuiet (l2_action k sides ∷ [])
      by_kind (b, a) L2Kind.snapshot = (tt, tt)
      by_kind (b, a) L2Kind.update = (tt, tt)

module _ (D : Type 0) {J : Type 0} ⦃dec : Decimal D⦄ (json : Json J) where
  read_l2-AllQuiet : (product : Text) (js : List J) → AllQuiet {D = D} (read_l2 json product js)
  unfolding read_l2
  read_l2-AllQuiet product [] = tt
  read_l2-AllQuiet product (j ∷ js) =
      bind-AllQuiet (ok_or (json.l2_event j) VenueError.malformed) _ (λ e.
        joined-AllQuiet (l2_actions product e) (read_l2 json product js)
          (l2_actions-AllQuiet D product e) (read_l2-AllQuiet product js))

  read_trades-AllQuiet :
      (product : Text) (js : List J) → AllQuiet {D = D} (read_trades json product js)
  unfolding read_trades
  read_trades-AllQuiet product [] = tt
  read_trades-AllQuiet product (j ∷ js) =
      bind-AllQuiet (ok_or (json.trades_event j) VenueError.malformed) _ (λ e.
        joined-AllQuiet (trades_actions product e) (read_trades json product js)
          (trades_actions-AllQuiet D product e) (read_trades-AllQuiet product js))

  read_heartbeats-AllQuiet : (js : List J) → AllQuiet {D = D} (read_heartbeats json js)
  unfolding read_heartbeats
  read_heartbeats-AllQuiet [] = tt
  read_heartbeats-AllQuiet (j ∷ js) =
      bind-AllQuiet (ok_or (json.heartbeat_event j) VenueError.malformed) _
        (λ n. pushed-AllQuiet (read_heartbeats json js) _ tt (read_heartbeats-AllQuiet js))

  pub channel_actions-AllQuiet :
      (product : Text) (e : Envelope J) → AllQuiet {D = D} (channel_actions json product e)
  unfolding channel_actions
  channel_actions-AllQuiet product e = elim (Bool-cases (text_eqb e.channel (codes "l2_data"))) [
    | inl l2 ↦ rw l2 (read_l2-AllQuiet product e.events)
    | inr not_l2 ↦ elim (Bool-cases (text_eqb e.channel (codes "heartbeats"))) [
      | inl beats ↦ rw (not_l2, beats) (read_heartbeats-AllQuiet e.events)
      | inr not_beats ↦ elim (Bool-cases (text_eqb e.channel (codes "market_trades"))) [
        | inl trades ↦ rw (not_l2, not_beats, trades) (read_trades-AllQuiet product e.events)
        | inr unknown ↦ rw (not_l2, not_beats, unknown) (tt, tt)
      ]
    ]
  ]

  answer-AllPlain :
      (product : Text) (e : Envelope J) (venue_ts : Option WallTime)
      (reason : Option (DesyncReason D))
      → AllPlain (answer json product e venue_ts reason)
  answer-AllPlain product e venue_ts (some reason) = (tt, tt)
  answer-AllPlain product e venue_ts none =
      go (channel_actions json product e) (channel_actions-AllQuiet product e)
    where
      go :
          (r : Result (List (SyncAction D)) VenueError)
          → AllQuiet r
          → AllPlain (r >>= (λ actions. ok (stamped json venue_ts actions)))
      go (ok as') h = all_quiet-IsPlain as' h
      go (err x) h = tt

  ingest_envelope-AllPlain :
      (s : CoinbaseSync) (e : Option (Envelope J)) → AllPlain {D = D} (ingest_envelope json s e).1
  ingest_envelope-AllPlain s none = tt
  ingest_envelope-AllPlain s (some e) = go (stamp_of e.timestamp)
    where
      go :
          (r : Result (Option WallTime) VenueError)
          → AllPlain {D = D}
              (elim r as (λ _. CoinbaseSync × Result (Ingested D) VenueError) [
                | err x ↦ (s, err x)
                | ok venue_ts ↦
                    let (s', reason) = check_seq s e.sequence_num in
                    (s', answer json s.product_id e venue_ts reason)
              ]).1
      go (err x) = tt
      go (ok venue_ts) = answer-AllPlain s.product_id e venue_ts (check_seq s e.sequence_num).1

module _ {D J : Type 0} ⦃dec : Decimal D⦄ (json : Json J) where
  pub coinbase-IsLawful : IsLawful (coinbase {D = D} json)
  coinbase-IsLawful = record {
    reads = record { reads_sides = λ s t b c h k. refl };
    ingest_plain = λ s f. ingest_envelope-AllPlain D json s (json.envelope f.payload);
    splice_plain = λ s r. tt;
  }

  -- The events that a Coinbase stream emits, whatever arrives on it and however often it
  -- reconnects, give a new book the same bids and asks, and it is live unless the stream's is not.
  pub coinbase-replay :
      (product symbol : Text) (is : List Input)
      → let (v, os) =
          session (coinbase json) (opened (coinbase {D = D} json) (new product) symbol) is in
        let r =
          replay (coinbase json) (opened (coinbase json) (new product) symbol) (events_of os) in
        (r.book.bids ≡ v.book.bids)
        × (r.book.asks ≡ v.book.asks)
        × ((is_live v.book.state ≡ false) ⊎ (is_live r.book.state ≡ true))
  coinbase-replay product symbol is =
      session-replay (coinbase json) coinbase-IsLawful none (new product) (new product) symbol is
