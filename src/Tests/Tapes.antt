-- ===== src/Tests/Tapes.antt =====
-- A toy tape format, which gives back what was written, and the round trip of a recording.
use market_aggregator.Common.{
  ℕ, zero, suc, ◌+◌, ◌-◌, Bool, true, false, Option, none, some, List, [], ◌∷◌, ◌++◌, ◌≡◌, refl, ap,
  ◌∙◌, map, Text, utf8_valid, ok, ◌>>=◌, ◌==◌, length, take, drop, arith, if◌then◌else◌,
}
use market_aggregator.Core.Event.{VenueId, StreamId}
use market_aggregator.Venues.Sync.{FrameSource}
use market_aggregator.Pipeline.Messages.{IngestMessage, SessionEnd}
use market_aggregator.Pipeline.Tape.{TapeFormat, TapeRecord, RecordKind, write_all, replayed}
use market_aggregator.Pipeline.Tape.RoundTrip.{IsFaithful, replay_of, write_all-replayed}
use market_aggregator.Tests.Data.{at_ms, toy_frame}

-- Numbers from 20 on, so that none ends a line.
abbrev lifted : Text → Text
lifted [] = []
lifted (n ∷ ns) = (n + 20) ∷ lifted ns

abbrev lowered : Text → Text
lowered [] = []
lowered (n ∷ ns) = (n - 20) ∷ lowered ns

lowered-lifted : (t : Text) → lowered (lifted t) ≡ t
lowered-lifted [] = refl
lowered-lifted (n ∷ ns) = λ i. back n i ∷ lowered-lifted ns i
  where
    back : (n : ℕ) → n + 20 - 20 ≡ n
    back n = omega arith

abbrev venue_code : VenueId → ℕ
venue_code VenueId.coinbase = 0
venue_code VenueId.kraken = 1
venue_code VenueId.bitstamp = 2
venue_code VenueId.fake = 3

abbrev venue_at : ℕ → VenueId
venue_at n =
    if n == 0
    then VenueId.coinbase
    else if n == 1
    then VenueId.kraken
    else if n == 2
    then VenueId.bitstamp
    else VenueId.fake

abbrev source_code : FrameSource → ℕ
source_code FrameSource.web_socket = 0
source_code FrameSource.rest_snapshot = 1
source_code FrameSource.rest_audit = 2

abbrev source_at : ℕ → FrameSource
source_at n =
    if n == 0
    then FrameSource.web_socket
    else if n == 1
    then FrameSource.rest_snapshot
    else FrameSource.rest_audit

abbrev kind_code : RecordKind → ℕ
kind_code RecordKind.frame_record = 0
kind_code RecordKind.session_record = 1

abbrev kind_at : ℕ → RecordKind
kind_at n = if n == 0 then RecordKind.frame_record else RecordKind.session_record

-- A symbol, if there is one, with its length, and the payload.
abbrev tail_of : Option Text → Text → Text
tail_of none payload = 0 ∷ payload
tail_of (some symbol) payload = 1 ∷ length symbol ∷ symbol ++ payload

abbrev numbers_of : TapeRecord → Text
numbers_of r =
    venue_code r.venue
    ∷ source_code r.source
    ∷ kind_code r.kind
    ∷ r.elapsed_nanos
    ∷ r.recorded_wall_unix_nanos
    ∷ tail_of r.symbol r.payload

abbrev tail_at : Text → Option Text × Text
tail_at [] = (none, [])
tail_at (zero ∷ payload) = (none, payload)
tail_at (suc n ∷ []) = (none, [])
tail_at (suc n ∷ k ∷ rest) = (some (take k rest), drop k rest)

abbrev record_at : Text → Option TapeRecord
record_at (v ∷ s ∷ k ∷ e ∷ w ∷ rest) = some (record {
  venue = venue_at v;
  symbol = (tail_at rest).0;
  elapsed_nanos = e;
  recorded_wall_unix_nanos = w;
  payload = (tail_at rest).1;
  source = source_at s;
  kind = kind_at k;
})
record_at _ = none

take-append_length : (xs ys : Text) → take (length xs) (xs ++ ys) ≡ xs
take-append_length [] ys = refl
take-append_length (x ∷ xs) ys = ap (◌∷◌ x) (take-append_length xs ys)

drop-append_length : (xs ys : Text) → drop (length xs) (xs ++ ys) ≡ ys
drop-append_length [] ys = refl
drop-append_length (x ∷ xs) ys = drop-append_length xs ys

tail_at-tail_of :
    (symbol : Option Text) (payload : Text) → tail_at (tail_of symbol payload) ≡ (symbol, payload)
tail_at-tail_of none payload = refl
tail_at-tail_of (some symbol) payload =
    λ i. (some (take-append_length symbol payload i), drop-append_length symbol payload i)

venue_at-venue_code : (v : VenueId) → venue_at (venue_code v) ≡ v
venue_at-venue_code v = ground arith

source_at-source_code : (s : FrameSource) → source_at (source_code s) ≡ s
source_at-source_code s = ground arith

kind_at-kind_code : (k : RecordKind) → kind_at (kind_code k) ≡ k
kind_at-kind_code k = ground arith

record_at-numbers_of : (r : TapeRecord) → record_at (numbers_of r) ≡ some r
record_at-numbers_of r = λ i. some (record {
  venue = venue_at-venue_code r.venue i;
  symbol = (tail_at-tail_of r.symbol r.payload i).0;
  elapsed_nanos = r.elapsed_nanos;
  recorded_wall_unix_nanos = r.recorded_wall_unix_nanos;
  payload = (tail_at-tail_of r.symbol r.payload i).1;
  source = source_at-source_code r.source i;
  kind = kind_at-kind_code r.kind i;
})

-- The lines that a 10 ends.
abbrev onto : ℕ → List Text → List Text
onto c [] = (c ∷ []) ∷ []
onto c (l ∷ ls) = (c ∷ l) ∷ ls

abbrev lines_of : Text → List Text
lines_of [] = []
lines_of (c ∷ cs) = let rest = lines_of cs in if c == 10 then [] ∷ rest else onto c rest

lines_of-lifted : (t rest : Text) → lines_of (lifted t ++ 10 ∷ rest) ≡ lifted t ∷ lines_of rest
lines_of-lifted [] rest = refl
lines_of-lifted (n ∷ ns) rest = rw (no_end n) (ap (onto (n + 20)) (lines_of-lifted ns rest))
  where
    no_end : (n : ℕ) → (n + 20 == 10) ≡ false
    no_end n = ground arith

abbrev no_bytes : Text → Bool
no_bytes [] = true
no_bytes (c ∷ cs) = false

abbrev toy_format : TapeFormat
toy_format = record {
  to_vec = λ r. lifted (numbers_of r);
  from_str = λ t. record_at (lowered t);
  lines = lines_of;
  is_blank = no_bytes;
}

toy_format-IsFaithful : IsFaithful toy_format
toy_format-IsFaithful = record {
  from_str-to_vec = λ r. ap record_at (lowered-lifted (numbers_of r)) ∙ record_at-numbers_of r;
  solid = λ r. refl;
  lines-nil = refl;
  lines-cons = λ r rest. lines_of-lifted (numbers_of r) rest;
}

abbrev toy_stream : StreamId
toy_stream = record { venue = VenueId.fake; symbol = 66 ∷ [] }

-- A frame off the socket, one over REST, and the end of the session.
abbrev tapeable : List (IngestMessage ℕ)
tapeable =
    IngestMessage.frame (toy_frame FrameSource.web_socket 65 3)
    ∷ IngestMessage.frame (toy_frame FrameSource.rest_snapshot 66 5)
    ∷ IngestMessage.session_ended toy_stream (at_ms 9) SessionEnd.errored
    ∷ []

write_all-replayed_example :
    (write_all toy_format (record { out = []; start = at_ms 2 }) tapeable >>= λ w.
    replayed toy_format (lines_of w.out) (at_ms 100) (67 ∷ []))
    ≡ ok (map (replay_of (at_ms 2) (at_ms 100)) tapeable)
unfolding utf8_valid
write_all-replayed_example =
    write_all-replayed toy_format toy_format-IsFaithful (at_ms 2) (at_ms 100) (67 ∷ []) tapeable
      (refl, (refl, (tt, tt)))
