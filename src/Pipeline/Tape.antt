-- ===== src/Pipeline/Tape.antt =====
-- crates/ma-pipeline/src/tape.rs: raw frames and ends of sessions, written and read back.
pub mod RoundTrip
use market_aggregator.Common.{
  ℕ, min, Bool, true, false, Option, none, some, List, [], ◌∷◌, ◌++◌, Text, utf8_valid, Result, ok,
  err, ok_or, ◌>>=◌, if◌then◌else◌,
}
use market_aggregator.Core.Time.{IngestTime, WallTime, since}
use market_aggregator.Core.Event.{VenueId, StreamId}
use market_aggregator.Core.Cross.{u64_max}
use market_aggregator.Core.Window.{advanced_by}
use market_aggregator.Common.Entries.{entry_or}
use market_aggregator.Venues.Sync.{RawFrame, FrameSource}
use market_aggregator.Pipeline.Messages.{IngestMessage, SessionEnd}

-- Errors of the file system are left out, as are the texts.
pub data TapeError : Type 0 where
  malformed non_utf8_payload not_raw_bytes : TapeError

pub data RecordKind : Type 0 where
  frame_record session_record : RecordKind

pub record TapeRecord : Type 0 where
  pub venue : VenueId
  pub symbol : Option Text
  pub elapsed_nanos : ℕ
  pub recorded_wall_unix_nanos : ℕ
  pub payload : Text
  pub source : FrameSource
  pub kind : RecordKind

-- What is not of this repository: `serde_json` on a record, the lines of the reader, and whether a
-- trimmed line is empty.
pub record TapeFormat : Type 0 where
  pub to_vec : TapeRecord → Text
  pub from_str : Text → Option TapeRecord
  pub lines : Text → List Text
  pub is_blank : Text → Bool

-- `nanos` and `wall_nanos`.
abbrev pub nanos : ℕ → ℕ
nanos d = min d u64_max

abbrev pub wall_nanos : WallTime → ℕ
wall_nanos (WallTime.after_epoch n) = nanos n
wall_nanos (WallTime.before_epoch n) = 0

-- The writer's output so far.
pub record TapeWriter : Type 0 where
  pub out : Text
  pub start : IngestTime

pub record TapedFrame : Type 0 where
  pub venue : VenueId
  pub symbol : Option Text
  pub payload : Text
  pub elapsed : ℕ
  pub recorded_wall : WallTime
  pub source : FrameSource
  pub session_ended : Bool

-- `TapedFrame::into_message`.
abbrev pub as_message : {D : Type 0} → Bool → TapedFrame → StreamId → IngestTime → IngestMessage D
as_message true t stream at = IngestMessage.session_ended stream at SessionEnd.closed
as_message false t stream at =
    IngestMessage.frame
      (record { stream = stream; payload = t.payload; ingest_ts = at; source = t.source })

unfoldable pub into_message : {D : Type 0} → TapedFrame → IngestTime → Text → IngestMessage D
into_message t base fallback =
    as_message t.session_ended t (record { venue = t.venue; symbol = entry_or fallback t.symbol })
      (advanced_by base t.elapsed)

abbrev pub is_session : RecordKind → Bool
is_session RecordKind.frame_record = false
is_session RecordKind.session_record = true

abbrev pub taped : TapeRecord → TapedFrame
taped r = record {
  venue = r.venue;
  symbol = r.symbol;
  payload = r.payload;
  elapsed = r.elapsed_nanos;
  recorded_wall = WallTime.after_epoch r.recorded_wall_unix_nanos;
  source = r.source;
  session_ended = is_session r.kind;
}

module _ (format : TapeFormat) where
  -- `write_record`.
  abbrev pub write_record : TapeWriter → TapeRecord → TapeWriter
  write_record w r = record w { out = w.out ++ format.to_vec r ++ 10 ∷ [] }

  unfoldable pub write_frame : TapeWriter → RawFrame → Result TapeWriter TapeError
  write_frame w f =
      if utf8_valid f.payload
      then ok (
          write_record w (record {
            venue = f.stream.venue;
            symbol = some f.stream.symbol;
            elapsed_nanos = nanos (since f.ingest_ts w.start);
            recorded_wall_unix_nanos = wall_nanos f.ingest_ts.wall;
            payload = f.payload;
            source = f.source;
            kind = RecordKind.frame_record;
          }))
      else err TapeError.non_utf8_payload

  unfoldable pub write_message :
      {D : Type 0} → TapeWriter → IngestMessage D → Result TapeWriter TapeError
  unfolding write_frame
  write_message w (IngestMessage.frame f) = write_frame w f
  write_message w (IngestMessage.event stream e) = err TapeError.not_raw_bytes
  write_message w (IngestMessage.session_ended stream at end) = ok (
      write_record w (record {
        venue = stream.venue;
        symbol = some stream.symbol;
        elapsed_nanos = nanos (since at w.start);
        recorded_wall_unix_nanos = wall_nanos at.wall;
        payload = [];
        source = FrameSource.web_socket;
        kind = RecordKind.session_record;
      }))

  -- A recording: the messages that are teed to the tape.
  unfoldable pub write_all :
      {D : Type 0} → TapeWriter → List (IngestMessage D) → Result TapeWriter TapeError
  unfolding write_message
  write_all w [] = ok w
  write_all w (m ∷ ms) = do w' ← write_message w m; write_all w' ms

  -- `next_frame`, on the lines that are left: the frame, if there is one, and the lines after it.
  unfoldable pub next_frame : List Text → Result (Option (TapedFrame × List Text)) TapeError
  next_frame [] = ok none
  next_frame (line ∷ rest) =
      let skipped = next_frame rest in
      let read =
        (ok_or (format.from_str line) TapeError.malformed >>= λ r. ok (some (taped r, rest))) in
      if format.is_blank line then skipped else read

  -- The messages that `replay` sends where it is not cut short, line by line.
  unfoldable pub replayed :
      {D : Type 0} → List Text → IngestTime → Text → Result (List (IngestMessage D)) TapeError
  unfolding into_message
  replayed [] base fallback = ok []
  replayed (line ∷ rest) base fallback =
      let later = replayed rest base fallback in
      let read =
        (ok_or (format.from_str line) TapeError.malformed >>= λ r.
        later >>= λ ms. ok (into_message (taped r) base fallback ∷ ms)) in
      if format.is_blank line then later else read
