-- ===== src/Pipeline/Tape/RoundTrip.antt =====
-- What a tape gives back of what was recorded on it.
use market_aggregator.Common.{
  true, false, none, some, List, [], ◌∷◌, ◌++◌, ◌≡◌, refl, sym, ap, ◌∙◌, map, Text, utf8_valid, ok,
  ◌>>=◌, All, Bool-cases, Option-cases, inl, inr,
}
use mathlib.Core.List.{append_assoc, append-nil}
use market_aggregator.Core.Time.{IngestTime, since}
use market_aggregator.Core.Event.{StreamId}
use market_aggregator.Core.Window.{advanced_by}
use market_aggregator.Venues.Sync.{RawFrame, FrameSource}
use market_aggregator.Pipeline.Messages.{IngestMessage, SessionEnd}
use market_aggregator.Pipeline.Tape.{
  TapeFormat, TapeRecord, RecordKind, TapeWriter, nanos, wall_nanos, into_message, write_record,
  write_frame, write_message, write_all, next_frame, replayed,
}

-- What is relied on of the libraries: a record that was written is read back, its line is not
-- blank, and the reader splits where the writer ended a line.
pub record IsFaithful (format : TapeFormat) : Type 0 where
  pub from_str-to_vec : (r : TapeRecord) → format.from_str (format.to_vec r) ≡ some r
  pub solid : (r : TapeRecord) → format.is_blank (format.to_vec r) ≡ false
  pub lines-nil : format.lines [] ≡ []
  pub lines-cons :
      (r : TapeRecord) (rest : Text)
      → format.lines (format.to_vec r ++ 10 ∷ rest) ≡ format.to_vec r ∷ format.lines rest

-- The time of a replay from `base` that stands for a time of a recording from `start`.
abbrev pub retimed : IngestTime → IngestTime → IngestTime → IngestTime
retimed start base at = advanced_by base (nanos (since at start))

module _ {D : Type 0} where
  -- What a tape can hold.
  abbrev pub IsTapeable : IngestMessage D → Type 0
  IsTapeable (IngestMessage.frame f) = utf8_valid f.payload ≡ true
  IsTapeable (IngestMessage.event stream e) = ⊥
  IsTapeable (IngestMessage.session_ended stream at end) = Unit

  -- The same message at the replay's time. Why a session ended is not recorded.
  abbrev pub replay_of : IngestTime → IngestTime → IngestMessage D → IngestMessage D
  replay_of start base (IngestMessage.frame f) =
      IngestMessage.frame (record f { ingest_ts = retimed start base f.ingest_ts })
  replay_of start base (IngestMessage.event stream e) = IngestMessage.event stream e
  replay_of start base (IngestMessage.session_ended stream at end) =
      IngestMessage.session_ended stream (retimed start base at) SessionEnd.closed

-- The records that the writer makes.
abbrev frame_record : IngestTime → RawFrame → TapeRecord
frame_record start f = record {
  venue = f.stream.venue;
  symbol = some f.stream.symbol;
  elapsed_nanos = nanos (since f.ingest_ts start);
  recorded_wall_unix_nanos = wall_nanos f.ingest_ts.wall;
  payload = f.payload;
  source = f.source;
  kind = RecordKind.frame_record;
}

abbrev end_record : IngestTime → StreamId → IngestTime → TapeRecord
end_record start stream at = record {
  venue = stream.venue;
  symbol = some stream.symbol;
  elapsed_nanos = nanos (since at start);
  recorded_wall_unix_nanos = wall_nanos at.wall;
  payload = [];
  source = FrameSource.web_socket;
  kind = RecordKind.session_record;
}

appended : (out line body : Text) → out ++ line ++ 10 ∷ [] ++ body ≡ out ++ (line ++ 10 ∷ body)
appended out line body =
    append_assoc (out ++ line) (10 ∷ []) body ∙ append_assoc out line (10 ∷ body)

module _ {D : Type 0} (format : TapeFormat) where
  -- The bytes of a recording.
  abbrev recorded : IngestTime → List (IngestMessage D) → Text
  recorded start [] = []
  recorded start (IngestMessage.frame f ∷ ms) =
      format.to_vec (frame_record start f) ++ 10 ∷ recorded start ms
  recorded start (IngestMessage.event stream e ∷ ms) = recorded start ms
  recorded start (IngestMessage.session_ended stream at end ∷ ms) =
      format.to_vec (end_record start stream at) ++ 10 ∷ recorded start ms

  write_all-recorded :
      (w : TapeWriter) (ms : List (IngestMessage D))
      → All IsTapeable ms
      → write_all format w ms ≡ ok (record w { out = w.out ++ recorded w.start ms })
  unfolding write_all write_message write_frame
  write_all-recorded w [] t = ap (λ o. ok (record w { out = o })) (sym (append-nil w.out))
  write_all-recorded w (IngestMessage.frame f ∷ ms) t = rw (t.0) (
      write_all-recorded (write_record format w (frame_record w.start f)) ms t.1
      ∙ ap (λ o. ok (record w { out = o }))
          (appended w.out (format.to_vec (frame_record w.start f)) (recorded w.start ms)))
  write_all-recorded w (IngestMessage.event stream e ∷ ms) t = absurd t.0
  write_all-recorded w (IngestMessage.session_ended stream at end ∷ ms) t =
      write_all-recorded (write_record format w (end_record w.start stream at)) ms t.1
      ∙ ap (λ o. ok (record w { out = o }))
          (appended w.out (format.to_vec (end_record w.start stream at)) (recorded w.start ms))

  replayed-recorded :
      IsFaithful format
      → (start base : IngestTime) (fallback : Text) (ms : List (IngestMessage D))
      → All IsTapeable ms
      → replayed format (format.lines (recorded start ms)) base fallback
        ≡ ok (map (replay_of start base) ms)
  unfolding replayed into_message
  replayed-recorded faithful start base fallback [] t = rw (faithful.lines-nil) refl
  replayed-recorded faithful start base fallback (IngestMessage.frame f ∷ ms) t =
      let r = frame_record start f in
      rw
        (
          faithful.lines-cons r (recorded start ms),
          faithful.solid r,
          faithful.from_str-to_vec r,
          replayed-recorded faithful start base fallback ms t.1,
        )
        refl
  replayed-recorded faithful start base fallback (IngestMessage.event stream e ∷ ms) t = absurd t.0
  replayed-recorded faithful start base fallback (IngestMessage.session_ended stream at end ∷ ms)
        t =
      let r = end_record start stream at in
      rw
        (
          faithful.lines-cons r (recorded start ms),
          faithful.solid r,
          faithful.from_str-to_vec r,
          replayed-recorded faithful start base fallback ms t.1,
        )
        refl

  -- Frames of text and ends of sessions, recorded from `start` on an empty tape and replayed from
  -- `base`: the recording succeeds, and the replay is of the same messages in the same order, with
  -- the same streams, payloads and sources, each as long after `base` as it was after `start`, up to
  -- 2^64 nanoseconds. The library's codec gives back what it was given and the reader splits the
  -- lines that the writer ended.
  pub write_all-replayed :
      IsFaithful format
      → (start base : IngestTime) (fallback : Text) (ms : List (IngestMessage D))
      → All IsTapeable ms
      → (write_all format (record { out = []; start = start }) ms >>= λ w.
          replayed format (format.lines w.out) base fallback)
        ≡ ok (map (replay_of start base) ms)
  write_all-replayed faithful start base fallback ms t =
      rw (write_all-recorded (record { out = []; start = start }) ms t)
        (replayed-recorded faithful start base fallback ms t)

  -- The replay takes one frame after the other off the reader.
  pub replayed-next_frame :
      (lines : List Text) (base : IngestTime) (fallback : Text)
      → replayed format {D = D} lines base fallback ≡ (
          next_frame format lines >>= λ o. elim o [
            | none ↦ ok []
            | some (t, rest) ↦
                (replayed format rest base fallback >>= λ ms.
                ok (into_message t base fallback ∷ ms))
          ])
  unfolding replayed next_frame
  replayed-next_frame [] base fallback = refl
  replayed-next_frame (line ∷ rest) base fallback = elim (Bool-cases (format.is_blank line)) [
    | inl blank ↦ rw blank (replayed-next_frame rest base fallback)
    | inr solid ↦
        rw solid (elim (Option-cases (format.from_str line)) [
          | inl e ↦ rw e refl
          | inr (r, e) ↦ rw e refl
        ])
  ]
