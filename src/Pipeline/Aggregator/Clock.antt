-- ===== src/Pipeline/Aggregator/Clock.antt =====
-- How long a book has been desynced: the accumulator of `VenueState` and what it adds up.
use market_aggregator.Common.{
  ℕ, ◌+◌, ◌≤◌, Bool, true, false, Option, none, some, List, [], ◌∷◌, ◌≡◌, refl, Result, ok, ◌>>=◌,
  Holds, Holds-map, bind-Holds_with, bind-Holds_eq, Holds_at, arith, if◌then◌else◌, Bool-cases, inl,
  inr,
}
use market_aggregator.Core.Decimal.{Decimal}
use market_aggregator.Core.Time.{IngestTime, since}
use market_aggregator.Core.Book.{BookState, same_status}
use market_aggregator.Pipeline.Messages.{IngestMessage, time_of}
use market_aggregator.Pipeline.Aggregator.{
  VenueState, Stop, Effects, is_desynced, state_of, desynced_for, desynced_total_at, note_desync,
  note_transition, noted, handle, counted,
}
use market_aggregator.Pipeline.Aggregator.Landing.{Lands-book, landed, handle-Lands}
use market_aggregator.Pipeline.Aggregator.Streams.{follow}

-- The clock runs exactly while the book is desynced, and has started by the time `t`.
abbrev ClockAgrees : Bool → Option IngestTime → ℕ → Type 0
ClockAgrees false none t = Unit
ClockAgrees true (some start) t = start.mono ≤ t
ClockAgrees false (some start) t = ⊥
ClockAgrees true none t = ⊥

-- What the time from `at` to `now` adds.
abbrev pub desynced_between : Bool → IngestTime → IngestTime → ℕ
desynced_between desynced at now = if desynced then since now at else 0

-- The totals before and after a step taken at `at`.
abbrev Advances : ℕ → Option IngestTime → Bool → IngestTime → ℕ → Option IngestTime → Type 0
Advances total start after at total' start' =
    ClockAgrees after start' at.mono
    × ((now : IngestTime)
        → at.mono ≤ now.mono
        → desynced_for total' start' now
          ≡ desynced_for total start at + desynced_between after at now)

keep-Advances :
    (d : Bool) (total : ℕ) (start : Option IngestTime) (t : ℕ) (at : IngestTime)
    → ClockAgrees d start t
    → t ≤ at.mono
    → Advances total start d at total start
keep-Advances true total (some s) t at c h = (omega arith, λ now l. omega arith)
keep-Advances false total none t at c h = (tt, λ now l. omega arith)
keep-Advances true total none t at c h = absurd c
keep-Advances false total (some s) t at c h = absurd c

module _ {D : Type 0} ⦃dec : Decimal D⦄ where
  same_status-desynced :
      (a b : BookState D) → same_status a b ≡ true → is_desynced a ≡ is_desynced b
  unfolding same_status
  same_status-desynced a b h = ground arith

module _ {D : Type 0} where
  -- The messages are in the order of their times, from `at` to `now`.
  abbrev pub Ordered : IngestTime → List (IngestMessage D) → IngestTime → Type 0
  Ordered at [] now = at.mono ≤ now.mono
  Ordered at (m ∷ ms) now = (at.mono ≤ (time_of m).mono) × Ordered (time_of m) ms now

desynced_between_now : (d : Bool) (at : IngestTime) → desynced_between d at at ≡ 0
desynced_between_now true at = omega arith
desynced_between_now false at = refl

module _ {D S : Type 0} ⦃dec : Decimal D⦄ where
  abbrev pub IsClocked : VenueState D S → ℕ → Type 0
  IsClocked v t = ClockAgrees (is_desynced (state_of v)) v.desynced_since t

  note-Advances :
      (before after : Bool) (v : VenueState D S) (start : Option IngestTime) (t : ℕ)
      (at : IngestTime)
      → v.desynced_since ≡ start
      → ClockAgrees before start t
      → t ≤ at.mono
      → let w = note_desync before after v at in
        Advances v.desynced_total start after at w.desynced_total w.desynced_since
  note-Advances false true v none t at e c h = (omega arith, λ now l. omega arith)
  note-Advances true false v (some s) t at e c h = rw e (tt, λ now l. omega arith)
  note-Advances true true v (some s) t at e c h = rw e (omega arith, λ now l. omega arith)
  note-Advances false false v none t at e c h = rw e (tt, λ now l. omega arith)
  note-Advances false after v (some s) t at e c h = absurd c
  note-Advances true after v none t at e c h = absurd c

  noted-Advances :
      (v : VenueState D S) (before : BookState D) (t : ℕ) (at : IngestTime)
      → ClockAgrees (is_desynced before) v.desynced_since t
      → t ≤ at.mono
      → let w = noted v before at in
        Advances v.desynced_total v.desynced_since
          (is_desynced (state_of v))
          at
          w.desynced_total
          w.desynced_since
  unfolding noted note_transition
  noted-Advances v before t at c h = elim (Bool-cases (same_status before (state_of v))) [
    | inl same ↦
        rw (same, ← same_status-desynced before (state_of v) same)
          (keep-Advances (is_desynced before) v.desynced_total v.desynced_since t at c h)
    | inr changed ↦ rw changed (
        note-Advances (is_desynced before) (is_desynced (state_of v)) v v.desynced_since t at refl c
          h)
  ]

  handle-Advances :
      (sink : Bool) (v : VenueState D S) (m : IngestMessage D) (t : ℕ)
      → IsClocked v t
      → t ≤ (time_of m).mono
      → Holds
          (λ h.
            Advances v.desynced_total v.desynced_since
              (is_desynced (state_of h.0))
              (time_of m)
              h.0.desynced_total
              h.0.desynced_since)
          (handle sink (counted v) m)
  handle-Advances sink v m t c h =
      Holds-map (handle sink (counted v) m)
        (λ k l.
          rw (l.keeps.total, l.keeps.start, Lands-book l)
            (noted-Advances (landed (counted v) m) (state_of v) t (time_of m) c h))
        (handle-Lands sink (counted v) m)

  -- The time that the book is desynced after each message, up to the next one, added up.
  unfoldable pub time_desynced :
      Bool → VenueState D S → IngestTime → List (IngestMessage D) → IngestTime → Result ℕ Stop
  time_desynced sink v at [] now = ok (desynced_between (is_desynced (state_of v)) at now)
  time_desynced sink v at (m ∷ ms) now = do
    h ← handle sink (counted v) m
    rest ← time_desynced sink h.0 (time_of m) ms now
    ok (desynced_between (is_desynced (state_of v)) at (time_of m) + rest)

  -- What `follow` and the sum above both come to.
  pub record Totals (sink : Bool) (v : VenueState D S) (at : IngestTime)
      (ms : List (IngestMessage D)) (now : IngestTime) (r : VenueState D S × List (Effects D))
      : Type 0 where
    pub time : ℕ
    pub adds_up : time_desynced sink v at ms now ≡ ok time
    pub total : desynced_total_at r.0 now ≡ desynced_total_at v at + time

  -- Where the messages of a stream come in the order of their times, and are got to the end of, the
  -- total that is published at a later moment has grown by exactly the time that the book was
  -- desynced: the sum, over the messages, of the time from each that left it desynced up to the
  -- next. At first the clock of the total runs just if the book is desynced.
  pub follow-Totals :
      (sink : Bool) (v : VenueState D S) (at : IngestTime) (ms : List (IngestMessage D))
      (now : IngestTime)
      → IsClocked v at.mono
      → Ordered at ms now
      → Holds (Totals sink v at ms now) (follow sink v ms)
  unfolding follow time_desynced desynced_total_at
  follow-Totals sink v at [] now c o = record {
    time = desynced_between (is_desynced (state_of v)) at now;
    adds_up = refl;
    total =
        (keep-Advances (is_desynced (state_of v)) v.desynced_total v.desynced_since at.mono at c
            (omega arith)).1
          now o;
  }
  follow-Totals sink v at (m ∷ ms) now c o = bind-Holds_eq _ (handle sink (counted v) m) _ (λ h e.
      let a = Holds_at _ (handle-Advances sink v m at.mono c o.0) e in
      bind-Holds_with _ _ (follow sink h.0 ms) _ (follow-Totals sink h.0 (time_of m) ms now a.0 o.1)
        (λ r t. record {
          time = desynced_between (is_desynced (state_of v)) at (time_of m) + t.time;
          adds_up = rw (e, t.adds_up) refl;
          total = omega (
            arith,
            t.total,
            a.1 (time_of m) (omega arith),
            (keep-Advances (is_desynced (state_of v)) v.desynced_total v.desynced_since at.mono at c
                  (omega arith)).1
                (time_of m) o.0,
            desynced_between_now (is_desynced (state_of h.0)) (time_of m),
          );
        }))
