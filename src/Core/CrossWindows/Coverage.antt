-- ===== src/Core/CrossWindows/Coverage.antt =====
-- That what a merged window says of its coverage does not depend on the order of the venues.
use market_aggregator.Common.{
  ℕ, ◌+◌, ◌%◌, ◌^◌, min, max, ◌&&◌, Option, none, some, List, [], ◌∷◌, ◌==◌, ltb, ◌≡◌, refl, sym,
  ap, ◌∙◌, arith, Bool-cases, inl, inr, if◌then◌else◌,
}
use mathlib.Core.List.{Permᴰ, Perm}
use mathlib.Core.Logic.{∥∥₁_elim}
use market_aggregator.Core.Decimal.{Decimal}
use market_aggregator.Core.Window.{map_or}
use market_aggregator.Core.Window.Reading.{WindowReading}
use market_aggregator.Core.CrossWindows.{
  WindowLeg, CrossWindowReading, Merge, find_window, no_merge, merge_book, merge_volume,
  count_window, merge_found, merge_legs, with_mean, with_volume, finish, consolidate_span,
}

numbers_set : IsSet (ℕ × ℕ × ℕ × ℕ × ℕ)
numbers_set = hlevel

-- The least coverage, the greatest lag, and the counts of venues, samples and prints.
pub record Coverage : Type 0 where
  pub floor : Option ℕ
  pub lag : ℕ
  pub used : ℕ
  pub samples : ℕ
  pub trades : ℕ

-- What a venue adds: its trusted time, lag, samples and prints.
abbrev pub Share : Type 0
Share = ℕ × ℕ × ℕ × ℕ

abbrev pub add_share : Option Share → Coverage → Coverage
add_share none c = c
add_share (some (trusted, lag, samples, trades)) c = record {
  floor = some (map_or c.floor trusted (λ f. min f trusted));
  lag = max c.lag lag;
  used = c.used + 1;
  samples = (c.samples + samples) % 2 ^ 64;
  trades = (c.trades + trades) % 2 ^ 64;
}

add_share_comm :
    (a b : Option Share) (c : Coverage) → add_share a (add_share b c) ≡ add_share b (add_share a c)
add_share_comm none b c = refl
add_share_comm (some a) none c = refl
add_share_comm (some (t, l, s, n)) (some (t', l', s', n')) c = λ i. record {
  floor = some (floors c.floor i);
  lag = lags i;
  used = c.used + 1 + 1;
  samples = wraps c.samples s s' i;
  trades = wraps c.trades n n' i;
}
  where
    floors :
        (f : Option ℕ) → min (map_or f t' (λ x. min x t')) t ≡ min (map_or f t (λ x. min x t)) t'
    floors none = omega arith
    floors (some x) = omega arith

    lags : max (max c.lag l') l ≡ max (max c.lag l) l'
    lags = omega arith

    wraps : (x y z : ℕ) → ((x + z) % 2 ^ 64 + y) % 2 ^ 64 ≡ ((x + y) % 2 ^ 64 + z) % 2 ^ 64
    wraps x y z = omega arith

-- What is published of the coverage, out of the loop's state.
abbrev pub shown : Coverage → ℕ × ℕ × ℕ × ℕ × ℕ
shown c = (map_or c.floor 0 (λ f. f), c.lag, c.used, c.samples, c.trades)

module _ {D : Type 0} where
  abbrev pub share_of : ℕ → Option (WindowReading D) → Option Share
  share_of lag none = none
  share_of lag (some w) =
      if w.samples == 0 && w.trades == 0
      then none
      else some (w.trusted_ms, lag, w.samples, w.trades)

  abbrev pub coverage_of : Merge D → Coverage
  coverage_of m = record {
    floor = m.floor;
    lag = m.reading.max_lag_ms;
    used = m.reading.venues_used;
    samples = m.reading.samples;
    trades = m.reading.trades;
  }

  -- The published numbers.
  abbrev pub published : CrossWindowReading D → ℕ × ℕ × ℕ × ℕ × ℕ
  published r = (r.trusted_ms_floor, r.max_lag_ms, r.venues_used, r.samples, r.trades)

  unfoldable pub add_legs : ℕ → Coverage → List (WindowLeg D) → Coverage
  add_legs span c [] = c
  add_legs span c (leg ∷ legs) =
      add_legs span (add_share (share_of leg.lag_ms (find_window span leg.windows)) c) legs

  add_legs-Permᴰ :
      (span : ℕ) (c : Coverage) {xs ys : List (WindowLeg D)}
      → Permᴰ xs ys
      → add_legs span c xs ≡ add_legs span c ys
  unfolding add_legs
  add_legs-Permᴰ span c Permᴰ.nil = refl
  add_legs-Permᴰ span c (Permᴰ.cons {a = a} {l₂ = l₂} e d) =
      add_legs-Permᴰ span (add_share (share_of a.lag_ms (find_window span a.windows)) c) d
      ∙ ap (λ x. add_legs span (add_share (share_of x.lag_ms (find_window span x.windows)) c) l₂) e
  add_legs-Permᴰ span c (Permᴰ.swap {a = a} {b = b} {l = l} e₁ e₂) =
      ap (λ k. add_legs span k l)
        (add_share_comm (share_of b.lag_ms (find_window span b.windows))
          (share_of a.lag_ms (find_window span a.windows)) c)
      ∙ (λ i.
          add_legs span
            (add_share (share_of (e₁ i).lag_ms (find_window span (e₁ i).windows))
              (add_share (share_of (e₂ i).lag_ms (find_window span (e₂ i).windows)) c))
            l)
  add_legs-Permᴰ span c (Permᴰ.trans d₁ d₂) = add_legs-Permᴰ span c d₁ ∙ add_legs-Permᴰ span c d₂

module _ {D : Type 0} ⦃dec : Decimal D⦄ where
  merge_volume-coverage :
      (volume vwap : Option D) (m : Merge D)
      → coverage_of (merge_volume volume vwap m) ≡ coverage_of m
  merge_volume-coverage (some volume) (some vwap) m = refl
  merge_volume-coverage (some volume) none m = refl
  merge_volume-coverage none vwap m = refl

  merge_book-coverage :
      (w : WindowReading D) (m : Merge D) → coverage_of (merge_book w m) ≡ coverage_of m
  merge_book-coverage w m = elim (Bool-cases (ltb 0 w.samples)) [
    | inl some_samples ↦ rw some_samples refl
    | inr no_samples ↦ rw no_samples refl
  ]

  merge_found-coverage :
      (leg : WindowLeg D) (w : Option (WindowReading D)) (m : Merge D)
      → coverage_of (merge_found leg w m) ≡ add_share (share_of leg.lag_ms w) (coverage_of m)
  merge_found-coverage leg none m = refl
  merge_found-coverage leg (some w) m = elim (Bool-cases (w.samples == 0 && w.trades == 0)) [
    | inl bare ↦ rw bare refl
    | inr data_held ↦ rw data_held (
        merge_volume-coverage w.volume w.vwap (merge_book w (count_window w leg.lag_ms m))
        ∙ merge_book-coverage w (count_window w leg.lag_ms m))
  ]

  merge_legs-coverage :
      (span : ℕ) (m : Merge D) (legs : List (WindowLeg D))
      → coverage_of (merge_legs span m legs) ≡ add_legs span (coverage_of m) legs
  unfolding merge_legs add_legs
  merge_legs-coverage span m [] = refl
  merge_legs-coverage span m (leg ∷ legs) =
      merge_legs-coverage span (merge_found leg (find_window span leg.windows) m) legs
      ∙ ap (λ c. add_legs span c legs) (merge_found-coverage leg (find_window span leg.windows) m)

  finish-published : (m : Merge D) → published (finish m) ≡ shown (coverage_of m)
  finish-published m =
      with_volume-published
        (with_mean m (record m.reading { trusted_ms_floor = map_or m.floor 0 (λ f. f) }))
      ∙ with_mean-published (record m.reading { trusted_ms_floor = map_or m.floor 0 (λ f. f) })
    where
      with_volume-published : (r : CrossWindowReading D) → published (with_volume m r) ≡ published r
      with_volume-published r = elim (Bool-cases (ltb 0 r.trades)) [
        | inl e ↦ rw e refl
        | inr e ↦ rw e refl
      ]

      with_mean-published : (r : CrossWindowReading D) → published (with_mean m r) ≡ published r
      with_mean-published r = elim (Bool-cases (ltb 0 r.samples)) [
        | inl e ↦ rw e refl
        | inr e ↦ rw e refl
      ]

  -- The coverage of a merged window, its lag, and its counts of venues, samples and prints are the
  -- same in whatever order the venues come.
  pub consolidate_span-Perm :
      (span : ℕ) (xs ys : List (WindowLeg D))
      → Perm xs ys
      → published (consolidate_span span xs) ≡ published (consolidate_span span ys)
  unfolding consolidate_span
  consolidate_span-Perm span xs ys p =
      ∥∥₁_elim p
        (numbers_set (published (consolidate_span span xs)) (published (consolidate_span span ys)))
        (λ d.
          finish-published (merge_legs span (no_merge span) xs)
          ∙ (ap shown (
                merge_legs-coverage span (no_merge span) xs
                ∙ (add_legs-Permᴰ span (coverage_of {D = D} (no_merge span)) d
                    ∙ sym (merge_legs-coverage span (no_merge span) ys)))
              ∙ sym (finish-published (merge_legs span (no_merge span) ys))))
