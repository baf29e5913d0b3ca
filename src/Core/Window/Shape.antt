-- ===== src/Core/Window/Shape.antt =====
-- What the calls on the windows leave as it was, so that the next call returns too.
use market_aggregator.Common.{
  ℕ, zero, suc, ◌≤◌, ◌<◌, ◌+◌, Bool, true, false, Option, none, some, List, [], ◌∷◌, ◌≡◌, refl, ap,
  ◌∙◌, length, arith, ltb, leb, if◌then◌else◌, Bool-cases, inl, inr,
}
use market_aggregator.Core.Decimal.{Decimal}
use market_aggregator.Core.Time.{IngestTime, since}
use market_aggregator.Core.Event.{Level}
use market_aggregator.Core.Book.{TopOfBook, BookState}
use market_aggregator.Core.Cross.{u64_max}
use market_aggregator.Core.Window.{
  RollingWindows, Bucket, update_at, slot_mut, charge_from, charge, settled, slice_end,
  charge_slice, charge_start, charged_bucket, index_at, record_trade,
}
use market_aggregator.Core.Window.Reading.{then_do, observe, observe_trade, observed, traded}
use market_aggregator.Core.Window.Rounds.{IsSome}
use market_aggregator.Core.Window.Returns.{calls-return}

length-update_at :
    {A : Type 0} (n : ℕ) (f : A → A) (xs : List A) → length (update_at n f xs) ≡ length xs
length-update_at n f [] = refl
length-update_at zero f (x ∷ xs) = refl
length-update_at (suc n) f (x ∷ xs) = ap suc (length-update_at n f xs)

-- A property of the value, where there is one.
abbrev pub HoldsIn : {A : Type 0} → (A → Type 0) → Option A → Type 0
HoldsIn P none = Unit
HoldsIn P (some a) = P a

HoldsIn-map :
    {A : Type 0} {P Q : A → Type 0} (o : Option A)
    → ((a : A) → P a → Q a)
    → HoldsIn P o
    → HoldsIn Q o
HoldsIn-map none f h = tt
HoldsIn-map (some a) f h = f a h

either-HoldsIn :
    {A : Type 0} (P : A → Type 0) (b : Bool) (o o' : Option A)
    → HoldsIn P o
    → HoldsIn P o'
    → HoldsIn P (if b then o else o')
either-HoldsIn P true o o' h h' = h
either-HoldsIn P false o o' h h' = h'

module _ {D : Type 0} where
  -- The same slots, resolution and start, and an account that has not gone back.
  pub record Reshapes (w w' : RollingWindows D) : Type 0 where
    pub same_spec : w'.spec ≡ w.spec
    pub same_origin : w'.origin ≡ w.origin
    pub same_slots : length w'.buckets ≡ length w.buckets
    pub later : w.charged_to.mono ≤ w'.charged_to.mono

  -- The resolution is at least a nanosecond, no account is older than the start, and the slots are
  -- as many as fit 64 bits.
  pub record IsReady (w : RollingWindows D) : Type 0 where
    pub resolved : 0 < w.spec.resolution
    pub after : w.origin.mono ≤ w.charged_to.mono
    pub some_slot : 0 < length w.buckets
    pub slots : length w.buckets ≤ u64_max

  -- The bucket after the moment's begins within 2^64 nanoseconds of the start.
  abbrev pub InTime : RollingWindows D → IngestTime → Type 0
  InTime w now = since now w.origin + w.spec.resolution ≤ u64_max

  pub Reshapes-refl : (w : RollingWindows D) → Reshapes w w
  Reshapes-refl w = record {
    same_spec = refl;
    same_origin = refl;
    same_slots = refl;
    later = omega arith;
  }

  pub Reshapes-trans : {u v w : RollingWindows D} → Reshapes u v → Reshapes v w → Reshapes u w
  Reshapes-trans p q = record {
    same_spec = q.same_spec ∙ p.same_spec;
    same_origin = q.same_origin ∙ p.same_origin;
    same_slots = q.same_slots ∙ p.same_slots;
    later = omega (arith, p.later, q.later);
  }

  pub Reshapes-IsReady : {w w' : RollingWindows D} → Reshapes w w' → IsReady w → IsReady w'
  Reshapes-IsReady s r = record {
    resolved = rw (s.same_spec) r.resolved;
    after = rw (s.same_origin) (omega (arith, r.after, s.later));
    some_slot = rw (s.same_slots) r.some_slot;
    slots = rw (s.same_slots) r.slots;
  }

  pub Reshapes-InTime :
      {w w' : RollingWindows D} (now : IngestTime) → Reshapes w w' → InTime w now → InTime w' now
  Reshapes-InTime now s t = rw (s.same_spec, s.same_origin) t

module _ {D : Type 0} ⦃dec : Decimal D⦄ where
  slot_mut-Reshapes :
      (w : RollingWindows D) (index : ℕ) (f : Bucket D → Bucket D) → Reshapes w (slot_mut w index f)
  slot_mut-Reshapes w index f = record {
    same_spec = refl;
    same_origin = refl;
    same_slots = length-update_at _ _ w.buckets;
    later = omega arith;
  }

  charge_from-Reshapes :
      (rounds : ℕ) (w : RollingWindows D) (cursor now : IngestTime)
      → HoldsIn
          (λ w'. Reshapes w w' × (w'.charged_to ≡ w.charged_to))
          (charge_from rounds w cursor now)
  unfolding charge_from
  charge_from-Reshapes zero w cursor now =
      either-HoldsIn _ (ltb cursor.mono now.mono) none (some w) tt (Reshapes-refl w, refl)
  charge_from-Reshapes (suc rounds) w cursor now =
      let w' = charge_slice w cursor now in
      let here =
        slot_mut-Reshapes w (index_at w cursor)
          (charged_bucket w.trusted (since (slice_end w cursor now) cursor)) in
      either-HoldsIn _ (ltb cursor.mono now.mono)
        (if leb (slice_end w cursor now).mono cursor.mono
          then some w'
          else charge_from rounds w' (slice_end w cursor now) now)
        (some w)
        (either-HoldsIn _ (leb (slice_end w cursor now).mono cursor.mono) (some w')
          (charge_from rounds w' (slice_end w cursor now) now) (here, refl)
          (HoldsIn-map (charge_from rounds w' (slice_end w cursor now) now)
            (λ u p. (Reshapes-trans here p.0, p.1))
            (charge_from-Reshapes rounds w' (slice_end w cursor now) now)))
        (Reshapes-refl w, refl)

  settled-Reshapes :
      (w : RollingWindows D) (now : IngestTime) (o : Option (RollingWindows D))
      → w.charged_to.mono ≤ now.mono
      → HoldsIn (λ w'. Reshapes w w' × (w'.charged_to ≡ w.charged_to)) o
      → HoldsIn (Reshapes w) (settled now o)
  settled-Reshapes w now none l h = tt
  settled-Reshapes w now (some u) l h = record {
    same_spec = h.0.same_spec;
    same_origin = h.0.same_origin;
    same_slots = h.0.same_slots;
    later = l;
  }

  charge-Reshapes : (w : RollingWindows D) (now : IngestTime) → HoldsIn (Reshapes w) (charge w now)
  unfolding charge
  charge-Reshapes w now = elim (Bool-cases (leb now.mono w.charged_to.mono)) [
    | inl done ↦ rw done (Reshapes-refl w)
    | inr more ↦ rw more (
        settled-Reshapes w now (charge_from (length w.buckets) w (charge_start w now) now)
          (not_after more) (charge_from-Reshapes (length w.buckets) w (charge_start w now) now))
  ]
    where
      not_after : leb now.mono w.charged_to.mono ≡ false → w.charged_to.mono ≤ now.mono
      not_after h = ground arith

  observed-Reshapes :
      (w : RollingWindows D) (top : TopOfBook D) (at : IngestTime) → Reshapes w (observed w top at)
  observed-Reshapes w top at = by_state top.state top.bid_level top.ask_level
    where
      trust : Bool → RollingWindows D
      trust b = record w { trusted = b }

      by_state :
          (s : BookState D) (b a : Option (Level D))
          → Reshapes w (observed w (record top { state = s; bid_level = b; ask_level = a }) at)
      by_state BookState.uninitialized b a = record {
        same_spec = refl;
        same_origin = refl;
        same_slots = refl;
        later = omega arith;
      }
      by_state (BookState.desynced s r) b a = record {
        same_spec = refl;
        same_origin = refl;
        same_slots = refl;
        later = omega arith;
      }
      by_state (BookState.live i s v) (some b) (some a) = record {
        same_spec = refl;
        same_origin = refl;
        same_slots = length-update_at _ _ w.buckets;
        later = omega arith;
      }
      by_state (BookState.live i s v) none a = record {
        same_spec = refl;
        same_origin = refl;
        same_slots = refl;
        later = omega arith;
      }
      by_state (BookState.live i s v) (some b) none = record {
        same_spec = refl;
        same_origin = refl;
        same_slots = refl;
        later = omega arith;
      }

  then_do-Reshapes :
      (w : RollingWindows D) (o : Option (RollingWindows D))
      (f : RollingWindows D → RollingWindows D)
      → ((u : RollingWindows D) → Reshapes u (f u))
      → HoldsIn (Reshapes w) o
      → HoldsIn (Reshapes w) (then_do o f)
  then_do-Reshapes w none f k h = tt
  then_do-Reshapes w (some u) f k h = Reshapes-trans h (k u)

  -- A sample and a print return, and leave the windows ready for the next call.
  pub observe-Reshapes :
      (w : RollingWindows D) (top : TopOfBook D) (at : IngestTime)
      → IsReady w
      → InTime w at
      → IsSome (observe w top at) × HoldsIn (Reshapes w) (observe w top at)
  unfolding observe
  observe-Reshapes w top at r t = (
    (calls-return w top dec.zero_decimal dec.zero_decimal at
        (record { resolved = r.resolved; in_time = t }) r.after r.some_slot r.slots).0,
    then_do-Reshapes w (charge w at) (λ u. observed u top at) (λ u. observed-Reshapes u top at)
        (charge-Reshapes w at),
  )

  pub observe_trade-Reshapes :
      (w : RollingWindows D) (price qty : D) (at : IngestTime)
      → IsReady w
      → InTime w at
      → IsSome (observe_trade w price qty at) × HoldsIn (Reshapes w) (observe_trade w price qty at)
  unfolding observe_trade
  observe_trade-Reshapes w price qty at r t = (
    (calls-return w
        (record { bid_level = none; ask_level = none; state = BookState.uninitialized; age = none })
        price qty at (record { resolved = r.resolved; in_time = t }) r.after r.some_slot r.slots).1,
    then_do-Reshapes w (charge w at) (λ u. traded u price qty at)
        (λ u. slot_mut-Reshapes u (index_at u at) (λ k. record_trade k price qty))
        (charge-Reshapes w at),
  )
