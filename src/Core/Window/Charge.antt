-- ===== src/Core/Window/Charge.antt =====
-- That the accounting of trust ends within one round for every slot of the ring.
use market_aggregator.Common.{
  ℕ, zero, suc, ◌+◌, ◌-◌, ◌*◌, ◌/◌, ◌≤◌, ◌<◌, min, max, true, false, Option, none, some, ◌≡◌, sym,
  ap, ◌∙◌, subst, arith, Bool-cases, leb→le, ◌⊎◌, inl, inr, ltb, leb, length,
}
use native.Mathlib.Nat.{mul-div_cancel, le-div_iff_mul-le, div-mul-le_self, div-le_self}
use market_aggregator.Core.Decimal.{Decimal}
use market_aggregator.Core.Time.{IngestTime, since}
use market_aggregator.Core.Cross.{u64_max}
use market_aggregator.Core.Window.{
  RollingWindows, index_at, bucket_start, slice_end, charge_slice, charge_from, charge_start,
  charge, settled, ring_size, saturating_add,
}
use market_aggregator.Core.Window.Rounds.{
  IsSome, InRange, either-IsSome, starts_at, charge_from-end, slice_end-cases,
}

module _ {D : Type 0} ⦃dec : Decimal D⦄ where
  -- The loop ends where there is a round for each bucket from the cursor's to the present one.
  charge_from-returns :
      (rounds : ℕ) (w : RollingWindows D) (cursor now : IngestTime)
      → InRange w now
      → w.origin.mono ≤ cursor.mono
      → since now w.origin / w.spec.resolution < since cursor w.origin / w.spec.resolution + rounds
      → IsSome (charge_from rounds w cursor now)
  unfolding charge_from
  charge_from-returns zero w cursor now range after enough =
      charge_from-end zero w cursor now (passed enough)
    where
      behind : leb now.mono cursor.mono ≡ false → cursor.mono < now.mono
      behind g = ground arith

      passed :
          since now w.origin / w.spec.resolution < since cursor w.origin / w.spec.resolution + 0
          → now.mono ≤ cursor.mono
      passed h = elim (Bool-cases (leb now.mono cursor.mono)) [
        | inl le ↦ leb→le now.mono cursor.mono le
        | inr gt ↦ absurd (
            omega (
              arith,
              h,
              after,
              (le-div_iff_mul-le {x = since cursor w.origin / w.spec.resolution}
                    {y = since now w.origin} range.resolved).1
                  (omega (
                    arith,
                    behind gt,
                    after,
                    div-mul-le_self (since cursor w.origin) w.spec.resolution,
                  )),
            ))
      ]
  charge_from-returns (suc rounds) w cursor now range after enough =
      elim (Bool-cases (ltb cursor.mono now.mono)) [
        | inr late ↦ rw late tt
        | inl early ↦ rw early (
            either-IsSome (leb (slice_end w cursor now).mono cursor.mono)
              (charge_slice w cursor now) _
              (next early (λ x a b.
                charge_from-returns rounds (charge_slice w cursor now) x now
                  (record { resolved = range.resolved; in_time = range.in_time }) a b)))
      ]
    where
      before : ltb cursor.mono now.mono ≡ true → cursor.mono ≤ now.mono
      before e = ground arith

      Again : Type 0
      Again =
          (x : IngestTime)
          → w.origin.mono ≤ x.mono
          → since now w.origin / w.spec.resolution < since x w.origin / w.spec.resolution + rounds
          → IsSome (charge_from rounds (charge_slice w cursor now) x now)

      advanced :
          (q : ℕ) → (w.origin.mono + q * w.spec.resolution - w.origin.mono) / w.spec.resolution ≡ q
      advanced q = ap (λ m. m / w.spec.resolution) (omega arith) ∙ mul-div_cancel q range.resolved

      from_next :
          (x : IngestTime)
          → ((now.mono ≤ x.mono)
              ⊎ (x.mono
                  ≡ w.origin.mono
                    + (since cursor w.origin / w.spec.resolution + 1) * w.spec.resolution))
          → Again
          → IsSome (charge_from rounds (charge_slice w cursor now) x now)
      from_next x (inl done) again = charge_from-end rounds (charge_slice w cursor now) x now done
      from_next x (inr at) again = again x (omega (arith, at)) (
          omega (
            arith,
            enough,
            ap (λ m. (m - w.origin.mono) / w.spec.resolution) at,
            advanced (since cursor w.origin / w.spec.resolution + 1),
          ))

      next :
          ltb cursor.mono now.mono ≡ true
          → Again
          → IsSome (charge_from rounds (charge_slice w cursor now) (slice_end w cursor now) now)
      next e again =
          from_next (slice_end w cursor now) (slice_end-cases w cursor now range (before e)) again

  -- The bucket of a moment up to the present is not cut off at 64 bits.
  index_at-exact :
      (w : RollingWindows D) (t now : IngestTime)
      → InRange w now
      → t.mono ≤ now.mono
      → index_at w t ≡ since t w.origin / w.spec.resolution
  index_at-exact w t now range reached = ap (λ x. min (since t w.origin / x) u64_max) whole ∙ uncut
    where
      whole : max w.spec.resolution 1 ≡ w.spec.resolution
      whole = omega (arith, range.resolved)

      uncut :
          min (since t w.origin / w.spec.resolution) u64_max ≡ since t w.origin / w.spec.resolution
      uncut =
          omega (arith, reached, range.in_time, div-le_self (since t w.origin) w.spec.resolution)

  charge_start-enough :
      (w : RollingWindows D) (now : IngestTime)
      → InRange w now
      → w.origin.mono ≤ w.charged_to.mono
      → w.charged_to.mono ≤ now.mono
      → 0 < length w.buckets
      → length w.buckets ≤ u64_max
      → (w.origin.mono ≤ (charge_start w now).mono)
        × (since now w.origin / w.spec.resolution
            < since (charge_start w now) w.origin / w.spec.resolution + length w.buckets)
  charge_start-enough w now range after reached some_slot slots =
      elim (Bool-cases (leb (ring_size w) (index_at w now - index_at w w.charged_to))) [
        | inr within ↦ rw within (after, omega (arith, less within, present, past, slots))
        | inl far ↦ rw far (omega arith, omega (arith, skipped far, full far))
      ]
    where
      present : index_at w now ≡ since now w.origin / w.spec.resolution
      present = index_at-exact w now now range (omega arith)

      past : index_at w w.charged_to ≡ since w.charged_to w.origin / w.spec.resolution
      past = index_at-exact w w.charged_to now range reached

      less :
          leb (ring_size w) (index_at w now - index_at w w.charged_to) ≡ false
          → index_at w now - index_at w w.charged_to < ring_size w
      less g = ground (arith, g)

      full :
          leb (ring_size w) (index_at w now - index_at w w.charged_to) ≡ true
          → length w.buckets ≤ since now w.origin / w.spec.resolution
      full g =
          omega (
            arith,
            leb→le (ring_size w) (index_at w now - index_at w w.charged_to) g,
            present,
            slots,
          )

      skipped :
          leb (ring_size w) (index_at w now - index_at w w.charged_to) ≡ true
          → since (bucket_start w (saturating_add (index_at w now - ring_size w) 1)) w.origin
              / w.spec.resolution
            ≡ since now w.origin / w.spec.resolution - length w.buckets + 1
      skipped g =
          ap
            (λ x.
              (w.origin.mono
                + min (min (x - ring_size w + 1) u64_max * w.spec.resolution) u64_max
                - w.origin.mono)
              / w.spec.resolution)
            present
          ∙ (ap
                (λ x.
                  (w.origin.mono
                    + min
                        (min (since now w.origin / w.spec.resolution - x + 1) u64_max
                          * w.spec.resolution)
                        u64_max
                    - w.origin.mono)
                  / w.spec.resolution)
                whole_ring
              ∙ (ap (λ y. y / w.spec.resolution)
                    (shifted w.origin.mono (
                      min
                        (min (since now w.origin / w.spec.resolution - length w.buckets + 1) u64_max
                          * w.spec.resolution)
                        u64_max))
                  ∙ starts_at (since now w.origin / w.spec.resolution - length w.buckets + 1)
                      (length w.buckets - 1) w.spec.resolution u64_max range.resolved
                      (subst (λ x. x * w.spec.resolution ≤ u64_max) (sym (parts g)) fits)))
        where
          whole_ring : ring_size w ≡ length w.buckets
          whole_ring = omega (arith, slots)

          shifted : (a b : ℕ) → a + b - a ≡ b
          shifted a b = omega arith

          parts :
              leb (ring_size w) (index_at w now - index_at w w.charged_to) ≡ true
              → since now w.origin / w.spec.resolution
                  - length w.buckets
                  + 1
                  + (length w.buckets - 1)
                ≡ since now w.origin / w.spec.resolution
          parts k = omega (arith, full k, some_slot)

          fits : since now w.origin / w.spec.resolution * w.spec.resolution ≤ u64_max
          fits =
              omega (arith, div-mul-le_self (since now w.origin) w.spec.resolution, range.in_time)

  -- The accounting of trusted time, which every call on the windows begins with and which computes
  -- with no decimals, always ends: however long it is since the last call, its loop takes one round
  -- for each slot of the ring at most. The present is within 2^64 nanoseconds of the start, less a
  -- bucket, no account was made before the start, and the ring has a slot, and as many as a `u64`
  -- counts.
  pub charge-returns :
      (w : RollingWindows D) (now : IngestTime)
      → InRange w now
      → w.origin.mono ≤ w.charged_to.mono
      → 0 < length w.buckets
      → length w.buckets ≤ u64_max
      → IsSome (charge w now)
  unfolding charge
  charge-returns w now range after some_slot slots =
      elim (Bool-cases (leb now.mono w.charged_to.mono)) [
        | inl old ↦ rw old tt
        | inr new ↦ rw new (done new)
      ]
    where
      kept : (o : Option (RollingWindows D)) → IsSome o → IsSome (settled now o)
      kept none h = h
      kept (some v) h = tt

      later : leb now.mono w.charged_to.mono ≡ false → w.charged_to.mono ≤ now.mono
      later g = ground arith

      done :
          leb now.mono w.charged_to.mono ≡ false
          → IsSome (settled now (charge_from (length w.buckets) w (charge_start w now) now))
      done g =
          let (begun, enough) = charge_start-enough w now range after (later g) some_slot slots in
          kept (charge_from (length w.buckets) w (charge_start w now) now)
            (charge_from-returns (length w.buckets) w (charge_start w now) now range begun enough)
