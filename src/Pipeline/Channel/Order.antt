-- ===== src/Pipeline/Channel/Order.antt =====
-- What a single call does, and the channel as a queue that loses from the front.
use market_aggregator.Common.{
  ℕ, zero, suc, ◌+◌, ◌≤◌, ◌<◌, true, false, none, some, List, [], ◌∷◌, ◌++◌, ◌≡◌, ◌⊎◌, refl, arith,
  length, map, Bool-cases, inl, inr, leb, ltb, ltb→lt, ◌%◌, ◌^◌, tests, replicate, ap,
}
use market_aggregator.Pipeline.Channel.{
  Channel, SendOutcome, Received, Lossless, enqueue, send, close, recv, send_lossless,
}

module _ {ℓ} {T : Type ℓ} where
  -- No more is queued than the channel holds, and it holds something.
  pub record IsValid (c : Channel T) : Type ℓ where
    pub holds : 0 < c.capacity
    pub within : length c.queue ≤ c.capacity

  -- The lock section of `send`: room, or the oldest item makes room.
  pub enqueue_cases :
      (capacity : ℕ) (q : List T) (x : T)
      → 0 < capacity
      → length q ≤ capacity
      → ((length q < capacity) × (enqueue capacity q x ≡ (q ++ x ∷ [], none)))
        ⊎ ((old : T) × (rest : List T) × (q ≡ old ∷ rest)
            × (length q ≡ capacity)
            × (enqueue capacity q x ≡ (rest ++ x ∷ [], some old)))
  enqueue_cases capacity [] x h l = inl (h, refl)
  enqueue_cases capacity (y ∷ ys) x h l = elim (Bool-cases (leb capacity (suc (length ys)))) [
    | inl full ↦ inr (y, ys, refl, omega tests, rw full)
    | inr room ↦ inl (ground arith, rw room)
  ]

  -- What `send` does on each branch: refused with the item and nothing changed; queued at the
  -- back where there is room; or queued at the back with exactly the oldest item out, returned
  -- and counted.
  send_outcome :
      (c : Channel T) (x : T)
      → IsValid c
      → ((c.closed ≡ true) × (send c x ≡ (c, SendOutcome.refused x)))
        ⊎ ((c.closed ≡ false)
            × (length c.queue < c.capacity)
            × (send c x ≡ (record c { queue = c.queue ++ x ∷ [] }, SendOutcome.sent)))
        ⊎ ((c.closed ≡ false)
            × ((old : T) × (rest : List T) × (c.queue ≡ old ∷ rest)
                × (length c.queue ≡ c.capacity)
                × (send c x ≡ (
                  record c { queue = rest ++ x ∷ []; dropped = (c.dropped + 1) % 2 ^ 64 },
                  SendOutcome.dropped_oldest old,
                ))))
  unfolding send
  send_outcome c x v = elim (Bool-cases c.closed) [
    | inl shut ↦ inl (shut, rw shut)
    | inr usable ↦ elim (enqueue_cases c.capacity c.queue x v.holds v.within) [
      | inl (room, e) ↦ inr (inl (usable, room, rw usable (rw e)))
      | inr (old, rest, eq, full, e) ↦ inr (inr (usable, (old, rest, eq, full, rw usable (rw e))))
    ]
  ]

  -- Receive `n` times, with nothing sent between.
  pub drain : ℕ → Channel T → List (Received T)
  drain zero c = []
  drain (suc n) c = let (c', r) = recv c in r ∷ drain n c'

  recv_ended : (c : Channel T) → c.queue ≡ [] → c.closed ≡ true → recv c ≡ (c, Received.ended)
  unfolding recv
  recv_ended c e shut = ground arith

  recv_got :
      (c : Channel T) (x : T) (q : List T)
      → c.queue ≡ x ∷ q
      → recv c ≡ (record c { queue = q }, Received.got x)
  unfolding recv
  recv_got c x q e = ground arith

  drain_from_closed :
      (k : ℕ) (c : Channel T) (q : List T) (n : ℕ)
      → k ≡ length q + n
      → c.queue ≡ q
      → c.closed ≡ true
      → drain k c ≡ map Received.got q ++ replicate n Received.ended
  unfolding drain
  drain_from_closed zero c [] zero k e shut = refl
  drain_from_closed zero c [] (suc n) k e shut = absurd (omega arith)
  drain_from_closed zero c (x ∷ q) n k e shut = absurd (omega arith)
  drain_from_closed (suc m) c [] zero k e shut = absurd (omega arith)
  drain_from_closed (suc m) c [] (suc n) k e shut =
      rw (recv_ended c e shut)
        (ap (◌∷◌ Received.ended) (drain_from_closed m c [] n (omega arith) e shut))
  drain_from_closed (suc m) c (x ∷ q) n k e shut = rw (recv_got c x q e) (
      ap (◌∷◌ (Received.got x))
        (drain_from_closed m (record c { queue = q }) q n (omega arith) refl shut))

  -- Closing discards nothing: after a close the receiver is handed every queued item, oldest
  -- first, and then, however often it asks, the end.
  pub drain-close :
      (c : Channel T) (n : ℕ)
      → drain (length c.queue + n) (close c)
        ≡ map Received.got c.queue ++ replicate n Received.ended
  unfolding close
  drain-close c n = drain_from_closed (length c.queue + n) (close c) c.queue n refl refl refl

  -- `send_lossless` never evicts: it queues at the back where there is room, waits where there is
  -- none, and hands the item back where the channel is closed; only the first changes anything.
  pub send_lossless_outcome :
      (c : Channel T) (x : T)
      → IsValid c
      → ((c.closed ≡ true) × (send_lossless c x ≡ (c, Lossless.handed_back x)))
        ⊎ ((c.closed ≡ false)
            × (c.capacity ≤ length c.queue)
            × (send_lossless c x ≡ (c, Lossless.waits_for_space)))
        ⊎ ((c.closed ≡ false)
            × (length c.queue < c.capacity)
            × (send_lossless c x ≡ (record c { queue = c.queue ++ x ∷ [] }, Lossless.queued)))
  unfolding send_lossless send
  send_lossless_outcome c x v = elim (Bool-cases c.closed) [
    | inl shut ↦ inl (shut, rw shut)
    | inr usable ↦ elim (Bool-cases (ltb (length c.queue) c.capacity)) [
      | inr full ↦ inr (inl (usable, ground arith, rw (usable, full)))
      | inl room ↦ elim (enqueue_cases c.capacity c.queue x v.holds v.within) [
        | inl (less, e) ↦ inr (inr (usable, less, rw (usable, room) (rw e)))
        | inr (old, rest, eq, full, e) ↦ absurd (omega (tests, ltb→lt _ _ room))
      ]
    ]
  ]
