-- ===== src/Pipeline/Channel.antt =====
-- crates/ma-pipeline/src/channel.rs: the bounded channel that drops its oldest item.
pub mod Ledger
pub mod Order
use market_aggregator.Common.{
  ℕ, zero, suc, ◌+◌, ◌-◌, ◌%◌, ◌^◌, Bool, true, false, Option, none, some, List, [], ◌∷◌, ◌++◌,
  Result, ok, err, length, ltb, leb, ◌==◌, if◌then◌else◌,
}

-- `Inner`: the queue, oldest first, under its mutex, and the three atomics beside it. The two
-- `Notify` hold no item: they wake a task that then looks again, and are left out.
pub record Channel {ℓ} (T : Type ℓ) : Type ℓ where
  pub capacity : ℕ
  pub queue : List T
  pub dropped : ℕ
  pub sender_count : ℕ
  pub closed : Bool

pub data SendOutcome {ℓ} (T : Type ℓ) : Type ℓ where
  sent : SendOutcome T
  dropped_oldest : T → SendOutcome T
  refused : T → SendOutcome T

-- What one round of `recv` comes to: an item, the end of the channel, or a wait.
pub data Received {ℓ} (T : Type ℓ) : Type ℓ where
  got : T → Received T
  ended waits : Received T

-- What one round of `send_lossless` comes to; `handed_back` is `Err(Closed(item))`.
pub data Lossless {ℓ} (T : Type ℓ) : Type ℓ where
  queued waits_for_space : Lossless T
  handed_back : T → Lossless T

pub record ChannelMetrics : Type 0 where
  pub len : ℕ
  pub capacity : ℕ
  pub dropped : ℕ

module _ {ℓ} {T : Type ℓ} where
  -- `bounded`; `none` is the assertion on a capacity of zero.
  unfoldable pub bounded : ℕ → Option (Channel T)
  bounded capacity =
      if ltb 0 capacity
      then some (record {
        capacity = capacity;
        queue = [];
        dropped = 0;
        sender_count = 1;
        closed = false;
      })
      else none

  -- The section of `send` under the lock: the queue after it, and what it evicted.
  abbrev pub enqueue : ℕ → List T → T → List T × Option T
  enqueue capacity [] item = (item ∷ [], none)
  enqueue capacity (x ∷ xs) item =
      if leb capacity (length (x ∷ xs))
      then (xs ++ item ∷ [], some x)
      else ((x ∷ xs) ++ item ∷ [], none)

  -- `dropped.fetch_add(1)` on a `u64`, and the value that `send` returns.
  abbrev pub account : Channel T → Option T → Channel T × SendOutcome T
  account c none = (c, SendOutcome.sent)
  account c (some old) =
      (record c { dropped = (c.dropped + 1) % 2 ^ 64 }, SendOutcome.dropped_oldest old)

  -- `Sender::send`, run without interruption.
  unfoldable pub send : Channel T → T → Channel T × SendOutcome T
  send c item =
      if c.closed
      then (c, SendOutcome.refused item)
      else let (q, evicted) = enqueue c.capacity c.queue item in
        account (record c { queue = q }) evicted

  -- `Receiver::pop`, which is `try_recv`.
  abbrev pub pop_queue : Channel T → List T → Channel T × Option T
  pop_queue c [] = (c, none)
  pop_queue c (x ∷ xs) = (record c { queue = xs }, some x)

  unfoldable pub try_recv : Channel T → Channel T × Option T
  try_recv c = pop_queue c c.queue

  -- `Sender::close`.
  unfoldable pub close : Channel T → Channel T
  close c = record c { closed = true }

  -- `Sender::clone`, on a `usize`.
  unfoldable pub clone_sender : Channel T → Channel T
  clone_sender c = record c { sender_count = (c.sender_count + 1) % 2 ^ 64 }

  -- `Sender::drop`: the last handle closes the channel. `fetch_sub` wraps.
  unfoldable pub drop_sender : Channel T → Channel T
  drop_sender c = record c {
    sender_count = (c.sender_count + 2 ^ 64 - 1) % 2 ^ 64;
    closed = if c.sender_count == 1 then true else c.closed;
  }

  unfoldable pub metrics : Channel T → ChannelMetrics
  metrics c = record { len = length c.queue; capacity = c.capacity; dropped = c.dropped }

  abbrev pub received : Bool → Option T → Received T
  received closed (some x) = Received.got x
  received true none = Received.ended
  received false none = Received.waits

  -- One round of the loop of `recv`, run without interruption: each of its looks at the queue and
  -- at `closed` after the first then reads what the first one read.
  unfoldable pub recv : Channel T → Channel T × Received T
  unfolding try_recv
  recv c = let (c', x) = try_recv c in (c', received c.closed x)

  -- What `send_lossless` makes of the outcome of `send`.
  abbrev pub as_lossless : SendOutcome T → Lossless T
  as_lossless (SendOutcome.refused x) = Lossless.handed_back x
  as_lossless _ = Lossless.queued

  -- One round of the loop of `send_lossless`, run without interruption.
  unfoldable pub send_lossless : Channel T → T → Channel T × Lossless T
  unfolding send
  send_lossless c x =
      if c.closed
      then (c, Lossless.handed_back x)
      else if ltb (length c.queue) c.capacity
      then (let (c', outcome) = send c x in (c', as_lossless outcome))
      else (c, Lossless.waits_for_space)
