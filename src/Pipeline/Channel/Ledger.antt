-- ===== src/Pipeline/Channel/Ledger.antt =====
-- The channel under any interleaving of its atomic sections.
use market_aggregator.Common.{
  ℕ, zero, suc, ◌+◌, ◌%◌, ◌^◌, ◌≤◌, ◌<◌, Bool, true, false, Option, none, some, List, [], ◌∷◌, ◌++◌,
  ◌≡◌, inl, inr, refl, arith, length, if◌then◌else◌, length-append, ap, sym, ◌∙◌,
}
use mathlib.Core.List.{append_assoc}
use market_aggregator.Pipeline.Channel.Order.{enqueue_cases}
use market_aggregator.Pipeline.Channel.{Channel, SendOutcome, enqueue, send, account, bounded}

-- Where an item that left the queue went.
pub data Fate : Type 0 where
  delivered evicted : Fate

-- The channel with a record of the items queued so far, of those that left in the order in which
-- they left, and of the evictions that a sender has not yet added to `dropped`.
pub record Ledger {ℓ} (T : Type ℓ) : Type ℓ where
  pub channel : Channel T
  pub accepted : List T
  pub gone : List (T × Fate)
  pub uncounted : ℕ

-- One atomic section of some task: the lock section of `send`, after a look at `closed` that may
-- be long past; a sender's `fetch_add` for its eviction; the lock section of `pop`; a store to
-- `closed`.
pub data Action {ℓ} (T : Type ℓ) : Type ℓ where
  enqueues : T → Action T
  counts pops closes : Action T

module _ {ℓ} {T : Type ℓ} where
  abbrev pub evict : Ledger T → List T × Option T → T → Ledger T
  evict g (q, none) x = record g {
    channel = record (g.channel) { queue = q };
    accepted = g.accepted ++ x ∷ [];
  }
  evict g (q, some old) x = record g {
    channel = record (g.channel) { queue = q };
    accepted = g.accepted ++ x ∷ [];
    gone = g.gone ++ (old, Fate.evicted) ∷ [];
    uncounted = g.uncounted + 1;
  }

  abbrev pub deliver : Ledger T → List T → Ledger T
  deliver g [] = g
  deliver g (x ∷ xs) = record g {
    channel = record (g.channel) { queue = xs };
    gone = g.gone ++ (x, Fate.delivered) ∷ [];
  }

  abbrev pub count_one : Ledger T → ℕ → Ledger T
  count_one g zero = g
  count_one g (suc n) = record g {
    channel = record (g.channel) { dropped = (g.channel.dropped + 1) % 2 ^ 64 };
    uncounted = n;
  }

  unfoldable pub step : Ledger T → Action T → Ledger T
  step g (Action.enqueues x) = evict g (enqueue g.channel.capacity g.channel.queue x) x
  step g Action.counts = count_one g g.uncounted
  step g Action.pops = deliver g g.channel.queue
  step g Action.closes = record g { channel = record (g.channel) { closed = true } }

  unfoldable pub run : Ledger T → List (Action T) → Ledger T
  run g [] = g
  run g (a ∷ as') = run (step g a) as'

  abbrev pub opened : Channel T → Ledger T
  opened c = record { channel = c; accepted = []; gone = []; uncounted = 0 }

  abbrev pub evictions : List (T × Fate) → ℕ
  evictions [] = 0
  evictions ((x, Fate.evicted) ∷ gs) = suc (evictions gs)
  evictions ((x, Fate.delivered) ∷ gs) = evictions gs

  abbrev pub items : List (T × Fate) → List T
  items [] = []
  items ((x, fate) ∷ gs) = x ∷ items gs

  items-append : (xs ys : List (T × Fate)) → items (xs ++ ys) ≡ items xs ++ items ys
  items-append [] ys = refl
  items-append ((x, f) ∷ xs) ys = ap (◌∷◌ x) (items-append xs ys)

  evictions-append : (xs ys : List (T × Fate)) → evictions (xs ++ ys) ≡ evictions xs + evictions ys
  evictions-append [] ys = omega arith
  evictions-append ((x, Fate.evicted) ∷ xs) ys = omega (arith, evictions-append xs ys)
  evictions-append ((x, Fate.delivered) ∷ xs) ys = evictions-append xs ys

  -- The front of the queue goes over to the end of what is gone.
  moved :
      (gone : List (T × Fate)) (next : T × Fate) (rest : List T)
      → items gone ++ next.0 ∷ rest ≡ items (gone ++ next ∷ []) ++ rest
  moved gone (x, f) rest =
      rw (items-append gone ((x, f) ∷ [])) (sym (append_assoc (items gone) (x ∷ []) rest))

  -- Nothing queued is lost or reordered: what was queued is what left, in the order in which it
  -- left, and then what is queued now. The queue keeps to its capacity. `dropped`, a `u64`, and
  -- the evictions still to be counted make up the evictions.
  pub record IsBalanced (g : Ledger T) : Type ℓ where
    pub all_there : g.accepted ≡ items g.gone ++ g.channel.queue
    pub bounded_queue : length g.channel.queue ≤ g.channel.capacity
    pub roomy : 0 < g.channel.capacity
    pub dropped_exact : (g.channel.dropped + g.uncounted) % 2 ^ 64 ≡ evictions g.gone % 2 ^ 64

  evict-IsBalanced :
      (g : Ledger T) (x : T)
      → IsBalanced g
      → IsBalanced (evict g (enqueue g.channel.capacity g.channel.queue x) x)
  evict-IsBalanced g x b =
      elim (enqueue_cases g.channel.capacity g.channel.queue x b.roomy b.bounded_queue) [
        | inl (room, e) ↦ rw e (record {
          all_there =
              ap (λ l. l ++ x ∷ []) b.all_there
              ∙ append_assoc (items g.gone) g.channel.queue (x ∷ []);
          bounded_queue = omega (arith, length-append g.channel.queue (x ∷ []));
          roomy = b.roomy;
          dropped_exact = b.dropped_exact;
        })
        | inr (old, rest, eq, full, e) ↦ rw e (record {
          all_there =
              ap (λ l. l ++ x ∷ []) (b.all_there ∙ ap (λ l. items g.gone ++ l) eq)
              ∙ append_assoc (items g.gone) (old ∷ rest) (x ∷ [])
              ∙ moved g.gone (old, Fate.evicted) (rest ++ x ∷ []);
          bounded_queue = omega (arith, length-append rest (x ∷ []), ap length eq);
          roomy = b.roomy;
          dropped_exact =
              omega (arith, b.dropped_exact, evictions-append g.gone ((old, Fate.evicted) ∷ []));
        })
      ]

  deliver-IsBalanced :
      (g : Ledger T) (q : List T) → g.channel.queue ≡ q → IsBalanced g → IsBalanced (deliver g q)
  deliver-IsBalanced g [] e b = b
  deliver-IsBalanced g (x ∷ q) e b = record {
    all_there = b.all_there ∙ ap (λ l. items g.gone ++ l) e ∙ moved g.gone (x, Fate.delivered) q;
    bounded_queue = omega (arith, b.bounded_queue, ap length e);
    roomy = b.roomy;
    dropped_exact =
        omega (arith, b.dropped_exact, evictions-append g.gone ((x, Fate.delivered) ∷ []));
  }

  count_one-IsBalanced :
      (g : Ledger T) (n : ℕ) → g.uncounted ≡ n → IsBalanced g → IsBalanced (count_one g n)
  count_one-IsBalanced g zero e b = b
  count_one-IsBalanced g (suc n) e b = record {
    all_there = b.all_there;
    bounded_queue = b.bounded_queue;
    roomy = b.roomy;
    dropped_exact = omega (arith, b.dropped_exact, e);
  }

  step-IsBalanced : (g : Ledger T) (a : Action T) → IsBalanced g → IsBalanced (step g a)
  unfolding step
  step-IsBalanced g (Action.enqueues x) b = evict-IsBalanced g x b
  step-IsBalanced g Action.counts b = count_one-IsBalanced g g.uncounted refl b
  step-IsBalanced g Action.pops b = deliver-IsBalanced g g.channel.queue refl b
  step-IsBalanced g Action.closes b = record {
    all_there = b.all_there;
    bounded_queue = b.bounded_queue;
    roomy = b.roomy;
    dropped_exact = b.dropped_exact;
  }

  run_from-IsBalanced :
      (g : Ledger T) (as' : List (Action T)) → IsBalanced g → IsBalanced (run g as')
  unfolding run
  run_from-IsBalanced g [] b = b
  run_from-IsBalanced g (a ∷ as') b = run_from-IsBalanced (step g a) as' (step-IsBalanced g a b)

  bounded-IsBalanced :
      (capacity : ℕ) (c : Channel T) → bounded capacity ≡ some c → IsBalanced (opened c)
  unfolding bounded
  bounded-IsBalanced capacity c e = ground arith

  -- However the atomic sections of any number of senders, the receiver and closers interleave on a
  -- channel that `bounded` made: every item queued has left, by delivery or eviction, in the order
  -- of queueing, or is still queued behind those; the queue keeps to the capacity; and `dropped`
  -- with the evictions that a sender has yet to count is the number of evictions, modulo 2^64.
  pub run-IsBalanced :
      (capacity : ℕ) (c : Channel T) (as' : List (Action T))
      → bounded capacity ≡ some c
      → IsBalanced (run (opened c) as')
  run-IsBalanced capacity c as' e =
      run_from-IsBalanced (opened c) as' (bounded-IsBalanced capacity c e)

  -- `send` on an open channel with nothing between is its lock section and then its count.
  pub send-run :
      (c : Channel T) (x : T)
      → c.closed ≡ false
      → (send c x).0 ≡ (run (opened c) (Action.enqueues x ∷ Action.counts ∷ [])).channel
  unfolding send run step
  send-run c x e =
      ap (λ r. r.0)
        (opens (c, SendOutcome.refused x)
          (account (record c { queue = (enqueue c.capacity c.queue x).0 })
            (enqueue c.capacity c.queue x).1)
          c.closed e)
      ∙ sections (enqueue c.capacity c.queue x)
    where
      sections :
          (out : List T × Option T)
          → (account (record c { queue = out.0 }) out.1).0
            ≡ (count_one (evict (opened c) out x) (evict (opened c) out x).uncounted).channel
      sections (q, none) = refl
      sections (q, some old) = refl

      opens :
          {A : Type ℓ} (a b : A) (closed : Bool) → closed ≡ false → (if closed then a else b) ≡ b
      opens a b closed h = rw h refl
