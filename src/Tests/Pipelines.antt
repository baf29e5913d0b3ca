-- ===== src/Tests/Pipelines.antt =====
-- Channels and backoff schedules and the theorems about them.
use market_aggregator.Common.{ℕ, ◌≤◌, false, List, [], ◌∷◌, ◌≡◌, refl, arith, All}
use market_aggregator.Pipeline.Channel.{Channel, bounded}
use market_aggregator.Pipeline.Channel.Ledger.{
  Action, run, step, opened, IsBalanced, run-IsBalanced,
}
use market_aggregator.Pipeline.Backoff.{Backoff, equal_jitter, default_backoff, seconds}
use market_aggregator.Pipeline.Backoff.Schedule.{delays, delays-within-cap}

abbrev fresh : Channel ℕ
fresh = record { capacity = 2; queue = []; dropped = 0; sender_count = 1; closed = false }

-- Two senders whose counts come late, a receiver between them, and a close.
abbrev actions : List (Action ℕ)
actions =
    Action.enqueues 1
    ∷ Action.enqueues 2
    ∷ Action.enqueues 3
    ∷ Action.pops
    ∷ Action.counts
    ∷ Action.enqueues 4
    ∷ Action.closes
    ∷ Action.enqueues 5
    ∷ []

run-actions :
    ((run (opened fresh) actions).channel.queue ≡ 4 ∷ 5 ∷ [])
    × ((run (opened fresh) actions).channel.dropped ≡ 1)
    × ((run (opened fresh) actions).uncounted ≡ 1)
unfolding run step
run-actions = (refl, refl, refl)

run-IsBalanced_example : IsBalanced (run (opened fresh) actions)
unfolding bounded
run-IsBalanced_example = run-IsBalanced 2 fresh actions refl

abbrev third : Backoff ℕ
third = record { policy = default_backoff; jitter = 42; attempt = 3 }

delays-within-cap_example : All (λ d. d ≤ seconds 60) (delays equal_jitter third 20)
delays-within-cap_example = delays-within-cap third 20 (omega arith)
