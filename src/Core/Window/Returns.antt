-- ===== src/Core/Window/Returns.antt =====
-- That no call on the windows is still in its loop when the rounds are used up.
use market_aggregator.Common.{◌≤◌, ◌<◌, Option, none, some, length}
use market_aggregator.Core.Decimal.{Decimal}
use market_aggregator.Core.Time.{IngestTime}
use market_aggregator.Core.Book.{TopOfBook}
use market_aggregator.Core.Cross.{u64_max}
use market_aggregator.Core.Window.{RollingWindows}
use market_aggregator.Core.Window.Reading.{then_do, observe, observe_trade, read}
use market_aggregator.Core.Window.Charge.{charge-returns}
use market_aggregator.Core.Window.Rounds.{IsSome, InRange}

then_do-IsSome : {A B : Type 0} (o : Option A) (f : A → B) → IsSome o → IsSome (then_do o f)
then_do-IsSome none f h = h
then_do-IsSome (some a) f h = tt

module _ {D : Type 0} ⦃dec : Decimal D⦄ where
  -- The three calls that account for the time first, where the decimals' operators return.
  pub calls-return :
      (w : RollingWindows D) (top : TopOfBook D) (price qty : D) (now : IngestTime)
      → InRange w now
      → w.origin.mono ≤ w.charged_to.mono
      → 0 < length w.buckets
      → length w.buckets ≤ u64_max
      → IsSome (observe w top now) × IsSome (observe_trade w price qty now) × IsSome (read w now)
  unfolding observe observe_trade read
  calls-return w top price qty now range after some_slot slots =
      let returns = charge-returns w now range after some_slot slots in
      (then_do-IsSome _ _ returns, then_do-IsSome _ _ returns, then_do-IsSome _ _ returns)
