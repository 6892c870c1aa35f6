-- ===== src/Metrics/Rate.antt =====
-- src/Metrics.h: the class `Rate`. The timer thread's callback, once a second while the timer handle
-- is not cancelled, is two steps, `exchange` and `sample`, since it stores the rate before it takes
-- the lock and reads it again under the lock: other calls can come in between. `narrow` is the
-- conversion of a rate to the `int_fast32_t` of the sketch.
pub mod Laws
use pktvisor.Prelude.{ℕ, ◌+◌, ◌%◌, Bool, true, false, List, [], ◌∷◌, if◌then◌else◌, ◌==◌}
use pktvisor.Metrics.Counter.{Aggregate, u64}
use pktvisor.Metrics.Quantile.{KllSketch, Quantile, new_quantile, update_quantile, merge_quantile}

pub record Rate (K : Type 0) : Type 0 where
  pub counter : ℕ
  pub rate : ℕ
  pub quantile : Quantile K
  pub timer_active : Bool

-- What happens to a rate between its construction and its destruction. `samples` ends a callback
-- that has begun, whatever else has happened since.
pub data RateCall (K : Type 0) : Type 0 where
  counts : ℕ → RateCall K
  exchanges samples cancels : RateCall K
  merges : Rate K → Aggregate → RateCall K

module _ {K : Type 0} ⦃kll : KllSketch K⦄ where
  abbrev pub new_rate : Rate K
  new_rate = record { counter = 0; rate = 0; quantile = new_quantile; timer_active = true }

  -- The first statement of the lambda given to `set_interval`, where the timer runs it, and the
  -- rest of it.
  unfoldable pub exchange : Rate K → Rate K
  exchange r = if r.timer_active then record r { counter = 0; rate = r.counter } else r

  unfoldable pub sample : (ℕ → ℕ) → Rate K → Rate K
  unfolding update_quantile
  sample narrow r = record r { quantile = update_quantile r.quantile (narrow r.rate) }

  unfoldable pub cancel : Rate K → Rate K
  cancel r = record r { counter = 0; rate = 0; timer_active = false }

  unfoldable pub add_events : Rate K → ℕ → Rate K
  add_events r i = record r { counter = (r.counter + i) % u64 }

  -- The live rate is copied if it is not zero.
  unfoldable pub merge_rate : Rate K → Rate K → Aggregate → Rate K
  merge_rate r other agg = record r {
    quantile = merge_quantile r.quantile other.quantile agg;
    rate = if other.rate == 0 then r.rate else other.rate;
  }

  unfoldable pub rate_call : (ℕ → ℕ) → Rate K → RateCall K → Rate K
  rate_call narrow r (counts i) = add_events r i
  rate_call narrow r exchanges = exchange r
  rate_call narrow r samples = sample narrow r
  rate_call narrow r cancels = cancel r
  rate_call narrow r (merges other agg) = merge_rate r other agg

  unfoldable pub rate_run : (ℕ → ℕ) → Rate K → List (RateCall K) → Rate K
  unfolding rate_call
  rate_run narrow r [] = r
  rate_run narrow r (c ∷ cs) = rate_run narrow (rate_call narrow r c) cs
