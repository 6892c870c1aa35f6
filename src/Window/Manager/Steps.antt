-- ===== src/Window/Manager/Steps.antt =====
-- The calls that change an `AbstractMetricsManager` of src/AbstractMetricsManager.h, as steps, and
-- the history of a manager: its state and the buckets that expired, the newest first.
use pktvisor.Prelude.{Bool, Option, none, some, List, [], ◌∷◌}
use pktvisor.Metrics.Counter.{Timespec}
use pktvisor.Metrics.Quantile.{KllSketch}
use pktvisor.Window.Bucket.{BucketClass, Bucket}
use pktvisor.Window.Manager.{
  Manager, check_period_shift, new_event, set_start_tstamp, set_end_tstamp, set_recorded_stream,
  configure_groups, sample_event, period_shift, count_event,
}

-- `new_event` and `check_period_shift` decide on a shift under a lock that they release before it, so
-- another call can come in between: `draws`, `shifts` and `bumps` are the parts of `new_event` as
-- steps of their own, the middle one, which `check_period_shift` has too, for a decision that was
-- taken at any time before.
pub data Call : Type 0 where
  events : Timespec → Bool → Call
  checks : Timespec → Call
  starts : Timespec → Call
  ends : Timespec → Call
  records : Call
  groups : List Bool → Call
  draws : Bool → Call
  shifts : Timespec → Call
  bumps : Call

pub record History (S K : Type 0) : Type 0 where
  pub manager : Manager S K
  pub expired : List (Bucket S K)

abbrev pub add_expired {ℓ} : {A : Type ℓ} → Option A → List A → List A
add_expired none xs = xs
add_expired (some x) xs = x ∷ xs

module _ {S K : Type 0} where
  abbrev pub after : History S K → Manager S K × Option (Bucket S K) → History S K
  after h (m, expiring) = record { manager = m; expired = add_expired expiring h.expired }

module _ {S K : Type 0} ⦃cls : BucketClass S⦄ ⦃kll : KllSketch K⦄ where
  unfoldable pub call : Manager S K → Call → Manager S K × Option (Bucket S K)
  call m (events stamp sample) = new_event m stamp sample
  call m (checks stamp) = check_period_shift m stamp
  call m (starts stamp) = (set_start_tstamp m stamp, none)
  call m (ends stamp) = (set_end_tstamp m stamp, none)
  call m records = (set_recorded_stream m, none)
  call m (groups gs) = (configure_groups m gs, none)
  call m (draws sample) = (sample_event m sample, none)
  call m (shifts stamp) = period_shift m stamp
  call m bumps = (count_event m, none)

  unfoldable pub run : History S K → List Call → History S K
  unfolding call
  run h [] = h
  run h (c ∷ cs) = run (after h (call h.manager c)) cs
