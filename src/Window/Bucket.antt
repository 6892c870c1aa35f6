-- ===== src/Window/Bucket.antt =====
-- src/AbstractMetricsManager.h: the class `AbstractMetricsBucket`. What a derived bucket adds is
-- a parameter, `BucketClass`; the locks make each method one step.
use pktvisor.Prelude.{
  ℕ, ◌+◌, ◌-◌, ◌%◌, Bool, true, false, ◌||◌, Option, none, List, if◌then◌else◌, ltb,
}
use pktvisor.Metrics.Counter.{
  Timespec, epoch, Aggregate, Counter, zero_counter, incr, add_counter, u32,
}
use pktvisor.Metrics.Quantile.{KllSketch}
use pktvisor.Metrics.Rate.{Rate, new_rate, add_events, cancel, merge_rate}

-- The state and the virtual methods that a derived class adds.
pub record BucketClass (S : Type 0) : Type 0 where
  pub fresh : S
  pub specialized_merge : S → S → Aggregate → S
  pub on_set_read_only : S → S
  pub update_topn_metrics : ℕ → ℕ → S → S

pub record Bucket (S K : Type 0) : Type 0 where
  pub num_samples : Counter
  pub num_events : Counter
  pub rate_events : Rate K
  pub start_tstamp : Timespec
  pub end_tstamp : Timespec
  pub length_sec : ℕ
  pub read_only : Bool
  pub recorded_stream : Bool
  pub groups : Option (List Bool)
  pub special : S

module _ {S K : Type 0} ⦃cls : BucketClass S⦄ ⦃kll : KllSketch K⦄ where
  -- The constructor, at the time `now`.
  unfoldable pub new_bucket : Timespec → Bucket S K
  new_bucket now = record {
    num_samples = zero_counter;
    num_events = zero_counter;
    rate_events = new_rate;
    start_tstamp = now;
    end_tstamp = epoch;
    length_sec = 0;
    read_only = false;
    recorded_stream = false;
    groups = none;
    special = cls.fresh;
  }

  unfoldable pub update_topn_metrics : ℕ → ℕ → Bucket S K → Bucket S K
  update_topn_metrics count threshold b = record b {
    special = cls.update_topn_metrics count threshold b.special;
  }

  -- `unsigned int` of a difference of `time_t`
  unfoldable pub set_read_only : Bucket S K → Timespec → Bucket S K
  set_read_only b stamp = record b {
    end_tstamp = stamp;
    length_sec = (stamp.tv_sec + u32 - b.start_tstamp.tv_sec % u32) % u32;
    read_only = true;
    rate_events = cancel b.rate_events;
    special = cls.on_set_read_only b.special;
  }

  unfoldable pub event_in_bucket : Bucket S K → Bool → Bucket S K
  event_in_bucket b deep = record b {
    rate_events = add_events b.rate_events 1;
    num_events = incr b.num_events;
    num_samples = if deep then incr b.num_samples else b.num_samples;
  }

module _ {S K : Type 0} where
  -- `now` is read only for a live bucket of a live stream.
  unfoldable pub period_length : Bucket S K → Timespec → ℕ
  period_length b now =
      if b.read_only || b.recorded_stream
      then b.length_sec
      else (now.tv_sec + u32 - b.start_tstamp.tv_sec % u32) % u32

  unfoldable pub set_bucket_start : Bucket S K → Timespec → Bucket S K
  set_bucket_start b stamp = record b { start_tstamp = stamp }

  unfoldable pub set_bucket_recorded : Bucket S K → Bucket S K
  set_bucket_recorded b = record b { recorded_stream = true }

  unfoldable pub configure_bucket_groups : Bucket S K → Option (List Bool) → Bucket S K
  configure_bucket_groups b gs = record b { groups = gs }

module _ {S K : Type 0} ⦃cls : BucketClass S⦄ ⦃kll : KllSketch K⦄ where
  -- Only the seconds of a time stamp are taken over.
  unfoldable pub merge_bucket : Bucket S K → Bucket S K → Aggregate → Timespec → Bucket S K
  merge_bucket b other agg now = record b {
    num_events = add_counter b.num_events other.num_events;
    num_samples = add_counter b.num_samples other.num_samples;
    length_sec = (b.length_sec + period_length other now) % u32;
    start_tstamp =
        if ltb other.start_tstamp.tv_sec b.start_tstamp.tv_sec
        then record (b.start_tstamp) { tv_sec = other.start_tstamp.tv_sec }
        else b.start_tstamp;
    end_tstamp =
        if ltb b.end_tstamp.tv_sec other.end_tstamp.tv_sec
        then record (b.end_tstamp) { tv_sec = other.end_tstamp.tv_sec }
        else b.end_tstamp;
    rate_events = merge_rate b.rate_events other.rate_events agg;
    groups = other.groups;
    special = cls.specialized_merge b.special other.special agg;
  }
