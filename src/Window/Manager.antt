-- ===== src/Window/Manager.antt =====
-- src/AbstractMetricsManager.h: the class `AbstractMetricsManager`, its state, its constructor
-- and the methods that change it. The front of the deque is the head of the list.
pub mod Steps
pub mod Invariant
pub mod Shift
use Prim.Native.String.{String}
use pktvisor.Prelude.{
  ℕ, ◌+◌, ◌%◌, Bool, true, false, ◌&&◌, not, Option, none, some, List, [], ◌∷◌, if◌then◌else◌, ltb,
  leb, ◌==◌, length, min, max,
}
use pktvisor.Metrics.Counter.{Timespec, epoch, u32}
use pktvisor.Metrics.Quantile.{KllSketch}
use pktvisor.Window.Bucket.{
  BucketClass, Bucket, new_bucket, update_topn_metrics, set_read_only, event_in_bucket,
  set_bucket_start, set_bucket_recorded, configure_bucket_groups,
}
use pktvisor.Window.Sampling.{splitmix64, golden_gamma}

-- METRICS_PERIOD_SEC
abbrev pub period_sec : ℕ
period_sec = 60

-- The settings that the constructor reads from its `Configurable`; `none` where the key is absent.
pub record WindowConfig : Type 0 where
  pub deep_sample_rate : Option ℕ
  pub internal_tap_name : Option String
  pub num_periods : Option ℕ
  pub topn_count : Option ℕ
  pub topn_percentile_threshold : Option ℕ

pub record Manager (S K : Type 0) : Type 0 where
  pub buckets : List (Bucket S K)
  pub tap_name : String
  pub num_periods : ℕ
  pub rng : ℕ
  pub deep_sample_rate : ℕ
  pub topn_count : ℕ
  pub topn_threshold : ℕ
  pub deep_sampling_now : Bool
  pub recorded_stream : Bool
  pub groups : Option (List Bool)
  pub last_shift : Timespec
  pub next_shift : Timespec

abbrev pub or_default {ℓ} : {A : Type ℓ} → Option A → A → A
or_default none d = d
or_default (some a) d = a

-- `pop_back`, with what it popped.
unfoldable pub pop_back {ℓ} : {A : Type ℓ} → List A → List A × Option A
pop_back [] = ([], none)
pop_back (x ∷ []) = ([], some x)
pop_back (x ∷ y ∷ ys) = let (kept, out) = pop_back (y ∷ ys) in (x ∷ kept, out)

-- The deque is cut to `n` elements if it has one more.
unfoldable pub pop_expired {ℓ} : {A : Type ℓ} → ℕ → List A → List A × Option A
pop_expired n xs = if ltb n (length xs) then pop_back xs else (xs, none)

-- A call on the bucket at the front.
abbrev pub at_front {ℓ} : {A : Type ℓ} → (A → A) → List A → List A
at_front f [] = []
at_front f (x ∷ xs) = f x ∷ xs

-- `_num_periods` after the two clamps, and `_deep_sample_rate` after its own.
abbrev pub clamp_periods : ℕ → ℕ
clamp_periods n = max (min n 10) 1

abbrev pub clamp_rate : ℕ → ℕ
clamp_rate n = if ltb 100 n then 100 else if ltb n 1 then 1 else n

-- `std::bitset::none`
unfoldable pub bitset_none : List Bool → Bool
bitset_none [] = true
bitset_none (b ∷ bs) = not b && bitset_none bs

-- The test at the head of each export, `_groups && _groups->none()`.
unfoldable pub groups_none : Option (List Bool) → Bool
unfolding bitset_none
groups_none none = false
groups_none (some gs) = bitset_none gs

module _ {S K : Type 0} ⦃cls : BucketClass S⦄ ⦃kll : KllSketch K⦄ where
  -- The constructor. The clock is read twice: for the manager, and then in the first bucket.
  unfoldable pub construct : WindowConfig → Timespec → Timespec → Manager S K
  construct config now later = record {
    buckets = update_topn_metrics count threshold (new_bucket later) ∷ [];
    tap_name = or_default config.internal_tap_name "";
    num_periods = clamp_periods (or_default config.num_periods 5 % u32);
    rng = golden_gamma;
    deep_sample_rate = clamp_rate (or_default config.deep_sample_rate 100 % u32);
    topn_count = count;
    topn_threshold = threshold;
    deep_sampling_now = true;
    recorded_stream = false;
    groups = none;
    last_shift = now;
    next_shift = record now { tv_sec = now.tv_sec + period_sec };
  }
    where
      count : ℕ
      count = or_default config.topn_count 10

      threshold : ℕ
      threshold = or_default config.topn_percentile_threshold 0

  -- The bucket that `_period_shift` makes live; the clock reading of its constructor is replaced.
  unfoldable pub next_live : Manager S K → Timespec → Bucket S K
  next_live m stamp =
      let b : Bucket S K =
        update_topn_metrics m.topn_count m.topn_threshold
          (set_bucket_start (configure_bucket_groups (new_bucket epoch) m.groups) stamp) in
      if m.recorded_stream then set_bucket_recorded b else b

  -- `_metric_buckets[1]->set_read_only(stamp)`, the old front
  unfoldable pub close_front : List (Bucket S K) → Timespec → List (Bucket S K)
  close_front bs stamp = at_front (λ b. set_read_only b stamp) bs

  -- `_period_shift`: the new state and the bucket that `on_period_shift` is called with.
  unfoldable pub period_shift : Manager S K → Timespec → Manager S K × Option (Bucket S K)
  period_shift m stamp =
      let shifted = next_live m stamp ∷ close_front m.buckets stamp in
      let (kept, expiring) = pop_expired m.num_periods shifted in
      (
        record m {
          buckets = kept;
          last_shift = record (m.last_shift) { tv_sec = stamp.tv_sec };
          next_shift = record (m.next_shift) { tv_sec = stamp.tv_sec + period_sec };
        },
        expiring,
      )

  unfoldable pub will_shift : Manager S K → Timespec → Bool
  will_shift m stamp = ltb 1 m.num_periods && leb m.next_shift.tv_sec stamp.tv_sec

  unfoldable pub check_period_shift : Manager S K → Timespec → Manager S K × Option (Bucket S K)
  unfolding will_shift
  check_period_shift m stamp = if will_shift m stamp then period_shift m stamp else (m, none)

  -- The sampling decision at the head of `new_event`.
  unfoldable pub sample_event : Manager S K → Bool → Manager S K
  sample_event m sample =
      if sample && not (m.deep_sample_rate == 100)
      then (let (state', drawn) = splitmix64 m.rng in
          record m { rng = state'; deep_sampling_now = ltb (drawn % 100) m.deep_sample_rate })
      else m

  -- `_metric_buckets[0]->new_event(_deep_sampling_now)`
  unfoldable pub count_event : Manager S K → Manager S K
  count_event m = record m {
    buckets = at_front (λ b. event_in_bucket b m.deep_sampling_now) m.buckets;
  }

  unfoldable pub new_event : Manager S K → Timespec → Bool → Manager S K × Option (Bucket S K)
  new_event m stamp sample =
      let (shifted, expiring) = check_period_shift (sample_event m sample) stamp in
      (count_event shifted, expiring)

  unfoldable pub set_start_tstamp : Manager S K → Timespec → Manager S K
  set_start_tstamp m stamp = record m {
    last_shift = stamp;
    next_shift = record (m.next_shift) { tv_sec = stamp.tv_sec + period_sec };
    buckets = at_front (λ b. set_bucket_start b stamp) m.buckets;
  }

  unfoldable pub set_end_tstamp : Manager S K → Timespec → Manager S K
  set_end_tstamp m stamp = record m { buckets = close_front m.buckets stamp }

  unfoldable pub set_recorded_stream : Manager S K → Manager S K
  set_recorded_stream m = record m {
    recorded_stream = true;
    buckets = at_front set_bucket_recorded m.buckets;
  }

  unfoldable pub configure_groups : Manager S K → List Bool → Manager S K
  configure_groups m gs = record m {
    groups = some gs;
    buckets = at_front (λ b. configure_bucket_groups b (some gs)) m.buckets;
  }
