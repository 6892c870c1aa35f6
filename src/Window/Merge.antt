-- ===== src/Window/Merge.antt =====
-- src/AbstractMetricsManager.h: reading one window, or several merged into one. The parameter
-- `bucket` of the merges is `some` where `dynamic_cast` to the manager's own bucket class succeeds.
pub mod Laws
pub mod Cache
use Prim.Native.String.{String}
use pktvisor.Prelude.{
  ℕ, ◌+◌, ◌-◌, Bool, true, false, ◌&&◌, ◌||◌, Option, none, some, List, [], ◌∷◌, ◌++◌,
  if◌then◌else◌, ltb, leb, ◌==◌, length, get_elem?, take, drop,
}
use pktvisor.Metrics.Counter.{Timespec, Aggregate, default, sum}
use pktvisor.Metrics.Quantile.{KllSketch}
use pktvisor.Window.Bucket.{
  BucketClass, Bucket, new_bucket, set_bucket_recorded, period_length, merge_bucket,
}
use pktvisor.Window.Manager.{Manager, groups_none}
use pktvisor.Window.Export.{LabelMap, Export, with_tap, newest_closed, bucket_opentelemetry}

-- The `PeriodException`s with the numbers in their messages. `out_of_range` is what
-- `std::deque::at` throws, and `not_written` is what a derived class's `to_opentelemetry` may throw.
pub data PeriodError : Type 0 where
  invalid_period : ℕ → ℕ → PeriodError
  not_accumulated : ℕ → PeriodError
  no_longer_held out_of_range not_written : PeriodError

pub data Outcome {ℓ} (A : Type ℓ) : Type ℓ where
  ok : A → Outcome A
  throws : PeriodError → Outcome A

infixl 5 ◌>>=◌
abbrev pub ◌>>=◌ {ℓ κ} : {A : Type ℓ} {B : Type κ} → Outcome A → (A → Outcome B) → Outcome B
ok a >>= f = f a
throws e >>= f = throws e

-- What `window_single_json` and its like write under a key: the period, and the bucket whose
-- `to_json` is called.
pub record JsonWindow (S K : Type 0) : Type 0 where
  pub start_ts : ℕ
  pub length_ts : ℕ
  pub bucket : Bucket S K

-- A merge goes into the bucket that the caller passed, and the result is null, or into a new one.
pub data Merged (S K : Type 0) : Type 0 where
  into_given : Bucket S K → Merged S K
  into_new : Bucket S K → Merged S K

abbrev pub same_stamp : Timespec → Timespec → Bool
same_stamp a b = a.tv_sec == b.tv_sec && a.tv_nsec == b.tv_nsec

module _ {S K : Type 0} where
  abbrev pub at : List (Bucket S K) → ℕ → Outcome (Bucket S K)
  at bs i = elim (get_elem? bs i) [ none ↦ throws out_of_range | some b ↦ ok b ]

  -- The two guards of the methods that take one period, and the bucket that they then read.
  unfoldable pub single_bucket : Manager S K → ℕ → Outcome (Bucket S K)
  single_bucket m period =
      if leb m.num_periods period
      then throws (invalid_period 0 (m.num_periods - 1))
      else if leb (length m.buckets) period
      then throws (not_accumulated (length m.buckets - 1))
      else at m.buckets period

  abbrev pub json_window : Bucket S K → Timespec → JsonWindow S K
  json_window b now = record {
    start_ts = b.start_tstamp.tv_sec;
    length_ts = period_length b now;
    bucket = b;
  }

  -- `none`: every group is disabled, and nothing is written.
  unfoldable pub window_single_json : Manager S K → ℕ → Timespec → Outcome (Option (JsonWindow S K))
  unfolding single_bucket
  window_single_json m period now = do
    b ← single_bucket m period
    ok (if groups_none m.groups then none else some (json_window b now))

  unfoldable pub window_single_prometheus :
      Manager S K → ℕ → LabelMap → Outcome (Option (Bucket S K × LabelMap))
  unfolding single_bucket
  window_single_prometheus m period labels = do
    b ← single_bucket m period
    ok (if groups_none m.groups then none else some (b, with_tap m labels))

  unfoldable pub window_single_opentelemetry :
      Manager S K → Timespec → List (Export S K) → ℕ → LabelMap → Outcome (List (Export S K))
  unfolding single_bucket
  window_single_opentelemetry m now scope period labels = do
    b ← single_bucket m period
    ok (bucket_opentelemetry m now scope b labels)

  unfoldable pub window_external_opentelemetry :
      Manager S K → Timespec → List (Export S K) → Bucket S K → LabelMap → List (Export S K)
  window_external_opentelemetry m now scope b labels =
      if groups_none m.groups
      then scope
      else scope
        ++ record {
          bucket = b;
          start_ts = b.start_tstamp;
          end_ts = if b.end_tstamp.tv_sec == 0 then now else b.end_tstamp;
          labels = labels;
        }
          ∷ []

  unfoldable pub window_external_prometheus :
      Manager S K → Bucket S K → LabelMap → Option (Bucket S K × LabelMap)
  window_external_prometheus m b labels = if groups_none m.groups then none else some (b, labels)

  unfoldable pub window_external_json :
      Manager S K → Bucket S K → Timespec → Option (JsonWindow S K)
  window_external_json m b now = if groups_none m.groups then none else some (json_window b now)

  -- The loop of `closed_merge`, over the closed buckets, newest first.
  unfoldable pub find_start : List (Bucket S K) → Timespec → Outcome (Bucket S K)
  find_start [] start = throws no_longer_held
  find_start (b ∷ bs) start = if same_stamp b.start_tstamp start then ok b else find_start bs start

module _ {S K : Type 0} ⦃cls : BucketClass S⦄ ⦃kll : KllSketch K⦄ where
  unfoldable pub merge_given : Option (Bucket S K) → Bucket S K → Timespec → Merged S K
  merge_given none held now = into_new (merge_bucket (new_bucket now) held default now)
  merge_given (some b) held now = into_given (merge_bucket b held sum now)

  unfoldable pub simple_merge :
      Manager S K → Option (Bucket S K) → ℕ → Timespec → Outcome (Merged S K)
  unfolding merge_given single_bucket
  simple_merge m bucket period now = do
    held ← single_bucket m period
    ok (merge_given bucket held now)

  unfoldable pub closed_merge :
      Manager S K → Option (Bucket S K) → Timespec → Timespec → Outcome (Merged S K)
  unfolding merge_given find_start newest_closed
  closed_merge m bucket start now = do
    held ← find_start (drop (newest_closed m.buckets) m.buckets) start
    ok (merge_given bucket held now)

  -- `merged.merge(*m)` for each of the buckets.
  unfoldable pub merge_in : Bucket S K → List (Bucket S K) → Timespec → Bucket S K
  merge_in merged [] now = merged
  merge_in merged (b ∷ bs) now = merge_in (merge_bucket merged b default now) bs now

  -- The merge of the newest `period` buckets, and its guard.
  unfoldable pub merge_periods : Manager S K → ℕ → Timespec → Bucket S K
  unfolding merge_in
  merge_periods m period now =
      merge_in (if m.recorded_stream then set_bucket_recorded (new_bucket now) else new_bucket now)
        (take period m.buckets) now

  abbrev pub bad_range : Manager S K → ℕ → Bool
  bad_range m period = leb period 1 || ltb m.num_periods period

  unfoldable pub multiple_merge :
      Manager S K → Option (Bucket S K) → ℕ → Timespec → Outcome (Merged S K)
  unfolding merge_periods
  multiple_merge m bucket period now =
      if bad_range m period
      then throws (invalid_period 2 m.num_periods)
      else ok (elim bucket [
        | none ↦ into_new (merge_periods m period now)
        | some b ↦ into_given (merge_bucket b (merge_periods m period now) sum now)
      ])
