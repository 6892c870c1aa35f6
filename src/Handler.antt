-- ===== src/Handler.antt =====
-- src/StreamHandler.h: the class `StreamMetricsHandler`, on top of its metrics manager.
pub mod Groups
pub mod Push
use pktvisor.Prelude.{
  ℕ, ◌*◌, ◌-◌, ◌^◌, Bool, true, false, ◌||◌, ◌&&◌, not, Option, none, some, List, [], ◌∷◌,
  if◌then◌else◌, ltb, length,
}
use pktvisor.Metrics.Counter.{Timespec}
use pktvisor.Metrics.Quantile.{KllSketch}
use pktvisor.Window.Bucket.{BucketClass, Bucket}
use pktvisor.Window.Manager.{Manager, groups_none}
use pktvisor.Window.Export.{
  Export, LabelMap, starts_after, closed_oldest_first, window_closed_opentelemetry,
}
use pktvisor.Window.Merge.{
  Outcome, ok, throws, not_written, Merged, simple_merge, multiple_merge, window_single_prometheus,
  window_single_opentelemetry,
}

-- LIVE_WINDOW_PUSH_INTERVAL, in the nanoseconds of the steady clock
abbrev pub push_interval : ℕ
push_interval = 60 * 10 ^ 9

-- The result, and `last_live` after it.
unfoldable pub live_window_due : Option ℕ → ℕ → Bool × Option ℕ
live_window_due none now = (true, some now)
live_window_due (some last) now =
    if ltb (now - last) push_interval then (false, some last) else (true, some now)

pub record Handler (S K : Type 0) : Type 0 where
  pub metrics : Manager S K
  pub otel_last_window : Option Timespec
  pub otel_last_live : Option ℕ

module _ {S K : Type 0} where
  abbrev pub live_window_closed : List (Bucket S K) → Bool
  live_window_closed [] = false
  live_window_closed (b ∷ bs) = b.read_only

  unfoldable pub closes_windows : Handler S K → Bool
  closes_windows h = ltb 1 h.metrics.num_periods || live_window_closed h.metrics.buckets

  -- The newest period that no longer grows, where one is held.
  abbrev pub reported_period : Handler S K → ℕ
  reported_period h = if ltb 1 (length h.metrics.buckets) then 1 else 0

  unfoldable pub window_prometheus :
      Handler S K → LabelMap → Outcome (Option (Bucket S K × LabelMap))
  window_prometheus h labels = window_single_prometheus h.metrics (reported_period h) labels

  -- Whether `to_opentelemetry` throws for a bucket that a push writes: of the closed ones after
  -- `last`, and of the live one. `fails` is the derived class's.
  unfoldable pub any_fails : (Bucket S K → Bool) → Option Timespec → List (Bucket S K) → Bool
  any_fails fails last [] = false
  any_fails fails last (b ∷ bs) =
      let rest = any_fails fails last bs in
      if starts_after b.start_tstamp last && fails b then true else rest

  unfoldable pub closed_fails : (Bucket S K → Bool) → Handler S K → Bool
  closed_fails fails h =
      not (groups_none h.metrics.groups)
      && any_fails fails h.otel_last_window (closed_oldest_first h.metrics)

  unfoldable pub live_fails : (Bucket S K → Bool) → Manager S K → Bool
  live_fails fails m = elim m.buckets [
    | [] ↦ false
    | b ∷ bs ↦ not (groups_none m.groups) && fails b
  ]

  abbrev pub push_live :
      (Bucket S K → Bool)
      → Handler S K
      → Timespec
      → Bool × Option ℕ
      → List (Export S K)
      → LabelMap
      → Handler S K × Outcome (List (Export S K))
  push_live fails h now (false, last) scope labels = (record h { otel_last_live = last }, ok scope)
  push_live fails h now (true, last) scope labels = (
    record h { otel_last_live = last },
    if live_fails fails h.metrics
        then throws not_written
        else window_single_opentelemetry h.metrics now scope 0 labels,
  )

  -- The handler after it, and the scope or the exception; with an exception the caller drops what
  -- was written. `steady` is the steady clock.
  unfoldable pub window_opentelemetry :
      (Bucket S K → Bool)
      → Handler S K
      → Timespec
      → ℕ
      → List (Export S K)
      → LabelMap
      → Handler S K × Outcome (List (Export S K))
  unfolding live_window_due closes_windows
  window_opentelemetry fails h now steady scope labels =
      if closes_windows h
      then (if closed_fails fails h
          then (h, throws not_written)
          else (let r = window_closed_opentelemetry h.metrics now scope h.otel_last_window labels in
              (record h { otel_last_window = r.1 }, ok r.0)))
      else push_live fails h now (live_window_due h.otel_last_live steady) scope labels

module _ {S K : Type 0} ⦃cls : BucketClass S⦄ ⦃kll : KllSketch K⦄ where
  unfoldable pub merge :
      Handler S K → Option (Bucket S K) → ℕ → Bool → Bool → Timespec → Outcome (Merged S K)
  merge h bucket period prometheus merged now =
      if merged && not prometheus
      then multiple_merge h.metrics bucket period now
      else simple_merge h.metrics bucket (if prometheus then reported_period h else period) now
