-- ===== src/Window/Export.antt =====
-- src/AbstractMetricsManager.h: what the manager reads out of its window for the exporters. A call
-- of the virtual `to_opentelemetry` is recorded as an `Export`; `now` is what the clock reads.
pub mod Loop
pub mod Once
use Prim.Native.String.{String}
use mathlib.Core.List.{reverse}
use text.Mathlib.Text.{◌==◌ as str_eq}
use pktvisor.Prelude.{
  ℕ, Bool, true, false, ◌&&◌, ◌||◌, not, Option, none, some, List, [], ◌∷◌, ◌++◌, if◌then◌else◌,
  ltb, ◌==◌, drop,
}
use pktvisor.Metrics.Counter.{Timespec}
use pktvisor.Window.Bucket.{Bucket}
use pktvisor.Window.Manager.{Manager, groups_none}

abbrev pub LabelMap : Type 0
LabelMap = List (String × String)

-- `find(key) != end()`
unfoldable pub has_label : String → LabelMap → Bool
has_label k [] = false
has_label k ((j, v) ∷ l) = str_eq j k || has_label k l

pub record Export (S K : Type 0) : Type 0 where
  pub bucket : Bucket S K
  pub start_ts : Timespec
  pub end_ts : Timespec
  pub labels : LabelMap

-- `_starts_after`
unfoldable pub starts_after : Timespec → Option Timespec → Bool
starts_after t none = true
starts_after t (some after) =
    ltb after.tv_sec t.tv_sec || (t.tv_sec == after.tv_sec && ltb after.tv_nsec t.tv_nsec)

module _ {S K : Type 0} where
  -- `_newest_closed`
  unfoldable pub newest_closed : List (Bucket S K) → ℕ
  newest_closed [] = 1
  newest_closed (b ∷ bs) = if b.read_only then 0 else 1

  -- The buckets from the index `_newest_closed` on, oldest first: the order of both loops over `i`.
  unfoldable pub closed_oldest_first : Manager S K → List (Bucket S K)
  unfolding newest_closed
  closed_oldest_first m = reverse (drop (newest_closed m.buckets) m.buckets)

  unfoldable pub first_after : List (Bucket S K) → Option Timespec → Option Timespec
  first_after [] after = none
  first_after (b ∷ bs) after =
      if starts_after b.start_tstamp after then some b.start_tstamp else first_after bs after

  unfoldable pub next_closed_window_start : Manager S K → Option Timespec → Option Timespec
  unfolding first_after closed_oldest_first
  next_closed_window_start m after = first_after (closed_oldest_first m) after

  abbrev pub with_tap : Manager S K → LabelMap → LabelMap
  with_tap m labels =
      if not (str_eq m.tap_name "") && not (has_label "tap" labels)
      then ("tap", m.tap_name) ∷ labels
      else labels

  -- `_bucket_opentelemetry`
  unfoldable pub bucket_opentelemetry :
      Manager S K → Timespec → List (Export S K) → Bucket S K → LabelMap → List (Export S K)
  bucket_opentelemetry m now scope b labels =
      if groups_none m.groups
      then scope
      else scope
        ++ record {
          bucket = b;
          start_ts = b.start_tstamp;
          end_ts = if b.end_tstamp.tv_sec == 0 then now else b.end_tstamp;
          labels = with_tap m labels;
        }
          ∷ []

  -- The loop of `window_closed_opentelemetry`, over the buckets left: the scope, and `newest`.
  unfoldable pub export_loop :
      Manager S K
      → Timespec
      → LabelMap
      → Option Timespec
      → List (Bucket S K)
      → List (Export S K) × Option Timespec
      → List (Export S K) × Option Timespec
  export_loop m now labels last [] acc = acc
  export_loop m now labels last (b ∷ bs) (scope, newest) = export_loop m now labels last bs (
      if starts_after b.start_tstamp last
      then (bucket_opentelemetry m now scope b labels, some b.start_tstamp)
      else (scope, newest))

  abbrev pub finish_export :
      Option Timespec
      → List (Export S K) × Option Timespec
      → List (Export S K) × Option Timespec × Bool
  finish_export last (scope, none) = (scope, last, false)
  finish_export last (scope, some newest) = (scope, some newest, true)

  -- The scope after it, the new `last_start`, and the result.
  unfoldable pub window_closed_opentelemetry :
      Manager S K
      → Timespec
      → List (Export S K)
      → Option Timespec
      → LabelMap
      → List (Export S K) × Option Timespec × Bool
  unfolding export_loop closed_oldest_first
  window_closed_opentelemetry m now scope last labels =
      finish_export last (export_loop m now labels last (closed_oldest_first m) (scope, none))
