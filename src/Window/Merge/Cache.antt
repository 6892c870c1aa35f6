-- ===== src/Window/Merge/Cache.antt =====
-- `window_merged_json` of src/AbstractMetricsManager.h and its cache of results. A JSON object is
-- the list of its keys, the latest assignment first; `ms` is the clock that the cache reads. What
-- stands under a key is written in place, so its type and the writes are parameters, `JsonValue`.
use Prim.Native.String.{String}
use text.Mathlib.Text.{◌==◌ as str_eq}
use pktvisor.Prelude.{ℕ, ◌-◌, Option, none, some, List, [], ◌∷◌, if◌then◌else◌, ltb, ◌==◌}
use pktvisor.Metrics.Counter.{Timespec}
use pktvisor.Metrics.Quantile.{KllSketch}
use pktvisor.Window.Bucket.{BucketClass, Bucket, period_length}
use pktvisor.Window.Manager.{Manager, groups_none}
use pktvisor.Window.Merge.{Outcome, ok, throws, invalid_period, merge_periods, bad_range}

abbrev pub merge_cache_ttl_ms : ℕ
merge_cache_ttl_ms = 1000

-- A null value, the assignments to `["period"]["start_ts"]` and `["period"]["length"]`, and
-- `to_json` of the derived class. What they do not write stays.
pub record JsonValue (S K J : Type 0) : Type 0 where
  pub null : J
  pub set_period : ℕ → ℕ → J → J
  pub to_json : Bucket S K → J → J

abbrev pub Json : Type 0 → Type 0
Json J = List (String × J)

-- The cached results, by period, with the time of their making.
abbrev pub MergeCache : Type 0 → Type 0
MergeCache J = List (ℕ × (ℕ × Json J))

module _ {ℓ} {V : Type ℓ} where
  unfoldable pub find_period : ℕ → List (ℕ × V) → Option V
  find_period p [] = none
  find_period p ((q, v) ∷ l) = if q == p then some v else find_period p l

  unfoldable pub erase_period : ℕ → List (ℕ × V) → List (ℕ × V)
  erase_period p [] = []
  erase_period p ((q, v) ∷ l) =
      let rest = erase_period p l in if q == p then rest else (q, v) ∷ rest

  unfoldable pub find_key : String → List (String × V) → Option V
  find_key k [] = none
  find_key k ((j, v) ∷ l) = if str_eq j k then some v else find_key k l

module _ {J : Type 0} where
  -- A valid cached result replaces `j`; one that is too old is erased.
  unfoldable pub consult_cache : MergeCache J → Json J → ℕ → ℕ → Json J × MergeCache J
  unfolding find_period erase_period
  consult_cache cache j period ms = elim (find_period period cache) [
    | none ↦ (j, cache)
    | some (made, cached) ↦
        if ltb (ms - made) merge_cache_ttl_ms
        then (cached, cache)
        else (j, erase_period period cache)
  ]

module _ {S K J : Type 0} ⦃cls : BucketClass S⦄ ⦃kll : KllSketch K⦄ where
  -- The part after the guards.
  unfoldable pub write_merged :
      JsonValue S K J
      → Manager S K
      → MergeCache J
      → Json J
      → String
      → ℕ
      → Timespec
      → ℕ
      → ℕ
      → Json J × MergeCache J
  unfolding consult_cache find_key
  write_merged json m cache j key period now ms ms' =
      let (j', cache') = consult_cache cache j period ms in
      let merged = merge_periods m period now in
      let value : J =
        json.set_period merged.start_tstamp.tv_sec (period_length merged now)
          (elim (find_key key j') [ none ↦ json.null | some v ↦ v ]) in
      let written : Json J = (key, json.to_json merged value) ∷ j' in
      (written, (period, (ms', written)) ∷ erase_period period cache')

  unfoldable pub window_merged_json :
      JsonValue S K J
      → Manager S K
      → MergeCache J
      → Json J
      → String
      → ℕ
      → Timespec
      → ℕ
      → ℕ
      → Outcome (Json J × MergeCache J)
  unfolding write_merged
  window_merged_json json m cache j key period now ms ms' =
      if bad_range m period
      then throws (invalid_period 2 m.num_periods)
      else if groups_none m.groups
      then ok (j, cache)
      else ok (write_merged json m cache j key period now ms ms')
