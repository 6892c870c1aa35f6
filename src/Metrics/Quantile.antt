-- ===== src/Metrics/Quantile.antt =====
-- src/Metrics.h: the class `Quantile` and `get_quantiles`. The sketch is a KLL sketch of the
-- datasketches library, so it is a parameter; its items are unsigned 64-bit numbers.
pub mod Laws
use pktvisor.Prelude.{ℕ, ◌+◌, ◌%◌, Bool, true, false, ◌&&◌, not, List, [], ◌∷◌, map, if◌then◌else◌}
use pktvisor.Metrics.Counter.{Aggregate, default, sum, u64}

-- The operations of `kll_sketch` that are called. A rank is in per cent.
pub record KllSketch (K : Type 0) : Type 0 where
  pub empty : K
  pub update : K → ℕ → K
  pub merge : K → K → K
  pub is_empty : K → Bool
  pub get_quantile : K → ℕ → ℕ

-- `QUANTILES`
abbrev pub quantile_ranks : List ℕ
quantile_ranks = 50 ∷ 90 ∷ 95 ∷ 99 ∷ []

abbrev pub is_sum : Aggregate → Bool
is_sum sum = true
is_sum default = false

abbrev pub is_nil : List ℕ → Bool
is_nil [] = true
is_nil (x ∷ xs) = false

-- `_quantiles_sum[i] += other_quantiles[i]` for every i
unfoldable pub add_each : List ℕ → List ℕ → List ℕ
add_each [] ys = []
add_each (x ∷ xs) [] = x ∷ xs
add_each (x ∷ xs) (y ∷ ys) = ((x + y) % u64) ∷ add_each xs ys

pub record Quantile (K : Type 0) : Type 0 where
  pub sketch : K
  pub quantiles_sum : List ℕ

module _ {K : Type 0} ⦃kll : KllSketch K⦄ where
  unfoldable pub get_quantiles : K → List ℕ
  get_quantiles k = map (kll.get_quantile k) quantile_ranks

  abbrev pub new_quantile : Quantile K
  new_quantile = record { sketch = kll.empty; quantiles_sum = [] }

  unfoldable pub update_quantile : Quantile K → ℕ → Quantile K
  update_quantile q value = record q { sketch = kll.update q.sketch value }

  unfoldable pub merge_quantile : Quantile K → Quantile K → Aggregate → Quantile K
  merge_quantile q other agg =
      if is_sum agg && not (kll.is_empty q.sketch)
      then (if kll.is_empty other.sketch then q else record q {
        quantiles_sum =
            add_each (if is_nil q.quantiles_sum then get_quantiles q.sketch else q.quantiles_sum)
              (get_quantiles other.sketch);
      })
      else record q { sketch = kll.merge q.sketch other.sketch }

  -- The values that `to_json`, `to_prometheus` and `to_opentelemetry` write; none when it is empty.
  unfoldable pub reported : Quantile K → List ℕ
  reported q =
      if kll.is_empty q.sketch
      then []
      else if is_nil q.quantiles_sum
      then get_quantiles q.sketch
      else q.quantiles_sum
