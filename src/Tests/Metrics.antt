-- ===== src/Tests/Metrics.antt =====
-- The theorems on the metric values and on the handler, at small inputs.
use mathlib.Core.List.{foldl}
use pktvisor.Prelude.{
  ℕ, ◌+◌, ◌%◌, ◌<◌, ◌≡◌, refl, Bool, map, true, false, none, some, List, [], ◌∷◌, arith,
  if◌then◌else◌,
}
use pktvisor.Metrics.Quantile.{Quantile, reported, new_quantile}
use pktvisor.Metrics.Quantile.Laws.{merge_all, total, reported-merge_all}
use pktvisor.Metrics.Rate.{Rate, RateCall, counts, exchanges, samples, new_rate, rate_run}
use pktvisor.Metrics.Rate.Laws.{seconds, rate_run-samples}
use pktvisor.Metrics.Utf8.{Bytes, is_utf8, utf8_label_value}
use pktvisor.Metrics.Utf8.Decode.{decode, decode-utf8_label_value}
use pktvisor.Metrics.Utf8.Valid.{IsBytes, IsUtf8, utf8_label_value-IsUtf8}
use pktvisor.Handler.{Handler}
use pktvisor.Handler.Groups.{
  GroupDefs, process_group, write_group, write_bit, process_list, process_groups, bit, mentions,
  fill, process_groups_bits,
}
use pktvisor.Handler.Push.{due_times, Spaced, due_times-Spaced}
use pktvisor.Window.Export.{Export}
use pktvisor.Window.Bucket.{Bucket}
use pktvisor.Metrics.Counter.{u64}
use pktvisor.Tests.Fixtures.{history, listed, merges, item_at}

abbrev one_item : Quantile (List ℕ)
one_item = record { sketch = 7 ∷ []; quantiles_sum = [] }

abbrev others : List (Quantile (List ℕ))
others = one_item ∷ new_quantile ∷ record { sketch = 3 ∷ 4 ∷ []; quantiles_sum = [] } ∷ []

bounded : (k : List ℕ) (rank : ℕ) → item_at k rank < u64
bounded [] rank = omega arith
bounded (x ∷ xs) rank = omega arith

reported-merge_all_example :
    reported (merge_all one_item others)
    ≡ map (λ rank. (item_at (7 ∷ []) rank + total rank others) % u64) (50 ∷ 90 ∷ 95 ∷ 99 ∷ [])
reported-merge_all_example = reported-merge_all one_item others bounded refl refl

abbrev rate_calls : List (RateCall (List ℕ))
rate_calls =
    counts 2 ∷ counts 3 ∷ exchanges ∷ counts 4 ∷ samples ∷ counts 1 ∷ exchanges ∷ samples ∷ []

abbrev started : Rate (List ℕ)
started = new_rate

abbrev same : ℕ → ℕ
same n = n

rate_run-samples_example :
    (rate_run same started rate_calls).quantile.sketch
    ≡ foldl
        (λ (k : List ℕ) (x : ℕ). x ∷ k)
        started.quantile.sketch
        (map same (seconds started.counter rate_calls))
rate_run-samples_example = rate_run-samples same started rate_calls refl tt

-- Two bytes of a letter, a byte of no sequence, and a backslash before three digits.
abbrev mixed : Bytes
mixed = 195 ∷ 169 ∷ 255 ∷ 92 ∷ 49 ∷ 50 ∷ 51 ∷ []

mixed-IsBytes : IsBytes mixed
mixed-IsBytes = ground arith

utf8_label_value-IsUtf8_example :
    IsUtf8 (utf8_label_value mixed) × (is_utf8 mixed ≡ true → IsUtf8 mixed)
utf8_label_value-IsUtf8_example = utf8_label_value-IsUtf8 mixed mixed-IsBytes

abbrev group_defs : GroupDefs
group_defs = ("cardinality", 0) ∷ ("counters", 1) ∷ []

process_groups_bits_example :
    bit
      (process_groups group_defs (some ("all" ∷ [])) (some ("counters" ∷ [])) (true ∷ true ∷ [])).0
      1
    ≡ (if mentions group_defs ("counters" ∷ []) 1
        then true
        else if mentions group_defs ("all" ∷ []) 1
        then false
        else bit (true ∷ true ∷ []) 1)
unfolding process_groups process_list fill process_group write_group write_bit
process_groups_bits_example =
    process_groups_bits group_defs (some ("all" ∷ [])) (some ("counters" ∷ [])) (true ∷ true ∷ []) 1
      (ground arith) refl

due_times-Spaced_example : Spaced none (due_times none (5 ∷ 70000000000 ∷ 60000000005 ∷ []))
due_times-Spaced_example = due_times-Spaced none (5 ∷ 70000000000 ∷ 60000000005 ∷ [])

abbrev handler : Handler ℕ (List ℕ)
handler = record { metrics = history.manager; otel_last_window = none; otel_last_live = none }

abbrev refuses : Bucket ℕ (List ℕ) → Bool
refuses b = b.read_only

decode-utf8_label_value_example : decode (utf8_label_value mixed) ≡ mixed
decode-utf8_label_value_example = decode-utf8_label_value mixed mixed-IsBytes
