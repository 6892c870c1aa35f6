-- ===== src/Tests/Fixtures.antt =====
-- A derived bucket that counts its merges, a sketch that keeps every item, and a short history.
use pktvisor.Prelude.{ℕ, ◌+◌, ◌%◌, Bool, true, false, none, some, List, [], ◌∷◌, ◌++◌}
use pktvisor.Metrics.Counter.{Timespec, u64}
use pktvisor.Metrics.Quantile.{KllSketch}
use pktvisor.Window.Bucket.{BucketClass}
use pktvisor.Window.Manager.{WindowConfig, construct}
use pktvisor.Window.Manager.Steps.{Call, events, checks, ends, History}
use pktvisor.Window.Export.Once.History.{Feed, calls, pushes}

abbrev pub item_at : List ℕ → ℕ → ℕ
item_at [] rank = 0
item_at (x ∷ xs) rank = (x + rank) % u64

abbrev no_items : List ℕ → Bool
no_items [] = true
no_items (x ∷ xs) = false

instance abbrev pub listed : KllSketch (List ℕ)
listed = record {
  empty = [];
  update = λ k x. x ∷ k;
  merge = λ k l. l ++ k;
  is_empty = no_items;
  get_quantile = item_at;
}

instance abbrev pub merges : BucketClass ℕ
merges = record {
  fresh = 0;
  specialized_merge = λ a b agg. a + b + 1;
  on_set_read_only = λ a. a;
  update_topn_metrics = λ count threshold a. a;
}

abbrev pub at_sec : ℕ → Timespec
at_sec s = record { tv_sec = s; tv_nsec = 0 }

abbrev pub config : WindowConfig
config = record {
  deep_sample_rate = none;
  internal_tap_name = none;
  num_periods = some 3;
  topn_count = none;
  topn_percentile_threshold = none;
}

abbrev pub history : History ℕ (List ℕ)
history = record { manager = construct config (at_sec 100) (at_sec 101); expired = [] }

abbrev pub three_calls : List Call
three_calls = events (at_sec 102) true ∷ events (at_sec 170) true ∷ checks (at_sec 240) ∷ []

abbrev pub feeds : List Feed
feeds =
    calls (events (at_sec 102) true)
    ∷ calls (events (at_sec 170) true)
    ∷ pushes (at_sec 171) []
    ∷ calls (ends (at_sec 180))
    ∷ []
