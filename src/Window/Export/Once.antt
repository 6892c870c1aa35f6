-- ===== src/Window/Export/Once.antt =====
-- The pushes of src/AbstractMetricsManager.h over a whole history: each closed window goes out
-- once, in order, however events, shifts and pushes interleave.
pub mod Push
pub mod History
use mathlib.Core.List.{reverse, reverse-cons, reverse-reverse}
use pktvisor.Prelude.{
  ℕ, ◌+◌, ◌≤◌, ◌<◌, ◌≡◌, refl, sym, subst, Bool, true, false, ◌⊎◌, inl, inr, Option, none, some,
  List, [], ◌∷◌, ◌++◌, arith, All, All-append, Bool-cases, ltb, leb, length, drop, ◌&&◌, not, ◌==◌,
  if◌then◌else◌,
}
use pktvisor.Metrics.Counter.{Timespec}
use pktvisor.Metrics.Quantile.{KllSketch}
use pktvisor.Window.Bucket.{
  BucketClass, Bucket, new_bucket, update_topn_metrics, set_read_only, event_in_bucket,
  set_bucket_start, set_bucket_recorded, configure_bucket_groups,
}
use pktvisor.Window.Manager.{
  Manager, groups_none, bitset_none, pop_back, pop_expired, period_shift, next_live, close_front,
  will_shift, check_period_shift, sample_event, count_event, new_event, set_end_tstamp,
  set_recorded_stream, configure_groups, at_front,
}
use pktvisor.Window.Manager.Steps.{Call, events, checks, starts, ends, records, groups, call}
use pktvisor.Window.Export.{
  Export, LabelMap, newest_closed, closed_oldest_first, export_loop, finish_export,
  window_closed_opentelemetry,
}
use pktvisor.Window.Export.Loop.{
  sent_secs, is_sent, Ascending, Past, Ahead, Below, Reached, cursor, Below-Ahead, Below-mono,
}
use pktvisor.Window.Export.Loop.Progress.{Status, Done, Rising, Progress, export_loop-Progress}

module _ {S K : Type 0} where
  -- Newest first: each bucket starts before the one in front of it, the front one before `hi`.
  abbrev pub Falling : ℕ → List (Bucket S K) → Type 0
  Falling hi [] = Unit
  Falling hi (b ∷ bs) = (b.start_tstamp.tv_sec < hi) × Falling b.start_tstamp.tv_sec bs

  Rising-snoc :
      (lo hi : ℕ) (b : Bucket S K) (bs : List (Bucket S K))
      → lo ≤ b.start_tstamp.tv_sec
      → b.start_tstamp.tv_sec < hi
      → Rising lo b.start_tstamp.tv_sec bs
      → Rising lo hi (bs ++ b ∷ [])
  Rising-snoc lo hi b [] l h r = (l, h, tt)
  Rising-snoc lo hi b (c ∷ bs) l h r =
      (r.0, omega arith, Rising-snoc (c.start_tstamp.tv_sec + 1) hi b bs (omega arith) h r.2)

  pub Rising-reverse : (hi : ℕ) (bs : List (Bucket S K)) → Falling hi bs → Rising 0 hi (reverse bs)
  Rising-reverse hi [] f = tt
  Rising-reverse hi (b ∷ bs) f = rw (reverse-cons b bs) (
      Rising-snoc 0 hi b (reverse bs) (omega arith) f.0
        (Rising-reverse b.start_tstamp.tv_sec bs f.1))

pub All-reverse {ℓ κ} : {A : Type ℓ} (P : A → Type κ) (xs : List A) → All P xs → All P (reverse xs)
All-reverse P [] h = tt
All-reverse P (x ∷ xs) h =
    rw (reverse-cons x xs) (All-append P (reverse xs) (x ∷ []) (All-reverse P xs h.1) (h.0, tt))

pub All-of_reverse {ℓ κ} :
    {A : Type ℓ} (P : A → Type κ) (xs : List A) → All P (reverse xs) → All P xs
All-of_reverse P xs h = subst (All P) (reverse-reverse xs) (All-reverse P (reverse xs) h)

module _ {S K : Type 0} where
  pub pop_back-Falling :
      (hi : ℕ) (bs : List (Bucket S K)) → Falling hi bs → Falling hi (pop_back bs).0
  unfolding pop_back
  pop_back-Falling hi [] f = tt
  pop_back-Falling hi (b ∷ []) f = tt
  pop_back-Falling hi (b ∷ c ∷ bs) f = (f.0, pop_back-Falling b.start_tstamp.tv_sec (c ∷ bs) f.1)

  pub pop_back-All :
      (P : Bucket S K → Type 0) (bs : List (Bucket S K)) → All P bs → All P (pop_back bs).0
  unfolding pop_back
  pop_back-All P [] h = tt
  pop_back-All P (b ∷ []) h = tt
  pop_back-All P (b ∷ c ∷ bs) h = (h.0, pop_back-All P (c ∷ bs) h.1)

  -- What holds of a deque and of its `pop_back` holds of its `pop_expired`.
  pub pop_expired-keeps :
      (Q : List (Bucket S K) → Type 0) (n : ℕ) (bs : List (Bucket S K))
      → Q bs
      → Q (pop_back bs).0
      → Q (pop_expired n bs).0
  unfolding pop_expired
  pop_expired-keeps Q n bs h k = elim (Bool-cases (ltb n (length bs))) [
    | inl e ↦ rw (e, pop_expired) k
    | inr e ↦ rw (e, pop_expired) h
  ]

-- A manager, the exporter's cursor, and all that was exported.
pub record Exporter (S K : Type 0) : Type 0 where
  pub manager : Manager S K
  pub last_start : Option Timespec
  pub scope : List (Export S K)

-- The cursor stands before the next shift; the window falls; what was sent ascends up to the
-- cursor; and every bucket held is after the cursor or has been sent.
pub record IsTracked {S K : Type 0} (x : Exporter S K) : Type 0 where
  pub falling : Falling x.manager.next_shift.tv_sec x.manager.buckets
  pub below : Below x.manager.next_shift.tv_sec x.last_start
  pub ascending : Ascending (sent_secs x.scope)
  pub reached : All (Reached x.last_start) (sent_secs x.scope)
  pub status : All (Status x.last_start x.scope) x.manager.buckets
  pub shown : groups_none x.manager.groups ≡ false
