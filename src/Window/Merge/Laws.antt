-- ===== src/Window/Merge/Laws.antt =====
-- What the reads and merges of src/AbstractMetricsManager.h return, and when they throw.
use mathlib.Core.List.{reverse, reverse-cons}
use pktvisor.Prelude.{
  ℕ, zero, suc, ◌+◌, ◌%◌, ◌≤◌, ◌<◌, ◌≡◌, refl, ap, sym, Bool, true, false, ◌⊎◌, inl, inr, Option,
  none, some, List, [], ◌∷◌, ◌++◌, arith, Bool-cases, if◌then◌else◌, length, get_elem?, take, drop,
  subst, All, All-map, All-drop, ltb,
}
use pktvisor.Metrics.Counter.{Timespec, u64, default, sum, add_counter}
use pktvisor.Metrics.Quantile.{KllSketch}
use pktvisor.Window.Bucket.{BucketClass, Bucket, new_bucket, merge_bucket, set_bucket_recorded}
use pktvisor.Window.Manager.{Manager}
use pktvisor.Window.Manager.Invariant.{IsValid, TailClosed}
use pktvisor.Window.Manager.Shift.{counted}
use pktvisor.Window.Export.{
  starts_after, newest_closed, closed_oldest_first, first_after, next_closed_window_start,
}
use pktvisor.Window.Merge.{
  ok, into_new, into_given, single_bucket, merge_given, same_stamp, find_start, closed_merge,
  merge_in, merge_periods, bad_range, multiple_merge,
}

-- One time stamp after another; every one is after none.
abbrev pub Later : Option Timespec → Timespec → Type 0
Later none t = Unit
Later (some a) t = (a.tv_sec < t.tv_sec) ⊎ ((a.tv_sec ≡ t.tv_sec) × (a.tv_nsec < t.tv_nsec))

starts_after-Later :
    (t : Timespec) (after : Option Timespec) → starts_after t after ≡ true → Later after t
unfolding starts_after
starts_after-Later t none h = tt
starts_after-Later t (some a) h = elim (Bool-cases (ltb a.tv_sec t.tv_sec)) [
  | inl e ↦ inl (ground arith)
  | inr e ↦ inr (ground arith, ground arith)
]

module _ {S K : Type 0} where
  held_at :
      (bs : List (Bucket S K)) (i : ℕ)
      → i < length bs
      → (b : Bucket S K) × (get_elem? bs i ≡ some b)
  held_at [] i h = absurd (omega arith)
  held_at (b ∷ bs) zero h = (b, refl)
  held_at (b ∷ bs) (suc i) h = held_at bs i (omega arith)

  pub single_bucket-held :
      (m : Manager S K) (period : ℕ)
      → IsValid m
      → period < length m.buckets
      → (b : Bucket S K) × (get_elem? m.buckets period ≡ some b) × (single_bucket m period ≡ ok b)
  unfolding single_bucket
  single_bucket-held m period v h =
      let (b, e) = held_at m.buckets period h in (b, e, ground (arith, v.held))

  -- Some bucket of the list starts at `t`.
  abbrev Holds : Timespec → List (Bucket S K) → Type 0
  Holds t [] = ⊥
  Holds t (b ∷ bs) = (b.start_tstamp ≡ t) ⊎ Holds t bs

  Holds-of_append :
      (t : Timespec) (cs : List (Bucket S K)) (b : Bucket S K)
      → Holds t (cs ++ b ∷ [])
      → (b.start_tstamp ≡ t) ⊎ Holds t cs
  Holds-of_append t [] b (inl e) = inl e
  Holds-of_append t [] b (inr h) = absurd h
  Holds-of_append t (a ∷ cs) b (inl e) = inr (inl e)
  Holds-of_append t (a ∷ cs) b (inr h) = elim (Holds-of_append t cs b h) [
    | inl e ↦ inl e
    | inr k ↦ inr (inr k)
  ]

  Holds-of_reverse : (t : Timespec) (bs : List (Bucket S K)) → Holds t (reverse bs) → Holds t bs
  Holds-of_reverse t [] h = h
  Holds-of_reverse t (b ∷ bs) h =
      elim (Holds-of_append t (reverse bs) b (rw (reverse-cons b bs) at h)) [
        | inl e ↦ inl e
        | inr k ↦ inr (Holds-of_reverse t bs k)
      ]

  first_after-Holds :
      (t : Timespec) (bs : List (Bucket S K)) (after : Option Timespec)
      → first_after bs after ≡ some t
      → Holds t bs
  unfolding first_after
  first_after-Holds t [] after h = absurd (cc)
  first_after-Holds t (b ∷ bs) after h = elim (Bool-cases (starts_after b.start_tstamp after)) [
    | inl e ↦ inl (cc (h, e))
    | inr e ↦ inr (first_after-Holds t bs after (rw (e, first_after) at h))
  ]

  find_start-Holds :
      (t : Timespec) (bs : List (Bucket S K))
      → Holds t bs
      → (b : Bucket S K) × (b.start_tstamp ≡ t) × (find_start bs t ≡ ok b)
  unfolding find_start
  find_start-Holds t [] h = absurd h
  find_start-Holds t (b ∷ bs) h = elim (Bool-cases (same_stamp b.start_tstamp t)) [
    | inl e ↦ (b, ground arith, rw (e, find_start))
    | inr e ↦ elim h [
      | inl s ↦
          absurd
            (ground (arith, ap (λ (u : Timespec). u.tv_sec) s, ap (λ (u : Timespec). u.tv_nsec) s))
      | inr k ↦ let (c, s, f) = find_start-Holds t bs k in (c, s, rw (e, find_start) f)
    ]
  ]

  Holds-of_next :
      (m : Manager S K) (after : Option Timespec) (t : Timespec)
      → next_closed_window_start m after ≡ some t
      → Holds t (drop (newest_closed m.buckets) m.buckets)
  unfolding next_closed_window_start closed_oldest_first
  Holds-of_next m after t h =
      Holds-of_reverse t (drop (newest_closed m.buckets) m.buckets) (first_after-Holds t _ after h)

  first_after-Later :
      (t : Timespec) (bs : List (Bucket S K)) (after : Option Timespec)
      → first_after bs after ≡ some t
      → Later after t
  unfolding first_after
  first_after-Later t [] after h = absurd (cc)
  first_after-Later t (b ∷ bs) after h = elim (Bool-cases (starts_after b.start_tstamp after)) [
    | inl e ↦
        let s : b.start_tstamp ≡ t = cc (rw (e, first_after) at h) in
        subst (Later after) s (starts_after-Later b.start_tstamp after e)
    | inr e ↦ first_after-Later t bs after (rw (e, first_after) at h)
  ]

  find_start-All :
      (P : Bucket S K → Type 0) (t : Timespec) (bs : List (Bucket S K)) (b : Bucket S K)
      → All P bs
      → find_start bs t ≡ ok b
      → P b
  unfolding find_start
  find_start-All P t [] b h e = absurd (cc e)
  find_start-All P t (c ∷ bs) b h e = elim (Bool-cases (same_stamp c.start_tstamp t)) [
    | inl s ↦ (let q : c ≡ b = cc (rw (s, find_start) at e) in subst P q h.0)
    | inr s ↦ find_start-All P t bs b h.1 (rw (s, find_start) at e)
  ]

  -- A bucket that the list has.
  abbrev pub IsAmong : List (Bucket S K) → Bucket S K → Type 0
  IsAmong bs b = (i : ℕ) × (get_elem? bs i ≡ some b)

  All-IsAmong : (bs : List (Bucket S K)) → All (IsAmong bs) bs
  All-IsAmong [] = tt
  All-IsAmong (b ∷ bs) = (
    (0, refl),
    All-map (IsAmong bs) (IsAmong (b ∷ bs)) (λ c (i, e). (suc i, e)) bs (All-IsAmong bs),
  )

  closed_tail :
      (bs : List (Bucket S K))
      → TailClosed bs
      → All (λ (b : Bucket S K). b.read_only ≡ true) (drop (newest_closed bs) bs)
  unfolding newest_closed
  closed_tail [] h = tt
  closed_tail (b ∷ bs) h = elim (Bool-cases b.read_only) [
    | inl e ↦ subst (λ n. All P (drop n (b ∷ bs))) (sym (ap first e)) (e, h)
    | inr e ↦ subst (λ n. All P (drop n (b ∷ bs))) (sym (ap first e)) h
  ]
    where
      P : Bucket S K → Type 0
      P c = c.read_only ≡ true

      first : Bool → ℕ
      first r = if r then 0 else 1

module _ {S K : Type 0} ⦃cls : BucketClass S⦄ ⦃kll : KllSketch K⦄ where
  -- A start that `next_closed_window_start` of a valid manager returned is after the one it was
  -- given, and `closed_merge` still finds it: it merges a bucket that the manager holds, which is
  -- closed and has exactly that start, and throws nothing.
  pub closed_merge-next :
      (m : Manager S K) (after : Option Timespec) (t : Timespec) (given : Option (Bucket S K))
      (now : Timespec)
      → IsValid m
      → next_closed_window_start m after ≡ some t
      → Later after t
        × ((held : Bucket S K) × IsAmong m.buckets held
            × (held.read_only ≡ true)
            × (held.start_tstamp ≡ t)
            × (closed_merge m given t now ≡ ok (merge_given given held now)))
  unfolding closed_merge next_closed_window_start
  closed_merge-next m after t given now v h =
      let closed = drop (newest_closed m.buckets) m.buckets in
      let (b, s, f) = find_start-Holds t closed (Holds-of_next m after t h) in
      (
        first_after-Later t (closed_oldest_first m) after h,
        (
          b,
          find_start-All (IsAmong m.buckets) t closed b
              (All-drop (IsAmong m.buckets) (newest_closed m.buckets) m.buckets
                (All-IsAmong m.buckets))
              f,
          find_start-All (λ (c : Bucket S K). c.read_only ≡ true) t closed b
              (closed_tail m.buckets v.closed) f,
          s,
          rw (f, closed_merge),
        ),
      )

  count-merge_bucket :
      (a b : Bucket S K) (now : Timespec)
      → (merge_bucket a b default now).num_events.value
        ≡ (a.num_events.value + b.num_events.value) % u64
  unfolding merge_bucket add_counter
  count-merge_bucket a b now = refl

  count-merge_in :
      (acc : Bucket S K) (bs : List (Bucket S K)) (now : Timespec)
      → acc.num_events.value < u64
      → (merge_in acc bs now).num_events.value ≡ (acc.num_events.value + counted bs) % u64
  unfolding merge_in
  count-merge_in acc [] now h = omega arith
  count-merge_in acc (b ∷ bs) now h =
      let next = merge_bucket acc b default now in
      omega (
        arith,
        count-merge_bucket acc b now,
        count-merge_in next bs now (omega (arith, count-merge_bucket acc b now)),
      )

  start_bucket : Manager S K → Timespec → Bucket S K
  start_bucket m now =
      if m.recorded_stream then set_bucket_recorded (new_bucket now) else new_bucket now

  count-start : (m : Manager S K) (now : Timespec) → (start_bucket m now).num_events.value ≡ 0
  unfolding start_bucket set_bucket_recorded new_bucket
  count-start m now = ground arith

  bad_range-false :
      (m : Manager S K) (period : ℕ)
      → 2 ≤ period
      → period ≤ m.num_periods
      → bad_range m period ≡ false
  bad_range-false m period h k = ground arith

  count-merge_sum :
      (a b : Bucket S K) (now : Timespec)
      → (merge_bucket a b sum now).num_events.value
        ≡ (a.num_events.value + b.num_events.value) % u64
  unfolding merge_bucket add_counter
  count-merge_sum a b now = refl

  -- The merge of a period in [2, num_periods] throws nothing. Without a given bucket the merged one
  -- has counted the events of the newest `period` buckets, modulo 2^64; a given bucket has counted
  -- them besides its own.
  pub multiple_merge_exact :
      (m : Manager S K) (period : ℕ) (now : Timespec)
      → 2 ≤ period
      → period ≤ m.num_periods
      → ((b : Bucket S K) × (multiple_merge m none period now ≡ ok (into_new b))
          × (b.num_events.value ≡ counted (take period m.buckets) % u64))
        × ((given : Bucket S K)
            → (b : Bucket S K) × (multiple_merge m (some given) period now ≡ ok (into_given b))
              × (b.num_events.value
                  ≡ (given.num_events.value + counted (take period m.buckets)) % u64))
  unfolding multiple_merge start_bucket
  multiple_merge_exact m period now h k =
      let newest = take period m.buckets in
      let whole = merge_periods m period now in
      let count : whole.num_events.value ≡ counted newest % u64 =
        omega (arith, count-start m now, count-merge_in (start_bucket m now) newest now) in
      (
        (whole, rw (bad_range-false m period h k), count),
        λ given. (
          merge_bucket given whole sum now,
          rw (bad_range-false m period h k),
          omega (arith, count-merge_sum given whole now, count),
        ),
      )
