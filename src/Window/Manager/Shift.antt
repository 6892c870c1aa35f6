-- ===== src/Window/Manager/Shift.antt =====
-- Events under the shifts of src/AbstractMetricsManager.h: each is counted once, in one bucket.
use pktvisor.Prelude.{
  ℕ, suc, ◌+◌, ◌<◌, ◌≡◌, ◌≢◌, refl, Bool, Option, none, some, List, [], ◌∷◌, arith, ltb, length,
  Bool-cases, inl, inr, ◌&&◌, not, ◌==◌,
}
use pktvisor.Metrics.Counter.{Timespec, u64, incr}
use pktvisor.Metrics.Quantile.{KllSketch}
use pktvisor.Window.Bucket.{
  BucketClass, Bucket, new_bucket, update_topn_metrics, set_read_only, event_in_bucket,
  set_bucket_start, set_bucket_recorded, configure_bucket_groups,
}
use pktvisor.Window.Manager.{
  Manager, pop_back, pop_expired, period_shift, next_live, close_front, will_shift,
  check_period_shift, sample_event, count_event, new_event, set_start_tstamp, set_end_tstamp,
  set_recorded_stream, configure_groups, at_front,
}
use pktvisor.Window.Manager.Steps.{
  Call, events, checks, starts, ends, records, groups, draws, shifts, bumps, History, after,
  add_expired, call, run,
}
use pktvisor.Window.Manager.Invariant.{
  IsValid, TailClosed, call-IsValid, check_period_shift-IsValid, sample_event-IsValid,
}

module _ {S K : Type 0} where
  -- The events that a list of buckets has counted.
  abbrev pub counted : List (Bucket S K) → ℕ
  counted [] = 0
  counted (b ∷ bs) = b.num_events.value + counted bs

  -- Those of the buckets held and of the buckets expired.
  abbrev pub total : History S K → ℕ
  total h = counted h.manager.buckets + counted h.expired

  abbrev in_all : List (Bucket S K) × Option (Bucket S K) → ℕ
  in_all (bs, out) = counted bs + counted (add_expired out [])

  counted-pop_back : (bs : List (Bucket S K)) → in_all (pop_back bs) ≡ counted bs
  unfolding pop_back
  counted-pop_back [] = refl
  counted-pop_back (b ∷ []) = omega arith
  counted-pop_back (b ∷ c ∷ bs) = omega (arith, counted-pop_back (c ∷ bs))

  counted-pop_expired : (n : ℕ) (bs : List (Bucket S K)) → in_all (pop_expired n bs) ≡ counted bs
  unfolding pop_expired
  counted-pop_expired n bs = elim (Bool-cases (ltb n (length bs))) [
    | inl e ↦ rw (e, pop_expired) (counted-pop_back bs)
    | inr e ↦ rw (e, pop_expired) (omega arith)
  ]

  counted-add_expired :
      (out : Option (Bucket S K)) (bs : List (Bucket S K))
      → counted (add_expired out bs) ≡ counted (add_expired out []) + counted bs
  counted-add_expired none bs = omega arith
  counted-add_expired (some b) bs = omega arith

  counted-at_front :
      (f : Bucket S K → Bucket S K)
      → ((b : Bucket S K) → (f b).num_events ≡ b.num_events)
      → (bs : List (Bucket S K)) → counted (at_front f bs) ≡ counted bs
  counted-at_front f h [] = refl
  counted-at_front f h (b ∷ bs) = rw (h b)

-- The events of a list of calls: of `new_event` as one step, and of the last of its parts.
abbrev pub number_of_events : List Call → ℕ
number_of_events [] = 0
number_of_events (events stamp sample ∷ cs) = suc (number_of_events cs)
number_of_events (bumps ∷ cs) = suc (number_of_events cs)
number_of_events (_ ∷ cs) = number_of_events cs

number_of_events-cons :
    (c : Call) (cs : List Call)
    → number_of_events (c ∷ cs) ≡ number_of_events (c ∷ []) + number_of_events cs
number_of_events-cons (events stamp sample) cs = omega arith
number_of_events-cons (checks stamp) cs = omega arith
number_of_events-cons (starts stamp) cs = omega arith
number_of_events-cons (ends stamp) cs = omega arith
number_of_events-cons records cs = omega arith
number_of_events-cons (groups gs) cs = omega arith
number_of_events-cons (draws sample) cs = omega arith
number_of_events-cons (shifts stamp) cs = omega arith
number_of_events-cons bumps cs = omega arith

module _ {S K : Type 0} ⦃cls : BucketClass S⦄ ⦃kll : KllSketch K⦄ where
  counted-next_live :
      (m : Manager S K) (stamp : Timespec) → (next_live m stamp).num_events.value ≡ 0
  unfolding next_live new_bucket update_topn_metrics set_bucket_start set_bucket_recorded
      configure_bucket_groups
  counted-next_live m stamp = ground arith

  counted-close_front :
      (bs : List (Bucket S K)) (stamp : Timespec) → counted (close_front bs stamp) ≡ counted bs
  unfolding close_front set_read_only
  counted-close_front bs stamp = counted-at_front (λ b. set_read_only b stamp) (λ b. refl) bs

  -- What a call leaves in the window and what it expires.
  abbrev left : Manager S K × Option (Bucket S K) → ℕ
  left (m, out) = in_all (m.buckets, out)

  left-period_shift :
      (m : Manager S K) (stamp : Timespec) → left (period_shift m stamp) ≡ counted m.buckets
  unfolding period_shift
  left-period_shift m stamp = omega (
    arith,
    counted-pop_expired m.num_periods (next_live m stamp ∷ close_front m.buckets stamp),
    counted-next_live m stamp,
    counted-close_front m.buckets stamp,
  )

  left-check_period_shift :
      (m : Manager S K) (stamp : Timespec) → left (check_period_shift m stamp) ≡ counted m.buckets
  unfolding check_period_shift
  left-check_period_shift m stamp = elim (Bool-cases (will_shift m stamp)) [
    | inl e ↦ rw (e, check_period_shift) (left-period_shift m stamp)
    | inr e ↦ rw (e, check_period_shift) (omega arith)
  ]

  counted-sample_event :
      (m : Manager S K) (sample : Bool)
      → counted (sample_event m sample).buckets ≡ counted m.buckets
  unfolding sample_event
  counted-sample_event m sample = elim (Bool-cases (sample && not (m.deep_sample_rate == 100))) [
    | inl e ↦ rw (e, sample_event)
    | inr e ↦ rw (e, sample_event)
  ]

  TailClosed-not_empty : (bs : List (Bucket S K)) → TailClosed bs → bs ≢ []
  TailClosed-not_empty [] h e = h
  TailClosed-not_empty (b ∷ bs) h e = cc

  counted-count_event :
      (deep : Bool) (bs : List (Bucket S K))
      → bs ≢ []
      → counted bs + 1 < u64
      → counted (at_front (λ b. event_in_bucket b deep) bs) ≡ counted bs + 1
  unfolding event_in_bucket incr
  counted-count_event deep [] h l = absurd (h refl)
  counted-count_event deep (b ∷ bs) h l = omega arith

  left-new_event :
      (m : Manager S K) (stamp : Timespec) (sample : Bool)
      → IsValid m
      → counted m.buckets + 1 < u64
      → left (new_event m stamp sample) ≡ counted m.buckets + 1
  unfolding new_event count_event
  left-new_event m stamp sample v l =
      let ready = sample_event m sample in
      let shifted = check_period_shift ready stamp in
      let w = check_period_shift-IsValid ready stamp (sample_event-IsValid m sample v) in
      omega (
        arith,
        left-check_period_shift ready stamp,
        counted-sample_event m sample,
        counted-count_event shifted.0.deep_sampling_now shifted.0.buckets
            (TailClosed-not_empty shifted.0.buckets w.closed),
      )

  total-call :
      (h : History S K) (c : Call)
      → IsValid h.manager
      → total h + 1 < u64
      → total (after h (call h.manager c)) ≡ total h + number_of_events (c ∷ [])
  unfolding call set_start_tstamp set_end_tstamp set_recorded_stream configure_groups
      set_bucket_start set_bucket_recorded configure_bucket_groups count_event
  total-call h (events stamp sample) v l = omega (
    arith,
    left-new_event h.manager stamp sample v (omega arith),
    counted-add_expired (new_event h.manager stamp sample).1 h.expired,
  )
  total-call h (checks stamp) v l = omega (
    arith,
    left-check_period_shift h.manager stamp,
    counted-add_expired (check_period_shift h.manager stamp).1 h.expired,
  )
  total-call h (starts stamp) v l =
      omega (arith, counted-at_front (λ b. set_bucket_start b stamp) (λ b. refl) h.manager.buckets)
  total-call h (ends stamp) v l = omega (arith, counted-close_front h.manager.buckets stamp)
  total-call h records v l =
      omega
        (arith, counted-at_front {S = S} {K = K} set_bucket_recorded (λ b. refl) h.manager.buckets)
  total-call h (groups gs) v l = omega (
    arith,
    counted-at_front (λ b. configure_bucket_groups b (some gs)) (λ b. refl) h.manager.buckets,
  )
  total-call h (draws sample) v l = omega (arith, counted-sample_event h.manager sample)
  total-call h (shifts stamp) v l = omega (
    arith,
    left-period_shift h.manager stamp,
    counted-add_expired (period_shift h.manager stamp).1 h.expired,
  )
  total-call h bumps v l =
      let counts =
        counted-count_event h.manager.deep_sampling_now h.manager.buckets
          (TailClosed-not_empty h.manager.buckets v.closed) (omega arith) in
      omega (arith, counts)

  -- Whatever calls a valid manager gets, also with others between the parts of a `new_event`, the buckets that it holds and those that expired have
  -- counted every event of the calls exactly once, as long as a 64-bit counter can hold the sum.
  pub run-total :
      (h : History S K) (cs : List Call)
      → IsValid h.manager
      → total h + number_of_events cs + 1 < u64
      → total (run h cs) ≡ total h + number_of_events cs
  unfolding run
  run-total h [] v l = omega arith
  run-total h (c ∷ cs) v l = omega (
    arith,
    total-call h c v (omega arith),
    number_of_events-cons c cs,
    run-total (after h (call h.manager c)) cs (call-IsValid h.manager c v)
        (omega (arith, total-call h c v (omega arith), number_of_events-cons c cs)),
  )
