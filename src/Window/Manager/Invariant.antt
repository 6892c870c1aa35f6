-- ===== src/Window/Manager/Invariant.antt =====
-- The invariant of the manager of src/AbstractMetricsManager.h, kept by every call.
use pktvisor.Prelude.{
  ℕ, ◌+◌, ◌≤◌, ◌≡◌, refl, Bool, true, some, List, [], ◌∷◌, arith, All, Bool-cases, inl, inr, ◌&&◌,
  not, ◌==◌, ltb, length,
}
use pktvisor.Metrics.Counter.{Timespec}
use pktvisor.Metrics.Quantile.{KllSketch}
use pktvisor.Window.Bucket.{
  BucketClass, Bucket, set_read_only, set_bucket_start, set_bucket_recorded,
  configure_bucket_groups, event_in_bucket,
}
use pktvisor.Window.Manager.{
  Manager, WindowConfig, construct, pop_back, pop_expired, period_shift, next_live, close_front,
  will_shift, check_period_shift, sample_event, count_event, new_event, set_start_tstamp,
  set_end_tstamp, set_recorded_stream, configure_groups, at_front,
}
use pktvisor.Window.Manager.Steps.{
  Call, events, checks, starts, ends, records, groups, draws, shifts, bumps, History, after, call,
  run,
}

module _ {S K : Type 0} where
  -- Every bucket behind the front one is closed.
  abbrev pub TailClosed : List (Bucket S K) → Type 0
  TailClosed [] = ⊥
  TailClosed (b ∷ bs) = All (λ (c : Bucket S K). c.read_only ≡ true) bs

  -- The window holds between one bucket and `num_periods`, itself in [1, 10]; the sample rate is
  -- in [1, 100]; the buckets behind the live one are closed; one period lies between two shifts.
  pub record IsValid (m : Manager S K) : Type 0 where
    pub held : length m.buckets ≤ m.num_periods
    pub some_period : 1 ≤ m.num_periods
    pub few_periods : m.num_periods ≤ 10
    pub some_rate : 1 ≤ m.deep_sample_rate
    pub rate_limit : m.deep_sample_rate ≤ 100
    pub closed : TailClosed m.buckets
    pub scheduled : m.next_shift.tv_sec ≡ m.last_shift.tv_sec + 60

length-pop_back {ℓ} : {A : Type ℓ} (x : A) (xs : List A) → length (pop_back (x ∷ xs)).0 ≡ length xs
unfolding pop_back
length-pop_back x [] = refl
length-pop_back x (y ∷ ys) = omega (arith, length-pop_back y ys)

module _ {S K : Type 0} where
  pop_back-TailClosed :
      (b c : Bucket S K) (bs : List (Bucket S K))
      → TailClosed (b ∷ c ∷ bs)
      → TailClosed (pop_back (b ∷ c ∷ bs)).0
  unfolding pop_back
  pop_back-TailClosed b c [] h = tt
  pop_back-TailClosed b c (d ∷ ds) h = (h.0, pop_back-TailClosed c d ds h.1)

  pop_expired-TailClosed :
      (n : ℕ) (b c : Bucket S K) (bs : List (Bucket S K))
      → TailClosed (b ∷ c ∷ bs)
      → TailClosed (pop_expired n (b ∷ c ∷ bs)).0
  unfolding pop_expired
  pop_expired-TailClosed n b c bs h = elim (Bool-cases (ltb n (length (b ∷ c ∷ bs)))) [
    | inl e ↦ rw (e, pop_expired) (pop_back-TailClosed b c bs h)
    | inr e ↦ rw (e, pop_expired) h
  ]

length-pop_expired {ℓ} :
    {A : Type ℓ} (n : ℕ) (x : A) (xs : List A)
    → length xs ≤ n
    → length (pop_expired n (x ∷ xs)).0 ≤ n
unfolding pop_expired
length-pop_expired n x xs h = ground (arith, length-pop_back x xs)

module _ {S K : Type 0} ⦃cls : BucketClass S⦄ ⦃kll : KllSketch K⦄ where
  construct-IsValid :
      (config : WindowConfig) (now later : Timespec)
      → IsValid (construct {S = S} {K = K} config now later)
  unfolding construct
  construct-IsValid config now later = record {
    held = ground arith;
    some_period = omega arith;
    few_periods = omega arith;
    some_rate = ground arith;
    rate_limit = ground arith;
    closed = tt;
    scheduled = refl;
  }

  -- The deque after a shift, by the deque before it.
  shifted-TailClosed :
      (n : ℕ) (live : Bucket S K) (stamp : Timespec) (bs : List (Bucket S K))
      → length bs ≤ n
      → TailClosed bs
      → (length (pop_expired n (live ∷ close_front bs stamp)).0 ≤ n)
        × TailClosed (pop_expired n (live ∷ close_front bs stamp)).0
  unfolding close_front
  shifted-TailClosed n live stamp [] l h = absurd h
  shifted-TailClosed n live stamp (b ∷ bs) l h =
      let shut : Bucket S K = set_read_only b stamp in
      (
        length-pop_expired n live (shut ∷ bs) l,
        pop_expired-TailClosed n live shut bs (unfold set_read_only in refl, h),
      )

  pub period_shift-IsValid :
      (m : Manager S K) (stamp : Timespec) → IsValid m → IsValid (period_shift m stamp).0
  unfolding period_shift
  period_shift-IsValid m stamp v =
      let kept =
        shifted-TailClosed m.num_periods (next_live m stamp) stamp m.buckets v.held v.closed in
      record {
        held = kept.0;
        some_period = v.some_period;
        few_periods = v.few_periods;
        some_rate = v.some_rate;
        rate_limit = v.rate_limit;
        closed = kept.1;
        scheduled = refl;
      }

  pub check_period_shift-IsValid :
      (m : Manager S K) (stamp : Timespec) → IsValid m → IsValid (check_period_shift m stamp).0
  check_period_shift-IsValid m stamp v = elim (Bool-cases (will_shift m stamp)) [
    | inl e ↦
        unfold check_period_shift in rw (e, check_period_shift) (period_shift-IsValid m stamp v)
    | inr e ↦ unfold check_period_shift in rw (e, check_period_shift) v
  ]

module _ {S K : Type 0} (f : Bucket S K → Bucket S K) where
  length-at_front : (bs : List (Bucket S K)) → length (at_front f bs) ≡ length bs
  length-at_front [] = refl
  length-at_front (b ∷ bs) = refl

  at_front-TailClosed : (bs : List (Bucket S K)) → TailClosed bs → TailClosed (at_front f bs)
  at_front-TailClosed [] h = h
  at_front-TailClosed (b ∷ bs) h = h

  -- What changes the front bucket only, the settings not, and moves both shift times together.
  front-IsValid :
      (m m' : Manager S K)
      → IsValid m
      → m'.buckets ≡ at_front f m.buckets
      → m'.num_periods ≡ m.num_periods
      → m'.deep_sample_rate ≡ m.deep_sample_rate
      → m'.next_shift.tv_sec ≡ m'.last_shift.tv_sec + 60
      → IsValid m'
  front-IsValid m m' v e p r t = record {
    held = rw (e, p) (omega (arith, length-at_front m.buckets, v.held));
    some_period = rw p v.some_period;
    few_periods = rw p v.few_periods;
    some_rate = rw r v.some_rate;
    rate_limit = rw r v.rate_limit;
    closed = rw e (at_front-TailClosed m.buckets v.closed);
    scheduled = t;
  }

module _ {S K : Type 0} ⦃cls : BucketClass S⦄ ⦃kll : KllSketch K⦄ where
  pub sample_event-IsValid :
      (m : Manager S K) (sample : Bool) → IsValid m → IsValid (sample_event m sample)
  unfolding sample_event
  sample_event-IsValid m sample v = elim (Bool-cases (sample && not (m.deep_sample_rate == 100))) [
    | inl e ↦
        rw (e, sample_event)
          (record {
            held = v.held;
            some_period = v.some_period;
            few_periods = v.few_periods;
            some_rate = v.some_rate;
            rate_limit = v.rate_limit;
            closed = v.closed;
            scheduled = v.scheduled;
          })
    | inr e ↦ rw (e, sample_event) v
  ]

  pub new_event-IsValid :
      (m : Manager S K) (stamp : Timespec) (sample : Bool)
      → IsValid m
      → IsValid (new_event m stamp sample).0
  unfolding new_event count_event
  new_event-IsValid m stamp sample v =
      let shifted = check_period_shift (sample_event m sample) stamp in
      let w =
        check_period_shift-IsValid (sample_event m sample) stamp
          (sample_event-IsValid m sample v) in
      front-IsValid _ shifted.0 (count_event shifted.0) w refl refl refl w.scheduled

  -- Every call keeps the invariant.
  pub call-IsValid : (m : Manager S K) (c : Call) → IsValid m → IsValid (call m c).0
  unfolding call set_start_tstamp set_end_tstamp close_front set_recorded_stream configure_groups
      count_event
  call-IsValid m (events stamp sample) v = new_event-IsValid m stamp sample v
  call-IsValid m (checks stamp) v = check_period_shift-IsValid m stamp v
  call-IsValid m (starts stamp) v =
      front-IsValid (λ b. set_bucket_start b stamp) m _ v refl refl refl refl
  call-IsValid m (ends stamp) v =
      front-IsValid (λ b. set_read_only b stamp) m _ v refl refl refl v.scheduled
  call-IsValid m records v = front-IsValid set_bucket_recorded m _ v refl refl refl v.scheduled
  call-IsValid m (groups gs) v =
      front-IsValid (λ b. configure_bucket_groups b (some gs)) m _ v refl refl refl v.scheduled
  call-IsValid m (draws sample) v = sample_event-IsValid m sample v
  call-IsValid m (shifts stamp) v = period_shift-IsValid m stamp v
  call-IsValid m bumps v =
      front-IsValid (λ b. event_in_bucket b m.deep_sampling_now) m _ v refl refl refl v.scheduled

  run-IsValid : (h : History S K) (cs : List Call) → IsValid h.manager → IsValid (run h cs).manager
  unfolding run
  run-IsValid h [] v = v
  run-IsValid h (c ∷ cs) v =
      run-IsValid (after h (call h.manager c)) cs (call-IsValid h.manager c v)

  -- So it holds after any calls on a constructed manager, whatever its configuration and the times.
  pub run-construct-IsValid :
      (config : WindowConfig) (now later : Timespec) (cs : List Call)
      → IsValid
          (run
            (record { manager = construct {S = S} {K = K} config now later; expired = [] })
            cs).manager
  run-construct-IsValid config now later cs = run-IsValid _ cs (construct-IsValid config now later)
