-- ===== src/Window/Export/Once/History.antt =====
-- Calls and pushes in any order, on the manager of src/AbstractMetricsManager.h.
use pktvisor.Prelude.{
  ℕ, ◌+◌, ◌≤◌, ◌<◌, ◌≡◌, refl, Bool, true, false, inl, inr, Option, none, some, List, [], ◌∷◌,
  arith, All, All-map, Bool-cases, drop, ◌&&◌, not, ◌==◌,
}
use pktvisor.Metrics.Counter.{Timespec}
use pktvisor.Metrics.Quantile.{KllSketch}
use pktvisor.Window.Bucket.{
  BucketClass, Bucket, new_bucket, update_topn_metrics, set_read_only, event_in_bucket,
  set_bucket_start, set_bucket_recorded, configure_bucket_groups,
}
use pktvisor.Window.Manager.{
  Manager, WindowConfig, construct, groups_none, bitset_none, period_shift, next_live, close_front,
  will_shift, check_period_shift, sample_event, count_event, new_event, set_end_tstamp,
  set_recorded_stream, configure_groups, at_front,
}
use pktvisor.Window.Manager.Steps.{
  Call, events, checks, starts, ends, records, groups, draws, shifts, bumps, call,
}
use pktvisor.Window.Export.{Export, LabelMap, newest_closed}
use pktvisor.Window.Export.Loop.{sent_secs, is_sent, Ascending, Ahead, Below, Below-mono}
use pktvisor.Window.Export.Loop.Progress.{Status}
use pktvisor.Window.Export.Once.{
  Falling, pop_back-Falling, pop_back-All, pop_expired-keeps, Exporter, IsTracked,
}
use pktvisor.Window.Export.Once.Push.{push, push-IsTracked, push_sends-All}

-- The calls that may come between pushes: not a new start of the live window, no configuration that
-- disables every metric group, and no shift that was decided on before another call.
abbrev pub IsSteady : Call → Type 0
IsSteady (starts stamp) = ⊥
IsSteady (groups gs) = bitset_none gs ≡ false
IsSteady (shifts stamp) = ⊥
IsSteady _ = Unit

pub data Feed : Type 0 where
  calls : Call → Feed
  pushes : Timespec → LabelMap → Feed

abbrev pub AreSteady : List Feed → Type 0
AreSteady [] = Unit
AreSteady (calls c ∷ fs) = IsSteady c × AreSteady fs
AreSteady (pushes now labels ∷ fs) = AreSteady fs

module _ {S K : Type 0} (f : Bucket S K → Bucket S K)
    (same : (b : Bucket S K) → (f b).start_tstamp ≡ b.start_tstamp) where
  at_front-Falling : (hi : ℕ) (bs : List (Bucket S K)) → Falling hi bs → Falling hi (at_front f bs)
  at_front-Falling hi [] h = tt
  at_front-Falling hi (b ∷ bs) h = rw (same b) h

  at_front-Status :
      (c : Option Timespec) (scope : List (Export S K)) (bs : List (Bucket S K))
      → All (Status c scope) bs
      → All (Status c scope) (at_front f bs)
  at_front-Status c scope [] h = tt
  at_front-Status c scope (b ∷ bs) h = rw (same b) h

  -- A call on the front bucket that does not move its start.
  front-IsTracked :
      (x : Exporter S K) (m : Manager S K)
      → IsTracked x
      → m.buckets ≡ at_front f x.manager.buckets
      → m.next_shift ≡ x.manager.next_shift
      → groups_none m.groups ≡ false
      → IsTracked (record x { manager = m })
  front-IsTracked x m v e n s = record {
    falling = rw (e, n) (at_front-Falling _ x.manager.buckets v.falling);
    below = rw n v.below;
    ascending = v.ascending;
    reached = v.reached;
    status = rw e (at_front-Status x.last_start x.scope x.manager.buckets v.status);
    shown = s;
  }

Below-le-Ahead :
    (c : Option Timespec) (hi : ℕ) (t : Timespec) → Below hi c → hi ≤ t.tv_sec → Ahead c t
Below-le-Ahead none hi t b l = tt
Below-le-Ahead (some u) hi t b l = omega arith

module _ {S K : Type 0} ⦃cls : BucketClass S⦄ ⦃kll : KllSketch K⦄ where
  start-next_live : (m : Manager S K) (stamp : Timespec) → (next_live m stamp).start_tstamp ≡ stamp
  unfolding next_live new_bucket update_topn_metrics set_bucket_start set_bucket_recorded
      configure_bucket_groups
  start-next_live m stamp = ground arith

  shift-Falling :
      (lo : ℕ) (stamp : Timespec) (live : Bucket S K) (bs : List (Bucket S K))
      → live.start_tstamp ≡ stamp
      → lo ≤ stamp.tv_sec
      → Falling lo bs
      → Falling (stamp.tv_sec + 60) (live ∷ close_front bs stamp)
  unfolding close_front set_read_only
  shift-Falling lo stamp live [] e l h = rw e (omega arith, tt)
  shift-Falling lo stamp live (b ∷ bs) e l h = rw e (omega arith, (omega arith, h.1))

  shift-Status :
      (c : Option Timespec) (scope : List (Export S K)) (bs : List (Bucket S K)) (stamp : Timespec)
      → All (Status c scope) bs
      → All (Status c scope) (close_front bs stamp)
  unfolding close_front set_read_only
  shift-Status c scope bs stamp h =
      at_front-Status (λ b. set_read_only b stamp) (λ b. refl) c scope bs h

  will_shift-le :
      (m : Manager S K) (stamp : Timespec)
      → will_shift m stamp ≡ true
      → m.next_shift.tv_sec ≤ stamp.tv_sec
  unfolding will_shift
  will_shift-le m stamp h = ground arith

  period_shift-IsTracked :
      (x : Exporter S K) (stamp : Timespec)
      → IsTracked x
      → x.manager.next_shift.tv_sec ≤ stamp.tv_sec
      → IsTracked (record x { manager = (period_shift x.manager stamp).0 })
  unfolding period_shift
  period_shift-IsTracked x stamp v l =
      let m = x.manager in
      let live = next_live m stamp in
      let deque = live ∷ close_front m.buckets stamp in
      let hi = stamp.tv_sec + 60 in
      let f : Falling hi deque =
        shift-Falling m.next_shift.tv_sec stamp live m.buckets (start-next_live m stamp) l
          v.falling in
      let st : All (Status x.last_start x.scope) deque = (
        inl (
            rw (start-next_live m stamp)
              (Below-le-Ahead x.last_start m.next_shift.tv_sec stamp v.below l)),
        shift-Status x.last_start x.scope m.buckets stamp v.status,
      ) in
      record {
        falling =
            pop_expired-keeps (Falling hi) m.num_periods deque f (pop_back-Falling hi deque f);
        below = Below-mono x.last_start m.next_shift.tv_sec hi (omega arith) v.below;
        ascending = v.ascending;
        reached = v.reached;
        status =
            pop_expired-keeps (All (Status x.last_start x.scope)) m.num_periods deque st
              (pop_back-All _ deque st);
        shown = v.shown;
      }

  check-IsTracked :
      (x : Exporter S K) (stamp : Timespec)
      → IsTracked x
      → IsTracked (record x { manager = (check_period_shift x.manager stamp).0 })
  unfolding check_period_shift
  check-IsTracked x stamp v = elim (Bool-cases (will_shift x.manager stamp)) [
    | inl e ↦
        rw (e, check_period_shift)
          (period_shift-IsTracked x stamp v (will_shift-le x.manager stamp e))
    | inr e ↦ rw (e, check_period_shift) v
  ]

  sample-IsTracked :
      (x : Exporter S K) (sample : Bool)
      → IsTracked x
      → IsTracked (record x { manager = sample_event x.manager sample })
  unfolding sample_event
  sample-IsTracked x sample v =
      elim (Bool-cases (sample && not (x.manager.deep_sample_rate == 100))) [
        | inl e ↦
            rw (e, sample_event)
              (record {
                falling = v.falling;
                below = v.below;
                ascending = v.ascending;
                reached = v.reached;
                status = v.status;
                shown = v.shown;
              })
        | inr e ↦ rw (e, sample_event) v
      ]

  unfoldable pub feed : Exporter S K → Feed → Exporter S K
  feed x (calls c) = record x { manager = (call x.manager c).0 }
  feed x (pushes now labels) = push x now labels

  unfoldable pub feed_all : Exporter S K → List Feed → Exporter S K
  unfolding feed
  feed_all x [] = x
  feed_all x (f ∷ fs) = feed_all (feed x f) fs

  call-IsTracked :
      (x : Exporter S K) (c : Call) → IsSteady c → IsTracked x → IsTracked (feed x (calls c))
  unfolding feed call new_event count_event set_end_tstamp close_front set_recorded_stream
      configure_groups event_in_bucket set_read_only set_bucket_recorded configure_bucket_groups
      groups_none
  call-IsTracked x (events stamp sample) s v =
      let w =
        check-IsTracked (record x { manager = sample_event x.manager sample }) stamp
          (sample-IsTracked x sample v) in
      let shifted = (check_period_shift (sample_event x.manager sample) stamp).0 in
      front-IsTracked (λ b. event_in_bucket b shifted.deep_sampling_now) (λ b. refl)
        (record x { manager = shifted }) (count_event shifted) w refl refl w.shown
  call-IsTracked x (checks stamp) s v = check-IsTracked x stamp v
  call-IsTracked x (starts stamp) s v = absurd s
  call-IsTracked x (ends stamp) s v =
      front-IsTracked (λ b. set_read_only b stamp) (λ b. refl) x _ v refl refl v.shown
  call-IsTracked x records s v =
      front-IsTracked set_bucket_recorded (λ b. refl) x _ v refl refl v.shown
  call-IsTracked x (groups gs) s v =
      front-IsTracked (λ b. configure_bucket_groups b (some gs)) (λ b. refl) x _ v refl refl s
  call-IsTracked x (draws sample) s v = sample-IsTracked x sample v
  call-IsTracked x (shifts stamp) s v = absurd s
  call-IsTracked x bumps s v =
      front-IsTracked (λ b. event_in_bucket b x.manager.deep_sampling_now) (λ b. refl) x _ v refl
        refl v.shown

  feed_all-IsTracked :
      (x : Exporter S K) (fs : List Feed) → AreSteady fs → IsTracked x → IsTracked (feed_all x fs)
  unfolding feed_all
  feed_all-IsTracked x [] s v = v
  feed_all-IsTracked x (calls c ∷ fs) s v =
      feed_all-IsTracked (feed x (calls c)) fs s.1 (call-IsTracked x c s.0 v)
  feed_all-IsTracked x (pushes now labels ∷ fs) s v =
      feed_all-IsTracked (push x now labels) fs s (push-IsTracked x now labels v)

  -- A new manager that has exported nothing.
  abbrev pub fresh_exporter : WindowConfig → Timespec → Timespec → Exporter S K
  fresh_exporter config now later = record {
    manager = construct config now later;
    last_start = none;
    scope = [];
  }

  fresh-IsTracked :
      (config : WindowConfig) (now later : Timespec)
      → later.tv_sec < now.tv_sec + 60
      → IsTracked (fresh_exporter config now later)
  unfolding construct new_bucket update_topn_metrics groups_none
  fresh-IsTracked config now later h = record {
    falling = (h, tt);
    below = tt;
    ascending = tt;
    reached = tt;
    status = (inl tt, tt);
    shown = refl;
  }

module _ (S K : Type 0) ⦃cls : BucketClass S⦄ ⦃kll : KllSketch K⦄ where
  -- From a new manager on, whatever steady calls and pushes come in whatever order: the starts of
  -- the windows that were exported ascend strictly, so none was exported twice.
  pub exports_ascend :
      (config : WindowConfig) (now later : Timespec) (fs : List Feed)
      → later.tv_sec < now.tv_sec + 60
      → AreSteady fs
      → Ascending (sent_secs (feed_all (fresh_exporter {S = S} {K = K} config now later) fs).scope)
  exports_ascend config now later fs h s =
      (feed_all-IsTracked _ fs s (fresh-IsTracked config now later h)).ascending

  -- After any such history, one more push leaves no closed window that is held unexported.
  pub push_exports_held :
      (config : WindowConfig) (now later : Timespec) (fs : List Feed) (at : Timespec)
      (labels : LabelMap)
      → later.tv_sec < now.tv_sec + 60
      → AreSteady fs
      → let x = feed_all (fresh_exporter {S = S} {K = K} config now later) fs in
        All
          (λ b. is_sent b.start_tstamp.tv_sec (sent_secs (push x at labels).scope) ≡ true)
          (drop (newest_closed x.manager.buckets) x.manager.buckets)
  push_exports_held config now later fs at labels h s =
      let v = feed_all-IsTracked _ fs s (fresh-IsTracked config now later h) in
      All-map _ _ (λ b d. d.1) _
        (push_sends-All (feed_all (fresh_exporter config now later) fs) at labels v)
