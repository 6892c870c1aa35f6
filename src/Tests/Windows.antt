-- ===== src/Tests/Windows.antt =====
-- The theorems on the windows, at a manager of three windows.
use pktvisor.Prelude.{
  ◌≤◌, ◌%◌, take, ℕ, ◌+◌, ◌≡◌, refl, ◌<◌, true, none, some, List, [], All, drop, arith,
}
use pktvisor.Metrics.Counter.{u64}
use pktvisor.Window.Bucket.{
  Bucket, set_bucket_start, configure_bucket_groups, set_read_only, event_in_bucket, new_bucket,
  update_topn_metrics,
}
use pktvisor.Window.Merge.{ok, merge_given, closed_merge, multiple_merge, into_new, into_given}
use pktvisor.Window.Merge.Laws.{Later, IsAmong, closed_merge-next, multiple_merge_exact}
use pktvisor.Window.Export.{
  next_closed_window_start, closed_oldest_first, first_after, starts_after,
}
use pktvisor.Metrics.Counter.{incr}
use pktvisor.Metrics.Rate.{cancel, add_events}
use pktvisor.Window.Manager.{
  Manager, construct, new_event, sample_event, count_event, check_period_shift, period_shift,
  next_live, close_front, pop_expired, pop_back, will_shift,
}
use pktvisor.Window.Manager.Steps.{call, run, events}
use pktvisor.Window.Manager.Invariant.{IsValid, call-IsValid, run-construct-IsValid}
use pktvisor.Window.Manager.Shift.{counted, total, number_of_events, run-total}
use pktvisor.Window.Export.{newest_closed}
use pktvisor.Window.Export.Loop.{sent_secs, is_sent, Ascending}
use pktvisor.Window.Export.Once.Push.{push}
use pktvisor.Window.Export.Once.History.{
  feed_all, fresh_exporter, exports_ascend, push_exports_held,
}
use pktvisor.Tests.Fixtures.{config, history, at_sec, three_calls, feeds, listed, merges}

abbrev start-IsValid : IsValid history.manager
unfolding run
start-IsValid = run-construct-IsValid config (at_sec 100) (at_sec 101) []

start_total : total history + number_of_events three_calls + 1 < u64
unfolding construct new_bucket update_topn_metrics
start_total = ground arith

run-total_example : total (run history three_calls) ≡ total history + number_of_events three_calls
run-total_example = run-total history three_calls start-IsValid start_total

call-IsValid_example : IsValid (call history.manager (events (at_sec 170) true)).0
call-IsValid_example = call-IsValid history.manager (events (at_sec 170) true) start-IsValid

run-construct-IsValid_example : IsValid (run history three_calls).manager
run-construct-IsValid_example = run-construct-IsValid config (at_sec 100) (at_sec 101) three_calls

exports_ascend_example : Ascending (
    sent_secs {S = ℕ} {K = List ℕ}
      (feed_all (fresh_exporter config (at_sec 100) (at_sec 101)) feeds).scope)
exports_ascend_example =
    exports_ascend ℕ (List ℕ) config (at_sec 100) (at_sec 101) feeds (ground arith)
      (tt, (tt, (tt, tt)))

push_exports_held_example :
    let x = feed_all (fresh_exporter {S = ℕ} {K = List ℕ} config (at_sec 100) (at_sec 101)) feeds in
    All
      (λ b.
        is_sent b.start_tstamp.tv_sec
          (sent_secs {S = ℕ} {K = List ℕ} (push x (at_sec 240) []).scope)
        ≡ true)
      (drop (newest_closed x.manager.buckets) x.manager.buckets)
push_exports_held_example =
    push_exports_held ℕ (List ℕ) config (at_sec 100) (at_sec 101) feeds (at_sec 240) []
      (ground arith) (tt, (tt, (tt, tt)))

-- The manager after the three calls: two closed windows behind the live one.
abbrev busy : Manager ℕ (List ℕ)
busy = (run history three_calls).manager

abbrev busy-IsValid : IsValid busy
busy-IsValid = run-construct-IsValid config (at_sec 100) (at_sec 101) three_calls

busy_next : next_closed_window_start busy none ≡ some (at_sec 101)
unfolding next_closed_window_start newest_closed closed_oldest_first first_after starts_after run
    call new_event sample_event count_event check_period_shift will_shift period_shift next_live
    close_front pop_expired pop_back construct new_bucket update_topn_metrics set_bucket_start
    configure_bucket_groups set_read_only event_in_bucket cancel add_events incr
busy_next = refl

closed_merge-next_example :
    Later none (at_sec 101)
    × ((held : Bucket ℕ (List ℕ)) × IsAmong busy.buckets held
        × (held.read_only ≡ true)
        × (held.start_tstamp ≡ at_sec 101)
        × (closed_merge busy none (at_sec 101) (at_sec 240)
            ≡ ok (merge_given none held (at_sec 240))))
closed_merge-next_example =
    closed_merge-next busy none (at_sec 101) none (at_sec 240) busy-IsValid busy_next

periods : 2 ≤ busy.num_periods
unfolding run call new_event sample_event count_event check_period_shift will_shift period_shift
    next_live close_front pop_expired pop_back construct
periods = ground arith

multiple_merge_exact_example :
    ((b : Bucket ℕ (List ℕ)) × (multiple_merge busy none 2 (at_sec 240) ≡ ok (into_new b))
      × (b.num_events.value ≡ counted (take 2 busy.buckets) % u64))
    × ((given : Bucket ℕ (List ℕ))
        → (b : Bucket ℕ (List ℕ)) × (multiple_merge busy (some given) 2 (at_sec 240)
            ≡ ok (into_given b))
          × (b.num_events.value ≡ (given.num_events.value + counted (take 2 busy.buckets)) % u64))
multiple_merge_exact_example = multiple_merge_exact busy 2 (at_sec 240) (omega arith) periods
