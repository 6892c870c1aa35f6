-- ===== src/Tests/Stores.antt =====
-- The theorems on transactions, modules and ports, at small stores.
use pktvisor.Prelude.{
  ◌+◌, ◌<◌, ◌≤◌, ℕ, ◌≡◌, refl, ◌-◌, ◌*◌, inr, none, List, [], ◌∷◌, if◌then◌else◌, leb, arith, find,
  nat_key,
}
use pktvisor.Metrics.Counter.{Timespec}
use pktvisor.Transactions.{
  Transaction, TransactionManager, lasts, not_exist, timed_out, valid, new_manager, timespec_diff,
  judge, is_old, start_transaction, maybe_end_transaction, purge_old_transactions,
}
use pktvisor.Transactions.Timing.{Lasts, nanoseconds, judge_exact}
use pktvisor.Transactions.Pairing.{
  XactCall, begins, answers, purges, xact_run, answered_once, maybe_end-purge,
}
use pktvisor.Modules.Store.{ModuleCall, adds, removes, module_run, owner, find-module_run}
use pktvisor.Ports.{Numbers, get_service}
use pktvisor.Ports.Ranges.{Range, insert_all, range_name, get_service-insert_all}
use pktvisor.Tests.Fixtures.{at_sec}

abbrev query : Transaction ℕ
query = record {
  start_ts = record { tv_sec = 10; tv_nsec = 900 };
  total_ts = lasts (at_sec 0);
  carries = 7;
}

abbrev answer : Timespec
answer = record { tv_sec = 15; tv_nsec = 899 }

judge_exact_example :
    let m : TransactionManager ℕ ℕ = new_manager 5000 in
    let total = timespec_diff answer query.start_ts in
    let elapsed = nanoseconds answer - nanoseconds query.start_ts in
    Lasts total elapsed
    × (judge m query answer ≡ (
        if leb (5000 * 1000000) elapsed
        then timed_out (record query { total_ts = total })
        else valid (record query { total_ts = total })))
judge_exact_example = judge_exact ℕ ℕ 5000 query answer (ground arith) (ground arith) (ground arith)

abbrev manager : TransactionManager ℕ ℕ
manager = record { ttl_secs = 5; ttl_ms = 0; transactions = (3, query) ∷ [] }

abbrev calls : List (XactCall ℕ ℕ)
calls = begins 4 query ∷ answers 3 (at_sec 12) ∷ purges (at_sec 14) ∷ []

answered_once_example :
    let r = maybe_end_transaction (xact_run (start_transaction manager 5 query) calls) 5 answer in
    (r.1 ≡ judge manager query answer) × ((maybe_end_transaction r.0 5 (at_sec 16)).1 ≡ not_exist)
unfolding find is_old
answered_once_example =
    answered_once manager 5 query calls answer (at_sec 16) (refl, tt) (refl, (refl, (refl, tt)))

maybe_end-purge_example :
    let r = maybe_end_transaction (purge_old_transactions manager (at_sec 15)).0 3 (at_sec 16) in
    (query.start_ts.tv_sec + manager.ttl_secs ≤ 15 → r.1 ≡ not_exist)
    × (15 < query.start_ts.tv_sec + manager.ttl_secs
        → (r.1 ≡ judge manager query (at_sec 16))
          × (r.1 ≡ (maybe_end_transaction manager 3 (at_sec 16)).1))
unfolding find
maybe_end-purge_example = maybe_end-purge manager (at_sec 15) 3 query (at_sec 16) (refl, tt) refl

abbrev itself : ℕ → ℕ
itself n = n

abbrev module_calls : List (ModuleCall ℕ ℕ)
module_calls = adds 1 ∷ adds 2 ∷ removes 1 ∷ adds 1 ∷ removes 5 ∷ []

find-module_run_example :
    find 1 (module_run itself [] module_calls) ≡ owner itself 1 none module_calls
unfolding find
find-module_run_example = find-module_run itself 1 [] module_calls

abbrev numbers : Numbers
numbers = record { stoul = λ text. none; to_string = λ port. port ∷ [] }

abbrev ranges : List Range
ranges =
    (20, record { name = 1 ∷ []; lower_bound = 10 })
    ∷ (5, record { name = 2 ∷ []; lower_bound = 5 })
    ∷ []

get_service-insert_all_example :
    get_service numbers (insert_all ranges) 15 ≡ range_name numbers ranges 15
get_service-insert_all_example =
    get_service-insert_all numbers ranges 15
      (ground arith, (inr (ground arith), tt), (ground arith, tt, tt))
