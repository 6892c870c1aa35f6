-- ===== src/Transactions.antt =====
-- libs/visor_transaction/TransactionManager.h: `timespec_diff` and the class `TransactionManager`,
-- which pairs a query with its answer. The identifiers and what a transaction carries besides its
-- start are template parameters. The seconds that `timespec_diff` returns can be -1.
pub mod Timing
pub mod Pairing
use pktvisor.Prelude.{
  ℕ, zero, suc, ◌+◌, ◌-◌, ◌*◌, ◌/◌, ◌^◌, Bool, true, false, ◌&&◌, Option, none, some, List, [], ◌∷◌,
  if◌then◌else◌, ltb, leb, ◌==◌, length, Key, find, erase, put,
}
use pktvisor.Metrics.Counter.{Timespec, epoch}

-- `totalTS`: non-negative seconds with nanoseconds, or -1 seconds with nanoseconds.
pub data Total : Type 0 where
  lasts : Timespec → Total
  minus_one : ℕ → Total

-- The borrow of a second, where the nanoseconds were below zero.
unfoldable pub borrow : ℕ → ℕ → Total
borrow zero nsec = minus_one nsec
borrow (suc sec) nsec = lasts (record { tv_sec = sec; tv_nsec = nsec })

unfoldable pub timespec_diff : Timespec → Timespec → Total
unfolding borrow
timespec_diff a b =
    let sec : ℕ = if ltb b.tv_sec a.tv_sec then a.tv_sec - b.tv_sec else b.tv_sec - a.tv_sec in
    if ltb a.tv_nsec b.tv_nsec
    then borrow sec (a.tv_nsec + 1000000000 - b.tv_nsec)
    else lasts (record { tv_sec = sec; tv_nsec = a.tv_nsec - b.tv_nsec })

pub record Transaction (T : Type 0) : Type 0 where
  pub start_ts : Timespec
  pub total_ts : Total
  pub carries : T

pub data Result (T : Type 0) : Type 0 where
  not_exist : Result T
  timed_out valid : Transaction T → Result T

pub record TransactionManager (I T : Type 0) : Type 0 where
  pub ttl_secs : ℕ
  pub ttl_ms : ℕ
  pub transactions : List (I × Transaction T)

-- The constructor.
unfoldable pub new_manager : {I T : Type 0} → ℕ → TransactionManager I T
new_manager ms =
    if ltb 1000 ms
    then record { ttl_secs = ms / 1000; ttl_ms = ms - ms / 1000 * 1000; transactions = [] }
    else record { ttl_secs = 0; ttl_ms = ms; transactions = [] }

-- Whether a total is at or past the time to live. The division of nanoseconds by 1.0e6 reaches the
-- milliseconds exactly when the nanoseconds reach their multiple.
unfoldable pub is_timed_out : ℕ → ℕ → Total → Bool
is_timed_out secs ms (minus_one nsec) = false
is_timed_out secs ms (lasts total) =
    if ltb secs total.tv_sec then true else total.tv_sec == secs && leb (ms * 1000000) total.tv_nsec

module _ {I T : Type 0} where
  unfoldable pub judge : TransactionManager I T → Transaction T → Timespec → Result T
  judge m t end_ts =
      let total = timespec_diff end_ts t.start_ts in
      let result : Transaction T = record t { total_ts = total } in
      if is_timed_out m.ttl_secs m.ttl_ms total then timed_out result else valid result

  unfoldable pub is_old : TransactionManager I T → Timespec → Transaction T → Bool
  is_old m now t = leb (m.ttl_secs + t.start_ts.tv_sec) now.tv_sec

module _ {I T : Type 0} ⦃key : Key I⦄ where
  unfoldable pub start_transaction :
      TransactionManager I T → I → Transaction T → TransactionManager I T
  start_transaction m id type = record m { transactions = put id type m.transactions }

  unfoldable pub maybe_end_transaction :
      TransactionManager I T → I → Timespec → TransactionManager I T × Result T
  unfolding judge
  maybe_end_transaction m id end_ts = elim (find id m.transactions) [
    | none ↦ (m, not_exist)
    | some t ↦ (record m { transactions = erase id m.transactions }, judge m t end_ts)
  ]

  -- The identifiers that `purge_old_transactions` collects, and its second loop.
  unfoldable pub old_ids : TransactionManager I T → Timespec → List (I × Transaction T) → List I
  unfolding is_old
  old_ids m now [] = []
  old_ids m now ((id, t) ∷ ts) =
      let rest = old_ids m now ts in if is_old m now t then id ∷ rest else rest

  unfoldable pub erase_all : List I → List (I × Transaction T) → List (I × Transaction T)
  erase_all [] ts = ts
  erase_all (id ∷ ids) ts = erase_all ids (erase id ts)

  unfoldable pub purge_old_transactions :
      TransactionManager I T → Timespec → TransactionManager I T × ℕ
  unfolding old_ids erase_all
  purge_old_transactions m now =
      let ids = old_ids m now m.transactions in
      (record m { transactions = erase_all ids m.transactions }, length ids)

  unfoldable pub clear : TransactionManager I T → TransactionManager I T
  clear m = record m { transactions = [] }

  unfoldable pub open_transaction_count : TransactionManager I T → ℕ
  open_transaction_count m = length m.transactions
