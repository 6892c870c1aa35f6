-- ===== src/Transactions/Timing.antt =====
-- When the transactions of libs/visor_transaction/TransactionManager.h time out.
use pktvisor.Prelude.{
  ℕ, zero, suc, ◌+◌, ◌-◌, ◌*◌, ◌≤◌, ◌<◌, ◌≡◌, refl, inl, inr, arith, Bool-cases, if◌then◌else◌, ltb,
  leb,
}
use pktvisor.Metrics.Counter.{Timespec}
use pktvisor.Transactions.{
  Total, lasts, minus_one, borrow, timespec_diff, Transaction, timed_out, valid, TransactionManager,
  new_manager, is_timed_out, judge,
}

-- A time stamp in nanoseconds.
abbrev pub nanoseconds : Timespec → ℕ
nanoseconds t = t.tv_sec * 1000000000 + t.tv_nsec

pub record IsSplit (ms secs rest : ℕ) : Type 0 where
  pub whole : secs * 1000 + rest ≡ ms
  pub small : rest ≤ 1000

ttl-IsSplit :
    (I T : Type 0) (ms : ℕ)
    → let m : TransactionManager I T = new_manager ms in IsSplit ms m.ttl_secs m.ttl_ms
unfolding new_manager
ttl-IsSplit I T ms = elim (Bool-cases (ltb 1000 ms)) [
  | inl t ↦ rw t (record { whole = omega arith; small = omega arith })
  | inr f ↦ rw f (record { whole = omega arith; small = ground arith })
]

-- A total, as a number of nanoseconds.
abbrev pub Lasts : Total → ℕ → Type 0
Lasts (lasts t) n = (nanoseconds t ≡ n) × (t.tv_nsec < 1000000000)
Lasts (minus_one k) n = ⊥

borrow-Lasts :
    (sec nsec n : ℕ)
    → sec * 1000000000 + nsec ≡ n + 1000000000
    → nsec < 1000000000
    → Lasts (borrow sec nsec) n
unfolding borrow
borrow-Lasts zero nsec n e h = absurd (omega arith)
borrow-Lasts (suc sec) nsec n e h = (omega arith, h)

-- Of two time stamps in order, the difference is the time between them.
diff-Lasts :
    (a b : Timespec)
    → a.tv_nsec < 1000000000
    → b.tv_nsec < 1000000000
    → nanoseconds b ≤ nanoseconds a
    → Lasts (timespec_diff a b) (nanoseconds a - nanoseconds b)
unfolding timespec_diff
diff-Lasts a b ha hb h = elim (Bool-cases (ltb a.tv_nsec b.tv_nsec)) [
  | inl t ↦ elim (Bool-cases (ltb b.tv_sec a.tv_sec)) [
    | inl u ↦ rw (t, u) (borrow-Lasts _ _ _ ground arith ground arith)
    | inr u ↦ absurd ground arith
  ]
  | inr f ↦ elim (Bool-cases (ltb b.tv_sec a.tv_sec)) [
    | inl u ↦ rw (f, u) (ground arith, ground arith)
    | inr u ↦ rw (f, u) (ground arith, ground arith)
  ]
]

is_timed_out_iff :
    (ms secs rest n : ℕ) (t : Total)
    → IsSplit ms secs rest
    → Lasts t n
    → is_timed_out secs rest t ≡ leb (ms * 1000000) n
unfolding is_timed_out
is_timed_out_iff ms secs rest n (minus_one k) v h = absurd h
is_timed_out_iff ms secs rest n (lasts t) v h = ground (arith, v.whole, v.small)

-- Of an answer that does not come before its query, the total is the time between them, in
-- nanoseconds, and the transaction timed out exactly when that reaches the time to live, given in
-- milliseconds: the split into seconds and milliseconds and the borrow lose nothing.
pub judge_exact :
    (I T : Type 0) (ms : ℕ) (t : Transaction T) (end_ts : Timespec)
    → t.start_ts.tv_nsec < 1000000000
    → end_ts.tv_nsec < 1000000000
    → nanoseconds t.start_ts ≤ nanoseconds end_ts
    → let m : TransactionManager I T = new_manager ms in
      let total = timespec_diff end_ts t.start_ts in
      let elapsed = nanoseconds end_ts - nanoseconds t.start_ts in
      Lasts total elapsed
      × (judge m t end_ts ≡ (
          if leb (ms * 1000000) elapsed
          then timed_out (record t { total_ts = total })
          else valid (record t { total_ts = total })))
unfolding judge
judge_exact I T ms t end_ts hs he h =
    let d = diff-Lasts end_ts t.start_ts he hs h in
    (d, rw (is_timed_out_iff ms _ _ _ _ (ttl-IsSplit I T ms) d) refl)
