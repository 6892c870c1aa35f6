-- ===== src/Metrics/Counter.antt =====
-- src/Metrics.h: `timespec`, the `Aggregate` operators and the class `Counter`.
use pktvisor.Prelude.{ℕ, ◌+◌, ◌*◌, ◌%◌, ◌^◌}

-- Seconds since the epoch and nanoseconds, both non-negative.
pub record Timespec : Type 0 where
  pub tv_sec : ℕ
  pub tv_nsec : ℕ

abbrev pub epoch : Timespec
epoch = record { tv_sec = 0; tv_nsec = 0 }

abbrev pub u64 : ℕ
u64 = 2 ^ 64

abbrev pub u32 : ℕ
u32 = 2 ^ 32

unfoldable pub timespec_to_uint64 : Timespec → ℕ
timespec_to_uint64 stamp = (stamp.tv_sec * 1000000000 + stamp.tv_nsec) % u64

pub data Aggregate : Type 0 where
  default sum : Aggregate

pub record Counter : Type 0 where
  pub value : ℕ

abbrev pub zero_counter : Counter
zero_counter = record { value = 0 }

unfoldable pub incr : Counter → Counter
incr c = record { value = (c.value + 1) % u64 }

unfoldable pub add_value : Counter → ℕ → Counter
add_value c i = record { value = (c.value + i) % u64 }

unfoldable pub add_counter : Counter → Counter → Counter
add_counter c other = record { value = (c.value + other.value) % u64 }

unfoldable pub clear : Counter → Counter
clear c = record { value = 0 }
