-- ===== src/Subnets/Length.antt =====
-- `get_cidr` of libs/visor_utils/utils.cpp gives the number of bits of a mask.
use pktvisor.Prelude.{ℕ, zero, suc, ◌/◌, ◌^◌, ◌≤◌, ◌<◌, ◌≡◌, inl, inr, Bool-cases, arith, ◌==◌}
use pktvisor.Subnets.{count_bits, get_cidr4}

-- The number of bits of `n`: a power of two that is above it, while half of that is not.
abbrev pub IsLength : ℕ → ℕ → Type 0
IsLength zero n = n ≡ 0
IsLength (suc k) n = (2 ^ k ≤ n) × (n < 2 ^ suc k)

IsLength-half : (c n : ℕ) → 0 < n → IsLength c (n / 2) → IsLength (suc c) n
IsLength-half zero n h v = (omega arith, omega arith)
IsLength-half (suc k) n h v = (omega (arith, v.0), omega (arith, v.1))

count_bits-IsLength : (fuel n : ℕ) → n < 2 ^ fuel → IsLength (count_bits fuel n) n
unfolding count_bits
count_bits-IsLength zero n h = omega arith
count_bits-IsLength (suc fuel) n h = elim (Bool-cases (n == 0)) [
  | inl t ↦ rw t (ground arith)
  | inr f ↦ rw f (IsLength-half _ n (ground arith) (count_bits-IsLength fuel (n / 2) (omega arith)))
]

-- The prefix length of a 32-bit mask is its number of bits, so that the loop ends within the 32
-- rounds and counts those that it took.
pub get_cidr4-IsLength : (mask : ℕ) → mask < 2 ^ 32 → IsLength (get_cidr4 mask) mask
unfolding get_cidr4
get_cidr4-IsLength mask h = count_bits-IsLength 32 mask h
