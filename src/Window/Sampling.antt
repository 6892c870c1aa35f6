-- ===== src/Window/Sampling.antt =====
-- src/AbstractMetricsManager.h: the generator `splitmix64` behind deep sampling.
use Prim.Native.Nat.{bit_xor}
use pktvisor.Prelude.{ℕ, ◌+◌, ◌*◌, ◌/◌, ◌%◌, ◌^◌}
use pktvisor.Metrics.Counter.{u64}

abbrev pub golden_gamma : ℕ
golden_gamma = 0x9e3779b97f4a7c15

-- `operator()`: the new state and the number drawn.
unfoldable pub splitmix64 : ℕ → ℕ × ℕ
splitmix64 state =
    let state' = (state + golden_gamma) % u64 in
    let z1 = bit_xor state' (state' / 2 ^ 30) * 0xbf58476d1ce4e5b9 % u64 in
    let z2 = bit_xor z1 (z1 / 2 ^ 27) * 0x94d049bb133111eb % u64 in
    (state', bit_xor z2 (z2 / 2 ^ 31))
