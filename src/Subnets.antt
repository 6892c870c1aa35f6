-- ===== src/Subnets.antt =====
-- libs/visor_utils/utils.cpp: matching an address with subnets, and prefix lengths. An IPv6
-- address is the list of its 16 bytes; an IPv4 address is the 32-bit number that the host reads its
-- four bytes as, little end first. The recognition of an address in a text, of pcapplusplus, is a
-- parameter.
pub mod Prefix
pub mod Length
use Prim.Native.Nat.{bit_and, bit_xor}
use pktvisor.Prelude.{
  ℕ, zero, suc, ◌+◌, ◌-◌, ◌*◌, ◌/◌, ◌%◌, ◌^◌, Bool, true, false, ◌&&◌, ◌||◌, not, Option, none,
  some, List, [], ◌∷◌, if◌then◌else◌, ltb, ◌==◌, length, take,
}
use pktvisor.Metrics.Utf8.{Bytes}
use pktvisor.Serializer.{same_bytes}

pub record Subnet4 : Type 0 where
  pub addr4 : ℕ
  pub cidr4 : ℕ

pub record Subnet6 : Type 0 where
  pub addr6 : Bytes
  pub cidr6 : ℕ

-- `IPv4Address` and `IPv6Address` of a text, where it is one.
pub record Addresses : Type 0 where
  pub ipv4 : Bytes → Option ℕ
  pub ipv6 : Bytes → Option Bytes

abbrev pub byte_at : Bytes → ℕ → ℕ
byte_at [] i = 0
byte_at (b ∷ bs) zero = b
byte_at (b ∷ bs) (suc i) = byte_at bs i

-- `htobe32` on a host that puts the little end first
unfoldable pub htobe32 : ℕ → ℕ
htobe32 x = x % 256 * 16777216 + x / 256 % 256 * 65536 + x / 65536 % 256 * 256 + x / 16777216 % 256

-- `get_subnet` of an IPv4 address, for a prefix that is not empty.
unfoldable pub get_subnet4 : ℕ → ℕ → ℕ
unfolding htobe32
get_subnet4 addr cidr = bit_and addr (htobe32 (0xFFFFFFFF * 2 ^ (32 - cidr) % 2 ^ 32))

-- `match_subnet` of IPv4 subnets. A list that is empty gives none by the loop too.
unfoldable pub search4 : List Subnet4 → ℕ → Option Subnet4
unfolding get_subnet4
search4 [] ip = none
search4 (s ∷ ss) ip =
    let rest = search4 ss ip in
    if s.cidr4 == 0
    then some s
    else if get_subnet4 (bit_xor ip s.addr4) s.cidr4 == 0
    then some s
    else rest

unfoldable pub match_subnet4 : List Subnet4 → ℕ → Option Subnet4
unfolding search4
match_subnet4 subnets ip = if ip == 0 then none else search4 subnets ip

-- The two comparisons of a round: of whole bytes, and of the bits of the byte behind them.
unfoldable pub whole_bytes : Bytes → Bytes → ℕ → Bool
whole_bytes network ip count = ltb 0 count && same_bytes (take count network) (take count ip)

unfoldable pub matches6 : Bytes → Bytes → ℕ → Bool
unfolding whole_bytes
matches6 network ip cidr =
    let result = whole_bytes network ip (cidr / 8) in
    let scale = 2 ^ (8 - cidr % 8) in
    if (result || ltb cidr 8) && ltb 0 (cidr % 8)
    then byte_at network (cidr / 8) / scale == byte_at ip (cidr / 8) / scale
    else result

-- `match_subnet` of IPv6 subnets, for an address that is there.
unfoldable pub match_subnet6 : List Subnet6 → Bytes → Option Subnet6
unfolding matches6
match_subnet6 [] ip = none
match_subnet6 (s ∷ ss) ip =
    let rest = match_subnet6 ss ip in if matches6 s.addr6 ip s.cidr6 then some s else rest

abbrev pub is_some : {A : Type 0} → Option A → Bool
is_some none = false
is_some (some x) = true

unfoldable pub match_subnet : Addresses → List Subnet4 → List Subnet6 → Bytes → Bool
unfolding match_subnet4 match_subnet6
match_subnet addresses subnets4 subnets6 text = elim (addresses.ipv4 text) [
  | some ip ↦ is_some (match_subnet4 subnets4 ip)
  | none ↦ elim (addresses.ipv6 text) [
    | some ip ↦ is_some (match_subnet6 subnets6 ip)
    | none ↦ false
  ]
]

-- `get_cidr`: the loop ends after as many rounds as the mask has bits, 32 at most.
unfoldable pub count_bits : ℕ → ℕ → ℕ
count_bits zero mask = 0
count_bits (suc fuel) mask =
    let rest = count_bits fuel (mask / 2) in if mask == 0 then 0 else suc rest

unfoldable pub get_cidr4 : ℕ → ℕ
unfolding count_bits
get_cidr4 mask = count_bits 32 mask

-- `get_cidr` of the bytes of an address, which its loops leave at zero; of 8 bits each.
unfoldable pub get_cidr6 : Bytes → ℕ
unfolding count_bits
get_cidr6 [] = 0
get_cidr6 (b ∷ bs) = count_bits 8 b + get_cidr6 bs

-- `reverse_bits`, for up to 8 bits
unfoldable pub reverse_bits : ℕ → ℕ
reverse_bits n = 256 - 2 ^ (8 - n)

-- `get_subnet` of an IPv6 address: the loop over `b`, from the index on.
unfoldable pub mask_from : ℕ → ℕ → ℕ → Bytes → Bytes
unfolding reverse_bits
mask_from i byte_count bit_count [] = []
mask_from i byte_count bit_count (b ∷ bs) =
    let rest = mask_from (suc i) byte_count bit_count bs in
    (if ltb byte_count i
      then 0
      else if i == byte_count && ltb 0 bit_count
      then bit_and b (reverse_bits bit_count)
      else if i == byte_count
      then 0
      else b)
    ∷ rest

unfoldable pub get_subnet6 : Bytes → ℕ → Bytes
unfolding mask_from
get_subnet6 addr cidr = mask_from 0 (cidr / 8) (cidr % 8) addr
