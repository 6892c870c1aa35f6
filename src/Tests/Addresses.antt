-- ===== src/Tests/Addresses.antt =====
-- The theorems on subnets, at a network of 13 bits.
use pktvisor.Prelude.{◌≡◌, refl, ◌≤◌, ◌/◌, ◌%◌, false, [], ◌∷◌, arith}
use pktvisor.Metrics.Utf8.{Bytes}
use pktvisor.Metrics.Utf8.Valid.{IsBytes}
use pktvisor.Subnets.{matches6, get_cidr4}
use pktvisor.Subnets.Prefix.{leading, matches6-leading}
use pktvisor.Subnets.Length.{IsLength, get_cidr4-IsLength}

abbrev eight : Bytes
eight = 1 ∷ 2 ∷ 3 ∷ 4 ∷ 5 ∷ 6 ∷ 7 ∷ 8 ∷ []

abbrev network : Bytes
network = 32 ∷ 24 ∷ 3 ∷ 4 ∷ 5 ∷ 6 ∷ 7 ∷ 8 ∷ eight

abbrev address : Bytes
address = 32 ∷ 29 ∷ 3 ∷ 4 ∷ 5 ∷ 6 ∷ 7 ∷ 9 ∷ eight

network-IsBytes : IsBytes network
network-IsBytes = ground arith

address-IsBytes : IsBytes address
address-IsBytes = ground arith

matches6-leading_example :
    (1 ≤ 13 → matches6 network address 13 ≡ leading (13 / 8) (13 % 8) network address)
    × (matches6 network address 0 ≡ false)
matches6-leading_example =
    matches6-leading network address 13 network-IsBytes address-IsBytes refl refl (ground arith)

get_cidr4-IsLength_example : IsLength (get_cidr4 255) 255
get_cidr4-IsLength_example = get_cidr4-IsLength 255 (ground arith)
