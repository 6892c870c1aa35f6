-- ===== src/Domains.antt =====
-- libs/visor_dns/dns.cpp: `aggregateDomain`, and `match_public_suffix` of
-- libs/visor_dns/PublicSuffixList.h over its table, which is an argument. A view of the domain
-- that `remove_prefix` cuts is the suffix of its bytes.
pub mod Aggregate
use pktvisor.Prelude.{
  ℕ, zero, suc, ◌+◌, ◌-◌, Bool, true, false, ◌&&◌, Option, none, some, List, [], ◌∷◌, if◌then◌else◌,
  ltb, leb, ◌==◌, length, take, drop, find,
}
use pktvisor.Metrics.Utf8.{Bytes}
use pktvisor.Serializer.{same_bytes, bytes_key}

abbrev pub dot : ℕ
dot = 46

abbrev pub next_index : Option ℕ → Bool → Option ℕ
next_index (some i) here = some (suc i)
next_index none true = some 0
next_index none false = none

-- The index of the last dot.
unfoldable pub last_dot : Bytes → Option ℕ
last_dot [] = none
last_dot (c ∷ cs) = next_index (last_dot cs) (c == dot)

-- `rfind('.', pos)`; no position is `npos`.
unfoldable pub rfind : Bytes → Option ℕ → Option ℕ
unfolding last_dot
rfind domain none = last_dot domain
rfind domain (some pos) = last_dot (take (suc pos) domain)

-- `back() == '.'`
unfoldable pub ends_with_dot : Bytes → Bool
ends_with_dot [] = false
ends_with_dot (c ∷ []) = c == dot
ends_with_dot (c ∷ d ∷ cs) = ends_with_dot (d ∷ cs)

unfoldable pub end_dot : Bytes → ℕ → Option ℕ
unfolding ends_with_dot
end_dot domain suffix_size =
    if ltb 0 suffix_size && ltb suffix_size (length domain)
    then some (length domain - suffix_size)
    else if ends_with_dot domain
    then some (length domain - 2)
    else none

-- The part under `second_dot != npos`, and the search for the third dot.
unfoldable pub third : Bytes → ℕ → Bytes
unfolding rfind
third domain zero = domain
third domain (suc before) = elim (rfind domain (some before)) [
  | none ↦ domain
  | some third_dot ↦ drop third_dot domain
]

-- The part under `first_dot != npos`.
unfoldable pub second : Bytes → ℕ → Bytes × Bytes
unfolding rfind third
second domain zero = (domain, domain)
second domain (suc before) = elim (rfind domain (some before)) [
  | none ↦ (domain, [])
  | some second_dot ↦ (drop second_dot domain, third domain second_dot)
]

unfoldable pub aggregate_domain : Bytes → ℕ → Bytes × Bytes
unfolding rfind end_dot second
aggregate_domain domain suffix_size =
    if ltb (length domain) 5
    then (domain, [])
    else elim (rfind domain (end_dot domain suffix_size)) [
      | none ↦ (domain, domain)
      | some first_dot ↦ second domain first_dot
    ]

unfoldable pub ends_with : Bytes → Bytes → Bool
ends_with str suffix =
    leb (length suffix) (length str) && same_bytes (drop (length str - length suffix) str) suffix

-- `ICANN_DOMAINS`: the suffixes below each top-level domain
abbrev pub Table : Type 0
Table = List (Bytes × List Bytes)

unfoldable pub match_listed : Bytes → Bytes → List Bytes → ℕ
unfolding ends_with
match_listed str tld [] = length tld + 1
match_listed str tld (s ∷ ss) =
    let rest = match_listed str tld ss in if ends_with str s then length s + 1 else rest

unfoldable pub match_public_suffix : Table → Bytes → ℕ
unfolding last_dot match_listed
match_public_suffix table str = elim (last_dot str) [
  | none ↦ 0
  | some pos ↦ if pos + 1 == length str then 0 else elim (find (drop (pos + 1) str) table) [
    | none ↦ 0
    | some subs ↦ match_listed str (drop (pos + 1) str) subs
  ]
]
