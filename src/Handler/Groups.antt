-- ===== src/Handler/Groups.antt =====
-- src/StreamHandler.h: `process_groups`, `_process_group` and `validate_configs`.
use Prim.Native.String.{String}
use text.Mathlib.Text.{◌==◌ as str_eq}
use pktvisor.Prelude.{
  ℕ, zero, suc, ◌<◌, ◌≡◌, refl, Bool, true, false, ◌||◌, Option, none, some, List, [], ◌∷◌, arith,
  Bool-cases, Option-cases, inl, inr, if◌then◌else◌, ltb, ◌==◌, length,
}

-- GROUP_SIZE
abbrev pub group_size : ℕ
group_size = 64

-- Every bit `true`, or every bit `false`, in a set of the same size.
unfoldable pub fill : Bool → List Bool → List Bool
fill v [] = []
fill v (b ∷ bs) = v ∷ fill v bs

-- `set(pos)` and `reset(pos)`
unfoldable pub write_bit : List Bool → ℕ → Bool → List Bool
write_bit [] i v = []
write_bit (b ∷ bs) zero v = v ∷ bs
write_bit (b ∷ bs) (suc i) v = b ∷ write_bit bs i v

-- A name that is no group; and the `std::out_of_range` of a bit set.
pub data GroupError : Type 0 where
  invalid_group : String → GroupError
  out_of_range : GroupError

abbrev pub GroupDefs : Type 0
GroupDefs = List (String × ℕ)

unfoldable pub process_group : GroupDefs → String → Option ℕ
process_group [] group = none
process_group ((name, g) ∷ defs) group =
    if str_eq name group then some g else process_group defs group

-- A group's bit is written, or an exception leaves the loop.
unfoldable pub write_group : List Bool → Option ℕ → String → Bool → List Bool × Option GroupError
write_group bits none group v = (bits, some (invalid_group group))
write_group bits (some g) group v =
    if ltb g (length bits) then (write_bit bits g v, none) else (bits, some out_of_range)

-- One of the two loops: over `disable` with `v` false, over `enable` with `v` true. The bits stay
-- as an exception leaves them.
unfoldable pub process_list :
    GroupDefs → Bool → List String → List Bool → List Bool × Option GroupError
unfolding fill write_group process_group
process_list defs v [] bits = (bits, none)
process_list defs v (group ∷ rest) bits =
    if str_eq group "all"
    then (fill v bits, none)
    else let (bits', e) = write_group bits (process_group defs group) group v in
      elim e [ none ↦ process_list defs v rest bits' | some x ↦ (bits', some x) ]

-- The values of the keys `disable` and `enable`, where they are configured.
abbrev or_empty : Option (List String) → List String
or_empty none = []
or_empty (some names) = names

unfoldable pub process_groups :
    GroupDefs
    → Option (List String)
    → Option (List String)
    → List Bool
    → List Bool × Option GroupError
process_groups defs disable enable bits =
    let (bits', e) = process_list defs false (or_empty disable) bits in
    elim e [ none ↦ process_list defs true (or_empty enable) bits' | some x ↦ (bits', some x) ]

-- The bit at an index, false beyond the size.
abbrev pub bit : List Bool → ℕ → Bool
bit [] i = false
bit (b ∷ bs) zero = b
bit (b ∷ bs) (suc i) = bit bs i

abbrev is_index : Option ℕ → ℕ → Bool
is_index none i = false
is_index (some g) i = g == i

-- Whether a list of group names covers the group with index `i`, by its name or by "all".
abbrev pub mentions : GroupDefs → List String → ℕ → Bool
mentions defs [] i = false
mentions defs (group ∷ rest) i =
    str_eq group "all" || (is_index (process_group defs group) i || mentions defs rest i)

bit-fill : (v : Bool) (bits : List Bool) (i : ℕ) → i < length bits → bit (fill v bits) i ≡ v
unfolding fill
bit-fill v [] i h = absurd (omega arith)
bit-fill v (b ∷ bs) zero h = refl
bit-fill v (b ∷ bs) (suc i) h = bit-fill v bs i (omega arith)

length-write_bit : (bits : List Bool) (g : ℕ) (v : Bool) → length (write_bit bits g v) ≡ length bits
unfolding write_bit
length-write_bit [] g v = refl
length-write_bit (b ∷ bs) zero v = refl
length-write_bit (b ∷ bs) (suc g) v = omega (arith, length-write_bit bs g v)

length-fill : (v : Bool) (bits : List Bool) → length (fill v bits) ≡ length bits
unfolding fill
length-fill v [] = refl
length-fill v (b ∷ bs) = omega (arith, length-fill v bs)

bit-write_bit :
    (bits : List Bool) (g : ℕ) (v : Bool) (i : ℕ)
    → g < length bits
    → bit (write_bit bits g v) i ≡ (if g == i then v else bit bits i)
unfolding write_bit
bit-write_bit [] g v i h = absurd (omega arith)
bit-write_bit (b ∷ bs) zero v zero h = refl
bit-write_bit (b ∷ bs) zero v (suc i) h = ground arith
bit-write_bit (b ∷ bs) (suc g) v zero h = ground arith
bit-write_bit (b ∷ bs) (suc g) v (suc i) h = ground (arith, bit-write_bit bs g v i)

-- What one name writes, where it throws nothing.
bit-write_group :
    (bits : List Bool) (o : Option ℕ) (group : String) (v : Bool) (i : ℕ)
    → (write_group bits o group v).1 ≡ none
    → (bit (write_group bits o group v).0 i ≡ (if is_index o i then v else bit bits i))
      × (length (write_group bits o group v).0 ≡ length bits)
unfolding write_group
bit-write_group bits none group v i h = absurd (cc)
bit-write_group bits (some g) group v i h =
    (ground (arith, bit-write_bit bits g v i), ground (arith, length-write_bit bits g v))

process_list_lem :
    (defs : GroupDefs) (v : Bool) (names : List String) (bits : List Bool) (i : ℕ)
    → i < length bits
    → (process_list defs v names bits).1 ≡ none
    → (bit (process_list defs v names bits).0 i ≡ (if mentions defs names i then v else bit bits i))
      × (length (process_list defs v names bits).0 ≡ length bits)
unfolding process_list
process_list_lem defs v [] bits i h e = (refl, refl)
process_list_lem defs v (group ∷ rest) bits i h e = elim (Bool-cases (str_eq group "all")) [
  | inl all ↦
      (rw (all, process_list) (bit-fill v bits i h), rw (all, process_list) (length-fill v bits))
  | inr named ↦ elim (Option-cases (write_group bits (process_group defs group) group v).1) [
    | inr (x, bad) ↦ absurd (cc (rw (named, bad, process_list) at e))
    | inl fine ↦
        let one = bit-write_group bits (process_group defs group) group v i fine in
        let bits' = (write_group bits (process_group defs group) group v).0 in
        let more =
          process_list_lem defs v rest bits' i (omega arith)
            (rw (named, fine, process_list) at e) in
        (
          rw (named, fine, process_list) (ground (arith, one.0, more.0)),
          rw (named, fine, process_list) (omega (arith, one.1, more.1)),
        )
  ]
]

-- When neither list names an unknown group, a group ends enabled if `enable` covers it, otherwise
-- disabled if `disable` covers it, and otherwise as it was: `enable` wins whatever the order.
pub process_groups_bits :
    (defs : GroupDefs) (disable enable : Option (List String)) (bits : List Bool) (i : ℕ)
    → i < length bits
    → (process_groups defs disable enable bits).1 ≡ none
    → bit (process_groups defs disable enable bits).0 i ≡ (
        if mentions defs (or_empty enable) i
        then true
        else if mentions defs (or_empty disable) i
        then false
        else bit bits i)
unfolding process_groups
process_groups_bits defs disable enable bits i h e =
    elim (Option-cases (process_list defs false (or_empty disable) bits).1) [
      | inr (x, bad) ↦ absurd (cc (rw (bad, process_groups) at e))
      | inl fine ↦
          let one = process_list_lem defs false (or_empty disable) bits i h fine in
          let bits' = (process_list defs false (or_empty disable) bits).0 in
          let more =
            process_list_lem defs true (or_empty enable) bits' i (omega arith)
              (rw (fine, process_groups) at e) in
          rw (fine, process_groups) (ground (arith, one.0, more.0))
    ]
