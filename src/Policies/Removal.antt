-- ===== src/Policies/Removal.antt =====
-- `PolicyManager::remove_policy` and `_remove_input_if_unused` of src/Policies.cpp.
use pktvisor.Prelude.{
  ◌&&◌, not, Option, none, some, List, [], ◌∷◌, ◌++◌, if◌then◌else◌, ◌==◌, find, erase,
}
use pktvisor.Metrics.Utf8.{Bytes}
use pktvisor.Serializer.{same_bytes, bytes_key}
use pktvisor.Config.Hash.{sort}
use pktvisor.Policies.{
  among, adjust, Input, Policy, World, policies_count, RemoveError, missing, remove_input,
  remove_handler, stop, stopped,
}

abbrev pub resources_suffix : Bytes
resources_suffix = b'-' ∷ b'r' ∷ b'e' ∷ b's' ∷ b'o' ∷ b'u' ∷ b'r' ∷ b'c' ∷ b'e' ∷ b's' ∷ []

abbrev pub resources_name : Bytes → Bytes
resources_name n = n ++ resources_suffix

-- The resources policy of an input, stopped and removed with its handler.
unfoldable pub remove_resources : Bytes → Policy → World → World × Option RemoveError
remove_resources name policy w =
    let w1 = stop policy (record w { policies = adjust name stopped w.policies }) in
    let r = remove_handler w1 name in
    elim r.1 [
      | some e ↦ (r.0, some e)
      | none ↦ (record (r.0) { policies = erase name r.0.policies }, none)
    ]

-- The first part: a resources policy that is the only one left on the input.
unfoldable pub remove_last_resources : Bytes → Bytes → Input → World → World × Option RemoveError
remove_last_resources input_name leaving_policy i w =
    if policies_count i == 1 && not (same_bytes leaving_policy (resources_name input_name))
    then elim (find (resources_name input_name) w.policies) [
      | none ↦ (w, none)
      | some policy ↦ remove_resources (resources_name input_name) policy w
    ]
    else (w, none)

-- The second part: an input with no policy.
unfoldable pub remove_unattached : Bytes → World → World × Option RemoveError
remove_unattached input_name w = elim (find input_name w.inputs) [
  | none ↦ (w, none)
  | some i ↦ if policies_count i == 0 then remove_input w input_name else (w, none)
]

unfoldable pub remove_input_if_unused : Bytes → Input → Bytes → World → World × Option RemoveError
remove_input_if_unused input_name i leaving_policy w =
    let r = remove_last_resources input_name leaving_policy i w in
    elim r.1 [ some e ↦ (r.0, some e) | none ↦ remove_unattached input_name r.0 ]

unfoldable pub remove_handlers : List Bytes → World → World × Option RemoveError
remove_handlers [] w = (w, none)
remove_handlers (m ∷ ms) w =
    let r = remove_handler w m in
    elim r.1 [ some e ↦ (r.0, some e) | none ↦ remove_handlers ms r.0 ]

unfoldable pub remove_unused : Bytes → List Bytes → World → World × Option RemoveError
remove_unused leaving_policy [] w = (w, none)
remove_unused leaving_policy (n ∷ ns) w = elim (find n w.inputs) [
  | none ↦ remove_unused leaving_policy ns w
  | some i ↦
      let r = remove_input_if_unused n i leaving_policy w in
      elim r.1 [ some e ↦ (r.0, some e) | none ↦ remove_unused leaving_policy ns r.0 ]
]

-- The keys of `input_stream`, each once.
unfoldable pub distinct : List Bytes → List Bytes
distinct [] = []
distinct (n ∷ ns) = let rest = distinct ns in if among n rest then rest else n ∷ rest

-- The inputs in the order of their names.
unfoldable pub remove_policy_by_name : Bytes → World → World × Option RemoveError
remove_policy_by_name name w = elim (find name w.policies) [
  | none ↦ (w, some missing)
  | some policy ↦
      let w1 = stop policy (record w { policies = adjust name stopped w.policies }) in
      let r = remove_handlers policy.modules w1 in
      elim r.1 [
        | some e ↦ (r.0, some e)
        | none ↦
            let s = remove_unused name (sort (distinct policy.inputs)) r.0 in
            elim s.1 [
              | some e ↦ (s.0, some e)
              | none ↦ (record (s.0) { policies = erase name s.0.policies }, none)
            ]
      ]
]
