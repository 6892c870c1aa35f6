-- ===== src/Policies/Unload.antt =====
-- What `PolicyManager::remove_policy` of src/Policies.cpp should leave, and the worlds where it can:
-- a description that does not follow the steps of the code.
pub mod Stopping
pub mod Handlers
pub mod Settles
pub mod Unused
pub mod Silence
pub mod Step
pub mod Last
pub mod Order
pub mod Start
pub mod Finish
use pktvisor.Prelude.{
  ℕ, suc, ◌≤◌, ◌≡◌, Bool, true, false, ◌&&◌, ◌||◌, Option, none, some, List, [], ◌∷◌, ◌++◌,
  if◌then◌else◌, ◌==◌, length, All, find, ◌⊎◌,
}
use mathlib.Core.Option
use pktvisor.Metrics.Utf8.{Bytes}
use pktvisor.Serializer.{same_bytes, bytes_key}
use pktvisor.Modules.{module_exists}
use pktvisor.Policies.{
  among, Input, Handler, Policy, World, Source, of_input, of_handler, without, remove_policy,
}
use pktvisor.Policies.Removal.{resources_name}
use pktvisor.Policies.Tracks.{Distinct}

abbrev pub others_of : ℕ → Option Input → ℕ
others_of id none = 0
others_of id (some i) = length (without id i.attached)

-- The policies on an input besides the one that is removed.
abbrev pub others : Policy → World → Bytes → ℕ
others p w n = others_of p.id (find n w.inputs)

-- Only the resources policy is left on the input, and goes with it.
abbrev pub last_resources : Policy → World → Bytes → Bool
last_resources p w n = (others p w n == 1) && module_exists w.policies (resources_name n)

abbrev pub freed : Policy → World → Bytes → Bool
freed p w n = (others p w n == 0) || last_resources p w n

-- The resources policies, and their handlers, that go with the inputs.
abbrev pub gone : Policy → World → List Bytes → List Bytes
gone p w [] = []
gone p w (n ∷ ns) = if last_resources p w n then resources_name n ∷ gone p w ns else gone p w ns

abbrev pub input_after : Policy → World → Bytes → Option Input
input_after p w n =
    if among n p.inputs
    then if freed p w n then none else Option.map (remove_policy p.id) (find n w.inputs)
    else find n w.inputs

abbrev pub handler_after : Policy → World → Bytes → Option Handler
handler_after p w n = if among n (p.modules ++ gone p w p.inputs) then none else find n w.handlers

abbrev pub policy_after : Bytes → Policy → World → Bytes → Option Policy
policy_after name p w n = if among n (name ∷ gone p w p.inputs) then none else find n w.policies

abbrev pub Removed : Bytes → Policy → World → World → Type 0
Removed name p w w' =
    (n : Bytes)
    → (find n w'.inputs ≡ input_after p w n)
      × (find n w'.handlers ≡ handler_after p w n)
      × (find n w'.policies ≡ policy_after name p w n)

-- The resources policy of an input, as a load makes and starts it.
abbrev pub own_resources : ℕ → Bytes → Policy
own_resources r n = record {
  id = r;
  inputs = n ∷ [];
  modules = resources_name n ∷ [];
  running = true;
}

-- The input has that policy, and counts no other besides the one that is removed.
abbrev pub HasResources : Policy → World → Bytes → Type 0
HasResources p w n =
    (r : ℕ) × (find (resources_name n) w.policies ≡ some (own_resources r n))
    × ((i : Input) → find n w.inputs ≡ some i → length (without r (without p.id i.attached)) ≡ 0)
    × ((h : Handler) × (find (resources_name n) w.handlers ≡ some h))
    × (among (resources_name n) p.modules ≡ false)

-- An input that the policy is on, and it is not the input's resources policy.
abbrev pub IsInUse : Bytes → Policy → World → Bytes → Type 0
IsInUse name p w n =
    (same_bytes name (resources_name n) ≡ false)
    × ((i : Input) × (find n w.inputs ≡ some i)
        × (suc (length (without p.id i.attached)) ≤ length i.attached))
    × (last_resources p w n ≡ true → HasResources p w n)

-- A source that others than the policy's handlers may listen to. An input that will be freed is
-- heard by its resources handler only.
abbrev pub MayHear : Policy → World → Bytes → Source → Type 0
MayHear p w k (of_handler m) = among m (p.modules ++ gone p w p.inputs) ≡ false
MayHear p w k (of_input n hash) =
    among n p.inputs ≡ true
    → freed p w n ≡ true
    → (last_resources p w n ≡ true) × (k ≡ resources_name n)

-- A policy that runs and that a removal can take away.
abbrev pub Removable : Bytes → Policy → World → Type 0
Removable name p w =
    (find name w.policies ≡ some p)
    × (p.running ≡ true)
    × Distinct p.inputs
    × Distinct p.modules
    × All (λ m. (h : Handler) × (find m w.handlers ≡ some h)) p.modules
    × All (IsInUse name p w) p.inputs
    × All (λ (x : Bytes × Handler). (among x.0 p.modules ≡ true) ⊎ MayHear p w x.0 x.1.listens)
        w.handlers
