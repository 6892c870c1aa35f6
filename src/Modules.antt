-- ===== src/Modules.antt =====
-- src/AbstractManager.h: the class `AbstractManager`, a store of modules by name. A module is a
-- template parameter; a name is a key, and a module knows its own. The mutex makes a method one
-- step.
pub mod Store
use pktvisor.Prelude.{
  ℕ, ◌==◌, Bool, true, false, Option, none, some, List, [], ◌∷◌, ◌++◌, if◌then◌else◌, length, map,
  Key, find, erase,
}

-- The causes of a `ModuleException`.
pub data ModuleError : Type 0 where
  already_exists does_not_exist : ModuleError

-- `std::unordered_map::count`
abbrev pub count : {A : Type 0} → Option A → ℕ
count none = 0
count (some x) = 1

module _ {N M : Type 0} ⦃key : Key N⦄ where
  unfoldable pub module_get_keys : List (N × M) → List N
  module_get_keys modules = map (λ (e : N × M). e.0) modules

  unfoldable pub module_exists : List (N × M) → N → Bool
  module_exists modules name = count (find name modules) == 1

  -- The store after it, and the exception if it threw.
  unfoldable pub module_add : (M → N) → List (N × M) → M → List (N × M) × Option ModuleError
  module_add name_of modules m = elim (find (name_of m) modules) [
    | some old ↦ (modules, some already_exists)
    | none ↦ (modules ++ (name_of m, m) ∷ [], none)
  ]

  unfoldable pub module_remove : List (N × M) → N → List (N × M) × Option ModuleError
  module_remove modules name = elim (find name modules) [
    | none ↦ (modules, some does_not_exist)
    | some old ↦ (erase name modules, none)
  ]

  unfoldable pub module_get_locked : List (N × M) → N → Option M
  module_get_locked modules name = find name modules
