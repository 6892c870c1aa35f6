-- ===== src/Config.antt =====
-- src/Configurable.h: the class `Configurable`, a map from keys to values of five kinds. A nested
-- configuration is the list of its fields. Nothing sets a value of a nested configuration once it is
-- in a map, so a copy of the pointer is a copy of the fields. The mutex makes a method one step.
pub mod Yaml
pub mod Hash
use pktvisor.Prelude.{ℕ, Bool, true, false, Option, none, some, List, [], ◌∷◌, ◌==◌, map, find, put}
use pktvisor.Metrics.Utf8.{Bytes}
use pktvisor.Modules.{count}
use pktvisor.Serializer.{bytes_key}

-- What a call gives, or what it throws.
pub data Outcome (E A : Type 0) : Type 0 where
  fails : E → Outcome E A
  gives : A → Outcome E A

mutual
  pub data Value : Type 0 where
    text : Bytes → Value
    number : ℕ → Value
    flag : Bool → Value
    strings : List Bytes → Value
    nested : Fields → Value

  pub data Fields : Type 0 where
    end : Fields
    field : Bytes → Value → Fields → Fields

abbrev pub Config : Type 0
Config = List (Bytes × Value)

-- A configuration as the fields of one that holds it.
abbrev pub to_fields : Config → Fields
to_fields [] = end
to_fields ((key, value) ∷ config) = field key value (to_fields config)

-- `ConfigException`, by its message.
pub data ConfigError : Type 0 where
  missing_key wrong_type : Bytes → ConfigError

-- `std::get_if` at the five types.
abbrev pub as_text : Value → Option Bytes
as_text (text s) = some s
as_text _ = none

abbrev pub as_number : Value → Option ℕ
as_number (number n) = some n
as_number _ = none

abbrev pub as_flag : Value → Option Bool
as_flag (flag b) = some b
as_flag _ = none

abbrev pub as_strings : Value → Option (List Bytes)
as_strings (strings ss) = some ss
as_strings _ = none

abbrev pub as_nested : Value → Option Fields
as_nested (nested fs) = some fs
as_nested _ = none

unfoldable pub config_get :
    {T : Type 0} → (Value → Option T) → Config → Bytes → Outcome ConfigError T
config_get get_if config key = elim (find key config) [
  | none ↦ fails (missing_key key)
  | some value ↦ elim (get_if value) [ none ↦ fails (wrong_type key) | some t ↦ gives t ]
]

unfoldable pub config_set : Config → Bytes → Value → Config
config_set config key value = put key value config

unfoldable pub config_exists : Config → Bytes → Bool
config_exists config key = count (find key config) == 1

unfoldable pub get_all_keys : Config → List Bytes
get_all_keys config = map (λ (e : Bytes × Value). e.0) config

-- The values of `other` replace those of the same key.
unfoldable pub config_merge : Config → Config → Config
config_merge config [] = config
config_merge config ((key, value) ∷ other) = config_merge (put key value config) other
