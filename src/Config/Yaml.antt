-- ===== src/Config/Yaml.antt =====
-- `config_set_yaml` of src/Configurable.h. A document is what yaml-cpp gives of it: scalars as
-- texts, sequences, and mappings in their order. Its conversions are arguments.
use pktvisor.Prelude.{
  ℕ, ◌+◌, Bool, true, false, ◌&&◌, ◌||◌, Option, none, some, List, [], ◌∷◌, if◌then◌else◌, leb, map,
}
use pktvisor.Metrics.Utf8.{Bytes}
use pktvisor.Serializer.{same_bytes, bytes_key}
use pktvisor.Config.{
  Outcome, fails, gives, Value, text, number, flag, strings, nested, Config, to_fields, config_set,
}

mutual
  pub data Node : Type 0 where
    null : Node
    scalar : Bytes → Node
    sequence : Nodes → Node
    mapping : Pairs → Node

  pub data Nodes : Type 0 where
    nil : Nodes
    item : Node → Nodes → Nodes

  pub data Pairs : Type 0 where
    stop : Pairs
    pair : Node → Node → Pairs → Pairs

-- `as<uint64_t>()` and `as<bool>()` of a scalar, and whether a null has the text "null".
pub record Yaml : Type 0 where
  pub as_uint64 : Bytes → Option ℕ
  pub as_bool : Bytes → Option Bool
  pub null_is_text : Bool

-- `YAML::BadConversion`, and the `ConfigException` of a sequence under a key.
pub data YamlError : Type 0 where
  bad_conversion : YamlError
  invalid_sequence : Bytes → YamlError

abbrev pub null_text : Bytes
null_text = b'n' ∷ b'u' ∷ b'l' ∷ b'l' ∷ []

-- `as<std::string>()`
unfoldable pub as_string : Yaml → Node → Option Bytes
as_string yaml (scalar s) = some s
as_string yaml null = if yaml.null_is_text then some null_text else none
as_string yaml _ = none

-- `std::regex("[0-9]+")`
unfoldable pub all_digits : Bytes → Bool
all_digits [] = true
all_digits (c ∷ s) = leb 48 c && leb c 57 && all_digits s

unfoldable pub is_number : Bytes → Bool
is_number [] = false
is_number (c ∷ s) = all_digits (c ∷ s)

abbrev pub lower : ℕ → ℕ
lower c = if leb 65 c && leb c 90 then c + 32 else c

-- `std::regex("true|false", std::regex_constants::icase)`
unfoldable pub is_truth : Bytes → Bool
is_truth s =
    same_bytes (map lower s) (b't' ∷ b'r' ∷ b'u' ∷ b'e' ∷ [])
    || same_bytes (map lower s) (b'f' ∷ b'a' ∷ b'l' ∷ b's' ∷ b'e' ∷ [])

-- The value of a scalar that is neither a mapping nor a sequence.
unfoldable pub scalar_value : Yaml → Bytes → Outcome YamlError Value
scalar_value yaml s =
    if is_number s
    then elim (yaml.as_uint64 s) [ none ↦ fails bad_conversion | some n ↦ gives (number n) ]
    else if is_truth s
    then elim (yaml.as_bool s) [ none ↦ fails bad_conversion | some b ↦ gives (flag b) ]
    else gives (text s)

-- The loop over a sequence.
unfoldable pub sequence_strings : Bytes → Nodes → Outcome YamlError (List Bytes)
sequence_strings key nil = gives []
sequence_strings key (item (scalar s) rest) = elim (sequence_strings key rest) [
  | fails e ↦ fails e
  | gives ss ↦ gives (s ∷ ss)
]
sequence_strings key (item _ rest) = fails (invalid_sequence key)

-- The value under a key, and the configuration that the pairs leave, with what they threw.
unfoldable mutual
  pub node_value : Yaml → Bytes → Node → Outcome YamlError Value
  node_value yaml key null =
      if yaml.null_is_text then gives (text null_text) else fails bad_conversion
  node_value yaml key (scalar s) = scalar_value yaml s
  node_value yaml key (sequence items) = elim (sequence_strings key items) [
    | fails e ↦ fails e
    | gives ss ↦ gives (strings ss)
  ]
  node_value yaml key (mapping pairs) =
      let r = config_set_yaml yaml [] pairs in
      elim r.1 [ some e ↦ fails e | none ↦ gives (nested (to_fields r.0)) ]

  pub config_set_yaml : Yaml → Config → Pairs → Config × Option YamlError
  config_set_yaml yaml config stop = (config, none)
  config_set_yaml yaml config (pair name node rest) = elim (as_string yaml name) [
    | none ↦ (config, some bad_conversion)
    | some key ↦ elim (node_value yaml key node) [
      | fails e ↦ (config, some e)
      | gives value ↦ config_set_yaml yaml (config_set config key value) rest
    ]
  ]
