-- ===== src/Taps/Selector.antt =====
-- `Tap::tags_match_selector_yaml` of src/Taps.cpp.
use pktvisor.Prelude.{Bool, true, false, not, none, some, if◌then◌else◌, ◌==◌}
use pktvisor.Metrics.Utf8.{Bytes}
use pktvisor.Serializer.{same_bytes, bytes_key}
use pktvisor.Config.{
  Outcome, fails, gives, Config, ConfigError, as_text, as_number, as_flag, config_get,
  config_exists,
}
use pktvisor.Config.Yaml.{
  Node, scalar, sequence, mapping, Nodes, nil, item, stop, pair, Yaml, as_string, is_number,
  is_truth,
}

-- What it throws, in the order of its checks; `no_pair` is an item with no pair to look at.
pub data SelectorError : Type 0 where
  not_single no_pair bad_key bad_value : SelectorError
  key_not_scalar value_not_scalar : Bytes → SelectorError
  types_differ : Bytes → SelectorError
  config_error : ConfigError → SelectorError

-- The key and the value of an item of the selector.
unfoldable pub tag_pair : Yaml → Node → Node → Outcome SelectorError (Bytes × Bytes)
tag_pair yaml name value = elim (as_string yaml name) [
  | none ↦ fails bad_key
  | some key ↦ elim name [
    | scalar k ↦ elim value [ scalar s ↦ gives (key, s) | _ ↦ fails (value_not_scalar key) ]
    | _ ↦ fails (key_not_scalar key)
  ]
]

unfoldable pub selector_pair : Yaml → Node → Outcome SelectorError (Bytes × Bytes)
selector_pair yaml (mapping (pair name value stop)) = tag_pair yaml name value
selector_pair yaml (mapping (pair name value (pair other node rest))) = fails not_single
selector_pair yaml (sequence (item first (item second rest))) = fails not_single
selector_pair yaml node = fails no_pair

unfoldable pub same_flag : Bool → Bool → Bool
same_flag true b = b
same_flag false b = not b

-- The comparison of a tag of the tap with the value.
unfoldable pub tag_matches : Yaml → Config → Bytes → Bytes → Outcome SelectorError Bool
tag_matches yaml tags key value =
    if is_number value
    then elim (config_get as_number tags key) [
      | fails e ↦ fails (types_differ key)
      | gives n ↦ elim (yaml.as_uint64 value) [ none ↦ fails bad_value | some m ↦ gives (n == m) ]
    ]
    else if is_truth value
    then elim (config_get as_flag tags key) [
      | fails e ↦ fails (types_differ key)
      | gives b ↦ elim (yaml.as_bool value) [
        | none ↦ fails bad_value
        | some c ↦ gives (same_flag b c)
      ]
    ]
    else elim (config_get as_text tags key) [
      | fails e ↦ fails (config_error e)
      | gives s ↦ gives (same_bytes s value)
    ]

-- Whether an item of the selector is met: a missing tag and a different value are treated alike.
unfoldable pub tag_met : Yaml → Config → Node → Outcome SelectorError Bool
tag_met yaml tags node = elim (selector_pair yaml node) [
  | fails e ↦ fails e
  | gives (key, value) ↦
      if not (config_exists tags key) then gives false else tag_matches yaml tags key value
]

unfoldable pub match_each : Yaml → Config → Bool → Bool → Nodes → Outcome SelectorError Bool
match_each yaml tags all any_match nil = gives any_match
match_each yaml tags all any_match (item node rest) = elim (tag_met yaml tags node) [
  | fails e ↦ fails e
  | gives true ↦ match_each yaml tags all true rest
  | gives false ↦ elim all [ true ↦ gives false | false ↦ match_each yaml tags all any_match rest ]
]

unfoldable pub tags_match_selector_yaml : Yaml → Config → Bool → Nodes → Outcome SelectorError Bool
tags_match_selector_yaml yaml tags all items = match_each yaml tags all false items
