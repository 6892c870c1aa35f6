-- ===== src/Taps.antt =====
-- src/Taps.h and src/Taps.cpp: the classes `Tap` and `TapManager`. A tap has the name of its input
-- plugin; which plugins the registry has is an argument. A pair of a mapping whose key is not a
-- scalar is not found under any key.
pub mod Selector
pub mod Agreement
pub mod Matching
pub mod Tagged
pub mod Loading
pub mod Naming
pub mod Document
use pktvisor.Prelude.{
  ℕ, suc, Bool, true, false, ◌&&◌, not, Option, none, some, List, [], ◌∷◌, ◌++◌, if◌then◌else◌, ltb,
  leb, ◌||◌, ◌==◌, length, find,
}
use pktvisor.Metrics.Utf8.{Bytes}
use pktvisor.Serializer.{same_bytes, bytes_key}
use pktvisor.Modules.{module_add, module_exists, ModuleError, already_exists, does_not_exist}
use pktvisor.Config.{Outcome, fails, gives, Config, config_merge}
use pktvisor.Config.Yaml.{
  Node, null, scalar, sequence, mapping, Nodes, Pairs, stop, pair, Yaml, YamlError, config_set_yaml,
}
use pktvisor.Taps.Selector.{SelectorError, tags_match_selector_yaml}

pub record Tap : Type 0 where
  pub name : Bytes
  pub input_type : Bytes
  pub config : Config
  pub tags : Config

abbrev pub TapMap : Type 0
TapMap = List (Bytes × Tap)

-- `node[key]` of a mapping, where it is defined.
unfoldable pub child : Bytes → Pairs → Option Node
child key stop = none
child key (pair (scalar k) node rest) =
    let other = child key rest in if same_bytes k key then some node else other
child key (pair _ node rest) = child key rest

abbrev pub size : Pairs → ℕ
size stop = 0
size (pair k v rest) = suc (size rest)

-- What `load` throws.
pub data TapError : Type 0 where
  single_expected expects_identifier expects_map bad_input_type : TapError
  not_available : Bytes → TapError
  config_not_map tags_not_map : TapError
  set_yaml : YamlError → TapError
  not_added : ModuleError → TapError
  invalid_name : Bytes → TapError

-- The configuration under a key that may be missing.
unfoldable pub set_child : Yaml → TapError → Bytes → Pairs → Outcome TapError Config
set_child yaml not_map key body = elim (child key body) [
  | none ↦ gives []
  | some (mapping pairs) ↦
      let r = config_set_yaml yaml [] pairs in
      elim r.1 [ none ↦ gives r.0 | some e ↦ fails (set_yaml e) ]
  | some node ↦ fails not_map
]

abbrev pub config_key : Bytes
config_key = b'c' ∷ b'o' ∷ b'n' ∷ b'f' ∷ b'i' ∷ b'g' ∷ []

abbrev pub tags_key : Bytes
tags_key = b't' ∷ b'a' ∷ b'g' ∷ b's' ∷ []

abbrev pub input_type_key : Bytes
input_type_key = b'i' ∷ b'n' ∷ b'p' ∷ b'u' ∷ b't' ∷ b'_' ∷ b't' ∷ b'y' ∷ b'p' ∷ b'e' ∷ []

-- The registry as `load` sees it.
pub record Plugins : Type 0 where
  pub yaml : Yaml
  pub has_input : Bytes → Bool

-- A match of the whole name with `[a-zA-Z_][a-zA-Z0-9_-]*`, MODULE_ID_REGEX of src/AbstractModule.h,
-- which the constructor of a module requires.
unfoldable pub starts_name : ℕ → Bool
starts_name c = (leb b'a' c && leb c b'z') || ((leb b'A' c && leb c b'Z') || c == b'_')

unfoldable pub in_name : ℕ → Bool
in_name c = starts_name c || ((leb b'0' c && leb c b'9') || c == b'-')

unfoldable pub all_in_name : Bytes → Bool
all_in_name [] = true
all_in_name (c ∷ cs) = in_name c && all_in_name cs

unfoldable pub is_module_name : Bytes → Bool
is_module_name [] = false
is_module_name (c ∷ cs) = starts_name c && all_in_name cs

-- The tap of a name and a body that has an input type, or none if it is skipped.
unfoldable pub make_tap : Plugins → Bool → Bytes → Bytes → Pairs → Outcome TapError (Option Tap)
make_tap plugins strict tap_name type body =
    if not (plugins.has_input type)
    then (if strict then fails (not_available type) else gives none)
    else if not (is_module_name tap_name)
    then fails (invalid_name tap_name)
    else elim (set_child plugins.yaml config_not_map config_key body) [
      | fails e ↦ fails e
      | gives config ↦ elim (set_child plugins.yaml tags_not_map tags_key body) [
        | fails e ↦ fails e
        | gives tags ↦
            gives
              (some (record { name = tap_name; input_type = type; config = config; tags = tags }))
      ]
    ]

-- The checks of one pair of the mapping of taps, up to the tap.
unfoldable pub parse_tap : Plugins → Bool → Node → Node → Outcome TapError (Option Tap)
parse_tap plugins strict (scalar tap_name) (mapping body) = elim (child input_type_key body) [
  | some (scalar type) ↦ make_tap plugins strict tap_name type body
  | some node ↦ fails bad_input_type
  | none ↦ fails bad_input_type
]
parse_tap plugins strict (scalar tap_name) node = fails expects_map
parse_tap plugins strict key node = fails expects_identifier

-- The taps after a load, those it added, and what it threw.
pub record Loaded : Type 0 where
  pub taps : TapMap
  pub result : List Tap
  pub thrown : Option TapError

unfoldable pub load_each : Plugins → Bool → TapMap → List Tap → Pairs → Loaded
load_each plugins strict taps result stop = record { taps = taps; result = result; thrown = none }
load_each plugins strict taps result (pair key node rest) =
    elim (parse_tap plugins strict key node) [
      | fails e ↦ record { taps = taps; result = result; thrown = some e }
      | gives none ↦ load_each plugins strict taps result rest
      | gives (some tap) ↦
          let added = module_add (λ (t : Tap). t.name) taps tap in
          elim added.1 [
            | some e ↦ record {
              taps = added.0;
              result = result ++ tap ∷ [];
              thrown = some (not_added e);
            }
            | none ↦ load_each plugins strict added.0 (result ++ tap ∷ []) rest
          ]
    ]

unfoldable pub load : Plugins → Bool → Bool → TapMap → Pairs → Loaded
load plugins strict single taps pairs =
    if single && ltb 1 (size pairs)
    then record { taps = taps; result = []; thrown = some single_expected }
    else load_each plugins strict taps [] pairs

-- What `get_input_taps_name` throws.
pub data InputError : Type 0 where
  tap_and_selector no_tap_key bad_tap no_such_tap selector_not_map all_and_any no_operator :
      InputError
  all_not_sequence any_not_sequence no_match : InputError
  selects : SelectorError → InputError

-- The loop over the taps: the names of those that match.
unfoldable pub matching : Yaml → Nodes → Bool → TapMap → Outcome SelectorError (List Bytes)
matching yaml items all [] = gives []
matching yaml items all ((key, tap) ∷ taps) =
    elim (tags_match_selector_yaml yaml tap.tags all items) [
      | fails e ↦ fails e
      | gives matches ↦ elim (matching yaml items all taps) [
        | fails e ↦ fails e
        | gives names ↦ gives (if matches then tap.name ∷ names else names)
      ]
    ]

unfoldable pub select_taps : Yaml → Nodes → Bool → TapMap → Outcome InputError (List Bytes)
select_taps yaml items all taps = elim (matching yaml items all taps) [
  | fails e ↦ fails (selects e)
  | gives [] ↦ fails no_match
  | gives (name ∷ names) ↦ gives (name ∷ names)
]

abbrev pub all_key : Bytes
all_key = b'a' ∷ b'l' ∷ b'l' ∷ []

abbrev pub any_key : Bytes
any_key = b'a' ∷ b'n' ∷ b'y' ∷ []

abbrev pub tap_key : Bytes
tap_key = b't' ∷ b'a' ∷ b'p' ∷ []

abbrev pub tap_selector_key : Bytes
tap_selector_key = tap_key ++ b'_' ∷ b's' ∷ b'e' ∷ b'l' ∷ b'e' ∷ b'c' ∷ b't' ∷ b'o' ∷ b'r' ∷ []

-- The selector of an input.
unfoldable pub apply_selector : Yaml → TapMap → Node → Outcome InputError (List Bytes)
apply_selector yaml taps (mapping body) = elim (child all_key body) [
  | some all ↦ elim (child any_key body) [
    | some any ↦ fails all_and_any
    | none ↦ elim all [
      | sequence items ↦ select_taps yaml items true taps
      | _ ↦ fails all_not_sequence
    ]
  ]
  | none ↦ elim (child any_key body) [
    | some (sequence items) ↦ select_taps yaml items false taps
    | some node ↦ fails any_not_sequence
    | none ↦ fails no_operator
  ]
]
apply_selector yaml taps node = fails selector_not_map

-- The tap that an input names.
unfoldable pub named_tap : TapMap → Node → Outcome InputError (List Bytes)
named_tap taps (scalar tap_name) =
    if module_exists taps tap_name then gives (tap_name ∷ []) else fails no_such_tap
named_tap taps node = fails bad_tap

unfoldable pub get_input_taps_name : Yaml → TapMap → Pairs → Outcome InputError (List Bytes)
get_input_taps_name yaml taps input = elim (child tap_key input) [
  | some tap ↦ elim (child tap_selector_key input) [
    | some selector ↦ fails tap_and_selector
    | none ↦ named_tap taps tap
  ]
  | none ↦ elim (child tap_selector_key input) [
    | some selector ↦ apply_selector yaml taps selector
    | none ↦ fails no_tap_key
  ]
]

-- The configuration with which a tap makes or names its input.
unfoldable pub input_config : Tap → Config → Config
input_config tap config = config_merge (config_merge [] tap.config) config
