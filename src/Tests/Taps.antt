-- ===== src/Tests/Taps.antt =====
-- The theorems on configurations and taps, at small ones.
use mathlib.Core.List.Perm
use pktvisor.Prelude.{
  ◌≡◌, ◌≤◌, ◌↔◌, All, IsUnique, refl, true, false, none, some, List, [], ◌∷◌, ◌++◌, find, put,
  erase, length, arith,
}
use pktvisor.Metrics.Utf8.{Bytes}
use pktvisor.Serializer.{same_bytes, bytes_key}
use pktvisor.Config.{Config, config_set, text, number, gives}
use pktvisor.Config.Yaml.{
  Yaml, scalar, mapping, stop, pair, Pairs, as_string, is_number, is_truth, all_digits,
  scalar_value, config_set_yaml,
}
use pktvisor.Config.Hash.{Texts, config_hash}
use pktvisor.Config.Hash.Order.{config_hash_Perm}
use pktvisor.Modules.{module_exists}
use pktvisor.Taps.{
  Tap, TapMap, TapError, Plugins, is_module_name, load, get_input_taps_name, tap_key,
  input_type_key, child, named_tap,
}
use pktvisor.Taps.Agreement.{Agrees, selector}
use pktvisor.Taps.Matching.{Comparable, Some, tags_match_exact}
use pktvisor.Taps.Selector.{tags_match_selector_yaml}
use pktvisor.Taps.Tagged.{set_tags_match}
use pktvisor.Taps.Loading.{named, load_adds}
use pktvisor.Taps.Naming.{Usable, input_taps-Usable}

abbrev texts : Texts
texts = record { to_string = λ n. n ∷ []; hash = λ s. s }

abbrev two : Config
two = (b'a' ∷ [], number 3) ∷ (b'b' ∷ [], text (b'x' ∷ [])) ∷ []

config_hash_Perm_example :
    config_hash texts two
    ≡ config_hash texts ((b'b' ∷ [], text (b'x' ∷ [])) ∷ (b'a' ∷ [], number 3) ∷ [])
config_hash_Perm_example =
    config_hash_Perm texts two ((b'b' ∷ [], text (b'x' ∷ [])) ∷ (b'a' ∷ [], number 3) ∷ [])
      (Perm.swap (b'b' ∷ [], text (b'x' ∷ [])) (b'a' ∷ [], number 3) [])

-- A digit is its number.
abbrev yaml : Yaml
yaml = record {
  as_uint64 = λ s. elim s [ [] ↦ none | c ∷ rest ↦ some c ];
  as_bool = λ s. none;
  null_is_text = true;
}

abbrev pairs : List (Bytes × Bytes)
pairs = (b'a' ∷ [], b'3' ∷ []) ∷ (b'b' ∷ [], b'x' ∷ []) ∷ []

abbrev tags : Config
tags = (b'b' ∷ [], text (b'x' ∷ [])) ∷ (b'a' ∷ [], number b'3') ∷ []

tags_match_exact_example :
    ((tags_match_selector_yaml yaml tags true (selector pairs) ≡ gives true)
      ↔ ((1 ≤ length pairs) × All (Agrees yaml tags) pairs))
    × ((tags_match_selector_yaml yaml tags false (selector pairs) ≡ gives true)
        ↔ (All (Comparable yaml tags) pairs × Some (Agrees yaml tags) pairs))
tags_match_exact_example = tags_match_exact yaml tags pairs

set_tags_match_example : tags_match_selector_yaml yaml tags true (selector pairs) ≡ gives true
unfolding find config_set_yaml scalar_value is_number is_truth all_digits same_bytes as_string
    config_set put erase
set_tags_match_example = set_tags_match yaml tags pairs (refl, (refl, tt)) (ground arith) refl

abbrev plugins : Plugins
plugins = record { yaml = yaml; has_input = λ s. true }

abbrev tap : Tap
tap = record { name = b't' ∷ []; input_type = b'm' ∷ []; config = []; tags = [] }

abbrev taps : TapMap
taps = (b't' ∷ [], tap) ∷ []

-- A second tap, and a third that has no input type.
abbrev tap_yaml : Pairs
tap_yaml =
    pair (scalar (b'u' ∷ [])) (mapping (pair (scalar input_type_key) (scalar (b'm' ∷ [])) stop))
      (pair (scalar (b'v' ∷ [])) (mapping stop) stop)

load_adds_example :
    let r = load plugins true false taps tap_yaml in
    ((added : List Tap) × (r.taps ≡ taps ++ named added)
      × IsUnique r.taps
      × All (λ (t : Tap). is_module_name t.name ≡ true) added
      × (r.thrown ≡ none → r.result ≡ added))
    × (false ≡ true → (e : TapError) → r.thrown ≡ some e → r.taps ≡ taps)
unfolding find
load_adds_example = load_adds plugins true false taps tap_yaml (refl, tt)

abbrev input : Pairs
input = pair (scalar tap_key) (scalar (b't' ∷ [])) stop

abbrev one_name : List Bytes
one_name = (b't' ∷ []) ∷ []

input_taps-Usable_example : Usable taps one_name
unfolding find get_input_taps_name child named_tap module_exists same_bytes
input_taps-Usable_example = input_taps-Usable yaml taps input one_name (refl, tt) refl
