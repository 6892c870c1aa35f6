-- ===== src/Taps/Document.antt =====
-- `TapManager::load_from_str` of src/Taps.cpp. What yaml-cpp makes of a text is an argument.
use pktvisor.Prelude.{Bool, true, false, Option, none, some, [], ◌∷◌, if◌then◌else◌}
use pktvisor.Metrics.Utf8.{Bytes}
use pktvisor.Serializer.{same_bytes}
use pktvisor.Config.{Outcome, fails, gives}
use pktvisor.Config.Yaml.{Node, scalar, mapping, Pairs}
use pktvisor.Taps.{TapMap, Plugins, Loaded, child, load}

-- What it throws before it loads, and what the load throws.
pub data DocumentError : Type 0 where
  empty_data not_yaml invalid_schema unsupported_version bad_subscript no_taps : DocumentError

abbrev pub version_key : Bytes
version_key = b'v' ∷ b'e' ∷ b'r' ∷ b's' ∷ b'i' ∷ b'o' ∷ b'n' ∷ []

abbrev pub visor_key : Bytes
visor_key = b'v' ∷ b'i' ∷ b's' ∷ b'o' ∷ b'r' ∷ []

abbrev pub taps_key : Bytes
taps_key = b't' ∷ b'a' ∷ b'p' ∷ b's' ∷ []

-- A missing version is "1.0".
unfoldable pub version_supported : Option Node → Bool
version_supported none = true
version_supported (some (scalar s)) = same_bytes s (b'1' ∷ b'.' ∷ b'0' ∷ [])
version_supported (some node) = false

-- The mapping of taps under "visor"; a scalar there cannot be subscripted.
unfoldable pub taps_of : Node → Outcome DocumentError Pairs
taps_of (mapping body) = elim (child taps_key body) [
  | some (mapping taps) ↦ gives taps
  | _ ↦ fails no_taps
]
taps_of (scalar s) = fails bad_subscript
taps_of node = fails no_taps

unfoldable pub document_taps : Node → Outcome DocumentError Pairs
document_taps (mapping body) = elim (child visor_key body) [
  | none ↦ fails invalid_schema
  | some visor ↦
      if version_supported (child version_key body)
      then taps_of visor
      else fails unsupported_version
]
document_taps node = fails invalid_schema

-- The taps after it, with the exception of the text or else what the load gives.
unfoldable pub load_from_str :
    Plugins → (Bytes → Option Node) → TapMap → Bytes → Outcome (TapMap × DocumentError) Loaded
load_from_str plugins parse taps [] = fails (taps, empty_data)
load_from_str plugins parse taps (c ∷ str) = elim (parse (c ∷ str)) [
  | none ↦ fails (taps, not_yaml)
  | some node ↦ elim (document_taps node) [
    | fails e ↦ fails (taps, e)
    | gives pairs ↦ gives (load plugins true true taps pairs)
  ]
]
