-- ===== src/Taps/Tagged.antt =====
-- A tap whose tags were set from YAML, and a selector that names the same tags.
use pktvisor.Prelude.{
  ◌≡◌, refl, sym, ap, ◌∙◌, ◌⊎◌, inl, inr, true, false, Option, none, some, List, [], ◌∷◌, ◌≤◌,
  length, Bool-cases, All, find, put, IsUnique, find-put_same, find-put_other,
}
use pktvisor.Metrics.Utf8.{Bytes}
use pktvisor.Serializer.{same_bytes, bytes_key}
use pktvisor.Config.{Outcome, fails, gives, Value, Config, config_set}
use pktvisor.Config.Yaml.{
  scalar, Pairs, stop, pair, Yaml, YamlError, as_string, scalar_value, config_set_yaml,
}
use pktvisor.Taps.Agreement.{Agrees, selector}
use pktvisor.Taps.Matching.{tags_match_exact}
use pktvisor.Taps.Selector.{tags_match_selector_yaml}

-- A mapping of keys to scalars.
abbrev pub document : List (Bytes × Bytes) → Pairs
document [] = stop
document ((key, value) ∷ rest) = pair (scalar key) (scalar value) (document rest)

Outcome-cases :
    (r : Outcome YamlError Value)
    → ((e : YamlError) × (r ≡ fails e)) ⊎ ((v : Value) × (r ≡ gives v))
Outcome-cases (fails e) = inl (e, refl)
Outcome-cases (gives v) = inr (v, refl)

-- What a pair does, given the value of its scalar.
abbrev after : Yaml → Config → Bytes → Pairs → Outcome YamlError Value → Config × Option YamlError
after yaml config key rest r = elim r [
  | fails e ↦ (config, some e)
  | gives value ↦ config_set_yaml yaml (config_set config key value) rest
]

set_pair :
    (yaml : Yaml) (config : Config) (key value : Bytes) (rest : Pairs)
    → config_set_yaml yaml config (pair (scalar key) (scalar value) rest)
      ≡ after yaml config key rest (scalar_value yaml value)
unfolding config_set_yaml as_string
set_pair yaml config key value rest = refl

set_next :
    (yaml : Yaml) (config : Config) (key value : Bytes) (rest : Pairs) (v : Value)
    → scalar_value yaml value ≡ gives v
    → config_set_yaml yaml config (pair (scalar key) (scalar value) rest)
      ≡ config_set_yaml yaml (put key v config) rest
unfolding config_set
set_next yaml config key value rest v e =
    set_pair yaml config key value rest ∙ ap (after yaml config key rest) e

set_fails :
    (yaml : Yaml) (config : Config) (key value : Bytes) (rest : Pairs) (e : YamlError)
    → scalar_value yaml value ≡ fails e
    → config_set_yaml yaml config (pair (scalar key) (scalar value) rest) ≡ (config, some e)
set_fails yaml config key value rest e h =
    set_pair yaml config key value rest ∙ ap (after yaml config key rest) h

absent_tail :
    (j key value : Bytes) (ps : List (Bytes × Bytes))
    → find j ((key, value) ∷ ps) ≡ none
    → (same_bytes key j ≡ false) × (find j ps ≡ none)
unfolding find
absent_tail j key value ps h = elim (Bool-cases (same_bytes key j)) [
  | inl t ↦ absurd (cc (rw (t) at h))
  | inr f ↦ (f, rw (f) at h)
]

module _ (yaml : Yaml) (tags : Config) where
  -- What the configuration holds at the end, of a key that no later pair has and of each pair.
  set_keeps :
      (config : Config) (ps : List (Bytes × Bytes))
      → config_set_yaml yaml config (document ps) ≡ (tags, none)
      → (j : Bytes) → find j ps ≡ none
      → find j tags ≡ find j config
  unfolding config_set_yaml
  set_keeps config [] h j a = ap (find j) (let e : tags ≡ config = cc in e)
  set_keeps config ((key, value) ∷ ps) h j a =
      let away = absent_tail j key value ps a in
      elim (Outcome-cases (scalar_value yaml value)) [
        | inl (e, f) ↦ absurd (cc (set_fails yaml config key value (document ps) e f, h))
        | inr (v, g) ↦
            set_keeps (put key v config) ps
              (sym (set_next yaml config key value (document ps) v g) ∙ h) j away.1
            ∙ find-put_other key j v config away.0
      ]

  set-Agrees :
      (config : Config) (ps : List (Bytes × Bytes))
      → IsUnique ps
      → config_set_yaml yaml config (document ps) ≡ (tags, none)
      → All (Agrees yaml tags) ps
  set-Agrees config [] u h = tt
  set-Agrees config ((key, value) ∷ ps) u h = elim (Outcome-cases (scalar_value yaml value)) [
    | inl (e, f) ↦ absurd (cc (set_fails yaml config key value (document ps) e f, h))
    | inr (v, g) ↦
        let rest = sym (set_next yaml config key value (document ps) v g) ∙ h in
        (
          (v, set_keeps (put key v config) ps rest key u.0 ∙ find-put_same key v config, g),
          set-Agrees (put key v config) ps u.1 rest,
        )
  ]

-- A tap whose tags were set, with no exception, from a mapping of different keys to scalars is
-- matched under `all` by the selector that lists the same pairs, and the mapping is not empty.
pub set_tags_match :
    (yaml : Yaml) (tags : Config) (ps : List (Bytes × Bytes))
    → IsUnique ps
    → 1 ≤ length ps
    → config_set_yaml yaml [] (document ps) ≡ (tags, none)
    → tags_match_selector_yaml yaml tags true (selector ps) ≡ gives true
set_tags_match yaml tags ps u l h =
    (tags_match_exact yaml tags ps).0.1 (l, set-Agrees yaml tags [] ps u h)
