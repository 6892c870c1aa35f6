-- ===== src/Taps/Agreement.antt =====
-- When a tag of a tap meets an item of a selector of src/Taps.cpp.
use pktvisor.Prelude.{
  ℕ, ◌≡◌, refl, sym, ap, ◌∙◌, inl, inr, Bool, true, false, not, Option, none, some, List, [], ◌∷◌,
  if◌then◌else◌, ◌==◌, Bool-cases, Option-cases, nat_refl, nat_sound, find,
}
use pktvisor.Metrics.Utf8.{Bytes}
use pktvisor.Serializer.{same_bytes, same_bytes_refl, same_bytes_sound, bytes_key}
use pktvisor.Config.{
  Outcome, fails, gives, Value, text, number, flag, strings, nested, Config, as_text, as_number,
  as_flag, config_get, config_exists, ConfigError,
}
use pktvisor.Config.Yaml.{
  scalar, mapping, Nodes, nil, item, stop, pair, Yaml, as_string, is_number, is_truth, scalar_value,
}
use pktvisor.Taps.Selector.{SelectorError, tag_pair, selector_pair, same_flag, tag_matches, tag_met}

-- A tag has the value that its text would have given a tap.
abbrev pub Agrees : Yaml → Config → Bytes × Bytes → Type 0
Agrees yaml tags (key, value) =
    (v : Value) × (find key tags ≡ some v) × (scalar_value yaml value ≡ gives v)

abbrev pub selector : List (Bytes × Bytes) → Nodes
selector [] = nil
selector ((key, value) ∷ rest) =
    item (mapping (pair (scalar key) (scalar value) stop)) (selector rest)

abbrev pub met : Yaml → Config → Bytes × Bytes → Outcome SelectorError Bool
met yaml tags (key, value) = tag_met yaml tags (mapping (pair (scalar key) (scalar value) stop))

as_number_sound : (v : Value) (n : ℕ) → as_number v ≡ some n → v ≡ number n
as_number_sound (text s) n h = cc
as_number_sound (number m) n h = cc
as_number_sound (flag b) n h = cc
as_number_sound (strings ss) n h = cc
as_number_sound (nested fs) n h = cc

as_flag_sound : (v : Value) (b : Bool) → as_flag v ≡ some b → v ≡ flag b
as_flag_sound (text s) b h = cc
as_flag_sound (number m) b h = cc
as_flag_sound (flag c) b h = cc
as_flag_sound (strings ss) b h = cc
as_flag_sound (nested fs) b h = cc

as_text_sound : (v : Value) (s : Bytes) → as_text v ≡ some s → v ≡ text s
as_text_sound (text t) s h = cc
as_text_sound (number m) s h = cc
as_text_sound (flag b) s h = cc
as_text_sound (strings ss) s h = cc
as_text_sound (nested fs) s h = cc

same_flag_sound : (a b : Bool) → same_flag a b ≡ true → a ≡ b
unfolding same_flag
same_flag_sound true b h = sym h
same_flag_sound false true h = cc
same_flag_sound false false h = refl

same_flag_refl : (a : Bool) → same_flag a a ≡ true
unfolding same_flag
same_flag_refl true = refl
same_flag_refl false = refl

config_get-found :
    {T : Type 0} (get_if : Value → Option T) (config : Config) (key : Bytes) (v : Value)
    → find key config ≡ some v
    → (t : T) → get_if v ≡ some t
    → config_get get_if config key ≡ gives t
unfolding config_get
config_get-found get_if config key v e t g = rw (e, config_get) (rw g refl)

config_get-gives :
    {T : Type 0} (get_if : Value → Option T) (config : Config) (key : Bytes) (t : T)
    → config_get get_if config key ≡ gives t
    → (v : Value) × (find key config ≡ some v) × (get_if v ≡ some t)
unfolding config_get
config_get-gives {T} get_if config key t h = elim (Option-cases (find key config)) [
  | inl e ↦ absurd (cc (rw (e, config_get) at h))
  | inr (v, e) ↦ elim (Option-cases (get_if v)) [
    | inl g ↦ absurd (cc (rw (g) at (rw (e, config_get) at h)))
    | inr (u, g) ↦
        (v, e, g ∙ (let i : some u ≡ some t = cc (rw (g) at (rw (e, config_get) at h)) in i))
  ]
]

-- The value of a tag, by the kind of the text: the three branches of the comparison.
number_matches :
    (yaml : Yaml) (tags : Config) (key value : Bytes)
    → is_number value ≡ true
    → tag_matches yaml tags key value ≡ gives true
    → Agrees yaml tags (key, value)
unfolding tag_matches scalar_value
number_matches yaml tags key value t h =
    go (config_get as_number tags key) refl (yaml.as_uint64 value) refl
  where
    go :
        (r : Outcome ConfigError ℕ)
        → config_get as_number tags key ≡ r
        → (o : Option ℕ) → yaml.as_uint64 value ≡ o
        → Agrees yaml tags (key, value)
    go (fails e) c o u = absurd (cc (rw (c) at (rw (t, tag_matches) at h)))
    go (gives n) c none u = absurd (cc (rw (u) at (rw (c) at (rw (t, tag_matches) at h))))
    go (gives n) c (some m) u =
        let (v, e, g) = config_get-gives as_number tags key n c in
        let i : (n == m) ≡ true = cc (rw (u) at (rw (c) at (rw (t, tag_matches) at h))) in
        (
          v,
          e,
          rw (t, scalar_value)
              (rw u (
                ap (λ j. gives (number j)) (sym (nat_sound n m i))
                ∙ ap gives (sym (as_number_sound v n g)))),
        )

flag_matches :
    (yaml : Yaml) (tags : Config) (key value : Bytes)
    → is_number value ≡ false
    → is_truth value ≡ true
    → tag_matches yaml tags key value ≡ gives true
    → Agrees yaml tags (key, value)
unfolding tag_matches scalar_value
flag_matches yaml tags key value f t h =
    go (config_get as_flag tags key) refl (yaml.as_bool value) refl
  where
    go :
        (r : Outcome ConfigError Bool)
        → config_get as_flag tags key ≡ r
        → (o : Option Bool) → yaml.as_bool value ≡ o
        → Agrees yaml tags (key, value)
    go (fails e) c o u = absurd (cc (rw (c) at (rw (t) at (rw (f, tag_matches) at h))))
    go (gives b) c none u =
        absurd (cc (rw (u) at (rw (c) at (rw (t) at (rw (f, tag_matches) at h)))))
    go (gives b) c (some m) u =
        let (v, e, g) = config_get-gives as_flag tags key b c in
        let i : same_flag b m ≡ true =
          cc (rw (u) at (rw (c) at (rw (t) at (rw (f, tag_matches) at h)))) in
        (
          v,
          e,
          rw (f, scalar_value)
              (rw t (
                rw u (
                  ap (λ j. gives (flag j)) (sym (same_flag_sound b m i))
                  ∙ ap gives (sym (as_flag_sound v b g))))),
        )

text_matches :
    (yaml : Yaml) (tags : Config) (key value : Bytes)
    → is_number value ≡ false
    → is_truth value ≡ false
    → tag_matches yaml tags key value ≡ gives true
    → Agrees yaml tags (key, value)
unfolding tag_matches scalar_value
text_matches yaml tags key value f f' h = go (config_get as_text tags key) refl
  where
    go :
        (r : Outcome ConfigError Bytes)
        → config_get as_text tags key ≡ r
        → Agrees yaml tags (key, value)
    go (fails e) c = absurd (cc (rw (c) at (rw (f') at (rw (f, tag_matches) at h))))
    go (gives s) c =
        let (v, e, g) = config_get-gives as_text tags key s c in
        let i : same_bytes s value ≡ true =
          cc (rw (c) at (rw (f') at (rw (f, tag_matches) at h))) in
        (
          v,
          e,
          rw (f, scalar_value)
              (rw f' (
                ap (λ j. gives (text j)) (sym (same_bytes_sound s value i))
                ∙ ap gives (sym (as_text_sound v s g)))),
        )

matches-Agrees :
    (yaml : Yaml) (tags : Config) (key value : Bytes)
    → tag_matches yaml tags key value ≡ gives true
    → Agrees yaml tags (key, value)
matches-Agrees yaml tags key value h = elim (Bool-cases (is_number value)) [
  | inl t ↦ number_matches yaml tags key value t h
  | inr f ↦ elim (Bool-cases (is_truth value)) [
    | inl t ↦ flag_matches yaml tags key value f t h
    | inr f' ↦ text_matches yaml tags key value f f' h
  ]
]

Agrees-matches :
    (yaml : Yaml) (tags : Config) (key value : Bytes)
    → Agrees yaml tags (key, value)
    → tag_matches yaml tags key value ≡ gives true
unfolding tag_matches scalar_value
Agrees-matches yaml tags key value (v, e, s) = elim (Bool-cases (is_number value)) [
  | inl t ↦ elim (Option-cases (yaml.as_uint64 value)) [
    | inl u ↦ absurd (cc (rw (u) at (rw (t, scalar_value) at s)))
    | inr (m, u) ↦
        let i : v ≡ number m = cc (rw (u) at (rw (t, scalar_value) at s)) in
        rw (t, tag_matches)
          (rw (config_get-found as_number tags key v e m (ap as_number i))
            (rw u (ap gives (nat_refl m))))
  ]
  | inr f ↦ elim (Bool-cases (is_truth value)) [
    | inl t ↦ elim (Option-cases (yaml.as_bool value)) [
      | inl u ↦ absurd (cc (rw (u) at (rw (t) at (rw (f, scalar_value) at s))))
      | inr (b, u) ↦
          let i : v ≡ flag b = cc (rw (u) at (rw (t) at (rw (f, scalar_value) at s))) in
          rw (f, tag_matches)
            (rw t (
              rw (config_get-found as_flag tags key v e b (ap as_flag i))
                (rw u (ap gives (same_flag_refl b)))))
    ]
    | inr f' ↦
        let i : v ≡ text value = cc (rw (f') at (rw (f, scalar_value) at s)) in
        rw (f, tag_matches)
          (rw f' (
            rw (config_get-found as_text tags key v e value (ap as_text i))
              (ap gives (same_bytes_refl value))))
  ]
]

exists_held :
    (tags : Config) (key : Bytes) (v : Value)
    → find key tags ≡ some v
    → config_exists tags key ≡ true
unfolding config_exists
exists_held tags key v e = rw e refl

exists_absent :
    (tags : Config) (key : Bytes) → find key tags ≡ none → config_exists tags key ≡ false
unfolding config_exists
exists_absent tags key e = rw e refl

met_unfold :
    (yaml : Yaml) (tags : Config) (key value : Bytes)
    → met yaml tags (key, value)
      ≡ (if not (config_exists tags key) then gives false else tag_matches yaml tags key value)
unfolding tag_met selector_pair tag_pair as_string
met_unfold yaml tags key value = refl

pub met-Agrees :
    (yaml : Yaml) (tags : Config) (p : Bytes × Bytes)
    → met yaml tags p ≡ gives true
    → Agrees yaml tags p
met-Agrees yaml tags (key, value) h = elim (Option-cases (find key tags)) [
  | inl e ↦
      absurd (cc (rw (exists_absent tags key e) at (sym (met_unfold yaml tags key value) ∙ h)))
  | inr (v, e) ↦
      matches-Agrees yaml tags key value
        (rw (exists_held tags key v e) at (sym (met_unfold yaml tags key value) ∙ h))
]

pub Agrees-met :
    (yaml : Yaml) (tags : Config) (p : Bytes × Bytes)
    → Agrees yaml tags p
    → met yaml tags p ≡ gives true
Agrees-met yaml tags (key, value) (v, e, s) =
    met_unfold yaml tags key value
    ∙ rw (exists_held tags key v e) (Agrees-matches yaml tags key value (v, e, s))
