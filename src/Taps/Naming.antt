-- ===== src/Taps/Naming.antt =====
-- The taps that `get_input_taps_name` of src/Taps.cpp gives to a policy.
use pktvisor.Prelude.{
  ◌≤◌, ◌≡◌, refl, subst, ◌⊎◌, inl, inr, Bool, true, false, Option, none, some, List, [], ◌∷◌,
  if◌then◌else◌, ◌==◌, length, All, All-map, Bool-cases, arith, find,
}
use pktvisor.Metrics.Utf8.{Bytes}
use pktvisor.Serializer.{same_bytes, bytes_key}
use pktvisor.Modules.{module_exists, count}
use pktvisor.Config.{Outcome, fails, gives}
use pktvisor.Config.Yaml.{Node, null, scalar, sequence, mapping, Nodes, Pairs, Yaml}
use pktvisor.Taps.{
  Tap, TapMap, child, all_key, any_key, tap_key, tap_selector_key, matching, select_taps,
  apply_selector, named_tap, get_input_taps_name,
}
use pktvisor.Taps.Selector.{SelectorError, tags_match_selector_yaml}

-- Every tap is in the store under its own name.
abbrev pub Named : TapMap → Type 0
Named taps = All (λ (e : Bytes × Tap). e.0 ≡ e.1.name) taps

abbrev pub Held : TapMap → Bytes → Type 0
Held taps name = (t : Tap) × (find name taps ≡ some t)

-- Names that a policy can use: one at least, each of a tap.
abbrev pub Usable : TapMap → List Bytes → Type 0
Usable taps names = (1 ≤ length names) × All (Held taps) names

Held-cons :
    (k : Bytes) (t : Tap) (taps : TapMap) (name : Bytes)
    → Held taps name
    → Held ((k, t) ∷ taps) name
unfolding find
Held-cons k t taps name (u, h) = elim (Bool-cases (same_bytes k name)) [
  | inl e ↦ (t, rw (e, find) refl)
  | inr f ↦ (u, rw (f, find) h)
]

Held-head : (k : Bytes) (t : Tap) (taps : TapMap) → Held ((k, t) ∷ taps) k
unfolding find
Held-head k t taps = (t, rw (bytes_key.same_refl k, find) refl)

All-Held : (taps : TapMap) → Named taps → All (λ (e : Bytes × Tap). Held taps e.1.name) taps
All-Held [] n = tt
All-Held ((k, t) ∷ taps) n = (
  subst (Held ((k, t) ∷ taps)) n.0 (Held-head k t taps),
  All-map (λ (e : Bytes × Tap). Held taps e.1.name)
      (λ (e : Bytes × Tap). Held ((k, t) ∷ taps) e.1.name) (λ e. Held-cons k t taps e.1.name) taps
      (All-Held taps n.1),
)

matches-cases :
    (r : Outcome SelectorError Bool)
    → ((e : SelectorError) × (r ≡ fails e)) ⊎ ((b : Bool) × (r ≡ gives b))
matches-cases (fails e) = inl (e, refl)
matches-cases (gives b) = inr (b, refl)

names-cases :
    (r : Outcome SelectorError (List Bytes))
    → ((e : SelectorError) × (r ≡ fails e)) ⊎ ((ns : List Bytes) × (r ≡ gives ns))
names-cases (fails e) = inl (e, refl)
names-cases (gives ns) = inr (ns, refl)

module _ (yaml : Yaml) (items : Nodes) (all : Bool) (taps : TapMap) where
  matching-Held :
      (rest : TapMap) (names : List Bytes)
      → All (λ (e : Bytes × Tap). Held taps e.1.name) rest
      → matching yaml items all rest ≡ gives names
      → All (Held taps) names
  unfolding matching
  matching-Held [] names h g = subst (All (Held taps)) (let e : [] ≡ names = cc in e) tt
  matching-Held ((k, t) ∷ rest) names h g =
      elim (matches-cases (tags_match_selector_yaml yaml t.tags all items)) [
        | inl (e, m) ↦ absurd (cc (rw (m, matching) at g))
        | inr (b, m) ↦ elim (names-cases (matching yaml items all rest)) [
          | inl (e, n) ↦ absurd (cc (rw (n) at (rw (m, matching) at g)))
          | inr (ns, n) ↦
              let i : (if b then t.name ∷ ns else ns) ≡ names =
                cc (rw (n) at (rw (m, matching) at g)) in
              subst (All (Held taps)) i (choose b ns (matching-Held rest ns h.1 n) h.0)
        ]
      ]
    where
      choose :
          (b : Bool) (ns : List Bytes)
          → All (Held taps) ns
          → Held taps t.name
          → All (Held taps) (if b then t.name ∷ ns else ns)
      choose true ns hs h' = (h', hs)
      choose false ns hs h' = hs

  select_taps-Usable :
      (names : List Bytes)
      → Named taps
      → select_taps yaml items all taps ≡ gives names
      → Usable taps names
  unfolding select_taps
  select_taps-Usable names n h = go (matching yaml items all taps) refl
    where
      go :
          (r : Outcome SelectorError (List Bytes))
          → matching yaml items all taps ≡ r
          → Usable taps names
      go (fails e) m = absurd (cc (rw (m, select_taps) at h))
      go (gives []) m = absurd (cc (rw (m, select_taps) at h))
      go (gives (x ∷ xs)) m =
          let i : x ∷ xs ≡ names = cc (rw (m, select_taps) at h) in
          subst (Usable taps) i (omega arith, matching-Held taps (x ∷ xs) (All-Held taps n) m)

apply_selector-Usable :
    (yaml : Yaml) (taps : TapMap) (node : Node) (names : List Bytes)
    → Named taps
    → apply_selector yaml taps node ≡ gives names
    → Usable taps names
unfolding apply_selector
apply_selector-Usable yaml taps null names n h = absurd (cc h)
apply_selector-Usable yaml taps (scalar s) names n h = absurd (cc h)
apply_selector-Usable yaml taps (sequence items) names n h = absurd (cc h)
apply_selector-Usable yaml taps (mapping body) names n h =
    go (child all_key body) refl (child any_key body) refl
  where
    go :
        (a : Option Node)
        → child all_key body ≡ a
        → (b : Option Node) → child any_key body ≡ b
        → Usable taps names
    go none a none b = absurd (cc (rw (b) at (rw (a, apply_selector) at h)))
    go none a (some null) b = absurd (cc (rw (b) at (rw (a, apply_selector) at h)))
    go none a (some (scalar s)) b = absurd (cc (rw (b) at (rw (a, apply_selector) at h)))
    go none a (some (mapping m)) b = absurd (cc (rw (b) at (rw (a, apply_selector) at h)))
    go none a (some (sequence items)) b =
        select_taps-Usable yaml items false taps names n (rw (b) at (rw (a, apply_selector) at h))
    go (some x) a (some y) b = absurd (cc (rw (b) at (rw (a, apply_selector) at h)))
    go (some null) a none b = absurd (cc (rw (b) at (rw (a, apply_selector) at h)))
    go (some (scalar s)) a none b = absurd (cc (rw (b) at (rw (a, apply_selector) at h)))
    go (some (mapping m)) a none b = absurd (cc (rw (b) at (rw (a, apply_selector) at h)))
    go (some (sequence items)) a none b =
        select_taps-Usable yaml items true taps names n (rw (b) at (rw (a, apply_selector) at h))

count_one : (o : Option Tap) → (count o == 1) ≡ true → (t : Tap) × (o ≡ some t)
count_one none h = absurd (cc h)
count_one (some t) h = (t, refl)

named_tap-Usable :
    (taps : TapMap) (node : Node) (names : List Bytes)
    → named_tap taps node ≡ gives names
    → Usable taps names
unfolding named_tap module_exists
named_tap-Usable taps null names h = absurd (cc h)
named_tap-Usable taps (sequence items) names h = absurd (cc h)
named_tap-Usable taps (mapping body) names h = absurd (cc h)
named_tap-Usable taps (scalar s) names h = elim (Bool-cases (count (find s taps) == 1)) [
  | inr f ↦ absurd (cc (rw (f) at h))
  | inl t ↦
      let i : s ∷ [] ≡ names = cc (rw (t) at h) in
      subst (Usable taps) i (omega arith, (count_one (find s taps) t, tt))
]

-- Where an input is given taps, they are one at least, and each is in the store.
pub input_taps-Usable :
    (yaml : Yaml) (taps : TapMap) (input : Pairs) (names : List Bytes)
    → Named taps
    → get_input_taps_name yaml taps input ≡ gives names
    → Usable taps names
unfolding get_input_taps_name
input_taps-Usable yaml taps input names n h =
    go (child tap_key input) refl (child tap_selector_key input) refl
  where
    go :
        (a : Option Node)
        → child tap_key input ≡ a
        → (b : Option Node) → child tap_selector_key input ≡ b
        → Usable taps names
    go none a none b = absurd (cc (rw (b) at (rw (a, get_input_taps_name) at h)))
    go none a (some s) b =
        apply_selector-Usable yaml taps s names n (rw (b) at (rw (a, get_input_taps_name) at h))
    go (some t) a none b =
        named_tap-Usable taps t names (rw (b) at (rw (a, get_input_taps_name) at h))
    go (some t) a (some s) b = absurd (cc (rw (b) at (rw (a, get_input_taps_name) at h)))
