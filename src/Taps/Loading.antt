-- ===== src/Taps/Loading.antt =====
-- What a load of src/Taps.cpp leaves, whether it throws or not.
use pktvisor.Prelude.{
  suc, ◌≡◌, refl, sym, subst, ap, ◌∙◌, ◌⊎◌, inl, inr, Bool, true, false, false≢true, Option, none,
  some, List, [], ◌∷◌, ◌++◌, append-nil, append_assoc, if◌then◌else◌, ltb, map, Bool-cases,
  Option-cases, arith, same-flip, find, All, IsUnique,
}
use pktvisor.Metrics.Utf8.{Bytes}
use pktvisor.Serializer.{same_bytes, bytes_key}
use pktvisor.Modules.{module_add, already_exists}
use pktvisor.Modules.Store.{find-snoc}
use pktvisor.Config.{Config, Outcome, fails, gives}
use pktvisor.Config.Yaml.{Node, null, scalar, sequence, mapping, Pairs, stop, pair}
use pktvisor.Taps.{
  Tap, TapMap, TapError, not_available, config_not_map, tags_not_map, config_key, tags_key,
  set_child, child, input_type_key, is_module_name, make_tap, Plugins, Loaded, parse_tap, load_each,
  load, size, not_added,
}

abbrev pub named : List Tap → TapMap
named taps = map (λ (t : Tap). (t.name, t)) taps

snoc-IsUnique :
    (taps : TapMap) (tap : Tap)
    → IsUnique taps
    → find tap.name taps ≡ none
    → IsUnique (taps ++ (tap.name, tap) ∷ [])
unfolding find
snoc-IsUnique [] tap u h = (refl, tt)
snoc-IsUnique ((k, t) ∷ taps) tap u h = elim (Bool-cases (same_bytes k tap.name)) [
  | inl e ↦ absurd (cc (rw (e, find) at h))
  | inr f ↦
      let away = find-snoc (λ (s : Tap). s.name) k tap.name tap taps u.0 in
      (
        away ∙ ap (λ b. if b then some tap else none) (same-flip k tap.name f),
        snoc-IsUnique taps tap u.1 (rw (f, find) at h),
      )
]

parse-cases :
    (r : Outcome TapError (Option Tap))
    → ((e : TapError) × (r ≡ fails e)) ⊎ ((r ≡ gives none) ⊎ ((t : Tap) × (r ≡ gives (some t))))
parse-cases (fails e) = inl (e, refl)
parse-cases (gives none) = inr (inl refl)
parse-cases (gives (some t)) = inr (inr (t, refl))

-- The name of a tap that was made.
set-cases :
    (r : Outcome TapError Config)
    → ((e : TapError) × (r ≡ fails e)) ⊎ ((c : Config) × (r ≡ gives c))
set-cases (fails e) = inl (e, refl)
set-cases (gives c) = inr (c, refl)

made_name : Outcome TapError (Option Tap) → Bytes
made_name (gives (some tap)) = tap.name
made_name _ = []

make_tap-named :
    (plugins : Plugins) (strict : Bool) (name type : Bytes) (body : Pairs) (tap : Tap)
    → make_tap plugins strict name type body ≡ gives (some tap)
    → is_module_name tap.name ≡ true
unfolding make_tap made_name
make_tap-named plugins strict name type body tap h = elim (Bool-cases (plugins.has_input type)) [
  | inr f ↦ absurd (skipped strict (rw (f, make_tap) at h))
  | inl t ↦ elim (Bool-cases (is_module_name name)) [
    | inr f ↦ absurd (cc (rw (t, make_tap) at (rw (f, make_tap) at h)))
    | inl n ↦ elim (set-cases (set_child plugins.yaml config_not_map config_key body)) [
      | inl (e, q) ↦ absurd (cc (rw (t, n, q, make_tap) at h))
      | inr (c, q) ↦ elim (set-cases (set_child plugins.yaml tags_not_map tags_key body)) [
        | inl (e, r) ↦ absurd (cc (rw (t, n, q, r, make_tap) at h))
        | inr (g, r) ↦
            subst (λ k. is_module_name k ≡ true) (ap made_name (rw (t, n, q, r, make_tap) at h)) n
      ]
    ]
  ]
]
  where
    skipped :
        (b : Bool) → (if b then fails (not_available type) else gives none) ≡ gives (some tap) → ⊥
    skipped true e = cc
    skipped false e = cc

parse_tap-named :
    (plugins : Plugins) (strict : Bool) (key node : Node) (tap : Tap)
    → parse_tap plugins strict key node ≡ gives (some tap)
    → is_module_name tap.name ≡ true
unfolding parse_tap
parse_tap-named plugins strict (scalar name) (mapping body) tap h =
    typed (child input_type_key body) refl
  where
    typed : (o : Option Node) → child input_type_key body ≡ o → is_module_name tap.name ≡ true
    typed none e = absurd (cc (rw (e, parse_tap) at h))
    typed (some (scalar type)) e =
        make_tap-named plugins strict name type body tap (rw (e, parse_tap) at h)
    typed (some null) e = absurd (cc (rw (e, parse_tap) at h))
    typed (some (sequence ns)) e = absurd (cc (rw (e, parse_tap) at h))
    typed (some (mapping ps)) e = absurd (cc (rw (e, parse_tap) at h))
parse_tap-named plugins strict (scalar name) null tap h = absurd (cc h)
parse_tap-named plugins strict (scalar name) (scalar v) tap h = absurd (cc h)
parse_tap-named plugins strict (scalar name) (sequence ns) tap h = absurd (cc h)
parse_tap-named plugins strict null node tap h = absurd (cc h)
parse_tap-named plugins strict (sequence ns) node tap h = absurd (cc h)
parse_tap-named plugins strict (mapping ps) node tap h = absurd (cc h)

add_old :
    (taps : TapMap) (tap old : Tap)
    → find tap.name taps ≡ some old
    → module_add (λ (t : Tap). t.name) taps tap ≡ (taps, some already_exists)
unfolding module_add
add_old taps tap old f = rw (f, module_add) refl

add_new :
    (taps : TapMap) (tap : Tap)
    → find tap.name taps ≡ none
    → module_add (λ (t : Tap). t.name) taps tap ≡ (taps ++ (tap.name, tap) ∷ [], none)
unfolding module_add
add_new taps tap f = rw (f, module_add) refl

-- The taps after a load that began with `taps` and had `result`.
abbrev Adds : TapMap → List Tap → Loaded → Type 0
Adds taps result r =
    (added : List Tap) × (r.taps ≡ taps ++ named added)
    × IsUnique r.taps
    × All (λ (t : Tap). is_module_name t.name ≡ true) added
    × (r.thrown ≡ none → r.result ≡ result ++ added)

module _ (plugins : Plugins) (strict : Bool) (key : Node) (node : Node) (rest : Pairs)
    (taps : TapMap) (result : List Tap) where
  step_fails :
      (e : TapError)
      → parse_tap plugins strict key node ≡ fails e
      → load_each plugins strict taps result (pair key node rest)
        ≡ record { taps = taps; result = result; thrown = some e }
  unfolding load_each
  step_fails e p = rw (p, load_each) refl

  step_skips :
      parse_tap plugins strict key node ≡ gives none
      → load_each plugins strict taps result (pair key node rest)
        ≡ load_each plugins strict taps result rest
  unfolding load_each
  step_skips p = rw (p, load_each) refl

  step_exists :
      (tap old : Tap)
      → parse_tap plugins strict key node ≡ gives (some tap)
      → find tap.name taps ≡ some old
      → load_each plugins strict taps result (pair key node rest) ≡ record {
        taps = taps;
        result = result ++ tap ∷ [];
        thrown = some (not_added already_exists);
      }
  unfolding load_each
  step_exists tap old p f =
      rw (p, load_each) (rw (add_old taps tap old f) (rw (add_old taps tap old f) refl))

  step_adds :
      (tap : Tap)
      → parse_tap plugins strict key node ≡ gives (some tap)
      → find tap.name taps ≡ none
      → load_each plugins strict taps result (pair key node rest)
        ≡ load_each plugins strict (taps ++ (tap.name, tap) ∷ []) (result ++ tap ∷ []) rest
  unfolding load_each
  step_adds tap p f = rw (p, load_each) (rw (add_new taps tap f) (rw (add_new taps tap f) refl))

load_each-Adds :
    (plugins : Plugins) (strict : Bool) (taps : TapMap) (result : List Tap) (pairs : Pairs)
    → IsUnique taps
    → Adds taps result (load_each plugins strict taps result pairs)
unfolding load_each
load_each-Adds plugins strict taps result stop u =
    ([], sym (append-nil taps), u, tt, λ h. sym (append-nil result))
load_each-Adds plugins strict taps result (pair key node rest) u =
    elim (parse-cases (parse_tap plugins strict key node)) [
      | inl (e, p) ↦
          subst (Adds taps result) (sym (step_fails plugins strict key node rest taps result e p))
            ([], sym (append-nil taps), u, tt, λ h. absurd (cc h))
      | inr (inl p) ↦
          subst (Adds taps result) (sym (step_skips plugins strict key node rest taps result p))
            (load_each-Adds plugins strict taps result rest u)
      | inr (inr (tap, p)) ↦ elim (Option-cases (find tap.name taps)) [
        | inr (old, f) ↦
            subst (Adds taps result)
              (sym (step_exists plugins strict key node rest taps result tap old p f))
              ([], sym (append-nil taps), u, tt, λ h. absurd (cc h))
        | inl f ↦
            let r =
              load_each-Adds plugins strict (taps ++ (tap.name, tap) ∷ []) (result ++ tap ∷ []) rest
                (snoc-IsUnique taps tap u f) in
            subst (Adds taps result)
              (sym (step_adds plugins strict key node rest taps result tap p f))
              (
                tap ∷ r.0,
                r.1 ∙ append_assoc taps ((tap.name, tap) ∷ []) (named r.0),
                r.2,
                (parse_tap-named plugins strict key node tap p, r.3),
                λ h. r.4 h ∙ append_assoc result (tap ∷ []) r.0,
              )
      ]
    ]

-- One pair that throws has changed nothing.
abbrev Unchanged : TapMap → Loaded → Type 0
Unchanged taps r = (e : TapError) → r.thrown ≡ some e → r.taps ≡ taps

one-Unchanged :
    (plugins : Plugins) (strict : Bool) (taps : TapMap) (result : List Tap) (pairs : Pairs)
    → ltb 1 (size pairs) ≡ false
    → Unchanged taps (load_each plugins strict taps result pairs)
unfolding load_each
one-Unchanged plugins strict taps result stop l = λ e h. refl
one-Unchanged plugins strict taps result (pair key node (pair k n rest)) l =
    absurd
      (let more : ltb 1 (suc (suc (size rest))) ≡ true = ground arith in false≢true (sym l ∙ more))
one-Unchanged plugins strict taps result (pair key node stop) l =
    elim (parse-cases (parse_tap plugins strict key node)) [
      | inl (e, p) ↦
          subst (Unchanged taps) (sym (step_fails plugins strict key node stop taps result e p))
            (λ e' h. refl)
      | inr (inl p) ↦
          subst (Unchanged taps) (sym (step_skips plugins strict key node stop taps result p))
            (λ e' h. refl)
      | inr (inr (tap, p)) ↦ elim (Option-cases (find tap.name taps)) [
        | inr (old, f) ↦
            subst (Unchanged taps)
              (sym (step_exists plugins strict key node stop taps result tap old p f))
              (λ e' h. refl)
        | inl f ↦
            subst (Unchanged taps)
              (sym (step_adds plugins strict key node stop taps result tap p f))
              (λ e' h. absurd (cc h))
      ]
    ]

-- After a load, whether it throws or not, the store is the one before it and then taps under their
-- own names, all of them names that a module may have, and no name twice if none was before; if it
-- did not throw, those are the taps it returns. A load of a single tap that throws changes nothing.
pub load_adds :
    (plugins : Plugins) (strict single : Bool) (taps : TapMap) (pairs : Pairs)
    → IsUnique taps
    → let r = load plugins strict single taps pairs in
      ((added : List Tap) × (r.taps ≡ taps ++ named added)
        × IsUnique r.taps
        × All (λ (t : Tap). is_module_name t.name ≡ true) added
        × (r.thrown ≡ none → r.result ≡ added))
      × (single ≡ true → (e : TapError) → r.thrown ≡ some e → r.taps ≡ taps)
unfolding load
load_adds plugins strict false taps pairs u =
    (load_each-Adds plugins strict taps [] pairs u, λ s. absurd (cc s))
load_adds plugins strict true taps pairs u = elim (Bool-cases (ltb 1 (size pairs))) [
  | inl t ↦ rw t (([], sym (append-nil taps), u, tt, λ h. absurd (cc h)), λ s e h. refl)
  | inr f ↦ rw f (
    load_each-Adds plugins strict taps [] pairs u,
    λ s. one-Unchanged plugins strict taps [] pairs f,
  )
]
