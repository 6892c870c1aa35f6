-- ===== src/Taps/Matching.antt =====
-- Which taps a selector of src/Taps.cpp matches, against the values that YAML gives.
use pktvisor.Prelude.{
  ◌≡◌, refl, sym, ap, ◌∙◌, ◌↔◌, ◌⊎◌, inl, inr, Bool, true, false, List, [], ◌∷◌, ◌≤◌, length, All,
  arith,
}
use pktvisor.Metrics.Utf8.{Bytes}
use pktvisor.Serializer.{bytes_key}
use pktvisor.Config.{Outcome, fails, gives, Config}
use pktvisor.Config.Yaml.{Yaml}
use pktvisor.Taps.Agreement.{Agrees, selector, met, met-Agrees, Agrees-met}
use pktvisor.Taps.Selector.{SelectorError, match_each, tags_match_selector_yaml}

-- A predicate that holds at some element.
abbrev pub Some : (Bytes × Bytes → Type 0) → List (Bytes × Bytes) → Type 0
Some P [] = ⊥
Some P (p ∷ ps) = P p ⊎ Some P ps

-- The item throws nothing.
abbrev pub Comparable : Yaml → Config → Bytes × Bytes → Type 0
Comparable yaml tags p = (b : Bool) × (met yaml tags p ≡ gives b)

verdict :
    (r : Outcome SelectorError Bool)
    → ((e : SelectorError) × (r ≡ fails e)) ⊎ ((r ≡ gives true) ⊎ (r ≡ gives false))
verdict (fails e) = inl (e, refl)
verdict (gives true) = inr (inl refl)
verdict (gives false) = inr (inr refl)

module _ (yaml : Yaml) (tags : Config) (p : Bytes × Bytes) (ps : List (Bytes × Bytes)) where
  next_fails :
      (all b : Bool) (e : SelectorError)
      → met yaml tags p ≡ fails e
      → match_each yaml tags all b (selector (p ∷ ps)) ≡ fails e
  unfolding match_each
  next_fails all b e m = rw (m, match_each) refl

  next_hit :
      (all b : Bool)
      → met yaml tags p ≡ gives true
      → match_each yaml tags all b (selector (p ∷ ps)) ≡ match_each yaml tags all true (selector ps)
  unfolding match_each
  next_hit all b m = rw (m, match_each) refl

  next_miss_all :
      (b : Bool)
      → met yaml tags p ≡ gives false
      → match_each yaml tags true b (selector (p ∷ ps)) ≡ gives false
  unfolding match_each
  next_miss_all b m = rw (m, match_each) refl

  next_miss_any :
      (b : Bool)
      → met yaml tags p ≡ gives false
      → match_each yaml tags false b (selector (p ∷ ps))
        ≡ match_each yaml tags false b (selector ps)
  unfolding match_each
  next_miss_any b m = rw (m, match_each) refl

module _ (yaml : Yaml) (tags : Config) where
  every_found :
      (b : Bool) (ps : List (Bytes × Bytes))
      → match_each yaml tags true b (selector ps) ≡ gives true
      → All (Agrees yaml tags) ps × ((b ≡ true) ⊎ (1 ≤ length ps))
  unfolding match_each
  every_found true [] h = (tt, inl refl)
  every_found false [] h = absurd (cc h)
  every_found b (p ∷ ps) h = elim (verdict (met yaml tags p)) [
    | inl (e, m) ↦ absurd (cc (next_fails yaml tags p ps true b e m, h))
    | inr (inl m) ↦
        let rest = every_found true ps (sym (next_hit yaml tags p ps true b m) ∙ h) in
        ((met-Agrees yaml tags p m, rest.0), inr (omega arith))
    | inr (inr m) ↦ absurd (cc (next_miss_all yaml tags p ps b m, h))
  ]

  every_true :
      (ps : List (Bytes × Bytes))
      → All (Agrees yaml tags) ps
      → match_each yaml tags true true (selector ps) ≡ gives true
  unfolding match_each
  every_true [] h = refl
  every_true (p ∷ ps) h =
      next_hit yaml tags p ps true true (Agrees-met yaml tags p h.0) ∙ every_true ps h.1

  any_found :
      (b : Bool) (ps : List (Bytes × Bytes))
      → match_each yaml tags false b (selector ps) ≡ gives true
      → All (Comparable yaml tags) ps × ((b ≡ true) ⊎ Some (Agrees yaml tags) ps)
  unfolding match_each
  any_found true [] h = (tt, inl refl)
  any_found false [] h = absurd (cc h)
  any_found b (p ∷ ps) h = elim (verdict (met yaml tags p)) [
    | inl (e, m) ↦ absurd (cc (next_fails yaml tags p ps false b e m, h))
    | inr (inl m) ↦
        let rest = any_found true ps (sym (next_hit yaml tags p ps false b m) ∙ h) in
        (((true, m), rest.0), inr (inl (met-Agrees yaml tags p m)))
    | inr (inr m) ↦
        let rest = any_found b ps (sym (next_miss_any yaml tags p ps b m) ∙ h) in
        (((false, m), rest.0), elim rest.1 [ inl t ↦ inl t | inr s ↦ inr (inr s) ])
  ]

  any_true :
      (b : Bool) (ps : List (Bytes × Bytes))
      → All (Comparable yaml tags) ps
      → (b ≡ true) ⊎ Some (Agrees yaml tags) ps
      → match_each yaml tags false b (selector ps) ≡ gives true
  unfolding match_each
  any_true b [] c (inl t) = ap gives t
  any_true b [] c (inr s) = absurd s
  any_true b (p ∷ ps) c s = elim (verdict (met yaml tags p)) [
    | inl (e, m) ↦ absurd (cc (m, c.0.1))
    | inr (inl m) ↦ next_hit yaml tags p ps false b m ∙ any_true true ps c.1 (inl refl)
    | inr (inr m) ↦ next_miss_any yaml tags p ps b m ∙ any_true b ps c.1 (left m s)
  ]
    where
      left :
          met yaml tags p ≡ gives false
          → (b ≡ true) ⊎ Some (Agrees yaml tags) (p ∷ ps)
          → (b ≡ true) ⊎ Some (Agrees yaml tags) ps
      left m (inl t) = inl t
      left m (inr (inl a)) = absurd (cc (m, Agrees-met yaml tags p a))
      left m (inr (inr a)) = inr a

  -- A selector of pairs of scalars, compared with the tags of a tap. Under `all` it matches exactly
  -- if it has a pair and the tap has every tag with the value that YAML gives the pair's text;
  -- under `any`, exactly if no comparison throws and the tap has one of the tags with that value.
  pub tags_match_exact :
      (ps : List (Bytes × Bytes))
      → ((tags_match_selector_yaml yaml tags true (selector ps) ≡ gives true)
          ↔ ((1 ≤ length ps) × All (Agrees yaml tags) ps))
        × ((tags_match_selector_yaml yaml tags false (selector ps) ≡ gives true)
            ↔ (All (Comparable yaml tags) ps × Some (Agrees yaml tags) ps))
  unfolding tags_match_selector_yaml match_each
  tags_match_exact ps = ((all_only, all_if ps), (any_only, λ h. any_true false ps h.0 (inr h.1)))
    where
      all_only :
          match_each yaml tags true false (selector ps) ≡ gives true
          → (1 ≤ length ps) × All (Agrees yaml tags) ps
      all_only h =
          let r = every_found false ps h in (elim r.1 [ inl t ↦ absurd (cc t) | inr l ↦ l ], r.0)

      all_if :
          (qs : List (Bytes × Bytes))
          → (1 ≤ length qs) × All (Agrees yaml tags) qs
          → match_each yaml tags true false (selector qs) ≡ gives true
      all_if [] h = absurd (let l : 1 ≤ 0 = h.0 in omega arith)
      all_if (p ∷ qs) h =
          next_hit yaml tags p qs true false (Agrees-met yaml tags p h.1.0) ∙ every_true qs h.1.1

      any_only :
          match_each yaml tags false false (selector ps) ≡ gives true
          → All (Comparable yaml tags) ps × Some (Agrees yaml tags) ps
      any_only h =
          let r = any_found false ps h in (r.0, elim r.1 [ inl t ↦ absurd (cc t) | inr s ↦ s ])
