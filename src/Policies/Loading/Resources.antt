-- ===== src/Policies/Loading/Resources.antt =====
-- The resources policies of the inputs that a load of src/Policies.cpp adds: wherever making them
-- throws, the load can be undone.
use pktvisor.Prelude.{
  ◌≡◌, refl, sym, subst, ap, ◌∙◌, inl, inr, true, false, List, [], ◌∷◌, ◌++◌, if◌then◌else◌, All,
  All-append, All-map, Bool-cases, Option-cases, false≢true, find,
}
use pktvisor.Metrics.Utf8.{Bytes}
use pktvisor.Serializer.{same_bytes, same_bytes_sound, bytes_key}
use pktvisor.Policies.{among, Policy, World, of_input, Faults, handler_fails, start_fails}
use pktvisor.Policies.Removal.{resources_name}
use pktvisor.Policies.Load.{
  Plan, Progress, threw, open_proxy, add_resources, create_resources, create_all,
}
use pktvisor.Policies.Stores.{among-snoc_same, among-snoc_other, among-snoc_held}
use pktvisor.Policies.Tracks.{IsResources, TracksPolicies}
use pktvisor.Policies.Tracks.Handlers.{TracksHandlers-add}
use pktvisor.Policies.Tracks.Undone.{names, Base, Undoable}
use pktvisor.Policies.Loading.Phases.{
  Whole, Ends, and_then-Ends, unpublished, Joined, open_proxy-Ends,
}

abbrev pub AllResources : List Bytes → List Bytes → List (Bytes × Policy) → Type 0
AllResources added resources ps =
    All (λ (e : Bytes × Policy). IsResources added resources e.0 e.1) ps

-- What the policies need besides the stores.
abbrev pub Prepared : Plan → List Bytes → Progress → Type 0
Prepared plan added p =
    (p.policy.id ≡ plan.id)
    × (p.policy.running ≡ false)
    × (p.added_resources_policies ≡ [])
    × Joined p
    × Whole plan p
    × (p.added_inputs ≡ added)
    × AllResources p.added_inputs (names p.resources_policies) p.resources_policies

abbrev pub Resourcing : World → Plan → List Bytes → World → Progress → Type 0
Resourcing w0 plan added w p = Base w0 plan [] w p × Prepared plan added p

pub Resourcing-Undoable :
    (w0 : World) (plan : Plan) (added : List Bytes) (w : World) (p : Progress)
    → Resourcing w0 plan added w p
    → Undoable w0 plan w p
Resourcing-Undoable w0 plan added w p (b, q) =
    ([], (q.0, (λ u. absurd (false≢true (sym q.1 ∙ u))), λ u. refl), b)

names-snoc :
    (ps : List (Bytes × Policy)) (n : Bytes) (q : Policy)
    → names (ps ++ (n, q) ∷ []) ≡ names ps ++ n ∷ []
names-snoc [] n q = refl
names-snoc ((k, r) ∷ ps) n q = ap (λ l. k ∷ l) (names-snoc ps n q)

named_same :
    (ps : List (Bytes × Policy)) (n : Bytes) (q : Policy)
    → among n (names (ps ++ (n, q) ∷ [])) ≡ true
named_same ps n q = ap (among n) (names-snoc ps n q) ∙ among-snoc_same n (names ps)

named_held :
    (ps : List (Bytes × Policy)) (n : Bytes) (q : Policy) (k : Bytes)
    → among k (names ps) ≡ true
    → among k (names (ps ++ (n, q) ∷ [])) ≡ true
named_held ps n q k h = ap (among k) (names-snoc ps n q) ∙ among-snoc_held k n (names ps) h

named_other :
    (ps : List (Bytes × Policy)) (n : Bytes) (q : Policy) (k : Bytes)
    → same_bytes n k ≡ false
    → among k (names (ps ++ (n, q) ∷ [])) ≡ among k (names ps)
named_other ps n q k h = ap (among k) (names-snoc ps n q) ∙ among-snoc_other k n (names ps) h

widen_resources :
    (added before after : List Bytes) (ps : List (Bytes × Policy))
    → ((k : Bytes) → among k before ≡ true → among k after ≡ true)
    → AllResources added before ps
    → AllResources added after ps
widen_resources added before after ps wider =
    All-map (λ (e : Bytes × Policy). IsResources added before e.0 e.1)
      (λ (e : Bytes × Policy). IsResources added after e.0 e.1)
      (λ e (r : IsResources added before e.0 e.1). (
        r.0,
        All-map (λ m. among m before ≡ true) (λ m. among m after ≡ true) wider e.1.modules r.1,
        r.2,
      ))
      ps

module _ (w0 : World) (faults : Faults) (plan : Plan) (added : List Bytes) where
  resources_of : Bytes → Policy
  resources_of n = record {
    id = plan.resources_id n;
    inputs = n ∷ [];
    modules = resources_name n ∷ [];
    running = false;
  }

  add_resources-Ends :
      (n : Bytes) (w : World) (p : Progress)
      → among n added ≡ true
      → Resourcing w0 plan added w p
      → Ends (Resourcing w0 plan added) (Undoable w0 plan) (add_resources plan n w p)
  unfolding add_resources resources_of among
  add_resources-Ends n w p a (b, q) = elim (Option-cases (find (resources_name n) w.handlers)) [
    | inr (old, e) ↦ rw (e, add_resources) (Resourcing-Undoable w0 plan added w p (b, q))
    | inl e ↦
        let m = resources_name n in
        let ps = p.resources_policies in
        let more = names (ps ++ (m, resources_of n) ∷ []) in
        let new = named_same ps m (resources_of n) in
        let here = subst (λ ns. among n ns ≡ true) (sym q.5) a in
        rw (e, add_resources)
          (
            (
              (
                TracksHandlers-add w0 [] p.added_handlers (names ps) more m
                    (record { running = true; listens = of_input n plan.no_filter }) w.handlers e
                    (named_other ps m (resources_of n))
                    (
                      (λ f. absurd (false≢true (sym f ∙ among-snoc_same m p.added_handlers))),
                      (λ f f'. tt),
                      λ f f' on. absurd (false≢true (sym f' ∙ new)),
                    )
                    b.0.0,
                b.0.1,
                subst (λ ns. TracksPolicies w0 p.added_inputs more ns w.policies) (sym q.2)
                    (unpublished w0 p.added_inputs p.added_inputs (names ps) more w.policies (
                      subst (λ ns. TracksPolicies w0 p.added_inputs (names ps) ns w.policies) q.2
                        b.0.2)),
              ),
              within m ps (resources_of n) p.added_handlers b.1,
            ),
            (
              q.0,
              q.1,
              q.2,
              (
                All-map (λ k. among k p.added_handlers ≡ true)
                    (λ k. among k (p.added_handlers ++ m ∷ []) ≡ true)
                    (λ k. among-snoc_held k m p.added_handlers) p.policy.modules q.3.0,
                q.3.1,
              ),
              q.4,
              q.5,
              All-append (λ (x : Bytes × Policy). IsResources p.added_inputs more x.0 x.1) ps
                  ((m, resources_of n) ∷ [])
                  (widen_resources p.added_inputs (names ps) more ps
                    (named_held ps m (resources_of n)) q.6)
                  (((here, tt), (new, tt), (n, here, refl)), tt),
            ),
          )
  ]
    where
      within :
          (m : Bytes) (ps : List (Bytes × Policy)) (r : Policy) (handlers : List Bytes)
          → ((k : Bytes) → among k (names ps) ≡ true → among k handlers ≡ true)
          → (k : Bytes) → among k (names (ps ++ (m, r) ∷ [])) ≡ true
          → among k (handlers ++ m ∷ []) ≡ true
      within m ps r handlers h k u = elim (Bool-cases (same_bytes m k)) [
        | inl t ↦
            subst (λ i. among i (handlers ++ m ∷ []) ≡ true) (same_bytes_sound m k t)
              (among-snoc_same m handlers)
        | inr f ↦ among-snoc_held k m handlers (h k (sym (named_other ps m r k f) ∙ u))
      ]

  create_resources-Ends :
      (n : Bytes) (w : World) (p : Progress)
      → among n added ≡ true
      → Resourcing w0 plan added w p
      → Ends (Resourcing w0 plan added) (Undoable w0 plan) (create_resources faults plan n w p)
  unfolding create_resources open_proxy
  create_resources-Ends n w p a g = elim (Bool-cases faults.has_resources) [
    | inr f ↦ rw f g
    | inl t ↦ rw t (
        and_then-Ends (Resourcing w0 plan added) (Resourcing w0 plan added) (Undoable w0 plan)
          (open_proxy faults n plan.no_filter w p) _
          (open_proxy-Ends w0 faults plan [] (Prepared plan added) n plan.no_filter w p g.0 g.1
            (Resourcing-Undoable w0 plan added w p g))
          made)
  ]
    where
      made :
          (w1 : World) (p1 : Progress)
          → Resourcing w0 plan added w1 p1
          → Ends (Resourcing w0 plan added) (Undoable w0 plan) (
              if faults.handler (resources_name n)
              then threw w1 p1 (handler_fails (resources_name n))
              else if faults.handler_start (resources_name n)
              then threw w1 p1 (start_fails (resources_name n))
              else add_resources plan n w1 p1)
      made w1 p1 h = elim (Bool-cases (faults.handler (resources_name n))) [
        | inl t ↦ rw t (Resourcing-Undoable w0 plan added w1 p1 h)
        | inr f ↦ elim (Bool-cases (faults.handler_start (resources_name n))) [
          | inl t ↦ rw f (rw t (Resourcing-Undoable w0 plan added w1 p1 h))
          | inr f' ↦ rw f (rw f' (add_resources-Ends n w1 p1 a h))
        ]
      ]

  pub create_all-Ends :
      (ns : List Bytes) (w : World) (p : Progress)
      → All (λ n. among n added ≡ true) ns
      → Resourcing w0 plan added w p
      → Ends (Resourcing w0 plan added) (Undoable w0 plan) (create_all faults plan ns w p)
  unfolding create_all
  create_all-Ends [] w p a g = g
  create_all-Ends (n ∷ ns) w p a g =
      and_then-Ends (Resourcing w0 plan added) (Resourcing w0 plan added) (Undoable w0 plan)
        (create_resources faults plan n w p) (create_all faults plan ns)
        (create_resources-Ends n w p a.0 g) (λ w' p' h. create_all-Ends ns w' p' a.1 h)
