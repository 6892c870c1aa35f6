-- ===== src/Policies/Loading/Publish.antt =====
-- The last steps of a load of src/Policies.cpp: the policy starts, the resources policies start and
-- are registered, and the policy is. Wherever one throws, the load can be undone.
use pktvisor.Prelude.{
  ℕ, ◌≡◌, refl, sym, subst, ap, ◌∙◌, ◌⊎◌, inl, inr, true, false, Option, none, some, List, [], ◌∷◌,
  ◌++◌, append-nil, All, Bool-cases, false≢true, find,
}
use pktvisor.Metrics.Utf8.{Bytes}
use pktvisor.Serializer.{same_bytes, same_bytes_sound, bytes_key}
use pktvisor.Modules.{already_exists}
use pktvisor.Policies.{
  among, Policy, World, add_policy, Faults, LoadError, policy_config, not_added, stop, stop_modules,
  start,
}
use pktvisor.Policies.Removal.{resources_name}
use pktvisor.Policies.Load.{Plan, Progress, Run, going, threw, start_policy, join_last, publish}
use pktvisor.Policies.Stores.{among-snoc_same, among-snoc_other, All-among, All-both}
use pktvisor.Policies.Tracks.{
  TracksHandlers, TracksInputs, TracksPolicies, Tracks, Settled, IsResources,
}
use pktvisor.Policies.Tracks.Handlers.{TracksHandlers-weaken, find-added_other, find-added_same}
use pktvisor.Policies.Tracks.Inputs.{TracksInputs-own}
use pktvisor.Policies.Tracks.Quiet.{stop_modules-Handling, stop_modules-Tracks}
use pktvisor.Policies.Tracks.Undone.{names, Undoable}
use pktvisor.Policies.Loading.Phases.{Ends}
use pktvisor.Policies.Loading.Resources.{Resourcing, Resourcing-Undoable}
use pktvisor.Policies.Loading.Start.{
  start_all-cases, Running, start_fresh, start_throws, start_refused,
}

pub none_among : (k : Bytes) → among k [] ≡ true → ⊥
unfolding among
none_among k u = false≢true u

-- Handlers that are registered are among themselves.
both_among :
    (handlers resources ms : List Bytes)
    → All (λ m. among m handlers ≡ true) ms
    → All (λ m. (among m handlers ≡ true) × ((among m resources ≡ true) ⊎ (among m ms ≡ true))) ms
both_among handlers resources ms h =
    All-both (λ m. among m handlers ≡ true) (λ m. among m ms ≡ true)
      (λ m. (among m handlers ≡ true) × ((among m resources ≡ true) ⊎ (among m ms ≡ true))) ms
      (λ m u v. (u, inr v)) h (All-among (λ m. among m ms ≡ true) ms (λ n u. u))

policy_threw :
    (faults : Faults) (w v : World) (p : Progress) (q : Policy) (x : LoadError)
    → start faults faults.config p.policy w ≡ (v, q, some x)
    → start_policy faults w p ≡ threw v p x
unfolding start_policy
policy_threw faults w v p q x e = rw (e, start_policy) (rw e refl)

policy_runs :
    (faults : Faults) (w v : World) (p : Progress) (q : Policy)
    → start faults faults.config p.policy w ≡ (v, q, none)
    → start_policy faults w p ≡ going v (record p { policy = q })
unfolding start_policy
policy_runs faults w v p q e = rw (e, start_policy) (rw e refl)

module _ (w0 : World) (faults : Faults) (plan : Plan) (settled : Settled plan.id w0) where
  pub start_policy-Ends :
      (added : List Bytes) (w : World) (p : Progress)
      → Resourcing w0 plan added w p
      → Ends (Running w0 plan) (Undoable w0 plan) (start_policy faults w p)
  start_policy-Ends added w p (b, q) = elim (Bool-cases faults.config) [
    | inl t ↦
        subst Result
          (sym (
            policy_threw faults w w p p.policy policy_config
              (ap (λ c. start faults c p.policy w) t ∙ start_refused faults p.policy w q.1)))
          (Resourcing-Undoable w0 plan added w p (b, q))
    | inr f ↦
        let same = ap (λ c. start faults c p.policy w) f in
        elim (start_all-cases w0 plan.id settled faults p.added_handlers
          (names p.resources_policies) p.added_inputs p.attached_inputs p.added_resources_policies
          p.policy.modules p.policy w (startable q.3.0)
          (
            TracksHandlers-weaken w0 [] p.policy.modules p.added_handlers
                (names p.resources_policies) w.handlers none_runs b.0.0,
            b.0.1,
            b.0.2,
          )) [
            | inl (v, x, e, t) ↦
                subst Result
                  (sym (
                    policy_threw faults w (stop_modules p.policy.modules v) p p.policy x (
                      same
                      ∙ start_throws faults p.policy w (stop_modules p.policy.modules v) x q.1 e)))
                  (halted v t)
            | inr (v, e, t) ↦
                subst Result
                  (sym (
                    policy_runs faults w v p (record (p.policy) { running = true })
                      (same ∙ start_fresh faults p.policy w v q.1 e)))
                  ((t, b.1), q.0, refl, q.3, q.4, q.6)
          ]
  ]
    where
      Result : Run → Type 0
      Result r = Ends (Running w0 plan) (Undoable w0 plan) r

      none_runs : (k : Bytes) → among k [] ≡ true → among k p.policy.modules ≡ true
      none_runs k u = absurd (none_among k u)

      startable :
          All (λ m. among m p.added_handlers ≡ true) p.policy.modules
          → All
              (λ m.
                (among m p.added_handlers ≡ true)
                × ((among m (names p.resources_policies) ≡ true)
                    ⊎ (among m p.policy.modules ≡ true)))
              p.policy.modules
      startable h = both_among p.added_handlers (names p.resources_policies) p.policy.modules h

      halted :
          (v : World)
          → Tracks w0 plan.id true p.policy.modules p.added_handlers
              (names p.resources_policies)
              p.added_inputs
              p.attached_inputs
              p.added_resources_policies
              v
          → Undoable w0 plan (stop_modules p.policy.modules v) p
      halted v t =
          let end = stop_modules-Handling p.policy.modules v in
          (
            [],
            (q.0, (λ u. absurd (false≢true (sym q.1 ∙ u))), λ u. refl),
            (
              (
                stop_modules-Tracks w0 p.added_handlers (names p.resources_policies) []
                    p.policy.modules v q.3.0
                    (subst
                      (λ ms.
                        TracksHandlers w0 ms p.added_handlers (names p.resources_policies)
                          v.handlers)
                      (sym (append-nil p.policy.modules)) t.0),
                subst (λ is. TracksInputs w0 plan.id p.added_inputs p.attached_inputs true is)
                    (sym end.0) t.1,
                subst
                    (λ ps.
                      TracksPolicies w0 p.added_inputs (names p.resources_policies)
                        p.added_resources_policies ps)
                    (sym end.1) t.2,
              ),
              b.1,
            ),
          )

pub publish_threw :
    (faults : Faults) (name : Bytes) (q r : Policy) (w v : World) (p : Progress) (x : LoadError)
    → start faults false q w ≡ (v, r, some x)
    → publish faults name q w p ≡ threw v p x
unfolding publish
publish_threw faults name q r w v p x e = rw (e, publish) (rw e refl)

-- What follows a start of a resources policy.
abbrev pub registers : Bytes → Policy → World → Progress → Run
registers name r v p =
    let w1 = join_last r.id r.inputs v in
    elim (find name w1.policies) [
      | some old ↦ threw (stop r w1) p (not_added already_exists)
      | none ↦
          going (record w1 { policies = w1.policies ++ (name, r) ∷ [] })
            (record p { added_resources_policies = p.added_resources_policies ++ name ∷ [] })
    ]

pub publish_started :
    (faults : Faults) (name : Bytes) (q r : Policy) (w v : World) (p : Progress)
    → start faults false q w ≡ (v, r, none)
    → publish faults name q w p ≡ registers name r v p
unfolding publish
publish_started faults name q r w v p e =
    ap
      (λ (s : World × Policy × Option LoadError). elim s.2 [
        | some x ↦ threw s.0 p x
        | none ↦ registers name s.1 s.0 p
      ])
      e

pub join_last-Handling :
    (id : ℕ) (ns : List Bytes) (w : World)
    → ((join_last id ns w).handlers ≡ w.handlers) × ((join_last id ns w).policies ≡ w.policies)
unfolding join_last
join_last-Handling id [] w = (refl, refl)
join_last-Handling id (n ∷ []) w = (refl, refl)
join_last-Handling id (n ∷ m ∷ ns) w = join_last-Handling id (m ∷ ns) w

module _ (w0 : World) (id : ℕ) (added attached : List Bytes) where
  pub join_last-Tracks :
      (other : ℕ) (ns : List Bytes) (w : World)
      → All (λ n. among n added ≡ true) ns
      → TracksInputs w0 id added attached true w.inputs
      → TracksInputs w0 id added attached true (join_last other ns w).inputs
  unfolding join_last
  join_last-Tracks other [] w h t = t
  join_last-Tracks other (n ∷ []) w h t =
      TracksInputs-own w0 id added attached true n (add_policy other) w.inputs h.0 t
  join_last-Tracks other (n ∷ m ∷ ns) w h t = join_last-Tracks other (m ∷ ns) w h.1 t

pub publish-Tracks :
    (w0 : World) (added resources published : List Bytes) (name : Bytes) (q : Policy)
    (policies : List (Bytes × Policy))
    → find name policies ≡ none
    → IsResources added resources name q
    → TracksPolicies w0 added resources published policies
    → TracksPolicies w0 added resources (published ++ name ∷ []) (policies ++ (name, q) ∷ [])
publish-Tracks w0 added resources published name q policies e r t k =
    elim (Bool-cases (same_bytes name k)) [
      | inr f ↦
          let a = among-snoc_other k name published f in
          let same = find-added_other k name q policies f in
          (
            λ u. let s = (t k).0 (sym a ∙ u) in (s.0, (λ p g. s.1 p (sym same ∙ g)), s.2),
            λ u. same ∙ (t k).1 (sym a ∙ u),
          )
      | inl s ↦
          let i = same_bytes_sound name k s in
          (
            λ u. (
              subst (λ m. find m w0.policies ≡ none) i fresh,
              (λ p g.
                  let held =
                    subst (λ m. find m (policies ++ (name, q) ∷ []) ≡ some q) i
                      (find-added_same name q policies e) in
                  let w : q ≡ p = (let v : some q ≡ some p = sym held ∙ g in cc) in
                  subst (λ m. IsResources added resources m p) i
                    (subst (λ (x : Policy). IsResources added resources name x) w r)),
              subst (λ m. (n : Bytes) × (among n added ≡ true) × (m ≡ resources_name n)) i r.2,
            ),
            λ u. absurd (
                false≢true (
                  sym u
                  ∙ subst (λ m. among m (published ++ name ∷ []) ≡ true) i
                      (among-snoc_same name published))),
          )
    ]
  where
    fresh : find name w0.policies ≡ none
    fresh = elim (Bool-cases (among name published)) [
      | inl u ↦ ((t name).0 u).0
      | inr u ↦ sym ((t name).1 u) ∙ e
    ]
