-- ===== src/Policies/Loading/Start.antt =====
-- Starting a policy of src/Policies.cpp during a load.
use pktvisor.Prelude.{
  ℕ, ◌≡◌, refl, sym, subst, ap, ◌∙◌, ◌⊎◌, inl, inr, Bool, true, false, Option, none, some, List, [],
  ◌∷◌, if◌then◌else◌, All, Bool-cases, Option-cases, false≢true, find,
}
use pktvisor.Metrics.Utf8.{Bytes}
use pktvisor.Serializer.{bytes_key}
use pktvisor.Policies.{
  among, adjust, Policy, World, run_input, Faults, LoadError, policy_config, stop_modules,
  start_modules, start_inputs, start_all, start_idle, start,
}
use pktvisor.Policies.Load.{Plan, Progress}
use pktvisor.Policies.Tracks.{TracksHandlers, TracksInputs, TracksPolicies, Tracks, Settled}
use pktvisor.Policies.Tracks.Inputs.{TracksInputs-run}
use pktvisor.Policies.Tracks.Quiet.{start_modules-Handling, start_modules-Tracks}
use pktvisor.Policies.Tracks.Undone.{names, Base, Undoable}
use pktvisor.Policies.Loading.Phases.{Whole, Joined}
use pktvisor.Policies.Loading.Resources.{AllResources}

module _ (w0 : World) (id : ℕ) (settled : Settled id w0) (faults : Faults)
    (handlers resources added attached published : List Bytes) where
  start_inputs-Tracks :
      (ns : List Bytes) (w : World)
      → TracksInputs w0 id added attached true w.inputs
      → TracksInputs w0 id added attached true (start_inputs faults ns w).0.inputs
        × ((start_inputs faults ns w).0.handlers ≡ w.handlers)
        × ((start_inputs faults ns w).0.policies ≡ w.policies)
  unfolding start_inputs
  start_inputs-Tracks [] w t = (t, refl, refl)
  start_inputs-Tracks (n ∷ ns) w t = elim (Option-cases (find n w.inputs)) [
    | inl e ↦ rw (e, start_inputs) (t, refl, refl)
    | inr (i, e) ↦ elim (Bool-cases i.running) [
      | inl u ↦ rw (e, start_inputs) (rw (u, start_inputs) (start_inputs-Tracks ns w t))
      | inr f ↦ elim (Bool-cases (faults.input_start n)) [
        | inl u ↦ rw (e, start_inputs) (rw (f, start_inputs) (rw (u, start_inputs) (t, refl, refl)))
        | inr g ↦
            rw (e, start_inputs)
              (rw (f, start_inputs)
                (rw (g, start_inputs)
                  (start_inputs-Tracks ns (record w { inputs = adjust n run_input w.inputs })
                    (TracksInputs-run w0 id added attached true n i w.inputs
                      (λ k i0 e0. (settled.0 k i0 e0).0) e f t))))
      ]
    ]
  ]

  abbrev pub Stage : List Bytes → World → Type 0
  Stage busy w = Tracks w0 id true busy handlers resources added attached published w

  -- Handlers that are started again or stopped, and may run.
  abbrev pub Startable : List Bytes → List Bytes → Type 0
  Startable busy ms =
      All (λ m. (among m handlers ≡ true) × ((among m resources ≡ true) ⊎ (among m busy ≡ true))) ms

  pub start_all-cases :
      (busy : List Bytes) (p : Policy) (w : World)
      → Startable busy p.modules
      → Stage busy w
      → ((v : World) × (e : LoadError) × (start_all faults p w ≡ (stop_modules p.modules v, some e))
          × Stage busy v)
        ⊎ ((v : World) × (start_all faults p w ≡ (v, none)) × Stage busy v)
  unfolding start_all
  start_all-cases busy p w h t = go (start_modules faults p.modules w) refl
    where
      here : Stage busy (start_modules faults p.modules w).0
      here =
          let same = start_modules-Handling faults p.modules w in
          (
            start_modules-Tracks w0 handlers resources faults busy p.modules w h t.0,
            subst (λ is. TracksInputs w0 id added attached true is) (sym same.0) t.1,
            subst (λ ps. TracksPolicies w0 added resources published ps) (sym same.1) t.2,
          )

      next : (v : World) → Stage busy v → Stage busy (start_inputs faults p.inputs v).0
      next v s =
          let r = start_inputs-Tracks p.inputs v s.1 in
          (
            subst (λ hs. TracksHandlers w0 busy handlers resources hs) (sym r.1) s.0,
            r.0,
            subst (λ ps. TracksPolicies w0 added resources published ps) (sym r.2) s.2,
          )

      inputs :
          (v : World)
          → start_modules faults p.modules w ≡ (v, none)
          → Stage busy v
          → (s : World × Option LoadError) → start_inputs faults p.inputs v ≡ s
          → ((v : World) × (e : LoadError) × (start_all faults p w
                ≡ (stop_modules p.modules v, some e))
              × Stage busy v)
            ⊎ ((v : World) × (start_all faults p w ≡ (v, none)) × Stage busy v)
      inputs v e st (u, some x) f = inl (
        u,
        x,
        rw (e, start_all) (rw e (rw f (rw e (rw f refl)))),
        subst (λ r. Stage busy r.0) f (next v st),
      )
      inputs v e st (u, none) f = inr (
        u,
        rw (e, start_all) (rw e (rw f (rw e (rw f refl)))),
        subst (λ r. Stage busy r.0) f (next v st),
      )

      go :
          (r : World × Option LoadError)
          → start_modules faults p.modules w ≡ r
          → ((v : World) × (e : LoadError) × (start_all faults p w
                ≡ (stop_modules p.modules v, some e))
              × Stage busy v)
            ⊎ ((v : World) × (start_all faults p w ≡ (v, none)) × Stage busy v)
      go (v, some x) e =
          inl (v, x, rw (e, start_all) (rw (e) refl), subst (λ r. Stage busy r.0) e here)
      go (v, none) e =
          inputs v e (subst (λ r. Stage busy r.0) e here) (start_inputs faults p.inputs v) refl

-- The load's own policy runs.
abbrev pub Running : World → Plan → World → Progress → Type 0
Running w0 plan w p =
    Base w0 plan p.policy.modules w p
    × (p.policy.id ≡ plan.id)
    × (p.policy.running ≡ true)
    × Joined p
    × Whole plan p
    × AllResources p.added_inputs (names p.resources_policies) p.resources_policies

pub Running-Undoable :
    (w0 : World) (plan : Plan) (w : World) (p : Progress)
    → Running w0 plan w p
    → Undoable w0 plan w p
Running-Undoable w0 plan w p (b, i, r, j, d, q) =
    (p.policy.modules, (i, (λ u. (refl, j.0, j.1, d.0)), λ u. absurd (false≢true (sym u ∙ r))), b)

pub start_running :
    (faults : Faults) (throws : Bool) (p : Policy) (w : World)
    → p.running ≡ true
    → start faults throws p w ≡ (w, p, none)
unfolding start
start_running faults throws p w t =
    ap (λ b. if b then (w, p, none) else start_idle faults throws p w) t

start_not_running :
    (faults : Faults) (throws : Bool) (p : Policy) (w : World)
    → p.running ≡ false
    → start faults throws p w ≡ start_idle faults throws p w
unfolding start
start_not_running faults throws p w f =
    ap (λ b. if b then (w, p, none) else start_idle faults throws p w) f

pub start_fresh :
    (faults : Faults) (p : Policy) (w v : World)
    → p.running ≡ false
    → start_all faults p w ≡ (v, none)
    → start faults false p w ≡ (v, record p { running = true }, none)
unfolding start_idle
start_fresh faults p w v f e = start_not_running faults false p w f ∙ rw e (rw e refl)

pub start_throws :
    (faults : Faults) (p : Policy) (w v : World) (x : LoadError)
    → p.running ≡ false
    → start_all faults p w ≡ (v, some x)
    → start faults false p w ≡ (v, p, some x)
unfolding start_idle
start_throws faults p w v x f e = start_not_running faults false p w f ∙ rw e (rw e refl)

pub start_refused :
    (faults : Faults) (p : Policy) (w : World)
    → p.running ≡ false
    → start faults true p w ≡ (w, p, some policy_config)
unfolding start_idle
start_refused faults p w f = start_not_running faults true p w f
