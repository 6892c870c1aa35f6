-- ===== src/Policies/Loading/Register.antt =====
-- The resources policies, and then the policy, are registered by a load of src/Policies.cpp.
use pktvisor.Prelude.{
  ◌≡◌, refl, sym, subst, ◌⊎◌, inl, inr, true, false, Option, none, some, List, [], ◌∷◌, ◌++◌, All,
  All-map, Bool-cases, find,
}
use pktvisor.Metrics.Utf8.{Bytes}
use pktvisor.Serializer.{bytes_key}
use pktvisor.Modules.{already_exists}
use pktvisor.Policies.{among, Policy, World, Faults, not_added, stop, stop_modules}
use pktvisor.Policies.Load.{Plan, Progress, Run, going, threw, join_last, publish, publish_all}
use pktvisor.Policies.Stores.{among-append_right}
use pktvisor.Policies.Tracks.{
  TracksHandlers, TracksInputs, TracksPolicies, Tracks, Settled, IsResources,
}
use pktvisor.Policies.Tracks.Handlers.{TracksHandlers-weaken}
use pktvisor.Policies.Tracks.Quiet.{stop_modules-Handling, stop_modules-Tracks}
use pktvisor.Policies.Tracks.Restore.{stop-own}
use pktvisor.Policies.Tracks.Undone.{names, Undoable}
use pktvisor.Policies.Loading.Phases.{Ends, and_then-Ends}
use pktvisor.Policies.Loading.Resources.{AllResources}
use pktvisor.Policies.Loading.Start.{
  start_all-cases, Running, Running-Undoable, start_running, start_fresh, start_throws,
}
use pktvisor.Policies.Loading.Publish.{
  publish_threw, registers, publish_started, join_last-Handling, join_last-Tracks, publish-Tracks,
}

module _ (w0 : World) (faults : Faults) (plan : Plan) (settled : Settled plan.id w0)
    (added : List Bytes) (resources : List (Bytes × Policy)) where
  -- The policy runs, with the inputs and the resources policies that the load has made.
  abbrev pub Publishing : World → Progress → Type 0
  Publishing w p =
      Running w0 plan w p × (p.added_inputs ≡ added) × (p.resources_policies ≡ resources)

  abbrev Result : Run → Type 0
  Result r = Ends Publishing (Undoable w0 plan) r

  registers-Ends :
      (name : Bytes) (q : Policy) (w : World) (p : Progress)
      → IsResources added (names resources) name q
      → Publishing w p
      → Result (registers name q w p)
  registers-Ends name q w p r ((b, i, on, j, d, all), a, s) =
      go (find name (join_last q.id q.inputs w).policies) refl
    where
      w1 : World
      w1 = join_last q.id q.inputs w

      same : ((w1.handlers ≡ w.handlers) × (w1.policies ≡ w.policies))
      same = join_last-Handling q.id q.inputs w

      own : IsResources p.added_inputs (names p.resources_policies) name q
      own =
          subst (λ ns. IsResources ns (names p.resources_policies) name q) (sym a)
            (subst (λ ps. IsResources added (names ps) name q) (sym s) r)

      here :
          Tracks w0 plan.id true p.policy.modules p.added_handlers
            (names p.resources_policies)
            p.added_inputs
            p.attached_inputs
            p.added_resources_policies
            w1
      here = (
        subst
            (λ hs.
              TracksHandlers w0 p.policy.modules p.added_handlers (names p.resources_policies) hs)
            (sym same.0) b.0.0,
        join_last-Tracks w0 plan.id p.added_inputs p.attached_inputs q.id q.inputs w own.0 b.0.1,
        subst
            (λ ps.
              TracksPolicies w0 p.added_inputs (names p.resources_policies)
                p.added_resources_policies ps)
            (sym same.1) b.0.2,
      )

      go : (o : Option Policy) → find name w1.policies ≡ o → Result (registers name q w p)
      go (some old) e =
          subst
            (λ (x : Option Policy). Result (elim x [
              | some o ↦ threw (stop q w1) p (not_added already_exists)
              | none ↦
                  going (record w1 { policies = w1.policies ++ (name, q) ∷ [] })
                    (record p {
                      added_resources_policies = p.added_resources_policies ++ name ∷ [];
                    })
            ]))
            (sym e)
            (Running-Undoable w0 plan (stop q w1) p (
              (
                stop-own w0 plan.id settled p.added_handlers (names p.resources_policies)
                    p.added_inputs b.1 true p.policy.modules p.attached_inputs
                    p.added_resources_policies name q w1 own here,
                b.1,
              ),
              i,
              on,
              j,
              d,
              all,
            ))
      go none e =
          subst
            (λ (x : Option Policy). Result (elim x [
              | some o ↦ threw (stop q w1) p (not_added already_exists)
              | none ↦
                  going (record w1 { policies = w1.policies ++ (name, q) ∷ [] })
                    (record p {
                      added_resources_policies = p.added_resources_policies ++ name ∷ [];
                    })
            ]))
            (sym e)
            (
              (
                (
                  (
                    here.0,
                    here.1,
                    publish-Tracks w0 p.added_inputs (names p.resources_policies)
                        p.added_resources_policies name q w1.policies e own here.2,
                  ),
                  b.1,
                ),
                i,
                on,
                j,
                d,
                all,
              ),
              a,
              s,
            )

  -- A resources policy that is started lets no handler run but its own, which listens to an input.
  publish-Ends :
      (name : Bytes) (q : Policy) (w : World) (p : Progress)
      → IsResources added (names resources) name q
      → Publishing w p
      → Result (publish faults name q w p)
  publish-Ends name q w p r ((b, i, on, j, d, all), a, s) = elim (Bool-cases q.running) [
    | inl t ↦
        subst Result
          (sym (publish_started faults name q q w w p (start_running faults false q w t)))
          (registers-Ends name q w p r ((b, i, on, j, d, all), a, s))
    | inr f ↦
        elim (start_all-cases w0 plan.id settled faults p.added_handlers
          (names p.resources_policies) p.added_inputs p.attached_inputs p.added_resources_policies
          p.policy.modules q w startable b.0) [
            | inl (v, x, e, t) ↦
                subst Result
                  (sym (
                    publish_threw faults name q q w (stop_modules q.modules v) p x
                      (start_throws faults q w (stop_modules q.modules v) x f e)))
                  (Running-Undoable w0 plan (stop_modules q.modules v) p
                    ((halted v t, b.1), i, on, j, d, all))
            | inr (v, e, t) ↦
                subst Result
                  (sym (
                    publish_started faults name q (record q { running = true }) w v p
                      (start_fresh faults q w v f e)))
                  (registers-Ends name (record q { running = true }) v p r
                    (((t, b.1), i, on, j, d, all), a, s))
          ]
  ]
    where
      own : All (λ m. among m (names p.resources_policies) ≡ true) q.modules
      own = subst (λ ps. All (λ m. among m (names ps) ≡ true) q.modules) (sym s) r.1

      registered : All (λ m. among m p.added_handlers ≡ true) q.modules
      registered =
          All-map (λ m. among m (names p.resources_policies) ≡ true)
            (λ m. among m p.added_handlers ≡ true) b.1 q.modules own

      startable :
          All
            (λ m.
              (among m p.added_handlers ≡ true)
              × ((among m (names p.resources_policies) ≡ true) ⊎ (among m p.policy.modules ≡ true)))
            q.modules
      startable =
          All-map (λ m. among m (names p.resources_policies) ≡ true)
            (λ m.
              (among m p.added_handlers ≡ true)
              × ((among m (names p.resources_policies) ≡ true) ⊎ (among m p.policy.modules ≡ true)))
            (λ m u. (b.1 m u, inl u)) q.modules own

      halted :
          (v : World)
          → Tracks w0 plan.id true p.policy.modules p.added_handlers
              (names p.resources_policies)
              p.added_inputs
              p.attached_inputs
              p.added_resources_policies
              v
          → Tracks w0 plan.id true p.policy.modules p.added_handlers
              (names p.resources_policies)
              p.added_inputs
              p.attached_inputs
              p.added_resources_policies
              (stop_modules q.modules v)
      halted v t =
          let end = stop_modules-Handling q.modules v in
          (
            stop_modules-Tracks w0 p.added_handlers (names p.resources_policies) p.policy.modules
                q.modules v registered
                (TracksHandlers-weaken w0 p.policy.modules (q.modules ++ p.policy.modules)
                  p.added_handlers (names p.resources_policies) v.handlers
                  (λ k. among-append_right k q.modules p.policy.modules) t.0),
            subst (λ is. TracksInputs w0 plan.id p.added_inputs p.attached_inputs true is)
                (sym end.0) t.1,
            subst
                (λ ps.
                  TracksPolicies w0 p.added_inputs (names p.resources_policies)
                    p.added_resources_policies ps)
                (sym end.1) t.2,
          )

  pub publish_all-Ends :
      (qs : List (Bytes × Policy)) (w : World) (p : Progress)
      → AllResources added (names resources) qs
      → Publishing w p
      → Result (publish_all faults qs w p)
  unfolding publish_all
  publish_all-Ends [] w p r g = g
  publish_all-Ends ((name, q) ∷ qs) w p r g =
      and_then-Ends Publishing Publishing (Undoable w0 plan) (publish faults name q w p)
        (publish_all faults qs) (publish-Ends name q w p r.0 g)
        (λ w' p' h. publish_all-Ends qs w' p' r.1 h)
