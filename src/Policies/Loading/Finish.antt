-- ===== src/Policies/Loading/Finish.antt =====
-- A load of one policy by src/Policies.cpp.
use pktvisor.Prelude.{
  ◌≡◌, refl, sym, subst, inl, inr, true, false, Option, none, some, [], append-nil, All-map,
  Bool-cases, false≢true, find,
}
use pktvisor.Metrics.Utf8.{Bytes}
use pktvisor.Serializer.{bytes_key}
use pktvisor.Modules.{module_exists}
use pktvisor.Policies.{among, Input, Handler, World, Faults, LoadError}
use pktvisor.Policies.Load.{Plan, Progress, Run, going, threw, run_load}
use pktvisor.Policies.Rollback.{catch_all, new_progress, load_policy}
use pktvisor.Policies.Stores.{All-among}
use pktvisor.Policies.Tracks.{Shared, Settled, Distinct, Foreign, Calm}
use pktvisor.Policies.Tracks.Restore.{SameInput, Restored}
use pktvisor.Policies.Tracks.Undone.{names, Undoable, rollback-Restored}
use pktvisor.Policies.Loading.Phases.{inputs_of, Ends, and_then-Ends, Joined, Attaching}
use pktvisor.Policies.Loading.Taps.{attach_taps-Ends}
use pktvisor.Policies.Loading.Resources.{AllResources, Resourcing, create_all-Ends}
use pktvisor.Policies.Loading.Start.{Running}
use pktvisor.Policies.Loading.Publish.{start_policy-Ends}
use pktvisor.Policies.Loading.Register.{Publishing, publish_all-Ends}
use pktvisor.Policies.Loading.Complete.{Loaded, finish-Ends}

-- Before the first tap.
begins : (w0 : World) (plan : Plan) → Settled plan.id w0 → Attaching w0 plan w0 (new_progress plan)
unfolding among
begins w0 plan settled = (
  (
    (
      (
        λ n. ((λ u. absurd (false≢true u)), λ u. refl),
        All-map (λ (x : Bytes × Handler). Foreign w0 x.1.listens) (Calm w0 [] [] [])
            (λ (x : Bytes × Handler) (f : Foreign w0 x.1.listens).
              ((λ u. f), (λ u. absurd (false≢true u)), λ u. absurd (false≢true u)))
            w0.handlers settled.1,
      ),
      (λ n. ((λ u. absurd (false≢true u)), λ u. kept n (find n w0.inputs) refl)),
      λ n. ((λ u. absurd (false≢true u)), λ u. refl),
    ),
    λ m u. absurd (false≢true u),
  ),
  refl,
  refl,
  refl,
  refl,
)
  where
    kept :
        (n : Bytes) (o : Option Input)
        → find n w0.inputs ≡ o
        → Shared plan.id true false (find n w0.inputs) (find n w0.inputs)
    kept n none e = rw e tt
    kept n (some i) e = rw e (
      refl,
      ([], sym (append-nil i.proxies)),
      (settled.0 n i e).2,
      (λ b. refl),
      λ b c. absurd (false≢true c),
    )

run_load-Ends :
    (w0 : World) (faults : Faults) (plan : Plan)
    → Settled plan.id w0
    → Distinct (inputs_of plan.taps)
    → Ends
        (λ w p. Loaded w0 plan w)
        (Undoable w0 plan)
        (run_load faults plan w0 (new_progress plan))
unfolding run_load
run_load-Ends w0 faults plan settled d =
    and_then-Ends
      (λ w p. Attaching w0 plan w p × Joined p × (p.attached_inputs ≡ inputs_of plan.taps))
      (λ w p. Loaded w0 plan w) (Undoable w0 plan) _ _
      (attach_taps-Ends w0 faults plan settled (inputs_of plan.taps) plan.taps w0
        (new_progress plan) d (begins w0 plan settled, (tt, refl), refl))
      (λ w1 p1 g1.
        and_then-Ends (Resourcing w0 plan p1.added_inputs) (λ w p. Loaded w0 plan w)
          (Undoable w0 plan) _ _
          (create_all-Ends w0 faults plan p1.added_inputs p1.added_inputs w1 p1
            (All-among (λ n. among n p1.added_inputs ≡ true) p1.added_inputs (λ n u. u))
            (prepared w1 p1 g1))
          (λ w2 p2 g2.
            and_then-Ends (Running w0 plan) (λ w p. Loaded w0 plan w) (Undoable w0 plan) _ _
              (start_policy-Ends w0 faults plan settled p1.added_inputs w2 p2 g2)
              (λ w3 p3 g3.
                and_then-Ends
                  (Publishing w0 faults plan settled p3.added_inputs p3.resources_policies)
                  (λ w p. Loaded w0 plan w) (Undoable w0 plan) _ _
                  (publish_all-Ends w0 faults plan settled p3.added_inputs p3.resources_policies
                    p3.resources_policies w3 p3 g3.5 (g3, refl, refl))
                  (finish-Ends w0 faults plan settled p3.added_inputs p3.resources_policies))))
  where
    prepared :
        (w : World) (p : Progress)
        → Attaching w0 plan w p × Joined p × (p.attached_inputs ≡ inputs_of plan.taps)
        → Resourcing w0 plan p.added_inputs w p
    prepared w p (a, j, e) = (
      a.0,
      (
        a.1,
        a.2,
        a.4,
        j,
        (subst Distinct (sym e) d, e),
        refl,
        subst (λ ps. AllResources p.added_inputs (names ps) ps) (sym a.3) tt,
      ),
    )

same_self : (o : Option Input) → SameInput o o
same_self none = tt
same_self (some i) = (refl, refl, ([], sym (append-nil i.proxies)))

catch_all-Restored :
    (w : World) (plan : Plan) (e : LoadError) (r : Run)
    → Settled plan.id w
    → Ends (λ w' p'. Loaded w plan w') (Undoable w plan) r
    → (catch_all plan r).1 ≡ some e
    → Restored w (catch_all plan r).0
unfolding catch_all
catch_all-Restored w plan e (going w1 p) settled u h = absurd (cc h)
catch_all-Restored w plan e (threw w1 p x) settled u h = rollback-Restored w plan w1 p settled u

catch_all-Loaded :
    (w : World) (plan : Plan) (r : Run)
    → Ends (λ w' p'. Loaded w plan w') (Undoable w plan) r
    → (catch_all plan r).1 ≡ none
    → Loaded w plan (catch_all plan r).0
unfolding catch_all
catch_all-Loaded w plan (going w1 p) u h = u
catch_all-Loaded w plan (threw w1 p x) u h = absurd (cc h)

-- A load that throws, at whatever call, leaves every store as it was: each name has the handler and
-- the policy that it had, and an input with the same state and policies, but for event proxies that
-- an input may have more of. The taps of the policy give inputs of different names, and the world
-- was settled: its inputs run and count another policy than the load's, and two where there is a
-- policy of the name of an input's resources policy; its handlers listen to what is there.
pub load_policy-Restored :
    (faults : Faults) (plan : Plan) (w : World) (e : LoadError)
    → Settled plan.id w
    → Distinct (inputs_of plan.taps)
    → (load_policy faults plan w).1 ≡ some e
    → Restored w (load_policy faults plan w).0
unfolding load_policy
load_policy-Restored faults plan w e settled d h =
    elim (Bool-cases (module_exists w.policies plan.name)) [
      | inl t ↦ rw t (λ n. (refl, refl, same_self (find n w.inputs)))
      | inr f ↦ rw f (
          catch_all-Restored w plan e (run_load faults plan w (new_progress plan)) settled
            (run_load-Ends w faults plan settled d) (rw (f) at h))
    ]

-- After a load that throws nothing, from a settled world and with taps that give inputs of different
-- names, the policy is in the store and runs, with the inputs of its taps in their order; every
-- handler and every policy of before is as it was, and every input of before runs and counts the
-- policies that it did, besides the new one.
pub load_policy-Loaded :
    (faults : Faults) (plan : Plan) (w : World)
    → Settled plan.id w
    → Distinct (inputs_of plan.taps)
    → (load_policy faults plan w).1 ≡ none
    → Loaded w plan (load_policy faults plan w).0
unfolding load_policy
load_policy-Loaded faults plan w settled d h =
    elim (Bool-cases (module_exists w.policies plan.name)) [
      | inl t ↦ absurd (cc (rw (t) at h))
      | inr f ↦ rw f (
          catch_all-Loaded w plan (run_load faults plan w (new_progress plan))
            (run_load-Ends w faults plan settled d) (rw (f) at h))
    ]
