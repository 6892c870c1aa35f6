-- ===== src/Policies/Loading/Phases.antt =====
-- What holds while a load of src/Policies.cpp goes on, and where it threw.
use pktvisor.Prelude.{
  ◌≡◌, refl, sym, subst, ◌∙◌, ◌⊎◌, inl, inr, true, false, List, [], All, Option-cases, false≢true,
  find, map,
}
use pktvisor.Metrics.Utf8.{Bytes}
use pktvisor.Serializer.{bytes_key}
use pktvisor.Policies.{among, Policy, World, add_event_proxy, Faults}
use pktvisor.Policies.Load.{TapPlan, Plan, Progress, Run, going, threw, and_then, open_proxy}
use pktvisor.Policies.Tracks.{TracksPolicies, Distinct}
use pktvisor.Policies.Tracks.Inputs.{TracksInputs-proxy}
use pktvisor.Policies.Tracks.Undone.{names, Base, Undoable}

-- What holds where a run goes on, and where it threw.
abbrev pub Ends : (World → Progress → Type 0) → (World → Progress → Type 0) → Run → Type 0
Ends G T (going w p) = G w p
Ends G T (threw w p e) = T w p

pub and_then-Ends :
    (G G' T : World → Progress → Type 0) (r : Run) (f : World → Progress → Run)
    → Ends G T r
    → ((w : World) (p : Progress) → G w p → Ends G' T (f w p))
    → Ends G' T (and_then r f)
unfolding and_then
and_then-Ends G G' T (going w p) f h g = g w p h
and_then-Ends G G' T (threw w p e) f h g = h

pub Ends-map :
    (G G' T : World → Progress → Type 0) (r : Run)
    → ((w : World) (p : Progress) → G w p → G' w p)
    → Ends G T r
    → Ends G' T r
Ends-map G G' T (going w p) f h = f w p h
Ends-map G G' T (threw w p e) f h = h

-- With no resources policy published, the lists that describe them do not matter.
pub unpublished :
    (w0 : World) (added added' resources resources' : List Bytes) (policies : List (Bytes × Policy))
    → TracksPolicies w0 added resources [] policies
    → TracksPolicies w0 added' resources' [] policies
unfolding among
unpublished w0 added added' resources resources' policies t n =
    ((λ u. absurd (false≢true u)), (t n).1)

pub no_names : (n : Bytes) (ps : List (Bytes × Policy)) → ps ≡ [] → among n (names ps) ≡ false
unfolding among
no_names n ps e = subst (λ qs. among n (names qs) ≡ false) (sym e) refl

-- The policy's handlers are registered, or among some that will be.
abbrev pub Pending : List Bytes → Progress → Type 0
Pending hs p = All (λ m. (among m p.added_handlers ≡ true) ⊎ (among m hs ≡ true)) p.policy.modules

-- The policy has joined its inputs.
abbrev pub Joined : Progress → Type 0
Joined p =
    All (λ m. among m p.added_handlers ≡ true) p.policy.modules
    × (p.policy.inputs ≡ p.attached_inputs)

abbrev pub inputs_of : List TapPlan → List Bytes
inputs_of ts = map (λ (t : TapPlan). t.input) ts

-- Its inputs are those of the plan's taps, each once.
abbrev pub Whole : Plan → Progress → Type 0
Whole plan p = Distinct p.attached_inputs × (p.attached_inputs ≡ inputs_of plan.taps)

-- Before anything is started.
abbrev pub Attaching : World → Plan → World → Progress → Type 0
Attaching w0 plan w p =
    Base w0 plan [] w p
    × (p.policy.id ≡ plan.id)
    × (p.policy.running ≡ false)
    × (p.resources_policies ≡ [])
    × (p.added_resources_policies ≡ [])

pub Attaching-Undoable :
    (w0 : World) (plan : Plan) (w : World) (p : Progress)
    → Attaching w0 plan w p
    → Undoable w0 plan w p
Attaching-Undoable w0 plan w p (b, i, r, s, t) =
    ([], (i, (λ u. absurd (false≢true (sym r ∙ u))), λ u. refl), b)

-- A proxy of an input, in any phase.
pub open_proxy-Ends :
    (w0 : World) (faults : Faults) (plan : Plan) (busy : List Bytes) (X : Progress → Type 0)
    (n hash : Bytes) (w : World) (p : Progress)
    → Base w0 plan busy w p
    → X p
    → Undoable w0 plan w p
    → Ends
        (λ w' p'. Base w0 plan busy w' p' × X p')
        (Undoable w0 plan)
        (open_proxy faults n hash w p)
unfolding open_proxy
open_proxy-Ends w0 faults plan busy X n hash w p b x undo = elim (Option-cases (find n w.inputs)) [
  | inl e ↦ rw (e, open_proxy) undo
  | inr (i, e) ↦ elim (Option-cases (add_event_proxy (faults.proxy n hash) hash i)) [
    | inl f ↦ rw (e, open_proxy) (rw f undo)
    | inr (j, f) ↦
        rw (e, open_proxy)
          (rw f (
            (
              (
                b.0.0,
                TracksInputs-proxy w0 plan.id p.added_inputs p.attached_inputs true
                    (faults.proxy n hash) n hash i j w.inputs e f b.0.1,
                b.0.2,
              ),
              b.1,
            ),
            x,
          ))
  ]
]
