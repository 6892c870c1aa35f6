-- ===== src/Policies/Tracks/Undone.antt =====
-- What a load of src/Policies.cpp can be undone from.
use pktvisor.Prelude.{
  ℕ, ◌≡◌, refl, sym, subst, ap, ◌∙◌, true, false, Option, none, some, List, [], All, All-map, find,
  map,
}
use pktvisor.Metrics.Utf8.{Bytes}
use pktvisor.Serializer.{bytes_key}
use pktvisor.Policies.{among, Input, Handler, World, stop}
use pktvisor.Policies.Load.{Plan, Progress}
use pktvisor.Policies.Rollback.{detach_all, drop_resources, drop_handlers, drop_inputs, rollback}
use pktvisor.Policies.Tracks.{
  Foreign, Calm, Shared, TracksHandlers, TracksInputs, Tracks, Settled, Ready,
}
use pktvisor.Policies.Tracks.Quiet.{drop_handlers-Tracks}
use pktvisor.Policies.Tracks.Undo.{stop-Tracks}
use pktvisor.Policies.Tracks.Detach.{detach_all-Tracks}
use pktvisor.Policies.Tracks.Restore.{
  SameInput, Restored, drop_resources-Tracks, drop_inputs-Tracks,
}

abbrev pub names : {V : Type 0} → List (Bytes × V) → List Bytes
names {V} ps = map (λ (e : Bytes × V). e.0) ps

-- The stores are those of before but for what the locals of the load name; `busy` are the handlers
-- that the policy runs.
abbrev pub Base : World → Plan → List Bytes → World → Progress → Type 0
Base w0 plan busy w p =
    Tracks w0 plan.id true busy p.added_handlers (names p.resources_policies) p.added_inputs
      p.attached_inputs p.added_resources_policies w
    × ((m : Bytes) → among m (names p.resources_policies) ≡ true → among m p.added_handlers ≡ true)

abbrev pub Undoable : World → Plan → World → Progress → Type 0
Undoable w0 plan w p =
    (busy : List Bytes) × Ready plan.id busy p.added_handlers p.attached_inputs p.policy
    × Base w0 plan busy w p

All-Foreign :
    (w0 : World) (resources : List Bytes) (handlers : List (Bytes × Handler))
    → TracksHandlers w0 [] [] resources handlers
    → All (λ (x : Bytes × Handler). Foreign w0 x.1.listens) handlers
unfolding among
All-Foreign w0 resources handlers t =
    All-map (Calm w0 [] [] resources) (λ (x : Bytes × Handler). Foreign w0 x.1.listens)
      (λ (x : Bytes × Handler) (c : Calm w0 [] [] resources x). c.0 refl) handlers t.1

same_input : (id : ℕ) (o o0 : Option Input) → Shared id false false o o0 → SameInput o o0
same_input id none none s = tt
same_input id none (some i0) s = s
same_input id (some i) none s = s
same_input id (some i) (some i0) s = (s.0, s.3 refl, s.1)

pub rollback-Restored :
    (w0 : World) (plan : Plan) (w : World) (p : Progress)
    → Settled plan.id w0
    → Undoable w0 plan w p
    → Restored w0 (rollback plan w p)
unfolding rollback among
rollback-Restored w0 plan w p settled (busy, ready, base) n = (
  ap (find n) end.1 ∙ (handled.0.0 n).1 refl,
  ap (find n) (end.2 ∙ handled.1.1) ∙ (dropped.2 n).1 refl,
  same_input plan.id (find n (drop_inputs p.added_inputs w4).inputs) (find n w0.inputs)
      ((end.0 n).1 refl),
)
  where
    resources : List Bytes
    resources = names p.resources_policies

    w1 : World
    w1 = stop p.policy w

    w2 : World
    w2 = detach_all plan p.added_inputs p.attached_inputs w1

    w3 : World
    w3 = drop_resources p.added_resources_policies w2

    w4 : World
    w4 = drop_handlers p.added_handlers w3

    stopped :
        Tracks w0 plan.id false [] p.added_handlers resources p.added_inputs p.attached_inputs
          p.added_resources_policies w1
    stopped =
        stop-Tracks w0 plan.id settled p.added_inputs p.added_handlers resources
          p.added_resources_policies busy p.attached_inputs p.policy w ready base.0

    detached :
        Tracks w0 plan.id false [] p.added_handlers resources p.added_inputs []
          p.added_resources_policies w2
    detached =
        detach_all-Tracks w0 plan settled p.added_handlers resources p.added_inputs
          p.added_resources_policies p.attached_inputs w1 stopped

    dropped : Tracks w0 plan.id false [] p.added_handlers resources p.added_inputs [] [] w3
    dropped =
        drop_resources-Tracks w0 plan.id settled p.added_handlers resources p.added_inputs base.1
          p.added_resources_policies w2 detached

    handled :
        TracksHandlers w0 [] [] resources w4.handlers
        × ((w4.inputs ≡ w3.inputs) × (w4.policies ≡ w3.policies))
    handled = drop_handlers-Tracks w0 resources p.added_handlers w3 dropped.0

    end :
        TracksInputs w0 plan.id [] [] false (drop_inputs p.added_inputs w4).inputs
        × ((drop_inputs p.added_inputs w4).handlers ≡ w4.handlers)
        × ((drop_inputs p.added_inputs w4).policies ≡ w4.policies)
    end =
        drop_inputs-Tracks w0 plan.id p.added_inputs w4
          (All-Foreign w0 resources w4.handlers handled.0)
          (subst (λ is. TracksInputs w0 plan.id p.added_inputs [] false is) (sym handled.1.0)
            dropped.1)
