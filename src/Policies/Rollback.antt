-- ===== src/Policies/Rollback.antt =====
-- The rollback of `PolicyManager::load` of src/Policies.cpp, and the load of one policy. A step that
-- throws leaves what it had done.
use pktvisor.Prelude.{false, Option, none, some, List, [], ◌∷◌, if◌then◌else◌, find, erase}
use pktvisor.Metrics.Utf8.{Bytes}
use pktvisor.Serializer.{bytes_key}
use pktvisor.Modules.{module_exists}
use pktvisor.Policies.{
  among, adjust, World, remove_policy, remove_input, remove_handler, stop, LoadError,
  already_defined, Faults,
}
use pktvisor.Policies.Removal.{remove_input_if_unused}
use pktvisor.Policies.Load.{Plan, Progress, Run, going, threw, run_load}

-- An input that the policy was attached to: detached, and freed if the load only reused it and
-- nothing else is left on it.
unfoldable pub detach : Plan → List Bytes → Bytes → World → World
detach plan added_inputs n w = elim (find n w.inputs) [
  | none ↦ w
  | some i ↦
      let w1 = record w { inputs = adjust n (remove_policy plan.id) w.inputs } in
      if among n added_inputs
      then w1
      else (remove_input_if_unused n (remove_policy plan.id i) plan.name w1).0
]

unfoldable pub detach_all : Plan → List Bytes → List Bytes → World → World
detach_all plan added_inputs [] w = w
detach_all plan added_inputs (n ∷ ns) w =
    detach_all plan added_inputs ns (detach plan added_inputs n w)

unfoldable pub drop_resources : List Bytes → World → World
drop_resources [] w = w
drop_resources (n ∷ ns) w = elim (find n w.policies) [
  | none ↦ drop_resources ns w
  | some policy ↦
      let w1 = stop policy w in drop_resources ns (record w1 { policies = erase n w1.policies })
]

unfoldable pub drop_handlers : List Bytes → World → World
drop_handlers [] w = w
drop_handlers (m ∷ ms) w = drop_handlers ms (remove_handler w m).0

unfoldable pub drop_inputs : List Bytes → World → World
drop_inputs [] w = w
drop_inputs (n ∷ ns) w = drop_inputs ns (remove_input w n).0

unfoldable pub rollback : Plan → World → Progress → World
rollback plan w p = drop_inputs p.added_inputs (
    drop_handlers p.added_handlers (
      drop_resources p.added_resources_policies
        (detach_all plan p.added_inputs p.attached_inputs (stop p.policy w))))

abbrev pub new_progress : Plan → Progress
new_progress plan = record {
  policy = record { id = plan.id; inputs = []; modules = []; running = false };
  added_inputs = [];
  added_handlers = [];
  attached_inputs = [];
  resources_policies = [];
  added_resources_policies = [];
}

-- `catch`: the rollback, and the exception again.
unfoldable pub catch_all : Plan → Run → World × Option LoadError
catch_all plan (going w p) = (w, none)
catch_all plan (threw w p e) = (rollback plan w p, some e)

-- The world after a load, and what it threw.
unfoldable pub load_policy : Faults → Plan → World → World × Option LoadError
load_policy faults plan w =
    if module_exists w.policies plan.name
    then (w, some already_defined)
    else catch_all plan (run_load faults plan w (new_progress plan))
