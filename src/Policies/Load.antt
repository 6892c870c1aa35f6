-- ===== src/Policies/Load.antt =====
-- `PolicyManager::load` of src/Policies.cpp for one policy, `create_resources_policy` and the
-- rollback. A plan is what the parsing before it gives: the taps with the name that each gives its
-- input, the hash of the filter and the names of the handlers. No other thread removes anything
-- meanwhile.
use pktvisor.Prelude.{
  ℕ, Bool, true, false, not, none, some, List, [], ◌∷◌, ◌++◌, if◌then◌else◌, find,
}
use pktvisor.Metrics.Utf8.{Bytes}
use pktvisor.Serializer.{bytes_key}
use pktvisor.Modules.{already_exists, does_not_exist, module_exists}
use pktvisor.Policies.{
  adjust, Input, Handler, Policy, World, Source, of_input, of_handler, add_policy, add_event_proxy,
  stop, LoadError, tap_fails, instantiate_fails, proxy_fails, handler_fails, start_fails, not_added,
  Faults, start,
}
use pktvisor.Policies.Removal.{resources_name}

pub record TapPlan : Type 0 where
  pub tap : Bytes
  pub input : Bytes
  pub filter : Bytes
  pub handlers : List Bytes

-- `resources_id` gives the pointers of the resources policies, `no_filter` the hash of an empty
-- configuration.
pub record Plan : Type 0 where
  pub name : Bytes
  pub id : ℕ
  pub sequence : Bool
  pub taps : List TapPlan
  pub resources_id : Bytes → ℕ
  pub no_filter : Bytes

-- The locals of a load.
pub record Progress : Type 0 where
  pub policy : Policy
  pub added_inputs : List Bytes
  pub added_handlers : List Bytes
  pub attached_inputs : List Bytes
  pub resources_policies : List (Bytes × Policy)
  pub added_resources_policies : List Bytes

pub data Run : Type 0 where
  going : World → Progress → Run
  threw : World → Progress → LoadError → Run

unfoldable pub and_then : Run → (World → Progress → Run) → Run
and_then (going w p) f = f w p
and_then (threw w p e) f = threw w p e

-- The input of a tap, made if it does not exist.
unfoldable pub open_input : Faults → TapPlan → World → Progress → Run
open_input faults t w p =
    if module_exists w.inputs t.input
    then going w p
    else if faults.instantiate t.input
    then threw w p (instantiate_fails t.input)
    else going
        (record w {
          inputs =
              w.inputs ++ (t.input, record { running = false; attached = []; proxies = [] }) ∷ [];
        })
        (record p { added_inputs = p.added_inputs ++ t.input ∷ [] })

-- The event proxy of an input for a filter.
unfoldable pub open_proxy : Faults → Bytes → Bytes → World → Progress → Run
open_proxy faults n hash w p = elim (find n w.inputs) [
  | none ↦ threw w p (not_added does_not_exist)
  | some i ↦ elim (add_event_proxy (faults.proxy n hash) hash i) [
    | none ↦ threw w p (proxy_fails n)
    | some j ↦ going (record w { inputs = adjust n (λ (k : Input). j) w.inputs }) p
  ]
]

unfoldable pub add_input_stream : Bytes → World → Progress → Run
add_input_stream n w p =
    going w (record p { policy = record (p.policy) { inputs = p.policy.inputs ++ n ∷ [] } })

-- The handlers of a tap; in a sequence each listens to the one before it.
unfoldable pub made_handlers : Bool → Source → List Bytes → List (Bytes × Handler)
made_handlers sequence source [] = []
made_handlers sequence source (h ∷ hs) =
    (h, record { running = false; listens = source })
    ∷ made_handlers sequence (if sequence then of_handler h else source) hs

-- The first handler that cannot be made, or else those of the policy.
unfoldable pub make_handlers : Faults → List Bytes → World → Progress → Run
make_handlers faults [] w p = going w p
make_handlers faults (h ∷ hs) w p = elim (faults.handler h) [
  | true ↦ threw w p (handler_fails h)
  | false ↦
      make_handlers faults hs w
        (record p { policy = record (p.policy) { modules = p.policy.modules ++ h ∷ [] } })
]

unfoldable pub register : List (Bytes × Handler) → World → Progress → Run
register [] w p = going w p
register ((n, h) ∷ hs) w p = elim (find n w.handlers) [
  | some old ↦ threw w p (not_added already_exists)
  | none ↦
      register hs (record w { handlers = w.handlers ++ (n, h) ∷ [] })
        (record p { added_handlers = p.added_handlers ++ n ∷ [] })
]

unfoldable pub join : ℕ → Bytes → World → Progress → Run
join id n w p =
    going (record w { inputs = adjust n (add_policy id) w.inputs })
      (record p { attached_inputs = p.attached_inputs ++ n ∷ [] })

-- The steps of the loop over the taps.
unfoldable pub attach_tap : Faults → Plan → TapPlan → World → Progress → Run
attach_tap faults plan t w p =
    if faults.tap t.tap
    then threw w p (tap_fails t.tap)
    else and_then (open_input faults t w p) (λ w1 p1.
      and_then (open_proxy faults t.input t.filter w1 p1) (λ w2 p2.
        and_then (add_input_stream t.input w2 p2) (λ w3 p3.
          and_then (make_handlers faults t.handlers w3 p3) (λ w4 p4.
            and_then
              (register (made_handlers plan.sequence (of_input t.input t.filter) t.handlers) w4 p4)
              (join plan.id t.input)))))

unfoldable pub attach_taps : Faults → Plan → List TapPlan → World → Progress → Run
attach_taps faults plan [] w p = going w p
attach_taps faults plan (t ∷ ts) w p =
    and_then (attach_tap faults plan t w p) (attach_taps faults plan ts)

-- The handler of a resources policy, started and then registered, and the policy.
unfoldable pub add_resources : Plan → Bytes → World → Progress → Run
add_resources plan n w p = elim (find (resources_name n) w.handlers) [
  | some old ↦ threw w p (not_added already_exists)
  | none ↦
      going
        (record w {
          handlers =
              w.handlers
              ++ (resources_name n, record { running = true; listens = of_input n plan.no_filter })
                ∷ [];
        })
        (record p {
          added_handlers = p.added_handlers ++ resources_name n ∷ [];
          resources_policies =
              p.resources_policies
              ++ (
                resources_name n,
                record {
                  id = plan.resources_id n;
                  inputs = n ∷ [];
                  modules = resources_name n ∷ [];
                  running = false;
                },
              )
                ∷ [];
        })
]

-- `create_resources_policy`
unfoldable pub create_resources : Faults → Plan → Bytes → World → Progress → Run
create_resources faults plan n w p =
    if not faults.has_resources
    then going w p
    else and_then (open_proxy faults n plan.no_filter w p) (λ w1 p1.
      if faults.handler (resources_name n)
      then threw w1 p1 (handler_fails (resources_name n))
      else if faults.handler_start (resources_name n)
      then threw w1 p1 (start_fails (resources_name n))
      else add_resources plan n w1 p1)

unfoldable pub create_all : Faults → Plan → List Bytes → World → Progress → Run
create_all faults plan [] w p = going w p
create_all faults plan (n ∷ ns) w p =
    and_then (create_resources faults plan n w p) (create_all faults plan ns)

unfoldable pub start_policy : Faults → World → Progress → Run
start_policy faults w p =
    let r = start faults faults.config p.policy w in
    elim r.2 [ some e ↦ threw r.0 p e | none ↦ going r.0 (record p { policy = r.1 }) ]

-- `input_stream().back()->add_policy`
unfoldable pub join_last : ℕ → List Bytes → World → World
join_last id [] w = w
join_last id (n ∷ []) w = record w { inputs = adjust n (add_policy id) w.inputs }
join_last id (n ∷ m ∷ ns) w = join_last id (m ∷ ns) w

-- A resources policy that is started, joins its input and is registered, or else stopped.
unfoldable pub publish : Faults → Bytes → Policy → World → Progress → Run
publish faults name policy w p =
    let r = start faults false policy w in
    elim r.2 [
      | some e ↦ threw r.0 p e
      | none ↦
          let w1 = join_last r.1.id r.1.inputs r.0 in
          elim (find name w1.policies) [
            | some old ↦ threw (stop r.1 w1) p (not_added already_exists)
            | none ↦
                going (record w1 { policies = w1.policies ++ (name, r.1) ∷ [] })
                  (record p { added_resources_policies = p.added_resources_policies ++ name ∷ [] })
          ]
    ]

unfoldable pub publish_all : Faults → List (Bytes × Policy) → World → Progress → Run
publish_all faults [] w p = going w p
publish_all faults ((name, policy) ∷ rest) w p =
    and_then (publish faults name policy w p) (publish_all faults rest)

unfoldable pub finish : Plan → World → Progress → Run
finish plan w p = elim (find plan.name w.policies) [
  | some old ↦ threw w p (not_added already_exists)
  | none ↦ going (record w { policies = w.policies ++ (plan.name, p.policy) ∷ [] }) p
]

-- Everything that may have to be undone.
unfoldable pub run_load : Faults → Plan → World → Progress → Run
run_load faults plan w p = and_then (attach_taps faults plan plan.taps w p) (λ w1 p1.
    and_then (create_all faults plan p1.added_inputs w1 p1) (λ w2 p2.
      and_then (start_policy faults w2 p2)
        (λ w3 p3. and_then (publish_all faults p3.resources_policies w3 p3) (finish plan))))
