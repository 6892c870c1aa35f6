-- ===== src/Policies.antt =====
-- src/InputStream.h, src/InputStreamManager.h, src/HandlerManager.h and src/Policies.cpp: the stores
-- of inputs, handlers and policies, and what starts, stops and removes them. A pointer to an input
-- or a handler is its name in its store, a pointer to a policy is a number. A handler that runs has
-- a slot at least in the event proxy that it listens to, so a proxy has consumers exactly if a
-- handler that runs listens to it. No stop throws. What the callbacks of an event proxy do when a
-- policy joins or leaves is not modelled.
pub mod Load
pub mod Loading
pub mod Removal
pub mod Rollback
pub mod Stores
pub mod Tracks
pub mod Unload
use pktvisor.Prelude.{
  ℕ, zero, suc, Bool, true, false, ◌&&◌, not, Option, none, some, List, [], ◌∷◌, ◌++◌,
  if◌then◌else◌, leb, ◌==◌, length, find, erase, Key,
}
use pktvisor.Metrics.Utf8.{Bytes}
use pktvisor.Serializer.{same_bytes, bytes_key}
use pktvisor.Modules.{ModuleError, already_exists, does_not_exist}

-- `std::find` in a list of names.
unfoldable pub among : Bytes → List Bytes → Bool
among name [] = false
among name (n ∷ ns) = let rest = among name ns in if same_bytes n name then true else rest

-- A change of the value that a pointer leads to.
module _ {V : Type 0} where
  unfoldable pub adjust : Bytes → (V → V) → List (Bytes × V) → List (Bytes × V)
  adjust name change [] = []
  adjust name change ((k, v) ∷ m) =
      let rest = adjust name change m in
      if same_bytes k name then (k, change v) ∷ rest else (k, v) ∷ rest

-- An event proxy is its hash.
pub record Input : Type 0 where
  pub running : Bool
  pub attached : List ℕ
  pub proxies : List Bytes

-- The proxy that a handler listens to: one of an input, or that of a handler before it.
pub data Source : Type 0 where
  of_input : Bytes → Bytes → Source
  of_handler : Bytes → Source

pub record Handler : Type 0 where
  pub running : Bool
  pub listens : Source

pub record Policy : Type 0 where
  pub id : ℕ
  pub inputs : List Bytes
  pub modules : List Bytes
  pub running : Bool

pub record World : Type 0 where
  pub inputs : List (Bytes × Input)
  pub handlers : List (Bytes × Handler)
  pub policies : List (Bytes × Policy)

-- `InputStream`
unfoldable pub add_policy : ℕ → Input → Input
add_policy id i = record i { attached = i.attached ++ id ∷ [] }

unfoldable pub without : ℕ → List ℕ → List ℕ
without id [] = []
without id (p ∷ ps) = let rest = without id ps in if p == id then rest else p ∷ rest

unfoldable pub remove_policy : ℕ → Input → Input
remove_policy id i = record i { attached = without id i.attached }

abbrev pub policies_count : Input → ℕ
policies_count i = length i.attached

-- The input with a proxy of the hash, or none if making it throws.
unfoldable pub add_event_proxy : Bool → Bytes → Input → Option Input
add_event_proxy throws hash i =
    if among hash i.proxies
    then some i
    else if throws
    then none
    else some (record i { proxies = i.proxies ++ hash ∷ [] })

abbrev pub stop_input : Input → Input
stop_input i = record i { running = false }

abbrev pub stop_handler : Handler → Handler
stop_handler h = record h { running = false }

abbrev pub run_input : Input → Input
run_input i = record i { running = true }

abbrev pub run_handler : Handler → Handler
run_handler h = record h { running = true }

unfoldable pub same_source : Source → Source → Bool
same_source (of_input i p) (of_input j q) = same_bytes i j && same_bytes p q
same_source (of_input i p) (of_handler n) = false
same_source (of_handler m) (of_input j q) = false
same_source (of_handler m) (of_handler n) = same_bytes m n

-- The handlers that run and listen to a proxy.
unfoldable pub consumers : Source → List (Bytes × Handler) → ℕ
consumers source [] = 0
consumers source ((k, h) ∷ hs) =
    let rest = consumers source hs in
    if h.running && same_source h.listens source then suc rest else rest

-- `InputStream::consumer_count`: each proxy's count replaces the one before it.
unfoldable pub consumer_count : List (Bytes × Handler) → Bytes → List Bytes → ℕ
consumer_count handlers input [] = 0
consumer_count handlers input (hash ∷ []) = consumers (of_input input hash) handlers
consumer_count handlers input (hash ∷ next ∷ hashes) = consumer_count handlers input (next ∷ hashes)

-- What the managers' `module_remove` throws.
pub data RemoveError : Type 0 where
  missing has_consumers : RemoveError

-- `InputStreamManager::module_remove`
unfoldable pub remove_input : World → Bytes → World × Option RemoveError
remove_input w name = elim (find name w.inputs) [
  | none ↦ (w, some missing)
  | some i ↦
      if consumer_count w.handlers name i.proxies == 0
      then (record w { inputs = erase name w.inputs }, none)
      else (w, some has_consumers)
]

-- `HandlerManager::module_remove`
unfoldable pub remove_handler : World → Bytes → World × Option RemoveError
remove_handler w name = elim (find name w.handlers) [
  | none ↦ (w, some missing)
  | some h ↦
      if consumers (of_handler name) w.handlers == 0
      then (record w { handlers = erase name w.handlers }, none)
      else (w, some has_consumers)
]

-- `Policy::stop`
unfoldable pub leave : ℕ → Input → Input
leave id i = remove_policy id (if i.running && leb (policies_count i) 1 then stop_input i else i)

unfoldable pub leave_inputs : ℕ → List Bytes → World → World
leave_inputs id [] w = w
leave_inputs id (n ∷ ns) w = leave_inputs id ns (record w { inputs = adjust n (leave id) w.inputs })

unfoldable pub stop_modules : List Bytes → World → World
stop_modules [] w = w
stop_modules (m ∷ ms) w = stop_modules ms (record w { handlers = adjust m stop_handler w.handlers })

unfoldable pub stop : Policy → World → World
stop p w = if not p.running then w else stop_modules p.modules (leave_inputs p.id p.inputs w)

abbrev pub stopped : Policy → Policy
stopped p = record p { running = false }

-- What a load throws, by the call that threw it.
pub data LoadError : Type 0 where
  already_defined policy_config : LoadError
  tap_fails instantiate_fails proxy_fails handler_fails start_fails : Bytes → LoadError
  not_added : ModuleError → LoadError

-- Which calls into the plugins throw.
pub record Faults : Type 0 where
  pub tap : Bytes → Bool
  pub instantiate : Bytes → Bool
  pub handler : Bytes → Bool
  pub handler_start : Bytes → Bool
  pub input_start : Bytes → Bool
  pub proxy : Bytes → Bytes → Bool
  pub config : Bool
  pub has_resources : Bool

-- `Policy::start`: a module or an input that runs already is left alone.
unfoldable pub start_modules : Faults → List Bytes → World → World × Option LoadError
start_modules faults [] w = (w, none)
start_modules faults (m ∷ ms) w = elim (find m w.handlers) [
  | none ↦ (w, some (not_added does_not_exist))
  | some h ↦ elim h.running [
    | true ↦ start_modules faults ms w
    | false ↦ elim (faults.handler_start m) [
      | true ↦ (w, some (start_fails m))
      | false ↦ start_modules faults ms (record w { handlers = adjust m run_handler w.handlers })
    ]
  ]
]

unfoldable pub start_inputs : Faults → List Bytes → World → World × Option LoadError
start_inputs faults [] w = (w, none)
start_inputs faults (n ∷ ns) w = elim (find n w.inputs) [
  | none ↦ (w, some (not_added does_not_exist))
  | some i ↦ elim i.running [
    | true ↦ start_inputs faults ns w
    | false ↦ elim (faults.input_start n) [
      | true ↦ (w, some (start_fails n))
      | false ↦ start_inputs faults ns (record w { inputs = adjust n run_input w.inputs })
    ]
  ]
]

-- After an exception the modules that run are stopped, and the inputs are left as they are.
unfoldable pub start_all : Faults → Policy → World → World × Option LoadError
start_all faults p w =
    let r = start_modules faults p.modules w in
    elim r.1 [
      | some e ↦ (stop_modules p.modules r.0, some e)
      | none ↦
          let s = start_inputs faults p.inputs r.0 in
          elim s.1 [ some e ↦ (stop_modules p.modules s.0, some e) | none ↦ (s.0, none) ]
    ]

-- The world and the policy after it, and what it threw. `throws` is the reading of the policy's
-- configuration.
unfoldable pub start_idle : Faults → Bool → Policy → World → World × Policy × Option LoadError
start_idle faults throws p w =
    if throws
    then (w, p, some policy_config)
    else let r = start_all faults p w in
      elim r.1 [ some e ↦ (r.0, p, some e) | none ↦ (r.0, record p { running = true }, none) ]

unfoldable pub start : Faults → Bool → Policy → World → World × Policy × Option LoadError
start faults throws p w = if p.running then (w, p, none) else start_idle faults throws p w
