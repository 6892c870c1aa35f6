-- ===== src/Policies/Tracks.antt =====
-- What stays true of the stores while a load of src/Policies.cpp runs: against the world that it
-- began in, `w0`, they differ in what the lists of the load name and in how often its policy counts.
pub mod Handlers
pub mod Inputs
pub mod Attached
pub mod Quiet
pub mod Undo
pub mod Detach
pub mod Restore
pub mod Undone
use pktvisor.Prelude.{
  ℕ, suc, ◌≤◌, ◌≡◌, Bool, true, false, Option, none, some, List, [], ◌∷◌, ◌++◌, if◌then◌else◌,
  length, All, find,
}
use pktvisor.Metrics.Utf8.{Bytes}
use pktvisor.Serializer.{bytes_key}
use pktvisor.Policies.{among, Input, Handler, Policy, World, Source, of_input, of_handler, without}
use pktvisor.Policies.Removal.{resources_name}

-- A proxy of the world before.
abbrev pub Foreign : World → Source → Type 0
Foreign w0 (of_input n hash) = (i : Input) × (find n w0.inputs ≡ some i)
Foreign w0 (of_handler n) = (h : Handler) × (find n w0.handlers ≡ some h)

abbrev pub IsInput : Source → Type 0
IsInput (of_input n hash) = Unit
IsInput (of_handler n) = ⊥

-- The load added the handlers `added`; those of `resources` listen to inputs, and of the others
-- only those of `busy` may run.
abbrev pub Calm : World → List Bytes → List Bytes → List Bytes → Bytes × Handler → Type 0
Calm w0 busy added resources (k, h) =
    (among k added ≡ false → Foreign w0 h.listens)
    × (among k added ≡ true → among k resources ≡ true → IsInput h.listens)
    × (among k added ≡ true → among k resources ≡ false → h.running ≡ true → among k busy ≡ true)

abbrev pub TracksHandlers :
    World → List Bytes → List Bytes → List Bytes → List (Bytes × Handler) → Type 0
TracksHandlers w0 busy added resources handlers =
    ((n : Bytes)
      → (among n added ≡ true → find n w0.handlers ≡ none)
        × (among n added ≡ false → find n handlers ≡ find n w0.handlers))
    × All (Calm w0 busy added resources) handlers

-- An input that the load did not add: its state, and the policies that it counts, less the load's
-- own if it may have been attached; if that is sure, it counts one more at least.
abbrev pub Shared : ℕ → Bool → Bool → Option Input → Option Input → Type 0
Shared id sure attached none none = Unit
Shared id sure attached none (some i0) = ⊥
Shared id sure attached (some i) none = ⊥
Shared id sure attached (some i) (some i0) =
    (i.running ≡ i0.running)
    × ((extra : List Bytes) × (i.proxies ≡ i0.proxies ++ extra))
    × (without id i.attached ≡ i0.attached)
    × (attached ≡ false → i.attached ≡ i0.attached)
    × (sure ≡ true → attached ≡ true → suc (length i0.attached) ≤ length i.attached)

abbrev pub TracksInputs : World → ℕ → List Bytes → List Bytes → Bool → List (Bytes × Input) → Type 0
TracksInputs w0 id added attached sure inputs =
    (n : Bytes)
    → (among n added ≡ true → find n w0.inputs ≡ none)
      × (among n added ≡ false
          → Shared id sure (among n attached) (find n inputs) (find n w0.inputs))

-- A resources policy of the load.
abbrev pub IsResources : List Bytes → List Bytes → Bytes → Policy → Type 0
IsResources added resources name p =
    All (λ n. among n added ≡ true) p.inputs
    × All (λ m. among m resources ≡ true) p.modules
    × ((n : Bytes) × (among n added ≡ true) × (name ≡ resources_name n))

abbrev pub TracksPolicies :
    World → List Bytes → List Bytes → List Bytes → List (Bytes × Policy) → Type 0
TracksPolicies w0 added resources published policies =
    (n : Bytes)
    → (among n published ≡ true
        → (find n w0.policies ≡ none)
          × ((p : Policy) → find n policies ≡ some p → IsResources added resources n p)
          × ((m : Bytes) × (among m added ≡ true) × (n ≡ resources_name m)))
      × (among n published ≡ false → find n policies ≡ find n w0.policies)

-- All three stores.
abbrev pub Tracks :
    World
    → ℕ
    → Bool
    → List Bytes
    → List Bytes
    → List Bytes
    → List Bytes
    → List Bytes
    → List Bytes
    → World
    → Type 0
Tracks w0 id sure busy handlers resources inputs attached published w =
    TracksHandlers w0 busy handlers resources w.handlers
    × TracksInputs w0 id inputs attached sure w.inputs
    × TracksPolicies w0 inputs resources published w.policies

abbrev pub Distinct : List Bytes → Type 0
Distinct [] = Unit
Distinct (n ∷ ns) = (among n ns ≡ false) × Distinct ns

-- A policy that runs has joined its inputs, each once, and its handlers are those that may run.
abbrev pub Ready : ℕ → List Bytes → List Bytes → List Bytes → Policy → Type 0
Ready id busy handlers attached p =
    (p.id ≡ id)
    × (p.running ≡ true
        → (busy ≡ p.modules)
          × All (λ m. among m handlers ≡ true) p.modules
          × (p.inputs ≡ attached)
          × Distinct attached)
    × (p.running ≡ false → busy ≡ [])

-- A world that a load can begin in: every input runs and counts a policy other than the load's, and
-- where it counts only one there is no policy of the name of its resources policy; every handler
-- listens to an input or a handler of the world.
abbrev pub Settled : ℕ → World → Type 0
Settled id w =
    ((n : Bytes) (i : Input)
      → find n w.inputs ≡ some i
      → (i.running ≡ true)
        × (1 ≤ length i.attached)
        × (without id i.attached ≡ i.attached)
        × (length i.attached ≡ 1 → find (resources_name n) w.policies ≡ none))
    × All (λ (e : Bytes × Handler). Foreign w e.1.listens) w.handlers
