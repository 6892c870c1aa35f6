-- ===== src/Tests/Loads.antt =====
-- The theorem on the load of a policy, at a small world.
use pktvisor.Prelude.{
  ◌≡◌, ◌≤◌, subst, refl, inl, inr, Bool, true, false, none, some, [], ◌∷◌, Bool-cases, find, length,
  arith,
}
use pktvisor.Metrics.Utf8.{Bytes}
use pktvisor.Serializer.{same_bytes, same_bytes_sound, bytes_key}
use pktvisor.Policies.{
  Input, World, Faults, of_input, start_fails, among, adjust, add_policy, add_event_proxy, without,
  start_modules, start_inputs, start_all, start_idle, start,
}
use pktvisor.Policies.Load.{
  Plan, and_then, open_input, open_proxy, add_input_stream, made_handlers, make_handlers, register,
  join, attach_tap, attach_taps, add_resources, create_resources, create_all, start_policy,
  publish_all, publish, join_last, finish, run_load,
}
use pktvisor.Modules.{module_exists}
use pktvisor.Policies.Removal.{resources_name}
use pktvisor.Policies.Rollback.{catch_all, load_policy}
use pktvisor.Policies.Tracks.{Settled}
use pktvisor.Policies.Tracks.Restore.{Restored}
use pktvisor.Policies.Loading.Complete.{Loaded}
use pktvisor.Policies.Loading.Finish.{load_policy-Restored, load_policy-Loaded}

abbrev name_a : Bytes
name_a = b'a' ∷ []

abbrev name_b : Bytes
name_b = b'b' ∷ []

abbrev handler_h : Bytes
handler_h = b'h' ∷ []

abbrev reused : Input
reused = record { running = true; attached = 1 ∷ []; proxies = [] ∷ [] }

-- One input with one policy and its handler, and no resources policy.
abbrev world : World
world = record {
  inputs = (name_a, reused) ∷ [];
  handlers = (handler_h, record { running = true; listens = of_input name_a [] }) ∷ [];
  policies =
      (b'p' ∷ [], record { id = 1; inputs = name_a ∷ []; modules = handler_h ∷ []; running = true })
      ∷ [];
}

-- A policy for that input and for a new one, whose start throws after everything else has started.
abbrev plan : Plan
plan = record {
  name = b'q' ∷ [];
  id = 2;
  sequence = true;
  taps =
      record {
        tap = b't' ∷ [];
        input = name_a;
        filter = b'f' ∷ [];
        handlers = (b'x' ∷ []) ∷ (b'y' ∷ []) ∷ [];
      }
      ∷ record { tap = b'u' ∷ []; input = name_b; filter = []; handlers = (b'z' ∷ []) ∷ [] }
      ∷ [];
  resources_id = λ n. 3;
  no_filter = [];
}

abbrev nothing : Bytes → Bool
nothing n = false

abbrev faults : Faults
faults = record {
  tap = nothing;
  instantiate = nothing;
  handler = nothing;
  handler_start = nothing;
  input_start = λ n. true;
  proxy = λ n hash. false;
  config = false;
  has_resources = true;
}

settled : Settled 2 world
unfolding find without same_bytes
settled = (
  λ n i h. elim (Bool-cases (same_bytes name_a n)) [
    | inl t ↦
        let e : reused ≡ i = (let s : some reused ≡ some i = rw (t, find) at h in cc) in
        subst
          (λ (j : Input).
            (j.running ≡ true)
            × (1 ≤ length j.attached)
            × (without 2 j.attached ≡ j.attached)
            × (length j.attached ≡ 1 → find (resources_name n) world.policies ≡ none))
          e
          (
            refl,
            ground arith,
            refl,
            λ one.
                subst (λ m. find (resources_name m) world.policies ≡ none)
                  (same_bytes_sound name_a n t) refl,
          )
    | inr f ↦ absurd (cc (rw (f, find) at h))
  ],
  ((reused, refl), tt),
)

load_policy-Restored_example : Restored world (load_policy faults plan world).0
unfolding among same_bytes load_policy module_exists find catch_all run_load and_then attach_taps
    attach_tap open_input open_proxy add_event_proxy add_input_stream make_handlers register
    made_handlers add_resources create_all create_resources join start_policy adjust add_policy
    start start_all start_idle start_inputs start_modules
load_policy-Restored_example =
    load_policy-Restored faults plan world (start_fails name_b) settled ((refl, (refl, tt))) refl

-- With a start of the inputs that does not throw.
abbrev no_faults : Faults
no_faults = record faults { input_start = nothing }

load_policy-Loaded_example : Loaded world plan (load_policy no_faults plan world).0
unfolding among same_bytes load_policy module_exists find catch_all run_load and_then attach_taps
    attach_tap open_input open_proxy add_event_proxy add_input_stream make_handlers register
    made_handlers add_resources create_all create_resources join start_policy adjust add_policy
    start start_all start_idle start_inputs start_modules publish_all publish join_last finish
load_policy-Loaded_example =
    load_policy-Loaded no_faults plan world settled ((refl, (refl, tt))) refl
