-- ===== src/Policies/Unload/Unused.antt =====
-- `_remove_input_if_unused` of src/Policies.cpp, in each of its cases: an input that is still used,
-- one with no policy, and one with only its resources policy.
use pktvisor.Prelude.{
  ℕ, ◌≡◌, refl, ap, ◌∙◌, inl, inr, true, false, ◌&&◌, Option, none, some, ◌==◌, if◌then◌else◌, leb,
  length, All, Bool-cases, arith, find, erase,
}
use pktvisor.Metrics.Utf8.{Bytes}
use pktvisor.Serializer.{same_bytes, bytes_key}
use pktvisor.Policies.{
  adjust, Input, World, Source, of_handler, without, consumer_count, remove_input, RemoveError,
  remove_policy, policies_count, stop_input, stop_handler, leave, leave_inputs, stop, stop_modules,
  stopped, remove_handler,
}
use pktvisor.Policies.Removal.{
  resources_name, remove_resources, remove_last_resources, remove_unattached,
  remove_input_if_unused,
}
use pktvisor.Policies.Stores.{find-adjust_same}
use pktvisor.Policies.Tracks.Detach.{idle_resources}
use pktvisor.Policies.Unload.{own_resources}
use pktvisor.Policies.Unload.Stopping.{IsHeld, Heard, adjust-IsHeld, stop-Heard}
use pktvisor.Policies.Unload.Handlers.{remove_handler-erase}

pub leave-attached : (id : ℕ) (i : Input) → (leave id i).attached ≡ without id i.attached
unfolding leave remove_policy
leave-attached id i = elim (Bool-cases (i.running && leb (policies_count i) 1)) [
  | inl t ↦ ap (λ b. without id (if b then stop_input i else i).attached) t
  | inr f ↦ ap (λ b. without id (if b then stop_input i else i).attached) f
]

remove_unattached-erase :
    (n : Bytes) (i : Input) (w : World)
    → find n w.inputs ≡ some i
    → (policies_count i == 0) ≡ true
    → consumer_count w.handlers n i.proxies ≡ 0
    → remove_unattached n w ≡ (record w { inputs = erase n w.inputs }, none)
unfolding remove_unattached remove_input
remove_unattached-erase n i w e c z =
    let idle = ap (λ m. m == 0) z in
    rw (e, remove_unattached) (rw c (rw (e, remove_input) (rw idle refl)))

-- No policy is left.
pub freed_input :
    (n leaving : Bytes) (i : Input) (w : World)
    → find n w.inputs ≡ some i
    → length i.attached ≡ 0
    → consumer_count w.handlers n i.proxies ≡ 0
    → remove_input_if_unused n i leaving w ≡ (record w { inputs = erase n w.inputs }, none)
unfolding remove_input_if_unused
freed_input n leaving i w e c z =
    let first =
      idle_resources n leaving i w
        (λ one. absurd (let two : (length i.attached == 1) ≡ true = one in ground arith)) in
    rw (first, remove_input_if_unused)
      (rw first (remove_unattached-erase n i w e (ap (λ m. m == 0) c) z))

-- The world without a resources policy and its handler.
abbrev pub without_resources : ℕ → Bytes → World → World
without_resources r n w = record {
  inputs = adjust n (leave r) w.inputs;
  handlers = erase (resources_name n) (adjust (resources_name n) stop_handler w.handlers);
  policies = erase (resources_name n) (adjust (resources_name n) stopped w.policies);
}

module _ (may : Bytes → Source → Type 0) where
  remove_resources-without :
      (n : Bytes) (r : ℕ) (w : World)
      → ((k : Bytes) → may k (of_handler (resources_name n)) → ⊥)
      → All (Heard may) w.handlers
      → IsHeld (resources_name n) w.handlers
      → remove_resources (resources_name n) (own_resources r n) w ≡ (without_resources r n w, none)
  unfolding remove_resources stop leave_inputs stop_modules
  remove_resources-without n r w apart heard h =
      let w1 : World = record {
        inputs = adjust n (leave r) w.inputs;
        handlers = adjust (resources_name n) stop_handler w.handlers;
        policies = adjust (resources_name n) stopped w.policies;
      } in
      let one : remove_handler w1 (resources_name n)
          ≡ (record w1 { handlers = erase (resources_name n) w1.handlers }, none) =
        remove_handler-erase may (resources_name n) w1 apart
          (stop-Heard may (resources_name n) w.handlers heard)
          (adjust-IsHeld (resources_name n) (resources_name n) w.handlers h) in
      ap
        (λ (s : World × Option RemoveError). elim s.1 [
          | some e ↦ (s.0, some e)
          | none ↦ (record (s.0) { policies = erase (resources_name n) s.0.policies }, none)
        ])
        one

  -- Only the resources policy is left.
  pub freed-with_resources :
      (n leaving : Bytes) (r : ℕ) (i : Input) (w : World)
      → find n w.inputs ≡ some i
      → length i.attached ≡ 1
      → length (without r i.attached) ≡ 0
      → same_bytes leaving (resources_name n) ≡ false
      → find (resources_name n) w.policies ≡ some (own_resources r n)
      → ((k : Bytes) → may k (of_handler (resources_name n)) → ⊥)
      → All (Heard may) w.handlers
      → IsHeld (resources_name n) w.handlers
      → consumer_count (without_resources r n w).handlers n (leave r i).proxies ≡ 0
      → remove_input_if_unused n i leaving w ≡ (
        record (without_resources r n w) { inputs = erase n (adjust n (leave r) w.inputs) },
        none,
      )
  unfolding remove_input_if_unused remove_last_resources
  freed-with_resources n leaving r i w e c z s q apart heard h idle =
      let one : (length i.attached == 1) ≡ true = ground arith in
      let first : remove_last_resources n leaving i w ≡ (without_resources r n w, none) =
        rw (one, remove_last_resources)
          (rw s (rw q (remove_resources-without n r w apart heard h))) in
      rw (first, remove_input_if_unused)
        (rw first (
          remove_unattached-erase n (leave r i) (without_resources r n w)
            (find-adjust_same n (leave r) w.inputs i e)
            (ap (λ l. length l == 0) (leave-attached r i) ∙ ap (λ m. m == 0) z) idle))
