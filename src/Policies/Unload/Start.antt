-- ===== src/Policies/Unload/Start.antt =====
-- The removal of a policy by src/Policies.cpp, once the policy is stopped and its handlers are gone.
use mathlib.Core.Option
use pktvisor.Prelude.{
  ◌≡◌, sym, subst, ap, ◌∙◌, ◌⊎◌, inl, inr, true, false, not, none, List, if◌then◌else◌, All,
  All-map, Bool-cases, false≢true, find, erase, find-erase_same, find-erase_other,
}
use pktvisor.Metrics.Utf8.{Bytes}
use pktvisor.Serializer.{same_bytes, same_bytes_sound, bytes_key}
use pktvisor.Policies.{
  among, adjust, Handler, Policy, World, of_handler, leave, leave_inputs, stop_modules, stopped,
  stop, remove_policy,
}
use pktvisor.Policies.Removal.{resources_name, remove_handlers}
use pktvisor.Policies.Stores.{among-head, among-tail, All-among, find-adjust_other}
use pktvisor.Policies.Tracks.Quiet.{stop_modules-Handling}
use pktvisor.Policies.Tracks.Undo.{leave_inputs-handlers}
use pktvisor.Policies.Unload.{
  last_resources, freed, gone, input_after, handler_after, policy_after, IsInUse, MayHear,
  Removable,
}
use pktvisor.Policies.Unload.Stopping.{
  leave_inputs_in, leave_inputs_other, stop_modules_other, stop_modules-IsHeld, stop_modules-Heard,
  IsHeld, Heard, Busy,
}
use pktvisor.Policies.Unload.Handlers.{
  erase_all, erase_all_in, erase_all_other, erase_all-All, remove_handlers-erase,
}
use pktvisor.Policies.Unload.Settles.{Settles, All-at, gone_origin}
use pktvisor.Policies.Unload.Order.{among-append_held, among-append_other, gone-same}
use pktvisor.Policies.Unload.Step.{Unloading}

module _ (name : Bytes) (p : Policy) (w0 : World) (ok : Removable name p w0) where
  -- The policy is marked as stopped, and the inputs that it left.
  abbrev marked : World
  marked = record w0 { policies = adjust name stopped w0.policies }

  abbrev left : World
  left = leave_inputs p.id p.inputs marked

  abbrev pub halted : World
  halted = stop_modules p.modules left

  pub stop-halted : stop p marked ≡ halted
  unfolding stop
  stop-halted = ap (λ b. if not b then marked else halted) ok.1

  abbrev pub started : World
  started = record halted { handlers = erase_all p.modules halted.handlers }

  same : (halted.inputs ≡ left.inputs) × (halted.policies ≡ left.policies)
  same = stop_modules-Handling p.modules left

  same_left : (left.handlers ≡ w0.handlers) × (left.policies ≡ marked.policies)
  same_left = leave_inputs-handlers p.id p.inputs marked

  heard : All (Heard (MayHear p w0)) halted.handlers
  heard = stop_modules-Heard (MayHear p w0) p.modules left (
      subst (All (Busy (MayHear p w0) p.modules)) (sym same_left.0) (
        All-map
          (λ (x : Bytes × Handler). (among x.0 p.modules ≡ true) ⊎ MayHear p w0 x.0 x.1.listens)
          (Busy (MayHear p w0) p.modules) (λ (x : Bytes × Handler) h u. h) w0.handlers ok.6))

  pub remove_handlers-started : remove_handlers p.modules halted ≡ (started, none)
  remove_handlers-started =
      remove_handlers-erase (MayHear p w0) p.modules halted ok.3
        (All-among (λ m. (k : Bytes) → MayHear p w0 k (of_handler m) → ⊥) p.modules
          (λ m a k may.
            false≢true (sym may ∙ among-append_held m p.modules (gone p w0 p.inputs) a)))
        (All-map (λ m. IsHeld m w0.handlers) (λ m. IsHeld m halted.handlers)
          (λ m h. stop_modules-IsHeld m p.modules left (subst (IsHeld m) (sym same_left.0) h))
          p.modules ok.4)
        heard

  -- The handlers besides the policy's are as they were.
  handler_kept :
      (k : Bytes) → among k p.modules ≡ false → find k started.handlers ≡ find k w0.handlers
  handler_kept k a =
      erase_all_other k p.modules halted.handlers a
      ∙ stop_modules_other k p.modules left a
      ∙ ap (find k) same_left.0

  module _ (ns : List Bytes) (order : (k : Bytes) → among k ns ≡ among k p.inputs) where
    used :
        (k : Bytes)
        → among k (gone p w0 ns) ≡ true
        → (n : Bytes) × (last_resources p w0 n ≡ true)
          × (resources_name n ≡ k)
          × IsInUse name p w0 n
    used k a =
        let (n, b, l, e) = gone_origin p w0 k ns a in
        (n, l, e, All-at (IsInUse name p w0) n p.inputs ok.5 (sym (order n) ∙ b))

    spared : (k : Bytes) → among k (gone p w0 ns) ≡ false → among k (gone p w0 p.inputs) ≡ false
    spared k a = gone-same p w0 k p.inputs ns (λ n b. order n ∙ b) a

    inputs_settle :
        Settles ns
          (λ k. Option.map (leave p.id) (find k w0.inputs))
          (input_after p w0)
          (λ k. find k started.inputs)
    inputs_settle k = (
      λ a. ap (find k) same.0 ∙ leave_inputs_in p.id k p.inputs marked ok.2 (sym (order k) ∙ a),
      λ a.
          let out = sym (order k) ∙ a in
          ap (find k) same.0
          ∙ leave_inputs_other p.id k p.inputs marked out
          ∙ sym (
              ap
                (λ b.
                  if b
                  then if freed p w0 k
                    then none
                    else Option.map (remove_policy p.id) (find k w0.inputs)
                  else find k w0.inputs)
                out),
    )

    handlers_settle :
        Settles
          (gone p w0 ns)
          (λ k. find k w0.handlers)
          (handler_after p w0)
          (λ k. find k started.handlers)
    handlers_settle k = (
      λ a.
          let (n, l, e, u) = used k a in
          handler_kept k (subst (λ j. among j p.modules ≡ false) e (u.2 l).4),
      λ a. elim (Bool-cases (among k p.modules)) [
        | inl b ↦
            erase_all_in k p.modules halted.handlers b
            ∙ sym (
                ap (λ c. if c then none else find k w0.handlers)
                  (among-append_held k p.modules (gone p w0 p.inputs) b))
        | inr b ↦
            handler_kept k b
            ∙ sym (
                ap (λ c. if c then none else find k w0.handlers)
                  (among-append_other k p.modules (gone p w0 p.inputs) b ∙ spared k a))
      ],
    )

    policy_kept :
        (k : Bytes)
        → same_bytes name k ≡ false
        → find k (erase name started.policies) ≡ find k w0.policies
    policy_kept k f =
        find-erase_other name k started.policies f
        ∙ ap (find k) (same.1 ∙ same_left.1)
        ∙ find-adjust_other name stopped k w0.policies f

    policies_settle :
        Settles
          (gone p w0 ns)
          (λ k. find k w0.policies)
          (policy_after name p w0)
          (λ k. find k (erase name started.policies))
    policies_settle k = (
      λ a.
          let (n, l, e, u) = used k a in
          policy_kept k (subst (λ j. same_bytes name j ≡ false) e u.0),
      λ a. elim (Bool-cases (same_bytes name k)) [
        | inl s ↦
            subst (λ j. find j (erase name started.policies) ≡ policy_after name p w0 j)
              (same_bytes_sound name k s)
              (find-erase_same name started.policies
                ∙ sym (
                    ap (λ c. if c then none else find name w0.policies)
                      (among-head name (gone p w0 p.inputs))))
        | inr f ↦
            policy_kept k f
            ∙ sym (
                ap (λ c. if c then none else find k w0.policies)
                  (among-tail k name (gone p w0 p.inputs) f ∙ spared k a))
      ],
    )

    pub Unloading-started : Unloading name p w0 ns started
    Unloading-started = (
      inputs_settle,
      handlers_settle,
      policies_settle,
      erase_all-All (Heard (MayHear p w0)) p.modules halted.handlers heard,
    )
