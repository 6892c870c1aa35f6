-- ===== src/Policies/Unload/Last.antt =====
-- The loop over the inputs of `PolicyManager::remove_policy` of src/Policies.cpp, at an input that only
-- its resources policy is left on, and the step of the loop.
use mathlib.Core.Option
use pktvisor.Prelude.{
  ℕ, ◌≡◌, sym, subst, ap, ◌∙◌, inl, inr, true, false, Option, none, some, List, ◌∷◌, ◌++◌, ◌==◌,
  if◌then◌else◌, length, Bool-cases, false≢true, nat_sound, find, erase, erase-All, find-erase_same,
  find-erase_other,
}
use pktvisor.Metrics.Utf8.{Bytes}
use pktvisor.Serializer.{same_bytes, same_bytes_sound, bytes_key}
use pktvisor.Modules.{module_exists}
use pktvisor.Policies.{
  among, adjust, Input, Handler, Policy, World, without, leave, stop_handler, stopped, RemoveError,
}
use pktvisor.Policies.Removal.{resources_name, remove_input_if_unused, remove_unused}
use pktvisor.Policies.Stores.{among-head, among-tail, among-append_right, find-adjust_other}
use pktvisor.Policies.Unload.{
  others, last_resources, freed, gone, input_after, handler_after, policy_after, IsInUse,
  HasResources, MayHear,
}
use pktvisor.Policies.Unload.Stopping.{Heard, stop-Heard}
use pktvisor.Policies.Unload.Settles.{Settles, Settles-next, gone-last, among-gone, not_gone}
use pktvisor.Policies.Unload.Unused.{leave-attached, without_resources, freed-with_resources}
use pktvisor.Policies.Unload.Silence.{idle-with_resources}
use pktvisor.Policies.Unload.Step.{
  and_left, or_right, Unloading, found, left_count, after_freed, step_freed, step_kept,
}

unused-next :
    (name n : Bytes) (ns : List Bytes) (i : Input) (w w' : World)
    → find n w.inputs ≡ some i
    → remove_input_if_unused n i name w ≡ (w', none)
    → remove_unused name (n ∷ ns) w ≡ remove_unused name ns w'
unfolding remove_unused
unused-next name n ns i w w' e r =
    rw (e, remove_unused)
      (ap
        (λ (s : World × Option RemoveError). elim s.1 [
          | some x ↦ (s.0, some x)
          | none ↦ remove_unused name ns s.0
        ])
        r)

module _ (name : Bytes) (p : Policy) (w0 : World) (n : Bytes) (ns : List Bytes) (w : World)
    (once : among n ns ≡ false) (here : among n p.inputs ≡ true) (used : IsInUse name p w0 n)
    (now : Unloading name p w0 (n ∷ ns) w) where
  abbrev before : Input
  before = used.1.0

  abbrev left : Input
  left = leave p.id before

  -- Only the resources policy is left, and goes before the input.
  step_resources :
      last_resources p w0 n ≡ true
      → (w' : World) × (remove_input_if_unused n left name w ≡ (w', none))
        × Unloading name p w0 ns w'
  step_resources t = (
    record (without_resources r n w) { inputs = erase n (adjust n (leave r) w.inputs) },
    freed-with_resources (MayHear p w0) n name r left w (found name p w0 n ns w once here used now)
        ((left_count name p w0 n ns w once here used now)
          ∙ nat_sound (others p w0 n) 1
              (and_left (others p w0 n == 1) (module_exists w0.policies rn) t))
        (ap (λ l. length (without r l)) (leave-attached p.id before) ∙ has.2 before used.1.1) used.0
        (sym (find-erase_other name rn w.policies used.0) ∙ (now.2 rn).0 pending ∙ has.1)
        (λ k may. false≢true (sym may ∙ spent)) now.3 (has.3.0, (now.1 rn).0 pending ∙ has.3.1)
        (idle-with_resources p w0 n here goes w.handlers now.3 (leave r left).proxies),
    (
      Settles-next n ns (λ k. Option.map (leave p.id) (find k w0.inputs)) (input_after p w0)
          (λ k. find k w.inputs) (λ k. find k (erase n (adjust n (leave r) w.inputs))) once
          (find-erase_same n (adjust n (leave r) w.inputs)
            ∙ after_freed name p w0 n ns w once here used now goes)
          (λ k g.
            find-erase_other n k (adjust n (leave r) w.inputs) g
            ∙ find-adjust_other n (leave r) k w.inputs g)
          now.0,
      Settles-next rn (gone p w0 ns) (λ k. find k w0.handlers) (handler_after p w0)
          (λ k. find k w.handlers) (λ k. find k handlers) (not_gone p w0 n ns once)
          (find-erase_same rn (adjust rn stop_handler w.handlers)
            ∙ sym (ap (λ b. if b then none else find rn w0.handlers) spent))
          (λ k g.
            find-erase_other rn k (adjust rn stop_handler w.handlers) g
            ∙ find-adjust_other rn stop_handler k w.handlers g)
          (subst
            (λ l. Settles l (λ k. find k w0.handlers) (handler_after p w0) (λ k. find k w.handlers))
            (gone-last p w0 n ns t) now.1),
      Settles-next rn (gone p w0 ns) (λ k. find k w0.policies) (policy_after name p w0)
          (λ k. find k (erase name w.policies)) (λ k. find k (erase name policies))
          (not_gone p w0 n ns once)
          (find-erase_other name rn policies used.0
            ∙ find-erase_same rn (adjust rn stopped w.policies)
            ∙ sym (
                ap (λ b. if b then none else find rn w0.policies)
                  (among-tail rn name (gone p w0 p.inputs) used.0
                    ∙ among-gone p w0 n p.inputs t here)))
          other_policy
          (subst
            (λ l.
              Settles l (λ k. find k w0.policies) (policy_after name p w0)
                (λ k. find k (erase name w.policies)))
            (gone-last p w0 n ns t) now.2),
      erase-All (Heard (MayHear p w0)) rn (adjust rn stop_handler w.handlers)
          (stop-Heard (MayHear p w0) rn w.handlers now.3),
    ),
  )
    where
      rn : Bytes
      rn = resources_name n

      has : HasResources p w0 n
      has = used.2 t

      r : ℕ
      r = has.0

      handlers : List (Bytes × Handler)
      handlers = erase rn (adjust rn stop_handler w.handlers)

      policies : List (Bytes × Policy)
      policies = erase rn (adjust rn stopped w.policies)

      goes : freed p w0 n ≡ true
      goes = or_right (others p w0 n == 0) (last_resources p w0 n) t

      pending : among rn (gone p w0 (n ∷ ns)) ≡ true
      pending =
          subst (λ l. among rn l ≡ true) (sym (gone-last p w0 n ns t))
            (among-head rn (gone p w0 ns))

      spent : among rn (p.modules ++ gone p w0 p.inputs) ≡ true
      spent =
          among-append_right rn p.modules (gone p w0 p.inputs) (among-gone p w0 n p.inputs t here)

      other_policy :
          (k : Bytes)
          → same_bytes rn k ≡ false
          → find k (erase name policies) ≡ find k (erase name w.policies)
      other_policy k g = elim (Bool-cases (same_bytes name k)) [
        | inl s ↦
            subst (λ j. find j (erase name policies) ≡ find j (erase name w.policies))
              (same_bytes_sound name k s)
              (find-erase_same name policies ∙ sym (find-erase_same name w.policies))
        | inr f ↦
            find-erase_other name k policies f
            ∙ find-erase_other rn k (adjust rn stopped w.policies) g
            ∙ find-adjust_other rn stopped k w.policies g
            ∙ sym (find-erase_other name k w.policies f)
      ]

  pub step :
      (w' : World) × (remove_unused name (n ∷ ns) w ≡ remove_unused name ns w')
      × Unloading name p w0 ns w'
  step =
      let (w', e, u) = one in
      (w', unused-next name n ns left w w' (found name p w0 n ns w once here used now) e, u)
    where
      one :
          (w' : World) × (remove_input_if_unused n left name w ≡ (w', none))
          × Unloading name p w0 ns w'
      one = elim (Bool-cases (last_resources p w0 n)) [
        | inl t ↦ step_resources t
        | inr f ↦ elim (Bool-cases (others p w0 n == 0)) [
          | inl z ↦ step_freed name p w0 n ns w once here used now f z
          | inr z ↦ step_kept name p w0 n ns w once here used now f z
        ]
      ]
