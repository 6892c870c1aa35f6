-- ===== src/Policies/Unload/Step.antt =====
-- A round of the loop over the inputs of `PolicyManager::remove_policy` of src/Policies.cpp, at an
-- input that stays or has no policy left.
use mathlib.Core.Option
use pktvisor.Prelude.{
  ℕ, ◌≡◌, refl, sym, subst, ap, ◌∙◌, inl, inr, Bool, true, false, ◌&&◌, ◌||◌, none, some, List, ◌∷◌,
  ◌==◌, if◌then◌else◌, leb, length, All, Bool-cases, Option-cases, arith, nat_sound, find, erase,
  find-erase_same, find-erase_other,
}
use pktvisor.Metrics.Utf8.{Bytes}
use pktvisor.Serializer.{same_bytes, bytes_key}
use pktvisor.Modules.{module_exists}
use pktvisor.Policies.{
  among, Input, Policy, World, without, remove_policy, leave, stop_input, policies_count,
}
use pktvisor.Policies.Removal.{resources_name, remove_input_if_unused}
use pktvisor.Policies.Stores.{among-head}
use pktvisor.Policies.Tracks.Detach.{kept_input}
use pktvisor.Policies.Unload.{
  others_of, others, last_resources, freed, gone, input_after, handler_after, policy_after, IsInUse,
  MayHear,
}
use pktvisor.Policies.Unload.Stopping.{Heard}
use pktvisor.Policies.Unload.Settles.{Settles, Settles-next, gone_other}
use pktvisor.Policies.Unload.Unused.{leave-attached, freed_input}
use pktvisor.Policies.Unload.Silence.{idle-plain}

pub and_left : (a b : Bool) → (a && b) ≡ true → a ≡ true
and_left true b h = refl
and_left false b h = h

pub or_right : (a b : Bool) → b ≡ true → (a || b) ≡ true
or_right true b h = refl
or_right false b h = h

absent-exists :
    {V : Type 0} (n : Bytes) (m : List (Bytes × V)) → module_exists m n ≡ false → find n m ≡ none
unfolding module_exists
absent-exists n m h = elim (Option-cases (find n m)) [
  | inl e ↦ e
  | inr (x, e) ↦ absurd (cc (rw (e, module_exists) at h))
]

-- An input with another policy goes on running.
leave-remove_policy :
    (id : ℕ) (i : Input) → leb (length i.attached) 1 ≡ false → leave id i ≡ remove_policy id i
unfolding leave
leave-remove_policy id i f = elim (Bool-cases i.running) [
  | inl t ↦
      ap (λ b. remove_policy id (if b then stop_input i else i))
        (ap (λ b. b && leb (length i.attached) 1) t ∙ f)
  | inr g ↦
      ap (λ b. remove_policy id (if b then stop_input i else i))
        (ap (λ b. b && leb (length i.attached) 1) g)
]

module _ (name : Bytes) (p : Policy) (w0 : World) where
  -- The inputs of `ns` are still to be dealt with.
  abbrev pub Unloading : List Bytes → World → Type 0
  Unloading ns w =
      Settles ns (λ k. Option.map (leave p.id) (find k w0.inputs)) (input_after p w0)
        (λ k. find k w.inputs)
      × Settles (gone p w0 ns) (λ k. find k w0.handlers) (handler_after p w0)
          (λ k. find k w.handlers)
      × Settles (gone p w0 ns) (λ k. find k w0.policies) (policy_after name p w0)
          (λ k. find k (erase name w.policies))
      × All (Heard (MayHear p w0)) w.handlers

  module _ (n : Bytes) (ns : List Bytes) (w : World) (once : among n ns ≡ false)
      (here : among n p.inputs ≡ true) (used : IsInUse name p w0 n)
      (now : Unloading (n ∷ ns) w) where
    abbrev pub before : Input
    before = used.1.0

    abbrev pub left : Input
    left = leave p.id before

    pub found : find n w.inputs ≡ some left
    found = (now.0 n).0 (among-head n ns) ∙ ap (Option.map (leave p.id)) used.1.1

    count : others p w0 n ≡ length (without p.id before.attached)
    count = ap (others_of p.id) used.1.1

    pub left_count : length left.attached ≡ others p w0 n
    left_count = ap length (leave-attached p.id before) ∙ sym count

    pub after_freed : freed p w0 n ≡ true → none ≡ input_after p w0 n
    after_freed g = sym (
        ap
          (λ b.
            if b
            then if freed p w0 n then none else Option.map (remove_policy p.id) (find n w0.inputs)
            else find n w0.inputs)
          here
        ∙ ap (λ b. if b then none else Option.map (remove_policy p.id) (find n w0.inputs)) g)

    after_kept : freed p w0 n ≡ false → some (remove_policy p.id before) ≡ input_after p w0 n
    after_kept g = sym (
        ap
          (λ b.
            if b
            then if freed p w0 n then none else Option.map (remove_policy p.id) (find n w0.inputs)
            else find n w0.inputs)
          here
        ∙ ap (λ b. if b then none else Option.map (remove_policy p.id) (find n w0.inputs)) g
        ∙ ap (Option.map (remove_policy p.id)) used.1.1)

    -- Without a resources policy to remove, only the input may change.
    plain :
        (inputs : List (Bytes × Input))
        → last_resources p w0 n ≡ false
        → find n inputs ≡ input_after p w0 n
        → ((k : Bytes) → same_bytes n k ≡ false → find k inputs ≡ find k w.inputs)
        → Unloading ns (record w { inputs = inputs })
    plain inputs f e same = (
      Settles-next n ns (λ k. Option.map (leave p.id) (find k w0.inputs)) (input_after p w0)
          (λ k. find k w.inputs) (λ k. find k inputs) once e same now.0,
      subst (λ l. Settles l (λ k. find k w0.handlers) (handler_after p w0) (λ k. find k w.handlers))
          (gone_other p w0 n ns f) now.1,
      subst
          (λ l.
            Settles l (λ k. find k w0.policies) (policy_after name p w0)
              (λ k. find k (erase name w.policies)))
          (gone_other p w0 n ns f) now.2,
      now.3,
    )

    -- No resources policy stands under the name of an input without one.
    no_resources :
        find (resources_name n) w0.policies ≡ none → find (resources_name n) w.policies ≡ none
    no_resources e =
        sym (find-erase_other name (resources_name n) w.policies used.0)
        ∙ elim (Bool-cases (among (resources_name n) (gone p w0 (n ∷ ns)))) [
          | inl a ↦ (now.2 (resources_name n)).0 a ∙ e
          | inr a ↦ (now.2 (resources_name n)).1 a ∙ nothing
        ]
      where
        nothing : policy_after name p w0 (resources_name n) ≡ none
        nothing = elim (Bool-cases (among (resources_name n) (name ∷ gone p w0 p.inputs))) [
          | inl a ↦ rw a refl
          | inr a ↦ rw a e
        ]

    -- The input is freed with no resources policy.
    pub step_freed :
        last_resources p w0 n ≡ false
        → (others p w0 n == 0) ≡ true
        → (w' : World) × (remove_input_if_unused n left name w ≡ (w', none)) × Unloading ns w'
    step_freed f z =
        let goes : freed p w0 n ≡ true = ap (λ b. b || last_resources p w0 n) z in
        let idle = idle-plain p w0 n here goes w.handlers now.3 left.proxies f in
        (
          record w { inputs = erase n w.inputs },
          freed_input n name left w found (left_count ∙ nat_sound (others p w0 n) 0 z) idle,
          plain (erase n w.inputs) f (find-erase_same n w.inputs ∙ after_freed goes)
              (λ k g. find-erase_other n k w.inputs g),
        )

    -- The input has other policies, and stays.
    pub step_kept :
        last_resources p w0 n ≡ false
        → (others p w0 n == 0) ≡ false
        → (w' : World) × (remove_input_if_unused n left name w ≡ (w', none)) × Unloading ns w'
    step_kept f z = (
      w,
      kept_input n name left w found (ap (λ c. c == 0) left_count ∙ z) alone,
      plain w.inputs f (found ∙ ap some stays ∙ after_kept kept) (λ k g. refl),
    )
      where
        kept : freed p w0 n ≡ false
        kept = ap (λ b. b || last_resources p w0 n) z ∙ f

        stays : left ≡ remove_policy p.id before
        stays =
            let c = count in
            let more = used.1.2 in
            let many : leb (length before.attached) 1 ≡ false = ground arith in
            leave-remove_policy p.id before many

        alone : (policies_count left == 1) ≡ true → find (resources_name n) w.policies ≡ none
        alone one = no_resources (
            absent-exists (resources_name n) w0.policies (
              sym (
                ap (λ b. b && module_exists w0.policies (resources_name n))
                  (sym (ap (λ c. c == 1) left_count) ∙ one))
              ∙ f))
