-- ===== src/Policies/Unload/Finish.antt =====
-- A removal of a policy by src/Policies.cpp, as a whole.
use pktvisor.Prelude.{
  ◌≡◌, refl, sym, subst, ap, ◌∙◌, true, Option, none, some, List, [], ◌∷◌, All, find, erase,
}
use pktvisor.Metrics.Utf8.{Bytes}
use pktvisor.Serializer.{bytes_key}
use pktvisor.Config.Hash.{sort}
use pktvisor.Policies.{among, adjust, Policy, World, RemoveError, stopped, stop}
use pktvisor.Policies.Removal.{remove_handlers, remove_unused, distinct, remove_policy_by_name}
use pktvisor.Policies.Stores.{All-among}
use pktvisor.Policies.Tracks.{Distinct}
use pktvisor.Policies.Unload.{IsInUse, Removable, Removed}
use pktvisor.Policies.Unload.Settles.{All-at}
use pktvisor.Policies.Unload.Step.{Unloading}
use pktvisor.Policies.Unload.Last.{step}
use pktvisor.Policies.Unload.Order.{among-sort, sort-Distinct, distinct-Distinct}
use pktvisor.Policies.Unload.Start.{
  halted, started, stop-halted, remove_handlers-started, Unloading-started,
}

module _ (name : Bytes) (p : Policy) (w0 : World) where
  remove_unused-Unloading :
      (ns : List Bytes) (w : World)
      → Distinct ns
      → All (λ n. (among n p.inputs ≡ true) × IsInUse name p w0 n) ns
      → Unloading name p w0 ns w
      → (w' : World) × (remove_unused name ns w ≡ (w', none)) × Unloading name p w0 [] w'
  unfolding remove_unused
  remove_unused-Unloading [] w d h u = (w, refl, u)
  remove_unused-Unloading (n ∷ ns) w d h u =
      let (w1, e, v) = step name p w0 n ns w d.0 h.0.0 h.0.1 u in
      let (w2, f, x) = remove_unused-Unloading ns w1 d.1 h.1 v in (w2, e ∙ f, x)

  -- The steps of a removal, with what each leaves.
  in_steps :
      (w1 w2 w3 : World)
      → find name w0.policies ≡ some p
      → stop p (record w0 { policies = adjust name stopped w0.policies }) ≡ w1
      → remove_handlers p.modules w1 ≡ (w2, none)
      → remove_unused name (sort (distinct p.inputs)) w2 ≡ (w3, none)
      → remove_policy_by_name name w0 ≡ (record w3 { policies = erase name w3.policies }, none)
  unfolding remove_policy_by_name
  in_steps w1 w2 w3 e s h u =
      rw (e, remove_policy_by_name)
        (ap (λ w. after_handlers (remove_handlers p.modules w)) s
          ∙ ap after_handlers h
          ∙ ap after_inputs u)
    where
      after_inputs : World × Option RemoveError → World × Option RemoveError
      after_inputs s = elim s.1 [
        | some e ↦ (s.0, some e)
        | none ↦ (record (s.0) { policies = erase name s.0.policies }, none)
      ]

      after_handlers : World × Option RemoveError → World × Option RemoveError
      after_handlers r = elim r.1 [
        | some e ↦ (r.0, some e)
        | none ↦ after_inputs (remove_unused name (sort (distinct p.inputs)) r.0)
      ]

-- A removal of a policy throws nothing and leaves what `Removed` describes name by name: the
-- policy is gone, with its handlers; an input of it that no other policy is on, or only its
-- resources policy, is gone too, with that policy and its handler; the policy's other inputs
-- count it no more and run as before; and nothing else has changed. The policy runs and is no
-- input's resources policy. It names its inputs and handlers once each; the inputs count it, and
-- the handlers are registered and heard by each other at most. A resources policy that goes is
-- as a load makes it, and an input that is freed is heard by its resources handler besides.
pub remove_policy_by_name-Removed :
    (name : Bytes) (p : Policy) (w : World)
    → Removable name p w
    → ((remove_policy_by_name name w).1 ≡ none) × Removed name p w (remove_policy_by_name name w).0
unfolding among
remove_policy_by_name-Removed name p w ok =
    subst (λ (s : World × Option RemoveError). (s.1 ≡ none) × Removed name p w s.0)
      (sym (
        in_steps name p w (halted name p w ok) (started name p w ok) w3 ok.0
          (stop-halted name p w ok) (remove_handlers-started name p w ok)
          (ap (λ l. remove_unused name (sort l) (started name p w ok)) same ∙ e)))
      (refl, λ n. ((u.0 n).1 refl, (u.1 n).1 refl, (u.2 n).1 refl))
  where
    same : distinct p.inputs ≡ p.inputs
    same = distinct-Distinct p.inputs ok.2

    ns : List Bytes
    ns = sort p.inputs

    all : All (λ n. (among n p.inputs ≡ true) × IsInUse name p w n) ns
    all =
        All-among (λ n. (among n p.inputs ≡ true) × IsInUse name p w n) ns
          (λ n a.
            let b = sym (among-sort n p.inputs) ∙ a in
            (b, All-at (IsInUse name p w) n p.inputs ok.5 b))

    loop :
        (w' : World) × (remove_unused name ns (started name p w ok) ≡ (w', none))
        × Unloading name p w [] w'
    loop =
        remove_unused-Unloading name p w ns (started name p w ok) (sort-Distinct p.inputs ok.2) all
          (Unloading-started name p w ok ns (λ k. among-sort k p.inputs))

    w3 : World
    w3 = loop.0

    e : remove_unused name ns (started name p w ok) ≡ (w3, none)
    e = loop.1

    u : Unloading name p w [] w3
    u = loop.2
