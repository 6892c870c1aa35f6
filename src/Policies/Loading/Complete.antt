-- ===== src/Policies/Loading/Complete.antt =====
-- The end of a load by src/Policies.cpp, where the policy is put in the store.
use pktvisor.Prelude.{
  ◌≡◌, refl, sym, inl, inr, true, Option, none, some, List, [], ◌∷◌, ◌++◌, Bool-cases, Option-cases,
  find, ◌∙◌,
}
use pktvisor.Metrics.Utf8.{Bytes}
use pktvisor.Serializer.{bytes_key}
use pktvisor.Policies.{among, without, Input, Handler, Policy, World, Faults}
use pktvisor.Policies.Load.{Plan, Progress, finish}
use pktvisor.Policies.Tracks.{Settled, Shared}
use pktvisor.Policies.Tracks.Handlers.{find-added_same}
use pktvisor.Policies.Tracks.Undone.{Undoable}
use pktvisor.Modules.Store.{find-snoc_held}
use pktvisor.Policies.Loading.Phases.{inputs_of, Ends}
use pktvisor.Policies.Loading.Start.{Running, Running-Undoable}
use pktvisor.Policies.Loading.Register.{Publishing}

-- The policy is in the store and runs, with the inputs of its taps, and nothing that was there
-- before is disturbed: handlers and policies are as they were, and inputs run and count their other
-- policies.
abbrev pub Loaded : World → Plan → World → Type 0
Loaded w0 plan w =
    ((q : Policy) × (find plan.name w.policies ≡ some q)
      × (q.running ≡ true)
      × (q.id ≡ plan.id)
      × (q.inputs ≡ inputs_of plan.taps))
    × ((n : Bytes)
        → ((h : Handler) → find n w0.handlers ≡ some h → find n w.handlers ≡ some h)
          × ((q : Policy) → find n w0.policies ≡ some q → find n w.policies ≡ some q)
          × ((i0 : Input)
              → find n w0.inputs ≡ some i0
              → (i : Input) × (find n w.inputs ≡ some i)
                × (i.running ≡ true)
                × (without plan.id i.attached ≡ i0.attached)))

module _ (w0 : World) (faults : Faults) (plan : Plan) (settled : Settled plan.id w0)
    (added : List Bytes) (resources : List (Bytes × Policy)) where
  finished :
      (w : World) (p : Progress)
      → find plan.name w.policies ≡ none
      → Running w0 plan w p
      → Loaded w0 plan (record w { policies = w.policies ++ (plan.name, p.policy) ∷ [] })
  finished w p e (b, i, on, j, d, all) = (
    (p.policy, find-added_same plan.name p.policy w.policies e, on, i, j.1 ∙ d.1),
    λ n. ((λ h f. held_handler n h f), (λ q f. held_policy n q f), λ i0 f. held_input n i0 f),
  )
    where
      held_handler :
          (n : Bytes) (h : Handler) → find n w0.handlers ≡ some h → find n w.handlers ≡ some h
      held_handler n h f = elim (Bool-cases (among n p.added_handlers)) [
        | inl u ↦ absurd (let c : none ≡ some h = sym ((b.0.0.0 n).0 u) ∙ f in cc)
        | inr u ↦ (b.0.0.0 n).1 u ∙ f
      ]

      held_policy :
          (n : Bytes) (q : Policy)
          → find n w0.policies ≡ some q
          → find n (w.policies ++ (plan.name, p.policy) ∷ []) ≡ some q
      held_policy n q f = elim (Bool-cases (among n p.added_resources_policies)) [
        | inl u ↦ absurd (let c : none ≡ some q = sym ((b.0.2 n).0 u).0 ∙ f in cc)
        | inr u ↦
            find-snoc_held (λ (x : Policy). plan.name) n plan.name p.policy q w.policies
              ((b.0.2 n).1 u ∙ f)
      ]

      held_input :
          (n : Bytes) (i0 : Input)
          → find n w0.inputs ≡ some i0
          → (i : Input) × (find n w.inputs ≡ some i)
            × (i.running ≡ true)
            × (without plan.id i.attached ≡ i0.attached)
      held_input n i0 f = elim (Bool-cases (among n p.added_inputs)) [
        | inl u ↦ absurd (let c : none ≡ some i0 = sym ((b.0.1 n).0 u) ∙ f in cc)
        | inr u ↦ go (find n w.inputs) refl (rw (f) at ((b.0.1 n).1 u))
      ]
        where
          go :
              (o : Option Input)
              → find n w.inputs ≡ o
              → Shared plan.id true (among n p.attached_inputs) o (some i0)
              → (i : Input) × (find n w.inputs ≡ some i)
                × (i.running ≡ true)
                × (without plan.id i.attached ≡ i0.attached)
          go none e' s = absurd s
          go (some i') e' s = (i', e', s.0 ∙ (settled.0 n i0 f).0, s.2)

  pub finish-Ends :
      (w : World) (p : Progress)
      → Publishing w0 faults plan settled added resources w p
      → Ends (λ w' p'. Loaded w0 plan w') (Undoable w0 plan) (finish plan w p)
  unfolding finish
  finish-Ends w p g = elim (Option-cases (find plan.name w.policies)) [
    | inl e ↦ rw (e, finish) (finished w p e g.0)
    | inr (old, e) ↦ rw (e, finish) (Running-Undoable w0 plan w p g.0)
  ]
