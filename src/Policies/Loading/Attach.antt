-- ===== src/Policies/Loading/Attach.antt =====
-- The steps of a load of src/Policies.cpp for one tap: wherever one throws, the load can be undone.
use pktvisor.Prelude.{
  ◌≡◌, refl, sym, subst, ap, ◌∙◌, ◌⊎◌, inl, inr, Bool, true, false, List, [], ◌∷◌, ◌++◌,
  if◌then◌else◌, All, All-append, All-map, Bool-cases, Option-cases, false≢true, find,
}
use pktvisor.Metrics.Utf8.{Bytes}
use pktvisor.Serializer.{same_bytes, same_bytes_sound, bytes_key}
use pktvisor.Modules.{module_exists}
use pktvisor.Policies.{among, Handler, World, Source, of_handler, Faults}
use pktvisor.Policies.Load.{
  TapPlan, Plan, Progress, open_input, made_handlers, make_handlers, register, join,
}
use pktvisor.Policies.Stores.{among-snoc_same, among-snoc_held}
use pktvisor.Policies.Tracks.{TracksPolicies, Settled}
use pktvisor.Policies.Tracks.Handlers.{TracksHandlers-add}
use pktvisor.Policies.Tracks.Inputs.{TracksInputs-add}
use pktvisor.Policies.Tracks.Attached.{TracksInputs-join}
use pktvisor.Policies.Tracks.Undone.{names, Undoable}
use pktvisor.Policies.Loading.Phases.{
  Ends, unpublished, no_names, Pending, Joined, Attaching, Attaching-Undoable,
}

pub made_names :
    (sequence : Bool) (source : Source) (hs : List Bytes)
    → names (made_handlers sequence source hs) ≡ hs
unfolding made_handlers
made_names sequence source [] = refl
made_names sequence source (h ∷ hs) =
    ap (λ l. h ∷ l) (made_names sequence (if sequence then of_handler h else source) hs)

pub made_idle :
    (sequence : Bool) (source : Source) (hs : List Bytes)
    → All (λ (x : Bytes × Handler). x.1.running ≡ false) (made_handlers sequence source hs)
unfolding made_handlers
made_idle sequence source [] = tt
made_idle sequence source (h ∷ hs) =
    (refl, made_idle sequence (if sequence then of_handler h else source) hs)

module _ (w0 : World) (faults : Faults) (plan : Plan) (settled : Settled plan.id w0) where
  pub open_input-Ends :
      (attached : List Bytes) (t : TapPlan) (w : World) (p : Progress)
      → Attaching w0 plan w p × Joined p × (p.attached_inputs ≡ attached)
      → Ends
          (λ w' p'. Attaching w0 plan w' p' × Joined p' × (p'.attached_inputs ≡ attached))
          (Undoable w0 plan)
          (open_input faults t w p)
  unfolding open_input module_exists
  open_input-Ends attached t w p (a, j, k) = elim (Option-cases (find t.input w.inputs)) [
    | inr (i, e) ↦ rw (e, open_input) (a, j, k)
    | inl e ↦ elim (Bool-cases (faults.instantiate t.input)) [
      | inl u ↦ rw (e, open_input) (rw u (Attaching-Undoable w0 plan w p a))
      | inr u ↦
          rw (e, open_input)
            (rw u (
              (
                (
                  (
                    a.0.0.0,
                    TracksInputs-add w0 plan.id p.added_inputs p.attached_inputs true t.input
                        (record { running = false; attached = []; proxies = [] }) w.inputs e
                        a.0.0.1,
                    none_published w p a,
                  ),
                  a.0.1,
                ),
                a.1,
                a.2,
                a.3,
                a.4,
              ),
              j,
              k,
            ))
    ]
  ]
    where
      none_published :
          (w : World) (p : Progress)
          → Attaching w0 plan w p
          → TracksPolicies w0
              (p.added_inputs ++ t.input ∷ [])
              (names p.resources_policies)
              p.added_resources_policies
              w.policies
      none_published w p (b, i, r, s, q) =
          subst
            (λ ns.
              TracksPolicies w0 (p.added_inputs ++ t.input ∷ []) (names p.resources_policies) ns
                w.policies)
            (sym q)
            (unpublished w0 p.added_inputs (p.added_inputs ++ t.input ∷ [])
              (names p.resources_policies) (names p.resources_policies) w.policies
              (subst
                (λ ns. TracksPolicies w0 p.added_inputs (names p.resources_policies) ns w.policies)
                q b.0.2))

  pub make_handlers-Ends :
      (inputs hs all : List Bytes) (w : World) (p : Progress)
      → All (λ h. among h all ≡ true) hs
      → Attaching w0 plan w p × Pending all p × (p.policy.inputs ≡ inputs)
      → Ends
          (λ w' p'.
            Attaching w0 plan w' p'
            × Pending all p'
            × (p'.policy.inputs ≡ inputs)
            × (p'.attached_inputs ≡ p.attached_inputs))
          (Undoable w0 plan)
          (make_handlers faults hs w p)
  unfolding make_handlers
  make_handlers-Ends inputs [] all w p h (a, q, i) = (a, q, i, refl)
  make_handlers-Ends inputs (m ∷ hs) all w p h (a, q, i) = elim (Bool-cases (faults.handler m)) [
    | inl u ↦ rw (u, make_handlers) (Attaching-Undoable w0 plan w p a)
    | inr u ↦
        rw (u, make_handlers)
          (make_handlers-Ends inputs hs all w
            (record p { policy = record (p.policy) { modules = p.policy.modules ++ m ∷ [] } }) h.1
            (
              a,
              All-append (λ k. (among k p.added_handlers ≡ true) ⊎ (among k all ≡ true))
                  p.policy.modules (m ∷ []) q (inr h.0, tt),
              i,
            ))
  ]

  -- A pending handler is registered.
  settle :
      (n : Bytes) (ns added : List Bytes) (m : Bytes)
      → (among m added ≡ true) ⊎ (among m (n ∷ ns) ≡ true)
      → (among m (added ++ n ∷ []) ≡ true) ⊎ (among m ns ≡ true)
  unfolding among
  settle n ns added m (inl a) = inl (among-snoc_held m n added a)
  settle n ns added m (inr b) = elim (Bool-cases (same_bytes n m)) [
    | inr f ↦ inr (rw (f) at b)
    | inl t ↦ inl (
        subst (λ k. among k (added ++ n ∷ []) ≡ true) (same_bytes_sound n m t)
          (among-snoc_same n added))
  ]

  pub register-Ends :
      (inputs attached : List Bytes) (hs : List (Bytes × Handler)) (w : World) (p : Progress)
      → All (λ (x : Bytes × Handler). x.1.running ≡ false) hs
      → Attaching w0 plan w p
        × Pending (names hs) p
        × (p.policy.inputs ≡ inputs)
        × (p.attached_inputs ≡ attached)
      → Ends
          (λ w' p'.
            Attaching w0 plan w' p'
            × Pending [] p'
            × (p'.policy.inputs ≡ inputs)
            × (p'.attached_inputs ≡ attached))
          (Undoable w0 plan)
          (register hs w p)
  unfolding register among
  register-Ends inputs attached [] w p h x = x
  register-Ends inputs attached ((n, g) ∷ hs) w p h (a, q, i, j) =
      elim (Option-cases (find n w.handlers)) [
        | inr (old, e) ↦ rw (e, register) (Attaching-Undoable w0 plan w p a)
        | inl e ↦
            let (b, d, r, s, u) = a in
            rw (e, register)
              (register-Ends inputs attached hs (record w { handlers = w.handlers ++ (n, g) ∷ [] })
                (record p { added_handlers = p.added_handlers ++ n ∷ [] }) h.1
                (
                  (
                    (
                      (
                        TracksHandlers-add w0 [] p.added_handlers (names p.resources_policies)
                            (names p.resources_policies) n g w.handlers e (λ k f. refl)
                            (
                              (λ f.
                                  absurd (false≢true (sym f ∙ among-snoc_same n p.added_handlers))),
                              (λ f f'.
                                  absurd
                                    (false≢true (sym (no_names n p.resources_policies s) ∙ f'))),
                              λ f f' on. absurd (false≢true (sym h.0 ∙ on)),
                            )
                            b.0.0,
                        b.0.1,
                        b.0.2,
                      ),
                      λ m f. among-snoc_held m n p.added_handlers (b.1 m f),
                    ),
                    d,
                    r,
                    s,
                    u,
                  ),
                  All-map (λ m. (among m p.added_handlers ≡ true) ⊎ (among m (n ∷ names hs) ≡ true))
                      (λ m.
                        (among m (p.added_handlers ++ n ∷ []) ≡ true) ⊎ (among m (names hs) ≡ true))
                      (settle n (names hs) p.added_handlers) p.policy.modules q,
                  i,
                  j,
                ))
      ]

  pub join-Ends :
      (attached : List Bytes) (n : Bytes) (w : World) (p : Progress)
      → among n attached ≡ false
      → Attaching w0 plan w p
        × Pending [] p
        × (p.policy.inputs ≡ attached ++ n ∷ [])
        × (p.attached_inputs ≡ attached)
      → Ends
          (λ w' p'. Attaching w0 plan w' p' × Joined p' × (p'.attached_inputs ≡ attached ++ n ∷ []))
          (Undoable w0 plan)
          (join plan.id n w p)
  unfolding join among
  join-Ends attached n w p new (a, q, i, j) = (
    (
      (
        (
          a.0.0.0,
          TracksInputs-join w0 plan.id p.added_inputs p.attached_inputs n w.inputs
              (subst (λ ns. among n ns ≡ false) (sym j) new) (λ k i0 e. (settled.0 k i0 e).2)
              a.0.0.1,
          a.0.0.2,
        ),
        a.0.1,
      ),
      a.1,
      a.2,
      a.3,
      a.4,
    ),
    (
      All-map (λ m. (among m p.added_handlers ≡ true) ⊎ (among m [] ≡ true))
          (λ m. among m p.added_handlers ≡ true)
          (λ m s. elim s [ inl u ↦ u | inr u ↦ absurd (false≢true u) ]) p.policy.modules q,
      i ∙ ap (λ l. l ++ n ∷ []) (sym j),
    ),
    ap (λ l. l ++ n ∷ []) j,
  )
