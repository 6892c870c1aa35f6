-- ===== src/Policies/Loading/Taps.antt =====
-- The loop of a load of src/Policies.cpp over the taps: wherever it throws, it can be undone.
use pktvisor.Prelude.{
  ◌≡◌, refl, sym, subst, ap, ◌∙◌, ◌⊎◌, inl, inr, true, false, List, [], ◌∷◌, ◌++◌, append_assoc,
  append-nil, All-map, Bool-cases, false≢true,
}
use pktvisor.Metrics.Utf8.{Bytes}
use pktvisor.Serializer.{same_bytes, same_bytes_sound, bytes_key}
use pktvisor.Policies.{among, Handler, World, of_input, Faults}
use pktvisor.Policies.Load.{
  TapPlan, Plan, Progress, and_then, open_input, open_proxy, add_input_stream, made_handlers,
  make_handlers, register, attach_tap, attach_taps,
}
use pktvisor.Policies.Stores.{among-head, among-append_right, All-among}
use pktvisor.Policies.Tracks.{Settled, Distinct}
use pktvisor.Policies.Tracks.Undone.{Base, Undoable}
use pktvisor.Policies.Loading.Phases.{
  inputs_of, Ends, and_then-Ends, Ends-map, Pending, Joined, Attaching, Attaching-Undoable,
  open_proxy-Ends,
}
use pktvisor.Policies.Loading.Attach.{
  made_names, made_idle, open_input-Ends, make_handlers-Ends, register-Ends, join-Ends,
}

module _ (w0 : World) (faults : Faults) (plan : Plan) (settled : Settled plan.id w0) where
  attach_tap-Ends :
      (t : TapPlan) (w : World) (p : Progress)
      → among t.input p.attached_inputs ≡ false
      → Attaching w0 plan w p × Joined p
      → Ends
          (λ w' p'.
            Attaching w0 plan w' p'
            × Joined p'
            × (p'.attached_inputs ≡ p.attached_inputs ++ t.input ∷ []))
          (Undoable w0 plan)
          (attach_tap faults plan t w p)
  unfolding attach_tap add_input_stream and_then
  attach_tap-Ends t w p new (a, j) = elim (Bool-cases (faults.tap t.tap)) [
    | inl u ↦ rw u (Attaching-Undoable w0 plan w p a)
    | inr u ↦ rw u (
        and_then-Ends Opened Done (Undoable w0 plan) (open_input faults t w p) _
          (open_input-Ends w0 faults plan settled p.attached_inputs t w p (a, j, refl))
          (λ w1 p1 g1.
            and_then-Ends Opened Done (Undoable w0 plan) (open_proxy faults t.input t.filter w1 p1)
              _ (proxy w1 p1 g1)
              (λ w2 p2 g2.
                and_then-Ends Made Done (Undoable w0 plan)
                  (make_handlers faults t.handlers w2 (record p2 {
                    policy = record (p2.policy) { inputs = p2.policy.inputs ++ t.input ∷ [] };
                  }))
                  _ (made w2 p2 g2)
                  (λ w4 p4 g4.
                    and_then-Ends Registered Done (Undoable w0 plan) (register entries w4 p4) _
                      (registered w4 p4 g4)
                      (λ w5 p5 g5.
                        join-Ends w0 faults plan settled p.attached_inputs t.input w5 p5 new g5)))))
  ]
    where
      entries : List (Bytes × Handler)
      entries = made_handlers plan.sequence (of_input t.input t.filter) t.handlers

      Opened : World → Progress → Type 0
      Opened w' p' = Attaching w0 plan w' p' × Joined p' × (p'.attached_inputs ≡ p.attached_inputs)

      Made : World → Progress → Type 0
      Made w' p' =
          Attaching w0 plan w' p'
          × Pending t.handlers p'
          × (p'.policy.inputs ≡ p.attached_inputs ++ t.input ∷ [])
          × (p'.attached_inputs ≡ p.attached_inputs)

      Registered : World → Progress → Type 0
      Registered w' p' =
          Attaching w0 plan w' p'
          × Pending [] p'
          × (p'.policy.inputs ≡ p.attached_inputs ++ t.input ∷ [])
          × (p'.attached_inputs ≡ p.attached_inputs)

      Done : World → Progress → Type 0
      Done w' p' =
          Attaching w0 plan w' p'
          × Joined p'
          × (p'.attached_inputs ≡ p.attached_inputs ++ t.input ∷ [])

      proxy :
          (w1 : World) (p1 : Progress)
          → Opened w1 p1
          → Ends Opened (Undoable w0 plan) (open_proxy faults t.input t.filter w1 p1)
      proxy w1 p1 (b, k, l) =
          Ends-map (λ w' p'. Base w0 plan [] w' p' × Rest p') Opened (Undoable w0 plan)
            (open_proxy faults t.input t.filter w1 p1)
            (λ w' p' g. ((g.0, g.1.0, g.1.1, g.1.2, g.1.3), g.1.4, g.1.5))
            (open_proxy-Ends w0 faults plan [] Rest t.input t.filter w1 p1 b.0
              (b.1, b.2, b.3, b.4, k, l) (Attaching-Undoable w0 plan w1 p1 b))
        where
          Rest : Progress → Type 0
          Rest p' =
              (p'.policy.id ≡ plan.id)
              × (p'.policy.running ≡ false)
              × (p'.resources_policies ≡ [])
              × (p'.added_resources_policies ≡ [])
              × Joined p'
              × (p'.attached_inputs ≡ p.attached_inputs)

      made :
          (w2 : World) (p2 : Progress)
          → Opened w2 p2
          → Ends Made (Undoable w0 plan) (
              make_handlers faults t.handlers w2 (record p2 {
                policy = record (p2.policy) { inputs = p2.policy.inputs ++ t.input ∷ [] };
              }))
      made w2 p2 (b, k, l) =
          Ends-map _ Made (Undoable w0 plan) _ (λ w' p' g. (g.0, g.1, g.2, g.3 ∙ l))
            (make_handlers-Ends w0 faults plan settled (p.attached_inputs ++ t.input ∷ [])
              t.handlers t.handlers w2
              (record p2 {
                policy = record (p2.policy) { inputs = p2.policy.inputs ++ t.input ∷ [] };
              })
              (All-among (λ h. among h t.handlers ≡ true) t.handlers (λ n h. h))
              (
                b,
                All-map (λ m. among m p2.added_handlers ≡ true)
                    (λ m. (among m p2.added_handlers ≡ true) ⊎ (among m t.handlers ≡ true))
                    (λ m u. inl u) p2.policy.modules k.0,
                ap (λ ns. ns ++ t.input ∷ []) (k.1 ∙ l),
              ))

      registered :
          (w4 : World) (p4 : Progress)
          → Made w4 p4
          → Ends Registered (Undoable w0 plan) (register entries w4 p4)
      registered w4 p4 (b, q, i, l) =
          register-Ends w0 faults plan settled (p.attached_inputs ++ t.input ∷ []) p.attached_inputs
            entries w4 p4 (made_idle plan.sequence (of_input t.input t.filter) t.handlers)
            (
              b,
              subst (λ ns. Pending ns p4)
                  (sym (made_names plan.sequence (of_input t.input t.filter) t.handlers)) q,
              i,
              l,
            )

-- Each name of a list once.
Distinct-next :
    (xs : List Bytes) (n : Bytes) (ys : List Bytes) → Distinct (xs ++ n ∷ ys) → among n xs ≡ false
unfolding among
Distinct-next [] n ys d = refl
Distinct-next (x ∷ xs) n ys d = elim (Bool-cases (same_bytes x n)) [
  | inr f ↦ rw f (Distinct-next xs n ys d.1)
  | inl t ↦ absurd (
      false≢true (
        sym d.0
        ∙ among-append_right x xs (n ∷ ys)
            (subst (λ m. among x (m ∷ ys) ≡ true) (same_bytes_sound x n t) (among-head x ys))))
]

pub attach_taps-Ends :
    (w0 : World) (faults : Faults) (plan : Plan) (settled : Settled plan.id w0) (every : List Bytes)
    (ts : List TapPlan) (w : World) (p : Progress)
    → Distinct every
    → Attaching w0 plan w p × Joined p × (p.attached_inputs ++ inputs_of ts ≡ every)
    → Ends
        (λ w' p'. Attaching w0 plan w' p' × Joined p' × (p'.attached_inputs ≡ every))
        (Undoable w0 plan)
        (attach_taps faults plan ts w p)
unfolding attach_taps
attach_taps-Ends w0 faults plan settled every [] w p d (a, j, e) =
    (a, j, sym (append-nil p.attached_inputs) ∙ e)
attach_taps-Ends w0 faults plan settled every (t ∷ ts) w p d (a, j, e) =
    and_then-Ends
      (λ w' p'.
        Attaching w0 plan w' p'
        × Joined p'
        × (p'.attached_inputs ≡ p.attached_inputs ++ t.input ∷ []))
      (λ w' p'. Attaching w0 plan w' p' × Joined p' × (p'.attached_inputs ≡ every))
      (Undoable w0 plan) (attach_tap faults plan t w p) (attach_taps faults plan ts)
      (attach_tap-Ends w0 faults plan settled t w p
        (Distinct-next p.attached_inputs t.input (inputs_of ts) (subst Distinct (sym e) d)) (a, j))
      (λ w' p'
          (g : Attaching w0 plan w' p'
            × Joined p'
            × (p'.attached_inputs ≡ p.attached_inputs ++ t.input ∷ [])).
        attach_taps-Ends w0 faults plan settled every ts w' p' d (
          g.0,
          g.1,
          ap (λ l. l ++ inputs_of ts) g.2
              ∙ append_assoc p.attached_inputs (t.input ∷ []) (inputs_of ts)
              ∙ e,
        ))
