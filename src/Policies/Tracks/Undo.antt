-- ===== src/Policies/Tracks/Undo.antt =====
-- The rollback of src/Policies.cpp: its stores are again those that the load began with.
use pktvisor.Prelude.{
  ℕ, ◌≤◌, ◌≡◌, refl, sym, subst, ◌∙◌, inl, inr, Bool, true, false, some, List, [], ◌∷◌, ◌++◌,
  append-nil, length, All, Bool-cases, find,
}
use pktvisor.Metrics.Utf8.{Bytes}
use pktvisor.Serializer.{bytes_key}
use pktvisor.Policies.{among, adjust, Input, Policy, World, leave, leave_inputs, stop, without}
use pktvisor.Policies.Tracks.{
  TracksHandlers, TracksInputs, TracksPolicies, Tracks, Settled, Distinct, Ready,
}
use pktvisor.Policies.Tracks.Inputs.{TracksInputs-own}
use pktvisor.Policies.Tracks.Attached.{TracksInputs-leave, TracksInputs-weaken}
use pktvisor.Policies.Tracks.Quiet.{stop_modules-Handling, stop_modules-Tracks}

pub leave_inputs-handlers :
    (id : ℕ) (ns : List Bytes) (w : World)
    → ((leave_inputs id ns w).handlers ≡ w.handlers)
      × ((leave_inputs id ns w).policies ≡ w.policies)
unfolding leave_inputs
leave_inputs-handlers id [] w = (refl, refl)
leave_inputs-handlers id (n ∷ ns) w =
    leave_inputs-handlers id ns (record w { inputs = adjust n (leave id) w.inputs })

module _ (w0 : World) (id : ℕ) (settled : Settled id w0) (added : List Bytes) where
  pub counted :
      (k : Bytes) (i0 : Input)
      → find k w0.inputs ≡ some i0
      → (1 ≤ length i0.attached) × (without id i0.attached ≡ i0.attached)
  counted k i0 e = let s = settled.0 k i0 e in (s.1, s.2)

  -- The policy of the load stops.
  leave_inputs-Tracks :
      (ns : List Bytes) (w : World)
      → Distinct ns
      → TracksInputs w0 id added ns true w.inputs
      → TracksInputs w0 id added [] true (leave_inputs id ns w).inputs
  unfolding leave_inputs
  leave_inputs-Tracks [] w d t = t
  leave_inputs-Tracks (n ∷ ns) w d t =
      leave_inputs-Tracks ns (record w { inputs = adjust n (leave id) w.inputs }) d.1
        (TracksInputs-leave w0 id added ns n w.inputs d.0 counted t)

  -- A resources policy of the load stops.
  pub leave_inputs-own :
      (other : ℕ) (attached : List Bytes) (sure : Bool) (ns : List Bytes) (w : World)
      → All (λ n. among n added ≡ true) ns
      → TracksInputs w0 id added attached sure w.inputs
      → TracksInputs w0 id added attached sure (leave_inputs other ns w).inputs
  unfolding leave_inputs
  leave_inputs-own other attached sure [] w h t = t
  leave_inputs-own other attached sure (n ∷ ns) w h t =
      leave_inputs-own other attached sure ns
        (record w { inputs = adjust n (leave other) w.inputs }) h.1
        (TracksInputs-own w0 id added attached sure n (leave other) w.inputs h.0 t)

  module _ (handlers resources published : List Bytes) where
    pub stop-Tracks :
        (busy attached : List Bytes) (p : Policy) (w : World)
        → Ready id busy handlers attached p
        → Tracks w0 id true busy handlers resources added attached published w
        → Tracks w0 id false [] handlers resources added attached published (stop p w)
    unfolding stop among
    stop-Tracks busy attached p w r t = elim (Bool-cases p.running) [
      | inr f ↦ rw f (
        subst (λ b. TracksHandlers w0 b handlers resources w.handlers) (r.2 f) t.0,
        TracksInputs-weaken w0 id added attached attached w.inputs (λ k h. h) t.1,
        t.2,
      )
      | inl u ↦
          let (b, m, i, d) = r.1 u in
          let w1 = leave_inputs p.id p.inputs w in
          let same = leave_inputs-handlers p.id p.inputs w in
          let end = stop_modules-Handling p.modules w1 in
          let joined = subst (λ ns. TracksInputs w0 id added ns true w.inputs) (sym i) t.1 in
          let left =
            subst (λ q. TracksInputs w0 id added [] true (leave_inputs q p.inputs w).inputs)
              (sym r.0) (leave_inputs-Tracks p.inputs w (subst Distinct (sym i) d) joined) in
          rw u (
            stop_modules-Tracks w0 handlers resources [] p.modules w1 m (
                subst (λ hs. TracksHandlers w0 (p.modules ++ []) handlers resources hs) (sym same.0)
                  (subst (λ ms. TracksHandlers w0 ms handlers resources w.handlers)
                    (b ∙ sym (append-nil p.modules)) t.0)),
            subst (λ is. TracksInputs w0 id added attached false is) (sym end.0)
                (TracksInputs-weaken w0 id added [] attached w1.inputs (λ k h. refl) left),
            subst (λ ps. TracksPolicies w0 added resources published ps) (sym (end.1 ∙ same.1)) t.2,
          )
    ]
