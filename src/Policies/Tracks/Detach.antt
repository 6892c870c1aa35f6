-- ===== src/Policies/Tracks/Detach.antt =====
-- The rollback of src/Policies.cpp takes the policy off the inputs it was attached to. An input that
-- the load reused has its other policies still, and so is not freed.
use mathlib.Core.List.{append_cancel_right}
use pktvisor.Prelude.{
  ◌≡◌, refl, sym, subst, ap, ◌∙◌, inl, inr, true, false, Option, none, some, List, [], ◌∷◌, ◌==◌,
  length, Bool-cases, Option-cases, arith, false≢true, nat_sound, find,
}
use pktvisor.Metrics.Utf8.{Bytes}
use pktvisor.Serializer.{same_bytes, bytes_key}
use pktvisor.Policies.{among, adjust, Input, Policy, World, remove_policy, policies_count, without}
use pktvisor.Policies.Removal.{
  resources_name, resources_suffix, remove_last_resources, remove_unattached,
  remove_input_if_unused,
}
use pktvisor.Policies.Load.{Plan}
use pktvisor.Policies.Rollback.{detach, detach_all}
use pktvisor.Policies.Stores.{find-adjust_same}
use pktvisor.Policies.Tracks.{Shared, TracksInputs, TracksPolicies, Tracks, Settled}
use pktvisor.Policies.Tracks.Attached.{TracksInputs-detach}
use pktvisor.Policies.Tracks.Undo.{counted}

adjust_absent :
    (n : Bytes) (f : Input → Input) (m : List (Bytes × Input)) → find n m ≡ none → adjust n f m ≡ m
unfolding adjust find
adjust_absent n f [] h = refl
adjust_absent n f ((k, i) ∷ m) h = elim (Bool-cases (same_bytes k n)) [
  | inl t ↦ absurd (cc (rw (t, find) at h))
  | inr g ↦ rw (g, adjust) (ap (λ l. (k, i) ∷ l) (adjust_absent n f m (rw (g, find) at h)))
]

pub idle_resources :
    (n leaving : Bytes) (i : Input) (w : World)
    → ((policies_count i == 1) ≡ true → find (resources_name n) w.policies ≡ none)
    → remove_last_resources n leaving i w ≡ (w, none)
unfolding remove_last_resources
idle_resources n leaving i w h = elim (Bool-cases (policies_count i == 1)) [
  | inr f ↦ rw (f, remove_last_resources) refl
  | inl t ↦ elim (Bool-cases (same_bytes leaving (resources_name n))) [
    | inl u ↦ rw (t, remove_last_resources) (rw u refl)
    | inr u ↦ rw (t, remove_last_resources) (rw u (rw (h t) refl))
  ]
]

still_attached :
    (n : Bytes) (i : Input) (w : World)
    → find n w.inputs ≡ some i
    → (policies_count i == 0) ≡ false
    → remove_unattached n w ≡ (w, none)
unfolding remove_unattached
still_attached n i w e f = rw (e, remove_unattached) (rw f refl)

pub kept_input :
    (n leaving : Bytes) (i : Input) (w : World)
    → find n w.inputs ≡ some i
    → (policies_count i == 0) ≡ false
    → ((policies_count i == 1) ≡ true → find (resources_name n) w.policies ≡ none)
    → remove_input_if_unused n i leaving w ≡ (w, none)
unfolding remove_input_if_unused
kept_input n leaving i w e f h =
    rw (idle_resources n leaving i w h, remove_input_if_unused)
      (rw (idle_resources n leaving i w h) (still_attached n i w e f))

detach_absent :
    (plan : Plan) (added : List Bytes) (n : Bytes) (w : World)
    → find n w.inputs ≡ none
    → detach plan added n w ≡ w
unfolding detach
detach_absent plan added n w e = rw (e, detach) refl

module _ (w0 : World) (plan : Plan) (settled : Settled plan.id w0)
    (handlers resources added published : List Bytes) where
  -- No resources policy of the load stands under the name of an input's of the world before.
  no_resources :
      (n : Bytes) (policies : List (Bytes × Policy))
      → among n added ≡ false
      → find (resources_name n) w0.policies ≡ none
      → TracksPolicies w0 added resources published policies
      → find (resources_name n) policies ≡ none
  no_resources n policies u e t = elim (Bool-cases (among (resources_name n) published)) [
    | inr f ↦ (t (resources_name n)).1 f ∙ e
    | inl p ↦
        let (m, a, s) = ((t (resources_name n)).0 p).2 in
        let same = append_cancel_right n m resources_suffix s in
        absurd (false≢true (sym u ∙ subst (λ k. among k added ≡ true) (sym same) a))
  ]

  abbrev after : World → Bytes → World
  after w n = record w { inputs = adjust n (remove_policy plan.id) w.inputs }

  detach_plain :
      (attached : List Bytes) (n : Bytes) (i : Input) (w : World)
      → find n w.inputs ≡ some i
      → TracksInputs w0 plan.id added attached false w.inputs
      → TracksPolicies w0 added resources published w.policies
      → detach plan added n w ≡ after w n
  unfolding detach remove_policy
  detach_plain attached n i w e ti tp = elim (Bool-cases (among n added)) [
    | inl a ↦ rw (e, detach) (rw a refl)
    | inr u ↦ rw (e, detach) (rw u (reused u (find n w0.inputs) refl (rw (e) at ((ti n).1 u))))
  ]
    where
      reused :
          among n added ≡ false
          → (o0 : Option Input) → find n w0.inputs ≡ o0
          → Shared plan.id false (among n attached) (some i) (find n w0.inputs)
          → (remove_input_if_unused n (remove_policy plan.id i) plan.name (after w n)).0 ≡ after w n
      reused u none e0 s = absurd (rw (e0) at s)
      reused u (some i0) e0 s =
          let same : without plan.id i.attached ≡ i0.attached = (rw (e0) at s).2 in
          let count = ap length same in
          let c = (counted w0 plan.id settled added n i0 e0).0 in
          let l : length (without plan.id i.attached) ≡ length i0.attached = count in
          let busy : (length (without plan.id i.attached) == 0) ≡ false = ground arith in
          ap (λ r. r.0)
            (kept_input n plan.name (remove_policy plan.id i) (after w n)
              (find-adjust_same n (remove_policy plan.id) w.inputs i e) busy
              (λ one.
                no_resources n w.policies u
                  ((settled.0 n i0 e0).3
                    (sym l ∙ nat_sound (length (without plan.id i.attached)) 1 one))
                  tp))

  pub detach_all-Tracks :
      (ns : List Bytes) (w : World)
      → Tracks w0 plan.id false [] handlers resources added ns published w
      → Tracks w0 plan.id false [] handlers resources added [] published
          (detach_all plan added ns w)
  unfolding detach_all
  detach_all-Tracks [] w t = t
  detach_all-Tracks (n ∷ ns) w t = elim (Option-cases (find n w.inputs)) [
    | inl e ↦
        subst
          (λ u.
            Tracks w0 plan.id false [] handlers resources added [] published
              (detach_all plan added ns u))
          (sym (detach_absent plan added n w e))
          (detach_all-Tracks ns w (
            t.0,
            subst (TracksInputs w0 plan.id added ns false)
                (adjust_absent n (remove_policy plan.id) w.inputs e) left,
            t.2,
          ))
    | inr (i, e) ↦
        subst
          (λ u.
            Tracks w0 plan.id false [] handlers resources added [] published
              (detach_all plan added ns u))
          (sym (detach_plain (n ∷ ns) n i w e t.1 t.2))
          (detach_all-Tracks ns (after w n) (t.0, left, t.2))
  ]
    where
      left : TracksInputs w0 plan.id added ns false (adjust n (remove_policy plan.id) w.inputs)
      left =
          TracksInputs-detach w0 plan.id added ns n w.inputs
            (λ k i0 e. (counted w0 plan.id settled added k i0 e).1) t.1
