-- ===== src/Policies/Tracks/Restore.antt =====
-- The rollback of src/Policies.cpp as a whole: the stores are those that the load began with.
use pktvisor.Prelude.{
  ℕ, ◌≡◌, refl, sym, subst, ap, ◌∙◌, inl, inr, Bool, true, false, ◌&&◌, Option, none, some, List,
  [], ◌∷◌, ◌++◌, ◌==◌, All, All-map, Bool-cases, Option-cases, find, erase, find-erase_same,
  find-erase_other, erase_absent,
}
use pktvisor.Metrics.Utf8.{Bytes}
use pktvisor.Serializer.{same_bytes, same_bytes_sound, bytes_key}
use pktvisor.Policies.{
  among, Input, Handler, Policy, World, Source, of_input, of_handler, consumer_count, same_source,
  leave_inputs, stop, remove_input,
}
use pktvisor.Policies.Removal.{resources_name}
use pktvisor.Policies.Rollback.{drop_resources, drop_inputs}
use pktvisor.Policies.Stores.{among-head, among-tail, among-append_right, Deaf, consumers-zero}
use pktvisor.Policies.Tracks.{
  Foreign, Shared, TracksHandlers, TracksInputs, TracksPolicies, Tracks, Settled, IsResources,
}
use pktvisor.Policies.Tracks.Handlers.{TracksHandlers-weaken}
use pktvisor.Policies.Tracks.Quiet.{stop_modules-Handling, stop_modules-Tracks}
use pktvisor.Policies.Tracks.Undo.{leave_inputs-handlers, leave_inputs-own}

-- The input of a name is as it was, but for event proxies that it may have more of.
abbrev pub SameInput : Option Input → Option Input → Type 0
SameInput none none = Unit
SameInput none (some i0) = ⊥
SameInput (some i) none = ⊥
SameInput (some i) (some i0) =
    (i.running ≡ i0.running)
    × (i.attached ≡ i0.attached)
    × ((extra : List Bytes) × (i.proxies ≡ i0.proxies ++ extra))

abbrev pub Restored : World → World → Type 0
Restored w0 w =
    (n : Bytes)
    → (find n w.handlers ≡ find n w0.handlers)
      × (find n w.policies ≡ find n w0.policies)
      × SameInput (find n w.inputs) (find n w0.inputs)

module _ (w0 : World) (id : ℕ) (settled : Settled id w0) (handlers resources added : List Bytes)
    (within : (m : Bytes) → among m resources ≡ true → among m handlers ≡ true) where
  -- A resources policy stops.
  pub stop-own :
      (sure : Bool) (busy attached published : List Bytes) (n : Bytes) (p : Policy) (w : World)
      → IsResources added resources n p
      → Tracks w0 id sure busy handlers resources added attached published w
      → Tracks w0 id sure busy handlers resources added attached published (stop p w)
  unfolding stop among
  stop-own sure busy attached published n p w r t = elim (Bool-cases p.running) [
    | inr f ↦ rw f t
    | inl u ↦
        let w1 = leave_inputs p.id p.inputs w in
        let same = leave_inputs-handlers p.id p.inputs w in
        let end = stop_modules-Handling p.modules w1 in
        rw u (
          stop_modules-Tracks w0 handlers resources busy p.modules w1
              (All-map (λ m. among m resources ≡ true) (λ m. among m handlers ≡ true) within
                p.modules r.1)
              (TracksHandlers-weaken w0 busy (p.modules ++ busy) handlers resources w1.handlers
                (λ k. among-append_right k p.modules busy)
                (subst (λ hs. TracksHandlers w0 busy handlers resources hs) (sym same.0) t.0)),
          subst (λ is. TracksInputs w0 id added attached sure is) (sym end.0)
              (leave_inputs-own w0 id settled added p.id attached sure p.inputs w r.0 t.1),
          subst (λ ps. TracksPolicies w0 added resources published ps) (sym (end.1 ∙ same.1)) t.2,
        )
  ]

  drop_policies :
      (n : Bytes) (ns : List Bytes) (policies : List (Bytes × Policy))
      → TracksPolicies w0 added resources (n ∷ ns) policies
      → TracksPolicies w0 added resources ns (erase n policies)
  drop_policies n ns policies t k = elim (Bool-cases (same_bytes n k)) [
    | inr f ↦
        let a = among-tail k n ns f in
        let same = find-erase_other n k policies f in
        (
          λ u. let r = (t k).0 (a ∙ u) in (r.0, (λ p e. r.1 p (sym same ∙ e)), r.2),
          λ u. same ∙ (t k).1 (a ∙ u),
        )
    | inl s ↦
        let q = same_bytes_sound n k s in
        let r = (t n).0 (among-head n ns) in
        let e = subst (λ m. find m (erase n policies) ≡ none) q (find-erase_same n policies) in
        let e0 = subst (λ m. find m w0.policies ≡ none) q r.0 in
        (
          λ u. (
            e0,
            (λ p h. absurd (let c : none ≡ some p = sym e ∙ h in cc)),
            subst (λ i. (m : Bytes) × (among m added ≡ true) × (i ≡ resources_name m)) q r.2,
          ),
          λ u. e ∙ sym e0,
        )
  ]

  pub drop_resources-Tracks :
      (ns : List Bytes) (w : World)
      → Tracks w0 id false [] handlers resources added [] ns w
      → Tracks w0 id false [] handlers resources added [] [] (drop_resources ns w)
  unfolding drop_resources
  drop_resources-Tracks [] w t = t
  drop_resources-Tracks (n ∷ ns) w t = elim (Option-cases (find n w.policies)) [
    | inl e ↦
        rw (e, drop_resources)
          (drop_resources-Tracks ns w (
            t.0,
            t.1,
            subst (TracksPolicies w0 added resources ns) (erase_absent n w.policies e)
                (drop_policies n ns w.policies t.2),
          ))
    | inr (p, e) ↦
        let r = ((t.2 n).0 (among-head n ns)).1 p e in
        let s = stop-own false [] [] (n ∷ ns) n p w r t in
        let w1 = stop p w in
        rw (e, drop_resources)
          (drop_resources-Tracks ns (record w1 { policies = erase n w1.policies })
            (s.0, s.1, drop_policies n ns w1.policies s.2))
  ]

-- An input that the load added has no consumers once its handlers are gone.
Foreign-Deaf :
    (w0 : World) (n hash : Bytes) (running : Bool) (s : Source)
    → find n w0.inputs ≡ none
    → Foreign w0 s
    → (running && same_source s (of_input n hash)) ≡ false
unfolding same_source
Foreign-Deaf w0 n hash false s e f = refl
Foreign-Deaf w0 n hash true (of_handler m) e f = refl
Foreign-Deaf w0 n hash true (of_input m q) e (i, f) = elim (Bool-cases (same_bytes m n)) [
  | inr g ↦ rw g refl
  | inl t ↦ absurd (cc (e, subst (λ k. find k w0.inputs ≡ some i) (same_bytes_sound m n t) f))
]

idle_input :
    (w0 : World) (n : Bytes) (hashes : List Bytes) (handlers : List (Bytes × Handler))
    → find n w0.inputs ≡ none
    → All (λ (x : Bytes × Handler). Foreign w0 x.1.listens) handlers
    → consumer_count handlers n hashes ≡ 0
unfolding consumer_count
idle_input w0 n [] handlers e h = refl
idle_input w0 n (hash ∷ []) handlers e h = consumers-zero (of_input n hash) handlers (
    All-map (λ (x : Bytes × Handler). Foreign w0 x.1.listens) (Deaf (of_input n hash))
      (λ (x : Bytes × Handler) (f : Foreign w0 x.1.listens).
        Foreign-Deaf w0 n hash x.1.running x.1.listens e f)
      handlers h)
idle_input w0 n (hash ∷ next ∷ hashes) handlers e h = idle_input w0 n (next ∷ hashes) handlers e h

module _ (w0 : World) (id : ℕ) where
  gone_input :
      (n : Bytes) (ns : List Bytes) (inputs : List (Bytes × Input))
      → TracksInputs w0 id (n ∷ ns) [] false inputs
      → TracksInputs w0 id ns [] false (erase n inputs)
  unfolding among
  gone_input n ns inputs t k = elim (Bool-cases (same_bytes n k)) [
    | inr f ↦
        let a = among-tail k n ns f in
        (
          λ u. (t k).0 (a ∙ u),
          λ u.
              subst (λ o. Shared id false false o (find k w0.inputs))
                (sym (find-erase_other n k inputs f)) ((t k).1 (a ∙ u)),
        )
    | inl s ↦
        let q = same_bytes_sound n k s in
        let e0 = subst (λ m. find m w0.inputs ≡ none) q ((t n).0 (among-head n ns)) in
        let e = subst (λ m. find m (erase n inputs) ≡ none) q (find-erase_same n inputs) in
        (λ u. e0, λ u. rw e (rw e0 tt))
  ]

  pub drop_inputs-Tracks :
      (ns : List Bytes) (w : World)
      → All (λ (x : Bytes × Handler). Foreign w0 x.1.listens) w.handlers
      → TracksInputs w0 id ns [] false w.inputs
      → TracksInputs w0 id [] [] false (drop_inputs ns w).inputs
        × ((drop_inputs ns w).handlers ≡ w.handlers)
        × ((drop_inputs ns w).policies ≡ w.policies)
  unfolding drop_inputs remove_input
  drop_inputs-Tracks [] w h t = (t, refl, refl)
  drop_inputs-Tracks (n ∷ ns) w h t = elim (Option-cases (find n w.inputs)) [
    | inl e ↦
        rw (e, drop_inputs, remove_input)
          (drop_inputs-Tracks ns w h (
            subst (TracksInputs w0 id ns [] false) (erase_absent n w.inputs e)
              (gone_input n ns w.inputs t)))
    | inr (i, e) ↦
        let idle =
          ap (λ c. c == 0) (idle_input w0 n i.proxies w.handlers ((t n).0 (among-head n ns)) h) in
        rw (e, drop_inputs, remove_input)
          (rw idle (
            drop_inputs-Tracks ns (record w { inputs = erase n w.inputs }) h
              (gone_input n ns w.inputs t)))
  ]
