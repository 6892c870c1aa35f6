-- ===== src/Policies/Tracks/Inputs.antt =====
-- The inputs during a load of src/Policies.cpp: adding them, opening proxies, starting them.
use pktvisor.Prelude.{
  ℕ, ◌≡◌, refl, sym, subst, ap, ◌∙◌, inl, inr, Bool, true, false, Option, none, some, List, [], ◌∷◌,
  ◌++◌, append_assoc, Bool-cases, false≢true, find,
}
use pktvisor.Metrics.Utf8.{Bytes}
use pktvisor.Serializer.{same_bytes, same_bytes_sound, bytes_key}
use pktvisor.Policies.{among, adjust, Input, World, add_event_proxy, run_input}
use pktvisor.Policies.Stores.{
  among-snoc_same, among-snoc_other, find-adjust_same, find-adjust-none, find-adjust_other,
}
use pktvisor.Policies.Tracks.{Shared, TracksInputs}
use pktvisor.Policies.Tracks.Handlers.{find-added_other}

-- An input that the load added is not the one of the world before.
added_apart :
    (n k : Bytes) (added : List Bytes)
    → among n added ≡ true
    → among k added ≡ false
    → same_bytes n k ≡ false
added_apart n k added a u = elim (Bool-cases (same_bytes n k)) [
  | inr f ↦ f
  | inl s ↦
      absurd (false≢true (sym u ∙ subst (λ m. among m added ≡ true) (same_bytes_sound n k s) a))
]

module _ (w0 : World) (id : ℕ) (added : List Bytes) where
  -- A change of one input, with which the list of attached inputs may change at its name.
  pub TracksInputs-adjust :
      (before after : List Bytes) (sure : Bool) (n : Bytes) (f : Input → Input)
      (inputs : List (Bytes × Input))
      → ((k : Bytes) → same_bytes n k ≡ false → among k after ≡ among k before)
      → (among n added ≡ false
          → (i i0 : Input) → find n inputs ≡ some i
          → find n w0.inputs ≡ some i0
          → Shared id sure (among n before) (some i) (some i0)
          → Shared id sure (among n after) (some (f i)) (some i0))
      → TracksInputs w0 id added before sure inputs
      → TracksInputs w0 id added after sure (adjust n f inputs)
  TracksInputs-adjust before after sure n f inputs same change t k = (
    (t k).0,
    λ u. elim (Bool-cases (same_bytes n k)) [
      | inr g ↦
          subst (λ o. Shared id sure (among k after) o (find k w0.inputs))
            (sym (find-adjust_other n f k inputs g))
            (subst (λ b. Shared id sure b (find k inputs) (find k w0.inputs)) (sym (same k g))
              ((t k).1 u))
      | inl s ↦
          let e = same_bytes_sound n k s in
          subst
            (λ m. Shared id sure (among m after) (find m (adjust n f inputs)) (find m w0.inputs)) e
            (here (subst (λ m. among m added ≡ false) (sym e) u))
    ],
  )
    where
      here :
          among n added ≡ false
          → Shared id sure (among n after) (find n (adjust n f inputs)) (find n w0.inputs)
      here u = go (find n inputs) refl (find n w0.inputs) refl ((t n).1 u)
        where
          go :
              (o : Option Input)
              → find n inputs ≡ o
              → (o0 : Option Input) → find n w0.inputs ≡ o0
              → Shared id sure (among n before) (find n inputs) (find n w0.inputs)
              → Shared id sure (among n after) (find n (adjust n f inputs)) (find n w0.inputs)
          go none e none e0 s = rw e0 (
              subst (λ o. Shared id sure (among n after) o none)
                (sym (find-adjust-none n f inputs e)) tt)
          go none e (some i0) e0 s = absurd (rw (e0) at (rw (e) at s))
          go (some i) e none e0 s = absurd (rw (e0) at (rw (e) at s))
          go (some i) e (some i0) e0 s = rw e0 (
              subst (λ o. Shared id sure (among n after) o (some i0))
                (sym (find-adjust_same n f inputs i e))
                (change u i i0 e e0 (rw (e0) at (rw (e) at s))))

  -- One that the load added, changed in any way.
  pub TracksInputs-own :
      (attached : List Bytes) (sure : Bool) (n : Bytes) (f : Input → Input)
      (inputs : List (Bytes × Input))
      → among n added ≡ true
      → TracksInputs w0 id added attached sure inputs
      → TracksInputs w0 id added attached sure (adjust n f inputs)
  TracksInputs-own attached sure n f inputs a =
      TracksInputs-adjust attached attached sure n f inputs (λ k g. refl)
        (λ u. absurd (false≢true (sym u ∙ a)))

  -- The proxies may grow.
  pub TracksInputs-proxy :
      (attached : List Bytes) (sure throws : Bool) (n hash : Bytes) (i j : Input)
      (inputs : List (Bytes × Input))
      → find n inputs ≡ some i
      → add_event_proxy throws hash i ≡ some j
      → TracksInputs w0 id added attached sure inputs
      → TracksInputs w0 id added attached sure (adjust n (λ (k : Input). j) inputs)
  unfolding add_event_proxy
  TracksInputs-proxy attached sure throws n hash i j inputs e g =
      TracksInputs-adjust attached attached sure n (λ (k : Input). j) inputs (λ k u. refl)
        (λ u i' i0 e' e0 s.
          let is : i' ≡ i = (let r : some i' ≡ some i = sym e' ∙ e in cc) in
          elim (Bool-cases (among hash i.proxies)) [
            | inl t ↦
                let r : i ≡ j = (let q : some i ≡ some j = rw (t) at g in cc) in
                subst (λ k. Shared id sure (among n attached) (some k) (some i0)) (is ∙ r) s
            | inr f ↦ elim (Bool-cases throws) [
              | inl t ↦ absurd (cc (rw (t) at (rw (f, add_event_proxy) at g)))
              | inr f' ↦
                  let r : record i { proxies = i.proxies ++ hash ∷ [] } ≡ j =
                    cc (rw (f') at (rw (f, add_event_proxy) at g)) in
                  let s' = subst (λ k. Shared id sure (among n attached) (some k) (some i0)) is s in
                  subst (λ k. Shared id sure (among n attached) (some k) (some i0)) r
                    (
                      s'.0,
                      (
                        s'.1.0 ++ hash ∷ [],
                        ap (λ l. l ++ hash ∷ []) s'.1.1
                            ∙ append_assoc i0.proxies s'.1.0 (hash ∷ []),
                      ),
                      s'.2,
                      s'.3,
                      s'.4,
                    )
            ]
          ])

  -- A new input.
  pub TracksInputs-add :
      (attached : List Bytes) (sure : Bool) (n : Bytes) (i : Input) (inputs : List (Bytes × Input))
      → find n inputs ≡ none
      → TracksInputs w0 id added attached sure inputs
      → TracksInputs w0 id (added ++ n ∷ []) attached sure (inputs ++ (n, i) ∷ [])
  TracksInputs-add attached sure n i inputs e t k = elim (Bool-cases (same_bytes n k)) [
    | inr f ↦
        let a = among-snoc_other k n added f in
        (
          λ u. (t k).0 (sym a ∙ u),
          λ u.
              subst (λ o. Shared id sure (among k attached) o (find k w0.inputs))
                (sym (find-added_other k n i inputs f)) ((t k).1 (sym a ∙ u)),
        )
    | inl s ↦
        let q = same_bytes_sound n k s in
        (
          λ u. subst (λ m. find m w0.inputs ≡ none) q fresh,
          λ u. absurd (
              false≢true (
                sym u ∙ subst (λ m. among m (added ++ n ∷ []) ≡ true) q (among-snoc_same n added))),
        )
  ]
    where
      absent : (o0 : Option Input) → Shared id sure (among n attached) none o0 → o0 ≡ none
      absent none s = refl
      absent (some i0) s = absurd s

      fresh : find n w0.inputs ≡ none
      fresh = elim (Bool-cases (among n added)) [
        | inl u ↦ (t n).0 u
        | inr u ↦
            absent (find n w0.inputs)
              (subst (λ o. Shared id sure (among n attached) o (find n w0.inputs)) e ((t n).1 u))
      ]

  -- An input that is started; those of the world before run already.
  pub TracksInputs-run :
      (attached : List Bytes) (sure : Bool) (n : Bytes) (i : Input) (inputs : List (Bytes × Input))
      → ((k : Bytes) (i0 : Input) → find k w0.inputs ≡ some i0 → i0.running ≡ true)
      → find n inputs ≡ some i
      → i.running ≡ false
      → TracksInputs w0 id added attached sure inputs
      → TracksInputs w0 id added attached sure (adjust n run_input inputs)
  TracksInputs-run attached sure n i inputs runs e f =
      TracksInputs-adjust attached attached sure n run_input inputs (λ k g. refl)
        (λ u i' i0 e' e0 s.
          let is : i' ≡ i = (let r : some i' ≡ some i = sym e' ∙ e in cc) in
          absurd (false≢true (sym f ∙ ap (λ (j : Input). j.running) (sym is) ∙ s.0 ∙ runs n i0 e0)))
