-- ===== src/Policies/Tracks/Attached.antt =====
-- The policy of a load of src/Policies.cpp joins inputs and leaves them.
use pktvisor.Prelude.{
  ℕ, ◌≤◌, ◌≡◌, refl, sym, ap, ◌∙◌, inl, inr, true, false, Option, none, some, List, [], ◌∷◌, ◌++◌,
  leb, length, length-append, Bool-cases, arith, false≢true, find,
}
use pktvisor.Metrics.Utf8.{Bytes}
use pktvisor.Serializer.{bytes_key}
use pktvisor.Policies.{
  among, adjust, Input, World, add_policy, remove_policy, policies_count, without, leave,
}
use pktvisor.Policies.Stores.{
  among-snoc_same, among-snoc_other, among-head, among-tail, without-snoc,
}
use pktvisor.Policies.Tracks.{Shared, TracksInputs}
use pktvisor.Policies.Tracks.Inputs.{TracksInputs-adjust}

module _ (w0 : World) (id : ℕ) (added : List Bytes) where
  -- The policy joins an input for the first time, or leaves it.
  pub TracksInputs-join :
      (attached : List Bytes) (n : Bytes) (inputs : List (Bytes × Input))
      → among n attached ≡ false
      → ((k : Bytes) (i0 : Input)
          → find k w0.inputs ≡ some i0
          → without id i0.attached ≡ i0.attached)
      → TracksInputs w0 id added attached true inputs
      → TracksInputs w0 id added (attached ++ n ∷ []) true (adjust n (add_policy id) inputs)
  unfolding add_policy
  TracksInputs-join attached n inputs new fresh =
      TracksInputs-adjust w0 id added attached (attached ++ n ∷ []) true n (add_policy id) inputs
        (λ k g. among-snoc_other k n attached g)
        (λ u i i0 e e0 s.
          let same = s.3 new in
          let known = among-snoc_same n attached in
          (
            s.0,
            s.1,
            ap (λ l. without id (l ++ id ∷ [])) same ∙ without-snoc id i0.attached (fresh n i0 e0),
            λ b. absurd (false≢true (sym b ∙ known)),
            λ b c.
                let l = length-append i.attached (id ∷ []) in
                let l' : length i.attached ≡ length i0.attached = ap length same in omega arith,
          ))

  pub TracksInputs-leave :
      (attached : List Bytes) (n : Bytes) (inputs : List (Bytes × Input))
      → among n attached ≡ false
      → ((k : Bytes) (i0 : Input)
          → find k w0.inputs ≡ some i0
          → (1 ≤ length i0.attached) × (without id i0.attached ≡ i0.attached))
      → TracksInputs w0 id added (n ∷ attached) true inputs
      → TracksInputs w0 id added attached true (adjust n (leave id) inputs)
  unfolding leave remove_policy
  TracksInputs-leave attached n inputs gone counted =
      TracksInputs-adjust w0 id added (n ∷ attached) attached true n (leave id) inputs
        (λ k g. sym (among-tail k n attached g))
        (λ u i i0 e e0 s.
          let (c, fresh) = counted n i0 e0 in
          let again = ap (without id) s.2 ∙ fresh in
          let more = s.4 refl (among-head n attached) in
          let busy : leb (policies_count i) 1 ≡ false = ground arith in
          elim (Bool-cases i.running) [
            | inl t ↦ rw t (
                rw busy
                  (sym t ∙ s.0, s.1, again, (λ b. s.2), λ b h. absurd (false≢true (sym gone ∙ h))))
            | inr f ↦
                rw f
                  (sym f ∙ s.0, s.1, again, (λ b. s.2), λ b h. absurd (false≢true (sym gone ∙ h)))
          ])

  -- The policy, if it may have been attached, is off an input.
  pub TracksInputs-detach :
      (attached : List Bytes) (n : Bytes) (inputs : List (Bytes × Input))
      → ((k : Bytes) (i0 : Input)
          → find k w0.inputs ≡ some i0
          → without id i0.attached ≡ i0.attached)
      → TracksInputs w0 id added (n ∷ attached) false inputs
      → TracksInputs w0 id added attached false (adjust n (remove_policy id) inputs)
  unfolding remove_policy
  TracksInputs-detach attached n inputs fresh =
      TracksInputs-adjust w0 id added (n ∷ attached) attached false n (remove_policy id) inputs
        (λ k g. sym (among-tail k n attached g))
        (λ u i i0 e e0 s.
          (s.0, s.1, ap (without id) s.2 ∙ fresh n i0 e0, (λ b. s.2), λ h. absurd (false≢true h)))

  -- What may have been attached is less sure than what is, and more than what is not.
  pub TracksInputs-weaken :
      (before after : List Bytes) (inputs : List (Bytes × Input))
      → ((k : Bytes) → among k after ≡ false → among k before ≡ false)
      → TracksInputs w0 id added before true inputs
      → TracksInputs w0 id added after false inputs
  TracksInputs-weaken before after inputs fewer t k =
      ((t k).0, λ u. go (find k inputs) (find k w0.inputs) ((t k).1 u))
    where
      go :
          (o o0 : Option Input)
          → Shared id true (among k before) o o0
          → Shared id false (among k after) o o0
      go none none s = tt
      go none (some i0) s = s
      go (some i) none s = s
      go (some i) (some i0) s = (s.0, s.1, s.2, (λ b. s.3 (fewer k b)), λ h. absurd (false≢true h))
