-- ===== src/Policies/Unload/Settles.antt =====
-- The names that `PolicyManager::remove_policy` of src/Policies.cpp has still to deal with, and
-- those of the resources policies among them.
use mathlib.Core.List.{append_cancel_right}
use pktvisor.Prelude.{
  ◌≡◌, refl, sym, subst, ◌∙◌, inl, inr, true, false, Option, List, [], ◌∷◌, All, Bool-cases,
  false≢true,
}
use pktvisor.Metrics.Utf8.{Bytes}
use pktvisor.Serializer.{same_bytes, same_bytes_sound}
use pktvisor.Policies.{among, Policy, World}
use pktvisor.Policies.Removal.{resources_name, resources_suffix}
use pktvisor.Policies.Stores.{among-cons, among-head, among-tail}
use pktvisor.Policies.Unload.{last_resources, gone}

-- A pending name looks as before, every other as it will after.
abbrev pub Settles :
    {V : Type 0}
    → List Bytes
    → (Bytes → Option V)
    → (Bytes → Option V)
    → (Bytes → Option V)
    → Type 0
Settles pending before after look =
    (k : Bytes)
    → (among k pending ≡ true → look k ≡ before k) × (among k pending ≡ false → look k ≡ after k)

pub Settles-next :
    {V : Type 0} (n : Bytes) (ns : List Bytes) (before after look look' : Bytes → Option V)
    → among n ns ≡ false
    → look' n ≡ after n
    → ((k : Bytes) → same_bytes n k ≡ false → look' k ≡ look k)
    → Settles (n ∷ ns) before after look
    → Settles ns before after look'
Settles-next n ns before after look look' a here same t k = elim (Bool-cases (same_bytes n k)) [
  | inl s ↦
      let e = same_bytes_sound n k s in
      (
        λ u. absurd (false≢true (sym (subst (λ j. among j ns ≡ false) e a) ∙ u)),
        λ u. subst (λ j. look' j ≡ after j) e here,
      )
  | inr f ↦
      let b = among-tail k n ns f in
      (λ u. same k f ∙ (t k).0 (b ∙ u), λ u. same k f ∙ (t k).1 (b ∙ u))
]

pub All-at : (P : Bytes → Type 0) (n : Bytes) (ns : List Bytes) → All P ns → among n ns ≡ true → P n
unfolding among
All-at P n [] h a = absurd (false≢true a)
All-at P n (m ∷ ns) h a = elim (Bool-cases (same_bytes m n)) [
  | inl t ↦ subst P (same_bytes_sound m n t) h.0
  | inr f ↦ All-at P n ns h.1 (rw (f, among) at a)
]

module _ (p : Policy) (w0 : World) where
  pub gone-last :
      (n : Bytes) (ns : List Bytes)
      → last_resources p w0 n ≡ true
      → gone p w0 (n ∷ ns) ≡ resources_name n ∷ gone p w0 ns
  gone-last n ns t = rw t refl

  pub gone_other :
      (n : Bytes) (ns : List Bytes)
      → last_resources p w0 n ≡ false
      → gone p w0 (n ∷ ns) ≡ gone p w0 ns
  gone_other n ns f = rw f refl

  -- A name of a resources policy that goes.
  pub gone_origin :
      (k : Bytes) (ns : List Bytes)
      → among k (gone p w0 ns) ≡ true
      → (n : Bytes) × (among n ns ≡ true) × (last_resources p w0 n ≡ true) × (resources_name n ≡ k)
  unfolding among
  gone_origin k [] a = absurd (false≢true a)
  gone_origin k (n ∷ ns) a = elim (Bool-cases (last_resources p w0 n)) [
    | inr f ↦ later (gone_origin k ns (subst (λ l. among k l ≡ true) (gone_other n ns f) a))
    | inl t ↦ elim (Bool-cases (same_bytes (resources_name n) k)) [
      | inl s ↦ (n, among-head n ns, t, same_bytes_sound (resources_name n) k s)
      | inr g ↦ later (
          gone_origin k ns (
            sym (among-tail k (resources_name n) (gone p w0 ns) g)
            ∙ subst (λ l. among k l ≡ true) (gone-last n ns t) a))
    ]
  ]
    where
      later :
          (m : Bytes) × (among m ns ≡ true)
            × (last_resources p w0 m ≡ true)
            × (resources_name m ≡ k)
          → (m : Bytes) × (among m (n ∷ ns) ≡ true)
            × (last_resources p w0 m ≡ true)
            × (resources_name m ≡ k)
      later (m, b, l, e) = (m, among-cons m n ns b, l, e)

  pub among-gone :
      (n : Bytes) (ns : List Bytes)
      → last_resources p w0 n ≡ true
      → among n ns ≡ true
      → among (resources_name n) (gone p w0 ns) ≡ true
  unfolding among
  among-gone n [] t a = absurd (false≢true a)
  among-gone n (m ∷ ns) t a = elim (Bool-cases (same_bytes m n)) [
    | inl s ↦
        let e = same_bytes_sound m n s in
        subst (λ l. among (resources_name n) l ≡ true)
          (sym (gone-last m ns (subst (λ j. last_resources p w0 j ≡ true) (sym e) t)))
          (subst (λ j. among (resources_name n) (resources_name j ∷ gone p w0 ns) ≡ true) (sym e)
            (among-head (resources_name n) (gone p w0 ns)))
    | inr f ↦
        let rest = among-gone n ns t (rw (f, among) at a) in
        elim (Bool-cases (last_resources p w0 m)) [
          | inl u ↦
              subst (λ l. among (resources_name n) l ≡ true) (sym (gone-last m ns u))
                (among-cons (resources_name n) (resources_name m) (gone p w0 ns) rest)
          | inr u ↦ subst (λ l. among (resources_name n) l ≡ true) (sym (gone_other m ns u)) rest
        ]
  ]

  pub not_gone :
      (n : Bytes) (ns : List Bytes)
      → among n ns ≡ false
      → among (resources_name n) (gone p w0 ns) ≡ false
  not_gone n ns a = elim (Bool-cases (among (resources_name n) (gone p w0 ns))) [
    | inr f ↦ f
    | inl t ↦
        let (m, b, l, e) = gone_origin (resources_name n) ns t in
        absurd (
          false≢true
            (sym a ∙ subst (λ j. among j ns ≡ true) (append_cancel_right m n resources_suffix e) b))
  ]
