-- ===== src/Prelude/Maps.antt =====
-- Maps as association lists, with at most one entry of a key where `put` made them.
use Prim.Native.Nat.{ℕ, suc}
use mathlib.Core.Path.{◌≡◌, refl, sym, subst, ap, ◌∙◌}
use mathlib.Core.Logic.{inl, inr}
use mathlib.Core.Bool.{Bool, true, false}
use mathlib.Core.Option.{Option, none, some}
use mathlib.Core.List.{List, [], ◌∷◌}
use native.Mathlib.Omega.{arith}
use pktvisor.Prelude.Tests.{◌==◌, if◌then◌else◌, Bool-cases}
use pktvisor.Prelude.Lists.{length, All}

pub record Key {ℓ} (A : Type ℓ) : Type ℓ where
  pub same : A → A → Bool
  pub same_refl : (a : A) → same a a ≡ true
  pub same_sound : (a b : A) → same a b ≡ true → a ≡ b

module _ {ℓ} {A : Type ℓ} ⦃key : Key A⦄ where
  pub same-flip : (a b : A) → key.same a b ≡ false → key.same b a ≡ false
  same-flip a b h = elim (Bool-cases (key.same b a)) [
    | inr f ↦ f
    | inl t ↦
        absurd (cc (key.same_refl a, subst (λ c. key.same a c ≡ false) (key.same_sound b a t) h))
  ]

module _ {ℓ κ} {A : Type ℓ} {V : Type κ} ⦃key : Key A⦄ where
  unfoldable pub find : A → List (A × V) → Option V
  find k [] = none
  find k ((j, v) ∷ m) = if key.same j k then some v else find k m

  unfoldable pub erase : A → List (A × V) → List (A × V)
  erase k [] = []
  erase k ((j, v) ∷ m) = let rest = erase k m in if key.same j k then rest else (j, v) ∷ rest

  unfoldable pub put : A → V → List (A × V) → List (A × V)
  put k v m = (k, v) ∷ erase k m

  abbrev pub IsUnique : List (A × V) → Type κ
  IsUnique [] = Unit
  IsUnique ((k, v) ∷ m) = (find k m ≡ none) × IsUnique m

  pub find-erase_same : (k : A) (m : List (A × V)) → find k (erase k m) ≡ none
  unfolding find erase
  find-erase_same k [] = refl
  find-erase_same k ((j, v) ∷ m) = elim (Bool-cases (key.same j k)) [
    | inl t ↦ rw (t, erase) (find-erase_same k m)
    | inr f ↦ rw (f, erase) (rw (f, find) (find-erase_same k m))
  ]

  pub find-erase_other :
      (j k : A) (m : List (A × V)) → key.same j k ≡ false → find k (erase j m) ≡ find k m
  unfolding find erase
  find-erase_other j k [] h = refl
  find-erase_other j k ((i, v) ∷ m) h = elim (Bool-cases (key.same i j)) [
    | inl t ↦
        rw (t, erase)
          (rw (subst (λ a. key.same a k ≡ false) (sym (key.same_sound i j t)) h, find)
            (find-erase_other j k m h))
    | inr f ↦ elim (Bool-cases (key.same i k)) [
      | inl t' ↦ rw (f, erase) (rw (t', find) refl)
      | inr f' ↦ rw (f, erase) (rw (f', find) (find-erase_other j k m h))
    ]
  ]

  pub find-put_same : (k : A) (v : V) (m : List (A × V)) → find k (put k v m) ≡ some v
  unfolding find put
  find-put_same k v m = rw (key.same_refl k) refl

  pub find-put_other :
      (j k : A) (v : V) (m : List (A × V)) → key.same j k ≡ false → find k (put j v m) ≡ find k m
  unfolding find put
  find-put_other j k v m h = rw h (find-erase_other j k m h)

  pub erase-IsUnique : (k : A) (m : List (A × V)) → IsUnique m → IsUnique (erase k m)
  unfolding erase
  erase-IsUnique k [] h = tt
  erase-IsUnique k ((j, v) ∷ m) h = elim (Bool-cases (key.same j k)) [
    | inl t ↦ rw (t, erase) (erase-IsUnique k m h.1)
    | inr f ↦ rw (f, erase) (find-erase_other k j m (same-flip j k f) ∙ h.0, erase-IsUnique k m h.1)
  ]

  pub put-IsUnique : (k : A) (v : V) (m : List (A × V)) → IsUnique m → IsUnique (put k v m)
  unfolding put
  put-IsUnique k v m h = (find-erase_same k m, erase-IsUnique k m h)

pub nat_refl : (n : ℕ) → (n == n) ≡ true
nat_refl n = ground arith

pub nat_sound : (n m : ℕ) → (n == m) ≡ true → n ≡ m
nat_sound n m h = ground arith

instance abbrev pub nat_key : Key ℕ
nat_key = record { same = ◌==◌; same_refl = nat_refl; same_sound = nat_sound }

module _ {ℓ κ} {A : Type ℓ} {V : Type κ} ⦃key : Key A⦄ where
  pub erase_absent : (k : A) (m : List (A × V)) → find k m ≡ none → erase k m ≡ m
  unfolding erase find
  erase_absent k [] h = refl
  erase_absent k ((j, v) ∷ m) h = elim (Bool-cases (key.same j k)) [
    | inl t ↦ absurd (cc (rw (t, find) at h))
    | inr f ↦ rw (f, erase) (ap (λ l. (j, v) ∷ l) (erase_absent k m (rw (f, find) at h)))
  ]

  pub length-erase :
      (k : A) (v : V) (m : List (A × V))
      → IsUnique m
      → find k m ≡ some v
      → suc (length (erase k m)) ≡ length m
  unfolding erase find
  length-erase k v [] u h = cc
  length-erase k v ((j, w) ∷ m) u h = elim (Bool-cases (key.same j k)) [
    | inl t ↦
        let gone = subst (λ i. find i m ≡ none) (key.same_sound j k t) u.0 in
        rw (t, erase) (ap (λ l. suc (length l)) (erase_absent k m gone))
    | inr f ↦ rw (f, erase) (ap suc (length-erase k v m u.1 (rw (f, find) at h)))
  ]

  pub erase-All {ι} : (P : A × V → Type ι) (k : A) (m : List (A × V)) → All P m → All P (erase k m)
  unfolding erase
  erase-All P k [] h = tt
  erase-All P k ((j, v) ∷ m) h = elim (Bool-cases (key.same j k)) [
    | inl t ↦ rw (t, erase) (erase-All P k m h.1)
    | inr f ↦ rw (f, erase) (h.0, erase-All P k m h.1)
  ]
