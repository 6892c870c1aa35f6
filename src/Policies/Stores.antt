-- ===== src/Policies/Stores.antt =====
-- Lookups after the changes that src/Policies.cpp makes to its stores and lists of names.
use pktvisor.Prelude.{
  ℕ, suc, ◌≤◌, ◌≡◌, refl, sym, subst, ap, ◌∙◌, inl, inr, true, false, ◌&&◌, none, some, List, [],
  ◌∷◌, ◌++◌, ◌==◌, length, All, Bool-cases, arith, nat_refl, find, same-flip,
}
use pktvisor.Metrics.Utf8.{Bytes}
use pktvisor.Serializer.{same_bytes, same_bytes_refl, same_bytes_sound, bytes_key}
use pktvisor.Policies.{among, adjust, Handler, Source, without, same_source, consumers}

-- Lists of names.
pub among-snoc_same : (n : Bytes) (ns : List Bytes) → among n (ns ++ n ∷ []) ≡ true
unfolding among
among-snoc_same n [] = rw (same_bytes_refl n) refl
among-snoc_same n (m ∷ ns) = elim (Bool-cases (same_bytes m n)) [
  | inl t ↦ rw t refl
  | inr f ↦ rw f (among-snoc_same n ns)
]

pub among-snoc_other :
    (k n : Bytes) (ns : List Bytes) → same_bytes n k ≡ false → among k (ns ++ n ∷ []) ≡ among k ns
unfolding among
among-snoc_other k n [] h = rw h refl
among-snoc_other k n (m ∷ ns) h = elim (Bool-cases (same_bytes m k)) [
  | inl t ↦ rw t refl
  | inr f ↦ rw f (among-snoc_other k n ns h)
]

pub among-snoc_held :
    (k n : Bytes) (ns : List Bytes) → among k ns ≡ true → among k (ns ++ n ∷ []) ≡ true
unfolding among
among-snoc_held k n [] h = cc
among-snoc_held k n (m ∷ ns) h = elim (Bool-cases (same_bytes m k)) [
  | inl t ↦ rw t refl
  | inr f ↦ rw f (among-snoc_held k n ns (rw (f, among) at h))
]

pub among-head : (n : Bytes) (ns : List Bytes) → among n (n ∷ ns) ≡ true
unfolding among
among-head n ns = rw (same_bytes_refl n) refl

pub among-tail :
    (k n : Bytes) (ns : List Bytes) → same_bytes n k ≡ false → among k (n ∷ ns) ≡ among k ns
unfolding among
among-tail k n ns h = rw h refl

pub among-cons : (k n : Bytes) (ns : List Bytes) → among k ns ≡ true → among k (n ∷ ns) ≡ true
unfolding among
among-cons k n ns h = elim (Bool-cases (same_bytes n k)) [ inl t ↦ rw t refl | inr f ↦ rw f h ]

pub among-append_right :
    (k : Bytes) (ms ns : List Bytes) → among k ns ≡ true → among k (ms ++ ns) ≡ true
unfolding among
among-append_right k [] ns h = h
among-append_right k (m ∷ ms) ns h = elim (Bool-cases (same_bytes m k)) [
  | inl t ↦ rw t refl
  | inr f ↦ rw f (among-append_right k ms ns h)
]

-- Every name of a list is in it.
pub All-among :
    (P : Bytes → Type 0) (ns : List Bytes) → ((n : Bytes) → among n ns ≡ true → P n) → All P ns
All-among P [] h = tt
All-among P (n ∷ ns) h = (h n (among-head n ns), All-among P ns (λ k a. h k (tail k a)))
  where
    tail : (k : Bytes) → among k ns ≡ true → among k (n ∷ ns) ≡ true
    tail k a = elim (Bool-cases (same_bytes n k)) [
      | inl t ↦
          subst (λ m. among k (m ∷ ns) ≡ true) (sym (same_bytes_sound n k t)) (among-head k ns)
      | inr f ↦ among-tail k n ns f ∙ a
    ]

-- Changes through a pointer.
module _ {V : Type 0} (n : Bytes) (f : V → V) where
  pub find-adjust_same :
      (m : List (Bytes × V)) (v : V) → find n m ≡ some v → find n (adjust n f m) ≡ some (f v)
  unfolding find adjust
  find-adjust_same [] v h = cc
  find-adjust_same ((k, u) ∷ m) v h = elim (Bool-cases (same_bytes k n)) [
    | inl t ↦
        let e : u ≡ v = (let i : some u ≡ some v = rw (t, find) at h in cc) in
        rw (t, adjust) (rw (t, find) (ap (λ x. some (f x)) e))
    | inr g ↦ rw (g, adjust) (rw (g, find) (find-adjust_same m v (rw (g, find) at h)))
  ]

  pub find-adjust-none : (m : List (Bytes × V)) → find n m ≡ none → find n (adjust n f m) ≡ none
  unfolding find adjust
  find-adjust-none [] h = refl
  find-adjust-none ((k, u) ∷ m) h = elim (Bool-cases (same_bytes k n)) [
    | inl t ↦ absurd (cc (rw (t, find) at h))
    | inr g ↦ rw (g, adjust) (rw (g, find) (find-adjust-none m (rw (g, find) at h)))
  ]

  pub find-adjust_other :
      (k : Bytes) (m : List (Bytes × V)) → same_bytes n k ≡ false → find k (adjust n f m) ≡ find k m
  unfolding find adjust
  find-adjust_other k [] h = refl
  find-adjust_other k ((j, u) ∷ m) h = elim (Bool-cases (same_bytes j n)) [
    | inl t ↦
        let away = subst (λ i. same_bytes i k ≡ false) (sym (same_bytes_sound j n t)) h in
        rw (t, adjust) (rw (away, find) (find-adjust_other k m h))
    | inr g ↦ elim (Bool-cases (same_bytes j k)) [
      | inl t ↦ rw (g, adjust) (rw (t, find) refl)
      | inr g' ↦ rw (g, adjust) (rw (g', find) (find-adjust_other k m h))
    ]
  ]

  pub All-adjust :
      (P Q : Bytes × V → Type 0) (m : List (Bytes × V))
      → ((v : V) → P (n, v) → Q (n, f v))
      → ((k : Bytes) (v : V) → same_bytes k n ≡ false → P (k, v) → Q (k, v))
      → All P m
      → All Q (adjust n f m)
  unfolding adjust
  All-adjust P Q [] same other h = tt
  All-adjust P Q ((k, u) ∷ m) same other h = elim (Bool-cases (same_bytes k n)) [
    | inl t ↦
        let e = same_bytes_sound k n t in
        rw (t, adjust)
          (
            subst (λ i. Q (i, f u)) (sym e) (same u (subst (λ i. P (i, u)) e h.0)),
            All-adjust P Q m same other h.1,
          )
    | inr g ↦ rw (g, adjust) (other k u g h.0, All-adjust P Q m same other h.1)
  ]

-- A name that is not in a store, and one that was erased, is that of none of the entries.
pub absent_clear :
    {V : Type 0} (n : Bytes) (m : List (Bytes × V))
    → find n m ≡ none
    → All (λ (e : Bytes × V). same_bytes n e.0 ≡ false) m
unfolding find
absent_clear n [] h = tt
absent_clear n ((k, v) ∷ m) h = elim (Bool-cases (same_bytes k n)) [
  | inl t ↦ absurd (cc (rw (t, find) at h))
  | inr f ↦ (same-flip k n f, absent_clear n m (rw (f, find) at h))
]

pub All-both :
    {A : Type 0} (P Q R : A → Type 0) (xs : List A)
    → ((x : A) → P x → Q x → R x)
    → All P xs
    → All Q xs
    → All R xs
All-both P Q R [] f h g = tt
All-both P Q R (x ∷ xs) f h g = (f x h.0 g.0, All-both P Q R xs f h.1 g.1)

-- Policies that an input counts.
pub without_shorter : (id : ℕ) (ps : List ℕ) → length (without id ps) ≤ length ps
unfolding without
without_shorter id [] = omega arith
without_shorter id (p ∷ ps) = elim (Bool-cases (p == id)) [
  | inl t ↦ rw (t, without) (omega (arith, without_shorter id ps))
  | inr f ↦ rw (f, without) (omega (arith, without_shorter id ps))
]

pub without-snoc : (id : ℕ) (ps : List ℕ) → without id ps ≡ ps → without id (ps ++ id ∷ []) ≡ ps
unfolding without
without-snoc id [] h = rw (nat_refl id) refl
without-snoc id (p ∷ ps) h = elim (Bool-cases (p == id)) [
  | inl t ↦
      let shorter = without_shorter id ps in
      let e : without id ps ≡ p ∷ ps = rw (t, without) at h in
      absurd (let l : length (without id ps) ≡ suc (length ps) = ap length e in omega arith)
  | inr f ↦
      let e : p ∷ without id ps ≡ p ∷ ps = rw (f, without) at h in
      let e' : without id ps ≡ ps = cc in rw (f, without) (ap (λ l. p ∷ l) (without-snoc id ps e'))
]

-- Proxies without consumers.
abbrev pub Deaf : Source → Bytes × Handler → Type 0
Deaf source (k, h) = (h.running && same_source h.listens source) ≡ false

pub consumers-zero :
    (source : Source) (hs : List (Bytes × Handler)) → All (Deaf source) hs → consumers source hs ≡ 0
unfolding consumers
consumers-zero source [] h = refl
consumers-zero source ((k, g) ∷ hs) h = rw (h.0, consumers) (consumers-zero source hs h.1)
