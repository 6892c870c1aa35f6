-- ===== src/Policies/Unload/Order.antt =====
-- The order in which `PolicyManager::remove_policy` of src/Policies.cpp meets the inputs: by name,
-- each once.
use pktvisor.Prelude.{
  ◌≡◌, refl, sym, subst, ap, ◌∙◌, inl, inr, true, false, List, [], ◌∷◌, ◌++◌, Bool-cases,
  false≢true, same-flip, if◌then◌else◌,
}
use pktvisor.Metrics.Utf8.{Bytes}
use pktvisor.Serializer.{same_bytes, bytes_key}
use pktvisor.Config.Hash.{bytes_leb, insert, sort}
use pktvisor.Policies.{among, Policy, World}
use pktvisor.Policies.Removal.{distinct}
use pktvisor.Policies.Stores.{among-tail}
use pktvisor.Policies.Tracks.{Distinct}
use pktvisor.Policies.Unload.{gone}
use pktvisor.Policies.Unload.Settles.{gone_origin, among-gone}

-- Two names first in a list may be swapped, and a rest replaced by one with the same names.
among-swap : (k s t : Bytes) (ts : List Bytes) → among k (t ∷ s ∷ ts) ≡ among k (s ∷ t ∷ ts)
unfolding among
among-swap k s t ts = elim (Bool-cases (same_bytes s k)) [
  | inl a ↦ elim (Bool-cases (same_bytes t k)) [
    | inl b ↦ rw a (rw b refl)
    | inr b ↦ rw a (rw b refl)
  ]
  | inr a ↦ rw a refl
]

among-next :
    (k t : Bytes) (ss ts : List Bytes)
    → among k ss ≡ among k ts
    → among k (t ∷ ss) ≡ among k (t ∷ ts)
unfolding among
among-next k t ss ts h = ap (λ b. if same_bytes t k then true else b) h

among-insert : (k s : Bytes) (ts : List Bytes) → among k (insert s ts) ≡ among k (s ∷ ts)
unfolding insert
among-insert k s [] = refl
among-insert k s (t ∷ ts) = elim (Bool-cases (bytes_leb s t)) [
  | inl u ↦ rw (u, insert) refl
  | inr u ↦
      rw (u, insert)
        (among-next k t (insert s ts) (s ∷ ts) (among-insert k s ts) ∙ among-swap k s t ts)
]

pub among-sort : (k : Bytes) (ss : List Bytes) → among k (sort ss) ≡ among k ss
unfolding sort
among-sort k [] = refl
among-sort k (s ∷ ss) = among-insert k s (sort ss) ∙ among-next k s (sort ss) ss (among-sort k ss)

apart_pair :
    (s t : Bytes) (ts : List Bytes)
    → among s (t ∷ ts) ≡ false
    → (same_bytes t s ≡ false) × (among s ts ≡ false)
unfolding among
apart_pair s t ts a = elim (Bool-cases (same_bytes t s)) [
  | inl u ↦ absurd (cc (rw (u, among) at a))
  | inr f ↦ (f, rw (f, among) at a)
]

insert-Distinct :
    (s : Bytes) (ts : List Bytes) → among s ts ≡ false → Distinct ts → Distinct (insert s ts)
unfolding insert
insert-Distinct s [] a d = (a, tt)
insert-Distinct s (t ∷ ts) a d = elim (Bool-cases (bytes_leb s t)) [
  | inl u ↦ rw (u, insert) (a, d)
  | inr u ↦
      let (f, b) = apart_pair s t ts a in
      rw (u, insert)
        (
          among-insert t s ts ∙ among-tail t s ts (same-flip t s f) ∙ d.0,
          insert-Distinct s ts b d.1,
        )
]

pub sort-Distinct : (ss : List Bytes) → Distinct ss → Distinct (sort ss)
unfolding sort
sort-Distinct [] d = tt
sort-Distinct (s ∷ ss) d =
    insert-Distinct s (sort ss) (among-sort s ss ∙ d.0) (sort-Distinct ss d.1)

pub distinct-Distinct : (ns : List Bytes) → Distinct ns → distinct ns ≡ ns
unfolding distinct
distinct-Distinct [] d = refl
distinct-Distinct (n ∷ ns) d =
    let e = distinct-Distinct ns d.1 in
    let a = ap (λ l. among n l) e ∙ d.0 in
    ap (λ b. if b then distinct ns else n ∷ distinct ns) a ∙ ap (λ l. n ∷ l) e

pub among-append_held :
    (k : Bytes) (ms ns : List Bytes) → among k ms ≡ true → among k (ms ++ ns) ≡ true
unfolding among
among-append_held k [] ns a = absurd (false≢true a)
among-append_held k (m ∷ ms) ns a = elim (Bool-cases (same_bytes m k)) [
  | inl t ↦ rw t refl
  | inr f ↦ rw f (among-append_held k ms ns (rw (f, among) at a))
]

pub among-append_other :
    (k : Bytes) (ms ns : List Bytes) → among k ms ≡ false → among k (ms ++ ns) ≡ among k ns
unfolding among
among-append_other k [] ns a = refl
among-append_other k (m ∷ ms) ns a = elim (Bool-cases (same_bytes m k)) [
  | inl t ↦ absurd (cc (rw (t, among) at a))
  | inr f ↦ rw f (among-append_other k ms ns (rw (f, among) at a))
]

-- The resources policies that go depend on the names only.
pub gone-same :
    (p : Policy) (w0 : World) (k : Bytes) (ms ns : List Bytes)
    → ((n : Bytes) → among n ms ≡ true → among n ns ≡ true)
    → among k (gone p w0 ns) ≡ false
    → among k (gone p w0 ms) ≡ false
gone-same p w0 k ms ns within a = elim (Bool-cases (among k (gone p w0 ms))) [
  | inr f ↦ f
  | inl t ↦
      let (n, b, l, e) = gone_origin p w0 k ms t in
      absurd (
        false≢true (
          sym a
          ∙ subst (λ j. among j (gone p w0 ns) ≡ true) e (among-gone p w0 n ns l (within n b))))
]
