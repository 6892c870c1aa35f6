-- ===== src/Metrics/Utf8/Sequence.antt =====
-- The bytes of one UTF-8 sequence, as src/Metrics.cpp measures it (utf8_sequence_length).
use pktvisor.Prelude.{
  Bool-cases, inl, inr, ◌||◌, ◌⊎◌, ltb, All, ℕ, zero, suc, ◌+◌, ◌-◌, ◌≤◌, ◌<◌, ◌≡◌, subst, true,
  Option, none, some, [], ◌∷◌, arith, length, take,
}
use pktvisor.Metrics.Utf8.{
  Bytes, lead_class, of_class, continuations, after_lead, utf8_sequence_length,
}

-- An ASCII byte is a sequence of its own.
pub length_ascii : (b : ℕ) (bs : Bytes) → b < 0x80 → utf8_sequence_length (b ∷ bs) ≡ 1
unfolding utf8_sequence_length
length_ascii b bs h = ground arith

after_lead-length :
    (len lo hi : ℕ) (bs : Bytes) (n : ℕ) → 2 ≤ len → after_lead len lo hi bs ≡ suc n → len ≡ suc n
unfolding after_lead
after_lead-length len lo hi [] n h e = absurd (omega arith)
after_lead-length len lo hi (b ∷ bs) n h e = ground arith

abbrev High : Bytes → Type 0
High bs = All (λ b. 0x80 ≤ b) bs

abbrev HighClass : Option (ℕ × ℕ × ℕ) → Type 0
HighClass none = Unit
HighClass (some (len, lo, hi)) = (2 ≤ len) × (0x80 ≤ lo)

lead_class-HighClass : (lead : ℕ) → HighClass (lead_class lead)
unfolding lead_class
lead_class-HighClass lead = ground arith

continuations-High : (k : ℕ) (more : Bytes) → continuations k more ≡ true → High (take k more)
unfolding continuations
continuations-High zero more h = tt
continuations-High (suc k) [] h = tt
continuations-High (suc k) (b ∷ more) h = elim (Bool-cases (ltb b 0x80 || ltb 0xBF b)) [
  | inl t ↦ absurd (cc (rw (t, continuations) at h))
  | inr f ↦ (ground arith, continuations-High k more (rw (f, continuations) at h))
]

take-High :
    (len n b : ℕ) (bs : Bytes)
    → 2 ≤ len
    → len ≡ suc n
    → 0x80 ≤ b
    → High (take (len - 2) bs)
    → High (take n (b ∷ bs))
take-High len zero b bs h e v w = absurd (omega arith)
take-High len (suc j) b bs h e v w =
    let p : len - 2 ≡ j = omega arith in (v, subst (λ i. High (take i bs)) p w)

after_lead-High :
    (len lo hi : ℕ) (bs : Bytes) (n : ℕ)
    → 2 ≤ len
    → 0x80 ≤ lo
    → after_lead len lo hi bs ≡ suc n
    → High (take n bs)
unfolding after_lead
after_lead-High len lo hi [] n h k e = absurd (omega arith)
after_lead-High len lo hi (b ∷ bs) n h k e = elim (Bool-cases (ltb b lo || ltb hi b)) [
  | inl t ↦ absurd (cc (rw (t, after_lead) at e))
  | inr f ↦ elim (Bool-cases (continuations (len - 2) bs)) [
    | inr g ↦ absurd (cc (rw (f, g, after_lead) at e))
    | inl t ↦
        let l : len ≡ suc n = rw (f, t, after_lead) at e in
        take-High len n b bs h l (ground arith) (continuations-High (len - 2) bs t)
  ]
]

of_class-High :
    (o : Option (ℕ × ℕ × ℕ)) (bs : Bytes) (n : ℕ)
    → HighClass o
    → of_class o bs ≡ suc n
    → (1 ≤ n) × High (take n bs)
unfolding of_class
of_class-High none bs n h e = absurd (omega arith)
of_class-High (some (len, lo, hi)) bs n h e = elim (Bool-cases (ltb (length bs + 1) len)) [
  | inl t ↦ absurd (cc (rw (t, of_class) at e))
  | inr f ↦
      let l : after_lead len lo hi bs ≡ suc n = rw (f, of_class) at e in
      (
        omega (arith, after_lead-length len lo hi bs n h.0 l, h.0),
        after_lead-High len lo hi bs n h.0 h.1 l,
      )
]

-- A sequence is one ASCII byte, or two bytes or more above ASCII.
pub sequence-High :
    (b : ℕ) (bs : Bytes) (n : ℕ)
    → utf8_sequence_length (b ∷ bs) ≡ suc n
    → ((b < 0x80) × (n ≡ 0)) ⊎ High (take (suc n) (b ∷ bs))
unfolding utf8_sequence_length
sequence-High b bs n e = elim (Bool-cases (ltb b 0x80)) [
  | inl low ↦ inl (ground arith, ground arith)
  | inr high ↦
      let l : of_class (lead_class b) bs ≡ suc n = rw (high, utf8_sequence_length) at e in
      inr (ground arith, (of_class-High (lead_class b) bs n (lead_class-HighClass b) l).1)
]
