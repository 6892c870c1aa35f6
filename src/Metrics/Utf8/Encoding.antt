-- ===== src/Metrics/Utf8/Encoding.antt =====
-- UTF-8 as Unicode defines it: the encodings of the scalar values. A sequence that src/Metrics.cpp
-- measures is one of them.
use pktvisor.Prelude.{
  ℕ, suc, ◌+◌, ◌-◌, ◌*◌, ◌/◌, ◌%◌, ◌≤◌, ◌<◌, ◌≡◌, refl, ap, sym, subst, ◌∙◌, ◌⊎◌, inl, inr, true,
  false, ◌&&◌, ◌||◌, ◌==◌, some, List, [], ◌∷◌, ◌++◌, if◌then◌else◌, ltb, leb, arith, Bool-cases,
  length, take,
}
use pktvisor.Metrics.Utf8.{
  Bytes, lead_class, of_class, continuations, after_lead, utf8_sequence_length,
}

-- No surrogate.
abbrev pub IsScalar : ℕ → Type 0
IsScalar p = (p < 0x110000) × ((p < 0xD800) ⊎ (0xE000 ≤ p))

-- The bits of a code point, six in each byte after the first.
abbrev pub encode_point : ℕ → Bytes
encode_point p =
    if ltb p 0x80
    then p ∷ []
    else if ltb p 0x800
    then (0xC0 + p / 64) ∷ (0x80 + p % 64) ∷ []
    else if ltb p 0x10000
    then (0xE0 + p / 4096) ∷ (0x80 + p / 64 % 64) ∷ (0x80 + p % 64) ∷ []
    else (0xF0 + p / 262144) ∷ (0x80 + p / 4096 % 64) ∷ (0x80 + p / 64 % 64) ∷ (0x80 + p % 64) ∷ []

abbrev pub encode_all : List ℕ → Bytes
encode_all [] = []
encode_all (p ∷ ps) = encode_point p ++ encode_all ps

abbrev pub IsPoint : Bytes → Type 0
IsPoint bs = (p : ℕ) × IsScalar p × (bs ≡ encode_point p)

abbrev IsNext : ℕ → Type 0
IsNext c = (0x80 ≤ c) × (c ≤ 0xBF)

pub ascii-IsPoint : (b : ℕ) → b < 0x80 → IsPoint (b ∷ [])
ascii-IsPoint b h =
    let small : ltb b 0x80 ≡ true = ground arith in
    (b, (omega arith, inl (omega arith)), rw small refl)

two-IsPoint : (b c : ℕ) → 0xC2 ≤ b → b ≤ 0xDF → IsNext c → IsPoint (b ∷ c ∷ [])
two-IsPoint b c h k (l, m) =
    let p = (b - 0xC0) * 64 + (c - 0x80) in
    let f : ltb p 0x80 ≡ false = ground arith in
    let t : ltb p 0x800 ≡ true = ground arith in
    let x : b ≡ 0xC0 + p / 64 = omega arith in
    let y : c ≡ 0x80 + p % 64 = omega arith in
    (p, (omega arith, inl (omega arith)), rw (f, t) (two x y))
  where
    two : {b c x y : ℕ} → b ≡ x → c ≡ y → b ∷ c ∷ [] ≡ x ∷ y ∷ []
    two e f = cc

three-IsPoint :
    (b c d : ℕ)
    → 0xE0 ≤ b
    → b ≤ 0xEF
    → IsNext c
    → (b ≡ 0xE0 → 0xA0 ≤ c)
    → (b ≡ 0xED → c ≤ 0x9F)
    → IsNext d
    → IsPoint (b ∷ c ∷ d ∷ [])
three-IsPoint b c d h k (l, m) long plain (u, v) =
    let x = b - 0xE0 in
    let y = c - 0x80 in
    let z = d - 0x80 in
    let p = (x * 64 + y) * 64 + z in
    let least : 0x800 ≤ p = elim (Bool-cases (b == 0xE0)) [
      | inl t ↦ (let first : b ≡ 0xE0 = ground arith in let w = long first in omega arith)
      | inr f ↦ (let later : 0xE1 ≤ b = ground arith in omega arith)
    ] in
    let off : (p < 0xD800) ⊎ (0xE000 ≤ p) = elim (Bool-cases (ltb 0xED b)) [
      | inl t ↦ inr (let later : 0xEE ≤ b = ground arith in omega arith)
      | inr f ↦ elim (Bool-cases (b == 0xED)) [
        | inl t ↦ inl (let at : b ≡ 0xED = ground arith in let w = plain at in omega arith)
        | inr g ↦ inl (let before : b ≤ 0xEC = ground arith in omega arith)
      ]
    ] in
    let most : p < 0x10000 = omega arith in
    let e1 : b ≡ 0xE0 + p / 4096 = omega arith in
    let e2 : c ≡ 0x80 + p / 64 % 64 = omega arith in
    let e3 : d ≡ 0x80 + p % 64 = omega arith in
    let f : ltb p 0x80 ≡ false = ground arith in
    let g : ltb p 0x800 ≡ false = ground arith in
    let t : ltb p 0x10000 ≡ true = ground arith in
    (p, (omega arith, off), rw (f, g, t) (three e1 e2 e3))
  where
    three : {b c d x y z : ℕ} → b ≡ x → c ≡ y → d ≡ z → b ∷ c ∷ d ∷ [] ≡ x ∷ y ∷ z ∷ []
    three e f g = cc

four-IsPoint :
    (b c d e : ℕ)
    → 0xF0 ≤ b
    → b ≤ 0xF4
    → IsNext c
    → (b ≡ 0xF0 → 0x90 ≤ c)
    → (b ≡ 0xF4 → c ≤ 0x8F)
    → IsNext d
    → IsNext e
    → IsPoint (b ∷ c ∷ d ∷ e ∷ [])
four-IsPoint b c d e h k (l, m) long last (u, v) (i, j) =
    let x = b - 0xF0 in
    let y = c - 0x80 in
    let z = d - 0x80 in
    let w = e - 0x80 in
    let p = ((x * 64 + y) * 64 + z) * 64 + w in
    let least : 0x10000 ≤ p = elim (Bool-cases (b == 0xF0)) [
      | inl t ↦ (let first : b ≡ 0xF0 = ground arith in let q = long first in omega arith)
      | inr f ↦ (let later : 0xF1 ≤ b = ground arith in omega arith)
    ] in
    let most : p < 0x110000 = elim (Bool-cases (b == 0xF4)) [
      | inl t ↦ (let at : b ≡ 0xF4 = ground arith in let q = last at in omega arith)
      | inr f ↦ (let before : b ≤ 0xF3 = ground arith in omega arith)
    ] in
    let e1 : b ≡ 0xF0 + p / 262144 = omega arith in
    let e2 : c ≡ 0x80 + p / 4096 % 64 = omega arith in
    let e3 : d ≡ 0x80 + p / 64 % 64 = omega arith in
    let e4 : e ≡ 0x80 + p % 64 = omega arith in
    let f : ltb p 0x80 ≡ false = ground arith in
    let g : ltb p 0x800 ≡ false = ground arith in
    let t : ltb p 0x10000 ≡ false = ground arith in
    (p, (most, inr (omega arith)), rw (f, g, t) (four e1 e2 e3 e4))
  where
    four :
        {b c d e x y z w : ℕ}
        → b ≡ x
        → c ≡ y
        → d ≡ z
        → e ≡ w
        → b ∷ c ∷ d ∷ e ∷ [] ≡ x ∷ y ∷ z ∷ w ∷ []
    four f g h i = cc

-- What the loops say of the bytes after the first.
continuations-cases :
    (n : ℕ) (bs : Bytes)
    → continuations (suc n) bs ≡ true
    → (c : ℕ) × (rest : Bytes) × (bs ≡ c ∷ rest) × IsNext c × (continuations n rest ≡ true)
unfolding continuations
continuations-cases n [] h = cc
continuations-cases n (c ∷ rest) h = elim (Bool-cases (ltb c 0x80 || ltb 0xBF c)) [
  | inl t ↦ absurd (cc (rw (t, continuations) at h))
  | inr f ↦ (c, rest, refl, (ground arith, ground arith), rw (f, continuations) at h)
]

after_lead-cases :
    (len lo hi n : ℕ) (bs : Bytes)
    → after_lead len lo hi bs ≡ suc n
    → (c : ℕ) × (rest : Bytes) × (bs ≡ c ∷ rest)
      × (len ≡ suc n)
      × (lo ≤ c)
      × (c ≤ hi)
      × (continuations (len - 2) rest ≡ true)
unfolding after_lead
after_lead-cases len lo hi n [] h = absurd (omega arith)
after_lead-cases len lo hi n (c ∷ rest) h = elim (Bool-cases (ltb c lo || ltb hi c)) [
  | inl t ↦ absurd (cc (rw (t, after_lead) at h))
  | inr f ↦ elim (Bool-cases (continuations (len - 2) rest)) [
    | inr g ↦ absurd (cc (rw (f, g, after_lead) at h))
    | inl t ↦ (c, rest, refl, rw (f, t, after_lead) at h, ground arith, ground arith, t)
  ]
]

of_class-cases :
    (len lo hi n : ℕ) (bs : Bytes)
    → of_class (some (len, lo, hi)) bs ≡ suc n
    → after_lead len lo hi bs ≡ suc n
unfolding of_class
of_class-cases len lo hi n bs h = elim (Bool-cases (ltb (length bs + 1) len)) [
  | inl t ↦ absurd (cc (rw (t, of_class) at h))
  | inr f ↦ rw (f, of_class) at h
]

module _ (b : ℕ) (bs : Bytes) (n : ℕ) where
  two_bytes :
      0xC2 ≤ b
      → b ≤ 0xDF
      → of_class (some (2, 0x80, 0xBF)) bs ≡ suc n
      → IsPoint (take (suc n) (b ∷ bs))
  two_bytes h k e =
      let (c, rest, q, len, lo, hi, more) =
        after_lead-cases 2 0x80 0xBF n bs (of_class-cases 2 0x80 0xBF n bs e) in
      let one : 1 ≡ n = omega arith in
      subst (λ m. IsPoint (take (suc m) (b ∷ bs))) one
        (subst (λ cs. IsPoint (take 2 (b ∷ cs))) (sym q) (two-IsPoint b c h k (lo, hi)))

  three_bytes :
      (lo hi : ℕ)
      → 0xE0 ≤ b
      → b ≤ 0xEF
      → 0x80 ≤ lo
      → hi ≤ 0xBF
      → (b ≡ 0xE0 → 0xA0 ≤ lo)
      → (b ≡ 0xED → hi ≤ 0x9F)
      → of_class (some (3, lo, hi)) bs ≡ suc n
      → IsPoint (take (suc n) (b ∷ bs))
  three_bytes lo hi h k low high long plain e =
      let (c, rest, q, len, l, m, more) =
        after_lead-cases 3 lo hi n bs (of_class-cases 3 lo hi n bs e) in
      let (d, rest', r, v, more') = continuations-cases 0 rest more in
      let two : 2 ≡ n = omega arith in
      subst (λ i. IsPoint (take (suc i) (b ∷ bs))) two
        (subst (λ cs. IsPoint (take 3 (b ∷ cs))) (sym (q ∙ ap (λ ds. c ∷ ds) r))
          (three-IsPoint b c d h k (omega arith, omega arith)
            (λ first. let w = long first in omega arith) (λ at. let w = plain at in omega arith) v))

  four_bytes :
      (lo hi : ℕ)
      → 0xF0 ≤ b
      → b ≤ 0xF4
      → 0x80 ≤ lo
      → hi ≤ 0xBF
      → (b ≡ 0xF0 → 0x90 ≤ lo)
      → (b ≡ 0xF4 → hi ≤ 0x8F)
      → of_class (some (4, lo, hi)) bs ≡ suc n
      → IsPoint (take (suc n) (b ∷ bs))
  four_bytes lo hi h k low high long last e =
      let (c, rest, q, len, l, m, more) =
        after_lead-cases 4 lo hi n bs (of_class-cases 4 lo hi n bs e) in
      let (d, rest', r, v, more') = continuations-cases 1 rest more in
      let (x, rest'', s, w, more'') = continuations-cases 0 rest' more' in
      let three : 3 ≡ n = omega arith in
      subst (λ i. IsPoint (take (suc i) (b ∷ bs))) three
        (subst (λ cs. IsPoint (take 4 (b ∷ cs)))
          (sym (q ∙ ap (λ ds. c ∷ ds) (r ∙ ap (λ ds. d ∷ ds) s)))
          (four-IsPoint b c d x h k (omega arith, omega arith)
            (λ first. let w = long first in omega arith) (λ at. let w = last at in omega arith) v
            w))

-- The bytes that a length is measured of are the encoding of one scalar value.
pub sequence-IsPoint :
    (b : ℕ) (bs : Bytes) (n : ℕ)
    → utf8_sequence_length (b ∷ bs) ≡ suc n
    → IsPoint (take (suc n) (b ∷ bs))
unfolding utf8_sequence_length lead_class
sequence-IsPoint b bs n e = elim (Bool-cases (ltb b 0x80)) [
  | inl t ↦
      let one : 0 ≡ n = (let l : 1 ≡ suc n = rw (t, utf8_sequence_length) at e in omega arith) in
      let small : b < 0x80 = ground arith in
      subst (λ m. IsPoint (take (suc m) (b ∷ bs))) one (ascii-IsPoint b small)
  | inr f ↦
      let class : of_class (lead_class b) bs ≡ suc n = rw (f, utf8_sequence_length) at e in
      elim (Bool-cases (leb 0xC2 b && leb b 0xDF)) [
        | inl t ↦ two_bytes b bs n (ground arith) (ground arith) (rw (t, lead_class) at class)
        | inr g ↦ elim (Bool-cases (leb 0xE0 b && leb b 0xEF)) [
          | inl t ↦
              three_bytes b bs n (if b == 0xE0 then 0xA0 else 0x80)
                (if b == 0xED then 0x9F else 0xBF) (ground arith) (ground arith) (ground arith)
                (ground arith) (λ first. ground arith) (λ at. ground arith)
                (rw (g, t, lead_class) at class)
          | inr i ↦ elim (Bool-cases (leb 0xF0 b && leb b 0xF4)) [
            | inl t ↦
                four_bytes b bs n (if b == 0xF0 then 0x90 else 0x80)
                  (if b == 0xF4 then 0x8F else 0xBF) (ground arith) (ground arith) (ground arith)
                  (ground arith) (λ first. ground arith) (λ at. ground arith)
                  (rw (g, i, t, lead_class) at class)
            | inr j ↦ absurd (let z : 0 ≡ suc n = rw (g, i, j, lead_class) at class in omega arith)
          ]
        ]
      ]
]
