-- ===== src/Frames/Step.antt =====
-- One `_try_yield_frame` of src/inputs/dnstap/UnixFrameSession.h: more bytes behind a frame make
-- no difference to it, and a frame has bytes.
use pktvisor.Prelude.{
  ℕ, zero, suc, ◌≤◌, ◌<◌, ◌≡◌, refl, ap, true, none, some, List, [], ◌∷◌, ◌++◌, inl, inr, arith,
  Bool-cases, length, take, drop, leb, ltb, ◌==◌, length-append, length-drop,
}
use pktvisor.Metrics.Utf8.{Bytes}
use pktvisor.Frames.{
  Fstrm, Session, Yield, waits, throws, yields, word, data_frame, control_frame, control_body,
  after_control, is_state, running, finishing, try_yield_frame, Thrown,
}

take-append {ℓ} :
    {A : Type ℓ} (n : ℕ) (xs ys : List A) → n ≤ length xs → take n (xs ++ ys) ≡ take n xs
take-append zero xs ys h = refl
take-append (suc n) [] ys h = absurd (omega arith)
take-append (suc n) (x ∷ xs) ys h = ap (λ l. x ∷ l) (take-append n xs ys (omega arith))

drop-append {ℓ} :
    {A : Type ℓ} (n : ℕ) (xs ys : List A) → n ≤ length xs → drop n (xs ++ ys) ≡ drop n xs ++ ys
drop-append zero xs ys h = refl
drop-append (suc n) [] ys h = absurd (omega arith)
drop-append (suc n) (x ∷ xs) ys h = drop-append n xs ys (omega arith)

leb-append : (n : ℕ) (xs ys : Bytes) → leb n (length xs) ≡ true → leb n (length (xs ++ ys)) ≡ true
leb-append n xs ys h = ground (arith, length-append xs ys)

leb-true : (n k : ℕ) → leb n k ≡ true → n ≤ k
leb-true n k h = ground arith

-- What a step gives when more bytes follow.
abbrev pub ThenMore : Yield → Yield → Bytes → Type 0
ThenMore waits r more = Unit
ThenMore (throws e s) r more = r ≡ throws e s
ThenMore (yields s rest) r more = r ≡ yields s (rest ++ more)

module _ (lib : Fstrm) (s : Session) (more : Bytes) where
  data_frame-append :
      (n : ℕ) (bs : Bytes) → ThenMore (data_frame lib s n bs) (data_frame lib s n (bs ++ more)) more
  unfolding data_frame
  data_frame-append n bs = elim (Bool-cases (is_state s.state running)) [
    | inr idle ↦ rw (idle, data_frame) refl
    | inl runs ↦ elim (Bool-cases (ltb lib.max_frame n)) [
      | inl large ↦ rw (runs, large, data_frame) refl
      | inr small ↦ elim (Bool-cases (leb n (length bs))) [
        | inl whole ↦
            rw
              (
                runs,
                small,
                whole,
                leb-append n bs more whole,
                data_frame,
                take-append n bs more (leb-true n _ whole),
                drop-append n bs more (leb-true n _ whole),
              )
              refl
        | inr part ↦ rw (runs, small, part, data_frame) tt
      ]
    ]
  ]

  after_control-append :
      (t : Thrown) (rest : Bytes)
      → ThenMore (after_control t rest) (after_control t (rest ++ more)) more
  after_control-append (s', none) rest = refl
  after_control-append (s', some e) rest = refl

  control_body-append :
      (n : ℕ) (bs : Bytes)
      → ThenMore (control_body lib s n bs) (control_body lib s n (bs ++ more)) more
  unfolding control_body
  control_body-append n bs = elim (Bool-cases (ltb lib.max_control n)) [
    | inl large ↦ rw (large, control_body) refl
    | inr small ↦ elim (Bool-cases (leb n (length bs))) [
      | inl whole ↦
          rw
            (
              small,
              whole,
              leb-append n bs more whole,
              control_body,
              take-append n bs more (leb-true n _ whole),
              drop-append n bs more (leb-true n _ whole),
            )
            (after_control-append _ _)
      | inr part ↦ rw (small, part, control_body) tt
    ]
  ]

  control_frame-append :
      (bs : Bytes) → ThenMore (control_frame lib s bs) (control_frame lib s (bs ++ more)) more
  unfolding control_frame
  control_frame-append [] = tt
  control_frame-append (a ∷ []) = tt
  control_frame-append (a ∷ b ∷ []) = tt
  control_frame-append (a ∷ b ∷ c ∷ []) = tt
  control_frame-append (a ∷ b ∷ c ∷ d ∷ bs) = control_body-append (word a b c d) bs

  pub try_yield_frame-append :
      (bs : Bytes) → ThenMore (try_yield_frame lib s bs) (try_yield_frame lib s (bs ++ more)) more
  unfolding try_yield_frame
  try_yield_frame-append [] = tt
  try_yield_frame-append (a ∷ []) = tt
  try_yield_frame-append (a ∷ b ∷ []) = tt
  try_yield_frame-append (a ∷ b ∷ c ∷ []) = tt
  try_yield_frame-append (a ∷ b ∷ c ∷ d ∷ bs) = elim (Bool-cases (is_state s.state finishing)) [
    | inl over ↦ rw (over, try_yield_frame) refl
    | inr on ↦ elim (Bool-cases (word a b c d == 0)) [
      | inl escape ↦ rw (on, escape, try_yield_frame) (control_frame-append bs)
      | inr data_length ↦
          rw (on, data_length, try_yield_frame) (data_frame-append (word a b c d) bs)
    ]
  ]

-- A step consumes bytes.
abbrev pub Shorter : Yield → ℕ → Type 0
Shorter (yields s rest) n = length rest < n
Shorter _ n = Unit

module _ (lib : Fstrm) (s : Session) where
  data_frame-Shorter : (n : ℕ) (bs : Bytes) → Shorter (data_frame lib s n bs) (suc (length bs))
  unfolding data_frame
  data_frame-Shorter n bs = elim (Bool-cases (is_state s.state running)) [
    | inr idle ↦ rw (idle, data_frame) tt
    | inl runs ↦ elim (Bool-cases (ltb lib.max_frame n)) [
      | inl large ↦ rw (runs, large, data_frame) tt
      | inr small ↦ elim (Bool-cases (leb n (length bs))) [
        | inl whole ↦ rw (runs, small, whole, data_frame) (omega (arith, length-drop n bs))
        | inr part ↦ rw (runs, small, part, data_frame) tt
      ]
    ]
  ]

  after_control-Shorter :
      (t : Thrown) (rest : Bytes) (n : ℕ) → length rest < n → Shorter (after_control t rest) n
  after_control-Shorter (s', none) rest n h = h
  after_control-Shorter (s', some e) rest n h = tt

  control_body-Shorter :
      (n : ℕ) (bs : Bytes) (k : ℕ) → length bs < k → Shorter (control_body lib s n bs) k
  unfolding control_body
  control_body-Shorter n bs k h = elim (Bool-cases (ltb lib.max_control n)) [
    | inl large ↦ rw (large, control_body) tt
    | inr small ↦ elim (Bool-cases (leb n (length bs))) [
      | inl whole ↦
          rw (small, whole, control_body)
            (after_control-Shorter _ _ _ (omega (arith, length-drop n bs)))
      | inr part ↦ rw (small, part, control_body) tt
    ]
  ]

  control_frame-Shorter : (bs : Bytes) → Shorter (control_frame lib s bs) (suc (length bs))
  unfolding control_frame
  control_frame-Shorter [] = tt
  control_frame-Shorter (a ∷ []) = tt
  control_frame-Shorter (a ∷ b ∷ []) = tt
  control_frame-Shorter (a ∷ b ∷ c ∷ []) = tt
  control_frame-Shorter (a ∷ b ∷ c ∷ d ∷ bs) =
      control_body-Shorter (word a b c d) bs _ (omega arith)

  weaken : (y : Yield) (n k : ℕ) → n ≤ k → Shorter y n → Shorter y k
  weaken waits n k l h = tt
  weaken (throws e s) n k l h = tt
  weaken (yields s rest) n k l h = omega arith

  pub try_yield_frame-Shorter : (bs : Bytes) → Shorter (try_yield_frame lib s bs) (length bs)
  unfolding try_yield_frame
  try_yield_frame-Shorter [] = tt
  try_yield_frame-Shorter (a ∷ []) = tt
  try_yield_frame-Shorter (a ∷ b ∷ []) = tt
  try_yield_frame-Shorter (a ∷ b ∷ c ∷ []) = tt
  try_yield_frame-Shorter (a ∷ b ∷ c ∷ d ∷ bs) = elim (Bool-cases (is_state s.state finishing)) [
    | inl over ↦ rw (over, try_yield_frame) tt
    | inr on ↦ elim (Bool-cases (word a b c d == 0)) [
      | inl escape ↦
          rw (on, escape, try_yield_frame) (weaken _ _ _ (omega arith) (control_frame-Shorter bs))
      | inr data_length ↦
          rw (on, data_length, try_yield_frame)
            (weaken _ _ _ (omega arith) (data_frame-Shorter (word a b c d) bs))
    ]
  ]
