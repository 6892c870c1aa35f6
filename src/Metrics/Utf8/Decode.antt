-- ===== src/Metrics/Utf8/Decode.antt =====
-- What `utf8_label_value` of src/Metrics.cpp renders can be read back.
use pktvisor.Prelude.{
  ℕ, zero, suc, ◌+◌, ◌-◌, ◌*◌, ◌/◌, ◌%◌, ◌≤◌, ◌<◌, ◌≡◌, refl, sym, ap, ◌∙◌, subst, Bool, true,
  false, ◌&&◌, ◌||◌, ◌==◌, [], ◌∷◌, ◌++◌, arith, Bool-cases, inl, inr, ◌⊎◌, if◌then◌else◌, length,
  take, drop, All, All-drop, length-drop, take-append-drop,
}
use pktvisor.Metrics.Utf8.{
  Bytes, digit, backslash, three_digits, backslash_before_digits, utf8_sequence_length,
  escaped_byte, escape_from, needs_escape_from, label_value_needs_escape, utf8_label_value,
}
use pktvisor.Metrics.Utf8.Sequence.{length_ascii, sequence-High}
use pktvisor.Metrics.Utf8.Valid.{IsBytes}

abbrev is_escape : ℕ → ℕ → ℕ → ℕ → Bool
is_escape b x y z = b == backslash && (digit x && (digit y && digit z))

-- Reads a rendering: a backslash and three digits stand for the byte of that number.
unfoldable pub decode : Bytes → Bytes
decode [] = []
decode (b ∷ []) = b ∷ []
decode (b ∷ x ∷ []) = b ∷ x ∷ []
decode (b ∷ x ∷ y ∷ []) = b ∷ x ∷ y ∷ []
decode (b ∷ x ∷ y ∷ z ∷ rest) =
    let after = decode rest in
    let next = decode (x ∷ y ∷ z ∷ rest) in
    if is_escape b x y z then ((x - 48) * 100 + (y - 48) * 10 + (z - 48)) ∷ after else b ∷ next

-- A byte that starts no escape stands for itself.
decode_plain :
    (b : ℕ) (bs : Bytes)
    → backslash_before_digits (b ∷ bs) ≡ false
    → decode (b ∷ bs) ≡ b ∷ decode bs
unfolding decode
decode_plain b [] h = refl
decode_plain b (x ∷ []) h = refl
decode_plain b (x ∷ y ∷ []) h = refl
decode_plain b (x ∷ y ∷ z ∷ rest) h = rw h refl

decode-escaped_byte : (b : ℕ) (bs : Bytes) → b < 256 → decode (escaped_byte b ++ bs) ≡ b ∷ decode bs
unfolding decode escaped_byte
decode-escaped_byte b bs h =
    let e : is_escape backslash (48 + b / 100) (48 + b / 10 % 10) (48 + b % 10) ≡ true =
      ground arith in
    let v : (48 + b / 100 - 48) * 100 + (48 + b / 10 % 10 - 48) * 10 + (48 + b % 10 - 48) ≡ b =
      omega arith in
    rw e (ap (λ c. c ∷ decode bs) v)

high_plain : (b : ℕ) (bs : Bytes) → 0x80 ≤ b → backslash_before_digits (b ∷ bs) ≡ false
high_plain b bs h = let e : (b == backslash) ≡ false = ground arith in rw e refl

-- A text of bytes above ASCII stands for itself.
decode_high : (xs bs : Bytes) → All (λ b. 0x80 ≤ b) xs → decode (xs ++ bs) ≡ xs ++ decode bs
decode_high [] bs h = refl
decode_high (x ∷ xs) bs h =
    decode_plain x (xs ++ bs) (high_plain x (xs ++ bs) h.0)
    ∙ ap (λ l. x ∷ l) (decode_high xs bs h.1)

-- Whether a text begins with `n` digits.
abbrev digits : ℕ → Bytes → Bool
digits zero bs = true
digits (suc n) [] = false
digits (suc n) (b ∷ bs) = digit b && digits n bs

and_true : (b : Bool) → (b && true) ≡ b
and_true true = refl
and_true false = refl

digits_three : (bs : Bytes) → three_digits bs ≡ digits 3 bs
digits_three [] = refl
digits_three (x ∷ []) = ground arith
digits_three (x ∷ y ∷ []) = ground arith
digits_three (x ∷ y ∷ z ∷ bs) = rw (and_true (digit z)) refl

digit_plain : (b : ℕ) (bs : Bytes) → digit b ≡ true → backslash_before_digits (b ∷ bs) ≡ false
digit_plain b bs h = let e : (b == backslash) ≡ false = ground arith in rw e refl

-- A digit passes through, and what begins with no digit is rendered as such.
escape_from-digit :
    (f b : ℕ) (bs : Bytes) → digit b ≡ true → escape_from (suc f) (b ∷ bs) ≡ b ∷ escape_from f bs
unfolding escape_from
escape_from-digit f b bs h =
    let l : utf8_sequence_length (b ∷ bs) ≡ 1 = length_ascii b bs (ground arith) in
    rw (digit_plain b bs h, l) refl

escape_from-other :
    (f n b : ℕ) (bs : Bytes)
    → digit b ≡ false
    → digits (suc n) (escape_from (suc f) (b ∷ bs)) ≡ false
unfolding escape_from escaped_byte
escape_from-other f n b bs h = elim (Bool-cases (backslash_before_digits (b ∷ bs))) [
  | inl before ↦ rw (before, escape_from) refl
  | inr plain ↦ go (utf8_sequence_length (b ∷ bs)) refl plain
]
  where
    go :
        (len : ℕ)
        → utf8_sequence_length (b ∷ bs) ≡ len
        → backslash_before_digits (b ∷ bs) ≡ false
        → digits (suc n) (escape_from (suc f) (b ∷ bs)) ≡ false
    go zero e plain = rw (plain, e, escape_from) refl
    go (suc k) e plain =
        let z : (suc k == 0) ≡ false = ground arith in rw (plain, e, z, escape_from) (rw h refl)

digits-escape_from :
    (n f : ℕ) (bs : Bytes) → length bs ≤ f → digits n (escape_from f bs) ≡ digits n bs
digits-escape_from zero f bs l = refl
digits-escape_from (suc n) f [] l = unfold escape_from in refl
digits-escape_from (suc n) zero (b ∷ bs) l = absurd (omega arith)
digits-escape_from (suc n) (suc f) (b ∷ bs) l = elim (Bool-cases (digit b)) [
  | inl number ↦
      rw (escape_from-digit f b bs number)
        (ap (λ d. digit b && d) (digits-escape_from n f bs (omega arith)))
  | inr other ↦ escape_from-other f n b bs other ∙ rw other refl
]

escaped_plain :
    (f b : ℕ) (bs : Bytes)
    → length bs ≤ f
    → backslash_before_digits (b ∷ bs) ≡ false
    → backslash_before_digits (b ∷ escape_from f bs) ≡ false
escaped_plain f b bs l h =
    rw (digits_three (escape_from f bs) ∙ digits-escape_from 3 f bs l ∙ sym (digits_three bs)) h

equal_backslash : (b : ℕ) (bs : Bytes) → backslash_before_digits (b ∷ bs) ≡ true → b ≡ backslash
equal_backslash b bs h = elim (Bool-cases (b == backslash)) [
  | inl t ↦ ground arith
  | inr f ↦ absurd (cc (rw f at h))
]

-- The rendering of a text whose first byte starts no escape, when the shorter texts read back.
decode-plain_head :
    (f b : ℕ) (bs : Bytes)
    → length bs ≤ f
    → IsBytes (b ∷ bs)
    → backslash_before_digits (b ∷ bs) ≡ false
    → ((cs : Bytes) → length cs ≤ f → IsBytes cs → decode (escape_from f cs) ≡ cs)
    → decode (escape_from (suc f) (b ∷ bs)) ≡ b ∷ bs
unfolding escape_from
decode-plain_head f b bs l h plain shorter = go (utf8_sequence_length (b ∷ bs)) refl
  where
    one : decode (b ∷ escape_from f bs) ≡ b ∷ bs
    one =
        decode_plain b (escape_from f bs) (escaped_plain f b bs l plain)
        ∙ ap (λ t. b ∷ t) (shorter bs l h.1)

    sequence :
        (k : ℕ)
        → ((b < 0x80) × (k ≡ 0)) ⊎ All (λ c. 0x80 ≤ c) (take (suc k) (b ∷ bs))
        → decode (take (suc k) (b ∷ bs) ++ escape_from f (drop (suc k) (b ∷ bs))) ≡ b ∷ bs
    sequence k (inl low) =
        subst
          (λ j. decode (take (suc j) (b ∷ bs) ++ escape_from f (drop (suc j) (b ∷ bs))) ≡ b ∷ bs)
          (sym low.1) one
    sequence k (inr high) =
        decode_high (take (suc k) (b ∷ bs)) _ high
        ∙ ap (λ t. take (suc k) (b ∷ bs) ++ t)
            (shorter (drop (suc k) (b ∷ bs)) (omega (arith, length-drop k bs))
              (All-drop (λ c. c < 256) (suc k) (b ∷ bs) h))
        ∙ take-append-drop (suc k) (b ∷ bs)

    go :
        (len : ℕ)
        → utf8_sequence_length (b ∷ bs) ≡ len
        → decode (escape_from (suc f) (b ∷ bs)) ≡ b ∷ bs
    go zero e =
        rw (plain, e, escape_from)
          (decode-escaped_byte b (escape_from f bs) h.0 ∙ ap (λ t. b ∷ t) (shorter bs l h.1))
    go (suc k) e =
        let z : (suc k == 0) ≡ false = ground arith in
        rw (plain, e, z, escape_from) (sequence k (sequence-High b bs k e))

decode-escape_from :
    (f : ℕ) (bs : Bytes) → length bs ≤ f → IsBytes bs → decode (escape_from f bs) ≡ bs
unfolding escape_from
decode-escape_from f [] l h = unfold decode in refl
decode-escape_from zero (b ∷ bs) l h = absurd (omega arith)
decode-escape_from (suc f) (b ∷ bs) l h = elim (Bool-cases (backslash_before_digits (b ∷ bs))) [
  | inl before ↦
      rw (before, escape_from)
        (decode-escaped_byte backslash (escape_from f bs) (omega arith)
          ∙ ap (λ t. backslash ∷ t) (decode-escape_from f bs (omega arith) h.1)
          ∙ ap (λ c. c ∷ bs) (sym (equal_backslash b bs before)))
  | inr plain ↦
      decode-plain_head f b bs (omega arith) h plain (λ cs k v. decode-escape_from f cs k v)
]

all_false :
    (a b r : Bool) → (if a || b then true else r) ≡ false → (a ≡ false) × (b ≡ false) × (r ≡ false)
all_false true b r h = cc
all_false false true r h = cc
all_false false false r h = (refl, refl, h)

-- A text that needs no escape is left as it is by the rendering too.
escape_from-unneeded : (f : ℕ) (bs : Bytes) → needs_escape_from f bs ≡ false → escape_from f bs ≡ bs
unfolding escape_from needs_escape_from
escape_from-unneeded f [] h = refl
escape_from-unneeded zero (b ∷ bs) h = cc
escape_from-unneeded (suc f) (b ∷ bs) h =
    let len = utf8_sequence_length (b ∷ bs) in
    let none = all_false (len == 0) (backslash_before_digits (b ∷ bs)) _ h in
    elim (Bool-cases (backslash_before_digits (b ∷ bs))) [
      | inl before ↦ absurd (cc (before, none.1))
      | inr plain ↦ elim (Bool-cases (len == 0)) [
        | inl bad ↦ absurd (cc (bad, none.0))
        | inr good ↦
            rw (plain, good, escape_from)
              (ap (λ t. take len (b ∷ bs) ++ t) (escape_from-unneeded f (drop len (b ∷ bs)) none.2)
                ∙ take-append-drop len (b ∷ bs))
      ]
    ]

-- Whatever bytes a label value has, they can be read back from its rendering, so that two values
-- that differ never render the same.
pub decode-utf8_label_value :
    (value : Bytes) → IsBytes value → decode (utf8_label_value value) ≡ value
unfolding utf8_label_value label_value_needs_escape
decode-utf8_label_value value h =
    let whole = decode-escape_from (length value) value (omega arith) h in
    elim (Bool-cases (label_value_needs_escape value)) [
      | inl escapes ↦ rw (escapes, utf8_label_value) whole
      | inr plain ↦
          rw (plain, utf8_label_value)
            (ap decode (sym (escape_from-unneeded (length value) value plain)) ∙ whole)
    ]
