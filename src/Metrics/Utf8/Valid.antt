-- ===== src/Metrics/Utf8/Valid.antt =====
-- What `utf8_label_value` of src/Metrics.cpp returns, against the UTF-8 of Unicode.
use pktvisor.Prelude.{
  ℕ, zero, suc, ◌+◌, ◌/◌, ◌%◌, ◌<◌, ◌≡◌, refl, ap, ◌∙◌, subst, Bool, true, false, List, [], ◌∷◌,
  ◌++◌, arith, Bool-cases, inl, inr, length, take, drop, take-append-drop, All, All-drop, ◌||◌,
  ◌==◌,
}
use pktvisor.Metrics.Utf8.{
  Bytes, utf8_sequence_length, utf8_from, is_utf8, needs_escape_from, label_value_needs_escape,
  escaped_byte, escape_from, utf8_label_value, backslash, backslash_before_digits,
}
use pktvisor.Metrics.Utf8.Encoding.{
  IsScalar, encode_point, encode_all, IsPoint, ascii-IsPoint, sequence-IsPoint,
}

abbrev pub IsBytes : Bytes → Type 0
IsBytes bs = All (λ b. b < 256) bs

-- The encodings of scalar values, one after the other.
abbrev pub IsUtf8 : Bytes → Type 0
IsUtf8 bs = (ps : List ℕ) × All IsScalar ps × (bs ≡ encode_all ps)

IsUtf8-append : (bs rest : Bytes) → IsPoint bs → IsUtf8 rest → IsUtf8 (bs ++ rest)
IsUtf8-append bs rest (p, s, e) (ps, all, f) =
    (p ∷ ps, (s, all), ap (λ cs. cs ++ rest) e ∙ ap (λ cs. encode_point p ++ cs) f)

IsUtf8-ascii : (b : ℕ) (bs : Bytes) → b < 0x80 → IsUtf8 bs → IsUtf8 (b ∷ bs)
IsUtf8-ascii b bs l h = IsUtf8-append (b ∷ []) bs (ascii-IsPoint b l) h

IsUtf8-escaped_byte : (b : ℕ) (bs : Bytes) → b < 256 → IsUtf8 bs → IsUtf8 (escaped_byte b ++ bs)
unfolding escaped_byte
IsUtf8-escaped_byte b bs l h = IsUtf8-ascii backslash _ (omega arith) (
    IsUtf8-ascii (48 + b / 100) _ (omega arith) (
      IsUtf8-ascii (48 + b / 10 % 10) _ (omega arith)
        (IsUtf8-ascii (48 + b % 10) bs (omega arith) h)))

-- A sequence that has a length.
measured :
    (b : ℕ) (bs rest : Bytes) (len : ℕ)
    → utf8_sequence_length (b ∷ bs) ≡ len
    → (len == 0) ≡ false
    → IsUtf8 rest
    → IsUtf8 (take len (b ∷ bs) ++ rest)
measured b bs rest zero e p h = cc
measured b bs rest (suc n) e p h =
    IsUtf8-append (take (suc n) (b ∷ bs)) rest (sequence-IsPoint b bs n e) h

escape_from-IsUtf8 : (fuel : ℕ) (bs : Bytes) → IsBytes bs → IsUtf8 (escape_from fuel bs)
unfolding escape_from
escape_from-IsUtf8 fuel [] h = ([], tt, refl)
escape_from-IsUtf8 zero (b ∷ bs) h = ([], tt, refl)
escape_from-IsUtf8 (suc fuel) (b ∷ bs) h =
    let len = utf8_sequence_length (b ∷ bs) in
    let past =
      escape_from-IsUtf8 fuel (drop len (b ∷ bs)) (All-drop (λ c. c < 256) len (b ∷ bs) h) in
    elim (Bool-cases (backslash_before_digits (b ∷ bs))) [
      | inl before ↦
          rw (before, escape_from)
            (IsUtf8-escaped_byte backslash _ (omega arith) (escape_from-IsUtf8 fuel bs h.1))
      | inr other ↦ elim (Bool-cases (len == 0)) [
        | inl bad ↦
            rw (other, bad, escape_from)
              (IsUtf8-escaped_byte b _ h.0 (escape_from-IsUtf8 fuel bs h.1))
        | inr good ↦ rw (other, good, escape_from) (measured b bs _ len refl good past)
      ]
    ]

-- What the code takes for valid is.
utf8_from-IsUtf8 : (fuel : ℕ) (bs : Bytes) → utf8_from fuel bs ≡ true → IsUtf8 bs
unfolding utf8_from
utf8_from-IsUtf8 fuel [] h = ([], tt, refl)
utf8_from-IsUtf8 zero (b ∷ bs) h = cc
utf8_from-IsUtf8 (suc fuel) (b ∷ bs) h =
    let len = utf8_sequence_length (b ∷ bs) in
    elim (Bool-cases (len == 0)) [
      | inl bad ↦ absurd (cc (rw (bad, utf8_from) at h))
      | inr good ↦ subst IsUtf8 (take-append-drop len (b ∷ bs)) (
          measured b bs (drop len (b ∷ bs)) len refl good
            (utf8_from-IsUtf8 fuel (drop len (b ∷ bs)) (rw (good, utf8_from) at h)))
    ]

or_false : (a b : Bool) → (a || b) ≡ false → a ≡ false
or_false a b h = ground arith

unescaped-utf8 :
    (fuel : ℕ) (bs : Bytes) → needs_escape_from fuel bs ≡ false → utf8_from fuel bs ≡ true
unfolding needs_escape_from utf8_from
unescaped-utf8 fuel [] h = refl
unescaped-utf8 zero (b ∷ bs) h = cc
unescaped-utf8 (suc fuel) (b ∷ bs) h =
    let len = utf8_sequence_length (b ∷ bs) in
    let before = backslash_before_digits (b ∷ bs) in
    elim (Bool-cases (len == 0 || before)) [
      | inl t ↦ absurd (cc (rw (t, needs_escape_from) at h))
      | inr f ↦
          rw (or_false (len == 0) before f, utf8_from)
            (unescaped-utf8 fuel (drop len (b ∷ bs)) (rw (f, needs_escape_from) at h))
    ]

-- Whatever bytes a label value has, its rendering is the UTF-8 encoding of a list of Unicode scalar
-- values, each in its one encoding; and so is every text that `is_utf8` accepts.
pub utf8_label_value-IsUtf8 :
    (value : Bytes)
    → IsBytes value
    → IsUtf8 (utf8_label_value value) × (is_utf8 value ≡ true → IsUtf8 value)
unfolding is_utf8 utf8_label_value label_value_needs_escape
utf8_label_value-IsUtf8 value h = (
  elim (Bool-cases (label_value_needs_escape value)) [
    | inl escapes ↦ rw (escapes, utf8_label_value) (escape_from-IsUtf8 (length value) value h)
    | inr plain ↦
        rw (plain, utf8_label_value)
          (utf8_from-IsUtf8 (length value) value (unescaped-utf8 (length value) value plain))
  ],
  λ v. utf8_from-IsUtf8 (length value) value v,
)
