-- ===== src/Serializer/Reading.antt =====
-- A reader of labels in the exposition format that src/PrometheusSerializer.h writes.
use pktvisor.Prelude.{
  ℕ, zero, suc, ◌<◌, ◌≡◌, refl, subst, ◌∙◌, true, false, Option, none, some, [], ◌∷◌, ◌++◌, map,
  if◌then◌else◌, ◌==◌, inl, inr, Bool-cases, arith, append_assoc, length, All,
}
use pktvisor.Metrics.Utf8.{Bytes}
use pktvisor.Serializer.{
  LabelMap, quote, newline, backslash, letter_n, escape_byte, escape_all, rendered,
}

abbrev pub unescaped : ℕ → Option ℕ
unescaped d =
    if d == backslash
    then some backslash
    else if d == quote
    then some quote
    else if d == letter_n
    then some newline
    else none

abbrev pub with_byte : Option ℕ → Option (Bytes × Bytes) → Option (Bytes × Bytes)
with_byte (some c) (some (v, rest)) = some (c ∷ v, rest)
with_byte _ _ = none

-- Reads a value up to its closing quote: the value, and what is behind the quote.
unfoldable pub read_value : Bytes → Option (Bytes × Bytes)
read_value [] = none
read_value (c ∷ []) = if c == quote then some ([], []) else none
read_value (c ∷ d ∷ cs) =
    let after = read_value cs in
    let next = read_value (d ∷ cs) in
    if c == quote
    then some ([], d ∷ cs)
    else if c == backslash
    then with_byte (unescaped d) after
    else with_byte (some c) next

read_value_plain :
    (c : ℕ) (cs : Bytes)
    → (c == quote) ≡ false
    → (c == backslash) ≡ false
    → read_value (c ∷ cs) ≡ with_byte (some c) (read_value cs)
unfolding read_value
read_value_plain c [] h k = rw h refl
read_value_plain c (d ∷ cs) h k = rw (h, k) refl

read_value-quote : (rest : Bytes) → read_value (quote ∷ rest) ≡ some ([], rest)
unfolding read_value
read_value-quote [] = refl
read_value-quote (d ∷ rest) = refl

equal : (d c : ℕ) → (c == d) ≡ true → d ≡ c
equal d c h = ground arith

read_value-escape_all :
    (v rest : Bytes) → read_value (escape_all v ++ quote ∷ rest) ≡ some (v, rest)
unfolding read_value escape_all escape_byte
read_value-escape_all [] rest = read_value-quote rest
read_value-escape_all (c ∷ cs) rest =
    let ih = read_value-escape_all cs rest in
    let back : ℕ → Type 0 =
      λ d. read_value (escape_all (d ∷ cs) ++ quote ∷ rest) ≡ some (d ∷ cs, rest) in
    elim (Bool-cases (c == backslash)) [
      | inl slash ↦ subst back (equal backslash c slash) (rw ih refl)
      | inr a ↦ elim (Bool-cases (c == quote)) [
        | inl quoted ↦ subst back (equal quote c quoted) (rw ih refl)
        | inr b ↦ elim (Bool-cases (c == newline)) [
          | inl line ↦ subst back (equal newline c line) (rw ih refl)
          | inr n ↦ rw (a, b, n, escape_byte) (read_value_plain c _ b a ∙ rw ih refl)
        ]
      ]
    ]

abbrev pub equals_sign : ℕ
equals_sign = 61

abbrev pub comma : ℕ
comma = 44

abbrev pub closing : ℕ
closing = 125

abbrev pub IsName : Bytes → Type 0
IsName k = All (λ c. ((c == equals_sign) ≡ false) × ((c == closing) ≡ false)) k

-- Reads a label: the name up to `=`, the opening quote and the value.
abbrev pub named : ℕ → Option ((Bytes × Bytes) × Bytes) → Option ((Bytes × Bytes) × Bytes)
named c (some ((k, v), rest)) = some ((c ∷ k, v), rest)
named c none = none

abbrev pub unnamed : Option (Bytes × Bytes) → Option ((Bytes × Bytes) × Bytes)
unnamed (some (v, rest)) = some (([], v), rest)
unnamed none = none

abbrev pub opened : Bytes → Option ((Bytes × Bytes) × Bytes)
opened [] = none
opened (c ∷ cs) = if c == quote then unnamed (read_value cs) else none

unfoldable pub read_label : Bytes → Option ((Bytes × Bytes) × Bytes)
unfolding read_value
read_label [] = none
read_label (c ∷ cs) =
    let rest = read_label cs in if c == equals_sign then opened cs else named c rest

-- The text of one label.
abbrev pub label_text : Bytes → Bytes → Bytes
label_text k v = k ++ equals_sign ∷ quote ∷ escape_all (rendered v) ++ quote ∷ []

read_label_text :
    (k v rest : Bytes)
    → IsName k
    → read_label (label_text k v ++ rest) ≡ some ((k, rendered v), rest)
unfolding read_label
read_label_text [] v rest h =
    rw (append_assoc (escape_all (rendered v)) (quote ∷ []) rest)
      (rw (read_value-escape_all (rendered v) rest) refl)
read_label_text (c ∷ k) v rest h = rw h.0.0 (rw (read_label_text k v rest h.1) refl)

abbrev pub and_label : Bytes × Bytes → Option (LabelMap × Bytes) → Option (LabelMap × Bytes)
and_label l none = none
and_label l (some (ls, rest)) = some (l ∷ ls, rest)

-- Reads labels up to the closing brace.
abbrev pub after_label :
    Option ((Bytes × Bytes) × Bytes)
    → (Bytes → Option (LabelMap × Bytes))
    → Option (LabelMap × Bytes)
after_label none more = none
after_label (some (l, [])) more = none
after_label (some (l, c ∷ rest)) more =
    if c == closing
    then some (l ∷ [], rest)
    else if c == comma
    then and_label l (more rest)
    else none

unfoldable pub read_labels : ℕ → Bytes → Option (LabelMap × Bytes)
unfolding read_label
read_labels zero text = none
read_labels (suc n) text = after_label (read_label text) (read_labels n)

-- Reads a set of labels in braces, of fewer than `n` labels.
abbrev pub braced : ℕ → Bytes → Option (LabelMap × Bytes)
braced n [] = none
braced n (c ∷ cs) = if c == closing then some ([], cs) else read_labels n (c ∷ cs)

abbrev pub read_set : ℕ → Bytes → Option (LabelMap × Bytes)
read_set n [] = none
read_set n (c ∷ cs) = if c == b'{' then braced n cs else none

abbrev pub all_rendered : LabelMap → LabelMap
all_rendered ls = map (λ (l : Bytes × Bytes). (l.0, rendered l.1)) ls

abbrev pub AreNames : LabelMap → Type 0
AreNames ls = All (λ (l : Bytes × Bytes). IsName l.0) ls

-- The labels between commas, then the brace.
abbrev pub set_text : Bytes × Bytes → LabelMap → Bytes
set_text (k, v) [] = label_text k v ++ closing ∷ []
set_text (k, v) (l ∷ ls) = label_text k v ++ comma ∷ set_text l ls

pub read_labels-set_text :
    (n : ℕ) (l : Bytes × Bytes) (ls : LabelMap) (rest : Bytes)
    → length ls < n
    → AreNames (l ∷ ls)
    → read_labels n (set_text l ls ++ rest) ≡ some (all_rendered (l ∷ ls), rest)
unfolding read_labels
read_labels-set_text zero l ls rest h names = absurd (omega arith)
read_labels-set_text (suc n) (k, v) [] rest h names =
    rw (append_assoc (label_text k v) (closing ∷ []) rest)
      (rw (read_label_text k v (closing ∷ rest) names.0) refl)
read_labels-set_text (suc n) (k, v) (l ∷ ls) rest h names =
    rw (append_assoc (label_text k v) (comma ∷ set_text l ls) rest) (
      rw (read_label_text k v (comma ∷ set_text l ls ++ rest) names.0)
        (rw (read_labels-set_text n l ls rest (omega arith) names.1) refl))
