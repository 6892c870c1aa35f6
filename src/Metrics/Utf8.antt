-- ===== src/Metrics/Utf8.antt =====
-- src/Metrics.cpp: `utf8_sequence_length`, `backslash_before_digits`, `is_utf8`,
-- `label_value_needs_escape` and `utf8_label_value`. A text is the list of its bytes. The index `i`
-- of each loop is the suffix that begins there, so `value.size() - i` is the suffix's length; each
-- round moves `i` on, so the length of the text is fuel enough.
pub mod Sequence
pub mod Encoding
pub mod Valid
pub mod Decode
use pktvisor.Prelude.{
  ℕ, zero, suc, ◌+◌, ◌-◌, ◌/◌, ◌%◌, Bool, true, false, ◌&&◌, ◌||◌, not, Option, none, some, List,
  [], ◌∷◌, ◌++◌, if◌then◌else◌, ltb, leb, ◌==◌, length, take, drop,
}

abbrev pub Bytes : Type 0
Bytes = List ℕ

-- The length that a lead byte announces, and the limits of the second byte.
unfoldable pub lead_class : ℕ → Option (ℕ × ℕ × ℕ)
lead_class lead =
    if leb 0xC2 lead && leb lead 0xDF
    then some (2, 0x80, 0xBF)
    else if leb 0xE0 lead && leb lead 0xEF
    then some (3, if lead == 0xE0 then 0xA0 else 0x80, if lead == 0xED then 0x9F else 0xBF)
    else if leb 0xF0 lead && leb lead 0xF4
    then some (4, if lead == 0xF0 then 0x90 else 0x80, if lead == 0xF4 then 0x8F else 0xBF)
    else none

-- The loop over the third byte and those after it.
unfoldable pub continuations : ℕ → Bytes → Bool
continuations zero bs = true
continuations (suc n) [] = false
continuations (suc n) (next ∷ bs) =
    if ltb next 0x80 || ltb 0xBF next then false else continuations n bs

unfoldable pub after_lead : ℕ → ℕ → ℕ → Bytes → ℕ
unfolding continuations
after_lead len lo hi [] = 0
after_lead len lo hi (second ∷ more) =
    if ltb second lo || ltb hi second then 0 else if continuations (len - 2) more then len else 0

-- The length of a sequence whose lead byte has the given class.
unfoldable pub of_class : Option (ℕ × ℕ × ℕ) → Bytes → ℕ
unfolding after_lead
of_class none rest = 0
of_class (some (len, lo, hi)) rest =
    if ltb (length rest + 1) len then 0 else after_lead len lo hi rest

unfoldable pub utf8_sequence_length : Bytes → ℕ
unfolding of_class lead_class
utf8_sequence_length [] = 0
utf8_sequence_length (lead ∷ rest) = if ltb lead 0x80 then 1 else of_class (lead_class lead) rest

abbrev pub digit : ℕ → Bool
digit c = leb b'0' c && leb c b'9'

abbrev pub backslash : ℕ
backslash = 92

-- Whether a text begins with three digits.
abbrev pub three_digits : Bytes → Bool
three_digits (x ∷ y ∷ z ∷ bs) = digit x && (digit y && digit z)
three_digits _ = false

abbrev pub backslash_before_digits : Bytes → Bool
backslash_before_digits [] = false
backslash_before_digits (b ∷ bs) = b == backslash && three_digits bs

unfoldable pub utf8_from : ℕ → Bytes → Bool
utf8_from fuel [] = true
utf8_from zero (b ∷ bs) = false
utf8_from (suc fuel) (b ∷ bs) =
    let len = utf8_sequence_length (b ∷ bs) in
    let rest = utf8_from fuel (drop len (b ∷ bs)) in if len == 0 then false else rest

unfoldable pub is_utf8 : Bytes → Bool
unfolding utf8_from
is_utf8 value = utf8_from (length value) value

unfoldable pub needs_escape_from : ℕ → Bytes → Bool
needs_escape_from fuel [] = false
needs_escape_from zero (b ∷ bs) = true
needs_escape_from (suc fuel) (b ∷ bs) =
    let len = utf8_sequence_length (b ∷ bs) in
    let rest = needs_escape_from fuel (drop len (b ∷ bs)) in
    if len == 0 || backslash_before_digits (b ∷ bs) then true else rest

unfoldable pub label_value_needs_escape : Bytes → Bool
unfolding needs_escape_from
label_value_needs_escape value = needs_escape_from (length value) value

-- `\{:03d}` of a byte
unfoldable pub escaped_byte : ℕ → Bytes
escaped_byte b = backslash ∷ (48 + b / 100) ∷ (48 + b / 10 % 10) ∷ (48 + b % 10) ∷ []

unfoldable pub escape_from : ℕ → Bytes → Bytes
unfolding escaped_byte
escape_from fuel [] = []
escape_from zero (b ∷ bs) = []
escape_from (suc fuel) (b ∷ bs) =
    let len = utf8_sequence_length (b ∷ bs) in
    let next = escape_from fuel bs in
    let past = escape_from fuel (drop len (b ∷ bs)) in
    if backslash_before_digits (b ∷ bs)
    then escaped_byte backslash ++ next
    else if not (len == 0)
    then take len (b ∷ bs) ++ past
    else escaped_byte b ++ next

unfoldable pub utf8_label_value : Bytes → Bytes
unfolding escape_from
utf8_label_value value =
    if label_value_needs_escape value then escape_from (length value) value else value
