-- ===== src/Serializer.antt =====
-- src/PrometheusSerializer.h: the class `PrometheusSerializer`. A text is the list of its bytes.
-- The text that fmt or a stream makes of a value is an argument, and so are the static labels,
-- which a global holds. A map of labels is the list of its entries in the order of their keys.
pub mod Reading
pub mod Labels
pub mod Families
use pktvisor.Prelude.{
  ℕ, zero, suc, ◌≡◌, refl, ap, Bool, true, false, ◌&&◌, not, Option, none, some, List, [], ◌∷◌,
  ◌++◌, if◌then◌else◌, ◌==◌, inl, inr, Bool-cases, arith, Key, find, put, IsUnique,
}
use pktvisor.Metrics.Utf8.{Bytes, label_value_needs_escape, utf8_label_value}

unfoldable pub same_bytes : Bytes → Bytes → Bool
same_bytes [] [] = true
same_bytes [] (y ∷ ys) = false
same_bytes (x ∷ xs) [] = false
same_bytes (x ∷ xs) (y ∷ ys) = x == y && same_bytes xs ys

pub same_bytes_refl : (xs : Bytes) → same_bytes xs xs ≡ true
unfolding same_bytes
same_bytes_refl [] = refl
same_bytes_refl (x ∷ xs) = ground (arith, same_bytes_refl xs)

pub same_bytes_sound : (xs ys : Bytes) → same_bytes xs ys ≡ true → xs ≡ ys
unfolding same_bytes
same_bytes_sound [] [] h = refl
same_bytes_sound [] (y ∷ ys) h = cc
same_bytes_sound (x ∷ xs) [] h = cc
same_bytes_sound (x ∷ xs) (y ∷ ys) h =
    let e : x ≡ y = ground arith in
    let r : same_bytes xs ys ≡ true = ground arith in let es = same_bytes_sound xs ys r in cc

instance abbrev pub bytes_key : Key Bytes
bytes_key = record { same = same_bytes; same_refl = same_bytes_refl; same_sound = same_bytes_sound }

pub data MetricType : Type 0 where
  gauge counter histogram summary : MetricType

abbrev pub LabelMap : Type 0
LabelMap = List (Bytes × Bytes)

pub record Family : Type 0 where
  pub type : MetricType
  pub help : Bytes
  pub body : Bytes

pub record PrometheusSerializer : Type 0 where
  pub order : List Bytes
  pub families : List (Bytes × Family)

abbrev pub newline : ℕ
newline = 10

abbrev pub quote : ℕ
quote = 34

abbrev pub backslash : ℕ
backslash = 92

-- "\n", as a backslash and a letter
abbrev pub letter_n : ℕ
letter_n = 110

unfoldable pub escape_byte : ℕ → Bytes
escape_byte c =
    if c == backslash
    then backslash ∷ backslash ∷ []
    else if c == quote
    then backslash ∷ quote ∷ []
    else if c == newline
    then backslash ∷ letter_n ∷ []
    else c ∷ []

unfoldable pub escape_all : Bytes → Bytes
unfolding escape_byte
escape_all [] = []
escape_all (c ∷ cs) = escape_byte c ++ escape_all cs

-- The text that `append_escaped` escapes.
abbrev pub rendered : Bytes → Bytes
rendered v = if label_value_needs_escape v then utf8_label_value v else v

unfoldable pub append_escaped : Bytes → Bytes → Bytes
unfolding escape_all
append_escaped out v = out ++ escape_all (rendered v)

unfoldable pub help_byte : ℕ → Bytes
help_byte c =
    if c == backslash
    then backslash ∷ backslash ∷ []
    else if c == newline
    then backslash ∷ letter_n ∷ []
    else c ∷ []

unfoldable pub escape_help : Bytes → Bytes
unfolding help_byte
escape_help [] = []
escape_help (c ∷ cs) = help_byte c ++ escape_help cs

unfoldable pub append_help_escaped : Bytes → Bytes → Bytes
unfolding escape_help
append_help_escaped out v = out ++ escape_help v

-- `append_one`: the name, `="`, the value and `",`
unfoldable pub append_one : Bytes → Bytes → Bytes → Bytes
unfolding append_escaped
append_one line k v = append_escaped (line ++ k ++ (b'=' ∷ quote ∷ [])) v ++ (quote ∷ b',' ∷ [])

unfoldable pub append_each : Bytes → LabelMap → Bytes
unfolding append_one
append_each line [] = line
append_each line ((k, v) ∷ ls) = append_each (append_one line k v) ls

-- The static labels whose name no label of the call has.
unfoldable pub not_given : LabelMap → LabelMap → LabelMap
not_given labels [] = []
not_given labels ((k, v) ∷ statics) =
    let rest = not_given labels statics in
    elim (find k labels) [ none ↦ (k, v) ∷ rest | some w ↦ rest ]

abbrev pub is_empty : {A : Type 0} → List A → Bool
is_empty [] = true
is_empty (x ∷ xs) = false

-- `pop_back`
unfoldable pub pop_last : Bytes → Bytes
pop_last [] = []
pop_last (b ∷ []) = []
pop_last (b ∷ c ∷ cs) = b ∷ pop_last (c ∷ cs)

unfoldable pub append_labels : LabelMap → Bytes → LabelMap → Bytes
unfolding append_each not_given pop_last
append_labels statics line labels =
    let own = not_given labels statics in
    let each = append_each (append_each (line ++ (b'{' ∷ [])) own) labels in
    (if is_empty own && is_empty labels then each else pop_last each) ++ (b'}' ∷ [])

unfoldable pub append_suffix : Bytes → List Bytes → Bytes
append_suffix line [] = line
append_suffix line (s ∷ ss) = append_suffix (line ++ (b'_' ∷ []) ++ s) ss

pub record Write : Type 0 where
  pub base : Bytes
  pub type : MetricType
  pub help : Bytes
  pub suffix : List Bytes
  pub labels : LabelMap
  pub value : Bytes

-- The line that a write appends to the body of its family.
unfoldable pub append_series : LabelMap → Bytes → Write → Bytes
unfolding append_suffix append_labels
append_series statics body w =
    append_labels statics (append_suffix (body ++ w.base) w.suffix) w.labels
    ++ (b' ' ∷ [])
    ++ w.value
    ++ newline ∷ []

unfoldable pub write : LabelMap → PrometheusSerializer → Write → PrometheusSerializer
unfolding append_series
write statics ser w = elim (find w.base ser.families) [
  | none ↦ record {
    order = ser.order ++ w.base ∷ [];
    families =
        put w.base (record { type = w.type; help = w.help; body = append_series statics [] w })
          ser.families;
  }
  | some fam ↦ record ser {
    families =
        put w.base
          (record {
            type = fam.type;
            help = if is_empty fam.help && not (is_empty w.help) then w.help else fam.help;
            body = append_series statics fam.body w;
          })
          ser.families;
  }
]

abbrev pub new_serializer : PrometheusSerializer
new_serializer = record { order = []; families = [] }

unfoldable pub type_str : MetricType → Bytes
type_str counter = (b'c' ∷ b'o' ∷ b'u' ∷ b'n' ∷ b't' ∷ b'e' ∷ b'r' ∷ [])
type_str histogram = (b'h' ∷ b'i' ∷ b's' ∷ b't' ∷ b'o' ∷ b'g' ∷ b'r' ∷ b'a' ∷ b'm' ∷ [])
type_str summary = (b's' ∷ b'u' ∷ b'm' ∷ b'm' ∷ b'a' ∷ b'r' ∷ b'y' ∷ [])
type_str gauge = (b'g' ∷ b'a' ∷ b'u' ∷ b'g' ∷ b'e' ∷ [])

-- One round of the loop of `finalize`.
unfoldable pub append_family : Bytes → Bytes → Family → Bytes
unfolding append_help_escaped type_str
append_family out base fam =
    append_help_escaped
      (out ++ (b'#' ∷ b' ' ∷ b'H' ∷ b'E' ∷ b'L' ∷ b'P' ∷ b' ' ∷ []) ++ base ++ (b' ' ∷ [])) fam.help
    ++ newline ∷ (b'#' ∷ b' ' ∷ b'T' ∷ b'Y' ∷ b'P' ∷ b'E' ∷ b' ' ∷ [])
    ++ base
    ++ (b' ' ∷ [])
    ++ type_str fam.type
    ++ newline ∷ fam.body

-- `_families.at(base)` throws where the family is missing.
unfoldable pub append_families : List (Bytes × Family) → Bytes → List Bytes → Option Bytes
unfolding append_family
append_families families out [] = some out
append_families families out (base ∷ bases) = elim (find base families) [
  | none ↦ none
  | some fam ↦ append_families families (append_family out base fam) bases
]

unfoldable pub finalize : PrometheusSerializer → Option Bytes
unfolding append_families
finalize ser = append_families ser.families [] ser.order
