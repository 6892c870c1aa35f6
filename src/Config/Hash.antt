-- ===== src/Config/Hash.antt =====
-- `config_hash` of src/Configurable.h.
use pktvisor.Prelude.{ℕ, Bool, true, false, List, [], ◌∷◌, ◌++◌, if◌then◌else◌, ltb}
use pktvisor.Metrics.Utf8.{Bytes}
use pktvisor.Config.{
  Value, text, number, flag, strings, nested, Fields, end, field, Config, to_fields,
}
pub mod Order

-- `std::to_string` of a number, and `std::hash` as its hexadecimal digits.
pub record Texts : Type 0 where
  pub to_string : ℕ → Bytes
  pub hash : Bytes → Bytes

-- The order of `std::string`.
unfoldable pub bytes_leb : Bytes → Bytes → Bool
bytes_leb [] ys = true
bytes_leb (x ∷ xs) [] = false
bytes_leb (x ∷ xs) (y ∷ ys) =
    let rest = bytes_leb xs ys in if ltb x y then true else if ltb y x then false else rest

unfoldable pub insert : Bytes → List Bytes → List Bytes
insert s [] = s ∷ []
insert s (t ∷ ts) = let rest = insert s ts in if bytes_leb s t then s ∷ t ∷ ts else t ∷ rest

-- `std::sort`
unfoldable pub sort : List Bytes → List Bytes
sort [] = []
sort (s ∷ ss) = insert s (sort ss)

abbrev pub concat : List Bytes → Bytes
concat [] = []
concat (s ∷ ss) = s ++ concat ss

-- The text of a value, and those of the entries of a configuration, each after its key.
unfoldable mutual
  pub value_text : Texts → Value → Bytes
  value_text texts (text s) = s
  value_text texts (number n) = texts.to_string n
  value_text texts (flag b) = texts.to_string (if b then 1 else 0)
  value_text texts (strings ss) = concat (sort ss)
  value_text texts (nested fs) = texts.hash (concat (sort (key_values texts fs)))

  pub key_values : Texts → Fields → List Bytes
  key_values texts end = []
  key_values texts (field key value fs) = (key ++ value_text texts value) ∷ key_values texts fs

unfoldable pub config_hash : Texts → Config → Bytes
config_hash texts config = texts.hash (concat (sort (key_values texts (to_fields config))))
