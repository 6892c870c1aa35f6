-- ===== src/Tests/Texts.antt =====
-- The theorems on names and on the exposition format, at short texts.
use pktvisor.Prelude.{◌≡◌, refl, some, List, [], ◌∷◌, ◌++◌, suc, length, arith, find, IsUnique}
use pktvisor.Metrics.Utf8.{Bytes}
use pktvisor.Serializer.{
  same_bytes, LabelMap, Write, gauge, counter, new_serializer, append_labels, bytes_key,
}
use pktvisor.Serializer.Labels.{or_static, read_set-append_labels}
use pktvisor.Serializer.Reading.{read_set, all_rendered}
use pktvisor.Serializer.Families.{write_all, of_base, summary, find-write_all_new}
use pktvisor.Domains.{dot, aggregate_domain}
use pktvisor.Domains.Aggregate.{aggregate_domain-labels, aggregate_domain-whole}

-- Two static labels, and two labels of a call, the first under the name of a static one and with
-- a quote and a byte that is no text.
abbrev statics : LabelMap
statics = (b'a' ∷ [], b'x' ∷ []) ∷ (b'b' ∷ [], b'y' ∷ []) ∷ []

abbrev labels : LabelMap
labels = (b'a' ∷ [], 34 ∷ 255 ∷ []) ∷ []

read_set-append_labels_example :
    (ls : LabelMap) × (text : Bytes) × (append_labels statics (b'm' ∷ []) labels ++ b' ' ∷ []
      ≡ b'm' ∷ [] ++ text)
    × (read_set (suc (length ls)) text ≡ some (all_rendered ls, b' ' ∷ []))
    × IsUnique ls
    × ((k : Bytes) → find k ls ≡ or_static (find k labels) (find k statics))
unfolding find same_bytes
read_set-append_labels_example =
    read_set-append_labels statics (b'm' ∷ []) labels (b' ' ∷ []) (refl, (refl, tt)) (refl, tt)
      (((refl, refl), tt), (((refl, refl), tt), tt)) (((refl, refl), tt), tt)

abbrev first_write : Write
first_write = record {
  base = b'm' ∷ [];
  type = counter;
  help = [];
  suffix = [];
  labels = labels;
  value = b'1' ∷ [];
}

abbrev writes : List Write
writes =
    first_write
    ∷ record first_write { base = b'n' ∷ [] }
    ∷ record first_write { help = b'h' ∷ []; type = gauge }
    ∷ []

find-write_all_new_example :
    find (b'm' ∷ []) (write_all statics new_serializer writes).families
    ≡ summary statics (of_base (b'm' ∷ []) writes)
find-write_all_new_example = find-write_all_new statics writes (b'm' ∷ [])

abbrev letter : Bytes
letter = b'a' ∷ []

aggregate_domain-labels_example :
    aggregate_domain (((letter ++ dot ∷ letter) ++ dot ∷ letter) ++ dot ∷ b'u' ∷ b'k' ∷ []) 3 ≡ (
      dot ∷ letter ++ dot ∷ b'u' ∷ b'k' ∷ [],
      dot ∷ letter ++ (dot ∷ letter ++ dot ∷ b'u' ∷ b'k' ∷ []),
    )
aggregate_domain-labels_example =
    aggregate_domain-labels letter letter letter (b'u' ∷ b'k' ∷ []) (refl, tt) (refl, tt)
      (ground arith)

aggregate_domain-whole_example :
    aggregate_domain ((letter ++ dot ∷ letter) ++ dot ∷ b'u' ∷ b'k' ∷ []) 3
    ≡ (dot ∷ letter ++ dot ∷ b'u' ∷ b'k' ∷ [], (letter ++ dot ∷ letter) ++ dot ∷ b'u' ∷ b'k' ∷ [])
aggregate_domain-whole_example =
    aggregate_domain-whole letter letter (b'u' ∷ b'k' ∷ []) (refl, tt) (refl, tt) (ground arith)
