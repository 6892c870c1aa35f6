-- ===== src/Ports.antt =====
-- src/IpPort.cpp: the names of the ports. A `std::map` from the last port of a range to its data
-- is the list of its entries in the order of their keys. The CSV reader, a library, is the list of
-- the lines it reads, some of which it rejects; `std::stoul` and `std::to_string` are parameters.
pub mod Ranges
use pktvisor.Prelude.{
  ℕ, zero, suc, ◌%◌, Bool, true, false, ◌&&◌, ◌||◌, not, Option, none, some, List, [], ◌∷◌,
  if◌then◌else◌, ltb, leb, ◌==◌,
}
use pktvisor.Metrics.Utf8.{Bytes}

-- `std::stoul`, which can throw, and `std::to_string`
pub record Numbers : Type 0 where
  pub stoul : Bytes → Option ℕ
  pub to_string : ℕ → Bytes

-- `PortData`, and the entries by the last port
pub record PortData : Type 0 where
  pub name : Bytes
  pub lower_bound : ℕ

abbrev pub PortList : Type 0
PortList = List (ℕ × PortData)

-- `std::map::insert`, which keeps an entry that is there.
unfoldable pub insert : ℕ → PortData → PortList → PortList
insert last datum [] = (last, datum) ∷ []
insert last datum ((k, d) ∷ entries) =
    let rest = insert last datum entries in
    if ltb last k
    then (last, datum) ∷ (k, d) ∷ entries
    else if last == k
    then (k, d) ∷ entries
    else (k, d) ∷ rest

-- `std::map::lower_bound`
unfoldable pub lower_bound : ℕ → PortList → Option (ℕ × PortData)
lower_bound port [] = none
lower_bound port ((k, d) ∷ entries) = if leb port k then some (k, d) else lower_bound port entries

-- The part of `get_service` after the search.
unfoldable pub entry_name : Numbers → ℕ → Option (ℕ × PortData) → Bytes
entry_name numbers port none = numbers.to_string port
entry_name numbers port (some (k, d)) =
    if k == port || leb d.lower_bound port then d.name else numbers.to_string port

unfoldable pub get_service : Numbers → PortList → ℕ → Bytes
unfolding entry_name lower_bound
get_service numbers entries port = entry_name numbers port (lower_bound port entries)

pub record PortLists : Type 0 where
  pub tcp : PortList
  pub udp : PortList

-- `Protocol`
pub data Protocol : Type 0 where
  over_tcp over_udp : Protocol

-- The static `get_service`, with the tables that it reads.
unfoldable pub service_of : Numbers → PortLists → ℕ → Protocol → Bytes
unfolding get_service
service_of numbers lists port over_tcp = get_service numbers lists.tcp port
service_of numbers lists port over_udp = get_service numbers lists.udp port

pub record IpPort : Type 0 where
  pub port : ℕ
  pub proto : Protocol

-- The method `get_service`.
unfoldable pub get_own_service : Numbers → PortLists → IpPort → Bytes
unfolding get_service
get_own_service numbers lists p =
    get_service numbers (elim p.proto [ over_tcp ↦ lists.tcp | over_udp ↦ lists.udp ]) p.port

-- A line that the reader rejects, or its three columns.
pub data Line : Type 0 where
  rejected : Line
  row : Bytes → Bytes → Bool → Bool → Line

-- What a row stands for: nothing, an exception, or an entry.
pub data RowResult : Type 0 where
  skipped thrown : RowResult
  entry : ℕ → PortData → RowResult

-- `ports.find('-')`, with the texts before and behind it
abbrev pub before_dash : ℕ → Option (Bytes × Bytes) → Option (Bytes × Bytes)
before_dash c none = none
before_dash c (some (first, last)) = some (c ∷ first, last)

unfoldable pub split_dash : Bytes → Option (Bytes × Bytes)
split_dash [] = none
split_dash (c ∷ cs) =
    let rest = split_dash cs in if c == b'-' then some ([], cs) else before_dash c rest

abbrev pub is_empty : Bytes → Bool
is_empty [] = true
is_empty (c ∷ cs) = false

-- `static_cast<uint16_t>` of both ends of a range.
abbrev pub range_entry : Bytes → Option ℕ → Option ℕ → RowResult
range_entry service (some first) (some last) =
    entry (last % 65536) (record { name = service; lower_bound = first % 65536 })
range_entry service _ _ = thrown

unfoldable pub ports_entry : Numbers → Bytes → Bytes → RowResult
unfolding split_dash
ports_entry numbers service ports = elim (split_dash ports) [
  | some (first, last) ↦ range_entry service (numbers.stoul first) (numbers.stoul last)
  | none ↦ range_entry service (numbers.stoul ports) (numbers.stoul ports)
]

unfoldable pub read_line : Numbers → Line → RowResult
unfolding ports_entry
read_line numbers rejected = thrown
read_line numbers (row service ports is_tcp is_udp) =
    if is_empty service || is_empty ports || not (is_tcp || is_udp)
    then skipped
    else ports_entry numbers service ports

unfoldable pub add_entry : Line → ℕ → PortData → PortLists → PortLists
add_entry rejected last datum lists = lists
add_entry (row service ports is_tcp is_udp) last datum lists =
    if is_tcp
    then record lists { tcp = insert last datum lists.tcp }
    else record lists { udp = insert last datum lists.udp }

-- The loops of `set_csv_iana_ports`. After an exception the reader moves on by one line more,
-- which nothing reads: `skip`.
unfoldable pub read_lines : Numbers → Bool → PortLists → List Line → PortLists
unfolding read_line add_entry
read_lines numbers skip lists [] = lists
read_lines numbers true lists (l ∷ ls) = read_lines numbers false lists ls
read_lines numbers false lists (l ∷ ls) = elim (read_line numbers l) [
  | skipped ↦ read_lines numbers false lists ls
  | thrown ↦ read_lines numbers true lists ls
  | entry last datum ↦ read_lines numbers false (add_entry l last datum lists) ls
]
