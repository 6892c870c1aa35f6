-- ===== src/Ports/Ranges.antt =====
-- Which name `get_service` of src/IpPort.cpp gives, from ranges that do not overlap.
use pktvisor.Prelude.{
  ℕ, suc, ◌≤◌, ◌<◌, ◌≡◌, ◌⊎◌, refl, sym, ap, ◌∙◌, Bool, true, false, ◌&&◌, ◌||◌, List, [], ◌∷◌,
  if◌then◌else◌, ltb, leb, ◌==◌, inl, inr, Bool-cases, arith, All,
}
use pktvisor.Metrics.Utf8.{Bytes}
use pktvisor.Ports.{Numbers, PortData, PortList, insert, lower_bound, entry_name, get_service}

abbrev pub Range : Type 0
Range = ℕ × PortData

abbrev pub has : Range → ℕ → Bool
has (last, d) port = leb d.lower_bound port && leb port last

-- The name of a range that has the port, otherwise its number.
abbrev pub range_name : Numbers → List Range → ℕ → Bytes
range_name numbers [] port = numbers.to_string port
range_name numbers (r ∷ rs) port = if has r port then r.1.name else range_name numbers rs port

-- Every range begins at `low` or later, ends where it begins or later, and before the next.
abbrev pub IsTable : ℕ → PortList → Type 0
IsTable low [] = Unit
IsTable low ((last, d) ∷ rs) =
    (low ≤ d.lower_bound) × (d.lower_bound ≤ last) × IsTable (suc last) rs

abbrev pub Apart : Range → Range → Type 0
Apart (last, d) (last', d') = (last < d'.lower_bound) ⊎ (last' < d.lower_bound)

-- The ranges that are inserted, the newest first.
abbrev pub AreApart : List Range → Type 0
AreApart [] = Unit
AreApart ((last, d) ∷ rs) = (d.lower_bound ≤ last) × All (Apart (last, d)) rs × AreApart rs

abbrev pub insert_all : List Range → PortList
insert_all [] = []
insert_all ((last, d) ∷ rs) = insert last d (insert_all rs)

or_true : (b : Bool) → (b || true) ≡ true
or_true true = refl
or_true false = refl

and_false : (b : Bool) → (b && false) ≡ false
and_false true = refl
and_false false = refl

none_before :
    (numbers : Numbers) (low : ℕ) (rs : PortList) (port : ℕ)
    → port < low
    → IsTable low rs
    → range_name numbers rs port ≡ numbers.to_string port
none_before numbers low [] port h t = refl
none_before numbers low ((last, d) ∷ rs) port h t =
    let f : has (last, d) port ≡ false = ground arith in
    rw f (none_before numbers (suc last) rs port (omega arith) t.2)

get_service-IsTable :
    (numbers : Numbers) (low : ℕ) (rs : PortList) (port : ℕ)
    → IsTable low rs
    → get_service numbers rs port ≡ range_name numbers rs port
unfolding get_service lower_bound entry_name
get_service-IsTable numbers low [] port t = refl
get_service-IsTable numbers low ((last, d) ∷ rs) port t = elim (Bool-cases (leb port last)) [
  | inl here ↦ elim (Bool-cases (leb d.lower_bound port)) [
    | inl inside ↦ rw (here, inside) (rw (or_true (last == port)) refl)
    | inr outside ↦
        let f : (last == port) ≡ false = ground arith in
        rw (here, outside) (rw f (sym (none_before numbers (suc last) rs port (ground arith) t.2)))
  ]
  | inr later ↦
      rw later (
        rw (and_false (leb d.lower_bound port))
          (get_service-IsTable numbers (suc last) rs port t.2))
]

IsTable-mono : (low low' : ℕ) (rs : PortList) → low' ≤ low → IsTable low rs → IsTable low' rs
IsTable-mono low low' [] h t = tt
IsTable-mono low low' (r ∷ rs) h t = (omega arith, t.1, t.2)

-- A range apart from every range of the table is inserted between them, and keeps it a table.
insert-IsTable :
    (low last : ℕ) (d : PortData) (rs : PortList)
    → low ≤ d.lower_bound
    → d.lower_bound ≤ last
    → All (Apart (last, d)) rs
    → IsTable low rs
    → IsTable low (insert last d rs)
unfolding insert
insert-IsTable low last d [] l r a t = (l, r, tt)
insert-IsTable low last d ((k, e) ∷ rs) l r a t = elim (Bool-cases (ltb last k)) [
  | inl less ↦ rw less (l, r, (elim a.0 [ inl h ↦ h | inr h ↦ absurd (ground arith) ], t.1, t.2))
  | inr more ↦
      let f : (last == k) ≡ false = elim a.0 [ inl h ↦ ground arith | inr h ↦ ground arith ] in
      rw more (
        rw f (
          t.0,
          t.1,
          insert-IsTable (suc k) last d rs (elim a.0 [ inl h ↦ absurd (ground arith) | inr h ↦ h ])
              r a.1 t.2,
        ))
]

swap :
    (b c : Bool) (x y z : Bytes)
    → (b && c) ≡ false
    → (if b then x else if c then y else z) ≡ (if c then y else if b then x else z)
swap true true x y z h = cc
swap true false x y z h = refl
swap false c x y z h = refl

Apart-ports : (r q : Range) (port : ℕ) → Apart q r → (has r port && has q port) ≡ false
Apart-ports (k, e) (last, d) port h = elim h [ inl l ↦ ground arith | inr l ↦ ground arith ]

range_name-insert :
    (numbers : Numbers) (low last : ℕ) (d : PortData) (rs : PortList) (port : ℕ)
    → d.lower_bound ≤ last
    → All (Apart (last, d)) rs
    → IsTable low rs
    → range_name numbers (insert last d rs) port ≡ range_name numbers ((last, d) ∷ rs) port
unfolding insert
range_name-insert numbers low last d [] port r a t = refl
range_name-insert numbers low last d ((k, e) ∷ rs) port r a t = elim (Bool-cases (ltb last k)) [
  | inl less ↦ rw less refl
  | inr more ↦
      let f : (last == k) ≡ false = elim a.0 [ inl h ↦ ground arith | inr h ↦ ground arith ] in
      rw more (
        rw f (
          ap (λ n. if has (k, e) port then e.name else n)
            (range_name-insert numbers (suc k) last d rs port r a.1 t.2)
          ∙ swap (has (k, e) port) (has (last, d) port) _ _ _
              (Apart-ports (k, e) (last, d) port a.0)))
]

insert-All :
    (q : Range) (last : ℕ) (d : PortData) (rs : PortList)
    → Apart q (last, d)
    → All (Apart q) rs
    → All (Apart q) (insert last d rs)
unfolding insert
insert-All q last d [] h a = (h, tt)
insert-All q last d ((k, e) ∷ rs) h a = elim (Bool-cases (ltb last k)) [
  | inl less ↦ rw less (h, a)
  | inr more ↦ elim (Bool-cases (last == k)) [
    | inl found ↦ rw more (rw found a)
    | inr new ↦ rw more (rw new (a.0, insert-All q last d rs h a.1))
  ]
]

insert_all-All : (q : Range) (rs : List Range) → All (Apart q) rs → All (Apart q) (insert_all rs)
insert_all-All q [] a = tt
insert_all-All q ((last, d) ∷ rs) a =
    insert-All q last d (insert_all rs) a.0 (insert_all-All q rs a.1)

insert_all-IsTable : (rs : List Range) → AreApart rs → IsTable 0 (insert_all rs)
insert_all-IsTable [] a = tt
insert_all-IsTable ((last, d) ∷ rs) a =
    insert-IsTable 0 last d (insert_all rs) (omega arith) a.0 (insert_all-All (last, d) rs a.1)
      (insert_all-IsTable rs a.2)

range_name-insert_all :
    (numbers : Numbers) (rs : List Range) (port : ℕ)
    → AreApart rs
    → range_name numbers (insert_all rs) port ≡ range_name numbers rs port
range_name-insert_all numbers [] port a = refl
range_name-insert_all numbers ((last, d) ∷ rs) port a =
    range_name-insert numbers 0 last d (insert_all rs) port a.0 (insert_all-All (last, d) rs a.1)
      (insert_all-IsTable rs a.2)
    ∙ ap (λ n. if has (last, d) port then d.name else n) (range_name-insert_all numbers rs port a.2)

-- Of ranges that do not overlap, inserted in any order, a port gets the name of the range that has
-- it, and its own number where none has: the search for the first range that ends at the port or
-- later finds the right one.
pub get_service-insert_all :
    (numbers : Numbers) (rs : List Range) (port : ℕ)
    → AreApart rs
    → get_service numbers (insert_all rs) port ≡ range_name numbers rs port
get_service-insert_all numbers rs port a =
    get_service-IsTable numbers 0 (insert_all rs) port (insert_all-IsTable rs a)
    ∙ range_name-insert_all numbers rs port a
