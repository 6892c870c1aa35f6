-- ===== src/Config/Hash/Order.antt =====
-- The order of the entries of a configuration does not change its hash.
use mathlib.Core.List.{foldr, Perm}
use mathlib.Core.List.Perm
use pktvisor.Prelude.{
  ◌≡◌, refl, sym, ap, ◌∙◌, true, false, List, [], ◌∷◌, ◌++◌, inl, inr, Bool-cases, arith, map,
}
use pktvisor.Metrics.Utf8.{Bytes}
use pktvisor.Config.{Value, Config, to_fields}
use pktvisor.Config.Hash.{
  Texts, bytes_leb, insert, sort, concat, value_text, key_values, config_hash,
}

bytes_leb_total : (xs ys : Bytes) → bytes_leb xs ys ≡ false → bytes_leb ys xs ≡ true
unfolding bytes_leb
bytes_leb_total [] ys h = cc
bytes_leb_total (x ∷ xs) [] h = refl
bytes_leb_total (x ∷ xs) (y ∷ ys) h = ground (arith, bytes_leb_total xs ys)

bytes_leb_antisym : (xs ys : Bytes) → bytes_leb xs ys ≡ true → bytes_leb ys xs ≡ true → xs ≡ ys
unfolding bytes_leb
bytes_leb_antisym [] [] h g = refl
bytes_leb_antisym [] (y ∷ ys) h g = cc
bytes_leb_antisym (x ∷ xs) [] h g = cc
bytes_leb_antisym (x ∷ xs) (y ∷ ys) h g =
    let e : x ≡ y = ground arith in
    let es : xs ≡ ys = bytes_leb_antisym xs ys (ground arith) (ground arith) in cc

bytes_leb_trans :
    (xs ys zs : Bytes) → bytes_leb xs ys ≡ true → bytes_leb ys zs ≡ true → bytes_leb xs zs ≡ true
unfolding bytes_leb
bytes_leb_trans [] ys zs h g = refl
bytes_leb_trans (x ∷ xs) [] zs h g = cc
bytes_leb_trans (x ∷ xs) (y ∷ ys) [] h g = cc
bytes_leb_trans (x ∷ xs) (y ∷ ys) (z ∷ zs) h g = ground (arith, bytes_leb_trans xs ys zs)

insert_le : (s t : Bytes) (ts : List Bytes) → bytes_leb s t ≡ true → insert s (t ∷ ts) ≡ s ∷ t ∷ ts
unfolding insert
insert_le s t ts h = rw (h, insert) refl

insert_gt :
    (s t : Bytes) (ts : List Bytes) → bytes_leb s t ≡ false → insert s (t ∷ ts) ≡ t ∷ insert s ts
unfolding insert
insert_gt s t ts h = rw (h, insert) refl

-- Both orders of two that come before the rest.
insert_front :
    (a b : Bytes) (ts : List Bytes)
    → (insert a ts ≡ a ∷ ts)
    → (insert b ts ≡ b ∷ ts)
    → insert a (b ∷ ts) ≡ insert b (a ∷ ts)
insert_front a b ts ha hb = elim (Bool-cases (bytes_leb a b)) [
  | inr f ↦ insert_gt a b ts f ∙ ap (λ l. b ∷ l) ha ∙ sym (insert_le b a ts (bytes_leb_total a b f))
  | inl t ↦ elim (Bool-cases (bytes_leb b a)) [
    | inr f ↦ insert_le a b ts t ∙ sym (insert_gt b a ts f ∙ ap (λ l. a ∷ l) hb)
    | inl u ↦
        let e = bytes_leb_antisym a b t u in
        insert_le a b ts t ∙ (let r : a ∷ b ∷ ts ≡ b ∷ a ∷ ts = cc in r) ∙ sym (insert_le b a ts u)
  ]
]

-- One that comes before an element and one that comes after it.
insert_apart :
    (a b t : Bytes) (ts : List Bytes)
    → bytes_leb a t ≡ true
    → bytes_leb b t ≡ false
    → insert a (insert b (t ∷ ts)) ≡ insert b (insert a (t ∷ ts))
insert_apart a b t ts ha hb =
    ap (insert a) (insert_gt b t ts hb)
    ∙ insert_le a t (insert b ts) ha
    ∙ sym (
        ap (insert b) (insert_le a t ts ha)
        ∙ insert_gt b a (t ∷ ts) after
        ∙ ap (λ l. a ∷ l) (insert_gt b t ts hb))
  where
    after : bytes_leb b a ≡ false
    after = elim (Bool-cases (bytes_leb b a)) [
      | inr f ↦ f
      | inl u ↦ absurd (cc (bytes_leb_trans b a t u ha, hb))
    ]

insert_comm : (a b : Bytes) (ts : List Bytes) → insert a (insert b ts) ≡ insert b (insert a ts)
unfolding insert
insert_comm a b [] = insert_front a b [] refl refl
insert_comm a b (t ∷ ts) = elim (Bool-cases (bytes_leb a t)) [
  | inl ta ↦ elim (Bool-cases (bytes_leb b t)) [
    | inl tb ↦
        let ha = insert_le a t ts ta in
        let hb = insert_le b t ts tb in
        ap (insert a) hb ∙ insert_front a b (t ∷ ts) ha hb ∙ sym (ap (insert b) ha)
    | inr fb ↦ insert_apart a b t ts ta fb
  ]
  | inr fa ↦ elim (Bool-cases (bytes_leb b t)) [
    | inl tb ↦ sym (insert_apart b a t ts tb fa)
    | inr fb ↦
        ap (insert a) (insert_gt b t ts fb)
        ∙ insert_gt a t (insert b ts) fa
        ∙ ap (λ l. t ∷ l) (insert_comm a b ts)
        ∙ sym (ap (insert b) (insert_gt a t ts fa) ∙ insert_gt b t (insert a ts) fb)
  ]
]

sort-foldr : (ss : List Bytes) → sort ss ≡ foldr insert [] ss
unfolding sort
sort-foldr [] = refl
sort-foldr (s ∷ ss) = ap (insert s) (sort-foldr ss)

pub sort_Perm : {ss ts : List Bytes} → Perm ss ts → sort ss ≡ sort ts
sort_Perm {ss} {ts} p =
    sort-foldr ss
    ∙ Perm.foldr-eq {A = Bytes} {B = List Bytes} (hlevel) insert insert_comm p []
    ∙ sym (sort-foldr ts)

key_values-map :
    (texts : Texts) (config : Config)
    → key_values texts (to_fields config)
      ≡ map (λ (e : Bytes × Value). e.0 ++ value_text texts e.1) config
unfolding key_values
key_values-map texts [] = refl
key_values-map texts ((key, value) ∷ config) =
    ap (λ l. (key ++ value_text texts value) ∷ l) (key_values-map texts config)

-- The hash of a configuration does not depend on the order in which the hash map gives its entries.
pub config_hash_Perm :
    (texts : Texts) (config other : Config)
    → Perm config other
    → config_hash texts config ≡ config_hash texts other
unfolding config_hash
config_hash_Perm texts config other p =
    ap (λ l. texts.hash (concat l))
      (ap sort (key_values-map texts config)
        ∙ sort_Perm (Perm.map (λ (e : Bytes × Value). e.0 ++ value_text texts e.1) p)
        ∙ sym (ap sort (key_values-map texts other)))
