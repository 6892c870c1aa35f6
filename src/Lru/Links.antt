-- ===== src/Lru/Links.antt =====
-- The list and the map of src/VisorLRUList.h agree.
use pktvisor.Prelude.{
  ℕ, suc, ◌+◌, ◌<◌, ◌≡◌, refl, sym, ap, ◌∙◌, subst, true, false, inl, inr, Bool-cases, Option, none,
  some, List, [], ◌∷◌, length, arith, All, All-map, ◌==◌, Key, find, erase, put, IsUnique, nat_key,
  nat_sound, find-erase_same, find-erase_other, find-put_same, find-put_other, erase-IsUnique,
  put-IsUnique, erase_absent, length-erase, erase-All,
}
use pktvisor.Lru.{LruList, push}

module _ {T : Type 0} ⦃key : Key T⦄ where
  pub same_address :
      (k j : T) (a b : ℕ) (index : List (T × ℕ))
      → key.same k j ≡ true
      → find k index ≡ some a
      → find j index ≡ some b
      → a ≡ b
  same_address k j a b index t h v =
      let e : some a ≡ some b = sym h ∙ ap (λ i. find i index) (key.same_sound k j t) ∙ v in cc

module _ {T V : Type 0} ⦃key : Key T⦄ where
  abbrev pub Linked : List (T × ℕ) → ℕ × (T × V) → Type 0
  Linked index (a, (k, v)) = find k index ≡ some a

  -- Each node is the one that the map has for its key; each key of the map has its node; addresses
  -- are distinct and used up in order.
  pub record IsLinked (l : LruList T V) : Type 0 where
    pub linked : All (Linked l.index) l.items
    pub held : (k : T) (a : ℕ) → find k l.index ≡ some a → (v : V) × (find a l.items ≡ some (k, v))
    pub unique : IsUnique l.items
    pub below : All (λ (e : ℕ × (T × V)). e.0 < l.fresh) l.items
    pub indexed : IsUnique l.index
    pub sizes : length l.index ≡ length l.items

  -- Of nodes that the map links, only the one at `a` has the key that the map has at `a`.
  erase-others :
      (k : T) (a : ℕ) (index : List (T × ℕ)) (items : List (ℕ × (T × V)))
      → find k index ≡ some a
      → All (Linked index) items
      → All (λ (e : ℕ × (T × V)). key.same k e.1.0 ≡ false) (erase a items)
  unfolding erase
  erase-others k a index [] h v = tt
  erase-others k a index ((b, (j, w)) ∷ items) h v = elim (Bool-cases (b == a)) [
    | inl t ↦ rw (t, erase) (erase-others k a index items h v.1)
    | inr f ↦ elim (Bool-cases (key.same k j)) [
      | inl t ↦
          let e = same_address k j a b index t h v.0 in
          let r : (b == a) ≡ true = ground arith in absurd (cc (r, f))
      | inr g ↦ rw (f, erase) (g, erase-others k a index items h v.1)
    ]
  ]

  absent-others :
      (k : T) (index : List (T × ℕ)) (items : List (ℕ × (T × V)))
      → find k index ≡ none
      → All (Linked index) items
      → All (λ (e : ℕ × (T × V)). key.same k e.1.0 ≡ false) items
  absent-others k index [] h v = tt
  absent-others k index ((b, (j, w)) ∷ items) h v = elim (Bool-cases (key.same k j)) [
    | inl t ↦ absurd (cc (h, subst (λ i. find i index ≡ some b) (sym (key.same_sound k j t)) v.0))
    | inr g ↦ (g, absent-others k index items h v.1)
  ]

  -- What the map has for other keys than `k` is left, whether `k` is put or erased.
  relink :
      (k : T) (index index' : List (T × ℕ)) (items : List (ℕ × (T × V)))
      → ((j : T) → key.same k j ≡ false → find j index' ≡ find j index)
      → All (λ (e : ℕ × (T × V)). key.same k e.1.0 ≡ false) items
      → All (Linked index) items
      → All (Linked index') items
  relink k index index' [] keeps o v = tt
  relink k index index' ((b, (j, w)) ∷ items) keeps o v =
      (keeps j o.0 ∙ v.0, relink k index index' items keeps o.1 v.1)

  fresh_absent :
      (n : ℕ) (items : List (ℕ × (T × V)))
      → All (λ (e : ℕ × (T × V)). e.0 < n) items
      → find n items ≡ none
  unfolding find
  fresh_absent n [] h = refl
  fresh_absent n ((b, x) ∷ items) h =
      let f : (b == n) ≡ false = ground arith in rw f (fresh_absent n items h.1)

  pub fresh_other :
      (n b : ℕ) (x : T × V) (items : List (ℕ × (T × V)))
      → All (λ (e : ℕ × (T × V)). e.0 < n) items
      → find b items ≡ some x
      → (n == b) ≡ false
  fresh_other n b x items h p = elim (Bool-cases (n == b)) [
    | inr f ↦ f
    | inl t ↦
        absurd (cc (p, subst (λ i. find i items ≡ none) (nat_sound n b t) (fresh_absent n items h)))
  ]

  pub erase-fresh :
      (n a : ℕ) (x : T × V) (items : List (ℕ × (T × V)))
      → (n == a) ≡ false
      → erase a ((n, x) ∷ items) ≡ (n, x) ∷ erase a items
  unfolding erase
  erase-fresh n a x items f = rw f refl

  -- Another key has another address.
  other_address :
      (l : LruList T V) (k j : T) (a b : ℕ)
      → IsLinked l
      → key.same k j ≡ false
      → find k l.index ≡ some a
      → find j l.index ≡ some b
      → (a == b) ≡ false
  other_address l k j a b v f h g = elim (Bool-cases (a == b)) [
    | inr n ↦ n
    | inl t ↦
        let (x, p) = v.held k a h in
        let (y, q) = v.held j b g in
        let e : a ≡ b = nat_sound a b t in
        let r : some (k, x) ≡ some (j, y) = sym p ∙ ap (λ i. find i l.items) e ∙ q in
        let m : k ≡ j = cc in absurd (cc (f, subst (λ i. key.same k i ≡ true) m (key.same_refl k)))
  ]

  pub remove-IsLinked :
      (l : LruList T V) (k : T) (a : ℕ)
      → find k l.index ≡ some a
      → IsLinked l
      → IsLinked (record l { items = erase a l.items; index = erase k l.index })
  remove-IsLinked l k a h v = record {
    linked =
        relink k l.index (erase k l.index) (erase a l.items) (λ j f. find-erase_other k j l.index f)
          (erase-others k a l.index l.items h v.linked)
          (erase-All (Linked l.index) a l.items v.linked);
    held = λ j b g. elim (Bool-cases (key.same k j)) [
      | inl t ↦ absurd (
          cc (
            g,
            subst (λ i. find i (erase k l.index) ≡ none) (key.same_sound k j t)
                (find-erase_same k l.index),
          ))
      | inr f ↦
          let g' = sym (find-erase_other k j l.index f) ∙ g in
          let (w, p) = v.held j b g' in
          (w, find-erase_other a b l.items (other_address l k j a b v f h g') ∙ p)
    ];
    unique = erase-IsUnique a l.items v.unique;
    below = erase-All (λ (e : ℕ × (T × V)). e.0 < l.fresh) a l.items v.below;
    indexed = erase-IsUnique k l.index v.indexed;
    sizes =
        let p = length-erase k a l.index v.indexed h in
        let (x, g) = v.held k a h in
        let q = length-erase a (k, x) l.items v.unique g in omega (arith, p, q, v.sizes);
  }

  -- A new node in front, when no node left has its key.
  add-IsLinked :
      (l : LruList T V) (k : T) (w : V) (items : List (ℕ × (T × V)))
      → IsLinked l
      → All (λ (e : ℕ × (T × V)). key.same k e.1.0 ≡ false) items
      → All (Linked l.index) items
      → IsUnique items
      → All (λ (e : ℕ × (T × V)). e.0 < l.fresh) items
      → ((j : T) (b : ℕ)
          → key.same k j ≡ false
          → find j l.index ≡ some b
          → find b items ≡ find b l.items)
      → length (erase k l.index) ≡ length items
      → IsLinked (record l {
        items = (l.fresh, (k, w)) ∷ items;
        index = put k l.fresh l.index;
        fresh = l.fresh + 1;
      })
  unfolding put find
  add-IsLinked l k w items v others linked unique below kept sizes = record {
    linked = (
      find-put_same k l.fresh l.index,
      relink k l.index (put k l.fresh l.index) items (λ j f. find-put_other k j l.fresh l.index f)
          others linked,
    );
    held = λ j b g. elim (Bool-cases (key.same k j)) [
      | inl t ↦
          let e = key.same_sound k j t in
          let s : some l.fresh ≡ some b =
            sym (find-put_same k l.fresh l.index)
            ∙ ap (λ i. find i (put k l.fresh l.index)) e
            ∙ g in
          let q : l.fresh ≡ b = cc in
          let r : (l.fresh == b) ≡ true = ground arith in (w, rw r (ap (λ i. some (i, w)) e))
      | inr f ↦
          let g' = sym (find-put_other k j l.fresh l.index f) ∙ g in
          let (x, p) = v.held j b g' in
          let r = fresh_other l.fresh b (j, x) l.items v.below p in (x, rw r (kept j b f g' ∙ p))
    ];
    unique = (fresh_absent l.fresh items below, unique);
    below = (
      omega arith,
      All-map (λ (e : ℕ × (T × V)). e.0 < l.fresh) (λ (e : ℕ × (T × V)). e.0 < l.fresh + 1)
          (λ e h. omega arith) items below,
    );
    indexed = put-IsUnique k l.fresh l.index v.indexed;
    sizes = ap suc sizes;
  }

  -- `push` keeps the links, whether the key is new or not.
  pub push-IsLinked : (l : LruList T V) (k : T) (w : V) → IsLinked l → IsLinked (push l k w)
  unfolding push
  push-IsLinked l k w v = go (find k l.index) refl
    where
      go : (o : Option ℕ) → find k l.index ≡ o → IsLinked (push l k w)
      go none e =
          rw (e, push)
            (add-IsLinked l k w l.items v (absent-others k l.index l.items e v.linked) v.linked
              v.unique v.below (λ j b f g. refl) (ap length (erase_absent k l.index e) ∙ v.sizes))
      go (some a) e =
          rw (e, push)
            (let r = remove-IsLinked l k a e v in
              let (x, p) = v.held k a e in
              let f = fresh_other l.fresh a (k, x) l.items v.below p in
              rw (erase-fresh l.fresh a (k, w) l.items f) (
                add-IsLinked l k w (erase a l.items) v (erase-others k a l.index l.items e v.linked)
                  (erase-All (Linked l.index) a l.items v.linked) r.unique r.below
                  (λ j b f g. find-erase_other a b l.items (other_address l k j a b v f e g))
                  r.sizes))
