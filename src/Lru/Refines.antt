-- ===== src/Lru/Refines.antt =====
-- The class `LRUList` of src/VisorLRUList.h implements a list of entries, the latest put first.
use pktvisor.Prelude.{
  ℕ, suc, ◌≡◌, refl, sym, ap, Bool, ◌∙◌, subst, true, false, ◌&&◌, inl, inr, Bool-cases, Option,
  none, some, List, [], ◌∷◌, map, length, arith, All, ◌==◌, ltb, if◌then◌else◌, Key, find, erase,
  IsUnique, nat_key, nat_sound, erase_absent,
}
use pktvisor.Window.Manager.{pop_back}
use pktvisor.Lru.{LruList, push, evicted, evict, put_element, get_value, erase_element, new_list}
use pktvisor.Lru.Links.{
  fresh_other, erase-fresh, Linked, IsLinked, remove-IsLinked, push-IsLinked, same_address,
}

module _ {T V : Type 0} where
  abbrev pub second_of : ℕ × (T × V) → T × V
  second_of e = e.1

  abbrev pub entries : List (ℕ × (T × V)) → List (T × V)
  entries items = map second_of items

module _ {T V : Type 0} ⦃key : Key T⦄ where
  -- The entry goes to the front, and the last one goes where the limit is passed.
  abbrev pub put_first : ℕ → T → V → List (T × V) → List (T × V) × Option (T × V)
  put_first max_size k v es =
      let moved = (k, v) ∷ erase k es in
      if ltb 0 max_size && ltb max_size (length moved) then pop_back moved else (moved, none)

  -- A node of the list is linked from the map under its key.
  find-Linked :
      (index : List (T × ℕ)) (items : List (ℕ × (T × V))) (a : ℕ) (k : T) (v : V)
      → All (Linked index) items
      → find a items ≡ some (k, v)
      → find k index ≡ some a
  unfolding find
  find-Linked index [] a k v h e = cc
  find-Linked index ((b, (j, w)) ∷ items) a k v h e = elim (Bool-cases (b == a)) [
    | inl t ↦
        let e' : some (j, w) ≡ some (k, v) = rw t at e in
        let m : j ≡ k = cc in
        subst (λ i. find i index ≡ some a) m
          (subst (λ c. find j index ≡ some c) (nat_sound b a t) h.0)
    | inr f ↦ find-Linked index items a k v h.1 (rw f at e)
  ]

  last_item :
      (a : ℕ) (y : T × V) (items : List (ℕ × (T × V)))
      → IsUnique items
      → (pop_back items).1 ≡ some (a, y)
      → (find a items ≡ some y) × ((pop_back items).0 ≡ erase a items)
  unfolding pop_back find erase
  last_item a y [] u e = cc
  last_item a y ((c, x) ∷ []) u e =
      let m : c ≡ a = cc in
      let n : x ≡ y = cc in
      let r : (c == a) ≡ true = ground arith in rw r (ap (λ i. some i) n, refl)
  last_item a y ((c, x) ∷ z ∷ zs) u e =
      let (p, q) = last_item a y (z ∷ zs) u.1 e in
      elim (Bool-cases (c == a)) [
        | inl t ↦ absurd (cc (p, subst (λ i. find i (z ∷ zs) ≡ none) (nat_sound c a t) u.0))
        | inr f ↦ rw f (p, ap (λ l. (c, x) ∷ l) q)
      ]

  -- The only node under `a` is the one with the key `k`.
  entries-erase :
      (k : T) (a : ℕ) (index : List (T × ℕ)) (items : List (ℕ × (T × V)))
      → find k index ≡ some a
      → All (Linked index) items
      → ((j : T) → find j index ≡ some a → j ≡ k)
      → entries (erase a items) ≡ erase k (entries items)
  unfolding erase
  entries-erase k a index [] h v only = refl
  entries-erase k a index ((b, (j, w)) ∷ items) h v only = elim (Bool-cases (b == a)) [
    | inl t ↦
        let m : j ≡ k = only j (subst (λ c. find j index ≡ some c) (nat_sound b a t) v.0) in
        let r : key.same j k ≡ true = subst (λ i. key.same j i ≡ true) m (key.same_refl j) in
        rw (t, r) (entries-erase k a index items h v.1 only)
    | inr f ↦ elim (Bool-cases (key.same j k)) [
      | inl t ↦
          let e = same_address j k b a index t v.0 h in
          let r : (b == a) ≡ true = ground arith in absurd (cc (r, f))
      | inr g ↦ rw (f, g) (ap (λ l. (j, w) ∷ l) (entries-erase k a index items h v.1 only))
    ]
  ]

  -- The only key that the map has at the address of a node is the node's.
  only :
      (l : LruList T V) (k : T) (a : ℕ) (x : V)
      → IsLinked l
      → find a l.items ≡ some (k, x)
      → (j : T) → find j l.index ≡ some a
      → j ≡ k
  only l k a x v p j h =
      let (y, q) = v.held j a h in let r : some (j, y) ≡ some (k, x) = sym q ∙ p in cc

  entries-absent :
      (k : T) (index : List (T × ℕ)) (items : List (ℕ × (T × V)))
      → find k index ≡ none
      → All (Linked index) items
      → find k (entries items) ≡ none
  unfolding find
  entries-absent k index [] h v = refl
  entries-absent k index ((b, (j, w)) ∷ items) h v = elim (Bool-cases (key.same j k)) [
    | inl t ↦ absurd (cc (h, subst (λ i. find i index ≡ some b) (key.same_sound j k t) v.0))
    | inr f ↦ rw f (entries-absent k index items h v.1)
  ]

  entries-found :
      (k : T) (a : ℕ) (x : V) (index : List (T × ℕ)) (items : List (ℕ × (T × V)))
      → find k index ≡ some a
      → All (Linked index) items
      → find a items ≡ some (k, x)
      → find k (entries items) ≡ some x
  unfolding find
  entries-found k a x index [] h v p = cc
  entries-found k a x index ((b, (j, w)) ∷ items) h v p = elim (Bool-cases (b == a)) [
    | inl t ↦
        let e : some (j, w) ≡ some (k, x) = rw t at p in
        let m : j ≡ k = cc in
        let n : w ≡ x = cc in
        let r : key.same j k ≡ true = subst (λ i. key.same j i ≡ true) m (key.same_refl j) in
        rw r (ap (λ i. some i) n)
    | inr f ↦ elim (Bool-cases (key.same j k)) [
      | inl t ↦
          let e = same_address j k b a index t v.0 h in
          let r : (b == a) ≡ true = ground arith in absurd (cc (r, f))
      | inr g ↦ rw g (entries-found k a x index items h v.1 (rw f at p))
    ]
  ]

  pop_back-entries :
      (items : List (ℕ × (T × V))) → entries (pop_back items).0 ≡ (pop_back (entries items)).0
  unfolding pop_back
  pop_back-entries [] = refl
  pop_back-entries (x ∷ []) = refl
  pop_back-entries (x ∷ y ∷ ys) = ap (λ l. x.1 ∷ l) (pop_back-entries (y ∷ ys))

  entries-push :
      (l : LruList T V) (k : T) (w : V)
      → IsLinked l
      → entries (push l k w).items ≡ (k, w) ∷ erase k (entries l.items)
  unfolding push
  entries-push l k w v = go (find k l.index) refl
    where
      go :
          (o : Option ℕ)
          → find k l.index ≡ o
          → entries (push l k w).items ≡ (k, w) ∷ erase k (entries l.items)
      go none e =
          rw (e, push)
            (ap (λ t. (k, w) ∷ t)
              (sym
                (erase_absent k (entries l.items) (entries-absent k l.index l.items e v.linked))))
      go (some a) e =
          let (x, p) = v.held k a e in
          let f = fresh_other l.fresh a (k, x) l.items v.below p in
          rw (e, push)
            (rw (erase-fresh l.fresh a (k, w) l.items f) (
              ap (λ t. (k, w) ∷ t)
                (entries-erase k a l.index l.items e v.linked (only l k a x v p))))

  -- What a step gives, against the entries and the deleted entry expected.
  pub record Gives (r : LruList T V × Option (T × V)) (expected : List (T × V) × Option (T × V))
      : Type 0 where
    pub links : IsLinked r.0
    pub front : entries r.0.items ≡ expected.0
    pub deleted : r.1 ≡ expected.1

  pop_back-none :
      (items : List (ℕ × (T × V)))
      → (pop_back items).1 ≡ none
      → (entries items ≡ (pop_back (entries items)).0) × (none ≡ (pop_back (entries items)).1)
  unfolding pop_back
  pop_back-none [] h = (refl, refl)
  pop_back-none (x ∷ []) h = cc
  pop_back-none (x ∷ y ∷ ys) h = let (p, q) = pop_back-none (y ∷ ys) h in (ap (λ l. x.1 ∷ l) p, q)

  pop_back-some :
      (items : List (ℕ × (T × V))) (a : ℕ) (y : T × V)
      → (pop_back items).1 ≡ some (a, y)
      → some y ≡ (pop_back (entries items)).1
  unfolding pop_back
  pop_back-some [] a y h = cc
  pop_back-some ((b, x) ∷ []) a y h = let m : x ≡ y = cc in ap (λ i. some i) (sym m)
  pop_back-some (x ∷ z ∷ zs) a y h = pop_back-some (z ∷ zs) a y h

  evicted-Gives :
      (l : LruList T V) (kept : List (ℕ × (T × V))) (o : Option (ℕ × (T × V)))
      → IsLinked l
      → (pop_back l.items).0 ≡ kept
      → (pop_back l.items).1 ≡ o
      → Gives (evicted l (kept, o)) (pop_back (entries l.items))
  evicted-Gives l kept none v e0 e =
      let (p, q) = pop_back-none l.items e in record { links = v; front = p; deleted = q }
  evicted-Gives l kept (some (a, (k, x))) v e0 e =
      let (p, q) = last_item a (k, x) l.items v.unique e in
      record {
        links =
            subst (λ i. IsLinked (record l { items = i; index = erase k l.index })) (sym q ∙ e0)
              (remove-IsLinked l k a (find-Linked l.index l.items a k x v.linked p) v);
        front = ap entries (sym e0) ∙ pop_back-entries l.items;
        deleted = pop_back-some l.items a (k, x) e;
      }

  evict-Gives : (l : LruList T V) → IsLinked l → Gives (evict l) (pop_back (entries l.items))
  unfolding evict
  evict-Gives l v = evicted-Gives l (pop_back l.items).0 (pop_back l.items).1 v refl refl

  if-Gives :
      (b c : Bool) (r r' : LruList T V × Option (T × V)) (x x' : List (T × V) × Option (T × V))
      → b ≡ c
      → Gives r x
      → Gives r' x'
      → Gives (if b then r else r') (if c then x else x')
  if-Gives true true r r' x x' e g h = g
  if-Gives true false r r' x x' e g h = cc
  if-Gives false true r r' x x' e g h = cc
  if-Gives false false r r' x x' e g h = h

  length-entries : (items : List (ℕ × (T × V))) → length (entries items) ≡ length items
  length-entries [] = refl
  length-entries (x ∷ xs) = ap suc (length-entries xs)

  -- A put keeps the list and the map in agreement, moves or adds the entry to the front and, past
  -- the limit, deletes the last entry and returns it: what it does to the list of entries.
  pub put_element-Gives :
      (l : LruList T V) (k : T) (w : V)
      → IsLinked l
      → Gives (put_element l k w) (put_first l.max_size k w (entries l.items))
  unfolding put_element
  put_element-Gives l k w v =
      let p = push l k w in
      let links = push-IsLinked l k w v in
      let moved = entries-push l k w v in
      let same_size : length p.index ≡ length ((k, w) ∷ erase k (entries l.items)) =
        links.sizes ∙ sym (length-entries p.items) ∙ ap length moved in
      if-Gives _ _ _ _ _ _ (ap (λ n. ltb 0 l.max_size && ltb l.max_size n) same_size)
        (subst (λ es. Gives (evict p) (pop_back es)) moved (evict-Gives p links))
        (record { links = links; front = moved; deleted = refl })

  -- A value is found under a key exactly as in the list of entries.
  pub get_value-entries :
      (l : LruList T V) (k : T) → IsLinked l → get_value l k ≡ find k (entries l.items)
  unfolding get_value
  get_value-entries l k v = go (find k l.index) refl
    where
      go : (o : Option ℕ) → find k l.index ≡ o → get_value l k ≡ find k (entries l.items)
      go none e = rw (e, get_value) (sym (entries-absent k l.index l.items e v.linked))
      go (some a) e =
          let (x, p) = v.held k a e in
          rw (e, get_value) (rw p (sym (entries-found k a x l.index l.items e v.linked p)))

  -- Erasing a key keeps the agreement and erases its entry, where there is one.
  pub erase_element-entries :
      (l : LruList T V) (k : T)
      → IsLinked l
      → IsLinked (erase_element l k)
        × (entries (erase_element l k).items ≡ erase k (entries l.items))
  unfolding erase_element
  erase_element-entries l k v = go (find k l.index) refl
    where
      go :
          (o : Option ℕ)
          → find k l.index ≡ o
          → IsLinked (erase_element l k)
            × (entries (erase_element l k).items ≡ erase k (entries l.items))
      go none e =
          rw (e, erase_element)
            (
              v,
              sym (erase_absent k (entries l.items) (entries-absent k l.index l.items e v.linked)),
            )
      go (some a) e =
          let (x, p) = v.held k a e in
          rw (e, erase_element)
            (
              remove-IsLinked l k a e v,
              entries-erase k a l.index l.items e v.linked (only l k a x v p),
            )

  pub new_list-IsLinked : (max_size : ℕ) → IsLinked (new_list {T = T} {V = V} max_size)
  unfolding find
  new_list-IsLinked max_size = record {
    linked = tt;
    held = λ k a h. cc;
    unique = tt;
    below = tt;
    indexed = tt;
    sizes = refl;
  }
