-- ===== src/Serializer/Labels.antt =====
-- The labels that src/PrometheusSerializer.h writes, read back.
use pktvisor.Prelude.{
  ℕ, suc, ◌<◌, ◌≡◌, refl, sym, ap, ◌∙◌, ◌&&◌, some, [], ◌∷◌, ◌++◌, if◌then◌else◌, arith, append-nil,
  append_assoc, length, length-append, find, IsUnique, All, All-append, Bool-cases, Option-cases,
  inl, inr, none, Option, subst,
}
use pktvisor.Metrics.Utf8.{Bytes}
use pktvisor.Serializer.{
  same_bytes, same_bytes_sound, bytes_key, LabelMap, append_escaped, append_one, append_each,
  not_given, is_empty, pop_last, append_labels,
}
use pktvisor.Serializer.Reading.{
  comma, closing, IsName, label_text, read_labels, braced, read_set, all_rendered, AreNames,
  set_text, read_labels-set_text,
}

pop_last-append : (xs ys : Bytes) → 0 < length ys → pop_last (xs ++ ys) ≡ xs ++ pop_last ys
unfolding pop_last
pop_last-append [] ys h = refl
pop_last-append (x ∷ []) [] h = absurd (omega arith)
pop_last-append (x ∷ []) (y ∷ ys) h = refl
pop_last-append (x ∷ x' ∷ xs) ys h = ap (λ l. x ∷ l) (pop_last-append (x' ∷ xs) ys h)

-- Every label with the comma behind it.
abbrev terminated : LabelMap → Bytes
terminated [] = []
terminated ((k, v) ∷ ls) = (label_text k v ++ comma ∷ []) ++ terminated ls

some_text : (xs ys : Bytes) → 0 < length ((xs ++ comma ∷ []) ++ ys)
some_text xs ys = omega (arith, length-append (xs ++ comma ∷ []) ys, length-append xs (comma ∷ []))

pop_last-terminated :
    (l : Bytes × Bytes) (ls : LabelMap)
    → pop_last (terminated (l ∷ ls)) ++ closing ∷ [] ≡ set_text l ls
unfolding pop_last
pop_last-terminated (k, v) [] =
    ap (λ t. pop_last t ++ closing ∷ []) (append-nil (label_text k v ++ comma ∷ []))
    ∙ ap (λ t. t ++ closing ∷ []) (pop_last-append (label_text k v) (comma ∷ []) (omega arith))
    ∙ ap (λ t. t ++ closing ∷ []) (append-nil (label_text k v))
pop_last-terminated (k, v) ((k', v') ∷ ls) =
    ap (λ t. t ++ closing ∷ [])
      (pop_last-append (label_text k v ++ comma ∷ []) (terminated ((k', v') ∷ ls))
        (some_text (label_text k' v') (terminated ls)))
    ∙ append_assoc (label_text k v ++ comma ∷ []) (pop_last (terminated ((k', v') ∷ ls)))
        (closing ∷ [])
    ∙ append_assoc (label_text k v) (comma ∷ []) _
    ∙ ap (λ t. label_text k v ++ comma ∷ t) (pop_last-terminated (k', v') ls)

append_one_text : (line k v : Bytes) → append_one line k v ≡ line ++ (label_text k v ++ comma ∷ [])
unfolding append_one append_escaped
append_one_text line k v = simp append_assoc

append_each_text : (line : Bytes) (ls : LabelMap) → append_each line ls ≡ line ++ terminated ls
unfolding append_each
append_each_text line [] = sym (append-nil line)
append_each_text line ((k, v) ∷ ls) =
    ap (λ t. append_each t ls) (append_one_text line k v)
    ∙ append_each_text (line ++ (label_text k v ++ comma ∷ [])) ls
    ∙ append_assoc line (label_text k v ++ comma ∷ []) (terminated ls)

abbrev pub effective : LabelMap → LabelMap → LabelMap
effective statics labels = not_given labels statics ++ labels

terminated-append : (ls ms : LabelMap) → terminated (ls ++ ms) ≡ terminated ls ++ terminated ms
terminated-append [] ms = refl
terminated-append ((k, v) ∷ ls) ms =
    ap (λ t. (label_text k v ++ comma ∷ []) ++ t) (terminated-append ls ms)
    ∙ sym (append_assoc (label_text k v ++ comma ∷ []) (terminated ls) (terminated ms))

-- The end of the set: the last comma goes, if there is one.
abbrev pub ended : LabelMap → Bytes
ended [] = closing ∷ []
ended (l ∷ ls) = set_text l ls

close_text :
    (line : Bytes) (l : Bytes × Bytes) (ls : LabelMap) (t : Bytes)
    → t ≡ line ++ b'{' ∷ terminated (l ∷ ls)
    → pop_last t ++ closing ∷ [] ≡ line ++ b'{' ∷ set_text l ls
close_text line (k, v) ls t h =
    let text = terminated ((k, v) ∷ ls) in
    let filled = some_text (label_text k v) (terminated ls) in
    ap (λ t. pop_last t ++ closing ∷ []) h
    ∙ ap (λ t. t ++ closing ∷ [])
        (pop_last-append line (b'{' ∷ text) (omega arith)
          ∙ ap (λ t. line ++ t) (pop_last-append (b'{' ∷ []) text filled))
    ∙ append_assoc line (b'{' ∷ pop_last text) (closing ∷ [])
    ∙ ap (λ t. line ++ b'{' ∷ t) (pop_last-terminated (k, v) ls)

pub append_labels_text :
    (statics : LabelMap) (line : Bytes) (labels : LabelMap)
    → append_labels statics line labels ≡ line ++ b'{' ∷ ended (effective statics labels)
unfolding append_labels
append_labels_text statics line labels = go (not_given labels statics) labels
  where
    each : LabelMap → LabelMap → Bytes
    each own ls = append_each (append_each (line ++ b'{' ∷ []) own) ls

    each_text : (own ls : LabelMap) → each own ls ≡ line ++ b'{' ∷ terminated (own ++ ls)
    each_text own ls =
        append_each_text (append_each (line ++ b'{' ∷ []) own) ls
        ∙ ap (λ t. t ++ terminated ls) (append_each_text (line ++ b'{' ∷ []) own)
        ∙ rw (terminated-append own ls) (simp append_assoc)

    go :
        (own ls : LabelMap)
        → (if is_empty own && is_empty ls then each own ls else pop_last (each own ls))
            ++ closing ∷ []
          ≡ line ++ b'{' ∷ ended (own ++ ls)
    go [] [] = append_assoc line (b'{' ∷ []) (closing ∷ [])
    go [] (l ∷ ls) = close_text line l ls _ (each_text [] (l ∷ ls))
    go (l ∷ own) ls = close_text line l (own ++ ls) _ (each_text (l ∷ own) ls)

braced_name :
    (n : ℕ) (k v : Bytes) (ls : LabelMap) (rest : Bytes)
    → IsName k
    → braced n (set_text (k, v) ls ++ rest) ≡ read_labels n (set_text (k, v) ls ++ rest)
braced_name n [] v [] rest h = refl
braced_name n [] v (l ∷ ls) rest h = refl
braced_name n (c ∷ k) v [] rest h = rw h.0.1 refl
braced_name n (c ∷ k) v (l ∷ ls) rest h = rw h.0.1 refl

read_set-ended :
    (ls : LabelMap) (rest : Bytes)
    → AreNames ls
    → read_set (suc (length ls)) (b'{' ∷ ended ls ++ rest) ≡ some (all_rendered ls, rest)
read_set-ended [] rest names = refl
read_set-ended ((k, v) ∷ ls) rest names =
    braced_name _ k v ls rest names.0 ∙ read_labels-set_text _ (k, v) ls rest (omega arith) names

-- A label of the call hides the static label of its name.
abbrev pub or_static : Option Bytes → Option Bytes → Option Bytes
or_static (some v) static = some v
or_static none static = static

find-append : (k : Bytes) (ls ms : LabelMap) → find k (ls ++ ms) ≡ or_static (find k ls) (find k ms)
unfolding find
find-append k [] ms = refl
find-append k ((j, v) ∷ ls) ms = elim (Bool-cases (same_bytes j k)) [
  | inl t ↦ rw (t, find) refl
  | inr f ↦ rw (f, find) (find-append k ls ms)
]

module _ (labels : LabelMap) where
  not_given-All :
      (P : Bytes × Bytes → Type 0) (statics : LabelMap)
      → All P statics
      → All P (not_given labels statics)
  unfolding not_given
  not_given-All P [] h = tt
  not_given-All P ((k, v) ∷ statics) h = elim (Option-cases (find k labels)) [
    | inl e ↦ rw (e, not_given) (h.0, not_given-All P statics h.1)
    | inr (w, e) ↦ rw (e, not_given) (not_given-All P statics h.1)
  ]

  -- The static labels under a name that the call gives are left out, the others stay.
  find-not_given_held :
      (k w : Bytes) (statics : LabelMap)
      → find k labels ≡ some w
      → find k (not_given labels statics) ≡ none
  unfolding not_given find
  find-not_given_held k w [] h = refl
  find-not_given_held k w ((j, v) ∷ statics) h = elim (Option-cases (find j labels)) [
    | inr (x, e) ↦ rw (e, not_given) (find-not_given_held k w statics h)
    | inl e ↦ elim (Bool-cases (same_bytes j k)) [
      | inl t ↦ absurd (cc (h, subst (λ i. find i labels ≡ none) (same_bytes_sound j k t) e))
      | inr f ↦ rw (e, not_given) (rw (f, find) (find-not_given_held k w statics h))
    ]
  ]

  find-not_given_free :
      (k : Bytes) (statics : LabelMap)
      → find k labels ≡ none
      → find k (not_given labels statics) ≡ find k statics
  unfolding not_given find
  find-not_given_free k [] h = refl
  find-not_given_free k ((j, v) ∷ statics) h = elim (Bool-cases (same_bytes j k)) [
    | inl t ↦
        let e = subst (λ i. find i labels ≡ none) (sym (same_bytes_sound j k t)) h in
        rw (e, not_given) (rw (t, find) refl)
    | inr f ↦ elim (Option-cases (find j labels)) [
      | inl e ↦ rw (e, not_given) (rw (f, find) (find-not_given_free k statics h))
      | inr (x, e) ↦ rw (e, not_given) (rw (f, find) (find-not_given_free k statics h))
    ]
  ]

  find-effective :
      (statics : LabelMap) (k : Bytes)
      → find k (effective statics labels) ≡ or_static (find k labels) (find k statics)
  find-effective statics k = elim (Option-cases (find k labels)) [
    | inl e ↦
        find-append k (not_given labels statics) labels
        ∙ ap (or_static (find k (not_given labels statics))) e
        ∙ or_none (find k (not_given labels statics))
        ∙ find-not_given_free k statics e
        ∙ sym (ap (λ o. or_static o (find k statics)) e)
    | inr (w, e) ↦
        find-append k (not_given labels statics) labels
        ∙ ap (λ o. or_static o (find k labels)) (find-not_given_held k w statics e)
        ∙ e
        ∙ sym (ap (λ o. or_static o (find k statics)) e)
  ]
    where
      or_none : (o : Option Bytes) → or_static o none ≡ o
      or_none none = refl
      or_none (some v) = refl

  effective-IsUnique :
      (statics : LabelMap)
      → IsUnique statics
      → IsUnique labels
      → IsUnique (effective statics labels)
  unfolding not_given
  effective-IsUnique [] u v = v
  effective-IsUnique ((k, x) ∷ statics) u v = elim (Option-cases (find k labels)) [
    | inr (w, e) ↦ rw (e, not_given) (effective-IsUnique statics u.1 v)
    | inl e ↦
        rw (e, not_given)
          (
            find-effective statics k ∙ ap (λ o. or_static o (find k statics)) e ∙ u.0,
            effective-IsUnique statics u.1 v,
          )
  ]

-- The labels that a sample is written with, read back. Behind the braces stands what stood behind
-- them. Between them stand labels with no name twice, each value rendered as UTF-8, whatever bytes
-- it has: under each name the value that the call gives, or else the static label's. The static
-- labels and those of the call have no name twice, and their names have no `=` and no `}`.
pub read_set-append_labels :
    (statics : LabelMap) (line : Bytes) (labels : LabelMap) (rest : Bytes)
    → IsUnique statics
    → IsUnique labels
    → AreNames statics
    → AreNames labels
    → (ls : LabelMap) × (text : Bytes) × (append_labels statics line labels ++ rest ≡ line ++ text)
      × (read_set (suc (length ls)) text ≡ some (all_rendered ls, rest))
      × IsUnique ls
      × ((k : Bytes) → find k ls ≡ or_static (find k labels) (find k statics))
read_set-append_labels statics line labels rest us ul ns nl =
    let ls = effective statics labels in
    let named = λ (l : Bytes × Bytes). IsName l.0 in
    (
      ls,
      b'{' ∷ ended ls ++ rest,
      ap (λ t. t ++ rest) (append_labels_text statics line labels)
          ∙ append_assoc line (b'{' ∷ ended ls) rest,
      read_set-ended ls rest (
          All-append named (not_given labels statics) labels (not_given-All labels named statics ns)
            nl),
      effective-IsUnique labels statics us ul,
      find-effective labels statics,
    )
