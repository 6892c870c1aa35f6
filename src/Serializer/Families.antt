-- ===== src/Serializer/Families.antt =====
-- The families that src/PrometheusSerializer.h collects, and that it renders each of them.
use pktvisor.Prelude.{
  ◌≡◌, refl, sym, subst, ap, ◌∙◌, false, ◌&&◌, not, Option, none, some, List, [], ◌∷◌, ◌++◌,
  if◌then◌else◌, inl, inr, Bool-cases, append-nil, append_assoc, find, find-put_same,
  find-put_other,
}
use pktvisor.Metrics.Utf8.{Bytes}
use pktvisor.Serializer.{
  LabelMap, MetricType, Family, PrometheusSerializer, Write, newline, same_bytes, same_bytes_sound,
  bytes_key, is_empty, append_suffix, append_labels, append_series, write, new_serializer,
}
use pktvisor.Serializer.Labels.{append_labels_text, effective, ended}

unfoldable pub write_all : LabelMap → PrometheusSerializer → List Write → PrometheusSerializer
write_all statics ser [] = ser
write_all statics ser (w ∷ ws) = write_all statics (write statics ser w) ws

-- The writes to one family, the first help among them that is not empty, and their lines.
abbrev pub of_base : Bytes → List Write → List Write
of_base base [] = []
of_base base (w ∷ ws) = if same_bytes w.base base then w ∷ of_base base ws else of_base base ws

abbrev pub first_help : List Write → Bytes
first_help [] = []
first_help (w ∷ ws) = if is_empty w.help then first_help ws else w.help

abbrev pub lines : LabelMap → List Write → Bytes
lines statics [] = []
lines statics (w ∷ ws) = append_series statics [] w ++ lines statics ws

-- The family that its writes make: the type of the first, the first help that is not empty, and
-- the lines of all of them.
abbrev pub summary : LabelMap → List Write → Option Family
summary statics [] = none
summary statics (w ∷ ws) =
    some (record { type = w.type; help = first_help (w ∷ ws); body = lines statics (w ∷ ws) })

-- The same on top of the family that there is.
abbrev extended : LabelMap → Option Family → List Write → Option Family
extended statics none ws = summary statics ws
extended statics (some fam) ws = some (record {
  type = fam.type;
  help = if is_empty fam.help then first_help ws else fam.help;
  body = fam.body ++ lines statics ws;
})

append_suffix_text :
    (line : Bytes) (ss : List Bytes) → append_suffix line ss ≡ line ++ append_suffix [] ss
unfolding append_suffix
append_suffix_text line [] = sym (append-nil line)
append_suffix_text line (s ∷ ss) =
    append_suffix_text (line ++ b'_' ∷ [] ++ s) ss
    ∙ (simp append_assoc)
    ∙ ap (λ t. line ++ t) (sym (append_suffix_text (b'_' ∷ s) ss))

append_series_text :
    (statics : LabelMap) (body : Bytes) (w : Write)
    → append_series statics body w ≡ body ++ append_series statics [] w
unfolding append_series
append_series_text statics body w =
    let tail = append_suffix [] w.suffix in
    let braces = b'{' ∷ ended (effective statics w.labels) in
    let labelled : (start : Bytes)
        → append_labels statics (append_suffix start w.suffix) w.labels
          ≡ (start ++ tail) ++ braces =
      λ start.
        append_labels_text statics (append_suffix start w.suffix) w.labels
        ∙ ap (λ t. t ++ braces) (append_suffix_text start w.suffix) in
    ap (λ t. t ++ b' ' ∷ [] ++ w.value ++ newline ∷ []) (labelled (body ++ w.base))
    ∙ (simp append_assoc)
    ∙ ap (λ t. body ++ (t ++ b' ' ∷ [] ++ w.value ++ newline ∷ [])) (sym (labelled w.base))

abbrev some_family : MetricType → Bytes → Bytes → Option Family
some_family t h b = some (record { type = t; help = h; body = b })

family_eq :
    (t : MetricType) (h h' b b' : Bytes) → h ≡ h' → b ≡ b' → some_family t h b ≡ some_family t h' b'
family_eq t h h' b b' p q = rw (p, q) refl

help_once : (h : Bytes) → h ≡ (if is_empty h then [] else h)
help_once [] = refl
help_once (c ∷ cs) = refl

help_filled :
    (f h : Bytes)
    → (if is_empty f && not (is_empty h) then h else f)
      ≡ (if is_empty f then (if is_empty h then [] else h) else f)
help_filled [] [] = refl
help_filled [] (c ∷ cs) = refl
help_filled (d ∷ ds) h = refl

help_next :
    (h rest : Bytes)
    → let h' = if is_empty h then [] else h in
      (if is_empty h' then rest else h') ≡ (if is_empty h then rest else h)
help_next [] rest = refl
help_next (c ∷ cs) rest = refl

help_after :
    (f h rest : Bytes)
    → let h' = if is_empty f then (if is_empty h then [] else h) else f in
      (if is_empty h' then rest else h')
      ≡ (if is_empty f then (if is_empty h then rest else h) else f)
help_after [] [] rest = refl
help_after [] (c ∷ cs) rest = refl
help_after (d ∷ ds) h rest = refl

write-find_same :
    (statics : LabelMap) (ser : PrometheusSerializer) (w : Write)
    → find w.base (write statics ser w).families
      ≡ extended statics (find w.base ser.families) (w ∷ [])
unfolding write
write-find_same statics ser w = go (find w.base ser.families) refl
  where
    go :
        (o : Option Family)
        → find w.base ser.families ≡ o
        → find w.base (write statics ser w).families ≡ extended statics o (w ∷ [])
    go none e =
        rw (e, write)
          (find-put_same w.base _ ser.families
            ∙ family_eq w.type _ _ _ _ (help_once w.help) (sym (append-nil _)))
    go (some fam) e =
        rw (e, write)
          (find-put_same w.base _ ser.families
            ∙ family_eq fam.type _ _ _ _ (help_filled fam.help w.help) (
                append_series_text statics fam.body w
                ∙ ap (λ t. fam.body ++ t) (sym (append-nil _))))

write-find_other :
    (statics : LabelMap) (ser : PrometheusSerializer) (w : Write) (base : Bytes)
    → same_bytes w.base base ≡ false
    → find base (write statics ser w).families ≡ find base ser.families
unfolding write
write-find_other statics ser w base h = go (find w.base ser.families) refl
  where
    go :
        (o : Option Family)
        → find w.base ser.families ≡ o
        → find base (write statics ser w).families ≡ find base ser.families
    go none e = rw (e, write) (find-put_other w.base base _ ser.families h)
    go (some fam) e = rw (e, write) (find-put_other w.base base _ ser.families h)

extended-cons :
    (statics : LabelMap) (o : Option Family) (w : Write) (ws : List Write)
    → extended statics (extended statics o (w ∷ [])) ws ≡ extended statics o (w ∷ ws)
extended-cons statics none w ws =
    family_eq w.type _ _ _ _ (help_next w.help (first_help ws))
      (ap (λ t. t ++ lines statics ws) (append-nil _))
extended-cons statics (some fam) w ws =
    family_eq fam.type _ _ _ _ (help_after fam.help w.help (first_help ws))
      (rw (append-nil (append_series statics [] w)) (append_assoc fam.body _ (lines statics ws)))

extended_nil : (statics : LabelMap) (o : Option Family) → o ≡ extended statics o []
extended_nil statics none = refl
extended_nil statics (some fam) =
    family_eq fam.type _ _ _ _ (help_once fam.help) (sym (append-nil fam.body))

find-write_all :
    (statics : LabelMap) (ser : PrometheusSerializer) (ws : List Write) (base : Bytes)
    → find base (write_all statics ser ws).families
      ≡ extended statics (find base ser.families) (of_base base ws)
unfolding write_all
find-write_all statics ser [] base = extended_nil statics (find base ser.families)
find-write_all statics ser (w ∷ ws) base = elim (Bool-cases (same_bytes w.base base)) [
  | inl t ↦
      let e = same_bytes_sound w.base base t in
      find-write_all statics (write statics ser w) ws base
      ∙ ap (λ o. extended statics o (of_base base ws))
          (subst
            (λ b.
              find b (write statics ser w).families
              ≡ extended statics (find b ser.families) (w ∷ []))
            e (write-find_same statics ser w))
      ∙ extended-cons statics (find base ser.families) w (of_base base ws)
      ∙ rw t refl
  | inr f ↦
      find-write_all statics (write statics ser w) ws base
      ∙ rw (write-find_other statics ser w base f, f) refl
]

-- Whatever writes come in whatever order, a family ends with the type of its first write, the
-- first help among its writes that is not empty, and the lines of all its writes in their order,
-- and with nothing of another family's.
pub find-write_all_new :
    (statics : LabelMap) (ws : List Write) (base : Bytes)
    → find base (write_all statics new_serializer ws).families ≡ summary statics (of_base base ws)
unfolding find
find-write_all_new statics ws base = find-write_all statics new_serializer ws base
