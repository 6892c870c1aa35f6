-- ===== src/Policies/Tracks/Handlers.antt =====
-- The handlers during a load of src/Policies.cpp: registering, starting, stopping and removing them.
use pktvisor.Prelude.{
  ◌≡◌, refl, sym, subst, ap, ◌∙◌, ◌⊎◌, inl, inr, true, false, none, some, List, [], ◌∷◌, ◌++◌,
  if◌then◌else◌, All, All-append, All-map, Bool-cases, Option-cases, false≢true, find, same-flip,
}
use pktvisor.Metrics.Utf8.{Bytes}
use pktvisor.Serializer.{same_bytes, same_bytes_refl, same_bytes_sound, bytes_key}
use pktvisor.Modules.Store.{find-snoc, find-snoc_held}
use pktvisor.Policies.{among, adjust, Handler, World, stop_handler, run_handler}
use pktvisor.Policies.Stores.{
  among-snoc_same, among-snoc_other, among-tail, find-adjust_other, All-adjust, absent_clear,
  All-both,
}
use pktvisor.Policies.Tracks.{IsInput, Calm, TracksHandlers}

-- A store with one more entry.
pub find-added_other :
    {V : Type 0} (k n : Bytes) (v : V) (m : List (Bytes × V))
    → same_bytes n k ≡ false
    → find k (m ++ (n, v) ∷ []) ≡ find k m
find-added_other {V} k n v m h = elim (Option-cases (find k m)) [
  | inl e ↦ find-snoc (λ (u : V). n) k n v m e ∙ ap (λ b. if b then some v else none) h ∙ sym e
  | inr (u, e) ↦ find-snoc_held (λ (x : V). n) k n v u m e ∙ sym e
]

pub find-added_same :
    {V : Type 0} (n : Bytes) (v : V) (m : List (Bytes × V))
    → find n m ≡ none
    → find n (m ++ (n, v) ∷ []) ≡ some v
find-added_same {V} n v m e =
    find-snoc (λ (u : V). n) n n v m e ∙ ap (λ b. if b then some v else none) (same_bytes_refl n)

module _ (w0 : World) where
  -- A new handler, of the load itself or of a resources policy.
  snoc-Calm :
      (busy added resources more : List Bytes) (n : Bytes) (h : Handler)
      (handlers : List (Bytes × Handler))
      → find n handlers ≡ none
      → ((k : Bytes) → same_bytes n k ≡ false → among k more ≡ among k resources)
      → Calm w0 busy (added ++ n ∷ []) more (n, h)
      → All (Calm w0 busy added resources) handlers
      → All (Calm w0 busy (added ++ n ∷ []) more) (handlers ++ (n, h) ∷ [])
  snoc-Calm busy added resources more n h handlers e same c all =
      All-append (Calm w0 busy (added ++ n ∷ []) more) handlers ((n, h) ∷ [])
        (All-both (λ (x : Bytes × Handler). same_bytes n x.0 ≡ false) (Calm w0 busy added resources)
          (Calm w0 busy (added ++ n ∷ []) more) handlers widen (absent_clear n handlers e) all)
        (c, tt)
    where
      widen :
          (x : Bytes × Handler)
          → same_bytes n x.0 ≡ false
          → Calm w0 busy added resources x
          → Calm w0 busy (added ++ n ∷ []) more x
      widen (k, g) f c' =
          let a = among-snoc_other k n added f in
          (
            λ u. c'.0 (sym a ∙ u),
            λ u r. c'.1 (sym a ∙ u) (sym (same k f) ∙ r),
            λ u r. c'.2 (sym a ∙ u) (sym (same k f) ∙ r),
          )

  pub TracksHandlers-add :
      (busy added resources more : List Bytes) (n : Bytes) (h : Handler)
      (handlers : List (Bytes × Handler))
      → find n handlers ≡ none
      → ((k : Bytes) → same_bytes n k ≡ false → among k more ≡ among k resources)
      → Calm w0 busy (added ++ n ∷ []) more (n, h)
      → TracksHandlers w0 busy added resources handlers
      → TracksHandlers w0 busy (added ++ n ∷ []) more (handlers ++ (n, h) ∷ [])
  TracksHandlers-add busy added resources more n h handlers e same c t = (
    λ k. elim (Bool-cases (same_bytes n k)) [
      | inr f ↦
          let a = among-snoc_other k n added f in
          (
            λ u. (t.0 k).0 (sym a ∙ u),
            λ u. find-added_other k n h handlers f ∙ (t.0 k).1 (sym a ∙ u),
          )
      | inl s ↦
          let i = same_bytes_sound n k s in
          (
            λ u. subst (λ m. find m w0.handlers ≡ none) i fresh,
            λ u. absurd (
                false≢true (
                  sym u
                  ∙ subst (λ m. among m (added ++ n ∷ []) ≡ true) i (among-snoc_same n added))),
          )
    ],
    snoc-Calm busy added resources more n h handlers e same c t.1,
  )
    where
      fresh : find n w0.handlers ≡ none
      fresh = elim (Bool-cases (among n added)) [
        | inl u ↦ (t.0 n).0 u
        | inr u ↦ sym ((t.0 n).1 u) ∙ e
      ]

  -- More handlers may run than do.
  pub TracksHandlers-weaken :
      (busy more added resources : List Bytes) (handlers : List (Bytes × Handler))
      → ((k : Bytes) → among k busy ≡ true → among k more ≡ true)
      → TracksHandlers w0 busy added resources handlers
      → TracksHandlers w0 more added resources handlers
  TracksHandlers-weaken busy more added resources handlers wider t = (
    t.0,
    All-map (Calm w0 busy added resources) (Calm w0 more added resources)
        (λ (x : Bytes × Handler) (c : Calm w0 busy added resources x).
          (c.0, c.1, λ u r b. wider x.0 (c.2 u r b)))
        handlers t.1,
  )

  -- A handler of the load that is started or stopped.
  TracksHandlers-adjust :
      (busy left added resources : List Bytes) (n : Bytes) (f : Handler → Handler)
      (handlers : List (Bytes × Handler))
      → among n added ≡ true
      → ((h : Handler) → (f h).listens ≡ h.listens)
      → ((h : Handler)
          → (among n resources ≡ false → h.running ≡ true → among n busy ≡ true)
          → among n resources ≡ false
          → (f h).running ≡ true
          → among n left ≡ true)
      → ((k : Bytes) → same_bytes k n ≡ false → among k busy ≡ true → among k left ≡ true)
      → TracksHandlers w0 busy added resources handlers
      → TracksHandlers w0 left added resources (adjust n f handlers)
  TracksHandlers-adjust busy left added resources n f handlers a same runs others t = (
    λ k. ((t.0 k).0, λ u. find-adjust_other n f k handlers (apart k u) ∙ (t.0 k).1 u),
    All-adjust n f (Calm w0 busy added resources) (Calm w0 left added resources) handlers
        (λ h c. (
          λ u. absurd (false≢true (sym u ∙ a)),
          λ u r. subst IsInput (sym (same h)) (c.1 u r),
          λ u r b. runs h (c.2 u) r b,
        ))
        (λ k h g c. (c.0, c.1, λ u r b. others k g (c.2 u r b))) t.1,
  )
    where
      apart : (k : Bytes) → among k added ≡ false → same_bytes n k ≡ false
      apart k u = elim (Bool-cases (same_bytes n k)) [
        | inr f' ↦ f'
        | inl s ↦
            absurd
              (false≢true (sym u ∙ subst (λ m. among m added ≡ true) (same_bytes_sound n k s) a))
      ]

  pub TracksHandlers-run :
      (busy added resources : List Bytes) (n : Bytes) (handlers : List (Bytes × Handler))
      → among n added ≡ true
      → (among n resources ≡ true) ⊎ (among n busy ≡ true)
      → TracksHandlers w0 busy added resources handlers
      → TracksHandlers w0 busy added resources (adjust n run_handler handlers)
  TracksHandlers-run busy added resources n handlers a b t =
      TracksHandlers-adjust busy busy added resources n run_handler handlers a (λ h. refl)
        (λ h was r on. elim b [ inl r' ↦ absurd (false≢true (sym r ∙ r')) | inr b' ↦ b' ])
        (λ k f u. u) t

  pub TracksHandlers-stop :
      (busy added resources : List Bytes) (n : Bytes) (handlers : List (Bytes × Handler))
      → among n added ≡ true
      → TracksHandlers w0 (n ∷ busy) added resources handlers
      → TracksHandlers w0 busy added resources (adjust n stop_handler handlers)
  TracksHandlers-stop busy added resources n handlers a t =
      TracksHandlers-adjust (n ∷ busy) busy added resources n stop_handler handlers a (λ h. refl)
        (λ h was r on. absurd (false≢true on))
        (λ k f u. sym (among-tail k n busy (same-flip k n f)) ∙ u) t
