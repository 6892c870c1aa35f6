-- ===== src/Policies/Tracks/Quiet.antt =====
-- The loops over handlers of src/Policies.cpp: starting and stopping a policy's, and removing those
-- that a load added, which finds none with consumers.
use pktvisor.Prelude.{
  ◌≡◌, refl, sym, subst, ap, ◌∙◌, ◌⊎◌, inl, inr, Bool, true, false, ◌&&◌, none, some, List, [], ◌∷◌,
  ◌++◌, ◌==◌, All, All-map, erase_absent, Bool-cases, Option-cases, false≢true, find, erase,
  erase-All, same-flip, find-erase_same, find-erase_other,
}
use pktvisor.Metrics.Utf8.{Bytes}
use pktvisor.Serializer.{same_bytes, same_bytes_sound, bytes_key}
use pktvisor.Policies.{
  among, adjust, Handler, World, Source, of_input, of_handler, same_source, consumers, stop_handler,
  run_handler, remove_handler, stop_modules, start_modules, Faults,
}
use pktvisor.Policies.Rollback.{drop_handlers}
use pktvisor.Policies.Stores.{among-head, among-tail, All-both, Deaf, consumers-zero}
use pktvisor.Policies.Tracks.{Calm, TracksHandlers}
use pktvisor.Policies.Tracks.Handlers.{TracksHandlers-run, TracksHandlers-stop}

-- Worlds with the same inputs and policies.
abbrev pub Handling : World → World → Type 0
Handling w w' = (w'.inputs ≡ w.inputs) × (w'.policies ≡ w.policies)

pub stop_modules-Handling : (ms : List Bytes) (w : World) → Handling w (stop_modules ms w)
unfolding stop_modules
stop_modules-Handling [] w = (refl, refl)
stop_modules-Handling (m ∷ ms) w =
    stop_modules-Handling ms (record w { handlers = adjust m stop_handler w.handlers })

pub start_modules-Handling :
    (faults : Faults) (ms : List Bytes) (w : World) → Handling w (start_modules faults ms w).0
unfolding start_modules
start_modules-Handling faults [] w = (refl, refl)
start_modules-Handling faults (m ∷ ms) w = elim (Option-cases (find m w.handlers)) [
  | inl e ↦ rw (e, start_modules) (refl, refl)
  | inr (h, e) ↦ elim (Bool-cases h.running) [
    | inl t ↦ rw (e, start_modules) (rw (t, start_modules) (start_modules-Handling faults ms w))
    | inr f ↦ elim (Bool-cases (faults.handler_start m)) [
      | inl t ↦ rw (e, start_modules) (rw (f, start_modules) (rw (t, start_modules) (refl, refl)))
      | inr g ↦
          rw (e, start_modules)
            (rw (f, start_modules)
              (rw (g, start_modules)
                (start_modules-Handling faults ms
                  (record w { handlers = adjust m run_handler w.handlers }))))
    ]
  ]
]

module _ (w0 : World) (added resources : List Bytes) where
  pub stop_modules-Tracks :
      (busy ms : List Bytes) (w : World)
      → All (λ m. among m added ≡ true) ms
      → TracksHandlers w0 (ms ++ busy) added resources w.handlers
      → TracksHandlers w0 busy added resources (stop_modules ms w).handlers
  unfolding stop_modules
  stop_modules-Tracks busy [] w h t = t
  stop_modules-Tracks busy (m ∷ ms) w h t =
      stop_modules-Tracks busy ms (record w { handlers = adjust m stop_handler w.handlers }) h.1
        (TracksHandlers-stop w0 (ms ++ busy) added resources m w.handlers h.0 t)

  pub start_modules-Tracks :
      (faults : Faults) (busy ms : List Bytes) (w : World)
      → All (λ m. (among m added ≡ true) × ((among m resources ≡ true) ⊎ (among m busy ≡ true))) ms
      → TracksHandlers w0 busy added resources w.handlers
      → TracksHandlers w0 busy added resources (start_modules faults ms w).0.handlers
  unfolding start_modules
  start_modules-Tracks faults busy [] w h t = t
  start_modules-Tracks faults busy (m ∷ ms) w h t = elim (Option-cases (find m w.handlers)) [
    | inl e ↦ rw (e, start_modules) t
    | inr (g, e) ↦ elim (Bool-cases g.running) [
      | inl u ↦
          rw (e, start_modules)
            (rw (u, start_modules) (start_modules-Tracks faults busy ms w h.1 t))
      | inr f ↦ elim (Bool-cases (faults.handler_start m)) [
        | inl u ↦ rw (e, start_modules) (rw (f, start_modules) (rw (u, start_modules) t))
        | inr k ↦
            rw (e, start_modules)
              (rw (f, start_modules)
                (rw (k, start_modules)
                  (start_modules-Tracks faults busy ms
                    (record w { handlers = adjust m run_handler w.handlers }) h.1
                    (TracksHandlers-run w0 busy added resources m w.handlers h.0.0 h.0.1 t))))
      ]
    ]
  ]

-- The proxy of a handler that the load added, once its policy's handlers are stopped.
deaf_to :
    (w0 : World) (added resources : List Bytes) (n k : Bytes) (running : Bool) (s : Source)
    → find n w0.handlers ≡ none
    → Calm w0 [] added resources (k, record { running = running; listens = s })
    → (running && same_source s (of_handler n)) ≡ false
unfolding same_source among
deaf_to w0 added resources n k false s e c = refl
deaf_to w0 added resources n k true (of_input i hash) e c = refl
deaf_to w0 added resources n k true (of_handler m) e c = elim (Bool-cases (among k added)) [
  | inl a ↦ elim (Bool-cases (among k resources)) [
    | inl r ↦ absurd (c.1 a r)
    | inr r ↦ absurd (false≢true (c.2 a r refl))
  ]
  | inr a ↦ elim (Bool-cases (same_bytes m n)) [
    | inr f ↦ f
    | inl t ↦
        let (h, g) = c.0 a in
        absurd (cc (e, subst (λ i. find i w0.handlers ≡ some h) (same_bytes_sound m n t) g))
  ]
]

Calm-Deaf :
    (w0 : World) (added resources : List Bytes) (n : Bytes) (x : Bytes × Handler)
    → find n w0.handlers ≡ none
    → Calm w0 [] added resources x
    → Deaf (of_handler n) x
Calm-Deaf w0 added resources n (k, h) e c = deaf_to w0 added resources n k h.running h.listens e c

pub erase_clear :
    {V : Type 0} (n : Bytes) (m : List (Bytes × V))
    → All (λ (e : Bytes × V). same_bytes n e.0 ≡ false) (erase n m)
unfolding erase
erase_clear n [] = tt
erase_clear n ((k, v) ∷ m) = elim (Bool-cases (same_bytes k n)) [
  | inl t ↦ rw (t, erase) (erase_clear n m)
  | inr f ↦ rw (f, erase) (same-flip k n f, erase_clear n m)
]

module _ (w0 : World) (resources : List Bytes) (n : Bytes) (ns : List Bytes) where
  -- A handler of the load is gone.
  gone-Calm :
      (x : Bytes × Handler)
      → same_bytes n x.0 ≡ false
      → Calm w0 [] (n ∷ ns) resources x
      → Calm w0 [] ns resources x
  gone-Calm (k, h) f c =
      let a = among-tail k n ns f in (λ u. c.0 (a ∙ u), λ u r. c.1 (a ∙ u) r, λ u r. c.2 (a ∙ u) r)

  gone_tracks :
      (handlers : List (Bytes × Handler))
      → TracksHandlers w0 [] (n ∷ ns) resources handlers
      → TracksHandlers w0 [] ns resources (erase n handlers)
  gone_tracks handlers t = (
    λ k. elim (Bool-cases (same_bytes n k)) [
      | inr f ↦
          let a = among-tail k n ns f in
          (λ u. (t.0 k).0 (a ∙ u), λ u. find-erase_other n k handlers f ∙ (t.0 k).1 (a ∙ u))
      | inl s ↦
          let i = same_bytes_sound n k s in
          let e = subst (λ m. find m w0.handlers ≡ none) i ((t.0 n).0 (among-head n ns)) in
          (
            λ u. e,
            λ u.
                subst (λ m. find m (erase n handlers) ≡ none) i (find-erase_same n handlers)
                ∙ sym e,
          )
    ],
    All-both (λ (x : Bytes × Handler). same_bytes n x.0 ≡ false) (Calm w0 [] (n ∷ ns) resources)
        (Calm w0 [] ns resources) (erase n handlers) gone-Calm (erase_clear n handlers)
        (erase-All (Calm w0 [] (n ∷ ns) resources) n handlers t.1),
  )

  absent_tracks :
      (handlers : List (Bytes × Handler))
      → find n handlers ≡ none
      → TracksHandlers w0 [] (n ∷ ns) resources handlers
      → TracksHandlers w0 [] ns resources handlers
  absent_tracks handlers e t =
      subst (λ m. TracksHandlers w0 [] ns resources m) (erase_absent n handlers e)
        (gone_tracks handlers t)

  remove_tracks :
      (w : World)
      → TracksHandlers w0 [] (n ∷ ns) resources w.handlers
      → TracksHandlers w0 [] ns resources (remove_handler w n).0.handlers
        × Handling w (remove_handler w n).0
  unfolding remove_handler
  remove_tracks w t = elim (Option-cases (find n w.handlers)) [
    | inl e ↦ rw (e, remove_handler) (absent_tracks w.handlers e t, (refl, refl))
    | inr (h, e) ↦
        rw (e, remove_handler) (rw (idle, remove_handler) (gone_tracks w.handlers t, (refl, refl)))
  ]
    where
      idle : (consumers (of_handler n) w.handlers == 0) ≡ true
      idle =
          ap (λ c. c == 0)
            (consumers-zero (of_handler n) w.handlers (
              All-map (Calm w0 [] (n ∷ ns) resources) (Deaf (of_handler n))
                (λ x. Calm-Deaf w0 (n ∷ ns) resources n x ((t.0 n).0 (among-head n ns))) w.handlers
                t.1))

pub drop_handlers-Tracks :
    (w0 : World) (resources ns : List Bytes) (w : World)
    → TracksHandlers w0 [] ns resources w.handlers
    → TracksHandlers w0 [] [] resources (drop_handlers ns w).handlers
      × Handling w (drop_handlers ns w)
unfolding drop_handlers
drop_handlers-Tracks w0 resources [] w t = (t, (refl, refl))
drop_handlers-Tracks w0 resources (n ∷ ns) w t =
    let r = remove_tracks w0 resources n ns w t in
    let s = drop_handlers-Tracks w0 resources ns (remove_handler w n).0 r.0 in
    (s.0, (s.1.0 ∙ r.1.0, s.1.1 ∙ r.1.1))
