-- ===== src/Policies/Unload/Handlers.antt =====
-- The handlers of a policy that `PolicyManager::remove_policy` of src/Policies.cpp removes, once the
-- policy is stopped.
use pktvisor.Prelude.{
  ◌≡◌, refl, subst, ap, ◌∙◌, inl, inr, true, false, ◌&&◌, none, List, [], ◌∷◌, ◌==◌, All, All-map,
  Bool-cases, false≢true, find, erase, find-erase_same, find-erase_other, erase-All, same-flip,
}
use pktvisor.Metrics.Utf8.{Bytes}
use pktvisor.Serializer.{same_bytes, same_bytes_sound, bytes_key}
use pktvisor.Policies.{
  among, Handler, World, Source, of_input, of_handler, same_source, remove_handler,
}
use pktvisor.Policies.Removal.{remove_handlers}
use pktvisor.Policies.Stores.{All-both, Deaf, consumers-zero}
use pktvisor.Policies.Tracks.{Distinct}
use pktvisor.Policies.Unload.Stopping.{IsHeld, Heard}

abbrev pub erase_all : List Bytes → List (Bytes × Handler) → List (Bytes × Handler)
erase_all [] handlers = handlers
erase_all (m ∷ ms) handlers = erase_all ms (erase m handlers)

pub erase_all_other :
    (k : Bytes) (ms : List Bytes) (handlers : List (Bytes × Handler))
    → among k ms ≡ false
    → find k (erase_all ms handlers) ≡ find k handlers
unfolding among
erase_all_other k [] handlers a = refl
erase_all_other k (m ∷ ms) handlers a = elim (Bool-cases (same_bytes m k)) [
  | inl t ↦ absurd (cc (rw (t, among) at a))
  | inr f ↦
      erase_all_other k ms (erase m handlers) (rw (f, among) at a) ∙ find-erase_other m k handlers f
]

absent-erase_all :
    (k : Bytes) (ms : List Bytes) (handlers : List (Bytes × Handler))
    → find k handlers ≡ none
    → find k (erase_all ms handlers) ≡ none
absent-erase_all k [] handlers e = e
absent-erase_all k (m ∷ ms) handlers e =
    absent-erase_all k ms (erase m handlers) (elim (Bool-cases (same_bytes m k)) [
      | inl t ↦
          subst (λ j. find j (erase m handlers) ≡ none) (same_bytes_sound m k t)
            (find-erase_same m handlers)
      | inr f ↦ find-erase_other m k handlers f ∙ e
    ])

pub erase_all_in :
    (k : Bytes) (ms : List Bytes) (handlers : List (Bytes × Handler))
    → among k ms ≡ true
    → find k (erase_all ms handlers) ≡ none
unfolding among
erase_all_in k [] handlers a = absurd (false≢true a)
erase_all_in k (m ∷ ms) handlers a = elim (Bool-cases (same_bytes m k)) [
  | inl t ↦ absent-erase_all k ms (erase m handlers) (
      subst (λ j. find j (erase m handlers) ≡ none) (same_bytes_sound m k t)
        (find-erase_same m handlers))
  | inr f ↦ erase_all_in k ms (erase m handlers) (rw (f, among) at a)
]

pub erase_all-All :
    (P : Bytes × Handler → Type 0) (ms : List Bytes) (handlers : List (Bytes × Handler))
    → All P handlers
    → All P (erase_all ms handlers)
erase_all-All P [] handlers h = h
erase_all-All P (m ∷ ms) handlers h =
    erase_all-All P ms (erase m handlers) (erase-All P m handlers h)

-- A handler that does not run, or listens elsewhere, is no consumer.
pub silent :
    (source : Source) (x : Bytes × Handler)
    → (x.1.running ≡ true → same_source x.1.listens source ≡ false)
    → Deaf source x
silent source (k, h) f = elim (Bool-cases h.running) [
  | inl t ↦ ap (λ b. b && same_source h.listens source) t ∙ f t
  | inr g ↦ ap (λ b. b && same_source h.listens source) g
]

away : (m : Bytes) (ms : List Bytes) → among m ms ≡ false → All (λ k. same_bytes m k ≡ false) ms
unfolding among
away m [] a = tt
away m (k ∷ ms) a = elim (Bool-cases (same_bytes k m)) [
  | inl t ↦ absurd (cc (rw (t, among) at a))
  | inr f ↦ (same-flip k m f, away m ms (rw (f, among) at a))
]

module _ (may : Bytes → Source → Type 0) where
  unheard :
      (m k : Bytes) (s : Source)
      → (may k (of_handler m) → ⊥)
      → may k s
      → same_source s (of_handler m) ≡ false
  unfolding same_source
  unheard m k (of_input n hash) apart c = refl
  unheard m k (of_handler j) apart c = elim (Bool-cases (same_bytes j m)) [
    | inr f ↦ f
    | inl t ↦ absurd (apart (subst (λ i. may k (of_handler i)) (same_bytes_sound j m t) c))
  ]

  pub remove_handler-erase :
      (m : Bytes) (w : World)
      → ((k : Bytes) → may k (of_handler m) → ⊥)
      → All (Heard may) w.handlers
      → IsHeld m w.handlers
      → remove_handler w m ≡ (record w { handlers = erase m w.handlers }, none)
  unfolding remove_handler
  remove_handler-erase m w apart heard (h, e) =
      let idle =
        ap (λ c. c == 0)
          (consumers-zero (of_handler m) w.handlers (
            All-map (Heard may) (Deaf (of_handler m))
              (λ (x : Bytes × Handler) (c : Heard may x).
                silent (of_handler m) x (λ u. unheard m x.0 x.1.listens (apart x.0) (c u)))
              w.handlers heard)) in
      rw (e, remove_handler) (rw idle refl)

  pub remove_handlers-erase :
      (ms : List Bytes) (w : World)
      → Distinct ms
      → All (λ m. (k : Bytes) → may k (of_handler m) → ⊥) ms
      → All (λ m. IsHeld m w.handlers) ms
      → All (Heard may) w.handlers
      → remove_handlers ms w ≡ (record w { handlers = erase_all ms w.handlers }, none)
  unfolding remove_handlers
  remove_handlers-erase [] w d apart held heard = refl
  remove_handlers-erase (m ∷ ms) w d apart held heard =
      let one = remove_handler-erase m w apart.0 heard held.0 in
      rw (one, remove_handlers)
        (rw one (
          remove_handlers-erase ms (record w { handlers = erase m w.handlers }) d.1 apart.1
            (All-both (λ k. same_bytes m k ≡ false) (λ k. IsHeld k w.handlers)
              (λ k. IsHeld k (erase m w.handlers)) ms
              (λ k f h. (h.0, find-erase_other m k w.handlers f ∙ h.1)) (away m ms d.0) held.1)
            (erase-All (Heard may) m w.handlers heard)))
