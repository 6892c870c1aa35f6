-- ===== src/Policies/Unload/Silence.antt =====
-- The consumers of an input that `PolicyManager::remove_policy` of src/Policies.cpp frees.
use pktvisor.Prelude.{
  ◌≡◌, refl, sym, subst, ap, ◌∙◌, inl, inr, true, false, ◌&&◌, List, [], ◌∷◌, All, All-map,
  Bool-cases, false≢true, erase, erase-All,
}
use pktvisor.Metrics.Utf8.{Bytes}
use pktvisor.Serializer.{same_bytes, same_bytes_sound, same_bytes_refl, bytes_key}
use pktvisor.Policies.{
  among, adjust, Handler, Policy, World, Source, of_input, of_handler, same_source, consumer_count,
  stop_handler,
}
use pktvisor.Policies.Removal.{resources_name}
use pktvisor.Policies.Stores.{All-both, Deaf, consumers-zero}
use pktvisor.Policies.Tracks.Quiet.{erase_clear}
use pktvisor.Policies.Unload.{last_resources, freed, MayHear}
use pktvisor.Policies.Unload.Stopping.{Heard, stop-Heard}
use pktvisor.Policies.Unload.Handlers.{silent}

-- A handler that, if it runs, listens to no proxy of an input.
abbrev pub Silent : Bytes → Bytes × Handler → Type 0
Silent n x = x.1.running ≡ true → (hash : Bytes) → same_source x.1.listens (of_input n hash) ≡ false

consumer_count-Silent :
    (n : Bytes) (hashes : List Bytes) (handlers : List (Bytes × Handler))
    → All (Silent n) handlers
    → consumer_count handlers n hashes ≡ 0
unfolding consumer_count
consumer_count-Silent n [] handlers h = refl
consumer_count-Silent n (hash ∷ []) handlers h = consumers-zero (of_input n hash) handlers (
    All-map (Silent n) (Deaf (of_input n hash))
      (λ (x : Bytes × Handler) (f : Silent n x). silent (of_input n hash) x (λ u. f u hash))
      handlers h)
consumer_count-Silent n (hash ∷ next ∷ hashes) handlers h =
    consumer_count-Silent n (next ∷ hashes) handlers h

unheard_input :
    (may : Bytes → Source → Type 0) (n k : Bytes) (s : Source)
    → ((hash : Bytes) → may k (of_input n hash) → ⊥)
    → may k s
    → (hash : Bytes) → same_source s (of_input n hash) ≡ false
unfolding same_source
unheard_input may n k (of_handler m) apart c hash = refl
unheard_input may n k (of_input m q) apart c hash = elim (Bool-cases (same_bytes m n)) [
  | inr f ↦ ap (λ b. b && same_bytes q hash) f
  | inl t ↦ absurd (apart q (subst (λ i. may k (of_input i q)) (same_bytes_sound m n t) c))
]

module _ (p : Policy) (w0 : World) (n : Bytes) (here : among n p.inputs ≡ true)
    (goes : freed p w0 n ≡ true) (handlers : List (Bytes × Handler))
    (heard : All (Heard (MayHear p w0)) handlers) where
  pub idle-plain :
      (hashes : List Bytes) → last_resources p w0 n ≡ false → consumer_count handlers n hashes ≡ 0
  idle-plain hashes f = consumer_count-Silent n hashes handlers (
      All-map (Heard (MayHear p w0)) (Silent n)
        (λ (x : Bytes × Handler) (c : Heard (MayHear p w0) x) u hash.
          unheard_input (MayHear p w0) n x.0 x.1.listens
            (λ q may. false≢true (sym f ∙ (may here goes).0)) (c u) hash)
        handlers heard)

  pub idle-with_resources :
      (hashes : List Bytes)
      → consumer_count
          (erase (resources_name n) (adjust (resources_name n) stop_handler handlers))
          n
          hashes
        ≡ 0
  idle-with_resources hashes =
      let stopped = adjust (resources_name n) stop_handler handlers in
      consumer_count-Silent n hashes (erase (resources_name n) stopped) (
        All-both (λ (x : Bytes × Handler). same_bytes (resources_name n) x.0 ≡ false)
          (Heard (MayHear p w0)) (Silent n) (erase (resources_name n) stopped)
          (λ (x : Bytes × Handler) f (c : Heard (MayHear p w0) x) u hash.
            unheard_input (MayHear p w0) n x.0 x.1.listens
              (λ q may. false≢true (
                sym f
                ∙ subst (λ k. same_bytes k x.0 ≡ true) (may here goes).1 (same_bytes_refl x.0)))
              (c u) hash)
          (erase_clear (resources_name n) stopped)
          (erase-All (Heard (MayHear p w0)) (resources_name n) stopped
            (stop-Heard (MayHear p w0) (resources_name n) handlers heard)))
