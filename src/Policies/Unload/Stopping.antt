-- ===== src/Policies/Unload/Stopping.antt =====
-- `Policy::stop` of src/Policies.cpp, name by name: what the inputs of the policy and its handlers
-- become.
use pktvisor.Prelude.{
  ℕ, ◌≡◌, refl, sym, subst, ap, ◌∙◌, ◌⊎◌, inl, inr, true, false, Option, none, some, List, [], ◌∷◌,
  All, All-map, Bool-cases, false≢true, find, same-flip,
}
use mathlib.Core.Option
use pktvisor.Metrics.Utf8.{Bytes}
use pktvisor.Serializer.{same_bytes, same_bytes_sound, bytes_key}
use pktvisor.Policies.{
  among, adjust, Handler, World, Source, leave, leave_inputs, stop_handler, stop_modules,
}
use pktvisor.Policies.Stores.{
  among-tail, find-adjust_same, find-adjust-none, find-adjust_other, All-adjust,
}
use pktvisor.Policies.Tracks.{Distinct}

pub find-adjust-map :
    {V : Type 0} (n : Bytes) (f : V → V) (m : List (Bytes × V))
    → find n (adjust n f m) ≡ Option.map f (find n m)
find-adjust-map {V} n f m = go (find n m) refl
  where
    go : (o : Option V) → find n m ≡ o → find n (adjust n f m) ≡ Option.map f (find n m)
    go none e = find-adjust-none n f m e ∙ sym (ap (Option.map f) e)
    go (some v) e = find-adjust_same n f m v e ∙ sym (ap (Option.map f) e)

pub leave_inputs_other :
    (id : ℕ) (k : Bytes) (ns : List Bytes) (w : World)
    → among k ns ≡ false
    → find k (leave_inputs id ns w).inputs ≡ find k w.inputs
unfolding leave_inputs among
leave_inputs_other id k [] w a = refl
leave_inputs_other id k (n ∷ ns) w a = elim (Bool-cases (same_bytes n k)) [
  | inl t ↦ absurd (cc (rw (t, among) at a))
  | inr f ↦
      leave_inputs_other id k ns (record w { inputs = adjust n (leave id) w.inputs })
        (rw (f, among) at a)
      ∙ find-adjust_other n (leave id) k w.inputs f
]

pub leave_inputs_in :
    (id : ℕ) (k : Bytes) (ns : List Bytes) (w : World)
    → Distinct ns
    → among k ns ≡ true
    → find k (leave_inputs id ns w).inputs ≡ Option.map (leave id) (find k w.inputs)
unfolding leave_inputs among
leave_inputs_in id k [] w d a = absurd (false≢true a)
leave_inputs_in id k (n ∷ ns) w d a = elim (Bool-cases (same_bytes n k)) [
  | inl t ↦
      subst (λ m. find m (leave_inputs id ns left).inputs ≡ Option.map (leave id) (find m w.inputs))
        (same_bytes_sound n k t)
        (leave_inputs_other id n ns left d.0 ∙ find-adjust-map n (leave id) w.inputs)
  | inr f ↦
      leave_inputs_in id k ns left d.1 (rw (f, among) at a)
      ∙ ap (Option.map (leave id)) (find-adjust_other n (leave id) k w.inputs f)
]
  where
    left : World
    left = record w { inputs = adjust n (leave id) w.inputs }

pub stop_modules_other :
    (k : Bytes) (ms : List Bytes) (w : World)
    → among k ms ≡ false
    → find k (stop_modules ms w).handlers ≡ find k w.handlers
unfolding stop_modules among
stop_modules_other k [] w a = refl
stop_modules_other k (m ∷ ms) w a = elim (Bool-cases (same_bytes m k)) [
  | inl t ↦ absurd (cc (rw (t, among) at a))
  | inr f ↦
      stop_modules_other k ms (record w { handlers = adjust m stop_handler w.handlers })
        (rw (f, among) at a)
      ∙ find-adjust_other m stop_handler k w.handlers f
]

abbrev pub IsHeld : Bytes → List (Bytes × Handler) → Type 0
IsHeld m handlers = (h : Handler) × (find m handlers ≡ some h)

pub adjust-IsHeld :
    (k m : Bytes) (handlers : List (Bytes × Handler))
    → IsHeld k handlers
    → IsHeld k (adjust m stop_handler handlers)
adjust-IsHeld k m handlers (h, e) = elim (Bool-cases (same_bytes m k)) [
  | inl t ↦
      subst (λ j. IsHeld j (adjust m stop_handler handlers)) (same_bytes_sound m k t)
        (
          stop_handler h,
          find-adjust_same m stop_handler handlers h
              (subst (λ j. find j handlers ≡ some h) (sym (same_bytes_sound m k t)) e),
        )
  | inr f ↦ (h, find-adjust_other m stop_handler k handlers f ∙ e)
]

pub stop_modules-IsHeld :
    (k : Bytes) (ms : List Bytes) (w : World)
    → IsHeld k w.handlers
    → IsHeld k (stop_modules ms w).handlers
unfolding stop_modules
stop_modules-IsHeld k [] w h = h
stop_modules-IsHeld k (m ∷ ms) w h =
    stop_modules-IsHeld k ms (record w { handlers = adjust m stop_handler w.handlers })
      (adjust-IsHeld k m w.handlers h)

-- A handler that runs hears a source that it may.
abbrev pub Heard : (Bytes → Source → Type 0) → Bytes × Handler → Type 0
Heard may (k, h) = h.running ≡ true → may k h.listens

abbrev pub Busy : (Bytes → Source → Type 0) → List Bytes → Bytes × Handler → Type 0
Busy may ms (k, h) = h.running ≡ true → (among k ms ≡ true) ⊎ may k h.listens

module _ (may : Bytes → Source → Type 0) where
  pub stop-Heard :
      (n : Bytes) (handlers : List (Bytes × Handler))
      → All (Heard may) handlers
      → All (Heard may) (adjust n stop_handler handlers)
  stop-Heard n handlers h =
      All-adjust n stop_handler (Heard may) (Heard may) handlers (λ v c u. absurd (false≢true u))
        (λ k v f c. c) h

  pub stop_modules-Heard :
      (ms : List Bytes) (w : World)
      → All (Busy may ms) w.handlers
      → All (Heard may) (stop_modules ms w).handlers
  unfolding stop_modules among
  stop_modules-Heard [] w h = All-map (Busy may []) (Heard may) free w.handlers h
    where
      free : (x : Bytes × Handler) → Busy may [] x → Heard may x
      free x b u = elim (b u) [ inl a ↦ absurd (false≢true a) | inr c ↦ c ]
  stop_modules-Heard (m ∷ ms) w h =
      stop_modules-Heard ms (record w { handlers = adjust m stop_handler w.handlers })
        (All-adjust m stop_handler (Busy may (m ∷ ms)) (Busy may ms) w.handlers
          (λ v c u. absurd (false≢true u)) other h)
    where
      other :
          (k : Bytes) (v : Handler)
          → same_bytes k m ≡ false
          → Busy may (m ∷ ms) (k, v)
          → Busy may ms (k, v)
      other k v f b u = elim (b u) [
        | inl a ↦ inl (sym (among-tail k m ms (same-flip k m f)) ∙ a)
        | inr c ↦ inr c
      ]
