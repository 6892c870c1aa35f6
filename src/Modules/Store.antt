-- ===== src/Modules/Store.antt =====
-- What the store of src/AbstractManager.h holds after any calls.
use pktvisor.Prelude.{
  ◌≡◌, refl, sym, subst, ◌∙◌, true, false, Option, none, some, List, [], ◌∷◌, ◌++◌, inl, inr, ◌⊎◌,
  if◌then◌else◌, Bool-cases, Key, find, erase, find-erase_same, find-erase_other,
}
use pktvisor.Modules.{module_add, module_remove}

pub data ModuleCall (N M : Type 0) : Type 0 where
  adds : M → ModuleCall N M
  removes : N → ModuleCall N M

module _ {N M : Type 0} ⦃key : Key N⦄ (name_of : M → N) where
  unfoldable pub module_run : List (N × M) → List (ModuleCall N M) → List (N × M)
  module_run modules [] = modules
  module_run modules (adds m ∷ cs) = module_run (module_add name_of modules m).0 cs
  module_run modules (removes name ∷ cs) = module_run (module_remove modules name).0 cs

  -- The module that a name has after the calls, if it had `held`: the first that was added since
  -- the name was last removed.
  abbrev pub owner : N → Option M → List (ModuleCall N M) → Option M
  owner name held [] = held
  owner name none (adds m ∷ cs) = owner name (if key.same (name_of m) name then some m else none) cs
  owner name (some old) (adds m ∷ cs) = owner name (some old) cs
  owner name held (removes other ∷ cs) = owner name (if key.same other name then none else held) cs

  pub find-snoc :
      (name other : N) (m : M) (modules : List (N × M))
      → find name modules ≡ none
      → find name (modules ++ (other, m) ∷ []) ≡ (if key.same other name then some m else none)
  unfolding find
  find-snoc name other m [] h = refl
  find-snoc name other m ((k, x) ∷ rest) h = elim (Bool-cases (key.same k name)) [
    | inl t ↦ absurd (cc (rw (t, find) at h))
    | inr f ↦ rw (f, find) (find-snoc name other m rest (rw (f, find) at h))
  ]

  pub find-snoc_held :
      (name other : N) (m x : M) (modules : List (N × M))
      → find name modules ≡ some x
      → find name (modules ++ (other, m) ∷ []) ≡ some x
  unfolding find
  find-snoc_held name other m x [] h = cc
  find-snoc_held name other m x ((k, y) ∷ rest) h = elim (Bool-cases (key.same k name)) [
    | inl t ↦ rw (t, find) (rw (t, find) at h)
    | inr f ↦ rw (f, find) (find-snoc_held name other m x rest (rw (f, find) at h))
  ]

  -- What an added module makes of what a name had.
  abbrev added : N → Option M → M → Option M
  added name none m = if key.same (name_of m) name then some m else none
  added name (some old) m = some old

  other_name :
      (name : N) (modules : List (N × M)) (m y : M)
      → find (name_of m) modules ≡ some y
      → find name modules ≡ none
      → (if key.same (name_of m) name then some m else none) ≡ none
  other_name name modules m y e h = elim (Bool-cases (key.same (name_of m) name)) [
    | inr f ↦ rw f refl
    | inl t ↦
        absurd (cc (h, subst (λ n. find n modules ≡ some y) (key.same_sound (name_of m) name t) e))
  ]

  owner_add :
      (name : N) (held : Option M) (m : M) (cs : List (ModuleCall N M))
      → owner name (added name held m) cs ≡ owner name held (adds m ∷ cs)
  owner_add name none m cs = refl
  owner_add name (some old) m cs = refl

  find-module_add :
      (name : N) (modules : List (N × M)) (m : M)
      → find name (module_add name_of modules m).0 ≡ added name (find name modules) m
  unfolding module_add
  find-module_add name modules m = go (find (name_of m) modules) refl (find name modules) refl
    where
      go :
          (o : Option M)
          → find (name_of m) modules ≡ o
          → (held : Option M) → find name modules ≡ held
          → find name (module_add name_of modules m).0 ≡ added name held m
      go none e none h = rw (e, module_add) (find-snoc name (name_of m) m modules h)
      go none e (some x) h = rw (e, module_add) (find-snoc_held name (name_of m) m x modules h)
      go (some y) e (some x) h = rw (e, module_add) h
      go (some y) e none h = rw (e, module_add) (h ∙ sym (other_name name modules m y e h))

  find-module_remove :
      (name other : N) (modules : List (N × M))
      → find name (module_remove modules other).0
        ≡ (if key.same other name then none else find name modules)
  unfolding module_remove
  find-module_remove name other modules =
      go (find other modules) refl (Bool-cases (key.same other name))
    where
      go :
          (o : Option M)
          → find other modules ≡ o
          → (key.same other name ≡ true) ⊎ (key.same other name ≡ false)
          → find name (module_remove modules other).0
            ≡ (if key.same other name then none else find name modules)
      go none e (inl t) =
          rw (e, module_remove)
            (rw t (subst (λ n. find n modules ≡ none) (key.same_sound other name t) e))
      go none e (inr f) = rw (e, module_remove) (rw f refl)
      go (some x) e (inl t) =
          rw (e, module_remove)
            (rw t (
              subst (λ n. find n (erase other modules) ≡ none) (key.same_sound other name t)
                (find-erase_same other modules)))
      go (some x) e (inr f) = rw (e, module_remove) (rw f (find-erase_other other name modules f))

  -- Whatever modules are added and removed, a name has the first module that was added since it was
  -- last removed: an add of a name in use and a remove of a name not in use change nothing, and no
  -- call changes what another name has.
  pub find-module_run :
      (name : N) (modules : List (N × M)) (cs : List (ModuleCall N M))
      → find name (module_run modules cs) ≡ owner name (find name modules) cs
  unfolding module_run
  find-module_run name modules [] = refl
  find-module_run name modules (adds m ∷ cs) =
      find-module_run name (module_add name_of modules m).0 cs
      ∙ rw (find-module_add name modules m) (owner_add name (find name modules) m cs)
  find-module_run name modules (removes other ∷ cs) =
      find-module_run name (module_remove modules other).0 cs
      ∙ rw (find-module_remove name other modules) refl
