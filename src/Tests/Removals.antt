-- ===== src/Tests/Removals.antt =====
-- The theorem on the removal of a policy, at the world that a load has left.
use pktvisor.Prelude.{
  ◌≡◌, refl, subst, inl, inr, true, none, some, [], ◌∷◌, arith, false≢true, find, length,
}
use pktvisor.Metrics.Utf8.{Bytes}
use pktvisor.Serializer.{same_bytes, bytes_key}
use pktvisor.Modules.{module_exists}
use pktvisor.Policies.{among, Input, Policy, World, of_input, of_handler, without}
use pktvisor.Policies.Removal.{resources_name, remove_policy_by_name}
use pktvisor.Policies.Unload.{Removable, Removed}
use pktvisor.Policies.Unload.Finish.{remove_policy_by_name-Removed}

abbrev name_a : Bytes
name_a = b'a' ∷ []

abbrev name_b : Bytes
name_b = b'b' ∷ []

abbrev name_q : Bytes
name_q = b'q' ∷ []

abbrev handler_h : Bytes
handler_h = b'h' ∷ []

abbrev handler_x : Bytes
handler_x = b'x' ∷ []

abbrev handler_y : Bytes
handler_y = b'y' ∷ []

abbrev handler_z : Bytes
handler_z = b'z' ∷ []

abbrev leaving : Policy
leaving = record {
  id = 2;
  inputs = name_b ∷ name_a ∷ [];
  modules = handler_x ∷ handler_y ∷ handler_z ∷ [];
  running = true;
}

abbrev input_b : Input
input_b = record { running = true; attached = 2 ∷ 3 ∷ []; proxies = [] ∷ [] }

-- One input that another policy is on, and one with a resources policy.
abbrev loaded : World
loaded = record {
  inputs =
      (name_a, record { running = true; attached = 1 ∷ 2 ∷ []; proxies = [] ∷ (b'f' ∷ []) ∷ [] })
      ∷ (name_b, input_b)
      ∷ [];
  handlers =
      (handler_h, record { running = true; listens = of_input name_a [] })
      ∷ (handler_x, record { running = true; listens = of_input name_a (b'f' ∷ []) })
      ∷ (handler_y, record { running = true; listens = of_handler handler_x })
      ∷ (handler_z, record { running = true; listens = of_input name_b [] })
      ∷ (resources_name name_b, record { running = true; listens = of_input name_b [] })
      ∷ [];
  policies =
      (b'p' ∷ [], record { id = 1; inputs = name_a ∷ []; modules = handler_h ∷ []; running = true })
      ∷ (
        resources_name name_b,
        record {
          id = 3;
          inputs = name_b ∷ [];
          modules = resources_name name_b ∷ [];
          running = true;
        },
      )
      ∷ (name_q, leaving)
      ∷ [];
}

removable : Removable name_q leaving loaded
unfolding find same_bytes among without module_exists
removable = (
  refl,
  refl,
  (refl, (refl, tt)),
  (refl, (refl, (refl, tt))),
  ((_, refl), ((_, refl), ((_, refl), tt))),
  (
    (refl, (input_b, refl, omega arith), λ l. (3, refl, (λ i e. counted i e), (_, refl), refl)),
    ((refl, (_, refl, omega arith), λ l. absurd (false≢true l)), tt),
  ),
  (
    inr (λ a f. absurd (false≢true f)),
    (inl refl, (inl refl, (inl refl, (inr (λ a f. (refl, refl)), tt)))),
  ),
)
  where
    counted : (i : Input) → some input_b ≡ some i → length (without 3 (without 2 i.attached)) ≡ 0
    counted i e =
        let s : input_b ≡ i = cc in
        subst (λ (j : Input). length (without 3 (without 2 j.attached)) ≡ 0) s refl

remove_policy_by_name-Removed_example :
    ((remove_policy_by_name name_q loaded).1 ≡ none)
    × Removed name_q leaving loaded (remove_policy_by_name name_q loaded).0
remove_policy_by_name-Removed_example =
    remove_policy_by_name-Removed name_q leaving loaded removable
