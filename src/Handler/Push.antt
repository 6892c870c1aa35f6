-- ===== src/Handler/Push.antt =====
-- The push of a handler of src/StreamHandler.h: when it is due, and what throws.
use pktvisor.Prelude.{
  ℕ, ◌+◌, ◌-◌, ◌≤◌, inl, inr, Option, none, some, List, [], ◌∷◌, arith, Bool-cases, if◌then◌else◌,
  ltb,
}
use pktvisor.Window.Bucket.{Bucket}
use pktvisor.Window.Manager.{Manager}
use pktvisor.Window.Export.{Export}
use pktvisor.Handler.{Handler, push_interval, live_window_due}

-- The checks at the given times that find the live window due, from what `last_live` holds.
unfoldable pub due_times : Option ℕ → List ℕ → List ℕ
unfolding live_window_due
due_times last [] = []
due_times last (now ∷ ts) =
    let (due, last') = live_window_due last now in
    let rest = due_times last' ts in if due then now ∷ rest else rest

abbrev pub Gap : Option ℕ → ℕ → Type 0
Gap none x = Unit
Gap (some last) x = last + push_interval ≤ x

abbrev pub Spaced : Option ℕ → List ℕ → Type 0
Spaced last [] = Unit
Spaced last (x ∷ xs) = Gap last x × Spaced (some x) xs

-- However often and whenever the exporter checks, two pushes of a window that never closes are at
-- least one window length apart.
pub due_times-Spaced : (last : Option ℕ) (ts : List ℕ) → Spaced last (due_times last ts)
unfolding due_times
due_times-Spaced last [] = tt
due_times-Spaced none (now ∷ ts) = (tt, due_times-Spaced (some now) ts)
due_times-Spaced (some last) (now ∷ ts) = elim (Bool-cases (ltb (now - last) push_interval)) [
  | inl soon ↦ rw (soon, due_times) (due_times-Spaced (some last) ts)
  | inr due ↦ rw (due, due_times) (ground arith, due_times-Spaced (some now) ts)
]
