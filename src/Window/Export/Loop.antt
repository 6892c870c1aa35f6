-- ===== src/Window/Export/Loop.antt =====
-- One run of the export loop of `window_closed_opentelemetry` in src/AbstractMetricsManager.h.
pub mod Progress
use pktvisor.Prelude.{
  ℕ, ◌+◌, ◌≤◌, ◌<◌, ◌≡◌, refl, Bool, true, false, ◌||◌, ◌⊎◌, inl, inr, Option, none, some, List, [],
  ◌∷◌, ◌++◌, map, arith, All, All-append, ◌==◌, ltb, if◌then◌else◌, Bool-cases,
}
use pktvisor.Metrics.Counter.{Timespec}
use pktvisor.Window.Bucket.{Bucket}
use pktvisor.Window.Manager.{Manager, groups_none}
use pktvisor.Window.Export.{Export, LabelMap, starts_after, bucket_opentelemetry, export_loop}

module _ {S K : Type 0} where
  -- The seconds of the starts that were exported, in the order of the export.
  abbrev pub sent_secs : List (Export S K) → List ℕ
  sent_secs scope = map (λ e. e.start_ts.tv_sec) scope

abbrev pub is_sent : ℕ → List ℕ → Bool
is_sent s [] = false
is_sent s (x ∷ xs) = s == x || is_sent s xs

abbrev pub Ascending : List ℕ → Type 0
Ascending [] = Unit
Ascending (x ∷ xs) = All (λ y. x < y) xs × Ascending xs

-- A start before or at the cursor, one after it, and a bound on the cursor.
abbrev pub Past : Option Timespec → Timespec → Type 0
Past none t = ⊥
Past (some u) t = (t.tv_sec < u.tv_sec) ⊎ (t ≡ u)

abbrev pub Ahead : Option Timespec → Timespec → Type 0
Ahead none t = Unit
Ahead (some u) t = u.tv_sec < t.tv_sec

abbrev pub Below : ℕ → Option Timespec → Type 0
Below hi none = Unit
Below hi (some u) = u.tv_sec < hi

abbrev pub Reached : Option Timespec → ℕ → Type 0
Reached none s = ⊥
Reached (some u) s = s ≤ u.tv_sec

abbrev pub cursor : Option Timespec → Option Timespec → Option Timespec
cursor last none = last
cursor last (some u) = some u

pub Ascending-snoc :
    (y : ℕ) (xs : List ℕ) → Ascending xs → All (λ x. x < y) xs → Ascending (xs ++ y ∷ [])
Ascending-snoc y [] a h = (tt, tt)
Ascending-snoc y (x ∷ xs) a h =
    (All-append (λ z. x < z) xs (y ∷ []) a.0 (h.0, tt), Ascending-snoc y xs a.1 h.1)

pub is_sent-append : (s : ℕ) (xs ys : List ℕ) → is_sent s xs ≡ true → is_sent s (xs ++ ys) ≡ true
is_sent-append s [] ys h = cc
is_sent-append s (x ∷ xs) ys h = ground (arith, is_sent-append s xs ys)

pub is_sent-snoc : (s : ℕ) (xs : List ℕ) → is_sent s (xs ++ s ∷ []) ≡ true
is_sent-snoc s [] = ground arith
is_sent-snoc s (x ∷ xs) = ground (arith, is_sent-snoc s xs)

pub Reached-lt :
    (c : Option Timespec) (t : Timespec) (xs : List ℕ)
    → Ahead c t
    → All (Reached c) xs
    → All (λ s. s < t.tv_sec) xs
Reached-lt c t [] a h = tt
Reached-lt none t (x ∷ xs) a h = absurd h.0
Reached-lt (some u) t (x ∷ xs) a h = (omega arith, Reached-lt (some u) t xs a h.1)

pub Reached-mono :
    (t : Timespec) (xs : List ℕ) → All (λ s. s < t.tv_sec) xs → All (Reached (some t)) xs
Reached-mono t [] h = tt
Reached-mono t (x ∷ xs) h = (omega arith, Reached-mono t xs h.1)

pub starts_after-Ahead : (c : Option Timespec) (t : Timespec) → Ahead c t → starts_after t c ≡ true
unfolding starts_after
starts_after-Ahead none t a = refl
starts_after-Ahead (some u) t a = ground arith

pub starts_after-Past : (c : Option Timespec) (t : Timespec) → Past c t → starts_after t c ≡ false
unfolding starts_after
starts_after-Past none t p = absurd p
starts_after-Past (some u) t (inl p) = ground arith
starts_after-Past (some u) t (inr p) = rw p (ground arith)

-- A cursor that moves forward leaves behind what was behind it.
pub Past-forward : (c : Option Timespec) (u t : Timespec) → Ahead c u → Past c t → Past (some u) t
Past-forward none u t a p = absurd p
Past-forward (some v) u t a (inl p) = inl (omega arith)
Past-forward (some v) u t a (inr p) = inl (rw p a)

pub Below-Ahead :
    (last newest : Option Timespec) (lo : ℕ) (t : Timespec)
    → Ahead last t
    → Below lo newest
    → lo ≤ t.tv_sec
    → Ahead (cursor last newest) t
Below-Ahead last none lo t a b l = a
Below-Ahead last (some u) lo t a b l = omega arith

pub Below-mono : (c : Option Timespec) (lo hi : ℕ) → lo ≤ hi → Below lo c → Below hi c
Below-mono none lo hi l b = tt
Below-mono (some u) lo hi l b = omega arith
