-- ===== src/Window/Export/Loop/Progress.antt =====
-- The loop invariant of `window_closed_opentelemetry` in src/AbstractMetricsManager.h.
use mathlib.Core.List.{map-append}
use pktvisor.Prelude.{
  ℕ, ◌+◌, ◌≤◌, ◌<◌, ◌≡◌, refl, sym, subst, Bool, true, false, ◌⊎◌, inl, inr, Option, some, List, [],
  ◌∷◌, ◌++◌, arith, All, All-append, if◌then◌else◌,
}
use pktvisor.Metrics.Counter.{Timespec}
use pktvisor.Window.Bucket.{Bucket}
use pktvisor.Window.Manager.{Manager, groups_none}
use pktvisor.Window.Export.{Export, LabelMap, starts_after, bucket_opentelemetry, export_loop}
use pktvisor.Window.Export.Loop.{
  sent_secs, is_sent, Ascending, Past, Ahead, Below, Reached, cursor, Ascending-snoc,
  is_sent-append, is_sent-snoc, Reached-lt, Reached-mono, starts_after-Ahead, starts_after-Past,
  Past-forward, Below-Ahead, Below-mono,
}

module _ {S K : Type 0} where
  -- A bucket whose window is before the cursor has been sent; any other one is after the cursor.
  abbrev pub Done : Option Timespec → List (Export S K) → Bucket S K → Type 0
  Done c scope b = Past c b.start_tstamp × (is_sent b.start_tstamp.tv_sec (sent_secs scope) ≡ true)

  abbrev pub Status : Option Timespec → List (Export S K) → Bucket S K → Type 0
  Status c scope b = Ahead c b.start_tstamp ⊎ Done c scope b

  -- The buckets start one after another, from `lo` on and below `hi`.
  abbrev pub Rising : ℕ → ℕ → List (Bucket S K) → Type 0
  Rising lo hi [] = Unit
  Rising lo hi (b ∷ bs) =
      (lo ≤ b.start_tstamp.tv_sec)
      × (b.start_tstamp.tv_sec < hi)
      × Rising (b.start_tstamp.tv_sec + 1) hi bs

  pub record Progress (last : Option Timespec) (lo : ℕ) (scope : List (Export S K))
      (newest : Option Timespec) (done : List (Bucket S K)) : Type 0 where
    pub ascending : Ascending (sent_secs scope)
    pub reached : All (Reached (cursor last newest)) (sent_secs scope)
    pub below : Below lo newest
    pub finished : All (Done (cursor last newest) scope) done
    pub forward : (t : Timespec) → Past last t → Past (cursor last newest) t

  -- The scope only grows.
  abbrev pub Grown : List (Export S K) → List (Export S K) → Type 0
  Grown scope scope' =
      (s : ℕ) → is_sent s (sent_secs scope) ≡ true → is_sent s (sent_secs scope') ≡ true

  module _ (scope scope' : List (Export S K)) (grown : Grown scope scope') where
    Done-forward :
        (c c' : Option Timespec) (bs : List (Bucket S K))
        → ((t : Timespec) → Past c t → Past c' t)
        → All (Done c scope) bs
        → All (Done c' scope') bs
    Done-forward c c' [] f h = tt
    Done-forward c c' (b ∷ bs) f h = ((f _ h.0.0, grown _ h.0.1), Done-forward c c' bs f h.1)

    Status-grown :
        (c : Option Timespec) (bs : List (Bucket S K))
        → All (Status c scope) bs
        → All (Status c scope') bs
    Status-grown c [] h = tt
    Status-grown c (b ∷ bs) h = (one h.0, Status-grown c bs h.1)
      where
        one : Status c scope b → Status c scope' b
        one (inl a) = inl a
        one (inr d) = inr (d.0, grown _ d.1)

  sent_secs-export :
      (m : Manager S K) (now : Timespec) (scope : List (Export S K)) (b : Bucket S K)
      (labels : LabelMap)
      → groups_none m.groups ≡ false
      → sent_secs (bucket_opentelemetry m now scope b labels)
        ≡ sent_secs scope ++ b.start_tstamp.tv_sec ∷ []
  unfolding bucket_opentelemetry
  sent_secs-export m now scope b labels h =
      rw (h, bucket_opentelemetry) (map-append (λ e. e.start_ts.tv_sec) scope _)

module _ {S K : Type 0} (m : Manager S K) (now : Timespec) (labels : LabelMap)
    (last : Option Timespec) (shown : groups_none m.groups ≡ false) where
  abbrev exported : List (Export S K) → Bucket S K → List (Export S K)
  exported scope b = bucket_opentelemetry m now scope b labels

  exported-Grown : (scope : List (Export S K)) (b : Bucket S K) → Grown scope (exported scope b)
  exported-Grown scope b s h =
      rw (sent_secs-export m now scope b labels shown)
        (is_sent-append s (sent_secs scope) (b.start_tstamp.tv_sec ∷ []) h)

  export-Progress :
      (lo : ℕ) (scope : List (Export S K)) (newest : Option Timespec) (done : List (Bucket S K))
      (b : Bucket S K)
      → lo ≤ b.start_tstamp.tv_sec
      → Ahead last b.start_tstamp
      → Progress last lo scope newest done
      → Progress last
          (b.start_tstamp.tv_sec + 1)
          (exported scope b)
          (some b.start_tstamp)
          (b ∷ done)
  export-Progress lo scope newest done b l a p =
      let t = b.start_tstamp in
      let ahead = Below-Ahead last newest lo t a p.below l in
      let lower = Reached-lt (cursor last newest) t (sent_secs scope) ahead p.reached in
      let forward : (u : Timespec) → Past (cursor last newest) u → Past (some t) u =
        λ u h. Past-forward (cursor last newest) t u ahead h in
      record {
        ascending =
            rw (sent_secs-export m now scope b labels shown)
              (Ascending-snoc t.tv_sec (sent_secs scope) p.ascending lower);
        reached = rw (sent_secs-export m now scope b labels shown) (
            All-append _ (sent_secs scope) (t.tv_sec ∷ []) (Reached-mono t (sent_secs scope) lower)
              (omega arith, tt));
        below = omega arith;
        finished = (
          (
            inr refl,
            rw (sent_secs-export m now scope b labels shown)
                (is_sent-snoc t.tv_sec (sent_secs scope)),
          ),
          Done-forward scope (exported scope b) (exported-Grown scope b) (cursor last newest)
              (some t) done forward p.finished,
        );
        forward = λ u h. forward u (p.forward u h);
      }

  skip-Progress :
      (lo : ℕ) (scope : List (Export S K)) (newest : Option Timespec) (done : List (Bucket S K))
      (b : Bucket S K)
      → lo ≤ b.start_tstamp.tv_sec
      → Done last scope b
      → Progress last lo scope newest done
      → Progress last (b.start_tstamp.tv_sec + 1) scope newest (b ∷ done)
  skip-Progress lo scope newest done b l d p = record {
    ascending = p.ascending;
    reached = p.reached;
    below = Below-mono newest lo _ (omega arith) p.below;
    finished = ((p.forward _ d.0, d.1), p.finished);
    forward = p.forward;
  }

  -- What the loop has achieved when it is through with `bs`.
  abbrev Through :
      ℕ
      → List (Bucket S K)
      → List (Bucket S K)
      → List (Export S K)
      → List (Export S K) × Option Timespec
      → Type 0
  Through hi done bs scope (scope', newest) =
      Progress last hi scope' newest done
      × All (Done (cursor last newest) scope') bs
      × Grown scope scope'

  Through-cons :
      (hi : ℕ) (done bs : List (Bucket S K)) (b : Bucket S K) (scope scope' : List (Export S K))
      (r : List (Export S K) × Option Timespec)
      → Grown scope scope'
      → Through hi (b ∷ done) bs scope' r
      → Through hi done (b ∷ bs) scope r
  Through-cons hi done bs b scope scope' r g (p, d, g') = (
    record {
      ascending = p.ascending;
      reached = p.reached;
      below = p.below;
      finished = p.finished.1;
      forward = p.forward;
    },
    (p.finished.0, d),
    λ s h. g' s (g s h),
  )

  export_loop-step :
      (b : Bucket S K) (bs : List (Bucket S K)) (scope : List (Export S K))
      (newest : Option Timespec) (t : Bool)
      → starts_after b.start_tstamp last ≡ t
      → export_loop m now labels last (b ∷ bs) (scope, newest)
        ≡ export_loop m now labels last bs
            (if t then (exported scope b, some b.start_tstamp) else (scope, newest))
  unfolding export_loop
  export_loop-step b bs scope newest t h = rw h

  -- The loop, from oldest to newest: what it wrote ascends, and every bucket is done after it.
  pub export_loop-Progress :
      (lo hi : ℕ) (bs : List (Bucket S K)) (scope : List (Export S K)) (newest : Option Timespec)
      (done : List (Bucket S K))
      → lo ≤ hi
      → Rising lo hi bs
      → All (Status last scope) bs
      → Progress last lo scope newest done
      → Through hi done bs scope (export_loop m now labels last bs (scope, newest))
  unfolding export_loop
  export_loop-Progress lo hi [] scope newest done l r st p = (
    record {
      ascending = p.ascending;
      reached = p.reached;
      below = Below-mono newest lo hi l p.below;
      finished = p.finished;
      forward = p.forward;
    },
    tt,
    λ s h. h,
  )
  export_loop-Progress lo hi (b ∷ bs) scope newest done l r (inl a, st) p =
      subst (Through hi done (b ∷ bs) scope)
        (sym (export_loop-step b bs scope newest true (starts_after-Ahead last b.start_tstamp a)))
        (Through-cons hi done bs b scope (exported scope b) _ (exported-Grown scope b) (
          export_loop-Progress (b.start_tstamp.tv_sec + 1) hi bs (exported scope b)
            (some b.start_tstamp) (b ∷ done) (omega arith) r.2
            (Status-grown scope (exported scope b) (exported-Grown scope b) last bs st)
            (export-Progress lo scope newest done b r.0 a p)))
  export_loop-Progress lo hi (b ∷ bs) scope newest done l r (inr d, st) p =
      subst (Through hi done (b ∷ bs) scope)
        (sym (export_loop-step b bs scope newest false (starts_after-Past last b.start_tstamp d.0)))
        (Through-cons hi done bs b scope scope _ (λ s h. h)
          (export_loop-Progress (b.start_tstamp.tv_sec + 1) hi bs scope newest (b ∷ done)
            (omega arith) r.2 st (skip-Progress lo scope newest done b r.0 d p)))
