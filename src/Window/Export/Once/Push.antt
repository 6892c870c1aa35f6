-- ===== src/Window/Export/Once/Push.antt =====
-- One push of `window_closed_opentelemetry` in src/AbstractMetricsManager.h.
use mathlib.Core.List.{reverse}
use pktvisor.Prelude.{
  ℕ, ◌≡◌, refl, sym, subst, ap, Bool, true, false, inl, inr, Option, none, some, List, [], ◌∷◌,
  arith, All, Bool-cases, drop, if◌then◌else◌,
}
use pktvisor.Metrics.Counter.{Timespec}
use pktvisor.Window.Bucket.{Bucket}
use pktvisor.Window.Manager.{Manager}
use pktvisor.Window.Export.{
  Export, LabelMap, newest_closed, closed_oldest_first, export_loop, finish_export,
  window_closed_opentelemetry,
}
use pktvisor.Window.Export.Loop.{
  sent_secs, Ascending, Below, Reached, cursor, Below-Ahead, Below-mono,
}
use pktvisor.Window.Export.Loop.Progress.{Status, Done, Progress, Grown, export_loop-Progress}
use pktvisor.Window.Export.Once.{
  Falling, Rising-reverse, All-reverse, All-of_reverse, Exporter, IsTracked,
}

module _ {S K : Type 0} where
  -- What a push leaves, by the parts of its result.
  unfoldable pub push : Exporter S K → Timespec → LabelMap → Exporter S K
  push x now labels =
      let r = window_closed_opentelemetry x.manager now x.scope x.last_start labels in
      record x { scope = r.0; last_start = r.1 }

  closed_part : (m : Manager S K) → List (Bucket S K)
  closed_part m = drop (newest_closed m.buckets) m.buckets

  finish_export_lem :
      (last : Option Timespec) (r : List (Export S K) × Option Timespec)
      → ((finish_export last r).0 ≡ r.0) × ((finish_export last r).1 ≡ cursor last r.1)
  finish_export_lem last (scope, none) = (refl, refl)
  finish_export_lem last (scope, some u) = (refl, refl)

  -- The loop over the closed part `cs` of a window that falls below `hi`.
  loop_through :
      (x : Exporter S K) (now : Timespec) (labels : LabelMap) (hi : ℕ) (cs : List (Bucket S K))
      → IsTracked x
      → Falling hi cs
      → All (Status x.last_start x.scope) cs
      → let r = export_loop x.manager now labels x.last_start (reverse cs) (x.scope, none) in
        Progress x.last_start hi r.0 r.1 []
        × All (Done (cursor x.last_start r.1) r.0) cs
        × Grown x.scope r.0
  loop_through x now labels hi cs v f st =
      let start : Progress x.last_start 0 x.scope none [] = record {
        ascending = v.ascending;
        reached = v.reached;
        below = tt;
        finished = tt;
        forward = λ t h. h;
      } in
      let (p, d, g) =
        export_loop-Progress x.manager now labels x.last_start v.shown 0 hi (reverse cs) x.scope
          none [] (omega arith) (Rising-reverse hi cs f)
          (All-reverse (Status x.last_start x.scope) cs st) start in
      (p, All-of_reverse _ cs d, g)

  All-Done-Status :
      (c : Option Timespec) (scope : List (Export S K)) (bs : List (Bucket S K))
      → All (Done c scope) bs
      → All (Status c scope) bs
  All-Done-Status c scope [] h = tt
  All-Done-Status c scope (b ∷ bs) h = (inr h.0, All-Done-Status c scope bs h.1)

  loop_result :
      Exporter S K → Timespec → LabelMap → List (Bucket S K) → List (Export S K) × Option Timespec
  loop_result x now labels cs =
      export_loop x.manager now labels x.last_start (reverse cs) (x.scope, none)

  -- What the loop over all but the first `n` buckets of the deque `bs` achieves.
  record Pushed (x : Exporter S K) (now : Timespec) (labels : LabelMap) (hi : ℕ)
      (bs : List (Bucket S K)) (n : ℕ) : Type 0 where
    ascending : Ascending (sent_secs (loop_result x now labels (drop n bs)).0)
    reached :
        All
          (Reached (cursor x.last_start (loop_result x now labels (drop n bs)).1))
          (sent_secs (loop_result x now labels (drop n bs)).0)
    below : Below hi (loop_result x now labels (drop n bs)).1
    status :
        All
          (Status
            (cursor x.last_start (loop_result x now labels (drop n bs)).1)
            (loop_result x now labels (drop n bs)).0)
          bs
    done :
        All
          (Done
            (cursor x.last_start (loop_result x now labels (drop n bs)).1)
            (loop_result x now labels (drop n bs)).0)
          (drop n bs)

  newest :
      (b : Bucket S K) (bs : List (Bucket S K)) (t : Bool)
      → b.read_only ≡ t
      → newest_closed (b ∷ bs) ≡ (if t then 0 else 1)
  unfolding newest_closed
  newest b bs t e = ap (λ (c : Bool). if c then 0 else 1) e

  module _ (x : Exporter S K) (now : Timespec) (labels : LabelMap) (v : IsTracked x) where
    Pushed-All :
        (hi : ℕ) (bs : List (Bucket S K))
        → Falling hi bs
        → All (Status x.last_start x.scope) bs
        → Pushed x now labels hi bs 0
    unfolding loop_result
    Pushed-All hi bs f st =
        let (p, d, g) = loop_through x now labels hi bs v f st in
        record {
          ascending = p.ascending;
          reached = p.reached;
          below = p.below;
          status = All-Done-Status _ _ bs d;
          done = d;
        }

    -- The live bucket stays behind: after it as before, it is after the cursor or has been sent.
    Pushed-but_live :
        (hi : ℕ) (b : Bucket S K) (bs : List (Bucket S K))
        → Falling hi (b ∷ bs)
        → All (Status x.last_start x.scope) (b ∷ bs)
        → Pushed x now labels hi (b ∷ bs) 1
    unfolding loop_result
    Pushed-but_live hi b bs f st =
        let lo = b.start_tstamp.tv_sec in
        let (p, d, g) = loop_through x now labels lo bs v f.1 st.1 in
        let r = export_loop x.manager now labels x.last_start (reverse bs) (x.scope, none) in
        let front : Status x.last_start x.scope b → Status (cursor x.last_start r.1) r.0 b = elim [
          | inl a ↦ inl (Below-Ahead x.last_start r.1 lo b.start_tstamp a p.below (omega arith))
          | inr e ↦ inr (p.forward b.start_tstamp e.0, g lo e.1)
        ] in
        record {
          ascending = p.ascending;
          reached = p.reached;
          below = Below-mono r.1 lo hi (omega arith) p.below;
          status = (front st.0, All-Done-Status _ _ bs d);
          done = d;
        }

    pushed :
        (hi : ℕ) (bs : List (Bucket S K))
        → Falling hi bs
        → All (Status x.last_start x.scope) bs
        → Pushed x now labels hi bs (newest_closed bs)
    unfolding newest_closed
    pushed hi [] f st =
        let w = Pushed-All hi [] f st in
        record {
          ascending = w.ascending;
          reached = w.reached;
          below = w.below;
          status = tt;
          done = tt;
        }
    pushed hi (b ∷ bs) f st = elim (Bool-cases b.read_only) [
      | inl e ↦
          subst (Pushed x now labels hi (b ∷ bs)) (sym (newest b bs true e))
            (Pushed-All hi (b ∷ bs) f st)
      | inr e ↦
          subst (Pushed x now labels hi (b ∷ bs)) (sym (newest b bs false e))
            (Pushed-but_live hi b bs f st)
    ]

    Below-cursor :
        (hi : ℕ) (newest : Option Timespec)
        → Below hi x.last_start
        → Below hi newest
        → Below hi (cursor x.last_start newest)
    Below-cursor hi none a b = a
    Below-cursor hi (some u) a b = b

    pub push-IsTracked : IsTracked (push x now labels)
    unfolding push window_closed_opentelemetry loop_result closed_oldest_first
    push-IsTracked =
        let m = x.manager in
        let w = pushed m.next_shift.tv_sec m.buckets v.falling v.status in
        let r = loop_result x now labels (drop (newest_closed m.buckets) m.buckets) in
        let e = finish_export_lem x.last_start r in
        record {
          falling = v.falling;
          below = rw e.1 (Below-cursor m.next_shift.tv_sec r.1 v.below w.below);
          ascending = rw e.0 w.ascending;
          reached = rw (e.0, e.1) w.reached;
          status = rw (e.0, e.1) w.status;
          shown = v.shown;
        }

    -- After a push every closed window that is held has been sent.
    pub push_sends-All :
        All
          (Done (push x now labels).last_start (push x now labels).scope)
          (drop (newest_closed x.manager.buckets) x.manager.buckets)
    unfolding push window_closed_opentelemetry loop_result closed_oldest_first
    push_sends-All =
        let m = x.manager in
        let w = pushed m.next_shift.tv_sec m.buckets v.falling v.status in
        let r = loop_result x now labels (drop (newest_closed m.buckets) m.buckets) in
        let e = finish_export_lem x.last_start r in rw (e.0, e.1) w.done
