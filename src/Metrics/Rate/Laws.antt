-- ===== src/Metrics/Rate/Laws.antt =====
-- The samples that a `Rate` of src/Metrics.h collects.
use mathlib.Core.List.{foldl}
use pktvisor.Prelude.{ℕ, ◌+◌, ◌%◌, ◌≡◌, refl, Bool, true, false, List, [], ◌∷◌, map}
use pktvisor.Metrics.Counter.{u64}
use pktvisor.Metrics.Quantile.{KllSketch, update_quantile}
use pktvisor.Metrics.Rate.{
  Rate, RateCall, counts, exchanges, samples, cancels, merges, exchange, sample, add_events,
  rate_run,
}

module _ {K : Type 0} where
  -- Callbacks that each end before the next begins, with nothing but counting in between; the test
  -- says whether one is under way.
  abbrev pub Alternates : Bool → List (RateCall K) → Type 0
  Alternates false [] = Unit
  Alternates true [] = ⊥
  Alternates way (counts i ∷ cs) = Alternates way cs
  Alternates false (exchanges ∷ cs) = Alternates true cs
  Alternates true (samples ∷ cs) = Alternates false cs
  Alternates way (_ ∷ cs) = ⊥

  -- The numbers of events between one exchange and the next, from one that has counted `acc`.
  abbrev pub seconds : ℕ → List (RateCall K) → List ℕ
  seconds acc [] = []
  seconds acc (counts i ∷ cs) = seconds ((acc + i) % u64) cs
  seconds acc (exchanges ∷ cs) = acc ∷ seconds 0 cs
  seconds acc (samples ∷ cs) = seconds acc cs
  seconds acc (cancels ∷ cs) = seconds acc cs
  seconds acc (merges other agg ∷ cs) = seconds acc cs

module _ {K : Type 0} ⦃kll : KllSketch K⦄ (narrow : ℕ → ℕ) where
  -- What a callback that is under way has still to sample.
  abbrev pending : Bool → Rate K → List ℕ
  pending false r = []
  pending true r = narrow r.rate ∷ []

  abbrev given : Bool → Rate K → List (RateCall K) → K
  given way r cs =
      foldl kll.update (foldl kll.update r.quantile.sketch (pending way r))
        (map narrow (seconds r.counter cs))

  rate_run-Alternates :
      (way : Bool) (r : Rate K) (cs : List (RateCall K))
      → r.timer_active ≡ true
      → Alternates way cs
      → (rate_run narrow r cs).quantile.sketch ≡ given way r cs
  unfolding rate_run add_events exchange sample update_quantile
  rate_run-Alternates false r [] h a = refl
  rate_run-Alternates true r [] h a = absurd a
  rate_run-Alternates false r (counts i ∷ cs) h a =
      rate_run-Alternates false (add_events r i) cs h a
  rate_run-Alternates true r (counts i ∷ cs) h a = rate_run-Alternates true (add_events r i) cs h a
  rate_run-Alternates false r (exchanges ∷ cs) h a =
      rw (h, rate_run) (rate_run-Alternates true _ cs refl a)
  rate_run-Alternates true r (exchanges ∷ cs) h a = absurd a
  rate_run-Alternates false r (samples ∷ cs) h a = absurd a
  rate_run-Alternates true r (samples ∷ cs) h a = rate_run-Alternates false (sample narrow r) cs h a
  rate_run-Alternates false r (cancels ∷ cs) h a = absurd a
  rate_run-Alternates true r (cancels ∷ cs) h a = absurd a
  rate_run-Alternates false r (merges other agg ∷ cs) h a = absurd a
  rate_run-Alternates true r (merges other agg ∷ cs) h a = absurd a

  -- Of a rate whose timer runs, as long as nothing but counting comes in between the callbacks and
  -- within them, the sketch is given exactly the number of events between each exchange and the one
  -- before it, in order and converted to the sketch's type, although a sample is taken later than
  -- its exchange: no event is lost, or sampled twice.
  pub rate_run-samples :
      (r : Rate K) (cs : List (RateCall K))
      → r.timer_active ≡ true
      → Alternates false cs
      → (rate_run narrow r cs).quantile.sketch
        ≡ foldl kll.update r.quantile.sketch (map narrow (seconds r.counter cs))
  rate_run-samples r cs h a = rate_run-Alternates false r cs h a
