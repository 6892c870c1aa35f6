-- ===== src/Metrics/Quantile/Laws.antt =====
-- What the summing merge of src/Metrics.h reports.
use pktvisor.Prelude.{
  ℕ, ◌+◌, ◌%◌, ◌<◌, ◌≡◌, refl, ap, sym, true, map, inl, inr, Bool-cases, ◌∙◌, false, List, [], ◌∷◌,
  arith, if◌then◌else◌,
}
use pktvisor.Metrics.Counter.{sum, u64}
use pktvisor.Metrics.Quantile.{
  KllSketch, Quantile, add_each, get_quantiles, merge_quantile, reported,
}

four :
    {a b c d x y z w : ℕ} → a ≡ x → b ≡ y → c ≡ z → d ≡ w → a ∷ b ∷ c ∷ d ∷ [] ≡ x ∷ y ∷ z ∷ w ∷ []
four e f g h = cc

module _ {K : Type 0} ⦃kll : KllSketch K⦄ where
  abbrev pub HasData : Quantile K → Type 0
  HasData q = kll.is_empty q.sketch ≡ false

  -- Merges every sketch of the list into the first, in order.
  abbrev pub merge_all : Quantile K → List (Quantile K) → Quantile K
  merge_all q [] = q
  merge_all q (o ∷ os) = merge_all (merge_quantile q o sum) os

  sketch-merge_sum : (q o : Quantile K) → HasData q → (merge_quantile q o sum).sketch ≡ q.sketch
  unfolding merge_quantile
  sketch-merge_sum q o h = ground arith

  reported-merge_sum :
      (k : K) (qs : List ℕ) (o : Quantile K)
      → let q : Quantile K = record { sketch = k; quantiles_sum = qs } in
        HasData q
        → reported (merge_quantile q o sum) ≡ (
            if kll.is_empty o.sketch
            then reported q
            else add_each (reported q) (get_quantiles o.sketch))
  unfolding merge_quantile reported add_each get_quantiles
  reported-merge_sum k [] o h = ground arith
  reported-merge_sum k (x ∷ xs) o h = ground arith

  -- The quantiles at a rank of those windows that hold data, added up.
  abbrev pub total : ℕ → List (Quantile K) → ℕ
  total rank [] = 0
  total rank (o ∷ os) =
      (if kll.is_empty o.sketch then 0 else kll.get_quantile o.sketch rank) + total rank os

  -- What four values report after further windows.
  abbrev totals : ℕ → ℕ → ℕ → ℕ → List (Quantile K) → List ℕ
  totals a b c d os =
      ((a + total 50 os) % u64)
      ∷ ((b + total 90 os) % u64)
      ∷ ((c + total 95 os) % u64)
      ∷ ((d + total 99 os) % u64)
      ∷ []

  reported-totals :
      (k : K) (qs : List ℕ) (a b c d : ℕ) (os : List (Quantile K))
      → let q : Quantile K = record { sketch = k; quantiles_sum = qs } in
        HasData q
        → reported q ≡ a ∷ b ∷ c ∷ d ∷ []
        → a < u64
        → b < u64
        → c < u64
        → d < u64
        → reported (merge_all q os) ≡ totals a b c d os
  reported-totals k qs a b c d [] h e la lb lc ld =
      e ∙ four (omega arith) (omega arith) (omega arith) (omega arith)
  reported-totals k qs a b c d (o ∷ os) h e la lb lc ld =
      elim (Bool-cases (kll.is_empty o.sketch)) [
        | inl t ↦
            reported-totals q'.sketch q'.quantiles_sum a b c d os filled
              (reported-merge_sum k qs o h ∙ ap (λ x. if x then reported q else summed) t ∙ e) la lb
              lc ld
            ∙ four (skip t a 50) (skip t b 90) (skip t c 95) (skip t d 99)
        | inr f ↦
            reported-totals q'.sketch q'.quantiles_sum (next a 50) (next b 90) (next c 95)
              (next d 99) os filled
              (reported-merge_sum k qs o h
                ∙ ap (λ x. if x then reported q else summed) f
                ∙ ap (λ l. add_each l (get_quantiles o.sketch)) e
                ∙ unfold add_each get_quantiles in refl)
              (omega arith) (omega arith) (omega arith) (omega arith)
            ∙ four (more f a 50) (more f b 90) (more f c 95) (more f d 99)
      ]
    where
      q : Quantile K
      q = record { sketch = k; quantiles_sum = qs }

      q' : Quantile K
      q' = merge_quantile q o sum

      summed : List ℕ
      summed = add_each (reported q) (get_quantiles o.sketch)

      filled : HasData q'
      filled = ap kll.is_empty (sketch-merge_sum q o h) ∙ h

      next : ℕ → ℕ → ℕ
      next x rank = (x + kll.get_quantile o.sketch rank) % u64

      skip :
          kll.is_empty o.sketch ≡ true
          → (x rank : ℕ) → (x + total rank os) % u64 ≡ (x + total rank (o ∷ os)) % u64
      skip t x rank =
          let e : (x + total rank os) % u64 ≡ (x + (0 + total rank os)) % u64 = omega arith in
          e
          ∙ ap
              (λ b. (x + ((if b then 0 else kll.get_quantile o.sketch rank) + total rank os)) % u64)
              (sym t)

      more :
          kll.is_empty o.sketch ≡ false
          → (x rank : ℕ) → (next x rank + total rank os) % u64 ≡ (x + total rank (o ∷ os)) % u64
      more f x rank =
          let e : (next x rank + total rank os) % u64
              ≡ (x + (kll.get_quantile o.sketch rank + total rank os)) % u64 =
            omega arith in
          e
          ∙ ap
              (λ b. (x + ((if b then 0 else kll.get_quantile o.sketch rank) + total rank os)) % u64)
              (sym f)

  -- Summing any list of windows into one that holds data and no sum yet reports at each of the four
  -- ranks its own quantile and those of the windows that hold data, added up modulo 2^64. The
  -- quantiles that the sketches give are numbers of 64 bits.
  pub reported-merge_all :
      (q : Quantile K) (os : List (Quantile K))
      → ((k : K) (rank : ℕ) → kll.get_quantile k rank < u64)
      → HasData q
      → q.quantiles_sum ≡ []
      → reported (merge_all q os)
        ≡ map
            (λ rank. (kll.get_quantile q.sketch rank + total rank os) % u64)
            (50 ∷ 90 ∷ 95 ∷ 99 ∷ [])
  reported-merge_all q os bounded h none_yet =
      reported-totals q.sketch q.quantiles_sum (kll.get_quantile q.sketch 50)
        (kll.get_quantile q.sketch 90) (kll.get_quantile q.sketch 95) (kll.get_quantile q.sketch 99)
        os h fresh (bounded q.sketch 50) (bounded q.sketch 90) (bounded q.sketch 95)
        (bounded q.sketch 99)
    where
      fresh : reported q ≡ map (kll.get_quantile q.sketch) (50 ∷ 90 ∷ 95 ∷ 99 ∷ [])
      fresh = unfold reported get_quantiles in rw (h, none_yet) refl
