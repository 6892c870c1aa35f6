-- ===== src/Domains/Aggregate.antt =====
-- Which parts of a name `aggregateDomain` of libs/visor_dns/dns.cpp keeps.
use pktvisor.Prelude.{
  ℕ, zero, suc, ◌-◌, ◌≤◌, ◌<◌, ◌≡◌, refl, sym, ap, ◌∙◌, true, false, none, some, List, [], ◌∷◌,
  ◌++◌, arith, ltb, ◌==◌, All, length, take, drop, length-append, append_assoc,
}
use pktvisor.Metrics.Utf8.{Bytes}
use pktvisor.Domains.{dot, last_dot, rfind, end_dot, third, second, aggregate_domain}

abbrev pub NoDots : Bytes → Type 0
NoDots cs = All (λ c. (c == dot) ≡ false) cs

last_dot-none : (cs : Bytes) → NoDots cs → last_dot cs ≡ none
unfolding last_dot
last_dot-none [] h = refl
last_dot-none (c ∷ cs) h = rw (last_dot-none cs h.1, h.0) refl

last_dot-some : (front cs : Bytes) → NoDots cs → last_dot (front ++ dot ∷ cs) ≡ some (length front)
unfolding last_dot
last_dot-some [] cs h = rw (last_dot-none cs h) refl
last_dot-some (x ∷ front) cs h = rw (last_dot-some front cs h) refl

take_front {ℓ} : {A : Type ℓ} (xs ys : List A) → take (length xs) (xs ++ ys) ≡ xs
take_front [] ys = refl
take_front (x ∷ xs) ys = ap (λ l. x ∷ l) (take_front xs ys)

drop_front {ℓ} : {A : Type ℓ} (xs ys : List A) → drop (length xs) (xs ++ ys) ≡ ys
drop_front [] ys = refl
drop_front (x ∷ xs) ys = drop_front xs ys

take_dot {ℓ} :
    {A : Type ℓ} (xs : List A) (y : A) (ys : List A)
    → take (suc (length xs)) (xs ++ y ∷ ys) ≡ xs ++ y ∷ []
take_dot [] y ys = refl
take_dot (x ∷ xs) y ys = ap (λ l. x ∷ l) (take_dot xs y ys)

-- The search from the dot at the end of `xs`, and the search before it.
rfind_here : (xs ys : Bytes) → rfind (xs ++ dot ∷ ys) (some (length xs)) ≡ some (length xs)
unfolding rfind
rfind_here xs ys = ap last_dot (take_dot xs dot ys) ∙ last_dot-some xs [] tt

rfind_before : (xs ys : Bytes) (k : ℕ) → length xs ≡ suc k → rfind (xs ++ ys) (some k) ≡ last_dot xs
unfolding rfind
rfind_before xs ys k h =
    ap (λ n. last_dot (take n (xs ++ ys))) (sym h) ∙ ap last_dot (take_front xs ys)

-- From a first dot behind `front`, a dot and a label, the second is the one behind `front`.
second-two :
    (front b c : Bytes) (first : ℕ)
    → NoDots b
    → let xs = front ++ dot ∷ b in
      first ≡ length xs
      → second (xs ++ dot ∷ c) first ≡ (dot ∷ b ++ dot ∷ c, third (xs ++ dot ∷ c) (length front))
unfolding second
second-two front b c zero h e = absurd (omega (arith, length-append front (dot ∷ b)))
second-two front b c (suc k) h e =
    rw (rfind_before (front ++ dot ∷ b) (dot ∷ c) k (sym e) ∙ last_dot-some front b h, second)
      (ap (λ t. (t, third ((front ++ dot ∷ b) ++ dot ∷ c) (length front)))
        (ap (drop (length front)) (append_assoc front (dot ∷ b) (dot ∷ c))
          ∙ drop_front front (dot ∷ b ++ dot ∷ c)))

third-label :
    (front a rest : Bytes) (n : ℕ)
    → NoDots a
    → n ≡ length (front ++ dot ∷ a)
    → third ((front ++ dot ∷ a) ++ rest) n ≡ dot ∷ a ++ rest
unfolding third
third-label front a rest zero h e = absurd (omega (arith, length-append front (dot ∷ a)))
third-label front a rest (suc k) h e =
    rw (rfind_before (front ++ dot ∷ a) rest k (sym e) ∙ last_dot-some front a h, third)
      (ap (drop (length front)) (append_assoc front (dot ∷ a) rest)
        ∙ drop_front front (dot ∷ a ++ rest))

third-first : (a rest : Bytes) (n : ℕ) → NoDots a → n ≡ length a → third (a ++ rest) n ≡ a ++ rest
unfolding third
third-first a rest zero h e = refl
third-first a rest (suc k) h e = rw (rfind_before a rest k (sym e) ∙ last_dot-none a h, third) refl

end_dot_suffix :
    (xs c : Bytes) → 0 < length xs → end_dot (xs ++ dot ∷ c) (suc (length c)) ≡ some (length xs)
unfolding end_dot
end_dot_suffix xs c h =
    let l = length-append xs (dot ∷ c) in
    let t : ltb (suc (length c)) (length (xs ++ dot ∷ c)) ≡ true = ground (arith, l) in
    let e : length (xs ++ dot ∷ c) - suc (length c) ≡ length xs = omega (arith, l) in
    let z : ltb 0 (suc (length c)) ≡ true = ground arith in rw z (rw t (ap (λ n. some n) e))

aggregate_domain-second :
    (front b c : Bytes)
    → NoDots b
    → let domain = (front ++ dot ∷ b) ++ dot ∷ c in
      5 ≤ length domain
      → aggregate_domain domain (suc (length c)) ≡ (dot ∷ b ++ dot ∷ c, third domain (length front))
unfolding aggregate_domain
aggregate_domain-second front b c h l =
    let xs = front ++ dot ∷ b in
    let f : ltb (length (xs ++ dot ∷ c)) 5 ≡ false = ground arith in
    rw f (
      rw
        (
          ap (rfind (xs ++ dot ∷ c))
                (end_dot_suffix xs c (omega (arith, length-append front (dot ∷ b))))
              ∙ rfind_here xs c,
          aggregate_domain,
        )
        (second-two front b c (length xs) h refl))

-- Of a name that ends in a public suffix `c`, which may have dots itself, the first view is the
-- suffix and the label before it, and the second view one label more, each from its dot on: the
-- labels before those make no difference.
pub aggregate_domain-labels :
    (front a b c : Bytes)
    → NoDots a
    → NoDots b
    → let domain = ((front ++ dot ∷ a) ++ dot ∷ b) ++ dot ∷ c in
      5 ≤ length domain
      → aggregate_domain domain (suc (length c))
        ≡ (dot ∷ b ++ dot ∷ c, dot ∷ a ++ (dot ∷ b ++ dot ∷ c))
aggregate_domain-labels front a b c h k l =
    aggregate_domain-second (front ++ dot ∷ a) b c k l
    ∙ ap (λ t. (dot ∷ b ++ dot ∷ c, t))
        (ap (λ d. third d (length (front ++ dot ∷ a)))
            (append_assoc (front ++ dot ∷ a) (dot ∷ b) (dot ∷ c))
          ∙ third-label front a (dot ∷ b ++ dot ∷ c) _ h refl)

-- Of a name with only two labels before its public suffix, the second view is the whole name.
pub aggregate_domain-whole :
    (a b c : Bytes)
    → NoDots a
    → NoDots b
    → let domain = (a ++ dot ∷ b) ++ dot ∷ c in
      5 ≤ length domain → aggregate_domain domain (suc (length c)) ≡ (dot ∷ b ++ dot ∷ c, domain)
aggregate_domain-whole a b c h k l =
    aggregate_domain-second a b c k l
    ∙ ap (λ t. (dot ∷ b ++ dot ∷ c, t))
        (ap (λ d. third d (length a)) (append_assoc a (dot ∷ b) (dot ∷ c))
          ∙ third-first a (dot ∷ b ++ dot ∷ c) _ h refl
          ∙ sym (append_assoc a (dot ∷ b) (dot ∷ c)))
