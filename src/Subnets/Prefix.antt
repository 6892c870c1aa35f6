-- ===== src/Subnets/Prefix.antt =====
-- The subnet matching of libs/visor_utils/utils.cpp, as a comparison of leading bits.
use pktvisor.Prelude.{
  ℕ, zero, suc, ◌-◌, ◌/◌, ◌%◌, ◌^◌, ◌≤◌, ◌<◌, ◌≡◌, refl, sym, ◌∙◌, Bool, true, false, ◌&&◌, ◌||◌,
  [], ◌∷◌, if◌then◌else◌, inl, inr, Bool-cases, arith, ltb, ◌==◌, length, take,
}
use pktvisor.Metrics.Utf8.{Bytes}
use pktvisor.Metrics.Utf8.Valid.{IsBytes}
use pktvisor.Serializer.{same_bytes}
use pktvisor.Subnets.{byte_at, whole_bytes, matches6}

-- The bits of a byte, the highest first, and those of an address.
abbrev pub leading : ℕ → ℕ → Bytes → Bytes → Bool
leading zero bits xs ys = byte_at xs 0 / 2 ^ (8 - bits) == byte_at ys 0 / 2 ^ (8 - bits)
leading (suc n) bits (x ∷ xs) (y ∷ ys) = x == y && leading n bits xs ys
leading (suc n) bits _ _ = false

and_assoc : (a b c : Bool) → (a && (b && c)) ≡ (a && b && c)
and_assoc true b c = refl
and_assoc false b c = refl

leading_whole :
    (n bits : ℕ) (xs ys : Bytes)
    → n ≤ length xs
    → n ≤ length ys
    → leading n bits xs ys ≡ (
        same_bytes (take n xs) (take n ys)
        && (byte_at xs n / 2 ^ (8 - bits) == byte_at ys n / 2 ^ (8 - bits)))
unfolding same_bytes
leading_whole zero bits xs ys h k = refl
leading_whole (suc n) bits [] ys h k = absurd (omega arith)
leading_whole (suc n) bits (x ∷ xs) [] h k = absurd (omega arith)
leading_whole (suc n) bits (x ∷ xs) (y ∷ ys) h k =
    rw (leading_whole n bits xs ys (omega arith) (omega arith)) (and_assoc (x == y) _ _)

round : (w z e : Bool) → (z ≡ false → e ≡ true) → (if (w || false) && z then e else w) ≡ (w && e)
round true true e h = refl
round true false e h = sym (h refl)
round false z e h = refl

byte_small : (xs : Bytes) (i : ℕ) → IsBytes xs → byte_at xs i < 256
byte_small [] i h = omega arith
byte_small (x ∷ xs) zero h = h.0
byte_small (x ∷ xs) (suc i) h = byte_small xs i h.1

equal_scaled :
    (x y bits : ℕ)
    → x < 256
    → y < 256
    → ltb 0 bits ≡ false
    → (x / 2 ^ (8 - bits) == y / 2 ^ (8 - bits)) ≡ true
equal_scaled x y zero h k z = ground arith
equal_scaled x y (suc bits) h k z = absurd (ground arith)

-- Two IPv6 addresses match under a prefix that is not empty exactly when they agree in the whole
-- bytes of the prefix and in its bits of the byte behind them. Under the empty prefix, which every
-- address has, none matches.
pub matches6-leading :
    (network ip : Bytes) (cidr : ℕ)
    → IsBytes network
    → IsBytes ip
    → length network ≡ 16
    → length ip ≡ 16
    → cidr ≤ 128
    → (1 ≤ cidr → matches6 network ip cidr ≡ leading (cidr / 8) (cidr % 8) network ip)
      × (matches6 network ip 0 ≡ false)
unfolding matches6 whole_bytes
matches6-leading network ip cidr bn bi ln li l = (
  λ h.
      let q = leading_whole (cidr / 8) (cidr % 8) network ip (omega arith) (omega arith) in
      elim (Bool-cases (ltb cidr 8)) [
        | inl low ↦
            let none_whole : cidr / 8 ≡ 0 = ground arith in
            let some_bits : ltb 0 (cidr % 8) ≡ true = ground arith in
            rw (low, some_bits, none_whole) refl
        | inr high ↦
            let some_bytes : ltb 0 (cidr / 8) ≡ true = ground arith in
            rw (high, some_bytes)
              (round _ _ _ (
                  equal_scaled _ _ (cidr % 8) (byte_small network (cidr / 8) bn)
                    (byte_small ip (cidr / 8) bi))
                ∙ sym q)
      ],
  refl,
)
