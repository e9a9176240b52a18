-- ===== src/Prelude/Bits.antt =====
-- `|` and `&` of disjoint fields as arithmetic, at every width.
use Prim.Native.Nat.{
  ℕ, zero, suc, ◌+◌, ◌*◌, ◌/◌, ◌%◌, ◌^◌, ◌≤◌, ◌<◌, ◌-◌, min, max, bit_and, bit_or, bit_xor, digits,
  differ, bit_and-bitwise, bit_or-bitwise, bit_xor-bitwise,
}
use mathlib.Core.Path.{◌≡◌, refl, ap, ◌∙◌}
use native.Mathlib.Nat.{pow-suc}
use native.Mathlib.Omega.{arith}

-- One more unit of fuel, and then any number, changes nothing once the first number is covered.
module _ (z : ℕ → ℕ) (g : ℕ → ℕ → ℕ) where
  digits-suc : (fuel x y : ℕ) → x ≤ fuel → digits z g (suc fuel) x y ≡ digits z g fuel x y
  digits-suc zero zero y covered = refl
  digits-suc zero (suc x) y covered = absurd (omega arith)
  digits-suc (suc fuel) zero y covered = refl
  digits-suc (suc fuel) (suc x) y covered =
      let halved : suc x / 2 ≤ fuel = omega arith in
      omega (arith, digits-suc fuel (suc x / 2) (y / 2) halved)

  digits_extra :
      (extra fuel total x y : ℕ)
      → total ≡ extra + fuel
      → x ≤ fuel
      → digits z g total x y ≡ digits z g fuel x y
  digits_extra zero fuel total x y e covered = ap (λ (n : ℕ). digits z g n x y) (omega arith)
  digits_extra (suc extra) fuel zero x y e covered = absurd (omega arith)
  digits_extra (suc extra) fuel (suc total) x y e covered =
      digits-suc total x y (omega arith) ∙ digits_extra extra fuel total x y (omega arith) covered

zero-bit_or : (b : ℕ) → bit_or 0 b ≡ b
zero-bit_or b = bit_or-bitwise 0 b

bit_or_halves : (x y : ℕ) → bit_or x y ≡ bit_or (x / 2) (y / 2) * 2 + max (x % 2) (y % 2)
bit_or_halves zero y = omega (arith, zero-bit_or y, zero-bit_or (y / 2))
bit_or_halves (suc x) y =
    let half : ℕ = suc x / 2 in
    let spare =
      digits_extra (λ b. b) max (x - half) half x half (y / 2) (omega arith) (omega arith) in
    omega (arith, bit_or-bitwise (suc x) y, bit_or-bitwise half (y / 2), spare)

double_shift : (q k : ℕ) → q * 2 ^ suc k ≡ 2 * (q * 2 ^ k)
double_shift q k = omega (arith, ap (λ (t : ℕ). q * t) (pow-suc 2 k))

-- `r | (q << k)` is a sum where `r` fits `k` bits.
pub bit_or_fields : (k q r : ℕ) → r < 2 ^ k → bit_or r (q * 2 ^ k) ≡ r + q * 2 ^ k
bit_or_fields zero q zero fits = omega (arith, zero-bit_or (q * 2 ^ 0))
bit_or_fields zero q (suc r) fits = absurd (omega arith)
bit_or_fields (suc k) q r fits = ground (
  arith,
  bit_or_halves r (q * 2 ^ suc k),
  double_shift q k,
  pow-suc 2 k,
  bit_or_fields k q (r / 2),
)

-- No operation on digits leaves the range of its arguments.
module _ (z : ℕ → ℕ) (f : ℕ → ℕ → ℕ) (rest : (b : ℕ) → z b ≤ b)
    (digit : (a b : ℕ) → a < 2 → b < 2 → f a b < 2) where
  digits-lt : (n k a b : ℕ) → a < 2 ^ k → b < 2 ^ k → digits z f n a b < 2 ^ k
  digits-lt zero k a b p q = omega (arith, rest b)
  digits-lt (suc n) k zero b p q = omega (arith, rest b)
  digits-lt (suc n) zero (suc a) b p q = absurd (omega arith)
  digits-lt (suc n) (suc k) (suc a) b p q = omega (
    arith,
    pow-suc 2 k,
    digit (suc a % 2) (b % 2) (omega arith) (omega arith),
    digits-lt n k (suc a / 2) (b / 2) (omega (arith, pow-suc 2 k)) (omega (arith, pow-suc 2 k)),
  )

pub bit_or-lt : (k a b : ℕ) → a < 2 ^ k → b < 2 ^ k → bit_or a b < 2 ^ k
bit_or-lt k a b p q =
    rw bit_or-bitwise
      (digits-lt (λ b. b) max (λ b. omega arith) (λ a b p q. omega arith) a k a b p q)

pub bit_and-lt : (k a b : ℕ) → a < 2 ^ k → b < 2 ^ k → bit_and a b < 2 ^ k
bit_and-lt k a b p q =
    rw bit_and-bitwise
      (digits-lt (λ b. 0) min (λ b. omega arith) (λ a b p q. omega arith) a k a b p q)

differ-lt : (a b : ℕ) → a < 2 → b < 2 → differ a b < 2
differ-lt zero b p q = q
differ-lt (suc a) zero p q = p
differ-lt (suc a) (suc b) p q = differ-lt a b (omega arith) (omega arith)

pub bit_xor-lt : (k a b : ℕ) → a < 2 ^ k → b < 2 ^ k → bit_xor a b < 2 ^ k
bit_xor-lt k a b p q =
    rw bit_xor-bitwise (digits-lt (λ b. b) differ (λ b. omega arith) differ-lt a k a b p q)
