-- ===== src/Common/Xor.antt =====
-- Exclusive or of numbers is undone by itself.
use Prim.Native.Nat.{
  ℕ, zero, suc, ◌+◌, ◌*◌, ◌/◌, ◌%◌, ◌≤◌, ◌<◌, bit_xor, digits, differ, bit_xor-bitwise,
}
use mathlib.Core.Path.{◌≡◌, refl, ◌∙◌, ap}
use native.Mathlib.Omega.{arith}

abbrev xor_digits : ℕ → ℕ → ℕ → ℕ
xor_digits n a b = digits (λ b. b) differ n a b

xor_digits_fuel : (n m a b : ℕ) → a ≤ n → a ≤ m → xor_digits n a b ≡ xor_digits m a b
xor_digits_fuel zero zero a b p q = refl
xor_digits_fuel zero (suc m) zero b p q = refl
xor_digits_fuel zero (suc m) (suc a) b p q = absurd (omega arith)
xor_digits_fuel (suc n) zero zero b p q = refl
xor_digits_fuel (suc n) zero (suc a) b p q = absurd (omega arith)
xor_digits_fuel (suc n) (suc m) zero b p q = refl
xor_digits_fuel (suc n) (suc m) (suc a) b p q =
    omega (arith, xor_digits_fuel n m (suc a / 2) (b / 2) (omega arith) (omega arith))

pub zero-bit_xor : (b : ℕ) → bit_xor 0 b ≡ b
zero-bit_xor b = bit_xor-bitwise 0 b

differ_zero : (a : ℕ) → differ a 0 ≡ a
differ_zero zero = refl
differ_zero (suc a) = refl

-- On binary digits
differ_digits : (a b : ℕ) → a < 2 → b < 2 → differ a b ≡ (a + b) % 2
differ_digits zero b p q = omega (arith, p, q)
differ_digits (suc zero) zero p q = omega arith
differ_digits (suc zero) (suc zero) p q = omega arith
differ_digits (suc zero) (suc (suc b)) p q = absurd (omega arith)
differ_digits (suc (suc a)) b p q = absurd (omega arith)

bit_xor_step : (a b : ℕ) → bit_xor a b ≡ bit_xor (a / 2) (b / 2) * 2 + (a + b) % 2
bit_xor_step zero b = omega (arith, zero-bit_xor b, zero-bit_xor (b / 2))
bit_xor_step (suc a) b = omega (
  arith,
  bit_xor-bitwise (suc a) b,
  bit_xor-bitwise (suc a / 2) (b / 2),
  xor_digits_fuel a (suc a / 2) (suc a / 2) (b / 2) (omega arith) (omega arith),
  differ_digits (suc a % 2) (b % 2) (omega arith) (omega arith),
)

bit_xor-zero_fuel : (n a : ℕ) → a ≤ n → bit_xor a 0 ≡ a
bit_xor-zero_fuel zero zero h = zero-bit_xor 0
bit_xor-zero_fuel zero (suc a) h = absurd (omega (arith, h))
bit_xor-zero_fuel (suc n) a h = omega (arith, bit_xor_step a 0, bit_xor-zero_fuel n (a / 2))

-- By the digits of the mask
bit_xor_twice_fuel : (n a b : ℕ) → a ≤ n → b ≤ n → bit_xor (bit_xor a b) b ≡ a
bit_xor_twice_fuel zero zero zero p q = ap (λ t. bit_xor t 0) (zero-bit_xor 0) ∙ zero-bit_xor 0
bit_xor_twice_fuel zero zero (suc b) p q = absurd (omega (arith, q))
bit_xor_twice_fuel zero (suc a) b p q = absurd (omega (arith, p))
bit_xor_twice_fuel (suc n) a b p q =
    let half : bit_xor a b / 2 ≡ bit_xor (a / 2) (b / 2) = omega (arith, bit_xor_step a b) in
    omega (
      arith,
      bit_xor_step a b,
      bit_xor_step (bit_xor a b) b,
      ap (λ t. bit_xor t (b / 2)) half,
      bit_xor_twice_fuel n (a / 2) (b / 2) (omega (arith, p)) (omega (arith, q)),
    )

pub bit_xor_twice : (a b : ℕ) → bit_xor (bit_xor a b) b ≡ a
bit_xor_twice a b = bit_xor_twice_fuel (a + b) a b (omega arith) (omega arith)

-- 2 ^ k
abbrev doubled : ℕ → ℕ
doubled zero = 1
doubled (suc k) = doubled k * 2

below : (k a b : ℕ) → a < doubled k → b < doubled k → bit_xor a b < doubled k
below zero zero zero p q = omega (arith, zero-bit_xor 0)
below zero zero (suc b) p q = absurd (omega (arith, q))
below zero (suc a) b p q = absurd (omega (arith, p))
below (suc k) a b p q =
    omega (arith, bit_xor_step a b, below k (a / 2) (b / 2) (omega (arith, p)) (omega (arith, q)))

-- The result has no more binary digits than the two numbers, here for bytes and for 16 bits.
pub bit_xor_byte : (a b : ℕ) → a < 256 → b < 256 → bit_xor a b < 256
bit_xor_byte a b p q = below 8 a b p q

pub bit_xor_word : (a b : ℕ) → a < 65536 → b < 65536 → bit_xor a b < 65536
bit_xor_word a b p q = below 16 a b p q
