-- ===== src/Base/Bits.antt =====
-- Laws of `&` and `|` at variables, from the digit recursion that the native operations stand for:
-- single bits, and the mask of a power of two.
use Prim.Native.Nat.{
  ℕ, zero, suc, ◌+◌, ◌-◌, ◌*◌, ◌/◌, ◌%◌, ◌^◌, ◌≤◌, ◌<◌, min, max, bit_and, bit_or, bit_xor, digits,
  bitwise, differ, bit_and-bitwise, bit_or-bitwise, bit_xor-bitwise,
}
use mathlib.Core.Path.{◌≡◌, refl, ◌∙◌, ap}
use native.Mathlib.Nat.{pow-suc, one-le-pow}
use native.Mathlib.Decide.{ℕ_discrete}
use native.Mathlib.Omega.{arith}
use go_mcache.Base.Tests.{◌==◌, if◌then◌else◌}

module _ (z : ℕ → ℕ) (f : ℕ → ℕ → ℕ) where
  fuel_suc : (n a b : ℕ) → a ≤ n → digits z f (suc n) a b ≡ digits z f n a b
  fuel_suc zero zero b h = refl
  fuel_suc zero (suc a) b h = absurd (omega arith)
  fuel_suc (suc n) zero b h = refl
  fuel_suc (suc n) (suc a) b h =
      ap (λ t. t * 2 + f (suc a % 2) (b % 2)) (fuel_suc n (suc a / 2) (b / 2) (omega arith))

  fuel_enough : (n a b : ℕ) → a ≤ n → digits z f n a b ≡ bitwise z f a b
  fuel_enough zero zero b h = refl
  fuel_enough zero (suc a) b h = absurd (omega arith)
  fuel_enough (suc n) a b h = elim (ℕ_discrete a (suc n)) [
    | yes e ↦ rw e
    | no ne ↦ fuel_suc n a b (omega arith) ∙ fuel_enough n a b (omega arith)
  ]

  lowest_digit :
      (m w : ℕ)
      → let a = suc m in bitwise z f a w ≡ bitwise z f (a / 2) (w / 2) * 2 + f (a % 2) (w % 2)
  lowest_digit m w =
      ap (λ t. t * 2 + f (suc m % 2) (w % 2)) (fuel_enough m (suc m / 2) (w / 2) (omega arith))

pub bit_and_halves : (a b : ℕ) → bit_and a b ≡ bit_and (a / 2) (b / 2) * 2 + min (a % 2) (b % 2)
bit_and_halves zero b = simp bit_and-bitwise (omega arith)
bit_and_halves (suc a) b = simp bit_and-bitwise (lowest_digit (λ t. 0) min a b)

pub bit_or_halves : (a b : ℕ) → bit_or a b ≡ bit_or (a / 2) (b / 2) * 2 + max (a % 2) (b % 2)
bit_or_halves zero b = simp bit_or-bitwise (omega arith)
bit_or_halves (suc a) b = simp bit_or-bitwise (lowest_digit (λ t. t) max a b)

-- The result of `&` is at most the mask.
bit_and-le_fuel : (n a b : ℕ) → a ≤ n → bit_and a b ≤ b
bit_and-le_fuel zero zero b h = omega (arith, bit_and_halves 0 b, bit_and-bitwise 0 b)
bit_and-le_fuel zero (suc a) b h = absurd (omega arith)
bit_and-le_fuel (suc n) zero b h = omega (arith, bit_and-bitwise 0 b)
bit_and-le_fuel (suc n) (suc a) b h =
    omega (arith, bit_and_halves (suc a) b, bit_and-le_fuel n (suc a / 2) (b / 2) (omega arith))

pub bit_and-le : (a b : ℕ) → bit_and a b ≤ b
bit_and-le a b = bit_and-le_fuel a a b (omega arith)

pub zero-bit_and : (b : ℕ) → bit_and 0 b ≡ 0
zero-bit_and b = bit_and-bitwise 0 b

bit_and-zero : (a : ℕ) → bit_and a 0 ≡ 0
bit_and-zero a = omega (arith, bit_and-le a 0)

-- the digit of weight 2^k
abbrev pub bit : ℕ → ℕ → ℕ
bit x zero = x % 2
bit x (suc k) = bit (x / 2) k

pub bit-le-one : (x k : ℕ) → bit x k ≤ 1
bit-le-one x zero = omega arith
bit-le-one x (suc k) = bit-le-one (x / 2) k

-- `x & (1 << k)`
pub bit_and-pow : (x k : ℕ) → bit_and x (2 ^ k) ≡ bit x k * 2 ^ k
bit_and-pow x zero = omega (arith, bit_and_halves x 1, bit_and-zero (x / 2))
bit_and-pow x (suc k) =
    rw (pow-suc 2 k) (ground (arith, bit_and_halves x (2 ^ k * 2), bit_and-pow (x / 2) k))

pub bit-or : (a b k : ℕ) → bit (bit_or a b) k ≡ max (bit a k) (bit b k)
bit-or a b zero = omega (arith, bit_or_halves a b)
bit-or a b (suc k) = rw (halved, bit-or (a / 2) (b / 2) k)
  where
    halved : bit_or a b / 2 ≡ bit_or (a / 2) (b / 2)
    halved = omega (arith, bit_or_halves a b)

bit-zero : (k : ℕ) → bit 0 k ≡ 0
bit-zero zero = refl
bit-zero (suc k) = bit-zero k

pub bit-pow : (j k : ℕ) → bit (2 ^ j) k ≡ (if j == k then 1 else 0)
bit-pow zero zero = refl
bit-pow zero (suc k) = ground (arith, bit-zero k)
bit-pow (suc j) zero = ground (arith, pow-suc 2 j)
bit-pow (suc j) (suc k) = rw halved (ground (arith, bit-pow j k))
  where
    halved : 2 ^ suc j / 2 ≡ 2 ^ j
    halved = omega (arith, pow-suc 2 j)

mod-mul-two : (a m : ℕ) → 0 < m → a % (m * 2) ≡ a / 2 % m * 2 + a % 2
mod-mul-two a m h = grind arith

-- `a & (2^k - 1)` is the remainder by 2^k.
pub bit_and_mask : (k a : ℕ) → bit_and a (2 ^ k - 1) ≡ a % 2 ^ k
bit_and_mask zero a = omega (arith, bit_and-zero a)
bit_and_mask (suc k) a =
    rw (pow-suc 2 k, mod-mul-two a (2 ^ k) (one-le-pow k 2 (omega arith)))
      (ground (arith, one-le-pow k 2, bit_and_halves a (2 ^ k * 2 - 1), bit_and_mask k (a / 2)))

bit_or-zero_fuel : (n b : ℕ) → b ≤ n → bit_or b 0 ≡ b
bit_or-zero_fuel zero zero h = bit_or-bitwise 0 0
bit_or-zero_fuel zero (suc b) h = absurd (omega arith)
bit_or-zero_fuel (suc n) zero h = bit_or-bitwise 0 0
bit_or-zero_fuel (suc n) (suc b) h =
    omega (arith, bit_or_halves (suc b) 0, bit_or-zero_fuel n (suc b / 2) (omega arith))

pub bit_or-zero : (b : ℕ) → bit_or b 0 ≡ b
bit_or-zero b = bit_or-zero_fuel b b (omega arith)

-- a number below 2^k and the bit of weight 2^k
pub bit_or_high : (k a : ℕ) → a < 2 ^ k → bit_or a (2 ^ k) ≡ a + 2 ^ k
bit_or_high zero zero h = bit_or-bitwise 0 1
bit_or_high zero (suc a) h = absurd (omega arith)
bit_or_high (suc k) a h =
    rw (pow-suc 2 k)
      (ground (arith, pow-suc 2 k, bit_or_halves a (2 ^ k * 2), bit_or_high k (a / 2)))

differ-lt : (x y : ℕ) → x < 2 → y < 2 → differ x y < 2
differ-lt zero y h k = k
differ-lt (suc x) zero h k = h
differ-lt (suc x) (suc y) h k = differ-lt x y (omega arith) (omega arith)

differ_twice : (x y : ℕ) → x < 2 → y < 2 → differ (differ x y) y ≡ x
differ_twice zero zero h k = refl
differ_twice zero (suc zero) h k = refl
differ_twice (suc zero) zero h k = refl
differ_twice (suc zero) (suc zero) h k = refl
differ_twice zero (suc (suc y)) h k = absurd (omega arith)
differ_twice (suc zero) (suc (suc y)) h k = absurd (omega arith)
differ_twice (suc (suc x)) y h k = absurd (omega arith)

bit_xor_halves : (a b : ℕ) → bit_xor a b ≡ bit_xor (a / 2) (b / 2) * 2 + differ (a % 2) (b % 2)
bit_xor_halves zero b = simp bit_xor-bitwise (omega arith)
bit_xor_halves (suc a) b = simp bit_xor-bitwise (lowest_digit (λ t. t) differ a b)

half-bit_xor : (a b : ℕ) → bit_xor a b / 2 ≡ bit_xor (a / 2) (b / 2)
half-bit_xor a b =
    omega (arith, bit_xor_halves a b, differ-lt (a % 2) (b % 2) (omega arith) (omega arith))

parity-bit_xor : (a b : ℕ) → bit_xor a b % 2 ≡ differ (a % 2) (b % 2)
parity-bit_xor a b =
    omega (arith, bit_xor_halves a b, differ-lt (a % 2) (b % 2) (omega arith) (omega arith))

-- `x ^ c`, cut to k bits, twice
pub bit_xor_twice : (k a c : ℕ) → a < 2 ^ k → bit_xor (bit_xor a c % 2 ^ k) c % 2 ^ k ≡ a
bit_xor_twice zero a c h = omega arith
bit_xor_twice (suc k) a c h =
    let m = 2 ^ k in
    let x = bit_xor a c in
    let pos : 0 < m = one-le-pow k 2 (omega arith) in
    let double : 2 ^ suc k ≡ m * 2 = pow-suc 2 k in
    let y = x % (m * 2) in
    let cut : y ≡ x / 2 % m * 2 + x % 2 = mod-mul-two x m pos in
    let upper : y / 2 ≡ bit_xor (a / 2) (c / 2) % m = rw (← half-bit_xor a c) (omega arith) in
    let lower : y % 2 ≡ differ (a % 2) (c % 2) = rw (← parity-bit_xor a c) (omega arith) in
    let high : bit_xor y c / 2 % m ≡ a / 2 =
      rw (half-bit_xor y c, upper) (bit_xor_twice k (a / 2) (c / 2) (omega arith)) in
    let low : bit_xor y c % 2 ≡ a % 2 =
      rw (parity-bit_xor y c, lower) (differ_twice (a % 2) (c % 2) (omega arith) (omega arith)) in
    rw double (omega (arith, mod-mul-two (bit_xor y c) m pos))
