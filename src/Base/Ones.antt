-- ===== src/Base/Ones.antt =====
-- The cascade `n |= n >> 1; n |= n >> 2; ...`, which sets every bit under the highest one.
use Prim.Native.Nat.{ℕ, zero, suc, ◌+◌, ◌*◌, ◌/◌, ◌^◌, ◌≤◌, ◌<◌, bit_or}
use mathlib.Core.Path.{◌≡◌, ◌∙◌, ap}
use native.Mathlib.Nat.{pow-suc, div-one, div-le_self, div-div-eq-div-mul}
use native.Mathlib.Decide.{dec_lt}
use native.Mathlib.Omega.{arith}
use go_mcache.Base.Bits.{bit, bit-or, bit-le-one, bit_or_halves}

-- the w highest of k bits are set
pub record IsOnes (k w x : ℕ) : Type 0 where
  pub below : x < 2 ^ k
  pub high : (j : ℕ) → j < k → k ≤ j + w → bit x j ≡ 1

bit_or-lt : (k a b : ℕ) → a < 2 ^ k → b < 2 ^ k → bit_or a b < 2 ^ k
bit_or-lt zero zero zero h h' = omega arith
bit_or-lt zero (suc a) b h h' = absurd (omega arith)
bit_or-lt zero a (suc b) h h' = absurd (omega arith)
bit_or-lt (suc k) a b h h' = omega (
  arith,
  pow-suc 2 k,
  bit_or_halves a b,
  bit_or-lt k (a / 2) (b / 2) (omega (arith, pow-suc 2 k)) (omega (arith, pow-suc 2 k)),
)

bit-shift : (x s j : ℕ) → bit (x / 2 ^ s) j ≡ bit x (j + s)
bit-shift x zero j = rw div-one (ap (bit x) at_zero)
  where
    at_zero : j ≡ j + 0
    at_zero = omega arith
bit-shift x (suc s) j = rw (pow-suc 2 s, shifted) (bit-shift (x / 2) s j ∙ ap (bit x) later)
  where
    shifted : x / (2 ^ s * 2) ≡ x / 2 / 2 ^ s
    shifted = grind (arith, div-div-eq-div-mul x 2 (2 ^ s))

    later : suc (j + s) ≡ j + suc s
    later = omega arith

pub IsOnes-shift : (k w s x : ℕ) → s ≤ w → IsOnes k w x → IsOnes k (w + s) (bit_or x (x / 2 ^ s))
IsOnes-shift k w s x h ones = record {
  below = bit_or-lt k x (x / 2 ^ s) ones.below (omega (arith, ones.below, div-le_self x (2 ^ s)));
  high = λ j hj far. elim (dec_lt (j + w) k) [
    | yes near ↦ omega (
      arith,
      bit-or x (x / 2 ^ s) j,
      bit-shift x s j,
      ones.high (j + s) (omega arith) (omega arith),
      bit-le-one x j,
    )
    | no reached ↦
        omega
          (arith, bit-or x (x / 2 ^ s) j, ones.high j hj (omega arith), bit-le-one (x / 2 ^ s) j)
  ];
}

all_ones : (k x : ℕ) → x < 2 ^ k → ((j : ℕ) → j < k → bit x j ≡ 1) → x + 1 ≡ 2 ^ k
all_ones zero x h high = omega arith
all_ones (suc k) x h high = omega (
  arith,
  pow-suc 2 k,
  high 0 (omega arith),
  all_ones k (x / 2) (omega (arith, pow-suc 2 k)) (λ j hj. high (suc j) (omega arith)),
)

pub suc_of_IsOnes : (k w x : ℕ) → k ≤ w → IsOnes k w x → x + 1 ≡ 2 ^ k
suc_of_IsOnes k w x h ones = all_ones k x ones.below (λ j hj. ones.high j hj (omega arith))

bit-top : (m n : ℕ) → 2 ^ m ≤ n → n < 2 ^ suc m → bit n m ≡ 1
bit-top zero n h h' = omega arith
bit-top (suc m) n h h' =
    bit-top m (n / 2) (omega (arith, pow-suc 2 m)) (omega (arith, pow-suc 2 m, pow-suc 2 (suc m)))

-- the length of a number below 2^m
pub highest : (m n : ℕ) → n < 2 ^ m → (k : ℕ) × (k ≤ m) × IsOnes k 1 n
highest zero n h = (0, omega arith, record { below = h; high = λ j hj far. absurd (omega arith) })
highest (suc m) n h = elim (dec_lt n (2 ^ m)) [
  | yes less ↦ let (k, small, ones) = highest m n less in (k, omega arith, ones)
  | no more ↦ (
    suc m,
    omega arith,
    record {
      below = h;
      high = λ j hj far. let e : j ≡ m = omega arith in rw e (bit-top m n (omega arith) h);
    },
  )
]

-- the cascade of shifts, for n below 2^64
unfoldable pub smear : ℕ → ℕ
smear n =
    let n = bit_or n (n / 2) in
    let n = bit_or n (n / 2 ^ 2) in
    let n = bit_or n (n / 2 ^ 4) in
    let n = bit_or n (n / 2 ^ 8) in let n = bit_or n (n / 2 ^ 16) in bit_or n (n / 2 ^ 32)

pub smear_lem : (n : ℕ) → n < 2 ^ 63 → (k : ℕ) × (k ≤ 63) × (n < 2 ^ k) × (smear n + 1 ≡ 2 ^ k)
unfolding smear
smear_lem n h =
    let (k, small, top) = highest 63 n h in
    let o2 = IsOnes-shift k 1 1 n (omega arith) top in
    let o4 = IsOnes-shift k 2 2 _ (omega arith) o2 in
    let o8 = IsOnes-shift k 4 4 _ (omega arith) o4 in
    let o16 = IsOnes-shift k 8 8 _ (omega arith) o8 in
    let o32 = IsOnes-shift k 16 16 _ (omega arith) o16 in
    let o64 = IsOnes-shift k 32 32 _ (omega arith) o32 in
    (k, small, top.below, suc_of_IsOnes k 64 _ (omega arith) o64)
