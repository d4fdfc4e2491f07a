-- ===== src/Policy/Cuckoo/Alternate.antt =====
-- internal/policy/cuckoo.go: indexAlt goes back and forth between the two buckets of a fingerprint.
use go_mcache.Base.{ℕ, ◌*◌, ◌%◌, ◌^◌, ◌<◌, ◌≡◌, bit_xor, arith}
use go_mcache.Base.Bits.{bit_and_mask, bit_xor_twice}
use go_mcache.Policy.Cuckoo.{index1, index_alt}
use native.Mathlib.Nat.{one-le-pow}

module _ (k : ℕ) where
  mod_pow_lt : (a : ℕ) → a % 2 ^ k < 2 ^ k
  mod_pow_lt a = grind (arith, one-le-pow k 2)

  pub index1-lt : (h : ℕ) → index1 (2 ^ k) h < 2 ^ k
  unfolding index1
  index1-lt h = rw (bit_and_mask k h) (mod_pow_lt h)

  pub index_alt-lt : (i fp : ℕ) → index_alt (2 ^ k) i fp < 2 ^ k
  unfolding index_alt
  index_alt-lt i fp = rw (bit_and_mask k (bit_xor i (fp * 0x5bd1e995 % 2 ^ 64))) (mod_pow_lt _)

  pub index_alt_twice : (i fp : ℕ) → i < 2 ^ k → index_alt (2 ^ k) (index_alt (2 ^ k) i fp) fp ≡ i
  unfolding index_alt
  index_alt_twice i fp h =
      let c = fp * 0x5bd1e995 % 2 ^ 64 in
      rw (bit_and_mask k (bit_xor i c), bit_and_mask k (bit_xor (bit_xor i c % 2 ^ k) c))
        (bit_xor_twice k i c h)
