-- ===== src/Policy/Bloom/Bits.antt =====
-- internal/policy/bloom.go: single bits of the filter's words.
use native.Mathlib.Nat.{one-le-pow, mod-lt}
use go_mcache.Base.{
  ℕ, zero, suc, ◌*◌, ◌/◌, ◌%◌, ◌^◌, ◌≤◌, ◌<◌, ◌≡◌, refl, bit_or, List, Bool, true, false, arith,
  length, get_or, set, get_or-set, length-set, Bool-cases, inl, inr, ◌==◌, if◌then◌else◌,
}
use go_mcache.Base.Bits.{bit, bit-le-one, bit_and-pow, bit-or, bit-pow}
use go_mcache.Policy.Bloom.{index, mask, is_clear, mark}

-- bit `idx` of the filter, 0 or 1
abbrev pub bit_at : List ℕ → ℕ → ℕ
bit_at bits idx = bit (get_or bits (idx / 64) 0) (idx % 64)

pub is_clear_lem : (bits : List ℕ) (idx : ℕ) → is_clear bits idx ≡ (bit_at bits idx == 0)
is_clear_lem bits idx = rw (bit_and-pow (get_or bits (idx / 64) 0) (idx % 64)) (
    scaled (bit_at bits idx) (2 ^ (idx % 64)) (one-le-pow (idx % 64) 2 (omega arith))
      (bit-le-one _ (idx % 64)))
  where
    scaled : (b p : ℕ) → 0 < p → b ≤ 1 → (b * p == 0) ≡ (b == 0)
    scaled zero p h k = ground arith
    scaled (suc zero) p h k = ground arith
    scaled (suc (suc b)) p h k = absurd (omega arith)

-- Bits are added, never taken away, and the number of words stays.
pub record Grows (bits more : List ℕ) : Type 0 where
  pub kept : (j : ℕ) → bit_at bits j ≡ 1 → bit_at more j ≡ 1
  pub same_size : length more ≡ length bits

pub Grows-trans : (a b c : List ℕ) → Grows a b → Grows b c → Grows a c
Grows-trans a b c g h = record {
  kept = λ j e. h.kept j (g.kept j e);
  same_size = omega (arith, g.same_size, h.same_size);
}

bit_at-set :
    (bits : List ℕ) (idx j : ℕ)
    → idx / 64 < length bits
    → bit_at (set bits (idx / 64) (bit_or (get_or bits (idx / 64) 0) (mask idx))) j
      ≡ (if idx == j then 1 else bit_at bits j)
bit_at-set bits idx j h = ground (
  arith,
  get_or-set bits (idx / 64) (j / 64) (bit_or (get_or bits (idx / 64) 0) (mask idx)) 0 h,
  bit-or (get_or bits (idx / 64) 0) (mask idx) (j % 64),
  bit-pow (idx % 64) (j % 64),
  bit-le-one (get_or bits (j / 64) 0) (j % 64),
)

mark_lem :
    (bits : List ℕ) (idx : ℕ) (present : Bool)
    → mark bits idx present ≡ (
        if bit_at bits idx == 0
        then (set bits (idx / 64) (bit_or (get_or bits (idx / 64) 0) (mask idx)), false)
        else (bits, present))
unfolding mark
mark_lem bits idx present = rw (is_clear_lem bits idx)

module _ (bits : List ℕ) (idx : ℕ) (present : Bool) (h : idx / 64 < length bits) where
  pub mark-Grows : Grows bits (mark bits idx present).0
  mark-Grows = elim (Bool-cases (bit_at bits idx == 0)) [
    | inl clear ↦
        rw (mark_lem bits idx present, clear)
          (record {
            kept = λ j e. ground (arith, bit_at-set bits idx j h);
            same_size = length-set bits (idx / 64) _;
          })
    | inr taken ↦
        rw (mark_lem bits idx present, taken) (record { kept = λ j e. e; same_size = refl })
  ]

  pub mark_sets : bit_at (mark bits idx present).0 idx ≡ 1
  mark_sets = elim (Bool-cases (bit_at bits idx == 0)) [
    | inl clear ↦ rw (mark_lem bits idx present, clear) (ground (arith, bit_at-set bits idx idx h))
    | inr taken ↦
        rw (mark_lem bits idx present, taken)
          (ground (arith, bit-le-one (get_or bits (idx / 64) 0) (idx % 64)))
  ]

-- a bit that is there leaves the words alone, a clear one makes the answer false
pub mark_present :
    (bits : List ℕ) (idx : ℕ) (present : Bool)
    → (is_clear bits idx ≡ false)
    → mark bits idx present ≡ (bits, present)
unfolding mark
mark_present bits idx present e = rw e

pub mark_clear :
    (bits : List ℕ) (idx : ℕ) (present : Bool)
    → (is_clear bits idx ≡ true)
    → (mark bits idx present).1 ≡ false
unfolding mark
mark_clear bits idx present e = rw e

pub index-lt : (num_bits h i : ℕ) → 0 < num_bits → index num_bits h i < num_bits
unfolding index
index-lt num_bits h i pos = mod-lt _ pos
