-- ===== src/Policy/Sketch/Nibbles.antt =====
-- internal/policy/sketch.go: one row of counters.

use go_mcache.Base.{
  ℕ, zero, suc, ◌+◌, ◌*◌, ◌/◌, ◌%◌, ◌^◌, ◌<◌, ◌≡◌, refl, min, bit_and, bit_or, true, List, [], ◌∷◌,
  map, arith, All, length, get_or, set, get_or-set, length-set, Bool-cases, inl, inr, ltb→lt, ltb,
  ◌==◌, ==_iff, if◌then◌else◌,
}
use go_mcache.Base.Bits.{bit_and_mask}
use go_mcache.Tables.{passes_under, test_of_passes_under}
use go_mcache.Policy.Sketch.{nibble_of, with_nibble, get_at, increment_at, halve}

-- every byte is one
abbrev pub IsRow : List ℕ → Type 0
IsRow = All (λ b. b < 256)

low_table :
    passes_under (λ b. passes_under (λ v. bit_or (bit_and b 0xF0) v == b / 16 * 16 + v) 16) 256
    ≡ true
unfolding passes_under
low_table = refl

high_table :
    passes_under
      (λ b. passes_under (λ v. bit_or (bit_and b 0x0F) (v * 2 ^ 4 % 2 ^ 8) == b % 16 + v * 16) 16)
      256
    ≡ true
unfolding passes_under
high_table = refl

module _ (b v : ℕ) (hb : b < 256) (hv : v < 16) where
  low_written : bit_or (bit_and b 0xF0) v ≡ b / 16 * 16 + v
  low_written =
      (==_iff _ _).0 (test_of_passes_under _ 16 (test_of_passes_under _ 256 low_table b hb) v hv)

  high_written : bit_or (bit_and b 0x0F) (v * 2 ^ 4 % 2 ^ 8) ≡ b % 16 + v * 16
  high_written =
      (==_iff _ _).0 (test_of_passes_under _ 16 (test_of_passes_under _ 256 high_table b hb) v hv)

  with_nibble_lem :
      (n : ℕ) → with_nibble b n v ≡ (if n == 0 then b / 16 * 16 + v else b % 16 + v * 16)
  unfolding with_nibble
  with_nibble_lem n = rw (low_written, high_written)

nibble_of_lem : (b m : ℕ) → nibble_of b m ≡ (if m == 0 then b % 16 else b / 16 % 16)
unfolding nibble_of
nibble_of_lem b m = rw (bit_and_mask 4 b, bit_and_mask 4 (b / 2 ^ 4))

pub nibble_of-lt : (b m : ℕ) → nibble_of b m < 16
nibble_of-lt b m = ground (arith, nibble_of_lem b m)

with_nibble-lt : (b v n : ℕ) → b < 256 → v < 16 → with_nibble b n v < 256
with_nibble-lt b v n hb hv = ground (arith, with_nibble_lem b v hb hv n)

nibble_of-with_nibble :
    (b v n m : ℕ)
    → b < 256
    → v < 16
    → n < 2
    → m < 2
    → nibble_of (with_nibble b n v) m ≡ (if n == m then v else nibble_of b m)
nibble_of-with_nibble b v n m hb hv hn hm =
    ground
      (arith, with_nibble_lem b v hb hv n, nibble_of_lem (with_nibble b n v) m, nibble_of_lem b m)

get_or-lt : (row : List ℕ) (i : ℕ) → IsRow row → get_or row i 0 < 256
get_or-lt [] i h = omega arith
get_or-lt (b ∷ row) zero h = h.0
get_or-lt (b ∷ row) (suc i) h = get_or-lt row i h.1

set-IsRow : (row : List ℕ) (i b : ℕ) → IsRow row → b < 256 → IsRow (set row i b)
set-IsRow [] i b h k = tt
set-IsRow (c ∷ row) zero b h k = (k, h.1)
set-IsRow (c ∷ row) (suc i) b h k = (h.0, set-IsRow row i b h.1 k)

pub get_at-lt : (row : List ℕ) (idx : ℕ) → get_at row idx < 16
unfolding get_at
get_at-lt row idx = nibble_of-lt (get_or row (idx / 2) 0) (bit_and idx 1)

abbrev written : List ℕ → ℕ → ℕ
written row idx = with_nibble (get_or row (idx / 2) 0) (bit_and idx 1) (get_at row idx + 1)

increment_at_step :
    (row : List ℕ) (idx : ℕ)
    → increment_at row idx
      ≡ (if ltb (get_at row idx) 15 then set row (idx / 2) (written row idx) else row)
unfolding get_at increment_at
increment_at_step row idx = refl

pub length-increment_at : (row : List ℕ) (idx : ℕ) → length (increment_at row idx) ≡ length row
length-increment_at row idx =
    ground (arith, increment_at_step row idx, length-set row (idx / 2) (written row idx))

module _ (row : List ℕ) (h : IsRow row) where
  written-lt : (idx : ℕ) → get_at row idx < 15 → written row idx < 256
  written-lt idx below =
      with_nibble-lt (get_or row (idx / 2) 0) (get_at row idx + 1) (bit_and idx 1)
        (get_or-lt row (idx / 2) h) (omega arith)

  pub increment_at-IsRow : (idx : ℕ) → IsRow (increment_at row idx)
  increment_at-IsRow idx = elim (Bool-cases (ltb (get_at row idx) 15)) [
    | inl below ↦
        rw (increment_at_step row idx, below)
          (set-IsRow row (idx / 2) (written row idx) h (written-lt idx (ltb→lt _ _ below)))
    | inr full ↦ rw (increment_at_step row idx, full) h
  ]

  get_at-written :
      (idx j : ℕ)
      → idx / 2 < length row
      → get_at row idx < 15
      → get_at (set row (idx / 2) (written row idx)) j
        ≡ (if idx == j then get_at row idx + 1 else get_at row j)
  unfolding get_at
  get_at-written idx j inside below = ground (
    arith,
    get_or-set row (idx / 2) (j / 2) (written row idx) 0 inside,
    bit_and_mask 1 idx,
    bit_and_mask 1 j,
    nibble_of-with_nibble (get_or row (idx / 2) 0) (get_at row idx + 1) (bit_and idx 1)
        (bit_and j 1),
    get_or-lt row (idx / 2) h,
  )

  -- One counter goes up by one and stays at 15; the others are unchanged.
  pub get_at-increment_at :
      (idx j : ℕ)
      → idx / 2 < length row
      → get_at (increment_at row idx) j
        ≡ (if idx == j then min 15 (get_at row idx + 1) else get_at row j)
  get_at-increment_at idx j inside = elim (Bool-cases (ltb (get_at row idx) 15)) [
    | inl below ↦
        let less = ltb→lt (get_at row idx) 15 below in
        rw (increment_at_step row idx, below) (ground (arith, get_at-written idx j inside less))
    | inr full ↦ rw (increment_at_step row idx, full) (ground (arith, get_at-lt row idx))
  ]

halve_table : passes_under (λ b. halve b == b / 16 / 2 * 16 + b % 16 / 2) 256 ≡ true
unfolding passes_under halve
halve_table = refl

-- Reset halves both counters of a byte.
nibble_of-halve : (b m : ℕ) → b < 256 → nibble_of (halve b) m ≡ nibble_of b m / 2
nibble_of-halve b m h = ground (
  arith,
  (==_iff _ _).0 (test_of_passes_under _ 256 halve_table b h),
  nibble_of_lem b m,
  nibble_of_lem (halve b) m,
)

get_or-halve : (row : List ℕ) (i : ℕ) → get_or (map halve row) i 0 ≡ halve (get_or row i 0)
unfolding halve
get_or-halve [] i = refl
get_or-halve (b ∷ row) zero = refl
get_or-halve (b ∷ row) (suc i) = get_or-halve row i

pub get_at-halve :
    (row : List ℕ) (idx : ℕ) → IsRow row → get_at (map halve row) idx ≡ get_at row idx / 2
unfolding get_at
get_at-halve row idx h =
    rw (get_or-halve row (idx / 2))
      (nibble_of-halve (get_or row (idx / 2) 0) (bit_and idx 1) (get_or-lt row (idx / 2) h))

pub map-halve-IsRow : (row : List ℕ) → IsRow row → IsRow (map halve row)
map-halve-IsRow [] h = tt
map-halve-IsRow (b ∷ row) h = (
  omega (arith, (==_iff _ _).0 (test_of_passes_under _ 256 halve_table b h.0)),
  map-halve-IsRow row h.1,
)

pub length-halve : (row : List ℕ) → length (map halve row) ≡ length row
length-halve [] = refl
length-halve (b ∷ row) = omega (arith, length-halve row)
