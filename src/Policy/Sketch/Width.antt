-- ===== src/Policy/Sketch/Width.antt =====
-- internal/policy/sketch.go: newCMSketch rounds the width up to a power of two.
use native.Mathlib.Nat.{pow-suc, pow-le-pow_right, one-le-pow, lt_irrefl}
use go_mcache.Base.{
  ℕ, zero, suc, ◌+◌, ◌*◌, ◌/◌, ◌%◌, ◌^◌, ◌≤◌, ◌<◌, ◌≡◌, refl, List, some, arith, length, replicate,
  length-replicate, get_or-replicate, Bool-cases, inl, inr, ℕ_discrete, if◌then◌else◌,
}
use go_mcache.Base.Word.{slt, sle}
use go_mcache.Policy.Sketch.{CmSketch, estimate, round_up, new_cm_sketch, cm_width, zero_rows}
use go_mcache.Policy.Sketch.Nibbles.{IsRow}
use go_mcache.Policy.Sketch.Rows.{IsValid}
use go_mcache.Policy.Sketch.Counts.{estimate-zero}

round_up_ends :
    (f k width : ℕ)
    → width ≤ 2 ^ 62
    → k ≤ 62
    → 62 < k + f
    → (j : ℕ) × (round_up f (2 ^ k) width ≡ some (2 ^ j)) × (width ≤ 2 ^ j) × (j ≤ 62)
unfolding round_up
round_up_ends zero k width hw hk hf = absurd (omega arith)
round_up_ends (suc f) k width hw hk hf =
    let small : 2 ^ k ≤ 2 ^ 62 = pow-le-pow_right (omega arith) hk in
    elim (Bool-cases (slt (2 ^ k) width)) [
      | inl less ↦
          let short : 2 ^ k < width = ground arith in
          let double : 2 ^ k * 2 % 2 ^ 64 ≡ 2 ^ suc k = omega (arith, pow-suc 2 k) in
          rw (less, round_up)
            (rw double (round_up_ends f (suc k) width hw (below k hk (omega arith)) (omega arith)))
      | inr enough ↦ (k, rw enough, ground arith, hk)
    ]
  where
    below : (k : ℕ) → k ≤ 62 → 2 ^ k < 2 ^ 62 → suc k ≤ 62
    below k h lt = elim (ℕ_discrete k 62) [
      | yes e ↦ absurd (lt_irrefl (2 ^ 62) (rw e at lt))
      | no ne ↦ omega arith
    ]

replicate-IsRow : (n : ℕ) → IsRow (replicate n 0)
replicate-IsRow zero = tt
replicate-IsRow (suc n) = (omega arith, replicate-IsRow n)

-- For a width of at most 2^62, with four seeds, newCMSketch ends, with a power of two that is at least the width, four
-- empty rows of that many counters, and the estimate 0 for every hash.
pub new_cm_sketch-IsValid :
    (width : ℕ) (seeds : List ℕ)
    → width ≤ 2 ^ 62
    → length seeds ≡ 4
    → (s : CmSketch) × (new_cm_sketch width seeds ≡ some s)
      × IsValid s
      × (width ≤ s.width)
      × ((j : ℕ) × (s.width ≡ 2 ^ j))
      × ((h : ℕ) → estimate s h ≡ 0)
unfolding new_cm_sketch estimate
new_cm_sketch-IsValid width seeds h four =
    let asked = if sle width 0 then cm_width else width in
    let (j, ends, wide, _) = round_up_ends 64 0 asked (ground arith) (omega arith) (omega arith) in
    let row = replicate-IsRow ((2 ^ j + 1) / 2) in
    let size : length (replicate {A = ℕ} ((2 ^ j + 1) / 2) 0) ≡ (2 ^ j + 1) / 2 =
      length-replicate ((2 ^ j + 1) / 2) 0 in
    let s : CmSketch = record {
      rows = zero_rows ((2 ^ j + 1) / 2);
      seeds = seeds;
      width = 2 ^ j;
    } in
    (
      s,
      rw (ends, new_cm_sketch) refl,
      record {
        rows_fit = ((row, size), ((row, size), ((row, size), ((row, size), tt))));
        four_rows = refl;
        four_seeds = four;
        wide = one-le-pow j 2 (omega arith);
      },
      ground arith,
      (j, refl),
      λ k.
          estimate-zero (2 ^ j) k seeds (replicate ((2 ^ j + 1) / 2) 0) _ (omega arith)
            λ i. get_or-replicate ((2 ^ j + 1) / 2) i 0,
    )
