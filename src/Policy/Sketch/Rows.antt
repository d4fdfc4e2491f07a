-- ===== src/Policy/Sketch/Rows.antt =====
-- internal/policy/sketch.go: the whole Count-Min Sketch. What Increment, Estimate, Reset and Clear do to
-- the estimates.
use go_mcache.Base.{
  ℕ, ◌+◌, ◌-◌, ◌/◌, ◌≤◌, ◌<◌, ◌≡◌, refl, min, List, [], ◌∷◌, arith, All, length, ltb, if◌then◌else◌,
}
use go_mcache.Base.Bits.{bit_and-le}
use go_mcache.Policy.Sketch.{
  CmSketch, get_at, increment_at, index, increment_rows, estimate_rows, increment, estimate,
}
use go_mcache.Policy.Sketch.Nibbles.{
  IsRow, get_at-lt, length-increment_at, increment_at-IsRow, get_at-increment_at,
}

-- a row of `width` counters
abbrev pub Fits : ℕ → List ℕ → Type 0
Fits width row = IsRow row × (length row ≡ (width + 1) / 2)

pub record IsValid (s : CmSketch) : Type 0 where
  pub rows_fit : All (Fits s.width) s.rows
  pub four_rows : length s.rows ≡ 4
  pub four_seeds : length s.seeds ≡ 4
  pub wide : 0 < s.width

index-lt : (w seed h : ℕ) → 0 < w → index w seed h < w
unfolding index
index-lt w seed h pos = omega (arith, bit_and-le _ (w - 1))

-- Every index stands within its row.
pub index_in_row :
    (w seed h : ℕ) (row : List ℕ) → 0 < w → Fits w row → index w seed h / 2 < length row
index_in_row w seed h row pos fits = omega (arith, index-lt w seed h pos, fits.1)

module _ (w h : ℕ) (pos : 0 < w) where
  increment_rows-Fits :
      (seeds : List ℕ) (rows : List (List ℕ))
      → All (Fits w) rows
      → All (Fits w) (increment_rows w h seeds rows)
  unfolding increment_rows
  increment_rows-Fits (seed ∷ seeds) (row ∷ rows) fits = (
    (
      increment_at-IsRow row fits.0.0 (index w seed h),
      omega (arith, fits.0.1, length-increment_at row (index w seed h)),
    ),
    increment_rows-Fits seeds rows fits.1,
  )
  increment_rows-Fits [] rows fits = fits
  increment_rows-Fits (seed ∷ seeds) [] fits = tt

  length-increment_rows :
      (seeds : List ℕ) (rows : List (List ℕ)) → length (increment_rows w h seeds rows) ≡ length rows
  unfolding increment_rows
  length-increment_rows (seed ∷ seeds) (row ∷ rows) =
      omega (arith, length-increment_rows seeds rows)
  length-increment_rows [] rows = refl
  length-increment_rows (seed ∷ seeds) [] = refl

  estimate_rows-increment_self :
      (seeds : List ℕ) (rows : List (List ℕ)) (a b : ℕ)
      → All (Fits w) rows
      → b ≡ min 15 (a + 1)
      → estimate_rows b w h seeds (increment_rows w h seeds rows)
        ≡ min 15 (estimate_rows a w h seeds rows + 1)
  unfolding increment_rows estimate_rows
  estimate_rows-increment_self (seed ∷ seeds) (row ∷ rows) a b fits e =
      let idx = index w seed h in
      estimate_rows-increment_self seeds rows (if ltb (get_at row idx) a then get_at row idx else a)
        (if ltb (get_at (increment_at row idx) idx) b then get_at (increment_at row idx) idx else b)
        fits.1
        (ground (
          arith,
          get_at-increment_at row fits.0.0 idx idx (index_in_row w seed h row pos fits.0),
          get_at-lt row idx,
        ))
  estimate_rows-increment_self [] rows a b fits e = e
  estimate_rows-increment_self (seed ∷ seeds) [] a b fits e = e

  estimate_rows-increment_other :
      (j : ℕ) (seeds : List ℕ) (rows : List (List ℕ)) (a b : ℕ)
      → All (Fits w) rows
      → a ≤ b
      → b ≤ a + 1
      → (estimate_rows a w j seeds rows ≤ estimate_rows b w j seeds (increment_rows w h seeds rows))
        × (estimate_rows b w j seeds (increment_rows w h seeds rows)
            ≤ estimate_rows a w j seeds rows + 1)
  unfolding increment_rows estimate_rows
  estimate_rows-increment_other j (seed ∷ seeds) (row ∷ rows) a b fits p q =
      let idx = index w seed h in
      let at = index w seed j in
      let step = get_at-increment_at row fits.0.0 idx at (index_in_row w seed h row pos fits.0) in
      estimate_rows-increment_other j seeds rows
        (if ltb (get_at row at) a then get_at row at else a)
        (if ltb (get_at (increment_at row idx) at) b then get_at (increment_at row idx) at else b)
        fits.1 (ground (arith, step, get_at-lt row at)) (ground (arith, step, get_at-lt row at))
  estimate_rows-increment_other j [] rows a b fits p q = (p, q)
  estimate_rows-increment_other j (seed ∷ seeds) [] a b fits p q = (p, q)

estimate_rows-le :
    (a w h : ℕ) (seeds : List ℕ) (rows : List (List ℕ)) → estimate_rows a w h seeds rows ≤ a
unfolding estimate_rows
estimate_rows-le a w h (seed ∷ seeds) (row ∷ rows) =
    let least : ℕ =
      if ltb (get_at row (index w seed h)) a then get_at row (index w seed h) else a in
    ground (arith, estimate_rows-le least w h seeds rows)
estimate_rows-le a w h [] rows = omega arith
estimate_rows-le a w h (seed ∷ seeds) [] = omega arith

pub estimate-le : (s : CmSketch) (h : ℕ) → estimate s h ≤ 15
unfolding estimate
estimate-le s h = estimate_rows-le 15 s.width h s.seeds s.rows

module _ (s : CmSketch) (v : IsValid s) where
  pub increment-IsValid : (h : ℕ) → IsValid (increment s h)
  unfolding increment
  increment-IsValid h = record {
    rows_fit = increment_rows-Fits s.width h v.wide s.seeds s.rows v.rows_fit;
    four_rows = omega (arith, v.four_rows, length-increment_rows s.width h v.wide s.seeds s.rows);
    four_seeds = v.four_seeds;
    wide = v.wide;
  }

  -- In a well-formed sketch, after an increment the estimate of that hash is one more, but never above 15.
  pub estimate-increment_self : (h : ℕ) → estimate (increment s h) h ≡ min 15 (estimate s h + 1)
  unfolding increment estimate
  estimate-increment_self h =
      estimate_rows-increment_self s.width h v.wide s.seeds s.rows 15 15 v.rows_fit refl

  -- In a well-formed sketch, an increment raises the estimate of any other hash by at most one, and lowers none.
  pub estimate-increment_other :
      (h j : ℕ)
      → (estimate s j ≤ estimate (increment s h) j)
        × (estimate (increment s h) j ≤ estimate s j + 1)
  unfolding increment estimate
  estimate-increment_other h j =
      estimate_rows-increment_other s.width h v.wide j s.seeds s.rows 15 15 v.rows_fit (omega arith)
        (omega arith)
