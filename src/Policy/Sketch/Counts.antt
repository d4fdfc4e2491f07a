-- ===== src/Policy/Sketch/Counts.antt =====
-- internal/policy/sketch.go: ageing (Reset, Clear), and the estimate against the true count of a run of
-- increments.
use go_mcache.Base.{
  ℕ, ◌+◌, ◌/◌, ◌≤◌, ◌<◌, ◌≡◌, refl, min, List, [], ◌∷◌, map, arith, All, length, get_or, ltb, ◌==◌,
  if◌then◌else◌,
}
use go_mcache.Policy.Sketch.{
  CmSketch, get_at, index, estimate_rows, increment, estimate, halve, reset, nibble_of,
}
use go_mcache.Policy.Sketch.Nibbles.{get_at-lt, get_at-halve, map-halve-IsRow, length-halve}
use go_mcache.Policy.Sketch.Rows.{
  Fits, IsValid, increment-IsValid, estimate-increment_self, estimate-increment_other,
}

module _ (w h : ℕ) where
  halved-Fits : (rows : List (List ℕ)) → All (Fits w) rows → All (Fits w) (map (map halve) rows)
  halved-Fits [] fits = tt
  halved-Fits (row ∷ rows) fits = (
    (map-halve-IsRow row fits.0.0, omega (arith, fits.0.1, length-halve row)),
    halved-Fits rows fits.1,
  )

  estimate_rows-halve :
      (seeds : List ℕ) (rows : List (List ℕ)) (a b : ℕ)
      → All (Fits w) rows
      → b ≡ a / 2
      → estimate_rows b w h seeds (map (map halve) rows) ≡ estimate_rows a w h seeds rows / 2
  unfolding estimate_rows
  estimate_rows-halve (seed ∷ seeds) (row ∷ rows) a b fits e =
      let idx = index w seed h in
      estimate_rows-halve seeds rows (if ltb (get_at row idx) a then get_at row idx else a)
        (if ltb (get_at (map halve row) idx) b then get_at (map halve row) idx else b) fits.1
        (ground (arith, get_at-halve row idx fits.0.0))
  estimate_rows-halve [] rows a b fits e = e
  estimate_rows-halve (seed ∷ seeds) [] a b fits e = e

  -- the first row brings both minima below 15
  estimate_halved :
      (seeds : List ℕ) (rows : List (List ℕ))
      → 0 < length seeds
      → 0 < length rows
      → All (Fits w) rows
      → estimate_rows 15 w h seeds (map (map halve) rows) ≡ estimate_rows 15 w h seeds rows / 2
  unfolding estimate_rows
  estimate_halved (seed ∷ seeds) (row ∷ rows) p q fits =
      let idx = index w seed h in
      estimate_rows-halve seeds rows (if ltb (get_at row idx) 15 then get_at row idx else 15)
        (if ltb (get_at (map halve row) idx) 15 then get_at (map halve row) idx else 15) fits.1
        (ground (arith, get_at-halve row idx fits.0.0, get_at-lt row idx))
  estimate_halved [] rows p q fits = absurd (omega arith)
  estimate_halved (seed ∷ seeds) [] p q fits = absurd (omega arith)

length-halved : (rows : List (List ℕ)) → length (map (map halve) rows) ≡ length rows
length-halved [] = refl
length-halved (row ∷ rows) = omega (arith, length-halved rows)

module _ (s : CmSketch) (v : IsValid s) where
  pub reset-IsValid : IsValid (reset s)
  unfolding reset
  reset-IsValid = record {
    rows_fit = halved-Fits s.width 0 s.rows v.rows_fit;
    four_rows = omega (arith, v.four_rows, length-halved s.rows);
    four_seeds = v.four_seeds;
    wide = v.wide;
  }

  -- Reset of a well-formed sketch halves every estimate, rounding down.
  pub estimate-reset : (h : ℕ) → estimate (reset s) h ≡ estimate s h / 2
  unfolding reset estimate
  estimate-reset h = estimate_halved s.width h s.seeds s.rows (omega arith) (omega arith) v.rows_fit

zero_is_least :
    (w h : ℕ) (seeds : List ℕ) (rows : List (List ℕ)) → estimate_rows 0 w h seeds rows ≡ 0
unfolding estimate_rows
zero_is_least w h (seed ∷ seeds) (row ∷ rows) =
    rw (not_less (get_at row (index w seed h))) (zero_is_least w h seeds rows)
  where
    not_less : (n : ℕ) → (if ltb n 0 then n else 0) ≡ 0
    not_less n = ground arith
zero_is_least w h [] rows = refl
zero_is_least w h (seed ∷ seeds) [] = refl

get_at-zero : (row : List ℕ) (idx : ℕ) → get_or row (idx / 2) 0 ≡ 0 → get_at row idx ≡ 0
unfolding get_at nibble_of
get_at-zero row idx z = rw z (ground arith)

-- a first row of zeros is enough for the estimate 0
pub estimate-zero :
    (w h : ℕ) (seeds : List ℕ) (row : List ℕ) (rows : List (List ℕ))
    → 0 < length seeds
    → ((i : ℕ) → get_or row i 0 ≡ 0)
    → estimate_rows 15 w h seeds (row ∷ rows) ≡ 0
unfolding estimate_rows
estimate-zero w h [] row rows p z = absurd (omega arith)
estimate-zero w h (seed ∷ seeds) row rows p z =
    rw (get_at-zero row (index w seed h) (z (index w seed h / 2))) (zero_is_least w h seeds rows)

-- a run of Increment, first hash first
abbrev pub increments : CmSketch → List ℕ → CmSketch
increments s [] = s
increments s (h ∷ hs) = increments (increment s h) hs

abbrev pub count : ℕ → List ℕ → ℕ
count a [] = 0
count a (x ∷ xs) = (if x == a then 1 else 0) + count a xs

pub increments-IsValid : (s : CmSketch) (hs : List ℕ) → IsValid s → IsValid (increments s hs)
increments-IsValid s [] v = v
increments-IsValid s (h ∷ hs) v = increments-IsValid (increment s h) hs (increment-IsValid s v h)

-- A well-formed sketch never underestimates: after any run of increments the estimate of a hash is at least its
-- old estimate plus the number of its own increments, up to the ceiling 15; and it is at most the old
-- estimate plus the length of the run.
pub estimate-increments :
    (s : CmSketch) (hs : List ℕ) (h : ℕ)
    → IsValid s
    → (min 15 (estimate s h + count h hs) ≤ estimate (increments s hs) h)
      × (estimate (increments s hs) h ≤ estimate s h + length hs)
estimate-increments s [] h v = (omega arith, omega arith)
estimate-increments s (k ∷ hs) h v = ground (
  arith,
  estimate-increments (increment s k) hs h (increment-IsValid s v k),
  estimate-increment_self s v h,
  estimate-increment_other s v k h,
)
