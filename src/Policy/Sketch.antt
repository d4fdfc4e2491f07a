-- ===== src/Policy/Sketch.antt =====
-- internal/policy/sketch.go: the Count-Min Sketch of 4-bit counters, two to a byte.
-- `rand.Uint64` gives the seeds, which are an argument. An index is in bounds (`Sketch.Rows`), so the
-- default of `get_or` and the write out of range of `set` are never reached.
pub mod Nibbles
pub mod Rows
pub mod Counts
pub mod Width
use go_mcache.Base.{
  ℕ, zero, suc, ◌+◌, ◌-◌, ◌*◌, ◌/◌, ◌%◌, ◌^◌, bit_and, bit_or, bit_xor, List, [], ◌∷◌, map, Option,
  none, some, get_or, set, replicate, ltb, ◌==◌, if◌then◌else◌,
}
use go_mcache.Base.Word.{mul64, slt, sle}

pub record CmSketch : Type 0 where
  pub rows : List (List ℕ)
  pub seeds : List ℕ
  pub width : ℕ

-- the two counters of a byte
unfoldable pub nibble_of : ℕ → ℕ → ℕ
nibble_of b nibble = if nibble == 0 then bit_and b 0x0F else bit_and (b / 2 ^ 4) 0x0F

unfoldable pub with_nibble : ℕ → ℕ → ℕ → ℕ
with_nibble b nibble val =
    if nibble == 0
    then bit_or (bit_and b 0xF0) val
    else bit_or (bit_and b 0x0F) (val * 2 ^ 4 % 2 ^ 8)

unfoldable pub get_at : List ℕ → ℕ → ℕ
get_at row idx = nibble_of (get_or row (idx / 2) 0) (bit_and idx 1)

unfoldable pub increment_at : List ℕ → ℕ → List ℕ
increment_at row idx =
    let b = get_or row (idx / 2) 0 in
    let val = nibble_of b (bit_and idx 1) in
    if ltb val 15 then set row (idx / 2) (with_nibble b (bit_and idx 1) (val + 1)) else row

-- `h ^= h >> 33; h *= c` and the mask
unfoldable pub index : ℕ → ℕ → ℕ → ℕ
index width seed key_hash =
    let h = bit_xor key_hash seed in
    let h = bit_xor h (h / 2 ^ 33) in
    let h = mul64 h 0xff51afd7ed558ccd in
    let h = bit_xor h (h / 2 ^ 33) in
    let h = mul64 h 0xc4ceb9fe1a85ec53 in let h = bit_xor h (h / 2 ^ 33) in bit_and h (width - 1)

-- the loops over the rows
unfoldable pub increment_rows : ℕ → ℕ → List ℕ → List (List ℕ) → List (List ℕ)
increment_rows width key_hash (seed ∷ seeds) (row ∷ rows) =
    increment_at row (index width seed key_hash) ∷ increment_rows width key_hash seeds rows
increment_rows width key_hash _ rows = rows

unfoldable pub estimate_rows : ℕ → ℕ → ℕ → List ℕ → List (List ℕ) → ℕ
estimate_rows least width key_hash (seed ∷ seeds) (row ∷ rows) =
    let val = get_at row (index width seed key_hash) in
    estimate_rows (if ltb val least then val else least) width key_hash seeds rows
estimate_rows least width key_hash _ rows = least

unfoldable pub increment : CmSketch → ℕ → CmSketch
unfolding increment_rows
increment s key_hash = record s { rows = increment_rows s.width key_hash s.seeds s.rows }

unfoldable pub estimate : CmSketch → ℕ → ℕ
unfolding estimate_rows
estimate s key_hash = estimate_rows 15 s.width key_hash s.seeds s.rows

unfoldable pub halve : ℕ → ℕ
halve b =
    let low = bit_and b 0x0F / 2 in
    let high = bit_and (b / 2 ^ 4) 0x0F / 2 in bit_or low (high * 2 ^ 4 % 2 ^ 8)

unfoldable pub reset : CmSketch → CmSketch
unfolding halve
reset s = record s { rows = map (map halve) s.rows }

unfoldable pub clear : CmSketch → CmSketch
clear s = record s { rows = map (map (λ b. 0)) s.rows }

-- `for w < width { w <<= 1 }` over int64, on fuel: `none` when the fuel runs out
unfoldable pub round_up : ℕ → ℕ → ℕ → Option ℕ
round_up zero w width = none
round_up (suc f) w width =
    let rest = round_up f (w * 2 % 2 ^ 64) width in if slt w width then rest else some w

abbrev pub cm_width : ℕ
cm_width = 2 ^ 20

abbrev pub zero_rows : ℕ → List (List ℕ)
zero_rows n = replicate n 0 ∷ replicate n 0 ∷ replicate n 0 ∷ replicate n 0 ∷ []

-- the seeds are four values of `rand.Uint64`; 64 rounds are enough for a width up to 2^62
unfoldable pub new_cm_sketch : ℕ → List ℕ → Option CmSketch
unfolding round_up
new_cm_sketch width seeds = elim (round_up 64 1 (if sle width 0 then cm_width else width)) [
  | none ↦ none
  | some w ↦ some (record { rows = zero_rows ((w + 1) / 2); seeds = seeds; width = w })
]
