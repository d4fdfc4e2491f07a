-- ===== src/Policy/Cuckoo/Slots.antt =====
-- internal/policy/cuckoo.go: one bucket, by how often it has a fingerprint.
use go_mcache.Base.{
  ℕ, zero, suc, ◌+◌, ◌/◌, ◌%◌, ◌^◌, ◌<◌, ◌≢◌, ◌≡◌, refl, bit_and, List, [], ◌∷◌, Bool, none, some,
  arith, length, get_or, set, ◌==◌, if◌then◌else◌, All, Bool-cases, Option-cases, inl, inr, ltb,
}
use go_mcache.Base.Bits.{bit_or_halves, bit_and_mask, bit_or_high, bit_or-zero}
use go_mcache.Policy.Cuckoo.{
  fingerprint, occupied, matches, insert_to_bucket, bucket_contains, delete_from_bucket,
}

abbrev pub one_if : Bool → ℕ
one_if b = if b then 1 else 0

-- how many slots of the bucket hold the fingerprint
abbrev pub copies : List ℕ → ℕ → ℕ
copies [] fp = 0
copies (val ∷ vals) fp = one_if (matches val fp) + copies vals fp

abbrev pub IsFull : List ℕ → Type 0
IsFull = All (λ val. val ≢ 0)

pub fingerprint-lt : (h : ℕ) → fingerprint h < 2 ^ 16
unfolding fingerprint
fingerprint-lt h =
    let a = h / 2 ^ 48 % 2 ^ 16 in omega (arith, bit_or_halves a 1, bit_or-zero (a / 2))

pub matches-occupied : (fp other : ℕ) → fp < 2 ^ 16 → matches (occupied fp) other ≡ (fp == other)
unfolding occupied
matches-occupied fp other h = rw (bit_or_high 16 fp h, bit_and_mask 16 (fp + 2 ^ 16)) (ground arith)

pub bucket_contains_lem :
    (vals : List ℕ) (fp : ℕ) → bucket_contains vals fp ≡ ltb 0 (copies vals fp)
unfolding bucket_contains
bucket_contains_lem [] fp = refl
bucket_contains_lem (val ∷ vals) fp = ground (arith, bucket_contains_lem vals fp)

module _ (fp : ℕ) (small : fp < 2 ^ 16) where
  pub copies-insert_to_bucket :
      (vals vals' : List ℕ) (other : ℕ)
      → insert_to_bucket vals fp ≡ some vals'
      → (copies vals' other ≡ copies vals other + one_if (fp == other))
        × (length vals' ≡ length vals)
  unfolding insert_to_bucket
  copies-insert_to_bucket [] vals' other e = ground arith
  copies-insert_to_bucket (zero ∷ vals) vals' other e =
      ground (arith, matches-occupied fp other small)
  copies-insert_to_bucket (suc val ∷ vals) vals' other e =
      elim (Option-cases (insert_to_bucket vals fp)) [
        | inl full ↦ ground (arith, full)
        | inr (w, q) ↦ ground (arith, q, copies-insert_to_bucket vals w other q)
      ]

  pub copies-swapped :
      (vals : List ℕ) (j other : ℕ)
      → j < length vals
      → IsFull vals
      → let old = bit_and (get_or vals j 0) 0xFFFF in
        let vals' = set vals j (occupied fp) in
        (copies vals' other + one_if (old == other) ≡ copies vals other + one_if (fp == other))
  copies-swapped [] j other h full = absurd (omega arith)
  copies-swapped (zero ∷ vals) zero other h full = absurd (full.0 refl)
  copies-swapped (suc val ∷ vals) zero other h full =
      ground (arith, matches-occupied fp other small)
  copies-swapped (val ∷ vals) (suc j) other h full =
      omega (arith, copies-swapped vals j other (omega arith) full.1)

pub IsFull-insert_to_bucket :
    (vals : List ℕ) (fp : ℕ) → insert_to_bucket vals fp ≡ none → IsFull vals
unfolding insert_to_bucket
IsFull-insert_to_bucket [] fp e = tt
IsFull-insert_to_bucket (zero ∷ vals) fp e = cc
IsFull-insert_to_bucket (suc val ∷ vals) fp e = elim (Option-cases (insert_to_bucket vals fp)) [
  | inl none_free ↦ (λ q. omega arith, IsFull-insert_to_bucket vals fp none_free)
  | inr (w, q) ↦ ground (arith, q)
]

pub IsFull-swapped :
    (vals : List ℕ) (j fp : ℕ) → fp < 2 ^ 16 → IsFull vals → IsFull (set vals j (occupied fp))
IsFull-swapped [] j fp h full = tt
IsFull-swapped (val ∷ vals) zero fp h full = (λ e. ground (arith, matches-occupied fp fp h), full.1)
IsFull-swapped (val ∷ vals) (suc j) fp h full = (full.0, IsFull-swapped vals j fp h full.1)

pub copies-delete_from_bucket :
    (vals vals' : List ℕ) (fp other : ℕ)
    → delete_from_bucket vals fp ≡ some vals'
    → (copies vals' other + one_if (fp == other) ≡ copies vals other) × (length vals' ≡ length vals)
unfolding delete_from_bucket
copies-delete_from_bucket [] vals' fp other e = ground arith
copies-delete_from_bucket (val ∷ vals) vals' fp other e = elim (Bool-cases (matches val fp)) [
  | inl found ↦ ground (arith, found)
  | inr other_val ↦ elim (Option-cases (delete_from_bucket vals fp)) [
    | inl absent ↦ ground (arith, other_val, absent)
    | inr (w, q) ↦ ground (arith, other_val, q, copies-delete_from_bucket vals w fp other q)
  ]
]

pub none_of_delete :
    (vals : List ℕ) (fp : ℕ) → delete_from_bucket vals fp ≡ none → copies vals fp ≡ 0
unfolding delete_from_bucket
none_of_delete [] fp e = refl
none_of_delete (val ∷ vals) fp e = elim (Bool-cases (matches val fp)) [
  | inl found ↦ ground (arith, found)
  | inr other ↦ elim (Option-cases (delete_from_bucket vals fp)) [
    | inl absent ↦ ground (arith, other, none_of_delete vals fp absent)
    | inr (w, q) ↦ ground (arith, other, q)
  ]
]
