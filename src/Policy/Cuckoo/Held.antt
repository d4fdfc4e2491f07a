-- ===== src/Policy/Cuckoo/Held.antt =====
-- internal/policy/cuckoo.go: how often the two buckets of a fingerprint hold it, and what a write of one bucket
-- changes of that.
use go_mcache.Base.{
  ℕ, ◌+◌, ◌^◌, ◌<◌, ◌≡◌, ◌∙◌, List, [], Bool, ◌||◌, arith, length, get_or, set, get_or-set,
  length-set, ◌==◌, if◌then◌else◌, Bool-cases, inl, inr,
}
use go_mcache.Policy.Cuckoo.{index_alt}
use go_mcache.Policy.Cuckoo.Slots.{one_if, copies}
use go_mcache.Policy.Cuckoo.Alternate.{index_alt_twice}

-- every bucket has four slots
pub record IsSized (n : ℕ) (buckets : List (List ℕ)) : Type 0 where
  pub as_many : length buckets ≡ n
  pub four : (i : ℕ) → i < n → length (get_or buckets i []) ≡ 4

module _ (n : ℕ) where
  -- the copies of the fingerprint in bucket i and in its alternate
  unfoldable pub held : List (List ℕ) → ℕ → ℕ → ℕ
  held buckets i fp =
      copies (get_or buckets i []) fp
      + (if index_alt n i fp == i then 0 else copies (get_or buckets (index_alt n i fp) []) fp)

  -- bucket j is one of the two
  abbrev pub touches : ℕ → ℕ → ℕ → Bool
  touches j i fp = (j == i) || (j == index_alt n i fp)

  -- the fingerprint g at bucket j counts for the fingerprint fp at bucket i
  unfoldable pub weight : ℕ → ℕ → ℕ → ℕ → ℕ
  weight j g i fp = if touches j i fp then one_if (g == fp) else 0

  pub held-set :
      (buckets : List (List ℕ)) (j i fp x y : ℕ) (bucket : List ℕ)
      → j < length buckets
      → copies bucket fp + x ≡ copies (get_or buckets j []) fp + y
      → held (set buckets j bucket) i fp + (if touches j i fp then x else 0)
        ≡ held buckets i fp + (if touches j i fp then y else 0)
  unfolding held
  held-set buckets j i fp x y bucket h e = ground (
    arith,
    get_or-set buckets j i bucket [] h,
    get_or-set buckets j (index_alt n i fp) bucket [] h,
  )

  pub IsSized-set :
      (buckets : List (List ℕ)) (j : ℕ) (bucket : List ℕ)
      → IsSized n buckets
      → j < n
      → length bucket ≡ 4
      → IsSized n (set buckets j bucket)
  IsSized-set buckets j bucket sized h e = record {
    as_many = length-set buckets j bucket ∙ sized.as_many;
    four = λ i below.
        ground (arith, sized.as_many, get_or-set buckets j i bucket [], sized.four i below);
  }

module _ (k : ℕ) where
  pub weight-index_alt :
      (j g i fp : ℕ)
      → j < 2 ^ k
      → i < 2 ^ k
      → weight (2 ^ k) (index_alt (2 ^ k) j g) g i fp ≡ weight (2 ^ k) j g i fp
  unfolding weight
  weight-index_alt j g i fp hj hi = elim (Bool-cases (g == fp)) [
    | inr other ↦ rw other (ground arith)
    | inl same ↦ ground (arith, index_alt_twice k j g hj, index_alt_twice k i fp hi)
  ]

  pub held-index_alt :
      (buckets : List (List ℕ)) (i fp : ℕ)
      → i < 2 ^ k
      → held (2 ^ k) buckets (index_alt (2 ^ k) i fp) fp ≡ held (2 ^ k) buckets i fp
  unfolding held
  held-index_alt buckets i fp h = rw (index_alt_twice k i fp h) (ground arith)
