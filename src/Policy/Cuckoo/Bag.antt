-- ===== src/Policy/Cuckoo/Bag.antt =====
-- internal/policy/cuckoo.go: Add, Delete and Contains against the bag of the hashes that were added and not deleted.
-- The filter tells two hashes apart by their fingerprints and buckets only.
use go_mcache.Base.{
  ℕ, ◌+◌, ◌^◌, ◌≡◌, refl, List, [], ◌∷◌, Bool, true, ◌&&◌, ◌||◌, arith, get_or, ltb, ◌==◌,
  if◌then◌else◌, Bool-cases, inl, inr,
}
use go_mcache.Policy.Cuckoo.{CuckooFilter, fingerprint, index1, index2, contains}
use go_mcache.Policy.Cuckoo.Slots.{one_if, bucket_contains_lem}
use go_mcache.Policy.Cuckoo.Alternate.{index1-lt, index_alt_twice}
use go_mcache.Policy.Cuckoo.Held.{IsSized, held, weight}

-- the hash g was filed where h is looked for
unfoldable pub mates : ℕ → ℕ → ℕ → Bool
mates n g h =
    fingerprint g == fingerprint h
    && (index1 n g == index1 n h || index1 n g == index2 n (index1 n h) (fingerprint h))

unfoldable pub mates_in : ℕ → List ℕ → ℕ → ℕ
mates_in n [] h = 0
mates_in n (g ∷ bag) h = one_if (mates n g h) + mates_in n bag h

unfoldable pub remove_mate : ℕ → ℕ → List ℕ → List ℕ
remove_mate n h [] = []
remove_mate n h (g ∷ bag) = if mates n g h then bag else g ∷ remove_mate n h bag

-- the copies of the hash's fingerprint in its two buckets
unfoldable pub filed : CuckooFilter → ℕ → ℕ
filed cf h = held cf.num_buckets cf.buckets (index1 cf.num_buckets h) (fingerprint h)

pub record Holds (k : ℕ) (cf : CuckooFilter) (bag : List ℕ) : Type 0 where
  pub power : cf.num_buckets ≡ 2 ^ k
  pub sized : IsSized (2 ^ k) cf.buckets
  pub counts : (h : ℕ) → filed cf h ≡ mates_in (2 ^ k) bag h

module _ (k : ℕ) where
  pub weight-mates :
      (g h : ℕ)
      → weight (2 ^ k) (index1 (2 ^ k) g) (fingerprint g) (index1 (2 ^ k) h) (fingerprint h)
        ≡ one_if (mates (2 ^ k) g h)
  unfolding weight mates index2
  weight-mates g h = ground arith

  -- mates are mates of the same hashes
  pub mates_trans : (g h f : ℕ) → mates (2 ^ k) g h ≡ true → mates (2 ^ k) g f ≡ mates (2 ^ k) h f
  unfolding mates index2
  mates_trans g h f e =
      let n = 2 ^ k in
      ground (
        arith,
        index_alt_twice k (index1 n h) (fingerprint h) (index1-lt k h),
        index_alt_twice k (index1 n f) (fingerprint f) (index1-lt k f),
      )

  pub mates_self : (h : ℕ) → mates (2 ^ k) h h ≡ true
  unfolding mates
  mates_self h = ground arith

  pub mates_in-remove_mate :
      (h f : ℕ) (bag : List ℕ)
      → mates_in (2 ^ k) (remove_mate (2 ^ k) h bag) f
          + (if ltb 0 (mates_in (2 ^ k) bag h) then one_if (mates (2 ^ k) h f) else 0)
        ≡ mates_in (2 ^ k) bag f
  unfolding mates_in remove_mate
  mates_in-remove_mate h f [] = refl
  mates_in-remove_mate h f (g ∷ bag) = elim (Bool-cases (mates (2 ^ k) g h)) [
    | inl mate ↦ ground (arith, mate, mates_trans g h f mate)
    | inr other ↦ ground (arith, other, mates_in-remove_mate h f bag)
  ]

  module _ (cf : CuckooFilter) (bag : List ℕ) (holds : Holds k cf bag) where
    pub contains-Holds : (h : ℕ) → contains cf h ≡ ltb 0 (mates_in (2 ^ k) bag h)
    unfolding contains filed held index2
    contains-Holds h =
        let i = index1 cf.num_buckets h in
        let j = index2 cf.num_buckets i (fingerprint h) in
        ground (
          arith,
          holds.counts h,
          bucket_contains_lem (get_or cf.buckets i []) (fingerprint h),
          bucket_contains_lem (get_or cf.buckets j []) (fingerprint h),
        )
