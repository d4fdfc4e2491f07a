-- ===== src/Policy/Tests.antt =====
-- The theorems on internal/policy at small inputs, and runs of the code.
use go_mcache.Base.{
  ℕ, ◌+◌, ◌/◌, ◌^◌, ◌≤◌, ◌<◌, ◌≡◌, refl, min, true, List, [], ◌∷◌, Option, none, some, arith,
  length, ℕ_discrete,
}
use go_mcache.Base.Assoc.{find, put}
use go_mcache.Policy.Sketch
use go_mcache.Policy.Sketch.{CmSketch}
use go_mcache.Policy.Sketch.Rows
use go_mcache.Policy.Sketch.Counts
use go_mcache.Policy.Sketch.Width
use go_mcache.Policy.Bloom
use go_mcache.Policy.Bloom.{BloomFilter}
use go_mcache.Policy.Bloom.Members
use go_mcache.Policy.TinyLfu
use go_mcache.Policy.TinyLfu.{TinyLfu}
use go_mcache.Policy.TinyLfu.Laws
use go_mcache.Policy.Sampled
use go_mcache.Policy.Sampled.{SampledLfu, TrackedItem, Victim}
use go_mcache.Policy.Sampled.Inv
use go_mcache.Policy.Sampled.Del.{Deleted, del-Deleted}
use go_mcache.Policy.Combined
use go_mcache.Policy.Combined.{Policy}
use go_mcache.Policy.Combined.Add.{Added, add-Added, add_exceeds_limit}

-- four rows of four counters
abbrev small_sketch : CmSketch
small_sketch = record {
  rows = (0 ∷ 0 ∷ []) ∷ (0 ∷ 0 ∷ []) ∷ (0 ∷ 0 ∷ []) ∷ (0 ∷ 0 ∷ []) ∷ [];
  seeds = 3 ∷ 5 ∷ 7 ∷ 11 ∷ [];
  width = 4;
}

small_sketch-IsValid : Rows.IsValid small_sketch
small_sketch-IsValid =
    let fits : Rows.Fits 4 (0 ∷ 0 ∷ []) = ((omega arith, (omega arith, tt)), refl) in
    record {
      rows_fit = (fits, (fits, (fits, (fits, tt))));
      four_rows = refl;
      four_seeds = refl;
      wide = omega arith;
    }

-- two increments of one hash and one of another
counted : Sketch.estimate (Counts.increments small_sketch (100 ∷ 200 ∷ 100 ∷ [])) 100 ≡ 2
unfolding Sketch.estimate Sketch.estimate_rows Sketch.increment Sketch.increment_rows
    Sketch.increment_at Sketch.get_at Sketch.with_nibble Sketch.nibble_of Sketch.index
counted = refl

estimate-increments_example :
    (min 15 (Sketch.estimate small_sketch 100 + Counts.count 100 (100 ∷ 200 ∷ []))
      ≤ Sketch.estimate (Counts.increments small_sketch (100 ∷ 200 ∷ [])) 100)
    × (Sketch.estimate (Counts.increments small_sketch (100 ∷ 200 ∷ [])) 100
        ≤ Sketch.estimate small_sketch 100 + 2)
estimate-increments_example =
    Counts.estimate-increments small_sketch (100 ∷ 200 ∷ []) 100 small_sketch-IsValid

new_cm_sketch-IsValid_example :
    (s : CmSketch) × (Sketch.new_cm_sketch 5 (3 ∷ 5 ∷ 7 ∷ 11 ∷ []) ≡ some s)
    × Rows.IsValid s
    × (5 ≤ s.width)
    × ((j : ℕ) × (s.width ≡ 2 ^ j))
    × ((h : ℕ) → Sketch.estimate s h ≡ 0)
new_cm_sketch-IsValid_example =
    Width.new_cm_sketch-IsValid 5 (3 ∷ 5 ∷ 7 ∷ 11 ∷ []) (omega arith) refl

-- a filter of 128 bits and three hash functions
abbrev small_filter : BloomFilter
small_filter = record { bits = 0 ∷ 0 ∷ []; num_bits = 128; num_hash = 3 }

small_filter-IsValid : Members.IsValid small_filter
small_filter-IsValid = record { some_bits = omega arith; enough_words = omega arith }

add-contains_example :
    ((Bloom.add small_filter 77).1 ≡ Bloom.contains small_filter 77)
    × (Bloom.contains (Bloom.add small_filter 77).0 77 ≡ true)
    × ((j : ℕ)
        → Bloom.contains small_filter j ≡ true
        → Bloom.contains (Bloom.add small_filter 77).0 j ≡ true)
add-contains_example = Members.add-contains small_filter small_filter-IsValid 77

abbrev small_lfu : TinyLfu
small_lfu = record { freq = small_sketch; door = small_filter; incrs = 0; reset_at = 10 }

small_lfu-IsValid : Laws.IsValid small_lfu
small_lfu-IsValid = record {
  freq_valid = small_sketch-IsValid;
  door_valid = small_filter-IsValid;
  hashes = omega arith;
  young = omega arith;
  threshold = omega arith;
}

increment-estimate_example :
    (1 < 10
      → (TinyLfu.estimate (TinyLfu.increment small_lfu 77) 77
          ≡ min 16 (TinyLfu.estimate small_lfu 77 + 1))
        × ((TinyLfu.increment small_lfu 77).incrs ≡ 1))
    × (◌≡◌ {A = ℕ} 1 10
        → ((j : ℕ)
            → TinyLfu.estimate (TinyLfu.increment small_lfu 77) j
              ≡ Sketch.estimate (TinyLfu.touch small_lfu 77).freq j / 2)
          × ((TinyLfu.increment small_lfu 77).incrs ≡ 0))
increment-estimate_example = Laws.increment-estimate small_lfu 77 small_lfu-IsValid

-- at most two entries; the keys 1 and 2
abbrev no_keys : SampledLfu ℕ
no_keys = Sampled.new_sampled_lfu 0 2

abbrev one_key : SampledLfu ℕ
one_key = Sampled.add ℕ_discrete no_keys 1 11 5

abbrev two_keys : SampledLfu ℕ
two_keys = Sampled.add ℕ_discrete one_key 2 22 6

two_keys-IsValid : Inv.IsValid ℕ_discrete two_keys
two_keys-IsValid =
    Inv.add-IsValid ℕ_discrete one_key 2 22 6
      (Inv.add-IsValid ℕ_discrete no_keys 1 11 5 (Inv.new-IsValid ℕ_discrete 0 2))

del-Deleted_example :
    (s' : SampledLfu ℕ) × (Sampled.del ℕ_discrete two_keys 1 ≡ some s')
    × Deleted ℕ_discrete 1 two_keys s'
del-Deleted_example = del-Deleted ℕ_discrete two_keys 1 two_keys-IsValid

abbrev keys_of : Option (SampledLfu ℕ) → List ℕ
keys_of none = []
keys_of (some s) = s.keys

-- the last key takes the place of the first
swapped : keys_of (Sampled.del ℕ_discrete two_keys 1) ≡ 2 ∷ []
unfolding Sampled.del Sampled.add Sampled.swap_delete Sampled.fill_gap Sampled.new_sampled_lfu find
    put ℕ_discrete
swapped = refl

two_keys_small : length two_keys.keys < 100
unfolding Sampled.add Sampled.new_sampled_lfu find put ℕ_discrete
two_keys_small = omega arith

abbrev small_policy : Policy ℕ
small_policy = record { admit = small_lfu; evict = two_keys }

add-Added_example :
    (victims : List (Victim ℕ)) × (p' : Policy ℕ) × (Combined.add ℕ_discrete 0
        (λ r. [])
        small_policy
        3
        33
        7
      ≡ some (victims, true, p'))
    × Added ℕ_discrete small_policy 3 (record { key_hash = 33; cost = 7 }) victims p'
add-Added_example =
    add-Added ℕ_discrete 0 (λ r. []) small_policy 3 33 7 two_keys-IsValid two_keys_small

add_exceeds_limit_example :
    (p' : Policy ℕ) × (Combined.add ℕ_discrete 0 (λ r. []) small_policy 3 33 7
      ≡ some ([], true, p'))
    × (p'.evict.num_entries ≡ 3)
    × (Sampled.needs_eviction p'.evict ≡ true)
unfolding Sampled.add Sampled.new_sampled_lfu find put ℕ_discrete
add_exceeds_limit_example =
    add_exceeds_limit ℕ_discrete 0 (λ r. []) small_policy 3 33 7 refl refl refl (omega arith)
      (omega arith)
