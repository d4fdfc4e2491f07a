-- ===== src/Policy/Cuckoo/Tests.antt =====
-- internal/policy/cuckoo.go: the theorems at filters of one bucket and of four.
use go_mcache.Base.{
  ℕ, ◌+◌, ◌*◌, ◌^◌, ◌≤◌, ◌≡◌, refl, true, false, List, [], ◌∷◌, some, arith, ltb, Member,
}
use go_mcache.Policy.Cuckoo.{
  CuckooFilter, fingerprint, index1, index2, index_alt, insert_to_bucket, occupied, relocate,
  delete_from_bucket, bucket_contains, next_power_of2_uint64, new_cuckoo_filter, add, contains,
  delete,
}
use go_mcache.Base.Ones.{smear}
use go_mcache.Policy.Cuckoo.Bag.{mates_in, remove_mate}
use go_mcache.Policy.Cuckoo.Lost.{add-Loses}
use go_mcache.Policy.Cuckoo.Runs.{Call, add_hash, delete_hash, run, bag_after, run-Contains}

-- hashes with the fingerprints 1, 3, 5, 7 and 9
abbrev four : List Call
four =
    add_hash 0
    ∷ add_hash (2 * 2 ^ 48)
    ∷ add_hash (4 * 2 ^ 48)
    ∷ add_hash (6 * 2 ^ 48)
    ∷ delete_hash (2 * 2 ^ 48)
    ∷ add_hash (2 * 2 ^ 48)
    ∷ []

abbrev filled : CuckooFilter
filled = record {
  buckets = (0x10001 ∷ 0x10003 ∷ 0x10005 ∷ 0x10007 ∷ []) ∷ [];
  num_buckets = 1;
  count = 4;
}

filled_lem : run (new_cuckoo_filter 1) four ≡ some filled
unfolding run new_cuckoo_filter next_power_of2_uint64 smear add delete fingerprint index1 index2
    index_alt insert_to_bucket delete_from_bucket occupied relocate
filled_lem = refl

run-Contains_example :
    (k : ℕ) × (1 ≤ 2 ^ k)
    × (filled.num_buckets ≡ 2 ^ k)
    × ((h : ℕ) → contains filled h ≡ ltb 0 (mates_in (2 ^ k) (bag_after (2 ^ k) four []) h))
    × ((h : ℕ) → (delete filled h).1 ≡ contains filled h)
    × ((h : ℕ) → Member h (bag_after (2 ^ k) four []) → contains filled h ≡ true)
run-Contains_example = run-Contains 1 four filled (omega arith) filled_lem

-- sixteen hashes fill four buckets
abbrev sixteen : List Call
sixteen =
    add_hash (16 * 2 ^ 48 + 0)
    ∷ add_hash (32 * 2 ^ 48 + 0)
    ∷ add_hash (62 * 2 ^ 48 + 3)
    ∷ add_hash (60 * 2 ^ 48 + 3)
    ∷ add_hash (26 * 2 ^ 48 + 0)
    ∷ add_hash (62 * 2 ^ 48 + 0)
    ∷ add_hash (48 * 2 ^ 48 + 3)
    ∷ add_hash (76 * 2 ^ 48 + 0)
    ∷ add_hash (56 * 2 ^ 48 + 2)
    ∷ add_hash (28 * 2 ^ 48 + 0)
    ∷ add_hash (40 * 2 ^ 48 + 0)
    ∷ add_hash (2 * 2 ^ 48 + 0)
    ∷ add_hash (68 * 2 ^ 48 + 0)
    ∷ add_hash (48 * 2 ^ 48 + 1)
    ∷ add_hash (54 * 2 ^ 48 + 0)
    ∷ add_hash (66 * 2 ^ 48 + 1)
    ∷ []

abbrev next_hash : ℕ
next_hash = 56 * 2 ^ 48 + 3

abbrev sixteen_stored : CuckooFilter
sixteen_stored = record {
  buckets =
      (65539 ∷ 65585 ∷ 65565 ∷ 65569 ∷ [])
      ∷ (65577 ∷ 65553 ∷ 65613 ∷ 65605 ∷ [])
      ∷ (65593 ∷ 65585 ∷ 65597 ∷ 65603 ∷ [])
      ∷ (65599 ∷ 65591 ∷ 65599 ∷ 65563 ∷ [])
      ∷ [];
  num_buckets = 4;
  count = 16;
}

sixteen_lem : run (new_cuckoo_filter 4) sixteen ≡ some sixteen_stored
unfolding run new_cuckoo_filter next_power_of2_uint64 smear add fingerprint index1 index2 index_alt
    insert_to_bucket occupied relocate
sixteen_lem = refl

refused : (add sixteen_stored next_hash).1 ≡ false
unfolding add fingerprint index1 index2 index_alt insert_to_bucket occupied relocate
refused = refl

-- one of the sixteen is denied after the call that is refused
denied :
    (contains sixteen_stored (76 * 2 ^ 48) ≡ true)
    × (contains (add sixteen_stored next_hash).0 (76 * 2 ^ 48) ≡ false)
unfolding add contains fingerprint index1 index2 index_alt insert_to_bucket bucket_contains occupied
    relocate
denied = (refl, refl)

add-Loses_example :
    (k : ℕ) × (lost : ℕ) × (sixteen_stored.num_buckets ≡ 2 ^ k)
    × Member lost (next_hash ∷ bag_after (2 ^ k) sixteen [])
    × ((g : ℕ)
        → contains (add sixteen_stored next_hash).0 g
          ≡ ltb 0 (
              mates_in
                (2 ^ k)
                (remove_mate (2 ^ k) lost (next_hash ∷ bag_after (2 ^ k) sixteen []))
                g))
    × (contains (add sixteen_stored next_hash).0 lost
        ≡ ltb 1 (mates_in (2 ^ k) (next_hash ∷ bag_after (2 ^ k) sixteen []) lost))
add-Loses_example = add-Loses 4 sixteen sixteen_stored next_hash (omega arith) sixteen_lem refused
