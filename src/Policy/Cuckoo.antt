-- ===== src/Policy/Cuckoo.antt =====
-- internal/policy/cuckoo.go: the cuckoo filter, whose buckets have four slots with a fingerprint of 16 bits each.
-- A slot is 0 when it is free; a fingerprint in use has the bit 0x10000 set. The number of buckets is positive.
pub mod Slots
pub mod Alternate
pub mod Held
pub mod Kicks
pub mod Bag
pub mod Changes
pub mod Runs
pub mod Lost
mod Tests
use go_mcache.Base.{
  ℕ, zero, suc, ◌+◌, ◌-◌, ◌*◌, ◌/◌, ◌%◌, ◌^◌, bit_and, bit_or, bit_xor, List, [], ◌∷◌, Bool, true,
  false, not, ◌&&◌, ◌||◌, Option, none, some, map, length, get_or, set, replicate, min, ltb, ◌==◌,
  if◌then◌else◌,
}
use go_mcache.Base.Ones.{smear}
use go_mcache.Base.Word.{add64, sub64, mul64}

pub record CuckooFilter : Type 0 where
  pub buckets : List (List ℕ)
  pub num_buckets : ℕ
  pub count : ℕ

abbrev pub bucket_size : ℕ
bucket_size = 4

abbrev pub max_kicks : ℕ
max_kicks = 500

unfoldable pub next_power_of2_uint64 : ℕ → ℕ
next_power_of2_uint64 n = if n == 0 then 1 else add64 (smear (n - 1)) 1

-- `wanted` is the number of buckets that the floating-point formula gives for the expected items
unfoldable pub new_cuckoo_filter : ℕ → CuckooFilter
new_cuckoo_filter wanted =
    let rounded = next_power_of2_uint64 wanted in
    let num_buckets = if ltb rounded 1 then 1 else rounded in
    record {
      buckets = replicate num_buckets (replicate bucket_size 0);
      num_buckets = num_buckets;
      count = 0;
    }

unfoldable pub fingerprint : ℕ → ℕ
fingerprint key_hash = bit_or (key_hash / 2 ^ 48 % 2 ^ 16) 1

unfoldable pub index_alt : ℕ → ℕ → ℕ → ℕ
index_alt num_buckets i fp = bit_and (bit_xor i (mul64 fp 0x5bd1e995)) (num_buckets - 1)

unfoldable pub index1 : ℕ → ℕ → ℕ
index1 num_buckets key_hash = bit_and key_hash (num_buckets - 1)

unfoldable pub index2 : ℕ → ℕ → ℕ → ℕ
index2 num_buckets i1 fp = index_alt num_buckets i1 fp

-- `uint32(fp) | 0x10000`
unfoldable pub occupied : ℕ → ℕ
occupied fp = bit_or fp 0x10000

-- `val != 0 && fingerprint(val&0xFFFF) == fp`
abbrev pub matches : ℕ → ℕ → Bool
matches val fp = not (val == 0) && (bit_and val 0xFFFF == fp)

-- the bucket with the fingerprint in its first free slot
unfoldable pub insert_to_bucket : List ℕ → ℕ → Option (List ℕ)
unfolding occupied
insert_to_bucket [] fp = none
insert_to_bucket (val ∷ vals) fp =
    if val == 0
    then some (occupied fp ∷ vals)
    else elim (insert_to_bucket vals fp) [ none ↦ none | some vals' ↦ some (val ∷ vals') ]

unfoldable pub bucket_contains : List ℕ → ℕ → Bool
bucket_contains [] fp = false
bucket_contains (val ∷ vals) fp = if matches val fp then true else bucket_contains vals fp

unfoldable pub delete_from_bucket : List ℕ → ℕ → Option (List ℕ)
delete_from_bucket [] fp = none
delete_from_bucket (val ∷ vals) fp =
    if matches val fp
    then some (0 ∷ vals)
    else elim (delete_from_bucket vals fp) [ none ↦ none | some vals' ↦ some (val ∷ vals') ]

-- the loop of `relocate`: the rounds left, the counter `kick`, the bucket and the fingerprint in hand
unfoldable pub relocate : ℕ → ℕ → ℕ → ℕ → ℕ → List (List ℕ) → Bool × List (List ℕ)
relocate num_buckets zero kick i fp buckets = (false, buckets)
relocate num_buckets (suc rounds) kick i fp buckets =
    let bucket = get_or buckets i [] in
    let j = kick % bucket_size in
    let old_fp = bit_and (get_or bucket j 0) 0xFFFF in
    let swapped = set buckets i (set bucket j (occupied fp)) in
    let i' = index_alt num_buckets i old_fp in
    elim (insert_to_bucket (get_or swapped i' []) old_fp) [
      | some bucket' ↦ (true, set swapped i' bucket')
      | none ↦ relocate num_buckets rounds (kick + 1) i' old_fp swapped
    ]

unfoldable pub add : CuckooFilter → ℕ → CuckooFilter × Bool
add cf key_hash =
    let fp = fingerprint key_hash in
    let i1 = index1 cf.num_buckets key_hash in
    let i2 = index2 cf.num_buckets i1 fp in
    elim (insert_to_bucket (get_or cf.buckets i1 []) fp) [
      | some bucket ↦
          (record cf { buckets = set cf.buckets i1 bucket; count = add64 cf.count 1 }, true)
      | none ↦ elim (insert_to_bucket (get_or cf.buckets i2 []) fp) [
        | some bucket ↦
            (record cf { buckets = set cf.buckets i2 bucket; count = add64 cf.count 1 }, true)
        | none ↦
            let (placed, buckets) = relocate cf.num_buckets max_kicks 0 i1 fp cf.buckets in
            let count = if placed then add64 cf.count 1 else cf.count in
            (record cf { buckets = buckets; count = count }, placed)
      ]
    ]

unfoldable pub contains : CuckooFilter → ℕ → Bool
contains cf key_hash =
    let fp = fingerprint key_hash in
    let i1 = index1 cf.num_buckets key_hash in
    let i2 = index2 cf.num_buckets i1 fp in
    bucket_contains (get_or cf.buckets i1 []) fp || bucket_contains (get_or cf.buckets i2 []) fp

unfoldable pub delete : CuckooFilter → ℕ → CuckooFilter × Bool
delete cf key_hash =
    let fp = fingerprint key_hash in
    let i1 = index1 cf.num_buckets key_hash in
    let i2 = index2 cf.num_buckets i1 fp in
    elim (delete_from_bucket (get_or cf.buckets i1 []) fp) [
      | some bucket ↦
          (record cf { buckets = set cf.buckets i1 bucket; count = sub64 cf.count 1 }, true)
      | none ↦ elim (delete_from_bucket (get_or cf.buckets i2 []) fp) [
        | some bucket ↦
            (record cf { buckets = set cf.buckets i2 bucket; count = sub64 cf.count 1 }, true)
        | none ↦ (cf, false)
      ]
    ]

unfoldable pub reset : CuckooFilter → CuckooFilter
reset cf = record cf { buckets = map (λ bucket. replicate bucket_size 0) cf.buckets; count = 0 }

unfoldable pub capacity : CuckooFilter → ℕ
capacity cf = mul64 cf.num_buckets bucket_size

unfoldable pub add_batch : List ℕ → CuckooFilter → ℕ → CuckooFilter × ℕ
unfolding add
add_batch [] cf added = (cf, added)
add_batch (h ∷ hs) cf added =
    let (cf', placed) = add cf h in add_batch hs cf' (if placed then added + 1 else added)

unfoldable pub delete_batch : List ℕ → CuckooFilter → ℕ → CuckooFilter × ℕ
unfolding delete
delete_batch [] cf deleted = (cf, deleted)
delete_batch (h ∷ hs) cf deleted =
    let (cf', found) = delete cf h in delete_batch hs cf' (if found then deleted + 1 else deleted)

-- the first min(len(keyHashes), len(results)) results are overwritten
unfoldable pub contains_batch : CuckooFilter → List ℕ → List Bool → List Bool
unfolding contains
contains_batch cf [] results = results
contains_batch cf (h ∷ hs) [] = []
contains_batch cf (h ∷ hs) (r ∷ results) = contains cf h ∷ contains_batch cf hs results
