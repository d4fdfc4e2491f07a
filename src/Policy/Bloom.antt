-- ===== src/Policy/Bloom.antt =====
-- internal/policy/bloom.go: the Bloom filter that TinyLFU uses as a doorkeeper.
-- Every bit index is in bounds (`Bloom.Bits`), so the default of `get_or` and the write out of range of
-- `set` are never reached.
pub mod Bits
pub mod Members
use go_mcache.Base.{
  ℕ, zero, suc, ◌+◌, ◌-◌, ◌*◌, ◌/◌, ◌%◌, ◌^◌, bit_and, bit_or, List, Bool, true, false, map, get_or,
  set, replicate, ltb, ◌==◌, if◌then◌else◌,
}
use go_mcache.Base.Word.{add64, mul64, sle}

pub record BloomFilter : Type 0 where
  pub bits : List ℕ
  pub num_bits : ℕ
  pub num_hash : ℕ

-- `float64(n) * 10` is the integer n * 10 below 2^53; the false positive rate changes nothing
unfoldable pub new_bloom_filter : ℕ → BloomFilter
new_bloom_filter n =
    let n = if sle n 0 then 10000 else n in
    let num_bits = if ltb (n * 10) 64 then 64 else n * 10 in
    let num_bits = (num_bits + 63) / 64 * 64 in
    record { bits = replicate (num_bits / 64) 0; num_bits = num_bits; num_hash = 7 }

-- double hashing: h1 + i * h2, over uint64
unfoldable pub index : ℕ → ℕ → ℕ → ℕ
index num_bits key_hash i =
    let h2 = bit_or (key_hash / 2 ^ 32) (key_hash * 2 ^ 32 % 2 ^ 64) in
    add64 key_hash (mul64 i h2) % num_bits

abbrev pub mask : ℕ → ℕ
mask idx = 2 ^ (idx % 64)

-- `bf.bits[wordIdx]&mask == 0`
abbrev pub is_clear : List ℕ → ℕ → Bool
is_clear bits idx = bit_and (get_or bits (idx / 64) 0) (mask idx) == 0

-- the body of the loop of Add: the words, and `alreadyPresent`
unfoldable pub mark : List ℕ → ℕ → Bool → List ℕ × Bool
mark bits idx present =
    if is_clear bits idx
    then (set bits (idx / 64) (bit_or (get_or bits (idx / 64) 0) (mask idx)), false)
    else (bits, present)

-- `n` rounds are left, and `i` is the loop's counter
unfoldable pub add_loop : ℕ → ℕ → ℕ → ℕ → List ℕ → Bool → List ℕ × Bool
unfolding mark
add_loop num_bits key_hash zero i bits present = (bits, present)
add_loop num_bits key_hash (suc n) i bits present =
    let (marked, still) = mark bits (index num_bits key_hash i) present in
    add_loop num_bits key_hash n (i + 1) marked still

unfoldable pub contains_loop : ℕ → ℕ → ℕ → ℕ → List ℕ → Bool
contains_loop num_bits key_hash zero i bits = true
contains_loop num_bits key_hash (suc n) i bits =
    if is_clear bits (index num_bits key_hash i)
    then false
    else contains_loop num_bits key_hash n (i + 1) bits

unfoldable pub add : BloomFilter → ℕ → BloomFilter × Bool
unfolding add_loop
add bf key_hash =
    let (bits, present) = add_loop bf.num_bits key_hash bf.num_hash 0 bf.bits true in
    (record bf { bits = bits }, present)

unfoldable pub contains : BloomFilter → ℕ → Bool
unfolding contains_loop
contains bf key_hash = contains_loop bf.num_bits key_hash bf.num_hash 0 bf.bits

abbrev pub zeros : List ℕ → List ℕ
zeros = map (λ w. 0)

unfoldable pub reset : BloomFilter → BloomFilter
reset bf = record bf { bits = zeros bf.bits }
