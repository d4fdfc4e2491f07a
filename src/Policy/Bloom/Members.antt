-- ===== src/Policy/Bloom/Members.antt =====
-- internal/policy/bloom.go: the answers of Add and Contains.
use go_mcache.Base.{
  ℕ, zero, suc, ◌+◌, ◌*◌, ◌/◌, ◌%◌, ◌^◌, ◌≤◌, ◌<◌, ◌≡◌, refl, List, [], ◌∷◌, Bool, true, false,
  ◌&&◌, arith, length, length-replicate, get_or, Bool-cases, inl, inr,
}
use go_mcache.Base.Bits.{bit-le-one, zero-bit_and}
use go_mcache.Policy.Bloom.{
  BloomFilter, mask, new_bloom_filter, index, is_clear, mark, add_loop, contains_loop, add,
  contains, zeros, reset,
}
use go_mcache.Policy.Bloom.Bits.{
  is_clear_lem, Grows, Grows-trans, mark-Grows, mark_sets, mark_present, mark_clear, index-lt,
}

pub record IsValid (bf : BloomFilter) : Type 0 where
  pub some_bits : 0 < bf.num_bits
  pub enough_words : bf.num_bits ≤ 64 * length bf.bits

module _ (m h : ℕ) (pos : 0 < m) where
  in_words : (bits : List ℕ) (i : ℕ) → m ≤ 64 * length bits → index m h i / 64 < length bits
  in_words bits i fits = omega (arith, index-lt m h i pos)

  add_loop-Grows :
      (n i : ℕ) (bits : List ℕ) (p : Bool)
      → m ≤ 64 * length bits
      → Grows bits (add_loop m h n i bits p).0
  unfolding add_loop
  add_loop-Grows zero i bits p fits = record { kept = λ j e. e; same_size = refl }
  add_loop-Grows (suc n) i bits p fits =
      let marked = mark bits (index m h i) p in
      let g : Grows bits marked.0 = mark-Grows bits (index m h i) p (in_words bits i fits) in
      Grows-trans bits marked.0 _ g
        (add_loop-Grows n (i + 1) marked.0 marked.1 (omega (arith, g.same_size)))

  contains_loop-Grows :
      (n i : ℕ) (bits more : List ℕ)
      → Grows bits more
      → contains_loop m h n i bits ≡ true
      → contains_loop m h n i more ≡ true
  unfolding contains_loop
  contains_loop-Grows zero i bits more g e = refl
  contains_loop-Grows (suc n) i bits more g e =
      let idx = index m h i in
      ground (
        arith,
        is_clear_lem bits idx,
        is_clear_lem more idx,
        g.kept idx,
        bit-le-one (get_or bits (idx / 64) 0) (idx % 64),
        contains_loop-Grows n (i + 1) bits more g,
      )

  contains_loop-add_loop :
      (n i : ℕ) (bits : List ℕ) (p : Bool)
      → m ≤ 64 * length bits
      → contains_loop m h n i (add_loop m h n i bits p).0 ≡ true
  unfolding add_loop contains_loop
  contains_loop-add_loop zero i bits p fits = refl
  contains_loop-add_loop (suc n) i bits p fits =
      let idx = index m h i in
      let marked = mark bits idx p in
      let g : Grows bits marked.0 = mark-Grows bits idx p (in_words bits i fits) in
      let fits' : m ≤ 64 * length marked.0 = omega (arith, g.same_size) in
      let grown : Grows marked.0 (add_loop m h n (i + 1) marked.0 marked.1).0 =
        add_loop-Grows n (i + 1) marked.0 marked.1 fits' in
      ground (
        arith,
        is_clear_lem (add_loop m h n (i + 1) marked.0 marked.1).0 idx,
        grown.kept idx (mark_sets bits idx p (in_words bits i fits)),
        contains_loop-add_loop n (i + 1) marked.0 marked.1 fits',
      )

  answer_add_loop :
      (n i : ℕ) (bits : List ℕ) (p : Bool)
      → (add_loop m h n i bits p).1 ≡ (p && contains_loop m h n i bits)
  unfolding add_loop contains_loop
  answer_add_loop zero i bits p = ground arith
  answer_add_loop (suc n) i bits p = elim (Bool-cases (is_clear bits (index m h i))) [
    | inl clear ↦ ground (
      arith,
      clear,
      mark_clear bits (index m h i) p clear,
      answer_add_loop n (i + 1) (mark bits (index m h i) p).0 (mark bits (index m h i) p).1,
    )
    | inr taken ↦
        ground
          (arith, taken, mark_present bits (index m h i) p taken, answer_add_loop n (i + 1) bits p)
  ]

length-zeros : (bits : List ℕ) → length (zeros bits) ≡ length bits
length-zeros [] = refl
length-zeros (w ∷ bits) = omega (arith, length-zeros bits)

get_or-zeros : (bits : List ℕ) (i : ℕ) → get_or (zeros bits) i 0 ≡ 0
get_or-zeros [] i = refl
get_or-zeros (w ∷ bits) zero = refl
get_or-zeros (w ∷ bits) (suc i) = get_or-zeros bits i

none_in_zeros : (m h n : ℕ) (bits : List ℕ) → 0 < n → contains_loop m h n 0 (zeros bits) ≡ false
unfolding contains_loop
none_in_zeros m h zero bits pos = absurd (omega arith)
none_in_zeros m h (suc n) bits pos =
    rw (get_or-zeros bits (index m h 0 / 64), zero-bit_and (mask (index m h 0)))

module _ (bf : BloomFilter) (v : IsValid bf) where
  pub add-IsValid : (h : ℕ) → IsValid (add bf h).0
  unfolding add
  add-IsValid h = record {
    some_bits = v.some_bits;
    enough_words = omega (
      arith,
      v.enough_words,
      (add_loop-Grows bf.num_bits h v.some_bits bf.num_hash 0 bf.bits true
          v.enough_words).same_size,
    );
  }

  -- For a well-formed filter, Add answers what Contains answered before it; after Add the filter contains the hash, and it still
  -- contains every hash that it contained.
  pub add-contains :
      (h : ℕ)
      → ((add bf h).1 ≡ contains bf h)
        × (contains (add bf h).0 h ≡ true)
        × ((j : ℕ) → contains bf j ≡ true → contains (add bf h).0 j ≡ true)
  unfolding add contains
  add-contains h = (
    answer_add_loop bf.num_bits h v.some_bits bf.num_hash 0 bf.bits true,
    contains_loop-add_loop bf.num_bits h v.some_bits bf.num_hash 0 bf.bits true v.enough_words,
    λ j e.
        contains_loop-Grows bf.num_bits j v.some_bits bf.num_hash 0 bf.bits _
          (add_loop-Grows bf.num_bits h v.some_bits bf.num_hash 0 bf.bits true v.enough_words) e,
  )

  pub reset-IsValid : IsValid (reset bf)
  unfolding reset
  reset-IsValid = record {
    some_bits = v.some_bits;
    enough_words = omega (arith, v.enough_words, length-zeros bf.bits);
  }

  -- After Reset a well-formed filter with a hash function contains no hash.
  pub contains-reset : (h : ℕ) → 0 < bf.num_hash → contains (reset bf) h ≡ false
  unfolding reset contains
  contains-reset h pos = none_in_zeros bf.num_bits h bf.num_hash bf.bits pos

-- newBloomFilter makes a well-formed filter of seven hash functions, with at least ten bits for each
-- expected item below 2^63.
pub new_bloom_filter-IsValid :
    (n : ℕ)
    → IsValid (new_bloom_filter n)
      × (n < 2 ^ 63 → 10 * n ≤ (new_bloom_filter n).num_bits)
      × ((new_bloom_filter n).num_hash ≡ 7)
unfolding new_bloom_filter
new_bloom_filter-IsValid n = (
  record {
    some_bits = ground arith;
    enough_words = ground (arith, length-replicate {A = ℕ} ((new_bloom_filter n).num_bits / 64) 0);
  },
  λ h. ground arith,
  refl,
)
