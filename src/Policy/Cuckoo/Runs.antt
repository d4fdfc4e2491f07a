-- ===== src/Policy/Cuckoo/Runs.antt =====
-- internal/policy/cuckoo.go: runs of calls on a new filter.
use go_mcache.Base.{
  ℕ, zero, suc, ◌-◌, ◌^◌, ◌<◌, ◌≤◌, ◌≡◌, refl, sym, ap, ◌∙◌, List, [], ◌∷◌, true, Option, none,
  some, arith, length, get_or, replicate, get_or-replicate_lt, length-replicate, ltb, if◌then◌else◌,
  Bool-cases, inl, inr, Member,
}
use mathlib.Core.Path.{subst}
use mathlib.Core.Option.{some_inj}
use native.Mathlib.Nat.{pow-le-pow_right, one-le-pow}
use go_mcache.Base.Ones.{smear, smear_lem}
use go_mcache.Policy.Cuckoo.{
  CuckooFilter, fingerprint, index_alt, index1, next_power_of2_uint64, new_cuckoo_filter, add,
  contains, delete,
}
use go_mcache.Policy.Cuckoo.Alternate.{index1-lt, index_alt-lt}
use go_mcache.Policy.Cuckoo.Slots.{copies}
use go_mcache.Policy.Cuckoo.Held.{held}
use go_mcache.Policy.Cuckoo.Bag.{mates_in, remove_mate, filed, Holds, mates_self, contains-Holds}
use go_mcache.Policy.Cuckoo.Changes.{Holds-Added, add-Added_any, delete-Holds}

-- the number of buckets
rounded_lem :
    (wanted : ℕ)
    → wanted ≤ 2 ^ 63
    → (k : ℕ) × (wanted ≤ 2 ^ k) × (next_power_of2_uint64 wanted ≡ 2 ^ k)
unfolding next_power_of2_uint64
rounded_lem zero h = (0, omega arith, refl)
rounded_lem (suc n) h =
    let (k, small, enough, power) = smear_lem n (omega arith) in
    let bound : 2 ^ k ≤ 2 ^ 63 = pow-le-pow_right (omega arith) small in
    let same : suc n - 1 ≡ n = omega arith in
    (k, omega arith, ground (arith, ap smear same, bound, power))

no_copies : (m f : ℕ) → copies (replicate m 0) f ≡ 0
no_copies zero f = refl
no_copies (suc m) f = omega (arith, no_copies m f)

abbrev pub free : List ℕ
free = replicate 4 0

get_or-free : (n i : ℕ) → i < n → get_or (replicate n free) i [] ≡ free
get_or-free n i h = get_or-replicate_lt n i free [] h

pub held-free : (k i f : ℕ) → i < 2 ^ k → held (2 ^ k) (replicate (2 ^ k) free) i f ≡ 0
unfolding held
held-free k i f h =
    rw (get_or-free (2 ^ k) i h, get_or-free (2 ^ k) (index_alt (2 ^ k) i f) (index_alt-lt k i f))
      (ground (arith, no_copies 4 f))

pub empty-Holds :
    (k : ℕ)
    → Holds k (record { buckets = replicate (2 ^ k) free; num_buckets = 2 ^ k; count = 0 }) []
unfolding filed mates_in
empty-Holds k = record {
  power = refl;
  sized = record {
    as_many = length-replicate (2 ^ k) free;
    four = λ i h. ap length (get_or-free (2 ^ k) i h);
  };
  counts = λ h. held-free k (index1 (2 ^ k) h) (fingerprint h) (index1-lt k h);
}

-- a new filter holds no hash
pub new_cuckoo_filter-Holds :
    (wanted : ℕ)
    → wanted ≤ 2 ^ 63
    → (k : ℕ) × (wanted ≤ 2 ^ k)
      × Holds k (new_cuckoo_filter wanted) []
      × ((new_cuckoo_filter wanted).buckets ≡ replicate (2 ^ k) free)
unfolding new_cuckoo_filter
new_cuckoo_filter-Holds wanted h =
    let (k, enough, power) = rounded_lem wanted h in
    let not_zero : (if ltb (next_power_of2_uint64 wanted) 1
          then 1
          else next_power_of2_uint64 wanted)
        ≡ 2 ^ k =
      ground (arith, power, one-le-pow k 2) in
    (
      k,
      enough,
      rw (not_zero, new_cuckoo_filter) (empty-Holds k),
      ap (λ n. replicate n free) not_zero,
    )

pub data Call : Type 0 where
  add_hash : ℕ → Call
  delete_hash : ℕ → Call

-- the calls one after another, as long as Add answers true
unfoldable pub run : CuckooFilter → List Call → Option CuckooFilter
run cf [] = some cf
run cf (add_hash h ∷ calls) =
    let rest = run (add cf h).0 calls in if (add cf h).1 then rest else none
run cf (delete_hash h ∷ calls) = run (delete cf h).0 calls

-- the hashes that were added; Delete takes out one that the filter does not tell from its own
unfoldable pub bag_after : ℕ → List Call → List ℕ → List ℕ
bag_after n [] bag = bag
bag_after n (add_hash h ∷ calls) bag = bag_after n calls (h ∷ bag)
bag_after n (delete_hash h ∷ calls) bag = bag_after n calls (remove_mate n h bag)

pub run-Holds :
    (k : ℕ) (calls : List Call) (cf cf' : CuckooFilter) (bag : List ℕ)
    → Holds k cf bag
    → run cf calls ≡ some cf'
    → Holds k cf' (bag_after (2 ^ k) calls bag)
unfolding run bag_after
run-Holds k [] cf cf' bag holds e = subst (λ c. Holds k c bag) (some_inj.0 e) holds
run-Holds k (add_hash h ∷ calls) cf cf' bag holds e = elim (Bool-cases (add cf h).1) [
  | inl placed ↦
      run-Holds k calls (add cf h).0 cf' (h ∷ bag)
        (Holds-Added k cf bag h (add cf h) holds (add-Added_any k cf bag holds h) placed)
        (ground arith)
  | inr dropped ↦ ground arith
]
run-Holds k (delete_hash h ∷ calls) cf cf' bag holds e =
    run-Holds k calls (delete cf h).0 cf' (remove_mate (2 ^ k) h bag)
      (delete-Holds k cf bag holds h).1 e

Member-mates : (k h : ℕ) (bag : List ℕ) → Member h bag → 0 < mates_in (2 ^ k) bag h
unfolding mates_in
Member-mates k h [] m = absurd m
Member-mates k h (g ∷ bag) (inl e) = rw e (ground (arith, mates_self k h))
Member-mates k h (g ∷ bag) (inr m) = omega (arith, Member-mates k h bag m)

-- After any calls of Add and Delete on a new filter for at most 2^63 buckets in which every Add answered true, the number of buckets is a
-- power of two and at least the wanted one; Contains, and what a next Delete answers, is whether the bag of the
-- hashes after the same changes has a hash that the filter does not tell from this one, so a hash of the bag is
-- always found.
pub run-Contains :
    (wanted : ℕ) (calls : List Call) (cf : CuckooFilter)
    → wanted ≤ 2 ^ 63
    → run (new_cuckoo_filter wanted) calls ≡ some cf
    → (k : ℕ) × (wanted ≤ 2 ^ k)
      × (cf.num_buckets ≡ 2 ^ k)
      × ((h : ℕ) → contains cf h ≡ ltb 0 (mates_in (2 ^ k) (bag_after (2 ^ k) calls []) h))
      × ((h : ℕ) → (delete cf h).1 ≡ contains cf h)
      × ((h : ℕ) → Member h (bag_after (2 ^ k) calls []) → contains cf h ≡ true)
run-Contains wanted calls cf h e =
    let (k, enough, empty, _) = new_cuckoo_filter-Holds wanted h in
    let bag = bag_after (2 ^ k) calls [] in
    let holds = run-Holds k calls (new_cuckoo_filter wanted) cf [] empty e in
    (
      k,
      enough,
      holds.power,
      contains-Holds k cf bag holds,
      λ g. (delete-Holds k cf bag holds g).0 ∙ sym (contains-Holds k cf bag holds g),
      λ g m. contains-Holds k cf bag holds g ∙ ground (arith, Member-mates k g bag m),
    )
