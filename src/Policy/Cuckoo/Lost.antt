-- ===== src/Policy/Cuckoo/Lost.antt =====
-- internal/policy/cuckoo.go: what an Add that answers false has lost. Every fingerprint in a bucket is that of
-- a hash that is looked for there.
use go_mcache.Base.{
  ℕ, ◌+◌, ◌^◌, ◌<◌, ◌≤◌, ◌≡◌, refl, ◌∙◌, List, [], ◌∷◌, true, false, some, arith, ltb, ◌==◌,
  Bool-cases, inl, inr, Member,
}
use mathlib.Core.Path.{subst}
use mathlib.Core.Option.{some_inj}
use go_mcache.Policy.Cuckoo.{
  CuckooFilter, fingerprint, index1, new_cuckoo_filter, add, contains, delete,
}
use go_mcache.Policy.Cuckoo.Alternate.{index1-lt}
use go_mcache.Policy.Cuckoo.Slots.{one_if}
use go_mcache.Policy.Cuckoo.Held.{held, weight, weight-index_alt}
use go_mcache.Policy.Cuckoo.Bag.{
  mates, mates_in, remove_mate, filed, Holds, weight-mates, mates_self, mates_trans,
  mates_in-remove_mate, contains-Holds,
}
use go_mcache.Policy.Cuckoo.Changes.{
  counts-Added, Holds-Added, add-Added_any, held-delete-le, delete-Holds,
}
use go_mcache.Policy.Cuckoo.Runs.{
  Call, add_hash, delete_hash, run, bag_after, run-Holds, held-free, new_cuckoo_filter-Holds,
}

module _ (k : ℕ) where
  -- the hash is looked for at the bucket i by the fingerprint f
  abbrev sought : ℕ → ℕ → ℕ → ℕ
  sought g i f = weight (2 ^ k) (index1 (2 ^ k) g) (fingerprint g) i f

  -- what the buckets hold was put there for a hash
  abbrev IsBacked : List (List ℕ) → Type 0
  IsBacked buckets =
      (i f : ℕ) → i < 2 ^ k → 0 < held (2 ^ k) buckets i f → (g : ℕ) × (sought g i f ≡ 1)

  weight_self : (j f : ℕ) → weight (2 ^ k) j f j f ≡ 1
  unfolding weight
  weight_self j f = ground arith

  weight_pos : (j g i f : ℕ) → 0 < weight (2 ^ k) j g i f → weight (2 ^ k) j g i f ≡ 1
  unfolding weight
  weight_pos j g i f h = ground arith

  -- a hash that is looked for at a fingerprint's bucket has its fingerprint and one of its buckets
  same_places :
      (g j f : ℕ)
      → j < 2 ^ k
      → sought g j f ≡ 1
      → (h : ℕ) → weight (2 ^ k) j f (index1 (2 ^ k) h) (fingerprint h) ≡ one_if (mates (2 ^ k) g h)
  unfolding weight
  same_places g j f below w h = elim (Bool-cases (index1 (2 ^ k) g == j)) [
    | inl e ↦ ground (arith, e, weight-mates k g h)
    | inr e ↦ ground (
      arith,
      e,
      weight-mates k g h,
      weight-index_alt k j f (index1 (2 ^ k) h) (fingerprint h) below (index1-lt k h),
    )
  ]

  Member-mate :
      (bag : List ℕ) (h : ℕ)
      → 0 < mates_in (2 ^ k) bag h
      → (g : ℕ) × Member g bag × (mates (2 ^ k) g h ≡ true)
  unfolding mates_in
  Member-mate [] h p = absurd (omega arith)
  Member-mate (x ∷ bag) h p = elim (Bool-cases (mates (2 ^ k) x h)) [
    | inl e ↦ (x, inl refl, e)
    | inr e ↦ let (g, member, mate) = Member-mate bag h (ground (arith, e)) in (g, inr member, mate)
  ]

  module _ (cf : CuckooFilter) (bag : List ℕ) (holds : Holds k cf bag)
      (backed : IsBacked cf.buckets) (h : ℕ) where
    -- the hash of a fingerprint that was held, or is the new one
    backed-add :
        (i f : ℕ)
        → i < 2 ^ k
        → 0 < held (2 ^ k) cf.buckets i f + sought h i f
        → (g : ℕ) × (sought g i f ≡ 1)
    backed-add i f below p = elim (Bool-cases (ltb 0 (held (2 ^ k) cf.buckets i f))) [
      | inl e ↦ backed i f below (ground arith)
      | inr e ↦ (h, weight_pos (index1 (2 ^ k) h) (fingerprint h) i f (ground arith))
    ]

    add-IsBacked : IsBacked (add cf h).0.buckets
    add-IsBacked i f below p =
        backed-add i f below
          (omega (arith, (add-Added_any k cf bag holds h).kicked.counts i f below))

    delete-IsBacked : IsBacked (delete cf h).0.buckets
    delete-IsBacked i f below p =
        backed i f below (omega (arith, held-delete-le k cf bag holds h i f))

    module _ (refused : (add cf h).1 ≡ false) where
      lost_one :
          (g : ℕ) × Member g (h ∷ bag) × Holds k (add cf h).0 (remove_mate (2 ^ k) g (h ∷ bag))
      lost_one =
          let added = add-Added_any k cf bag holds h in
          let j = added.kicked.lost in
          let f = added.kicked.lost_fp in
          let (g, w) = backed-add j f added.kicked.lost_in (
            ground
              (arith, refused, weight_self j f, added.kicked.counts j f added.kicked.lost_in)) in
          let left : (g' : ℕ)
              → filed (add cf h).0 g' + one_if (mates (2 ^ k) g g')
                ≡ mates_in (2 ^ k) (h ∷ bag) g' =
            λ g'. ground (
              arith,
              refused,
              same_places g j f added.kicked.lost_in w g',
              counts-Added k cf bag h (add cf h) holds added g',
            ) in
          let (lost, member, mate) =
            Member-mate (h ∷ bag) g (ground (arith, left g, mates_self k g)) in
          (
            lost,
            member,
            record {
              power = added.power;
              sized = added.kicked.sized;
              counts = λ g'. ground (
                arith,
                left g',
                left lost,
                mates_self k lost,
                mates_trans k lost g g' mate,
                mates_trans k lost g lost mate,
                mates_in-remove_mate k lost g' (h ∷ bag),
              );
            },
          )

  run-IsBacked :
      (calls : List Call) (cf cf' : CuckooFilter) (bag : List ℕ)
      → Holds k cf bag
      → IsBacked cf.buckets
      → run cf calls ≡ some cf'
      → IsBacked cf'.buckets
  unfolding run
  run-IsBacked [] cf cf' bag holds backed e = subst (λ c. IsBacked c.buckets) (some_inj.0 e) backed
  run-IsBacked (add_hash h ∷ calls) cf cf' bag holds backed e = elim (Bool-cases (add cf h).1) [
    | inl placed ↦
        run-IsBacked calls (add cf h).0 cf' (h ∷ bag)
          (Holds-Added k cf bag h (add cf h) holds (add-Added_any k cf bag holds h) placed)
          (add-IsBacked cf bag holds backed h) (ground arith)
    | inr dropped ↦ ground arith
  ]
  run-IsBacked (delete_hash h ∷ calls) cf cf' bag holds backed e =
      run-IsBacked calls (delete cf h).0 cf' (remove_mate (2 ^ k) h bag)
        (delete-Holds k cf bag holds h).1 (delete-IsBacked cf bag holds backed h) e

-- After any calls of Add and Delete on a new filter for at most 2^63 buckets in which every Add answered true, an Add that answers
-- false has lost exactly one hash, the new one or one of the bag's: Contains is then whether the bag
-- with the new hash and without the lost one has a hash that the filter does not tell from the one asked for. The
-- lost hash itself is denied unless there was another such hash.
pub add-Loses :
    (wanted : ℕ) (calls : List Call) (cf : CuckooFilter) (h : ℕ)
    → wanted ≤ 2 ^ 63
    → run (new_cuckoo_filter wanted) calls ≡ some cf
    → (add cf h).1 ≡ false
    → (k : ℕ) × (lost : ℕ) × (cf.num_buckets ≡ 2 ^ k)
      × Member lost (h ∷ bag_after (2 ^ k) calls [])
      × ((g : ℕ)
          → contains (add cf h).0 g
            ≡ ltb 0
                (mates_in (2 ^ k) (remove_mate (2 ^ k) lost (h ∷ bag_after (2 ^ k) calls [])) g))
      × (contains (add cf h).0 lost
          ≡ ltb 1 (mates_in (2 ^ k) (h ∷ bag_after (2 ^ k) calls []) lost))
add-Loses wanted calls cf h small e refused =
    let (k, _, empty, zeros) = new_cuckoo_filter-Holds wanted small in
    let bag = bag_after (2 ^ k) calls [] in
    let holds = run-Holds k calls (new_cuckoo_filter wanted) cf [] empty e in
    let none_held : IsBacked k (new_cuckoo_filter wanted).buckets = λ i f below p.
      absurd (omega (arith, subst (λ b. 0 < held (2 ^ k) b i f) zeros p, held-free k i f below)) in
    let backed = run-IsBacked k calls (new_cuckoo_filter wanted) cf [] empty none_held e in
    let (lost, member, left) = lost_one k cf bag holds backed h refused in
    let answers = contains-Holds k (add cf h).0 (remove_mate (2 ^ k) lost (h ∷ bag)) left in
    (
      k,
      lost,
      holds.power,
      member,
      answers,
      answers lost ∙ ground (arith, mates_in-remove_mate k lost lost (h ∷ bag), mates_self k lost),
    )
