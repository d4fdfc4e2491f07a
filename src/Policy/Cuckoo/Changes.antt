-- ===== src/Policy/Cuckoo/Changes.antt =====
-- internal/policy/cuckoo.go: what Add and Delete do to the bag that a filter holds.
use go_mcache.Base.{
  ℕ, ◌+◌, ◌^◌, ◌≤◌, ◌<◌, ◌≡◌, refl, sym, ap, ◌∙◌, List, [], ◌∷◌, Bool, true, none, some, arith,
  get_or, set, ltb, if◌then◌else◌, Option-cases, inl, inr,
}
use mathlib.Core.Path.{subst}
use go_mcache.Policy.Cuckoo.{
  CuckooFilter, fingerprint, index1, index2, insert_to_bucket, delete_from_bucket, relocate, add,
  delete, max_kicks,
}
use go_mcache.Policy.Cuckoo.Slots.{one_if, fingerprint-lt, IsFull-insert_to_bucket, none_of_delete}
use go_mcache.Policy.Cuckoo.Alternate.{index1-lt, index_alt-lt}
use go_mcache.Policy.Cuckoo.Held.{held, weight, weight-index_alt}
use go_mcache.Policy.Cuckoo.Kicks.{
  Kicked, insert-Kicked, held-delete, IsSized-delete, relocate-Kicked,
}
use go_mcache.Policy.Cuckoo.Bag.{
  mates, mates_in, remove_mate, filed, Holds, weight-mates, mates_self, mates_in-remove_mate,
}

-- what an Add leaves: the fingerprint in a bucket of the hash, and one fingerprint too few when it answers false
pub record Added (k : ℕ) (cf : CuckooFilter) (h : ℕ) (r : CuckooFilter × Bool) : Type 0 where
  pub power : r.0.num_buckets ≡ 2 ^ k
  pub kicked : Kicked k cf.buckets (index1 (2 ^ k) h) (fingerprint h) (r.1, r.0.buckets)

module _ (k : ℕ) (cf : CuckooFilter) (bag : List ℕ) (h : ℕ) (r : CuckooFilter × Bool)
    (holds : Holds k cf bag) (added : Added k cf h r) where
  -- the bag with the hash, less the fingerprint that was lost
  pub counts-Added :
      (g : ℕ)
      → filed r.0 g
          + (if r.1
              then 0
              else weight
                  (2 ^ k)
                  added.kicked.lost
                  added.kicked.lost_fp
                  (index1 (2 ^ k) g)
                  (fingerprint g))
        ≡ mates_in (2 ^ k) (h ∷ bag) g
  unfolding filed mates_in
  counts-Added g =
      let now : filed r.0 g ≡ held (2 ^ k) r.0.buckets (index1 (2 ^ k) g) (fingerprint g) =
        ap (λ n. held n r.0.buckets (index1 n g) (fingerprint g)) added.power in
      let before : filed cf g ≡ held (2 ^ k) cf.buckets (index1 (2 ^ k) g) (fingerprint g) =
        ap (λ n. held n cf.buckets (index1 n g) (fingerprint g)) holds.power in
      omega (
        arith,
        now,
        before,
        added.kicked.counts (index1 (2 ^ k) g) (fingerprint g) (index1-lt k g),
        weight-mates k h g,
        holds.counts g,
      )

  pub Holds-Added : r.1 ≡ true → Holds k r.0 (h ∷ bag)
  Holds-Added e = record {
    power = added.power;
    sized = added.kicked.sized;
    counts = λ g. ground (arith, e, counts-Added g);
  }

module _ (k : ℕ) (buckets : List (List ℕ)) (count : ℕ) (bag : List ℕ) where
  abbrev cf : CuckooFilter
  cf = record { buckets = buckets; num_buckets = 2 ^ k; count = count }

  module _ (holds : Holds k cf bag) (h : ℕ) where
    abbrev i1 : ℕ
    i1 = index1 (2 ^ k) h

    abbrev i2 : ℕ
    i2 = index2 (2 ^ k) i1 (fingerprint h)

    weight-i2 :
        (g : ℕ)
        → weight (2 ^ k) i2 (fingerprint h) (index1 (2 ^ k) g) (fingerprint g)
          ≡ one_if (mates (2 ^ k) h g)
    unfolding index2
    weight-i2 g =
        weight-index_alt k i1 (fingerprint h) (index1 (2 ^ k) g) (fingerprint g) (index1-lt k h)
          (index1-lt k g)
        ∙ weight-mates k h g

    i2-lt : i2 < 2 ^ k
    unfolding index2
    i2-lt = index_alt-lt k i1 (fingerprint h)

    Added-Kicked :
        (j c : ℕ) (r : Bool × List (List ℕ))
        → Kicked k buckets j (fingerprint h) r
        → ((i f : ℕ)
            → i < 2 ^ k
            → weight (2 ^ k) j (fingerprint h) i f ≡ weight (2 ^ k) i1 (fingerprint h) i f)
        → Added k cf h (record cf { buckets = r.1; count = c }, r.0)
    Added-Kicked j c r kicked same = record {
      power = refl;
      kicked = record {
        lost = kicked.lost;
        lost_fp = kicked.lost_fp;
        lost_in = kicked.lost_in;
        sized = kicked.sized;
        counts =
            λ i f hi. kicked.counts i f hi ∙ ap (λ w. held (2 ^ k) buckets i f + w) (same i f hi);
      };
    }

    add-Added : Added k cf h (add cf h)
    unfolding add index2
    add-Added =
        let fp = fingerprint h in
        let small = fingerprint-lt h in
        let own : (i f : ℕ) → i < 2 ^ k → weight (2 ^ k) i1 fp i f ≡ weight (2 ^ k) i1 fp i f =
          λ i f hi. refl in
        elim (Option-cases (insert_to_bucket (get_or buckets i1 []) fp)) [
          | inr (bucket, e) ↦
              rw (e, add)
                (Added-Kicked i1 _ (true, set buckets i1 bucket)
                  (insert-Kicked k buckets i1 fp holds.sized (index1-lt k h) bucket small e) own)
          | inl full ↦ elim (Option-cases (insert_to_bucket (get_or buckets i2 []) fp)) [
            | inr (bucket, e) ↦
                rw (full, e, add)
                  (Added-Kicked i2 _ (true, set buckets i2 bucket)
                    (insert-Kicked k buckets i2 fp holds.sized i2-lt bucket small e)
                    (λ i f hi. weight-index_alt k i1 fp i f (index1-lt k h) hi))
            | inl both ↦
                rw (full, both, add)
                  (Added-Kicked i1 _ (relocate (2 ^ k) max_kicks 0 i1 fp buckets)
                    (relocate-Kicked k max_kicks 0 i1 fp buckets holds.sized (index1-lt k h) small
                      (IsFull-insert_to_bucket (get_or buckets i1 []) fp full))
                    own)
          ]
        ]

    delete_le : (i f : ℕ) → held (2 ^ k) (delete cf h).0.buckets i f ≤ held (2 ^ k) buckets i f
    unfolding delete
    delete_le i f =
        let fp = fingerprint h in
        elim (Option-cases (delete_from_bucket (get_or buckets i1 []) fp)) [
          | inr (bucket, e) ↦
              rw (e, delete)
                (omega
                  (arith, held-delete k buckets i1 fp holds.sized (index1-lt k h) bucket i f e))
          | inl e ↦ elim (Option-cases (delete_from_bucket (get_or buckets i2 []) fp)) [
            | inr (bucket, e') ↦
                rw (e, e', delete)
                  (omega (arith, held-delete k buckets i2 fp holds.sized i2-lt bucket i f e'))
            | inl e' ↦ rw (e, e', delete) (omega arith)
          ]
        ]

    found-Holds :
        (j c : ℕ) (bucket : List ℕ)
        → j < 2 ^ k
        → delete_from_bucket (get_or buckets j []) (fingerprint h) ≡ some bucket
        → ((g : ℕ)
            → weight (2 ^ k) j (fingerprint h) (index1 (2 ^ k) g) (fingerprint g)
              ≡ one_if (mates (2 ^ k) h g))
        → (true ≡ ltb 0 (mates_in (2 ^ k) bag h))
          × Holds k
              (record cf { buckets = set buckets j bucket; count = c })
              (remove_mate (2 ^ k) h bag)
    unfolding filed
    found-Holds j c bucket below e known =
        let fp = fingerprint h in
        let less = λ (g : ℕ).
          held-delete k buckets j fp holds.sized below bucket (index1 (2 ^ k) g) (fingerprint g)
            e in
        let present : 0 < mates_in (2 ^ k) bag h =
          ground (arith, less h, known h, holds.counts h, mates_self k h) in
        (
          ground arith,
          record {
            power = refl;
            sized = IsSized-delete k buckets j fp holds.sized below bucket e;
            counts = λ g.
                ground (arith, less g, known g, holds.counts g, mates_in-remove_mate k h g bag);
          },
        )

    absent :
        delete_from_bucket (get_or buckets i1 []) (fingerprint h) ≡ none
        → delete_from_bucket (get_or buckets i2 []) (fingerprint h) ≡ none
        → mates_in (2 ^ k) bag h ≡ 0
    unfolding filed held index2
    absent e e' = ground (
      arith,
      holds.counts h,
      none_of_delete (get_or buckets i1 []) (fingerprint h) e,
      none_of_delete (get_or buckets i2 []) (fingerprint h) e',
    )

    deleted :
        ((delete cf h).1 ≡ ltb 0 (mates_in (2 ^ k) bag h))
        × Holds k (delete cf h).0 (remove_mate (2 ^ k) h bag)
    unfolding delete
    deleted =
        let fp = fingerprint h in
        elim (Option-cases (delete_from_bucket (get_or buckets i1 []) fp)) [
          | inr (bucket, e) ↦
              rw (e, delete) (found-Holds i1 _ bucket (index1-lt k h) e (weight-mates k h))
          | inl e ↦ elim (Option-cases (delete_from_bucket (get_or buckets i2 []) fp)) [
            | inr (bucket, e') ↦ rw (e, e', delete) (found-Holds i2 _ bucket i2-lt e' weight-i2)
            | inl e' ↦
                rw (e, e', delete)
                  (
                    ground (arith, absent e e'),
                    record {
                      power = refl;
                      sized = holds.sized;
                      counts = λ g.
                          ground
                            (arith, absent e e', holds.counts g, mates_in-remove_mate k h g bag);
                    },
                  )
          ]
        ]

module _ (k : ℕ) (cf : CuckooFilter) (bag : List ℕ) (holds : Holds k cf bag) (h : ℕ) where
  pub add-Added_any : Added k cf h (add cf h)
  add-Added_any =
      subst
        (λ n.
          Holds k (record cf { num_buckets = n }) bag
          → Added k (record cf { num_buckets = n }) h (add (record cf { num_buckets = n }) h))
        (sym holds.power) (λ q. add-Added k cf.buckets cf.count bag q h) holds

  pub held-delete-le :
      (i f : ℕ) → held (2 ^ k) (delete cf h).0.buckets i f ≤ held (2 ^ k) cf.buckets i f
  held-delete-le =
      subst
        (λ n.
          Holds k (record cf { num_buckets = n }) bag
          → (i f : ℕ)
          → held (2 ^ k) (delete (record cf { num_buckets = n }) h).0.buckets i f
            ≤ held (2 ^ k) cf.buckets i f)
        (sym holds.power) (λ q. delete_le k cf.buckets cf.count bag q h) holds

  pub delete-Holds :
      ((delete cf h).1 ≡ ltb 0 (mates_in (2 ^ k) bag h))
      × Holds k (delete cf h).0 (remove_mate (2 ^ k) h bag)
  delete-Holds =
      subst
        (λ n.
          Holds k (record cf { num_buckets = n }) bag
          → ((delete (record cf { num_buckets = n }) h).1 ≡ ltb 0 (mates_in (2 ^ k) bag h))
            × Holds k (delete (record cf { num_buckets = n }) h).0 (remove_mate (2 ^ k) h bag))
        (sym holds.power) (λ q. deleted k cf.buckets cf.count bag q h) holds
