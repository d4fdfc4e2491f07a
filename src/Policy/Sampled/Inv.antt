-- ===== src/Policy/Sampled/Inv.antt =====
-- The representation invariant of SampledLFU: the dense array and the index map are inverse to one
-- another, and the counters are the totals of the cost map.
use go_mcache.Base.{
  ℕ, ◌+◌, ◌%◌, ◌^◌, ◌≡◌, refl, inl, inr, List, [], ◌∷◌, ◌++◌, none, some, arith, length, get_elem?,
  length-append, get_elem?-concat, lt-length_of_get_elem?, Option-cases,
}
use go_mcache.Base.Assoc.{
  find, put, remove, Distinct, find-put, put_new, length-put_old, Distinct-put,
}
use go_mcache.Base.Word.{add64, sub64}
use go_mcache.Policy.Sampled.{TrackedItem, SampledLfu, new_sampled_lfu, add, update}

-- the sum of the costs, as a plain number
abbrev pub total : {K : Type 0} → List (K × TrackedItem) → ℕ
total [] = 0
total ((k, t) ∷ m) = t.cost + total m

module _ {K : Type 0} (dec : Discrete K) where
  pub record IsValid (s : SampledLfu K) : Type 0 where
    pub indexed : (i : ℕ) (k : K) → get_elem? s.keys i ≡ some k → find dec k s.key_index ≡ some i
    pub listed : (i : ℕ) (k : K) → find dec k s.key_index ≡ some i → get_elem? s.keys i ≡ some k
    pub unlisted : (k : K) → find dec k s.key_index ≡ none → find dec k s.costs ≡ none
    pub untracked : (k : K) → find dec k s.costs ≡ none → find dec k s.key_index ≡ none
    pub distinct_costs : Distinct dec s.costs
    pub distinct_index : Distinct dec s.key_index
    pub size : length s.keys ≡ length s.costs
    pub used : s.used_cost ≡ total s.costs % 2 ^ 64
    pub count : s.num_entries ≡ length s.costs % 2 ^ 64

  pub total-put_old :
      (k : K) (t u : TrackedItem) (m : List (K × TrackedItem))
      → find dec k m ≡ some u
      → total (put dec k t m) + u.cost ≡ total m + t.cost
  unfolding find put
  total-put_old k t u [] h = ground arith
  total-put_old k t u ((j, w) ∷ m) h = ground (arith, total-put_old k t u m)

  pub total-append : (m n : List (K × TrackedItem)) → total (m ++ n) ≡ total m + total n
  total-append [] n = omega arith
  total-append ((k, t) ∷ m) n = omega (arith, total-append m n)

  pub total-remove :
      (k : K) (u : TrackedItem) (m : List (K × TrackedItem))
      → find dec k m ≡ some u
      → total (remove dec k m) + u.cost ≡ total m
  unfolding find remove
  total-remove k u [] h = ground arith
  total-remove k u ((j, w) ∷ m) h = ground (arith, total-remove k u m)

  pub new-IsValid : (c e : ℕ) → IsValid (new_sampled_lfu c e)
  unfolding new_sampled_lfu find
  new-IsValid c e = record {
    indexed = λ i k h. ground arith;
    listed = λ i k h. ground arith;
    unlisted = λ k h. refl;
    untracked = λ k h. refl;
    distinct_costs = tt;
    distinct_index = tt;
    size = refl;
    used = refl;
    count = refl;
  }

  module _ (s : SampledLfu K) (key : K) (h c : ℕ) (v : IsValid s) where
    abbrev tracked : TrackedItem
    tracked = record { key_hash = h; cost = c }

    repriced-IsValid :
        (u : TrackedItem)
        → find dec key s.costs ≡ some u
        → IsValid (record s {
          used_cost = add64 s.used_cost (sub64 c u.cost);
          costs = put dec key tracked s.costs;
        })
    repriced-IsValid u e = record {
      indexed = v.indexed;
      listed = v.listed;
      unlisted = λ k n. ground (arith, v.unlisted k n, find-put dec key k tracked s.costs);
      untracked = λ k n. ground (arith, v.untracked k, find-put dec key k tracked s.costs);
      distinct_costs = Distinct-put dec key tracked s.costs v.distinct_costs;
      distinct_index = v.distinct_index;
      size = omega (arith, v.size, length-put_old dec key tracked u s.costs e);
      used = omega (arith, v.used, total-put_old key tracked u s.costs e);
      count = rw (length-put_old dec key tracked u s.costs e) v.count;
    }

    -- Update keeps the invariant of SampledLFU, whether the key is tracked or not.
    pub update-IsValid : IsValid (update dec s key h c)
    unfolding update
    update-IsValid = elim (Option-cases (find dec key s.costs)) [
      | inl e ↦ rw (e, update) v
      | inr (u, e) ↦ rw (e, update) (repriced-IsValid u e)
    ]

    appended-IsValid :
        find dec key s.costs ≡ none
        → IsValid (record s {
          costs = put dec key tracked s.costs;
          key_index = put dec key (length s.keys) s.key_index;
          keys = s.keys ++ key ∷ [];
          used_cost = add64 s.used_cost c;
          num_entries = add64 s.num_entries 1;
        })
    appended-IsValid e =
        let new_index = v.untracked key e in
        let at = λ (k : K). find-put dec key k (length s.keys) s.key_index in
        let cell = get_elem?-concat s.keys key in
        let grown = put_new dec key tracked s.costs e in
        record {
          indexed = λ i k n. ground (arith, cell i, v.indexed i k, at k);
          listed = λ i k n.
              ground (arith, cell i, v.listed i k, at k, lt-length_of_get_elem? s.keys i k);
          unlisted = λ k n. ground (arith, v.unlisted k, at k, find-put dec key k tracked s.costs);
          untracked =
              λ k n. ground (arith, v.untracked k, at k, find-put dec key k tracked s.costs);
          distinct_costs = Distinct-put dec key tracked s.costs v.distinct_costs;
          distinct_index = Distinct-put dec key (length s.keys) s.key_index v.distinct_index;
          size = rw grown (omega (arith, length-append {0}, v.size));
          used = rw grown (omega (arith, total-append, v.used));
          count = rw grown (omega (arith, length-append {0}, v.count));
        }

    -- Add keeps the invariant of SampledLFU, whether the key is new or not.
    pub add-IsValid : IsValid (add dec s key h c)
    unfolding add
    add-IsValid = elim (Option-cases (find dec key s.costs)) [
      | inl e ↦ rw (e, add) (appended-IsValid e)
      | inr (u, e) ↦ rw (e, add) (repriced-IsValid u e)
    ]
