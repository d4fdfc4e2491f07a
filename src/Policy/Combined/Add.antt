-- ===== src/Policy/Combined/Add.antt =====
-- internal/policy/policy.go: what Add promises.
use go_mcache.Base.{
  ℕ, suc, ◌+◌, ◌^◌, ◌<◌, ◌≡◌, refl, true, false, List, [], none, some, arith, length, Option-cases,
  inl, inr, ◌≢◌, ◌∙◌,
}
use go_mcache.Base.Assoc.{find, put, find-put}
use go_mcache.Policy.TinyLfu
use go_mcache.Policy.TinyLfu.{TinyLfu}
use go_mcache.Policy.Sampled
use go_mcache.Policy.Sampled.{TrackedItem, SampledLfu, Victim, ◌>>=◌}
use go_mcache.Policy.Sampled.Inv.{IsValid, add-IsValid, update-IsValid}
use go_mcache.Policy.Combined.{Policy, find_victims, add}
use go_mcache.Policy.Combined.Victims.{Evicts, Evicted, find_victims_ends, find_victims_fits}

-- What Add leaves: the key is tracked with its new hash and cost, the victims were tracked, are not the
-- key and are gone, and every other key keeps its item.
pub record Added {K : Type 0} (dec : Discrete K) (p : Policy K) (key : K) (item : TrackedItem)
    (victims : List (Victim K)) (p' : Policy K) : Type 0 where
  pub valid : IsValid dec p'.evict
  pub tracked : find dec key p'.evict.costs ≡ some item
  pub evicted :
      (k : K)
      → Evicts victims k
      → (find dec k p'.evict.costs ≡ none) × (find dec k p.evict.costs ≢ none)
  pub others :
      (k : K) → key ≢ k → ¬ Evicts victims k → find dec k p'.evict.costs ≡ find dec k p.evict.costs
  pub no_needless_victim : Sampled.needs_eviction p.evict ≡ false → victims ≡ []

module _ {K : Type 0} (dec : Discrete K) (s : SampledLfu K) (key : K) (h c : ℕ) where
  abbrev item_of : TrackedItem
  item_of = record { key_hash = h; cost = c }

  costs-add : (Sampled.add dec s key h c).costs ≡ put dec key item_of s.costs
  unfolding Sampled.add
  costs-add = elim (Option-cases (find dec key s.costs)) [
    | inl n ↦ rw (n, Sampled.add) refl
    | inr (u, e) ↦ rw (e, Sampled.add) refl
  ]

  pub costs-update :
      (u : TrackedItem)
      → find dec key s.costs ≡ some u
      → (Sampled.update dec s key h c).costs ≡ put dec key item_of s.costs
  unfolding Sampled.update
  costs-update u e = rw (e, Sampled.update) refl

module _ {K : Type 0} (dec : Discrete K) (zero_key : K) (draws : ℕ → List ℕ) (p : Policy K) where
  module _ (key : K) (h c : ℕ) where
    abbrev admitting : TinyLfu
    admitting = TinyLfu.increment p.admit h

    pub add_tracked :
        (u : TrackedItem)
        → find dec key p.evict.costs ≡ some u
        → add dec zero_key draws p key h c
          ≡ some
              ([], true, record { admit = admitting; evict = Sampled.update dec p.evict key h c })
    unfolding add Sampled.has
    add_tracked u e = rw (e, Sampled.has) refl

    pub add_new :
        find dec key p.evict.costs ≡ none
        → add dec zero_key draws p key h c ≡ (
            find_victims dec zero_key draws (suc (length p.evict.keys)) 0 admitting h p.evict []
            >>= λ found. some (
              found.0,
              true,
              record { admit = admitting; evict = Sampled.add dec found.1 key h c },
            ))
    unfolding add Sampled.has
    add_new e = rw (e, Sampled.has) refl

    pub updated-Added :
        (u : TrackedItem)
        → find dec key p.evict.costs ≡ some u
        → IsValid dec p.evict
        → Added dec p key
            (record { key_hash = h; cost = c })
            []
            (record { admit = admitting; evict = Sampled.update dec p.evict key h c })
    updated-Added u e v =
        let changed = costs-update dec p.evict key h c u e in
        let at = λ (k : K). find-put dec key k (record { key_hash = h; cost = c }) p.evict.costs in
        record {
          valid = update-IsValid dec p.evict key h c v;
          tracked = rw changed (ground (arith, at key));
          evicted = λ k m. absurd m;
          others = λ k ne m. rw changed (ground (arith, at k));
          no_needless_victim = λ n. refl;
        }

    pub inserted-Added :
        (out : List (Victim K)) (s' : SampledLfu K)
        → find dec key p.evict.costs ≡ none
        → Evicted dec admitting h p.evict out s'
        → find_victims dec zero_key draws (suc (length p.evict.keys)) 0 admitting h p.evict []
          ≡ some (out, s')
        → Added dec p key
            (record { key_hash = h; cost = c })
            out
            (record { admit = admitting; evict = Sampled.add dec s' key h c })
    inserted-Added out s' e w ends =
        let changed = costs-add dec s' key h c in
        let at = λ (k : K). find-put dec key k (record { key_hash = h; cost = c }) s'.costs in
        record {
          valid = add-IsValid dec s' key h c w.valid;
          tracked = rw changed (ground (arith, at key));
          evicted = λ k m. (rw changed (ground (arith, at k, w.gone k m, e)), (w.gone k m).1);
          others = λ k ne m. rw changed (ground (arith, at k, w.kept k m));
          no_needless_victim = λ n. cc (
            ends,
            find_victims_fits dec zero_key draws admitting h (length p.evict.keys) 0 p.evict n,
          );
        }

    -- Add, in a valid state with at most 99 tracked keys, ends and answers that the key was added. The state
    -- that it leaves is valid, tracks the key with its hash and cost, tracks no victim, each of which was
    -- tracked before, and keeps every other item; there is no victim when no eviction was due.
    pub add-Added :
        IsValid dec p.evict
        → length p.evict.keys < 100
        → (victims : List (Victim K)) × (p' : Policy K) × (add dec zero_key draws p key h c
            ≡ some (victims, true, p'))
          × Added dec p key (record { key_hash = h; cost = c }) victims p'
    add-Added v small = elim (Option-cases (find dec key p.evict.costs)) [
      | inr (u, e) ↦ ([], _, add_tracked u e, updated-Added u e v)
      | inl e ↦
          let (out, s', ends, w) =
            find_victims_ends dec zero_key draws admitting h (suc (length p.evict.keys)) 0 p.evict
              [] (omega arith) small v in
          (out, _, add_new e ∙ rw ends refl, inserted-Added out s' e w ends)
    ]

    at_limit_fits :
        p.evict.max_cost ≡ 0
        → p.evict.num_entries ≡ p.evict.max_entries
        → Sampled.needs_eviction p.evict ≡ false
    unfolding Sampled.needs_eviction
    at_limit_fits no_cost full = ground arith

    one_over :
        p.evict.max_cost ≡ 0
        → p.evict.num_entries ≡ p.evict.max_entries
        → 0 < p.evict.max_entries
        → p.evict.max_entries + 1 < 2 ^ 63
        → find dec key p.evict.costs ≡ none
        → ((Sampled.add dec p.evict key h c).num_entries ≡ p.evict.max_entries + 1)
          × (Sampled.needs_eviction (Sampled.add dec p.evict key h c) ≡ true)
    unfolding Sampled.needs_eviction Sampled.add
    one_over no_cost full pos fits e =
        (rw (e, Sampled.add) (omega arith), rw (e, Sampled.add) (ground arith))

    -- The limits are tested before the insertion: with an entry limit alone and exactly that many entries,
    -- Add of a new key evicts nothing and leaves one entry more than the limit, a state that is itself due
    -- for eviction.
    pub add_exceeds_limit :
        find dec key p.evict.costs ≡ none
        → p.evict.max_cost ≡ 0
        → p.evict.num_entries ≡ p.evict.max_entries
        → 0 < p.evict.max_entries
        → p.evict.max_entries + 1 < 2 ^ 63
        → (p' : Policy K) × (add dec zero_key draws p key h c ≡ some ([], true, p'))
          × (p'.evict.num_entries ≡ p.evict.max_entries + 1)
          × (Sampled.needs_eviction p'.evict ≡ true)
    add_exceeds_limit e no_cost full pos fits =
        let over = one_over no_cost full pos fits e in
        let none_out =
          find_victims_fits dec zero_key draws admitting h (length p.evict.keys) 0 p.evict
            (at_limit_fits no_cost full) in
        (
          record { admit = admitting; evict = Sampled.add dec p.evict key h c },
          add_new e ∙ rw none_out refl,
          over.0,
          over.1,
        )
