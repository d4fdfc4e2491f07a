-- ===== src/Policy/Sampled/Del.antt =====
-- Del of internal/policy/sampledlfu.go: the swap-delete never indexes out of range, and keeps the
-- invariant.
use go_mcache.Base.{
  ℕ, suc, ◌-◌, ◌<◌, ◌≡◌, refl, inl, inr, true, false, none, some, arith, length, get_elem?, set,
  take, length-set, length-take, get_elem?-set, get_elem?-take, lt-length_of_get_elem?,
  Option-cases, Bool-cases, lt→ltb, get_elem?-eq-get_or, get_or, ltb, ◌==◌, if◌then◌else◌, ite,
}
use go_mcache.Base.Assoc.{
  find, put, remove, Distinct, find-put, find-remove, length-remove, Distinct-put, Distinct-remove,
}
use go_mcache.Base.Word.{sub64}
use go_mcache.Policy.Sampled.{TrackedItem, SampledLfu, del, swap_delete}
use go_mcache.Policy.Sampled.Inv.{IsValid, total-remove}

-- `s'` is `s` with the item of `key`, if there is one, taken out.
pub record Deleted {K : Type 0} (dec : Discrete K) (key : K) (s s' : SampledLfu K) : Type 0 where
  pub valid : IsValid dec s'
  pub items : (k : K) → find dec k s'.costs ≡ ite (dec key k) none (find dec k s.costs)
  pub shorter :
      (t : TrackedItem) → find dec key s.costs ≡ some t → suc (length s'.keys) ≡ length s.keys
  pub same_max_cost : s'.max_cost ≡ s.max_cost
  pub same_max_entries : s'.max_entries ≡ s.max_entries

module _ {K : Type 0} (dec : Discrete K) (s : SampledLfu K) (key : K) (v : IsValid dec s) where
  module _ (item : TrackedItem) (idx : ℕ) (moved : K) where
    abbrev last : ℕ
    last = length s.keys - 1

    -- what Del leaves: `moved` is the last key
    abbrev filled : SampledLfu K
    filled = record s {
      used_cost = sub64 s.used_cost item.cost;
      num_entries = sub64 s.num_entries 1;
      costs = remove dec key s.costs;
      keys = take last (if idx == last then s.keys else set s.keys idx moved);
      key_index =
          remove dec key (if idx == last then s.key_index else put dec moved idx s.key_index);
    }

    module _ (e : find dec key s.costs ≡ some item) (at_idx : find dec key s.key_index ≡ some idx)
        (at_last : get_elem? s.keys last ≡ some moved) where
      in_range : idx < length s.keys
      in_range = lt-length_of_get_elem? s.keys idx key (v.listed idx key at_idx)

      index_after :
          (k : K)
          → find dec k filled.key_index
            ≡ ite (dec key k) none (
                if idx == last
                then find dec k s.key_index
                else ite (dec moved k) (some idx) (find dec k s.key_index))
      index_after k = elim (Bool-cases (idx == last)) [
        | inl h ↦ rw h (find-remove dec key k s.key_index v.distinct_index)
        | inr h ↦ rw (
          h,
          find-remove dec key k (put dec moved idx s.key_index) wide,
          find-put dec moved k idx,
        )
      ]
        where
          wide : Distinct dec (put dec moved idx s.key_index)
          wide = Distinct-put dec moved idx s.key_index v.distinct_index

      keys_after :
          (i : ℕ)
          → get_elem? filled.keys i
            ≡ (if ltb i last then (if idx == i then some moved else get_elem? s.keys i) else none)
      keys_after i = elim (Bool-cases (idx == last)) [
        | inl h ↦ rw h (ground (arith, get_elem?-take last s.keys i))
        | inr h ↦ rw h (
            ground (
              arith,
              get_elem?-take last (set s.keys idx moved) i,
              get_elem?-set s.keys idx i moved in_range,
            ))
      ]

      maps_after : Distinct dec filled.key_index
      maps_after =
          Distinct-remove dec key _
            (elim (idx == last)
              as (λ b. Distinct dec (if b then s.key_index else put dec moved idx s.key_index)) [
                | true ↦ v.distinct_index
                | false ↦ Distinct-put dec moved idx s.key_index v.distinct_index
              ])

      length_after : length filled.keys ≡ length s.keys - 1
      length_after = elim (Bool-cases (idx == last)) [
        | inl h ↦ rw h (omega (arith, length-take last s.keys))
        | inr h ↦
            rw h
              (omega (arith, length-take last (set s.keys idx moved), length-set s.keys idx moved))
      ]

      filled-IsValid : IsValid dec filled
      filled-IsValid = record {
        indexed = λ i k h.
            ground
              (arith, keys_after i, index_after k, v.indexed i k, v.indexed last moved at_last);
        listed = λ i k h. ground (
          arith,
          keys_after i,
          index_after k,
          v.listed i k,
          v.listed idx key at_idx,
          in_range,
          lt-length_of_get_elem? s.keys i k,
        );
        unlisted = λ k h.
            ground
              (arith, index_after k, v.unlisted k, find-remove dec key k s.costs v.distinct_costs);
        untracked = λ k h. ground (
          arith,
          index_after k,
          v.untracked k,
          v.indexed last moved at_last,
          find-remove dec key k s.costs v.distinct_costs,
        );
        distinct_costs = Distinct-remove dec key s.costs v.distinct_costs;
        distinct_index = maps_after;
        size = omega (arith, length_after, v.size, length-remove dec key item s.costs e);
        used = omega (arith, v.used, total-remove dec key item s.costs e);
        count = omega (arith, v.count, length-remove dec key item s.costs e);
      }

      del-filled : del dec s key ≡ some filled
      unfolding del swap_delete
      del-filled =
          rw (e, del)
            (rw (at_idx, del)
              (rw (at_last, swap_delete)
                (elim (Bool-cases (idx == last)) [
                  | inl h ↦ rw h refl
                  | inr h ↦ rw h (rw (lt→ltb idx (length s.keys) in_range) refl)
                ])))

  del_tracked :
      (item : TrackedItem)
      → find dec key s.costs ≡ some item
      → (s' : SampledLfu K) × (del dec s key ≡ some s') × Deleted dec key s s'
  del_tracked item e = elim (Option-cases (find dec key s.key_index)) [
    | inl n ↦ absurd (ground (arith, v.unlisted key n))
    | inr (idx, at_idx) ↦
        let lt = lt-length_of_get_elem? s.keys idx key (v.listed idx key at_idx) in
        let at_last = get_elem?-eq-get_or s.keys (length s.keys - 1) key (omega arith) in
        let moved = get_or s.keys (length s.keys - 1) key in
        let valid = filled-IsValid item idx moved e at_idx at_last in
        let d : Deleted dec key s (filled item idx moved) = record {
          valid = valid;
          items = λ k. find-remove dec key k s.costs v.distinct_costs;
          shorter = λ t h. omega (arith, length_after item idx moved e at_idx at_last);
          same_max_cost = refl;
          same_max_entries = refl;
        } in
        (filled item idx moved, del-filled item idx moved e at_idx at_last, d)
  ]

  -- Del, on a state that meets the invariant, does not index out of range; the state that it leaves
  -- meets the invariant, no longer tracks the key, and keeps every other item and both limits.
  pub del-Deleted : (s' : SampledLfu K) × (del dec s key ≡ some s') × Deleted dec key s s'
  unfolding del
  del-Deleted = elim (Option-cases (find dec key s.costs)) [
    | inr (item, e) ↦ del_tracked item e
    | inl e ↦ (
      s,
      rw (e, del) refl,
      record {
        valid = v;
        items = λ k. ground arith;
        shorter = λ t h. absurd (ground arith);
        same_max_cost = refl;
        same_max_entries = refl;
      },
    )
  ]
