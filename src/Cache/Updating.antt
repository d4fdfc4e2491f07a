-- ===== src/Cache/Updating.antt =====
-- cache.go: tryUpdateExisting and setSync against the map from keys to entries.
use std.Path.{subst}
use go_mcache.Base.{
  ℕ, ◌≡◌, ◌<◌, ◌^◌, refl, sym, ap, ap₂, ◌∙◌, inl, inr, Bool, true, false, Option, none, some, List,
  arith, ite, if_pos, if_neg, Bool-cases, Option-cases, if◌then◌else◌, ◌==◌, length,
}
use go_mcache.Base.Assoc.{find, find-put}
use go_mcache.Base.Word.{sub64}
use go_mcache.Policy.Sampled.{TrackedItem}
use go_mcache.Policy.Sampled.Inv
use go_mcache.Policy.Combined
use go_mcache.Policy.Combined.{Policy}
use go_mcache.Policy.Combined.Add.{costs-update}
use go_mcache.Policy.Combined.Chosen.{When}
use go_mcache.Store.Sharded.{Entry, ShardedStore, update_existing_by_hash}
use go_mcache.Store.Sharded.Inv as StoreInv
use go_mcache.Store.Sharded.Inv.{Changed, entry_of}
use go_mcache.Store.Sharded.Map.{update_existing_by_hash-Changed, get_lem}
use go_mcache.Cache.{try_update_existing, set_sync}
use go_mcache.Cache.State.{Cache}
use go_mcache.Cache.Inv.{Mirrors, IsValid, item_of}
use go_mcache.Cache.Setting.{Sets, do_set-Sets, do_set_answers}

-- no change of cost is an equal cost
no_delta : (a b : ℕ) → a < 2 ^ 64 → b < 2 ^ 64 → (sub64 a b == 0) ≡ true → a ≡ b
no_delta a b ha hb h = grind (arith, h)

module _ {K V : Type 0} (dec : Discrete K) (hasher : K → ℕ) where
  -- the policy after the update of a tracked key
  module _ (zero_key : K) (p : Policy K) (s s' : ShardedStore K V) (key : K) (e e' : Entry K V)
      (m : Mirrors dec hasher s p.evict) (at : entry_of dec hasher s key ≡ some e)
      (ch : Changed dec hasher key (some e') s s') (same_hash : e'.key_hash ≡ e.key_hash)
      (cheap : e'.cost < 2 ^ 64) where
    abbrev updated : Policy K
    updated =
        if sub64 e'.cost e.cost == 0
        then p
        else Combined.update dec zero_key p key (hasher key) e'.cost

    own_hash : e.key_hash ≡ hasher key
    own_hash = (m.store_valid.placed _ key e at).1

    updated_costs :
        (k : K)
        → find dec k updated.evict.costs
          ≡ ite (dec key k) (item_of (some e')) (find dec k p.evict.costs)
    unfolding Combined.update
    updated_costs k =
        let item : TrackedItem = record { key_hash = e.key_hash; cost = e.cost } in
        let tracked : find dec key p.evict.costs ≡ some item = m.mirrored key ∙ ap item_of at in
        elim (Bool-cases (sub64 e'.cost e.cost == 0)) [
          | inl z ↦ rw z (elim (dec key k) [
            | no n ↦ sym (if_neg (dec key k) n _ _)
            | yes q ↦
                subst (λ k. find dec k p.evict.costs ≡ some item) q tracked
                ∙ ap some (
                    ap₂ (λ h c. record { key_hash = h; cost = c }) (sym same_hash)
                      (sym (no_delta e'.cost e.cost cheap (m.priced key e at) z)))
                ∙ sym (if_pos (dec key k) q _ _)
          ])
          | inr n ↦ rw n (
              ap (find dec k) (costs-update dec p.evict key (hasher key) e'.cost item tracked)
              ∙ find-put dec key k (record { key_hash = hasher key; cost = e'.cost }) p.evict.costs
              ∙ ap
                  (λ h.
                    ite (dec key k) (some (record { key_hash = h; cost = e'.cost }))
                      (find dec k p.evict.costs))
                  (sym (same_hash ∙ own_hash)))
        ]

    updated-IsValid : Inv.IsValid dec updated.evict
    unfolding Combined.update
    updated-IsValid = elim (Bool-cases (sub64 e'.cost e.cost == 0)) [
      | inl z ↦ rw z m.policy_valid
      | inr n ↦ rw n (Inv.update-IsValid dec p.evict key (hasher key) e'.cost m.policy_valid)
    ]

    at_key : entry_of dec hasher s' key ≡ some e'
    at_key = ch.entries key ∙ if_pos (dec key key) refl _ _

    update-Mirrors : Mirrors dec hasher s' updated.evict
    update-Mirrors = record {
      store_valid = ch.valid;
      policy_valid = updated-IsValid;
      mirrored = λ k. elim (dec key k) [
        | yes q ↦
            updated_costs k
            ∙ if_pos (dec key k) q _ _
            ∙ sym (ap item_of (ch.entries k ∙ if_pos (dec key k) q _ _))
        | no n ↦
            updated_costs k
            ∙ if_neg (dec key k) n _ _
            ∙ m.mirrored k
            ∙ sym (ap item_of (ch.entries k ∙ if_neg (dec key k) n _ _))
      ];
      priced = λ k x h. elim (dec key k) [
        | yes q ↦ ground (arith, ch.entries k ∙ if_pos (dec key k) q _ _, h, cheap)
        | no n ↦ m.priced k x (sym (ch.entries k ∙ if_neg (dec key k) n _ _) ∙ h)
      ];
    }

  module _ (as_string : K → Option (List ℕ)) (zero_key : K) where
    -- what UpdateExistingByHash writes, for the entry that stood there
    abbrev fresh : Entry K V → V → ℕ → ℕ → Entry K V
    fresh e value cost expire_at = record e { value = value; cost = cost; expire_at = expire_at }

    same_entry :
        (s : ShardedStore K V) (key : K) (e : Entry K V) (value : V) (cost expire_at : ℕ)
        → StoreInv.IsValid dec hasher s
        → entry_of dec hasher s key ≡ some e
        → fresh e value cost expire_at ≡ record {
          key = key;
          value = value;
          key_hash = hasher key;
          expire_at = expire_at;
          cost = cost;
        }
    same_entry s key e value cost expire_at v at =
        let placed = v.placed _ key e at in
        ap₂
          (λ k h. record {
            key = k;
            value = value;
            key_hash = h;
            expire_at = expire_at;
            cost = cost;
          })
          placed.0 placed.1

    module _ (c : Cache K V) (key : K) (value : V) (cost expire_at : ℕ)
        (m : IsValid dec hasher c) where
      abbrev pub wanted : Entry K V
      wanted = record {
        key = key;
        value = value;
        key_hash = hasher key;
        expire_at = expire_at;
        cost = cost;
      }

      try_absent :
          entry_of dec hasher c.store key ≡ none
          → try_update_existing as_string dec hasher zero_key c key value
              (hasher key)
              cost
              expire_at
            ≡ (false, c)
      unfolding try_update_existing
      try_absent at =
          rw ((get_lem dec hasher c.store m.store_valid 0 key).1 ∙ at, try_update_existing) refl

      try_present :
          (e : Entry K V)
          → entry_of dec hasher c.store key ≡ some e
          → cost < 2 ^ 64
          → let r =
              try_update_existing as_string dec hasher zero_key c key value
                (hasher key)
                cost
                expire_at in
            (r.0 ≡ true) × Sets dec hasher c wanted r.1
      unfolding try_update_existing
      try_present e at cheap =
          let done =
            (update_existing_by_hash-Changed dec hasher c.store m.store_valid key value cost
                expire_at c.config.on_evict).1
              e at in
          let s' =
            (update_existing_by_hash dec c.store key (hasher key) value cost expire_at
              c.config.on_evict).1 in
          let e' = fresh e value cost expire_at in
          rw ((get_lem dec hasher c.store m.store_valid 0 key).1 ∙ at, try_update_existing, done.0)
            (
              refl,
              record {
                valid = update-Mirrors zero_key c.policy c.store s' key e e' m at done.1 refl cheap;
                holds =
                    done.1.entries key
                    ∙ if_pos (dec key key) refl _ _
                    ∙ ap some (same_entry c.store key e value cost expire_at m.store_valid at);
                same_closed = refl;
                same_buffer = refl;
                others = λ k n. inl (done.1.entries k ∙ if_neg (dec key k) n _ _);
              },
            )

      -- On a valid cache, setSync of a key, with its hash and a cost of 64 bits, answers, when it does, that the
      -- value was stored, and with fewer than 100 tracked keys it does. Store and policy are in step again, the key
      -- has the new entry, and every other key what it had, unless it was evicted when eviction was due before.
      pub set_sync-Sets :
          (draws : ℕ → List ℕ)
          → cost < 2 ^ 64
          → let o =
              set_sync as_string dec hasher zero_key draws c key value
                (hasher key)
                cost
                expire_at in
            When (λ r. (r.0 ≡ true) × Sets dec hasher c wanted r.1) o
            × (length c.policy.evict.keys < 100 → (r : Bool × Cache K V) × (o ≡ some r))
      unfolding set_sync
      set_sync-Sets draws cheap = elim (Option-cases (entry_of dec hasher c.store key)) [
        | inl absent ↦ rw (try_absent absent) (
          do_set-Sets dec hasher as_string zero_key draws c wanted m refl cheap,
          λ small. do_set_answers dec hasher as_string zero_key draws c wanted m small,
        )
        | inr (e, present) ↦
            let (done, sets) = try_present e present cheap in
            rw done ((refl, sets), λ small. (_, refl))
      ]
