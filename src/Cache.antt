-- ===== src/Cache.antt =====
-- cache.go: the writes of the generic cache, one call at a time, with the policy of
-- internal/policy/policy.go. `draws` is what math/rand gives to the eviction loop, `now` what the clock
-- answers, `as_string` the string that a key is, if it is one. `none` is an eviction loop whose draws do not suffice.
pub mod Counters
pub mod State
pub mod Calls
pub mod Creation
pub mod Inv
pub mod Evicting
pub mod Setting
pub mod Updating
pub mod Removing
pub mod Expiring
pub mod Reading
pub mod Buffered
pub mod Order
pub mod Ready
pub mod Steps
pub mod Batch
pub mod Served
pub mod ShardOrder
mod Tests
use go_mcache.Base.{
  ℕ, zero, suc, ◌+◌, ◌-◌, ◌*◌, ◌/◌, ◌%◌, ◌^◌, Bool, true, false, not, ◌&&◌, ◌||◌, List, [], ◌∷◌,
  ◌++◌, Option, none, some, length, take, drop, ltb, leb, ◌==◌, if◌then◌else◌,
}
use go_mcache.Base.Word.{add64, sub64, slt, sle}
use go_mcache.Policy.Sampled.{Victim, ◌>>=◌}
use go_mcache.Policy.Combined
use go_mcache.Policy.Combined.{Policy}
use go_mcache.Store.Sharded.{
  Entry, ShardedStore, with_hash, set_entry, peek_by_hash, delete_by_hash, update_existing_by_hash,
  delete_if_expired,
}
use go_mcache.Store.Wheel.{ExpiryWheel, ExpiryWheelEntry, schedule, advance}
use go_mcache.Cache.Counters.{
  Metrics, inc_set, inc_delete, inc_eviction, inc_expiration, inc_rejection, add_cost,
  add_evicted_cost,
}
use go_mcache.Cache.State.{
  Config, Notice, notice_evict, notice_expire, notice_reject, Cache, radix_delete, radix_insert,
  evict_notice,
}

module _ {K V : Type 0} where
  module _ (as_string : K → Option (List ℕ)) where
    -- what evictVictim does after DeleteByHash
    abbrev pub after_evict : Victim K → Option (Entry K V) → Cache K V → Cache K V
    after_evict victim none c = c
    after_evict victim (some deleted) c = record c {
      live_cost = sub64 c.live_cost deleted.cost;
      radix_tree = radix_delete as_string c.radix_tree victim.key;
      metrics = add_evicted_cost (inc_eviction c.metrics) deleted.cost;
      notices = c.notices ++ evict_notice c.config (some deleted);
    }

    -- what doSet does after the store's Set
    abbrev pub after_set : Option (Entry K V) → Entry K V → Cache K V → Cache K V
    after_set prev entry c = record c {
      live_cost = add64 c.live_cost entry.cost;
      expiry_wheel =
          if slt 0 entry.expire_at
          then schedule c.expiry_wheel entry.key entry.key_hash entry.expire_at
          else c.expiry_wheel;
      radix_tree = radix_insert as_string c.radix_tree entry.key entry.key_hash;
      notices = c.notices ++ evict_notice c.config prev;
      metrics = add_cost (inc_set c.metrics) entry.cost;
    }

    module _ (dec : Discrete K) where
      unfoldable pub evict_victim : Cache K V → Victim K → Cache K V
      evict_victim c victim =
          let out = delete_by_hash dec c.store victim.key victim.key_hash in
          record (after_evict victim out.0 c) { store = out.1 }

      unfoldable pub evict_victims : List (Victim K) → Cache K V → Cache K V
      evict_victims [] c = c
      evict_victims (v ∷ vs) c = evict_victims vs (evict_victim c v)

      module _ (hasher : K → ℕ) (zero_key : K) where
        -- the store's Set writes a hash of 0 into the entry anew
        unfoldable pub store_entry : Entry K V → Cache K V → Cache K V
        store_entry entry c =
            let out = set_entry dec hasher c.store entry in
            record (after_set out.0 (with_hash hasher entry) c) { store = out.1 }

        abbrev pub reject : Entry K V → Cache K V → Cache K V
        reject entry c = record c {
          metrics = inc_rejection c.metrics;
          notices =
              if c.config.on_reject
              then c.notices ++ notice_reject entry.key entry.value ∷ []
              else c.notices;
        }

        unfoldable pub do_set : (ℕ → List ℕ) → Cache K V → Entry K V → Option (Bool × Cache K V)
        do_set draws c entry =
            Combined.add dec zero_key draws c.policy entry.key entry.key_hash entry.cost >>= λ r.
            let c' = record c { policy = r.2 } in
            some (
              if r.1
              then (true, store_entry entry (evict_victims r.0 c'))
              else (false, reject entry c'))

        -- what tryUpdateExisting does after UpdateExistingByHash
        abbrev pub after_update : Option (Entry K V) → ℕ → K → ℕ → ℕ → ℕ → Cache K V → Cache K V
        after_update prev cost_delta key key_hash cost expire_at c = record c {
          live_cost = if cost_delta == 0 then c.live_cost else add64 c.live_cost cost_delta;
          policy =
              if cost_delta == 0
              then c.policy
              else Combined.update dec zero_key c.policy key key_hash cost;
          expiry_wheel =
              if slt 0 expire_at
              then schedule c.expiry_wheel key key_hash expire_at
              else c.expiry_wheel;
          metrics = add_cost (inc_set c.metrics) cost;
          notices = c.notices ++ evict_notice c.config prev;
        }

        unfoldable pub try_update_existing : Cache K V → K → V → ℕ → ℕ → ℕ → Bool × Cache K V
        try_update_existing c key value key_hash cost expire_at =
            elim (peek_by_hash dec c.store key key_hash) [
              | none ↦ (false, c)
              | some _ ↦
                  let out =
                    update_existing_by_hash dec c.store key key_hash value cost expire_at
                      c.config.on_evict in
                  let c' = record c { store = out.1 } in
                  if out.0.1
                  then (true, after_update out.0.0 out.0.2 key key_hash cost expire_at c')
                  else (false, c')
            ]

        unfoldable pub set_sync :
            (ℕ → List ℕ) → Cache K V → K → V → ℕ → ℕ → ℕ → Option (Bool × Cache K V)
        set_sync draws c key value key_hash cost expire_at =
            let r = try_update_existing c key value key_hash cost expire_at in
            if r.0
            then some (true, r.1)
            else do_set draws r.1 (record {
              key = key;
              value = value;
              key_hash = key_hash;
              expire_at = expire_at;
              cost = cost;
            })

        abbrev pub after_delete : K → Entry K V → Policy K → Cache K V → Cache K V
        after_delete key deleted policy c = record c {
          live_cost = sub64 c.live_cost deleted.cost;
          policy = policy;
          radix_tree = radix_delete as_string c.radix_tree key;
          metrics = inc_delete c.metrics;
        }

        unfoldable pub do_delete : Cache K V → K → ℕ → Option (Bool × Cache K V)
        do_delete c key key_hash =
            let out = delete_by_hash dec c.store key key_hash in
            let c' = record c { store = out.1 } in
            elim out.0 [
              | none ↦ some (false, c')
              | some deleted ↦ Combined.del dec zero_key c.policy key >>= λ policy.
                  some (true, after_delete key deleted policy c')
            ]

        abbrev pub after_expire : Entry K V → ExpiryWheelEntry K → Policy K → Cache K V → Cache K V
        after_expire entry item policy c = record c {
          live_cost = sub64 c.live_cost entry.cost;
          policy = policy;
          radix_tree = radix_delete as_string c.radix_tree item.key;
          metrics = inc_expiration c.metrics;
          notices =
              if c.config.on_expire
              then c.notices ++ notice_expire entry.key entry.value ∷ []
              else c.notices;
        }

        -- the loop of removeExpired
        unfoldable pub expire_items : ℕ → List (ExpiryWheelEntry K) → Cache K V → Option (Cache K V)
        expire_items now [] c = some c
        expire_items now (item ∷ items) c =
            let out = delete_if_expired dec c.store item.key item.key_hash item.expire_at now in
            let c' = record c { store = out.1 } in
            elim out.0 [
              | none ↦ expire_items now items c'
              | some entry ↦ Combined.del dec zero_key c.policy entry.key >>= λ policy.
                  expire_items now items (after_expire entry item policy c')
            ]

        unfoldable pub remove_expired : ℕ → Cache K V → Option (Cache K V)
        remove_expired now c =
            let out = advance c.expiry_wheel now in
            expire_items now out.0 (record c { expiry_wheel = out.1 })
