-- ===== src/Cache/Removing.antt =====
-- cache.go: doDelete and removeExpired against the map from keys to entries.
use std.Path.{subst}
use go_mcache.Base.{
  ℕ, ◌≡◌, refl, sym, ap, ◌∙◌, inl, inr, ◌⊎◌, ◌≢◌, true, false, ◌&&◌, Option, none, some, List, [],
  arith, if_pos, if_neg, Bool-cases, Option-cases, if◌then◌else◌, ◌==◌, get_or, set,
}
use go_mcache.Base.Assoc.{find, remove}
use go_mcache.Base.Word.{sub64}
use go_mcache.Policy.Sampled.{◌>>=◌}
use go_mcache.Policy.Sampled
use go_mcache.Policy.Sampled.Del.{Deleted, del-Deleted}
use go_mcache.Policy.Combined
use go_mcache.Policy.Combined.{Policy}
use go_mcache.Store.Sharded.{
  Entry, ShardedStore, is_expired, get_shard, shard_index, delete_by_hash, delete_if_expired,
}
use go_mcache.Store.Sharded.Inv as StoreInv
use go_mcache.Store.Sharded.Inv.{Changed, entry_of}
use go_mcache.Store.Sharded.Map.{delete-Changed}
use go_mcache.Store.Sharded.Expiry.{delete_if_expired-Changed}
use go_mcache.Store.Wheel.{ExpiryWheelEntry}
use go_mcache.Cache.{do_delete, after_delete}
use go_mcache.Cache.State.{Cache}
use go_mcache.Cache.Inv.{Mirrors, IsValid, item_of}

module _ {K V : Type 0} (dec : Discrete K) (hasher : K → ℕ) where
  -- one key taken out of both
  both-Mirrors :
      (s s' : ShardedStore K V) (p p' : Sampled.SampledLfu K) (key : K)
      → Mirrors dec hasher s p
      → Changed dec hasher key none s s'
      → Deleted dec key p p'
      → Mirrors dec hasher s' p'
  both-Mirrors s s' p p' key m ch d = record {
    store_valid = ch.valid;
    policy_valid = d.valid;
    mirrored = λ k. elim (dec key k) [
      | yes q ↦
          d.items k
          ∙ if_pos (dec key k) q _ _
          ∙ sym (ap item_of (ch.entries k ∙ if_pos (dec key k) q _ _))
      | no n ↦
          d.items k
          ∙ if_neg (dec key k) n _ _
          ∙ m.mirrored k
          ∙ sym (ap item_of (ch.entries k ∙ if_neg (dec key k) n _ _))
    ];
    priced = λ k x h. elim (dec key k) [
      | yes q ↦ absurd (ground (arith, ch.entries k ∙ if_pos (dec key k) q _ _, h))
      | no n ↦ m.priced k x (sym (ch.entries k ∙ if_neg (dec key k) n _ _) ∙ h)
    ];
  }

  -- the policy's Del ends, and the policy is in step with the store again
  pub policy_follows :
      (zero_key : K) (p : Policy K) (s s' : ShardedStore K V) (key : K)
      → Mirrors dec hasher s p.evict
      → Changed dec hasher key none s s'
      → (p' : Policy K) × (Combined.del dec zero_key p key ≡ some p')
        × Mirrors dec hasher s' p'.evict
  unfolding Combined.del
  policy_follows zero_key p s s' key m ch =
      let (q, deleted, d) = del-Deleted dec p.evict key m.policy_valid in
      (record p { evict = q }, rw deleted refl, both-Mirrors s s' p.evict q key m ch d)

  -- the key is gone, and nothing else
  pub record Removes (key : K) (c c' : Cache K V) : Type 0 where
    pub valid : IsValid dec hasher c'
    pub gone : entry_of dec hasher c'.store key ≡ none
    pub same_closed : c'.closed ≡ c.closed
    pub same_buffer : c'.write_buffer ≡ c.write_buffer
    pub others : (k : K) → key ≢ k → entry_of dec hasher c'.store k ≡ entry_of dec hasher c.store k

  removed :
      (c c' : Cache K V) (key : K)
      → Changed dec hasher key none c.store c'.store
      → IsValid dec hasher c'
      → c'.closed ≡ c.closed
      → c'.write_buffer ≡ c.write_buffer
      → Removes key c c'
  removed c c' key ch v closed buffer = record {
    valid = v;
    same_closed = closed;
    same_buffer = buffer;
    gone = ch.entries key ∙ if_pos (dec key key) refl _ _;
    others = λ k n. ch.entries k ∙ if_neg (dec key k) n _ _;
  }

  -- nothing to take out
  unchanged-Mirrors :
      (c : Cache K V) (s' : ShardedStore K V) (key : K)
      → IsValid dec hasher c
      → Changed dec hasher key none c.store s'
      → entry_of dec hasher c.store key ≡ none
      → Mirrors dec hasher s' c.policy.evict
  unchanged-Mirrors c s' key m ch absent = record {
    store_valid = ch.valid;
    policy_valid = m.policy_valid;
    mirrored = λ k. m.mirrored k ∙ ap item_of (sym (same k));
    priced = λ k x h. m.priced k x (sym (same k) ∙ h);
  }
    where
      same : (k : K) → entry_of dec hasher s' k ≡ entry_of dec hasher c.store k
      same k = elim (dec key k) [
        | yes q ↦
            ch.entries k
            ∙ if_pos (dec key k) q _ _
            ∙ sym (subst (λ k. entry_of dec hasher c.store k ≡ none) q absent)
        | no n ↦ ch.entries k ∙ if_neg (dec key k) n _ _
      ]

  module _ (as_string : K → Option (List ℕ)) (zero_key : K) where
    -- On a valid cache doDelete ends. It answers whether the key had an entry, leaves store and policy in step,
    -- the key without an entry and every other key with what it had.
    pub do_delete-Removes :
        (c : Cache K V) (key : K)
        → IsValid dec hasher c
        → (c' : Cache K V) × (do_delete as_string dec hasher zero_key c key (hasher key)
            ≡ some (elim (entry_of dec hasher c.store key) [ none ↦ false | some e ↦ true ], c'))
          × Removes key c c'
    unfolding do_delete
    do_delete-Removes c key m =
        let s' = (delete_by_hash dec c.store key (hasher key)).1 in
        let (same, out, changed) = delete-Changed dec hasher c.store m.store_valid key in
        let out' = ap (λ o. o.0) same ∙ out in
        let ch : Changed dec hasher key none c.store s' =
          subst (λ o. Changed dec hasher key none c.store o.1) (sym same) changed in
        elim (Option-cases (entry_of dec hasher c.store key)) [
          | inl absent ↦ (
            record c { store = s' },
            rw (out' ∙ absent, absent, do_delete) refl,
            removed c (record c { store = s' }) key ch (unchanged-Mirrors c s' key m ch absent) refl
                refl,
          )
          | inr (e, present) ↦
              let (p', deleted, follows) = policy_follows zero_key c.policy c.store s' key m ch in
              let c' =
                after_delete as_string dec hasher zero_key key e p' (record c { store = s' }) in
              (
                c',
                rw (out' ∙ present, present, deleted, do_delete) refl,
                removed c c' key ch follows refl refl,
              )
        ]

  module _ (now : ℕ) (s : ShardedStore K V) (valid : StoreInv.IsValid dec hasher s)
      (item : ExpiryWheelEntry K) where
    abbrev deletion : Option (Entry K V) × ShardedStore K V
    deletion = delete_if_expired dec s item.key item.key_hash item.expire_at now

    -- the hash matters for the shard alone
    by_shard :
        shard_index s item.key_hash ≡ shard_index s (hasher item.key)
        → deletion ≡ delete_if_expired dec s item.key (hasher item.key) item.expire_at now
    unfolding delete_if_expired
    by_shard = ap (λ i.
        let sh = get_or s.shards i [] in
        elim (find dec item.key sh) as (λ o. Option (Entry K V) × ShardedStore K V) [
          | none ↦ (none, s)
          | some e ↦
              if (e.expire_at == item.expire_at) && is_expired now e
              then (
                some e,
                record s {
                  shards = set s.shards i (remove dec item.key sh);
                  size = sub64 s.size 1;
                },
              )
              else (none, s)
        ])

    -- an item of any hash takes out its key's expired entry or does nothing
    pub expiry_cases :
        (deletion ≡ (none, s))
        ⊎ ((e : Entry K V) × (entry_of dec hasher s item.key ≡ some e)
            × (is_expired now e ≡ true)
            × (e.expire_at ≡ item.expire_at)
            × (deletion.0 ≡ some e)
            × Changed dec hasher item.key none s deletion.1)
    unfolding delete_if_expired
    expiry_cases = elim (Option-cases (find dec item.key (get_shard s item.key_hash))) [
      | inl absent ↦ inl (rw (absent, delete_if_expired) refl)
      | inr (e, present) ↦
          let index = (valid.placed (shard_index s item.key_hash) item.key e present).2 in
          let at : entry_of dec hasher s item.key ≡ some e =
            subst (λ i. find dec item.key (get_or s.shards i []) ≡ some e) index present in
          let cases = delete_if_expired-Changed dec hasher s valid now item.key item.expire_at in
          elim (Bool-cases ((e.expire_at == item.expire_at) && is_expired now e)) [
            | inr n ↦ inl (by_shard index ∙ cases.1 e at n)
            | inl y ↦
                let (out, ch) = cases.0 e at y in
                inr (
                  e,
                  at,
                  ground (arith, y),
                  ground (arith, y),
                  ap (λ o. o.0) (by_shard index) ∙ out,
                  subst (λ o. Changed dec hasher item.key none s o.1) (sym (by_shard index)) ch,
                )
          ]
    ]
