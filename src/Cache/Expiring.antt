-- ===== src/Cache/Expiring.antt =====
-- cache.go: removeExpired against the map from keys to entries.
use std.Path.{subst}
use go_mcache.Base.{
  ℕ, ◌≡◌, refl, sym, ap, ◌∙◌, inl, inr, ◌⊎◌, true, ◌&&◌, Option, none, some, List, [], ◌∷◌, arith,
  if_pos, if_neg, ◌==◌, Member,
}
use go_mcache.Policy.Combined
use go_mcache.Policy.Combined.{Policy}
use go_mcache.Store.Sharded.{Entry, ShardedStore, is_expired, delete_if_expired}
use go_mcache.Store.Sharded.Inv as StoreInv
use go_mcache.Store.Sharded.Expiry.{delete_if_expired-Changed}
use go_mcache.Store.Sharded.Inv.{Changed, entry_of}
use go_mcache.Store.Wheel.{ExpiryWheel, ExpiryWheelEntry, advance}
use go_mcache.Cache.{after_expire, expire_items, remove_expired}
use go_mcache.Cache.State.{Cache}
use go_mcache.Cache.Inv.{IsValid}
use go_mcache.Cache.Removing.{policy_follows, expiry_cases}

module _ {K V : Type 0} (dec : Discrete K) (hasher : K → ℕ) where
  -- a key keeps its entry, or had an expired one and has none
  abbrev pub Lapses : ℕ → ShardedStore K V → ShardedStore K V → K → Type 0
  Lapses now s s' k =
      (entry_of dec hasher s' k ≡ entry_of dec hasher s k)
      ⊎ ((entry_of dec hasher s' k ≡ none)
          × ((e : Entry K V) × (entry_of dec hasher s k ≡ some e) × (is_expired now e ≡ true)))

  still_gone :
      (now : ℕ) (s₁ s₂ : ShardedStore K V) (k : K)
      → entry_of dec hasher s₁ k ≡ none
      → Lapses now s₁ s₂ k
      → entry_of dec hasher s₂ k ≡ none
  still_gone now s₁ s₂ k gone (inl kept) = kept ∙ gone
  still_gone now s₁ s₂ k gone (inr (g, _)) = g

  first_lapse :
      (now : ℕ) (s s₁ s₂ : ShardedStore K V) (key : K) (e : Entry K V) (k : K)
      → entry_of dec hasher s key ≡ some e
      → is_expired now e ≡ true
      → Changed dec hasher key none s s₁
      → Lapses now s₁ s₂ k
      → Lapses now s s₂ k
  first_lapse now s s₁ s₂ key e k at over ch l = elim (dec key k) [
    | yes q ↦
        let gone : entry_of dec hasher s₁ k ≡ none = ch.entries k ∙ if_pos (dec key k) q _ _ in
        inr (
          still_gone now s₁ s₂ k gone l,
          (e, subst (λ k. entry_of dec hasher s k ≡ some e) q at, over),
        )
    | no n ↦
        let same = ch.entries k ∙ if_neg (dec key k) n _ _ in
        elim l [
          | inl kept ↦ inl (kept ∙ same)
          | inr (gone, (e', was, late)) ↦ inr (gone, (e', sym same ∙ was, late))
        ]
  ]

  on_time :
      (now : ℕ) (e x : Entry K V)
      → e.expire_at ≡ now
      → some e ≡ some x
      → is_expired now x ≡ true
      → ⊥
  unfolding is_expired
  on_time now e x just same late =
      let at : x.expire_at ≡ now = ground (arith, just, same) in absurd (ground (arith, at, late))

  -- the entry of the item's key has expired, at the item's time
  abbrev pub Due : ℕ → ShardedStore K V → ExpiryWheelEntry K → Type 0
  Due now s item =
      (item.key_hash ≡ hasher item.key)
      × ((e : Entry K V) × (entry_of dec hasher s item.key ≡ some e)
          × (((e.expire_at == item.expire_at) && is_expired now e) ≡ true))

  not_idle :
      (now : ℕ) (s : ShardedStore K V) (v : StoreInv.IsValid dec hasher s)
      (item : ExpiryWheelEntry K)
      → Due now s item
      → delete_if_expired dec s item.key item.key_hash item.expire_at now ≡ (none, s)
      → ⊥
  not_idle now s v item (own, (e, at, late)) idle =
      let done =
        (delete_if_expired-Changed dec hasher s v now item.key item.expire_at).0 e at late in
      let idle' =
        ap (λ h. (delete_if_expired dec s item.key h item.expire_at now).0) (sym own)
        ∙ ap (λ o. o.0) idle in
      absurd (ground (arith, idle', done.0))

  later-Due :
      (now : ℕ) (s s₁ s₂ : ShardedStore K V) (key : K) (item : ExpiryWheelEntry K)
      → Changed dec hasher key none s s₁
      → Due now s item
      → Lapses now s₁ s₂ item.key
      → (Due now s₁ item → entry_of dec hasher s₂ item.key ≡ none)
      → entry_of dec hasher s₂ item.key ≡ none
  later-Due now s s₁ s₂ key item ch (own, (e, at, late)) l g = elim (dec key item.key) [
    | yes q ↦
        still_gone now s₁ s₂ item.key (ch.entries item.key ∙ if_pos (dec key item.key) q _ _) l
    | no n ↦ g (own, (e, ch.entries item.key ∙ if_neg (dec key item.key) n _ _ ∙ at, late))
  ]

  module _ (as_string : K → Option (List ℕ)) (zero_key : K) where
    -- the worker's loop ends, the cache is valid, and the entries that are due are gone
    abbrev Expires : ℕ → List (ExpiryWheelEntry K) → Cache K V → Option (Cache K V) → Type 0
    Expires now items c o =
        (c' : Cache K V) × (o ≡ some c')
        × IsValid dec hasher c'
        × (c'.expiry_wheel ≡ c.expiry_wheel)
        × (c'.write_buffer ≡ c.write_buffer)
        × ((k : K) → Lapses now c.store c'.store k)
        × ((item : ExpiryWheelEntry K)
            → Member item items
            → Due now c.store item
            → entry_of dec hasher c'.store item.key ≡ none)

    expire_items-Expires :
        (now : ℕ) (items : List (ExpiryWheelEntry K)) (c : Cache K V)
        → IsValid dec hasher c
        → Expires now items c (expire_items as_string dec hasher zero_key now items c)
    unfolding expire_items
    expire_items-Expires now [] c m = (c, refl, m, refl, refl, λ k. inl refl, λ item i. absurd i)
    expire_items-Expires now (item ∷ items) c m =
        elim (expiry_cases dec hasher now c.store m.store_valid item) [
          | inl idle ↦
              let (c', ends, v, w, b, l, g) = expire_items-Expires now items c m in
              (
                c',
                rw (ap (λ o. o.0) idle, ap (λ o. o.1) idle, expire_items) ends,
                v,
                w,
                b,
                l,
                λ i at due. elim at [
                  | inl same ↦ absurd (
                      not_idle now c.store m.store_valid item
                        (subst (Due now c.store) (sym same) due) idle)
                  | inr later ↦ g i later due
                ],
              )
          | inr (e, at, over, _, out, ch) ↦
              let s' =
                (delete_if_expired dec c.store item.key item.key_hash item.expire_at now).1 in
              let own : e.key ≡ item.key = (m.store_valid.placed _ item.key e at).0 in
              let (p', deleted, follows) =
                policy_follows dec hasher zero_key c.policy c.store s' item.key m ch in
              let deleted' = ap (Combined.del dec zero_key c.policy) own ∙ deleted in
              let c₁ =
                after_expire as_string dec hasher zero_key e item p' (record c { store = s' }) in
              let (c', ends, v, w, b, l, g) = expire_items-Expires now items c₁ follows in
              (
                c',
                rw (out, deleted', expire_items) ends,
                v,
                w,
                b,
                λ k. first_lapse now c.store s' c'.store item.key e k at over ch (l k),
                λ i in' due. elim in' [
                  | inl same ↦
                      subst (λ (i : ExpiryWheelEntry K). entry_of dec hasher c'.store i.key ≡ none)
                        same
                        (still_gone now s' c'.store item.key
                          (ch.entries item.key ∙ if_pos (dec item.key item.key) refl _ _)
                          (l item.key))
                  | inr later ↦
                      later-Due now c.store s' c'.store item.key i ch due (l i.key)
                        (λ due'. g i later due')
                ],
              )
        ]

    -- On a valid cache the worker's removeExpired ends and leaves store and policy in step. Each key keeps its
    -- entry, or its entry had expired and is gone; and gone is every entry that has expired at the time of an item
    -- that Advance answers for its key with its hash.
    pub remove_expired-Lapses :
        (now : ℕ) (c : Cache K V)
        → IsValid dec hasher c
        → (c' : Cache K V) × (remove_expired as_string dec hasher zero_key now c ≡ some c')
          × IsValid dec hasher c'
          × (c'.expiry_wheel ≡ (advance c.expiry_wheel now).1)
          × (c'.write_buffer ≡ c.write_buffer)
          × ((k : K) → Lapses now c.store c'.store k)
          × ((item : ExpiryWheelEntry K)
              → Member item (advance c.expiry_wheel now).0
              → Due now c.store item
              → entry_of dec hasher c'.store item.key ≡ none)
    unfolding remove_expired
    remove_expired-Lapses now c m =
        let out = advance c.expiry_wheel now in
        expire_items-Expires now out.0 (record c { expiry_wheel = out.1 }) m

    -- An entry that expires just now is kept by removeExpired on a valid cache, also when Advance has taken its one
    -- item off the wheel, which then holds what Advance leaves.
    pub remove_expired_strands :
        (now : ℕ) (c : Cache K V) (e : Entry K V) (item : ExpiryWheelEntry K) (w : ExpiryWheel K)
        → IsValid dec hasher c
        → entry_of dec hasher c.store item.key ≡ some e
        → e.expire_at ≡ now
        → advance c.expiry_wheel now ≡ (item ∷ [], w)
        → (c' : Cache K V) × (remove_expired as_string dec hasher zero_key now c ≡ some c')
          × (entry_of dec hasher c'.store item.key ≡ some e)
          × (c'.expiry_wheel ≡ w)
    remove_expired_strands now c e item w m at just drained =
        let (c', ends, v, wheel, b, l, g) = remove_expired-Lapses now c m in
        (
          c',
          ends,
          elim (l item.key) [
            | inl kept ↦ kept ∙ at
            | inr (gone, (x, was, late)) ↦ absurd (on_time now e x just (sym at ∙ was) late)
          ],
          wheel ∙ ap (λ o. o.1) drained,
        )
