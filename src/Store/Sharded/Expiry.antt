-- ===== src/Store/Sharded/Expiry.antt =====
-- internal/store/sharded.go: CollectExpired and DeleteIfExpired against the map from keys to entries that
-- a store stands for.
use go_mcache.Base.{
  ℕ, ◌+◌, ◌≡◌, refl, sym, ◌∙◌, true, false, ◌&&◌, List, [], Option, none, some, arith, All, Member,
  ap, get_or, length, ◌==◌,
}
use go_mcache.Base.Assoc.{find}
use go_mcache.Store.Sharded.{Entry, ShardedStore, is_expired, collect_expired, delete_if_expired}
use go_mcache.Store.Sharded.Inv.{IsValid, Changed, entry_of, total}
use go_mcache.Store.Sharded.Change.{remove-Changed}
use go_mcache.Store.Sharded.Sweep.{alive, sweep_shards-Collected, sweep_shards-All}

alive-some :
    {K V : Type 0} (now : ℕ) (e : Entry K V) (o : Option (Entry K V))
    → alive now o ≡ some e
    → o ≡ some e
alive-some now e none h = h
alive-some now e (some x) h = ground arith

module _ {K V : Type 0} (dec : Discrete K) (hasher : K → ℕ) where
  -- CollectExpired takes the expired entries of `s` out and answers them.
  pub record Purged (now : ℕ) (s : ShardedStore K V) (out : List (Entry K V))
      (s' : ShardedStore K V) : Type 0 where
    pub valid : IsValid dec hasher s'
    pub entries : (k : K) → entry_of dec hasher s' k ≡ alive now (entry_of dec hasher s k)
    pub sound : All (λ e. (is_expired now e ≡ true) × (entry_of dec hasher s e.key ≡ some e)) out
    pub complete :
        (k : K) (e : Entry K V)
        → entry_of dec hasher s k ≡ some e
        → is_expired now e ≡ true
        → Member e out
    pub count : total s'.shards + length out ≡ total s.shards

  module _ (s : ShardedStore K V) (v : IsValid dec hasher s) (now : ℕ) where
    -- After CollectExpired on a valid store the store is valid and holds exactly the entries that have not expired. It answers
    -- those that have, each of them, and no others, and as many as the store has lost.
    pub collect_expired-Purged :
        Purged now s (collect_expired dec s now).0 (collect_expired dec s now).1
    unfolding collect_expired
    collect_expired-Purged =
        let swept = sweep_shards-Collected dec now s.shards [] v.distinct in
        record {
          valid = record {
            wide = omega (arith, swept.same_length, v.wide);
            placed = λ i k e h. v.placed i k e (alive-some now e _ (sym (swept.left i k) ∙ h));
            distinct = swept.distinct;
            counted = ground (arith, swept.count, v.counted);
          };
          entries = λ k. swept.left _ k;
          sound =
              sweep_shards-All dec now _ s.shards [] v.distinct
                (λ i j e h x.
                  let own = v.placed i j e h in
                  (
                    x,
                    ap (entry_of dec hasher s) own.0
                        ∙ ap (λ i. find dec j (get_or s.shards i [])) (sym own.2)
                        ∙ h,
                  ))
                tt;
          complete = λ k e h x. swept.returned _ k e h x;
          count = omega (arith, swept.count);
        }

    -- On a valid store, DeleteIfExpired, given the key's hash, takes an entry out that is expired and whose expiration is the
    -- one given, answers it and leaves a valid store. In every other case it does nothing.
    pub delete_if_expired-Changed :
        (key : K) (expire_at : ℕ)
        → let out = delete_if_expired dec s key (hasher key) expire_at now in
          ((e : Entry K V)
            → entry_of dec hasher s key ≡ some e
            → ((e.expire_at == expire_at) && is_expired now e) ≡ true
            → (out.0 ≡ some e) × Changed dec hasher key none s out.1)
          × ((e : Entry K V)
              → entry_of dec hasher s key ≡ some e
              → ((e.expire_at == expire_at) && is_expired now e) ≡ false
              → out ≡ (none, s))
          × (entry_of dec hasher s key ≡ none → out ≡ (none, s))
    unfolding delete_if_expired
    delete_if_expired-Changed key expire_at = (
      λ e h x.
          rw (h, delete_if_expired)
            (rw (x, delete_if_expired) (refl, remove-Changed dec hasher s v key e h)),
      λ e h x. rw (h, delete_if_expired) (rw (x, delete_if_expired) refl),
      λ h. rw (h, delete_if_expired) refl,
    )
