-- ===== src/Store/Sharded/Map.antt =====
-- internal/store/sharded.go: Get, Set, Delete and UpdateExistingByHash against the map from keys to
-- entries that a store stands for.
use go_mcache.Base.{
  ℕ, ◌≡◌, refl, ◌⊎◌, inl, inr, Bool, true, false, none, some, arith, Option-cases, Bool-cases, ◌==◌,
  if◌then◌else◌,
}
use go_mcache.Base.Word.{sub64}
use go_mcache.Store.Sharded.{
  Entry, ShardedStore, is_expired, with_hash, exchange, set_entry, get, get_by_hash, peek_by_hash,
  delete, delete_by_hash, update_existing_by_hash,
}
use go_mcache.Store.Sharded.Inv.{IsValid, Changed, entry_of}
use go_mcache.Store.Sharded.Change.{put_new-Changed, put_old-Changed, remove-Changed, unchanged}

module _ {K V : Type 0} (dec : Discrete K) (hasher : K → ℕ) where
  module _ (s : ShardedStore K V) (v : IsValid dec hasher s) where
    exchange-Changed :
        (e : Entry K V) (h : ℕ)
        → h ≡ hasher e.key
        → e.key_hash ≡ hasher e.key
        → ((exchange dec s e h).0 ≡ entry_of dec hasher s e.key)
          × Changed dec hasher e.key (some e) s (exchange dec s e h).1
    unfolding exchange
    exchange-Changed e h at hashed = rw at (elim (Option-cases (entry_of dec hasher s e.key)) [
      | inl absent ↦
          rw (absent, exchange) (refl, put_new-Changed dec hasher s v e.key e refl hashed absent)
      | inr (p, present) ↦
          rw (present, exchange)
            (refl, put_old-Changed dec hasher s v e.key e refl hashed p present)
    ])

    -- On a valid store, Set answers the entry that stood under the key before, and leaves a valid store that holds the new
    -- one there and is unchanged elsewhere. The entry's hash is 0 or the key's.
    pub set_entry-Changed :
        (e : Entry K V)
        → (e.key_hash ≡ 0) ⊎ (e.key_hash ≡ hasher e.key)
        → ((set_entry dec hasher s e).0 ≡ entry_of dec hasher s e.key)
          × Changed dec hasher e.key (some (with_hash hasher e)) s (set_entry dec hasher s e).1
    unfolding set_entry with_hash
    set_entry-Changed e hashed = elim (Bool-cases (e.key_hash == 0)) [
      | inl h ↦
          rw (h, set_entry, with_hash)
            (exchange-Changed (record e { key_hash = hasher e.key }) (hasher e.key) refl refl)
      | inr h ↦
          let same : e.key_hash ≡ hasher e.key = ground arith in
          rw (h, set_entry, with_hash) (exchange-Changed e e.key_hash same same)
    ]

    -- On a valid store, Delete answers the entry under the key and leaves a valid store without it. DeleteByHash does the
    -- same with the key's hash.
    pub delete-Changed :
        (key : K)
        → (delete_by_hash dec s key (hasher key) ≡ delete dec hasher s key)
          × ((delete dec hasher s key).0 ≡ entry_of dec hasher s key)
          × Changed dec hasher key none s (delete dec hasher s key).1
    unfolding delete delete_by_hash
    delete-Changed key = elim (Option-cases (entry_of dec hasher s key)) [
      | inl h ↦ rw (h, delete, delete_by_hash) (refl, refl, unchanged dec hasher s v key h)
      | inr (p, h) ↦
          rw (h, delete, delete_by_hash) (refl, refl, remove-Changed dec hasher s v key p h)
    ]

    -- On a valid store, UpdateExistingByHash, given the key's hash, does nothing to an absent key, and for a present one
    -- writes value, cost and expiration, keeping key and hash, and tells the change of cost and the old
    -- expiration, and the old entry when it is asked for.
    pub update_existing_by_hash-Changed :
        (key : K) (value : V) (cost expire_at : ℕ) (capture : Bool)
        → let out = update_existing_by_hash dec s key (hasher key) value cost expire_at capture in
          (entry_of dec hasher s key ≡ none → out ≡ ((none, false, 0, 0), s))
          × ((e : Entry K V)
              → entry_of dec hasher s key ≡ some e
              → (out.0 ≡ (if capture then some e else none, true, sub64 cost e.cost, e.expire_at))
                × Changed dec hasher key
                    (some (record e { value = value; cost = cost; expire_at = expire_at }))
                    s
                    out.1)
    unfolding update_existing_by_hash
    update_existing_by_hash-Changed key value cost expire_at capture = (
      λ h. rw (h, update_existing_by_hash) refl,
      λ e h.
          let own = v.placed _ key e h in
          rw (h, update_existing_by_hash)
            (
              refl,
              put_old-Changed dec hasher s v key
                  (record e { value = value; cost = cost; expire_at = expire_at }) own.0 own.1 e h,
            ),
    )

    -- Get, GetByHash and PeekByHash by the entry under the key
    pub get_lem :
        (now : ℕ) (key : K)
        → (get_by_hash dec s now key (hasher key) ≡ get dec hasher s now key)
          × (peek_by_hash dec s key (hasher key) ≡ entry_of dec hasher s key)
          × (entry_of dec hasher s key ≡ none → get dec hasher s now key ≡ none)
          × ((e : Entry K V)
              → entry_of dec hasher s key ≡ some e
              → get dec hasher s now key ≡ (if is_expired now e then none else some e))
    unfolding get get_by_hash peek_by_hash
    get_lem now key = (refl, refl, λ h. rw (h, get) refl, λ e h. rw (h, get) refl)
