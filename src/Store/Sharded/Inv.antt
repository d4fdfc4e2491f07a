-- ===== src/Store/Sharded/Inv.antt =====
-- internal/store/sharded.go: the invariant of ShardedStore, the map from keys to entries that a store
-- stands for, and what it takes to replace the map of one shard.
use go_mcache.Base.{
  ℕ, zero, suc, ◌+◌, ◌-◌, ◌%◌, ◌^◌, ◌<◌, ◌≡◌, refl, sym, ap, ◌∙◌, inl, inr, List, [], ◌∷◌, Option,
  none, some, arith, length, get_or, set, replicate, map, length-set, length-replicate, length-map,
  get_or-set, get_or-replicate, Bool-cases, ite, if_pos, if_neg, ◌==◌, if◌then◌else◌,
}
use go_mcache.Base.Bits.{bit_and-le}
use go_mcache.Base.Assoc.{find, Distinct}
use go_mcache.Store.Sharded.{
  Entry, ShardedStore, shard_index, get_shard, set_shard, new_sharded_store, clear, next_power_of2,
}

module _ {K V : Type 0} where
  -- the number of the entries in all shards
  abbrev pub total : List (List (K × Entry K V)) → ℕ
  total [] = 0
  total (m ∷ ms) = length m + total ms

  pub total-set :
      (ms : List (List (K × Entry K V))) (i : ℕ) (m : List (K × Entry K V))
      → i < length ms
      → total (set ms i m) + length (get_or ms i []) ≡ total ms + length m
  total-set [] i m h = absurd (omega arith)
  total-set (n ∷ ms) zero m h = omega arith
  total-set (n ∷ ms) (suc i) m h = omega (arith, total-set ms i m (omega arith))

module _ {K V : Type 0} (dec : Discrete K) (hasher : K → ℕ) where
  -- the entry under a key, expired or not
  abbrev pub entry_of : ShardedStore K V → K → Option (Entry K V)
  entry_of s k = find dec k (get_shard s (hasher k))

  -- Every shard of the mask exists, an entry stands under its own key in the shard of its hash, once, and
  -- the size is the number of entries.
  pub record IsValid (s : ShardedStore K V) : Type 0 where
    pub wide : s.shard_mask < length s.shards
    pub placed :
        (i : ℕ) (k : K) (e : Entry K V)
        → find dec k (get_or s.shards i []) ≡ some e
        → (e.key ≡ k) × (e.key_hash ≡ hasher k) × (i ≡ shard_index s (hasher k))
    pub distinct : (i : ℕ) → Distinct dec (get_or s.shards i [])
    pub counted : s.size ≡ total s.shards % 2 ^ 64

  -- `s'` holds `change` under `key`, and what `s` holds under every other key.
  pub record Changed (key : K) (change : Option (Entry K V)) (s s' : ShardedStore K V)
      : Type 0 where
    pub valid : IsValid s'
    pub entries : (j : K) → entry_of s' j ≡ ite (dec key j) change (entry_of s j)
    pub same_shards : length s'.shards ≡ length s.shards

  module _ (s : ShardedStore K V) (v : IsValid s) where
    pub index_in_range : (h : ℕ) → shard_index s h < length s.shards
    index_in_range h = omega (arith, v.wide, bit_and-le h s.shard_mask)

    module _ (key : K) (m : List (K × Entry K V)) (change : Option (Entry K V)) (size : ℕ) where
      abbrev pub changed : ShardedStore K V
      changed = record (set_shard s (hasher key) m) { size = size }

      module _ (unique : Distinct dec m)
          (finds : (j : K)
            → find dec j m ≡ ite (dec key j) change (find dec j (get_shard s (hasher key))))
          (fits : (e : Entry K V) → change ≡ some e → (e.key ≡ key) × (e.key_hash ≡ hasher key))
          (sized : size
            ≡ (s.size + (2 ^ 64 - length (get_shard s (hasher key)) % 2 ^ 64) + length m)
              % 2 ^ 64) where
        shard_at :
            (i : ℕ)
            → get_or changed.shards i []
              ≡ (if shard_index s (hasher key) == i then m else get_or s.shards i [])
        shard_at i =
            get_or-set s.shards (shard_index s (hasher key)) i m [] (index_in_range (hasher key))

        entries_of : (j : K) → entry_of changed j ≡ ite (dec key j) change (entry_of s j)
        entries_of j =
            let at = shard_at (shard_index s (hasher j)) in
            elim (Bool-cases (shard_index s (hasher key) == shard_index s (hasher j))) [
              | inl h ↦
                  let same : shard_index s (hasher key) ≡ shard_index s (hasher j) = ground arith in
                  rw (at, h) (rw (← same) (finds j))
              | inr h ↦ elim (dec key j) [
                | yes p ↦ absurd (ground (arith, ap (λ k. shard_index s (hasher k)) p))
                | no p ↦ rw (at, h) (sym (if_neg (dec key j) p _ _))
              ]
            ]

        placed_of :
            (i : ℕ) (k : K) (e : Entry K V)
            → find dec k (get_or changed.shards i []) ≡ some e
            → (e.key ≡ k) × (e.key_hash ≡ hasher k) × (i ≡ shard_index s (hasher k))
        placed_of i k e found = elim (Bool-cases (shard_index s (hasher key) == i)) [
          | inl h ↦
              let same : shard_index s (hasher key) ≡ i = ground arith in
              let here : ite (dec key k) change (find dec k (get_shard s (hasher key))) ≡ some e =
                sym (finds k) ∙ ap (find dec k) (sym (shard_at i ∙ rw h refl)) ∙ found in
              elim (dec key k) [
                | yes p ↦
                    let own = fits e (sym (if_pos (dec key k) p _ _) ∙ here) in
                    (
                      own.0 ∙ p,
                      own.1 ∙ ap hasher p,
                      sym same ∙ ap (λ k. shard_index s (hasher k)) p,
                    )
                | no p ↦
                    let old =
                      v.placed (shard_index s (hasher key)) k e
                        (sym (if_neg (dec key k) p _ _) ∙ here) in
                    (old.0, old.1, sym same ∙ old.2)
              ]
          | inr h ↦ v.placed i k e (ap (find dec k) (sym (shard_at i ∙ rw h refl)) ∙ found)
        ]

        -- A new map for the shard of `key` that differs at `key` alone.
        pub changed-Changed : Changed key change s changed
        changed-Changed = record {
          valid = record {
            wide = omega (arith, v.wide, length-set s.shards (shard_index s (hasher key)) m);
            placed = placed_of;
            distinct = λ i. rw (shard_at i) (elim (Bool-cases (shard_index s (hasher key) == i)) [
              | inl h ↦ rw h unique
              | inr h ↦ rw h (v.distinct i)
            ]);
            counted = omega (
              arith,
              sized,
              v.counted,
              total-set s.shards (shard_index s (hasher key)) m (index_in_range (hasher key)),
            );
          };
          entries = entries_of;
          same_shards = length-set s.shards (shard_index s (hasher key)) m;
        }

  -- A store of empty shards, one of them at the least, is valid and holds nothing.
  empty-IsValid :
      (s : ShardedStore K V) (k : K)
      → s.shard_mask < length s.shards
      → ((i : ℕ) → get_or s.shards i [] ≡ [])
      → total s.shards ≡ 0
      → s.size ≡ 0
      → IsValid s × (entry_of s k ≡ none)
  unfolding find
  empty-IsValid s k wide empty sum size = (
    record {
      wide = wide;
      placed = λ i j e found. absurd (ground (arith, ap (find dec j) (empty i)));
      distinct = λ i. rw (empty i) tt;
      counted = omega (arith, sum, size);
    },
    rw (empty (shard_index s (hasher k))) refl,
  )

module _ (K V : Type 0) where
  abbrev no_entries : List (K × Entry K V)
  no_entries = []

  total-replicate : (n : ℕ) → total (replicate n no_entries) ≡ 0
  total-replicate zero = refl
  total-replicate (suc n) = omega (arith, total-replicate n)

  total-emptied : (ms : List (List (K × Entry K V))) → total (map (λ m. no_entries) ms) ≡ 0
  total-emptied [] = refl
  total-emptied (m ∷ ms) = omega (arith, total-emptied ms)

  get_or-emptied :
      (ms : List (List (K × Entry K V))) (i : ℕ) → get_or (map (λ m. no_entries) ms) i [] ≡ []
  get_or-emptied [] i = refl
  get_or-emptied (m ∷ ms) zero = refl
  get_or-emptied (m ∷ ms) (suc i) = get_or-emptied ms i

module _ {K V : Type 0} (dec : Discrete K) (hasher : K → ℕ) where
  -- NewShardedStore makes a valid store in which no key has an entry, for every shard count.
  pub new_sharded_store-IsValid :
      (n : ℕ) (k : K)
      → let s : ShardedStore K V = new_sharded_store n in
        IsValid dec hasher s × (entry_of dec hasher s k ≡ none)
  unfolding new_sharded_store next_power_of2
  new_sharded_store-IsValid n k =
      let c = next_power_of2 (if n == 0 then 1024 else n) in
      empty-IsValid dec hasher (new_sharded_store n) k
        (omega (arith, length-replicate {A = List (K × Entry K V)} c []))
        (λ i. get_or-replicate c i []) (total-replicate K V c) refl

  -- Clear of a valid store leaves a valid store with as many shards, in which no key has an entry.
  pub clear-IsEmpty :
      (s : ShardedStore K V) (k : K)
      → IsValid dec hasher s
      → IsValid dec hasher (clear s)
        × (entry_of dec hasher (clear s) k ≡ none)
        × (length (clear s).shards ≡ length s.shards)
  unfolding clear
  clear-IsEmpty s k v =
      let same : length (clear s).shards ≡ length s.shards =
        length-map (λ m. no_entries K V) s.shards in
      let empty =
        empty-IsValid dec hasher (clear s) k (omega (arith, same, v.wide))
          (get_or-emptied K V s.shards) (total-emptied K V s.shards) refl in
      (empty.0, empty.1, same)
