-- ===== src/Store/Sharded.antt =====
-- internal/store/sharded.go: ShardedStore, one call at a time. A shard's map is an association list. `now`
-- is what clock.NowNano() answers. `hasher` is the function that NewShardedStore is given.
pub mod Inv
pub mod Change
pub mod Map
pub mod Sweep
pub mod Expiry
pub mod Readers
pub mod Batch
pub mod Scan
pub mod Ordered
pub mod Listing
use go_mcache.Base.{
  ℕ, zero, suc, ◌+◌, ◌-◌, ◌*◌, ◌/◌, ◌%◌, ◌^◌, bit_and, bit_or, Bool, true, false, ◌&&◌, List, [],
  ◌∷◌, ◌++◌, Option, none, some, length, get_or, set, replicate, map, ◌==◌, if◌then◌else◌,
}
use go_mcache.Base.Assoc.{find, put, remove}
use go_mcache.Base.Word.{add64, sub64, slt}

pub record Entry (K V : Type 0) : Type 0 where
  pub key : K
  pub value : V
  pub key_hash : ℕ
  pub expire_at : ℕ
  pub cost : ℕ

pub record ShardedStore (K V : Type 0) : Type 0 where
  pub shards : List (List (K × Entry K V))
  pub shard_mask : ℕ
  pub size : ℕ

-- `n--; n |= n >> 1; …; n++` for a positive `n`
unfoldable pub next_power_of2 : ℕ → ℕ
next_power_of2 n =
    let n = n - 1 in
    let n = bit_or n (n / 2 ^ 1) in
    let n = bit_or n (n / 2 ^ 2) in
    let n = bit_or n (n / 2 ^ 4) in
    let n = bit_or n (n / 2 ^ 8) in let n = bit_or n (n / 2 ^ 16) in n + 1

module _ {K V : Type 0} where
  unfoldable pub is_expired : ℕ → Entry K V → Bool
  is_expired now e = slt 0 e.expire_at && slt e.expire_at now

  -- a count of 0 stands for every count that is not positive
  unfoldable pub new_sharded_store : ℕ → ShardedStore K V
  new_sharded_store shard_count =
      let n = next_power_of2 (if shard_count == 0 then 1024 else shard_count) in
      record { shards = replicate n []; shard_mask = n - 1; size = 0 }

  abbrev pub shard_index : ShardedStore K V → ℕ → ℕ
  shard_index s key_hash = bit_and key_hash s.shard_mask

  abbrev pub get_shard : ShardedStore K V → ℕ → List (K × Entry K V)
  get_shard s key_hash = get_or s.shards (shard_index s key_hash) []

  -- a shard's map in its new state
  abbrev pub set_shard : ShardedStore K V → ℕ → List (K × Entry K V) → ShardedStore K V
  set_shard s key_hash m = record s { shards = set s.shards (shard_index s key_hash) m }

  unfoldable pub len : ShardedStore K V → ℕ
  len s = s.size

  unfoldable pub clear : ShardedStore K V → ShardedStore K V
  clear s = record s { shards = map (λ m. []) s.shards; size = 0 }

  -- Set writes the hash into the entry when that is 0.
  unfoldable pub with_hash : (K → ℕ) → Entry K V → Entry K V
  with_hash hasher e = if e.key_hash == 0 then record e { key_hash = hasher e.key } else e

  module _ (dec : Discrete K) where
    unfoldable pub get_by_hash : ShardedStore K V → ℕ → K → ℕ → Option (Entry K V)
    get_by_hash s now key key_hash = elim (find dec key (get_shard s key_hash)) [
      | none ↦ none
      | some e ↦ if is_expired now e then none else some e
    ]

    unfoldable pub peek_by_hash : ShardedStore K V → K → ℕ → Option (Entry K V)
    peek_by_hash s key key_hash = find dec key (get_shard s key_hash)

    -- what Set does under the shard's lock, and the count
    unfoldable pub exchange :
        ShardedStore K V → Entry K V → ℕ → Option (Entry K V) × ShardedStore K V
    exchange s entry key_hash =
        let sh = get_shard s key_hash in
        let s' = set_shard s key_hash (put dec entry.key entry sh) in
        elim (find dec entry.key sh) [
          | none ↦ (none, record s' { size = add64 s.size 1 })
          | some prev ↦ (some prev, s')
        ]

    unfoldable pub delete_by_hash : ShardedStore K V → K → ℕ → Option (Entry K V) × ShardedStore K V
    delete_by_hash s key key_hash =
        let sh = get_shard s key_hash in
        elim (find dec key sh) [
          | none ↦ (none, s)
          | some entry ↦ (
            some entry,
            record (set_shard s key_hash (remove dec key sh)) { size = sub64 s.size 1 },
          )
        ]

    -- the previous entry when it is asked for, whether there was one, the change of cost, the old
    -- expiration
    unfoldable pub update_existing_by_hash :
        ShardedStore K V
        → K
        → ℕ
        → V
        → ℕ
        → ℕ
        → Bool
        → (Option (Entry K V) × Bool × ℕ × ℕ) × ShardedStore K V
    update_existing_by_hash s key key_hash value cost expire_at capture_previous =
        let sh = get_shard s key_hash in
        elim (find dec key sh) [
          | none ↦ ((none, false, 0, 0), s)
          | some entry ↦
              let fresh : Entry K V = record {
                key = entry.key;
                value = value;
                key_hash = entry.key_hash;
                expire_at = expire_at;
                cost = cost;
              } in
              (
                (
                  if capture_previous then some entry else none,
                  true,
                  sub64 cost entry.cost,
                  entry.expire_at,
                ),
                set_shard s key_hash (put dec key fresh sh),
              )
        ]

    unfoldable pub delete_if_expired :
        ShardedStore K V → K → ℕ → ℕ → ℕ → Option (Entry K V) × ShardedStore K V
    delete_if_expired s key key_hash expire_at now =
        let sh = get_shard s key_hash in
        elim (find dec key sh) [
          | none ↦ (none, s)
          | some e ↦
              if (e.expire_at == expire_at) && is_expired now e
              then (
                some e,
                record (set_shard s key_hash (remove dec key sh)) { size = sub64 s.size 1 },
              )
              else (none, s)
        ]

    -- one shard of CollectExpired: the pairs that are still to be visited, the map, what has been removed
    unfoldable pub sweep :
        ℕ
        → List (K × Entry K V)
        → List (K × Entry K V)
        → List (Entry K V)
        → List (K × Entry K V) × List (Entry K V)
    sweep now [] m expired = (m, expired)
    sweep now ((key, entry) ∷ rest) m expired =
        if is_expired now entry
        then sweep now rest (remove dec key m) (expired ++ entry ∷ [])
        else sweep now rest m expired

    unfoldable pub sweep_shards :
        ℕ
        → List (List (K × Entry K V))
        → List (Entry K V)
        → List (List (K × Entry K V)) × List (Entry K V)
    sweep_shards now [] expired = ([], expired)
    sweep_shards now (m ∷ ms) expired =
        let (m', expired') = sweep now m m expired in
        let (ms', expired'') = sweep_shards now ms expired' in (m' ∷ ms', expired'')

    unfoldable pub collect_expired : ShardedStore K V → ℕ → List (Entry K V) × ShardedStore K V
    collect_expired s now =
        let (shards, expired) = sweep_shards now s.shards [] in
        (
          expired,
          record s {
            shards = shards;
            size = if length expired == 0 then s.size else sub64 s.size (length expired);
          },
        )

    module _ (hasher : K → ℕ) where
      unfoldable pub get : ShardedStore K V → ℕ → K → Option (Entry K V)
      get s now key = elim (find dec key (get_shard s (hasher key))) [
        | none ↦ none
        | some e ↦ if is_expired now e then none else some e
      ]

      unfoldable pub set_entry :
          ShardedStore K V → Entry K V → Option (Entry K V) × ShardedStore K V
      set_entry s e = let entry = with_hash hasher e in exchange s entry entry.key_hash

      unfoldable pub delete : ShardedStore K V → K → Option (Entry K V) × ShardedStore K V
      delete s key =
          let sh = get_shard s (hasher key) in
          elim (find dec key sh) [
            | none ↦ (none, s)
            | some entry ↦ (
              some entry,
              record (set_shard s (hasher key) (remove dec key sh)) { size = sub64 s.size 1 },
            )
          ]
