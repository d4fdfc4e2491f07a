-- ===== src/Store/Sharded/Batch.antt =====
-- internal/store/sharded.go: the operations that read many entries: Keys, Entries, Range, GetBatch.
use go_mcache.Base.{
  ℕ, ◌≤◌, ◌≡◌, refl, ap, Bool, true, false, ◌||◌, List, [], ◌∷◌, ◌++◌, Option, none, some, arith,
  length, map, take, replicate, length-replicate, ltb, ◌==◌, if◌then◌else◌,
}
use go_mcache.Base.Word.{sle}
use go_mcache.Store.Sharded.{Entry, ShardedStore, get, get_by_hash, collect_expired}

pub record BatchRequest (K V : Type 0) : Type 0 where
  pub batch_keys : List K
  pub hashes : List ℕ
  pub results : List (Option (Entry K V))
  pub found : List Bool

module _ {K V : Type 0} where
  unfoldable pub shard_count : ShardedStore K V → ℕ
  shard_count s = length s.shards

  unfoldable pub keys_of : List (K × Entry K V) → List K
  keys_of [] = []
  keys_of ((k, e) ∷ m) = k ∷ keys_of m

  unfoldable pub keys : List (List (K × Entry K V)) → List K
  keys [] = []
  keys (m ∷ ms) = keys_of m ++ keys ms

  -- `entry.ExpireAt == 0 || now <= entry.ExpireAt`
  unfoldable pub live_of : ℕ → List (K × Entry K V) → List (Entry K V)
  live_of now [] = []
  live_of now ((k, e) ∷ m) =
      if (e.expire_at == 0) || sle now e.expire_at then e ∷ live_of now m else live_of now m

  unfoldable pub entries : ℕ → List (List (K × Entry K V)) → List (Entry K V)
  entries now [] = []
  entries now (m ∷ ms) = live_of now m ++ entries now ms

  -- the entries that Range hands to its callback, and whether it goes on
  unfoldable pub range_shard : (Entry K V → Bool) → List (K × Entry K V) → List (Entry K V) × Bool
  range_shard fn [] = ([], true)
  range_shard fn ((k, e) ∷ m) =
      let (seen, more) = range_shard fn m in if fn e then (e ∷ seen, more) else (e ∷ [], false)

  unfoldable pub range : (Entry K V → Bool) → List (List (K × Entry K V)) → List (Entry K V)
  range fn [] = []
  range fn (m ∷ ms) =
      let (seen, more) = range_shard fn m in if more then seen ++ range fn ms else seen

  unfoldable pub is_found : Option (Entry K V) → Bool
  is_found none = false
  is_found (some e) = true

  module _ (dec : Discrete K) (hasher : K → ℕ) where
    unfoldable pub has : ShardedStore K V → ℕ → K → Bool
    has s now key = is_found (get dec hasher s now key)

    unfoldable pub delete_expired : ShardedStore K V → ℕ → ℕ × ShardedStore K V
    delete_expired s now = let (expired, s') = collect_expired dec s now in (length expired, s')

    -- the loop of GetBatch: `results[i]` and `found[i]` for each key
    unfoldable pub fill_results :
        ShardedStore K V
        → ℕ
        → List K
        → List ℕ
        → List (Option (Entry K V))
        → List (Option (Entry K V))
    fill_results s now (k ∷ ks) (h ∷ hs) (r ∷ rs) =
        get_by_hash dec s now k h ∷ fill_results s now ks hs rs
    fill_results s now _ _ rs = rs

    unfoldable pub fill_found : ShardedStore K V → ℕ → List K → List ℕ → List Bool → List Bool
    fill_found s now (k ∷ ks) (h ∷ hs) (r ∷ rs) =
        is_found (get_by_hash dec s now k h) ∷ fill_found s now ks hs rs
    fill_found s now _ _ rs = rs

    unfoldable pub get_batch : ShardedStore K V → ℕ → BatchRequest K V → BatchRequest K V
    get_batch s now req =
        let n = length req.batch_keys in
        let results = if ltb (length req.results) n then replicate n none else req.results in
        let found = if ltb (length req.found) n then replicate n false else req.found in
        let hashes = if ltb (length req.hashes) n then map hasher req.batch_keys else req.hashes in
        if n == 0 then req else record req {
          hashes = hashes;
          results = fill_results s now req.batch_keys hashes results;
          found = fill_found s now req.batch_keys hashes found;
        }

    module _ (s : ShardedStore K V) (now : ℕ) where
      fill_results_lem :
          (ks : List K) (rs : List (Option (Entry K V)))
          → length ks ≤ length rs
          → take (length ks) (fill_results s now ks (map hasher ks) rs)
            ≡ map (get dec hasher s now) ks
      unfolding fill_results get get_by_hash
      fill_results_lem [] rs h = refl
      fill_results_lem (k ∷ ks) [] h = absurd (omega arith)
      fill_results_lem (k ∷ ks) (r ∷ rs) h =
          ap (λ t. get dec hasher s now k ∷ t) (fill_results_lem ks rs (omega arith))

      fill_found_lem :
          (ks : List K) (rs : List Bool)
          → length ks ≤ length rs
          → take (length ks) (fill_found s now ks (map hasher ks) rs) ≡ map (has s now) ks
      unfolding fill_found get get_by_hash has
      fill_found_lem [] rs h = refl
      fill_found_lem (k ∷ ks) [] h = absurd (omega arith)
      fill_found_lem (k ∷ ks) (r ∷ rs) h =
          ap (λ t. has s now k ∷ t) (fill_found_lem ks rs (omega arith))

      -- GetBatch of a request with fewer hashes than keys gives for each key what Get and Has give, in the
      -- order of the keys, whatever the slices of the request hold.
      pub get_batch_lem :
          (req : BatchRequest K V)
          → ltb (length req.hashes) (length req.batch_keys) ≡ true
          → let out = get_batch s now req in
            (take (length req.batch_keys) out.results ≡ map (get dec hasher s now) req.batch_keys)
            × (take (length req.batch_keys) out.found ≡ map (has s now) req.batch_keys)
      unfolding get_batch
      get_batch_lem req short =
          let some_keys : (length req.batch_keys == 0) ≡ false = ground arith in
          rw (some_keys, short)
            (
              fill_results_lem req.batch_keys _ (wide none req.results),
              fill_found_lem req.batch_keys _ (wide false req.found),
            )
        where
          wide :
              {A : Type 0} (a : A) (xs : List A)
              → length req.batch_keys
                ≤ length (
                    if ltb (length xs) (length req.batch_keys)
                    then replicate (length req.batch_keys) a
                    else xs)
          wide a xs = ground (arith, length-replicate (length req.batch_keys) a)
