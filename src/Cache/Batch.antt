-- ===== src/Cache/Batch.antt =====
-- cache.go: the calls for many keys at once, and the short ones. `zero_value` is what a slice of values is made
-- of, the clock is read where the source reads it, `none` a panic (an index out of range, a nil pointer) or an eviction
-- loop whose draws do not suffice.
use go_mcache.Base.{
  ℕ, suc, Bool, true, false, List, [], ◌∷◌, Option, none, some, map, if◌then◌else◌,
}
use go_mcache.Base.Assoc.{put}
use go_mcache.Policy.Sampled.{◌>>=◌}
use go_mcache.Store.Sharded
use go_mcache.Store.Sharded.{Entry, ShardedStore, get_by_hash}
use go_mcache.Store.Sharded.Batch.{BatchRequest, fill_results, fill_found}
use go_mcache.Store.Sharded.Batch as Stored
use go_mcache.Store.Sharded.Scan.{KeyInfo, get_batch_by_shard_order}
use go_mcache.Cache.Calls.{record_access, set_with_cost}
use go_mcache.Cache.Counters.{inc_hit, inc_miss}
use go_mcache.Cache.State.{Cache}

pub record Item (K V : Type 0) : Type 0 where
  pub key : K
  pub value : V
  pub cost : ℕ
  pub ttl : ℕ

-- a cache that is closed answers slices of length 0
pub record BatchResult (K V : Type 0) : Type 0 where
  pub batch_keys : List K
  pub values : List V
  pub found : List Bool
  pub hashes : List ℕ

module _ {K V : Type 0} where
  abbrev pub keys_only : List K → BatchResult K V
  keys_only keys = record { batch_keys = keys; values = []; found = []; hashes = [] }

  unfoldable pub len : Cache K V → ℕ
  len c = Sharded.len c.store

  -- `results[i].Value` of a nil pointer is a panic
  unfoldable pub copy_results :
      V
      → List ℕ
      → List Bool
      → List (Option (Entry K V))
      → Cache K V
      → Option ((List V × List Bool) × Cache K V)
  copy_results zero_value [] found results c = some (([], []), c)
  copy_results zero_value (h ∷ hs) (true ∷ found) (some e ∷ results) c =
      let c' = record_access c h in
      copy_results zero_value hs found results (record c' { metrics = inc_hit c'.metrics }) >>= λ r.
      some ((e.value ∷ r.0.0, true ∷ r.0.1), r.1)
  copy_results zero_value (h ∷ hs) (false ∷ found) (e ∷ results) c =
      copy_results zero_value hs found results (record c { metrics = inc_miss c.metrics }) >>= λ r.
      some ((zero_value ∷ r.0.0, false ∷ r.0.1), r.1)
  copy_results zero_value _ _ _ c = none

  -- `found[i] && entries[i] != nil`
  unfoldable pub copy_entries :
      V
      → List ℕ
      → List Bool
      → List (Option (Entry K V))
      → Cache K V
      → Option ((List V × List Bool) × Cache K V)
  copy_entries zero_value [] found entries c = some (([], []), c)
  copy_entries zero_value (h ∷ hs) (true ∷ found) (some e ∷ entries) c =
      let c' = record_access c h in
      copy_entries zero_value hs found entries (record c' { metrics = inc_hit c'.metrics }) >>= λ r.
      some ((e.value ∷ r.0.0, true ∷ r.0.1), r.1)
  copy_entries zero_value (h ∷ hs) (_ ∷ found) (_ ∷ entries) c =
      copy_entries zero_value hs found entries (record c { metrics = inc_miss c.metrics }) >>= λ r.
      some ((zero_value ∷ r.0.0, false ∷ r.0.1), r.1)
  copy_entries zero_value _ _ _ c = none

  module _ (dec : Discrete K) (hasher : K → ℕ) where
    unfoldable pub has : Cache K V → ℕ → K → Bool
    has c now key = if c.closed then false else Stored.has dec hasher c.store now key

    unfoldable pub get_batch : V → Cache K V → ℕ → List K → Option (BatchResult K V × Cache K V)
    get_batch zero_value c now keys =
        let hashes = map hasher keys in
        let req : BatchRequest K V = record {
          batch_keys = keys;
          hashes = hashes;
          results = [];
          found = [];
        } in
        let out = Stored.get_batch dec hasher c.store now req in
        let copied = copy_results zero_value hashes out.found out.results c >>= λ r.
        some (record { batch_keys = keys; values = r.0.0; found = r.0.1; hashes = hashes }, r.1) in
        if c.closed then some (keys_only keys, c) else copied

    unfoldable pub get_batch_optimized :
        (List (KeyInfo K) → List (KeyInfo K))
        → V
        → Cache K V
        → ℕ
        → List K
        → Option (BatchResult K V × Cache K V)
    get_batch_optimized sort zero_value c now keys =
        let hashes = map hasher keys in
        let out = get_batch_by_shard_order dec hasher sort c.store now keys in
        let copied = copy_entries zero_value hashes out.1 out.0 c >>= λ r.
        some (record { batch_keys = keys; values = r.0.0; found = r.0.1; hashes = hashes }, r.1) in
        if c.closed then some (keys_only keys, c) else copied

    -- the loop of GetBatchToMap, from `i` on: the result so far comes first
    unfoldable pub collect_found :
        List K → List V → List Bool → List (K × V) → Option (List (K × V))
    collect_found [] values found result = some result
    collect_found (k ∷ ks) (v ∷ vs) (true ∷ found) result =
        collect_found ks vs found (put dec k v result)
    collect_found (k ∷ ks) (v ∷ vs) (false ∷ found) result = collect_found ks vs found result
    collect_found (k ∷ ks) _ _ result = none

    unfoldable pub get_batch_to_map : V → Cache K V → ℕ → List K → Option (List (K × V) × Cache K V)
    get_batch_to_map zero_value c now keys = get_batch zero_value c now keys >>= λ r.
        collect_found r.0.batch_keys r.0.values r.0.found [] >>= λ found. some (found, r.1)

    module _ (as_string : K → Option (List ℕ)) (zero_key : K) where
      unfoldable pub set : (ℕ → List ℕ) → Cache K V → ℕ → K → V → ℕ → Option (Bool × Cache K V)
      set draws c now key value ttl =
          set_with_cost dec hasher as_string zero_key draws c now key value 1 ttl

      -- the number of items that were stored; each Set has a reading of the clock of its own
      unfoldable pub set_many :
          (ℕ → ℕ → List ℕ) → (ℕ → ℕ) → List (Item K V) → Cache K V → Option (ℕ × Cache K V)
      set_many draws times [] c = some (0, c)
      set_many draws times (item ∷ items) c =
          set_with_cost dec hasher as_string zero_key (draws 0) c (times 0) item.key item.value
            item.cost item.ttl
          >>= λ r. set_many (λ n. draws (suc n)) (λ n. times (suc n)) items r.1 >>= λ rest.
              some (if r.0 then suc rest.0 else rest.0, rest.1)
