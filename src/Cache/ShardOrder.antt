-- ===== src/Cache/ShardOrder.antt =====
-- cache.go: GetBatchOptimized beside GetBatch.
use go_mcache.Base.{
  ℕ, ◌≡◌, refl, ap, ◌∙◌, inl, inr, false, List, [], ◌∷◌, Option, none, some, Option-cases,
  Bool-cases, map, Member,
}
use go_mcache.Store.Sharded.{Entry, ShardedStore, get_by_hash}
use go_mcache.Store.Sharded
use go_mcache.Store.Sharded.Batch as Stored
use go_mcache.Store.Sharded.Scan.{KeyInfo}
use go_mcache.Store.Sharded.Ordered.{get_batch_by_shard_order_lem}
use go_mcache.Base.Assoc.{find}
use go_mcache.Cache.Calls.{record_access, get}
use go_mcache.Cache.Batch.{copy_entries, get_batch, get_batch_optimized}
use go_mcache.Cache.Served.{served, served_missed, served_hit, record_access_stays, get_batch-get}
use go_mcache.Cache.Counters.{inc_hit, inc_miss}
use go_mcache.Cache.State.{Cache}

module _ {K V : Type 0} (dec : Discrete K) (hasher : K → ℕ) where
  entries_served :
      (zero_value : V) (s : ShardedStore K V) (now : ℕ) (keys : List K) (c : Cache K V)
      → c.store ≡ s
      → c.closed ≡ false
      → copy_entries zero_value
          (map hasher keys)
          (map (Stored.has dec hasher s now) keys)
          (map (Sharded.get dec hasher s now) keys)
          c
        ≡ some (served dec hasher zero_value now keys c)
  unfolding copy_entries Stored.has Sharded.get Stored.is_found find served get get_by_hash
  entries_served zero_value s now [] c at running = unfold served in refl
  entries_served zero_value s now (key ∷ keys) c at running =
      let here : (r : Option (Entry K V))
          → get_by_hash dec s now key (hasher key) ≡ r
          → get_by_hash dec c.store now key (hasher key) ≡ r =
        λ r e. ap (λ t. get_by_hash dec t now key (hasher key)) at ∙ e in
      elim (Option-cases (get_by_hash dec s now key (hasher key))) [
        | inl missed ↦
            let ih =
              entries_served zero_value s now keys (record c { metrics = inc_miss c.metrics }) at
                running in
            let answer =
              served_missed dec hasher c now key keys running zero_value (here none missed) in
            rw (missed, answer, ih) refl
        | inr (e, hit) ↦
            let c' = record_access c (hasher key) in
            let (same, still) = record_access_stays dec hasher c (hasher key) in
            let ih =
              entries_served zero_value s now keys (record c' { metrics = inc_hit c'.metrics })
                (same ∙ at) (still ∙ running) in
            let answer =
              served_hit dec hasher c now key keys running zero_value e (here (some e) hit) in
            rw (hit, answer, ih) refl
      ]

  -- GetBatchOptimized answers what GetBatch answers, and leaves the cache that it leaves, in whatever order the
  -- sort puts the keys, as long as it keeps the elements.
  pub get_batch_optimized-get_batch :
      (sort : List (KeyInfo K) → List (KeyInfo K)) (zero_value : V) (c : Cache K V) (now : ℕ)
      (keys : List K)
      → ((info : KeyInfo K) (infos : List (KeyInfo K))
          → Member info infos
          → Member info (sort infos))
      → ((info : KeyInfo K) (infos : List (KeyInfo K))
          → Member info (sort infos)
          → Member info infos)
      → get_batch_optimized dec hasher sort zero_value c now keys
        ≡ get_batch dec hasher zero_value c now keys
  unfolding get_batch_optimized
  get_batch_optimized-get_batch sort zero_value c now keys keeps adds_none =
      elim (Bool-cases c.closed) [
        | inl shut ↦ unfold get_batch in simp shut
        | inr running ↦
            let ordered =
              get_batch_by_shard_order_lem dec hasher c.store now sort keys keeps adds_none in
            let copied = entries_served zero_value c.store now keys c refl running in
            simp (running, ordered, copied, get_batch-get dec hasher zero_value c now keys running)
      ]
