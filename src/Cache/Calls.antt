-- ===== src/Cache/Calls.antt =====
-- cache.go: the calls of the API and the two buffers in front of the writes and of the policy's accesses
-- (internal/buffer/ring.go), with the background workers' steps as calls of their own. Push of a full write
-- buffer finds it full each time that it retries. `draws` has a part for each write of a batch.
use go_mcache.Base.{
  ℕ, suc, ◌*◌, ◌/◌, Bool, true, false, ◌&&◌, List, [], ◌∷◌, ◌++◌, Option, none, some, length, take,
  drop, ltb, if◌then◌else◌,
}
use go_mcache.Base.Assoc.{put}
use go_mcache.Base.Word.{add64, slt, sle}
use go_mcache.Buffer.Ring.{round_up}
use go_mcache.Policy.Sampled.{◌>>=◌}
use go_mcache.Policy.Combined
use go_mcache.Radix
use go_mcache.Radix.{Tree}
use go_mcache.Store.Sharded
use go_mcache.Store.Sharded.{Entry, get_by_hash}
use go_mcache.Store.Wheel
use go_mcache.Cache.{do_delete, set_sync}
use go_mcache.Cache.Counters.{inc_hit, inc_miss, inc_buffer_drop, reset}
use go_mcache.Cache.State.{Config, WriteItem, Cache}

-- LossyBuffer.Push of a ring of 1024: a full buffer drops the access
abbrev pub push_lossy : List ℕ → ℕ → List ℕ
push_lossy pending key_hash =
    if ltb (length pending) 1024 then pending ++ key_hash ∷ [] else pending

unfoldable pub effective_cost : {V : Type 0} → Config V → V → ℕ → ℕ
effective_cost config value cost =
    if sle cost 0 then elim config.cost_func [ some f ↦ f value | none ↦ 1 ] else cost

unfoldable pub expiration : {V : Type 0} → Config V → ℕ → ℕ → ℕ
expiration config now ttl =
    let ttl = if sle ttl 0 && slt 0 config.default_ttl then config.default_ttl else ttl in
    if slt 0 ttl then add64 now ttl else 0

module _ {K V : Type 0} where
  unfoldable pub should_track_access : Cache K V → Bool
  should_track_access c =
      if sle c.config.max_entries 0 && sle c.config.max_cost 0
      then false
      else if slt 0 c.config.max_entries && sle (c.config.max_entries / 2) (Sharded.len c.store)
      then true
      else slt 0 c.config.max_cost && sle (c.config.max_cost / 2) c.live_cost

  unfoldable pub record_access : Cache K V → ℕ → Cache K V
  record_access c key_hash =
      if should_track_access c
      then elim c.read_buffer [
        | some pending ↦ record c { read_buffer = some (push_lossy pending key_hash) }
        | none ↦ record c { policy = Combined.access c.policy key_hash }
      ]
      else c

  -- a batch of accesses
  unfoldable pub process_read_batch : Cache K V → List ℕ → Cache K V
  process_read_batch c [] = c
  process_read_batch c (h ∷ hs) =
      process_read_batch (record c { policy = Combined.access c.policy h }) hs

  -- FlushSync of the read buffer: all batches, in order
  unfoldable pub flush_reads : Cache K V → Cache K V
  flush_reads c = elim c.read_buffer [
    | none ↦ c
    | some pending ↦ process_read_batch (record c { read_buffer = some [] }) pending
  ]

  -- WriteBuffer.Push: the ring has the next power of two of twice the configured items
  unfoldable pub has_room : Config V → List (WriteItem K V) → Bool
  has_room config pending = ltb (length pending) (round_up (config.buffer_items * 2))

  module _ (dec : Discrete K) (hasher : K → ℕ) where
    unfoldable pub get : Cache K V → ℕ → K → Option V × Cache K V
    get c now key =
        let key_hash = hasher key in
        if c.closed then (none, c) else elim (get_by_hash dec c.store now key key_hash) [
          | none ↦ (none, record c { metrics = inc_miss c.metrics })
          | some e ↦
              let c' = record_access c key_hash in
              (some e.value, record c' { metrics = inc_hit c'.metrics })
        ]

    -- the result so far comes first; each Get has a reading of the clock of its own
    unfoldable pub get_many : (ℕ → ℕ) → List K → List (K × V) → Cache K V → List (K × V) × Cache K V
    get_many times [] result c = (result, c)
    get_many times (key ∷ keys) result c =
        let out = get c (times 0) key in
        let result' : List (K × V) = elim out.0 [ some v ↦ put dec key v result | none ↦ result ] in
        get_many (λ n. times (suc n)) keys result' out.1

    module _ (as_string : K → Option (List ℕ)) (zero_key : K) where
      unfoldable pub set_with_cost :
          (ℕ → List ℕ) → Cache K V → ℕ → K → V → ℕ → ℕ → Option (Bool × Cache K V)
      set_with_cost draws c now key value cost ttl =
          let cost = effective_cost c.config value cost in
          let expire_at = expiration c.config now ttl in
          let key_hash = hasher key in
          if c.closed then some (false, c) else elim c.write_buffer [
            | none ↦
                set_sync as_string dec hasher zero_key draws c key value key_hash cost expire_at
            | some pending ↦
                let item : WriteItem K V = record {
                  entry = record {
                    key = key;
                    value = value;
                    key_hash = key_hash;
                    expire_at = expire_at;
                    cost = cost;
                  };
                  is_set = true;
                } in
                let drop' = record c { metrics = inc_buffer_drop c.metrics } in
                if has_room c.config pending
                then some (true, record c { write_buffer = some (pending ++ item ∷ []) })
                else set_sync as_string dec hasher zero_key draws drop' key value key_hash cost
                    expire_at
          ]

      unfoldable pub delete : Cache K V → V → K → Option (Bool × Cache K V)
      delete c zero_value key =
          let key_hash = hasher key in
          if c.closed then some (false, c) else elim c.write_buffer [
            | none ↦ do_delete as_string dec hasher zero_key c key key_hash
            | some pending ↦
                let item : WriteItem K V = record {
                  entry = record {
                    key = key;
                    value = zero_value;
                    key_hash = key_hash;
                    expire_at = 0;
                    cost = 0;
                  };
                  is_set = false;
                } in
                let drop' = record c { metrics = inc_buffer_drop c.metrics } in
                if has_room c.config pending
                then some (true, record c { write_buffer = some (pending ++ item ∷ []) })
                else do_delete as_string dec hasher zero_key drop' key key_hash
          ]

      -- one write of a batch
      unfoldable pub process_write : (ℕ → List ℕ) → Cache K V → WriteItem K V → Option (Cache K V)
      process_write draws c item =
          let e = item.entry in
          let set =
            set_sync as_string dec hasher zero_key draws c e.key e.value e.key_hash e.cost
              e.expire_at
            >>= λ r. some r.1 in
          let del = do_delete as_string dec hasher zero_key c e.key e.key_hash >>= λ r. some r.1 in
          if item.is_set then set else del

      unfoldable pub process_write_batch :
          (ℕ → ℕ → List ℕ) → List (WriteItem K V) → Cache K V → Option (Cache K V)
      process_write_batch draws [] c = some c
      process_write_batch draws (item ∷ items) c =
          process_write (draws 0) c item >>= λ c'. process_write_batch (λ n. draws (suc n)) items c'

      -- FlushSync of the write buffer: all batches, in order
      unfoldable pub flush_writes : (ℕ → ℕ → List ℕ) → Cache K V → Option (Cache K V)
      flush_writes draws c = elim c.write_buffer [
        | none ↦ some c
        | some pending ↦ process_write_batch draws pending (record c { write_buffer = some [] })
      ]

      -- flushBatch of the background worker
      unfoldable pub flush_batch : (ℕ → ℕ → List ℕ) → Cache K V → Option (Cache K V)
      flush_batch draws c = elim c.write_buffer [
        | none ↦ some c
        | some pending ↦
            process_write_batch draws (take c.config.buffer_items pending)
              (record c { write_buffer = some (drop c.config.buffer_items pending) })
      ]

      unfoldable pub wait : (ℕ → ℕ → List ℕ) → Cache K V → Option (Cache K V)
      wait draws c = flush_writes draws c >>= λ c'. some (flush_reads c')

      unfoldable pub clear : (ℕ → ℕ → List ℕ) → Cache K V → ℕ → Option (Cache K V)
      clear draws c now = wait draws c >>= λ c'. some (record c' {
        store = Sharded.clear c'.store;
        policy = Combined.clear c'.policy;
        expiry_wheel = Wheel.clear c'.expiry_wheel now;
        radix_tree = elim c'.radix_tree [ none ↦ none | some t ↦ some (Radix.clear t) ];
        metrics = reset c'.metrics;
        live_cost = 0;
      })

      unfoldable pub close : (ℕ → ℕ → List ℕ) → Cache K V → Option (Cache K V)
      close draws c =
          let shut = wait draws (record c { closed = true }) in if c.closed then some c else shut

      -- the number of keys that were deleted
      unfoldable pub delete_many : V → List K → Cache K V → Option (ℕ × Cache K V)
      delete_many zero_value [] c = some (0, c)
      delete_many zero_value (key ∷ keys) c = delete c zero_value key >>= λ r.
          delete_many zero_value keys r.1 >>= λ rest.
          some (if r.0 then suc rest.0 else rest.0, rest.1)
