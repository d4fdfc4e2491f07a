-- ===== src/Cache/Order.antt =====
-- cache.go: a full write buffer makes a Set overtake the writes that wait.
use std.Path.{subst}
use go_mcache.Base.{
  ℕ, suc, ◌≡◌, ◌<◌, ◌^◌, refl, sym, ap, ◌∙◌, inl, inr, Bool, true, false, Option, some, List, [],
  ◌∷◌, ◌++◌, All, Bool-cases, length,
}
use go_mcache.Policy.Sampled.{◌>>=◌}
use go_mcache.Policy.Combined.Chosen.{When, When-bind, When_of, When-map}
use go_mcache.Store.Sharded.{Entry}
use go_mcache.Store.Sharded.Inv.{entry_of}
use go_mcache.Cache.{set_sync, do_delete}
use go_mcache.Cache.Calls.{
  set_with_cost, has_room, effective_cost, expiration, process_write, process_write_batch,
  flush_writes,
}
use go_mcache.Cache.Counters.{inc_buffer_drop}
use go_mcache.Cache.State.{WriteItem, Cache}
use go_mcache.Cache.Inv.{IsValid}
use go_mcache.Cache.Setting.{Sets}
use go_mcache.Cache.Updating.{wanted, set_sync-Sets}
use go_mcache.Cache.Removing.{do_delete-Removes}
use go_mcache.Cache.Buffered.{process_one}

module _ {K V : Type 0} (dec : Discrete K) (hasher : K → ℕ) (as_string : K → Option (List ℕ))
    (zero_key : K) where
  -- what a call puts into the buffer
  abbrev pub IsOwn : WriteItem K V → Type 0
  IsOwn item = (item.entry.key_hash ≡ hasher item.entry.key) × (item.entry.cost < 2 ^ 64)

  -- a write keeps store and policy in step, and the buffer as it is
  abbrev pub Keeps : Cache K V → Cache K V → Type 0
  Keeps c c' = IsValid dec hasher c' × (c'.write_buffer ≡ c.write_buffer)

  set_item-Sets :
      (draws : ℕ → List ℕ) (c : Cache K V) (e : Entry K V)
      → IsValid dec hasher c
      → e.key_hash ≡ hasher e.key
      → e.cost < 2 ^ 64
      → When
          (λ (r : Bool × Cache K V). (r.0 ≡ true) × Sets dec hasher c e r.1)
          (set_sync as_string dec hasher zero_key draws c e.key e.value e.key_hash e.cost
            e.expire_at)
  set_item-Sets draws c e m own cheap =
      subst
        (λ h.
          When
            (λ (r : Bool × Cache K V).
              (r.0 ≡ true) × Sets dec hasher c (record e { key_hash = h }) r.1)
            (set_sync as_string dec hasher zero_key draws c e.key e.value h e.cost e.expire_at))
        (sym own)
        (set_sync-Sets dec hasher as_string zero_key c e.key e.value e.cost e.expire_at m draws
          cheap).0

  process_write-Keeps :
      (draws : ℕ → List ℕ) (c : Cache K V) (item : WriteItem K V)
      → IsValid dec hasher c
      → IsOwn item
      → When (Keeps c) (process_write dec hasher as_string zero_key draws c item)
  unfolding process_write
  process_write-Keeps draws c item m own = elim (Bool-cases item.is_set) [
    | inl set ↦
        let e = item.entry in
        let o =
          set_sync as_string dec hasher zero_key draws c e.key e.value e.key_hash e.cost
            e.expire_at in
        rw set (
          When-bind (Keeps c) o (λ (r : Bool × Cache K V). some r.1)
            (λ r at.
              let s =
                (When_of (λ (r : Bool × Cache K V). (r.0 ≡ true) × Sets dec hasher c e r.1) o r
                  (set_item-Sets draws c e m own.0 own.1) at).1 in
              (s.valid, s.same_buffer)))
    | inr del ↦
        let (c', ends, r) = do_delete-Removes dec hasher as_string zero_key c item.entry.key m in
        let ends' = ap (do_delete as_string dec hasher zero_key c item.entry.key) own.0 ∙ ends in
        rw (del, ends') (r.valid, r.same_buffer)
  ]

  pub batch-Keeps :
      (draws : ℕ → ℕ → List ℕ) (items : List (WriteItem K V)) (c : Cache K V)
      → IsValid dec hasher c
      → All IsOwn items
      → When (Keeps c) (process_write_batch dec hasher as_string zero_key draws items c)
  unfolding process_write_batch
  batch-Keeps draws [] c m own = (m, refl)
  batch-Keeps draws (item ∷ items) c m own =
      When-bind (Keeps c) (process_write dec hasher as_string zero_key (draws 0) c item) _ (λ c' at.
        let first =
          When_of (Keeps c) (process_write dec hasher as_string zero_key (draws 0) c item) c'
            (process_write-Keeps (draws 0) c item m own.0) at in
        When-map (Keeps c') (Keeps c)
          (process_write_batch dec hasher as_string zero_key (λ n. draws (suc n)) items c')
          (λ c'' rest. (rest.0, rest.1 ∙ first.1))
          (batch-Keeps (λ n. draws (suc n)) items c' first.0 own.1))

  -- the last write of a batch is a Set, so its key holds its entry
  last_wins :
      (draws : ℕ → ℕ → List ℕ) (items : List (WriteItem K V)) (item : WriteItem K V) (c : Cache K V)
      → IsValid dec hasher c
      → All IsOwn items
      → IsOwn item
      → item.is_set ≡ true
      → When
          (λ (c' : Cache K V). entry_of dec hasher c'.store item.entry.key ≡ some item.entry)
          (process_write_batch dec hasher as_string zero_key draws (items ++ item ∷ []) c)
  unfolding process_write
  last_wins draws items item c m owns own set =
      let e = item.entry in
      let P = λ (c' : Cache K V). entry_of dec hasher c'.store e.key ≡ some e in
      let before = process_write_batch dec hasher as_string zero_key draws items c in
      subst (When P) (sym (process_one dec hasher as_string zero_key draws items item c)) (
        When-bind P before _ (λ c' at.
          let valid = (When_of (Keeps c) before c' (batch-Keeps draws items c m owns) at).0 in
          let o =
            set_sync as_string dec hasher zero_key (draws (length items)) c' e.key e.value
              e.key_hash e.cost e.expire_at in
          rw set (
            When-bind P o (λ (r : Bool × Cache K V). some r.1)
              (λ r at'.
                (When_of (λ (r : Bool × Cache K V). (r.0 ≡ true) × Sets dec hasher c' e r.1) o r
                  (set_item-Sets (draws (length items)) c' e valid own.0 own.1) at').1.holds))))

  flushed :
      (draws : ℕ → ℕ → List ℕ) (items : List (WriteItem K V)) (item : WriteItem K V) (c : Cache K V)
      → IsValid dec hasher c
      → c.write_buffer ≡ some (items ++ item ∷ [])
      → All IsOwn items
      → IsOwn item
      → item.is_set ≡ true
      → When
          (λ (c' : Cache K V). entry_of dec hasher c'.store item.entry.key ≡ some item.entry)
          (flush_writes dec hasher as_string zero_key draws c)
  unfolding flush_writes
  flushed draws items item c m buffered owns own set =
      rw (buffered, flush_writes)
        (last_wins draws items item (record c { write_buffer = some [] }) m owns own set)

  -- In a valid running cache whose write buffer is full and ends in a Set of a key, with all hashes the keys' own
  -- and costs of 64 bits, a new Set of that key is overtaken: after it and FlushSync, when both answer, the key
  -- holds the older entry of the buffer.
  pub set_with_cost_overtakes :
      (draws : ℕ → ℕ → List ℕ) (own_draws : ℕ → List ℕ) (c : Cache K V)
      (items : List (WriteItem K V)) (item : WriteItem K V) (now : ℕ) (value : V) (cost ttl : ℕ)
      → IsValid dec hasher c
      → c.closed ≡ false
      → c.write_buffer ≡ some (items ++ item ∷ [])
      → has_room c.config (items ++ item ∷ []) ≡ false
      → All IsOwn items
      → IsOwn item
      → item.is_set ≡ true
      → effective_cost c.config value cost < 2 ^ 64
      → When
          (λ (c' : Cache K V). entry_of dec hasher c'.store item.entry.key ≡ some item.entry)
          (set_with_cost dec hasher as_string zero_key own_draws c now item.entry.key value cost ttl
            >>= λ r. flush_writes dec hasher as_string zero_key draws r.1)
  unfolding set_with_cost flush_writes
  set_with_cost_overtakes draws own_draws c items item now value cost ttl m running buffered full
        owns own set cheap =
      let key = item.entry.key in
      let P = λ (c' : Cache K V). entry_of dec hasher c'.store key ≡ some item.entry in
      let c₀ = record c { metrics = inc_buffer_drop c.metrics } in
      let cost' = effective_cost c.config value cost in
      let until = expiration c.config now ttl in
      let o =
        set_sync as_string dec hasher zero_key own_draws c₀ key value (hasher key) cost' until in
      let sets =
        (set_sync-Sets dec hasher as_string zero_key c₀ key value cost' until m own_draws
          cheap).0 in
      let fallback : set_with_cost dec hasher as_string zero_key own_draws c now key value cost ttl
          ≡ o =
        simp (running, buffered, full) refl in
      subst (λ o. When P (o >>= λ r. flush_writes dec hasher as_string zero_key draws r.1))
        (sym fallback)
        (When-bind P o (λ r. flush_writes dec hasher as_string zero_key draws r.1)
          (λ r at.
            let s =
              (When_of
                (λ (r : Bool × Cache K V).
                  (r.0 ≡ true)
                  × Sets dec hasher c₀
                      (wanted dec hasher as_string zero_key c₀ key value cost' until m) r.1)
                o r sets at).1 in
            flushed draws items item r.1 s.valid (s.same_buffer ∙ buffered) owns own set))
