-- ===== src/Cache/Tests.antt =====
-- cache.go: the theorems at small caches.
use go_mcache.Base.{
  ℕ, ◌≡◌, ◌<◌, ◌+◌, refl, ap, ◌∙◌, Bool, true, false, ◌&&◌, Option, none, some, List, [], ◌∷◌,
  arith, length, if◌then◌else◌, ℕ_discrete, Member,
}
use go_mcache.Base.Assoc.{find}
use go_mcache.Base.Word.{slt}
use go_mcache.Buffer.Ring.{round_up}
use go_mcache.Policy.TinyLfu
use go_mcache.Policy.TinyLfu.{TinyLfu}
use go_mcache.Policy.Sketch.{new_cm_sketch}
use go_mcache.Policy.Sampled
use go_mcache.Policy.Sampled.{new_sampled_lfu, ◌>>=◌}
use go_mcache.Policy.Sampled.Inv
use go_mcache.Policy.Combined
use go_mcache.Policy.Combined.{Policy}
use go_mcache.Policy.Combined.Victims.{find_victims_fits}
use go_mcache.Policy.Combined.Add.{add_new}
use go_mcache.Policy.Combined.Chosen.{When, When_of}
use go_mcache.Store.Sharded.{Entry, new_sharded_store, get_by_hash, is_expired}
use go_mcache.Store.Sharded.Inv.{entry_of, new_sharded_store-IsValid}
use go_mcache.Store.Wheel.{
  ExpiryWheelEntry, ExpiryWheel, quotient, sort_items, advance_loop, advance,
}
use go_mcache.Cache.{store_entry, evict_victims, do_set, set_sync, do_delete, remove_expired}
use go_mcache.Cache.ShardOrder.{get_batch_optimized-get_batch}
use go_mcache.Cache.Batch.{get_batch, get_batch_optimized, get_batch_to_map}
use go_mcache.Cache.Served.{served, get_batch-get, get_batch_to_map-get_many}
use go_mcache.Cache.Calls.{
  get, record_access, should_track_access, set_with_cost, effective_cost, expiration, has_room,
  flush_writes,
}
use go_mcache.Cache.Creation.{counters_of, new_cache}
use go_mcache.Cache.State.{Config, WriteItem, Cache}
use go_mcache.Cache.Inv.{Mirrors, IsValid}
use go_mcache.Cache.Setting.{Sets, do_set-Sets}
use go_mcache.Cache.Updating.{wanted, set_sync-Sets}
use go_mcache.Cache.Removing.{Removes, do_delete-Removes}
use go_mcache.Cache.Expiring.{Lapses, Due, remove_expired-Lapses, remove_expired_strands}
use go_mcache.Cache.Reading.{seen, get-seen, set_with_cost-get}
use go_mcache.Cache.Buffered.{flush_writes-set_with_cost}
use go_mcache.Cache.Order.{set_with_cost_overtakes}
use go_mcache.Cache.Steps.{empty-Mirrors, steps_none, steps_more, step_get, Steps-Mirrors}

abbrev hash_of : ℕ → ℕ
hash_of k = k + 10

abbrev no_string : ℕ → Option (List ℕ)
no_string k = none

abbrev no_draws : ℕ → List ℕ
no_draws n = []

-- no limits, and a write buffer of two
abbrev plain : Config ℕ
plain = record {
  max_entries = 0;
  max_cost = 0;
  num_counters = 4;
  shard_count = 1;
  buffer_items = 1;
  metrics_enabled = false;
  expiry_resolution = 10;
  default_ttl = 0;
  cost_func = none;
  on_evict = false;
  on_expire = false;
  on_reject = false;
  enable_prefix_search = false;
}

abbrev small_lfu : TinyLfu
small_lfu = record {
  freq = record {
    rows = (0 ∷ 0 ∷ []) ∷ (0 ∷ 0 ∷ []) ∷ (0 ∷ 0 ∷ []) ∷ (0 ∷ 0 ∷ []) ∷ [];
    seeds = 3 ∷ 5 ∷ 7 ∷ 11 ∷ [];
    width = 4;
  };
  door = record { bits = 0 ∷ []; num_bits = 64; num_hash = 2 };
  incrs = 0;
  reset_at = 40;
}

-- one item, which is due at tick 1
abbrev due_item : ExpiryWheelEntry ℕ
due_item = record { key = 1; key_hash = 11; expire_at = 10 }

abbrev drained_wheel : ExpiryWheel ℕ
drained_wheel = record { resolution = 10; mask = 1; current_tick = 1; buckets = [] ∷ [] ∷ [] }

abbrev small_wheel : ExpiryWheel ℕ
small_wheel = record {
  resolution = 10;
  mask = 1;
  current_tick = 0;
  buckets = [] ∷ (due_item ∷ []) ∷ [];
}

abbrev start : Cache ℕ ℕ
start = record {
  store = new_sharded_store 1;
  policy = record { admit = small_lfu; evict = new_sampled_lfu 0 0 };
  expiry_wheel = small_wheel;
  radix_tree = none;
  metrics = none;
  config = plain;
  write_buffer = none;
  read_buffer = none;
  closed = false;
  live_cost = 0;
  notices = [];
}

start-IsValid : IsValid ℕ_discrete hash_of start
unfolding new_sampled_lfu
start-IsValid =
    empty-Mirrors ℕ_discrete hash_of no_string 0 (new_sharded_store 1) (new_sampled_lfu 0 0)
      (new_sharded_store-IsValid ℕ_discrete hash_of 1 0).0
      (λ k. (new_sharded_store-IsValid ℕ_discrete hash_of 1 k).1) (Inv.new-IsValid ℕ_discrete 0 0)
      refl

set_sync-Sets_example :
    let o = set_sync no_string ℕ_discrete hash_of 0 no_draws start 1 70 11 1 10 in
    When
      (λ (r : Bool × Cache ℕ ℕ).
        (r.0 ≡ true)
        × Sets ℕ_discrete hash_of start
            (wanted ℕ_discrete hash_of no_string 0 start 1 70 1 10 start-IsValid)
            r.1)
      o
    × (length start.policy.evict.keys < 100 → (r : Bool × Cache ℕ ℕ) × (o ≡ some r))
set_sync-Sets_example =
    set_sync-Sets ℕ_discrete hash_of no_string 0 start 1 70 1 10 start-IsValid no_draws
      (omega arith)

set_with_cost-get_example :
    let o = set_with_cost ℕ_discrete hash_of no_string 0 no_draws start 5 1 70 1 20 in
    let until = expiration plain 5 20 in
    When
      (λ (r : Bool × Cache ℕ ℕ).
        (r.0 ≡ true)
        × IsValid ℕ_discrete hash_of r.1
        × ((get ℕ_discrete hash_of r.1 9 1).0
            ≡ (if slt 0 until && slt until 9 then none else some 70)))
      o
    × (length start.policy.evict.keys < 100 → (r : Bool × Cache ℕ ℕ) × (o ≡ some r))
unfolding effective_cost
set_with_cost-get_example =
    set_with_cost-get ℕ_discrete hash_of no_string 0 no_draws start 5 9 1 70 1 20 start-IsValid refl
      refl (omega arith)

do_delete-Removes_example :
    (c' : Cache ℕ ℕ) × (do_delete no_string ℕ_discrete hash_of 0 start 1 11
      ≡ some
          (elim (entry_of ℕ_discrete hash_of start.store 1) [ none ↦ false | some e ↦ true ], c'))
    × Removes ℕ_discrete hash_of 1 start c'
do_delete-Removes_example = do_delete-Removes ℕ_discrete hash_of no_string 0 start 1 start-IsValid

-- key 1 with an entry that expires at 10
abbrev entry : Entry ℕ ℕ
entry = record { key = 1; value = 70; key_hash = 11; expire_at = 10; cost = 1 }

abbrev tracking : Policy ℕ
tracking = record {
  admit = TinyLfu.increment small_lfu 11;
  evict = Sampled.add ℕ_discrete (new_sampled_lfu 0 0) 1 11 1;
}

abbrev stored : Cache ℕ ℕ
stored =
    store_entry no_string ℕ_discrete hash_of 0 entry
      (evict_victims no_string ℕ_discrete [] (record start { policy = tracking }))

fits : Sampled.needs_eviction (new_sampled_lfu {K = ℕ} 0 0) ≡ false
unfolding Sampled.needs_eviction new_sampled_lfu
fits = refl

tracked : Combined.add ℕ_discrete 0 no_draws start.policy 1 11 1 ≡ some ([], true, tracking)
unfolding new_sampled_lfu
tracked =
    add_new ℕ_discrete 0 no_draws start.policy 1 11 1 (unfold find new_sampled_lfu in refl)
    ∙ ap
        (λ o. o >>= λ (found : List (Sampled.Victim ℕ) × Sampled.SampledLfu ℕ). some (
          found.0,
          true,
          record {
            admit = TinyLfu.increment small_lfu 11;
            evict = Sampled.add ℕ_discrete found.1 1 11 1;
          },
        ))
        (find_victims_fits ℕ_discrete 0 no_draws (TinyLfu.increment small_lfu 11) 11 0 0
          (new_sampled_lfu 0 0) fits)

stored-Sets : Sets ℕ_discrete hash_of start entry stored
stored-Sets =
    (When_of (λ (r : Bool × Cache ℕ ℕ). (r.0 ≡ true) × Sets ℕ_discrete hash_of start entry r.1)
      (do_set no_string ℕ_discrete hash_of 0 no_draws start entry) (true, stored)
      (do_set-Sets ℕ_discrete hash_of no_string 0 no_draws start entry start-IsValid refl
        (omega arith))
      (unfold do_set in rw tracked refl)).1

abbrev one : Cache ℕ ℕ
one = record stored { expiry_wheel = small_wheel }

get-seen_example :
    ((get ℕ_discrete hash_of one 9 1).0
      ≡ seen ℕ_discrete hash_of 9 (entry_of ℕ_discrete hash_of one.store 1))
    × ((get ℕ_discrete hash_of one 9 1).1.store ≡ one.store)
    × IsValid ℕ_discrete hash_of (get ℕ_discrete hash_of one 9 1).1
get-seen_example = get-seen ℕ_discrete hash_of one 9 1 stored-Sets.valid stored-Sets.same_closed

drained : advance small_wheel 10 ≡ (due_item ∷ [], drained_wheel)
unfolding advance advance_loop sort_items quotient
drained = refl

remove_expired_strands_example :
    (c' : Cache ℕ ℕ) × (remove_expired no_string ℕ_discrete hash_of 0 10 one ≡ some c')
    × (entry_of ℕ_discrete hash_of c'.store 1 ≡ some entry)
    × (c'.expiry_wheel ≡ drained_wheel)
remove_expired_strands_example =
    remove_expired_strands ℕ_discrete hash_of no_string 0 10 one entry due_item drained_wheel
      stored-Sets.valid stored-Sets.holds refl drained

remove_expired-Lapses_example :
    (c' : Cache ℕ ℕ) × (remove_expired no_string ℕ_discrete hash_of 0 12 one ≡ some c')
    × IsValid ℕ_discrete hash_of c'
    × (c'.expiry_wheel ≡ (advance small_wheel 12).1)
    × (c'.write_buffer ≡ one.write_buffer)
    × ((k : ℕ) → Lapses ℕ_discrete hash_of 12 one.store c'.store k)
    × ((item : ExpiryWheelEntry ℕ)
        → Member item (advance small_wheel 12).0
        → Due ℕ_discrete hash_of 12 one.store item
        → entry_of ℕ_discrete hash_of c'.store item.key ≡ none)
remove_expired-Lapses_example =
    remove_expired-Lapses ℕ_discrete hash_of no_string 0 12 one stored-Sets.valid

-- with two writes of the key 1 that wait
abbrev older : WriteItem ℕ ℕ
older = record { entry = entry; is_set = true }

abbrev full : Cache ℕ ℕ
full = record start { write_buffer = some (older ∷ older ∷ []) }

no_room : has_room plain (older ∷ older ∷ []) ≡ false
unfolding has_room round_up
no_room = refl

room : has_room plain (older ∷ []) ≡ true
unfolding has_room round_up
room = refl

set_with_cost_overtakes_example :
    When
      (λ (c' : Cache ℕ ℕ). entry_of ℕ_discrete hash_of c'.store 1 ≡ some entry)
      (set_with_cost ℕ_discrete hash_of no_string 0 no_draws full 5 1 71 1 0 >>= λ r.
        flush_writes ℕ_discrete hash_of no_string 0 (λ n. no_draws) r.1)
unfolding effective_cost
set_with_cost_overtakes_example =
    set_with_cost_overtakes ℕ_discrete hash_of no_string 0 (λ n. no_draws) no_draws full
      (older ∷ []) older 5 71 1 0 start-IsValid refl refl no_room ((refl, omega arith), tt)
      (refl, omega arith) refl (omega arith)

flush_writes-set_with_cost_example :
    let c = record start { write_buffer = some (older ∷ []) } in
    (r : Bool × Cache ℕ ℕ) × (set_with_cost ℕ_discrete hash_of no_string 0 no_draws c 5 1 71 1 0
      ≡ some r)
    × (r.0 ≡ true)
    × (flush_writes ℕ_discrete hash_of no_string 0 (λ n. no_draws) r.1 ≡ (
        flush_writes ℕ_discrete hash_of no_string 0 (λ n. no_draws) c >>= λ c'.
        set_sync no_string ℕ_discrete hash_of 0 no_draws c' 1 71 11
          (effective_cost plain 71 1)
          (expiration plain 5 0)
        >>= λ r. some r.1))
flush_writes-set_with_cost_example =
    flush_writes-set_with_cost ℕ_discrete hash_of no_string 0 (λ n. no_draws) no_draws
      (record start { write_buffer = some (older ∷ []) }) (older ∷ []) 5 1 71 1 0 refl refl room

created : (c : Cache ℕ ℕ) × (new_cache plain false (3 ∷ 5 ∷ 7 ∷ 11 ∷ []) 0 ≡ some c)
unfolding new_cache Combined.new_policy TinyLfu.new_tiny_lfu new_cm_sketch counters_of
created = (_, refl)

Steps-Mirrors_example :
    let c = (get ℕ_discrete hash_of created.0 5 1).1 in
    Mirrors ℕ_discrete hash_of c.store c.policy.evict
Steps-Mirrors_example =
    Steps-Mirrors ℕ_discrete hash_of no_string 0 plain false (3 ∷ 5 ∷ 7 ∷ 11 ∷ []) 0 created.0
      (get ℕ_discrete hash_of created.0 5 1).1 created.1
      (steps_more created.0 created.0 (get ℕ_discrete hash_of created.0 5 1).1
        (steps_none created.0) (step_get created.0 5 1))

-- a cache with the value 70 at the key 1
abbrev holding : Cache ℕ ℕ
holding = record start {
  store = record {
    shards =
        ((1, record { key = 1; value = 70; key_hash = 11; expire_at = 0; cost = 1 }) ∷ []) ∷ [];
    shard_mask = 0;
    size = 1;
  };
}

get_batch-get_example :
    let r = served ℕ_discrete hash_of 0 5 (1 ∷ 2 ∷ []) holding in
    get_batch ℕ_discrete hash_of 0 holding 5 (1 ∷ 2 ∷ [])
    ≡ some (
      record { batch_keys = 1 ∷ 2 ∷ []; values = r.0.0; found = r.0.1; hashes = 11 ∷ 12 ∷ [] },
      r.1,
    )
get_batch-get_example = get_batch-get ℕ_discrete hash_of 0 holding 5 (1 ∷ 2 ∷ []) refl

get_batch_to_map-get_many_example :
    get_batch_to_map ℕ_discrete hash_of 0 (record holding { closed = true }) 5 (1 ∷ 2 ∷ []) ≡ none
get_batch_to_map-get_many_example =
    get_batch_to_map-get_many ℕ_discrete hash_of 0 (record holding { closed = true }) 5 (1 ∷ 2 ∷ [])

holding_values :
    served ℕ_discrete hash_of 0 5 (1 ∷ 2 ∷ []) holding ≡ ((70 ∷ 0 ∷ [], true ∷ false ∷ []), holding)
unfolding served get get_by_hash find is_expired record_access should_track_access ℕ_discrete
holding_values = refl

get_batch_optimized-get_batch_example :
    get_batch_optimized ℕ_discrete hash_of (λ infos. infos) 0 holding 5 (1 ∷ 2 ∷ [])
    ≡ get_batch ℕ_discrete hash_of 0 holding 5 (1 ∷ 2 ∷ [])
get_batch_optimized-get_batch_example =
    get_batch_optimized-get_batch ℕ_discrete hash_of (λ infos. infos) 0 holding 5 (1 ∷ 2 ∷ [])
      (λ info infos m. m) (λ info infos m. m)
