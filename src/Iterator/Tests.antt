-- ===== src/Iterator/Tests.antt =====
-- iterator.go: the theorems at a store of three entries.
use go_mcache.Base.{ℕ, ◌≡◌, refl, false, List, [], ◌∷◌, Option, none, some, arith, map, take}
use go_mcache.Policy.Sampled.{new_sampled_lfu}
use go_mcache.Radix
use go_mcache.Radix.{Tree}
use go_mcache.Store.Sharded.{Entry, ShardedStore, is_expired}
use go_mcache.Cache.State.{Cache}
use go_mcache.Iterator.{new_iterator, all_entries, entries_of, matching, match_entry, all}
use go_mcache.Iterator.Served.{all_lem}
use go_mcache.Iterator.Prefix.{resumed_lem}

abbrev entry : ℕ → ℕ → Entry ℕ ℕ
entry key expire_at = record {
  key = key;
  value = key;
  key_hash = key;
  expire_at = expire_at;
  cost = 1;
}

-- the entry 2 has expired
abbrev three : ShardedStore ℕ ℕ
three = record {
  shards =
      ((1, entry 1 0) ∷ (2, entry 2 5) ∷ [])
      ∷ ((3, entry 3 0) ∷ (4, entry 4 0) ∷ (5, entry 5 0) ∷ [])
      ∷ [];
  shard_mask = 1;
  size = 5;
}

abbrev cache : Option Tree → Cache ℕ ℕ
cache tree = record {
  store = three;
  policy = record {
    admit = record {
      freq = record { rows = []; seeds = []; width = 1 };
      door = record { bits = []; num_bits = 0; num_hash = 0 };
      incrs = 0;
      reset_at = 1;
    };
    evict = new_sampled_lfu 0 0;
  };
  expiry_wheel = record { resolution = 1; mask = 0; current_tick = 0; buckets = [] ∷ [] };
  radix_tree = tree;
  metrics = none;
  config = record {
    max_entries = 0;
    max_cost = 0;
    num_counters = 4;
    shard_count = 2;
    buffer_items = 0;
    metrics_enabled = false;
    expiry_resolution = 1;
    default_ttl = 0;
    cost_func = none;
    on_evict = false;
    on_expire = false;
    on_reject = false;
    enable_prefix_search = false;
  };
  write_buffer = none;
  read_buffer = none;
  closed = false;
  live_cost = 0;
  notices = [];
}

abbrev no_string : ℕ → Option (List ℕ)
no_string k = none

all_lem_example :
    all no_string 9 (cache none) 0 0 5 (new_iterator 0 3 [] none)
    ≡ some (
        map
          (λ e. (e.key, e.value))
          (take 3 (matching no_string 9 [] none (all_entries three.shards))))
unfolding all_entries entries_of
all_lem_example =
    all_lem no_string 9 (cache none) 3 [] none refl (omega arith) (omega arith) (omega arith) 0 0 5
      (omega arith)

-- the entry 5 matches, and is never served
dropped :
    (matching no_string 9 [] none (all_entries three.shards)
      ≡ entry 1 0 ∷ entry 3 0 ∷ entry 4 0 ∷ entry 5 0 ∷ [])
    × (all no_string 9 (cache none) 0 0 5 (new_iterator 0 3 [] none)
        ≡ some ((1, 1) ∷ (3, 3) ∷ (4, 4) ∷ []))
unfolding all_entries entries_of matching match_entry is_expired
dropped = (refl, all_lem_example)

resumed_lem_example :
    all no_string 9 (cache (some Radix.new)) 0 0 1 (new_iterator 6 3 (97 ∷ []) none) ≡ some []
resumed_lem_example =
    resumed_lem no_string 9 (cache (some Radix.new)) Radix.new refl 6 3 97 [] none (omega arith)
      (omega arith) (omega arith) (omega arith) 0 0 1 (omega arith)
