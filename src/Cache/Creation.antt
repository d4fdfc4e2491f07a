-- ===== src/Cache/Creation.antt =====
-- cache.go: NewCache, with the policy of internal/policy/policy.go. `seeds` is what math/rand gives to the
-- sketch, and `is_string_key` tells that keys are strings.
use go_mcache.Base.{ℕ, ◌^◌, Bool, false, ◌&&◌, ◌||◌, List, [], Option, none, some, if◌then◌else◌}
use go_mcache.Base.Word.{slt, sle, mul64}
use go_mcache.Policy.Sampled.{◌>>=◌}
use go_mcache.Policy.Combined.{new_policy}
use go_mcache.Radix
use go_mcache.Store.Sharded.{new_sharded_store}
use go_mcache.Store.Wheel.{new_expiry_wheel}
use go_mcache.Cache.Counters.{new_metrics}
use go_mcache.Cache.State.{Config, Cache}

unfoldable pub counters_of : {V : Type 0} → Config V → ℕ
counters_of config =
    if sle config.num_counters 0
    then if slt 0 config.max_entries then mul64 config.max_entries 10 else 2 ^ 20
    else config.num_counters

unfoldable pub new_cache : {K V : Type 0} → Config V → Bool → List ℕ → ℕ → Option (Cache K V)
new_cache config is_string_key seeds now =
    new_policy (counters_of config) config.max_cost config.max_entries seeds >>= λ policy.
    some (record {
      store = new_sharded_store config.shard_count;
      policy = policy;
      expiry_wheel = new_expiry_wheel config.expiry_resolution now;
      radix_tree = if is_string_key && config.enable_prefix_search then some Radix.new else none;
      metrics = if config.metrics_enabled then some new_metrics else none;
      config = config;
      write_buffer = if slt 0 config.buffer_items then some [] else none;
      read_buffer = if slt 0 config.max_entries || slt 0 config.max_cost then some [] else none;
      closed = false;
      live_cost = 0;
      notices = [];
    })
