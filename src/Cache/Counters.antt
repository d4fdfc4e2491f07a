-- ===== src/Cache/Counters.antt =====
-- metrics.go: the counters, int64 as two's complement patterns. A nil pointer is `none`.
use go_mcache.Base.{ℕ, Option, none, some}
use go_mcache.Base.Word.{add64}

pub record Metrics : Type 0 where
  pub hits : ℕ
  pub misses : ℕ
  pub sets : ℕ
  pub deletes : ℕ
  pub evictions : ℕ
  pub expirations : ℕ
  pub rejections : ℕ
  pub cost_added : ℕ
  pub cost_evicted : ℕ
  pub buffer_drops : ℕ

abbrev pub new_metrics : Metrics
new_metrics = record {
  hits = 0;
  misses = 0;
  sets = 0;
  deletes = 0;
  evictions = 0;
  expirations = 0;
  rejections = 0;
  cost_added = 0;
  cost_evicted = 0;
  buffer_drops = 0;
}

abbrev pub inc_hit : Option Metrics → Option Metrics
inc_hit none = none
inc_hit (some m) = some (record m { hits = add64 m.hits 1 })

abbrev pub inc_miss : Option Metrics → Option Metrics
inc_miss none = none
inc_miss (some m) = some (record m { misses = add64 m.misses 1 })

abbrev pub inc_set : Option Metrics → Option Metrics
inc_set none = none
inc_set (some m) = some (record m { sets = add64 m.sets 1 })

abbrev pub inc_delete : Option Metrics → Option Metrics
inc_delete none = none
inc_delete (some m) = some (record m { deletes = add64 m.deletes 1 })

abbrev pub inc_eviction : Option Metrics → Option Metrics
inc_eviction none = none
inc_eviction (some m) = some (record m { evictions = add64 m.evictions 1 })

abbrev pub inc_expiration : Option Metrics → Option Metrics
inc_expiration none = none
inc_expiration (some m) = some (record m { expirations = add64 m.expirations 1 })

abbrev pub inc_rejection : Option Metrics → Option Metrics
inc_rejection none = none
inc_rejection (some m) = some (record m { rejections = add64 m.rejections 1 })

abbrev pub add_cost : Option Metrics → ℕ → Option Metrics
add_cost none cost = none
add_cost (some m) cost = some (record m { cost_added = add64 m.cost_added cost })

abbrev pub add_evicted_cost : Option Metrics → ℕ → Option Metrics
add_evicted_cost none cost = none
add_evicted_cost (some m) cost = some (record m { cost_evicted = add64 m.cost_evicted cost })

abbrev pub inc_buffer_drop : Option Metrics → Option Metrics
inc_buffer_drop none = none
inc_buffer_drop (some m) = some (record m { buffer_drops = add64 m.buffer_drops 1 })

abbrev pub reset : Option Metrics → Option Metrics
reset none = none
reset (some m) = some new_metrics
