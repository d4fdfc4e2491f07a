-- ===== src/Cache/State.antt =====
-- cache.go: what a cache keeps, and the index by strings that it may have. A callback is told by a notice,
-- and the flags of the configuration say which are set.
use go_mcache.Base.{ℕ, Bool, List, [], ◌∷◌, Option, none, some, if◌then◌else◌}
use go_mcache.Policy.Combined.{Policy}
use go_mcache.Radix
use go_mcache.Radix.{Tree}
use go_mcache.Store.Sharded.{Entry, ShardedStore}
use go_mcache.Store.Wheel.{ExpiryWheel}
use go_mcache.Cache.Counters.{Metrics}

pub record Config (V : Type 0) : Type 0 where
  pub max_entries : ℕ
  pub max_cost : ℕ
  pub num_counters : ℕ
  pub shard_count : ℕ
  pub buffer_items : ℕ
  pub metrics_enabled : Bool
  pub expiry_resolution : ℕ
  pub default_ttl : ℕ
  pub cost_func : Option (V → ℕ)
  pub on_evict : Bool
  pub on_expire : Bool
  pub on_reject : Bool
  pub enable_prefix_search : Bool

-- a call of OnEvict, OnExpire or OnReject
pub data Notice (K V : Type 0) : Type 0 where
  notice_evict : K → V → ℕ → Notice K V
  notice_expire : K → V → Notice K V
  notice_reject : K → V → Notice K V

pub record WriteItem (K V : Type 0) : Type 0 where
  pub entry : Entry K V
  pub is_set : Bool

-- the buffers are the queues that their rings implement
pub record Cache (K V : Type 0) : Type 0 where
  pub store : ShardedStore K V
  pub policy : Policy K
  pub expiry_wheel : ExpiryWheel K
  pub radix_tree : Option Tree
  pub metrics : Option Metrics
  pub config : Config V
  pub write_buffer : Option (List (WriteItem K V))
  pub read_buffer : Option (List ℕ)
  pub closed : Bool
  pub live_cost : ℕ
  pub notices : List (Notice K V)

module _ {K : Type 0} (as_string : K → Option (List ℕ)) where
  unfoldable pub radix_delete : Option Tree → K → Option Tree
  radix_delete none key = none
  radix_delete (some t) key = elim (as_string key) [
    | none ↦ some t
    | some s ↦ some (Radix.delete t s).1
  ]

  unfoldable pub radix_insert : Option Tree → K → ℕ → Option Tree
  radix_insert none key key_hash = none
  radix_insert (some t) key key_hash = elim (as_string key) [
    | none ↦ some t
    | some s ↦ some (Radix.insert t s key_hash)
  ]

module _ {K V : Type 0} where
  -- `if c.config.OnEvict != nil { c.config.OnEvict(…) }`, for an entry that there may not be
  abbrev pub evict_notice : Config V → Option (Entry K V) → List (Notice K V)
  evict_notice config none = []
  evict_notice config (some e) =
      if config.on_evict then notice_evict e.key e.value e.cost ∷ [] else []
