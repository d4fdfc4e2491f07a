-- ===== src/Cache/Steps.antt =====
-- cache.go: all calls of the API and all steps of the background workers, as they follow one another.
use std.Path.{subst}
use go_mcache.Base.{
  ℕ, ◌≡◌, ◌<◌, ◌^◌, refl, sym, ap, ◌∙◌, Bool, true, Option, none, some, List, [], arith,
}
use go_mcache.Base.Word.{slt}
use go_mcache.Base.Assoc.{find}
use go_mcache.Policy.Sampled
use go_mcache.Policy.Sampled.{SampledLfu, new_sampled_lfu, ◌>>=◌}
use go_mcache.Policy.Sampled.Inv
use go_mcache.Policy.TinyLfu.{new_tiny_lfu}
use go_mcache.Policy.Combined
use go_mcache.Policy.Combined.Chosen.{When, When-bind, When_of}
use go_mcache.Store.Sharded
use go_mcache.Store.Sharded.{Entry, ShardedStore, get_by_hash, new_sharded_store}
use go_mcache.Store.Sharded.Inv as StoreInv
use go_mcache.Store.Sharded.Inv.{entry_of, clear-IsEmpty, new_sharded_store-IsValid}
use go_mcache.Cache.{remove_expired}
use go_mcache.Cache.Calls.{
  get, set_with_cost, delete, effective_cost, flush_reads, flush_batch, flush_writes, wait, clear,
  close,
}
use go_mcache.Cache.Creation.{new_cache, counters_of}
use go_mcache.Cache.State.{Config, Cache}
use go_mcache.Cache.Inv.{Mirrors, item_of}
use go_mcache.Cache.Expiring.{remove_expired-Lapses}
use go_mcache.Cache.Reading.{record_access_same, access-IsValid}
use go_mcache.Cache.Ready.{
  IsReady, AreOwn, on_if, on_option, set_with_cost-IsReady, delete-IsReady, flush_batch-IsReady,
  flush_writes-IsReady, flush_reads-IsReady,
}

cleared_policy :
    {K : Type 0} (dec : Discrete K) (p : SampledLfu K) → Inv.IsValid dec (Sampled.clear p)
unfolding Sampled.clear find
cleared_policy dec p = record {
  indexed = λ i k h. ground arith;
  listed = λ i k h. ground arith;
  unlisted = λ k h. refl;
  untracked = λ k h. refl;
  distinct_costs = tt;
  distinct_index = tt;
  size = refl;
  used = refl;
  count = refl;
}

new_policy-evict :
    (K : Type 0) (counters max_cost max_entries : ℕ) (seeds : List ℕ)
    → When
        (λ (p : Combined.Policy K). p.evict ≡ new_sampled_lfu max_cost max_entries)
        (Combined.new_policy counters max_cost max_entries seeds)
unfolding Combined.new_policy
new_policy-evict K counters max_cost max_entries seeds =
    When-bind (λ (p : Combined.Policy K). p.evict ≡ new_sampled_lfu max_cost max_entries)
      (new_tiny_lfu counters seeds) _ (λ t at. refl)

module _ {K V : Type 0} (dec : Discrete K) (hasher : K → ℕ) (as_string : K → Option (List ℕ))
    (zero_key : K) where
  -- one call or one step of a worker
  pub data Step : Cache K V → Cache K V → Type 0 where
    step_set :
        (draws : ℕ → List ℕ) (c : Cache K V) (now : ℕ) (key : K) (value : V) (cost ttl : ℕ)
        (r : Bool × Cache K V)
        → effective_cost c.config value cost < 2 ^ 64
        → set_with_cost dec hasher as_string zero_key draws c now key value cost ttl ≡ some r
        → Step c r.1
    step_delete :
        (c : Cache K V) (zero_value : V) (key : K) (r : Bool × Cache K V)
        → delete dec hasher as_string zero_key c zero_value key ≡ some r
        → Step c r.1
    step_get : (c : Cache K V) (now : ℕ) (key : K) → Step c (get dec hasher c now key).1
    step_batch :
        (draws : ℕ → ℕ → List ℕ) (c c' : Cache K V)
        → flush_batch dec hasher as_string zero_key draws c ≡ some c'
        → Step c c'
    step_reads : (c : Cache K V) → Step c (flush_reads c)
    step_expire :
        (now : ℕ) (c c' : Cache K V)
        → remove_expired as_string dec hasher zero_key now c ≡ some c'
        → Step c c'
    step_clear :
        (draws : ℕ → ℕ → List ℕ) (c c' : Cache K V) (now : ℕ)
        → clear dec hasher as_string zero_key draws c now ≡ some c'
        → Step c c'
    step_close :
        (draws : ℕ → ℕ → List ℕ) (c c' : Cache K V)
        → close dec hasher as_string zero_key draws c ≡ some c'
        → Step c c'

  -- any number of them
  pub data Steps : Cache K V → Cache K V → Type 0 where
    steps_none : (c : Cache K V) → Steps c c
    steps_more : (c c' c'' : Cache K V) → Steps c c' → Step c' c'' → Steps c c''

  abbrev pub Ready : Cache K V → Type 0
  Ready c = IsReady dec hasher as_string zero_key c

  wait-IsReady :
      (draws : ℕ → ℕ → List ℕ) (c : Cache K V)
      → Ready c
      → When Ready (wait dec hasher as_string zero_key draws c)
  unfolding wait
  wait-IsReady draws c ready =
      let o = flush_writes dec hasher as_string zero_key draws c in
      When-bind Ready o _ (λ c' at.
        flush_reads-IsReady dec hasher as_string zero_key c' (
          When_of Ready o c' (flush_writes-IsReady dec hasher as_string zero_key draws c ready) at))

  pub empty-Mirrors :
      (s : ShardedStore K V) (p : SampledLfu K)
      → StoreInv.IsValid dec hasher s
      → ((k : K) → entry_of dec hasher s k ≡ none)
      → Inv.IsValid dec p
      → p.costs ≡ []
      → Mirrors dec hasher s p
  unfolding find
  empty-Mirrors s p v bare w none_tracked = record {
    store_valid = v;
    policy_valid = w;
    mirrored = λ k. ap (find dec k) none_tracked ∙ sym (ap item_of (bare k));
    priced = λ k e h. absurd (ground (arith, bare k, h));
  }

  clear-IsReady :
      (draws : ℕ → ℕ → List ℕ) (c : Cache K V) (now : ℕ)
      → Ready c
      → When Ready (clear dec hasher as_string zero_key draws c now)
  unfolding clear Combined.clear Sampled.clear
  clear-IsReady draws c now ready =
      let o = wait dec hasher as_string zero_key draws c in
      When-bind Ready o _ (λ c' at.
        let r = When_of Ready o c' (wait-IsReady draws c ready) at in
        record {
          valid =
              empty-Mirrors (Sharded.clear c'.store) (Sampled.clear c'.policy.evict)
                (clear-IsEmpty dec hasher c'.store zero_key r.valid.store_valid).0
                (λ k. (clear-IsEmpty dec hasher c'.store k r.valid.store_valid).1)
                (cleared_policy dec c'.policy.evict) refl;
          own = r.own;
        })

  close-IsReady :
      (draws : ℕ → ℕ → List ℕ) (c : Cache K V)
      → Ready c
      → When Ready (close dec hasher as_string zero_key draws c)
  unfolding close
  close-IsReady draws c ready =
      on_if (When Ready) c.closed _ _ (λ _. ready)
        (λ _.
          wait-IsReady draws (record c { closed = true })
            (record { valid = ready.valid; own = ready.own }))

  get-IsReady : (c : Cache K V) (now : ℕ) (key : K) → Ready c → Ready (get dec hasher c now key).1
  unfolding get
  get-IsReady c now key ready =
      on_if (λ (r : Option V × Cache K V). Ready r.1) c.closed _ _ (λ _. ready)
        (λ _.
          on_option (λ (r : Option V × Cache K V). Ready r.1)
            (get_by_hash dec c.store now key (hasher key)) _ _
            (λ _. record { valid = ready.valid; own = ready.own })
            (λ e _. record {
              valid = access-IsValid dec hasher c (hasher key) ready.valid;
              own =
                  subst (AreOwn dec hasher as_string zero_key)
                    (sym (record_access_same dec hasher c (hasher key)).2) ready.own;
            }))

  Step-IsReady : (c c' : Cache K V) → Ready c → Step c c' → Ready c'
  Step-IsReady c c' ready (step_set draws c₁ now key value cost ttl r cheap at) =
      When_of (λ (r : Bool × Cache K V). Ready r.1) _ r
        (set_with_cost-IsReady dec hasher as_string zero_key draws c now key value cost ttl ready
          cheap)
        at
  Step-IsReady c c' ready (step_delete c₁ zero_value key r at) =
      When_of (λ (r : Bool × Cache K V). Ready r.1) _ r
        (delete-IsReady dec hasher as_string zero_key c zero_value key ready) at
  Step-IsReady c c' ready (step_get c₁ now key) = get-IsReady c now key ready
  Step-IsReady c c' ready (step_batch draws c₁ c₂ at) =
      When_of Ready _ c' (flush_batch-IsReady dec hasher as_string zero_key draws c ready) at
  Step-IsReady c c' ready (step_reads c₁) =
      flush_reads-IsReady dec hasher as_string zero_key c ready
  Step-IsReady c c' ready (step_expire now c₁ c₂ at) =
      let (x, ends, valid, _, buffer, _, _) =
        remove_expired-Lapses dec hasher as_string zero_key now c ready.valid in
      When_of Ready _ c'
        (subst (When Ready) (sym ends) (record {
          valid = valid;
          own = subst (AreOwn dec hasher as_string zero_key) (sym buffer) ready.own;
        }))
        at
  Step-IsReady c c' ready (step_clear draws c₁ c₂ now at) =
      When_of Ready _ c' (clear-IsReady draws c now ready) at
  Step-IsReady c c' ready (step_close draws c₁ c₂ at) =
      When_of Ready _ c' (close-IsReady draws c ready) at

  Steps-IsReady : (c c' : Cache K V) → Ready c → Steps c c' → Ready c'
  Steps-IsReady c c' ready (steps_none c₁) = ready
  Steps-IsReady c c' ready (steps_more c₁ c₂ c₃ steps step) =
      Step-IsReady c₂ c' (Steps-IsReady c c₂ ready steps) step

  new_cache-IsReady :
      (config : Config V) (is_string_key : Bool) (seeds : List ℕ) (now : ℕ)
      → When Ready (new_cache config is_string_key seeds now)
  unfolding new_cache Combined.new_policy Sampled.new_sampled_lfu
  new_cache-IsReady config is_string_key seeds now =
      let o = Combined.new_policy (counters_of config) config.max_cost config.max_entries seeds in
      When-bind Ready o _ (λ policy at.
        let evict = new_sampled_lfu config.max_cost config.max_entries in
        let fresh : policy.evict ≡ evict =
          When_of (λ (p : Combined.Policy K). p.evict ≡ evict) o policy
            (new_policy-evict K (counters_of config) config.max_cost config.max_entries seeds) at in
        record {
          valid =
              subst (λ p. Mirrors {V = V} dec hasher (new_sharded_store config.shard_count) p)
                (sym fresh)
                (empty-Mirrors (new_sharded_store config.shard_count) evict
                  (new_sharded_store-IsValid dec hasher config.shard_count zero_key).0
                  (λ k. (new_sharded_store-IsValid dec hasher config.shard_count k).1)
                  (Inv.new-IsValid dec config.max_cost config.max_entries) refl);
          own =
              on_if (AreOwn {V = V} dec hasher as_string zero_key) (slt 0 config.buffer_items)
                (some []) none (λ _. tt) (λ _. tt);
        })

  -- In every state that a new cache comes to by calls of SetWithCost (with effective costs of 64 bits), Delete, Get,
  -- Clear and Close and by steps of its workers, in any order, the store is well formed, the policy is, and the
  -- policy tracks exactly the keys that the store holds, with their entries' hashes and costs.
  pub Steps-Mirrors :
      (config : Config V) (is_string_key : Bool) (seeds : List ℕ) (now : ℕ) (c c' : Cache K V)
      → new_cache config is_string_key seeds now ≡ some c
      → Steps c c'
      → Mirrors dec hasher c'.store c'.policy.evict
  Steps-Mirrors config is_string_key seeds now c c' created steps =
      (Steps-IsReady c c'
        (When_of Ready _ c (new_cache-IsReady config is_string_key seeds now) created) steps).valid
