-- ===== src/Policy/Sampled.antt =====
-- internal/policy/sampledlfu.go: the eviction side of the policy. A Go map is an association list, an
-- int64 its two's complement pattern, and `none` a run-time panic (an index out of range).
pub mod Inv
pub mod Del
pub mod Sample
use go_mcache.Base.{
  ℕ, ◌+◌, ◌-◌, ◌%◌, Bool, true, false, ◌&&◌, ◌||◌, List, [], ◌∷◌, ◌++◌, Option, none, some, length,
  get_elem?, set?, take, ltb, ◌==◌, if◌then◌else◌,
}
use go_mcache.Base.Assoc.{find, put, remove}
use go_mcache.Base.Word.{add64, sub64, slt}

pub record TrackedItem : Type 0 where
  pub key_hash : ℕ
  pub cost : ℕ

pub record SampledLfu (K : Type 0) : Type 0 where
  pub costs : List (K × TrackedItem)
  pub keys : List K
  pub key_index : List (K × ℕ)
  pub max_cost : ℕ
  pub used_cost : ℕ
  pub max_entries : ℕ
  pub num_entries : ℕ

pub record Victim (K : Type 0) : Type 0 where
  pub key : K
  pub key_hash : ℕ

infixl 5 ◌>>=◌
abbrev pub ◌>>=◌ {ℓ κ} : {A : Type ℓ} {B : Type κ} → Option A → (A → Option B) → Option B
some a >>= f = f a
none >>= f = none

unfoldable pub new_sampled_lfu : {K : Type 0} → ℕ → ℕ → SampledLfu K
new_sampled_lfu max_cost max_entries = record {
  costs = [];
  keys = [];
  key_index = [];
  max_cost = max_cost;
  used_cost = 0;
  max_entries = max_entries;
  num_entries = 0;
}

-- limits are compared as int64
unfoldable pub needs_eviction : {K : Type 0} → SampledLfu K → Bool
needs_eviction s =
    if slt 0 s.max_cost && slt s.max_cost s.used_cost
    then true
    else if slt 0 s.max_entries && slt s.max_entries s.num_entries
    then true
    else false

unfoldable pub adaptive_sample_size : {K : Type 0} → SampledLfu K → ℕ
adaptive_sample_size s =
    let n = length s.keys in
    if ltb n 100 then n else if ltb n 1000 then 10 else if ltb n 10000 then 15 else 20

unfoldable pub clear : {K : Type 0} → SampledLfu K → SampledLfu K
clear s = record s { costs = []; keys = []; key_index = []; used_cost = 0; num_entries = 0 }

unfoldable pub set_max_cost : {K : Type 0} → SampledLfu K → ℕ → SampledLfu K
set_max_cost s n = record s { max_cost = n }

unfoldable pub set_max_entries : {K : Type 0} → SampledLfu K → ℕ → SampledLfu K
set_max_entries s n = record s { max_entries = n }

module _ {K : Type 0} (dec : Discrete K) where
  unfoldable pub add : SampledLfu K → K → ℕ → ℕ → SampledLfu K
  add s key key_hash cost = elim (find dec key s.costs) [
    | some existing ↦ record s {
      used_cost = add64 s.used_cost (sub64 cost existing.cost);
      costs = put dec key (record { key_hash = key_hash; cost = cost }) s.costs;
    }
    | none ↦ record s {
      costs = put dec key (record { key_hash = key_hash; cost = cost }) s.costs;
      key_index = put dec key (length s.keys) s.key_index;
      keys = s.keys ++ key ∷ [];
      used_cost = add64 s.used_cost cost;
      num_entries = add64 s.num_entries 1;
    }
  ]

  unfoldable pub has : SampledLfu K → K → Bool
  has s key = elim (find dec key s.costs) [ some _ ↦ true | none ↦ false ]

  -- `keys[idx] = keys[last]; keyIndex[keys[idx]] = idx` when the key is not the last one
  unfoldable pub fill_gap : SampledLfu K → ℕ → ℕ → K → Option (SampledLfu K)
  fill_gap s idx last moved = if idx == last then some s else do
    keys ← set? s.keys idx moved
    some (record s { keys = keys; key_index = put dec moved idx s.key_index })

  unfoldable pub swap_delete : SampledLfu K → K → ℕ → Option (SampledLfu K)
  unfolding fill_gap
  swap_delete s key idx = do
    let last = length s.keys - 1
    moved ← get_elem? s.keys last
    filled ← fill_gap s idx last moved
    some (record filled {
      keys = take last filled.keys;
      key_index = remove dec key filled.key_index;
    })

  unfoldable pub del : SampledLfu K → K → Option (SampledLfu K)
  del s key = elim (find dec key s.costs) [
    | none ↦ some s
    | some item ↦
        let rest = record s {
          used_cost = sub64 s.used_cost item.cost;
          num_entries = sub64 s.num_entries 1;
          costs = remove dec key s.costs;
        } in
        elim (find dec key rest.key_index) [
          | none ↦ some rest
          | some idx ↦ swap_delete rest key idx
        ]
  ]

  unfoldable pub update : SampledLfu K → K → ℕ → ℕ → SampledLfu K
  update s key key_hash cost = elim (find dec key s.costs) [
    | some existing ↦ record s {
      used_cost = add64 s.used_cost (sub64 cost existing.cost);
      costs = put dec key (record { key_hash = key_hash; cost = cost }) s.costs;
    }
    | none ↦ s
  ]

  unfoldable pub cost_of : SampledLfu K → K → ℕ
  cost_of s key = elim (find dec key s.costs) [ some item ↦ item.cost | none ↦ 0 ]
