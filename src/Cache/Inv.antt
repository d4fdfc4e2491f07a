-- ===== src/Cache/Inv.antt =====
-- cache.go: store and policy of a cache in step.
use go_mcache.Base.{
  ℕ, ◌<◌, ◌≡◌, refl, sym, ap, ◌^◌, inl, inr, ◌⊎◌, Option, none, some, List, [], ◌∷◌, Bool-cases,
  ◌==◌,
}
use go_mcache.Base.Assoc.{find}
use go_mcache.Policy.Sampled.{TrackedItem, SampledLfu, Victim}
use go_mcache.Policy.Sampled.Inv
use go_mcache.Policy.Combined.Victims.{Evicts}
use go_mcache.Store.Sharded.{Entry, ShardedStore, with_hash}
use go_mcache.Store.Sharded.Inv as StoreInv
use go_mcache.Store.Sharded.Inv.{Changed, entry_of}
use go_mcache.Cache.State.{Cache}

-- what the policy tracks of an entry
abbrev pub item_of : {K V : Type 0} → Option (Entry K V) → Option TrackedItem
item_of none = none
item_of (some e) = some (record { key_hash = e.key_hash; cost = e.cost })

pub evicts? :
    {K : Type 0} (dec : Discrete K) (vs : List (Victim K)) (k : K) → Evicts vs k ⊎ (¬ Evicts vs k)
evicts? dec [] k = inr (λ e. absurd e)
evicts? dec (v ∷ vs) k = elim (dec v.key k) [
  | yes p ↦ inl (inl p)
  | no n ↦ elim (evicts? dec vs k) [
    | inl m ↦ inl (inr m)
    | inr m ↦ inr (λ e. elim e [ inl p ↦ n p | inr q ↦ m q ])
  ]
]

module _ {K V : Type 0} (dec : Discrete K) (hasher : K → ℕ) where
  -- store and policy are well formed, the policy tracks exactly the keys of the store, with the entries'
  -- hashes and costs, and costs are 64-bit patterns
  pub record Mirrors (s : ShardedStore K V) (p : SampledLfu K) : Type 0 where
    pub store_valid : StoreInv.IsValid dec hasher s
    pub policy_valid : Inv.IsValid dec p
    pub mirrored : (k : K) → find dec k p.costs ≡ item_of (entry_of dec hasher s k)
    pub priced : (k : K) (e : Entry K V) → entry_of dec hasher s k ≡ some e → e.cost < 2 ^ 64

  abbrev pub IsValid : Cache K V → Type 0
  IsValid c = Mirrors c.store c.policy.evict

  pub with_hash_own : (e : Entry K V) → e.key_hash ≡ hasher e.key → with_hash hasher e ≡ e
  unfolding with_hash
  with_hash_own e own = elim (Bool-cases (e.key_hash == 0)) [
    | inl h ↦ rw h (ap (λ n. record e { key_hash = n }) (sym own))
    | inr h ↦ rw h refl
  ]
