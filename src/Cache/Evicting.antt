-- ===== src/Cache/Evicting.antt =====
-- cache.go: evictVictim takes the victims of the policy out of the store.
use std.Path.{subst}
use go_mcache.Base.{
  ℕ, ◌≡◌, refl, sym, ap, ◌∙◌, inl, inr, ◌⊎◌, Option, none, some, List, [], ◌∷◌, arith, All, if_pos,
  if_neg,
}
use go_mcache.Policy.Sampled.{SampledLfu, Victim}
use go_mcache.Policy.Sampled.Sample.{IsTracked}
use go_mcache.Policy.Combined.Victims.{Evicts}
use go_mcache.Store.Sharded.{Entry, ShardedStore, delete_by_hash}
use go_mcache.Store.Sharded.Inv as StoreInv
use go_mcache.Store.Sharded.Inv.{Changed, entry_of}
use go_mcache.Store.Sharded.Map.{delete-Changed}
use go_mcache.Cache.{after_evict, evict_victim, evict_victims}
use go_mcache.Cache.State.{Cache}
use go_mcache.Cache.Inv.{Mirrors, item_of, evicts?}

-- the hashes of tracked victims are their keys'
abbrev pub Hashed : {K : Type 0} → (K → ℕ) → List (Victim K) → Type 0
Hashed hasher vs = All (λ v. v.key_hash ≡ hasher v.key) vs

module _ {K V : Type 0} (dec : Discrete K) (hasher : K → ℕ) where
  -- the victims are gone, and nothing else
  pub record Cleared (vs : List (Victim K)) (s s' : ShardedStore K V) : Type 0 where
    pub valid : StoreInv.IsValid dec hasher s'
    pub gone : (k : K) → Evicts vs k → entry_of dec hasher s' k ≡ none
    pub kept : (k : K) → ¬ Evicts vs k → entry_of dec hasher s' k ≡ entry_of dec hasher s k

  Cleared-none : (s : ShardedStore K V) → StoreInv.IsValid dec hasher s → Cleared [] s s
  Cleared-none s v = record { valid = v; gone = λ k e. absurd e; kept = λ k n. refl }

  -- what is gone stays gone
  stays :
      (vs : List (Victim K)) (s s' : ShardedStore K V) (k : K)
      → Cleared vs s s'
      → entry_of dec hasher s k ≡ none
      → Evicts vs k ⊎ (¬ Evicts vs k)
      → entry_of dec hasher s' k ≡ none
  stays vs s s' k c absent (inl m) = c.gone k m
  stays vs s s' k c absent (inr n) = c.kept k n ∙ absent

  pub tracked-Hashed :
      (s : ShardedStore K V) (p : SampledLfu K)
      → Mirrors dec hasher s p
      → (vs : List (Victim K)) → All (IsTracked dec p) vs
      → Hashed hasher vs
  tracked-Hashed s p m [] h = tt
  tracked-Hashed s p m (v ∷ vs) h =
      (own (entry_of dec hasher s v.key) refl h.0, tracked-Hashed s p m vs h.1)
    where
      own :
          (o : Option (Entry K V))
          → entry_of dec hasher s v.key ≡ o
          → IsTracked dec p v
          → v.key_hash ≡ hasher v.key
      own none at (t, found, same) =
          absurd (ground (arith, found, m.mirrored v.key ∙ ap item_of at))
      own (some e) at (t, found, same) =
          let placed = m.store_valid.placed _ v.key e at in
          ground (arith, found, m.mirrored v.key ∙ ap item_of at, placed.1, same)

  module _ (as_string : K → Option (List ℕ)) where
    same_policy :
        (victim : Victim K) (o : Option (Entry K V)) (c : Cache K V)
        → (after_evict as_string victim o c).policy ≡ c.policy
    same_policy victim none c = refl
    same_policy victim (some e) c = refl

    -- what evictVictim leaves alone
    abbrev pub Leaves : Cache K V → Cache K V → Type 0
    Leaves c c' = (c'.closed ≡ c.closed) × (c'.write_buffer ≡ c.write_buffer)

    after_evict-Leaves :
        (victim : Victim K) (o : Option (Entry K V)) (c : Cache K V)
        → Leaves c (after_evict as_string victim o c)
    after_evict-Leaves victim none c = (refl, refl)
    after_evict-Leaves victim (some e) c = (refl, refl)

    evict_victim-Leaves : (c : Cache K V) (v : Victim K) → Leaves c (evict_victim as_string dec c v)
    unfolding evict_victim
    evict_victim-Leaves c v = after_evict-Leaves v (delete_by_hash dec c.store v.key v.key_hash).0 c

    pub evict_victims-Leaves :
        (vs : List (Victim K)) (c : Cache K V) → Leaves c (evict_victims as_string dec vs c)
    unfolding evict_victims
    evict_victims-Leaves [] c = (refl, refl)
    evict_victims-Leaves (v ∷ vs) c =
        let rest = evict_victims-Leaves vs (evict_victim as_string dec c v) in
        let first = evict_victim-Leaves c v in (rest.0 ∙ first.0, rest.1 ∙ first.1)

    evict_victim-policy :
        (c : Cache K V) (v : Victim K) → (evict_victim as_string dec c v).policy ≡ c.policy
    unfolding evict_victim
    evict_victim-policy c v = same_policy v (delete_by_hash dec c.store v.key v.key_hash).0 c

    pub evict_victims_same :
        (vs : List (Victim K)) (c : Cache K V)
        → (evict_victims as_string dec vs c).policy ≡ c.policy
    unfolding evict_victims
    evict_victims_same [] c = refl
    evict_victims_same (v ∷ vs) c =
        evict_victims_same vs (evict_victim as_string dec c v) ∙ evict_victim-policy c v

    evict_victim-Changed :
        (c : Cache K V) (v : Victim K)
        → StoreInv.IsValid dec hasher c.store
        → v.key_hash ≡ hasher v.key
        → Changed dec hasher v.key none c.store (evict_victim as_string dec c v).store
    unfolding evict_victim
    evict_victim-Changed c v valid own =
        let (same, _, changed) = delete-Changed dec hasher c.store valid v.key in
        let by_hash = ap (delete_by_hash dec c.store v.key) own ∙ same in
        subst (λ o. Changed dec hasher v.key none c.store o.1) (sym by_hash) changed

    first_gone :
        (v : Victim K) (vs : List (Victim K)) (s s₁ s₂ : ShardedStore K V) (k : K)
        → Changed dec hasher v.key none s s₁
        → Cleared vs s₁ s₂
        → (v.key ≡ k) ⊎ Evicts vs k
        → entry_of dec hasher s₂ k ≡ none
    first_gone v vs s s₁ s₂ k d c (inr m) = c.gone k m
    first_gone v vs s s₁ s₂ k d c (inl e) =
        stays vs s₁ s₂ k c (d.entries k ∙ if_pos (dec v.key k) e _ _) (evicts? dec vs k)

    pub evict_victims-Cleared :
        (vs : List (Victim K)) (c : Cache K V)
        → StoreInv.IsValid dec hasher c.store
        → Hashed hasher vs
        → Cleared vs c.store (evict_victims as_string dec vs c).store
    unfolding evict_victims
    evict_victims-Cleared [] c valid h = Cleared-none c.store valid
    evict_victims-Cleared (v ∷ vs) c valid h =
        let first = evict_victim-Changed c v valid h.0 in
        let c₁ = evict_victim as_string dec c v in
        let rest = evict_victims-Cleared vs c₁ first.valid h.1 in
        record {
          valid = rest.valid;
          gone = λ k m.
              first_gone v vs c.store c₁.store (evict_victims as_string dec vs c₁).store k first
                rest m;
          kept = λ k n.
              rest.kept k (λ m. n (inr m))
              ∙ first.entries k
              ∙ if_neg (dec v.key k) (λ e. n (inl e)) _ _;
        }
