-- ===== src/Cache/Setting.antt =====
-- cache.go: setSync against the map from keys to entries.
use std.Path.{subst}
use go_mcache.Base.{
  ℕ, ◌≡◌, ◌<◌, ◌^◌, refl, sym, ap, ◌∙◌, inl, inr, ◌⊎◌, ◌≢◌, Bool, true, Option, none, some, List,
  arith, if_pos, if_neg, Bool-cases, length,
}
use go_mcache.Base.Assoc.{find}
use go_mcache.Policy.Sampled
use go_mcache.Policy.Sampled.{TrackedItem, SampledLfu, Victim, ◌>>=◌}
use go_mcache.Policy.Combined
use go_mcache.Policy.Combined.{Policy}
use go_mcache.Policy.Combined.Victims.{Evicts}
use go_mcache.Policy.Combined.Add.{Added, add-Added}
use go_mcache.Policy.Combined.Chosen.{When, When-bind, When_of, Adds, add-Adds}
use go_mcache.Store.Sharded.{Entry, ShardedStore, set_entry}
use go_mcache.Store.Sharded.Inv.{Changed, entry_of}
use go_mcache.Store.Sharded.Map.{set_entry-Changed}
use go_mcache.Cache.{evict_victims, store_entry, do_set}
use go_mcache.Cache.State.{Cache}
use go_mcache.Cache.Inv.{Mirrors, IsValid, item_of, evicts?, with_hash_own}
use go_mcache.Cache.Evicting.{
  Cleared, Hashed, tracked-Hashed, evict_victims_same, evict_victims-Leaves, evict_victims-Cleared,
}

answered :
    {A B : Type 0} (o : Option A) (a : A)
    → o ≡ some a
    → (f : A → B) → (b : B) × ((o >>= λ x. some (f x)) ≡ some b)
answered o a e f = (f a, ap (λ o. o >>= λ x. some (f x)) e)

module _ {K V : Type 0} (dec : Discrete K) (hasher : K → ℕ) where
  -- the key holds the entry, and another key what it held, unless it was evicted when that was due
  pub record Sets (c : Cache K V) (entry : Entry K V) (c' : Cache K V) : Type 0 where
    pub valid : IsValid dec hasher c'
    pub holds : entry_of dec hasher c'.store entry.key ≡ some entry
    pub same_closed : c'.closed ≡ c.closed
    pub same_buffer : c'.write_buffer ≡ c.write_buffer
    pub others :
        (k : K)
        → entry.key ≢ k
        → (entry_of dec hasher c'.store k ≡ entry_of dec hasher c.store k)
          ⊎ ((entry_of dec hasher c'.store k ≡ none)
              × (Sampled.needs_eviction c.policy.evict ≡ true))

  module _ (p p' : Policy K) (s s₁ s₂ : ShardedStore K V) (entry : Entry K V) (vs : List (Victim K))
      (m : Mirrors dec hasher s p.evict)
      (a : Added dec p entry.key (record { key_hash = entry.key_hash; cost = entry.cost }) vs p')
      (cl : Cleared dec hasher vs s s₁) (ch : Changed dec hasher entry.key (some entry) s₁ s₂) where
    at_key : entry_of dec hasher s₂ entry.key ≡ some entry
    at_key = ch.entries entry.key ∙ if_pos (dec entry.key entry.key) refl _ _

    at_victim : (k : K) → entry.key ≢ k → Evicts vs k → entry_of dec hasher s₂ k ≡ none
    at_victim k other e = ch.entries k ∙ if_neg (dec entry.key k) other _ _ ∙ cl.gone k e

    at_other :
        (k : K) → entry.key ≢ k → ¬ Evicts vs k → entry_of dec hasher s₂ k ≡ entry_of dec hasher s k
    at_other k other n = ch.entries k ∙ if_neg (dec entry.key k) other _ _ ∙ cl.kept k n

    was_due : (k : K) → Evicts vs k → Sampled.needs_eviction p.evict ≡ true
    was_due k e = elim (Bool-cases (Sampled.needs_eviction p.evict)) [
      | inl t ↦ t
      | inr f ↦ absurd (subst (λ vs. Evicts vs k) (a.no_needless_victim f) e)
    ]

    set-Mirrors : entry.cost < 2 ^ 64 → Mirrors dec hasher s₂ p'.evict
    set-Mirrors cheap = record {
      store_valid = ch.valid;
      policy_valid = a.valid;
      mirrored = λ k. elim (dec entry.key k) [
        | yes e ↦
            subst (λ k. find dec k p'.evict.costs ≡ item_of (entry_of dec hasher s₂ k)) e
              (a.tracked ∙ sym (ap item_of at_key))
        | no n ↦ elim (evicts? dec vs k) [
          | inl e ↦ (a.evicted k e).0 ∙ sym (ap item_of (at_victim k n e))
          | inr ne ↦ a.others k n ne ∙ m.mirrored k ∙ sym (ap item_of (at_other k n ne))
        ]
      ];
      priced = λ k e h. elim (dec entry.key k) [
        | yes same ↦
            let held : entry_of dec hasher s₂ k ≡ some entry =
              subst (λ k. entry_of dec hasher s₂ k ≡ some entry) same at_key in
            ground (arith, held, h, cheap)
        | no n ↦ elim (evicts? dec vs k) [
          | inl v ↦ absurd (ground (arith, at_victim k n v, h))
          | inr nv ↦ m.priced k e (sym (at_other k n nv) ∙ h)
        ]
      ];
    }

  module _ (as_string : K → Option (List ℕ)) (zero_key : K) where
    stored-Sets :
        (c : Cache K V) (entry : Entry K V) (vs : List (Victim K)) (p' : Policy K)
        → IsValid dec hasher c
        → entry.key_hash ≡ hasher entry.key
        → entry.cost < 2 ^ 64
        → Hashed hasher vs
        → Added dec c.policy entry.key
            (record { key_hash = entry.key_hash; cost = entry.cost })
            vs
            p'
        → Sets c entry (
            store_entry as_string dec hasher zero_key entry
              (evict_victims as_string dec vs (record c { policy = p' })))
    unfolding store_entry
    stored-Sets c entry vs p' m own cheap hashed a =
        let c' = record c { policy = p' } in
        let c₁ = evict_victims as_string dec vs c' in
        let cl = evict_victims-Cleared dec hasher as_string vs c' m.store_valid hashed in
        let ch =
          subst
            (λ e.
              Changed dec hasher entry.key (some e) c₁.store
                (set_entry dec hasher c₁.store entry).1)
            (with_hash_own dec hasher entry own)
            (set_entry-Changed dec hasher c₁.store cl.valid entry (inr own)).1 in
        let s₂ = (set_entry dec hasher c₁.store entry).1 in
        record {
          valid =
              subst (λ (q : Policy K). Mirrors dec hasher s₂ q.evict)
                (sym (evict_victims_same dec hasher as_string vs c'))
                (set-Mirrors c.policy p' c.store c₁.store s₂ entry vs m a cl ch cheap);
          holds = at_key c.policy p' c.store c₁.store s₂ entry vs m a cl ch;
          same_closed = (evict_victims-Leaves dec hasher as_string vs c').0;
          same_buffer = (evict_victims-Leaves dec hasher as_string vs c').1;
          others = λ k other. elim (evicts? dec vs k) [
            | inl e ↦ inr (
              at_victim c.policy p' c.store c₁.store s₂ entry vs m a cl ch k other e,
              was_due c.policy p' c.store c₁.store s₂ entry vs m a cl ch k e,
            )
            | inr n ↦ inl (at_other c.policy p' c.store c₁.store s₂ entry vs m a cl ch k other n)
          ];
        }

    pub do_set-Sets :
        (draws : ℕ → List ℕ) (c : Cache K V) (entry : Entry K V)
        → IsValid dec hasher c
        → entry.key_hash ≡ hasher entry.key
        → entry.cost < 2 ^ 64
        → When
            (λ r. (r.0 ≡ true) × Sets c entry r.1)
            (do_set as_string dec hasher zero_key draws c entry)
    unfolding do_set
    do_set-Sets draws c entry m own cheap =
        let o = Combined.add dec zero_key draws c.policy entry.key entry.key_hash entry.cost in
        When-bind (λ (r : Bool × Cache K V). (r.0 ≡ true) × Sets c entry r.1) o _
          (λ r e.
            let (added, a, known) =
              When_of (Adds dec zero_key draws c.policy entry.key entry.key_hash entry.cost) o r
                (add-Adds dec zero_key draws c.policy entry.key entry.key_hash entry.cost
                  m.policy_valid)
                e in
            rw added (
              refl,
              stored-Sets c entry r.0 r.2 m own cheap
                  (tracked-Hashed dec hasher c.store c.policy.evict m r.0 known) a,
            ))

    -- with few keys doSet answers
    pub do_set_answers :
        (draws : ℕ → List ℕ) (c : Cache K V) (entry : Entry K V)
        → IsValid dec hasher c
        → length c.policy.evict.keys < 100
        → (r : Bool × Cache K V) × (do_set as_string dec hasher zero_key draws c entry ≡ some r)
    unfolding do_set
    do_set_answers draws c entry m small =
        let (vs, p', e, _) =
          add-Added dec zero_key draws c.policy entry.key entry.key_hash entry.cost m.policy_valid
            small in
        answered (Combined.add dec zero_key draws c.policy entry.key entry.key_hash entry.cost)
          (vs, true, p') e _
