-- ===== src/Cache/Buffered.antt =====
-- cache.go: writes through the write buffer, and their order.

use go_mcache.Base.{
  ℕ, suc, ◌≡◌, refl, sym, ◌∙◌, Bool, true, false, Option, none, some, List, [], ◌∷◌, ◌++◌, length,
}
use go_mcache.Policy.Sampled.{◌>>=◌}
use go_mcache.Cache.{set_sync}
use go_mcache.Cache.Calls.{
  set_with_cost, has_room, effective_cost, expiration, process_write, process_write_batch,
  flush_writes,
}
use go_mcache.Cache.State.{WriteItem, Cache}

-- a chain within a chain
bind_assoc :
    {A B C : Type 0} (o : Option A) (f : A → Option B) (g : B → Option C)
    → ((o >>= f) >>= g) ≡ (o >>= λ a. f a >>= g)
bind_assoc none f g = refl
bind_assoc (some a) f g = refl

bind_same :
    {A B : Type 0} (o : Option A) (f g : A → Option B)
    → ((a : A) → f a ≡ g a)
    → (o >>= f) ≡ (o >>= g)
bind_same none f g h = refl
bind_same (some a) f g h = h a

bind_some : {A : Type 0} (o : Option A) → (o >>= λ a. some a) ≡ o
bind_some none = refl
bind_some (some a) = refl

module _ {K V : Type 0} (dec : Discrete K) (hasher : K → ℕ) (as_string : K → Option (List ℕ))
    (zero_key : K) where
  pub process_one :
      (draws : ℕ → ℕ → List ℕ) (items : List (WriteItem K V)) (item : WriteItem K V) (c : Cache K V)
      → process_write_batch dec hasher as_string zero_key draws (items ++ item ∷ []) c ≡ (
          process_write_batch dec hasher as_string zero_key draws items c >>= λ c'.
          process_write dec hasher as_string zero_key (draws (length items)) c' item)
  unfolding process_write_batch
  process_one draws [] item c =
      bind_some (process_write dec hasher as_string zero_key (draws 0) c item)
  process_one draws (i ∷ items) item c =
      bind_same (process_write dec hasher as_string zero_key (draws 0) c i) _ _
        (λ c'. process_one (λ n. draws (suc n)) items item c')
      ∙ sym (
          bind_assoc (process_write dec hasher as_string zero_key (draws 0) c i)
            (λ c'. process_write_batch dec hasher as_string zero_key (λ n. draws (suc n)) items c')
            (λ c'.
              process_write dec hasher as_string zero_key (draws (suc (length items))) c' item))

  -- A Set of a running cache whose write buffer has room answers true, and FlushSync after it does what FlushSync without it does,
  -- and then the Set's setSync with the expiration of the time of the call.
  pub flush_writes-set_with_cost :
      (draws : ℕ → ℕ → List ℕ) (own : ℕ → List ℕ) (c : Cache K V) (pending : List (WriteItem K V))
      (now : ℕ) (key : K) (value : V) (cost ttl : ℕ)
      → c.closed ≡ false
      → c.write_buffer ≡ some pending
      → has_room c.config pending ≡ true
      → (r : Bool × Cache K V) × (set_with_cost dec hasher as_string zero_key own c now key value
            cost ttl
          ≡ some r)
        × (r.0 ≡ true)
        × (flush_writes dec hasher as_string zero_key draws r.1 ≡ (
            flush_writes dec hasher as_string zero_key draws c >>= λ c'.
            set_sync as_string dec hasher zero_key
              (draws (length pending))
              c'
              key
              value
              (hasher key)
              (effective_cost c.config value cost)
              (expiration c.config now ttl)
            >>= λ r. some r.1))
  unfolding set_with_cost flush_writes process_write
  flush_writes-set_with_cost draws own c pending now key value cost ttl running buffered room =
      let item : WriteItem K V = record {
        entry = record {
          key = key;
          value = value;
          key_hash = hasher key;
          expire_at = expiration c.config now ttl;
          cost = effective_cost c.config value cost;
        };
        is_set = true;
      } in
      (
        (true, record c { write_buffer = some (pending ++ item ∷ []) }),
        simp (running, buffered, room) refl,
        refl,
        rw buffered (process_one draws pending item (record c { write_buffer = some [] })),
      )
