-- ===== src/Cache/Ready.antt =====
-- cache.go: writes, waiting or not, keep a cache ready.
use std.Path.{subst}
use go_mcache.Base.{
  ℕ, zero, suc, ◌≡◌, ◌<◌, ◌^◌, refl, sym, Bool, true, false, Option, none, some, List, [], ◌∷◌,
  ◌++◌, arith, All, All-append, if◌then◌else◌, take, drop,
}
use go_mcache.Policy.Combined
use go_mcache.Policy.Combined.Chosen.{When, When-map}
use go_mcache.Cache.{set_sync, do_delete}
use go_mcache.Cache.Calls.{
  set_with_cost, delete, has_room, effective_cost, expiration, process_read_batch, flush_reads,
  process_write_batch, flush_batch, flush_writes,
}
use go_mcache.Cache.Counters.{inc_buffer_drop}
use go_mcache.Cache.State.{WriteItem, Cache}
use go_mcache.Cache.Inv.{IsValid}
use go_mcache.Cache.Setting.{Sets}
use go_mcache.Cache.Updating.{wanted, set_sync-Sets}
use go_mcache.Cache.Removing.{do_delete-Removes}
use go_mcache.Cache.Order.{IsOwn, Keeps, batch-Keeps}

-- a statement about either branch of a test, and about either case of an Option
pub on_if :
    {A : Type 0} (P : A → Type 0) (b : Bool) (x y : A)
    → (b ≡ true → P x)
    → (b ≡ false → P y)
    → P (if b then x else y)
on_if P true x y f g = f refl
on_if P false x y f g = g refl

pub on_option :
    {A B : Type 0} (P : B → Type 0) (o : Option A) (x : B) (f : A → B)
    → (o ≡ none → P x)
    → ((a : A) → o ≡ some a → P (f a))
    → P (elim o [ none ↦ x | some a ↦ f a ])
on_option P none x f g h = g refl
on_option P (some a) x f g h = h a refl

module _ {K V : Type 0} (dec : Discrete K) (hasher : K → ℕ) (as_string : K → Option (List ℕ))
    (zero_key : K) where
  abbrev pub AreOwn : Option (List (WriteItem K V)) → Type 0
  AreOwn none = Unit
  AreOwn (some items) = All (IsOwn dec hasher as_string zero_key) items

  -- store and policy are in step, and the writes that wait carry their keys' hashes and 64-bit costs
  pub record IsReady (c : Cache K V) : Type 0 where
    pub valid : IsValid dec hasher c
    pub own : AreOwn c.write_buffer

  set_sync-IsReady :
      (draws : ℕ → List ℕ) (c : Cache K V) (key : K) (value : V) (cost until : ℕ)
      → IsReady c
      → cost < 2 ^ 64
      → When
          (λ (r : Bool × Cache K V). IsReady r.1)
          (set_sync as_string dec hasher zero_key draws c key value (hasher key) cost until)
  set_sync-IsReady draws c key value cost until ready cheap =
      When-map
        (λ (r : Bool × Cache K V).
          (r.0 ≡ true)
          × Sets dec hasher c
              (wanted dec hasher as_string zero_key c key value cost until ready.valid) r.1)
        (λ (r : Bool × Cache K V). IsReady r.1)
        (set_sync as_string dec hasher zero_key draws c key value (hasher key) cost until)
        (λ r (done, s). record {
          valid = s.valid;
          own = subst AreOwn (sym s.same_buffer) ready.own;
        })
        (set_sync-Sets dec hasher as_string zero_key c key value cost until ready.valid draws
          cheap).0

  -- one more write waits
  queued :
      (c : Cache K V) (pending : List (WriteItem K V)) (item : WriteItem K V)
      → IsReady c
      → c.write_buffer ≡ some pending
      → IsOwn dec hasher as_string zero_key item
      → All (IsOwn dec hasher as_string zero_key) (pending ++ item ∷ [])
  queued c pending item ready at own =
      All-append (IsOwn dec hasher as_string zero_key) pending (item ∷ [])
        (subst AreOwn at ready.own) (own, tt)

  pub set_with_cost-IsReady :
      (draws : ℕ → List ℕ) (c : Cache K V) (now : ℕ) (key : K) (value : V) (cost ttl : ℕ)
      → IsReady c
      → effective_cost c.config value cost < 2 ^ 64
      → When
          (λ (r : Bool × Cache K V). IsReady r.1)
          (set_with_cost dec hasher as_string zero_key draws c now key value cost ttl)
  unfolding set_with_cost
  set_with_cost-IsReady draws c now key value cost ttl ready cheap =
      let cost' = effective_cost c.config value cost in
      let until = expiration c.config now ttl in
      let P = λ (r : Bool × Cache K V). IsReady r.1 in
      on_if (When P) c.closed _ _ (λ _. ready)
        (λ _.
          on_option (When P) c.write_buffer _ _
            (λ n. set_sync-IsReady draws c key value cost' until ready cheap)
            (λ pending n.
              on_if (When P) (has_room c.config pending) _ _
                (λ room. record {
                  valid = ready.valid;
                  own = queued c pending _ ready n (refl, cheap);
                })
                (λ full.
                  set_sync-IsReady draws (record c { metrics = inc_buffer_drop c.metrics }) key
                    value cost' until (record { valid = ready.valid; own = ready.own }) cheap)))

  do_delete-IsReady :
      (c : Cache K V) (key : K)
      → IsReady c
      → When
          (λ (r : Bool × Cache K V). IsReady r.1)
          (do_delete as_string dec hasher zero_key c key (hasher key))
  do_delete-IsReady c key ready =
      let (c', ends, r) = do_delete-Removes dec hasher as_string zero_key c key ready.valid in
      subst (When (λ (r : Bool × Cache K V). IsReady r.1)) (sym ends)
        (record { valid = r.valid; own = subst AreOwn (sym r.same_buffer) ready.own })

  pub delete-IsReady :
      (c : Cache K V) (zero_value : V) (key : K)
      → IsReady c
      → When
          (λ (r : Bool × Cache K V). IsReady r.1)
          (delete dec hasher as_string zero_key c zero_value key)
  unfolding delete
  delete-IsReady c zero_value key ready =
      let P = λ (r : Bool × Cache K V). IsReady r.1 in
      on_if (When P) c.closed _ _ (λ _. ready)
        (λ _.
          on_option (When P) c.write_buffer _ _ (λ n. do_delete-IsReady c key ready)
            (λ pending n.
              on_if (When P) (has_room c.config pending) _ _
                (λ room. record {
                  valid = ready.valid;
                  own = queued c pending _ ready n (refl, omega arith);
                })
                (λ full.
                  do_delete-IsReady (record c { metrics = inc_buffer_drop c.metrics }) key
                    (record { valid = ready.valid; own = ready.own }))))

  part :
      (items : List (WriteItem K V)) (n : ℕ)
      → All (IsOwn dec hasher as_string zero_key) items
      → All (IsOwn dec hasher as_string zero_key) (take n items)
        × All (IsOwn dec hasher as_string zero_key) (drop n items)
  part items zero own = (tt, own)
  part [] (suc n) own = (tt, tt)
  part (i ∷ items) (suc n) own = let r = part items n own.1 in ((own.0, r.0), r.1)

  -- a batch of the writes that wait, with the rest of them
  batch-IsReady :
      (draws : ℕ → ℕ → List ℕ) (c : Cache K V) (items rest : List (WriteItem K V))
      → IsValid dec hasher c
      → All (IsOwn dec hasher as_string zero_key) items
      → All (IsOwn dec hasher as_string zero_key) rest
      → When IsReady (
          process_write_batch dec hasher as_string zero_key draws items
            (record c { write_buffer = some rest }))
  batch-IsReady draws c items rest valid owns own =
      let c' = record c { write_buffer = some rest } in
      When-map (Keeps dec hasher as_string zero_key c') IsReady
        (process_write_batch dec hasher as_string zero_key draws items c')
        (λ c'' k. record { valid = k.0; own = subst AreOwn (sym k.1) own })
        (batch-Keeps dec hasher as_string zero_key draws items c' valid owns)

  pub flush_batch-IsReady :
      (draws : ℕ → ℕ → List ℕ) (c : Cache K V)
      → IsReady c
      → When IsReady (flush_batch dec hasher as_string zero_key draws c)
  unfolding flush_batch
  flush_batch-IsReady draws c ready =
      on_option (When IsReady) c.write_buffer _ _ (λ n. ready)
        (λ items n.
          let both = part items c.config.buffer_items (subst AreOwn n ready.own) in
          batch-IsReady draws c (take c.config.buffer_items items)
            (drop c.config.buffer_items items) ready.valid both.0 both.1)

  pub flush_writes-IsReady :
      (draws : ℕ → ℕ → List ℕ) (c : Cache K V)
      → IsReady c
      → When IsReady (flush_writes dec hasher as_string zero_key draws c)
  unfolding flush_writes
  flush_writes-IsReady draws c ready =
      on_option (When IsReady) c.write_buffer _ _ (λ n. ready)
        (λ items n. batch-IsReady draws c items [] ready.valid (subst AreOwn n ready.own) tt)

  process_read_batch-IsReady :
      (c : Cache K V) (hashes : List ℕ) → IsReady c → IsReady (process_read_batch c hashes)
  unfolding process_read_batch Combined.access
  process_read_batch-IsReady c [] ready = ready
  process_read_batch-IsReady c (h ∷ hashes) ready =
      process_read_batch-IsReady (record c { policy = Combined.access c.policy h }) hashes
        (record { valid = ready.valid; own = ready.own })

  pub flush_reads-IsReady : (c : Cache K V) → IsReady c → IsReady (flush_reads c)
  unfolding flush_reads
  flush_reads-IsReady c ready =
      on_option IsReady c.read_buffer _ _ (λ n. ready)
        (λ hashes n.
          process_read_batch-IsReady (record c { read_buffer = some [] }) hashes
            (record { valid = ready.valid; own = ready.own }))
