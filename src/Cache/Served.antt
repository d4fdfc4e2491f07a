-- ===== src/Cache/Served.antt =====
-- cache.go: GetBatch and GetBatchToMap, beside Get for one key after the other.
use go_mcache.Base.{
  ℕ, ◌≡◌, refl, ap, ◌∙◌, inl, inr, Bool, true, false, List, [], ◌∷◌, Option, none, some,
  Option-cases, Bool-cases, arith, ltb, length, length-map, map, replicate, ◌==◌, if◌then◌else◌,
}
use go_mcache.Base.Assoc.{put}
use go_mcache.Store.Sharded.{Entry, ShardedStore, get_by_hash}
use go_mcache.Store.Sharded.Batch.{BatchRequest, fill_results, fill_found}
use go_mcache.Store.Sharded.Batch as Stored
use go_mcache.Cache.Calls.{should_track_access, record_access, get, get_many}
use go_mcache.Cache.Batch.{copy_results, get_batch, collect_found, get_batch_to_map}
use go_mcache.Cache.Counters.{inc_hit, inc_miss}
use go_mcache.Cache.State.{Cache}

module _ {K V : Type 0} where
  module _ (dec : Discrete K) (hasher : K → ℕ) where
    abbrev with_answer :
        V → Option V → (List V × List Bool) × Cache K V → (List V × List Bool) × Cache K V
    with_answer zero_value none ((values, found), c) = ((zero_value ∷ values, false ∷ found), c)
    with_answer zero_value (some v) ((values, found), c) = ((v ∷ values, true ∷ found), c)

    -- Get for one key after the other: what it answers, and the cache after them
    unfoldable pub served : V → ℕ → List K → Cache K V → (List V × List Bool) × Cache K V
    served zero_value now [] c = (([], []), c)
    served zero_value now (key ∷ keys) c =
        let out = get dec hasher c now key in
        with_answer zero_value out.0 (served zero_value now keys out.1)

    pub record_access_stays :
        (c : Cache K V) (h : ℕ)
        → ((record_access c h).store ≡ c.store) × ((record_access c h).closed ≡ c.closed)
    unfolding record_access
    record_access_stays c h = elim (Bool-cases (should_track_access c)) [
      | inr e ↦ rw e (refl, refl)
      | inl e ↦ elim (Option-cases c.read_buffer) [
        | inl n ↦ rw (e, n) (refl, refl)
        | inr (q, n) ↦ rw (e, n) (refl, refl)
      ]
    ]

    module _ (c : Cache K V) (now : ℕ) (key : K) (keys : List K) (running : c.closed ≡ false) where
      get_missed :
          get_by_hash dec c.store now key (hasher key) ≡ none
          → get dec hasher c now key ≡ (none, record c { metrics = inc_miss c.metrics })
      unfolding get
      get_missed missed = simp (running, missed)

      get_hit :
          (e : Entry K V)
          → get_by_hash dec c.store now key (hasher key) ≡ some e
          → let c' = record_access c (hasher key) in
            get dec hasher c now key ≡ (some e.value, record c' { metrics = inc_hit c'.metrics })
      unfolding get
      get_hit e hit = simp (running, hit)

      pub served_missed :
          (zero_value : V)
          → get_by_hash dec c.store now key (hasher key) ≡ none
          → let r = served zero_value now keys (record c { metrics = inc_miss c.metrics }) in
            served zero_value now (key ∷ keys) c ≡ ((zero_value ∷ r.0.0, false ∷ r.0.1), r.1)
      unfolding served
      served_missed zero_value missed =
          ap (λ o. with_answer zero_value o.0 (served zero_value now keys o.1)) (get_missed missed)

      pub served_hit :
          (zero_value : V) (e : Entry K V)
          → get_by_hash dec c.store now key (hasher key) ≡ some e
          → let c' = record_access c (hasher key) in
            let r = served zero_value now keys (record c' { metrics = inc_hit c'.metrics }) in
            served zero_value now (key ∷ keys) c ≡ ((e.value ∷ r.0.0, true ∷ r.0.1), r.1)
      unfolding served
      served_hit zero_value e hit =
          ap (λ o. with_answer zero_value o.0 (served zero_value now keys o.1)) (get_hit e hit)

    copied_served :
        (zero_value : V) (s : ShardedStore K V) (now : ℕ) (keys : List K) (c : Cache K V)
        → c.store ≡ s
        → c.closed ≡ false
        → copy_results zero_value
            (map hasher keys)
            (fill_found dec hasher s now keys (map hasher keys) (replicate (length keys) false))
            (fill_results dec hasher s now keys (map hasher keys) (replicate (length keys) none))
            c
          ≡ some (served zero_value now keys c)
    unfolding copy_results fill_found fill_results Stored.is_found
    copied_served zero_value s now [] c at running = unfold served in refl
    copied_served zero_value s now (key ∷ keys) c at running =
        let here : (r : Option (Entry K V))
            → get_by_hash dec s now key (hasher key) ≡ r
            → get_by_hash dec c.store now key (hasher key) ≡ r =
          λ r e. ap (λ t. get_by_hash dec t now key (hasher key)) at ∙ e in
        elim (Option-cases (get_by_hash dec s now key (hasher key))) [
          | inl missed ↦
              let ih =
                copied_served zero_value s now keys (record c { metrics = inc_miss c.metrics }) at
                  running in
              let answer = served_missed c now key keys running zero_value (here none missed) in
              rw (missed, answer, ih) refl
          | inr (e, hit) ↦
              let c' = record_access c (hasher key) in
              let (same, still) = record_access_stays c (hasher key) in
              let ih =
                copied_served zero_value s now keys (record c' { metrics = inc_hit c'.metrics })
                  (same ∙ at) (still ∙ running) in
              let answer = served_hit c now key keys running zero_value e (here (some e) hit) in
              rw (hit, answer, ih) refl
        ]

    abbrev whole_request : List K → BatchRequest K V
    whole_request keys = record {
      batch_keys = keys;
      hashes = map hasher keys;
      results = [];
      found = [];
    }

    copied_batch :
        (zero_value : V) (c : Cache K V) (now : ℕ) (keys : List K)
        → c.closed ≡ false
        → let out = Stored.get_batch dec hasher c.store now (whole_request keys) in
          copy_results zero_value (map hasher keys) out.found out.results c
          ≡ some (served zero_value now keys c)
    unfolding Stored.get_batch
    copied_batch zero_value c now [] running = unfold copy_results in unfold served in refl
    copied_batch zero_value c now (k ∷ ks) running =
        let same_length : ltb (length (map hasher (k ∷ ks))) (length (k ∷ ks)) ≡ false =
          rw (length-map hasher ks) (ground arith) in
        let some_keys : (length (k ∷ ks) == 0) ≡ false = ground arith in
        let longer : ltb 0 (length (k ∷ ks)) ≡ true = ground arith in
        rw (same_length, some_keys, longer)
          (copied_served zero_value c.store now (k ∷ ks) c refl running)

    -- GetBatch of a cache that is not closed does not panic: it answers for the keys, in their order, what a
    -- Get for each of them in turn answers, and leaves the cache that they leave.
    pub get_batch-get :
        (zero_value : V) (c : Cache K V) (now : ℕ) (keys : List K)
        → c.closed ≡ false
        → let r = served zero_value now keys c in
          get_batch dec hasher zero_value c now keys
          ≡ some (
            record { batch_keys = keys; values = r.0.0; found = r.0.1; hashes = map hasher keys },
            r.1,
          )
    unfolding get_batch
    get_batch-get zero_value c now keys running =
        simp (running, copied_batch zero_value c now keys running)

    collected_many :
        (zero_value : V) (now : ℕ) (keys : List K) (result : List (K × V)) (c : Cache K V)
        → let r = served zero_value now keys c in
          let m = get_many dec hasher (λ _. now) keys result c in
          (collect_found dec hasher keys r.0.0 r.0.1 result ≡ some m.0) × (r.1 ≡ m.1)
    unfolding collect_found served get_many
    collected_many zero_value now [] result c = (refl, refl)
    collected_many zero_value now (key ∷ keys) result c =
        by_answer (collected_many zero_value now keys) (get dec hasher c now key)
      where
        Collects :
            List K
            → List (K × V)
            → (List V × List Bool) × Cache K V
            → List (K × V) × Cache K V
            → Type 0
        Collects ks so_far r m =
            (collect_found dec hasher ks r.0.0 r.0.1 so_far ≡ some m.0) × (r.1 ≡ m.1)

        by_answer :
            ((so_far : List (K × V)) (c' : Cache K V)
              → Collects keys so_far
                  (served zero_value now keys c')
                  (get_many dec hasher (λ _. now) keys so_far c'))
            → (o : Option V × Cache K V)
            → Collects
                (key ∷ keys)
                result
                (with_answer zero_value o.0 (served zero_value now keys o.1))
                (get_many dec hasher
                  (λ _. now)
                  keys
                  (elim o.0 [ some v ↦ put dec key v result | none ↦ result ])
                  o.1)
        by_answer ih (none, c') = ih result c'
        by_answer ih (some v, c') = ih (put dec key v result) c'

    running_to_map :
        (zero_value : V) (c : Cache K V) (now : ℕ) (keys : List K)
        → c.closed ≡ false
        → get_batch_to_map dec hasher zero_value c now keys
          ≡ some (get_many dec hasher (λ _. now) keys [] c)
    unfolding get_batch_to_map
    running_to_map zero_value c now keys running =
        let (map_same, cache_same) = collected_many zero_value now keys [] c in
        rw (get_batch-get zero_value c now keys running, map_same, cache_same) refl

    closed_to_map :
        (zero_value : V) (c : Cache K V) (now : ℕ) (keys : List K)
        → c.closed ≡ true
        → get_batch_to_map dec hasher zero_value c now keys
          ≡ elim keys as (λ x. Option (List (K × V) × Cache K V)) [
            | [] ↦ some ([], c)
            | k ∷ ks ↦ none
          ]
    unfolding get_batch_to_map get_batch collect_found
    closed_to_map zero_value c now [] shut = simp shut
    closed_to_map zero_value c now (k ∷ ks) shut = simp shut

    -- GetBatchToMap of a cache that is not closed answers the map that GetMany answers when all its Gets read the same
    -- time, and leaves the same cache. Of a closed cache it answers the empty map when there are no keys, and panics
    -- when there are.
    pub get_batch_to_map-get_many :
        (zero_value : V) (c : Cache K V) (now : ℕ) (keys : List K)
        → get_batch_to_map dec hasher zero_value c now keys ≡ (
            if c.closed
            then elim keys [ [] ↦ some ([], c) | k ∷ ks ↦ none ]
            else some (get_many dec hasher (λ _. now) keys [] c))
    get_batch_to_map-get_many zero_value c now keys = by_closed c.closed refl
      where
        by_closed :
            (b : Bool)
            → c.closed ≡ b
            → get_batch_to_map dec hasher zero_value c now keys ≡ (
                if b
                then elim keys as (λ x. Option (List (K × V) × Cache K V)) [
                  | [] ↦ some ([], c)
                  | k ∷ ks ↦ none
                ]
                else some (get_many dec hasher (λ _. now) keys [] c))
        by_closed true shut = closed_to_map zero_value c now keys shut
        by_closed false running = running_to_map zero_value c now keys running
