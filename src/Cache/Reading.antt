-- ===== src/Cache/Reading.antt =====
-- cache.go: Get, and Get after SetWithCost.
use std.Path.{subst}
use go_mcache.Base.{
  ℕ, ◌≡◌, ◌<◌, ◌^◌, refl, sym, ap, ◌∙◌, inl, inr, Bool, true, false, ◌&&◌, Option, none, some, List,
  Bool-cases, Option-cases, if◌then◌else◌, length,
}
use go_mcache.Base.Word.{slt}
use go_mcache.Policy.Combined
use go_mcache.Policy.Combined.Chosen.{When, When-map}
use go_mcache.Store.Sharded.{Entry, is_expired, get_by_hash}
use go_mcache.Store.Sharded.Inv.{entry_of}
use go_mcache.Store.Sharded.Map.{get_lem}
use go_mcache.Cache.{set_sync}
use go_mcache.Cache.Calls.{
  should_track_access, record_access, get, set_with_cost, effective_cost, expiration,
}
use go_mcache.Cache.State.{Cache}
use go_mcache.Cache.Inv.{Mirrors, IsValid}
use go_mcache.Cache.Setting.{Sets}
use go_mcache.Cache.Updating.{set_sync-Sets}

module _ {K V : Type 0} (dec : Discrete K) (hasher : K → ℕ) where
  -- an access changes neither entries nor items
  pub record_access_same :
      (c : Cache K V) (h : ℕ)
      → ((record_access c h).store ≡ c.store)
        × ((record_access c h).policy.evict ≡ c.policy.evict)
        × ((record_access c h).write_buffer ≡ c.write_buffer)
  unfolding record_access Combined.access
  record_access_same c h = elim (Bool-cases (should_track_access c)) [
    | inr e ↦ rw e (refl, refl, refl)
    | inl e ↦ elim (Option-cases c.read_buffer) [
      | inl n ↦ rw (e, n) (refl, refl, refl)
      | inr (q, n) ↦ rw (e, n) (refl, refl, refl)
    ]
  ]

  pub access-IsValid :
      (c : Cache K V) (h : ℕ) → IsValid dec hasher c → IsValid dec hasher (record_access c h)
  access-IsValid c h m =
      let (store, policy, _) = record_access_same c h in
      subst (λ s. Mirrors dec hasher s (record_access c h).policy.evict) (sym store)
        (subst (λ p. Mirrors dec hasher c.store p) (sym policy) m)

  -- what a reader sees of an entry
  abbrev pub seen : ℕ → Option (Entry K V) → Option V
  seen now none = none
  seen now (some e) = if is_expired now e then none else some e.value

  -- On a valid cache that is not closed Get answers the value of the key's entry unless it has expired. It
  -- leaves the entries as they are, and store and policy in step.
  pub get-seen :
      (c : Cache K V) (now : ℕ) (key : K)
      → IsValid dec hasher c
      → c.closed ≡ false
      → ((get dec hasher c now key).0 ≡ seen now (entry_of dec hasher c.store key))
        × ((get dec hasher c now key).1.store ≡ c.store)
        × IsValid dec hasher (get dec hasher c now key).1
  unfolding get
  get-seen c now key m running =
      let (same, _, absent, present) = get_lem dec hasher c.store m.store_valid now key in
      elim (Option-cases (entry_of dec hasher c.store key)) [
        | inl at ↦ rw (running, same ∙ absent at, at) (refl, refl, m)
        | inr (e, at) ↦ elim (Bool-cases (is_expired now e)) [
          | inl late ↦
              let missed : get_by_hash dec c.store now key (hasher key) ≡ none =
                same ∙ present e at ∙ (rw late refl) in
              rw (running, missed, at, late) (refl, refl, m)
          | inr fresh ↦
              let hit : get_by_hash dec c.store now key (hasher key) ≡ some e =
                same ∙ present e at ∙ (rw fresh refl) in
              rw (running, hit, at, fresh)
                (refl, (record_access_same c (hasher key)).0, access-IsValid c (hasher key) m)
        ]
      ]

  module _ (as_string : K → Option (List ℕ)) (zero_key : K) where
    -- On a valid cache that has not been closed and has no write buffer, SetWithCost with an effective cost of 64 bits
    -- answers, when it does, that the value was stored, and with fewer than 100 tracked keys it does; and a Get of
    -- the key afterwards, at any time, answers the value unless it has expired by then.
    pub set_with_cost-get :
        (draws : ℕ → List ℕ) (c : Cache K V) (now later : ℕ) (key : K) (value : V) (cost ttl : ℕ)
        → IsValid dec hasher c
        → c.closed ≡ false
        → c.write_buffer ≡ none
        → effective_cost c.config value cost < 2 ^ 64
        → let o = set_with_cost dec hasher as_string zero_key draws c now key value cost ttl in
          let until = expiration c.config now ttl in
          When
            (λ (r : Bool × Cache K V).
              (r.0 ≡ true)
              × IsValid dec hasher r.1
              × ((get dec hasher r.1 later key).0
                  ≡ (if slt 0 until && slt until later then none else some value)))
            o
          × (length c.policy.evict.keys < 100 → (r : Bool × Cache K V) × (o ≡ some r))
    unfolding set_with_cost
    set_with_cost-get draws c now later key value cost ttl m running unbuffered cheap =
        let until = expiration c.config now ttl in
        let cost' = effective_cost c.config value cost in
        let (sets, answers) =
          set_sync-Sets dec hasher as_string zero_key c key value cost' until m draws cheap in
        rw (running, unbuffered)
          (
            When-map (λ (r : Bool × Cache K V). (r.0 ≡ true) × Sets dec hasher c entry r.1) _
                (set_sync as_string dec hasher zero_key draws c key value (hasher key) cost' until)
                (λ r (done, s). (
                  done,
                  s.valid,
                  (get-seen r.1 later key s.valid (s.same_closed ∙ running)).0
                      ∙ ap (seen later) s.holds
                      ∙ seen_entry,
                ))
                sets,
            answers,
          )
      where
        entry : Entry K V
        entry = record {
          key = key;
          value = value;
          key_hash = hasher key;
          expire_at = expiration c.config now ttl;
          cost = effective_cost c.config value cost;
        }

        seen_entry : seen later (some entry) ≡ (
            if slt 0 (expiration c.config now ttl) && slt (expiration c.config now ttl) later
            then none
            else some value)
        seen_entry = unfold is_expired in refl
