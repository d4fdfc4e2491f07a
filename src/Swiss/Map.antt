-- ===== src/Swiss/Map.antt =====
-- internal/hashtable/swiss.go: the operations against the map from hashes to costs that the table holds.
use go_mcache.Base.{
  ℕ, zero, suc, ◌+◌, ◌-◌, ◌*◌, ◌/◌, ◌^◌, ◌≤◌, ◌<◌, ◌≢◌, ◌≡◌, ◌∙◌, refl, sym, ap, true, false,
  Option, none, some, arith, get_or, set, length-replicate, replicate, get_or-replicate_lt,
  set-get_or, ◌==◌, if◌then◌else◌, inl, inr, Option-cases,
}
use mathlib.Core.Path.{subst}
use mathlib.Core.Option.{some-ne-none}
use go_mcache.Base.Ones.{smear, smear_lem}
use go_mcache.Base.Word.{add64, sle}
use go_mcache.Swiss.{
  SwissEntry, SwissTable, entry_at, no_entry, is_free, h2, free_loop, get, empty_table, empty_slot,
  next_power_of2_int64, new_swiss_table, insert_no_lock, set_cost,
}
use go_mcache.Swiss.Slots.{InUse, h2-lt}
use go_mcache.Swiss.Probing.{Probed, place_found, all_used}
use go_mcache.Swiss.Live.{live_count-set, live_count_full, live_count_empty}
use go_mcache.Swiss.Inv.{
  IsValid, held, num_groups_lem, held_is, Fits, slot_held, get-held, written-IsValid, held-written,
}

-- the table holds the cost for the hash, and for all else what it held
pub record Put (k : ℕ) (st : SwissTable) (hash cost : ℕ) (st' : SwissTable) : Type 0 where
  pub valid : IsValid k st'
  pub put : (h : ℕ) → held st' h ≡ (if hash == h then some cost else held st h)

abbrev pub or_else : Option ℕ → Option ℕ → Option ℕ
or_else (some c) d = some c
or_else none d = d

nothing_used : (n s : ℕ) → s < n → InUse (replicate n empty_slot) s → ⊥
nothing_used n s h u = ground (arith, get_or-replicate_lt {A = ℕ} n s empty_slot 0 h)

pub empty_table-IsValid : (k : ℕ) → IsValid k (empty_table (16 * 2 ^ k))
unfolding empty_table
empty_table-IsValid k = record {
  slots = length-replicate (16 * 2 ^ k) empty_slot;
  as_many = length-replicate (16 * 2 ^ k) no_entry;
  capacity = refl;
  counted = sym (live_count_empty (16 * 2 ^ k));
  matching = λ s h u. absurd (nothing_used (16 * 2 ^ k) s h u);
  probed = λ s h u. absurd (nothing_used (16 * 2 ^ k) s h u);
  unique = λ s s' h h' u u' e.
      absurd
        (nothing_used (16 * 2 ^ k) s (omega (arith, length-replicate (16 * 2 ^ k) empty_slot)) u);
}

pub empty_table-size : (n : ℕ) → (empty_table n).size ≡ 0
unfolding empty_table
empty_table-size n = refl

pub empty_table-held : (k hash : ℕ) → held (empty_table (16 * 2 ^ k)) hash ≡ none
unfolding empty_table
empty_table-held k hash =
    held_is k (empty_table (16 * 2 ^ k)) (empty_table-IsValid k) hash none (λ c e. cc)
      (λ e s h u. absurd (nothing_used (16 * 2 ^ k) s h u))

rounded_lem : (n : ℕ) → n < 2 ^ 63 → (k : ℕ) × (n ≤ 2 ^ k) × (next_power_of2_int64 n ≡ 2 ^ k)
unfolding next_power_of2_int64
rounded_lem zero h = (0, omega arith, refl)
rounded_lem (suc zero) h = (0, omega arith, refl)
rounded_lem (suc (suc n)) h =
    let (k, small, enough, power) = smear_lem (suc n) (omega arith) in
    let same : suc (suc n) - 1 ≡ suc n = omega arith in
    (k, omega arith, ground (arith, ap smear same, power))

IsValid_of_slots :
    (k slots : ℕ)
    → slots ≡ 16 * 2 ^ k
    → IsValid k (empty_table slots) × ((h : ℕ) → get (empty_table slots) h ≡ none)
IsValid_of_slots k slots e = rw e (
  empty_table-IsValid k,
  λ h. get-held k (empty_table (16 * 2 ^ k)) (empty_table-IsValid k) h ∙ empty_table-held k h,
)

-- NewSwissTable makes an empty table with room for the capacity
pub new_swiss_table-IsValid :
    (capacity : ℕ)
    → 0 < capacity
    → capacity < 2 ^ 63
    → (k : ℕ) × (capacity ≤ 16 * 2 ^ k)
      × IsValid k (new_swiss_table capacity)
      × ((h : ℕ) → get (new_swiss_table capacity) h ≡ none)
unfolding new_swiss_table
new_swiss_table-IsValid capacity pos small =
    let (k, enough, power) = rounded_lem ((capacity + 16 - 1) / 16) (omega arith) in
    let positive : sle capacity 0 ≡ false = ground arith in
    let made =
      IsValid_of_slots k (next_power_of2_int64 ((capacity + 16 - 1) / 16) * 16)
        (omega (arith, power)) in
    rw (positive, new_swiss_table) (k, omega (arith, enough), made.0, made.1)

is_free-h2 : (hash : ℕ) → is_free (h2 hash) ≡ false
is_free-h2 hash = ground (arith, h2-lt hash)

module _ (k : ℕ) (st : SwissTable) (v : IsValid k st) (hash cost : ℕ) where
  abbrev entry : SwissEntry
  entry = record { key_hash = hash; cost = cost }

  -- a free slot of the hash is taken
  taken-Put :
      (s : ℕ)
      → s < 16 * 2 ^ k
      → is_free (get_or st.groups s 0) ≡ true
      → Probed k st.groups hash (s / 16)
      → held st hash ≡ none
      → st.size + 1 < 2 ^ 64
      → Put k st hash cost (record st {
        groups = set st.groups s (h2 hash);
        entries = set st.entries s entry;
        size = add64 st.size 1;
      })
  taken-Put s h free probed absent small =
      let apart =
        λ (s' : ℕ) (h' : s' < 16 * 2 ^ k) (ne : s' ≢ s) (u : InUse st.groups s')
            (q : (entry_at st.entries s').key_hash ≡ hash).
          some-ne-none _ (sym (slot_held k st v s' h' u) ∙ ap (held st) q ∙ absent) in
      let not_empty : h2 hash ≢ 0x80 = λ e. omega (arith, h2-lt hash) in
      let filled : Fits k st s (h2 hash) entry = λ u. (refl, probed, apart) in
      let valid = written-IsValid k st v s (h2 hash) (add64 st.size 1) entry h not_empty filled (
        ground
          (arith, v.counted, v.slots, is_free-h2 hash, live_count-set st.groups s (h2 hash))) in
      record {
        valid = valid;
        put = λ g.
            held-written k st v s (h2 hash) (add64 st.size 1) entry h not_empty filled valid g
            ∙ ground (arith, is_free-h2 hash, free);
      }

  -- a slot is free as long as not all are counted
  pub insert_no_lock-Put :
      held st hash ≡ none
      → st.size < 16 * 2 ^ k
      → 16 * 2 ^ k < 2 ^ 64
      → ((insert_no_lock st hash cost).1 ≡ true)
        × Put k st hash cost (insert_no_lock st hash cost).0
        × ((insert_no_lock st hash cost).0.size ≡ st.size + 1)
  unfolding insert_no_lock
  insert_no_lock-Put absent room small =
      elim (Option-cases (free_loop st.groups (2 ^ k) hash (2 ^ k) 0)) [
        | inl full ↦
            let used = all_used k st.groups hash full in
            absurd (
              omega (
                arith,
                v.counted,
                v.slots,
                live_count_full st.groups (λ s h. used s (omega (arith, v.slots))),
              ))
        | inr (s, found) ↦
            let (below, free, probed) =
              place_found k st.groups hash (2 ^ k) 0 s found (omega arith)
                (λ q h. absurd (omega arith)) in
            rw (num_groups_lem k st v, found, insert_no_lock)
              (refl, taken-Put s below free probed absent (omega arith), omega arith)
      ]

  pub set_cost-Put :
      (s : ℕ)
      → s < 16 * 2 ^ k
      → InUse st.groups s
      → (entry_at st.entries s).key_hash ≡ hash
      → Put k st hash cost (set_cost st s cost)
  set_cost-Put s h u mine =
      let ctrl = get_or st.groups s 0 in
      let e : SwissEntry = record (entry_at st.entries s) { cost = cost } in
      let not_empty : ctrl ≢ 0x80 = λ q. ground (arith, u, q) in
      let filled : Fits k st s ctrl e = λ u'. (
        v.matching s h u,
        v.probed s h u,
        λ s' h' ne l q. ne (v.unique s' s (omega (arith, v.slots)) (omega (arith, v.slots)) l u q),
      ) in
      let valid =
        written-IsValid k st v s ctrl st.size e h not_empty filled
          (omega (arith, v.counted, v.slots, live_count-set st.groups s ctrl)) in
      subst
        (λ groups. Put k st hash cost (record st { groups = groups; entries = set st.entries s e }))
        (set-get_or st.groups s 0)
        (record {
          valid = valid;
          put = λ g.
              held-written k st v s ctrl st.size e h not_empty filled valid g
              ∙ ground (arith, u, mine);
        })
