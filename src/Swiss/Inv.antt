-- ===== src/Swiss/Inv.antt =====
-- internal/hashtable/swiss.go: the invariant of a table of 2^k groups, what it gives a lookup, and a write of one slot.
use go_mcache.Base.{
  ℕ, ◌*◌, ◌/◌, ◌^◌, ◌<◌, ◌≢◌, ◌≡◌, ◌∙◌, refl, sym, ap, Bool, false, ◌&&◌, not, Option, none, some,
  arith, length, get_or, set, get_or-set, length-set, ◌==◌, if◌then◌else◌, inl, inr, Bool-cases,
  Option-cases, ℕ_discrete,
}
use go_mcache.Swiss.{
  SwissEntry, SwissTable, entry_at, no_entry, is_free, h2, num_groups, find_locked, get,
  live_entries,
}
use go_mcache.Swiss.Slots.{InUse}
use go_mcache.Swiss.Probing.{Probed, find_found, find_some}
use go_mcache.Swiss.Live.{cost_of, cost_of_live, live_none, IsUnique, live_count}

pub record IsValid (k : ℕ) (st : SwissTable) : Type 0 where
  pub slots : length st.groups ≡ 16 * 2 ^ k
  pub as_many : length st.entries ≡ 16 * 2 ^ k
  pub capacity : st.cap ≡ 16 * 2 ^ k
  pub counted : st.size ≡ live_count st.groups
  pub matching :
      (s : ℕ)
      → s < 16 * 2 ^ k
      → InUse st.groups s
      → get_or st.groups s 0 ≡ h2 (entry_at st.entries s).key_hash
  pub probed :
      (s : ℕ)
      → s < 16 * 2 ^ k
      → InUse st.groups s
      → Probed k st.groups (entry_at st.entries s).key_hash (s / 16)
  pub unique : IsUnique st.groups st.entries

-- the cost that the table holds for the hash
abbrev pub held : SwissTable → ℕ → Option ℕ
held st hash = cost_of hash (live_entries st.groups st.entries)

module _ (k : ℕ) (st : SwissTable) (v : IsValid k st) where
  pub num_groups_lem : num_groups st ≡ 2 ^ k
  unfolding num_groups
  num_groups_lem = omega (arith, v.slots)

  -- the table holds what is found at a slot of the hash, and nothing if there is no such slot
  pub held_is :
      (hash : ℕ) (o : Option ℕ)
      → ((c : ℕ)
          → o ≡ some c
          → (s : ℕ) × (s < 16 * 2 ^ k)
            × InUse st.groups s
            × (entry_at st.entries s ≡ record { key_hash = hash; cost = c }))
      → (o ≡ none
          → (s : ℕ) → s < 16 * 2 ^ k
          → InUse st.groups s
          → (entry_at st.entries s).key_hash ≢ hash)
      → held st hash ≡ o
  held_is hash none some_slot no_slot = elim (Option-cases (held st hash)) [
    | inl absent ↦ absent
    | inr (c, e) ↦
        let (s, h, u, q) = cost_of_live st.groups st.entries hash c e in
        absurd (no_slot refl s (omega (arith, v.slots)) u (ap (λ y. y.key_hash) q))
  ]
  held_is hash (some c) some_slot no_slot =
      let (s, h, u, q) = some_slot c refl in
      let mine : (entry_at st.entries s).key_hash ≡ hash = ap (λ y. y.key_hash) q in
      elim (Option-cases (held st hash)) [
        | inl absent ↦ absurd (
            live_none st.groups st.entries s (omega (arith, v.slots))
              (omega (arith, v.slots, v.as_many)) u (rw mine absent))
        | inr (c', e) ↦
            let (s', h', u', q') = cost_of_live st.groups st.entries hash c' e in
            let same : s ≡ s' =
              v.unique s s' (omega (arith, v.slots)) (omega (arith, v.slots)) u u'
                (mine ∙ sym (ap (λ y. y.key_hash) q')) in
            ground (arith, same, e, q, q')
      ]

  pub slot_held :
      (s : ℕ)
      → s < 16 * 2 ^ k
      → InUse st.groups s
      → held st (entry_at st.entries s).key_hash ≡ some (entry_at st.entries s).cost
  slot_held s h u =
      held_is (entry_at st.entries s).key_hash (some (entry_at st.entries s).cost)
        (λ c e. (s, h, u, ground arith)) (λ e. cc)

  pub found_slot :
      (hash s : ℕ)
      → find_locked st hash ≡ some s
      → (s < 16 * 2 ^ k) × InUse st.groups s × ((entry_at st.entries s).key_hash ≡ hash)
  unfolding find_locked
  found_slot hash s e = find_found k st.groups st.entries hash (2 ^ k) 0 s (rw num_groups_lem at e)

  pub missed_slot :
      (hash s : ℕ)
      → find_locked st hash ≡ none
      → s < 16 * 2 ^ k
      → InUse st.groups s
      → (entry_at st.entries s).key_hash ≢ hash
  unfolding find_locked
  missed_slot hash s e h u q =
      find_some k st.groups st.entries hash s u (v.matching s h u ∙ ap h2 q) q
        (rw q at (v.probed s h u)) (rw num_groups_lem at e)

  -- Get of a valid table answers the cost that the table holds for the hash
  pub get-held : (hash : ℕ) → get st hash ≡ held st hash
  unfolding get
  get-held hash = elim (Option-cases (find_locked st hash)) [
    | inl missed ↦
        rw (missed, get)
          (sym (held_is hash none (λ c e. ground arith) (λ e s. missed_slot hash s missed)))
    | inr (s, found) ↦
        let (h, u, q) = found_slot hash s found in rw (found, get) (sym (rw q at (slot_held s h u)))
  ]

-- if the control byte is one of a slot in use, the entry may stand there
abbrev pub Fits : ℕ → SwissTable → ℕ → ℕ → SwissEntry → Type 0
Fits k st s g e =
    is_free g ≡ false
    → (g ≡ h2 e.key_hash)
      × Probed k st.groups e.key_hash (s / 16)
      × ((s' : ℕ)
          → s' < 16 * 2 ^ k
          → s' ≢ s
          → InUse st.groups s'
          → (entry_at st.entries s').key_hash ≢ e.key_hash)

module _ (k : ℕ) (st : SwissTable) (v : IsValid k st) (s g size : ℕ) (e : SwissEntry)
    (h : s < 16 * 2 ^ k) (not_empty : g ≢ 0x80) (filled : Fits k st s g e) where
  abbrev pub written : SwissTable
  written = record st { groups = set st.groups s g; entries = set st.entries s e; size = size }

  in_groups : s < length st.groups
  in_groups = omega (arith, v.slots)

  in_entries : s < length st.entries
  in_entries = omega (arith, v.as_many)

  ctrl_lem : (j : ℕ) → get_or (set st.groups s g) j 0 ≡ (if s == j then g else get_or st.groups j 0)
  ctrl_lem j = get_or-set st.groups s j g 0 in_groups

  entry_lem :
      (j : ℕ) → entry_at (set st.entries s e) j ≡ (if s == j then e else entry_at st.entries j)
  entry_lem j = get_or-set st.entries s j e no_entry in_entries

  Probed-written : (hash p : ℕ) → Probed k st.groups hash p → Probed k (set st.groups s g) hash p
  Probed-written hash p probed = record {
    probe = probed.probe;
    within = probed.within;
    lands = probed.lands;
    before = λ q h' j r. ground (arith, ctrl_lem j, probed.before q h' j r, not_empty);
  }

  kept_use : (j : ℕ) → s ≢ j → InUse written.groups j → InUse st.groups j
  kept_use j ne u = ground (arith, ctrl_lem j)

  still_used : (j : ℕ) → s ≢ j → InUse st.groups j → InUse written.groups j
  still_used j ne u = ground (arith, ctrl_lem j)

  kept_entry : (j : ℕ) → s ≢ j → entry_at written.entries j ≡ entry_at st.entries j
  kept_entry j ne = ground (arith, entry_lem j)

  new_use : (j : ℕ) → s ≡ j → InUse written.groups j → is_free g ≡ false
  new_use j here u = ground (arith, ctrl_lem j)

  new_entry : (j : ℕ) → s ≡ j → entry_at written.entries j ≡ e
  new_entry j here = ground (arith, entry_lem j)

  new_apart :
      (i j : ℕ)
      → s ≡ i
      → j < 16 * 2 ^ k
      → s ≢ j
      → InUse written.groups i
      → InUse written.groups j
      → (entry_at written.entries i).key_hash ≢ (entry_at written.entries j).key_hash
  new_apart i j here h' ne u u' q =
      (filled (new_use i here u)).2 j h' (λ r. ne (sym r)) (kept_use j ne u')
        (ap (λ y. y.key_hash) (sym (kept_entry j ne))
          ∙ sym q
          ∙ ap (λ y. y.key_hash) (new_entry i here))

  written-IsUnique : IsUnique written.groups written.entries
  written-IsUnique j j' l l' u u' q =
      let below : j < 16 * 2 ^ k = omega (arith, v.slots, length-set st.groups s g) in
      let below' : j' < 16 * 2 ^ k = omega (arith, v.slots, length-set st.groups s g) in
      elim (ℕ_discrete s j) [
        | yes here ↦ elim (ℕ_discrete s j') [
          | yes there ↦ omega arith
          | no other ↦ absurd (new_apart j j' here below' other u u' q)
        ]
        | no away ↦ elim (ℕ_discrete s j') [
          | yes there ↦ absurd (new_apart j' j there below away u' u (sym q))
          | no other ↦
              v.unique j j' (omega (arith, v.slots)) (omega (arith, v.slots)) (kept_use j away u)
                (kept_use j' other u')
                (ap (λ y. y.key_hash) (sym (kept_entry j away))
                  ∙ q
                  ∙ ap (λ y. y.key_hash) (kept_entry j' other))
        ]
      ]

  pub written-IsValid : size ≡ live_count (set st.groups s g) → IsValid k written
  written-IsValid counts = record {
    slots = length-set st.groups s g ∙ v.slots;
    as_many = length-set st.entries s e ∙ v.as_many;
    capacity = v.capacity;
    counted = counts;
    matching = λ j h' u. elim (ℕ_discrete s j) [
      | yes same ↦ ground (arith, ctrl_lem j, entry_lem j, filled)
      | no other ↦ ground (arith, ctrl_lem j, entry_lem j, v.matching j h')
    ];
    probed = λ j h' u. elim (ℕ_discrete s j) [
      | yes same ↦
          rw (new_entry j same)
            (Probed-written e.key_hash (j / 16) (rw same at ((filled (new_use j same u)).1)))
      | no other ↦ rw (kept_entry j other) (
          Probed-written (entry_at st.entries j).key_hash (j / 16)
            (v.probed j h' (kept_use j other u)))
    ];
    unique = written-IsUnique;
  }

  abbrev takes : ℕ → Bool
  takes hash = not (is_free g) && (e.key_hash == hash)

  abbrev leaves : ℕ → Bool
  leaves hash = not (is_free (get_or st.groups s 0)) && ((entry_at st.entries s).key_hash == hash)

  -- what the table holds afterwards
  pub held-written :
      IsValid k written
      → (hash : ℕ)
      → held written hash
        ≡ (if takes hash then some e.cost else if leaves hash then none else held st hash)
  held-written v' hash = elim (Bool-cases (takes hash)) [
    | inl new ↦ rw new (
        held_is k written v' hash (some e.cost)
          (λ c q. (s, h, ground (arith, ctrl_lem s), new_entry s refl ∙ ground arith)) (λ q. cc))
    | inr other ↦ elim (Bool-cases (leaves hash)) [
      | inl old ↦
          rw (other, old)
            (held_is k written v' hash none (λ c q. cc)
              (λ q j h' u r. elim (ℕ_discrete s j) [
                | yes here ↦ not_new j here other u r
                | no away ↦ away (
                    v.unique s j in_groups (omega (arith, v.slots)) (ground arith)
                      (kept_use j away u) (ground (arith, kept_entry j away)))
              ]))
      | inr rest ↦
          rw (other, rest)
            (held_is k written v' hash (held st hash)
              (λ c q.
                let (j, h', u, r) = cost_of_live st.groups st.entries hash c q in
                let away : s ≢ j = λ here. ground (arith, here, r) in
                (j, omega (arith, v.slots), still_used j away u, kept_entry j away ∙ r))
              (λ q j h' u r. elim (ℕ_discrete s j) [
                | yes here ↦ not_new j here other u r
                | no away ↦
                    ground (arith, kept_entry j away, slot_held k st v j h' (kept_use j away u))
              ]))
    ]
  ]
    where
      not_new :
          (j : ℕ)
          → s ≡ j
          → takes hash ≡ false
          → InUse written.groups j
          → (entry_at written.entries j).key_hash ≢ hash
      not_new j here other u r = ground (arith, new_entry j here, new_use j here u)
