-- ===== src/Swiss/Api.antt =====
-- internal/hashtable/swiss.go: Insert with its growth, Delete, Update, Get and Has.
use go_mcache.Base.{
  ℕ, suc, ◌+◌, ◌*◌, ◌^◌, ◌≤◌, ◌<◌, ◌≢◌, ◌≡◌, ◌∙◌, refl, sym, List, [], ◌∷◌, Bool, true, false, ◌&&◌,
  not, Option, none, some, arith, length, set, ltb, ◌==◌, if◌then◌else◌, inl, inr, Bool-cases,
  Option-cases,
}
use native.Mathlib.Nat.{pow-suc, one-le-pow}
use go_mcache.Base.Word.{mul64, sub64}
use go_mcache.Swiss.{
  SwissEntry, SwissTable, entry_at, no_entry, deleted_slot, find_locked, get, live_entries,
  empty_table, insert_no_lock, reinsert, grow, insert, delete, update,
}
use go_mcache.Swiss.Slots.{InUse}
use go_mcache.Swiss.Live.{
  cost_of, Apart, Apart-IsUnique, live_count, live_count-set, live_count-le-length,
  length-live_entries,
}
use go_mcache.Swiss.Inv.{
  IsValid, held, held_is, slot_held, found_slot, missed_slot, get-held, Fits, written-IsValid,
  held-written,
}
use go_mcache.Swiss.Map.{
  Put, or_else, empty_table-IsValid, empty_table-held, empty_table-size, insert_no_lock-Put,
  set_cost-Put,
}

module _ (k : ℕ) (e : SwissEntry) (es : List SwissEntry) (st st' : SwissTable) where
  -- the entries that follow are as new to the table as before
  still_fresh :
      Put k st e.key_hash e.cost st'
      → cost_of e.key_hash es ≡ none
      → ((h : ℕ) → cost_of h (e ∷ es) ≢ none → held st h ≡ none)
      → (h : ℕ) → cost_of h es ≢ none
      → held st' h ≡ none
  unfolding cost_of
  still_fresh p apart fresh h q = elim (Bool-cases (e.key_hash == h)) [
    | inl same ↦ ground (arith, q, apart, same)
    | inr other ↦ p.put h ∙ rw other (fresh h (λ z. q (rw other at z)))
  ]

  merged :
      Put k st e.key_hash e.cost st'
      → cost_of e.key_hash es ≡ none
      → (h : ℕ) → or_else (cost_of h es) (held st' h) ≡ or_else (cost_of h (e ∷ es)) (held st h)
  unfolding cost_of
  merged p apart h = elim (Bool-cases (e.key_hash == h)) [
    | inl same ↦
        let here : e.key_hash ≡ h = ground (arith, same) in
        rw (rw here at apart, p.put h, same) refl
    | inr other ↦ rw (p.put h, other) refl
  ]

pub reinsert-held :
    (k : ℕ) (es : List SwissEntry) (st : SwissTable)
    → IsValid k st
    → Apart es
    → ((h : ℕ) → cost_of h es ≢ none → held st h ≡ none)
    → st.size + length es < 16 * 2 ^ k
    → 16 * 2 ^ k < 2 ^ 64
    → IsValid k (reinsert es st)
      × ((h : ℕ) → held (reinsert es st) h ≡ or_else (cost_of h es) (held st h))
      × ((reinsert es st).size ≡ st.size + length es)
unfolding reinsert cost_of
reinsert-held k [] st v apart fresh room small = (v, λ h. refl, omega arith)
reinsert-held k (e ∷ es) st v apart fresh room small =
    let st' = (insert_no_lock st e.key_hash e.cost).0 in
    let absent : held st e.key_hash ≡ none = fresh e.key_hash (λ q. ground arith) in
    let (done, p, more) = insert_no_lock-Put k st v e.key_hash e.cost absent (omega arith) small in
    let (v', holds, size) =
      reinsert-held k es st' p.valid apart.1 (still_fresh k e es st st' p apart.0 fresh)
        (omega arith) small in
    (v', λ h. holds h ∙ merged k e es st st' p apart.0 h, omega arith)

abbrev pub is_absent : Option ℕ → Bool
is_absent none = true
is_absent (some c) = false

module _ (k : ℕ) (st : SwissTable) (v : IsValid k st) where
  -- the table of twice as many groups holds the same
  grow-held :
      2 ^ k < 2 ^ 56
      → IsValid (suc k) (grow st)
        × ((h : ℕ) → held (grow st) h ≡ held st h)
        × ((grow st).size ≡ st.size)
  unfolding grow
  grow-held small =
      let es = live_entries st.groups st.entries in
      let new = empty_table (16 * 2 ^ suc k) in
      let doubled : mul64 st.cap 2 ≡ 16 * 2 ^ suc k = omega (arith, v.capacity, pow-suc 2 k) in
      let size : length es ≡ st.size =
        length-live_entries st.groups st.entries (v.slots ∙ sym v.as_many) ∙ sym v.counted in
      let most = live_count-le-length st.groups in
      let (v', holds, more) =
        reinsert-held (suc k) es new (empty_table-IsValid (suc k))
          (Apart-IsUnique st.groups st.entries v.unique) (λ h q. empty_table-held (suc k) h)
          (omega (
            arith,
            size,
            most,
            v.slots,
            v.counted,
            pow-suc 2 k,
            one-le-pow k 2,
            empty_table-size (16 * 2 ^ suc k),
          ))
          (omega (arith, pow-suc 2 k)) in
      rw doubled (
        v',
        λ h. holds h ∙ from_nothing (held st h) h,
        omega (arith, more, size, empty_table-size (16 * 2 ^ suc k)),
      )
    where
      from_nothing : (o : Option ℕ) (h : ℕ) → or_else o (held (empty_table (16 * 2 ^ suc k)) h) ≡ o
      from_nothing none h = empty_table-held (suc k) h
      from_nothing (some c) h = refl

  insert-Put :
      (hash cost : ℕ)
      → 2 ^ k < 2 ^ 56
      → ((insert st hash cost).1 ≡ is_absent (get st hash))
        × (k' : ℕ) × (k ≤ k')
        × Put k' st hash cost (insert st hash cost).0
  unfolding insert
  insert-Put hash cost small = elim (Option-cases (find_locked st hash)) [
    | inr (s, found) ↦
        let (h, u, q) = found_slot k st v hash s found in
        rw (found, insert)
          (
            ground (arith, get-held k st v hash, slot_held k st v s h u, q),
            k,
            omega arith,
            set_cost-Put k st v hash cost s h u q,
          )
    | inl missed ↦
        let absent : held st hash ≡ none =
          held_is k st v hash none (λ c e. cc) (λ e s. missed_slot k st v hash s missed) in
        elim (Bool-cases (ltb (st.cap * 7) ((st.size + 1) * 8))) [
          | inr room ↦
              let (done, p, more) =
                insert_no_lock-Put k st v hash cost absent (ground arith) (omega arith) in
              rw (missed, room, insert)
                (ground (arith, done, get-held k st v hash, absent), k, omega arith, p)
          | inl full ↦
              let (v', same, size) = grow-held small in
              let (done, p, more) =
                insert_no_lock-Put (suc k) (grow st) v' hash cost (same hash ∙ absent)
                  (omega (
                    arith,
                    size,
                    v.slots,
                    v.counted,
                    pow-suc 2 k,
                    live_count-le-length st.groups,
                    one-le-pow k 2,
                  ))
                  (omega (arith, pow-suc 2 k)) in
              rw (missed, full, insert)
                (
                  ground (arith, done, get-held k st v hash, absent),
                  suc k,
                  omega arith,
                  record { valid = p.valid; put = λ h. p.put h ∙ ground (arith, same h) },
                )
        ]
  ]

  -- Insert into a valid table of fewer than 2^56 groups answers whether the hash was absent, and leaves a valid table
  -- of at least as many groups, where Get answers the new cost for the hash and for every other hash what it did.
  pub insert-get :
      (hash cost : ℕ)
      → 2 ^ k < 2 ^ 56
      → ((insert st hash cost).1 ≡ is_absent (get st hash))
        × (k' : ℕ) × (k ≤ k')
        × IsValid k' (insert st hash cost).0
        × ((h : ℕ) → get (insert st hash cost).0 h ≡ (if hash == h then some cost else get st h))
  insert-get hash cost small =
      let (answer, k', more, p) = insert-Put hash cost small in
      (answer, k', more, p.valid, λ h. get-held k' _ p.valid h ∙ rw (get-held k st v h) (p.put h))

  removed :
      (hash s : ℕ)
      → 2 ^ k < 2 ^ 56
      → s < 16 * 2 ^ k
      → InUse st.groups s
      → (entry_at st.entries s).key_hash ≡ hash
      → let st' : SwissTable = record st {
        groups = set st.groups s deleted_slot;
        entries = set st.entries s no_entry;
        size = sub64 st.size 1;
      } in
        IsValid k st' × ((h : ℕ) → held st' h ≡ (if hash == h then none else held st h))
  removed hash s small h u mine =
      let fits : Fits k st s deleted_slot no_entry = λ q. cc in
      let fewer : sub64 st.size 1 ≡ live_count (set st.groups s deleted_slot) = ground (
        arith,
        v.counted,
        v.slots,
        u,
        live_count-set st.groups s deleted_slot,
        live_count-le-length st.groups,
      ) in
      let valid =
        written-IsValid k st v s deleted_slot (sub64 st.size 1) no_entry h (omega arith) fits
          fewer in
      (
        valid,
        λ g.
            held-written k st v s deleted_slot (sub64 st.size 1) no_entry h (omega arith) fits valid
              g
            ∙ ground (arith, u, mine),
      )

  -- Delete of a valid table of fewer than 2^56 groups answers the cost that Get answers, and leaves a valid table where Get finds nothing for
  -- the hash and answers for every other hash what it did.
  pub delete-get :
      (hash : ℕ)
      → 2 ^ k < 2 ^ 56
      → ((delete st hash).1 ≡ get st hash)
        × IsValid k (delete st hash).0
        × ((h : ℕ) → get (delete st hash).0 h ≡ (if hash == h then none else get st h))
  unfolding delete
  delete-get hash small = elim (Option-cases (find_locked st hash)) [
    | inr (s, found) ↦
        let (h, u, q) = found_slot k st v hash s found in
        let (v', holds) = removed hash s small h u q in
        rw (found, delete)
          (
            ground (arith, get-held k st v hash, slot_held k st v s h u, q),
            v',
            λ g. get-held k _ v' g ∙ rw (get-held k st v g) (holds g),
          )
    | inl missed ↦
        let absent : get st hash ≡ none =
          get-held k st v hash
          ∙ held_is k st v hash none (λ c e. cc) (λ e s. missed_slot k st v hash s missed) in
        rw (missed, delete) (sym absent, v, λ g. ground (arith, absent))
  ]

  -- Update of a valid table answers whether Get finds the hash, and leaves a valid table where Get answers the new
  -- cost for the hash, if it was there, and all else as before.
  pub update-get :
      (hash cost : ℕ)
      → ((update st hash cost).1 ≡ not (is_absent (get st hash)))
        × IsValid k (update st hash cost).0
        × ((h : ℕ)
            → get (update st hash cost).0 h
              ≡ (if (update st hash cost).1 && (hash == h) then some cost else get st h))
  unfolding update
  update-get hash cost = elim (Option-cases (find_locked st hash)) [
    | inr (s, found) ↦
        let (h, u, q) = found_slot k st v hash s found in
        let p = set_cost-Put k st v hash cost s h u q in
        rw (found, update)
          (
            ground (arith, get-held k st v hash, slot_held k st v s h u, q),
            p.valid,
            λ g. get-held k _ p.valid g ∙ rw (get-held k st v g) (p.put g),
          )
    | inl missed ↦
        let absent : get st hash ≡ none =
          get-held k st v hash
          ∙ held_is k st v hash none (λ c e. cc) (λ e s. missed_slot k st v hash s missed) in
        rw (missed, update) (ground (arith, absent), v, λ g. refl)
  ]
