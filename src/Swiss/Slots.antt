-- ===== src/Swiss/Slots.antt =====
-- internal/hashtable/swiss.go: the loop over the slots of one group.
use go_mcache.Base.{
  ℕ, zero, suc, ◌+◌, ◌≤◌, ◌<◌, ◌≢◌, ◌≡◌, List, Bool, true, false, Option, none, some, arith, get_or,
}
use go_mcache.Base.Bits.{bit_and_mask}
use go_mcache.Swiss.{SwissEntry, entry_at, is_free, h2, match_group, free_in_group}

pub h2-lt : (h : ℕ) → h2 h < 128
unfolding h2
h2-lt h = rw (bit_and_mask 7 h) (omega arith)

-- the slot is in use
abbrev pub InUse : List ℕ → ℕ → Type 0
InUse groups s = is_free (get_or groups s 0) ≡ false

-- the slot is one of the `n` slots from the first on
abbrev pub InRange : ℕ → ℕ → ℕ → Type 0
InRange first n s = (first ≤ s) × (s < first + n)

module _ (groups : List ℕ) (entries : List SwissEntry) (hash : ℕ) where
  abbrev go : ℕ → ℕ → Bool → Option ℕ × Bool
  go n slot has_empty = match_group groups entries hash n slot has_empty

  pub match_found :
      (n slot : ℕ) (he : Bool) (s : ℕ)
      → (go n slot he).0 ≡ some s
      → InRange slot n s × InUse groups s × ((entry_at entries s).key_hash ≡ hash)
  unfolding match_group
  match_found zero slot he s e = ground arith
  match_found (suc n) slot he s e =
      ground (arith, match_found n (slot + 1) true s, match_found n (slot + 1) he s)

  pub match_missed :
      (n slot : ℕ) (he : Bool) (s : ℕ)
      → (go n slot he).0 ≡ none
      → InRange slot n s
      → InUse groups s
      → get_or groups s 0 ≡ h2 hash
      → (entry_at entries s).key_hash ≢ hash
  unfolding match_group
  match_missed zero slot he s e r u c q = omega arith
  match_missed (suc n) slot he s e r u c q =
      ground (arith, match_missed n (slot + 1) true s, match_missed n (slot + 1) he s)

  no_empty_seen :
      (n slot : ℕ) (he : Bool) → (go n slot he).0 ≡ none → (go n slot he).1 ≡ false → he ≡ false
  unfolding match_group
  no_empty_seen zero slot he e f = f
  no_empty_seen (suc n) slot he e f =
      ground (arith, no_empty_seen n (slot + 1) true, no_empty_seen n (slot + 1) he)

  pub match_crowded :
      (n slot : ℕ) (he : Bool) (s : ℕ)
      → (go n slot he).0 ≡ none
      → (go n slot he).1 ≡ false
      → InRange slot n s
      → get_or groups s 0 ≢ 0x80
  unfolding match_group
  match_crowded zero slot he s e f r q = absurd (omega arith)
  match_crowded (suc n) slot he s e f r q = ground (
    arith,
    no_empty_seen n (slot + 1) true,
    match_crowded n (slot + 1) true s,
    match_crowded n (slot + 1) he s,
  )

  -- in a group without an empty slot
  pub match_empty :
      (n slot : ℕ) (he : Bool)
      → ((s : ℕ) → InRange slot n s → get_or groups s 0 ≢ 0x80)
      → (go n slot he).0 ≡ none
      → (go n slot he).1 ≡ true
      → he ≡ true
  unfolding match_group
  match_empty zero slot he crowded e f = f
  match_empty (suc n) slot he crowded e f =
      let later = λ (s : ℕ) (r : InRange (slot + 1) n s). crowded s (omega arith) in
      ground (
        arith,
        crowded slot (omega arith),
        match_empty n (slot + 1) true later,
        match_empty n (slot + 1) he later,
      )

module _ (groups : List ℕ) where
  pub free_found :
      (n slot s : ℕ)
      → free_in_group groups n slot ≡ some s
      → InRange slot n s × (is_free (get_or groups s 0) ≡ true)
  unfolding free_in_group
  free_found zero slot s e = ground arith
  free_found (suc n) slot s e = ground (arith, free_found n (slot + 1) s)

  pub free_missed :
      (n slot s : ℕ) → free_in_group groups n slot ≡ none → InRange slot n s → InUse groups s
  unfolding free_in_group
  free_missed zero slot s e r = absurd (omega arith)
  free_missed (suc n) slot s e r = ground (arith, free_missed n (slot + 1) s)
