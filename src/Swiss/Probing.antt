-- ===== src/Swiss/Probing.antt =====
-- internal/hashtable/swiss.go: the loops over the groups of a hash.
use go_mcache.Base.{
  ℕ, zero, suc, ◌+◌, ◌-◌, ◌*◌, ◌/◌, ◌%◌, ◌^◌, ◌≤◌, ◌<◌, ◌≢◌, ◌≡◌, refl, sym, List, true, false,
  none, some, arith, get_or, inl, inr, Bool-cases, Option-cases, ℕ_discrete, dec_le,
}
use native.Mathlib.Nat.{one-le-pow, mod-eq_of_lt}
use go_mcache.Base.Bits.{bit_and_mask}
use go_mcache.Swiss.{
  SwissEntry, entry_at, is_free, h1, h2, group_at, match_group, find_loop, free_in_group, free_loop,
}
use go_mcache.Swiss.Slots.{
  InUse, InRange, match_found, match_missed, match_empty, free_found, free_missed,
}

-- no slot of the group is empty
abbrev pub Crowded : List ℕ → ℕ → Type 0
Crowded groups g = (s : ℕ) → InRange (g * 16) 16 s → get_or groups s 0 ≢ 0x80

module _ (k : ℕ) where
  abbrev pub place : ℕ → ℕ → ℕ
  place hash probe = group_at (2 ^ k) hash probe

  -- the group comes up among the probes of the hash, and the groups before it have no empty slot
  pub record Probed (groups : List ℕ) (hash g : ℕ) : Type 0 where
    pub probe : ℕ
    pub within : probe < 2 ^ k
    pub lands : g ≡ place hash probe
    pub before : (q : ℕ) → q < probe → Crowded groups (place hash q)

  group_at_lem : (hash probe : ℕ) → place hash probe ≡ (h1 hash % 2 ^ k + probe) % 2 ^ k
  unfolding group_at
  group_at_lem hash probe =
      rw (bit_and_mask k (h1 hash), bit_and_mask k (h1 hash % 2 ^ k + probe)) refl

  pub place-lt : (hash probe : ℕ) → place hash probe < 2 ^ k
  place-lt hash probe = rw (group_at_lem hash probe) (grind (arith, one-le-pow k 2))

  -- the probes come to every group
  reaches : (hash g : ℕ) → g < 2 ^ k → (p : ℕ) × (p < 2 ^ k) × (g ≡ place hash p)
  reaches hash g h =
      let a = h1 hash % 2 ^ k in
      let small : a < 2 ^ k = grind (arith, one-le-pow k 2) in
      elim (dec_le a g) [
        | yes up ↦ (
          g - a,
          omega arith,
          let there : a + (g - a) ≡ g = omega arith in
              rw (group_at_lem hash (g - a), there) (sym (mod-eq_of_lt h)),
        )
        | no down ↦ (
          g + 2 ^ k - a,
          omega arith,
          let there : a + (g + 2 ^ k - a) ≡ g + 2 ^ k = omega arith in
              rw (group_at_lem hash (g + 2 ^ k - a), there) (grind arith),
        )
      ]

  module _ (groups : List ℕ) (entries : List SwissEntry) (hash : ℕ) where
    pub find_found :
        (rounds probe s : ℕ)
        → find_loop groups entries (2 ^ k) hash rounds probe ≡ some s
        → (s < 16 * 2 ^ k) × InUse groups s × ((entry_at entries s).key_hash ≡ hash)
    unfolding find_loop
    find_found zero probe s e = ground arith
    find_found (suc rounds) probe s e =
        let first = place hash probe * 16 in
        let m = match_group groups entries hash 16 first false in
        elim (Option-cases m.0) [
          | inl missed ↦ elim (Bool-cases m.1) [
            | inl stop ↦ ground (arith, missed, stop)
            | inr on ↦ find_found rounds (probe + 1) s (ground (arith, missed, on))
          ]
          | inr (s', found) ↦
              let (r, u, q) = match_found groups entries hash 16 first false s' found in
              let same : s' ≡ s = ground (arith, found) in
              rw (← same) (omega (arith, place-lt hash probe), u, q)
        ]

    module _ (s : ℕ) (used : InUse groups s) (matching : get_or groups s 0 ≡ h2 hash)
        (mine : (entry_at entries s).key_hash ≡ hash) (probed : Probed groups hash (s / 16)) where
      -- the loop does not miss a slot of the hash
      find_sees :
          (rounds probe : ℕ)
          → probe ≤ probed.probe
          → probed.probe < probe + rounds
          → find_loop groups entries (2 ^ k) hash rounds probe ≢ none
      unfolding find_loop
      find_sees zero probe h h' e = omega arith
      find_sees (suc rounds) probe h h' e =
          let first = place hash probe * 16 in
          let m = match_group groups entries hash 16 first false in
          elim (Option-cases m.0) [
            | inr (s', found) ↦ ground (arith, found)
            | inl missed ↦ elim (ℕ_discrete probe probed.probe) [
              | yes now ↦
                  match_missed groups entries hash 16 first false s missed
                    (rw now (omega (arith, probed.lands))) used matching mine
              | no later ↦ elim (Bool-cases m.1) [
                | inr on ↦
                    find_sees rounds (probe + 1) (omega arith) (omega arith)
                      (ground (arith, missed, on))
                | inl stop ↦ ground (
                  arith,
                  match_empty groups entries hash 16 first false (probed.before probe (omega arith))
                      missed stop,
                )
              ]
            ]
          ]

      pub find_some : find_loop groups entries (2 ^ k) hash (2 ^ k) 0 ≢ none
      find_some = find_sees (2 ^ k) 0 (omega arith) (omega (arith, probed.within))

  module _ (groups : List ℕ) (hash : ℕ) where
    Crowded-free_in_group : (g : ℕ) → free_in_group groups 16 (g * 16) ≡ none → Crowded groups g
    Crowded-free_in_group g e s r q = ground (arith, free_missed groups 16 (g * 16) s e r, q)

    pub place_found :
        (rounds probe s : ℕ)
        → free_loop groups (2 ^ k) hash rounds probe ≡ some s
        → probe + rounds ≤ 2 ^ k
        → ((q : ℕ) → q < probe → Crowded groups (place hash q))
        → (s < 16 * 2 ^ k) × (is_free (get_or groups s 0) ≡ true) × Probed groups hash (s / 16)
    unfolding free_loop
    place_found zero probe s e h before = ground arith
    place_found (suc rounds) probe s e h before =
        let first = place hash probe * 16 in
        elim (Option-cases (free_in_group groups 16 first)) [
          | inl full ↦
              place_found rounds (probe + 1) s (ground (arith, full)) (omega arith) (λ q h'.
                elim (ℕ_discrete q probe) [
                  | yes now ↦ rw now (Crowded-free_in_group (place hash probe) full)
                  | no earlier ↦ before q (omega arith)
                ])
          | inr (s', found) ↦
              let (r, free) = free_found groups 16 first s' found in
              let same : s' ≡ s = ground (arith, found) in
              rw (← same) (
                omega (arith, place-lt hash probe),
                free,
                record {
                  probe = probe;
                  within = omega arith;
                  lands = omega arith;
                  before = before;
                },
              )
        ]

    place_missed :
        (rounds probe p : ℕ)
        → free_loop groups (2 ^ k) hash rounds probe ≡ none
        → probe ≤ p
        → p < probe + rounds
        → free_in_group groups 16 (place hash p * 16) ≡ none
    unfolding free_loop
    place_missed zero probe p e h h' = absurd (omega arith)
    place_missed (suc rounds) probe p e h h' =
        elim (Option-cases (free_in_group groups 16 (place hash probe * 16))) [
          | inr (s', found) ↦ ground (arith, found)
          | inl full ↦ elim (ℕ_discrete p probe) [
            | yes now ↦ rw now full
            | no later ↦
                place_missed rounds (probe + 1) p (ground (arith, full)) (omega arith) (omega arith)
          ]
        ]

    -- when no place is found, every slot is in use
    pub all_used :
        free_loop groups (2 ^ k) hash (2 ^ k) 0 ≡ none → (s : ℕ) → s < 16 * 2 ^ k → InUse groups s
    all_used e s h =
        let (p, within, lands) = reaches hash (s / 16) (omega arith) in
        free_missed groups 16 (place hash p * 16) s
          (place_missed (2 ^ k) 0 p e (omega arith) (omega arith)) (omega (arith, lands))
