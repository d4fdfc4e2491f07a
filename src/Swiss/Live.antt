-- ===== src/Swiss/Live.antt =====
-- internal/hashtable/swiss.go: the entries in use as an association list, with the slots where they are.
use go_mcache.Base.{
  ℕ, zero, suc, ◌+◌, ◌≤◌, ◌<◌, ◌≢◌, ◌≡◌, refl, ap, List, [], ◌∷◌, Option, none, some, arith, length,
  get_or, set, replicate, ◌==◌, if◌then◌else◌, inl, inr, Bool-cases, Option-cases,
}
use go_mcache.Swiss.{SwissEntry, entry_at, is_free, live_entries, empty_slot}
use go_mcache.Swiss.Slots.{InUse}

-- the first cost under the hash
unfoldable pub cost_of : ℕ → List SwissEntry → Option ℕ
cost_of hash [] = none
cost_of hash (e ∷ es) = if e.key_hash == hash then some e.cost else cost_of hash es

-- no hash stands twice
abbrev pub Apart : List SwissEntry → Type 0
Apart [] = Unit
Apart (e ∷ es) = (cost_of e.key_hash es ≡ none) × Apart es

-- two slots in use with the same hash are one slot
abbrev pub IsUnique : List ℕ → List SwissEntry → Type 0
IsUnique groups entries =
    (s s' : ℕ)
    → s < length groups
    → s' < length groups
    → InUse groups s
    → InUse groups s'
    → (entry_at entries s).key_hash ≡ (entry_at entries s').key_hash
    → s ≡ s'

pub cost_of_live :
    (groups : List ℕ) (entries : List SwissEntry) (hash c : ℕ)
    → cost_of hash (live_entries groups entries) ≡ some c
    → (s : ℕ) × (s < length groups)
      × InUse groups s
      × (entry_at entries s ≡ record { key_hash = hash; cost = c })
unfolding cost_of live_entries
cost_of_live [] entries hash c e = ground arith
cost_of_live (g ∷ groups) [] hash c e = ground arith
cost_of_live (g ∷ groups) (x ∷ entries) hash c e =
    let later = cost_of_live groups entries hash c in
    elim (Bool-cases (is_free g)) [
      | inl free ↦ let (s, h, u, q) = later (ground (arith, free)) in (suc s, omega arith, u, q)
      | inr used ↦ elim (Bool-cases (x.key_hash == hash)) [
        | inl mine ↦ (0, omega arith, used, ground (arith, used, mine))
        | inr other ↦
            let (s, h, u, q) = later (ground (arith, used, other)) in (suc s, omega arith, u, q)
      ]
    ]

pub live_none :
    (groups : List ℕ) (entries : List SwissEntry) (s : ℕ)
    → s < length groups
    → length groups ≡ length entries
    → InUse groups s
    → cost_of (entry_at entries s).key_hash (live_entries groups entries) ≢ none
unfolding cost_of live_entries
live_none [] entries s h l u e = omega arith
live_none (g ∷ groups) [] s h l u e = omega arith
live_none (g ∷ groups) (x ∷ entries) zero h l u e = ground arith
live_none (g ∷ groups) (x ∷ entries) (suc s) h l u e = ground (arith, live_none groups entries s)

pub Apart-IsUnique :
    (groups : List ℕ) (entries : List SwissEntry)
    → IsUnique groups entries
    → Apart (live_entries groups entries)
unfolding live_entries
Apart-IsUnique [] entries u = tt
Apart-IsUnique (g ∷ groups) [] u = tt
Apart-IsUnique (g ∷ groups) (x ∷ entries) u =
    let later : Apart (live_entries groups entries) =
      Apart-IsUnique groups entries (λ s s' h h' l l' e.
        omega (arith, u (suc s) (suc s') (omega arith) (omega arith) l l' e)) in
    elim (Bool-cases (is_free g)) [
      | inl free ↦ rw free later
      | inr used ↦ rw used (
        elim (Option-cases (cost_of x.key_hash (live_entries groups entries))) [
          | inl absent ↦ absent
          | inr (c, e) ↦
              let (s, h, l, q) = cost_of_live groups entries x.key_hash c e in
              absurd (
                omega
                  (arith, u (suc s) 0 (omega arith) (omega arith) l used (ap (λ y. y.key_hash) q)))
        ],
        later,
      )
    ]

unfoldable pub live_count : List ℕ → ℕ
live_count [] = 0
live_count (g ∷ groups) = (if is_free g then 0 else 1) + live_count groups

pub length-live_entries :
    (groups : List ℕ) (entries : List SwissEntry)
    → length groups ≡ length entries
    → length (live_entries groups entries) ≡ live_count groups
unfolding live_entries live_count
length-live_entries [] entries l = refl
length-live_entries (g ∷ groups) [] l = absurd (omega arith)
length-live_entries (g ∷ groups) (x ∷ entries) l =
    ground (arith, length-live_entries groups entries (omega arith))

pub live_count-set :
    (groups : List ℕ) (s g : ℕ)
    → s < length groups
    → live_count (set groups s g) + (if is_free (get_or groups s 0) then 0 else 1)
      ≡ live_count groups + (if is_free g then 0 else 1)
unfolding live_count
live_count-set [] s g h = absurd (omega arith)
live_count-set (x ∷ groups) zero g h = omega arith
live_count-set (x ∷ groups) (suc s) g h = omega (arith, live_count-set groups s g (omega arith))

pub live_count_full :
    (groups : List ℕ)
    → ((s : ℕ) → s < length groups → InUse groups s)
    → live_count groups ≡ length groups
unfolding live_count
live_count_full [] h = refl
live_count_full (g ∷ groups) h =
    ground (arith, h 0 (omega arith), live_count_full groups (λ s k. h (suc s) (omega arith)))

pub live_count_empty : (n : ℕ) → live_count (replicate n empty_slot) ≡ 0
unfolding live_count
live_count_empty zero = refl
live_count_empty (suc n) = omega (arith, live_count_empty n)

pub live_count-le-length : (groups : List ℕ) → live_count groups ≤ length groups
unfolding live_count
live_count-le-length [] = omega arith
live_count-le-length (g ∷ groups) = ground (arith, live_count-le-length groups)
