-- ===== src/Swiss.antt =====
-- internal/hashtable/swiss.go: the Swiss table. The control bytes of all groups stand in one list, the byte i of
-- group g at g * 16 + i, which is also the place of its entry.
pub mod Slots
pub mod Probing
pub mod Live
pub mod Inv
pub mod Map
pub mod Api
mod Tests
use go_mcache.Base.{
  ℕ, zero, suc, ◌+◌, ◌-◌, ◌*◌, ◌/◌, ◌%◌, ◌^◌, bit_and, List, [], ◌∷◌, Bool, true, false, not, ◌&&◌,
  ◌||◌, Option, none, some, length, get_or, set, replicate, take, ltb, leb, ◌==◌, if◌then◌else◌,
}
use go_mcache.Base.Ones.{smear}
use go_mcache.Base.Word.{add64, sub64, mul64, sle}

abbrev pub group_size : ℕ
group_size = 16

abbrev pub empty_slot : ℕ
empty_slot = 0x80

abbrev pub deleted_slot : ℕ
deleted_slot = 0xFE

pub record SwissEntry : Type 0 where
  pub key_hash : ℕ
  pub cost : ℕ

pub record SwissTable : Type 0 where
  pub groups : List ℕ
  pub entries : List SwissEntry
  pub size : ℕ
  pub cap : ℕ

abbrev pub no_entry : SwissEntry
no_entry = record { key_hash = 0; cost = 0 }

-- for n below 2^63
unfoldable pub next_power_of2_int64 : ℕ → ℕ
next_power_of2_int64 n = if leb n 1 then 1 else smear (n - 1) + 1

unfoldable pub empty_table : ℕ → SwissTable
empty_table slots = record {
  groups = replicate slots empty_slot;
  entries = replicate slots no_entry;
  size = 0;
  cap = slots;
}

unfoldable pub new_swiss_table : ℕ → SwissTable
new_swiss_table capacity =
    let capacity = if sle capacity 0 then 16 else capacity in
    empty_table (next_power_of2_int64 ((capacity + group_size - 1) / group_size) * group_size)

unfoldable pub h1 : ℕ → ℕ
h1 hash = hash / 2 ^ 7

unfoldable pub h2 : ℕ → ℕ
h2 hash = bit_and hash 0x7F

-- the number of groups
unfoldable pub num_groups : SwissTable → ℕ
num_groups st = length st.groups / group_size

-- the group of a probe
unfoldable pub group_at : ℕ → ℕ → ℕ → ℕ
group_at groups hash probe = bit_and (bit_and (h1 hash) (groups - 1) + probe) (groups - 1)

abbrev pub entry_at : List SwissEntry → ℕ → SwissEntry
entry_at entries slot = get_or entries slot no_entry

-- the loop over the slots of a group: `n` are left, the next is `slot`
unfoldable pub match_group : List ℕ → List SwissEntry → ℕ → ℕ → ℕ → Bool → Option ℕ × Bool
match_group groups entries hash zero slot has_empty = (none, has_empty)
match_group groups entries hash (suc n) slot has_empty =
    let ctrl = get_or groups slot 0 in
    let seen_empty = match_group groups entries hash n (slot + 1) true in
    let next = match_group groups entries hash n (slot + 1) has_empty in
    if ctrl == empty_slot
    then seen_empty
    else if ctrl == deleted_slot
    then next
    else if ctrl == h2 hash && (entry_at entries slot).key_hash == hash
    then (some slot, has_empty)
    else next

-- `rounds` probes are left
unfoldable pub find_loop : List ℕ → List SwissEntry → ℕ → ℕ → ℕ → ℕ → Option ℕ
find_loop groups entries m hash zero probe = none
find_loop groups entries m hash (suc rounds) probe =
    let (found, has_empty) =
      match_group groups entries hash group_size (group_at m hash probe * group_size) false in
    let rest = find_loop groups entries m hash rounds (probe + 1) in
    elim found [ some slot ↦ some slot | none ↦ if has_empty then none else rest ]

unfoldable pub find_locked : SwissTable → ℕ → Option ℕ
find_locked st hash = find_loop st.groups st.entries (num_groups st) hash (num_groups st) 0

abbrev pub is_free : ℕ → Bool
is_free ctrl = ctrl == empty_slot || ctrl == deleted_slot

unfoldable pub free_in_group : List ℕ → ℕ → ℕ → Option ℕ
free_in_group groups zero slot = none
free_in_group groups (suc n) slot =
    let rest = free_in_group groups n (slot + 1) in
    if is_free (get_or groups slot 0) then some slot else rest

unfoldable pub free_loop : List ℕ → ℕ → ℕ → ℕ → ℕ → Option ℕ
free_loop groups m hash zero probe = none
free_loop groups m hash (suc rounds) probe =
    let rest = free_loop groups m hash rounds (probe + 1) in
    elim (free_in_group groups group_size (group_at m hash probe * group_size)) [
      | some slot ↦ some slot
      | none ↦ rest
    ]

unfoldable pub insert_no_lock : SwissTable → ℕ → ℕ → SwissTable × Bool
insert_no_lock st hash cost = elim (free_loop st.groups (num_groups st) hash (num_groups st) 0) [
  | none ↦ (st, false)
  | some slot ↦ (
    record st {
      groups = set st.groups slot (h2 hash);
      entries = set st.entries slot (record { key_hash = hash; cost = cost });
      size = add64 st.size 1;
    },
    true,
  )
]

-- the entries in use, in the order of their slots
unfoldable pub live_entries : List ℕ → List SwissEntry → List SwissEntry
live_entries [] entries = []
live_entries (ctrl ∷ groups) [] = []
live_entries (ctrl ∷ groups) (e ∷ entries) =
    let rest = live_entries groups entries in if is_free ctrl then rest else e ∷ rest

unfoldable pub reinsert : List SwissEntry → SwissTable → SwissTable
reinsert [] st = st
reinsert (e ∷ es) st = reinsert es (insert_no_lock st e.key_hash e.cost).0

unfoldable pub grow : SwissTable → SwissTable
grow st = reinsert (live_entries st.groups st.entries) (empty_table (mul64 st.cap 2))

abbrev pub set_cost : SwissTable → ℕ → ℕ → SwissTable
set_cost st slot cost = record st {
  entries = set st.entries slot (record (entry_at st.entries slot) { cost = cost });
}

-- `float64(size+1) > float64(cap)*0.875` is a comparison of integers below 2^53
unfoldable pub insert : SwissTable → ℕ → ℕ → SwissTable × Bool
insert st hash cost = elim (find_locked st hash) [
  | some slot ↦ (set_cost st slot cost, false)
  | none ↦
      let st' = if ltb (st.cap * 7) ((st.size + 1) * 8) then grow st else st in
      insert_no_lock st' hash cost
]

unfoldable pub get : SwissTable → ℕ → Option ℕ
get st hash = elim (find_locked st hash) [
  | some slot ↦ some (entry_at st.entries slot).cost
  | none ↦ none
]

unfoldable pub has : SwissTable → ℕ → Bool
has st hash = elim (find_locked st hash) [ some slot ↦ true | none ↦ false ]

unfoldable pub delete : SwissTable → ℕ → SwissTable × Option ℕ
delete st hash = elim (find_locked st hash) [
  | none ↦ (st, none)
  | some slot ↦ (
    record st {
      groups = set st.groups slot deleted_slot;
      entries = set st.entries slot no_entry;
      size = sub64 st.size 1;
    },
    some (entry_at st.entries slot).cost,
  )
]

unfoldable pub update : SwissTable → ℕ → ℕ → SwissTable × Bool
update st hash cost = elim (find_locked st hash) [
  | some slot ↦ (set_cost st slot cost, true)
  | none ↦ (st, false)
]

unfoldable pub clear : SwissTable → SwissTable
clear st = record st {
  groups = replicate (length st.groups) empty_slot;
  entries = replicate st.cap no_entry;
  size = 0;
}

-- the loops stop at the first group after which there are `n` entries, which changes nothing of the sample
unfoldable pub sample : SwissTable → ℕ → List SwissEntry
sample st n = if st.size == 0 then [] else take n (live_entries st.groups st.entries)

-- the entries that `fn` is called on: it stops when it answers false
unfoldable pub range : (SwissEntry → Bool) → List SwissEntry → List SwissEntry
range fn [] = []
range fn (e ∷ es) = if fn e then e ∷ range fn es else e ∷ []

unfoldable pub range_table : SwissTable → (SwissEntry → Bool) → List SwissEntry
unfolding range
range_table st fn = range fn (live_entries st.groups st.entries)
