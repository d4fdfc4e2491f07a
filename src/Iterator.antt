-- ===== src/Iterator.antt =====
-- iterator.go: the iterators over a cache's entries, and the scans of cache.go that make them. The cache is not
-- changed meanwhile; `now` is the clock's answer to matchEntry. The error field is never set, and left out. A
-- key that is a string is a list of bytes by `as_string`. An answer `none` of the loops stands for fuel that is not
-- enough and for a panic. Allocations succeed, whatever their size.
pub mod Whole
pub mod Served
pub mod Prefix
mod Tests
use go_mcache.Base.{
  ℕ, zero, suc, ◌+◌, ◌*◌, ◌^◌, Bool, true, false, not, ◌&&◌, ◌||◌, List, [], ◌∷◌, ◌++◌, Option,
  none, some, length, get_elem?, take, drop, min, ltb, leb, ◌==◌, if◌then◌else◌,
}
use mathlib.Core.Option
use go_mcache.Base.Word.{sle, mul64}
use go_mcache.Glob
use go_mcache.Glob.{Pattern, Outcome, ok, failed, match_key}
use go_mcache.Radix.Walk.{find_by_prefix}
use go_mcache.Store.Sharded.{Entry, is_expired}
use go_mcache.Store.Sharded.Scan.{scan}
use go_mcache.Cache.State.{Cache}

pub record Iterator (K V : Type 0) : Type 0 where
  pub has_cache : Bool
  pub cursor : ℕ
  pub count : ℕ
  pub prefix : List ℕ
  pub pattern : Option Pattern
  pub buffer : List (Entry K V)
  pub page : List (Entry K V)
  pub pos : ℕ
  pub done : Bool

-- `strings.HasPrefix`
unfoldable pub has_prefix : List ℕ → List ℕ → Bool
has_prefix s [] = true
has_prefix [] (p ∷ prefix) = false
has_prefix (c ∷ s) (p ∷ prefix) = c == p && has_prefix s prefix

abbrev pub is_empty {ℓ} : {A : Type ℓ} → List A → Bool
is_empty [] = true
is_empty (x ∷ xs) = false

-- `it.count*2` as an int, with 0 for every limit that is not positive
abbrev pub doubled : ℕ → ℕ
doubled count = let limit = mul64 count 2 in if sle limit 0 then 0 else limit

module _ {K V : Type 0} where
  unfoldable pub new_iterator : ℕ → ℕ → List ℕ → Option Pattern → Iterator K V
  new_iterator cursor count prefix pattern = record {
    has_cache = true;
    cursor = cursor;
    count = if sle count 0 then 10 else count;
    prefix = prefix;
    pattern = pattern;
    buffer = [];
    page = [];
    pos = 0;
    done = false;
  }

  unfoldable pub new_empty_iterator : Iterator K V
  new_empty_iterator = record {
    has_cache = false;
    cursor = 0;
    count = 0;
    prefix = [];
    pattern = none;
    buffer = [];
    page = [];
    pos = 0;
    done = true;
  }

  unfoldable pub close : Iterator K V → Iterator K V
  close it = record it { buffer = []; page = []; done = true }

  unfoldable pub scan_cache : ℕ → ℕ → Iterator K V
  scan_cache cursor count = new_iterator cursor count [] none

  unfoldable pub scan_prefix : Bool → List ℕ → ℕ → ℕ → Iterator K V
  scan_prefix is_string_key prefix cursor count =
      if not is_string_key then new_empty_iterator else new_iterator cursor count prefix none

  -- `none` where the pattern is not compiled within its fuel
  unfoldable pub scan_match : Bool → List ℕ → ℕ → ℕ → Option (Iterator K V)
  scan_match is_string_key pattern cursor count =
      if not is_string_key then some new_empty_iterator else elim (Glob.compile pattern) [
        | none ↦ none
        | some (failed e) ↦ some new_empty_iterator
        | some (ok p) ↦ some (new_iterator cursor count p.prefix (some p))
      ]

  -- the entries of the store in the order of Range
  unfoldable pub entries_of : List (K × Entry K V) → List (Entry K V)
  entries_of [] = []
  entries_of ((k, e) ∷ m) = e ∷ entries_of m

  unfoldable pub all_entries : List (List (K × Entry K V)) → List (Entry K V)
  all_entries [] = []
  all_entries (m ∷ ms) = entries_of m ++ all_entries ms

  -- the entry at which Range is stopped
  unfoldable pub entry_by_hash : ℕ → List (Entry K V) → Option (Entry K V)
  entry_by_hash hash [] = none
  entry_by_hash hash (e ∷ es) = if e.key_hash == hash then some e else entry_by_hash hash es

  -- Key, Value and Entry, with the zero values that they give when there is no current entry
  unfoldable pub key_of : K → Iterator K V → K
  key_of zero_key it = elim (get_elem? it.page it.pos) [ none ↦ zero_key | some e ↦ e.key ]

  unfoldable pub value_of : V → Iterator K V → V
  value_of zero_value it = elim (get_elem? it.page it.pos) [ none ↦ zero_value | some e ↦ e.value ]

  unfoldable pub item_of : K → V → Iterator K V → K × V
  unfolding key_of value_of
  item_of zero_key zero_value it = (key_of zero_key it, value_of zero_value it)

  module _ (as_string : K → Option (List ℕ)) (now : ℕ) where
    unfoldable pub match_entry : List ℕ → Option Pattern → Entry K V → Bool
    match_entry prefix pattern e =
        let prefix_fits : Bool = elim (as_string e.key) [
          | none ↦ true
          | some s ↦ has_prefix s prefix
        ] in
        let pattern_fits : Bool = elim pattern [
          | none ↦ true
          | some p ↦ elim (as_string e.key) [ none ↦ true | some s ↦ match_key p s ]
        ] in
        if is_expired now e
        then false
        else if not (is_empty prefix) && not prefix_fits
        then false
        else pattern_fits

    unfoldable pub matching : List ℕ → Option Pattern → List (Entry K V) → List (Entry K V)
    matching prefix pattern [] = []
    matching prefix pattern (e ∷ es) =
        let rest = matching prefix pattern es in
        if match_entry prefix pattern e then e ∷ rest else rest

    module _ (c : Cache K V) where
      -- the loop that fills the buffer
      unfoldable pub fill : ℕ → Iterator K V → Option (Iterator K V)
      fill zero it = none
      fill (suc fuel) it =
          let (entries, next_cursor) = scan c.store it.cursor (doubled it.count) in
          let rest = fill fuel (record it {
            buffer = it.buffer ++ matching it.prefix it.pattern entries;
            cursor = next_cursor;
            done = if next_cursor == 0 then true else it.done;
          }) in
          if is_empty it.buffer && not it.done then rest else some it

      -- the loop over the hashes from the cursor on
      unfoldable pub collect_page : ℕ → List ℕ → Iterator K V → List (Entry K V) → List (Entry K V)
      collect_page count [] it entries = entries
      collect_page count (hash ∷ hashes) it entries =
          let grown : List (Entry K V) = elim (entry_by_hash hash (all_entries c.store.shards)) [
            | none ↦ entries
            | some e ↦ if match_entry it.prefix it.pattern e then entries ++ e ∷ [] else entries
          ] in
          let rest = collect_page count hashes it grown in
          if ltb (length entries) count then rest else entries

      -- `none` where an index is out of range: a cursor from 2^63 on is negative as an int. The count is positive, as
      -- the constructors make it.
      unfoldable pub fetch_prefix_page : List ℕ → Iterator K V → Option (Bool × Iterator K V)
      fetch_prefix_page hashes it =
          if it.done
          then some (false, it)
          else if length hashes == 0
          then some (false, record it { done = true })
          else if sle (length hashes) it.cursor
          then some (false, record it { done = true })
          else if leb (2 ^ 63) it.cursor
          then none
          else let entries = collect_page it.count (drop it.cursor hashes) it [] in
            some (
              not (is_empty entries),
              record it {
                page = entries;
                pos = 0;
                cursor = it.cursor + length entries;
                done = if leb (length hashes) (it.cursor + length entries) then true else it.done;
              },
            )

      -- up to `count` entries of the buffer
      unfoldable pub serve : Iterator K V → Bool × Iterator K V
      serve it =
          if length it.buffer == 0
          then (false, it)
          else let n = min it.count (length it.buffer) in
            (true, record it { page = take n it.buffer; buffer = drop n it.buffer; pos = 0 })

      unfoldable pub fetch_page : ℕ → Iterator K V → Option (Bool × Iterator K V)
      fetch_page fuel it =
          let filled = Option.map serve (fill fuel it) in
          if not it.has_cache
          then some (false, record it { done = true })
          else if it.done
          then some (false, it)
          else if is_empty it.prefix
          then filled
          else elim c.radix_tree [
            | none ↦ filled
            | some t ↦ fetch_prefix_page (find_by_prefix t it.prefix (doubled it.count)) it
          ]

      unfoldable pub next : ℕ → Iterator K V → Option (Bool × Iterator K V)
      next fuel it =
          let it' = record it { pos = it.pos + 1 } in
          let fetched : Option (Bool × Iterator K V) = elim (fetch_page fuel it') [
            | none ↦ none
            | some (more, it'') ↦
                some (if more then (ltb it''.pos (length it''.page), it'') else (false, it''))
          ] in
          if ltb it'.pos (length it'.page)
          then some (true, it')
          else if it'.done
          then some (false, it')
          else fetched

      -- `for it.Next() { out = append(out, …) }`: `rounds` calls at most, each with its fuel
      unfoldable pub drain {ℓ} :
          {A : Type ℓ} → (Iterator K V → A) → ℕ → ℕ → Iterator K V → List A → Option (List A)
      drain body fuel zero it out = none
      drain body fuel (suc rounds) it out = elim (next fuel it) [
        | none ↦ none
        | some (more, it') ↦
            let rest = drain body fuel rounds it' (out ++ body it' ∷ []) in
            if more then rest else some out
      ]

      -- ForEach, with the keys and values that the function is called on
      unfoldable pub for_each :
          (K × V → Bool)
          → (Iterator K V → K × V)
          → ℕ
          → ℕ
          → Iterator K V
          → List (K × V)
          → Option (List (K × V))
      for_each fn item fuel zero it seen = none
      for_each fn item fuel (suc rounds) it seen = elim (next fuel it) [
        | none ↦ none
        | some (more, it') ↦
            let rest = for_each fn item fuel rounds it' (seen ++ item it' ∷ []) in
            if more then if fn (item it') then rest else some (seen ++ item it' ∷ []) else some seen
      ]

      unfoldable pub all : K → V → ℕ → Iterator K V → Option (List (K × V))
      all zero_key zero_value fuel it = drain (item_of zero_key zero_value) fuel fuel it []

      unfoldable pub keys : K → ℕ → Iterator K V → Option (List K)
      keys zero_key fuel it = drain (key_of zero_key) fuel fuel it []

      unfoldable pub values : V → ℕ → Iterator K V → Option (List V)
      values zero_value fuel it = drain (value_of zero_value) fuel fuel it []

      unfoldable pub count_rest : ℕ → Iterator K V → Option ℕ
      count_rest fuel it = Option.map length (drain (λ it'. it'.pos) fuel fuel it [])
