-- ===== src/Iterator/Served.antt =====
-- iterator.go: what an iterator serves of a store that one Scan goes through.
use go_mcache.Base.{
  ℕ, zero, suc, ◌+◌, ◌*◌, ◌^◌, ◌<◌, ◌≤◌, ◌≡◌, ◌∙◌, refl, ap, Bool, true, false, not, ◌&&◌, List, [],
  ◌∷◌, ◌++◌, Option, none, some, arith, length, length-take, get_elem?, drop, take, min, map, ltb,
  ◌==◌, if◌then◌else◌, Bool-cases, inl, inr, dec_lt,
}
use mathlib.Core.List.{append_assoc, append-nil}
use mathlib.Core.Option
use native.Mathlib.Numerals.{add-one}
use go_mcache.Base.Word.{sle}
use go_mcache.Glob.{Pattern}
use go_mcache.Store.Sharded.{Entry}
use go_mcache.Radix.{Tree}
use go_mcache.Radix.Walk.{find_by_prefix}
use go_mcache.Cache.State.{Cache}
use go_mcache.Iterator.{
  Iterator, is_empty, doubled, new_iterator, all_entries, item_of, key_of, value_of, matching, fill,
  serve, fetch_prefix_page, fetch_page, next, drain, all,
}
use go_mcache.Iterator.Whole.{scan_whole}

drop_step :
    {A : Type 0} (xs : List A) (i : ℕ)
    → i < length xs
    → (x : A) × (get_elem? xs i ≡ some x) × (drop i xs ≡ x ∷ drop (suc i) xs)
drop_step [] i h = absurd (omega arith)
drop_step (x ∷ xs) zero h = (x, refl, refl)
drop_step (x ∷ xs) (suc i) h = drop_step xs i (omega arith)

drop_all : {A : Type 0} (xs : List A) (i : ℕ) → length xs ≤ i → drop i xs ≡ []
drop_all [] zero h = refl
drop_all [] (suc i) h = refl
drop_all (x ∷ xs) zero h = absurd (omega arith)
drop_all (x ∷ xs) (suc i) h = drop_all xs i (omega arith)

abbrev item : {K V : Type 0} → Entry K V → K × V
item e = (e.key, e.value)

module _ {K V : Type 0} (as_string : K → Option (List ℕ)) (now : ℕ) (c : Cache K V) (zero_key : K)
    (zero_value : V) (fuel : ℕ) where
  served_lem :
      (it : Iterator K V) (e : Entry K V)
      → get_elem? it.page it.pos ≡ some e
      → item_of zero_key zero_value it ≡ item e
  unfolding item_of key_of value_of
  served_lem it e here = ground (arith, here)

  next_more :
      (it : Iterator K V)
      → ltb (it.pos + 1) (length it.page) ≡ true
      → next as_string now c fuel it ≡ some (true, record it { pos = it.pos + 1 })
  unfolding next
  next_more it more = rw (more, next) refl

  next_last :
      (it : Iterator K V)
      → ltb (it.pos + 1) (length it.page) ≡ false
      → it.done ≡ true
      → next as_string now c fuel it ≡ some (false, record it { pos = it.pos + 1 })
  unfolding next
  next_last it last done = rw (last, next) (rw done refl)

  -- the rest of the page, when no other will be fetched
  drain_page :
      (rounds : ℕ) (it : Iterator K V) (out : List (K × V))
      → it.done ≡ true
      → length it.page ≤ rounds + it.pos + 1
      → drain as_string now c (item_of zero_key zero_value) fuel (suc rounds) it out
        ≡ some (out ++ map item (drop (suc it.pos) it.page))
  unfolding drain
  drain_page zero it out done h =
      let last : ltb (it.pos + 1) (length it.page) ≡ false = ground arith in
      rw (next_last it last done, drain)
        (rw (drop_all it.page (suc it.pos) (omega arith), append-nil) refl)
  drain_page (suc rounds) it out done h = elim (Bool-cases (ltb (it.pos + 1) (length it.page))) [
    | inr last ↦
        rw (next_last it last done, drain)
          (rw (drop_all it.page (suc it.pos) (ground arith), append-nil) refl)
    | inl more ↦
        let (e, here, rest) = drop_step it.page (suc it.pos) (ground arith) in
        let it' = record it { pos = it.pos + 1 } in
        let served : item_of zero_key zero_value it' ≡ item e =
          served_lem it' e (rw add-one here) in
        rw (next_more it more, drain)
          (drain_page rounds it' (out ++ item_of zero_key zero_value it' ∷ []) done (omega arith)
            ∙ ap some (
                rw (served, add-one, rest)
                  (append_assoc out (item e ∷ []) (map item (drop (suc (suc it.pos)) it.page)))))
  ]

take-min : {A : Type 0} (n : ℕ) (xs : List A) → take (min n (length xs)) xs ≡ take n xs
take-min zero xs = rw none_taken refl
  where
    none_taken : min 0 (length xs) ≡ 0
    none_taken = omega arith
take-min (suc n) [] = rw none_there refl
  where
    none_there : min (suc n) 0 ≡ 0
    none_there = omega arith
take-min (suc n) (x ∷ xs) = rw both (ap (λ ys. x ∷ ys) (take-min n xs))
  where
    both : min (suc n) (suc (length xs)) ≡ suc (min n (length xs))
    both = omega arith

-- the iterator asks the radix tree
abbrev pub by_index : List ℕ → Option Tree → Bool
by_index prefix none = false
by_index prefix (some t) = not (is_empty prefix)

unindexed_lem :
    {A : Type 0} (prefix : List ℕ) (tree : Option Tree) (x : A) (y : Tree → A)
    → by_index prefix tree ≡ false
    → (if is_empty prefix then x else elim tree [ none ↦ x | some t ↦ y t ]) ≡ x
unindexed_lem [] tree x y h = refl
unindexed_lem (p ∷ prefix) none x y h = refl
unindexed_lem (p ∷ prefix) (some t) x y h = cc

module _ {K V : Type 0} (as_string : K → Option (List ℕ)) (now : ℕ) (c : Cache K V) (count : ℕ)
    (prefix : List ℕ) (pattern : Option Pattern) (unindexed : by_index prefix c.radix_tree ≡ false)
    (positive : 0 < count) (small : count < 2 ^ 62)
    (one_scan : length (all_entries c.store.shards) < 2 * count) where
  abbrev found : List (Entry K V)
  found = matching as_string now prefix pattern (all_entries c.store.shards)

  abbrev filled : ℕ → Iterator K V
  filled pos = record {
    has_cache = true;
    cursor = 0;
    count = count;
    prefix = prefix;
    pattern = pattern;
    buffer = found;
    page = [];
    pos = pos;
    done = true;
  }

  abbrev started : ℕ → Iterator K V
  started pos = record (filled pos) { buffer = []; done = false }

  and_false : (b : Bool) → (b && false) ≡ false
  and_false true = refl
  and_false false = refl

  fill_lem : (f pos : ℕ) → fill as_string now c (suc (suc f)) (started pos) ≡ some (filled pos)
  unfolding fill
  fill_lem f pos =
      let twice : doubled count ≡ 2 * count = ground arith in
      rw (twice, scan_whole (2 * count) c.store one_scan) (rw (and_false (is_empty found)) refl)

  fetch_lem :
      (f pos : ℕ)
      → fetch_page as_string now c (suc (suc f)) (started pos)
        ≡ some (serve as_string now c (filled pos))
  unfolding fetch_page
  fetch_lem f pos =
      unindexed_lem prefix c.radix_tree
        (Option.map (serve as_string now c) (fill as_string now c (suc (suc f)) (started pos)))
        (λ t.
          fetch_prefix_page as_string now c (find_by_prefix t prefix (doubled count)) (started pos))
        unindexed
      ∙ ap (Option.map (serve as_string now c)) (fill_lem f pos)

  abbrev page : List (Entry K V)
  page = take count found

  abbrev serving : Iterator K V
  serving = record (filled 0) { page = page; buffer = drop (min count (length found)) found }

  serve-some : (pos : ℕ) → 0 < length found → serve as_string now c (filled pos) ≡ (true, serving)
  unfolding serve
  serve-some pos h =
      let there : (length found == 0) ≡ false = ground arith in
      rw (there, serve) (rw (take-min count found) refl)

  serve_none :
      (pos : ℕ) → length found ≡ 0 → serve as_string now c (filled pos) ≡ (false, filled pos)
  unfolding serve
  serve_none pos h = rw (h, serve) refl

  next-some :
      (f : ℕ)
      → 0 < length found
      → next as_string now c (suc (suc f)) (started 0) ≡ some (true, serving)
  unfolding next
  next-some f h =
      let shown : ltb 0 (length page) ≡ true = ground (arith, length-take count found) in
      rw (fetch_lem f 1, next) (rw (serve-some 1 h) (rw shown refl))

  next_none :
      (f : ℕ)
      → length found ≡ 0
      → next as_string now c (suc (suc f)) (started 0) ≡ some (false, filled 1)
  unfolding next
  next_none f h = rw (fetch_lem f 1, next) (rw (serve_none 1 h) refl)

  drain-started :
      (zero_key : K) (zero_value : V) (f : ℕ)
      → count ≤ f + 1
      → drain as_string now c
          (item_of zero_key zero_value)
          (suc (suc f))
          (suc (suc f))
          (started 0)
          []
        ≡ some (map item page)
  unfolding drain
  drain-started zero_key zero_value f h = elim (dec_lt 0 (length found)) [
    | no nothing ↦
        let empty : page ≡ [] = drop_all page 0 (omega (arith, length-take count found)) in
        rw (next_none f (omega arith), drain) (rw empty refl)
    | yes some_found ↦
        let size = length-take count found in
        let (e, here, rest) = drop_step page 0 (omega arith) in
        rw (next-some f some_found, drain)
          (drain_page as_string now c zero_key zero_value (suc (suc f)) f serving
              ([] ++ item_of zero_key zero_value serving ∷ []) refl (omega arith)
            ∙ ap some (
                rw
                  (
                    served_lem as_string now c zero_key zero_value (suc (suc f)) serving e here,
                    rest,
                  )
                  refl))
  ]

  started_lem : new_iterator 0 count prefix pattern ≡ started 0
  unfolding new_iterator
  started_lem = let given : sle count 0 ≡ false = ground arith in rw (given, new_iterator) refl

  -- In a store with fewer entries than twice the count, which is positive and below 2^62, and with no search by the
  -- radix tree, All of an iterator from the cursor 0 ends with fuel for two calls more than the count. It gives the
  -- first `count` of the entries that match, in the store's order: all of them if there are no more than that, and
  -- else the others are never served.
  pub all_lem :
      (zero_key : K) (zero_value : V) (fuel : ℕ)
      → count + 2 ≤ fuel
      → all as_string now c zero_key zero_value fuel (new_iterator 0 count prefix pattern)
        ≡ some (map (λ e. (e.key, e.value)) (take count found))
  unfolding all
  all_lem zero_key zero_value zero h = absurd (omega arith)
  all_lem zero_key zero_value (suc zero) h = absurd (omega arith)
  all_lem zero_key zero_value (suc (suc f)) h =
      rw started_lem (drain-started zero_key zero_value f (omega arith))
