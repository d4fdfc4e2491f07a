-- ===== src/Iterator/Prefix.antt =====
-- iterator.go: the pages of a search by prefix in the radix tree.
use go_mcache.Base.{
  ℕ, zero, suc, ◌-◌, ◌*◌, ◌^◌, ◌<◌, ◌≤◌, ◌≡◌, refl, true, false, List, [], ◌∷◌, Option, none, some,
  arith, length, length-take, ltb, ◌==◌, if◌then◌else◌, ◌||◌, Bool, Bool-cases, inl, inr,
}
use go_mcache.Base.Word.{sle}
use go_mcache.Glob.{Pattern}
use go_mcache.Radix.{Tree, Node}
use go_mcache.Radix.Walk.{place, collect_hashes, collect_place, find_by_prefix}
use go_mcache.Radix.Hashes.{hashes, collect_hashes_lem}
use go_mcache.Cache.State.{Cache}
use go_mcache.Iterator.{
  Iterator, doubled, new_iterator, item_of, fetch_prefix_page, fetch_page, next, drain, all,
}

length-collect_hashes : (n : Node) (limit : ℕ) → length (collect_hashes n [] limit) ≤ limit
length-collect_hashes n limit =
    let zero_off : limit - 0 ≡ limit = omega arith in
    rw (collect_hashes_lem n [] limit, zero_off) (omega (arith, length-take limit (hashes n)))

length-collect_place : (o : Option Node) (limit : ℕ) → length (collect_place o limit) ≤ limit
length-collect_place none limit = omega arith
length-collect_place (some n) limit = length-collect_hashes n limit

-- FindByPrefix gives no more than it is asked for
pub length-find_by_prefix :
    (t : Tree) (prefix : List ℕ) (limit : ℕ)
    → 0 < limit
    → length (find_by_prefix t prefix limit) ≤ limit
unfolding find_by_prefix
length-find_by_prefix t prefix limit h =
    let given : (limit == 0) ≡ false = ground arith in
    rw given (length-collect_place (place t.root prefix) limit)

module _ {K V : Type 0} (as_string : K → Option (List ℕ)) (now : ℕ) (c : Cache K V) (t : Tree)
    (indexed : c.radix_tree ≡ some t) (cursor count : ℕ) (first : ℕ) (prefix : List ℕ)
    (pattern : Option Pattern) (positive : 0 < count) (small : count < 2 ^ 62)
    (past : 2 * count ≤ cursor) (word : cursor < 2 ^ 64) where
  abbrev started : ℕ → Iterator K V
  started pos = record {
    has_cache = true;
    cursor = cursor;
    count = count;
    prefix = first ∷ prefix;
    pattern = pattern;
    buffer = [];
    page = [];
    pos = pos;
    done = false;
  }

  -- where the search ends, and where it indexes out of range
  abbrev past_all : List ℕ → Bool
  past_all hs = ltb cursor (2 ^ 63) || (length hs == 0)

  ended :
      (pos : ℕ) (hs : List ℕ)
      → length hs ≤ 2 * count
      → fetch_prefix_page as_string now c hs (started pos)
        ≡ (if past_all hs then some (false, record (started pos) { done = true }) else none)
  unfolding fetch_prefix_page
  ended pos hs h = ground arith

  next_ended :
      (fuel : ℕ)
      → next as_string now c fuel (started 0) ≡ (
          if past_all (find_by_prefix t (first ∷ prefix) (2 * count))
          then some (false, record (started 1) { done = true })
          else none)
  unfolding next fetch_page
  next_ended fuel =
      let twice : doubled count ≡ 2 * count = ground arith in
      let hs = find_by_prefix t (first ∷ prefix) (2 * count) in
      let few : length hs ≤ 2 * count =
        length-find_by_prefix t (first ∷ prefix) (2 * count) (omega arith) in
      rw (indexed, twice, fetch_page, next)
        (rw (ended 1 hs few)
          (elim (Bool-cases (past_all hs)) [ inl e ↦ rw e refl | inr e ↦ rw e refl ]))

  started_lem : new_iterator cursor count (first ∷ prefix) pattern ≡ started 0
  unfolding new_iterator
  started_lem = let given : sle count 0 ≡ false = ground arith in rw (given, new_iterator) refl

  drain_ended :
      (zero_key : K) (zero_value : V) (f : ℕ)
      → drain as_string now c (item_of zero_key zero_value) (suc f) (suc f) (started 0) []
        ≡ (if past_all (find_by_prefix t (first ∷ prefix) (2 * count)) then some [] else none)
  unfolding drain
  drain_ended zero_key zero_value f =
      rw (next_ended (suc f), drain)
        (elim (Bool-cases (past_all (find_by_prefix t (first ∷ prefix) (2 * count)))) [
          | inl e ↦ rw e refl
          | inr e ↦ rw e refl
        ])

  -- In a cache with a radix tree, All of an iterator for a non-empty prefix that starts at a 64-bit cursor of at least
  -- twice its count, which is positive and below 2^62, ends with fuel for one call and serves nothing, whatever keys
  -- with the prefix there are, when the cursor is below 2^63. From 2^63 on it does so when FindByPrefix gives no
  -- hashes, and else it gives no list, whatever the fuel for one call or more.
  pub resumed_lem :
      (zero_key : K) (zero_value : V) (fuel : ℕ)
      → 0 < fuel
      → all as_string now c zero_key zero_value fuel
          (new_iterator cursor count (first ∷ prefix) pattern)
        ≡ (if ltb cursor (2 ^ 63) || (length (find_by_prefix t (first ∷ prefix) (2 * count)) == 0)
            then some []
            else none)
  unfolding all
  resumed_lem zero_key zero_value zero h = absurd (omega arith)
  resumed_lem zero_key zero_value (suc f) h = rw started_lem (drain_ended zero_key zero_value f)
