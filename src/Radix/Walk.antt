-- ===== src/Radix/Walk.antt =====
-- internal/radix/tree.go: FindByPrefix and WalkPrefix. A limit below zero is not told from zero. The function
-- that WalkPrefix calls is a test without effects, and what it is called with is the result.
use go_mcache.Base.{
  ℕ, Bool, true, false, ◌&&◌, List, [], ◌∷◌, ◌++◌, Option, none, some, length, drop, leb, ltb, ◌==◌,
  if◌then◌else◌,
}
use go_mcache.Radix.{Node, node, Children, end, child, Tree, prefix_of, common_prefix_len}

-- the loop that goes down to the node of a prefix
unfoldable mutual
  pub place : Node → List ℕ → Option Node
  place n [] = some n
  place (node p leaf h cs) (c ∷ prefix) = place_in cs c (c ∷ prefix)

  pub place_in : Children → ℕ → List ℕ → Option Node
  place_in end c prefix = none
  place_in (child b n cs) c prefix =
      let common = common_prefix_len (prefix_of n) prefix in
      let deeper = place n (drop common prefix) in
      let later = place_in cs c prefix in
      if b == c
      then if ltb common (length prefix) && ltb common (length (prefix_of n))
        then none
        else if leb (length prefix) common
        then some n
        else deeper
      else later

-- what is collected so far comes first
unfoldable mutual
  pub collect_hashes : Node → List ℕ → ℕ → List ℕ
  collect_hashes (node p leaf h cs) results limit =
      let more = collect_below cs (if leaf then results ++ h ∷ [] else results) limit in
      if leb limit (length results) then results else more

  pub collect_below : Children → List ℕ → ℕ → List ℕ
  collect_below end results limit = results
  collect_below (child b n cs) results limit =
      let more = collect_hashes n results limit in
      let later = collect_below cs more limit in if leb limit (length more) then more else later

-- nothing, when no node was found
abbrev pub collect_place : Option Node → ℕ → List ℕ
collect_place none limit = []
collect_place (some n) limit = collect_hashes n [] limit

unfoldable pub find_by_prefix : Tree → List ℕ → ℕ → List ℕ
find_by_prefix t prefix limit =
    let limit = if limit == 0 then 100 else limit in collect_place (place t.root prefix) limit

-- the calls of the function, and whether the walk goes on
unfoldable mutual
  pub walk_node : (List ℕ → ℕ → Bool) → Node → List ℕ → List (List ℕ × ℕ) × Bool
  walk_node fn (node p leaf h cs) key =
      let below = walk_below fn cs key in
      if leaf
      then if fn key h then ((key, h) ∷ below.0, below.1) else ((key, h) ∷ [], false)
      else below

  pub walk_below : (List ℕ → ℕ → Bool) → Children → List ℕ → List (List ℕ × ℕ) × Bool
  walk_below fn end key = ([], true)
  walk_below fn (child b n cs) key =
      let first = walk_node fn n (key ++ prefix_of n) in
      let later = walk_below fn cs key in
      if first.1 then (first.0 ++ later.0, later.1) else (first.0, false)

-- the walk of the node found starts with the prefix asked for
abbrev pub walk_place : (List ℕ → ℕ → Bool) → List ℕ → Option Node → List (List ℕ × ℕ)
walk_place fn prefix none = []
walk_place fn prefix (some n) = (walk_node fn n prefix).0

unfoldable pub walk_prefix : Tree → List ℕ → (List ℕ → ℕ → Bool) → List (List ℕ × ℕ)
walk_prefix t prefix fn = walk_place fn prefix (place t.root prefix)
