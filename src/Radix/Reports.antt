-- ===== src/Radix/Reports.antt =====
-- internal/radix/tree.go: what FindByPrefix and WalkPrefix report of the keys with a prefix.
use go_mcache.Base.{
  ℕ, suc, ◌-◌, ◌<◌, ◌≤◌, ◌≡◌, refl, sym, ap, ◌∙◌, inl, inr, Bool, true, false, ◌&&◌, List, [], ◌∷◌,
  ◌++◌, Option, none, some, arith, length, take, drop, ltb, leb, ◌==◌, if◌then◌else◌, Bool-cases,
  Option-cases, length-take, Member,
}
use go_mcache.Base.Assoc.{find}
use go_mcache.Radix.{
  Node, node, Children, end, child, prefix_of, common_prefix_len, new, new_leaf, insert,
  insert_node,
}
use go_mcache.Radix.Strip.{strip, and_then, strip_whole}
use go_mcache.Radix.Map.{value_at, IsValid, AreValid}
use go_mcache.Radix.Walk.{
  place, place_in, collect_hashes, collect_place, find_by_prefix, walk_node, walk_place,
  walk_prefix,
}
use go_mcache.Radix.Places.{Leads, place-Leads}
use go_mcache.Radix.Hashes.{
  hashes, collect_hashes_lem, hashes_sound, hashes_complete, Member-take, take_all,
}
use go_mcache.Radix.Refines.{Call, run, changes, same_key, new-Holds, run-Holds}

-- the node of a prefix is well formed
abbrev PlaceIsValid : Option Node → Type 0
PlaceIsValid none = Unit
PlaceIsValid (some n) = IsValid n

mutual
  unfolding place

  place-IsValid : (n : Node) (prefix : List ℕ) → IsValid n → PlaceIsValid (place n prefix)
  place-IsValid n [] valid = valid
  place-IsValid (node p leaf h cs) (c ∷ prefix) valid = place_in-IsValid cs c (c ∷ prefix) valid

  place_in-IsValid :
      (cs : Children) (c : ℕ) (prefix : List ℕ) → AreValid cs → PlaceIsValid (place_in cs c prefix)
  place_in-IsValid end c prefix valid = tt
  place_in-IsValid (child b n cs) c prefix valid =
      let common = common_prefix_len (prefix_of n) prefix in
      elim (Bool-cases (b == c)) [
        | inr away ↦ rw away (place_in-IsValid cs c prefix valid.1.1.1)
        | inl here ↦
            elim (Bool-cases (ltb common (length prefix) && ltb common (length (prefix_of n)))) [
              | inl e ↦ rw (here, e) tt
              | inr e ↦ elim (Bool-cases (leb (length prefix) common)) [
                | inl w ↦ rw (here, e, w) valid.1.0
                | inr w ↦ rw (here, e, w) (place-IsValid n (drop common prefix) valid.1.0)
              ]
            ]
      ]

-- at most the limit, only hashes of keys that go on after the prefix, and all of them short of the limit
pub record Reports (f : List ℕ → Option ℕ) (limit : ℕ) (results : List ℕ) : Type 0 where
  pub bounded : length results ≤ limit
  pub sound : (x : ℕ) → Member x results → (rest : List ℕ) × (f rest ≡ some x)
  pub complete :
      (rest : List ℕ) (x : ℕ) → length results < limit → f rest ≡ some x → Member x results

collect-Reports :
    (n : Node) (ext : List ℕ) (f : List ℕ → Option ℕ) (limit : ℕ)
    → IsValid n
    → ((r : List ℕ) → f r ≡ and_then (strip ext r) (value_at n))
    → Reports f limit (collect_hashes n [] limit)
collect-Reports n ext f limit valid e =
    let zero_off : limit - 0 ≡ limit = omega arith in
    rw (collect_hashes_lem n [] limit, zero_off)
      (record {
        bounded = omega (arith, length-take limit (hashes n));
        sound = λ x m.
            let r = hashes_sound n x valid (Member-take x limit (hashes n) m) in
            (
              ext ++ r.0,
              e (ext ++ r.0) ∙ ap (λ s. and_then s (value_at n)) (strip_whole ext r.0) ∙ r.1,
            );
        complete = complete;
      })
  where
    complete :
        (rest : List ℕ) (x : ℕ)
        → length (take limit (hashes n)) < limit
        → f rest ≡ some x
        → Member x (take limit (hashes n))
    complete rest x short found = elim (Option-cases (strip ext rest)) [
      | inl s ↦ absurd (ground (arith, e rest, s, found))
      | inr (r, s) ↦
          let all = take_all limit (hashes n) (omega (arith, length-take limit (hashes n))) in
          rw all (hashes_complete n r x (ground (arith, e rest, s, found)))
    ]

place-Reports :
    (o : Option Node) (f : List ℕ → Option ℕ) (limit : ℕ)
    → PlaceIsValid o
    → Leads o f
    → Reports f limit (collect_place o limit)
place-Reports none f limit valid leads = record {
  bounded = omega arith;
  sound = λ x m. absurd m;
  complete = λ rest x short found. absurd (ground (arith, leads rest, found));
}
place-Reports (some n) f limit valid leads = collect-Reports n leads.0 f limit valid leads.1

Reports-along :
    (f g : List ℕ → Option ℕ) (limit : ℕ) (results : List ℕ)
    → ((r : List ℕ) → f r ≡ g r)
    → Reports f limit results
    → Reports g limit results
Reports-along f g limit results e r = record {
  bounded = r.bounded;
  sound = λ x m. ((r.sound x m).0, sym (e (r.sound x m).0) ∙ (r.sound x m).1);
  complete = λ rest x short found. r.complete rest x short (e rest ∙ found);
}

-- After any calls of Insert, Delete and Clear on a new tree, FindByPrefix gives at most the limit (100 for no
-- limit), only hashes that the map after the same changes has for keys with the prefix, and, when there are
-- fewer than the limit, the hash of every key with the prefix.
pub find_by_prefix-Reports :
    (calls : List Call) (prefix : List ℕ) (limit : ℕ)
    → Reports
        (λ rest. find same_key (prefix ++ rest) (changes calls []))
        (if limit == 0 then 100 else limit)
        (find_by_prefix (run calls new) prefix limit)
unfolding find_by_prefix
find_by_prefix-Reports calls prefix limit =
    let t = run calls new in
    let at = run-Holds calls new [] new-Holds in
    let limit' = if limit == 0 then 100 else limit in
    Reports-along (λ r. value_at t.root (prefix ++ r))
      (λ r. find same_key (prefix ++ r) (changes calls [])) limit'
      (collect_place (place t.root prefix) limit') (λ r. at.agrees (prefix ++ r))
      (place-Reports (place t.root prefix) (λ r. value_at t.root (prefix ++ r)) limit'
        (place-IsValid t.root prefix at.valid) (place-Leads t.root prefix))

common_whole : (p rest : List ℕ) → common_prefix_len (p ++ rest) p ≡ length p
unfolding common_prefix_len
common_whole [] [] = refl
common_whole [] (y ∷ rest) = refl
common_whole (x ∷ p) rest =
    let same : (x == x) ≡ true = ground arith in rw same (ap suc (common_whole p rest))

module _ (c d hash : ℕ) (p rest : List ℕ) where
  placed :
      place (insert new (c ∷ p ++ d ∷ rest) hash).root (c ∷ p)
      ≡ some (new_leaf (c ∷ p ++ d ∷ rest) hash)
  unfolding insert insert_node place
  placed =
      let same : (c == c) ≡ true = ground arith in
      let late : ltb (length (c ∷ p)) (length (c ∷ p)) ≡ false = ground arith in
      let whole : leb (length (c ∷ p)) (length (c ∷ p)) ≡ true = ground arith in
      rw (same, common_whole (c ∷ p) (d ∷ rest), late, whole) refl

  walked :
      (key : List ℕ) (fn : List ℕ → ℕ → Bool)
      → (walk_node fn (new_leaf (c ∷ p ++ d ∷ rest) hash) key).0 ≡ (key, hash) ∷ []
  unfolding walk_node
  walked key fn = elim (Bool-cases (fn key hash)) [ inl e ↦ rw e refl | inr e ↦ rw e refl ]

  -- In a tree with one key, WalkPrefix of a non-empty prefix of the key that is not all of it calls the function
  -- with the prefix in place of the key.
  pub walk_prefix_lem :
      (fn : List ℕ → ℕ → Bool)
      → walk_prefix (insert new (c ∷ p ++ d ∷ rest) hash) (c ∷ p) fn ≡ (c ∷ p, hash) ∷ []
  unfolding walk_prefix
  walk_prefix_lem fn = ap (walk_place fn (c ∷ p)) placed ∙ walked (c ∷ p) fn
