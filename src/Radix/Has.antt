-- ===== src/Radix/Has.antt =====
-- internal/radix/tree.go: Has against the map that a tree stands for.
use go_mcache.Base.{
  ℕ, ◌≡◌, refl, ap, inl, inr, Bool, true, false, List, [], ◌∷◌, Option, none, some, arith, length,
  drop, ltb, ◌==◌, if◌then◌else◌, Bool-cases, length-append,
}
use go_mcache.Radix.{
  Node, node, Children, end, child, prefix_of, is_leaf, common_prefix_len, has_node, has_child,
}
use go_mcache.Radix.Strip.{strip, and_then, meets}
use go_mcache.Radix.Map.{value_at, value_in}

abbrev pub is_some : Option ℕ → Bool
is_some none = false
is_some (some h) = true

is_leaf_lem : (n : Node) → is_leaf n ≡ is_some (value_at n [])
unfolding value_at
is_leaf_lem (node p true h cs) = refl
is_leaf_lem (node p false h cs) = refl

-- one step of the loop, at the child of the byte
has_below :
    (n : Node) (key : List ℕ)
    → ((w : List ℕ) → has_node n w ≡ is_some (value_at n w))
    → (if ltb (common_prefix_len (prefix_of n) key) (length (prefix_of n))
        then false
        else if common_prefix_len (prefix_of n) key == length key
        then is_leaf n
        else has_node n (drop (common_prefix_len (prefix_of n) key) key))
      ≡ is_some (and_then (strip (prefix_of n) key) (value_at n))
has_below n key ih = elim (meets (prefix_of n) key) [
  | inr l ↦
      let early : ltb (common_prefix_len (prefix_of n) key) (length (prefix_of n)) ≡ true =
        ground (arith, l.early) in
      rw (early, l.stripped) refl
  | inl f ↦
      let late : ltb (length (prefix_of n)) (length (prefix_of n)) ≡ false = ground arith in
      rw (f.stripped, f.whole, late, f.dropped)
        (elim (Bool-cases (length (prefix_of n) == length key)) [
          | inl e ↦
              rw e (
                at_end f.rest (ground (arith, ap length f.cut, length-append (prefix_of n) f.rest)))
          | inr e ↦ rw e (ih f.rest)
        ])
]
  where
    at_end : (w : List ℕ) → length w ≡ 0 → is_leaf n ≡ is_some (value_at n w)
    at_end [] e = is_leaf_lem n
    at_end (c ∷ w) e = absurd (omega arith)

mutual
  unfolding has_node value_at

  pub has_node_lem : (n : Node) (key : List ℕ) → has_node n key ≡ is_some (value_at n key)
  has_node_lem (node p true h cs) [] = refl
  has_node_lem (node p false h cs) [] = refl
  has_node_lem (node p leaf h cs) (c ∷ key) = has_child_lem cs c (c ∷ key)

  has_child_lem :
      (cs : Children) (c : ℕ) (key : List ℕ) → has_child cs c key ≡ is_some (value_in cs c key)
  has_child_lem end c key = refl
  has_child_lem (child b n cs) c key = elim (Bool-cases (b == c)) [
    | inl here ↦ rw here (has_below n key (λ w. has_node_lem n w))
    | inr away ↦ rw away (has_child_lem cs c key)
  ]
