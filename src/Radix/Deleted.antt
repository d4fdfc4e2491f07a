-- ===== src/Radix/Deleted.antt =====
-- internal/radix/tree.go: Delete against the map that a tree stands for, and what Insert and Delete report.
use std.Path.{subst}
use go_mcache.Base.{
  ℕ, ◌≡◌, refl, sym, inl, inr, true, false, not, List, [], ◌∷◌, Option, none, arith, length, ltb,
  ◌==◌, Bool-cases,
}
use go_mcache.Radix.{
  Node, node, Children, end, child, prefix_of, common_prefix_len, insert_node, insert_child,
  cleaned, delete_node, delete_child,
}
use go_mcache.Radix.Strip.{strip, Follows, meets}
use go_mcache.Radix.Map.{value_at, value_in, Lacks, IsValid, AreValid, Updates}
use go_mcache.Radix.Updates.{
  below, headed, Updates-along, below-Updates, headed-Updates_here, headed-Updates_later,
  node-Updates, root-Updates,
}
use go_mcache.Radix.Has.{is_some}
use go_mcache.Radix.Deleting.{cleaned_lem, prefix_of-delete_node, delete_node-IsValid}

-- nothing was there
nothing : (key : List ℕ) (f : List ℕ → Option ℕ) → f key ≡ none → Updates key none f f
nothing key f absent = record { here = absent; others = λ k other. refl }

-- the child of the byte, when the key goes on after its prefix
child_gone :
    (b c : ℕ) (n : Node) (cs : Children) (key : List ℕ)
    → (b == c) ≡ true
    → IsValid n
    → Lacks b cs
    → (f : Follows (prefix_of n) (c ∷ key))
    → Updates f.rest none (value_at n) (value_at (delete_node n f.rest).0)
    → Updates
        (c ∷ key)
        none
        (headed (child b n cs))
        (headed (cleaned b (delete_node n f.rest).0 cs))
child_gone b c n cs key here valid lacks f up =
    let m = (delete_node n f.rest).0 in
    let gone =
      below-Updates n m (prefix_of n) f.rest none refl (prefix_of-delete_node n f.rest) up in
    let there =
      headed-Updates_here b c n m cs key none here
        (subst (λ k. Updates k none (below n) (below m)) (sym f.cut) gone) in
    Updates-along (c ∷ key) none (headed (child b n cs)) (headed (child b n cs))
      (headed (child b m cs)) (headed (cleaned b m cs)) (λ k. refl)
      (λ k. cleaned_lem b m cs k lacks (delete_node-IsValid n f.rest valid)) there

absent_end : (c : ℕ) (key : List ℕ) → headed end (c ∷ key) ≡ none
unfolding value_at
absent_end c key = refl

absent_below :
    (b c : ℕ) (n : Node) (cs : Children) (key : List ℕ)
    → (b == c) ≡ true
    → strip (prefix_of n) (c ∷ key) ≡ none
    → headed (child b n cs) (c ∷ key) ≡ none
unfolding value_at
absent_below b c n cs key here away = rw (here, away) refl

mutual
  unfolding delete_node

  pub delete_node-Updates :
      (n : Node) (key : List ℕ)
      → IsValid n
      → Updates key none (value_at n) (value_at (delete_node n key).0)
  delete_node-Updates (node p true h cs) [] valid = root-Updates p true false h 0 cs none refl
  delete_node-Updates (node p false h cs) [] valid = root-Updates p false false h h cs none refl
  delete_node-Updates (node p leaf h cs) (c ∷ key) valid =
      node-Updates p leaf h cs (delete_child cs c (c ∷ key)).0 c key none
        (delete_child-Updates cs c key valid)

  delete_child-Updates :
      (cs : Children) (c : ℕ) (key : List ℕ)
      → AreValid cs
      → Updates (c ∷ key) none (headed cs) (headed (delete_child cs c (c ∷ key)).0)
  delete_child-Updates end c key valid = nothing (c ∷ key) (headed end) (absent_end c key)
  delete_child-Updates (child b n cs) c key valid = elim (Bool-cases (b == c)) [
    | inr away ↦ rw away (
        headed-Updates_later b c n cs (delete_child cs c (c ∷ key)).0 key none away
          (delete_child-Updates cs c key valid.1.1.1))
    | inl here ↦ elim (meets (prefix_of n) (c ∷ key)) [
      | inr l ↦
          let early : ltb (common_prefix_len (prefix_of n) (c ∷ key)) (length (prefix_of n))
              ≡ true =
            ground (arith, l.early) in
          rw (here, early)
            (nothing (c ∷ key) (headed (child b n cs)) (absent_below b c n cs key here l.stripped))
      | inl f ↦
          let late : ltb (length (prefix_of n)) (length (prefix_of n)) ≡ false = ground arith in
          rw (here, f.whole, late, f.dropped)
            (child_gone b c n cs key here valid.1.0 valid.1.1.0 f
              (delete_node-Updates n f.rest valid.1.0))
    ]
  ]

mutual
  unfolding delete_node value_at

  -- Delete reports whether the key was there
  pub delete_node_reports :
      (n : Node) (key : List ℕ) → (delete_node n key).1 ≡ is_some (value_at n key)
  delete_node_reports (node p true h cs) [] = refl
  delete_node_reports (node p false h cs) [] = refl
  delete_node_reports (node p leaf h cs) (c ∷ key) = delete_child_reports cs c (c ∷ key)

  delete_child_reports :
      (cs : Children) (c : ℕ) (key : List ℕ)
      → (delete_child cs c key).1 ≡ is_some (value_in cs c key)
  delete_child_reports end c key = refl
  delete_child_reports (child b n cs) c key = elim (Bool-cases (b == c)) [
    | inr away ↦ rw away (delete_child_reports cs c key)
    | inl here ↦ elim (meets (prefix_of n) key) [
      | inr l ↦
          let early : ltb (common_prefix_len (prefix_of n) key) (length (prefix_of n)) ≡ true =
            ground (arith, l.early) in
          rw (here, early, l.stripped) refl
      | inl f ↦
          let late : ltb (length (prefix_of n)) (length (prefix_of n)) ≡ false = ground arith in
          rw (here, f.whole, late, f.dropped, f.stripped) (delete_node_reports n f.rest)
    ]
  ]

mutual
  unfolding insert_node value_at

  -- Insert reports whether the key is new
  pub insert_node_reports :
      (n : Node) (key : List ℕ) (hash : ℕ)
      → (insert_node n key hash).1 ≡ not (is_some (value_at n key))
  insert_node_reports (node p true h cs) [] hash = refl
  insert_node_reports (node p false h cs) [] hash = refl
  insert_node_reports (node p leaf h cs) (c ∷ key) hash = insert_child_reports cs c (c ∷ key) hash

  insert_child_reports :
      (cs : Children) (c : ℕ) (key : List ℕ) (hash : ℕ)
      → (insert_child cs c key hash).1 ≡ not (is_some (value_in cs c key))
  insert_child_reports end c key hash = refl
  insert_child_reports (child b n cs) c key hash = elim (Bool-cases (b == c)) [
    | inr away ↦ rw away (insert_child_reports cs c key hash)
    | inl here ↦ elim (meets (prefix_of n) key) [
      | inr l ↦
          let short : (common_prefix_len (prefix_of n) key == length (prefix_of n)) ≡ false =
            ground (arith, l.early) in
          rw (here, short, l.stripped) refl
      | inl f ↦
          let whole : (length (prefix_of n) == length (prefix_of n)) ≡ true = ground arith in
          rw (here, f.whole, whole, f.dropped, f.stripped) (insert_node_reports n f.rest hash)
    ]
  ]
