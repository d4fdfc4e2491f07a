-- ===== src/Radix/Deleting.antt =====
-- internal/radix/tree.go: Delete against the map that a tree stands for, and that it keeps a tree well formed.
use go_mcache.Base.{
  ℕ, ◌≡◌, ◌≢◌, refl, sym, inl, inr, Bool, true, false, List, [], ◌∷◌, ◌++◌, none, arith, length,
  drop, ltb, ◌==◌, Bool-cases, Option-cases,
}
use std.Path.{subst}
use go_mcache.Radix.{
  Node, node, Children, end, child, prefix_of, common_prefix_len, cleaned, delete_node,
  delete_child,
}
use go_mcache.Radix.Strip.{strip, and_then, strip-append}
use go_mcache.Radix.Map.{value_at, value_in, StartsWith, Lacks, IsValid, AreValid}
use go_mcache.Radix.Updates.{headed, value_at-prefix}

pub value_in-Lacks : (c : ℕ) (cs : Children) (key : List ℕ) → Lacks c cs → value_in cs c key ≡ none
unfolding value_at
value_in-Lacks c end key lacks = refl
value_in-Lacks c (child b n cs) key lacks =
    let away : (b == c) ≡ false = ground (arith, lacks.0) in
    rw away (value_in-Lacks c cs key lacks.1)

-- a node that holds nothing and one child answers what the merged child does
merged :
    (p q : List ℕ) (h h' b : ℕ) (leaf : Bool) (ds : Children) (k : List ℕ)
    → StartsWith b q
    → value_at (node p false h (child b (node q leaf h' ds) end)) k
      ≡ and_then (strip q k) (value_at (node (p ++ q) leaf h' ds))
unfolding value_at strip
merged p [] h h' b leaf ds k starts = absurd starts
merged p (x ∷ q) h h' b leaf ds [] starts = refl
merged p (x ∷ q) h h' b leaf ds (e ∷ k) starts = elim (Bool-cases (b == e)) [
  | inr away ↦ let apart : (x == e) ≡ false = ground arith in rw (away, apart) refl
  | inl here ↦
      let same : (x == e) ≡ true = ground arith in
      rw (here, same)
        (elim (Option-cases (strip q k)) [
          | inl s ↦ rw s refl
          | inr (r, s) ↦ rw s (value_at-prefix (x ∷ q) (p ++ x ∷ q) leaf h' ds r)
        ])
]

empty_none : (p : List ℕ) (h : ℕ) (k : List ℕ) → value_at (node p false h end) k ≡ none
unfolding value_at
empty_none p h [] = refl
empty_none p h (d ∷ k) = refl

-- cleaning up changes no answer
pub cleaned_lem :
    (b : ℕ) (m : Node) (cs : Children) (k : List ℕ)
    → Lacks b cs
    → IsValid m
    → headed (child b m cs) k ≡ headed (cleaned b m cs) k
unfolding value_at cleaned
cleaned_lem b (node p true h ds) cs k lacks valid = refl
cleaned_lem b (node p false h end) cs [] lacks valid = refl
cleaned_lem b (node p false h end) cs (d ∷ k) lacks valid = elim (Bool-cases (b == d)) [
  | inr away ↦ rw away refl
  | inl here ↦
      let same : b ≡ d = ground arith in
      let absent : value_in cs d (d ∷ k) ≡ none =
        subst (λ c. value_in cs c (d ∷ k) ≡ none) same (value_in-Lacks b cs (d ∷ k) lacks) in
      rw (here, absent)
        (elim (Option-cases (strip p (d ∷ k))) [
          | inl s ↦ rw s refl
          | inr (r, s) ↦ rw s (empty_none p h r)
        ])
]
cleaned_lem b (node p false h (child b' (node q leaf h' ds) end)) cs [] lacks valid = refl
cleaned_lem b (node p false h (child b' (node q leaf h' ds) end)) cs (d ∷ k) lacks valid =
    elim (Bool-cases (b == d)) [
      | inr away ↦ rw away refl
      | inl here ↦
          rw (here, strip-append p q (d ∷ k))
            (elim (Option-cases (strip p (d ∷ k))) [
              | inl s ↦ rw s refl
              | inr (r, s) ↦ rw s (merged p q h h' b' leaf ds r valid.0)
            ])
    ]
cleaned_lem b (node p false h (child b' (node q l h' ds) (child b2 n2 ds2))) cs k lacks valid = refl

starts-append : (b : ℕ) (p q : List ℕ) → StartsWith b p → StartsWith b (p ++ q)
starts-append b [] q starts = absurd starts
starts-append b (x ∷ p) q starts = starts

cleaned-AreValid :
    (b : ℕ) (m : Node) (cs : Children)
    → StartsWith b (prefix_of m)
    → IsValid m
    → Lacks b cs
    → AreValid cs
    → AreValid (cleaned b m cs)
unfolding cleaned
cleaned-AreValid b (node p true h ds) cs starts valid lacks rest = (starts, (valid, (lacks, rest)))
cleaned-AreValid b (node p false h end) cs starts valid lacks rest = rest
cleaned-AreValid b (node p false h (child b' (node q leaf h' ds) end)) cs starts valid lacks rest =
    (starts-append b p q starts, (valid.1.0, (lacks, rest)))
cleaned-AreValid b (node p false h (child b' (node q l h' ds) (child b2 n2 ds2))) cs starts valid
      lacks rest =
    (starts, (valid, (lacks, rest)))

Lacks-cleaned : (a b : ℕ) (m : Node) (cs : Children) → b ≢ a → Lacks a cs → Lacks a (cleaned b m cs)
unfolding cleaned
Lacks-cleaned a b (node p true h ds) cs other lacks = (other, lacks)
Lacks-cleaned a b (node p false h end) cs other lacks = lacks
Lacks-cleaned a b (node p false h (child b' (node q leaf h' ds) end)) cs other lacks =
    (other, lacks)
Lacks-cleaned a b (node p false h (child b' (node q l h' ds) (child b2 n2 ds2))) cs other lacks =
    (other, lacks)

pub prefix_of-delete_node :
    (n : Node) (key : List ℕ) → prefix_of (delete_node n key).0 ≡ prefix_of n
unfolding delete_node
prefix_of-delete_node (node p true h cs) [] = refl
prefix_of-delete_node (node p false h cs) [] = refl
prefix_of-delete_node (node p leaf h cs) (c ∷ key) = refl

Lacks-delete_child :
    (b c : ℕ) (cs : Children) (key : List ℕ) → Lacks b cs → Lacks b (delete_child cs c key).0
unfolding delete_node
Lacks-delete_child b c end key lacks = lacks
Lacks-delete_child b c (child d n cs) key lacks = elim (Bool-cases (d == c)) [
  | inr away ↦ rw away (lacks.0, Lacks-delete_child b c cs key lacks.1)
  | inl here ↦
      elim (Bool-cases (ltb (common_prefix_len (prefix_of n) key) (length (prefix_of n)))) [
        | inl early ↦ rw (here, early) lacks
        | inr late ↦
            rw (here, late)
              (Lacks-cleaned b d (delete_node n (drop (common_prefix_len (prefix_of n) key) key)).0
                cs lacks.0 lacks.1)
      ]
]

mutual
  unfolding delete_node

  pub delete_node-IsValid : (n : Node) (key : List ℕ) → IsValid n → IsValid (delete_node n key).0
  delete_node-IsValid (node p true h cs) [] valid = valid
  delete_node-IsValid (node p false h cs) [] valid = valid
  delete_node-IsValid (node p leaf h cs) (c ∷ key) valid =
      delete_child-AreValid cs c (c ∷ key) valid

  delete_child-AreValid :
      (cs : Children) (c : ℕ) (key : List ℕ) → AreValid cs → AreValid (delete_child cs c key).0
  delete_child-AreValid end c key valid = tt
  delete_child-AreValid (child b n cs) c key valid = elim (Bool-cases (b == c)) [
    | inr away ↦ rw away (
      valid.0,
      (
        valid.1.0,
        (Lacks-delete_child b c cs key valid.1.1.0, delete_child-AreValid cs c key valid.1.1.1),
      ),
    )
    | inl here ↦
        elim (Bool-cases (ltb (common_prefix_len (prefix_of n) key) (length (prefix_of n)))) [
          | inl early ↦ rw (here, early) valid
          | inr late ↦
              let rest = drop (common_prefix_len (prefix_of n) key) key in
              rw (here, late)
                (cleaned-AreValid b (delete_node n rest).0 cs
                  (subst (λ p. StartsWith b p) (sym (prefix_of-delete_node n rest)) valid.0)
                  (delete_node-IsValid n rest valid.1.0) valid.1.1.0 valid.1.1.1)
        ]
  ]
