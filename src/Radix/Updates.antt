-- ===== src/Radix/Updates.antt =====
-- internal/radix/tree.go: how a change below a prefix, a child or a node changes the map that a tree stands for.
use go_mcache.Base.{
  ℕ, ◌≡◌, ◌≢◌, refl, sym, ap, ◌∙◌, inl, inr, Bool, true, false, List, [], ◌∷◌, ◌++◌, Option, none,
  some, arith, ◌==◌, if◌then◌else◌, Bool-cases, Option-cases,
}
use mathlib.Core.List.{append-nil}
use go_mcache.Radix.{Node, node, Children, end, child, prefix_of, new_leaf}
use go_mcache.Radix.Strip.{strip, and_then, strip_whole, strip_sound}
use go_mcache.Radix.Map.{value_at, value_in, Updates}

pub strip_self : (p : List ℕ) → strip p p ≡ some []
unfolding strip
strip_self [] = refl
strip_self (x ∷ p) = ground (arith, strip_self p)

-- a new leaf holds one key
pub leaf-Updates :
    (p q : List ℕ) (hash : ℕ)
    → Updates p (some hash) (λ k. none) (λ k. and_then (strip p k) (value_at (new_leaf q hash)))
leaf-Updates p q hash = record { here = rw (strip_self p) (leaf_root q hash); others = others }
  where
    leaf_root : (q : List ℕ) (hash : ℕ) → value_at (new_leaf q hash) [] ≡ some hash
    leaf_root q hash = unfold value_at in refl

    others : (k : List ℕ) → p ≢ k → and_then (strip p k) (value_at (new_leaf q hash)) ≡ none
    others k other = elim (Option-cases (strip p k)) [
      | inl h ↦ rw h refl
      | inr ([], h) ↦ absurd (other (sym (strip_sound p k [] h ∙ append-nil p)))
      | inr (c ∷ r, h) ↦ rw h (unfold value_at in refl)
    ]

-- below a prefix
pub prefix-Updates :
    (u w : List ℕ) (change : Option ℕ) (f g : List ℕ → Option ℕ)
    → Updates w change f g
    → Updates (u ++ w) change (λ k. and_then (strip u k) f) (λ k. and_then (strip u k) g)
prefix-Updates u w change f g up = record { here = rw (strip_whole u w) up.here; others = others }
  where
    others : (k : List ℕ) → u ++ w ≢ k → and_then (strip u k) g ≡ and_then (strip u k) f
    others k other = elim (Option-cases (strip u k)) [
      | inl h ↦ rw h refl
      | inr (r, h) ↦
          rw h (up.others r (λ e. other (ap (λ t. u ++ t) e ∙ sym (strip_sound u k r h))))
    ]

-- the keys below a child
abbrev pub below : Node → List ℕ → Option ℕ
below n k = and_then (strip (prefix_of n) k) (value_at n)

-- the keys below all children of a node
abbrev pub headed : Children → List ℕ → Option ℕ
headed cs [] = none
headed cs (c ∷ key) = value_in cs c (c ∷ key)

-- a prefix says nothing about what is below it
pub value_at-prefix :
    (p q : List ℕ) (leaf : Bool) (h : ℕ) (cs : Children) (k : List ℕ)
    → value_at (node p leaf h cs) k ≡ value_at (node q leaf h cs) k
unfolding value_at
value_at-prefix p q leaf h cs [] = refl
value_at-prefix p q leaf h cs (c ∷ k) = refl

-- the same maps by other functions
pub Updates-along :
    (key : List ℕ) (change : Option ℕ) (f f' g g' : List ℕ → Option ℕ)
    → ((k : List ℕ) → f k ≡ f' k)
    → ((k : List ℕ) → g k ≡ g' k)
    → Updates key change f g
    → Updates key change f' g'
Updates-along key change f f' g g' from to up = record {
  here = sym (to key) ∙ up.here;
  others = λ k other. sym (to k) ∙ up.others k other ∙ from k;
}

pub below_lem :
    (n : Node) (p : List ℕ) (k : List ℕ)
    → prefix_of n ≡ p
    → and_then (strip p k) (value_at n) ≡ below n k
below_lem n p k e = ap (λ q. and_then (strip q k) (value_at n)) (sym e)

-- a child whose prefix does not change
pub below-Updates :
    (n m : Node) (p w : List ℕ) (change : Option ℕ)
    → prefix_of n ≡ p
    → prefix_of m ≡ p
    → Updates w change (value_at n) (value_at m)
    → Updates (p ++ w) change (below n) (below m)
below-Updates n m p w change en em up =
    Updates-along (p ++ w) change _ (below n) _ (below m) (λ k. below_lem n p k en)
      (λ k. below_lem m p k em) (prefix-Updates p w change (value_at n) (value_at m) up)

-- a change of the child of a byte, and of no other
pub headed-Updates_here :
    (b c : ℕ) (n m : Node) (cs : Children) (key : List ℕ) (change : Option ℕ)
    → (b == c) ≡ true
    → Updates (c ∷ key) change (below n) (below m)
    → Updates (c ∷ key) change (headed (child b n cs)) (headed (child b m cs))
unfolding value_at
headed-Updates_here b c n m cs key change here up = record {
  here = rw here up.here;
  others = others;
}
  where
    others : (k : List ℕ) → c ∷ key ≢ k → headed (child b m cs) k ≡ headed (child b n cs) k
    others [] other = refl
    others (d ∷ k) other = elim (Bool-cases (b == d)) [
      | inl e ↦ rw e (up.others (d ∷ k) other)
      | inr e ↦ rw e refl
    ]

pub headed-Updates_later :
    (b c : ℕ) (n : Node) (cs ds : Children) (key : List ℕ) (change : Option ℕ)
    → (b == c) ≡ false
    → Updates (c ∷ key) change (headed cs) (headed ds)
    → Updates (c ∷ key) change (headed (child b n cs)) (headed (child b n ds))
unfolding value_at
headed-Updates_later b c n cs ds key change away up = record {
  here = rw away up.here;
  others = others;
}
  where
    others : (k : List ℕ) → c ∷ key ≢ k → headed (child b n ds) k ≡ headed (child b n cs) k
    others [] other = refl
    others (d ∷ k) other = elim (Bool-cases (b == d)) [
      | inl e ↦ rw e refl
      | inr e ↦ rw e (up.others (d ∷ k) other)
    ]

pub headed-leaf :
    (c : ℕ) (key : List ℕ) (hash : ℕ)
    → Updates (c ∷ key) (some hash) (headed end) (headed (child c (new_leaf (c ∷ key) hash) end))
unfolding value_at
headed-leaf c key hash =
    let same : (c == c) ≡ true = ground arith in
    let up = leaf-Updates (c ∷ key) (c ∷ key) hash in
    record { here = rw same up.here; others = others }
  where
    others :
        (k : List ℕ) → c ∷ key ≢ k → headed (child c (new_leaf (c ∷ key) hash) end) k ≡ headed end k
    others [] other = refl
    others (d ∷ k) other = elim (Bool-cases (c == d)) [
      | inl e ↦ rw e ((leaf-Updates (c ∷ key) (c ∷ key) hash).others (d ∷ k) other)
      | inr e ↦ rw e refl
    ]

-- the value at the node itself stays
pub node-Updates :
    (p : List ℕ) (leaf : Bool) (h : ℕ) (cs ds : Children) (c : ℕ) (key : List ℕ) (change : Option ℕ)
    → Updates (c ∷ key) change (headed cs) (headed ds)
    → Updates (c ∷ key) change (value_at (node p leaf h cs)) (value_at (node p leaf h ds))
unfolding value_at
node-Updates p leaf h cs ds c key change up = record { here = up.here; others = others }
  where
    others :
        (k : List ℕ) → c ∷ key ≢ k → value_at (node p leaf h ds) k ≡ value_at (node p leaf h cs) k
    others [] other = refl
    others (d ∷ k) other = up.others (d ∷ k) other

pub root-Updates :
    (p : List ℕ) (leaf leaf' : Bool) (h h' : ℕ) (cs : Children) (change : Option ℕ)
    → (if leaf' then some h' else none) ≡ change
    → Updates [] change (value_at (node p leaf h cs)) (value_at (node p leaf' h' cs))
unfolding value_at
root-Updates p leaf leaf' h h' cs change e = record { here = e; others = others }
  where
    others : (k : List ℕ) → [] ≢ k → value_at (node p leaf' h' cs) k ≡ value_at (node p leaf h cs) k
    others [] other = absurd (other refl)
    others (d ∷ k) other = refl
