-- ===== src/Radix/Inserting.antt =====
-- internal/radix/tree.go: Insert against the map that a tree stands for.
use go_mcache.Base.{
  ℕ, ◌≡◌, ◌≢◌, refl, sym, ap, ap₂, ◌∙◌, inl, inr, Bool, true, false, List, [], ◌∷◌, ◌++◌, none,
  some, arith, length, drop, ◌==◌, if◌then◌else◌, Bool-cases, Option-cases, length-append,
}
use mathlib.Core.List.{append-nil}
use go_mcache.Radix.{
  Node, node, Children, end, child, prefix_of, common_prefix_len, new_leaf, put_child,
  add_remaining, under, split_child, insert_node, insert_child,
}
use go_mcache.Radix.Strip.{
  strip, and_then, Apart, parted, take-append, drop-append, strip-append, strip-Apart,
}
use go_mcache.Radix.Map.{value_at, Updates}
use go_mcache.Radix.Updates.{
  Updates-along, below, below-Updates, below_lem, headed, headed-Updates_here, headed-Updates_later,
  headed-leaf, leaf-Updates, node-Updates, prefix-Updates, root-Updates, value_at-prefix,
}

module _ (x : ℕ) (v : List ℕ) (leaf : Bool) (h : ℕ) (cs : Children) (u : List ℕ) (hash : ℕ) where
  abbrev old : Node
  old = node (x ∷ v) leaf h cs

  -- the first byte sends a key to the old child or away from it
  old_below :
      (d : ℕ) (r : List ℕ)
      → and_then (strip (x ∷ v) (d ∷ r)) (value_at old)
        ≡ (if x == d then and_then (strip (x ∷ v) (d ∷ r)) (value_at old) else none)
  old_below d r = elim (Bool-cases (x == d)) [
    | inl e ↦ rw e refl
    | inr e ↦ rw e (rw (strip-Apart v r x d λ p. ground arith) refl)
  ]

  parted-Updates :
      (w : List ℕ)
      → Apart (x ∷ v) w
      → Updates w
          (some hash)
          (λ r. and_then (strip (x ∷ v) r) (value_at old))
          (value_at (add_remaining u w hash (child x old end)))
  unfolding add_remaining put_child value_at
  parted-Updates [] apart = record { here = refl; others = others }
    where
      others :
          (k : List ℕ)
          → [] ≢ k
          → value_at (node u true hash (child x old end)) k
            ≡ and_then (strip (x ∷ v) k) (value_at old)
      others [] other = absurd (other refl)
      others (d ∷ r) other = sym (old_below d r)
  parted-Updates (y ∷ w) apart =
      let away : (x == y) ≡ false = ground arith in
      let same : (y == y) ≡ true = ground arith in
      rw away (record {
        here = rw (away, same) (leaf-Updates (y ∷ w) (y ∷ w) hash).here;
        others = others;
      })
    where
      others :
          (k : List ℕ)
          → y ∷ w ≢ k
          → value_at (node u false 0 (child x old (child y (new_leaf (y ∷ w) hash) end))) k
            ≡ and_then (strip (x ∷ v) k) (value_at old)
      others [] other = unfold strip in refl
      others (d ∷ r) other = elim (Bool-cases (x == d)) [
        | inl e ↦ rw e refl
        | inr e ↦
            let none' = (leaf-Updates (y ∷ w) (y ∷ w) hash).others (d ∷ r) other in
            rw (e, old_below d r) (ground (arith, none'))
      ]

  pub split_child_lem :
      (w : List ℕ)
      → split_child (length u) (node (u ++ x ∷ v) leaf h cs) (u ++ w) hash
        ≡ add_remaining u w hash (child x old end)
  unfolding split_child under
  split_child_lem w = rw (take-append u (x ∷ v), drop-append u (x ∷ v), drop-append u w) refl

pub prefix_of-insert_node :
    (n : Node) (key : List ℕ) (hash : ℕ) → prefix_of (insert_node n key hash).0 ≡ prefix_of n
unfolding insert_node
prefix_of-insert_node (node p leaf h cs) [] hash = refl
prefix_of-insert_node (node p leaf h cs) (c ∷ key) hash = refl

-- the child of the byte of the key, after the insertion
abbrev pub new_child : Node → List ℕ → ℕ → Node
new_child n key hash =
    let common = common_prefix_len (prefix_of n) key in
    if common == length (prefix_of n)
    then (insert_node n (drop common key) hash).0
    else split_child common n key hash

module _ (n : Node) (p w : List ℕ) (hash : ℕ) where
  deeper_up :
      prefix_of n ≡ p
      → common_prefix_len p (p ++ w) ≡ length p
      → Updates w (some hash) (value_at n) (value_at (insert_node n w hash).0)
      → Updates (p ++ w) (some hash) (below n) (below (new_child n (p ++ w) hash))
  deeper_up e len up =
      let whole : (length p == length p) ≡ true = ground arith in
      let same : new_child n (p ++ w) hash ≡ (insert_node n w hash).0 =
        rw (e, len, whole, drop-append p w) refl in
      rw same (
        below-Updates n (insert_node n w hash).0 p w (some hash) e
          (prefix_of-insert_node n w hash ∙ e) up)

module _ (u : List ℕ) (x : ℕ) (v : List ℕ) (leaf : Bool) (h : ℕ) (cs : Children) (hash : ℕ) where
  abbrev long : Node
  long = node (u ++ x ∷ v) leaf h cs

  pub prefix_of-add_remaining :
      (w : List ℕ) (ds : Children) → prefix_of (add_remaining u w hash ds) ≡ u
  unfolding add_remaining
  prefix_of-add_remaining [] ds = refl
  prefix_of-add_remaining (y ∷ w) ds = refl

  below-long :
      (k : List ℕ)
      → and_then (strip u k) (λ r. and_then (strip (x ∷ v) r) (value_at (old x v leaf h cs u hash)))
        ≡ below long k
  below-long k = elim (Option-cases (strip u k)) [
    | inl e ↦ rw (strip-append u (x ∷ v) k, e) refl
    | inr (r, e) ↦
        rw (strip-append u (x ∷ v) k, e)
          (elim (Option-cases (strip (x ∷ v) r)) [
            | inl e' ↦ rw e' refl
            | inr (r', e') ↦ rw e' (value_at-prefix (x ∷ v) (u ++ x ∷ v) leaf h cs r')
          ])
  ]

  split_up :
      (w : List ℕ)
      → Apart (x ∷ v) w
      → common_prefix_len (u ++ x ∷ v) (u ++ w) ≡ length u
      → Updates (u ++ w) (some hash) (below long) (below (new_child long (u ++ w) hash))
  split_up w apart len =
      let short : (length u == length (u ++ x ∷ v)) ≡ false =
        ground (arith, length-append u (x ∷ v)) in
      let new = add_remaining u w hash (child x (old x v leaf h cs u hash) end) in
      let same : new_child long (u ++ w) hash ≡ new =
        rw (len, short) (split_child_lem x v leaf h cs u hash w) in
      let up =
        prefix-Updates u w (some hash)
          (λ r. and_then (strip (x ∷ v) r) (value_at (old x v leaf h cs u hash))) (value_at new)
          (parted-Updates x v leaf h cs u hash w apart) in
      rw same (
        Updates-along (u ++ w) (some hash) _ (below long) _ (below new) below-long
          (λ k.
            below_lem new u k (prefix_of-add_remaining w (child x (old x v leaf h cs u hash) end)))
          up)

pub child_up :
    (n : Node) (key u v w : List ℕ) (hash : ℕ)
    → prefix_of n ≡ u ++ v
    → key ≡ u ++ w
    → Apart v w
    → common_prefix_len (prefix_of n) key ≡ length u
    → ((w : List ℕ) → Updates w (some hash) (value_at n) (value_at (insert_node n w hash).0))
    → Updates key (some hash) (below n) (below (new_child n key hash))
child_up n key u [] w hash ep ek apart len ih =
    let plain : prefix_of n ≡ u = ep ∙ append-nil u in
    let cut : key ≡ prefix_of n ++ w = ek ∙ ap (λ u. u ++ w) (sym plain) in
    let len' = ap (common_prefix_len (prefix_of n)) (sym cut) ∙ len ∙ ap length (sym plain) in
    rw cut (deeper_up n (prefix_of n) w hash refl len' (ih w))
child_up (node p leaf h cs) key u (x ∷ v) w hash ep ek apart len ih =
    let len' : common_prefix_len (u ++ x ∷ v) (u ++ w) ≡ length u =
      ap₂ common_prefix_len (sym ep) (sym ek) ∙ len in
    rw (ek, ep) (split_up u x v leaf h cs hash w apart len')

pub insert_child_here :
    (b c : ℕ) (n : Node) (cs : Children) (key : List ℕ) (hash : ℕ)
    → (b == c) ≡ true
    → (insert_child (child b n cs) c key hash).0 ≡ child b (new_child n key hash) cs
unfolding insert_node
insert_child_here b c n cs key hash here =
    elim (Bool-cases (common_prefix_len (prefix_of n) key == length (prefix_of n))) [
      | inl e ↦ rw (here, e) refl
      | inr e ↦ rw (here, e) refl
    ]

mutual
  unfolding insert_node

  pub insert_node-Updates :
      (n : Node) (key : List ℕ) (hash : ℕ)
      → Updates key (some hash) (value_at n) (value_at (insert_node n key hash).0)
  insert_node-Updates (node p leaf h cs) [] hash =
      root-Updates p leaf true h hash cs (some hash) refl
  insert_node-Updates (node p leaf h cs) (c ∷ key) hash =
      node-Updates p leaf h cs (insert_child cs c (c ∷ key) hash).0 c key (some hash)
        (insert_child-Updates cs c key hash)

  insert_child-Updates :
      (cs : Children) (c : ℕ) (key : List ℕ) (hash : ℕ)
      → Updates (c ∷ key) (some hash) (headed cs) (headed (insert_child cs c (c ∷ key) hash).0)
  insert_child-Updates end c key hash = headed-leaf c key hash
  insert_child-Updates (child b n cs) c key hash =
      let r = parted (prefix_of n) (c ∷ key) in
      elim (Bool-cases (b == c)) [
        | inl here ↦ rw (insert_child_here b c n cs (c ∷ key) hash here) (
            headed-Updates_here b c n (new_child n (c ∷ key) hash) cs key (some hash) here (
              child_up n (c ∷ key) r.common r.rest_of_prefix r.rest_of_key hash r.prefix_cut
                r.key_cut r.apart r.len (λ w. insert_node-Updates n w hash)))
        | inr away ↦ rw away (
            headed-Updates_later b c n cs (insert_child cs c (c ∷ key) hash).0 key (some hash) away
              (insert_child-Updates cs c key hash))
      ]
