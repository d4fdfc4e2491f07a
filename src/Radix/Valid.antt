-- ===== src/Radix/Valid.antt =====
-- internal/radix/tree.go: Insert keeps a tree well formed.
use go_mcache.Base.{
  ℕ, ◌≡◌, ◌≢◌, refl, sym, ap, ◌∙◌, inl, inr, Bool, true, false, List, [], ◌∷◌, ◌++◌, arith, length,
  drop, ◌==◌, Bool-cases, length-append,
}
use go_mcache.Radix.{
  Node, node, Children, end, child, prefix_of, common_prefix_len, put_child, add_remaining,
  insert_node, insert_child,
}
use go_mcache.Radix.Strip.{Apart, parted}
use std.Path.{subst}
use go_mcache.Radix.Map.{StartsWith, Lacks, IsValid, AreValid}
use go_mcache.Radix.Inserting.{
  new_child, insert_child_here, split_child_lem, prefix_of-insert_node, prefix_of-add_remaining,
}

starts_first :
    (b x : ℕ) (u v w : List ℕ)
    → StartsWith b (u ++ x ∷ v)
    → StartsWith b (u ++ w)
    → Apart (x ∷ v) w
    → StartsWith b u
starts_first b x [] v [] p k apart = k
starts_first b x [] v (y ∷ w) p k apart = absurd (apart (p ∙ sym k))
starts_first b x (a ∷ u) v w p k apart = p

-- the two children of a node that has been parted
parted-IsValid :
    (x : ℕ) (v : List ℕ) (leaf : Bool) (h : ℕ) (cs : Children) (u w : List ℕ) (hash : ℕ)
    → Apart (x ∷ v) w
    → AreValid cs
    → IsValid (add_remaining u w hash (child x (node (x ∷ v) leaf h cs) end))
unfolding add_remaining put_child
parted-IsValid x v leaf h cs u [] hash apart valid = (refl, (valid, (tt, tt)))
parted-IsValid x v leaf h cs u (y ∷ w) hash apart valid =
    let away : (x == y) ≡ false = ground arith in
    rw away (refl, (valid, ((λ e. apart (sym e), tt), (refl, (tt, (tt, tt))))))

-- a child that is valid under its byte
abbrev pub Fits : ℕ → Node → Type 0
Fits b n = StartsWith b (prefix_of n) × IsValid n

new_child-Fits :
    (b : ℕ) (n : Node) (key u v w : List ℕ) (hash : ℕ)
    → prefix_of n ≡ u ++ v
    → key ≡ u ++ w
    → Apart v w
    → common_prefix_len (prefix_of n) key ≡ length u
    → StartsWith b key
    → Fits b n
    → ((w : List ℕ) → IsValid (insert_node n w hash).0)
    → Fits b (new_child n key hash)
new_child-Fits b n key u [] w hash ep ek apart len starts fits ih =
    let whole : (common_prefix_len (prefix_of n) key == length (prefix_of n)) ≡ true =
      ground (arith, len, ap length ep, length-append u []) in
    rw (whole, prefix_of-insert_node n (drop (common_prefix_len (prefix_of n) key) key) hash)
      (fits.0, ih (drop (common_prefix_len (prefix_of n) key) key))
new_child-Fits b (node p leaf h cs) key u (x ∷ v) w hash ep ek apart len starts fits ih =
    let short : (length u == length p) ≡ false =
      ground (arith, ap length ep, length-append u (x ∷ v)) in
    rw (len, short)
      (rw (ep, ek)
        (rw (split_child_lem x v leaf h cs u hash w) (
          rw (prefix_of-add_remaining u x v leaf h cs hash w (child x (node (x ∷ v) leaf h cs) end))
            (
              starts_first b x u v w (subst (λ p. StartsWith b p) ep fits.0)
                  (subst (λ k. StartsWith b k) ek starts) apart,
              parted-IsValid x v leaf h cs u w hash apart fits.1,
            ))))

Lacks-insert_child :
    (b c : ℕ) (cs : Children) (key : List ℕ) (hash : ℕ)
    → b ≢ c
    → Lacks b cs
    → Lacks b (insert_child cs c key hash).0
unfolding insert_node
Lacks-insert_child b c end key hash other lacks = ((λ e. other (sym e)), tt)
Lacks-insert_child b c (child d n cs) key hash other lacks = elim (Bool-cases (d == c)) [
  | inl here ↦ rw (insert_child_here d c n cs key hash here) lacks
  | inr away ↦ rw away (lacks.0, Lacks-insert_child b c cs key hash other lacks.1)
]

mutual
  unfolding insert_node

  pub insert_node-IsValid :
      (n : Node) (key : List ℕ) (hash : ℕ) → IsValid n → IsValid (insert_node n key hash).0
  insert_node-IsValid (node p leaf h cs) [] hash valid = valid
  insert_node-IsValid (node p leaf h cs) (c ∷ key) hash valid =
      insert_child-AreValid cs c key hash valid

  insert_child-AreValid :
      (cs : Children) (c : ℕ) (key : List ℕ) (hash : ℕ)
      → AreValid cs
      → AreValid (insert_child cs c (c ∷ key) hash).0
  insert_child-AreValid end c key hash valid = (refl, (tt, (tt, tt)))
  insert_child-AreValid (child b n cs) c key hash valid =
      let r = parted (prefix_of n) (c ∷ key) in
      elim (Bool-cases (b == c)) [
        | inl here ↦
            let starts : StartsWith b (c ∷ key) = ground arith in
            let fits =
              new_child-Fits b n (c ∷ key) r.common r.rest_of_prefix r.rest_of_key hash r.prefix_cut
                r.key_cut r.apart r.len starts (valid.0, valid.1.0)
                (λ w. insert_node-IsValid n w hash valid.1.0) in
            rw (insert_child_here b c n cs (c ∷ key) hash here)
              (fits.0, (fits.1, (valid.1.1.0, valid.1.1.1)))
        | inr away ↦
            let other : b ≢ c = λ e. ground arith in
            rw away (
              valid.0,
              (
                valid.1.0,
                (
                  Lacks-insert_child b c cs (c ∷ key) hash other valid.1.1.0,
                  insert_child-AreValid cs c key hash valid.1.1.1,
                ),
              ),
            )
      ]
