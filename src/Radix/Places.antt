-- ===== src/Radix/Places.antt =====
-- internal/radix/tree.go: the node that FindByPrefix and WalkPrefix go down to holds the keys with the prefix.
use go_mcache.Base.{
  ℕ, ◌≡◌, refl, sym, ap, ap₂, ◌∙◌, inl, inr, true, false, ◌&&◌, List, [], ◌∷◌, ◌++◌, Option, none,
  some, arith, length, drop, leb, ltb, ◌==◌, if◌then◌else◌, Bool-cases, length-append,
}
use mathlib.Core.List.{append-nil, append_assoc}
use go_mcache.Radix.{Node, node, Children, end, child, prefix_of, common_prefix_len}
use go_mcache.Radix.Strip.{strip, and_then, Apart, parted, drop-append, strip_whole, strip_early}
use go_mcache.Radix.Map.{value_at, value_in}
use go_mcache.Radix.Walk.{place, place_in}

-- the keys that go on after the prefix, by what is below the place found
abbrev pub Leads : Option Node → (List ℕ → Option ℕ) → Type 0
Leads none f = (r : List ℕ) → f r ≡ none
Leads (some m) f = (ext : List ℕ) × ((r : List ℕ) → f r ≡ and_then (strip ext r) (value_at m))

Leads-along :
    (o : Option Node) (f g : List ℕ → Option ℕ) → ((r : List ℕ) → f r ≡ g r) → Leads o f → Leads o g
Leads-along none f g e l = λ r. sym (e r) ∙ l r
Leads-along (some m) f g e l = (l.0, λ r. sym (e r) ∙ l.1 r)

strip_common : (u v r : List ℕ) → strip (u ++ v) (u ++ r) ≡ strip v r
unfolding strip
strip_common [] v r = refl
strip_common (x ∷ u) v r = let same : (x == x) ≡ true = ground arith in rw same (strip_common u v r)

-- what the loop does at the child of the byte
abbrev step : Node → List ℕ → Option Node
step n prefix =
    let common = common_prefix_len (prefix_of n) prefix in
    if ltb common (length prefix) && ltb common (length (prefix_of n))
    then none
    else if leb (length prefix) common
    then some n
    else place n (drop common prefix)

abbrev Below : Node → List ℕ → Type 0
Below n prefix =
    Leads (step n prefix) (λ r. and_then (strip (prefix_of n) (prefix ++ r)) (value_at n))

step-Leads :
    (n : Node) (prefix u v w : List ℕ)
    → prefix_of n ≡ u ++ v
    → prefix ≡ u ++ w
    → Apart v w
    → common_prefix_len (prefix_of n) prefix ≡ length u
    → ((w : List ℕ) → Leads (place n w) (λ r. value_at n (w ++ r)))
    → Below n prefix
step-Leads n prefix u v [] ep ek apart len ih =
    let plain : prefix ≡ u = ek ∙ append-nil u in
    let whole : leb (length u) (length u) ≡ true = ground arith in
    let late : ltb (length u) (length u) ≡ false = ground arith in
    rw (len, plain, late, whole)
      (
        v,
        λ r. ap (λ s. and_then s (value_at n)) (ap (λ p. strip p (u ++ r)) ep ∙ strip_common u v r),
      )
step-Leads n prefix u [] (y ∷ w) ep ek apart len ih =
    let plain : prefix_of n ≡ u = ep ∙ append-nil u in
    let whole : leb (length (u ++ y ∷ w)) (length u) ≡ false =
      ground (arith, length-append u (y ∷ w)) in
    let early : ltb (length u) (length (u ++ y ∷ w)) ≡ true =
      ground (arith, length-append u (y ∷ w)) in
    let late : ltb (length u) (length u) ≡ false = ground arith in
    rw (len, ek, ap length plain, early, late, whole, drop-append u (y ∷ w))
      (Leads-along (place n (y ∷ w)) (λ r. value_at n ((y ∷ w) ++ r)) _
        (λ r. sym (ap (λ s. and_then s (value_at n)) (cut r))) (ih (y ∷ w)))
  where
    cut : (r : List ℕ) → strip (prefix_of n) ((u ++ y ∷ w) ++ r) ≡ some ((y ∷ w) ++ r)
    cut r = ap₂ strip (ep ∙ append-nil u) (append_assoc u (y ∷ w) r) ∙ strip_whole u ((y ∷ w) ++ r)
step-Leads n prefix u (x ∷ v) (y ∷ w) ep ek apart len ih =
    let early : ltb (length u) (length (u ++ y ∷ w)) ≡ true =
      ground (arith, length-append u (y ∷ w)) in
    let early' : ltb (length u) (length (u ++ x ∷ v)) ≡ true =
      ground (arith, length-append u (x ∷ v)) in
    rw (len, ek, ap length ep, early, early')
      (λ r. ap (λ s. and_then s (value_at n)) (apart_still r))
  where
    apart_still : (r : List ℕ) → strip (prefix_of n) ((u ++ y ∷ w) ++ r) ≡ none
    apart_still r = ap₂ strip ep (append_assoc u (y ∷ w) r) ∙ strip_early u v ((y ∷ w) ++ r) x apart

mutual
  unfolding place value_at strip

  pub place-Leads :
      (n : Node) (prefix : List ℕ) → Leads (place n prefix) (λ r. value_at n (prefix ++ r))
  place-Leads n [] = ([], λ r. refl)
  place-Leads (node p leaf h cs) (c ∷ prefix) = place_in-Leads cs c (c ∷ prefix)

  place_in-Leads :
      (cs : Children) (c : ℕ) (prefix : List ℕ)
      → Leads (place_in cs c prefix) (λ r. value_in cs c (prefix ++ r))
  place_in-Leads end c prefix = λ r. refl
  place_in-Leads (child b n cs) c prefix =
      let k = parted (prefix_of n) prefix in
      elim (Bool-cases (b == c)) [
        | inl here ↦ rw here (
            step-Leads n prefix k.common k.rest_of_prefix k.rest_of_key k.prefix_cut k.key_cut
              k.apart k.len (λ w. place-Leads n w))
        | inr away ↦ rw away (place_in-Leads cs c prefix)
      ]
