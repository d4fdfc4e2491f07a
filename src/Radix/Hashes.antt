-- ===== src/Radix/Hashes.antt =====
-- internal/radix/tree.go: the hashes that FindByPrefix reports.
use std.Path.{subst}
use go_mcache.Base.{
  ℕ, zero, suc, ◌-◌, ◌<◌, ◌≤◌, ◌≡◌, refl, sym, ap, ◌∙◌, ◌⊎◌, inl, inr, Bool, true, false, List, [],
  ◌∷◌, ◌++◌, none, some, arith, length, take, leb, ◌==◌, if◌then◌else◌, Bool-cases, Option-cases,
  length-append, length-take, Member, Member-append_left, Member-append_right,
}
use mathlib.Core.List.{append-nil, append_assoc}
use go_mcache.Radix.{Node, node, Children, end, child, prefix_of}
use go_mcache.Radix.Strip.{strip, strip_whole}
use go_mcache.Radix.Map.{value_at, value_in, StartsWith, Lacks, IsValid, AreValid}
use go_mcache.Radix.Deleting.{value_in-Lacks}
use go_mcache.Radix.Walk.{collect_hashes, collect_below}

-- all hashes at a node and below it
unfoldable mutual
  pub hashes : Node → List ℕ
  hashes (node p leaf h cs) = (if leaf then h ∷ [] else []) ++ hashes_in cs

  pub hashes_in : Children → List ℕ
  hashes_in end = []
  hashes_in (child b n cs) = hashes n ++ hashes_in cs

take_split : (k : ℕ) (a b : List ℕ) → take k (a ++ b) ≡ take k a ++ take (k - length a) b
take_split zero [] b = refl
take_split zero (x ∷ a) b = let nothing : 0 - suc (length a) ≡ 0 = omega arith in rw nothing refl
take_split (suc k) [] b = let same : suc k - 0 ≡ suc k = omega arith in rw same refl
take_split (suc k) (x ∷ a) b =
    let left : suc k - suc (length a) ≡ k - length a = omega arith in
    rw left (ap (λ t. x ∷ t) (take_split k a b))

pub take_all : (k : ℕ) (a : List ℕ) → length a ≤ k → take k a ≡ a
take_all zero [] h = refl
take_all zero (x ∷ a) h = absurd (omega arith)
take_all (suc k) [] h = refl
take_all (suc k) (x ∷ a) h = ap (λ t. x ∷ t) (take_all k a (omega arith))

pub Member-take : (x : ℕ) (k : ℕ) (a : List ℕ) → Member x (take k a) → Member x a
Member-take x zero a m = absurd m
Member-take x (suc k) [] m = absurd m
Member-take x (suc k) (y ∷ a) (inl e) = inl e
Member-take x (suc k) (y ∷ a) (inr m) = inr (Member-take x k a m)

Member-parts : (x : ℕ) (a b : List ℕ) → Member x (a ++ b) → Member x a ⊎ Member x b
Member-parts x [] b m = inr m
Member-parts x (y ∷ a) b (inl e) = inl (inl e)
Member-parts x (y ∷ a) b (inr m) = elim (Member-parts x a b m) [
  | inl l ↦ inl (inr l)
  | inr r ↦ inr r
]

-- the results so far, and as many more as the limit allows
abbrev up_to : List ℕ → ℕ → List ℕ → List ℕ
up_to results limit more = results ++ take (limit - length results) more

up_to_full :
    (results : List ℕ) (limit : ℕ) (more : List ℕ)
    → limit ≤ length results
    → up_to results limit more ≡ results
up_to_full results limit more full =
    let nothing : limit - length results ≡ 0 = omega arith in rw nothing (append-nil results)

up_to_both :
    (results : List ℕ) (limit : ℕ) (a b : List ℕ)
    → up_to (up_to results limit a) limit b ≡ up_to results limit (a ++ b)
up_to_both results limit a b =
    let k = limit - length results in
    let left : limit - length (results ++ take k a) ≡ k - length a =
      omega (arith, length-append results (take k a), length-take k a) in
    rw (left, take_split k a b) (append_assoc results (take k a) (take (k - length a) b))

up_to_one :
    (results : List ℕ) (limit h : ℕ) (a : List ℕ)
    → length results < limit
    → up_to (results ++ h ∷ []) limit a ≡ up_to results limit (h ∷ a)
up_to_one results limit h a room =
    let k = limit - suc (length results) in
    let left : limit - length (results ++ h ∷ []) ≡ k =
      omega (arith, length-append results (h ∷ [])) in
    let room' : limit - length results ≡ suc k = omega arith in
    rw (left, room') (append_assoc results (h ∷ []) (take k a))

take-nil : (k : ℕ) → take {A = ℕ} k [] ≡ []
take-nil zero = refl
take-nil (suc k) = refl

up_to_end : (results : List ℕ) (limit : ℕ) → results ≡ up_to results limit []
up_to_end results limit =
    sym (append-nil results) ∙ ap (λ t. results ++ t) (sym (take-nil (limit - length results)))

mutual
  unfolding collect_hashes hashes

  pub collect_hashes_lem :
      (n : Node) (results : List ℕ) (limit : ℕ)
      → collect_hashes n results limit ≡ up_to results limit (hashes n)
  collect_hashes_lem (node p leaf h cs) results limit =
      elim (Bool-cases (leb limit (length results))) [
        | inl full ↦
            rw full (sym (up_to_full results limit (hashes (node p leaf h cs)) (ground arith)))
        | inr room ↦ rw room (elim (Bool-cases leaf) [
          | inl e ↦
              rw (e, collect_below_lem cs (results ++ h ∷ []) limit)
                (up_to_one results limit h (hashes_in cs) (ground arith))
          | inr e ↦ rw e (collect_below_lem cs results limit)
        ])
      ]

  collect_below_lem :
      (cs : Children) (results : List ℕ) (limit : ℕ)
      → collect_below cs results limit ≡ up_to results limit (hashes_in cs)
  collect_below_lem end results limit = up_to_end results limit
  collect_below_lem (child b n cs) results limit =
      let more = up_to results limit (hashes n) in
      rw (collect_hashes_lem n results limit) (elim (Bool-cases (leb limit (length more))) [
        | inl full ↦ rw full (
            sym (up_to_full more limit (hashes_in cs) (ground arith))
            ∙ up_to_both results limit (hashes n) (hashes_in cs))
        | inr room ↦
            rw (room, collect_below_lem cs more limit)
              (up_to_both results limit (hashes n) (hashes_in cs))
      ])

at_root :
    (p : List ℕ) (leaf : Bool) (h : ℕ) (cs : Children)
    → value_at (node p leaf h cs) [] ≡ (if leaf then some h else none)
unfolding value_at
at_root p leaf h cs = refl

-- the key of a hash goes through the child's prefix
through :
    (b : ℕ) (n : Node) (cs : Children) (k : List ℕ) (x : ℕ) (p : List ℕ)
    → prefix_of n ≡ p
    → StartsWith b p
    → value_at n k ≡ some x
    → (c : ℕ) × (r : List ℕ) × (value_in (child b n cs) c (c ∷ r) ≡ some x)
unfolding value_at
through b n cs k x [] e starts found = absurd starts
through b n cs k x (c ∷ p) e starts found =
    let here : (b == c) ≡ true = ground arith in
    (c, p ++ k, rw (here, e, strip_whole (c ∷ p) k) found)

mutual
  unfolding hashes value_at

  pub hashes_sound :
      (n : Node) (x : ℕ) → IsValid n → Member x (hashes n) → (k : List ℕ) × (value_at n k ≡ some x)
  hashes_sound (node p true h cs) x valid (inl e) = ([], ap some e)
  hashes_sound (node p true h cs) x valid (inr m) =
      let r = hashes_in_sound cs x valid m in (r.0 ∷ r.1, r.2)
  hashes_sound (node p false h cs) x valid m =
      let r = hashes_in_sound cs x valid m in (r.0 ∷ r.1, r.2)

  hashes_in_sound :
      (cs : Children) (x : ℕ)
      → AreValid cs
      → Member x (hashes_in cs)
      → (c : ℕ) × (k : List ℕ) × (value_in cs c (c ∷ k) ≡ some x)
  hashes_in_sound end x valid m = absurd m
  hashes_in_sound (child b n cs) x valid m = elim (Member-parts x (hashes n) (hashes_in cs) m) [
    | inl m' ↦
        let r = hashes_sound n x valid.1.0 m' in through b n cs r.0 x (prefix_of n) refl valid.0 r.1
    | inr m' ↦
        let r = hashes_in_sound cs x valid.1.1.1 m' in
        elim (Bool-cases (b == r.0)) [
          | inr away ↦ (r.0, r.1, rw away r.2)
          | inl here ↦
              let same : b ≡ r.0 = ground arith in
              let gone =
                value_in-Lacks r.0 cs (r.0 ∷ r.1) (subst (λ d. Lacks d cs) same valid.1.1.0) in
              absurd (ground (arith, gone, r.2))
        ]
  ]

mutual
  unfolding hashes value_at

  pub hashes_complete :
      (n : Node) (k : List ℕ) (x : ℕ) → value_at n k ≡ some x → Member x (hashes n)
  hashes_complete (node p true h cs) [] x found = inl (ground (arith, found))
  hashes_complete (node p false h cs) [] x found = absurd (ground (arith, found))
  hashes_complete (node p leaf h cs) (c ∷ k) x found =
      Member-append_right x (if leaf then h ∷ [] else []) (hashes_in cs)
        (hashes_in_complete cs c (c ∷ k) x found)

  hashes_in_complete :
      (cs : Children) (c : ℕ) (k : List ℕ) (x : ℕ)
      → value_in cs c k ≡ some x
      → Member x (hashes_in cs)
  hashes_in_complete end c k x found = absurd (ground (arith, found))
  hashes_in_complete (child b n cs) c k x found = elim (Bool-cases (b == c)) [
    | inl here ↦ elim (Option-cases (strip (prefix_of n) k)) [
      | inl s ↦ absurd (ground (arith, here, s, found))
      | inr (r, s) ↦
          Member-append_left x (hashes n) (hashes_in cs)
            (hashes_complete n r x (ground (arith, here, s, found)))
    ]
    | inr away ↦
        Member-append_right x (hashes n) (hashes_in cs)
          (hashes_in_complete cs c k x (ground (arith, away, found)))
  ]
