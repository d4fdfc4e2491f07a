-- ===== src/Glob/Matching.antt =====
-- internal/glob/pattern.go: what it is for a key to match, and that matchSegments decides it.
use go_mcache.Base.{
  ℕ, ◌≡◌, refl, ap, ◌↔◌, Bool, true, not, List, [], ◌∷◌, ◌++◌, some, arith, Option-cases,
  Bool-cases, inl, inr,
}
use go_mcache.Glob.{
  Segment, seg_literal, seg_star, seg_double, seg_question, seg_charset, after_literal, has_byte,
  some_rest, match_segments,
}

-- The key is cut into one piece for each segment: a literal its own bytes, a star any bytes, the others one.
abbrev pub Matches : List Segment → List ℕ → Type 0
Matches [] key = key ≡ []
Matches (seg_literal literal ∷ segs) key =
    (rest : List ℕ) × (key ≡ literal ++ rest) × Matches segs rest
Matches (seg_star ∷ segs) key =
    (skipped : List ℕ) × (rest : List ℕ) × (key ≡ skipped ++ rest) × Matches segs rest
Matches (seg_double ∷ segs) key =
    (skipped : List ℕ) × (rest : List ℕ) × (key ≡ skipped ++ rest) × Matches segs rest
Matches (seg_question ∷ segs) key = (c : ℕ) × (rest : List ℕ) × (key ≡ c ∷ rest) × Matches segs rest
Matches (seg_charset set negated ∷ segs) key =
    (c : ℕ) × (rest : List ℕ) × (key ≡ c ∷ rest)
    × (has_byte set c ≡ not negated)
    × Matches segs rest

after_literal_sound :
    (literal key rest : List ℕ) → after_literal literal key ≡ some rest → key ≡ literal ++ rest
unfolding after_literal
after_literal_sound [] key rest h = ground arith
after_literal_sound (c ∷ cs) [] rest h = ground arith
after_literal_sound (c ∷ cs) (k ∷ key) rest h = ground (arith, after_literal_sound cs key rest)

after_literal-append : (literal rest : List ℕ) → after_literal literal (literal ++ rest) ≡ some rest
unfolding after_literal
after_literal-append [] rest = refl
after_literal-append (c ∷ cs) rest = ground (arith, after_literal-append cs rest)

module _ (matches : List ℕ → Bool) where
  some_rest_sound :
      (key : List ℕ)
      → some_rest matches key ≡ true
      → (skipped : List ℕ) × (rest : List ℕ) × (key ≡ skipped ++ rest) × (matches rest ≡ true)
  unfolding some_rest
  some_rest_sound [] h = ([], [], refl, h)
  some_rest_sound (c ∷ key) h = elim (Bool-cases (matches (c ∷ key))) [
    | inl m ↦ ([], c ∷ key, refl, m)
    | inr m ↦
        let (skipped, rest, e, m') = some_rest_sound key (ground arith) in
        (c ∷ skipped, rest, ap (λ k. c ∷ k) e, m')
  ]

  some_rest-append :
      (skipped rest : List ℕ) → matches rest ≡ true → some_rest matches (skipped ++ rest) ≡ true
  unfolding some_rest
  some_rest-append [] [] m = m
  some_rest-append [] (c ∷ rest) m = ground arith
  some_rest-append (c ∷ skipped) rest m = ground (arith, some_rest-append skipped rest m)

match_sound :
    (segs : List Segment) (key : List ℕ) → match_segments segs key ≡ true → Matches segs key
unfolding match_segments
match_sound [] [] h = refl
match_sound [] (c ∷ key) h = ground arith
match_sound (seg_literal literal ∷ segs) key h = elim (Option-cases (after_literal literal key)) [
  | inl e ↦ absurd (ground arith)
  | inr (rest, e) ↦
      (rest, after_literal_sound literal key rest e, match_sound segs rest (ground arith))
]
match_sound (seg_question ∷ segs) [] h = absurd (ground arith)
match_sound (seg_question ∷ segs) (c ∷ key) h = (c, key, refl, match_sound segs key h)
match_sound (seg_charset set negated ∷ segs) [] h = absurd (ground arith)
match_sound (seg_charset set negated ∷ segs) (c ∷ key) h =
    (c, key, refl, ground arith, match_sound segs key (ground arith))
match_sound (seg_star ∷ segs) key h =
    let (skipped, rest, e, m) = some_rest_sound (match_segments segs) key h in
    (skipped, rest, e, match_sound segs rest m)
match_sound (seg_double ∷ segs) key h =
    let (skipped, rest, e, m) = some_rest_sound (match_segments segs) key h in
    (skipped, rest, e, match_sound segs rest m)

match_complete :
    (segs : List Segment) (key : List ℕ) → Matches segs key → match_segments segs key ≡ true
unfolding match_segments
match_complete [] key e = rw e refl
match_complete (seg_literal literal ∷ segs) key (rest, e, m) =
    rw (e, match_segments, after_literal-append literal rest) (match_complete segs rest m)
match_complete (seg_question ∷ segs) key (c, rest, e, m) = rw e (match_complete segs rest m)
match_complete (seg_charset set negated ∷ segs) key (c, rest, e, h, m) =
    rw e (ground (arith, h, match_complete segs rest m))
match_complete (seg_star ∷ segs) key (skipped, rest, e, m) =
    rw e (some_rest-append (match_segments segs) skipped rest (match_complete segs rest m))
match_complete (seg_double ∷ segs) key (skipped, rest, e, m) =
    rw e (some_rest-append (match_segments segs) skipped rest (match_complete segs rest m))

-- matchSegments answers true exactly for the keys that match: it finds a way to cut the key into pieces
-- whenever there is one.
pub match_segments_iff :
    (segs : List Segment) (key : List ℕ) → (match_segments segs key ≡ true) ↔ Matches segs key
match_segments_iff segs key = (match_sound segs key, match_complete segs key)
