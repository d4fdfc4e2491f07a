-- ===== src/Glob/Prefix.antt =====
-- internal/glob/pattern.go: the literal prefix of a pattern, by which a search of the keys is narrowed.
use go_mcache.Base.{
  ℕ, suc, ◌≡◌, refl, sym, ◌∙◌, ap, Bool, true, false, List, [], ◌∷◌, ◌++◌, Option, none, some,
  arith, length, Bool-cases, inl, inr, ◌==◌,
}
use go_mcache.Glob.{
  Segment, Pattern, Outcome, failed, ok, seg_literal, is_wild, backslash, extract_prefix, unescape,
  literal_span, prepend, parse, finish, compile, match_segments, match_key,
}
use go_mcache.Glob.Matching.{match_segments_iff}

unescape_nil : unescape [] ≡ []
unfolding unescape
unescape_nil = refl

unescape_one : (c : ℕ) → unescape (c ∷ []) ≡ c ∷ []
unfolding unescape
unescape_one c = refl

unescape_plain :
    (c : ℕ) (cs : List ℕ) → (c == backslash) ≡ false → unescape (c ∷ cs) ≡ c ∷ unescape cs
unfolding unescape
unescape_plain c [] h = refl
unescape_plain c (d ∷ cs) h = rw h refl

unescape_escaped :
    (c d : ℕ) (cs : List ℕ) → (c == backslash) ≡ true → unescape (c ∷ d ∷ cs) ≡ d ∷ unescape cs
unfolding unescape
unescape_escaped c d cs h = rw h refl

-- The literal prefix is the first literal segment, unescaped.
extract_prefix_lem : (cs : List ℕ) → extract_prefix cs ≡ unescape (literal_span cs).0
unfolding extract_prefix literal_span
extract_prefix_lem [] = sym unescape_nil
extract_prefix_lem (c ∷ []) = elim (Bool-cases (is_wild c)) [
  | inl h ↦ rw h (sym unescape_nil)
  | inr h ↦ rw h (sym (unescape_one c))
]
extract_prefix_lem (c ∷ d ∷ rest) = elim (Bool-cases (is_wild c)) [
  | inl h ↦ rw h (sym unescape_nil)
  | inr h ↦ elim (Bool-cases (c == backslash)) [
    | inl b ↦
        rw (h, b)
          (ap (λ p. d ∷ p) (extract_prefix_lem rest)
            ∙ sym (unescape_escaped c d (literal_span rest).0 b))
    | inr b ↦
        rw (h, b)
          (ap (λ p. c ∷ p) (extract_prefix_lem (d ∷ rest))
            ∙ sym (unescape_plain c (literal_span (d ∷ rest)).0 b))
  ]
]

first_segment :
    (seg : Segment) (double : Bool) (r : Option (Outcome (List Segment × Bool)))
    (segs : List Segment) (doubles : Bool)
    → prepend seg double r ≡ some (ok (segs, doubles))
    → (rest : List Segment) × (segs ≡ seg ∷ rest)
first_segment seg double none segs doubles h = absurd (ground arith)
first_segment seg double (some (failed e)) segs doubles h = absurd (ground arith)
first_segment seg double (some (ok (rest, x))) segs doubles h = (rest, ground arith)

first_literal :
    (fuel c : ℕ) (cs : List ℕ) (segs : List Segment) (doubles : Bool)
    → is_wild c ≡ false
    → parse (suc fuel) (c ∷ cs) ≡ some (ok (segs, doubles))
    → (rest : List Segment) × (segs ≡ seg_literal (extract_prefix (c ∷ cs)) ∷ rest)
unfolding parse
first_literal fuel c cs segs doubles plain h =
    let star : (c == 42) ≡ false = ground arith in
    let question : (c == 63) ≡ false = ground arith in
    let bracket : (c == 91) ≡ false = ground arith in
    rw (extract_prefix_lem (c ∷ cs)) (
      first_segment (seg_literal (unescape (literal_span (c ∷ cs)).0)) false
        (parse fuel (literal_span (c ∷ cs)).1) segs doubles
        (sym (rw (star, question, bracket) refl) ∙ h))

finished :
    (raw : List ℕ) (r : Option (Outcome (List Segment × Bool))) (p : Pattern)
    → finish raw r ≡ some (ok p)
    → (doubles : Bool) × (r ≡ some (ok (p.segments, doubles))) × (p.prefix ≡ extract_prefix raw)
finished raw none p h = absurd (ground arith)
finished raw (some (failed e)) p h = absurd (ground arith)
finished raw (some (ok (segs, x))) p h = (x, ground arith, ground arith)

-- Every key that a compiled pattern matches starts with the pattern's literal prefix.
pub compile-prefix :
    (pattern : List ℕ) (p : Pattern) (key : List ℕ)
    → compile pattern ≡ some (ok p)
    → match_key p key ≡ true
    → (rest : List ℕ) × (key ≡ p.prefix ++ rest)
unfolding compile match_key extract_prefix
compile-prefix [] p key h m = absurd (ground arith)
compile-prefix (c ∷ cs) p key h m =
    let (doubles, parsed, same) = finished (c ∷ cs) (parse (length (c ∷ cs)) (c ∷ cs)) p h in
    elim (Bool-cases (is_wild c)) [
      | inl wild ↦ (key, rw (same, wild_prefix c cs wild) refl)
      | inr plain ↦
          let (rest, e) = first_literal (length cs) c cs p.segments doubles plain parsed in
          let (after, cut, _) =
            (match_segments_iff _ key).0 (ap (λ s. match_segments s key) (sym e) ∙ m) in
          (after, rw same cut)
    ]
  where
    wild_prefix : (c : ℕ) (cs : List ℕ) → is_wild c ≡ true → extract_prefix (c ∷ cs) ≡ []
    wild_prefix c [] wild = rw wild refl
    wild_prefix c (d ∷ cs) wild = rw wild refl
