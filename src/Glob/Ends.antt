-- ===== src/Glob/Ends.antt =====
-- internal/glob/pattern.go: Compile comes to an end on patterns without the byte 0xFF.
use go_mcache.Base.{
  ℕ, zero, suc, ◌+◌, ◌%◌, ◌<◌, ◌≤◌, ◌≡◌, refl, Bool, true, false, not, ◌&&◌, ◌||◌, List, [], ◌∷◌,
  ◌++◌, Option, some, arith, length, All, Bool-cases, inl, inr, leb, ltb, ◌==◌, if◌then◌else◌,
}
use go_mcache.Glob.{
  Segment, Outcome, failed, unmatched_brace, empty_pattern, ok, Pattern, is_wild, backslash,
  literal_span, byte_range, charset_loop, negation, parse_charset, prepend, parse, finish,
  extract_prefix, compile, seg_star, seg_double, seg_question, seg_charset, seg_literal, unescape,
}

abbrev pub IsLow : List ℕ → Type 0
IsLow = All (λ c. c < 255)

byte_range_ends :
    (fuel c last : ℕ)
    → last < 255
    → c ≤ last + 1
    → last + 2 ≤ fuel + c
    → (cs : List ℕ) × (byte_range fuel c last ≡ some cs)
unfolding byte_range
byte_range_ends zero c last low at fits = absurd (omega arith)
byte_range_ends (suc fuel) c last low at fits = elim (Bool-cases (leb c last)) [
  | inr past ↦ ([], rw past refl)
  | inl more ↦
      let (cs, e) = byte_range_ends fuel ((c + 1) % 256) last low (ground arith) (ground arith) in
      (c ∷ cs, rw (more, e) refl)
]

-- what is left of `cs` after the bracket
abbrev Shorter : List ℕ → Outcome (List ℕ × List ℕ) → Type 0
Shorter cs (failed e) = Unit
Shorter cs (ok (set, rest)) = (length rest ≤ length cs) × IsLow rest

Shorter-longer :
    (cs ds : List ℕ) (o : Outcome (List ℕ × List ℕ))
    → length cs ≤ length ds
    → Shorter cs o
    → Shorter ds o
Shorter-longer cs ds (failed e) h s = tt
Shorter-longer cs ds (ok (set, rest)) h s = (omega (arith, s.0), s.1)

abbrev Closes : List ℕ → List ℕ → Type 0
Closes cs set = (o : Outcome (List ℕ × List ℕ)) × (charset_loop cs set ≡ some o) × Shorter cs o

charset_loop_ends : (cs set : List ℕ) → IsLow cs → Closes cs set
unfolding charset_loop
charset_loop_ends [] set low = (failed unmatched_brace, refl, tt)
charset_loop_ends (c ∷ []) set low = elim (Bool-cases (c == 93)) [
  | inl h ↦ (ok (set, []), rw h refl, (omega arith, tt))
  | inr h ↦ (failed unmatched_brace, rw h refl, tt)
]
charset_loop_ends (c ∷ d ∷ []) set low = elim (Bool-cases (c == 93)) [
  | inl h ↦ (ok (set, d ∷ []), rw h refl, (omega arith, low.1))
  | inr h ↦ elim (Bool-cases (c == backslash)) [
    | inl b ↦ (failed unmatched_brace, rw (h, b) refl, tt)
    | inr b ↦
        let (o, e, s) = charset_loop_ends (d ∷ []) (set ++ c ∷ []) low.1 in
        (o, rw (h, b) e, Shorter-longer (d ∷ []) (c ∷ d ∷ []) o (omega arith) s)
  ]
]
charset_loop_ends (c ∷ d ∷ e ∷ rest) set low = elim (Bool-cases (c == 93)) [
  | inl h ↦ (ok (set, d ∷ e ∷ rest), rw h refl, (omega arith, low.1))
  | inr h ↦ elim (Bool-cases (c == backslash)) [
    | inl b ↦
        let (o, eq, s) = charset_loop_ends (e ∷ rest) (set ++ d ∷ []) low.1.1 in
        (o, rw (h, b) eq, Shorter-longer (e ∷ rest) (c ∷ d ∷ e ∷ rest) o (omega arith) s)
    | inr b ↦ elim (Bool-cases ((d == 45) && not (e == 93))) [
      | inr r ↦
          let (o, eq, s) = charset_loop_ends (d ∷ e ∷ rest) (set ++ c ∷ []) low.1 in
          (o, rw (h, b, r) eq, Shorter-longer (d ∷ e ∷ rest) (c ∷ d ∷ e ∷ rest) o (omega arith) s)
      | inl r ↦
          let first = if ltb e c then e else c in
          let last = if ltb e c then c else e in
          let (cs, range) =
            byte_range_ends 257 first last (ground (arith, low.0, low.1.1.0)) (ground arith)
              (ground (arith, low.0)) in
          let (o, eq, s) = charset_loop_ends rest (set ++ cs) low.1.1.1 in
          (o, rw (h, b, r, range) eq, Shorter-longer rest (c ∷ d ∷ e ∷ rest) o (omega arith) s)
    ]
  ]
]

abbrev Parses : ℕ → List ℕ → Type 0
Parses fuel cs = (o : Outcome (List Segment × Bool)) × (parse fuel cs ≡ some o)

prepend_ends :
    (seg : Segment) (double : Bool) (fuel : ℕ) (cs : List ℕ)
    → Parses fuel cs
    → (o : Outcome (List Segment × Bool)) × (prepend seg double (parse fuel cs) ≡ some o)
prepend_ends seg double fuel cs (failed e, h) = (failed e, rw h refl)
prepend_ends seg double fuel cs (ok (segs, x), h) = (ok (seg ∷ segs, double || x), rw h refl)

literal_span-Shorter :
    (cs : List ℕ) → IsLow cs → (length (literal_span cs).1 ≤ length cs) × IsLow (literal_span cs).1
unfolding literal_span
literal_span-Shorter [] low = (omega arith, tt)
literal_span-Shorter (c ∷ []) low = elim (Bool-cases (is_wild c)) [
  | inl h ↦ rw h (omega arith, low)
  | inr h ↦ rw h (omega arith, tt)
]
literal_span-Shorter (c ∷ d ∷ rest) low =
    let skip = literal_span-Shorter rest low.1.1 in
    let next = literal_span-Shorter (d ∷ rest) low.1 in
    elim (Bool-cases (is_wild c)) [
      | inl h ↦ rw h (omega arith, low)
      | inr h ↦ elim (Bool-cases (c == backslash)) [
        | inl b ↦ rw (h, b) (omega (arith, skip.0), skip.1)
        | inr b ↦ rw (h, b) (omega (arith, next.0), next.1)
      ]
    ]

-- a literal takes its first byte
literal_span-suc :
    (c : ℕ) (cs : List ℕ)
    → is_wild c ≡ false
    → IsLow (c ∷ cs)
    → (length (literal_span (c ∷ cs)).1 ≤ length cs) × IsLow (literal_span (c ∷ cs)).1
unfolding literal_span
literal_span-suc c [] h low = rw h (omega arith, tt)
literal_span-suc c (d ∷ rest) h low =
    let skip = literal_span-Shorter rest low.1.1 in
    let next = literal_span-Shorter (d ∷ rest) low.1 in
    elim (Bool-cases (c == backslash)) [
      | inl b ↦ rw (h, b) (omega (arith, skip.0), skip.1)
      | inr b ↦ rw (h, b) next
    ]

negation-Shorter :
    (cs : List ℕ) → IsLow cs → (length (negation cs).1 ≤ length cs) × IsLow (negation cs).1
unfolding negation
negation-Shorter [] low = (omega arith, tt)
negation-Shorter (c ∷ cs) low = elim (Bool-cases ((c == 94) || (c == 33))) [
  | inl h ↦ rw h (omega arith, low.1)
  | inr h ↦ rw h (omega arith, low)
]

-- what is left of `cs` after a whole set
abbrev Within : List ℕ → Outcome (List ℕ × Bool × List ℕ) → Type 0
Within cs (failed e) = Unit
Within cs (ok (set, negated, rest)) = (length rest ≤ length cs) × IsLow rest

closed :
    (cs : List ℕ) (o : Outcome (List ℕ × List ℕ))
    → charset_loop (negation cs).1 [] ≡ some o
    → Shorter cs o
    → (p : Outcome (List ℕ × Bool × List ℕ)) × (parse_charset cs ≡ some p) × Within cs p
unfolding parse_charset
closed cs (failed e) h s = (failed e, rw (h, parse_charset) refl, tt)
closed cs (ok (set, rest)) h s = (ok (set, (negation cs).0, rest), rw (h, parse_charset) refl, s)

parse_charset_ends :
    (cs : List ℕ)
    → IsLow cs
    → (p : Outcome (List ℕ × Bool × List ℕ)) × (parse_charset cs ≡ some p) × Within cs p
parse_charset_ends cs low =
    let (short, low') = negation-Shorter cs low in
    let (o, e, s) = charset_loop_ends (negation cs).1 [] low' in
    closed cs o e (Shorter-longer (negation cs).1 cs o short s)

module _ (fuel : ℕ) (ih : (cs : List ℕ) → IsLow cs → length cs ≤ fuel → Parses fuel cs) where
  after_star :
      (c : ℕ) (cs : List ℕ)
      → (c == 42) ≡ true
      → IsLow cs
      → length cs ≤ fuel
      → Parses (suc fuel) (c ∷ cs)
  unfolding parse
  after_star c [] h low fits =
      let (o, e) = prepend_ends seg_star false fuel [] (ih [] tt (omega arith)) in (o, rw h e)
  after_star c (d ∷ ds) h low fits = elim (Bool-cases (d == 42)) [
    | inl double ↦
        let (o, e) = prepend_ends seg_double true fuel ds (ih ds low.1 (omega arith)) in
        (o, rw (h, double) e)
    | inr single ↦
        let (o, e) = prepend_ends seg_star false fuel (d ∷ ds) (ih (d ∷ ds) low fits) in
        (o, rw (h, single) e)
  ]

  after_bracket :
      (c : ℕ) (cs : List ℕ) → c ≡ 91 → IsLow cs → length cs ≤ fuel → Parses (suc fuel) (c ∷ cs)
  unfolding parse
  after_bracket c cs h low fits =
      let (o, e, s) = parse_charset_ends cs low in rw (h, e) (charset_first o s)
    where
      charset_first :
          (o : Outcome (List ℕ × Bool × List ℕ))
          → Within cs o
          → (p : Outcome (List Segment × Bool)) × (elim o
                as (λ x. Option (Outcome (List Segment × Bool))) [
                  | failed e ↦ some (failed e)
                  | ok x ↦ prepend (seg_charset x.0 x.1) false (parse fuel x.2)
                ]
              ≡ some p)
      charset_first (failed e) s = (failed e, refl)
      charset_first (ok (set, negated, rest)) s =
          prepend_ends (seg_charset set negated) false fuel rest (ih rest s.1 (omega (arith, s.0)))

  in_turn : (c : ℕ) (cs : List ℕ) → IsLow (c ∷ cs) → length cs ≤ fuel → Parses (suc fuel) (c ∷ cs)
  unfolding parse
  in_turn c cs low fits = elim (Bool-cases (c == 42)) [
    | inl star ↦ after_star c cs star low.1 fits
    | inr s ↦ elim (Bool-cases (c == 63)) [
      | inl question ↦
          let (o, e) = prepend_ends seg_question false fuel cs (ih cs low.1 fits) in
          (o, rw (s, question) e)
      | inr q ↦ elim (Bool-cases (c == 91)) [
        | inl bracket ↦ after_bracket c cs (ground arith) low.1 fits
        | inr b ↦
            let (short, low') = literal_span-suc c cs (ground arith) low in
            let (o, e) =
              prepend_ends (seg_literal (unescape (literal_span (c ∷ cs)).0)) false fuel
                (literal_span (c ∷ cs)).1
                (ih (literal_span (c ∷ cs)).1 low' (omega (arith, short))) in
            (o, rw (s, q, b) e)
      ]
    ]
  ]

parse_ends : (fuel : ℕ) (cs : List ℕ) → IsLow cs → length cs ≤ fuel → Parses fuel cs
unfolding parse
parse_ends fuel [] low fits = (ok ([], false), refl)
parse_ends zero (c ∷ cs) low fits = absurd (omega arith)
parse_ends (suc fuel) (c ∷ cs) low fits = in_turn fuel (parse_ends fuel) c cs low (omega arith)

-- Compile ends on every pattern whose bytes are below 0xFF, with a compiled pattern or an error.
pub compile_ends :
    (pattern : List ℕ) → IsLow pattern → (o : Outcome Pattern) × (compile pattern ≡ some o)
unfolding compile
compile_ends [] low = (failed empty_pattern, refl)
compile_ends (c ∷ cs) low =
    let (o, e) = parse_ends (length (c ∷ cs)) (c ∷ cs) low (omega arith) in rw e (finished o)
  where
    finished :
        (o : Outcome (List Segment × Bool))
        → (p : Outcome Pattern) × (finish (c ∷ cs) (some o) ≡ some p)
    finished (failed e) = (failed e, refl)
    finished (ok (segs, x)) = (
      ok (record {
        raw = c ∷ cs;
        prefix = extract_prefix (c ∷ cs);
        segments = segs;
        has_double = x;
      }),
      refl,
    )
