-- ===== src/Glob.antt =====
-- internal/glob/pattern.go: glob patterns over keys. A string is the list of its bytes, and a position in it
-- the list of the bytes from there on. `Option` stands for a loop that may not end.
pub mod Matching
pub mod Prefix
pub mod Ends
mod Tests
use go_mcache.Base.{
  ℕ, zero, suc, ◌+◌, ◌%◌, Bool, true, false, not, ◌&&◌, ◌||◌, List, [], ◌∷◌, ◌++◌, Option, none,
  some, length, leb, ltb, ◌==◌, if◌then◌else◌,
}

pub data Segment : Type 0 where
  seg_literal : List ℕ → Segment
  seg_star : Segment
  seg_double : Segment
  seg_question : Segment
  seg_charset : List ℕ → Bool → Segment

pub record Pattern : Type 0 where
  pub raw : List ℕ
  pub prefix : List ℕ
  pub segments : List Segment
  pub has_double : Bool

pub data Failure : Type 0 where
  empty_pattern : Failure
  unmatched_brace : Failure

pub data Outcome (A : Type 0) : Type 0 where
  failed : Failure → Outcome A
  ok : A → Outcome A

-- `*`, `?` and `[`; the backslash
abbrev pub is_wild : ℕ → Bool
is_wild c = (c == 42) || ((c == 63) || (c == 91))

abbrev pub backslash : ℕ
backslash = 92

unfoldable pub extract_prefix : List ℕ → List ℕ
extract_prefix [] = []
extract_prefix (c ∷ []) = if is_wild c then [] else c ∷ []
extract_prefix (c ∷ d ∷ rest) =
    if is_wild c
    then []
    else if c == backslash
    then d ∷ extract_prefix rest
    else c ∷ extract_prefix (d ∷ rest)

unfoldable pub unescape : List ℕ → List ℕ
unescape [] = []
unescape (c ∷ []) = c ∷ []
unescape (c ∷ d ∷ rest) = if c == backslash then d ∷ unescape rest else c ∷ unescape (d ∷ rest)

-- the literal characters from here on, and what follows them
unfoldable pub literal_span : List ℕ → List ℕ × List ℕ
literal_span [] = ([], [])
literal_span (c ∷ []) = if is_wild c then ([], c ∷ []) else (c ∷ [], [])
literal_span (c ∷ d ∷ rest) =
    let skip = literal_span rest in
    let next = literal_span (d ∷ rest) in
    if is_wild c
    then ([], c ∷ d ∷ rest)
    else if c == backslash
    then (c ∷ d ∷ skip.0, skip.1)
    else (c ∷ next.0, next.1)

-- `for c := start; c <= end; c++` over a byte
unfoldable pub byte_range : ℕ → ℕ → ℕ → Option (List ℕ)
byte_range zero c last = none
byte_range (suc fuel) c last =
    let rest = byte_range fuel ((c + 1) % 256) last in
    if leb c last then elim rest [ none ↦ none | some cs ↦ some (c ∷ cs) ] else some []

-- the loop of parseCharset: the set so far, then the set and what follows the bracket
unfoldable pub charset_loop : List ℕ → List ℕ → Option (Outcome (List ℕ × List ℕ))
charset_loop [] set = some (failed unmatched_brace)
charset_loop (c ∷ []) set = if c == 93 then some (ok (set, [])) else some (failed unmatched_brace)
charset_loop (c ∷ d ∷ []) set =
    let skip = charset_loop [] (set ++ d ∷ []) in
    let next = charset_loop (d ∷ []) (set ++ c ∷ []) in
    if c == 93 then some (ok (set, d ∷ [])) else if c == backslash then skip else next
charset_loop (c ∷ d ∷ e ∷ rest) set =
    let skip = charset_loop (e ∷ rest) (set ++ d ∷ []) in
    let next = charset_loop (d ∷ e ∷ rest) (set ++ c ∷ []) in
    let range : Option (Outcome (List ℕ × List ℕ)) =
      elim (byte_range 257 (if ltb e c then e else c) (if ltb e c then c else e)) [
        | none ↦ none
        | some cs ↦ charset_loop rest (set ++ cs)
      ] in
    if c == 93
    then some (ok (set, d ∷ e ∷ rest))
    else if c == backslash
    then skip
    else if (d == 45) && not (e == 93)
    then range
    else next

-- `^` or `!` after the bracket, and what follows it
unfoldable pub negation : List ℕ → Bool × List ℕ
negation [] = (false, [])
negation (c ∷ cs) = if (c == 94) || (c == 33) then (true, cs) else (false, c ∷ cs)

-- from after the opening bracket: the set, whether it is negated, and what follows
unfoldable pub parse_charset : List ℕ → Option (Outcome (List ℕ × Bool × List ℕ))
parse_charset cs =
    let (negated, rest) = negation cs in
    elim (charset_loop rest []) [
      | none ↦ none
      | some (failed e) ↦ some (failed e)
      | some (ok (set, after)) ↦ some (ok (set, negated, after))
    ]

-- one more segment in front of what the rest of the pattern gives, and whether it is `**`
abbrev pub prepend :
    Segment → Bool → Option (Outcome (List Segment × Bool)) → Option (Outcome (List Segment × Bool))
prepend seg double none = none
prepend seg double (some (failed e)) = some (failed e)
prepend seg double (some (ok (segs, doubles))) = some (ok (seg ∷ segs, double || doubles))

-- the loop of Compile over what is left of the pattern
unfoldable pub parse : ℕ → List ℕ → Option (Outcome (List Segment × Bool))
parse fuel [] = some (ok ([], false))
parse zero (c ∷ cs) = none
parse (suc fuel) (c ∷ cs) =
    let star : Option (Outcome (List Segment × Bool)) = elim cs [
      | [] ↦ prepend seg_star false (parse fuel [])
      | d ∷ ds ↦
          let double = prepend seg_double true (parse fuel ds) in
          let single = prepend seg_star false (parse fuel (d ∷ ds)) in
          if d == 42 then double else single
    ] in
    let charset : Option (Outcome (List Segment × Bool)) = elim (parse_charset cs) [
      | none ↦ none
      | some (failed e) ↦ some (failed e)
      | some (ok (set, negated, rest)) ↦ prepend (seg_charset set negated) false (parse fuel rest)
    ] in
    let literal =
      prepend (seg_literal (unescape (literal_span (c ∷ cs)).0)) false
        (parse fuel (literal_span (c ∷ cs)).1) in
    if c == 42
    then star
    else if c == 63
    then prepend seg_question false (parse fuel cs)
    else if c == 91
    then charset
    else literal

abbrev pub finish : List ℕ → Option (Outcome (List Segment × Bool)) → Option (Outcome Pattern)
finish raw none = none
finish raw (some (failed e)) = some (failed e)
finish raw (some (ok (segments, double))) = some (
    ok
      (record { raw = raw; prefix = extract_prefix raw; segments = segments; has_double = double }))

-- a round of the loop takes a byte at the least, so the length of the pattern is fuel enough
unfoldable pub compile : List ℕ → Option (Outcome Pattern)
compile [] = some (failed empty_pattern)
compile (c ∷ cs) = finish (c ∷ cs) (parse (length (c ∷ cs)) (c ∷ cs))

unfoldable pub is_literal : Pattern → Bool
is_literal p = elim p.segments [
  | [] ↦ false
  | s ∷ rest ↦ elim s [ seg_literal l ↦ elim rest [ [] ↦ true | _ ∷ _ ↦ false ] | _ ↦ false ]
]

-- the key after a literal that it starts with
unfoldable pub after_literal : List ℕ → List ℕ → Option (List ℕ)
after_literal [] key = some key
after_literal (c ∷ cs) [] = none
after_literal (c ∷ cs) (k ∷ key) = if c == k then after_literal cs key else none

-- `strings.IndexByte(set, c) >= 0`
unfoldable pub has_byte : List ℕ → ℕ → Bool
has_byte [] c = false
has_byte (x ∷ set) c = (x == c) || has_byte set c

-- the loop of a star: some rest of the key matches
unfoldable pub some_rest : (List ℕ → Bool) → List ℕ → Bool
some_rest matches [] = matches []
some_rest matches (c ∷ key) = if matches (c ∷ key) then true else some_rest matches key

unfoldable pub match_segments : List Segment → List ℕ → Bool
match_segments [] [] = true
match_segments [] (c ∷ key) = false
match_segments (seg_literal literal ∷ segs) key = elim (after_literal literal key) [
  | none ↦ false
  | some rest ↦ match_segments segs rest
]
match_segments (seg_question ∷ segs) [] = false
match_segments (seg_question ∷ segs) (c ∷ key) = match_segments segs key
match_segments (seg_charset set negated ∷ segs) [] = false
match_segments (seg_charset set negated ∷ segs) (c ∷ key) =
    let in_set = if negated then not (has_byte set c) else has_byte set c in
    if in_set then match_segments segs key else false
match_segments (seg_star ∷ segs) key = some_rest (match_segments segs) key
match_segments (seg_double ∷ segs) key = some_rest (match_segments segs) key

unfoldable pub match_key : Pattern → List ℕ → Bool
match_key p key = match_segments p.segments key
