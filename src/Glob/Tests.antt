-- ===== src/Glob/Tests.antt =====
-- The theorems on internal/glob at small inputs, and runs of the code. `97` is the letter a, `42` the star.
use go_mcache.Base.{ℕ, ◌≡◌, refl, ◌↔◌, true, false, List, [], ◌∷◌, some, none, arith}
use go_mcache.Glob.{
  Pattern, Outcome, ok, seg_literal, seg_star, seg_question, extract_prefix, unescape, literal_span,
  byte_range, charset_loop, negation, parse_charset, parse, compile, after_literal, some_rest,
  match_segments, match_key,
}
use go_mcache.Glob.Matching.{Matches, match_segments_iff}
use go_mcache.Glob.Prefix.{compile-prefix}
use go_mcache.Glob.Ends.{compile_ends}

-- `ab*`
abbrev ab_star : Pattern
ab_star = record {
  raw = 97 ∷ 98 ∷ 42 ∷ [];
  prefix = 97 ∷ 98 ∷ [];
  segments = seg_literal (97 ∷ 98 ∷ []) ∷ seg_star ∷ [];
  has_double = false;
}

ab_star_compiled : compile (97 ∷ 98 ∷ 42 ∷ []) ≡ some (ok ab_star)
unfolding compile parse literal_span unescape extract_prefix
ab_star_compiled = refl

ab_star_matches : match_key ab_star (97 ∷ 98 ∷ 99 ∷ []) ≡ true
unfolding match_key match_segments after_literal some_rest
ab_star_matches = refl

compile-prefix_example : (rest : List ℕ) × (97 ∷ 98 ∷ 99 ∷ [] ≡ 97 ∷ 98 ∷ rest)
compile-prefix_example =
    compile-prefix (97 ∷ 98 ∷ 42 ∷ []) ab_star (97 ∷ 98 ∷ 99 ∷ []) ab_star_compiled ab_star_matches

match_segments_iff_example :
    (match_segments (seg_star ∷ seg_question ∷ []) (97 ∷ []) ≡ true)
    ↔ Matches (seg_star ∷ seg_question ∷ []) (97 ∷ [])
match_segments_iff_example = match_segments_iff (seg_star ∷ seg_question ∷ []) (97 ∷ [])

compile_ends_example : (o : Outcome Pattern) × (compile (91 ∷ 97 ∷ 45 ∷ 99 ∷ 93 ∷ []) ≡ some o)
compile_ends_example =
    compile_ends (91 ∷ 97 ∷ 45 ∷ 99 ∷ 93 ∷ [])
      (omega arith, (omega arith, (omega arith, (omega arith, (omega arith, tt)))))

-- the range from 0xFE to 0xFF does not end
endless : compile (91 ∷ 254 ∷ 45 ∷ 255 ∷ 93 ∷ []) ≡ none
unfolding compile parse parse_charset negation charset_loop byte_range
endless = refl
