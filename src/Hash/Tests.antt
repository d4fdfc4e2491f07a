-- ===== src/Hash/Tests.antt =====
-- The theorems on internal/hash at small inputs, and the published hash of a byte.
use go_mcache.Base.{◌<◌, ◌≡◌, refl, [], ◌∷◌}
use go_mcache.Hash.{string_loop, string, bytes, string_fast, bytes_fast}
use go_mcache.Hash.Streams.{bytes-string}

-- FNV-1a of the string "a"
hash_of_a : string (97 ∷ []) ≡ 0xaf63dc4c8601ec8c
unfolding string string_loop
hash_of_a = refl

bytes-string_example :
    (bytes (97 ∷ 98 ∷ []) ≡ string (97 ∷ 98 ∷ []))
    × (bytes_fast (97 ∷ 98 ∷ []) ≡ string_fast (97 ∷ 98 ∷ []))
    × (2 < 32 → string_fast (97 ∷ 98 ∷ []) ≡ string (97 ∷ 98 ∷ []))
bytes-string_example = bytes-string (97 ∷ 98 ∷ [])
