-- ===== src/Hash/Streams.antt =====
-- internal/hash/fnv.go: the hash of a longer string, and that strings and byte slices hash alike.
use go_mcache.Base.{ℕ, ◌<◌, ◌≡◌, refl, List, [], ◌∷◌, ◌++◌, arith, length}
use go_mcache.Hash.{
  offset64, absorb, absorb_word, word, string_loop, string, bytes_loop, bytes, long_loop,
  string_fast, bytes_long_loop, bytes_fast,
}

string_loop-append :
    (h : ℕ) (s t : List ℕ) → string_loop h (s ++ t) ≡ string_loop (string_loop h s) t
unfolding string_loop
string_loop-append h [] t = refl
string_loop-append h (c ∷ s) t = string_loop-append (absorb h c) s t

-- String goes through its bytes from left to right: the hash of a string and more bytes is the loop
-- continued from the hash of the string, and the last byte enters by one xor and one product.
pub string-append :
    (s t : List ℕ) (c : ℕ)
    → (string (s ++ t) ≡ string_loop (string s) t) × (string (s ++ c ∷ []) ≡ absorb (string s) c)
unfolding string string_loop
string-append s t c = (string_loop-append offset64 s t, string_loop-append offset64 s (c ∷ []))

bytes_loop-eq : (h : ℕ) (b : List ℕ) → bytes_loop h b ≡ string_loop h b
unfolding string_loop bytes_loop
bytes_loop-eq h [] = refl
bytes_loop-eq h (c ∷ b) = bytes_loop-eq (absorb h c) b

bytes_long_loop-eq : (h : ℕ) (b : List ℕ) → bytes_long_loop h b ≡ long_loop h b
unfolding bytes_long_loop long_loop
bytes_long_loop-eq h (a ∷ b ∷ c ∷ d ∷ e ∷ f ∷ g ∷ i ∷ s) =
    bytes_long_loop-eq (absorb_word h (word a b c d e f g i)) s
bytes_long_loop-eq h [] = bytes_loop-eq h []
bytes_long_loop-eq h (a ∷ []) = bytes_loop-eq h (a ∷ [])
bytes_long_loop-eq h (a ∷ b ∷ []) = bytes_loop-eq h (a ∷ b ∷ [])
bytes_long_loop-eq h (a ∷ b ∷ c ∷ []) = bytes_loop-eq h (a ∷ b ∷ c ∷ [])
bytes_long_loop-eq h (a ∷ b ∷ c ∷ d ∷ []) = bytes_loop-eq h (a ∷ b ∷ c ∷ d ∷ [])
bytes_long_loop-eq h (a ∷ b ∷ c ∷ d ∷ e ∷ []) = bytes_loop-eq h (a ∷ b ∷ c ∷ d ∷ e ∷ [])
bytes_long_loop-eq h (a ∷ b ∷ c ∷ d ∷ e ∷ f ∷ []) = bytes_loop-eq h (a ∷ b ∷ c ∷ d ∷ e ∷ f ∷ [])
bytes_long_loop-eq h (a ∷ b ∷ c ∷ d ∷ e ∷ f ∷ g ∷ []) =
    bytes_loop-eq h (a ∷ b ∷ c ∷ d ∷ e ∷ f ∷ g ∷ [])

-- A byte slice hashes as the string of the same bytes, by Bytes and String as well as by BytesFast and
-- StringFast, and below 32 bytes the two pairs agree.
pub bytes-string :
    (b : List ℕ)
    → (bytes b ≡ string b)
      × (bytes_fast b ≡ string_fast b)
      × (length b < 32 → string_fast b ≡ string b)
unfolding bytes string bytes_fast string_fast
bytes-string b = (
  bytes_loop-eq offset64 b,
  ground (arith, bytes_loop-eq offset64 b, bytes_long_loop-eq offset64 b),
  λ h. ground arith,
)
