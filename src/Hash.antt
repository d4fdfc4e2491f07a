-- ===== src/Hash.antt =====
-- internal/hash/fnv.go: FNV-1a over bytes, its variant that takes eight bytes at a time, and the mixers for
-- integer keys, over uint64. A string is the list of its bytes; eight bytes are read as a little-endian word.
pub mod Streams
mod Tests
use go_mcache.Base.{
  ℕ, ◌+◌, ◌-◌, ◌*◌, ◌/◌, ◌%◌, ◌^◌, bit_or, bit_xor, Bool, List, [], ◌∷◌, length, ltb, if◌then◌else◌,
}
use go_mcache.Base.Word.{add64, mul64}

abbrev pub offset64 : ℕ
offset64 = 14695981039346656037

abbrev pub prime64 : ℕ
prime64 = 1099511628211

-- `h ^= uint64(c); h *= prime64`
abbrev pub absorb : ℕ → ℕ → ℕ
absorb h c = mul64 (bit_xor h c) prime64

unfoldable pub string_loop : ℕ → List ℕ → ℕ
string_loop h [] = h
string_loop h (c ∷ s) = string_loop (absorb h c) s

unfoldable pub string : List ℕ → ℕ
string s = string_loop offset64 s

unfoldable pub bytes_loop : ℕ → List ℕ → ℕ
bytes_loop h [] = h
bytes_loop h (c ∷ b) = bytes_loop (absorb h c) b

unfoldable pub bytes : List ℕ → ℕ
bytes b = bytes_loop offset64 b

-- splitmix64; an int64 is its two's complement pattern
unfoldable pub uint64 : ℕ → ℕ
uint64 x =
    let x = mul64 (bit_xor x (x / 2 ^ 30)) 0xbf58476d1ce4e5b9 in
    let x = mul64 (bit_xor x (x / 2 ^ 27)) 0x94d049bb133111eb in bit_xor x (x / 2 ^ 31)

unfoldable pub int64 : ℕ → ℕ
int64 x =
    let x = mul64 (bit_xor x (x / 2 ^ 30)) 0xbf58476d1ce4e5b9 in
    let x = mul64 (bit_xor x (x / 2 ^ 27)) 0x94d049bb133111eb in bit_xor x (x / 2 ^ 31)

unfoldable pub combine : ℕ → ℕ → ℕ
combine h₁ h₂ =
    bit_xor h₁ (add64 (add64 (add64 h₂ 0x9e3779b97f4a7c15) (h₁ * 2 ^ 12 % 2 ^ 64)) (h₁ / 2 ^ 4))

-- bits.RotateLeft64(h, 31)
abbrev pub rotate31 : ℕ → ℕ
rotate31 h = bit_or (h * 2 ^ 31 % 2 ^ 64) (h / 2 ^ 33)

abbrev pub absorb_word : ℕ → ℕ → ℕ
absorb_word h k = rotate31 (absorb h k)

abbrev pub word : ℕ → ℕ → ℕ → ℕ → ℕ → ℕ → ℕ → ℕ → ℕ
word a b c d e f g i =
    a + 2 ^ 8 * b + 2 ^ 16 * c + 2 ^ 24 * d + 2 ^ 32 * e + 2 ^ 40 * f + 2 ^ 48 * g + 2 ^ 56 * i

-- eight bytes at a time while there are eight, then one at a time
unfoldable pub long_loop : ℕ → List ℕ → ℕ
long_loop h (a ∷ b ∷ c ∷ d ∷ e ∷ f ∷ g ∷ i ∷ s) = long_loop (absorb_word h (word a b c d e f g i)) s
long_loop h s = string_loop h s

unfoldable pub string_fast : List ℕ → ℕ
string_fast s = if ltb (length s) 32 then string s else long_loop offset64 s

unfoldable pub bytes_long_loop : ℕ → List ℕ → ℕ
bytes_long_loop h (a ∷ b ∷ c ∷ d ∷ e ∷ f ∷ g ∷ i ∷ s) =
    bytes_long_loop (absorb_word h (word a b c d e f g i)) s
bytes_long_loop h s = bytes_loop h s

unfoldable pub bytes_fast : List ℕ → ℕ
bytes_fast b = if ltb (length b) 32 then bytes b else bytes_long_loop offset64 b
