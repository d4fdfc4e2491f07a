-- ===== src/Buffer/Ring/Capacity.antt =====
-- internal/buffer/ring.go: a new buffer, the rounding of its capacity, and a buffer of one slot.
use native.Mathlib.Nat.{mod-eq_of_lt, pow-suc, one-le-pow}
use go_mcache.Base.{
  ℕ, zero, suc, ◌+◌, ◌-◌, ◌*◌, ◌^◌, ◌≤◌, ◌<◌, ◌≡◌, refl, Bool, true, false, ◌&&◌, ◌||◌, [], ◌∷◌,
  none, some, arith, length, get_or, ltb, leb, ◌==◌, if◌then◌else◌,
}
use go_mcache.Base.Bits.{bit_and_mask}
use go_mcache.Tables.{passes_under, test_of_passes_under}
use go_mcache.Buffer.Ring.{RingBuffer, no_node, slots, round_up, new_ring_buffer, push, pop}
use go_mcache.Buffer.Ring.Inv.{Holds}

module _ {T : Type 0} (zero_value : T) where
  length-slots : (n i : ℕ) → length (slots zero_value n i) ≡ n
  unfolding slots
  length-slots zero i = refl
  length-slots (suc n) i = omega (arith, length-slots n (suc i))

  slots_lem :
      (n i j : ℕ) → j < n → (get_or (slots zero_value n i) j (no_node zero_value)).seq ≡ i + j
  unfolding slots
  slots_lem zero i j h = absurd (omega arith)
  slots_lem (suc n) i zero h = omega arith
  slots_lem (suc n) i (suc j) h = omega (arith, slots_lem n (suc i) j (omega arith))

  pub fresh-Holds :
      (k : ℕ)
      → Holds zero_value
          (2 ^ suc k)
          (record {
            nodes = slots zero_value (2 ^ suc k) 0;
            mask = 2 ^ suc k - 1;
            head = 0;
            tail = 0;
          })
          []
  fresh-Holds k =
      let two : 2 ≤ 2 ^ suc k = omega (arith, pow-suc 2 k, one-le-pow k 2 (omega arith)) in
      record {
        size = length-slots (2 ^ suc k) 0;
        two_slots = two;
        masked = bit_and_mask (suc k);
        ends = refl;
        fits = omega arith;
        taken = λ i h. absurd (omega arith);
        free = λ i h j.
            ground (arith, slots_lem (2 ^ suc k) 0 i, mod-eq_of_lt {n = 0 + i} {m = 2 ^ suc k});
      }

-- the least `k` from the given one on with `n` at most 2^(k+1)
exponent : ℕ → ℕ → ℕ → ℕ
exponent zero k n = k
exponent (suc f) k n = if leb n (2 ^ suc k) then k else exponent f (suc k) n

abbrev rounds_well : ℕ → Bool
rounds_well n =
    let k = exponent 12 0 n in
    leb n 1 || ((round_up n == 2 ^ suc k) && (leb n (2 ^ suc k) && (ltb (2 ^ k) n || (k == 0))))

round_up_table : passes_under rounds_well 4097 ≡ true
unfolding passes_under round_up exponent
round_up_table = refl

-- A capacity from 2 to 4096 is rounded up to the next power of two.
pub round_up_lem :
    (n : ℕ)
    → 2 ≤ n
    → n ≤ 4096
    → (k : ℕ) × (round_up n ≡ 2 ^ suc k) × (n ≤ 2 ^ suc k) × (2 ^ suc k < 2 * n)
round_up_lem n low high =
    let checked : rounds_well n ≡ true =
      test_of_passes_under rounds_well 4097 round_up_table n (omega arith) in
    let k = exponent 12 0 n in (k, ground arith, ground arith, ground (arith, pow-suc 2 k))

module _ {T : Type 0} (zero_value : T) where
  new_ring_buffer_lem :
      (n c : ℕ)
      → 2 ≤ n
      → round_up n ≡ c
      → new_ring_buffer zero_value n
        ≡ record { nodes = slots zero_value c 0; mask = c - 1; head = 0; tail = 0 }
  unfolding new_ring_buffer
  new_ring_buffer_lem n c low h =
      let positive : (n == 0) ≡ false = ground arith in rw (positive, h) refl

  -- For a capacity from 2 to 4096 NewRingBuffer makes an empty buffer whose capacity is the next power of
  -- two.
  pub new_ring_buffer-Holds :
      (n : ℕ)
      → 2 ≤ n
      → n ≤ 4096
      → (c : ℕ) × Holds zero_value c (new_ring_buffer zero_value n) [] × (n ≤ c) × (c < 2 * n)
  new_ring_buffer-Holds n low high =
      let (k, rounded, least, most) = round_up_lem n low high in
      (
        2 ^ suc k,
        rw (new_ring_buffer_lem n (2 ^ suc k) low rounded) (fresh-Holds zero_value k),
        least,
        most,
      )

  -- With one slot the sequence number of a taken slot is the one that the next Push looks for. Whatever
  -- the two items are, a second Push overwrites the first and answers true, and Pop then never ends.
  pub one_slot_loses :
      (x y : T)
      → (rb₁ : RingBuffer T) × (rb₂ : RingBuffer T) × (push zero_value
            (new_ring_buffer zero_value 1)
            x
          ≡ some (true, rb₁))
        × (push zero_value rb₁ y ≡ some (true, rb₂))
        × (pop zero_value rb₂ ≡ none)
  unfolding new_ring_buffer slots round_up push pop
  one_slot_loses x y = (
    record { nodes = record { value = x; seq = 1 } ∷ []; mask = 0; head = 0; tail = 1 },
    record { nodes = record { value = y; seq = 2 } ∷ []; mask = 0; head = 0; tail = 2 },
    refl,
    refl,
    refl,
  )
