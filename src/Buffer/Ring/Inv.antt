-- ===== src/Buffer/Ring/Inv.antt =====
-- internal/buffer/ring.go: when the buffer holds a queue, oldest item first.
use go_mcache.Base.{
  ℕ, zero, suc, ◌∙◌, ◌+◌, ◌%◌, ◌≤◌, ◌<◌, ◌≡◌, refl, List, [], ◌∷◌, ◌++◌, bit_and, arith, length,
  get_or, set, ◌==◌, get_or-set, length-set, if◌then◌else◌, length-append,
}
use native.Mathlib.Nat.{mod-lt}
use go_mcache.Buffer.Ring.{Node, RingBuffer, no_node}
use go_mcache.Buffer.Ring.Index.{slot-injective, slot-period}

module _ {T : Type 0} (zero_value : T) where
  -- the slot of sequence number `n`
  abbrev pub slot : ℕ → RingBuffer T → ℕ → Node T
  slot c rb n = get_or rb.nodes (n % c) (no_node zero_value)

  -- `rb`, of capacity `c`, holds the items `q`: an item's slot carries the next sequence number, a free
  -- slot its own.
  pub record Holds (c : ℕ) (rb : RingBuffer T) (q : List T) : Type 0 where
    pub size : length rb.nodes ≡ c
    pub two_slots : 2 ≤ c
    pub masked : (n : ℕ) → bit_and n rb.mask ≡ n % c
    pub ends : rb.tail ≡ rb.head + length q
    pub fits : length q ≤ c
    pub taken :
        (i : ℕ)
        → i < length q
        → slot c rb (rb.head + i) ≡ record { value = get_or q i zero_value; seq = rb.head + i + 1 }
    pub free : (i : ℕ) → length q ≤ i → i < c → (slot c rb (rb.head + i)).seq ≡ rb.head + i

  -- a write to the slot of position `i` is seen there and at no other position
  pub slot-set :
      (c h i j : ℕ) (nodes : List (Node T)) (n : Node T)
      → length nodes ≡ c
      → i < c
      → j < c
      → get_or (set nodes ((h + i) % c) n) ((h + j) % c) (no_node zero_value)
        ≡ (if i == j then n else get_or nodes ((h + j) % c) (no_node zero_value))
  slot-set c h i j nodes n e hi hj = ground (
    arith,
    get_or-set nodes ((h + i) % c) ((h + j) % c) n (no_node zero_value),
    slot-injective h i j c hi hj,
    mod-lt (h + i) {m = c},
  )

  get_or-concat :
      (q : List T) (x d : T) (i : ℕ)
      → get_or (q ++ x ∷ []) i d ≡ (if i == length q then x else get_or q i d)
  get_or-concat [] x d zero = refl
  get_or-concat [] x d (suc i) = ground arith
  get_or-concat (y ∷ q) x d zero = ground arith
  get_or-concat (y ∷ q) x d (suc i) = ground (arith, get_or-concat q x d i)

  -- the state after Push of `x` into a free slot
  pub pushed-Holds :
      (c : ℕ) (rb : RingBuffer T) (q : List T) (x : T)
      → Holds c rb q
      → length q < c
      → Holds c
          (record rb {
            tail = rb.tail + 1;
            nodes = set rb.nodes (rb.tail % c) (record { value = x; seq = rb.tail + 1 });
          })
          (q ++ x ∷ [])
  pushed-Holds c rb q x v room = record {
    size = length-set rb.nodes (rb.tail % c) node ∙ v.size;
    two_slots = v.two_slots;
    masked = v.masked;
    ends = omega (arith, grown, v.ends);
    fits = omega (arith, grown);
    taken = λ i h.
        ground (arith, at i, grown, v.taken i, v.ends, get_or-concat q x zero_value i, v.fits);
    free = λ i h k. ground (arith, at i, grown, v.free i);
  }
    where
      grown : length (q ++ x ∷ []) ≡ length q + 1
      grown = length-append q (x ∷ [])

      node : Node T
      node = record { value = x; seq = rb.tail + 1 }

      at :
          (j : ℕ)
          → j < c
          → get_or (set rb.nodes (rb.tail % c) node) ((rb.head + j) % c) (no_node zero_value)
            ≡ (if length q == j then node else slot c rb (rb.head + j))
      at j hj = ground (arith, v.ends, slot-set c rb.head (length q) j rb.nodes node v.size room hj)

  -- the state after Pop of the oldest item
  pub popped-Holds :
      (c : ℕ) (rb : RingBuffer T) (q : List T) (x : T)
      → Holds c rb (x ∷ q)
      → Holds c
          (record rb {
            head = rb.head + 1;
            nodes = set rb.nodes (rb.head % c) (record { value = zero_value; seq = rb.head + c });
          })
          q
  popped-Holds c rb q x v = record {
    size = length-set rb.nodes (rb.head % c) node ∙ v.size;
    two_slots = v.two_slots;
    masked = v.masked;
    ends = omega (arith, v.ends);
    fits = omega (arith, v.fits);
    taken = λ i h. ground (arith, at i, v.taken (suc i), v.fits);
    free = λ i h k. ground (arith, at i, v.free (suc i));
  }
    where
      node : Node T
      node = record { value = zero_value; seq = rb.head + c }

      at :
          (j : ℕ)
          → j < c
          → get_or (set rb.nodes (rb.head % c) node) ((rb.head + 1 + j) % c) (no_node zero_value)
            ≡ (if suc j == c then node else slot c rb (rb.head + suc j))
      at j hj = ground (
        arith,
        v.size,
        slot-set c rb.head 0 (suc j) rb.nodes node v.size (omega arith),
        get_or-set rb.nodes (rb.head % c) (rb.head % c) node (no_node zero_value),
        mod-lt rb.head {m = c},
        slot-period rb.head c,
      )
