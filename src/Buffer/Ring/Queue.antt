-- ===== src/Buffer/Ring/Queue.antt =====
-- internal/buffer/ring.go: Push and Pop against a bounded first-in first-out queue.

use go_mcache.Base.{
  ℕ, ◌+◌, ◌%◌, ◌^◌, ◌<◌, ◌≡◌, true, false, List, [], ◌∷◌, ◌++◌, none, some, arith, length, set, leb,
  ◌==◌,
}
use go_mcache.Buffer.Ring.{RingBuffer, push, pop, len, is_empty, is_full}
use go_mcache.Buffer.Ring.Index.{slot-period}
use go_mcache.Buffer.Ring.Inv.{Holds, pushed-Holds, popped-Holds}

module _ {T : Type 0} (zero_value : T) (c : ℕ) (rb : RingBuffer T) (q : List T) where
  -- Push onto a buffer that holds a queue, before the counters wrap: with a free slot it answers true and
  -- the item is at the end of the queue; a full buffer answers false and is left as it was.
  pub push-Holds :
      (x : T)
      → Holds zero_value c rb q
      → rb.tail + c < 2 ^ 64
      → (length q < c
          → (rb' : RingBuffer T) × (push zero_value rb x ≡ some (true, rb'))
            × Holds zero_value c rb' (q ++ x ∷ []))
        × (length q ≡ c → push zero_value rb x ≡ some (false, rb))
  unfolding push
  push-Holds x v low = (
    λ room. (
      record rb {
        tail = rb.tail + 1;
        nodes = set rb.nodes (rb.tail % c) (record { value = x; seq = rb.tail + 1 });
      },
      ground (arith, v.masked rb.tail, v.free (length q), v.ends),
      pushed-Holds zero_value c rb q x v room,
    ),
    λ full. ground (arith, v.masked rb.tail, v.taken 0, v.ends, v.two_slots, slot-period rb.head c),
  )

  -- On a buffer that holds a queue, before the counters wrap, Len is the length of the queue, IsEmpty tells
  -- whether that is 0 and IsFull whether it has reached the capacity.
  pub len-Holds :
      Holds zero_value c rb q
      → rb.tail < 2 ^ 64
      → (len rb ≡ length q) × (is_empty rb ≡ (length q == 0)) × (is_full rb ≡ leb c (length q))
  unfolding len is_empty is_full
  len-Holds v low = (omega (arith, v.ends), ground (arith, v.ends), ground (arith, v.ends, v.size))

module _ {T : Type 0} (zero_value : T) (c : ℕ) (rb : RingBuffer T) where
  -- what Pop does on a buffer that holds the queue
  abbrev pub Pops : List T → Type 0
  Pops [] = pop zero_value rb ≡ some (none, rb)
  Pops (x ∷ rest) =
      (rb' : RingBuffer T) × (pop zero_value rb ≡ some (some x, rb')) × Holds zero_value c rb' rest

  -- Pop of a buffer that holds a queue, before the counters wrap, takes the oldest item and leaves a buffer
  -- that holds the others; it finds an empty queue empty and leaves the buffer as it was.
  pub pop-Holds : (q : List T) → Holds zero_value c rb q → rb.tail + c < 2 ^ 64 → Pops q
  unfolding pop
  pop-Holds [] v low = ground (arith, v.masked rb.head, v.free 0, v.ends, v.two_slots)
  pop-Holds (x ∷ rest) v low = (
    record rb {
      head = rb.head + 1;
      nodes = set rb.nodes (rb.head % c) (record { value = zero_value; seq = rb.head + c });
    },
    ground (arith, v.masked rb.head, v.taken 0, v.ends, v.size),
    popped-Holds zero_value c rb rest x v,
  )
