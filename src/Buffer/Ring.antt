-- ===== src/Buffer/Ring.antt =====
-- internal/buffer/ring.go: RingBuffer, as one goroutine drives it. Sequence numbers are uint64.
-- A caller that finds neither a free slot nor a full buffer retries; with nobody else at work it finds
-- the same state for ever, which is `none`. `zero` is the zero value of T.
pub mod Index
pub mod Inv
pub mod Queue
pub mod Capacity
use go_mcache.Base.{
  ℕ, zero, suc, ◌+◌, ◌-◌, ◌*◌, ◌/◌, ◌%◌, ◌^◌, bit_and, bit_or, Bool, true, false, List, [], ◌∷◌,
  Option, none, some, length, get_or, set, ltb, leb, ◌==◌, if◌then◌else◌,
}
use go_mcache.Base.Word.{add64, sub64}

pub record Node (T : Type 0) : Type 0 where
  pub value : T
  pub seq : ℕ

pub record RingBuffer (T : Type 0) : Type 0 where
  pub nodes : List (Node T)
  pub mask : ℕ
  pub head : ℕ
  pub tail : ℕ

-- `capacity--; capacity |= capacity >> 1; …; capacity++` for a positive capacity
unfoldable pub round_up : ℕ → ℕ
round_up capacity =
    let c = capacity - 1 in
    let c = bit_or c (c / 2 ^ 1) in
    let c = bit_or c (c / 2 ^ 2) in
    let c = bit_or c (c / 2 ^ 4) in
    let c = bit_or c (c / 2 ^ 8) in let c = bit_or c (c / 2 ^ 16) in c + 1

module _ {T : Type 0} (zero_value : T) where
  -- `n` slots from sequence number `i` on
  unfoldable pub slots : ℕ → ℕ → List (Node T)
  slots zero i = []
  slots (suc n) i = record { value = zero_value; seq = i } ∷ slots n (suc i)

  -- a capacity of 0 stands for every capacity that is not positive
  unfoldable pub new_ring_buffer : ℕ → RingBuffer T
  new_ring_buffer capacity =
      let c = round_up (if capacity == 0 then 64 else capacity) in
      record { nodes = slots c 0; mask = c - 1; head = 0; tail = 0 }

  abbrev pub no_node : Node T
  no_node = record { value = zero_value; seq = 0 }

  unfoldable pub push : RingBuffer T → T → Option (Bool × RingBuffer T)
  push rb item =
      let tail = rb.tail in
      let idx = bit_and tail rb.mask in
      let seq = (get_or rb.nodes idx no_node).seq in
      if seq == tail
      then some (
        true,
        record rb {
          tail = add64 tail 1;
          nodes = set rb.nodes idx (record { value = item; seq = add64 tail 1 });
        },
      )
      else if ltb seq tail
      then some (false, rb)
      else none

  -- the item, or `none` for an empty buffer, and the new state
  unfoldable pub pop : RingBuffer T → Option (Option T × RingBuffer T)
  pop rb =
      let head = rb.head in
      let idx = bit_and head rb.mask in
      let node = get_or rb.nodes idx no_node in
      if node.seq == add64 head 1
      then some (
        some node.value,
        record rb {
          head = add64 head 1;
          nodes =
              set rb.nodes idx (record { value = zero_value; seq = add64 head (length rb.nodes) });
        },
      )
      else if node.seq == head
      then some (none, rb)
      else none

unfoldable pub len : {T : Type 0} → RingBuffer T → ℕ
len rb = sub64 rb.tail rb.head

unfoldable pub capacity_of : {T : Type 0} → RingBuffer T → ℕ
capacity_of rb = length rb.nodes

unfoldable pub is_empty : {T : Type 0} → RingBuffer T → Bool
is_empty rb = len rb == 0

unfoldable pub is_full : {T : Type 0} → RingBuffer T → Bool
is_full rb = leb (length rb.nodes) (len rb)
