-- ===== src/Buffer/Tests.antt =====
-- The theorems on internal/buffer at small inputs.
use go_mcache.Base.{ℕ, ◌<◌, ◌≡◌, true, false, [], ◌∷◌, none, some, arith, set}
use go_mcache.Buffer.Ring.{RingBuffer, slots, new_ring_buffer, push, pop}
use go_mcache.Buffer.Ring.Inv.{Holds, pushed-Holds}
use go_mcache.Buffer.Ring.Queue.{push-Holds, Pops, pop-Holds}
use go_mcache.Buffer.Ring.Capacity.{fresh-Holds, one_slot_loses}

abbrev two_slots : RingBuffer ℕ
two_slots = record { nodes = slots 0 2 0; mask = 1; head = 0; tail = 0 }

two_slots-Holds : Holds 0 2 two_slots []
two_slots-Holds = fresh-Holds 0 0

push-Holds_example :
    (0 < 2
      → (rb' : RingBuffer ℕ) × (push 0 two_slots 7 ≡ some (true, rb')) × Holds 0 2 rb' (7 ∷ []))
    × (◌≡◌ {A = ℕ} 0 2 → push 0 two_slots 7 ≡ some (false, two_slots))
push-Holds_example = push-Holds 0 2 two_slots [] 7 two_slots-Holds (omega arith)

abbrev one_item : RingBuffer ℕ
one_item = record two_slots {
  tail = 1;
  nodes = set two_slots.nodes 0 (record { value = 7; seq = 1 });
}

one_item-Holds : Holds 0 2 one_item (7 ∷ [])
one_item-Holds = pushed-Holds 0 2 two_slots [] 7 two_slots-Holds (omega arith)

pop-Holds_example : Pops 0 2 one_item (7 ∷ [])
pop-Holds_example = pop-Holds 0 2 one_item (7 ∷ []) one_item-Holds (omega arith)

one_slot_loses_example :
    (rb₁ : RingBuffer ℕ) × (rb₂ : RingBuffer ℕ) × (push 0 (new_ring_buffer 0 1) 8
      ≡ some (true, rb₁))
    × (push 0 rb₁ 9 ≡ some (true, rb₂))
    × (pop 0 rb₂ ≡ none)
one_slot_loses_example = one_slot_loses 0 8 9
