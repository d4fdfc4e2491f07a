-- ===== src/Policy/TinyLfu.antt =====
-- internal/policy/tinylfu.go: TinyLFU admission, a Bloom filter in front of a Count-Min Sketch.
pub mod Laws
use go_mcache.Base.{ℕ, ◌+◌, ◌/◌, ◌^◌, Bool, List, Option, none, some, leb, ltb, ◌==◌, if◌then◌else◌}
use go_mcache.Base.Word.{add64, sle}
use go_mcache.Policy.Sketch
use go_mcache.Policy.Sketch.{CmSketch}
use go_mcache.Policy.Bloom
use go_mcache.Policy.Bloom.{BloomFilter}

pub record TinyLfu : Type 0 where
  pub freq : CmSketch
  pub door : BloomFilter
  pub incrs : ℕ
  pub reset_at : ℕ

-- `none` when newCMSketch does not end; the seeds are values of `rand.Uint64`
unfoldable pub new_tiny_lfu : ℕ → List ℕ → Option TinyLfu
new_tiny_lfu num_counters seeds =
    let n = if sle num_counters 0 then 2 ^ 20 else num_counters in
    elim (Sketch.new_cm_sketch n seeds) [
      | none ↦ none
      | some freq ↦
          some (record {
            freq = freq;
            door = Bloom.new_bloom_filter (n / 10);
            incrs = 0;
            reset_at = n;
          })
    ]

unfoldable pub reset : TinyLfu → TinyLfu
reset t = record t { freq = Sketch.reset t.freq; door = Bloom.reset t.door; incrs = 0 }

-- the doorkeeper first, then the count, then the age
unfoldable pub touch : TinyLfu → ℕ → TinyLfu
touch t key_hash =
    let (door, present) = Bloom.add t.door key_hash in
    record t {
      door = door;
      freq = if present then Sketch.increment t.freq key_hash else t.freq;
      incrs = add64 t.incrs 1;
    }

unfoldable pub increment : TinyLfu → ℕ → TinyLfu
increment t key_hash =
    let t' = touch t key_hash in if sle t'.reset_at t'.incrs then reset t' else t'

unfoldable pub estimate : TinyLfu → ℕ → ℕ
estimate t key_hash =
    if Bloom.contains t.door key_hash
    then Sketch.estimate t.freq key_hash + 1
    else Sketch.estimate t.freq key_hash

unfoldable pub admit : TinyLfu → ℕ → ℕ → Bool
admit t incoming_hash victim_hash = leb (estimate t victim_hash) (estimate t incoming_hash)

unfoldable pub clear : TinyLfu → TinyLfu
clear t = record t { freq = Sketch.clear t.freq; door = Bloom.reset t.door; incrs = 0 }
