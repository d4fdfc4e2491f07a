-- ===== src/Policy/Combined.antt =====
-- internal/policy/policy.go: TinyLFU admission with sampled LFU eviction. Draw `r` of the argument
-- `draws` is what `math/rand` gives in round `r` of the eviction loop; `zero` is the zero value of K.
-- `none` stands for a panic, or for a loop that has not ended when its fuel or its draws are used up.
pub mod Victims
pub mod Add
pub mod Chosen
use go_mcache.Base.{
  ℕ, zero, suc, ◌+◌, ◌-◌, ◌^◌, Bool, true, false, List, [], ◌∷◌, ◌++◌, Option, none, some, length,
  ltb, ◌==◌, if◌then◌else◌,
}
use go_mcache.Policy.TinyLfu
use go_mcache.Policy.TinyLfu.{TinyLfu}
use go_mcache.Policy.Sampled
use go_mcache.Policy.Sampled.{SampledLfu, Victim, ◌>>=◌}
use go_mcache.Policy.Sampled.Sample.{sample}

pub record Policy (K : Type 0) : Type 0 where
  pub admit : TinyLfu
  pub evict : SampledLfu K

-- the seeds are values of `rand.Uint64`; `none` when newCMSketch does not end
unfoldable pub new_policy : {K : Type 0} → ℕ → ℕ → ℕ → List ℕ → Option (Policy K)
new_policy num_counters max_cost max_entries seeds = do
  t ← TinyLfu.new_tiny_lfu num_counters seeds
  some (record { admit = t; evict = Sampled.new_sampled_lfu max_cost max_entries })

-- `1<<63 - 1`
abbrev pub max_int64 : ℕ
max_int64 = 2 ^ 63 - 1

-- the loop over the sample: the first victim of least frequency
unfoldable pub lowest : {K : Type 0} → TinyLfu → ℕ → Victim K → List (Victim K) → Victim K
lowest t least victim [] = victim
lowest t least victim (v ∷ vs) =
    let freq = TinyLfu.estimate t v.key_hash in
    lowest t (if ltb freq least then freq else least) (if ltb freq least then v else victim) vs

module _ {K : Type 0} (dec : Discrete K) (zero_key : K) where
  unfoldable pub no_victim : Victim K
  no_victim = record { key = zero_key; key_hash = 0 }

  unfoldable pub find_victims :
      (ℕ → List ℕ)
      → ℕ
      → ℕ
      → TinyLfu
      → ℕ
      → SampledLfu K
      → List (Victim K)
      → Option (List (Victim K) × SampledLfu K)
  unfolding no_victim
  find_victims draws zero round t incoming s victims = none
  find_victims draws (suc fuel) round t incoming s victims =
      let evict_one = sample dec s (draws round) >>= λ drawn.
      let victim = lowest t max_int64 no_victim drawn.0 in
      let next = Sampled.del dec s victim.key >>= λ s'.
      find_victims draws fuel (round + 1) t incoming s' (victims ++ victim ∷ []) in
      if length drawn.0 == 0
      then some (victims, s)
      else if TinyLfu.admit t incoming victim.key_hash
      then next
      else some (victims, s) in
      if Sampled.needs_eviction s then evict_one else some (victims, s)

  -- the victims, whether the key was added, and the new state
  unfoldable pub add :
      (ℕ → List ℕ) → Policy K → K → ℕ → ℕ → Option (List (Victim K) × Bool × Policy K)
  unfolding find_victims
  add draws p key key_hash cost =
      let t = TinyLfu.increment p.admit key_hash in
      let insert =
        find_victims draws (suc (length p.evict.keys)) 0 t key_hash p.evict [] >>= λ found.
        some (
          found.0,
          true,
          record { admit = t; evict = Sampled.add dec found.1 key key_hash cost },
        ) in
      if Sampled.has dec p.evict key
      then some
          ([], true, record { admit = t; evict = Sampled.update dec p.evict key key_hash cost })
      else insert

  unfoldable pub has : Policy K → K → Bool
  has p key = Sampled.has dec p.evict key

  unfoldable pub del : Policy K → K → Option (Policy K)
  del p key = Sampled.del dec p.evict key >>= λ s. some (record p { evict = s })

  unfoldable pub update : Policy K → K → ℕ → ℕ → Policy K
  update p key key_hash cost = record p { evict = Sampled.update dec p.evict key key_hash cost }

unfoldable pub access : {K : Type 0} → Policy K → ℕ → Policy K
access p key_hash = record p { admit = TinyLfu.increment p.admit key_hash }

unfoldable pub clear : {K : Type 0} → Policy K → Policy K
clear p = record { admit = TinyLfu.clear p.admit; evict = Sampled.clear p.evict }

unfoldable pub cost : {K : Type 0} → Policy K → ℕ
cost p = p.evict.used_cost

unfoldable pub num_entries : {K : Type 0} → Policy K → ℕ
num_entries p = p.evict.num_entries

unfoldable pub set_max_cost : {K : Type 0} → Policy K → ℕ → Policy K
set_max_cost p n = record p { evict = Sampled.set_max_cost p.evict n }

unfoldable pub set_max_entries : {K : Type 0} → Policy K → ℕ → Policy K
set_max_entries p n = record p { evict = Sampled.set_max_entries p.evict n }
