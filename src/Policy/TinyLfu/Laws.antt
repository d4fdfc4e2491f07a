-- ===== src/Policy/TinyLfu/Laws.antt =====
-- internal/policy/tinylfu.go: what an increment does to the estimates, and the ageing.
use go_mcache.Base.{ℕ, ◌+◌, ◌/◌, ◌^◌, ◌≤◌, ◌<◌, ◌≡◌, refl, min, arith, Bool-cases, inl, inr}
use go_mcache.Base.Word.{sle}
use go_mcache.Policy.Sketch
use go_mcache.Policy.Sketch.Rows
use go_mcache.Policy.Sketch.Counts
use go_mcache.Policy.Bloom
use go_mcache.Policy.Bloom.{BloomFilter}
use go_mcache.Policy.Bloom.Members
use go_mcache.Policy.TinyLfu.{TinyLfu, touch, increment, estimate, reset}

-- both parts are well formed, and the age is below the reset threshold
pub record IsValid (t : TinyLfu) : Type 0 where
  pub freq_valid : Rows.IsValid t.freq
  pub door_valid : Members.IsValid t.door
  pub hashes : 0 < t.door.num_hash
  pub young : t.incrs < t.reset_at
  pub threshold : t.reset_at < 2 ^ 63

pub estimate-le : (t : TinyLfu) (h : ℕ) → estimate t h ≤ 16
unfolding estimate
estimate-le t h = ground (arith, Rows.estimate-le t.freq h)

module _ (t : TinyLfu) (h : ℕ) (v : IsValid t) where
  -- one access before any ageing: the estimate goes up by one, to 16 at most
  estimate-touch : estimate (touch t h) h ≡ min 16 (estimate t h + 1)
  unfolding estimate touch
  estimate-touch =
      let (answer, present, _) = Members.add-contains t.door v.door_valid h in
      ground (
        arith,
        answer,
        present,
        Rows.estimate-increment_self t.freq v.freq_valid h,
        Rows.estimate-le t.freq h,
      )

  touch-freq : Rows.IsValid (touch t h).freq
  unfolding touch
  touch-freq = elim (Bool-cases (Bloom.add t.door h).1) [
    | inl p ↦ rw p (Rows.increment-IsValid t.freq v.freq_valid h)
    | inr p ↦ rw p v.freq_valid
  ]

  touch-incrs : ((touch t h).incrs ≡ t.incrs + 1) × ((touch t h).reset_at ≡ t.reset_at)
  unfolding touch
  touch-incrs = (omega (arith, v.young, v.threshold), refl)

  touch-door : Members.IsValid (touch t h).door × (0 < (touch t h).door.num_hash)
  unfolding touch Bloom.add
  touch-door = (Members.add-IsValid t.door v.door_valid h, v.hashes)

  estimate-reset :
      (u : TinyLfu) (j : ℕ)
      → Rows.IsValid u.freq
      → Members.IsValid u.door
      → 0 < u.door.num_hash
      → estimate (reset u) j ≡ Sketch.estimate u.freq j / 2
  unfolding estimate reset
  estimate-reset u j fv dv hv =
      ground (arith, Members.contains-reset u.door dv j hv, Counts.estimate-reset u.freq fv j)

  reset-incrs : (u : TinyLfu) → (reset u).incrs ≡ 0
  unfolding reset
  reset-incrs u = refl

  touch-reset-IsValid : IsValid (reset (touch t h))
  unfolding reset Bloom.reset
  touch-reset-IsValid = record {
    freq_valid = Counts.reset-IsValid (touch t h).freq touch-freq;
    door_valid = Members.reset-IsValid (touch t h).door touch-door.0;
    hashes = same_hashes (touch t h).door touch-door.1;
    young = omega (arith, touch-incrs, v.young);
    threshold = omega (arith, touch-incrs, v.threshold);
  }
    where
      same_hashes : (d : BloomFilter) → 0 < d.num_hash → 0 < (Bloom.reset d).num_hash
      same_hashes d p = p

  -- In a valid state, an access below the reset threshold raises the estimate of the hash by one, to 16 at most, and counts
  -- as one increment; the access that reaches the threshold halves every count of the sketch, empties the
  -- doorkeeper and starts the age anew.
  pub increment-estimate :
      (t.incrs + 1 < t.reset_at
        → (estimate (increment t h) h ≡ min 16 (estimate t h + 1))
          × ((increment t h).incrs ≡ t.incrs + 1))
      × (t.incrs + 1 ≡ t.reset_at
          → ((j : ℕ) → estimate (increment t h) j ≡ Sketch.estimate (touch t h).freq j / 2)
            × ((increment t h).incrs ≡ 0))
  unfolding increment
  increment-estimate = (
    λ below. (
      ground (arith, estimate-touch, touch-incrs, v.threshold),
      ground (arith, touch-incrs, v.threshold),
    ),
    λ due. (
      λ j. ground (
        arith,
        touch-incrs,
        v.threshold,
        estimate-reset (touch t h) j touch-freq touch-door.0 touch-door.1,
      ),
      ground (arith, touch-incrs, v.threshold, reset-incrs (touch t h)),
    ),
  )

  -- An access keeps a valid state valid, so the age never reaches the threshold between accesses.
  pub increment-IsValid : IsValid (increment t h)
  unfolding increment
  increment-IsValid = elim (Bool-cases (sle (touch t h).reset_at (touch t h).incrs)) [
    | inl due ↦ rw due touch-reset-IsValid
    | inr below ↦ rw below (record {
      freq_valid = touch-freq;
      door_valid = touch-door.0;
      hashes = touch-door.1;
      young = ground (arith, touch-incrs, v.young, v.threshold);
      threshold = omega (arith, touch-incrs, v.threshold);
    })
  ]
