-- ===== src/Policy/Sampled/Sample.antt =====
-- Sample of internal/policy/sampledlfu.go. `math/rand` is an argument: a list of raw draws, of which
-- `Intn(n)` takes the remainder by n. `none` stands for a panic, or for draws that run out before the
-- loop ends.
use go_mcache.Base.{
  ℕ, suc, ◌%◌, ◌<◌, ◌≡◌, refl, Bool, true, false, List, [], ◌∷◌, ◌++◌, map, Option, none, some,
  arith, All, length, get_elem?, Option-cases, inl, inr, ltb, leb, ◌==◌, if◌then◌else◌,
}
use go_mcache.Base.Assoc.{find}
use go_mcache.Policy.Sampled.{TrackedItem, SampledLfu, Victim, ◌>>=◌, adaptive_sample_size}
use go_mcache.Policy.Sampled.Inv.{IsValid}

-- `seen[idx]`
unfoldable pub was_seen : ℕ → List ℕ → Bool
was_seen idx [] = false
was_seen idx (i ∷ seen) = if i == idx then true else was_seen idx seen

module _ {K : Type 0} (dec : Discrete K) (s : SampledLfu K) where
  -- `item := s.costs[key]`, whose hash is 0 for an absent key
  unfoldable pub victim_of : K → Victim K
  victim_of key = record {
    key = key;
    key_hash = elim (find dec key s.costs) [ some item ↦ item.key_hash | none ↦ 0 ];
  }

  unfoldable pub draw_loop :
      ℕ → List ℕ → List ℕ → List (Victim K) → Option (List (Victim K) × List ℕ)
  draw_loop n [] seen sample = if leb n (length sample) then some (sample, []) else none
  draw_loop n (d ∷ draws) seen sample =
      let idx = d % length s.keys in
      let skip = draw_loop n draws seen sample in
      let pick = get_elem? s.keys idx >>= λ key.
      draw_loop n draws (idx ∷ seen) (sample ++ victim_of key ∷ []) in
      if leb n (length sample)
      then some (sample, d ∷ draws)
      else if was_seen idx seen
      then skip
      else pick

  unfoldable pub sample : List ℕ → Option (List (Victim K) × List ℕ)
  sample draws =
      let m = length s.keys in
      let n = if ltb m (adaptive_sample_size s) then m else adaptive_sample_size s in
      if n == 0
      then some ([], draws)
      else if leb m n
      then some (map victim_of s.keys, draws)
      else draw_loop n draws [] []

  -- the victim carries the hash of a key that is tracked
  abbrev pub IsTracked : Victim K → Type 0
  IsTracked v = (t : TrackedItem) × (find dec v.key s.costs ≡ some t) × (v.key_hash ≡ t.key_hash)

  module _ (valid : IsValid dec s) where
    pub victim_of-IsTracked :
        (i : ℕ) (k : K) → get_elem? s.keys i ≡ some k → IsTracked (victim_of k)
    unfolding victim_of
    victim_of-IsTracked i k e = elim (Option-cases (find dec k s.costs)) [
      | inl n ↦ absurd (ground (arith, valid.untracked k n, valid.indexed i k e))
      | inr (t, h) ↦ (t, h, rw (h, victim_of) refl)
    ]

    pub each_tracked :
        (ks : List K)
        → ((i : ℕ) (k : K) → get_elem? ks i ≡ some k → IsTracked (victim_of k))
        → All IsTracked (map victim_of ks)
    each_tracked [] h = tt
    each_tracked (k ∷ ks) h = (h 0 k refl, each_tracked ks (λ i. h (suc i)))

    -- In a valid state with fewer than 100 keys Sample returns every tracked key, with its own hash and without a draw.
    pub sample_small :
        (draws : List ℕ)
        → length s.keys < 100
        → (sample draws ≡ some (map victim_of s.keys, draws)) × All IsTracked (map victim_of s.keys)
    unfolding sample adaptive_sample_size
    sample_small draws small = (grind arith, each_tracked s.keys victim_of-IsTracked)
