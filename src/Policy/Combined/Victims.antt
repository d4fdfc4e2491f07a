-- ===== src/Policy/Combined/Victims.antt =====
-- internal/policy/policy.go: the eviction loop and Add.
use go_mcache.Base.{
  ℕ, zero, suc, ◌+◌, ◌<◌, ◌≡◌, refl, true, false, List, [], ◌∷◌, ◌++◌, map, none, some, arith, All,
  length, length-map, Bool-cases, inl, inr, ◌⊎◌, ◌∙◌, if_neg, ltb, ◌==◌, if◌then◌else◌, ◌≢◌,
}
use mathlib.Core.List.{append-nil, append_assoc}
use go_mcache.Base.Assoc.{find}
use go_mcache.Policy.TinyLfu
use go_mcache.Policy.TinyLfu.{TinyLfu}
use go_mcache.Policy.TinyLfu.Laws
use go_mcache.Policy.Sampled
use go_mcache.Policy.Sampled.{TrackedItem, SampledLfu, Victim, ◌>>=◌}
use go_mcache.Policy.Sampled.Inv.{IsValid}
use go_mcache.Policy.Sampled.Del.{Deleted, del-Deleted}
use go_mcache.Policy.Sampled.Sample.{victim_of, IsTracked, sample_small}
use go_mcache.Policy.Combined.{max_int64, lowest, no_victim, find_victims}

-- `k` is the key of one of the victims
abbrev pub Evicts : {K : Type 0} → List (Victim K) → K → Type 0
Evicts [] k = ⊥
Evicts (v ∷ vs) k = (v.key ≡ k) ⊎ Evicts vs k

-- What the eviction loop has done to `s` when it ends in `s'` with the victims `out`.
pub record Evicted {K : Type 0} (dec : Discrete K) (t : TinyLfu) (incoming : ℕ) (s : SampledLfu K)
    (out : List (Victim K)) (s' : SampledLfu K) : Type 0 where
  pub valid : IsValid dec s'
  pub gone : (k : K) → Evicts out k → (find dec k s'.costs ≡ none) × (find dec k s.costs ≢ none)
  pub kept : (k : K) → ¬ Evicts out k → find dec k s'.costs ≡ find dec k s.costs
  pub stopped :
      (Sampled.needs_eviction s' ≡ false)
      ⊎ ((length s'.keys ≡ 0)
          ⊎ ((v : Victim K) × IsTracked dec s' v × (TinyLfu.admit t incoming v.key_hash ≡ false)))

module _ {K : Type 0} (dec : Discrete K) (zero_key : K) where
  module _ (t : TinyLfu) (s : SampledLfu K) where
    lowest_kept :
        (vs : List (Victim K)) (least : ℕ) (w : Victim K)
        → All (IsTracked dec s) vs
        → IsTracked dec s w
        → IsTracked dec s (lowest t least w vs)
    unfolding lowest
    lowest_kept [] least w h d = d
    lowest_kept (v ∷ vs) least w h d =
        elim (Bool-cases (ltb (TinyLfu.estimate t v.key_hash) least)) [
          | inl less ↦ rw (less, lowest) (lowest_kept vs (TinyLfu.estimate t v.key_hash) v h.1 h.0)
          | inr more ↦ rw (more, lowest) (lowest_kept vs least w h.1 d)
        ]

    -- of a sample that is not empty a tracked key is chosen
    pub lowest_tracked :
        (vs : List (Victim K))
        → 0 < length vs
        → All (IsTracked dec s) vs
        → IsTracked dec s (lowest t max_int64 (no_victim dec zero_key) vs)
    unfolding lowest
    lowest_tracked [] pos h = absurd (omega arith)
    lowest_tracked (v ∷ vs) pos h =
        let less : ltb (TinyLfu.estimate t v.key_hash) max_int64 ≡ true =
          ground (arith, Laws.estimate-le t v.key_hash) in
        rw (less, lowest) (lowest_kept vs (TinyLfu.estimate t v.key_hash) v h.1 h.0)

  abbrev pub Outcome : (ℕ → List ℕ) → ℕ → ℕ → TinyLfu → ℕ → SampledLfu K → List (Victim K) → Type 0
  Outcome draws fuel round t incoming s victims =
      (out : List (Victim K)) × (s' : SampledLfu K) × (find_victims dec zero_key draws fuel round t
          incoming s victims
        ≡ some (victims ++ out, s'))
      × Evicted dec t incoming s out s'

  module _ (draws : ℕ → List ℕ) (t : TinyLfu) (incoming : ℕ) where
    -- the loop ends here, with no further victim
    pub stop_here :
        (s : SampledLfu K)
        → IsValid dec s
        → (Sampled.needs_eviction s ≡ false)
          ⊎ ((length s.keys ≡ 0)
              ⊎ ((v : Victim K) × IsTracked dec s v
                  × (TinyLfu.admit t incoming v.key_hash ≡ false)))
        → Evicted dec t incoming s [] s
    stop_here s v why = record {
      valid = v;
      gone = λ k e. absurd e;
      kept = λ k n. refl;
      stopped = why;
    }

    first_victim :
        (s s₁ s' : SampledLfu K) (w : Victim K) (out : List (Victim K)) (k : K)
        → IsTracked dec s w
        → Deleted dec w.key s s₁
        → Evicted dec t incoming s₁ out s'
        → (w.key ≡ k) ⊎ Evicts out k
        → (find dec k s'.costs ≡ none) × (find dec k s.costs ≢ none)
    first_victim s s₁ s' w out k (item, found, _) d e (inl same) =
        let absent : find dec k s₁.costs ≡ none = ground (arith, d.items k) in
        (e.kept k (λ m. (e.gone k m).1 absent) ∙ absent, λ n. ground arith)
    first_victim s s₁ s' w out k tracked d e (inr later) =
        let (absent, present) = e.gone k later in (absent, λ n. present (ground (arith, d.items k)))

    -- one victim, then the rest of the loop
    pub evict_then :
        (s s₁ s' : SampledLfu K) (w : Victim K) (out : List (Victim K))
        → IsTracked dec s w
        → Deleted dec w.key s s₁
        → Evicted dec t incoming s₁ out s'
        → Evicted dec t incoming s (w ∷ out) s'
    evict_then s s₁ s' w out tracked d e = record {
      valid = e.valid;
      gone = λ k m. first_victim s s₁ s' w out k tracked d e m;
      kept = λ k n.
          let other : find dec k s₁.costs ≡ find dec k s.costs =
            d.items k ∙ (rw (if_neg _ (λ (same : w.key ≡ k). n (inl same))) refl) in
          e.kept k (λ m. n (inr m)) ∙ other;
      stopped = e.stopped;
    }

    module _ (s : SampledLfu K) (v : IsValid dec s) (small : length s.keys < 100) where
      abbrev drawn : List (Victim K)
      drawn = map (victim_of dec s) s.keys

      abbrev chosen : Victim K
      chosen = lowest t max_int64 (no_victim dec zero_key) drawn

      -- one round of the loop, with the sample known
      round_lem :
          (fuel round : ℕ) (victims : List (Victim K))
          → find_victims dec zero_key draws (suc fuel) round t incoming s victims ≡ (
              if Sampled.needs_eviction s
              then (if length s.keys == 0
                  then some (victims, s)
                  else (if TinyLfu.admit t incoming chosen.key_hash
                      then (Sampled.del dec s chosen.key >>= λ s'.
                          find_victims dec zero_key draws fuel
                            (round + 1)
                            t
                            incoming
                            s'
                            (victims ++ chosen ∷ []))
                      else some (victims, s)))
              else some (victims, s))
      unfolding find_victims
      round_lem fuel round victims =
          rw ((sample_small dec s v (draws round) small).0, length-map (victim_of dec s) s.keys)
            refl

      tracked : 0 < length s.keys → IsTracked dec s chosen
      tracked pos =
          lowest_tracked t s drawn (omega (arith, length-map (victim_of dec s) s.keys))
            (sample_small dec s v (draws 0) small).1

    pub find_victims_ends :
        (fuel round : ℕ) (s : SampledLfu K) (victims : List (Victim K))
        → length s.keys < fuel
        → length s.keys < 100
        → IsValid dec s
        → Outcome draws fuel round t incoming s victims
    find_victims_ends zero round s victims f small v = absurd (omega arith)
    find_victims_ends (suc fuel) round s victims f small v =
        let step = round_lem s v small fuel round victims in
        elim (Bool-cases (Sampled.needs_eviction s)) [
          | inr fits ↦ ([], s, rw (step, fits, append-nil) refl, stop_here s v (inl fits))
          | inl over ↦ elim (Bool-cases (length s.keys == 0)) [
            | inl bare ↦ (
              [],
              s,
              rw (step, over, bare, append-nil) refl,
              stop_here s v (inr (inl (ground arith))),
            )
            | inr some_keys ↦
                let known = tracked s v small (ground arith) in
                elim (Bool-cases (TinyLfu.admit t incoming (chosen s v small).key_hash)) [
                  | inr refused ↦ (
                    [],
                    s,
                    rw (step, over, some_keys, refused, append-nil) refl,
                    stop_here s v (inr (inr (chosen s v small, known, refused))),
                  )
                  | inl admitted ↦
                      let (s₁, deleted, d) = del-Deleted dec s (chosen s v small).key v in
                      let fewer = d.shorter known.0 known.1 in
                      let (out, s', ends, e) =
                        find_victims_ends fuel (round + 1) s₁ (victims ++ chosen s v small ∷ [])
                          (omega arith) (omega arith) d.valid in
                      (
                        chosen s v small ∷ out,
                        s',
                        rw (step, over, some_keys, admitted, deleted)
                            (ends ∙ rw (append_assoc victims (chosen s v small ∷ []) out) refl),
                        evict_then s s₁ s' (chosen s v small) out known d e,
                      )
                ]
          ]
        ]

    pub find_victims_fits :
        (fuel round : ℕ) (s : SampledLfu K)
        → Sampled.needs_eviction s ≡ false
        → find_victims dec zero_key draws (suc fuel) round t incoming s [] ≡ some ([], s)
    unfolding find_victims
    find_victims_fits fuel round s fits = rw (fits, find_victims) refl
