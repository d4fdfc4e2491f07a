-- ===== src/Policy/Combined/Chosen.antt =====
-- internal/policy/policy.go: the eviction loop and Add with any number of keys, whenever they end.
use std.Path.{subst}
use go_mcache.Base.{
  Bool, ℕ, zero, suc, ◌+◌, ◌<◌, ◌≤◌, ◌%◌, length-map, ◌≡◌, refl, sym, true, List, [], ◌∷◌, ◌++◌,
  Option, none, some, arith, All, All-append, length, get_elem?, Bool-cases, Option-cases, inl, inr,
  ◌∙◌, ltb, leb, ◌==◌, if◌then◌else◌,
}
use mathlib.Core.List.{append-nil, append_assoc}
use go_mcache.Base.Assoc.{find}
use go_mcache.Policy.TinyLfu
use go_mcache.Policy.TinyLfu.{TinyLfu}
use go_mcache.Policy.Sampled
use go_mcache.Policy.Sampled.{TrackedItem, SampledLfu, Victim, ◌>>=◌, adaptive_sample_size}
use go_mcache.Policy.Sampled.Inv.{IsValid}
use go_mcache.Policy.Sampled.Del.{Deleted, del-Deleted}
use go_mcache.Policy.Sampled.Sample.{
  was_seen, victim_of, draw_loop, sample, IsTracked, victim_of-IsTracked, each_tracked,
}
use go_mcache.Policy.Combined.{Policy, max_int64, lowest, no_victim, find_victims, add}
use go_mcache.Policy.Combined.Add.{Added, add_tracked, add_new, updated-Added, inserted-Added}
use go_mcache.Policy.Combined.Victims.{Evicted, lowest_tracked, stop_here, evict_then}

-- a statement about the answer, when there is one
abbrev pub When : {A : Type 0} → (A → Type 0) → Option A → Type 0
When P none = Unit
When P (some a) = P a

pub When-bind :
    {A B : Type 0} (P : B → Type 0) (o : Option A) (f : A → Option B)
    → ((a : A) → o ≡ some a → When P (f a))
    → When P (o >>= f)
When-bind P none f h = tt
When-bind P (some a) f h = h a refl

pub When-map :
    {A : Type 0} (P Q : A → Type 0) (o : Option A) → ((a : A) → P a → Q a) → When P o → When Q o
When-map P Q none f h = tt
When-map P Q (some a) f h = f a h

pub When_of : {A : Type 0} (P : A → Type 0) (o : Option A) (a : A) → When P o → o ≡ some a → P a
When_of P o a h e = subst (When P) e h

module _ {K : Type 0} (dec : Discrete K) (s : SampledLfu K) (v : IsValid dec s) where
  -- tracked keys, and at least as many as asked for
  abbrev Sampling : ℕ → List (Victim K) × List ℕ → Type 0
  Sampling n out = All (IsTracked dec s) out.0 × (n ≤ length out.0)

  draw_loop-Sampling :
      (n : ℕ) (draws seen : List ℕ) (drawn : List (Victim K))
      → All (IsTracked dec s) drawn
      → When (Sampling n) (draw_loop dec s n draws seen drawn)
  unfolding draw_loop
  draw_loop-Sampling n [] seen drawn all = elim (Bool-cases (leb n (length drawn))) [
    | inl e ↦ rw e (all, ground (arith, e))
    | inr e ↦ rw e tt
  ]
  draw_loop-Sampling n (d ∷ draws) seen drawn all = elim (Bool-cases (leb n (length drawn))) [
    | inl e ↦ rw e (all, ground (arith, e))
    | inr e ↦ elim (Bool-cases (was_seen (d % length s.keys) seen)) [
      | inl w ↦ rw (e, w) (draw_loop-Sampling n draws seen drawn all)
      | inr w ↦
          rw (e, w)
            (When-bind (Sampling n) (get_elem? s.keys (d % length s.keys))
              (λ k.
                draw_loop dec s n draws (d % length s.keys ∷ seen)
                  (drawn ++ victim_of dec s k ∷ []))
              (λ k at.
                draw_loop-Sampling n draws (d % length s.keys ∷ seen)
                  (drawn ++ victim_of dec s k ∷ [])
                  (All-append (IsTracked dec s) drawn (victim_of dec s k ∷ []) all
                    (victim_of-IsTracked dec s v (d % length s.keys) k at, tt))))
    ]
  ]

  -- of tracked keys a sample is drawn, and only of no keys an empty one
  abbrev Drawn : List (Victim K) × List ℕ → Type 0
  Drawn out = All (IsTracked dec s) out.0 × ((length out.0 == 0) ≡ true → length s.keys ≡ 0)

  enough :
      (n : ℕ) (o : Option (List (Victim K) × List ℕ)) → 0 < n → When (Sampling n) o → When Drawn o
  enough n none pos h = tt
  enough n (some out) pos h = (h.0, λ e. absurd (ground (arith, h.1, pos, e)))

  sample_size : ℕ
  sample_size =
      if ltb (length s.keys) (adaptive_sample_size s) then length s.keys else adaptive_sample_size s

  sample_size_pos : (sample_size == 0) ≡ true → length s.keys ≡ 0
  unfolding adaptive_sample_size sample_size
  sample_size_pos e = grind (arith, e)

  sample-Drawn : (draws : List ℕ) → When Drawn (sample dec s draws)
  unfolding sample sample_size
  sample-Drawn draws = elim (Bool-cases (sample_size == 0)) [
    | inl e ↦ rw e (tt, λ empty. sample_size_pos e)
    | inr e ↦ elim (Bool-cases (leb (length s.keys) sample_size)) [
      | inl w ↦
          rw (e, w)
            (
              each_tracked dec s v s.keys (victim_of-IsTracked dec s v),
              λ none'. ground (arith, none', length-map (victim_of dec s) s.keys),
            )
      | inr w ↦
          rw (e, w)
            (enough sample_size (draw_loop dec s sample_size draws [] []) (ground (arith, e))
              (draw_loop-Sampling sample_size draws [] [] tt))
    ]
  ]

-- what Del leaves was tracked before
still :
    {K : Type 0} (dec : Discrete K) (key : K) (s s' : SampledLfu K) (vs : List (Victim K))
    → Deleted dec key s s'
    → All (IsTracked dec s') vs
    → All (IsTracked dec s) vs
still dec key s s' [] d h = tt
still dec key s s' (w ∷ vs) d h =
    let (item, found, same) = h.0 in
    ((item, ground (arith, d.items w.key, found), same), still dec key s s' vs d h.1)

module _ {K : Type 0} (dec : Discrete K) (zero_key : K) (draws : ℕ → List ℕ) (t : TinyLfu)
    (incoming : ℕ) where
  -- the loop's victims are tracked, under their own hashes
  abbrev pub Picked : SampledLfu K → List (Victim K) → List (Victim K) × SampledLfu K → Type 0
  Picked s victims r =
      (out : List (Victim K)) × (r.0 ≡ victims ++ out)
      × Evicted dec t incoming s out r.1
      × All (IsTracked dec s) out

  taken_out :
      (s s' : SampledLfu K) (key : K)
      → IsValid dec s
      → Sampled.del dec s key ≡ some s'
      → Deleted dec key s s'
  taken_out s s' key v e =
      let (s₁, deleted, d) = del-Deleted dec s key v in
      When_of (Deleted dec key s) (Sampled.del dec s key) s' (rw deleted d) e

  one_more :
      (s s' : SampledLfu K) (w : Victim K) (victims : List (Victim K))
      → IsTracked dec s w
      → Deleted dec w.key s s'
      → (o : Option (List (Victim K) × SampledLfu K)) → When (Picked s' (victims ++ w ∷ [])) o
      → When (Picked s victims) o
  one_more s s' w victims tracked d none h = tt
  one_more s s' w victims tracked d (some r) h =
      let (out, e, evicted, known) = h in
      (
        w ∷ out,
        e ∙ append_assoc victims (w ∷ []) out,
        evict_then dec zero_key draws t incoming s s' r.1 w out tracked d evicted,
        (tracked, still dec w.key s s' out d known),
      )

  pub find_victims-Picked :
      (fuel round : ℕ) (s : SampledLfu K) (victims : List (Victim K))
      → IsValid dec s
      → When (Picked s victims) (find_victims dec zero_key draws fuel round t incoming s victims)
  unfolding find_victims
  find_victims-Picked zero round s victims v = tt
  find_victims-Picked (suc fuel) round s victims v = elim (Bool-cases (Sampled.needs_eviction s)) [
    | inr fits ↦
        rw fits
          ([], sym (append-nil victims), stop_here dec zero_key draws t incoming s v (inl fits), tt)
    | inl over ↦ rw over (
        When-bind (Picked s victims) (sample dec s (draws round)) _ (λ drawn e.
          let known =
            When_of (Drawn dec s v) (sample dec s (draws round)) drawn
              (sample-Drawn dec s v (draws round)) e in
          elim (Bool-cases (length drawn.0 == 0)) [
            | inl bare ↦ rw bare (
              [],
              sym (append-nil victims),
              stop_here dec zero_key draws t incoming s v (inr (inl (known.1 bare))),
              tt,
            )
            | inr more ↦
                let w = lowest t max_int64 (no_victim dec zero_key) drawn.0 in
                let tracked : IsTracked dec s w =
                  lowest_tracked dec zero_key t s drawn.0 (ground (arith, more)) known.0 in
                rw more (elim (Bool-cases (TinyLfu.admit t incoming w.key_hash)) [
                  | inr refused ↦ rw refused (
                    [],
                    sym (append-nil victims),
                    stop_here dec zero_key draws t incoming s v (inr (inr (w, tracked, refused))),
                    tt,
                  )
                  | inl admitted ↦ rw admitted (
                      When-bind (Picked s victims) (Sampled.del dec s w.key) _ (λ s' deleted.
                        one_more s s' w victims tracked (taken_out s s' w.key v deleted)
                          (find_victims dec zero_key draws fuel (round + 1) t incoming s'
                            (victims ++ w ∷ []))
                          (find_victims-Picked fuel (round + 1) s' (victims ++ w ∷ [])
                            (taken_out s s' w.key v deleted).valid)))
                ])
          ]))
  ]

module _ {K : Type 0} (dec : Discrete K) (zero_key : K) (draws : ℕ → List ℕ) (p : Policy K) where
  module _ (key : K) (h c : ℕ) where
    -- what Add has done when it answers
    abbrev pub Adds : List (Victim K) × Bool × Policy K → Type 0
    Adds r =
        (r.1 ≡ true)
        × Added dec p key (record { key_hash = h; cost = c }) r.0 r.2
        × All (IsTracked dec p.evict) r.0

    pub add-Adds : IsValid dec p.evict → When Adds (add dec zero_key draws p key h c)
    add-Adds v = elim (Option-cases (find dec key p.evict.costs)) [
      | inr (u, e) ↦
          rw (add_tracked dec zero_key draws p key h c u e)
            (refl, updated-Added dec zero_key draws p key h c u e v, tt)
      | inl e ↦
          let t = TinyLfu.increment p.admit h in
          let fuel = suc (length p.evict.keys) in
          rw (add_new dec zero_key draws p key h c e) (
            When-bind Adds (find_victims dec zero_key draws fuel 0 t h p.evict []) _ (λ r ends.
              let (out, same, evicted, known) =
                When_of (Picked dec zero_key draws t h p.evict [])
                  (find_victims dec zero_key draws fuel 0 t h p.evict []) r
                  (find_victims-Picked dec zero_key draws t h fuel 0 p.evict [] v) ends in
              (
                refl,
                inserted-Added dec zero_key draws p key h c r.0 r.1 e
                    (subst (λ o. Evicted dec t h p.evict o r.1) (sym same) evicted) ends,
                subst (λ o. All (IsTracked dec p.evict) o) (sym same) known,
              )))
    ]
