-- ===== src/Policy/Cuckoo/Kicks.antt =====
-- internal/policy/cuckoo.go: what an insertion into one bucket, and the relocation loop, add to the filter and lose.
use go_mcache.Base.{
  ℕ, zero, suc, ◌+◌, ◌%◌, ◌^◌, ◌<◌, ◌≡◌, refl, ◌∙◌, bit_and, List, [], Bool, true, some, arith,
  get_or, set, length-set, ◌==◌, if◌then◌else◌, Option-cases, inl, inr,
}
use go_mcache.Base.Bits.{bit_and_mask}
use go_mcache.Policy.Cuckoo.{index_alt, occupied, insert_to_bucket, delete_from_bucket, relocate}
use go_mcache.Policy.Cuckoo.Slots.{
  one_if, IsFull, copies-insert_to_bucket, copies-swapped, IsFull-insert_to_bucket,
  copies-delete_from_bucket,
}
use go_mcache.Policy.Cuckoo.Alternate.{index_alt-lt}
use go_mcache.Policy.Cuckoo.Held.{
  IsSized, IsSized-set, held, held-set, touches, weight, weight-index_alt,
}

either_zero : (b : Bool) → if◌then◌else◌ {A = ℕ} b 0 0 ≡ 0
either_zero b = ground arith

module _ (k : ℕ) where
  -- the fingerprint fp came to bucket j, and the fingerprint `lost_fp` of bucket `lost` is gone if nothing was placed
  pub record Kicked (buckets : List (List ℕ)) (j fp : ℕ) (r : Bool × List (List ℕ)) : Type 0 where
    pub lost : ℕ
    pub lost_fp : ℕ
    pub lost_in : lost < 2 ^ k
    pub sized : IsSized (2 ^ k) r.1
    pub counts :
        (i f : ℕ)
        → i < 2 ^ k
        → held (2 ^ k) r.1 i f + (if r.0 then 0 else weight (2 ^ k) lost lost_fp i f)
          ≡ held (2 ^ k) buckets i f + weight (2 ^ k) j fp i f

  module _ (buckets : List (List ℕ)) (j fp : ℕ) (sized : IsSized (2 ^ k) buckets)
      (below : j < 2 ^ k) where
    pub insert-Kicked :
        (bucket : List ℕ)
        → fp < 2 ^ 16
        → insert_to_bucket (get_or buckets j []) fp ≡ some bucket
        → Kicked buckets j fp (true, set buckets j bucket)
    unfolding weight
    insert-Kicked bucket small e = record {
      lost = j;
      lost_fp = fp;
      lost_in = below;
      sized = IsSized-set (2 ^ k) buckets j bucket sized below (
          (copies-insert_to_bucket fp small (get_or buckets j []) bucket fp e).1
          ∙ sized.four j below);
      counts = λ i f hi. omega (
        arith,
        held-set (2 ^ k) buckets j i f 0 (one_if (fp == f)) bucket (omega (arith, sized.as_many))
            (omega (arith, (copies-insert_to_bucket fp small (get_or buckets j []) bucket f e).0)),
        either_zero (touches (2 ^ k) j i f),
      );
    }

    pub held-delete :
        (bucket : List ℕ) (i f : ℕ)
        → delete_from_bucket (get_or buckets j []) fp ≡ some bucket
        → held (2 ^ k) (set buckets j bucket) i f + weight (2 ^ k) j fp i f
          ≡ held (2 ^ k) buckets i f
    unfolding weight
    held-delete bucket i f e = omega (
      arith,
      held-set (2 ^ k) buckets j i f (one_if (fp == f)) 0 bucket (omega (arith, sized.as_many))
          (omega (arith, (copies-delete_from_bucket (get_or buckets j []) bucket fp f e).0)),
      either_zero (touches (2 ^ k) j i f),
    )

    pub IsSized-delete :
        (bucket : List ℕ)
        → delete_from_bucket (get_or buckets j []) fp ≡ some bucket
        → IsSized (2 ^ k) (set buckets j bucket)
    IsSized-delete bucket e =
        IsSized-set (2 ^ k) buckets j bucket sized below
          ((copies-delete_from_bucket (get_or buckets j []) bucket fp fp e).1 ∙ sized.four j below)

    module _ (small : fp < 2 ^ 16) (full : IsFull (get_or buckets j [])) (slot : ℕ)
        (in_bucket : slot < 4) where
      abbrev old_fp : ℕ
      old_fp = bit_and (get_or (get_or buckets j []) slot 0) 0xFFFF

      abbrev swapped : List (List ℕ)
      swapped = set buckets j (set (get_or buckets j []) slot (occupied fp))

      IsSized-swapped : IsSized (2 ^ k) swapped
      IsSized-swapped =
          IsSized-set (2 ^ k) buckets j (set (get_or buckets j []) slot (occupied fp)) sized below
            (length-set (get_or buckets j []) slot (occupied fp) ∙ sized.four j below)

      held-swapped :
          (i f : ℕ)
          → held (2 ^ k) swapped i f + weight (2 ^ k) j old_fp i f
            ≡ held (2 ^ k) buckets i f + weight (2 ^ k) j fp i f
      unfolding weight
      held-swapped i f =
          held-set (2 ^ k) buckets j i f (one_if (old_fp == f)) (one_if (fp == f))
            (set (get_or buckets j []) slot (occupied fp)) (omega (arith, sized.as_many))
            (copies-swapped fp small (get_or buckets j []) slot f
              (omega (arith, sized.four j below)) full)

      -- what becomes of the fingerprint that was swapped out, at its other bucket
      then-Kicked :
          (r : Bool × List (List ℕ))
          → Kicked swapped (index_alt (2 ^ k) j old_fp) old_fp r
          → Kicked buckets j fp r
      then-Kicked r kicked = record {
        lost = kicked.lost;
        lost_fp = kicked.lost_fp;
        lost_in = kicked.lost_in;
        sized = kicked.sized;
        counts = λ i f hi. omega (
          arith,
          kicked.counts i f hi,
          weight-index_alt k j old_fp i f below hi,
          held-swapped i f,
        );
      }

  old_fp-lt : (val : ℕ) → bit_and val 0xFFFF < 2 ^ 16
  old_fp-lt val = rw (bit_and_mask 16 val) (omega arith)

  pub relocate-Kicked :
      (rounds kick j fp : ℕ) (buckets : List (List ℕ))
      → IsSized (2 ^ k) buckets
      → j < 2 ^ k
      → fp < 2 ^ 16
      → IsFull (get_or buckets j [])
      → Kicked buckets j fp (relocate (2 ^ k) rounds kick j fp buckets)
  unfolding relocate
  relocate-Kicked zero kick j fp buckets sized below small full = record {
    lost = j;
    lost_fp = fp;
    lost_in = below;
    sized = sized;
    counts = λ i f hi. refl;
  }
  relocate-Kicked (suc rounds) kick j fp buckets sized below small full =
      let bucket = get_or buckets j [] in
      let slot = kick % 4 in
      let old = bit_and (get_or bucket slot 0) 0xFFFF in
      let swapped = set buckets j (set bucket slot (occupied fp)) in
      let j' = index_alt (2 ^ k) j old in
      let below' : j' < 2 ^ k = index_alt-lt k j old in
      let in_bucket : slot < 4 = omega arith in
      let sized' : IsSized (2 ^ k) swapped =
        IsSized-swapped buckets j fp sized below small full slot in_bucket in
      let on = then-Kicked buckets j fp sized below small full slot in_bucket in
      elim (Option-cases (insert_to_bucket (get_or swapped j' []) old)) [
        | inr (bucket', e) ↦
            rw (e, relocate)
              (on _ (insert-Kicked swapped j' old sized' below' bucket' (old_fp-lt _) e))
        | inl e ↦
            rw (e, relocate)
              (on _ (
                relocate-Kicked rounds (kick + 1) j' old swapped sized' below' (old_fp-lt _)
                  (IsFull-insert_to_bucket (get_or swapped j' []) old e)))
      ]
