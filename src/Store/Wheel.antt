-- ===== src/Store/Wheel.antt =====
-- internal/store/expiry_wheel.go: the timing wheel, one call at a time. Times and ticks are int64, as two's
-- complement patterns; the resolution is positive. `now` is an argument also where the clock is read.
pub mod Drain
mod Tests
use go_mcache.Base.{
  ℕ, zero, suc, ◌+◌, ◌-◌, ◌/◌, ◌%◌, ◌^◌, bit_and, Bool, List, [], ◌∷◌, ◌++◌, length, get_or, set,
  replicate, map, ltb, if◌then◌else◌,
}
use go_mcache.Base.Word.{add64, sub64, sle, slt}

pub record ExpiryWheelEntry (K : Type 0) : Type 0 where
  pub key : K
  pub key_hash : ℕ
  pub expire_at : ℕ

pub record ExpiryWheel (K : Type 0) : Type 0 where
  pub resolution : ℕ
  pub mask : ℕ
  pub current_tick : ℕ
  pub buckets : List (List (ExpiryWheelEntry K))

-- int64 division, which drops the fraction, by a positive number
unfoldable pub quotient : ℕ → ℕ → ℕ
quotient a n = if ltb a (2 ^ 63) then a / n else sub64 0 ((2 ^ 64 - a) / n)

module _ {K : Type 0} where
  -- a resolution of 0 stands for every resolution that is not positive
  unfoldable pub new_expiry_wheel : ℕ → ℕ → ExpiryWheel K
  new_expiry_wheel resolution now =
      let r = if ltb 0 resolution then resolution else 100000000 in
      record {
        resolution = r;
        mask = 4096 - 1;
        current_tick = quotient now r;
        buckets = replicate 4096 [];
      }

  -- the bucket of the first tick at or after a time
  abbrev pub bucket_of : ExpiryWheel K → ℕ → ℕ
  bucket_of w expire_at =
      bit_and (quotient (sub64 (add64 expire_at w.resolution) 1) w.resolution) w.mask

  abbrev pub enqueue :
      List (List (ExpiryWheelEntry K)) → ℕ → ExpiryWheelEntry K → List (List (ExpiryWheelEntry K))
  enqueue buckets idx item = set buckets idx (get_or buckets idx [] ++ item ∷ [])

  unfoldable pub schedule : ExpiryWheel K → K → ℕ → ℕ → ExpiryWheel K
  schedule w key key_hash expire_at = if sle expire_at 0 then w else record w {
    buckets =
        enqueue w.buckets (bucket_of w expire_at)
          (record { key = key; key_hash = key_hash; expire_at = expire_at });
  }

  -- the items of a bucket: those that are due go to the result, the others to the bucket of their tick
  unfoldable pub sort_items :
      ExpiryWheel K
      → ℕ
      → List (ExpiryWheelEntry K)
      → List (List (ExpiryWheelEntry K))
      → List (ExpiryWheelEntry K)
      → List (List (ExpiryWheelEntry K)) × List (ExpiryWheelEntry K)
  sort_items w now [] buckets expired = (buckets, expired)
  sort_items w now (item ∷ items) buckets expired =
      if sle item.expire_at now
      then sort_items w now items buckets (expired ++ item ∷ [])
      else sort_items w now items (enqueue buckets (bucket_of w item.expire_at) item) expired

  -- one round for each tick that is left
  unfoldable pub advance_loop :
      ExpiryWheel K
      → ℕ
      → ℕ
      → ℕ
      → List (List (ExpiryWheelEntry K))
      → List (ExpiryWheelEntry K)
      → List (List (ExpiryWheelEntry K)) × List (ExpiryWheelEntry K)
  advance_loop w now zero tick buckets expired = (buckets, expired)
  advance_loop w now (suc left) tick buckets expired =
      let next = add64 tick 1 in
      let idx = bit_and next w.mask in
      let (sorted, out) = sort_items w now (get_or buckets idx []) (set buckets idx []) expired in
      advance_loop w now left next sorted out

  unfoldable pub advance : ExpiryWheel K → ℕ → List (ExpiryWheelEntry K) × ExpiryWheel K
  advance w now =
      let now_tick = quotient now w.resolution in
      let (buckets, expired) =
        advance_loop w now (sub64 now_tick w.current_tick) w.current_tick w.buckets [] in
      if sle now_tick w.current_tick
      then ([], w)
      else (expired, record w { current_tick = now_tick; buckets = buckets })

  unfoldable pub clear : ExpiryWheel K → ℕ → ExpiryWheel K
  clear w now = record w {
    buckets = map (λ b. []) w.buckets;
    current_tick = quotient now w.resolution;
  }
