-- ===== src/Store/Wheel/Tests.antt =====
-- The theorems on the timing wheel at a small wheel: two buckets, one tick for each ten time units.
use go_mcache.Base.{ℕ, ◌≡◌, refl, ◌⊎◌, true, [], ◌∷◌, arith, All, Member, length}
use go_mcache.Base.Word.{sle}
use go_mcache.Store.Wheel.{
  ExpiryWheelEntry, ExpiryWheel, quotient, sort_items, advance_loop, advance,
}
use go_mcache.Store.Wheel.Drain.{Held, advance_lem}

abbrev soon : ExpiryWheelEntry ℕ
soon = record { key = 1; key_hash = 11; expire_at = 10 }

abbrev later : ExpiryWheelEntry ℕ
later = record { key = 2; key_hash = 22; expire_at = 30 }

abbrev small_wheel : ExpiryWheel ℕ
small_wheel = record {
  resolution = 10;
  mask = 1;
  current_tick = 0;
  buckets = [] ∷ (soon ∷ later ∷ []) ∷ [];
}

-- at time 12 the first item is due and the second goes back to its bucket
advanced :
    advance small_wheel 12
    ≡ (soon ∷ [], record small_wheel { current_tick = 1; buckets = [] ∷ (later ∷ []) ∷ [] })
unfolding advance advance_loop sort_items quotient
advanced = refl

advance_lem_example :
    All (λ x. sle x.expire_at 12 ≡ true) (advance small_wheel 12).0
    × ((x : ExpiryWheelEntry ℕ)
        → Held x small_wheel.buckets
        → Held x (advance small_wheel 12).1.buckets ⊎ Member x (advance small_wheel 12).0)
    × (length (advance small_wheel 12).1.buckets ≡ 2)
advance_lem_example = advance_lem small_wheel 12 (omega arith)
