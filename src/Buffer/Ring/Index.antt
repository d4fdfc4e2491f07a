-- ===== src/Buffer/Ring/Index.antt =====
-- Positions modulo the capacity.
use native.Mathlib.Nat.{mod-lt, mod-add-mod, mod-eq_of_lt, mod-eq-sub-mod}
use go_mcache.Base.{ℕ, ◌+◌, ◌-◌, ◌%◌, ◌<◌, ◌≡◌, arith, ltb, if◌then◌else◌}

-- one round at most
wrapped : (r i c : ℕ) → r < c → i < c → (r + i) % c ≡ (if ltb (r + i) c then r + i else r + i - c)
wrapped r i c hr hi = grind (arith, mod-eq_of_lt, mod-eq-sub-mod)

-- Two positions less than a capacity apart have different slots.
pub slot-injective : (h i j c : ℕ) → i < c → j < c → (h + i) % c ≡ (h + j) % c → i ≡ j
slot-injective h i j c hi hj e = ground (
  arith,
  mod-lt h {m = c},
  mod-add-mod h c i,
  mod-add-mod h c j,
  wrapped (h % c) i c,
  wrapped (h % c) j c,
)

pub slot-period : (h c : ℕ) → 0 < c → (h + c) % c ≡ h % c
slot-period h c pos = grind arith
