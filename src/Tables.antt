-- ===== src/Tables.antt =====
-- A Boolean test of every number under a bound, and what the answer `true` says of each.
use go_mcache.Base.{ℕ, zero, suc, ◌<◌, ◌≡◌, Bool, true, false, arith, ℕ_discrete, if◌then◌else◌}

unfoldable pub passes_under : (ℕ → Bool) → ℕ → Bool
passes_under test zero = true
passes_under test (suc bound) = if test bound then passes_under test bound else false

pub test_of_passes_under :
    (test : ℕ → Bool) (bound : ℕ)
    → passes_under test bound ≡ true
    → (i : ℕ) → i < bound
    → test i ≡ true
unfolding passes_under
test_of_passes_under test zero passes i below = absurd (omega arith)
test_of_passes_under test (suc bound) passes i below =
    let earlier : passes_under test bound ≡ true = ground arith in
    let last : test bound ≡ true = ground arith in
    elim (ℕ_discrete i bound) [
      | yes p ↦ rw p last
      | no p ↦ test_of_passes_under test bound earlier i (omega arith)
    ]
