-- ===== src/Base/Pigeonhole.antt =====
-- More pigeons than holes.
use Prim.Native.Nat.{ℕ, zero, suc, ◌<◌}
use mathlib.Core.Logic.{◌≢◌}
use native.Mathlib.Omega.{arith}
use cute_ndk.Base.Tests.{◌==◌, if◌then◌else◌}

-- No function from `n + 1` numbers below `n` keeps them apart.
pub pigeonhole :
    (n : ℕ) (f : ℕ → ℕ)
    → ((c : ℕ) → c < suc n → f c < n)
    → ¬ ((c d : ℕ) → c < d → d < suc n → f c ≢ f d)
pigeonhole zero f small apart = absurd (omega (arith, small 0 (omega arith)))
pigeonhole (suc n) f small apart =
    pigeonhole n (λ c. if f c == n then f (suc n) else f c)
      (λ c h. ground (arith, small c, small (suc n), apart c (suc n)))
      (λ c d h k.
        ground
          (arith, small c, small d, small (suc n), apart c d, apart c (suc n), apart d (suc n)))
