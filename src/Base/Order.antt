-- ===== src/Base/Order.antt =====
-- What the containers ask of the comparison of their elements: a strict weak order.
use Prim.Native.Nat.{ℕ}
use mathlib.Core.Path.{◌≡◌}
use mathlib.Core.Bool.{Bool, true, false}
use native.Mathlib.Omega.{arith}
use cute_ndk.Base.Tests.{ltb}

-- `lt b a ≡ false` reads: `a` stands no later than `b`.
pub record IsOrder (lt : ℕ → ℕ → Bool) : Type 0 where
  pub asym : (a b : ℕ) → lt a b ≡ true → lt b a ≡ false
  pub trans : (a b c : ℕ) → lt b a ≡ false → lt c b ≡ false → lt c a ≡ false

-- Comparison by a number that each element carries.
pub by_key : (key : ℕ → ℕ) → IsOrder (λ a b. ltb (key a) (key b))
by_key key = record { asym = λ a b h. ground arith; trans = λ a b c h k. ground arith }

-- The same, the larger number first.
pub by_key_down : (key : ℕ → ℕ) → IsOrder (λ a b. ltb (key b) (key a))
by_key_down key = record { asym = λ a b h. ground arith; trans = λ a b c h k. ground arith }
