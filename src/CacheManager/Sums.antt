-- ===== src/CacheManager/Sums.antt =====
-- ndk/cache_manager.cpp: the sizes of all objects, and the pending ones.
use cute_ndk.Base.{ℕ, zero, suc, ◌+◌, ◌<◌, ◌≡◌, ◌≢◌, refl, ap, List, [], ◌∷◌, arith}
use native.Mathlib.Decide.{ℕ_discrete}

-- The sum of a number for every address below a bound.
unfoldable pub sizes : (ℕ → ℕ) → ℕ → ℕ
sizes f zero = 0
sizes f (suc n) = sizes f n + f n

-- What holds of every object of a list.
abbrev pub Each : (ℕ → Type 0) → List (ℕ × ℕ) → Type 0
Each P [] = Unit {0}
Each P (e ∷ l) = P e.1 × Each P l

abbrev pub Distinct : List (ℕ × ℕ) → Type 0
Distinct [] = Unit {0}
Distinct (e ∷ l) = Each (λ x. x ≢ e.1) l × Distinct l

pub Each-map : {P R : ℕ → Type 0} (l : List (ℕ × ℕ)) → ((x : ℕ) → P x → R x) → Each P l → Each R l
Each-map [] f h = tt
Each-map (e ∷ l) f (h, t) = (f e.1 h, Each-map l f t)

pub Each-both :
    {P R S : ℕ → Type 0} (l : List (ℕ × ℕ))
    → ((x : ℕ) → P x → R x → S x)
    → Each P l
    → Each R l
    → Each S l
Each-both [] f h g = tt
Each-both (e ∷ l) f (h, t) (g, u) = (f e.1 h g, Each-both l f t u)

pub sizes-cong : (f g : ℕ → ℕ) (n : ℕ) → ((k : ℕ) → k < n → f k ≡ g k) → sizes f n ≡ sizes g n
unfolding sizes
sizes-cong f g zero h = refl
sizes-cong f g (suc n) h =
    let rest = sizes-cong f g n λ k l. h k (omega (arith, l)) in
    omega (arith, rest, h n (omega arith))

-- An address more.
pub sizes-next : (f : ℕ → ℕ) (n : ℕ) → sizes f (n + 1) ≡ sizes f n + f n
unfolding sizes
sizes-next f n = let next : n + 1 ≡ suc n = omega arith in ap (sizes f) next

-- Another number for one address.
pub sizes-change :
    (f g : ℕ → ℕ) (n a : ℕ)
    → a < n
    → ((k : ℕ) → a ≢ k → g k ≡ f k)
    → sizes g n + f a ≡ sizes f n + g a
unfolding sizes
sizes-change f g zero a h same = absurd (omega (arith, h))
sizes-change f g (suc n) a h same = elim (ℕ_discrete a n) [
  | yes e ↦
      let rest = sizes-cong g f n λ k l. same k (λ x. omega (arith, x, e, l)) in
      omega (arith, rest, ap f e, ap g e)
  | no e ↦
      let rest = sizes-change f g n a (omega (arith, h, e)) same in omega (arith, rest, same n e)
]
