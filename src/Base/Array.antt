-- ===== src/Base/Array.antt =====
-- A C array: a capacity and the cells. An access outside the capacity is a fault.
use Prim.Native.Nat.{ℕ, ◌<◌, ◌≤◌}
use mathlib.Core.Path.{◌≡◌}
use mathlib.Core.Logic.{◌≢◌}
use native.Mathlib.Omega.{arith}
use cute_ndk.Base.Tests.{ltb, lt→ltb, ◌==◌, if◌then◌else◌}
use cute_ndk.Base.Runs.{Run, ok, fault}

-- A function with one value replaced.
abbrev pub upd {ℓ} : {A : Type ℓ} → (ℕ → A) → ℕ → A → ℕ → A
upd f i x j = if i == j then x else f j

pub record Array {ℓ} (A : Type ℓ) : Type ℓ where
  pub cap : ℕ
  pub at : ℕ → A

-- `new A[n]` with every cell set to `a`.
abbrev pub make {ℓ} : {A : Type ℓ} → ℕ → A → Array A
make n a = record { cap = n; at = λ _. a }

unfoldable pub load {ℓ} : {A : Type ℓ} → Array A → ℕ → Run A
load a i = if ltb i a.cap then ok (a.at i) else fault

unfoldable pub store {ℓ} : {A : Type ℓ} → Array A → ℕ → A → Run (Array A)
store a i x = if ltb i a.cap then ok (record a { at = upd a.at i x }) else fault

pub load-ok {ℓ} : {A : Type ℓ} (a : Array A) (i : ℕ) → i < a.cap → load a i ≡ ok (a.at i)
unfolding load
load-ok a i h = rw (lt→ltb i a.cap h)

pub store-ok {ℓ} :
    {A : Type ℓ} (a : Array A) (i : ℕ) (x : A)
    → i < a.cap
    → store a i x ≡ ok (record a { at = upd a.at i x })
unfolding store
store-ok a i x h = rw (lt→ltb i a.cap h)

pub store-fault {ℓ} : {A : Type ℓ} (a : Array A) (i : ℕ) (x : A) → a.cap ≤ i → store a i x ≡ fault
unfolding store
store-fault a i x h = ground arith

pub upd_self {ℓ} : {A : Type ℓ} (f : ℕ → A) (i : ℕ) (x : A) → upd f i x i ≡ x
upd_self f i x = ground arith

pub upd_ne {ℓ} : {A : Type ℓ} (f : ℕ → A) (i j : ℕ) (x : A) → i ≢ j → upd f i x j ≡ f j
upd_ne f i j x h = ground arith
