-- ===== src/Base/Runs.antt =====
-- How a call ends. A fault is undefined behaviour of the source, such as an access outside an array,
-- a null pointer that is read through, or an assertion that fails.
use mathlib.Core.Path.{◌≡◌, refl, subst}
use mathlib.Core.Bool.{Bool, true, false}
use cute_ndk.Base.Tests.{if◌then◌else◌}

-- A run that is stopped by the fuel of the model is told apart.
pub data Run {ℓ} (T : Type ℓ) : Type ℓ where
  ok : T → Run T
  fault : Run T
  out_of_fuel : Run T

infixl 5 ◌>>=◌ ◌>>◌
abbrev pub ◌>>=◌ {ℓ κ} : {T : Type ℓ} {U : Type κ} → Run T → (T → Run U) → Run U
fault >>= next = fault
out_of_fuel >>= next = out_of_fuel
ok t >>= next = next t

abbrev pub ◌>>◌ {ℓ κ} : {T : Type ℓ} {U : Type κ} → Run T → Run U → Run U
first >> second = first >>= λ _. second

-- `assert(b)`, and the checks that the hardware makes on an address.
abbrev pub require : Bool → Run (Unit {0})
require true = ok tt
require false = fault

-- Total correctness: a value comes back, and it is as `Q` says.
pub data Returns {ℓ κ} {T : Type ℓ} (Q : T → Type κ) : Run T → Type (ℓ ⊔ κ) where
  returns : {value : T} → Q value → Returns Q (ok value)

pub Returns-inv {ℓ κ} :
    {T : Type ℓ} {Q : T → Type κ} {run : Run T}
    → Returns Q run
    → (value : T) × (run ≡ ok value) × Q value
Returns-inv (returns {value = t} q) = (t, refl, q)

pub Returns-if {ℓ κ} :
    {T : Type ℓ} {Q : T → Type κ} {then_run else_run : Run T} (test : Bool)
    → (test ≡ true → Returns Q then_run)
    → (test ≡ false → Returns Q else_run)
    → Returns Q (if test then then_run else else_run)
Returns-if false on off = off refl
Returns-if true on off = on refl

-- The value is handed to the rest of the run.
pub Returns-bind {ℓ κ μ ν} :
    {T : Type ℓ} {P : T → Type κ} {U : Type μ} {Q : U → Type ν} {run : Run T} {rest : T → Run U}
    → Returns P run
    → ((t : T) → P t → Returns Q (rest t))
    → Returns Q (run >>= rest)
Returns-bind (returns {value = t} p) then_returns = then_returns t p

pub Returns-map {ℓ κ μ} :
    {T : Type ℓ} {P : T → Type κ} {Q : T → Type μ} {run : Run T}
    → Returns P run
    → ((t : T) → P t → Q t)
    → Returns Q run
Returns-map (returns {value = t} p) weaker = returns (weaker t p)

-- What a run is known to return holds of the value that it returns.
pub Returns-ok {ℓ κ} :
    {T : Type ℓ} {Q : T → Type κ} {run : Run T} {value : T}
    → Returns Q run
    → run ≡ ok value
    → Q value
Returns-ok {Q = Q} r e = at_ok (subst (Returns Q) e r)
  where
    at_ok : {v : _} → Returns Q (ok v) → Q v
    at_ok (returns q) = q
