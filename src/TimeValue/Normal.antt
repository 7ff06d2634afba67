-- ===== src/TimeValue/Normal.antt =====
-- ndk/time_value.cpp: normalize keeps the time, and how far it brings it into a canonical form.
use cute_ndk.Base.{ℕ, zero, suc, ◌+◌, ◌*◌, ◌/◌, ◌≤◌, ◌<◌, ◌≡◌, inl, inr, Bool-cases, arith}
use cute_ndk.Base.Int.{
  pos, negsuc, pos_part, neg_part, ◌+ℤ◌, ◌-ℤ◌, +ℤ_parts, -ℤ_parts, int_laws, eq_of_parts, +ℤ_def,
  -ℤ_def,
}
use cute_ndk.TimeValue.{TimeValue, million, leb_ℤ, carry, borrow, settle, normalize}

-- The time in microseconds, as what is to be added and what is to be taken off.
abbrev pub plus : TimeValue → ℕ
plus t = 1_000_000 * pos_part t.sec + pos_part t.usec

abbrev pub minus : TimeValue → ℕ
minus t = 1_000_000 * neg_part t.sec + neg_part t.usec

-- The same time.
abbrev pub SameTime : TimeValue → TimeValue → Type 0
SameTime a b = plus a + minus b ≡ plus b + minus a

carry-SameTime : (k : ℕ) (t : TimeValue) → SameTime (carry k t) t
unfolding carry
carry-SameTime zero t = omega arith
carry-SameTime (suc k) t = elim (Bool-cases (leb_ℤ (pos million) t.usec)) [
  | inl e ↦ rw e (
      let later : TimeValue = record { sec = t.sec +ℤ pos 1; usec = t.usec -ℤ pos million } in
      let rest = carry-SameTime k later in
      omega (int_laws, rest, +ℤ_parts t.sec (pos 1), -ℤ_parts t.usec (pos million)))
  | inr e ↦ rw e (omega arith)
]

borrow-SameTime : (k : ℕ) (t : TimeValue) → SameTime (borrow k t) t
unfolding borrow
borrow-SameTime zero t = omega arith
borrow-SameTime (suc k) t = elim (Bool-cases (leb_ℤ t.usec (negsuc 999_999))) [
  | inl e ↦ rw e (
      let later : TimeValue = record { sec = t.sec -ℤ pos 1; usec = t.usec +ℤ pos million } in
      let rest = borrow-SameTime k later in
      omega (int_laws, rest, -ℤ_parts t.sec (pos 1), +ℤ_parts t.usec (pos million)))
  | inr e ↦ rw e (omega arith)
]

settle-SameTime : (t : TimeValue) → SameTime (settle t) t
unfolding settle ◌+ℤ◌ ◌-ℤ◌
settle-SameTime t = ground arith

-- The normal form, and what normalize reaches for any time.
pub record InRange (t : TimeValue) : Type 0 where
  pub below : pos_part t.usec < 1_000_000
  pub above : neg_part t.usec < 1_000_000
  pub aligned : 0 < pos_part t.sec → neg_part t.usec ≡ 0

abbrev Loop : TimeValue → Type 0
Loop t = (pos_part t.usec < 1_000_000) × (neg_part t.usec < 1_000_000)

carry-Loop :
    (k : ℕ) (t : TimeValue)
    → pos_part t.usec < 1_000_000 * k
    → neg_part t.usec ≡ 0
    → Loop (carry k t)
unfolding carry
carry-Loop zero t h z = absurd (omega arith)
carry-Loop (suc k) t h z = elim (Bool-cases (leb_ℤ (pos million) t.usec)) [
  | inl e ↦ rw e (
      let later : TimeValue = record { sec = t.sec +ℤ pos 1; usec = t.usec -ℤ pos million } in
      carry-Loop k later (ground (arith, -ℤ_def t.usec (pos million)))
        (ground (arith, -ℤ_def t.usec (pos million))))
  | inr e ↦ rw e (ground (arith, e), ground (arith, e))
]

borrow-Loop :
    (k : ℕ) (t : TimeValue)
    → neg_part t.usec < 1_000_000 * k
    → pos_part t.usec < 1_000_000
    → Loop (borrow k t)
unfolding borrow
borrow-Loop zero t h z = absurd (omega arith)
borrow-Loop (suc k) t h z = elim (Bool-cases (leb_ℤ t.usec (negsuc 999_999))) [
  | inl e ↦ rw e (
      let later : TimeValue = record { sec = t.sec -ℤ pos 1; usec = t.usec +ℤ pos million } in
      borrow-Loop k later (ground (arith, +ℤ_def t.usec (pos million)))
        (ground (arith, +ℤ_def t.usec (pos million))))
  | inr e ↦ rw e (ground (arith, e), ground (arith, e))
]

settle-InRange : (t : TimeValue) → Loop t → InRange (settle t)
unfolding settle ◌+ℤ◌ ◌-ℤ◌
settle-InRange t (a, b) = record {
  below = ground arith;
  above = ground arith;
  aligned = λ h. ground arith;
}

module _ (t : TimeValue) where
  pub normalize-SameTime : SameTime (normalize t) t
  unfolding normalize
  normalize-SameTime = elim (Bool-cases (leb_ℤ (pos million) t.usec)) [
    | inl e ↦ rw e (
        let k = pos_part t.usec / million + 1 in
        omega (arith, carry-SameTime k t, settle-SameTime (carry k t)))
    | inr e ↦ rw e (
        let k = neg_part t.usec / million + 1 in
        omega (arith, borrow-SameTime k t, settle-SameTime (borrow k t)))
  ]

  pub normalize-InRange : InRange (normalize t)
  unfolding normalize
  normalize-InRange = elim (Bool-cases (leb_ℤ (pos million) t.usec)) [
    | inl e ↦ rw e (
        let k = pos_part t.usec / million + 1 in
        settle-InRange (carry k t) (carry-Loop k t (omega arith) (ground (arith, e))))
    | inr e ↦ rw e (
        let k = neg_part t.usec / million + 1 in
        settle-InRange (borrow k t) (borrow-Loop k t (omega arith) (ground (arith, e))))
  ]

-- A time that is not before zero has neither negative seconds nor negative microseconds in range.
pub InRange-pos :
    (t : TimeValue) → InRange t → minus t ≤ plus t → (neg_part t.sec ≡ 0) × (neg_part t.usec ≡ 0)
InRange-pos t h nonneg = (ground arith, ground arith)

ext : (a b : TimeValue) → a.sec ≡ b.sec → a.usec ≡ b.usec → a ≡ b
ext a b p q = λ i. record { sec = p i; usec = q i }

-- In range, a time that is not before zero has one form.
pub InRange-unique :
    (a b : TimeValue) → InRange a → InRange b → minus a ≤ plus a → SameTime a b → a ≡ b
InRange-unique a b ha hb nonneg e =
    let pa = InRange-pos a ha nonneg in
    let pb = InRange-pos b hb (omega arith) in
    ext a b (eq_of_parts a.sec b.sec (omega (arith, pa, pb)))
      (eq_of_parts a.usec b.usec (omega (arith, pa, pb)))
