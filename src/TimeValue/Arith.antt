-- ===== src/TimeValue/Arith.antt =====
-- ndk/time_value.h: sums, differences and comparisons of times in terms of the times in
-- microseconds.
use cute_ndk.Base.{refl, ◌-◌, ◌+◌, ◌≤◌, ◌<◌, ◌≡◌, sym, ◌↔◌, true, false, arith, ℕ}
use cute_ndk.Base.Int.{pos_part, neg_part, pos, negsuc, ◌+ℤ◌, ◌-ℤ◌, +ℤ_parts, -ℤ_parts}
use cute_ndk.TimeValue.{
  set, add_to, sub_from, TimeValue, before, at_most, same, normalize, carry, borrow, settle, add,
  sub,
}
use cute_ndk.TimeValue.Normal.{
  plus, minus, SameTime, InRange, InRange-pos, InRange-unique, normalize-SameTime,
  normalize-InRange,
}
use cute_ndk.TimeValue.Compare.{Earlier, before-Earlier, at_most-Earlier, same-SameTime}

-- A time that is not before zero.
abbrev pub NonNegative : TimeValue → Type 0
NonNegative t = minus t ≤ plus t

-- normalize keeps the time and brings it in range, whatever it is; for a time that is not before
-- zero the seconds are not negative and the microseconds lie from 0 to 999999, and there is no
-- other such form.
pub normalize_correct :
    (t : TimeValue)
    → SameTime (normalize t) t
      × InRange (normalize t)
      × (NonNegative t
          → (neg_part (normalize t).sec ≡ 0)
            × (neg_part (normalize t).usec ≡ 0)
            × ((u : TimeValue) → InRange u → SameTime u t → u ≡ normalize t))
normalize_correct t = (
  normalize-SameTime t,
  normalize-InRange t,
  λ n.
      let e = normalize-SameTime t in
      let p = InRange-pos (normalize t) (normalize-InRange t) (omega (arith, e)) in
      (
        p.0,
        p.1,
        λ u r s.
            InRange-unique u (normalize t) r (normalize-InRange t) (omega arith) (omega (arith, e)),
      ),
)

pub add-SameTime :
    (a b : TimeValue) → plus (add a b) + minus a + minus b ≡ minus (add a b) + plus a + plus b
unfolding add add_to set
add-SameTime a b =
    let c : TimeValue = normalize (record { sec = a.sec; usec = a.usec }) in
    let t : TimeValue = record { sec = c.sec +ℤ b.sec; usec = c.usec +ℤ b.usec } in
    omega (
      arith,
      normalize-SameTime (record { sec = a.sec; usec = a.usec }),
      normalize-SameTime t,
      +ℤ_parts c.sec b.sec,
      +ℤ_parts c.usec b.usec,
    )

pub sub-SameTime :
    (a b : TimeValue) → plus (sub a b) + minus a + plus b ≡ minus (sub a b) + plus a + minus b
unfolding sub sub_from set
sub-SameTime a b =
    let c : TimeValue = normalize (record { sec = a.sec; usec = a.usec }) in
    let t : TimeValue = record { sec = c.sec -ℤ b.sec; usec = c.usec -ℤ b.usec } in
    omega (
      arith,
      normalize-SameTime (record { sec = a.sec; usec = a.usec }),
      normalize-SameTime t,
      -ℤ_parts c.sec b.sec,
      -ℤ_parts c.usec b.usec,
    )

pub add-InRange : (a b : TimeValue) → InRange (add a b)
unfolding add add_to
add-InRange a b = normalize-InRange _

pub sub-InRange : (a b : TimeValue) → InRange (sub a b)
unfolding sub sub_from
sub-InRange a b = normalize-InRange _

-- Sums and differences of any two times are in range and take the time that they should, and a
-- difference taken off a time in range that is not before zero and added again gives it back.
pub add-sub :
    (a b : TimeValue)
    → InRange a
    → NonNegative a
    → (add (sub a b) b ≡ a)
      × (plus (add a b) + minus a + minus b ≡ minus (add a b) + plus a + plus b)
      × (plus (sub a b) + minus a + plus b ≡ minus (sub a b) + plus a + minus b)
add-sub a b r n =
    let d = sub-SameTime a b in
    let e = add-SameTime (sub a b) b in
    (
      sym (InRange-unique a (add (sub a b) b) r (add-InRange (sub a b) b) n (omega (arith, d, e))),
      add-SameTime a b,
      d,
    )

-- For times as `set` leaves them, that are not before zero, `<` holds exactly when the one is
-- earlier than the other, `<=` fails exactly when it is later, and `==` holds exactly when they are
-- the same time.
pub compare_correct :
    (a b : TimeValue)
    → NonNegative a
    → NonNegative b
    → (before (normalize a) (normalize b) ≡ true ↔ Earlier a b)
      × (at_most (normalize a) (normalize b) ≡ false ↔ Earlier b a)
      × (same (normalize a) (normalize b) ≡ true ↔ SameTime a b)
compare_correct a b na nb =
    let ea = normalize-SameTime a in
    let eb = normalize-SameTime b in
    let ra = normalize-InRange a in
    let rb = normalize-InRange b in
    let ma : NonNegative (normalize a) = omega (arith, ea) in
    let mb : NonNegative (normalize b) = omega (arith, eb) in
    let p = before-Earlier (normalize a) (normalize b) ra rb ma mb in
    let q = at_most-Earlier (normalize a) (normalize b) ra rb ma mb in
    let r = same-SameTime (normalize a) (normalize b) ra rb ma mb in
    (
      (λ h. omega (arith, p.0 h, ea, eb), λ h. p.1 (omega (arith, ea, eb))),
      (λ h. omega (arith, q.0 h, ea, eb), λ h. q.1 (omega (arith, ea, eb))),
      (λ h. omega (arith, r.0 h, ea, eb), λ h. r.1 (omega (arith, ea, eb))),
    )

-- What is in range and has no positive seconds is left as it is.
fixed :
    (t : TimeValue)
    → pos_part t.usec < 1_000_000
    → neg_part t.usec < 1_000_000
    → pos_part t.sec ≡ 0
    → normalize t ≡ t
unfolding normalize carry borrow settle
fixed t a b c = ground arith

-- Two forms of the time of n - 1000000 microseconds.
abbrev pub with_seconds : ℕ → TimeValue
with_seconds n = record { sec = negsuc 0; usec = pos n }

abbrev pub without_seconds : ℕ → TimeValue
without_seconds n = record { sec = pos 0; usec = negsuc (999_999 - n) }

-- Of a time before zero by less than a second, normalize leaves two forms alone, with -1 seconds
-- and without; they are the same time, but `==` says that they differ and `<` that one is earlier.
pub negative_forms :
    (n : ℕ)
    → 0 < n
    → n < 1_000_000
    → SameTime (with_seconds n) (without_seconds n)
      × (normalize (with_seconds n) ≡ with_seconds n)
      × (normalize (without_seconds n) ≡ without_seconds n)
      × (same (with_seconds n) (without_seconds n) ≡ false)
      × (before (with_seconds n) (without_seconds n) ≡ true)
unfolding same before
negative_forms n lo hi = (
  omega arith,
  fixed (with_seconds n) (ground arith) (ground arith) refl,
  fixed (without_seconds n) (ground arith) (ground arith) refl,
  ground arith,
  ground arith,
)
