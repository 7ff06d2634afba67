-- ===== src/TimeValue/Compare.antt =====
-- ndk/time_value.h: the comparisons order the times, on what normalize leaves of times that are not
-- before zero.
use cute_ndk.Base.{◌+◌, ◌≤◌, ◌<◌, ◌≡◌, ◌↔◌, true, false, arith}
use cute_ndk.TimeValue.{TimeValue, before, at_most, same}
use cute_ndk.TimeValue.Normal.{plus, minus, SameTime, InRange, InRange-pos}

-- `a` is earlier than `b`.
abbrev pub Earlier : TimeValue → TimeValue → Type 0
Earlier a b = plus a + minus b < plus b + minus a

module _ (a b : TimeValue) (ra : InRange a) (rb : InRange b) (na : minus a ≤ plus a)
    (nb : minus b ≤ plus b) where
  pub before-Earlier : before a b ≡ true ↔ Earlier a b
  unfolding before
  before-Earlier =
      let pa = InRange-pos a ra na in
      let pb = InRange-pos b rb nb in
      (
        λ h. ground (arith, pa, pb, ra.below, rb.below),
        λ h. ground (arith, pa, pb, ra.below, rb.below),
      )

  pub at_most-Earlier : at_most a b ≡ false ↔ Earlier b a
  unfolding at_most
  at_most-Earlier =
      let pa = InRange-pos a ra na in
      let pb = InRange-pos b rb nb in
      (
        λ h. ground (arith, pa, pb, ra.below, rb.below),
        λ h. ground (arith, pa, pb, ra.below, rb.below),
      )

  pub same-SameTime : same a b ≡ true ↔ SameTime a b
  unfolding same
  same-SameTime =
      let pa = InRange-pos a ra na in
      let pb = InRange-pos b rb nb in
      (
        λ h. ground (arith, pa, pb, ra.below, rb.below),
        λ h. ground (arith, pa, pb, ra.below, rb.below),
      )
