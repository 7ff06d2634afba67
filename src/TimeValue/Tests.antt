-- ===== src/TimeValue/Tests.antt =====
-- ndk/time_value.h: runs on concrete times, and the properties at them.
use cute_ndk.Base.{◌+◌, ◌≤◌, ◌<◌, ◌≡◌, refl, ◌↔◌, true, false, arith}
use cute_ndk.Base.Int.{◌+ℤ◌, ◌-ℤ◌, pos, negsuc, neg_part}
use cute_ndk.TimeValue.{
  TimeValue, before, at_most, same, normalize, carry, borrow, settle, set, zero_time,
}
use cute_ndk.TimeValue.Normal.{plus, minus, SameTime, InRange}
use cute_ndk.TimeValue.Arith.{
  normalize_correct, compare_correct, negative_forms, with_seconds, without_seconds,
}

abbrev late : TimeValue
late = record { sec = pos 3; usec = pos 2_500_000 }

abbrev owing : TimeValue
owing = record { sec = pos 5; usec = negsuc 1_499_999 }

set_late : set (pos 3) (pos 2_500_000) ≡ record { sec = pos 5; usec = pos 500_000 }
unfolding set normalize carry borrow settle ◌+ℤ◌ ◌-ℤ◌
set_late = refl

owing_normal : normalize owing ≡ record { sec = pos 3; usec = pos 500_000 }
unfolding normalize carry borrow settle ◌+ℤ◌ ◌-ℤ◌
owing_normal = refl

zero_first : before zero_time (normalize late) ≡ true
unfolding before zero_time normalize carry borrow settle ◌+ℤ◌ ◌-ℤ◌
zero_first = refl

normalize_correct_example :
    SameTime (normalize owing) owing
    × InRange (normalize owing)
    × (minus owing ≤ plus owing
        → (neg_part (normalize owing).sec ≡ 0)
          × (neg_part (normalize owing).usec ≡ 0)
          × ((u : TimeValue) → InRange u → SameTime u owing → u ≡ normalize owing))
normalize_correct_example = normalize_correct owing

half_range : InRange (record { sec = pos 5; usec = pos 500_000 })
half_range = record { below = omega arith; above = omega arith; aligned = λ h. refl }

abbrev half : TimeValue
half = record { sec = pos 5; usec = pos 500_000 }

compare_correct_example :
    (before (normalize owing) (normalize late) ≡ true
      ↔ plus owing + minus late < plus late + minus owing)
    × (at_most (normalize owing) (normalize late) ≡ false
        ↔ plus late + minus owing < plus owing + minus late)
    × (same (normalize owing) (normalize late) ≡ true ↔ SameTime owing late)
compare_correct_example = compare_correct owing late (omega arith) (omega arith)

negative_forms_example :
    SameTime (with_seconds 250_000) (without_seconds 250_000)
    × (normalize (with_seconds 250_000) ≡ with_seconds 250_000)
    × (normalize (without_seconds 250_000) ≡ without_seconds 250_000)
    × (same (with_seconds 250_000) (without_seconds 250_000) ≡ false)
    × (before (with_seconds 250_000) (without_seconds 250_000) ≡ true)
negative_forms_example = negative_forms 250_000 (omega arith) (omega arith)
