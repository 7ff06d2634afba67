-- ===== src/TimeValue.antt =====
-- ndk/time_value.h and ndk/time_value.cpp: a time as seconds and microseconds, both signed. The
-- fields are unbounded integers here: the 64-bit counters of the source do not overflow for times
-- within billions of years.
pub mod Normal
pub mod Compare
pub mod Arith
mod Tests
use cute_ndk.Base.{ℕ, zero, suc, ◌+◌, ◌/◌, Bool, true, false, not, ◌&&◌, if◌then◌else◌}
use cute_ndk.Base.Int.{ℤ, pos, negsuc, pos_part, neg_part, ◌+ℤ◌, ◌-ℤ◌, ltb_ℤ}

pub record TimeValue : Type 0 where
  pub sec : ℤ
  pub usec : ℤ

-- `a <= b` and `a == b` on integers.
abbrev pub leb_ℤ : ℤ → ℤ → Bool
leb_ℤ a b = not (ltb_ℤ b a)

abbrev pub eqb_ℤ : ℤ → ℤ → Bool
eqb_ℤ a b = leb_ℤ a b && leb_ℤ b a

abbrev pub million : ℕ
million = 1_000_000

-- `do { ++sec; usec -= 1000000; } while (usec >= 1000000)`, and the test before it.
carry : ℕ → TimeValue → TimeValue
carry zero t = t
carry (suc k) t =
    let more = carry k (record { sec = t.sec +ℤ pos 1; usec = t.usec -ℤ pos million }) in
    if leb_ℤ (pos million) t.usec then more else t

-- `do { --sec; usec += 1000000; } while (usec <= -1000000)`, and the test before it.
borrow : ℕ → TimeValue → TimeValue
borrow zero t = t
borrow (suc k) t =
    let more = borrow k (record { sec = t.sec -ℤ pos 1; usec = t.usec +ℤ pos million }) in
    if leb_ℤ t.usec (negsuc 999_999) then more else t

-- The last step: no negative microseconds beside positive seconds.
settle : TimeValue → TimeValue
settle t =
    if leb_ℤ (pos 1) t.sec && ltb_ℤ t.usec (pos 0)
    then record { sec = t.sec -ℤ pos 1; usec = t.usec +ℤ pos million }
    else t

-- Each loop takes a million off the microseconds in a round, so their number of millions is fuel
-- enough.
pub normalize : TimeValue → TimeValue
unfolding carry borrow settle
normalize t = settle (
    if leb_ℤ (pos million) t.usec
    then carry (pos_part t.usec / million + 1) t
    else borrow (neg_part t.usec / million + 1) t)

-- `set(sec, usec)`, which the constructors call.
unfoldable pub set : ℤ → ℤ → TimeValue
set sec usec = normalize (record { sec = sec; usec = usec })

abbrev pub zero_time : TimeValue
zero_time = record { sec = pos 0; usec = pos 0 }

-- `operator +=` and `operator -=`
unfoldable pub add_to : TimeValue → TimeValue → TimeValue
add_to a b = normalize (record { sec = a.sec +ℤ b.sec; usec = a.usec +ℤ b.usec })

unfoldable pub sub_from : TimeValue → TimeValue → TimeValue
sub_from a b = normalize (record { sec = a.sec -ℤ b.sec; usec = a.usec -ℤ b.usec })

-- `operator +` and `operator -`: the copy that is added to is made by `set`.
pub add : TimeValue → TimeValue → TimeValue
add a b = add_to (set a.sec a.usec) b

pub sub : TimeValue → TimeValue → TimeValue
sub a b = sub_from (set a.sec a.usec) b

-- `operator <`
unfoldable pub before : TimeValue → TimeValue → Bool
before a b =
    if ltb_ℤ a.sec b.sec
    then true
    else if eqb_ℤ a.sec b.sec && ltb_ℤ a.usec b.usec
    then true
    else false

-- `operator <=`
unfoldable pub at_most : TimeValue → TimeValue → Bool
at_most a b =
    if ltb_ℤ a.sec b.sec
    then true
    else if eqb_ℤ a.sec b.sec && leb_ℤ a.usec b.usec
    then true
    else false

-- `operator ==`
unfoldable pub same : TimeValue → TimeValue → Bool
same a b = eqb_ℤ a.sec b.sec && eqb_ℤ a.usec b.usec
