-- ===== src/TimerQueue/Order.antt =====
-- ndk/timer_queue.cpp: the order of the timers by their times.
use cute_ndk.Base.{ℕ, ◌≡◌, Bool, true, false, not, arith}
use cute_ndk.Base.Order.{IsOrder}
use cute_ndk.TimeValue.{TimeValue, before, at_most}
use cute_ndk.TimerQueue.{TimerQueue}

before_asym : (a b : TimeValue) → before a b ≡ true → before b a ≡ false
unfolding before
before_asym a b h = ground arith

before_trans : (a b c : TimeValue) → before b a ≡ false → before c b ≡ false → before c a ≡ false
unfolding before
before_trans a b c h k = ground arith

-- `a <= b` is the opposite of `b < a`.
pub at_most-before : (a b : TimeValue) → at_most a b ≡ not (before b a)
unfolding at_most before
at_most-before a b = ground arith

-- The timer `a` is due before the timer `b`.
abbrev pub earlier : TimerQueue → ℕ → ℕ → Bool
earlier q a b = before (q.nodes a).timer_value (q.nodes b).timer_value

pub earlier-IsOrder : (q : TimerQueue) → IsOrder (earlier q)
earlier-IsOrder q = record {
  asym = λ a b. before_asym (q.nodes a).timer_value (q.nodes b).timer_value;
  trans =
      λ a b c. before_trans (q.nodes a).timer_value (q.nodes b).timer_value (q.nodes c).timer_value;
}
