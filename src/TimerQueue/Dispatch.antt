-- ===== src/TimerQueue/Dispatch.antt =====
-- ndk/timer_queue.cpp: dispatch_timer and calculate_timeout.
use cute_ndk.Base.{
  ℕ, zero, suc, ◌+◌, ◌*◌, ◌≤◌, ◌<◌, ◌≡◌, arith, Returns, returns, Returns-if, Returns-map,
}
use cute_ndk.TimeValue.{TimeValue, at_most, add}
use cute_ndk.TimeValue.Normal.{plus, minus, InRange}
use cute_ndk.TimeValue.Compare.{Earlier, at_most-Earlier}
use cute_ndk.TimeValue.Arith.{NonNegative, add-SameTime, add-InRange}
use cute_ndk.TimerQueue.Calls.{skip_past}

-- The loop of dispatch_timer: the first time behind `now` among t + i, t + 2 i, ...
pub record Skipped (t i now r : TimeValue) : Type 0 where
  pub rounds : ℕ
  pub some_round : 0 < rounds
  pub time : plus r + minus t + rounds * minus i ≡ minus r + plus t + rounds * plus i
  pub late : Earlier now r
  pub not_before :
      (n : ℕ)
      → 0 < n
      → n < rounds
      → plus t + n * plus i + minus now ≤ minus t + n * minus i + plus now
  pub in_range : InRange r

module _ (i now : TimeValue) (ri : InRange i) (rn : InRange now) (nn : NonNegative now)
    (ni : minus i < plus i) where
  once_more :
      (t r : TimeValue)
      → plus (add t i) + minus now ≤ plus now + minus (add t i)
      → Skipped (add t i) i now r
      → Skipped t i now r
  once_more t r b s = record {
    rounds = s.rounds + 1;
    some_round = omega arith;
    time = omega (arith, s.time, add-SameTime t i);
    late = s.late;
    not_before = earlier_rounds;
    in_range = s.in_range;
  }
    where
      earlier_rounds :
          (n : ℕ)
          → 0 < n
          → n < s.rounds + 1
          → plus t + n * plus i + minus now ≤ minus t + n * minus i + plus now
      earlier_rounds zero x y = absurd (omega arith)
      earlier_rounds (suc zero) x y = omega (arith, b, add-SameTime t i)
      earlier_rounds (suc (suc n)) x y =
          omega (arith, s.not_before (suc n) (omega arith) (omega arith), add-SameTime t i)

  -- A microsecond at least passes in each round, so the time that is left bounds the rounds.
  pub skip_past-Skipped :
      (k : ℕ) (t : TimeValue)
      → NonNegative t
      → plus now + minus t < k + minus now + plus t
      → 0 < k
      → Returns (Skipped t i now) (skip_past k t i now)
  unfolding skip_past
  skip_past-Skipped zero t nt f h = absurd (omega arith)
  skip_past-Skipped (suc k) t nt f h =
      let s = add-SameTime t i in
      let later : NonNegative (add t i) = omega (arith, s, nt, ni) in
      let test = at_most-Earlier (add t i) now (add-InRange t i) rn later nn in
      Returns-if (at_most (add t i) now)
        (λ e.
          let bound : plus (add t i) + minus now ≤ plus now + minus (add t i) =
            ground (arith, test.1, e) in
          Returns-map
            (skip_past-Skipped k (add t i) later (omega (arith, s, f, ni))
              (omega (arith, s, f, bound)))
            λ r x. once_more t r bound x)
        (λ e. returns (record {
          rounds = 1;
          some_round = omega arith;
          time = omega (arith, s);
          late = test.0 e;
          not_before = λ n a b. absurd (omega arith);
          in_range = add-InRange t i;
        }))
