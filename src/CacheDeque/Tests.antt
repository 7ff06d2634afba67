-- ===== src/CacheDeque/Tests.antt =====
-- ndk/cache_deque.h: a deque of two items, and the properties at it.
use cute_ndk.Base.{ℕ, ◌+◌, ◌-◌, ◌≡◌, refl, arith, ◌==◌, if◌then◌else◌, Run, ok, Returns, returns}
use cute_ndk.Base.Int.{pos}
use cute_ndk.CacheDeque.{CacheDeque, remove, adjust}
use cute_ndk.CacheDeque.Order.{IsDeque, with_last, without}
use cute_ndk.CacheDeque.Queue.{Holds, Removal, remove_correct, adjust_correct}

-- The items 1 and 2; item 3 is free.
abbrev two : CacheDeque
two = record {
  size = 2;
  free_queue = 3;
  deque_head = 1;
  deque_tail = 2;
  links = record { next = λ p. if p == 1 then 2 else 0; prev = λ p. if p == 2 then 1 else 0 };
  obj_id = λ p. p + 20;
  cobj = λ p. p + 10;
  proxy = λ p. p - 10;
  fresh = 4;
}

abbrev pairs : ℕ → ℕ × ℕ
pairs k = (k + 21, k + 11)

two-IsDeque : IsDeque two 2 (λ k. k + 1)
two-IsDeque = record {
  start = λ h. refl;
  end = λ k h. omega arith;
  empty = λ h. absurd (omega arith);
  real = λ k h. omega arith;
  step = λ k h. ground arith;
  back = λ k h. ground arith;
  last = λ k h. ground arith;
  first = λ h. refl;
  apart = λ j k h l. omega arith;
}

two-Holds : Holds two 2 pairs
two-Holds = record {
  entries = record {
    at = λ k. k + 1;
    deque = two-IsDeque;
    keys = λ k h. omega arith;
    objects = λ k h. omega arith;
    proxies = λ k h. omega arith;
    solid = λ k h. omega arith;
    born = λ k h. omega arith;
    idle = 1;
    spare = λ k. 3;
    free_head = refl;
    free_next = λ k h. ground arith;
    free_real = λ k h. omega arith;
    free_apart = λ j k h l. absurd (omega arith);
    free_out = λ j k h l. omega arith;
    free_born = λ k h. omega arith;
    started = omega arith;
  };
  count = refl;
}

remove_correct_example : Returns (Removal two 2 pairs) (remove two)
remove_correct_example = remove_correct two 2 pairs two-Holds

-- The calls of `acquire` are counted.
abbrev count : ℕ → ℕ → Run ℕ
count a s = ok (s + 1)

adjust_correct_example :
    Returns
      (λ (q', s, r). (r ≡ pos 0) × (s ≡ 1) × Holds q' 2 (with_last 1 (without 0 pairs) (21, 11)))
      (adjust two 1 count 0)
adjust_correct_example =
    adjust_correct two 2 pairs two-Holds 0 (omega arith) {P = λ s. s ≡ 1} count 0 (returns refl)
