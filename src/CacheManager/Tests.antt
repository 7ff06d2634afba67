-- ===== src/CacheManager/Tests.antt =====
-- ndk/cache_manager.cpp: a cache of two objects, and the properties at it.
use cute_ndk.Base.{
  ℕ, ◌+◌, ◌-◌, ◌≤◌, ◌≡◌, ◌<◌, ◌⊎◌, inl, refl, ap, arith, ◌==◌, if◌then◌else◌, Option, none, some,
  [], Returns,
}
use cute_ndk.Base.Int.{pos, negsuc}
use cute_ndk.CacheDeque.{CacheDeque}
use cute_ndk.CacheDeque.Queue.{Holds}
use cute_ndk.CacheManager.{CacheManager, CacheObject, new_manager, no_objects}
use cute_ndk.CacheManager.Calls.{flush_until, flush_all, put_i, get_i}
use cute_ndk.CacheManager.Queue.{deque_calls, deque_laws}
use cute_ndk.CacheManager.Sums.{sizes}
use cute_ndk.CacheManager.Valid.{IsManager}
use cute_ndk.CacheManager.Loop.{After, Left, flush_until_correct, flush_all_correct}
use cute_ndk.CacheManager.Put.{Put, put_i_correct}
use cute_ndk.CacheManager.Get.{Got, get_i_correct}
use cute_ndk.CacheManager.Reach.{Reached, IsValid, at_start, Reached-IsValid}

-- The objects 11 and 12 of the keys 21 and 22; nobody uses the first.
abbrev two : CacheDeque
two = record {
  size = 2;
  free_queue = 0;
  deque_head = 1;
  deque_tail = 2;
  links = record { next = λ p. if p == 1 then 2 else 0; prev = λ p. if p == 2 then 1 else 0 };
  obj_id = λ p. p + 20;
  cobj = λ p. p + 10;
  proxy = λ p. p - 10;
  fresh = 3;
}

abbrev pairs : ℕ → ℕ × ℕ
pairs k = (k + 21, k + 11)

two-Holds : Holds two 2 pairs
two-Holds = record {
  entries = record {
    at = λ k. k + 1;
    deque = record {
      start = λ h. refl;
      end = λ k h. omega arith;
      empty = λ h. absurd (omega arith);
      real = λ k h. omega arith;
      step = λ k h. ground arith;
      back = λ k h. ground arith;
      last = λ k h. ground arith;
      first = λ h. refl;
      apart = λ j k h l. omega arith;
    };
    keys = λ k h. omega arith;
    objects = λ k h. omega arith;
    proxies = λ k h. omega arith;
    solid = λ k h. omega arith;
    born = λ k h. omega arith;
    idle = 0;
    spare = λ k. 0;
    free_head = refl;
    free_next = λ k h. absurd (omega arith);
    free_real = λ k h. absurd (omega arith);
    free_apart = λ j k h l. absurd (omega arith);
    free_out = λ j k h l. absurd (omega arith);
    free_born = λ k h. absurd (omega arith);
    started = omega arith;
  };
  count = refl;
}

abbrev object : ℕ → CacheObject
object users = record { refcount = pos users; size = 40; contents = 7; observer = 0 }

abbrev sample : CacheManager CacheDeque
sample = record {
  cobj_min_size = 1;
  cobj_max_size = 50;
  water_mark = 80;
  high_water_mark = 100;
  low_water_mark = 60;
  cache_map = λ key. if key == 21 then some 11 else if key == 22 then some 12 else none;
  priority_queue = two;
  pending_list = [];
  objects = λ a. if a == 11 then some (object 0) else if a == 12 then some (object 1) else none;
  fresh = 13;
  dropped = [];
}

abbrev address : Option ℕ → ℕ
address none = 0
address (some a) = a

sample_found :
    (key a : ℕ)
    → (if key == 21 then some 11 else if key == 22 then some 12 else none) ≡ some a
    → (k : ℕ) × (k < 2) × (pairs k ≡ (key, a))
sample_found key a e = (if key == 21 then 0 else 1, ground arith, ground (arith, ap address e))

sample-IsManager : IsManager deque_calls deque_laws sample 2 pairs
unfolding sizes
sample-IsManager = record {
  queue = two-Holds;
  mapped = λ k h. ground arith;
  found = sample_found;
  apart = λ j k h l. omega arith;
  live = λ k h. (object k, ground arith);
  young = λ k h. (omega arith, omega arith);
  waiting = tt;
  distinct = tt;
  separate = λ k h. tt;
  started = omega arith;
  unborn = λ a h. ground arith;
  total = refl;
  bound = inl (omega arith);
  limits = (omega arith, omega arith);
}

flush_until_correct_example :
    Returns
      (λ (m', r).
        (a : After deque_calls deque_laws sample m') × Left 2 pairs a.len a.es
        × (((r ≡ pos 0) × (m'.water_mark ≤ 60)) ⊎ ((r ≡ negsuc 0) × (a.len ≡ 0))))
      (flush_until deque_calls 3 sample)
flush_until_correct_example =
    flush_until_correct deque_calls deque_laws 3 sample 2 pairs sample-IsManager (omega arith)

flush_all_correct_example :
    Returns
      (λ (m', r).
        (r ≡ pos 0)
        × (a : After deque_calls deque_laws sample m') × (a.len ≡ 0)
        × ((key : ℕ) → m'.cache_map key ≡ none))
      (flush_all deque_calls sample)
flush_all_correct_example = flush_all_correct deque_calls deque_laws sample 2 pairs sample-IsManager

put_i_correct_example :
    Returns
      (Put deque_calls deque_laws sample 2 pairs 23 7 30 0 0)
      (put_i deque_calls sample 23 7 30 0 0)
put_i_correct_example =
    put_i_correct deque_calls deque_laws sample 2 pairs 23 7 30 0 0 sample-IsManager

get_i_correct_example :
    Returns
      (Got deque_calls deque_laws sample 2 pairs sample-IsManager 21)
      (get_i deque_calls sample 21)
get_i_correct_example = get_i_correct deque_calls deque_laws sample 2 pairs sample-IsManager 21

-- An empty deque, and a cache of 1 to 2 MB.
abbrev empty : CacheDeque
empty = record {
  size = 0;
  free_queue = 0;
  deque_head = 0;
  deque_tail = 0;
  links = record { next = λ p. 0; prev = λ p. 0 };
  obj_id = λ p. 0;
  cobj = λ p. 0;
  proxy = λ p. 0;
  fresh = 1;
}

empty-Holds : Holds empty 0 pairs
empty-Holds = record {
  entries = record {
    at = λ k. 0;
    deque = record {
      start = λ h. absurd (omega arith);
      end = λ k h. absurd (omega arith);
      empty = λ h. (refl, refl);
      real = λ k h. absurd (omega arith);
      step = λ k h. absurd (omega arith);
      back = λ k h. absurd (omega arith);
      last = λ k h. absurd (omega arith);
      first = λ h. absurd (omega arith);
      apart = λ j k h l. absurd (omega arith);
    };
    keys = λ k h. absurd (omega arith);
    objects = λ k h. absurd (omega arith);
    proxies = λ k h. absurd (omega arith);
    solid = λ k h. absurd (omega arith);
    born = λ k h. absurd (omega arith);
    idle = 0;
    spare = λ k. 0;
    free_head = refl;
    free_next = λ k h. absurd (omega arith);
    free_real = λ k h. absurd (omega arith);
    free_apart = λ j k h l. absurd (omega arith);
    free_out = λ j k h l. absurd (omega arith);
    free_born = λ k h. absurd (omega arith);
    started = omega arith;
  };
  count = refl;
}

abbrev start : CacheManager CacheDeque
start = no_objects empty 1 50 2097152 1048576

start-Reached : Reached deque_calls empty start
unfolding new_manager
start-Reached = at_start start 1 50 2 1 (omega arith) (omega arith) (omega arith) refl

Reached-IsValid_example : IsValid deque_calls deque_laws start
Reached-IsValid_example =
    Reached-IsValid deque_calls deque_laws empty pairs empty-Holds start start-Reached
