-- ===== src/MemPool/Tests.antt =====
-- ndk/mem_pool.cpp: a pool of one slab, and the properties at it.
use cute_ndk.Base.{ℕ, refl, inr, sym, ◌∙◌, Bool, ◌==◌, ◌&&◌, if◌then◌else◌, arith, Returns}
use mathlib.Core.Path.{subst}
use cute_ndk.MemPool.{MemPool, ObjHeader, SlabHeader, pop_usable_object}
use cute_ndk.Heap.Places.{Has}
use cute_ndk.MemPool.Calls.{free}
use cute_ndk.MemPool.Chunks.{Chain, IsSlab}
use cute_ndk.MemPool.Pop.{Popped, pop_usable_object_correct}
use cute_ndk.MemPool.Row.{Row}
use cute_ndk.MemPool.Pool.{IsPool}

-- A chunk of 64 bytes in use, at address 1, and the rest of the slab behind it.
abbrev chunks : ℕ → ObjHeader
chunks a =
    if a == 1
    then record { inuse = 19; size = 64; slab = 1; prev = 0; next = 97 }
    else record { inuse = 0; size = 160; slab = 1; prev = 1; next = 0 }

abbrev slab : SlabHeader
slab = record {
  inuse_objs = 1;
  max_seriate_size = 160;
  head = 1;
  max_seriate_free_head = 97;
  prev = 0;
  next = 0;
}

abbrev sample : MemPool
sample = record {
  slab_size = 256;
  prealloc_slab_num = 1;
  max_slabs = 4;
  alloced_slabs = 1;
  slabs_head = 1;
  slabs_tail = 1;
  objs = chunks;
  slabs = λ _. slab;
  fresh = 289;
  fresh_slab = 2;
}

abbrev at : ℕ → ℕ
at k = if k == 0 then 1 else 97

abbrev mine : ℕ → Bool
mine a = a == 1

abbrev taken : ℕ → ℕ → Bool
taken s a = s == 1 && a == 1

sample-Chain : Chain chunks 1 1 289 2 at
sample-Chain = record {
  some = omega arith;
  first = refl;
  real = omega arith;
  bounded = omega arith;
  step = λ k h. ground arith;
  stops = λ k h. ground arith;
  apart = λ j k h l. ground arith;
  next = λ k h. ground arith;
  last = λ k h. ground arith;
  prev = λ k h. ground arith;
  front = refl;
  owner = λ k h. ground arith;
}

sample-IsSlab : IsSlab chunks slab 1 1 289 mine
sample-IsSlab = record {
  len = 2;
  at = at;
  chain = sample-Chain;
  marked = λ k h t. ground arith;
  only = λ a t. (0, omega arith, ground arith);
  starts = refl;
  largest = inr (record { place = 1; inside = omega arith; here = refl; free = refl; fits = refl });
}

sample-Row : Row sample 1 (λ _. 1)
sample-Row = record {
  head = λ h. refl;
  empty = λ h. absurd (omega arith);
  tail = λ k h. refl;
  real = λ k h. omega arith;
  apart = λ j k h l. absurd (omega arith);
  next = λ k h. absurd (omega arith);
  last = λ k h. refl;
  prev = λ k h. absurd (omega arith);
  front = λ h. refl;
}

pop_usable_object_correct_example :
    Returns (Popped sample 1 1 289 mine 40) (pop_usable_object sample 1 40)
pop_usable_object_correct_example =
    pop_usable_object_correct sample 1 1 289 mine 40 sample-IsSlab (omega arith) (omega arith)
      (omega arith) (omega arith)

sample-IsPool : IsPool sample taken
sample-IsPool = record {
  len = 1;
  at = λ _. 1;
  slabbed = record {
    row = sample-Row;
    count = refl;
    slabs = λ x (k, h, e). subst (λ y. IsSlab chunks slab y 1 289 (taken y)) e sample-IsSlab;
    regions = λ x y (k, h, e) (j, l, f) d. absurd (d (sym e ∙ f));
    old = λ x (k, h, e). (omega arith, omega (arith, e));
    bounded = omega arith;
    limit = omega arith;
    most = omega arith;
    rounded = refl;
    growing = omega arith;
    started = (omega arith, omega arith);
    owned = λ x a h. (0, omega arith, ground arith);
  };
  sorted = λ j k h l. absurd (omega arith);
}

sample_slab : Has sample-IsPool.len sample-IsPool.at 1
unfolding sample-IsPool
sample_slab = (0, omega arith, refl)
