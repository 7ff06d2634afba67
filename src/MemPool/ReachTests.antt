-- ===== src/MemPool/ReachTests.antt =====
-- ndk/mem_pool.cpp: a pool that init makes, and two calls of malloc.
use cute_ndk.Base.{ℕ, refl, ◌⊎◌, ◌≤◌, ◌+◌, true, Run, ok, fault, out_of_fuel, arith}
use cute_ndk.Base.Int.{ℤ, pos}
use cute_ndk.MemPool.{
  MemPool, ObjHeader, malloc_roundup, pop_usable_object, slab_at, object_at, relink,
}
use cute_ndk.MemPool.Calls.{init, malloc, no_slabs}
use cute_ndk.MemPool.Slabs.{
  order_ahead, add_slab, add_slabs, alloc_slabs, find_usable_slab, find_from,
}
use cute_ndk.MemPool.Start.{none_taken}
use cute_ndk.MemPool.Reach.{Reached, by_init, by_malloc, marked, malloc_apart}

abbrev raw : ℕ → ObjHeader
raw a = record { inuse = 0; size = 0; slab = 0; prev = 0; next = 0 }

abbrev pool_or : MemPool → {T : Type 0} → Run (MemPool × T) → MemPool
pool_or m (ok r) = r.0
pool_or m fault = m
pool_or m out_of_fuel = m

abbrev pool_of : {T : Type 0} → Run (MemPool × T) → MemPool
pool_of = pool_or (no_slabs raw)

-- A pool of slabs of 64 bytes, up to two, one of them made at once.
abbrev first_run : Run (MemPool × ℤ)
first_run = init (no_slabs raw) (pos 64) (pos 1) (pos 2)

abbrev fresh_pool : MemPool
unfolding init alloc_slabs add_slabs add_slab
fresh_pool = pool_of first_run

first-Reached : Reached fresh_pool none_taken
unfolding init alloc_slabs add_slabs add_slab fresh_pool
first-Reached = by_init raw 64 (pos 1) (pos 2) fresh_pool (omega arith) (omega arith) refl

-- The pools behind two calls of malloc: the chunks at the addresses 1 and 41 are held then.
abbrev second_pool : MemPool
unfolding init malloc alloc_slabs add_slabs add_slab fresh_pool find_usable_slab find_from
    pop_usable_object order_ahead slab_at object_at relink
second_pool = pool_of (malloc fresh_pool 8)

abbrev third_pool : MemPool
unfolding init malloc alloc_slabs add_slabs add_slab fresh_pool find_usable_slab find_from
    pop_usable_object order_ahead slab_at object_at relink second_pool
third_pool = pool_of (malloc second_pool 8)

second-Reached : Reached second_pool (marked none_taken 1 1 true)
unfolding init malloc alloc_slabs add_slabs add_slab fresh_pool find_usable_slab find_from
    pop_usable_object order_ahead slab_at object_at relink second_pool
second-Reached =
    by_malloc fresh_pool none_taken 8 second_pool 33 first-Reached (omega arith) refl (omega arith)

malloc_apart_example :
    (32 ≤ 73)
    × (malloc_roundup 8 ≤ (third_pool.objs 41).size)
    × ((73 + (third_pool.objs 41).size ≤ 1) ⊎ (1 + 32 + (third_pool.objs 1).size ≤ 41))
unfolding init malloc alloc_slabs add_slabs add_slab fresh_pool find_usable_slab find_from
    pop_usable_object order_ahead slab_at object_at relink second_pool third_pool
malloc_apart_example =
    malloc_apart second_pool (marked none_taken 1 1 true) second-Reached 8 (omega arith) third_pool
      73 refl (omega arith) 1 1 refl
