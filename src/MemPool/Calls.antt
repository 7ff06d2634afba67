-- ===== src/MemPool/Calls.antt =====
-- ndk/mem_pool.cpp: init, malloc and free. The mutex is held for the whole of a call.
use cute_ndk.Base.{ℕ, ◌+◌, ◌-◌, ◌^◌, ltb, leb, not, ◌==◌, ◌||◌, if◌then◌else◌, Run, ok, ◌>>=◌}
use cute_ndk.Base.Int.{ℤ, pos, negsuc, ltb_ℤ}
use cute_ndk.MemPool.{
  MemPool, ObjHeader, header_size, inuse_identity, malloc_roundup, unsigned, sub_unsigned,
  object_at, slab_at, set_object, set_slab, pop_usable_object, merge, note_largest,
}
use cute_ndk.MemPool.Slabs.{find_usable_slab, alloc_slabs, order_ahead, order_back}

-- An int that is stored as an unsigned int.
abbrev pub to_unsigned : ℤ → ℕ
to_unsigned (pos n) = unsigned n
to_unsigned (negsuc n) = 2 ^ 32 - 1 - unsigned n

-- The pool that the constructor makes, in memory with any contents, where null is not an address.
abbrev pub no_slabs : (ℕ → ObjHeader) → MemPool
no_slabs raw = record {
  slab_size = 0;
  prealloc_slab_num = 0;
  max_slabs = 0;
  alloced_slabs = 0;
  slabs_head = 0;
  slabs_tail = 0;
  objs = raw;
  slabs = λ _. record {
    inuse_objs = 0;
    max_seriate_size = 0;
    head = 0;
    max_seriate_free_head = 0;
    prev = 0;
    next = 0;
  };
  fresh = 1;
  fresh_slab = 1;
}

-- The pool and what init returns. (PREALLOC_SLAB_NUM is 64.)
unfoldable pub init : MemPool → ℤ → ℤ → ℤ → Run (MemPool × ℤ)
init m slab_size prealloc_slab_num max_slabs =
    let m1 = record m { slab_size = to_unsigned slab_size } in
    let m2 = record m1 {
      max_slabs = to_unsigned max_slabs;
      prealloc_slab_num = to_unsigned prealloc_slab_num;
    } in
    let m3 = record m2 {
      slab_size = malloc_roundup m2.slab_size;
      prealloc_slab_num = if m2.prealloc_slab_num == 0 then 64 else m2.prealloc_slab_num;
    } in
    let start = alloc_slabs m3 m3.prealloc_slab_num >>= λ r. ok (r.0, pos 0) in
    if not (ltb_ℤ (pos 0) max_slabs)
    then ok (m1, negsuc 0)
    else if leb m2.slab_size header_size
    then ok (m2, negsuc 0)
    else start

-- `malloc`: the address of the memory behind the header, or null.
unfoldable pub malloc : MemPool → ℕ → Run (MemPool × ℕ)
malloc m size = if ltb m.slab_size size then ok (m, 0) else do
  let size' = malloc_roundup size
  found ← find_usable_slab m size'
  let more = alloc_slabs m m.prealloc_slab_num
  (m1, usable_slab) ← if found == 0 then more else ok (m, found)
  let give : Run (MemPool × ℕ) = do
    (m2, usable_object) ← pop_usable_object m1 usable_slab size'
    m3 ← order_ahead (m2.alloced_slabs + 1) m2 usable_slab
    ok (m3, usable_object + header_size)
  if usable_slab == 0 then ok (m1, 0) else give

-- The part of `free` behind the checks, for the chunk of the memory, up to the order of the slabs:
-- the slab of the chunk.
unfoldable pub recycle : MemPool → ℕ → Run (MemPool × ℕ)
recycle m free_obj = do
  o ← object_at m free_obj
  (m1, merged) ← merge (set_object m free_obj (record o { inuse = 0 })) free_obj
  m2 ← note_largest m1 merged
  p ← object_at m2 merged
  ok (m2, p.slab)

unfoldable pub give_back : MemPool → ℕ → Run MemPool
unfolding recycle
give_back m free_obj = do
  (m1, slab) ← recycle m free_obj
  m2 ← order_back (m1.alloced_slabs + 1) m1 slab
  s ← slab_at m2 slab
  ok (set_slab m2 slab (record s { inuse_objs = sub_unsigned s.inuse_objs 1 }))

unfoldable pub free : MemPool → ℕ → Run MemPool
unfolding give_back
free m memory =
    let free_obj = memory - header_size in
    let checked : Run MemPool = do
      o ← object_at m free_obj
      let back = give_back m free_obj
      if o.inuse == inuse_identity then back else ok m
    in if memory == 0 || m.slabs_head == 0 then ok m else checked
