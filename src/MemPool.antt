-- ===== src/MemPool.antt =====
-- ndk/mem_pool.h and ndk/mem_pool.cpp: memory that is taken from the system in slabs and given out
-- in chunks. A chunk is an obj_header and the bytes behind it; the headers of a slab are linked in
-- the order of their addresses. Sizes are 32-bit unsigned integers.
pub mod Slabs
pub mod Calls
pub mod Chunks
pub mod Cut
pub mod Pop
pub mod Join
pub mod Merge
pub mod Free
pub mod Row
pub mod Sorted
pub mod Pool
pub mod GiveBack
pub mod Grow
pub mod Longer
pub mod Give
pub mod Malloc
pub mod Start
pub mod Reach
mod Tests
mod ReachTests
use cute_ndk.Base.{
  ℕ, ◌+◌, ◌-◌, ◌*◌, ◌/◌, ◌%◌, ◌^◌, not, ◌&&◌, ltb, ◌==◌, if◌then◌else◌, Run, ok, ◌>>=◌, ◌>>◌,
  require,
}
use cute_ndk.Base.Array.{upd}

-- `obj_header`
pub record ObjHeader : Type 0 where
  pub inuse : ℕ
  pub size : ℕ
  pub slab : ℕ
  pub prev : ℕ
  pub next : ℕ

-- `slab_header`
pub record SlabHeader : Type 0 where
  pub inuse_objs : ℕ
  pub max_seriate_size : ℕ
  pub head : ℕ
  pub max_seriate_free_head : ℕ
  pub prev : ℕ
  pub next : ℕ

-- The members of the pool and the memory: the headers by their addresses, and the first addresses
-- that operator new has not handed out.
pub record MemPool : Type 0 where
  pub slab_size : ℕ
  pub prealloc_slab_num : ℕ
  pub max_slabs : ℕ
  pub alloced_slabs : ℕ
  pub slabs_head : ℕ
  pub slabs_tail : ℕ
  pub objs : ℕ → ObjHeader
  pub slabs : ℕ → SlabHeader
  pub fresh : ℕ
  pub fresh_slab : ℕ

-- `sizeof(obj_header)` and MALLOC_ALIGN, where pointers have 64 bits.
abbrev pub header_size : ℕ
header_size = 32

abbrev pub malloc_align : ℕ
malloc_align = 8

abbrev pub inuse_identity : ℕ
inuse_identity = 19

abbrev pub unsigned : ℕ → ℕ
unsigned n = n % 2 ^ 32

abbrev pub sub_unsigned : ℕ → ℕ → ℕ
sub_unsigned a b = (a + 2 ^ 32 - b) % 2 ^ 32

-- MALLOC_ROUNDUP to a multiple of the alignment.
abbrev pub malloc_roundup : ℕ → ℕ
malloc_roundup n = unsigned ((n + 7) / 8 * 8)

unfoldable pub object_at : MemPool → ℕ → Run ObjHeader
object_at m p = do require (not (p == 0)); ok (m.objs p)

unfoldable pub slab_at : MemPool → ℕ → Run SlabHeader
slab_at m s = do require (not (s == 0)); ok (m.slabs s)

abbrev pub set_object : MemPool → ℕ → ObjHeader → MemPool
set_object m p o = record m { objs = upd m.objs p o }

abbrev pub set_slab : MemPool → ℕ → SlabHeader → MemPool
set_slab m s h = record m { slabs = upd m.slabs s h }

-- `if (n) n->prev_ = p`
unfoldable pub relink : MemPool → ℕ → ℕ → Run MemPool
relink m n p =
    if n == 0
    then ok m
    else do after ← object_at m n; ok (set_object m n (record after { prev = p }))

-- The remainder of the chunk `free_obj` becomes a chunk of its own; its `inuse_` is left as the
-- memory has it.
unfoldable pub split_object : MemPool → ℕ → ℕ → ℕ → Run MemPool
split_object m slab free_obj alloc_size = do
  let next_object = free_obj + header_size + alloc_size
  o ← object_at m free_obj
  s ← slab_at m slab
  m' ← relink m o.next next_object
  let rest = sub_unsigned s.max_seriate_size header_size
  let m'' =
      set_object (set_object m' free_obj (record o { size = alloc_size; next = next_object }))
        next_object
        (record (m'.objs next_object) { size = rest; slab = slab; prev = free_obj; next = o.next })
  ok (set_slab m'' slab (record s { max_seriate_size = rest; max_seriate_free_head = next_object }))

unfoldable pub pop_usable_object : MemPool → ℕ → ℕ → Run (MemPool × ℕ)
unfolding split_object
pop_usable_object m slab alloc_size = do
  s ← slab_at m slab
  let left = sub_unsigned s.max_seriate_size alloc_size
  let free_obj = s.max_seriate_free_head
  o ← object_at m free_obj
  let m' =
      set_slab (set_object m free_obj (record o { slab = slab; inuse = inuse_identity })) slab
        (record s { max_seriate_size = left })
  let split = split_object m' slab free_obj alloc_size
  let whole = ok (set_slab m' slab (record s { max_seriate_size = 0; max_seriate_free_head = 0 }))
  m'' ← if ltb 0 left && ltb header_size left then split else whole
  t ← slab_at m'' slab
  ok (set_slab m'' slab (record t { inuse_objs = unsigned (t.inuse_objs + 1) }), free_obj)

-- `free`: the chunk before takes in the chunk `free_obj`, which is not the last one.
unfoldable pub merge_prev : MemPool → ℕ → Run (MemPool × ℕ)
merge_prev m free_obj = do
  o ← object_at m free_obj
  p ← object_at m o.prev
  let m' = set_object m o.prev (record p { next = o.next })
  n ← object_at m' o.next
  let m'' = set_object m' o.next (record n { prev = o.prev })
  q ← object_at m'' o.prev
  ok (
    set_object m'' o.prev (record q { size = unsigned (q.size + (header_size + o.size)) }),
    o.prev,
  )

-- The chunk before takes in the last chunk.
unfoldable pub merge_tail : MemPool → ℕ → Run (MemPool × ℕ)
merge_tail m free_obj = do
  o ← object_at m free_obj
  p ← object_at m o.prev
  ok (
    set_object m o.prev (record p { next = 0; size = unsigned (p.size + (header_size + o.size)) }),
    o.prev,
  )

-- The chunk `free_obj` takes in the next one.
unfoldable pub merge_next : MemPool → ℕ → Run MemPool
merge_next m free_obj = do
  o ← object_at m free_obj
  n ← object_at m o.next
  m' ← relink m n.next free_obj
  f ← object_at m' free_obj
  ok (
      set_object m' free_obj
        (record f { size = unsigned (f.size + (header_size + n.size)); next = n.next }))

-- The chunk behind `free_obj` is taken in where its `inuse_` is 0.
unfoldable pub merge_behind : MemPool → ℕ → Run (MemPool × ℕ)
merge_behind m free_obj = do
  f ← object_at m free_obj
  n ← object_at m f.next
  let taken = merge_next m free_obj >>= λ m'. ok (m', free_obj)
  if n.inuse == 0 then taken else ok (m, free_obj)

-- The chunks before and behind are merged with the one that is free now where their `inuse_` is 0.
unfoldable pub merge : MemPool → ℕ → Run (MemPool × ℕ)
merge m free_obj = do
  o ← object_at m free_obj
  let middle : Run (MemPool × ℕ) = do
    p ← object_at m o.prev
    let taken = merge_prev m free_obj
    r ← if p.inuse == 0 then taken else ok (m, free_obj)
    merge_behind (r.0) (r.1)
  let tail : Run (MemPool × ℕ) = do
    p ← object_at m o.prev
    let taken = merge_tail m free_obj
    if p.inuse == 0 then taken else ok (m, free_obj)
  let head = merge_behind m free_obj
  if not (o.prev == 0) && not (o.next == 0)
      then middle
      else if not (o.prev == 0)
      then tail
      else if not (o.next == 0)
      then head
      else ok (m, free_obj)

-- The chunk is the largest of its slab now, or it is not.
unfoldable pub note_largest : MemPool → ℕ → Run MemPool
note_largest m free_obj = do
  o ← object_at m free_obj
  s ← slab_at m o.slab
  ok (
      if ltb s.max_seriate_size o.size
      then set_slab m o.slab
          (record s { max_seriate_size = o.size; max_seriate_free_head = free_obj })
      else m)
