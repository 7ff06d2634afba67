-- ===== src/MemPool/Slabs.antt =====
-- ndk/mem_pool.cpp: the list of the slabs, which is kept in the order of their largest free chunks.
use cute_ndk.Base.{ℕ, zero, suc, ◌+◌, ltb, leb, ◌==◌, if◌then◌else◌, Run, ok, out_of_fuel, ◌>>=◌}
use cute_ndk.Base.Array.{upd}
use cute_ndk.MemPool.{MemPool, SlabHeader, header_size, set_object, set_slab, slab_at, unsigned}

-- The walk of find_usable_slab: the first slab with a chunk of the size, or null.
unfoldable pub find_from : ℕ → MemPool → ℕ → ℕ → Run ℕ
find_from zero m slab size = out_of_fuel
find_from (suc k) m slab size =
    let walk : Run ℕ = do
      s ← slab_at m slab
      let rest = find_from k m s.next size
      if leb size s.max_seriate_size then ok slab else rest
    in if slab == 0 then ok 0 else walk

-- The walk meets at most all slabs, and then null.
unfoldable pub find_usable_slab : MemPool → ℕ → Run ℕ
unfolding find_from
find_usable_slab m size = find_from (m.alloced_slabs + 1) m m.slabs_head size

-- The pointer to the previous, or to the next, slab of a slab, where there is one.
abbrev pub with_prev : (ℕ → SlabHeader) → ℕ → ℕ → ℕ → SlabHeader
with_prev slabs s p x = if s == 0 then slabs x else upd slabs s (record (slabs s) { prev = p }) x

abbrev pub with_next : (ℕ → SlabHeader) → ℕ → ℕ → ℕ → SlabHeader
with_next slabs s n x = if s == 0 then slabs x else upd slabs s (record (slabs s) { next = n }) x

-- The slab changes places with the one before it.
unfoldable pub rolled_ahead : MemPool → ℕ → ℕ → MemPool
rolled_ahead m slab prev_slab =
    let p = m.slabs prev_slab in
    let slabs1 = with_next m.slabs p.prev slab in
    let s = slabs1 slab in
    let slabs2 = with_next slabs1 prev_slab s.next in
    let slabs3 = with_prev slabs2 s.next prev_slab in
    let slabs4 = with_prev slabs3 slab p.prev in
    let slabs5 = with_prev slabs4 prev_slab slab in
    record m {
      slabs = with_next slabs5 slab prev_slab;
      slabs_tail = if s.next == 0 then prev_slab else m.slabs_tail;
      slabs_head = if p.prev == 0 then slab else m.slabs_head;
    }

-- The slab changes places with the next one.
unfoldable pub rolled_back : MemPool → ℕ → ℕ → MemPool
rolled_back m slab next_slab =
    let n = m.slabs next_slab in
    let slabs1 = with_prev m.slabs n.next slab in
    let slabs2 = with_next slabs1 slab n.next in
    let s = slabs2 slab in
    let slabs3 = with_next slabs2 s.prev next_slab in
    let slabs4 = with_prev slabs3 next_slab s.prev in
    let slabs5 = with_next slabs4 next_slab slab in
    record m {
      slabs = with_prev slabs5 slab next_slab;
      slabs_tail = if n.next == 0 then slab else m.slabs_tail;
      slabs_head = if s.prev == 0 then next_slab else m.slabs_head;
    }

-- `ajust_slab_order` by ORDER_BY_AHEAD and by ORDER_BY_BACK. The fuel bounds the steps.
unfoldable pub order_ahead : ℕ → MemPool → ℕ → Run MemPool
order_ahead zero m slab = out_of_fuel
order_ahead (suc k) m slab = do
  s ← slab_at m slab
  let step : Run MemPool = do
    p ← slab_at m s.prev
    let rolled = order_ahead k (rolled_ahead m slab s.prev) slab
    if ltb s.max_seriate_size p.max_seriate_size then rolled else ok m
  if s.prev == 0 then ok m else step

unfoldable pub order_back : ℕ → MemPool → ℕ → Run MemPool
order_back zero m slab = out_of_fuel
order_back (suc k) m slab = do
  s ← slab_at m slab
  let step : Run MemPool = do
    n ← slab_at m s.next
    let rolled = order_back k (rolled_back m slab s.next) slab
    if ltb n.max_seriate_size s.max_seriate_size then rolled else ok m
  if s.next == 0 then ok m else step

-- A new slab behind the others: one chunk, whose `inuse_` is left as the memory has it.
unfoldable pub add_slab : MemPool → Run MemPool
add_slab m = do
  let memory = m.fresh
  let slab = m.fresh_slab
  let m1 =
      set_object
        (record m { fresh = m.fresh + m.slab_size + header_size; fresh_slab = m.fresh_slab + 1 })
        memory (record (m.objs memory) { size = m.slab_size; slab = slab; prev = 0; next = 0 })
  let new : SlabHeader = record {
    inuse_objs = 0;
    max_seriate_size = m.slab_size;
    head = memory;
    max_seriate_free_head = memory;
    prev = 0;
    next = 0;
  }
  let m2 = set_slab m1 slab new
  let first = record m2 { slabs_head = slab; slabs_tail = slab }
  let behind : Run MemPool = do
    t ← slab_at m2 m.slabs_tail
    let m3 = set_slab m2 m.slabs_tail (record t { next = slab })
    ok (record (set_slab m3 slab (record new { prev = m.slabs_tail })) { slabs_tail = slab })
  m' ← if m.slabs_head == 0 then ok first else behind
  ok (record m' { alloced_slabs = unsigned (m'.alloced_slabs + 1) })

-- The loop of alloc_slabs, up to the maximum.
unfoldable pub add_slabs : ℕ → MemPool → Run MemPool
unfolding add_slab
add_slabs zero m = ok m
add_slabs (suc count) m = do
  m' ← add_slab m
  let rest = add_slabs count m'
  if leb m'.max_slabs m'.alloced_slabs then ok m' else rest

-- The first new slab, or null.
unfoldable pub alloc_slabs : MemPool → ℕ → Run (MemPool × ℕ)
unfolding add_slabs
alloc_slabs m count =
    if leb m.max_slabs m.alloced_slabs
    then ok (m, 0)
    else add_slabs count m >>= λ m'. ok (m', if count == 0 then 0 else m.fresh_slab)
