-- ===== src/CacheDeque.antt =====
-- ndk/cache_deque.h: the queue of cache objects in the order in which they were used last.
pub mod Order
pub mod Entries
pub mod Items
pub mod Queue
mod Tests
use cute_ndk.Base.{
  ℕ, ◌+◌, ◌-◌, not, ◌&&◌, ◌==◌, if◌then◌else◌, Run, ok, ◌>>=◌, ◌>>◌, require, Option, none, some,
}
use cute_ndk.Base.Array.{upd}
use cute_ndk.Base.Int.{ℤ, pos, negsuc}
use cute_ndk.Links.{Links, get_next, get_prev, set_next, set_prev}

-- The deque, with the members of all items by address, the member `proxy_` of all cache objects,
-- and the first address that no item has had. A key is a number.
pub record CacheDeque : Type 0 where
  pub size : ℕ
  pub free_queue : ℕ
  pub deque_head : ℕ
  pub deque_tail : ℕ
  pub links : Links
  pub obj_id : ℕ → ℕ
  pub cobj : ℕ → ℕ
  pub proxy : ℕ → ℕ
  pub fresh : ℕ

unfoldable pub no_items : CacheDeque → CacheDeque
no_items q = record q { size = 0; free_queue = 0; deque_head = 0; deque_tail = 0 }

-- The constructor of an item, and `reset`.
unfoldable pub fill : CacheDeque → ℕ → ℕ → ℕ → Run CacheDeque
fill q item key cobj = do
  l ← set_next q.links item 0
  l' ← set_prev l item 0
  require (not (cobj == 0))
  ok (record q {
    links = l';
    obj_id = upd q.obj_id item key;
    cobj = upd q.cobj item cobj;
    proxy = upd q.proxy cobj item;
  })

unfoldable pub alloc_item : CacheDeque → ℕ → ℕ → Run (CacheDeque × ℕ)
unfolding fill
alloc_item q key cobj =
    let new : Run (CacheDeque × ℕ) = do
      q' ← fill (record q { fresh = q.fresh + 1 }) q.fresh key cobj
      ok (q', q.fresh)
    in let reuse : Run (CacheDeque × ℕ) = do
      next ← get_next q.links q.free_queue
      q' ← fill (record q { free_queue = next }) q.free_queue key cobj
      ok (q', q.free_queue)
      in if q.free_queue == 0 then new else reuse

unfoldable pub release_item : CacheDeque → ℕ → Run CacheDeque
release_item q item =
    if item == 0
    then ok q
    else do l ← set_next q.links item q.free_queue; ok (record q { links = l; free_queue = item })

unfoldable pub insert_i : CacheDeque → ℕ → Run CacheDeque
insert_i q item = do
  l ← set_prev q.links item q.deque_tail
  let behind = set_next l q.deque_tail item
  l' ← if not (q.deque_tail == 0) then behind else ok l
  ok (record q {
    links = l';
    deque_tail = item;
    deque_head = if q.deque_head == 0 then item else q.deque_head;
  })

unfoldable pub remove_i : CacheDeque → ℕ → Run CacheDeque
remove_i q item = do
  next ← get_next q.links item
  prev ← get_prev q.links item
  let middle : Run CacheDeque = do
    l ← set_next q.links prev next
    l' ← set_prev l next prev
    ok (record q { links = l' })
  let head : Run CacheDeque = do
    l ← set_prev q.links next 0
    ok (record q { links = l; deque_head = next })
  let tail : Run CacheDeque = do
    l ← set_next q.links prev 0
    ok (record q { links = l; deque_tail = prev })
  if not (next == 0) && not (prev == 0)
      then middle
      else if not (next == 0)
      then head
      else if not (prev == 0)
      then tail
      else ok (record q { deque_head = 0; deque_tail = 0 })

-- 0 for success.
unfoldable pub insert : CacheDeque → ℕ → ℕ → Run (CacheDeque × ℤ)
insert q key cobj = do
  (q', item) ← alloc_item q key cobj
  require (not (item == 0))
  q'' ← insert_i q' item
  ok (record q'' { size = q''.size + 1 }, pos 0)

-- `remove(key, cobj)`, behind the test for an empty deque, and the whole: the key and the object of
-- the first item.
unfoldable pub remove_front : CacheDeque → ℕ → Run (CacheDeque × Option (ℕ × ℕ))
remove_front q item = do
  q' ← remove_i q item
  q'' ← release_item (record q' { size = q'.size - 1 }) item
  ok (q'', some (q.obj_id item, q.cobj item))

unfoldable pub remove : CacheDeque → Run (CacheDeque × Option (ℕ × ℕ))
unfolding remove_front
remove q = if q.deque_head == 0 then ok (q, none) else remove_front q q.deque_head

-- `adjust(item)`; `acquire` is the method of the cache object, on a state of its own.
unfoldable pub adjust {ℓ} :
    {S : Type ℓ} → CacheDeque → ℕ → (ℕ → S → Run S) → S → Run (CacheDeque × S × ℤ)
adjust q item acquire state = if item == 0 then ok (q, state, negsuc 0) else do
  q' ← remove_i q item
  state' ← acquire (q'.cobj item) state
  l ← set_next q'.links item 0
  q'' ← insert_i (record q' { links = l }) item
  ok (q'', state', pos 0)
