-- ===== src/CacheManager/Calls.antt =====
-- ndk/cache_manager.cpp: what the calls do with the queue.
use cute_ndk.Base.{
  ℕ, zero, suc, ◌+◌, ltb, ◌==◌, if◌then◌else◌, not, ◌||◌, Run, ok, out_of_fuel, ◌>>=◌, Option, none,
  some,
}
use cute_ndk.Base.Array.{upd}
use cute_ndk.Base.Int.{ℤ, pos, negsuc}
use cute_ndk.CacheManager.{
  CacheManager, CacheObject, QueueCalls, acquire, add_long, destroy, equals_zero, find_pending,
  flush_got, flush_pending_objs, pointee,
}

module _ {Q : Type 0} (calls : QueueCalls Q) where
  -- The second part of flush_i, which is the round of the loop of flush_all: the first object of the
  -- queue, or -1 where there is none.
  unfoldable pub flush_next : CacheManager Q → Run (CacheManager Q × ℤ)
  unfolding flush_got
  flush_next m = do
    (q, got) ← calls.remove m.priority_queue
    flush_got (record m { priority_queue = q }) got

  unfoldable pub flush_i : CacheManager Q → Run (CacheManager Q × ℤ)
  unfolding flush_pending_objs flush_next
  flush_i m = do
    (m1, r) ← flush_pending_objs m
    let next = flush_next m1
    if equals_zero r then ok (m1, pos 0) else next

  -- The second part of flush_all. The fuel bounds the objects in the queue.
  unfoldable pub flush_queue : ℕ → CacheManager Q → Run (CacheManager Q)
  unfolding flush_next
  flush_queue zero m = out_of_fuel
  flush_queue (suc k) m = do
    (m1, r) ← flush_next m
    let rest = flush_queue k m1
    if equals_zero r then rest else ok m1

  unfoldable pub flush_all : CacheManager Q → Run (CacheManager Q × ℤ)
  unfolding flush_pending_objs flush_queue
  flush_all m = do
    (m1, _) ← flush_pending_objs m
    m2 ← flush_queue (calls.length m1.priority_queue + 1) m1
    ok (m2, pos 0)

  -- The loop of make_cobj: 0, or -1 where nothing can be flushed.
  unfoldable pub flush_until : ℕ → CacheManager Q → Run (CacheManager Q × ℤ)
  unfolding flush_i
  flush_until zero m = out_of_fuel
  flush_until (suc k) m = do
    (m1, r) ← flush_i m
    let rest = flush_until k m1
    if not (equals_zero r)
        then ok (m1, r)
        else if ltb m1.low_water_mark m1.water_mark
        then rest
        else ok (m1, pos 0)

  -- The manager and the new object, or none for -1.
  unfoldable pub make_cobj : CacheManager Q → ℕ → ℕ → ℕ → Run (CacheManager Q × Option ℕ)
  unfolding flush_until
  make_cobj m contents size ob =
      let new : CacheObject = record {
        refcount = pos 0;
        size = size;
        contents = contents;
        observer = ob;
      } in
      let room : Run (CacheManager Q × ℤ) = flush_until (calls.length m.priority_queue + 1) m in
      let make : Run (CacheManager Q × Option ℕ) = do
        (m1, r) ← if ltb m.high_water_mark (add_long size m.water_mark) then room else ok (m, pos 0)
        ok (
            if equals_zero r
            then (
              record m1 { objects = upd m1.objects m1.fresh (some new); fresh = m1.fresh + 1 },
              some m1.fresh,
            )
            else (m1, none))
      in if ltb m.cobj_max_size size || ltb size m.cobj_min_size then ok (m, none) else make

  -- The rest of put_i for the object that make_cobj has made, where the map knows the key already, and
  -- where it does not: what put_i returns, and the pointer to the object.
  unfoldable pub put_known : CacheManager Q → ℕ → Run (CacheManager Q × ℤ × ℕ)
  put_known m a = do m1 ← destroy m a; ok (m1, negsuc 0, 0)

  unfoldable pub put_new : CacheManager Q → ℕ → ℕ → Run (CacheManager Q × ℤ × ℕ)
  put_new m key a = do
    objects ← acquire a m.objects
    (q, r) ← calls.insert m.priority_queue key a
    let m1 = record m { objects = objects; priority_queue = q }
    let failed : Run (CacheManager Q × ℤ × ℕ) = do m2 ← destroy m1 a; ok (m2, negsuc 0, 0)
    let insert_done : Run (CacheManager Q × ℤ × ℕ) = do
      o ← pointee (objects a)
      ok (
        record m1 {
          cache_map = upd m.cache_map key (some a);
          water_mark = add_long m.water_mark o.size;
        },
        pos 0,
        a,
      )
    if equals_zero r then insert_done else failed

  unfoldable pub put_made :
      CacheManager Q → ℕ → Option ℕ → Option ℕ → ℕ → Run (CacheManager Q × ℤ × ℕ)
  unfolding put_known put_new
  put_made m key none there cobj = ok (m, negsuc 0, cobj)
  put_made m key (some a) (some b) cobj = put_known m a
  put_made m key (some a) none cobj = put_new m key a

  unfoldable pub put_i : CacheManager Q → ℕ → ℕ → ℕ → ℕ → ℕ → Run (CacheManager Q × ℤ × ℕ)
  unfolding make_cobj put_made
  put_i m key contents size ob cobj =
      let put : Run (CacheManager Q × ℤ × ℕ) = do
        (m1, made) ← make_cobj m contents size ob
        put_made m1 key made (m1.cache_map key) cobj
      in if contents == 0 then ok (m, negsuc 0, cobj) else put

  -- get_pending_obj, and get_i: the object, or null.
  unfoldable pub get_found : CacheManager Q → Option ℕ → Run (CacheManager Q × ℕ)
  get_found m none = ok (m, 0)
  get_found m (some a) = acquire a m.objects >>= λ objects. ok (record m { objects = objects }, a)

  unfoldable pub get_pending_obj : CacheManager Q → ℕ → Run (CacheManager Q × ℕ)
  unfolding get_found
  get_pending_obj m key = get_found m (find_pending key m.pending_list)

  unfoldable pub get_cached : CacheManager Q → ℕ → Run (CacheManager Q × ℕ)
  get_cached m a = do
    _ ← pointee (m.objects a)
    (q, objects, _) ←
        calls.adjust m.priority_queue (calls.proxy m.priority_queue a) acquire m.objects
    ok (record m { priority_queue = q; objects = objects }, a)

  unfoldable pub get_at : CacheManager Q → ℕ → Option ℕ → Run (CacheManager Q × ℕ)
  unfolding get_pending_obj get_cached
  get_at m key none = get_pending_obj m key
  get_at m key (some a) = get_cached m a

  unfoldable pub get_i : CacheManager Q → ℕ → Run (CacheManager Q × ℕ)
  unfolding get_at
  get_i m key = get_at m key (m.cache_map key)
