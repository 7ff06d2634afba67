-- ===== src/CacheManager/Reach.antt =====
-- ndk/cache_manager.cpp: the manager over any sequence of calls.
use cute_ndk.Base.{
  ℕ, ◌+◌, ◌*◌, ◌<◌, ◌^◌, ◌≡◌, inl, inr, refl, sym, ap, true, ltb, none, some, ok, Returns, returns,
  Returns-ok, arith,
}
use mathlib.Core.Path.{subst}
use cute_ndk.Base.Int.{ℤ, pos, ◌-ℤ◌}
use cute_ndk.CacheManager.{CacheManager, CacheObject, QueueCalls, no_objects, new_manager, release}
use cute_ndk.CacheManager.Calls.{flush_i, flush_all, put_i, get_i}
use cute_ndk.CacheDeque.Order.{with_last}
use cute_ndk.CacheManager.Sums.{sizes}
use cute_ndk.CacheManager.Flush.{address}
use cute_ndk.CacheManager.Queue.{QueueLaws}
use cute_ndk.CacheManager.Valid.{IsManager}
use cute_ndk.CacheManager.Loop.{flush_i_correct, flush_all_correct}
use cute_ndk.CacheManager.Put.{no_data, bad_size, no_room, known, stored, put_i_correct}
use cute_ndk.CacheManager.Get.{get_i_correct, moved, renewed-IsManager}

-- The managers that the calls lead to from a new one. A caller releases an object that is not
-- destroyed.
pub data Reached {Q : Type 0} (calls : QueueCalls Q) (new : Q) : CacheManager Q → Type 0 where
  at_start :
      (m : CacheManager Q) (min max high low : ℕ)
      → max < 2 ^ 31
      → high < 2048
      → low < 2048
      → new_manager new min max high low ≡ ok m
      → Reached calls new m
  by_put :
      (m : CacheManager Q) (key contents size ob cobj : ℕ) (r : CacheManager Q × ℤ × ℕ)
      → Reached calls new m
      → put_i calls m key contents size ob cobj ≡ ok r
      → Reached calls new r.0
  by_get :
      (m : CacheManager Q) (key : ℕ) (r : CacheManager Q × ℕ)
      → Reached calls new m
      → get_i calls m key ≡ ok r
      → Reached calls new r.0
  by_release :
      (m : CacheManager Q) (a : ℕ) (o : CacheObject) (m' : CacheManager Q)
      → Reached calls new m
      → m.objects a ≡ some o
      → release m a ≡ ok m'
      → Reached calls new m'
  by_flush :
      (m : CacheManager Q) (r : CacheManager Q × ℤ)
      → Reached calls new m
      → flush_i calls m ≡ ok r
      → Reached calls new r.0
  by_flush_all :
      (m : CacheManager Q) (r : CacheManager Q × ℤ)
      → Reached calls new m
      → flush_all calls m ≡ ok r
      → Reached calls new r.0

module _ {Q : Type 0} (calls : QueueCalls Q) (laws : QueueLaws calls) where
  -- A valid manager, with some objects in the cache.
  abbrev pub IsValid : CacheManager Q → Type 0
  IsValid m = (n : ℕ) × (es : ℕ → ℕ × ℕ) × IsManager calls laws m n es

  no_keys : (es : ℕ → ℕ × ℕ) (key a : ℕ) → none ≡ some a → (k : ℕ) × (k < 0) × (es k ≡ (key, a))
  no_keys es key a e = absurd (omega (arith, ap address e))

  empty-IsManager :
      (new : Q) (es : ℕ → ℕ × ℕ) (min max high low : ℕ)
      → laws.IsQueue new 0 es
      → max < 2 ^ 31
      → high < 2 ^ 31
      → low < 2 ^ 31
      → IsManager calls laws (no_objects new min max high low) 0 es
  unfolding sizes
  empty-IsManager new es min max high low q h t l = record {
    queue = q;
    mapped = λ k h. absurd (omega (arith, h));
    found = no_keys es;
    apart = λ j k h l. absurd (omega (arith, l));
    live = λ k h. absurd (omega (arith, h));
    young = λ k h. absurd (omega (arith, h));
    waiting = tt;
    distinct = tt;
    separate = λ k h. absurd (omega (arith, h));
    started = omega arith;
    unborn = λ a h. refl;
    total = refl;
    bound = inl (omega arith);
    limits = (omega (arith, t, h), omega (arith, l, h));
  }

  new_manager_correct :
      (new : Q) (es : ℕ → ℕ × ℕ) (min max high low : ℕ)
      → laws.IsQueue new 0 es
      → max < 2 ^ 31
      → high < 2048
      → low < 2048
      → Returns (λ m. IsManager calls laws m 0 es) (new_manager new min max high low)
  unfolding new_manager
  new_manager_correct new es min max high low q h t l =
      let high_ok : ltb (high * 1024 * 1024) (2 ^ 31) ≡ true = ground (arith, t) in
      let low_ok : ltb (low * 1024 * 1024) (2 ^ 31) ≡ true = ground (arith, l) in
      rw (high_ok, low_ok)
        (returns (
          empty-IsManager new es min max (high * 1024 * 1024) (low * 1024 * 1024) q h
            (omega (arith, t)) (omega (arith, l))))

  release_correct :
      (m : CacheManager Q) (a : ℕ) (o : CacheObject)
      → m.objects a ≡ some o
      → IsValid m
      → Returns IsValid (release m a)
  unfolding release
  release_correct m a o here (n, es, v) = rw here (
      returns (
        n,
        es,
        renewed-IsManager calls laws m n es v a o (record o { refcount = o.refcount -ℤ pos 1 }) refl
            here m.priority_queue es v.queue (λ k l. (k, l, refl)) (λ k l. (k, l, refl)) v.apart,
      ))

  still :
      (m : CacheManager Q) (r : CacheManager Q × ℤ × ℕ) (x : ℤ) (y : ℕ)
      → IsValid m
      → r ≡ (m, x, y)
      → IsValid r.0
  still m r x y v e = subst (λ z. IsValid z.0) (sym e) v

-- On every manager that the calls lead to from a new one, the queue and the map hold the same keys and
-- objects, no object is held twice, every object that is held is not destroyed, and the water mark is
-- the sum of the sizes of all objects that are not destroyed. It is at most the higher mark, or at most
-- the lower one and the size of one object. The sizes that are allowed are below 2 to the 31st and the
-- marks below 2048 MB.
pub Reached-IsValid :
    {Q : Type 0} (calls : QueueCalls Q) (laws : QueueLaws calls) (new : Q) (es : ℕ → ℕ × ℕ)
    → laws.IsQueue new 0 es
    → (m : CacheManager Q) → Reached calls new m
    → IsValid calls laws m
Reached-IsValid calls laws new es q _ (at_start m min max high low h t l e) =
    (0, es, Returns-ok (new_manager_correct calls laws new es min max high low q h t l) e)
Reached-IsValid calls laws new es q _ (by_put m key contents size ob cobj r p e) =
    let (n, fs, v) = Reached-IsValid calls laws new es q m p in
    elim (Returns-ok (put_i_correct calls laws m n fs key contents size ob cobj v) e) [
      | no_data _ e ↦ still calls laws m r _ _ (n, fs, v) e
      | bad_size _ _ e ↦ still calls laws m r _ _ (n, fs, v) e
      | no_room m' a _ _ _ e ↦ still calls laws m' r _ _ (a.len, a.es, a.valid) e
      | known m' _ a _ _ _ _ e ↦ still calls laws m' r _ _ (a.len, a.es, a.valid) e
      | stored _ s _ ↦ (s.len + 1, with_last s.len s.es (key, r.2), s.valid)
    ]
Reached-IsValid calls laws new es q _ (by_get m key r p e) =
    let (n, fs, v) = Reached-IsValid calls laws new es q m p in
    elim (Returns-ok (get_i_correct calls laws m n fs v key) e) [
      | inl (_, same, _, _) ↦ (n, fs, subst (λ x. IsManager calls laws x n fs) (sym same) v)
      | inr (inl (i, l, _, w, _)) ↦ (n, moved n i fs, w)
      | inr (inr (_, _, w, _)) ↦ (n, fs, w)
    ]
Reached-IsValid calls laws new es q _ (by_release m a o m' p here e) =
    Returns-ok (release_correct calls laws m a o here (Reached-IsValid calls laws new es q m p)) e
Reached-IsValid calls laws new es q _ (by_flush m r p e) =
    let (n, fs, v) = Reached-IsValid calls laws new es q m p in
    let (a, _) = Returns-ok (flush_i_correct calls laws m n fs v) e in (a.len, a.es, a.valid)
Reached-IsValid calls laws new es q _ (by_flush_all m r p e) =
    let (n, fs, v) = Reached-IsValid calls laws new es q m p in
    let (_, a, _, _) = Returns-ok (flush_all_correct calls laws m n fs v) e in
    (a.len, a.es, a.valid)
