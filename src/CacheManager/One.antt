-- ===== src/CacheManager/One.antt =====
-- ndk/cache_manager.cpp: an object leaves the queue.
use cute_ndk.Base.{
  ℕ, ◌+◌, ◌-◌, ◌≤◌, ◌<◌, ◌≡◌, ◌≢◌, inl, inr, refl, sym, ap, ◌∙◌, false, ltb, Bool-cases, Option,
  none, some, List, Returns, returns, arith,
}
use mathlib.Core.Path.{subst}
use native.Mathlib.Decide.{ℕ_discrete}
use cute_ndk.Base.Array.{upd, upd_self, upd_ne}
use cute_ndk.CacheDeque.Order.{without}
use cute_ndk.CacheManager.{
  CacheManager, CacheObject, QueueCalls, equals_zero, sub_long, insert_pending, destroy, drop_i,
  flush_one,
}
use cute_ndk.CacheManager.Insert.{insert_pending-Each, insert_pending-Distinct}
use cute_ndk.CacheManager.Queue.{QueueLaws}
use cute_ndk.CacheManager.Sums.{sizes, Each, Each-both, Distinct}
use cute_ndk.CacheManager.Valid.{size_at, IsLive, IsManager, Kept, sizes-destroyed}
use cute_ndk.CacheManager.Pending.{drop-ok, equals_zero-yes, sub_long-ok, refcount_of}
use cute_ndk.CacheManager.Flush.{Same, address, small}

module _ {Q : Type 0} (calls : QueueCalls Q) (laws : QueueLaws calls) where
  module _ (m : CacheManager Q) (n : ℕ) (es : ℕ → ℕ × ℕ) (v : IsManager calls laws m n es) where
    module _ (more : 0 < n) (q : Q) (queue : laws.IsQueue q (n - 1) (without 0 es)) where
      abbrev first : ℕ
      first = (es 0).1

      abbrev popped : CacheManager Q
      popped = record m { priority_queue = q }

      -- What flush_one leaves of an object that the queue has given away.
      pub record Flushed (m' : CacheManager Q) : Type 0 where
        pub valid : IsManager calls laws m' (n - 1) (without 0 es)
        pub less : m'.water_mark ≤ m.water_mark
        pub kept : Kept m.objects m'.objects
        pub same : Same m m'

      shifted : (k : ℕ) → without 0 es k ≡ es (k + 1)
      shifted k = let test : ltb k 0 ≡ false = ground arith in rw test refl

      keys_apart : (k : ℕ) → k < n → 0 < k → (es 0).0 ≢ (es k).0
      keys_apart k h l e =
          v.apart 0 k l h
            (omega (arith, ap address (sym (v.mapped 0 more) ∙ ap m.cache_map e ∙ v.mapped k h)))

      others : (k : ℕ) → k < n → 0 < k → first ≢ (es k).1
      others k h l = v.apart 0 k l h

      still_found :
          (key a : ℕ)
          → upd m.cache_map (es 0).0 none key ≡ some a
          → (k : ℕ) × (k < n - 1) × (without 0 es k ≡ (key, a))
      still_found key a h = elim (ℕ_discrete (es 0).0 key) [
        | yes e ↦ absurd (
            omega (
              arith,
              ap address (
                  sym (upd_self m.cache_map (es 0).0 none)
                  ∙ ap (upd m.cache_map (es 0).0 none) e
                  ∙ h),
            ))
        | no e ↦
            let (k, l, g) = v.found key a (sym (upd_ne m.cache_map (es 0).0 key none e) ∙ h) in
            elim (ℕ_discrete k 0) [
              | yes z ↦ absurd (e (ap (λ x. (es x).0) (sym z) ∙ ap (λ x. x.0) g))
              | no z ↦
                  let back : k - 1 + 1 ≡ k = omega (arith, z) in
                  (k - 1, omega (arith, l, z), shifted (k - 1) ∙ ap es back ∙ g)
            ]
      ]

      -- What does not depend on whether the object is destroyed.
      popped-IsManager :
          (objects : ℕ → Option CacheObject) (pending : List (ℕ × ℕ)) (water : ℕ) (d : List ℕ)
          → ((a : ℕ) → first ≢ a → objects a ≡ m.objects a)
          → Each (λ a. IsLive objects a × (0 < a) × (a < m.fresh)) pending
          → Distinct pending
          → ((a : ℕ) → first ≢ a → Each (λ x. x ≢ a) m.pending_list → Each (λ x. x ≢ a) pending)
          → water ≡ sizes (size_at objects) m.fresh
          → water ≤ m.water_mark
          → IsManager calls laws
              (record popped {
                cache_map = upd m.cache_map (es 0).0 none;
                objects = objects;
                dropped = d;
                water_mark = water;
                pending_list = pending;
              })
              (n - 1)
              (without 0 es)
      popped-IsManager objects pending water d same waiting distinct separate total less = record {
        queue = queue;
        mapped = λ k h.
            subst (λ e. upd m.cache_map (es 0).0 none e.0 ≡ some e.1) (sym (shifted k))
              (upd_ne m.cache_map (es 0).0 (es (k + 1)).0 none
                  (keys_apart (k + 1) (omega (arith, h)) (omega arith))
                ∙ v.mapped (k + 1) (omega (arith, h)));
        found = still_found;
        apart = λ j k h l. ground (arith, v.apart (j + 1) (k + 1));
        live = λ k h.
            let (o, f) = v.live (k + 1) (omega (arith, h)) in
            subst (λ e. IsLive objects e.1) (sym (shifted k))
              (o, same (es (k + 1)).1 (others (k + 1) (omega (arith, h)) (omega arith)) ∙ f);
        young = λ k h.
            subst (λ e. (0 < e.1) × (e.1 < m.fresh)) (sym (shifted k))
              (v.young (k + 1) (omega (arith, h)));
        waiting = waiting;
        distinct = distinct;
        separate = λ k h.
            subst (λ e. Each (λ x. x ≢ e.1) pending) (sym (shifted k))
              (separate (es (k + 1)).1 (others (k + 1) (omega (arith, h)) (omega arith))
                (v.separate (k + 1) (omega (arith, h))));
        started = v.started;
        unborn = λ a h. same a (λ e. omega (arith, (v.young 0 more).1, h, e)) ∙ v.unborn a h;
        total = total;
        bound = ground (arith, v.bound, less);
        limits = v.limits;
      }

      used_Flushed :
          (o : CacheObject)
          → m.objects first ≡ some o
          → Flushed (record popped {
            cache_map = upd m.cache_map (es 0).0 none;
            pending_list = insert_pending (es 0).0 first m.pending_list;
          })
      used_Flushed o here =
          let pending = insert_pending (es 0).0 first m.pending_list in
          record {
            valid =
                popped-IsManager m.objects pending m.water_mark m.dropped (λ a h. refl)
                  (insert_pending-Each (λ a. IsLive m.objects a × (0 < a) × (a < m.fresh)) (es 0).0
                    first m.pending_list ((o, here), (v.young 0 more).0, (v.young 0 more).1)
                    v.waiting)
                  (insert_pending-Distinct (es 0).0 first m.pending_list (v.separate 0 more)
                    v.distinct)
                  (λ a h s. insert_pending-Each (λ y. y ≢ a) (es 0).0 first m.pending_list h s)
                  v.total (omega arith);
            less = omega arith;
            kept = λ a u g h. g;
            same = (refl, refl, refl, omega arith);
          }

      -- An object that is not in use is destroyed; one that is in use is pending then.
      pub flush_one-Flushed : Returns Flushed (flush_one popped (es 0).0 first)
      unfolding flush_one drop_i destroy
      flush_one-Flushed =
          let (o, here) = v.live 0 more in
          let (low, young) = v.young 0 more in
          let sum = sizes-destroyed m.objects m.fresh first o young here in
          let water : sub_long m.water_mark o.size ≡ m.water_mark - o.size =
            sub_long-ok m.water_mark o.size (omega (arith, v.total, sum))
              (small calls laws m n es v) in
          let erased : CacheManager Q = record popped {
            cache_map = upd m.cache_map (es 0).0 none;
          } in
          let (d, f) = drop-ok erased first o here in
          elim (Bool-cases (equals_zero o.refcount)) [
            | inl t ↦
                let objects = upd m.objects first none in
                rw (here, t, f, here)
                  (returns (record {
                    valid =
                        popped-IsManager objects m.pending_list (sub_long m.water_mark o.size) d
                          (λ a h. upd_ne m.objects first a none h)
                          (Each-both m.pending_list
                            (λ x ((u, e), a, b) h.
                              ((u, upd_ne m.objects first x none (λ y. h (sym y)) ∙ e), a, b))
                            v.waiting (v.separate 0 more))
                          v.distinct (λ a h s. s) (omega (arith, water, v.total, sum))
                          (omega (arith, water));
                    less = omega (arith, water);
                    kept = λ a u g h.
                        upd_ne m.objects first a none (λ x. h (
                          ap refcount_of (sym g ∙ ap m.objects (sym x) ∙ here)
                          ∙ equals_zero-yes o.refcount t))
                        ∙ g;
                    same = (refl, refl, refl, omega arith);
                  }))
            | inr t ↦ rw (here, t) (returns (used_Flushed o here))
          ]
