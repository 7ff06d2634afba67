-- ===== src/CacheManager/Flush.antt =====
-- ndk/cache_manager.cpp: flush_pending_objs, flush_i and the loop of make_cobj.
use cute_ndk.Base.{
  ℕ, ◌+◌, ◌≤◌, ◌<◌, ◌^◌, ◌≡◌, ◌≢◌, ◌⊎◌, inl, inr, refl, sym, ap, ◌∙◌, true, leb, Bool-cases,
  if◌then◌else◌, Option, none, some, List, [], ◌∷◌, Returns, returns, Returns-if, Returns-bind,
  arith,
}
use mathlib.Core.Path.{subst}
use cute_ndk.Base.Int.{ℤ, pos, negsuc}
use cute_ndk.CacheManager.{CacheManager, CacheObject, QueueCalls, no_pending, flush_pending_objs}
use cute_ndk.CacheManager.Queue.{QueueLaws}
use cute_ndk.CacheManager.Sums.{Each, Each-map, Each-both}
use cute_ndk.CacheManager.Valid.{IsManager, Kept}
use cute_ndk.CacheManager.Pending.{Swept, sweep-Swept}

empty-Each : (P : ℕ → Type 0) (l : List (ℕ × ℕ)) → no_pending l ≡ true → Each P l
empty-Each P [] e = tt
empty-Each P (x ∷ l) e = absurd (ground (arith, e))

abbrev pub address : Option ℕ → ℕ
address none = 0
address (some a) = a + 1

-- What no flush changes.
abbrev pub Same : {Q : Type 0} → CacheManager Q → CacheManager Q → Type 0
Same m m' =
    (m'.cobj_max_size ≡ m.cobj_max_size)
    × (m'.high_water_mark ≡ m.high_water_mark)
    × (m'.low_water_mark ≡ m.low_water_mark)
    × (m.fresh ≤ m'.fresh)

module _ {Q : Type 0} (calls : QueueCalls Q) (laws : QueueLaws calls) where
  module _ (m : CacheManager Q) (n : ℕ) (es : ℕ → ℕ × ℕ) (v : IsManager calls laws m n es) where
    pub small : m.water_mark < 2 ^ 64
    small = ground (arith, v.bound, v.limits)

    swept-IsManager :
        (r : CacheManager Q × List (ℕ × ℕ))
        → Swept m m.pending_list r
        → IsManager calls laws (record r.0 { pending_list = r.1 }) n es
    swept-IsManager r s =
        let same : (k : ℕ) → k < n → r.0.objects (es k).1 ≡ m.objects (es k).1 =
          λ k h. s.outside (es k).1 (v.separate k h) in
        subst (λ y. IsManager calls laws (record y { pending_list = r.1 }) n es) (sym s.rest)
          (record {
            queue = v.queue;
            mapped = v.mapped;
            found = v.found;
            apart = v.apart;
            live = λ k h. let (o, f) = v.live k h in (o, same k h ∙ f);
            young = v.young;
            waiting =
                Each-both r.1 (λ x (o, f, z) (a, b). ((o, f), a, b)) s.used
                  (s.part (λ a. (0 < a) × (a < m.fresh))
                    (Each-map m.pending_list (λ x (l, a, b). (a, b)) v.waiting));
            distinct = s.distinct v.distinct;
            separate = λ k h. s.part (λ a. a ≢ (es k).1) (v.separate k h);
            started = v.started;
            unborn = λ a h.
                s.outside a
                  (Each-map m.pending_list (λ x (l, b, c) e. omega (arith, c, h, e)) v.waiting)
                ∙ v.unborn a h;
            total = s.total;
            bound = ground (arith, v.bound, s.less);
            limits = v.limits;
          })

    -- What flush_pending_objs leaves.
    pub record PendingFlushed (r : CacheManager Q × ℤ) : Type 0 where
      pub valid : IsManager calls laws r.0 n es
      pub less : r.0.water_mark ≤ m.water_mark
      pub kept : Kept m.objects r.0.objects
      pub same : Same m r.0
      pub queue : r.0.priority_queue ≡ m.priority_queue
      pub used :
          Each
            (λ a. (o : CacheObject) × (r.0.objects a ≡ some o) × (o.refcount ≢ pos 0))
            r.0.pending_list
      pub enough : ((r.1 ≡ pos 0) × (r.0.water_mark ≤ m.low_water_mark)) ⊎ (r.1 ≡ negsuc 0)

    -- flush_pending_objs, on a valid manager, leaves only objects in use among the pending ones, and
    -- changes none that is in use; the water mark goes down by the sizes of those that it destroys. It
    -- returns 0 only where the water mark is at most the lower one then.
    pub flush_pending_objs_correct : Returns PendingFlushed (flush_pending_objs m)
    unfolding flush_pending_objs
    flush_pending_objs_correct =
        Returns-if (no_pending m.pending_list)
          (λ e. returns (record {
            valid = v;
            less = omega arith;
            kept = λ a o f g. f;
            same = (refl, refl, refl, omega arith);
            queue = refl;
            used = empty-Each _ m.pending_list e;
            enough = inr refl;
          }))
          (λ e.
            Returns-bind
              (sweep-Swept m.pending_list m (Each-map m.pending_list (λ x (l, a, b). l) v.waiting)
                (Each-map m.pending_list (λ x (l, a, b). b) v.waiting) v.distinct v.total small)
              λ r s. returns (record {
                valid = swept-IsManager r s;
                less = s.less;
                kept = s.kept;
                same = (
                  ap (λ y. y.cobj_max_size) s.rest,
                  ap (λ y. y.high_water_mark) s.rest,
                  ap (λ y. y.low_water_mark) s.rest,
                  ground (arith, ap (λ y. y.fresh) s.rest),
                );
                queue = ap (λ y. y.priority_queue) s.rest;
                used = s.used;
                enough = elim (Bool-cases (leb r.0.water_mark r.0.low_water_mark)) [
                  | inl t ↦ inl (
                    ap (λ b. if b then pos 0 else negsuc 0) t,
                    ground (arith, t, ap (λ y. y.low_water_mark) s.rest),
                  )
                  | inr t ↦ inr (ap (λ b. if b then pos 0 else negsuc 0) t)
                ];
              }))
