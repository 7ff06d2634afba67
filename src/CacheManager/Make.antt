-- ===== src/CacheManager/Make.antt =====
-- ndk/cache_manager.cpp: make_cobj, and what an object more changes.
use cute_ndk.Base.{
  ℕ, ◌+◌, ◌≤◌, ◌<◌, ◌^◌, ◌≡◌, ◌≢◌, ◌⊎◌, inl, inr, refl, sym, ap, ◌∙◌, true, false, ltb, ◌==◌, ◌||◌,
  Option, none, some, Bool-cases, Returns, returns, Returns-if, Returns-bind, Returns-map, arith,
}
use native.Mathlib.Decide.{ℕ_discrete}
use cute_ndk.Base.Array.{upd, upd_self, upd_ne}
use cute_ndk.Base.Int.{pos, negsuc}
use cute_ndk.CacheDeque.Order.{with_last}
use cute_ndk.CacheManager.{CacheManager, CacheObject, QueueCalls, add_long}
use cute_ndk.CacheManager.Calls.{make_cobj}
use cute_ndk.CacheManager.Queue.{QueueLaws}
use cute_ndk.CacheManager.Sums.{sizes, sizes-next, sizes-cong, Each, Each-map}
use cute_ndk.CacheManager.Valid.{size_of, size_at, IsLive, IsManager, Kept}
use cute_ndk.CacheManager.Flush.{address}
use cute_ndk.CacheManager.Loop.{After, Left, all-Left, flush_until_correct}

abbrev flag : Option CacheObject → ℕ
flag none = 0
flag (some o) = 1

pub is_some : {o : CacheObject} {x : Option CacheObject} → x ≡ some o → x ≡ none → ⊥
is_some e f = omega (arith, ap flag (sym f ∙ e))

module _ {Q : Type 0} (calls : QueueCalls Q) (laws : QueueLaws calls) where
  -- The new object.
  abbrev pub created : ℕ → ℕ → ℕ → CacheObject
  created contents size ob = record {
    refcount = pos 0;
    size = size;
    contents = contents;
    observer = ob;
  }

  abbrev pub with_object : CacheManager Q → CacheObject → CacheManager Q
  with_object m o = record m { objects = upd m.objects m.fresh (some o); fresh = m.fresh + 1 }

  -- What make_cobj leaves: an object of a size that is allowed, beside which the water mark is below
  -- the higher mark, or at most the lower one; or none.
  pub data Making (m : CacheManager Q) (n : ℕ) (es : ℕ → ℕ × ℕ) (contents size ob : ℕ)
      (m' : CacheManager Q) (made : Option ℕ) : Type 0 where
    wrong_size :
        (m.cobj_max_size < size) ⊎ (size < m.cobj_min_size)
        → m' ≡ m
        → made ≡ none
        → Making m n es contents size ob m' made
    emptied :
        (a : After calls laws m m')
        → a.len ≡ 0
        → made ≡ none
        → m.cobj_min_size ≤ size
        → size ≤ m.cobj_max_size
        → m.high_water_mark < m.water_mark + size
        → Making m n es contents size ob m' made
    made_one :
        (m1 : CacheManager Q)
        → (a : After calls laws m m1) → Left n es a.len a.es
        → (m.water_mark + size ≤ m.high_water_mark → a.len ≡ n)
        → m' ≡ with_object m1 (created contents size ob)
        → made ≡ some m1.fresh
        → m.cobj_min_size ≤ size
        → size ≤ m.cobj_max_size
        → (m1.water_mark + size ≤ m.high_water_mark) ⊎ (m1.water_mark ≤ m.low_water_mark)
        → Making m n es contents size ob m' made

  module _ (m : CacheManager Q) (n : ℕ) (es : ℕ → ℕ × ℕ) (v : IsManager calls laws m n es) where
    unfoldable pub unchanged : After calls laws m m
    unchanged = record {
      len = n;
      es = es;
      valid = v;
      less = omega arith;
      kept = λ a o f g. f;
      same = (refl, refl, refl, omega arith);
    }

    small_sum : (size : ℕ) → size ≤ m.cobj_max_size → m.water_mark + size < 2 ^ 64
    small_sum size h = ground (arith, v.bound, v.limits, h)

    -- make_cobj, on a valid manager, returns; the loop ends.
    pub make_cobj-Making :
        (contents size ob : ℕ)
        → Returns
            (λ (m', made). Making m n es contents size ob m' made)
            (make_cobj calls m contents size ob)
    unfolding make_cobj unchanged
    make_cobj-Making contents size ob =
        Returns-if (ltb m.cobj_max_size size || ltb size m.cobj_min_size)
          (λ e. returns (wrong_size (ground (arith, e)) refl refl))
          (λ e.
            let fits : size ≤ m.cobj_max_size = ground (arith, e) in
            let some_size : m.cobj_min_size ≤ size = ground (arith, e) in
            Returns-bind
              {P = λ (m1, r).
                (a : After calls laws m m1) × Left n es a.len a.es
                × (m.water_mark + size ≤ m.high_water_mark → a.len ≡ n)
                × (((r ≡ pos 0)
                      × ((m1.water_mark + size ≤ m.high_water_mark)
                          ⊎ (m1.water_mark ≤ m.low_water_mark)))
                    ⊎ ((r ≡ negsuc 0) × (a.len ≡ 0) × (m.high_water_mark < m.water_mark + size)))}
              (Returns-if (ltb m.high_water_mark (add_long size m.water_mark))
                (λ t.
                  Returns-map
                    (flush_until_correct calls laws (calls.length m.priority_queue + 1) m n es v
                      (omega (arith, laws.length_law m.priority_queue n es v.queue)))
                    λ (m1, r) (a, left, c). (
                      a,
                      left,
                      λ h. absurd (ground (arith, t, h, small_sum size fits)),
                      elim c [
                        | inl (x, y) ↦ inl (x, inr y)
                        | inr (x, y) ↦ inr (x, y, ground (arith, t, small_sum size fits))
                      ],
                    ))
                (λ t. returns (
                  unchanged,
                  all-Left n es,
                  λ h. refl,
                  inl (refl, inl (ground (arith, t, small_sum size fits))),
                )))
              λ (m1, r) (a, left, un, c). elim c [
                | inl (x, y) ↦ rw x (returns (made_one m1 a left un refl refl some_size fits y))
                | inr (x, y, z) ↦ rw x (returns (emptied a y refl some_size fits z))
              ])

    -- An object is made, and nothing refers to it yet.
    module _ (objects : ℕ → Option CacheObject)
        (same : (a : ℕ) → m.fresh ≢ a → objects a ≡ m.objects a) where
      held_same : (k : ℕ) → k < n → objects (es k).1 ≡ m.objects (es k).1
      held_same k h = same (es k).1 λ e. omega (arith, (v.young k h).1, e)

      pub same-Kept : Kept m.objects objects
      same-Kept x o f g =
          same x (λ e. is_some (ap m.objects e ∙ f) (v.unborn m.fresh (omega arith))) ∙ f

      sizes_now : sizes (size_at objects) (m.fresh + 1) ≡ m.water_mark + size_at objects m.fresh
      sizes_now =
          let rest =
            sizes-cong (size_at objects) (size_at m.objects) m.fresh
              λ k h. ap size_of (same k λ e. omega (arith, h, e)) in
          omega (arith, sizes-next (size_at objects) m.fresh, rest, v.total)

      still_waiting : Each (λ a. IsLive objects a × (0 < a) × (a < m.fresh + 1)) m.pending_list
      still_waiting =
          Each-map m.pending_list
            (λ x ((o, f), a, b). ((o, same x (λ e. omega (arith, b, e)) ∙ f), a, omega (arith, b)))
            v.waiting

      unborn_still : (a : ℕ) → m.fresh + 1 ≤ a → objects a ≡ none
      unborn_still a h = same a (λ e. omega (arith, h, e)) ∙ v.unborn a (omega (arith, h))

      pub unused-IsManager :
          objects m.fresh ≡ none
          → IsManager calls laws (record m { objects = objects; fresh = m.fresh + 1 }) n es
      unused-IsManager gone = record {
        queue = v.queue;
        mapped = v.mapped;
        found = v.found;
        apart = v.apart;
        live = λ k h. let (o, f) = v.live k h in (o, held_same k h ∙ f);
        young = λ k h. let (a, b) = v.young k h in (a, omega (arith, b));
        waiting = still_waiting;
        distinct = v.distinct;
        separate = v.separate;
        started = omega arith;
        unborn = unborn_still;
        total = omega (arith, sizes_now, ap size_of gone);
        bound = v.bound;
        limits = v.limits;
      }

      module _ (key : ℕ) (q : Q) (o : CacheObject) (here : objects m.fresh ≡ some o)
          (absent : m.cache_map key ≡ none) (fits : o.size ≤ m.cobj_max_size)
          (room : (m.water_mark + o.size ≤ m.high_water_mark) ⊎ (m.water_mark ≤ m.low_water_mark))
          (queue : laws.IsQueue q (n + 1) (with_last n es (key, m.fresh))) where
        abbrev es' : ℕ → ℕ × ℕ
        es' = with_last n es (key, m.fresh)

        either :
            (P : ℕ × ℕ → Type 0) (k : ℕ)
            → k < n + 1
            → (k < n → P (es k))
            → P (key, m.fresh)
            → P (es' k)
        either P k h old new = elim (Bool-cases (k == n)) [
          | inl t ↦ rw t new
          | inr t ↦ rw t (old (ground (arith, t, h)))
        ]

        new_key : (k : ℕ) → k < n → key ≢ (es k).0
        new_key k h e = omega (arith, ap address (sym absent ∙ ap m.cache_map e ∙ v.mapped k h))

        found_now :
            (key' a : ℕ)
            → upd m.cache_map key (some m.fresh) key' ≡ some a
            → (k : ℕ) × (k < n + 1) × (es' k ≡ (key', a))
        found_now key' a h = elim (ℕ_discrete key key') [
          | yes e ↦
              let here : m.fresh ≡ a = omega (
                arith,
                ap address (
                    sym (upd_self m.cache_map key (some m.fresh))
                    ∙ ap (upd m.cache_map key (some m.fresh)) e
                    ∙ h),
              ) in
              let test : (n == n) ≡ true = ground arith in
              (n, omega arith, rw test (ap (λ x. (x, m.fresh)) e ∙ ap (λ x. (key', x)) here))
          | no e ↦
              let (k, l, g) =
                v.found key' a (sym (upd_ne m.cache_map key key' (some m.fresh) e) ∙ h) in
              let test : (k == n) ≡ false = ground (arith, l) in (k, omega (arith, l), rw test g)
        ]

        pub stored-IsManager :
            IsManager calls laws
              (record m {
                objects = objects;
                fresh = m.fresh + 1;
                priority_queue = q;
                cache_map = upd m.cache_map key (some m.fresh);
                water_mark = add_long m.water_mark o.size;
              })
              (n + 1)
              es'
        stored-IsManager =
            let size : size_at objects m.fresh ≡ o.size = ap size_of here in
            let sum : add_long m.water_mark o.size ≡ m.water_mark + o.size =
              omega (arith, small_sum o.size fits) in
            record {
              queue = queue;
              mapped = λ k h.
                  either (λ e. upd m.cache_map key (some m.fresh) e.0 ≡ some e.1) k h
                    (λ l.
                      upd_ne m.cache_map key (es k).0 (some m.fresh) (new_key k l) ∙ v.mapped k l)
                    (upd_self m.cache_map key (some m.fresh));
              found = found_now;
              apart = λ j k h l. ground (arith, v.apart j k, v.young j);
              live = λ k h.
                  either (λ e. IsLive objects e.1) k h
                    (λ l. let (u, f) = v.live k l in (u, held_same k l ∙ f)) (o, here);
              young = λ k h.
                  either (λ e. (0 < e.1) × (e.1 < m.fresh + 1)) k h
                    (λ l. let (a, b) = v.young k l in (a, omega (arith, b)))
                    (v.started, omega arith);
              waiting = still_waiting;
              distinct = v.distinct;
              separate = λ k h.
                  either (λ e. Each (λ x. x ≢ e.1) m.pending_list) k h (v.separate k)
                    (Each-map m.pending_list (λ x (l, a, b) e. omega (arith, b, e)) v.waiting);
              started = omega arith;
              unborn = unborn_still;
              total = omega (arith, sizes_now, size, sum);
              bound = ground (arith, room, fits, sum);
              limits = v.limits;
            }
