-- ===== src/CacheManager/Get.antt =====
-- ndk/cache_manager.cpp: get_i.
use cute_ndk.Base.{
  ℕ, ◌+◌, ◌-◌, ◌<◌, ◌≡◌, ◌≢◌, ◌⊎◌, inl, inr, refl, sym, ap, ◌∙◌, ltb, ◌==◌, if◌then◌else◌,
  Bool-cases, Option, none, some, List, [], ◌∷◌, Returns, returns, Returns-bind, Returns-map, arith,
}
use mathlib.Core.Path.{subst}
use native.Mathlib.Decide.{ℕ_discrete}
use cute_ndk.Base.Array.{upd, upd_self, upd_ne}
use cute_ndk.Base.Int.{pos, ◌+ℤ◌}
use cute_ndk.CacheDeque.Order.{with_last, without}
use cute_ndk.CacheManager.{CacheManager, CacheObject, QueueCalls, acquire, find_pending}
use cute_ndk.CacheManager.Calls.{get_found, get_pending_obj, get_cached, get_at, get_i}
use cute_ndk.CacheManager.Queue.{QueueLaws}
use cute_ndk.CacheManager.Sums.{sizes-cong, Each, Each-map}
use cute_ndk.CacheManager.Valid.{size_of, size_at, IsLive, IsManager}
use cute_ndk.CacheManager.Flush.{address}
use cute_ndk.CacheManager.Make.{is_some}

-- The object of the place `i` is moved behind the others.
abbrev pub moved : ℕ → ℕ → (ℕ → ℕ × ℕ) → ℕ → ℕ × ℕ
moved n i es = with_last (n - 1) (without i es) (es i)

-- The object has a user more.
abbrev pub more_used : CacheObject → CacheObject
more_used o = record o { refcount = o.refcount +ℤ pos 1 }

abbrev pub Acquired : {Q : Type 0} → CacheManager Q → ℕ → CacheManager Q → Type 0
Acquired m a m' =
    (o : CacheObject) × (m.objects a ≡ some o)
    × (m'.objects ≡ upd m.objects a (some (more_used o)))
    × (m'.cache_map ≡ m.cache_map)
    × (m'.water_mark ≡ m.water_mark)

acquire-ok :
    (objects : ℕ → Option CacheObject) (a : ℕ) (o : CacheObject)
    → objects a ≡ some o
    → Returns (λ x. x ≡ upd objects a (some (more_used o))) (acquire a objects)
unfolding acquire
acquire-ok objects a o e = rw e (returns refl)

found_Each :
    (P : ℕ → Type 0) (key a : ℕ) (l : List (ℕ × ℕ)) → Each P l → find_pending key l ≡ some a → P a
unfolding find_pending
found_Each P key a [] h e = absurd (omega (arith, ap address e))
found_Each P key a (x ∷ l) (h, t) e =
    let rest = find_pending key l in
    elim (Bool-cases (key == x.0)) [
      | inl b ↦
          let same : some x.1 ≡ some a = sym (ap (λ y. if y then some x.1 else rest) b) ∙ e in
          subst P (omega (arith, ap address same)) h
      | inr b ↦ found_Each P key a l t (sym (ap (λ y. if y then some x.1 else rest) b) ∙ e)
    ]

module _ {Q : Type 0} (calls : QueueCalls Q) (laws : QueueLaws calls) (m : CacheManager Q) (n : ℕ)
    (es : ℕ → ℕ × ℕ) (v : IsManager calls laws m n es) where
  module _ (a : ℕ) (o o' : CacheObject) (sized : o'.size ≡ o.size) (here : m.objects a ≡ some o)
      (q : Q) (es' : ℕ → ℕ × ℕ) (queue : laws.IsQueue q n es')
      (from : (k : ℕ) → k < n → (j : ℕ) × (j < n) × (es' k ≡ es j))
      (to : (j : ℕ) → j < n → (k : ℕ) × (k < n) × (es' k ≡ es j))
      (apart : (j k : ℕ) → j < k → k < n → (es' j).1 ≢ (es' k).1) where
    abbrev objects : ℕ → Option CacheObject
    objects = upd m.objects a (some o')

    same_size : (x : ℕ) → size_at objects x ≡ size_at m.objects x
    same_size x = elim (ℕ_discrete a x) [
      | yes e ↦
          ap (size_at objects) (sym e)
          ∙ ap size_of (upd_self m.objects a (some o'))
          ∙ sized
          ∙ sym (ap size_of here)
          ∙ ap (size_at m.objects) e
      | no e ↦ ap size_of (upd_ne m.objects a x (some o') e)
    ]

    live : (x : ℕ) → IsLive m.objects x → IsLive objects x
    live x (u, f) = elim (ℕ_discrete a x) [
      | yes e ↦ (o', ap objects (sym e) ∙ upd_self m.objects a (some o'))
      | no e ↦ (u, upd_ne m.objects a x (some o') e ∙ f)
    ]

    pub renewed-IsManager :
        IsManager calls laws (record m { objects = objects; priority_queue = q }) n es'
    renewed-IsManager = record {
      queue = queue;
      mapped = λ k h.
          let (j, l, e) = from k h in
          subst (λ x. m.cache_map x.0 ≡ some x.1) (sym e) (v.mapped j l);
      found = λ key x e. let (j, l, g) = v.found key x e in let (k, h, f) = to j l in (k, h, f ∙ g);
      apart = apart;
      live = λ k h.
          let (j, l, e) = from k h in
          subst (λ x. IsLive objects x.1) (sym e) (live (es j).1 (v.live j l));
      young = λ k h.
          let (j, l, e) = from k h in
          subst (λ x. (0 < x.1) × (x.1 < m.fresh)) (sym e) (v.young j l);
      waiting = Each-map m.pending_list (λ x (l, b, c). (live x l, b, c)) v.waiting;
      distinct = v.distinct;
      separate = λ k h.
          let (j, l, e) = from k h in
          subst (λ x. Each (λ y. y ≢ x.1) m.pending_list) (sym e) (v.separate j l);
      started = v.started;
      unborn = λ x h.
          upd_ne m.objects a x (some o') (λ e. is_some here (v.unborn a (omega (arith, h, e))))
          ∙ v.unborn x h;
      total =
          v.total
          ∙ sizes-cong (size_at m.objects) (size_at objects) m.fresh (λ x h. sym (same_size x));
      bound = v.bound;
      limits = v.limits;
    }

  -- The object of the place `i` is in the cache.
  module _ (i : ℕ) (h : i < n) where
    moved_from : (k : ℕ) → k < n → (j : ℕ) × (j < n) × (moved n i es k ≡ es j)
    moved_from k l = (
      if k == n - 1 then i else if ltb k i then k else k + 1,
      ground (arith, l, h),
      ground (arith, l, h),
    )

    moved_to : (j : ℕ) → j < n → (k : ℕ) × (k < n) × (moved n i es k ≡ es j)
    moved_to j l = (
      if j == i then n - 1 else if ltb j i then j else j - 1,
      ground (arith, l, h),
      ground (arith, l, h, ap es (back j)),
    )
      where
        back : (j : ℕ) → (if j == 0 then 0 else j - 1 + 1) ≡ j
        back j = ground arith

    moved_apart : (j k : ℕ) → j < k → k < n → (moved n i es j).1 ≢ (moved n i es k).1
    moved_apart j k l g = ground (
      arith,
      h,
      v.apart j k,
      v.apart j (k + 1),
      v.apart (j + 1) (k + 1),
      v.apart j i,
      v.apart i (j + 1),
    )

    cached_correct :
        Returns
          (λ (m', a).
            (a ≡ (es i).1) × IsManager calls laws m' n (moved n i es) × Acquired m (es i).1 m')
          (get_cached calls m (es i).1)
    unfolding get_cached
    cached_correct =
        let (o, here) = v.live i h in
        rw here (
          Returns-bind
            (laws.adjust_law m.priority_queue n es v.queue i h acquire m.objects
              (acquire-ok m.objects (es i).1 o here))
            λ (q, objects', r) (z, p, queue). returns (
              refl,
              subst
                  (λ x.
                    IsManager calls laws (record m { objects = x; priority_queue = q }) n
                      (moved n i es))
                  (sym p)
                  (renewed-IsManager (es i).1 o (more_used o) refl here q (moved n i es) queue
                    moved_from moved_to moved_apart),
              (o, refl, p, refl, refl),
            ))

  -- What get_i gives, and leaves.
  abbrev pub Got : ℕ → CacheManager Q × ℕ → Type 0
  Got key (m', a) =
      ((a ≡ 0) × (m' ≡ m) × (m.cache_map key ≡ none) × (find_pending key m.pending_list ≡ none))
      ⊎ (((i : ℕ) × (i < n)
            × (es i ≡ (key, a))
            × IsManager calls laws m' n (moved n i es)
            × Acquired m a m')
          ⊎ ((m.cache_map key ≡ none)
              × (find_pending key m.pending_list ≡ some a)
              × IsManager calls laws m' n es
              × Acquired m a m'))

  pending_Got :
      (key : ℕ)
      → m.cache_map key ≡ none
      → (x : Option ℕ) → find_pending key m.pending_list ≡ x
      → Returns (Got key) (get_found calls m x)
  unfolding get_found
  pending_Got key e none f = returns (inl (refl, refl, e, f))
  pending_Got key e (some a) f =
      let ((o, here), b, c) =
        found_Each (λ x. IsLive m.objects x × (0 < x) × (x < m.fresh)) key a m.pending_list
          v.waiting f in
      Returns-bind (acquire-ok m.objects a o here) λ objects' p. returns (
        inr (
          inr (
            e,
            f,
            subst (λ x. IsManager calls laws (record m { objects = x }) n es) (sym p)
                (renewed-IsManager a o (more_used o) refl here m.priority_queue es v.queue
                  (λ k l. (k, l, refl)) (λ k l. (k, l, refl)) v.apart),
            (o, here, p, refl, refl),
          )))

  cached_Got : (key a : ℕ) → m.cache_map key ≡ some a → Returns (Got key) (get_cached calls m a)
  cached_Got key a e =
      let (i, l, g) = v.found key a e in
      let same : (es i).1 ≡ a = ap (λ x. x.1) g in
      subst (λ x. Returns (Got key) (get_cached calls m x)) same
        (Returns-map (cached_correct i l) λ (m', b) (z, w, c). inr (
          inl (
            i,
            l,
            g ∙ ap (λ x. (key, x)) (sym same ∙ sym z),
            w,
            subst (λ x. Acquired m x m') (sym z) c,
          )))

  at_Got : (key : ℕ) (x : Option ℕ) → m.cache_map key ≡ x → Returns (Got key) (get_at calls m key x)
  unfolding get_at get_pending_obj
  at_Got key none e = pending_Got key e (find_pending key m.pending_list) refl
  at_Got key (some a) e = cached_Got key a e

  -- get_i, on a valid manager, returns and leaves a valid one. It finds the object of the key in the
  -- cache and moves it behind the others, as the one used most recently, or among the pending objects,
  -- and the object has a user more; or it finds none, and changes nothing.
  pub get_i_correct : (key : ℕ) → Returns (Got key) (get_i calls m key)
  unfolding get_i
  get_i_correct key = at_Got key (m.cache_map key) refl
