-- ===== src/CacheManager/Put.antt =====
-- ndk/cache_manager.cpp: put_i.
use cute_ndk.Base.{
  ℕ, ◌+◌, ◌≤◌, ◌<◌, ◌≡◌, ◌≢◌, ◌⊎◌, inl, inr, refl, ap, ◌∙◌, ◌==◌, Option, none, some, Returns,
  returns, Returns-if, Returns-bind, arith,
}
use cute_ndk.Base.Array.{upd, upd_self, upd_ne}
use cute_ndk.Base.Int.{ℤ, pos, negsuc, ◌+ℤ◌}
use cute_ndk.CacheDeque.Order.{with_last}
use cute_ndk.CacheManager.{CacheManager, CacheObject, QueueCalls, acquire, destroy}
use cute_ndk.CacheManager.Calls.{put_known, put_new, put_made, put_i}
use cute_ndk.CacheManager.Queue.{QueueLaws}
use cute_ndk.CacheManager.Valid.{IsManager, Kept}
use cute_ndk.CacheManager.Loop.{After, After-trans, Left}
use cute_ndk.CacheManager.Make.{
  created, with_object, wrong_size, emptied, made_one, make_cobj-Making, unused-IsManager,
  stored-IsManager, same-Kept,
}

known_or : (x : Option ℕ) → (x ≡ none) ⊎ ((b : ℕ) × (x ≡ some b))
known_or none = inl refl
known_or (some b) = inr (b, refl)

one_user : pos 0 +ℤ pos 1 ≡ pos 1
unfolding ◌+ℤ◌
one_user = refl

module _ {Q : Type 0} (calls : QueueCalls Q) (laws : QueueLaws calls) where
  -- The object is in the cache, as the one used most recently, and in use.
  pub record Stored (m : CacheManager Q) (n : ℕ) (fs : ℕ → ℕ × ℕ) (key contents size ob : ℕ)
      (m' : CacheManager Q) (c : ℕ) : Type 0 where
    pub len : ℕ
    pub es : ℕ → ℕ × ℕ
    pub left : Left n fs len es
    pub untouched : m.water_mark + size ≤ m.high_water_mark → len ≡ n
    pub valid : IsManager calls laws m' (len + 1) (with_last len es (key, c))
    pub object :
        m'.objects c
        ≡ some (record { refcount = pos 1; size = size; contents = contents; observer = ob })
    pub mapped : m'.cache_map key ≡ some c
    pub fresh : m.objects c ≡ none
    pub kept : Kept m.objects m'.objects

  -- There is data, and its size is allowed.
  abbrev pub IsAllowed : CacheManager Q → ℕ → ℕ → Type 0
  IsAllowed m contents size = (contents ≢ 0) × (m.cobj_min_size ≤ size) × (size ≤ m.cobj_max_size)

  -- What put_i leaves, what it returns, and the pointer to the object, which was `cobj`.
  pub data Put (m : CacheManager Q) (n : ℕ) (fs : ℕ → ℕ × ℕ) (key contents size ob cobj : ℕ)
      (r : CacheManager Q × ℤ × ℕ) : Type 0 where
    no_data : contents ≡ 0 → r ≡ (m, negsuc 0, cobj) → Put m n fs key contents size ob cobj r
    bad_size :
        contents ≢ 0
        → (m.cobj_max_size < size) ⊎ (size < m.cobj_min_size)
        → r ≡ (m, negsuc 0, cobj)
        → Put m n fs key contents size ob cobj r
    no_room :
        (m' : CacheManager Q) (a : After calls laws m m')
        → IsAllowed m contents size
        → m.high_water_mark < m.water_mark + size
        → a.len ≡ 0
        → r ≡ (m', negsuc 0, cobj)
        → Put m n fs key contents size ob cobj r
    known :
        (m' : CacheManager Q) (b : ℕ)
        → (a : After calls laws m m') → Left n fs a.len a.es
        → (m.water_mark + size ≤ m.high_water_mark → a.len ≡ n)
        → IsAllowed m contents size
        → m'.cache_map key ≡ some b
        → r ≡ (m', negsuc 0, 0)
        → Put m n fs key contents size ob cobj r
    stored :
        IsAllowed m contents size
        → Stored m n fs key contents size ob r.0 r.2
        → r.1 ≡ pos 0
        → Put m n fs key contents size ob cobj r

  module _ (m : CacheManager Q) (n : ℕ) (fs : ℕ → ℕ × ℕ) (key contents size ob cobj : ℕ)
      (m1 : CacheManager Q) (a : After calls laws m m1) (left : Left n fs a.len a.es)
      (untouched : m.water_mark + size ≤ m.high_water_mark → a.len ≡ n)
      (allowed : IsAllowed m contents size)
      (room : (m1.water_mark + size ≤ m.high_water_mark) ⊎ (m1.water_mark ≤ m.low_water_mark))
      (unborn : (x : ℕ) → m.fresh ≤ x → m.objects x ≡ none) where
    abbrev o : CacheObject
    o = created calls laws contents size ob

    abbrev objects : ℕ → Option CacheObject
    objects = upd m1.objects m1.fresh (some o)

    known-Put :
        (b : ℕ)
        → m1.cache_map key ≡ some b
        → Returns
            (Put m n fs key contents size ob cobj)
            (put_known calls (with_object calls laws m1 o) m1.fresh)
    unfolding put_known destroy After-trans
    known-Put b e = rw (upd_self m1.objects m1.fresh (some o)) (
        let objects' = upd objects m1.fresh none in
        let same : (x : ℕ) → m1.fresh ≢ x → objects' x ≡ m1.objects x =
          λ x h. upd_ne objects m1.fresh x none h ∙ upd_ne m1.objects m1.fresh x (some o) h in
        let after : After calls laws m1 (record m1 { objects = objects'; fresh = m1.fresh + 1 }) =
          record {
            len = a.len;
            es = a.es;
            valid =
                unused-IsManager calls laws m1 a.len a.es a.valid objects' same
                  (upd_self objects m1.fresh none);
            less = omega arith;
            kept = same-Kept calls laws m1 a.len a.es a.valid objects' same;
            same = (refl, refl, refl, omega arith);
          } in
        returns (known _ b (After-trans calls laws m m1 _ a after) left untouched allowed e refl))

    new-Put :
        m1.cache_map key ≡ none
        → Returns
            (Put m n fs key contents size ob cobj)
            (put_new calls (with_object calls laws m1 o) key m1.fresh)
    unfolding put_new acquire
    new-Put e =
        let used : CacheObject = record o { refcount = pos 0 +ℤ pos 1 } in
        let objects' = upd objects m1.fresh (some used) in
        let same : (x : ℕ) → m1.fresh ≢ x → objects' x ≡ m1.objects x = λ x h.
          upd_ne objects m1.fresh x (some used) h ∙ upd_ne m1.objects m1.fresh x (some o) h in
        let here : objects' m1.fresh ≡ some used = upd_self objects m1.fresh (some used) in
        rw (upd_self m1.objects m1.fresh (some o)) (
          Returns-bind
            (laws.insert_law m1.priority_queue a.len a.es a.valid.queue (key, m1.fresh)
              (omega (arith, a.valid.started))
              (λ k h. let (x, y) = a.valid.young k h in omega (arith, y)))
            λ (q, r) (z, queue).
              rw (z, here)
                (returns (
                  stored allowed
                    (record {
                      len = a.len;
                      es = a.es;
                      left = left;
                      untouched = untouched;
                      valid =
                          stored-IsManager calls laws m1 a.len a.es a.valid objects' same key q used
                            here e (ground (arith, allowed, a.same)) (ground (arith, room, a.same))
                            queue;
                      object = here ∙ ap (λ r. some (record o { refcount = r })) one_user;
                      mapped = upd_self m1.cache_map key (some m1.fresh);
                      fresh = unborn m1.fresh a.same.3;
                      kept = λ x u f g.
                          same-Kept calls laws m1 a.len a.es a.valid objects' same x u
                            (a.kept x u f g) g;
                    })
                    refl)))

  -- put_i, on a valid manager, returns. Without data, and for a size that is not allowed, it returns -1
  -- and changes nothing. Where the object does not fit below the higher mark it may empty the whole
  -- cache and return -1; for a key that is in the cache it returns -1, with a valid manager whose water
  -- mark is not higher. Else it returns 0, and the new object is in the cache, as the one used most
  -- recently, with one user. In the last two cases no object has left the cache for it if it fits below
  -- the higher mark; otherwise those that have left are the ones used least recently, and the others
  -- keep their order. The manager is valid, so that the water mark is the sum of the sizes of all objects
  -- that are not destroyed and keeps to its bound. Every object in use is as it was.
  pub put_i_correct :
      (m : CacheManager Q) (n : ℕ) (es : ℕ → ℕ × ℕ) (key contents size ob cobj : ℕ)
      → IsManager calls laws m n es
      → Returns (Put m n es key contents size ob cobj) (put_i calls m key contents size ob cobj)
  unfolding put_i put_made
  put_i_correct m n es key contents size ob cobj v =
      Returns-if (contents == 0) (λ e. returns (no_data (ground (arith, e)) refl))
        (λ e.
          let some_data : contents ≢ 0 = ground (arith, e) in
          Returns-bind (make_cobj-Making calls laws m n es v contents size ob) λ (m1, made) x.
            elim x [
              | wrong_size y q z ↦
                  rw z (returns (bad_size some_data y (ap (λ y. (y, negsuc 0, cobj)) q)))
              | emptied a l z low high full ↦
                  rw z (returns (no_room m1 a (some_data, low, high) full l refl))
              | made_one m2 a left un q z low high room ↦
                  let allowed : IsAllowed m contents size = (some_data, low, high) in
                  rw (z, q)
                    (elim (known_or (m2.cache_map key)) [
                      | inl y ↦ rw y (
                          new-Put m n es key contents size ob cobj m2 a left un allowed room
                            v.unborn y)
                      | inr (b, y) ↦ rw y (
                          known-Put m n es key contents size ob cobj m2 a left un allowed room
                            v.unborn b y)
                    ])
            ])
