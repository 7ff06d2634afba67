-- ===== src/CacheManager/Loop.antt =====
-- ndk/cache_manager.cpp: flush_i, flush_all and the loop of make_cobj.
use cute_ndk.Base.{
  ℕ, zero, suc, ◌+◌, ◌-◌, ◌≤◌, ◌<◌, ◌≡◌, ◌⊎◌, inl, inr, refl, ap, ◌∙◌, false, ltb, Option, none,
  some, Returns, returns, Returns-if, Returns-bind, Returns-map, arith,
}
use cute_ndk.Base.Int.{ℤ, pos, negsuc}
use cute_ndk.CacheDeque.Order.{without}
use cute_ndk.CacheManager.{CacheManager, QueueCalls, flush_got}
use cute_ndk.CacheManager.Calls.{flush_next, flush_i, flush_until, flush_queue, flush_all}
use cute_ndk.CacheManager.Queue.{QueueLaws}
use cute_ndk.CacheManager.Valid.{IsManager, Kept}
use cute_ndk.CacheManager.Flush.{Same, PendingFlushed, flush_pending_objs_correct}
use cute_ndk.CacheManager.One.{flush_one-Flushed}

-- The first objects have left the sequence `es`, and the others, those used most recently, are there in
-- their order.
abbrev pub Left : ℕ → (ℕ → ℕ × ℕ) → ℕ → (ℕ → ℕ × ℕ) → Type 0
Left n es len fs = (len ≤ n) × ((k : ℕ) → k < len → fs k ≡ es (k + (n - len)))

pub all-Left : (n : ℕ) (es : ℕ → ℕ × ℕ) → Left n es n es
all-Left n es = (omega arith, λ k h. let same : k ≡ k + (n - n) = omega arith in ap es same)

Left-trans : (n l j : ℕ) (es fs gs : ℕ → ℕ × ℕ) → Left n es l fs → Left l fs j gs → Left n es j gs
Left-trans n l j es fs gs (a, f) (b, g) = (
  omega (arith, a, b),
  λ k h.
      let place : k + (l - j) + (n - l) ≡ k + (n - j) = omega (arith, a, b) in
      g k h ∙ f (k + (l - j)) (omega (arith, b, h)) ∙ ap es place,
)

first-Left :
    (n : ℕ) (es : ℕ → ℕ × ℕ) (len : ℕ) (fs : ℕ → ℕ × ℕ)
    → 0 < n
    → len ≡ n - 1
    → ((k : ℕ) → fs k ≡ without 0 es k)
    → Left n es len fs
first-Left n es len fs more l same = (
  omega (arith, l),
  λ k h.
      let test : ltb k 0 ≡ false = ground arith in
      let next : without 0 es k ≡ es (k + 1) = rw test refl in
      let place : k + 1 ≡ k + (n - len) = omega (arith, l, more) in same k ∙ next ∙ ap es place,
)

module _ {Q : Type 0} (calls : QueueCalls Q) (laws : QueueLaws calls) where
  -- A valid manager, whose water mark is not higher than it was, and every object in use is as it was.
  pub record After (m m' : CacheManager Q) : Type 0 where
    pub len : ℕ
    pub es : ℕ → ℕ × ℕ
    pub valid : IsManager calls laws m' len es
    pub less : m'.water_mark ≤ m.water_mark
    pub kept : Kept m.objects m'.objects
    pub same : Same m m'

  unfoldable pub After-trans : (m m1 m2 : CacheManager Q) → After m m1 → After m1 m2 → After m m2
  After-trans m m1 m2 a b = record {
    len = b.len;
    es = b.es;
    valid = b.valid;
    less = omega (arith, a.less, b.less);
    kept = λ x o f g. b.kept x o (a.kept x o f g) g;
    same = (
      b.same.0 ∙ a.same.0,
      b.same.1 ∙ a.same.1,
      b.same.2 ∙ a.same.2,
      omega (arith, a.same.3, b.same.3),
    );
  }

  -- What flush_i leaves, and returns: 0 where the pending objects were enough, 0 where the object used
  -- least recently has left the cache, and -1 where the cache is empty.
  pub data Flushing (m : CacheManager Q) (n : ℕ) (es : ℕ → ℕ × ℕ) (m' : CacheManager Q) (r : ℤ)
      (a : After m m') : Type 0 where
    enough :
        r ≡ pos 0
        → a.len ≡ n
        → a.es ≡ es
        → m'.priority_queue ≡ m.priority_queue
        → m'.water_mark ≤ m.low_water_mark
        → Flushing m n es m' r a
    oldest :
        r ≡ pos 0
        → 0 < n
        → a.len ≡ n - 1
        → ((k : ℕ) → a.es k ≡ without 0 es k)
        → Flushing m n es m' r a
    nothing : r ≡ negsuc 0 → n ≡ 0 → a.len ≡ 0 → Flushing m n es m' r a

  module _ (m : CacheManager Q) (n : ℕ) (es : ℕ → ℕ × ℕ) (v : IsManager calls laws m n es) where
    unfoldable pending-After :
        (r : CacheManager Q × ℤ) → PendingFlushed calls laws m n es v r → After m r.0
    pending-After r p = record {
      len = n;
      es = es;
      valid = p.valid;
      less = p.less;
      kept = p.kept;
      same = p.same;
    }

    -- An object that the queue gives away, or none.
    got_flushed :
        Returns
          (λ (m', r).
            (a : After m m') × (((r ≡ pos 0)
                × (0 < n)
                × (a.len ≡ n - 1)
                × ((k : ℕ) → a.es k ≡ without 0 es k))
              ⊎ ((r ≡ negsuc 0) × (n ≡ 0) × (a.len ≡ 0))))
          (flush_next calls m)
    unfolding flush_next flush_got
    got_flushed = Returns-bind (laws.remove_law m.priority_queue n es v.queue) λ (q, got) x.
        elim x [
          | inl (z, e, g) ↦
              rw (g, e)
                (returns (
                  record {
                    len = n;
                    es = es;
                    valid = v;
                    less = omega arith;
                    kept = λ a o f g. f;
                    same = (refl, refl, refl, omega arith);
                  },
                  inr (refl, z, z),
                ))
          | inr (more, g, queue) ↦ rw g (
              Returns-bind (flush_one-Flushed calls laws m n es v more q queue) λ m1 f. returns (
                record {
                  len = n - 1;
                  es = without 0 es;
                  valid = f.valid;
                  less = f.less;
                  kept = f.kept;
                  same = f.same;
                },
                inl (refl, more, refl, λ k. refl),
              ))
        ]

  pub flush_i_correct :
      (m : CacheManager Q) (n : ℕ) (es : ℕ → ℕ × ℕ)
      → IsManager calls laws m n es
      → Returns (λ (m', r). (a : After m m') × Flushing m n es m' r a) (flush_i calls m)
  unfolding flush_i pending-After After-trans
  flush_i_correct m n es v =
      Returns-bind (flush_pending_objs_correct calls laws m n es v) λ (m1, r) p.
        let a = pending-After m n es v (m1, r) p in
        elim p.enough [
          | inl (e, low) ↦ rw e (returns (a, enough refl refl refl p.queue low))
          | inr e ↦ rw e (
              Returns-map (got_flushed m1 n es p.valid) λ (m2, r2) (b, c). (
                After-trans m m1 m2 a b,
                elim c [ inl (x, more, l, k) ↦ oldest x more l k | inr (x, z, l) ↦ nothing x z l ],
              ))
        ]

lower :
    {r : ℤ} {w l l' len : ℕ}
    → l ≡ l'
    → ((r ≡ pos 0) × (w ≤ l)) ⊎ ((r ≡ negsuc 0) × (len ≡ 0))
    → ((r ≡ pos 0) × (w ≤ l')) ⊎ ((r ≡ negsuc 0) × (len ≡ 0))
lower e (inl (x, y)) = inl (x, omega (arith, e, y))
lower e (inr x) = inr x

-- The loop of make_cobj, on a valid manager, ends after at most as many rounds as objects are in the
-- queue, and one; the water mark is at most the lower one then, or -1 is returned and the cache is
-- empty. The objects that leave the cache are those used least recently, and the others keep their
-- order.
pub flush_until_correct :
    {Q : Type 0} (calls : QueueCalls Q) (laws : QueueLaws calls) (fuel : ℕ) (m : CacheManager Q)
    (n : ℕ) (es : ℕ → ℕ × ℕ)
    → IsManager calls laws m n es
    → n < fuel
    → Returns
        (λ (m', r).
          (a : After calls laws m m') × Left n es a.len a.es
          × (((r ≡ pos 0) × (m'.water_mark ≤ m.low_water_mark)) ⊎ ((r ≡ negsuc 0) × (a.len ≡ 0))))
        (flush_until calls fuel m)
unfolding flush_until After-trans
flush_until_correct calls laws zero m n es v f = absurd (omega (arith, f))
flush_until_correct calls laws (suc fuel) m n es v f =
    Returns-bind (flush_i_correct calls laws m n es v) λ (m1, r) (a, s).
      let low : m1.low_water_mark ≡ m.low_water_mark = a.same.2 in
      elim s [
        | enough e l same q w ↦
            let left : Left n es a.len a.es = (
              omega (arith, l),
              λ k h.
                  let place : k ≡ k + (n - a.len) = omega (arith, l) in
                  ap (λ fs. fs k) same ∙ ap es place,
            ) in
            rw e (
              Returns-if (ltb m1.low_water_mark m1.water_mark)
                (λ t. absurd (ground (arith, t, w, low))) (λ t. returns (a, left, inl (refl, w))))
        | oldest e more l k ↦
            let left = first-Left n es a.len a.es more l k in
            rw e (
              Returns-if (ltb m1.low_water_mark m1.water_mark)
                (λ t.
                  Returns-map
                    (flush_until_correct calls laws fuel m1 a.len a.es a.valid
                      (omega (arith, l, f, more)))
                    λ (m2, r2) (b, rest, c). (
                      After-trans calls laws m m1 m2 a b,
                      Left-trans n a.len b.len es a.es b.es left rest,
                      lower low c,
                    ))
                (λ t. returns (a, left, inl (refl, ground (arith, t, low)))))
        | nothing e z l ↦
            rw e
              (returns (a, (omega (arith, l), λ k h. absurd (omega (arith, l, h))), inr (refl, l)))
      ]

-- The queue is emptied in as many rounds as it has objects, and one.
flush_queue_correct :
    {Q : Type 0} (calls : QueueCalls Q) (laws : QueueLaws calls) (fuel : ℕ) (m : CacheManager Q)
    (n : ℕ) (es : ℕ → ℕ × ℕ)
    → IsManager calls laws m n es
    → n < fuel
    → Returns (λ m'. (a : After calls laws m m') × (a.len ≡ 0)) (flush_queue calls fuel m)
unfolding flush_queue After-trans
flush_queue_correct calls laws zero m n es v f = absurd (omega (arith, f))
flush_queue_correct calls laws (suc fuel) m n es v f =
    Returns-bind (got_flushed calls laws m n es v) λ (m1, r) (a, c). elim c [
      | inl (e, more, l, k) ↦ rw e (
          Returns-map
            (flush_queue_correct calls laws fuel m1 a.len a.es a.valid (omega (arith, l, f, more)))
            λ m2 (b, z). (After-trans calls laws m m1 m2 a b, z))
      | inr (e, z, l) ↦ rw e (returns (a, l))
    ]

no_address : (x : Option ℕ) → ((a : ℕ) → x ≡ some a → ⊥) → x ≡ none
no_address none h = refl
no_address (some a) h = absurd (h a refl)

-- flush_all, on a valid manager, returns 0 and leaves a valid one with no object in the cache: no key
-- is found there, the water mark is not higher, and every object in use is as it was.
pub flush_all_correct :
    {Q : Type 0} (calls : QueueCalls Q) (laws : QueueLaws calls) (m : CacheManager Q) (n : ℕ)
    (es : ℕ → ℕ × ℕ)
    → IsManager calls laws m n es
    → Returns
        (λ (m', r).
          (r ≡ pos 0)
          × (a : After calls laws m m') × (a.len ≡ 0)
          × ((key : ℕ) → m'.cache_map key ≡ none))
        (flush_all calls m)
unfolding flush_all pending-After After-trans
flush_all_correct calls laws m n es v =
    Returns-bind (flush_pending_objs_correct calls laws m n es v) λ (m1, r) p.
      let a = pending-After calls laws m n es v (m1, r) p in
      let fuel : n < calls.length m1.priority_queue + 1 =
        omega (arith, laws.length_law m1.priority_queue n es p.valid.queue) in
      Returns-bind
        (flush_queue_correct calls laws (calls.length m1.priority_queue + 1) m1 n es p.valid fuel)
        λ m2 (b, z). returns (
          refl,
          After-trans calls laws m m1 m2 a b,
          z,
          λ key.
              no_address (m2.cache_map key)
                λ x e. let (k, l, g) = b.valid.found key x e in omega (arith, l, z),
        )
