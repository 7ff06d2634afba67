-- ===== src/MemPool/Merge.antt =====
-- ndk/mem_pool.cpp: free, where it merges a chunk with its neighbours.
use cute_ndk.Base.{
  ℕ, ◌+◌, ◌-◌, ◌≤◌, ◌<◌, ◌^◌, ◌%◌, ◌≡◌, ◌≢◌, ◌⊎◌, inl, inr, refl, Bool-cases, ap, ◌∙◌, Bool, false,
  not, ◌&&◌, ltb, ◌==◌, arith, Returns, returns, Returns-bind, Returns-if, Returns-map,
}
use mathlib.Core.Path.{subst}
use cute_ndk.Base.Array.{upd}
use cute_ndk.MemPool.{MemPool, ObjHeader, merge_prev, merge_tail, merge_next, merge_behind, merge}
use cute_ndk.MemPool.Chunks.{distinct, within, unsigned-ok, at_object, at_relink, relinked}
use cute_ndk.MemPool.Join.{Freeing, Joined, joined-Freeing}

module _ (before : ℕ → ObjHeader) (slab base stop : ℕ) (taken : ℕ → Bool) where
  abbrev Frees : MemPool → ℕ → Type 0
  Frees m p = Freeing before m.objs (m.slabs slab) slab base stop taken p

  -- The chunk that is free after a merge holds the chunk `p`, and the pool differs in chunks only.
  pub record Merged (m : MemPool) (p : ℕ) (r : MemPool × ℕ) : Type 0 where
    pub state : Frees r.0 r.1
    pub rest : r.0 ≡ record m { objs = r.0.objs }
    pub low : r.1 ≤ p
    pub high : p + (m.objs p).size ≤ r.1 + (r.0.objs r.1).size
    pub idle : (m.objs p).inuse ≡ 0 → (r.0.objs r.1).inuse ≡ 0

  -- It holds the free chunk before `p`, and the free one behind.
  abbrev pub Back : MemPool → ℕ → ℕ → Type 0
  Back m p q = (m.objs p).prev ≢ 0 → (m.objs (m.objs p).prev).inuse ≡ 0 → q ≤ (m.objs p).prev

  abbrev pub Ahead : MemPool → ℕ → MemPool × ℕ → Type 0
  Ahead m p r =
      (m.objs p).next ≢ 0
      → (m.objs (m.objs p).next).inuse ≡ 0
      → (m.objs p).next + (m.objs (m.objs p).next).size ≤ r.1 + (r.0.objs r.1).size

  -- The next chunk is as it was.
  abbrev SameNext : MemPool → ℕ → MemPool × ℕ → Type 0
  SameNext m p r =
      ((r.0.objs r.1).next ≡ (m.objs p).next)
      × ((r.0.objs (m.objs p).next).inuse ≡ (m.objs (m.objs p).next).inuse)
      × ((r.0.objs (m.objs p).next).size ≡ (m.objs (m.objs p).next).size)

  stayed : (m : MemPool) (p : ℕ) → Frees m p → Merged m p (m, p)
  stayed m p v = record {
    state = v;
    rest = refl;
    low = omega arith;
    high = omega arith;
    idle = λ e. e;
  }

  module _ (m : MemPool) (p : ℕ) (v : Frees m p) where
    abbrev prev : ℕ
    prev = (m.objs p).prev

    abbrev next : ℕ
    next = (m.objs p).next

    real : p ≢ 0
    real = ground (
      arith,
      (within m.objs slab base stop v.len v.at v.chain v.place v.inside).0,
      v.chain.real,
      v.here,
    )

    -- What stands before and behind.
    prev_at : prev ≢ 0 → (0 < v.place) × (v.at (v.place - 1) ≡ prev)
    prev_at h = (
      ground (arith, v.chain.front, v.here),
      ground (arith, v.chain.front, v.here, v.chain.prev (v.place - 1), v.inside),
    )

    next_at : next ≢ 0 → (v.place + 1 < v.len) × (v.at (v.place + 1) ≡ next)
    next_at h = (
      ground (arith, v.chain.last v.place, v.here, v.inside),
      ground (arith, v.chain.last v.place, v.here, v.chain.next v.place, v.inside),
    )

    -- Two neighbours are smaller than the range of an unsigned int.
    sum-ok :
        (i n : ℕ)
        → i + 1 < v.len
        → n ≡ (m.objs (v.at i)).size + 32 + (m.objs (v.at (i + 1))).size
        → n % 2 ^ 32 ≡ n
    sum-ok i n h e =
        let (low, x) = within m.objs slab base stop v.len v.at v.chain i (omega arith) in
        let (y, high) = within m.objs slab base stop v.len v.at v.chain (i + 1) h in
        unsigned-ok n (omega (arith, e, low, high, v.chain.step i h, v.chain.bounded))

    module _ (some_prev : prev ≢ 0) (free_prev : (m.objs prev).inuse ≡ 0) where
      abbrev i : ℕ
      i = v.place - 1

      two_before : (i + 1 < v.len) × (v.at i ≡ prev) × (v.at (i + 1) ≡ p)
      two_before =
          let (h, x) = prev_at some_prev in
          (omega (arith, h, v.inside), x, ground (arith, h, v.here))

      prev_size : (n : ℕ) → n ≡ (m.objs prev).size + (32 + (m.objs p).size) → n % 2 ^ 32 ≡ n
      prev_size n e = let (h, x, y) = two_before in sum-ok i n h (ground (arith, e, x, y))

      prev_free : taken (v.at i) ≡ false
      prev_free = let (h, x, y) = two_before in ground (arith, x, free_prev, v.marked i)

      with_prev-Freeing :
          (objs' : ℕ → ObjHeader)
          → Joined m.objs objs' base stop v.len v.at i
          → Freeing before objs' (m.slabs slab) slab base stop taken prev
      with_prev-Freeing objs' j =
          let (h, x, y) = two_before in
          subst (λ z. Freeing before objs' (m.slabs slab) slab base stop taken z) x
            (joined-Freeing before m.objs objs' (m.slabs slab) slab base stop taken p v i j
              (inr (omega (arith, (prev_at some_prev).0))) prev_free (ground (arith, y, v.free)))

      prev_low : prev ≤ p
      prev_low = let (h, x, y) = two_before in omega (arith, v.chain.step i h, x, y)

      prev_high :
          (objs' : ℕ → ObjHeader)
          → Joined m.objs objs' base stop v.len v.at i
          → p + (m.objs p).size ≤ prev + (objs' prev).size
      prev_high objs' j =
          let (h, x, y) = two_before in ground (arith, j.grown, v.chain.step i h, x, y)

      -- The chunk is not the last one.
      abbrev into_prev : ℕ → ObjHeader
      into_prev =
          let objs1 = upd m.objs prev (record (m.objs prev) { next = next }) in
          let objs2 = upd objs1 next (record (objs1 next) { prev = prev }) in
          upd objs2 prev
            (record (objs2 prev) { size = ((objs2 prev).size + (32 + (m.objs p).size)) % 2 ^ 32 })

      prev-Joined : next ≢ 0 → Joined m.objs into_prev base stop v.len v.at i
      prev-Joined some_next =
          let (h, x, y) = two_before in
          let (more, z) = next_at some_next in
          let third : v.at (i + 2) ≡ next = ground (arith, z, (prev_at some_prev).0) in
          let apart = distinct m.objs slab base stop v.len v.at v.chain in
          let bounds = within m.objs slab base stop v.len v.at v.chain in
          record {
            inner = h;
            grown =
                ground (
                  arith,
                  x,
                  y,
                  third,
                  prev_size ((m.objs prev).size + (32 + (m.objs p).size)) refl,
                );
            over = ground (arith, x, y, third, apart i (i + 2));
            back = λ g. ground (arith, x, y, third, apart i (i + 2));
            same_size = λ k h e g. ground (arith, x, y, third, apart k i h);
            same_next = λ k h e g. ground (arith, x, y, third, apart k i h);
            same_prev = λ k h e g. ground (arith, x, y, third, apart k (i + 2) h, apart i (i + 2));
            same_slab = λ k h. ground arith;
            same_inuse = λ k h. ground arith;
            outside = λ a g. ground (arith, x, third, bounds i, bounds (i + 2));
          }

      ends_apart : next ≢ 0 → prev ≢ next
      ends_apart some_next =
          let (h, x, y) = two_before in
          let (more, z) = next_at some_next in
          ground
            (arith, x, z, more, distinct m.objs slab base stop v.len v.at v.chain i (v.place + 1))

      merge_prev-Merged :
          next ≢ 0 → Returns (λ r. Merged m p r × (r.1 ≡ prev) × SameNext m p r) (merge_prev m p)
      unfolding merge_prev
      merge_prev-Merged some_next = at_object _ p _ real (
          at_object _ prev _ some_prev (
            at_object _ next _ some_next (
              at_object _ prev _ some_prev (
                returns (
                  record {
                    state = with_prev-Freeing into_prev (prev-Joined some_next);
                    rest = refl;
                    low = prev_low;
                    high = prev_high into_prev (prev-Joined some_next);
                    idle = λ e. ground (arith, free_prev);
                  },
                  refl,
                  (
                    ground (arith, ends_apart some_next),
                    ground (arith, ends_apart some_next),
                    ground (arith, ends_apart some_next),
                  ),
                )))))

      -- The chunk is the last one.
      abbrev into_prev_last : ℕ → ObjHeader
      into_prev_last = upd m.objs prev (record (m.objs prev) {
        next = 0;
        size = ((m.objs prev).size + (32 + (m.objs p).size)) % 2 ^ 32;
      })

      tail-Joined : next ≡ 0 → Joined m.objs into_prev_last base stop v.len v.at i
      tail-Joined no_next =
          let (h, x, y) = two_before in
          let apart = distinct m.objs slab base stop v.len v.at v.chain in
          let bounds = within m.objs slab base stop v.len v.at v.chain in
          record {
            inner = h;
            grown =
                ground (arith, x, y, prev_size ((m.objs prev).size + (32 + (m.objs p).size)) refl);
            over = ground (arith, x, y, no_next);
            back = λ g.
                absurd (
                  ground (arith, y, no_next, v.chain.next (i + 1), v.chain.real, bounds (i + 2) g));
            same_size = λ k h e g. ground (arith, x, apart k i h);
            same_next = λ k h e g. ground (arith, x, apart k i h);
            same_prev = λ k h e g. ground arith;
            same_slab = λ k h. ground arith;
            same_inuse = λ k h. ground arith;
            outside = λ a g. ground (arith, x, bounds i);
          }

      merge_tail-Merged : next ≡ 0 → Returns (λ r. Merged m p r × (r.1 ≡ prev)) (merge_tail m p)
      unfolding merge_tail
      merge_tail-Merged no_next = at_object _ p _ real (
          at_object _ prev _ some_prev (
            returns (
              record {
                state = with_prev-Freeing into_prev_last (tail-Joined no_next);
                rest = refl;
                low = prev_low;
                high = prev_high into_prev_last (tail-Joined no_next);
                idle = λ e. ground (arith, free_prev);
              },
              refl,
            )))

    module _ (some_next : next ≢ 0) (free_next : (m.objs next).inuse ≡ 0) where
      next_size : (n : ℕ) → n ≡ (m.objs p).size + (32 + (m.objs next).size) → n % 2 ^ 32 ≡ n
      next_size n e =
          let (h, x) = next_at some_next in sum-ok v.place n h (ground (arith, e, x, v.here))

      after :
          ((m.objs next).next ≡ 0)
          ⊎ ((v.place + 2 < v.len) × (v.at (v.place + 2) ≡ (m.objs next).next))
      after =
          let (h, x) = next_at some_next in
          elim (Bool-cases (ltb (v.place + 2) v.len)) [
            | inl more ↦ inr (ground arith, ground (arith, v.chain.next (v.place + 1), x))
            | inr last ↦ inl (ground (arith, v.chain.last (v.place + 1), x, h))
          ]

      abbrev with_next : ℕ → ObjHeader
      with_next =
          let linked = relinked m.objs (m.objs next).next p in
          upd linked p (record (linked p) {
            size = ((linked p).size + (32 + (m.objs next).size)) % 2 ^ 32;
            next = (m.objs next).next;
          })

      next-Joined : Joined m.objs with_next base stop v.len v.at v.place
      next-Joined =
          let (inner, x) = next_at some_next in
          let apart = distinct m.objs slab base stop v.len v.at v.chain in
          let bounds = within m.objs slab base stop v.len v.at v.chain in
          record {
            inner = inner;
            grown =
                ground
                  (arith, x, v.here, next_size ((m.objs p).size + (32 + (m.objs next).size)) refl);
            over = ground (arith, x, v.here);
            back = λ h. ground (
              arith,
              x,
              v.here,
              after,
              apart v.place (v.place + 2),
              v.chain.next (v.place + 1),
              v.chain.real,
              bounds (v.place + 2) h,
            );
            same_size = λ k h e g. ground (arith, v.here, apart k v.place h);
            same_next = λ k h e g. ground (arith, v.here, apart k v.place h);
            same_prev = λ k h e g. ground (arith, v.here, after, apart k (v.place + 2) h);
            same_slab = λ k h. ground (arith, v.here);
            same_inuse = λ k h. ground (arith, v.here);
            outside =
                λ a h. ground (arith, v.here, after, bounds v.place v.inside, bounds (v.place + 2));
          }

      merge_next-Merged : Returns (λ m'. Merged m p (m', p) × Ahead m p (m', p)) (merge_next m p)
      unfolding merge_next
      merge_next-Merged =
          let (inner, x) = next_at some_next in
          let size : (with_next p).size ≡ (m.objs p).size + 32 + (m.objs next).size =
            ground (arith, next-Joined.grown, v.here, x) in
          at_object _ p _ real (
            at_object _ next _ some_next (
              at_relink _ _ _ _ (
                at_object _ p _ real (
                  returns (
                    record {
                      state =
                          subst
                            (λ y. Freeing before with_next (m.slabs slab) slab base stop taken y)
                            v.here
                            (joined-Freeing before m.objs with_next (m.slabs slab) slab base stop
                              taken p v v.place next-Joined (inl refl)
                              (ground (arith, v.here, v.free))
                              (ground (arith, x, free_next, v.marked (v.place + 1) inner)));
                      rest = refl;
                      low = omega arith;
                      high = ground (arith, size);
                      idle = λ e. ground (arith, e);
                    },
                    λ _ _. ground (arith, size, v.chain.step v.place inner, v.here, x),
                  )))))

  merge_behind-Merged :
      (m : MemPool) (p : ℕ) (v : Frees m p)
      → (m.objs p).next ≢ 0
      → Returns (λ r. Merged m p r × Ahead m p r) (merge_behind m p)
  unfolding merge_behind
  merge_behind-Merged m p v some_next = at_object _ p _ (real m p v) (
      at_object _ (m.objs p).next _ some_next (
        Returns-if ((m.objs (m.objs p).next).inuse == 0)
          (λ e.
            Returns-bind (merge_next-Merged m p v some_next (ground (arith, e))) λ m' s. returns s)
          (λ e. returns (stayed m p v, λ _ f. absurd (ground (arith, e, f))))))

  abbrev with_objs : (ℕ → ObjHeader) → MemPool → MemPool
  with_objs objs m = record m { objs = objs }

  -- Two merges.
  Merged-trans :
      (m : MemPool) (p : ℕ) (r r' : MemPool × ℕ) → Merged m p r → Merged r.0 r.1 r' → Merged m p r'
  Merged-trans m p r r' s t = record {
    low = omega (arith, s.low, t.low);
    high = omega (arith, s.high, t.high);
    idle = λ e. t.idle (s.idle e);
    state = t.state;
    rest = t.rest ∙ ap (with_objs r'.0.objs) s.rest;
  }

  next-Ahead :
      (m : MemPool) (p : ℕ) (r r' : MemPool × ℕ) → SameNext m p r → Ahead r.0 r.1 r' → Ahead m p r'
  next-Ahead m p r r' (e, f, g) a some_next free = ground (arith, a, e, f, g, some_next, free)

  pub merge-Merged :
      (m : MemPool) (p : ℕ)
      → Frees m p
      → Returns (λ r. Merged m p r × Back m p r.1 × Ahead m p r) (merge m p)
  unfolding merge
  merge-Merged m p v = at_object _ p _ (real m p v) (
      Returns-if (not ((m.objs p).prev == 0) && not ((m.objs p).next == 0))
        (λ e.
          let some_prev : (m.objs p).prev ≢ 0 = ground (arith, e) in
          let some_next : (m.objs p).next ≢ 0 = ground (arith, e) in
          at_object _ (m.objs p).prev _ some_prev (
            Returns-bind {P = λ r. Merged m p r × Back m p r.1 × SameNext m p r}
              (Returns-if ((m.objs (m.objs p).prev).inuse == 0)
                (λ f.
                  Returns-map (merge_prev-Merged m p v some_prev (ground (arith, f)) some_next)
                    λ r (s, q, n). (s, λ _ _. omega (arith, q), n))
                (λ f.
                  returns (stayed m p v, λ _ g. absurd (ground (arith, f, g)), (refl, refl, refl))))
              λ r (s, b, n).
                Returns-map (merge_behind-Merged r.0 r.1 s.state (ground (arith, n.0, some_next)))
                  λ r' (t, a). (
                    Merged-trans m p r r' s t,
                    λ x y. omega (arith, b x y, t.low),
                    next-Ahead m p r r' n a,
                  )))
        (λ e.
          Returns-if (not ((m.objs p).prev == 0))
            (λ g.
              let some_prev : (m.objs p).prev ≢ 0 = ground (arith, g) in
              let no_next : (m.objs p).next ≡ 0 = ground (arith, e, g) in
              at_object _ (m.objs p).prev _ some_prev (
                Returns-if ((m.objs (m.objs p).prev).inuse == 0)
                  (λ f.
                    Returns-map (merge_tail-Merged m p v some_prev (ground (arith, f)) no_next)
                      λ r (s, q). (s, λ _ _. omega (arith, q), λ x _. absurd (x no_next)))
                  (λ f. returns (
                    stayed m p v,
                    λ _ x. absurd (ground (arith, f, x)),
                    λ x _. absurd (x no_next),
                  ))))
            (λ g.
              let no_prev : (m.objs p).prev ≡ 0 = ground (arith, g) in
              Returns-if (not ((m.objs p).next == 0))
                (λ h.
                  Returns-map (merge_behind-Merged m p v (ground (arith, h)))
                    λ r (s, a). (s, λ x _. absurd (x no_prev), a))
                (λ h. returns (
                  stayed m p v,
                  λ x _. absurd (x no_prev),
                  λ x _. absurd (ground (arith, h, x)),
                )))))
