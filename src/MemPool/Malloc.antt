-- ===== src/MemPool/Malloc.antt =====
-- ndk/mem_pool.cpp: malloc, for the whole pool.
use cute_ndk.Base.{
  ℕ, ◌+◌, ◌≤◌, ◌<◌, ◌≡◌, ◌⊎◌, inl, inr, refl, sym, ap, ◌∙◌, Bool, false, ltb, ◌==◌, ok, ◌>>=◌,
  arith, Returns, returns, Returns-if, Returns-bind,
}
use cute_ndk.Heap.Places.{Has}
use cute_ndk.MemPool.{MemPool, header_size, malloc_roundup, pop_usable_object}
use cute_ndk.MemPool.Calls.{malloc}
use cute_ndk.MemPool.Slabs.{order_ahead}
use cute_ndk.MemPool.Sorted.{largest}
use cute_ndk.MemPool.Pool.{IsPool}
use cute_ndk.MemPool.Longer.{Longer, alloc_slabs_correct}
use cute_ndk.MemPool.Give.{Given, too_small, usable, found, popped, give, roundup-ok}

-- What malloc leaves: null, with nothing changed, where all slabs there may be are too small; a chunk
-- of a slab there was; or one of a slab that alloc_slabs has added, where the others were too small.
pub data Malloced (m : MemPool) (taken : ℕ → ℕ → Bool) (n : ℕ) (at : ℕ → ℕ) (size : ℕ)
    (r : MemPool × ℕ) : Type 0 where
  refused :
      r ≡ (m, 0)
      → m.max_slabs ≤ n
      → ((x : ℕ) → Has n at x → largest m x < size)
      → Malloced m taken n at size r
  from_slab : Given m taken n at size r → Malloced m taken n at size r
  from_new :
      ((x : ℕ) → Has n at x → largest m x < size)
      → (m1 : MemPool) → (l : Longer m taken n at m.prealloc_slab_num m1)
      → Given m1 taken l.pool.len l.pool.at size r
      → Malloced m taken n at size r

module _ (m : MemPool) (taken : ℕ → ℕ → Bool) (v : IsPool m taken) (size : ℕ) (some : 0 < size)
    (c : ℕ) (h : c < v.len) (fits : size ≤ largest m (v.at c))
    (best : (x : ℕ)
      → Has v.len v.at x
      → size ≤ largest m x
      → largest m (v.at c) ≤ largest m x) where
  -- The end of malloc, once a slab is found or made.
  given_from :
      {Q : MemPool × ℕ → Type 0}
      → ((r : MemPool × ℕ) → Given m taken v.len v.at size r → Q r)
      → Returns Q (
          pop_usable_object m (v.at c) size >>= λ (m2, usable_object).
          order_ahead (m2.alloced_slabs + 1) m2 (v.at c) >>= λ m3.
          ok (m3, usable_object + header_size))
  given_from q =
      Returns-bind (popped m taken v size c h fits some best)
        λ r p. Returns-bind (give m taken v size c h fits some best r p) λ m' w. returns (q _ w)

pub malloc_correct :
    (m : MemPool) (taken : ℕ → ℕ → Bool) (v : IsPool m taken) (n : ℕ)
    → 0 < n
    → Returns
        (λ r. ((m.slab_size < n) × (r ≡ (m, 0))) ⊎ Malloced m taken v.len v.at (malloc_roundup n) r)
        (malloc m n)
unfolding malloc
malloc_correct m taken v n some_size =
    Returns-if (ltb m.slab_size n) (λ e. returns (inl (ground (arith, e), refl)))
      (λ e.
        let fits : n ≤ m.slab_size = ground (arith, e) in
        let (up, room) = roundup-ok n m.slab_size fits v.slabbed.bounded v.slabbed.rounded in
        let some : 0 < malloc_roundup n = omega (arith, some_size, up) in
        Returns-bind (found m taken v (malloc_roundup n)) λ x f. elim f [
          | too_small none_found s ↦ rw none_found (
              Returns-bind (alloc_slabs_correct m taken v m.prealloc_slab_num v.slabbed.growing)
                λ r l.
                  Returns-if (r.1 == 0)
                    (λ t. elim l.first [
                      | inl (same, full) ↦ returns (
                          inr (
                            refused (ap (λ y. (y.0, 0)) same) full
                              (λ y (k, l, e). ground (arith, s k l, e))))
                      | inr (less, new) ↦ absurd (ground (arith, t, new, v.slabbed.started))
                    ])
                    (λ t. elim l.first [
                      | inl (same, full) ↦ absurd (ground (arith, t, ap (λ y. y.1) same))
                      | inr (less, new) ↦
                          let ((c, h, e), whole) = l.longer.new v.slabbed.growing less in
                          let w = l.longer in
                          rw (new ∙ sym e) (
                            given_from r.0 taken w.pool (malloc_roundup n) some c h
                              (ground (arith, room, ap (largest r.0) e, whole))
                              (λ y g u. elim (w.only y g) [
                                | inl (k, l, e1) ↦ absurd (
                                    ground (
                                      arith,
                                      s k l,
                                      e1,
                                      w.sizes y ((v.slabbed.old y (k, l, e1)).1),
                                      u,
                                    ))
                                | inr full_size ↦
                                    ground (arith, full_size, ap (largest r.0) e, whole)
                              ])
                              (λ x y.
                                inr (from_new (λ y (k, l, e). ground (arith, s k l, e)) r.0 w y)))
                    ]))
          | usable c h e g s ↦
              let real : (v.at c == 0) ≡ false = ground (arith, v.slabbed.row.real c h) in
              rw (e, real)
                (Returns-if (v.at c == 0) (λ t. absurd (v.slabbed.row.real c h (ground (arith, t))))
                  (λ t.
                    given_from m taken v (malloc_roundup n) some c h g
                      (λ y (k, l, e) g. ground (arith, s k, v.sorted c k, e, g, l))
                      (λ r w. inr (from_slab w))))
        ])
