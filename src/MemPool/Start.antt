-- ===== src/MemPool/Start.antt =====
-- ndk/mem_pool.cpp: init.
use cute_ndk.Base.{
  ℕ, ◌+◌, ◌%◌, ◌^◌, ◌≤◌, ◌<◌, ◌≡◌, ◌⊎◌, inl, inr, refl, sym, ◌∙◌, Bool, true, false, leb, not, ◌==◌,
  if◌then◌else◌, arith, Returns, returns, Returns-if, Returns-bind,
}
use cute_ndk.Base.Int.{ℤ, pos, negsuc, pos_part, ltb_ℤ}
use cute_ndk.Heap.Places.{Has}
use cute_ndk.MemPool.{MemPool, ObjHeader, malloc_roundup}
use cute_ndk.MemPool.Calls.{init, no_slabs, to_unsigned}
use cute_ndk.MemPool.Sorted.{largest}
use cute_ndk.MemPool.Pool.{IsPool}
use cute_ndk.MemPool.Longer.{alloc_slabs_correct}

-- Nothing is in use.
abbrev pub none_taken : ℕ → ℕ → Bool
none_taken x a = false

-- The pool before its first slab.
abbrev sized : (ℕ → ObjHeader) → ℕ → ℕ → ℕ → MemPool
sized raw size count most = record (no_slabs raw) {
  slab_size = size;
  prealloc_slab_num = count;
  max_slabs = most;
}

none_owned : (x a : ℕ) → none_taken x a ≡ true → Has 0 (λ _. 0) x
none_owned x a h = absurd (ground (arith, h))

unfoldable sized-IsPool :
    (raw : ℕ → ObjHeader) (size count most : ℕ)
    → size + 32 < 2 ^ 32
    → most < 2 ^ 32
    → size % 8 ≡ 0
    → 0 < count
    → IsPool (sized raw size count most) none_taken
sized-IsPool raw size count most b l r g = record {
  len = 0;
  at = λ _. 0;
  slabbed = record {
    row = record {
      head = λ h. absurd (omega (arith, h));
      empty = λ h. refl;
      tail = λ k h. absurd (omega (arith, h));
      real = λ k h. absurd (omega (arith, h));
      apart = λ j k h l. absurd (omega (arith, l));
      next = λ k h. absurd (omega (arith, h));
      last = λ k h. absurd (omega (arith, h));
      prev = λ k h. absurd (omega (arith, h));
      front = λ h. absurd (omega (arith, h));
    };
    count = refl;
    slabs = λ x (k, h, e). absurd (omega (arith, h));
    regions = λ x y (k, h, e) f. absurd (omega (arith, h));
    old = λ x (k, h, e). absurd (omega (arith, h));
    bounded = b;
    limit = l;
    most = omega arith;
    rounded = r;
    growing = g;
    started = (omega arith, omega arith);
    owned = λ x a h. none_owned x a h;
  };
  sorted = λ j k h l. absurd (omega (arith, l));
}

-- How many slabs init asks for.
abbrev pub prealloc_count : ℤ → ℕ
prealloc_count p = if to_unsigned p == 0 then 64 else to_unsigned p

-- What init returns and leaves.
pub record Started (size count most : ℕ) (r : MemPool × ℤ) : Type 0 where
  pub success : r.1 ≡ pos 0
  pub pool : IsPool r.0 none_taken
  pub number : pool.len ≡ (if leb count most then count else most)
  pub whole : (x : ℕ) → Has pool.len pool.at x → largest r.0 x ≡ r.0.slab_size
  pub limits : (size ≤ r.0.slab_size) × (r.0.slab_size ≤ size + 7) × (r.0.max_slabs ≡ most)

stored-ok :
    (x : ℤ) → pos_part x < 2 ^ 31 → not (ltb_ℤ (pos 0) x) ≡ false → to_unsigned x ≡ pos_part x
stored-ok (pos x) h e = omega (arith, h)
stored-ok (negsuc x) h e = absurd (ground (arith, e))

pub init_correct :
    (raw : ℕ → ObjHeader) (size : ℕ) (count most : ℤ)
    → size < 2 ^ 31
    → pos_part most < 2 ^ 31
    → Returns
        (λ r.
          ((r.1 ≡ negsuc 0)
            × (r.0.alloced_slabs ≡ 0)
            × ((ltb_ℤ (pos 0) most ≡ false) ⊎ (size ≤ 32)))
          ⊎ Started size (prealloc_count count) (pos_part most) r)
        (init (no_slabs raw) (pos size) count most)
unfolding init sized-IsPool
init_correct raw size count most h l =
    Returns-if (not (ltb_ℤ (pos 0) most)) (λ e. returns (inl (refl, refl, inl (ground (arith, e)))))
      (λ e.
        Returns-if (leb (to_unsigned (pos size)) 32)
          (λ f. returns (inl (refl, refl, inr (ground (arith, f, h)))))
          (λ f.
            let s : ℕ = malloc_roundup (to_unsigned (pos size)) in
            let c : ℕ = prealloc_count count in
            let limit : to_unsigned most ≡ pos_part most = stored-ok most l e in
            let some : 0 < c = ground arith in
            let v =
              sized-IsPool raw s c (to_unsigned most) (omega (arith, h)) (omega (arith, l, limit))
                (omega (arith, h)) some in
            Returns-bind
              (alloc_slabs_correct (sized raw s c (to_unsigned most)) none_taken v c some)
              λ r x. returns (
                inr (record {
                  success = refl;
                  pool = x.longer.pool;
                  number = ground (arith, x.longer.number, limit);
                  whole = λ y g. elim (x.longer.only y g) [
                    | inl (k, h, e) ↦ absurd (omega (arith, h))
                    | inr full ↦ full ∙ sym x.longer.limits.0
                  ];
                  limits = (
                    omega (arith, x.longer.limits, h),
                    omega (arith, x.longer.limits, h),
                    x.longer.limits.1 ∙ limit,
                  );
                }))))
