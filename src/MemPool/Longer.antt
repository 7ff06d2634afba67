-- ===== src/MemPool/Longer.antt =====
-- ndk/mem_pool.cpp: alloc_slabs, for the whole pool.
use cute_ndk.Base.{
  ℕ, zero, suc, ◌+◌, ◌≤◌, ◌<◌, ◌≡◌, ◌⊎◌, inl, inr, refl, ap, ◌∙◌, Bool, leb, if◌then◌else◌, arith,
  Returns, returns, Returns-if, Returns-bind, Returns-map,
}
use cute_ndk.Base.Array.{upd}
use cute_ndk.Heap.Places.{Has, Has-grow}
use cute_ndk.MemPool.{MemPool}
use cute_ndk.MemPool.Slabs.{add_slabs, alloc_slabs}
use cute_ndk.MemPool.Sorted.{IsSorted, largest}
use cute_ndk.MemPool.Pool.{IsPool, Slabbed, base}
use cute_ndk.MemPool.Grow.{Added, add_slab-Added}

-- Up to `count` slabs more, as many as the maximum allows: what is in use and the slabs there were
-- are as they were.
pub record Longer (m : MemPool) (taken : ℕ → ℕ → Bool) (n : ℕ) (at : ℕ → ℕ) (count : ℕ)
    (m' : MemPool) : Type 0 where
  pub pool : IsPool m' taken
  pub number : pool.len ≡ (if leb (n + count) m.max_slabs then n + count else m.max_slabs)
  pub members : (x : ℕ) → Has n at x → Has pool.len pool.at x
  pub only : (x : ℕ) → Has pool.len pool.at x → Has n at x ⊎ (largest m' x ≡ m.slab_size)
  pub new :
      0 < count
      → n < m.max_slabs
      → Has pool.len pool.at m.fresh_slab × (largest m' m.fresh_slab ≡ m.slab_size)
  pub sizes : (x : ℕ) → x < m.fresh_slab → largest m' x ≡ largest m x
  pub bases : (x : ℕ) → x < m.fresh_slab → base m' x ≡ base m x
  pub objs : (a : ℕ) → a < m.fresh → m'.objs a ≡ m.objs a
  pub limits :
      (m'.slab_size ≡ m.slab_size)
      × (m'.max_slabs ≡ m.max_slabs)
      × (m'.prealloc_slab_num ≡ m.prealloc_slab_num)

no_more :
    (m : MemPool) (taken : ℕ → ℕ → Bool) (n : ℕ) (at : ℕ → ℕ)
    → Slabbed m taken n at
    → IsSorted m n at
    → (count : ℕ) → (count ≡ 0) ⊎ (m.max_slabs ≤ n)
    → Longer m taken n at count m
no_more m taken n at v s count full = record {
  pool = record { len = n; at = at; slabbed = v; sorted = s };
  number = ground (arith, v.most, full);
  members = λ x h. h;
  only = λ x h. inl h;
  new = λ h l. absurd (ground (arith, full, h, l));
  sizes = λ x h. refl;
  bases = λ x h. refl;
  objs = λ a h. refl;
  limits = (refl, refl, refl);
}

one_more :
    (m : MemPool) (taken : ℕ → ℕ → Bool) (n : ℕ) (at : ℕ → ℕ) (count : ℕ) (m1 m2 : MemPool)
    → Added m taken n at m1
    → Longer m1 taken (n + 1) (upd at n m.fresh_slab) count m2
    → Longer m taken n at (suc count) m2
one_more m taken n at count m1 m2 a l = record {
  pool = l.pool;
  number = ground (arith, l.number, a.limits);
  members = λ x h. l.members x ((Has-grow n at m.fresh_slab x).1 (inl h));
  only = λ x h. elim (l.only x h) [
    | inl g ↦ elim ((Has-grow n at m.fresh_slab x).0 g) [
      | inl old ↦ inl old
      | inr e ↦ inr (ap (largest m2) e ∙ l.sizes m.fresh_slab (omega (arith, a.later)) ∙ a.whole)
    ]
    | inr g ↦ inr (g ∙ a.limits.0)
  ];
  new = λ h g. (
    l.members m.fresh_slab ((Has-grow n at m.fresh_slab m.fresh_slab).1 (inr refl)),
    l.sizes m.fresh_slab (omega (arith, a.later)) ∙ a.whole,
  );
  sizes = λ x h. l.sizes x (omega (arith, h, a.later)) ∙ a.sizes x h;
  bases = λ x h. l.bases x (omega (arith, h, a.later)) ∙ a.bases x h;
  objs = λ b h. l.objs b (omega (arith, h, a.later)) ∙ a.objs b h;
  limits = (l.limits.0 ∙ a.limits.0, l.limits.1 ∙ a.limits.1, l.limits.2 ∙ a.limits.2);
}

add_slabs-Longer :
    (count : ℕ) (m : MemPool) (taken : ℕ → ℕ → Bool) (n : ℕ) (at : ℕ → ℕ)
    → Slabbed m taken n at
    → IsSorted m n at
    → (count ≡ 0) ⊎ (n < m.max_slabs)
    → Returns (Longer m taken n at count) (add_slabs count m)
unfolding add_slabs
add_slabs-Longer zero m taken n at v s room = returns (no_more m taken n at v s 0 (inl refl))
add_slabs-Longer (suc count) m taken n at v s room =
    Returns-bind (add_slab-Added m taken n at v s (omega (arith, room))) λ m1 a.
      let number : m1.alloced_slabs ≡ n + 1 = a.slabbed.count in
      Returns-if (leb m1.max_slabs m1.alloced_slabs)
        (λ e. returns (
          one_more m taken n at count m1 m1 a (
            no_more m1 taken (n + 1) (upd at n m.fresh_slab) a.slabbed a.sorted count
              (inr (ground (arith, e, number))))))
        (λ e.
          Returns-map
            (add_slabs-Longer count m1 taken (n + 1) (upd at n m.fresh_slab) a.slabbed a.sorted
              (inr (ground (arith, e, number))))
            (λ m2. one_more m taken n at count m1 m2 a))

-- What alloc_slabs returns: null where the pool has all its slabs, else the first new slab.
pub record Extended (m : MemPool) (taken : ℕ → ℕ → Bool) (n : ℕ) (at : ℕ → ℕ) (count : ℕ)
    (r : MemPool × ℕ) : Type 0 where
  pub longer : Longer m taken n at count r.0
  pub first : ((r ≡ (m, 0)) × (m.max_slabs ≤ n)) ⊎ ((n < m.max_slabs) × (r.1 ≡ m.fresh_slab))

-- alloc_slabs of at least one slab, on a valid pool, leaves a valid pool with that many slabs more,
-- or as many as the maximum allows, and with the old slabs, their largest free chunks and their
-- memory as they were; it returns null and changes nothing where the maximum is reached, and else
-- the first new slab, which is one free chunk of the size of a slab.
pub alloc_slabs_correct :
    (m : MemPool) (taken : ℕ → ℕ → Bool) (v : IsPool m taken) (count : ℕ)
    → 0 < count
    → Returns (Extended m taken v.len v.at count) (alloc_slabs m count)
unfolding alloc_slabs
alloc_slabs_correct m taken v count some =
    let number = v.slabbed.count in
    Returns-if (leb m.max_slabs m.alloced_slabs)
      (λ e.
        let full : m.max_slabs ≤ v.len = ground (arith, e, number) in
        returns (record {
          longer = no_more m taken v.len v.at v.slabbed v.sorted count (inr full);
          first = inl (refl, full);
        }))
      (λ e.
        let less : v.len < m.max_slabs = ground (arith, e, number) in
        Returns-bind (add_slabs-Longer count m taken v.len v.at v.slabbed v.sorted (inr less))
          λ m' l. returns (record { longer = l; first = inr (less, ground (arith, some)) }))
