-- ===== src/MemPool/Grow.antt =====
-- ndk/mem_pool.cpp: alloc_slabs.
use cute_ndk.Base.{
  ℕ, ◌+◌, ◌-◌, ◌≤◌, ◌<◌, ◌^◌, ◌%◌, ◌≡◌, ◌≢◌, ◌⊎◌, inl, inr, refl, sym, ap, ◌∙◌, Bool, true, false,
  Bool-cases, ◌==◌, if◌then◌else◌, arith, Returns, returns, Returns-if, Returns-bind,
}
use mathlib.Core.Path.{subst}
use native.Mathlib.Decide.{ℕ_discrete}
use cute_ndk.Base.Array.{upd, upd_self, upd_ne}
use cute_ndk.Heap.Places.{Has, Has-grow}
use cute_ndk.MemPool.{MemPool, SlabHeader}
use cute_ndk.MemPool.Chunks.{Chain, IsSlab, within, at_slab}
use cute_ndk.MemPool.Slabs.{add_slab}
use cute_ndk.MemPool.Row.{Row}
use cute_ndk.MemPool.Sorted.{IsSorted, largest}
use cute_ndk.MemPool.Pool.{Slabbed, IsSlab-same, place-IsSlab, base, stop}

-- No free chunk is larger than a slab.
pub largest_bounded :
    (m : MemPool) (taken : ℕ → ℕ → Bool) (n : ℕ) (at : ℕ → ℕ)
    → Slabbed m taken n at
    → (x : ℕ) → Has n at x
    → largest m x ≤ m.slab_size
largest_bounded m taken n at v x h =
    let s = v.slabs x h in
    elim s.largest [
      | inl (_, e) ↦ omega (arith, e)
      | inr f ↦
          let (low, high) =
            within m.objs x (base m x) (stop m x) s.len s.at s.chain f.place f.inside in
          ground (arith, low, high, f.here, f.fits)
    ]

-- The header of a new slab, which is one chunk.
abbrev new_header : MemPool → ℕ → SlabHeader
new_header m p = record {
  inuse_objs = 0;
  max_seriate_size = m.slab_size;
  head = m.fresh;
  max_seriate_free_head = m.fresh;
  prev = p;
  next = 0;
}

-- The pool with a slab more at the end, for which other headers `slabs` are stored.
abbrev extended : MemPool → (ℕ → SlabHeader) → ℕ → MemPool
extended m slabs head = record m {
  objs =
      upd m.objs m.fresh
        (record (m.objs m.fresh) { size = m.slab_size; slab = m.fresh_slab; prev = 0; next = 0 });
  slabs = slabs;
  slabs_head = head;
  slabs_tail = m.fresh_slab;
  alloced_slabs = (m.alloced_slabs + 1) % 2 ^ 32;
  fresh = m.fresh + m.slab_size + 32;
  fresh_slab = m.fresh_slab + 1;
}

-- The header but for the pointer to the next slab.
abbrev unlinked : SlabHeader → SlabHeader
unlinked h = record h { next = 0 }

-- The slab `i` is linked to another one.
linked-unlinked :
    (f : ℕ → SlabHeader) (i s x : ℕ)
    → unlinked (upd f i (record (f i) { next = s }) x) ≡ unlinked (f x)
linked-unlinked f i s x = elim (ℕ_discrete i x) [
  | yes e ↦
      ap (λ y. unlinked (upd f i (record (f i) { next = s }) y)) (sym e)
      ∙ ap unlinked (upd_self f i _)
      ∙ ap (λ y. unlinked (f y)) e
  | no e ↦ ap unlinked (upd_ne f i x _ e)
]

-- A slab more, and what stays.
pub record Added (m : MemPool) (taken : ℕ → ℕ → Bool) (n : ℕ) (at : ℕ → ℕ) (m' : MemPool)
    : Type 0 where
  pub slabbed : Slabbed m' taken (n + 1) (upd at n m.fresh_slab)
  pub sorted : IsSorted m' (n + 1) (upd at n m.fresh_slab)
  pub whole : largest m' m.fresh_slab ≡ m.slab_size
  pub sizes : (x : ℕ) → x < m.fresh_slab → largest m' x ≡ largest m x
  pub bases : (x : ℕ) → x < m.fresh_slab → base m' x ≡ base m x
  pub objs : (a : ℕ) → a < m.fresh → m'.objs a ≡ m.objs a
  pub later : (m.fresh ≤ m'.fresh) × (m'.fresh_slab ≡ m.fresh_slab + 1)
  pub limits :
      (m'.slab_size ≡ m.slab_size)
      × (m'.max_slabs ≡ m.max_slabs)
      × (m'.prealloc_slab_num ≡ m.prealloc_slab_num)

module _ (m : MemPool) (taken : ℕ → ℕ → Bool) (n : ℕ) (at : ℕ → ℕ) (v : Slabbed m taken n at)
    (sorted : IsSorted m n at) (room : n < m.max_slabs) where
  abbrev slab : ℕ
  slab = m.fresh_slab

  abbrev at' : ℕ → ℕ
  at' = upd at n slab

  older : (k : ℕ) → k < n → at k < slab
  older k h = (v.old (at k) (k, h, refl)).1

  module _ (slabs : ℕ → SlabHeader) (head : ℕ)
      (mine : slabs slab ≡ new_header m (if n == 0 then 0 else at (n - 1)))
      (same : (x : ℕ) → x ≢ slab → unlinked (slabs x) ≡ unlinked (m.slabs x))
      (linked : (k : ℕ) → k < n → (slabs (at k)).next ≡ (if k + 1 == n then slab else at (k + 1)))
      (first : head ≡ (if n == 0 then slab else at 0)) where
    abbrev pool : MemPool
    pool = extended m slabs head

    same_prev : (x : ℕ) → x ≢ slab → (slabs x).prev ≡ (m.slabs x).prev
    same_prev x h = ap (λ y. y.prev) (same x h)

    same_size : (x : ℕ) → x ≢ slab → (slabs x).max_seriate_size ≡ (m.slabs x).max_seriate_size
    same_size x h = ap (λ y. y.max_seriate_size) (same x h)

    same_head : (x : ℕ) → x ≢ slab → (slabs x).head ≡ (m.slabs x).head
    same_head x h = ap (λ y. y.head) (same x h)

    own_size : (slabs slab).max_seriate_size ≡ m.slab_size
    own_size = ap (λ y. y.max_seriate_size) mine

    own_prev : (slabs slab).prev ≡ (if n == 0 then 0 else at (n - 1))
    own_prev = ap (λ y. y.prev) mine

    own_next : (slabs slab).next ≡ 0
    own_next = ap (λ y. y.next) mine

    extended-Row : Row pool (n + 1) at'
    extended-Row = record {
      head = λ h. ground (arith, first);
      empty = λ h. absurd (omega arith);
      tail = λ k h. ground arith;
      real = λ k h. ground (arith, v.row.real k, v.started);
      apart = λ j k h l. ground (arith, v.row.apart j k, older j);
      next = λ k h. ground (arith, linked k);
      last = λ k h. ground (arith, own_next);
      prev = λ k h. ground (arith, own_prev, older (k + 1), same_prev (at (k + 1)), v.row.prev k);
      front = λ h. ground (arith, own_prev, older 0, same_prev (at 0), v.row.front);
    }

    big : (k : ℕ) → k < n → largest m (at k) ≤ m.slab_size
    big k h = largest_bounded m taken n at v (at k) (k, h, refl)

    extended-IsSorted : IsSorted pool (n + 1) at'
    extended-IsSorted j k h l =
        ground
          (arith, own_size, older j, older k, same_size (at j), same_size (at k), sorted j k, big j)

    -- The memory of the new slab is one free chunk.
    new-Chain : Chain pool.objs slab m.fresh (m.fresh + 32 + m.slab_size) 1 (λ _. m.fresh)
    new-Chain = record {
      some = omega arith;
      first = refl;
      real = v.started.0;
      bounded = omega (arith, v.bounded);
      step = λ k h. absurd (omega arith);
      stops = λ k h. ground arith;
      apart = λ j k h l. absurd (omega arith);
      next = λ k h. absurd (omega arith);
      last = λ k h. ground arith;
      prev = λ k h. absurd (omega arith);
      front = ground arith;
      owner = λ k h. ground arith;
    }

    unborn : (a : ℕ) → taken slab a ≡ true → ⊥
    unborn a h = let (c, l, e) = v.owned slab a h in omega (arith, older c l, e)

    not_taken : (a : ℕ) → taken slab a ≡ false
    not_taken a = elim (Bool-cases (taken slab a)) [ inl e ↦ absurd (unborn a e) | inr e ↦ e ]

    new-IsSlab :
        IsSlab pool.objs (slabs slab) slab m.fresh (m.fresh + 32 + m.slab_size) (taken slab)
    new-IsSlab = record {
      len = 1;
      at = λ _. m.fresh;
      chain = new-Chain;
      marked = λ k h t. absurd (unborn m.fresh t);
      only = λ a t. absurd (unborn a t);
      starts = ap (λ y. y.head) mine;
      largest = inr (record {
        place = 0;
        inside = omega arith;
        here = sym (ap (λ y. y.max_seriate_free_head) mine);
        free = not_taken _;
        fits =
            ap (λ y. (pool.objs y.max_seriate_free_head).size) mine
            ∙ ap (λ o. o.size) (upd_self m.objs m.fresh _)
            ∙ sym own_size;
      });
    }

    -- An old slab is as it was.
    old-IsSlab : (x : ℕ) → Has n at x → IsSlab pool.objs (slabs x) x (base m x) (stop m x) (taken x)
    old-IsSlab x h =
        let (below, before) = v.old x h in
        let apart : x ≢ slab = omega (arith, before) in
        IsSlab-same m.objs pool.objs (m.slabs x) (slabs x) x (base m x) (stop m x) (taken x)
          (λ a l g. upd_ne m.objs m.fresh a _ (omega (arith, g, below))) (same_head x apart)
          (same_size x apart) (ap (λ y. y.max_seriate_free_head) (same x apart)) (v.slabs x h)

    split : (x : ℕ) → Has (n + 1) at' x → Has n at x ⊎ (x ≡ slab)
    split x = (Has-grow n at slab x).0

    new_base : base pool slab ≡ m.fresh
    new_base = ap (λ y. y.head) mine

    old_base : (x : ℕ) → Has n at x → base pool x ≡ base m x
    old_base x h = same_head x (omega (arith, (v.old x h).1))

    extended-Slabbed : Slabbed pool taken (n + 1) at'
    extended-Slabbed = record {
      row = extended-Row;
      count = ground (arith, v.count, v.limit, room);
      slabs = λ x h. elim (split x h) [
        | inl old ↦
            let e = sym (old_base x old) in
            place-IsSlab pool.objs (slabs x) x (base m x) (stop m x) (base pool x) (stop pool x)
              (taken x) e (ap (λ b. b + 32 + m.slab_size) e) (old-IsSlab x old)
        | inr new ↦
            subst (λ y. IsSlab pool.objs (slabs y) y (base pool y) (stop pool y) (taken y))
              (sym new)
              (place-IsSlab pool.objs (slabs slab) slab m.fresh (m.fresh + 32 + m.slab_size)
                (base pool slab) (stop pool slab) (taken slab) (sym new_base)
                (ap (λ b. b + 32 + m.slab_size) (sym new_base)) new-IsSlab)
      ];
      regions = λ x y h g e. elim (split x h) [
        | inl old ↦ elim (split y g) [
          | inl other ↦ ground (arith, v.regions x y old other e, old_base x old, old_base y other)
          | inr new ↦ ground (arith, (v.old x old).0, old_base x old, new_base, new)
        ]
        | inr new ↦ elim (split y g) [
          | inl other ↦ ground (arith, (v.old y other).0, old_base y other, new_base, new)
          | inr same ↦ absurd (e (new ∙ sym same))
        ]
      ];
      old = λ x h. elim (split x h) [
        | inl old ↦
            (ground (arith, (v.old x old).0, old_base x old), omega (arith, (v.old x old).1))
        | inr new ↦ (ground (arith, new_base, new), omega (arith, new))
      ];
      bounded = v.bounded;
      limit = v.limit;
      most = omega (arith, room);
      rounded = v.rounded;
      growing = v.growing;
      started = (omega (arith, v.started), omega arith);
      owned = λ x a t. (Has-grow n at slab x).1 (inl (v.owned x a t));
    }

    extended-Added : Added m taken n at pool
    extended-Added = record {
      slabbed = extended-Slabbed;
      sorted = extended-IsSorted;
      whole = own_size;
      sizes = λ x h. same_size x (omega (arith, h));
      bases = λ x h. same_head x (omega (arith, h));
      objs = λ a h. upd_ne m.objs m.fresh a _ (omega (arith, h));
      later = (omega arith, refl);
      limits = (refl, refl, refl);
    }

  none_yet : m.slabs_head ≡ 0 → n ≡ 0
  none_yet e = ground (arith, v.row.head, v.row.real 0, e)

  some_yet : m.slabs_head ≢ 0 → 0 < n
  some_yet e = ground (arith, v.row.empty, e)

  -- The headers with the new one, and with the last slab linked to it.
  abbrev with_new : ℕ → SlabHeader
  with_new = upd m.slabs slab (new_header m 0)

  abbrev with_link : ℕ → SlabHeader
  with_link = upd with_new m.slabs_tail (record (with_new m.slabs_tail) { next = slab })

  with_new-same : (x : ℕ) → x ≢ slab → with_new x ≡ m.slabs x
  with_new-same x h = upd_ne m.slabs slab x (new_header m 0) (λ y. h (sym y))

  pub add_slab-Added : Returns (Added m taken n at) (add_slab m)
  unfolding add_slab
  add_slab-Added =
      Returns-bind
        {P = λ m'.
          Added m taken n at (record m' { alloced_slabs = (m'.alloced_slabs + 1) % 2 ^ 32 })}
        (Returns-if (m.slabs_head == 0)
          (λ e.
            let z : n ≡ 0 = none_yet (ground (arith, e)) in
            returns (
              extended-Added _ _ (upd_self m.slabs slab _ ∙ ap (new_header m) (ground (arith, z)))
                (λ x h. ap unlinked (with_new-same x h)) (λ k h. absurd (omega (arith, z, h)))
                (ground (arith, z))))
          (λ e.
            let some : 0 < n = some_yet (ground (arith, e)) in
            let last : m.slabs_tail ≡ at (n - 1) = v.row.tail (n - 1) (omega (arith, some)) in
            let real : m.slabs_tail ≢ 0 = ground (arith, last, v.row.real (n - 1), some) in
            let apart : slab ≢ m.slabs_tail = ground (arith, last, older (n - 1), some) in
            at_slab _ m.slabs_tail _ real (
              returns (
                extended-Added _ _
                  (upd_self with_link slab (new_header m m.slabs_tail)
                    ∙ ap (new_header m) (ground (arith, last, some)))
                  (λ x h.
                    ap unlinked
                      (upd_ne with_link slab x (new_header m m.slabs_tail) (λ y. h (sym y)))
                    ∙ linked-unlinked with_new m.slabs_tail slab x
                    ∙ ap unlinked (with_new-same x h))
                  (λ k h.
                    ground (arith, last, older k, v.row.apart k (n - 1), v.row.next k, h, apart))
                  (ground (arith, some, v.row.head))))))
        λ m' s. returns s
