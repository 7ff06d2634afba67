-- ===== src/MemPool/Pool.antt =====
-- ndk/mem_pool.h: the pool, as the calls leave it.
use cute_ndk.Base.{
  ℕ, ◌+◌, ◌≤◌, ◌<◌, ◌^◌, ◌%◌, ◌≡◌, ◌≢◌, ◌⊎◌, inl, inr, sym, ap, ◌∙◌, Bool, true, arith,
}
use mathlib.Core.Path.{subst}
use native.Mathlib.Decide.{ℕ_discrete}
use cute_ndk.Base.Array.{upd, upd_self, upd_ne}
use cute_ndk.Heap.Places.{Has}
use cute_ndk.MemPool.{MemPool, ObjHeader, SlabHeader}
use cute_ndk.MemPool.Chunks.{Chain-same, IsSlab, within}
use cute_ndk.MemPool.Row.{Row}
use cute_ndk.MemPool.Sorted.{IsSorted, Ordered}

-- Where the memory of a slab starts, and the address behind it.
abbrev pub base : MemPool → ℕ → ℕ
base m s = (m.slabs s).head

abbrev pub stop : MemPool → ℕ → ℕ
stop m s = (m.slabs s).head + 32 + m.slab_size

-- The slabs at `at` are linked; the chunks of each are in order, and those in `taken` of the slab are
-- the application's; no two slabs share memory, and none reaches into memory that is still fresh.
pub record Slabbed (m : MemPool) (taken : ℕ → ℕ → Bool) (n : ℕ) (at : ℕ → ℕ) : Type 0 where
  pub row : Row m n at
  pub count : m.alloced_slabs ≡ n
  pub slabs : (x : ℕ) → Has n at x → IsSlab m.objs (m.slabs x) x (base m x) (stop m x) (taken x)
  pub regions :
      (x y : ℕ) → Has n at x → Has n at y → x ≢ y → stop m x ≤ base m y ⊎ stop m y ≤ base m x
  pub old : (x : ℕ) → Has n at x → (stop m x ≤ m.fresh) × (x < m.fresh_slab)
  pub bounded : m.slab_size + 32 < 2 ^ 32
  pub limit : m.max_slabs < 2 ^ 32
  pub most : n ≤ m.max_slabs
  pub rounded : m.slab_size % 8 ≡ 0
  pub growing : 0 < m.prealloc_slab_num
  pub started : (0 < m.fresh) × (0 < m.fresh_slab)
  pub owned : (x a : ℕ) → taken x a ≡ true → Has n at x

-- The slabs are sorted by their largest free chunks too.
pub record IsPool (m : MemPool) (taken : ℕ → ℕ → Bool) : Type 0 where
  pub len : ℕ
  pub at : ℕ → ℕ
  pub slabbed : Slabbed m taken len at
  pub sorted : IsSorted m len at

-- A slab whose memory is untouched.
pub IsSlab-same :
    (objs objs' : ℕ → ObjHeader) (h h' : SlabHeader) (slab base stop : ℕ) (taken : ℕ → Bool)
    → ((a : ℕ) → base ≤ a → a < stop → objs' a ≡ objs a)
    → h'.head ≡ h.head
    → h'.max_seriate_size ≡ h.max_seriate_size
    → h'.max_seriate_free_head ≡ h.max_seriate_free_head
    → IsSlab objs h slab base stop taken
    → IsSlab objs' h' slab base stop taken
IsSlab-same objs objs' h h' slab base stop taken e a b c v =
    let bounds = within objs slab base stop v.len v.at v.chain in
    let same : (k : ℕ) → k < v.len → objs' (v.at k) ≡ objs (v.at k) =
      λ k l. e (v.at k) ((bounds k l).0) (omega (arith, (bounds k l).1)) in
    record {
      len = v.len;
      at = v.at;
      chain = Chain-same objs objs' slab base stop v.len v.at v.chain λ k l. (
        ap (λ o. o.size) (same k l),
        ap (λ o. o.prev) (same k l),
        ap (λ o. o.next) (same k l),
        ap (λ o. o.slab) (same k l) ∙ v.chain.owner k l,
      );
      marked = λ k l t. ap (λ o. o.inuse) (same k l) ∙ v.marked k l t;
      only = v.only;
      starts = a ∙ v.starts;
      largest = elim v.largest [
        | inl (x, y) ↦ inl (c ∙ x, b ∙ y)
        | inr f ↦ inr (record {
          place = f.place;
          inside = f.inside;
          here = f.here ∙ sym c;
          free = ap taken c ∙ f.free;
          fits =
              ap (λ y. (objs' y).size) (c ∙ sym f.here)
              ∙ ap (λ o. o.size) (same f.place f.inside)
              ∙ ap (λ y. (objs y).size) f.here
              ∙ f.fits
              ∙ sym b;
        })
      ];
    }

pub place-IsSlab :
    (objs : ℕ → ObjHeader) (h : SlabHeader) (slab base stop base' stop' : ℕ) (taken : ℕ → Bool)
    → base ≡ base'
    → stop ≡ stop'
    → IsSlab objs h slab base stop taken
    → IsSlab objs h slab base' stop' taken
place-IsSlab objs h slab base stop base' stop' taken e f v =
    subst (λ b. IsSlab objs h slab b stop' taken) e
      (subst (λ t. IsSlab objs h slab base t taken) f v)

-- The slabs are put in another order.
module _ (m : MemPool) (taken : ℕ → ℕ → Bool) (n : ℕ) (at : ℕ → ℕ) (m' : MemPool)
    (v : Slabbed m taken n at) (s : Ordered m n at m') where
  same_objs : m'.objs ≡ m.objs
  same_objs = ap (λ y. y.objs) s.rest

  same_stop : (x : ℕ) → stop m' x ≡ stop m x
  same_stop x = ground (arith, s.chunks x, ap (λ y. y.slab_size) s.rest)

  pub Ordered-IsPool : IsPool m' taken
  Ordered-IsPool = record {
    len = n;
    at = s.order;
    slabbed = record {
      row = s.row;
      count = ap (λ y. y.alloced_slabs) s.rest ∙ v.count;
      slabs = λ x h.
          place-IsSlab m'.objs (m'.slabs x) x (base m x) (stop m x) (base m' x) (stop m' x)
            (taken x) (sym (s.chunks x)) (sym (same_stop x))
            (IsSlab-same m.objs m'.objs (m.slabs x) (m'.slabs x) x (base m x) (stop m x) (taken x)
              (λ a b c. ap (λ y. y a) same_objs) (s.chunks x) (s.size x) (s.best x)
              (v.slabs x ((s.members x).0 h)));
      regions = λ x y h g e. ground (
        arith,
        v.regions x y ((s.members x).0 h) ((s.members y).0 g) e,
        s.chunks x,
        s.chunks y,
        same_stop x,
        same_stop y,
      );
      old = λ x h.
          let (a, b) = v.old x ((s.members x).0 h) in
          (
            ground (arith, a, same_stop x, ap (λ y. y.fresh) s.rest),
            ground (arith, b, ap (λ y. y.fresh_slab) s.rest),
          );
      bounded = ground (arith, v.bounded, ap (λ y. y.slab_size) s.rest);
      limit = ground (arith, v.limit, ap (λ y. y.max_slabs) s.rest);
      most = ground (arith, v.most, ap (λ y. y.max_slabs) s.rest);
      rounded = ground (arith, v.rounded, ap (λ y. y.slab_size) s.rest);
      growing = ground (arith, v.growing, ap (λ y. y.prealloc_slab_num) s.rest);
      started = (
        ground (arith, v.started, ap (λ y. y.fresh) s.rest),
        ground (arith, v.started, ap (λ y. y.fresh_slab) s.rest),
      );
      owned = λ x a h. (s.members x).1 (v.owned x a h);
    };
    sorted = s.sorted;
  }

-- A call has changed chunks of one slab, and what its header knows of them.
pub record Touched (m : MemPool) (slab : ℕ) (taken : ℕ → Bool) (m' : MemPool) : Type 0 where
  pub valid : IsSlab m'.objs (m'.slabs slab) slab (base m slab) (stop m slab) taken
  pub linked :
      ((m'.slabs slab).prev ≡ (m.slabs slab).prev) × ((m'.slabs slab).next ≡ (m.slabs slab).next)
  pub outside : (a : ℕ) → a < base m slab ⊎ stop m slab ≤ a → m'.objs a ≡ m.objs a
  pub others : (x : ℕ) → x ≢ slab → m'.slabs x ≡ m.slabs x
  pub rest : m' ≡ record m { objs = m'.objs; slabs = m'.slabs }

module _ (m : MemPool) (taken : ℕ → ℕ → Bool) (n : ℕ) (at : ℕ → ℕ) (v : Slabbed m taken n at)
    (slab : ℕ) (member : Has n at slab) (mine : ℕ → Bool) (m' : MemPool)
    (t : Touched m slab mine m') where
  same_base : (x : ℕ) → base m' x ≡ base m x
  same_base x = elim (ℕ_discrete x slab) [
    | yes e ↦ ap (base m') e ∙ t.valid.starts ∙ ap (base m) (sym e)
    | no e ↦ ap (λ h. h.head) (t.others x e)
  ]

  same_end : (x : ℕ) → stop m' x ≡ stop m x
  same_end x = ground (arith, same_base x, ap (λ y. y.slab_size) t.rest)

  same_next : (x : ℕ) → (m'.slabs x).next ≡ (m.slabs x).next
  same_next x = elim (ℕ_discrete x slab) [
    | yes e ↦ ap (λ y. (m'.slabs y).next) e ∙ t.linked.1 ∙ ap (λ y. (m.slabs y).next) (sym e)
    | no e ↦ ap (λ h. h.next) (t.others x e)
  ]

  same_prev : (x : ℕ) → (m'.slabs x).prev ≡ (m.slabs x).prev
  same_prev x = elim (ℕ_discrete x slab) [
    | yes e ↦ ap (λ y. (m'.slabs y).prev) e ∙ t.linked.0 ∙ ap (λ y. (m.slabs y).prev) (sym e)
    | no e ↦ ap (λ h. h.prev) (t.others x e)
  ]

  Touched-Row : Row m' n at
  Touched-Row = record {
    head = λ h. ap (λ y. y.slabs_head) t.rest ∙ v.row.head h;
    empty = λ h. ap (λ y. y.slabs_head) t.rest ∙ v.row.empty h;
    tail = λ k h. ap (λ y. y.slabs_tail) t.rest ∙ v.row.tail k h;
    real = v.row.real;
    apart = v.row.apart;
    next = λ k h. same_next (at k) ∙ v.row.next k h;
    last = λ k h. same_next (at k) ∙ v.row.last k h;
    prev = λ k h. same_prev (at (k + 1)) ∙ v.row.prev k h;
    front = λ h. same_prev (at 0) ∙ v.row.front h;
  }

  -- The chunks in use of all slabs, where those of the one slab are `mine`.
  abbrev taken_now : ℕ → ℕ → Bool
  taken_now = upd taken slab mine

  its_own : (x : ℕ) → Has n at x → IsSlab m'.objs (m'.slabs x) x (base m x) (stop m x) (taken_now x)
  its_own x h = elim (ℕ_discrete x slab) [
    | yes e ↦
        subst (λ y. IsSlab m'.objs (m'.slabs y) y (base m y) (stop m y) (taken_now y)) (sym e)
          (subst (IsSlab m'.objs (m'.slabs slab) slab (base m slab) (stop m slab))
            (sym (upd_self taken slab mine)) t.valid)
    | no e ↦
        subst (IsSlab m'.objs (m'.slabs x) x (base m x) (stop m x))
          (sym (upd_ne taken slab x mine (λ y. e (sym y))))
          (IsSlab-same m.objs m'.objs (m.slabs x) (m'.slabs x) x (base m x) (stop m x) (taken x)
            (λ a l g. t.outside a (ground (arith, v.regions x slab h member e, l, g)))
            (ap (λ y. y.head) (t.others x e)) (ap (λ y. y.max_seriate_size) (t.others x e))
            (ap (λ y. y.max_seriate_free_head) (t.others x e)) (v.slabs x h))
  ]

  pub Touched-Slabbed : Slabbed m' taken_now n at
  Touched-Slabbed = record {
    row = Touched-Row;
    count = ap (λ y. y.alloced_slabs) t.rest ∙ v.count;
    slabs = λ x h.
        place-IsSlab m'.objs (m'.slabs x) x (base m x) (stop m x) (base m' x) (stop m' x)
          (taken_now x) (sym (same_base x)) (sym (same_end x)) (its_own x h);
    regions = λ x y h g e.
        ground (arith, v.regions x y h g e, same_base x, same_base y, same_end x, same_end y);
    old = λ x h.
        let (a, b) = v.old x h in
        (
          ground (arith, a, same_end x, ap (λ y. y.fresh) t.rest),
          ground (arith, b, ap (λ y. y.fresh_slab) t.rest),
        );
    bounded = ground (arith, v.bounded, ap (λ y. y.slab_size) t.rest);
    limit = ground (arith, v.limit, ap (λ y. y.max_slabs) t.rest);
    most = ground (arith, v.most, ap (λ y. y.max_slabs) t.rest);
    rounded = ground (arith, v.rounded, ap (λ y. y.slab_size) t.rest);
    growing = ground (arith, v.growing, ap (λ y. y.prealloc_slab_num) t.rest);
    started = (
      ground (arith, v.started, ap (λ y. y.fresh) t.rest),
      ground (arith, v.started, ap (λ y. y.fresh_slab) t.rest),
    );
    owned = λ x a h. elim (ℕ_discrete x slab) [
      | yes e ↦ subst (Has n at) (sym e) member
      | no e ↦ v.owned x a (ap (λ f. f a) (sym (upd_ne taken slab x mine (λ y. e (sym y)))) ∙ h)
    ];
  }
