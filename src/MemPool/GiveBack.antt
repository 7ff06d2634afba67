-- ===== src/MemPool/GiveBack.antt =====
-- ndk/mem_pool.cpp: free, for the whole pool.
use cute_ndk.Base.{
  ℕ, ◌+◌, ◌-◌, ◌≤◌, ◌<◌, ◌≡◌, ◌≢◌, ◌⊎◌, refl, sym, ap, ◌∙◌, Bool, true, false, ◌==◌, ◌||◌, arith,
  Returns, returns, Returns-bind,
}
use mathlib.Core.Path.{subst}
use cute_ndk.Base.Array.{upd, upd_self}
use cute_ndk.Heap.Places.{Has}
use cute_ndk.MemPool.{MemPool, ObjHeader, set_slab}
use cute_ndk.MemPool.Calls.{free, give_back}
use cute_ndk.MemPool.Chunks.{IsSlab, within, at_object, at_slab}
use cute_ndk.MemPool.Free.{Recycled, Room, recycle_correct}
use cute_ndk.MemPool.Slabs.{order_back}
use cute_ndk.MemPool.Row.{Row}
use cute_ndk.MemPool.Sorted.{IsSorted, Ordered, order_back-Ordered, largest}
use cute_ndk.MemPool.Pool.{IsPool, Touched, Touched-Slabbed, Ordered-IsPool, base, stop}

-- The count of the chunks in use is no part of the rest.
counted-Ordered :
    (m : MemPool) (n : ℕ) (at : ℕ → ℕ) (slab count : ℕ)
    → Row m n at
    → IsSorted m n at
    → Ordered m n at (set_slab m slab (record (m.slabs slab) { inuse_objs = count }))
counted-Ordered m n at slab count r s = record {
  order = at;
  row = record {
    head = r.head;
    empty = r.empty;
    tail = r.tail;
    real = r.real;
    apart = r.apart;
    next = λ k h. ground (arith, r.next k h);
    last = λ k h. ground (arith, r.last k h);
    prev = λ k h. ground (arith, r.prev k h);
    front = λ h. ground (arith, r.front h);
  };
  sorted = λ j k h l. ground (arith, s j k h l);
  members = λ x. (λ h. h, λ h. h);
  size = λ x. ground arith;
  chunks = λ x. ground arith;
  best = λ x. ground arith;
  rest = refl;
}

pub counted-IsPool :
    (m : MemPool) (taken : ℕ → ℕ → Bool) (slab count : ℕ)
    → IsPool m taken
    → IsPool (set_slab m slab (record (m.slabs slab) { inuse_objs = count })) taken
counted-IsPool m taken slab count v =
    Ordered-IsPool m taken v.len v.at _ v.slabbed
      (counted-Ordered m v.len v.at slab count v.slabbed.row v.sorted)

-- What free leaves: the chunk is no more in use but in a free chunk, with the free ones beside it, and
-- everything outside its slab is as it was.
pub record Returned (m : MemPool) (taken : ℕ → ℕ → Bool) (slab p : ℕ) (m' : MemPool) : Type 0 where
  pub pool : IsPool m' (upd taken slab (upd (taken slab) p false))
  pub room : Room m.objs m'.objs (upd (taken slab) p false) p (m'.slabs slab).max_seriate_size
  pub kept : (a : ℕ) → taken slab a ≡ true → a ≢ p → (m'.objs a).size ≡ (m.objs a).size
  pub outside : (a : ℕ) → a < base m slab ⊎ stop m slab ≤ a → m'.objs a ≡ m.objs a

module _ (m : MemPool) (taken : ℕ → ℕ → Bool) (v : IsPool m taken) (slab p : ℕ)
    (own : taken slab p ≡ true) where
  member : Has v.len v.at slab
  member = v.slabbed.owned slab p own

  real : slab ≢ 0
  real = let (c, h, e) = member in ground (arith, v.slabbed.row.real c h, e)

  abbrev its : IsSlab m.objs (m.slabs slab) slab (base m slab) (stop m slab) (taken slab)
  its = v.slabbed.slabs slab member

  Recycled-Touched :
      (r : MemPool × ℕ)
      → Recycled m slab (base m slab) (stop m slab) (taken slab) p r
      → Touched m slab (upd (taken slab) p false) r.0
  Recycled-Touched r s = record {
    valid = s.valid;
    linked = s.linked;
    outside = s.outside;
    others = s.others;
    rest = s.rest;
  }

  same_largest :
      (r : MemPool × ℕ)
      → Recycled m slab (base m slab) (stop m slab) (taken slab) p r
      → (j c : ℕ) → j < v.len
      → c < v.len
      → v.at c ≡ slab
      → j ≢ c
      → largest r.0 (v.at j) ≡ largest m (v.at j)
  same_largest r s j c h l e x =
      ap (λ y. y.max_seriate_size)
        (s.others (v.at j) (ground (arith, v.slabbed.row.apart j c, v.slabbed.row.apart c j, e)))

  -- Only the slab of the chunk may be out of order.
  Recycled-Ordered :
      (r : MemPool × ℕ)
      → Recycled m slab (base m slab) (stop m slab) (taken slab) p r
      → Returns (λ m'. Ordered r.0 v.len v.at m') (order_back (r.0.alloced_slabs + 1) r.0 slab)
  Recycled-Ordered r s =
      let (c, h, e) = member in
      let t = Recycled-Touched r s in
      let w =
        Touched-Slabbed m taken v.len v.at v.slabbed slab member (upd (taken slab) p false) r.0 t in
      subst (λ x. Returns (Ordered r.0 v.len v.at) (order_back (r.0.alloced_slabs + 1) r.0 x)) e
        (order_back-Ordered (r.0.alloced_slabs + 1) r.0 v.len v.at c w.row
          (record {
            inside = h;
            others = λ j k g l x y.
                ground (arith, v.sorted j k g l, same_largest r s j c, same_largest r s k c, h, e);
          })
          (λ j l. ground (arith, v.sorted j c l h, same_largest r s j c, s.grown, h, e))
          (omega (arith, w.count)))

  abbrev taken_after : ℕ → ℕ → Bool
  taken_after = upd taken slab (upd (taken slab) p false)

  after_order :
      (r : MemPool × ℕ)
      → Recycled m slab (base m slab) (stop m slab) (taken slab) p r
      → (m2 : MemPool) → Ordered r.0 v.len v.at m2
      → IsPool m2 taken_after
  after_order r s m2 o =
      Ordered-IsPool r.0 taken_after v.len v.at m2
        (Touched-Slabbed m taken v.len v.at v.slabbed slab member (upd (taken slab) p false) r.0
          (Recycled-Touched r s))
        o

  moved-Room :
      (objs objs' : ℕ → ObjHeader) (most most' : ℕ)
      → objs' ≡ objs
      → most' ≡ most
      → Room m.objs objs (upd (taken slab) p false) p most
      → Room m.objs objs' (upd (taken slab) p false) p most'
  moved-Room objs objs' most most' e f r =
      subst (Room m.objs objs' (upd (taken slab) p false) p) (sym f)
        (subst (λ x. Room m.objs x (upd (taken slab) p false) p most) (sym e) r)

  back_to : (p : ℕ) → p + 32 - 32 ≡ p
  back_to p = omega arith

  give_back_correct : Returns (Returned m taken slab p) (give_back m p)
  unfolding give_back
  give_back_correct =
      Returns-bind (recycle_correct m slab (base m slab) (stop m slab) (taken slab) p its real own)
        λ r s. rw s.owner (
          Returns-bind (Recycled-Ordered r s) λ m2 o. at_slab m2 slab _ real (
            returns (record {
              pool = counted-IsPool m2 (taken_after) slab _ (after_order r s m2 o);
              room =
                  moved-Room r.0.objs m2.objs (r.0.slabs slab).max_seriate_size _
                    (ap (λ y. y.objs) o.rest)
                    (ap (λ y. y.max_seriate_size) (upd_self m2.slabs slab _) ∙ o.size slab) s.room;
              kept = λ a h e. ap (λ y. (y.objs a).size) o.rest ∙ s.kept a h e;
              outside = λ a h. ap (λ y. y.objs a) o.rest ∙ s.outside a h;
            })))

  pub free_correct : Returns (Returned m taken slab p) (free m (p + 32))
  unfolding free
  free_correct =
      let (c, h, e) = member in
      let (i, g, x) = its.only p own in
      let chunk : p ≢ 0 = ground (
        arith,
        x,
        (within m.objs slab (base m slab) (stop m slab) its.len its.at its.chain i g).0,
        its.chain.real,
      ) in
      let test : ((p + 32 == 0) || (m.slabs_head == 0)) ≡ false =
        ground (arith, v.slabbed.row.head, v.slabbed.row.real 0, h) in
      let marked : ((m.objs p).inuse == 19) ≡ true = ground (arith, its.marked i g, x, own) in
      rw (test, back_to p) (at_object m p _ chunk (rw marked give_back_correct))
