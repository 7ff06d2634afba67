-- ===== src/MemPool/Free.antt =====
-- ndk/mem_pool.cpp: free, for the slab of the chunk.
use cute_ndk.Base.{
  ℕ, ◌+◌, ◌≤◌, ◌<◌, ◌≡◌, ◌≢◌, ◌⊎◌, inl, inr, refl, sym, ap, ◌∙◌, Bool, true, false, ltb, arith,
  Returns, returns, Returns-bind, Bool-cases, ==_refl,
}
use cute_ndk.Base.Array.{upd, upd_self}
use cute_ndk.MemPool.{MemPool, ObjHeader, SlabHeader, note_largest, set_object}
use cute_ndk.MemPool.Calls.{recycle}
use cute_ndk.MemPool.Chunks.{Chain-same, IsSlab, IsFree, within, at_object, at_slab}
use cute_ndk.MemPool.Join.{Freeing}
use cute_ndk.MemPool.Merge.{Merged, Back, Ahead, merge-Merged}

-- A free chunk that holds the chunk `p` of `before`, and the ones beside `p` that were free there; its
-- mark is off, and it is no larger than what the slab is sorted by.
pub record Room (before objs : ℕ → ObjHeader) (taken : ℕ → Bool) (p most : ℕ) : Type 0 where
  pub block : ℕ
  pub free : taken block ≡ false
  pub idle : (objs block).inuse ≡ 0
  pub low : block ≤ p
  pub high : p + (before p).size ≤ block + (objs block).size
  pub back : (before p).prev ≢ 0 → (before (before p).prev).inuse ≡ 0 → block ≤ (before p).prev
  pub ahead :
      (before p).next ≢ 0
      → (before (before p).next).inuse ≡ 0
      → (before p).next + (before (before p).next).size ≤ block + (objs block).size
  pub known : (objs block).size ≤ most

-- What free leaves of the slab: the chunk is the application's no more, and the others have kept
-- their places and sizes. Nothing outside the slab changes.
pub record Recycled (m : MemPool) (slab base stop : ℕ) (taken : ℕ → Bool) (p : ℕ) (r : MemPool × ℕ)
    : Type 0 where
  pub owner : r.1 ≡ slab
  pub valid : IsSlab r.0.objs (r.0.slabs slab) slab base stop (upd taken p false)
  pub kept : (a : ℕ) → taken a ≡ true → a ≢ p → (r.0.objs a).size ≡ (m.objs a).size
  pub room : Room m.objs r.0.objs (upd taken p false) p (r.0.slabs slab).max_seriate_size
  pub grown : (m.slabs slab).max_seriate_size ≤ (r.0.slabs slab).max_seriate_size
  pub linked :
      ((r.0.slabs slab).prev ≡ (m.slabs slab).prev) × ((r.0.slabs slab).next ≡ (m.slabs slab).next)
  pub outside : (a : ℕ) → a < base ⊎ stop ≤ a → r.0.objs a ≡ m.objs a
  pub others : (x : ℕ) → x ≢ slab → r.0.slabs x ≡ m.slabs x
  pub rest : r.0 ≡ record m { objs = r.0.objs; slabs = r.0.slabs }

module _ (m : MemPool) (slab base stop : ℕ) (taken : ℕ → Bool) (p : ℕ)
    (v : IsSlab m.objs (m.slabs slab) slab base stop taken) (real : slab ≢ 0)
    (own : taken p ≡ true) where
  abbrev marked_free : MemPool
  marked_free = set_object m p (record (m.objs p) { inuse = 0 })

  marked_free-Freeing :
      Freeing m.objs marked_free.objs (m.slabs slab) slab base stop (upd taken p false) p
  marked_free-Freeing =
      let (i, h, e) = v.only p own in
      let bounds = within m.objs slab base stop v.len v.at v.chain i h in
      record {
        len = v.len;
        at = v.at;
        chain =
            Chain-same m.objs marked_free.objs slab base stop v.len v.at v.chain
              λ k g. (ground arith, ground arith, ground arith, ground (arith, v.chain.owner k g));
        marked = λ k g t. ground (arith, v.marked k g);
        only = λ a t. v.only a (ground arith);
        place = i;
        inside = h;
        here = e;
        free = upd_self taken p false;
        largest = elim v.largest [
          | inl unknown ↦ inl unknown
          | inr f ↦ inr (
              inl (record {
                place = f.place;
                inside = f.inside;
                here = f.here;
                free = ground (arith, f.free);
                fits = ground (arith, f.fits);
              }))
        ];
        kept = λ a t. ground arith;
        outside = λ a g. ground (arith, e, bounds);
      }

  module _ (r : MemPool × ℕ) (s : Merged m.objs slab base stop (upd taken p false) marked_free p r)
      (bk : Back m.objs slab base stop (upd taken p false) marked_free p r.1)
      (ah : Ahead m.objs slab base stop (upd taken p false) marked_free p r) where
    abbrev q : ℕ
    q = r.1

    ground_mark : (marked_free.objs p).inuse ≡ 0
    ground_mark = ground arith

    marked_idle : (x : ℕ) → (m.objs x).inuse ≡ 0 → (marked_free.objs x).inuse ≡ 0
    marked_idle x e = ground (arith, e)

    marked_size : (x : ℕ) → (marked_free.objs x).size ≡ (m.objs x).size
    marked_size x = ground arith

    prev_same : (marked_free.objs p).prev ≡ (m.objs p).prev
    prev_same = ground arith

    next_same : (marked_free.objs p).next ≡ (m.objs p).next
    next_same = ground arith

    abbrev head : SlabHeader
    head = r.0.slabs slab

    chunk_real : q ≢ 0
    chunk_real =
        let t = s.state in
        ground (
          arith,
          (within r.0.objs slab base stop t.len t.at t.chain t.place t.inside).0,
          t.chain.real,
          t.here,
        )

    its_slab : (r.0.objs q).slab ≡ slab
    its_slab = let t = s.state in ground (arith, t.chain.owner t.place t.inside, t.here)

    same_slabs : (x : ℕ) → r.0.slabs x ≡ m.slabs x
    same_slabs x = ap (λ y. y.slabs x) s.rest

    abbrev with_slabs : (ℕ → SlabHeader) → MemPool → MemPool
    with_slabs slabs x = record x { slabs = slabs }

    abbrev Knows : SlabHeader → Type 0
    Knows h =
        ((h.max_seriate_free_head ≡ 0) × (h.max_seriate_size ≡ 0))
        ⊎ IsFree r.0.objs (upd taken p false) s.state.len s.state.at h.max_seriate_size
            h.max_seriate_free_head

    -- The pool, with what the slab knows of its largest free chunk put right.
    noted-Recycled :
        (slabs : ℕ → SlabHeader)
        → (slabs slab).head ≡ head.head
        → (slabs slab).prev ≡ head.prev
        → (slabs slab).next ≡ head.next
        → ((x : ℕ) → x ≢ slab → slabs x ≡ r.0.slabs x)
        → head.max_seriate_size ≤ (slabs slab).max_seriate_size
        → (r.0.objs q).size ≤ (slabs slab).max_seriate_size
        → Knows (slabs slab)
        → Recycled m slab base stop taken p (with_slabs slabs r.0, slab)
    noted-Recycled slabs a b c d grown enough largest =
        let t = s.state in
        record {
          owner = refl;
          valid = record {
            len = t.len;
            at = t.at;
            chain = t.chain;
            marked = t.marked;
            only = t.only;
            starts = ground (arith, a, same_slabs slab, v.starts);
            largest = largest;
          };
          kept = λ x g e. ground (arith, t.kept x);
          room = record {
            block = q;
            free = t.free;
            idle = s.idle ground_mark;
            low = s.low;
            high = omega (arith, s.high, marked_size p);
            back = λ x y.
                let l =
                  bk (λ u. x (sym prev_same ∙ u))
                    (ap (λ z. (marked_free.objs z).inuse) prev_same
                      ∙ marked_idle (m.objs p).prev y) in
                omega (arith, l, prev_same);
            ahead = λ x y.
                let l =
                  ah (λ u. x (sym next_same ∙ u))
                    (ap (λ z. (marked_free.objs z).inuse) next_same
                      ∙ marked_idle (m.objs p).next y) in
                omega (
                  arith,
                  l,
                  next_same,
                  ap (λ z. (marked_free.objs z).size) next_same,
                  marked_size (m.objs p).next,
                );
            known = enough;
          };
          grown = ground (arith, grown, same_slabs slab);
          linked = (ground (arith, b, same_slabs slab), ground (arith, c, same_slabs slab));
          outside = t.outside;
          others = λ x e. d x e ∙ same_slabs x;
          rest = ap (with_slabs slabs) s.rest;
        }

    new_best :
        head.max_seriate_size < (r.0.objs q).size
        → IsFree r.0.objs (upd taken p false) s.state.len s.state.at (r.0.objs q).size q
    new_best h =
        let t = s.state in
        record { place = t.place; inside = t.inside; here = t.here; free = t.free; fits = refl }

    old_best : (r.0.objs q).size ≤ head.max_seriate_size → Knows head
    old_best h = elim s.state.largest [
      | inl unknown ↦ inl unknown
      | inr (inl f) ↦ inr f
      | inr (inr larger) ↦ absurd (omega (arith, larger, h))
    ]

    noted-Returns :
        Returns
          (λ m'. Recycled m slab base stop taken p (m', slab) × ((m'.objs q).slab ≡ slab))
          (note_largest r.0 q)
    unfolding note_largest
    noted-Returns = at_object _ q _ chunk_real (
        rw its_slab (
          at_slab _ slab _ real (elim (Bool-cases (ltb head.max_seriate_size (r.0.objs q).size)) [
            | inl e ↦ rw e (
                returns (
                  noted-Recycled
                      (upd r.0.slabs slab (record head {
                        max_seriate_size = (r.0.objs q).size;
                        max_seriate_free_head = q;
                      }))
                      (ground arith) (ground arith) (ground arith) (λ x g. ground arith)
                      (ground (arith, e)) (ground arith)
                      (rw (==_refl slab) (inr (new_best (ground (arith, e))))),
                  its_slab,
                ))
            | inr e ↦ rw e (
                returns (
                  noted-Recycled r.0.slabs refl refl refl (λ x g. refl) (omega arith)
                      (ground (arith, e)) (old_best (ground (arith, e))),
                  its_slab,
                ))
          ])))

  -- The chunk is merged with the free ones beside it.
  pub recycle_correct : Returns (Recycled m slab base stop taken p) (recycle m p)
  unfolding recycle
  recycle_correct =
      let (i, h, e) = v.only p own in
      let real_chunk : p ≢ 0 =
        ground (arith, e, (within m.objs slab base stop v.len v.at v.chain i h).0, v.chain.real) in
      at_object _ p _ real_chunk (
        Returns-bind
          (merge-Merged m.objs slab base stop (upd taken p false) marked_free p marked_free-Freeing)
          λ r (s, b, a).
            Returns-bind (noted-Returns r s b a)
              λ m' (t, x). at_object _ r.1 _ (chunk_real r s b a) (rw x (returns t)))
