-- ===== src/MemPool/Pop.antt =====
-- ndk/mem_pool.cpp: pop_usable_object.
use cute_ndk.Base.{
  ℕ, ◌+◌, ◌-◌, ◌≤◌, ◌<◌, ◌^◌, ◌≡◌, ◌≢◌, ◌⊎◌, refl, ==_refl, ap, Bool, Bool-cases, inl, inr, sym,
  ◌∙◌, true, false, ltb, ◌&&◌, if◌then◌else◌, arith, Returns, returns, Returns-bind, Returns-if,
}
use mathlib.Core.Path.{subst}
use native.Mathlib.Decide.{ℕ_discrete}
use cute_ndk.Base.Array.{upd}
use cute_ndk.MemPool.{MemPool, SlabHeader, pop_usable_object, split_object, sub_unsigned, set_slab}
use cute_ndk.MemPool.Chunks.{
  Chain, Chain-same, within, IsFree, IsSlab, at_object, at_slab, at_relink,
}
use cute_ndk.MemPool.Cut.{cut_from, cut_at, cut-Chain}

sub_unsigned-ok : (a b : ℕ) → b ≤ a → a < 2 ^ 32 → sub_unsigned a b ≡ a - b
sub_unsigned-ok a b h k = omega arith

-- What pop_usable_object gives: a chunk that was free, of the size asked for or at most 32 bytes
-- more, apart from the chunks in use, which keep their places and sizes. Nothing outside the slab
-- changes.
pub record Popped (m : MemPool) (slab base stop : ℕ) (taken : ℕ → Bool) (n : ℕ) (r : MemPool × ℕ)
    : Type 0 where
  pub unused : taken r.1 ≡ false
  pub enough : n ≤ (r.0.objs r.1).size
  pub tight : (r.0.objs r.1).size ≤ n + 32
  pub inside : (base ≤ r.1) × (r.1 + 32 + (r.0.objs r.1).size ≤ stop)
  pub kept : (a : ℕ) → taken a ≡ true → (r.0.objs a).size ≡ (m.objs a).size
  pub valid : IsSlab r.0.objs (r.0.slabs slab) slab base stop (upd taken r.1 true)
  pub shrunk : (r.0.slabs slab).max_seriate_size ≤ (m.slabs slab).max_seriate_size
  pub linked :
      ((r.0.slabs slab).prev ≡ (m.slabs slab).prev) × ((r.0.slabs slab).next ≡ (m.slabs slab).next)
  pub outside : (a : ℕ) → a < base ⊎ stop ≤ a → r.0.objs a ≡ m.objs a
  pub others : (x : ℕ) → x ≢ slab → r.0.slabs x ≡ m.slabs x
  pub rest : r.0 ≡ record m { objs = r.0.objs; slabs = r.0.slabs }

module _ (m : MemPool) (slab base stop : ℕ) (taken : ℕ → Bool) (n : ℕ)
    (v : IsSlab m.objs (m.slabs slab) slab base stop taken)
    (f : IsFree m.objs taken v.len v.at
      (m.slabs slab).max_seriate_size
      (m.slabs slab).max_seriate_free_head)
    (fits : n ≤ (m.slabs slab).max_seriate_size) where
  abbrev head : SlabHeader
  head = m.slabs slab

  abbrev p : ℕ
  p = head.max_seriate_free_head

  -- The chunk is given out as it is.
  abbrev whole : MemPool
  whole = record m {
    objs = upd m.objs p (record (m.objs p) { slab = slab; inuse = 19 });
    slabs =
        upd (upd m.slabs slab (record head { max_seriate_size = head.max_seriate_size - n })) slab
          (record head { max_seriate_size = 0; max_seriate_free_head = 0 });
  }

  only_with : (a : ℕ) → upd taken p true a ≡ true → (a ≡ p) ⊎ ((k : ℕ) × (k < v.len) × (v.at k ≡ a))
  only_with a t = elim (ℕ_discrete a p) [ yes e ↦ inl e | no e ↦ inr (v.only a (ground arith)) ]

  bounds : (base ≤ p) × (p + 32 + head.max_seriate_size ≤ stop)
  bounds =
      let (low, high) = within m.objs slab base stop v.len v.at v.chain f.place f.inside in
      (ground (arith, f.here), ground (arith, f.here, f.fits))

  whole-Popped : head.max_seriate_size ≤ n + 32 → Popped m slab base stop taken n (whole, p)
  whole-Popped small = record {
    unused = f.free;
    enough = ground (arith, f.fits, fits);
    tight = ground (arith, f.fits, small);
    inside = (bounds.0, ground (arith, f.fits, bounds.1));
    kept = λ a h. ground arith;
    valid = record {
      len = v.len;
      at = v.at;
      chain =
          Chain-same m.objs whole.objs slab base stop v.len v.at v.chain
            λ k h. (ground arith, ground arith, ground arith, ground (arith, v.chain.owner k h));
      marked = λ k h t. ground (arith, v.marked k h);
      only = λ a t. elim (only_with a t) [
        | inl e ↦ (f.place, f.inside, f.here ∙ sym e)
        | inr old ↦ old
      ];
      starts = ground (arith, v.starts);
      largest = inl (ground arith, ground arith);
    };
    shrunk = ground arith;
    linked = (ground arith, ground arith);
    outside = λ a h. ground (arith, bounds);
    others = λ x h. ground arith;
    rest = refl;
  }

  -- The rest of the chunk stays behind as a chunk of its own.
  abbrev left : ℕ
  left = head.max_seriate_size - n - 32

  abbrev parted : MemPool
  parted = record m {
    objs = cut_from m.objs slab p n left;
    slabs =
        upd (upd m.slabs slab (record head { max_seriate_size = head.max_seriate_size - n })) slab
          (record head { max_seriate_size = left; max_seriate_free_head = p + 32 + n });
  }

  module _ (large : n + 32 < head.max_seriate_size) where
    no_chunk : (k : ℕ) → k < v.len → v.at k ≢ p + 32 + n
    no_chunk k h =
        ground (arith, v.chain.apart k f.place, v.chain.apart f.place k, f.here, f.fits, f.inside)

    not_taken : taken (p + 32 + n) ≡ false
    not_taken = elim (Bool-cases (taken (p + 32 + n))) [
      | inl e ↦ let (k, h, x) = v.only (p + 32 + n) e in absurd (no_chunk k h x)
      | inr e ↦ e
    ]

    room_at : n + 32 < (m.objs (v.at f.place)).size
    room_at = ground (arith, f.here, f.fits)

    abbrev parted_at : ℕ → ℕ
    parted_at = cut_at m.objs slab base stop v.len v.at v.chain f.place n f.inside room_at

    next_chunk : ((m.objs p).next ≡ 0) ⊎ ((base ≤ (m.objs p).next) × ((m.objs p).next < stop))
    next_chunk = elim (Bool-cases (ltb (f.place + 1) v.len)) [
      | inl more ↦
          let (low, high) =
            within m.objs slab base stop v.len v.at v.chain (f.place + 1) (ground arith) in
          inr (
            ground (arith, v.chain.next f.place, f.here, low),
            ground (arith, v.chain.next f.place, f.here, high),
          )
      | inr last ↦ inl (ground (arith, v.chain.last f.place, f.here, f.inside))
    ]

    size_at : (m.objs (v.at f.place)).size ≡ head.max_seriate_size
    size_at = ap (λ x. (m.objs x).size) f.here ∙ f.fits

    parted-Chain : Chain parted.objs slab base stop (v.len + 1) parted_at
    parted-Chain =
        subst (λ x. Chain (cut_from m.objs slab x n left) slab base stop (v.len + 1) parted_at)
          f.here
          (subst
            (λ y.
              Chain (cut_from m.objs slab (v.at f.place) n (y - n - 32)) slab base stop (v.len + 1)
                parted_at)
            size_at (cut-Chain m.objs slab base stop v.len v.at v.chain f.place n f.inside room_at))

    parted-Popped : Popped m slab base stop taken n (parted, p)
    parted-Popped = record {
      unused = f.free;
      enough = ground arith;
      tight = ground arith;
      inside = (bounds.0, ground (arith, bounds.1));
      kept = λ a h. let (k, l, e) = v.only a h in ground (arith, no_chunk k l, f.free);
      valid = record {
        len = v.len + 1;
        at = parted_at;
        chain = parted-Chain;
        marked = λ k h t.
            ground (
              arith,
              v.marked k,
              v.marked (k - 1),
              not_taken,
              f.here,
              no_chunk k,
              no_chunk (k - 1),
            );
        only = λ a t. elim (only_with a t) [
          | inl e ↦ (f.place, omega (arith, f.inside), ground (arith, f.here, e))
          | inr (k, h, e) ↦
              (if ltb f.place k then k + 1 else k, ground (arith, h), ground (arith, e))
        ];
        starts = ground (arith, v.starts);
        largest = inr (record {
          place = f.place + 1;
          inside = omega (arith, f.inside);
          here = ground (arith, f.here);
          free = ground (arith, not_taken);
          fits = ground arith;
        });
      };
      shrunk = ground arith;
      linked = (ground arith, ground arith);
      outside = λ a h. ground (arith, bounds, next_chunk);
      others = λ x h. ground arith;
      rest = refl;
    }

-- The count of the chunks in use is no part of the rest.
Popped-count :
    (m m' : MemPool) (slab base stop : ℕ) (taken : ℕ → Bool) (n p count : ℕ)
    → Popped m slab base stop taken n (m', p)
    → Popped m slab base stop taken n
        (set_slab m' slab (record (m'.slabs slab) { inuse_objs = count }), p)
Popped-count m m' slab base stop taken n p count s = record {
  unused = s.unused;
  enough = s.enough;
  tight = s.tight;
  inside = s.inside;
  kept = s.kept;
  valid =
      let v = s.valid in
      record {
        len = v.len;
        at = v.at;
        chain = v.chain;
        marked = v.marked;
        only = v.only;
        starts = ground (arith, v.starts);
        largest = elim v.largest [
          | inl (x, y) ↦ inl (ground (arith, x), ground (arith, y))
          | inr f ↦ inr (record {
            place = f.place;
            inside = f.inside;
            here = ground (arith, f.here);
            free = ground (arith, f.free);
            fits = ground (arith, f.fits);
          })
        ];
      };
  shrunk = ground (arith, s.shrunk);
  linked = (ground (arith, s.linked), ground (arith, s.linked));
  outside = s.outside;
  others = λ x h. ground (arith, s.others x h);
  rest = ap (λ y. set_slab y slab (record (m'.slabs slab) { inuse_objs = count })) s.rest;
}

module _ (m : MemPool) (slab base stop : ℕ) (taken : ℕ → Bool) (n : ℕ)
    (v : IsSlab m.objs (m.slabs slab) slab base stop taken) (real : slab ≢ 0)
    (some_free : (m.slabs slab).max_seriate_free_head ≢ 0)
    (fits : n ≤ (m.slabs slab).max_seriate_size)
    (small : (m.slabs slab).max_seriate_size < 2 ^ 32) where
  its_chunk :
      IsFree m.objs taken v.len v.at
        (m.slabs slab).max_seriate_size
        (m.slabs slab).max_seriate_free_head
  its_chunk = elim v.largest [ inl (e, x) ↦ absurd (some_free e) | inr f ↦ f ]

  -- pop_usable_object on a valid slab that knows a free chunk of the size or more returns a chunk
  -- that was free, of that size or at most 32 bytes more and within the slab, which is in use then;
  -- the other chunks in use keep their places and sizes, the slab stays valid, so that its chunks
  -- still fill it without a gap or an overlap, and nothing outside of it changes.
  pub pop_usable_object_correct :
      Returns (Popped m slab base stop taken n) (pop_usable_object m slab n)
  unfolding pop_usable_object split_object
  pop_usable_object_correct =
      let p = (m.slabs slab).max_seriate_free_head in
      at_slab _ slab _ real (
        at_object _ p _ some_free (
          rw (sub_unsigned-ok (m.slabs slab).max_seriate_size n fits small) (
            Returns-bind {P = λ m'. Popped m slab base stop taken n (m', p)}
              (Returns-if
                (ltb 0 ((m.slabs slab).max_seriate_size - n)
                  && ltb 32 ((m.slabs slab).max_seriate_size - n))
                (λ t. at_object _ p _ some_free (
                  at_slab _ slab _ real (
                    at_relink _ _ _ _ (
                      rw
                        (
                          ==_refl p,
                          ==_refl slab,
                          sub_unsigned-ok ((m.slabs slab).max_seriate_size - n) 32
                              (ground (arith, t)) (omega arith),
                        )
                        (returns (
                          parted-Popped m slab base stop taken n v its_chunk fits
                            (ground (arith, t))))))))
                (λ t.
                  returns
                    (whole-Popped m slab base stop taken n v its_chunk fits (ground (arith, t)))))
              λ m' s.
                at_slab _ slab _ real (returns (Popped-count m m' slab base stop taken n p _ s)))))
