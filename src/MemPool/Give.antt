-- ===== src/MemPool/Give.antt =====
-- ndk/mem_pool.cpp: malloc, for a slab with a chunk of the size.
use cute_ndk.Base.{
  ℕ, zero, suc, ◌+◌, ◌%◌, ◌^◌, ◌≤◌, ◌<◌, ◌≡◌, ◌≢◌, ◌⊎◌, inl, inr, refl, sym, ap, ◌∙◌, Bool, true,
  false, leb, ◌==◌, arith, Returns, returns, Returns-if, Returns-map,
}
use cute_ndk.Base.Array.{upd}
use cute_ndk.Heap.Places.{Has}
use cute_ndk.MemPool.{MemPool, malloc_roundup, pop_usable_object}
use cute_ndk.MemPool.Chunks.{IsSlab, within, at_slab}
use cute_ndk.MemPool.Pop.{Popped, pop_usable_object_correct}
use cute_ndk.MemPool.Slabs.{find_from, find_usable_slab, order_ahead}
use cute_ndk.MemPool.Row.{Row}
use cute_ndk.MemPool.Sorted.{Ordered, order_ahead-Ordered, largest}
use cute_ndk.MemPool.Pool.{IsPool, Slabbed, Touched, Touched-Slabbed, Ordered-IsPool, base, stop}

-- What find_usable_slab returns: the first slab with a chunk of the size, or null.
pub data Found (m : MemPool) (n : ℕ) (at : ℕ → ℕ) (size x : ℕ) : Type 0 where
  too_small : x ≡ 0 → ((j : ℕ) → j < n → largest m (at j) < size) → Found m n at size x
  usable :
      (c : ℕ)
      → c < n
      → x ≡ at c
      → size ≤ largest m (at c)
      → ((j : ℕ) → j < c → largest m (at j) < size)
      → Found m n at size x

find_from-Found :
    (fuel : ℕ) (m : MemPool) (n : ℕ) (at : ℕ → ℕ) (size i x : ℕ)
    → Row m n at
    → i ≤ n
    → (i < n → x ≡ at i)
    → (i ≡ n → x ≡ 0)
    → n < i + fuel
    → ((j : ℕ) → j < i → largest m (at j) < size)
    → Returns (Found m n at size) (find_from fuel m x size)
unfolding find_from
find_from-Found zero m n at size i x r h e z f s = absurd (omega (arith, h, f))
find_from-Found (suc fuel) m n at size i x r h e z f s =
    Returns-if (x == 0)
      (λ t. returns (too_small refl λ j l. ground (arith, s j, e, r.real i, t, h)))
      (λ t.
        let inside : i < n = ground (arith, z, t, h) in
        at_slab _ x _ (ground (arith, t)) (
          Returns-if (leb size (m.slabs x).max_seriate_size)
            (λ g. returns (usable i inside (e inside) (ground (arith, g, e inside)) s))
            (λ g.
              find_from-Found fuel m n at size (i + 1) (m.slabs x).next r (omega arith)
                (λ l. ground (arith, r.next i l, e inside))
                (λ l. ground (arith, r.last i l, e inside)) (omega (arith, f))
                (λ j l. ground (arith, s j, g, e inside)))))

-- What malloc gives: the memory behind the header of a chunk that was free, with room for `size`
-- bytes, in a slab that no other that is large enough undercuts; the chunk is in use then, and
-- nothing outside of its slab changes.
pub record Given (m : MemPool) (taken : ℕ → ℕ → Bool) (n : ℕ) (at : ℕ → ℕ) (size : ℕ)
    (r : MemPool × ℕ) : Type 0 where
  pub slab : ℕ
  pub chunk : ℕ
  pub memory : r.1 ≡ chunk + 32
  pub unused : taken slab chunk ≡ false
  pub enough : size ≤ (r.0.objs chunk).size
  pub inside : (base m slab ≤ chunk) × (chunk + 32 + (r.0.objs chunk).size ≤ stop m slab)
  pub pool : IsPool r.0 (upd taken slab (upd (taken slab) chunk true))
  pub best : (x : ℕ) → Has n at x → size ≤ largest m x → largest m slab ≤ largest m x
  pub kept : (a : ℕ) → taken slab a ≡ true → (r.0.objs a).size ≡ (m.objs a).size
  pub outside : (a : ℕ) → a < base m slab ⊎ stop m slab ≤ a → r.0.objs a ≡ m.objs a

module _ (m : MemPool) (taken : ℕ → ℕ → Bool) (v : IsPool m taken) (size : ℕ) where
  pub found : Returns (Found m v.len v.at size) (find_usable_slab m size)
  unfolding find_usable_slab
  found =
      let r = v.slabbed.row in
      find_from-Found (m.alloced_slabs + 1) m v.len v.at size 0 m.slabs_head r (omega arith) r.head
        (λ e. r.empty (sym e)) (omega (arith, v.slabbed.count)) (λ j l. absurd (omega arith))

  module _ (c : ℕ) (h : c < v.len) (fits : size ≤ largest m (v.at c)) (some_size : 0 < size)
      (first : (x : ℕ)
        → Has v.len v.at x
        → size ≤ largest m x
        → largest m (v.at c) ≤ largest m x) where
    abbrev slab : ℕ
    slab = v.at c

    member : Has v.len v.at slab
    member = (c, h, refl)

    abbrev its : IsSlab m.objs (m.slabs slab) slab (base m slab) (stop m slab) (taken slab)
    its = v.slabbed.slabs slab member

    known : (m.slabs slab).max_seriate_free_head ≢ 0
    known = λ e. elim its.largest [
      | inl (_, x) ↦ omega (arith, x, fits, some_size)
      | inr f ↦
          let (low, high) =
            within m.objs slab (base m slab) (stop m slab) its.len its.at its.chain f.place
              f.inside in
          omega (arith, low, its.chain.real, f.here, e)
    ]

    small : largest m slab < 2 ^ 32
    small = elim its.largest [
      | inl (_, x) ↦ omega (arith, x)
      | inr f ↦
          let (low, high) =
            within m.objs slab (base m slab) (stop m slab) its.len its.at its.chain f.place
              f.inside in
          ground (arith, low, high, f.here, f.fits, v.slabbed.bounded)
    ]

    pub popped :
        Returns
          (Popped m slab (base m slab) (stop m slab) (taken slab) size)
          (pop_usable_object m slab size)
    popped =
        pop_usable_object_correct m slab (base m slab) (stop m slab) (taken slab) size its
          (v.slabbed.row.real c h) known fits small

    module _ (r : MemPool × ℕ)
        (s : Popped m slab (base m slab) (stop m slab) (taken slab) size r) where
      abbrev mine : ℕ → Bool
      mine = upd (taken slab) r.1 true

      popped-Touched : Touched m slab mine r.0
      popped-Touched = record {
        valid = s.valid;
        linked = s.linked;
        outside = s.outside;
        others = s.others;
        rest = s.rest;
      }

      popped-Slabbed : Slabbed r.0 (upd taken slab mine) v.len v.at
      popped-Slabbed =
          Touched-Slabbed m taken v.len v.at v.slabbed slab member mine r.0 popped-Touched

      same_largest : (j : ℕ) → j < v.len → j ≢ c → largest r.0 (v.at j) ≡ largest m (v.at j)
      same_largest j l x =
          ap (λ y. y.max_seriate_size)
            (s.others (v.at j) (ground (arith, v.slabbed.row.apart j c, v.slabbed.row.apart c j)))

      reordered :
          Returns (λ m'. Ordered r.0 v.len v.at m') (order_ahead (r.0.alloced_slabs + 1) r.0 slab)
      reordered =
          order_ahead-Ordered (r.0.alloced_slabs + 1) r.0 v.len v.at c popped-Slabbed.row
            (record {
              inside = h;
              others =
                  λ j k g l x y. ground (arith, v.sorted j k g l, same_largest j, same_largest k);
            })
            (λ k l g. ground (arith, v.sorted c k l g, same_largest k, s.shrunk))
            (omega (arith, popped-Slabbed.count, h))

      given :
          (m' : MemPool) → Ordered r.0 v.len v.at m' → Given m taken v.len v.at size (m', r.1 + 32)
      given m' o = record {
        slab = slab;
        chunk = r.1;
        memory = refl;
        unused = s.unused;
        enough = ground (arith, s.enough, ap (λ y. (y.objs r.1).size) o.rest);
        inside = (s.inside.0, ground (arith, s.inside, ap (λ y. (y.objs r.1).size) o.rest));
        pool = Ordered-IsPool r.0 (upd taken slab mine) v.len v.at m' popped-Slabbed o;
        best = first;
        kept = λ a t. ap (λ y. (y.objs a).size) o.rest ∙ s.kept a t;
        outside = λ a t. ap (λ y. y.objs a) o.rest ∙ s.outside a t;
      }

      pub give :
          Returns
            (λ m'. Given m taken v.len v.at size (m', r.1 + 32))
            (order_ahead (r.0.alloced_slabs + 1) r.0 slab)
      give = Returns-map reordered given

-- The size that is looked for.
pub roundup-ok :
    (n s : ℕ)
    → n ≤ s
    → s + 32 < 2 ^ 32
    → s % 8 ≡ 0
    → (n ≤ malloc_roundup n) × (malloc_roundup n ≤ s)
roundup-ok n s h b r = (omega (arith, h, b), omega (arith, h, b, r))
