-- ===== src/MemPool/Sorted.antt =====
-- ndk/mem_pool.cpp: ajust_slab_order sorts the slabs again by their largest free chunks.
use cute_ndk.Base.{
  ℕ, zero, suc, ◌+◌, ◌≤◌, ◌<◌, ◌≡◌, ◌≢◌, ◌↔◌, refl, ap, ◌∙◌, ltb, ◌==◌, if◌then◌else◌, arith,
  Returns, returns, Returns-if, Returns-map,
}
use mathlib.Core.Path.{subst}
use cute_ndk.Heap.Places.{Has}
use cute_ndk.MemPool.{MemPool}
use cute_ndk.MemPool.Slabs.{order_ahead, order_back}
use cute_ndk.MemPool.Chunks.{at_slab}
use cute_ndk.MemPool.Row.{Row, swapped, exchanged, exchanged-Row, back-exchange, ahead-exchange}

-- The size of the largest free chunk.
abbrev pub largest : MemPool → ℕ → ℕ
largest m s = (m.slabs s).max_seriate_size

abbrev pub IsSorted : MemPool → ℕ → (ℕ → ℕ) → Type 0
IsSorted m n at = (j k : ℕ) → j < k → k < n → largest m (at j) ≤ largest m (at k)

-- The slabs are sorted but for the one at the place `i`.
pub record SortedBut (m : MemPool) (n : ℕ) (at : ℕ → ℕ) (i : ℕ) : Type 0 where
  pub inside : i < n
  pub others : (j k : ℕ) → j < k → k < n → j ≢ i → k ≢ i → largest m (at j) ≤ largest m (at k)

-- The same slabs stand in a row that is sorted, and their chunks are as they were.
pub record Ordered (m : MemPool) (n : ℕ) (at : ℕ → ℕ) (m' : MemPool) : Type 0 where
  pub order : ℕ → ℕ
  pub row : Row m' n order
  pub sorted : IsSorted m' n order
  pub members : (x : ℕ) → Has n order x ↔ Has n at x
  pub size : (x : ℕ) → largest m' x ≡ largest m x
  pub chunks : (x : ℕ) → (m'.slabs x).head ≡ (m.slabs x).head
  pub best : (x : ℕ) → (m'.slabs x).max_seriate_free_head ≡ (m.slabs x).max_seriate_free_head
  pub rest :
      m' ≡ record m { slabs = m'.slabs; slabs_head = m'.slabs_head; slabs_tail = m'.slabs_tail }

module _ (m : MemPool) (n : ℕ) (at : ℕ → ℕ) (r : Row m n at) where
  already : (order : IsSorted m n at) → Ordered m n at m
  already s = record {
    order = at;
    row = r;
    sorted = s;
    members = λ x. (λ h. h, λ h. h);
    size = λ x. refl;
    chunks = λ x. refl;
    best = λ x. refl;
    rest = refl;
  }

  module _ (i : ℕ) (h : i + 1 < n) where
    abbrev next_pool : MemPool
    next_pool = exchanged m (at i) (at (i + 1))

    same_size : (x : ℕ) → largest next_pool x ≡ largest m x
    same_size x = ground arith

    swapped_members : (x : ℕ) → Has n (swapped at i) x ↔ Has n at x
    swapped_members x = (
      λ (c, l, e). (
        if c == i then i + 1 else if c == i + 1 then i else c,
        ground (arith, h),
        ground (arith, e),
      ),
      λ (c, l, e). (
        if c == i then i + 1 else if c == i + 1 then i else c,
        ground (arith, h),
        ground (arith, e),
      ),
    )

    abbrev from_pool : MemPool → MemPool → MemPool
    from_pool m' x = record x {
      slabs = m'.slabs;
      slabs_head = m'.slabs_head;
      slabs_tail = m'.slabs_tail;
    }

    carried : (m' : MemPool) → Ordered next_pool n (swapped at i) m' → Ordered m n at m'
    carried m' s = record {
      order = s.order;
      row = s.row;
      sorted = s.sorted;
      members = λ x. (
        λ y. (swapped_members x).0 ((s.members x).0 y),
        λ y. (s.members x).1 ((swapped_members x).1 y),
      );
      size = λ x. s.size x ∙ same_size x;
      chunks = λ x. s.chunks x ∙ ground arith;
      best = λ x. s.best x ∙ ground arith;
      rest = s.rest;
    }

own : (at : ℕ → ℕ) (i : ℕ) → swapped at i (i + 1) ≡ at i
own at i = ground arith

-- ajust_slab_order by ORDER_BY_BACK ends, and leaves the slabs linked and sorted by their largest
-- free chunks, with nothing but their order changed: on linked slabs that are sorted but for the one
-- it is called for, which may come too early; the fuel is at least the number of slabs from there on.
pub order_back-Ordered :
    (fuel : ℕ) (m : MemPool) (n : ℕ) (at : ℕ → ℕ) (i : ℕ)
    → Row m n at
    → SortedBut m n at i
    → ((j : ℕ) → j < i → largest m (at j) ≤ largest m (at i))
    → n ≤ i + fuel
    → Returns (Ordered m n at) (order_back fuel m (at i))
unfolding order_back
order_back-Ordered zero m n at i r s b f = absurd (omega (arith, s.inside, f))
order_back-Ordered (suc fuel) m n at i r s b f = at_slab _ (at i) _ (r.real i s.inside) (
    Returns-if ((m.slabs (at i)).next == 0)
      (λ e. returns (
        already m n at r
          λ j k g l. ground (arith, s.others j k, b j, r.next i, r.real (i + 1), s.inside)))
      (λ e.
        let h : i + 1 < n = ground (arith, r.last i, s.inside) in
        rw (r.next i h) (
          at_slab _ (at (i + 1)) _ (r.real (i + 1) h) (
            Returns-if (ltb (largest m (at (i + 1))) (largest m (at i)))
              (λ g. rw (back-exchange m n at r i h) (
                Returns-map
                  (subst
                    (λ x.
                      Returns (Ordered (next_pool m n at r i h) n (swapped at i))
                        (order_back fuel (next_pool m n at r i h) x))
                    (own at i)
                    (order_back-Ordered fuel (next_pool m n at r i h) n (swapped at i) (i + 1)
                      (exchanged-Row m n at r i h)
                      (record {
                        inside = h;
                        others = λ j k l o x y. ground (
                          arith,
                          s.others j k,
                          s.others (i + 1) k,
                          s.others j (i + 1),
                          same_size m n at r i h (swapped at i j),
                          same_size m n at r i h (swapped at i k),
                        );
                      })
                      (λ j l. ground (
                        arith,
                        b j,
                        g,
                        same_size m n at r i h (swapped at i j),
                        same_size m n at r i h (at i),
                      ))
                      (omega (arith, f))))
                  (carried m n at r i h)))
              (λ g. returns (
                already m n at r
                  λ j k l o. ground (arith, s.others j k, s.others (i + 1) k, b j)))))))

shift : (i : ℕ) → suc i ≡ i + 1
shift i = omega arith

own_ahead : (at : ℕ → ℕ) (i : ℕ) → swapped at i i ≡ at (i + 1)
own_ahead at i = ground arith

pub order_ahead-Ordered :
    (fuel : ℕ) (m : MemPool) (n : ℕ) (at : ℕ → ℕ) (i : ℕ)
    → Row m n at
    → SortedBut m n at i
    → ((k : ℕ) → i < k → k < n → largest m (at i) ≤ largest m (at k))
    → i < fuel
    → Returns (Ordered m n at) (order_ahead fuel m (at i))
unfolding order_ahead
order_ahead-Ordered zero m n at i r s b f = absurd (omega (arith, f))
order_ahead-Ordered (suc fuel) m n at zero r s b f = at_slab _ (at 0) _ (r.real 0 s.inside) (
    Returns-if ((m.slabs (at 0)).prev == 0)
      (λ e. returns (already m n at r λ j k g l. ground (arith, s.others j k, b k)))
      (λ e. absurd (ground (arith, e, r.front, s.inside))))
order_ahead-Ordered (suc fuel) m n at (suc i) r s b f =
    let h : i + 1 < n = omega (arith, s.inside) in
    let size = same_size m n at r i h in
    rw (ap at (shift i)) (
      at_slab _ (at (i + 1)) _ (r.real (i + 1) h) (
        rw (r.prev i h) (
          Returns-if (at i == 0) (λ e. absurd (ground (arith, e, r.real i)))
            (λ e. at_slab _ (at i) _ (r.real i (omega arith)) (
              Returns-if (ltb (largest m (at (i + 1))) (largest m (at i)))
                (λ g. rw (ahead-exchange m n at r i h) (
                  Returns-map
                    (subst
                      (λ x.
                        Returns (Ordered (next_pool m n at r i h) n (swapped at i))
                          (order_ahead fuel (next_pool m n at r i h) x))
                      (own_ahead at i)
                      (order_ahead-Ordered fuel (next_pool m n at r i h) n (swapped at i) i
                        (exchanged-Row m n at r i h)
                        (record {
                          inside = omega arith;
                          others = λ j k l o x y. ground (
                            arith,
                            s.others j k,
                            s.others i k,
                            s.others j i,
                            size (swapped at i j),
                            size (swapped at i k),
                          );
                        })
                        (λ k l o. ground (arith, b k, g, size (swapped at i k), size (at (i + 1))))
                        (omega (arith, f))))
                    (carried m n at r i h)))
                (λ g. returns (
                  already m n at r λ j k l o. ground (arith, s.others j k, s.others j i, b k))))))))
