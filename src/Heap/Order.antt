-- ===== src/Heap/Order.antt =====
-- ndk/heap.h and ndk/timer_queue.cpp: the order of an array heap, while one place is a hole that
-- waits for the moved item. A heap is the function that reads its cells, and its size.
use cute_ndk.Base.{
  ℕ, zero, suc, ◌+◌, ◌-◌, ◌*◌, ◌/◌, ◌≤◌, ◌<◌, ◌≡◌, ◌≢◌, ◌⊎◌, Bool, true, false, arith,
}
use cute_ndk.Base.Array.{upd}
use cute_ndk.Base.Order.{IsOrder}

-- The place above `c`.
abbrev pub parent : ℕ → ℕ
parent c = (c - 1) / 2

module _ (before : ℕ → ℕ → Bool) (n : ℕ) where
  -- No item stands before the one above it.
  abbrev pub IsHeap : (ℕ → ℕ) → Type 0
  IsHeap f = (c : ℕ) → 0 < c → c < n → before (f c) (f (parent c)) ≡ false

  -- What lies below `i` does not stand before what lies above `i`.
  abbrev pub IsBridged : (ℕ → ℕ) → ℕ → Type 0
  IsBridged f i =
      (c : ℕ) → 0 < c → c < n → parent c ≡ i → 0 < i → before (f c) (f (parent i)) ≡ false

  -- Only the edge above `i` may be out of order.
  pub record UpInv (f : ℕ → ℕ) (i : ℕ) : Type 0 where
    pub edges : (c : ℕ) → 0 < c → c < n → c ≢ i → before (f c) (f (parent c)) ≡ false
    pub bridged : IsBridged f i

  -- Only the edges below `i` may be out of order.
  pub record DownInv (f : ℕ → ℕ) (i : ℕ) : Type 0 where
    pub edges : (c : ℕ) → 0 < c → c < n → parent c ≢ i → before (f c) (f (parent c)) ≡ false
    pub bridged : IsBridged f i

  -- `k` is a child of `i`, and no child stands before it.
  pub record IsFirstChild (f : ℕ → ℕ) (i k : ℕ) : Type 0 where
    pub inside : k < n
    pub child : (k ≡ i * 2 + 1) ⊎ (k ≡ i * 2 + 2)
    pub first : (c : ℕ) → 0 < c → c < n → parent c ≡ i → before (f c) (f k) ≡ false

pub irrefl : {before : ℕ → ℕ → Bool} (order : IsOrder before) (a : ℕ) → before a a ≡ false
irrefl order a = ground (arith, order.asym a a)

module _ {before : ℕ → ℕ → Bool} (order : IsOrder before) (n : ℕ) (f : ℕ → ℕ) where
  first_below : IsHeap before n f → (k c : ℕ) → c < k → c < n → before (f c) (f 0) ≡ false
  first_below h zero c p q = absurd (omega arith)
  first_below h (suc k) zero p q = irrefl order (f 0)
  first_below h (suc k) (suc c) p q =
      order.trans (f 0) (f (parent (suc c))) (f (suc c))
        (first_below h k (parent (suc c)) (omega arith) (omega arith)) (h (suc c) (omega arith) q)

  -- No item stands before the one at the root.
  pub root_first : IsHeap before n f → (c : ℕ) → c < n → before (f c) (f 0) ≡ false
  root_first h c q = first_below h (suc c) c (omega arith) q

module _ {before : ℕ → ℕ → Bool} (order : IsOrder before) (n : ℕ) (g : ℕ → ℕ) (i m : ℕ) where
  -- The item above the hole comes down into it.
  pub rise-UpInv :
      UpInv before n (upd g i m) i
      → 0 < i
      → before m (g (parent i)) ≡ true
      → UpInv before n (upd (upd g i (g (parent i))) (parent i) m) (parent i)
  rise-UpInv v low b = record {
    edges = λ c p q r. ground (
      arith,
      v.edges c,
      v.bridged c,
      order.asym m (g (parent i)),
      order.trans m (g (parent i)) (g c),
    );
    bridged = λ c p q r s. ground (
      arith,
      v.edges c,
      v.edges (parent i),
      order.trans (g (parent (parent i))) (g (parent i)) (g c),
    );
  }

  pub settle_up :
      UpInv before n (upd g i m) i
      → (i ≡ 0) ⊎ (before m (g (parent i)) ≡ false)
      → IsHeap before n (upd g i m)
  settle_up v s = λ c p q. ground (arith, v.edges c)

  -- The first child goes up into the hole.
  pub sink-DownInv :
      (k : ℕ)
      → DownInv before n (upd g i m) i
      → IsFirstChild before n g i k
      → before (g k) m ≡ true
      → DownInv before n (upd (upd g i (g k)) k m) k
  sink-DownInv k v s b = record {
    edges =
        λ c p q r. ground (arith, v.edges c, v.bridged k, s.first c, s.child, order.asym (g k) m);
    bridged = λ c p q r t. ground (arith, v.edges c, s.child);
  }

  pub settle_down :
      (k : ℕ)
      → DownInv before n (upd g i m) i
      → IsFirstChild before n g i k
      → before (g k) m ≡ false
      → IsHeap before n (upd g i m)
  settle_down k v s b = λ c p q. ground (arith, v.edges c, s.first c, order.trans m (g k) (g c))

  pub settle_leaf : DownInv before n (upd g i m) i → n ≤ i * 2 + 1 → IsHeap before n (upd g i m)
  settle_leaf v s = λ c p q. ground (arith, v.edges c)
