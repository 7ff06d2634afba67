-- ===== src/MemPool/Cut.antt =====
-- ndk/mem_pool.cpp: the chunks once one of them is cut in two.
use cute_ndk.Base.{ℕ, ◌+◌, ◌-◌, ◌<◌, ltb, ◌==◌, if◌then◌else◌, arith}
use cute_ndk.Base.Array.{upd}
use cute_ndk.MemPool.{ObjHeader}
use cute_ndk.MemPool.Chunks.{Chain, relinked}

-- The memory once the chunk `p` is cut behind `n` bytes.
abbrev pub cut_from : (ℕ → ObjHeader) → ℕ → ℕ → ℕ → ℕ → ℕ → ObjHeader
cut_from objs slab p n rest =
    let old = objs p in
    let marked = upd objs p (record old { slab = slab; inuse = 19 }) in
    let linked = relinked marked old.next (p + 32 + n) in
    upd (upd linked p (record old { slab = slab; inuse = 19; size = n; next = p + 32 + n }))
      (p + 32 + n)
      (record (linked (p + 32 + n)) { size = rest; slab = slab; prev = p; next = old.next })

-- The chunk at the place `i` is cut in two, the first of `n` bytes.
module _ (objs : ℕ → ObjHeader) (slab base stop len : ℕ) (at : ℕ → ℕ)
    (c : Chain objs slab base stop len at) (i n : ℕ) (inside : i < len)
    (room : n + 32 < (objs (at i)).size) where
  abbrev cut : ℕ
  cut = at i + 32 + n

  abbrev cut_objs : ℕ → ObjHeader
  cut_objs = cut_from objs slab (at i) n ((objs (at i)).size - n - 32)

  abbrev pub cut_at : ℕ → ℕ
  cut_at k = if ltb i k then (if k == i + 1 then cut else at (k - 1)) else at k

  pub cut-Chain : Chain cut_objs slab base stop (len + 1) cut_at
  cut-Chain = record {
    some = omega arith;
    first = ground (arith, c.first);
    real = c.real;
    bounded = c.bounded;
    step = λ k h. ground (
      arith,
      c.step k,
      c.step (k - 1),
      c.step i,
      c.apart (k - 1) i,
      c.apart i (k - 1),
      c.apart i k,
      c.apart k i,
    );
    stops = λ k h. ground (
      arith,
      c.stops k,
      c.stops (k - 1),
      c.step i,
      c.stops i,
      c.apart (k - 1) i,
      c.apart i (k - 1),
      c.apart i k,
      c.apart k i,
    );
    apart = λ j k h l. ground (
      arith,
      c.apart j k,
      c.apart (j - 1) (k - 1),
      c.apart j (k - 1),
      c.apart i (k - 1),
      c.apart j i,
      c.apart i (j - 1),
      c.apart i j,
      c.step i,
    );
    next = λ k h. ground (
      arith,
      c.next k,
      c.next (k - 1),
      c.next i,
      c.step i,
      c.apart (k - 1) i,
      c.apart i (k - 1),
      c.apart i k,
      c.apart k i,
    );
    last = λ k h. ground (
      arith,
      c.last k,
      c.last (k - 1),
      c.last i,
      c.next i,
      c.step i,
      c.apart (k - 1) i,
      c.apart i (k - 1),
      c.apart i k,
      c.apart k i,
    );
    prev = λ k h. ground (
      arith,
      c.prev k,
      c.prev (k - 1),
      c.next i,
      c.last i,
      c.step i,
      c.apart i (k + 1),
      c.apart (k + 1) i,
      c.apart i (i + 1),
      c.apart (i + 1) k,
      c.apart (k - 1) i,
      c.apart i (k - 1),
      c.apart i k,
      c.apart k i,
    );
    front = ground (arith, c.front, c.next i, c.last i, c.step i, c.apart 0 i);
    owner = λ k h. ground (
      arith,
      c.owner k,
      c.owner (k - 1),
      c.step i,
      c.apart (k - 1) i,
      c.apart i (k - 1),
      c.apart i k,
      c.apart k i,
    );
  }
