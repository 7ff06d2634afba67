-- ===== src/MemPool/Join.antt =====
-- ndk/mem_pool.cpp: two neighbours become one chunk.
use cute_ndk.Base.{
  ℕ, ◌+◌, ◌-◌, ◌≤◌, ◌<◌, ◌≡◌, ◌≢◌, ◌⊎◌, inl, inr, ◌∙◌, Bool, true, false, ltb, if◌then◌else◌, arith,
}
use native.Mathlib.Decide.{ℕ_discrete}
use cute_ndk.MemPool.{ObjHeader, SlabHeader}
use cute_ndk.MemPool.Chunks.{Chain, IsFree}

-- A slab while a chunk `p` of it is given back: the chunk is free, and what the slab knows of its
-- largest free chunk is right, or `p` is larger. The chunks in use have the sizes that they had in
-- `before`, and nothing outside the slab differs from there.
pub record Freeing (before objs : ℕ → ObjHeader) (head : SlabHeader) (slab base stop : ℕ)
    (taken : ℕ → Bool) (p : ℕ) : Type 0 where
  pub len : ℕ
  pub at : ℕ → ℕ
  pub chain : Chain objs slab base stop len at
  pub marked : (k : ℕ) → k < len → taken (at k) ≡ true → (objs (at k)).inuse ≡ 19
  pub only : (a : ℕ) → taken a ≡ true → (k : ℕ) × (k < len) × (at k ≡ a)
  pub place : ℕ
  pub inside : place < len
  pub here : at place ≡ p
  pub free : taken p ≡ false
  pub largest :
      ((head.max_seriate_free_head ≡ 0) × (head.max_seriate_size ≡ 0))
      ⊎ IsFree objs taken len at head.max_seriate_size head.max_seriate_free_head
      ⊎ (head.max_seriate_size < (objs p).size)
  pub kept : (a : ℕ) → taken a ≡ true → (objs a).size ≡ (before a).size
  pub outside : (a : ℕ) → a < base ⊎ stop ≤ a → objs a ≡ before a

-- The chunk at the place `i` has taken in the next one.
pub record Joined (objs objs' : ℕ → ObjHeader) (base stop len : ℕ) (at : ℕ → ℕ) (i : ℕ)
    : Type 0 where
  pub inner : i + 1 < len
  pub grown : (objs' (at i)).size ≡ (objs (at i)).size + 32 + (objs (at (i + 1))).size
  pub over : (objs' (at i)).next ≡ (objs (at (i + 1))).next
  pub back : i + 2 < len → (objs' (at (i + 2))).prev ≡ at i
  pub same_size : (k : ℕ) → k < len → k ≢ i → k ≢ i + 1 → (objs' (at k)).size ≡ (objs (at k)).size
  pub same_next : (k : ℕ) → k < len → k ≢ i → k ≢ i + 1 → (objs' (at k)).next ≡ (objs (at k)).next
  pub same_prev :
      (k : ℕ) → k < len → k ≢ i + 1 → k ≢ i + 2 → (objs' (at k)).prev ≡ (objs (at k)).prev
  pub same_slab : (k : ℕ) → k < len → (objs' (at k)).slab ≡ (objs (at k)).slab
  pub same_inuse : (k : ℕ) → k < len → (objs' (at k)).inuse ≡ (objs (at k)).inuse
  pub outside : (a : ℕ) → a < base ⊎ stop ≤ a → objs' a ≡ objs a

module _ (objs objs' : ℕ → ObjHeader) (slab base stop len : ℕ) (at : ℕ → ℕ) (i : ℕ)
    (c : Chain objs slab base stop len at) (j : Joined objs objs' base stop len at i) where
  abbrev joined_at : ℕ → ℕ
  joined_at k = if ltb i k then at (k + 1) else at k

  joined-Chain : Chain objs' slab base stop (len - 1) joined_at
  joined-Chain = record {
    some = omega (arith, j.inner);
    first = ground (arith, c.first);
    real = c.real;
    bounded = c.bounded;
    step = λ k h.
        ground
          (arith, j.inner, j.grown, c.step k, c.step (k + 1), j.same_size k, j.same_size (k + 1));
    stops = λ k h. ground (
      arith,
      j.inner,
      j.grown,
      c.stops k,
      c.step k,
      c.stops (k + 1),
      j.same_size k,
      j.same_size (k + 1),
    );
    apart = λ l k g h. ground (
      arith,
      j.inner,
      j.grown,
      c.step i,
      c.apart l k,
      c.apart l (k + 1),
      c.apart (l + 1) (k + 1),
      j.same_size l,
      j.same_size (l + 1),
    );
    next = λ k h.
        ground
          (arith, j.inner, j.over, c.next k, c.next (k + 1), j.same_next k, j.same_next (k + 1));
    last = λ k h.
        ground
          (arith, j.inner, j.over, c.last k, c.last (k + 1), j.same_next k, j.same_next (k + 1));
    prev = λ k h. ground (
      arith,
      j.inner,
      j.back,
      c.prev k,
      c.prev (k + 1),
      j.same_prev (k + 1),
      j.same_prev (k + 2),
    );
    front = ground (arith, j.inner, c.front, j.same_prev 0);
    owner = λ k h.
        ground (arith, j.inner, c.owner k, c.owner (k + 1), j.same_slab k, j.same_slab (k + 1));
  }

module _ (before objs objs' : ℕ → ObjHeader) (head : SlabHeader) (slab base stop : ℕ)
    (taken : ℕ → Bool) (p : ℕ) (v : Freeing before objs head slab base stop taken p) (i : ℕ)
    (j : Joined objs objs' base stop v.len v.at i) (own : (v.place ≡ i) ⊎ (v.place ≡ i + 1))
    (left : taken (v.at i) ≡ false) (right : taken (v.at (i + 1)) ≡ false) where
  abbrev new_at : ℕ → ℕ
  new_at = joined_at objs objs' slab base stop v.len v.at i v.chain j

  -- Where a chunk stands that is not the one that was taken in.
  new_place : (k : ℕ) → k < v.len → k ≢ i + 1 → (l : ℕ) × (l < v.len - 1) × (new_at l ≡ v.at k)
  new_place k h e = (if ltb i k then k - 1 else k, ground (arith, j.inner), ground (arith, j.inner))

  joined_best :
      (size q : ℕ)
      → IsFree objs taken v.len v.at size q
      → IsFree objs' taken (v.len - 1) new_at size q ⊎ (size < (objs' (v.at i)).size)
  joined_best size q f = elim (ℕ_discrete f.place i) [
    | yes e ↦ inr (ground (arith, j.grown, f.here, f.fits, e))
    | no e ↦ elim (ℕ_discrete f.place (i + 1)) [
      | yes g ↦ inr (ground (arith, j.grown, f.here, f.fits, g))
      | no g ↦
          let (l, h, x) = new_place f.place f.inside g in
          inl (record {
            place = l;
            inside = h;
            here = x ∙ f.here;
            free = f.free;
            fits = ground (arith, j.same_size f.place f.inside e g, f.here, f.fits);
          })
    ]
  ]

  pub joined-Freeing : Freeing before objs' head slab base stop taken (v.at i)
  joined-Freeing = record {
    len = v.len - 1;
    at = new_at;
    chain = joined-Chain objs objs' slab base stop v.len v.at i v.chain j;
    marked = λ k h t.
        ground (arith, j.inner, v.marked k, v.marked (k + 1), j.same_inuse k, j.same_inuse (k + 1));
    only = λ a t.
        let (k, h, e) = v.only a t in
        let (l, g, x) = new_place k h (λ y. ground (arith, y, e, t, right)) in (l, g, x ∙ e);
    place = i;
    inside = omega (arith, j.inner);
    here = ground arith;
    free = left;
    largest = elim v.largest [
      | inl none_known ↦ inl none_known
      | inr (inl f) ↦ inr (joined_best head.max_seriate_size head.max_seriate_free_head f)
      | inr (inr less) ↦ inr (inr (ground (arith, less, j.grown, own, v.here)))
    ];
    kept = λ a t.
        let (k, h, e) = v.only a t in
        ground (arith, j.same_size k h, v.kept a t, e, t, left, right);
    outside = λ a h. j.outside a h ∙ v.outside a h;
  }
