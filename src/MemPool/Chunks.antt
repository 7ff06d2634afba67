-- ===== src/MemPool/Chunks.antt =====
-- ndk/mem_pool.h: the chunks of a slab.
use cute_ndk.Base.{
  ℕ, ◌+◌, ◌-◌, ◌≤◌, ◌<◌, ◌^◌, ◌≡◌, ◌≢◌, ◌⊎◌, refl, ◌∙◌, ap, fun_ext, Bool, Bool-cases, inl, inr,
  true, false, ◌==◌, if◌then◌else◌, Run, ok, ◌>>=◌, arith, Returns,
}
use cute_ndk.Base.Array.{upd}
use cute_ndk.MemPool.{MemPool, ObjHeader, SlabHeader, object_at, slab_at, relink, unsigned}

-- The chunks at the addresses `at` follow one another from `base` up to `stop`, without a gap, and
-- are linked both ways in this order.
pub record Chain (objs : ℕ → ObjHeader) (slab base stop len : ℕ) (at : ℕ → ℕ) : Type 0 where
  pub some : 0 < len
  pub first : at 0 ≡ base
  pub real : 0 < base
  pub bounded : stop < base + 2 ^ 32
  pub step : (k : ℕ) → k + 1 < len → at k + 32 + (objs (at k)).size ≡ at (k + 1)
  pub stops : (k : ℕ) → k + 1 ≡ len → at k + 32 + (objs (at k)).size ≡ stop
  pub apart : (j k : ℕ) → j < k → k < len → at j + 32 + (objs (at j)).size ≤ at k
  pub next : (k : ℕ) → k + 1 < len → (objs (at k)).next ≡ at (k + 1)
  pub last : (k : ℕ) → k + 1 ≡ len → (objs (at k)).next ≡ 0
  pub prev : (k : ℕ) → k + 1 < len → (objs (at (k + 1))).prev ≡ at k
  pub front : (objs (at 0)).prev ≡ 0
  pub owner : (k : ℕ) → k < len → (objs (at k)).slab ≡ slab

-- A chunk that is free and of the size `size`.
pub record IsFree (objs : ℕ → ObjHeader) (taken : ℕ → Bool) (len : ℕ) (at : ℕ → ℕ) (size p : ℕ)
    : Type 0 where
  pub place : ℕ
  pub inside : place < len
  pub here : at place ≡ p
  pub free : taken p ≡ false
  pub fits : (objs p).size ≡ size

-- The slab: the chunks in `taken` are the application's and are marked so, and the slab knows a free
-- chunk and its size, or none and 0.
pub record IsSlab (objs : ℕ → ObjHeader) (head : SlabHeader) (slab base stop : ℕ) (taken : ℕ → Bool)
    : Type 0 where
  pub len : ℕ
  pub at : ℕ → ℕ
  pub chain : Chain objs slab base stop len at
  pub marked : (k : ℕ) → k < len → taken (at k) ≡ true → (objs (at k)).inuse ≡ 19
  pub only : (a : ℕ) → taken a ≡ true → (k : ℕ) × (k < len) × (at k ≡ a)
  pub starts : head.head ≡ base
  pub largest :
      ((head.max_seriate_free_head ≡ 0) × (head.max_seriate_size ≡ 0))
      ⊎ IsFree objs taken len at head.max_seriate_size head.max_seriate_free_head

-- Reading through a pointer that is not null.
pub at_object {ℓ} :
    {T : Type ℓ} {Q : T → Type 0} (m : MemPool) (p : ℕ) (next : ObjHeader → Run T)
    → p ≢ 0
    → Returns Q (next (m.objs p))
    → Returns Q (object_at m p >>= next)
unfolding object_at
at_object m p next h r = let test : (p == 0) ≡ false = ground arith in rw test r

pub at_slab {ℓ} :
    {T : Type ℓ} {Q : T → Type 0} (m : MemPool) (s : ℕ) (next : SlabHeader → Run T)
    → s ≢ 0
    → Returns Q (next (m.slabs s))
    → Returns Q (slab_at m s >>= next)
unfolding slab_at
at_slab m s next h r = let test : (s == 0) ≡ false = ground arith in rw test r

abbrev pub relinked : (ℕ → ObjHeader) → ℕ → ℕ → ℕ → ObjHeader
relinked objs n p a = if n == 0 then objs a else upd objs n (record (objs n) { prev = p }) a

relink-ok : (m : MemPool) (n p : ℕ) → relink m n p ≡ ok (record m { objs = relinked m.objs n p })
unfolding relink object_at
relink-ok m n p = elim (Bool-cases (n == 0)) [
  | inl e ↦ rw e (ap (λ o. ok (record m { objs = o })) (fun_ext λ a. rw e refl))
  | inr e ↦ rw e (ap (λ o. ok (record m { objs = o })) (fun_ext λ a. rw e refl))
]

-- Only the order, the places and the sizes of the chunks matter.
pub Chain-same :
    (objs objs' : ℕ → ObjHeader) (slab base stop len : ℕ) (at : ℕ → ℕ)
    → Chain objs slab base stop len at
    → ((k : ℕ)
        → k < len
        → ((objs' (at k)).size ≡ (objs (at k)).size)
          × ((objs' (at k)).prev ≡ (objs (at k)).prev)
          × ((objs' (at k)).next ≡ (objs (at k)).next)
          × ((objs' (at k)).slab ≡ slab))
    → Chain objs' slab base stop len at
Chain-same objs objs' slab base stop len at c e = record {
  some = c.some;
  first = c.first;
  real = c.real;
  bounded = c.bounded;
  step = λ k h. omega (arith, c.step k h, (e k (omega arith)).0);
  stops = λ k h. omega (arith, c.stops k h, (e k (omega arith)).0);
  apart = λ j k h l. omega (arith, c.apart j k h l, (e j (omega arith)).0);
  next = λ k h. (e k (omega arith)).2 ∙ c.next k h;
  last = λ k h. (e k (omega arith)).2 ∙ c.last k h;
  prev = λ k h. (e (k + 1) h).1 ∙ c.prev k h;
  front = (e 0 c.some).1 ∙ c.front;
  owner = λ k h. (e k h).3;
}

-- A chunk lies within its slab.
pub within :
    (objs : ℕ → ObjHeader) (slab base stop len : ℕ) (at : ℕ → ℕ)
    → Chain objs slab base stop len at
    → (k : ℕ) → k < len
    → (base ≤ at k) × (at k + 32 + (objs (at k)).size ≤ stop)
within objs slab base stop len at c k h =
    (ground (arith, c.first, c.apart 0 k), ground (arith, c.stops (len - 1), c.apart k (len - 1)))

pub at_relink {ℓ} :
    {T : Type ℓ} {Q : T → Type 0} (m : MemPool) (n p : ℕ) (next : MemPool → Run T)
    → Returns Q (next (record m { objs = relinked m.objs n p }))
    → Returns Q (relink m n p >>= next)
at_relink m n p next r = rw (relink-ok m n p) r

pub distinct :
    (objs : ℕ → ObjHeader) (slab base stop len : ℕ) (at : ℕ → ℕ)
    → Chain objs slab base stop len at
    → (j k : ℕ) → j < len
    → k < len
    → j ≢ k
    → at j ≢ at k
distinct objs slab base stop len at c j k g h e = ground (arith, c.apart j k, c.apart k j)

pub unsigned-ok : (n : ℕ) → n < 2 ^ 32 → unsigned n ≡ n
unsigned-ok n h = omega arith
