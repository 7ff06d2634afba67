-- ===== src/MemPool/Reach.antt =====
-- ndk/mem_pool.cpp: the pool over any sequence of calls.
use cute_ndk.Base.{
  ℕ, ◌+◌, ◌-◌, ◌^◌, ◌≤◌, ◌<◌, ◌≡◌, ◌≢◌, ◌⊎◌, inl, inr, sym, ap, ◌∙◌, Bool, true, false, ok, arith,
  Returns-ok,
}
use mathlib.Core.Path.{subst}
use native.Mathlib.Decide.{ℕ_discrete}
use cute_ndk.Base.Int.{ℤ, pos, pos_part}
use cute_ndk.Base.Array.{upd, upd_self, upd_ne}
use cute_ndk.MemPool.{MemPool, ObjHeader, malloc_roundup}
use cute_ndk.MemPool.Calls.{init, malloc, free, no_slabs}
use cute_ndk.MemPool.Chunks.{within}
use cute_ndk.MemPool.Pool.{IsPool, base, stop}
use cute_ndk.MemPool.Give.{Given}
use cute_ndk.MemPool.Malloc.{refused, from_slab, from_new, malloc_correct}
use cute_ndk.MemPool.GiveBack.{free_correct}
use cute_ndk.MemPool.Start.{none_taken, init_correct}

-- The chunk `p` of the slab `s` is in use, or is no more.
abbrev pub marked : (ℕ → ℕ → Bool) → ℕ → ℕ → Bool → ℕ → ℕ → Bool
marked taken s p t = upd taken s (upd (taken s) p t)

-- The pools that init, malloc and free lead to, with the chunks that the caller holds: it frees only
-- memory that it holds, and asks for no empty memory.
pub data Reached : MemPool → (ℕ → ℕ → Bool) → Type 0 where
  by_init :
      (raw : ℕ → ObjHeader) (size : ℕ) (count most : ℤ) (m : MemPool)
      → size < 2 ^ 31
      → pos_part most < 2 ^ 31
      → init (no_slabs raw) (pos size) count most ≡ ok (m, pos 0)
      → Reached m none_taken
  by_malloc :
      (m : MemPool) (taken : ℕ → ℕ → Bool) (n : ℕ) (m' : MemPool) (p : ℕ)
      → Reached m taken
      → 0 < n
      → malloc m n ≡ ok (m', p)
      → p ≢ 0
      → Reached m' (marked taken (m'.objs (p - 32)).slab (p - 32) true)
  by_refusal :
      (m : MemPool) (taken : ℕ → ℕ → Bool) (n : ℕ) (m' : MemPool)
      → Reached m taken
      → 0 < n
      → malloc m n ≡ ok (m', 0)
      → Reached m' taken
  by_free :
      (m : MemPool) (taken : ℕ → ℕ → Bool) (s p : ℕ) (m' : MemPool)
      → Reached m taken
      → taken s p ≡ true
      → free m (p + 32) ≡ ok m'
      → Reached m' (marked taken s p false)

module _ (m : MemPool) (taken : ℕ → ℕ → Bool) (v : IsPool m taken) where
  -- The header of a chunk in use knows its slab, and has the mark.
  pub owner_of : (s a : ℕ) → taken s a ≡ true → ((m.objs a).slab ≡ s) × ((m.objs a).inuse ≡ 19)
  owner_of s a t =
      let w = v.slabbed.slabs s (v.slabbed.owned s a t) in
      let (k, h, e) = w.only a t in
      (ground (arith, w.chain.owner k h, e), ground (arith, w.marked k h, e, t))

  -- Two chunks in use do not overlap.
  chunks_apart :
      (x y a b : ℕ)
      → taken x a ≡ true
      → taken y b ≡ true
      → (x ≡ y → a ≢ b)
      → (a + 32 + (m.objs a).size ≤ b) ⊎ (b + 32 + (m.objs b).size ≤ a)
  chunks_apart x y a b s t d =
      let h = v.slabbed.owned x a s in
      let g = v.slabbed.owned y b t in
      let w = v.slabbed.slabs x h in
      let u = v.slabbed.slabs y g in
      let (j, jl, je) = w.only a s in
      let (k, kl, ke) = u.only b t in
      elim (ℕ_discrete x y) [
        | yes e ↦
            let (i, il, ie) = w.only b (ap (λ z. taken z b) e ∙ t) in
            ground (arith, w.chain.apart i j, w.chain.apart j i, ie, je, d e)
        | no e ↦ ground (
          arith,
          v.slabbed.regions x y h g e,
          within m.objs x (base m x) (stop m x) w.len w.at w.chain j jl,
          within m.objs y (base m y) (stop m y) u.len u.at u.chain k kl,
          je,
          ke,
        )
      ]

given-IsPool :
    (m m' : MemPool) (taken : ℕ → ℕ → Bool) (n : ℕ) (at : ℕ → ℕ) (size p : ℕ)
    → Given m taken n at size (m', p)
    → IsPool m' (marked taken (m'.objs (p - 32)).slab (p - 32) true)
given-IsPool m m' taken n at size p g =
    let here : g.chunk ≡ p - 32 = omega (arith, g.memory) in
    let held : marked taken g.slab g.chunk true g.slab g.chunk ≡ true =
      ap (λ f. f g.chunk) (upd_self taken g.slab _) ∙ upd_self (taken g.slab) g.chunk true in
    let owner : g.slab ≡ (m'.objs (p - 32)).slab =
      sym ((owner_of m' _ g.pool g.slab g.chunk held).0) ∙ ap (λ a. (m'.objs a).slab) here in
    subst (λ s. IsPool m' (marked taken s (p - 32) true)) owner
      (subst (λ a. IsPool m' (marked taken g.slab a true)) here g.pool)

pub reached-IsPool : (m : MemPool) (taken : ℕ → ℕ → Bool) → Reached m taken → IsPool m taken
reached-IsPool _ _ (by_init raw size count most m h l e) =
    elim (Returns-ok (init_correct raw size count most h l) e) [
      | inl (x, _, _) ↦ absurd (ground (arith, x))
      | inr s ↦ s.pool
    ]
reached-IsPool _ _ (by_malloc m taken n m' p r h e d) =
    elim (Returns-ok (malloc_correct m taken (reached-IsPool m taken r) n h) e) [
      | inl (_, x) ↦ absurd (d (ap (λ y. y.1) x))
      | inr s ↦ elim s [
        | refused x _ _ ↦ absurd (d (ap (λ y. y.1) x))
        | from_slab g ↦ given-IsPool m m' taken _ _ _ p g
        | from_new _ m1 l g ↦ given-IsPool m1 m' taken _ _ _ p g
      ]
    ]
reached-IsPool _ _ (by_refusal m taken n m' r h e) =
    let v = reached-IsPool m taken r in
    elim (Returns-ok (malloc_correct m taken v n h) e) [
      | inl (_, x) ↦ subst (λ y. IsPool y taken) (sym (ap (λ y. y.0) x)) v
      | inr s ↦ elim s [
        | refused x _ _ ↦ subst (λ y. IsPool y taken) (sym (ap (λ y. y.0) x)) v
        | from_slab g ↦ absurd (omega (arith, g.memory))
        | from_new _ m1 l g ↦ absurd (omega (arith, g.memory))
      ]
    ]
reached-IsPool _ _ (by_free m taken s p m' r t e) =
    (Returns-ok (free_correct m taken (reached-IsPool m taken r) s p t) e).pool

-- The chunk that malloc has found is apart from every chunk that is held.
Given-apart :
    (m : MemPool) (r : MemPool × ℕ) (taken : ℕ → ℕ → Bool) (n : ℕ) (at : ℕ → ℕ) (size : ℕ)
    → Given m taken n at size r
    → (x b : ℕ) → taken x b ≡ true
    → (32 ≤ r.1)
      × (size ≤ (r.0.objs (r.1 - 32)).size)
      × ((r.1 + (r.0.objs (r.1 - 32)).size ≤ b) ⊎ (b + 32 + (r.0.objs b).size ≤ r.1 - 32))
Given-apart m r taken n at size g x b t =
    let here : g.chunk ≡ r.1 - 32 = omega (arith, g.memory) in
    let same : (r.0.objs g.chunk).size ≡ (r.0.objs (r.1 - 32)).size =
      ap (λ a. (r.0.objs a).size) here in
    let new : marked taken g.slab g.chunk true g.slab g.chunk ≡ true =
      ap (λ f. f g.chunk) (upd_self taken g.slab _) ∙ upd_self (taken g.slab) g.chunk true in
    let other : g.slab ≡ x → g.chunk ≢ b =
      λ e f. ground (arith, g.unused, ap (λ z. taken z g.chunk) e, ap (taken x) f, t) in
    let still : marked taken g.slab g.chunk true x b ≡ true = elim (ℕ_discrete g.slab x) [
      | yes e ↦
          ap (λ z. marked taken g.slab g.chunk true z b) (sym e)
          ∙ ap (λ f. f b) (upd_self taken g.slab _)
          ∙ upd_ne (taken g.slab) g.chunk b true (other e)
          ∙ ap (λ z. taken z b) e
          ∙ t
      | no e ↦ ap (λ f. f b) (upd_ne taken g.slab x _ e) ∙ t
    ] in
    let apart = chunks_apart r.0 _ g.pool g.slab x g.chunk b new still other in
    (
      omega (arith, g.memory),
      omega (arith, g.enough, same),
      elim apart [
        | inl l ↦ inl (omega (arith, l, same, g.memory))
        | inr l ↦ inr (omega (arith, l, here))
      ],
    )

-- On every pool that the calls lead to, where malloc does not return null, its memory is of the size asked
-- for, rounded up, or larger, and it and its header overlap no chunk that the caller holds, so that malloc gives out no
-- memory twice.
pub malloc_apart :
    (m : MemPool) (taken : ℕ → ℕ → Bool)
    → Reached m taken
    → (n : ℕ) → 0 < n
    → (m' : MemPool) (p : ℕ) → malloc m n ≡ ok (m', p)
    → p ≢ 0
    → (x b : ℕ) → taken x b ≡ true
    → (32 ≤ p)
      × (malloc_roundup n ≤ (m'.objs (p - 32)).size)
      × ((p + (m'.objs (p - 32)).size ≤ b) ⊎ (b + 32 + (m'.objs b).size ≤ p - 32))
malloc_apart m taken r n h m' p e d x b t =
    elim (Returns-ok (malloc_correct m taken (reached-IsPool m taken r) n h) e) [
      | inl (_, z) ↦ absurd (d (ap (λ y. y.1) z))
      | inr s ↦ elim s [
        | refused z _ _ ↦ absurd (d (ap (λ y. y.1) z))
        | from_slab g ↦ Given-apart m (m', p) taken _ _ _ g x b t
        | from_new _ m1 l g ↦ Given-apart m1 (m', p) taken _ _ _ g x b t
      ]
    ]
