-- ===== src/Heap/Places.antt =====
-- ndk/heap.h and ndk/timer_queue.cpp: where the items of an array heap stand, while one place is a
-- hole that waits for the moved item. Each item has a key, and the index maps a key to a place.
use cute_ndk.Base.{
  ℕ, ◌<◌, ◌≡◌, ◌≢◌, ◌↔◌, ◌⊎◌, inl, inr, Option, some, arith, ◌+◌, ◌==◌, if◌then◌else◌,
}
use native.Mathlib.Decide.{ℕ_discrete}
use cute_ndk.Base.Array.{upd}

-- The first `n` cells hold the item `p`.
abbrev pub Has : ℕ → (ℕ → ℕ) → ℕ → Type 0
Has n f p = (c : ℕ) × (c < n) × (f c ≡ p)

-- The same items stand in both.
abbrev pub Same : ℕ → (ℕ → ℕ) → (ℕ → ℕ) → Type 0
Same n f g = (p : ℕ) → Has n f p ↔ Has n g p

module _ (key : ℕ → ℕ) (n : ℕ) where
  -- The index knows the place of each item.
  abbrev pub IsPlaced : (ℕ → ℕ) → (ℕ → Option ℕ) → Type 0
  IsPlaced f ix = (c : ℕ) → c < n → ix (key (f c)) ≡ some c

  -- The same but for the place `i`, whose item has a key of its own.
  pub record Hole (f : ℕ → ℕ) (ix : ℕ → Option ℕ) (i : ℕ) : Type 0 where
    pub placed : (c : ℕ) → c < n → c ≢ i → ix (key (f c)) ≡ some c
    pub own : (c : ℕ) → c < n → c ≢ i → key (f c) ≢ key (f i)

  module _ (g : ℕ → ℕ) (ix : ℕ → Option ℕ) (i m : ℕ) (hole : Hole (upd g i m) ix i) where
    -- The item at `k` moves into the hole.
    pub move-Hole :
        (k : ℕ) → k < n → k ≢ i → Hole (upd (upd g i (g k)) k m) (upd ix (key (g k)) (some i)) k
    move-Hole k h e = record {
      placed = λ c p q. ground (arith, hole.placed c, hole.placed k, hole.own c, hole.own k);
      own = λ c p q. ground (arith, hole.own c, hole.own k);
    }

    -- The moved item fills the hole.
    pub fill-IsPlaced : IsPlaced (upd g i m) (upd ix (key m) (some i))
    fill-IsPlaced c p = ground (arith, hole.placed c, hole.own c)

-- Distinct places hold distinct keys.
pub IsPlaced-injective :
    (key : ℕ → ℕ) (n : ℕ) (f : ℕ → ℕ) (ix : ℕ → Option ℕ)
    → IsPlaced key n f ix
    → (c d : ℕ) → c < n
    → d < n
    → c ≢ d
    → key (f c) ≢ key (f d)
IsPlaced-injective key n f ix h c d p q e = ground (arith, h c, h d)

-- Where a place goes when two are exchanged.
abbrev swapped : ℕ → ℕ → ℕ → ℕ
swapped i k c = if c == i then k else if c == k then i else c

pub move-Same :
    (n : ℕ) (g : ℕ → ℕ) (i k m : ℕ) → i < n → k < n → Same n (upd (upd g i (g k)) k m) (upd g i m)
move-Same n g i k m hi hk p = (
  λ (c, q, e). (swapped i k c, ground arith, ground arith),
  λ (c, q, e). (swapped i k c, ground arith, ground arith),
)

pub Same-refl : (n : ℕ) (f : ℕ → ℕ) → Same n f f
Same-refl n f p = (λ h. h, λ h. h)

pub Same-trans : (n : ℕ) (f g h : ℕ → ℕ) → Same n f g → Same n g h → Same n f h
Same-trans n f g h a b p = (λ x. (b p).0 ((a p).0 x), λ x. (a p).1 ((b p).1 x))

-- A new last cell.
pub Has-grow : (n : ℕ) (f : ℕ → ℕ) (m p : ℕ) → Has (n + 1) (upd f n m) p ↔ (Has n f p ⊎ (p ≡ m))
Has-grow n f m p = (split, join)
  where
    split : Has (n + 1) (upd f n m) p → Has n f p ⊎ (p ≡ m)
    split (c, q, e) = elim (ℕ_discrete c n) [
      | yes a ↦ inr (ground arith)
      | no a ↦ inl (c, omega arith, ground arith)
    ]

    join : Has n f p ⊎ (p ≡ m) → Has (n + 1) (upd f n m) p
    join (inl (c, q, e)) = (c, omega arith, ground arith)
    join (inr e) = (n, omega arith, ground arith)
