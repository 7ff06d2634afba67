-- ===== src/Heap/Valid.antt =====
-- ndk/heap.h: the invariant of a heap, and its items as a set.
use cute_ndk.Base.{ℕ, ◌≤◌, ◌<◌, ◌≡◌, ◌≢◌, ◌∙◌, sym, Bool, some, refl, arith}
use cute_ndk.Heap.{Heap, init}
use cute_ndk.Heap.Order.{IsHeap}
use cute_ndk.Heap.Places.{Has, IsPlaced}
use cute_ndk.Heap.Ready.{id, Ready, Sifted}

-- `p` is an item of the heap.
abbrev pub Holds : Heap → ℕ → Type 0
Holds h p = Has h.size h.cells.at p

pub record IsValid (before : ℕ → ℕ → Bool) (h : Heap) : Type 0 where
  pub room : h.size ≤ h.max_size
  pub cap : h.cells.cap ≡ h.max_size
  pub real : (c : ℕ) → c < h.size → h.cells.at c ≢ 0
  pub heap : IsHeap before h.size h.cells.at
  pub placed : IsPlaced id h.size h.cells.at h.heap_idx

pub init-IsValid : (before : ℕ → ℕ → Bool) (n : ℕ) → IsValid before (init n)
unfolding init
init-IsValid before n = record {
  room = omega arith;
  cap = omega arith;
  real = λ c p. absurd (omega arith);
  heap = λ c p q. absurd (omega arith);
  placed = λ c p. absurd (omega arith);
}

-- The item whose index is a place of the heap is there.
pub find_item :
    (before : ℕ → ℕ → Bool) (h : Heap) (p : ℕ)
    → IsValid before h
    → Holds h p
    → (i : ℕ) × (i < h.size) × (h.cells.at i ≡ p) × (h.heap_idx p ≡ some i)
find_item before h p v (c, q, e) = (c, q, e, ground (arith, v.placed c))

module _ (before : ℕ → ℕ → Bool) (h : Heap) (i m : ℕ) (r : Ready h i m) where
  pub Sifted-IsValid :
      (h' : Heap)
      → h.size ≤ h.max_size
      → h.cells.cap ≡ h.max_size
      → Sifted before h i m h'
      → IsValid before h'
  Sifted-IsValid h' p q s = record {
    room = omega (arith, s.size, s.max);
    cap = s.cap ∙ q ∙ sym s.max;
    real = λ c t.
        let (d, u, e) = (s.same (h'.cells.at c)).0 (c, omega (arith, s.size), refl) in
        ground (arith, r.others d, r.real);
    heap = λ c t u. s.heap c t (omega (arith, s.size));
    placed = λ c t. s.placed c (omega (arith, s.size));
  }
